-- ===== src/PageTable/Contract.antt =====
-- A chain as the map from page ids to pages, 0 where there is none.
use dex_partial.Base.{
  ℕ, ◌≤◌, ◌≡◌, ◌≢◌, inl, inr, arith, true, ◌&&◌, ◌==◌, not, if◌then◌else◌, List, Bool-cases,
}
use dex_partial.PageTable.{
  PageFrame, PageBucket, holds, holds_page, set_page, any, get, insert, upsert, remove, update, rmw,
  erase,
}
use dex_partial.PageTable.Chains.{
  total, IsCounted, any-total, any-page_of, page_of-set, total-set, total-add_page,
  page_of-add_page, add_page-IsCounted, set-IsCounted, any-of_page, set-of_page, erase-IsCounted,
  set-absent, erase-absent, total-erase, page_of-erase,
}

-- A page id is in one frame at most, and the buckets count their used frames.
pub record IsValid (chain : List PageBucket) : Type 0 where
  pub once : (k : ℕ) → total (holds k) chain ≤ 1
  pub counted : IsCounted chain

used : (k : ℕ) (f : PageFrame) → holds k f ≡ true → not (f.buffer_page == 0) ≡ true
used k f e = ground arith

program : Unit {0}
unfolding get insert upsert remove update rmw
program = tt

module _ (chain : List PageBucket) (valid : IsValid chain) (k v : ℕ) (h : v ≢ 0) where
  -- `insert` adds the page where the id has none; otherwise it leaves the chain and hands out the page
  -- that the id has.
  pub get-insert :
      ((q : ℕ)
        → get (insert chain k v).0 q ≡ (if q == k && get chain k == 0 then v else get chain q))
      × ((insert chain k v).1 ≡ (get chain k == 0))
      × ((insert chain k v).2 ≡ get (insert chain k v).0 k)
  unfolding program
  get-insert =
      let a = any-page_of k chain in
      let w = any-page_of in
      (
        λ q. ground (arith, a, page_of-add_page k v q chain h),
        ground (arith, a),
        ground (arith, a, page_of-add_page k v k chain h),
      )

  pub insert_page-IsValid : IsValid (insert chain k v).0
  unfolding program
  insert_page-IsValid = elim (Bool-cases (any (holds k) chain)) [
    | inl e ↦ rw e valid
    | inr e ↦ rw e (record {
      once = λ q. ground (
        arith,
        valid.once q,
        total-add_page k v q chain h,
        any-total (holds q) chain,
        any-total (holds k) chain,
      );
      counted = add_page-IsCounted k v chain h valid.counted;
    })
  ]

  -- `upsert` puts the page under the id and hands out the one that was there.
  pub get-upsert :
      ((q : ℕ) → get (upsert chain k v).0 q ≡ (if q == k then v else get chain q))
      × ((upsert chain k v).1 ≡ (get chain k == 0))
      × ((upsert chain k v).2 ≡ (if get chain k == 0 then v else get chain k))
  unfolding program
  get-upsert =
      let a = any-page_of k chain in
      (
        λ q. ground (arith, a, page_of-add_page k v q chain h, page_of-set k v q chain h),
        ground (arith, a),
        ground (arith, a),
      )

  pub upsert-IsValid : IsValid (upsert chain k v).0
  unfolding program
  upsert-IsValid = elim (Bool-cases (any (holds k) chain)) [
    | inl e ↦ rw e (record {
      once = λ q. rw (total-set k v q chain h) (valid.once q);
      counted = set-IsCounted (holds k) v chain h (used k) valid.counted;
    })
    | inr e ↦ rw e (record {
      once = λ q. ground (
        arith,
        valid.once q,
        total-add_page k v q chain h,
        any-total (holds q) chain,
        any-total (holds k) chain,
      );
      counted = add_page-IsCounted k v chain h valid.counted;
    })
  ]

  -- `update` changes the page of an id that has one, and hands out the old one.
  pub get-update :
      (old : ℕ)
      → ((q : ℕ)
          → get (update chain k v old).0 q
            ≡ (if q == k && not (get chain k == 0) then v else get chain q))
        × ((update chain k v old).1 ≡ not (get chain k == 0))
        × ((update chain k v old).2 ≡ (if get chain k == 0 then old else get chain k))
  unfolding program
  get-update old =
      let a = any-page_of k chain in
      (λ q. ground (arith, a, page_of-set k v q chain h), ground (arith, a), ground (arith, a))

  -- `remove` takes the page out if it is the one that the id has; every other id keeps its page, though
  -- a bucket may leave the chain.
  pub get-remove :
      ((q : ℕ)
        → get (remove chain k v).0 q ≡ (if q == k && get chain k == v then 0 else get chain q))
      × ((remove chain k v).1 ≡ (get chain k == v))
  unfolding program
  get-remove =
      let a = any-of_page k v h chain (valid.once k) in
      (
        λ q. elim (Bool-cases (q == k)) [
          | inl e ↦ ground (
            arith,
            a,
            any-page_of q (erase true (holds_page k v) chain),
            any-total (holds q) (erase true (holds_page k v) chain),
            total-erase k v h true q chain valid.counted,
            valid.once q,
            erase-absent true (holds_page k v) chain,
          )
          | inr e ↦ rw e (page_of-erase k v h true q chain valid.counted (ground arith))
        ],
        a,
      )

  pub remove_page-IsValid : IsValid (remove chain k v).0
  unfolding program
  remove_page-IsValid = record {
    once = λ q. ground (arith, valid.once q, total-erase k v h true q chain valid.counted);
    counted = erase-IsCounted k v h true chain valid.counted;
  }

  -- `RMW` is a compare-and-swap of the page that the id has.
  pub get-rmw :
      (new_value : ℕ)
      → new_value ≢ 0
      → ((q : ℕ)
          → get (rmw chain k new_value v).0 q
            ≡ (if q == k && get chain k == v then new_value else get chain q))
        × ((rmw chain k new_value v).1 ≡ (get chain k == v))
  unfolding program
  get-rmw new_value n =
      let a = any-of_page k v h chain (valid.once k) in
      (
        λ q. elim (Bool-cases (any (holds_page k v) chain)) [
          | inl e ↦ ground (
            arith,
            a,
            any-page_of k chain,
            set-of_page k v h (set_page new_value) chain (valid.once k) e,
            page_of-set k new_value q chain n,
          )
          | inr e ↦ ground (arith, a, set-absent (holds_page k v) (set_page new_value) chain e)
        ],
        a,
      )

  pub update-IsValid : (old : ℕ) → IsValid (update chain k v old).0
  unfolding program
  update-IsValid old = elim (Bool-cases (any (holds k) chain)) [
    | inl e ↦ rw e (record {
      once = λ q. rw (total-set k v q chain h) (valid.once q);
      counted = set-IsCounted (holds k) v chain h (used k) valid.counted;
    })
    | inr e ↦ rw e valid
  ]

  pub rmw-IsValid : (new_value : ℕ) → new_value ≢ 0 → IsValid (rmw chain k new_value v).0
  unfolding program
  rmw-IsValid new_value n = elim (Bool-cases (any (holds_page k v) chain)) [
    | inl e ↦ rw (set-of_page k v h (set_page new_value) chain (valid.once k) e) (record {
      once = λ q. rw (total-set k new_value q chain n) (valid.once q);
      counted = set-IsCounted (holds k) new_value chain n (used k) valid.counted;
    })
    | inr e ↦ rw (set-absent (holds_page k v) (set_page new_value) chain e) valid
  ]
