-- ===== src/PageTable/Table.antt =====
-- The members of `page_table` that find a bucket by the hash of the id and work under its lock
-- (dex/include/tree/page_table.h).
use dex_partial.Base.{
  ℕ, ◌+◌, ◌/◌, ◌%◌, ◌≡◌, ◌≢◌, ◌⊎◌, refl, arith, Bool, false, ◌&&◌, not, ◌==◌, if◌then◌else◌, List,
  [], ◌∷◌, Option, none, some, Array, write, Bool-cases, inl, inr,
}
use dex_partial.VersionLock.{test_lock_set, test_lock_version_change}
use dex_partial.PageTable.{
  PageBucket, zero_bucket, num_entry_in_page_bucket, get, insert, insert_io_flag, upsert, remove,
  remove_key, update, rmw,
}
use dex_partial.PageTable.Contract.{
  IsValid, get-upsert, get-remove, upsert-IsValid, remove_page-IsValid, get-rmw, get-insert,
  get-update, insert_page-IsValid, update-IsValid, rmw-IsValid,
}

pub record PageTable : Type 0 where
  pub bucket_num : ℕ
  pub table : Array (List PageBucket)

unfoldable pub new : ℕ → PageTable
new entry_num = record {
  bucket_num =
      if entry_num % num_entry_in_page_bucket == 0
      then entry_num / num_entry_in_page_bucket
      else entry_num / num_entry_in_page_bucket + 1;
  table = λ _. zero_bucket ∷ [];
}

-- `reset` frees the overflow buckets (`traverse_and_delete`) and zeroes the others.
unfoldable pub reset : PageTable → PageTable
reset t = record t { table = λ _. zero_bucket ∷ [] }

-- `get_with_lock` tries until it reads an unlocked word, and the same word again after the search. An
-- attempt is the first word, the chain that the search sees, and the second word; `none` if every one
-- of the attempts fails.
unfoldable pub get_with_lock : List (ℕ × List PageBucket × ℕ) → ℕ → Option ℕ
unfolding get test_lock_set test_lock_version_change
get_with_lock [] key = none
get_with_lock ((word, chain, word_after) ∷ attempts) key =
    let again = get_with_lock attempts key in
    if test_lock_set 31 word
    then again
    else if test_lock_version_change 31 word_after word
    then again
    else some (get chain key)

-- Some attempt loads the word, sees the chain and loads the word again.
abbrev pub Observed : ℕ → List PageBucket → List (ℕ × List PageBucket × ℕ) → Type 0
Observed word chain [] = ⊥
Observed word chain ((w, c, w_after) ∷ attempts) =
    ((w ≡ word) × (c ≡ chain) × (w_after ≡ word)) ⊎ Observed word chain attempts

module _ (hash : ℕ → ℕ) where
  unfoldable pub bucket_idx : PageTable → ℕ → ℕ
  bucket_idx t key = hash key % t.bucket_num

  -- The page that the table has for an id, read with nothing else running.
  unfoldable pub lookup : PageTable → ℕ → ℕ
  unfolding bucket_idx get
  lookup t key = get (t.table (bucket_idx t key)) key

  put_chain : PageTable → ℕ → List PageBucket → PageTable
  put_chain t key chain = record t { table = write t.table (bucket_idx t key) chain }

  unfoldable pub insert_with_lock : PageTable → ℕ → ℕ → PageTable × Bool × ℕ
  unfolding bucket_idx insert put_chain
  insert_with_lock t key value =
      let r = insert (t.table (bucket_idx t key)) key value in (put_chain t key r.0, r.1, r.2)

  unfoldable pub insert_io_flag_with_lock : PageTable → ℕ → PageTable × Bool
  unfolding bucket_idx insert_io_flag put_chain
  insert_io_flag_with_lock t key =
      let r = insert_io_flag (t.table (bucket_idx t key)) key in (put_chain t key r.0, r.1)

  unfoldable pub upsert_with_lock : PageTable → ℕ → ℕ → PageTable × Bool × ℕ
  unfolding bucket_idx upsert put_chain
  upsert_with_lock t key value =
      let r = upsert (t.table (bucket_idx t key)) key value in (put_chain t key r.0, r.1, r.2)

  unfoldable pub remove_with_lock : PageTable → ℕ → ℕ → PageTable × Bool
  unfolding bucket_idx remove put_chain
  remove_with_lock t key value =
      let r = remove (t.table (bucket_idx t key)) key value in (put_chain t key r.0, r.1)

  unfoldable pub check_and_remove : PageTable → ℕ → PageTable × Bool
  unfolding bucket_idx remove_key put_chain get
  check_and_remove t key =
      let r = remove_key (t.table (bucket_idx t key)) key in
      if get (t.table (bucket_idx t key)) key == 0 then (t, false) else (put_chain t key r.0, r.1)

  unfoldable pub update_with_lock : PageTable → ℕ → ℕ → ℕ → PageTable × Bool × ℕ
  unfolding bucket_idx update put_chain
  update_with_lock t key new_value old_value =
      let r = update (t.table (bucket_idx t key)) key new_value old_value in
      (put_chain t key r.0, r.1, r.2)

  unfoldable pub rmw_with_lock : PageTable → ℕ → ℕ → ℕ → PageTable × Bool
  unfolding bucket_idx rmw put_chain
  rmw_with_lock t key new_value old_value =
      let r = rmw (t.table (bucket_idx t key)) key new_value old_value in (put_chain t key r.0, r.1)

  program : Unit {0}
  unfolding lookup bucket_idx put_chain insert_with_lock upsert_with_lock remove_with_lock
      update_with_lock rmw_with_lock
  program = tt

  -- Every chain of the table is well formed.
  abbrev pub IsWell : PageTable → Type 0
  IsWell t = (i : ℕ) → IsValid (t.table i)

  put_chain-IsWell :
      (t : PageTable)
      → IsWell t
      → (k : ℕ) (chain : List PageBucket) → IsValid chain
      → IsWell (put_chain t k chain)
  unfolding put_chain
  put_chain-IsWell t valid k chain h i = elim (Bool-cases (i == bucket_idx t k)) [
    | inl e ↦ rw e h
    | inr e ↦ rw e (valid i)
  ]

  module _ (t : PageTable) (valid : IsWell t) (k v : ℕ) (h : v ≢ 0) where
    -- With well formed chains and a page that is not null, the table is a map from page ids to pages,
    -- whatever the hash is: `insert_with_lock` adds where there is none,
    -- `upsert_with_lock` replaces, `update_with_lock` and `RMW_with_lock` replace where there is one (or
    -- the expected one), and `remove_with_lock` takes the given page out; no other id is touched.
    pub lookup-changes :
        (q : ℕ)
        → (lookup (insert_with_lock t k v).0 q
            ≡ (if q == k && lookup t k == 0 then v else lookup t q))
          × (lookup (upsert_with_lock t k v).0 q ≡ (if q == k then v else lookup t q))
          × (lookup (remove_with_lock t k v).0 q
              ≡ (if q == k && lookup t k == v then 0 else lookup t q))
          × ((old : ℕ)
              → lookup (update_with_lock t k v old).0 q
                ≡ (if q == k && not (lookup t k == 0) then v else lookup t q))
          × ((w : ℕ)
              → w ≢ 0
              → lookup (rmw_with_lock t k w v).0 q
                ≡ (if q == k && lookup t k == v then w else lookup t q))
    unfolding program
    lookup-changes q =
        let c = t.table (hash k % t.bucket_num) in
        let w = valid (hash k % t.bucket_num) in
        elim (Bool-cases (hash q % t.bucket_num == hash k % t.bucket_num)) [
          | inl e ↦
              let same : hash q % t.bucket_num ≡ hash k % t.bucket_num = ground (arith, e) in
              (
                rw (same) (ground (arith, (get-insert c w k v h).0 q)),
                rw (same) (ground (arith, (get-upsert c w k v h).0 q)),
                rw (same) (ground (arith, (get-remove c w k v h).0 q)),
                λ old. rw (same) (ground (arith, (get-update c w k v h old).0 q)),
                λ n p. rw (same) (ground (arith, (get-rmw c w k v h n p).0 q)),
              )
          | inr e ↦
              let other : (q == k) ≡ false = ground (arith, e) in
              (
                rw (e, other),
                rw (e, other),
                rw (e, other),
                λ old. rw (e, other),
                λ n p. rw (e, other),
              )
        ]

    -- With well formed chains and a page that is not null, which for RMW the new page is too, the
    -- changes by insert, upsert, remove, update and RMW under the lock keep one frame at most for an
    -- id, and the count of each bucket at the number of its used frames.
    pub changes-IsWell :
        IsWell (insert_with_lock t k v).0
        × IsWell (upsert_with_lock t k v).0
        × IsWell (remove_with_lock t k v).0
        × ((old : ℕ) → IsWell (update_with_lock t k v old).0)
        × ((w : ℕ) → w ≢ 0 → IsWell (rmw_with_lock t k w v).0)
    unfolding program
    changes-IsWell =
        let c = t.table (hash k % t.bucket_num) in
        let w = valid (hash k % t.bucket_num) in
        (
          put_chain-IsWell t valid k _ (insert_page-IsValid c w k v h),
          put_chain-IsWell t valid k _ (upsert-IsValid c w k v h),
          put_chain-IsWell t valid k _ (remove_page-IsValid c w k v h),
          λ old. put_chain-IsWell t valid k _ (update-IsValid c w k v h old),
          λ n p. put_chain-IsWell t valid k _ (rmw-IsValid c w k v h n p),
        )

-- `get_with_lock` returns only the result of a search between two loads of one unlocked word.
pub get_with_lock-some :
    (attempts : List (ℕ × List PageBucket × ℕ)) (key page : ℕ)
    → get_with_lock attempts key ≡ some page
    → (word : ℕ) × (chain : List PageBucket) × Observed word chain attempts
      × (test_lock_set 31 word ≡ false)
      × (page ≡ get chain key)
unfolding get_with_lock test_lock_version_change
get_with_lock-some [] key page e = absurd (ground arith)
get_with_lock-some ((word, chain, word_after) ∷ attempts) key page e =
    elim (Bool-cases (test_lock_set 31 word)) [
      | inl p ↦
          let (w, c, o, u, r) = get_with_lock-some attempts key page (ground (arith, e)) in
          (w, c, inr o, u, r)
      | inr p ↦ elim (Bool-cases (word == word_after)) [
        | inl q ↦ (word, chain, inl (refl, refl, ground arith), p, ground (arith, e))
        | inr q ↦
            let (w, c, o, u, r) = get_with_lock-some attempts key page (ground (arith, e)) in
            (w, c, inr o, u, r)
      ]
    ]
