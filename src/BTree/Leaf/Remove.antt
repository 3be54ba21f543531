-- ===== src/BTree/Leaf/Remove.antt =====
-- `remove` and `update`: the entries they leave, and what `find` reads afterwards.
use dex_partial.Base.{
  ℕ, ◌+◌, ◌-◌, ◌≤◌, ◌<◌, ◌≡◌, ◌≢◌, ◌⊎◌, inl, inr, arith, true, false, ◌==◌, if◌then◌else◌, none,
  Bool-cases, ◌↔◌,
}
use dex_partial.BTree.Node.{range_valid}
use dex_partial.BTree.Leaf.{Leaf, keys, lower_bound, find, remove, update, insert}
use dex_partial.BTree.Leaf.Lookup.{IsValid, place_of_key, find_at, find_absent, find_cases}
use dex_partial.BTree.Leaf.Writes.{insert_present}

-- `m` has the entries of `leaf` without the one at `pos`, and the same key range.
record Closes {V : Type 0} (leaf m : Leaf V) (pos : ℕ) : Type 0 where
  count : m.base.count + 1 ≡ leaf.base.count
  low : (j : ℕ) → j < pos → m.entries j ≡ leaf.entries j
  high : (j : ℕ) → pos ≤ j → j + 1 < leaf.base.count → m.entries j ≡ leaf.entries (j + 1)
  min_limit : m.base.min_limit ≡ leaf.base.min_limit
  max_limit : m.base.max_limit ≡ leaf.base.max_limit
  consistent : leaf.base.front_version ≡ leaf.back_version → m.base.front_version ≡ m.back_version

module _ {V : Type 0} (leaf m : Leaf V) (valid : IsValid leaf) (pos : ℕ)
    (inside : pos < leaf.base.count) (closes : Closes leaf m pos) where
  Closes-IsValid : IsValid m
  unfolding range_valid
  Closes-IsValid = record {
    few = omega (arith, closes.count, valid.few);
    sorted = λ i j h q. ground (
      arith,
      closes.count,
      closes.low i,
      closes.low j,
      closes.high i,
      closes.high j,
      valid.sorted i j,
      valid.sorted i (j + 1),
      valid.sorted (i + 1) (j + 1),
    );
    in_range = λ i h. ground (
      arith,
      closes.count,
      closes.low i,
      closes.high i,
      closes.min_limit,
      closes.max_limit,
      valid.in_range i,
      valid.in_range (i + 1),
    );
    consistent = closes.consistent valid.consistent;
  }

  Closes-find :
      (k : ℕ) → keys leaf pos ≡ k → (q : ℕ) → find m q ≡ (if q == k then none else find leaf q)
  Closes-find k at_pos q =
      let ok = Closes-IsValid in
      elim (find_cases leaf valid.sorted valid.few q) [
        | inl (i, h, e, _) ↦ elim (Bool-cases (q == k)) [
          | inl same ↦ rw same (
              find_absent m ok.sorted ok.few q λ j r. ground (
                arith,
                closes.count,
                closes.low j,
                closes.high j,
                valid.sorted j pos,
                valid.sorted pos (j + 1),
              ))
          | inr other ↦ ground (
            arith,
            closes.count,
            closes.low i,
            closes.high (i - 1),
            find_at leaf valid.sorted valid.few i q h e,
            find_at m ok.sorted ok.few i q,
            find_at m ok.sorted ok.few (i - 1) q,
          )
        ]
        | inr (_, absent) ↦ ground (
          arith,
          absent pos,
          find_absent leaf valid.sorted valid.few q absent,
          find_absent m ok.sorted ok.few q (λ j r.
              ground (arith, closes.count, closes.low j, closes.high j, absent j, absent (j + 1))),
        )
      ]

module _ {V : Type 0} (leaf : Leaf V) (valid : IsValid leaf) (k : ℕ) where
  remove_present :
      (i : ℕ)
      → i < leaf.base.count
      → keys leaf i ≡ k
      → Closes leaf (remove leaf k).0 i × ((remove leaf k).1 ≡ true)
  unfolding remove
  remove_present i h e = rw (place_of_key leaf valid.sorted valid.few i k h e) (
    record {
      count = ground (arith, valid.few);
      low = λ j r. ground (arith, valid.few);
      high = λ j r s. ground (arith, valid.few);
      min_limit = ground arith;
      max_limit = ground arith;
      consistent = λ c. ground arith;
    },
    ground arith,
  )

  remove_absent : ((i : ℕ) → i < leaf.base.count → keys leaf i ≢ k) → remove leaf k ≡ (leaf, false)
  unfolding remove
  remove_absent absent = ground (arith, absent (lower_bound leaf k))

  -- On a well formed leaf, whose keys rise, are in its range and fit: after a remove a lookup finds
  -- nothing under the key and the same as before under the others, and the result says whether the
  -- key was there.
  pub find-remove :
      ((q : ℕ) → find (remove leaf k).0 q ≡ (if q == k then none else find leaf q))
      × (((remove leaf k).1 ≡ true) ↔ (find leaf k ≢ none))
  find-remove = elim (find_cases leaf valid.sorted valid.few k) [
    | inl (i, h, e, _) ↦
        let (closes, flag) = remove_present i h e in
        (
          Closes-find leaf (remove leaf k).0 valid i h closes k e,
          ((λ _ z. cc (z, find_at leaf valid.sorted valid.few i k h e)), λ _. flag),
        )
    | inr (_, absent) ↦
        let gone = find_absent leaf valid.sorted valid.few k absent in
        rw (remove_absent absent) ((λ q. ground (arith, gone)), ((λ z. cc), λ z. absurd (z gone)))
  ]

  -- `remove` keeps the leaf well formed, whether or not it holds the key.
  pub remove-IsValid : IsValid (remove leaf k).0
  remove-IsValid = elim (find_cases leaf valid.sorted valid.few k) [
    | inl (i, h, e, _) ↦ Closes-IsValid leaf (remove leaf k).0 valid i h (remove_present i h e).0
    | inr (_, absent) ↦ rw (remove_absent absent) valid
  ]

  module _ (p : V) where
    -- On a key that the leaf holds `update` leaves the same node as `insert` does; on any other it
    -- reports false and leaves the node alone.
    pub update_cases :
        ((find leaf k ≢ none) × (update leaf k p ≡ ((insert leaf k p).0, true)))
        ⊎ ((find leaf k ≡ none) × (update leaf k p ≡ (leaf, false)))
    unfolding update
    update_cases = elim (find_cases leaf valid.sorted valid.few k) [
      | inl (i, h, e, at) ↦ inl (
        (λ z. cc (z, find_at leaf valid.sorted valid.few i k h e)),
        rw (insert_present leaf valid k p i h e, at) (ground arith),
      )
      | inr (missed, absent) ↦ inr (find_absent leaf valid.sorted valid.few k absent, rw missed)
    ]
