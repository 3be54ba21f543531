-- ===== src/BTree/Leaf/Insert.antt =====
-- `insert` as an operation on the map that `find` reads.
use dex_partial.Base.{
  ltb→lt, ◌↔◌, ℕ, ◌<◌, ◌≡◌, ◌≢◌, ◌⊎◌, inl, inr, arith, true, false, ltb, ◌==◌, if◌then◌else◌, none,
  some, Bool-cases,
}
use dex_partial.BTree.Node.{range_valid}
use dex_partial.BTree.Leaf.{Leaf, max_entries, keys, find, insert, set_dirty}
use dex_partial.BTree.Leaf.Lookup.{IsValid, find_at, find_absent, find_cases}
use dex_partial.BTree.Leaf.Writes.{
  insert_present, insert_full, insert_room, Opens-find, Opens-IsValid, overwritten-find,
  overwritten-IsValid,
}

module _ {V : Type 0} (leaf : Leaf V) (valid : IsValid leaf) (k : ℕ) (p : V) where
  present_of_find : find leaf k ≢ none → (i : ℕ) × (i < leaf.base.count) × (keys leaf i ≡ k)
  present_of_find some_value = elim (find_cases leaf valid.sorted valid.few k) [
    | inl (i, h, e, _) ↦ (i, h, e)
    | inr (_, absent) ↦ absurd (some_value (find_absent leaf valid.sorted valid.few k absent))
  ]

  absent_of_find : find leaf k ≡ none → (i : ℕ) → i < leaf.base.count → keys leaf i ≢ k
  absent_of_find e i h q = cc (e, find_at leaf valid.sorted valid.few i k h q)

  -- After `insert`, on a leaf with room or with the key, `find` reads the new payload under the key
  -- and what it read before under every other key.
  pub find-insert :
      (find leaf k ≢ none) ⊎ (leaf.base.count < max_entries)
      → (q : ℕ) → find (insert leaf k p).0 q ≡ (if q == k then some p else find leaf q)
  find-insert fits q = elim (find_cases leaf valid.sorted valid.few k) [
    | inl (i, h, e, _) ↦
        rw (insert_present leaf valid k p i h e) (overwritten-find leaf valid k p i h e q)
    | inr (_, absent) ↦
        let room : leaf.base.count < max_entries = elim fits [
          | inl found ↦ absurd (found (find_absent leaf valid.sorted valid.few k absent))
          | inr r ↦ r
        ] in
        let (pos, s, o, _) = insert_room leaf valid k p room absent in
        Opens-find leaf (insert leaf k p).0 valid pos k p s absent o room q
  ]

  -- On a full leaf without the key, `insert` reports false and leaves the entries and the versions;
  -- it marks the page dirty all the same.
  pub insert_rejects :
      find leaf k ≡ none → leaf.base.count ≡ max_entries → insert leaf k p ≡ (set_dirty leaf, false)
  insert_rejects e full = insert_full leaf valid k p full (absent_of_find e)

  -- `insert` returns true exactly when it added an entry.
  pub insert-true_iff :
      ((insert leaf k p).1 ≡ true) ↔ ((find leaf k ≡ none) × (leaf.base.count < max_entries))
  insert-true_iff = elim (find_cases leaf valid.sorted valid.few k) [
    | inl (i, h, e, _) ↦
        rw (insert_present leaf valid k p i h e)
          ((λ q. cc), λ q. cc (q.0, find_at leaf valid.sorted valid.few i k h e))
    | inr (_, absent) ↦
        let gone = find_absent leaf valid.sorted valid.few k absent in
        elim (Bool-cases (ltb leaf.base.count max_entries)) [
          | inl r ↦ (
            (λ _. (gone, ltb→lt _ _ r)),
            λ _. (insert_room leaf valid k p (ltb→lt _ _ r) absent).3,
          )
          | inr r ↦
              rw (insert_full leaf valid k p (ground (arith, valid.few)) absent)
                ((λ q. cc), λ q. absurd (ground arith))
        ]
  ]

  -- `insert` of a key that belongs to the leaf's range keeps the leaf well formed, on every branch.
  pub insert-IsValid : range_valid leaf.base k ≡ true → IsValid (insert leaf k p).0
  unfolding range_valid
  insert-IsValid ok = elim (find_cases leaf valid.sorted valid.few k) [
    | inl (i, h, e, _) ↦
        rw (insert_present leaf valid k p i h e) (overwritten-IsValid leaf valid k p i h e)
    | inr (_, absent) ↦ elim (Bool-cases (ltb leaf.base.count max_entries)) [
      | inl r ↦
          let (pos, s, o, _) = insert_room leaf valid k p (ltb→lt _ _ r) absent in
          Opens-IsValid leaf (insert leaf k p).0 valid pos k p s absent o (ltb→lt _ _ r) ok
      | inr r ↦ rw (insert_full leaf valid k p (ground (arith, valid.few)) absent) (record {
        few = valid.few;
        sorted = valid.sorted;
        in_range = valid.in_range;
        consistent = valid.consistent;
      })
    ]
  ]
