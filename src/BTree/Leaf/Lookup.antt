-- ===== src/BTree/Leaf/Lookup.antt =====
-- The contract that the members share: what the entries are, and what `find` reads.
use dex_partial.Base.{
  ℕ, ◌≤◌, ◌<◌, ◌≡◌, ◌≢◌, ◌⊎◌, inl, inr, refl, arith, true, false, none, some, Bool-cases,
}
use dex_partial.BTree.Search.{IsSorted, Splits, lower_bound-Splits}
use dex_partial.BTree.Node.{range_valid}
use dex_partial.BTree.Leaf.{Leaf, max_entries, keys, hits, lower_bound, find}

pub record IsValid {V : Type 0} (leaf : Leaf V) : Type 0 where
  pub few : leaf.base.count ≤ max_entries
  pub sorted : IsSorted (keys leaf) leaf.base.count
  pub in_range : (i : ℕ) → i < leaf.base.count → range_valid leaf.base (keys leaf i) ≡ true
  pub consistent : leaf.base.front_version ≡ leaf.back_version

module _ {V : Type 0} (leaf : Leaf V) (sorted : IsSorted (keys leaf) leaf.base.count)
    (few : leaf.base.count ≤ max_entries) where
  pub place :
      0 < leaf.base.count → (k : ℕ) → Splits (keys leaf) leaf.base.count k (lower_bound leaf k)
  unfolding lower_bound
  place h k = lower_bound-Splits (keys leaf) leaf.base.count k sorted h (omega arith)

  -- The place of a key that the leaf holds is its index.
  pub place_of_key : (i k : ℕ) → i < leaf.base.count → keys leaf i ≡ k → lower_bound leaf k ≡ i
  place_of_key i k h e =
      let s = place (omega arith) k in
      ground (
        arith,
        s.inside,
        s.below i,
        s.above (lower_bound leaf k),
        s.above i,
        sorted (lower_bound leaf k) i,
        sorted i (lower_bound leaf k),
      )

  -- `find` returns the value of the entry with the key.
  pub find_at :
      (i k : ℕ) → i < leaf.base.count → keys leaf i ≡ k → find leaf k ≡ some (leaf.entries i).1
  unfolding find
  find_at i k h e = rw (place_of_key i k h e) (ground arith)

  pub find_absent : (k : ℕ) → ((i : ℕ) → i < leaf.base.count → keys leaf i ≢ k) → find leaf k ≡ none
  unfolding find
  find_absent k h = ground (arith, h (lower_bound leaf k))

  -- Where the key is, if it is.
  pub find_cases :
      (k : ℕ)
      → ((i : ℕ) × (i < leaf.base.count) × (keys leaf i ≡ k) × (lower_bound leaf k ≡ i))
        ⊎ ((hits leaf k (lower_bound leaf k) ≡ false)
            × ((i : ℕ) → i < leaf.base.count → keys leaf i ≢ k))
  find_cases k = elim (Bool-cases (hits leaf k (lower_bound leaf k))) [
    | inl e ↦ inl (lower_bound leaf k, ground arith, ground arith, refl)
    | inr e ↦ inr (e, λ i h q. ground (arith, place_of_key i k h q))
  ]
