-- ===== src/BTree/Leaf/Scan.antt =====
-- `range_scan`: how many entries it copies, and which.
use dex_partial.Base.{ℕ, ◌+◌, ◌-◌, ◌≤◌, ◌<◌, ◌≡◌, ◌⊎◌, inl, inr, arith, none, Array, min}
use dex_partial.BTree.Leaf.{Leaf, keys, find, range_scan}
use dex_partial.BTree.Leaf.Lookup.{IsValid, find_absent, find_cases}

-- The caller's array holds the entries from index `i` on, in order, and is not touched past them.
pub record Copied {V : Type 0} (leaf : Leaf V) (i num : ℕ) (array : Array (ℕ × V))
    (r : ℕ × Array (ℕ × V)) : Type 0 where
  pub copied : r.0 ≡ min (leaf.base.count - i) num
  pub entry : (j : ℕ) → j < r.0 → r.1 j ≡ leaf.entries (i + j)
  pub rest : (j : ℕ) → r.0 ≤ j → r.1 j ≡ array j

module _ {V : Type 0} (leaf : Leaf V) (valid : IsValid leaf) (k num : ℕ)
    (array : Array (ℕ × V)) where
  -- A scan that starts at a key of the leaf copies the entries from that key on, at most `num` of them
  -- and in order; a scan that starts at any other key copies nothing, even where larger keys follow.
  pub range_scan_cases :
      ((i : ℕ) × (i < leaf.base.count)
        × (keys leaf i ≡ k)
        × Copied leaf i num array (range_scan leaf k num array))
      ⊎ ((find leaf k ≡ none) × (range_scan leaf k num array ≡ (0, array)))
  unfolding range_scan
  range_scan_cases = elim (find_cases leaf valid.sorted valid.few k) [
    | inl (i, h, e, at) ↦ inl (
      i,
      h,
      e,
      rw at (record {
        copied = ground (arith, valid.few);
        entry = λ j q. ground (arith, valid.few);
        rest = λ j q. ground (arith, valid.few);
      }),
    )
    | inr (missed, absent) ↦ inr (find_absent leaf valid.sorted valid.few k absent, rw missed)
  ]
