-- ===== src/BTree/Inner/Loops.antt =====
-- The loops of `findIdx` and of the bit scans.
use dex_partial.Base.{
  ℕ, zero, suc, ◌+◌, ◌-◌, ◌≤◌, ◌<◌, ◌≡◌, ◌≢◌, ◌⊎◌, inl, inr, refl, arith, ◌==◌, Array, Bool-cases,
  none, some,
}
use dex_partial.Base.Bits.{bit, bit-le}
use dex_partial.BTree.Inner.{Inner, find_idx_loop, find_idx, tzcnt_loop, lzcnt_loop}

-- From index `i` on, the lowest bit that is set, or `i + left` if none is.
pub tzcnt_loop_lem :
    (left i x : ℕ)
    → (i ≤ tzcnt_loop left i x)
      × ((j : ℕ) → i ≤ j → j < tzcnt_loop left i x → bit x j ≡ 0)
      × ((tzcnt_loop left i x < i + left) → bit x (tzcnt_loop left i x) ≡ 1)
      × (tzcnt_loop left i x ≤ i + left)
unfolding tzcnt_loop
tzcnt_loop_lem zero i x =
    (omega arith, (λ j h q. absurd (omega arith)), (λ h. absurd (omega arith)), omega arith)
tzcnt_loop_lem (suc left) i x =
    let (low, below, at, high) = tzcnt_loop_lem left (i + 1) x in
    (
      ground arith,
      (λ j h q. ground (arith, below j, bit-le x i)),
      (λ h. ground arith),
      ground arith,
    )

-- Below `n`, the number of places above the highest bit that is set.
pub lzcnt_loop_lem :
    (n x : ℕ)
    → (lzcnt_loop n x ≤ n)
      × ((j : ℕ) → n - lzcnt_loop n x ≤ j → j < n → bit x j ≡ 0)
      × (lzcnt_loop n x < n → bit x (n - 1 - lzcnt_loop n x) ≡ 1)
unfolding lzcnt_loop
lzcnt_loop_lem zero x = (omega arith, (λ j h q. absurd (omega arith)), (λ h. absurd (omega arith)))
lzcnt_loop_lem (suc n) x =
    let (low, above, at) = lzcnt_loop_lem n x in
    (ground arith, (λ j h q. ground (arith, above j, bit-le x n)), (λ h. ground arith))

find_idx_loop_lem :
    (left i : ℕ) (children : Array ℕ) (target : ℕ)
    → ((find_idx_loop left i children target ≡ none)
        × ((j : ℕ) → i ≤ j → j < i + left → children j ≢ target))
      ⊎ ((r : ℕ) × (find_idx_loop left i children target ≡ some r)
          × (i ≤ r)
          × (r < i + left)
          × (children r ≡ target)
          × ((j : ℕ) → i ≤ j → j < r → children j ≢ target))
unfolding find_idx_loop
find_idx_loop_lem zero i children target = inl (refl, λ j h q. absurd (omega arith))
find_idx_loop_lem (suc left) i children target = elim (Bool-cases (children i == target)) [
  | inl e ↦ inr (i, rw e, omega arith, omega arith, ground arith, λ j h q. absurd (omega arith))
  | inr e ↦ elim (find_idx_loop_lem left (i + 1) children target) [
    | inl (gone, absent) ↦ inl (rw e gone, λ j h q. ground (arith, absent j))
    | inr (r, found, low, high, at, before) ↦
        inr (r, rw e found, omega arith, omega arith, at, λ j h q. ground (arith, before j))
  ]
]

-- `findIdx` returns the first of the `count + 1` children that is the target, and -1 if none is.
pub find_idx_cases :
    (inner : Inner) (target : ℕ)
    → ((find_idx inner target ≡ none)
        × ((j : ℕ) → j ≤ inner.base.count → inner.children j ≢ target))
      ⊎ ((r : ℕ) × (find_idx inner target ≡ some r)
          × (r ≤ inner.base.count)
          × (inner.children r ≡ target)
          × ((j : ℕ) → j < r → inner.children j ≢ target))
unfolding find_idx
find_idx_cases inner target =
    elim (find_idx_loop_lem (inner.base.count + 1) 0 inner.children target) [
      | inl (gone, absent) ↦ inl (gone, λ j h. absent j (omega arith) (omega arith))
      | inr (r, found, low, high, at, before) ↦
          inr (r, found, omega arith, at, λ j h. before j (omega arith) h)
    ]
