-- ===== src/Rpc/Walk.antt =====
-- The walk down: it ends, and it does not see a change of a leaf.
use dex_partial.Base.{
  ℕ, zero, suc, ◌≡◌, ◌≤◌, ◌<◌, refl, ap, arith, false, ◌==◌, if◌then◌else◌, Option, none, some,
  write, Bool-cases, inl, inr, ◌⊎◌,
}
use dex_partial.BTree.Inner.{Inner, lower_bound}
use dex_partial.BTree.Inner.Route.{IsValid}
use dex_partial.BTree.Leaf.{Leaf}
use dex_partial.Allocators.Address.{of_val}
use dex_partial.Rpc.{Page, inner, leaf, Memory, Arrival, away, arrived, walk}

abbrev pub level_of : Page → ℕ
level_of (inner n) = n.base.level
level_of (leaf l) = l.base.level

-- Every inner page is well formed, and each of its children on this node is of a lower level.
abbrev pub IsLeveled : Memory → ℕ → Type 0
IsLeveled memory node_id =
    (o : ℕ) (n : Inner)
    → memory o ≡ inner n
    → IsValid n
      × ((i : ℕ)
          → i ≤ n.base.count
          → (of_val (n.children i)).node_id ≡ node_id
          → level_of (memory (of_val (n.children i)).offset) < n.base.level)

pub Page-cases : (p : Page) → ((n : Inner) × (p ≡ inner n)) ⊎ ((l : Leaf ℕ) × (p ≡ leaf l))
Page-cases (inner n) = inl (n, refl)
Page-cases (leaf l) = inr (l, refl)

-- The walk that ends at a leaf read it from the memory.
pub walk-arrived :
    (fuel : ℕ) (memory : Memory) (node_id k offset o : ℕ) (l : Leaf ℕ)
    → walk fuel memory node_id k offset ≡ some (arrived o l)
    → memory o ≡ leaf l
unfolding walk
walk-arrived zero memory node_id k offset o l h = absurd (ground arith)
walk-arrived (suc fuel) memory node_id k offset o l h = elim (Page-cases (memory offset)) [
  | inr (m, e) ↦ ground (arith, h, e)
  | inl (n, e) ↦
      let node = of_val (n.children (lower_bound n k)) in
      elim (Bool-cases (node.node_id == node_id)) [
        | inl s ↦ walk-arrived fuel memory node_id k node.offset o l (ground (arith, h, e, s))
        | inr s ↦ absurd (ground (arith, h, e, s))
      ]
]

-- Where the walk ends after the leaf at `o` was changed to `l`.
abbrev pub renewed : ℕ → Leaf ℕ → Option Arrival → Option Arrival
renewed o l none = none
renewed o l (some (away node)) = some (away node)
renewed o l (some (arrived p m)) = some (arrived p (if p == o then l else m))

pub walk-write :
    (fuel : ℕ) (memory : Memory) (node_id k offset o : ℕ) (old l : Leaf ℕ)
    → memory o ≡ leaf old
    → walk fuel (write memory o (leaf l)) node_id k offset
      ≡ renewed o l (walk fuel memory node_id k offset)
unfolding walk
walk-write zero memory node_id k offset o old l h = refl
walk-write (suc fuel) memory node_id k offset o old l h = elim (Page-cases (memory offset)) [
  | inr (m, e) ↦ elim (Bool-cases (offset == o)) [ inl q ↦ rw (e, q) | inr q ↦ rw (e, q) ]
  | inl (n, e) ↦
      let node = of_val (n.children (lower_bound n k)) in
      let apart : (offset == o) ≡ false = elim (Bool-cases (offset == o)) [
        | inl q ↦ let same : offset ≡ o = ground (arith, q) in absurd (cc (e, h, ap memory same))
        | inr q ↦ q
      ] in
      elim (Bool-cases (node.node_id == node_id)) [
        | inl s ↦ rw (apart, e, s) (walk-write fuel memory node_id k node.offset o old l h)
        | inr s ↦ rw (apart, e, s)
      ]
]
