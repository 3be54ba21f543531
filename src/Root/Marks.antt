-- ===== src/Root/Marks.antt =====
-- The pages of `makeRoot`: the new root in memory, its children with their new parent, and the copy on the memory node.
use dex_partial.Base.{
  ℕ, ◌≡◌, inl, inr, refl, ap, ◌∙◌, arith, true, false, ◌==◌, some, Bool-cases, write,
}
use dex_partial.Base.Bits.{has_bit}
use dex_partial.BTree.Inner.{Inner, with_bitmap, set_bitmap}
use dex_partial.Rpc.{Page, inner, leaf}
use dex_partial.Tree.{Pages, base_of, set_parent, hide}
use dex_partial.Tree.Shape.{set_parent_twice}
use dex_partial.Root.{adopt, super_over}
use dex_partial.Root.Grow.{mark, write_unswizzled, root_pages}
use dex_partial.Root.Load.{adopted}

pub mark_lem : (name idx : ℕ) (n : Inner) → (b : ℕ) × (mark name idx n ≡ with_bitmap n b)
unfolding mark set_bitmap
mark_lem name idx n = elim (Bool-cases (has_bit name 63)) [
  | inl o ↦ ((set_bitmap n idx).base.bitmap, rw o refl)
  | inr o ↦ (n.base.bitmap, rw o refl)
]

pub set_parent-remote :
    (u : ℕ) (f : Page) → (base_of (set_parent u f)).remote_address ≡ (base_of f).remote_address
set_parent-remote u (inner n) = refl
set_parent-remote u (leaf l) = refl

written_other :
    (x : Pages) (e : ℕ) (n : Inner) (name : ℕ)
    → (name == e) ≡ false
    → (name == n.base.remote_address) ≡ false
    → write_unswizzled x e n name ≡ x name
unfolding write_unswizzled
written_other x e n name o p = rw (o, p) refl

written_here :
    (x : Pages) (e : ℕ) (n : Inner)
    → write_unswizzled x e n e
      ≡ some (inner (record n { base = record (n.base) { dirty = false } }))
unfolding write_unswizzled
written_here x e n = let self : (e == e) ≡ true = ground arith in rw self refl

adopted_twice :
    (p : ℕ) (x : Pages) (left right name : ℕ) (f : Page)
    → x name ≡ some f
    → (u : ℕ) × (adopt p (adopt p x left) right name ≡ some (set_parent u f))
adopted_twice p x left right name f at =
    let (u, a) = adopted p x left name f at in
    let (v, b) = adopted p (adopt p x left) right name (set_parent u f) a in
    (v, b ∙ ap some (set_parent_twice v u f))

module _ (x : Pages) (e left right : ℕ) (n : Inner) where
  abbrev pub full_node : Inner
  full_node = mark right 1 (mark left 0 n)

  abbrev told : Pages
  told =
      write (adopt (hide e) (adopt (hide e) (write x e (some (inner n))) left) right) e
        (some (inner full_node))

  pub root_pages_other :
      (name : ℕ) (f : Page)
      → x name ≡ some f
      → (name == e) ≡ false
      → (name == full_node.base.remote_address) ≡ false
      → (u : ℕ) × (root_pages x e left right n name ≡ some (set_parent u f))
  unfolding root_pages
  root_pages_other name f at o p =
      let placed : write x e (some (inner n)) name ≡ some f = rw o at in
      let (u, a) = adopted_twice (hide e) (write x e (some (inner n))) left right name f placed in
      (u, written_other told e full_node name o p ∙ rw o a)

  pub root_pages_here :
      root_pages x e left right n e
      ≡ some (inner (record full_node { base = record (full_node.base) { dirty = false } }))
  unfolding root_pages
  root_pages_here = written_here told e full_node

-- The super root has the root as its first child.
pub super_over_lem : (n : Inner) (root : ℕ) → (super_over n root).children 0 ≡ root
unfolding super_over set_bitmap
super_over_lem n root = elim (Bool-cases (has_bit root 63)) [
  | inl o ↦ rw o refl
  | inr o ↦ rw o refl
]
