-- ===== src/Tree/Adopt.antt =====
-- What `update_all_parent_ptr` changes.
use dex_partial.Base.{
  ℕ, zero, suc, ◌≡◌, inl, inr, refl, ap, sym, arith, Bool, true, false, ◌==◌, if◌then◌else◌, Option,
  some, Bool-cases,
}
use dex_partial.Base.Bits.{has_bit}
use dex_partial.BTree.Inner.{Inner}
use dex_partial.Rpc.{Page}
use dex_partial.Tree.{Pages, set_parent, hide}
use dex_partial.Tree.Shape.{same_page, set_parent_twice}
use dex_partial.Tree.Passes.{update_all_parent_ptr}

-- The new parent pointers are all that `update_all_parent_ptr` changes.
pub adopted_page :
    (i : ℕ) (n : Inner) (e : ℕ) (x : Pages) (name : ℕ) (g : Page)
    → x name ≡ some g
    → (u : ℕ) × (update_all_parent_ptr i n e x name ≡ some (set_parent u g))
unfolding update_all_parent_ptr
adopted_page zero n e x name g at = same_page x x name g at refl
adopted_page (suc i) n e x name g at =
    let (u, rest) = adopted_page i n e x name g at in
    elim (Bool-cases (has_bit (n.children i) 63)) [
      | inr f ↦ (u, rw f rest)
      | inl f ↦ elim (Bool-cases (name == n.children i)) [
        | inr o ↦ (u, rw (f, o) rest)
        | inl o ↦
            let same : name ≡ n.children i = ground (arith, o) in
            (hide e, rw (f, o, sym same, rest) (ap some (set_parent_twice (hide e) u g)))
      ]
    ]

pub if_ap :
    (b : Bool) (f : ℕ → Option (Option ℕ)) (u v : ℕ)
    → (if b then f u else f v) ≡ f (if b then u else v)
if_ap true f u v = refl
if_ap false f u v = refl
