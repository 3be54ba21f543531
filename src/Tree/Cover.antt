-- ===== src/Tree/Cover.antt =====
-- A leaf on the way of a key is what the tree holds over all of the leaf's range.
use dex_partial.Base.{ℕ, zero, suc, ◌≡◌, inl, inr, ap, sym, ◌∙◌, subst, arith, true, some}
use dex_partial.BTree.Inner.{Inner, lower_bound}
use dex_partial.BTree.Inner.Route.{route, place}
use dex_partial.BTree.Leaf.{Leaf, find}
use dex_partial.Rpc.{inner, leaf}
use dex_partial.Tree.{Pages, slot_min, slot_max}
use dex_partial.Tree.Shape.{
  inside, read, InnerAt, Good, read_leaf, read_inner, one_page, inner_same,
}
use dex_partial.Tree.Slots.{slot-inside, slot_unique}
use dex_partial.Tree.Descent.{Leads, Stands, child-Stands}

-- The keys of the leaf are keys of the tree, which holds under each of them what the leaf does.
pub record Covers (h : ℕ) (x : Pages) (root lo hi : ℕ) (l : Leaf ℕ) : Type 0 where
  pub within : (q : ℕ) → inside l.base.min_limit l.base.max_limit q ≡ true → inside lo hi q ≡ true
  pub holds :
      (q : ℕ)
      → inside l.base.min_limit l.base.max_limit q ≡ true
      → read (suc h) x root q ≡ some (find l q)

leaf-Covers :
    (x : Pages) (c lo hi : ℕ) (l : Leaf ℕ)
    → x c ≡ some (leaf l)
    → Good 0 x c lo hi
    → Covers 0 x c lo hi l
unfolding Good
leaf-Covers x c lo hi l at a =
    let same = one_page x c (leaf a.l) (leaf l) a.at at in
    let is : a.l ≡ l = cc same in
    record {
      within = λ q i.
          subst (λ (z : ℕ). inside z hi q ≡ true) a.placed.min_is
            (subst (λ (z : ℕ). inside a.l.base.min_limit z q ≡ true) a.placed.max_is
              (subst (λ (m : Leaf ℕ). inside m.base.min_limit m.base.max_limit q ≡ true) (sym is)
                i));
      holds = λ q _. read_leaf 0 x c q l at;
    }

-- What the child that a key goes to covers is covered by the node.
up-Covers :
    (h : ℕ) (x : Pages) (p lo hi k : ℕ) (l : Leaf ℕ) (a : InnerAt x p (suc h) lo hi)
    → Covers h x
        (route a.n k)
        (slot_min a.n (lower_bound a.n k))
        (slot_max a.n (lower_bound a.n k))
        l
    → Covers (suc h) x p lo hi l
unfolding route
up-Covers h x p lo hi k l a c =
    let i = lower_bound a.n k in
    let fits = (place a.n a.valid k).inside in
    record {
      within = λ q z.
          let s = slot-inside a.n a.valid a.apart i q fits (c.within q z) in
          rw (← a.placed.min_is, ← a.placed.max_is) s;
      holds = λ q z.
          let same = slot_unique a.n a.valid a.apart i q fits (c.within q z) in
          read_inner (suc h) x p q a.n a.at
          ∙ ap (λ j. read (suc h) x (a.n.children j) q) same
          ∙ c.holds q z;
    }

pub way-Covers :
    (h : ℕ) (x : Pages) (k p q c lo hi : ℕ) (l : Leaf ℕ) (n : Inner)
    → Leads h x k p 0 q
    → x q ≡ some (inner n)
    → c ≡ route n k
    → x c ≡ some (leaf l)
    → Stands x k h p lo hi
    → Covers (suc h) x p lo hi l
unfolding Good route
way-Covers zero x k p q c lo hi l n (_, s) at to e ((a, below), ok) =
    let same = inner_same x p n a.n (ap x s ∙ at) a.at in
    let here = ap x (ap (λ m. route m k) (sym same) ∙ sym to) ∙ e in
    up-Covers 0 x p lo hi k l a (
      leaf-Covers x (route a.n k) _ _ l here
        (below (lower_bound a.n k) (place a.n a.valid k).inside))
way-Covers (suc h) x k p q c lo hi l n (inl (z, _)) at to e stands = absurd (omega (arith, z))
way-Covers (suc h) x k p q c lo hi l n (inr (m, at_p, way)) at to e ((a, below), ok) =
    let same = inner_same x p m a.n at_p a.at in
    up-Covers (suc h) x p lo hi k l a (
      way-Covers h x k (route a.n k) q c _ _ l n (subst (λ j. Leads h x k (route j k) 0 q) same way)
        at to e (child-Stands h x k p lo hi a below ok))
