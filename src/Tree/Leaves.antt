-- ===== src/Tree/Leaves.antt =====
-- What a change of the leaf at the end of a descent is to the tree.
use dex_partial.Base.{
  ℕ, zero, suc, ◌≡◌, ◌≢◌, inl, inr, refl, ap, sym, ◌∙◌, subst, arith, Bool, true, ◌==◌, Option,
  some, Bool-cases, write,
}
use dex_partial.BTree.Inner.{lower_bound}
use dex_partial.BTree.Inner.Route.{route, place}
use dex_partial.BTree.Leaf.{Leaf, find}
use dex_partial.BTree.Leaf.Lookup
use dex_partial.Rpc.{leaf}
use dex_partial.Tree.{Pages, base_of, slot_min, slot_max}
use dex_partial.Tree.Shape.{
  inside, read, InnerAt, Good, Local, Local-of, Local-raise, same_page, one_page, has_key,
  read_leaf, read_inner, inner_same,
}
use dex_partial.Tree.Frame.{Effect, Turned, lift}
use dex_partial.Tree.Slots.{slot_of}
use dex_partial.Tree.Descent.{Leads, Stands, Sends, climb, way-Stands}

-- `m` is `l` after a change that has the effect `f` on what `find` reads.
pub record Becomes (f : Effect) (l m : Leaf ℕ) : Type 0 where
  pub valid : Lookup.IsValid m
  pub min_limit : m.base.min_limit ≡ l.base.min_limit
  pub max_limit : m.base.max_limit ≡ l.base.max_limit
  pub level : m.base.level ≡ l.base.level
  pub home : m.base.remote_address ≡ l.base.remote_address
  pub finds : (q : ℕ) → some (find m q) ≡ f q (some (find l q))

-- The leaf at the end of the way is what the tree holds under the key.
pub read_way :
    (smo : Bool) (h : ℕ) (x : Pages) (k p q c : ℕ) (l : Leaf ℕ)
    → Leads h x k p 0 q
    → Sends smo x k q c
    → x c ≡ some (leaf l)
    → read (suc (suc h)) x p k ≡ some (find l k)
read_way smo zero x k p q c l (_, s) (n, at, r, _) e =
    read_inner 1 x p k n (ap x s ∙ at) ∙ ap (λ d. read 1 x d k) (sym r) ∙ read_leaf 0 x c k l e
read_way smo (suc h) x k p q c l (inl (z, _)) sends e = absurd (omega (arith, z))
read_way smo (suc h) x k p q c l (inr (n, at, way)) sends e =
    read_inner (suc (suc h)) x p k n at ∙ read_way smo h x k (route n k) q c l way sends e

module _ (f : Effect) (k : ℕ) (other : (p : ℕ) (o : Option (Option ℕ)) → p ≢ k → f p o ≡ o)
    (x : Pages) (c : ℕ) (l m : Leaf ℕ) (at : x c ≡ some (leaf l)) (becomes : Becomes f l m) where
  abbrev y : Pages
  y = write x c (some (leaf m))

  here : y c ≡ some (leaf m)
  here = let self : (c == c) ≡ true = ground arith in rw self refl

  leaf_turned : (lo hi : ℕ) → Good 0 x c lo hi → Turned f 0 x c y c lo hi
  unfolding Good
  leaf_turned lo hi a =
      let same = one_page x c (leaf a.l) (leaf l) a.at at in
      let b = becomes in
      record {
        good = record {
          l = m;
          at = here;
          valid = b.valid;
          placed = record {
            level_is = b.level ∙ ap (λ g. (base_of g).level) (sym same) ∙ a.placed.level_is;
            min_is = b.min_limit ∙ ap (λ g. (base_of g).min_limit) (sym same) ∙ a.placed.min_is;
            max_is = b.max_limit ∙ ap (λ g. (base_of g).max_limit) (sym same) ∙ a.placed.max_is;
            at_home =
                λ z. b.home ∙ ap (λ g. (base_of g).remote_address) (sym same) ∙ a.placed.at_home z;
          };
        };
        reads = λ q _. rw (read_leaf 0 y c q m here, read_leaf 0 x c q l at) (b.finds q);
      }

  leaf-Local : (lo hi : ℕ) → Good 0 x c lo hi → inside lo hi k ≡ true → Local k 0 x y
  unfolding Good
  leaf-Local lo hi a ok = Local-of k 0 x y λ name g e. elim (Bool-cases (name == c)) [
    | inr o ↦ inl (same_page x y name g e (rw o refl))
    | inl o ↦
        let same : c ≡ name = ground (arith, o) in
        let (i, z) = has_key x c 0 lo hi k g (leaf a.l) (ap x same ∙ e) a.at a.placed ok in
        inr (i, omega (arith, z))
  ]

  -- The tree with the leaf changed.
  pub change_leaf :
      (smo : Bool) (h p q lo hi : ℕ)
      → Leads h x k p 0 q
      → Sends smo x k q c
      → Stands x k h p lo hi
      → Turned f (suc h) x p y p lo hi
  unfolding Good route
  change_leaf smo h p q lo hi way (n, at_q, r, _) s =
      let child : (lo' hi' : ℕ) (a : InnerAt x q 1 lo' hi') → route a.n k ≡ c =
        λ lo' hi' a. ap (λ j. route j k) (inner_same x q a.n n a.at at_q) ∙ sym r in
      let (lo1, hi1, ((a1, below1), ok1)) = way-Stands k 0 q x h p lo hi way s in
      let i1 = lower_bound a1.n k in
      let g1 =
        subst (λ d. Good 0 x d (slot_min a1.n i1) (slot_max a1.n i1)) (child lo1 hi1 a1)
          (below1 i1 (place a1.n a1.valid k).inside) in
      let local =
        leaf-Local _ _ g1
          (slot_of a1.n a1.valid a1.apart k (rw (a1.placed.min_is, a1.placed.max_is) ok1)) in
      climb k 0 q x y (Local-raise k 0 1 x y (omega arith) local) f other
        (λ lo' hi' t.
          let ((a, below), ok) = t in
          let i = lower_bound a.n k in
          let at_c = child lo' hi' a in
          lift k 0 x y local f other 0 q lo' hi' (omega arith) a below ok (
            subst (λ d. Turned f 0 x d y d (slot_min a.n i) (slot_max a.n i)) (sym at_c)
              (leaf_turned _ _ (
                subst (λ d. Good 0 x d (slot_min a.n i) (slot_max a.n i)) at_c
                  (below i (place a.n a.valid k).inside)))))
        h p lo hi way s
