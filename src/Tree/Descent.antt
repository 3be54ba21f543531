-- ===== src/Tree/Descent.antt =====
-- The descent ends, and where it ends is on the way of the key: `insert`, `lookup`, `update` and `remove`
-- of leanstore_tree.h up to the leaf, with what comes into memory on the way.
use dex_partial.Base.{
  ℕ, zero, suc, ◌≤◌, ◌≡◌, ◌≢◌, ◌⊎◌, inl, inr, refl, ap, sym, ◌∙◌, subst, arith, Bool, true, false,
  not, ◌&&◌, Option, none, some,
}
use dex_partial.Base.Bits.{has_bit}
use dex_partial.BTree.Inner.{Inner, is_full, lower_bound}
use dex_partial.BTree.Inner.Route.{route, place}
use dex_partial.BTree.Leaf.{Leaf}
use dex_partial.Rpc.{inner, leaf}
use dex_partial.Tree.{
  Pages, World, slot_min, slot_max, Ending, restart, refresh, refused, full, at_leaf,
}
use dex_partial.Tree.Shape.{inside, InnerAt, Good, Local, inner_same}
use dex_partial.Tree.Frame.{Effect, Turned, unchanged, lift}
use dex_partial.Tree.Slots.{slot_of}

-- What the allocators promise: a page that they hand out is one that nothing names, and that an empty page
-- is in memory.
pub record IsLawful (w : World) : Type 0 where
  pub page_free :
      (pages : Pages) (e word : ℕ) → w.try_get_empty_page pages ≡ some (e, word) → pages e ≡ none
  pub page_tag :
      (pages : Pages) (e word : ℕ)
      → w.try_get_empty_page pages ≡ some (e, word)
      → has_bit e 63 ≡ true
  pub get_free :
      (pages : Pages) (e word : ℕ) → w.get_empty_page pages ≡ some (e, word) → pages e ≡ none
  pub get_tag :
      (pages : Pages) (e word : ℕ) → w.get_empty_page pages ≡ some (e, word) → has_bit e 63 ≡ true
  pub node_free : (pages : Pages) (r : ℕ) → w.allocate_node pages ≡ some r → pages r ≡ none

-- The way of a key from a node with `h` levels of inner nodes below it leads to the inner node `q`,
-- with `h0` of them below.
abbrev pub Leads : ℕ → Pages → ℕ → ℕ → ℕ → ℕ → Type 0
Leads zero pages k name h0 q = (h0 ≡ 0) × (name ≡ q)
Leads (suc h) pages k name h0 q =
    ((h0 ≡ suc h) × (name ≡ q))
    ⊎ ((n : Inner) × (pages name ≡ some (inner n)) × Leads h pages k (route n k) h0 q)

pub Leads-here : (h : ℕ) (pages : Pages) (k name : ℕ) → Leads h pages k name h name
Leads-here zero pages k name = (refl, refl)
Leads-here (suc h) pages k name = inl (refl, refl)

pub Leads-le : (h : ℕ) (pages : Pages) (k name h0 q : ℕ) → Leads h pages k name h0 q → h0 ≤ h
Leads-le zero pages k name h0 q (e, _) = omega (arith, e)
Leads-le (suc h) pages k name h0 q (inl (e, _)) = omega (arith, e)
Leads-le (suc h) pages k name h0 q (inr (n, _, l)) =
    let z = Leads-le h pages k (route n k) h0 q l in omega (arith, z)

-- The node that the way leads to, with its limits.
abbrev pub Stands : Pages → ℕ → ℕ → ℕ → ℕ → ℕ → Type 0
Stands pages k h q lo hi = Good (suc h) pages q lo hi × (inside lo hi k ≡ true)

-- The child that the key is sent to stands below its parent.
pub child-Stands :
    (h : ℕ) (pages : Pages) (k name lo hi : ℕ) (a : InnerAt pages name (suc (suc h)) lo hi)
    → ((i : ℕ)
        → i ≤ a.n.base.count
        → Good (suc h) pages (a.n.children i) (slot_min a.n i) (slot_max a.n i))
    → inside lo hi k ≡ true
    → Stands pages k h
        (route a.n k)
        (slot_min a.n (lower_bound a.n k))
        (slot_max a.n (lower_bound a.n k))
unfolding route
child-Stands h pages k name lo hi a below ok = (
  below (lower_bound a.n k) (place a.n a.valid k).inside,
  slot_of a.n a.valid a.apart k (rw (a.placed.min_is, a.placed.max_is) ok),
)

-- A change at a node on the way is a change of the whole tree.
pub climb :
    (k h0 q : ℕ) (pages pages' : Pages)
    → Local k (suc h0) pages pages'
    → (f : Effect) → ((p : ℕ) (x : Option (Option ℕ)) → p ≢ k → f p x ≡ x)
    → ((lo hi : ℕ) → Stands pages k h0 q lo hi → Turned f (suc h0) pages q pages' q lo hi)
    → (h name lo hi : ℕ) → Leads h pages k name h0 q
    → Stands pages k h name lo hi
    → Turned f (suc h) pages name pages' name lo hi
unfolding Good route
climb k h0 q pages pages' local f other bottom zero name lo hi (e, s) g =
    subst (λ n. Turned f (suc zero) pages n pages' n lo hi) (sym s)
      (subst (λ n. Turned f (suc n) pages q pages' q lo hi) e
        (bottom lo hi (
          subst (λ n. Stands pages k n q lo hi) (sym e)
            (subst (λ n. Stands pages k zero n lo hi) s g))))
climb k h0 q pages pages' local f other bottom (suc h) name lo hi (inl (e, s)) g =
    subst (λ n. Turned f (suc (suc h)) pages n pages' n lo hi) (sym s)
      (subst (λ n. Turned f (suc n) pages q pages' q lo hi) e
        (bottom lo hi (
          subst (λ n. Stands pages k n q lo hi) (sym e)
            (subst (λ n. Stands pages k (suc h) n lo hi) s g))))
climb k h0 q pages pages' local f other bottom (suc h) name lo hi (inr (n, at, way))
      ((a, below), ok) =
    let low = Leads-le h pages k (route n k) h0 q way in
    let same = inner_same pages name n a.n at a.at in
    let way' = subst (λ m. Leads h pages k (route m k) h0 q) same way in
    let i = lower_bound a.n k in
    lift k (suc h0) pages pages' local f other (suc h) name lo hi (omega (arith, low)) a below ok (
      climb k h0 q pages pages' local f other bottom h (route a.n k) (slot_min a.n i)
        (slot_max a.n i) way' (child-Stands h pages k name lo hi a below ok))

abbrev pub pages_of : Ending → Pages
pages_of (restart x) = x
pages_of (refresh x) = x
pages_of (refused x c) = x
pages_of (full x q c) = x
pages_of (at_leaf x q c) = x

-- With `smo` the nodes on the way are not full, but for the shared ones.
abbrev pub Roomy : Bool → Inner → Type 0
Roomy smo n = (smo && is_full n && not n.base.shared) ≡ false

-- `q` is an inner node and the key goes to its child `c`.
abbrev pub Sends : Bool → Pages → ℕ → ℕ → ℕ → Type 0
Sends smo x k q c = (n : Inner) × (x q ≡ some (inner n)) × (c ≡ route n k) × Roomy smo n

-- Where an ending stands in the tree from `p`.
abbrev pub Place : Bool → ℕ → ℕ → ℕ → Ending → Type 0
Place smo h k p (restart x) = x ≡ x
Place smo h k p (refresh x) = x ≡ x
Place smo h k p (refused x c) =
    (q : ℕ) × Leads h x k p 0 q × Sends smo x k q c × (has_bit c 63 ≡ false)
Place smo h k p (full x q c) =
    (h0 : ℕ) × Leads h x k p (suc h0) q
    × Sends smo x k q c
    × (m : Inner) × (x c ≡ some (inner m))
    × (is_full m ≡ true)
    × (smo ≡ true)
Place smo h k p (at_leaf x q c) =
    Leads h x k p 0 q × Sends smo x k q c × (l : Leaf ℕ) × (x c ≡ some (leaf l))

-- A descent that ended: the tree holds what it held, and where it ended is on the way of the key.
pub record Walked (smo : Bool) (h k : ℕ) (pages : Pages) (p lo hi : ℕ) (e : Ending) : Type 0 where
  pub local : Local k (suc h) pages (pages_of e)
  pub turned : Turned unchanged (suc h) pages p (pages_of e) p lo hi
  pub placed : Place smo h k p e

-- The node that the way leads to is one of the tree.
pub way-Stands :
    (k h0 q : ℕ) (pages : Pages) (h name lo hi : ℕ)
    → Leads h pages k name h0 q
    → Stands pages k h name lo hi
    → (lo' : ℕ) × (hi' : ℕ) × Stands pages k h0 q lo' hi'
unfolding Good
way-Stands k h0 q pages zero name lo hi (e, s) g = (
  lo,
  hi,
  subst (λ n. Stands pages k n q lo hi) (sym e) (subst (λ n. Stands pages k zero n lo hi) s g),
)
way-Stands k h0 q pages (suc h) name lo hi (inl (e, s)) g = (
  lo,
  hi,
  subst (λ n. Stands pages k n q lo hi) (sym e) (subst (λ n. Stands pages k (suc h) n lo hi) s g),
)
way-Stands k h0 q pages (suc h) name lo hi (inr (n, at, way)) ((a, below), ok) =
    let same = inner_same pages name n a.n at a.at in
    way-Stands k h0 q pages h (route a.n k) _ _
      (subst (λ m. Leads h pages k (route m k) h0 q) same way)
      (child-Stands h pages k name lo hi a below ok)

limits_same :
    (h : ℕ) (pages : Pages) (q lo hi lo' hi' : ℕ)
    → Good (suc h) pages q lo hi
    → Good (suc h) pages q lo' hi'
    → (lo ≡ lo') × (hi ≡ hi')
unfolding Good
limits_same h pages q lo hi lo' hi' (a, _) (b, _) =
    let same = inner_same pages q a.n b.n a.at b.at in
    (
      sym a.placed.min_is ∙ ap (λ n. n.base.min_limit) same ∙ b.placed.min_is,
      sym a.placed.max_is ∙ ap (λ n. n.base.max_limit) same ∙ b.placed.max_is,
    )

-- The same where the change is known at the node itself.
pub climb_to :
    (k h0 q : ℕ) (pages pages' : Pages)
    → Local k (suc h0) pages pages'
    → (f : Effect) → ((p : ℕ) (x : Option (Option ℕ)) → p ≢ k → f p x ≡ x)
    → (lo hi : ℕ) → Stands pages k h0 q lo hi
    → Turned f (suc h0) pages q pages' q lo hi
    → (h name lo' hi' : ℕ) → Leads h pages k name h0 q
    → Stands pages k h name lo' hi'
    → Turned f (suc h) pages name pages' name lo' hi'
climb_to k h0 q pages pages' local f other lo hi (good, _) turned =
    climb k h0 q pages pages' local f other λ lo' hi' there.
      let (u, v) = limits_same h0 pages q lo hi lo' hi' good there.0 in
      subst (λ z. Turned f (suc h0) pages q pages' q z hi') u
        (subst (λ z. Turned f (suc h0) pages q pages' q lo z) v turned)
