-- ===== src/Tree/Frame.antt =====
-- The frame: a local change elsewhere leaves a subtree and what it holds, and a change of one child of a
-- node is a change of the node.
use dex_partial.Base.{
  ℕ, zero, suc, ◌-◌, ◌≤◌, ◌<◌, ◌≡◌, ◌≢◌, inl, inr, refl, ap, sym, ◌∙◌, subst, arith, true, false,
  ◌==◌, Option, some, Bool-cases,
}
use dex_partial.BTree.Node.{range_valid}
use dex_partial.BTree.Inner.{Inner, lower_bound}
use dex_partial.BTree.Inner.Route
use dex_partial.BTree.Inner.Route.{route, place, place_unique}
use dex_partial.Rpc.{Page, inner, leaf}
use dex_partial.Tree.{Pages, base_of, set_parent, slot_min, slot_max}
use dex_partial.Tree.Shape.{inside, read, InnerAt, Good, Local, read_leaf, read_inner}
use dex_partial.Tree.Slots.{
  slot-inside, slot_of, slot_unique, find_set_parent, route_set_parent, LeafAt-set_parent,
}

pub InnerAt-set_parent :
    (pages pages' : Pages) (name level lo hi x : ℕ) (a : InnerAt pages name level lo hi)
    → pages' name ≡ some (set_parent x (inner a.n))
    → InnerAt pages' name level lo hi
unfolding range_valid
InnerAt-set_parent pages pages' name level lo hi x a e = record {
  n = record (a.n) { base = record (a.n.base) { parent_ptr = x } };
  at = e;
  valid = record {
    some_key = a.valid.some_key;
    few = a.valid.few;
    sorted = a.valid.sorted;
    in_range = a.valid.in_range;
    consistent = a.valid.consistent;
  };
  apart = a.apart;
  placed = record {
    level_is = a.placed.level_is;
    min_is = a.placed.min_is;
    max_is = a.placed.max_is;
    at_home = a.placed.at_home;
  };
}

-- What a change does to what a subtree holds, key by key.
abbrev pub Effect : Type 0
Effect = ℕ → Option (Option ℕ) → Option (Option ℕ)

abbrev pub unchanged : Effect
unchanged q x = x

-- The subtree after a change is well formed and holds what the effect says.
pub record Turned (f : Effect) (h : ℕ) (pages : Pages) (name : ℕ) (pages' : Pages) (name' lo hi : ℕ)
    : Type 0 where
  pub good : Good h pages' name' lo hi
  pub reads :
      (q : ℕ)
      → inside lo hi q ≡ true
      → read (suc h) pages' name' q ≡ f q (read (suc h) pages name q)

-- The frame for any class of subtrees that is closed under going to a child.
module _ (pages pages' : Pages) (Q : ℕ → ℕ → ℕ → Type 0)
    (keep : (name : ℕ) (g : Page)
      → pages name ≡ some g
      → Q (base_of g).level (base_of g).min_limit (base_of g).max_limit
      → (x : ℕ) × (pages' name ≡ some (set_parent x g)))
    (down : (h : ℕ) (n : Inner)
      → Route.IsValid n
      → ((i : ℕ) → i < n.base.count → n.base.min_limit < n.keys i)
      → (i : ℕ) → i ≤ n.base.count
      → Q (suc h) n.base.min_limit n.base.max_limit
      → Q h (slot_min n i) (slot_max n i)) where
  frame_by :
      (h name lo hi : ℕ)
      → Good h pages name lo hi
      → Q h lo hi
      → Turned unchanged h pages name pages' name lo hi
  unfolding Good InnerAt-set_parent route
  frame_by zero name lo hi a e =
      let (x, s) =
        keep name (leaf a.l) a.at (rw (a.placed.level_is, a.placed.min_is, a.placed.max_is) e) in
      record {
        good = LeafAt-set_parent pages pages' name lo hi x a s;
        reads = λ q _.
            rw (read_leaf 0 pages' name q _ s, read_leaf 0 pages name q _ a.at)
              (ap some (find_set_parent x a.l q));
      }
  frame_by (suc h) name lo hi (a, below) e =
      let (x, s) =
        keep name (inner a.n) a.at (rw (a.placed.level_is, a.placed.min_is, a.placed.max_is) e) in
      let sub : (i : ℕ)
          → i ≤ a.n.base.count
          → Turned unchanged h pages (a.n.children i) pages' (a.n.children i) (slot_min a.n i)
              (slot_max a.n i) =
        λ i z.
          frame_by h (a.n.children i) (slot_min a.n i) (slot_max a.n i) (below i z)
            (down h a.n a.valid a.apart i z (rw (a.placed.min_is, a.placed.max_is) e)) in
      record {
        good = (InnerAt-set_parent pages pages' name (suc h) lo hi x a s, λ i z. (sub i z).good);
        reads = λ q z.
            rw
              (
                read_inner (suc h) pages' name q _ s,
                read_inner (suc h) pages name q _ a.at,
                route_set_parent x a.n q,
              )
              ((sub (lower_bound a.n q) (place a.n a.valid q).inside).reads q
                (slot_of a.n a.valid a.apart q (rw (a.placed.min_is, a.placed.max_is) z)));
      }

-- A subtree below a level is not changed by a change of pages from that level on.
pub frame_low :
    (top : ℕ) (pages pages' : Pages)
    → ((name : ℕ) (g : Page)
        → pages name ≡ some g
        → (base_of g).level < top
        → (x : ℕ) × (pages' name ≡ some (set_parent x g)))
    → (h name lo hi : ℕ) → Good h pages name lo hi
    → h < top
    → Turned unchanged h pages name pages' name lo hi
frame_low top pages pages' keep =
    frame_by pages pages' (λ h _ _. h < top) keep (λ h n v a i z q. omega arith)

module _ (k top : ℕ) (pages pages' : Pages) (local : Local k top pages pages') where
  -- A subtree without the key holds what it held.
  pub frame :
      (h name lo hi : ℕ)
      → Good h pages name lo hi
      → inside lo hi k ≡ false
      → Turned unchanged h pages name pages' name lo hi
  frame =
      frame_by pages pages' (λ _ lo hi. inside lo hi k ≡ false) (λ name g e o. local.off name g e o)
        (λ h n v a i z out. elim (Bool-cases (inside (slot_min n i) (slot_max n i) k)) [
          | inr o ↦ o
          | inl o ↦ ground (arith, slot-inside n v a i k z o, out)
        ])

  -- A change of the child that the key is sent to, if the node keeps its keys, is a change of the node.
  module _ (f : Effect) (other : (q : ℕ) (x : Option (Option ℕ)) → q ≢ k → f q x ≡ x)
      (h name lo hi : ℕ) (a : InnerAt pages name (suc h) lo hi)
      (below : (i : ℕ)
        → i ≤ a.n.base.count
        → Good h pages (a.n.children i) (slot_min a.n i) (slot_max a.n i))
      (e : inside lo hi k ≡ true) (a' : InnerAt pages' name (suc h) lo hi)
      (count : a'.n.base.count ≡ a.n.base.count) (keys : (i : ℕ) → a'.n.keys i ≡ a.n.keys i)
      (children : (i : ℕ) → i ≢ lower_bound a.n k → a'.n.children i ≡ a.n.children i)
      (turned : Turned f h pages
        (route a.n k)
        pages'
        (a'.n.children (lower_bound a.n k))
        (slot_min a.n (lower_bound a.n k))
        (slot_max a.n (lower_bound a.n k))) where
    same_place : (q : ℕ) → lower_bound a'.n q ≡ lower_bound a.n q
    same_place q =
        let s = place a.n a.valid q in
        place_unique a'.n a'.valid q (lower_bound a.n q) (record {
          inside = rw count s.inside;
          below = λ i z. rw (keys i) (s.below i z);
          above = λ i z y. rw (keys i) (s.above i z (subst (λ c. i < c) count y));
        })

    same_min : (i : ℕ) → slot_min a'.n i ≡ slot_min a.n i
    same_min i = rw (keys (i - 1), a'.placed.min_is, a.placed.min_is) refl

    same_max : (i : ℕ) → slot_max a'.n i ≡ slot_max a.n i
    same_max i = rw (keys i, count, a'.placed.max_is, a.placed.max_is) refl

    slots :
        (i : ℕ)
        → i ≤ a.n.base.count
        → Turned f h pages
            (a.n.children i)
            pages'
            (a'.n.children i)
            (slot_min a.n i)
            (slot_max a.n i)
    unfolding route
    slots i z = elim (Bool-cases (i == lower_bound a.n k)) [
      | inl same ↦
          let at : lower_bound a.n k ≡ i = ground (arith, same) in
          subst
            (λ j.
              Turned f h pages (a.n.children j) pages' (a'.n.children j) (slot_min a.n j)
                (slot_max a.n j))
            at turned
      | inr away ↦
          let out : inside (slot_min a.n i) (slot_max a.n i) k ≡ false =
            elim (Bool-cases (inside (slot_min a.n i) (slot_max a.n i) k)) [
              | inr o ↦ o
              | inl o ↦ absurd (ground (arith, away, slot_unique a.n a.valid a.apart i k z o))
            ] in
          let t = frame h (a.n.children i) (slot_min a.n i) (slot_max a.n i) (below i z) out in
          rw (children i (λ p. ground (arith, away, p))) (record {
            good = t.good;
            reads = λ q w. t.reads q w ∙ sym (other q _ (λ p. ground (arith, out, w, p)));
          })
    ]

    pub node_turned : Turned f (suc h) pages name pages' name lo hi
    unfolding Good route read
    node_turned = record {
      good = (a', λ i z. rw (same_min i, same_max i) (slots i (subst (λ c. i ≤ c) count z)).good);
      reads = λ q z.
          rw
            (
              read_inner (suc h) pages' name q _ a'.at,
              read_inner (suc h) pages name q _ a.at,
              route,
              same_place q,
            )
            ((slots (lower_bound a.n q) (place a.n a.valid q).inside).reads q
              (slot_of a.n a.valid a.apart q (rw (a.placed.min_is, a.placed.max_is) z)));
    }

  -- A change below a node that keeps its page.
  pub lift :
      (f : Effect)
      → ((q : ℕ) (x : Option (Option ℕ)) → q ≢ k → f q x ≡ x)
      → (h name lo hi : ℕ) → top ≤ h
      → (a : InnerAt pages name (suc h) lo hi)
      → ((i : ℕ)
          → i ≤ a.n.base.count
          → Good h pages (a.n.children i) (slot_min a.n i) (slot_max a.n i))
      → inside lo hi k ≡ true
      → Turned f h pages
          (route a.n k)
          pages'
          (route a.n k)
          (slot_min a.n (lower_bound a.n k))
          (slot_max a.n (lower_bound a.n k))
      → Turned f (suc h) pages name pages' name lo hi
  unfolding InnerAt-set_parent route
  lift f other h name lo hi low a below e turned =
      let (x, s) = local.high name (inner a.n) a.at (omega (arith, a.placed.level_is)) in
      node_turned f other h name lo hi a below e
        (InnerAt-set_parent pages pages' name (suc h) lo hi x a s) refl (λ i. refl) (λ i _. refl)
        turned
