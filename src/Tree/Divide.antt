-- ===== src/Tree/Divide.antt =====
-- A node with one child divided into two: the parent has the separator and the new child.
use dex_partial.Base.{
  ℕ, ◌+◌, ◌-◌, ◌≤◌, ◌<◌, ◌≡◌, ◌≢◌, subst, arith, true, ◌&&◌, ltb, ◌==◌, if◌then◌else◌,
}
use dex_partial.BTree.Node.{range_valid}
use dex_partial.BTree.Inner
use dex_partial.BTree.Inner.{Inner, lower_bound, max_entries}
use dex_partial.BTree.Inner.Route
use dex_partial.BTree.Inner.Route.{
  route, place, insert-Opens, inner_insert-IsValid, route-insert, Opens,
}
use dex_partial.Tree.{slot_min, slot_max}
use dex_partial.Tree.Shape.{inside}
use dex_partial.Tree.Slots.{slot_unique}

module _ (n : Inner) (valid : Route.IsValid n)
    (apart : (i : ℕ) → i < n.base.count → n.base.min_limit < n.keys i) (sep r p : ℕ)
    (room : n.base.count < max_entries - 1) (inner_p : p ≤ n.base.count)
    (above : slot_min n p < sep) (below : sep < slot_max n p) where
  sep_inside : inside (slot_min n p) (slot_max n p) sep ≡ true
  sep_inside = ground arith

  -- The separator goes to the place of the child.
  pub sep_place : lower_bound n sep ≡ p
  sep_place = slot_unique n valid apart p sep inner_p sep_inside

  abbrev pub grown : Inner
  grown = Inner.insert n sep r

  opens : Opens n grown p sep r
  opens = subst (λ i. Opens n grown i sep r) sep_place (insert-Opens n valid sep r room)

  sep_absent : (i : ℕ) → i < n.base.count → n.keys i ≢ sep
  sep_absent i h e = ground (arith, valid.sorted p i, valid.sorted i (p - 1))

  sep_range : range_valid n.base sep ≡ true
  unfolding range_valid
  sep_range = ground (arith, valid.in_range p, apart (p - 1))

  pub grown_valid : Route.IsValid grown
  grown_valid = inner_insert-IsValid n valid sep r room sep_absent sep_range

  pub grown_apart : (i : ℕ) → i < grown.base.count → grown.base.min_limit < grown.keys i
  grown_apart i h =
      let o = opens in
      ground (
        arith,
        o.count,
        o.min_limit,
        o.here_key,
        o.low_keys i,
        o.high_keys i,
        apart i,
        apart (i - 1),
        apart (p - 1),
      )

  -- The children of the node, left of the divided one, the two halves, and right of them.
  pub low_slot :
      (i : ℕ)
      → i < p
      → (grown.children i ≡ n.children i)
        × (slot_min grown i ≡ slot_min n i)
        × (slot_max grown i ≡ slot_max n i)
  low_slot i h =
      let o = opens in
      (
        o.low_children i (omega arith),
        ground (arith, o.min_limit, o.low_keys (i - 1)),
        ground (arith, o.count, o.low_keys i),
      )

  pub left_slot :
      (grown.children p ≡ n.children p)
      × (slot_min grown p ≡ slot_min n p)
      × (slot_max grown p ≡ sep)
  left_slot =
      let o = opens in
      (
        o.low_children p (omega arith),
        ground (arith, o.min_limit, o.low_keys (p - 1)),
        ground (arith, o.count, o.here_key),
      )

  pub right_slot :
      (grown.children (p + 1) ≡ r)
      × (slot_min grown (p + 1) ≡ sep)
      × (slot_max grown (p + 1) ≡ slot_max n p)
  right_slot =
      let o = opens in
      (
        o.here_child,
        ground (arith, o.here_key),
        ground (arith, o.count, o.max_limit, o.high_keys (p + 1)),
      )

  pub high_slot :
      (i : ℕ)
      → p + 1 < i
      → i ≤ n.base.count + 1
      → (grown.children i ≡ n.children (i - 1))
        × (slot_min grown i ≡ slot_min n (i - 1))
        × (slot_max grown i ≡ slot_max n (i - 1))
  high_slot i h z =
      let o = opens in
      (
        o.high_children i h z,
        ground (arith, o.high_keys (i - 1)),
        ground (arith, o.count, o.max_limit, o.high_keys i),
      )

  pub grown-route :
      (q : ℕ) → route grown q ≡ (if lower_bound n q == p && ltb sep q then r else route n q)
  grown-route q =
      subst (λ i. route grown q ≡ (if lower_bound n q == i && ltb sep q then r else route n q))
        sep_place (route-insert n valid sep r room sep_absent sep_range q)
