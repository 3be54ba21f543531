-- ===== src/Tree/Slots.antt =====
-- The keys of a child among those of its parent, and pages that differ in the pointer to the parent.
use dex_partial.Base.{ℕ, ◌-◌, ◌≤◌, ◌<◌, ◌≡◌, refl, arith, true, some}
use dex_partial.BTree.Node.{range_valid}
use dex_partial.BTree.Inner.{Inner, lower_bound}
use dex_partial.BTree.Inner.Route
use dex_partial.BTree.Inner.Route.{route, place, place_unique}
use dex_partial.BTree.Leaf.{Leaf, find}
use dex_partial.Rpc.{leaf}
use dex_partial.Tree.{Pages, set_parent, slot_min, slot_max}
use dex_partial.Tree.Shape.{inside, LeafAt}

module _ (n : Inner) (valid : Route.IsValid n)
    (apart : (i : ℕ) → i < n.base.count → n.base.min_limit < n.keys i) where
  -- The keys of a child are keys of the node.
  pub slot-inside :
      (i q : ℕ)
      → i ≤ n.base.count
      → inside (slot_min n i) (slot_max n i) q ≡ true
      → inside n.base.min_limit n.base.max_limit q ≡ true
  unfolding range_valid
  slot-inside i q h e =
      ground (arith, valid.in_range i, valid.in_range (i - 1), apart (i - 1), apart i)

  -- A key of the node is a key of the child that it is sent to.
  pub slot_of :
      (q : ℕ)
      → inside n.base.min_limit n.base.max_limit q ≡ true
      → inside (slot_min n (lower_bound n q)) (slot_max n (lower_bound n q)) q ≡ true
  slot_of q e =
      let s = place n valid q in
      ground (arith, s.inside, s.below (lower_bound n q - 1), s.above (lower_bound n q))

  -- And of no other child.
  pub slot_unique :
      (i q : ℕ)
      → i ≤ n.base.count
      → inside (slot_min n i) (slot_max n i) q ≡ true
      → lower_bound n q ≡ i
  slot_unique i q h e = place_unique n valid q i (record {
    inside = h;
    below = λ j z. ground (arith, valid.sorted j (i - 1), apart (i - 1));
    above = λ j z y. ground (arith, valid.sorted i j);
  })

pub find_set_parent :
    (x : ℕ) (l : Leaf ℕ) (q : ℕ)
    → find (record l { base = record (l.base) { parent_ptr = x } }) q ≡ find l q
unfolding find
find_set_parent x l q = refl

pub route_set_parent :
    (x : ℕ) (n : Inner) (q : ℕ)
    → route (record n { base = record (n.base) { parent_ptr = x } }) q ≡ route n q
unfolding route lower_bound
route_set_parent x n q = refl

pub LeafAt-set_parent :
    (pages pages' : Pages) (name lo hi x : ℕ) (a : LeafAt pages name lo hi)
    → pages' name ≡ some (set_parent x (leaf a.l))
    → LeafAt pages' name lo hi
unfolding range_valid
LeafAt-set_parent pages pages' name lo hi x a e = record {
  l = record (a.l) { base = record (a.l.base) { parent_ptr = x } };
  at = e;
  valid = record {
    few = a.valid.few;
    sorted = a.valid.sorted;
    in_range = a.valid.in_range;
    consistent = a.valid.consistent;
  };
  placed = record {
    level_is = a.placed.level_is;
    min_is = a.placed.min_is;
    max_is = a.placed.max_is;
    at_home = a.placed.at_home;
  };
}
