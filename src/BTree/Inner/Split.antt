-- ===== src/BTree/Inner/Split.antt =====
-- `split`: both halves are inner nodes, and keys go to the children that they went to.
use dex_partial.Base.{
  ℕ, ◌+◌, ◌-◌, ◌/◌, ◌≤◌, ◌<◌, ◌≡◌, inl, inr, refl, arith, leb, if◌then◌else◌, Bool-cases,
}
use dex_partial.BTree.Search.{Splits}
use dex_partial.BTree.Node.{range_valid}
use dex_partial.BTree.Inner.{Inner, lower_bound, split}
use dex_partial.BTree.Inner.Route.{route, place, place_unique, IsValid}

module _ (inner new_inner : Inner) (valid : IsValid inner) (four : 4 ≤ inner.base.count) where
  abbrev pub left : Inner
  left = (split inner new_inner).0

  abbrev pub right : Inner
  right = (split inner new_inner).1

  abbrev pub sep : ℕ
  sep = (split inner new_inner).2

  -- The number of keys that stay; the key at this index moves up.
  abbrev pub kept : ℕ
  kept = inner.base.count / 2 - 1

  pub record Halves : Type 0 where
    pub separator : sep ≡ inner.keys kept
    pub left_count : left.base.count ≡ kept
    pub right_count : right.base.count + kept + 1 ≡ inner.base.count
    pub left_keys : (i : ℕ) → left.keys i ≡ inner.keys i
    pub left_children : (i : ℕ) → left.children i ≡ inner.children i
    pub right_keys :
        (i : ℕ) → i + kept + 1 < inner.base.count → right.keys i ≡ inner.keys (i + kept + 1)
    pub right_children :
        (i : ℕ) → i + kept < inner.base.count → right.children i ≡ inner.children (i + kept + 1)
    pub left_min : left.base.min_limit ≡ inner.base.min_limit
    pub left_max : left.base.max_limit ≡ sep
    pub right_min : right.base.min_limit ≡ sep
    pub right_max : right.base.max_limit ≡ inner.base.max_limit
    pub left_versions : left.base.front_version ≡ left.back_version
    pub right_versions :
        new_inner.base.front_version ≡ new_inner.back_version
        → right.base.front_version ≡ right.back_version

  pub halves : Halves
  unfolding split
  halves = record {
    separator = ground (arith, valid.few);
    left_count = omega (arith, valid.few);
    right_count = omega (arith, valid.few);
    left_keys = λ i. refl;
    left_children = λ i. refl;
    right_keys = λ i h. ground (arith, valid.few);
    right_children = λ i h. ground (arith, valid.few);
    left_min = refl;
    left_max = refl;
    right_min = refl;
    right_max = refl;
    left_versions = ground (arith, valid.consistent);
    right_versions = λ h. h;
  }

  pub record IsDivided : Type 0 where
    pub left_valid : IsValid left
    pub right_valid : IsValid right
    pub meet_left : left.base.max_limit ≡ sep
    pub meet_right : right.base.min_limit ≡ sep
    pub from_min : left.base.min_limit ≡ inner.base.min_limit
    pub to_max : right.base.max_limit ≡ inner.base.max_limit
    pub all_counted : left.base.count + right.base.count + 1 ≡ inner.base.count

  -- `split` of a well formed inner node of four keys or more, into a node as its constructor leaves it,
  -- makes two well formed nodes whose key ranges meet at the separator, which is in neither of them.
  pub inner_split-IsDivided : new_inner.base.front_version ≡ new_inner.back_version → IsDivided
  unfolding range_valid
  inner_split-IsDivided fresh = record {
    left_valid = record {
      some_key = omega (arith, h.left_count);
      few = omega (arith, h.left_count, valid.few);
      sorted =
          λ i j p q. ground (arith, h.left_count, h.left_keys i, h.left_keys j, valid.sorted i j);
      in_range = λ i p. ground (
        arith,
        h.left_count,
        h.left_min,
        h.left_max,
        h.separator,
        h.left_keys i,
        valid.in_range i,
        valid.sorted i kept,
      );
      consistent = h.left_versions;
    };
    right_valid = record {
      some_key = omega (arith, h.right_count);
      few = omega (arith, h.right_count, valid.few);
      sorted = λ i j p q. ground (
        arith,
        h.right_count,
        h.right_keys i,
        h.right_keys j,
        valid.sorted (i + kept + 1) (j + kept + 1),
      );
      in_range = λ i p. ground (
        arith,
        h.right_count,
        h.right_min,
        h.right_max,
        h.separator,
        h.right_keys i,
        valid.in_range (i + kept + 1),
        valid.sorted kept (i + kept + 1),
      );
      consistent = h.right_versions fresh;
    };
    meet_left = h.left_max;
    meet_right = h.right_min;
    from_min = h.left_min;
    to_max = h.right_max;
    all_counted = omega (arith, h.left_count, h.right_count);
  }
    where
      h : Halves
      h = halves

  -- After a split of a well formed inner node with at least four keys into a new node with equal
  -- versions, every key goes to the child that it went to before, through the left node up to the
  -- separator and through the right one above it.
  pub route-split :
      new_inner.base.front_version ≡ new_inner.back_version
      → (q : ℕ) → (if leb q sep then route left q else route right q) ≡ route inner q
  unfolding route
  route-split fresh q = elim (Bool-cases (leb q sep)) [
    | inl e ↦
        let at : lower_bound left q ≡ r = place_unique left d.left_valid q r (record {
          inside = ground (arith, h.left_count, h.separator, t.below kept, t.inside);
          below = λ i z. ground (arith, h.left_keys i, t.below i);
          above = λ i z y. ground (arith, h.left_count, h.left_keys i, t.above i);
        }) in
        rw (e, at, route) (h.left_children r)
    | inr e ↦
        let past : kept < r = ground (arith, h.separator, t.above kept, t.inside) in
        let at : lower_bound right q ≡ r - kept - 1 =
          place_unique right d.right_valid q (r - kept - 1) (record {
            inside = omega (arith, h.right_count, t.inside);
            below = λ i z. ground (arith, h.right_keys i, t.below (i + kept + 1), t.inside);
            above = λ i z y. ground (arith, h.right_count, h.right_keys i, t.above (i + kept + 1));
          }) in
        rw (e, at, route) (ground (arith, h.right_children (r - kept - 1), t.inside))
  ]
    where
      h : Halves
      h = halves

      d : IsDivided
      d = inner_split-IsDivided fresh

      r : ℕ
      r = lower_bound inner q

      t : Splits inner.keys inner.base.count q r
      t = place inner valid q
