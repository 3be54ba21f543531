-- ===== src/Tree/SplitLeaf.antt =====
-- `insert` at a full leaf: the leaf is split under its parent, and the tree holds what it held.
use dex_partial.Base.{
  ℕ, ◌-◌, ◌/◌, ◌≤◌, ◌<◌, ◌≡◌, inl, inr, refl, ap, sym, ◌∙◌, arith, Bool, true, false, leb, ◌==◌,
  if◌then◌else◌, Option, none, some, Bool-cases, write,
}
use dex_partial.BTree.Node.{range_valid}
use dex_partial.BTree.Inner
use dex_partial.BTree.Inner.{Inner, lower_bound}
use dex_partial.BTree.Inner.Route.{route}
use dex_partial.BTree.Leaf
use dex_partial.BTree.Leaf.{Leaf, max_entries, find}
use dex_partial.BTree.Leaf.Lookup
use dex_partial.BTree.Leaf.Split
use dex_partial.Rpc.{Page, inner, leaf}
use dex_partial.Tree.{Pages, World, slot_min, slot_max, written}
use dex_partial.Tree.Shape.{
  inside, read, LeafAt, InnerAt, Good, Local, Local-of, same_page, has_key, leaf_rebased,
  find-rebased, read_leaf,
}
use dex_partial.Tree.Frame.{Turned, unchanged}
use dex_partial.Tree.Slots.{slot_of}
use dex_partial.Tree.Halves.{divided}
use dex_partial.Tree.Passes.{put_leaf, put_inner, flush, flushed}

pub flushed_valid :
    (l : Leaf ℕ) → Lookup.IsValid l → Lookup.IsValid (record l { base = flushed l.base })
unfolding range_valid
flushed_valid l v = record {
  few = v.few;
  sorted = v.sorted;
  in_range = v.in_range;
  consistent = v.consistent;
}

pub find-flushed : (l : Leaf ℕ) (q : ℕ) → find (record l { base = flushed l.base }) q ≡ find l q
unfolding find
find-flushed l q = refl

choose :
    (b : Bool) (f g o : Option ℕ)
    → f ≡ (if b then o else none)
    → g ≡ (if b then none else o)
    → (if b then some f else some g) ≡ some o
choose true f g o u v = ap some u
choose false f g o u v = ap some v

module _ (w : World) (k : ℕ) (x : Pages) (q lo hi : ℕ) (a : InnerAt x q 1 lo hi)
    (below : (i : ℕ)
      → i ≤ a.n.base.count
      → Good 0 x (a.n.children i) (slot_min a.n i) (slot_max a.n i))
    (ok : inside lo hi k ≡ true) (room : a.n.base.count < Inner.max_entries - 1) (r : ℕ)
    (b : LeafAt x
      (route a.n k)
      (slot_min a.n (lower_bound a.n k))
      (slot_max a.n (lower_bound a.n k)))
    (full : b.l.base.count ≡ max_entries) (free : x r ≡ none) where
  abbrev pub c : ℕ
  c = route a.n k

  abbrev pub p : ℕ
  p = lower_bound a.n k

  -- The new leaf, as its constructor leaves it.
  abbrev pub fresh : Leaf ℕ
  fresh = Leaf.new w.old_entries r

  pub two : 2 ≤ b.l.base.count
  two = omega (arith, full)

  fresh_versions : fresh.base.front_version ≡ fresh.back_version
  unfolding Leaf.new
  fresh_versions = refl

  abbrev pub left : Leaf ℕ
  left = (Leaf.split b.l fresh r).0

  abbrev pub right : Leaf ℕ
  right = (Leaf.split b.l fresh r).1

  abbrev pub sep : ℕ
  sep = Split.sep b.l fresh r b.valid two

  parts : Split.Halves b.l fresh r b.valid two
  parts = Split.halves b.l fresh r b.valid two

  whole : Split.IsDivided b.l fresh r b.valid two
  whole = Split.split-IsDivided b.l fresh r b.valid two fresh_versions

  at_28 : sep ≡ Leaf.keys b.l 28
  at_28 = ap (λ i. Leaf.keys b.l (i / 2 - 1)) full

  above : slot_min a.n p < sep
  unfolding range_valid
  above = ground (arith, full, at_28, b.placed.min_is, b.valid.in_range 0, b.valid.sorted 0 28)

  under : sep < slot_max a.n p
  unfolding range_valid
  under = ground (arith, full, at_28, b.placed.max_is, b.valid.in_range 29, b.valid.sorted 28 29)

  abbrev pub split_pages : Pages
  split_pages =
      put_leaf (put_inner (write x r (some (flush right))) q (Inner.insert a.n sep r)) c left

  -- The three names are three.
  not_parent : (q == c) ≡ false
  not_parent = elim (Bool-cases (q == c)) [
    | inr o ↦ o
    | inl o ↦ let same : q ≡ c = ground (arith, o) in absurd (cc (sym a.at ∙ ap x same ∙ b.at))
  ]

  not_new : (name : ℕ) (g : Page) → x name ≡ some g → (name == r) ≡ false
  not_new name g at = elim (Bool-cases (name == r)) [
    | inr o ↦ o
    | inl o ↦ let same : name ≡ r = ground (arith, o) in absurd (cc (at, free, ap x same))
  ]

  at_left : split_pages c ≡ some (leaf (record left { base = written left.base }))
  at_left = let self : (c == c) ≡ true = ground arith in rw self refl

  at_right : split_pages r ≡ some (flush right)
  at_right =
      let self : (r == r) ≡ true = ground arith in
      let off : (r == c) ≡ false = ground (arith, not_new c (leaf b.l) b.at) in
      let out : (r == q) ≡ false = ground (arith, not_new q (inner a.n) a.at) in
      rw (self, off, out) refl

  at_parent :
      split_pages q
      ≡ some
          (inner (record (Inner.insert a.n sep r) { base = written (Inner.insert a.n sep r).base }))
  at_parent = let self : (q == q) ≡ true = ground arith in rw (self, not_parent) refl

  pub split-Local : Local k 1 x split_pages
  split-Local = Local-of k 1 x split_pages λ name g at. elim (Bool-cases (name == c)) [
    | inl o ↦
        let same : c ≡ name = ground (arith, o) in
        let in_slot = slot_of a.n a.valid a.apart k (rw (a.placed.min_is, a.placed.max_is) ok) in
        let (i, z) = has_key x c 0 _ _ k g (leaf b.l) (ap x same ∙ at) b.at b.placed in_slot in
        inr (i, omega (arith, z))
    | inr o ↦ elim (Bool-cases (name == q)) [
      | inl u ↦
          let same : q ≡ name = ground (arith, u) in
          let (i, z) = has_key x q 1 lo hi k g (inner a.n) (ap x same ∙ at) a.at a.placed ok in
          inr (i, omega (arith, z))
      | inr u ↦ inl (same_page x split_pages name g at (rw (o, u, not_new name g at) refl))
    ]
  ]

  good_left : Good 0 split_pages c (slot_min a.n p) sep
  unfolding Good Leaf.split
  good_left = record {
    l = record left { base = written left.base };
    at = at_left;
    valid = leaf_rebased _ _ _ _ left whole.left_valid;
    placed = record {
      level_is = b.placed.level_is;
      min_is = parts.left_min ∙ b.placed.min_is;
      max_is = parts.left_max;
      at_home = b.placed.at_home;
    };
  }

  good_right : Good 0 split_pages r sep (slot_max a.n p)
  unfolding Good Leaf.split Leaf.new
  good_right = record {
    l = _;
    at = at_right;
    valid = flushed_valid right whole.right_valid;
    placed = record {
      level_is = refl;
      min_is = parts.right_min;
      max_is = parts.right_max ∙ b.placed.max_is;
      at_home = λ _. refl;
    };
  }

  halves_hold :
      (z : ℕ)
      → (if leb z sep then read 1 split_pages c z else read 1 split_pages r z) ≡ read 1 x c z
  halves_hold z =
      let (f, g) = Split.find-split b.l fresh r b.valid two fresh_versions z in
      rw
        (
          read_leaf 0 split_pages c z _ at_left,
          read_leaf 0 split_pages r z _ at_right,
          read_leaf 0 x c z b.l b.at,
        )
        (choose (leb z sep) _ _ (find b.l z) (find-rebased _ _ _ _ left z ∙ f)
          (find-flushed right z ∙ g))

  -- The tree below the parent after the split.
  pub split_leaf-turned : Turned unchanged 1 x q split_pages q lo hi
  split_leaf-turned =
      divided k 0 x split_pages split-Local q lo hi a below sep r room above under at_parent
        good_left good_right (λ z _. halves_hold z) ok
