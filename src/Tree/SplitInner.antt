-- ===== src/Tree/SplitInner.antt =====
-- `insert` at a full inner node: the node is split under its parent, and the tree holds what it held.
use dex_partial.Base.{
  ℕ, suc, ◌+◌, ◌-◌, ◌/◌, ◌≤◌, ◌<◌, ◌≡◌, inl, inr, refl, ap, sym, ◌∙◌, arith, true, false, leb, ◌==◌,
  if◌then◌else◌, none, some, Bool-cases, write,
}
use dex_partial.Base.Bits.{has_bit}
use dex_partial.BTree.Node.{range_valid}
use dex_partial.BTree.Inner
use dex_partial.BTree.Inner.{Inner, lower_bound, max_entries}
use dex_partial.BTree.Inner.Route.{route, place}
use dex_partial.BTree.Inner.Split
use dex_partial.Rpc.{Page, inner}
use dex_partial.Tree.{Pages, World, base_of, set_parent, slot_min, slot_max, written, brought}
use dex_partial.Tree.Shape.{
  inside, read, InnerAt, Good, Local, Local-of, one_page, has_key, inner_rebased, place_rebased,
  read_inner,
}
use dex_partial.Tree.Frame.{Turned, unchanged, frame_low}
use dex_partial.Tree.Slots.{slot_of}
use dex_partial.Tree.Halves.{divided, route_written}
use dex_partial.Tree.Passes.{put_inner, update_all_parent_ptr}
use dex_partial.Tree.Adopt.{adopted_page, if_ap}

module _ (w : World) (k h : ℕ) (x : Pages) (q lo hi : ℕ) (a : InnerAt x q (suc (suc h)) lo hi)
    (below : (i : ℕ)
      → i ≤ a.n.base.count
      → Good (suc h) x (a.n.children i) (slot_min a.n i) (slot_max a.n i))
    (ok : inside lo hi k ≡ true) (room : a.n.base.count < max_entries - 1) (e word remote : ℕ)
    (b : InnerAt x
      (route a.n k)
      (suc h)
      (slot_min a.n (lower_bound a.n k))
      (slot_max a.n (lower_bound a.n k)))
    (below_b : (i : ℕ)
      → i ≤ b.n.base.count
      → Good h x (b.n.children i) (slot_min b.n i) (slot_max b.n i))
    (full : b.n.base.count ≡ max_entries - 1) (free : x e ≡ none) (tag : has_bit e 63 ≡ true) where
  abbrev pub c : ℕ
  c = route a.n k

  abbrev pub p : ℕ
  p = lower_bound a.n k

  -- The new node, as its constructor leaves it.
  abbrev pub fresh : Inner
  fresh = Inner.new w.old_children w.old_keys b.n.base.level remote

  pub four : 4 ≤ b.n.base.count
  four = omega (arith, full)

  fresh_versions : fresh.base.front_version ≡ fresh.back_version
  unfolding Inner.new
  fresh_versions = refl

  abbrev pub left : Inner
  left = (Inner.split b.n fresh).0

  abbrev pub right : Inner
  right = (Inner.split b.n fresh).1

  abbrev pub sep : ℕ
  sep = (Inner.split b.n fresh).2

  parts : Split.Halves b.n fresh b.valid four
  parts = Split.halves b.n fresh b.valid four

  whole : Split.IsDivided b.n fresh b.valid four
  whole = Split.inner_split-IsDivided b.n fresh b.valid four fresh_versions

  at_28 : sep ≡ b.n.keys 28
  at_28 = parts.separator ∙ ap (λ i. b.n.keys (i / 2 - 1)) full

  above : slot_min a.n p < sep
  above = ground (arith, full, at_28, b.placed.min_is, b.apart 28)

  under : sep < slot_max a.n p
  unfolding range_valid
  under = ground (arith, full, at_28, b.placed.max_is, b.valid.in_range 29, b.valid.sorted 28 29)

  -- The new node in its page, and its children told of it.
  abbrev pub new_page : Pages
  new_page = write x e (some (brought (inner right) word q))

  abbrev pub told : Pages
  told = update_all_parent_ptr (right.base.count + 1) right e new_page

  abbrev pub split_pages : Pages
  split_pages = put_inner (put_inner told q (Inner.insert a.n sep e)) c left

  not_new : (name : ℕ) (g : Page) → x name ≡ some g → (name == e) ≡ false
  not_new name g at = elim (Bool-cases (name == e)) [
    | inr o ↦ o
    | inl o ↦ let same : name ≡ e = ground (arith, o) in absurd (cc (at, free, ap x same))
  ]

  kept_page :
      (name : ℕ) (g : Page)
      → x name ≡ some g
      → (name == c) ≡ false
      → (name == q) ≡ false
      → (u : ℕ) × (split_pages name ≡ some (set_parent u g))
  kept_page name g at o u =
      let (v, s) =
        adopted_page (right.base.count + 1) right e new_page name g (rw (not_new name g at) at) in
      (v, rw (o, u) s)

  not_parent : (q == c) ≡ false
  not_parent = elim (Bool-cases (q == c)) [
    | inr o ↦ o
    | inl o ↦
        let same : q ≡ c = ground (arith, o) in
        let is = one_page x c (inner a.n) (inner b.n) (ap x (sym same) ∙ a.at) b.at in
        let level = ap (λ g. (base_of g).level) is in
        absurd (omega (arith, level, a.placed.level_is, b.placed.level_is))
  ]

  at_left : split_pages c ≡ some (inner (record left { base = written left.base }))
  at_left = let self : (c == c) ≡ true = ground arith in rw self refl

  at_parent :
      split_pages q
      ≡ some
          (inner (record (Inner.insert a.n sep e) { base = written (Inner.insert a.n sep e).base }))
  at_parent = let self : (q == q) ≡ true = ground arith in rw (self, not_parent) refl

  at_right : (u : ℕ) × (split_pages e ≡ some (set_parent u (brought (inner right) word q)))
  at_right =
      let self : (e == e) ≡ true = ground arith in
      let off : (e == c) ≡ false = ground (arith, not_new c (inner b.n) b.at) in
      let out : (e == q) ≡ false = ground (arith, not_new q (inner a.n) a.at) in
      let g = brought (inner right) word q in
      let here : new_page e ≡ some g = rw self refl in
      let (v, s) = adopted_page (right.base.count + 1) right e new_page e g here in
      (v, rw (off, out) s)

  pub split-Local : Local k (suc (suc h)) x split_pages
  split-Local = Local-of k (suc (suc h)) x split_pages λ name g at. elim (Bool-cases (name == c)) [
    | inl o ↦
        let same : c ≡ name = ground (arith, o) in
        let in_slot = slot_of a.n a.valid a.apart k (rw (a.placed.min_is, a.placed.max_is) ok) in
        let (i, z) =
          has_key x c (suc h) _ _ k g (inner b.n) (ap x same ∙ at) b.at b.placed in_slot in
        inr (i, omega (arith, z))
    | inr o ↦ elim (Bool-cases (name == q)) [
      | inl u ↦
          let same : q ≡ name = ground (arith, u) in
          let (i, z) =
            has_key x q (suc (suc h)) lo hi k g (inner a.n) (ap x same ∙ at) a.at a.placed ok in
          inr (i, omega (arith, z))
      | inr u ↦ inl (kept_page name g at o u)
    ]
  ]

  -- What is below the node stays where it is.
  subtree :
      (i : ℕ)
      → i ≤ b.n.base.count
      → Turned unchanged h x
          (b.n.children i)
          split_pages
          (b.n.children i)
          (slot_min b.n i)
          (slot_max b.n i)
  subtree i z =
      frame_low (suc h) x split_pages
        (λ name g at l.
          kept_page name g at
            (elim (Bool-cases (name == c)) [
              | inr o ↦ o
              | inl o ↦
                  let same : c ≡ name = ground (arith, o) in
                  let is = one_page x c g (inner b.n) (ap x same ∙ at) b.at in
                  let level = ap (λ j. (base_of j).level) is in
                  absurd (omega (arith, l, level, b.placed.level_is))
            ])
            (elim (Bool-cases (name == q)) [
              | inr o ↦ o
              | inl o ↦
                  let same : q ≡ name = ground (arith, o) in
                  let is = one_page x q g (inner a.n) (ap x same ∙ at) a.at in
                  let level = ap (λ j. (base_of j).level) is in
                  absurd (omega (arith, l, level, a.placed.level_is))
            ]))
        h (b.n.children i) (slot_min b.n i) (slot_max b.n i) (below_b i z) (omega arith)

  abbrev kept : ℕ
  kept = Split.kept b.n fresh b.valid four

  left_child :
      (i : ℕ)
      → i ≤ left.base.count
      → Good h split_pages (left.children i) (slot_min left i) (slot_max left i)
  left_child i z =
      let u : slot_min left i ≡ slot_min b.n i =
        ground (arith, parts.left_min, parts.left_keys (i - 1)) in
      let v : slot_max left i ≡ slot_max b.n i =
        ground
          (arith, full, parts.left_count, parts.left_max, parts.separator, parts.left_keys i, z) in
      rw (u, v, parts.left_children i) (subtree i (omega (arith, parts.left_count, full, z))).good

  right_child :
      (i : ℕ)
      → i ≤ right.base.count
      → Good h split_pages (right.children i) (slot_min right i) (slot_max right i)
  right_child i z =
      let j = i + kept + 1 in
      let c1 : right.children i ≡ b.n.children j =
        parts.right_children i (omega (arith, parts.right_count, z)) in
      let u : slot_min right i ≡ slot_min b.n j = ground (
        arith,
        full,
        parts.right_count,
        parts.right_min,
        parts.separator,
        parts.right_keys (i - 1),
        z,
      ) in
      let v : slot_max right i ≡ slot_max b.n j =
        ground (arith, full, parts.right_count, parts.right_max, parts.right_keys i, z) in
      rw (u, v, c1) (subtree j (omega (arith, parts.right_count, full, z))).good

  good_left : Good (suc h) split_pages c (slot_min a.n p) sep
  unfolding Good Inner.split
  good_left = (
    record {
      n = record left { base = written left.base };
      at = at_left;
      valid = inner_rebased _ _ _ _ left left.children whole.left_valid;
      apart = λ i z.
          ground (arith, full, parts.left_count, parts.left_min, parts.left_keys i, b.apart i, z);
      placed = record {
        level_is = b.placed.level_is;
        min_is = parts.left_min ∙ b.placed.min_is;
        max_is = parts.left_max;
        at_home = b.placed.at_home;
      };
    },
    left_child,
  )

  good_right : Good (suc h) split_pages e sep (slot_max a.n p)
  unfolding Good Inner.split Inner.new brought
  good_right = (
    record {
      n = _;
      at = at_right.1;
      valid = inner_rebased _ _ _ _ right right.children whole.right_valid;
      apart = λ i z. ground (
        arith,
        full,
        parts.right_count,
        parts.right_min,
        parts.separator,
        parts.right_keys i,
        b.valid.sorted 28 (i + kept + 1),
        z,
      );
      placed = record {
        level_is = b.placed.level_is;
        min_is = parts.right_min;
        max_is = parts.right_max ∙ b.placed.max_is;
        at_home = λ z. absurd (cc (z, tag));
      };
    },
    right_child,
  )

  below_reads :
      (z : ℕ)
      → inside (slot_min a.n p) (slot_max a.n p) z ≡ true
      → read (suc h) split_pages (route b.n z) z ≡ read (suc h) x (route b.n z) z
  unfolding route
  below_reads z within =
      (subtree (lower_bound b.n z) (place b.n b.valid z).inside).reads z
        (slot_of b.n b.valid b.apart z (rw (b.placed.min_is, b.placed.max_is) within))

  right-route :
      (z : ℕ) → read (suc (suc h)) split_pages e z ≡ read (suc h) split_pages (route right z) z
  unfolding brought route
  right-route z =
      read_inner (suc h) split_pages e z _ at_right.1
      ∙ ap (λ i. read (suc h) split_pages (right.children i) z)
          (place_rebased _ _ _ _ right right.children z)

  halves_hold :
      (z : ℕ)
      → inside (slot_min a.n p) (slot_max a.n p) z ≡ true
      → (if leb z sep
          then read (suc (suc h)) split_pages c z
          else read (suc (suc h)) split_pages e z)
        ≡ read (suc (suc h)) x c z
  halves_hold z within =
      rw
        (
          read_inner (suc h) split_pages c z _ at_left,
          right-route z,
          read_inner (suc h) x c z b.n b.at,
          route_written left z,
        )
        (if_ap (leb z sep) (λ d. read (suc h) split_pages d z) (route left z) (route right z)
          ∙ ap (λ d. read (suc h) split_pages d z)
              (Split.route-split b.n fresh b.valid four fresh_versions z)
          ∙ below_reads z within)

  -- The tree below the parent after the split.
  pub split_inner-turned : Turned unchanged (suc (suc h)) x q split_pages q lo hi
  split_inner-turned =
      divided k (suc h) x split_pages split-Local q lo hi a below sep e room above under at_parent
        good_left good_right halves_hold ok
