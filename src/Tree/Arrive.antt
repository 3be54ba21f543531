-- ===== src/Tree/Arrive.antt =====
-- A page that is brought into memory: `simple_cold_to_hot` and `new_swizzling`.
use dex_partial.Base.{
  ℕ, zero, suc, ◌≤◌, ◌<◌, ◌≡◌, inl, inr, refl, ap, ◌∙◌, subst, arith, true, false, ◌==◌, none, some,
  Bool-cases, write,
}
use dex_partial.Base.Bits.{has_bit}
use dex_partial.BTree.Inner.{Inner, lower_bound, set_bitmap}
use dex_partial.BTree.Inner.Route.{route, place}
use dex_partial.Rpc.{Page, inner, leaf}
use dex_partial.Tree.{Pages, base_of, set_parent, slot_min, slot_max, brought, swizzled}
use dex_partial.Tree.Shape.{
  inside, leaf_rebased, find-rebased, inner_rebased, place_rebased, InnerAt, Good, Local, Local-of,
  has_key, same_page, read_leaf, read_inner, one_page, inner_same,
}
use dex_partial.Tree.Frame.{Turned, unchanged, frame_low, node_turned}
use dex_partial.Tree.Slots.{slot_of}

module _ (pages pages' : Pages) (c e word p : ℕ) (tag : has_bit e 63 ≡ true) where
  -- A page under a new name in memory, and what is below it, hold what they held.
  pub moved :
      (h lo hi : ℕ) (g : Page)
      → pages c ≡ some g
      → pages' e ≡ some (brought g word p)
      → ((name : ℕ) (f : Page)
          → pages name ≡ some f
          → (base_of f).level < h
          → (x : ℕ) × (pages' name ≡ some (set_parent x f)))
      → Good h pages c lo hi
      → Turned unchanged h pages c pages' e lo hi
  unfolding Good brought route
  moved zero lo hi g is at keep a =
      let to : pages' e ≡ some (brought (leaf a.l) word p) =
        subst (λ x. pages' e ≡ some (brought x word p)) (one_page pages c g (leaf a.l) is a.at)
          at in
      record {
        good = record {
          l = _;
          at = to;
          valid = leaf_rebased _ _ _ _ a.l a.valid;
          placed = record {
            level_is = a.placed.level_is;
            min_is = a.placed.min_is;
            max_is = a.placed.max_is;
            at_home = λ z. absurd (cc (z, tag));
          };
        };
        reads = λ q _.
            rw (read_leaf 0 pages' e q _ to, read_leaf 0 pages c q _ a.at)
              (ap some (find-rebased _ _ _ _ a.l q));
      }
  moved (suc h) lo hi g is at keep (a, below) =
      let to : pages' e ≡ some (brought (inner a.n) word p) =
        subst (λ x. pages' e ≡ some (brought x word p)) (one_page pages c g (inner a.n) is a.at)
          at in
      let sub : (i : ℕ)
          → i ≤ a.n.base.count
          → Turned unchanged h pages (a.n.children i) pages' (a.n.children i) (slot_min a.n i)
              (slot_max a.n i) =
        λ i z.
          frame_low (suc h) pages pages' keep h (a.n.children i) (slot_min a.n i) (slot_max a.n i)
            (below i z) (omega arith) in
      record {
        good = (
          record {
            n = _;
            at = to;
            valid = inner_rebased _ _ _ _ a.n a.n.children a.valid;
            apart = a.apart;
            placed = record {
              level_is = a.placed.level_is;
              min_is = a.placed.min_is;
              max_is = a.placed.max_is;
              at_home = λ z. absurd (cc (z, tag));
            };
          },
          λ i z. (sub i z).good,
        );
        reads = λ q z.
            rw
              (
                read_inner (suc h) pages' e q _ to,
                read_inner (suc h) pages c q _ a.at,
                route,
                place_rebased _ _ _ _ a.n a.n.children q,
              )
              ((sub (lower_bound a.n q) (place a.n a.valid q).inside).reads q
                (slot_of a.n a.valid a.apart q (rw (a.placed.min_is, a.placed.max_is) z)));
      }

-- The pages after a page came into memory at `e`, as the child `idx` of `n`.
abbrev pub arrive : Pages → Page → ℕ → ℕ → ℕ → Inner → ℕ → Pages
arrive pages g e word p n idx =
    write (write pages e (some (brought g word p))) p (some (inner (swizzled n idx e)))

module _ (pages : Pages) (k h p lo hi e word : ℕ) (g : Page) (a : InnerAt pages p (suc h) lo hi)
    (below : (i : ℕ)
      → i ≤ a.n.base.count
      → Good h pages (a.n.children i) (slot_min a.n i) (slot_max a.n i))
    (ok : inside lo hi k ≡ true) (is : pages (route a.n k) ≡ some g) (free : pages e ≡ none)
    (tag : has_bit e 63 ≡ true) where
  abbrev idx : ℕ
  idx = lower_bound a.n k

  abbrev after : Pages
  after = arrive pages g e word p a.n idx

  apart_names : (p == e) ≡ false
  apart_names = elim (Bool-cases (p == e)) [
    | inr o ↦ o
    | inl o ↦ let same : p ≡ e = ground (arith, o) in absurd (cc (a.at, free, ap pages same))
  ]

  kept_page :
      (name : ℕ) (f : Page) → pages name ≡ some f → (name == p) ≡ false → after name ≡ pages name
  kept_page name f at o = elim (Bool-cases (name == e)) [
    | inl q ↦ let same : name ≡ e = ground (arith, q) in absurd (cc (at, free, ap pages same))
    | inr q ↦ rw (o, q) refl
  ]

  pub arrive-Local : Local k (suc h) pages after
  arrive-Local = Local-of k (suc h) pages after λ name f at. elim (Bool-cases (name == p)) [
    | inr o ↦ inl (same_page pages after name f at (kept_page name f at o))
    | inl o ↦
        let same : p ≡ name = ground (arith, o) in
        let (i, l) =
          has_key pages p (suc h) lo hi k f (inner a.n) (ap pages same ∙ at) a.at a.placed ok in
        inr (i, omega (arith, l))
  ]

  -- The parent with the child in memory.
  pub arrive-InnerAt : InnerAt after p (suc h) lo hi
  unfolding swizzled set_bitmap
  arrive-InnerAt = record {
    n = swizzled a.n idx e;
    at = let self : (p == p) ≡ true = ground arith in rw self refl;
    valid = inner_rebased _ _ _ _ a.n _ a.valid;
    apart = a.apart;
    placed = record {
      level_is = a.placed.level_is;
      min_is = a.placed.min_is;
      max_is = a.placed.max_is;
      at_home = a.placed.at_home;
    };
  }

  -- The tree holds what it held.
  pub arrive-turned : Turned unchanged (suc h) pages p after p lo hi
  unfolding arrive-InnerAt swizzled set_bitmap route
  arrive-turned =
      let self : (e == e) ≡ true = ground arith in
      let other : (e == p) ≡ false = ground (arith, apart_names) in
      let here : after e ≡ some (brought g word p) = rw (other, self) refl in
      let s = place a.n a.valid k in
      let low : (name : ℕ) (f : Page)
          → pages name ≡ some f
          → (base_of f).level < h
          → (x : ℕ) × (after name ≡ some (set_parent x f)) =
        λ name f at l. same_page pages after name f at (
          kept_page name f at (elim (Bool-cases (name == p)) [
            | inr o ↦ o
            | inl o ↦
                let same : p ≡ name = ground (arith, o) in
                let (_, up) =
                  has_key pages p (suc h) lo hi k f (inner a.n) (ap pages same ∙ at) a.at a.placed
                    ok in
                absurd (omega (arith, l, up))
          ])) in
      let child =
        moved pages after (route a.n k) e word p tag h (slot_min a.n idx) (slot_max a.n idx) g is
          here low (below idx s.inside) in
      let at_idx : (idx == idx) ≡ true = ground arith in
      node_turned k (suc h) pages after arrive-Local unchanged (λ q x _. refl) h p lo hi a below ok
        arrive-InnerAt refl (λ i. refl) (λ i z. ground (arith, z)) (rw at_idx child)

  -- The parent has the page as the child that the key is sent to.
  pub arrive-route : (b : InnerAt after p (suc h) lo hi) → route b.n k ≡ e
  unfolding arrive-InnerAt swizzled set_bitmap route
  arrive-route b =
      let at_idx : (idx == idx) ≡ true = ground arith in
      let same = inner_same after p b.n arrive-InnerAt.n b.at arrive-InnerAt.at in
      ap (λ n. route n k) same ∙ rw (place_rebased _ _ _ _ a.n _ k, at_idx) refl

  -- And is as full, and as shared, as it was.
  pub arrive-same :
      (b : InnerAt after p (suc h) lo hi)
      → (b.n.base.count ≡ a.n.base.count) × (b.n.base.shared ≡ a.n.base.shared)
  unfolding arrive-InnerAt swizzled set_bitmap
  arrive-same b =
      let same = inner_same after p b.n arrive-InnerAt.n b.at arrive-InnerAt.at in
      (ap (λ n. n.base.count) same, ap (λ n. n.base.shared) same)
