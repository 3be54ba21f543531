-- ===== src/Root/Fresh.antt =====
-- The first tree is well formed, and holds nothing.
use dex_partial.Base.{
  ℕ, zero, suc, ◌+◌, ◌-◌, ◌^◌, ◌≤◌, ◌<◌, ◌≡◌, inl, inr, refl, ap, sym, ◌∙◌, arith, true, false,
  ◌==◌, none, some, Bool-cases, Array, sub64,
}
use dex_partial.BTree.Node.{range_valid}
use dex_partial.BTree.Inner.{lower_bound}
use dex_partial.BTree.Inner.Route.{route, place}
use dex_partial.BTree.Leaf
use dex_partial.BTree.Leaf.{Leaf}
use dex_partial.BTree.Leaf.Lookup.{find_absent}
use dex_partial.Tree.{Pages, slot_min, slot_max}
use dex_partial.Tree.Shape.{read, LeafAt, InnerAt, Good, read_leaf, read_inner}
use dex_partial.Root.{Supply, new_leaf, parts}
use dex_partial.Root.Parts.{IsFresh, IsParted, low, high, Laid, parts-Laid}

module _ (s : Supply) (info : Array ℕ) (num : ℕ) (parted : IsParted info num) where
  rise : (i j : ℕ) → i < j → j ≤ num → info i < info j
  rise i zero p q = absurd (omega (arith, p))
  rise i (suc j) p q =
      let next = parted.rising j (omega (arith, q)) in
      let up : info (suc j) ≡ info (j + 1) = ap info (omega arith) in
      elim (Bool-cases (i == j)) [
        | inl o ↦
            let at : info i ≡ info j = ap info (ground (arith, o)) in omega (arith, at, up, next)
        | inr o ↦
            let r = rise i j (ground (arith, o, p)) (omega (arith, q)) in omega (arith, r, up, next)
      ]

  -- The bounds past the first are from 2 to the greatest key.
  bound : (j : ℕ) → j < num → (1 < info (j + 1)) × (info (j + 1) < 2 ^ 64)
  bound j p = (
    elim (Bool-cases (j == 0)) [
      | inl o ↦ let same : j ≡ 0 = ground (arith, o) in rw same parted.room
      | inr o ↦
          let r = rise 1 (j + 1) (ground (arith, o)) (omega (arith, p)) in
          omega (arith, r, parted.room)
    ],
    elim (Bool-cases (j + 1 == num)) [
      | inl o ↦ let same : j + 1 ≡ num = ground (arith, o) in rw same (omega (arith, parted.last))
      | inr o ↦
          let r = rise (j + 1) num (ground (arith, o, p)) (omega arith) in
          omega (arith, r, parted.last)
    ],
  )

  -- A leaf of the first tree.
  leaf-LeafAt :
      (pages : Pages) (address lo hi : ℕ)
      → pages address ≡ some (new_leaf s address lo hi)
      → LeafAt pages address lo hi
  unfolding new_leaf Leaf.new
  leaf-LeafAt pages address lo hi at = record {
    l = _;
    at = at;
    valid = record {
      few = omega arith;
      sorted = λ i j p q. absurd (omega (arith, q));
      in_range = λ i p. absurd (omega (arith, p));
      consistent = refl;
    };
    placed = record { level_is = refl; min_is = refl; max_is = refl; at_home = λ z. refl };
  }

  leaf_empty :
      (pages : Pages) (address lo hi q : ℕ)
      → pages address ≡ some (new_leaf s address lo hi)
      → read 1 pages address q ≡ some none
  unfolding new_leaf Leaf.new
  leaf_empty pages address lo hi q at =
      read_leaf 0 pages address q _ at
      ∙ ap some (
          find_absent _ (λ i j a b. absurd (omega (arith, b))) (omega arith) q
            (λ i p. absurd (omega (arith, p))))

  module _ (fresh : IsFresh s num) (pages : Pages) where
    abbrev laid : Laid s info num fresh (parts s info num pages)
    laid = parts-Laid s info num fresh pages parted

    count_is : laid.m.base.count ≡ num - 1
    count_is = ap (λ b. b.count) laid.base ∙ omega (arith, parted.few, parted.many)

    min_is : laid.m.base.min_limit ≡ 0
    min_is = ap (λ b. b.min_limit) laid.base

    max_is : laid.m.base.max_limit ≡ 2 ^ 64 - 1
    max_is = ap (λ b. b.max_limit) laid.base

    key_is : (j : ℕ) → j + 1 < num → laid.m.keys j + 1 ≡ info (j + 1)
    key_is j p = let (l, h) = bound j (omega arith) in omega (arith, laid.keys j p, l, h)

    slot_min_is : (j : ℕ) → j < num → slot_min laid.m j ≡ low s info num fresh j
    slot_min_is j p = elim (Bool-cases (j == 0)) [
      | inl o ↦ rw o (min_is ∙ sym parted.first)
      | inr o ↦
          let at : j - 1 + 1 ≡ j = ground (arith, o) in
          rw o (laid.keys (j - 1) (omega (arith, at, p)) ∙ ap (λ t. sub64 (info t) 1) at)
    ]

    slot_max_is : (j : ℕ) → j < num → slot_max laid.m j ≡ high s info num fresh j
    slot_max_is j p = elim (Bool-cases (j + 1 == num)) [
      | inl o ↦
          let last : (j == laid.m.base.count) ≡ true = ground (arith, o, count_is) in
          rw (o, last) (max_is ∙ sym parted.last)
      | inr o ↦
          let inner : (j == laid.m.base.count) ≡ false = ground (arith, o, count_is, parted.many) in
          rw (o, inner) (laid.keys j (ground (arith, o, p)))
    ]

    top_at : InnerAt (parts s info num pages) (s.address 0) 1 0 (2 ^ 64 - 1)
    unfolding range_valid
    top_at = record {
      n = laid.m;
      at = laid.at;
      valid = record {
        some_key = omega (arith, count_is, parted.many);
        few = omega (arith, count_is, parted.few);
        sorted = λ i j p q.
            let r = rise (i + 1) (j + 1) (omega (arith, p)) (omega (arith, q, count_is)) in
            omega (
              arith,
              r,
              key_is i (omega (arith, p, q, count_is)),
              key_is j (omega (arith, q, count_is)),
            );
        in_range = λ i p.
            let k = key_is i (omega (arith, p, count_is)) in
            let (l, h) = bound i (omega (arith, p, count_is)) in
            rw (min_is, max_is) (ground (arith, k, l, h));
        consistent = ap (λ b. b.front_version) laid.base ∙ sym laid.consistent;
      };
      apart = λ i p.
          let k = key_is i (omega (arith, p, count_is)) in
          let (l, _) = bound i (omega (arith, p, count_is)) in omega (arith, min_is, k, l);
      placed = record {
        level_is = ap (λ b. b.level) laid.base;
        min_is = min_is;
        max_is = max_is;
        at_home = λ z. ap (λ b. b.remote_address) laid.base;
      };
    }

    child_at :
        (j : ℕ)
        → j < num
        → parts s info num pages (laid.m.children j)
          ≡ some (new_leaf s (laid.m.children j) (slot_min laid.m j) (slot_max laid.m j))
    child_at j p = rw (laid.children j p, slot_min_is j p, slot_max_is j p) (laid.leaves j p)

    pub parts-Good : Good 1 (parts s info num pages) (s.address 0) 0 (2 ^ 64 - 1)
    unfolding Good top_at
    parts-Good =
        (top_at, λ j p. leaf-LeafAt _ _ _ _ (child_at j (omega (arith, p, count_is, parted.many))))

    pub parts_empty : (q : ℕ) → read 2 (parts s info num pages) (s.address 0) q ≡ some none
    unfolding top_at route
    parts_empty q =
        let z = (place laid.m top_at.valid q).inside in
        read_inner 1 _ _ q _ laid.at
        ∙ leaf_empty _ _ _ _ q
            (child_at (lower_bound laid.m q) (omega (arith, z, count_is, parted.many)))
