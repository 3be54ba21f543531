-- ===== src/Root/Parts.antt =====
-- The first tree of the constructor: its inner node, cell by cell, its leaves, and what it holds.
use dex_partial.Base.{
  ℕ, zero, suc, ◌+◌, ◌-◌, ◌^◌, ◌≤◌, ◌<◌, ◌≡◌, ◌≢◌, inl, inr, refl, ap, sym, ◌∙◌, arith, true, false,
  ◌==◌, if◌then◌else◌, some, Bool-cases, Array, sub64,
}
use dex_partial.Base.Bits.{has_bit}
use dex_partial.BTree.Node.{NodeBase}
use dex_partial.BTree.Inner.{Inner}
use dex_partial.Rpc.{Page, inner}
use dex_partial.Tree.{Pages}
use dex_partial.Root.{
  Supply, new_leaf, put_part, put_key, parts_loop, first_base, first_pages, first_node, last_node,
  last_pages, parts,
}

-- The pages that are handed out for the inner node and the leaves differ, and are on memory nodes.
pub record IsFresh (s : Supply) (num : ℕ) : Type 0 where
  pub apart : (i j : ℕ) → i ≤ num → j ≤ num → s.address i ≡ s.address j → i ≡ j
  pub cold : (i : ℕ) → i ≤ num → has_bit (s.address i) 63 ≡ false

-- The bounds of the partitions: from the least key to the greatest, rising, so few that one inner node has them all.
pub record IsParted (info : Array ℕ) (num : ℕ) : Type 0 where
  pub many : 1 < num
  pub few : num < 60
  pub first : info 0 ≡ 0
  pub last : info num ≡ 2 ^ 64 - 1
  pub room : 1 < info 1
  pub rising : (i : ℕ) → i < num → info i < info (i + 1)

module _ (s : Supply) (info : Array ℕ) (num : ℕ) (fresh : IsFresh s num) where
  abbrev part : ℕ → Page
  part j = new_leaf s (s.address (j + 1)) (sub64 (info j) 1) (sub64 (info (j + 1)) 1)

  other_address : (i j : ℕ) → i ≤ num → j ≤ num → i ≢ j → (s.address i == s.address j) ≡ false
  other_address i j p q away = elim (Bool-cases (s.address i == s.address j)) [
    | inr o ↦ o
    | inl o ↦ absurd (away (fresh.apart i j p q (ground (arith, o))))
  ]

  -- The loop leaves what is not of its partitions.
  record Kept (i left : ℕ) (x : Pages) (n : Inner) (y : Pages) (m : Inner) : Type 0 where
    base : m.base ≡ n.base
    versions : m.back_version ≡ n.back_version
    pages :
        (j : ℕ)
        → j ≤ num
        → ((t : ℕ) → i ≤ t → t < i + left → j ≢ t + 1)
        → y (s.address j) ≡ x (s.address j)
    children : (j : ℕ) → j < i → m.children j ≡ n.children j
    keys : (j : ℕ) → j + 1 < i → m.keys j ≡ n.keys j

  parts_loop-Kept :
      (left i : ℕ) (x : Pages) (n : Inner)
      → i + left ≤ num
      → Kept i left x n (parts_loop left s info i (x, n)).0 (parts_loop left s info i (x, n)).1
  unfolding parts_loop put_part
  parts_loop-Kept zero i x n few = record {
    base = refl;
    versions = refl;
    pages = λ j le h. refl;
    children = λ j h. refl;
    keys = λ j h. refl;
  }
  parts_loop-Kept (suc left) i x n few =
      let r =
        parts_loop-Kept left (i + 1) (put_part s info i x) (put_key s info i n)
          (omega (arith, few)) in
      record {
        base = r.base;
        versions = r.versions;
        pages = λ j le h.
            let o =
              other_address j (i + 1) le (omega (arith, few)) (h i (omega arith) (omega arith)) in
            r.pages j le (λ t p q. h t (omega (arith, p)) (omega (arith, q))) ∙ rw o refl;
        children = λ j h. r.children j (omega (arith, h)) ∙ ground (arith, h);
        keys = λ j h. r.keys j (omega (arith, h)) ∙ ground (arith, h);
      }

  record Filled (i left : ℕ) (y : Pages) (m : Inner) : Type 0 where
    pages : (j : ℕ) → i ≤ j → j < i + left → y (s.address (j + 1)) ≡ some (part j)
    children : (j : ℕ) → i ≤ j → j < i + left → m.children j ≡ s.address (j + 1)
    keys : (j : ℕ) → i ≤ j + 1 → j + 1 < i + left → m.keys j ≡ sub64 (info (j + 1)) 1

  parts_loop-Filled :
      (left i : ℕ) (x : Pages) (n : Inner)
      → 0 < i
      → i + left ≤ num
      → Filled i left (parts_loop left s info i (x, n)).0 (parts_loop left s info i (x, n)).1
  unfolding parts_loop put_part
  parts_loop-Filled zero i x n pos few = record {
    pages = λ j p q. absurd (omega (arith, p, q));
    children = λ j p q. absurd (omega (arith, p, q));
    keys = λ j p q. absurd (omega (arith, p, q));
  }
  parts_loop-Filled (suc left) i x n pos few =
      let k =
        parts_loop-Kept left (i + 1) (put_part s info i x) (put_key s info i n)
          (omega (arith, few)) in
      let r =
        parts_loop-Filled left (i + 1) (put_part s info i x) (put_key s info i n) (omega arith)
          (omega (arith, few)) in
      record {
        pages = λ j p q. elim (Bool-cases (j == i)) [
          | inr o ↦ r.pages j (ground (arith, o, p)) (omega (arith, q))
          | inl o ↦
              let same : j ≡ i = ground (arith, o) in
              let self : (s.address (i + 1) == s.address (i + 1)) ≡ true = ground arith in
              rw same (
                k.pages (i + 1) (omega (arith, few)) (λ t a b e. omega (arith, a, e))
                ∙ rw self refl)
        ];
        children = λ j p q. elim (Bool-cases (j == i)) [
          | inr o ↦ r.children j (ground (arith, o, p)) (omega (arith, q))
          | inl o ↦
              let same : j ≡ i = ground (arith, o) in
              rw same (k.children i (omega arith) ∙ ground arith)
        ];
        keys = λ j p q. elim (Bool-cases (j + 1 == i)) [
          | inr o ↦ r.keys j (ground (arith, o, p)) (omega (arith, q))
          | inl o ↦
              let same : i ≡ j + 1 = ground (arith, o) in
              k.keys j (omega (arith, same)) ∙ rw same (ground arith)
        ];
      }

  abbrev pub low : ℕ → ℕ
  low j = if j == 0 then info 0 else sub64 (info j) 1

  abbrev pub high : ℕ → ℕ
  high j = if j + 1 == num then info num else sub64 (info (j + 1)) 1

  -- The inner node over the leaves, each with its limits.
  pub record Laid (y : Pages) : Type 0 where
    pub m : Inner
    pub at : y (s.address 0) ≡ some (inner m)
    pub base : m.base ≡ record (first_base s num) { lock_word = 0 }
    pub consistent : m.back_version ≡ 0
    pub children : (j : ℕ) → j < num → m.children j ≡ s.address (j + 1)
    pub keys : (j : ℕ) → j + 1 < num → m.keys j ≡ sub64 (info (j + 1)) 1
    pub leaves :
        (j : ℕ)
        → j < num
        → y (s.address (j + 1)) ≡ some (new_leaf s (s.address (j + 1)) (low j) (high j))

  pub parts-Laid : (pages : Pages) → IsParted info num → Laid (parts s info num pages)
  unfolding parts first_pages first_node last_pages
  parts-Laid pages parted =
      let many = parted.many in
      let x = first_pages s info pages in
      let n = first_node s num in
      let k = parts_loop-Kept (num - 2) 1 x n (omega (arith, many)) in
      let f = parts_loop-Filled (num - 2) 1 x n (omega arith) (omega (arith, many)) in
      let z = (parts_loop (num - 2) s info 1 (x, n)).0 in
      let q = (parts_loop (num - 2) s info 1 (x, n)).1 in
      let self : (t : ℕ) → (t == t) ≡ true = λ t. ground arith in
      let unlock : NodeBase → NodeBase = λ b. record b { lock_word = 0 } in
      record {
        m = last_node s info num q;
        at = rw (self (s.address 0)) refl;
        base = ap unlock k.base;
        consistent = k.versions;
        children = λ j p. elim (Bool-cases (j == num - 1)) [
          | inl o ↦ rw o (ap s.address (ground (arith, o, many)))
          | inr o ↦ rw o (elim (Bool-cases (j == 0)) [
            | inl e ↦ let same : j ≡ 0 = ground (arith, e) in rw same (k.children 0 (omega arith))
            | inr e ↦ f.children j (ground (arith, e)) (ground (arith, o, p))
          ])
        ];
        keys = λ j p. elim (Bool-cases (j == num - 2)) [
          | inl o ↦
              let same : j + 1 ≡ num - 1 = ground (arith, o, many) in
              rw o (ap (λ t. sub64 (info t) 1) (sym same))
          | inr o ↦ rw o (f.keys j (omega arith) (ground (arith, o, p)))
        ];
        leaves = λ j p.
            let a =
              other_address (j + 1) 0 (omega (arith, p)) (omega arith) (λ e. omega (arith, e)) in
            rw a (elim (Bool-cases (j == num - 1)) [
              | inl o ↦
                  let same : j + 1 ≡ num = ground (arith, o, many) in
                  let pred : num - 1 ≡ j = omega (arith, same) in
                  let nz : (j == 0) ≡ false = ground (arith, same, many) in
                  let tn : (j + 1 == num) ≡ true = ground (arith, same) in
                  rw (nz, tn, same, self (s.address num))
                    (ap (λ t. some (new_leaf s (s.address num) (sub64 (info t) 1) (info num))) pred)
              | inr o ↦
                  let b =
                    other_address (j + 1) num (omega (arith, p)) (omega arith)
                      (λ e. ground (arith, e, o)) in
                  rw b (elim (Bool-cases (j == 0)) [
                    | inl e ↦
                        let same : j ≡ 0 = ground (arith, e) in
                        let tn : (0 + 1 == num) ≡ false = ground (arith, many) in
                        rw (same, tn)
                          (k.pages 1 (omega (arith, many)) (λ t u v w. omega (arith, u, w))
                            ∙ rw (self (s.address 1)) refl)
                    | inr e ↦
                        let tn : (j + 1 == num) ≡ false = ground (arith, o) in
                        rw (e, tn) (f.pages j (ground (arith, e)) (ground (arith, o, p)))
                  ])
            ]);
      }
