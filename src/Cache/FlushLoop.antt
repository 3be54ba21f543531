-- ===== src/Cache/FlushLoop.antt =====
-- What `flush_all` leaves in memory and on the memory nodes, page by page.
use dex_partial.Base.{
  ℕ, zero, suc, ◌≤◌, ◌<◌, ◌≡◌, ◌≢◌, inl, inr, refl, ap, sym, ◌∙◌, subst, fun_ext, arith, Bool, true,
  false, leb, ◌==◌, if◌then◌else◌, none, some, Bool-cases, Option-cases, write,
}
use dex_partial.Base.Bits.{has_bit}
use dex_partial.Rpc.{Page, inner, leaf}
use dex_partial.Tree.{Pages, base_of}
use dex_partial.Cache.{stored}
use dex_partial.Cache.Flush.{
  remote_of, remote_name, fully_unswizzle, set_dirty, flush_page, frame, flush_all,
}

-- The pool before the flush: its pages have addresses of their own on the memory nodes, which have the clean pages.
pub record IsPool (base_address num : ℕ) (pages : Pages) : Type 0 where
  pub hot : (i : ℕ) → i < num → has_bit (frame base_address i) 63 ≡ true
  pub cold :
      (i : ℕ) (g : Page)
      → i < num
      → pages (frame base_address i) ≡ some g
      → has_bit (base_of g).remote_address 63 ≡ false
  pub own :
      (i j : ℕ) (g f : Page)
      → i < num
      → j < num
      → pages (frame base_address i) ≡ some g
      → pages (frame base_address j) ≡ some f
      → (base_of g).remote_address ≡ (base_of f).remote_address
      → i ≡ j
  pub clean :
      (i : ℕ) (g : Page)
      → i < num
      → pages (frame base_address i) ≡ some g
      → (base_of g).dirty ≡ false
      → pages (base_of g).remote_address ≡ some (stored (fully_unswizzle pages g))

dirty_self : (g : Page) → set_dirty (base_of g).dirty g ≡ g
dirty_self (inner n) = refl
dirty_self (leaf l) = refl

dirty_base :
    (d : Bool) (g : Page) → (base_of (set_dirty d g)).remote_address ≡ (base_of g).remote_address
dirty_base d (inner n) = refl
dirty_base d (leaf l) = refl

-- What is written depends on the addresses of the children alone.
same_stored :
    (x y : Pages) (g : Page)
    → ((t : ℕ) → has_bit t 63 ≡ true → remote_of (x t) ≡ remote_of (y t))
    → stored (fully_unswizzle x g) ≡ stored (fully_unswizzle y g)
unfolding fully_unswizzle
same_stored x y (leaf l) h = refl
same_stored x y (inner n) h =
    let names : (c : ℕ) → remote_name x c ≡ remote_name y c =
      λ c. elim (Bool-cases (has_bit c 63)) [ inl e ↦ rw e (h c e) | inr e ↦ rw e refl ] in
    ap
      (λ (f : ℕ → ℕ). stored (
        inner (record n {
          base = record (n.base) { bitmap = 0 };
          children = λ i. if leb i n.base.count then f (n.children i) else n.children i;
        })))
      (fun_ext names)

module _ (base_address num : ℕ) (pages : Pages) (pool : IsPool base_address num pages) where
  abbrev at : ℕ → ℕ
  at i = frame base_address i

  -- After the first `m` pages.
  pub record Flushed (m : ℕ) (x : Pages) : Type 0 where
    pub frames :
        (i : ℕ) (g : Page)
        → i < num
        → pages (at i) ≡ some g
        → (i < m → x (at i) ≡ some (set_dirty false g)) × (m ≤ i → x (at i) ≡ some g)
    pub empty : (i : ℕ) → i < num → pages (at i) ≡ none → x (at i) ≡ none
    pub addresses : (t : ℕ) → has_bit t 63 ≡ true → remote_of (x t) ≡ remote_of (pages t)
    pub homes :
        (i : ℕ) (g : Page)
        → i < num
        → pages (at i) ≡ some g
        → (i < m → x (base_of g).remote_address ≡ some (stored (fully_unswizzle pages g)))
          × (m ≤ i → x (base_of g).remote_address ≡ pages (base_of g).remote_address)
    pub rest :
        (name : ℕ)
        → has_bit name 63 ≡ false
        → ((i : ℕ) (g : Page) → i < num → pages (at i) ≡ some g → (base_of g).remote_address ≢ name)
        → x name ≡ pages name

  -- What has to be seen at the page `m`.
  record Extends (m : ℕ) (x y : Pages) : Type 0 where
    frame_m : (g : Page) → pages (at m) ≡ some g → y (at m) ≡ some (set_dirty false g)
    empty_m : pages (at m) ≡ none → y (at m) ≡ none
    home_m :
        (g : Page)
        → pages (at m) ≡ some g
        → y (base_of g).remote_address ≡ some (stored (fully_unswizzle pages g))
    other_frames : (i : ℕ) → i < num → i ≢ m → y (at i) ≡ x (at i)
    other_homes :
        (i : ℕ) (g : Page)
        → i < num
        → i ≢ m
        → pages (at i) ≡ some g
        → y (base_of g).remote_address ≡ x (base_of g).remote_address
    same_addresses : (t : ℕ) → has_bit t 63 ≡ true → remote_of (y t) ≡ remote_of (x t)
    others :
        (name : ℕ)
        → has_bit name 63 ≡ false
        → ((g : Page) → pages (at m) ≡ some g → (base_of g).remote_address ≢ name)
        → y name ≡ x name

  extended : (m : ℕ) (x y : Pages) → m < num → Flushed m x → Extends m x y → Flushed (suc m) y
  extended m x y small f e = record {
    frames = λ i g z a. elim (Bool-cases (i == m)) [
      | inl o ↦
          let same : i ≡ m = ground (arith, o) in
          (
            (λ _.
                subst (λ j. y (at j) ≡ some (set_dirty false g)) (sym same)
                  (e.frame_m g (subst (λ j. pages (at j) ≡ some g) same a))),
            (λ q. absurd (omega (arith, q, same))),
          )
      | inr o ↦
          let away : i ≢ m = λ q. ground (arith, o, q) in
          let (done, left) = f.frames i g z a in
          (
            (λ q. e.other_frames i z away ∙ done (omega (arith, q, away))),
            (λ q. e.other_frames i z away ∙ left (omega (arith, q))),
          )
    ];
    empty = λ i z a. elim (Bool-cases (i == m)) [
      | inl o ↦
          let same : i ≡ m = ground (arith, o) in
          subst (λ j. y (at j) ≡ none) (sym same)
            (e.empty_m (subst (λ j. pages (at j) ≡ none) same a))
      | inr o ↦ e.other_frames i z (λ q. ground (arith, o, q)) ∙ f.empty i z a
    ];
    addresses = λ t h. e.same_addresses t h ∙ f.addresses t h;
    homes = λ i g z a. elim (Bool-cases (i == m)) [
      | inl o ↦
          let same : i ≡ m = ground (arith, o) in
          (
            (λ _. e.home_m g (subst (λ j. pages (at j) ≡ some g) same a)),
            (λ q. absurd (omega (arith, q, same))),
          )
      | inr o ↦
          let away : i ≢ m = λ q. ground (arith, o, q) in
          let (done, left) = f.homes i g z a in
          (
            (λ q. e.other_homes i g z away a ∙ done (omega (arith, q, away))),
            (λ q. e.other_homes i g z away a ∙ left (omega (arith, q))),
          )
    ];
    rest = λ name cold none_of.
        e.others name cold (λ g a. none_of m g small a) ∙ f.rest name cold none_of;
  }

  -- A page that is not written.
  unwritten :
      (m : ℕ) (x : Pages)
      → m < num
      → Flushed m x
      → ((g : Page) → pages (at m) ≡ some g → (base_of g).dirty ≡ false)
      → Flushed (suc m) x
  unwritten m x small f clean = extended m x x small f record {
    frame_m = λ g a.
        let same : set_dirty false g ≡ g =
          subst (λ d. set_dirty d g ≡ g) (clean g a) (dirty_self g) in
        (f.frames m g small a).1 (omega arith) ∙ ap some (sym same);
    empty_m = λ a. f.empty m small a;
    home_m = λ g a. (f.homes m g small a).1 (omega arith) ∙ pool.clean m g small a (clean g a);
    other_frames = λ i z q. refl;
    other_homes = λ i g z q a. refl;
    same_addresses = λ t h. refl;
    others = λ name c q. refl;
  }

  abbrev flushed_to : Pages → ℕ → Page → Pages
  flushed_to x m g =
      write (write x (base_of g).remote_address (some (stored (fully_unswizzle x g)))) (at m)
        (some (set_dirty false g))

  apart : (t r : ℕ) → has_bit t 63 ≡ true → has_bit r 63 ≡ false → (t == r) ≡ false
  apart t r a b = elim (Bool-cases (t == r)) [
    | inr o ↦ o
    | inl o ↦ let same : t ≡ r = ground (arith, o) in absurd (cc (a, b, same))
  ]

  dirty_written :
      (m : ℕ) (x : Pages) (g : Page)
      → m < num
      → pages (at m) ≡ some g
      → Flushed m x
      → Flushed (suc m) (flushed_to x m g)
  dirty_written m x g small a f =
      let r = (base_of g).remote_address in
      let cold = pool.cold m g small a in
      let self : (z : ℕ) → (z == z) ≡ true = λ z. ground arith in
      let one : (g' : Page) → pages (at m) ≡ some g' → g' ≡ g = λ g' a'. cc (a, a') in
      let r_m = apart (at m) r (pool.hot m small) cold in
      let r_m' : (r == at m) ≡ false = ground (arith, r_m) in
      extended m x (flushed_to x m g) small f record {
        frame_m = λ g' a'. rw (one g' a', self (at m)) refl;
        empty_m = λ a'. absurd (cc (a, a'));
        home_m =
            λ g' a'. rw (one g' a', r_m', self r) (ap some (same_stored x pages g f.addresses));
        other_frames = λ i z q.
            let i_m : (at i == at m) ≡ false = ground (arith, q) in
            rw (i_m, apart (at i) r (pool.hot i z) cold) refl;
        other_homes = λ i g' z q a'.
            let r' = (base_of g').remote_address in
            let r'_m : (r' == at m) ≡ false =
              ground (arith, apart (at m) r' (pool.hot m small) (pool.cold i g' z a')) in
            let r'_r : (r' == r) ≡ false = elim (Bool-cases (r' == r)) [
              | inr o ↦ o
              | inl o ↦ absurd (q (pool.own i m g' g z small a' a (ground (arith, o))))
            ] in
            rw (r'_m, r'_r) refl;
        same_addresses = λ t h. elim (Bool-cases (t == at m)) [
          | inl o ↦
              let same : t ≡ at m = ground (arith, o) in
              let was = (f.frames m g small a).1 (omega arith) in
              rw (same, self (at m), was) (dirty_base false g)
          | inr o ↦ rw (o, apart t r h cold) refl
        ];
        others = λ name c q.
            let n_m : (name == at m) ≡ false =
              ground (arith, apart (at m) name (pool.hot m small) c) in
            let n_r : (name == r) ≡ false = elim (Bool-cases (name == r)) [
              | inr o ↦ o
              | inl o ↦ absurd (q g a (ground (arith, o)))
            ] in
            rw (n_m, n_r) refl;
      }

  step : (m : ℕ) (x : Pages) → m < num → Flushed m x → Flushed (suc m) (flush_page x (at m))
  unfolding flush_page
  step m x small f = elim (Option-cases (pages (at m))) [
    | inl e ↦ rw (f.empty m small e) (unwritten m x small f (λ g a. absurd (cc (e, a))))
    | inr (g, e) ↦
        let here = (f.frames m g small e).1 (omega arith) in
        elim (Bool-cases (base_of g).dirty) [
          | inl d ↦ rw (here, d) (dirty_written m x g small e f)
          | inr d ↦
              rw (here, d)
                (unwritten m x small f (λ g' a. let one : g ≡ g' = cc (e, a) in rw (← one) d))
        ]
  ]

  pub flush_all-Flushed : (m : ℕ) → m ≤ num → Flushed m (flush_all base_address m pages)
  unfolding flush_all
  flush_all-Flushed zero h = record {
    frames = λ i g z e. ((λ q. absurd (omega arith)), (λ _. e));
    empty = λ i z e. e;
    addresses = λ t _. refl;
    homes = λ i g z e. ((λ q. absurd (omega arith)), (λ _. refl));
    rest = λ name _ _. refl;
  }
  flush_all-Flushed (suc m) h =
      step m (flush_all base_address m pages) (omega arith) (flush_all-Flushed m (omega arith))
