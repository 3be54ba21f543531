-- ===== src/Cache/Taken.antt =====
-- The steps of a round of `sample_page` with a page and its parent: the index, the check and the pages.
use dex_partial.Base.{
  ℕ, ◌-◌, ◌≤◌, ◌≡◌, inl, inr, refl, ap, sym, ◌∙◌, subst, arith, true, false, ◌&&◌, ◌==◌,
  if◌then◌else◌, some, Bool-cases, write,
}
use dex_partial.Base.Bits.{has_bit}
use dex_partial.BTree.Inner.{Inner, find_idx, lower_bound}
use dex_partial.BTree.Inner.Loops.{find_idx_cases}
use dex_partial.BTree.Inner.Route.{route, place}
use dex_partial.BTree.Node.{NodeBase, range_valid}
use dex_partial.Rpc.{Page, inner, leaf}
use dex_partial.Tree.{Pages, base_of, with_base, slot_min, slot_max, new_check_limit_match}
use dex_partial.Tree.Shape.{inside, one_page}
use dex_partial.Tree.Slots.{slot_of, slot_unique}
use dex_partial.Cache.{
  hot_name, lock_base, stored, write_back, cooled, with_cooled, unswizzled, check_limit_match,
  check_parent_child_info,
}
use dex_partial.Cache.Backed.{IsBacked}
use dex_partial.Cache.Settle.{placed_level}
use dex_partial.Cache.Leave.{Left}
use dex_partial.Cache.Find.{Under}

module _ (pages : Pages) (c : ℕ) (g : Page) (k h0 : ℕ) (u : Under pages c g k h0)
    (is : pages c ≡ some g) where
  abbrev p : ℕ
  p = hot_name (base_of g).parent_ptr

  abbrev idx : ℕ
  idx = lower_bound u.a.n k

  route_is : pages (route u.a.n k) ≡ some g
  route_is = subst (λ x. pages x ≡ some g) (sym u.sends) is

  in_child : inside (slot_min u.a.n idx) (slot_max u.a.n idx) k ≡ true
  in_child =
      slot_of u.a.n u.a.valid u.a.apart k (rw (u.a.placed.min_is, u.a.placed.max_is) u.inside_is)

  idx_fits : idx ≤ u.a.n.base.count
  idx_fits = (place u.a.n u.a.valid k).inside

  -- What the page is in the slot of any index at which the parent has it.
  placed_at :
      (i : ℕ)
      → i ≤ u.a.n.base.count
      → u.a.n.children i ≡ c
      → ((base_of g).level ≡ h0)
        × ((base_of g).min_limit ≡ slot_min u.a.n i)
        × ((base_of g).max_limit ≡ slot_max u.a.n i)
  placed_at i fits e =
      placed_level h0 pages (u.a.n.children i) (slot_min u.a.n i) (slot_max u.a.n i) g
        (subst (λ x. pages x ≡ some g) (sym e) is) (u.below i fits)

  -- There is only one.
  pub only_index : (i : ℕ) → i ≤ u.a.n.base.count → u.a.n.children i ≡ c → i ≡ idx
  unfolding route
  only_index i fits e =
      let (_, x, y) = placed_at i fits e in
      let (_, x', y') = placed_at idx idx_fits u.sends in
      sym (slot_unique u.a.n u.a.valid u.a.apart i k fits (rw (← x, ← y, x', y') in_child))

  pub index_found : find_idx u.a.n c ≡ some idx
  unfolding route
  index_found = elim (find_idx_cases u.a.n c) [
    | inl (_, absent) ↦ absurd (absent idx idx_fits u.sends)
    | inr (i, e, fits, at, _) ↦ rw (← only_index i fits at) e
  ]

  pub check_passes : check_parent_child_info u.a.n (base_of g) c ≡ true
  unfolding check_parent_child_info check_limit_match new_check_limit_match range_valid route
  check_passes =
      let (l, x, y) = placed_at idx idx_fits u.sends in
      rw (index_found) (
        ground (
          arith,
          l,
          x,
          y,
          u.a.placed.level_is,
          u.a.valid.in_range idx,
          u.a.valid.in_range (idx - 1),
          idx_fits,
        ))

abbrev pub locked_page : Page → Page
locked_page g = with_base g (lock_base (base_of g))

abbrev pub cut : Page → Page
cut g = with_base (locked_page g) (record (base_of (locked_page g)) { parent_ptr = 0 })

pub base_locked : (g : Page) → base_of (locked_page g) ≡ lock_base (base_of g)
base_locked (inner m) = refl
base_locked (leaf l) = refl

base_cut : (g : Page) → base_of (cut g) ≡ record (lock_base (base_of g)) { parent_ptr = 0 }
base_cut (inner m) = refl
base_cut (leaf l) = refl

stored-cut : (g : Page) → stored (cut g) ≡ stored g
stored-cut (inner m) = refl
stored-cut (leaf l) = refl

pub check_locked :
    (n : Inner) (b : NodeBase) (name : ℕ)
    → check_parent_child_info n (lock_base b) name ≡ check_parent_child_info n b name
unfolding check_parent_child_info check_limit_match new_check_limit_match
check_locked n b name = refl

-- The pages at the end of a round that takes the page `c`, the child `i` of `n`.
abbrev pub pages_left : Pages → ℕ → Page → ℕ → Inner → ℕ → Pages
pages_left pages c g p n i =
    with_cooled
      (write_back
        (write pages p (some (inner (unswizzled n i (base_of (locked_page g)).remote_address))))
        (cut g))
      c (locked_page g)

module _ (pages : Pages) (c : ℕ) (g : Page) (k h0 : ℕ) (u : Under pages c g k h0)
    (is : pages c ≡ some g) (backed : IsBacked pages g) (c_memory : has_bit c 63 ≡ true)
    (p_memory : has_bit (hot_name (base_of g).parent_ptr) 63 ≡ true) where
  abbrev q : ℕ
  q = hot_name (base_of g).parent_ptr

  abbrev i : ℕ
  i = lower_bound u.a.n k

  abbrev r : ℕ
  r = (base_of g).remote_address

  pub parent_apart : (q == c) ≡ false
  unfolding route
  parent_apart = elim (Bool-cases (q == c)) [
    | inr o ↦ o
    | inl o ↦
        let same : q ≡ c = ground (arith, o) in
        let one = one_page pages c g (inner u.a.n) is (ap pages (sym same) ∙ u.a.at) in
        let (l, _, _) = placed_at pages c g k h0 u is i (idx_fits pages c g k h0 u is) u.sends in
        absurd (omega (arith, ap (λ x. (base_of x).level) one, l, u.a.placed.level_is))
  ]

  remote_apart : (x : ℕ) → has_bit x 63 ≡ true → (r == x) ≡ false
  remote_apart x tag = elim (Bool-cases (r == x)) [
    | inr o ↦ o
    | inl o ↦ let same : r ≡ x = ground (arith, o) in absurd (cc (tag, backed.remote, same))
  ]

  after_at :
      (name : ℕ)
      → pages_left pages c g q u.a.n i name ≡ (
          if name == c
          then some (cooled (locked_page g))
          else if (base_of g).dirty && name == r
          then some (stored g)
          else if name == q
          then some (inner (unswizzled u.a.n i r))
          else pages name)
  unfolding write_back
  after_at name = elim (Bool-cases (base_of g).dirty) [
    | inl d ↦ rw (stored-cut g, base_cut g, base_locked g, d) refl
    | inr d ↦ rw (base_cut g, base_locked g, d) refl
  ]

  pub cooled_after : pages_left pages c g q u.a.n i c ≡ some (cooled (locked_page g))
  cooled_after = let self : (c == c) ≡ true = ground arith in after_at c ∙ rw self refl

  pub left_after : Left pages (pages_left pages c g q u.a.n i) q (route u.a.n k) r i u.a.n g
  unfolding route
  left_after =
      let self : (x : ℕ) → (x == x) ≡ true = λ x. ground arith in
      let r_c = remote_apart c c_memory in
      let r_q = remote_apart q p_memory in
      let q_r : (q == r) ≡ false = ground (arith, r_q) in
      record {
        home = after_at r ∙ elim (Bool-cases (base_of g).dirty) [
          | inl d ↦ rw (r_c, d, self r) refl
          | inr d ↦ rw (r_c, d, r_q) (backed.at ∙ ap some (backed.clean d))
        ];
        parent = after_at q ∙ elim (Bool-cases (base_of g).dirty) [
          | inl d ↦ rw (parent_apart, d, q_r, self q) refl
          | inr d ↦ rw (parent_apart, d, self q) refl
        ];
        others = λ name n_c n_r n_q.
            let a : (name == c) ≡ false = ground (arith, n_c, u.sends) in
            let b : (name == r) ≡ false = ground (arith, n_r) in
            let d : (name == q) ≡ false = ground (arith, n_q) in
            after_at name ∙ elim (Bool-cases (base_of g).dirty) [
              | inl y ↦ rw (a, b, d, y) refl
              | inr y ↦ rw (a, b, d, y) refl
            ];
      }
