-- ===== src/Cache/Find.antt =====
-- `recursive_iterate` ends at a page with no child in memory.
use native.Mathlib.Nat.{mod-lt}
use dex_partial.Base.{
  ℕ, zero, suc, ◌+◌, ◌%◌, ◌≤◌, ◌<◌, ◌≡◌, ◌≢◌, inl, inr, refl, ap, sym, ◌∙◌, subst, arith, true,
  false, ◌==◌, Option, none, some, Bool-cases,
}
use dex_partial.Base.Bits.{bit}
use dex_partial.Base.Int.{pos}
use dex_partial.BTree.Inner.{Inner, closest_set, lower_bound}
use dex_partial.BTree.Inner.Closest.{closest_set-Nearest}
use dex_partial.BTree.Inner.Route.{route, place}
use dex_partial.Rpc.{Page, inner, leaf}
use dex_partial.Tree.{Pages, base_of, with_base, hide, slot_min, slot_max}
use dex_partial.Tree.Shape.{inside, InnerAt, Good, one_page}
use dex_partial.Tree.Descent.{way-Stands}
use dex_partial.Cache.{hot_name, lock_base, murmur64, Candidate, locked, recursive_iterate}
use dex_partial.Cache.Backed.{IsHot, Hangs, IsKept}
use dex_partial.Cache.Settle.{placed_level}

-- The parent of a page that hangs in the tree, and the page below it.
pub record Under (pages : Pages) (c : ℕ) (g : Page) (k h0 : ℕ) : Type 0 where
  pub lo' : ℕ
  pub hi' : ℕ
  pub a : InnerAt pages (hot_name (base_of g).parent_ptr) (suc h0) lo' hi'
  pub below :
      (i : ℕ)
      → i ≤ a.n.base.count
      → Good h0 pages (a.n.children i) (slot_min a.n i) (slot_max a.n i)
  pub inside_is : inside lo' hi' k ≡ true
  pub sends : route a.n k ≡ c

module _ (h : ℕ) (pages : Pages) (root lo hi : ℕ) (good : Good (suc h) pages root lo hi) where
  pub hangs-Under : (c : ℕ) (g : Page) (t : Hangs h pages root lo hi c g) → Under pages c g t.k t.h0
  unfolding Good
  hangs-Under c g t =
      let (x, y, ((a, below), ok)) =
        way-Stands t.k t.h0 (hot_name (base_of g).parent_ptr) pages h root lo hi t.lead
          (good, t.ok) in
      let same : inner t.n ≡ inner a.n = one_page pages _ (inner t.n) (inner a.n) t.at a.at in
      let is : t.n ≡ a.n = cc same in
      record {
        lo' = x;
        hi' = y;
        a = a;
        below = below;
        inside_is = ok;
        sends = ap (λ n. route n t.k) (sym is) ∙ t.sends;
      }

  -- The level of a page is one below that of its parent.
  pub level_under :
      (c : ℕ) (g m : Page)
      → Hangs h pages root lo hi c g
      → pages c ≡ some g
      → pages (hot_name (base_of g).parent_ptr) ≡ some m
      → (base_of m).level ≡ suc (base_of g).level
  unfolding route
  level_under c g m t is at =
      let u = hangs-Under c g t in
      let i = lower_bound u.a.n t.k in
      let here = subst (λ x. pages x ≡ some g) (sym u.sends) is in
      let (l, _, _) =
        placed_level t.h0 pages (route u.a.n t.k) (slot_min u.a.n i) (slot_max u.a.n i) g here
          (u.below i (place u.a.n u.a.valid t.k).inside) in
      let same = one_page pages _ m (inner u.a.n) at u.a.at in
      rw (ap base_of same, l) u.a.placed.level_is

  -- An index that the walk came over is that of the page in its parent.
  abbrev pub Sound : ℕ → Page → Option ℕ → Type 0
  Sound c g none = c ≡ c
  Sound c g (some i) =
      (n : Inner) × (pages (hot_name (base_of g).parent_ptr) ≡ some (inner n))
      × (n.children i ≡ c)
      × (i ≤ n.base.count)

  pub record Found (o : Option Candidate) : Type 0 where
    pub c : ℕ
    pub g : Page
    pub i : Option ℕ
    pub ends : o ≡ some (locked pages c (with_base g (lock_base (base_of g))) i)
    pub hot : IsHot pages c g
    pub cold_below : (base_of g).bitmap ≡ 0
    pub not_root : c ≢ root
    pub sound : Sound c g i

  module _ (kept : IsKept h pages root lo hi) where
    -- The child that the scan of the bitmap comes to.
    closest :
        (c : ℕ) (m : Inner)
        → IsHot pages c (inner m)
        → (m.base.bitmap == 0) ≡ false
        → (r : ℕ) × (closest_set m (murmur64 (hide c) % (m.base.count + 1)) ≡ pos r)
          × (r ≤ m.base.count)
          × (bit m.base.bitmap r ≡ 1)
    closest c m hot some_bit =
        let (marks, word, few) = kept.marked c m hot in
        let start = murmur64 (hide c) % (m.base.count + 1) in
        let some_child : 0 < m.base.count + 1 = omega arith in
        let first : start ≤ m.base.count = omega (arith, mod-lt (murmur64 (hide c)) some_child) in
        elim (closest_set-Nearest m start word few first marks.rest) [
          | inl (z, _) ↦ absurd (ground (arith, z, some_bit))
          | inr (r, e, inside_r, near) ↦ (r, e, inside_r, near.is_set)
        ]

    here :
        (fuel c : ℕ) (i : Option ℕ) (g : Page)
        → IsHot pages c g
        → Sound c g i
        → (base_of g).bitmap ≡ 0
        → c ≢ root
        → Found (recursive_iterate (suc fuel) pages c i)
    unfolding recursive_iterate
    here fuel c i g (at, state) sound z up = record {
      c = c;
      g = g;
      i = i;
      ends = rw (at, (kept.free c g at).0, (kept.free c g at).1, z, state) refl;
      hot = (at, state);
      cold_below = z;
      not_root = up;
      sound = sound;
    }

    pub found :
        (fuel c : ℕ) (i : Option ℕ) (g : Page)
        → IsHot pages c g
        → (base_of g).level < fuel
        → Sound c g i
        → ((base_of g).bitmap ≡ 0 → c ≢ root)
        → Found (recursive_iterate fuel pages c i)
    unfolding recursive_iterate
    found zero c i g hot low sound up = absurd (omega arith)
    found (suc fuel) c i (leaf l) hot low sound up =
        let z = kept.unmarked c l hot in here fuel c i (leaf l) hot sound z (up z)
    found (suc fuel) c i (inner m) hot low sound up = elim (Bool-cases (m.base.bitmap == 0)) [
      | inl z ↦
          let zero_bits : m.base.bitmap ≡ 0 = ground arith in
          here fuel c i (inner m) hot sound zero_bits (up zero_bits)
      | inr some_bit ↦
          let (r, e, fits, set) = closest c m hot some_bit in
          let (g', hot', away, parent, tag) = kept.linked c m r hot set fits in
          let at : pages (hot_name (base_of g').parent_ptr) ≡ some (inner m) =
            ap pages parent ∙ hot.0 in
          let hang = kept.hangs (m.children r) g' hot' away in
          let level = level_under (m.children r) g' (inner m) hang hot'.0 at in
          rw (hot.0, (kept.free c (inner m) hot.0).0, some_bit, e, tag)
            (found fuel (m.children r) (some r) g' hot' (omega (arith, level, low))
              (m, at, refl, fits) (λ _. away))
    ]
