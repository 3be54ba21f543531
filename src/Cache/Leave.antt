-- ===== src/Cache/Leave.antt =====
-- A page that leaves the tree: what the tree holds with the stored page as the child in its place.
use dex_partial.Base.{
  ℕ, suc, ◌≤◌, ◌<◌, ◌≡◌, ◌≢◌, ◌⊎◌, inl, inr, refl, ap, sym, ◌∙◌, arith, true, ◌==◌, some,
  Bool-cases,
}
use dex_partial.BTree.Inner.{Inner, lower_bound, unset_bitmap}
use dex_partial.BTree.Inner.Route.{route, place}
use dex_partial.Rpc.{Page, inner}
use dex_partial.Tree.{Pages, base_of, slot_min, slot_max}
use dex_partial.Tree.Shape.{
  inside, inner_rebased, InnerAt, Good, Local, Local-of, has_key, same_page, one_page,
}
use dex_partial.Tree.Frame.{Turned, unchanged, node_turned}
use dex_partial.Tree.Slots.{slot_of}
use dex_partial.Cache.{stored, unswizzled}
use dex_partial.Cache.Backed.{IsBacked}
use dex_partial.Cache.Settle.{placed_level, settled}

-- Pages in which the page `c` with the address `r`, the child `idx` of `n` at `p`, left the tree.
pub record Left (pages after : Pages) (p c r idx : ℕ) (n : Inner) (g : Page) : Type 0 where
  pub home : after r ≡ some (stored g)
  pub parent : after p ≡ some (inner (unswizzled n idx r))
  pub others : (name : ℕ) → name ≢ c → name ≢ r → name ≢ p → after name ≡ pages name

module _ (pages : Pages) (k h p lo hi : ℕ) (g : Page) (a : InnerAt pages p (suc h) lo hi)
    (below : (i : ℕ)
      → i ≤ a.n.base.count
      → Good h pages (a.n.children i) (slot_min a.n i) (slot_max a.n i))
    (ok : inside lo hi k ≡ true) (is : pages (route a.n k) ≡ some g) (backed : IsBacked pages g)
    (after : Pages)
    (left : Left pages after p
      (route a.n k)
      (base_of g).remote_address
      (lower_bound a.n k)
      a.n
      g) where
  abbrev idx : ℕ
  idx = lower_bound a.n k

  abbrev r : ℕ
  r = (base_of g).remote_address

  child_good : Good h pages (route a.n k) (slot_min a.n idx) (slot_max a.n idx)
  unfolding route
  child_good = below idx (place a.n a.valid k).inside

  in_child : inside (slot_min a.n idx) (slot_max a.n idx) k ≡ true
  in_child = slot_of a.n a.valid a.apart k (rw (a.placed.min_is, a.placed.max_is) ok)

  -- The pages that change have the key, and their levels.
  changed_key :
      (name : ℕ) (f : Page)
      → pages name ≡ some f
      → (name ≡ route a.n k) ⊎ (name ≡ r)
      → (inside (base_of f).min_limit (base_of f).max_limit k ≡ true) × ((base_of f).level ≡ h)
  changed_key name f at which =
      let (l, i, j) =
        placed_level h pages (route a.n k) (slot_min a.n idx) (slot_max a.n idx) g is child_good in
      let inside_g : inside (base_of g).min_limit (base_of g).max_limit k ≡ true =
        rw (i, j) in_child in
      elim which [
        | inl e ↦
            let same = one_page pages (route a.n k) f g (ap pages (sym e) ∙ at) is in
            rw same (inside_g, l)
        | inr e ↦
            let same = one_page pages r f backed.old (ap pages (sym e) ∙ at) backed.at in
            rw same (backed.covers k inside_g, backed.same_level ∙ l)
      ]

  low_kept :
      (name : ℕ) (f : Page) → pages name ≡ some f → (base_of f).level < h → after name ≡ pages name
  low_kept name f at low =
      left.others name (λ e. let (_, l) = changed_key name f at (inl e) in omega (arith, l, low))
        (λ e. let (_, l) = changed_key name f at (inr e) in omega (arith, l, low))
        (λ e.
          let (_, l) =
            has_key pages p (suc h) lo hi k f (inner a.n) (ap pages (sym e) ∙ at) a.at a.placed
              ok in
          omega (arith, l, low))

  pub leave-Local : Local k (suc h) pages after
  leave-Local = Local-of k (suc h) pages after λ name f at. elim (Bool-cases (name == p)) [
    | inl o ↦
        let same : p ≡ name = ground (arith, o) in
        let (i, l) =
          has_key pages p (suc h) lo hi k f (inner a.n) (ap pages same ∙ at) a.at a.placed ok in
        inr (i, omega (arith, l))
    | inr o ↦ elim (Bool-cases (name == route a.n k)) [
      | inl e ↦
          let (i, l) = changed_key name f at (inl (ground (arith, e))) in inr (i, omega (arith, l))
      | inr e ↦ elim (Bool-cases (name == r)) [
        | inl z ↦
            let (i, l) = changed_key name f at (inr (ground (arith, z))) in
            inr (i, omega (arith, l))
        | inr z ↦ inl (
            same_page pages after name f at (
              left.others name (λ x. ground (arith, x, e)) (λ x. ground (arith, x, z))
                (λ x. ground (arith, x, o))))
      ]
    ]
  ]

  leave-InnerAt : InnerAt after p (suc h) lo hi
  unfolding unswizzled unset_bitmap
  leave-InnerAt = record {
    n = unswizzled a.n idx r;
    at = left.parent;
    valid = inner_rebased _ _ _ _ a.n _ a.valid;
    apart = a.apart;
    placed = record {
      level_is = a.placed.level_is;
      min_is = a.placed.min_is;
      max_is = a.placed.max_is;
      at_home = a.placed.at_home;
    };
  }

  -- The tree from the parent holds what it held.
  pub leave-turned : Turned unchanged (suc h) pages p after p lo hi
  unfolding leave-InnerAt unswizzled unset_bitmap
  leave-turned =
      let child =
        settled pages after (route a.n k) r h (slot_min a.n idx) (slot_max a.n idx) g is left.home
          refl low_kept child_good in
      let at_idx : (idx == idx) ≡ true = ground arith in
      node_turned k (suc h) pages after leave-Local unchanged (λ q x _. refl) h p lo hi a below ok
        leave-InnerAt refl (λ i. refl) (λ i z. ground (arith, z)) (rw at_idx child)
