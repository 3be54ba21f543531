-- ===== src/Tree/Unlock.antt =====
-- A parent that was locked and unlocked again with nothing done.
use dex_partial.Base.{
  ℕ, suc, ◌≤◌, ◌≡◌, inl, inr, refl, ap, ◌∙◌, arith, true, false, ◌==◌, some, Bool-cases,
}
use dex_partial.BTree.Inner.{lower_bound}
use dex_partial.BTree.Inner.Route.{route, place}
use dex_partial.Rpc.{inner}
use dex_partial.Tree.{Pages, slot_min, slot_max, written}
use dex_partial.Tree.Shape.{
  inside, InnerAt, Good, Local, Local-of, same_page, has_key, inner_rebased,
}
use dex_partial.Tree.Frame.{Turned, unchanged, frame_low, node_turned}
use dex_partial.Tree.Passes.{put_inner}

module _ (k h : ℕ) (x : Pages) (q lo hi : ℕ) (a : InnerAt x q (suc h) lo hi)
    (below : (i : ℕ)
      → i ≤ a.n.base.count
      → Good h x (a.n.children i) (slot_min a.n i) (slot_max a.n i))
    (ok : inside lo hi k ≡ true) where
  abbrev pub unlocked : Pages
  unlocked = put_inner x q a.n

  other_page : (name : ℕ) → (name == q) ≡ false → unlocked name ≡ x name
  other_page name o = rw o refl

  pub unlock-Local : Local k (suc h) x unlocked
  unlock-Local = Local-of k (suc h) x unlocked λ name g at. elim (Bool-cases (name == q)) [
    | inr o ↦ inl (same_page x unlocked name g at (other_page name o))
    | inl o ↦
        let same : q ≡ name = ground (arith, o) in
        let (i, z) = has_key x q (suc h) lo hi k g (inner a.n) (ap x same ∙ at) a.at a.placed ok in
        inr (i, omega (arith, z))
  ]

  at_parent : unlocked q ≡ some (inner (record (a.n) { base = written a.n.base }))
  at_parent = let self : (q == q) ≡ true = ground arith in rw self refl

  abbrev parent_at : InnerAt unlocked q (suc h) lo hi
  parent_at = record {
    n = record (a.n) { base = written a.n.base };
    at = at_parent;
    valid = inner_rebased _ _ _ _ a.n a.n.children a.valid;
    apart = a.apart;
    placed = record {
      level_is = a.placed.level_is;
      min_is = a.placed.min_is;
      max_is = a.placed.max_is;
      at_home = a.placed.at_home;
    };
  }

  pub unlock-turned : Turned unchanged (suc h) x q unlocked q lo hi
  unfolding route
  unlock-turned =
      node_turned k (suc h) x unlocked unlock-Local unchanged (λ q o _. refl) h q lo hi a below ok
        parent_at refl (λ i. refl) (λ i _. refl)
        (frame_low (suc h) x unlocked
          (λ name g at l. same_page x unlocked name g at (
            other_page name (elim (Bool-cases (name == q)) [
              | inr o ↦ o
              | inl o ↦
                  let same : q ≡ name = ground (arith, o) in
                  let (_, z) =
                    has_key x q (suc h) lo hi k g (inner a.n) (ap x same ∙ at) a.at a.placed ok in
                  absurd (omega (arith, l, z))
            ])))
          h (a.n.children (lower_bound a.n k)) (slot_min a.n (lower_bound a.n k))
          (slot_max a.n (lower_bound a.n k))
          (below (lower_bound a.n k) (place a.n a.valid k).inside) (omega arith))
