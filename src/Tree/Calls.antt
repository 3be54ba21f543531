-- ===== src/Tree/Calls.antt =====
-- `lookup`, `update` and `remove` of the tree, from the root: a pass ends, and keeps what it promises.
use dex_partial.Base.{
  ℕ, suc, ◌≡◌, ◌≢◌, inl, inr, refl, sym, ◌∙◌, arith, Bool, true, false, not, ◌&&◌, ◌==◌, Option,
  none, some, Bool-cases,
}
use dex_partial.Base.Bits.{has_bit}
use dex_partial.BTree.Inner.{Inner, is_full}
use dex_partial.BTree.Leaf.{find}
use dex_partial.Rpc.{inner}
use dex_partial.Tree.{
  Pages, World, can_read, Ending, restart, refresh, refused, full, at_leaf, visit,
}
use dex_partial.Tree.Shape.{Good, inner_same}
use dex_partial.Tree.Descent.{IsLawful, Leads, Stands, Sends, Place, Roomy, pages_of}
use dex_partial.Tree.Walks.{walked}
use dex_partial.Tree.Answers.{
  Promise, Passes, Elsewhere, starts_over, refreshes_first, after_walk, put_at, held,
  lookup_promise, update_promise, remove_promise,
}
use dex_partial.Tree.Handlers.{remote_keeps, write_leaf_keeps, lookup_leaf_keeps}
use dex_partial.Tree.Acts.{lookup_act, remove_act, update_act}
use dex_partial.Tree.Passes.{
  Outcome, super_root, do_lookup, do_update, do_remove, descend, end_with, lookup, update, remove,
}

module _ (m : Promise) (k h : ℕ) (w : World) (lawful : IsLawful w) (smo : Bool) (root lo hi : ℕ)
    (at_cold : Pages → ℕ → Option Outcome) (at_full at_end : Pages → ℕ → ℕ → Option Outcome)
    (cold_keeps : (x : Pages) (q c : ℕ)
      → Stands x k h root lo hi
      → Leads h x k root 0 q
      → Sends smo x k q c
      → has_bit c 63 ≡ false
      → Passes m k h x root lo hi (at_cold x c))
    (full_keeps : (x : Pages) (q c h0 : ℕ)
      → Stands x k h root lo hi
      → Leads h x k root (suc h0) q
      → Sends smo x k q c
      → (n : Inner) → x c ≡ some (inner n)
      → is_full n ≡ true
      → smo ≡ true
      → Passes m k h x root lo hi (at_full x q c))
    (end_keeps : (x : Pages) (q c : ℕ)
      → Stands x k h root lo hi
      → Leads h x k root 0 q
      → Sends smo x k q c
      → Passes m k h x root lo hi (at_end x q c)) where
  -- The handler of an ending, over the pages at the end of the descent.
  at_place :
      (e : Ending)
      → Stands (pages_of e) k h root lo hi
      → Place smo h k root e
      → Passes m k h (pages_of e) root lo hi (end_with at_cold at_full at_end (some e))
  at_place (restart x) (g, _) p = starts_over m k h x root lo hi g
  at_place (refresh x) (g, _) p = refreshes_first m k h x root lo hi g
  at_place (refused x c) s (q, way, sends, cold) = cold_keeps x q c s way sends cold
  at_place (full x q c) s (h0, way, sends, n, at, f, t) = full_keeps x q c h0 s way sends n at f t
  at_place (at_leaf x q c) s (way, sends, _, _) = end_keeps x q c s way sends

  pub descend-keeps :
      (pages : Pages)
      → Stands pages k h root lo hi
      → (smo ≡ true → Passes m k h pages root lo hi (at_full pages super_root root))
      → Passes m k h pages root lo hi
          (end_with at_cold at_full at_end (descend (suc h) w smo k pages root))
  unfolding descend visit Good
  descend-keeps pages ((a, below), ok) at_root = elim (Bool-cases (not (can_read a.n.base))) [
    | inl r ↦ rw (a.at, r) (starts_over m k h pages root lo hi (a, below))
    | inr r ↦ elim (Bool-cases (smo && is_full a.n && not a.n.base.shared)) [
      | inl f ↦ rw (a.at, r, f) (at_root (ground (arith, f)))
      | inr f ↦
          let roomy : (n : Inner) → pages root ≡ some (inner n) → Roomy smo n =
            λ n at. rw (inner_same pages root n a.n at a.at) f in
          let (e, on, wk) = walked w lawful smo k h pages root lo hi ((a, below), ok) roomy in
          rw (a.at, r, f, on)
            (after_walk m k h pages (pages_of e) root lo hi _ ok wk.turned
              (at_place e (wk.turned.good, ok) wk.placed))
    ]
  ]

pub put_elsewhere :
    (k : ℕ) (v : Option ℕ) (q : ℕ) (o : Option (Option ℕ)) → q ≢ k → put_at k v q o ≡ o
put_elsewhere k v q o f = elim (Bool-cases (q == k)) [
  | inl e ↦ absurd (f (ground (arith, e)))
  | inr e ↦ rw e refl
]

update-Elsewhere : (k v : ℕ) → Elsewhere (update_promise k v) k
update-Elsewhere k v true q o f = put_elsewhere k (some v) q o f
update-Elsewhere k v false q o f = refl

not_held : (k : ℕ) (o : Option ℕ) → false ≡ held o → some o ≡ put_at k none k (some o)
not_held k none e = let self : (k == k) ≡ true = ground arith in rw self refl
not_held k (some v) e = absurd (cc e)

module _ (w : World) (lawful : IsLawful w) (h : ℕ) (pages : Pages) (root lo hi k : ℕ)
    (stands : Stands pages k h root lo hi) (hot : has_bit root 63 ≡ true) where
  -- With allocators that hand out pages which nothing names, a pass of `lookup` for a key in the
  -- range of a well formed tree with its root in memory has an outcome. The tree stays well formed and
  -- holds what it held, and if the pass returns, it returns what the tree holds under the key.
  pub tree_lookup-keeps : Passes lookup_promise k h pages root lo hi (lookup (suc h) w pages root k)
  unfolding lookup
  tree_lookup-keeps = rw hot (
      descend-keeps lookup_promise k h w lawful false root lo hi _ _ _
        (λ x q c s way sends cold.
          remote_keeps lookup_promise k (λ s q o _. refl) h x root q c lo hi false way sends s
            (do_lookup k) (λ _. false) false cold (λ l v _ _. lookup_act k l v) (λ l _ _. refl))
        (λ x q c h0 s way sends n at f t. absurd (cc t))
        (λ x q c s way sends.
          lookup_leaf_keeps lookup_promise k (λ s q o _. refl) h x root q c lo hi false way sends s
            (lookup_act k))
        pages stands (λ t. absurd (cc t)))

  -- With allocators that hand out pages which nothing names, a pass of `update` for a key in the
  -- range of a well formed tree with its root in memory has an outcome. The tree stays well formed and
  -- holds what it held, unless the pass returns true: then it holds the new value under the key. The
  -- pass returns true only if the tree held the key, and false only if it did not.
  pub tree_update-keeps :
      (v : ℕ) → Passes (update_promise k v) k h pages root lo hi (update (suc h) w pages root k v)
  unfolding update
  tree_update-keeps v =
      let m = update_promise k v in
      rw hot (
        descend-keeps m k h w lawful false root lo hi _ _ _
          (λ x q c s way sends cold.
            remote_keeps m k (update-Elsewhere k v) h x root q c lo hi false way sends s
              (do_update k v) (λ b. b) false cold (λ l u r _. update_act k v l u r)
              (λ l a e. rw e refl))
          (λ x q c h0 s way sends n at f t. absurd (cc t))
          (λ x q c s way sends.
            write_leaf_keeps m k (update-Elsewhere k v) h x root q c lo hi false way sends s
              (do_update k v) (update_act k v))
          pages stands (λ t. absurd (cc t)))

  -- With allocators that hand out pages which nothing names, a pass of `remove` for a key in the
  -- range of a well formed tree with its root in memory has an outcome. The tree stays well formed and
  -- holds what it held, but once the pass returns, nothing under the key. The pass returns true only
  -- if the tree held the key, and false only if it did not.
  pub tree_remove-keeps :
      Passes (remove_promise k) k h pages root lo hi (remove (suc h) w pages root k)
  unfolding remove
  tree_remove-keeps =
      let m = remove_promise k in
      rw hot (
        descend-keeps m k h w lawful false root lo hi _ _ _
          (λ x q c s way sends cold.
            remote_keeps m k (λ _. put_elsewhere k none) h x root q c lo hi false way sends s
              (do_remove k) (λ b. b) false cold (λ l u _ _. remove_act k l u)
              (λ l a e. not_held k (find l k) (sym e ∙ a.answer)))
          (λ x q c h0 s way sends n at f t. absurd (cc t))
          (λ x q c s way sends.
            write_leaf_keeps m k (λ _. put_elsewhere k none) h x root q c lo hi false way sends s
              (do_remove k) (λ l u _. remove_act k l u))
          pages stands (λ t. absurd (cc t)))
