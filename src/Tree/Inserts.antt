-- ===== src/Tree/Inserts.antt =====
-- `insert` of the tree, from the root, with the splits of full nodes.
use dex_partial.Base.{
  ℕ, suc, ◌-◌, ◌≤◌, ◌<◌, ◌≡◌, ◌≢◌, inl, inr, refl, ap, sym, ◌∙◌, subst, arith, Bool, true, false,
  not, ◌==◌, if◌then◌else◌, Option, some, Bool-cases, Option-cases,
}
use dex_partial.Base.Bits.{has_bit}
use dex_partial.BTree.Node.{range_valid}
use dex_partial.BTree.Inner
use dex_partial.BTree.Inner.{Inner, is_full, lower_bound}
use dex_partial.BTree.Inner.Route.{route, place}
use dex_partial.BTree.Leaf.{Leaf, max_entries}
use dex_partial.BTree.Leaf.Split
use dex_partial.Rpc.{inner, leaf}
use dex_partial.Tree.{Pages, World, slot_min, slot_max, can_write}
use dex_partial.Tree.Shape.{inside, LeafAt, InnerAt, Good, inner_same}
use dex_partial.Tree.Frame.{Turned, unchanged}
use dex_partial.Tree.Descent.{IsLawful, Leads, Stands, Sends, Roomy, way-Stands, climb_to}
use dex_partial.Tree.Ends.{Turned-refl}
use dex_partial.Tree.Answers.{Promise, Passes, insert_promise, starts_over, put_at}
use dex_partial.Tree.Acts.{insert_act}
use dex_partial.Tree.Handlers.{Becomes-base, remote_keeps, leaf_facts, rewritten, released}
use dex_partial.Tree.Calls.{descend-keeps, put_elsewhere}
use dex_partial.Tree.Passes.{
  start_over, shared_parent, assertion, super_root, waits, do_insert, insert_leaf, split_leaf,
  split_inner, put_inner, insert,
}
use dex_partial.Tree.Unlock.{unlock-Local, unlock-turned}
use dex_partial.Tree.SplitLeaf
use dex_partial.Tree.SplitInner

by_test :
    {A : Type 0} (P : A → Type 0) (b : Bool) (u v : A)
    → (b ≡ true → P u)
    → (b ≡ false → P v)
    → P (if b then u else v)
by_test P true u v f g = f refl
by_test P false u v f g = g refl

one_leaf : (x : Pages) (c : ℕ) (a b : Leaf ℕ) → x c ≡ some (leaf a) → x c ≡ some (leaf b) → a ≡ b
one_leaf x c a b p q = cc (p, q)

module _ (w : World) (lawful : IsLawful w) (k v h : ℕ) (x : Pages) (root lo hi : ℕ)
    (stands : Stands x k h root lo hi) where
  abbrev m : Promise
  m = insert_promise k v

  elsewhere : (s : Bool) (q : ℕ) (o : Option (Option ℕ)) → q ≢ k → put_at k (some v) q o ≡ o
  elsewhere s = put_elsewhere k (some v)

  -- A pass that leaves what the tree holds and starts over.
  again :
      (y : Pages)
      → Turned unchanged (suc h) x root y root lo hi
      → Passes m k h x root lo hi (some (start_over y))
  again y t = (start_over y, refl, record { turned = t; answered = refl })

  shares : Passes m k h x root lo hi (some (shared_parent x))
  shares =
      let (good, _) = stands in
      (
        shared_parent x,
        refl,
        record { turned = Turned-refl (suc h) x root lo hi good; answered = refl },
      )

  asserts : Passes m k h x root lo hi (some (assertion x))
  asserts =
      let (good, _) = stands in
      (
        assertion x,
        refl,
        record { turned = Turned-refl (suc h) x root lo hi good; answered = refl },
      )

  out_of_pages : Passes m k h x root lo hi (some (waits x))
  out_of_pages =
      let (good, _) = stands in
      (waits x, refl, record { turned = Turned-refl (suc h) x root lo hi good; answered = refl })

  Roomy-count :
      (n : Inner)
      → Roomy true n
      → n.base.shared ≡ false
      → n.base.count ≤ Inner.max_entries - 1
      → n.base.count < Inner.max_entries - 1
  unfolding is_full
  Roomy-count n roomy own few = ground (arith, roomy, own, few)

  module _ (q lo1 hi1 : ℕ) (way : Leads h x k root 0 q) (a : InnerAt x q 1 lo1 hi1)
      (below : (i : ℕ)
        → i ≤ a.n.base.count
        → Good 0 x (a.n.children i) (slot_min a.n i) (slot_max a.n i))
      (ok : inside lo1 hi1 k ≡ true) (roomy : Roomy true a.n)
      (b : LeafAt x
        (route a.n k)
        (slot_min a.n (lower_bound a.n k))
        (slot_max a.n (lower_bound a.n k))) where
    split_keeps :
        b.l.base.count ≡ max_entries
        → a.n.base.shared ≡ false
        → Passes m k h x root lo hi (split_leaf w x q (route a.n k) a.n b.l)
    unfolding split_leaf Good
    split_keeps full own = elim (Option-cases (w.allocate_node x)) [
      | inl e ↦ rw e out_of_pages
      | inr (r, e) ↦
          let free = lawful.node_free x r e in
          let room = Roomy-count a.n roomy own a.valid.few in
          let fresh = SplitLeaf.fresh w k x q lo1 hi1 a below ok room r b full free in
          let two = SplitLeaf.two w k x q lo1 hi1 a below ok room r b full free in
          let sep = (Split.halves b.l fresh r b.valid two).separator in
          rw (e, sep)
            (again _ (
              climb_to k 0 q x _
                (SplitLeaf.split-Local w k x q lo1 hi1 a below ok room r b full free) unchanged
                (λ _ _ _. refl) lo1 hi1 ((a, below), ok)
                (SplitLeaf.split_leaf-turned w k x q lo1 hi1 a below ok room r b full free) h root
                lo hi way stands))
    ]

    sent : Sends true x k q (route a.n k)
    sent = (a.n, a.at, refl, roomy)

    leaf_keeps :
        Passes m k h x root lo hi (insert_leaf w k v x q (route a.n k) (x q) (x (route a.n k)))
    unfolding insert_leaf
    leaf_keeps =
        let c = route a.n k in
        let (l, at, valid, range, home) =
          leaf_facts m k elsewhere h x root q c lo hi true way sent stands in
        let (good, _) = stands in
        let same : l ≡ b.l = one_leaf x c l b.l at b.at in
        elim (Bool-cases (not (can_write b.l.base))) [
          | inl f ↦ rw (a.at, b.at, f) (starts_over m k h x root lo hi good)
          | inr f ↦
              let in_range = subst (λ j. range_valid j.base k ≡ true) same range in
              let valid_b = b.valid in
              elim (Bool-cases (b.l.base.count == max_entries)) [
                | inr free ↦
                    let act = insert_act k v b.l valid_b in_range free in
                    rw (a.at, b.at, f, in_range, free)
                      (rewritten m k elsewhere h x root q c lo hi true way sent stands b.l _ b.at _
                        _ (Becomes-base _ b.l _ _ _ _ _ act.becomes) act.answer)
                | inl full ↦
                    rw (a.at, b.at, f, in_range, full)
                      (by_test (Passes m k h x root lo hi) (q == super_root) _ _ (λ s. asserts)
                        (λ _.
                          by_test (Passes m k h x root lo hi) a.n.base.shared _ _ (λ s. shares)
                            (λ s.
                              by_test (Passes m k h x root lo hi) (not (can_write a.n.base)) _ _
                                (λ u.
                                  released m k elsewhere h x root q c lo hi true way sent stands b.l
                                    b.at valid_b start_over again)
                                (λ u. split_keeps (ground (arith, full)) s))))
              ]
        ]

  insert_leaf_keeps :
      (q c : ℕ)
      → Leads h x k root 0 q
      → Sends true x k q c
      → Passes m k h x root lo hi (insert_leaf w k v x q c (x q) (x c))
  unfolding Good route
  insert_leaf_keeps q c way (n, at, r, roomy) =
      let (lo1, hi1, ((a, below), ok)) = way-Stands k 0 q x h root lo hi way stands in
      let same = inner_same x q n a.n at a.at in
      let to : route a.n k ≡ c = ap (λ j. route j k) (sym same) ∙ sym r in
      subst (λ d. Passes m k h x root lo hi (insert_leaf w k v x q d (x q) (x d))) to
        (leaf_keeps q lo1 hi1 way a below ok (subst (Roomy true) same roomy)
          (below (lower_bound a.n k) (place a.n a.valid k).inside))

  module _ (h0 q lo1 hi1 : ℕ) (way : Leads h x k root (suc h0) q)
      (a : InnerAt x q (suc (suc h0)) lo1 hi1)
      (below : (i : ℕ)
        → i ≤ a.n.base.count
        → Good (suc h0) x (a.n.children i) (slot_min a.n i) (slot_max a.n i))
      (ok : inside lo1 hi1 k ≡ true) (roomy : Roomy true a.n)
      (b : InnerAt x
        (route a.n k)
        (suc h0)
        (slot_min a.n (lower_bound a.n k))
        (slot_max a.n (lower_bound a.n k)))
      (below_b : (i : ℕ)
        → i ≤ b.n.base.count
        → Good h0 x (b.n.children i) (slot_min b.n i) (slot_max b.n i))
      (full : b.n.base.count ≡ Inner.max_entries - 1) where
    -- The parent unlocked, and nothing else.
    freed : Passes m k h x root lo hi (some (start_over (put_inner x q a.n)))
    unfolding Good
    freed = again (put_inner x q a.n) (
        climb_to k (suc h0) q x _ (unlock-Local k (suc h0) x q lo1 hi1 a below ok) unchanged
          (λ _ _ _. refl) lo1 hi1 ((a, below), ok) (unlock-turned k (suc h0) x q lo1 hi1 a below ok)
          h root lo hi way stands)

    inner_keeps :
        Passes m k h x root lo hi (split_inner w x q (route a.n k) (x q) (x (route a.n k)))
    unfolding split_inner Good
    inner_keeps =
        rw (a.at, b.at)
          (by_test (Passes m k h x root lo hi) a.n.base.shared _ _ (λ s. shares)
            (λ s.
              by_test (Passes m k h x root lo hi) (not (can_write a.n.base)) _ _
                (λ u. starts_over m k h x root lo hi stands.0)
                (λ u.
                  by_test (Passes m k h x root lo hi) (not (can_write b.n.base)) _ _ (λ t. freed)
                    (λ t. elim (Option-cases (w.allocate_node x)) [
                      | inl o ↦ rw o out_of_pages
                      | inr (remote, o) ↦ elim (Option-cases (w.get_empty_page x)) [
                        | inl z ↦ rw (o, z) out_of_pages
                        | inr ((e, word), z) ↦
                            let free = lawful.get_free x e word z in
                            let tag = lawful.get_tag x e word z in
                            let room = Roomy-count a.n roomy s a.valid.few in
                            rw (o, z)
                              (again _ (
                                climb_to k (suc h0) q x _
                                  (SplitInner.split-Local w k h0 x q lo1 hi1 a below ok room e word
                                    remote b below_b full free tag)
                                  unchanged (λ _ _ _. refl) lo1 hi1 ((a, below), ok)
                                  (SplitInner.split_inner-turned w k h0 x q lo1 hi1 a below ok room
                                    e word remote b below_b full free tag)
                                  h root lo hi way stands))
                      ]
                    ]))))

  split_inner_keeps :
      (h0 q c : ℕ)
      → Leads h x k root (suc h0) q
      → Sends true x k q c
      → (n : Inner) → x c ≡ some (inner n)
      → is_full n ≡ true
      → Passes m k h x root lo hi (split_inner w x q c (x q) (x c))
  unfolding Good route is_full
  split_inner_keeps h0 q c way (n, at, r, roomy) child at_c full =
      let (lo1, hi1, ((a, below), ok)) = way-Stands k (suc h0) q x h root lo hi way stands in
      let same = inner_same x q n a.n at a.at in
      let to : route a.n k ≡ c = ap (λ j. route j k) (sym same) ∙ sym r in
      let (b, below_b) = below (lower_bound a.n k) (place a.n a.valid k).inside in
      let is = inner_same x c child b.n at_c (ap x (sym to) ∙ b.at) in
      subst (λ d. Passes m k h x root lo hi (split_inner w x q d (x q) (x d))) to
        (inner_keeps h0 q lo1 hi1 way a below ok (subst (Roomy true) same roomy) b below_b
          (ap (λ j. j.base.count) (sym is) ∙ ground (arith, full)))

module _ (w : World) (lawful : IsLawful w) (h : ℕ) (pages : Pages) (root lo hi k : ℕ)
    (stands : Stands pages k h root lo hi) (hot : has_bit root 63 ≡ true) where
  -- With allocators that hand out pages which nothing names, a pass of `insert` for a key in the
  -- range of a well formed tree with its root in memory has an outcome. The tree stays well formed,
  -- whatever was brought in or split, and holds what it held; once the pass returns, it holds the new
  -- value under the key. The pass returns true only if the tree did not hold the key, and false only
  -- if it did.
  pub tree_insert-keeps :
      (v : ℕ) → Passes (insert_promise k v) k h pages root lo hi (insert (suc h) w pages root k v)
  unfolding insert
  tree_insert-keeps v =
      let m = insert_promise k v in
      rw hot (
        descend-keeps m k h w lawful true root lo hi _ _ _
          (λ x q c s way sends cold.
            remote_keeps m k (λ _. put_elsewhere k (some v)) h x root q c lo hi true way sends s
              (do_insert k v) (λ _. true) true cold (λ l u r f. insert_act k v l u r f)
              (λ l a e. absurd (cc e)))
          (λ x q c h0 s way sends n at f t.
            by_test (Passes m k h x root lo hi) (q == super_root) _ _
              (λ _. asserts w lawful k v h x root lo hi s)
              (λ _. split_inner_keeps w lawful k v h x root lo hi s h0 q c way sends n at f))
          (λ x q c s way sends. insert_leaf_keeps w lawful k v h x root lo hi s q c way sends) pages
          stands (λ _. asserts w lawful k v h pages root lo hi stands))
