-- ===== src/Cache/FlushTree.antt =====
-- After `flush_all` the memory nodes hold the tree.
use dex_partial.Base.{
  ℕ, zero, suc, ◌≤◌, ◌<◌, ◌≡◌, ◌≢◌, ◌⊎◌, inl, inr, refl, ap, sym, ◌∙◌, subst, arith, true, false,
  leb, some, Array, Option-cases,
}
use dex_partial.Base.Bits.{has_bit}
use dex_partial.BTree.Node.{range_valid}
use dex_partial.BTree.Inner.{Inner, lower_bound}
use dex_partial.BTree.Inner.Route
use dex_partial.BTree.Inner.Route.{route, place}
use dex_partial.Rpc.{Page, inner, leaf}
use dex_partial.Tree.{Pages, base_of, slot_min, slot_max}
use dex_partial.Tree.Shape.{InnerAt, Good, read_leaf, read_inner, inner_same}
use dex_partial.Tree.Frame.{Turned, unchanged}
use dex_partial.Tree.Slots.{slot_of}
use dex_partial.Tree.SplitLeaf.{flushed_valid, find-flushed}
use dex_partial.Cache.{stored}
use dex_partial.Cache.Flush.{remote_name, fully_unswizzle, set_dirty, frame, flush_all}
use dex_partial.Cache.FlushLoop.{IsPool, Flushed, flush_all-Flushed}

-- The names of the tree: in memory a page of the pool, or a remote page that is not the address of one in the
-- pool and has only remote children.
unfoldable pub IsPooled : ℕ → ℕ → Pages → ℕ → Type 0
IsPooled base_address num pages name =
    ((has_bit name 63 ≡ true) × (i : ℕ) × (i < num) × (frame base_address i ≡ name))
    ⊎ ((has_bit name 63 ≡ false)
        × ((i : ℕ) (g : Page)
            → i < num
            → pages (frame base_address i) ≡ some g
            → (base_of g).remote_address ≢ name))

unfoldable pub IsFlushable : ℕ → ℕ → ℕ → Pages → ℕ → Type 0
unfolding IsPooled
IsFlushable base_address num zero pages name = IsPooled base_address num pages name
IsFlushable base_address num (suc h) pages name =
    IsPooled base_address num pages name
    × ((n : Inner)
        → pages name ≡ some (inner n)
        → (i : ℕ) → i ≤ n.base.count
        → IsFlushable base_address num h pages (n.children i)
          × (has_bit name 63 ≡ false → has_bit (n.children i) 63 ≡ false))

-- A tree whose pages are all on memory nodes.
unfoldable pub IsRemote : ℕ → Pages → ℕ → Type 0
IsRemote zero pages name = has_bit name 63 ≡ false
IsRemote (suc h) pages name =
    (has_bit name 63 ≡ false)
    × ((n : Inner)
        → pages name ≡ some (inner n)
        → (i : ℕ) → i ≤ n.base.count
        → IsRemote h pages (n.children i))

-- A node with other contents in the fields that no key depends on.
abbrev bare : Inner → Array ℕ → Inner
bare n c = record n {
  base = record (n.base) {
    lock_word = 0;
    bitmap = 0;
    parent_ptr = 0;
    pos_state = 0;
    dirty = false;
  };
  children = c;
}

bare-IsValid : (n : Inner) (c : Array ℕ) → Route.IsValid n → Route.IsValid (bare n c)
unfolding range_valid
bare-IsValid n c v = record {
  some_key = v.some_key;
  few = v.few;
  sorted = v.sorted;
  in_range = v.in_range;
  consistent = v.consistent;
}

bare_place : (n : Inner) (c : Array ℕ) (q : ℕ) → lower_bound (bare n c) q ≡ lower_bound n q
unfolding lower_bound
bare_place n c q = refl

cleared : (g : Page) → (base_of (set_dirty false g)).dirty ≡ false
cleared (inner n) = refl
cleared (leaf l) = refl

module _ (base_address num : ℕ) (pages : Pages) (pool : IsPool base_address num pages) where
  abbrev after : Pages
  after = flush_all base_address num pages

  done : Flushed base_address num pages pool num after
  done = flush_all-Flushed base_address num pages pool num (omega arith)

  pub record OnNodes (h name lo hi : ℕ) : Type 0 where
    pub turned : Turned unchanged h pages name after (remote_name pages name) lo hi
    pub remote : IsRemote h after (remote_name pages name)

  -- What the memory node has of a page of the tree.
  home_of :
      (name : ℕ) (g : Page)
      → pages name ≡ some g
      → (has_bit name 63 ≡ false → (base_of g).remote_address ≡ name)
      → IsPooled base_address num pages name
      → (has_bit (remote_name pages name) 63 ≡ false)
        × ((base_of g).remote_address ≡ remote_name pages name)
        × (((has_bit name 63 ≡ true)
              × (after (remote_name pages name) ≡ some (stored (fully_unswizzle pages g))))
            ⊎ ((has_bit name 63 ≡ false) × (after (remote_name pages name) ≡ some g)))
  unfolding IsPooled
  home_of name g at home (inl (tag, i, small, e)) =
      let here = ap pages e ∙ at in
      let (w, _) = done.homes i g small here in
      rw (tag, at) (pool.cold i g small here, refl, inl (refl, w small))
  home_of name g at home (inr (tag, alone)) =
      rw tag (tag, home tag, inr (refl, done.rest name tag alone ∙ at))

  -- A node whose children are on the memory nodes, once it is there too.
  node_on :
      (h name lo hi : ℕ) (a : InnerAt pages name (suc h) lo hi)
      (a' : InnerAt after (remote_name pages name) (suc h) lo hi)
      → has_bit (remote_name pages name) 63 ≡ false
      → a'.n.base.count ≡ a.n.base.count
      → ((i : ℕ) → slot_min a'.n i ≡ slot_min a.n i)
      → ((i : ℕ) → slot_max a'.n i ≡ slot_max a.n i)
      → ((q : ℕ) → lower_bound a'.n q ≡ lower_bound a.n q)
      → ((i : ℕ) → i ≤ a.n.base.count → a'.n.children i ≡ remote_name pages (a.n.children i))
      → ((i : ℕ)
          → i ≤ a.n.base.count
          → OnNodes h (a.n.children i) (slot_min a.n i) (slot_max a.n i))
      → OnNodes (suc h) name lo hi
  unfolding Good IsRemote route
  node_on h name lo hi a a' cold count mins maxs places children sub = record {
    turned = record {
      good = (
        a',
        λ i z.
            let fits = subst (λ c. i ≤ c) count z in
            rw (mins i, maxs i, children i fits) (sub i fits).turned.good,
      );
      reads = λ q z.
          let s = place a.n a.valid q in
          rw
            (
              read_inner (suc h) after (remote_name pages name) q _ a'.at,
              read_inner (suc h) pages name q _ a.at,
              route,
              places q,
              children (lower_bound a.n q) s.inside,
            )
            ((sub (lower_bound a.n q) s.inside).turned.reads q
              (slot_of a.n a.valid a.apart q (rw (a.placed.min_is, a.placed.max_is) z)));
    };
    remote = (
      cold,
      λ n at i z.
          let same = inner_same after (remote_name pages name) a'.n n a'.at at in
          let fits =
            subst (λ (m : ℕ). i ≤ m) count (subst (λ (m : Inner). i ≤ m.base.count) (sym same) z) in
          subst (λ (m : Inner). IsRemote h after (m.children i)) same
            (rw (children i fits) (sub i fits).remote),
    );
  }

  on_nodes :
      (h name lo hi : ℕ)
      → Good h pages name lo hi
      → IsFlushable base_address num h pages name
      → OnNodes h name lo hi
  unfolding Good IsFlushable IsRemote fully_unswizzle
  on_nodes zero name lo hi a f =
      let (cold, home, which) = home_of name (leaf a.l) a.at a.placed.at_home f in
      elim which [
        | inl (tag, at) ↦ record {
          turned = record {
            good = record {
              l = _;
              at = at;
              valid = flushed_valid a.l a.valid;
              placed = record {
                level_is = a.placed.level_is;
                min_is = a.placed.min_is;
                max_is = a.placed.max_is;
                at_home = λ _. home;
              };
            };
            reads = λ q _.
                rw
                  (
                    read_leaf 0 after (remote_name pages name) q _ at,
                    read_leaf 0 pages name q _ a.at,
                  )
                  (ap some (find-flushed a.l q));
          };
          remote = cold;
        }
        | inr (tag, at) ↦ record {
          turned = record {
            good = record {
              l = a.l;
              at = at;
              valid = a.valid;
              placed = record {
                level_is = a.placed.level_is;
                min_is = a.placed.min_is;
                max_is = a.placed.max_is;
                at_home = λ _. home;
              };
            };
            reads = λ q _.
                rw
                  (
                    read_leaf 0 after (remote_name pages name) q _ at,
                    read_leaf 0 pages name q _ a.at,
                  )
                  refl;
          };
          remote = cold;
        }
      ]
  on_nodes (suc h) name lo hi (a, below) (f, under) =
      let (cold, home, which) = home_of name (inner a.n) a.at a.placed.at_home f in
      let sub : (i : ℕ)
          → i ≤ a.n.base.count
          → OnNodes h (a.n.children i) (slot_min a.n i) (slot_max a.n i) =
        λ i z.
          on_nodes h (a.n.children i) (slot_min a.n i) (slot_max a.n i) (below i z)
            (under a.n a.at i z).0 in
      elim which [
        | inl (tag, at) ↦
            node_on h name lo hi a
              (record {
                n = _;
                at = at;
                valid = bare-IsValid a.n _ a.valid;
                apart = a.apart;
                placed = record {
                  level_is = a.placed.level_is;
                  min_is = a.placed.min_is;
                  max_is = a.placed.max_is;
                  at_home = λ _. home;
                };
              })
              cold refl (λ i. refl) (λ i. refl) (λ q. bare_place a.n _ q)
              (λ i z. let low : (leb i a.n.base.count) ≡ true = ground arith in rw low refl) sub
        | inr (tag, at) ↦
            node_on h name lo hi a
              (record {
                n = a.n;
                at = at;
                valid = a.valid;
                apart = a.apart;
                placed = record {
                  level_is = a.placed.level_is;
                  min_is = a.placed.min_is;
                  max_is = a.placed.max_is;
                  at_home = λ _. home;
                };
              })
              cold refl (λ i. refl) (λ i. refl) (λ q. refl)
              (λ i z. let low = (under a.n a.at i z).1 tag in rw low refl) sub
      ]

  -- Over a pool whose pages have addresses of their own, with the clean pages on the memory nodes as they would be written, and a
  -- well formed tree of pages of the pool and of remote pages: after `flush_all` no page of the pool is dirty,
  -- and under the address of the root there is a well formed tree of remote pages alone, which holds what
  -- the tree held.
  pub flush_all-IsRemote :
      (h root lo hi : ℕ)
      → Good h pages root lo hi
      → IsFlushable base_address num h pages root
      → ((i : ℕ) (g : Page)
          → i < num
          → flush_all base_address num pages (frame base_address i) ≡ some g
          → (base_of g).dirty ≡ false)
        × IsRemote h (flush_all base_address num pages) (remote_name pages root)
        × Turned unchanged h pages root
            (flush_all base_address num pages)
            (remote_name pages root)
            lo
            hi
  flush_all-IsRemote h root lo hi good f =
      let o = on_nodes h root lo hi good f in
      (
        (λ i g small at. elim (Option-cases (pages (frame base_address i))) [
          | inl e ↦ absurd (let gone = done.empty i small e in cc (at, gone))
          | inr (g', e) ↦
              let now = (done.frames i g' small e).0 small in
              let same : g ≡ set_dirty false g' = cc (at, now) in rw same (cleared g')
        ]),
        o.remote,
        o.turned,
      )
