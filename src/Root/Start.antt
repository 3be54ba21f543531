-- ===== src/Root/Start.antt =====
-- A tree from its construction on: the constructor, the load of its root, and a run of calls.
use dex_partial.Base.{
  ℕ, ◌-◌, ◌^◌, ◌<◌, ◌≡◌, refl, ◌∙◌, arith, true, false, ◌==◌, none, some, Array, List,
}
use dex_partial.OptLock.{upgrade_to_write_lock_or_restart}
use dex_partial.BTree.Inner
use dex_partial.BTree.Inner.{set_bitmap}
use dex_partial.Rpc.{inner}
use dex_partial.Tree.{Pages, World, can_write, fit_limits}
use dex_partial.Tree.Shape.{inside, read, Good}
use dex_partial.Tree.Descent.{IsLawful}
use dex_partial.Tree.Passes.{Outcome}
use dex_partial.Tree.History.{Op, run, Agrees, AllLawful, map_after, run-refines}
use dex_partial.Root.{Supply, State, parts, update_root_ptr, super_over, b_tree, load_newest_root}
use dex_partial.Root.Parts.{IsFresh, IsParted}
use dex_partial.Root.Fresh.{parts-Good, parts_empty}
use dex_partial.Root.Load.{stale, Loaded, load_newest_root-Loaded}

module _ (s : Supply) (info : Array ℕ) (num : ℕ) (pages : Pages) (here : ℕ) (fresh : IsFresh s num)
    (parted : IsParted info num) where
  abbrev pub built : State
  built = b_tree s info num pages 0 0 here

  -- The constructor wins the race for the root word.
  built_lem :
      (built.pages ≡ parts s info num pages)
      × (built.root ≡ s.address 0)
      × (built.root_word ≡ s.address 0)
      × (can_write built.super_root.base ≡ true)
      × (built.root_lock ≡ 0)
  unfolding b_tree update_root_ptr super_over set_bitmap Inner.new upgrade_to_write_lock_or_restart
  built_lem =
      let many : (num == 1) ≡ false = ground (arith, parted.many) in
      rw (many, fresh.cold 0 (omega arith)) (refl, refl, refl, refl, refl)

  built-stale : stale built ≡ true
  built-stale =
      let (_, r, z, _, _) = built_lem in
      let self : (s.address 0 == s.address 0) ≡ true = ground arith in
      rw (r, z, fresh.cold 0 (omega arith), self) refl

  -- The first tree before any page of it is in memory: well formed, and empty.
  built-Good :
      Good 1 built.pages built.root_word 0 (2 ^ 64 - 1)
      × ((q : ℕ) → read 2 built.pages built.root_word q ≡ some none)
  built-Good =
      let (x, _, z, _, _) = built_lem in
      rw (x, z)
        (parts-Good s info num parted fresh pages, parts_empty s info num parted fresh pages)

  module _ (w : World) (lawful : IsLawful w) (e word : ℕ)
      (page : w.get_empty_page built.pages ≡ some (e, word)) (least : 0 < w.buffer_max_limit)
      (most : w.buffer_min_limit < 2 ^ 64) where
    loaded : Loaded 1 0 (2 ^ 64 - 1) built (load_newest_root w built true built.root_word false)
    unfolding Good fit_limits
    loaded =
        let (good, _) = built-Good in
        let (_, r, _, free, lock) = built_lem in
        let tag = lawful.get_tag built.pages e word page in
        let a = good.0 in
        load_newest_root-Loaded w built (inner a.n) e word 1 0 (2 ^ 64 - 1) false
          (record {
            unlocked = lock;
            free = free;
            at = a.at;
            fits = rw (a.placed.min_is, a.placed.max_is) (ground (arith, least, most));
            page = page;
            apart = λ z. let cold = fresh.cold 0 (omega arith) in absurd (cc (tag, cold, r, z));
            page_free = lawful.get_free built.pages e word page;
            page_tag = tag;
          })
          built-stale good

    -- For 2 to 59 partitions whose bounds rise from the least key to the greatest, with the second
    -- bound above 1, over different addresses of memory nodes, a root word and a root lock that no
    -- node has set, and with limits of the compute node that leave it some 64-bit key, and
    -- allocators, in the load and in each pass, that hand out pages which nothing names, one of
    -- which is to be had for the root: the constructor and load_newest_root end with the root in
    -- memory, and any run of passes of the four calls with 64-bit keys from there has an outcome for
    -- each pass, with the answers of a map that starts empty, and ends with a well formed tree that
    -- holds what the map does.
    pub first_run-refines :
        (ops : List (World × Op))
        → AllLawful 0 (2 ^ 64 - 1) ops
        → (t : State) × (os : List (Op × Outcome)) × (y : Pages) × (load_newest_root w built true
              built.root_word false
            ≡ some (t, true))
          × (run 1 t.pages t.root ops ≡ some (os, y))
          × Agrees os (λ q. some none)
          × Good 1 y t.root 0 (2 ^ 64 - 1)
          × ((q : ℕ)
              → inside 0 (2 ^ 64 - 1) q ≡ true
              → read 2 y t.root q ≡ map_after os (λ k. some none) q)
    first_run-refines ops each =
        let (_, empty) = built-Good in
        let (os, y, ran, agrees, good, holds) =
          run-refines 0 loaded.t.root 0 (2 ^ 64 - 1) loaded.hot ops loaded.t.pages (λ q. some none)
            each loaded.turned.good (λ q z. loaded.turned.reads q z ∙ empty q) in
        (loaded.t, os, y, loaded.ends, ran, agrees, good, holds)
