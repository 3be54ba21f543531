-- ===== src/Tests/Roots.antt =====
-- A tree of three partitions from its construction on, and roots that are loaded or refused.
use dex_partial.Base.{
  ℕ, zero, suc, ◌+◌, ◌-◌, ◌*◌, ◌^◌, ◌≡◌, ◌≤◌, refl, arith, true, false, ◌==◌, if◌then◌else◌, none,
  some, Array, List, [], ◌∷◌, ◌⊎◌,
}
use dex_partial.OptLock
use dex_partial.Base.Bits.{has_bit}
use dex_partial.BTree.Inner
use dex_partial.BTree.Inner.{Inner}
use dex_partial.BTree.Leaf
use dex_partial.BTree.Leaf.{Leaf}
use dex_partial.BTree.Node.{b_tree_leaf, fresh_base}
use dex_partial.Rpc.{leaf}
use dex_partial.Tree.{Pages, World, written, fit_limits}
use dex_partial.Tree.Shape.{inside, read, Good}
use dex_partial.Tree.Passes.{Outcome}
use dex_partial.Tree.History.{Op, look_up, store, run, Agrees, map_after}
use dex_partial.Root.{
  State, Supply, new_leaf, put_part, parts_loop, first_pages, first_node, last_pages, parts,
  super_over, update_root_ptr, b_tree, adopt, new_root, with_root, under_lock, load_newest_root,
}
use dex_partial.Root.Parts.{IsFresh, IsParted}
use dex_partial.Root.Load.{
  stale, IsOpen, Loaded, Same, Renewed, load_newest_root-Loaded, load_newest_root_cases,
}
use dex_partial.Root.Start.{first_run-refines}
use dex_partial.Root.Grow.{make_root}
use dex_partial.Root.Make.{IsSplit, Made, make_root-Made}
use dex_partial.Tests.Trees.{world, lawful, low_leaf, tree, low_at, high_at}

abbrev supply : Supply
supply = record {
  address = λ i. (i + 1) * 1024;
  entries = λ i. (9, 9);
  children = λ i. 77;
  keys = λ i. 55;
}

abbrev info : Array ℕ
info i = if i == 3 then 2 ^ 64 - 1 else i * 100

supply-IsFresh : IsFresh supply 3
supply-IsFresh = record { apart = λ i j p q e. omega (arith, e); cold = cold }
  where
    cold : (i : ℕ) → i ≤ 3 → has_bit ((i + 1) * 1024) 63 ≡ false
    cold zero p = refl
    cold (suc zero) p = refl
    cold (suc (suc zero)) p = refl
    cold (suc (suc (suc zero))) p = refl
    cold (suc (suc (suc (suc i)))) p = absurd (omega (arith, p))

info-IsParted : IsParted info 3
info-IsParted = record {
  many = omega arith;
  few = omega arith;
  first = refl;
  last = refl;
  room = omega arith;
  rising = λ i p. ground (arith, p);
}

program : Unit {0}
unfolding new_leaf put_part parts_loop first_pages first_node last_pages parts super_over
    update_root_ptr b_tree adopt new_root with_root under_lock load_newest_root Inner.new Leaf.new
    Inner.set_bitmap OptLock.upgrade_to_write_lock_or_restart OptLock.write_unlock fit_limits
program = tt

abbrev built : State
built = b_tree supply info 3 (λ name. none) 0 0 64

spare_page : world.get_empty_page built.pages ≡ some (2 ^ 63 + 9, 4)
unfolding program
spare_page = refl

abbrev script : List (World × Op)
script = (world, store 150 9) ∷ (world, look_up 150) ∷ []

first_run-refines_example :
    (t : State) × (os : List (Op × Outcome)) × (y : Pages) × (load_newest_root world built true
        built.root_word false
      ≡ some (t, true))
    × (run 1 t.pages t.root script ≡ some (os, y))
    × Agrees os (λ q. some none)
    × Good 1 y t.root 0 (2 ^ 64 - 1)
    × ((q : ℕ)
        → inside 0 (2 ^ 64 - 1) q ≡ true
        → read 2 y t.root q ≡ map_after os (λ k. some none) q)
first_run-refines_example =
    first_run-refines supply info 3 (λ name. none) 64 supply-IsFresh info-IsParted world lawful
      (2 ^ 63 + 9) 4 spare_page (omega arith) (omega arith) script
      (lawful, refl, (lawful, refl, refl))

-- A tree of one leaf, on its memory node.
abbrev single : State
single = b_tree supply info 1 (λ name. none) 0 0 64

abbrev only : Leaf ℕ
only = record {
  base = record (fresh_base b_tree_leaf 0 1024) { lock_word = 0 };
  entries = λ i. (9, 9);
  next_leaf = 0;
  back_version = 0;
}

only_at : single.pages single.root_word ≡ some (leaf only)
unfolding program
only_at = refl

single-Good : Good 0 single.pages single.root_word 0 (2 ^ 64 - 1)
unfolding program Good
single-Good = record {
  l = only;
  at = refl;
  valid = record {
    few = omega arith;
    sorted = λ i j p q. absurd (omega (arith, q));
    in_range = λ i p. absurd (omega (arith, p));
    consistent = refl;
  };
  placed = record { level_is = refl; min_is = refl; max_is = refl; at_home = λ z. refl };
}

single-IsOpen : IsOpen world single (leaf only) (2 ^ 63 + 9) 4
unfolding program
single-IsOpen = record {
  unlocked = refl;
  free = refl;
  at = refl;
  fits = refl;
  page = refl;
  apart = λ e. omega (arith, e);
  page_free = refl;
  page_tag = refl;
}

single-stale : stale single ≡ true
unfolding program
single-stale = refl

load_newest_root-Loaded_example :
    Loaded 0 0 (2 ^ 64 - 1) single (load_newest_root world single true single.root_word false)
load_newest_root-Loaded_example =
    load_newest_root-Loaded world single (leaf only) (2 ^ 63 + 9) 4 0 0 (2 ^ 64 - 1) false
      single-IsOpen single-stale single-Good

-- The same tree while another node holds the lock of the root.
abbrev taken : State
taken = b_tree supply info 1 (λ name. none) 0 1 64

abbrev taken_after : State
taken_after = record taken {
  super_root = record (taken.super_root) { base = written taken.super_root.base };
}

refused : load_newest_root world taken true 1024 false ≡ some (taken_after, true)
unfolding program
refused = refl

load_newest_root_cases_example : Same taken taken_after ⊎ Renewed world taken true 1024 taken_after
load_newest_root_cases_example =
    load_newest_root_cases world taken true 1024 false taken_after true refused

-- A leaf that was the root, in memory, and its remote sibling.
abbrev halves : State
halves = record built { pages = tree; root = 2 ^ 63 + 2; root_word = 6000 }

halves-IsSplit : IsSplit world halves 0 7000 100 (2 ^ 63 + 2) 5000 (2 ^ 63 + 9) 4
unfolding program Good
halves-IsSplit = record {
  low = low_at;
  high = high_at;
  some_key = omega arith;
  small_key = omega arith;
  page = refl;
  page_free = refl;
  page_tag = refl;
  address_free = refl;
  old = leaf low_leaf;
  old_hot = refl;
  old_at = refl;
  current = refl;
}

make_root-Made_example :
    Made halves 0 7000 100 (2 ^ 63 + 2) 5000 (make_root world halves 7000 100 (2 ^ 63 + 2) 5000 1)
make_root-Made_example =
    make_root-Made world halves 0 7000 100 (2 ^ 63 + 2) 5000 (2 ^ 63 + 9) 4 halves-IsSplit
