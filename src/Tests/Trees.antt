-- ===== src/Tests/Trees.antt =====
-- A tree of a root over two leaves, one in memory and one on its memory node, and then both in memory.
use dex_partial.Base.{
  ℕ, zero, suc, ◌+◌, ◌-◌, ◌*◌, ◌^◌, ◌≡◌, ◌≤◌, ◌<◌, refl, arith, Bool, true, false, ◌==◌,
  if◌then◌else◌, Option, none, some, List, [], ◌∷◌, Bool-cases, inl, inr, ◌⊎◌,
}
use dex_partial.OptLock
use dex_partial.Base.Bits.{has_bit}
use dex_partial.BTree.Search
use dex_partial.BTree.Inner.Route
use dex_partial.BTree.Node.{b_tree_inner, b_tree_leaf, fresh_base, range_valid}
use dex_partial.BTree.Inner.{Inner, is_full}
use dex_partial.BTree.Leaf.{Leaf}
use dex_partial.Rpc.{Page, inner, leaf}
use dex_partial.Tree.{Pages, World, Ending, walk, slot_min, slot_max}
use dex_partial.Tree.Shape.{LeafAt, InnerAt, Good, inner_same, read}
use dex_partial.Tree.Descent.{IsLawful, Roomy, Stands, Walked}
use dex_partial.Tree.Walks.{walked}
use dex_partial.Tree.Quiet.{IsQuiet, lookup-returned}
use dex_partial.Tree.Passes.{Outcome, returned, lookup, insert, update, remove}
use dex_partial.Tree.Answers.{
  held, Passes, pages_after, lookup_promise, insert_promise, update_promise, remove_promise,
}
use dex_partial.Tree.Calls.{tree_lookup-keeps, tree_update-keeps, tree_remove-keeps}
use dex_partial.Tree.Inserts.{tree_insert-keeps}
use dex_partial.Tree.History.{Op, look_up, erase, store, run, Agrees, Holds, map_after, run-refines}

abbrev hot : ℕ → ℕ
hot i = 2 ^ 63 + i

abbrev pub root : ℕ
root = hot 1

-- The keys up to 100 are in the leaf in memory, the others in the remote one.
abbrev root_page : Inner
root_page = record {
  base = record (fresh_base b_tree_inner 1 4096) { count = 1; bitmap = 1 };
  children = λ i. if i == 0 then hot 2 else 5000;
  keys = λ i. 100;
  back_version = 0;
}

abbrev pub low_leaf : Leaf ℕ
low_leaf = record {
  base = record (fresh_base b_tree_leaf 0 6000) { count = 2; max_limit = 100 };
  entries = λ i. ((i + 1) * 10, i + 7);
  next_leaf = 0;
  back_version = 0;
}

abbrev high_leaf : Leaf ℕ
high_leaf = record {
  base = record (fresh_base b_tree_leaf 0 5000) { count = 1; min_limit = 100 };
  entries = λ i. (200, 3);
  next_leaf = 0;
  back_version = 0;
}

abbrev pub tree : Pages
tree name =
    if name == root
    then some (inner root_page)
    else if name == hot 2
    then some (leaf low_leaf)
    else if name == 5000
    then some (leaf high_leaf)
    else none

abbrev spare : Option Page → ℕ → Option (ℕ × ℕ)
spare none e = some (e, 4)
spare (some g) e = none

abbrev spare_node : Option Page → ℕ → Option ℕ
spare_node none r = some r
spare_node (some g) r = none

-- One empty page and one remote page, and leaves that are admitted or not.
abbrev pub world : World
world = record {
  try_get_empty_page = λ pages. spare (pages (hot 9)) (hot 9);
  get_empty_page = λ pages. spare (pages (hot 9)) (hot 9);
  allocate_node = λ pages. spare_node (pages 7000) 7000;
  admits = true;
  buffer_min_limit = 0;
  buffer_max_limit = 2 ^ 64 - 1;
  old_entries = λ _. (0, 0);
  old_children = λ _. 0;
  old_keys = λ _. 0;
}

spare_is : (o : Option Page) (e z word : ℕ) → spare o e ≡ some (z, word) → (o ≡ none) × (z ≡ e)
spare_is none e z word h = (refl, cc h)
spare_is (some g) e z word h = absurd (cc h)

spare_node_is : (o : Option Page) (r z : ℕ) → spare_node o r ≡ some z → (o ≡ none) × (z ≡ r)
spare_node_is none r z h = (refl, cc h)
spare_node_is (some g) r z h = absurd (cc h)

pub lawful : IsLawful world
lawful = record {
  page_free = λ pages e word h. let (a, b) = spare_is (pages (hot 9)) (hot 9) e word h in rw b a;
  page_tag = λ pages e word h. let (a, b) = spare_is (pages (hot 9)) (hot 9) e word h in rw b refl;
  get_free = λ pages e word h. let (a, b) = spare_is (pages (hot 9)) (hot 9) e word h in rw b a;
  get_tag = λ pages e word h. let (a, b) = spare_is (pages (hot 9)) (hot 9) e word h in rw b refl;
  node_free = λ pages r h. let (a, b) = spare_node_is (pages 7000) 7000 r h in rw b a;
}

pub low_at : LeafAt tree (hot 2) 0 100
unfolding range_valid
low_at = record {
  l = low_leaf;
  at = refl;
  valid = record {
    few = omega arith;
    sorted = λ i j p q. omega arith;
    in_range = λ i p. ground arith;
    consistent = refl;
  };
  placed = record { level_is = refl; min_is = refl; max_is = refl; at_home = λ z. absurd (cc z) };
}

pub high_at : LeafAt tree 5000 100 (2 ^ 64 - 1)
unfolding range_valid
high_at = record {
  l = high_leaf;
  at = refl;
  valid = record {
    few = omega arith;
    sorted = λ i j p q. omega arith;
    in_range = λ i p. ground arith;
    consistent = refl;
  };
  placed = record { level_is = refl; min_is = refl; max_is = refl; at_home = λ z. refl };
}

root_at : InnerAt tree root 1 0 (2 ^ 64 - 1)
unfolding range_valid
root_at = record {
  n = root_page;
  at = refl;
  valid = record {
    some_key = omega arith;
    few = omega arith;
    sorted = λ i j p q. omega arith;
    in_range = λ i p. ground arith;
    consistent = refl;
  };
  apart = λ i p. omega arith;
  placed = record { level_is = refl; min_is = refl; max_is = refl; at_home = λ z. absurd (cc z) };
}

tree_good : Good 1 tree root 0 (2 ^ 64 - 1)
unfolding Good root_at
tree_good = (root_at, children)
  where
    children :
        (i : ℕ)
        → i ≤ 1
        → Good 0 tree (root_page.children i) (slot_min root_page i) (slot_max root_page i)
    children zero p = low_at
    children (suc zero) p = high_at
    children (suc (suc i)) p = absurd (omega arith)

pub stands : (k : ℕ) → 0 < k → k < 2 ^ 64 → Stands tree k 0 root 0 (2 ^ 64 - 1)
stands k p q = (tree_good, ground arith)

program : Unit {0}
unfolding lookup insert update remove read Search.lower_bound OptLock.read_lock_or_restart
    OptLock.upgrade_to_io_lock_or_restart OptLock.write_unlock
    OptLock.upgrade_to_write_lock_or_restart OptLock.io_unlock
program = tt

abbrev result : Option Outcome → Option (Bool × Option ℕ)
result (some (returned x s v)) = some (s, v)
result _ = none

abbrev after : Option Outcome → Pages
after none = tree
after (some o) = pages_after o

-- A leaf in memory, a leaf that is brought in, and a leaf that is not admitted.
found : result (lookup 1 world tree root 20) ≡ some (true, some 8)
unfolding program
found = refl

found_remote : result (lookup 1 world tree root 200) ≡ some (true, some 3)
unfolding program
found_remote = refl

found_refused :
    result (lookup 1 (record world { admits = false }) tree root 200) ≡ some (true, some 3)
unfolding program
found_refused = refl

inserted :
    result (lookup 1 world (after (insert 1 world tree root 150 9)) root 150) ≡ some (true, some 9)
unfolding program
inserted = refl

removed : result (lookup 1 world (after (remove 1 world tree root 10)) root 10) ≡ some (false, none)
unfolding program
removed = refl

tree_lookup-keeps_example :
    Passes lookup_promise 20 0 tree root 0 (2 ^ 64 - 1) (lookup 1 world tree root 20)
tree_lookup-keeps_example =
    tree_lookup-keeps world lawful 0 tree root 0 (2 ^ 64 - 1) 20
      (stands 20 (omega arith) (omega arith)) refl

tree_update-keeps_example :
    Passes (update_promise 200 8) 200 0 tree root 0 (2 ^ 64 - 1) (update 1 world tree root 200 8)
tree_update-keeps_example =
    tree_update-keeps world lawful 0 tree root 0 (2 ^ 64 - 1) 200
      (stands 200 (omega arith) (omega arith)) refl 8

tree_remove-keeps_example :
    Passes (remove_promise 200) 200 0 tree root 0 (2 ^ 64 - 1) (remove 1 world tree root 200)
tree_remove-keeps_example =
    tree_remove-keeps world lawful 0 tree root 0 (2 ^ 64 - 1) 200
      (stands 200 (omega arith) (omega arith)) refl

tree_insert-keeps_example :
    Passes (insert_promise 150 9) 150 0 tree root 0 (2 ^ 64 - 1) (insert 1 world tree root 150 9)
tree_insert-keeps_example =
    tree_insert-keeps world lawful 0 tree root 0 (2 ^ 64 - 1) 150
      (stands 150 (omega arith) (omega arith)) refl 9

not_full : (n : Inner) → tree root ≡ some (inner n) → Roomy true n
unfolding is_full
not_full n at = let same = inner_same tree root n root_page at refl in rw same refl

abbrev script : List (World × Op)
script = (world, store 150 9) ∷ (world, look_up 150) ∷ (world, erase 10) ∷ (world, look_up 10) ∷ []

run-refines_example :
    (os : List (Op × Outcome)) × (y : Pages) × (run 1 tree root script ≡ some (os, y))
    × Agrees os (λ q. read 2 tree root q)
    × Good 1 y root 0 (2 ^ 64 - 1)
    × Holds 0 root 0 (2 ^ 64 - 1) refl y (map_after os (λ q. read 2 tree root q))
run-refines_example =
    run-refines 0 root 0 (2 ^ 64 - 1) refl script tree (λ q. read 2 tree root q)
      (lawful, refl, (lawful, refl, (lawful, refl, (lawful, refl, refl)))) tree_good (λ q _. refl)

walked_example :
    (e : Ending) × (walk 1 world true 200 tree root ≡ some e)
    × Walked true 0 200 tree root 0 (2 ^ 64 - 1) e
walked_example =
    walked world lawful true 200 0 tree root 0 (2 ^ 64 - 1) (stands 200 (omega arith) (omega arith))
      (λ n at. not_full n at)

-- The same tree with both leaves in memory.
abbrev quiet_root : Inner
quiet_root = record root_page { children = λ i. if i == 0 then hot 2 else hot 3 }

abbrev pub quiet_tree : Pages
quiet_tree name =
    if name == root
    then some (inner quiet_root)
    else if name == hot 2
    then some (leaf low_leaf)
    else if name == hot 3
    then some (leaf high_leaf)
    else none

page_cases :
    (name : ℕ) (g : Page)
    → quiet_tree name ≡ some g
    → (g ≡ inner quiet_root) ⊎ (g ≡ leaf low_leaf) ⊎ (g ≡ leaf high_leaf)
page_cases name g h = elim (Bool-cases (name == root)) [
  | inl e ↦ inl (let s = rw e at h in cc s)
  | inr e ↦ elim (Bool-cases (name == hot 2)) [
    | inl f ↦ inr (inl (let s = rw (e, f) at h in cc s))
    | inr f ↦ elim (Bool-cases (name == hot 3)) [
      | inl o ↦ inr (inr (let s = rw (e, f, o) at h in cc s))
      | inr o ↦ absurd (let s = rw (e, f, o) at h in cc s)
    ]
  ]
]

root_hot : (n : Inner) → inner n ≡ inner quiet_root → (i : ℕ) → has_bit (n.children i) 63 ≡ true
root_hot n e i =
    let is : n ≡ quiet_root = cc e in
    elim (Bool-cases (i == 0)) [ inl o ↦ rw (is, o) refl | inr o ↦ rw (is, o) refl ]

pub quiet : IsQuiet quiet_tree
unfolding program
quiet = record {
  free = λ name g h. elim (page_cases name g h) [
    | inl e ↦ rw e refl
    | inr (inl e) ↦ rw e refl
    | inr (inr e) ↦ rw e refl
  ];
  in_memory = λ name n h i z. elim (page_cases name (inner n) h) [
    | inl e ↦ root_hot n e i
    | inr (inl e) ↦ absurd (cc e)
    | inr (inr e) ↦ absurd (cc e)
  ];
}

quiet_valid : Route.IsValid quiet_root
unfolding range_valid
quiet_valid = record {
  some_key = omega arith;
  few = omega arith;
  sorted = λ i j p q. omega arith;
  in_range = λ i p. ground arith;
  consistent = refl;
}

pub quiet_good : Good 1 quiet_tree root 0 (2 ^ 64 - 1)
unfolding Good range_valid low_at high_at root_at
quiet_good = (
  record {
    n = quiet_root;
    at = refl;
    valid = quiet_valid;
    apart = root_at.apart;
    placed = record { level_is = refl; min_is = refl; max_is = refl; at_home = λ z. absurd (cc z) };
  },
  children,
)
  where
    children :
        (i : ℕ)
        → i ≤ 1
        → Good 0 quiet_tree (quiet_root.children i) (slot_min quiet_root i) (slot_max quiet_root i)
    children zero p = record {
      l = low_leaf;
      at = refl;
      valid = low_at.valid;
      placed = low_at.placed;
    }
    children (suc zero) p = record {
      l = high_leaf;
      at = refl;
      valid = high_at.valid;
      placed = record {
        level_is = refl;
        min_is = refl;
        max_is = refl;
        at_home = λ z. absurd (cc z);
      };
    }
    children (suc (suc i)) p = absurd (omega arith)

lookup-returned_example :
    (v : Option ℕ) × (read 2 quiet_tree root 200 ≡ some v)
    × (lookup 1 world quiet_tree root 200 ≡ some (returned quiet_tree (held v) v))
lookup-returned_example =
    lookup-returned world quiet_tree quiet 200 0 root 0 (2 ^ 64 - 1) (quiet_good, refl) refl
