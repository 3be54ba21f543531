-- ===== src/Tests/Leaves.antt =====
-- Leaves with a few entries (dex/include/cache/btree_node.h).
use dex_partial.Base.{
  ℕ, ◌+◌, ◌*◌, ◌≡◌, ◌≢◌, ◌≤◌, ◌<◌, ◌⊎◌, ◌↔◌, inr, refl, arith, true, false, none, some, ◌==◌,
  if◌then◌else◌,
}
use dex_partial.BTree.Search
use dex_partial.BTree.Node.{b_tree_leaf, fresh_base, range_valid}
use dex_partial.BTree.Leaf.{
  Leaf, max_entries, keys, find, insert, remove, update, split, range_scan, set_dirty,
}
use dex_partial.BTree.Leaf.Lookup.{IsValid}
use dex_partial.BTree.Leaf.Insert.{find-insert, insert_rejects, insert-true_iff, insert-IsValid}
use dex_partial.BTree.Leaf.Remove.{find-remove, remove-IsValid, update_cases}
use dex_partial.BTree.Leaf.Split.{IsDivided, split-IsDivided, find-split}
use dex_partial.BTree.Leaf.Scan.{Copied, range_scan_cases}

-- `count` entries with the keys 10, 20, 30, …, each with its index as the payload.
abbrev tens : ℕ → Leaf ℕ
tens count = record {
  base = record (fresh_base b_tree_leaf 0 4096) { count = count };
  entries = λ i. ((i + 1) * 10, i);
  next_leaf = 0;
  back_version = 0;
}

tens-IsValid : (n : ℕ) → n ≤ max_entries → IsValid (tens n)
unfolding range_valid
tens-IsValid n h = record {
  few = h;
  sorted = λ i j p q. omega arith;
  in_range = λ i p. ground arith;
  consistent = refl;
}

abbrev empty_leaf : Leaf ℕ
empty_leaf = tens 0

program : Unit {0}
unfolding Search.lower_bound find insert remove update split range_scan
program = tt

three : IsValid (tens 3)
three = tens-IsValid 3 (omega arith)

full : IsValid (tens 58)
full = tens-IsValid 58 (omega arith)

find_hit : find (tens 3) 20 ≡ some 1
unfolding program
find_hit = refl

find_miss : find (tens 3) 25 ≡ none
unfolding program
find_miss = refl

-- The empty leaf reads a stale key, and does not report it.
find_stale : find empty_leaf 10 ≡ none
unfolding program
find_stale = refl

find_miss_full : find (tens 58) 25 ≡ none
unfolding program
find_miss_full = refl

insert_at_end : (insert (tens 3) 35 9).0.entries 3 ≡ (35, 9)
unfolding program
insert_at_end = refl

remove_counts : (remove (tens 3) 20).0.base.count ≡ 2
unfolding program
remove_counts = refl

find-insert_example : find (insert (tens 3) 25 7).0 25 ≡ some 7
find-insert_example = find-insert (tens 3) three 25 7 (inr (omega arith)) 25

insert_full : insert (tens 58) 25 7 ≡ (set_dirty (tens 58), false)
insert_full = insert_rejects (tens 58) full 25 7 find_miss_full refl

insert-true_iff_run :
    ((insert (tens 3) 25 7).1 ≡ true)
    ↔ ((find (tens 3) 25 ≡ none) × ((tens 3).base.count < max_entries))
insert-true_iff_run = insert-true_iff (tens 3) three 25 7

insert-IsValid_run : IsValid (insert (tens 3) 25 7).0
unfolding range_valid
insert-IsValid_run = insert-IsValid (tens 3) three 25 7 refl

find-remove_example :
    ((q : ℕ) → find (remove (tens 3) 20).0 q ≡ (if q == 20 then none else find (tens 3) q))
    × (((remove (tens 3) 20).1 ≡ true) ↔ (find (tens 3) 20 ≢ none))
find-remove_example = find-remove (tens 3) three 20

remove-IsValid_run : IsValid (remove (tens 3) 20).0
remove-IsValid_run = remove-IsValid (tens 3) three 20

update_cases_run :
    ((find (tens 3) 20 ≢ none) × (update (tens 3) 20 5 ≡ ((insert (tens 3) 20 5).0, true)))
    ⊎ ((find (tens 3) 20 ≡ none) × (update (tens 3) 20 5 ≡ (tens 3, false)))
update_cases_run = update_cases (tens 3) three 20 5

split-IsDivided_run : IsDivided (tens 58) empty_leaf 8192 full (omega arith)
split-IsDivided_run = split-IsDivided (tens 58) empty_leaf 8192 full (omega arith) refl

find-split_example :
    (find (split (tens 58) empty_leaf 8192).0 300 ≡ none)
    × (find (split (tens 58) empty_leaf 8192).1 300 ≡ find (tens 58) 300)
find-split_example = find-split (tens 58) empty_leaf 8192 full (omega arith) refl 300

range_scan_cases_run :
    ((i : ℕ) × (i < 3)
      × (keys (tens 3) i ≡ 20)
      × Copied (tens 3) i 5 (λ _. (0, 0)) (range_scan (tens 3) 20 5 (λ _. (0, 0))))
    ⊎ ((find (tens 3) 20 ≡ none) × (range_scan (tens 3) 20 5 (λ _. (0, 0)) ≡ (0, λ _. (0, 0))))
range_scan_cases_run = range_scan_cases (tens 3) three 20 5 (λ _. (0, 0))
