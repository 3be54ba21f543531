-- ===== src/Tests/Inners.antt =====
-- Inner nodes with a few keys (dex/include/cache/btree_node.h).
use dex_partial.Base.{
  ℕ, ◌+◌, ◌*◌, ◌^◌, ◌≡◌, ◌≢◌, ◌≤◌, ◌<◌, ◌⊎◌, ◌↔◌, refl, arith, ◌∙◌, sym, true, false, none, some,
  leb, if◌then◌else◌,
}
use dex_partial.Base.Int.{pos, negsuc}
use dex_partial.Base.Bits.{bit, bit-zero, bit_high}
use dex_partial.BTree.Search
use dex_partial.BTree.Node.{b_tree_inner, fresh_base, range_valid}
use dex_partial.BTree.Inner.{
  Inner, find_idx, closest_set, insert, split, set_bitmap, unset_bitmap, test_bitmap, lower_bound,
  validate_bitmap_correctness,
}
use dex_partial.BTree.Inner.Route.{IsValid, route, inner_insert-IsValid, route-insert}
use dex_partial.BTree.Inner.Split.{IsDivided, inner_split-IsDivided, route-split}
use dex_partial.BTree.Inner.Marks.{
  IsMarked, insert-IsMarked, split-IsMarked, test-set_bitmap, validate_bitmap_correctness_iff,
}
use dex_partial.BTree.Inner.Closest.{Nearest, closest_set-Nearest}
use dex_partial.BTree.Inner.Loops.{find_idx_cases}

-- `count` keys 10, 20, 30, … over the children 100, 101, 102, …, none of them in memory.
abbrev tens : ℕ → Inner
tens count = record {
  base = record (fresh_base b_tree_inner 1 4096) { count = count };
  children = λ i. i + 100;
  keys = λ i. (i + 1) * 10;
  back_version = 0;
}

five : IsValid (tens 5)
unfolding range_valid
five = record {
  some_key = omega arith;
  few = omega arith;
  sorted = λ i j p q. omega arith;
  in_range = λ i p. ground arith;
  consistent = refl;
}

program : Unit {0}
unfolding Search.lower_bound route insert split closest_set find_idx lower_bound
program = tt

route_between : route (tens 5) 25 ≡ 102
unfolding program
route_between = refl

-- The node of five keys with the children 1 and 4 in memory.
abbrev two_set : Inner
two_set = record (tens 5) {
  base = record (fresh_base b_tree_inner 1 4096) { count = 5; bitmap = 18 };
}

closest_right : closest_set two_set 3 ≡ pos 4
unfolding program
closest_right = refl

closest_left : closest_set two_set 2 ≡ pos 1
unfolding program
closest_left = refl

closest_none : closest_set (tens 5) 2 ≡ negsuc 0
unfolding program
closest_none = refl

absent : (i : ℕ) → i < 5 → (i + 1) * 10 ≢ 25
absent i h e = omega arith

inner_insert-IsValid_run : IsValid (insert (tens 5) 25 200)
unfolding range_valid
inner_insert-IsValid_run = inner_insert-IsValid (tens 5) five 25 200 (omega arith) absent refl

route-insert_example : route (insert (tens 5) 25 200) 27 ≡ 200
unfolding program range_valid
route-insert_example = route-insert (tens 5) five 25 200 (omega arith) absent refl 27

inner_split-IsDivided_run : IsDivided (tens 5) (tens 0) five (omega arith)
inner_split-IsDivided_run = inner_split-IsDivided (tens 5) (tens 0) five (omega arith) refl

route-split_example :
    (if leb 45 (split (tens 5) (tens 0)).2
      then route (split (tens 5) (tens 0)).0 45
      else route (split (tens 5) (tens 0)).1 45)
    ≡ route (tens 5) 45
route-split_example = route-split (tens 5) (tens 0) five (omega arith) refl 45

unmarked : IsMarked (tens 5)
unmarked = record {
  marks = λ i h. bit-zero i ∙ sym (bit_high 63 (i + 100) 63 (omega arith) (omega arith));
  rest = λ i h. bit-zero i;
}

insert-IsMarked_run : IsMarked (insert (tens 5) 25 (2 ^ 63 + 64))
insert-IsMarked_run = insert-IsMarked (tens 5) five unmarked 25 (2 ^ 63 + 64) (omega arith)

split-IsMarked_run : IsMarked (split (tens 5) (tens 0)).0 × IsMarked (split (tens 5) (tens 0)).1
split-IsMarked_run = split-IsMarked (tens 5) five unmarked (tens 0) (omega arith)

test-set_bitmap_example :
    (test_bitmap (set_bitmap two_set 2) 2 ≡ true) × (test_bitmap (unset_bitmap two_set 2) 2 ≡ false)
test-set_bitmap_example = test-set_bitmap two_set 2 2 (omega arith) (omega arith)

validate_bitmap_correctness_iff_run :
    (validate_bitmap_correctness two_set ≡ true) ↔ ((i : ℕ) → i ≤ 5 → bit 18 i ≡ bit (i + 100) 63)
validate_bitmap_correctness_iff_run = validate_bitmap_correctness_iff two_set

find_idx_cases_run :
    ((find_idx (tens 5) 103 ≡ none) × ((j : ℕ) → j ≤ 5 → j + 100 ≢ 103))
    ⊎ ((r : ℕ) × (find_idx (tens 5) 103 ≡ some r)
        × (r ≤ 5)
        × (r + 100 ≡ 103)
        × ((j : ℕ) → j < r → j + 100 ≢ 103))
find_idx_cases_run = find_idx_cases (tens 5) 103

closest_set-Nearest_example :
    ((◌≡◌ {A = ℕ} 18 0) × (closest_set two_set 3 ≡ negsuc 0))
    ⊎ ((r : ℕ) × (closest_set two_set 3 ≡ pos r) × (r ≤ 5) × Nearest 18 3 r)
closest_set-Nearest_example =
    closest_set-Nearest two_set 3 (omega arith) (omega arith) (omega arith)
      (λ i h. bit_high 5 18 i (omega arith) (omega arith))
