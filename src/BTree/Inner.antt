-- ===== src/BTree/Inner.antt =====
-- `BTreeInner`: the members of the class, in the order of btree_node.h. A child is the 64-bit `val` of
-- its `GlobalAddress`; the top bit marks a child that is in memory.
pub mod Route
pub mod Marks
pub mod Loops
pub mod Split
pub mod Closest
use dex_partial.Base.{
  ℕ, zero, suc, ◌+◌, ◌-◌, ◌*◌, ◌/◌, ◌%◌, ◌^◌, ◌<◌, min, bit_and, bit_or, Bool, true, false, ◌&&◌,
  not, ltb, leb, ◌==◌, if◌then◌else◌, Option, none, some, Array, write, copy_into, add8, sub8,
  add32, sub32, add64,
}
use dex_partial.Base.Bits.{bit, has_bit}
use dex_partial.Base.Int.{ℤ, pos, negsuc, sub_ℕ}
use dex_partial.BTree.Search
use dex_partial.BTree.Node.{NodeBase, b_tree_inner, fresh_base, page_size, node_base_size}

-- A key and a child are 8 bytes wide: 59.
abbrev pub max_entries : ℕ
max_entries = (page_size - 8 - node_base_size) / (8 + 8)

pub record Inner : Type 0 where
  pub base : NodeBase
  pub children : Array ℕ
  pub keys : Array ℕ
  pub back_version : ℕ

-- The constructor, over memory that holds anything.
unfoldable pub new : Array ℕ → Array ℕ → ℕ → ℕ → Inner
new children keys cur_level remote = record {
  base = fresh_base b_tree_inner cur_level remote;
  children = children;
  keys = keys;
  back_version = 0;
}

unfoldable pub is_full : Inner → Bool
is_full inner = inner.base.count == max_entries - 1

unfoldable pub check_consistent : Inner → Bool
check_consistent inner = inner.base.front_version == inner.back_version

unfoldable pub lower_bound : Inner → ℕ → ℕ
lower_bound inner k = Search.lower_bound inner.keys inner.base.count k

-- `left` rounds of the loop from index `i`; `none` is -1.
unfoldable pub find_idx_loop : ℕ → ℕ → Array ℕ → ℕ → Option ℕ
find_idx_loop zero i children target = none
find_idx_loop (suc left) i children target =
    let rest = find_idx_loop left (i + 1) children target in
    if children i == target then some i else rest

unfoldable pub find_idx : Inner → ℕ → Option ℕ
unfolding find_idx_loop
find_idx inner target = find_idx_loop (inner.base.count + 1) 0 inner.children target

abbrev pub with_bitmap : Inner → ℕ → Inner
with_bitmap inner b = record inner { base = record (inner.base) { bitmap = b } }

unfoldable pub set_bitmap : Inner → ℕ → Inner
set_bitmap inner idx = with_bitmap inner (bit_or inner.base.bitmap (2 ^ idx))

unfoldable pub unset_bitmap : Inner → ℕ → Inner
unset_bitmap inner idx = with_bitmap inner (bit_and inner.base.bitmap (2 ^ 64 - 1 - 2 ^ idx))

unfoldable pub test_bitmap : Inner → ℕ → Bool
test_bitmap inner idx = has_bit inner.base.bitmap idx

-- `_tzcnt_u64` and `_lzcnt_u64`: the zeros below the lowest, and above the highest, bit of a word
-- that is set; 64 if none is.
unfoldable pub tzcnt_loop : ℕ → ℕ → ℕ → ℕ
tzcnt_loop zero i x = i
tzcnt_loop (suc left) i x = let rest = tzcnt_loop left (i + 1) x in if bit x i == 1 then i else rest

unfoldable pub lzcnt_loop : ℕ → ℕ → ℕ
lzcnt_loop zero x = 0
lzcnt_loop (suc n) x = let rest = lzcnt_loop n x in if bit x n == 1 then 0 else rest + 1

unfoldable pub closest_set : Inner → ℕ → ℤ
unfolding tzcnt_loop lzcnt_loop bit
closest_set inner p =
    let bit_pos = min p 63 in
    let right_sets = bit_and inner.base.bitmap (2 ^ 64 - 1 - (2 ^ bit_pos - 1)) in
    let left_sets = bit_and inner.base.bitmap (2 ^ bit_pos - 1) in
    let right_gap = if right_sets == 0 then 64 else tzcnt_loop 64 0 right_sets - bit_pos in
    let left_gap = if left_sets == 0 then 64 else bit_pos - (63 - lzcnt_loop 64 left_sets) in
    if inner.base.bitmap == 0
    then negsuc 0
    else if ltb right_gap left_gap && ltb (p + right_gap) (inner.base.count + 1)
    then pos (p + right_gap)
    else sub_ℕ p left_gap

-- The separator, the node and `new_inner` filled with the upper half.
unfoldable pub split : Inner → Inner → Inner × Inner × ℕ
split inner new_inner =
    let moved = sub8 inner.base.count (inner.base.count / 2) in
    let kept = sub8 (sub8 inner.base.count moved) 1 in
    let sep = inner.keys kept in
    (
      record inner {
        base = record (inner.base) {
          front_version = add64 inner.base.front_version 1;
          bitmap = bit_and inner.base.bitmap (2 ^ (kept + 1) - 1);
          count = kept;
          is_smo = true;
          dirty = true;
          max_limit = sep;
        };
        back_version = add64 inner.back_version 1;
      },
      record new_inner {
        base = record (new_inner.base) {
          bitmap = inner.base.bitmap / 2 ^ (kept + 1);
          count = moved;
          min_limit = sep;
          max_limit = inner.base.max_limit;
        };
        children = copy_into new_inner.children 0 inner.children (kept + 1) (moved + 1);
        keys = copy_into new_inner.keys 0 inner.keys (kept + 1) (moved + 1);
      },
      sep,
    )

-- `std::swap(a[i], a[i + 1])`
abbrev swap_next : Array ℕ → ℕ → Array ℕ
swap_next a i = write (write a i (a (i + 1))) (i + 1) (a i)

-- `upper_part` moved by one place over the lower part.
abbrev pub shifted_bitmap : ℕ → ℕ → ℕ
shifted_bitmap b p = bit_or (bit_and b (2 ^ (p + 1) - 1)) (b / 2 ^ (p + 1) * 2 ^ (p + 2) % 2 ^ 64)

unfoldable pub insert : Inner → ℕ → ℕ → Inner
unfolding lower_bound
insert inner k child =
    let p = lower_bound inner k in
    let n = add32 (sub32 inner.base.count p) 1 in
    let b = shifted_bitmap inner.base.bitmap p in
    record inner {
      base = record (inner.base) {
        front_version = add64 inner.base.front_version 1;
        bitmap = if has_bit child 63 then bit_or b (2 ^ (p + 1)) else b;
        count = add8 inner.base.count 1;
        dirty = true;
      };
      keys = write (copy_into inner.keys (p + 1) inner.keys p n) p k;
      children = swap_next (write (copy_into inner.children (p + 1) inner.children p n) p child) p;
      back_version = add64 inner.back_version 1;
    }

-- False where the source prints and exits: at a child whose mark and bit differ.
unfoldable pub bitmap_correct_loop : ℕ → Inner → Bool
bitmap_correct_loop zero inner = true
bitmap_correct_loop (suc n) inner =
    bitmap_correct_loop n inner
    && (if has_bit (inner.children n) 63
        then has_bit inner.base.bitmap n
        else not (has_bit inner.base.bitmap n))

unfoldable pub validate_bitmap_correctness : Inner → Bool
unfolding bitmap_correct_loop
validate_bitmap_correctness inner = bitmap_correct_loop (inner.base.count + 1) inner
