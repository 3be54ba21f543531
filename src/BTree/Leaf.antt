-- ===== src/BTree/Leaf.antt =====
-- `BTreeLeaf`: the members of the class, in the order of btree_node.h. A member that changes the node
-- returns the new one with its result.
pub mod Lookup
pub mod Writes
pub mod Insert
pub mod Remove
pub mod Split
pub mod Scan
use dex_partial.Base.{
  ℕ, zero, suc, ◌+◌, ◌-◌, ◌*◌, ◌/◌, ◌%◌, ◌^◌, min, Bool, true, false, ◌&&◌, ltb, leb, ◌==◌,
  if◌then◌else◌, Option, none, some, Array, write, copy_into, add8, sub8, add32, sub32, add64,
}
use dex_partial.BTree.Search
use dex_partial.BTree.Node.{NodeBase, PageType, b_tree_leaf, fresh_base, page_size, node_base_size}

-- An entry is `std::pair<Key, Payload>`, and both are 8 bytes wide: 58 entries.
abbrev pub max_entries : ℕ
max_entries = (page_size - (8 * 2 + 8 * 2) - node_base_size) / 16

-- `entries` is the member `data`.
pub record Leaf (V : Type 0) : Type 0 where
  pub base : NodeBase
  pub entries : Array (ℕ × V)
  pub next_leaf : ℕ
  pub back_version : ℕ

module _ {V : Type 0} where
  -- The constructor, over memory that holds anything.
  unfoldable pub new : Array (ℕ × V) → ℕ → Leaf V
  new memory remote = record {
    base = fresh_base b_tree_leaf 0 remote;
    entries = memory;
    next_leaf = 0;
    back_version = 0;
  }

  unfoldable pub is_full : Leaf V → Bool
  is_full leaf = leaf.base.count == max_entries

  unfoldable pub check_consistent : Leaf V → Bool
  check_consistent leaf = leaf.base.front_version == leaf.back_version

  abbrev pub keys : Leaf V → Array ℕ
  keys leaf i = (leaf.entries i).0

  unfoldable pub lower_bound : Leaf V → ℕ → ℕ
  lower_bound leaf k = Search.lower_bound (keys leaf) leaf.base.count k

  -- `(pos < count) && (data[pos].first == k)`
  abbrev pub hits : Leaf V → ℕ → ℕ → Bool
  hits leaf k pos = ltb pos leaf.base.count && keys leaf pos == k

  -- `some v` where the source returns true and writes `v` through the reference
  unfoldable pub find : Leaf V → ℕ → Option V
  unfolding lower_bound
  find leaf k =
      let pos = lower_bound leaf k in if hits leaf k pos then some (leaf.entries pos).1 else none

  -- The number of entries that are copied to the caller's array, and that array.
  unfoldable pub range_scan : Leaf V → ℕ → ℕ → Array (ℕ × V) → ℕ × Array (ℕ × V)
  unfolding lower_bound
  range_scan leaf k num array =
      let pos = lower_bound leaf k in
      let copy_count = min (sub32 leaf.base.count pos) num in
      if hits leaf k pos
      then (copy_count, copy_into array 0 leaf.entries pos copy_count)
      else (0, array)

  -- `front_version++; back_version++`
  abbrev pub bump : Leaf V → Leaf V
  bump leaf = record leaf {
    base = record (leaf.base) { front_version = add64 leaf.base.front_version 1 };
    back_version = add64 leaf.back_version 1;
  }

  abbrev pub set_dirty : Leaf V → Leaf V
  set_dirty leaf = record leaf { base = record (leaf.base) { dirty = true } }

  abbrev pub set_entries : Leaf V → Array (ℕ × V) → ℕ → Leaf V
  set_entries leaf entries count = record leaf {
    base = record (leaf.base) { count = count };
    entries = entries;
  }

  -- `insert` from `count++` on, with the entries that it has written
  abbrev insert_end : Leaf V → Array (ℕ × V) → Leaf V × Bool
  insert_end leaf entries = (bump (set_entries leaf entries (add8 leaf.base.count 1)), true)

  -- `memmove(data + pos + 1, data + pos, …)`, then the write at `pos`
  abbrev shifted : Leaf V → ℕ → ℕ → V → Array (ℕ × V)
  shifted leaf pos k p =
      write (copy_into leaf.entries (pos + 1) leaf.entries pos (sub32 leaf.base.count pos)) pos
        (k, p)

  unfoldable pub insert : Leaf V → ℕ → V → Leaf V × Bool
  unfolding lower_bound
  insert leaf' k p =
      let leaf = set_dirty leaf' in
      let pos = lower_bound leaf k in
      if leaf.base.count == 0
      then insert_end leaf (write leaf.entries 0 (k, p))
      else if hits leaf k pos
      then (bump (record leaf { entries = write leaf.entries pos (k, p) }), false)
      else if leb max_entries leaf.base.count
      then (leaf, false)
      else insert_end leaf (shifted leaf pos k p)

  unfoldable pub remove : Leaf V → ℕ → Leaf V × Bool
  unfolding lower_bound
  remove leaf k =
      let pos = lower_bound leaf k in
      let entries =
        copy_into leaf.entries pos leaf.entries (pos + 1) (sub32 (sub32 leaf.base.count pos) 1) in
      if leaf.base.count == 0
      then (leaf, false)
      else if hits leaf k pos
      then (bump (set_entries (set_dirty leaf) entries (sub8 leaf.base.count 1)), true)
      else (leaf, false)

  -- The write between the two version increments.
  unfoldable pub update : Leaf V → ℕ → V → Leaf V × Bool
  unfolding lower_bound
  update leaf k p =
      let pos = lower_bound leaf k in
      if hits leaf k pos
      then (
        bump (record (set_dirty leaf) { entries = write leaf.entries pos (keys leaf pos, p) }),
        true,
      )
      else (leaf, false)

  -- The entries `begin` to `end` of an array. The versions stay, unlike in the other members.
  unfoldable pub populate : Leaf V → Array (ℕ × V) → ℕ → ℕ → Leaf V
  populate leaf array begin end =
      let count = sub32 end begin % 2 ^ 8 in
      set_dirty (set_entries leaf (copy_into leaf.entries 0 array begin count) count)

  -- `new_leaf` is the node to fill. The separator is `none` where the source reads `data[-1]`.
  unfoldable pub split : Leaf V → Leaf V → ℕ → Leaf V × Leaf V × Option ℕ
  split leaf new_leaf remote_node =
      let moved = sub8 leaf.base.count (leaf.base.count / 2) in
      let kept = sub8 leaf.base.count moved in
      let sep = keys leaf (kept - 1) in
      (
        record leaf {
          base = record (leaf.base) {
            front_version = add64 leaf.base.front_version 1;
            count = kept;
            is_smo = true;
            dirty = true;
            max_limit = sep;
          };
          next_leaf = remote_node;
          back_version = add64 leaf.back_version 1;
        },
        record new_leaf {
          base = record (new_leaf.base) {
            count = moved;
            min_limit = sep;
            max_limit = leaf.base.max_limit;
          };
          entries = copy_into new_leaf.entries 0 leaf.entries kept moved;
        },
        (if kept == 0 then none else some sep),
      )
