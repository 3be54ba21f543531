-- ===== src/Tree/Passes.antt =====
-- One pass of `lookup`, `update`, `remove` and `insert` (leanstore_tree.h), from the label `restart` to a
-- return or to the next `goto restart`, and the call as a run of passes.
use dex_partial.Base.{
  ℕ, zero, suc, ◌+◌, Bool, true, false, ◌&&◌, ◌||◌, not, ◌==◌, if◌then◌else◌, Option, none, some,
  write,
}
use dex_partial.Base.Bits.{has_bit}
use dex_partial.BTree.Node.{NodeBase, range_valid}
use dex_partial.BTree.Inner
use dex_partial.BTree.Inner.{Inner}
use dex_partial.BTree.Leaf
use dex_partial.BTree.Leaf.{Leaf, max_entries, find}
use dex_partial.Rpc.{Page, inner, leaf}
use dex_partial.Tree.{
  Pages, World, set_parent, hide, can_write, written, brought, Ending, restart, refresh, refused,
  full, at_leaf, visit, walk,
}

-- The super root is not in a page; its name stands for the parent of the root.
abbrev pub super_root : ℕ
super_root = 0

-- How a pass ends: with a result, or back at the start, at once or after `new_refresh_from_root`. The other
-- four are not followed further: `load_newest_root`, the lock of a shared parent on its memory node, the
-- assertion that a full node has a parent, and the wait for a page where none is to be had.
pub data Outcome : Type 0 where
  returned : Pages → Bool → Option ℕ → Outcome
  start_over : Pages → Outcome
  refresh_first : Pages → Outcome
  load_root : Pages → Outcome
  shared_parent : Pages → Outcome
  assertion : Pages → Outcome
  waits : Pages → Outcome

-- The loop from the root.
unfoldable pub descend : ℕ → World → Bool → ℕ → Pages → ℕ → Option Ending
unfolding visit walk
descend fuel w smo k pages root = visit smo super_root (walk fuel w smo k) pages root (pages root)

-- What an operation does with a leaf: the leaf after it, its result, and the value that it read.
abbrev pub Act : Type 0
Act = Leaf ℕ → Leaf ℕ × Bool × Option ℕ

abbrev pub found_in : Option ℕ → Bool
found_in none = false
found_in (some v) = true

abbrev pub do_lookup : ℕ → Act
do_lookup k l = (l, found_in (find l k), find l k)

abbrev pub do_update : ℕ → ℕ → Act
do_update k v l = let r = Leaf.update l k v in (r.0, r.1, none)

abbrev pub do_remove : ℕ → Act
do_remove k l = let r = Leaf.remove l k in (r.0, r.1, none)

abbrev pub do_insert : ℕ → ℕ → Act
do_insert k v l = let r = Leaf.insert l k v in (r.0, r.1, none)

-- The page as `remote_write` puts it on the memory node, with the lock cleared.
abbrev pub flushed : NodeBase → NodeBase
flushed b = record b { lock_word = 0; parent_ptr = 0; pos_state = 0; dirty = false }

abbrev pub flush : Leaf ℕ → Page
flush l = leaf (record l { base = flushed l.base })

-- The remote leaf that is not admitted (`cold_to_hot_with_admission`). `writes` says, of the result,
-- whether the leaf is written back; `remote_write` never ends at a page that has another address.
unfoldable pub at_remote : Act → (Bool → Bool) → Bool → ℕ → Pages → ℕ → Option Page → Option Outcome
unfolding range_valid
at_remote act writes only_room k x c (some (leaf l)) =
    let r = act l in
    if not (range_valid l.base k) || (only_room && l.base.count == max_entries)
    then some (start_over x)
    else if not (writes r.1)
    then some (returned x r.1 r.2)
    else if l.base.remote_address == c
    then some (returned (write x c (some (flush r.0))) r.1 r.2)
    else none
at_remote act writes only_room k x c _ = none

-- The node after a write section.
abbrev pub put_leaf : Pages → ℕ → Leaf ℕ → Pages
put_leaf x c l = write x c (some (leaf (record l { base = written l.base })))

abbrev pub put_inner : Pages → ℕ → Inner → Pages
put_inner x c n = write x c (some (inner (record n { base = written n.base })))

-- `lookup` at the leaf, which it does not lock.
unfoldable pub lookup_leaf : ℕ → Pages → ℕ → Option Page → Option Outcome
unfolding range_valid find
lookup_leaf k x c (some (leaf l)) =
    let r = do_lookup k l in
    if not (range_valid l.base k) then some (refresh_first x) else some (returned x r.1 r.2)
lookup_leaf k x c _ = none

-- `update` and `remove` at the leaf.
unfoldable pub write_leaf : Act → ℕ → Pages → ℕ → Option Page → Option Outcome
unfolding range_valid
write_leaf act k x c (some (leaf l)) =
    let r = act l in
    if not (can_write l.base)
    then some (start_over x)
    else if not (range_valid l.base k)
    then some (refresh_first (put_leaf x c l))
    else some (returned (put_leaf x c r.0) r.1 r.2)
write_leaf act k x c _ = none

-- The split of the leaf `c` of the parent `p`. There is no result where the source reads `data[-1]`.
unfoldable pub split_leaf : World → Pages → ℕ → ℕ → Inner → Leaf ℕ → Option Outcome
unfolding Leaf.new Leaf.split Inner.insert
split_leaf w x p c n l = with_node (w.allocate_node x)
  where
    put : Pages → ℕ → Leaf ℕ → Option ℕ → Option Outcome
    put y new_leaf left none = none
    put y new_leaf left (some sep) =
        some (start_over (put_leaf (put_inner y p (Inner.insert n sep new_leaf)) c left))

    with_node : Option ℕ → Option Outcome
    with_node none = some (waits x)
    with_node (some new_leaf) =
        let halves = Leaf.split l (Leaf.new w.old_entries new_leaf) new_leaf in
        put (write x new_leaf (some (flush halves.1))) new_leaf halves.0 halves.2

-- `insert` at the leaf `c` of the parent `p`.
unfoldable pub insert_leaf :
    World → ℕ → ℕ → Pages → ℕ → ℕ → Option Page → Option Page → Option Outcome
unfolding range_valid Leaf.insert split_leaf
insert_leaf w k v x p c parent (some (leaf l)) =
    let r = do_insert k v l in
    if not (can_write l.base)
    then some (start_over x)
    else if not (range_valid l.base k)
    then some (refresh_first (put_leaf x c l))
    else if l.base.count == max_entries
    then below parent l
    else some (returned (put_leaf x c r.0) r.1 r.2)
  where
    below : Option Page → Leaf ℕ → Option Outcome
    below (some (inner n)) l =
        if p == super_root
        then some (assertion x)
        else if n.base.shared
        then some (shared_parent x)
        else if not (can_write n.base)
        then some (start_over (put_leaf x c l))
        else split_leaf w x p c n l
    below _ l = some (assertion x)
insert_leaf w k v x p c parent _ = none

-- `update_all_parent_ptr`, for the first `count` children.
unfoldable pub update_all_parent_ptr : ℕ → Inner → ℕ → Pages → Pages
update_all_parent_ptr zero n e x = x
update_all_parent_ptr (suc i) n e x =
    let rest = update_all_parent_ptr i n e x in
    if has_bit (n.children i) 63
    then write rest (n.children i) (adopted (rest (n.children i)))
    else rest
  where
    adopted : Option Page → Option Page
    adopted none = none
    adopted (some g) = some (set_parent (hide e) g)

-- The split of the full inner node `c` of `p`, which is not the super root; the new node goes into an empty page of the cache.
unfoldable pub split_inner : World → Pages → ℕ → ℕ → Option Page → Option Page → Option Outcome
unfolding Inner.new Inner.split Inner.insert brought update_all_parent_ptr
split_inner w x p c (some (inner n)) (some (inner m)) =
    if n.base.shared
    then some (shared_parent x)
    else if not (can_write n.base)
    then some (start_over x)
    else if not (can_write m.base)
    then some (start_over (put_inner x p n))
    else put (w.allocate_node x) (w.get_empty_page x)
  where
    put : Option ℕ → Option (ℕ × ℕ) → Option Outcome
    put none _ = some (waits x)
    put (some remote) none = some (waits x)
    put (some remote) (some (e, word)) =
        let fresh = Inner.new w.old_children w.old_keys m.base.level remote in
        let halves = Inner.split m fresh in
        let y = write x e (some (brought (inner halves.1) word p)) in
        let z = update_all_parent_ptr (halves.1.base.count + 1) halves.1 e y in
        some (start_over (put_inner (put_inner z p (Inner.insert n halves.2 e)) c halves.0))
split_inner w x p c _ _ = none

-- What a call does at the end of a descent, with the handlers for a remote leaf and for a leaf.
abbrev pub end_with :
    (Pages → ℕ → Option Outcome)
    → (Pages → ℕ → ℕ → Option Outcome)
    → (Pages → ℕ → ℕ → Option Outcome)
    → Option Ending
    → Option Outcome
end_with at_cold at_full at_end none = none
end_with at_cold at_full at_end (some (restart x)) = some (start_over x)
end_with at_cold at_full at_end (some (refresh x)) = some (refresh_first x)
end_with at_cold at_full at_end (some (refused x c)) = at_cold x c
end_with at_cold at_full at_end (some (full x p c)) = at_full x p c
end_with at_cold at_full at_end (some (at_leaf x p c)) = at_end x p c

-- The root is in memory, or it is loaded.
abbrev pub from_root : ℕ → Pages → Option Outcome → Option Outcome
from_root root pages rest = if has_bit root 63 then rest else some (load_root pages)

abbrev never : Bool → Bool
never _ = false

abbrev always : Bool → Bool
always _ = true

abbrev on_success : Bool → Bool
on_success success = success

unfoldable pub lookup : ℕ → World → Pages → ℕ → ℕ → Option Outcome
unfolding descend lookup_leaf at_remote find
lookup fuel w pages root k = from_root root pages (
    end_with (λ x c. at_remote (do_lookup k) never false k x c (x c)) (λ x p c. none)
      (λ x p c. lookup_leaf k x c (x c)) (descend fuel w false k pages root))

unfoldable pub update : ℕ → World → Pages → ℕ → ℕ → ℕ → Option Outcome
unfolding descend write_leaf at_remote Leaf.update
update fuel w pages root k v = from_root root pages (
    end_with (λ x c. at_remote (do_update k v) on_success false k x c (x c)) (λ x p c. none)
      (λ x p c. write_leaf (do_update k v) k x c (x c)) (descend fuel w false k pages root))

unfoldable pub remove : ℕ → World → Pages → ℕ → ℕ → Option Outcome
unfolding descend write_leaf at_remote Leaf.remove
remove fuel w pages root k = from_root root pages (
    end_with (λ x c. at_remote (do_remove k) on_success false k x c (x c)) (λ x p c. none)
      (λ x p c. write_leaf (do_remove k) k x c (x c)) (descend fuel w false k pages root))

unfoldable pub insert : ℕ → World → Pages → ℕ → ℕ → ℕ → Option Outcome
unfolding descend insert_leaf split_inner at_remote Leaf.insert
insert fuel w pages root k v = from_root root pages (
    end_with (λ x c. at_remote (do_insert k v) always true k x c (x c))
      (λ x p c. if p == super_root then some (assertion x) else split_inner w x p c (x p) (x c))
      (λ x p c. insert_leaf w k v x p c (x p) (x c)) (descend fuel w true k pages root))
