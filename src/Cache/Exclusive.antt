-- ===== src/Cache/Exclusive.antt =====
-- `get_exclusive_node` and `unswizzling` (dex/include/cache/leanstore_cache.h): a page of the page table is taken for a new
-- parent, from the cooling table or from its parent.
pub mod Refused
pub mod Granted
use dex_partial.Base.{ℕ, Bool, true, false, not, ◌==◌, if◌then◌else◌, Option, none, some, write}
use dex_partial.OptLock.{write_lock_or_restart, write_unlock}
use dex_partial.BTree.Node.{NodeBase}
use dex_partial.BTree.Inner.{Inner, find_idx, unset_bitmap}
use dex_partial.Rpc.{Page, inner, leaf}
use dex_partial.Tree.{Pages, base_of, with_base}
use dex_partial.Cache.{hot_name, put_base, check_parent_child_info}

-- The call ends without the page, or with the page locked.
pub data Attempt : Type 0 where
  failed : Pages → Attempt
  exclusive : Pages → Attempt

-- The word after `writeLockOrRestart`, and whether it failed; then the word after the unlock.
abbrev pub lock_fails : NodeBase → Bool
lock_fails b = (write_lock_or_restart b.lock_word b.lock_word false).1

abbrev pub locked_base : NodeBase → NodeBase
locked_base b = record b { lock_word = (write_lock_or_restart b.lock_word b.lock_word false).0 }

abbrev pub unlocked_base : NodeBase → NodeBase
unlocked_base b = record b {
  lock_word = write_unlock (write_lock_or_restart b.lock_word b.lock_word false).0;
}

-- The parent, which is locked, after `unswizzling` and its unlock.
unfoldable pub unswizzling : Inner → ℕ → ℕ → Inner
unfolding unset_bitmap
unswizzling n child_idx address =
    unset_bitmap
      (record n { base = unlocked_base n.base; children = write n.children child_idx address })
      child_idx

from_parent : Pages → ℕ → Page → ℕ → Inner → Option ℕ → Option Attempt
from_parent pages name g q n none = none
from_parent pages name g q n (some idx) = some (
    exclusive (
      put_base (write pages q (some (inner (unswizzling n idx (base_of g).remote_address)))) name g
        (record (locked_base (base_of g)) { parent_ptr = 0 })))

at_parent : ℕ → Pages → ℕ → Page → ℕ → Option Page → Option Attempt
unfolding from_parent
at_parent seen pages name g q (some (inner n)) =
    if lock_fails n.base
    then some (failed (put_base pages name g (unlocked_base (base_of g))))
    else if not (seen == (base_of g).parent_ptr)
    then some (
        failed (
          put_base (write pages q (some (inner (record n { base = unlocked_base n.base })))) name g
            (unlocked_base (base_of g))))
    else if not (check_parent_child_info n (base_of g) name)
    then none
    else from_parent pages name g q n (find_idx n name)
at_parent seen pages name g q _ = none

exclusive_hot : ℕ → Pages → ℕ → Page → Option Attempt
unfolding at_parent
exclusive_hot seen pages name g =
    if lock_fails (base_of g)
    then some (failed pages)
    else if (base_of g).parent_ptr == 0
    then some (exclusive (put_base pages name g (locked_base (base_of g))))
    else at_parent seen pages name g (hot_name (base_of g).parent_ptr)
        (put_base pages name g (locked_base (base_of g)) (hot_name (base_of g).parent_ptr))

exclusive_at : Bool → ℕ → Pages → ℕ → Option Page → Option Attempt
unfolding exclusive_hot
exclusive_at promoted seen pages name none = none
exclusive_at promoted seen pages name (some g) =
    if (base_of g).pos_state == 1
    then some (if promoted then exclusive pages else failed pages)
    else if (base_of g).pos_state == 2
    then exclusive_hot seen pages name g
    else some (failed pages)

-- `promoted` is the answer of the cooling table, and `seen` the pointer to the parent when the parent is locked. `none` where the
-- call never ends or an assertion fails.
unfoldable pub get_exclusive_node : Bool → ℕ → Pages → ℕ → Option Attempt
unfolding exclusive_at
get_exclusive_node promoted seen pages name = exclusive_at promoted seen pages name (pages name)
