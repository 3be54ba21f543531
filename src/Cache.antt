-- ===== src/Cache.antt =====
-- How a page goes to the cooling table: the walk to a page with no child in memory
-- (`murmur64`, `recursive_iterate` of dex/include/cache/node_wr.h) and one round of `sample_page`, with the
-- tests of a parent and its child (dex/include/cache/leanstore_cache.h), for one thread that finds no other
-- at work on its pages. A page in memory is under its address with the top bit, a remote one under its
-- address. What `sample_page` hands to the cooling table stays in memory, locked.
pub mod Backed
pub mod Settle
pub mod Find
pub mod Leave
pub mod Taken
pub mod Sample
pub mod Flush
pub mod FlushLoop
pub mod FlushTree
pub mod Exclusive
use dex_partial.Base.{
  ℕ, zero, suc, ◌+◌, ◌*◌, ◌/◌, ◌%◌, ◌^◌, bit_xor, Bool, true, false, ◌&&◌, ◌||◌, not, ltb, ◌==◌,
  if◌then◌else◌, Option, none, some, write,
}
use dex_partial.Base.Bits.{has_bit}
use dex_partial.Base.Int.{ℤ, pos, negsuc}
use dex_partial.OptLock.{upgrade_to_write_lock_or_restart, write_unlock}
use dex_partial.BTree.Node.{NodeBase}
use dex_partial.BTree.Inner.{Inner, closest_set, find_idx, unset_bitmap}
use dex_partial.Rpc.{Page, inner, leaf}
use dex_partial.Tree.{
  Pages, base_of, with_base, hide, can_read, can_write, written, new_check_limit_match,
}
use dex_partial.Tree.Passes.{flushed}

unfoldable pub murmur64 : ℕ → ℕ
murmur64 k =
    let a = bit_xor k (k / 2 ^ 33) in
    let b = a * 18397679294719823053 % 2 ^ 64 in
    let c = bit_xor b (b / 2 ^ 33) in
    let d = c * 14181476777654086739 % 2 ^ 64 in bit_xor d (d / 2 ^ 33)

-- The name of the page in memory at an address.
abbrev pub hot_name : ℕ → ℕ
hot_name address = 2 ^ 63 + address

abbrev pub put_base : Pages → ℕ → Page → NodeBase → Pages
put_base pages name g b = write pages name (some (with_base g b))

abbrev pub lock_base : NodeBase → NodeBase
lock_base b = record b {
  lock_word = (upgrade_to_write_lock_or_restart b.lock_word b.lock_word false).0;
}

-- The end of the walk: `nullptr`, or a page that is locked for writing, with the index in its parent if the
-- walk came over that.
pub data Candidate : Type 0 where
  nothing : Pages → Candidate
  locked : Pages → ℕ → Page → Option ℕ → Candidate

iterate_next : Pages → (ℕ → Option ℕ → Option Candidate) → Inner → ℤ → Option Candidate
iterate_next pages rest n (negsuc _) = some (nothing pages)
iterate_next pages rest n (pos i) =
    if has_bit (n.children i) 63 then rest (n.children i) (some i) else none

iterate_down : Pages → (ℕ → Option ℕ → Option Candidate) → ℕ → Page → Option Candidate
unfolding iterate_next
iterate_down pages rest name (leaf l) = none
iterate_down pages rest name (inner n) =
    iterate_next pages rest n (closest_set n (murmur64 (hide name) % (n.base.count + 1)))

iterate_end : Pages → ℕ → Page → Option ℕ → Option Candidate
iterate_end pages name g idx =
    if not (can_write (base_of g))
    then some (nothing pages)
    else if (base_of g).pos_state == 2
    then some (locked pages name (with_base g (lock_base (base_of g))) idx)
    else some (nothing (put_base pages name g (written (base_of g))))

iterate_at :
    Pages → (ℕ → Option ℕ → Option Candidate) → ℕ → Option ℕ → Option Page → Option Candidate
unfolding iterate_down iterate_end
iterate_at pages rest name idx none = none
iterate_at pages rest name idx (some g) =
    if not (can_read (base_of g))
    then some (nothing pages)
    else if not ((base_of g).bitmap == 0)
    then iterate_down pages rest name g
    else iterate_end pages name g idx

-- `none` where the fuel runs out or an assertion fails.
unfoldable pub recursive_iterate : ℕ → Pages → ℕ → Option ℕ → Option Candidate
unfolding iterate_at
recursive_iterate zero pages name idx = none
recursive_iterate (suc fuel) pages name idx =
    iterate_at pages (recursive_iterate fuel pages) name idx (pages name)

match_at : Inner → NodeBase → Option ℕ → Bool
match_at parent child none = false
match_at parent child (some idx) = new_check_limit_match parent child idx

-- `target` is the child's name or its remote address.
unfoldable pub check_limit_match : Inner → NodeBase → ℕ → Bool
unfolding match_at
check_limit_match parent child target = match_at parent child (find_idx parent target)

-- The child is at the address that `name` has in memory.
unfoldable pub check_parent_child_info : Inner → NodeBase → ℕ → Bool
check_parent_child_info parent child name =
    if parent.base.level == 255
    then true
    else (parent.base.level == child.level + 1)
      && not
          (ltb child.min_limit parent.base.min_limit || ltb parent.base.max_limit child.max_limit)
      && (check_limit_match parent child name
          || check_limit_match parent child child.remote_address)

-- A round ends with a page for the cooling table, or at another try.
pub data Round : Type 0 where
  skipped : Pages → Round
  sampled : Pages → ℕ → Page → Round

-- The page as `remote_write` puts it on its memory node.
abbrev pub stored : Page → Page
stored g = with_base g (flushed (base_of g))

unfoldable pub write_back : Pages → Page → Pages
write_back pages g =
    if (base_of g).dirty then write pages (base_of g).remote_address (some (stored g)) else pages

-- The parent without the child at `idx` in memory.
unfoldable pub unswizzled : Inner → ℕ → ℕ → Inner
unfolding unset_bitmap
unswizzled n idx address =
    unset_bitmap (record n { base = written n.base; children = write n.children idx address }) idx

-- The page in the cooling table: it stays in memory, with its lock taken. The page that the table puts out in turn
-- is the result of `insert` in CoolingTable/Table, and is not followed here.
abbrev pub cooled : Page → Page
cooled g = with_base g (record (base_of g) { parent_ptr = 0; pos_state = 1; dirty = false })

abbrev pub with_cooled : Pages → ℕ → Page → Pages
with_cooled pages name g = write pages name (some (cooled g))

-- A page whose lock is taken, after `writeUnlock`.
abbrev pub unlock_base : NodeBase → NodeBase
unlock_base b = record b { lock_word = write_unlock b.lock_word }

sample_child : Pages → ℕ → Page → ℕ → Inner → Option ℕ → Option Round
sample_child pages name g p n none = none
sample_child pages name g p n (some idx) =
    if not (check_parent_child_info n (base_of g) name)
    then none
    else some (
        sampled
          (with_cooled
            (write_back (write pages p (some (inner (unswizzled n idx (base_of g).remote_address))))
              (with_base g (record (base_of g) { parent_ptr = 0 })))
            name g)
          name (cooled g))

abbrev pub or_found : Option ℕ → Option ℕ → Option ℕ
or_found none i = i
or_found (some i) _ = some i

sample_under : Pages → ℕ → Page → ℕ → Option ℕ → Option Page → Option Round
unfolding sample_child
sample_under pages name g p idx (some (inner n)) =
    if n.base.level == 255 || not (can_read n.base && can_write n.base)
    then some (skipped (put_base pages name g (unlock_base (base_of g))))
    else sample_child pages name g p n (or_found idx (find_idx n name))
sample_under pages name g p idx _ = none

sample_from : Candidate → Option Round
unfolding sample_under
sample_from (nothing pages) = some (skipped pages)
sample_from (locked pages name g idx) =
    if (base_of g).parent_ptr == 0
    then some (sampled (with_cooled (write_back pages g) name g) name (cooled g))
    else sample_under pages name g (hot_name (base_of g).parent_ptr) idx
        (pages (hot_name (base_of g).parent_ptr))

sample_iterated : Option Candidate → Option Round
unfolding sample_from
sample_iterated none = none
sample_iterated (some c) = sample_from c

sample_at : ℕ → Pages → ℕ → Option Page → Option Round
unfolding sample_iterated
sample_at fuel pages pick none = none
sample_at fuel pages pick (some g) =
    if (base_of g).pos_state == 2
    then sample_iterated (recursive_iterate fuel pages pick none)
    else some (skipped pages)

-- One round from the page that `random_select` names. `none` where it never ends or an assertion fails.
unfoldable pub sample_round : ℕ → Pages → ℕ → Option Round
unfolding sample_at
sample_round fuel pages pick = sample_at fuel pages pick (pages pick)

-- The rounds of `sample_page` over the pages that are picked, with the page at its end; the code leaves the
-- process, which is `none`, where none of 999 rounds gave one.
unfoldable pub sample_page : ℕ → ℕ → (ℕ → ℕ) → Pages → Option (Pages × ℕ × Page)
unfolding sample_round
sample_page zero fuel picks pages = none
sample_page (suc left) fuel picks pages =
    next (sample_page left fuel picks) (sample_round fuel pages (picks left))
  where
    next : (Pages → Option (Pages × ℕ × Page)) → Option Round → Option (Pages × ℕ × Page)
    next again none = none
    next again (some (sampled x c g)) = some (x, c, g)
    next again (some (skipped x)) = again x
