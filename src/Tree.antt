-- ===== src/Tree.antt =====
-- The descent of `insert`, `lookup`, `update` and `remove` of the tree (dex/include/tree/leanstore_tree.h)
-- with the page cache below it (dex/include/cache/leanstore_cache.h), for one thread that finds no other at
-- work on its pages. A page is under the value that its parent holds: with the top bit it is in memory,
-- without it is a remote page. No page is cooling, so that the page table has no entry for a remote child;
-- above level 1 a child that is not in memory is read, and no call is sent to the memory node instead. An
-- I/O section that changes nothing leaves the word as it was, and is left out.

pub mod Shape
pub mod Slots
pub mod Frame
pub mod Arrive
pub mod Descent
pub mod Ends
pub mod Walks
pub mod Passes
pub mod Leaves
pub mod Answers
pub mod Handlers
pub mod Acts
pub mod Calls
pub mod Divide
pub mod Halves
pub mod SplitLeaf
pub mod Adopt
pub mod SplitInner
pub mod Unlock
pub mod Inserts
pub mod Quiet
pub mod History
pub mod Scan
pub mod Cover
pub mod ScanPass
pub mod ScanCall
use dex_partial.Base.{
  ℕ, zero, suc, ◌+◌, ◌-◌, ◌%◌, ◌^◌, Bool, true, false, ◌&&◌, ◌||◌, not, ltb, leb, ◌==◌,
  if◌then◌else◌, Option, none, some, Array, write,
}
use dex_partial.Base.Bits.{has_bit}
use dex_partial.OptLock.{
  read_lock_or_restart, upgrade_to_write_lock_or_restart, upgrade_to_io_lock_or_restart, io_unlock,
  write_unlock,
}
use dex_partial.BTree.Node.{NodeBase, range_valid}
use dex_partial.BTree.Inner
use dex_partial.BTree.Inner.{Inner, is_full, set_bitmap}
use dex_partial.BTree.Leaf
use dex_partial.BTree.Leaf.{Leaf, max_entries, find}
use dex_partial.Rpc.{Page, inner, leaf}

abbrev pub Pages : Type 0
Pages = Array (Option Page)

abbrev pub base_of : Page → NodeBase
base_of (inner n) = n.base
base_of (leaf l) = l.base

abbrev pub with_base : Page → NodeBase → Page
with_base (inner n) b = inner (record n { base = b })
with_base (leaf l) b = leaf (record l { base = b })

abbrev pub set_parent : ℕ → Page → Page
set_parent x g = with_base g (record (base_of g) { parent_ptr = x })

-- The address of a page in memory, from the value that names it.
abbrev pub hide : ℕ → ℕ
hide name = name % 2 ^ 63

-- What the thread asks of the rest: an empty page with its locked word, by one try or by tries until one
-- succeeds, a remote page, the admission of a leaf, the part of the keys that the compute node keeps, and what the sibling buffer holds.
pub record World : Type 0 where
  pub try_get_empty_page : Pages → Option (ℕ × ℕ)
  pub get_empty_page : Pages → Option (ℕ × ℕ)
  pub allocate_node : Pages → Option ℕ
  pub admits : Bool
  pub buffer_min_limit : ℕ
  pub buffer_max_limit : ℕ
  pub old_entries : Array (ℕ × ℕ)
  pub old_children : Array ℕ
  pub old_keys : Array ℕ

-- The two limits of a child, from the keys of its parent.
abbrev pub slot_min : Inner → ℕ → ℕ
slot_min n idx = if idx == 0 then n.base.min_limit else n.keys (idx - 1)

abbrev pub slot_max : Inner → ℕ → ℕ
slot_max n idx = if idx == n.base.count then n.base.max_limit else n.keys idx

unfoldable pub new_check_limit_match : Inner → NodeBase → ℕ → Bool
new_check_limit_match n child idx =
    slot_min n idx == child.min_limit && slot_max n idx == child.max_limit

unfoldable pub fit_limits : World → NodeBase → Bool
fit_limits w b =
    if leb w.buffer_max_limit b.min_limit || ltb b.max_limit w.buffer_min_limit then false else true

-- A word with no thread in a write section, an I/O section or a removal.
abbrev pub can_read : NodeBase → Bool
can_read b = not (read_lock_or_restart b.lock_word false).1

abbrev pub can_write : NodeBase → Bool
can_write b = not (upgrade_to_write_lock_or_restart b.lock_word b.lock_word false).2

abbrev pub can_io : NodeBase → Bool
can_io b = not (upgrade_to_io_lock_or_restart b.lock_word b.lock_word false).2

-- The base after a write section, and after an I/O section, of this thread.
abbrev pub written : NodeBase → NodeBase
written b = record b {
  lock_word = write_unlock (upgrade_to_write_lock_or_restart b.lock_word b.lock_word false).0;
}

abbrev pub read_in : NodeBase → NodeBase
read_in b = record b {
  lock_word = io_unlock (upgrade_to_io_lock_or_restart b.lock_word b.lock_word false).0;
}

-- The page that was read into the empty page with the word `word`, as a child of the page `p`.
unfoldable pub brought : Page → ℕ → ℕ → Page
brought g word p =
    with_base g
      (record (base_of g) { lock_word = write_unlock word; parent_ptr = hide p; pos_state = 2 })

-- The parent once the child at `idx` is in memory under the name `e`.
unfoldable pub swizzled : Inner → ℕ → ℕ → Inner
unfolding set_bitmap
swizzled n idx e =
    let m = set_bitmap n idx in
    record m { base = read_in m.base; children = write m.children idx e }

-- Where the descent for a key ends: at a failed check, at a remote leaf that is not admitted, at a full
-- inner node and its parent, or at a leaf and its parent.
pub data Ending : Type 0 where
  restart : Pages → Ending
  refresh : Pages → Ending
  refused : Pages → ℕ → Ending
  full : Pages → ℕ → ℕ → Ending
  at_leaf : Pages → ℕ → ℕ → Ending

-- `simple_cold_to_hot` and `new_swizzling` with the empty page and the remote page: into memory as the
-- child `idx` of `n`, or back to the start; a page with another address holds the thread for good. The assertions on the
-- page that was read, that `pos_state` is 0 and `parent_ptr` null, are left out: `remote_write` clears both, and the page gets others here. `go` is the rest of the loop, from the child in memory.
unfoldable pub to_hot :
    World
    → Pages
    → ℕ
    → Inner
    → ℕ
    → (Pages → ℕ → Option Ending)
    → Option (ℕ × ℕ)
    → Option Page
    → Option Ending
unfolding new_check_limit_match fit_limits brought swizzled
to_hot w pages p n idx go none g = some (restart pages)
to_hot w pages p n idx go (some e) none = none
to_hot w pages p n idx go (some (e, word)) (some g) =
    if not (fit_limits w (base_of g)) || not (new_check_limit_match n (base_of g) idx)
    then some (refresh pages)
    else if not ((base_of g).remote_address == n.children idx)
    then none
    else go (write (write pages e (some (brought g word p))) p (some (inner (swizzled n idx e)))) e

-- `new_get_mem_node`, and what the loop does with a child that is not in memory. The sampling before it
-- (`opportunistic_sample`) is a round of `sample_page` (Cache), as is that of `try_get_empty_page`; they are not part of the pass.
unfoldable pub get_node :
    World → Pages → ℕ → Inner → ℕ → (Pages → ℕ → Option Ending) → Option Ending
unfolding to_hot
get_node w pages p n idx go =
    if has_bit (n.children idx) 63
    then go pages (n.children idx)
    else if not (can_io n.base)
    then some (restart pages)
    else if n.base.level == 1 && not w.admits
    then some (refused pages (n.children idx))
    else to_hot w pages p n idx go (w.try_get_empty_page pages) (pages (n.children idx))

-- The child `c` of `p` and its page: the end of a round of the loop and the head of the next one. `smo`
-- is the splitting of full inner nodes, which only `insert` does.
unfoldable pub visit :
    Bool → ℕ → (Pages → ℕ → Option Ending) → Pages → ℕ → Option Page → Option Ending
unfolding is_full
visit smo p rest pages c none = none
visit smo p rest pages c (some (leaf l)) =
    if can_read l.base then some (at_leaf pages p c) else some (restart pages)
visit smo p rest pages c (some (inner m)) =
    if not (can_read m.base)
    then some (restart pages)
    else if smo && is_full m && not m.base.shared
    then some (full pages p c)
    else rest pages c

-- The loop from the inner page `p`; `none` if the fuel runs out or there is no page.
unfoldable pub walk : ℕ → World → Bool → ℕ → Pages → ℕ → Option Ending
unfolding Inner.lower_bound get_node visit
walk zero w smo k pages p = none
walk (suc fuel) w smo k pages p = at_page (walk fuel w smo k) (pages p)
  where
    at_page : (Pages → ℕ → Option Ending) → Option Page → Option Ending
    at_page rest (some (inner n)) =
        get_node w pages p n (Inner.lower_bound n k) (λ x c. visit smo p rest x c (x c))
    at_page rest _ = none
