-- ===== src/Tree/Scan.antt =====
-- `range_scan` of the tree (dex/include/tree/leanstore_tree.h): one pass, from the label `restart` to the next `goto restart`
-- or the return, and the call as a run of passes.
use dex_partial.Base.{
  ℕ, zero, suc, ◌+◌, ◌-◌, false, ◌||◌, not, ◌==◌, if◌then◌else◌, Option, none, some, Array, add64,
  sub64,
}
use dex_partial.Base.Bits.{has_bit}
use dex_partial.BTree.Node.{range_valid, key_max}
use dex_partial.BTree.Leaf.{Leaf, range_scan}
use dex_partial.Rpc.{Page, leaf}
use dex_partial.Tree.{Pages, World, Ending, restart, refresh, refused, full, at_leaf}
use dex_partial.Tree.Passes.{descend}

-- Where the scan goes on, how many entries it has, and the caller's buffer.
pub record Cursor : Type 0 where
  pub key : ℕ
  pub cur_num : ℕ
  pub kv_buffer : Array (ℕ × ℕ)

pub data ScanEnd : Type 0 where
  scanned : Pages → Cursor → ScanEnd
  goes_on : Pages → Cursor → ScanEnd
  refreshes : Pages → Cursor → ScanEnd
  loads_root : Pages → Cursor → ScanEnd

module _ (num right_bound : ℕ) where
  -- The scan of one leaf, whose key range holds the key, and the test after it.
  unfoldable pub scan_on : Pages → Cursor → Leaf ℕ → ScanEnd
  unfolding range_scan
  scan_on x cur l =
      let r = range_scan l cur.key (num - cur.cur_num) cur.kv_buffer in
      let cur_num = cur.cur_num + r.0 in
      if l.base.max_limit == key_max || l.base.max_limit == sub64 right_bound 1 || cur_num == num
      then scanned x (record cur { cur_num = cur_num; kv_buffer = r.1 })
      else goes_on x (record { key = add64 l.base.max_limit 1; cur_num = cur_num; kv_buffer = r.1 })

  -- A remote leaf that is not admitted (`cold_to_hot_with_admission_for_scan`).
  unfoldable pub scan_remote : Pages → Cursor → Option Page → Option ScanEnd
  unfolding scan_on range_valid
  scan_remote x cur (some (leaf l)) =
      if not (range_valid l.base cur.key) then some (goes_on x cur) else some (scan_on x cur l)
  scan_remote x cur _ = none

  unfoldable pub scan_leaf : Pages → Cursor → Option Page → Option ScanEnd
  unfolding scan_on range_valid
  scan_leaf x cur (some (leaf l)) =
      if not (range_valid l.base cur.key) then some (refreshes x cur) else some (scan_on x cur l)
  scan_leaf x cur _ = none

  unfoldable pub scan_at : Cursor → Option Ending → Option ScanEnd
  unfolding scan_remote scan_leaf
  scan_at cur none = none
  scan_at cur (some (restart x)) = some (goes_on x cur)
  scan_at cur (some (refresh x)) = some (refreshes x cur)
  scan_at cur (some (refused x c)) = scan_remote x cur (x c)
  scan_at cur (some (full x p c)) = none
  scan_at cur (some (at_leaf x p c)) = scan_leaf x cur (x c)

  unfoldable pub scan_pass : ℕ → World → Pages → ℕ → Cursor → Option ScanEnd
  unfolding scan_at descend
  scan_pass fuel w pages root cur =
      if has_bit root 63
      then scan_at cur (descend fuel w false cur.key pages root)
      else some (loads_root pages cur)

  -- The call, with at most so many passes over one view of the rest; it does not follow a pass that has to refresh or to load
  -- the root.
  unfoldable pub scan_all : ℕ → ℕ → World → Pages → ℕ → Cursor → Option ScanEnd
  unfolding scan_pass
  scan_all zero fuel w pages root cur = some (goes_on pages cur)
  scan_all (suc passes) fuel w pages root cur =
      next (scan_all passes fuel w) (scan_pass fuel w pages root cur)
    where
      next : (Pages → ℕ → Cursor → Option ScanEnd) → Option ScanEnd → Option ScanEnd
      next again (some (goes_on x cur')) = again x root cur'
      next again o = o
