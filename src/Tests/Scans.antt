-- ===== src/Tests/Scans.antt =====
-- Scans of the trees of Tests/Trees.
use dex_partial.Base.{ℕ, ◌-◌, ◌^◌, ◌≡◌, ◌≤◌, refl, arith, Option, none, some}
use dex_partial.OptLock
use dex_partial.BTree.Search
use dex_partial.BTree.Node.{range_valid}
use dex_partial.Tree.Scan.{Cursor, ScanEnd, scanned, scan_pass, scan_all}
use dex_partial.Tree.ScanPass.{Ends}
use dex_partial.Tree.ScanCall.{scan_pass-Scans, scan_all-scanned}
use dex_partial.Tests.Trees.{tree, root, world, lawful, stands, quiet_tree, quiet, quiet_good}

program : Unit {0}
unfolding scan_pass scan_all range_valid Search.lower_bound OptLock.read_lock_or_restart
    OptLock.upgrade_to_io_lock_or_restart OptLock.write_unlock
    OptLock.upgrade_to_write_lock_or_restart OptLock.io_unlock
program = tt

abbrev from : ℕ → Cursor
from k = record { key = k; cur_num = 0; kv_buffer = λ _. (0, 0) }

abbrev result : Option ScanEnd → Option (ℕ × (ℕ × ℕ) × (ℕ × ℕ))
result (some (scanned x c)) = some (c.cur_num, c.kv_buffer 0, c.kv_buffer 1)
result _ = none

-- Two entries of one leaf.
in_one_leaf : result (scan_all 2 0 9 2 world quiet_tree root (from 10)) ≡ some (2, (10, 7), (20, 8))
unfolding program
in_one_leaf = refl

scan_pass-Scans_example :
    Ends 2 0 tree root 0 (2 ^ 64 - 1) (from 200) (scan_pass 2 0 1 world tree root (from 200))
scan_pass-Scans_example =
    scan_pass-Scans 2 0 0 world tree root 0 (2 ^ 64 - 1) (from 200) lawful
      (stands 200 (omega arith) (omega arith)) refl (omega arith)

-- The last ten keys.
scan_all-scanned_example :
    (c : Cursor) × (scan_all 2 0 10 1 world quiet_tree root (from (2 ^ 64 - 10))
      ≡ some (scanned quiet_tree c))
    × (c.cur_num ≤ 2)
scan_all-scanned_example =
    scan_all-scanned 2 0 0 world quiet_tree root 0 quiet refl 10 (from (2 ^ 64 - 10)) quiet_good
      (omega arith) (omega arith) (omega arith) (omega arith)
