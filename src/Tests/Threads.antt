-- ===== src/Tests/Threads.antt =====
-- Interleavings of threads over one node.
use dex_partial.Base.{ℕ, ◌+◌, ◌≡◌, refl, arith, false, Array, [], ◌∷◌}
use dex_partial.OptLock.{
  is_locked, is_obsolete, read_lock_or_restart, read_unlock_or_restart, write_lock_or_restart,
  write_unlock_obsolete,
}
use dex_partial.OptLock.Threads.{
  read, observe, load, take, fail, store, unlock_obsolete, NodeState, turn, Reach, here, next,
}
use dex_partial.OptLock.Invariant.{Current}
use dex_partial.OptLock.Safety.{mutual_exclusion, checked_read-Current, obsolete_frozen}

program : Unit {0}
unfolding is_locked is_obsolete read_lock_or_restart read_unlock_or_restart write_lock_or_restart
    write_unlock_obsolete
program = tt

abbrev cells : Array ℕ
cells c = c + 7

-- A run from the start to a last state.
abbrev Run : Type 0
Run = (s : NodeState) × Reach cells s

-- Thread 0 reads the version and then cell 3.
read_once : Run
unfolding program
read_once = (_, next (next here (turn 0 (read refl))) (turn 0 (observe 3)))

-- Threads 0 and 1 load the free word; thread 0 wins the exchange and writes a cell.
written : Run
unfolding program
written = (
  _,
  next (next (next (next here (turn 0 (load refl))) (turn 1 (load refl))) (turn 0 (take refl)))
      (turn 0 (store 3 99)),
)

-- Thread 0 then marks the page obsolete.
retired : Run
unfolding program written
retired = (_, next written.1 (turn 0 unlock_obsolete))

mutual_exclusion_example : ◌≡◌ {A = ℕ} 0 0
unfolding written
mutual_exclusion_example = mutual_exclusion written.1 0 0 refl refl

checked_read-Current_example :
    Current read_once.0.node.cells ((3, 10) ∷ [])
    × (0 ≡ read_once.0.node.events)
    × (is_locked read_once.0.node.word ≡ false)
unfolding read_once
checked_read-Current_example =
    checked_read-Current {v = 8} {begun = 0} {seen = (3, 10) ∷ []} read_once.1 0 refl (omega arith)
      refl

obsolete_frozen_run :
    (retired.0.node.word ≡ retired.0.node.word) × (retired.0.node.cells ≡ retired.0.node.cells)
unfolding retired
obsolete_frozen_run = obsolete_frozen retired.1 refl (turn 1 fail)
