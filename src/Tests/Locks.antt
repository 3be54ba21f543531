-- ===== src/Tests/Locks.antt =====
-- Interleavings of threads over one reader-writer lock.
use dex_partial.Base.{◌≡◌, ◌≢◌, ◌↔◌, refl, arith, true, none, [], ◌∷◌}
use dex_partial.WrLock.{is_unlock, try_w_lock, try_r_lock, r_unlock, w_unlock}
use dex_partial.WrLock.Threads.{
  idle, writing, reading, trying_w, trying_r, load_w, load_r, take_w, take_r, retry_w, load_leave,
  leave, LockState, turn, Reach, start, later, write_of, read_of, total, InStep, Reach-InStep,
  free_iff,
}

program : Unit {0}
unfolding is_unlock try_w_lock try_r_lock r_unlock w_unlock
program = tt

-- Thread 0 reads while thread 1 has loaded the free word for a write, and loads it again.
one_reader : (s : LockState) × Reach 2 s
unfolding program
one_reader = (
  _,
  later
      (later (later (later start (turn [] (idle ∷ []) load_r)) (turn (trying_r 0 ∷ []) [] load_w))
        (turn [] (trying_w 0 ∷ []) (take_r refl)))
      (turn (reading ∷ []) [] (retry_w refl)),
)

-- Thread 0 leaves, and thread 1 tries once more and writes.
one_writer : (s : LockState) × Reach 2 s
unfolding program one_reader
one_writer = (
  _,
  later
      (later
        (later (later one_reader.1 (turn [] (trying_w 2 ∷ []) load_leave))
          (turn [] (trying_w 2 ∷ []) (leave refl)))
        (turn (idle ∷ []) [] (retry_w refl)))
      (turn (idle ∷ []) [] (take_w refl)),
)

ends_writing : one_writer.0 ≡ record { word = 1; threads = idle ∷ writing ∷ [] }
unfolding program one_writer
ends_writing = refl

Reach-InStep_example : InStep 2 one_writer.0.word one_writer.0.threads
Reach-InStep_example = Reach-InStep 2 (omega arith) one_writer.1

free_iff_example :
    ((is_unlock one_reader.0.word ≡ true)
      ↔ ((total write_of one_reader.0.threads ≡ 0) × (total read_of one_reader.0.threads ≡ 0)))
    × ((try_w_lock one_reader.0.word one_reader.0.word ≢ none)
        ↔ ((total write_of one_reader.0.threads ≡ 0) × (total read_of one_reader.0.threads ≡ 0)))
    × ((try_r_lock one_reader.0.word one_reader.0.word ≢ none)
        ↔ (total write_of one_reader.0.threads ≡ 0))
free_iff_example = free_iff 2 (omega arith) one_reader.1
