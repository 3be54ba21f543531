-- ===== src/OptLock/Threads.antt =====
-- Any number of threads over one node, interleaved at their atomic accesses of the lock word and at
-- their reads and writes of the node's cells. `events` counts the times that the write lock was taken or
-- released; it is not a variable of the program.
use dex_partial.Base.{ℕ, ◌+◌, ◌≡◌, true, false, ◌==◌, bit_and, Array, write, List, [], ◌∷◌}
use dex_partial.OptLock.{
  initial_word, is_io, read_lock_or_restart, upgrade_to_write_lock_or_restart,
  upgrade_to_io_lock_or_restart, write_lock_or_restart, io_lock_or_restart,
  io_upgrade_to_write_lock_or_restart, io_unlock, write_unlock, write_unlock_obsolete,
}

pub record Memory : Type 0 where
  pub word : ℕ
  pub cells : Array ℕ
  pub events : ℕ

-- A reader has the version that it read, the count of events at that time, and what it has read since.
-- `loaded` and `loaded_io` stand between the load and the compare-and-swap of a lock call, `io_loaded`
-- between the load and the store of `IOUpgradeToWriteLockOrRestart`.
pub data Pc : Type 0 where
  idle : Pc
  reading : ℕ → ℕ → List (ℕ × ℕ) → Pc
  loaded : ℕ → Pc
  loaded_io : ℕ → Pc
  writing : Pc
  io : Pc
  io_loaded : ℕ → Pc

pub data Move (m : Memory) : Pc → Memory → Pc → Type 0 where
  read : (read_lock_or_restart m.word false).1 ≡ false → Move m idle m (reading m.word m.events [])
  observe :
      {v s : ℕ} {seen : List (ℕ × ℕ)} (c : ℕ)
      → Move m (reading v s seen) m (reading v s ((c, m.cells c) ∷ seen))
  leave : {v s : ℕ} {seen : List (ℕ × ℕ)} → Move m (reading v s seen) m idle
  upgrade :
      {v s : ℕ} {seen : List (ℕ × ℕ)}
      → (upgrade_to_write_lock_or_restart m.word v false).2 ≡ false
      → Move m
          (reading v s seen)
          (record m {
            word = (upgrade_to_write_lock_or_restart m.word v false).0;
            events = m.events + 1;
          })
          writing
  upgrade_io :
      {v s : ℕ} {seen : List (ℕ × ℕ)}
      → (upgrade_to_io_lock_or_restart m.word v false).2 ≡ false
      → Move m
          (reading v s seen)
          (record m { word = (upgrade_to_io_lock_or_restart m.word v false).0 })
          io
  load : (bit_and m.word 7 == 0) ≡ true → Move m idle m (loaded m.word)
  take :
      {v : ℕ}
      → (write_lock_or_restart v m.word false).1 ≡ false
      → Move m
          (loaded v)
          (record m { word = (write_lock_or_restart v m.word false).0; events = m.events + 1 })
          writing
  fail : {v : ℕ} → Move m (loaded v) m idle
  load_io : (bit_and m.word 7 == 0) ≡ true → Move m idle m (loaded_io m.word)
  take_io :
      {v : ℕ}
      → (io_lock_or_restart v m.word false).1 ≡ false
      → Move m (loaded_io v) (record m { word = (io_lock_or_restart v m.word false).0 }) io
  fail_io : {v : ℕ} → Move m (loaded_io v) m idle
  store : (c x : ℕ) → Move m writing (record m { cells = write m.cells c x }) writing
  unlock : Move m writing (record m { word = write_unlock m.word; events = m.events + 1 }) idle
  unlock_obsolete :
      Move m writing (record m { word = write_unlock_obsolete m.word; events = m.events + 1 }) idle
  unlock_io : Move m io (record m { word = io_unlock m.word }) idle
  load_for_write : is_io m.word ≡ true → Move m io m (io_loaded m.word)
  store_for_write :
      {v : ℕ}
      → Move m
          (io_loaded v)
          (record m {
            word = (io_upgrade_to_write_lock_or_restart v m.word false).0;
            events = m.events + 1;
          })
          writing

pub record NodeState : Type 0 where
  pub node : Memory
  pub pc : Array Pc

pub data Step (s : NodeState) : NodeState → Type 0 where
  turn :
      (i : ℕ) {m : Memory} {p : Pc}
      → Move s.node (s.pc i) m p
      → Step s (record { node = m; pc = write s.pc i p })

-- A node as its constructor leaves it, with any contents.
abbrev pub start : Array ℕ → NodeState
start cells = record {
  node = record { word = initial_word; cells = cells; events = 0 };
  pc = λ _. idle;
}

pub data Reach (cells : Array ℕ) : NodeState → Type 0 where
  here : Reach cells (start cells)
  next : {s t : NodeState} → Reach cells s → Step s t → Reach cells t
