-- ===== src/WrLock/Threads.antt =====
-- Threads over one `WRLock` (dex/include/WRLock.h), interleaved at their loads, exchanges and stores of the
-- word, and what the word says of them.
use dex_partial.Base.{
  ℕ, zero, suc, ◌+◌, ◌*◌, ◌^◌, ◌≤◌, ◌<◌, ◌≡◌, ◌≢◌, ◌⊎◌, ◌↔◌, inl, refl, arith, true, none, some,
  List, [], ◌∷◌, ◌++◌,
}
use dex_partial.WrLock.{unlocked, is_unlock, try_w_lock, try_r_lock, r_unlock, w_unlock}

-- Between a load and the exchange that follows it a thread has the word that it loaded.
pub data Pc : Type 0 where
  idle writing reading : Pc
  trying_w trying_r leaving : ℕ → Pc

-- One access of a thread: the word and the thread before it and after it.
pub data Access (w : ℕ) : Pc → ℕ → Pc → Type 0 where
  load_w : Access w idle w (trying_w w)
  load_r : Access w idle w (trying_r w)
  take_w : {v w' : ℕ} → try_w_lock v w ≡ some w' → Access w (trying_w v) w' writing
  take_r : {v w' : ℕ} → try_r_lock v w ≡ some w' → Access w (trying_r v) w' reading
  retry_w : {v : ℕ} → try_w_lock v w ≡ none → Access w (trying_w v) w (trying_w w)
  retry_r : {v : ℕ} → try_r_lock v w ≡ none → Access w (trying_r v) w (trying_r w)
  give_up_w : {v : ℕ} → try_w_lock v w ≡ none → Access w (trying_w v) w idle
  give_up_r : {v : ℕ} → try_r_lock v w ≡ none → Access w (trying_r v) w idle
  load_leave : Access w reading w (leaving w)
  leave : {v w' : ℕ} → r_unlock v w ≡ some w' → Access w (leaving v) w' idle
  retry_leave : {v : ℕ} → r_unlock v w ≡ none → Access w (leaving v) w (leaving w)
  unlock : Access w writing (w_unlock w) idle

pub record LockState : Type 0 where
  pub word : ℕ
  pub threads : List Pc

pub data Step (word : ℕ) : List Pc → LockState → Type 0 where
  turn :
      (before after : List Pc) {p p' : Pc} {w : ℕ}
      → Access word p w p'
      → Step word (before ++ p ∷ after) (record { word = w; threads = before ++ p' ∷ after })

abbrev pub all_idle : ℕ → List Pc
all_idle zero = []
all_idle (suc n) = idle ∷ all_idle n

pub data Reach (n : ℕ) : LockState → Type 0 where
  start : Reach n (record { word = unlocked; threads = all_idle n })
  later : {s t : LockState} → Reach n s → Step s.word s.threads t → Reach n t

-- How many write, and how many read or are about to leave.
abbrev pub write_of : Pc → ℕ
write_of writing = 1
write_of _ = 0

abbrev pub read_of : Pc → ℕ
read_of reading = 1
read_of (leaving v) = 1
read_of _ = 0

abbrev pub total : (Pc → ℕ) → List Pc → ℕ
total f [] = 0
total f (p ∷ ps) = f p + total f ps

total-append : (f : Pc → ℕ) (a b : List Pc) → total f (a ++ b) ≡ total f a + total f b
total-append f [] b = omega arith
total-append f (p ∷ a) b = omega (arith, total-append f a b)

-- The word counts the readers twice and a writer once, and a writer is alone.
pub record Counts (n w writers readers size : ℕ) : Type 0 where
  pub says : w ≡ writers + 2 * readers
  pub alone : (writers ≡ 0) ⊎ ((writers ≡ 1) × (readers ≡ 0))
  pub sized : size ≡ n
  pub few : writers + readers ≤ size

abbrev pub one : Pc → ℕ
one p = 1

abbrev pub InStep : ℕ → ℕ → List Pc → Type 0
InStep n w ps = Counts n w (total write_of ps) (total read_of ps) (total one ps)

-- A move among the other threads, of which `ws` write and `rs` read.
move-Counts :
    (n w ws rs size : ℕ) {p p' : Pc} {w' : ℕ}
    → n < 2 ^ 15
    → ws + rs ≤ size
    → Access w p w' p'
    → Counts n w (ws + write_of p) (rs + read_of p) (size + 1)
    → Counts n w' (ws + write_of p') (rs + read_of p') (size + 1)
unfolding try_w_lock try_r_lock r_unlock w_unlock
move-Counts n w ws rs size small z load_w c = ground arith
move-Counts n w ws rs size small z load_r c = ground arith
move-Counts n w ws rs size small z (take_w h) c = ground arith
move-Counts n w ws rs size small z (take_r h) c = ground arith
move-Counts n w ws rs size small z (retry_w h) c = ground arith
move-Counts n w ws rs size small z (retry_r h) c = ground arith
move-Counts n w ws rs size small z (give_up_w h) c = ground arith
move-Counts n w ws rs size small z (give_up_r h) c = ground arith
move-Counts n w ws rs size small z load_leave c = ground arith
move-Counts n w ws rs size small z (leave h) c = ground arith
move-Counts n w ws rs size small z (retry_leave h) c = ground arith
move-Counts n w ws rs size small z unlock c = ground arith

-- A thread writes or reads or does neither.
held_once : (ps : List Pc) → total write_of ps + total read_of ps ≤ total one ps
held_once [] = omega arith
held_once (idle ∷ ps) = omega (arith, held_once ps)
held_once (writing ∷ ps) = omega (arith, held_once ps)
held_once (reading ∷ ps) = omega (arith, held_once ps)
held_once (trying_w v ∷ ps) = omega (arith, held_once ps)
held_once (trying_r v ∷ ps) = omega (arith, held_once ps)
held_once (leaving v ∷ ps) = omega (arith, held_once ps)

total-split : (f : Pc → ℕ) (a b : List Pc) (p : Pc) → total f (a ++ p ∷ b) ≡ total f (a ++ b) + f p
total-split f a b p = omega (arith, total-append f a (p ∷ b), total-append f a b)

Step-InStep :
    (n w : ℕ) {ps : List Pc} {t : LockState}
    → n < 2 ^ 15
    → Step w ps t
    → InStep n w ps
    → InStep n t.word t.threads
Step-InStep n w small (turn before after {p} {p'} mv) c =
    rw
      (
        total-split write_of before after p',
        total-split read_of before after p',
        total-split one before after p',
      )
      (move-Counts n w (total write_of (before ++ after)) (total read_of (before ++ after))
        (total one (before ++ after)) small (held_once (before ++ after)) mv
        (rw
          (
            ← total-split write_of before after p,
            ← total-split read_of before after p,
            ← total-split one before after p,
          )
          c))

idle-InStep : (n : ℕ) → InStep n unlocked (all_idle n)
idle-InStep zero = record { says = refl; alone = inl refl; sized = refl; few = omega arith }
idle-InStep (suc n) = let c = idle-InStep n in ground (arith, c.sized, c.alone, c.says, c.few)

-- Fewer than 2 ^ 15 threads over one lock, in any order of their accesses: the word is the number of writers
-- and twice the number of readers, a thread that writes is the only one that writes or reads, and no thread is lost.
pub Reach-InStep : (n : ℕ) {s : LockState} → n < 2 ^ 15 → Reach n s → InStep n s.word s.threads
Reach-InStep n small start = idle-InStep n
Reach-InStep n small (later {s} r step) = Step-InStep n s.word small step (Reach-InStep n small r)

-- With fewer than 2 ^ 15 threads, what a thread finds if no other comes between its load and its exchange: `is_unlock`
-- holds, and `try_wLock` takes the lock, exactly when no thread writes or reads, and `try_rLock` takes it
-- exactly when no thread writes.
pub free_iff :
    (n : ℕ) {s : LockState}
    → n < 2 ^ 15
    → Reach n s
    → ((is_unlock s.word ≡ true) ↔ ((total write_of s.threads ≡ 0) × (total read_of s.threads ≡ 0)))
      × ((try_w_lock s.word s.word ≢ none)
          ↔ ((total write_of s.threads ≡ 0) × (total read_of s.threads ≡ 0)))
      × ((try_r_lock s.word s.word ≢ none) ↔ (total write_of s.threads ≡ 0))
unfolding is_unlock try_w_lock try_r_lock
free_iff n {s} small r = let c = Reach-InStep n small r in ground (arith, c.says, c.alone)
