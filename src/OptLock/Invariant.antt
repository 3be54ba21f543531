-- ===== src/OptLock/Invariant.antt =====
-- The invariant of the threads: true at the start and kept by every move.
use dex_partial.Base.{
  ℕ, ◌+◌, ◌/◌, ◌%◌, ◌^◌, ◌≤◌, ◌<◌, ◌≡◌, ◌≢◌, refl, arith, Bool, true, false, ◌==◌, List, [], ◌∷◌,
  Array, write, Bool-cases, inl, inr,
}
use dex_partial.OptLock.{io_unlock, write_unlock, write_unlock_obsolete}
use dex_partial.OptLock.Words.{
  is_free_lem, upgrade_ok, upgrade_io_ok, take_ok, take_io_ok, io_take_ok, read_ok,
}
use dex_partial.OptLock.Threads.{
  Memory, Pc, idle, reading, loaded, loaded_io, writing, io, io_loaded, Move, read, observe, leave,
  upgrade, upgrade_io, load, take, fail, load_io, take_io, fail_io, store, unlock, unlock_obsolete,
  unlock_io, load_for_write, store_for_write, NodeState, turn, Reach, here, next,
}

abbrev pub exclusive : Pc → Bool
exclusive writing = true
exclusive io = true
exclusive (io_loaded _) = true
exclusive _ = false

-- Every value that was read is the one that the cell holds.
abbrev pub Current : Array ℕ → List (ℕ × ℕ) → Type 0
Current cells [] = Unit
Current cells ((c, x) ∷ seen) = (cells c ≡ x) × Current cells seen

-- What the locals of a thread say about the memory.
abbrev pub Fits : Memory → Pc → Type 0
Fits m idle = Unit
Fits m (reading v s seen) =
    (v / 2 % 4 ≡ 0)
    × (v < 2 ^ 64)
    × (v / 4 ≡ (2 + s) % 2 ^ 62)
    × (s ≤ m.events)
    × (s ≡ m.events → Current m.cells seen)
Fits m (loaded v) = (v % 8 ≡ 0) × (v < 2 ^ 64)
Fits m (loaded_io v) = (v % 8 ≡ 0) × (v < 2 ^ 64)
Fits m writing = m.word % 8 ≡ 4
Fits m io = m.word % 8 ≡ 1
Fits m (io_loaded v) = (m.word % 8 ≡ 1) × (v ≡ m.word)

pub record Inv (m : Memory) (pc : Array Pc) : Type 0 where
  pub small : m.word < 2 ^ 64
  pub counted : m.word / 4 ≡ (2 + m.events) % 2 ^ 62
  pub fits : (i : ℕ) → Fits m (pc i)
  pub unique : (i j : ℕ) → exclusive (pc i) ≡ true → exclusive (pc j) ≡ true → i ≡ j

module _ {m : Memory} {pc : Array Pc} (inv : Inv m pc) (i : ℕ) where
  -- The word after a move of thread `i`, and what the thread then knows.
  record After (m' : Memory) (p' : Pc) : Type 0 where
    pub small : m'.word < 2 ^ 64
    counted : m'.word / 4 ≡ (2 + m'.events) % 2 ^ 62
    own : Fits m' p'

  Move-After : {p p' : Pc} {m' : Memory} → Move m p m' p' → Fits m p → After m' p'
  Move-After (read h) f =
      let r = read_ok m.word h in
      record {
        small = inv.small;
        counted = inv.counted;
        own = (r, inv.small, inv.counted, omega arith, λ _. tt);
      }
  Move-After (observe c) f = record {
    small = inv.small;
    counted = inv.counted;
    own = (f.0, f.1, f.2, f.3, λ e. (refl, f.4 e));
  }
  Move-After leave f = record { small = inv.small; counted = inv.counted; own = tt }
  Move-After (upgrade {v} h) f =
      let r = upgrade_ok m.word v h in
      record {
        small = ground (arith, r);
        counted = ground (arith, r, inv.small, inv.counted);
        own = ground (arith, r, inv.small);
      }
  Move-After (upgrade_io {v} h) f =
      let r = upgrade_io_ok m.word v h in
      record {
        small = ground (arith, r);
        counted = ground (arith, r, inv.small, inv.counted);
        own = ground (arith, r, inv.small);
      }
  Move-After (load h) f = record {
    small = inv.small;
    counted = inv.counted;
    own = (ground (arith, is_free_lem m.word), inv.small);
  }
  Move-After (take {v} h) f =
      let r = take_ok m.word v h in
      record {
        small = ground (arith, r);
        counted = ground (arith, r, inv.small, inv.counted);
        own = ground (arith, r, inv.small);
      }
  Move-After fail f = record { small = inv.small; counted = inv.counted; own = tt }
  Move-After (load_io h) f = record {
    small = inv.small;
    counted = inv.counted;
    own = (ground (arith, is_free_lem m.word), inv.small);
  }
  Move-After (take_io {v} h) f =
      let r = take_io_ok m.word v h in
      record {
        small = ground (arith, r);
        counted = ground (arith, r, inv.small, inv.counted);
        own = ground (arith, r, inv.small);
      }
  Move-After fail_io f = record { small = inv.small; counted = inv.counted; own = tt }
  Move-After (store c x) f = record { small = inv.small; counted = inv.counted; own = f }
  Move-After unlock f = record {
    small = unfold write_unlock in omega arith;
    counted = unfold write_unlock in omega (arith, inv.small, inv.counted);
    own = tt;
  }
  Move-After unlock_obsolete f = record {
    small = unfold write_unlock_obsolete in omega arith;
    counted = unfold write_unlock_obsolete in omega (arith, inv.small, inv.counted);
    own = tt;
  }
  Move-After unlock_io f = record {
    small = unfold io_unlock in omega arith;
    counted = unfold io_unlock in omega (arith, inv.small, inv.counted);
    own = tt;
  }
  Move-After (load_for_write h) f = record {
    small = inv.small;
    counted = inv.counted;
    own = (f, refl);
  }
  Move-After (store_for_write {v}) f =
      let r = io_take_ok m.word v (omega arith) in
      record {
        small = ground (arith, r);
        counted = ground (arith, r, inv.small, inv.counted);
        own = ground (arith, r, inv.small);
      }

  -- A thread that takes a lock found no lock set, so that no other thread is in a section.
  Taken : (q : Pc) → m.word % 8 ≡ 0 → Fits m q → exclusive q ≡ false
  Taken idle h f = refl
  Taken (reading v s seen) h f = refl
  Taken (loaded v) h f = refl
  Taken (loaded_io v) h f = refl
  Taken writing h f = absurd (omega arith)
  Taken io h f = absurd (omega arith)
  Taken (io_loaded v) h f = absurd (omega arith)

  -- A thread outside of every section keeps what it knows when the word changes and events are added.
  Fits-grow :
      (q : Pc) (w e : ℕ)
      → m.events ≤ e
      → exclusive q ≡ false
      → Fits m q
      → Fits (record m { word = w; events = e }) q
  Fits-grow idle w e g x f = tt
  Fits-grow (reading v s seen) w e g x f =
      (f.0, f.1, f.2, omega (arith, f.3), λ z. f.4 (omega (arith, f.3)))
  Fits-grow (loaded v) w e g x f = f
  Fits-grow (loaded_io v) w e g x f = f
  Fits-grow writing w e g x f = cc
  Fits-grow io w e g x f = cc
  Fits-grow (io_loaded v) w e g x f = cc

  -- A write to a cell is made while the count of events is odd, so that no reader counts on it.
  Fits-store :
      (q : Pc) (c x : ℕ)
      → m.word % 8 ≡ 4
      → exclusive q ≡ false
      → Fits m q
      → Fits (record m { cells = write m.cells c x }) q
  Fits-store idle c x w z f = tt
  Fits-store (reading v s seen) c x w z f =
      (f.0, f.1, f.2, f.3, λ e. absurd (omega (arith, inv.counted, f.0, f.2)))
  Fits-store (loaded v) c x w z f = f
  Fits-store (loaded_io v) c x w z f = f
  Fits-store writing c x w z f = cc
  Fits-store io c x w z f = cc
  Fits-store (io_loaded v) c x w z f = cc

  -- What a move leaves of another thread's knowledge, and that two threads are not in a section.
  record Other (m' : Memory) (p' q : Pc) : Type 0 where
    fits : Fits m' q
    apart : exclusive p' ≡ true → exclusive q ≡ true → ⊥

  -- The mover held no lock and takes one.
  acquired :
      (p' q : Pc) (w e : ℕ)
      → m.word % 8 ≡ 0
      → m.events ≤ e
      → Fits m q
      → Other (record m { word = w; events = e }) p' q
  acquired p' q w e z g f =
      let x = Taken q z f in record { fits = Fits-grow q w e g x f; apart = λ a b. cc (x, b) }

  -- The mover is in a section, so that the other thread is not.
  exclusively :
      (p p' q : Pc) (w e : ℕ)
      → exclusive p ≡ true
      → (exclusive p ≡ true → exclusive q ≡ true → ⊥)
      → m.events ≤ e
      → Fits m q
      → Other (record m { word = w; events = e }) p' q
  exclusively p p' q w e z alone g f = elim (Bool-cases (exclusive q)) [
    | inl x ↦ absurd (alone z x)
    | inr x ↦ record { fits = Fits-grow q w e g x f; apart = λ a b. cc (x, b) }
  ]

  Move-Other :
      {p p' : Pc} {m' : Memory}
      → Move m p m' p'
      → Fits m p
      → (q : Pc) → (exclusive p ≡ true → exclusive q ≡ true → ⊥)
      → Fits m q
      → Other m' p' q
  Move-Other (read h) f q alone g = record { fits = g; apart = λ a. cc }
  Move-Other (observe c) f q alone g = record { fits = g; apart = λ a. cc }
  Move-Other leave f q alone g = record { fits = g; apart = λ a. cc }
  Move-Other (upgrade {v} h) f q alone g =
      acquired writing q _ _ (omega (arith, f.0, upgrade_ok m.word v h)) (omega arith) g
  Move-Other (upgrade_io {v} h) f q alone g =
      acquired io q _ _ (omega (arith, f.0, upgrade_io_ok m.word v h)) (omega arith) g
  Move-Other (load h) f q alone g = record { fits = g; apart = λ a. cc }
  Move-Other (take {v} h) f q alone g =
      acquired writing q _ _ (omega (arith, take_ok m.word v h)) (omega arith) g
  Move-Other fail f q alone g = record { fits = g; apart = λ a. cc }
  Move-Other (load_io h) f q alone g = record { fits = g; apart = λ a. cc }
  Move-Other (take_io {v} h) f q alone g =
      acquired io q _ _ (omega (arith, take_io_ok m.word v h)) (omega arith) g
  Move-Other fail_io f q alone g = record { fits = g; apart = λ a. cc }
  Move-Other (store c x) f q alone g = elim (Bool-cases (exclusive q)) [
    | inl z ↦ absurd (alone refl z)
    | inr z ↦ record { fits = Fits-store q c x f z g; apart = λ a b. cc (z, b) }
  ]
  Move-Other unlock f q alone g = exclusively writing idle q _ _ refl alone (omega arith) g
  Move-Other unlock_obsolete f q alone g = exclusively writing idle q _ _ refl alone (omega arith) g
  Move-Other unlock_io f q alone g = exclusively io idle q _ _ refl alone (omega arith) g
  Move-Other (load_for_write h) f q alone g = record { fits = g; apart = λ a. alone refl }
  Move-Other (store_for_write {v}) f q alone g =
      exclusively (io_loaded v) writing q _ _ refl alone (omega arith) g

  module _ {p' : Pc} {m' : Memory} (mv : Move m (pc i) m' p') where
    other : (j : ℕ) → j ≢ i → Other m' p' (pc j)
    other j away = Move-Other mv (inv.fits i) (pc j) (λ x y. away (inv.unique j i y x)) (inv.fits j)

    unique_after :
        (j k : ℕ) → exclusive (write pc i p' j) ≡ true → exclusive (write pc i p' k) ≡ true → j ≡ k
    unique_after j k = elim (Bool-cases (j == i)) [
      | inl e ↦ elim (Bool-cases (k == i)) [
        | inl e' ↦ λ x y. ground arith
        | inr e' ↦ rw (e, e') (λ x y. absurd ((other k (ground arith)).apart x y))
      ]
      | inr e ↦ elim (Bool-cases (k == i)) [
        | inl e' ↦ rw (e, e') (λ x y. absurd ((other j (ground arith)).apart y x))
        | inr e' ↦ rw (e, e') (inv.unique j k)
      ]
    ]

    Move-Inv : Inv m' (write pc i p')
    Move-Inv =
        let a = Move-After mv (inv.fits i) in
        record {
          small = a.small;
          counted = a.counted;
          fits = λ j. elim (Bool-cases (j == i)) [
            | inl e ↦ rw e a.own
            | inr e ↦ rw e (other j (ground arith)).fits
          ];
          unique = unique_after;
        }

pub Reach-Inv : {cells : Array ℕ} {s : NodeState} → Reach cells s → Inv s.node s.pc
Reach-Inv here = record {
  small = omega arith;
  counted = omega arith;
  fits = λ i. tt;
  unique = λ i j x y. cc;
}
Reach-Inv (next r (turn i mv)) = Move-Inv (Reach-Inv r) i mv
