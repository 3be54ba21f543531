-- ===== src/OptLock/Safety.antt =====
-- What holds in every reachable state: exclusion, reads that a check confirms, and obsolete pages.
use dex_partial.Base.{ℕ, ◌+◌, ◌/◌, ◌%◌, ◌^◌, ◌<◌, ◌≡◌, refl, arith, true, false, List, Array, subst}
use dex_partial.OptLock.{is_locked, is_obsolete, read_unlock_or_restart}
use dex_partial.OptLock.Words.{
  is_obsolete_lem, is_locked_lem, read_unlock_lem, upgrade_ok, upgrade_io_ok, take_ok, take_io_ok,
}
use dex_partial.OptLock.Threads.{
  Memory, Pc, reading, Move, upgrade, upgrade_io, take, take_io, store, unlock, unlock_obsolete,
  unlock_io, store_for_write, NodeState, Step, turn, Reach,
}
use dex_partial.OptLock.Invariant.{exclusive, Current, Fits, Reach-Inv}

-- Two threads are never in a write section or an I/O section of one node at the same time.
pub mutual_exclusion :
    {cells : Array ℕ} {s : NodeState}
    → Reach cells s
    → (i j : ℕ) → exclusive (s.pc i) ≡ true
    → exclusive (s.pc j) ≡ true
    → i ≡ j
mutual_exclusion r = (Reach-Inv r).unique

-- Where the check of an optimistic reader passes, and fewer than 2 ^ 62 times was the write lock taken
-- or released since it read its version, every value that it has read is the one that the node holds
-- now: no write section was entered in between, and none is open.
pub checked_read-Current :
    {cells : Array ℕ} {s : NodeState} {v begun : ℕ} {seen : List (ℕ × ℕ)}
    → Reach cells s
    → (i : ℕ) → s.pc i ≡ reading v begun seen
    → s.node.events < begun + 2 ^ 62
    → read_unlock_or_restart s.node.word v ≡ false
    → Current s.node.cells seen × (begun ≡ s.node.events) × (is_locked s.node.word ≡ false)
checked_read-Current {s} {v} {begun} r i e few ok =
    let inv = Reach-Inv r in
    let f = subst (Fits s.node) e (inv.fits i) in
    let half : v / 2 ≡ s.node.word / 2 = ground (arith, read_unlock_lem s.node.word v) in
    let same : begun ≡ s.node.events = omega (arith, inv.counted, f.2, f.3) in
    (f.4 same, same, ground (arith, is_locked_lem s.node.word))

-- An obsolete page stays as it is: no step changes its lock word or its cells.
pub obsolete_frozen :
    {cells : Array ℕ} {s t : NodeState}
    → Reach cells s
    → is_obsolete s.node.word ≡ true
    → Step s t
    → (t.node.word ≡ s.node.word) × (t.node.cells ≡ s.node.cells)
obsolete_frozen {s} r dead (turn i mv) =
    frozen mv ((Reach-Inv r).fits i) (ground (arith, is_obsolete_lem s.node.word))
  where
    frozen :
        {m m' : Memory} {p p' : Pc}
        → Move m p m' p'
        → Fits m p
        → m.word / 2 % 2 ≡ 1
        → (m'.word ≡ m.word) × (m'.cells ≡ m.cells)
    frozen (upgrade {v} h) f z = absurd (omega (arith, f.0, upgrade_ok _ v h))
    frozen (upgrade_io {v} h) f z = absurd (omega (arith, f.0, upgrade_io_ok _ v h))
    frozen (take {v} h) f z = absurd (omega (arith, take_ok _ v h))
    frozen (take_io {v} h) f z = absurd (omega (arith, take_io_ok _ v h))
    frozen (store c x) f z = absurd (omega arith)
    frozen unlock f z = absurd (omega arith)
    frozen unlock_obsolete f z = absurd (omega arith)
    frozen unlock_io f z = absurd (omega arith)
    frozen store_for_write f z = absurd (omega arith)
    frozen mv f z = (refl, refl)
