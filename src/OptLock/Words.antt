-- ===== src/OptLock/Words.antt =====
-- The tests of the lock word as arithmetic on its three low bits, and what a call that succeeded stored.
use dex_partial.Base.{ℕ, ◌/◌, ◌%◌, ◌≡◌, arith, ◌==◌, bit_and, not, false, ◌+◌, ◌-◌, ◌^◌}
use dex_partial.Base.Bits.{bit, bit_and-pow, bit_and_mask, bit_or-one}
use dex_partial.OptLock.{
  is_locked, is_obsolete, is_io, read_lock_or_restart, read_unlock_or_restart,
  upgrade_to_write_lock_or_restart, upgrade_to_io_lock_or_restart, write_lock_or_restart,
  io_lock_or_restart, io_upgrade_to_write_lock_or_restart,
}

pub is_io_lem : (v : ℕ) → is_io v ≡ (v % 2 == 1)
unfolding is_io bit
is_io_lem v = ground (arith, bit_and-pow 0 v)

pub is_obsolete_lem : (v : ℕ) → is_obsolete v ≡ (v / 2 % 2 == 1)
unfolding is_obsolete bit
is_obsolete_lem v = ground (arith, bit_and-pow 1 v)

pub is_locked_lem : (v : ℕ) → is_locked v ≡ (v / 4 % 2 == 1)
unfolding is_locked bit
is_locked_lem v = ground (arith, bit_and-pow 2 v)

-- `(version & 0b111) != 0`
pub is_free_lem : (v : ℕ) → bit_and v 7 ≡ v % 8
is_free_lem v = bit_and_mask 3 v

pub read_unlock_lem : (w v : ℕ) → read_unlock_or_restart w v ≡ not (v / 2 == w / 2)
unfolding read_unlock_or_restart
read_unlock_lem w v = ground (arith, bit_or-one w, bit_or-one v)

module _ (w v : ℕ) where
  pub upgrade_ok :
      (upgrade_to_write_lock_or_restart w v false).2 ≡ false
      → (v ≡ w) × (v % 2 ≡ 0) × ((upgrade_to_write_lock_or_restart w v false).0 ≡ (w + 4) % 2 ^ 64)
  unfolding upgrade_to_write_lock_or_restart
  upgrade_ok h = ground (arith, is_io_lem v)

  pub upgrade_io_ok :
      (upgrade_to_io_lock_or_restart w v false).2 ≡ false
      → (v ≡ w) × (v % 2 ≡ 0) × ((upgrade_to_io_lock_or_restart w v false).0 ≡ (w + 1) % 2 ^ 64)
  unfolding upgrade_to_io_lock_or_restart
  upgrade_io_ok h = ground (arith, is_io_lem v)

  pub take_ok :
      (write_lock_or_restart v w false).1 ≡ false
      → (v ≡ w) × (v % 8 ≡ 0) × ((write_lock_or_restart v w false).0 ≡ (w + 4) % 2 ^ 64)
  unfolding write_lock_or_restart
  take_ok h = ground (arith, is_io_lem v, is_free_lem v)

  pub take_io_ok :
      (io_lock_or_restart v w false).1 ≡ false
      → (v ≡ w) × (v % 8 ≡ 0) × ((io_lock_or_restart v w false).0 ≡ (w + 1) % 2 ^ 64)
  unfolding io_lock_or_restart
  take_io_ok h = ground (arith, is_io_lem v, is_free_lem v)

  pub io_take_ok :
      v % 2 ≡ 1
      → (io_upgrade_to_write_lock_or_restart v w false).0 ≡ ((v + 2 ^ 64 - 1) % 2 ^ 64 + 4) % 2 ^ 64
  unfolding io_upgrade_to_write_lock_or_restart
  io_take_ok h = ground (arith, is_io_lem v)

pub read_ok : (w : ℕ) → (read_lock_or_restart w false).1 ≡ false → w / 2 % 4 ≡ 0
unfolding read_lock_or_restart
read_ok w h = ground (arith, is_locked_lem w, is_obsolete_lem w)
