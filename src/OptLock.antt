-- ===== src/OptLock.antt =====
-- `OptLock`, the optimistic version lock that every node begins with (btree_node.h). Bit 0 of the word
-- is the I/O lock, bit 1 says that the page is obsolete, bit 2 is the write lock and the bits from 3 on
-- count the write sections. A member takes the word as it is at each of its atomic accesses and returns
-- what it stores; `need_restart` is the flag that the source sets through a reference.
pub mod Words
pub mod Threads
pub mod Invariant
pub mod Safety
use dex_partial.Base.{
  ℕ, Bool, true, false, ◌||◌, not, bit_and, bit_or, ◌==◌, if◌then◌else◌, add64, sub64,
}

abbrev pub initial_word : ℕ
initial_word = 8

unfoldable pub is_locked : ℕ → Bool
is_locked version = bit_and version 4 == 4

unfoldable pub is_obsolete : ℕ → Bool
is_obsolete version = bit_and version 2 == 2

unfoldable pub is_io : ℕ → Bool
is_io version = bit_and version 1 == 1

-- The version that was read, and the flag.
unfoldable pub read_lock_or_restart : ℕ → Bool → ℕ × Bool
unfolding is_locked is_obsolete
read_lock_or_restart word need_restart =
    (word, (if is_locked word || is_obsolete word then true else need_restart))

-- The flag is assigned, whatever it was.
unfoldable pub read_unlock_or_restart : ℕ → ℕ → Bool
read_unlock_or_restart word start_read = not (bit_or start_read 1 == bit_or word 1)

unfoldable pub check_or_restart : ℕ → ℕ → Bool
unfolding read_unlock_or_restart
check_or_restart word start_read = read_unlock_or_restart word start_read

-- The word, the caller's version and the flag after a compare-and-swap to `version + step`, which on
-- failure loads the word into the version.
abbrev exchange : ℕ → ℕ → ℕ → Bool → ℕ × ℕ × Bool
exchange step word version need_restart =
    if word == version
    then (add64 version step, add64 version step, need_restart)
    else (word, word, true)

unfoldable pub upgrade_to_write_lock_or_restart : ℕ → ℕ → Bool → ℕ × ℕ × Bool
unfolding is_io
upgrade_to_write_lock_or_restart word version need_restart =
    if is_io version then (word, version, true) else exchange 4 word version need_restart

unfoldable pub upgrade_to_io_lock_or_restart : ℕ → ℕ → Bool → ℕ × ℕ × Bool
unfolding is_io
upgrade_to_io_lock_or_restart word version need_restart =
    if is_io version then (word, version, true) else exchange 1 word version need_restart

-- `loaded` is the word at the load and `word` the word at the compare-and-swap.
unfoldable pub write_lock_or_restart : ℕ → ℕ → Bool → ℕ × Bool
unfolding upgrade_to_write_lock_or_restart
write_lock_or_restart loaded word need_restart =
    let (word', _, need) = upgrade_to_write_lock_or_restart word loaded need_restart in
    if bit_and loaded 7 == 0 then (word', need) else (word, true)

unfoldable pub io_lock_or_restart : ℕ → ℕ → Bool → ℕ × Bool
unfolding upgrade_to_io_lock_or_restart
io_lock_or_restart loaded word need_restart =
    let (word', _, need) = upgrade_to_io_lock_or_restart word loaded need_restart in
    if bit_and loaded 7 == 0 then (word', need) else (word, true)

-- A load, then a plain store that does not look at the word again.
unfoldable pub io_upgrade_to_write_lock_or_restart : ℕ → ℕ → Bool → ℕ × Bool
unfolding is_io
io_upgrade_to_write_lock_or_restart loaded word need_restart =
    if is_io loaded then (add64 (sub64 loaded 1) 4, need_restart) else (word, true)

unfoldable pub io_unlock : ℕ → ℕ
io_unlock word = sub64 word 1

unfoldable pub write_unlock : ℕ → ℕ
write_unlock word = add64 word 4

unfoldable pub write_unlock_obsolete : ℕ → ℕ
write_unlock_obsolete word = add64 word 6

unfoldable pub set_lock_state : ℕ → ℕ
set_lock_state word = 4
