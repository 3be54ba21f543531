-- ===== src/VersionLock/Lock.antt =====
-- The class `Lock` (dex/util/lock.h), on a word of 64 bits.
use dex_partial.Base.{ℕ, Bool, Option, List}
use dex_partial.VersionLock

abbrev pub get_lock : List (ℕ × ℕ) → Option ℕ
get_lock = VersionLock.get_lock 63

abbrev pub try_get_lock : ℕ → ℕ → ℕ × Bool
try_get_lock = VersionLock.try_get_lock 63

abbrev pub release_lock : ℕ → ℕ
release_lock = VersionLock.release_lock 63

abbrev pub test_lock_set : ℕ → Bool
test_lock_set = VersionLock.test_lock_set 63

abbrev pub test_lock_version_change : ℕ → ℕ → Bool
test_lock_version_change = VersionLock.test_lock_version_change 63
