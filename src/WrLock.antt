-- ===== src/WrLock.antt =====
-- `WRLock` (dex/include/WRLock.h): a word of 16 bits, 1 with a writer and twice the number of readers
-- otherwise. A loop that waits runs on what it meets: each attempt is the word that it loads and the
-- word when it compares and swaps.
pub mod Threads
use dex_partial.Base.{ℕ, Bool, not, ◌==◌, if◌then◌else◌, Option, none, some, add16, sub16}

abbrev pub unlocked : ℕ
unlocked = 0

abbrev pub locked : ℕ
locked = 1

unfoldable pub is_unlock : ℕ → Bool
is_unlock l = l == unlocked

-- One round of `wLock` and of `try_wLock`: the word loaded and the word at the exchange give the word
-- that is stored, if it is.
unfoldable pub try_w_lock : ℕ → ℕ → Option ℕ
try_w_lock loaded word =
    if not (loaded == unlocked) then none else if word == unlocked then some locked else none

-- One round of `rLock`, of `try_rLock` and of `rUnlock`.
unfoldable pub try_r_lock : ℕ → ℕ → Option ℕ
try_r_lock loaded word =
    if loaded == locked then none else if word == loaded then some (add16 loaded 2) else none

unfoldable pub r_unlock : ℕ → ℕ → Option ℕ
r_unlock loaded word = if word == loaded then some (sub16 loaded 2) else none

unfoldable pub w_unlock : ℕ → ℕ
w_unlock l = unlocked
