-- ===== src/VersionLock.antt =====
-- `Lock` and `Lock32` (dex/util/lock.h): a version under a lock bit, the top one of a word of
-- `top + 1` bits (63 for `Lock` and 31 for `Lock32`). A loop that waits runs on what it meets: each
-- attempt is the word that it loads and the word when it compares and swaps.
pub mod Lock
use dex_partial.Base.{
  ℕ, suc, ◌+◌, ◌-◌, ◌%◌, ◌^◌, ◌≡◌, ◌≢◌, ◌<◌, ◌≤◌, refl, ap, arith, bit_and, bit_or, Bool, true,
  false, not, ◌==◌, if◌then◌else◌, Option, none, some, List, [], ◌∷◌, ◌&&◌, ◌*◌, Bool-cases, ltb,
  ◌∙◌, inl, inr, ◌⊎◌,
}
use native.Mathlib.Nat.{mod-eq_of_lt, pow-succ', one-le-pow, add-mul-mod_self_left}
use dex_partial.Base.Bits.{has_bit, has_bit_iff, bit_or-pow, bit-top, bit_and_mask}

-- Some attempt loads the word and finds it unchanged.
abbrev pub Met : ℕ → List (ℕ × ℕ) → Type 0
Met v [] = ⊥
Met v ((u, word) ∷ attempts) = ((u ≡ v) × (word ≡ v)) ⊎ Met v attempts

module _ (top : ℕ) where
  abbrev lock_set : ℕ
  lock_set = 2 ^ top

  abbrev lock_mask : ℕ
  lock_mask = 2 ^ top - 1

  -- The word after the exchange that takes the lock; `none` if no attempt takes it.
  unfoldable pub get_lock : List (ℕ × ℕ) → Option ℕ
  get_lock [] = none
  get_lock ((old_value, word) ∷ attempts) =
      let again = get_lock attempts in
      let old_version = bit_and old_value lock_mask in
      if has_bit old_value top
      then again
      else if word == old_version
      then some (bit_or old_version lock_set)
      else again

  -- The word loaded, and the word at the exchange: the new word and the result.
  unfoldable pub try_get_lock : ℕ → ℕ → ℕ × Bool
  try_get_lock v word =
      let old_value = bit_and v lock_mask in
      let new_value = bit_or v lock_set in
      if has_bit v top
      then (word, false)
      else if word == old_value
      then (new_value, true)
      else (word, false)

  unfoldable pub release_lock : ℕ → ℕ
  release_lock v = (v + 1 + 2 ^ suc top - lock_set) % 2 ^ suc top

  unfoldable pub test_lock_set : ℕ → Bool
  test_lock_set version = has_bit version top

  unfoldable pub test_lock_version_change : ℕ → ℕ → Bool
  test_lock_version_change value old_version = not (old_version == value)

  abbrev IsFree : ℕ → Type 0
  IsFree v = v < 2 ^ top

  free_lem : (v : ℕ) → v < 2 ^ suc top → has_bit v top ≡ not (ltb v (2 ^ top))
  free_lem v h = ground (arith, has_bit_iff v top, bit-top top v h)

  low_lem : (v : ℕ) → v < 2 ^ top → bit_and v (2 ^ top - 1) ≡ v
  low_lem v h = bit_and_mask top v ∙ mod-eq_of_lt h

  -- The words that the lock's attempts meet.
  abbrev pub IsWords : List (ℕ × ℕ) → Type 0
  IsWords [] = Unit {0}
  IsWords ((v, word) ∷ attempts) = (v < 2 ^ suc top) × (word < 2 ^ suc top) × IsWords attempts

  -- On words of `top + 1` bits, `get_lock` returns only by an exchange on a free word, in which it sets the lock bit and keeps the
  -- version.
  pub get_lock-some :
      (attempts : List (ℕ × ℕ)) (w : ℕ)
      → IsWords attempts
      → get_lock attempts ≡ some w
      → (v : ℕ) × Met v attempts × (v < 2 ^ top) × (w ≡ v + 2 ^ top)
  unfolding get_lock
  get_lock-some [] w h e = absurd (ground arith)
  get_lock-some ((v, word) ∷ attempts) w (a, b, h) e =
      elim (Bool-cases (ltb v (2 ^ top) && word == v)) [
        | inl p ↦
            let f : has_bit v top ≡ false = ground (arith, free_lem v a) in
            let l = low_lem v (ground arith) in
            (v, inl (refl, ground arith), ground arith, ground (arith, f, l, e, bit_or-pow top v))
        | inr p ↦
            let rest : get_lock attempts ≡ some w = ground (arith, free_lem v a, low_lem v, e) in
            let (u, m, q, r) = get_lock-some attempts w h rest in (u, inr m, q, r)
      ]

  -- On words of `top + 1` bits, `try_get_lock` succeeds exactly on a free word that nothing changed in between, in which it sets the
  -- lock bit; otherwise it leaves the word.
  pub try_get_lock_cases :
      (v word : ℕ)
      → v < 2 ^ suc top
      → word < 2 ^ suc top
      → ((v < 2 ^ top) × (v ≡ word) × (try_get_lock v word ≡ (word + 2 ^ top, true)))
        ⊎ (((2 ^ top ≤ v) ⊎ (v ≢ word)) × (try_get_lock v word ≡ (word, false)))
  unfolding try_get_lock
  try_get_lock_cases v word h g = elim (Bool-cases (ltb v (2 ^ top))) [
    | inl e ↦ elim (Bool-cases (word == v)) [
      | inl p ↦
          inl
            (ground arith, ground arith, ground (arith, free_lem v h, low_lem v, bit_or-pow top v))
      | inr p ↦ inr (inr (ground arith), ground (arith, free_lem v h, low_lem v))
    ]
    | inr e ↦ inr (inl (ground arith), ground (arith, free_lem v h))
  ]

  -- A release after the lock was taken makes the next version, and leaves the word free unless the version
  -- was the last one: then the version runs into the lock bit, and the word stays locked.
  pub release_lock-taken :
      (v : ℕ)
      → v < 2 ^ top
      → (release_lock (v + 2 ^ top) ≡ v + 1)
        × (test_lock_set (release_lock (v + 2 ^ top)) ≡ (v == 2 ^ top - 1))
  unfolding release_lock test_lock_set
  release_lock-taken v h =
      let whole : v + 2 ^ top + 1 + 2 ^ suc top - 2 ^ top ≡ (v + 1) + 2 ^ suc top * 1 =
        omega arith in
      let small : v + 1 < 2 ^ suc top =
        omega (arith, pow-succ' 2 top, one-le-pow top 2 (omega arith)) in
      let next : (v + 2 ^ top + 1 + 2 ^ suc top - 2 ^ top) % 2 ^ suc top ≡ v + 1 =
        ap (λ t. t % 2 ^ suc top) whole
        ∙ add-mul-mod_self_left (v + 1) (2 ^ suc top) 1
        ∙ mod-eq_of_lt small in
      (next, rw next (free_lem (v + 1) small ∙ ground arith))
