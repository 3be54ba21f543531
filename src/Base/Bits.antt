-- ===== src/Base/Bits.antt =====
-- The bits of a number, and what the machine's bit operations do to each of them.
mod Step
use Step.{bit_or_step, bit_and_step}
use Prim.Native.Nat.{
  ℕ, zero, suc, ◌+◌, ◌-◌, ◌*◌, ◌/◌, ◌%◌, ◌^◌, ◌≤◌, ◌<◌, min, max, bit_and, bit_or,
}
use mathlib.Core.Path.{◌≡◌, refl, sym, ap, ap₂, ◌∙◌}
use mathlib.Core.Logic.{◌↔◌, inl, inr}
use mathlib.Core.Bool.{Bool, true, false, not, ◌&&◌}
use native.Mathlib.Nat.{
  div-div-eq-div-mul, pow-succ', one-le-pow, pow-le-pow_right, div-add-mod, add-mul-mod_self_left,
  mod-eq_of_lt, mod-lt,
}
use native.Mathlib.Omega.{arith}
use dex_partial.Base.Tests.{ltb, leb, ◌==◌, if◌then◌else◌, Bool-cases}

-- Bit `i` of `x`, 0 or 1.
unfoldable pub bit : ℕ → ℕ → ℕ
bit x zero = x % 2
bit x (suc i) = bit (x / 2) i

pub bit-le : (x i : ℕ) → bit x i ≤ 1
unfolding bit
bit-le x zero = omega arith
bit-le x (suc i) = bit-le (x / 2) i

pub bit-zero : (i : ℕ) → bit 0 i ≡ 0
unfolding bit
bit-zero zero = refl
bit-zero (suc i) = bit-zero i

bit-single : (b i : ℕ) → b ≤ 1 → bit b i ≡ (if i == 0 then b else 0)
unfolding bit
bit-single b zero h = omega arith
bit-single b (suc i) h = let low : b / 2 ≡ 0 = omega arith in rw low (bit-zero i ∙ ground arith)

pub bit-bit_and : (i a b : ℕ) → bit (bit_and a b) i ≡ min (bit a i) (bit b i)
unfolding bit
bit-bit_and zero a b = omega (arith, bit_and_step a b)
bit-bit_and (suc i) a b =
    let half : bit_and a b / 2 ≡ bit_and (a / 2) (b / 2) = omega (arith, bit_and_step a b) in
    rw half (bit-bit_and i (a / 2) (b / 2))

pub bit-bit_or : (i a b : ℕ) → bit (bit_or a b) i ≡ max (bit a i) (bit b i)
unfolding bit
bit-bit_or zero a b = omega (arith, bit_or_step a b)
bit-bit_or (suc i) a b =
    let half : bit_or a b / 2 ≡ bit_or (a / 2) (b / 2) = omega (arith, bit_or_step a b) in
    rw half (bit-bit_or i (a / 2) (b / 2))

pow_pos : (k : ℕ) → 0 < 2 ^ k
pow_pos k = one-le-pow k 2 (omega arith)

mul-pow-suc : (x k : ℕ) → x * 2 ^ suc k ≡ 2 * (x * 2 ^ k)
mul-pow-suc x k = omega (arith, ap (λ (t : ℕ). x * t) (pow-succ' 2 k))

-- A remainder by `2 * m` keeps the lowest digit.
mod_two_mul : (x m : ℕ) → 0 < m → x % (2 * m) ≡ 2 * (x / 2 % m) + x % 2
mod_two_mul x m h =
    let b = x / 2 % m in
    let whole : x ≡ (2 * b + x % 2) + 2 * m * (x / 2 / m) = omega (arith, div-add-mod (x / 2) m) in
    ap (λ t. t % (2 * m)) whole
    ∙ add-mul-mod_self_left (2 * b + x % 2) (2 * m) (x / 2 / m)
    ∙ mod-eq_of_lt (omega (arith, mod-lt (x / 2) h))

-- `x >> k`
pub bit-shr : (k x i : ℕ) → bit (x / 2 ^ k) i ≡ bit x (i + k)
unfolding bit
bit-shr zero x i =
    let same : x / 1 ≡ x = omega arith in let there : i + 0 ≡ i = omega arith in rw (same, there)
bit-shr (suc k) x i =
    let there : i + suc k ≡ suc (i + k) = omega arith in
    rw (pow-succ' 2 k, ← div-div-eq-div-mul x 2 (2 ^ k), there) (bit-shr k (x / 2) i)

-- `x << k`, before it is cut to a word
pub bit-shl : (k x i : ℕ) → bit (x * 2 ^ k) i ≡ (if ltb i k then 0 else bit x (i - k))
unfolding bit
bit-shl zero x i =
    let same : x * 1 ≡ x = omega arith in
    let there : i - 0 ≡ i = omega arith in rw (same, there) (ground arith)
bit-shl (suc k) x zero = ground (arith, mul-pow-suc x k)
bit-shl (suc k) x (suc i) =
    let half : x * 2 ^ suc k / 2 ≡ x * 2 ^ k = omega (arith, mul-pow-suc x k) in
    let there : suc i - suc k ≡ i - k = omega arith in
    rw (half, there) (bit-shl k x i ∙ ground arith)

pub bit-mod : (w x i : ℕ) → bit (x % 2 ^ w) i ≡ (if ltb i w then bit x i else 0)
unfolding bit
bit-mod zero x i =
    let none_left : x % 1 ≡ 0 = omega arith in rw none_left (ground (arith, bit-zero i))
bit-mod (suc w) x zero = ground (arith, pow-succ' 2 w, mod_two_mul x (2 ^ w) (pow_pos w))
bit-mod (suc w) x (suc i) =
    let half : x % 2 ^ suc w / 2 ≡ x / 2 % 2 ^ w =
      omega (arith, ap (λ (t : ℕ). x % t) (pow-succ' 2 w), mod_two_mul x (2 ^ w) (pow_pos w)) in
    rw half (bit-mod w (x / 2) i ∙ ground arith)

-- The mask `(1 << k) - 1`.
pub bit_mask : (k i : ℕ) → bit (2 ^ k - 1) i ≡ (if ltb i k then 1 else 0)
unfolding bit
bit_mask zero i = ground (arith, bit-zero i)
bit_mask (suc k) zero = ground (arith, pow-succ' 2 k, pow_pos k)
bit_mask (suc k) (suc i) =
    let half : (2 ^ suc k - 1) / 2 ≡ 2 ^ k - 1 = omega (arith, pow-succ' 2 k, pow_pos k) in
    rw half (bit_mask k i ∙ ground arith)

pub bit-pow : (k i : ℕ) → bit (2 ^ k) i ≡ (if i == k then 1 else 0)
unfolding bit
bit-pow zero zero = refl
bit-pow zero (suc i) = ground (arith, bit-zero i)
bit-pow (suc k) zero = ground (arith, pow-succ' 2 k)
bit-pow (suc k) (suc i) =
    let half : 2 ^ suc k / 2 ≡ 2 ^ k = omega (arith, pow-succ' 2 k) in
    rw half (bit-pow k i ∙ ground arith)

-- `~x` in a word of `w` bits
pub bit-complement :
    (w x i : ℕ) → x < 2 ^ w → bit (2 ^ w - 1 - x) i ≡ (if ltb i w then 1 - bit x i else 0)
unfolding bit
bit-complement zero x i h =
    let none_left : 2 ^ 0 - 1 - x ≡ 0 = omega arith in rw none_left (ground (arith, bit-zero i))
bit-complement (suc w) x zero h = ground (arith, pow-succ' 2 w)
bit-complement (suc w) x (suc i) h =
    let half : (2 ^ suc w - 1 - x) / 2 ≡ 2 ^ w - 1 - x / 2 = omega (arith, pow-succ' 2 w) in
    rw half (bit-complement w (x / 2) i (omega (arith, pow-succ' 2 w)) ∙ ground arith)

pub pow_lt : (i w : ℕ) → i < w → 2 ^ i < 2 ^ w
pow_lt i w h =
    omega (
      arith,
      pow-succ' 2 i,
      pow_pos i,
      pow-le-pow_right {n = 2} (omega arith) {i = suc i} {j = w} h,
    )

-- A word has no bits past its width.
pub bit_high : (w x i : ℕ) → x < 2 ^ w → w ≤ i → bit x i ≡ 0
bit_high w x i h p = rw (← mod-eq_of_lt h) (bit-mod w x i ∙ ground arith)

-- Numbers with the same bits are equal.
pub eq_of_bits : (f a b : ℕ) → a ≤ f → b ≤ f → ((i : ℕ) → bit a i ≡ bit b i) → a ≡ b
unfolding bit
eq_of_bits zero a b p q h = omega arith
eq_of_bits (suc f) a b p q h =
    let low : a % 2 ≡ b % 2 = h 0 in
    elim (Bool-cases (a == 0 && b == 0)) [
      | inl e ↦ ground arith
      | inr e ↦
          omega
            (arith, low, eq_of_bits f (a / 2) (b / 2) (omega arith) (omega arith) (λ i. h (suc i)))
    ]

-- `x & (1 << k)` tells whether bit `k` is set.
abbrev pub has_bit : ℕ → ℕ → Bool
has_bit x k = not (bit_and x (2 ^ k) == 0)

pub bit_and-pow : (k x : ℕ) → bit_and x (2 ^ k) ≡ bit x k * 2 ^ k
bit_and-pow k x =
    eq_of_bits (bit_and x (2 ^ k) + bit x k * 2 ^ k) _ _ (omega arith) (omega arith) λ i.
      rw (bit-bit_and, bit-shl, bit-pow)
        (ground (arith, bit-le x k, bit-le x i, bit-single (bit x k) (i - k) (bit-le x k)))

pub has_bit_iff : (x k : ℕ) → has_bit x k ≡ (bit x k == 1)
has_bit_iff x k = ground (arith, bit_and-pow k x, bit-le x k, pow_pos k)

-- `x & ((1 << w) - 1)`
pub bit_and_mask : (w x : ℕ) → bit_and x (2 ^ w - 1) ≡ x % 2 ^ w
bit_and_mask w x =
    eq_of_bits (bit_and x (2 ^ w - 1) + x % 2 ^ w) _ _ (omega arith) (omega arith)
      λ i. rw (bit-bit_and, bit_mask, bit-mod) (ground (arith, bit-le x i))

-- `x | 1`
pub bit_or-one : (x : ℕ) → bit_or x 1 ≡ x / 2 * 2 + 1
unfolding bit
bit_or-one x =
    let high : bit_or (x / 2) 0 ≡ x / 2 =
      eq_of_bits (bit_or (x / 2) 0 + x / 2) _ _ (omega arith) (omega arith)
        (λ i. rw (bit-bit_or, bit-zero) (omega arith)) in
    omega (arith, bit_or_step x 1)

-- A bit above all those of a number, set by `|`.
pub bit_or-pow : (k v : ℕ) → v < 2 ^ k → bit_or v (2 ^ k) ≡ v + 2 ^ k
bit_or-pow zero zero h = refl
bit_or-pow zero (suc v) h = absurd (omega arith)
bit_or-pow (suc k) v h =
    let half : 2 ^ suc k / 2 ≡ 2 ^ k = omega (arith, pow-succ' 2 k) in
    let rest = bit_or-pow k (v / 2) (omega (arith, pow-succ' 2 k)) in
    rw (bit_or_step v (2 ^ suc k), half, rest) (omega (arith, pow-succ' 2 k))

-- The top bit of a word of `k + 1` bits.
pub bit-top : (k v : ℕ) → v < 2 ^ suc k → bit v k ≡ (if ltb v (2 ^ k) then 0 else 1)
unfolding bit
bit-top zero v h = ground arith
bit-top (suc k) v h =
    let half : v / 2 < 2 ^ suc k = omega (arith, pow-succ' 2 (suc k)) in
    ground (arith, bit-top k (v / 2) half, pow-succ' 2 k)
