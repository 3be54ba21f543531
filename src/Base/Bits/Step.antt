-- ===== src/Base/Bits/Step.antt =====
-- One equation for the lowest digit of `bit_and` and of `bit_or`, both of which stand for `digits`: a
-- recursion over the binary digits of the first number.
use Prim.Native.Nat.{
  ℕ, zero, suc, ◌+◌, ◌*◌, ◌/◌, ◌%◌, ◌≤◌, min, max, bit_and, bit_or, digits, bit_and-bitwise,
  bit_or-bitwise,
}
use mathlib.Core.Path.{◌≡◌, refl}
use native.Mathlib.Omega.{arith}

-- Any operation `run` that is `digits` with the first number as its fuel.
module _ (last : ℕ → ℕ) (op run : ℕ → ℕ → ℕ) (runs : (a b : ℕ) → run a b ≡ digits last op a a b)
    (last_step : (b : ℕ) → last b ≡ last (b / 2) * 2 + op 0 (b % 2)) where
  surplus : (a b f g : ℕ) → a ≤ f → f ≤ g → digits last op g a b ≡ digits last op f a b
  surplus a b (suc f) zero h l = absurd (omega arith)
  surplus (suc a) b zero g h l = absurd (omega arith)
  surplus (suc a) b (suc f) (suc g) h l =
      rw (surplus (suc a / 2) (b / 2) f g (omega arith) (omega arith))
  surplus zero b zero zero h l = refl
  surplus zero b zero (suc g) h l = refl
  surplus zero b (suc f) (suc g) h l = refl

  pub run_step : (a b : ℕ) → run a b ≡ run (a / 2) (b / 2) * 2 + op (a % 2) (b % 2)
  run_step zero b = omega (arith, runs 0 b, runs 0 (b / 2), last_step b)
  run_step (suc a) b =
      let h : digits last op a (suc a / 2) (b / 2)
          ≡ digits last op (suc a / 2) (suc a / 2) (b / 2) =
        surplus (suc a / 2) (b / 2) (suc a / 2) a (omega arith) (omega arith) in
      omega (arith, runs (suc a) b, runs (suc a / 2) (b / 2), h)

pub bit_and_step : (a b : ℕ) → bit_and a b ≡ bit_and (a / 2) (b / 2) * 2 + min (a % 2) (b % 2)
bit_and_step = run_step (λ b. 0) min bit_and bit_and-bitwise (λ b. omega arith)

pub bit_or_step : (a b : ℕ) → bit_or a b ≡ bit_or (a / 2) (b / 2) * 2 + max (a % 2) (b % 2)
bit_or_step = run_step (λ b. b) max bit_or bit_or-bitwise (λ b. omega arith)
