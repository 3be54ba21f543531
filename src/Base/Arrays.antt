-- ===== src/Base/Arrays.antt =====
-- A C array is a function from indices to cells; its extent is a constant of the code, and that the
-- code stays below it is proved where it matters.
use Prim.Native.Nat.{ℕ, ◌+◌, ◌-◌}
use mathlib.Core.Bool.{◌&&◌}
use dex_partial.Base.Tests.{ltb, leb, ◌==◌, if◌then◌else◌}

abbrev pub Array {ℓ} : Type ℓ → Type ℓ
Array A = ℕ → A

-- `a[i] = v`
abbrev pub write {ℓ} : {A : Type ℓ} → Array A → ℕ → A → Array A
write a i v j = if j == i then v else a j

-- `memmove(a + dst, b + src, n)`, counted in elements; `memcpy` is the same where the parts are apart.
abbrev pub copy_into {ℓ} : {A : Type ℓ} → Array A → ℕ → Array A → ℕ → ℕ → Array A
copy_into a dst b src n j = if leb dst j && ltb j (dst + n) then b (src + (j - dst)) else a j
