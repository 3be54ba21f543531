-- ===== src/Allocators/Address.antt =====
-- `GlobalAddress` (dex/include/GlobalAddress.h): a node of 16 bits and an offset of 48 bits over one
-- 64-bit `val`.
use dex_partial.Base.{ℕ, ◌+◌, ◌*◌, ◌-◌, ◌/◌, ◌%◌, ◌^◌, ◌≡◌, ◌<◌, ◌↔◌, arith, Bool, true, ◌&&◌, ◌==◌}
use dex_partial.Base.Int.{ℤ, pos, negsuc}

pub record GlobalAddress : Type 0 where
  pub node_id : ℕ
  pub offset : ℕ

unfoldable pub val : GlobalAddress → ℕ
val a = a.node_id + a.offset * 2 ^ 16

unfoldable pub of_val : ℕ → GlobalAddress
of_val v = record { node_id = v % 2 ^ 16; offset = v / 2 ^ 16 % 2 ^ 48 }

-- The constructor cuts to the widths of the fields.
unfoldable pub make : ℕ → ℕ → GlobalAddress
make node_id offset = record { node_id = node_id % 2 ^ 16; offset = offset % 2 ^ 48 }

abbrev pub null : GlobalAddress
null = record { node_id = 0; offset = 0 }

abbrev pub add_offset : GlobalAddress → ℕ → GlobalAddress
add_offset a n = record a { offset = (a.offset + n) % 2 ^ 48 }

-- `GADD`
unfoldable pub gadd : GlobalAddress → ℤ → GlobalAddress
gadd a (pos n) = add_offset a n
gadd a (negsuc n) = record a { offset = (a.offset + 2 ^ 48 - (n + 1) % 2 ^ 48) % 2 ^ 48 }

abbrev pub same_address : GlobalAddress → GlobalAddress → Bool
same_address a b = a.node_id == b.node_id && a.offset == b.offset

pub record IsAddress (a : GlobalAddress) : Type 0 where
  pub node_fits : a.node_id < 2 ^ 16
  pub offset_fits : a.offset < 2 ^ 48

-- The fields and `val` hold the same: an address read from its own `val` is the same address, every
-- 64-bit `val` is that of the address that it reads as, and `==` compares `val`.
pub val-of_val :
    ((a : GlobalAddress) → IsAddress a → of_val (val a) ≡ a)
    × ((v : ℕ) → v < 2 ^ 64 → (val (of_val v) ≡ v) × IsAddress (of_val v))
    × ((a b : GlobalAddress)
        → IsAddress a
        → IsAddress b
        → (same_address a b ≡ true) ↔ (val a ≡ val b))
unfolding val of_val
val-of_val = (
  λ a h. ground (arith, h),
  λ v h. (omega arith, record { node_fits = omega arith; offset_fits = omega arith }),
  λ a b h g. ground (arith, h, g),
)

-- `GADD` of an offset and of its negation are inverse.
pub gadd-gadd :
    (a : GlobalAddress)
    → IsAddress a
    → (n : ℕ) → n < 2 ^ 31
    → (gadd (gadd a (pos (n + 1))) (negsuc n) ≡ a) × (gadd (gadd a (negsuc n)) (pos (n + 1)) ≡ a)
unfolding gadd
gadd-gadd a h n l = (ground (arith, h), ground (arith, h))
