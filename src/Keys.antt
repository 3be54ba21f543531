-- ===== src/Keys.antt =====
-- The byte keys of the radix tree (dex/include/smart/Key.h): `Key` is an array of `key_len` bytes, the most
-- significant one first. Built without KEY_SPACE_LIMIT.
pub mod Value
pub mod Arith
pub mod Prefix
pub mod Headers
pub mod Entries
use dex_partial.Base.{
  ℕ, zero, suc, ◌+◌, ◌-◌, ◌*◌, ◌/◌, ◌%◌, ◌^◌, Bool, leb, ltb, ◌==◌, not, if◌then◌else◌, Array,
  write, List, [], ◌∷◌,
}

abbrev pub key_len : ℕ
key_len = 8

abbrev pub Key : Type 0
Key = Array ℕ

unfoldable pub get_partial : Key → ℕ → ℕ
get_partial key depth = if depth == 0 then 0 else key (depth - 1)

unfoldable pub get_leftmost : Key → ℕ → Key
get_leftmost key depth i = if ltb i depth then key i else 0

unfoldable pub get_rightmost : Key → ℕ → Key
get_rightmost key depth i = if ltb i depth then key i else 2 ^ 8 - 1

unfoldable pub remake_prefix : Key → ℕ → ℕ → Key
remake_prefix key depth diff_partial i =
    if depth == 0
    then 0
    else if i == depth - 1
    then diff_partial
    else if ltb i (depth - 1)
    then key i
    else 0

-- `left` rounds of the loop from `idx`.
unfoldable pub prefix_loop : ℕ → Key → Key → ℕ → ℕ → ℕ
unfolding get_partial
prefix_loop zero k1 k2 depth idx = idx
prefix_loop (suc left) k1 k2 depth idx =
    let rest = prefix_loop left k1 k2 depth (idx + 1) in
    if not (get_partial k1 (depth + idx) == get_partial k2 (depth + idx)) then idx else rest

-- At a depth of at most `key_len`.
unfoldable pub longest_common_prefix : Key → Key → ℕ → ℕ
unfolding prefix_loop
longest_common_prefix k1 k2 depth = prefix_loop (key_len - depth + 1) k1 k2 depth 0

-- The loops over the bytes, from the last one: `left` bytes are still to come.
unfoldable pub add_one_loop : ℕ → Key → Key
add_one_loop zero a = a
add_one_loop (suc left) a =
    let rest = add_one_loop left (write a left 0) in
    if ltb (a left + 1) (2 ^ 8) then write a left (a left + 1) else rest

unfoldable pub add_one : Key → Key
unfolding add_one_loop
add_one a = add_one_loop key_len a

unfoldable pub plus_loop : ℕ → Key → ℕ → Key
plus_loop zero res b = res
plus_loop (suc left) res b =
    let tmp = res left + b in
    let rest = plus_loop left (write res left (tmp % 2 ^ 8)) (tmp / 2 ^ 8) in
    if ltb tmp (2 ^ 8) then write res left tmp else rest

-- `a + b` for a byte `b`
unfoldable pub plus : Key → ℕ → Key
unfolding plus_loop
plus a b = plus_loop key_len a b

-- `while (tmp < b) tmp += (1 << 8), carry++;`, which ends after one round for two bytes
unfoldable pub carry_loop : ℕ → ℕ → ℕ → ℕ → ℕ
carry_loop zero tmp carry b = carry
carry_loop (suc fuel) tmp carry b =
    let rest = carry_loop fuel (tmp + 2 ^ 8) (carry + 1) b in if ltb tmp b then rest else carry

unfoldable pub minus_loop : ℕ → Key → ℕ → Key
unfolding carry_loop
minus_loop zero res b = res
minus_loop (suc left) res b =
    let carry = carry_loop b (res left) 0 b in
    let rest = minus_loop left (write res left (res left + carry * 2 ^ 8 - b)) carry in
    if leb b (res left) then write res left (res left - b) else rest

-- `a - b` for a byte `b`
unfoldable pub minus : Key → ℕ → Key
unfolding minus_loop
minus a b = minus_loop key_len a b

-- `i` is at most `key_len`, so that no shift is by 64 or more.
unfoldable pub int2key : ℕ → Key
int2key key i = if ltb i key_len then key / 2 ^ ((key_len - (i + 1)) * 8) % 2 ^ 8 else 0

-- The first `n` bytes of a key.
unfoldable pub key2int_loop : ℕ → Key → ℕ
key2int_loop zero key = 0
key2int_loop (suc n) key = (key2int_loop n key * 2 ^ 8 % 2 ^ 64 + key n) % 2 ^ 64

unfoldable pub key2int : Key → ℕ
unfolding key2int_loop
key2int key = key2int_loop key_len key

-- The bytes of a string, cut to `key_len`.
unfoldable pub str2key : List ℕ → Key
str2key [] i = 0
str2key (c ∷ s) zero = c
str2key (c ∷ s) (suc i) = if ltb (suc i) key_len then str2key s i else 0
