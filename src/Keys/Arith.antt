-- ===== src/Keys/Arith.antt =====
-- `operator+`, `operator-` and `add_one` on keys are addition and subtraction of 64-bit numbers.
use native.Mathlib.Nat.{
  add-mul-mod_self_left, div-add-mod, mod-eq_of_lt, mod-lt, pow-succ', one-le-pow,
}
use dex_partial.Base.{
  ℕ, zero, suc, ◌+◌, ◌-◌, ◌*◌, ◌/◌, ◌%◌, ◌^◌, ◌≤◌, ◌<◌, ◌≡◌, refl, ap, ◌∙◌, arith, ltb, leb, ◌==◌,
  write, Bool-cases, inl, inr, true, false, leb→le, fun_ext,
}
use dex_partial.Keys.{
  key_len, Key, key2int, add_one_loop, add_one, plus_loop, plus, carry_loop, minus_loop, minus,
}
use dex_partial.Keys.Value.{value, value_lt, key2int-value}

value-write : (n m : ℕ) (k : Key) (v : ℕ) → n ≤ m → value n (write k m v) ≡ value n k
unfolding value
value-write zero m k v h = refl
value-write (suc n) m k v h =
    let apart : (n == m) ≡ false = ground arith in
    let same : write k m v n ≡ k n = rw apart refl in
    omega (arith, value-write n m k v (omega arith), same)

-- A remainder by `256 * m` keeps the last byte.
mod_byte_mul : (x m : ℕ) → 0 < m → x % (256 * m) ≡ 256 * (x / 256 % m) + x % 256
mod_byte_mul x m h =
    let b = x / 256 % m in
    let whole : x ≡ (256 * b + x % 256) + 256 * m * (x / 256 / m) =
      omega (arith, div-add-mod (x / 256) m) in
    ap (λ t. t % (256 * m)) whole
    ∙ add-mul-mod_self_left (256 * b + x % 256) (256 * m) (x / 256 / m)
    ∙ mod-eq_of_lt (omega (arith, mod-lt (x / 256) h))

pow_pos : (n : ℕ) → 0 < 256 ^ n
pow_pos n = one-le-pow n 256 (omega arith)

-- A last digit that is too large carries into the others.
digit : (n v t : ℕ) → (256 * v + t) % 256 ^ suc n ≡ 256 * ((v + t / 256) % 256 ^ n) + t % 256
digit n v t =
    let up : (256 * v + t) / 256 ≡ v + t / 256 = omega arith in
    let low : (256 * v + t) % 256 ≡ t % 256 = omega arith in
    rw (pow-succ' 256 n, mod_byte_mul (256 * v + t) (256 ^ n) (pow_pos n), up, low) refl

module _ (k : Key) (n x : ℕ) where
  written_self : write k n x n ≡ x
  written_self = let self : (n == n) ≡ true = ground arith in rw self refl

  written_bytes : ((i : ℕ) → k i < 256) → x < 256 → (i : ℕ) → write k n x i < 256
  written_bytes bytes small i = ground (arith, bytes i)

-- A loop over `n` bytes leaves the others.
plus_loop_above : (n : ℕ) (k : Key) (b i : ℕ) → n ≤ i → plus_loop n k b i ≡ k i
unfolding plus_loop
plus_loop_above zero k b i h = refl
plus_loop_above (suc n) k b i h =
    let apart : (i == n) ≡ false = ground arith in
    elim (Bool-cases (ltb (k n + b) 256)) [
      | inl e ↦ rw (e, apart) refl
      | inr e ↦ rw e (
          plus_loop_above n (write k n ((k n + b) % 256)) ((k n + b) / 256) i (omega arith)
          ∙ rw apart refl)
    ]

plus_loop_lem :
    (n : ℕ) (k : Key) (b : ℕ)
    → ((i : ℕ) → k i < 256)
    → b < 256
    → value n (plus_loop n k b) ≡ (value n k + b) % 256 ^ n
unfolding value plus_loop
plus_loop_lem zero k b bytes small = omega arith
plus_loop_lem (suc n) k b bytes small = elim (Bool-cases (ltb (k n + b) 256)) [
  | inl e ↦
      let fits : (value n k + (k n + b) / 256) % 256 ^ n ≡ value n k =
        let none_left : value n k + (k n + b) / 256 ≡ value n k = ground arith in
        rw none_left (mod-eq_of_lt (value_lt n k bytes)) in
      rw (e, written_self k n (k n + b), value-write n n k (k n + b) (omega arith))
        (ground (arith, digit n (value n k) (k n + b), fits))
  | inr e ↦
      let k' = write k n ((k n + b) % 256) in
      let ih =
        plus_loop_lem n k' ((k n + b) / 256)
          (written_bytes k n ((k n + b) % 256) bytes (omega arith)) (omega (arith, bytes n)) in
      rw
        (
          e,
          plus_loop_above n k' ((k n + b) / 256) n (omega arith),
          written_self k n ((k n + b) % 256),
          ih,
          value-write n n k ((k n + b) % 256) (omega arith),
        )
        (let same : value (suc n) k + b ≡ 256 * value n k + (k n + b) = omega arith in
          rw (same, digit n (value n k) (k n + b)) refl)
]

carry_one : (x b : ℕ) → x < b → b < 256 → carry_loop b x 0 b ≡ 1
unfolding carry_loop
carry_one x zero h small = absurd (omega arith)
carry_one x (suc zero) h small = ground arith
carry_one x (suc (suc b)) h small = ground arith

minus_loop_above : (n : ℕ) (k : Key) (b i : ℕ) → n ≤ i → minus_loop n k b i ≡ k i
unfolding minus_loop
minus_loop_above zero k b i h = refl
minus_loop_above (suc n) k b i h =
    let apart : (i == n) ≡ false = ground arith in
    let carry = carry_loop b (k n) 0 b in
    elim (Bool-cases (leb b (k n))) [
      | inl e ↦ rw (e, apart) refl
      | inr e ↦ rw e (
          minus_loop_above n (write k n (k n + carry * 256 - b)) carry i (omega arith)
          ∙ rw apart refl)
    ]

minus_loop_lem :
    (n : ℕ) (k : Key) (b : ℕ)
    → ((i : ℕ) → k i < 256)
    → b < 256
    → value n (minus_loop n k b) ≡ (value n k + (256 ^ n - b)) % 256 ^ n
unfolding value minus_loop
minus_loop_lem zero k b bytes small = omega arith
minus_loop_lem (suc n) k b bytes small =
    let up = pow-succ' 256 n in
    let p = pow_pos n in
    let t = k n + (256 ^ suc n - b) in
    let same : value (suc n) k + (256 ^ suc n - b) ≡ 256 * value n k + t = omega arith in
    elim (Bool-cases (leb b (k n))) [
      | inl e ↦
          let h = leb→le b (k n) e in
          let high : value n k + t / 256 ≡ value n k + 256 ^ n = omega (arith, h, up, p, bytes n) in
          let low : t % 256 ≡ k n - b = omega (arith, h, up, p, bytes n) in
          rw
            (
              same,
              digit n (value n k) t,
              high,
              low,
              e,
              written_self k n (k n - b),
              value-write n n k (k n - b) (omega arith),
            )
            (let one_more : value n k + 256 ^ n ≡ value n k + 256 ^ n * 1 = omega arith in
              let wraps : (value n k + 256 ^ n) % 256 ^ n ≡ value n k = rw one_more (
                add-mul-mod_self_left (value n k) (256 ^ n) 1
                ∙ mod-eq_of_lt (value_lt n k bytes)) in
              omega (arith, wraps))
      | inr e ↦
          let h : k n < b = ground (arith, e) in
          let k' = write k n (k n + 1 * 256 - b) in
          let high : value n k + t / 256 ≡ value n k + (256 ^ n - 1) =
            omega (arith, h, up, p, small) in
          let low : t % 256 ≡ k n + 1 * 256 - b = omega (arith, h, up, p, small) in
          let ih =
            minus_loop_lem n k' 1 (written_bytes k n (k n + 1 * 256 - b) bytes (omega arith))
              (omega arith) in
          rw
            (
              same,
              digit n (value n k) t,
              high,
              low,
              e,
              carry_one (k n) b h small,
              minus_loop_above n k' 1 n (omega arith),
              written_self k n (k n + 1 * 256 - b),
              ih,
              value-write n n k (k n + 1 * 256 - b) (omega arith),
            )
            refl
    ]

-- `add_one` is `+ 1`.
add_one_plus :
    (n : ℕ) (k : Key) → ((i : ℕ) → k i < 256) → (i : ℕ) → add_one_loop n k i ≡ plus_loop n k 1 i
unfolding add_one_loop plus_loop
add_one_plus zero k bytes i = refl
add_one_plus (suc n) k bytes i = elim (Bool-cases (ltb (k n + 1) 256)) [
  | inl e ↦ rw e refl
  | inr e ↦
      let last : k n ≡ 255 = ground (arith, e, bytes n) in
      rw (e, last) (add_one_plus n (write k n 0) (written_bytes k n 0 bytes (omega arith)) i)
]

loop_bytes :
    (n : ℕ) (k : Key) (b : ℕ)
    → ((i : ℕ) → k i < 256)
    → b < 256
    → ((i : ℕ) → plus_loop n k b i < 256) × ((i : ℕ) → minus_loop n k b i < 256)
unfolding plus_loop minus_loop
loop_bytes zero k b bytes small = (bytes, bytes)
loop_bytes (suc n) k b bytes small =
    let x = (k n + b) % 256 in
    let (p, _) =
      loop_bytes n (write k n x) ((k n + b) / 256) (written_bytes k n x bytes (omega arith))
        (omega (arith, bytes n)) in
    (
      (λ i. elim (Bool-cases (ltb (k n + b) 256)) [
        | inl e ↦ rw e (written_bytes k n (k n + b) bytes (ground arith) i)
        | inr e ↦ rw e (p i)
      ]),
      (λ i. elim (Bool-cases (leb b (k n))) [
        | inl e ↦ rw e (written_bytes k n (k n - b) bytes (omega (arith, bytes n)) i)
        | inr e ↦
            let h : k n < b = ground (arith, e) in
            let y = k n + 1 * 256 - b in
            rw (e, carry_one (k n) b h small)
              ((loop_bytes n (write k n y) 1 (written_bytes k n y bytes (omega arith))
                  (omega arith)).1
                i)
      ]),
    )

-- On keys of bytes and for a byte `b`, `a + b`, `a - b` and `add_one` are the sum, the difference and the successor of the 64-bit
-- numbers that the keys stand for, with the carry past the first byte lost.
pub key2int-plus :
    (k : Key) (b : ℕ)
    → ((i : ℕ) → k i < 2 ^ 8)
    → b < 2 ^ 8
    → (key2int (plus k b) ≡ (key2int k + b) % 2 ^ 64)
      × (key2int (minus k b) ≡ (key2int k + 2 ^ 64 - b) % 2 ^ 64)
      × (key2int (add_one k) ≡ (key2int k + 1) % 2 ^ 64)
unfolding plus minus add_one
key2int-plus k b bytes small =
    let one_byte : 1 < 256 = omega arith in
    let (p, m) = loop_bytes key_len k b bytes small in
    let (p1, _) = loop_bytes key_len k 1 bytes one_byte in
    let same : add_one_loop key_len k ≡ plus_loop key_len k 1 =
      fun_ext (add_one_plus key_len k bytes) in
    rw
      (
        same,
        key2int-value k bytes,
        key2int-value _ p,
        key2int-value _ m,
        key2int-value _ p1,
        plus_loop_lem key_len k b bytes small,
        minus_loop_lem key_len k b bytes small,
        plus_loop_lem key_len k 1 bytes one_byte,
      )
      (refl, omega arith, refl)
