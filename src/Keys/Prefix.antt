-- ===== src/Keys/Prefix.antt =====
-- Prefixes of keys: the keys with the first bytes of a key are those between `get_leftmost` and
-- `get_rightmost`, and `longest_common_prefix` is where two keys part.
use native.Mathlib.Nat.{pow-succ', one-le-pow, mul-le-mul_left}
use dex_partial.Base.{
  ℕ, zero, suc, ◌+◌, ◌-◌, ◌*◌, ◌^◌, ◌≤◌, ◌<◌, ◌≡◌, ◌≢◌, ◌↔◌, refl, ap, ◌∙◌, arith, ltb, leb, ◌==◌,
  Bool-cases, inl, inr, false,
}
use dex_partial.Keys.{
  key_len, Key, key2int, get_partial, get_leftmost, get_rightmost, prefix_loop,
  longest_common_prefix,
}
use dex_partial.Keys.Value.{value, key2int-value}

value_same : (n : ℕ) (a b : Key) → ((i : ℕ) → i < n → a i ≡ b i) → value n a ≡ value n b
unfolding value
value_same zero a b h = refl
value_same (suc n) a b h = omega (arith, value_same n a b (λ i z. h i (omega arith)), h n)

value_unique :
    (n : ℕ) (a b : Key)
    → ((i : ℕ) → a i < 256)
    → ((i : ℕ) → b i < 256)
    → value n a ≡ value n b
    → (i : ℕ) → i < n
    → a i ≡ b i
unfolding value
value_unique zero a b x y e i h = absurd (omega arith)
value_unique (suc n) a b x y e i h = elim (Bool-cases (i == n)) [
  | inl o ↦ let same : i ≡ n = ground (arith, o) in rw same (omega (arith, x n, y n, e))
  | inr o ↦ value_unique n a b x y (omega (arith, x n, y n, e)) i (ground (arith, o))
]

-- The bytes after the first `d`.
after_first :
    (d j m : ℕ) (k : Key)
    → ((i : ℕ) → k i < 256)
    → m ≡ j + d
    → (256 ^ j * value d k ≤ value m k) × (value m k < 256 ^ j * (value d k + 1))
unfolding value
after_first d zero m k bytes e = let same : m ≡ d = omega (arith, e) in rw same (omega arith)
after_first d (suc j) zero k bytes e = absurd (omega (arith, e))
after_first d (suc j) (suc m) k bytes e =
    let (low, high) = after_first d j m k bytes (omega (arith, e)) in
    let a = ap (λ (t : ℕ). t * value d k) (pow-succ' 256 j) in
    let b = ap (λ (t : ℕ). t * (value d k + 1)) (pow-succ' 256 j) in
    omega (arith, low, high, a, b, bytes m)

-- Past the first `d` bytes, zeros and ones.
leftmost_value :
    (k : Key) (d j m : ℕ) → m ≡ j + d → value m (get_leftmost k d) ≡ 256 ^ j * value d k
unfolding value get_leftmost
leftmost_value k d zero m e =
    let same : m ≡ d = omega (arith, e) in
    rw same (value_same d (get_leftmost k d) k (λ i z. ground arith) ∙ omega arith)
leftmost_value k d (suc j) zero e = absurd (omega (arith, e))
leftmost_value k d (suc j) (suc m) e =
    let past : (ltb m d) ≡ false = ground (arith, e) in
    let a = ap (λ (t : ℕ). t * value d k) (pow-succ' 256 j) in
    rw past (omega (arith, leftmost_value k d j m (omega (arith, e)), a))

rightmost_value :
    (k : Key) (d j m : ℕ) → m ≡ j + d → value m (get_rightmost k d) + 1 ≡ 256 ^ j * (value d k + 1)
unfolding value get_rightmost
rightmost_value k d zero m e =
    let same : m ≡ d = omega (arith, e) in
    let first = value_same d (get_rightmost k d) k (λ i z. ground arith) in
    rw same (omega (arith, first))
rightmost_value k d (suc j) zero e = absurd (omega (arith, e))
rightmost_value k d (suc j) (suc m) e =
    let past : (ltb m d) ≡ false = ground (arith, e) in
    let a = ap (λ (t : ℕ). t * (value d k + 1)) (pow-succ' 256 j) in
    rw past (omega (arith, rightmost_value k d j m (omega (arith, e)), a))

-- Two multiples that a number is between are one.
between : (p a b v : ℕ) → 0 < p → p * a ≤ v → v < p * (b + 1) → a ≤ b
between p a b v pos low high = elim (Bool-cases (leb a b)) [
  | inl o ↦ ground (arith, o)
  | inr o ↦
      let more : b + 1 ≤ a = ground (arith, o) in
      absurd (omega (arith, low, high, mul-le-mul_left p more))
]

end_bytes :
    (k : Key) (d : ℕ)
    → ((i : ℕ) → k i < 256)
    → ((i : ℕ) → get_leftmost k d i < 256) × ((i : ℕ) → get_rightmost k d i < 256)
unfolding get_leftmost get_rightmost
end_bytes k d bytes = ((λ i. ground (arith, bytes i)), (λ i. ground (arith, bytes i)))

-- For keys of bytes and a depth of at most `key_len`: a key has the first `depth` bytes of another exactly when it is, as a
-- number, from the other's leftmost to its rightmost key at the depth.
pub leftmost-rightmost_iff :
    (k q : Key) (depth : ℕ)
    → ((i : ℕ) → k i < 2 ^ 8)
    → ((i : ℕ) → q i < 2 ^ 8)
    → depth ≤ key_len
    → ((i : ℕ) → i < depth → q i ≡ k i) ↔ (
        (key2int (get_leftmost k depth) ≤ key2int q)
        × (key2int q ≤ key2int (get_rightmost k depth)))
leftmost-rightmost_iff k q depth bytes q_bytes deep =
    let j = key_len - depth in
    let e : key_len ≡ j + depth = omega (arith, deep) in
    let (l, r) = end_bytes k depth bytes in
    let (low, high) = after_first depth j key_len q q_bytes e in
    let left = leftmost_value k depth j key_len e in
    let right = rightmost_value k depth j key_len e in
    let pos : 0 < 256 ^ j = one-le-pow j 256 (omega arith) in
    rw
      (
        key2int-value (get_leftmost k depth) l,
        key2int-value (get_rightmost k depth) r,
        key2int-value q q_bytes,
      )
      (
        (λ same.
            let one = value_same depth q k same in
            (
              omega (arith, left, low, ap (λ (t : ℕ). 256 ^ j * t) one),
              omega (arith, right, high, ap (λ (t : ℕ). 256 ^ j * (t + 1)) one),
            )),
        (λ (above, below) i z.
            let p : value depth k ≤ value depth q =
              between (256 ^ j) (value depth k) (value depth q) (value key_len q) pos
                (omega (arith, left, above)) high in
            let r' : value depth q ≤ value depth k =
              between (256 ^ j) (value depth q) (value depth k) (value key_len q) pos low
                (omega (arith, right, below)) in
            value_unique depth q k q_bytes bytes (omega (arith, p, r')) i z),
      )

prefix_loop_lem :
    (left : ℕ) (a b : Key) (depth idx : ℕ)
    → (idx ≤ prefix_loop left a b depth idx)
      × (prefix_loop left a b depth idx ≤ idx + left)
      × ((i : ℕ)
          → idx ≤ i
          → i < prefix_loop left a b depth idx
          → get_partial a (depth + i) ≡ get_partial b (depth + i))
      × (prefix_loop left a b depth idx < idx + left
          → get_partial a (depth + prefix_loop left a b depth idx)
            ≢ get_partial b (depth + prefix_loop left a b depth idx))
unfolding prefix_loop
prefix_loop_lem zero a b depth idx =
    (omega arith, omega arith, (λ i h z. absurd (omega arith)), (λ h. absurd (omega arith)))
prefix_loop_lem (suc left) a b depth idx =
    let (low, high, same, differ) = prefix_loop_lem left a b depth (idx + 1) in
    elim (Bool-cases (get_partial a (depth + idx) == get_partial b (depth + idx))) [
      | inr o ↦
          rw o (
            omega arith,
            omega arith,
            (λ i h z. absurd (omega arith)),
            (λ h z. ground (arith, o, z)),
          )
      | inl o ↦ rw o (
        omega (arith, low),
        omega (arith, high),
        (λ i h z. elim (Bool-cases (i == idx)) [
          | inl x ↦ let here : i ≡ idx = ground (arith, x) in rw here (ground (arith, o))
          | inr x ↦ same i (ground (arith, x)) z
        ]),
        (λ h. differ (omega (arith, h))),
      )
    ]

-- At a depth of at most `key_len`, `longest_common_prefix` is the number of partials from the depth on in which two keys agree:
-- they agree in all of those, and unless these are all that are left they differ in the next.
pub longest_common_prefix_lem :
    (a b : Key) (depth : ℕ)
    → depth ≤ key_len
    → (depth + longest_common_prefix a b depth ≤ key_len + 1)
      × ((i : ℕ)
          → i < longest_common_prefix a b depth
          → get_partial a (depth + i) ≡ get_partial b (depth + i))
      × (depth + longest_common_prefix a b depth ≤ key_len
          → get_partial a (depth + longest_common_prefix a b depth)
            ≢ get_partial b (depth + longest_common_prefix a b depth))
unfolding longest_common_prefix
longest_common_prefix_lem a b depth deep =
    let (_, high, same, differ) = prefix_loop_lem (key_len - depth + 1) a b depth 0 in
    (
      omega (arith, high, deep),
      (λ i z. same i (omega arith) z),
      (λ h. differ (omega (arith, h, deep))),
    )
