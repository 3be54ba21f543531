-- ===== src/BTree/Inner/Closest.antt =====
-- `closest_set`: which index it returns.
use dex_partial.Base.{
  ℕ, ◌+◌, ◌-◌, ◌^◌, ◌≤◌, ◌<◌, ◌≡◌, ◌≢◌, ◌⊎◌, inl, inr, arith, true, false, ◌&&◌, ltb, leb, ◌==◌,
  if◌then◌else◌, Bool-cases, ◌∙◌, sym, ltb→lt, bit_and, min,
}
use dex_partial.Base.Int.{pos, negsuc, sub_ℕ}
use dex_partial.Base.Bits.{
  bit, bit-le, bit-zero, eq_of_bits, bit-bit_and, bit_mask, bit-complement, bit_high, pow_lt,
}
use dex_partial.BTree.Inner.{Inner, tzcnt_loop, lzcnt_loop, closest_set}
use dex_partial.BTree.Inner.Loops.{tzcnt_loop_lem, lzcnt_loop_lem}

-- The distance between two indices.
abbrev dist : ℕ → ℕ → ℕ
dist a b = (a - b) + (b - a)

-- The set bit of a word that is nearest to `p`; of two at one distance, the lower.
pub record Nearest (b p r : ℕ) : Type 0 where
  pub is_set : bit b r ≡ 1
  pub nearest : (j : ℕ) → bit b j ≡ 1 → dist p r ≤ dist p j

module _ (inner : Inner) (p : ℕ) where
  abbrev b : ℕ
  b = inner.base.bitmap

  abbrev rights : ℕ
  rights = bit_and b (2 ^ 64 - 1 - (2 ^ p - 1))

  abbrev lefts : ℕ
  lefts = bit_and b (2 ^ p - 1)

  bit-rights : (i : ℕ) → p < 64 → bit rights i ≡ (if leb p i && ltb i 64 then bit b i else 0)
  bit-rights i h =
      let c = bit-complement 64 (2 ^ p - 1) i (omega (arith, pow_lt p 64 h)) in
      rw (bit-bit_and, c, bit_mask) (ground (arith, bit-le b i))

  bit-lefts : (i : ℕ) → bit lefts i ≡ (if ltb i p then bit b i else 0)
  bit-lefts i = rw (bit-bit_and, bit_mask) (ground (arith, bit-le b i))

  closest_set_zero : b ≡ 0 → closest_set inner p ≡ negsuc 0
  unfolding closest_set
  closest_set_zero e = ground arith

  zero_of_bits : (x : ℕ) → ((i : ℕ) → bit x i ≡ 0) → x ≡ 0
  zero_of_bits x h = eq_of_bits x x 0 (omega arith) (omega arith) (λ i. h i ∙ sym (bit-zero i))

  abbrev right_gap : ℕ
  right_gap = if rights == 0 then 64 else tzcnt_loop 64 0 rights - p

  abbrev left_gap : ℕ
  left_gap = if lefts == 0 then 64 else p - (63 - lzcnt_loop 64 lefts)

  -- What a gap says: how far the next set bit is, or that there is none on that side.
  right_gap_cases :
      b < 2 ^ 64
      → p < 64
      → ((right_gap ≡ 64) × ((j : ℕ) → p ≤ j → bit b j ≡ 0))
        ⊎ ((p + right_gap < 64)
            × (bit b (p + right_gap) ≡ 1)
            × ((j : ℕ) → p ≤ j → j < p + right_gap → bit b j ≡ 0))
  right_gap_cases word small = elim (Bool-cases (rights == 0)) [
    | inl e ↦
        inl (rw e, λ j h. ground (arith, bit-rights j small, bit_high 64 b j word, bit-zero j))
    | inr e ↦
        let (low, below, at, high) = tzcnt_loop_lem 64 0 rights in
        let t = tzcnt_loop 64 0 rights in
        let found : t < 64 = elim (Bool-cases (ltb t 64)) [
          | inl q ↦ ltb→lt _ _ q
          | inr q ↦ absurd (
              ground
                (arith, zero_of_bits rights (λ i. ground (arith, below i, bit-rights i small))))
        ] in
        let after : p ≤ t = ground (arith, bit-rights t small) in
        inr (
          rw e (omega arith),
          rw e (ground (arith, bit-rights t small)),
          rw e (λ j h q. ground (arith, below j, bit-rights j small)),
        )
  ]

  left_gap_cases :
      p < 64
      → ((left_gap ≡ 64) × ((j : ℕ) → j < p → bit b j ≡ 0))
        ⊎ ((0 < left_gap)
            × (left_gap ≤ p)
            × (bit b (p - left_gap) ≡ 1)
            × ((j : ℕ) → p - left_gap < j → j < p → bit b j ≡ 0))
  left_gap_cases small = elim (Bool-cases (lefts == 0)) [
    | inl e ↦ inl (rw e, λ j h. ground (arith, bit-lefts j, bit-zero j))
    | inr e ↦
        let (low, above, at) = lzcnt_loop_lem 64 lefts in
        let t = 63 - lzcnt_loop 64 lefts in
        let found : lzcnt_loop 64 lefts < 64 = elim (Bool-cases (ltb (lzcnt_loop 64 lefts) 64)) [
          | inl q ↦ ltb→lt _ _ q
          | inr q ↦
              absurd
                (ground (arith, zero_of_bits lefts (λ i. ground (arith, above i, bit-lefts i))))
        ] in
        let before : t < p = ground (arith, bit-lefts t) in
        inr (
          rw e (omega arith),
          rw e (omega arith),
          rw e (ground (arith, bit-lefts t)),
          rw e (λ j h q. ground (arith, above j, bit-lefts j)),
        )
  ]

  closest_set_eq :
      b ≢ 0
      → p < 64
      → closest_set inner p ≡ (
          if ltb right_gap left_gap && ltb (p + right_gap) (inner.base.count + 1)
          then pos (p + right_gap)
          else sub_ℕ p left_gap)
  unfolding closest_set
  closest_set_eq some_bit small = let m : min p 63 ≡ p = omega arith in rw m (ground arith)

  -- The right neighbour is taken where it is nearer, and else the left one.
  take_right :
      ltb right_gap left_gap ≡ true
      → b ≢ 0
      → p < 64
      → p + right_gap ≤ inner.base.count
      → closest_set inner p ≡ pos (p + right_gap)
  take_right h some_bit small fits = rw (closest_set_eq some_bit small) (ground arith)

  take_left :
      ltb right_gap left_gap ≡ false
      → b ≢ 0
      → p < 64
      → left_gap ≤ p
      → closest_set inner p ≡ pos (p - left_gap)
  take_left h some_bit small fits = rw (closest_set_eq some_bit small) (ground arith)

  -- In a node with less than 64 keys whose bitmap has 64 bits and no bit set above the count, and
  -- for a place up to the count: closest_set returns the set bit nearest to the place, which is at
  -- most the count, and -1 if the bitmap is empty.
  pub closest_set-Nearest :
      b < 2 ^ 64
      → inner.base.count < 64
      → p ≤ inner.base.count
      → ((i : ℕ) → inner.base.count < i → bit b i ≡ 0)
      → ((b ≡ 0) × (closest_set inner p ≡ negsuc 0))
        ⊎ ((r : ℕ) × (closest_set inner p ≡ pos r) × (r ≤ inner.base.count) × Nearest b p r)
  closest_set-Nearest word few inside rest = elim (Bool-cases (b == 0)) [
    | inl e ↦ inl (ground arith, closest_set_zero (ground arith))
    | inr e ↦
        let some_bit : b ≢ 0 = ground arith in
        inr (elim (right_gap_cases word (omega arith)) [
          | inr (rs, ra, rn) ↦
              let fits : p + right_gap ≤ inner.base.count = ground (arith, rest (p + right_gap)) in
              elim (Bool-cases (ltb right_gap left_gap)) [
                | inl lt ↦ (
                  p + right_gap,
                  take_right lt some_bit (omega arith) fits,
                  fits,
                  record {
                    is_set = ra;
                    nearest = elim (left_gap_cases (omega arith)) [
                      | inl (_, lz) ↦ λ j h. ground (arith, rn j, lz j)
                      | inr (_, ls, _, ln) ↦ λ j h. ground (arith, rn j, ln j)
                    ];
                  },
                )
                | inr ge ↦ elim (left_gap_cases (omega arith)) [
                  | inl (big, _) ↦ absurd (ground arith)
                  | inr (lp, ls, la, ln) ↦ (
                    p - left_gap,
                    take_left ge some_bit (omega arith) ls,
                    omega arith,
                    record { is_set = la; nearest = λ j h. ground (arith, ln j, rn j) },
                  )
                ]
              ]
          | inl (rbig, rn) ↦ elim (left_gap_cases (omega arith)) [
            | inl (_, lz) ↦ absurd (some_bit (zero_of_bits b (λ i. ground (arith, lz i, rn i))))
            | inr (lp, ls, la, ln) ↦ (
              p - left_gap,
              take_left (ground arith) some_bit (omega arith) ls,
              omega arith,
              record { is_set = la; nearest = λ j h. ground (arith, ln j, rn j) },
            )
          ]
        ])
  ]
