-- ===== src/BTree/Inner/Marks.antt =====
-- The bitmap of an inner node: bit `i` says whether child `i` is in memory.
use dex_partial.Base.{
  ℕ, zero, suc, ◌+◌, ◌-◌, ◌/◌, ◌^◌, ◌≤◌, ◌<◌, ◌≡◌, inl, inr, refl, arith, true, false, ltb, leb,
  ◌==◌, if◌then◌else◌, Bool-cases, bit_and, bit_or, sub8, ◌↔◌,
}
use dex_partial.Base.Bits.{
  bit, bit-le, has_bit, has_bit_iff, bit-bit_and, bit-bit_or, bit-shl, bit-shr, bit-mod, bit-pow,
  bit_mask, bit-complement, bit_high, pow_lt,
}
use dex_partial.BTree.Inner.{
  Inner, max_entries, lower_bound, split, insert, set_bitmap, unset_bitmap, test_bitmap,
  shifted_bitmap, bitmap_correct_loop, validate_bitmap_correctness,
}
use dex_partial.BTree.Inner.Split.{Halves, halves}
use dex_partial.BTree.Inner.Route.{IsValid, Opens, insert-Opens, place}
use dex_partial.BTree.Search.{Splits}

-- The bits of the children agree with their marks, and no bit is set past them.
pub record IsMarked (inner : Inner) : Type 0 where
  pub marks : (i : ℕ) → i ≤ inner.base.count → bit inner.base.bitmap i ≡ bit (inner.children i) 63
  pub rest : (i : ℕ) → inner.base.count < i → bit inner.base.bitmap i ≡ 0

-- `set_bitmap` sets the one bit and `unset_bitmap` clears it; `test_bimap` reads it.
pub test-set_bitmap :
    (inner : Inner) (i j : ℕ)
    → inner.base.bitmap < 2 ^ 64
    → i < 64
    → (test_bitmap (set_bitmap inner i) j ≡ (if j == i then true else test_bitmap inner j))
      × (test_bitmap (unset_bitmap inner i) j ≡ (if j == i then false else test_bitmap inner j))
unfolding test_bitmap set_bitmap unset_bitmap
test-set_bitmap inner i j word small =
    let b = inner.base.bitmap in
    (
      rw (has_bit_iff (bit_or b (2 ^ i)) j, has_bit_iff b j, bit-bit_or, bit-pow)
          (ground (arith, bit-le b j)),
      rw (has_bit_iff (bit_and b (2 ^ 64 - 1 - 2 ^ i)) j, has_bit_iff b j, bit-bit_and)
          (ground (
            arith,
            bit-le b j,
            bit-complement 64 (2 ^ i) j (pow_lt i 64 small),
            bit-pow i j,
            bit_high 64 b j word,
          )),
    )

bit-shifted :
    (b p i : ℕ)
    → p < 62
    → bit (shifted_bitmap b p) i ≡ (
        if leb i p
        then bit b i
        else if i == p + 1
        then 0
        else if ltb i 64
        then bit b (i - 1)
        else 0)
bit-shifted b p i small =
    rw (bit-bit_or, bit-bit_and, bit_mask, bit-mod 64, bit-shl, bit-shr)
      (ground (arith, bit-le b i, bit-le b (i - 1)))

-- The bitmap that `insert` computes, at place `p`.
abbrev inserted_bitmap : ℕ → ℕ → ℕ → ℕ
inserted_bitmap b p child =
    if has_bit child 63 then bit_or (shifted_bitmap b p) (2 ^ (p + 1)) else shifted_bitmap b p

bit-inserted :
    (b p child i : ℕ)
    → p < 62
    → bit (inserted_bitmap b p child) i ≡ (
        if leb i p
        then bit b i
        else if i == p + 1
        then bit child 63
        else if ltb i 64
        then bit b (i - 1)
        else 0)
bit-inserted b p child i small =
    let s = bit-shifted b p i small in
    elim (Bool-cases (has_bit child 63)) [
      | inl e ↦
          rw (e, bit-bit_or, bit-pow, s)
            (ground (arith, has_bit_iff child 63, bit-le b i, bit-le b (i - 1)))
      | inr e ↦ rw (e, s) (ground (arith, has_bit_iff child 63, bit-le child 63))
    ]

insert-bitmap :
    (inner : Inner) (k child : ℕ)
    → (insert inner k child).base.bitmap
      ≡ inserted_bitmap inner.base.bitmap (lower_bound inner k) child
unfolding insert
insert-bitmap inner k child = refl

split-bitmap :
    (inner new_inner : Inner)
    → IsValid inner
    → 4 ≤ inner.base.count
    → ((split inner new_inner).0.base.bitmap
        ≡ bit_and inner.base.bitmap (2 ^ (inner.base.count / 2 - 1 + 1) - 1))
      × ((split inner new_inner).1.base.bitmap
          ≡ inner.base.bitmap / 2 ^ (inner.base.count / 2 - 1 + 1))
unfolding split
split-bitmap inner new_inner valid four =
    let n = inner.base.count in
    let kept : sub8 (sub8 n (sub8 n (n / 2))) 1 ≡ n / 2 - 1 = omega (arith, valid.few) in
    rw kept (refl, refl)

module _ (inner : Inner) (valid : IsValid inner) (marked : IsMarked inner) where
  -- `insert` moves the bits with the children that it moves, and sets the bit of the new child if that
  -- is in memory.
  pub insert-IsMarked :
      (k child : ℕ) → inner.base.count < max_entries - 1 → IsMarked (insert inner k child)
  insert-IsMarked k child room = record {
    marks = λ i h. rw (at i) (
        ground (
          arith,
          o.count,
          o.low_children i,
          o.here_child,
          o.high_children i,
          s.inside,
          marked.marks i,
          marked.marks (i - 1),
        ));
    rest = λ i h. rw (at i) (ground (arith, o.count, s.inside, marked.rest (i - 1)));
  }
    where
      p : ℕ
      p = lower_bound inner k

      o : Opens inner (insert inner k child) p k child
      o = insert-Opens inner valid k child room

      s : Splits inner.keys inner.base.count k p
      s = place inner valid k

      at :
          (i : ℕ)
          → bit (insert inner k child).base.bitmap i ≡ (
              if leb i p
              then bit inner.base.bitmap i
              else if i == p + 1
              then bit child 63
              else if ltb i 64
              then bit inner.base.bitmap (i - 1)
              else 0)
      at i =
          rw (insert-bitmap inner k child)
            (bit-inserted inner.base.bitmap p child i (omega (arith, s.inside)))

  -- `split` divides the bits as it divides the children.
  pub split-IsMarked :
      (new_inner : Inner)
      → 4 ≤ inner.base.count
      → IsMarked (split inner new_inner).0 × IsMarked (split inner new_inner).1
  split-IsMarked new_inner four = (
    record {
      marks = λ i z. rw left_bits (ground (arith, h.left_count, h.left_children i, marked.marks i));
      rest = λ i z. rw left_bits (ground (arith, h.left_count));
    },
    record {
      marks = λ i z.
          rw right_bits
            (ground (arith, h.right_count, h.right_children i, marked.marks (i + kept + 1)));
      rest = λ i z. rw right_bits (ground (arith, h.right_count, marked.rest (i + kept + 1)));
    },
  )
    where
      kept : ℕ
      kept = inner.base.count / 2 - 1

      h : Halves inner new_inner valid four
      h = halves inner new_inner valid four

      left_bits :
          (i : ℕ)
          → bit (split inner new_inner).0.base.bitmap i
            ≡ (if ltb i (kept + 1) then bit inner.base.bitmap i else 0)
      left_bits i =
          rw ((split-bitmap inner new_inner valid four).0, bit-bit_and, bit_mask)
            (ground (arith, bit-le inner.base.bitmap i))

      right_bits :
          (i : ℕ)
          → bit (split inner new_inner).1.base.bitmap i ≡ bit inner.base.bitmap (i + (kept + 1))
      right_bits i =
          rw (split-bitmap inner new_inner valid four).1 (bit-shr (kept + 1) inner.base.bitmap i)

bitmap_correct_loop_iff :
    (n : ℕ) (inner : Inner)
    → (bitmap_correct_loop n inner ≡ true)
      ↔ ((i : ℕ) → i < n → bit inner.base.bitmap i ≡ bit (inner.children i) 63)
unfolding bitmap_correct_loop
bitmap_correct_loop_iff zero inner = ((λ _ i h. absurd (omega arith)), λ _. refl)
bitmap_correct_loop_iff (suc n) inner =
    let (to, from) = bitmap_correct_loop_iff n inner in
    let b = inner.base.bitmap in
    let c = inner.children n in
    (
      (λ e i h.
          let before : bitmap_correct_loop n inner ≡ true = ground arith in
          ground (arith, to before i, has_bit_iff c 63, has_bit_iff b n, bit-le c 63, bit-le b n)),
      (λ m. ground (
        arith,
        from (λ i h. m i (omega arith)),
        m n,
        has_bit_iff c 63,
        has_bit_iff b n,
        bit-le c 63,
        bit-le b n,
      )),
    )

-- `validate_bitmap_correctness` passes exactly when the bit of every child agrees with its mark.
pub validate_bitmap_correctness_iff :
    (inner : Inner)
    → (validate_bitmap_correctness inner ≡ true)
      ↔ ((i : ℕ) → i ≤ inner.base.count → bit inner.base.bitmap i ≡ bit (inner.children i) 63)
unfolding validate_bitmap_correctness
validate_bitmap_correctness_iff inner =
    let c = bitmap_correct_loop_iff (inner.base.count + 1) inner in
    ((λ e i h. c.0 e i (omega arith)), λ m. c.1 (λ i h. m i (omega arith)))
