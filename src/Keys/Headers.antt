-- ===== src/Keys/Headers.antt =====
-- The headers of the nodes of the radix tree (`Header`, dex/include/smart/Node.h): the depth of a node and the
-- partials of the keys below it from there on.
use dex_partial.Base.{
  ℕ, zero, suc, ◌+◌, ◌-◌, ◌%◌, ◌^◌, ◌≤◌, ◌<◌, ◌≡◌, ◌↔◌, refl, ap, sym, ◌∙◌, arith, Bool, true,
  false, not, ◌==◌, if◌then◌else◌, Bool-cases, inl, inr, Array, write,
}
use dex_partial.Keys.{Key, get_partial}

abbrev pub h_partial_len_max : ℕ
h_partial_len_max = 6

pub record Header : Type 0 where
  pub depth : ℕ
  pub node_type : ℕ
  pub partial_len : ℕ
  pub partial : Array ℕ

-- `left` rounds of the loop from `i`.
unfoldable pub partial_loop : ℕ → Header → Key → ℕ → Bool
partial_loop zero h k i = true
partial_loop (suc left) h k i =
    let rest = partial_loop left h k (i + 1) in
    if not (get_partial k (h.depth + i) == h.partial i) then false else rest

unfoldable pub is_match : Header → Key → Bool
unfolding partial_loop
is_match h k = partial_loop h.partial_len h k 0

unfoldable pub fill_loop : ℕ → Key → ℕ → ℕ → Array ℕ → Array ℕ
fill_loop zero k depth i partial = partial
fill_loop (suc left) k depth i partial =
    fill_loop left k depth (i + 1) (write partial i (get_partial k (depth + i)))

-- The constructor from a key, for a `partial_len` of at most `h_partial_len_max`: the other partials stay as the
-- memory had them.
unfoldable pub header_of : Array ℕ → Key → ℕ → ℕ → ℕ → Header
unfolding fill_loop
header_of memory k partial_len depth node_type = record {
  depth = depth % 2 ^ 8;
  node_type = node_type % 2 ^ 5;
  partial_len = partial_len % 2 ^ 3;
  partial = fill_loop partial_len k depth 0 memory;
}

unfoldable pub split_loop : ℕ → Array ℕ → ℕ → ℕ → Array ℕ → Array ℕ
split_loop zero old diff_idx i new = new
split_loop (suc left) old diff_idx i new =
    split_loop left old diff_idx (i + 1) (write new (i - diff_idx - 1) (old i))

unfoldable pub split_header : Header → ℕ → Header
unfolding split_loop
split_header old_hdr diff_idx = record {
  depth = (old_hdr.depth + diff_idx + 1) % 2 ^ 8;
  node_type = 0;
  partial_len = (old_hdr.partial_len + 2 ^ 3 - (diff_idx + 1) % 2 ^ 3) % 2 ^ 3;
  partial =
      split_loop (old_hdr.partial_len - (diff_idx + 1)) old_hdr.partial diff_idx (diff_idx + 1)
        (λ i. 0);
}

match_only :
    (left : ℕ) (h : Header) (k : Key) (i : ℕ)
    → partial_loop left h k i ≡ true
    → (j : ℕ) → i ≤ j
    → j < i + left
    → get_partial k (h.depth + j) ≡ h.partial j
unfolding partial_loop
match_only zero h k i e j low high = absurd (omega (arith, low, high))
match_only (suc left) h k i e j low high =
    elim (Bool-cases (get_partial k (h.depth + i) == h.partial i)) [
      | inr o ↦ let s = rw o at e in absurd (cc s)
      | inl o ↦
          let s = rw o at e in
          elim (Bool-cases (j == i)) [
            | inl z ↦ let same : j ≡ i = ground (arith, z) in rw same (ground (arith, o))
            | inr z ↦ match_only left h k (i + 1) s j (ground (arith, z, low)) (omega (arith, high))
          ]
    ]

match_all :
    (left : ℕ) (h : Header) (k : Key) (i : ℕ)
    → ((j : ℕ) → i ≤ j → j < i + left → get_partial k (h.depth + j) ≡ h.partial j)
    → partial_loop left h k i ≡ true
unfolding partial_loop
match_all zero h k i e = refl
match_all (suc left) h k i e =
    let o : (get_partial k (h.depth + i) == h.partial i) ≡ true =
      ground (arith, e i (omega arith) (omega arith)) in
    rw o (match_all left h k (i + 1) (λ j p q. e j (omega (arith, p)) (omega (arith, q))))

fill_kept :
    (left : ℕ) (k : Key) (depth i : ℕ) (a : Array ℕ) (j : ℕ)
    → j < i
    → fill_loop left k depth i a j ≡ a j
unfolding fill_loop
fill_kept zero k depth i a j p = refl
fill_kept (suc left) k depth i a j p =
    let z : (j == i) ≡ false = ground (arith, p) in
    fill_kept left k depth (i + 1) (write a i (get_partial k (depth + i))) j (omega (arith, p))
    ∙ rw z refl

filled :
    (left : ℕ) (k : Key) (depth i : ℕ) (a : Array ℕ) (j : ℕ)
    → i ≤ j
    → j < i + left
    → fill_loop left k depth i a j ≡ get_partial k (depth + j)
unfolding fill_loop
filled zero k depth i a j p q = absurd (omega (arith, p, q))
filled (suc left) k depth i a j p q = elim (Bool-cases (j == i)) [
  | inr z ↦
      filled left k depth (i + 1) (write a i (get_partial k (depth + i))) j (ground (arith, z, p))
        (omega (arith, q))
  | inl z ↦
      let same : j ≡ i = ground (arith, z) in
      fill_kept left k depth (i + 1) (write a i (get_partial k (depth + i))) j (omega (arith, same))
      ∙ rw z (rw same refl)
]

-- For at most `h_partial_len_max` partials and a depth that fits its byte: the header made from a key matches exactly the keys
-- that have the key's partials from the depth on, as many as its `partial_len`, whatever the memory held.
pub is_match-header_of :
    (memory : Array ℕ) (k q : Key) (partial_len depth node_type : ℕ)
    → partial_len ≤ h_partial_len_max
    → depth < 2 ^ 8
    → (is_match (header_of memory k partial_len depth node_type) q ≡ true)
      ↔ ((i : ℕ) → i < partial_len → get_partial q (depth + i) ≡ get_partial k (depth + i))
unfolding is_match header_of
is_match-header_of memory k q len depth node_type few deep =
    let h = header_of memory k len depth node_type in
    let at : h.depth ≡ depth = omega (arith, deep) in
    let same : h.partial_len ≡ len = omega (arith, few) in
    (
      (λ e i z.
          ap (λ t. get_partial q (t + i)) (sym at)
          ∙ match_only h.partial_len h q 0 e i (omega arith) (omega (arith, z, same))
          ∙ filled len k depth 0 memory i (omega arith) (omega (arith, z))),
      (λ e. match_all h.partial_len h q 0 (λ j p z.
          ap (λ t. get_partial q (t + j)) at
          ∙ e j (omega (arith, z, same))
          ∙ sym (filled len k depth 0 memory j (omega arith) (omega (arith, z, same))))),
    )
