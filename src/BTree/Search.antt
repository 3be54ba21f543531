-- ===== src/BTree/Search.antt =====
-- The binary search that the leaf and the inner node share, and what it returns.
use dex_partial.Base.{
  ℕ, zero, suc, ◌+◌, ◌-◌, ◌/◌, ◌^◌, ◌≤◌, ◌<◌, ◌≡◌, arith, Array, ltb, if◌then◌else◌, add32, sub32,
  inl, inr, Bool-cases, ltb→lt,
}

-- `((upper - lower) / 2) + lower`
unfoldable pub midpoint : ℕ → ℕ → ℕ
midpoint lower upper = add32 (sub32 upper lower / 2) lower

-- The `do { … } while (lower < upper)` loop: each unit of fuel is a run of the body.
unfoldable pub search_loop : ℕ → Array ℕ → ℕ → ℕ → ℕ → ℕ
search_loop zero keys k lower upper = lower
search_loop (suc fuel) keys k lower upper =
    let mid = midpoint lower upper in
    let left = if ltb lower mid then search_loop fuel keys k lower mid else lower in
    let right =
      if ltb (add32 mid 1) upper
      then search_loop fuel keys k (add32 mid 1) upper
      else add32 mid 1 in
    if ltb k (keys mid) then left else if ltb (keys mid) k then right else mid

-- Each run of the body shortens the range, so that `count + 1` runs are enough.
unfoldable pub lower_bound : Array ℕ → ℕ → ℕ → ℕ
unfolding search_loop midpoint
lower_bound keys count k = search_loop (suc count) keys k 0 count

-- Strictly ascending keys in the first `count` cells.
abbrev pub IsSorted : Array ℕ → ℕ → Type 0
IsSorted keys count = (i j : ℕ) → i < j → j < count → keys i < keys j

-- `r` separates the keys below `k` from the others.
pub record Splits (keys : Array ℕ) (count k r : ℕ) : Type 0 where
  pub inside : r ≤ count
  pub below : (i : ℕ) → i < r → keys i < k
  pub above : (i : ℕ) → r ≤ i → i < count → k ≤ keys i

midpoint_exact :
    (lower upper : ℕ) → lower < upper → upper < 2 ^ 32 → midpoint lower upper ≡ (lower + upper) / 2
unfolding midpoint
midpoint_exact lower upper p q = omega arith

add32_exact : (m : ℕ) → m + 1 < 2 ^ 32 → add32 m 1 ≡ m + 1
add32_exact m h = omega arith

module _ (keys : Array ℕ) (count k : ℕ) (sorted : IsSorted keys count)
    (small : count < 2 ^ 32) where
  -- What the loop knows: the keys left of `lower` are below `k`, those from `upper` on are not.
  record Around (lower upper : ℕ) : Type 0 where
    ordered : lower ≤ upper
    inside : upper ≤ count
    below : (i : ℕ) → i < lower → keys i < k
    above : (i : ℕ) → upper ≤ i → i < count → k ≤ keys i

  Around-hit : (m : ℕ) → m < count → keys m ≡ k → Splits keys count k m
  Around-hit m h e = record {
    inside = omega arith;
    below = λ i p. omega (arith, sorted i m p h);
    above = λ i p q. ground (arith, sorted m i);
  }

  Around-left : (l u m : ℕ) → Around l u → l ≤ m → m < u → k < keys m → Around l m
  Around-left l u m a p q h = record {
    ordered = p;
    inside = omega arith;
    below = a.below;
    above = λ i r s. ground (arith, sorted m i);
  }

  Around-right : (l u m : ℕ) → Around l u → l ≤ m → m < u → keys m < k → Around (m + 1) u
  Around-right l u m a p q h = record {
    ordered = omega arith;
    inside = a.inside;
    below = λ i r. ground (arith, sorted i m);
    above = a.above;
  }

  Around-end : (l u : ℕ) → Around l u → u ≤ l → Splits keys count k l
  Around-end l u a h = record {
    inside = omega arith;
    below = a.below;
    above = λ i p. a.above i (omega arith);
  }

  -- The next round, or the end of the loop, from what the branches leave.
  round : ℕ → ℕ → ℕ → ℕ
  round fuel l u = if ltb l u then search_loop fuel keys k l u else l

  record Done (fuel : ℕ) : Type 0 where
    splits :
        (l u : ℕ)
        → l < u
        → u - l < fuel
        → Around l u
        → Splits keys count k (search_loop fuel keys k l u)

  round-Splits :
      (fuel l u : ℕ) → Done fuel → u - l < fuel → Around l u → Splits keys count k (round fuel l u)
  unfolding round
  round-Splits fuel l u done f a = elim (Bool-cases (ltb l u)) [
    | inl e ↦ rw e (done.splits l u (ltb→lt l u e) f a)
    | inr e ↦ rw e (Around-end l u a (ground arith))
  ]

  step-Splits :
      (fuel l u m : ℕ)
      → Done fuel
      → l ≤ m
      → m < u
      → u - l < suc fuel
      → Around l u
      → Splits keys count k (
          if ltb k (keys m)
          then round fuel l m
          else if ltb (keys m) k
          then round fuel (m + 1) u
          else m)
  step-Splits fuel l u m done p q f a = elim (Bool-cases (ltb k (keys m))) [
    | inl e ↦
        rw e (round-Splits fuel l m done (omega arith) (Around-left l u m a p q (ltb→lt _ _ e)))
    | inr e ↦ rw e (elim (Bool-cases (ltb (keys m) k)) [
      | inl e' ↦ rw e' (
          round-Splits fuel (m + 1) u done (omega arith) (Around-right l u m a p q (ltb→lt _ _ e')))
      | inr e' ↦ rw e' (Around-hit m (omega (arith, a.inside)) (ground arith))
    ])
  ]

  search_loop-Splits : (fuel : ℕ) → Done fuel
  unfolding search_loop round
  search_loop-Splits zero = record { splits = λ l u p f a. absurd (omega arith) }
  search_loop-Splits (suc fuel) = record {
    splits = λ l u p f a.
        let fits : (l + u) / 2 + 1 < 2 ^ 32 = omega (arith, a.inside) in
        rw (midpoint_exact l u p (omega (arith, a.inside)), add32_exact _ fits)
          (step-Splits fuel l u ((l + u) / 2) (search_loop-Splits fuel) (omega arith) (omega arith)
            f a);
  }

-- On sorted keys the search returns the place of `k`: all keys before it are below `k` and none from
-- it on is. The loop is entered with a key to read, as the code does where `count` is not 0.
pub lower_bound-Splits :
    (keys : Array ℕ) (count k : ℕ)
    → IsSorted keys count
    → 0 < count
    → count < 2 ^ 32
    → Splits keys count k (lower_bound keys count k)
unfolding lower_bound
lower_bound-Splits keys count k sorted some_key small =
    (search_loop-Splits keys count k sorted small (suc count)).splits 0 count some_key (omega arith)
      (record {
        ordered = omega arith;
        inside = omega arith;
        below = λ i h. absurd (omega arith);
        above = λ i p q. absurd (omega arith);
      })

-- There is only one such place.
pub lower_bound_unique :
    (keys : Array ℕ) (count k r : ℕ)
    → IsSorted keys count
    → 0 < count
    → count < 2 ^ 32
    → Splits keys count k r
    → lower_bound keys count k ≡ r
lower_bound_unique keys count k r sorted some_key small s =
    let t = lower_bound-Splits keys count k sorted some_key small in
    let r' = lower_bound keys count k in
    ground (arith, s.inside, t.inside, s.below r', s.above r, t.below r, t.above r')
