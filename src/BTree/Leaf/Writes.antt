-- ===== src/BTree/Leaf/Writes.antt =====
-- What `insert` writes on each branch, cell by cell, and what `find` reads in such a node.
use dex_partial.Base.{
  ℕ, ◌+◌, ◌-◌, ◌≤◌, ◌<◌, ◌≡◌, ◌≢◌, inl, inr, arith, true, false, ◌==◌, if◌then◌else◌, some,
  Bool-cases, write, ◌∙◌, sym,
}
use dex_partial.BTree.Search.{IsSorted, Splits}
use dex_partial.BTree.Node.{range_valid}
use dex_partial.BTree.Leaf.{Leaf, max_entries, keys, lower_bound, find, insert, bump, set_dirty}
use dex_partial.BTree.Leaf.Lookup.{IsValid, place, place_of_key, find_at, find_absent, find_cases}

-- `m` has the entries of `leaf` with a new one at `pos`, and the same key range.
pub record Opens {V : Type 0} (leaf m : Leaf V) (pos k : ℕ) (p : V) : Type 0 where
  pub count : m.base.count ≡ leaf.base.count + 1
  pub low : (j : ℕ) → j < pos → m.entries j ≡ leaf.entries j
  pub here : m.entries pos ≡ (k, p)
  pub high : (j : ℕ) → pos < j → j ≤ leaf.base.count → m.entries j ≡ leaf.entries (j - 1)
  pub min_limit : m.base.min_limit ≡ leaf.base.min_limit
  pub max_limit : m.base.max_limit ≡ leaf.base.max_limit
  pub consistent :
      leaf.base.front_version ≡ leaf.back_version → m.base.front_version ≡ m.back_version

module _ {V : Type 0} (leaf : Leaf V) (valid : IsValid leaf) (k : ℕ) (p : V) where
  -- A key that the leaf holds is overwritten in place, full or not.
  pub insert_present :
      (i : ℕ)
      → i < leaf.base.count
      → keys leaf i ≡ k
      → insert leaf k p
        ≡ (bump (record (set_dirty leaf) { entries = write leaf.entries i (k, p) }), false)
  unfolding insert
  insert_present i h e = rw (place_of_key leaf valid.sorted valid.few i k h e) (ground arith)

  pub insert_full :
      leaf.base.count ≡ max_entries
      → ((i : ℕ) → i < leaf.base.count → keys leaf i ≢ k)
      → insert leaf k p ≡ (set_dirty leaf, false)
  unfolding insert
  insert_full full absent = ground (arith, absent (lower_bound leaf k))

  pub insert_room :
      leaf.base.count < max_entries
      → ((i : ℕ) → i < leaf.base.count → keys leaf i ≢ k)
      → (pos : ℕ) × Splits (keys leaf) leaf.base.count k pos
        × Opens leaf (insert leaf k p).0 pos k p
        × ((insert leaf k p).1 ≡ true)
  unfolding insert
  insert_room room absent = elim (Bool-cases (leaf.base.count == 0)) [
    | inl e ↦ (
      0,
      record {
        inside = omega arith;
        below = λ i h. absurd (omega arith);
        above = λ i h q. ground arith;
      },
      record {
        count = ground arith;
        low = λ j h. absurd (omega arith);
        here = ground arith;
        high = λ j h q. ground arith;
        min_limit = ground arith;
        max_limit = ground arith;
        consistent = λ h. ground arith;
      },
      ground arith,
    )
    | inr e ↦
        let s = place leaf valid.sorted valid.few (ground arith) k in
        let a = absent (lower_bound leaf k) in
        (
          lower_bound leaf k,
          s,
          record {
            count = ground arith;
            low = λ j h. ground (arith, s.inside);
            here = ground arith;
            high = λ j h q. ground arith;
            min_limit = ground arith;
            max_limit = ground arith;
            consistent = λ h. ground arith;
          },
          ground arith,
        )
  ]

module _ {V : Type 0} (leaf m : Leaf V) (valid : IsValid leaf) (pos k : ℕ) (p : V)
    (splits : Splits (keys leaf) leaf.base.count k pos)
    (absent : (i : ℕ) → i < leaf.base.count → keys leaf i ≢ k) (opens : Opens leaf m pos k p) where
  Opens-IsSorted : IsSorted (keys m) m.base.count
  Opens-IsSorted i j h q = ground (
    arith,
    opens.count,
    opens.here,
    opens.low i,
    opens.low j,
    opens.high i,
    opens.high j,
    splits.below i,
    splits.below j,
    splits.above (i - 1),
    splits.above (j - 1),
    absent (j - 1),
    absent (i - 1),
    valid.sorted i j,
    valid.sorted i (j - 1),
    valid.sorted (i - 1) (j - 1),
    splits.inside,
  )

  pub Opens-find :
      leaf.base.count < max_entries → (q : ℕ) → find m q ≡ (if q == k then some p else find leaf q)
  Opens-find room q = elim (Bool-cases (q == k)) [
    | inl e ↦
        let at =
          find_at m Opens-IsSorted (omega (arith, opens.count)) pos q
            (omega (arith, opens.count, splits.inside)) (ground (arith, opens.here)) in
        rw e (ground (arith, at, opens.here))
    | inr e ↦ rw e (elim (find_cases leaf valid.sorted valid.few q) [
      | inl (i, h, eq, _) ↦ ground (
        arith,
        opens.count,
        opens.low i,
        opens.high (i + 1),
        find_at leaf valid.sorted valid.few i q h eq,
        find_at m Opens-IsSorted (omega (arith, opens.count)) i q,
        find_at m Opens-IsSorted (omega (arith, opens.count)) (i + 1) q,
      )
      | inr (_, none_is) ↦
          find_absent m Opens-IsSorted (omega (arith, opens.count)) q (λ j h. ground (
            arith,
            opens.count,
            opens.here,
            opens.low j,
            opens.high j,
            none_is j,
            none_is (j - 1),
            splits.inside,
          ))
          ∙ sym (find_absent leaf valid.sorted valid.few q none_is)
    ])
  ]

  pub Opens-IsValid : leaf.base.count < max_entries → range_valid leaf.base k ≡ true → IsValid m
  unfolding range_valid
  Opens-IsValid room ok = record {
    few = omega (arith, opens.count);
    sorted = Opens-IsSorted;
    in_range = λ i h. ground (
      arith,
      opens.count,
      opens.here,
      opens.low i,
      opens.high i,
      opens.min_limit,
      opens.max_limit,
      valid.in_range i,
      valid.in_range (i - 1),
      splits.inside,
    );
    consistent = opens.consistent valid.consistent;
  }

-- An overwrite keeps every key, so the searches for other keys go on as before.
module _ {V : Type 0} (leaf : Leaf V) (valid : IsValid leaf) (k : ℕ) (p : V) (i : ℕ)
    (inside : i < leaf.base.count) (same : keys leaf i ≡ k) where
  abbrev pub overwritten : Leaf V
  overwritten = bump (record (set_dirty leaf) { entries = write leaf.entries i (k, p) })

  overwritten-keys : (j : ℕ) → keys overwritten j ≡ keys leaf j
  overwritten-keys j = ground arith

  overwritten-IsSorted : IsSorted (keys overwritten) leaf.base.count
  overwritten-IsSorted a b h q = ground (arith, valid.sorted a b)

  pub overwritten-find : (q : ℕ) → find overwritten q ≡ (if q == k then some p else find leaf q)
  overwritten-find q = elim (find_cases leaf valid.sorted valid.few q) [
    | inl (j, h, e, _) ↦ ground (
      arith,
      find_at leaf valid.sorted valid.few j q h e,
      find_at overwritten overwritten-IsSorted valid.few j q h,
      valid.sorted i j,
      valid.sorted j i,
    )
    | inr (_, absent) ↦ ground (
      arith,
      absent i,
      find_absent leaf valid.sorted valid.few q absent,
      find_absent overwritten overwritten-IsSorted valid.few q (λ j h. ground (arith, absent j)),
    )
  ]

  pub overwritten-IsValid : IsValid overwritten
  unfolding range_valid
  overwritten-IsValid = record {
    few = valid.few;
    sorted = overwritten-IsSorted;
    in_range = λ j h. ground (arith, valid.in_range j h);
    consistent = ground (arith, valid.consistent);
  }
