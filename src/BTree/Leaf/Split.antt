-- ===== src/BTree/Leaf/Split.antt =====
-- `split`: both halves are leaves, and between them they hold what the leaf held.
use dex_partial.Base.{
  ℕ, ◌+◌, ◌-◌, ◌/◌, ◌≤◌, ◌<◌, ◌≡◌, inl, inr, refl, arith, ltb, leb, if◌then◌else◌, none, some,
  Bool-cases,
}
use dex_partial.BTree.Node.{range_valid}
use dex_partial.BTree.Leaf.{Leaf, keys, find, split}
use dex_partial.BTree.Leaf.Lookup.{IsValid, find_at, find_absent, find_cases}

module _ {V : Type 0} (leaf new_leaf : Leaf V) (remote : ℕ) (valid : IsValid leaf)
    (two : 2 ≤ leaf.base.count) where
  abbrev pub left : Leaf V
  left = (split leaf new_leaf remote).0

  abbrev pub right : Leaf V
  right = (split leaf new_leaf remote).1

  abbrev pub half : ℕ
  half = leaf.base.count / 2

  -- The last key that stays in the left half.
  abbrev pub sep : ℕ
  sep = keys leaf (half - 1)

  pub record Halves : Type 0 where
    pub separator : (split leaf new_leaf remote).2 ≡ some sep
    pub left_count : left.base.count ≡ half
    pub right_count : right.base.count + half ≡ leaf.base.count
    pub left_entries : (i : ℕ) → left.entries i ≡ leaf.entries i
    pub right_entries :
        (i : ℕ) → i + half < leaf.base.count → right.entries i ≡ leaf.entries (i + half)
    pub left_min : left.base.min_limit ≡ leaf.base.min_limit
    pub left_max : left.base.max_limit ≡ sep
    pub right_min : right.base.min_limit ≡ sep
    pub right_max : right.base.max_limit ≡ leaf.base.max_limit
    pub left_versions : left.base.front_version ≡ left.back_version
    pub right_versions :
        new_leaf.base.front_version ≡ new_leaf.back_version
        → right.base.front_version ≡ right.back_version

  pub halves : Halves
  unfolding split
  halves = record {
    separator = ground (arith, valid.few);
    left_count = omega (arith, valid.few);
    right_count = omega (arith, valid.few);
    left_entries = λ i. refl;
    right_entries = λ i h. ground (arith, valid.few);
    left_min = refl;
    left_max = ground (arith, valid.few);
    right_min = ground (arith, valid.few);
    right_max = refl;
    left_versions = ground (arith, valid.consistent);
    right_versions = λ h. h;
  }

  -- The leaf is divided at a separator, which is where the key ranges of the halves meet.
  pub record IsDivided : Type 0 where
    pub left_valid : IsValid left
    pub right_valid : IsValid right
    pub reported : (split leaf new_leaf remote).2 ≡ some left.base.max_limit
    pub meet : right.base.min_limit ≡ left.base.max_limit
    pub from_min : left.base.min_limit ≡ leaf.base.min_limit
    pub to_max : right.base.max_limit ≡ leaf.base.max_limit
    pub all_counted : left.base.count + right.base.count ≡ leaf.base.count
    pub left_some : 0 < left.base.count
    pub right_some : 0 < right.base.count

  -- `split` of a well formed leaf of two entries or more, into a node as its constructor leaves it, makes
  -- two well formed leaves, neither empty, whose key ranges meet at the separator that it reports and
  -- together are the range of the leaf.
  pub split-IsDivided : new_leaf.base.front_version ≡ new_leaf.back_version → IsDivided
  unfolding range_valid
  split-IsDivided fresh = record {
    left_valid = record {
      few = omega (arith, h.left_count, valid.few);
      sorted = λ i j p q.
          ground (arith, h.left_count, h.left_entries i, h.left_entries j, valid.sorted i j);
      in_range = λ i p. ground (
        arith,
        h.left_count,
        h.left_min,
        h.left_max,
        h.left_entries i,
        valid.in_range i,
        valid.sorted i (half - 1),
      );
      consistent = h.left_versions;
    };
    right_valid = record {
      few = omega (arith, h.right_count, valid.few);
      sorted = λ i j p q. ground (
        arith,
        h.right_count,
        h.right_entries i,
        h.right_entries j,
        valid.sorted (i + half) (j + half),
      );
      in_range = λ i p. ground (
        arith,
        h.right_count,
        h.right_min,
        h.right_max,
        h.right_entries i,
        valid.in_range (i + half),
        valid.sorted (half - 1) (i + half),
      );
      consistent = h.right_versions fresh;
    };
    reported = ground (arith, h.separator, h.left_max);
    meet = ground (arith, h.right_min, h.left_max);
    from_min = h.left_min;
    to_max = h.right_max;
    all_counted = omega (arith, h.left_count, h.right_count);
    left_some = omega (arith, h.left_count);
    right_some = omega (arith, h.left_count, h.right_count);
  }
    where
      h : Halves
      h = halves

  -- After a split of a well formed leaf with at least two entries into a new leaf with equal
  -- versions, a lookup in the half that the separator names finds what the leaf held, and the other
  -- half holds nothing under the key.
  pub find-split :
      new_leaf.base.front_version ≡ new_leaf.back_version
      → (k : ℕ)
      → (find left k ≡ (if leb k sep then find leaf k else none))
        × (find right k ≡ (if leb k sep then none else find leaf k))
  find-split fresh k = elim (find_cases leaf valid.sorted valid.few k) [
    | inl (i, p, e, _) ↦
        let old = find_at leaf valid.sorted valid.few i k p e in
        elim (Bool-cases (ltb i half)) [
          | inl low ↦ (
            ground (
              arith,
              old,
              h.left_count,
              h.left_entries i,
              valid.sorted i (half - 1),
              find_at left v.left_valid.sorted v.left_valid.few i k,
            ),
            ground (
              arith,
              old,
              valid.sorted i (half - 1),
              find_absent right v.right_valid.sorted v.right_valid.few k (λ j q.
                  ground (arith, h.right_count, h.right_entries j, valid.sorted i (j + half))),
            ),
          )
          | inr high ↦ (
            ground (
              arith,
              old,
              valid.sorted (half - 1) i,
              find_absent left v.left_valid.sorted v.left_valid.few k
                  (λ j q. ground (arith, h.left_count, h.left_entries j, valid.sorted j i)),
            ),
            ground (
              arith,
              old,
              h.right_count,
              h.right_entries (i - half),
              valid.sorted (half - 1) i,
              find_at right v.right_valid.sorted v.right_valid.few (i - half) k,
            ),
          )
        ]
    | inr (_, absent) ↦ (
      ground (
        arith,
        find_absent leaf valid.sorted valid.few k absent,
        find_absent left v.left_valid.sorted v.left_valid.few k
            (λ j q. ground (arith, h.left_count, h.left_entries j, absent j)),
      ),
      ground (
        arith,
        find_absent leaf valid.sorted valid.few k absent,
        find_absent right v.right_valid.sorted v.right_valid.few k
            (λ j q. ground (arith, h.right_count, h.right_entries j, absent (j + half))),
      ),
    )
  ]
    where
      h : Halves
      h = halves

      v : IsDivided
      v = split-IsDivided fresh
