-- ===== src/BTree/Inner/Route.antt =====
-- Which child a key is sent to, and how `insert` changes that.
use dex_partial.Base.{
  ℕ, ◌+◌, ◌-◌, ◌≤◌, ◌<◌, ◌≡◌, ◌≢◌, inl, inr, refl, arith, true, ◌&&◌, ltb, ◌==◌, if◌then◌else◌,
  Bool-cases,
}
use dex_partial.BTree.Search.{IsSorted, Splits, lower_bound-Splits, lower_bound_unique}
use dex_partial.BTree.Node.{range_valid}
use dex_partial.BTree.Inner.{Inner, max_entries, lower_bound, insert}

-- `children[lowerBound(k)]`, as every descent of the tree reads it.
unfoldable pub route : Inner → ℕ → ℕ
route inner k = inner.children (lower_bound inner k)

pub record IsValid (inner : Inner) : Type 0 where
  pub some_key : 0 < inner.base.count
  pub few : inner.base.count ≤ max_entries - 1
  pub sorted : IsSorted inner.keys inner.base.count
  pub in_range : (i : ℕ) → i < inner.base.count → range_valid inner.base (inner.keys i) ≡ true
  pub consistent : inner.base.front_version ≡ inner.back_version

module _ (inner : Inner) (valid : IsValid inner) where
  pub place : (k : ℕ) → Splits inner.keys inner.base.count k (lower_bound inner k)
  unfolding lower_bound
  place k =
      lower_bound-Splits inner.keys inner.base.count k valid.sorted valid.some_key
        (omega (arith, valid.few))

  pub place_unique : (k r : ℕ) → Splits inner.keys inner.base.count k r → lower_bound inner k ≡ r
  unfolding lower_bound
  place_unique k r s =
      lower_bound_unique inner.keys inner.base.count k r valid.sorted valid.some_key
        (omega (arith, valid.few)) s

-- The node after `insert`, cell by cell: the new key stands at `p`, the new child right of it.
pub record Opens (inner m : Inner) (p k child : ℕ) : Type 0 where
  pub count : m.base.count ≡ inner.base.count + 1
  pub low_keys : (j : ℕ) → j < p → m.keys j ≡ inner.keys j
  pub here_key : m.keys p ≡ k
  pub high_keys : (j : ℕ) → p < j → j ≤ inner.base.count → m.keys j ≡ inner.keys (j - 1)
  pub low_children : (j : ℕ) → j ≤ p → m.children j ≡ inner.children j
  pub here_child : m.children (p + 1) ≡ child
  pub high_children :
      (j : ℕ) → p + 1 < j → j ≤ inner.base.count + 1 → m.children j ≡ inner.children (j - 1)
  pub min_limit : m.base.min_limit ≡ inner.base.min_limit
  pub max_limit : m.base.max_limit ≡ inner.base.max_limit
  pub consistent :
      inner.base.front_version ≡ inner.back_version → m.base.front_version ≡ m.back_version

module _ (inner : Inner) (valid : IsValid inner) (k child : ℕ)
    (room : inner.base.count < max_entries - 1) where
  pub insert-Opens : Opens inner (insert inner k child) (lower_bound inner k) k child
  unfolding insert
  insert-Opens =
      let s = place inner valid k in
      record {
        count = omega arith;
        low_keys = λ j h. ground arith;
        here_key = ground arith;
        high_keys = λ j h q. ground (arith, s.inside);
        low_children = λ j h. ground (arith, s.inside);
        here_child = ground arith;
        high_children = λ j h q. ground (arith, s.inside);
        min_limit = refl;
        max_limit = refl;
        consistent = λ h. ground arith;
      }

  module _ (absent : (i : ℕ) → i < inner.base.count → inner.keys i ≢ k)
      (ok : range_valid inner.base k ≡ true) where
    abbrev p : ℕ
    p = lower_bound inner k

    -- `insert` of a new separator in the node's range, with room for it, keeps the node well formed.
    pub inner_insert-IsValid : IsValid (insert inner k child)
    unfolding range_valid
    inner_insert-IsValid =
        let o = insert-Opens in
        let s = place inner valid k in
        record {
          some_key = omega (arith, o.count);
          few = omega (arith, o.count);
          sorted = λ i j h q. ground (
            arith,
            o.count,
            o.here_key,
            o.low_keys i,
            o.low_keys j,
            o.high_keys i,
            o.high_keys j,
            s.below i,
            s.below j,
            s.above (i - 1),
            s.above (j - 1),
            absent (j - 1),
            absent (i - 1),
            valid.sorted i j,
            valid.sorted i (j - 1),
            valid.sorted (i - 1) (j - 1),
            s.inside,
          );
          in_range = λ i h. ground (
            arith,
            o.count,
            o.here_key,
            o.low_keys i,
            o.high_keys i,
            o.min_limit,
            o.max_limit,
            valid.in_range i,
            valid.in_range (i - 1),
            s.inside,
          );
          consistent = o.consistent valid.consistent;
        }

    -- In a well formed inner node with room for a key, an insert of a separator that is in its range
    -- and that it does not have redirects to the new child the keys above the separator among those
    -- of the split child, and no other key.
    pub route-insert :
        (q : ℕ)
        → route (insert inner k child) q
          ≡ (if lower_bound inner q == lower_bound inner k && ltb k q then child else route inner q)
    unfolding route
    route-insert q =
        let o = insert-Opens in
        let s = place inner valid k in
        let t = place inner valid q in
        let v = inner_insert-IsValid in
        let m = insert inner k child in
        let r = lower_bound inner q in
        elim (Bool-cases (ltb k q)) [
          | inl e ↦
              let after : p ≤ r = ground (arith, s.below r, t.above r, s.inside) in
              let at : lower_bound m q ≡ r + 1 = place_unique m v q (r + 1) (record {
                inside = omega (arith, o.count, t.inside);
                below = λ i h. ground (
                  arith,
                  o.here_key,
                  o.low_keys i,
                  o.high_keys i,
                  t.below i,
                  t.below (i - 1),
                  t.inside,
                );
                above = λ i h z. ground (arith, o.count, o.high_keys i, t.above (i - 1));
              }) in
              rw (at, route) (ground (arith, o.here_child, o.high_children (r + 1), t.inside))
          | inr e ↦
              let before : r ≤ p = ground (arith, s.above p, t.below p, t.inside) in
              let at : lower_bound m q ≡ r = place_unique m v q r (record {
                inside = omega (arith, o.count, t.inside);
                below = λ i h. ground (arith, o.low_keys i, t.below i);
                above = λ i h z. ground (
                  arith,
                  o.count,
                  o.here_key,
                  o.low_keys i,
                  o.high_keys i,
                  t.above i,
                  t.above (i - 1),
                );
              }) in
              rw (at, route) (ground (arith, o.low_children r))
        ]
