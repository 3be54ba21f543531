-- ===== src/Tree/Halves.antt =====
-- The tree below a parent after one of its children was divided.
use dex_partial.Base.{
  ℕ, suc, ◌+◌, ◌-◌, ◌≤◌, ◌<◌, ◌≡◌, ◌⊎◌, inl, inr, refl, ap, sym, ◌∙◌, subst, arith, Bool, true,
  false, ◌&&◌, ltb, leb, ◌==◌, if◌then◌else◌, Option, some, Bool-cases,
}
use dex_partial.BTree.Inner
use dex_partial.BTree.Inner.{Inner, lower_bound, max_entries}
use dex_partial.BTree.Inner.Route.{route, place}
use dex_partial.Rpc.{inner}
use dex_partial.Tree.{Pages, slot_min, slot_max, written}
use dex_partial.Tree.Shape.{
  inside, read, InnerAt, Good, Local, inner_rebased, place_rebased, read_inner,
}
use dex_partial.Tree.Frame.{Turned, unchanged, frame}
use dex_partial.Tree.Slots.{slot_of, slot_unique}
use dex_partial.Tree.Divide.{
  grown_valid, grown_apart, low_slot, left_slot, right_slot, high_slot, grown-route,
}

side : (i p : ℕ) → (i < p) ⊎ (i ≡ p) ⊎ (i ≡ p + 1) ⊎ (p + 1 < i)
side i p = elim (Bool-cases (ltb i p)) [
  | inl e ↦ inl (ground (arith, e))
  | inr e ↦ elim (Bool-cases (i == p)) [
    | inl f ↦ inr (inl (ground (arith, f)))
    | inr f ↦ elim (Bool-cases (i == p + 1)) [
      | inl o ↦ inr (inr (inl (ground (arith, o))))
      | inr o ↦ inr (inr (inr (ground (arith, e, f, o))))
    ]
  ]
]

-- The new child changes neither the level nor the limits.
grown_base :
    (n : Inner) (sep r : ℕ)
    → ((Inner.insert n sep r).base.level ≡ n.base.level)
      × ((Inner.insert n sep r).base.min_limit ≡ n.base.min_limit)
      × ((Inner.insert n sep r).base.max_limit ≡ n.base.max_limit)
      × ((Inner.insert n sep r).base.remote_address ≡ n.base.remote_address)
unfolding Inner.insert
grown_base n sep r = (refl, refl, refl, refl)

route_at : (n : Inner) (z k : ℕ) → lower_bound n z ≡ lower_bound n k → route n z ≡ route n k
unfolding route
route_at n z k e = ap n.children e

half_reads :
    (b : Bool) (r c z sep : ℕ) (f : ℕ → Option (Option ℕ)) (g : Option (Option ℕ)) (t : ℕ)
    → b ≡ true
    → t ≡ (if b && ltb sep z then r else c)
    → (if leb z sep then f c else f r) ≡ g
    → f t ≡ g
half_reads b r c z sep f g t e u v = elim (Bool-cases (leb z sep)) [
  | inl w ↦
      let off : ltb sep z ≡ false = ground (arith, w) in
      let is : t ≡ c = u ∙ rw (e, off) refl in rw is (subst (λ i. (if i then f c else f r) ≡ g) w v)
  | inr w ↦
      let on : ltb sep z ≡ true = ground (arith, w) in
      let is : t ≡ r = u ∙ rw (e, on) refl in rw is (subst (λ i. (if i then f c else f r) ≡ g) w v)
]

pub route_written : (n : Inner) (q : ℕ) → route (record n { base = written n.base }) q ≡ route n q
unfolding route
route_written n q = ap n.children (place_rebased _ _ _ _ n n.children q)

module _ (k h : ℕ) (x y : Pages) (local : Local k (suc h) x y) (q lo hi : ℕ)
    (a : InnerAt x q (suc h) lo hi)
    (below : (i : ℕ)
      → i ≤ a.n.base.count
      → Good h x (a.n.children i) (slot_min a.n i) (slot_max a.n i))
    (sep r : ℕ) (room : a.n.base.count < max_entries - 1)
    (above : slot_min a.n (lower_bound a.n k) < sep)
    (under : sep < slot_max a.n (lower_bound a.n k)) where
  abbrev p : ℕ
  p = lower_bound a.n k

  inner_p : p ≤ a.n.base.count
  inner_p = (place a.n a.valid k).inside

  abbrev g : Inner
  g = Inner.insert a.n sep r

  module _ (at : y q ≡ some (inner (record g { base = written g.base })))
      (left : Good h y (route a.n k) (slot_min a.n p) sep) (right : Good h y r sep (slot_max a.n p))
      (holds : (z : ℕ)
        → inside (slot_min a.n p) (slot_max a.n p) z ≡ true
        → (if leb z sep then read (suc h) y (route a.n k) z else read (suc h) y r z)
          ≡ read (suc h) x (route a.n k) z)
      (ok : inside lo hi k ≡ true) where
    -- The other children.
    sibling :
        (i : ℕ)
        → i ≤ a.n.base.count
        → (i == p) ≡ false
        → Turned unchanged h x (a.n.children i) y (a.n.children i) (slot_min a.n i) (slot_max a.n i)
    sibling i z off =
        frame k (suc h) x y local h (a.n.children i) (slot_min a.n i) (slot_max a.n i) (below i z)
          (elim (Bool-cases (inside (slot_min a.n i) (slot_max a.n i) k)) [
            | inr o ↦ o
            | inl o ↦ absurd (ground (arith, off, slot_unique a.n a.valid a.apart i k z o))
          ])

    abbrev parent_at : InnerAt y q (suc h) lo hi
    parent_at = record {
      n = record g { base = written g.base };
      at = at;
      valid =
          inner_rebased _ _ _ _ g g.children
            (grown_valid a.n a.valid a.apart sep r p room inner_p above under);
      apart = grown_apart a.n a.valid a.apart sep r p room inner_p above under;
      placed = record {
        level_is = (grown_base a.n sep r).0 ∙ a.placed.level_is;
        min_is = (grown_base a.n sep r).1 ∙ a.placed.min_is;
        max_is = (grown_base a.n sep r).2 ∙ a.placed.max_is;
        at_home = λ z. (grown_base a.n sep r).3 ∙ a.placed.at_home z;
      };
    }

    -- The children of the parent after the division, each with its limits.
    children :
        (i : ℕ) → i ≤ a.n.base.count + 1 → Good h y (g.children i) (slot_min g i) (slot_max g i)
    unfolding route
    children i z = elim (side i p) [
      | inl e ↦
          let (c, u, v) = low_slot a.n a.valid a.apart sep r p room inner_p above under i e in
          rw (c, u, v) (sibling i (omega (arith, inner_p)) (ground arith)).good
      | inr (inl e) ↦
          let (c, u, v) = left_slot a.n a.valid a.apart sep r p room inner_p above under in
          let t : Good h y (g.children p) (slot_min g p) (slot_max g p) = rw (c, u, v) left in
          subst (λ j. Good h y (g.children j) (slot_min g j) (slot_max g j)) (sym e) t
      | inr (inr (inl e)) ↦
          let (c, u, v) = right_slot a.n a.valid a.apart sep r p room inner_p above under in
          let t : Good h y (g.children (p + 1)) (slot_min g (p + 1)) (slot_max g (p + 1)) =
            rw (c, u, v) right in
          subst (λ j. Good h y (g.children j) (slot_min g j) (slot_max g j)) (sym e) t
      | inr (inr (inr e)) ↦
          let (c, u, v) = high_slot a.n a.valid a.apart sep r p room inner_p above under i e z in
          rw (c, u, v) (sibling (i - 1) (omega arith) (ground arith)).good
    ]

    grown_count : g.base.count ≡ a.n.base.count + 1
    unfolding Inner.insert
    grown_count = omega (arith, a.valid.few)

    sibling_reads :
        (z : ℕ)
        → lower_bound a.n z ≤ a.n.base.count
        → (lower_bound a.n z == p) ≡ false
        → inside (slot_min a.n (lower_bound a.n z)) (slot_max a.n (lower_bound a.n z)) z ≡ true
        → read (suc h) y (route a.n z) z ≡ read (suc h) x (route a.n z) z
    unfolding route
    sibling_reads z s e w = (sibling (lower_bound a.n z) s e).reads z w

    child_reads :
        (z : ℕ)
        → inside lo hi z ≡ true
        → read (suc h) y (route g z) z ≡ read (suc h) x (route a.n z) z
    child_reads z in_node =
        let s = place a.n a.valid z in
        let in_slot =
          slot_of a.n a.valid a.apart z (rw (a.placed.min_is, a.placed.max_is) in_node) in
        let to = grown-route a.n a.valid a.apart sep r p room inner_p above under z in
        elim (Bool-cases (lower_bound a.n z == p)) [
          | inr e ↦
              let same : route g z ≡ route a.n z = to ∙ rw e refl in
              rw same (sibling_reads z s.inside e in_slot)
          | inl e ↦
              let here : lower_bound a.n z ≡ p = ground (arith, e) in
              let there : route a.n z ≡ route a.n k = route_at a.n z k here in
              let within : inside (slot_min a.n p) (slot_max a.n p) z ≡ true =
                subst (λ j. inside (slot_min a.n j) (slot_max a.n j) z ≡ true) here in_slot in
              half_reads (lower_bound a.n z == p) r (route a.n z) z sep (λ c. read (suc h) y c z) _
                (route g z) e to (rw there (holds z within))
        ]

    -- The tree below the parent is well formed and holds what it held.
    pub divided : Turned unchanged (suc h) x q y q lo hi
    unfolding Good
    divided = record {
      good = (parent_at, λ i z. children i (subst (λ c. i ≤ c) grown_count z));
      reads = λ z w.
          rw (read_inner (suc h) y q z _ at, read_inner (suc h) x q z _ a.at, route_written g z)
            (child_reads z w);
    }
