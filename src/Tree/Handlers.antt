-- ===== src/Tree/Handlers.antt =====
-- What a call does where its descent ends, at a remote leaf and at a leaf in memory.
use dex_partial.Base.{
  ℕ, suc, ◌≡◌, inl, inr, refl, ap, sym, ◌∙◌, subst, arith, Bool, true, false, not, ◌&&◌, ◌==◌,
  Option, some, Bool-cases, write,
}
use dex_partial.Base.Bits.{has_bit}
use dex_partial.BTree.Node.{range_valid}
use dex_partial.BTree.Inner.{lower_bound}
use dex_partial.BTree.Inner.Route.{route, place}
use dex_partial.BTree.Leaf.{Leaf, max_entries, find}
use dex_partial.BTree.Leaf.Lookup
use dex_partial.Rpc.{leaf}
use dex_partial.Tree.{Pages, slot_min, slot_max, can_write}
use dex_partial.Tree.Shape.{inside, read, Good, inner_same}
use dex_partial.Tree.Frame.{Effect, unchanged, Turned}
use dex_partial.Tree.Slots.{slot_of}
use dex_partial.Tree.Descent.{Leads, Stands, Sends, way-Stands}
use dex_partial.Tree.Leaves.{Becomes, change_leaf, read_way}
use dex_partial.Tree.Answers.{Promise, Passes, ActKeeps, Elsewhere, starts_over}
use dex_partial.Tree.Passes.{
  Outcome, returned, Act, at_remote, write_leaf, put_leaf, do_lookup, lookup_leaf,
}

-- The fields that no key depends on.
pub Becomes-base :
    (f : Effect) (l m : Leaf ℕ) (w x s : ℕ) (d : Bool)
    → Becomes f l m
    → Becomes f l (record m {
      base = record (m.base) { lock_word = w; parent_ptr = x; pos_state = s; dirty = d };
    })
unfolding range_valid find
Becomes-base f l m w x s d b = record {
  valid = record {
    few = b.valid.few;
    sorted = b.valid.sorted;
    in_range = b.valid.in_range;
    consistent = b.valid.consistent;
  };
  min_limit = b.min_limit;
  max_limit = b.max_limit;
  level = b.level;
  home = b.home;
  finds = b.finds;
}

pub Becomes-refl : (l : Leaf ℕ) → Lookup.IsValid l → Becomes unchanged l l
Becomes-refl l v = record {
  valid = v;
  min_limit = refl;
  max_limit = refl;
  level = refl;
  home = refl;
  finds = λ q. refl;
}

module _ (m : Promise) (k : ℕ) (other : Elsewhere m k) (h : ℕ) (x : Pages) (root q c lo hi : ℕ)
    (smo : Bool) (way : Leads h x k root 0 q) (sends : Sends smo x k q c)
    (stands : Stands x k h root lo hi) where
  -- The leaf at the end of the way is one of the tree.
  leaf_there : (lo' : ℕ) × (hi' : ℕ) × Good 0 x c lo' hi' × (inside lo' hi' k ≡ true)
  unfolding Good route
  leaf_there =
      let (lo1, hi1, ((a, below), ok)) = way-Stands k 0 q x h root lo hi way stands in
      let (n, at, r, _) = sends in
      let i = lower_bound a.n k in
      let to : route a.n k ≡ c = ap (λ j. route j k) (inner_same x q a.n n a.at at) ∙ sym r in
      (
        slot_min a.n i,
        slot_max a.n i,
        subst (λ d. Good 0 x d (slot_min a.n i) (slot_max a.n i)) to
            (below i (place a.n a.valid k).inside),
        slot_of a.n a.valid a.apart k (rw (a.placed.min_is, a.placed.max_is) ok),
      )

  pub leaf_facts :
      (l : Leaf ℕ) × (x c ≡ some (leaf l))
      × Lookup.IsValid l
      × (range_valid l.base k ≡ true)
      × (has_bit c 63 ≡ false → l.base.remote_address ≡ c)
  unfolding Good range_valid
  leaf_facts =
      let (lo1, hi1, a, ok) = leaf_there in
      (a.l, a.at, a.valid, (rw (a.placed.min_is, a.placed.max_is) ok), a.placed.at_home)

  -- A result that leaves the pages alone.
  pub idle :
      (l : Leaf ℕ)
      → x c ≡ some (leaf l)
      → (s : Bool) (v : Option ℕ) → some (find l k) ≡ m.effect s k (some (find l k))
      → m.answer s v (find l k)
      → Passes m k h x root lo hi (some (returned x s v))
  idle l at s v same answer =
      let was = read_way smo h x k root q c l way sends at in
      let (good, ok) = stands in
      (
        returned x s v,
        refl,
        record {
          turned = record {
            good = good;
            reads = λ p _. elim (Bool-cases (p == k)) [
              | inl e ↦
                  let is : k ≡ p = ground (arith, e) in
                  subst
                    (λ z. read (suc (suc h)) x root z ≡ m.effect s z (read (suc (suc h)) x root z))
                    is (rw was same)
              | inr e ↦ sym (other s p _ (λ z. ground (arith, e, z)))
            ];
          };
          answered = (find l k, was, answer);
        },
      )

  -- A result with the leaf written, up to fields that no key depends on.
  pub rewritten :
      (l l' : Leaf ℕ)
      → x c ≡ some (leaf l)
      → (s : Bool) (v : Option ℕ) → Becomes (m.effect s) l l'
      → m.answer s v (find l k)
      → Passes m k h x root lo hi (some (returned (write x c (some (leaf l'))) s v))
  rewritten l l' at s v becomes answer = (
    returned (write x c (some (leaf l'))) s v,
    refl,
    record {
      turned =
          change_leaf (m.effect s) k (other s) x c l l' at becomes smo h root q lo hi way sends
            stands;
      answered = (find l k, read_way smo h x k root q c l way sends at, answer);
    },
  )

  -- The leaf unlocked, and nothing else.
  pub released :
      (l : Leaf ℕ)
      → x c ≡ some (leaf l)
      → Lookup.IsValid l
      → (o : Pages → Outcome)
      → ((y : Pages)
          → Turned unchanged (suc h) x root y root lo hi
          → Passes m k h x root lo hi (some (o y)))
      → Passes m k h x root lo hi (some (o (put_leaf x c l)))
  released l at valid o f = f (put_leaf x c l) (
      change_leaf unchanged k (λ _ _ _. refl) x c l _ at
        (Becomes-base unchanged l l _ _ _ _ (Becomes-refl l valid)) smo h root q lo hi way sends
        stands)

  -- `cold_to_hot_with_admission` on a leaf that is not admitted.
  pub remote_keeps :
      (act : Act) (writes : Bool → Bool) (only_room : Bool)
      → has_bit c 63 ≡ false
      → ((l : Leaf ℕ)
          → Lookup.IsValid l
          → range_valid l.base k ≡ true
          → (only_room && l.base.count == max_entries) ≡ false
          → ActKeeps m act k l)
      → ((l : Leaf ℕ)
          → ActKeeps m act k l
          → writes (act l).1 ≡ false
          → some (find l k) ≡ m.effect (act l).1 k (some (find l k)))
      → Passes m k h x root lo hi (at_remote act writes only_room k x c (x c))
  unfolding at_remote
  remote_keeps act writes only_room cold keeps quiet =
      let (l, at, valid, range, home) = leaf_facts in
      let (good, _) = stands in
      elim (Bool-cases (only_room && l.base.count == max_entries)) [
        | inl f ↦ rw (at, range, f) (starts_over m k h x root lo hi good)
        | inr f ↦
            let a = keeps l valid range f in
            elim (Bool-cases (writes (act l).1)) [
              | inr n ↦ rw (at, range, f, n) (idle l at (act l).1 (act l).2 (quiet l a n) a.answer)
              | inl y ↦
                  let here : (l.base.remote_address == c) ≡ true = ground (arith, home cold) in
                  rw (at, range, f, y, here)
                    (rewritten l _ at (act l).1 (act l).2 (Becomes-base _ l _ _ _ _ _ a.becomes)
                      a.answer)
            ]
      ]

  -- `update` and `remove` at a leaf in memory.
  pub write_leaf_keeps :
      (act : Act)
      → ((l : Leaf ℕ) → Lookup.IsValid l → range_valid l.base k ≡ true → ActKeeps m act k l)
      → Passes m k h x root lo hi (write_leaf act k x c (x c))
  unfolding write_leaf
  write_leaf_keeps act keeps =
      let (l, at, valid, range, home) = leaf_facts in
      let (good, _) = stands in
      elim (Bool-cases (not (can_write l.base))) [
        | inl f ↦ rw (at, f) (starts_over m k h x root lo hi good)
        | inr f ↦
            let a = keeps l valid range in
            rw (at, f, range)
              (rewritten l _ at (act l).1 (act l).2 (Becomes-base _ l _ _ _ _ _ a.becomes) a.answer)
      ]

  -- `lookup` at a leaf in memory.
  pub lookup_leaf_keeps :
      ((l : Leaf ℕ) → Lookup.IsValid l → ActKeeps m (do_lookup k) k l)
      → Passes m k h x root lo hi (lookup_leaf k x c (x c))
  unfolding lookup_leaf
  lookup_leaf_keeps keeps =
      let (l, at, valid, range, home) = leaf_facts in
      let a = keeps l valid in
      rw (at, range) (idle l at (do_lookup k l).1 (find l k) (a.becomes.finds k) a.answer)
