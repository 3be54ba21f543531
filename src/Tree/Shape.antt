-- ===== src/Tree/Shape.antt =====
-- What a well formed tree is, what it holds, and which changes of pages leave a subtree alone.
use dex_partial.Base.{
  ℕ, zero, suc, ◌≤◌, ◌<◌, ◌≡◌, ◌⊎◌, inl, inr, refl, ap, sym, ◌∙◌, arith, Bool, true, false, not,
  ◌&&◌, ◌||◌, ltb, leb, ◌==◌, if◌then◌else◌, Option, none, some, Array,
}
use dex_partial.Base.Bits.{has_bit}
use dex_partial.BTree.Node.{NodeBase, range_valid}
use dex_partial.BTree.Inner.{Inner, lower_bound}
use dex_partial.BTree.Inner.Route
use dex_partial.BTree.Inner.Route.{route, place, place_unique}
use dex_partial.BTree.Leaf.{Leaf, find}
use dex_partial.BTree.Leaf.Lookup
use dex_partial.Rpc.{Page, inner, leaf}
use dex_partial.Tree.{Pages, base_of, set_parent, slot_min, slot_max}

-- The keys of a node with these limits.
abbrev pub inside : ℕ → ℕ → ℕ → Bool
inside lo hi k = if 0 == k && k == lo then true else not (leb k lo || ltb hi k)

-- What the tree holds under a key: the answer of the leaf at the end of the descent, if there is one.
unfoldable pub read : ℕ → Pages → ℕ → ℕ → Option (Option ℕ)
unfolding route find
read zero pages name q = none
read (suc fuel) pages name q = at_page (read fuel pages) (pages name)
  where
    at_page : (ℕ → ℕ → Option (Option ℕ)) → Option Page → Option (Option ℕ)
    at_page rest none = none
    at_page rest (some (leaf l)) = some (find l q)
    at_page rest (some (inner n)) = rest (route n q) q

-- The page at a name, and its place in the tree: limits, level, and its own address if it is remote.
pub record Placed (g : Page) (name level lo hi : ℕ) : Type 0 where
  pub level_is : (base_of g).level ≡ level
  pub min_is : (base_of g).min_limit ≡ lo
  pub max_is : (base_of g).max_limit ≡ hi
  pub at_home : has_bit name 63 ≡ false → (base_of g).remote_address ≡ name

pub record LeafAt (pages : Pages) (name lo hi : ℕ) : Type 0 where
  pub l : Leaf ℕ
  pub at : pages name ≡ some (leaf l)
  pub valid : Lookup.IsValid l
  pub placed : Placed (leaf l) name 0 lo hi

pub record InnerAt (pages : Pages) (name level lo hi : ℕ) : Type 0 where
  pub n : Inner
  pub at : pages name ≡ some (inner n)
  pub valid : Route.IsValid n
  pub apart : (i : ℕ) → i < n.base.count → n.base.min_limit < n.keys i
  pub placed : Placed (inner n) name level lo hi

-- A well formed tree of the given height for the keys between two limits: every node is, and a child
-- has the limits that its parent's keys say.
unfoldable pub Good : ℕ → Pages → ℕ → ℕ → ℕ → Type 0
Good zero pages name lo hi = LeafAt pages name lo hi
Good (suc h) pages name lo hi =
    (a : InnerAt pages name (suc h) lo hi) × ((i : ℕ)
      → i ≤ a.n.base.count
      → Good h pages (a.n.children i) (slot_min a.n i) (slot_max a.n i))

-- The pages without the key in their limits, and those above a level, keep all but their `parent_ptr`.
pub record Local (k top : ℕ) (pages pages' : Pages) : Type 0 where
  pub off :
      (name : ℕ) (g : Page)
      → pages name ≡ some g
      → inside (base_of g).min_limit (base_of g).max_limit k ≡ false
      → (x : ℕ) × (pages' name ≡ some (set_parent x g))
  pub high :
      (name : ℕ) (g : Page)
      → pages name ≡ some g
      → top < (base_of g).level
      → (x : ℕ) × (pages' name ≡ some (set_parent x g))

set_parent_self : (g : Page) → set_parent (base_of g).parent_ptr g ≡ g
set_parent_self (inner n) = refl
set_parent_self (leaf l) = refl

pub set_parent_twice : (x y : ℕ) (g : Page) → set_parent x (set_parent y g) ≡ set_parent x g
set_parent_twice x y (inner n) = refl
set_parent_twice x y (leaf l) = refl

pub set_parent-base :
    (x : ℕ) (g : Page)
    → (base_of (set_parent x g)).min_limit ≡ (base_of g).min_limit
      × ((base_of (set_parent x g)).max_limit ≡ (base_of g).max_limit)
      × ((base_of (set_parent x g)).level ≡ (base_of g).level)
set_parent-base x (inner n) = (refl, refl, refl)
set_parent-base x (leaf l) = (refl, refl, refl)

pub same_page :
    (pages pages' : Pages) (name : ℕ) (g : Page)
    → pages name ≡ some g
    → pages' name ≡ pages name
    → (x : ℕ) × (pages' name ≡ some (set_parent x g))
same_page pages pages' name g e s =
    ((base_of g).parent_ptr, s ∙ e ∙ ap some (sym (set_parent_self g)))

-- A run of local changes is one.
pub Local-trans : (k top : ℕ) (a b c : Pages) → Local k top a b → Local k top b c → Local k top a c
Local-trans k top a b c p q = record {
  off = λ name g e h.
      let (x, e1) = p.off name g e h in
      let (i, j, _) = set_parent-base x g in
      let (y, e2) = q.off name (set_parent x g) e1 (rw (i, j) h) in
      (y, e2 ∙ ap some (set_parent_twice y x g));
  high = λ name g e h.
      let (x, e1) = p.high name g e h in
      let (_, _, l) = set_parent-base x g in
      let (y, e2) = q.high name (set_parent x g) e1 (rw l h) in
      (y, e2 ∙ ap some (set_parent_twice y x g));
}

pub Local-raise : (k top up : ℕ) (a b : Pages) → top ≤ up → Local k top a b → Local k up a b
Local-raise k top up a b h p = record {
  off = p.off;
  high = λ name g e z. p.high name g e (omega arith);
}

module _ (fuel : ℕ) (pages : Pages) (name q : ℕ) where
  pub read_leaf :
      (l : Leaf ℕ) → pages name ≡ some (leaf l) → read (suc fuel) pages name q ≡ some (find l q)
  unfolding read
  read_leaf l e = rw e refl

  pub read_inner :
      (n : Inner)
      → pages name ≡ some (inner n)
      → read (suc fuel) pages name q ≡ read fuel pages (route n q) q
  unfolding read
  read_inner n e = rw e refl

-- A base with other contents in the fields that no key depends on.
abbrev pub rebased : NodeBase → ℕ → ℕ → ℕ → ℕ → NodeBase
rebased b w m x s = record b { lock_word = w; bitmap = m; parent_ptr = x; pos_state = s }

module _ (w m x s : ℕ) where
  pub leaf_rebased :
      (l : Leaf ℕ) → Lookup.IsValid l → Lookup.IsValid (record l { base = rebased l.base w m x s })
  unfolding range_valid
  leaf_rebased l v = record {
    few = v.few;
    sorted = v.sorted;
    in_range = v.in_range;
    consistent = v.consistent;
  }

  pub find-rebased :
      (l : Leaf ℕ) (q : ℕ) → find (record l { base = rebased l.base w m x s }) q ≡ find l q
  unfolding find
  find-rebased l q = refl

  pub inner_rebased :
      (n : Inner) (c : Array ℕ)
      → Route.IsValid n
      → Route.IsValid (record n { base = rebased n.base w m x s; children = c })
  unfolding range_valid
  inner_rebased n c v = record {
    some_key = v.some_key;
    few = v.few;
    sorted = v.sorted;
    in_range = v.in_range;
    consistent = v.consistent;
  }

  pub place_rebased :
      (n : Inner) (c : Array ℕ) (q : ℕ)
      → lower_bound (record n { base = rebased n.base w m x s; children = c }) q ≡ lower_bound n q
  unfolding lower_bound
  place_rebased n c q = refl

-- A name has one page.
pub one_page :
    (pages : Pages) (name : ℕ) (a b : Page) → pages name ≡ some a → pages name ≡ some b → a ≡ b
one_page pages name a b p q = cc (p, q)

-- A change is local if what it changes has the key in its limits and is not above the level.
pub Local-of :
    (k top : ℕ) (pages pages' : Pages)
    → ((name : ℕ) (g : Page)
        → pages name ≡ some g
        → ((x : ℕ) × (pages' name ≡ some (set_parent x g)))
          ⊎ ((inside (base_of g).min_limit (base_of g).max_limit k ≡ true)
              × ((base_of g).level ≤ top)))
    → Local k top pages pages'
Local-of k top pages pages' f = record {
  off = λ name g e out. elim (f name g e) [ inl s ↦ s | inr (i, _) ↦ absurd (cc (i, out)) ];
  high = λ name g e up. elim (f name g e) [
    | inl s ↦ s
    | inr (_, low) ↦ absurd (omega (arith, low, up))
  ];
}

-- What the page of a placed name has.
pub has_key :
    (pages : Pages) (name level lo hi k : ℕ) (f g : Page)
    → pages name ≡ some f
    → pages name ≡ some g
    → Placed g name level lo hi
    → inside lo hi k ≡ true
    → (inside (base_of f).min_limit (base_of f).max_limit k ≡ true) × ((base_of f).level ≡ level)
has_key pages name level lo hi k f g at is placed ok =
    let same = one_page pages name f g at is in
    rw (ap base_of same, placed.min_is, placed.max_is, placed.level_is) (ok, refl)

pub inner_same :
    (pages : Pages) (name : ℕ) (n m : Inner)
    → pages name ≡ some (inner n)
    → pages name ≡ some (inner m)
    → n ≡ m
inner_same pages name n m p q = cc (p, q)
