-- ===== src/Tests/Sampling.antt =====
-- A root over two leaves, one in memory and dirty, with its old copy on the memory node, and one remote.
use dex_partial.Base.{
  ℕ, zero, suc, ◌+◌, ◌-◌, ◌*◌, ◌^◌, ◌≡◌, ◌≢◌, ◌≤◌, ◌<◌, refl, arith, true, false, ◌==◌,
  if◌then◌else◌, Option, none, some, write, Bool-cases, inl, inr, ◌⊎◌,
}
use dex_partial.OptLock
use dex_partial.Base.Bits.{bit, bit_high, has_bit}
use dex_partial.BTree.Search
use dex_partial.BTree.Inner.Marks.{IsMarked}
use dex_partial.BTree.Inner.{Inner, lower_bound}
use dex_partial.BTree.Inner.Route.{route}
use dex_partial.BTree.Leaf.{Leaf}
use dex_partial.BTree.Node.{b_tree_inner, b_tree_leaf, fresh_base, range_valid}
use dex_partial.Rpc.{Page, inner, leaf}
use dex_partial.Tree.{Pages, base_of, slot_min, slot_max}
use dex_partial.Tree.Shape.{LeafAt, InnerAt, Good}
use dex_partial.Cache
use dex_partial.Cache.{hot_name, put_base, Round, skipped, sample_round}
use dex_partial.Cache.Backed.{IsHot, Hangs, IsBacked, IsKept}
use dex_partial.Cache.Flush.{remote_name, frame, flush_all}
use dex_partial.Cache.FlushLoop.{IsPool}
use dex_partial.Cache.FlushTree.{IsPooled, IsFlushable, IsRemote, flush_all-IsRemote}
use dex_partial.Tree.Frame.{Turned, unchanged}
use dex_partial.Cache.Exclusive.{failed, unlocked_base, get_exclusive_node}
use dex_partial.Cache.Exclusive.Refused.{Released, get_exclusive_node-failed}
use dex_partial.Cache.Exclusive.Granted.{Granted, get_exclusive_node-Granted}

abbrev root_page : Inner
root_page = record {
  base = record (fresh_base b_tree_inner 1 4096) { count = 1; bitmap = 1; pos_state = 2 };
  children = λ i. if i == 0 then hot_name 2048 else 5000;
  keys = λ i. 100;
  back_version = 0;
}

abbrev low_leaf : Leaf ℕ
low_leaf = record {
  base = record (fresh_base b_tree_leaf 0 6000) {
    count = 2;
    max_limit = 100;
    pos_state = 2;
    parent_ptr = 1024;
  };
  entries = λ i. ((i + 1) * 10, i + 7);
  next_leaf = 0;
  back_version = 0;
}

abbrev old_leaf : Leaf ℕ
old_leaf = record {
  base = record (fresh_base b_tree_leaf 0 6000) { count = 1; dirty = false };
  entries = λ i. (10, 1);
  next_leaf = 0;
  back_version = 0;
}

abbrev high_leaf : Leaf ℕ
high_leaf = record {
  base = record (fresh_base b_tree_leaf 0 5000) { count = 1; min_limit = 100 };
  entries = λ i. (200, 3);
  next_leaf = 0;
  back_version = 0;
}

abbrev root : ℕ
root = hot_name 1024

abbrev tree : Pages
tree name =
    if name == root
    then some (inner root_page)
    else if name == hot_name 2048
    then some (leaf low_leaf)
    else if name == 5000
    then some (leaf high_leaf)
    else if name == 6000
    then some (leaf old_leaf)
    else none

page_cases :
    (name : ℕ) (g : Page)
    → tree name ≡ some g
    → ((name ≡ root) × (g ≡ inner root_page))
      ⊎ ((name ≡ hot_name 2048) × (g ≡ leaf low_leaf))
      ⊎ ((g ≡ leaf high_leaf) ⊎ (g ≡ leaf old_leaf))
page_cases name g h = elim (Bool-cases (name == root)) [
  | inl e ↦ inl (ground (arith, e), (let s = rw e at h in cc s))
  | inr e ↦ elim (Bool-cases (name == hot_name 2048)) [
    | inl f ↦ inr (inl (ground (arith, f), (let s = rw (e, f) at h in cc s)))
    | inr f ↦ elim (Bool-cases (name == 5000)) [
      | inl o ↦ inr (inr (inl (let s = rw (e, f, o) at h in cc s)))
      | inr o ↦ elim (Bool-cases (name == 6000)) [
        | inl x ↦ inr (inr (inr (let s = rw (e, f, o, x) at h in cc s)))
        | inr x ↦ absurd (let s = rw (e, f, o, x) at h in cc s)
      ]
    ]
  ]
]

low_at : LeafAt tree (hot_name 2048) 0 100
unfolding range_valid
low_at = record {
  l = low_leaf;
  at = refl;
  valid = record {
    few = omega arith;
    sorted = λ i j p q. omega arith;
    in_range = λ i p. ground arith;
    consistent = refl;
  };
  placed = record { level_is = refl; min_is = refl; max_is = refl; at_home = λ z. absurd (cc z) };
}

high_at : LeafAt tree 5000 100 (2 ^ 64 - 1)
unfolding range_valid
high_at = record {
  l = high_leaf;
  at = refl;
  valid = record {
    few = omega arith;
    sorted = λ i j p q. omega arith;
    in_range = λ i p. ground arith;
    consistent = refl;
  };
  placed = record { level_is = refl; min_is = refl; max_is = refl; at_home = λ z. refl };
}

root_at : InnerAt tree root 1 0 (2 ^ 64 - 1)
unfolding range_valid
root_at = record {
  n = root_page;
  at = refl;
  valid = record {
    some_key = omega arith;
    few = omega arith;
    sorted = λ i j p q. omega arith;
    in_range = λ i p. ground arith;
    consistent = refl;
  };
  apart = λ i p. omega arith;
  placed = record { level_is = refl; min_is = refl; max_is = refl; at_home = λ z. absurd (cc z) };
}

tree_good : Good 1 tree root 0 (2 ^ 64 - 1)
unfolding Good root_at
tree_good = (root_at, children)
  where
    children :
        (i : ℕ)
        → i ≤ 1
        → Good 0 tree (root_page.children i) (slot_min root_page i) (slot_max root_page i)
    children zero p = low_at
    children (suc zero) p = high_at
    children (suc (suc i)) p = absurd (omega arith)

program : Unit {0}
unfolding route lower_bound Search.lower_bound OptLock.read_lock_or_restart bit
    OptLock.upgrade_to_write_lock_or_restart OptLock.write_unlock
program = tt

low_hangs : Hangs 0 tree root 0 (2 ^ 64 - 1) (hot_name 2048) (leaf low_leaf)
unfolding program
low_hangs = record {
  k = 20;
  h0 = 0;
  n = root_page;
  ok = refl;
  lead = (refl, refl);
  at = refl;
  sends = refl;
  under = omega arith;
  memory = refl;
  parent_memory = refl;
}

low-IsBacked : IsBacked tree (leaf low_leaf)
low-IsBacked = record {
  old = leaf old_leaf;
  remote = refl;
  at = refl;
  same_level = refl;
  covers = λ k e. ground arith;
  clean = λ e. absurd (cc e);
}

root-IsMarked : IsMarked root_page
unfolding program
root-IsMarked = record { marks = at; rest = rest }
  where
    at : (i : ℕ) → i ≤ 1 → bit 1 i ≡ bit (if i == 0 then hot_name 2048 else 5000) 63
    at zero p = refl
    at (suc zero) p = refl
    at (suc (suc i)) p = absurd (omega arith)

    rest : (i : ℕ) → 1 < i → bit 1 i ≡ 0
    rest i p = bit_high 1 1 i (omega arith) (omega arith)

kept : IsKept 0 tree root 0 (2 ^ 64 - 1)
unfolding program
kept = record {
  free = λ name g h. elim (page_cases name g h) [
    | inl (_, e) ↦ rw e (refl, refl)
    | inr (inl (_, e)) ↦ rw e (refl, refl)
    | inr (inr (inl e)) ↦ rw e (refl, refl)
    | inr (inr (inr e)) ↦ rw e (refl, refl)
  ];
  hangs = λ c g (h, z) away. elim (page_cases c g h) [
    | inl (e, _) ↦ absurd (away e)
    | inr (inl (e, s)) ↦ rw (e, s) low_hangs
    | inr (inr (inl s)) ↦ absurd (let y = rw s at z in cc y)
    | inr (inr (inr s)) ↦ absurd (let y = rw s at z in cc y)
  ];
  backed = λ c g (h, z) away. elim (page_cases c g h) [
    | inl (e, _) ↦ absurd (away e)
    | inr (inl (e, s)) ↦ rw s low-IsBacked
    | inr (inr (inl s)) ↦ absurd (let y = rw s at z in cc y)
    | inr (inr (inr s)) ↦ absurd (let y = rw s at z in cc y)
  ];
  marked = λ q m (h, z). elim (page_cases q (inner m) h) [
    | inl (_, e) ↦ let is : m ≡ root_page = cc e in rw is (root-IsMarked, omega arith, omega arith)
    | inr (inl (_, s)) ↦ absurd (cc s)
    | inr (inr (inl s)) ↦ absurd (cc s)
    | inr (inr (inr s)) ↦ absurd (cc s)
  ];
  unmarked = λ q l (h, z). elim (page_cases q (leaf l) h) [
    | inl (_, e) ↦ absurd (cc e)
    | inr (inl (_, s)) ↦ let is : l ≡ low_leaf = cc s in rw is refl
    | inr (inr (inl s)) ↦ let is : l ≡ high_leaf = cc s in rw is refl
    | inr (inr (inr s)) ↦ let is : l ≡ old_leaf = cc s in rw is refl
  ];
  linked = λ q m i (h, z) set fits. elim (page_cases q (inner m) h) [
    | inl (at, e) ↦
        let is : m ≡ root_page = cc e in
        rw (is, at) (child i (let y = rw is at set in y) (let y = rw is at fits in y))
    | inr (inl (_, s)) ↦ absurd (cc s)
    | inr (inr (inl s)) ↦ absurd (cc s)
    | inr (inr (inr s)) ↦ absurd (cc s)
  ];
}
  where
    child :
        (i : ℕ)
        → bit 1 i ≡ 1
        → i ≤ 1
        → (g : Page) × IsHot tree (root_page.children i) g
          × (root_page.children i ≢ root)
          × (hot_name (base_of g).parent_ptr ≡ root)
          × (has_bit (root_page.children i) 63 ≡ true)
    child zero set fits = (leaf low_leaf, (refl, refl), (λ e. omega (arith, e)), refl, refl)
    child (suc zero) set fits = absurd (cc set)
    child (suc (suc i)) set fits = absurd (omega arith)

not_root : hot_name 2048 ≢ root
not_root e = omega (arith, e)

-- The root and the leaf are the two pages of the pool.
pool : IsPool 1024 2 tree
pool = record {
  hot = hot;
  cold = cold;
  own = own;
  clean = λ i g p e d. absurd (let y = all_dirty i g p e in cc (y, d));
}
  where
    hot : (i : ℕ) → i < 2 → has_bit (frame 1024 i) 63 ≡ true
    hot zero p = refl
    hot (suc zero) p = refl
    hot (suc (suc i)) p = absurd (omega arith)

    cold :
        (i : ℕ) (g : Page)
        → i < 2
        → tree (frame 1024 i) ≡ some g
        → has_bit (base_of g).remote_address 63 ≡ false
    cold zero g p e = let is : g ≡ inner root_page = cc e in rw is refl
    cold (suc zero) g p e = let is : g ≡ leaf low_leaf = cc e in rw is refl
    cold (suc (suc i)) g p e = absurd (omega (arith, p))

    own :
        (i j : ℕ) (g f : Page)
        → i < 2
        → j < 2
        → tree (frame 1024 i) ≡ some g
        → tree (frame 1024 j) ≡ some f
        → (base_of g).remote_address ≡ (base_of f).remote_address
        → i ≡ j
    own zero zero g f p q a b e = refl
    own (suc zero) (suc zero) g f p q a b e = refl
    own zero (suc zero) g f p q a b e =
        let x : g ≡ inner root_page = cc a in
        let y : f ≡ leaf low_leaf = cc b in absurd (let z = rw (x, y) at e in omega (arith, z))
    own (suc zero) zero g f p q a b e =
        let x : g ≡ leaf low_leaf = cc a in
        let y : f ≡ inner root_page = cc b in absurd (let z = rw (x, y) at e in omega (arith, z))
    own (suc (suc i)) j g f p q a b e = absurd (omega (arith, p))
    own zero (suc (suc j)) g f p q a b e = absurd (omega (arith, q))
    own (suc zero) (suc (suc j)) g f p q a b e = absurd (omega (arith, q))

    all_dirty : (i : ℕ) (g : Page) → i < 2 → tree (frame 1024 i) ≡ some g → (base_of g).dirty ≡ true
    all_dirty zero g p e = let is : g ≡ inner root_page = cc e in rw is refl
    all_dirty (suc zero) g p e = let is : g ≡ leaf low_leaf = cc e in rw is refl
    all_dirty (suc (suc i)) g p e = absurd (omega (arith, p))

away_from_pool :
    (i : ℕ) (g : Page) → i < 2 → tree (frame 1024 i) ≡ some g → (base_of g).remote_address ≢ 5000
away_from_pool zero g p e = let is : g ≡ inner root_page = cc e in rw is (λ z. omega (arith, z))
away_from_pool (suc zero) g p e = let is : g ≡ leaf low_leaf = cc e in rw is (λ z. omega (arith, z))
away_from_pool (suc (suc i)) g p e = absurd (omega (arith, p))

flushable : IsFlushable 1024 2 1 tree root
unfolding IsFlushable IsPooled
flushable = (
  inl (refl, 0, omega arith, refl),
  λ n e i z. let is : n ≡ root_page = cc e in rw is (children i (let y = rw is at z in y)),
)
  where
    children :
        (i : ℕ)
        → i ≤ 1
        → IsFlushable 1024 2 0 tree (root_page.children i)
          × (has_bit root 63 ≡ false → has_bit (root_page.children i) 63 ≡ false)
    children zero p = (inl (refl, 1, omega arith, refl), λ e. absurd (cc e))
    children (suc zero) p = (inr (refl, away_from_pool), λ e. absurd (cc e))
    children (suc (suc i)) p = absurd (omega arith)

flush_all-IsRemote_example :
    ((i : ℕ) (g : Page)
      → i < 2
      → flush_all 1024 2 tree (frame 1024 i) ≡ some g
      → (base_of g).dirty ≡ false)
    × IsRemote 1 (flush_all 1024 2 tree) (remote_name tree root)
    × Turned unchanged 1 tree root (flush_all 1024 2 tree) (remote_name tree root) 0 (2 ^ 64 - 1)
flush_all-IsRemote_example =
    flush_all-IsRemote 1024 2 tree pool 1 root 0 (2 ^ 64 - 1) tree_good flushable

get_exclusive_node-Granted_example :
    Granted tree
      (hot_name 2048)
      (leaf low_leaf)
      (get_exclusive_node false 1024 tree (hot_name 2048))
get_exclusive_node-Granted_example =
    get_exclusive_node-Granted 0 tree root 0 (2 ^ 64 - 1) (hot_name 2048) (leaf low_leaf) false
      tree_good kept (refl, refl) not_root

-- The pages after a call that finds another parent than the one it has locked.
abbrev refused : Pages
refused =
    put_base
      (write tree root (some (inner (record root_page { base = unlocked_base root_page.base }))))
      (hot_name 2048) (leaf low_leaf) (unlocked_base low_leaf.base)

moved : get_exclusive_node false 7 tree (hot_name 2048) ≡ some (failed refused)
unfolding program get_exclusive_node OptLock.write_lock_or_restart
moved = refl

get_exclusive_node-failed_example : Released tree refused root
get_exclusive_node-failed_example =
    get_exclusive_node-failed false 7 tree (hot_name 2048) refused moved root

-- The same tree with its root locked: a round gives up, and leaves the page unlocked with a new version.
abbrev busy : Pages
busy =
    write tree root
      (some (inner (record root_page { base = record (root_page.base) { lock_word = 12 } })))

word_after : Option Round → ℕ
word_after (some (skipped x)) = word_of (x (hot_name 2048))
  where
    word_of : Option Page → ℕ
    word_of (some g) = (base_of g).lock_word
    word_of none = 0
word_after _ = 0

given_up : word_after (sample_round 3 busy (hot_name 2048)) ≡ 16
unfolding word_after sample_round program Cache.recursive_iterate
given_up = refl
