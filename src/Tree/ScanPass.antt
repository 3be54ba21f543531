-- ===== src/Tree/ScanPass.antt =====
-- A pass of `range_scan` over a well formed tree: the tree stays, and what is copied is what it holds.
use dex_partial.Base.{
  ℕ, suc, ◌+◌, ◌-◌, ◌^◌, ◌≤◌, ◌<◌, ◌≡◌, ◌⊎◌, inl, inr, refl, sym, subst, arith, true, false, ◌||◌,
  ◌==◌, Option, none, some, Bool-cases, Array, sub64,
}
use dex_partial.BTree.Node.{range_valid, key_max}
use dex_partial.BTree.Leaf.{Leaf, keys, find, range_scan}
use dex_partial.BTree.Leaf.Lookup
use dex_partial.BTree.Leaf.Scan.{Copied, range_scan_cases}
use dex_partial.Tree.{Pages, Ending, restart, refresh, refused, full, at_leaf}
use dex_partial.Tree.Frame.{Turned, unchanged}
use dex_partial.Tree.Descent.{Leads, Stands, Sends, Place, pages_of}
use dex_partial.Tree.Ends.{Turned-refl}
use dex_partial.Tree.Answers.{lookup_promise}
use dex_partial.Tree.Handlers.{leaf_facts}
use dex_partial.Tree.Cover.{Covers, way-Covers}
use dex_partial.Tree.Scan.{
  Cursor, ScanEnd, scanned, goes_on, refreshes, loads_root, scan_on, scan_remote, scan_leaf,
  scan_at,
}

abbrev pub pages_at : ScanEnd → Pages
pages_at (scanned x c) = x
pages_at (goes_on x c) = x
pages_at (refreshes x c) = x
pages_at (loads_root x c) = x

-- The entries of a leaf from the key on, if it has the key, and nothing otherwise.
pub record Takes (num : ℕ) (cur : Cursor) (l : Leaf ℕ) (next : Cursor) : Type 0 where
  pub result : ℕ × Array (ℕ × ℕ)
  pub count : next.cur_num ≡ cur.cur_num + result.0
  pub buffer : next.kv_buffer ≡ result.1
  pub cases :
      ((i : ℕ) × (i < l.base.count)
        × (keys l i ≡ cur.key)
        × Copied l i (num - cur.cur_num) cur.kv_buffer result)
      ⊎ ((find l cur.key ≡ none) × (result ≡ (0, cur.kv_buffer)))

-- A leaf of the tree whose range has the key.
pub record Visits (num h : ℕ) (x : Pages) (root lo hi : ℕ) (cur next : Cursor) : Type 0 where
  pub l : Leaf ℕ
  pub valid : Lookup.IsValid l
  pub in_range : range_valid l.base cur.key ≡ true
  pub covers : Covers (suc h) x root lo hi l
  pub takes : Takes num cur l next

-- What a pass says of the tree: it is done with a leaf, or goes on past it, or did nothing.
abbrev pub Says : ℕ → ℕ → Pages → ℕ → ℕ → ℕ → Cursor → ScanEnd → Type 0
Says num h x root lo hi cur (scanned y c) = Visits num h x root lo hi cur c
Says num h x root lo hi cur (goes_on y c) =
    (c ≡ cur)
    ⊎ ((v : Visits num h x root lo hi cur c) × (c.key ≡ v.l.base.max_limit + 1)
        × (v.l.base.max_limit < key_max))
Says num h x root lo hi cur (refreshes y c) = c ≡ cur
Says num h x root lo hi cur (loads_root y c) = ⊥

pub record Scans (num h : ℕ) (x : Pages) (root lo hi : ℕ) (cur : Cursor) (o : ScanEnd)
    : Type 0 where
  pub turned : Turned unchanged (suc h) x root (pages_at o) root lo hi
  pub says : Says num h x root lo hi cur o

abbrev pub Ends : ℕ → ℕ → Pages → ℕ → ℕ → ℕ → Cursor → Option ScanEnd → Type 0
Ends num h x root lo hi cur r = (o : ScanEnd) × (r ≡ some o) × Scans num h x root lo hi cur o

module _ (num right_bound h : ℕ) (x : Pages) (root lo hi : ℕ) (cur : Cursor)
    (stands : Stands x cur.key h root lo hi) (word : hi < 2 ^ 64) where
  -- No leaf's range ends above the tree's.
  pub max_small :
      (l : Leaf ℕ)
      → Covers (suc h) x root lo hi l
      → range_valid l.base cur.key ≡ true
      → l.base.max_limit ≤ key_max
  unfolding range_valid
  max_small l c r = ground (arith, c.within l.base.max_limit)

  scans_on :
      (l : Leaf ℕ)
      → Lookup.IsValid l
      → range_valid l.base cur.key ≡ true
      → Covers (suc h) x root lo hi l
      → Ends num h x root lo hi cur (some (scan_on num right_bound x cur l))
  unfolding scan_on
  scans_on l valid r covers =
      let t = Turned-refl (suc h) x root lo hi stands.0 in
      let res = range_scan l cur.key (num - cur.cur_num) cur.kv_buffer in
      let cases = range_scan_cases l valid cur.key (num - cur.cur_num) cur.kv_buffer in
      elim (Bool-cases (
        l.base.max_limit == key_max
        || l.base.max_limit == sub64 right_bound 1
        || cur.cur_num + res.0 == num)) [
          | inl e ↦ rw e (
            _,
            refl,
            record {
              turned = t;
              says = record {
                l = l;
                valid = valid;
                in_range = r;
                covers = covers;
                takes = record { result = res; count = refl; buffer = refl; cases = cases };
              };
            },
          )
          | inr e ↦
              let small = max_small l covers r in
              let less : l.base.max_limit < key_max = ground (arith, e, small) in
              rw e (
                _,
                refl,
                record {
                  turned = t;
                  says = inr (
                    record {
                      l = l;
                      valid = valid;
                      in_range = r;
                      covers = covers;
                      takes = record { result = res; count = refl; buffer = refl; cases = cases };
                    },
                    omega (arith, less),
                    less,
                  );
                },
              )
        ]

  -- A pass that did nothing.
  pub idle :
      (o : ScanEnd)
      → pages_at o ≡ x
      → Says num h x root lo hi cur o
      → Ends num h x root lo hi cur (some o)
  idle o same says = (
    o,
    refl,
    record {
      turned =
          subst (λ y. Turned unchanged (suc h) x root y root lo hi) (sym same)
            (Turned-refl (suc h) x root lo hi stands.0);
      says = says;
    },
  )

  -- The scan at the end of a descent, in memory or not.
  scans_leaf :
      (q c : ℕ)
      → Leads h x cur.key root 0 q
      → Sends false x cur.key q c
      → Ends num h x root lo hi cur (scan_leaf num right_bound x cur (x c))
        × Ends num h x root lo hi cur (scan_remote num right_bound x cur (x c))
  unfolding scan_leaf scan_remote
  scans_leaf q c way sends =
      let (l, at, valid, r, _) =
        leaf_facts (lookup_promise) cur.key (λ s p o _. refl) h x root q c lo hi false way sends
          stands in
      let (n, at_q, to, _) = sends in
      let covers = way-Covers h x cur.key root q c lo hi l n way at_q to at stands in
      rw (at, r) (scans_on l valid r covers, scans_on l valid r covers)

module _ (num right_bound h root lo hi : ℕ) (cur : Cursor) (word : hi < 2 ^ 64) where
  pub at_place :
      (e : Ending)
      → Stands (pages_of e) cur.key h root lo hi
      → Place false h cur.key root e
      → Ends num h (pages_of e) root lo hi cur (scan_at num right_bound cur (some e))
  unfolding scan_at
  at_place (restart x) s p =
      idle num right_bound h x root lo hi cur s word (goes_on x cur) refl (inl refl)
  at_place (refresh x) s p =
      idle num right_bound h x root lo hi cur s word (refreshes x cur) refl refl
  at_place (refused x c) s (q, way, sends, cold) =
      (scans_leaf num right_bound h x root lo hi cur s word q c way sends).1
  at_place (full x q c) s (h0, way, sends, n, at, f, t) = absurd (cc t)
  at_place (at_leaf x q c) s (way, sends, l, at) =
      (scans_leaf num right_bound h x root lo hi cur s word q c way sends).0
