-- ===== src/Tree/ScanCall.antt =====
-- A pass of `range_scan` from the root, and the call over a tree that stays in memory.
use dex_partial.Base.{
  ℕ, zero, suc, ◌+◌, ◌-◌, ◌^◌, ◌≤◌, ◌<◌, ◌≡◌, ◌⊎◌, inl, inr, refl, sym, ◌∙◌, arith, true, false,
  not, ◌||◌, ◌==◌, Option, some, Bool-cases, sub64,
}
use dex_partial.Base.Bits.{has_bit}
use dex_partial.BTree.Node.{range_valid, key_max}
use dex_partial.BTree.Inner.{Inner}
use dex_partial.BTree.Leaf.{range_scan}
use dex_partial.Rpc.{inner}
use dex_partial.Tree.{Pages, World, can_read, visit}
use dex_partial.Tree.Shape.{Good}
use dex_partial.Tree.Frame.{Turned, unchanged}
use dex_partial.Tree.Descent.{IsLawful, Stands, Roomy, pages_of}
use dex_partial.Tree.Walks.{walked}
use dex_partial.Tree.Passes.{descend}
use dex_partial.Tree.Cover.{way-Covers}
use dex_partial.Tree.Scan.{
  Cursor, ScanEnd, scanned, goes_on, refreshes, loads_root, scan_on, scan_leaf, scan_at, scan_pass,
}
use dex_partial.Tree.ScanPass.{pages_at, Visits, Says, Ends, idle, at_place, max_small}
use dex_partial.Tree.Ends.{Turned-trans}
use dex_partial.Tree.Scan.{scan_all}
use dex_partial.Tree.Quiet.{IsQuiet, reached}

-- What holds of the pages at the end of a descent holds of those at its start.
Visits-before :
    (num h root lo hi : ℕ) (cur : Cursor) (x y : Pages) (next : Cursor)
    → Turned unchanged (suc h) x root y root lo hi
    → Visits num h y root lo hi cur next
    → Visits num h x root lo hi cur next
Visits-before num h root lo hi cur x y next t v = record {
  l = v.l;
  valid = v.valid;
  in_range = v.in_range;
  covers = record {
    within = v.covers.within;
    holds = λ q z. sym (t.reads q (v.covers.within q z)) ∙ v.covers.holds q z;
  };
  takes = v.takes;
}

module _ (num h : ℕ) (x y : Pages) (root lo hi : ℕ) (cur : Cursor)
    (t : Turned unchanged (suc h) x root y root lo hi) where
  Says-before : (o : ScanEnd) → Says num h y root lo hi cur o → Says num h x root lo hi cur o
  unfolding Visits-before
  Says-before (scanned z c) v = Visits-before num h root lo hi cur x y c t v
  Says-before (goes_on z c) (inl e) = inl e
  Says-before (goes_on z c) (inr (v, e, less)) =
      inr (Visits-before num h root lo hi cur x y c t v, e, less)
  Says-before (refreshes z c) e = e
  Says-before (loads_root z c) e = e

  Ends-before : (r : Option ScanEnd) → Ends num h y root lo hi cur r → Ends num h x root lo hi cur r
  Ends-before r (o, e, s) = (
    o,
    e,
    record {
      turned = Turned-trans unchanged (suc h) x y (pages_at o) root lo hi t s.turned;
      says = Says-before o s.says;
    },
  )

-- With allocators that hand out pages which nothing names, a pass of `range_scan` from a key in the range of a well formed
-- tree with its root in memory, whose keys have 64 bits, ends and leaves the tree well formed with what it held. A pass that returns, or that goes on at
-- another key, was at a leaf whose range has the key and which is what the tree holds over its range; it took
-- the entries of the leaf from the key on, as many as were still wanted, to the front of the buffer if the leaf has the key, and none otherwise. Where it
-- goes on, the key is the one after the leaf's range.
pub scan_pass-Scans :
    (num right_bound h : ℕ) (w : World) (x : Pages) (root lo hi : ℕ) (cur : Cursor)
    → IsLawful w
    → Stands x cur.key h root lo hi
    → has_bit root 63 ≡ true
    → hi < 2 ^ 64
    → Ends num h x root lo hi cur (scan_pass num right_bound (suc h) w x root cur)
unfolding scan_pass descend visit Good scan_at
scan_pass-Scans num right_bound h w x root lo hi cur lawful ((a, below), ok) hot word =
    rw hot (elim (Bool-cases (not (can_read a.n.base))) [
      | inl r ↦
          rw (a.at, r)
            (idle num right_bound h x root lo hi cur ((a, below), ok) word (goes_on x cur) refl
              (inl refl))
      | inr r ↦
          let roomy : (n : Inner) → x root ≡ some (inner n) → Roomy false n = λ n at. refl in
          let (e, on, wk) = walked w lawful false cur.key h x root lo hi ((a, below), ok) roomy in
          rw (a.at, r, on)
            (Ends-before num h x (pages_of e) root lo hi cur wk.turned _
              (at_place num right_bound h root lo hi cur word e (wk.turned.good, ok) wk.placed))
    ])

abbrev cursor_of : ScanEnd → Cursor
cursor_of (scanned x c) = c
cursor_of (goes_on x c) = c
cursor_of (refreshes x c) = c
cursor_of (loads_root x c) = c

module _ (num right_bound h : ℕ) (w : World) (x : Pages) (root lo : ℕ) (quiet : IsQuiet x)
    (hot : has_bit root 63 ≡ true) where
  -- What a pass that meets no obstacle does: it ends the scan or goes on past the leaf.
  record Moves (cur : Cursor) (o : ScanEnd) : Type 0 where
    few : (cursor_of o).cur_num ≤ num
    on :
        (o ≡ scanned x (cursor_of o))
        ⊎ ((o ≡ goes_on x (cursor_of o))
            × (cur.key < (cursor_of o).key)
            × ((cursor_of o).key ≤ key_max))

  quiet_pass :
      (cur : Cursor)
      → Stands x cur.key h root lo key_max
      → cur.cur_num ≤ num
      → (o : ScanEnd) × (scan_pass num right_bound (suc h) w x root cur ≡ some o) × Moves cur o
  unfolding scan_pass descend visit scan_at scan_leaf scan_on range_scan Good range_valid
  quiet_pass cur stands few =
      let r = reached w x quiet cur.key h root lo key_max stands in
      let covers =
        way-Covers h x cur.key root r.q r.c lo key_max r.l r.n r.way r.at_q r.to r.at stands in
      let small =
        max_small num right_bound h x root lo key_max cur stands (omega arith) r.l covers r.range in
      let ((a, _), _) = stands in
      let read_root = quiet.free root (inner a.n) a.at in
      let res = range_scan r.l cur.key (num - cur.cur_num) cur.kv_buffer in
      let counted : res.0 ≤ num - cur.cur_num = ground arith in
      rw (hot, a.at, read_root, r.ends, r.at, r.range)
        (elim (Bool-cases (
          r.l.base.max_limit == key_max
          || r.l.base.max_limit == sub64 right_bound 1
          || cur.cur_num + res.0 == num)) [
            | inl e ↦ rw e (_, refl, record { few = omega (arith, counted, few); on = inl refl })
            | inr e ↦
                let less : r.l.base.max_limit < key_max = ground (arith, e, small) in
                let ahead : cur.key < r.l.base.max_limit + 1 = ground (arith, r.range) in
                rw e (
                  _,
                  refl,
                  record {
                    few = omega (arith, counted, few);
                    on = inr (refl, omega (arith, less, ahead), omega (arith, less));
                  },
                )
          ])

  -- In a well formed tree for all 64-bit keys from some limit on, which is in memory with no page locked or obsolete, a scan from a key
  -- in its range that has no more entries than are wanted returns after at most as many passes as there are keys left, and leaves the pages and at most
  -- as many entries as are wanted.
  pub scan_all-scanned :
      (passes : ℕ) (cur : Cursor)
      → Good (suc h) x root lo key_max
      → lo < cur.key
      → cur.key ≤ key_max
      → key_max < cur.key + passes
      → cur.cur_num ≤ num
      → (c : Cursor) × (scan_all num right_bound passes (suc h) w x root cur ≡ some (scanned x c))
        × (c.cur_num ≤ num)
  unfolding scan_all
  scan_all-scanned zero cur good above inside_is enough few =
      absurd (omega (arith, inside_is, enough))
  scan_all-scanned (suc passes) cur good above inside_is enough few =
      let (o, e, moves) = quiet_pass cur (good, ground (arith, above, inside_is)) few in
      elim (moves.on) [
        | inl is ↦ (cursor_of o, rw (e, is) refl, moves.few)
        | inr (is, ahead, fits) ↦
            let (c, f, z) =
              scan_all-scanned passes (cursor_of o) good (omega (arith, above, ahead)) fits
                (omega (arith, enough, ahead)) moves.few in
            (c, rw (e, is) f, z)
      ]
