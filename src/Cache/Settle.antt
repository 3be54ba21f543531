-- ===== src/Cache/Settle.antt =====
-- The page that `remote_write` stores holds, under its address, what the page in memory held.
use dex_partial.Base.{ℕ, zero, suc, ◌≤◌, ◌<◌, ◌≡◌, refl, ap, sym, ◌∙◌, subst, arith, some}
use dex_partial.BTree.Node.{range_valid}
use dex_partial.BTree.Inner.{Inner, lower_bound}
use dex_partial.BTree.Inner.Route
use dex_partial.BTree.Inner.Route.{route, place}
use dex_partial.Rpc.{Page, inner, leaf}
use dex_partial.Tree.{Pages, base_of, slot_min, slot_max}
use dex_partial.Tree.Passes.{flushed}
use dex_partial.Tree.Shape.{Good, same_page, read_leaf, read_inner, one_page}
use dex_partial.Tree.SplitLeaf.{flushed_valid, find-flushed}
use dex_partial.Tree.Frame.{Turned, unchanged, frame_low}
use dex_partial.Tree.Slots.{slot_of}
use dex_partial.Cache.{stored}

inner_flushed : (n : Inner) → Route.IsValid n → Route.IsValid (record n { base = flushed n.base })
unfolding range_valid
inner_flushed n v = record {
  some_key = v.some_key;
  few = v.few;
  sorted = v.sorted;
  in_range = v.in_range;
  consistent = v.consistent;
}

place_flushed :
    (n : Inner) (q : ℕ) → lower_bound (record n { base = flushed n.base }) q ≡ lower_bound n q
unfolding lower_bound
place_flushed n q = refl

-- The page in place of which the level and the limits of a page are known.
pub placed_level :
    (h : ℕ) (pages : Pages) (c lo hi : ℕ) (g : Page)
    → pages c ≡ some g
    → Good h pages c lo hi
    → ((base_of g).level ≡ h) × ((base_of g).min_limit ≡ lo) × ((base_of g).max_limit ≡ hi)
unfolding Good
placed_level zero pages c lo hi g is a =
    rw (one_page pages c g (leaf a.l) is a.at) (a.placed.level_is, a.placed.min_is, a.placed.max_is)
placed_level (suc h) pages c lo hi g is (a, _) =
    rw (one_page pages c g (inner a.n) is a.at)
      (a.placed.level_is, a.placed.min_is, a.placed.max_is)

-- The stored page under its address, and what is below it, hold what the page held.
pub settled :
    (pages pages' : Pages) (c r h lo hi : ℕ) (g : Page)
    → pages c ≡ some g
    → pages' r ≡ some (stored g)
    → (base_of g).remote_address ≡ r
    → ((name : ℕ) (f : Page)
        → pages name ≡ some f
        → (base_of f).level < h
        → pages' name ≡ pages name)
    → Good h pages c lo hi
    → Turned unchanged h pages c pages' r lo hi
unfolding Good route
settled pages pages' c r zero lo hi g is at home keep a =
    let same = one_page pages c g (leaf a.l) is a.at in
    let to : pages' r ≡ some (stored (leaf a.l)) =
      subst (λ x. pages' r ≡ some (stored x)) same at in
    record {
      good = record {
        l = _;
        at = to;
        valid = flushed_valid a.l a.valid;
        placed = record {
          level_is = a.placed.level_is;
          min_is = a.placed.min_is;
          max_is = a.placed.max_is;
          at_home = λ z. ap (λ x. (base_of x).remote_address) (sym same) ∙ home;
        };
      };
      reads = λ q _.
          rw (read_leaf 0 pages' r q _ to, read_leaf 0 pages c q _ a.at)
            (ap some (find-flushed a.l q));
    }
settled pages pages' c r (suc h) lo hi g is at home keep (a, below) =
    let same = one_page pages c g (inner a.n) is a.at in
    let to : pages' r ≡ some (stored (inner a.n)) =
      subst (λ x. pages' r ≡ some (stored x)) same at in
    let sub : (i : ℕ)
        → i ≤ a.n.base.count
        → Turned unchanged h pages (a.n.children i) pages' (a.n.children i) (slot_min a.n i)
            (slot_max a.n i) =
      λ i z.
        frame_low (suc h) pages pages'
          (λ name f x y. same_page pages pages' name f x (keep name f x y)) h (a.n.children i)
          (slot_min a.n i) (slot_max a.n i) (below i z) (omega arith) in
    record {
      good = (
        record {
          n = _;
          at = to;
          valid = inner_flushed a.n a.valid;
          apart = a.apart;
          placed = record {
            level_is = a.placed.level_is;
            min_is = a.placed.min_is;
            max_is = a.placed.max_is;
            at_home = λ z. ap (λ x. (base_of x).remote_address) (sym same) ∙ home;
          };
        },
        λ i z. (sub i z).good,
      );
      reads = λ q z.
          rw
            (
              read_inner (suc h) pages' r q _ to,
              read_inner (suc h) pages c q _ a.at,
              route,
              place_flushed a.n q,
            )
            ((sub (lower_bound a.n q) (place a.n a.valid q).inside).reads q
              (slot_of a.n a.valid a.apart q (rw (a.placed.min_is, a.placed.max_is) z)));
    }
