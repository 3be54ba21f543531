-- ===== src/Tree/Quiet.antt =====
-- A tree that is in memory with no page locked: one pass of `lookup` is enough.
use dex_partial.Base.{ℕ, zero, suc, ◌≤◌, ◌≡◌, inr, refl, ◌∙◌, true, false, Option, none, some}
use dex_partial.Base.Bits.{has_bit}
use dex_partial.BTree.Node.{range_valid}
use dex_partial.BTree.Inner.{Inner, lower_bound}
use dex_partial.BTree.Inner.Route.{route, place}
use dex_partial.BTree.Leaf.{Leaf, find}
use dex_partial.Rpc.{Page, inner, leaf}
use dex_partial.Tree.{Pages, World, base_of, can_read, Ending, at_leaf, get_node, visit, walk}
use dex_partial.Tree.Shape.{read, Good, read_leaf, read_inner}
use dex_partial.Tree.Slots.{slot_of}
use dex_partial.Tree.Descent.{Leads, Stands, child-Stands}
use dex_partial.Tree.Answers.{held}
use dex_partial.Tree.Passes.{returned, found_in, lookup, descend, lookup_leaf}

-- No page is locked or obsolete, and the children are in memory.
pub record IsQuiet (pages : Pages) : Type 0 where
  pub free : (name : ℕ) (g : Page) → pages name ≡ some g → can_read (base_of g) ≡ true
  pub in_memory :
      (name : ℕ) (n : Inner)
      → pages name ≡ some (inner n)
      → (i : ℕ) → i ≤ n.base.count
      → has_bit (n.children i) 63 ≡ true

-- The leaf that has the key, under the last inner node on its way.
pub record Reached (pages : Pages) (k h p : ℕ) (e : Option Ending) : Type 0 where
  pub q : ℕ
  pub c : ℕ
  pub l : Leaf ℕ
  pub ends : e ≡ some (at_leaf pages q c)
  pub at : pages c ≡ some (leaf l)
  pub range : range_valid l.base k ≡ true
  pub n : Inner
  pub way : Leads h pages k p 0 q
  pub at_q : pages q ≡ some (inner n)
  pub to : c ≡ route n k
  pub holds : read (suc (suc h)) pages p k ≡ some (find l k)

same_found : (o : Option ℕ) → found_in o ≡ held o
same_found none = refl
same_found (some v) = refl

module _ (w : World) (pages : Pages) (quiet : IsQuiet pages) (k : ℕ) where
  pub reached :
      (h p lo hi : ℕ)
      → Stands pages k h p lo hi
      → Reached pages k h p (walk (suc h) w false k pages p)
  unfolding walk get_node visit Good range_valid route
  reached zero p lo hi ((a, below), ok) =
      let s = (place a.n a.valid k).inside in
      let b = below (lower_bound a.n k) s in
      let in_slot = slot_of a.n a.valid a.apart k (rw (a.placed.min_is, a.placed.max_is) ok) in
      record {
        q = p;
        c = route a.n k;
        l = b.l;
        ends =
            rw
              (
                a.at,
                quiet.in_memory p a.n a.at (lower_bound a.n k) s,
                b.at,
                quiet.free _ (leaf b.l) b.at,
              )
              refl;
        at = b.at;
        range = rw (b.placed.min_is, b.placed.max_is) in_slot;
        n = a.n;
        way = (refl, refl);
        at_q = a.at;
        to = refl;
        holds = read_inner 1 pages p k a.n a.at ∙ read_leaf 0 pages (route a.n k) k b.l b.at;
      }
  reached (suc h) p lo hi ((a, below), ok) =
      let s = (place a.n a.valid k).inside in
      let there = child-Stands h pages k p lo hi a below ok in
      let ((b, _), _) = there in
      let r = reached h (route a.n k) _ _ there in
      record {
        q = r.q;
        c = r.c;
        l = r.l;
        ends =
            rw
              (
                a.at,
                quiet.in_memory p a.n a.at (lower_bound a.n k) s,
                b.at,
                quiet.free _ (inner b.n) b.at,
              )
              r.ends;
        at = r.at;
        range = r.range;
        n = r.n;
        way = inr (a.n, a.at, r.way);
        at_q = r.at_q;
        to = r.to;
        holds = read_inner (suc (suc h)) pages p k a.n a.at ∙ r.holds;
      }

  -- In a well formed tree that is in memory with no page locked or obsolete, `lookup` of a key in its range
  -- returns in one pass, with what the tree holds under the key, and changes no page.
  pub lookup-returned :
      (h root lo hi : ℕ)
      → Stands pages k h root lo hi
      → has_bit root 63 ≡ true
      → (v : Option ℕ) × (read (suc (suc h)) pages root k ≡ some v)
        × (lookup (suc h) w pages root k ≡ some (returned pages (held v) v))
  unfolding lookup descend visit lookup_leaf Good
  lookup-returned h root lo hi ((a, below), ok) hot =
      let r = reached h root lo hi ((a, below), ok) in
      (
        find r.l k,
        r.holds,
        rw
            (
              hot,
              a.at,
              quiet.free root (inner a.n) a.at,
              r.ends,
              r.at,
              r.range,
              same_found (find r.l k),
            )
            refl,
      )
