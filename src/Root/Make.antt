-- ===== src/Root/Make.antt =====
-- `makeRoot`, which puts a new root over two trees.
use dex_partial.Base.{
  ℕ, zero, suc, ◌-◌, ◌^◌, ◌≤◌, ◌<◌, ◌≡◌, inl, inr, refl, ap, sym, ◌∙◌, arith, true, false, leb,
  ◌==◌, if◌then◌else◌, Option, none, some, Bool-cases, write,
}
use dex_partial.Base.Bits.{has_bit}
use dex_partial.OptLock.{write_unlock}
use dex_partial.BTree.Node.{range_valid}
use dex_partial.BTree.Inner
use dex_partial.BTree.Inner.{Inner, lower_bound, with_bitmap, set_bitmap}
use dex_partial.BTree.Inner.Route.{route, place_unique}
use dex_partial.Rpc.{Page, inner}
use dex_partial.Tree.{Pages, World, base_of, set_parent, slot_min, slot_max}
use dex_partial.Tree.Shape.{inside, read, InnerAt, Good, read_inner}
use dex_partial.Tree.Frame.{Turned, unchanged, frame_low}
use dex_partial.Cache.Flush.{remote_name}
use dex_partial.Root.{State, super_over, update_root_ptr}
use dex_partial.Root.Grow.{fresh_root, mark, root_pages, finish_root, make_root}
use dex_partial.Root.Marks.{
  mark_lem, set_parent-remote, root_pages_other, root_pages_here, super_over_lem,
}

-- Two trees side by side, and what the new root takes.
pub record IsSplit (w : World) (s : State) (h address k left right e word : ℕ) : Type 0 where
  pub low : Good h s.pages left 0 k
  pub high : Good h s.pages right k (2 ^ 64 - 1)
  pub some_key : 0 < k
  pub small_key : k < 2 ^ 64
  pub page : w.get_empty_page s.pages ≡ some (e, word)
  pub page_free : s.pages e ≡ none
  pub page_tag : has_bit e 63 ≡ true
  pub address_free : s.pages address ≡ none
  pub old : Page
  pub old_hot : has_bit s.root 63 ≡ true
  pub old_at : s.pages s.root ≡ some old
  pub current : s.root_word ≡ (base_of old).remote_address

-- The state has the new root, in memory and on its memory node.
pub record Made (s : State) (h address k left right : ℕ) (o : Option State) : Type 0 where
  pub t : State
  pub ends : o ≡ some t
  pub hot : has_bit t.root 63 ≡ true
  pub word_is : t.root_word ≡ address
  pub child : t.super_root.children 0 ≡ t.root
  pub good : Good (suc h) t.pages t.root 0 (2 ^ 64 - 1)
  pub reads :
      (q : ℕ)
      → inside 0 (2 ^ 64 - 1) q ≡ true
      → read (suc (suc h)) t.pages t.root q
        ≡ (if leb q k then read (suc h) s.pages left q else read (suc h) s.pages right q)

module _ (w : World) (s : State) (h address k left right e word : ℕ)
    (given : IsSplit w s h address k left right e word) where
  abbrev n : Inner
  n = fresh_root w address word k left right (suc h)

  -- The node in memory but for its bitmap.
  abbrev node : ℕ → Inner
  node b = with_bitmap n b

  marked : (b : ℕ) × (mark right 1 (mark left 0 n) ≡ node b)
  marked =
      let (a, p) = mark_lem left 0 n in
      let (b, q) = mark_lem right 1 (mark left 0 n) in (b, q ∙ ap (λ x. with_bitmap x b) p)

  abbrev bits : ℕ
  bits = marked.0

  abbrev laid : Pages
  laid = root_pages s.pages e left right n

  abbrev after : State
  after = update_root_ptr (record s { pages = laid }) e s.root

  abbrev done : Pages
  done = write laid e (finish_root s.here (laid e))

  not_new : (name : ℕ) (f : Page) → s.pages name ≡ some f → (name == e) ≡ false
  not_new name f at = elim (Bool-cases (name == e)) [
    | inr o ↦ o
    | inl o ↦
        let same : name ≡ e = ground (arith, o) in
        absurd (cc (at, given.page_free, ap s.pages same))
  ]

  not_remote : (name : ℕ) (f : Page) → s.pages name ≡ some f → (name == address) ≡ false
  not_remote name f at = elim (Bool-cases (name == address)) [
    | inr o ↦ o
    | inl o ↦
        let same : name ≡ address = ground (arith, o) in
        absurd (cc (at, given.address_free, ap s.pages same))
  ]

  remote_is : (mark right 1 (mark left 0 n)).base.remote_address ≡ address
  unfolding fresh_root Inner.new
  remote_is = ap (λ (m : Inner). m.base.remote_address) marked.1

  laid_old :
      (name : ℕ) (f : Page) → s.pages name ≡ some f → (u : ℕ) × (laid name ≡ some (set_parent u f))
  laid_old name f at =
      root_pages_other s.pages e left right n name f at (not_new name f at)
        (rw remote_is (not_remote name f at))

  clean : Inner → Page
  clean m = inner (record m { base = record (m.base) { dirty = false } })

  laid_new : laid e ≡ some (clean (node bits))
  unfolding clean
  laid_new = root_pages_here s.pages e left right n ∙ ap (λ m. some (clean m)) marked.1

  -- The node at the end, without its lock.
  final : Inner
  final = record (node bits) {
    base = record ((node bits).base) {
      dirty = false;
      parent_ptr = s.here;
      lock_word = write_unlock (node bits).base.lock_word;
    };
  }

  done_new : done e ≡ some (inner final)
  unfolding clean final finish_root
  done_new = let self : (e == e) ≡ true = ground arith in rw (self, laid_new) refl

  done_old :
      (name : ℕ) (f : Page) → s.pages name ≡ some f → (u : ℕ) × (done name ≡ some (set_parent u f))
  done_old name f at = let (u, a) = laid_old name f at in (u, rw (not_new name f at) a)

  sub : (c lo hi : ℕ) → Good h s.pages c lo hi → Turned unchanged h s.pages c done c lo hi
  sub c lo hi good =
      frame_low (suc h) s.pages done (λ name f at _. done_old name f at) h c lo hi good
        (omega arith)

  final_at : InnerAt done e (suc h) 0 (2 ^ 64 - 1)
  unfolding final fresh_root Inner.new range_valid
  final_at = record {
    n = final;
    at = done_new;
    valid = record {
      some_key = omega arith;
      few = omega arith;
      sorted = λ i j p q. absurd (omega (arith, p, q));
      in_range = λ i p.
          let z : (i == 0) ≡ true = ground (arith, p) in
          rw z (ground (arith, given.some_key, given.small_key));
      consistent = refl;
    };
    apart =
        λ i p. let z : (i == 0) ≡ true = ground (arith, p) in rw z (omega (arith, given.some_key));
    placed = record {
      level_is = refl;
      min_is = refl;
      max_is = refl;
      at_home = λ z. absurd (cc (z, given.page_tag));
    };
  }

  final-Good : Good (suc h) done e 0 (2 ^ 64 - 1)
  unfolding Good final_at final fresh_root Inner.new
  final-Good = (final_at, children)
    where
      children :
          (i : ℕ) → i ≤ 1 → Good h done (final.children i) (slot_min final i) (slot_max final i)
      children zero p = (sub left 0 k given.low).good
      children (suc zero) p = (sub right k (2 ^ 64 - 1) given.high).good
      children (suc (suc i)) p = absurd (omega (arith, p))

  final_reads :
      (q : ℕ)
      → inside 0 (2 ^ 64 - 1) q ≡ true
      → read (suc (suc h)) done e q
        ≡ (if leb q k then read (suc h) s.pages left q else read (suc h) s.pages right q)
  unfolding final_at final fresh_root Inner.new route
  final_reads q ok = read_inner (suc h) done e q final done_new ∙ elim (Bool-cases (leb q k)) [
    | inl o ↦
        let low : lower_bound final q ≡ 0 = place_unique final final_at.valid q 0 (record {
          inside = omega arith;
          below = λ i z. absurd (omega (arith, z));
          above = λ i z y.
              let first : (i == 0) ≡ true = ground (arith, y) in rw first (ground (arith, o));
        }) in
        rw (low, o) ((sub left 0 k given.low).reads q (ground (arith, o, ok)))
    | inr o ↦
        let high : lower_bound final q ≡ 1 = place_unique final final_at.valid q 1 (record {
          inside = omega arith;
          below = λ i z.
              let first : (i == 0) ≡ true = ground (arith, z) in rw first (ground (arith, o));
          above = λ i z y. absurd (omega (arith, z, y));
        }) in
        rw (high, o) ((sub right k (2 ^ 64 - 1) given.high).reads q (ground (arith, o, ok)))
  ]

  old_word : s.root_word ≡ remote_name laid s.root
  old_word =
      let (u, a) = laid_old s.root given.old given.old_at in
      rw (given.old_hot, a) (given.current ∙ sym (set_parent-remote u given.old))

  new_word : remote_name laid e ≡ address
  unfolding clean fresh_root Inner.new
  new_word = rw (given.page_tag, laid_new) refl

  -- Over two well formed trees for the keys up to a separator and above it, where the root word names the root in memory and the new pages are ones that nothing
  -- names: `makeRoot` ends with a well formed tree under the new root, which is in memory and which the root word names; it holds up to the separator what the left tree held, and above it what the right one did.
  pub make_root-Made : Made s h address k left right (make_root w s address k left right (suc h))
  unfolding make_root update_root_ptr super_over
  make_root-Made =
      let swapped : (s.root_word == remote_name laid s.root) ≡ true = ground (arith, old_word) in
      record {
        t = record after { pages = done };
        ends = rw given.page refl;
        hot = rw swapped given.page_tag;
        word_is = rw swapped new_word;
        child = super_over_lem s.super_root after.root;
        good = rw swapped final-Good;
        reads = rw swapped final_reads;
      }
