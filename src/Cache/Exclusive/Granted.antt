-- ===== src/Cache/Exclusive/Granted.antt =====
-- `get_exclusive_node` for a page of a tree that no other thread is at work on.
use dex_partial.Base.{ℕ, suc, ◌≡◌, ◌≢◌, refl, arith, Bool, true, false, ◌==◌, Option, some, write}
use dex_partial.OptLock.Words.{read_ok, upgrade_ok}
use dex_partial.BTree.Node.{NodeBase}
use dex_partial.BTree.Inner.{Inner, lower_bound}
use dex_partial.BTree.Inner.Route.{route}
use dex_partial.Rpc.{Page, inner}
use dex_partial.Tree.{Pages, base_of, with_base, can_read, can_write}
use dex_partial.Tree.Shape.{Good}
use dex_partial.Cache.{hot_name, put_base}
use dex_partial.Cache.Backed.{IsHot, IsKept}
use dex_partial.Cache.Find.{hangs-Under}
use dex_partial.Cache.Taken.{index_found, check_passes, parent_apart}
use dex_partial.Cache.Exclusive.{
  Attempt, exclusive, lock_fails, locked_base, unswizzling, exclusive_hot, exclusive_at, at_parent,
  from_parent, get_exclusive_node,
}
use dex_partial.Cache.Exclusive.Refused.{lock_free}

both_free : (b : NodeBase) → can_read b ≡ true → can_write b ≡ true → lock_fails b ≡ false
both_free b r w =
    let x = read_ok b.lock_word (ground arith) in
    let (_, y, _) = upgrade_ok b.lock_word b.lock_word (ground arith) in
    lock_free b.lock_word (omega (arith, x, y))

-- The page is locked and without a parent, and its parent has the page's remote address in its place.
pub record Granted (pages : Pages) (c : ℕ) (g : Page) (o : Option Attempt) : Type 0 where
  pub x : Pages
  pub n : Inner
  pub idx : ℕ
  pub ends : o ≡ some (exclusive x)
  pub page : x c ≡ some (with_base g (record (locked_base (base_of g)) { parent_ptr = 0 }))
  pub parent_was : pages (hot_name (base_of g).parent_ptr) ≡ some (inner n)
  pub child_was : n.children idx ≡ c
  pub parent_is :
      x (hot_name (base_of g).parent_ptr)
      ≡ some (inner (unswizzling n idx (base_of g).remote_address))
  pub others : (t : ℕ) → t ≢ c → t ≢ hot_name (base_of g).parent_ptr → x t ≡ pages t

-- In a well formed tree whose pages in memory hang in it and are backed, with no page locked and with the parent unchanged in between,
-- `get_exclusive_node` gets any page in memory but the root: it locks the page, takes it from its
-- parent, which has its remote address in its place, and changes nothing else.
pub get_exclusive_node-Granted :
    (h : ℕ) (pages : Pages) (root lo hi c : ℕ) (g : Page) (promoted : Bool)
    → Good (suc h) pages root lo hi
    → IsKept h pages root lo hi
    → IsHot pages c g
    → c ≢ root
    → Granted pages c g (get_exclusive_node promoted (base_of g).parent_ptr pages c)
unfolding get_exclusive_node exclusive_at exclusive_hot at_parent from_parent route
get_exclusive_node-Granted h pages root lo hi c g promoted good kept (at, state) away =
    let hang = kept.hangs c g (at, state) away in
    let u = hangs-Under h pages root lo hi good c g hang in
    let q = hot_name (base_of g).parent_ptr in
    let (r, w) = kept.free c g at in
    let (r', w') = kept.free q (inner u.a.n) u.a.at in
    let g_free = both_free (base_of g) r w in
    let n_free = both_free u.a.n.base r' w' in
    let cooling : ((base_of g).pos_state == 1) ≡ false = rw state refl in
    let in_memory : ((base_of g).pos_state == 2) ≡ true = rw state refl in
    let owned : ((base_of g).parent_ptr == 0) ≡ false = ground (arith, hang.under) in
    let apart =
      parent_apart pages c g hang.k hang.h0 u at (kept.backed c g (at, state) away) hang.memory
        hang.parent_memory in
    let index = index_found pages c g hang.k hang.h0 u at in
    let checked = check_passes pages c g hang.k hang.h0 u at in
    let self : (z : ℕ) → (z == z) ≡ true = λ z. ground arith in
    record {
      x =
          put_base
            (write pages q (
              some
                (inner (unswizzling u.a.n (lower_bound u.a.n hang.k) (base_of g).remote_address))))
            c g (record (locked_base (base_of g)) { parent_ptr = 0 });
      n = u.a.n;
      idx = lower_bound u.a.n hang.k;
      ends =
          rw
            (
              at,
              cooling,
              in_memory,
              exclusive_hot,
              g_free,
              owned,
              at_parent,
              apart,
              u.a.at,
              n_free,
              self (base_of g).parent_ptr,
              checked,
              index,
            )
            refl;
      page = rw (self c) refl;
      parent_was = u.a.at;
      child_was = u.sends;
      parent_is = rw (apart, self q) refl;
      others = λ t n_c n_q.
          let a : (t == c) ≡ false = ground (arith, n_c) in
          let b : (t == q) ≡ false = ground (arith, n_q) in rw (a, b) refl;
    }
