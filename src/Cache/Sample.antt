-- ===== src/Cache/Sample.antt =====
-- A round of `sample_page`: the page that goes to the cooling table, and what the tree holds after it.
use dex_partial.Base.{ℕ, suc, ◌≤◌, ◌<◌, ◌≡◌, ◌≢◌, false, Option, some}
use dex_partial.Base.Bits.{has_bit}
use dex_partial.BTree.Inner.{Inner, lower_bound}
use dex_partial.Rpc.{Page, inner}
use dex_partial.Tree.{Pages, base_of}
use dex_partial.Tree.Shape.{Good}
use dex_partial.Tree.Frame.{Turned, unchanged}
use dex_partial.Cache.{hot_name, stored, cooled, Round, sampled}
use dex_partial.Cache.Backed.{IsHot, Hangs, IsKept}
use dex_partial.Cache.Find.{Under, hangs-Under}
use dex_partial.Cache.Taken.{locked_page, pages_left}
use dex_partial.Cache.Find.{Sound}

-- A round that took a page.
pub record Sampled (h : ℕ) (pages : Pages) (root lo hi : ℕ) (o : Option Round) : Type 0 where
  pub x : Pages
  pub c : ℕ
  pub g : Page
  pub ends : o ≡ some (sampled x c (cooled (locked_page g)))
  pub hot : IsHot pages c g
  pub remote_below :
      (n : Inner) → g ≡ inner n → (i : ℕ) → i ≤ n.base.count → has_bit (n.children i) 63 ≡ false
  pub cooling : x c ≡ some (cooled (locked_page g))
  pub home : x (base_of g).remote_address ≡ some (stored g)
  pub turned : Turned unchanged (suc h) pages root x root lo hi

module _ (h : ℕ) (pages : Pages) (root lo hi : ℕ) (good : Good (suc h) pages root lo hi)
    (low : h < 254) (kept : IsKept h pages root lo hi) where
  module _ (c : ℕ) (g : Page) (i : Option ℕ) (hot : IsHot pages c g) (not_root : c ≢ root)
      (cold : (base_of g).bitmap ≡ 0) (sound : Sound h pages root lo hi good c g i) where
    abbrev hang : Hangs h pages root lo hi c g
    hang = kept.hangs c g hot not_root

    abbrev u : Under pages c g hang.k hang.h0
    u = hangs-Under h pages root lo hi good c g hang

    abbrev q : ℕ
    q = hot_name (base_of g).parent_ptr

    abbrev x : Pages
    x = pages_left pages c g q u.a.n (lower_bound u.a.n hang.k)
