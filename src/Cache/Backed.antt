-- ===== src/Cache/Backed.antt =====
-- The pages in memory as the sampler finds them: each hangs in the tree under its parent, the bitmaps say
-- which children are in memory, and the memory node has each clean page as it would be written.
use dex_partial.Base.{ℕ, ◌≤◌, ◌<◌, ◌≡◌, ◌≢◌, ◌^◌, true, false, some}
use dex_partial.Base.Bits.{bit, has_bit}
use dex_partial.BTree.Inner.{Inner}
use dex_partial.BTree.Inner.Marks.{IsMarked}
use dex_partial.BTree.Inner.Route.{route}
use dex_partial.BTree.Leaf.{Leaf}
use dex_partial.Rpc.{Page, inner, leaf}
use dex_partial.Tree.{Pages, base_of, can_read, can_write}
use dex_partial.Tree.Shape.{inside}
use dex_partial.Tree.Descent.{Leads}
use dex_partial.Cache.{hot_name, stored}

-- The page `c` is the child of an inner node `p` on the way of some key from the root.
pub record Hangs (h : ℕ) (pages : Pages) (root lo hi c : ℕ) (g : Page) : Type 0 where
  pub k : ℕ
  pub h0 : ℕ
  pub n : Inner
  pub ok : inside lo hi k ≡ true
  pub lead : Leads h pages k root h0 (hot_name (base_of g).parent_ptr)
  pub at : pages (hot_name (base_of g).parent_ptr) ≡ some (inner n)
  pub sends : route n k ≡ c
  pub under : (base_of g).parent_ptr ≢ 0
  pub memory : has_bit c 63 ≡ true
  pub parent_memory : has_bit (hot_name (base_of g).parent_ptr) 63 ≡ true

-- What the memory node has under the address of a page: a page of its level with at least its keys, and if
-- the page is clean, the page.
pub record IsBacked (pages : Pages) (g : Page) : Type 0 where
  pub old : Page
  pub remote : has_bit (base_of g).remote_address 63 ≡ false
  pub at : pages (base_of g).remote_address ≡ some old
  pub same_level : (base_of old).level ≡ (base_of g).level
  pub covers :
      (k : ℕ)
      → inside (base_of g).min_limit (base_of g).max_limit k ≡ true
      → inside (base_of old).min_limit (base_of old).max_limit k ≡ true
  pub clean : (base_of g).dirty ≡ false → old ≡ stored g

abbrev pub IsHot : Pages → ℕ → Page → Type 0
IsHot pages c g = (pages c ≡ some g) × ((base_of g).pos_state ≡ 2)

pub record IsKept (h : ℕ) (pages : Pages) (root lo hi : ℕ) : Type 0 where
  pub free :
      (name : ℕ) (g : Page)
      → pages name ≡ some g
      → (can_read (base_of g) ≡ true) × (can_write (base_of g) ≡ true)
  pub hangs : (c : ℕ) (g : Page) → IsHot pages c g → c ≢ root → Hangs h pages root lo hi c g
  pub backed : (c : ℕ) (g : Page) → IsHot pages c g → c ≢ root → IsBacked pages g
  pub marked :
      (q : ℕ) (m : Inner)
      → IsHot pages q (inner m)
      → IsMarked m × (m.base.bitmap < 2 ^ 64) × (m.base.count < 64)
  pub unmarked : (q : ℕ) (l : Leaf ℕ) → IsHot pages q (leaf l) → l.base.bitmap ≡ 0
  pub linked :
      (q : ℕ) (m : Inner) (i : ℕ)
      → IsHot pages q (inner m)
      → bit m.base.bitmap i ≡ 1
      → i ≤ m.base.count
      → (g : Page) × IsHot pages (m.children i) g
        × (m.children i ≢ root)
        × (hot_name (base_of g).parent_ptr ≡ q)
        × (has_bit (m.children i) 63 ≡ true)
