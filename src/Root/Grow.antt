-- ===== src/Root/Grow.antt =====
-- `makeRoot` (dex/include/tree/leanstore_tree.h), which puts a new root over two trees.
use dex_partial.Base.{ℕ, true, false, if◌then◌else◌, Option, none, some, write}
use dex_partial.Base.Bits.{has_bit}
use dex_partial.OptLock.{write_unlock}
use dex_partial.BTree.Inner
use dex_partial.BTree.Inner.{Inner, set_bitmap}
use dex_partial.Rpc.{Page, inner}
use dex_partial.Tree.{Pages, World, base_of, hide, with_base}
use dex_partial.Cache.{stored}
use dex_partial.Cache.Flush.{fully_unswizzle}
use dex_partial.Root.{State, update_root_ptr, adopt}

-- The new root in its empty page, over its two children.
unfoldable pub fresh_root : World → ℕ → ℕ → ℕ → ℕ → ℕ → ℕ → Inner
unfolding Inner.new
fresh_root w address word k left right level =
    let n = Inner.new w.old_children w.old_keys level address in
    record n {
      base = record (n.base) { count = 1; shared = true; lock_word = word; pos_state = 2 };
      keys = write n.keys 0 k;
      children = write (write n.children 0 left) 1 right;
    }

unfoldable pub mark : ℕ → ℕ → Inner → Inner
unfolding set_bitmap
mark name idx n = if has_bit name 63 then set_bitmap n idx else n

-- The page as `remote_write_unswizzle` writes it to its memory node, with the lock cleared.
unfoldable pub write_unswizzled : Pages → ℕ → Inner → Pages
unfolding fully_unswizzle
write_unswizzled x e n =
    write (write x n.base.remote_address (some (stored (fully_unswizzle x (inner n))))) e
      (some (inner (record n { base = record (n.base) { dirty = false } })))

-- The pages once the new root is in memory and written to its memory node: its children have it as their parent.
unfoldable pub root_pages : Pages → ℕ → ℕ → ℕ → Inner → Pages
unfolding adopt mark write_unswizzled
root_pages x e left right n =
    let y = adopt (hide e) (adopt (hide e) (write x e (some (inner n))) left) right in
    let m = mark right 1 (mark left 0 n) in write_unswizzled (write y e (some (inner m))) e m

-- The last steps: the super root is the parent, and the lock is free.
unfoldable pub finish_root : ℕ → Option Page → Option Page
finish_root here none = none
finish_root here (some g) = some (
    with_base g
      (record (base_of g) { parent_ptr = here; lock_word = write_unlock (base_of g).lock_word }))

-- `address` is the page that `allocate_node` hands out. `none` where no empty page is to be had.
unfoldable pub make_root : World → State → ℕ → ℕ → ℕ → ℕ → ℕ → Option State
unfolding fresh_root root_pages update_root_ptr finish_root
make_root w s address k left right level = with_page (w.get_empty_page s.pages)
  where
    with_page : Option (ℕ × ℕ) → Option State
    with_page none = none
    with_page (some (e, word)) =
        let n = fresh_root w address word k left right level in
        let t = update_root_ptr (record s { pages = root_pages s.pages e left right n }) e s.root in
        some (record t { pages = write t.pages e (finish_root s.here (t.pages e)) })
