-- ===== src/Cache/Flush.antt =====
-- `fully_unswizzle` (dex/include/cache/node_wr.h) and `flush_all` (dex/include/cache/leanstore_cache.h): the dirty pages in
-- memory are written to their memory nodes with the addresses of their children.
use dex_partial.Base.{
  ℕ, zero, suc, ◌+◌, ◌*◌, Bool, false, leb, if◌then◌else◌, Option, none, some, write,
}
use dex_partial.Base.Bits.{has_bit}
use dex_partial.BTree.Node.{page_size}
use dex_partial.Rpc.{Page, inner, leaf}
use dex_partial.Tree.{Pages, base_of, with_base}
use dex_partial.Cache.{hot_name, stored}

-- The address of a page in memory; 0 stands for what is read where there is none.
abbrev pub remote_of : Option Page → ℕ
remote_of none = 0
remote_of (some g) = (base_of g).remote_address

-- What a child is once its parent is unswizzled.
abbrev pub remote_name : Pages → ℕ → ℕ
remote_name pages child = if has_bit child 63 then remote_of (pages child) else child

-- The assertion that a child in memory has its bit in the bitmap is left out.
unfoldable pub fully_unswizzle : Pages → Page → Page
fully_unswizzle pages (leaf l) = leaf l
fully_unswizzle pages (inner n) = inner (record n {
  base = record (n.base) { bitmap = 0 };
  children = λ i. if leb i n.base.count then remote_name pages (n.children i) else n.children i;
})

abbrev pub set_dirty : Bool → Page → Page
set_dirty d g = with_base g (record (base_of g) { dirty = d })

flush_at : Pages → ℕ → Option Page → Pages
unfolding fully_unswizzle
flush_at pages name none = pages
flush_at pages name (some g) =
    if (base_of g).dirty
    then write (write pages (base_of g).remote_address (some (stored (fully_unswizzle pages g))))
        name (some (set_dirty false g))
    else pages

unfoldable pub flush_page : Pages → ℕ → Pages
unfolding flush_at
flush_page pages name = flush_at pages name (pages name)

-- The name of page `i` of the buffer pool.
abbrev pub frame : ℕ → ℕ → ℕ
frame base_address i = hot_name (base_address + i * page_size)

-- The first `n` pages of the pool, in order.
unfoldable pub flush_all : ℕ → ℕ → Pages → Pages
unfolding flush_page
flush_all base_address zero pages = pages
flush_all base_address (suc n) pages =
    flush_page (flush_all base_address n pages) (frame base_address n)
