-- ===== src/Root.antt =====
-- The root of a tree (dex/include/tree/leanstore_tree.h): the constructor, which partitions the keys among the
-- leaves of the first tree, `update_root_ptr`, and `load_newest_root`, which brings the root into memory
-- (`cache_insert`, dex/include/cache/leanstore_cache.h). One word of a memory node points to the root.
pub mod Parts
pub mod Fresh
pub mod Load
pub mod Start
pub mod Grow
pub mod Marks
pub mod Make
use dex_partial.Base.{
  ℕ, zero, suc, ◌+◌, ◌-◌, ◌*◌, ◌^◌, ◌%◌, Bool, true, false, ◌||◌, not, ◌==◌, if◌then◌else◌, Option,
  none, some, Array, write, sub64,
}
use dex_partial.Base.Bits.{has_bit}
use dex_partial.OptLock.{write_unlock}
use dex_partial.BTree.Node.{NodeBase, b_tree_inner, fresh_base, key_min, key_max}
use dex_partial.BTree.Inner
use dex_partial.BTree.Inner.{Inner, set_bitmap}
use dex_partial.BTree.Leaf
use dex_partial.BTree.Leaf.{Leaf}
use dex_partial.Rpc.{Page, inner, leaf}
use dex_partial.Tree.{
  Pages, World, base_of, set_parent, written, can_write, fit_limits, brought, hide, with_base,
}
use dex_partial.Cache.{stored}
use dex_partial.Cache.Flush.{remote_name, fully_unswizzle}

-- `root_word` and `root_lock` are on the memory node; `here` is the address of the super root.
pub record State : Type 0 where
  pub pages : Pages
  pub root_word : ℕ
  pub root_lock : ℕ
  pub root : ℕ
  pub here : ℕ
  pub super_root : Inner

-- The pages that `dsm_->alloc` hands out in turn, and what the buffers hold.
pub record Supply : Type 0 where
  pub address : ℕ → ℕ
  pub entries : Array (ℕ × ℕ)
  pub children : Array ℕ
  pub keys : Array ℕ

-- What `allocate_leaf_node` writes to the page.
unfoldable pub new_leaf : Supply → ℕ → ℕ → ℕ → Page
unfolding Leaf.new
new_leaf s address min_limit max_limit =
    let l = Leaf.new s.entries address in
    leaf (record l {
      base = record (l.base) { lock_word = 0; min_limit = min_limit; max_limit = max_limit };
    })

-- The super root once its only child is `root`.
unfoldable pub super_over : Inner → ℕ → Inner
unfolding set_bitmap
super_over n root =
    let m = record n { children = write n.children 0 root } in
    if has_bit root 63 then set_bitmap m 0 else m

unfoldable pub update_root_ptr : State → ℕ → ℕ → State
unfolding super_over
update_root_ptr s new_root old_root =
    let swapped = s.root_word == remote_name s.pages old_root in
    let root = if swapped then new_root else s.root_word in
    record s {
      root_word = if swapped then remote_name s.pages new_root else s.root_word;
      root = root;
      super_root = super_over s.super_root root;
    }

-- The leaf of the partition `i`, and its place in the inner node.
unfoldable pub put_part : Supply → Array ℕ → ℕ → Pages → Pages
unfolding new_leaf
put_part s info i x =
    write x (s.address (i + 1))
      (some (new_leaf s (s.address (i + 1)) (sub64 (info i) 1) (sub64 (info (i + 1)) 1)))

abbrev pub put_key : Supply → Array ℕ → ℕ → Inner → Inner
put_key s info i n = record n {
  keys = write n.keys (i - 1) (sub64 (info i) 1);
  children = write n.children i (s.address (i + 1));
}

-- `left` rounds of the loop over the inner partitions, from the partition `i`.
unfoldable pub parts_loop : ℕ → Supply → Array ℕ → ℕ → Pages × Inner → Pages × Inner
unfolding put_part
parts_loop zero s info i r = r
parts_loop (suc left) s info i (x, n) =
    parts_loop left s info (i + 1) (put_part s info i x, put_key s info i n)

-- Before the loop: the first leaf, and its place in the inner node.
unfoldable pub first_pages : Supply → Array ℕ → Pages → Pages
unfolding new_leaf
first_pages s info x =
    write x (s.address 1) (some (new_leaf s (s.address 1) (info 0) (sub64 (info 1) 1)))

abbrev pub first_base : Supply → ℕ → NodeBase
first_base s num = record (fresh_base b_tree_inner 1 (s.address 0)) { count = (num - 1) % 2 ^ 8 }

unfoldable pub first_node : Supply → ℕ → Inner
unfolding Inner.new
first_node s num = record (Inner.new s.children s.keys 1 (s.address 0)) {
  base = first_base s num;
  children = write s.children 0 (s.address 1);
}

-- After it: the last leaf, and its place in the inner node.
abbrev pub last_node : Supply → Array ℕ → ℕ → Inner → Inner
last_node s info num n = record n {
  base = record (n.base) { lock_word = 0 };
  keys = write n.keys (num - 2) (sub64 (info (num - 1)) 1);
  children = write n.children (num - 1) (s.address num);
}

unfoldable pub last_pages : Supply → Array ℕ → ℕ → Pages → Pages
unfolding new_leaf
last_pages s info num x =
    write x (s.address num)
      (some (new_leaf s (s.address num) (sub64 (info (num - 1)) 1) (info num)))

-- The inner node and the leaves of a first tree of at least two partitions.
unfoldable pub parts : Supply → Array ℕ → ℕ → Pages → Pages
unfolding parts_loop first_pages first_node last_pages
parts s info num pages =
    let r = parts_loop (num - 2) s info 1 (first_pages s info pages, first_node s num) in
    write (last_pages s info num r.0) (s.address 0) (some (inner (last_node s info num r.1)))

-- The constructor for at least one partition, over the pages of the memory nodes and their root word: the super
-- root comes from `memory` and stands at `here`.
unfoldable pub b_tree : Supply → Array ℕ → ℕ → Pages → ℕ → ℕ → ℕ → State
unfolding Inner.new parts update_root_ptr new_leaf
b_tree s info num pages root_word root_lock here =
    let n = Inner.new s.children s.keys 255 0 in
    let super = record n { base = record (n.base) { pos_state = 2 } } in
    let x =
      if num == 1
      then write pages (s.address 0) (some (new_leaf s (s.address 0) key_min key_max))
      else parts s info num pages in
    update_root_ptr
      (record {
        pages = x;
        root_word = root_word;
        root_lock = root_lock;
        root = 0;
        here = here;
        super_root = super;
      })
      (s.address 0) 0

-- `p` as the parent of the page, if it is in memory.
unfoldable pub adopt : ℕ → Pages → ℕ → Pages
adopt p x name = if has_bit name 63 then write x name (told (x name)) else x
  where
    told : Option Page → Option Page
    told none = none
    told (some g) = some (set_parent p g)

-- `cache_insert` into the empty page, and the state with the page as the root. The entry of the page table is left
-- out, like the height, which is only printed.
unfoldable pub new_root : State → Page → ℕ → ℕ → State
unfolding brought adopt set_bitmap
new_root s g e word =
    let n = s.super_root in
    let m = set_bitmap (record n { children = write n.children 0 e }) 0 in
    record s {
      pages = adopt 0 (write s.pages e (some (brought g word s.here))) s.root;
      root = e;
      super_root = record m { base = written m.base };
    }

unfoldable pub with_root : State → Page → Option (ℕ × ℕ) → Option (State × Bool)
unfolding new_root
with_root s g none = none
with_root s g (some (e, word)) = some (new_root s g e word, true)

-- Whether the lock of the super root, which no other thread of the node takes in between, is free.
unfoldable pub under_lock : World → State → ℕ → Page → Option (State × Bool)
unfolding fit_limits with_root
under_lock w s check g =
    let n = s.super_root in
    let released = record s { super_root = record n { base = written n.base } } in
    if not (can_write n.base)
    then some (s, true)
    else if not (s.root_lock == 0)
    then some (released, true)
    else if not (check == s.root_word)
    then some (released, true)
    else if not (fit_limits w (base_of g))
    then none
    else with_root s g (w.get_empty_page s.pages)

-- The state and `needRestart` after the call, for the one before it. `read_ok` says whether the optimistic read of the root passes its check, and
-- `check` is what the second read of the root word gets. `none` where an assertion fails, no page is at the root word, or none is to be had.
unfoldable pub load_newest_root : World → State → Bool → ℕ → Bool → Option (State × Bool)
unfolding under_lock
load_newest_root w s read_ok check need_restart =
    if not (s.root_word == remote_name s.pages s.root) || not (has_bit s.root 63)
    then at_root (s.pages s.root_word)
    else some (s, need_restart)
  where
    at_root : Option Page → Option (State × Bool)
    at_root none = none
    at_root (some g) = if not read_ok then some (s, need_restart) else under_lock w s check g
