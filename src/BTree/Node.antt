-- ===== src/BTree/Node.antt =====
-- `PageType`, the constants and `NodeBase`: the header that the leaf and the inner node share. Its
-- first field is the word of `OptLock`; a pointer is its address, 0 for `nullptr`.
use dex_partial.Base.{
  ℕ, ◌-◌, ◌^◌, ◌==◌, Bool, ◌&&◌, ◌||◌, not, leb, ltb, if◌then◌else◌, true, false,
}

pub data PageType : Type 0 where
  b_tree_inner b_tree_leaf : PageType

abbrev pub swizzle_tag : ℕ
swizzle_tag = 2 ^ 63

abbrev pub page_size : ℕ
page_size = 1024

-- `sizeof(NodeBase)`, in bytes
abbrev pub node_base_size : ℕ
node_base_size = 64

-- `std::numeric_limits<Key>::min()` and `max()` of a 64-bit key
abbrev pub key_min : ℕ
key_min = 0

abbrev pub key_max : ℕ
key_max = 2 ^ 64 - 1

pub record NodeBase : Type 0 where
  pub lock_word : ℕ
  pub front_version : ℕ
  pub remote_address : ℕ
  pub bitmap : ℕ
  pub parent_ptr : ℕ
  pub type : PageType
  pub count : ℕ
  pub level : ℕ
  pub pos_state : ℕ
  pub obsolete : Bool
  pub shared : Bool
  pub is_smo : Bool
  pub dirty : Bool
  pub min_limit : ℕ
  pub max_limit : ℕ

-- What the constructors of both nodes write.
abbrev pub fresh_base : PageType → ℕ → ℕ → NodeBase
fresh_base type level remote = record {
  lock_word = 8;
  front_version = 0;
  remote_address = remote;
  bitmap = 0;
  parent_ptr = 0;
  type = type;
  count = 0;
  level = level;
  pos_state = 0;
  obsolete = false;
  shared = false;
  is_smo = false;
  dirty = true;
  min_limit = key_min;
  max_limit = key_max;
}

unfoldable pub check_obsolete : NodeBase → Bool
check_obsolete n = n.obsolete

unfoldable pub is_shared : NodeBase → Bool
is_shared n = n.shared

-- The node holds the keys of (min_limit, max_limit], and the least key if it is the leftmost.
unfoldable pub range_valid : NodeBase → ℕ → Bool
range_valid n k =
    if key_min == k && k == n.min_limit then true else not (leb k n.min_limit || ltb n.max_limit k)
