-- ===== src/PageTable.antt =====
-- `page_table` (dex/include/tree/page_table.h): a bucket's chain as the list of its buckets, the head
-- bucket first. An operation on a chain runs under the head bucket's lock. A page is its address, and 0
-- is `nullptr`. The checks that a new page has the id as its remote address are left
-- out, and the hash of a page id (`std::_Hash_bytes`) is a parameter.
pub mod Frames
pub mod Chains
pub mod Contract
pub mod Table
use dex_partial.Base.{
  ℕ, ◌+◌, ◌/◌, ◌%◌, ◌^◌, Bool, true, false, ◌&&◌, not, ◌==◌, if◌then◌else◌, List, [], ◌∷◌, add32,
  sub32, Array, write,
}

abbrev pub num_entry_in_page_bucket : ℕ
num_entry_in_page_bucket = 3

abbrev pub io_flag : ℕ
io_flag = 2 ^ 63

pub record PageFrame : Type 0 where
  pub page_id : ℕ
  pub buffer_page : ℕ

pub record PageBucket : Type 0 where
  pub count : ℕ
  pub frames : List PageFrame

abbrev pub free_frame : PageFrame
free_frame = record { page_id = 0; buffer_page = 0 }

-- A bucket after `memset`.
abbrev pub zero_bucket : PageBucket
zero_bucket = record { count = 0; frames = free_frame ∷ free_frame ∷ free_frame ∷ [] }

-- The tests that the loops make on a frame.
abbrev pub holds : ℕ → PageFrame → Bool
holds key frame = frame.page_id == key && not (frame.buffer_page == 0)

abbrev pub holds_page : ℕ → ℕ → PageFrame → Bool
holds_page key page frame = frame.page_id == key && frame.buffer_page == page

abbrev pub has_id : ℕ → PageFrame → Bool
has_id key frame = frame.page_id == key

abbrev pub is_free : PageFrame → Bool
is_free frame = frame.buffer_page == 0

abbrev pub set_page : ℕ → PageFrame → PageFrame
set_page page frame = record frame { buffer_page = page }

abbrev pub fill : ℕ → ℕ → PageFrame → PageFrame
fill key page frame = record { page_id = key; buffer_page = page }

-- The loop over the frames of a bucket stops at the first that passes its test: whether there is one,
-- its page, and the frames with that one changed.
unfoldable pub any_frame : (PageFrame → Bool) → List PageFrame → Bool
any_frame test [] = false
any_frame test (f ∷ fs) = let rest = any_frame test fs in if test f then true else rest

unfoldable pub first_page : (PageFrame → Bool) → List PageFrame → ℕ
first_page test [] = 0
first_page test (f ∷ fs) = let rest = first_page test fs in if test f then f.buffer_page else rest

unfoldable pub set_first :
    (PageFrame → Bool) → (PageFrame → PageFrame) → List PageFrame → List PageFrame
set_first test change [] = []
set_first test change (f ∷ fs) =
    let rest = set_first test change fs in if test f then change f ∷ fs else f ∷ rest

-- The loop over the chain.
unfoldable pub any : (PageFrame → Bool) → List PageBucket → Bool
unfolding any_frame
any test [] = false
any test (b ∷ bs) = let rest = any test bs in if any_frame test b.frames then true else rest

unfoldable pub page_of : (PageFrame → Bool) → List PageBucket → ℕ
unfolding any_frame first_page
page_of test [] = 0
page_of test (b ∷ bs) =
    let rest = page_of test bs in if any_frame test b.frames then first_page test b.frames else rest

unfoldable pub set :
    (PageFrame → Bool) → (PageFrame → PageFrame) → List PageBucket → List PageBucket
unfolding any_frame set_first
set test change [] = []
set test change (b ∷ bs) =
    let rest = set test change bs in
    if any_frame test b.frames
    then record b { frames = set_first test change b.frames } ∷ bs
    else b ∷ rest

-- The second pass of `insert` and `upsert`: the first free frame, or one of a new bucket at the end.
unfoldable pub add_page : ℕ → ℕ → List PageBucket → List PageBucket
unfolding any_frame set_first
add_page key page [] =
    record { count = 1; frames = fill key page free_frame ∷ free_frame ∷ free_frame ∷ [] } ∷ []
add_page key page (b ∷ bs) =
    let rest = add_page key page bs in
    if any_frame is_free b.frames
    then record { count = add32 b.count 1; frames = set_first is_free (fill key page) b.frames }
      ∷ bs
    else b ∷ rest

-- The loop of the two members `remove`. The flag says that the bucket is the head, which is never freed.
unfoldable pub erase : Bool → (PageFrame → Bool) → List PageBucket → List PageBucket
unfolding any_frame set_first
erase head test [] = []
erase head test (b ∷ bs) =
    let rest = erase false test bs in
    let left = sub32 b.count 1 in
    if any_frame test b.frames
    then if left == 0 && not head
      then bs
      else record { count = left; frames = set_first test (set_page 0) b.frames } ∷ bs
    else b ∷ rest

unfoldable pub get : List PageBucket → ℕ → ℕ
unfolding page_of
get chain key = page_of (holds key) chain

-- The chain, the result, and the caller's `value`.
unfoldable pub insert : List PageBucket → ℕ → ℕ → List PageBucket × Bool × ℕ
unfolding any page_of add_page
insert chain key value =
    if any (holds key) chain
    then (chain, false, page_of (holds key) chain)
    else (add_page key value chain, true, value)

unfoldable pub insert_io_flag : List PageBucket → ℕ → List PageBucket × Bool
unfolding insert
insert_io_flag chain key = ((insert chain key io_flag).0, (insert chain key io_flag).1)

unfoldable pub upsert : List PageBucket → ℕ → ℕ → List PageBucket × Bool × ℕ
unfolding any page_of add_page set
upsert chain key value =
    if any (holds key) chain
    then (set (holds key) (set_page value) chain, false, page_of (holds key) chain)
    else (add_page key value chain, true, value)

unfoldable pub remove : List PageBucket → ℕ → ℕ → List PageBucket × Bool
unfolding any erase
remove chain key value = (erase true (holds_page key value) chain, any (holds_page key value) chain)

-- The member without a value tests the id only.
unfoldable pub remove_key : List PageBucket → ℕ → List PageBucket × Bool
unfolding any erase
remove_key chain key = (erase true (has_id key) chain, any (has_id key) chain)

-- The chain, the result, and the caller's `old_value`.
unfoldable pub update : List PageBucket → ℕ → ℕ → ℕ → List PageBucket × Bool × ℕ
unfolding any page_of set
update chain key new_value old_value =
    if any (holds key) chain
    then (set (holds key) (set_page new_value) chain, true, page_of (holds key) chain)
    else (chain, false, old_value)

unfoldable pub rmw : List PageBucket → ℕ → ℕ → ℕ → List PageBucket × Bool
unfolding any set
rmw chain key new_value old_value = (
  set (holds_page key old_value) (set_page new_value) chain,
  any (holds_page key old_value) chain,
)
