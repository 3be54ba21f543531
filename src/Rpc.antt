-- ===== src/Rpc.antt =====
-- The calls that a memory node serves on its part of the tree (dex/include/cache/btree_rpc.h). Its
-- memory is the page at each offset. The walk down runs on fuel; the code has no bound of its own.
pub mod Walk
pub mod Changes
use dex_partial.Base.{
  ℕ, zero, suc, Bool, true, false, not, ◌||◌, ◌==◌, if◌then◌else◌, Option, none, some, Array, write,
}
use dex_partial.BTree.Node.{range_valid}
use dex_partial.BTree.Inner.{Inner, lower_bound}
use dex_partial.BTree.Leaf
use dex_partial.BTree.Leaf.{Leaf, max_entries, find, hits, keys}
use dex_partial.Allocators.Address.{GlobalAddress, of_val}

pub data Page : Type 0 where
  inner : Inner → Page
  leaf : Leaf ℕ → Page

abbrev pub Memory : Type 0
Memory = Array Page

-- Where the walk ends: at an address of another node, or at a leaf of this one.
pub data Arrival : Type 0 where
  away : GlobalAddress → Arrival
  arrived : ℕ → Leaf ℕ → Arrival

-- The loop of the four calls, from the page at an offset; `none` if the fuel runs out.
unfoldable pub walk : ℕ → Memory → ℕ → ℕ → ℕ → Option Arrival
unfolding lower_bound of_val
walk zero memory node_id k offset = none
walk (suc fuel) memory node_id k offset =
    at_page (memory offset) offset (walk fuel memory node_id k)
  where
    at_page : Page → ℕ → (ℕ → Option Arrival) → Option Arrival
    at_page (leaf l) o rest = some (arrived o l)
    at_page (inner n) o rest =
        let node = of_val (n.children (lower_bound n k)) in
        let below = rest node.offset in if node.node_id == node_id then below else some (away node)

-- The results -1, 0, 1 and 2, with what the call hands out.
pub data Found : Type 0 where
  wrong_leaf : Found
  elsewhere : GlobalAddress → Found
  value : ℕ → Found
  nothing : Found

abbrev pub of_find : Option ℕ → Found
of_find none = nothing
of_find (some v) = value v

unfoldable pub lookup_at : Arrival → ℕ → Found
unfolding range_valid find
lookup_at (away node) k = elsewhere node
lookup_at (arrived o l) k = if not (range_valid l.base k) then wrong_leaf else of_find (find l k)

pub data Code : Type 0 where
  minus_one : Code
  code_0 : Code
  code_1 : Code
  code_2 : Code

-- The code, the new value of `root`, and the memory.
abbrev pub Outcome : Type 0
Outcome = Code × GlobalAddress × Memory

abbrev pub at_remote : Leaf ℕ → GlobalAddress
at_remote l = of_val l.base.remote_address

-- What the calls do where the walk ends.
unfoldable pub update_at : Memory → GlobalAddress → ℕ → ℕ → Arrival → Outcome
unfolding range_valid Leaf.lower_bound of_val
update_at memory root k v (away node) = (code_0, root, memory)
update_at memory root k v (arrived o l) =
    let pos = Leaf.lower_bound l k in
    if not (range_valid l.base k)
    then (minus_one, root, memory)
    else if hits l k pos
    then (
      code_1,
      at_remote l,
      write memory o (leaf (record l { entries = write l.entries pos (keys l pos, v) })),
    )
    else (code_2, root, memory)

unfoldable pub insert_at : Memory → GlobalAddress → ℕ → ℕ → Arrival → Outcome
unfolding range_valid Leaf.insert of_val
insert_at memory root k v (away node) = (code_0, root, memory)
insert_at memory root k v (arrived o l) =
    let r = Leaf.insert l k v in
    if not (range_valid l.base k) || l.base.count == max_entries
    then (minus_one, root, memory)
    else (if r.1 then code_1 else code_2, at_remote l, write memory o (leaf r.0))

unfoldable pub remove_at : Memory → GlobalAddress → ℕ → Arrival → Outcome
unfolding range_valid Leaf.remove of_val
remove_at memory root k (away node) = (code_0, root, memory)
remove_at memory root k (arrived o l) =
    let r = Leaf.remove l k in
    if not (range_valid l.base k)
    then (minus_one, root, memory)
    else (if r.1 then code_1 else code_2, at_remote l, write memory o (leaf r.0))

-- The calls: the walk, and what they do where it ends.
abbrev ending : {A : Type 0} → Option Arrival → (Arrival → A) → Option A
ending none f = none
ending (some a) f = some (f a)

unfoldable pub lookup : ℕ → Memory → GlobalAddress → ℕ → Option Found
unfolding walk lookup_at
lookup fuel memory root k =
    ending (walk fuel memory root.node_id k root.offset) (λ a. lookup_at a k)

unfoldable pub update : ℕ → Memory → GlobalAddress → ℕ → ℕ → Option Outcome
unfolding walk update_at
update fuel memory root k v =
    ending (walk fuel memory root.node_id k root.offset) (update_at memory root k v)

unfoldable pub insert : ℕ → Memory → GlobalAddress → ℕ → ℕ → Option Outcome
unfolding walk insert_at
insert fuel memory root k v =
    ending (walk fuel memory root.node_id k root.offset) (insert_at memory root k v)

unfoldable pub remove : ℕ → Memory → GlobalAddress → ℕ → Option Outcome
unfolding walk remove_at
remove fuel memory root k =
    ending (walk fuel memory root.node_id k root.offset) (remove_at memory root k)
