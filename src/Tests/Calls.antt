-- ===== src/Tests/Calls.antt =====
-- A part of a tree on memory node 3: an inner page at 0 over a leaf at 4096 and a page of node 5.
use dex_partial.Base.{
  ℕ, ◌+◌, ◌*◌, ◌^◌, ◌≡◌, ◌≢◌, ◌<◌, refl, arith, true, ◌==◌, if◌then◌else◌, none, some,
}
use dex_partial.BTree.Search
use dex_partial.BTree.Node.{b_tree_inner, b_tree_leaf, fresh_base, range_valid}
use dex_partial.BTree.Inner.{Inner}
use dex_partial.BTree.Inner.Route
use dex_partial.BTree.Leaf.{Leaf, find}
use dex_partial.BTree.Leaf.Lookup.{IsValid}
use dex_partial.Allocators.Address.{GlobalAddress}
use dex_partial.Rpc.{
  inner, leaf, Memory, arrived, walk, value, nothing, elsewhere, code_1, code_2, minus_one, lookup,
  insert, update, remove,
}
use dex_partial.Rpc.Changes.{Done, lookup-calls}

abbrev top_page : Inner
top_page = record {
  base = record (fresh_base b_tree_inner 1 3) { count = 1 };
  children = λ i. if i == 0 then 3 + 4096 * 2 ^ 16 else 5;
  keys = λ i. 100;
  back_version = 0;
}

abbrev tens : Leaf ℕ
tens = record {
  base = record (fresh_base b_tree_leaf 0 (3 + 4096 * 2 ^ 16)) { count = 3 };
  entries = λ i. ((i + 1) * 10, i);
  next_leaf = 0;
  back_version = 0;
}

tens-IsValid : IsValid tens
unfolding range_valid
tens-IsValid = record {
  few = omega arith;
  sorted = λ i j p q. omega arith;
  in_range = λ i p. ground arith;
  consistent = refl;
}

abbrev memory : Memory
memory o = if o == 0 then inner top_page else leaf tens

abbrev root : GlobalAddress
root = record { node_id = 3; offset = 0 }

program : Unit {0}
unfolding lookup insert update remove walk Search.lower_bound
program = tt

found : lookup 2 memory root 20 ≡ some (value 1)
unfolding program
found = refl

missing : lookup 2 memory root 25 ≡ some nothing
unfolding program
missing = refl

other_node : lookup 2 memory root 200 ≡ some (elsewhere (record { node_id = 5; offset = 0 }))
unfolding program
other_node = refl

reached : walk 2 memory 3 20 0 ≡ some (arrived 4096 tens)
unfolding program
reached = refl

own : range_valid tens.base 20 ≡ true
unfolding range_valid
own = refl

lookup-calls_example :
    (3 < 58
      → Done 2 memory root 20 4096 tens reached own code_2 (value 7) (insert 2 memory root 20 7))
    × Done 2 memory root 20 4096 tens reached own code_1 nothing (remove 2 memory root 20)
    × (find tens 20 ≢ none
        → Done 2 memory root 20 4096 tens reached own code_1 (value 7) (update 2 memory root 20 7))
    × (find tens 20 ≡ none → update 2 memory root 20 7 ≡ some (code_2, root, memory))
    × (tens.base.count ≡ 58 → insert 2 memory root 20 7 ≡ some (minus_one, root, memory))
unfolding find Search.lower_bound
lookup-calls_example = lookup-calls 2 memory root 20 4096 tens reached own tens-IsValid 7
