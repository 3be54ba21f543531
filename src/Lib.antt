-- ===== src/Lib.antt =====
-- A verification library for the memory-disaggregated B+-tree under dex/.
--
-- The tree's pages are `BTreeLeaf` and `BTreeInner` (dex/include/cache/btree_node.h). Each begins with
-- a `NodeBase`, whose optimistic lock is `OptLock`: readers take the word's version and check it
-- afterwards, writers and I/O set bits of it by compare-and-swap.
--
--   Base            Boolean tests, machine words written as remainders, arrays, bits of a number
--   OptLock         the members of `OptLock` on the lock word; OptLock/Threads interleaves any number of
--                   threads, OptLock/Invariant is the invariant of the steps, OptLock/Safety what follows
--   BTree/Search    the binary search that leaves and inner nodes share
--   BTree/Node      `NodeBase`: the header of a page
--   BTree/Leaf      `BTreeLeaf`, one function per member, on a record; below it the lemmas on each
--   BTree/Inner     `BTreeInner`, likewise, with the bitmap of the children in memory
--   Tree            the descent of the calls of `BTree` (dex/include/tree/leanstore_tree.h) and what the cache
--                   (dex/include/cache/leanstore_cache.h) brings in: Tree, and the passes of the four calls
--                   in Tree/Passes. Tree/Shape says what a well formed tree is and what it holds,
--                   Tree/Slots and Tree/Frame what a change elsewhere leaves alone, Tree/Arrive, Tree/Leaves,
--                   Tree/SplitLeaf and Tree/SplitInner treat the changes, Tree/Descent to Tree/Walks the
--                   way down, Tree/Calls and Tree/Inserts a whole pass, Tree/Scan to Tree/ScanCall `range_scan`, Tree/Quiet a pass that meets no obstacle,
--                   Tree/History runs of passes
--   Root            the constructor of `BTree`, which gives each partition of the keys a leaf, `update_root_ptr`
--                   and `load_newest_root` (dex/include/tree/leanstore_tree.h): Root/Parts and Root/Fresh
--                   treat the first tree, Root/Load the load, Root/Start runs of calls on a new tree,
--                   Root/Grow is `makeRoot`, Root/Marks and Root/Make what it does
--   Cache           how a page goes to the cooling table: the walk of the sampler (dex/include/cache/node_wr.h) and a
--                   round of `sample_page` (dex/include/cache/leanstore_cache.h). Cache/Backed says what is
--                   assumed of the pages in memory, Cache/Find treats the walk, Cache/Settle and Cache/Leave
--                   the tree without the page, Cache/Taken and Cache/Sample the round; `flush_all` is in
--                   Cache/Flush, what it leaves in Cache/FlushLoop and Cache/FlushTree;
--                   `get_exclusive_node`, which takes a page from its parent, is in Cache/Exclusive
--   VersionLock     `Lock` and `Lock32` (dex/util/lock.h), on a word of any width
--   WrLock          the rounds of `WRLock` (dex/include/WRLock.h), and threads interleaved over it
--                   (WrLock/Threads)
--   PageTable       `page_table` (dex/include/tree/page_table.h): the frames of a bucket, its chain, the
--                   chain as a map (PageTable/Contract) and the table under its locks (PageTable/Table)
--   CoolingTable    `hash_table` (dex/include/tree/hash_table.h): a bucket as a queue of pages, and the
--                   table, which takes the pages that it evicts out of the page table
--   Allocators      `GlobalAddress` and the allocators (dex/include/*Allocator.h), with `DSM::alloc`
--   RdmaBuffer      `RdmaBuffer` (dex/include/RdmaBuffer.h) as `set_dex_buffer` lays it out
--   Rpc             the calls that a memory node serves (dex/include/cache/btree_rpc.h)
--   Keys            the byte keys of the radix tree (dex/include/smart/Key.h): as numbers (Keys/Value), their
--                   arithmetic and their prefixes; the headers and entries of its nodes (smart/Node.h) are
--                   in Keys/Headers and Keys/Entries
--   Tests           runs on small inputs
--
-- A memory area is a function from an index to its content, so that a read past the count gets the
-- stale content, as in the source; the in-place operations return the new record. An 8, 32 or 64-bit
-- field wraps around where it is written (`% 2 ^ w`). A loop runs on fuel: the search on the width of
-- its interval, a walk down the tree on more than the height, the bit scans on 64 bits, a probe on the
-- buckets that are left.
--
-- The hash of the two tables (`std::_Hash_bytes`) is a parameter of theirs, a call that waits for a lock
-- runs on the list of the words that it meets, and an allocation takes the chunk that the memory node
-- would send as an argument. The pages of the tree are under the 64-bit values that their parents hold;
-- what its thread asks of the allocators and of the admission of leaves is a record of functions
-- (`World`), and a descent runs on fuel of the tree's height, which is enough in a well formed tree.
--
-- Not modelled: the RDMA transport and the threads that drive it; of the tree, the levels that
-- compute nodes share (`set_shared`, `new_refresh_from_root`), bulk loading (`insert_single`), pages that are cooling, and other threads at work on its
-- pages (OptLock/Safety says what its locks give), and the sampling that a call starts before it takes
-- a page; the assertions on a page that was read, on the bitmap in `fully_unswizzle` and on a page that the
-- cooling table puts out; and the other indexes of the repository (CHIME/,
-- DART-main/, and the baselines in dex/src).
pub mod Base
pub mod OptLock
pub mod BTree
pub mod Tree
pub mod Cache
pub mod Keys
pub mod Root
pub mod Allocators
pub mod PageTable
pub mod CoolingTable
pub mod RdmaBuffer
pub mod Rpc
pub mod WrLock
pub mod VersionLock
mod Tests
