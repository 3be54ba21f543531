-- ===== src/BTree.antt =====
-- The nodes of the cached B+ tree, dex/include/cache/btree_node.h.
pub mod Search
pub mod Node
pub mod Leaf
pub mod Inner
