-- ===== src/Keys/Entries.antt =====
-- The entries of the nodes of the radix tree (`InternalEntry`, dex/include/smart/Node.h): 64 bits that hold a partial,
-- the length of a leaf or the type of a node, and an address cut to 48 bits.
use dex_partial.Base.{ℕ, ◌+◌, ◌*◌, ◌/◌, ◌%◌, ◌^◌, ◌≡◌, ◌<◌, ◌↔◌, arith, Bool, true, ◌==◌}
use dex_partial.Allocators.Address.{GlobalAddress, IsAddress, make}

-- The low bit field comes first. The length of a leaf shares its seven bits with the type of a node, which has the upper five.
pub record InternalEntry : Type 0 where
  pub partial : ℕ
  pub kv_len : ℕ
  pub is_leaf : ℕ
  pub mn_id : ℕ
  pub packed_offset : ℕ

unfoldable pub node_type : InternalEntry → ℕ
node_type e = e.kv_len / 2 ^ 2

unfoldable pub entry_val : InternalEntry → ℕ
entry_val e =
    e.partial + e.kv_len * 2 ^ 8 + e.is_leaf * 2 ^ 15 + e.mn_id * 2 ^ 16 + e.packed_offset * 2 ^ 24

abbrev pub same_entry : InternalEntry → InternalEntry → Bool
same_entry a b = entry_val a == entry_val b

unfoldable pub leaf_entry : ℕ → ℕ → GlobalAddress → InternalEntry
leaf_entry partial kv_len addr = record {
  partial = partial;
  kv_len = kv_len % 2 ^ 7;
  is_leaf = 1;
  mn_id = addr.node_id % 2 ^ 8;
  packed_offset = addr.offset / 2 ^ 8 % 2 ^ 40;
}

unfoldable pub node_entry : ℕ → ℕ → GlobalAddress → InternalEntry
node_entry partial node_type addr = record {
  partial = partial;
  kv_len = node_type % 2 ^ 5 * 2 ^ 2;
  is_leaf = 0;
  mn_id = addr.node_id % 2 ^ 8;
  packed_offset = addr.offset / 2 ^ 8 % 2 ^ 40;
}

unfoldable pub with_partial : ℕ → InternalEntry → InternalEntry
with_partial partial e = record e { partial = partial }

unfoldable pub with_type : ℕ → InternalEntry → InternalEntry
with_type node_type e = record e { kv_len = node_type % 2 ^ 5 * 2 ^ 2 }

unfoldable pub addr : InternalEntry → GlobalAddress
unfolding make
addr e = make e.mn_id (e.packed_offset * 2 ^ 8)

pub record IsEntry (e : InternalEntry) : Type 0 where
  pub partial_fits : e.partial < 2 ^ 8
  pub kv_len_fits : e.kv_len < 2 ^ 7
  pub is_leaf_fits : e.is_leaf < 2
  pub mn_id_fits : e.mn_id < 2 ^ 8
  pub packed_offset_fits : e.packed_offset < 2 ^ 40

-- For an address on one of the first 2 ^ 8 memory nodes, aligned to 2 ^ 8 bytes, a type of five bits and a length of seven: the
-- entries made from them give the address, the type and the length back, and keep the address when the partial or the type is exchanged.
pub addr-node_entry :
    (a : GlobalAddress) (partial other kv_len t u : ℕ)
    → IsAddress a
    → a.node_id < 2 ^ 8
    → a.offset % 2 ^ 8 ≡ 0
    → kv_len < 2 ^ 7
    → t < 2 ^ 5
    → u < 2 ^ 5
    → (addr (leaf_entry partial kv_len a) ≡ a)
      × ((leaf_entry partial kv_len a).kv_len ≡ kv_len)
      × (addr (node_entry partial t a) ≡ a)
      × (node_type (node_entry partial t a) ≡ t)
      × (addr (with_partial other (leaf_entry partial kv_len a)) ≡ a)
      × (addr (with_type u (node_entry partial t a)) ≡ a)
      × (node_type (with_type u (node_entry partial t a)) ≡ u)
unfolding addr leaf_entry node_entry with_partial with_type node_type make
addr-node_entry a p q kv_len t u fits node aligned short low low' = (
  ground (arith, fits, node, aligned),
  omega (arith, short),
  ground (arith, fits, node, aligned),
  omega (arith, low),
  ground (arith, fits, node, aligned),
  ground (arith, fits, node, aligned),
  omega (arith, low'),
)

-- Two entries have the same 64 bits exactly when they agree in the partial, the length or type, the mark of a leaf and the address.
pub same_entry_iff :
    (a b : InternalEntry) → IsEntry a → IsEntry b → (same_entry a b ≡ true) ↔ (a ≡ b)
unfolding entry_val
same_entry_iff a b x y = (
  λ e.
      let z : entry_val a ≡ entry_val b = ground (arith, e) in
      let o : a.partial ≡ b.partial = omega (arith, z, x, y) in
      let p : a.kv_len ≡ b.kv_len = omega (arith, z, x, y) in
      let q : a.is_leaf ≡ b.is_leaf = omega (arith, z, x, y) in
      let r : a.mn_id ≡ b.mn_id = omega (arith, z, x, y) in
      let s : a.packed_offset ≡ b.packed_offset = omega (arith, z, x, y) in cc (o, p, q, r, s),
  λ e. rw e (ground arith),
)
