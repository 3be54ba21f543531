-- ===== src/Tests/ByteKeys.antt =====
-- Byte keys at the ends of their range.
use dex_partial.Base.{
  ℕ, ◌+◌, ◌-◌, ◌^◌, ◌%◌, ◌≤◌, ◌<◌, ◌≡◌, ◌≢◌, ◌↔◌, refl, arith, true, ◌==◌, if◌then◌else◌, [], ◌∷◌,
}
use dex_partial.Keys.{
  key_len, Key, get_partial, get_leftmost, get_rightmost, remake_prefix, longest_common_prefix,
  add_one, plus, minus, int2key, key2int, str2key,
}
use dex_partial.Keys.Value.{key2int-int2key}
use dex_partial.Keys.Arith.{key2int-plus}
use dex_partial.Keys.Prefix.{leftmost-rightmost_iff, longest_common_prefix_lem}
use dex_partial.Keys.Headers.{Header, header_of, is_match, split_header, is_match-header_of}
use dex_partial.Keys.Entries.{
  IsEntry, leaf_entry, node_entry, with_partial, with_type, node_type, addr, same_entry,
  addr-node_entry, same_entry_iff,
}
use dex_partial.Allocators.Address.{GlobalAddress, IsAddress, make}

program : Unit {0}
unfolding key2int int2key plus minus add_one get_leftmost get_rightmost remake_prefix
    longest_common_prefix str2key get_partial
program = tt

-- 255 in each byte but the first, and 1 there.
abbrev ones : Key
ones i = if i == 0 then 1 else 255

carried : key2int (plus ones 3) ≡ 2 ^ 57 + 2
unfolding program
carried = refl

borrowed : key2int (minus (int2key (2 ^ 32)) 1) ≡ 2 ^ 32 - 1
unfolding program
borrowed = refl

remade : key2int (remake_prefix ones 3 7) ≡ 143841409680539648
unfolding program
remade = refl

text : key2int (str2key (1 ∷ 2 ∷ [])) ≡ 72620543991349248
unfolding program
text = refl

ones_bytes : (i : ℕ) → ones i < 2 ^ 8
ones_bytes i = ground arith

key2int-int2key_example :
    (key2int (int2key 123456789) ≡ 123456789)
    × ((i : ℕ) → i < key_len → int2key (key2int ones) i ≡ ones i)
key2int-int2key_example = key2int-int2key 123456789 ones (omega arith) ones_bytes

key2int-plus_example :
    (key2int (plus ones 3) ≡ (key2int ones + 3) % 2 ^ 64)
    × (key2int (minus ones 3) ≡ (key2int ones + 2 ^ 64 - 3) % 2 ^ 64)
    × (key2int (add_one ones) ≡ (key2int ones + 1) % 2 ^ 64)
key2int-plus_example = key2int-plus ones 3 ones_bytes (omega arith)

leftmost-rightmost_iff_example : ((i : ℕ) → i < 2 → ones i ≡ ones i) ↔ (
    (key2int (get_leftmost ones 2) ≤ key2int ones)
    × (key2int ones ≤ key2int (get_rightmost ones 2)))
leftmost-rightmost_iff_example =
    leftmost-rightmost_iff ones ones 2 ones_bytes ones_bytes (omega arith)

longest_common_prefix_lem_run :
    (2 + longest_common_prefix ones (int2key (2 ^ 56)) 2 ≤ key_len + 1)
    × ((i : ℕ)
        → i < longest_common_prefix ones (int2key (2 ^ 56)) 2
        → get_partial ones (2 + i) ≡ get_partial (int2key (2 ^ 56)) (2 + i))
    × (2 + longest_common_prefix ones (int2key (2 ^ 56)) 2 ≤ key_len
        → get_partial ones (2 + longest_common_prefix ones (int2key (2 ^ 56)) 2)
          ≢ get_partial (int2key (2 ^ 56)) (2 + longest_common_prefix ones (int2key (2 ^ 56)) 2))
longest_common_prefix_lem_run = longest_common_prefix_lem ones (int2key (2 ^ 56)) 2 (omega arith)

-- A node two partials below the root of the keys with the bytes of `ones`, and its header split at the first of its partials.
abbrev header : Header
header = header_of (λ i. 9) ones 2 1 5

program_of_nodes : Unit {0}
unfolding header_of is_match split_header get_partial addr leaf_entry node_entry make
program_of_nodes = tt

split_tail : (split_header header 0).partial 0 ≡ 255
unfolding program_of_nodes
split_tail = refl

same_bytes : (split_header header 0).partial_len ≡ 1
unfolding program_of_nodes
same_bytes = refl

is_match-header_of_run :
    (is_match header ones ≡ true)
    ↔ ((i : ℕ) → i < 2 → get_partial ones (1 + i) ≡ get_partial ones (1 + i))
is_match-header_of_run = is_match-header_of (λ i. 9) ones ones 2 1 5 (omega arith) (omega arith)

abbrev place : GlobalAddress
place = record { node_id = 3; offset = 4096 }

place-IsAddress : IsAddress place
place-IsAddress = record { node_fits = omega arith; offset_fits = omega arith }

addr-node_entry_run :
    (addr (leaf_entry 7 40 place) ≡ place)
    × ((leaf_entry 7 40 place).kv_len ≡ 40)
    × (addr (node_entry 7 5 place) ≡ place)
    × (node_type (node_entry 7 5 place) ≡ 5)
    × (addr (with_partial 8 (leaf_entry 7 40 place)) ≡ place)
    × (addr (with_type 6 (node_entry 7 5 place)) ≡ place)
    × (node_type (with_type 6 (node_entry 7 5 place)) ≡ 6)
addr-node_entry_run =
    addr-node_entry place 7 8 40 5 6 place-IsAddress (omega arith) refl (omega arith) (omega arith)
      (omega arith)

leaf-IsEntry : (n : ℕ) → n < 2 ^ 8 → IsEntry (leaf_entry n 40 place)
unfolding leaf_entry
leaf-IsEntry n p = record {
  partial_fits = p;
  kv_len_fits = omega arith;
  is_leaf_fits = omega arith;
  mn_id_fits = omega arith;
  packed_offset_fits = omega arith;
}

same_entry_iff_run :
    (same_entry (leaf_entry 7 40 place) (leaf_entry 8 40 place) ≡ true)
    ↔ (leaf_entry 7 40 place ≡ leaf_entry 8 40 place)
same_entry_iff_run =
    same_entry_iff (leaf_entry 7 40 place) (leaf_entry 8 40 place) (leaf-IsEntry 7 (omega arith))
      (leaf-IsEntry 8 (omega arith))
