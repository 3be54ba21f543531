-- ===== src/Allocators/Local.antt =====
-- `LocalAllocator` (dex/include/LocalAllocator.h) as it is built, without PAGE_OFFSET: a thread cuts
-- pages off a chunk one after the other. `alloc` is `DSM::alloc(size)` (dex/include/DSM.h), with the
-- chunk that the memory node would send as an argument.
use dex_partial.Base.{
  ℕ, ◌+◌, ◌^◌, ◌≡◌, ◌<◌, ◌≤◌, ◌⊎◌, inl, inr, refl, arith, Bool, true, false, ◌||◌, ltb,
  if◌then◌else◌, List, [], ◌∷◌, ◌++◌, Bool-cases, add64,
}
use dex_partial.Allocators.{k_chunk_size}
use dex_partial.Allocators.Address.{GlobalAddress, null, add_offset}

pub record LocalAllocator : Type 0 where
  pub head : GlobalAddress
  pub cur : GlobalAddress
  pub log_heads : List GlobalAddress
  pub head_offset : ℕ

unfoldable pub new : LocalAllocator
new = record { head = null; cur = null; log_heads = []; head_offset = 0 }

abbrev pub empty : List GlobalAddress → Bool
empty [] = true
empty (a ∷ rest) = false

-- The address, `need_chunck`, and the allocator.
unfoldable pub malloc : LocalAllocator → ℕ → GlobalAddress × Bool × LocalAllocator
malloc l size =
    if empty l.log_heads
      || ltb (add64 l.head.offset k_chunk_size) (add64 (add64 l.cur.offset size) 8)
    then (l.cur, true, l)
    else (l.cur, false, record l { cur = add_offset l.cur size })

unfoldable pub set_chunck : LocalAllocator → GlobalAddress → LocalAllocator
set_chunck l addr = record l {
  log_heads = l.log_heads ++ (addr ∷ []);
  head = add_offset addr l.head_offset;
  cur = add_offset addr l.head_offset;
}

unfoldable pub alloc : LocalAllocator → ℕ → GlobalAddress → GlobalAddress × LocalAllocator
unfolding malloc set_chunck
alloc l size chunk =
    let first = malloc l size in
    let again = malloc (set_chunck first.2 chunk) size in
    if first.1 then (again.0, again.2) else (first.0, first.2)

-- What lies free between `cur` and the end of the chunk.
pub record IsValid (l : LocalAllocator) : Type 0 where
  pub within : l.head.offset ≤ l.cur.offset
  pub below : l.cur.offset ≤ l.head.offset + k_chunk_size
  pub same_node : l.cur.node_id ≡ l.head.node_id
  pub fits : l.head.offset + k_chunk_size < 2 ^ 48
  pub no_offset : l.head_offset ≡ 0

pub new-IsValid : IsValid new
unfolding new
new-IsValid = record {
  within = omega arith;
  below = omega arith;
  same_node = refl;
  fits = omega arith;
  no_offset = refl;
}

empty-snoc : (heads : List GlobalAddress) (a : GlobalAddress) → empty (heads ++ (a ∷ [])) ≡ false
empty-snoc [] a = refl
empty-snoc (b ∷ heads) a = refl

module _ (l : LocalAllocator) (valid : IsValid l) (size : ℕ) (chunk : GlobalAddress)
    (small : size + 8 ≤ k_chunk_size) (room : chunk.offset + k_chunk_size < 2 ^ 48) where
  set_chunck-IsValid : IsValid (set_chunck l chunk)
  unfolding set_chunck
  set_chunck-IsValid = record {
    within = omega arith;
    below = ground (arith, valid);
    same_node = refl;
    fits = ground (arith, valid);
    no_offset = valid.no_offset;
  }

  -- Of a page that fits a chunk with 8 bytes to spare, with a new chunk that ends below 2 ^ 48, by a well
  -- formed allocator: `alloc` cuts the page off the present chunk if its size and 8 bytes fit there, and off the new chunk
  -- otherwise. Either way the page lies within its chunk, and what is left free begins behind the page.
  pub alloc_cases :
      ((l.cur.offset + size + 8 ≤ l.head.offset + k_chunk_size)
        × (alloc l size chunk
            ≡ (l.cur, record l { cur = record (l.cur) { offset = l.cur.offset + size } })))
      ⊎ (((l.log_heads ≡ []) ⊎ (l.head.offset + k_chunk_size < l.cur.offset + size + 8))
          × (alloc l size chunk ≡ (
            chunk,
            record {
              head = chunk;
              cur = record chunk { offset = chunk.offset + size };
              log_heads = l.log_heads ++ (chunk ∷ []);
              head_offset = 0;
            },
          )))
  unfolding alloc malloc set_chunck
  alloc_cases = elim (Bool-cases (malloc l size).1) [
    | inl e ↦
        inr
          (ground (arith, valid), ground (arith, valid, small, room, empty-snoc l.log_heads chunk))
    | inr e ↦ inl (ground (arith, valid), ground (arith, valid, e))
  ]

  -- Under the same conditions `alloc` leaves the allocator well formed.
  pub alloc-IsValid : IsValid (alloc l size chunk).1
  alloc-IsValid = elim alloc_cases [
    | inl (h, e) ↦ rw e (record {
      within = ground (arith, valid);
      below = omega arith;
      same_node = valid.same_node;
      fits = valid.fits;
      no_offset = valid.no_offset;
    })
    | inr (h, e) ↦ rw e (record {
      within = omega arith;
      below = omega arith;
      same_node = refl;
      fits = room;
      no_offset = refl;
    })
  ]
