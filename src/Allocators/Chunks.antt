-- ===== src/Allocators/Chunks.antt =====
-- `GlobalAllocator` (dex/include/GlobalAllocator.h): a memory node hands out its memory in chunks.
use dex_partial.Base.{
  ℕ, ◌+◌, ◌*◌, ◌-◌, ◌/◌, ◌%◌, ◌^◌, ◌≡◌, ◌<◌, ◌≤◌, ◌⊎◌, inl, inr, refl, arith, Bool, true, false,
  leb, ltb, if◌then◌else◌, Option, none, some, List, [], ◌∷◌, Array, write, Bool-cases,
}
use dex_partial.Allocators.{k_chunk_size}
use dex_partial.Allocators.Address.{GlobalAddress, add_offset}

pub record GlobalAllocator : Type 0 where
  pub start : GlobalAddress
  pub size : ℕ
  pub bitmap : Array Bool
  pub bitmap_len : ℕ
  pub bitmap_tail : ℕ

-- The constructor marks the first chunk, that of the null pointer.
unfoldable pub new : GlobalAddress → ℕ → GlobalAllocator
new start size = record {
  start = start;
  size = size;
  bitmap = write (λ _. false) 0 true;
  bitmap_len = size / k_chunk_size;
  bitmap_tail = 1;
}

-- `none` at the two assertions: no memory left, and a marked chunk at the tail.
unfoldable pub alloc_chunck : GlobalAllocator → Option (GlobalAddress × GlobalAllocator)
alloc_chunck g =
    if leb g.bitmap_len g.bitmap_tail
    then none
    else if g.bitmap g.bitmap_tail
    then none
    else some (
      add_offset g.start (g.bitmap_tail * k_chunk_size % 2 ^ 64),
      record g {
        bitmap = write g.bitmap g.bitmap_tail true;
        bitmap_tail = (g.bitmap_tail + 1) % 2 ^ 64;
      },
    )

abbrev chunk_of : GlobalAllocator → GlobalAddress → ℕ
chunk_of g addr = (addr.offset + 2 ^ 64 - g.start.offset) % 2 ^ 64 / k_chunk_size

-- `none` where the source writes outside `bitmap`.
unfoldable pub free_chunk : GlobalAllocator → GlobalAddress → Option GlobalAllocator
free_chunk g addr =
    if ltb (chunk_of g addr) g.bitmap_len
    then some (record g { bitmap = write g.bitmap (chunk_of g addr) false })
    else none

pub data Request : Type 0 where
  alloc : Request
  free : GlobalAddress → Request

-- One request: the chunk that it hands out, and the next state; `none` where the source stops or writes outside `bitmap`.
unfoldable pub handle : Request → GlobalAllocator → Option (Option GlobalAddress × GlobalAllocator)
unfolding alloc_chunck free_chunk
handle alloc g = answer (alloc_chunck g)
  where
    answer :
        Option (GlobalAddress × GlobalAllocator) → Option (Option GlobalAddress × GlobalAllocator)
    answer none = none
    answer (some (addr, g_next)) = some (some addr, g_next)
handle (free addr) g = answer (free_chunk g addr)
  where
    answer : Option GlobalAllocator → Option (Option GlobalAddress × GlobalAllocator)
    answer none = none
    answer (some g_next) = some (none, g_next)

abbrev push : Option GlobalAddress → List GlobalAddress → List GlobalAddress
push none addrs = addrs
push (some addr) addrs = addr ∷ addrs

-- The chunks that a node hands out over a run of requests, up to the first at which it stops.
unfoldable pub serve : List Request → GlobalAllocator → List GlobalAddress
unfolding handle
serve [] g = []
serve (r ∷ rs) g = next (serve rs) (handle r g)
  where
    next :
        (GlobalAllocator → List GlobalAddress)
        → Option (Option GlobalAddress × GlobalAllocator)
        → List GlobalAddress
    next rest none = []
    next rest (some (addr, g_next)) = push addr (rest g_next)

-- The chunks lie one after the other between two offsets, without overlap.
unfoldable pub IsApart : ℕ → ℕ → List GlobalAddress → Type 0
IsApart from limit [] = Unit {0}
IsApart from limit (a ∷ rest) =
    (from ≤ a.offset)
    × (a.offset + k_chunk_size ≤ limit)
    × IsApart (a.offset + k_chunk_size) limit rest

-- The chunks from the tail on are free, and the node's memory has 48-bit offsets.
pub record IsValid (g : GlobalAllocator) : Type 0 where
  pub chunks : g.bitmap_len ≡ g.size / k_chunk_size
  pub unused : (i : ℕ) → g.bitmap_tail ≤ i → g.bitmap i ≡ false
  pub fits : g.start.offset + g.size < 2 ^ 48

pub new-IsValid :
    (start : GlobalAddress) (size : ℕ) → start.offset + size < 2 ^ 48 → IsValid (new start size)
unfolding new
new-IsValid start size h = record { chunks = refl; unused = λ i p. ground arith; fits = h }

module _ (g : GlobalAllocator) (valid : IsValid g) where
  -- `alloc_chunck` hands out the chunk at the tail as long as there is one, whatever was freed before.
  pub alloc_chunck_cases :
      ((g.bitmap_tail < g.bitmap_len)
        × (g_next : GlobalAllocator) × (alloc_chunck g
            ≡ some (
              record (g.start) { offset = g.start.offset + g.bitmap_tail * k_chunk_size },
              g_next,
            ))
        × (g_next.bitmap_tail ≡ g.bitmap_tail + 1)
        × (g_next.start ≡ g.start)
        × (g_next.size ≡ g.size)
        × IsValid g_next)
      ⊎ ((g.bitmap_len ≤ g.bitmap_tail) × (alloc_chunck g ≡ none))
  unfolding alloc_chunck
  alloc_chunck_cases = elim (Bool-cases (leb g.bitmap_len g.bitmap_tail)) [
    | inl e ↦ inr (ground arith, rw e)
    | inr e ↦
        let u = valid.unused g.bitmap_tail (omega arith) in
        let tail : (g.bitmap_tail + 1) % 2 ^ 64 ≡ g.bitmap_tail + 1 = ground (arith, valid) in
        let off : (g.start.offset + g.bitmap_tail * k_chunk_size % 2 ^ 64) % 2 ^ 48
            ≡ g.start.offset + g.bitmap_tail * k_chunk_size =
          ground (arith, valid) in
        inl (
          ground arith,
          record g { bitmap = write g.bitmap g.bitmap_tail true; bitmap_tail = g.bitmap_tail + 1 },
          rw (e, u, tail, off),
          refl,
          refl,
          refl,
          record {
            chunks = valid.chunks;
            unused = λ i p. ground (arith, valid.unused i);
            fits = valid.fits;
          },
        )
  ]

  pub free_chunk_cases :
      (addr : GlobalAddress)
      → (free_chunk g addr ≡ none)
        ⊎ ((g_next : GlobalAllocator) × (free_chunk g addr ≡ some g_next)
            × (g_next.bitmap_tail ≡ g.bitmap_tail)
            × (g_next.start ≡ g.start)
            × (g_next.size ≡ g.size)
            × IsValid g_next)
  unfolding free_chunk
  free_chunk_cases addr = elim (Bool-cases (ltb (chunk_of g addr) g.bitmap_len)) [
    | inr e ↦ inl (rw e refl)
    | inl e ↦ inr (
      record g { bitmap = write g.bitmap (chunk_of g addr) false },
      rw e refl,
      refl,
      refl,
      refl,
      record {
        chunks = valid.chunks;
        unused = λ i p. ground (arith, valid.unused i);
        fits = valid.fits;
      },
    )
  ]

move :
    {from from_next limit limit_next : ℕ} (addrs : List GlobalAddress)
    → from_next ≡ from
    → limit_next ≡ limit
    → IsApart from_next limit_next addrs
    → IsApart from limit addrs
move addrs e f h = rw (← e, ← f) h

-- From a well formed state with memory below 2 ^ 48, over any run of allocations and frees, up to an
-- allocation with no chunk left or a free of an address outside the memory of the node: the chunks
-- that the node hands out lie in its memory, behind the first chunk and in order, and no two of them
-- overlap.
pub serve-IsApart :
    (rs : List Request) (g : GlobalAllocator)
    → IsValid g
    → IsApart (g.start.offset + g.bitmap_tail * k_chunk_size) (g.start.offset + g.size) (serve rs g)
unfolding serve handle IsApart
serve-IsApart [] g valid = tt
serve-IsApart (alloc ∷ rs) g valid = elim (alloc_chunck_cases g valid) [
  | inl (h, g_next, e, t, s, z, v) ↦ rw e (
    omega arith,
    ground (arith, valid),
    move (serve rs g_next) (ground (arith, t, s)) (ground (arith, s, z))
        (serve-IsApart rs g_next v),
  )
  | inr (h, e) ↦ rw e tt
]
serve-IsApart (free addr ∷ rs) g valid = elim (free_chunk_cases g valid addr) [
  | inl e ↦ rw e tt
  | inr (g_next, e, t, s, z, v) ↦ rw e (
      move (serve rs g_next) (ground (arith, t, s)) (ground (arith, s, z))
        (serve-IsApart rs g_next v))
]
