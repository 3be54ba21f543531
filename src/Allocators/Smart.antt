-- ===== src/Allocators/Smart.antt =====
-- `SmartLocalAllocator` (dex/include/smart_local_allocator.h): a thread cuts aligned blocks off its
-- chunk, and takes freed blocks when the chunk has no room.
use dex_partial.Base.{
  ℕ, ◌+◌, ◌*◌, ◌/◌, ◌%◌, ◌^◌, ◌≡◌, ◌<◌, ◌≤◌, ◌⊎◌, inl, inr, refl, arith, Bool, true, false, ◌||◌,
  ltb, leb, if◌then◌else◌, Option, none, some, List, [], ◌∷◌, ◌++◌, Bool-cases, Option-cases, add64,
}
use dex_partial.Allocators.{k_chunk_size}
use dex_partial.Allocators.Address.{GlobalAddress, null, add_offset, same_address}

pub record SmartLocalAllocator : Type 0 where
  pub head : GlobalAddress
  pub cur : GlobalAddress
  pub free_list : List (GlobalAddress × ℕ)

unfoldable pub new : SmartLocalAllocator
new = record { head = null; cur = null; free_list = [] }

-- `ROUND_UP(x, 8)` on 64 bits.
abbrev pub round_up : ℕ → ℕ
round_up x = add64 x 255 / 256 * 256

abbrev pub aligned : SmartLocalAllocator → Bool → GlobalAddress
aligned l align =
    if align then record (l.cur) { offset = round_up l.cur.offset % 2 ^ 48 } else l.cur

-- The first freed block that is large enough, and the others.
unfoldable pub take_free :
    List (GlobalAddress × ℕ) → ℕ → Option (GlobalAddress × List (GlobalAddress × ℕ))
take_free [] size = none
take_free (b ∷ bs) size =
    let rest = keep b (take_free bs size) in if leb size b.1 then some (b.0, bs) else rest
  where
    keep :
        GlobalAddress × ℕ
        → Option (GlobalAddress × List (GlobalAddress × ℕ))
        → Option (GlobalAddress × List (GlobalAddress × ℕ))
    keep b none = none
    keep b (some (addr, bs)) = some (addr, b ∷ bs)

-- The address, `need_chunck`, and the allocator.
unfoldable pub malloc : SmartLocalAllocator → ℕ → Bool → GlobalAddress × Bool × SmartLocalAllocator
unfolding take_free
malloc l size align =
    let cur = aligned l align in
    if same_address l.head null || ltb (add64 l.head.offset k_chunk_size) (add64 cur.offset size)
    then from_free (record l { cur = cur }) (take_free l.free_list size)
    else (cur, false, record l { cur = add_offset cur size })
  where
    from_free :
        SmartLocalAllocator
        → Option (GlobalAddress × List (GlobalAddress × ℕ))
        → GlobalAddress × Bool × SmartLocalAllocator
    from_free l none = (l.cur, true, l)
    from_free l (some (addr, blocks)) = (addr, false, record l { free_list = blocks })

unfoldable pub set_chunck : SmartLocalAllocator → GlobalAddress → SmartLocalAllocator
set_chunck l addr = record l { head = addr; cur = addr }

unfoldable pub free : SmartLocalAllocator → GlobalAddress → ℕ → SmartLocalAllocator
free l addr size = record l { free_list = l.free_list ++ ((addr, size) ∷ []) }

-- What lies free between `cur` and the end of the chunk, which starts at a multiple of 256.
pub record IsValid (l : SmartLocalAllocator) : Type 0 where
  pub within : l.head.offset ≤ l.cur.offset
  pub below : l.cur.offset ≤ l.head.offset + k_chunk_size
  pub fits : l.head.offset + k_chunk_size < 2 ^ 48
  pub even : l.head.offset % 256 ≡ 0
  pub node_fits : l.head.node_id < 2 ^ 16

take_free-some :
    (blocks : List (GlobalAddress × ℕ)) (size : ℕ) (addr : GlobalAddress)
    (rest : List (GlobalAddress × ℕ))
    → take_free blocks size ≡ some (addr, rest)
    → (before : List (GlobalAddress × ℕ)) × (large : ℕ) × (after : List (GlobalAddress × ℕ))
      × (blocks ≡ before ++ ((addr, large) ∷ after))
      × (rest ≡ before ++ after)
      × (size ≤ large)
unfolding take_free
take_free-some [] size addr rest e = absurd (ground arith)
take_free-some ((a, n) ∷ blocks) size addr rest e = elim (Bool-cases (leb size n)) [
  | inl h ↦ ([], n, blocks, ground (arith, e), ground (arith, e), ground arith)
  | inr h ↦ elim (Option-cases (take_free blocks size)) [
    | inl p ↦ absurd (ground (arith, e))
    | inr ((b, r), p) ↦
        let (before, large, after, q, s, t) = take_free-some blocks size b r p in
        ((a, n) ∷ before, large, after, ground (arith, e, q), ground (arith, e, s), t)
  ]
]

abbrev pub NoneFits : ℕ → List (GlobalAddress × ℕ) → Type 0
NoneFits size [] = Unit {0}
NoneFits size (b ∷ bs) = (b.1 < size) × NoneFits size bs

take_free-none :
    (blocks : List (GlobalAddress × ℕ)) (size : ℕ)
    → take_free blocks size ≡ none
    → NoneFits size blocks
unfolding take_free
take_free-none [] size e = tt
take_free-none ((a, n) ∷ blocks) size e = elim (Option-cases (take_free blocks size)) [
  | inl p ↦ (ground (arith, e), take_free-none blocks size p)
  | inr (q, p) ↦ absurd (ground (arith, e))
]

-- The result is a block of the chunk, aligned and in the free part, and the free part then begins behind
-- the block.
pub record Cut (l : SmartLocalAllocator) (size : ℕ) (r : GlobalAddress × Bool × SmartLocalAllocator)
    : Type 0 where
  pub ready : r.1 ≡ false
  pub on_boundary : r.0.offset % 256 ≡ 0
  pub behind : l.cur.offset ≤ r.0.offset
  pub inside : r.0.offset + size ≤ l.head.offset + k_chunk_size
  pub next_behind : r.2.cur.offset ≡ r.0.offset + size
  pub blocks_kept : r.2.free_list ≡ l.free_list

-- The result is a freed block that is large enough, which leaves the list.
pub record Reused (l : SmartLocalAllocator) (size : ℕ)
    (r : GlobalAddress × Bool × SmartLocalAllocator) : Type 0 where
  pub ready : r.1 ≡ false
  pub before : List (GlobalAddress × ℕ)
  pub after : List (GlobalAddress × ℕ)
  pub large : ℕ
  pub enough : size ≤ large
  pub was_freed : l.free_list ≡ before ++ ((r.0, large) ∷ after)
  pub left_freed : r.2.free_list ≡ before ++ after

module _ (l : SmartLocalAllocator) (valid : IsValid l) (size : ℕ) (size_fits : size < 2 ^ 48) where
  -- With a well formed allocator and a size below 2 ^ 48, an aligned `malloc` cuts a block off the chunk at the next multiple of 256 if it fits there; otherwise
  -- it takes the first freed block that is large enough; and it asks for a chunk if there is none, or no
  -- chunk and no freed block.
  pub malloc_cases :
      (Cut l size (malloc l size true))
      ⊎ (Reused l size (malloc l size true))
      ⊎ (((malloc l size true).1 ≡ true) × NoneFits size l.free_list)
  unfolding malloc
  malloc_cases =
      let cur = aligned l true in
      elim (Bool-cases (
        same_address l.head null
        || ltb (add64 l.head.offset k_chunk_size) (add64 cur.offset size))) [
          | inl e ↦ elim (Option-cases (take_free l.free_list size)) [
            | inl p ↦ inr (inr (rw (e, p), take_free-none l.free_list size p))
            | inr ((addr, rest), p) ↦
                let (before, large, after, q, s, t) = take_free-some l.free_list size addr rest p in
                inr (
                  inl (
                    rw (e, p)
                      (record {
                        ready = refl;
                        before = before;
                        after = after;
                        large = large;
                        enough = t;
                        was_freed = q;
                        left_freed = s;
                      })))
          ]
          | inr e ↦ inl (
              rw e (record {
                ready = refl;
                on_boundary = omega (arith, valid);
                behind = omega (arith, valid);
                inside = ground (arith, valid, e);
                next_behind = ground (arith, valid, e);
                blocks_kept = refl;
              }))
        ]
