-- ===== src/Allocators/Multi.antt =====
-- `MultiAllocator` (dex/include/MultiAllocator.h) as it is built, without PAGE_OFFSET: a log per memory
-- node. `alloc` is `DSM::alloc(size, node_id)` (dex/include/DSM.h), with the chunk that the memory node
-- would send as an argument.
use dex_partial.Base.{
  ℕ, ◌%◌, ◌≡◌, arith, Bool, true, false, ◌||◌, ◌==◌, ltb, if◌then◌else◌, List, [], ◌∷◌, ◌++◌, Array,
  write, Bool-cases, add64, inl, inr,
}
use dex_partial.Allocators.{k_chunk_size}
use dex_partial.Allocators.Address.{GlobalAddress, null, add_offset}
use dex_partial.Allocators.Local
use dex_partial.Allocators.Local.{LocalAllocator, empty}

pub record MultiAllocator : Type 0 where
  pub cur : Array GlobalAddress
  pub head : Array GlobalAddress
  pub log_heads : Array (List GlobalAddress)
  pub head_offset : Array ℕ

unfoldable pub new : MultiAllocator
new = record { cur = λ _. null; head = λ _. null; log_heads = λ _. []; head_offset = λ _. 0 }

unfoldable pub malloc : MultiAllocator → ℕ → ℕ → GlobalAddress × Bool × MultiAllocator
malloc a size node_id =
    if empty (a.log_heads node_id)
      || ltb (add64 (a.head node_id).offset k_chunk_size)
          (add64 (add64 (a.cur node_id).offset size) 8)
    then (a.cur node_id, true, a)
    else (
      a.cur node_id,
      false,
      record a { cur = write a.cur node_id (add_offset (a.cur node_id) size) },
    )

unfoldable pub set_chunck : MultiAllocator → GlobalAddress → ℕ → MultiAllocator
set_chunck a addr node_id =
    let moved = add_offset addr (a.head_offset node_id) in
    record a {
      log_heads = write a.log_heads node_id (a.log_heads node_id ++ (addr ∷ []));
      head = write a.head node_id moved;
      cur = write a.cur node_id moved;
    }

unfoldable pub alloc : ℕ → MultiAllocator → ℕ → ℕ → GlobalAddress → GlobalAddress × MultiAllocator
unfolding malloc set_chunck
alloc machine_nr a size node_id chunk =
    let n = node_id % machine_nr in
    let first = malloc a size n in
    let again = malloc (set_chunck first.2 chunk n) size n in
    if first.1 then (again.0, again.2) else (first.0, first.2)

-- The log of one memory node, as a `LocalAllocator`.
abbrev pub log_of : MultiAllocator → ℕ → LocalAllocator
log_of a node_id = record {
  head = a.head node_id;
  cur = a.cur node_id;
  log_heads = a.log_heads node_id;
  head_offset = a.head_offset node_id;
}

malloc-log_of :
    (a : MultiAllocator) (size n : ℕ)
    → ((malloc a size n).0 ≡ (Local.malloc (log_of a n) size).0)
      × ((malloc a size n).1 ≡ (Local.malloc (log_of a n) size).1)
      × ((i : ℕ)
          → log_of (malloc a size n).2 i
            ≡ (if i == n then (Local.malloc (log_of a n) size).2 else log_of a i))
unfolding malloc Local.malloc
malloc-log_of a size n = elim (Bool-cases (Local.malloc (log_of a n) size).1) [
  | inl e ↦ (ground (arith, e), ground (arith, e), λ i. ground (arith, e))
  | inr e ↦ (
    ground (arith, e),
    ground (arith, e),
    λ i. elim (Bool-cases (i == n)) [ inl q ↦ ground (arith, e) | inr q ↦ ground (arith, e) ],
  )
]

set_chunck-log_of :
    (a : MultiAllocator) (addr : GlobalAddress) (n i : ℕ)
    → log_of (set_chunck a addr n) i
      ≡ (if i == n then Local.set_chunck (log_of a n) addr else log_of a i)
unfolding set_chunck Local.set_chunck
set_chunck-log_of a addr n i = elim (Bool-cases (i == n)) [
  | inl e ↦ ground (arith, e)
  | inr e ↦ rw e
]

-- An allocation from a memory node is the one of a `LocalAllocator` on that node's log, and leaves the
-- logs of the other nodes alone.
pub alloc-log_of :
    (machine_nr : ℕ) (a : MultiAllocator) (size node_id : ℕ) (chunk : GlobalAddress)
    → ((alloc machine_nr a size node_id chunk).0
        ≡ (Local.alloc (log_of a (node_id % machine_nr)) size chunk).0)
      × ((i : ℕ)
          → log_of (alloc machine_nr a size node_id chunk).1 i ≡ (
              if i == node_id % machine_nr
              then (Local.alloc (log_of a (node_id % machine_nr)) size chunk).1
              else log_of a i))
unfolding alloc Local.alloc
alloc-log_of machine_nr a size node_id chunk =
    let n = node_id % machine_nr in
    let m = malloc-log_of a size n in
    let s = malloc-log_of (set_chunck (malloc a size n).2 chunk n) size n in
    elim (Bool-cases (Local.malloc (log_of a n) size).1) [
      | inl e ↦
          let taken : log_of (malloc a size n).2 n ≡ (Local.malloc (log_of a n) size).2 =
            ground (arith, m.2 n) in
          let ready : log_of (set_chunck (malloc a size n).2 chunk n) n
              ≡ Local.set_chunck (Local.malloc (log_of a n) size).2 chunk =
            ground (arith, set_chunck-log_of (malloc a size n).2 chunk n n, taken) in
          (
            ground (arith, e, m, s, ready),
            λ i. elim (Bool-cases (i == n)) [
              | inl q ↦ ground (arith, e, q, m, s.2 i, ready)
              | inr q ↦
                  ground
                    (arith, e, q, m.2 i, s.2 i, set_chunck-log_of (malloc a size n).2 chunk n i)
            ],
          )
      | inr e ↦ (ground (arith, e, m), λ i. ground (arith, e, m, m.2 i))
    ]
