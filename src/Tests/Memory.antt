-- ===== src/Tests/Memory.antt =====
-- The locks of dex/util/lock.h and the allocators at a few values.
use dex_partial.Base.{
  ℕ, ◌+◌, ◌*◌, ◌-◌, ◌^◌, ◌≡◌, ◌≢◌, ◌≤◌, ◌<◌, ◌⊎◌, refl, arith, true, false, ◌==◌, if◌then◌else◌,
  List, [], ◌∷◌, ◌++◌,
}
use dex_partial.Base.Int.{pos, negsuc}
use dex_partial.RdmaBuffer.{
  RdmaBuffer, set_dex_buffer, get_page_buffer, get_sibling_buffer, get_cas_buffer, get_entry_buffer,
  buffers-apart, k_per_coro_rdma_buf, k_page_size,
}
use dex_partial.VersionLock.{
  get_lock, Met, get_lock-some, try_get_lock, try_get_lock_cases, release_lock, test_lock_set,
  release_lock-taken,
}
use dex_partial.Allocators.{k_chunk_size}
use dex_partial.Allocators.Address.{GlobalAddress, gadd, gadd-gadd}
use dex_partial.Allocators.Chunks
use dex_partial.Allocators.Chunks.{Request, alloc, free, serve, IsApart, new-IsValid, serve-IsApart}
use dex_partial.Allocators.Local
use dex_partial.Allocators.Local.{LocalAllocator, alloc_cases, alloc-IsValid}
use dex_partial.Allocators.Multi
use dex_partial.Allocators.Multi.{log_of, alloc-log_of}
use dex_partial.Allocators.Smart
use dex_partial.Allocators.Smart.{SmartLocalAllocator, Cut, Reused, NoneFits, malloc_cases}

-- The first attempt meets the lock, the second loses the exchange.
abbrev attempts : List (ℕ × ℕ)
attempts = (2 ^ 63 + 4, 5) ∷ (5, 6) ∷ (6, 6) ∷ []

get_lock-some_run : (v : ℕ) × Met v attempts × (v < 2 ^ 63) × (6 + 2 ^ 63 ≡ v + 2 ^ 63)
unfolding get_lock
get_lock-some_run =
    get_lock-some 63 attempts (6 + 2 ^ 63)
      (omega arith, omega arith, (omega arith, omega arith, (omega arith, omega arith, tt))) refl

try_get_lock_cases_run :
    ((5 < 2 ^ 31) × (◌≡◌ {A = ℕ} 5 5) × (try_get_lock 31 5 5 ≡ (5 + 2 ^ 31, true)))
    ⊎ (((2 ^ 31 ≤ 5) ⊎ (◌≢◌ {A = ℕ} 5 5)) × (try_get_lock 31 5 5 ≡ (5, false)))
try_get_lock_cases_run = try_get_lock_cases 31 5 5 (omega arith) (omega arith)

-- The last version of a `Lock32`.
release_lock-taken_example :
    (release_lock 31 (2 ^ 31 - 1 + 2 ^ 31) ≡ 2 ^ 31 - 1 + 1)
    × (test_lock_set 31 (release_lock 31 (2 ^ 31 - 1 + 2 ^ 31)) ≡ true)
release_lock-taken_example = release_lock-taken 31 (2 ^ 31 - 1) (omega arith)

abbrev base : GlobalAddress
base = record { node_id = 3; offset = 2 ^ 30 }

gadd_back :
    (gadd (gadd base (pos (64 + 1))) (negsuc 64) ≡ base)
    × (gadd (gadd base (negsuc 64)) (pos (64 + 1)) ≡ base)
gadd_back =
    gadd-gadd base (record { node_fits = omega arith; offset_fits = omega arith }) 64 (omega arith)

abbrev memory_node : Chunks.GlobalAllocator
memory_node = Chunks.new base (2 ^ 27)

abbrev requests : List Request
requests =
    alloc
    ∷ free (record { node_id = 3; offset = 2 ^ 30 + k_chunk_size })
    ∷ alloc
    ∷ alloc
    ∷ alloc
    ∷ []

served :
    serve requests memory_node
    ≡ record { node_id = 3; offset = 2 ^ 30 + k_chunk_size }
      ∷ record { node_id = 3; offset = 2 ^ 30 + 2 * k_chunk_size }
      ∷ record { node_id = 3; offset = 2 ^ 30 + 3 * k_chunk_size }
      ∷ []
unfolding serve Chunks.new
served = refl

-- A free outside the memory ends the run.
stopped :
    serve (alloc ∷ free (record { node_id = 3; offset = 0 }) ∷ alloc ∷ []) memory_node
    ≡ record { node_id = 3; offset = 2 ^ 30 + k_chunk_size } ∷ []
unfolding serve Chunks.new
stopped = refl

serve-IsApart_example :
    IsApart (2 ^ 30 + k_chunk_size) (2 ^ 30 + 2 ^ 27) (serve requests memory_node)
unfolding Chunks.new
serve-IsApart_example = serve-IsApart requests memory_node (new-IsValid base (2 ^ 27) (omega arith))

-- A thread with 3000 bytes left, of which a page of 2048 still fits.
abbrev late : LocalAllocator
late = record {
  head = base;
  cur = record { node_id = 3; offset = 2 ^ 30 + k_chunk_size - 3000 };
  log_heads = base ∷ [];
  head_offset = 0;
}

late-IsValid : Local.IsValid late
late-IsValid = record {
  within = omega arith;
  below = omega arith;
  same_node = refl;
  fits = omega arith;
  no_offset = refl;
}

abbrev fresh_chunk : GlobalAddress
fresh_chunk = record { node_id = 1; offset = 2 ^ 26 }

alloc_cases_run :
    ((2 ^ 30 + k_chunk_size - 3000 + 2048 + 8 ≤ 2 ^ 30 + k_chunk_size)
      × (Local.alloc late 2048 fresh_chunk ≡ (
        late.cur,
        record late { cur = record (late.cur) { offset = late.cur.offset + 2048 } },
      )))
    ⊎ (((late.log_heads ≡ []) ⊎ (2 ^ 30 + k_chunk_size < 2 ^ 30 + k_chunk_size - 3000 + 2048 + 8))
        × (Local.alloc late 2048 fresh_chunk ≡ (
          fresh_chunk,
          record {
            head = fresh_chunk;
            cur = record fresh_chunk { offset = fresh_chunk.offset + 2048 };
            log_heads = late.log_heads ++ (fresh_chunk ∷ []);
            head_offset = 0;
          },
        )))
alloc_cases_run = alloc_cases late late-IsValid 2048 fresh_chunk (omega arith) (omega arith)

alloc-IsValid_run : Local.IsValid (Local.alloc late 4096 fresh_chunk).1
alloc-IsValid_run = alloc-IsValid late late-IsValid 4096 fresh_chunk (omega arith) (omega arith)

alloc-log_of_example :
    ((Multi.alloc 4 Multi.new 1024 6 fresh_chunk).0
      ≡ (Local.alloc (log_of Multi.new 2) 1024 fresh_chunk).0)
    × ((i : ℕ)
        → log_of (Multi.alloc 4 Multi.new 1024 6 fresh_chunk).1 i ≡ (
            if i == 2
            then (Local.alloc (log_of Multi.new 2) 1024 fresh_chunk).1
            else log_of Multi.new i))
alloc-log_of_example = alloc-log_of 4 Multi.new 1024 6 fresh_chunk

abbrev nearly_full : SmartLocalAllocator
nearly_full = record {
  head = base;
  cur = record { node_id = 3; offset = 2 ^ 30 + k_chunk_size - 300 };
  free_list = (fresh_chunk, 64) ∷ (base, 512) ∷ [];
}

malloc_cases_run :
    (Cut nearly_full 400 (Smart.malloc nearly_full 400 true))
    ⊎ (Reused nearly_full 400 (Smart.malloc nearly_full 400 true))
    ⊎ (((Smart.malloc nearly_full 400 true).1 ≡ true) × NoneFits 400 nearly_full.free_list)
malloc_cases_run =
    malloc_cases nearly_full
      (record {
        within = omega arith;
        below = omega arith;
        fits = omega arith;
        even = refl;
        node_fits = omega arith;
      })
      400 (omega arith)

-- Cursors at the ends of their areas.
abbrev worn : RdmaBuffer
worn = record {
  buffer = 0;
  page_buffer = 0;
  sibling_buffer = 0;
  cas_buffer = 0;
  unlock_buffer = 0;
  zero_64bit = 0;
  entry_buffer = 0;
  page_buffer_cur = 6;
  sibling_buffer_cur = 7;
  cas_buffer_cur = 254;
  entry_buffer_cur = 30;
}

abbrev laid_out : RdmaBuffer
laid_out = set_dex_buffer worn 4096

buffers-apart_run :
    (4096 ≤ (get_page_buffer laid_out).0)
    × ((get_page_buffer laid_out).0 + k_page_size ≤ (get_sibling_buffer laid_out).0)
    × ((get_sibling_buffer laid_out).0 + k_page_size ≤ (get_cas_buffer laid_out).0)
    × ((get_cas_buffer laid_out).0 + 8 ≤ laid_out.unlock_buffer)
    × (laid_out.zero_64bit + 8 ≤ (get_entry_buffer laid_out).0)
    × ((get_entry_buffer laid_out).0 + 8 ≤ 4096 + k_per_coro_rdma_buf)
buffers-apart_run = buffers-apart worn 4096
