-- ===== src/Allocators.antt =====
-- The allocators of memory: chunks at a memory node (`GlobalAllocator`), pages of a chunk at a compute
-- node (`LocalAllocator`, `MultiAllocator`, `SmartLocalAllocator`); dex/include/.
pub mod Address
pub mod Chunks
pub mod Local
pub mod Multi
pub mod Smart
use dex_partial.Base.{ℕ, ◌*◌, ◌^◌}

-- `define::kChunkSize` of dex/include/Common.h, 32 MB.
abbrev pub k_chunk_size : ℕ
k_chunk_size = 32 * 2 ^ 20
