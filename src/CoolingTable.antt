-- ===== src/CoolingTable.antt =====
-- `hash_table` (dex/include/tree/hash_table.h), the cooling stage of the page cache: each bucket is a
-- queue of at most six pages, the newest first. A frame is a word with a 16-bit fingerprint over the
-- 48-bit address of a page in memory.
pub mod Bucket
pub mod Table
use dex_partial.Base.{ℕ, ◌*◌, ◌/◌, ◌%◌, ◌^◌}

abbrev pub num_entries : ℕ
num_entries = 6

-- `page_ >> 48` and `page_ & address_hide`
abbrev pub tag_of : ℕ → ℕ
tag_of page = page / 2 ^ 48

abbrev pub address_of : ℕ → ℕ
address_of page = page % 2 ^ 48
