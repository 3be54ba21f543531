-- ===== src/Tests/Tables.antt =====
-- A page table and a cooling table with a few pages (dex/include/tree).
use dex_partial.Base.{
  ℕ, ◌+◌, ◌*◌, ◌/◌, ◌^◌, ◌≡◌, ◌≢◌, ◌<◌, ◌⊎◌, refl, arith, true, false, ◌&&◌, ◌==◌, if◌then◌else◌,
  none, some, List, [], ◌∷◌, ◌++◌,
}
use dex_partial.VersionLock.{test_lock_set}
use dex_partial.PageTable.{PageBucket, zero_bucket, get}
use dex_partial.PageTable.Frames.{number}
use dex_partial.PageTable.Chains.{total, IsCounted}
use dex_partial.PageTable.Contract.{IsValid}
use dex_partial.PageTable.Table.{
  PageTable, lookup, insert_with_lock, upsert_with_lock, remove_with_lock, update_with_lock,
  rmw_with_lock, get_with_lock, IsWell, lookup-changes, changes-IsWell, Observed,
  get_with_lock-some,
}
use dex_partial.CoolingTable.{address_of}
use dex_partial.CoolingTable.Bucket
use dex_partial.CoolingTable.Bucket.{Bucket, queue, queue-insert, queue-remove}
use dex_partial.CoolingTable.Table as Cooling
use dex_partial.CoolingTable.Table.{HashTable, Pages, try_promote, insert-lookup, try_promote-some}

-- A hash that spreads ids over two buckets and gives each of the first ids its fingerprint.
abbrev spread : ℕ → ℕ
spread key = key + key * 2 ^ 49

zero_valid : IsValid (zero_bucket ∷ [])
unfolding total number IsCounted
zero_valid = record { once = λ k. ground arith; counted = (refl, refl, tt) }

abbrev empty_table : PageTable
empty_table = record { bucket_num = 2; table = λ _. zero_bucket ∷ [] }

empty-IsWell : IsWell spread empty_table
empty-IsWell i = zero_valid

-- Four pages with even ids, in one chain of two buckets.
abbrev four : PageTable
four =
    let a = (upsert_with_lock spread empty_table 2 4096).0 in
    let b = (upsert_with_lock spread a 4 8192).0 in
    let c = (upsert_with_lock spread b 6 12288).0 in (upsert_with_lock spread c 8 16384).0

four-IsWell : IsWell spread four
four-IsWell =
    let a = (changes-IsWell spread empty_table empty-IsWell 2 4096 (omega arith)).1 in
    let b = (changes-IsWell spread _ a 4 8192 (omega arith)).1 in
    let c = (changes-IsWell spread _ b 6 12288 (omega arith)).1 in
    (changes-IsWell spread _ c 8 16384 (omega arith)).1

program : Unit {0}
unfolding lookup insert_with_lock upsert_with_lock remove_with_lock update_with_lock rmw_with_lock
    get_with_lock test_lock_set
program = tt

in_overflow : lookup spread four 8 ≡ 16384
unfolding program
in_overflow = refl

-- Its bucket leaves the chain.
removed : lookup spread (remove_with_lock spread four 8 16384).0 8 ≡ 0
unfolding program
removed = refl

lookup-changes_example :
    (lookup spread (insert_with_lock spread four 8 777).0 8 ≡ 16384)
    × (lookup spread (upsert_with_lock spread four 8 777).0 8 ≡ 777)
    × (lookup spread (remove_with_lock spread four 8 777).0 8 ≡ 16384)
    × ((old : ℕ) → lookup spread (update_with_lock spread four 8 777 old).0 8 ≡ 777)
    × ((w : ℕ) → w ≢ 0 → lookup spread (rmw_with_lock spread four 8 w 777).0 8 ≡ 16384)
unfolding program
lookup-changes_example = lookup-changes spread four four-IsWell 8 777 (omega arith) 8

changes-IsWell_example :
    IsWell spread (insert_with_lock spread four 8 777).0
    × IsWell spread (upsert_with_lock spread four 8 777).0
    × IsWell spread (remove_with_lock spread four 8 777).0
    × ((old : ℕ) → IsWell spread (update_with_lock spread four 8 777 old).0)
    × ((w : ℕ) → w ≢ 0 → IsWell spread (rmw_with_lock spread four 8 w 777).0)
changes-IsWell_example = changes-IsWell spread four four-IsWell 8 777 (omega arith)

-- The first attempt meets a writer, the second a version that changed.
abbrev attempts : List (ℕ × List PageBucket × ℕ)
attempts = (2 ^ 31 + 4, [], 5) ∷ (5, [], 6) ∷ (6, four.table 0, 6) ∷ []

get_with_lock-some_run :
    (word : ℕ) × (chain : List PageBucket) × Observed word chain attempts
    × (test_lock_set 31 word ≡ false)
    × (12288 ≡ get chain 6)
unfolding program
get_with_lock-some_run = get_with_lock-some attempts 6 12288 refl

-- A full bucket.
abbrev six : Bucket
six = record { count = 6; frames = λ i. i + 100 }

queue-insert_example :
    ((6 < 6)
      × (Bucket.insert six 7 ≡ ((Bucket.insert six 7).0, none))
      × (queue (Bucket.insert six 7).0 ≡ 7 ∷ queue six))
    ⊎ ((◌≡◌ {A = ℕ} 6 6)
        × (kept : List ℕ) × (last : ℕ) × (queue six ≡ kept ++ (last ∷ []))
        × (queue (Bucket.insert six 7).0 ≡ 7 ∷ kept)
        × ((Bucket.insert six 7).1 ≡ some (address_of last)))
queue-insert_example = queue-insert six 7 (omega arith)

queue-remove_run :
    (before : List ℕ) × (after : List ℕ) × (queue six ≡ before ++ (102 ∷ after))
    × (queue (Bucket.remove six 2) ≡ before ++ after)
queue-remove_run = queue-remove six 2 (omega arith)

-- Page 4096 has the remote address 2, page 8192 the address 4, and so on; all buckets hold six frames.
abbrev pages : Pages
pages = record {
  remote_address = λ page. page / 2048;
  dirty = λ _. true;
  pos_state = λ _. 0;
  written = [];
}

abbrev cooling : HashTable
cooling = record {
  bucket_num = 2;
  table = λ _. record { count = 6; frames = λ i. (2 ^ 15 + i * 2) * 2 ^ 48 + i * 4096 };
  page_table = four;
}

insert-lookup_example :
    (((Cooling.insert spread pages cooling 8 16384).2 ≡ none)
      × (lookup spread (Cooling.insert spread pages cooling 8 16384).1.page_table 6
          ≡ lookup spread four 6))
    ⊎ ((page : ℕ) × ((Cooling.insert spread pages cooling 8 16384).2 ≡ some page)
        × (page ≢ 0
            → lookup spread (Cooling.insert spread pages cooling 8 16384).1.page_table 6 ≡ (
                if 6 == page / 2048 && lookup spread four (page / 2048) == page
                then 0
                else lookup spread four 6)))
insert-lookup_example = insert-lookup spread pages cooling four-IsWell 8 16384 6

try_promote-some_run :
    (8192 / 2048 ≡ 4)
    × (before : List ℕ) × (frame : ℕ) × (after : List ℕ) × (queue (cooling.table 0)
        ≡ before ++ (frame ∷ after))
    × (8192 ≡ address_of frame)
    × (queue ((try_promote spread pages cooling true 4).0.table 0) ≡ before ++ after)
unfolding try_promote
try_promote-some_run = try_promote-some spread pages cooling true 4 8192 refl
