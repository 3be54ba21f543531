-- ===== src/CoolingTable/Table.antt =====
-- `hash_table` of dex/include/tree/hash_table.h over the page table. A page in memory is a `NodeBase`
-- at its address, of which the table reads the remote address and the dirty mark. The hash
-- (`std::_Hash_bytes`) is a parameter, and the random bucket is an argument.
use dex_partial.Base.{
  ℕ, zero, suc, ◌+◌, ◌*◌, ◌-◌, ◌/◌, ◌%◌, ◌^◌, ◌≡◌, ◌≢◌, ◌⊎◌, inl, inr, arith, Bool, true, false,
  ◌&&◌, ◌==◌, if◌then◌else◌, Option, none, some, List, ◌∷◌, ◌++◌, Array, write, Bool-cases,
  Option-cases, min, bit_or,
}
use dex_partial.PageTable.Table.{PageTable, remove_with_lock, lookup, IsWell, lookup-changes}
use dex_partial.CoolingTable.{num_entries, address_of}
use dex_partial.CoolingTable.Bucket
use dex_partial.CoolingTable.Bucket.{
  Bucket, match, matches, match_value, evict_last, queue, queue-remove, match_loop-some,
}

pub record HashTable : Type 0 where
  pub bucket_num : ℕ
  pub table : Array Bucket
  pub page_table : PageTable

-- The pages in memory, and those written to their remote address, the last one first.
pub record Pages : Type 0 where
  pub remote_address : Array ℕ
  pub dirty : Array Bool
  pub pos_state : Array ℕ
  pub written : List ℕ

abbrev empty_bucket : Bucket
empty_bucket = record { count = 0; frames = λ _. 0 }

unfoldable pub new : ℕ → PageTable → HashTable
new entry_num pages = record {
  bucket_num =
      if entry_num % num_entries == 0 then entry_num / num_entries else entry_num / num_entries + 1;
  table = λ _. empty_bucket;
  page_table = pages;
}

unfoldable pub reset : HashTable → HashTable
reset t = record t { table = λ _. empty_bucket }

write_here : (table : Array Bucket) (i : ℕ) (b : Bucket) → write table i b i ≡ b
write_here table i b = ground arith

module _ (hash : ℕ → ℕ) where
  abbrev bucket_idx : HashTable → ℕ → ℕ
  bucket_idx t key = hash key % t.bucket_num

  -- `(hash_val >> 49) | (1ULL << 15)`
  abbrev fp_of : ℕ → ℕ
  fp_of key = bit_or (hash key / 2 ^ 49) (2 ^ 15)

  abbrev payload_of : ℕ → ℕ → ℕ
  payload_of key value = bit_or (fp_of key * 2 ^ 48 % 2 ^ 64) (value % 2 ^ 48)

  -- The evicted page leaves the page table.
  forget : Pages → HashTable → Option ℕ → HashTable
  forget pages t none = t
  forget pages t (some page) = record t {
    page_table = (remove_with_lock hash t.page_table (pages.remote_address page) page).0;
  }

  -- `insert` looks at the evicted page only if it is not null.
  forget_evicted : Pages → HashTable → Option ℕ → HashTable
  unfolding forget
  forget_evicted pages t none = t
  forget_evicted pages t (some page) = if page == 0 then t else forget pages t (some page)

  -- The pages, the table and the evicted page.
  unfoldable pub insert : Pages → HashTable → ℕ → ℕ → Pages × HashTable × Option ℕ
  unfolding Bucket.insert remove_with_lock forget_evicted
  insert pages t key value =
      let i = bucket_idx t key in
      let r = Bucket.insert (t.table i) (payload_of key value) in
      (
        record pages {
          dirty = write pages.dirty value false;
          pos_state = write pages.pos_state value 1;
          written = if pages.dirty value then value ∷ pages.written else pages.written;
        },
        forget_evicted pages (record t { table = write t.table i r.0 }) r.1,
        r.1,
      )

  -- The flag says whether the lock of the bucket was free. The page is `none` where the call fails.
  unfoldable pub try_promote : Pages → HashTable → Bool → ℕ → HashTable × Option ℕ
  unfolding match Bucket.remove
  try_promote pages t lock_free key =
      let i = bucket_idx t key in
      if lock_free
      then promote t i (match pages.remote_address (t.table i) key (fp_of key))
      else (t, none)
    where
      promote : HashTable → ℕ → Option ℕ → HashTable × Option ℕ
      promote t i none = (t, none)
      promote t i (some slot_idx) = (
        record t { table = write t.table i (Bucket.remove (t.table i) slot_idx) },
        some (address_of ((t.table i).frames slot_idx)),
      )

  unfoldable pub try_promote_using_value : HashTable → Bool → ℕ → ℕ → HashTable × Bool
  unfolding match_value Bucket.remove
  try_promote_using_value t lock_free key page =
      let i = bucket_idx t key in
      if lock_free then promote t i (match_value (t.table i) (fp_of key) page) else (t, false)
    where
      promote : HashTable → ℕ → Option ℕ → HashTable × Bool
      promote t i none = (t, false)
      promote t i (some slot_idx) =
          (record t { table = write t.table i (Bucket.remove (t.table i) slot_idx) }, true)

  unfoldable pub check_existence : Pages → HashTable → ℕ → ℕ → Bool
  unfolding match
  check_existence pages t key page =
      let i = bucket_idx t key in
      at_slot (t.table i) (match pages.remote_address (t.table i) key (fp_of key))
    where
      at_slot : Bucket → Option ℕ → Bool
      at_slot b none = false
      at_slot b (some slot_idx) = page == address_of (b.frames slot_idx)

  -- From bucket `i` on, with `n` buckets left to probe; `lock_free` says which of their locks are free.
  unfoldable pub evict_loop : Pages → Array Bool → HashTable → ℕ → ℕ → HashTable × Option ℕ
  unfolding evict_last remove_with_lock forget
  evict_loop pages lock_free t i zero = (t, none)
  evict_loop pages lock_free t i (suc n) =
      let rest = evict_loop pages lock_free t (i + 1) n in
      if lock_free i then at_bucket t i (evict_last (t.table i)) rest else rest
    where
      at_bucket : HashTable → ℕ → Option (ℕ × Bucket) → HashTable × Option ℕ → HashTable × Option ℕ
      at_bucket t i none rest = rest
      at_bucket t i (some (page, b)) rest =
          (forget pages (record t { table = write t.table i b }) (some page), some page)

  unfoldable pub random_evict_to_remote :
      Pages → Array Bool → HashTable → ℕ → ℕ → HashTable × Option ℕ
  unfolding evict_loop
  random_evict_to_remote pages lock_free t idx probing_length =
      evict_loop pages lock_free t idx (min t.bucket_num (idx + probing_length) - idx)

  forget-lookup :
      (pages : Pages) (t : HashTable)
      → IsWell hash t.page_table
      → (page : ℕ) → page ≢ 0
      → (q : ℕ)
      → lookup hash (forget pages t (some page)).page_table q ≡ (
          if q == pages.remote_address page
            && lookup hash t.page_table (pages.remote_address page) == page
          then 0
          else lookup hash t.page_table q)
  unfolding forget
  forget-lookup pages t well page h q =
      (lookup-changes hash t.page_table well (pages.remote_address page) page h q).2

  -- Over a well formed page table: where an insert into the cooling table evicts a page (not null), that
  -- page leaves the page table if it is still
  -- the one that the page table has for its remote address; every other id keeps its page. Where it
  -- evicts none, the page table stays.
  pub insert-lookup :
      (pages : Pages) (t : HashTable)
      → IsWell hash t.page_table
      → (key value q : ℕ)
      → (((insert pages t key value).2 ≡ none)
          × (lookup hash (insert pages t key value).1.page_table q ≡ lookup hash t.page_table q))
        ⊎ ((page : ℕ) × ((insert pages t key value).2 ≡ some page)
            × (page ≢ 0
                → lookup hash (insert pages t key value).1.page_table q ≡ (
                    if q == pages.remote_address page
                      && lookup hash t.page_table (pages.remote_address page) == page
                    then 0
                    else lookup hash t.page_table q)))
  unfolding insert forget_evicted
  insert-lookup pages t well key value q =
      let i = bucket_idx t key in
      let r = Bucket.insert (t.table i) (payload_of key value) in
      elim (Option-cases r.1) [
        | inl e ↦ inl (e, rw e)
        | inr (page, e) ↦ inr (
          page,
          e,
          λ h.
              let real : (page == 0) ≡ false = ground (arith, h) in
              rw (e, real)
                (forget-lookup pages (record t { table = write t.table i r.0 }) well page h q),
        )
      ]

  -- A promotion that succeeds hands out a page of the key, which was in the key's bucket and has left it;
  -- the order of the others is kept.
  pub try_promote-some :
      (pages : Pages) (t : HashTable) (lock_free : Bool) (key page : ℕ)
      → (try_promote pages t lock_free key).1 ≡ some page
      → (pages.remote_address page ≡ key)
        × (before : List ℕ) × (frame : ℕ) × (after : List ℕ) × (queue
              (t.table (hash key % t.bucket_num))
            ≡ before ++ (frame ∷ after))
        × (page ≡ address_of frame)
        × (queue ((try_promote pages t lock_free key).0.table (hash key % t.bucket_num))
            ≡ before ++ after)
  unfolding try_promote match
  try_promote-some pages t lock_free key page e = elim (Bool-cases lock_free) [
    | inr f ↦ absurd (ground (arith, e, f))
    | inl f ↦
        let b = t.table (hash key % t.bucket_num) in
        elim (Option-cases (match pages.remote_address b key (fp_of key))) [
          | inl p ↦ absurd (ground (arith, e, f, p))
          | inr (r, p) ↦
              let m =
                match_loop-some (matches pages.remote_address key (fp_of key)) b.frames 0 b.count r
                  p in
              let (before, after, whole, less) = queue-remove b r (omega (arith, m)) in
              let got : address_of (b.frames r) ≡ page = ground (arith, e, f, p) in
              (
                ground (arith, m, got),
                before,
                b.frames r,
                after,
                whole,
                ground (arith, got),
                rw (f, p, write_here t.table (hash key % t.bucket_num) (Bucket.remove b r)) less,
              )
        ]
  ]
