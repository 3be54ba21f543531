-- ===== src/CoolingTable/Bucket.antt =====
-- `bucket` of dex/include/tree/hash_table.h. `remote_address` reads the remote address of a page in
-- memory.
use dex_partial.Base.{
  ℕ, zero, suc, ◌+◌, ◌-◌, ◌≡◌, ◌<◌, ◌≤◌, ◌⊎◌, inl, inr, refl, ap, subst, ap₂, ◌∙◌, arith, Bool,
  true, ◌&&◌, ltb, leb, ◌==◌, if◌then◌else◌, Option, none, some, List, [], ◌∷◌, ◌++◌, Array, write,
  Bool-cases,
}
use dex_partial.CoolingTable.{num_entries, tag_of, address_of}

pub record Bucket : Type 0 where
  pub count : ℕ
  pub frames : Array ℕ

-- The first index from `i` on, with `n` frames left, whose frame passes the test; `none` for -1.
unfoldable pub match_loop : (ℕ → Bool) → Array ℕ → ℕ → ℕ → Option ℕ
match_loop test frames i zero = none
match_loop test frames i (suc n) =
    let rest = match_loop test frames (i + 1) n in if test (frames i) then some i else rest

abbrev pub matches : (ℕ → ℕ) → ℕ → ℕ → ℕ → Bool
matches remote_address key fp page = tag_of page == fp && remote_address (address_of page) == key

unfoldable pub match : (ℕ → ℕ) → Bucket → ℕ → ℕ → Option ℕ
unfolding match_loop
match remote_address b key fp = match_loop (matches remote_address key fp) b.frames 0 b.count

unfoldable pub match_value : Bucket → ℕ → ℕ → Option ℕ
unfolding match_loop
match_value b fp value =
    match_loop (λ page. tag_of page == fp && address_of page == value) b.frames 0 b.count

-- The loops of `remove` and `insert` that shift the frames by one, from index `i` on.
unfoldable pub shift_down : ℕ → ℕ → Array ℕ → Array ℕ
shift_down i zero frames = frames
shift_down i (suc n) frames = shift_down (i + 1) n (write frames i (frames (i + 1)))

unfoldable pub remove : Bucket → ℕ → Bucket
unfolding shift_down
remove b idx = record {
  count = b.count - 1;
  frames = shift_down idx (b.count - 1 - idx) (write b.frames idx 0);
}

-- The address of the evicted page and the bucket; `none` for -1. The assertion that the page is clean is left out: a page
-- is written when it goes into the table, and pages of the table are not changed.
unfoldable pub evict_last : Bucket → Option (ℕ × Bucket)
evict_last b =
    if b.count == 0
    then none
    else some (address_of (b.frames (b.count - 1)), record b { count = b.count - 1 })

unfoldable pub is_full : Bucket → Bool
is_full b = b.count == num_entries

unfoldable pub shift_up : ℕ → Array ℕ → Array ℕ
shift_up zero frames = frames
shift_up (suc i) frames = shift_up i (write frames (i + 1) (frames i))

-- The bucket, and the address of the page that it evicts to make room.
unfoldable pub insert : Bucket → ℕ → Bucket × Option ℕ
unfolding evict_last shift_up
insert b payload = put (if b.count == num_entries then evict_last b else none)
  where
    push : Bucket → Bucket
    push c = record { count = c.count + 1; frames = write (shift_up c.count c.frames) 0 payload }

    put : Option (ℕ × Bucket) → Bucket × Option ℕ
    put none = (push b, none)
    put (some (page, c)) = (push c, some page)

pub frames-shift_up :
    (n : ℕ) (frames : Array ℕ) (i : ℕ)
    → shift_up n frames i
      ≡ (if i == 0 then frames 0 else if leb i n then frames (i - 1) else frames i)
unfolding shift_up
frames-shift_up zero frames i = ground arith
frames-shift_up (suc n) frames i =
    ground (arith, frames-shift_up n (write frames (n + 1) (frames n)) i)

pub frames-shift_down :
    (i n : ℕ) (frames : Array ℕ) (j : ℕ)
    → shift_down i n frames j ≡ (if leb i j && ltb j (i + n) then frames (j + 1) else frames j)
unfolding shift_down
frames-shift_down i zero frames j = ground arith
frames-shift_down i (suc n) frames j =
    ground (arith, frames-shift_down (i + 1) n (write frames i (frames (i + 1))) j)

-- The pages of a bucket, the newest first, as a list of frames.
unfoldable pub from : Array ℕ → ℕ → ℕ → List ℕ
from frames i zero = []
from frames i (suc n) = frames i ∷ from frames (i + 1) n

abbrev pub queue : Bucket → List ℕ
queue b = from b.frames 0 b.count

from-same :
    (f g : Array ℕ) (i k n : ℕ)
    → ((j : ℕ) → j < n → f (i + j) ≡ g (k + j))
    → from f i n ≡ from g k n
unfolding from
from-same f g i k zero h = refl
from-same f g i k (suc n) h =
    let rest = from-same f g (i + 1) (k + 1) n (λ j p. ground (arith, h (j + 1))) in
    ground (arith, h 0, rest)

from-last : (f : Array ℕ) (i n : ℕ) → from f i (suc n) ≡ from f i n ++ (f (i + n) ∷ [])
unfolding from
from-last f i zero = ground arith
from-last f i (suc n) = ground (arith, from-last f (i + 1) n)

from-split : (f : Array ℕ) (i m n : ℕ) → from f i (m + n) ≡ from f i m ++ from f (i + m) n
unfolding from
from-split f i zero n = ground arith
from-split f i (suc m) n =
    let next : suc m + n ≡ suc (m + n) = omega arith in
    let place : i + 1 + m ≡ i + suc m = omega arith in
    rw (next) (ground (arith, from-split f (i + 1) m n, place))

split_at : (f : Array ℕ) (m n : ℕ) → from f 0 (m + n) ≡ from f 0 m ++ from f m n
split_at f m n =
    let place : 0 + m ≡ m = omega arith in
    from-split f 0 m n ∙ ap (λ i. from f 0 m ++ from f i n) place

-- The loop stops at the first frame that passes the test.
pub match_loop-some :
    (test : ℕ → Bool) (frames : Array ℕ) (i n r : ℕ)
    → match_loop test frames i n ≡ some r
    → (i ≤ r) × (r < i + n) × (test (frames r) ≡ true)
unfolding match_loop
match_loop-some test frames i zero r e = absurd (ground arith)
match_loop-some test frames i (suc n) r e = elim (Bool-cases (test (frames i))) [
  | inl h ↦
      let same : i ≡ r = ground (arith, e) in
      (omega (arith, same), omega (arith, same), subst (λ k. test (frames k) ≡ true) same h)
  | inr h ↦
      let found = match_loop-some test frames (i + 1) n r (ground (arith, e)) in
      (omega (arith, found), omega (arith, found), found.2)
]

-- In a bucket of at most six frames, `insert` puts the frame in front. A full bucket gives up its last page, and reports its address; a
-- bucket with room keeps them all.
pub queue-insert :
    (b : Bucket) (payload : ℕ)
    → b.count ≤ num_entries
    → ((b.count < num_entries)
        × (insert b payload ≡ ((insert b payload).0, none))
        × (queue (insert b payload).0 ≡ payload ∷ queue b))
      ⊎ ((b.count ≡ num_entries)
          × (kept : List ℕ) × (last : ℕ) × (queue b ≡ kept ++ (last ∷ []))
          × (queue (insert b payload).0 ≡ payload ∷ kept)
          × ((insert b payload).1 ≡ some (address_of last)))
unfolding insert evict_last from
queue-insert b payload h = elim (Bool-cases (b.count == num_entries)) [
  | inl e ↦
      let c : b.count ≡ 6 = ground (arith, e) in
      let moved =
        from-same (write (shift_up 5 b.frames) 0 payload) b.frames 1 0 5
          (λ j p. ground (arith, frames-shift_up 5 b.frames (1 + j))) in
      inr (
        c,
        from b.frames 0 5,
        b.frames 5,
        rw c (from-last b.frames 0 5),
        rw c (ground (arith, moved)),
        rw c,
      )
  | inr e ↦ inl (
    ground arith,
    rw e,
    rw e (
        ground (
          arith,
          from-same (write (shift_up b.count b.frames) 0 payload) b.frames 1 0 b.count
              (λ j p. ground (arith, frames-shift_up b.count b.frames (1 + j))),
        )),
  )
]

-- `remove` of an index below the count takes the one frame out and keeps the order of the others.
pub queue-remove :
    (b : Bucket) (idx : ℕ)
    → idx < b.count
    → (before : List ℕ) × (after : List ℕ) × (queue b ≡ before ++ (b.frames idx ∷ after))
      × (queue (remove b idx) ≡ before ++ after)
unfolding remove from
queue-remove b idx h = (
  from b.frames 0 idx,
  from b.frames (idx + 1) (b.count - 1 - idx),
  let size : b.count ≡ idx + suc (b.count - 1 - idx) = omega arith in
      ap (from b.frames 0) size ∙ split_at b.frames idx (suc (b.count - 1 - idx)),
  let rest = b.count - 1 - idx in
      let shifted = shift_down idx rest (write b.frames idx 0) in
      let size : b.count - 1 ≡ idx + rest = omega arith in
      let low =
        from-same shifted b.frames 0 0 idx
          (λ j p. ground (arith, frames-shift_down idx rest (write b.frames idx 0) j)) in
      let high =
        from-same shifted b.frames idx (idx + 1) rest
          (λ j p. ground (arith, frames-shift_down idx rest (write b.frames idx 0) (idx + j))) in
      ap (from shifted 0) size ∙ split_at shifted idx rest ∙ ap₂ (λ x y. x ++ y) low high,
)
