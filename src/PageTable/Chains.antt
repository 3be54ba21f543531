-- ===== src/PageTable/Chains.antt =====
-- What the loops over a chain read and write.
use dex_partial.Base.{
  ℕ, ◌+◌, ◌≤◌, ◌≡◌, ◌≢◌, refl, arith, Bool, true, false, ◌&&◌, ◌==◌, if◌then◌else◌, List, [], ◌∷◌,
  Bool-cases, not, inl, inr, sub32,
}
use dex_partial.PageTable.{
  PageFrame, PageBucket, holds, holds_page, is_free, set_page, fill, any_frame, set_first, any,
  page_of, set, add_page, erase,
}
use dex_partial.PageTable.Frames.{
  number, loops, any-number, first_page-any, first_page-set_page, number-set_page, number-fill,
  first_page-fill, is_used, number-holds, used-fill, used-set_used, number-clear, used-clear,
  first_page-clear, any-holds_page, set-holds_page,
}

-- The number of frames of a chain that pass a test.
unfoldable pub total : (PageFrame → Bool) → List PageBucket → ℕ
unfolding number
total test [] = 0
total test (b ∷ bs) = number test b.frames + total test bs

pub passes : Unit {0}
unfolding any page_of set add_page erase total
passes = tt

pub any-total :
    (test : PageFrame → Bool) (bs : List PageBucket) → any test bs ≡ not (total test bs == 0)
unfolding passes
any-total test [] = refl
any-total test (b ∷ bs) = ground (arith, any-number test b.frames, any-total test bs)

pub any-page_of :
    (k : ℕ) (bs : List PageBucket) → any (holds k) bs ≡ not (page_of (holds k) bs == 0)
unfolding passes
any-page_of k [] = refl
any-page_of k (b ∷ bs) = ground (arith, first_page-any k b.frames, any-page_of k bs)

-- `set` under a key.
pub page_of-set :
    (k page q : ℕ) (bs : List PageBucket)
    → page ≢ 0
    → page_of (holds q) (set (holds k) (set_page page) bs)
      ≡ (if q == k && any (holds k) bs then page else page_of (holds q) bs)
unfolding passes
page_of-set k page q [] h = ground arith
page_of-set k page q (b ∷ bs) h = ground (
  arith,
  page_of-set k page q bs h,
  first_page-set_page k page q b.frames h,
  first_page-any q b.frames,
  first_page-any q (set_first (holds k) (set_page page) b.frames),
)

pub total-set :
    (k page q : ℕ) (bs : List PageBucket)
    → page ≢ 0
    → total (holds q) (set (holds k) (set_page page) bs) ≡ total (holds q) bs
unfolding passes
total-set k page q [] h = refl
total-set k page q (b ∷ bs) h =
    ground (arith, total-set k page q bs h, number-set_page k page q b.frames h)

-- `add_page`.
pub total-add_page :
    (k page q : ℕ) (bs : List PageBucket)
    → page ≢ 0
    → total (holds q) (add_page k page bs) ≡ (if q == k then 1 else 0) + total (holds q) bs
unfolding passes loops
total-add_page k page q [] h = ground arith
total-add_page k page q (b ∷ bs) h =
    ground (arith, total-add_page k page q bs h, number-fill k page q b.frames h)

pub page_of-add_page :
    (k page q : ℕ) (bs : List PageBucket)
    → page ≢ 0
    → any (holds k) bs ≡ false
    → page_of (holds q) (add_page k page bs) ≡ (if q == k then page else page_of (holds q) bs)
unfolding passes loops
page_of-add_page k page q [] h a = ground arith
page_of-add_page k page q (b ∷ bs) h a = elim (Bool-cases (any_frame is_free b.frames)) [
  | inl e ↦ rw e (
      ground (
        arith,
        first_page-fill k page q b.frames h,
        first_page-any q b.frames,
        first_page-any q (set_first is_free (fill k page) b.frames),
      ))
  | inr e ↦ rw e (ground (arith, page_of-add_page k page q bs h))
]

-- The count of a bucket is the number of its used frames, of three.
unfoldable pub IsCounted : List PageBucket → Type 0
unfolding number
IsCounted [] = Unit {0}
IsCounted (b ∷ bs) =
    (b.count ≡ number is_used b.frames)
    × (number is_used b.frames + number is_free b.frames ≡ 3)
    × IsCounted bs

pub add_page-IsCounted :
    (k page : ℕ) (bs : List PageBucket) → page ≢ 0 → IsCounted bs → IsCounted (add_page k page bs)
unfolding passes loops IsCounted
add_page-IsCounted k page [] h c = (ground arith, ground arith, tt)
add_page-IsCounted k page (b ∷ bs) h (p, q, c) = elim (Bool-cases (any_frame is_free b.frames)) [
  | inl e ↦
      rw e (let u = used-fill k page b.frames h e in (ground (arith, u), ground (arith, u), c))
  | inr e ↦ rw e (p, q, add_page-IsCounted k page bs h c)
]

pub set-IsCounted :
    (test : PageFrame → Bool) (page : ℕ) (bs : List PageBucket)
    → page ≢ 0
    → ((f : PageFrame) → test f ≡ true → is_used f ≡ true)
    → IsCounted bs
    → IsCounted (set test (set_page page) bs)
unfolding passes IsCounted
set-IsCounted test page [] h u c = tt
set-IsCounted test page (b ∷ bs) h u (p, q, c) = elim (Bool-cases (any_frame test b.frames)) [
  | inl e ↦ rw e (
      let r = used-set_used test page b.frames h u in (omega (arith, p, r), omega (arith, q, r), c))
  | inr e ↦ rw e (p, q, set-IsCounted test page bs h u c)
]

pub erase-absent :
    (head : Bool) (test : PageFrame → Bool) (bs : List PageBucket)
    → any test bs ≡ false
    → erase head test bs ≡ bs
unfolding passes
erase-absent head test [] e = refl
erase-absent head test (b ∷ bs) e = ground (arith, erase-absent false test bs)

pub set-absent :
    (test : PageFrame → Bool) (change : PageFrame → PageFrame) (bs : List PageBucket)
    → any test bs ≡ false
    → set test change bs ≡ bs
unfolding passes
set-absent test change [] e = refl
set-absent test change (b ∷ bs) e = ground (arith, set-absent test change bs)

-- `remove` of a page.
module _ (k v : ℕ) (h : v ≢ 0) where
  pub any-of_page :
      (bs : List PageBucket)
      → total (holds k) bs ≤ 1
      → any (holds_page k v) bs ≡ (page_of (holds k) bs == v)
  unfolding passes
  any-of_page [] u = ground arith
  any-of_page (b ∷ bs) u = ground (
    arith,
    any-of_page bs,
    any-holds_page k v h b.frames,
    any-number (holds k) b.frames,
    any-total (holds k) bs,
    any-page_of k bs,
    first_page-any k b.frames,
  )

  pub set-of_page :
      (change : PageFrame → PageFrame) (bs : List PageBucket)
      → total (holds k) bs ≤ 1
      → any (holds_page k v) bs ≡ true
      → set (holds_page k v) change bs ≡ set (holds k) change bs
  unfolding passes
  set-of_page change [] u e = refl
  set-of_page change (b ∷ bs) u e = elim (Bool-cases (any_frame (holds_page k v) b.frames)) [
    | inl p ↦
        let held : any_frame (holds k) b.frames ≡ true = ground (
          arith,
          any-holds_page k v h b.frames,
          first_page-any k b.frames,
          any-number (holds k) b.frames,
        ) in
        ground (arith, p, held, set-holds_page k v h change b.frames (omega (arith, u)) p)
    | inr p ↦ ground (
      arith,
      set-of_page change bs,
      any-of_page bs,
      any-total (holds k) bs,
      any-page_of k bs,
      any-number (holds k) b.frames,
    )
  ]

  pub erase-IsCounted :
      (head : Bool) (bs : List PageBucket)
      → IsCounted bs
      → IsCounted (erase head (holds_page k v) bs)
  unfolding passes IsCounted
  erase-IsCounted head [] c = tt
  erase-IsCounted head (b ∷ bs) (p, q, c) =
      elim (Bool-cases (any_frame (holds_page k v) b.frames)) [
        | inl e ↦ rw e (
            let r = used-clear k v h b.frames e in
            elim (Bool-cases (sub32 b.count 1 == 0 && not head)) [
              | inl d ↦ rw d c
              | inr d ↦ rw d (omega (arith, p, q, r), omega (arith, q, r), c)
            ])
        | inr e ↦ rw e (p, q, erase-IsCounted false bs c)
      ]

  pub total-erase :
      (head : Bool) (q : ℕ) (bs : List PageBucket)
      → IsCounted bs
      → total (holds q) (erase head (holds_page k v) bs)
          + (if q == k && any (holds_page k v) bs then 1 else 0)
        ≡ total (holds q) bs
  unfolding passes IsCounted
  total-erase head q [] c = ground arith
  total-erase head q (b ∷ bs) (p, r, c) = ground (
    arith,
    p,
    r,
    total-erase false q bs c,
    number-clear k v h q b.frames,
    used-clear k v h b.frames,
    number-holds q (set_first (holds_page k v) (set_page 0) b.frames),
  )

  pub page_of-erase :
      (head : Bool) (q : ℕ) (bs : List PageBucket)
      → IsCounted bs
      → q ≢ k
      → page_of (holds q) (erase head (holds_page k v) bs) ≡ page_of (holds q) bs
  unfolding passes IsCounted
  page_of-erase head q [] c n = refl
  page_of-erase head q (b ∷ bs) (p, r, c) n = ground (
    arith,
    p,
    r,
    page_of-erase false q bs c n,
    first_page-clear k v h q b.frames n,
    first_page-any q b.frames,
    first_page-any q (set_first (holds_page k v) (set_page 0) b.frames),
    any-number (holds q) (set_first (holds_page k v) (set_page 0) b.frames),
    used-clear k v h b.frames,
    number-holds q (set_first (holds_page k v) (set_page 0) b.frames),
  )
