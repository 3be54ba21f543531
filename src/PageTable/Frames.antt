-- ===== src/PageTable/Frames.antt =====
-- What the loops over the frames of one bucket read and write.
use dex_partial.Base.{
  ℕ, ◌+◌, ◌≤◌, ◌≡◌, ◌≢◌, refl, arith, Bool, true, false, ◌&&◌, ◌==◌, inl, inr, if◌then◌else◌, List,
  [], ◌∷◌, Bool-cases, not,
}
use dex_partial.PageTable.{
  PageFrame, holds, holds_page, is_free, set_page, fill, any_frame, first_page, set_first,
}

-- The number of frames that pass a test.
unfoldable pub number : (PageFrame → Bool) → List PageFrame → ℕ
number test [] = 0
number test (f ∷ fs) = (if test f then 1 else 0) + number test fs

unfoldable pub loops : Unit {0}
unfolding any_frame first_page set_first number
loops = tt

pub any-number :
    (test : PageFrame → Bool) (fs : List PageFrame) → any_frame test fs ≡ not (number test fs == 0)
unfolding loops
any-number test [] = refl
any-number test (f ∷ fs) = ground (arith, any-number test fs)

-- The page of a key is not null.
pub first_page-any :
    (k : ℕ) (fs : List PageFrame) → any_frame (holds k) fs ≡ not (first_page (holds k) fs == 0)
unfolding loops
first_page-any k [] = refl
first_page-any k (f ∷ fs) = ground (arith, first_page-any k fs)

-- A new page for the key.
pub first_page-set_page :
    (k page q : ℕ) (fs : List PageFrame)
    → page ≢ 0
    → first_page (holds q) (set_first (holds k) (set_page page) fs)
      ≡ (if q == k && any_frame (holds k) fs then page else first_page (holds q) fs)
unfolding loops
first_page-set_page k page q [] h = ground arith
first_page-set_page k page q (f ∷ fs) h = ground (arith, first_page-set_page k page q fs h)

pub number-set_page :
    (k page q : ℕ) (fs : List PageFrame)
    → page ≢ 0
    → number (holds q) (set_first (holds k) (set_page page) fs) ≡ number (holds q) fs
unfolding loops
number-set_page k page q [] h = refl
number-set_page k page q (f ∷ fs) h = ground (arith, number-set_page k page q fs h)

pub used-set_page :
    (k page : ℕ) (fs : List PageFrame)
    → page ≢ 0
    → number is_free (set_first (holds k) (set_page page) fs) ≡ number is_free fs
unfolding loops
used-set_page k page [] h = refl
used-set_page k page (f ∷ fs) h = ground (arith, used-set_page k page fs h)

-- A free frame filled.
pub number-fill :
    (k page q : ℕ) (fs : List PageFrame)
    → page ≢ 0
    → any_frame is_free fs ≡ true
    → number (holds q) (set_first is_free (fill k page) fs)
      ≡ (if q == k then 1 else 0) + number (holds q) fs
unfolding loops
number-fill k page q [] h e = ground arith
number-fill k page q (f ∷ fs) h e = elim (Bool-cases (is_free f)) [
  | inl p ↦ rw p (ground arith)
  | inr p ↦ ground (arith, number-fill k page q fs h)
]

pub first_page-fill :
    (k page q : ℕ) (fs : List PageFrame)
    → page ≢ 0
    → any_frame (holds k) fs ≡ false
    → any_frame is_free fs ≡ true
    → first_page (holds q) (set_first is_free (fill k page) fs)
      ≡ (if q == k then page else first_page (holds q) fs)
unfolding loops
first_page-fill k page q [] h a e = ground arith
first_page-fill k page q (f ∷ fs) h a e = elim (Bool-cases (is_free f)) [
  | inl p ↦ rw p (ground (arith, first_page-any k fs))
  | inr p ↦ ground (arith, first_page-fill k page q fs h)
]

abbrev pub is_used : PageFrame → Bool
is_used f = not (is_free f)

pub number-holds : (k : ℕ) (fs : List PageFrame) → number (holds k) fs ≤ number is_used fs
unfolding loops
number-holds k [] = omega arith
number-holds k (f ∷ fs) = ground (arith, number-holds k fs)

pub used-fill :
    (k page : ℕ) (fs : List PageFrame)
    → page ≢ 0
    → any_frame is_free fs ≡ true
    → (number is_used (set_first is_free (fill k page) fs) ≡ number is_used fs + 1)
      × (number is_free (set_first is_free (fill k page) fs) + 1 ≡ number is_free fs)
unfolding loops
used-fill k page [] h e = ground arith
used-fill k page (f ∷ fs) h e = elim (Bool-cases (is_free f)) [
  | inl p ↦ rw p (ground arith)
  | inr p ↦ ground (arith, used-fill k page fs h)
]

pub used-set_used :
    (test : PageFrame → Bool) (page : ℕ) (fs : List PageFrame)
    → page ≢ 0
    → ((f : PageFrame) → test f ≡ true → is_used f ≡ true)
    → (number is_used (set_first test (set_page page) fs) ≡ number is_used fs)
      × (number is_free (set_first test (set_page page) fs) ≡ number is_free fs)
unfolding loops
used-set_used test page [] h u = (refl, refl)
used-set_used test page (f ∷ fs) h u = ground (arith, used-set_used test page fs h u, u f)

-- A page taken out.
module _ (k v : ℕ) (h : v ≢ 0) where
  pub number-clear :
      (q : ℕ) (fs : List PageFrame)
      → number (holds q) (set_first (holds_page k v) (set_page 0) fs)
          + (if q == k && any_frame (holds_page k v) fs then 1 else 0)
        ≡ number (holds q) fs
  unfolding loops
  number-clear q [] = ground arith
  number-clear q (f ∷ fs) = ground (arith, number-clear q fs)

  pub used-clear :
      (fs : List PageFrame)
      → any_frame (holds_page k v) fs ≡ true
      → (number is_used (set_first (holds_page k v) (set_page 0) fs) + 1 ≡ number is_used fs)
        × (number is_free (set_first (holds_page k v) (set_page 0) fs) ≡ number is_free fs + 1)
  unfolding loops
  used-clear [] e = ground arith
  used-clear (f ∷ fs) e = elim (Bool-cases (holds_page k v f)) [
    | inl p ↦ rw p (ground arith)
    | inr p ↦ ground (arith, used-clear fs)
  ]

  pub first_page-clear :
      (q : ℕ) (fs : List PageFrame)
      → q ≢ k
      → first_page (holds q) (set_first (holds_page k v) (set_page 0) fs) ≡ first_page (holds q) fs
  unfolding loops
  first_page-clear q [] n = refl
  first_page-clear q (f ∷ fs) n = ground (arith, first_page-clear q fs n)

  pub any-holds_page :
      (fs : List PageFrame)
      → number (holds k) fs ≤ 1
      → any_frame (holds_page k v) fs ≡ (first_page (holds k) fs == v)
  unfolding loops
  any-holds_page [] u = ground arith
  any-holds_page (f ∷ fs) u = ground (
    arith,
    any-holds_page fs,
    any-number (holds_page k v) fs,
    any-number (holds k) fs,
    first_page-any k fs,
  )

  -- Under the key's own page, `RMW` and `update` change the same frame.
  pub set-holds_page :
      (change : PageFrame → PageFrame) (fs : List PageFrame)
      → number (holds k) fs ≤ 1
      → any_frame (holds_page k v) fs ≡ true
      → set_first (holds_page k v) change fs ≡ set_first (holds k) change fs
  unfolding loops
  set-holds_page change [] u e = refl
  set-holds_page change (f ∷ fs) u e = elim (Bool-cases (holds_page k v f)) [
    | inl p ↦ ground arith
    | inr p ↦ ground (
      arith,
      set-holds_page change fs,
      any-number (holds k) fs,
      any-holds_page fs,
      first_page-any k fs,
    )
  ]
