-- ===== src/Root/Load.antt =====
-- `load_newest_root`, which brings the root of a tree into memory.
use dex_partial.Base.{
  subst, ℕ, ◌≡◌, ◌≢◌, ◌⊎◌, inl, inr, refl, ap, ◌∙◌, arith, Bool, true, false, not, ◌||◌, ◌==◌,
  Option, none, some, Bool-cases, Option-cases, write,
}
use dex_partial.Base.Bits.{has_bit}
use dex_partial.OptLock.Words.{is_io_lem, upgrade_ok}
use dex_partial.OptLock.{upgrade_to_write_lock_or_restart, write_unlock}
use dex_partial.BTree.Node.{NodeBase}
use dex_partial.BTree.Inner.{set_bitmap}
use dex_partial.Rpc.{Page}
use dex_partial.Tree.{Pages, World, base_of, set_parent, can_write, written, fit_limits, brought}
use dex_partial.Tree.Shape.{Good, same_page}
use dex_partial.Tree.Frame.{Turned, unchanged}
use dex_partial.Tree.Arrive.{moved}
use dex_partial.Cache.Flush.{remote_name}
use dex_partial.Root.{State, adopt, new_root, with_root, under_lock, load_newest_root}

-- The root is not in memory, or is another one than the root word says.
abbrev pub stale : State → Bool
stale s = not (s.root_word == remote_name s.pages s.root) || not (has_bit s.root 63)

-- What the call meets where nothing is in its way.
pub record IsOpen (w : World) (s : State) (g : Page) (e word : ℕ) : Type 0 where
  pub unlocked : s.root_lock ≡ 0
  pub free : can_write s.super_root.base ≡ true
  pub at : s.pages s.root_word ≡ some g
  pub fits : fit_limits w (base_of g) ≡ true
  pub page : w.get_empty_page s.pages ≡ some (e, word)
  pub apart : e ≢ s.root
  pub page_free : s.pages e ≡ none
  pub page_tag : has_bit e 63 ≡ true

-- The state after the call has the root in memory, with the tree that the memory nodes had.
pub record Loaded (h lo hi : ℕ) (s : State) (o : Option (State × Bool)) : Type 0 where
  pub t : State
  pub ends : o ≡ some (t, true)
  pub hot : has_bit t.root 63 ≡ true
  pub child : t.super_root.children 0 ≡ t.root
  pub turned : Turned unchanged h s.pages s.root_word t.pages t.root lo hi

pub adopted :
    (p : ℕ) (x : Pages) (child name : ℕ) (f : Page)
    → x name ≡ some f
    → (u : ℕ) × (adopt p x child name ≡ some (set_parent u f))
unfolding adopt
adopted p x child name f at = elim (Bool-cases (has_bit child 63)) [
  | inr o ↦ let (u, e) = same_page x x name f at refl in (u, rw o e)
  | inl o ↦ elim (Bool-cases (name == child)) [
    | inr z ↦ let (u, e) = same_page x x name f at refl in (u, rw (o, z) e)
    | inl z ↦ let same : child ≡ name = ground (arith, z) in (p, rw (o, z, same, at) refl)
  ]
]

adopt_other : (p : ℕ) (x : Pages) (child name : ℕ) → name ≢ child → adopt p x child name ≡ x name
unfolding adopt
adopt_other p x child name away =
    let z : (name == child) ≡ false = ground (arith, away) in
    elim (Bool-cases (has_bit child 63)) [ inr o ↦ rw o refl | inl o ↦ rw (o, z) refl ]

-- For a stale root whose read passes, with the super root and the lock of the root free, an empty
-- page that nothing names, and a root word that stays the same and names a well formed tree within
-- the part of the keys of the compute node: load_newest_root ends with that root in memory, as the
-- child of the super root, and with the tree below it well formed and holding what it held; and it
-- lets the caller start over.
pub load_newest_root-Loaded :
    (w : World) (s : State) (g : Page) (e word h lo hi : ℕ) (need_restart : Bool)
    → IsOpen w s g e word
    → stale s ≡ true
    → Good h s.pages s.root_word lo hi
    → Loaded h lo hi s (load_newest_root w s true s.root_word need_restart)
unfolding load_newest_root under_lock with_root new_root set_bitmap
load_newest_root-Loaded w s g e word h lo hi need_restart clear old good =
    let x = write s.pages e (some (brought g word s.here)) in
    let y = adopt 0 x s.root in
    let self : (t : ℕ) → (t == t) ≡ true = λ t. ground arith in
    let here : y e ≡ some (brought g word s.here) =
      adopt_other 0 x s.root e clear.apart ∙ rw (self e) refl in
    let keep : (name : ℕ) (f : Page)
        → s.pages name ≡ some f
        → (u : ℕ) × (y name ≡ some (set_parent u f)) =
      λ name f at. adopted 0 x s.root name f (elim (Bool-cases (name == e)) [
        | inr o ↦ rw o at
        | inl o ↦
            let same : name ≡ e = ground (arith, o) in
            absurd (cc (at, clear.page_free, ap s.pages same))
      ]) in
    record {
      t = new_root s g e word;
      ends =
          rw (old, clear.at, clear.free, clear.unlocked, self s.root_word, clear.fits, clear.page)
            refl;
      hot = clear.page_tag;
      child = refl;
      turned =
          moved s.pages y s.root_word e word s.here clear.page_tag h lo hi g clear.at here
            (λ name f at _. keep name f at) good;
    }

written_free : (b : NodeBase) → can_write b ≡ true → can_write (written b) ≡ true
unfolding upgrade_to_write_lock_or_restart write_unlock
written_free b free =
    let (_, even, e) = upgrade_ok b.lock_word b.lock_word (ground (arith, free)) in
    ground (arith, even, e, is_io_lem b.lock_word, is_io_lem (written b).lock_word)

-- What stays where the call does not load a root.
pub record Same (s t : State) : Type 0 where
  pub pages : t.pages ≡ s.pages
  pub root : t.root ≡ s.root
  pub word : t.root_word ≡ s.root_word
  pub lock : t.root_lock ≡ s.root_lock
  pub children : t.super_root.children ≡ s.super_root.children
  pub free : can_write s.super_root.base ≡ true → can_write t.super_root.base ≡ true

-- What holds where it does: the root was stale, its read passed, the lock on its memory node was free, and the
-- root word was the same twice; the new root is the page that was handed out.
pub record Renewed (w : World) (s : State) (read_ok : Bool) (check : ℕ) (t : State) : Type 0 where
  pub old : stale s ≡ true
  pub passed : read_ok ≡ true
  pub unlocked : s.root_lock ≡ 0
  pub unmoved : check ≡ s.root_word
  pub e : ℕ
  pub word : ℕ
  pub handed : w.get_empty_page s.pages ≡ some (e, word)
  pub root : t.root ≡ e
  pub word_same : t.root_word ≡ s.root_word
  pub others :
      s.pages e ≡ none
      → (name : ℕ) (f : Page) → s.pages name ≡ some f
      → (u : ℕ) × (t.pages name ≡ some (set_parent u f))

module _ (w : World) (s : State) (read_ok : Bool) (check : ℕ) (need_restart : Bool) where
  given :
      (g : Page) (o : Option (ℕ × ℕ)) (t : State) (r : Bool)
      → stale s ≡ true
      → read_ok ≡ true
      → s.root_lock ≡ 0
      → check ≡ s.root_word
      → w.get_empty_page s.pages ≡ o
      → with_root s g o ≡ some (t, r)
      → Renewed w s read_ok check t
  unfolding with_root new_root
  given g none t r old ok lock same is ends = absurd (cc ends)
  given g (some (e, word)) t r old ok lock same is ends =
      let at : new_root s g e word ≡ t = cc ends in
      subst (Renewed w s read_ok check) at (record {
        old = old;
        passed = ok;
        unlocked = lock;
        unmoved = same;
        e = e;
        word = word;
        handed = is;
        root = refl;
        word_same = refl;
        others = λ free name f placed.
            adopted 0 (write s.pages e (some (brought g word s.here))) s.root name f
              (elim (Bool-cases (name == e)) [
                | inr o ↦ rw o placed
                | inl o ↦
                    let here : name ≡ e = ground (arith, o) in
                    absurd (cc (placed, free, ap s.pages here))
              ]);
      })

  kept : Same s s
  kept = record {
    pages = refl;
    root = refl;
    word = refl;
    lock = refl;
    children = refl;
    free = λ z. z;
  }

  abbrev released : State
  released = record s { super_root = record (s.super_root) { base = written s.super_root.base } }

  let_go : Same s released
  let_go = record {
    pages = refl;
    root = refl;
    word = refl;
    lock = refl;
    children = refl;
    free = λ z. written_free s.super_root.base z;
  }

  locked_cases :
      (g : Page) (t : State) (r : Bool)
      → stale s ≡ true
      → read_ok ≡ true
      → under_lock w s check g ≡ some (t, r)
      → Same s t ⊎ Renewed w s read_ok check t
  unfolding under_lock
  locked_cases g t r old ok ends = elim (Bool-cases (can_write s.super_root.base)) [
    | inr z ↦ let e1 = rw z at ends in inl (stays s kept (cc e1))
    | inl z ↦
        let e1 = rw z at ends in
        elim (Bool-cases (s.root_lock == 0)) [
          | inr o ↦ let e2 = rw o at e1 in inl (stays released let_go (cc e2))
          | inl o ↦
              let e2 = rw o at e1 in
              elim (Bool-cases (check == s.root_word)) [
                | inr c ↦ let e3 = rw c at e2 in inl (stays released let_go (cc e3))
                | inl c ↦
                    let e3 = rw c at e2 in
                    elim (Bool-cases (fit_limits w (base_of g))) [
                      | inr f ↦ let e4 = rw f at e3 in absurd (cc e4)
                      | inl f ↦
                          let e4 = rw f at e3 in
                          inr (
                            given g (w.get_empty_page s.pages) t r old ok (ground (arith, o))
                              (ground (arith, c)) refl e4)
                    ]
              ]
        ]
  ]
    where
      stays : (x : State) → Same s x → x ≡ t → Same s t
      stays x same at = subst (Same s) at same

  -- Whatever the other nodes do to the lock of the root and to the root word, if load_newest_root
  -- ends, either pages, root, root word, root lock and the child of the super root stay, and a super
  -- root that was unlocked is unlocked again; or the root was stale, its read passed, the lock of
  -- the root was free and the root word read the same twice, and the new root is the page that was
  -- handed out, with every other page as it was but for its parent, if nothing named that page.
  pub load_newest_root_cases :
      (t : State) (r : Bool)
      → load_newest_root w s read_ok check need_restart ≡ some (t, r)
      → Same s t ⊎ Renewed w s read_ok check t
  unfolding load_newest_root
  load_newest_root_cases t r ends = elim (Bool-cases (stale s)) [
    | inr o ↦ let e1 = rw o at ends in let at : s ≡ t = cc e1 in inl (subst (Same s) at kept)
    | inl o ↦
        let e1 = rw o at ends in
        elim (Option-cases (s.pages s.root_word)) [
          | inl z ↦ let e2 = rw z at e1 in absurd (cc e2)
          | inr (g, z) ↦
              let e2 = rw z at e1 in
              elim (Bool-cases read_ok) [
                | inr p ↦
                    let e3 = rw p at e2 in let at : s ≡ t = cc e3 in inl (subst (Same s) at kept)
                | inl p ↦ let e3 = rw p at e2 in locked_cases g t r o p e3
              ]
        ]
  ]
