-- ===== src/Cache/Exclusive/Refused.antt =====
-- `get_exclusive_node` where it fails, and where it meets no obstacle.
use dex_partial.Base.{
  ℕ, ◌%◌, ◌≡◌, ◌≢◌, inl, inr, refl, ap, sym, ◌∙◌, subst, arith, Bool, true, false, ◌==◌, Option,
  none, some, Bool-cases, write,
}
use dex_partial.OptLock.{upgrade_to_write_lock_or_restart, write_lock_or_restart, write_unlock}
use dex_partial.OptLock.Words.{is_free_lem, is_io_lem, take_ok}
use dex_partial.BTree.Node.{NodeBase}
use dex_partial.BTree.Inner.{Inner, find_idx}
use dex_partial.Rpc.{Page, inner, leaf}
use dex_partial.Tree.{Pages, base_of, with_base}
use dex_partial.Cache.{hot_name, put_base, check_parent_child_info}
use dex_partial.Cache.Exclusive.{
  failed, lock_fails, locked_base, unlocked_base, exclusive_hot, exclusive_at, at_parent,
  from_parent, get_exclusive_node,
}

-- The name's page is as it was, or was locked and unlocked, and can be locked again.
pub data Released (pages x : Pages) (t : ℕ) : Type 0 where
  untouched : x t ≡ pages t → Released pages x t
  released :
      (g : Page)
      → pages t ≡ some g
      → x t ≡ some (with_base g (unlocked_base (base_of g)))
      → lock_fails (unlocked_base (base_of g)) ≡ false
      → Released pages x t

pub lock_free : (w : ℕ) → w % 8 ≡ 0 → (write_lock_or_restart w w false).1 ≡ false
unfolding write_lock_or_restart upgrade_to_write_lock_or_restart
lock_free w h = ground (arith, is_free_lem w, is_io_lem w)

unlocked_free : (b : NodeBase) → lock_fails b ≡ false → lock_fails (unlocked_base b) ≡ false
unfolding write_unlock
unlocked_free b h =
    let (_, free, e) = take_ok b.lock_word b.lock_word h in
    lock_free (unlocked_base b).lock_word (omega (arith, free, e))

lock_taken : (w : ℕ) → w % 8 ≡ 4 → (write_lock_or_restart w w false).1 ≡ true
unfolding write_lock_or_restart
lock_taken w h = ground (arith, is_free_lem w)

locked_taken : (b : NodeBase) → lock_fails b ≡ false → lock_fails (locked_base b) ≡ true
locked_taken b h =
    let (_, free, e) = take_ok b.lock_word b.lock_word h in
    lock_taken (locked_base b).lock_word (omega (arith, free, e))

base_with : (g : Page) (b : NodeBase) → base_of (with_base g b) ≡ b
base_with (inner m) b = refl
base_with (leaf l) b = refl

module _ (pages : Pages) (name : ℕ) (g : Page) (here : pages name ≡ some g)
    (free : lock_fails (base_of g) ≡ false) where
  one-Released : (t : ℕ) → Released pages (put_base pages name g (unlocked_base (base_of g))) t
  one-Released t = elim (Bool-cases (t == name)) [
    | inr o ↦ untouched (rw o refl)
    | inl o ↦
        let same : t ≡ name = ground (arith, o) in
        released g (ap pages same ∙ here) (rw o refl) (unlocked_free (base_of g) free)
  ]

  both-Released :
      (q : ℕ) (n : Inner)
      → pages q ≡ some (inner n)
      → lock_fails n.base ≡ false
      → (t : ℕ)
      → Released pages
          (put_base
            (write pages q (some (inner (record n { base = unlocked_base n.base }))))
            name
            g
            (unlocked_base (base_of g)))
          t
  both-Released q n there n_free t = elim (Bool-cases (t == name)) [
    | inl o ↦
        let same : t ≡ name = ground (arith, o) in
        released g (ap pages same ∙ here) (rw o refl) (unlocked_free (base_of g) free)
    | inr o ↦ elim (Bool-cases (t == q)) [
      | inr z ↦ untouched (rw (o, z) refl)
      | inl z ↦
          let same : t ≡ q = ground (arith, z) in
          released (inner n) (ap pages same ∙ there) (rw (o, z) refl) (unlocked_free n.base n_free)
    ]
  ]

  -- The page that the second lock meets is not the locked one.
  parent_page :
      (q : ℕ) (n : Inner)
      → put_base pages name g (locked_base (base_of g)) q ≡ some (inner n)
      → lock_fails n.base ≡ false
      → pages q ≡ some (inner n)
  parent_page q n e n_free = elim (Bool-cases (q == name)) [
    | inr o ↦ let s = rw o at e in s
    | inl o ↦
        let s = rw o at e in
        let one : with_base g (locked_base (base_of g)) ≡ inner n = cc s in
        let base : locked_base (base_of g) ≡ n.base =
          sym (base_with g (locked_base (base_of g))) ∙ ap base_of one in
        let taken = locked_taken (base_of g) free in
        let n_taken : lock_fails n.base ≡ true = subst (λ b. lock_fails b ≡ true) base taken in
        absurd (cc (n_taken, n_free))
  ]

  found_failed :
      (q : ℕ) (n : Inner) (x : Pages) (o : Option ℕ)
      → from_parent pages name g q n o ≢ some (failed x)
  unfolding from_parent
  found_failed q n x none e = cc e
  found_failed q n x (some i) e = cc e

  parent_failed :
      (seen q : ℕ) (x : Pages) (o : Option Page)
      → put_base pages name g (locked_base (base_of g)) q ≡ o
      → at_parent seen pages name g q o ≡ some (failed x)
      → (t : ℕ) → Released pages x t
  unfolding at_parent
  parent_failed seen q x none at e t = absurd (cc e)
  parent_failed seen q x (some (leaf l)) at e t = absurd (cc e)
  parent_failed seen q x (some (inner n)) at e t = elim (Bool-cases (lock_fails n.base)) [
    | inl f ↦
        let e1 = rw f at e in
        let is : put_base pages name g (unlocked_base (base_of g)) ≡ x = cc e1 in
        subst (λ y. Released pages y t) is (one-Released t)
    | inr f ↦
        let e1 = rw f at e in
        elim (Bool-cases (seen == (base_of g).parent_ptr)) [
          | inr d ↦
              let e2 = rw d at e1 in
              let is : put_base
                    (write pages q (some (inner (record n { base = unlocked_base n.base })))) name g
                    (unlocked_base (base_of g))
                  ≡ x =
                cc e2 in
              subst (λ y. Released pages y t) is (both-Released q n (parent_page q n at f) f t)
          | inl d ↦
              let e2 = rw d at e1 in
              elim (Bool-cases (check_parent_child_info n (base_of g) name)) [
                | inl z ↦ let e3 = rw z at e2 in absurd (found_failed q n x (find_idx n name) e3)
                | inr z ↦ let e3 = rw z at e2 in absurd (cc e3)
              ]
        ]
  ]

  hot_failed :
      (seen : ℕ) (x : Pages)
      → exclusive_hot seen pages name g ≡ some (failed x)
      → (t : ℕ) → Released pages x t
  unfolding exclusive_hot
  hot_failed seen x e =
      let e1 = rw free at e in
      elim (Bool-cases ((base_of g).parent_ptr == 0)) [
        | inl o ↦ let e2 = rw o at e1 in absurd (cc e2)
        | inr o ↦
            let e2 = rw o at e1 in parent_failed seen (hot_name (base_of g).parent_ptr) x _ refl e2
      ]

-- Where `get_exclusive_node` fails, it leaves no lock behind: every page is as it was, or had its lock taken and released by the
-- call, with nothing else of it changed, and can be locked again.
pub get_exclusive_node-failed :
    (promoted : Bool) (seen : ℕ) (pages : Pages) (name : ℕ) (x : Pages)
    → get_exclusive_node promoted seen pages name ≡ some (failed x)
    → (t : ℕ) → Released pages x t
unfolding get_exclusive_node exclusive_at exclusive_hot
get_exclusive_node-failed promoted seen pages name x e t = at_page (pages name) refl e
  where
    as_it_was : pages ≡ x → Released pages x t
    as_it_was same = untouched (ap (λ z. z t) (sym same))

    at_page :
        (o : Option Page)
        → pages name ≡ o
        → exclusive_at promoted seen pages name o ≡ some (failed x)
        → Released pages x t
    at_page none at e = absurd (cc e)
    at_page (some g) at e = elim (Bool-cases ((base_of g).pos_state == 1)) [
      | inl o ↦
          let e1 = rw o at e in
          elim (Bool-cases promoted) [
            | inl p ↦ let e2 = rw p at e1 in absurd (cc e2)
            | inr p ↦ let e2 = rw p at e1 in as_it_was (cc e2)
          ]
      | inr o ↦
          let e1 = rw o at e in
          elim (Bool-cases ((base_of g).pos_state == 2)) [
            | inr p ↦ let e2 = rw p at e1 in as_it_was (cc e2)
            | inl p ↦
                let e2 = rw p at e1 in
                elim (Bool-cases (lock_fails (base_of g))) [
                  | inl f ↦ let e3 = rw (exclusive_hot, f) at e2 in as_it_was (cc e3)
                  | inr f ↦ hot_failed pages name g at f seen x e2 t
                ]
          ]
    ]
