-- ===== src/Tree/Walks.antt =====
-- The descent on fuel of the height ends, and keeps what the tree holds.
use dex_partial.Base.{
  ℕ, zero, suc, ◌≤◌, ◌≡◌, inl, inr, refl, subst, arith, Bool, true, false, not, ◌&&◌, ◌||◌, ◌==◌,
  Option, none, some, Bool-cases,
}
use dex_partial.Base.Bits.{has_bit}
use dex_partial.BTree.Inner.{Inner, is_full, lower_bound}
use dex_partial.BTree.Inner.Route.{route, place}
use dex_partial.Rpc.{Page, inner}
use dex_partial.Tree.{
  Pages, World, base_of, slot_min, slot_max, can_read, can_io, Ending, restart, refresh, refused,
  full, at_leaf, to_hot, get_node, visit, walk, fit_limits, new_check_limit_match,
}
use dex_partial.Tree.Shape.{inside, InnerAt, Good, Local-raise, inner_same}
use dex_partial.Tree.Frame.{unchanged, lift}
use dex_partial.Tree.Slots.{route_set_parent}
use dex_partial.Tree.Arrive.{arrive, arrive-Local, arrive-turned, arrive-route, arrive-same}
use dex_partial.Tree.Descent.{
  IsLawful, Leads, Leads-here, Stands, child-Stands, pages_of, Walked, Roomy,
}
use dex_partial.Tree.Ends.{page_of, home_of, leaf_of, after_change, ends_here, Place-up}

module _ (w : World) (lawful : IsLawful w) (smo : Bool) (k : ℕ) where
  -- The rest of the loop, from the child of `p` that the key is sent to, whatever the pages are by then.
  abbrev Goes : ℕ → ℕ → ℕ → ℕ → (Pages → ℕ → Option Ending) → Type 0
  Goes h p lo hi go =
      (x : Pages) (a : InnerAt x p (suc h) lo hi)
      → ((i : ℕ) → i ≤ a.n.base.count → Good h x (a.n.children i) (slot_min a.n i) (slot_max a.n i))
      → Roomy smo a.n
      → (e : Ending) × (go x (route a.n k) ≡ some e) × Walked smo h k x p lo hi e

  module _ (h p lo hi : ℕ) (go : Pages → ℕ → Option Ending) (goes : Goes h p lo hi go) (x : Pages)
      (a : InnerAt x p (suc h) lo hi)
      (below : (i : ℕ)
        → i ≤ a.n.base.count
        → Good h x (a.n.children i) (slot_min a.n i) (slot_max a.n i))
      (ok : inside lo hi k ≡ true) (roomy : Roomy smo a.n) where
    abbrev idx : ℕ
    idx = lower_bound a.n k

    abbrev Gets : Option Ending → Type 0
    Gets o = (e : Ending) × (o ≡ some e) × Walked smo h k x p lo hi e

    stands : Stands x k h p lo hi
    unfolding Good
    stands = ((a, below), ok)

    got_hot :
        (g : Page)
        → x (route a.n k) ≡ some g
        → has_bit (a.n.children idx) 63 ≡ false
        → (o : Option (ℕ × ℕ)) → w.try_get_empty_page x ≡ o
        → Gets (to_hot w x p a.n idx go o (some g))
    unfolding to_hot Good is_full route
    got_hot g is cold none _ = (restart x, refl, ends_here smo h k p lo hi (restart x) stands refl)
    got_hot g is cold (some (e, word)) page =
        elim (Bool-cases
          (not (fit_limits w (base_of g)) || not (new_check_limit_match a.n (base_of g) idx))) [
            | inl r ↦ (refresh x, rw r refl, ends_here smo h k p lo hi (refresh x) stands refl)
            | inr r ↦
                let at_home =
                  home_of h x (route a.n k) _ _ g (below idx (place a.n a.valid k).inside) is
                    cold in
                let home : ((base_of g).remote_address == a.n.children idx) ≡ true =
                  ground (arith, at_home) in
                let free = lawful.page_free x e word page in
                let tag = lawful.page_tag x e word page in
                let hot = arrive x g e word p a.n idx in
                let l = arrive-Local x k h p lo hi e word g a below ok is free tag in
                let t = arrive-turned x k h p lo hi e word g a below ok is free tag in
                let (b, below_b) = t.good in
                let (count, shared) = arrive-same x k h p lo hi e word g a below ok is free tag b in
                let roomy_b : Roomy smo b.n = rw (count, shared) roomy in
                let (end, on, walked) = goes hot b below_b roomy_b in
                let at_e = arrive-route x k h p lo hi e word g a below ok is free tag b in
                (
                  end,
                  rw (r, home) (subst (λ c. go hot c ≡ some end) at_e on),
                  after_change smo h k x hot p lo hi end l t walked,
                )
          ]

    some_page : (g : Page) × (x (route a.n k) ≡ some g)
    unfolding route
    some_page = page_of h x (route a.n k) _ _ (below idx (place a.n a.valid k).inside)

    got_node : Gets (get_node w x p a.n idx go)
    unfolding get_node route
    got_node = elim (Bool-cases (has_bit (a.n.children idx) 63)) [
      | inl there ↦ rw there (goes x a below roomy)
      | inr away ↦ elim (Bool-cases (not (can_io a.n.base))) [
        | inl busy ↦
            rw (away, busy) (restart x, refl, ends_here smo h k p lo hi (restart x) stands refl)
        | inr io ↦ elim (Bool-cases (a.n.base.level == 1 && not w.admits)) [
          | inl cold ↦
              let zero_h : h ≡ 0 = ground (arith, cold, a.placed.level_is) in
              rw (away, io, cold)
                (
                  refused x (a.n.children idx),
                  refl,
                  ends_here smo h k p lo hi (refused x (a.n.children idx)) stands (
                    p,
                    subst (λ d. Leads h x k p d p) zero_h (Leads-here h x k p),
                    (a.n, a.at, refl, roomy),
                    away,
                  ),
                )
          | inr warm ↦
              let (g, is) = some_page in
              rw (away, io, warm, is) (got_hot g is away (w.try_get_empty_page x) refl)
        ]
      ]
    ]

  visit_leaf :
      (p lo hi : ℕ) (rest : Pages → ℕ → Option Ending)
      → inside lo hi k ≡ true
      → Goes 0 p lo hi (λ x c. visit smo p rest x c (x c))
  unfolding visit Good route
  visit_leaf p lo hi rest ok x a below roomy =
      let c = route a.n k in
      let (l, at) = leaf_of x c _ _ (below (lower_bound a.n k) (place a.n a.valid k).inside) in
      elim (Bool-cases (can_read l.base)) [
        | inl r ↦
            rw (at, r)
              (
                at_leaf x p c,
                refl,
                ends_here smo 0 k p lo hi (at_leaf x p c) ((a, below), ok)
                    (Leads-here 0 x k p, (a.n, a.at, refl, roomy), l, at),
              )
        | inr r ↦
            rw (at, r)
              (restart x, refl, ends_here smo 0 k p lo hi (restart x) ((a, below), ok) refl)
      ]

  Walked-up :
      (h p lo hi : ℕ) (x : Pages) (a : InnerAt x p (suc (suc h)) lo hi)
      → ((i : ℕ)
          → i ≤ a.n.base.count
          → Good (suc h) x (a.n.children i) (slot_min a.n i) (slot_max a.n i))
      → inside lo hi k ≡ true
      → (e : Ending)
      → Walked smo h k x
          (route a.n k)
          (slot_min a.n (lower_bound a.n k))
          (slot_max a.n (lower_bound a.n k))
          e
      → Walked smo (suc h) k x p lo hi e
  Walked-up h p lo hi x a below ok e walked =
      let y = pages_of e in
      let (z, s) = walked.local.high p (inner a.n) a.at (omega (arith, a.placed.level_is)) in
      record {
        local = Local-raise k (suc h) (suc (suc h)) x y (omega arith) walked.local;
        turned =
            lift k (suc h) x y walked.local unchanged (λ q o _. refl) (suc h) p lo hi (omega arith)
              a below ok walked.turned;
        placed = Place-up smo h k p (route a.n k) e walked.placed _ s (route_set_parent z a.n k);
      }

  -- What the descent does from a node.
  abbrev pub Ends : ℕ → (Pages → ℕ → Option Ending) → Type 0
  Ends h rest =
      (x : Pages) (c lo hi : ℕ)
      → Stands x k h c lo hi
      → ((n : Inner) → x c ≡ some (inner n) → Roomy smo n)
      → (e : Ending) × (rest x c ≡ some e) × Walked smo h k x c lo hi e

  visit_inner :
      (h p lo hi : ℕ) (rest : Pages → ℕ → Option Ending)
      → inside lo hi k ≡ true
      → Ends h rest
      → Goes (suc h) p lo hi (λ x c. visit smo p rest x c (x c))
  unfolding visit Good
  visit_inner h p lo hi rest ok ends x a below roomy =
      let c = route a.n k in
      let ((b, below_b), ok_b) = child-Stands h x k p lo hi a below ok in
      elim (Bool-cases (not (can_read b.n.base))) [
        | inl r ↦
            rw (b.at, r)
              (restart x, refl, ends_here smo (suc h) k p lo hi (restart x) ((a, below), ok) refl)
        | inr r ↦ elim (Bool-cases (smo && is_full b.n && not b.n.base.shared)) [
          | inl f ↦
              rw (b.at, r, f)
                (
                  full x p c,
                  refl,
                  ends_here smo (suc h) k p lo hi (full x p c) ((a, below), ok)
                      (
                        h,
                        Leads-here (suc h) x k p,
                        (a.n, a.at, refl, roomy),
                        b.n,
                        b.at,
                        ground (arith, f),
                        ground (arith, f),
                      ),
                )
          | inr f ↦
              let (e, on, walked) =
                ends x c _ _ ((b, below_b), ok_b) (λ n at. rw (inner_same x c n b.n at b.at) f) in
              rw (b.at, r, f) (e, on, Walked-up h p lo hi x a below ok e walked)
        ]
      ]

  -- With allocators that hand out pages which nothing names, and on fuel of the number of its inner levels,
  -- the descent from an inner node of a well formed tree ends; with `smo` the node is shared or not full. What
  -- came into memory on the way leaves the tree well formed and under every key what it held.
  pub walked : (h : ℕ) → Ends h (walk (suc h) w smo k)
  unfolding walk Good route
  walked zero x c lo hi ((a, below), ok) room = rw a.at (
      got_node 0 c lo hi (λ y d. visit smo c (walk 0 w smo k) y d (y d))
        (visit_leaf c lo hi (walk 0 w smo k) ok) x a below ok (room a.n a.at))
  walked (suc h) x c lo hi ((a, below), ok) room = rw a.at (
      got_node (suc h) c lo hi (λ y d. visit smo c (walk (suc h) w smo k) y d (y d))
        (visit_inner h c lo hi (walk (suc h) w smo k) ok (walked h)) x a below ok (room a.n a.at))
