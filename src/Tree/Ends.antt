-- ===== src/Tree/Ends.antt =====
-- Where a descent ends: at once, after a change, or below a child.
use dex_partial.Base.{ℕ, zero, suc, ◌≡◌, inl, inr, refl, ap, sym, ◌∙◌, subst, Bool, false, some}
use dex_partial.Base.Bits.{has_bit}
use dex_partial.BTree.Inner.{Inner}
use dex_partial.BTree.Inner.Route.{route}
use dex_partial.BTree.Leaf.{Leaf}
use dex_partial.Rpc.{Page, inner, leaf}
use dex_partial.Tree.{Pages, base_of, Ending, restart, refresh, refused, full, at_leaf}
use dex_partial.Tree.Shape.{Good, Local, Local-of, Local-trans, same_page, one_page}
use dex_partial.Tree.Frame.{Effect, Turned, unchanged}
use dex_partial.Tree.Descent.{Leads, Stands, pages_of, Place, Walked}

pub Local-refl : (k top : ℕ) (pages : Pages) → Local k top pages pages
Local-refl k top pages =
    Local-of k top pages pages (λ name g e. inl (same_page pages pages name g e refl))

pub Turned-refl :
    (h : ℕ) (pages : Pages) (name lo hi : ℕ)
    → Good h pages name lo hi
    → Turned unchanged h pages name pages name lo hi
Turned-refl h pages name lo hi g = record { good = g; reads = λ q _. refl }

pub Turned-trans :
    (f : Effect) (h : ℕ) (a b c : Pages) (name lo hi : ℕ)
    → Turned unchanged h a name b name lo hi
    → Turned f h b name c name lo hi
    → Turned f h a name c name lo hi
Turned-trans f h a b c name lo hi s t = record {
  good = t.good;
  reads = λ q z. t.reads q z ∙ ap (f q) (s.reads q z);
}

-- The page at the top of a tree.
pub page_of :
    (h : ℕ) (pages : Pages) (name lo hi : ℕ)
    → Good h pages name lo hi
    → (g : Page) × (pages name ≡ some g)
unfolding Good
page_of zero pages name lo hi a = (leaf a.l, a.at)
page_of (suc h) pages name lo hi (a, _) = (inner a.n, a.at)

-- A remote page has its own address.
pub home_of :
    (h : ℕ) (pages : Pages) (name lo hi : ℕ) (g : Page)
    → Good h pages name lo hi
    → pages name ≡ some g
    → has_bit name 63 ≡ false
    → (base_of g).remote_address ≡ name
unfolding Good
home_of zero pages name lo hi g a is cold =
    ap (λ j. (base_of j).remote_address) (one_page pages name g (leaf a.l) is a.at)
    ∙ a.placed.at_home cold
home_of (suc h) pages name lo hi g (a, _) is cold =
    ap (λ j. (base_of j).remote_address) (one_page pages name g (inner a.n) is a.at)
    ∙ a.placed.at_home cold

pub leaf_of :
    (pages : Pages) (name : ℕ) (lo hi : ℕ)
    → Good 0 pages name lo hi
    → (l : Leaf ℕ) × (pages name ≡ some (leaf l))
unfolding Good
leaf_of pages name lo hi a = (a.l, a.at)

-- A descent that continues after a change that keeps what the tree holds.
pub after_change :
    (smo : Bool) (h k : ℕ) (a b : Pages) (p lo hi : ℕ) (e : Ending)
    → Local k (suc h) a b
    → Turned unchanged (suc h) a p b p lo hi
    → Walked smo h k b p lo hi e
    → Walked smo h k a p lo hi e
after_change smo h k a b p lo hi e l t w = record {
  local = Local-trans k (suc h) a b (pages_of e) l w.local;
  turned = Turned-trans unchanged (suc h) a b (pages_of e) p lo hi t w.turned;
  placed = w.placed;
}

-- A descent that ends where it stands.
pub ends_here :
    (smo : Bool) (h k : ℕ) (p lo hi : ℕ) (e : Ending)
    → Stands (pages_of e) k h p lo hi
    → Place smo h k p e
    → Walked smo h k (pages_of e) p lo hi e
ends_here smo h k p lo hi e (g, ok) placed = record {
  local = Local-refl k (suc h) (pages_of e);
  turned = Turned-refl (suc h) (pages_of e) p lo hi g;
  placed = placed;
}

-- The place of an ending below a child is a place below its parent.
pub Place-up :
    (smo : Bool) (h k p c : ℕ) (e : Ending)
    → Place smo h k c e
    → (n : Inner) → pages_of e p ≡ some (inner n)
    → route n k ≡ c
    → Place smo (suc h) k p e
Place-up smo h k p c (restart x) l n at r = refl
Place-up smo h k p c (refresh x) l n at r = refl
Place-up smo h k p c (refused x d) (q, l, s, o) n at r =
    (q, inr (n, at, subst (λ z. Leads h x k z 0 q) (sym r) l), s, o)
Place-up smo h k p c (full x q d) (h0, l, s, m, b, f, t) n at r =
    (h0, inr (n, at, subst (λ z. Leads h x k z (suc h0) q) (sym r) l), s, m, b, f, t)
Place-up smo h k p c (at_leaf x q d) (l, s, m, b) n at r =
    (inr (n, at, subst (λ z. Leads h x k z 0 q) (sym r) l), s, m, b)
