-- ===== src/Tree/Answers.antt =====
-- `lookup`, `update` and `remove` of the tree against the map that it holds.
use dex_partial.Base.{
  ℕ, suc, ◌≡◌, ◌≢◌, refl, subst, Bool, true, false, not, ◌==◌, if◌then◌else◌, Option, none, some,
}
use dex_partial.BTree.Leaf.{Leaf, find}
use dex_partial.Tree.{Pages}
use dex_partial.Tree.Shape.{inside, read, Good}
use dex_partial.Tree.Frame.{Effect, unchanged, Turned}
use dex_partial.Tree.Ends.{Turned-trans, Turned-refl}
use dex_partial.Tree.Leaves.{Becomes}
use dex_partial.Tree.Passes.{
  Outcome, returned, start_over, refresh_first, load_root, shared_parent, assertion, waits, Act,
}

-- The effect of a new value under a key, or of none.
abbrev pub put_at : ℕ → Option ℕ → Effect
put_at k v q o = if q == k then some v else o

-- What the pages hold after a pass, and what a call has done once it returned.
abbrev pub pages_after : Outcome → Pages
pages_after (returned x s v) = x
pages_after (start_over x) = x
pages_after (refresh_first x) = x
pages_after (load_root x) = x
pages_after (shared_parent x) = x
pages_after (assertion x) = x
pages_after (waits x) = x

-- What an operation promises: the effect that a return with this flag has, and what the flag and the
-- value say of what the tree held under the key.
pub record Promise : Type 1 where
  pub effect : Bool → Effect
  pub answer : Bool → Option ℕ → Option ℕ → Type 0

abbrev pub held : Option ℕ → Bool
held none = false
held (some v) = true

abbrev pub lookup_promise : Promise
lookup_promise = record { effect = λ _. unchanged; answer = λ s v was. (s ≡ held was) × (v ≡ was) }

abbrev pub update_promise : ℕ → ℕ → Promise
update_promise k v = record {
  effect = λ s. if s then put_at k (some v) else unchanged;
  answer = λ s _ was. s ≡ held was;
}

abbrev pub remove_promise : ℕ → Promise
remove_promise k = record { effect = λ _. put_at k none; answer = λ s _ was. s ≡ held was }

abbrev pub insert_promise : ℕ → ℕ → Promise
insert_promise k v = record {
  effect = λ _. put_at k (some v);
  answer = λ s _ was. s ≡ not (held was);
}

abbrev pub effect_of : Promise → Outcome → Effect
effect_of m (returned x s v) = m.effect s
effect_of m _ = unchanged

abbrev pub Answers : Promise → Outcome → Option (Option ℕ) → Type 0
Answers m (returned x s v) was = (w : Option ℕ) × (was ≡ some w) × m.answer s v w
Answers m _ was = was ≡ was

-- A pass over the tree from `root` keeps the promise: afterwards the tree is well formed and holds what
-- the effect says, and what is returned is true of what it held.
pub record Keeps (m : Promise) (k h : ℕ) (x : Pages) (root lo hi : ℕ) (o : Outcome) : Type 0 where
  pub turned : Turned (effect_of m o) (suc h) x root (pages_after o) root lo hi
  pub answered : Answers m o (read (suc (suc h)) x root k)

abbrev pub Passes : Promise → ℕ → ℕ → Pages → ℕ → ℕ → ℕ → Option Outcome → Type 0
Passes m k h x root lo hi r = (o : Outcome) × (r ≡ some o) × Keeps m k h x root lo hi o

-- An act on a leaf that keeps the promise there.
pub record ActKeeps (m : Promise) (act : Act) (k : ℕ) (l : Leaf ℕ) : Type 0 where
  pub becomes : Becomes (m.effect (act l).1) l (act l).0
  pub answer : m.answer (act l).1 (act l).2 (find l k)

abbrev pub Elsewhere : Promise → ℕ → Type 0
Elsewhere m k = (s : Bool) (q : ℕ) (o : Option (Option ℕ)) → q ≢ k → m.effect s q o ≡ o

-- The promise for the pages at the end of a descent is one for the pages at its start.
pub after_walk :
    (m : Promise) (k h : ℕ) (x y : Pages) (root lo hi : ℕ) (r : Option Outcome)
    → inside lo hi k ≡ true
    → Turned unchanged (suc h) x root y root lo hi
    → Passes m k h y root lo hi r
    → Passes m k h x root lo hi r
after_walk m k h x y root lo hi r ok t (o, e, keeps) = (
  o,
  e,
  record {
    turned = Turned-trans (effect_of m o) (suc h) x y (pages_after o) root lo hi t keeps.turned;
    answered = subst (Answers m o) (t.reads k ok) keeps.answered;
  },
)

module _ (m : Promise) (k h : ℕ) (x : Pages) (root lo hi : ℕ)
    (good : Good (suc h) x root lo hi) where
  -- A pass that did nothing yet.
  pub starts_over : Passes m k h x root lo hi (some (start_over x))
  starts_over = (
    start_over x,
    refl,
    record { turned = Turned-refl (suc h) x root lo hi good; answered = refl },
  )

  pub refreshes_first : Passes m k h x root lo hi (some (refresh_first x))
  refreshes_first = (
    refresh_first x,
    refl,
    record { turned = Turned-refl (suc h) x root lo hi good; answered = refl },
  )
