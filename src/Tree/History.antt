-- ===== src/Tree/History.antt =====
-- A run of passes of the four calls over one tree, against a map.
use dex_partial.Base.{ℕ, suc, ◌≡◌, refl, ap, ◌∙◌, subst, true, Option, none, some, List, [], ◌∷◌}
use dex_partial.Base.Bits.{has_bit}
use dex_partial.Tree.{Pages, World}
use dex_partial.Tree.Shape.{inside, read, Good}
use dex_partial.Tree.Descent.{IsLawful}
use dex_partial.Tree.Answers.{
  Promise, Passes, pages_after, effect_of, Answers, lookup_promise, update_promise, remove_promise,
  insert_promise,
}
use dex_partial.Tree.Calls.{tree_lookup-keeps, tree_update-keeps, tree_remove-keeps}
use dex_partial.Tree.Inserts.{tree_insert-keeps}
use dex_partial.Tree.Passes.{Outcome, lookup, update, remove, insert}

pub data Op : Type 0 where
  look_up : ℕ → Op
  renew : ℕ → ℕ → Op
  erase : ℕ → Op
  store : ℕ → ℕ → Op

abbrev pub key_of : Op → ℕ
key_of (look_up k) = k
key_of (renew k v) = k
key_of (erase k) = k
key_of (store k v) = k

abbrev pub promise : Op → Promise
promise (look_up k) = lookup_promise
promise (renew k v) = update_promise k v
promise (erase k) = remove_promise k
promise (store k v) = insert_promise k v

unfoldable pub pass : ℕ → World → Pages → ℕ → Op → Option Outcome
unfolding lookup update remove insert
pass fuel w pages root (look_up k) = lookup fuel w pages root k
pass fuel w pages root (renew k v) = update fuel w pages root k v
pass fuel w pages root (erase k) = remove fuel w pages root k
pass fuel w pages root (store k v) = insert fuel w pages root k v

-- The passes in turn, each with the pages and the choices that it meets: their outcomes and the pages
-- afterwards.
unfoldable pub run : ℕ → Pages → ℕ → List (World × Op) → Option (List (Op × Outcome) × Pages)
unfolding pass
run fuel pages root [] = some ([], pages)
run fuel pages root ((w, op) ∷ rest) = next (λ y. run fuel y root rest) (pass fuel w pages root op)
  where
    add : Outcome → Option (List (Op × Outcome) × Pages) → Option (List (Op × Outcome) × Pages)
    add o none = none
    add o (some (os, y)) = some ((op, o) ∷ os, y)

    next :
        (Pages → Option (List (Op × Outcome) × Pages))
        → Option Outcome
        → Option (List (Op × Outcome) × Pages)
    next on none = none
    next on (some o) = add o (on (pages_after o))

-- What is under each key.
abbrev pub Map : Type 0
Map = ℕ → Option (Option ℕ)

-- A map that takes the effects of the outcomes in turn, and of which every answer is true at its turn.
abbrev pub map_after : List (Op × Outcome) → Map → Map
map_after [] f = f
map_after ((op, o) ∷ rest) f = map_after rest (λ q. effect_of (promise op) o q (f q))

abbrev pub Agrees : List (Op × Outcome) → Map → Type 0
Agrees [] f = f ≡ f
Agrees ((op, o) ∷ rest) f =
    Answers (promise op) o (f (key_of op)) × Agrees rest (λ q. effect_of (promise op) o q (f q))

abbrev pub AllLawful : ℕ → ℕ → List (World × Op) → Type 0
AllLawful lo hi [] = lo ≡ lo
AllLawful lo hi ((w, op) ∷ rest) =
    IsLawful w × (inside lo hi (key_of op) ≡ true) × AllLawful lo hi rest

module _ (h root lo hi : ℕ) (hot : has_bit root 63 ≡ true) where
  pass-keeps :
      (w : World)
      → IsLawful w
      → (pages : Pages) (op : Op) → Good (suc h) pages root lo hi
      → inside lo hi (key_of op) ≡ true
      → Passes (promise op) (key_of op) h pages root lo hi (pass (suc h) w pages root op)
  unfolding pass
  pass-keeps w lawful pages (look_up k) g ok =
      tree_lookup-keeps w lawful h pages root lo hi k (g, ok) hot
  pass-keeps w lawful pages (renew k v) g ok =
      tree_update-keeps w lawful h pages root lo hi k (g, ok) hot v
  pass-keeps w lawful pages (erase k) g ok =
      tree_remove-keeps w lawful h pages root lo hi k (g, ok) hot
  pass-keeps w lawful pages (store k v) g ok =
      tree_insert-keeps w lawful h pages root lo hi k (g, ok) hot v

  -- From a map that the tree holds, on its range.
  abbrev pub Holds : Pages → Map → Type 0
  Holds pages f = (q : ℕ) → inside lo hi q ≡ true → read (suc (suc h)) pages root q ≡ f q

  -- With allocators that hand out pages which nothing names, any run of passes of the four calls, with keys
  -- in the range of a well formed tree with its root in memory, has an outcome for each pass. Its answers are those of a map that starts as what the tree holds and takes the effect of
  -- each pass that returned, and at the end the tree is well formed and holds what the map does.
  pub run-refines :
      (ops : List (World × Op)) (pages : Pages) (f : Map)
      → AllLawful lo hi ops
      → Good (suc h) pages root lo hi
      → Holds pages f
      → (os : List (Op × Outcome)) × (y : Pages) × (run (suc h) pages root ops ≡ some (os, y))
        × Agrees os f
        × Good (suc h) y root lo hi
        × Holds y (map_after os f)
  unfolding run
  run-refines [] pages f lawful g holds = ([], pages, refl, refl, g, holds)
  run-refines ((w, op) ∷ rest) pages f (lawful, ok, others) g holds =
      let (o, e, keeps) = pass-keeps w lawful pages op g ok in
      let m = promise op in
      let (os, y, s, agrees, good, held) =
        run-refines rest (pages_after o) (λ q. effect_of m o q (f q)) others keeps.turned.good
          (λ q z. keeps.turned.reads q z ∙ ap (effect_of m o q) (holds q z)) in
      (
        (op, o) ∷ os,
        y,
        rw (e, s) refl,
        (subst (Answers m o) (holds (key_of op) ok) keeps.answered, agrees),
        good,
        held,
      )
