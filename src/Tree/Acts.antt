-- ===== src/Tree/Acts.antt =====
-- The acts on a leaf that has the key in its range keep the promises of the calls.
use dex_partial.Base.{
  ℕ, ◌<◌, ◌≡◌, ◌≢◌, ◌⊎◌, ◌↔◌, inl, inr, refl, ap, ◌∙◌, arith, Bool, true, false, not, ◌==◌,
  if◌then◌else◌, Option, none, some,
}
use dex_partial.BTree.Node.{range_valid}
use dex_partial.BTree.Leaf
use dex_partial.BTree.Leaf.{Leaf, max_entries, find}
use dex_partial.BTree.Leaf.Lookup
use dex_partial.BTree.Leaf.Insert.{find-insert, insert-IsValid, insert-true_iff}
use dex_partial.BTree.Leaf.Remove.{find-remove, remove-IsValid, update_cases}
use dex_partial.Tree.Leaves.{Becomes}
use dex_partial.Tree.Handlers.{Becomes-refl}
use dex_partial.Tree.Answers.{
  ActKeeps, put_at, held, lookup_promise, update_promise, remove_promise, insert_promise,
}
use dex_partial.Tree.Passes.{found_in, do_lookup, do_update, do_remove, do_insert}

some_if : (b : Bool) (u v : Option ℕ) → some (if b then u else v) ≡ (if b then some u else some v)
some_if true u v = refl
some_if false u v = refl

flag_held : (s : Bool) (o : Option ℕ) → ((s ≡ true) ↔ (o ≢ none)) → s ≡ held o
flag_held true none (f, g) = absurd (f refl refl)
flag_held true (some v) (f, g) = refl
flag_held false none (f, g) = refl
flag_held false (some v) (f, g) = g (λ e. absurd (cc e))

flag_fresh : (s : Bool) (o : Option ℕ) → ((s ≡ true) ↔ (o ≡ none)) → s ≡ not (held o)
flag_fresh s none (f, g) = g refl
flag_fresh true (some v) (f, g) = absurd (cc (f refl))
flag_fresh false (some v) (f, g) = refl

held_of : (o : Option ℕ) → o ≢ none → true ≡ held o
held_of none f = absurd (f refl)
held_of (some v) f = refl

pub lookup_act : (k : ℕ) (l : Leaf ℕ) → Lookup.IsValid l → ActKeeps lookup_promise (do_lookup k) k l
lookup_act k l valid = record {
  becomes = Becomes-refl l valid;
  answer = (held_same (find l k), refl);
}
  where
    held_same : (o : Option ℕ) → found_in o ≡ held o
    held_same none = refl
    held_same (some v) = refl

pub remove_act :
    (k : ℕ) (l : Leaf ℕ) → Lookup.IsValid l → ActKeeps (remove_promise k) (do_remove k) k l
unfolding Leaf.remove
remove_act k l valid =
    let (finds, flag) = find-remove l valid k in
    record {
      becomes = record {
        valid = remove-IsValid l valid k;
        min_limit = ground arith;
        max_limit = ground arith;
        level = ground arith;
        home = ground arith;
        finds = λ q. ap some (finds q) ∙ some_if (q == k) none (find l q);
      };
      answer = flag_held (Leaf.remove l k).1 (find l k) flag;
    }

module _ (k v : ℕ) (l : Leaf ℕ) (valid : Lookup.IsValid l)
    (range : range_valid l.base k ≡ true) where
  insert-Becomes :
      (find l k ≢ none) ⊎ (l.base.count < max_entries)
      → Becomes (put_at k (some v)) l (Leaf.insert l k v).0
  unfolding Leaf.insert
  insert-Becomes fits = record {
    valid = insert-IsValid l valid k v range;
    min_limit = ground arith;
    max_limit = ground arith;
    level = ground arith;
    home = ground arith;
    finds = λ q. ap some (find-insert l valid k v fits q) ∙ some_if (q == k) (some v) (find l q);
  }

  pub insert_act :
      (l.base.count == max_entries) ≡ false → ActKeeps (insert_promise k v) (do_insert k v) k l
  insert_act free =
      let room : l.base.count < max_entries = ground (arith, free, valid.few) in
      let (f, g) = insert-true_iff l valid k v in
      record {
        becomes = insert-Becomes (inr room);
        answer = flag_fresh (Leaf.insert l k v).1 (find l k) ((λ e. (f e).0), λ e. g (e, room));
      }

  pub update_act : ActKeeps (update_promise k v) (do_update k v) k l
  update_act = elim (update_cases l valid k v) [
    | inl (there, e) ↦ record {
      becomes = rw e (insert-Becomes (inl there));
      answer = rw e (held_of (find l k) there);
    }
    | inr (gone, e) ↦ record { becomes = rw e (Becomes-refl l valid); answer = rw (e, gone) refl }
  ]
