-- ===== src/Rpc/Changes.antt =====
-- What the calls change, as the later lookups see it.
use dex_partial.Base.{
  ℕ, ◌≡◌, ◌≢◌, ◌<◌, refl, ap, sym, ◌∙◌, arith, true, false, ◌==◌, if◌then◌else◌, Option, none, some,
  write, Bool-cases, Option-cases, inl, inr, ◌⊎◌,
}
use dex_partial.BTree.Node.{range_valid}
use dex_partial.BTree.Leaf
use dex_partial.BTree.Leaf.{Leaf, max_entries, find, hits, keys}
use dex_partial.BTree.Leaf.Lookup.{IsValid, find_at, find_cases, find_absent}
use dex_partial.BTree.Leaf.Writes.{overwritten-find}
use dex_partial.BTree.Leaf.Insert.{find-insert, insert-true_iff}
use dex_partial.BTree.Leaf.Remove.{find-remove}
use dex_partial.Allocators.Address.{GlobalAddress}
use dex_partial.Rpc.{
  leaf, Memory, Arrival, away, arrived, walk, value, nothing, of_find, Found, lookup_at, lookup,
  Outcome, Code, minus_one, code_1, code_2, at_remote, update_at, update, insert_at, insert,
  remove_at, remove,
}
use dex_partial.Rpc.Walk.{walk-arrived, walk-write}

insert_limits :
    (l : Leaf ℕ) (k v q : ℕ) → range_valid (Leaf.insert l k v).0.base q ≡ range_valid l.base q
unfolding Leaf.insert range_valid
insert_limits l k v q = ground arith

remove_limits :
    (l : Leaf ℕ) (k q : ℕ) → range_valid (Leaf.remove l k).0.base q ≡ range_valid l.base q
unfolding Leaf.remove range_valid
remove_limits l k q = ground arith

Walk-cases :
    (w : Option Arrival)
    → (w ≡ none)
      ⊎ ((node : GlobalAddress) × (w ≡ some (away node)))
      ⊎ ((p : ℕ) × (m : Leaf ℕ) × (w ≡ some (arrived p m)))
Walk-cases none = inl refl
Walk-cases (some (away node)) = inr (inl (node, refl))
Walk-cases (some (arrived p m)) = inr (inr (p, m, refl))

leaf-injective : (a b : Leaf ℕ) → leaf a ≡ leaf b → a ≡ b
leaf-injective a b e = cc e

-- One code where the leaf does not have the key, another where it has.
abbrev pub code_by : Code → Code → Option ℕ → Code
code_by new old none = new
code_by new old (some v) = old

module _ (fuel : ℕ) (memory : Memory) (root : GlobalAddress) (k o : ℕ) (l : Leaf ℕ)
    (reached : walk fuel memory root.node_id k root.offset ≡ some (arrived o l))
    (own : range_valid l.base k ≡ true) where
  -- A leaf that reads the same but for the key.
  lookup-write :
      (l_next : Leaf ℕ) (got : Option ℕ)
      → ((q : ℕ) → find l_next q ≡ (if q == k then got else find l q))
      → ((q : ℕ) → range_valid l_next.base q ≡ range_valid l.base q)
      → (q : ℕ)
      → lookup fuel (write memory o (leaf l_next)) root q
        ≡ (if q == k then some (of_find got) else lookup fuel memory root q)
  unfolding lookup lookup_at
  lookup-write l_next got f r q =
      let held = walk-arrived fuel memory root.node_id k root.offset o l reached in
      let moved = walk-write fuel memory root.node_id q root.offset o l l_next held in
      elim (Bool-cases (q == k)) [
        | inl e ↦
            let same : q ≡ k = ground (arith, e) in
            let there : walk fuel (write memory o (leaf l_next)) root.node_id q root.offset
                ≡ some (arrived o l_next) =
              ground (arith, moved, reached, same) in
            let self : (k == k) ≡ true = ground arith in rw (there, e, r q, f q, same, own, self)
        | inr e ↦ elim (Walk-cases (walk fuel memory root.node_id q root.offset)) [
          | inl w ↦ rw (moved, w, e)
          | inr (inl (node, w)) ↦ rw (moved, w, e)
          | inr (inr (p, m, w)) ↦
              let there = walk-arrived fuel memory root.node_id q root.offset p m w in
              elim (Bool-cases (p == o)) [
                | inl a ↦
                    let place : p ≡ o = ground (arith, a) in
                    let m_is : m ≡ l = leaf-injective m l (sym there ∙ ap memory place ∙ held) in
                    rw (moved, w, a, e, r q, f q, e, m_is)
                | inr a ↦ rw (moved, w, a, e)
              ]
        ]
      ]

  -- A call that ends with the code and with the address of the leaf, after which a lookup of any key from the same
  -- root answers as before, but for the key itself.
  pub record Done (code : Code) (got : Found) (result : Option Outcome) : Type 0 where
    pub r : Outcome
    pub ends : result ≡ some r
    pub code_is : r.0 ≡ code
    pub home : r.1 ≡ at_remote l
    pub reads :
        (q : ℕ) → lookup fuel r.2 root q ≡ (if q == k then some got else lookup fuel memory root q)

  module _ (valid : IsValid l) (v : ℕ) where
    insert_code :
        l.base.count < max_entries
        → (if (Leaf.insert l k v).1 then code_1 else code_2) ≡ code_by code_1 code_2 (find l k)
    insert_code room = elim (Option-cases (find l k)) [
      | inl e ↦ let f = (insert-true_iff l valid k v).1 (e, room) in rw (f, e) refl
      | inr (x, e) ↦ elim (Bool-cases (Leaf.insert l k v).1) [
        | inr f ↦ rw (f, e) refl
        | inl f ↦ let (absent, _) = (insert-true_iff l valid k v).0 f in absurd (cc (absent, e))
      ]
    ]

    remove_code :
        (if (Leaf.remove l k).1 then code_1 else code_2) ≡ code_by code_2 code_1 (find l k)
    remove_code = elim (Option-cases (find l k)) [
      | inr (x, e) ↦ let f = (find-remove l valid k).1.1 (λ z. cc (z, e)) in rw (f, e) refl
      | inl e ↦ elim (Bool-cases (Leaf.remove l k).1) [
        | inr f ↦ rw (f, e) refl
        | inl f ↦ absurd ((find-remove l valid k).1.0 f e)
      ]
    ]

    -- Where the walk for a key ends at a well formed leaf that has the key in its range: insert with
    -- room ends with code 1 for a new key and 2 for one that the leaf has, remove with 1 for a key
    -- that the leaf has and 2 otherwise, update of a key that the leaf has with 1; these hand out
    -- the address of the leaf, and after each a lookup of any key from the same root answers as
    -- before, but for the key itself, which has the new value or none. update of a key that the leaf
    -- does not have ends with 2, and insert into a full leaf with -1, with root and memory as they
    -- were.
    pub lookup-calls :
        (l.base.count < max_entries
          → Done (code_by code_1 code_2 (find l k)) (value v) (insert fuel memory root k v))
        × Done (code_by code_2 code_1 (find l k)) nothing (remove fuel memory root k)
        × (find l k ≢ none → Done code_1 (value v) (update fuel memory root k v))
        × (find l k ≡ none → update fuel memory root k v ≡ some (code_2, root, memory))
        × (l.base.count ≡ max_entries
            → insert fuel memory root k v ≡ some (minus_one, root, memory))
    unfolding insert insert_at remove remove_at update update_at find
    lookup-calls = (
      λ room.
          let full : (l.base.count == max_entries) ≡ false = ground (arith, room) in
          record {
            r = (
              if (Leaf.insert l k v).1 then code_1 else code_2,
              at_remote l,
              write memory o (leaf (Leaf.insert l k v).0),
            );
            ends = rw (reached, own, full) refl;
            code_is = insert_code room;
            home = refl;
            reads =
                lookup-write (Leaf.insert l k v).0 (some v) (find-insert l valid k v (inr room))
                  (insert_limits l k v);
          },
      record {
        r = (
          if (Leaf.remove l k).1 then code_1 else code_2,
          at_remote l,
          write memory o (leaf (Leaf.remove l k).0),
        );
        ends = rw (reached, own) refl;
        code_is = remove_code;
        home = refl;
        reads = lookup-write (Leaf.remove l k).0 none (find-remove l valid k).0 (remove_limits l k);
      },
      λ there. elim (find_cases l valid.sorted valid.few k) [
        | inr (_, absent) ↦ absurd (there (find_absent l valid.sorted valid.few k absent))
        | inl (i, h, e, p) ↦
            let hit : hits l k i ≡ true = ground (arith, h, e) in
            let next : Leaf ℕ = record l { entries = write l.entries i (k, v) } in
            record {
              r = (code_1, at_remote l, write memory o (leaf next));
              ends = rw (reached, own, p, hit, e) refl;
              code_is = refl;
              home = refl;
              reads = lookup-write next (some v) (overwritten-find l valid k v i h e) (λ q. refl);
            }
      ],
      λ missing. elim (find_cases l valid.sorted valid.few k) [
        | inr (miss, _) ↦ rw (reached, own, miss) refl
        | inl (i, h, e, p) ↦ absurd (cc (missing, find_at l valid.sorted valid.few i k h e))
      ],
      λ full.
          let z : (l.base.count == max_entries) ≡ true = ground (arith, full) in
          rw (reached, own, z) refl,
    )
