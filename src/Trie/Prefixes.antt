-- ===== src/Trie/Prefixes.antt =====
-- `prefix_matches` of trie.rs: the values of the keys with the prefix, in the order of the keys.
use mathlib.Core.List.Memᴰ
use flare_verifiable_rag.Prelude.{
  ℕ, ◌≡◌, ◌↔◌, refl, sym, ap, ◌∙◌, none, some, List, [], ◌∷◌, ◌++◌, arith, map, Memᴰ, inl, inr, All,
  subst, Option-cases,
}
use flare_verifiable_rag.Trie.{TrieNode, lookup_node, descend, SymbolicTrie, lookup, prefix_matches}
use flare_verifiable_rag.Trie.Order.{IsOrdered}
use flare_verifiable_rag.Trie.Collect.{collect_values-preorder}
use flare_verifiable_rag.Trie.Entries.{Entry, entries, Before, Ascending, entries_ascend}
use flare_verifiable_rag.Trie.Members.{entries_iff, entries_values}
use flare_verifiable_rag.Trie.Descend.{lookup-descend, lookup-descend-none, descend-IsOrdered}
use flare_verifiable_rag.Trie.Laws.{IsValid}

Before-after :
    (prefix key other : List ℕ) → Before key other → Before (prefix ++ key) (prefix ++ other)
Before-after [] key other b = b
Before-after (c ∷ prefix) key other b = inr (refl, Before-after prefix key other b)

module _ {ℓ} {V : Type ℓ} where
  abbrev after : List ℕ → Entry V → Entry V
  after prefix (key, v) = (prefix ++ key, v)

  values-after :
      (prefix : List ℕ) (es : List (Entry V))
      → map (λ e. e.1) (map (after prefix) es) ≡ map (λ e. e.1) es
  values-after prefix [] = refl
  values-after prefix ((key, v) ∷ es) = ap (λ r. v ∷ r) (values-after prefix es)

  All-after :
      (prefix key : List ℕ) (es : List (Entry V))
      → All (λ e. Before key e.0) es
      → All (λ e. Before (prefix ++ key) e.0) (map (after prefix) es)
  All-after prefix key [] a = tt
  All-after prefix key ((other, v) ∷ es) (b, a) =
      (Before-after prefix key other b, All-after prefix key es a)

  Ascending-after :
      (prefix : List ℕ) (es : List (Entry V)) → Ascending es → Ascending (map (after prefix) es)
  Ascending-after prefix [] a = tt
  Ascending-after prefix ((key, v) ∷ es) (b, a) =
      (All-after prefix key es b, Ascending-after prefix es a)

  after-prefix :
      (prefix : List ℕ) (es : List (Entry V)) (key : List ℕ) (v : V)
      → Memᴰ (key, v) (map (after prefix) es)
      → (rest : List ℕ) × (key ≡ prefix ++ rest) × Memᴰ (rest, v) es
  after-prefix prefix [] key v m = absurd (Memᴰ.not-nil m)
  after-prefix prefix ((k, w) ∷ es) key v m = elim (Memᴰ.cases_cons m) [
    | inl e ↦ (k, ap (λ p. p.0) e, Memᴰ.head (ap (λ p. (k, p.1)) e))
    | inr later ↦
        let (rest, p, below) = after-prefix prefix es key v later in (rest, p, Memᴰ.tail below)
  ]

-- The entries are those of the keys with the prefix that `lookup` finds, in the order of the keys.
abbrev pub AreMatches {ℓ} : {V : Type ℓ} → List ℕ → SymbolicTrie V → List (Entry V) → Type ℓ
AreMatches {V = V} prefix t es =
    Ascending es
    × ((key : List ℕ) (v : V)
        → Memᴰ (key, v) es ↔ ((rest : List ℕ) × (key ≡ prefix ++ rest)) × (lookup key t ≡ some v))

module _ {ℓ} {V : Type ℓ} where
  matches-none :
      (prefix : List ℕ) (t : SymbolicTrie V) → descend prefix t.root ≡ none → AreMatches prefix t []
  unfolding lookup
  matches-none prefix t h = (
    tt,
    λ key v. (
      λ m. absurd (Memᴰ.not-nil m),
      λ ((rest, p), l).
          let missing = lookup-descend-none prefix rest t.root h in
          absurd (ground (arith, sym missing ∙ subst (λ k. lookup_node k t.root ≡ some v) p l)),
    ),
  )

  matches-some :
      (prefix : List ℕ) (t : SymbolicTrie V) (n : TrieNode V)
      → IsOrdered t.root
      → descend prefix t.root ≡ some n
      → AreMatches prefix t (map (after prefix) (entries n))
  unfolding lookup
  matches-some prefix t n o h =
      let below = descend-IsOrdered prefix t.root n o h in
      (
        Ascending-after prefix (entries n) (entries_ascend n below),
        λ key v. (
          λ m.
              let (rest, p, here) = after-prefix prefix (entries n) key v m in
              (
                (rest, p),
                subst (λ k. lookup_node k t.root ≡ some v) (sym p)
                    (lookup-descend prefix rest t.root n h ∙ (entries_iff n rest v below).0 here),
              ),
          λ ((rest, p), l).
              let found_it : lookup_node rest n ≡ some v =
                sym (lookup-descend prefix rest t.root n h)
                ∙ subst (λ k. lookup_node k t.root ≡ some v) p l in
              subst (λ k. Memᴰ (k, v) (map (after prefix) (entries n))) (sym p)
                (Memᴰ.map (after prefix) ((entries_iff n rest v below).1 found_it)),
        ),
      )

  -- `prefix_matches` returns the values of exactly the keys that start with the prefix and have a value,
  -- one for each key, in the order of the keys; without such a key it returns nothing.
  pub prefix_matches_correct :
      (prefix : List ℕ) (t : SymbolicTrie V)
      → IsValid t
      → (es : List (Entry V)) × (prefix_matches prefix t ≡ map (λ e. e.1) es)
        × AreMatches prefix t es
  unfolding prefix_matches
  prefix_matches_correct prefix t (o, l) = elim (Option-cases (descend prefix t.root)) [
    | inl h ↦ ([], rw (h, prefix_matches) refl, matches-none prefix t h)
    | inr (n, h) ↦ (
      map (after prefix) (entries n),
      rw (h, prefix_matches)
          (collect_values-preorder n
            ∙ sym (entries_values n)
            ∙ sym (values-after prefix (entries n))),
      matches-some prefix t n o h,
    )
  ]
