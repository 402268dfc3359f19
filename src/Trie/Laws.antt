-- ===== src/Trie/Laws.antt =====
-- `SymbolicTrie` of trie.rs: an ordered map from keys to values, with its length.
use mathlib.Core.List.Memᴰ
use flare_verifiable_rag.Prelude.{
  length-map, ℕ, ◌+◌, ◌≡◌, ◌≢◌, ◌↔◌, refl, sym, ap, ◌∙◌, true, Option, none, some, List, arith,
  Memᴰ, inl, inr, ◌&&◌, Bool-cases, ltb, leb, subst, Option-cases, List-cases, ==_iff, text_eq,
  if◌then◌else◌, ok, err, length,
}
use flare_verifiable_rag.Trie.{
  TrieNode, lookup_node, insert_node, SymbolicTrie, new, insert, lookup, contains, count_new,
  is_empty, key_too_long, utf8_len, max_key_len,
}
use flare_verifiable_rag.Trie.Order.{IsOrdered, insert_node-IsOrdered}
use flare_verifiable_rag.Trie.Lookup.{insert_node-previous, lookup-insert_node}
use flare_verifiable_rag.Trie.Commute.{insert_node_comm}
use flare_verifiable_rag.Trie.Collect.{preorder}
use flare_verifiable_rag.Trie.Count.{found, insert_node-count}
use flare_verifiable_rag.Trie.Entries.{entries}
use flare_verifiable_rag.Trie.Members.{entries_iff, entries_values, entries-complete}

-- The children are in order, and the length is the number of entries.
abbrev pub IsValid {ℓ} : {V : Type ℓ} → SymbolicTrie V → Type 0
IsValid t = IsOrdered t.root × (t.len ≡ length (entries t.root))

pub new-IsValid {ℓ} : (V : Type ℓ) → IsValid (new {V = V})
unfolding new IsOrdered entries
new-IsValid V = (tt, refl)

module _ {ℓ} {V : Type ℓ} where
  length-entries : (n : TrieNode V) → length (entries n) ≡ length (preorder n)
  length-entries n = sym (length-map (λ e. e.1) (entries n)) ∙ ap length (entries_values n)

  count_new-found : (o : Option V) (a b : ℕ) → a + found o ≡ b + 1 → count_new o b ≡ a
  count_new-found none a b h = omega arith
  count_new-found (some v) a b h = omega arith

  insert_node-length :
      (key : List ℕ) (v : V) (n : TrieNode V)
      → length (entries (insert_node key v n).0)
        ≡ count_new (insert_node key v n).1 (length (entries n))
  insert_node-length key v n =
      rw (length-entries (insert_node key v n).0, length-entries n)
        (sym (
          count_new-found (insert_node key v n).1 (length (preorder (insert_node key v n).0))
            (length (preorder n)) (insert_node-count key v n)))

  -- `insert` keeps a tree valid, whether it takes the key or refuses it.
  pub insert-IsValid :
      (key : List ℕ) (v : V) (t : SymbolicTrie V) → IsValid t → IsValid (insert key v t).0
  unfolding insert
  insert-IsValid key v t (o, l) = elim (Bool-cases (ltb max_key_len (utf8_len key))) [
    | inl e ↦ rw e (o, l)
    | inr e ↦ rw e (
      insert_node-IsOrdered key v t.root o,
      ap (count_new (insert_node key v t.root).1) l ∙ sym (insert_node-length key v t.root),
    )
  ]

  -- `insert` refuses a key of more than 512 bytes with its length, and returns for every other key the
  -- value that `lookup` gave.
  pub insert-result :
      (key : List ℕ) (v : V) (t : SymbolicTrie V)
      → IsValid t
      → (insert key v t).1 ≡ (
          if ltb 512 (utf8_len key)
          then err (key_too_long (utf8_len key) 512)
          else ok (lookup key t))
  unfolding insert lookup
  insert-result key v t (o, l) = elim (Bool-cases (ltb max_key_len (utf8_len key))) [
    | inl e ↦ rw e refl
    | inr e ↦ rw e (ap ok (insert_node-previous key v t.root o))
  ]

  -- After `insert` of a key of at most 512 bytes the key has the new value; every other key keeps what
  -- it had, and a longer key changes nothing.
  pub lookup-insert :
      (key other : List ℕ) (v : V) (t : SymbolicTrie V)
      → IsValid t
      → lookup other (insert key v t).0
        ≡ (if leb (utf8_len key) 512 && text_eq key other then some v else lookup other t)
  unfolding insert lookup
  lookup-insert key other v t (o, l) = elim (Bool-cases (ltb max_key_len (utf8_len key))) [
    | inl e ↦ rw e (ground arith)
    | inr e ↦ rw e (lookup-insert_node key v t.root other o ∙ ground arith)
  ]

  insert-root :
      (key : List ℕ) (v : V) (t : SymbolicTrie V)
      → (insert key v t).0.root
        ≡ (if ltb max_key_len (utf8_len key) then t.root else (insert_node key v t.root).0)
  unfolding insert
  insert-root key v t = elim (Bool-cases (ltb max_key_len (utf8_len key))) [
    | inl e ↦ rw e refl
    | inr e ↦ rw e refl
  ]

  insert-roots_comm :
      (key other : List ℕ) (v w : V) (t : SymbolicTrie V)
      → key ≢ other
      → (insert key v (insert other w t).0).0.root ≡ (insert other w (insert key v t).0).0.root
  insert-roots_comm key other v w t h =
      rw
        (
          insert-root key v (insert other w t).0,
          insert-root other w (insert key v t).0,
          insert-root key v t,
          insert-root other w t,
        )
        (elim (Bool-cases (ltb max_key_len (utf8_len key))) [
          | inl e ↦ rw e refl
          | inr e ↦ rw e (elim (Bool-cases (ltb max_key_len (utf8_len other))) [
            | inl e' ↦ rw e' refl
            | inr e' ↦ rw e' (insert_node_comm key other v w t.root h)
          ])
        ])

  trie_ext : (s t : SymbolicTrie V) → s.root ≡ t.root → s.len ≡ t.len → s ≡ t
  trie_ext s t p q = λ i. record { root = p i; len = q i }

  IsValid-ext : (s t : SymbolicTrie V) → IsValid s → IsValid t → s.root ≡ t.root → s ≡ t
  IsValid-ext s t (o, l) (o', l') p = trie_ext s t p (l ∙ ap (λ n. length (entries n)) p ∙ sym l')

  -- Two insertions under different keys can be exchanged: the two trees are equal, lengths included.
  pub insert_comm :
      (key other : List ℕ) (v w : V) (t : SymbolicTrie V)
      → IsValid t
      → key ≢ other
      → (insert key v (insert other w t).0).0 ≡ (insert other w (insert key v t).0).0
  insert_comm key other v w t valid h =
      IsValid-ext (insert key v (insert other w t).0).0 (insert other w (insert key v t).0).0
        (insert-IsValid key v (insert other w t).0 (insert-IsValid other w t valid))
        (insert-IsValid other w (insert key v t).0 (insert-IsValid key v t valid))
        (insert-roots_comm key other v w t h)

  -- `contains` says whether `lookup` finds a value, and an empty tree has none.
  pub contains_iff :
      (key : List ℕ) (t : SymbolicTrie V)
      → (contains key t ≡ true) ↔ ((v : V) × (lookup key t ≡ some v))
  unfolding contains
  contains_iff key t = elim (Option-cases (lookup key t)) [
    | inl e ↦ rw e (λ h. absurd cc, λ (v, h). absurd cc)
    | inr (v, e) ↦ rw e (λ h. (v, refl), λ h. refl)
  ]

  empty-lookup :
      (n : TrieNode V) → length (entries n) ≡ 0 → (key : List ℕ) → lookup_node key n ≡ none
  empty-lookup n l key = elim (List-cases (entries n)) [
    | inr (e, rest, q) ↦ absurd (ground (arith, sym l ∙ ap length q))
    | inl q ↦ elim (Option-cases (lookup_node key n)) [
      | inl none_found ↦ none_found
      | inr (v, h) ↦
          absurd (Memᴰ.not-nil (subst (λ es. Memᴰ (key, v) es) q (entries-complete n key v h)))
    ]
  ]

  lookup-empty :
      (n : TrieNode V)
      → IsOrdered n
      → ((key : List ℕ) → lookup_node key n ≡ none)
      → length (entries n) ≡ 0
  lookup-empty n o h = elim (List-cases (entries n)) [
    | inl q ↦ ap length q
    | inr ((key, v), rest, q) ↦
        let here : Memᴰ (key, v) (entries n) =
          subst (λ es. Memᴰ (key, v) es) (sym q) (Memᴰ.head refl) in
        let found_it = (entries_iff n key v o).0 here in
        absurd (ground (arith, sym (h key) ∙ found_it))
  ]

  -- A tree says that it is empty exactly if no key has a value.
  pub is_empty_iff :
      (t : SymbolicTrie V)
      → IsValid t
      → (is_empty t ≡ true) ↔ ((key : List ℕ) → lookup key t ≡ none)
  unfolding is_empty lookup
  is_empty_iff t (o, l) = (
    λ e. empty-lookup t.root (sym l ∙ (==_iff t.len 0).0 e),
    λ h. (==_iff t.len 0).1 (l ∙ lookup-empty t.root o h),
  )

  -- On a valid tree `insert` keeps the tree valid; it refuses a key of more than 512 bytes with its
  -- length and changes no lookup, and for every other key it returns the value that `lookup` gave, the
  -- key has the new value and all other keys keep what they had.
  pub insert_correct :
      (key : List ℕ) (v : V) (t : SymbolicTrie V)
      → IsValid t
      → IsValid (insert key v t).0
        × ((insert key v t).1 ≡ (
            if ltb 512 (utf8_len key)
            then err (key_too_long (utf8_len key) 512)
            else ok (lookup key t)))
        × ((other : List ℕ)
            → lookup other (insert key v t).0
              ≡ (if leb (utf8_len key) 512 && text_eq key other then some v else lookup other t))
  insert_correct key v t valid = (
    insert-IsValid key v t valid,
    insert-result key v t valid,
    λ other. lookup-insert key other v t valid,
  )
