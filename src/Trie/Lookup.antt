-- ===== src/Trie/Lookup.antt =====
-- `insert` and `lookup` of trie.rs: the tree refines a function from keys to values.
use flare_verifiable_rag.Prelude.{
  ℕ, ◌≡◌, refl, sym, ◌∙◌, Option, none, some, List, [], ◌∷◌, ◌==◌, if◌then◌else◌, arith, inl, inr,
  ◌&&◌, Bool-cases, text_eq, Option-cases,
}
use flare_verifiable_rag.Trie.{
  TrieNode, Children, trie_node, new_node, get_child, with_entry, insert_node, lookup_node,
}
use flare_verifiable_rag.Trie.Order.{
  IsOrdered, get_child-with_entry, with_entry-result, entry_or_new, IsOrdered-child,
}

module _ {ℓ} {V : Type ℓ} where
  lookup-new : (key : List ℕ) → lookup_node key (new_node {V = V}) ≡ none
  unfolding lookup_node get_child
  lookup-new [] = refl
  lookup-new (c ∷ key) = refl

  -- Looking below a child is looking below the child that `entry` would give.
  lookup-entry :
      (c : ℕ) (key : List ℕ) (cs : Children V) (old : Option V)
      → lookup_node (c ∷ key) (trie_node cs old) ≡ lookup_node key (entry_or_new (get_child c cs))
  unfolding lookup_node
  lookup-entry c key cs old = elim (Option-cases (get_child c cs)) [
    | inl e ↦ rw (e, lookup_node) (sym (lookup-new key))
    | inr (n, e) ↦ rw (e, lookup_node)
  ]

  -- `insert` returns the value that the key had.
  pub insert_node-previous :
      (key : List ℕ) (v : V) (n : TrieNode V)
      → IsOrdered n
      → (insert_node key v n).1 ≡ lookup_node key n
  unfolding insert_node IsOrdered lookup_node
  insert_node-previous [] v (trie_node cs old) o = refl
  insert_node-previous (c ∷ key) v (trie_node cs old) o =
      with_entry-result c (insert_node key v) cs 0 o
      ∙ insert_node-previous key v (entry_or_new (get_child c cs)) (IsOrdered-child c cs old o)
      ∙ sym (lookup-entry c key cs old)

  lookup-insert_below :
      (c d : ℕ) (key other : List ℕ) (v : V) (cs : Children V) (old : Option V)
      → IsOrdered (trie_node cs old)
      → lookup_node other (insert_node key v (entry_or_new (get_child c cs))).0
        ≡ (if text_eq key other then some v else lookup_node other (entry_or_new (get_child c cs)))
      → lookup_node (d ∷ other) (insert_node (c ∷ key) v (trie_node cs old)).0 ≡ (
          if c == d && text_eq key other
          then some v
          else lookup_node (d ∷ other) (trie_node cs old))
  unfolding insert_node IsOrdered
  lookup-insert_below c d key other v cs old o below =
      let f = insert_node key v in
      let child = get_child-with_entry c f cs 0 d o in
      rw (lookup-entry d other (with_entry c f cs).0 old, child, lookup-entry d other cs old)
        (elim (Bool-cases (d == c)) [
          | inl e ↦ let same : d ≡ c = ground arith in rw (e, same, below) (ground arith)
          | inr e ↦ rw e (ground arith)
        ])

  -- After `insert` the key has the value, and every other key what it had.
  pub lookup-insert_node :
      (key : List ℕ) (v : V) (n : TrieNode V) (other : List ℕ)
      → IsOrdered n
      → lookup_node other (insert_node key v n).0
        ≡ (if text_eq key other then some v else lookup_node other n)
  unfolding insert_node IsOrdered text_eq lookup_node
  lookup-insert_node [] v (trie_node cs old) [] o = refl
  lookup-insert_node [] v (trie_node cs old) (d ∷ other) o = refl
  lookup-insert_node (c ∷ key) v (trie_node cs old) [] o = refl
  lookup-insert_node (c ∷ key) v (trie_node cs old) (d ∷ other) o =
      lookup-insert_below c d key other v cs old o (
        lookup-insert_node key v (entry_or_new (get_child c cs)) other (IsOrdered-child c cs old o))
