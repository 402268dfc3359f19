-- ===== src/Trie/Descend.antt =====
-- The walk of `prefix_matches` in trie.rs along the prefix.
use flare_verifiable_rag.Prelude.{
  ℕ, ◌≡◌, refl, none, some, List, [], ◌∷◌, ◌++◌, inl, inr, Option-cases, subst, arith,
}
use flare_verifiable_rag.Trie.{TrieNode, trie_node, get_child, lookup_node, descend}
use flare_verifiable_rag.Trie.Order.{IsOrdered, entry_or_new, IsOrdered-child}

module _ {ℓ} {V : Type ℓ} where
  -- Below the node of a prefix the rest of a key is found as the whole key is from the root.
  pub lookup-descend :
      (prefix key : List ℕ) (n m : TrieNode V)
      → descend prefix n ≡ some m
      → lookup_node (prefix ++ key) n ≡ lookup_node key m
  unfolding descend lookup_node
  lookup-descend [] key n m h = cc
  lookup-descend (c ∷ prefix) key (trie_node cs old) m h = elim (Option-cases (get_child c cs)) [
    | inl e ↦ cc
    | inr (k, e) ↦ rw (e, lookup_node) (lookup-descend prefix key k m (rw (e, descend) at h))
  ]

  -- Without a node for the prefix, no key that starts with it is found.
  pub lookup-descend-none :
      (prefix key : List ℕ) (n : TrieNode V)
      → descend prefix n ≡ none
      → lookup_node (prefix ++ key) n ≡ none
  unfolding descend lookup_node
  lookup-descend-none [] key n h = cc
  lookup-descend-none (c ∷ prefix) key (trie_node cs old) h = elim (Option-cases (get_child c cs)) [
    | inl e ↦ rw (e, lookup_node) refl
    | inr (k, e) ↦ rw (e, lookup_node) (lookup-descend-none prefix key k (rw (e, descend) at h))
  ]

  pub descend-IsOrdered :
      (prefix : List ℕ) (n m : TrieNode V) → IsOrdered n → descend prefix n ≡ some m → IsOrdered m
  unfolding descend
  descend-IsOrdered [] n m o h = subst IsOrdered (ground arith) o
  descend-IsOrdered (c ∷ prefix) (trie_node cs old) m o h = elim (Option-cases (get_child c cs)) [
    | inl e ↦ absurd cc
    | inr (k, e) ↦
        descend-IsOrdered prefix k m
          (subst (λ r. IsOrdered (entry_or_new r)) e (IsOrdered-child c cs old o))
          (rw (e, descend) at h)
  ]
