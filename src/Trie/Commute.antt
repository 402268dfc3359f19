-- ===== src/Trie/Commute.antt =====
-- The order of two insertions of different keys leaves no trace in the tree of trie.rs.
use flare_verifiable_rag.Prelude.{
  ℕ, ◌≡◌, ◌≢◌, refl, sym, ap, ◌∙◌, Option, List, [], ◌∷◌, ◌==◌, arith, inl, inr, Bool-cases, subst,
  compare-cases,
}
use flare_verifiable_rag.Trie.{
  TrieNode, Children, trie_node, nil, cons, new_node, with_entry, insert_node,
}

module _ {ℓ} {V : Type ℓ} where
  -- Only the node that a change gives shows in the children.
  with_entry-cong :
      (c : ℕ) (f g : TrieNode V → TrieNode V × Option V) (cs : Children V)
      → ((n : TrieNode V) → (f n).0 ≡ (g n).0)
      → (with_entry c f cs).0 ≡ (with_entry c g cs).0
  unfolding with_entry
  with_entry-cong c f g nil h = rw (h new_node)
  with_entry-cong c f g (cons e n cs) h = elim (compare-cases c e) [
    | inl (q, l) ↦ rw (q, with_entry, h new_node)
    | inr (inl (q, l)) ↦ rw (q, with_entry, h n)
    | inr (inr (q, l)) ↦ rw (q, with_entry, with_entry-cong c f g cs h)
  ]

  -- Two changes of one entry are one change.
  with_entry-twice :
      (c : ℕ) (f g : TrieNode V → TrieNode V × Option V) (cs : Children V)
      → (with_entry c f (with_entry c g cs).0).0 ≡ (with_entry c (λ n. f (g n).0) cs).0
  unfolding with_entry
  with_entry-twice c f g nil = ground arith
  with_entry-twice c f g (cons e n cs) = elim (compare-cases c e) [
    | inl (q, l) ↦ rw (q, with_entry) (ground arith)
    | inr (inl (q, l)) ↦ rw (q, with_entry) (ground arith)
    | inr (inr (q, l)) ↦ rw (q, with_entry) (ground (arith, with_entry-twice c f g cs))
  ]

  -- Changes of two entries can be made in either order.
  with_entry-swap :
      (c d : ℕ) (f g : TrieNode V → TrieNode V × Option V) (cs : Children V)
      → c ≢ d
      → (with_entry c f (with_entry d g cs).0).0 ≡ (with_entry d g (with_entry c f cs).0).0
  unfolding with_entry
  with_entry-swap c d f g nil h = ground arith
  with_entry-swap c d f g (cons e n cs) h = ground (arith, with_entry-swap c d f g cs h)

  with_entry-same :
      (c d : ℕ) (f g : TrieNode V → TrieNode V × Option V) (cs : Children V)
      → c ≡ d
      → ((n : TrieNode V) → (f (g n).0).0 ≡ (g (f n).0).0)
      → (with_entry c f (with_entry d g cs).0).0 ≡ (with_entry d g (with_entry c f cs).0).0
  with_entry-same c d f g cs p h =
      subst
        (λ e. (with_entry c f (with_entry e g cs).0).0 ≡ (with_entry e g (with_entry c f cs).0).0) p
        (with_entry-twice c f g cs ∙ with_entry-cong c _ _ cs h ∙ sym (with_entry-twice c g f cs))

  -- Two different keys can be inserted in either order: the trees are the same.
  pub insert_node_comm :
      (key other : List ℕ) (v w : V) (n : TrieNode V)
      → key ≢ other
      → (insert_node key v (insert_node other w n).0).0
        ≡ (insert_node other w (insert_node key v n).0).0
  unfolding insert_node
  insert_node_comm [] [] v w n h = absurd (h refl)
  insert_node_comm [] (d ∷ other) v w (trie_node cs old) h = refl
  insert_node_comm (c ∷ key) [] v w (trie_node cs old) h = refl
  insert_node_comm (c ∷ key) (d ∷ other) v w (trie_node cs old) h = elim (Bool-cases (c == d)) [
    | inl e ↦
        let same : c ≡ d = ground arith in
        ap (λ r. trie_node r old)
          (with_entry-same c d (insert_node key v) (insert_node other w) cs same
            (λ n. insert_node_comm key other v w n (λ rest. h (ground arith))))
    | inr e ↦
        ap (λ r. trie_node r old)
          (with_entry-swap c d (insert_node key v) (insert_node other w) cs (ground arith))
  ]
