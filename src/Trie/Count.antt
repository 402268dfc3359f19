-- ===== src/Trie/Count.antt =====
-- `len` of trie.rs counts the stored keys.
use flare_verifiable_rag.Prelude.{
  ℕ, ◌+◌, ◌≡◌, Option, none, some, List, [], ◌∷◌, ◌++◌, arith, length, length-append, compare-cases,
  inl, inr,
}
use flare_verifiable_rag.Trie.{
  TrieNode, Children, trie_node, nil, cons, new_node, with_entry, insert_node,
}
use flare_verifiable_rag.Trie.Collect.{preorder, preorders, to_list}

-- 1 if there was a value, so that one equation states both cases.
abbrev pub found {ℓ} : {V : Type ℓ} → Option V → ℕ
found none = 0
found (some v) = 1

module _ {ℓ} {V : Type ℓ} where
  abbrev Counts : (TrieNode V → TrieNode V × Option V) → Type ℓ
  Counts f = (n : TrieNode V) → length (preorder (f n).0) + found (f n).1 ≡ length (preorder n) + 1

  with_entry-count :
      (c : ℕ) (f : TrieNode V → TrieNode V × Option V) (cs : Children V)
      → Counts f
      → length (preorders (with_entry c f cs).0) + found (with_entry c f cs).1
        ≡ length (preorders cs) + 1
  unfolding with_entry preorder
  with_entry-count c f nil h = omega (arith, h new_node, length-append (preorder (f new_node).0) [])
  with_entry-count c f (cons d n cs) h = elim (compare-cases c d) [
    | inl (q, l) ↦
        rw (q, with_entry)
          (omega (
            arith,
            h new_node,
            length-append (preorder (f new_node).0) (preorder n ++ preorders cs),
          ))
    | inr (inl (q, l)) ↦
        rw (q, with_entry)
          (omega (
            arith,
            h n,
            length-append (preorder (f n).0) (preorders cs),
            length-append (preorder n) (preorders cs),
          ))
    | inr (inr (q, l)) ↦
        rw (q, with_entry)
          (omega (
            arith,
            with_entry-count c f cs h,
            length-append (preorder n) (preorders (with_entry c f cs).0),
            length-append (preorder n) (preorders cs),
          ))
  ]

  -- A new key adds one value, and a known key none.
  pub insert_node-count : (key : List ℕ) (v : V) → Counts (insert_node key v)
  unfolding insert_node preorder
  insert_node-count [] v (trie_node cs none) = omega arith
  insert_node-count [] v (trie_node cs (some old)) = omega arith
  insert_node-count (c ∷ key) v (trie_node cs old) = omega (
    arith,
    with_entry-count c (insert_node key v) cs (insert_node-count key v),
    length-append (to_list old) (preorders cs),
    length-append (to_list old) (preorders (with_entry c (insert_node key v) cs).0),
  )
