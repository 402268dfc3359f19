-- ===== src/Trie/Order.antt =====
-- The children of each node of the tree in trie.rs stand in the strict order of their characters, and
-- `insert` keeps them so.
use flare_verifiable_rag.Prelude.{
  ℕ, suc, ◌<◌, ◌≤◌, ◌≡◌, refl, Option, none, some, List, [], ◌∷◌, ◌==◌, if◌then◌else◌, arith, inl,
  inr, compare-cases, Bool-cases,
}
use flare_verifiable_rag.Trie.{
  TrieNode, Children, trie_node, nil, cons, new_node, get_child, with_entry, insert_node,
}

-- The node's children are in order, and so below; the second predicate says that also of a rest of
-- children, whose characters are `b` or more.
unfoldable mutual
  pub IsOrdered {ℓ} : {V : Type ℓ} → TrieNode V → Type 0
  IsOrdered (trie_node cs old) = IsOrderedFrom cs 0

  pub IsOrderedFrom {ℓ} : {V : Type ℓ} → Children V → ℕ → Type 0
  IsOrderedFrom nil b = Unit
  IsOrderedFrom (cons c n cs) b = (b ≤ c) × IsOrdered n × IsOrderedFrom cs (suc c)

module _ {ℓ} {V : Type ℓ} where
  pub IsOrderedFrom-weaken :
      (cs : Children V) (a b : ℕ) → a ≤ b → IsOrderedFrom cs b → IsOrderedFrom cs a
  unfolding IsOrdered
  IsOrderedFrom-weaken nil a b h o = tt
  IsOrderedFrom-weaken (cons c n cs) a b h o = (omega arith, o.1, o.2)

  -- A function that keeps nodes in order keeps children in order where it makes or changes one.
  pub with_entry-IsOrdered :
      (c : ℕ) (f : TrieNode V → TrieNode V × Option V) (cs : Children V) (b : ℕ)
      → ((n : TrieNode V) → IsOrdered n → IsOrdered (f n).0)
      → b ≤ c
      → IsOrderedFrom cs b
      → IsOrderedFrom (with_entry c f cs).0 b
  unfolding with_entry IsOrdered
  with_entry-IsOrdered c f nil b k h o = (h, k new_node tt, tt)
  with_entry-IsOrdered c f (cons d n cs) b k h (low, here, above) = elim (compare-cases c d) [
    | inl (e, l) ↦ rw (e, with_entry) (h, k new_node tt, (omega arith, here, above))
    | inr (inl (e, l)) ↦ rw (e, with_entry) (low, k n here, above)
    | inr (inr (e, l)) ↦
        rw (e, with_entry) (low, here, with_entry-IsOrdered c f cs (suc d) k (omega arith) above)
  ]

  -- `insert` keeps the children of every node in order.
  pub insert_node-IsOrdered :
      (key : List ℕ) (v : V) (n : TrieNode V) → IsOrdered n → IsOrdered (insert_node key v n).0
  unfolding insert_node IsOrdered
  insert_node-IsOrdered [] v (trie_node cs old) o = o
  insert_node-IsOrdered (c ∷ key) v (trie_node cs old) o =
      with_entry-IsOrdered c (insert_node key v) cs 0 (insert_node-IsOrdered key v) (omega arith) o

  -- A character below the bound has no child.
  pub get_child_below :
      (c : ℕ) (cs : Children V) (b : ℕ) → IsOrderedFrom cs b → c < b → get_child c cs ≡ none
  unfolding get_child IsOrdered
  get_child_below c nil b o h = refl
  get_child_below c (cons d n cs) b (low, here, above) h =
      ground (arith, get_child_below c cs (suc d) above)

  -- The child that `entry` finds or makes.
  abbrev pub entry_or_new : Option (TrieNode V) → TrieNode V
  entry_or_new none = new_node
  entry_or_new (some n) = n

  -- After `entry` the character has the changed child, and every other character what it had.
  pub get_child-with_entry :
      (c : ℕ) (f : TrieNode V → TrieNode V × Option V) (cs : Children V) (b d : ℕ)
      → IsOrderedFrom cs b
      → get_child d (with_entry c f cs).0
        ≡ (if d == c then some (f (entry_or_new (get_child c cs))).0 else get_child d cs)
  unfolding with_entry get_child IsOrdered
  get_child-with_entry c f nil b d o = refl
  get_child-with_entry c f (cons e n cs) b d (low, here, above) = elim (compare-cases c e) [
    | inl (q, l) ↦
        rw (q, with_entry, get_child, get_child_below c cs (suc e) above (omega arith))
          (ground arith)
    | inr (inl (q, l)) ↦ rw (q, with_entry, get_child) (ground arith)
    | inr (inr (q, l)) ↦
        let ih = get_child-with_entry c f cs (suc e) d above in
        rw (q, with_entry, get_child, ih) (ground arith)
  ]

  -- `entry` hands on what the change of the child returns.
  pub with_entry-result :
      (c : ℕ) (f : TrieNode V → TrieNode V × Option V) (cs : Children V) (b : ℕ)
      → IsOrderedFrom cs b
      → (with_entry c f cs).1 ≡ (f (entry_or_new (get_child c cs))).1
  unfolding with_entry get_child IsOrdered
  with_entry-result c f nil b o = refl
  with_entry-result c f (cons e n cs) b (low, here, above) = elim (compare-cases c e) [
    | inl (q, l) ↦
        rw (q, with_entry, get_child, get_child_below c cs (suc e) above (omega arith))
          (ground arith)
    | inr (inl (q, l)) ↦ rw (q, with_entry) (ground arith)
    | inr (inr (q, l)) ↦ rw (q, with_entry) (ground (arith, with_entry-result c f cs (suc e) above))
  ]

  IsOrderedFrom-child :
      (c : ℕ) (cs : Children V) (b : ℕ)
      → IsOrderedFrom cs b
      → IsOrdered (entry_or_new (get_child c cs))
  unfolding get_child IsOrdered
  IsOrderedFrom-child c nil b o = tt
  IsOrderedFrom-child c (cons d n cs) b (low, here, above) = elim (Bool-cases (c == d)) [
    | inl e ↦ rw (e, get_child) here
    | inr e ↦ rw (e, get_child) (IsOrderedFrom-child c cs (suc d) above)
  ]

  -- The child that `entry` finds or makes has its own children in order.
  pub IsOrdered-child :
      (c : ℕ) (cs : Children V) (old : Option V)
      → IsOrdered (trie_node cs old)
      → IsOrdered (entry_or_new (get_child c cs))
  unfolding IsOrdered
  IsOrdered-child c cs old o = IsOrderedFrom-child c cs 0 o
