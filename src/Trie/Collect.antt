-- ===== src/Trie/Collect.antt =====
-- `collect_values` of trie.rs ends, and returns the values of the tree from the smallest key to the
-- greatest: the loop over a stack is the recursive walk.
use flare_verifiable_rag.Prelude.{
  ℕ, zero, suc, ◌+◌, ◌≤◌, ◌≡◌, refl, sym, ap, ◌∙◌, Option, none, some, List, [], ◌∷◌, ◌++◌, arith,
  append-nil, append_assoc, reverse, map, concat, concat-append,
}
use mathlib.Core.List.{map-append}
use mathlib.Core.List.{reverse_aux}
use flare_verifiable_rag.Trie.{
  TrieNode, Children, trie_node, nil, cons, child_list, push_each, push_value, collect_loop,
  node_count, node_counts, collect_values,
}

abbrev pub to_list {ℓ} : {V : Type ℓ} → Option V → List V
to_list none = []
to_list (some v) = v ∷ []

-- A key comes before all keys that it is a prefix of, and these come in the order of the next
-- character.
unfoldable mutual
  pub preorder {ℓ} : {V : Type ℓ} → TrieNode V → List V
  preorder (trie_node cs old) = to_list old ++ preorders cs

  pub preorders {ℓ} : {V : Type ℓ} → Children V → List V
  preorders nil = []
  preorders (cons c n cs) = preorder n ++ preorders cs

module _ {ℓ} {V : Type ℓ} where
  push_each-reverse_aux :
      (xs ys stack : List (TrieNode V))
      → push_each (reverse_aux xs ys) stack ≡ push_each ys (xs ++ stack)
  unfolding push_each
  push_each-reverse_aux [] ys stack = refl
  push_each-reverse_aux (x ∷ xs) ys stack = push_each-reverse_aux xs (x ∷ ys) stack

  -- The children are pushed so that the first of them is on top.
  push_each-reverse : (xs stack : List (TrieNode V)) → push_each (reverse xs) stack ≡ xs ++ stack
  unfolding push_each
  push_each-reverse xs stack = push_each-reverse_aux xs [] stack

  stack_count : List (TrieNode V) → ℕ
  stack_count [] = 0
  stack_count (n ∷ stack) = node_count n + stack_count stack

  stack_single : (n : TrieNode V) → stack_count (n ∷ []) ≤ node_count n
  unfolding stack_count
  stack_single n = omega arith

  stack_count-children :
      (cs : Children V) (stack : List (TrieNode V))
      → stack_count (child_list cs ++ stack) ≡ node_counts cs + stack_count stack
  unfolding stack_count node_count
  stack_count-children nil stack = omega arith
  stack_count-children (cons c n cs) stack = omega (arith, stack_count-children cs stack)

  preorders-children : (cs : Children V) → concat (map preorder (child_list cs)) ≡ preorders cs
  unfolding preorder
  preorders-children nil = refl
  preorders-children (cons c n cs) = ap (λ r. preorder n ++ r) (preorders-children cs)

  preorders-stack :
      (cs : Children V) (stack : List (TrieNode V))
      → concat (map preorder (child_list cs ++ stack)) ≡ preorders cs ++ concat (map preorder stack)
  preorders-stack cs stack =
      ap concat (map-append preorder (child_list cs) stack)
      ∙ concat-append (map preorder (child_list cs)) (map preorder stack)
      ∙ ap (λ r. r ++ concat (map preorder stack)) (preorders-children cs)

  preorder-step :
      (cs : Children V) (old : Option V) (stack : List (TrieNode V)) (out : List V)
      → push_value old out ++ concat (map preorder (child_list cs ++ stack))
        ≡ out ++ (preorder (trie_node cs old) ++ concat (map preorder stack))
  unfolding preorder
  preorder-step cs none stack out = ap (λ r. out ++ r) (preorders-stack cs stack)
  preorder-step cs (some v) stack out =
      append_assoc out (v ∷ []) _ ∙ ap (λ r. out ++ v ∷ r) (preorders-stack cs stack)

  collect_loop-preorder :
      (fuel : ℕ) (stack : List (TrieNode V)) (out : List V)
      → stack_count stack ≤ fuel
      → collect_loop fuel stack out ≡ some (out ++ concat (map preorder stack))
  unfolding collect_loop stack_count node_count
  collect_loop-preorder fuel [] out h = ap some (sym (append-nil out))
  collect_loop-preorder zero (trie_node cs old ∷ stack) out h = absurd (omega arith)
  collect_loop-preorder (suc fuel) (trie_node cs old ∷ stack) out h =
      ap (λ r. collect_loop fuel r (push_value old out)) (push_each-reverse (child_list cs) stack)
      ∙ collect_loop-preorder fuel (child_list cs ++ stack) (push_value old out)
          (omega (arith, stack_count-children cs stack))
      ∙ ap some (preorder-step cs old stack out)

  -- With the number of nodes for fuel the loop ends, with what `collect_values` returns.
  pub collect_terminates :
      (n : TrieNode V) → collect_loop (node_count n) (n ∷ []) [] ≡ some (collect_values n)
  unfolding collect_values
  collect_terminates n = rw (collect_loop-preorder (node_count n) (n ∷ []) [] (stack_single n))

  -- `collect_values` is the recursive walk.
  pub collect_values-preorder : (n : TrieNode V) → collect_values n ≡ preorder n
  unfolding collect_values
  collect_values-preorder n =
      rw (collect_loop-preorder (node_count n) (n ∷ []) [] (stack_single n))
        (append-nil (preorder n))
