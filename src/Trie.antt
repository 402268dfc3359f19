-- ===== src/Trie.antt =====
-- The prefix tree of enclave/src/rag_engine/src/trie.rs. A key is the list of its characters, as code
-- points. The `BTreeMap` of a node's children is the list of its entries in the order of the
-- characters, which `entry` keeps.
pub mod Order
pub mod Lookup
pub mod Commute
pub mod Collect
pub mod Count
pub mod Entries
pub mod Members
pub mod Descend
pub mod Laws
pub mod Prefixes
mod Examples
use flare_verifiable_rag.Prelude.{
  ℕ, zero, suc, ◌+◌, Bool, true, false, Option, none, some, List, [], ◌∷◌, ◌++◌, reverse, ltb, ◌==◌,
  if◌then◌else◌, Result, ok, err,
}
use Prim.Native.Nat.{compare}
use Prim.Native.Nat.Ordering.{lt, eq, gt}

mutual
  pub data TrieNode {ℓ} (V : Type ℓ) : Type ℓ where
    trie_node : Children V → Option V → TrieNode V

  pub data Children {ℓ} (V : Type ℓ) : Type ℓ where
    nil : Children V
    cons : ℕ → TrieNode V → Children V → Children V

abbrev pub max_key_len : ℕ
max_key_len = 512

pub data TrieError : Type 0 where
  key_too_long : ℕ → ℕ → TrieError

-- The number of bytes of a text in UTF-8, which is what `str::len` counts.
unfoldable pub utf8_len : List ℕ → ℕ
utf8_len [] = 0
utf8_len (c ∷ key) =
    (if ltb c 0x80 then 1 else if ltb c 0x800 then 2 else if ltb c 0x10000 then 3 else 4)
    + utf8_len key

module _ {ℓ} {V : Type ℓ} where
  -- `TrieNode::new`
  abbrev pub new_node : TrieNode V
  new_node = trie_node nil none

  -- `children.get(&ch)`
  unfoldable pub get_child : ℕ → Children V → Option (TrieNode V)
  get_child c nil = none
  get_child c (cons d n cs) = if c == d then some n else get_child c cs

  -- `children.entry(ch).or_insert_with(TrieNode::new)`, and what is then done to the entry.
  unfoldable pub with_entry :
      ℕ → (TrieNode V → TrieNode V × Option V) → Children V → Children V × Option V
  with_entry c f nil = let (n', r) = f new_node in (cons c n' nil, r)
  with_entry c f (cons d n cs) = elim (compare c d) [
    | lt ↦ (let (n', r) = f new_node in (cons c n' (cons d n cs), r))
    | eq ↦ (let (n', r) = f n in (cons d n' cs, r))
    | gt ↦ (let (cs', r) = with_entry c f cs in (cons d n cs', r))
  ]

  -- The walk of `insert` along the key and the `replace` at its end: the new node, and the value that
  -- was there.
  unfoldable pub insert_node : List ℕ → V → TrieNode V → TrieNode V × Option V
  unfolding with_entry
  insert_node [] v (trie_node cs old) = (trie_node cs (some v), old)
  insert_node (c ∷ key) v (trie_node cs old) =
      let (cs', r) = with_entry c (insert_node key v) cs in (trie_node cs' old, r)

  -- The walk of `lookup`.
  unfoldable pub lookup_node : List ℕ → TrieNode V → Option V
  unfolding get_child
  lookup_node [] (trie_node cs old) = old
  lookup_node (c ∷ key) (trie_node cs old) = elim (get_child c cs) [
    | none ↦ none
    | some n ↦ lookup_node key n
  ]

  abbrev pub child_list : Children V → List (TrieNode V)
  child_list nil = []
  child_list (cons c n cs) = n ∷ child_list cs

  -- Pushes the nodes one after the other; the top of the stack is the head of the list.
  unfoldable pub push_each : List (TrieNode V) → List (TrieNode V) → List (TrieNode V)
  push_each [] stack = stack
  push_each (n ∷ ns) stack = push_each ns (n ∷ stack)

  abbrev pub push_value : Option V → List V → List V
  push_value none out = out
  push_value (some v) out = out ++ v ∷ []

  -- The loop of `collect_values`; `none` means that the fuel ran out.
  unfoldable pub collect_loop : ℕ → List (TrieNode V) → List V → Option (List V)
  unfolding push_each
  collect_loop fuel [] out = some out
  collect_loop zero (n ∷ stack) out = none
  collect_loop (suc fuel) (trie_node cs old ∷ stack) out =
      collect_loop fuel (push_each (reverse (child_list cs)) stack) (push_value old out)

-- The number of nodes, with which `collect_values` has fuel enough.
unfoldable mutual
  pub node_count {ℓ} : {V : Type ℓ} → TrieNode V → ℕ
  node_count (trie_node cs old) = suc (node_counts cs)

  pub node_counts {ℓ} : {V : Type ℓ} → Children V → ℕ
  node_counts nil = 0
  node_counts (cons c n cs) = node_count n + node_counts cs

module _ {ℓ} {V : Type ℓ} where
  abbrev pub or_none : Option (List V) → List V
  or_none (some out) = out
  or_none none = []

  unfoldable pub collect_values : TrieNode V → List V
  collect_values n = or_none (collect_loop (node_count n) (n ∷ []) [])

  -- The walk of `prefix_matches`.
  unfoldable pub descend : List ℕ → TrieNode V → Option (TrieNode V)
  unfolding get_child
  descend [] n = some n
  descend (c ∷ prefix) (trie_node cs old) = elim (get_child c cs) [
    | none ↦ none
    | some n ↦ descend prefix n
  ]

-- `SymbolicTrie`
pub record SymbolicTrie {ℓ} (V : Type ℓ) : Type ℓ where
  pub root : TrieNode V
  pub len : ℕ

module _ {ℓ} {V : Type ℓ} where
  unfoldable pub new : SymbolicTrie V
  new = record { root = new_node; len = 0 }

  abbrev pub count_new : Option V → ℕ → ℕ
  count_new none n = n + 1
  count_new (some old) n = n

  unfoldable pub insert : List ℕ → V → SymbolicTrie V → SymbolicTrie V × Result (Option V) TrieError
  insert key v t =
      if ltb max_key_len (utf8_len key)
      then (t, err (key_too_long (utf8_len key) max_key_len))
      else let (root, previous) = insert_node key v t.root in
        (record { root = root; len = count_new previous t.len }, ok previous)

  unfoldable pub lookup : List ℕ → SymbolicTrie V → Option V
  lookup key t = lookup_node key t.root

  abbrev pub is_some : Option V → Bool
  is_some none = false
  is_some (some v) = true

  unfoldable pub contains : List ℕ → SymbolicTrie V → Bool
  unfolding lookup
  contains key t = is_some (lookup key t)

  unfoldable pub prefix_matches : List ℕ → SymbolicTrie V → List V
  prefix_matches prefix t = elim (descend prefix t.root) [ none ↦ [] | some n ↦ collect_values n ]

  unfoldable pub is_empty : SymbolicTrie V → Bool
  is_empty t = t.len == 0
