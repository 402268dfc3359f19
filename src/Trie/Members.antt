-- ===== src/Trie/Members.antt =====
-- The entries of the tree in trie.rs are what `lookup` finds.
use mathlib.Core.List.{map-append}
use mathlib.Core.List.Memᴰ
use flare_verifiable_rag.Prelude.{
  ℕ, suc, ◌≡◌, ◌↔◌, refl, sym, ap, ◌∙◌, false, Option, none, some, List, [], ◌∷◌, ◌++◌, arith, map,
  Memᴰ, inl, inr, All, All-append, Bool-cases, ◌==◌, subst,
}
use flare_verifiable_rag.Trie.{TrieNode, Children, trie_node, nil, cons, get_child, lookup_node}
use flare_verifiable_rag.Trie.Order.{IsOrdered, IsOrderedFrom}
use flare_verifiable_rag.Trie.Collect.{preorder, preorders}
use flare_verifiable_rag.Trie.Entries.{
  Entry, under, end_entry, entries, entries_all, StartsFrom, entries_all-below,
}

values-under {ℓ} :
    {V : Type ℓ} (c : ℕ) (es : List (Entry V))
    → map (λ e. e.1) (map (under c) es) ≡ map (λ e. e.1) es
values-under c [] = refl
values-under c ((key, v) ∷ es) = ap (λ r. v ∷ r) (values-under c es)

-- Without the keys, the entries are the values in preorder.
mutual
  unfolding entries preorder

  entries-values {ℓ} : {V : Type ℓ} (n : TrieNode V) → map (λ e. e.1) (entries n) ≡ preorder n
  entries-values (trie_node cs none) = entries_all-values cs
  entries-values (trie_node cs (some v)) = ap (λ r. v ∷ r) (entries_all-values cs)

  entries_all-values {ℓ} :
      {V : Type ℓ} (cs : Children V) → map (λ e. e.1) (entries_all cs) ≡ preorders cs
  entries_all-values nil = refl
  entries_all-values (cons c n cs) =
      map-append (λ e. e.1) (map (under c) (entries n)) (entries_all cs)
      ∙ rw (values-under c (entries n), entries-values n, entries_all-values cs)

abbrev Found {ℓ} : {V : Type ℓ} → (List ℕ → Option V) → Entry V → Type ℓ
Found f e = f e.0 ≡ some e.1

-- What `lookup` finds below some children.
abbrev find_below {ℓ} : {V : Type ℓ} → Children V → List ℕ → Option V
find_below cs key = lookup_node key (trie_node cs none)

module _ {ℓ} {V : Type ℓ} where
  All-Found-under :
      (c : ℕ) (f g : List ℕ → Option V)
      → ((key : List ℕ) → g (c ∷ key) ≡ f key)
      → (es : List (Entry V)) → All (Found f) es
      → All (Found g) (map (under c) es)
  All-Found-under c f g h [] a = tt
  All-Found-under c f g h ((key, v) ∷ es) (x, a) = (h key ∙ x, All-Found-under c f g h es a)

  find_below-first :
      (c : ℕ) (n : TrieNode V) (cs : Children V) (key : List ℕ)
      → find_below (cons c n cs) (c ∷ key) ≡ lookup_node key n
  unfolding lookup_node get_child
  find_below-first c n cs key = ground arith

  get_child-skip :
      (c d : ℕ) (n : TrieNode V) (cs : Children V)
      → (d == c) ≡ false
      → get_child d (cons c n cs) ≡ get_child d cs
  unfolding get_child
  get_child-skip c d n cs e = rw e refl

  find_below-skip :
      (c d : ℕ) (n : TrieNode V) (cs : Children V) (key : List ℕ)
      → (d == c) ≡ false
      → find_below (cons c n cs) (d ∷ key) ≡ find_below cs (d ∷ key)
  unfolding lookup_node
  find_below-skip c d n cs key e = rw (get_child-skip c d n cs e, find_below, lookup_node) refl

  -- A key found below the later children is found below all of them.
  find_below-later :
      (c : ℕ) (n : TrieNode V) (cs : Children V) (es : List (Entry V))
      → All (λ e. StartsFrom (suc c) e.0) es
      → All (Found (find_below cs)) es
      → All (Found (find_below (cons c n cs))) es
  unfolding lookup_node get_child
  find_below-later c n cs [] s a = tt
  find_below-later c n cs (([], v) ∷ es) (s, ss) (x, a) = absurd s
  find_below-later c n cs ((d ∷ key, v) ∷ es) (s, ss) (x, a) = (
    elim (Bool-cases (d == c)) [
      | inl e ↦ absurd (ground arith)
      | inr e ↦ find_below-skip c d n cs key e ∙ x
    ],
    find_below-later c n cs es ss a,
  )

  -- The value of the node itself does not show below it.
  find_below-old :
      (cs : Children V) (old : Option V) (es : List (Entry V))
      → All (λ e. StartsFrom 0 e.0) es
      → All (Found (find_below cs)) es
      → All (Found (λ key. lookup_node key (trie_node cs old))) es
  unfolding lookup_node
  find_below-old cs old [] s a = tt
  find_below-old cs old (([], v) ∷ es) (s, ss) (x, a) = absurd s
  find_below-old cs old ((d ∷ key, v) ∷ es) (s, ss) (x, a) = (x, find_below-old cs old es ss a)

mutual
  unfolding entries IsOrdered lookup_node

  entries-Found {ℓ} :
      {V : Type ℓ} (n : TrieNode V)
      → IsOrdered n
      → All (Found (λ key. lookup_node key n)) (entries n)
  entries-Found (trie_node cs none) o = entries_all-Found cs 0 o
  entries-Found (trie_node cs (some v)) o = (
    refl,
    find_below-old cs (some v) (entries_all cs) (entries_all-below cs 0 o)
        (entries_all-Found cs 0 o),
  )

  entries_all-Found {ℓ} :
      {V : Type ℓ} (cs : Children V) (b : ℕ)
      → IsOrderedFrom cs b
      → All (Found (find_below cs)) (entries_all cs)
  entries_all-Found nil b o = tt
  entries_all-Found (cons c n cs) b (low, here, above) =
      All-append (Found (find_below (cons c n cs))) (map (under c) (entries n)) (entries_all cs)
        (All-Found-under c (λ key. lookup_node key n) (find_below (cons c n cs))
          (find_below-first c n cs) (entries n) (entries-Found n here))
        (find_below-later c n cs (entries_all cs) (entries_all-below cs (suc c) above)
          (entries_all-Found cs (suc c) above))

mutual
  unfolding entries lookup_node

  pub entries-complete {ℓ} :
      {V : Type ℓ} (n : TrieNode V) (key : List ℕ) (v : V)
      → lookup_node key n ≡ some v
      → Memᴰ (key, v) (entries n)
  entries-complete (trie_node cs none) [] v h = cc
  entries-complete (trie_node cs (some w)) [] v h = Memᴰ.head (ground arith)
  entries-complete (trie_node cs old) (c ∷ key) v h =
      Memᴰ.append_right (end_entry old) (entries_all-complete cs c key v h)

  entries_all-complete {ℓ} :
      {V : Type ℓ} (cs : Children V) (c : ℕ) (key : List ℕ) (v : V)
      → find_below cs (c ∷ key) ≡ some v
      → Memᴰ (c ∷ key, v) (entries_all cs)
  entries_all-complete nil c key v h = cc
  entries_all-complete (cons d n cs) c key v h = elim (Bool-cases (c == d)) [
    | inl e ↦
        let same : d ≡ c = ground arith in
        let below : lookup_node key n ≡ some v =
          sym (find_below-first d n cs key)
          ∙ subst (λ x. find_below (cons d n cs) (x ∷ key) ≡ some v) (sym same) h in
        subst (λ x. Memᴰ (x ∷ key, v) (map (under d) (entries n) ++ entries_all cs)) same
          (Memᴰ.append_left (entries_all cs) (Memᴰ.map (under d) (entries-complete n key v below)))
    | inr e ↦
        Memᴰ.append_right (map (under d) (entries n))
          (entries_all-complete cs c key v (sym (find_below-skip d c n cs key e) ∙ h))
  ]

All-mem {ℓ κ} : {A : Type ℓ} (P : A → Type κ) (xs : List A) (x : A) → All P xs → Memᴰ x xs → P x
All-mem P [] x a m = absurd (Memᴰ.not-nil m)
All-mem P (y ∷ xs) x (h, a) m = elim (Memᴰ.cases_cons m) [
  | inl e ↦ subst P (sym e) h
  | inr later ↦ All-mem P xs x a later
]

-- A key and a value are an entry exactly if `lookup` finds the value under the key.
pub entries_iff {ℓ} :
    {V : Type ℓ} (n : TrieNode V) (key : List ℕ) (v : V)
    → IsOrdered n
    → Memᴰ (key, v) (entries n) ↔ (lookup_node key n ≡ some v)
entries_iff n key v o = (
  All-mem (Found (λ k. lookup_node k n)) (entries n) (key, v) (entries-Found n o),
  entries-complete n key v,
)

pub entries_values {ℓ} : {V : Type ℓ} (n : TrieNode V) → map (λ e. e.1) (entries n) ≡ preorder n
entries_values n = entries-values n
