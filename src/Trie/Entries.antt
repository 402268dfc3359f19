-- ===== src/Trie/Entries.antt =====
-- The keys and values of the tree in trie.rs in the order of the keys.

use flare_verifiable_rag.Prelude.{
  ℕ, suc, ◌<◌, ◌≤◌, ◌≡◌, refl, Option, none, some, List, [], ◌∷◌, ◌++◌, arith, map, ◌⊎◌, inl, inr,
  All, All-append,
}
use flare_verifiable_rag.Trie.{TrieNode, Children, trie_node, nil, cons}
use flare_verifiable_rag.Trie.Order.{IsOrdered, IsOrderedFrom}

-- The order of the keys: by the first character in which they differ, a prefix first.
abbrev pub Before : List ℕ → List ℕ → Type 0
Before [] [] = ⊥
Before [] (b ∷ other) = Unit
Before (a ∷ key) [] = ⊥
Before (a ∷ key) (b ∷ other) = (a < b) ⊎ (a ≡ b) × Before key other

abbrev pub Entry {ℓ} : Type ℓ → Type ℓ
Entry V = List ℕ × V

abbrev pub under {ℓ} : {V : Type ℓ} → ℕ → Entry V → Entry V
under c (key, v) = (c ∷ key, v)

abbrev pub end_entry {ℓ} : {V : Type ℓ} → Option V → List (Entry V)
end_entry none = []
end_entry (some v) = ([], v) ∷ []

unfoldable mutual
  pub entries {ℓ} : {V : Type ℓ} → TrieNode V → List (Entry V)
  entries (trie_node cs old) = end_entry old ++ entries_all cs

  pub entries_all {ℓ} : {V : Type ℓ} → Children V → List (Entry V)
  entries_all nil = []
  entries_all (cons c n cs) = map (under c) (entries n) ++ entries_all cs

-- Each key comes before all that follow it.
abbrev pub Ascending {ℓ} : {V : Type ℓ} → List (Entry V) → Type 0
Ascending [] = Unit
Ascending ((key, v) ∷ es) = All (λ e. Before key e.0) es × Ascending es

-- The key has the character `b` or a greater one in front.
abbrev pub StartsFrom : ℕ → List ℕ → Type 0
StartsFrom b [] = ⊥
StartsFrom b (c ∷ key) = b ≤ c

StartsFrom-weaken : (a b : ℕ) → a ≤ b → (key : List ℕ) → StartsFrom b key → StartsFrom a key
StartsFrom-weaken a b h [] s = s
StartsFrom-weaken a b h (c ∷ key) s = omega arith

Before-StartsFrom :
    (c : ℕ) (key : List ℕ) (other : List ℕ) → StartsFrom (suc c) other → Before (c ∷ key) other
Before-StartsFrom c key [] s = s
Before-StartsFrom c key (d ∷ other) s = inl s

Before-end : (other : List ℕ) → StartsFrom 0 other → Before [] other
Before-end [] s = s
Before-end (d ∷ other) s = tt

module _ {ℓ} {V : Type ℓ} where
  All-under {κ} :
      (c : ℕ) (P Q : List ℕ → Type κ)
      → ((key : List ℕ) → P key → Q (c ∷ key))
      → (es : List (Entry V)) → All (λ e. P e.0) es
      → All (λ e. Q e.0) (map (under c) es)
  All-under c P Q f [] a = tt
  All-under c P Q f ((key, v) ∷ es) (h, a) = (f key h, All-under c P Q f es a)

  All-imp {κ μ} :
      {P : List ℕ → Type κ} {Q : List ℕ → Type μ}
      → ((key : List ℕ) → P key → Q key)
      → (es : List (Entry V)) → All (λ e. P e.0) es
      → All (λ e. Q e.0) es
  All-imp f [] a = tt
  All-imp f ((key, v) ∷ es) (h, a) = (f key h, All-imp f es a)

  All-any {κ} :
      (P : List ℕ → Type κ) → ((key : List ℕ) → P key) → (es : List (Entry V)) → All (λ e. P e.0) es
  All-any P f [] = tt
  All-any P f ((key, v) ∷ es) = (f key, All-any P f es)

  Ascending-under : (c : ℕ) (es : List (Entry V)) → Ascending es → Ascending (map (under c) es)
  Ascending-under c [] a = tt
  Ascending-under c ((key, v) ∷ es) (h, a) = (
    All-under c (Before key) (Before (c ∷ key)) (λ other b. inr (refl, b)) es h,
    Ascending-under c es a,
  )

  Ascending-append :
      (xs ys : List (Entry V))
      → Ascending xs
      → Ascending ys
      → All (λ e. All (λ e'. Before e.0 e'.0) ys) xs
      → Ascending (xs ++ ys)
  Ascending-append [] ys a b c = b
  Ascending-append ((key, v) ∷ xs) ys (h, a) b (first, c) =
      (All-append (λ e. Before key e.0) xs ys h first, Ascending-append xs ys a b c)

  entries_all-StartsFrom :
      (cs : Children V) (b : ℕ) → IsOrderedFrom cs b → All (λ e. StartsFrom b e.0) (entries_all cs)
  unfolding entries IsOrdered
  entries_all-StartsFrom nil b o = tt
  entries_all-StartsFrom (cons c n cs) b (low, here, above) =
      All-append (λ e. StartsFrom b e.0) (map (under c) (entries n)) (entries_all cs)
        (All-under c (λ key. Unit) (StartsFrom b) (λ key u. low) (entries n)
          (All-any (λ key. Unit) (λ key. tt) (entries n)))
        (All-imp (StartsFrom-weaken b (suc c) (omega arith)) (entries_all cs)
          (entries_all-StartsFrom cs (suc c) above))

mutual
  unfolding entries IsOrdered

  entries-Ascending {ℓ} : {V : Type ℓ} (n : TrieNode V) → IsOrdered n → Ascending (entries n)
  entries-Ascending (trie_node cs none) o = entries_all-Ascending cs 0 o
  entries-Ascending (trie_node cs (some v)) o = (
    All-imp Before-end (entries_all cs) (entries_all-StartsFrom cs 0 o),
    entries_all-Ascending cs 0 o,
  )

  entries_all-Ascending {ℓ} :
      {V : Type ℓ} (cs : Children V) (b : ℕ) → IsOrderedFrom cs b → Ascending (entries_all cs)
  entries_all-Ascending nil b o = tt
  entries_all-Ascending (cons c n cs) b (low, here, above) =
      Ascending-append (map (under c) (entries n)) (entries_all cs)
        (Ascending-under c (entries n) (entries-Ascending n here))
        (entries_all-Ascending cs (suc c) above)
        (All-under c (λ key. Unit) (λ key. All (λ e. Before key e.0) (entries_all cs))
          (λ key u.
            All-imp (Before-StartsFrom c key) (entries_all cs)
              (entries_all-StartsFrom cs (suc c) above))
          (entries n) (All-any (λ key. Unit) (λ key. tt) (entries n)))

-- The entries of a tree come in the strict order of their keys.
pub entries_ascend {ℓ} : {V : Type ℓ} (n : TrieNode V) → IsOrdered n → Ascending (entries n)
entries_ascend n o = entries-Ascending n o

pub entries_all-below {ℓ} :
    {V : Type ℓ} (cs : Children V) (b : ℕ)
    → IsOrderedFrom cs b
    → All (λ e. StartsFrom b e.0) (entries_all cs)
entries_all-below cs b o = entries_all-StartsFrom cs b o
