-- ===== src/Trie/Examples.antt =====
-- Runs of trie.rs on a tree of three keys, and the theorems there.
use flare_verifiable_rag.Prelude.{
  ℕ, ◌≡◌, refl, some, List, [], ◌∷◌, map, if◌then◌else◌, text_eq, ok,
}
use flare_verifiable_rag.Trie.{
  node_count, collect_loop, collect_values, SymbolicTrie, new, insert, lookup, prefix_matches,
  utf8_len, lookup_node, descend, insert_node, get_child, with_entry, push_each,
}
use flare_verifiable_rag.Trie.Collect.{collect_terminates}
use flare_verifiable_rag.Trie.Entries.{Entry}
use flare_verifiable_rag.Trie.Laws.{IsValid, new-IsValid, insert-IsValid, insert_correct}
use flare_verifiable_rag.Trie.Prefixes.{AreMatches, prefix_matches_correct}

abbrev text_a : List ℕ
text_a = b'a' ∷ []

abbrev text_ab : List ℕ
text_ab = b'a' ∷ b'b' ∷ []

abbrev text_abc : List ℕ
text_abc = b'a' ∷ b'b' ∷ b'c' ∷ []

abbrev text_b : List ℕ
text_b = b'b' ∷ []

abbrev one : SymbolicTrie ℕ
one = (insert text_abc 3 new).0

abbrev two : SymbolicTrie ℕ
two = (insert text_b 2 one).0

abbrev three : SymbolicTrie ℕ
three = (insert text_ab 1 two).0

one-IsValid : IsValid one
one-IsValid = insert-IsValid text_abc 3 new (new-IsValid ℕ)

two-IsValid : IsValid two
two-IsValid = insert-IsValid text_b 2 one one-IsValid

three-IsValid : IsValid three
three-IsValid = insert-IsValid text_ab 1 two two-IsValid

lookup-three : lookup text_ab three ≡ some 1
unfolding lookup lookup_node insert insert_node new utf8_len get_child with_entry
lookup-three = refl

matches_three : prefix_matches text_a three ≡ 1 ∷ 3 ∷ []
unfolding prefix_matches descend collect_values collect_loop push_each node_count insert insert_node
    new utf8_len get_child with_entry
matches_three = refl

prefix_matches_correct_example :
    (es : List (Entry ℕ)) × (prefix_matches text_a three ≡ map (λ e. e.1) es)
    × AreMatches text_a three es
prefix_matches_correct_example = prefix_matches_correct text_a three three-IsValid

collect_terminates_example :
    collect_loop (node_count three.root) (three.root ∷ []) [] ≡ some (collect_values three.root)
collect_terminates_example = collect_terminates three.root

insert_correct_example :
    IsValid (insert text_ab 9 three).0
    × ((insert text_ab 9 three).1 ≡ ok (lookup text_ab three))
    × ((other : List ℕ)
        → lookup other (insert text_ab 9 three).0
          ≡ (if text_eq text_ab other then some 9 else lookup other three))
unfolding utf8_len
insert_correct_example = insert_correct text_ab 9 three three-IsValid
