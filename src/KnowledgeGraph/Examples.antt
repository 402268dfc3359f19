-- ===== src/KnowledgeGraph/Examples.antt =====
-- Runs of graph.rs on a graph of three entities, and the theorems there.
use flare_verifiable_rag.Prelude.{
  ℕ, ◌<◌, ◌≤◌, ◌≡◌, ◌≢◌, ◌↔◌, ◌⊎◌, refl, sym, ap, subst, true, List, [], ◌∷◌, length, arith, Memᴰ,
  ok, err, text_eq,
}
use flare_verifiable_rag.TokenGraph.{find_key}
use flare_verifiable_rag.KnowledgeGraph.{
  KnowledgeGraph, GraphError, cycle, empty_entity, entity_too_long, new, add_entity,
  add_unless_known, entity_id, has_relation, insert_edge, insert_half, update, row, text_insert,
  text_compare,
}
use flare_verifiable_rag.KnowledgeGraph.Search.{
  neighbours, reachable_from, ancestors_of, can_reach, reach_loop, discover, mark, marked,
  all_false,
}
use flare_verifiable_rag.KnowledgeGraph.Reach.{Reaches}
use flare_verifiable_rag.KnowledgeGraph.Ranks.{
  rebuild_ranks, place_loop, zeros, count_rows, count_row, increment, sources_from, release_row,
  release, set_at, id_insert,
}
use flare_verifiable_rag.KnowledgeGraph.Relations.{add_relation, relate}
use flare_verifiable_rag.KnowledgeGraph.Valid.{IsValid, new-IsValid}
use flare_verifiable_rag.KnowledgeGraph.Entities.{Stored, add_entity-IsValid, add_entity_correct}
use flare_verifiable_rag.KnowledgeGraph.Queries.{reachability_correct}
use flare_verifiable_rag.KnowledgeGraph.{Relation}
use flare_verifiable_rag.Prelude.{◌++◌}
use flare_verifiable_rag.KnowledgeGraph.Listing.{
  pair_of, outgoing, incoming, relations, relation_count, topological_order,
}
use flare_verifiable_rag.KnowledgeGraph.Listed.{listings_correct}
use flare_verifiable_rag.KnowledgeGraph.Sorted.{topological_order_correct}
use flare_verifiable_rag.KnowledgeGraph.Evidence.{
  EvidencePath, find_path, path_from, path_loop, sort_by, insert_by, labelled, labelled_row,
}
use flare_verifiable_rag.KnowledgeGraph.Found.{IsEvidence, find_path_correct}
use flare_verifiable_rag.Prelude.{none, some}
use flare_verifiable_rag.KnowledgeGraph.Payload.{
  Payload, serialize, deserialize, add_nodes, push_node, add_edges,
}
use flare_verifiable_rag.KnowledgeGraph.Listing.{all_relations, pairs}
use flare_verifiable_rag.KnowledgeGraph.Loaded.{deserialize-IsValid}
use flare_verifiable_rag.KnowledgeGraph.Built.{Built, empty, entity, relation, Built-deserialize}
use flare_verifiable_rag.KnowledgeGraph.Acyclic.{Obtained, loaded, Obtained-acyclic}
use flare_verifiable_rag.KnowledgeGraph.Correct.{
  Extends, add_relation_correct, add_relation-IsValid,
}

abbrev text_a : List ℕ
text_a = b'a' ∷ []

abbrev id_a : ℕ
id_a = 0

abbrev id_c : ℕ
id_c = 2

abbrev text_b : List ℕ
text_b = b'b' ∷ []

abbrev text_c : List ℕ
text_c = b'c' ∷ []

abbrev one : KnowledgeGraph
one = (add_entity text_a new).0

abbrev two : KnowledgeGraph
two = (add_entity text_b one).0

abbrev three : KnowledgeGraph
three = (add_entity text_c two).0

-- c -> b and then b -> a, for which the ranks are built again
abbrev chain : KnowledgeGraph
chain = (add_relation 1 text_a 0 (add_relation 2 text_a 1 three).0).0

two-IsValid : IsValid two
two-IsValid = add_entity-IsValid text_b one (add_entity-IsValid text_a new new-IsValid)

three-IsValid : IsValid three
three-IsValid = add_entity-IsValid text_c two two-IsValid

chain-IsValid : IsValid chain
chain-IsValid =
    (add_relation-IsValid 1 text_a 0 (add_relation 2 text_a 1 three).0
      (add_relation-IsValid 2 text_a 1 three three-IsValid).0).0

chain_value :
    (length chain.entities ≡ 3)
    × (chain.topo ≡ 2 ∷ 1 ∷ 0 ∷ [])
    × (add_relation 0 text_b 2 chain ≡ (chain, err (cycle 0 2)))
unfolding new add_entity add_unless_known entity_id find_key text_eq has_relation insert_edge
    insert_half update row text_insert text_compare neighbours can_reach reach_loop discover mark
    marked all_false rebuild_ranks place_loop zeros count_rows count_row increment sources_from
    release_row release set_at id_insert add_relation relate
chain_value = (refl, refl, refl)

chain_length : length chain.entities ≡ 3
chain_length = chain_value.0

zero_in : 0 < length chain.entities
zero_in = rw chain_length (omega arith)

two_in : 2 < length chain.entities
two_in = rw chain_length (omega arith)

zero_other : id_a ≢ id_c
zero_other h = absurd (omega arith)

add_relation-IsValid_example :
    IsValid (add_relation 0 text_b 2 chain).0
    × ((e : GraphError)
        → (add_relation 0 text_b 2 chain).1 ≡ err e
        → (add_relation 0 text_b 2 chain).0 ≡ chain)
add_relation-IsValid_example = add_relation-IsValid 0 text_b 2 chain chain-IsValid

add_relation_correct_example :
    Reaches chain.out 2 0 × (add_relation 0 text_b 2 chain ≡ (chain, err (cycle 0 2)))
    ⊎ (¬ Reaches chain.out 2 0)
      × ((g' : KnowledgeGraph) × (add_relation 0 text_b 2 chain ≡ (g', ok tt))
          × IsValid g'
          × (g'.entities ≡ chain.entities)
          × Extends 0 text_b 2 chain g')
add_relation_correct_example =
    add_relation_correct 0 text_b 2 chain chain-IsValid zero_in two_in zero_other (λ h. cc)
      (omega arith)

a_relation : has_relation 1 text_a 0 chain ≡ true
unfolding new add_entity add_unless_known entity_id find_key text_eq has_relation insert_edge
    insert_half update row text_insert text_compare neighbours can_reach reach_loop discover mark
    marked all_false rebuild_ranks place_loop zeros count_rows count_row increment sources_from
    release_row release set_at id_insert add_relation relate
a_relation = refl

topological_order_correct_example :
    ((v : ℕ) → Memᴰ v (topological_order chain) ↔ (v < length chain.entities))
    × ((u v : ℕ)
        → Memᴰ v (neighbours chain.out u)
        → (xs ys : List ℕ) × (topological_order chain ≡ xs ++ u ∷ ys) × Memᴰ v ys)
topological_order_correct_example = topological_order_correct chain chain-IsValid

find_path_correct_example :
    ((entity_id text_c chain ≡ none) × (find_path text_c text_a chain ≡ none))
    ⊎ ((anchor : ℕ) × (entity_id text_c chain ≡ some anchor)
        × ((x : EvidencePath) × (find_path text_c text_a chain ≡ some x)
            × IsEvidence chain anchor text_a x))
find_path_correct_example = find_path_correct text_c text_a chain chain-IsValid

find_path_value :
    find_path text_c text_a chain
    ≡ some (record {
      subject = 2;
      predicate = text_a;
      entities = 2 ∷ 1 ∷ 0 ∷ [];
      depths = 0 ∷ 1 ∷ 2 ∷ [];
      relations =
          record { subject = 1; predicate = text_a; object = 0 }
          ∷ record { subject = 2; predicate = text_a; object = 1 }
          ∷ [];
      relation_depths = 1 ∷ 0 ∷ [];
    })
unfolding new add_entity add_unless_known entity_id find_key text_eq has_relation insert_edge
    insert_half update row text_insert text_compare neighbours can_reach reach_loop discover mark
    marked all_false rebuild_ranks place_loop zeros count_rows count_row increment sources_from
    release_row release set_at id_insert add_relation relate find_path path_from path_loop sort_by
    insert_by labelled labelled_row
find_path_value = refl

abbrev flat_chain : Payload
flat_chain = serialize chain

flat_chain_value : deserialize flat_chain ≡ ok chain
unfolding new add_entity add_unless_known entity_id find_key text_eq has_relation insert_edge
    insert_half update row text_insert text_compare neighbours can_reach reach_loop discover mark
    marked all_false rebuild_ranks place_loop zeros count_rows count_row increment sources_from
    release_row release set_at id_insert add_relation relate serialize deserialize add_nodes
    push_node add_edges relations all_relations pairs
flat_chain_value = refl

deserialize-IsValid_example : IsValid chain
deserialize-IsValid_example = deserialize-IsValid flat_chain chain flat_chain_value

add_entity_correct_example :
    IsValid (add_entity text_a two).0
    × ((text_a ≡ []) × (add_entity text_a two ≡ (two, err empty_entity))
        ⊎ ((512 < length text_a)
              × (add_entity text_a two ≡ (two, err (entity_too_long (length text_a) 512)))
            ⊎ (text_a ≢ []) × (length text_a ≤ 512) × Stored text_a two (add_entity text_a two)))
add_entity_correct_example = add_entity_correct text_a two two-IsValid

reachability_correct_example :
    ((v : ℕ) → Memᴰ v (reachable_from 2 chain) ↔ Reaches chain.out 2 v × (v ≢ 2))
    × ((v : ℕ) → Memᴰ v (ancestors_of 2 chain) ↔ Reaches chain.out v 2 × (v ≢ 2))
    × ((v : ℕ) → (can_reach 2 v chain ≡ true) ↔ Reaches chain.out 2 v)
reachability_correct_example = reachability_correct 2 chain chain-IsValid two_in

listings_correct_example :
    ((r : Relation)
      → Memᴰ r (relations chain) ↔ (has_relation r.subject r.predicate r.object chain ≡ true))
    × (length (relations chain) ≡ relation_count chain)
    × ((s : ℕ) (p : List ℕ) (o : ℕ)
        → (Memᴰ (pair_of o p) (outgoing s chain) ↔ (has_relation s p o chain ≡ true))
          × (Memᴰ (pair_of s p) (incoming o chain) ↔ (has_relation s p o chain ≡ true)))
listings_correct_example = listings_correct chain chain-IsValid

chain-Built : Built chain
chain-Built =
    relation (add_relation 2 text_a 1 three).0 chain 1 text_a 0
      (relation three _ 2 text_a 1
        (entity two three text_c
          (entity one two text_b (entity new one text_a (empty new refl) refl) refl) refl)
        refl)
      refl

Built-deserialize_example :
    IsValid chain
    × ((g' : KnowledgeGraph) × (deserialize (serialize chain) ≡ ok g')
        × IsValid g'
        × (g'.entities ≡ chain.entities)
        × ((s : ℕ) (p : List ℕ) (o : ℕ)
            → (has_relation s p o g' ≡ true) ↔ (has_relation s p o chain ≡ true)))
Built-deserialize_example = Built-deserialize chain chain-Built

-- The chain after it was written and loaded, and asked for the relation that closes a cycle.
closed-Obtained : Obtained (add_relation 0 text_b 2 chain).0
closed-Obtained =
    Obtained.relation chain _ 0 text_b 2 (loaded chain flat_chain flat_chain_value) refl

closed_same : (add_relation 0 text_b 2 chain).0 ≡ chain
closed_same = ap (λ r. r.0) chain_value.2

Obtained-acyclic_example : ¬ Reaches (add_relation 0 text_b 2 chain).0.out 0 1
Obtained-acyclic_example =
    Obtained-acyclic (add_relation 0 text_b 2 chain).0 closed-Obtained 1 text_a 0
      (subst (λ g. has_relation 1 text_a 0 g ≡ true) (sym closed_same) a_relation)
