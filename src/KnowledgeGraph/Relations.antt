-- ===== src/KnowledgeGraph/Relations.antt =====
-- `add_relation` of graph.rs.
use flare_verifiable_rag.Prelude.{
  ℕ, ◌==◌, Option, none, some, List, length, get_elem?, ltb, leb, if◌then◌else◌, Result, ok, err,
}
use flare_verifiable_rag.KnowledgeGraph.{
  KnowledgeGraph, GraphError, unknown_entity, self_loop, empty_predicate, predicate_too_long, cycle,
  max_symbol_len, has_relation, insert_edge,
}
use flare_verifiable_rag.KnowledgeGraph.Search.{can_reach}
use flare_verifiable_rag.KnowledgeGraph.Ranks.{rebuild_ranks}

abbrev pub rank_of : Option ℕ → ℕ
rank_of none = 0
rank_of (some r) = r

-- `topo[id]`, which is read in bounds only
abbrev pub rank : ℕ → KnowledgeGraph → ℕ
rank id g = rank_of (get_elem? g.topo id)

-- What `add_relation` does with a relation that passes its guards.
unfoldable pub relate :
    ℕ → List ℕ → ℕ → KnowledgeGraph → KnowledgeGraph × Result {0, 0} Unit GraphError
unfolding insert_edge can_reach rebuild_ranks
relate subject predicate object g =
    if ltb (rank subject g) (rank object g)
    then (insert_edge subject predicate object g, ok tt)
    else if can_reach object subject g
    then (g, err (cycle subject object))
    else rebuild_ranks (insert_edge subject predicate object g)

unfoldable pub add_relation :
    ℕ → List ℕ → ℕ → KnowledgeGraph → KnowledgeGraph × Result {0, 0} Unit GraphError
unfolding has_relation relate
add_relation subject predicate object g =
    if leb (length g.entities) subject
    then (g, err (unknown_entity subject))
    else if leb (length g.entities) object
    then (g, err (unknown_entity object))
    else if subject == object
    then (g, err (self_loop subject))
    else if length predicate == 0
    then (g, err empty_predicate)
    else if ltb max_symbol_len (length predicate)
    then (g, err (predicate_too_long (length predicate) max_symbol_len))
    else if has_relation subject predicate object g
    then (g, ok tt)
    else relate subject predicate object g
