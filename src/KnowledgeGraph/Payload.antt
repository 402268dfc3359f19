-- ===== src/KnowledgeGraph/Payload.antt =====
-- `Serialize` and `Deserialize` of graph.rs: a graph as the list of its entities and that of its
-- relations. The encoding of the two lists as text is that of serde.
pub mod Nodes
pub mod Edges
pub mod RoundTrip
use flare_verifiable_rag.Prelude.{
  ℕ, suc, ◌||◌, not, none, some, ltb, leb, ◌==◌, if◌then◌else◌, List, [], ◌∷◌, ◌++◌, length, Result,
  ok, err, ◌>>=◌,
}
use flare_verifiable_rag.KnowledgeGraph.{
  KnowledgeGraph, Entity, Relation, GraphError, new, entity_id, insert_edge, max_symbol_len,
}
use flare_verifiable_rag.KnowledgeGraph.Ranks.{rebuild_ranks}
use flare_verifiable_rag.KnowledgeGraph.Listing.{relations}

-- `Flat`
pub record Payload : Type 0 where
  pub nodes : List Entity
  pub edges : List Relation

pub data PayloadError : Type 0 where
  sparse_id : ℕ → ℕ → PayloadError
  empty_text : PayloadError
  text_too_long : ℕ → ℕ → PayloadError
  duplicate_text : List ℕ → PayloadError
  unknown_end : ℕ → ℕ → PayloadError
  edge_loop : PayloadError
  edge_unlabelled : PayloadError
  edge_too_long : ℕ → ℕ → PayloadError
  not_ranked : GraphError → PayloadError

unfoldable pub push_node : Entity → ℕ → KnowledgeGraph → KnowledgeGraph
push_node e idx g = record g {
  entities = g.entities ++ e ∷ [];
  by_text = (e.text, idx) ∷ g.by_text;
  topo = g.topo ++ 0 ∷ [];
}

-- The loop over the entities. `by_text.insert` finds a text exactly if `get` would have.
unfoldable pub add_nodes : ℕ → List Entity → KnowledgeGraph → Result KnowledgeGraph PayloadError
unfolding push_node entity_id
add_nodes idx [] g = ok g
add_nodes idx (e ∷ es) g =
    let rest = add_nodes (suc idx) es (push_node e idx g) in
    if not (e.id == idx)
    then err (sparse_id e.id idx)
    else if length e.text == 0
    then err empty_text
    else if ltb max_symbol_len (length e.text)
    then err (text_too_long (length e.text) max_symbol_len)
    else elim (entity_id e.text g) [ none ↦ rest | some i ↦ err (duplicate_text e.text) ]

-- The loop over the relations.
unfoldable pub add_edges : List Relation → KnowledgeGraph → Result KnowledgeGraph PayloadError
unfolding insert_edge
add_edges [] g = ok g
add_edges (r ∷ rs) g =
    let rest = add_edges rs (insert_edge r.subject r.predicate r.object g) in
    if leb (length g.entities) r.subject || leb (length g.entities) r.object
    then err (unknown_end r.subject r.object)
    else if r.subject == r.object
    then err edge_loop
    else if length r.predicate == 0
    then err edge_unlabelled
    else if ltb max_symbol_len (length r.predicate)
    then err (edge_too_long (length r.predicate) max_symbol_len)
    else rest

abbrev pub ranked :
    KnowledgeGraph × Result {0, 0} Unit GraphError → Result KnowledgeGraph PayloadError
ranked (g, ok u) = ok g
ranked (g, err e) = err (not_ranked e)

unfoldable pub deserialize : Payload → Result KnowledgeGraph PayloadError
unfolding new add_nodes add_edges rebuild_ranks
deserialize p = do g ← add_nodes 0 p.nodes new; g' ← add_edges p.edges g; ranked (rebuild_ranks g')

unfoldable pub serialize : KnowledgeGraph → Payload
unfolding relations
serialize g = record { nodes = g.entities; edges = relations g }
