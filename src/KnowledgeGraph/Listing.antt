-- ===== src/KnowledgeGraph/Listing.antt =====
-- The listings of graph.rs: `outgoing`, `incoming`, `relations`, `relation_count` and
-- `topological_order`.
use flare_verifiable_rag.Prelude.{
  ℕ, zero, suc, ◌+◌, Bool, ◌&&◌, ◌||◌, ltb, leb, ◌==◌, if◌then◌else◌, List, [], ◌∷◌, ◌++◌, map,
  length,
}
use flare_verifiable_rag.KnowledgeGraph.{KnowledgeGraph, Adjacency, Row, Relation, row}
use flare_verifiable_rag.KnowledgeGraph.Relations.{rank}

-- A neighbour and a predicate.
abbrev pub Pair : Type 0
Pair = ℕ × List ℕ

abbrev pub pair_of : ℕ → List ℕ → Pair
pair_of o p = (o, p)

-- The two loops over a row.
unfoldable pub pairs : Row → List Pair
pairs [] = []
pairs ((o, preds) ∷ objs) = map (pair_of o) preds ++ pairs objs

unfoldable pub outgoing : ℕ → KnowledgeGraph → List Pair
unfolding pairs row
outgoing id g = pairs (row id g.out)

unfoldable pub incoming : ℕ → KnowledgeGraph → List Pair
unfolding pairs row
incoming id g = pairs (row id g.in_)

abbrev pub relation_of : ℕ → Pair → Relation
relation_of s (o, p) = record { subject = s; predicate = p; object = o }

unfoldable pub all_relations : Adjacency → List Relation
unfolding pairs
all_relations [] = []
all_relations ((s, objs) ∷ m) = map (relation_of s) (pairs objs) ++ all_relations m

unfoldable pub relations : KnowledgeGraph → List Relation
unfolding all_relations
relations g = all_relations g.out

unfoldable pub count_predicates : Row → ℕ
count_predicates [] = 0
count_predicates ((o, preds) ∷ objs) = length preds + count_predicates objs

unfoldable pub count_relations : Adjacency → ℕ
unfolding count_predicates
count_relations [] = 0
count_relations ((s, objs) ∷ m) = count_predicates objs + count_relations m

unfoldable pub relation_count : KnowledgeGraph → ℕ
unfolding count_relations
relation_count g = count_relations g.out

-- The ids `0..n`
unfoldable pub ids_from : ℕ → ℕ → List ℕ
ids_from i zero = []
ids_from i (suc n) = i ∷ ids_from (suc i) n

-- The comparison of the keys `(topo[id], id)`.
abbrev pub precedes : KnowledgeGraph → ℕ → ℕ → Bool
precedes g v w = ltb (rank v g) (rank w g) || (rank v g == rank w g && leb v w)

-- `sort_by_key`, a sort by insertion; no two keys are equal, so that any sort gives the same list.
unfoldable pub sort_insert : KnowledgeGraph → ℕ → List ℕ → List ℕ
sort_insert g v [] = v ∷ []
sort_insert g v (w ∷ ws) =
    let rest = sort_insert g v ws in if precedes g v w then v ∷ w ∷ ws else w ∷ rest

unfoldable pub sort_ids : KnowledgeGraph → List ℕ → List ℕ
unfolding sort_insert
sort_ids g [] = []
sort_ids g (v ∷ vs) = sort_insert g v (sort_ids g vs)

unfoldable pub topological_order : KnowledgeGraph → List ℕ
unfolding sort_ids ids_from
topological_order g = sort_ids g (ids_from 0 (length g.entities))
