-- ===== src/KnowledgeGraph/Search.antt =====
-- The breadth-first searches of graph.rs: `reachable_from`, `ancestors_of` and `can_reach`.
use flare_verifiable_rag.Prelude.{
  ℕ, zero, suc, Bool, true, false, Option, none, some, List, [], ◌∷◌, ◌++◌, map, length, ltb, ◌==◌,
  if◌then◌else◌,
}
use flare_verifiable_rag.KnowledgeGraph.{KnowledgeGraph, Adjacency, row}

-- `vec![false; n]`
unfoldable pub all_false : ℕ → List Bool
all_false zero = []
all_false (suc n) = false ∷ all_false n

-- `visited[i] = true`
unfoldable pub mark : ℕ → List Bool → List Bool
mark i [] = []
mark zero (b ∷ bs) = true ∷ bs
mark (suc i) (b ∷ bs) = b ∷ mark i bs

-- `visited[i]`, which is read in bounds only
unfoldable pub marked : ℕ → List Bool → Bool
marked i [] = true
marked zero (b ∷ bs) = b
marked (suc i) (b ∷ bs) = marked i bs

-- The keys of a vertex's row: the other ends of its edges.
unfoldable pub neighbours : Adjacency → ℕ → List ℕ
unfolding row
neighbours m v = map (λ e. e.0) (row v m)

-- The loop over the neighbours: what is marked after it, and those that it marked, in their order,
-- which are those that it pushes.
unfoldable pub discover : List ℕ → List Bool → List Bool × List ℕ
unfolding mark marked
discover [] visited = (visited, [])
discover (o ∷ os) visited =
    if marked o visited
    then discover os visited
    else let (visited', pushed) = discover os (mark o visited) in (visited', o ∷ pushed)

-- The loop of `reachable_from` and `ancestors_of`; `none` means that the fuel ran out.
unfoldable pub search_loop : ℕ → Adjacency → List Bool → List ℕ → List ℕ → Option (List ℕ)
unfolding discover neighbours
search_loop fuel m visited [] out = some out
search_loop zero m visited (v ∷ queue) out = none
search_loop (suc fuel) m visited (v ∷ queue) out =
    let (visited', pushed) = discover (neighbours m v) visited in
    search_loop fuel m visited' (queue ++ pushed) (out ++ pushed)

abbrev pub or_nothing : Option (List ℕ) → List ℕ
or_nothing none = []
or_nothing (some out) = out

unfoldable pub search : Adjacency → ℕ → ℕ → List ℕ
unfolding all_false mark search_loop
search m n id =
    if ltb id n then or_nothing (search_loop n m (mark id (all_false n)) (id ∷ []) []) else []

unfoldable pub reachable_from : ℕ → KnowledgeGraph → List ℕ
unfolding search
reachable_from id g = search g.out (length g.entities) id

unfoldable pub ancestors_of : ℕ → KnowledgeGraph → List ℕ
unfolding search
ancestors_of id g = search g.in_ (length g.entities) id

-- The loop of `can_reach`, which stops when it takes the vertex that it looks for.
unfoldable pub reach_loop : ℕ → Adjacency → ℕ → List Bool → List ℕ → Option Bool
unfolding discover neighbours
reach_loop fuel m to visited [] = some false
reach_loop zero m to visited (v ∷ queue) = none
reach_loop (suc fuel) m to visited (v ∷ queue) =
    let (visited', pushed) = discover (neighbours m v) visited in
    let rest = reach_loop fuel m to visited' (queue ++ pushed) in
    if v == to then some true else rest

abbrev pub or_false : Option Bool → Bool
or_false none = false
or_false (some b) = b

unfoldable pub can_reach : ℕ → ℕ → KnowledgeGraph → Bool
unfolding all_false mark reach_loop
can_reach from to g =
    let n = length g.entities in
    or_false (reach_loop n g.out to (mark from (all_false n)) (from ∷ []))
