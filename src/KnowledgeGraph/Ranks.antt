-- ===== src/KnowledgeGraph/Ranks.antt =====
-- `rebuild_ranks` of graph.rs: a topological order by repeatedly taking the least entity without an
-- incoming edge.
use flare_verifiable_rag.Prelude.{
  ℕ, zero, suc, ◌+◌, ◌==◌, Bool, Option, none, some, List, [], ◌∷◌, length, get_elem?,
  if◌then◌else◌, compare, Result, ok, err,
}
use Prim.Native.Nat.Ordering.{lt, eq, gt}
use flare_verifiable_rag.KnowledgeGraph.{
  KnowledgeGraph, Adjacency, Row, row, GraphError, cyclic_payload,
}

unfoldable pub zeros : ℕ → List ℕ
zeros zero = []
zeros (suc n) = 0 ∷ zeros n

unfoldable pub set_at : ℕ → ℕ → List ℕ → List ℕ
set_at i x [] = []
set_at zero x (y ∷ ys) = x ∷ ys
set_at (suc i) x (y ∷ ys) = y ∷ set_at i x ys

-- `indeg[o] += 1`
unfoldable pub increment : ℕ → List ℕ → List ℕ
increment i [] = []
increment zero (y ∷ ys) = suc y ∷ ys
increment (suc i) (y ∷ ys) = y ∷ increment i ys

abbrev pub is_nil : List (List ℕ) → Bool
is_nil [] = Bool.true
is_nil (p ∷ ps) = Bool.false

-- The loops that count the edges into each entity, a pair of entities once.
unfoldable pub count_row : Row → List ℕ → List ℕ
unfolding increment
count_row [] indeg = indeg
count_row ((o, preds) ∷ objs) indeg =
    count_row objs (if is_nil preds then indeg else increment o indeg)

unfoldable pub count_rows : Adjacency → List ℕ → List ℕ
unfolding count_row
count_rows [] indeg = indeg
count_rows ((s, objs) ∷ m) indeg = count_rows m (count_row objs indeg)

-- `BTreeSet::insert` on ids
unfoldable pub id_insert : ℕ → List ℕ → List ℕ
id_insert v [] = v ∷ []
id_insert v (w ∷ ws) = elim (compare v w) [
  | lt ↦ v ∷ w ∷ ws
  | eq ↦ w ∷ ws
  | gt ↦ w ∷ id_insert v ws
]

-- The ids from `i` on whose count is zero.
unfoldable pub sources_from : ℕ → List ℕ → List ℕ
sources_from i [] = []
sources_from i (d ∷ ds) = let rest = sources_from (suc i) ds in if d == 0 then i ∷ rest else rest

-- `indeg[o] -= 1`, and `ready.insert(o)` if it is now zero. The code only does it where the count is
-- not zero.
unfoldable pub release : ℕ → List ℕ × List ℕ → List ℕ × List ℕ
unfolding set_at id_insert
release o (indeg, ready) = elim (get_elem? indeg o) [
  | none ↦ (indeg, ready)
  | some zero ↦ (indeg, ready)
  | some (suc d) ↦ (set_at o d indeg, if d == 0 then id_insert o ready else ready)
]

unfoldable pub release_row : Row → List ℕ × List ℕ → List ℕ × List ℕ
unfolding release
release_row [] state = state
release_row ((o, preds) ∷ objs) state =
    release_row objs (if is_nil preds then state else release o state)

-- The loop over `ready`; `none` means that the fuel ran out.
unfoldable pub place_loop : ℕ → Adjacency → List ℕ × List ℕ → List ℕ → ℕ → Option (List ℕ × ℕ)
unfolding release_row row set_at
place_loop fuel m (indeg, []) rank placed = some (rank, placed)
place_loop zero m (indeg, v ∷ ready) rank placed = none
place_loop (suc fuel) m (indeg, v ∷ ready) rank placed =
    place_loop fuel m (release_row (row v m) (indeg, ready)) (set_at v placed rank) (placed + 1)

abbrev pub with_ranks :
    Option (List ℕ × ℕ) → KnowledgeGraph → KnowledgeGraph × Result {0, 0} Unit GraphError
with_ranks none g = (g, err cyclic_payload)
with_ranks (some (rank, placed)) g =
    if placed == length g.entities
    then (record g { topo = rank }, ok tt)
    else (g, err cyclic_payload)

abbrev pub in_degrees : KnowledgeGraph → List ℕ
in_degrees g = count_rows g.out (zeros (length g.entities))

unfoldable pub rebuild_ranks : KnowledgeGraph → KnowledgeGraph × Result {0, 0} Unit GraphError
unfolding zeros count_rows sources_from place_loop
rebuild_ranks g =
    let indeg = in_degrees g in
    with_ranks
      (place_loop (length g.entities) g.out (indeg, sources_from 0 indeg)
        (zeros (length g.entities)) 0)
      g
