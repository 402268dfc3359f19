-- ===== src/KnowledgeGraph/Queries.antt =====
-- The questions that graph.rs answers by searching a well-formed graph.
use flare_verifiable_rag.Prelude.{
  ℕ, ◌<◌, ◌≤◌, ◌≡◌, ◌≢◌, ◌↔◌, inl, inr, subst, true, [], ◌∷◌, length, Option-cases, arith, Memᴰ,
}
use flare_verifiable_rag.KnowledgeGraph.{KnowledgeGraph, Adjacency}
use flare_verifiable_rag.KnowledgeGraph.Search.{
  neighbours, reachable_from, ancestors_of, can_reach, reach_loop, mark, all_false,
}
use flare_verifiable_rag.KnowledgeGraph.Reach.{Reaches, start, onward, InRange}
use flare_verifiable_rag.KnowledgeGraph.Loops.{search_correct, reach-Answers, Answers}
use flare_verifiable_rag.KnowledgeGraph.Relations.{rank}
use flare_verifiable_rag.KnowledgeGraph.Valid.{IsValid}

-- A path that starts with an edge.
prepend : (m : Adjacency) (u v w : ℕ) → Memᴰ v (neighbours m u) → Reaches m v w → Reaches m u w
prepend m u v w h start = onward start h
prepend m u v w h (onward {u = x} r next) = onward (prepend m u v x h r) next

-- Along the incoming edges one gets to where the outgoing ones lead from.
reverse_path :
    (m m' : Adjacency)
    → ((u v : ℕ) → Memᴰ v (neighbours m u) → Memᴰ u (neighbours m' v))
    → (u v : ℕ) → Reaches m u v
    → Reaches m' v u
reverse_path m m' h u v start = start
reverse_path m m' h u v (onward {u = x} r next) =
    prepend m' v x u (h x v next) (reverse_path m m' h u x r)

out_range : (g : KnowledgeGraph) → IsValid g → InRange g.out (length g.entities)
out_range g v = λ a b here. (v.edges.ends a b here).1

in_range : (g : KnowledgeGraph) → IsValid g → InRange g.in_ (length g.entities)
in_range g v = λ a b here. (v.edges.ends b a ((v.edges.joined b a).1 here)).0

-- `reachable_from` returns exactly the other entities to which a path of relations leads.
pub reachable_from_correct :
    (id : ℕ) (g : KnowledgeGraph)
    → IsValid g
    → id < length g.entities
    → (v : ℕ) → Memᴰ v (reachable_from id g) ↔ Reaches g.out id v × (v ≢ id)
unfolding reachable_from
reachable_from_correct id g valid h v =
    search_correct g.out (length g.entities) id (out_range g valid) h v

-- `ancestors_of` returns exactly the other entities from which a path of relations leads here.
pub ancestors_of_correct :
    (id : ℕ) (g : KnowledgeGraph)
    → IsValid g
    → id < length g.entities
    → (v : ℕ) → Memᴰ v (ancestors_of id g) ↔ Reaches g.out v id × (v ≢ id)
unfolding ancestors_of
ancestors_of_correct id g valid h v =
    let found = search_correct g.in_ (length g.entities) id (in_range g valid) h v in
    let joined = valid.edges.joined in
    (
      λ here.
          let (r, other) = found.0 here in
          (reverse_path g.in_ g.out (λ a b. (joined b a).1) id v r, other),
      λ (r, other). found.1 (reverse_path g.out g.in_ (λ a b. (joined a b).0) v id r, other),
    )

-- `can_reach` tells whether a path of relations leads from one entity to another.
pub can_reach_correct :
    (from to : ℕ) (g : KnowledgeGraph)
    → IsValid g
    → from < length g.entities
    → (can_reach from to g ≡ true) ↔ Reaches g.out from to
unfolding can_reach
can_reach_correct from to g valid h =
    let n = length g.entities in
    let answers = reach-Answers g.out n from to (out_range g valid) h in
    elim (Option-cases (reach_loop n g.out to (mark from (all_false n)) (from ∷ []))) [
      | inl e ↦ absurd (subst (Answers g.out from to) e answers)
      | inr (b, e) ↦ rw e (subst (Answers g.out from to) e answers)
    ]

-- Along a path the ranks do not fall.
pub Reaches-rank :
    (g : KnowledgeGraph) → IsValid g → (u v : ℕ) → Reaches g.out u v → rank u g ≤ rank v g
Reaches-rank g valid u v start = omega arith
Reaches-rank g valid u v (onward {u = x} r next) =
    omega (arith, Reaches-rank g valid u x r, valid.ranked.growing x v next)

-- A well-formed graph has no cycle: no relation leads to an entity from which a path leads back.
pub IsValid-acyclic :
    (g : KnowledgeGraph) → IsValid g → (u v : ℕ) → Memᴰ v (neighbours g.out u) → ¬ Reaches g.out v u
IsValid-acyclic g valid u v edge back =
    absurd (omega (arith, Reaches-rank g valid v u back, valid.ranked.growing u v edge))

-- In a well-formed graph, from an entity of it: `reachable_from` returns exactly the other entities to
-- which a path of relations leads, `ancestors_of` exactly those from which one leads here, and
-- `can_reach` says of any number whether a path leads to it.
pub reachability_correct :
    (id : ℕ) (g : KnowledgeGraph)
    → IsValid g
    → id < length g.entities
    → ((v : ℕ) → Memᴰ v (reachable_from id g) ↔ Reaches g.out id v × (v ≢ id))
      × ((v : ℕ) → Memᴰ v (ancestors_of id g) ↔ Reaches g.out v id × (v ≢ id))
      × ((v : ℕ) → (can_reach id v g ≡ true) ↔ Reaches g.out id v)
reachability_correct id g valid h = (
  reachable_from_correct id g valid h,
  ancestors_of_correct id g valid h,
  λ v. can_reach_correct id v g valid h,
)
