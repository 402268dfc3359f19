-- ===== src/KnowledgeGraph/Insertion.antt =====
-- What `add_relation` of graph.rs does with a relation that passes its guards.
use flare_verifiable_rag.Prelude.{
  ℕ, ◌+◌, ◌<◌, ◌≡◌, ◌⊎◌, inl, inr, refl, true, false, some, List, length, ◌==◌, ltb, if◌then◌else◌,
  Bool-cases, arith, Memᴰ, Result, ok, err, ==_iff,
}
use flare_verifiable_rag.KnowledgeGraph.{
  KnowledgeGraph, GraphError, cycle, insert_edge, insert_half, entity_id,
}
use flare_verifiable_rag.KnowledgeGraph.Search.{neighbours, can_reach}
use flare_verifiable_rag.KnowledgeGraph.Reach.{Reaches, start, onward}
use flare_verifiable_rag.KnowledgeGraph.Tables.{neighbours-insert_half}
use flare_verifiable_rag.KnowledgeGraph.Ranks.{rebuild_ranks, with_ranks}
use flare_verifiable_rag.KnowledgeGraph.Ranked.{ranks_found}
use flare_verifiable_rag.KnowledgeGraph.Relations.{rank, relate}
use flare_verifiable_rag.KnowledgeGraph.Valid.{IsJoined, IsRanked, IsValid, insert_edge-IsJoined}
use flare_verifiable_rag.KnowledgeGraph.Queries.{can_reach_correct, Reaches-rank}

-- A height for every entity that grows along every edge.
abbrev pub Heights : KnowledgeGraph → (ℕ → ℕ) → Type 0
Heights g height = (u v : ℕ) → Memᴰ v (neighbours g.out u) → height u < height v

with_ranks-ok :
    (ranks : List ℕ) (g : KnowledgeGraph)
    → with_ranks (some (ranks, length g.entities)) g ≡ (record g { topo = ranks }, ok tt)
with_ranks-ok ranks g =
    let e : (length g.entities == length g.entities) ≡ true =
      (==_iff (length g.entities) (length g.entities)).1 refl in
    rw e refl

pub rebuild_ranks-ok :
    (g : KnowledgeGraph) (height : ℕ → ℕ)
    → IsJoined g
    → Heights g height
    → (ranks : List ℕ) × (rebuild_ranks g ≡ (record g { topo = ranks }, ok tt))
      × IsRanked (record g { topo = ranks })
unfolding rebuild_ranks
rebuild_ranks-ok g height j up =
    let (ranks, found, sized, growing) =
      ranks_found g.out (length g.entities) j.out_table j.ends height up in
    (ranks, rw found (with_ranks-ok ranks g), record { sized = sized; growing = growing })

-- When the object does not reach the subject, the new edge closes no cycle: what the object reaches is
-- lifted above the subject.
lifted : ℕ → ℕ → KnowledgeGraph → ℕ → ℕ
lifted s o g v = rank v g + (if can_reach o v g then rank s g + 1 else 0)

lifted-Heights :
    (s : ℕ) (p : List ℕ) (o : ℕ) (g : KnowledgeGraph)
    → IsValid g
    → o < length g.entities
    → can_reach o s g ≡ false
    → Heights (insert_edge s p o g) (lifted s o g)
unfolding insert_edge lifted
lifted-Heights s p o g valid bound apart u v edge =
    elim ((neighbours-insert_half s p o g.out valid.edges.out_table u v).0 edge) [
      | inl (a, b) ↦
          let self = (can_reach_correct o o g valid bound).1 start in
          rw (a, b, apart, self) (omega arith)
      | inr old ↦
          let less = valid.ranked.growing u v old in
          elim (Bool-cases (can_reach o u g)) [
            | inl e ↦
                let reached =
                  (can_reach_correct o v g valid bound).1
                    (onward ((can_reach_correct o u g valid bound).0 e) old) in
                rw (e, reached) (omega arith)
            | inr e ↦ rw e (omega arith)
          ]
    ]

-- The graph has the new relation and is valid.
pub record Added (s : ℕ) (p : List ℕ) (o : ℕ) (g g' : KnowledgeGraph) : Type 0 where
  pub valid : IsValid g'
  pub entities_same : g'.entities ≡ g.entities
  pub out_new : g'.out ≡ insert_half s p o g.out

fast-Added :
    (s : ℕ) (p : List ℕ) (o : ℕ) (g : KnowledgeGraph)
    → IsValid g
    → s < length g.entities
    → o < length g.entities
    → rank s g < rank o g
    → Added s p o g (insert_edge s p o g)
unfolding insert_edge entity_id
fast-Added s p o g v hs ho less = record {
  valid = record {
    indexed = record { placed = v.indexed.placed; known = v.indexed.known };
    edges = insert_edge-IsJoined s p o g hs ho v.edges;
    ranked = record {
      sized = v.ranked.sized;
      growing = λ a b edge.
          elim ((neighbours-insert_half s p o g.out v.edges.out_table a b).0 edge) [
            | inl (same, same') ↦ rw (same, same') less
            | inr old ↦ v.ranked.growing a b old
          ];
    };
  };
  entities_same = refl;
  out_new = refl;
}

slow-Added :
    (s : ℕ) (p : List ℕ) (o : ℕ) (g : KnowledgeGraph)
    → IsValid g
    → s < length g.entities
    → o < length g.entities
    → can_reach o s g ≡ false
    → (g' : KnowledgeGraph) × (rebuild_ranks (insert_edge s p o g) ≡ (g', ok tt)) × Added s p o g g'
unfolding insert_edge entity_id
slow-Added s p o g v hs ho apart =
    let new_graph = insert_edge s p o g in
    let joined = insert_edge-IsJoined s p o g hs ho v.edges in
    let (ranks, e, ranked) =
      rebuild_ranks-ok new_graph (lifted s o g) joined (lifted-Heights s p o g v ho apart) in
    (
      record new_graph { topo = ranks },
      e,
      record {
        valid = record {
          indexed = record { placed = v.indexed.placed; known = v.indexed.known };
          edges = record {
            out_table = joined.out_table;
            in_table = joined.in_table;
            ends = joined.ends;
            joined = joined.joined;
            mirrored = joined.mirrored;
          };
          ranked = ranked;
        };
        entities_same = refl;
        out_new = refl;
      },
    )

abbrev pub Refused :
    ℕ → ℕ → KnowledgeGraph → KnowledgeGraph × Result {0, 0} Unit GraphError → Type 0
Refused s o g r = Reaches g.out o s × (r ≡ (g, err (cycle s o)))

abbrev pub Accepted :
    ℕ → List ℕ → ℕ → KnowledgeGraph → KnowledgeGraph × Result {0, 0} Unit GraphError → Type 0
Accepted s p o g r =
    (¬ Reaches g.out o s) × ((g' : KnowledgeGraph) × (r ≡ (g', ok tt)) × Added s p o g g')

-- A relation that passes the guards is refused exactly if the object reaches the subject.
pub relate-cases :
    (s : ℕ) (p : List ℕ) (o : ℕ) (g : KnowledgeGraph)
    → IsValid g
    → s < length g.entities
    → o < length g.entities
    → Refused s o g (relate s p o g) ⊎ Accepted s p o g (relate s p o g)
unfolding relate
relate-cases s p o g v hs ho =
    let reach = can_reach_correct o s g v ho in
    elim (Bool-cases (ltb (rank s g) (rank o g))) [
      | inl fast ↦
          let less : rank s g < rank o g = ground arith in
          rw fast (
            inr (
              λ r. absurd (omega (arith, Reaches-rank g v o s r)),
              (insert_edge s p o g, refl, fast-Added s p o g v hs ho less),
            ))
      | inr slow ↦ rw slow (elim (Bool-cases (can_reach o s g)) [
        | inl e ↦ rw e (inl (reach.0 e, refl))
        | inr e ↦
            rw e (inr (λ r. absurd (ground (arith, e, reach.1 r)), slow-Added s p o g v hs ho e))
      ])
    ]
