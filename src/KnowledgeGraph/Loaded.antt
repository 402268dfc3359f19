-- ===== src/KnowledgeGraph/Loaded.antt =====
-- Whatever payload `Deserialize` of graph.rs accepts, the graph that it builds is valid.
use flare_verifiable_rag.Prelude.{
  ℕ, suc, ◌<◌, ◌≡◌, inl, inr, refl, sym, ap, ◌∙◌, subst, ◌||◌, List, [], ◌∷◌, ◌++◌, length,
  length-append, ◌==◌, ==_iff, ltb, leb, Bool-cases, Option-cases, arith, Option, none, some,
  Result, ok, err, Result-cases,
}
use flare_verifiable_rag.KnowledgeGraph.{
  KnowledgeGraph, Entity, Relation, new, entity_id, insert_edge, add_unless_known, max_symbol_len,
}
use flare_verifiable_rag.KnowledgeGraph.Ranks.{rebuild_ranks, with_ranks}
use flare_verifiable_rag.KnowledgeGraph.Ranked.{place_loop_sound}
use flare_verifiable_rag.KnowledgeGraph.Valid.{
  IsIndexed, IsJoined, IsRanked, IsValid, new-IsValid, insert_edge-IsJoined,
}
use flare_verifiable_rag.KnowledgeGraph.Entities.{fresh-IsValid}
use flare_verifiable_rag.KnowledgeGraph.Payload.{
  Payload, PayloadError, push_node, add_nodes, add_edges, ranked, deserialize,
}

-- A property of what is returned, if it is not an error.
abbrev Yields : (KnowledgeGraph → Type 0) → Result KnowledgeGraph PayloadError → Type 0
Yields P (ok g) = P g
Yields P (err e) = Unit

push_node-fresh :
    (e : Entity) (g : KnowledgeGraph)
    → e.id ≡ length g.entities
    → push_node e (length g.entities) g ≡ (add_unless_known none e.text g).0
unfolding push_node add_unless_known
push_node-fresh e g h = λ i. record g {
  entities = g.entities ++ record { id = h i; text = e.text } ∷ [];
  by_text = (e.text, length g.entities) ∷ g.by_text;
  topo = g.topo ++ 0 ∷ [];
}

pub pushed-IsValid :
    (e : Entity) (idx : ℕ) (g : KnowledgeGraph)
    → e.id ≡ idx
    → idx ≡ length g.entities
    → entity_id e.text g ≡ none
    → IsValid g
    → IsValid (push_node e idx g)
pushed-IsValid e idx g placed next fresh v =
    subst IsValid (sym (ap (λ k. push_node e k g) next ∙ push_node-fresh e g (placed ∙ next)))
      (fresh-IsValid e.text g fresh v)

pub length-push_node :
    (e : Entity) (idx : ℕ) (g : KnowledgeGraph)
    → idx ≡ length g.entities
    → suc idx ≡ length (push_node e idx g).entities
unfolding push_node
length-push_node e idx g h = omega (arith, length-append g.entities (e ∷ []))

add_nodes-Yields :
    (idx : ℕ) (es : List Entity) (g : KnowledgeGraph)
    → idx ≡ length g.entities
    → IsValid g
    → Yields IsValid (add_nodes idx es g)
unfolding add_nodes
add_nodes-Yields idx [] g next v = v
add_nodes-Yields idx (e ∷ es) g next v = elim (Bool-cases (e.id == idx)) [
  | inr a ↦ rw a tt
  | inl a ↦ rw a (elim (Bool-cases (length e.text == 0)) [
    | inl b ↦ rw b tt
    | inr b ↦ rw b (elim (Bool-cases (ltb max_symbol_len (length e.text))) [
      | inl c ↦ rw c tt
      | inr c ↦ rw c (elim (Option-cases (entity_id e.text g)) [
        | inr (i, old) ↦ rw old tt
        | inl fresh ↦
            let grown = pushed-IsValid e idx g ((==_iff e.id idx).0 a) next fresh v in
            rw fresh (
              add_nodes-Yields (suc idx) es (push_node e idx g) (length-push_node e idx g next)
                grown)
      ])
    ])
  ])
]

-- Entities and edges are in order, whatever the ranks.
abbrev pub Loaded : KnowledgeGraph → Type 0
Loaded g = IsIndexed g × IsJoined g

pub inserted-Loaded :
    (r : Relation) (g : KnowledgeGraph)
    → r.subject < length g.entities
    → r.object < length g.entities
    → Loaded g
    → Loaded (insert_edge r.subject r.predicate r.object g)
unfolding insert_edge entity_id
inserted-Loaded r g hs ho (x, j) = (
  record { placed = x.placed; known = x.known },
  insert_edge-IsJoined r.subject r.predicate r.object g hs ho j,
)

add_edges-Yields :
    (rs : List Relation) (g : KnowledgeGraph) → Loaded g → Yields Loaded (add_edges rs g)
unfolding add_edges
add_edges-Yields [] g l = l
add_edges-Yields (r ∷ rs) g l =
    elim (Bool-cases (leb (length g.entities) r.subject || leb (length g.entities) r.object)) [
      | inl a ↦ rw a tt
      | inr a ↦ rw a (elim (Bool-cases (r.subject == r.object)) [
        | inl b ↦ rw b tt
        | inr b ↦ rw b (elim (Bool-cases (length r.predicate == 0)) [
          | inl c ↦ rw c tt
          | inr c ↦ rw c (elim (Bool-cases (ltb max_symbol_len (length r.predicate))) [
            | inl d ↦ rw d tt
            | inr d ↦
                let (hs, ho) : (r.subject < length g.entities) × (r.object < length g.entities) =
                  ground arith in
                rw d (
                  add_edges-Yields rs (insert_edge r.subject r.predicate r.object g)
                    (inserted-Loaded r g hs ho l))
          ])
        ])
      ])
    ]

with_ranks-Yields :
    (g : KnowledgeGraph) (found : Option (List ℕ × ℕ))
    → Loaded g
    → ((ranks : List ℕ)
        → found ≡ some (ranks, length g.entities)
        → IsRanked (record g { topo = ranks }))
    → Yields IsValid (ranked (with_ranks found g))
unfolding entity_id
with_ranks-Yields g none l sound = tt
with_ranks-Yields g (some (ranks, placed)) (x, j) sound =
    elim (Bool-cases (placed == length g.entities)) [
      | inr e ↦ rw e tt
      | inl e ↦
          let all_placed = (==_iff placed (length g.entities)).0 e in
          rw e (record {
            indexed = record { placed = x.placed; known = x.known };
            edges = record {
              out_table = j.out_table;
              in_table = j.in_table;
              ends = j.ends;
              joined = j.joined;
              mirrored = j.mirrored;
            };
            ranked = sound ranks (ap (λ k. some (ranks, k)) all_placed);
          })
    ]

rebuild_ranks-Yields : (g : KnowledgeGraph) → Loaded g → Yields IsValid (ranked (rebuild_ranks g))
unfolding rebuild_ranks
rebuild_ranks-Yields g (x, j) =
    with_ranks-Yields g _ (x, j)
      (λ ranks h.
        let (sized, growing) =
          place_loop_sound g.out (length g.entities) j.out_table j.ends ranks h in
        record { sized = sized; growing = growing })

new_length : 0 ≡ length new.entities
unfolding new
new_length = refl

deserialize-Yields : (p : Payload) → Yields IsValid (deserialize p)
unfolding deserialize
deserialize-Yields p = elim (Result-cases (add_nodes 0 p.nodes new)) [
  | inr (e, h) ↦ rw h tt
  | inl (g, h) ↦
      let v : IsValid g =
        subst (Yields IsValid) h (add_nodes-Yields 0 p.nodes new new_length new-IsValid) in
      rw h (elim (Result-cases (add_edges p.edges g)) [
        | inr (e, h') ↦ rw h' tt
        | inl (g', h') ↦
            let l : Loaded g' =
              subst (Yields Loaded) h' (add_edges-Yields p.edges g (v.indexed, v.edges)) in
            rw h' (rebuild_ranks-Yields g' l)
      ])
]

-- A graph that `deserialize` returns is valid, whatever the payload: its ids are positions, its texts
-- are distinct, its relations join entities of it, and it has no cycle.
pub deserialize-IsValid : (p : Payload) (g : KnowledgeGraph) → deserialize p ≡ ok g → IsValid g
deserialize-IsValid p g h = subst (Yields IsValid) h (deserialize-Yields p)
