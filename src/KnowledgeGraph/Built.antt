-- ===== src/KnowledgeGraph/Built.antt =====
-- The graphs that the operations of graph.rs build, and that they can be written and read back.
use flare_verifiable_rag.Prelude.{
  ℕ, ◌<◌, ◌≡◌, ◌≢◌, ◌↔◌, inl, inr, refl, sym, ◌∙◌, subst, true, ◌&&◌, List, [], ◌∷◌, length,
  Bool-cases, Option-cases, ◌==◌, ltb, arith, ok, All, All-append, text_eq, text_eq_iff,
}
use flare_verifiable_rag.KnowledgeGraph.{
  KnowledgeGraph, Entity, new, has_relation, add_entity, add_unless_known, entity_id,
  max_symbol_len, row,
}
use flare_verifiable_rag.KnowledgeGraph.Relations.{add_relation}
use flare_verifiable_rag.KnowledgeGraph.Valid.{IsValid, new-IsValid}
use flare_verifiable_rag.KnowledgeGraph.Entities.{add_entity-IsValid}
use flare_verifiable_rag.KnowledgeGraph.Correct.{
  Extends, add_relation_cases, add_relation_correct, add_relation-IsValid,
}
use flare_verifiable_rag.KnowledgeGraph.Payload.{serialize, deserialize}
use flare_verifiable_rag.KnowledgeGraph.Payload.Nodes.{IsSymbol}
use flare_verifiable_rag.KnowledgeGraph.Payload.RoundTrip.{IsSized, deserialize-serialize}

-- The graphs that calls of `add_entity` and `add_relation` lead to, whatever they return.
pub data Built : KnowledgeGraph → Type 0 where
  empty : (g : KnowledgeGraph) → g ≡ new → Built g
  entity : (g h : KnowledgeGraph) (text : List ℕ) → Built g → h ≡ (add_entity text g).0 → Built h
  relation :
      (g h : KnowledgeGraph) (s : ℕ) (p : List ℕ) (o : ℕ)
      → Built g
      → h ≡ (add_relation s p o g).0
      → Built h

new-IsSized : IsSized new
unfolding new has_relation row
new-IsSized = record { texts = tt; predicates = λ s p o h. absurd (cc) }

known-IsSized :
    (text : List ℕ) (g : KnowledgeGraph)
    → IsSymbol text
    → IsSized g
    → IsSized (add_unless_known (entity_id text g) text g).0
unfolding add_unless_known has_relation
known-IsSized text g size z = elim (Option-cases (entity_id text g)) [
  | inr (i, old) ↦ rw old z
  | inl fresh ↦ rw fresh (record {
    texts =
        All-append (λ (e : Entity). IsSymbol e.text) g.entities
          (record { id = length g.entities; text = text } ∷ []) z.texts (size, tt);
    predicates = z.predicates;
  })
]

add_entity-IsSized :
    (text : List ℕ) (g : KnowledgeGraph) → IsSized g → IsSized (add_entity text g).0
unfolding add_entity
add_entity-IsSized text g z = elim (Bool-cases (length text == 0)) [
  | inl a ↦ rw a z
  | inr a ↦ elim (Bool-cases (ltb max_symbol_len (length text))) [
    | inl b ↦ rw (a, b) z
    | inr b ↦ rw (a, b) (known-IsSized text g (ground arith, ground arith) z)
  ]
]

positive : (p : List ℕ) → p ≢ [] → 0 < length p
positive [] h = absurd (h refl)
positive (b ∷ p) h = omega arith

extended-IsSized :
    (s : ℕ) (p : List ℕ) (o : ℕ) (g g' : KnowledgeGraph)
    → IsSymbol p
    → g'.entities ≡ g.entities
    → Extends s p o g g'
    → IsSized g
    → IsSized g'
extended-IsSized s p o g g' size same extends z = record {
  texts = subst (All (λ (e : Entity). IsSymbol e.text)) (sym same) z.texts;
  predicates = λ a q b h. elim (Bool-cases (a == s && (b == o && text_eq q p))) [
    | inl e ↦
        let eq : text_eq q p ≡ true = ground arith in
        subst IsSymbol (sym ((text_eq_iff q p).0 eq)) size
    | inr e ↦ z.predicates a q b (rw e at (sym (extends a q b) ∙ h))
  ];
}

add_relation-IsSized :
    (s : ℕ) (p : List ℕ) (o : ℕ) (g : KnowledgeGraph)
    → IsValid g
    → IsSized g
    → IsSized (add_relation s p o g).0
add_relation-IsSized s p o g v z = elim (add_relation_cases s p o g) [
  | inl (x, q) ↦ rw q z
  | inr (hs, ho, d, some_text, short) ↦
      elim (add_relation_correct s p o g v hs ho d some_text short) [
        | inl (r, q) ↦ rw q z
        | inr (apart, (g', q, valid, same, extends)) ↦
            rw q (extended-IsSized s p o g g' (positive p some_text, short) same extends z)
      ]
]

Built-Sound : (g : KnowledgeGraph) → Built g → IsValid g × IsSized g
Built-Sound g (empty _ e) = subst (λ x. IsValid x × IsSized x) (sym e) (new-IsValid, new-IsSized)
Built-Sound h (entity g _ text b e) =
    let (v, z) = Built-Sound g b in
    subst (λ x. IsValid x × IsSized x) (sym e)
      (add_entity-IsValid text g v, add_entity-IsSized text g z)
Built-Sound h (relation g _ s p o b e) =
    let (v, z) = Built-Sound g b in
    subst (λ x. IsValid x × IsSized x) (sym e)
      ((add_relation-IsValid s p o g v).0, add_relation-IsSized s p o g v z)

-- Whatever entities and relations were added, in whatever order and with whatever results, the graph
-- is valid, and it is read back from what is written of it: `deserialize` accepts the payload, and
-- returns a valid graph with the same entities in the same order and with the same relations.
pub Built-deserialize :
    (g : KnowledgeGraph)
    → Built g
    → IsValid g
      × ((g' : KnowledgeGraph) × (deserialize (serialize g) ≡ ok g')
          × IsValid g'
          × (g'.entities ≡ g.entities)
          × ((s : ℕ) (p : List ℕ) (o : ℕ)
              → (has_relation s p o g' ≡ true) ↔ (has_relation s p o g ≡ true)))
Built-deserialize g b = let (v, z) = Built-Sound g b in (v, deserialize-serialize g v z)
