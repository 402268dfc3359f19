-- ===== src/KnowledgeGraph/Access.antt =====
-- The accessors of graph.rs for entities: `entity_count`, `is_empty`, `entity`, `contains_entity`.
use flare_verifiable_rag.Prelude.{
  ℕ, ◌≡◌, ◌↔◌, inl, inr, refl, Bool, true, false, Option, none, some, List, [], ◌∷◌, length,
  get_elem?, Option-cases,
}
use flare_verifiable_rag.KnowledgeGraph.{KnowledgeGraph, Entity, entity_id}
use flare_verifiable_rag.KnowledgeGraph.Valid.{IsValid}

unfoldable pub entity_count : KnowledgeGraph → ℕ
entity_count g = length g.entities

unfoldable pub is_empty : KnowledgeGraph → Bool
is_empty g = elim g.entities [ [] ↦ true | e ∷ es ↦ false ]

unfoldable pub entity : ℕ → KnowledgeGraph → Option Entity
entity id g = get_elem? g.entities id

abbrev is_known : Option ℕ → Bool
is_known none = false
is_known (some id) = true

unfoldable pub contains_entity : List ℕ → KnowledgeGraph → Bool
unfolding entity_id
contains_entity text g = is_known (entity_id text g)

known_iff :
    (text : List ℕ) (g : KnowledgeGraph)
    → (contains_entity text g ≡ true) ↔ ((id : ℕ) × (entity_id text g ≡ some id))
unfolding contains_entity
known_iff text g = elim (Option-cases (entity_id text g)) [
  | inl e ↦ rw e (λ h. absurd cc, λ (id, h). absurd cc)
  | inr (id, e) ↦ rw e (λ h. (id, refl), λ h. refl)
]

-- On a valid graph `entity_id` and `entity` are inverse to each other, and a text is contained exactly
-- if it is that of an entity.
pub access_correct :
    (text : List ℕ) (g : KnowledgeGraph)
    → IsValid g
    → ((id : ℕ)
        → (entity_id text g ≡ some id)
          ↔ ((e : Entity) × (entity id g ≡ some e) × (e.text ≡ text) × (e.id ≡ id)))
      × ((contains_entity text g ≡ true)
          ↔ ((id : ℕ) × (e : Entity) × (entity id g ≡ some e) × (e.text ≡ text)))
unfolding entity
access_correct text g v =
    let known = v.indexed.known text in
    (
      λ id. (
        λ h. let (e, at_id, t) = (known id).0 h in (e, at_id, t, v.indexed.placed id e at_id),
        λ (e, at_id, t, _). (known id).1 (e, at_id, t),
      ),
      (
        λ h.
            let (id, found) = (known_iff text g).0 h in
            let (e, at_id, t) = (known id).0 found in (id, e, at_id, t),
        λ (id, e, at_id, t). (known_iff text g).1 (id, (known id).1 (e, at_id, t)),
      ),
    )
