-- ===== src/KnowledgeGraph/Correct.antt =====
-- `add_relation` of graph.rs keeps the graph acyclic and refuses no more than it must.
use flare_verifiable_rag.Prelude.{
  ℕ, ◌<◌, ◌≤◌, ◌≡◌, ◌≢◌, ◌⊎◌, inl, inr, refl, ap, ◌∙◌, true, false, List, [], ◌∷◌, map, length,
  ◌==◌, ltb, leb, if◌then◌else◌, Bool-cases, arith, Memᴰ, ok, err, ◌&&◌, ◌||◌, text_eq, text_eq_iff,
  ==_iff, List-cases,
}
use flare_verifiable_rag.KnowledgeGraph.{
  KnowledgeGraph, row, GraphError, cycle, has_relation, text_member, max_symbol_len, unknown_entity,
  self_loop, empty_predicate, predicate_too_long,
}
use flare_verifiable_rag.KnowledgeGraph.Search.{neighbours}
use flare_verifiable_rag.KnowledgeGraph.Reach.{Reaches}
use flare_verifiable_rag.KnowledgeGraph.Tables.{member-insert_half}
use flare_verifiable_rag.KnowledgeGraph.Relations.{relate, add_relation}
use flare_verifiable_rag.KnowledgeGraph.Insertion.{Added, relate-cases}
use flare_verifiable_rag.KnowledgeGraph.Valid.{IsValid}
use flare_verifiable_rag.KnowledgeGraph.Queries.{IsValid-acyclic}

add_relation-guarded :
    (s : ℕ) (p : List ℕ) (o : ℕ) (g : KnowledgeGraph)
    → s < length g.entities
    → o < length g.entities
    → s ≢ o
    → p ≢ []
    → length p ≤ 512
    → add_relation s p o g ≡ (if has_relation s p o g then (g, ok tt) else relate s p o g)
unfolding add_relation
add_relation-guarded s p o g hs ho different some_text short =
    let a : leb (length g.entities) s ≡ false = ground arith in
    let b : leb (length g.entities) o ≡ false = ground arith in
    let c : (s == o) ≡ false = elim (Bool-cases (s == o)) [
      | inl e ↦ absurd (different ((==_iff s o).0 e))
      | inr e ↦ e
    ] in
    let d : (length p == 0) ≡ false = elim (List-cases p) [
      | inl e ↦ absurd (some_text e)
      | inr (x, rest, e) ↦ rw e (ground arith)
    ] in
    let e : ltb max_symbol_len (length p) ≡ false = ground arith in rw (a, b, c, d, e) refl

any-nonempty : (p : List ℕ) (ps : List (List ℕ)) → text_member p ps ≡ true → ps ≢ []
any-nonempty p [] h e = cc
any-nonempty p (q ∷ ps) h e = cc

row-key {ℓ} :
    {A : Type ℓ} (k : ℕ) (m : List (ℕ × List A)) → row k m ≢ [] → Memᴰ k (map (λ e. e.0) m)
unfolding row
row-key k [] h = absurd (h refl)
row-key k ((j, as') ∷ m) h = elim (Bool-cases (k == j)) [
  | inl e ↦ Memᴰ.head (ground arith)
  | inr e ↦ Memᴰ.tail (row-key k m (rw (e, row) at h))
]

-- A relation that is there is an edge.
pub has_relation-edge :
    (s : ℕ) (p : List ℕ) (o : ℕ) (g : KnowledgeGraph)
    → has_relation s p o g ≡ true
    → Memᴰ o (neighbours g.out s)
unfolding has_relation neighbours
has_relation-edge s p o g h = row-key o (row s g.out) (any-nonempty p (row o (row s g.out)) h)

-- The relations afterwards are the new one and those before.
abbrev pub Extends : ℕ → List ℕ → ℕ → KnowledgeGraph → KnowledgeGraph → Type 0
Extends s p o g g' =
    (a : ℕ) (q : List ℕ) (b : ℕ)
    → has_relation a q b g' ≡ ((a == s && (b == o && text_eq q p)) || has_relation a q b g)

Added-Extends :
    (s : ℕ) (p : List ℕ) (o : ℕ) (g g' : KnowledgeGraph)
    → IsValid g
    → Added s p o g g'
    → Extends s p o g g'
unfolding has_relation
Added-Extends s p o g g' v added a q b =
    ap (λ m. text_member q (row b (row a m))) added.out_new
    ∙ member-insert_half s p o g.out v.edges.out_table a b q

present-Extends :
    (s : ℕ) (p : List ℕ) (o : ℕ) (g : KnowledgeGraph)
    → has_relation s p o g ≡ true
    → Extends s p o g g
present-Extends s p o g h a q b = elim (Bool-cases (a == s && (b == o && text_eq q p))) [
  | inl e ↦
      let (i, j, k) : (a ≡ s) × (b ≡ o) × (q ≡ p) = ground (arith, text_eq_iff q p) in
      rw e (rw (i, j, k) h)
  | inr e ↦ rw e refl
]

-- On a valid graph a relation between two different entities, with a predicate of 1 to 512 bytes, is
-- refused as a cycle exactly if a path of relations leads from the object to the subject; the graph
-- then stays as it was. Otherwise it is accepted: the graph is valid again, with the same entities,
-- and its relations are the new one and those before. No other error can come.
pub add_relation_correct :
    (s : ℕ) (p : List ℕ) (o : ℕ) (g : KnowledgeGraph)
    → IsValid g
    → s < length g.entities
    → o < length g.entities
    → s ≢ o
    → p ≢ []
    → length p ≤ 512
    → Reaches g.out o s × (add_relation s p o g ≡ (g, err (cycle s o)))
      ⊎ (¬ Reaches g.out o s)
        × ((g' : KnowledgeGraph) × (add_relation s p o g ≡ (g', ok tt))
            × IsValid g'
            × (g'.entities ≡ g.entities)
            × Extends s p o g g')
add_relation_correct s p o g v hs ho different some_text short =
    rw (add_relation-guarded s p o g hs ho different some_text short)
      (elim (Bool-cases (has_relation s p o g)) [
        | inl e ↦ rw e (
            inr (
              λ back. absurd (IsValid-acyclic g v s o (has_relation-edge s p o g e) back),
              (g, refl, v, refl, present-Extends s p o g e),
            ))
        | inr e ↦ rw e (elim (relate-cases s p o g v hs ho) [
          | inl (r, q) ↦ inl (r, q)
          | inr (apart, (g', q, added)) ↦
              inr
                (apart, (g', q, added.valid, added.entities_same, Added-Extends s p o g g' v added))
        ])
      ])

-- Either a guard refuses the relation, or all of them let it through.
pub add_relation_cases :
    (s : ℕ) (p : List ℕ) (o : ℕ) (g : KnowledgeGraph)
    → ((x : GraphError) × (add_relation s p o g ≡ (g, err x)))
      ⊎ (s < length g.entities) × (o < length g.entities) × (s ≢ o) × (p ≢ []) × (length p ≤ 512)
unfolding add_relation
add_relation_cases s p o g = elim (Bool-cases (leb (length g.entities) s)) [
  | inl a ↦ inl (unknown_entity s, rw (a, add_relation) refl)
  | inr a ↦ elim (Bool-cases (leb (length g.entities) o)) [
    | inl b ↦ inl (unknown_entity o, rw (a, b, add_relation) refl)
    | inr b ↦ elim (Bool-cases (s == o)) [
      | inl c ↦ inl (self_loop s, rw (a, b, c, add_relation) refl)
      | inr c ↦ elim (Bool-cases (length p == 0)) [
        | inl d ↦ inl (empty_predicate, rw (a, b, c, d, add_relation) refl)
        | inr d ↦ elim (Bool-cases (ltb max_symbol_len (length p))) [
          | inl f ↦
              inl (
                predicate_too_long (length p) max_symbol_len,
                rw (a, b, c, d, f, add_relation) refl,
              )
          | inr f ↦ inr (
            ground arith,
            ground arith,
            λ e. ground (arith, e),
            λ e. ground (arith, ap length e),
            ground arith,
          )
        ]
      ]
    ]
  ]
]

-- `add_relation` keeps a graph valid whatever it is asked to add, and leaves it as it was when it
-- returns an error.
pub add_relation-IsValid :
    (s : ℕ) (p : List ℕ) (o : ℕ) (g : KnowledgeGraph)
    → IsValid g
    → IsValid (add_relation s p o g).0
      × ((e : GraphError) → (add_relation s p o g).1 ≡ err e → (add_relation s p o g).0 ≡ g)
add_relation-IsValid s p o g v = elim (add_relation_cases s p o g) [
  | inl (x, q) ↦ rw q (v, λ e h. refl)
  | inr (hs, ho, d, some_text, short) ↦
      elim (add_relation_correct s p o g v hs ho d some_text short) [
        | inl (r, q) ↦ rw q (v, λ e h. refl)
        | inr (apart, (g', q, valid, same, extends)) ↦ rw q (valid, λ e h. cc)
      ]
]
