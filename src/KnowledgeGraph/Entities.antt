-- ===== src/KnowledgeGraph/Entities.antt =====
-- `add_entity` of graph.rs keeps a graph well-formed, and what it returns.
use flare_verifiable_rag.Prelude.{
  ℕ, zero, suc, ◌+◌, ◌<◌, ◌≤◌, ◌≡◌, ◌≢◌, ◌↔◌, ◌⊎◌, inl, inr, refl, sym, ap, ◌∙◌, subst, false, none,
  some, List, [], ◌∷◌, ◌++◌, length, length-append, get_elem?, get_elem?-lt, ◌==◌, ltb,
  if◌then◌else◌, Bool-cases, Option-cases, arith, text_eq, text_eq_iff, Result, ok, err,
}
use flare_verifiable_rag.TokenGraph.{find_key}
use flare_verifiable_rag.KnowledgeGraph.{
  KnowledgeGraph, Entity, GraphError, entity_id, add_unless_known, add_entity, max_symbol_len,
}
use flare_verifiable_rag.KnowledgeGraph.{empty_entity, entity_too_long}
use flare_verifiable_rag.KnowledgeGraph.Valid.{IsIndexed, IsValid}

get_elem?-snoc {ℓ} :
    {A : Type ℓ} (xs : List A) (x : A) (i : ℕ)
    → get_elem? (xs ++ x ∷ []) i ≡ (if i == length xs then some x else get_elem? xs i)
get_elem?-snoc [] x zero = refl
get_elem?-snoc [] x (suc i) = ground arith
get_elem?-snoc (y ∷ xs) x zero = ground arith
get_elem?-snoc (y ∷ xs) x (suc i) = ground (arith, get_elem?-snoc xs x i)

get_elem?-none {ℓ} : {A : Type ℓ} (xs : List A) → get_elem? xs (length xs) ≡ none
get_elem?-none [] = refl
get_elem?-none (x ∷ xs) = get_elem?-none xs

-- An entity of the longer arena is the new one at its end, or one that was there before.
snoc-cases {ℓ} :
    {A : Type ℓ} (xs : List A) (x y : A) (i : ℕ)
    → get_elem? (xs ++ x ∷ []) i ≡ some y
    → (i ≡ length xs) × (x ≡ y) ⊎ (get_elem? xs i ≡ some y)
snoc-cases xs x y i h = elim (Bool-cases (i == length xs)) [
  | inl c ↦
      let q : some x ≡ some y = rw (sym h, get_elem?-snoc xs x i, c) refl in inl (ground arith, cc)
  | inr c ↦ inr (rw (sym h, get_elem?-snoc xs x i, c) refl)
]

snoc-last {ℓ} : {A : Type ℓ} (xs : List A) (x : A) → get_elem? (xs ++ x ∷ []) (length xs) ≡ some x
snoc-last xs x = rw (get_elem?-snoc xs x (length xs)) (ground arith)

snoc-old {ℓ} :
    {A : Type ℓ} (xs : List A) (x y : A) (i : ℕ)
    → get_elem? xs i ≡ some y
    → get_elem? (xs ++ x ∷ []) i ≡ some y
snoc-old xs x y i h = let below = get_elem?-lt xs i y h in rw (get_elem?-snoc xs x i) (ground arith)

-- A new text enters the index as the last entity.
fresh-known :
    (text : List ℕ) (g : KnowledgeGraph)
    → entity_id text g ≡ none
    → IsIndexed g
    → (key : List ℕ) (i : ℕ)
    → ((if text_eq text key then some (length g.entities) else entity_id key g) ≡ some i) ↔ (
        (e : Entity) × (get_elem?
            (g.entities ++ record { id = length g.entities; text = text } ∷ [])
            i
          ≡ some e)
        × (e.text ≡ key))
fresh-known text g fresh x key i =
    let last : Entity = record { id = length g.entities; text = text } in
    elim (Bool-cases (text_eq text key)) [
      | inl c ↦
          let same = (text_eq_iff text key).0 c in
          rw c (
            λ h.
                let here : length g.entities ≡ i = ground arith in
                (
                  last,
                  subst (λ k. get_elem? (g.entities ++ last ∷ []) k ≡ some last) here
                      (snoc-last g.entities last),
                  same,
                ),
            λ (e, h, t). elim (snoc-cases g.entities last e i h) [
              | inl (here, _) ↦ ap some (sym here)
              | inr old ↦
                  let stale = (x.known text i).1 (e, old, t ∙ sym same) in
                  absurd (ground (arith, sym fresh ∙ stale))
            ],
          )
      | inr c ↦ rw c (
        λ h. let (e, old, t) = (x.known key i).0 h in (e, snoc-old g.entities last e i old, t),
        λ (e, h, t). elim (snoc-cases g.entities last e i h) [
          | inl (_, new_one) ↦
              let met = (text_eq_iff text key).1 (ap (λ y. y.text) new_one ∙ t) in
              absurd (ground (arith, c, met))
          | inr old ↦ (x.known key i).1 (e, old, t)
        ],
      )
    ]

fresh-IsIndexed :
    (text : List ℕ) (g : KnowledgeGraph)
    → entity_id text g ≡ none
    → IsIndexed g
    → IsIndexed (add_unless_known none text g).0
unfolding entity_id add_unless_known find_key
fresh-IsIndexed text g fresh x = record {
  placed = λ i e h.
      elim (snoc-cases g.entities (record { id = length g.entities; text = text }) e i h) [
        | inl (here, new_one) ↦ sym (ap (λ y. y.id) new_one) ∙ sym here
        | inr old ↦ x.placed i e old
      ];
  known = λ key i. fresh-known text g fresh x key i;
}

rank_of-snoc :
    (ranks : List ℕ) (r i : ℕ)
    → i < length ranks
    → get_elem? (ranks ++ r ∷ []) i ≡ get_elem? ranks i
rank_of-snoc ranks r i h = rw (get_elem?-snoc ranks r i) (ground arith)

-- A new entity has no edges, so that any rank will do.
pub fresh-IsValid :
    (text : List ℕ) (g : KnowledgeGraph)
    → entity_id text g ≡ none
    → IsValid g
    → IsValid (add_unless_known none text g).0
unfolding add_unless_known
fresh-IsValid text g fresh v =
    let longer = length-append g.entities (record { id = length g.entities; text = text } ∷ []) in
    record {
      indexed = fresh-IsIndexed text g fresh v.indexed;
      edges = record {
        out_table = v.edges.out_table;
        in_table = v.edges.in_table;
        ends = λ a b here.
            let (l, r) = v.edges.ends a b here in
            (omega (arith, longer, l), omega (arith, longer, r));
        joined = v.edges.joined;
        mirrored = v.edges.mirrored;
      };
      ranked = record {
        sized = length-append g.topo (0 ∷ []) ∙ ap (λ k. k + 1) v.ranked.sized ∙ sym longer;
        growing = λ a b here.
            let (l, r) = v.edges.ends a b here in
            let sized = v.ranked.sized in
            rw (rank_of-snoc g.topo 0 a (omega arith), rank_of-snoc g.topo 0 b (omega arith))
              (v.ranked.growing a b here);
      };
    }

added-IsValid :
    (text : List ℕ) (g : KnowledgeGraph)
    → IsValid g
    → IsValid (add_unless_known (entity_id text g) text g).0
unfolding add_unless_known
added-IsValid text g v = elim (Option-cases (entity_id text g)) [
  | inl fresh ↦ rw fresh (fresh-IsValid text g fresh v)
  | inr (i, old) ↦ rw old v
]

-- `add_entity` keeps a graph valid, whether it adds the entity, finds it or refuses it.
pub add_entity-IsValid :
    (text : List ℕ) (g : KnowledgeGraph) → IsValid g → IsValid (add_entity text g).0
unfolding add_entity
add_entity-IsValid text g v = elim (Bool-cases (length text == 0)) [
  | inl a ↦ rw a v
  | inr a ↦ elim (Bool-cases (ltb max_symbol_len (length text))) [
    | inl b ↦ rw (a, b) v
    | inr b ↦ rw (a, b) (added-IsValid text g v)
  ]
]

-- The graph holds the text under the id that is returned, and every other text as before.
abbrev pub Stored : List ℕ → KnowledgeGraph → KnowledgeGraph × Result ℕ GraphError → Type 0
Stored text g (g', r) =
    (id : ℕ) × (r ≡ ok id)
    × ((key : List ℕ) → entity_id key g' ≡ (if text_eq text key then some id else entity_id key g))

fresh-Stored : (text : List ℕ) (g : KnowledgeGraph) → Stored text g (add_unless_known none text g)
unfolding add_unless_known entity_id find_key
fresh-Stored text g = (length g.entities, refl, λ key. refl)

added-Stored :
    (text : List ℕ) (g : KnowledgeGraph)
    → Stored text g (add_unless_known (entity_id text g) text g)
unfolding add_unless_known
added-Stored text g = elim (Option-cases (entity_id text g)) [
  | inl fresh ↦ rw fresh (fresh-Stored text g)
  | inr (i, old) ↦ rw old (
    i,
    refl,
    λ key. elim (Bool-cases (text_eq text key)) [
      | inl c ↦ rw c (subst (λ k. entity_id k g ≡ some i) ((text_eq_iff text key).0 c) old)
      | inr c ↦ rw c refl
    ],
  )
]

add_entity-taken :
    (b : ℕ) (text : List ℕ) (g : KnowledgeGraph)
    → ltb max_symbol_len (suc (length text)) ≡ false
    → add_entity (b ∷ text) g ≡ add_unless_known (entity_id (b ∷ text) g) (b ∷ text) g
unfolding add_entity
add_entity-taken b text g short = rw short (ground arith)

-- `add_entity` refuses the empty text and a text of more than 512 bytes, and then leaves the graph as
-- it was; any other text it holds afterwards under the id that it returns, and all others as before.
pub add_entity-result :
    (text : List ℕ) (g : KnowledgeGraph)
    → (text ≡ []) × (add_entity text g ≡ (g, err empty_entity))
      ⊎ ((512 < length text) × (add_entity text g ≡ (g, err (entity_too_long (length text) 512)))
          ⊎ (text ≢ []) × (length text ≤ 512) × Stored text g (add_entity text g))
unfolding add_entity
add_entity-result [] g = inl (refl, refl)
add_entity-result (b ∷ text) g = inr (elim (Bool-cases (ltb max_symbol_len (suc (length text)))) [
  | inl long ↦ inl (ground arith, rw long (ground arith))
  | inr short ↦ inr (
    λ e. cc,
    ground arith,
    subst (Stored (b ∷ text) g) (sym (add_entity-taken b text g short)) (added-Stored (b ∷ text) g),
  )
])

-- `add_entity` keeps a valid graph valid on every branch. It refuses the empty text and a text of more
-- than 512 bytes, and then leaves the graph as it was; any other text it holds afterwards under the id
-- that it returns, and all others as before.
pub add_entity_correct :
    (text : List ℕ) (g : KnowledgeGraph)
    → IsValid g
    → IsValid (add_entity text g).0
      × ((text ≡ []) × (add_entity text g ≡ (g, err empty_entity))
          ⊎ ((512 < length text)
                × (add_entity text g ≡ (g, err (entity_too_long (length text) 512)))
              ⊎ (text ≢ []) × (length text ≤ 512) × Stored text g (add_entity text g)))
add_entity_correct text g valid = (add_entity-IsValid text g valid, add_entity-result text g)
