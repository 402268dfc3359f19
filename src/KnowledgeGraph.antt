-- ===== src/KnowledgeGraph.antt =====
-- The knowledge graph of enclave/src/rag_engine/src/graph.rs: entities in an arena, joined by relations
-- with a predicate, and a rank for each entity that grows along every relation. A text is the list of
-- its bytes. A `BTreeMap` from ids is the list of its entries in the order of the ids, a `BTreeSet` the
-- list of its members in order; the index of the texts is read by key only, newest first.
pub mod Maps
pub mod Search
pub mod Tables
pub mod Marks
pub mod Reach
pub mod Loops
pub mod Ranks
pub mod Counts
pub mod Incoming
pub mod Release
pub mod Marking
pub mod Placing
pub mod Sources
pub mod Ranked
pub mod Relations
pub mod Valid
pub mod Entities
pub mod Queries
pub mod Insertion
pub mod Correct
pub mod Access
pub mod Listing
pub mod Listed
pub mod Sorted
pub mod Evidence
pub mod Labelled
pub mod Traced
pub mod Found
pub mod Payload
pub mod Loaded
pub mod Built
pub mod Acyclic
mod Examples
use flare_verifiable_rag.Prelude.{
  ℕ, zero, suc, ◌+◌, ◌-◌, Bool, true, false, not, Option, none, some, List, [], ◌∷◌, ◌++◌, map,
  length, get_elem?, any, ltb, ◌==◌, if◌then◌else◌, Result, ok, err, text_eq, compare,
}
use Prim.Native.Nat.{Ordering}
use Prim.Native.Nat.Ordering.{lt, eq, gt}
use flare_verifiable_rag.TokenGraph.{find_key}

-- `MAX_SYMBOL_LEN`
abbrev pub max_symbol_len : ℕ
max_symbol_len = 512

pub data GraphError : Type 0 where
  empty_entity : GraphError
  entity_too_long : ℕ → ℕ → GraphError
  empty_predicate : GraphError
  predicate_too_long : ℕ → ℕ → GraphError
  unknown_entity : ℕ → GraphError
  self_loop : ℕ → GraphError
  cycle : ℕ → ℕ → GraphError
  cyclic_payload : GraphError

pub record Entity : Type 0 where
  pub id : ℕ
  pub text : List ℕ

pub record Relation : Type 0 where
  pub subject : ℕ
  pub predicate : List ℕ
  pub object : ℕ

abbrev pub Row : Type 0
Row = List (ℕ × List (List ℕ))

abbrev pub Adjacency : Type 0
Adjacency = List (ℕ × Row)

pub record KnowledgeGraph : Type 0 where
  pub entities : List Entity
  pub out : Adjacency
  pub in_ : Adjacency
  pub by_text : List (List ℕ × ℕ)
  pub topo : List ℕ

-- The order of texts, byte by byte.
unfoldable pub text_compare : List ℕ → List ℕ → Ordering
text_compare [] [] = eq
text_compare [] (b ∷ bs) = lt
text_compare (a ∷ as') [] = gt
text_compare (a ∷ as') (b ∷ bs) = elim (compare a b) [
  | lt ↦ lt
  | eq ↦ text_compare as' bs
  | gt ↦ gt
]

-- `BTreeSet::insert` and `contains` on texts
unfoldable pub text_insert : List ℕ → List (List ℕ) → List (List ℕ)
unfolding text_compare
text_insert p [] = p ∷ []
text_insert p (q ∷ qs) = elim (text_compare p q) [
  | lt ↦ p ∷ q ∷ qs
  | eq ↦ q ∷ qs
  | gt ↦ q ∷ text_insert p qs
]

abbrev pub text_member : List ℕ → List (List ℕ) → Bool
text_member p ps = any (text_eq p) ps

module _ {ℓ} {A : Type ℓ} where
  -- `get`, with an empty row for none
  unfoldable pub row : ℕ → List (ℕ × List A) → List A
  row k [] = []
  row k ((j, as') ∷ m) = if k == j then as' else row k m

  -- `entry(k).or_default()`, and what is then done to the entry
  unfoldable pub update : ℕ → (List A → List A) → List (ℕ × List A) → List (ℕ × List A)
  update k f [] = (k, f []) ∷ []
  update k f ((j, as') ∷ m) = elim (compare k j) [
    | lt ↦ (k, f []) ∷ (j, as') ∷ m
    | eq ↦ (j, f as') ∷ m
    | gt ↦ (j, as') ∷ update k f m
  ]

unfoldable pub insert_half : ℕ → List ℕ → ℕ → Adjacency → Adjacency
unfolding update text_insert
insert_half a p b m = update a (update b (text_insert p)) m

-- `KnowledgeGraph::new`
unfoldable pub new : KnowledgeGraph
new = record { entities = []; out = []; in_ = []; by_text = []; topo = [] }

unfoldable pub entity_id : List ℕ → KnowledgeGraph → Option ℕ
entity_id text g = find_key text g.by_text

unfoldable pub add_unless_known :
    Option ℕ → List ℕ → KnowledgeGraph → KnowledgeGraph × Result ℕ GraphError
add_unless_known (some id) text g = (g, ok id)
add_unless_known none text g =
    let id = length g.entities in
    (
      record g {
        entities = g.entities ++ record { id = id; text = text } ∷ [];
        by_text = (text, id) ∷ g.by_text;
        topo = g.topo ++ 0 ∷ [];
      },
      ok id,
    )

unfoldable pub add_entity : List ℕ → KnowledgeGraph → KnowledgeGraph × Result ℕ GraphError
unfolding add_unless_known entity_id
add_entity text g =
    if length text == 0
    then (g, err empty_entity)
    else if ltb max_symbol_len (length text)
    then (g, err (entity_too_long (length text) max_symbol_len))
    else add_unless_known (entity_id text g) text g

unfoldable pub has_relation : ℕ → List ℕ → ℕ → KnowledgeGraph → Bool
unfolding row
has_relation subject predicate object g = text_member predicate (row object (row subject g.out))

unfoldable pub insert_edge : ℕ → List ℕ → ℕ → KnowledgeGraph → KnowledgeGraph
unfolding insert_half
insert_edge subject predicate object g = record g {
  out = insert_half subject predicate object g.out;
  in_ = insert_half object predicate subject g.in_;
}
