-- ===== src/KnowledgeGraph/Evidence.antt =====
-- `find_path` of graph.rs: the subgraph that the relations with one predicate reach from an entity.
use flare_verifiable_rag.Prelude.{
  ℕ, zero, suc, ◌+◌, Bool, true, false, ◌&&◌, ◌||◌, Option, none, some, ltb, leb, ◌==◌,
  if◌then◌else◌, List, [], ◌∷◌, ◌++◌, map, length,
}
use Prim.Native.Nat.{Ordering}
use Prim.Native.Nat.Ordering.{lt, eq, gt}
use flare_verifiable_rag.KnowledgeGraph.{
  KnowledgeGraph, Adjacency, Row, Relation, row, text_member, text_compare, entity_id,
}
use flare_verifiable_rag.KnowledgeGraph.Search.{all_false, mark, discover}

-- `Path`
pub record EvidencePath : Type 0 where
  pub subject : ℕ
  pub predicate : List ℕ
  pub entities : List ℕ
  pub depths : List ℕ
  pub relations : List Relation
  pub relation_depths : List ℕ

-- The neighbours along the edges with the predicate.
unfoldable pub labelled_row : List ℕ → Row → List ℕ
labelled_row p [] = []
labelled_row p ((o, preds) ∷ objs) =
    let rest = labelled_row p objs in if text_member p preds then o ∷ rest else rest

unfoldable pub labelled : List ℕ → Adjacency → ℕ → List ℕ
unfolding labelled_row row
labelled p m v = labelled_row p (row v m)

-- An entity and its depth; a relation and the depth of its subject.
abbrev pub Reached : Type 0
Reached = ℕ × ℕ

abbrev pub Evidence : Type 0
Evidence = Relation × ℕ

abbrev pub at_depth : ℕ → ℕ → Reached
at_depth d v = (v, d)

abbrev pub evidence : ℕ → List ℕ → ℕ → ℕ → Evidence
evidence v p d o = (record { subject = v; predicate = p; object = o }, d)

-- The loop; `none` means that the fuel ran out.
unfoldable pub path_loop :
    ℕ
    → Adjacency
    → List ℕ
    → List Bool
    → List Reached
    → List Reached
    → List Evidence
    → Option (List Reached × List Evidence)
unfolding discover labelled
path_loop fuel m p visited [] found edges = some (found, edges)
path_loop zero m p visited (x ∷ queue) found edges = none
path_loop (suc fuel) m p visited ((v, d) ∷ queue) found edges =
    let targets = labelled p m v in
    let (visited', pushed) = discover targets visited in
    path_loop fuel m p visited' (queue ++ map (at_depth (d + 1)) pushed) (found ++ (v, d) ∷ [])
      (edges ++ map (evidence v p d) targets)

-- A stable sort.
module _ {ℓ} {A : Type ℓ} where
  unfoldable pub insert_by : (A → A → Bool) → A → List A → List A
  insert_by le x [] = x ∷ []
  insert_by le x (y ∷ ys) = let rest = insert_by le x ys in if le x y then x ∷ y ∷ ys else y ∷ rest

  unfoldable pub sort_by : (A → A → Bool) → List A → List A
  unfolding insert_by
  sort_by le [] = []
  sort_by le (x ∷ xs) = insert_by le x (sort_by le xs)

-- The comparison by depth and then by id.
abbrev pub reached_le : Reached → Reached → Bool
reached_le (v, d) (w, e) = ltb d e || (d == e && leb v w)

abbrev pub text_le : Ordering → Bool → Bool
text_le lt b = true
text_le eq b = b
text_le gt b = false

-- The comparison by subject, predicate and object.
abbrev pub evidence_le : Evidence → Evidence → Bool
evidence_le (r, d) (s, e) =
    ltb r.subject s.subject
    || (r.subject == s.subject
        && text_le (text_compare r.predicate s.predicate) (leb r.object s.object))

abbrev pub sorted_path : ℕ → List ℕ → List Reached → List Evidence → EvidencePath
sorted_path anchor p found edges = record {
  subject = anchor;
  predicate = p;
  entities = map (λ x. x.0) found;
  depths = map (λ x. x.1) found;
  relations = map (λ x. x.0) edges;
  relation_depths = map (λ x. x.1) edges;
}

abbrev pub path_of : ℕ → List ℕ → Option (List Reached × List Evidence) → Option EvidencePath
path_of anchor p none = none
path_of anchor p (some (found, edges)) =
    some (sorted_path anchor p (sort_by reached_le found) (sort_by evidence_le edges))

unfoldable pub path_from : ℕ → List ℕ → KnowledgeGraph → Option EvidencePath
unfolding all_false mark path_loop sort_by
path_from anchor p g =
    let n = length g.entities in
    path_of anchor p (path_loop n g.out p (mark anchor (all_false n)) ((anchor, 0) ∷ []) [] [])

unfoldable pub find_path : List ℕ → List ℕ → KnowledgeGraph → Option EvidencePath
unfolding entity_id path_from
find_path subject p g = elim (entity_id subject g) [
  | none ↦ none
  | some anchor ↦ path_from anchor p g
]
