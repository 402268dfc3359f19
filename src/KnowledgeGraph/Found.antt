-- ===== src/KnowledgeGraph/Found.antt =====
-- `find_path` of graph.rs returns exactly the subgraph that it is asked for.
use mathlib.Core.List.Memᴰ
use flare_verifiable_rag.Prelude.{
  ℕ, ◌<◌, ◌≡◌, ◌↔◌, ◌⊎◌, inl, inr, refl, ap, ◌∙◌, subst, Bool, true, List, [], ◌∷◌, map, length,
  get_elem?-lt, Bool-cases, Option-cases, Memᴰ, none, some,
}
use flare_verifiable_rag.KnowledgeGraph.{
  KnowledgeGraph, Adjacency, Relation, entity_id, has_relation,
}
use flare_verifiable_rag.KnowledgeGraph.Search.{mark, all_false}
use flare_verifiable_rag.KnowledgeGraph.Marks.{length-mark, length-all_false}
use flare_verifiable_rag.KnowledgeGraph.Reach.{
  Reaches, InRange, start-Searching, start_fuel, only-marked,
}
use flare_verifiable_rag.KnowledgeGraph.Evidence.{
  EvidencePath, insert_by, sort_by, reached_le, evidence_le, path_of, path_from, find_path,
  sorted_path,
}
use flare_verifiable_rag.KnowledgeGraph.Labelled.{keep, neighbours-keep, labelled_iff}
use flare_verifiable_rag.KnowledgeGraph.Traced.{Tracing, path_loop-Traced}
use flare_verifiable_rag.KnowledgeGraph.Valid.{IsValid}
use flare_verifiable_rag.KnowledgeGraph.Correct.{has_relation-edge}

-- Sorting changes the order only.
module _ {ℓ κ} {A : Type ℓ} {B : Type κ} (le : A → A → Bool) (f : A → B) where
  Memᴰ-insert_by :
      (y : B) (x : A) (xs : List A)
      → Memᴰ y (map f (insert_by le x xs)) ↔ (y ≡ f x) ⊎ Memᴰ y (map f xs)
  unfolding insert_by
  Memᴰ-insert_by y x [] = (
    λ here. inl (Memᴰ.eq_of_singleton here),
    λ c. elim c [ inl e ↦ Memᴰ.head e | inr there ↦ absurd (Memᴰ.not-nil there) ],
  )
  Memᴰ-insert_by y x (z ∷ zs) =
      let ih = Memᴰ-insert_by y x zs in
      elim (Bool-cases (le x z)) [
        | inl e ↦ rw e (
          λ here. Memᴰ.cases_cons here,
          λ c. elim c [ inl same ↦ Memᴰ.head same | inr there ↦ Memᴰ.tail there ],
        )
        | inr e ↦ rw e (
          λ here. elim (Memᴰ.cases_cons here) [
            | inl same ↦ inr (Memᴰ.head same)
            | inr later ↦ elim (ih.0 later) [
              | inl same ↦ inl same
              | inr there ↦ inr (Memᴰ.tail there)
            ]
          ],
          λ c. elim c [
            | inl same ↦ Memᴰ.tail (ih.1 (inl same))
            | inr there ↦ elim (Memᴰ.cases_cons there) [
              | inl same ↦ Memᴰ.head same
              | inr later ↦ Memᴰ.tail (ih.1 (inr later))
            ]
          ],
        )
      ]

  Memᴰ-sort_by : (y : B) (xs : List A) → Memᴰ y (map f (sort_by le xs)) ↔ Memᴰ y (map f xs)
  unfolding sort_by
  Memᴰ-sort_by y [] = (λ here. here, λ here. here)
  Memᴰ-sort_by y (x ∷ xs) =
      let inserted = Memᴰ-insert_by y x (sort_by le xs) in
      let ih = Memᴰ-sort_by y xs in
      (
        λ here. elim (inserted.0 here) [
          | inl same ↦ Memᴰ.head same
          | inr there ↦ Memᴰ.tail (ih.0 there)
        ],
        λ here.
            inserted.1
              (elim (Memᴰ.cases_cons here) [ inl same ↦ inl same | inr later ↦ inr (ih.1 later) ]),
      )

keep-InRange :
    (p : List ℕ) (g : KnowledgeGraph) → IsValid g → InRange (keep p g.out) (length g.entities)
keep-InRange p g v = λ a b here.
    let along = subst (λ os. Memᴰ b os) (neighbours-keep p g.out a) here in
    let there = (labelled_iff p a b g v.edges.out_table).0 along in
    (v.edges.ends a b (has_relation-edge a p b g there)).1

start-Tracing :
    (m : Adjacency) (p : List ℕ) (n src : ℕ)
    → src < n
    → Tracing m p src (mark src (all_false n)) ((src, 0) ∷ []) [] []
start-Tracing m p n src h =
    let s = start-Searching (keep p m) n src h in
    record {
      searching = s;
      seen = λ v. (
        λ (below, mk). inr (
            Memᴰ.head (
              only-marked n src v
                (subst (λ k. v < k) (length-mark src (all_false n) ∙ length-all_false n) below)
                mk)),
        λ c. elim c [
          | inl none_there ↦ absurd (Memᴰ.not-nil none_there)
          | inr here ↦ s.waiting v here
        ],
      );
      traced = λ r. (λ here. absurd (Memᴰ.not-nil here), λ (a, b, c). absurd (Memᴰ.not-nil c));
    }

-- The entities are those that the relations with the predicate lead to from the anchor, itself
-- included, and the relations are those with the predicate that leave one of them.
pub record IsEvidence (g : KnowledgeGraph) (anchor : ℕ) (p : List ℕ) (x : EvidencePath)
    : Type 0 where
  pub anchored : (x.subject ≡ anchor) × (x.predicate ≡ p)
  pub entities_reached : (v : ℕ) → Memᴰ v x.entities ↔ Reaches (keep p g.out) anchor v
  pub relations_left :
      (r : Relation)
      → Memᴰ r x.relations
        ↔ (r.predicate ≡ p)
          × (has_relation r.subject p r.object g ≡ true)
          × Reaches (keep p g.out) anchor r.subject

path_from-IsEvidence :
    (anchor : ℕ) (p : List ℕ) (g : KnowledgeGraph)
    → IsValid g
    → anchor < length g.entities
    → (x : EvidencePath) × (path_from anchor p g ≡ some x) × IsEvidence g anchor p x
unfolding path_from
path_from-IsEvidence anchor p g v h =
    let n = length g.entities in
    let t =
      path_loop-Traced g.out p anchor n n (mark anchor (all_false n)) ((anchor, 0) ∷ []) [] []
        (keep-InRange p g v) (length-mark anchor (all_false n) ∙ length-all_false n)
        (start_fuel n anchor h) (start-Tracing g.out p n anchor h) in
    (
      sorted_path anchor p (sort_by reached_le t.found) (sort_by evidence_le t.edges),
      ap (path_of anchor p) t.returned,
      record {
        anchored = (refl, refl);
        entities_reached = λ w.
            let sorted = Memᴰ-sort_by reached_le (λ y. y.0) w t.found in
            (
              λ here. (t.entities_found w).0 (sorted.0 here),
              λ r. sorted.1 ((t.entities_found w).1 r),
            );
        relations_left = λ r.
            let sorted = Memᴰ-sort_by evidence_le (λ y. y.0) r t.edges in
            let edge = labelled_iff p r.subject r.object g v.edges.out_table in
            (
              λ here. let (a, b, c) = (t.relations_found r).0 (sorted.0 here) in (a, edge.0 b, c),
              λ (a, b, c). sorted.1 ((t.relations_found r).1 (a, edge.1 b, c)),
            );
      },
    )

-- For the text of an entity `find_path` returns the entities that are reached from it along relations
-- with exactly the given predicate, itself included, and exactly the relations with that predicate that
-- leave one of them; for any other text it returns nothing.
pub find_path_correct :
    (subject p : List ℕ) (g : KnowledgeGraph)
    → IsValid g
    → ((entity_id subject g ≡ none) × (find_path subject p g ≡ none))
      ⊎ ((anchor : ℕ) × (entity_id subject g ≡ some anchor)
          × ((x : EvidencePath) × (find_path subject p g ≡ some x) × IsEvidence g anchor p x))
unfolding find_path
find_path_correct subject p g v = elim (Option-cases (entity_id subject g)) [
  | inl e ↦ inl (e, rw (e, find_path) refl)
  | inr (anchor, e) ↦
      let (entity, at_anchor, _) = (v.indexed.known subject anchor).0 e in
      let bound = get_elem?-lt g.entities anchor entity at_anchor in
      let (x, found, good) = path_from-IsEvidence anchor p g v bound in
      inr (anchor, e, (x, rw (e, find_path) found, good))
]
