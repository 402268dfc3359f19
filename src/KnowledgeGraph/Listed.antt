-- ===== src/KnowledgeGraph/Listed.antt =====
-- The listings of relations in graph.rs hold exactly the relations.
use mathlib.Core.List.Memᴰ
use flare_verifiable_rag.Prelude.{
  length-map, ℕ, suc, ◌<◌, ◌≡◌, ◌↔◌, inl, inr, refl, ap, subst, true, false, List, [], ◌∷◌, map,
  length, length-append, ◌==◌, Bool-cases, arith, Memᴰ, text_eq, text_eq_iff,
}
use flare_verifiable_rag.KnowledgeGraph.{
  KnowledgeGraph, Adjacency, Row, Relation, row, text_member, has_relation,
}
use flare_verifiable_rag.KnowledgeGraph.Maps.{OrderedFrom, row-below}
use flare_verifiable_rag.KnowledgeGraph.Listing.{
  Pair, pair_of, pairs, outgoing, incoming, relation_of, all_relations, relations, count_predicates,
  count_relations, relation_count,
}
use flare_verifiable_rag.KnowledgeGraph.Valid.{IsValid}

no-pairs : (x : Pair) (r : Row) → r ≡ [] → ¬ Memᴰ x (pairs r)
unfolding pairs
no-pairs x r e here = Memᴰ.not-nil (subst (λ y. Memᴰ x (pairs y)) e here)

text_member_iff : (p : List ℕ) (ps : List (List ℕ)) → (text_member p ps ≡ true) ↔ Memᴰ p ps
text_member_iff p [] = (λ h. cc, λ here. absurd (Memᴰ.not-nil here))
text_member_iff p (q ∷ ps) = elim (Bool-cases (text_eq p q)) [
  | inl e ↦ rw e (λ h. Memᴰ.head ((text_eq_iff p q).0 e), λ here. refl)
  | inr e ↦ rw e (
    λ h. Memᴰ.tail ((text_member_iff p ps).0 h),
    λ here. elim (Memᴰ.cases_cons here) [
      | inl same ↦ absurd (ground (arith, e, (text_eq_iff p q).1 same))
      | inr later ↦ (text_member_iff p ps).1 later
    ],
  )
]

-- The pairs of one entry are its key with each of its predicates.
Memᴰ-entry :
    (k o : ℕ) (p : List ℕ) (ps : List (List ℕ))
    → Memᴰ (pair_of o p) (map (pair_of k) ps) ↔ (o ≡ k) × Memᴰ p ps
Memᴰ-entry k o p [] = (λ here. absurd (Memᴰ.not-nil here), λ (e, here). absurd (Memᴰ.not-nil here))
Memᴰ-entry k o p (q ∷ ps) =
    let ih = Memᴰ-entry k o p ps in
    (
      λ here. elim (Memᴰ.cases_cons here) [
        | inl same ↦ (ap (λ x. x.0) same, Memᴰ.head (ap (λ x. x.1) same))
        | inr later ↦ let (e, there) = ih.0 later in (e, Memᴰ.tail there)
      ],
      λ (e, here). elim (Memᴰ.cases_cons here) [
        | inl same ↦ Memᴰ.head (λ i. (e i, same i))
        | inr later ↦ Memᴰ.tail (ih.1 (e, later))
      ],
    )

nothing-below :
    (o b : ℕ) (p : List ℕ) (r : Row) → o < b → OrderedFrom b r → text_member p (row o r) ≡ false
nothing-below o b p r h ordered = rw (row-below o b r h ordered) refl

Memᴰ-pairs :
    (o : ℕ) (p : List ℕ) (b : ℕ) (r : Row)
    → OrderedFrom b r
    → Memᴰ (pair_of o p) (pairs r) ↔ (text_member p (row o r) ≡ true)
unfolding pairs row
Memᴰ-pairs o p b [] ordered = (λ here. absurd (Memᴰ.not-nil here), λ h. cc)
Memᴰ-pairs o p b ((k, ps) ∷ r) (low, ordered) =
    let ih = Memᴰ-pairs o p (suc k) r ordered in
    let entry = Memᴰ-entry k o p ps in
    elim (Bool-cases (o == k)) [
      | inl e ↦
          let same : o ≡ k = ground arith in
          let none_later = nothing-below o (suc k) p r (omega arith) ordered in
          rw (e, row)
            (
              λ here. elim (Memᴰ.append_cases (map (pair_of k) ps) here) [
                | inl first ↦ (text_member_iff p ps).1 (entry.0 first).1
                | inr later ↦ absurd (ground (arith, none_later, ih.0 later))
              ],
              λ h. Memᴰ.append_left (pairs r) (entry.1 (same, (text_member_iff p ps).0 h)),
            )
      | inr e ↦
          rw (e, row)
            (
              λ here. elim (Memᴰ.append_cases (map (pair_of k) ps) here) [
                | inl first ↦ let (same, _) = entry.0 first in absurd (ground arith)
                | inr later ↦ ih.0 later
              ],
              λ h. Memᴰ.append_right (map (pair_of k) ps) (ih.1 h),
            )
    ]

-- `outgoing` and `incoming` list exactly the relations of an entity, as subject and as object.
pub incident_correct :
    (s : ℕ) (p : List ℕ) (o : ℕ) (g : KnowledgeGraph)
    → IsValid g
    → (Memᴰ (pair_of o p) (outgoing s g) ↔ (has_relation s p o g ≡ true))
      × (Memᴰ (pair_of s p) (incoming o g) ↔ (has_relation s p o g ≡ true))
unfolding outgoing incoming has_relation
incident_correct s p o g v = (
  Memᴰ-pairs o p 0 (row s g.out) (v.edges.out_table.rows s),
  rw (v.edges.mirrored s o p) (Memᴰ-pairs s p 0 (row o g.in_) (v.edges.in_table.rows o)),
)

Memᴰ-relation_of :
    (t : ℕ) (r : Relation) (xs : List Pair)
    → Memᴰ r (map (relation_of t) xs) ↔ (r.subject ≡ t) × Memᴰ (pair_of r.object r.predicate) xs
Memᴰ-relation_of t r [] =
    (λ here. absurd (Memᴰ.not-nil here), λ (e, here). absurd (Memᴰ.not-nil here))
Memᴰ-relation_of t r ((o, p) ∷ xs) =
    let ih = Memᴰ-relation_of t r xs in
    (
      λ here. elim (Memᴰ.cases_cons here) [
        | inl same ↦ (ap (λ x. x.subject) same, Memᴰ.head (ap (λ x. (x.object, x.predicate)) same))
        | inr later ↦ let (e, there) = ih.0 later in (e, Memᴰ.tail there)
      ],
      λ (e, here). elim (Memᴰ.cases_cons here) [
        | inl same ↦
            Memᴰ.head (λ i. record { subject = e i; predicate = (same i).1; object = (same i).0 })
        | inr later ↦ Memᴰ.tail (ih.1 (e, later))
      ],
    )

Memᴰ-all_relations :
    (r : Relation) (b : ℕ) (m : Adjacency)
    → OrderedFrom b m
    → Memᴰ r (all_relations m) ↔ Memᴰ (pair_of r.object r.predicate) (pairs (row r.subject m))
unfolding all_relations row
Memᴰ-all_relations r b [] ordered =
    (λ here. absurd (Memᴰ.not-nil here), λ here. absurd (Memᴰ.not-nil here))
Memᴰ-all_relations r b ((t, objs) ∷ m) (low, ordered) =
    let ih = Memᴰ-all_relations r (suc t) m ordered in
    let first_row = Memᴰ-relation_of t r (pairs objs) in
    elim (Bool-cases (r.subject == t)) [
      | inl e ↦
          let same : r.subject ≡ t = ground arith in
          let empty_later = row-below r.subject (suc t) m (omega arith) ordered in
          rw (e, row)
            (
              λ here. elim (Memᴰ.append_cases (map (relation_of t) (pairs objs)) here) [
                | inl first ↦ (first_row.0 first).1
                | inr later ↦ absurd (
                    no-pairs (pair_of r.object r.predicate) (row r.subject m) empty_later
                      (ih.0 later))
              ],
              λ here. Memᴰ.append_left (all_relations m) (first_row.1 (same, here)),
            )
      | inr e ↦
          rw (e, row)
            (
              λ here. elim (Memᴰ.append_cases (map (relation_of t) (pairs objs)) here) [
                | inl first ↦ let (same, _) = first_row.0 first in absurd (ground arith)
                | inr later ↦ ih.0 later
              ],
              λ here. Memᴰ.append_right (map (relation_of t) (pairs objs)) (ih.1 here),
            )
    ]

length-pairs : (r : Row) → length (pairs r) ≡ count_predicates r
unfolding pairs count_predicates
length-pairs [] = refl
length-pairs ((o, ps) ∷ r) =
    omega (
      arith,
      length-append (map (pair_of o) ps) (pairs r),
      length-map (pair_of o) ps,
      length-pairs r,
    )

length-all_relations : (m : Adjacency) → length (all_relations m) ≡ count_relations m
unfolding all_relations count_relations
length-all_relations [] = refl
length-all_relations ((s, objs) ∷ m) = omega (
  arith,
  length-append (map (relation_of s) (pairs objs)) (all_relations m),
  length-map (relation_of s) (pairs objs),
  length-pairs objs,
  length-all_relations m,
)

-- `relations` lists exactly the relations of the graph, as many as `relation_count` says.
pub relations_correct :
    (g : KnowledgeGraph)
    → IsValid g
    → ((r : Relation)
        → Memᴰ r (relations g) ↔ (has_relation r.subject r.predicate r.object g ≡ true))
      × (length (relations g) ≡ relation_count g)
unfolding relations relation_count has_relation
relations_correct g v = (
  λ r.
      let listed = Memᴰ-all_relations r 0 g.out v.edges.out_table.ordered in
      let paired =
        Memᴰ-pairs r.object r.predicate 0 (row r.subject g.out)
          (v.edges.out_table.rows r.subject) in
      (λ here. paired.0 (listed.0 here), λ h. listed.1 (paired.1 h)),
  length-all_relations g.out,
)

-- In a valid graph `relations` lists exactly its relations, as many as `relation_count` says;
-- `outgoing` lists exactly those of a subject and `incoming` exactly those of an object.
pub listings_correct :
    (g : KnowledgeGraph)
    → IsValid g
    → ((r : Relation)
        → Memᴰ r (relations g) ↔ (has_relation r.subject r.predicate r.object g ≡ true))
      × (length (relations g) ≡ relation_count g)
      × ((s : ℕ) (p : List ℕ) (o : ℕ)
          → (Memᴰ (pair_of o p) (outgoing s g) ↔ (has_relation s p o g ≡ true))
            × (Memᴰ (pair_of s p) (incoming o g) ↔ (has_relation s p o g ≡ true)))
listings_correct g valid =
    let (listed, counted) = relations_correct g valid in
    (listed, counted, λ s p o. incident_correct s p o g valid)
