-- ===== src/KnowledgeGraph/Labelled.antt =====
-- The edges with one predicate, which `find_path` of graph.rs follows, as a graph of their own.
use mathlib.Core.List.Memᴰ
use flare_verifiable_rag.Prelude.{
  ℕ, suc, ◌≡◌, ◌↔◌, inl, inr, refl, ap, ◌∙◌, true, false, List, [], ◌∷◌, map, ◌==◌, if◌then◌else◌,
  Bool-cases, arith, Memᴰ,
}
use flare_verifiable_rag.KnowledgeGraph.{
  KnowledgeGraph, Adjacency, Row, row, text_member, has_relation,
}
use flare_verifiable_rag.KnowledgeGraph.Search.{neighbours}
use flare_verifiable_rag.KnowledgeGraph.Maps.{OrderedFrom, row-below}
use flare_verifiable_rag.KnowledgeGraph.Tables.{IsTable}
use flare_verifiable_rag.KnowledgeGraph.Evidence.{labelled, labelled_row}

abbrev pub keep_row : List ℕ → Row → Row
keep_row p [] = []
keep_row p ((o, ps) ∷ r) = if text_member p ps then (o, ps) ∷ keep_row p r else keep_row p r

-- The edges with the predicate.
abbrev pub keep : List ℕ → Adjacency → Adjacency
keep p [] = []
keep p ((u, r) ∷ m) = (u, keep_row p r) ∷ keep p m

row-keep : (p : List ℕ) (u : ℕ) (m : Adjacency) → row u (keep p m) ≡ keep_row p (row u m)
unfolding row
row-keep p u [] = refl
row-keep p u ((w, r) ∷ m) = elim (Bool-cases (u == w)) [
  | inl e ↦ rw (e, row) refl
  | inr e ↦ rw (e, row) (row-keep p u m)
]

keys-keep_row : (p : List ℕ) (r : Row) → map (λ e. e.0) (keep_row p r) ≡ labelled_row p r
unfolding labelled_row
keys-keep_row p [] = refl
keys-keep_row p ((o, ps) ∷ r) = elim (Bool-cases (text_member p ps)) [
  | inl e ↦ rw e (ap (λ x. o ∷ x) (keys-keep_row p r))
  | inr e ↦ rw e (keys-keep_row p r)
]

pub neighbours-keep :
    (p : List ℕ) (m : Adjacency) (u : ℕ) → neighbours (keep p m) u ≡ labelled p m u
unfolding neighbours labelled
neighbours-keep p m u = ap (map (λ e. e.0)) (row-keep p u m) ∙ keys-keep_row p (row u m)

Memᴰ-labelled_row :
    (p : List ℕ) (v b : ℕ) (r : Row)
    → OrderedFrom b r
    → Memᴰ v (labelled_row p r) ↔ (text_member p (row v r) ≡ true)
unfolding labelled_row row
Memᴰ-labelled_row p v b [] o = (λ here. absurd (Memᴰ.not-nil here), λ h. cc)
Memᴰ-labelled_row p v b ((k, ps) ∷ r) (low, o) =
    let ih = Memᴰ-labelled_row p v (suc k) r o in
    elim (Bool-cases (v == k)) [
      | inl e ↦
          let same : v ≡ k = ground arith in
          let nothing : text_member p (row v r) ≡ false =
            ap (text_member p) (row-below v (suc k) r (omega arith) o) in
          rw (e, row)
            (elim (Bool-cases (text_member p ps)) [
              | inl h ↦ rw h (λ here. refl, λ q. Memᴰ.head same)
              | inr h ↦ rw h (λ here. absurd (ground (arith, nothing, ih.0 here)), λ q. cc)
            ])
      | inr e ↦
          rw (e, row)
            (elim (Bool-cases (text_member p ps)) [
              | inl h ↦ rw h (
                λ here. elim (Memᴰ.cases_cons here) [
                  | inl same ↦ absurd (ground arith)
                  | inr later ↦ ih.0 later
                ],
                λ q. Memᴰ.tail (ih.1 q),
              )
              | inr h ↦ rw h ih
            ])
    ]

-- The neighbours along the edges with the predicate are those that have the relation.
pub labelled_iff :
    (p : List ℕ) (u v : ℕ) (g : KnowledgeGraph)
    → IsTable g.out
    → Memᴰ v (labelled p g.out u) ↔ (has_relation u p v g ≡ true)
unfolding labelled has_relation
labelled_iff p u v g t = Memᴰ-labelled_row p v 0 (row u g.out) (t.rows u)
