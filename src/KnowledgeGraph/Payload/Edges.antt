-- ===== src/KnowledgeGraph/Payload/Edges.antt =====
-- The second loop of `Deserialize` takes relations that join entities.
use mathlib.Core.List.Memᴰ
use flare_verifiable_rag.Prelude.{
  ℕ, ◌<◌, ◌≡◌, ◌≢◌, ◌↔◌, ◌⊎◌, inl, inr, refl, sym, ap, ◌∙◌, Bool, true, false, ◌||◌, ◌&&◌, List, [],
  ◌∷◌, length, Bool-cases, ◌==◌, ==_iff, ltb, leb, arith, Memᴰ, ok, text_eq, text_eq_iff,
}
use flare_verifiable_rag.KnowledgeGraph.{
  KnowledgeGraph, Relation, has_relation, insert_edge, max_symbol_len,
}
use flare_verifiable_rag.KnowledgeGraph.Search.{neighbours}
use flare_verifiable_rag.KnowledgeGraph.Tables.{neighbours-insert_half, member-insert_half}
use flare_verifiable_rag.KnowledgeGraph.Loaded.{Loaded, inserted-Loaded}
use flare_verifiable_rag.KnowledgeGraph.Payload.{add_edges}
use flare_verifiable_rag.KnowledgeGraph.Payload.Nodes.{IsSymbol}

-- A relation between two different ones of `n` entities.
abbrev pub IsSound : ℕ → Relation → Type 0
IsSound n r = (r.subject < n) × (r.object < n) × (r.subject ≢ r.object) × IsSymbol r.predicate

abbrev pub rel : ℕ → List ℕ → ℕ → Relation
rel s p o = record { subject = s; predicate = p; object = o }

abbrev matches : ℕ → List ℕ → ℕ → Relation → Bool
matches s p o r = s == r.subject && (o == r.object && text_eq p r.predicate)

matches_iff :
    (s : ℕ) (p : List ℕ) (o : ℕ) (r : Relation) → (matches s p o r ≡ true) ↔ (rel s p o ≡ r)
matches_iff s p o r = (
  λ h.
      let a : s ≡ r.subject = ground arith in
      let b : o ≡ r.object = ground arith in
      let c : text_eq p r.predicate ≡ true = ground arith in
      let d = (text_eq_iff p r.predicate).0 c in
      λ i. record { subject = a i; predicate = d i; object = b i },
  λ e.
      let a = (==_iff s r.subject).1 (ap (λ (x : Relation). x.subject) e) in
      let b = (==_iff o r.object).1 (ap (λ (x : Relation). x.object) e) in
      let c = (text_eq_iff p r.predicate).1 (ap (λ (x : Relation). x.predicate) e) in
      rw (a, b, c) refl,
)

has_relation-insert_edge :
    (r : Relation) (g : KnowledgeGraph) (s : ℕ) (p : List ℕ) (o : ℕ)
    → Loaded g
    → has_relation s p o (insert_edge r.subject r.predicate r.object g)
      ≡ (matches s p o r || has_relation s p o g)
unfolding has_relation insert_edge
has_relation-insert_edge r g s p o (x, j) =
    member-insert_half r.subject r.predicate r.object g.out j.out_table s o p

pub record Filled (rs : List Relation) (h : KnowledgeGraph) : Type 0 where
  pub filled : KnowledgeGraph
  pub adds : add_edges rs h ≡ ok filled
  pub loaded : Loaded filled
  pub entities_same : filled.entities ≡ h.entities
  pub between :
      (u v : ℕ)
      → Memᴰ v (neighbours filled.out u)
      → Memᴰ v (neighbours h.out u)
        ⊎ ((r : Relation) × Memᴰ r rs × (r.subject ≡ u) × (r.object ≡ v))
  pub holds :
      (s : ℕ) (p : List ℕ) (o : ℕ)
      → (has_relation s p o filled ≡ true) ↔ (Memᴰ (rel s p o) rs ⊎ (has_relation s p o h ≡ true))

add_edges-taken :
    (r : Relation) (rs : List Relation) (h : KnowledgeGraph)
    → IsSound (length h.entities) r
    → add_edges (r ∷ rs) h ≡ add_edges rs (insert_edge r.subject r.predicate r.object h)
unfolding add_edges
add_edges-taken r rs h (s, o, d, size) =
    let a : (leb (length h.entities) r.subject || leb (length h.entities) r.object) ≡ false =
      ground arith in
    let b : (r.subject == r.object) ≡ false = ground arith in
    let c : (length r.predicate == 0) ≡ false = ground (arith, size.0) in
    let e : ltb max_symbol_len (length r.predicate) ≡ false = ground (arith, size.1) in
    rw (a, b, c, e, add_edges) refl

pub add_edges-Filled :
    (rs : List Relation) (h : KnowledgeGraph)
    → Loaded h
    → ((r : Relation) → Memᴰ r rs → IsSound (length h.entities) r)
    → Filled rs h
unfolding add_edges insert_edge
add_edges-Filled [] h l sound = record {
  filled = h;
  adds = refl;
  loaded = l;
  entities_same = refl;
  between = λ u v here. inl here;
  holds = λ s p o. (λ e. inr e, λ c. elim c [ inl here ↦ absurd (Memᴰ.not-nil here) | inr e ↦ e ]);
}
add_edges-Filled (r ∷ rs) h l sound =
    let first = sound r (Memᴰ.head refl) in
    let next = insert_edge r.subject r.predicate r.object h in
    let rest =
      add_edges-Filled rs next (inserted-Loaded r h first.0 first.1 l)
        (λ q here. sound q (Memᴰ.tail here)) in
    record {
      filled = rest.filled;
      adds = add_edges-taken r rs h first ∙ rest.adds;
      loaded = rest.loaded;
      entities_same = rest.entities_same;
      between = λ u v here. elim (rest.between u v here) [
        | inr (q, there, a, b) ↦ inr (q, Memᴰ.tail there, a, b)
        | inl old ↦
            elim ((neighbours-insert_half r.subject r.predicate r.object h.out l.1.out_table u v).0
              old) [ inl (a, b) ↦ inr (r, Memᴰ.head refl, sym a, sym b) | inr older ↦ inl older ]
      ];
      holds = λ s p o.
          let step = has_relation-insert_edge r h s p o l in
          let same = matches_iff s p o r in
          (
            λ e. elim ((rest.holds s p o).0 e) [
              | inl here ↦ inl (Memᴰ.tail here)
              | inr old ↦ elim (Bool-cases (matches s p o r)) [
                | inl m ↦ inl (Memᴰ.head (same.0 m))
                | inr m ↦ inr (rw m at (sym step ∙ old))
              ]
            ],
            λ c. elim c [
              | inr old ↦ (rest.holds s p o).1 (inr (step ∙ ground (arith, old)))
              | inl here ↦ elim (Memᴰ.cases_cons here) [
                | inl e ↦ (rest.holds s p o).1 (inr (step ∙ ground (arith, same.1 e)))
                | inr later ↦ (rest.holds s p o).1 (inl later)
              ]
            ],
          );
    }
