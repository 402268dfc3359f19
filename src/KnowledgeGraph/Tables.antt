-- ===== src/KnowledgeGraph/Tables.antt =====
-- The adjacency maps of graph.rs, and what `insert_edge` does to one of them.
use mathlib.Core.List.Memᴰ
use flare_verifiable_rag.Prelude.{
  ℕ, ◌≡◌, ◌≢◌, ◌↔◌, ◌⊎◌, inl, inr, refl, sym, ap, ◌∙◌, List, [], ◌∷◌, ◌==◌, if◌then◌else◌,
  Bool-cases, compare-cases, arith, Memᴰ, text_eq, ◌||◌, ◌&&◌,
}
use flare_verifiable_rag.KnowledgeGraph.{
  Adjacency, Row, text_insert, text_member, row, update, insert_half,
}
use flare_verifiable_rag.KnowledgeGraph.Search.{neighbours}
use flare_verifiable_rag.KnowledgeGraph.Maps.{
  OrderedFrom, update-OrderedFrom, row-update, keys-update, text_member-text_insert,
  text_insert-nonempty,
}

-- The rows and their entries are in order, and no entry is without a predicate.
pub record IsTable (m : Adjacency) : Type 0 where
  pub ordered : OrderedFrom 0 m
  pub rows : (u : ℕ) → OrderedFrom 0 (row u m)
  pub filled : (u o : ℕ) (ps : List (List ℕ)) → Memᴰ (o, ps) (row u m) → ps ≢ []

pub empty-IsTable : IsTable []
unfolding row
empty-IsTable = record {
  ordered = tt;
  rows = λ u. tt;
  filled = λ u o ps here. absurd (Memᴰ.not-nil here);
}

-- The row of `a` is the changed one, and every other row what it was.
pub row-insert_half :
    (a : ℕ) (p : List ℕ) (b u : ℕ) (m : Adjacency)
    → IsTable m
    → row u (insert_half a p b m) ≡ (if u == a then update b (text_insert p) (row a m) else row u m)
unfolding insert_half
row-insert_half a p b u m t = row-update a (update b (text_insert p)) u 0 m t.ordered

update-filled :
    (b : ℕ) (p : List ℕ) (r : Row)
    → ((o : ℕ) (ps : List (List ℕ)) → Memᴰ (o, ps) r → ps ≢ [])
    → (o : ℕ) (ps : List (List ℕ)) → Memᴰ (o, ps) (update b (text_insert p) r)
    → ps ≢ []
unfolding update
update-filled b p [] f o ps here =
    λ e. text_insert-nonempty p [] (sym (ap (λ x. x.1) (Memᴰ.eq_of_singleton here)) ∙ e)
update-filled b p ((j, qs) ∷ r) f o ps here = elim (compare-cases b j) [
  | inl (q, l) ↦ elim (Memᴰ.cases_cons (rw (q, update) at here)) [
    | inl same ↦ λ e. text_insert-nonempty p [] (sym (ap (λ x. x.1) same) ∙ e)
    | inr later ↦ f o ps later
  ]
  | inr (inl (q, l)) ↦ elim (Memᴰ.cases_cons (rw (q, update) at here)) [
    | inl same ↦ λ e. text_insert-nonempty p qs (sym (ap (λ x. x.1) same) ∙ e)
    | inr later ↦ f o ps (Memᴰ.tail later)
  ]
  | inr (inr (q, l)) ↦ elim (Memᴰ.cases_cons (rw (q, update) at here)) [
    | inl same ↦ f o ps (Memᴰ.head same)
    | inr later ↦ update-filled b p r (λ o' ps' there. f o' ps' (Memᴰ.tail there)) o ps later
  ]
]

half-OrderedFrom :
    (a : ℕ) (p : List ℕ) (b : ℕ) (m : Adjacency) → IsTable m → OrderedFrom 0 (insert_half a p b m)
unfolding insert_half
half-OrderedFrom a p b m t =
    update-OrderedFrom a (update b (text_insert p)) 0 m (omega arith) t.ordered

pub insert_half-IsTable :
    (a : ℕ) (p : List ℕ) (b : ℕ) (m : Adjacency) → IsTable m → IsTable (insert_half a p b m)
insert_half-IsTable a p b m t = record {
  ordered = half-OrderedFrom a p b m t;
  rows = λ u. rw (row-insert_half a p b u m t) (elim (Bool-cases (u == a)) [
    | inl e ↦ rw e (update-OrderedFrom b (text_insert p) 0 (row a m) (omega arith) (t.rows a))
    | inr e ↦ rw e (t.rows u)
  ]);
  filled = λ u o ps here. elim (Bool-cases (u == a)) [
    | inl e ↦
        update-filled b p (row a m) (t.filled a) o ps (rw (row-insert_half a p b u m t, e) at here)
    | inr e ↦ t.filled u o ps (rw (row-insert_half a p b u m t, e) at here)
  ];
}

-- The neighbours after the insertion are the new one and those before.
pub neighbours-insert_half :
    (a : ℕ) (p : List ℕ) (b : ℕ) (m : Adjacency)
    → IsTable m
    → (u v : ℕ)
    → Memᴰ v (neighbours (insert_half a p b m) u) ↔ (u ≡ a) × (v ≡ b) ⊎ Memᴰ v (neighbours m u)
unfolding neighbours
neighbours-insert_half a p b m t u v =
    rw (row-insert_half a p b u m t) (elim (Bool-cases (u == a)) [
      | inl e ↦
          let same : u ≡ a = ground arith in
          let keys = keys-update b (text_insert p) v (row a m) in
          rw (e, same)
            (
              λ here. elim (keys.0 here) [ inl new ↦ inl (refl, new) | inr old ↦ inr old ],
              λ c. keys.1 (elim c [ inl (_, new) ↦ inl new | inr old ↦ inr old ]),
            )
      | inr e ↦
          rw e (
            λ here. inr here,
            λ c. elim c [ inl (same, _) ↦ absurd (ground arith) | inr old ↦ old ],
          )
    ])

-- The predicates after the insertion are the new one and those before.
pub member-insert_half :
    (a : ℕ) (p : List ℕ) (b : ℕ) (m : Adjacency)
    → IsTable m
    → (u v : ℕ) (q : List ℕ)
    → text_member q (row v (row u (insert_half a p b m)))
      ≡ ((u == a && (v == b && text_eq q p)) || text_member q (row v (row u m)))
member-insert_half a p b m t u v q = rw (row-insert_half a p b u m t) (elim (Bool-cases (u == a)) [
  | inl e ↦
      let same : u ≡ a = ground arith in
      rw (e, same, row-update b (text_insert p) v 0 (row a m) (t.rows a))
        (elim (Bool-cases (v == b)) [
          | inl e' ↦
              let same' : v ≡ b = ground arith in
              rw (e', same', text_member-text_insert q p (row b (row a m))) (ground arith)
          | inr e' ↦ rw e' (ground arith)
        ])
  | inr e ↦ rw e (ground arith)
])
