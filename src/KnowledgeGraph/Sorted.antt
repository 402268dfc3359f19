-- ===== src/KnowledgeGraph/Sorted.antt =====
-- `topological_order` of graph.rs puts the source of every relation before its end.
use mathlib.Core.List.Memᴰ
use flare_verifiable_rag.Prelude.{
  ℕ, zero, suc, ◌+◌, ◌<◌, ◌≤◌, ◌≡◌, ◌↔◌, ◌⊎◌, inl, inr, sym, ap, ◌∙◌, subst, List, [], ◌∷◌, ◌++◌,
  length, All, ◌==◌, Bool-cases, arith, Memᴰ,
}
use flare_verifiable_rag.KnowledgeGraph.{KnowledgeGraph}
use flare_verifiable_rag.KnowledgeGraph.Search.{neighbours}
use flare_verifiable_rag.KnowledgeGraph.Relations.{rank}
use flare_verifiable_rag.KnowledgeGraph.Listing.{
  ids_from, precedes, sort_insert, sort_ids, topological_order,
}
use flare_verifiable_rag.KnowledgeGraph.Valid.{IsValid}

Memᴰ-ids_from : (v i n : ℕ) → Memᴰ v (ids_from i n) ↔ (i ≤ v) × (v < i + n)
unfolding ids_from
Memᴰ-ids_from v i zero = (λ here. absurd (Memᴰ.not-nil here), λ (l, h). absurd (omega arith))
Memᴰ-ids_from v i (suc n) =
    let ih = Memᴰ-ids_from v (suc i) n in
    (
      λ here. elim (Memᴰ.cases_cons here) [
        | inl same ↦ (omega arith, omega arith)
        | inr later ↦ let (l, h) = ih.0 later in (omega arith, omega arith)
      ],
      λ (l, h). elim (Bool-cases (v == i)) [
        | inl e ↦ Memᴰ.head (ground arith)
        | inr e ↦ Memᴰ.tail (ih.1 (ground arith, omega arith))
      ],
    )

module _ (g : KnowledgeGraph) where
  Memᴰ-sort_insert : (w v : ℕ) (vs : List ℕ) → Memᴰ w (sort_insert g v vs) ↔ (w ≡ v) ⊎ Memᴰ w vs
  unfolding sort_insert
  Memᴰ-sort_insert w v [] = (
    λ here. inl (Memᴰ.eq_of_singleton here),
    λ c. elim c [ inl e ↦ Memᴰ.head e | inr there ↦ absurd (Memᴰ.not-nil there) ],
  )
  Memᴰ-sort_insert w v (x ∷ xs) =
      let ih = Memᴰ-sort_insert w v xs in
      elim (Bool-cases (precedes g v x)) [
        | inl e ↦ rw e (
          λ here. Memᴰ.cases_cons here,
          λ c. elim c [ inl same ↦ Memᴰ.head same | inr there ↦ Memᴰ.tail there ],
        )
        | inr e ↦ rw e (
          λ here. elim (Memᴰ.cases_cons here) [
            | inl same ↦ inr (Memᴰ.head same)
            | inr later ↦ elim (ih.0 later) [
              | inl same ↦ inl same
              | inr there ↦ inr (Memᴰ.tail there)
            ]
          ],
          λ c. elim c [
            | inl same ↦ Memᴰ.tail (ih.1 (inl same))
            | inr there ↦ elim (Memᴰ.cases_cons there) [
              | inl same ↦ Memᴰ.head same
              | inr later ↦ Memᴰ.tail (ih.1 (inr later))
            ]
          ],
        )
      ]

  Memᴰ-sort_ids : (w : ℕ) (vs : List ℕ) → Memᴰ w (sort_ids g vs) ↔ Memᴰ w vs
  unfolding sort_ids
  Memᴰ-sort_ids w [] = (λ here. here, λ here. here)
  Memᴰ-sort_ids w (v ∷ vs) =
      let inserted = Memᴰ-sort_insert w v (sort_ids g vs) in
      let ih = Memᴰ-sort_ids w vs in
      (
        λ here. elim (inserted.0 here) [
          | inl same ↦ Memᴰ.head same
          | inr there ↦ Memᴰ.tail (ih.0 there)
        ],
        λ here.
            inserted.1
              (elim (Memᴰ.cases_cons here) [ inl same ↦ inl same | inr later ↦ inr (ih.1 later) ]),
      )

  -- The ranks do not fall.
  Rising : List ℕ → Type 0
  Rising [] = Unit
  Rising (v ∷ vs) = All (λ w. rank v g ≤ rank w g) vs × Rising vs

  All-weaken :
      (a b : ℕ) → a ≤ b → (vs : List ℕ) → All (λ w. b ≤ rank w g) vs → All (λ w. a ≤ rank w g) vs
  All-weaken a b h [] all = tt
  All-weaken a b h (v ∷ vs) (first, all) = (omega arith, All-weaken a b h vs all)

  All-sort_insert :
      (a v : ℕ) (vs : List ℕ)
      → a ≤ rank v g
      → All (λ w. a ≤ rank w g) vs
      → All (λ w. a ≤ rank w g) (sort_insert g v vs)
  unfolding sort_insert
  All-sort_insert a v [] h all = (h, tt)
  All-sort_insert a v (x ∷ xs) h (first, all) = elim (Bool-cases (precedes g v x)) [
    | inl e ↦ rw e (h, (first, all))
    | inr e ↦ rw e (first, All-sort_insert a v xs h all)
  ]

  sort_insert-Rising : (v : ℕ) (vs : List ℕ) → Rising vs → Rising (sort_insert g v vs)
  unfolding sort_insert Rising
  sort_insert-Rising v [] r = (tt, tt)
  sort_insert-Rising v (x ∷ xs) (first, r) = elim (Bool-cases (precedes g v x)) [
    | inl e ↦
        let low : rank v g ≤ rank x g = ground arith in
        rw e ((low, All-weaken (rank v g) (rank x g) low xs first), (first, r))
    | inr e ↦
        let low : rank x g ≤ rank v g = ground arith in
        rw e (All-sort_insert (rank x g) v xs low first, sort_insert-Rising v xs r)
  ]

  sort_ids-Rising : (vs : List ℕ) → Rising (sort_ids g vs)
  unfolding sort_ids Rising
  sort_ids-Rising [] = tt
  sort_ids-Rising (v ∷ vs) = sort_insert-Rising v (sort_ids g vs) (sort_ids-Rising vs)

  All-rank : (a : ℕ) (vs : List ℕ) (w : ℕ) → All (λ x. a ≤ rank x g) vs → Memᴰ w vs → a ≤ rank w g
  All-rank a [] w all here = absurd (Memᴰ.not-nil here)
  All-rank a (v ∷ vs) w (first, all) here = elim (Memᴰ.cases_cons here) [
    | inl same ↦ subst (λ x. a ≤ rank x g) (sym same) first
    | inr later ↦ All-rank a vs w all later
  ]

  -- Of two entities in the list the one of smaller rank stands first.
  Rising-before :
      (vs : List ℕ) (u w : ℕ)
      → Rising vs
      → Memᴰ u vs
      → Memᴰ w vs
      → rank u g < rank w g
      → (xs ys : List ℕ) × (vs ≡ xs ++ u ∷ ys) × Memᴰ w ys
  unfolding Rising
  Rising-before [] u w r hu hw less = absurd (Memᴰ.not-nil hu)
  Rising-before (v ∷ vs) u w (first, r) hu hw less = elim (Memᴰ.cases_cons hu) [
    | inl same ↦ elim (Memᴰ.cases_cons hw) [
      | inl same' ↦
          let equal : rank u g ≡ rank w g = ap (λ x. rank x g) (same ∙ sym same') in
          absurd (omega arith)
      | inr later ↦ ([], vs, ap (λ x. x ∷ vs) (sym same), later)
    ]
    | inr deeper ↦ elim (Memᴰ.cases_cons hw) [
      | inl same' ↦
          let low = All-rank (rank v g) vs u first deeper in
          let equal : rank w g ≡ rank v g = ap (λ x. rank x g) same' in absurd (omega arith)
      | inr later ↦
          let (xs, ys, cut, there) = Rising-before vs u w r deeper later less in
          (v ∷ xs, ys, ap (λ x. v ∷ x) cut, there)
    ]
  ]

-- `topological_order` lists exactly the entities, and the source of every relation before its end.
pub topological_order_correct :
    (g : KnowledgeGraph)
    → IsValid g
    → ((v : ℕ) → Memᴰ v (topological_order g) ↔ (v < length g.entities))
      × ((u v : ℕ)
          → Memᴰ v (neighbours g.out u)
          → (xs ys : List ℕ) × (topological_order g ≡ xs ++ u ∷ ys) × Memᴰ v ys)
unfolding topological_order
topological_order_correct g valid =
    let ids = ids_from 0 (length g.entities) in
    let member : (v : ℕ) → Memᴰ v (sort_ids g ids) ↔ (v < length g.entities) = λ v.
      let sorted = Memᴰ-sort_ids g v ids in
      let ranged = Memᴰ-ids_from v 0 (length g.entities) in
      (
        λ here. omega (arith, (ranged.0 (sorted.0 here)).1),
        λ h. sorted.1 (ranged.1 (omega arith, omega arith)),
      ) in
    (
      member,
      λ u v edge.
          let (hu, hv) = valid.edges.ends u v edge in
          Rising-before g (sort_ids g ids) u v (sort_ids-Rising g ids) ((member u).1 hu)
            ((member v).1 hv) (valid.ranked.growing u v edge),
    )
