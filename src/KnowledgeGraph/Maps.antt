-- ===== src/KnowledgeGraph/Maps.antt =====
-- The ordered maps and sets that stand for `BTreeMap` and `BTreeSet` in graph.rs.
use mathlib.Core.List.Memᴰ
use flare_verifiable_rag.Prelude.{
  ℕ, suc, ◌<◌, ◌≤◌, ◌≡◌, ◌≢◌, ◌↔◌, ◌⊎◌, inl, inr, refl, ◌∙◌, List, [], ◌∷◌, map, ◌==◌,
  if◌then◌else◌, Bool-cases, compare-cases, arith, Memᴰ, text_eq, ◌||◌,
}
use Prim.Native.Nat.{Ordering}
use Prim.Native.Nat.Ordering.{lt, eq, gt}
use flare_verifiable_rag.KnowledgeGraph.{text_compare, text_insert, text_member, row, update}

module _ {ℓ} {A : Type ℓ} where
  -- The keys grow, the first of them being `b` or more.
  abbrev pub OrderedFrom : ℕ → List (ℕ × List A) → Type 0
  OrderedFrom b [] = Unit
  OrderedFrom b ((k, as') ∷ m) = (b ≤ k) × OrderedFrom (suc k) m

  pub update-OrderedFrom :
      (k : ℕ) (f : List A → List A) (b : ℕ) (m : List (ℕ × List A))
      → b ≤ k
      → OrderedFrom b m
      → OrderedFrom b (update k f m)
  unfolding update
  update-OrderedFrom k f b [] h o = (h, tt)
  update-OrderedFrom k f b ((j, as') ∷ m) h (low, o) = elim (compare-cases k j) [
    | inl (q, l) ↦ rw (q, update) (h, (l, o))
    | inr (inl (q, l)) ↦ rw (q, update) (low, o)
    | inr (inr (q, l)) ↦ rw (q, update) (low, update-OrderedFrom k f (suc j) m l o)
  ]

  pub row-below : (k b : ℕ) (m : List (ℕ × List A)) → k < b → OrderedFrom b m → row k m ≡ []
  unfolding row
  row-below k b [] h o = refl
  row-below k b ((j, as') ∷ m) h (low, o) = elim (Bool-cases (k == j)) [
    | inl e ↦ absurd (ground arith)
    | inr e ↦ rw (e, row) (row-below k (suc j) m (omega arith) o)
  ]

  -- After `update` the key has the changed row, and every other key what it had.
  pub row-update :
      (k : ℕ) (f : List A → List A) (j b : ℕ) (m : List (ℕ × List A))
      → OrderedFrom b m
      → row j (update k f m) ≡ (if j == k then f (row k m) else row j m)
  unfolding update row
  row-update k f j b [] o = refl
  row-update k f j b ((i, as') ∷ m) (low, o) = elim (compare-cases k i) [
    | inl (q, l) ↦ rw (q, update, row, row-below k (suc i) m (omega arith) o) (ground arith)
    | inr (inl (q, l)) ↦ rw (q, update, row) (ground arith)
    | inr (inr (q, l)) ↦ rw (q, update, row, row-update k f j (suc i) m o) (ground arith)
  ]

  -- The keys after `update` are the key and those before.
  pub keys-update :
      (k : ℕ) (f : List A → List A) (v : ℕ) (m : List (ℕ × List A))
      → Memᴰ v (map (λ e. e.0) (update k f m)) ↔ (v ≡ k) ⊎ Memᴰ v (map (λ e. e.0) m)
  unfolding update
  keys-update k f v [] = (
    λ here. inl (Memᴰ.eq_of_singleton here),
    λ c. elim c [ inl e ↦ Memᴰ.head e | inr none_there ↦ absurd (Memᴰ.not-nil none_there) ],
  )
  keys-update k f v ((j, as') ∷ m) = elim (compare-cases k j) [
    | inl (q, l) ↦
        rw (q, update)
          (
            λ here. Memᴰ.cases_cons here,
            λ c. elim c [ inl e ↦ Memᴰ.head e | inr there ↦ Memᴰ.tail there ],
          )
    | inr (inl (q, l)) ↦
        rw (q, update)
          (λ here. inr here, λ c. elim c [ inl e ↦ Memᴰ.head (e ∙ l) | inr there ↦ there ])
    | inr (inr (q, l)) ↦
        rw (q, update)
          (
            λ here. elim (Memᴰ.cases_cons here) [
              | inl e ↦ inr (Memᴰ.head e)
              | inr later ↦ elim ((keys-update k f v m).0 later) [
                | inl e ↦ inl e
                | inr there ↦ inr (Memᴰ.tail there)
              ]
            ],
            λ c. elim c [
              | inl e ↦ Memᴰ.tail ((keys-update k f v m).1 (inl e))
              | inr there ↦ elim (Memᴰ.cases_cons there) [
                | inl e ↦ Memᴰ.head e
                | inr later ↦ Memᴰ.tail ((keys-update k f v m).1 (inr later))
              ]
            ],
          )
  ]

text_compare-eq : (s t : List ℕ) → text_compare s t ≡ eq → s ≡ t
unfolding text_compare
text_compare-eq [] [] h = refl
text_compare-eq [] (b ∷ bs) h = cc
text_compare-eq (a ∷ as') [] h = cc
text_compare-eq (a ∷ as') (b ∷ bs) h = elim (compare-cases a b) [
  | inl (q, l) ↦ absurd (ground (arith, h, q))
  | inr (inl (q, l)) ↦ ground (arith, l, text_compare-eq as' bs (rw (q, text_compare) at h))
  | inr (inr (q, l)) ↦ absurd (ground (arith, h, q))
]

Ordering-cases : (o : Ordering) → (o ≡ lt) ⊎ ((o ≡ eq) ⊎ (o ≡ gt))
Ordering-cases lt = inl refl
Ordering-cases eq = inr (inl refl)
Ordering-cases gt = inr (inr refl)

-- The members after `text_insert` are the text and those before.
pub text_member-text_insert :
    (q p : List ℕ) (ps : List (List ℕ))
    → text_member q (text_insert p ps) ≡ (text_eq q p || text_member q ps)
unfolding text_insert
text_member-text_insert q p [] = refl
text_member-text_insert q p (r ∷ ps) = elim (Ordering-cases (text_compare p r)) [
  | inl c ↦ rw (c, text_insert)
  | inr (inl c) ↦ let same = text_compare-eq p r c in rw (c, text_insert, same) (ground arith)
  | inr (inr c) ↦ rw (c, text_insert, text_member-text_insert q p ps) (ground arith)
]

pub text_insert-nonempty : (p : List ℕ) (ps : List (List ℕ)) → text_insert p ps ≢ []
unfolding text_insert
text_insert-nonempty p [] h = cc
text_insert-nonempty p (r ∷ ps) h = elim (Ordering-cases (text_compare p r)) [
  | inl c ↦ absurd (ground (arith, c, h))
  | inr (inl c) ↦ absurd (ground (arith, c, h))
  | inr (inr c) ↦ absurd (ground (arith, c, h))
]
