-- ===== src/KnowledgeGraph/Marks.antt =====
-- Marking entities as visited, in the searches of graph.rs: what one row of neighbours changes.
use mathlib.Core.List.Memᴰ
use flare_verifiable_rag.Prelude.{
  ℕ, zero, suc, ◌+◌, ◌<◌, ◌≡◌, ◌↔◌, inl, inr, refl, sym, ap, ◌∙◌, subst, Bool, true, false, List,
  [], ◌∷◌, length, ◌==◌, if◌then◌else◌, Bool-cases, arith, Memᴰ,
}
use flare_verifiable_rag.KnowledgeGraph.Search.{all_false, mark, marked, discover}

-- How many entries are not marked.
unfoldable pub unmarked : List Bool → ℕ
unmarked [] = 0
unmarked (b ∷ bs) = (if b then 0 else 1) + unmarked bs

pub length-mark : (i : ℕ) (bs : List Bool) → length (mark i bs) ≡ length bs
unfolding mark
length-mark i [] = refl
length-mark zero (b ∷ bs) = refl
length-mark (suc i) (b ∷ bs) = ap suc (length-mark i bs)

pub marked-mark :
    (i j : ℕ) (bs : List Bool) → marked j (mark i bs) ≡ (if i == j then true else marked j bs)
unfolding mark marked
marked-mark i j [] = ground arith
marked-mark zero zero (b ∷ bs) = refl
marked-mark zero (suc j) (b ∷ bs) = ground arith
marked-mark (suc i) zero (b ∷ bs) = ground arith
marked-mark (suc i) (suc j) (b ∷ bs) = ground (arith, marked-mark i j bs)

-- Marking an entry that is not marked leaves one fewer.
pub unmarked-mark :
    (i : ℕ) (bs : List Bool) → marked i bs ≡ false → unmarked (mark i bs) + 1 ≡ unmarked bs
unfolding mark marked unmarked
unmarked-mark i [] h = cc
unmarked-mark zero (b ∷ bs) h = rw h (ground arith)
unmarked-mark (suc i) (b ∷ bs) h = ground (arith, unmarked-mark i bs h)

pub marked-all_false : (n i : ℕ) → i < n → marked i (all_false n) ≡ false
unfolding marked all_false
marked-all_false zero i h = absurd (omega arith)
marked-all_false (suc n) zero h = refl
marked-all_false (suc n) (suc i) h = marked-all_false n i (omega arith)

pub length-all_false : (n : ℕ) → length (all_false n) ≡ n
unfolding all_false
length-all_false zero = refl
length-all_false (suc n) = ap suc (length-all_false n)

pub unmarked-all_false : (n : ℕ) → unmarked (all_false n) ≡ n
unfolding all_false unmarked
unmarked-all_false zero = refl
unmarked-all_false (suc n) = ground (arith, unmarked-all_false n)

-- An entry that is not marked is in range.
pub marked-lt : (i : ℕ) (bs : List Bool) → marked i bs ≡ false → i < length bs
unfolding marked
marked-lt i [] h = cc
marked-lt zero (b ∷ bs) h = omega arith
marked-lt (suc i) (b ∷ bs) h = omega (arith, marked-lt i bs h)

pub length-discover : (os : List ℕ) (bs : List Bool) → length (discover os bs).0 ≡ length bs
unfolding discover
length-discover [] bs = refl
length-discover (o ∷ os) bs = elim (Bool-cases (marked o bs)) [
  | inl e ↦ rw (e, discover) (length-discover os bs)
  | inr e ↦ rw (e, discover) (length-discover os (mark o bs) ∙ length-mark o bs)
]

-- Each entity that is pushed was not marked, and is now.
pub unmarked-discover :
    (os : List ℕ) (bs : List Bool)
    → unmarked (discover os bs).0 + length (discover os bs).1 ≡ unmarked bs
unfolding discover
unmarked-discover [] bs = omega arith
unmarked-discover (o ∷ os) bs = elim (Bool-cases (marked o bs)) [
  | inl e ↦ rw (e, discover) (unmarked-discover os bs)
  | inr e ↦ rw (e, discover) (omega (arith, unmarked-discover os (mark o bs), unmarked-mark o bs e))
]

-- What was marked stays marked, and everything in the row is marked.
pub discover-keeps :
    (os : List ℕ) (bs : List Bool) (v : ℕ) → marked v bs ≡ true → marked v (discover os bs).0 ≡ true
unfolding discover
discover-keeps [] bs v h = h
discover-keeps (o ∷ os) bs v h = elim (Bool-cases (marked o bs)) [
  | inl e ↦ rw (e, discover) (discover-keeps os bs v h)
  | inr e ↦
      rw (e, discover) (discover-keeps os (mark o bs) v (rw (marked-mark o v bs) (ground arith)))
]

pub discover-row :
    (os : List ℕ) (bs : List Bool) (v : ℕ) → Memᴰ v os → marked v (discover os bs).0 ≡ true
unfolding discover
discover-row [] bs v m = absurd (Memᴰ.not-nil m)
discover-row (o ∷ os) bs v m = elim (Bool-cases (marked o bs)) [
  | inl e ↦
      rw (e, discover)
        (elim (Memᴰ.cases_cons m) [
          | inl same ↦ discover-keeps os bs v (subst (λ x. marked x bs ≡ true) (sym same) e)
          | inr later ↦ discover-row os bs v later
        ])
  | inr e ↦
      rw (e, discover)
        (elim (Memᴰ.cases_cons m) [
          | inl same ↦ discover-keeps os (mark o bs) v (rw (marked-mark o v bs) (ground arith))
          | inr later ↦ discover-row os (mark o bs) v later
        ])
]

-- An entity is pushed exactly if it was not marked and is now; then it is of the row.
pub discover-pushed :
    (os : List ℕ) (bs : List Bool) (v : ℕ)
    → Memᴰ v (discover os bs).1 ↔ (marked v bs ≡ false) × (marked v (discover os bs).0 ≡ true)
unfolding discover
discover-pushed [] bs v = (λ m. absurd (Memᴰ.not-nil m), λ (a, b). cc)
discover-pushed (o ∷ os) bs v = elim (Bool-cases (marked o bs)) [
  | inl e ↦ rw (e, discover) (discover-pushed os bs v)
  | inr e ↦
      let ih = discover-pushed os (mark o bs) v in
      rw (e, discover)
        (
          λ m. elim (Memᴰ.cases_cons m) [
            | inl same ↦ (
              subst (λ x. marked x bs ≡ false) (sym same) e,
              discover-keeps os (mark o bs) v (rw (marked-mark o v bs) (ground arith)),
            )
            | inr later ↦
                let (before, after) = ih.0 later in
                (ground (arith, sym (marked-mark o v bs) ∙ before), after)
          ],
          λ (before, after). elim (Bool-cases (o == v)) [
            | inl same ↦ Memᴰ.head (ground arith)
            | inr other ↦ Memᴰ.tail (ih.1 (rw (marked-mark o v bs, other) before, after))
          ],
        )
]

pub discover-subset : (os : List ℕ) (bs : List Bool) (v : ℕ) → Memᴰ v (discover os bs).1 → Memᴰ v os
unfolding discover
discover-subset [] bs v m = m
discover-subset (o ∷ os) bs v m = elim (Bool-cases (marked o bs)) [
  | inl e ↦ Memᴰ.tail (discover-subset os bs v (rw (e, discover) at m))
  | inr e ↦ elim (Memᴰ.cases_cons (rw (e, discover) at m)) [
    | inl same ↦ Memᴰ.head same
    | inr later ↦ Memᴰ.tail (discover-subset os (mark o bs) v later)
  ]
]
