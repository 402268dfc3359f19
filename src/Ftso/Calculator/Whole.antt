-- ===== src/Ftso/Calculator/Whole.antt =====
-- The whole function is the median of the sorted list.
use flare_verifiable_rag.Prelude.{
  ◌≡◌, ◌≢◌, refl, sym, ap, ◌∙◌, subst, inl, inr, Bool, true, false, Bool-cases, some, List, [], ◌∷◌,
  length, if◌then◌else◌, arith,
}
use flare_verifiable_rag.Ftso.{Floats, IsOrdered, le, zero_f}
use flare_verifiable_rag.Ftso.Calculator.{
  pair_of, sort_by_price, price_at, plain_median, trimmed, weighted_median, total_volume,
  median_of_sorted, median_if_sorted, volume_trimmed_median, insert, trim, cross_half, all_if_empty,
}
use flare_verifiable_rag.Ftso.Calculator.Sorting.{Obs, Priced, sort_by_price_lem}
use flare_verifiable_rag.Ftso.Calculator.Median.{trimmed-ne-nil, weighted_median-IsWeightedMedian}

module _ (f : Floats) where
  kept_one :
      (o : Obs f) (c : Bool)
      → all_if_empty f (if c then pair_of f o ∷ [] else []) (o ∷ []) ≡ pair_of f o ∷ []
  unfolding all_if_empty
  kept_one o true = refl
  kept_one o false = refl

  trimmed_one : (o : Obs f) → trimmed f (o ∷ []) ≡ pair_of f o ∷ []
  unfolding trimmed trim
  trimmed_one o = kept_one o _

  one_median : (o : Obs f) → median_of_sorted f (o ∷ []) ≡ some o.price
  unfolding median_of_sorted plain_median price_at weighted_median cross_half
  one_median o = elim (Bool-cases (le f (total_volume f (o ∷ [])) (zero_f f))) [
    | inl e ↦ rw (e, median_of_sorted) refl
    | inr e ↦ rw (e, trimmed_one o, median_of_sorted) refl
  ]

  pub median-median_of_sorted :
      (obs sorted : List (Obs f))
      → obs ≢ []
      → sort_by_price f obs ≡ some sorted
      → volume_trimmed_median f obs ≡ some (median_of_sorted f sorted)
  unfolding volume_trimmed_median
  median-median_of_sorted [] sorted h e = absurd (h refl)
  median-median_of_sorted (o ∷ []) sorted h e =
      let same : o ∷ [] ≡ sorted = unfold sort_by_price insert in cc in
      ap some (subst (λ l. some o.price ≡ median_of_sorted f l) same (sym (one_median o)))
  median-median_of_sorted (o ∷ p ∷ obs) sorted h e = ap (median_if_sorted f) e

  pub trimmed_some : (sorted : List (Obs f)) → sorted ≢ [] → trimmed f sorted ≢ []
  trimmed_some [] h = absurd (h refl)
  trimmed_some (o ∷ sorted) h = trimmed-ne-nil f o sorted

  -- A sorted list that is not empty has a median.
  pub median_of_sorted_exists :
      (sorted : List (Obs f)) → sorted ≢ [] → (m : f.F) × (median_of_sorted f sorted ≡ some m)
  unfolding median_of_sorted
  median_of_sorted_exists sorted h = elim (Bool-cases (le f (total_volume f sorted) (zero_f f))) [
    | inl e ↦ (plain_median f sorted, rw (e, median_of_sorted) refl)
    | inr e ↦
        let (m, q, _) =
          weighted_median-IsWeightedMedian f (trimmed f sorted) (trimmed_some sorted h) in
        (m, rw (e, q, median_of_sorted) refl)
  ]

  pub volume_trimmed_median_exists :
      (P : f.F → Type 0) (obs : List (Obs f))
      → IsOrdered f P
      → Priced f P obs
      → obs ≢ []
      → (m : f.F) × (volume_trimmed_median f obs ≡ some (some m))
  volume_trimmed_median_exists P [] law a h = absurd (h refl)
  volume_trimmed_median_exists P (o ∷ obs) law a h =
      let s = sort_by_price_lem f P law (o ∷ obs) a in
      let some_sorted : s.sorted ≢ [] = λ e. absurd (omega (arith, s.sorted_length, ap length e)) in
      let (m, q) = median_of_sorted_exists s.sorted some_sorted in
      (m, median-median_of_sorted (o ∷ obs) s.sorted h s.sorts ∙ ap some q)
