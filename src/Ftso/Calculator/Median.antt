-- ===== src/Ftso/Calculator/Median.antt =====
-- What `volume_trimmed_median` returns.
use mathlib.Core.List.Memᴰ
use flare_verifiable_rag.Prelude.{
  Memᴰ, ◌≡◌, ◌≢◌, ◌⊎◌, refl, sym, ap, subst, inl, inr, true, false, ◌&&◌, Bool-cases, some, List,
  [], ◌∷◌, ◌++◌, map,
}
use flare_verifiable_rag.Ftso.{Floats, le, lt, zero_f, sum}
use flare_verifiable_rag.Ftso.Calculator.{
  pair_of, trim, all_if_empty, cross_half, weighted_median, trimmed,
}
use flare_verifiable_rag.Ftso.Calculator.Sorting.{Obs}

module _ (f : Floats) where
  -- The price of some observation.
  abbrev pub IsPriceOf : List (Obs f) → f.F → Type 0
  IsPriceOf obs m = (o : Obs f) × Memᴰ o obs × (o.price ≡ m)

  trim-member :
      (low high cum : f.F) (sorted : List (Obs f)) (k : f.F × f.F)
      → Memᴰ k (trim f low high cum sorted)
      → (o : Obs f) × Memᴰ o sorted × (pair_of f o ≡ k)
  unfolding trim
  trim-member low high cum [] k m = absurd (Memᴰ.not-nil m)
  trim-member low high cum (o ∷ sorted) k m =
      let cum_after = f.add cum o.volume_24h in
      elim (Bool-cases (lt f low cum_after && lt f cum high)) [
        | inl e ↦ elim (rw (e, trim) at m) [
          | Memᴰ.head q ↦ (o, Memᴰ.head refl, sym q)
          | Memᴰ.tail n ↦
              let (p, there, q) = trim-member low high cum_after sorted k n in
              (p, Memᴰ.tail there, q)
        ]
        | inr e ↦
            let (p, there, q) = trim-member low high cum_after sorted k (rw (e, trim) at m) in
            (p, Memᴰ.tail there, q)
      ]

  map-member :
      (sorted : List (Obs f)) (k : f.F × f.F)
      → Memᴰ k (map (pair_of f) sorted)
      → (o : Obs f) × Memᴰ o sorted × (pair_of f o ≡ k)
  map-member [] k m = absurd (Memᴰ.not-nil m)
  map-member (o ∷ sorted) k (Memᴰ.head q) = (o, Memᴰ.head refl, sym q)
  map-member (o ∷ sorted) k (Memᴰ.tail n) =
      let (p, there, q) = map-member sorted k n in (p, Memᴰ.tail there, q)

  all_if_empty-member :
      (kept : List (f.F × f.F)) (sorted : List (Obs f)) (k : f.F × f.F)
      → ((j : f.F × f.F) → Memᴰ j kept → (o : Obs f) × Memᴰ o sorted × (pair_of f o ≡ j))
      → Memᴰ k (all_if_empty f kept sorted)
      → (o : Obs f) × Memᴰ o sorted × (pair_of f o ≡ k)
  unfolding all_if_empty
  all_if_empty-member [] sorted k h m = map-member sorted k m
  all_if_empty-member (j ∷ kept) sorted k h m = h k m

  -- What is kept are prices and volumes of observations.
  pub trimmed-member :
      (sorted : List (Obs f)) (k : f.F × f.F)
      → Memᴰ k (trimmed f sorted)
      → (o : Obs f) × Memᴰ o sorted × (pair_of f o ≡ k)
  unfolding trimmed
  trimmed-member sorted k m = all_if_empty-member _ sorted k (λ j n. trim-member _ _ _ sorted j n) m

  all_if_empty-ne-nil :
      (kept : List (f.F × f.F)) (o : Obs f) (sorted : List (Obs f))
      → all_if_empty f kept (o ∷ sorted) ≢ []
  unfolding all_if_empty
  all_if_empty-ne-nil [] o sorted e = cc
  all_if_empty-ne-nil (k ∷ kept) o sorted e = cc

  pub trimmed-ne-nil : (o : Obs f) (sorted : List (Obs f)) → trimmed f (o ∷ sorted) ≢ []
  unfolding trimmed
  trimmed-ne-nil o sorted = all_if_empty-ne-nil _ o sorted

  -- None of the running sums over the first pairs reaches the half.
  abbrev pub Short : f.F → f.F → List (f.F × f.F) → Type 0
  Short half acc [] = Unit
  Short half acc (k ∷ kept) = (le f half (f.add acc k.1) ≡ false) × Short half (f.add acc k.1) kept

  abbrev pub running : f.F → List (f.F × f.F) → f.F
  running acc [] = acc
  running acc (k ∷ kept) = running (f.add acc k.1) kept

  -- `m` is the price at which the running volume first reaches the half, or the last one.
  abbrev pub Crosses : f.F → f.F → List (f.F × f.F) → f.F → Type 0
  Crosses half acc kept m =
      (before : List (f.F × f.F)) × (k : f.F × f.F) × (after : List (f.F × f.F)) × (kept
        ≡ before ++ k ∷ after)
      × (m ≡ k.0)
      × Short half acc before
      × ((after ≡ []) ⊎ (le f half (f.add (running acc before) k.1) ≡ true))

  pub cross_half-Crosses :
      (half acc : f.F) (k : f.F × f.F) (kept : List (f.F × f.F))
      → (m : f.F) × (cross_half f half acc (k ∷ kept) ≡ some m) × Crosses half acc (k ∷ kept) m
  unfolding cross_half
  cross_half-Crosses half acc (p, v) [] = (p, refl, ([], (p, v), [], refl, refl, tt, inl refl))
  cross_half-Crosses half acc (p, v) (j ∷ kept) = elim (Bool-cases (le f half (f.add acc v))) [
    | inl e ↦ (p, rw (e, cross_half) refl, ([], (p, v), j ∷ kept, refl, refl, tt, inr e))
    | inr e ↦
        let (m, c, (before, k, after, q, s, t, u)) = cross_half-Crosses half (f.add acc v) j kept in
        (
          m,
          rw (e, c, cross_half) refl,
          ((p, v) ∷ before, k, after, ap (λ r. (p, v) ∷ r) q, s, (e, t), u),
        )
  ]

  -- The price at which the running volume of the pairs first reaches half of their volume.
  abbrev pub IsWeightedMedian : List (f.F × f.F) → f.F → Type 0
  IsWeightedMedian kept m =
      Crosses (f.div (sum f (map (λ k. k.1) kept)) (f.of_u64 2)) (zero_f f) kept m

  pub weighted_median-IsWeightedMedian :
      (kept : List (f.F × f.F))
      → kept ≢ []
      → (m : f.F) × (weighted_median f kept ≡ some m) × IsWeightedMedian kept m
  unfolding weighted_median
  weighted_median-IsWeightedMedian [] h = absurd (h refl)
  weighted_median-IsWeightedMedian (k ∷ kept) h = cross_half-Crosses _ _ k kept

  pub Crosses-member :
      (half acc m : f.F) (kept : List (f.F × f.F))
      → Crosses half acc kept m
      → (k : f.F × f.F) × Memᴰ k kept × (m ≡ k.0)
  Crosses-member half acc m kept (before, k, after, q, s, t, u) =
      (k, subst (Memᴰ k) (sym q) (there before k after), s)
    where
      there :
          (before : List (f.F × f.F)) (k : f.F × f.F) (after : List (f.F × f.F))
          → Memᴰ k (before ++ k ∷ after)
      there [] k after = Memᴰ.head refl
      there (j ∷ before) k after = Memᴰ.tail (there before k after)
