-- ===== src/Ftso/Calculator/Correct.antt =====
-- `volume_trimmed_median` as a whole.
use mathlib.Core.List.{Permᴰ}
use flare_verifiable_rag.Ftso.Calculator.Band.{HasSums, Volumes, IsTrimmed}
use flare_verifiable_rag.Ftso.Calculator.Trimmed.{trimmed-IsTrimmed}
use flare_verifiable_rag.Ftso.Calculator.Middle.{IsMiddle, plain_median-IsMiddle}
use flare_verifiable_rag.Prelude.{
  Memᴰ, ℕ, zero, suc, ◌-◌, ◌/◌, ◌%◌, ◌<◌, ◌≡◌, ◌≢◌, ◌⊎◌, refl, ap, ◌∙◌, subst, inl, inr, true,
  false, Bool-cases, none, some, List, [], ◌∷◌, length, get_elem?, get_elem?-some, All-get_elem?,
  ==_iff, ◌==◌, arith,
}
use flare_verifiable_rag.Ftso.{Floats, IsOrdered, le, le_refl, zero_f}
use flare_verifiable_rag.Ftso.Calculator.{
  price_at, plain_median, trimmed, total_volume, median_of_sorted, volume_trimmed_median,
}
use flare_verifiable_rag.Ftso.Calculator.Sorting.{
  Obs, Sorted, Priced, all_member, sort_by_price_lem,
}
use flare_verifiable_rag.Ftso.Calculator.Median.{
  IsPriceOf, IsWeightedMedian, trimmed-member, weighted_median-IsWeightedMedian, Crosses-member,
}
use flare_verifiable_rag.Ftso.Calculator.Whole.{trimmed_some, median-median_of_sorted}

module _ (f : Floats) where
  -- The mean of two numbers of the class lies between them; the sum of two `f64` can overflow, so
  -- this is about prices of a moderate size.
  abbrev pub HasMeans : (f.F → Type 0) → Type 0
  HasMeans P =
      (a b : f.F)
      → P a
      → P b
      → le f a b ≡ true
      → (le f a (f.div (f.add a b) (f.of_u64 2)) ≡ true)
        × (le f (f.div (f.add a b) (f.of_u64 2)) b ≡ true)

  -- A price of the observations at most the number, and one at least it.
  abbrev pub IsBetween : List (Obs f) → f.F → Type 0
  IsBetween obs m =
      ((o : Obs f) × Memᴰ o obs × (le f o.price m ≡ true))
      × ((o : Obs f) × Memᴰ o obs × (le f m o.price ≡ true))

  get_elem?-member :
      (obs : List (Obs f)) (i : ℕ) (o : Obs f) → get_elem? obs i ≡ some o → Memᴰ o obs
  get_elem?-member [] i o h = absurd (cc)
  get_elem?-member (p ∷ obs) zero o h = Memᴰ.head (cc)
  get_elem?-member (p ∷ obs) (suc i) o h = Memᴰ.tail (get_elem?-member obs i o h)

  sorted_at :
      (obs : List (Obs f)) (i j : ℕ) (a b : Obs f)
      → Sorted f obs
      → i < j
      → get_elem? obs i ≡ some a
      → get_elem? obs j ≡ some b
      → le f a.price b.price ≡ true
  sorted_at [] i j a b s h p q = absurd (cc)
  sorted_at (o ∷ obs) i zero a b s h p q = absurd (omega arith)
  sorted_at (o ∷ obs) zero (suc j) a b s h p q =
      let e : o ≡ a = cc in
      subst (λ (x : Obs f). le f x.price b.price ≡ true) e
        (all_member f (λ (x : Obs f). le f o.price x.price ≡ true) obs b
          (get_elem?-member obs j b q) s.0)
  sorted_at (o ∷ obs) (suc i) (suc j) a b s h p q = sorted_at obs i j a b s.1 (omega arith) p q

  positive : (obs : List (Obs f)) → obs ≢ [] → 0 < length obs
  positive [] h = absurd (h refl)
  positive (o ∷ obs) h = omega arith

  -- Where the volumes sum up to nothing, the price in the middle; otherwise an observed price, the
  -- weighted median of what the trimming keeps.
  abbrev pub IsMedian : List (Obs f) → f.F → Type 0
  IsMedian sorted m =
      (le f (total_volume f sorted) (zero_f f) ≡ true) × IsMiddle f sorted m
      ⊎ (le f (total_volume f sorted) (zero_f f) ≡ false)
        × IsPriceOf f sorted m
        × ((kept : List (f.F × f.F)) × IsTrimmed f sorted kept × IsWeightedMedian f kept m)

  module _ (P : f.F → Type 0) (law : IsOrdered f P) (means : HasMeans P) (Q : f.F → Type 0)
      (volumes : IsOrdered f Q) (sums : HasSums f Q) where
    at_price :
        (obs : List (Obs f)) (i : ℕ)
        → i < length obs
        → (o : Obs f) × (get_elem? obs i ≡ some o) × (price_at f obs i ≡ o.price)
    unfolding price_at
    at_price obs i h = let (o, e) = get_elem?-some obs i h in (o, e, rw (e, price_at) refl)

    priced_at :
        (obs : List (Obs f)) (i : ℕ) (o : Obs f)
        → Priced f P obs
        → get_elem? obs i ≡ some o
        → P o.price
    priced_at obs i o a e = All-get_elem? (λ (x : Obs f). P x.price) obs i o a e

    plain-IsBetween :
        (obs : List (Obs f))
        → obs ≢ []
        → Sorted f obs
        → Priced f P obs
        → IsBetween obs (plain_median f obs)
    unfolding plain_median
    plain-IsBetween obs h s a =
        let mid : ℕ = length obs / 2 in
        let pos = positive obs h in
        elim (Bool-cases (length obs % 2 == 0)) [
          | inl e ↦
              let even = (==_iff (length obs % 2) 0).0 e in
              let (x, xe, xp) = at_price obs (mid - 1) (omega arith) in
              let (y, ye, yp) = at_price obs mid (omega arith) in
              let ordered = sorted_at obs (mid - 1) mid x y s (omega arith) xe ye in
              let (lo, hi) =
                means x.price y.price (priced_at obs (mid - 1) x a xe) (priced_at obs mid y a ye)
                  ordered in
              rw (e, xp, yp, plain_median)
                (
                  (x, get_elem?-member obs (mid - 1) x xe, lo),
                  (y, get_elem?-member obs mid y ye, hi),
                )
          | inr e ↦
              let (x, xe, xp) = at_price obs mid (omega arith) in
              let r = le_refl f P law x.price (priced_at obs mid x a xe) in
              let m = get_elem?-member obs mid x xe in
              rw (e, xp, plain_median) ((x, m, r), (x, m, r))
        ]

    median_of_sorted_lem :
        (sorted : List (Obs f))
        → sorted ≢ []
        → Sorted f sorted
        → Priced f P sorted
        → Volumes f Q sorted
        → (m : f.F) × (median_of_sorted f sorted ≡ some m) × IsMedian sorted m × IsBetween sorted m
    unfolding median_of_sorted
    median_of_sorted_lem sorted h s a b =
        elim (Bool-cases (le f (total_volume f sorted) (zero_f f))) [
          | inl e ↦ (
            plain_median f sorted,
            rw (e, median_of_sorted) refl,
            inl (e, plain_median-IsMiddle f sorted (positive sorted h)),
            plain-IsBetween sorted h s a,
          )
          | inr e ↦
              let (m, q, w) =
                weighted_median-IsWeightedMedian f (trimmed f sorted) (trimmed_some f sorted h) in
              let (k, there, same) = Crosses-member f _ _ m (trimmed f sorted) w in
              let (o, at, pair) = trimmed-member f sorted k there in
              let price : o.price ≡ m = cc in
              let r =
                le_refl f P law o.price (all_member f (λ (x : Obs f). P x.price) sorted o at a) in
              (
                m,
                rw (e, q, median_of_sorted) refl,
                inr (
                  e,
                  (o, at, price),
                  (trimmed f sorted, trimmed-IsTrimmed f Q volumes sums sorted b, w),
                ),
                (
                  (o, at, subst (λ x. le f o.price x ≡ true) price r),
                  (o, at, subst (λ x. le f x o.price ≡ true) price r),
                ),
              )
        ]

    -- On no observations the result is nothing. Otherwise, if the prices are numbers that can be
    -- compared and the mean of two lies between them, and the volumes are numbers that can be compared
    -- and added, which makes no sum smaller, then the function does not panic, and the result is the
    -- median of the observations in the order of their prices. Without volume that is the price in the
    -- middle. Otherwise it is the price at which the volume of the kept observations first reaches
    -- half of theirs, where all those are kept whose windows of volume reach into the band from a
    -- quarter to three quarters of the total; they follow each other. If there is none, all are kept.
    -- The result lies between two of the prices.
    pub volume_trimmed_median_correct :
        (obs : List (Obs f))
        → Priced f P obs
        → Volumes f Q obs
        → (obs ≡ []) × (volume_trimmed_median f obs ≡ some none)
          ⊎ ((sorted : List (Obs f)) × (m : f.F) × (volume_trimmed_median f obs ≡ some (some m))
              × (Sorted f sorted × Permᴰ sorted obs)
              × IsMedian sorted m
              × IsBetween obs m)
    volume_trimmed_median_correct [] a b = inl (refl, unfold volume_trimmed_median in refl)
    volume_trimmed_median_correct (o ∷ obs) a b =
        let s = sort_by_price_lem f P law (o ∷ obs) a in
        let some_sorted : s.sorted ≢ [] =
          λ e. absurd (omega (arith, s.sorted_length, ap length e)) in
        let (m, q, d, ((x, xm, xl), (y, ym, yl))) =
          median_of_sorted_lem s.sorted some_sorted s.sorted_order
            (s.sorted_all (λ (p : Obs f). P p.price) a)
            (s.sorted_all (λ (p : Obs f). Q p.volume_24h) b) in
        inr (
          s.sorted,
          m,
          median-median_of_sorted f (o ∷ obs) s.sorted (λ e. cc) s.sorts ∙ ap some q,
          (s.sorted_order, s.sorted_perm),
          d,
          ((x, (s.sorted_members x).0 xm, xl), (y, (s.sorted_members y).0 ym, yl)),
        )
