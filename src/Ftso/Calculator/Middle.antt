-- ===== src/Ftso/Calculator/Middle.antt =====
-- What `volume_trimmed_median` returns without volumes: the price in the middle.
use flare_verifiable_rag.Prelude.{
  ℕ, zero, suc, ◌-◌, ◌/◌, ◌%◌, ◌<◌, ◌≡◌, ◌≢◌, ◌⊎◌, refl, ap, ◌∙◌, subst, inl, inr, Bool-cases, some,
  List, [], ◌∷◌, ◌++◌, length, get_elem?, ==_iff, ◌==◌, length-append, arith,
}
use flare_verifiable_rag.Ftso.{Floats}
use flare_verifiable_rag.Ftso.Calculator.{price_at, plain_median}
use flare_verifiable_rag.Ftso.Calculator.Sorting.{Obs}

module _ (f : Floats) where
  -- The price of the observation with as many before it as behind it, or the mean of the two prices
  -- that have as many before them as behind them.
  abbrev pub IsMiddle : List (Obs f) → f.F → Type 0
  IsMiddle sorted m =
      ((before : List (Obs f)) × (o : Obs f) × (after : List (Obs f)) × (sorted
          ≡ before ++ o ∷ after)
        × (length before ≡ length after)
        × (m ≡ o.price))
      ⊎ ((before : List (Obs f)) × (x : Obs f) × (y : Obs f) × (after : List (Obs f)) × (sorted
            ≡ before ++ x ∷ y ∷ after)
          × (length before ≡ length after)
          × (m ≡ f.div (f.add x.price y.price) (f.of_u64 2)))

  split_one :
      (obs : List (Obs f)) (i : ℕ)
      → i < length obs
      → (before : List (Obs f)) × (o : Obs f) × (after : List (Obs f)) × (obs ≡ before ++ o ∷ after)
        × (length before ≡ i)
        × (get_elem? obs i ≡ some o)
  split_one [] i h = absurd (omega arith)
  split_one (o ∷ obs) zero h = ([], o, obs, refl, refl, refl)
  split_one (o ∷ obs) (suc i) h =
      let (before, x, after, e, l, g) = split_one obs i (omega arith) in
      (o ∷ before, x, after, ap (λ r. o ∷ r) e, ap suc l, g)

  split_two :
      (obs : List (Obs f)) (i : ℕ)
      → suc i < length obs
      → (before : List (Obs f)) × (x : Obs f) × (y : Obs f) × (after : List (Obs f)) × (obs
          ≡ before ++ x ∷ y ∷ after)
        × (length before ≡ i)
        × (get_elem? obs i ≡ some x)
        × (get_elem? obs (suc i) ≡ some y)
  split_two [] i h = absurd (omega arith)
  split_two (o ∷ []) i h = absurd (omega arith)
  split_two (o ∷ p ∷ obs) zero h = ([], o, p, obs, refl, refl, refl, refl)
  split_two (o ∷ p ∷ obs) (suc i) h =
      let (before, x, y, after, e, l, g, k) = split_two (p ∷ obs) i (omega arith) in
      (o ∷ before, x, y, after, ap (λ r. o ∷ r) e, ap suc l, g, k)

  price_at-some :
      (obs : List (Obs f)) (i : ℕ) (o : Obs f)
      → get_elem? obs i ≡ some o
      → price_at f obs i ≡ o.price
  unfolding price_at
  price_at-some obs i o e = rw (e, price_at) refl

  pub plain_median-IsMiddle :
      (obs : List (Obs f)) → 0 < length obs → IsMiddle obs (plain_median f obs)
  unfolding plain_median
  plain_median-IsMiddle obs h = elim (Bool-cases (length obs % 2 == 0)) [
    | inl e ↦
        let even = (==_iff (length obs % 2) 0).0 e in
        let next : suc (length obs / 2 - 1) ≡ length obs / 2 = omega arith in
        let (before, x, y, after, s, l, g, k) = split_two obs (length obs / 2 - 1) (omega arith) in
        let sizes = ap length s ∙ length-append before (x ∷ y ∷ after) in
        inr (
          before,
          x,
          y,
          after,
          s,
          omega arith,
          rw
              (
                e,
                price_at-some obs (length obs / 2 - 1) x g,
                price_at-some obs (length obs / 2) y (subst (λ i. get_elem? obs i ≡ some y) next k),
                plain_median,
              )
              refl,
        )
    | inr e ↦
        let (before, o, after, s, l, g) = split_one obs (length obs / 2) (omega arith) in
        let sizes = ap length s ∙ length-append before (o ∷ after) in
        let odd : length obs % 2 ≢ 0 = λ z. cc ((==_iff (length obs % 2) 0).1 z, e) in
        inl (
          before,
          o,
          after,
          s,
          omega arith,
          rw (e, price_at-some obs (length obs / 2) o g, plain_median) refl,
        )
  ]
