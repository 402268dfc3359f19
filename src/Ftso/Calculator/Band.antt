-- ===== src/Ftso/Calculator/Band.antt =====
-- What the trimming of `volume_trimmed_median` keeps: the observations in the middle.
use flare_verifiable_rag.Prelude.{◌≡◌, ◌≢◌, ◌⊎◌, true, false, List, [], ◌∷◌, ◌++◌, map, All}
use flare_verifiable_rag.Ftso.{Floats, le, lt, zero_f}
use flare_verifiable_rag.Ftso.Calculator.{pair_of, total_volume, trim_low, trim_high}
use flare_verifiable_rag.Ftso.Calculator.Sorting.{Obs}

module _ (f : Floats) where
  abbrev pub Volumes : (f.F → Type 0) → List (Obs f) → Type 0
  Volumes Q obs = All (λ (o : Obs f). Q o.volume_24h) obs

  -- The volume up to the end of the observations, from the volume `cum` before them.
  abbrev pub volume_after : f.F → List (Obs f) → f.F
  volume_after cum [] = cum
  volume_after cum (o ∷ obs) = volume_after (f.add cum o.volume_24h) obs

  -- Each window ends at the cut or before it.
  abbrev pub Below : (low cum : f.F) → List (Obs f) → Type 0
  Below low cum [] = Unit
  Below low cum (o ∷ obs) =
      (lt f low (f.add cum o.volume_24h) ≡ false) × Below low (f.add cum o.volume_24h) obs

  -- Each window ends behind the lower cut and starts before the upper one.
  abbrev pub Inside : (low high cum : f.F) → List (Obs f) → Type 0
  Inside low high cum [] = Unit
  Inside low high cum (o ∷ obs) =
      ((lt f low (f.add cum o.volume_24h) ≡ true) × (lt f cum high ≡ true))
      × Inside low high (f.add cum o.volume_24h) obs

  -- Each window starts at the cut or behind it.
  abbrev pub Above : (high cum : f.F) → List (Obs f) → Type 0
  Above high cum [] = Unit
  Above high cum (o ∷ obs) = (lt f cum high ≡ false) × Above high (f.add cum o.volume_24h) obs

  -- The observations fall into those below the band, those whose windows reach into it, and those
  -- above it, in this order.
  pub record IsBand (low high cum : f.F) (sorted middle : List (Obs f)) : Type 0 where
    pub before : List (Obs f)
    pub after : List (Obs f)
    pub splits : sorted ≡ before ++ (middle ++ after)
    pub below : Below low cum before
    pub inside : Inside low high (volume_after cum before) middle
    pub above : Above high (volume_after (volume_after cum before) middle) after

  -- The numbers of a class can be added, which makes no sum smaller, and cut.
  pub record HasSums (Q : f.F → Type 0) : Type 0 where
    pub zero_sum : Q (zero_f f)
    pub add_sum : (a v : f.F) → Q a → Q v → Q (f.add a v) × (le f a (f.add a v) ≡ true)
    pub cut_low : (a : f.F) → Q a → Q (f.mul (trim_low f) a)
    pub cut_high : (a : f.F) → Q a → Q (f.mul (trim_high f) a)

  -- The pairs of the observations in the middle of the band, or of all observations if the band
  -- has no middle.
  abbrev pub IsTrimmed : List (Obs f) → List (f.F × f.F) → Type 0
  IsTrimmed sorted kept =
      let total = total_volume f sorted in
      (middle : List (Obs f)) × IsBand (f.mul (trim_low f) total) (f.mul (trim_high f) total)
        (zero_f f) sorted middle
      × ((middle ≡ []) × (kept ≡ map (pair_of f) sorted)
          ⊎ (middle ≢ []) × (kept ≡ map (pair_of f) middle))
