-- ===== src/Ftso/Calculator/Trimmed.antt =====
-- The trimming of `volume_trimmed_median` keeps the middle of the band.
use flare_verifiable_rag.Prelude.{
  ◌≡◌, ◌≢◌, ◌⊎◌, refl, ap, inl, inr, true, false, Bool-cases, List, [], ◌∷◌, ◌++◌, map,
}
use flare_verifiable_rag.Ftso.{Floats, IsOrdered, le, lt, zero_f, sum_from, lt_or_le}
use flare_verifiable_rag.Ftso.Calculator.{
  pair_of, trim, all_if_empty, trimmed, total_volume, trim_low, trim_high,
}
use flare_verifiable_rag.Ftso.Calculator.Sorting.{Obs}
use flare_verifiable_rag.Ftso.Calculator.Band.{
  Volumes, volume_after, Inside, Above, IsBand, HasSums, IsTrimmed,
}

module _ (f : Floats) where
  module _ (Q : f.F → Type 0) (law : IsOrdered f Q) (sums : HasSums f Q) where
    lt-trans_le :
        (a b c : f.F) → Q a → Q b → Q c → lt f a b ≡ true → le f b c ≡ true → lt f a c ≡ true
    lt-trans_le a b c p q r h k = elim (lt_or_le f Q law a c p r) [
      | inl (x, _, _) ↦ x
      | inr (_, y) ↦ elim (lt_or_le f Q law a b p q) [
        | inl (_, _, z) ↦ absurd (cc (law.le_trans b c a q r p k y, z))
        | inr (z, _) ↦ absurd (cc (z, h))
      ]
    ]

    lt-false_trans :
        (a b c : f.F) → Q a → Q b → Q c → le f a b ≡ true → lt f a c ≡ false → lt f b c ≡ false
    lt-false_trans a b c p q r h k = elim (lt_or_le f Q law b c q r) [
      | inr (x, _) ↦ x
      | inl (_, x, y) ↦ elim (lt_or_le f Q law a c p r) [
        | inl (z, _, _) ↦ absurd (cc (z, k))
        | inr (_, z) ↦ absurd (cc (law.le_trans c a b r p q z h, y))
      ]
    ]

    above_lem :
        (low high cum : f.F) (sorted : List (Obs f))
        → Q cum
        → Q high
        → Volumes f Q sorted
        → lt f cum high ≡ false
        → (trim f low high cum sorted ≡ []) × Above f high cum sorted
    unfolding trim
    above_lem low high cum [] q h a e = (refl, tt)
    above_lem low high cum (o ∷ sorted) q h (v, a) e =
        let ca = f.add cum o.volume_24h in
        let (qa, grows) = sums.add_sum cum o.volume_24h q v in
        let (t, rest) =
          above_lem low high ca sorted qa h a (lt-false_trans cum ca high q qa h grows e) in
        (
          elim (Bool-cases (lt f low ca)) [ inl c ↦ rw (c, e, trim) t | inr c ↦ rw (c, trim) t ],
          (e, rest),
        )

    -- What the trimming keeps from a volume on that is behind the lower cut.
    record Middle (low high cum : f.F) (sorted : List (Obs f)) : Type 0 where
      middle : List (Obs f)
      after : List (Obs f)
      splits : sorted ≡ middle ++ after
      keeps : trim f low high cum sorted ≡ map (pair_of f) middle
      inside : Inside f low high cum middle
      above : Above f high (volume_after f cum middle) after

    middle_lem :
        (low high cum : f.F) (sorted : List (Obs f))
        → Q low
        → Q cum
        → Q high
        → Volumes f Q sorted
        → lt f low cum ≡ true
        → Middle low high cum sorted
    unfolding trim
    middle_lem low high cum [] l q h a e = record {
      middle = [];
      after = [];
      splits = refl;
      keeps = refl;
      inside = tt;
      above = tt;
    }
    middle_lem low high cum (o ∷ sorted) l q h (v, a) e =
        let ca = f.add cum o.volume_24h in
        let (qa, grows) = sums.add_sum cum o.volume_24h q v in
        let e' : lt f low ca ≡ true = lt-trans_le low cum ca l q qa e grows in
        elim (Bool-cases (lt f cum high)) [
          | inl c ↦
              let rest = middle_lem low high ca sorted l qa h a e' in
              record {
                middle = o ∷ rest.middle;
                after = rest.after;
                splits = ap (λ r. o ∷ r) rest.splits;
                keeps = rw (e', c, trim) (ap (λ r. pair_of f o ∷ r) rest.keeps);
                inside = ((e', c), rest.inside);
                above = rest.above;
              }
          | inr c ↦
              let (t, rest) = above_lem low high cum (o ∷ sorted) q h (v, a) c in
              record {
                middle = [];
                after = o ∷ sorted;
                splits = refl;
                keeps = t;
                inside = tt;
                above = rest;
              }
        ]

    pub trim-IsBand :
        (low high cum : f.F) (sorted : List (Obs f))
        → Q low
        → Q cum
        → Q high
        → Volumes f Q sorted
        → (middle : List (Obs f)) × (trim f low high cum sorted ≡ map (pair_of f) middle)
          × IsBand f low high cum sorted middle
    unfolding trim
    trim-IsBand low high cum [] l q h a = (
      [],
      refl,
      record { before = []; after = []; splits = refl; below = tt; inside = tt; above = tt },
    )
    trim-IsBand low high cum (o ∷ sorted) l q h (v, a) =
        let ca = f.add cum o.volume_24h in
        let (qa, grows) = sums.add_sum cum o.volume_24h q v in
        elim (Bool-cases (lt f low ca)) [
          | inr c ↦
              let (middle, keeps, band) = trim-IsBand low high ca sorted l qa h a in
              (
                middle,
                rw (c, trim) keeps,
                record {
                  before = o ∷ band.before;
                  after = band.after;
                  splits = ap (λ r. o ∷ r) band.splits;
                  below = (c, band.below);
                  inside = band.inside;
                  above = band.above;
                },
              )
          | inl c ↦ elim (Bool-cases (lt f cum high)) [
            | inl d ↦
                let rest = middle_lem low high ca sorted l qa h a c in
                (
                  o ∷ rest.middle,
                  rw (c, d, trim) (ap (λ r. pair_of f o ∷ r) rest.keeps),
                  record {
                    before = [];
                    after = rest.after;
                    splits = ap (λ r. o ∷ r) rest.splits;
                    below = tt;
                    inside = ((c, d), rest.inside);
                    above = rest.above;
                  },
                )
            | inr d ↦
                let (t, rest) = above_lem low high cum (o ∷ sorted) q h (v, a) d in
                (
                  [],
                  t,
                  record {
                    before = [];
                    after = o ∷ sorted;
                    splits = refl;
                    below = tt;
                    inside = tt;
                    above = rest;
                  },
                )
          ]
        ]

    sum_from-class :
        (acc : f.F) (obs : List (Obs f))
        → Q acc
        → Volumes f Q obs
        → Q (sum_from f acc (map (λ (o : Obs f). o.volume_24h) obs))
    sum_from-class acc [] q a = q
    sum_from-class acc (o ∷ obs) q (v, a) =
        sum_from-class (f.add acc o.volume_24h) obs (sums.add_sum acc o.volume_24h q v).0 a

    pub trimmed-IsTrimmed :
        (sorted : List (Obs f)) → Volumes f Q sorted → IsTrimmed f sorted (trimmed f sorted)
    unfolding trimmed all_if_empty
    trimmed-IsTrimmed sorted a =
        let t = sum_from-class (zero_f f) sorted sums.zero_sum a in
        let total = total_volume f sorted in
        let (middle, keeps, band) =
          trim-IsBand (f.mul (trim_low f) total) (f.mul (trim_high f) total) (zero_f f) sorted
            (sums.cut_low total t) sums.zero_sum (sums.cut_high total t) a in
        (middle, band, chosen middle keeps)
      where
        chosen :
            (middle : List (Obs f))
            → trim f
                (f.mul (trim_low f) (total_volume f sorted))
                (f.mul (trim_high f) (total_volume f sorted))
                (zero_f f)
                sorted
              ≡ map (pair_of f) middle
            → (middle ≡ []) × (trimmed f sorted ≡ map (pair_of f) sorted)
              ⊎ (middle ≢ []) × (trimmed f sorted ≡ map (pair_of f) middle)
        chosen [] keeps = inl (refl, rw (keeps, trimmed) refl)
        chosen (o ∷ middle) keeps = inr (λ e. cc, rw (keeps, trimmed) refl)
