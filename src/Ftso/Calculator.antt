-- ===== src/Ftso/Calculator.antt =====
-- enclave/enclave_grpc/src/ftso_provider/calculator.rs: the volume-trimmed weighted median.
pub mod Sorting
pub mod Correct
pub mod Whole
pub mod Unordered
pub mod Median
pub mod Band
pub mod Trimmed
pub mod Middle
use Prim.Native.Nat.{Ordering}
use Prim.Native.String.{String}
use flare_verifiable_rag.Prelude.{
  ℕ, ◌+◌, ◌-◌, ◌/◌, ◌%◌, Bool, true, false, ◌&&◌, Option, none, some, List, [], ◌∷◌, length, map,
  get_elem?, ◌==◌, if◌then◌else◌,
}
use flare_verifiable_rag.Ftso.{Floats, le, lt, zero_f, sum}

pub record Observation (F : Type 0) : Type 0 where
  pub exchange : String
  pub price : F
  pub volume_24h : F

module _ (f : Floats) where
  abbrev pub trim_low : f.F
  trim_low = f.of_fraction 1 4

  abbrev pub trim_high : f.F
  trim_high = f.of_fraction 3 4

  abbrev pub before_all :
      Observation f.F → Option (List (Observation f.F)) → Option (List (Observation f.F))
  before_all o none = none
  before_all o (some sorted) = some (o ∷ sorted)

  -- `sort_by` is stable; `none` is its panic, when two prices do not compare. Each is compared with
  -- another one at least.
  unfoldable pub insert : Observation f.F → List (Observation f.F) → Option (List (Observation f.F))
  insert o [] = some (o ∷ [])
  insert o (p ∷ sorted) = elim (f.partial_cmp o.price p.price) [
    | none ↦ none
    | some Ordering.lt ↦ some (o ∷ p ∷ sorted)
    | some Ordering.eq ↦ some (o ∷ p ∷ sorted)
    | some Ordering.gt ↦ before_all p (insert o sorted)
  ]

  abbrev pub insert_into :
      Observation f.F → Option (List (Observation f.F)) → Option (List (Observation f.F))
  insert_into o none = none
  insert_into o (some sorted) = insert o sorted

  unfoldable pub sort_by_price : List (Observation f.F) → Option (List (Observation f.F))
  sort_by_price [] = some []
  sort_by_price (o ∷ obs) = insert_into o (sort_by_price obs)

  -- `sorted[i].price`; the code panics out of range, which does not happen.
  unfoldable pub price_at : List (Observation f.F) → ℕ → f.F
  price_at sorted i = elim (get_elem? sorted i) [ none ↦ zero_f f | some o ↦ o.price ]

  unfoldable pub plain_median : List (Observation f.F) → f.F
  unfolding price_at
  plain_median sorted =
      let mid = length sorted / 2 in
      if length sorted % 2 == 0
      then f.div (f.add (price_at sorted (mid - 1)) (price_at sorted mid)) (f.of_u64 2)
      else price_at sorted mid

  abbrev pub pair_of : Observation f.F → f.F × f.F
  pair_of o = (o.price, o.volume_24h)

  -- The loop that trims, from the volume `cum` before the next observation.
  unfoldable pub trim : (low_cut high_cut cum : f.F) → List (Observation f.F) → List (f.F × f.F)
  trim low_cut high_cut cum [] = []
  trim low_cut high_cut cum (o ∷ sorted) =
      let cum_after = f.add cum o.volume_24h in
      let rest = trim low_cut high_cut cum_after sorted in
      if lt f low_cut cum_after && lt f cum high_cut then pair_of o ∷ rest else rest

  unfoldable pub all_if_empty : List (f.F × f.F) → List (Observation f.F) → List (f.F × f.F)
  all_if_empty [] sorted = map pair_of sorted
  all_if_empty (k ∷ kept) sorted = k ∷ kept

  -- The last loop, and `kept.last()` when it falls through.
  unfoldable pub cross_half : (half acc : f.F) → List (f.F × f.F) → Option f.F
  cross_half half acc [] = none
  cross_half half acc ((price, volume) ∷ []) = some price
  cross_half half acc ((price, volume) ∷ k ∷ kept) =
      let later = cross_half half (f.add acc volume) (k ∷ kept) in
      if le f half (f.add acc volume) then some price else later

  unfoldable pub weighted_median : List (f.F × f.F) → Option f.F
  unfolding cross_half
  weighted_median kept =
      cross_half (f.div (sum f (map (λ k. k.1) kept)) (f.of_u64 2)) (zero_f f) kept

  abbrev pub total_volume : List (Observation f.F) → f.F
  total_volume sorted = sum f (map (λ (o : Observation f.F). o.volume_24h) sorted)

  unfoldable pub trimmed : List (Observation f.F) → List (f.F × f.F)
  unfolding trim all_if_empty
  trimmed sorted =
      let total = total_volume sorted in
      all_if_empty (trim (f.mul trim_low total) (f.mul trim_high total) (zero_f f) sorted) sorted

  unfoldable pub median_of_sorted : List (Observation f.F) → Option f.F
  unfolding plain_median weighted_median trimmed
  median_of_sorted sorted =
      if le f (total_volume sorted) (zero_f f)
      then some (plain_median sorted)
      else weighted_median (trimmed sorted)

  abbrev pub median_if_sorted : Option (List (Observation f.F)) → Option (Option f.F)
  median_if_sorted none = none
  median_if_sorted (some sorted) = some (median_of_sorted sorted)

  -- The outer `none` is the panic of the sort.
  unfoldable pub volume_trimmed_median : List (Observation f.F) → Option (Option f.F)
  unfolding sort_by_price median_of_sorted
  volume_trimmed_median [] = some none
  volume_trimmed_median (o ∷ []) = some (some o.price)
  volume_trimmed_median (o ∷ p ∷ obs) = median_if_sorted (sort_by_price (o ∷ p ∷ obs))
