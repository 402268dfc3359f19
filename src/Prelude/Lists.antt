-- ===== src/Prelude/Lists.antt =====
-- Lists measured and indexed by native numbers, with predicates on all their members.
use Prim.Native.Nat.{ℕ, zero, suc, ◌+◌, ◌-◌, ◌<◌}
use mathlib.Core.Path.{◌≡◌, refl, sym, ap, ◌∙◌, subst}
use mathlib.Core.Logic.{◌↔◌, ◌⊎◌, inl, inr}
use mathlib.Core.Bool.{Bool, true, false, ◌&&◌, ◌||◌}
use mathlib.Core.List.{List, [], ◌∷◌, ◌++◌, map, append_assoc}
use mathlib.Core.Option.{Option, none, some}
use native.Mathlib.Omega.{arith}
use flare_verifiable_rag.Prelude.Tests.{◌==◌, if◌then◌else◌}

module _ {ℓ} {A : Type ℓ} where
  abbrev pub length : List A → ℕ
  length [] = 0
  length (x ∷ xs) = suc (length xs)

  abbrev pub get_elem? : List A → ℕ → Option A
  get_elem? [] i = none
  get_elem? (x ∷ xs) zero = some x
  get_elem? (x ∷ xs) (suc i) = get_elem? xs i

  -- The lists of the list, one after the other.
  abbrev pub concat : List (List A) → List A
  concat [] = []
  concat (xs ∷ xss) = xs ++ concat xss

  -- Every member satisfies the predicate.
  abbrev pub All {κ} : (A → Type κ) → List A → Type κ
  All P [] = Unit
  All P (x ∷ xs) = P x × All P xs

  abbrev pub all : (A → Bool) → List A → Bool
  all p [] = true
  all p (x ∷ xs) = p x && all p xs

  abbrev pub any : (A → Bool) → List A → Bool
  any p [] = false
  any p (x ∷ xs) = p x || any p xs

  -- The members that pass the test, in their order.
  abbrev pub select : (A → Bool) → List A → List A
  select p [] = []
  select p (x ∷ xs) = elim (p x) [ true ↦ x ∷ select p xs | false ↦ select p xs ]

  pub length-append : (xs ys : List A) → length (xs ++ ys) ≡ length xs + length ys
  length-append [] ys = omega arith
  length-append (x ∷ xs) ys = omega (arith, length-append xs ys)

  pub All-append {κ} : (P : A → Type κ) (xs ys : List A) → All P xs → All P ys → All P (xs ++ ys)
  All-append P [] ys a b = b
  All-append P (x ∷ xs) ys a b = (a.0, All-append P xs ys a.1 b)

  pub all-append : (p : A → Bool) (xs ys : List A) → all p (xs ++ ys) ≡ (all p xs && all p ys)
  all-append p [] ys = refl
  all-append p (x ∷ xs) ys = ground (arith, all-append p xs ys)

  pub any-append : (p : A → Bool) (xs ys : List A) → any p (xs ++ ys) ≡ (any p xs || any p ys)
  any-append p [] ys = refl
  any-append p (x ∷ xs) ys = ground (arith, any-append p xs ys)

  pub concat-append : (xss yss : List (List A)) → concat (xss ++ yss) ≡ concat xss ++ concat yss
  concat-append [] yss = refl
  concat-append (xs ∷ xss) yss =
      ap (λ r. xs ++ r) (concat-append xss yss) ∙ sym (append_assoc xs (concat xss) (concat yss))

  pub select-eq-nil : (p : A → Bool) (xs : List A) → (select p xs ≡ []) ↔ (any p xs ≡ false)
  select-eq-nil p [] = (λ _. refl, λ _. refl)
  select-eq-nil p (x ∷ xs) = ground (arith, select-eq-nil p xs)

  pub List-cases : (xs : List A) → (xs ≡ []) ⊎ ((x : A) × (rest : List A) × (xs ≡ x ∷ rest))
  List-cases [] = inl refl
  List-cases (x ∷ xs) = inr (x, xs, refl)

  pub get_elem?-concat :
      (xs : List A) (y : A) (i : ℕ)
      → get_elem? (xs ++ y ∷ []) i ≡ (if i == length xs then some y else get_elem? xs i)
  get_elem?-concat [] y zero = refl
  get_elem?-concat [] y (suc i) = ground arith
  get_elem?-concat (x ∷ xs) y zero = ground arith
  get_elem?-concat (x ∷ xs) y (suc i) = ground (arith, get_elem?-concat xs y i)

  pub get_elem?-lt : (xs : List A) (i : ℕ) (y : A) → get_elem? xs i ≡ some y → i < length xs
  get_elem?-lt [] i y h = cc
  get_elem?-lt (x ∷ xs) zero y h = omega arith
  get_elem?-lt (x ∷ xs) (suc i) y h = omega (arith, get_elem?-lt xs i y h)

  pub get_elem?-some : (xs : List A) (i : ℕ) → i < length xs → (y : A) × (get_elem? xs i ≡ some y)
  get_elem?-some [] i h = absurd (omega arith)
  get_elem?-some (x ∷ xs) zero h = (x, refl)
  get_elem?-some (x ∷ xs) (suc i) h = get_elem?-some xs i (omega arith)

  abbrev pub take : ℕ → List A → List A
  take zero xs = []
  take (suc n) [] = []
  take (suc n) (x ∷ xs) = x ∷ take n xs

  abbrev pub drop : ℕ → List A → List A
  drop zero xs = xs
  drop (suc n) [] = []
  drop (suc n) (x ∷ xs) = drop n xs

  -- `&xs[start..end]`
  abbrev pub slice : List A → ℕ → ℕ → List A
  slice xs start end = take (end - start) (drop start xs)

  pub take-length : (xs ys : List A) → take (length xs) (xs ++ ys) ≡ xs
  take-length [] ys = refl
  take-length (x ∷ xs) ys = ap (λ r. x ∷ r) (take-length xs ys)

  pub drop-length : (xs ys : List A) → drop (length xs) (xs ++ ys) ≡ ys
  drop-length [] ys = refl
  drop-length (x ∷ xs) ys = drop-length xs ys

  pub All-select {κ} :
      (P : A → Type κ) (p : A → Bool) (xs : List A) → All P xs → All P (select p xs)
  All-select P p [] a = tt
  All-select P p (x ∷ xs) (h, a) =
      elim (p x) as (λ b. All P (elim b [ true ↦ x ∷ select p xs | false ↦ select p xs ])) [
        | true ↦ (h, All-select P p xs a)
        | false ↦ All-select P p xs a
      ]

  pub All-get_elem? {κ} :
      (P : A → Type κ) (xs : List A) (i : ℕ) (x : A) → All P xs → get_elem? xs i ≡ some x → P x
  All-get_elem? P [] i x a h = cc
  All-get_elem? P (y ∷ xs) zero x a h = subst P (cc) a.0
  All-get_elem? P (y ∷ xs) (suc i) x a h = All-get_elem? P xs i x a.1 h

  pub slice_middle :
      (before middle after : List A)
      → slice (before ++ (middle ++ after)) (length before) (length before + length middle) ≡ middle
  slice_middle before middle after =
      let e : length before + length middle - length before ≡ length middle = omega arith in
      rw (drop-length before (middle ++ after), e) (take-length middle after)

pub length-map {ℓ κ} :
    {A : Type ℓ} {B : Type κ} (f : A → B) (xs : List A) → length (map f xs) ≡ length xs
length-map f [] = refl
length-map f (x ∷ xs) = ap suc (length-map f xs)
