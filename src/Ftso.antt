-- ===== src/Ftso.antt =====
-- enclave/enclave_grpc/src/ftso_provider: prices and 24 hour volumes are the `f64` of Rust. Their
-- arithmetic is rounded, so it is a parameter here, and each theorem names what it needs of it.
pub mod Calculator
pub mod Node
pub mod Submitter
mod Examples
use Prim.Native.Nat.{Ordering}
use flare_verifiable_rag.Prelude.{
  ℕ, ◌+◌, ◌≡◌, refl, ◌⊎◌, inl, inr, Bool, true, false, Option, none, some, List, [], ◌∷◌,
}

-- `partial_cmp` is `none` on a NaN.
pub record Floats : Type 1 where
  pub F : Type 0
  pub partial_cmp : F → F → Option Ordering
  pub add : F → F → F
  pub mul : F → F → F
  pub div : F → F → F
  pub is_finite : F → Bool
  pub round : F → F
  pub as_u64 : F → ℕ
  pub of_u64 : ℕ → F
  pub of_fraction : ℕ → ℕ → F

module _ (f : Floats) where
  abbrev pub le : f.F → f.F → Bool
  le a b = elim (f.partial_cmp a b) [
    | some Ordering.lt ↦ true
    | some Ordering.eq ↦ true
    | some Ordering.gt ↦ false
    | none ↦ false
  ]

  abbrev pub lt : f.F → f.F → Bool
  lt a b = elim (f.partial_cmp a b) [
    | some Ordering.lt ↦ true
    | some Ordering.eq ↦ false
    | some Ordering.gt ↦ false
    | none ↦ false
  ]

  abbrev pub zero_f : f.F
  zero_f = f.of_u64 0

  -- `sum` of an iterator.
  abbrev pub sum_from : f.F → List f.F → f.F
  sum_from acc [] = acc
  sum_from acc (x ∷ xs) = sum_from (f.add acc x) xs

  abbrev pub sum : List f.F → f.F
  sum xs = sum_from zero_f xs

-- The numbers of a class are none of them NaN, and ordered as IEEE 754 orders them.
pub record IsOrdered (f : Floats) (P : f.F → Type 0) : Type 0 where
  pub total :
      (a b : f.F)
      → P a
      → P b
      → (f.partial_cmp a b ≡ some Ordering.lt) × (f.partial_cmp b a ≡ some Ordering.gt)
        ⊎ ((f.partial_cmp a b ≡ some Ordering.eq) × (f.partial_cmp b a ≡ some Ordering.eq)
            ⊎ (f.partial_cmp a b ≡ some Ordering.gt) × (f.partial_cmp b a ≡ some Ordering.lt))
  pub le_trans :
      (a b c : f.F) → P a → P b → P c → le f a b ≡ true → le f b c ≡ true → le f a c ≡ true

module _ (f : Floats) (P : f.F → Type 0) (law : IsOrdered f P) where
  pub le_refl : (a : f.F) → P a → le f a a ≡ true
  le_refl a p = elim (law.total a a p p) [
    | inl (x, y) ↦ absurd (cc (x, y))
    | inr (inl (x, _)) ↦ rw (x, le) refl
    | inr (inr (x, y)) ↦ absurd (cc (x, y))
  ]

  -- Of two numbers, either the first is less, or it is not and the second is at most it.
  pub lt_or_le :
      (a b : f.F)
      → P a
      → P b
      → (lt f a b ≡ true) × (le f a b ≡ true) × (le f b a ≡ false)
        ⊎ (lt f a b ≡ false) × (le f b a ≡ true)
  lt_or_le a b p q = elim (law.total a b p q) [
    | inl (x, y) ↦ inl (rw (x, lt) refl, rw (x, le) refl, rw (y, le) refl)
    | inr (inl (x, y)) ↦ inr (rw (x, lt) refl, rw (y, le) refl)
    | inr (inr (x, y)) ↦ inr (rw (x, lt) refl, rw (y, le) refl)
  ]
