-- ===== src/Prelude/Bytes/Slices.antt =====
-- Slices of a list, and of concatenated parts.
use Prim.Native.Nat.{ℕ, zero, suc, ◌+◌, ◌-◌, ◌≤◌}
use mathlib.Core.Path.{◌≡◌, refl, sym, ap, ◌∙◌}
use mathlib.Core.Option.{some}
use mathlib.Core.List.{List, [], ◌∷◌, ◌++◌, append_assoc}
use native.Mathlib.Omega.{arith}
use flare_verifiable_rag.Prelude.Lists.{
  length, take, drop, slice, concat, All, get_elem?, drop-length, slice_middle,
}

abbrev pub Ascending : ℕ → List ℕ → Type 0
Ascending start [] = Unit
Ascending start (end ∷ ends) = (start ≤ end) × Ascending end ends

abbrev pub final : ℕ → List ℕ → ℕ
final start [] = start
final start (end ∷ ends) = final end ends

final_le : (start : ℕ) (ends : List ℕ) → Ascending start ends → start ≤ final start ends
final_le start [] h = omega arith
final_le start (end ∷ ends) h = omega (arith, h.0, final_le end ends h.1)

module _ {ℓ} {A : Type ℓ} where
  take-drop-concat :
      (parts : List (List A)) (k : ℕ)
      → concat (take k parts) ++ concat (drop k parts) ≡ concat parts
  take-drop-concat parts zero = refl
  take-drop-concat [] (suc k) = refl
  take-drop-concat (x ∷ parts) (suc k) =
      append_assoc x (concat (take k parts)) (concat (drop k parts))
      ∙ ap (λ r. x ++ r) (take-drop-concat parts k)

  concat_split :
      (parts : List (List A)) (k : ℕ) (part : List A)
      → get_elem? parts k ≡ some part
      → concat parts ≡ concat (take k parts) ++ (part ++ concat (drop (suc k) parts))
  concat_split [] k part h = cc
  concat_split (x ∷ parts) zero part h = let e : x ≡ part = cc in ap (λ r. r ++ concat parts) e
  concat_split (x ∷ parts) (suc k) part h =
      ap (λ r. x ++ r) (concat_split parts k part h) ∙ sym (append_assoc x _ _)

  -- The part at a position of a list of parts is cut out at the offsets where it lies.
  pub slice-concat :
      (parts : List (List A)) (k start end : ℕ) (part : List A)
      → get_elem? parts k ≡ some part
      → length (concat (take k parts)) ≡ start
      → start + length part ≡ end
      → slice (concat parts) start end ≡ part
  slice-concat parts k start end part h s e =
      rw (concat_split parts k part h, sym e, sym s)
        (slice_middle (concat (take k parts)) part (concat (drop (suc k) parts)))

  -- Behind the first parts lie the others.
  pub drop-concat :
      (parts : List (List A)) (k n : ℕ)
      → length (concat (take k parts)) ≡ n
      → drop n (concat parts) ≡ concat (drop k parts)
  drop-concat parts k n h =
      rw (sym h, sym (take-drop-concat parts k))
        (drop-length (concat (take k parts)) (concat (drop k parts)))

  pub length-take : (n : ℕ) (xs : List A) → n ≤ length xs → length (take n xs) ≡ n
  length-take zero xs h = refl
  length-take (suc n) [] h = absurd (omega arith)
  length-take (suc n) (x ∷ xs) h = ap suc (length-take n xs (omega arith))

  pub length-drop : (n : ℕ) (xs : List A) → length (drop n xs) ≡ length xs - n
  length-drop zero xs = omega arith
  length-drop (suc n) [] = omega arith
  length-drop (suc n) (x ∷ xs) = omega (arith, length-drop n xs)

  pub length-slice :
      (xs : List A) (start end : ℕ)
      → start ≤ end
      → end ≤ length xs
      → length (slice xs start end) ≡ end - start
  length-slice xs start end h k =
      length-take (end - start) (drop start xs) (omega (arith, length-drop start xs))

  take_nil : (m : ℕ) → take {A = A} m [] ≡ []
  take_nil zero = refl
  take_nil (suc m) = refl

  take-drop-append : (n m : ℕ) (xs : List A) → take n xs ++ take m (drop n xs) ≡ take (n + m) xs
  take-drop-append zero m xs = let e : 0 + m ≡ m = omega arith in rw e refl
  take-drop-append (suc n) m [] = let e : suc n + m ≡ suc (n + m) = omega arith in rw e (take_nil m)
  take-drop-append (suc n) m (x ∷ xs) =
      let e : suc n + m ≡ suc (n + m) = omega arith in
      rw e (ap (λ r. x ∷ r) (take-drop-append n m xs))

  drop-drop : (n m : ℕ) (xs : List A) → drop m (drop n xs) ≡ drop (n + m) xs
  drop-drop zero m xs = let e : 0 + m ≡ m = omega arith in rw e refl
  drop-drop (suc n) zero [] = let e : suc n + 0 ≡ suc (n + 0) = omega arith in rw e refl
  drop-drop (suc n) (suc m) [] = let e : suc n + suc m ≡ suc (n + suc m) = omega arith in rw e refl
  drop-drop (suc n) m (x ∷ xs) =
      let e : suc n + m ≡ suc (n + m) = omega arith in rw e (drop-drop n m xs)

  -- A slice and the one that starts where it ends are one slice.
  pub slice-append-slice :
      (xs : List A) (start middle end : ℕ)
      → start ≤ middle
      → middle ≤ end
      → slice xs start middle ++ slice xs middle end ≡ slice xs start end
  slice-append-slice xs start middle end h k =
      let a : start + (middle - start) ≡ middle = omega arith in
      let b : middle - start + (end - middle) ≡ end - start = omega arith in
      let e = take-drop-append (middle - start) (end - middle) (drop start xs) in
      ap (λ r. take (middle - start) (drop start xs) ++ take (end - middle) r)
        (sym (rw a at (drop-drop start (middle - start) xs)))
      ∙ rw b at e

  -- The slices between each two neighbours of `start` and the list of ends.
  abbrev pub slices : List A → ℕ → List ℕ → List (List A)
  slices xs start [] = []
  slices xs start (end ∷ ends) = slice xs start end ∷ slices xs end ends

  pub concat-slices :
      (xs : List A) (start : ℕ) (ends : List ℕ)
      → Ascending start ends
      → concat (slices xs start ends) ≡ slice xs start (final start ends)
  concat-slices xs start [] h = let n : start - start ≡ 0 = omega arith in rw n refl
  concat-slices xs start (end ∷ ends) h =
      rw (concat-slices xs end ends h.1)
        (slice-append-slice xs start end (final end ends) h.0 (final_le end ends h.1))

  pub take_all : (xs : List A) → take (length xs) xs ≡ xs
  take_all [] = refl
  take_all (x ∷ xs) = ap (λ r. x ∷ r) (take_all xs)

  pub slice_all : (xs : List A) (n : ℕ) → length xs ≡ n → slice xs 0 n ≡ xs
  slice_all xs n h = let e : n - 0 ≡ length xs = omega arith in rw e (take_all xs)

module _ {ℓ κ} {A : Type ℓ} (P : A → Type κ) where
  All-take : (n : ℕ) (xs : List A) → All P xs → All P (take n xs)
  All-take zero xs a = tt
  All-take (suc n) [] a = tt
  All-take (suc n) (x ∷ xs) a = (a.0, All-take n xs a.1)

  pub All-drop : (n : ℕ) (xs : List A) → All P xs → All P (drop n xs)
  All-drop zero xs a = a
  All-drop (suc n) [] a = tt
  All-drop (suc n) (x ∷ xs) a = All-drop n xs a.1

  pub All-slice : (xs : List A) (start end : ℕ) → All P xs → All P (slice xs start end)
  All-slice xs start end a = All-take (end - start) (drop start xs) (All-drop start xs a)
