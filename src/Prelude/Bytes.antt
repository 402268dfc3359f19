-- ===== src/Prelude/Bytes.antt =====
-- `to_be_bytes` and `from_be_bytes` of Rust's integers, and the names of Slices, passed on.
mod Slices
pub use Slices.*
use Prim.Native.Nat.{ℕ, zero, suc, ◌+◌, ◌-◌, ◌*◌, ◌/◌, ◌%◌, ◌^◌, ◌≤◌, ◌<◌}
use mathlib.Core.Path.{◌≡◌, refl, sym, ap, subst, ◌∙◌}
use mathlib.Core.Option.{some}
use mathlib.Core.List.{List, [], ◌∷◌, ◌++◌, append_assoc}
use native.Mathlib.Omega.{arith}
use flare_verifiable_rag.Prelude.Lists.{
  length, take, drop, slice, concat, All, get_elem?, length-append, All-append, drop-length,
  slice_middle,
}

abbrev pub IsByte : ℕ → Type 0
IsByte b = b < 256

-- `[0u8; n]`
abbrev pub zeros : ℕ → List ℕ
zeros zero = []
zeros (suc n) = 0 ∷ zeros n

-- The lowest `width` bytes of a number, the highest of them first.
unfoldable pub to_be_bytes : ℕ → ℕ → List ℕ
to_be_bytes zero n = []
to_be_bytes (suc width) n = to_be_bytes width (n / 256) ++ (n % 256) ∷ []

unfoldable pub from_be_loop : ℕ → List ℕ → ℕ
from_be_loop acc [] = acc
from_be_loop acc (b ∷ bs) = from_be_loop (acc * 256 + b) bs

unfoldable pub from_be_bytes : List ℕ → ℕ
unfolding from_be_loop
from_be_bytes bs = from_be_loop 0 bs

from_be_loop-snoc :
    (acc : ℕ) (bs : List ℕ) (b : ℕ)
    → from_be_loop acc (bs ++ b ∷ []) ≡ from_be_loop acc bs * 256 + b
unfolding from_be_loop
from_be_loop-snoc acc [] b = refl
from_be_loop-snoc acc (c ∷ bs) b = from_be_loop-snoc (acc * 256 + c) bs b

pub length-to_be_bytes : (width n : ℕ) → length (to_be_bytes width n) ≡ width
unfolding to_be_bytes
length-to_be_bytes zero n = refl
length-to_be_bytes (suc width) n = omega (
  arith,
  length-append (to_be_bytes width (n / 256)) ((n % 256) ∷ []),
  length-to_be_bytes width (n / 256),
)

pub to_be_bytes-IsByte : (width n : ℕ) → All IsByte (to_be_bytes width n)
unfolding to_be_bytes
to_be_bytes-IsByte zero n = tt
to_be_bytes-IsByte (suc width) n =
    All-append IsByte _ _ (to_be_bytes-IsByte width (n / 256)) (omega arith, tt)

pub from_be_bytes-to_be_bytes :
    (width n : ℕ) → n < 256 ^ width → from_be_bytes (to_be_bytes width n) ≡ n
unfolding to_be_bytes from_be_bytes
from_be_bytes-to_be_bytes zero n h = unfold from_be_loop in omega arith
from_be_bytes-to_be_bytes (suc width) n h = omega (
  arith,
  from_be_loop-snoc 0 (to_be_bytes width (n / 256)) (n % 256),
  from_be_bytes-to_be_bytes width (n / 256) (omega arith),
)

snoc_cases :
    (bs : List ℕ) (n : ℕ)
    → length bs ≡ suc n
    → (front : List ℕ) × (b : ℕ) × (bs ≡ front ++ b ∷ []) × (length front ≡ n)
snoc_cases [] n h = absurd (omega arith)
snoc_cases (b ∷ []) n h = ([], b, refl, omega arith)
snoc_cases (b ∷ c ∷ bs) zero h = absurd (omega arith)
snoc_cases (b ∷ c ∷ bs) (suc n) h =
    let (front, d, e, l) = snoc_cases (c ∷ bs) n (omega arith) in
    (b ∷ front, d, ap (λ r. b ∷ r) e, omega (arith, l))

All-snoc : (bs : List ℕ) (b : ℕ) → All IsByte (bs ++ b ∷ []) → All IsByte bs × (b < 256)
All-snoc [] b a = (tt, a.0)
All-snoc (c ∷ bs) b a = let (x, y) = All-snoc bs b a.1 in ((a.0, x), y)

-- Bytes are the big-endian form of the number that they read as.
pub to_be_bytes-from_be_bytes :
    (width : ℕ) (bs : List ℕ)
    → length bs ≡ width
    → All IsByte bs
    → (to_be_bytes width (from_be_bytes bs) ≡ bs) × (from_be_bytes bs < 256 ^ width)
unfolding to_be_bytes from_be_bytes
to_be_bytes-from_be_bytes zero [] h a = unfold from_be_loop in (refl, omega arith)
to_be_bytes-from_be_bytes zero (b ∷ bs) h a = absurd (omega arith)
to_be_bytes-from_be_bytes (suc width) bs h a =
    let (front, b, e, l) = snoc_cases bs width h in
    let (all_front, small) = All-snoc front b (subst_all bs (front ++ b ∷ []) e a) in
    let (same, bound) = to_be_bytes-from_be_bytes width front l all_front in
    let value : from_be_loop 0 bs ≡ from_be_loop 0 front * 256 + b =
      ap (from_be_loop 0) e ∙ from_be_loop-snoc 0 front b in
    let high : from_be_loop 0 bs / 256 ≡ from_be_loop 0 front = omega arith in
    let low : from_be_loop 0 bs % 256 ≡ b = omega arith in
    (rw (high, low, same) (sym e), omega arith)
  where
    subst_all : (xs ys : List ℕ) → xs ≡ ys → All IsByte xs → All IsByte ys
    subst_all xs ys p q = subst (All IsByte) p q

-- `bytes[i]`; the code panics out of range, and the model reads 0 there.
abbrev pub byte_at : List ℕ → ℕ → ℕ
byte_at [] i = 0
byte_at (b ∷ bytes) zero = b
byte_at (b ∷ bytes) (suc i) = byte_at bytes i

take-drop-byte_at : (bs : List ℕ) (i : ℕ) → i < length bs → take 1 (drop i bs) ≡ byte_at bs i ∷ []
take-drop-byte_at [] i h = absurd (omega arith)
take-drop-byte_at (b ∷ bs) zero h = refl
take-drop-byte_at (b ∷ bs) (suc i) h = take-drop-byte_at bs i (omega arith)

pub slice-byte_at :
    (bs : List ℕ) (start end : ℕ)
    → start < length bs
    → end ≡ suc start
    → slice bs start end ≡ byte_at bs start ∷ []
slice-byte_at bs start end h e =
    let n : end - start ≡ 1 = omega arith in rw n (take-drop-byte_at bs start h)

pub byte_at-IsByte : (bs : List ℕ) (i : ℕ) → All IsByte bs → byte_at bs i < 256
byte_at-IsByte [] i a = omega arith
byte_at-IsByte (b ∷ bs) zero a = a.0
byte_at-IsByte (b ∷ bs) (suc i) a = byte_at-IsByte bs i a.1
