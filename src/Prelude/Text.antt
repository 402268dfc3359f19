-- ===== src/Prelude/Text.antt =====
-- A text is the list of its bytes or of its code points; `==` on texts, and ASCII lower case.
use Prim.Native.Char.{code}
use Prim.Native.String.{String}
use Prim.Native.Nat.{ℕ, ◌+◌}
use mathlib.Core.Path.{◌≡◌, refl}
use mathlib.Core.Logic.{◌↔◌}
use mathlib.Core.Bool.{Bool, true, false, ◌&&◌}
use mathlib.Core.List.{List, [], ◌∷◌, map}
use native.Mathlib.Omega.{arith}
use flare_verifiable_rag.Prelude.Tests.{◌==◌, leb, if◌then◌else◌}

-- The code points of a text, which are its bytes if it is ASCII.
abbrev pub codes : String → List ℕ
codes String.[] = []
codes (String.◌∷◌ c s) = code c ∷ codes s

unfoldable pub text_eq : List ℕ → List ℕ → Bool
text_eq [] [] = true
text_eq [] (b ∷ bs) = false
text_eq (a ∷ as') [] = false
text_eq (a ∷ as') (b ∷ bs) = a == b && text_eq as' bs

pub text_eq_iff : (s t : List ℕ) → (text_eq s t ≡ true) ↔ (s ≡ t)
unfolding text_eq
text_eq_iff [] [] = (λ _. refl, λ _. refl)
text_eq_iff [] (b ∷ bs) = (λ h. cc, λ h. cc)
text_eq_iff (a ∷ as') [] = (λ h. cc, λ h. cc)
text_eq_iff (a ∷ as') (b ∷ bs) = ground (arith, text_eq_iff as' bs)

pub text_eq_refl : (s : List ℕ) → text_eq s s ≡ true
text_eq_refl s = (text_eq_iff s s).1 refl

-- `u8::to_ascii_lowercase`, and `str::to_lowercase` on ASCII text.
unfoldable pub lower : ℕ → ℕ
lower b = if leb b'A' b && leb b b'Z' then b + 32 else b

unfoldable pub to_lowercase : List ℕ → List ℕ
unfolding lower
to_lowercase s = map lower s

pub lower-lower : (b : ℕ) → lower (lower b) ≡ lower b
unfolding lower
lower-lower b = ground arith

pub to_lowercase_twice : (s : List ℕ) → to_lowercase (to_lowercase s) ≡ to_lowercase s
unfolding to_lowercase
to_lowercase_twice [] = refl
to_lowercase_twice (b ∷ s) = ground (arith, lower-lower b, to_lowercase_twice s)
