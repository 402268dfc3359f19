-- ===== src/Lexer/Runs.antt =====
-- What one round of `tokenize` in lib.rs takes off the input.
use flare_verifiable_rag.Prelude.{
  ℕ, ◌<◌, ◌≡◌, refl, Bool, true, false, ◌&&◌, List, [], ◌∷◌, ◌++◌, length, all, ◌==◌, arith,
}
use flare_verifiable_rag.Lexer.{
  TokenKind, word, number, punctuation, symbol, whitespace, is_ascii_digit, is_ascii_whitespace,
  starts_word, continues_word, is_punctuation, is_symbol, run, decimal_part,
}

-- The first byte, if there is one, passes the test.
abbrev pub starts : (ℕ → Bool) → List ℕ → Bool
starts test [] = false
starts test (b ∷ bytes) = test b

module _ (test : ℕ → Bool) where
  pub run-append : (bytes : List ℕ) → (run test bytes).0 ++ (run test bytes).1 ≡ bytes
  unfolding run
  run-append [] = refl
  run-append (b ∷ bytes) = ground (arith, run-append bytes)

  pub all-run : (bytes : List ℕ) → all test (run test bytes).0 ≡ true
  unfolding run
  all-run [] = refl
  all-run (b ∷ bytes) = ground (arith, all-run bytes)

  pub run_stops : (bytes : List ℕ) → starts test (run test bytes).1 ≡ false
  unfolding run
  run_stops [] = refl
  run_stops (b ∷ bytes) = ground (arith, run_stops bytes)

  -- A run goes over what passes the test and stops in front of what does not.
  pub run_unique :
      (taken rest : List ℕ)
      → all test taken ≡ true
      → starts test rest ≡ false
      → run test (taken ++ rest) ≡ (taken, rest)
  unfolding run
  run_unique [] [] h k = refl
  run_unique [] (b ∷ rest) h k = ground arith
  run_unique (b ∷ taken) rest h k = ground (arith, run_unique taken rest)

-- A fraction is nothing, or a point and at least one digit.
abbrev pub IsFraction : List ℕ → Type 0
IsFraction [] = Unit
IsFraction (c ∷ []) = ⊥
IsFraction (c ∷ d ∷ digits) = (c ≡ b'.') × (all is_ascii_digit (d ∷ digits) ≡ true)

-- A point and a digit stand in front.
abbrev pub starts_fraction : List ℕ → Bool
starts_fraction [] = false
starts_fraction (c ∷ []) = false
starts_fraction (c ∷ d ∷ bytes) = c == b'.' && is_ascii_digit d

-- The bytes of a token of each kind, without regard to what stands behind it.
abbrev pub Spells : TokenKind → List ℕ → Type 0
Spells word [] = ⊥
Spells word (b ∷ bytes) = (starts_word b ≡ true) × (all continues_word bytes ≡ true)
Spells number lexeme =
    (whole : List ℕ) × (fraction : List ℕ) × (lexeme ≡ whole ++ fraction)
    × (0 < length whole)
    × (all is_ascii_digit whole ≡ true)
    × IsFraction fraction
Spells whitespace [] = ⊥
Spells whitespace (b ∷ bytes) = all is_ascii_whitespace (b ∷ bytes) ≡ true
Spells punctuation lexeme = (b : ℕ) × (lexeme ≡ b ∷ []) × (is_punctuation b ≡ true)
Spells symbol lexeme = (b : ℕ) × (lexeme ≡ b ∷ []) × (is_symbol b ≡ true)

-- What cannot stand behind a token, because the token would have taken it.
abbrev pub Ends : TokenKind → List ℕ → List ℕ → Type 0
Ends word lexeme rest = starts continues_word rest ≡ false
Ends number lexeme rest =
    (starts is_ascii_digit rest ≡ false)
    × (all is_ascii_digit lexeme ≡ true → starts_fraction rest ≡ false)
Ends whitespace lexeme rest = starts is_ascii_whitespace rest ≡ false
Ends punctuation lexeme rest = Unit
Ends symbol lexeme rest = Unit

pub decimal_part-append :
    (bytes : List ℕ) → (decimal_part bytes).0 ++ (decimal_part bytes).1 ≡ bytes
unfolding decimal_part
decimal_part-append [] = refl
decimal_part-append (c ∷ []) = refl
decimal_part-append (c ∷ d ∷ bytes) = ground (arith, run-append is_ascii_digit (d ∷ bytes))

pub decimal_part-IsFraction : (bytes : List ℕ) → IsFraction (decimal_part bytes).0
unfolding decimal_part run
decimal_part-IsFraction [] = tt
decimal_part-IsFraction (c ∷ []) = tt
decimal_part-IsFraction (c ∷ d ∷ bytes) = ground (arith, all-run is_ascii_digit bytes)

pub decimal_part_stops :
    (bytes : List ℕ)
    → starts is_ascii_digit bytes ≡ false
    → starts is_ascii_digit (decimal_part bytes).1 ≡ false
unfolding decimal_part
decimal_part_stops [] h = refl
decimal_part_stops (c ∷ []) h = h
decimal_part_stops (c ∷ d ∷ bytes) h = ground (arith, run_stops is_ascii_digit (d ∷ bytes))

pub decimal_part_absent :
    (bytes : List ℕ) → (decimal_part bytes).0 ≡ [] → starts_fraction (decimal_part bytes).1 ≡ false
unfolding decimal_part
decimal_part_absent [] h = refl
decimal_part_absent (c ∷ []) h = refl
decimal_part_absent (c ∷ d ∷ bytes) h = ground arith
