-- ===== src/Lexer/Unique.antt =====
-- The next token is determined by the input: one round of `tokenize` in lib.rs finds the token that
-- the classes of the bytes prescribe.
use flare_verifiable_rag.Prelude.{
  ℕ, ◌+◌, ◌<◌, ◌≡◌, refl, sym, true, false, List, [], ◌∷◌, ◌++◌, append_assoc, append-nil, length,
  all, ok, arith, subst,
}
use flare_verifiable_rag.Lexer.{
  TokenKind, word, number, punctuation, symbol, whitespace, Token, is_ascii_digit,
  is_ascii_whitespace, starts_word, continues_word, is_punctuation, is_symbol, decimal_part,
  number_run, next_token,
}
use flare_verifiable_rag.Lexer.Runs.{starts, run_unique, IsFraction, starts_fraction, Spells, Ends}
use flare_verifiable_rag.Lexer.Round.{IsNext, starts_continues}

-- The classes that start a token exclude one another.
pub digit-not-word : (b : ℕ) → is_ascii_digit b ≡ true → starts_word b ≡ false
unfolding is_ascii_digit starts_word
digit-not-word b h = ground arith

pub whitespace-not-others :
    (b : ℕ) → is_ascii_whitespace b ≡ true → (starts_word b ≡ false) × (is_ascii_digit b ≡ false)
unfolding is_ascii_digit starts_word is_ascii_whitespace
whitespace-not-others b h = ground arith

pub punctuation-not-others :
    (b : ℕ)
    → is_punctuation b ≡ true
    → (starts_word b ≡ false) × (is_ascii_digit b ≡ false) × (is_ascii_whitespace b ≡ false)
unfolding is_ascii_digit starts_word is_ascii_whitespace is_punctuation
punctuation-not-others b h = ground arith

pub symbol-not-others :
    (b : ℕ)
    → is_symbol b ≡ true
    → (starts_word b ≡ false)
      × (is_ascii_digit b ≡ false)
      × (is_ascii_whitespace b ≡ false)
      × (is_punctuation b ≡ false)
unfolding is_ascii_digit starts_word is_ascii_whitespace is_punctuation is_symbol
symbol-not-others b h = ground arith

decimal_part_unique :
    (fraction rest : List ℕ)
    → IsFraction fraction
    → starts is_ascii_digit rest ≡ false
    → (fraction ≡ [] → starts_fraction rest ≡ false)
    → decimal_part (fraction ++ rest) ≡ (fraction, rest)
unfolding decimal_part
decimal_part_unique [] [] f h k = refl
decimal_part_unique [] (c ∷ []) f h k = refl
decimal_part_unique [] (c ∷ d ∷ rest) f h k = rw (k refl)
decimal_part_unique (c ∷ []) rest f h k = absurd f
decimal_part_unique (c ∷ d ∷ digits) rest f h k =
    ground (arith, run_unique is_ascii_digit (d ∷ digits) rest)

fraction_starts :
    (fraction rest : List ℕ)
    → IsFraction fraction
    → starts is_ascii_digit rest ≡ false
    → starts is_ascii_digit (fraction ++ rest) ≡ false
unfolding is_ascii_digit
fraction_starts [] rest f h = h
fraction_starts (c ∷ []) rest f h = absurd f
fraction_starts (c ∷ d ∷ digits) rest f h = rw f.0

number_run_unique :
    (whole fraction rest : List ℕ)
    → all is_ascii_digit whole ≡ true
    → IsFraction fraction
    → Ends number (whole ++ fraction) rest
    → number_run ((whole ++ fraction) ++ rest) ≡ (whole ++ fraction, rest)
unfolding number_run
number_run_unique whole fraction rest digits f (stops, no_more) =
    let absent = λ (e : fraction ≡ []). no_more (rw (e, append-nil) digits) in
    rw (
      append_assoc whole fraction rest,
      run_unique is_ascii_digit whole (fraction ++ rest) digits
          (fraction_starts fraction rest f stops),
      decimal_part_unique fraction rest f stops absent,
    )

-- The round that takes the bytes `lexeme` off the front.
abbrev Takes : ℕ → ℕ → List ℕ → TokenKind → List ℕ → List ℕ → Type 0
Takes start b bytes kind lexeme rest =
    next_token start b bytes
    ≡ ok (record { kind = kind; lexeme = lexeme; start = start; end = start + length lexeme }, rest)

module _ (start b : ℕ) (lexeme rest : List ℕ) where
  word_taken :
      starts_word b ≡ true
      → all continues_word lexeme ≡ true
      → Ends word (b ∷ lexeme) rest
      → Takes start b (lexeme ++ rest) word (b ∷ lexeme) rest
  unfolding next_token
  word_taken first others stops = rw (
    first,
    run_unique continues_word (b ∷ lexeme) rest (rw (starts_continues b first) others) stops,
  )

  whitespace_taken :
      Spells whitespace (b ∷ lexeme)
      → Ends whitespace (b ∷ lexeme) rest
      → Takes start b (lexeme ++ rest) whitespace (b ∷ lexeme) rest
  unfolding next_token
  whitespace_taken spaces stops =
      let first : is_ascii_whitespace b ≡ true = ground arith in
      let others = whitespace-not-others b first in
      rw (others.0, others.1, first, run_unique is_ascii_whitespace (b ∷ lexeme) rest spaces stops)

number_taken :
    (start b : ℕ) (whole fraction rest : List ℕ)
    → all is_ascii_digit (b ∷ whole) ≡ true
    → IsFraction fraction
    → Ends number (b ∷ whole ++ fraction) rest
    → Takes start b ((whole ++ fraction) ++ rest) number (b ∷ whole ++ fraction) rest
unfolding next_token
number_taken start b whole fraction rest digits f ends =
    let first : is_ascii_digit b ≡ true = ground arith in
    rw (digit-not-word b first, first, number_run_unique (b ∷ whole) fraction rest digits f ends)

punctuation_taken :
    (start b : ℕ) (rest : List ℕ)
    → is_punctuation b ≡ true
    → Takes start b rest punctuation (b ∷ []) rest
unfolding next_token
punctuation_taken start b rest h =
    let others = punctuation-not-others b h in rw (others.0, others.1, others.2, h)

symbol_taken :
    (start b : ℕ) (rest : List ℕ) → is_symbol b ≡ true → Takes start b rest symbol (b ∷ []) rest
unfolding next_token
symbol_taken start b rest h =
    let others = symbol-not-others b h in rw (others.0, others.1, others.2, others.3, h)

Takes-number :
    (start b : ℕ) (bytes whole fraction rest : List ℕ)
    → (whole ++ fraction) ++ rest ≡ b ∷ bytes
    → 0 < length whole
    → all is_ascii_digit whole ≡ true
    → IsFraction fraction
    → Ends number (whole ++ fraction) rest
    → Takes start b bytes number (whole ++ fraction) rest
Takes-number start b bytes [] fraction rest cut n digits f ends = absurd (omega arith)
Takes-number start b bytes (d ∷ whole) fraction rest cut n digits f ends =
    ground (arith, number_taken start d whole fraction rest digits f ends)

takes :
    (start b : ℕ) (bytes : List ℕ) (kind : TokenKind) (lexeme rest : List ℕ)
    → lexeme ++ rest ≡ b ∷ bytes
    → Spells kind lexeme
    → Ends kind lexeme rest
    → Takes start b bytes kind lexeme rest
takes start b bytes word [] rest cut spells ends = absurd spells
takes start b bytes word (c ∷ lexeme) rest cut (first, others) ends =
    ground (arith, word_taken start c lexeme rest first others ends)
takes start b bytes whitespace [] rest cut spells ends = absurd spells
takes start b bytes whitespace (c ∷ lexeme) rest cut spells ends =
    ground (arith, whitespace_taken start c lexeme rest spells ends)
takes start b bytes number lexeme rest cut (whole, fraction, split, n, digits, f) ends =
    subst (λ l. Takes start b bytes number l rest) (sym split)
      (Takes-number start b bytes whole fraction rest (rw split at cut) n digits f
        (subst (λ l. Ends number l rest) split ends))
takes start b bytes punctuation lexeme rest cut (c, single, h) ends =
    ground (arith, punctuation_taken start c rest h)
takes start b bytes symbol lexeme rest cut (c, single, h) ends =
    ground (arith, symbol_taken start c rest h)

-- A round finds the next token of its input, whichever that is.
pub next_token_complete :
    {start b : ℕ} {bytes : List ℕ} {t : Token} {rest : List ℕ}
    → IsNext start (b ∷ bytes) t rest
    → next_token start b bytes ≡ ok (t, rest)
next_token_complete {start} {b} {bytes} {t} {rest} n =
    ground (arith, takes start b bytes t.kind t.lexeme rest n.cut n.spells n.maximal)
