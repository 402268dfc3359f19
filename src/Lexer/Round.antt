-- ===== src/Lexer/Round.antt =====
-- One round of `tokenize` in lib.rs against what a token is.
use flare_verifiable_rag.Prelude.{
  ℕ, ◌+◌, ◌<◌, ◌≡◌, refl, ap, ◌∙◌, inl, inr, Bool, true, false, ◌||◌, List, [], ◌∷◌, ◌++◌,
  append_assoc, length, all, all-append, Bool-cases, ok, err, arith,
}
use flare_verifiable_rag.Lexer.{
  TokenKind, word, number, punctuation, symbol, whitespace, Token, IndexerResult, is_ascii_digit,
  is_ascii_whitespace, starts_word, continues_word, is_punctuation, is_symbol, run, decimal_part,
  number_run, next_token, token_at, tokenize_error, not_classifiable,
}
use flare_verifiable_rag.Lexer.Runs.{
  run-append, all-run, run_stops, IsFraction, Spells, Ends, decimal_part-append,
  decimal_part-IsFraction, decimal_part_stops, decimal_part_absent,
}

-- `t` is the token at offset `start` of the input `bytes`, and `rest` is what follows it.
pub record IsNext (start : ℕ) (bytes : List ℕ) (t : Token) (rest : List ℕ) : Type 0 where
  pub cut : t.lexeme ++ rest ≡ bytes
  pub begins : t.start ≡ start
  pub ends : t.end ≡ start + length t.lexeme
  pub spells : Spells t.kind t.lexeme
  pub maximal : Ends t.kind t.lexeme rest

digits-nonempty :
    (b : ℕ) (bytes : List ℕ)
    → is_ascii_digit b ≡ true
    → 0 < length (run is_ascii_digit (b ∷ bytes)).0
unfolding run
digits-nonempty b bytes h = ground arith

fraction_absent :
    (fraction : List ℕ) → IsFraction fraction → all is_ascii_digit fraction ≡ true → fraction ≡ []
unfolding is_ascii_digit
fraction_absent [] f h = refl
fraction_absent (c ∷ []) f h = absurd f
fraction_absent (c ∷ d ∷ digits) f h = absurd (ground arith)

number_run-append : (bytes : List ℕ) → (number_run bytes).0 ++ (number_run bytes).1 ≡ bytes
unfolding number_run
number_run-append bytes =
    let (whole, rest) = run is_ascii_digit bytes in
    append_assoc whole (decimal_part rest).0 (decimal_part rest).1
    ∙ ap (λ r. whole ++ r) (decimal_part-append rest)
    ∙ run-append is_ascii_digit bytes

number_run-Spells :
    (b : ℕ) (bytes : List ℕ) → is_ascii_digit b ≡ true → Spells number (number_run (b ∷ bytes)).0
unfolding number_run
number_run-Spells b bytes h =
    let (whole, rest) = run is_ascii_digit (b ∷ bytes) in
    (
      whole,
      (decimal_part rest).0,
      refl,
      digits-nonempty b bytes h,
      all-run is_ascii_digit (b ∷ bytes),
      decimal_part-IsFraction rest,
    )

number_run-Ends : (bytes : List ℕ) → Ends number (number_run bytes).0 (number_run bytes).1
unfolding number_run
number_run-Ends bytes =
    let (whole, rest) = run is_ascii_digit bytes in
    let fraction = (decimal_part rest).0 in
    (
      decimal_part_stops rest (run_stops is_ascii_digit bytes),
      λ h. decimal_part_absent rest (
          fraction_absent fraction (decimal_part-IsFraction rest)
            (ground (arith, all-append is_ascii_digit whole fraction))),
    )

run_taken :
    (test : ℕ → Bool) (b : ℕ) (bytes : List ℕ)
    → test b ≡ true
    → (run test (b ∷ bytes)).0 ≡ b ∷ (run test bytes).0
unfolding run
run_taken test b bytes h = ground arith

pub starts_continues : (b : ℕ) → starts_word b ≡ true → continues_word b ≡ true
unfolding starts_word continues_word
starts_continues b h = ground arith

-- The byte is in one of the classes that a branch of `tokenize` takes.
unfoldable pub is_classifiable : ℕ → Bool
is_classifiable b =
    starts_word b || is_ascii_digit b || is_ascii_whitespace b || is_punctuation b || is_symbol b

-- A round gives the next token, and fails at a byte of no class, naming it and its offset.
abbrev pub Round : ℕ → ℕ → List ℕ → IndexerResult (Token × List ℕ) → Type 0
Round start b bytes (ok (t, rest)) = IsNext start (b ∷ bytes) t rest × (is_classifiable b ≡ true)
Round start b bytes (err e) =
    (e ≡ tokenize_error start (not_classifiable b)) × (is_classifiable b ≡ false)

module _ (start b : ℕ) (bytes : List ℕ) (classed : is_classifiable b ≡ true) where
  token_at-Round :
      (kind : TokenKind) (taken rest : List ℕ)
      → taken ++ rest ≡ b ∷ bytes
      → Spells kind taken
      → Ends kind taken rest
      → Round start b bytes (token_at start kind (taken, rest))
  token_at-Round kind taken rest cut spells maximal = (
    record { cut = cut; begins = refl; ends = refl; spells = spells; maximal = maximal },
    classed,
  )

  word-Round :
      starts_word b ≡ true
      → Round start b bytes (token_at start word (run continues_word (b ∷ bytes)))
  word-Round h =
      let (taken, rest) = run continues_word (b ∷ bytes) in
      token_at-Round word taken rest (run-append continues_word (b ∷ bytes))
        (rw (run_taken continues_word b bytes (starts_continues b h))
          (h, all-run continues_word bytes))
        (run_stops continues_word (b ∷ bytes))

  whitespace-Round :
      is_ascii_whitespace b ≡ true
      → Round start b bytes (token_at start whitespace (run is_ascii_whitespace (b ∷ bytes)))
  whitespace-Round h =
      let (taken, rest) = run is_ascii_whitespace (b ∷ bytes) in
      token_at-Round whitespace taken rest (run-append is_ascii_whitespace (b ∷ bytes))
        (rw (run_taken is_ascii_whitespace b bytes h)
          (ground (arith, all-run is_ascii_whitespace bytes)))
        (run_stops is_ascii_whitespace (b ∷ bytes))

  number-Round :
      is_ascii_digit b ≡ true → Round start b bytes (token_at start number (number_run (b ∷ bytes)))
  number-Round h =
      let (taken, rest) = number_run (b ∷ bytes) in
      token_at-Round number taken rest (number_run-append (b ∷ bytes)) (number_run-Spells b bytes h)
        (number_run-Ends (b ∷ bytes))

pub next_token-Round :
    (start b : ℕ) (bytes : List ℕ) → Round start b bytes (next_token start b bytes)
unfolding next_token is_classifiable
next_token-Round start b bytes = elim (Bool-cases (starts_word b)) [
  | inl w ↦ rw w (word-Round start b bytes (rw (w, is_classifiable)) w)
  | inr w ↦ rw w (elim (Bool-cases (is_ascii_digit b)) [
    | inl d ↦ rw d (number-Round start b bytes (ground arith) d)
    | inr d ↦ rw d (elim (Bool-cases (is_ascii_whitespace b)) [
      | inl s ↦ rw s (whitespace-Round start b bytes (ground arith) s)
      | inr s ↦ rw s (elim (Bool-cases (is_punctuation b)) [
        | inl p ↦ rw p (
            token_at-Round start b bytes (ground arith) punctuation (b ∷ []) bytes refl (b, refl, p)
              tt)
        | inr p ↦ rw p (elim (Bool-cases (is_symbol b)) [
          | inl y ↦ rw y (
              token_at-Round start b bytes (ground arith) symbol (b ∷ []) bytes refl (b, refl, y)
                tt)
          | inr y ↦ rw y (refl, ground arith)
        ])
      ])
    ])
  ])
]
