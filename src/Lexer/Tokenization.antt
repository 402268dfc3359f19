-- ===== src/Lexer/Tokenization.antt =====
-- `tokenize` of lib.rs against a description that mentions no loop.
use flare_verifiable_rag.Prelude.{
  ℕ, zero, suc, ◌+◌, ◌<◌, ◌≤◌, ◌≡◌, refl, sym, ap, ◌∙◌, inl, inr, Bool, true, false, List, [], ◌∷◌,
  ◌++◌, append_assoc, length, all, all-append, ok, err, arith, subst, Option, none, some,
  length-append, Result-cases,
}
use flare_verifiable_rag.Lexer.{
  TokenKind, word, number, punctuation, symbol, whitespace, Token, IndexerResult, IndexerError,
  is_ascii_digit, is_ascii_whitespace, starts_word, continues_word, is_punctuation, is_symbol,
  next_token, tokenize_error, not_classifiable, push, tokenize_loop,
}
use flare_verifiable_rag.Lexer.Runs.{Spells, IsFraction}
use flare_verifiable_rag.Lexer.Round.{
  IsNext, is_classifiable, Round, next_token-Round, starts_continues,
}
use flare_verifiable_rag.Lexer.Unique.{next_token_complete}

-- The tokens cover the bytes from offset `i` on, each the longest of its kind.
abbrev pub IsTokenization : ℕ → List ℕ → List Token → Type 0
IsTokenization i bytes [] = bytes ≡ []
IsTokenization i bytes (t ∷ ts) =
    (rest : List ℕ) × IsNext i bytes t rest × IsTokenization t.end rest ts

-- `e` names the first byte of no class and its offset.
abbrev pub FirstFault : ℕ → List ℕ → IndexerError → Type 0
FirstFault i bytes e =
    (before : List ℕ) × (b : ℕ) × (after : List ℕ) × (bytes ≡ before ++ b ∷ after)
    × (all is_classifiable before ≡ true)
    × (is_classifiable b ≡ false)
    × (e ≡ tokenize_error (i + length before) (not_classifiable b))

abbrev pub Outcome : ℕ → List ℕ → Option (IndexerResult (List Token)) → Type 0
Outcome i bytes none = ⊥
Outcome i bytes (some (ok ts)) = IsTokenization i bytes ts × (all is_classifiable bytes ≡ true)
Outcome i bytes (some (err e)) = FirstFault i bytes e

continues-classifiable : (b : ℕ) → continues_word b ≡ true → is_classifiable b ≡ true
unfolding continues_word is_classifiable starts_word
continues-classifiable b h = ground arith

digit-classifiable : (b : ℕ) → is_ascii_digit b ≡ true → is_classifiable b ≡ true
unfolding is_classifiable
digit-classifiable b h = ground arith

whitespace-classifiable : (b : ℕ) → is_ascii_whitespace b ≡ true → is_classifiable b ≡ true
unfolding is_classifiable
whitespace-classifiable b h = ground arith

punctuation-classifiable : (b : ℕ) → is_punctuation b ≡ true → is_classifiable b ≡ true
unfolding is_classifiable
punctuation-classifiable b h = ground arith

symbol-classifiable : (b : ℕ) → is_symbol b ≡ true → is_classifiable b ≡ true
unfolding is_classifiable
symbol-classifiable b h = ground arith

all-imp :
    (p q : ℕ → Bool)
    → ((b : ℕ) → p b ≡ true → q b ≡ true)
    → (bytes : List ℕ) → all p bytes ≡ true
    → all q bytes ≡ true
all-imp p q f [] h = refl
all-imp p q f (b ∷ bytes) h = ground (arith, f b, all-imp p q f bytes)

fraction-classifiable :
    (fraction : List ℕ) → IsFraction fraction → all is_classifiable fraction ≡ true
unfolding is_classifiable is_punctuation
fraction-classifiable [] f = refl
fraction-classifiable (c ∷ []) f = absurd f
fraction-classifiable (c ∷ d ∷ digits) (point, ds) =
    ground (arith, all-imp is_ascii_digit is_classifiable digit-classifiable (d ∷ digits) ds)

pub Spells-classifiable :
    (kind : TokenKind) (lexeme : List ℕ) → Spells kind lexeme → all is_classifiable lexeme ≡ true
Spells-classifiable word [] s = absurd s
Spells-classifiable word (b ∷ lexeme) (first, others) =
    all-imp continues_word is_classifiable continues-classifiable (b ∷ lexeme)
      (rw (starts_continues b first) others)
Spells-classifiable whitespace [] s = absurd s
Spells-classifiable whitespace (b ∷ lexeme) s =
    all-imp is_ascii_whitespace is_classifiable whitespace-classifiable (b ∷ lexeme) s
Spells-classifiable number lexeme (whole, fraction, split, n, digits, f) = rw (
  split,
  all-append is_classifiable whole fraction,
  fraction-classifiable fraction f,
  all-imp is_ascii_digit is_classifiable digit-classifiable whole digits,
)
Spells-classifiable punctuation lexeme (b, single, h) =
    rw single (rw (punctuation-classifiable b h))
Spells-classifiable symbol lexeme (b, single, h) = rw single (rw (symbol-classifiable b h))

pub Spells-nonempty : (kind : TokenKind) (lexeme : List ℕ) → Spells kind lexeme → 0 < length lexeme
Spells-nonempty word [] s = absurd s
Spells-nonempty word (b ∷ lexeme) s = omega arith
Spells-nonempty whitespace [] s = absurd s
Spells-nonempty whitespace (b ∷ lexeme) s = omega arith
Spells-nonempty number lexeme (whole, fraction, split, n, digits, f) =
    rw split (omega (arith, length-append whole fraction))
Spells-nonempty punctuation lexeme (b, single, h) = rw single (omega arith)
Spells-nonempty symbol lexeme (b, single, h) = rw single (omega arith)

-- What a token and the outcome on the rest give together.
push-Outcome :
    (i : ℕ) (bytes : List ℕ) (t : Token) (rest : List ℕ) (r : Option (IndexerResult (List Token)))
    → IsNext i bytes t rest
    → Outcome t.end rest r
    → Outcome i bytes (push t r)
push-Outcome i bytes t rest none n o = o
push-Outcome i bytes t rest (some (ok ts)) n (tokens, classed) = (
  (rest, n, tokens),
  rw (
    sym n.cut,
    all-append is_classifiable t.lexeme rest,
    Spells-classifiable t.kind t.lexeme n.spells,
    classed,
  ),
)
push-Outcome i bytes t rest (some (err e)) n (before, b, after, cut, classed, bad, at) = (
  t.lexeme ++ before,
  b,
  after,
  sym n.cut ∙ ap (λ r. t.lexeme ++ r) cut ∙ sym (append_assoc t.lexeme before (b ∷ after)),
  rw (
    all-append is_classifiable t.lexeme before,
    Spells-classifiable t.kind t.lexeme n.spells,
    classed,
  ),
  bad,
  at
      ∙ ap (λ o. tokenize_error o (not_classifiable b))
          (omega (arith, n.ends, length-append t.lexeme before)),
)

pub IsNext-shorter :
    (i : ℕ) (bytes : List ℕ) (t : Token) (rest : List ℕ)
    → IsNext i bytes t rest
    → length rest < length bytes
IsNext-shorter i bytes t rest n =
    rw (sym n.cut)
      (omega (arith, length-append t.lexeme rest, Spells-nonempty t.kind t.lexeme n.spells))

pub tokenize_loop-Outcome :
    (fuel i : ℕ) (bytes : List ℕ)
    → length bytes ≤ fuel
    → Outcome i bytes (tokenize_loop fuel i bytes)
unfolding tokenize_loop
tokenize_loop-Outcome fuel i [] h = (refl, refl)
tokenize_loop-Outcome zero i (b ∷ bytes) h = absurd (omega arith)
tokenize_loop-Outcome (suc fuel) i (b ∷ bytes) h = elim (Result-cases (next_token i b bytes)) [
  | inl ((t, rest), e) ↦
      let (n, _) = subst (Round i b bytes) e (next_token-Round i b bytes) in
      rw (Outcome, e, tokenize_loop)
        (push-Outcome i (b ∷ bytes) t rest (tokenize_loop fuel t.end rest) n (
          tokenize_loop-Outcome fuel t.end rest
            (omega (arith, IsNext-shorter i (b ∷ bytes) t rest n))))
  | inr (e, failed) ↦
      let (named, bad) = subst (Round i b bytes) failed (next_token-Round i b bytes) in
      rw (Outcome, failed, tokenize_loop)
        (
          [],
          b,
          bytes,
          refl,
          refl,
          bad,
          named ∙ ap (λ o. tokenize_error o (not_classifiable b)) (omega arith),
        )
]

pub tokenize_loop_complete :
    (fuel i : ℕ) (bytes : List ℕ) (ts : List Token)
    → length bytes ≤ fuel
    → IsTokenization i bytes ts
    → tokenize_loop fuel i bytes ≡ some (ok ts)
unfolding tokenize_loop
tokenize_loop_complete fuel i [] [] h z = refl
tokenize_loop_complete fuel i (b ∷ bytes) [] h z = cc
tokenize_loop_complete fuel i [] (t ∷ ts) h (rest, n, z) =
    absurd (omega (arith, IsNext-shorter i [] t rest n))
tokenize_loop_complete zero i (b ∷ bytes) (t ∷ ts) h z = absurd (omega arith)
tokenize_loop_complete (suc fuel) i (b ∷ bytes) (t ∷ ts) h (rest, n, z) = rw (
  next_token_complete n,
  tokenize_loop,
  tokenize_loop_complete fuel t.end rest ts (omega (arith, IsNext-shorter i (b ∷ bytes) t rest n))
      z,
)
