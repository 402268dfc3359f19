-- ===== src/Lexer.antt =====
-- Stage 1 of the pipeline, enclave/src/rag_engine/src/lib.rs: the token types and `tokenize`.
-- A document is the list of its bytes. The source walks an index `i` over `bytes`; here the walk
-- holds the offset `i` and the bytes from there on, so `bytes[i]` is the head of that list and
-- `&input[start..i]` is the part that a run took off it.
pub mod Runs
pub mod Round
pub mod Unique
pub mod Tokenization
pub mod Correct
use flare_verifiable_rag.Prelude.{
  ℕ, zero, suc, ◌+◌, Bool, true, false, ◌&&◌, ◌||◌, Option, none, some, List, [], ◌∷◌, ◌++◌, length,
  any, leb, ◌==◌, if◌then◌else◌, Result, ok, err,
}

pub data TokenKind : Type 0 where
  word number punctuation symbol whitespace : TokenKind

-- `TokenKind::is_significant`
unfoldable pub is_significant : TokenKind → Bool
is_significant whitespace = false
is_significant word = true
is_significant number = true
is_significant punctuation = true
is_significant symbol = true

pub record Token : Type 0 where
  pub kind : TokenKind
  pub lexeme : List ℕ
  pub start : ℕ
  pub end : ℕ

-- What the text of an error says.
pub data Message : Type 0 where
  not_classifiable : ℕ → Message
  no_significant_tokens no_sentences empty_graph_match : Message

pub data IndexerError : Type 0 where
  tokenize_error : ℕ → Message → IndexerError
  parse_error : ℕ → Message → IndexerError
  invalid_pattern : Message → IndexerError
  empty_graph : Message → IndexerError

abbrev pub IndexerResult : Type 0 → Type 0
IndexerResult A = Result A IndexerError

-- The tests of `u8` in Rust's standard library.
unfoldable pub is_ascii_digit : ℕ → Bool
is_ascii_digit b = leb b'0' b && leb b b'9'

unfoldable pub is_ascii_alphabetic : ℕ → Bool
is_ascii_alphabetic b = leb b'A' b && leb b b'Z' || leb b'a' b && leb b b'z'

unfoldable pub is_ascii_alphanumeric : ℕ → Bool
unfolding is_ascii_alphabetic is_ascii_digit
is_ascii_alphanumeric b = is_ascii_alphabetic b || is_ascii_digit b

-- Space, tab, line feed, form feed and carriage return.
unfoldable pub is_ascii_whitespace : ℕ → Bool
is_ascii_whitespace b = any (λ c. b == c) (0x20 ∷ 0x09 ∷ 0x0a ∷ 0x0c ∷ 0x0d ∷ [])

-- The guards of the branches of `tokenize`.
unfoldable pub starts_word : ℕ → Bool
unfolding is_ascii_alphabetic
starts_word b = is_ascii_alphabetic b || b == b'_'

unfoldable pub continues_word : ℕ → Bool
unfolding is_ascii_alphanumeric
continues_word b = is_ascii_alphanumeric b || b == b'_'

unfoldable pub is_punctuation : ℕ → Bool
is_punctuation b =
    any (λ c. b == c)
      (b'.' ∷ b',' ∷ b';' ∷ b':' ∷ b'!' ∷ b'?' ∷ b'"' ∷ 0x27 ∷ b'(' ∷ b')' ∷ b'[' ∷ b']' ∷ b'{'
        ∷ b'}' ∷ [])

unfoldable pub is_symbol : ℕ → Bool
is_symbol b =
    any (λ c. b == c)
      (b'=' ∷ b'+' ∷ b'-' ∷ b'*' ∷ b'/' ∷ b'>' ∷ b'<' ∷ b'&' ∷ b'|' ∷ b'%' ∷ b'^' ∷ b'~' ∷ b'#'
        ∷ [])

-- `while i < bytes.len() && test(bytes[i]) { i += 1; }`: the bytes passed over, and the others.
unfoldable pub run : (ℕ → Bool) → List ℕ → List ℕ × List ℕ
run test [] = ([], [])
run test (b ∷ bytes) =
    let (taken, rest) = run test bytes in if test b then (b ∷ taken, rest) else ([], b ∷ bytes)

-- The optional single decimal point, followed by at least one digit.
unfoldable pub decimal_part : List ℕ → List ℕ × List ℕ
decimal_part [] = ([], [])
decimal_part (c ∷ []) = ([], c ∷ [])
decimal_part (c ∷ d ∷ bytes) =
    if c == b'.' && is_ascii_digit d
    then (let (taken, rest) = run is_ascii_digit (d ∷ bytes) in (c ∷ taken, rest))
    else ([], c ∷ d ∷ bytes)

-- Digits, then the decimal part: the whole branch for a number, from its first digit.
unfoldable pub number_run : List ℕ → List ℕ × List ℕ
number_run bytes =
    let (whole, rest) = run is_ascii_digit bytes in
    let (fraction, rest') = decimal_part rest in (whole ++ fraction, rest')

abbrev pub token_at : ℕ → TokenKind → List ℕ × List ℕ → IndexerResult (Token × List ℕ)
token_at start kind (taken, rest) =
    ok (record { kind = kind; lexeme = taken; start = start; end = start + length taken }, rest)

-- The body of the outer `while`, at the byte `b` of offset `start`.
unfoldable pub next_token : ℕ → ℕ → List ℕ → IndexerResult (Token × List ℕ)
next_token start b bytes =
    if starts_word b
    then token_at start word (run continues_word (b ∷ bytes))
    else if is_ascii_digit b
    then token_at start number (number_run (b ∷ bytes))
    else if is_ascii_whitespace b
    then token_at start whitespace (run is_ascii_whitespace (b ∷ bytes))
    else if is_punctuation b
    then token_at start punctuation (b ∷ [], bytes)
    else if is_symbol b
    then token_at start symbol (b ∷ [], bytes)
    else err (tokenize_error start (not_classifiable b))

-- `tokens.push(t)` before what the later rounds give.
abbrev pub push : Token → Option (IndexerResult (List Token)) → Option (IndexerResult (List Token))
push t none = none
push t (some (ok ts)) = some (ok (t ∷ ts))
push t (some (err e)) = some (err e)

-- The outer `while`; `none` means that the fuel ran out.
unfoldable pub tokenize_loop : ℕ → ℕ → List ℕ → Option (IndexerResult (List Token))
tokenize_loop fuel i [] = some (ok [])
tokenize_loop zero i (b ∷ bytes) = none
tokenize_loop (suc fuel) i (b ∷ bytes) = elim (next_token i b bytes) [
  | ok (t, rest) ↦ push t (tokenize_loop fuel t.end rest)
  | err e ↦ some (err e)
]

abbrev pub finished : Option (IndexerResult (List Token)) → IndexerResult (List Token)
finished (some r) = r
finished none = ok []

-- Each round takes a byte, so the length of the input is fuel enough.
unfoldable pub tokenize : List ℕ → IndexerResult (List Token)
tokenize bytes = finished (tokenize_loop (length bytes) 0 bytes)
