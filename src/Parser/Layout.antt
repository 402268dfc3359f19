-- ===== src/Parser/Layout.antt =====
-- A description of what `parse` in lib.rs builds that has no pending lists: the tokens are read as
-- terms, stops and gaps; gaps part sections, stops part sentences, and what is empty is dropped.
use flare_verifiable_rag.Prelude.{
  ℕ, ◌+◌, ◌≡◌, refl, ap, List, [], ◌∷◌, ◌++◌, map, append_assoc, append-nil, if◌then◌else◌, leb,
}
use flare_verifiable_rag.Lexer.{TokenKind, word, number, punctuation, symbol, whitespace, Token}
use flare_verifiable_rag.Parser.{AstNode, newlines, ends_sentence, sentences, terms}

pub data Piece : Type 0 where
  part : Token → Piece
  stop gap : Piece

-- What a token says, where `n` newlines stand since the last token that is no whitespace; and the
-- number of newlines behind it.
unfoldable pub piece_of : TokenKind → ℕ → Token → List Piece × ℕ
piece_of word n t = (part t ∷ [], 0)
piece_of number n t = (part t ∷ [], 0)
piece_of punctuation n t = if ends_sentence t.lexeme then (stop ∷ [], 0) else ([], 0)
piece_of symbol n t = ([], 0)
piece_of whitespace n t =
    let run = n + newlines t.lexeme in if leb 2 run then (gap ∷ [], 0) else ([], run)

unfoldable pub pieces : ℕ → List Token → List Piece
pieces n [] = []
pieces n (t ∷ ts) = let (said, n') = piece_of t.kind n t in said ++ pieces n' ts

-- The first sentence, the others of the first section, and the other sections.
unfoldable pub read : List Piece → List Token × List (List Token) × List (List (List Token))
read [] = ([], [], [])
read (part t ∷ ps) = let (s, ss, pss) = read ps in (t ∷ s, ss, pss)
read (stop ∷ ps) = let (s, ss, pss) = read ps in ([], s ∷ ss, pss)
read (gap ∷ ps) = let (s, ss, pss) = read ps in ([], [], (s ∷ ss) ∷ pss)

-- The lists that are not empty.
abbrev pub keep {ℓ} : {A : Type ℓ} → List (List A) → List (List A)
keep [] = []
keep ([] ∷ xss) = keep xss
keep ((x ∷ xs) ∷ xss) = (x ∷ xs) ∷ keep xss

-- The tokens of each sentence of each section.
abbrev pub Table : Type 0
Table = List (List (List Token))

-- What is open and what follows it, closed.
abbrev pub sections_from : List (List Token) → List Token → List Piece → Table
sections_from open_sentences open_sentence ps =
    let (s, ss, pss) = read ps in
    keep ((open_sentences ++ keep ((open_sentence ++ s) ∷ ss)) ∷ map keep pss)

-- The table that the description gives for a list of tokens.
unfoldable pub layout : List Token → Table
unfolding read
layout ts = sections_from [] [] (pieces 0 ts)

abbrev pub section_table : AstNode → List (List Token)
section_table n = map terms (sentences n)

pub keep-append {ℓ} :
    {A : Type ℓ} (xss yss : List (List A)) → keep (xss ++ yss) ≡ keep xss ++ keep yss
keep-append [] yss = refl
keep-append ([] ∷ xss) yss = keep-append xss yss
keep-append ((x ∷ xs) ∷ xss) yss = ap (λ r. (x ∷ xs) ∷ r) (keep-append xss yss)

-- A term goes on with the open sentence, a stop closes it, a gap closes the open section.
module _ (ss : List (List Token)) (b : List Token) (ps : List Piece) where
  pub sections_from-part :
      (t : Token) → sections_from ss b (part t ∷ ps) ≡ sections_from ss (b ++ t ∷ []) ps
  unfolding read
  sections_from-part t = rw (append_assoc b (t ∷ []) (read ps).0)

  pub sections_from-stop :
      sections_from ss b (stop ∷ ps) ≡ sections_from (ss ++ keep (b ∷ [])) [] ps
  unfolding read
  sections_from-stop = rw (
    append-nil b,
    append_assoc ss (keep (b ∷ [])) (keep ((read ps).0 ∷ (read ps).1)),
    ← keep-append (b ∷ []) ((read ps).0 ∷ (read ps).1),
  )

  pub sections_from-gap :
      sections_from ss b (gap ∷ ps) ≡ keep ((ss ++ keep (b ∷ [])) ∷ []) ++ sections_from [] [] ps
  unfolding read
  sections_from-gap = rw (append-nil b) (
      keep-append ((ss ++ keep (b ∷ [])) ∷ [])
        (keep ((read ps).0 ∷ (read ps).1) ∷ map keep (read ps).2))
