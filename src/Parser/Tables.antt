-- ===== src/Parser/Tables.antt =====
-- The pending lists of `parse` in lib.rs against the description in `Layout`, token by token.
use mathlib.Core.List.{map-append}
use flare_verifiable_rag.Prelude.{
  ◌+◌, ◌≡◌, refl, sym, ap, ◌∙◌, List, [], ◌∷◌, ◌++◌, map, append_assoc, append-nil, arith,
  Bool-cases, leb, inl, inr, All,
}
use flare_verifiable_rag.Lexer.{TokenKind, word, number, punctuation, symbol, whitespace, Token}
use flare_verifiable_rag.Parser.{
  AstNode, document, section, sentence, term, from_list, ParseState, close_sentence, close_section,
  flush_sentence, flush_section, newlines, ends_sentence, push_term, see_mark, see_whitespace,
  see_kind, parse_loop, sentences, terms, term_tokens,
}
use flare_verifiable_rag.Parser.Shape.{to_list-from_list, IsTerm, IsState, see_kind-IsState}
use flare_verifiable_rag.Parser.Layout.{
  Piece, part, stop, gap, piece_of, pieces, read, keep, Table, sections_from, section_table,
  sections_from-part, sections_from-stop, sections_from-gap,
}

-- The three parts of the state of `parse`, as tables.
abbrev pub closed : ParseState → Table
closed s = map section_table s.sections

abbrev pub waiting : ParseState → List (List Token)
waiting s = map terms s.current_sentences

abbrev pub begun : ParseState → List Token
begun s = term_tokens (from_list s.current_sentence)

-- What `flush_sentence` does to the tables.
record SentenceClosed (s s' : ParseState) : Type 0 where
  sections : s'.sections ≡ s.sections
  sentences : waiting s' ≡ waiting s ++ keep (begun s ∷ [])
  empty : begun s' ≡ []

close_sentence-table :
    (s : ParseState) (ns : List AstNode)
    → All IsTerm ns
    → waiting (close_sentence s ns) ≡ waiting s ++ keep (term_tokens (from_list ns) ∷ [])
unfolding close_sentence terms term_tokens
close_sentence-table s [] a = sym (append-nil _)
close_sentence-table s (term t ∷ ns) a = map-append terms s.current_sentences _
close_sentence-table s (document ns' ∷ ns) a = absurd a.0
close_sentence-table s (section span ns' ∷ ns) a = absurd a.0
close_sentence-table s (sentence span ns' ∷ ns) a = absurd a.0

close_sentence-sections :
    (s : ParseState) (ns : List AstNode) → (close_sentence s ns).sections ≡ s.sections
unfolding close_sentence
close_sentence-sections s [] = refl
close_sentence-sections s (n ∷ ns) = refl

close_sentence-empty :
    (s : ParseState) (ns : List AstNode)
    → s.current_sentence ≡ ns
    → (close_sentence s ns).current_sentence ≡ []
unfolding close_sentence
close_sentence-empty s [] e = e
close_sentence-empty s (n ∷ ns) e = refl

flush_sentence-table : (s : ParseState) → IsState s → SentenceClosed s (flush_sentence s)
unfolding flush_sentence term_tokens
flush_sentence-table s h = record {
  sections = close_sentence-sections s s.current_sentence;
  sentences = close_sentence-table s s.current_sentence h.current_sentence;
  empty = ap (λ ns. term_tokens (from_list ns)) (close_sentence-empty s s.current_sentence refl);
}

close_section-table :
    (s : ParseState) (ns : List AstNode)
    → closed (close_section s ns) ≡ closed s ++ keep (map terms ns ∷ [])
unfolding close_section sentences
close_section-table s [] = sym (append-nil _)
close_section-table s (n ∷ ns) =
    map-append section_table s.sections _
    ∙ ap (λ r. closed s ++ (terms n ∷ map terms r) ∷ []) (to_list-from_list ns)

close_section-empty :
    (s : ParseState) (ns : List AstNode)
    → s.current_sentences ≡ ns
    → (close_section s ns).current_sentences ≡ []
unfolding close_section
close_section-empty s [] e = e
close_section-empty s (n ∷ ns) e = refl

close_section-sentence :
    (s : ParseState) (ns : List AstNode)
    → (close_section s ns).current_sentence ≡ s.current_sentence
unfolding close_section
close_section-sentence s [] = refl
close_section-sentence s (n ∷ ns) = refl

record SectionClosed (s s' : ParseState) : Type 0 where
  sections : closed s' ≡ closed s ++ keep (waiting s ∷ [])
  empty : s'.current_sentences ≡ []
  sentence : s'.current_sentence ≡ s.current_sentence

flush_section-table : (s : ParseState) → SectionClosed s (flush_section s)
unfolding flush_section
flush_section-table s = record {
  sections = close_section-table s s.current_sentences;
  empty = close_section-empty s s.current_sentences refl;
  sentence = close_section-sentence s s.current_sentences;
}

term_tokens-concat :
    (ns : List AstNode) (t : Token)
    → term_tokens (from_list (ns ++ term t ∷ [])) ≡ term_tokens (from_list ns) ++ t ∷ []
unfolding term_tokens
term_tokens-concat [] t = refl
term_tokens-concat (term x ∷ ns) t = ap (λ r. x ∷ r) (term_tokens-concat ns t)
term_tokens-concat (document ns' ∷ ns) t = term_tokens-concat ns t
term_tokens-concat (section span ns' ∷ ns) t = term_tokens-concat ns t
term_tokens-concat (sentence span ns' ∷ ns) t = term_tokens-concat ns t

-- The table of a state with the pieces that are still to come.
abbrev pub view : ParseState → List Piece → Table
view s ps = closed s ++ sections_from (waiting s) (begun s) ps

push_term-view :
    (t : Token) (s : ParseState) (ps : List Piece) → view (push_term t s) ps ≡ view s (part t ∷ ps)
unfolding push_term
push_term-view t s ps =
    rw (sections_from-part (waiting s) (begun s) ps t, term_tokens-concat s.current_sentence t)

flush_sentence-view :
    (s : ParseState) (ps : List Piece) → IsState s → view (flush_sentence s) ps ≡ view s (stop ∷ ps)
flush_sentence-view s ps h =
    let f = flush_sentence-table s h in
    rw (f.sections, f.sentences, f.empty, sections_from-stop (waiting s) (begun s) ps)

flush_section-view :
    (s : ParseState) (ps : List Piece)
    → IsState s
    → view (flush_section (flush_sentence s)) ps ≡ view s (gap ∷ ps)
flush_section-view s ps h =
    let f = flush_sentence-table s h in
    let g = flush_section-table (flush_sentence s) in
    rw
      (
        g.sections,
        g.empty,
        g.sentence,
        f.sentences,
        f.sections,
        f.empty,
        sections_from-gap (waiting s) (begun s) ps,
      )
      (append_assoc (closed s) _ _)

see_kind-view :
    (k : TokenKind) (t : Token) (s : ParseState) (ps : List Piece)
    → IsState s
    → view (see_kind k t s) ps ≡ view s ((piece_of k s.newline_run t).0 ++ ps)
unfolding see_kind piece_of see_mark see_whitespace
see_kind-view word t s ps h = push_term-view t s ps
see_kind-view number t s ps h = push_term-view t s ps
see_kind-view punctuation t s ps h = elim (Bool-cases (ends_sentence t.lexeme)) [
  | inl e ↦ rw (e, see_mark) (flush_sentence-view s ps h)
  | inr e ↦ rw (e, see_mark)
]
see_kind-view symbol t s ps h = refl
see_kind-view whitespace t s ps h = elim (Bool-cases (leb 2 (s.newline_run + newlines t.lexeme))) [
  | inl e ↦ rw (e, see_whitespace) (flush_section-view s ps h)
  | inr e ↦ rw (e, see_whitespace)
]

see_kind-run :
    (k : TokenKind) (t : Token) (s : ParseState)
    → (see_kind k t s).newline_run ≡ (piece_of k s.newline_run t).1
unfolding see_kind piece_of see_mark see_whitespace
see_kind-run word t s = refl
see_kind-run number t s = refl
see_kind-run punctuation t s = ground arith
see_kind-run symbol t s = refl
see_kind-run whitespace t s = ground arith

pub parse_loop-view :
    (s : ParseState) (ts : List Token)
    → IsState s
    → view (parse_loop s ts) [] ≡ view s (pieces s.newline_run ts)
unfolding parse_loop pieces
parse_loop-view s [] h = refl
parse_loop-view s (t ∷ ts) h =
    let s' = see_kind t.kind t s in
    parse_loop-view s' ts (see_kind-IsState t.kind t s refl h)
    ∙ ap (λ n. view s' (pieces n ts)) (see_kind-run t.kind t s)
    ∙ see_kind-view t.kind t s (pieces (piece_of t.kind s.newline_run t).1 ts) h

pub flushed-table :
    (s : ParseState) → IsState s → closed (flush_section (flush_sentence s)) ≡ view s []
unfolding read
flushed-table s h =
    let f = flush_sentence-table s h in
    let g = flush_section-table (flush_sentence s) in
    rw (g.sections, f.sentences, f.sections, append-nil (begun s))
