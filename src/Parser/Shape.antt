-- ===== src/Parser/Shape.antt =====
-- The trees that `parse` in lib.rs builds: sections of sentences of terms, none of them empty, each
-- with the span from its first member to its last.
use flare_verifiable_rag.Prelude.{
  ℕ, ◌+◌, ◌≡◌, refl, ap, Bool, true, false, List, [], ◌∷◌, All, All-append, Result, ok, err, subst,
  Bool-cases, leb, inl, inr,
}
use flare_verifiable_rag.Lexer.{
  TokenKind, word, number, punctuation, symbol, whitespace, Token, IndexerError,
}
use flare_verifiable_rag.Parser.{
  Span, close_sentence, close_section, AstNode, document, section, sentence, term, nil, cons,
  from_list, to_list, span_of, ParseState, flush_sentence, flush_section, newlines, ends_sentence,
  push_term, see_mark, see_whitespace, see_kind, parse_loop, initial, finish, parse,
}

-- The kinds of which `parse` makes terms.
abbrev pub is_term : TokenKind → Bool
is_term word = true
is_term number = true
is_term punctuation = false
is_term symbol = false
is_term whitespace = false

abbrev pub IsTerm : AstNode → Type 0
IsTerm (term token) = is_term token.kind ≡ true
IsTerm (document ns) = ⊥
IsTerm (section span ns) = ⊥
IsTerm (sentence span ns) = ⊥

-- There is a member, and the span goes from the start of the first to the end of the last.
abbrev pub Spans : Span → List AstNode → Type 0
Spans span [] = ⊥
Spans span (n ∷ ns) = span ≡ span_of n ns

abbrev pub IsSentence : AstNode → Type 0
IsSentence (sentence span ns) = Spans span (to_list ns) × All IsTerm (to_list ns)
IsSentence (document ns) = ⊥
IsSentence (section span ns) = ⊥
IsSentence (term token) = ⊥

abbrev pub IsSection : AstNode → Type 0
IsSection (section span ns) = Spans span (to_list ns) × All IsSentence (to_list ns)
IsSection (document ns) = ⊥
IsSection (sentence span ns) = ⊥
IsSection (term token) = ⊥

abbrev pub IsDocument : AstNode → Type 0
IsDocument (document nil) = ⊥
IsDocument (document (cons n ns)) = IsSection n × All IsSection (to_list ns)
IsDocument (section span ns) = ⊥
IsDocument (sentence span ns) = ⊥
IsDocument (term token) = ⊥

pub record IsState (s : ParseState) : Type 0 where
  pub sections : All IsSection s.sections
  pub current_sentences : All IsSentence s.current_sentences
  pub current_sentence : All IsTerm s.current_sentence

pub to_list-from_list : (ns : List AstNode) → to_list (from_list ns) ≡ ns
to_list-from_list [] = refl
to_list-from_list (n ∷ ns) = ap (λ r. n ∷ r) (to_list-from_list ns)

close_sentence-IsState :
    (s : ParseState) (ns : List AstNode) → All IsTerm ns → IsState s → IsState (close_sentence s ns)
unfolding close_sentence
close_sentence-IsState s [] a h = h
close_sentence-IsState s (n ∷ ns) a h = record {
  sections = h.sections;
  current_sentences =
      All-append IsSentence s.current_sentences _ h.current_sentences
        ((rw (to_list-from_list ns) refl, rw (to_list-from_list ns) a), tt);
  current_sentence = tt;
}

close_section-IsState :
    (s : ParseState) (ns : List AstNode)
    → All IsSentence ns
    → IsState s
    → IsState (close_section s ns)
unfolding close_section
close_section-IsState s [] a h = h
close_section-IsState s (n ∷ ns) a h = record {
  sections =
      All-append IsSection s.sections _ h.sections
        ((rw (to_list-from_list ns) refl, rw (to_list-from_list ns) a), tt);
  current_sentences = tt;
  current_sentence = h.current_sentence;
}

pub flush_sentence-IsState : (s : ParseState) → IsState s → IsState (flush_sentence s)
unfolding flush_sentence
flush_sentence-IsState s h = close_sentence-IsState s s.current_sentence h.current_sentence h

pub flush_section-IsState : (s : ParseState) → IsState s → IsState (flush_section s)
unfolding flush_section
flush_section-IsState s h = close_section-IsState s s.current_sentences h.current_sentences h

count-IsState : {s : ParseState} (n : ℕ) → IsState s → IsState (record s { newline_run = n })
count-IsState n h = record {
  sections = h.sections;
  current_sentences = h.current_sentences;
  current_sentence = h.current_sentence;
}

push_term-IsState :
    (t : Token) (s : ParseState) → is_term t.kind ≡ true → IsState s → IsState (push_term t s)
unfolding push_term
push_term-IsState t s k h = record {
  sections = h.sections;
  current_sentences = h.current_sentences;
  current_sentence = All-append IsTerm s.current_sentence _ h.current_sentence (k, tt);
}

see_mark-IsState : (t : Token) (s : ParseState) → IsState s → IsState (see_mark t s)
unfolding see_mark
see_mark-IsState t s h = elim (Bool-cases (ends_sentence t.lexeme)) [
  | inl e ↦ rw e (count-IsState 0 (flush_sentence-IsState s h))
  | inr e ↦ rw e (count-IsState 0 h)
]

see_whitespace-IsState : (t : Token) (s : ParseState) → IsState s → IsState (see_whitespace t s)
unfolding see_whitespace
see_whitespace-IsState t s h = elim (Bool-cases (leb 2 (s.newline_run + newlines t.lexeme))) [
  | inl e ↦
      rw e (count-IsState 0 (flush_section-IsState (flush_sentence s) (flush_sentence-IsState s h)))
  | inr e ↦ rw e (count-IsState (s.newline_run + newlines t.lexeme) h)
]

pub see_kind-IsState :
    (k : TokenKind) (t : Token) (s : ParseState) → t.kind ≡ k → IsState s → IsState (see_kind k t s)
unfolding see_kind
see_kind-IsState word t s e h = push_term-IsState t s (rw e) h
see_kind-IsState number t s e h = push_term-IsState t s (rw e) h
see_kind-IsState punctuation t s e h = see_mark-IsState t s h
see_kind-IsState symbol t s e h = count-IsState 0 h
see_kind-IsState whitespace t s e h = see_whitespace-IsState t s h

pub parse_loop-IsState : (s : ParseState) (ts : List Token) → IsState s → IsState (parse_loop s ts)
unfolding parse_loop
parse_loop-IsState s [] h = h
parse_loop-IsState s (t ∷ ts) h =
    parse_loop-IsState (see_kind t.kind t s) ts (see_kind-IsState t.kind t s refl h)

finish-IsDocument :
    (ns : List AstNode) (doc : AstNode) → All IsSection ns → finish ns ≡ ok doc → IsDocument doc
finish-IsDocument [] doc a e = cc
finish-IsDocument (n ∷ ns) doc a e = subst (λ r. Fits r) e (rw (to_list-from_list ns) a)
  where
    Fits : Result AstNode IndexerError → Type 0
    Fits (ok d) = IsDocument d
    Fits (err x) = Unit

-- The tree of a successful `parse` is a document of at least one section; each section has at least
-- one sentence and each sentence at least one term, every term is a word or a number, and each
-- sentence and section spans from the start of its first member to the end of its last.
pub parse-IsDocument : (ts : List Token) (doc : AstNode) → parse ts ≡ ok doc → IsDocument doc
unfolding parse
parse-IsDocument [] doc e = cc
parse-IsDocument (t ∷ ts) doc e =
    let start : IsState initial = record {
      sections = tt;
      current_sentences = tt;
      current_sentence = tt;
    } in
    let s = parse_loop initial (t ∷ ts) in
    let flushed = flush_sentence-IsState s (parse_loop-IsState initial (t ∷ ts) start) in
    finish-IsDocument _ doc (flush_section-IsState (flush_sentence s) flushed).sections e
