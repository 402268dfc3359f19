-- ===== src/Parser.antt =====
-- Stage 2 of the pipeline, enclave/src/rag_engine/src/lib.rs: `AstNode`, `Span`, `parse`, and the
-- two views `sentences` and `terms` of a node.
-- A `Vec<AstNode>` inside a node is `AstNodes`; one that stands alone is a list of nodes.
pub mod Shape
pub mod Layout
pub mod Tables
pub mod Correct
use flare_verifiable_rag.Prelude.{
  ℕ, zero, suc, ◌+◌, ◌-◌, Bool, true, false, ◌&&◌, ◌||◌, Option, none, some, List, [], ◌∷◌, ◌++◌,
  map, length, any, leb, ◌==◌, if◌then◌else◌, Result, ok, err, text_eq, concat, min, max,
}
use flare_verifiable_rag.Lexer.{
  TokenKind, word, number, punctuation, symbol, whitespace, Token, IndexerResult, parse_error,
  no_significant_tokens, no_sentences,
}

-- `Span`, a half-open byte range
pub record Span : Type 0 where
  pub start : ℕ
  pub end : ℕ

mutual
  pub data AstNode : Type 0 where
    document : AstNodes → AstNode
    section : Span → AstNodes → AstNode
    sentence : Span → AstNodes → AstNode
    term : Token → AstNode

  pub data AstNodes : Type 0 where
    nil : AstNodes
    cons : AstNode → AstNodes → AstNodes

abbrev pub from_list : List AstNode → AstNodes
from_list [] = nil
from_list (n ∷ ns) = cons n (from_list ns)

abbrev pub to_list : AstNodes → List AstNode
to_list nil = []
to_list (cons n ns) = n ∷ to_list ns

-- Where the span of a member begins and ends. The other nodes are `unreachable!()` in the source:
-- a pending sentence holds terms and a pending section holds sentences.
unfoldable pub node_start : AstNode → ℕ
node_start (term token) = token.start
node_start (sentence span terms) = span.start
node_start (section span sentences) = 0
node_start (document sections) = 0

unfoldable pub node_end : AstNode → ℕ
node_end (term token) = token.end
node_end (sentence span terms) = span.end
node_end (section span sentences) = 0
node_end (document sections) = 0

-- The end of the last of a node and the nodes after it.
unfoldable pub last_end : AstNode → List AstNode → ℕ
unfolding node_end
last_end n [] = node_end n
last_end n (m ∷ ns) = last_end m ns

abbrev pub span_of : AstNode → List AstNode → Span
span_of n ns = record { start = node_start n; end = last_end n ns }

-- The local variables of `parse`.
pub record ParseState : Type 0 where
  pub sections : List AstNode
  pub current_sentences : List AstNode
  pub current_sentence : List AstNode
  pub newline_run : ℕ

-- The closures `flush_sentence` and `flush_section`, on what is pending: nothing happens to an
-- empty list.
unfoldable pub close_sentence : ParseState → List AstNode → ParseState
close_sentence s [] = s
close_sentence s (n ∷ ns) = record s {
  current_sentence = [];
  current_sentences = s.current_sentences ++ sentence (span_of n ns) (from_list (n ∷ ns)) ∷ [];
}

unfoldable pub flush_sentence : ParseState → ParseState
unfolding close_sentence
flush_sentence s = close_sentence s s.current_sentence

unfoldable pub close_section : ParseState → List AstNode → ParseState
close_section s [] = s
close_section s (n ∷ ns) = record s {
  current_sentences = [];
  sections = s.sections ++ section (span_of n ns) (from_list (n ∷ ns)) ∷ [];
}

unfoldable pub flush_section : ParseState → ParseState
unfolding close_section
flush_section s = close_section s s.current_sentences

-- `tok.lexeme.chars().filter(|&c| c == '\n').count()`
unfoldable pub newlines : List ℕ → ℕ
newlines [] = 0
newlines (b ∷ bytes) = (if b == 0x0a then 1 else 0) + newlines bytes

-- `matches!(lexeme, "." | "!" | "?")`
unfoldable pub ends_sentence : List ℕ → Bool
ends_sentence lexeme = any (λ mark. text_eq lexeme (mark ∷ [])) (b'.' ∷ b'!' ∷ b'?' ∷ [])

unfoldable pub push_term : Token → ParseState → ParseState
push_term t s = record s { current_sentence = s.current_sentence ++ term t ∷ []; newline_run = 0 }

unfoldable pub see_mark : Token → ParseState → ParseState
unfolding ends_sentence
see_mark t s =
    if ends_sentence t.lexeme
    then record (flush_sentence s) { newline_run = 0 }
    else record s { newline_run = 0 }

unfoldable pub see_whitespace : Token → ParseState → ParseState
see_whitespace t s =
    let run = s.newline_run + newlines t.lexeme in
    if leb 2 run
    then record (flush_section (flush_sentence s)) { newline_run = 0 }
    else record s { newline_run = run }

-- The arms of the `match` in the loop, by the token's kind.
unfoldable pub see_kind : TokenKind → Token → ParseState → ParseState
unfolding push_term
see_kind word t s = push_term t s
see_kind number t s = push_term t s
see_kind punctuation t s = see_mark t s
see_kind symbol t s = record s { newline_run = 0 }
see_kind whitespace t s = see_whitespace t s

unfoldable pub parse_loop : ParseState → List Token → ParseState
parse_loop s [] = s
parse_loop s (t ∷ ts) = parse_loop (see_kind t.kind t s) ts

abbrev pub initial : ParseState
initial = record { sections = []; current_sentences = []; current_sentence = []; newline_run = 0 }

abbrev pub finish : List AstNode → IndexerResult AstNode
finish [] = err (parse_error 0 no_sentences)
finish (n ∷ ns) = ok (document (from_list (n ∷ ns)))

unfoldable pub parse : List Token → IndexerResult AstNode
parse [] = err (parse_error 0 no_significant_tokens)
parse (t ∷ ts) = finish (flush_section (flush_sentence (parse_loop initial (t ∷ ts)))).sections

-- `AstNode::sentences`
unfoldable mutual
  pub sentences : AstNode → List AstNode
  sentences (document sections) = sentences_all sections
  sentences (section span members) = to_list members
  sentences (sentence span members) = []
  sentences (term token) = []

  pub sentences_all : AstNodes → List AstNode
  sentences_all nil = []
  sentences_all (cons n ns) = sentences n ++ sentences_all ns

-- The tokens of the members that are terms, and `AstNode::terms`.
unfoldable pub term_tokens : AstNodes → List Token
term_tokens nil = []
term_tokens (cons (term token) ns) = token ∷ term_tokens ns
term_tokens (cons (document sections) ns) = term_tokens ns
term_tokens (cons (section span members) ns) = term_tokens ns
term_tokens (cons (sentence span members) ns) = term_tokens ns

unfoldable pub terms : AstNode → List Token
terms (sentence span members) = term_tokens members
terms (document sections) = []
terms (section span members) = []
terms (term token) = []
