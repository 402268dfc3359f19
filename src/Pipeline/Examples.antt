-- ===== src/Pipeline/Examples.antt =====
-- Runs of the pipeline of lib.rs on a small document, and its theorems there.
use mathlib.Core.List.{Memᴰ}
use flare_verifiable_rag.Prelude.{
  ℕ, suc, ◌≡◌, ◌↔◌, ◌≢◌, ◌⊎◌, refl, true, some, List, [], ◌∷◌, length, map, all, any, ok, err,
  concat, to_lowercase, lower, text_eq,
}
use flare_verifiable_rag.Lexer.{
  TokenKind, Token, IndexerError, tokenize_error, not_classifiable, tokenize, tokenize_loop,
  next_token, run, number_run, decimal_part, starts_word, continues_word, is_ascii_digit,
  is_ascii_whitespace, is_punctuation, is_symbol, empty_graph, empty_graph_match,
}
use flare_verifiable_rag.Lexer.Round.{is_classifiable}
use flare_verifiable_rag.Lexer.Tokenization.{IsTokenization, FirstFault}
use flare_verifiable_rag.Lexer.Correct.{tokenize_terminates, tokenize-eq-ok, tokenize-eq-err}
use flare_verifiable_rag.Parser.{
  Span, AstNode, document, section, sentence, term, nil, cons, parse, parse_loop, see_kind,
  push_term, see_mark, see_whitespace, ends_sentence, newlines, flush_sentence, flush_section,
  close_sentence, close_section, node_start, node_end, last_end, sentences, terms, term_tokens,
}
use flare_verifiable_rag.Parser.Shape.{IsDocument, parse-IsDocument}
use flare_verifiable_rag.Parser.Layout.{layout}
use flare_verifiable_rag.Parser.Correct.{table, parse-layout}
use flare_verifiable_rag.TokenGraph.{
  SymbolType, Node, DocumentAst, from_ast, lex, sentence_terms, related_to, each_sentence,
  each_subject, each_object, add_edge, ensure_token, add_unless, find_key, from_token_kind,
  is_empty, node,
}
use flare_verifiable_rag.TokenGraph.Edges.{edge_triple}
use flare_verifiable_rag.TokenGraph.Correct.{
  document_triples, IsGraph, from_ast-IsGraph, from_ast-triples,
}
use flare_verifiable_rag.TokenGraph.Nodes.{first_nodes, from_ast-nodes}
use flare_verifiable_rag.Matching.{
  Pattern, GraphMatch, single, match_graph, each_triple, each_edge, resolved, accepts,
}
use flare_verifiable_rag.Matching.Correct.{Explained, match_graph_correct}
use flare_verifiable_rag.Pipeline.{IsSourced, lex-IsSourced, starts_term, lex_succeeds}

-- "Ab is 4.5."
abbrev sample : List ℕ
sample = b'A' ∷ b'b' ∷ b' ' ∷ b'i' ∷ b's' ∷ b' ' ∷ b'4' ∷ b'.' ∷ b'5' ∷ b'.' ∷ []

abbrev at : ℕ → ℕ → Span
at a b = record { start = a; end = b }

abbrev token_ab : Token
token_ab = record { kind = TokenKind.word; lexeme = b'A' ∷ b'b' ∷ []; start = 0; end = 2 }

abbrev token_is : Token
token_is = record { kind = TokenKind.word; lexeme = b'i' ∷ b's' ∷ []; start = 3; end = 5 }

abbrev token_number : Token
token_number = record {
  kind = TokenKind.number;
  lexeme = b'4' ∷ b'.' ∷ b'5' ∷ [];
  start = 6;
  end = 9;
}

abbrev blank_at : ℕ → Token
blank_at i = record { kind = TokenKind.whitespace; lexeme = b' ' ∷ []; start = i; end = suc i }

abbrev sample_tokens : List Token
sample_tokens =
    token_ab
    ∷ blank_at 2
    ∷ token_is
    ∷ blank_at 5
    ∷ token_number
    ∷ record { kind = TokenKind.punctuation; lexeme = b'.' ∷ []; start = 9; end = 10 }
    ∷ []

abbrev sample_tree : AstNode
sample_tree = document (
    cons
      (section (at 0 9) (
        cons
          (sentence (at 0 9)
            (cons (term token_ab) (cons (term token_is) (cons (term token_number) nil))))
          nil))
      nil)

abbrev node_ab : Node
node_ab = record { id = 0; text = b'a' ∷ b'b' ∷ []; symbol_type = SymbolType.word; span = at 0 2 }

abbrev sample_graph : DocumentAst
sample_graph = record {
  nodes =
      node_ab
      ∷ record { id = 1; text = b'i' ∷ b's' ∷ []; symbol_type = SymbolType.word; span = at 3 5 }
      ∷ record {
        id = 2;
        text = b'4' ∷ b'.' ∷ b'5' ∷ [];
        symbol_type = SymbolType.number;
        span = at 6 9;
      }
      ∷ [];
  edges =
      record { predicate = related_to; subject = 0; object = 1; span = at 0 2 }
      ∷ record { predicate = b'i' ∷ b's' ∷ []; subject = 0; object = 2; span = at 0 2 }
      ∷ record { predicate = related_to; subject = 1; object = 2; span = at 3 5 }
      ∷ [];
}

sample_tokenized : tokenize sample ≡ ok sample_tokens
unfolding tokenize tokenize_loop next_token run number_run decimal_part starts_word continues_word
    is_ascii_digit is_ascii_whitespace is_punctuation is_symbol
sample_tokenized = refl

sample_parsed : parse sample_tokens ≡ ok sample_tree
unfolding parse parse_loop see_kind push_term see_mark see_whitespace ends_sentence newlines text_eq
    flush_sentence flush_section close_sentence close_section node_start node_end last_end
sample_parsed = refl

sample_extracted : from_ast sample_tree ≡ sample_graph
unfolding from_ast sentences terms term_tokens each_sentence each_subject each_object add_edge
    ensure_token add_unless find_key from_token_kind to_lowercase lower text_eq
sample_extracted = refl

sample_lexed : lex sample ≡ ok sample_graph
unfolding lex
sample_lexed = rw (sample_tokenized, sample_parsed, sample_extracted)

-- A control character is of no class.
abbrev faulty : List ℕ
faulty = b'a' ∷ 7 ∷ []

sample_classified : all is_classifiable sample ≡ true
unfolding is_classifiable starts_word is_ascii_digit is_ascii_whitespace is_punctuation is_symbol
sample_classified = refl

faulty_tokenized : tokenize faulty ≡ err (tokenize_error 1 (not_classifiable 7))
unfolding tokenize tokenize_loop next_token run starts_word continues_word is_ascii_digit
    is_ascii_whitespace is_punctuation is_symbol
faulty_tokenized = refl

tokenize_terminates_example : tokenize_loop (length sample) 0 sample ≡ some (tokenize sample)
tokenize_terminates_example = tokenize_terminates sample

tokenize-eq-ok_example :
    (tokenize sample ≡ ok sample_tokens) ↔ IsTokenization 0 sample sample_tokens
tokenize-eq-ok_example = tokenize-eq-ok sample sample_tokens

tokenize-eq-err_example :
    (tokenize faulty ≡ err (tokenize_error 1 (not_classifiable 7)))
    ↔ FirstFault 0 faulty (tokenize_error 1 (not_classifiable 7))
tokenize-eq-err_example = tokenize-eq-err faulty (tokenize_error 1 (not_classifiable 7))

parse-IsDocument_example : IsDocument sample_tree
parse-IsDocument_example = parse-IsDocument sample_tokens sample_tree sample_parsed

parse-layout_example :
    ((doc : AstNode) → parse sample_tokens ≡ ok doc → table doc ≡ layout sample_tokens)
    × ((e : IndexerError) → parse sample_tokens ≡ err e → layout sample_tokens ≡ [])
parse-layout_example = parse-layout sample_tokens

from_ast-IsGraph_example : IsGraph (from_ast sample_tree)
from_ast-IsGraph_example = from_ast-IsGraph sample_tree

from_ast-triples_example :
    map (edge_triple (from_ast sample_tree).nodes) (from_ast sample_tree).edges
    ≡ document_triples (sentence_terms sample_tree)
from_ast-triples_example = from_ast-triples sample_tree

from_ast-nodes_example :
    (from_ast sample_tree).nodes ≡ first_nodes [] (concat (sentence_terms sample_tree))
from_ast-nodes_example = from_ast-nodes sample_tree

-- `("ab", "*", "*")`
abbrev query : Pattern
query = single (b'a' ∷ b'b' ∷ []) (b'*' ∷ []) (b'*' ∷ [])

query_matches :
    match_graph sample_graph query
    ≡ ok (
        record { subject = 0; object = 1; predicate = related_to; span = at 0 2 }
        ∷ record { subject = 0; object = 2; predicate = b'i' ∷ b's' ∷ []; span = at 0 2 }
        ∷ [])
unfolding match_graph each_triple each_edge resolved accepts is_empty node single text_eq
query_matches = refl

match_graph_correct_example :
    ((sample_graph.nodes ≡ [])
      × (match_graph sample_graph query ≡ err (empty_graph empty_graph_match)))
    ⊎ ((sample_graph.nodes ≢ [])
        × ((ms : List GraphMatch) × (match_graph sample_graph query ≡ ok ms)
            × ((m : GraphMatch) → Memᴰ m ms ↔ Explained sample_graph m query.triples)))
match_graph_correct_example = match_graph_correct sample_graph query

lex-IsSourced_example : IsSourced sample node_ab
lex-IsSourced_example = lex-IsSourced sample sample_graph sample_lexed 0 node_ab refl

lex_succeeds_example :
    ((g : DocumentAst) × (lex sample ≡ ok g))
    ↔ ((all is_classifiable sample ≡ true) × (any starts_term sample ≡ true))
lex_succeeds_example = lex_succeeds sample
