-- ===== src/TokenGraph.antt =====
-- Stage 3 of the pipeline: the token graph of enclave/src/rag_engine/src/ast.rs and its extraction
-- from the tree, `DocumentAST::from_ast` in enclave/src/rag_engine/src/lib.rs.
-- The `BTreeMap` from texts to node indices is only read and extended, so it is a list of pairs.
pub mod Invariant
pub mod Edges
pub mod Nodes
pub mod Correct
use flare_verifiable_rag.Prelude.{
  ℕ, zero, suc, ◌+◌, Bool, true, false, Option, none, some, List, [], ◌∷◌, ◌++◌, length, get_elem?,
  ◌==◌, if◌then◌else◌, text_eq, to_lowercase, map, ok, ◌>>=◌,
}
use flare_verifiable_rag.Lexer.{TokenKind, Token, IndexerResult, tokenize}
use flare_verifiable_rag.Parser.{Span, AstNode, sentences, terms, parse}

pub data SymbolType : Type 0 where
  word number symbol punctuation : SymbolType

-- `SymbolType::from_token_kind`
unfoldable pub from_token_kind : TokenKind → Option SymbolType
from_token_kind TokenKind.word = some SymbolType.word
from_token_kind TokenKind.number = some SymbolType.number
from_token_kind TokenKind.symbol = some SymbolType.symbol
from_token_kind TokenKind.punctuation = some SymbolType.punctuation
from_token_kind TokenKind.whitespace = none

pub record Node : Type 0 where
  pub id : ℕ
  pub text : List ℕ
  pub symbol_type : SymbolType
  pub span : Span

pub record Edge : Type 0 where
  pub predicate : List ℕ
  pub subject : ℕ
  pub object : ℕ
  pub span : Span

pub record DocumentAst : Type 0 where
  pub nodes : List Node
  pub edges : List Edge

-- `DocumentAST::empty`, `len`, `is_empty` and `node`
unfoldable pub empty : DocumentAst
empty = record { nodes = []; edges = [] }

unfoldable pub len : DocumentAst → ℕ
len g = length g.nodes

unfoldable pub is_empty : DocumentAst → Bool
is_empty g = elim g.nodes [ [] ↦ true | _ ∷ _ ↦ false ]

unfoldable pub node : DocumentAst → ℕ → Option Node
node g i = get_elem? g.nodes i

-- The local variables of `from_ast`.
pub record Extraction : Type 0 where
  pub nodes : List Node
  pub index : List (List ℕ × ℕ)
  pub edges : List Edge

-- `index.get(&key)`
unfoldable pub find_key : List ℕ → List (List ℕ × ℕ) → Option ℕ
find_key key [] = none
find_key key ((k, i) ∷ index) = if text_eq k key then some i else find_key key index

abbrev pub or_word : Option SymbolType → SymbolType
or_word (some t) = t
or_word none = SymbolType.word

abbrev pub fresh_node : ℕ → List ℕ → TokenKind → Span → Node
fresh_node i key kind span = record {
  id = i;
  text = key;
  symbol_type = or_word (from_token_kind kind);
  span = span;
}

-- The closure `ensure_node`: the index of the node, and the state with the node in it.
unfoldable pub add_unless : Option ℕ → List ℕ → TokenKind → Span → Extraction → ℕ × Extraction
add_unless (some i) key kind span x = (i, x)
add_unless none key kind span x =
    let i = length x.nodes in
    (i, record x { nodes = x.nodes ++ fresh_node i key kind span ∷ []; index = (key, i) ∷ x.index })

unfoldable pub ensure_node : List ℕ → TokenKind → Span → Extraction → ℕ × Extraction
unfolding add_unless
ensure_node text kind span x =
    let key = to_lowercase text in add_unless (find_key key x.index) key kind span x

abbrev pub token_span : Token → Span
token_span t = record { start = t.start; end = t.end }

unfoldable pub ensure_token : Token → Extraction → ℕ × Extraction
unfolding ensure_node
ensure_token t x = ensure_node t.lexeme t.kind (token_span t) x

abbrev pub related_to : List ℕ
related_to = b'r' ∷ b'e' ∷ b'l' ∷ b'a' ∷ b't' ∷ b'e' ∷ b'd' ∷ b'_' ∷ b't' ∷ b'o' ∷ []

-- `terms[i].lexeme` and `nodes[i].span`, which are read in bounds only.
abbrev pub lexeme_of : Option Token → List ℕ
lexeme_of (some t) = t.lexeme
lexeme_of none = []

abbrev pub span_of_node : Option Node → Span
span_of_node (some n) = n.span
span_of_node none = record { start = 0; end = 0 }

abbrev pub lexeme_at : List Token → ℕ → List ℕ
lexeme_at ts i = lexeme_of (get_elem? ts i)

abbrev pub span_at : List Node → ℕ → Span
span_at ns i = span_of_node (get_elem? ns i)

-- The body of the loop over `j`, after the object's node is there.
unfoldable pub add_edge : List Token → ℕ → ℕ → ℕ → ℕ → Extraction → Extraction
add_edge ts i subj j obj x = if subj == obj then x else record x {
  edges =
      x.edges
      ++ record {
        predicate = if j == i + 2 then to_lowercase (lexeme_at ts (i + 1)) else related_to;
        subject = subj;
        object = obj;
        span = span_at x.nodes subj;
      }
        ∷ [];
}

-- The loop over `j`, with the terms from `j` on.
unfoldable pub each_object : List Token → ℕ → ℕ → ℕ → List Token → Extraction → Extraction
each_object ts i subj j [] x = x
each_object ts i subj j (t ∷ rest) x =
    let (obj, x') = ensure_token t x in
    each_object ts i subj (j + 1) rest (add_edge ts i subj j obj x')

-- The loop over `i`, with the terms from `i` on.
unfoldable pub each_subject : List Token → ℕ → List Token → Extraction → Extraction
each_subject ts i [] x = x
each_subject ts i (t ∷ rest) x =
    let (subj, x') = ensure_token t x in
    each_subject ts (i + 1) rest (each_object ts i subj (i + 1) rest x')

unfoldable pub each_sentence : List (List Token) → Extraction → Extraction
each_sentence [] x = x
each_sentence (ts ∷ tss) x = each_sentence tss (each_subject ts 0 ts x)

abbrev pub blank : Extraction
blank = record { nodes = []; index = []; edges = [] }

abbrev pub sentence_terms : AstNode → List (List Token)
sentence_terms ast = map terms (sentences ast)

unfoldable pub from_ast : AstNode → DocumentAst
from_ast ast =
    let x = each_sentence (sentence_terms ast) blank in record { nodes = x.nodes; edges = x.edges }

-- `lex` of ast.rs
unfoldable pub lex : List ℕ → IndexerResult DocumentAst
lex input = do tokens ← tokenize input; ast ← parse tokens; ok (from_ast ast)
