-- ===== src/Pipeline.antt =====
-- The stages of enclave/src/rag_engine/src/lib.rs together: `lex` of ast.rs runs `tokenize`, `parse`
-- and `from_ast`, and `match_graph` queries what it gives.
mod Examples
use flare_verifiable_rag.Prelude.{
  ℕ, zero, suc, ◌+◌, ◌-◌, ◌<◌, ◌≤◌, ◌≡◌, ◌≢◌, ◌↔◌, refl, sym, ap, ◌∙◌, Bool, true, false, ◌&&◌,
  ◌||◌, Option, none, some, List, [], ◌∷◌, ◌++◌, length, get_elem?, ◌==◌, if◌then◌else◌,
  to_lowercase, All, All-append, arith, append-nil, append_assoc, length-append, map, subst, concat,
  any, all, any-append, Bool-cases, inl, inr, slice, take, drop, take-length, slice_middle,
  All-select, All-get_elem?, Result, ok, err, Result-cases, select, ◌>>=◌,
}
use flare_verifiable_rag.Lexer.Unique.{
  whitespace-not-others, punctuation-not-others, symbol-not-others,
}
use flare_verifiable_rag.Lexer.{
  TokenKind, word, number, punctuation, symbol, whitespace, Token, tokenize, IndexerResult,
  is_ascii_digit, is_ascii_whitespace, starts_word, continues_word, is_punctuation, is_symbol,
}
use flare_verifiable_rag.Lexer.Runs.{Spells}
use flare_verifiable_rag.Lexer.Round.{IsNext, is_classifiable}
use flare_verifiable_rag.Lexer.Tokenization.{IsTokenization}
use flare_verifiable_rag.Lexer.Correct.{tokenize-eq-ok, tokenize_succeeds}
use flare_verifiable_rag.Parser.{Span, AstNode, parse}
use flare_verifiable_rag.Parser.Shape.{is_term}
use flare_verifiable_rag.Parser.Correct.{parse_keeps_terms, parse_succeeds}
use flare_verifiable_rag.TokenGraph.{
  Node, DocumentAst, from_ast, lex, fresh_node, token_span, sentence_terms,
}
use flare_verifiable_rag.TokenGraph.Nodes.{has_text, first_nodes, from_ast-nodes}

-- The token's offsets cut its lexeme out of the document.
abbrev pub IsCut : List ℕ → Token → Type 0
IsCut input t = (slice input t.start t.end ≡ t.lexeme) × (t.end ≤ length input)

tokens-IsCut :
    (before bytes : List ℕ) (ts : List Token)
    → IsTokenization (length before) bytes ts
    → All (IsCut (before ++ bytes)) ts
tokens-IsCut before bytes [] z = tt
tokens-IsCut before bytes (t ∷ ts) (rest, n, z) =
    let whole : before ++ (t.lexeme ++ rest) ≡ before ++ bytes = ap (λ r. before ++ r) n.cut in
    (
      (
        rw (sym whole, n.begins, n.ends) (slice_middle before t.lexeme rest),
        rw (sym whole, n.ends)
            (omega (arith, length-append before (t.lexeme ++ rest), length-append t.lexeme rest)),
      ),
      subst (λ input. All (IsCut input) ts) (append_assoc before t.lexeme rest ∙ whole)
          (tokens-IsCut (before ++ t.lexeme) rest ts (
            subst (λ i. IsTokenization i rest ts) (n.ends ∙ sym (length-append before t.lexeme))
              z)),
    )

-- The node's span cuts a piece out of the document whose lower case is the node's text.
abbrev pub IsSourced : List ℕ → Node → Type 0
IsSourced input n =
    (to_lowercase (slice input n.span.start n.span.end) ≡ n.text) × (n.span.end ≤ length input)

first_nodes-IsSourced :
    (input : List ℕ) (ns : List Node) (ts : List Token)
    → All (IsSourced input) ns
    → All (IsCut input) ts
    → All (IsSourced input) (first_nodes ns ts)
first_nodes-IsSourced input ns [] a b = a
first_nodes-IsSourced input ns (t ∷ ts) a ((cut, within), b) =
    let key = to_lowercase t.lexeme in
    elim (Bool-cases (has_text ns key)) [
      | inl e ↦ rw (e, first_nodes) (first_nodes-IsSourced input ns ts a b)
      | inr e ↦
          rw (e, first_nodes)
            (first_nodes-IsSourced input
              (ns ++ fresh_node (length ns) key t.kind (token_span t) ∷ []) ts
              (All-append (IsSourced input) ns _ a ((ap to_lowercase cut, within), tt)) b)
    ]

-- A successful `lex` went through the three stages.
lex_stages :
    (input : List ℕ) (g : DocumentAst)
    → lex input ≡ ok g
    → (ts : List Token) × (doc : AstNode) × (tokenize input ≡ ok ts)
      × (parse ts ≡ ok doc)
      × (from_ast doc ≡ g)
unfolding lex
lex_stages input g h = elim (Result-cases (tokenize input)) [
  | inl (ts, e) ↦ elim (Result-cases (parse ts)) [
    | inl (doc, f) ↦ (ts, doc, e, f, ground arith)
    | inr (x, f) ↦ absurd (ground arith)
  ]
  | inr (x, e) ↦ absurd (ground arith)
]

-- Every node of the graph that `lex` extracts can be traced to the document: its span lies within
-- the document and cuts out a text whose lower case is the node's text.
pub lex-IsSourced :
    (input : List ℕ) (g : DocumentAst)
    → lex input ≡ ok g
    → (i : ℕ) (n : Node) → get_elem? g.nodes i ≡ some n
    → IsSourced input n
lex-IsSourced input g h i n at =
    let (ts, doc, tokenized, parsed, made) = lex_stages input g h in
    let cuts = tokens-IsCut [] input ts ((tokenize-eq-ok input ts).0 tokenized) in
    let terms_cut =
      subst (All (IsCut input)) (sym (parse_keeps_terms ts doc parsed))
        (All-select (IsCut input) (λ t. is_term t.kind) ts cuts) in
    let sourced = first_nodes-IsSourced input [] (concat (sentence_terms doc)) tt terms_cut in
    All-get_elem? (IsSourced input) g.nodes i n
      (subst (All (IsSourced input)) (sym (from_ast-nodes doc) ∙ ap (λ d. d.nodes) made) sourced) at

-- The bytes that can begin a word or a number.
abbrev pub starts_term : ℕ → Bool
starts_term b = starts_word b || is_ascii_digit b

any-of-all :
    (p q : ℕ → Bool)
    → ((b : ℕ) → p b ≡ true → q b ≡ false)
    → (bytes : List ℕ) → all p bytes ≡ true
    → any q bytes ≡ false
any-of-all p q f [] h = refl
any-of-all p q f (b ∷ bytes) h = ground (arith, f b, any-of-all p q f bytes)

digits_start :
    (whole fraction : List ℕ)
    → 0 < length whole
    → all is_ascii_digit whole ≡ true
    → any starts_term (whole ++ fraction) ≡ true
digits_start [] fraction n h = absurd (omega arith)
digits_start (d ∷ whole) fraction n h = ground arith

-- A token holds such a byte exactly if it is a word or a number.
any-starts_term :
    (kind : TokenKind) (lexeme : List ℕ)
    → Spells kind lexeme
    → any starts_term lexeme ≡ is_term kind
any-starts_term word [] s = absurd s
any-starts_term word (b ∷ bytes) (first, others) = rw first
any-starts_term number lexeme (whole, fraction, split, n, digits, f) =
    rw split (digits_start whole fraction n digits)
any-starts_term whitespace [] s = absurd s
any-starts_term whitespace (b ∷ bytes) s =
    any-of-all is_ascii_whitespace starts_term
      (λ c h. let others = whitespace-not-others c h in rw (others.0, others.1)) (b ∷ bytes) s
any-starts_term punctuation lexeme (b, single, h) =
    let others = punctuation-not-others b h in rw single (rw (others.0, others.1))
any-starts_term symbol lexeme (b, single, h) =
    let others = symbol-not-others b h in rw single (rw (others.0, others.1))

any-tokens :
    (i : ℕ) (bytes : List ℕ) (ts : List Token)
    → IsTokenization i bytes ts
    → any starts_term bytes ≡ any (λ t. is_term t.kind) ts
any-tokens i bytes [] z = rw z
any-tokens i bytes (t ∷ ts) (rest, n, z) = rw (
  sym n.cut,
  any-append starts_term t.lexeme rest,
  any-starts_term t.kind t.lexeme n.spells,
  any-tokens t.end rest ts z,
)

-- `lex` succeeds exactly on the documents of which every byte is of one of the classes and some byte
-- is a letter, a digit or an underscore.
pub lex_succeeds :
    (input : List ℕ)
    → ((g : DocumentAst) × (lex input ≡ ok g))
      ↔ ((all is_classifiable input ≡ true) × (any starts_term input ≡ true))
unfolding lex
lex_succeeds input = (
  λ (g, h).
      let (ts, doc, tokenized, parsed, _) = lex_stages input g h in
      (
        (tokenize_succeeds input).0 (ts, tokenized),
        any-tokens 0 input ts ((tokenize-eq-ok input ts).0 tokenized)
            ∙ (parse_succeeds ts).0 (doc, parsed),
      ),
  λ (classed, some_term).
      let (ts, tokenized) = (tokenize_succeeds input).1 classed in
      let (doc, parsed) =
        (parse_succeeds ts).1
          (sym (any-tokens 0 input ts ((tokenize-eq-ok input ts).0 tokenized)) ∙ some_term) in
      (from_ast doc, rw (tokenized, parsed)),
)
