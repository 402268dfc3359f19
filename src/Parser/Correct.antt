-- ===== src/Parser/Correct.antt =====
-- What `parse` in lib.rs promises: the tree that the description says, of all the terms in their
-- order, and an error exactly if there is no term.
use mathlib.Core.List.{map-append}
use flare_verifiable_rag.Prelude.{
  ℕ, ◌≡◌, refl, sym, ap, ◌∙◌, ◌↔◌, true, false, List, [], ◌∷◌, ◌++◌, map, append_assoc, arith,
  Bool-cases, inl, inr, ◌⊎◌, ◌≢◌, select-eq-nil, concat, ok, err, select, any, subst, Result-cases,
  concat-append,
}
use flare_verifiable_rag.Lexer.{
  TokenKind, word, number, punctuation, symbol, whitespace, Token, IndexerResult, IndexerError,
}
use flare_verifiable_rag.Parser.{
  AstNode, AstNodes, document, section, sentence, term, nil, cons, to_list, parse_loop, sentences,
  sentences_all, terms, initial, finish, parse, term_tokens,
}
use flare_verifiable_rag.Parser.Shape.{
  to_list-from_list, IsState, IsDocument, is_term, parse_loop-IsState, parse-IsDocument,
}
use flare_verifiable_rag.Parser.Layout.{
  Piece, part, stop, gap, piece_of, pieces, read, keep, Table, layout, section_table,
}
use flare_verifiable_rag.Parser.Tables.{parse_loop-view, flushed-table}

-- The terms of each sentence of each section of a document.
abbrev pub table : AstNode → Table
table (document ns) = map section_table (to_list ns)
table (section span ns) = []
table (sentence span ns) = []
table (term token) = []

-- The terms among some pieces.
abbrev parts : List Piece → List Token
parts [] = []
parts (part t ∷ ps) = t ∷ parts ps
parts (stop ∷ ps) = parts ps
parts (gap ∷ ps) = parts ps

concat-keep {ℓ} : {A : Type ℓ} (xss : List (List A)) → concat (keep xss) ≡ concat xss
concat-keep [] = refl
concat-keep ([] ∷ xss) = concat-keep xss
concat-keep ((x ∷ xs) ∷ xss) = ap (λ r. (x ∷ xs) ++ r) (concat-keep xss)

-- All the terms of a table, in their order.
abbrev flatten_table : Table → List Token
flatten_table t = concat (concat t)

flatten-map-keep : (t : Table) → flatten_table (map keep t) ≡ flatten_table t
flatten-map-keep [] = refl
flatten-map-keep (ss ∷ t) = rw (
  concat-append (keep ss) (concat (map keep t)),
  concat-append ss (concat t),
  concat-keep ss,
  flatten-map-keep t,
)

read-parts :
    (ps : List Piece) → (read ps).0 ++ (concat (read ps).1 ++ flatten_table (read ps).2) ≡ parts ps
unfolding read
read-parts [] = refl
read-parts (part t ∷ ps) = ap (λ r. t ∷ r) (read-parts ps)
read-parts (stop ∷ ps) =
    append_assoc (read ps).0 (concat (read ps).1) (flatten_table (read ps).2) ∙ read-parts ps
read-parts (gap ∷ ps) = rw (concat-append (read ps).1 (concat (read ps).2)) (read-parts ps)

parts-piece_of :
    (k : TokenKind) (n : ℕ) (t : Token) (ps : List Piece)
    → parts ((piece_of k n t).0 ++ ps)
      ≡ (elim (is_term k) [ true ↦ t ∷ parts ps | false ↦ parts ps ])
unfolding piece_of
parts-piece_of word n t ps = refl
parts-piece_of number n t ps = refl
parts-piece_of punctuation n t ps = ground arith
parts-piece_of symbol n t ps = refl
parts-piece_of whitespace n t ps = ground arith

parts-pieces : (n : ℕ) (ts : List Token) → parts (pieces n ts) ≡ select (λ t. is_term t.kind) ts
unfolding pieces
parts-pieces n [] = refl
parts-pieces n (t ∷ ts) =
    let n' = (piece_of t.kind n t).1 in
    parts-piece_of t.kind n t (pieces n' ts)
    ∙ ap (λ r. elim (is_term t.kind) [ true ↦ t ∷ r | false ↦ r ]) (parts-pieces n' ts)

flatten-layout : (ts : List Token) → flatten_table (layout ts) ≡ select (λ t. is_term t.kind) ts
unfolding layout
flatten-layout ts =
    let ps = pieces 0 ts in
    let (s, ss, pss) = read ps in
    ap concat (concat-keep (map keep ((s ∷ ss) ∷ pss)))
    ∙ flatten-map-keep ((s ∷ ss) ∷ pss)
    ∙ ap (λ r. s ++ r) (concat-append ss (concat pss))
    ∙ read-parts ps
    ∙ parts-pieces 0 ts

abbrev Built : List Token → IndexerResult AstNode → Type 0
Built ts (ok doc) = table doc ≡ layout ts
Built ts (err e) = layout ts ≡ []

finish-Built :
    (ts : List Token) (ns : List AstNode) → map section_table ns ≡ layout ts → Built ts (finish ns)
finish-Built ts [] h = sym h
finish-Built ts (n ∷ ns) h =
    ap (λ r. section_table n ∷ map section_table r) (to_list-from_list ns) ∙ h

parse-Built : (ts : List Token) → Built ts (parse ts)
unfolding parse layout pieces read term_tokens
parse-Built [] = refl
parse-Built (t ∷ ts) =
    let start : IsState initial = record {
      sections = tt;
      current_sentences = tt;
      current_sentence = tt;
    } in
    let s = parse_loop initial (t ∷ ts) in
    finish-Built (t ∷ ts) _ (
      flushed-table s (parse_loop-IsState initial (t ∷ ts) start)
      ∙ parse_loop-view initial (t ∷ ts) start)

-- A successful `parse` gives the document whose sections and sentences hold the terms that the
-- description by stops and gaps puts there; where `parse` fails, the description is empty.
pub parse-layout :
    (ts : List Token)
    → ((doc : AstNode) → parse ts ≡ ok doc → table doc ≡ layout ts)
      × ((e : IndexerError) → parse ts ≡ err e → layout ts ≡ [])
parse-layout ts =
    (λ doc h. subst (Built ts) h (parse-Built ts), λ e h. subst (Built ts) h (parse-Built ts))

concat-terms-sentences :
    (ns : AstNodes)
    → concat (map terms (sentences_all ns)) ≡ flatten_table (map section_table (to_list ns))
unfolding sentences
concat-terms-sentences nil = refl
concat-terms-sentences (cons n ns) = rw (
  map-append terms (sentences n) (sentences_all ns),
  concat-append (map terms (sentences n)) (map terms (sentences_all ns)),
  concat-append (map terms (sentences n)) (concat (map section_table (to_list ns))),
  concat-terms-sentences ns,
)

-- The terms of the sentences of a parsed document are the words and numbers among the tokens, each
-- of them once and in their order.
pub parse_keeps_terms :
    (ts : List Token) (doc : AstNode)
    → parse ts ≡ ok doc
    → concat (map terms (sentences doc)) ≡ select (λ t. is_term t.kind) ts
unfolding sentences
parse_keeps_terms ts (document ns) h =
    concat-terms-sentences ns
    ∙ ap flatten_table ((parse-layout ts).0 (document ns) h)
    ∙ flatten-layout ts
parse_keeps_terms ts (section span ns) h = absurd (parse-IsDocument ts (section span ns) h)
parse_keeps_terms ts (sentence span ns) h = absurd (parse-IsDocument ts (sentence span ns) h)
parse_keeps_terms ts (term t) h = absurd (parse-IsDocument ts (term t) h)

keep-cases {ℓ} :
    {A : Type ℓ} (xss : List (List A))
    → (keep xss ≡ [])
      ⊎ ((x : A) × (xs : List A) × (rest : List (List A)) × (keep xss ≡ (x ∷ xs) ∷ rest))
keep-cases [] = inl refl
keep-cases ([] ∷ xss) = keep-cases xss
keep-cases ((x ∷ xs) ∷ xss) = inr (x, xs, keep xss, refl)

kept_empty : (t : Table) → flatten_table (keep (map keep t)) ≡ [] → keep (map keep t) ≡ []
kept_empty [] h = refl
kept_empty (ss ∷ t) h = elim (keep-cases ss) [
  | inl e ↦ rw e (kept_empty t (rw e at h))
  | inr (x, xs, rest, e) ↦ let h' = rw e at h in cc
]

layout_empty : (ts : List Token) → flatten_table (layout ts) ≡ [] → layout ts ≡ []
unfolding layout
layout_empty ts h = let (s, ss, pss) = read (pieces 0 ts) in kept_empty ((s ∷ ss) ∷ pss) h

layout-eq-nil : (ts : List Token) → (layout ts ≡ []) ↔ (any (λ t. is_term t.kind) ts ≡ false)
layout-eq-nil ts = (
  λ h. (select-eq-nil (λ t. is_term t.kind) ts).0 (sym (flatten-layout ts) ∙ ap flatten_table h),
  λ h. layout_empty ts (flatten-layout ts ∙ (select-eq-nil (λ t. is_term t.kind) ts).1 h),
)

table-nonempty : (doc : AstNode) → IsDocument doc → table doc ≢ []
table-nonempty (document nil) d h = d
table-nonempty (document (cons n ns)) d h = cc
table-nonempty (section span ns) d h = d
table-nonempty (sentence span ns) d h = d
table-nonempty (term t) d h = d

-- `parse` succeeds exactly if some token is a word or a number.
pub parse_succeeds :
    (ts : List Token)
    → ((doc : AstNode) × (parse ts ≡ ok doc)) ↔ (any (λ t. is_term t.kind) ts ≡ true)
parse_succeeds ts = (
  λ (doc, h). elim (Bool-cases (any (λ t. is_term t.kind) ts)) [
    | inl some_term ↦ some_term
    | inr no_term ↦ absurd (
        table-nonempty doc (parse-IsDocument ts doc h)
          ((parse-layout ts).0 doc h ∙ (layout-eq-nil ts).1 no_term))
  ],
  λ some_term. elim (Result-cases (parse ts)) [
    | inl found ↦ found
    | inr (e, h) ↦ let no_term = (layout-eq-nil ts).0 ((parse-layout ts).1 e h) in cc
  ],
)
