-- ===== src/TokenGraph/Nodes.antt =====
-- The nodes that `from_ast` in lib.rs makes, against a pass that makes a node of each text that no
-- node before it has.
use flare_verifiable_rag.Prelude.{
  ℕ, ◌+◌, ◌≡◌, ◌≢◌, refl, sym, ap, ◌∙◌, Bool, true, false, Option, none, some, List, [], ◌∷◌, ◌++◌,
  length, ◌==◌, if◌then◌else◌, to_lowercase, All, arith, concat, any, any-append, text_eq,
  text_eq_refl, Option-cases, inl, inr, Bool-cases,
}
use flare_verifiable_rag.Lexer.{TokenKind, Token}
use flare_verifiable_rag.Parser.{Span, AstNode}
use flare_verifiable_rag.TokenGraph.{
  Node, Extraction, find_key, fresh_node, token_span, add_unless, add_edge, ensure_token,
  each_object, each_subject, each_sentence, blank, from_ast, sentence_terms,
}

-- Makes the nodes of some terms, one after the other.
collect : List Token → Extraction → Extraction
collect [] x = x
collect (t ∷ ts) x = collect ts (ensure_token t x).1

-- A state without its edges.
abbrev core : Extraction → Extraction
core x = record x { edges = [] }

core-add_unless :
    (o : Option ℕ) (key : List ℕ) (kind : TokenKind) (span : Span) (x : Extraction)
    → core (add_unless o key kind span x).1 ≡ (add_unless o key kind span (core x)).1
unfolding add_unless
core-add_unless none key kind span x = refl
core-add_unless (some i) key kind span x = refl

core-ensure_token :
    (t : Token) (x : Extraction) → core (ensure_token t x).1 ≡ (ensure_token t (core x)).1
unfolding ensure_token
core-ensure_token t x = core-add_unless _ (to_lowercase t.lexeme) t.kind (token_span t) x

core-add_edge :
    (ts : List Token) (i subj j obj : ℕ) (x : Extraction)
    → core (add_edge ts i subj j obj x) ≡ core x
unfolding add_edge
core-add_edge ts i subj j obj x = elim (Bool-cases (subj == obj)) [
  | inl e ↦ rw (e, add_edge)
  | inr e ↦ rw (e, add_edge)
]

core-each_object :
    (ts : List Token) (i subj j : ℕ) (rest : List Token) (x : Extraction)
    → core (each_object ts i subj j rest x) ≡ collect rest (core x)
unfolding each_object collect
core-each_object ts i subj j [] x = refl
core-each_object ts i subj j (t ∷ rest) x =
    let (obj, y) = ensure_token t x in
    core-each_object ts i subj (j + 1) rest (add_edge ts i subj j obj y)
    ∙ ap (collect rest) (core-add_edge ts i subj j obj y ∙ core-ensure_token t x)

-- The text of the term has a node.
abbrev IsKnown : Extraction → Token → Type 0
IsKnown x t = find_key (to_lowercase t.lexeme) x.index ≢ none

ensure_token_known : (t : Token) (x : Extraction) → IsKnown x t → (ensure_token t x).1 ≡ x
unfolding ensure_token add_unless
ensure_token_known t x k = elim (Option-cases (find_key (to_lowercase t.lexeme) x.index)) [
  | inl e ↦ absurd (k e)
  | inr (i, e) ↦ rw (e, add_unless)
]

collect_known : (ts : List Token) (x : Extraction) → All (IsKnown x) ts → collect ts x ≡ x
unfolding collect
collect_known [] x k = refl
collect_known (t ∷ ts) x (k, ks) = rw (ensure_token_known t x k) (collect_known ts x ks)

known-cons :
    (key k : List ℕ) (i : ℕ) (index : List (List ℕ × ℕ))
    → find_key key index ≢ none
    → find_key key ((k, i) ∷ index) ≢ none
unfolding find_key
known-cons key k i index h = elim (Bool-cases (text_eq k key)) [
  | inl e ↦ rw e (λ n. cc)
  | inr e ↦ rw e h
]

known-ensure_token :
    (key : List ℕ) (t : Token) (x : Extraction)
    → find_key key x.index ≢ none
    → find_key key (ensure_token t x).1.index ≢ none
unfolding ensure_token
known-ensure_token key t x k = elim (Option-cases (find_key (to_lowercase t.lexeme) x.index)) [
  | inl e ↦ rw (e, add_unless) (known-cons key (to_lowercase t.lexeme) (length x.nodes) x.index k)
  | inr (i, e) ↦ rw (e, add_unless) k
]

ensure_token-IsKnown : (t : Token) (x : Extraction) → IsKnown (ensure_token t x).1 t
unfolding ensure_token find_key
ensure_token-IsKnown t x = elim (Option-cases (find_key (to_lowercase t.lexeme) x.index)) [
  | inl e ↦ rw (e, add_unless, find_key, text_eq_refl) (λ n. cc)
  | inr (i, e) ↦ rw (e, add_unless) (λ n. ground arith)
]

known-collect :
    (key : List ℕ) (ts : List Token) (x : Extraction)
    → find_key key x.index ≢ none
    → find_key key (collect ts x).index ≢ none
unfolding collect
known-collect key [] x k = k
known-collect key (t ∷ ts) x k =
    known-collect key ts (ensure_token t x).1 (known-ensure_token key t x k)

collect-IsKnown : (ts : List Token) (x : Extraction) → All (IsKnown (collect ts x)) ts
unfolding collect
collect-IsKnown [] x = tt
collect-IsKnown (t ∷ ts) x =
    let y = (ensure_token t x).1 in
    (known-collect (to_lowercase t.lexeme) ts y (ensure_token-IsKnown t x), collect-IsKnown ts y)

core-each_subject :
    (ts : List Token) (i : ℕ) (rest : List Token) (x : Extraction)
    → core (each_subject ts i rest x) ≡ collect rest (core x)
unfolding each_subject collect
core-each_subject ts i [] x = refl
core-each_subject ts i (t ∷ rest) x =
    let (subj, y) = ensure_token t x in
    let y' = (ensure_token t (core x)).1 in
    core-each_subject ts (i + 1) rest (each_object ts i subj (i + 1) rest y)
    ∙ ap (collect rest)
        (core-each_object ts i subj (i + 1) rest y ∙ ap (collect rest) (core-ensure_token t x))
    ∙ collect_known rest (collect rest y') (collect-IsKnown rest y')

collect-append :
    (ts us : List Token) (x : Extraction) → collect (ts ++ us) x ≡ collect us (collect ts x)
unfolding collect
collect-append [] us x = refl
collect-append (t ∷ ts) us x = collect-append ts us (ensure_token t x).1

core-each_sentence :
    (tss : List (List Token)) (x : Extraction)
    → core (each_sentence tss x) ≡ collect (concat tss) (core x)
unfolding each_sentence collect
core-each_sentence [] x = refl
core-each_sentence (ts ∷ tss) x =
    core-each_sentence tss (each_subject ts 0 ts x)
    ∙ ap (collect (concat tss)) (core-each_subject ts 0 ts x)
    ∙ sym (collect-append ts (concat tss) (core x))

-- Some node of the list has the text.
abbrev pub has_text : List Node → List ℕ → Bool
has_text ns key = any (λ n. text_eq n.text key) ns

-- The nodes of some terms, with no index: a term whose text no node has makes a node at the end.
abbrev pub first_nodes : List Node → List Token → List Node
first_nodes ns [] = ns
first_nodes ns (t ∷ ts) =
    let key = to_lowercase t.lexeme in
    first_nodes
      (if has_text ns key then ns else ns ++ fresh_node (length ns) key t.kind (token_span t) ∷ [])
      ts

abbrev is_found : Option ℕ → Bool
is_found none = false
is_found (some i) = true

-- The index finds the texts of the nodes and no others.
abbrev Agrees : Extraction → Type 0
Agrees x = (key : List ℕ) → is_found (find_key key x.index) ≡ has_text x.nodes key

fresh-Agrees :
    (x : Extraction) (n : Node)
    → Agrees x
    → Agrees (record x { nodes = x.nodes ++ n ∷ []; index = (n.text, length x.nodes) ∷ x.index })
unfolding find_key
fresh-Agrees x n h k =
    rw (any-append (λ m. text_eq m.text k) x.nodes (n ∷ [])) (ground (arith, h k))

ensure_token-Agrees :
    (t : Token) (x : Extraction)
    → Agrees x
    → Agrees (ensure_token t x).1
      × ((ensure_token t x).1.nodes ≡ (
          if has_text x.nodes (to_lowercase t.lexeme)
          then x.nodes
          else x.nodes
            ++ fresh_node (length x.nodes) (to_lowercase t.lexeme) t.kind (token_span t) ∷ []))
unfolding ensure_token find_key
ensure_token-Agrees t x h =
    let key = to_lowercase t.lexeme in
    elim (Option-cases (find_key key x.index)) [
      | inl e ↦
          let absent : has_text x.nodes key ≡ false = sym (h key) ∙ ap is_found e in
          rw (e, add_unless, absent)
            (fresh-Agrees x (fresh_node (length x.nodes) key t.kind (token_span t)) h, refl)
      | inr (i, e) ↦
          let present : has_text x.nodes key ≡ true = sym (h key) ∙ ap is_found e in
          rw (e, add_unless, present) (h, refl)
    ]

collect-first_nodes :
    (ts : List Token) (x : Extraction) → Agrees x → (collect ts x).nodes ≡ first_nodes x.nodes ts
unfolding collect
collect-first_nodes [] x h = refl
collect-first_nodes (t ∷ ts) x h =
    let (h', made) = ensure_token-Agrees t x h in
    collect-first_nodes ts (ensure_token t x).1 h' ∙ ap (λ ns. first_nodes ns ts) made

blank-Agrees : Agrees blank
unfolding find_key
blank-Agrees key = refl

-- The nodes of the extracted graph are the different texts of the document's terms, in the order in
-- which they first occur, each with the class and the span of its first occurrence.
pub from_ast-nodes :
    (ast : AstNode) → (from_ast ast).nodes ≡ first_nodes [] (concat (sentence_terms ast))
unfolding from_ast
from_ast-nodes ast =
    ap (λ x. x.nodes) (core-each_sentence (sentence_terms ast) blank)
    ∙ collect-first_nodes (concat (sentence_terms ast)) blank blank-Agrees
