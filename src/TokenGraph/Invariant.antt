-- ===== src/TokenGraph/Invariant.antt =====
-- What holds of every token graph that `from_ast` in lib.rs extracts: a node's id is its position, no
-- two nodes have one text, and each edge joins two different nodes and carries its subject's span.
use flare_verifiable_rag.Prelude.{
  ℕ, ◌<◌, ◌≡◌, ◌≢◌, refl, sym, ap, ◌∙◌, Option, none, some, List, [], ◌∷◌, ◌++◌, length, get_elem?,
  text_eq, text_eq_iff, text_eq_refl, to_lowercase, All, arith, Bool-cases, inl, inr, length-append,
  get_elem?-concat, get_elem?-lt, get_elem?-some, subst,
}
use flare_verifiable_rag.Lexer.{TokenKind, Token}
use flare_verifiable_rag.Parser.{Span}
use flare_verifiable_rag.TokenGraph.{
  Node, Edge, Extraction, find_key, fresh_node, add_unless, ensure_token, token_span, span_at,
  span_of_node,
}

-- `e` joins two different nodes of the list and carries the span of its subject.
abbrev pub IsEdge : List Node → Edge → Type 0
IsEdge ns e =
    (e.subject < length ns)
    × (e.object < length ns)
    × (e.subject ≢ e.object)
    × (e.span ≡ span_at ns e.subject)

-- Each node stands at its id, and the index finds exactly the nodes by their texts.
pub record IsIndexed (ns : List Node) (index : List (List ℕ × ℕ)) : Type 0 where
  pub placed : (i : ℕ) (n : Node) → get_elem? ns i ≡ some n → n.id ≡ i
  pub sound :
      (key : List ℕ) (i : ℕ)
      → find_key key index ≡ some i
      → (n : Node) × (get_elem? ns i ≡ some n) × (n.text ≡ key)
  pub complete : (i : ℕ) (n : Node) → get_elem? ns i ≡ some n → find_key n.text index ≡ some i

pub record IsValid (x : Extraction) : Type 0 where
  pub indexed : IsIndexed x.nodes x.index
  pub joined : All (IsEdge x.nodes) x.edges

fresh_sound :
    (ns : List Node) (index : List (List ℕ × ℕ)) (key : List ℕ) (kind : TokenKind) (span : Span)
    → IsIndexed ns index
    → (k : List ℕ) (i : ℕ) → find_key k ((key, length ns) ∷ index) ≡ some i
    → (n : Node) × (get_elem? (ns ++ fresh_node (length ns) key kind span ∷ []) i ≡ some n)
      × (n.text ≡ k)
unfolding find_key
fresh_sound ns index key kind span h k i e = elim (Bool-cases (text_eq key k)) [
  | inl same ↦
      let new = fresh_node (length ns) key kind span in
      (new, ground (arith, get_elem?-concat ns new i), (text_eq_iff key k).0 same)
  | inr other ↦
      let (n, at, named) = h.sound k i (rw other at e) in
      (
        n,
        ground (
          arith,
          get_elem?-concat ns (fresh_node (length ns) key kind span) i,
          get_elem?-lt ns i n,
        ),
        named,
      )
]

-- A key that is not found is not the text of a node.
fresh-IsIndexed :
    (ns : List Node) (index : List (List ℕ × ℕ)) (key : List ℕ) (kind : TokenKind) (span : Span)
    → find_key key index ≡ none
    → IsIndexed ns index
    → IsIndexed (ns ++ fresh_node (length ns) key kind span ∷ []) ((key, length ns) ∷ index)
unfolding find_key
fresh-IsIndexed ns index key kind span new h = record {
  placed = λ i n e.
      ground (arith, get_elem?-concat ns (fresh_node (length ns) key kind span) i, h.placed i n);
  sound = λ k i e. fresh_sound ns index key kind span h k i e;
  complete = λ i n e. ground (
    arith,
    get_elem?-concat ns (fresh_node (length ns) key kind span) i,
    h.complete i n,
    text_eq_iff key n.text,
  );
}

-- What `ensure_node` does: it gives the index of the node that has the key, keeps the nodes that
-- were there, and touches no edge.
pub record Ensured (key : List ℕ) (x : Extraction) (r : ℕ × Extraction) : Type 0 where
  pub found : find_key key r.1.index ≡ some r.0
  pub within : r.0 < length r.1.nodes
  pub kept : (i : ℕ) (n : Node) → get_elem? x.nodes i ≡ some n → get_elem? r.1.nodes i ≡ some n
  pub edges : r.1.edges ≡ x.edges
  pub indexed : IsIndexed r.1.nodes r.1.index

add_unless-Ensured :
    (o : Option ℕ) (key : List ℕ) (kind : TokenKind) (span : Span) (x : Extraction)
    → find_key key x.index ≡ o
    → IsIndexed x.nodes x.index
    → Ensured key x (add_unless o key kind span x)
unfolding add_unless find_key
add_unless-Ensured (some i) key kind span x e h = record {
  found = e;
  within = let (n, at, _) = h.sound key i e in get_elem?-lt x.nodes i n at;
  kept = λ j n at. at;
  edges = refl;
  indexed = h;
}
add_unless-Ensured none key kind span x e h = record {
  found = rw text_eq_refl;
  within = omega (arith, length-append x.nodes (fresh_node (length x.nodes) key kind span ∷ []));
  kept = λ j n at. ground (
    arith,
    get_elem?-concat x.nodes (fresh_node (length x.nodes) key kind span) j,
    get_elem?-lt x.nodes j n,
  );
  edges = refl;
  indexed = fresh-IsIndexed x.nodes x.index key kind span e h;
}

pub ensure_token-Ensured :
    (t : Token) (x : Extraction)
    → IsIndexed x.nodes x.index
    → Ensured (to_lowercase t.lexeme) x (ensure_token t x)
unfolding ensure_token
ensure_token-Ensured t x h =
    let key = to_lowercase t.lexeme in
    add_unless-Ensured (find_key key x.index) key t.kind (token_span t) x refl h

-- Every node of the first list stands at the same place in the second.
abbrev pub Grows : List Node → List Node → Type 0
Grows ns ns' = (i : ℕ) (n : Node) → get_elem? ns i ≡ some n → get_elem? ns' i ≡ some n

pub IsEdge-Grows : (ns ns' : List Node) (e : Edge) → Grows ns ns' → IsEdge ns e → IsEdge ns' e
IsEdge-Grows ns ns' e g (s, o, apart, span) =
    let (n, at) = get_elem?-some ns e.subject s in
    let (m, at') = get_elem?-some ns e.object o in
    (
      get_elem?-lt ns' e.subject n (g e.subject n at),
      get_elem?-lt ns' e.object m (g e.object m at'),
      apart,
      span ∙ ap span_of_node (at ∙ sym (g e.subject n at)),
    )

pub All-Grows :
    (ns ns' : List Node) (es : List Edge) → Grows ns ns' → All (IsEdge ns) es → All (IsEdge ns') es
All-Grows ns ns' [] g a = tt
All-Grows ns ns' (e ∷ es) g (h, a) = (IsEdge-Grows ns ns' e g h, All-Grows ns ns' es g a)

-- A text that has an index keeps it while nodes are added.
pub find_key-Grows :
    (x y : Extraction) (key : List ℕ) (i : ℕ)
    → IsIndexed x.nodes x.index
    → IsIndexed y.nodes y.index
    → Grows x.nodes y.nodes
    → find_key key x.index ≡ some i
    → find_key key y.index ≡ some i
find_key-Grows x y key i h k g e =
    let (n, at, named) = h.sound key i e in
    subst (λ t. find_key t y.index ≡ some i) named (k.complete i n (g i n at))
