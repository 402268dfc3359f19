-- ===== src/TokenGraph/Correct.antt =====
-- The token graph that `from_ast` in lib.rs extracts, as the triples of texts that it stands for.
use flare_verifiable_rag.Prelude.{
  ℕ, suc, ◌+◌, ◌<◌, ◌≡◌, refl, sym, ap, ◌∙◌, some, List, [], ◌∷◌, ◌++◌, get_elem?, to_lowercase,
  All, arith, append-nil, map, subst,
}
use flare_verifiable_rag.Lexer.{Token}
use flare_verifiable_rag.Parser.{AstNode}
use flare_verifiable_rag.TokenGraph.{
  Node, DocumentAst, Extraction, find_key, related_to, each_subject, each_sentence, blank, from_ast,
  sentence_terms,
}
use flare_verifiable_rag.TokenGraph.Invariant.{IsEdge, IsValid}
use flare_verifiable_rag.TokenGraph.Edges.{
  Triple, edge_triple, Draws, Draws-trans, link, object_links, subject_links, each_subject-Draws,
}

-- The terms of a sentence, in canonical form.
abbrev pub texts : List Token → List (List ℕ)
texts ts = map (λ t. to_lowercase t.lexeme) ts

abbrev pub far_triples : List ℕ → List (List ℕ) → List Triple
far_triples s [] = []
far_triples s (o ∷ rest) = link s related_to o ++ far_triples s rest

-- The terms from the second after the subject on: the term between is the predicate of the first.
abbrev pub triples_across : List ℕ → List ℕ → List (List ℕ) → List Triple
triples_across s middle [] = []
triples_across s middle (o ∷ rest) = link s middle o ++ far_triples s rest

abbrev pub triples_of : List ℕ → List (List ℕ) → List Triple
triples_of s [] = []
triples_of s (o ∷ rest) = link s related_to o ++ triples_across s o rest

-- All pairs of terms of a sentence, with their predicates.
pub sentence_triples : List (List ℕ) → List Triple
sentence_triples [] = []
sentence_triples (s ∷ rest) = triples_of s rest ++ sentence_triples rest

pub document_triples : List (List Token) → List Triple
document_triples [] = []
document_triples (ts ∷ tss) = sentence_triples (texts ts) ++ document_triples tss

object_links-far :
    (ts : List Token) (i : ℕ) (s : List ℕ) (j : ℕ) (rest : List Token)
    → i + 2 < j
    → object_links ts i s j rest ≡ far_triples s (texts rest)
object_links-far ts i s j [] h = refl
object_links-far ts i s j (t ∷ rest) h = ground (arith, object_links-far ts i s (j + 1) rest)

object_links-near :
    (ts : List Token) (i : ℕ) (s : List ℕ) (rest : List Token)
    → get_elem? ts (i + 1) ≡ get_elem? rest 0
    → object_links ts i s (i + 1) rest ≡ triples_of s (texts rest)
object_links-near ts i s [] h = refl
object_links-near ts i s (a ∷ []) h = ground arith
object_links-near ts i s (a ∷ b ∷ rest) h =
    ground (arith, object_links-far ts i s (i + 1 + 1 + 1) rest)

subject_links-triples :
    (ts : List Token) (i : ℕ) (rest : List Token)
    → ((k : ℕ) → get_elem? ts (i + k) ≡ get_elem? rest k)
    → subject_links ts i rest ≡ sentence_triples (texts rest)
unfolding sentence_triples
subject_links-triples ts i [] h = refl
subject_links-triples ts i (t ∷ rest) h = rw (
  object_links-near ts i (to_lowercase t.lexeme) rest (h 1),
  subject_links-triples ts (i + 1) rest (λ k. ap (get_elem? ts) (omega arith) ∙ h (suc k)),
)

each_sentence-Draws :
    (tss : List (List Token)) (x : Extraction)
    → IsValid x
    → Draws x (each_sentence tss x) (document_triples tss)
unfolding each_sentence document_triples
each_sentence-Draws [] x v = record {
  valid = v;
  grows = λ i n at. at;
  drawn_new = sym (append-nil _);
}
each_sentence-Draws (ts ∷ tss) x v =
    let y = each_subject ts 0 ts x in
    let first =
      subst (Draws x y) (subject_links-triples ts 0 ts (λ k. ap (get_elem? ts) (omega arith)))
        (each_subject-Draws ts 0 ts x v) in
    Draws-trans first (each_sentence-Draws tss y first.valid)

blank-IsValid : IsValid blank
unfolding find_key
blank-IsValid = record {
  indexed = record { placed = λ i n e. cc; sound = λ k i e. cc; complete = λ i n e. cc };
  joined = tt;
}

-- The invariant of a token graph: each node's id is its position, no two nodes have the same text,
-- and each edge joins two different nodes of the graph and carries the span of its subject.
pub record IsGraph (g : DocumentAst) : Type 0 where
  pub placed : (i : ℕ) (n : Node) → get_elem? g.nodes i ≡ some n → n.id ≡ i
  pub distinct :
      (i j : ℕ) (n m : Node)
      → get_elem? g.nodes i ≡ some n
      → get_elem? g.nodes j ≡ some m
      → n.text ≡ m.text
      → i ≡ j
  pub joined : All (IsEdge g.nodes) g.edges

-- Of any tree `from_ast` extracts a well-formed graph: ids are positions, texts are distinct, and
-- every edge joins two different nodes and has its subject's span.
pub from_ast-IsGraph : (ast : AstNode) → IsGraph (from_ast ast)
unfolding from_ast
from_ast-IsGraph ast =
    let v = (each_sentence-Draws (sentence_terms ast) blank blank-IsValid).valid in
    record {
      placed = v.indexed.placed;
      distinct = λ i j n m at at' same.
          ground (arith, v.indexed.complete i n at, v.indexed.complete j m at');
      joined = v.joined;
    }

-- The edges of the extracted graph, read as texts and in their order, are the pairs of different
-- terms of each sentence: the predicate is the term between the two if there is exactly one, and
-- `related_to` otherwise.
pub from_ast-triples :
    (ast : AstNode)
    → map (edge_triple (from_ast ast).nodes) (from_ast ast).edges
      ≡ document_triples (sentence_terms ast)
unfolding from_ast
from_ast-triples ast = (each_sentence-Draws (sentence_terms ast) blank blank-IsValid).drawn_new
