-- ===== src/Matching.antt =====
-- Stage 3 of the pipeline, `Pattern`, `GraphMatch` and `match_graph` of
-- enclave/src/rag_engine/src/lib.rs.
pub mod Round
pub mod Correct
use flare_verifiable_rag.Prelude.{
  ℕ, Bool, true, false, ◌&&◌, ◌||◌, Option, none, some, List, [], ◌∷◌, ◌++◌, if◌then◌else◌, text_eq,
  Result, ok, err,
}
use flare_verifiable_rag.Lexer.{IndexerResult, empty_graph, empty_graph_match}
use flare_verifiable_rag.Parser.{Span}
use flare_verifiable_rag.TokenGraph.{Node, Edge, DocumentAst, is_empty, node}

-- Subject, predicate and object, each a text or `*`.
pub record PatternTriple : Type 0 where
  pub subject : List ℕ
  pub predicate : List ℕ
  pub object : List ℕ

pub record Pattern : Type 0 where
  pub triples : List PatternTriple

-- `Pattern::single`
unfoldable pub single : List ℕ → List ℕ → List ℕ → Pattern
single s p o = record { triples = record { subject = s; predicate = p; object = o } ∷ [] }

pub record GraphMatch : Type 0 where
  pub subject : ℕ
  pub object : ℕ
  pub predicate : List ℕ
  pub span : Span

-- `wanted == "*" || text == wanted`
unfoldable pub accepts : List ℕ → List ℕ → Bool
accepts wanted text = text_eq wanted (b'*' ∷ []) || text_eq text wanted

abbrev pub match_of : Edge → Node → GraphMatch
match_of e subj = record {
  subject = e.subject;
  object = e.object;
  predicate = e.predicate;
  span = subj.span;
}

-- The body of the inner loop, with the two nodes that the edge's indices resolve to.
unfoldable pub resolved :
    PatternTriple → Edge → Option Node → Option Node → List GraphMatch → List GraphMatch
resolved t e (some subj) (some obj) matches =
    if accepts t.subject subj.text && accepts t.predicate e.predicate && accepts t.object obj.text
    then matches ++ match_of e subj ∷ []
    else matches
resolved t e (some subj) none matches = matches
resolved t e none obj matches = matches

unfoldable pub each_edge :
    DocumentAst → PatternTriple → List Edge → List GraphMatch → List GraphMatch
each_edge g t [] matches = matches
each_edge g t (e ∷ es) matches =
    each_edge g t es (resolved t e (node g e.subject) (node g e.object) matches)

unfoldable pub each_triple : DocumentAst → List PatternTriple → List GraphMatch → List GraphMatch
each_triple g [] matches = matches
each_triple g (t ∷ ts) matches = each_triple g ts (each_edge g t g.edges matches)

unfoldable pub match_graph : DocumentAst → Pattern → IndexerResult (List GraphMatch)
match_graph g pattern =
    if is_empty g
    then err (empty_graph empty_graph_match)
    else ok (each_triple g pattern.triples [])
