-- ===== src/TokenGraph/Edges.antt =====
-- The edges that `from_ast` in lib.rs draws, as triples of texts.
use mathlib.Core.List.{map-append}
use flare_verifiable_rag.Prelude.{
  ℕ, ◌+◌, ◌<◌, ◌≡◌, ◌≢◌, refl, sym, ap, ◌∙◌, Option, none, some, List, [], ◌∷◌, ◌++◌, length,
  get_elem?, ◌==◌, if◌then◌else◌, text_eq, text_eq_iff, to_lowercase, All, All-append, arith,
  Bool-cases, inl, inr, append-nil, append_assoc, map, get_elem?-lt, get_elem?-some,
}
use flare_verifiable_rag.Lexer.{Token}
use flare_verifiable_rag.TokenGraph.{
  Node, Edge, Extraction, find_key, ensure_token, related_to, lexeme_at, add_edge, each_object,
  each_subject,
}
use flare_verifiable_rag.TokenGraph.Invariant.{
  IsEdge, IsIndexed, IsValid, ensure_token-Ensured, Grows, All-Grows, find_key-Grows,
}

abbrev pub Triple : Type 0
Triple = List ℕ × List ℕ × List ℕ

abbrev pub text_of_node : Option Node → List ℕ
text_of_node (some n) = n.text
text_of_node none = []

abbrev pub text_at : List Node → ℕ → List ℕ
text_at ns i = text_of_node (get_elem? ns i)

-- The texts that an edge joins, with its predicate between them.
abbrev pub edge_triple : List Node → Edge → Triple
edge_triple ns e = (text_at ns e.subject, e.predicate, text_at ns e.object)

edge_triple-Grows :
    (ns ns' : List Node) (e : Edge)
    → Grows ns ns'
    → IsEdge ns e
    → edge_triple ns' e ≡ edge_triple ns e
edge_triple-Grows ns ns' e g (s, o, _, _) =
    let (n, at) = get_elem?-some ns e.subject s in
    let (m, at') = get_elem?-some ns e.object o in
    ground (arith, g e.subject n at, g e.object m at')

triples-Grows :
    (ns ns' : List Node) (es : List Edge)
    → Grows ns ns'
    → All (IsEdge ns) es
    → map (edge_triple ns') es ≡ map (edge_triple ns) es
triples-Grows ns ns' [] g a = refl
triples-Grows ns ns' (e ∷ es) g (h, a) =
    rw (edge_triple-Grows ns ns' e g h, triples-Grows ns ns' es g a)

abbrev pub drawn : Extraction → List Triple
drawn x = map (edge_triple x.nodes) x.edges

-- `y` is a valid state after `x`, with edges for the given triples more.
pub record Draws (x y : Extraction) (new : List Triple) : Type 0 where
  pub valid : IsValid y
  pub grows : Grows x.nodes y.nodes
  pub drawn_new : drawn y ≡ drawn x ++ new

pub Draws-trans :
    {x y z : Extraction} {a b : List Triple} → Draws x y a → Draws y z b → Draws x z (a ++ b)
Draws-trans {x} {y} {z} {a} {b} h k = record {
  valid = k.valid;
  grows = λ i n at. k.grows i n (h.grows i n at);
  drawn_new = k.drawn_new ∙ ap (λ r. r ++ b) h.drawn_new ∙ append_assoc (drawn x) a b;
}

ensure_token-Draws : (t : Token) (x : Extraction) → IsValid x → Draws x (ensure_token t x).1 []
ensure_token-Draws t x v =
    let h = ensure_token-Ensured t x v.indexed in
    let y = (ensure_token t x).1 in
    record {
      valid = record {
        indexed = h.indexed;
        joined = rw h.edges (All-Grows x.nodes y.nodes x.edges h.kept v.joined);
      };
      grows = h.kept;
      drawn_new =
          ap (map (edge_triple y.nodes)) h.edges
          ∙ triples-Grows x.nodes y.nodes x.edges h.kept v.joined
          ∙ sym (append-nil _);
    }

-- The triple of two texts, unless they are the same.
abbrev pub link : List ℕ → List ℕ → List ℕ → List Triple
link s p o = if text_eq s o then [] else (s, p, o) ∷ []

-- The predicate between the terms `i` and `j`.
abbrev pub predicate : List Token → ℕ → ℕ → List ℕ
predicate ts i j = if j == i + 2 then to_lowercase (lexeme_at ts (i + 1)) else related_to

-- Two texts are the same exactly if their nodes are.
index_agrees :
    (ns : List Node) (index : List (List ℕ × ℕ)) (s o : List ℕ) (i j : ℕ)
    → IsIndexed ns index
    → find_key s index ≡ some i
    → find_key o index ≡ some j
    → (i == j) ≡ text_eq s o
index_agrees ns index s o i j h hs ho =
    let (n, at, named) = h.sound s i hs in
    let (m, at', named') = h.sound o j ho in ground (arith, text_eq_iff s o)

text_at_found :
    (ns : List Node) (index : List (List ℕ × ℕ)) (s : List ℕ) (i : ℕ)
    → IsIndexed ns index
    → find_key s index ≡ some i
    → (i < length ns) × (text_at ns i ≡ s)
text_at_found ns index s i h hs =
    let (n, at, named) = h.sound s i hs in (get_elem?-lt ns i n at, rw at named)

add_edge-Draws :
    (ts : List Token) (i subj j obj : ℕ) (x : Extraction) (s o : List ℕ)
    → IsValid x
    → find_key s x.index ≡ some subj
    → find_key o x.index ≡ some obj
    → Draws x (add_edge ts i subj j obj x) (link s (predicate ts i j) o)
unfolding add_edge
add_edge-Draws ts i subj j obj x s o v hs ho =
    let agree = index_agrees x.nodes x.index s o subj obj v.indexed hs ho in
    let (lt_s, at_s) = text_at_found x.nodes x.index s subj v.indexed hs in
    let (lt_o, at_o) = text_at_found x.nodes x.index o obj v.indexed ho in
    elim (Bool-cases (text_eq s o)) [
      | inl same ↦
          rw (agree, same, add_edge)
            (record { valid = v; grows = λ i n at. at; drawn_new = sym (append-nil _) })
      | inr apart ↦
          let distinct : subj ≢ obj = ground arith in
          rw (agree, apart, add_edge)
            (record {
              valid = record {
                indexed = v.indexed;
                joined =
                    All-append (IsEdge x.nodes) x.edges _ v.joined
                      ((lt_s, lt_o, distinct, refl), tt);
              };
              grows = λ i n at. at;
              drawn_new =
                  map-append (edge_triple x.nodes) x.edges _
                  ∙ ap (λ r. drawn x ++ r) (rw (at_s, at_o));
            })
    ]

-- The triples of the loop over `j`.
abbrev pub object_links : List Token → ℕ → List ℕ → ℕ → List Token → List Triple
object_links ts i s j [] = []
object_links ts i s j (t ∷ rest) =
    link s (predicate ts i j) (to_lowercase t.lexeme) ++ object_links ts i s (j + 1) rest

each_object-Draws :
    (ts : List Token) (i subj j : ℕ) (rest : List Token) (x : Extraction) (s : List ℕ)
    → IsValid x
    → find_key s x.index ≡ some subj
    → Draws x (each_object ts i subj j rest x) (object_links ts i s j rest)
unfolding each_object
each_object-Draws ts i subj j [] x s v hs = record {
  valid = v;
  grows = λ i n at. at;
  drawn_new = sym (append-nil _);
}
each_object-Draws ts i subj j (t ∷ rest) x s v hs =
    let (obj, y) = ensure_token t x in
    let first = ensure_token-Draws t x v in
    let hs' = find_key-Grows x y s subj v.indexed first.valid.indexed first.grows hs in
    let ho = (ensure_token-Ensured t x v.indexed).found in
    let second = add_edge-Draws ts i subj j obj y s (to_lowercase t.lexeme) first.valid hs' ho in
    let z = add_edge ts i subj j obj y in
    let hs'' =
      find_key-Grows y z s subj first.valid.indexed second.valid.indexed second.grows hs' in
    Draws-trans (Draws-trans first second)
      (each_object-Draws ts i subj (j + 1) rest z s second.valid hs'')

abbrev pub subject_links : List Token → ℕ → List Token → List Triple
subject_links ts i [] = []
subject_links ts i (t ∷ rest) =
    object_links ts i (to_lowercase t.lexeme) (i + 1) rest ++ subject_links ts (i + 1) rest

pub each_subject-Draws :
    (ts : List Token) (i : ℕ) (rest : List Token) (x : Extraction)
    → IsValid x
    → Draws x (each_subject ts i rest x) (subject_links ts i rest)
unfolding each_subject
each_subject-Draws ts i [] x v = record {
  valid = v;
  grows = λ i n at. at;
  drawn_new = sym (append-nil _);
}
each_subject-Draws ts i (t ∷ rest) x v =
    let (subj, y) = ensure_token t x in
    let first = ensure_token-Draws t x v in
    let hs = (ensure_token-Ensured t x v.indexed).found in
    let second =
      each_object-Draws ts i subj (i + 1) rest y (to_lowercase t.lexeme) first.valid hs in
    Draws-trans (Draws-trans first second)
      (each_subject-Draws ts (i + 1) rest (each_object ts i subj (i + 1) rest y) second.valid)
