-- ===== src/Matching/Correct.antt =====
-- `match_graph` in lib.rs returns exactly the edges that a triple of the pattern describes.
use mathlib.Core.List.Memᴰ
use flare_verifiable_rag.Prelude.{
  ◌≡◌, ◌≢◌, ◌⊎◌, ◌↔◌, inl, inr, refl, List, [], ◌∷◌, ok, err, Memᴰ, subst, List-cases,
}
use flare_verifiable_rag.Lexer.{empty_graph, empty_graph_match}
use flare_verifiable_rag.TokenGraph.{Edge, DocumentAst, is_empty}
use flare_verifiable_rag.Matching.{
  PatternTriple, Pattern, GraphMatch, each_edge, each_triple, match_graph,
}
use flare_verifiable_rag.Matching.Round.{Describes, round, round_cases, round_old, round_new}

module _ (g : DocumentAst) (t : PatternTriple) (m : GraphMatch) where
  -- Some edge of the list accounts for the match.
  abbrev pub Drawn : List Edge → Type 0
  Drawn es = (e : Edge) × Memᴰ e es × Describes g t e m

  each_edge_cases :
      (es : List Edge) (matches : List GraphMatch)
      → Memᴰ m (each_edge g t es matches)
      → Memᴰ m matches ⊎ Drawn es
  unfolding each_edge
  each_edge_cases [] matches mem = inl mem
  each_edge_cases (e ∷ es) matches mem = elim (each_edge_cases es (round g t e matches) mem) [
    | inr (e', at, d) ↦ inr (e', Memᴰ.tail at, d)
    | inl old ↦ elim (round_cases g t m e matches old) [
      | inl older ↦ inl older
      | inr d ↦ inr (e, Memᴰ.head refl, d)
    ]
  ]

  each_edge_old :
      (es : List Edge) (matches : List GraphMatch)
      → Memᴰ m matches
      → Memᴰ m (each_edge g t es matches)
  unfolding each_edge
  each_edge_old [] matches mem = mem
  each_edge_old (e ∷ es) matches mem =
      each_edge_old es (round g t e matches) (round_old g t m e matches mem)

  each_edge_new :
      (es : List Edge) (matches : List GraphMatch) (e : Edge)
      → Memᴰ e es
      → Describes g t e m
      → Memᴰ m (each_edge g t es matches)
  unfolding each_edge
  each_edge_new [] matches e at d = absurd (Memᴰ.not-nil at)
  each_edge_new (x ∷ es) matches e at d = elim (Memᴰ.cases_cons at) [
    | inl same ↦
        each_edge_old es (round g t x matches)
          (round_new g t m x matches (subst (λ y. Describes g t y m) same d))
    | inr later ↦ each_edge_new es (round g t x matches) e later d
  ]

module _ (g : DocumentAst) (m : GraphMatch) where
  abbrev pub Explained : List PatternTriple → Type 0
  Explained ts = (t : PatternTriple) × (e : Edge) × Memᴰ t ts × Memᴰ e g.edges × Describes g t e m

  each_triple_cases :
      (ts : List PatternTriple) (matches : List GraphMatch)
      → Memᴰ m (each_triple g ts matches)
      → Memᴰ m matches ⊎ Explained ts
  unfolding each_triple
  each_triple_cases [] matches mem = inl mem
  each_triple_cases (t ∷ ts) matches mem =
      elim (each_triple_cases ts (each_edge g t g.edges matches) mem) [
        | inr (t', e, at, at', d) ↦ inr (t', e, Memᴰ.tail at, at', d)
        | inl old ↦ elim (each_edge_cases g t m g.edges matches old) [
          | inl older ↦ inl older
          | inr (e, at, d) ↦ inr (t, e, Memᴰ.head refl, at, d)
        ]
      ]

  each_triple_old :
      (ts : List PatternTriple) (matches : List GraphMatch)
      → Memᴰ m matches
      → Memᴰ m (each_triple g ts matches)
  unfolding each_triple
  each_triple_old [] matches mem = mem
  each_triple_old (t ∷ ts) matches mem =
      each_triple_old ts (each_edge g t g.edges matches) (each_edge_old g t m g.edges matches mem)

  each_triple_new :
      (ts : List PatternTriple) (matches : List GraphMatch)
      → Explained ts
      → Memᴰ m (each_triple g ts matches)
  unfolding each_triple
  each_triple_new [] matches (t, e, at, at', d) = absurd (Memᴰ.not-nil at)
  each_triple_new (x ∷ ts) matches (t, e, at, at', d) = elim (Memᴰ.cases_cons at) [
    | inl same ↦
        each_triple_old ts (each_edge g x g.edges matches)
          (each_edge_new g x m g.edges matches e at' (subst (λ y. Describes g y e m) same d))
    | inr later ↦ each_triple_new ts (each_edge g x g.edges matches) (t, e, later, at', d)
  ]

-- On a graph with nodes `match_graph` returns a list that holds exactly the reports of edges which
-- some triple of the pattern describes; on a graph with none it fails.
pub match_graph_correct :
    (g : DocumentAst) (p : Pattern)
    → ((g.nodes ≡ []) × (match_graph g p ≡ err (empty_graph empty_graph_match)))
      ⊎ ((g.nodes ≢ [])
          × ((ms : List GraphMatch) × (match_graph g p ≡ ok ms)
              × ((m : GraphMatch) → Memᴰ m ms ↔ Explained g m p.triples)))
unfolding match_graph is_empty
match_graph_correct g p = elim (List-cases g.nodes) [
  | inl e ↦ inl (e, rw (e, is_empty))
  | inr (n, ns, e) ↦ inr (
    (λ none_left. cc),
    (
      each_triple g p.triples [],
      rw (e, is_empty),
      λ m. (
        λ mem. elim (each_triple_cases g m p.triples [] mem) [
          | inl old ↦ absurd (Memᴰ.not-nil old)
          | inr found ↦ found
        ],
        each_triple_new g m p.triples [],
      ),
    ),
  )
]
