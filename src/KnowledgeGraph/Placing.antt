-- ===== src/KnowledgeGraph/Placing.antt =====
-- The loop of `rebuild_ranks` in graph.rs, which ranks one entity in each round.
use mathlib.Core.List.Memᴰ
use flare_verifiable_rag.Prelude.{
  ℕ, suc, ◌+◌, ◌<◌, ◌≤◌, ◌≡◌, ◌↔◌, inl, inr, refl, sym, ap, ◌∙◌, subst, Bool, true, false, List,
  ◌∷◌, length, ◌==◌, if◌then◌else◌, Bool-cases, arith, Memᴰ,
}
use flare_verifiable_rag.KnowledgeGraph.{Adjacency, row}
use flare_verifiable_rag.KnowledgeGraph.Search.{neighbours, mark, marked}
use flare_verifiable_rag.KnowledgeGraph.Marks.{unmarked, length-mark, marked-mark, unmarked-mark}
use flare_verifiable_rag.KnowledgeGraph.Reach.{Live}
use flare_verifiable_rag.KnowledgeGraph.Tables.{IsTable}
use flare_verifiable_rag.KnowledgeGraph.Ranks.{set_at, release_row}
use flare_verifiable_rag.KnowledgeGraph.Counts.{occurs, incoming, at, length-set_at}
use flare_verifiable_rag.KnowledgeGraph.Incoming.{
  Filled-row, incoming-mark, incoming-edge, neighbours-occurs,
}
use flare_verifiable_rag.KnowledgeGraph.Marking.{Live-mark-cases, Live-mark, at-kept, at-here}
use flare_verifiable_rag.KnowledgeGraph.Release.{
  SortedFrom, SortedFrom-above, SortedFrom-weaken, Released, release_row-Released,
}

-- Every edge joins two of the `n` entities.
abbrev pub Between : Adjacency → ℕ → Type 0
Between m n = (u v : ℕ) → Memᴰ v (neighbours m u) → (u < n) × (v < n)

-- Between two rounds: the marked entities have their ranks, which are below the next one and grow
-- along every edge, whose source has its rank before its end; the counts are of the edges from the
-- others, and the others without such an edge are ready.
pub record Placing (m : Adjacency) (n : ℕ) (visited : List Bool) (indeg ready ranks : List ℕ)
    (placed : ℕ) : Type 0 where
  pub visited_sized : length visited ≡ n
  pub indeg_sized : length indeg ≡ n
  pub ranks_sized : length ranks ≡ n
  pub counts : (w : ℕ) → w < n → at w indeg ≡ incoming visited m w
  pub waiting : (w : ℕ) → Memᴰ w ready ↔ (w < n) × (marked w visited ≡ false) × (at w indeg ≡ 0)
  pub sorted : SortedFrom 0 ready
  pub total : placed + unmarked visited ≡ n
  pub low : (w : ℕ) → Live visited w → at w ranks < placed
  pub growing :
      (u w : ℕ)
      → Memᴰ w (neighbours m u)
      → Live visited w
      → Live visited u × (at u ranks < at w ranks)

module _ (m : Adjacency) (n : ℕ) (table : IsTable m) (between : Between m n) where
  enough_left :
      (v : ℕ) (visited : List Bool) (indeg ready ranks : List ℕ) (placed : ℕ)
      → Placing m n visited indeg ready ranks placed
      → marked v visited ≡ false
      → (w : ℕ) → occurs w (row v m) ≤ at w indeg
  enough_left v visited indeg ready ranks placed s free w =
      elim (Bool-cases (occurs w (row v m) == 0)) [
        | inl e ↦ ground arith
        | inr e ↦
            let edge = (neighbours-occurs m v w).0 (ground arith) in
            let bound = (between v w edge).1 in
            omega (arith, s.counts w bound, incoming-mark visited v 0 m w table.ordered free)
      ]

  pub round-Released :
      (v : ℕ) (visited : List Bool) (indeg rest ranks : List ℕ) (placed : ℕ)
      → Placing m n visited indeg (v ∷ rest) ranks placed
      → Released (row v m) (indeg, rest) (release_row (row v m) (indeg, rest))
  round-Released v visited indeg rest ranks placed s =
      let (bound, free, none_left) = (s.waiting v).0 (Memᴰ.head refl) in
      release_row-Released (row v m) 0 indeg rest (Filled-row (row v m) (table.filled v))
        (table.rows v) (enough_left v visited indeg (v ∷ rest) ranks placed s free)

  -- An edge from the entity leads to another one, which is not marked.
  fresh_target :
      (v : ℕ) (visited : List Bool) (indeg rest ranks : List ℕ) (placed : ℕ)
      → Placing m n visited indeg (v ∷ rest) ranks placed
      → (w : ℕ) → 1 ≤ occurs w (row v m)
      → Memᴰ w (neighbours m v)
      → (if v == w then true else marked w visited) ≡ false
  fresh_target v visited indeg rest ranks placed s w some_edge edge =
      let (bound, free, none_left) = (s.waiting v).0 (Memᴰ.head refl) in
      let enough = enough_left v visited indeg (v ∷ rest) ranks placed s free w in
      elim (Bool-cases (v == w)) [
        | inl e ↦
            let same : v ≡ w = ground arith in
            let none_there : at w indeg ≡ 0 = ap (λ x. at x indeg) (sym same) ∙ none_left in
            absurd (omega arith)
        | inr e ↦ rw e (elim (Bool-cases (marked w visited)) [
          | inr fresh ↦ fresh
          | inl old ↦
              let live =
                (s.growing v w edge
                  (subst (λ k. w < k) (sym s.visited_sized) (between v w edge).1, old)).0 in
              absurd (ground (arith, free, live.1))
        ])
      ]

  -- An entity that was ready besides the first is among the rest.
  other_waits :
      (v : ℕ) (visited : List Bool) (indeg rest ranks : List ℕ) (placed : ℕ)
      → Placing m n visited indeg (v ∷ rest) ranks placed
      → (w : ℕ) → w < n
      → (if v == w then true else marked w visited) ≡ false
      → at w indeg ≡ 0
      → Memᴰ w rest
  other_waits v visited indeg rest ranks placed s w bound free none_left =
      elim (Bool-cases (v == w)) [
        | inl e ↦ absurd (ground arith)
        | inr e ↦ elim (Memᴰ.cases_cons ((s.waiting w).1 (bound, ground arith, none_left))) [
          | inl same ↦ absurd (ground arith)
          | inr later ↦ later
        ]
      ]

  -- Which entities are ready after a round.
  round-waiting :
      (v : ℕ) (visited : List Bool) (indeg rest ranks : List ℕ) (placed : ℕ)
      → Placing m n visited indeg (v ∷ rest) ranks placed
      → (after : List ℕ × List ℕ) → Released (row v m) (indeg, rest) after
      → (w : ℕ)
      → Memᴰ w after.1 ↔ (w < n) × (marked w (mark v visited) ≡ false) × (at w after.0 ≡ 0)
  round-waiting v visited indeg rest ranks placed s after r w =
      let (bound, free, none_left) = (s.waiting v).0 (Memᴰ.head refl) in
      let enough = enough_left v visited indeg (v ∷ rest) ranks placed s free in
      let fallen = r.fallen w in
      rw (marked-mark v w visited) (
        λ here. elim ((r.grown w).0 here) [
          | inl there ↦
              let (w_bound, w_free, w_none) = (s.waiting w).0 (Memᴰ.tail there) in
              let above = SortedFrom-above (suc v) rest w s.sorted.1 there in
              (w_bound, ground arith, omega arith)
          | inr (some_edge, w_none) ↦
              let edge = (neighbours-occurs m v w).0 some_edge in
              let w_bound = (between v w edge).1 in
              (w_bound, fresh_target v visited indeg rest ranks placed s w some_edge edge, w_none)
        ],
        λ (w_bound, w_free, w_none). (r.grown w).1 (elim (Bool-cases (occurs w (row v m) == 0)) [
          | inr e ↦ inr (ground arith, w_none)
          | inl e ↦
              inl (other_waits v visited indeg rest ranks placed s w w_bound w_free (ground arith))
        ]),
      )

  -- The sources of the edges to an entity that is ready have their ranks.
  source_marked :
      (v : ℕ) (visited : List Bool) (indeg rest ranks : List ℕ) (placed : ℕ)
      → Placing m n visited indeg (v ∷ rest) ranks placed
      → (u : ℕ) → Memᴰ v (neighbours m u)
      → Live visited u
  source_marked v visited indeg rest ranks placed s u edge =
      let (bound, free, none_left) = (s.waiting v).0 (Memᴰ.head refl) in
      let here : u < length visited =
        subst (λ k. u < k) (sym s.visited_sized) (between u v edge).0 in
      elim (Bool-cases (marked u visited)) [
        | inl old ↦ (here, old)
        | inr fresh ↦
            let counted = incoming-edge visited u 0 m v table.ordered fresh edge in
            absurd (omega (arith, s.counts v bound))
      ]

  round-growing :
      (v : ℕ) (visited : List Bool) (indeg rest ranks : List ℕ) (placed : ℕ)
      → Placing m n visited indeg (v ∷ rest) ranks placed
      → (u w : ℕ) → Memᴰ w (neighbours m u)
      → Live (mark v visited) w
      → Live (mark v visited) u × (at u (set_at v placed ranks) < at w (set_at v placed ranks))
  round-growing v visited indeg rest ranks placed s u w edge live =
      let (bound, free, none_left) = (s.waiting v).0 (Memᴰ.head refl) in
      let within : v < length ranks = subst (λ k. v < k) (sym s.ranks_sized) bound in
      elim (Live-mark-cases v w visited live) [
        | inl same ↦
            let source =
              source_marked v visited indeg rest ranks placed s u
                (subst (λ x. Memᴰ x (neighbours m u)) same edge) in
            (
              Live-mark v u visited source,
              rw
                  (
                    at-kept v u placed visited ranks within free source.1,
                    same,
                    at-here v placed ranks within,
                  )
                  (s.low u source),
            )
        | inr old ↦
            let (source, less) = s.growing u w edge old in
            (
              Live-mark v u visited source,
              rw
                  (
                    at-kept v u placed visited ranks within free source.1,
                    at-kept v w placed visited ranks within free old.1,
                  )
                  less,
            )
      ]

  round-low :
      (v : ℕ) (visited : List Bool) (indeg rest ranks : List ℕ) (placed : ℕ)
      → Placing m n visited indeg (v ∷ rest) ranks placed
      → (w : ℕ) → Live (mark v visited) w
      → at w (set_at v placed ranks) < placed + 1
  round-low v visited indeg rest ranks placed s w live =
      let (bound, free, none_left) = (s.waiting v).0 (Memᴰ.head refl) in
      let within : v < length ranks = subst (λ k. v < k) (sym s.ranks_sized) bound in
      elim (Live-mark-cases v w visited live) [
        | inl same ↦ rw (same, at-here v placed ranks within) (omega arith)
        | inr old ↦
            rw (at-kept v w placed visited ranks within free old.1) (omega (arith, s.low w old))
      ]

  -- The state after a round.
  pub round-Placing :
      (v : ℕ) (visited : List Bool) (indeg rest ranks : List ℕ) (placed : ℕ)
      → Placing m n visited indeg (v ∷ rest) ranks placed
      → (after : List ℕ × List ℕ) → Released (row v m) (indeg, rest) after
      → Placing m n (mark v visited) after.0 after.1 (set_at v placed ranks) (placed + 1)
  round-Placing v visited indeg rest ranks placed s after r =
      let (bound, free, none_left) = (s.waiting v).0 (Memᴰ.head refl) in
      record {
        visited_sized = length-mark v visited ∙ s.visited_sized;
        indeg_sized = r.sized ∙ s.indeg_sized;
        ranks_sized = length-set_at v placed ranks ∙ s.ranks_sized;
        counts = λ w w_bound. omega (
          arith,
          r.fallen w,
          s.counts w w_bound,
          incoming-mark visited v 0 m w table.ordered free,
        );
        waiting = round-waiting v visited indeg rest ranks placed s after r;
        sorted = r.sorted (SortedFrom-weaken 0 (suc v) rest (omega arith) s.sorted.1);
        total = omega (arith, s.total, unmarked-mark v visited free);
        low = round-low v visited indeg rest ranks placed s;
        growing = round-growing v visited indeg rest ranks placed s;
      }
