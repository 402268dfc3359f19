-- ===== src/KnowledgeGraph/Sources.antt =====
-- The start of `rebuild_ranks` in graph.rs.
use mathlib.Core.List.Memᴰ
use flare_verifiable_rag.Prelude.{
  ℕ, zero, suc, ◌+◌, ◌<◌, ◌≡◌, ◌↔◌, ◌⊎◌, inl, inr, ap, ◌∙◌, subst, List, [], ◌∷◌, length, ◌==◌,
  Bool-cases, arith, Memᴰ,
}
use flare_verifiable_rag.KnowledgeGraph.{Adjacency, row}
use flare_verifiable_rag.KnowledgeGraph.Search.{all_false}
use flare_verifiable_rag.KnowledgeGraph.Marks.{
  marked-all_false, length-all_false, unmarked-all_false,
}
use flare_verifiable_rag.KnowledgeGraph.Reach.{Live}
use flare_verifiable_rag.KnowledgeGraph.Tables.{IsTable}
use flare_verifiable_rag.KnowledgeGraph.Ranks.{zeros, count_rows, sources_from}
use flare_verifiable_rag.KnowledgeGraph.Counts.{
  at, length-count_rows, length-zeros, at-in_degrees, AllFilled, Unmarked,
}
use flare_verifiable_rag.KnowledgeGraph.Incoming.{
  Filled-row, AllFilled-rows, Unmarked-rows, neighbours-occurs,
}
use flare_verifiable_rag.KnowledgeGraph.Release.{SortedFrom, SortedFrom-weaken}
use flare_verifiable_rag.KnowledgeGraph.Placing.{Between, Placing}

-- The ids that are listed are those whose count is zero.
abbrev IsSource : ℕ → ℕ → List ℕ → Type 0
IsSource w b ds = (i : ℕ) × (w ≡ b + i) × (i < length ds) × (at i ds ≡ 0)

later-IsSource : (w b d : ℕ) (ds : List ℕ) → IsSource w (suc b) ds → IsSource w b (d ∷ ds)
later-IsSource w b d ds (i, e, l, z) = (suc i, omega arith, omega arith, z)

IsSource-cases :
    (w b d : ℕ) (ds : List ℕ) → IsSource w b (d ∷ ds) → (w ≡ b) × (d ≡ 0) ⊎ IsSource w (suc b) ds
IsSource-cases w b d ds (zero, e, l, z) = inl (omega arith, z)
IsSource-cases w b d ds (suc i, e, l, z) = inr (i, omega arith, omega arith, z)

Memᴰ-sources_from : (w b : ℕ) (ds : List ℕ) → Memᴰ w (sources_from b ds) ↔ IsSource w b ds
unfolding sources_from
Memᴰ-sources_from w b [] =
    (λ here. absurd (Memᴰ.not-nil here), λ (i, e, l, z). absurd (omega arith))
Memᴰ-sources_from w b (d ∷ ds) =
    let ih = Memᴰ-sources_from w (suc b) ds in
    elim (Bool-cases (d == 0)) [
      | inl z ↦ rw z (
        λ here. elim (Memᴰ.cases_cons here) [
          | inl same ↦ (0, omega arith, omega arith, ground arith)
          | inr later ↦ later-IsSource w b d ds (ih.0 later)
        ],
        λ c. elim (IsSource-cases w b d ds c) [
          | inl (same, _) ↦ Memᴰ.head same
          | inr later ↦ Memᴰ.tail (ih.1 later)
        ],
      )
      | inr z ↦ rw z (
        λ here. later-IsSource w b d ds (ih.0 here),
        λ c. elim (IsSource-cases w b d ds c) [
          | inl (same, none_left) ↦ absurd (ground arith)
          | inr later ↦ ih.1 later
        ],
      )
    ]

sources_from-SortedFrom : (b : ℕ) (ds : List ℕ) → SortedFrom b (sources_from b ds)
unfolding sources_from
sources_from-SortedFrom b [] = tt
sources_from-SortedFrom b (d ∷ ds) =
    let ih = sources_from-SortedFrom (suc b) ds in
    elim (Bool-cases (d == 0)) [
      | inl z ↦ rw z (omega arith, ih)
      | inr z ↦ rw z (SortedFrom-weaken b (suc b) (sources_from (suc b) ds) (omega arith) ih)
    ]

module _ (m : Adjacency) (n : ℕ) (table : IsTable m) (between : Between m n) where
  all_filled : AllFilled m
  all_filled = AllFilled-rows 0 m table.ordered (λ u h. Filled-row (row u m) (table.filled u))

  all-Unmarked : Unmarked (all_false n) m
  all-Unmarked = Unmarked-rows (all_false n) 0 m table.ordered (λ u v h some_edge.
      marked-all_false n u (between u v ((neighbours-occurs m u v).0 some_edge)).0)

  never-Live : (w : ℕ) → ¬ Live (all_false n) w
  never-Live w (bound, h) =
      absurd
        (ground (arith, h, marked-all_false n w (subst (λ k. w < k) (length-all_false n) bound)))

  -- The state before the first round.
  pub start-Placing :
      Placing m n
        (all_false n)
        (count_rows m (zeros n))
        (sources_from 0 (count_rows m (zeros n)))
        (zeros n)
        0
  start-Placing =
      let indeg = count_rows m (zeros n) in
      let sized : length indeg ≡ n = length-count_rows m (zeros n) all_filled ∙ length-zeros n in
      record {
        visited_sized = length-all_false n;
        indeg_sized = sized;
        ranks_sized = length-zeros n;
        counts = λ w bound. at-in_degrees m (all_false n) n w all_filled all-Unmarked bound;
        waiting = λ w.
            let listed = Memᴰ-sources_from w 0 indeg in
            (
              λ here.
                  let (i, e, l, z) = listed.0 here in
                  let same : w ≡ i = omega arith in
                  let bound : w < n = omega arith in
                  (bound, marked-all_false n w bound, ap (λ x. at x indeg) same ∙ z),
              λ (bound, free, z). listed.1 (w, omega arith, omega arith, z),
            );
        sorted = sources_from-SortedFrom 0 indeg;
        total = omega (arith, unmarked-all_false n);
        low = λ w live. absurd (never-Live w live);
        growing = λ u w edge live. absurd (never-Live w live);
      }
