-- ===== src/KnowledgeGraph/Ranked.antt =====
-- `rebuild_ranks` of graph.rs ranks every graph without a cycle.
use mathlib.Core.List.Memᴰ
use flare_verifiable_rag.Prelude.{
  ℕ, zero, suc, ◌+◌, ◌<◌, ◌≤◌, ◌≡◌, inl, inr, refl, sym, ap, ◌∙◌, subst, Bool, true, Option, some,
  List, [], ◌∷◌, length, ◌==◌, Bool-cases, arith, Memᴰ,
}
use flare_verifiable_rag.Prelude.{none, false}
use flare_verifiable_rag.KnowledgeGraph.{Adjacency, row}
use flare_verifiable_rag.KnowledgeGraph.Search.{neighbours, mark, marked, all_false}
use flare_verifiable_rag.KnowledgeGraph.Marks.{unmarked, unmarked-mark}
use flare_verifiable_rag.KnowledgeGraph.Tables.{IsTable}
use flare_verifiable_rag.KnowledgeGraph.Ranks.{
  zeros, count_rows, sources_from, set_at, release_row, place_loop,
}
use flare_verifiable_rag.KnowledgeGraph.Counts.{at}
use flare_verifiable_rag.KnowledgeGraph.Incoming.{incoming-source, neighbours-occurs}
use flare_verifiable_rag.KnowledgeGraph.Placing.{Between, Placing, round-Placing, round-Released}
use flare_verifiable_rag.KnowledgeGraph.Sources.{start-Placing}

-- The loop ended with nothing ready.
record Ended (m : Adjacency) (n : ℕ) (result : Option (List ℕ × ℕ)) : Type 0 where
  ranks : List ℕ
  placed : ℕ
  visited : List Bool
  indeg : List ℕ
  returned : result ≡ some (ranks, placed)
  state : Placing m n visited indeg [] ranks placed

unmarked-all :
    (visited : List Bool)
    → ((v : ℕ) → v < length visited → marked v visited ≡ true)
    → unmarked visited ≡ 0
unfolding unmarked marked
unmarked-all [] h = refl
unmarked-all (b ∷ bs) h =
    let first = h 0 (omega arith) in
    rw first (omega (arith, unmarked-all bs (λ v bound. h (suc v) (omega arith))))

module _ (m : Adjacency) (n : ℕ) (table : IsTable m) (between : Between m n) where
  place_loop-Ended :
      (fuel : ℕ) (visited : List Bool) (indeg ready ranks : List ℕ) (placed : ℕ)
      → unmarked visited ≤ fuel
      → Placing m n visited indeg ready ranks placed
      → Ended m n (place_loop fuel m (indeg, ready) ranks placed)
  unfolding place_loop
  place_loop-Ended fuel visited indeg [] ranks placed h s = record {
    ranks = ranks;
    placed = placed;
    visited = visited;
    indeg = indeg;
    returned = refl;
    state = s;
  }
  place_loop-Ended zero visited indeg (v ∷ ready) ranks placed h s =
      let (bound, free, none_left) = (s.waiting v).0 (Memᴰ.head refl) in
      absurd (omega (arith, unmarked-mark v visited free))
  place_loop-Ended (suc fuel) visited indeg (v ∷ ready) ranks placed h s =
      let (bound, free, none_left) = (s.waiting v).0 (Memᴰ.head refl) in
      let after = release_row (row v m) (indeg, ready) in
      let next =
        round-Placing m n table between v visited indeg ready ranks placed s after
          (round-Released m n table between v visited indeg ready ranks placed s) in
      place_loop-Ended fuel (mark v visited) after.0 after.1 (set_at v placed ranks) (placed + 1)
        (omega (arith, unmarked-mark v visited free)) next

  -- Without a cycle nothing is left when nothing is ready: an entity of least height that is left would
  -- have no edge from another one that is left.
  all-marked :
      (height : ℕ → ℕ)
      → ((u v : ℕ) → Memᴰ v (neighbours m u) → height u < height v)
      → (visited : List Bool) (indeg ranks : List ℕ) (placed : ℕ)
      → Placing m n visited indeg [] ranks placed
      → (k v : ℕ) → height v < k
      → v < n
      → marked v visited ≡ true
  all-marked height up visited indeg ranks placed s zero v h bound = absurd (omega arith)
  all-marked height up visited indeg ranks placed s (suc k) v h bound =
      elim (Bool-cases (marked v visited)) [
        | inl done ↦ done
        | inr free ↦ elim (Bool-cases (at v indeg == 0)) [
          | inl e ↦ absurd (Memᴰ.not-nil ((s.waiting v).1 (bound, free, ground arith)))
          | inr e ↦
              let counted = s.counts v bound in
              let (u, _, u_free, some_edge) =
                incoming-source visited 0 m v table.ordered (ground arith) in
              let edge = (neighbours-occurs m u v).0 some_edge in
              let less = up u v edge in
              let u_done =
                all-marked height up visited indeg ranks placed s k u (omega arith)
                  (between u v edge).0 in
              absurd (ground (arith, u_free, u_done))
        ]
      ]

  -- The ranks that the loop returns are one for each entity, and grow along every edge.
  pub ranks_found :
      (height : ℕ → ℕ)
      → ((u v : ℕ) → Memᴰ v (neighbours m u) → height u < height v)
      → (ranks : List ℕ) × (place_loop n m
            (count_rows m (zeros n), sources_from 0 (count_rows m (zeros n)))
            (zeros n)
            0
          ≡ some (ranks, n))
        × (length ranks ≡ n)
        × ((u v : ℕ) → Memᴰ v (neighbours m u) → at u ranks < at v ranks)
  ranks_found height up =
      let first = start-Placing m n table between in
      let indeg = count_rows m (zeros n) in
      let ended =
        place_loop-Ended n (all_false n) indeg (sources_from 0 indeg) (zeros n) 0
          (omega (arith, first.total)) first in
      let s = ended.state in
      let done : (v : ℕ) → v < n → marked v ended.visited ≡ true = λ v bound.
        all-marked height up ended.visited ended.indeg ended.ranks ended.placed s (suc (height v)) v
          (omega arith) bound in
      let none_left =
        unmarked-all ended.visited (λ v bound. done v (subst (λ k. v < k) s.visited_sized bound)) in
      let all_placed : ended.placed ≡ n = omega (arith, s.total) in
      (
        ended.ranks,
        ended.returned ∙ ap (λ k. some (ended.ranks, k)) all_placed,
        s.ranks_sized,
        λ u v edge.
            let bound = (between u v edge).1 in
            (s.growing u v edge (subst (λ k. v < k) (sym s.visited_sized) bound, done v bound)).1,
      )

abbrev placed_of : Option (List ℕ × ℕ) → ℕ
placed_of none = 0
placed_of (some (ranks, placed)) = placed

abbrev ranks_of : Option (List ℕ × ℕ) → List ℕ
ranks_of none = []
ranks_of (some (ranks, placed)) = ranks

marked-all :
    (visited : List Bool) (v : ℕ)
    → unmarked visited ≡ 0
    → v < length visited
    → marked v visited ≡ true
unfolding unmarked marked
marked-all [] v h bound = absurd (omega arith)
marked-all (true ∷ bs) zero h bound = refl
marked-all (false ∷ bs) zero h bound = absurd (ground arith)
marked-all (b ∷ bs) (suc v) h bound = marked-all bs v (ground arith) (omega arith)

-- When the loop has placed all entities, its ranks grow along every edge.
pub place_loop_sound :
    (m : Adjacency) (n : ℕ)
    → IsTable m
    → Between m n
    → (ranks : List ℕ)
    → place_loop n m (count_rows m (zeros n), sources_from 0 (count_rows m (zeros n))) (zeros n) 0
      ≡ some (ranks, n)
    → (length ranks ≡ n) × ((u v : ℕ) → Memᴰ v (neighbours m u) → at u ranks < at v ranks)
place_loop_sound m n table between ranks h =
    let first = start-Placing m n table between in
    let indeg = count_rows m (zeros n) in
    let ended =
      place_loop-Ended m n table between n (all_false n) indeg (sources_from 0 indeg) (zeros n) 0
        (omega (arith, first.total)) first in
    let s = ended.state in
    let same : some (ended.ranks, ended.placed) ≡ some (ranks, n) = sym ended.returned ∙ h in
    let same_placed : ended.placed ≡ n = ap placed_of same in
    let same_ranks : ended.ranks ≡ ranks = ap ranks_of same in
    let none_left : unmarked ended.visited ≡ 0 = omega (arith, s.total) in
    (
      ap length (sym same_ranks) ∙ s.ranks_sized,
      λ u v edge.
          let bound : v < length ended.visited =
            subst (λ k. v < k) (sym s.visited_sized) (between u v edge).1 in
          subst (λ xs. at u xs < at v xs) same_ranks
            (s.growing u v edge (bound, marked-all ended.visited v none_left bound)).1,
    )
