-- ===== src/KnowledgeGraph/Marking.antt =====
-- Marking one entity and setting its rank, in `rebuild_ranks` of graph.rs.
use flare_verifiable_rag.Prelude.{
  ℕ, ◌<◌, ◌≡◌, ◌⊎◌, inl, inr, refl, sym, ◌∙◌, subst, Bool, true, false, List, length, ◌==◌,
  Bool-cases, arith,
}
use flare_verifiable_rag.KnowledgeGraph.Search.{mark, marked}
use flare_verifiable_rag.KnowledgeGraph.Marks.{length-mark, marked-mark}
use flare_verifiable_rag.KnowledgeGraph.Reach.{Live}
use flare_verifiable_rag.KnowledgeGraph.Ranks.{set_at}
use flare_verifiable_rag.KnowledgeGraph.Counts.{at, at-set_at}

pub Live-mark-cases :
    (v w : ℕ) (visited : List Bool) → Live (mark v visited) w → (w ≡ v) ⊎ Live visited w
Live-mark-cases v w visited (bound, h) = elim (Bool-cases (v == w)) [
  | inl e ↦ inl (ground arith)
  | inr e ↦ inr (
    subst (λ k. w < k) (length-mark v visited) bound,
    ground (arith, sym (marked-mark v w visited) ∙ h),
  )
]

pub Live-mark : (v w : ℕ) (visited : List Bool) → Live visited w → Live (mark v visited) w
Live-mark v w visited (bound, h) = (
  subst (λ k. w < k) (sym (length-mark v visited)) bound,
  rw (marked-mark v w visited) (ground arith),
)

-- The ranks of marked entities stay when another one gets its rank.
pub at-kept :
    (v u r : ℕ) (visited : List Bool) (ranks : List ℕ)
    → v < length ranks
    → marked v visited ≡ false
    → marked u visited ≡ true
    → at u (set_at v r ranks) ≡ at u ranks
at-kept v u r visited ranks bound free old =
    rw (at-set_at v r u ranks bound) (elim (Bool-cases (u == v)) [
      | inl e ↦
          let same : u ≡ v = ground arith in
          absurd (ground (arith, free, subst (λ x. marked x visited ≡ true) same old))
      | inr e ↦ rw e refl
    ])

pub at-here : (v r : ℕ) (ranks : List ℕ) → v < length ranks → at v (set_at v r ranks) ≡ r
at-here v r ranks bound = rw (at-set_at v r v ranks bound) (ground arith)
