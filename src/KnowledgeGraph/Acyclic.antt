-- ===== src/KnowledgeGraph/Acyclic.antt =====
-- Whatever is done with graph.rs, its graphs have no cycle.
use flare_verifiable_rag.Prelude.{ℕ, ◌≡◌, sym, subst, true, List, ok}
use flare_verifiable_rag.KnowledgeGraph.{KnowledgeGraph, new, has_relation, add_entity}
use flare_verifiable_rag.KnowledgeGraph.Reach.{Reaches}
use flare_verifiable_rag.KnowledgeGraph.Relations.{add_relation}
use flare_verifiable_rag.KnowledgeGraph.Valid.{IsValid, new-IsValid}
use flare_verifiable_rag.KnowledgeGraph.Entities.{add_entity-IsValid}
use flare_verifiable_rag.KnowledgeGraph.Queries.{IsValid-acyclic}
use flare_verifiable_rag.KnowledgeGraph.Correct.{has_relation-edge, add_relation-IsValid}
use flare_verifiable_rag.KnowledgeGraph.Payload.{Payload, deserialize}
use flare_verifiable_rag.KnowledgeGraph.Loaded.{deserialize-IsValid}

-- The graphs that a program can come by: the empty one, those that `deserialize` returns, and what
-- calls of `add_entity` and `add_relation` make of them, whatever these return.
pub data Obtained : KnowledgeGraph → Type 0 where
  empty : (g : KnowledgeGraph) → g ≡ new → Obtained g
  loaded : (g : KnowledgeGraph) (p : Payload) → deserialize p ≡ ok g → Obtained g
  entity :
      (g h : KnowledgeGraph) (text : List ℕ) → Obtained g → h ≡ (add_entity text g).0 → Obtained h
  relation :
      (g h : KnowledgeGraph) (s : ℕ) (p : List ℕ) (o : ℕ)
      → Obtained g
      → h ≡ (add_relation s p o g).0
      → Obtained h

Obtained-IsValid : (g : KnowledgeGraph) → Obtained g → IsValid g
Obtained-IsValid g (empty _ e) = subst IsValid (sym e) new-IsValid
Obtained-IsValid g (loaded _ p e) = deserialize-IsValid p g e
Obtained-IsValid h (entity g _ text b e) =
    subst IsValid (sym e) (add_entity-IsValid text g (Obtained-IsValid g b))
Obtained-IsValid h (relation g _ s p o b e) =
    subst IsValid (sym e) (add_relation-IsValid s p o g (Obtained-IsValid g b)).0

-- Whatever a program loads and adds, in whatever order and with whatever results, the graph that it
-- gets has no cycle: from the object of a relation no path of relations leads back to its subject.
pub Obtained-acyclic :
    (g : KnowledgeGraph)
    → Obtained g
    → (s : ℕ) (p : List ℕ) (o : ℕ) → has_relation s p o g ≡ true
    → ¬ Reaches g.out o s
Obtained-acyclic g b s p o h =
    IsValid-acyclic g (Obtained-IsValid g b) s o (has_relation-edge s p o g h)
