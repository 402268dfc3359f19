-- ===== src/KnowledgeGraph/Valid.antt =====
-- When a knowledge graph of graph.rs is well-formed, and that new edges keep it so.
use mathlib.Core.List.Memᴰ
use flare_verifiable_rag.Prelude.{
  ℕ, ◌<◌, ◌≡◌, ◌↔◌, inl, inr, refl, sym, subst, some, List, [], length, get_elem?, arith, Memᴰ,
}
use flare_verifiable_rag.TokenGraph.{find_key}
use flare_verifiable_rag.KnowledgeGraph.{
  KnowledgeGraph, Entity, row, text_member, insert_edge, new, entity_id,
}
use flare_verifiable_rag.KnowledgeGraph.Search.{neighbours}
use flare_verifiable_rag.KnowledgeGraph.Tables.{
  IsTable, empty-IsTable, insert_half-IsTable, neighbours-insert_half, member-insert_half,
}
use flare_verifiable_rag.KnowledgeGraph.Relations.{rank}

-- The entities: ids are positions, and the index holds the texts with their ids.
pub record IsIndexed (g : KnowledgeGraph) : Type 0 where
  pub placed : (i : ℕ) (e : Entity) → get_elem? g.entities i ≡ some e → e.id ≡ i
  pub known :
      (text : List ℕ) (i : ℕ)
      → (entity_id text g ≡ some i)
        ↔ ((e : Entity) × (get_elem? g.entities i ≡ some e) × (e.text ≡ text))

-- The edges: each joins two of the `n` entities, and the incoming map mirrors the outgoing one.
pub record IsJoined (g : KnowledgeGraph) : Type 0 where
  pub out_table : IsTable g.out
  pub in_table : IsTable g.in_
  pub ends :
      (u v : ℕ) → Memᴰ v (neighbours g.out u) → (u < length g.entities) × (v < length g.entities)
  pub joined : (u v : ℕ) → Memᴰ v (neighbours g.out u) ↔ Memᴰ u (neighbours g.in_ v)
  pub mirrored :
      (u v : ℕ) (p : List ℕ)
      → text_member p (row v (row u g.out)) ≡ text_member p (row u (row v g.in_))

-- The ranks: one for each entity, and growing along every edge.
pub record IsRanked (g : KnowledgeGraph) : Type 0 where
  pub sized : length g.topo ≡ length g.entities
  pub growing : (u v : ℕ) → Memᴰ v (neighbours g.out u) → rank u g < rank v g

-- Entities, edges and ranks are in order.
pub record IsValid (g : KnowledgeGraph) : Type 0 where
  pub indexed : IsIndexed g
  pub edges : IsJoined g
  pub ranked : IsRanked g

nobody : (u v : ℕ) → Memᴰ v (neighbours [] u) → ⊥
unfolding neighbours row
nobody u v here = Memᴰ.not-nil here

-- The empty graph is valid.
pub new-IsValid : IsValid new
unfolding new entity_id find_key row
new-IsValid = record {
  indexed = record { placed = λ i e h. cc; known = λ text i. (λ h. cc, λ (e, h, t). cc) };
  edges = record {
    out_table = empty-IsTable;
    in_table = empty-IsTable;
    ends = λ u v here. absurd (nobody u v here);
    joined = λ u v. (λ here. absurd (nobody u v here), λ here. absurd (nobody v u here));
    mirrored = λ u v p. refl;
  };
  ranked = record { sized = refl; growing = λ u v here. absurd (nobody u v here) };
}

-- An edge between two entities keeps the maps in order.
pub insert_edge-IsJoined :
    (s : ℕ) (p : List ℕ) (o : ℕ) (g : KnowledgeGraph)
    → s < length g.entities
    → o < length g.entities
    → IsJoined g
    → IsJoined (insert_edge s p o g)
unfolding insert_edge
insert_edge-IsJoined s p o g hs ho j =
    let onward = neighbours-insert_half s p o g.out j.out_table in
    let back = neighbours-insert_half o p s g.in_ j.in_table in
    record {
      out_table = insert_half-IsTable s p o g.out j.out_table;
      in_table = insert_half-IsTable o p s g.in_ j.in_table;
      ends = λ u v here. elim ((onward u v).0 here) [
        | inl (a, b) ↦ (
          subst (λ x. x < length g.entities) (sym a) hs,
          subst (λ x. x < length g.entities) (sym b) ho,
        )
        | inr old ↦ j.ends u v old
      ];
      joined = λ u v. (
        λ here. (back v u).1 (elim ((onward u v).0 here) [
          | inl (a, b) ↦ inl (b, a)
          | inr old ↦ inr ((j.joined u v).0 old)
        ]),
        λ here. (onward u v).1 (elim ((back v u).0 here) [
          | inl (b, a) ↦ inl (a, b)
          | inr old ↦ inr ((j.joined u v).1 old)
        ]),
      );
      mirrored = λ u v q.
          rw
            (
              member-insert_half s p o g.out j.out_table u v q,
              member-insert_half o p s g.in_ j.in_table v u q,
              j.mirrored u v q,
            )
            (ground arith);
    }
