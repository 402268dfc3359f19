-- ===== src/KnowledgeGraph/Payload/RoundTrip.antt =====
-- A graph that is written by `Serialize` is read back by `Deserialize`, with ranks of its own.
use mathlib.Core.List.Memᴰ
use flare_verifiable_rag.Prelude.{
  ℕ, ◌<◌, ◌≡◌, ◌≢◌, ◌↔◌, inl, inr, refl, sym, ap, ◌∙◌, subst, true, List, [], length, arith, Memᴰ,
  ok, All,
}
use flare_verifiable_rag.KnowledgeGraph.{
  KnowledgeGraph, Entity, Relation, new, has_relation, row, text_member,
}
use flare_verifiable_rag.KnowledgeGraph.Search.{neighbours}
use flare_verifiable_rag.KnowledgeGraph.Relations.{rank}
use flare_verifiable_rag.KnowledgeGraph.Listing.{relations}
use flare_verifiable_rag.KnowledgeGraph.Listed.{relations_correct}
use flare_verifiable_rag.KnowledgeGraph.Valid.{IsValid, new-IsValid}
use flare_verifiable_rag.KnowledgeGraph.Insertion.{rebuild_ranks-ok}
use flare_verifiable_rag.KnowledgeGraph.Correct.{has_relation-edge}
use flare_verifiable_rag.KnowledgeGraph.Loaded.{deserialize-IsValid}
use flare_verifiable_rag.KnowledgeGraph.Payload.{serialize, deserialize}
use flare_verifiable_rag.KnowledgeGraph.Payload.Nodes.{IsSymbol, add_nodes-Grown}
use flare_verifiable_rag.KnowledgeGraph.Payload.Edges.{IsSound, rel, add_edges-Filled}

-- All texts and predicates of the graph have 1 to 512 bytes.
pub record IsSized (g : KnowledgeGraph) : Type 0 where
  pub texts : All (λ (e : Entity). IsSymbol e.text) g.entities
  pub predicates : (s : ℕ) (p : List ℕ) (o : ℕ) → has_relation s p o g ≡ true → IsSymbol p

listed-edge :
    (g : KnowledgeGraph) (r : Relation)
    → IsValid g
    → Memᴰ r (relations g)
    → Memᴰ r.object (neighbours g.out r.subject)
listed-edge g r v here =
    has_relation-edge r.subject r.predicate r.object g (((relations_correct g v).0 r).0 here)

listed-IsSound :
    (g : KnowledgeGraph) (r : Relation)
    → IsValid g
    → IsSized g
    → Memᴰ r (relations g)
    → IsSound (length g.entities) r
listed-IsSound g r v sizes here =
    let edge = listed-edge g r v here in
    let (s, o) = v.edges.ends r.subject r.object edge in
    let grows = v.ranked.growing r.subject r.object edge in
    (
      s,
      o,
      λ e. absurd (omega (arith, grows, ap (λ k. rank k g) e)),
      sizes.predicates r.subject r.predicate r.object (((relations_correct g v).0 r).0 here),
    )

restored-empty :
    (s : ℕ) (p : List ℕ) (o : ℕ) (h : KnowledgeGraph) → h.out ≡ [] → has_relation s p o h ≢ true
unfolding has_relation row
restored-empty s p o h e q =
    let none_there : text_member p (row o (row s [])) ≡ true =
      ap (λ m. text_member p (row o (row s m))) (sym e) ∙ q in
    absurd (cc)

no-neighbour : (u v : ℕ) (h : KnowledgeGraph) → h.out ≡ [] → ¬ Memᴰ v (neighbours h.out u)
unfolding neighbours row
no-neighbour u v h e here = Memᴰ.not-nil (subst (λ m. Memᴰ v (neighbours m u)) e here)

-- Every valid graph whose texts and predicates have 1 to 512 bytes is read back from what is written
-- of it: the graph that `deserialize` returns is valid, with the same entities in the same order and
-- the same relations.
pub deserialize-serialize :
    (g : KnowledgeGraph)
    → IsValid g
    → IsSized g
    → (g' : KnowledgeGraph) × (deserialize (serialize g) ≡ ok g')
      × IsValid g'
      × (g'.entities ≡ g.entities)
      × ((s : ℕ) (p : List ℕ) (o : ℕ)
          → (has_relation s p o g' ≡ true) ↔ (has_relation s p o g ≡ true))
unfolding deserialize serialize has_relation new
deserialize-serialize g v sizes =
    let nodes = add_nodes-Grown g.entities new g v.indexed sizes.texts new-IsValid refl in
    let h = nodes.grown in
    let same : h.entities ≡ g.entities = nodes.entities_now in
    let edges =
      add_edges-Filled (relations g) h (nodes.valid.indexed, nodes.valid.edges)
        (λ r here.
          subst (λ n. IsSound n r) (ap length (sym same)) (listed-IsSound g r v sizes here)) in
    let filled = edges.filled in
    let height = λ (u : ℕ). rank u g in
    let (ranks, e, _) = rebuild_ranks-ok filled height edges.loaded.1 (λ a b here.
      elim (edges.between a b here) [
        | inl old ↦ absurd (no-neighbour a b h nodes.out_same old)
        | inr (r, there, x, y) ↦
            subst (λ k. height k < height b) x
              (subst (λ k. height r.subject < height k) y
                (v.ranked.growing r.subject r.object (listed-edge g r v there)))
      ]) in
    let g' = record filled { topo = ranks } in
    let read : deserialize (serialize g) ≡ ok g' =
      rw (nodes.adds, edges.adds, e, deserialize, serialize) refl in
    (
      g',
      read,
      deserialize-IsValid (serialize g) g' read,
      edges.entities_same ∙ same,
      λ s p o.
          let held = edges.holds s p o in
          let listed = (relations_correct g v).0 (rel s p o) in
          (
            λ q. elim (held.0 q) [
              | inl here ↦ listed.0 here
              | inr old ↦ absurd (restored-empty s p o h nodes.out_same old)
            ],
            λ q. held.1 (inl (listed.1 q)),
          ),
    )
