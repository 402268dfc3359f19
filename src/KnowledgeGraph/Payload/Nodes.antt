-- ===== src/KnowledgeGraph/Payload/Nodes.antt =====
-- The first loop of `Deserialize` takes the entities of a graph.
use flare_verifiable_rag.Prelude.{
  ℕ, suc, ◌<◌, ◌≤◌, ◌≡◌, inl, inr, refl, sym, ap, ◌∙◌, subst, true, false, List, [], ◌∷◌, ◌++◌,
  length, All, append-nil, append_assoc, get_elem?, get_elem?-lt, ◌==◌, ==_iff, ltb, Option-cases,
  arith, none, some, ok,
}
use flare_verifiable_rag.KnowledgeGraph.{KnowledgeGraph, Entity, entity_id, max_symbol_len}
use flare_verifiable_rag.KnowledgeGraph.Valid.{IsIndexed, IsValid}
use flare_verifiable_rag.KnowledgeGraph.Loaded.{pushed-IsValid, length-push_node}
use flare_verifiable_rag.KnowledgeGraph.Payload.{push_node, add_nodes}

-- A symbol has 1 to 512 bytes.
abbrev pub IsSymbol : List ℕ → Type 0
IsSymbol t = (0 < length t) × (length t ≤ 512)

get_elem?-middle :
    (xs : List Entity) (e : Entity) (ys : List Entity)
    → get_elem? (xs ++ e ∷ ys) (length xs) ≡ some e
get_elem?-middle [] e ys = refl
get_elem?-middle (x ∷ xs) e ys = get_elem?-middle xs e ys

get_elem?-append :
    (xs ys : List Entity) (i : ℕ) (e : Entity)
    → get_elem? xs i ≡ some e
    → get_elem? (xs ++ ys) i ≡ some e
get_elem?-append [] ys i e h = absurd (cc)
get_elem?-append (x ∷ xs) ys ℕ.zero e h = h
get_elem?-append (x ∷ xs) ys (suc i) e h = get_elem?-append xs ys i e h

-- The next entity of a graph is not among those before it.
next-fresh :
    (e : Entity) (es : List Entity) (h g : KnowledgeGraph)
    → IsIndexed g
    → IsIndexed h
    → g.entities ≡ h.entities ++ e ∷ es
    → entity_id e.text h ≡ none
next-fresh e es h g x y parts = elim (Option-cases (entity_id e.text h)) [
  | inl fresh ↦ fresh
  | inr (i, old) ↦
      let n = length h.entities in
      let (d, there, same) = (y.known e.text i).0 old in
      let bound = get_elem?-lt h.entities i d there in
      let at_i : get_elem? g.entities i ≡ some d =
        ap (λ l. get_elem? l i) parts ∙ get_elem?-append h.entities (e ∷ es) i d there in
      let at_n : get_elem? g.entities n ≡ some e =
        ap (λ l. get_elem? l n) parts ∙ get_elem?-middle h.entities e es in
      let first = (x.known e.text i).1 (d, at_i, same) in
      let second = (x.known e.text n).1 (e, at_n, refl) in
      let twice : some i ≡ some n = sym first ∙ second in
      let equal : i ≡ n = cc in absurd (omega arith)
]

pub record Grown (es : List Entity) (h : KnowledgeGraph) : Type 0 where
  pub grown : KnowledgeGraph
  pub adds : add_nodes (length h.entities) es h ≡ ok grown
  pub valid : IsValid grown
  pub entities_now : grown.entities ≡ h.entities ++ es
  pub out_same : grown.out ≡ h.out

pub add_nodes-Grown :
    (es : List Entity) (h g : KnowledgeGraph)
    → IsIndexed g
    → All (λ (e : Entity). IsSymbol e.text) es
    → IsValid h
    → g.entities ≡ h.entities ++ es
    → Grown es h
unfolding add_nodes
add_nodes-Grown [] h g x sizes v parts = record {
  grown = h;
  adds = refl;
  valid = v;
  entities_now = sym (append-nil h.entities);
  out_same = refl;
}
add_nodes-Grown (e ∷ es) h g x (size, sizes) v parts =
    let n = length h.entities in
    let at_n : get_elem? g.entities n ≡ some e =
      ap (λ l. get_elem? l n) parts ∙ get_elem?-middle h.entities e es in
    let placed = x.placed n e at_n in
    let fresh = next-fresh e es h g x v.indexed parts in
    let a : (e.id == n) ≡ true = (==_iff e.id n).1 placed in
    let b : (length e.text == 0) ≡ false = ground (arith, size.0) in
    let c : ltb max_symbol_len (length e.text) ≡ false = ground (arith, size.1) in
    let pushed = push_node e n h in
    let rest =
      add_nodes-Grown es pushed g x sizes (pushed-IsValid e n h placed refl fresh v)
        (parts ∙ unfold push_node in sym (append_assoc h.entities (e ∷ []) es)) in
    record {
      grown = rest.grown;
      adds =
          rw (a, b, c, fresh, add_nodes)
            (subst (λ k. add_nodes k es pushed ≡ ok rest.grown) (sym (length-push_node e n h refl))
              rest.adds);
      valid = rest.valid;
      entities_now = rest.entities_now ∙ unfold push_node in append_assoc h.entities (e ∷ []) es;
      out_same = rest.out_same ∙ unfold push_node in refl;
    }
