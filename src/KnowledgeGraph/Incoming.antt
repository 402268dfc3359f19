-- ===== src/KnowledgeGraph/Incoming.antt =====
-- Which edges the counts of `rebuild_ranks` in graph.rs are of.
use mathlib.Core.List.Memᴰ
use flare_verifiable_rag.Prelude.{
  ℕ, suc, ◌+◌, ◌<◌, ◌≤◌, ◌≡◌, ◌≢◌, ◌↔◌, inl, inr, refl, subst, Bool, false, List, [], ◌∷◌, map,
  ◌==◌, Bool-cases, arith, Memᴰ,
}
use flare_verifiable_rag.KnowledgeGraph.{Adjacency, Row, row}
use flare_verifiable_rag.KnowledgeGraph.Search.{neighbours, mark, marked}
use flare_verifiable_rag.KnowledgeGraph.Maps.{OrderedFrom}
use flare_verifiable_rag.KnowledgeGraph.Marks.{marked-mark}
use flare_verifiable_rag.KnowledgeGraph.Counts.{occurs, incoming, Filled, AllFilled, Unmarked}

incoming-above :
    (visited : List Bool) (w b : ℕ) (m : Adjacency) (v : ℕ)
    → w < b
    → OrderedFrom b m
    → incoming (mark w visited) m v ≡ incoming visited m v
unfolding incoming
incoming-above visited w b [] v h o = refl
incoming-above visited w b ((u, objs) ∷ m) v h (low, o) =
    rw (marked-mark w u visited)
      (ground (arith, incoming-above visited w (suc u) m v (omega arith) o))

row-above : (w b : ℕ) (m : Adjacency) → w < b → OrderedFrom b m → row w m ≡ []
unfolding row
row-above w b [] h o = refl
row-above w b ((u, objs) ∷ m) h (low, o) = elim (Bool-cases (w == u)) [
  | inl e ↦ absurd (ground arith)
  | inr e ↦ rw (e, row) (row-above w (suc u) m (omega arith) o)
]

-- When an entity is marked, its own edges are no longer counted.
pub incoming-mark :
    (visited : List Bool) (w b : ℕ) (m : Adjacency) (v : ℕ)
    → OrderedFrom b m
    → marked w visited ≡ false
    → incoming (mark w visited) m v + occurs v (row w m) ≡ incoming visited m v
unfolding incoming occurs row
incoming-mark visited w b [] v o h = refl
incoming-mark visited w b ((u, objs) ∷ m) v (low, o) h = elim (Bool-cases (w == u)) [
  | inl e ↦
      let same : w ≡ u = ground arith in
      let free : marked u visited ≡ false = subst (λ x. marked x visited ≡ false) same h in
      let later = incoming-above visited w (suc u) m v (omega arith) o in
      rw (e, row, marked-mark w u visited, e, free) (omega (arith, later))
  | inr e ↦
      rw (e, row, marked-mark w u visited, e)
        (ground (arith, incoming-mark visited w (suc u) m v o h))
]

pub occurs_iff : (v : ℕ) (r : Row) → (1 ≤ occurs v r) ↔ Memᴰ v (map (λ e. e.0) r)
unfolding occurs
occurs_iff v [] = (λ h. absurd (omega arith), λ here. absurd (Memᴰ.not-nil here))
occurs_iff v ((o, ps) ∷ r) = elim (Bool-cases (v == o)) [
  | inl e ↦ rw e (λ h. Memᴰ.head (ground arith), λ here. omega arith)
  | inr e ↦
      let ih = occurs_iff v r in
      rw e (
        λ h. Memᴰ.tail (ih.0 (omega arith)),
        λ here. elim (Memᴰ.cases_cons here) [
          | inl same ↦ absurd (ground arith)
          | inr later ↦ omega (arith, ih.1 later)
        ],
      )
]

row-first : (u : ℕ) (objs : Row) (m : Adjacency) → row u ((u, objs) ∷ m) ≡ objs
unfolding row
row-first u objs m = ground arith

row-later : (u w : ℕ) (objs : Row) (m : Adjacency) → u < w → row w ((u, objs) ∷ m) ≡ row w m
unfolding row
row-later u w objs m h = ground arith

neighbours-row :
    (m : Adjacency) (u v : ℕ) → Memᴰ v (neighbours m u) → Memᴰ v (map (λ e. e.0) (row u m))
unfolding neighbours
neighbours-row m u v here = here

pub neighbours-occurs :
    (m : Adjacency) (u v : ℕ) → (1 ≤ occurs v (row u m)) ↔ Memᴰ v (neighbours m u)
unfolding neighbours
neighbours-occurs m u v = occurs_iff v (row u m)

pub Filled-row : (r : Row) → ((o : ℕ) (ps : List (List ℕ)) → Memᴰ (o, ps) r → ps ≢ []) → Filled r
Filled-row [] f = tt
Filled-row ((o, []) ∷ r) f = absurd (f o [] (Memᴰ.head refl) refl)
Filled-row ((o, p ∷ ps) ∷ r) f = (refl, Filled-row r (λ o' ps' here. f o' ps' (Memᴰ.tail here)))

pub AllFilled-rows :
    (b : ℕ) (m : Adjacency) → OrderedFrom b m → ((u : ℕ) → b ≤ u → Filled (row u m)) → AllFilled m
AllFilled-rows b [] o f = tt
AllFilled-rows b ((u, objs) ∷ m) (low, o) f = (
  subst Filled (row-first u objs m) (f u low),
  AllFilled-rows (suc u) m o
      (λ w above. subst Filled (row-later u w objs m above) (f w (omega arith))),
)

pub Unmarked-rows :
    (visited : List Bool) (b : ℕ) (m : Adjacency)
    → OrderedFrom b m
    → ((u v : ℕ) → b ≤ u → 1 ≤ occurs v (row u m) → marked u visited ≡ false)
    → Unmarked visited m
Unmarked-rows visited b [] o f = tt
Unmarked-rows visited b ((u, objs) ∷ m) (low, o) f = (
  λ v. elim (Bool-cases (occurs v objs == 0)) [
    | inl e ↦ ground arith
    | inr e ↦ rw (f u v low (rw (row-first u objs m) (ground arith))) refl
  ],
  Unmarked-rows visited (suc u) m o
      (λ w v above some_edge. f w v (omega arith) (rw (row-later u w objs m above) some_edge)),
)

-- An edge from an entity that is not marked is counted.
pub incoming-edge :
    (visited : List Bool) (u b : ℕ) (m : Adjacency) (v : ℕ)
    → OrderedFrom b m
    → marked u visited ≡ false
    → Memᴰ v (neighbours m u)
    → 1 ≤ incoming visited m v
incoming-edge visited u b m v o free here =
    let some_edge = (occurs_iff v (row u m)).1 (neighbours-row m u v here) in
    omega (arith, incoming-mark visited u b m v o free, some_edge)

-- What is counted is an edge from an entity that is not marked.
pub incoming-source :
    (visited : List Bool) (b : ℕ) (m : Adjacency) (v : ℕ)
    → OrderedFrom b m
    → 1 ≤ incoming visited m v
    → (u : ℕ) × (b ≤ u) × (marked u visited ≡ false) × (1 ≤ occurs v (row u m))
unfolding incoming
incoming-source visited b [] v o h = absurd (omega arith)
incoming-source visited b ((u, objs) ∷ m) v (low, o) h = elim (Bool-cases (marked u visited)) [
  | inl e ↦
      let (w, above, free, some_edge) = incoming-source visited (suc u) m v o (ground arith) in
      (w, omega arith, free, rw (row-later u w objs m above) some_edge)
  | inr e ↦ elim (Bool-cases (occurs v objs == 0)) [
    | inl none_here ↦
        let (w, above, free, some_edge) = incoming-source visited (suc u) m v o (ground arith) in
        (w, omega arith, free, rw (row-later u w objs m above) some_edge)
    | inr some_here ↦ (u, low, e, rw (row-first u objs m) (ground arith))
  ]
]
