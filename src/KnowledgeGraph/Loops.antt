-- ===== src/KnowledgeGraph/Loops.antt =====
-- The loops of the searches of graph.rs end, and what they return.
use mathlib.Core.List.Memᴰ
use flare_verifiable_rag.Prelude.{
  ℕ, zero, suc, ◌+◌, ◌<◌, ◌≤◌, ◌≡◌, ◌≢◌, ◌↔◌, inl, inr, refl, sym, ◌∙◌, subst, Bool, true, Option,
  none, some, List, [], ◌∷◌, ◌++◌, length, length-append, ◌==◌, Bool-cases, Option-cases, arith,
  Memᴰ,
}
use flare_verifiable_rag.KnowledgeGraph.{Adjacency}
use flare_verifiable_rag.KnowledgeGraph.Search.{
  all_false, mark, marked, discover, neighbours, search_loop, search, reach_loop,
}
use flare_verifiable_rag.KnowledgeGraph.Marks.{
  unmarked, unmarked-discover, length-discover, discover-pushed, length-mark, length-all_false,
}
use flare_verifiable_rag.KnowledgeGraph.Reach.{
  Reaches, InRange, Live, Searching, Live-discover, Live-pushed, Live-cases, round-Searching,
  start-Searching, finished-Searching, start_fuel, only-marked,
}

-- What a round needs of the fuel.
round_fuel :
    (fuel v : ℕ) (os : List ℕ) (visited : List Bool) (queue : List ℕ)
    → unmarked visited + length (v ∷ queue) ≤ suc fuel
    → unmarked (discover os visited).0 + length (queue ++ (discover os visited).1) ≤ fuel
round_fuel fuel v os visited queue h =
    omega (arith, unmarked-discover os visited, length-append queue (discover os visited).1)

-- What was found so far is what is marked, less the origin.
abbrev Collected : ℕ → List Bool → List ℕ → Type 0
Collected src visited out = (v : ℕ) → Memᴰ v out ↔ Live visited v × (v ≢ src)

round-Collected :
    (src : ℕ) (os : List ℕ) (visited : List Bool) (out : List ℕ)
    → Live visited src
    → Collected src visited out
    → Collected src (discover os visited).0 (out ++ (discover os visited).1)
round-Collected src os visited out origin c v = (
  λ here. elim (Memᴰ.append_cases out here) [
    | inl old ↦ let (live, other) = (c v).0 old in (Live-discover os visited v live, other)
    | inr fresh ↦ (
      Live-pushed os visited v fresh,
      λ same.
          let before = ((discover-pushed os visited v).0 fresh).0 in
          absurd (ground (arith, before, subst (λ x. marked x visited ≡ true) (sym same) origin.1)),
    )
  ],
  λ (live, other). elim (Live-cases os visited v live) [
    | inl old ↦ Memᴰ.append_left (discover os visited).1 ((c v).1 (old, other))
    | inr fresh ↦ Memᴰ.append_right out fresh
  ],
)

abbrev Found : Adjacency → ℕ → Option (List ℕ) → Type 0
Found m src none = ⊥
Found m src (some out) = (v : ℕ) → Memᴰ v out ↔ Reaches m src v × (v ≢ src)

search_loop-Found :
    (fuel : ℕ) (m : Adjacency) (src n : ℕ) (visited : List Bool) (queue out : List ℕ)
    → InRange m n
    → length visited ≡ n
    → unmarked visited + length queue ≤ fuel
    → Searching m src visited queue
    → Collected src visited out
    → Found m src (search_loop fuel m visited queue out)
unfolding search_loop
search_loop-Found fuel m src n visited [] out range size h s c = λ v.
    let done = finished-Searching m src visited (subst (InRange m) (sym size) range) s v in
    (
      λ here. let (live, other) = (c v).0 here in (done.1 live, other),
      λ (r, other). (c v).1 (done.0 r, other),
    )
search_loop-Found zero m src n visited (v ∷ queue) out range size h s c = absurd (omega arith)
search_loop-Found (suc fuel) m src n visited (v ∷ queue) out range size h s c =
    let os = neighbours m v in
    search_loop-Found fuel m src n (discover os visited).0 (queue ++ (discover os visited).1)
      (out ++ (discover os visited).1) range (length-discover os visited ∙ size)
      (round_fuel fuel v os visited queue h) (round-Searching m src v visited queue s)
      (round-Collected src os visited out s.origin c)

start-Collected : (n src : ℕ) → Collected src (mark src (all_false n)) []
start-Collected n src v = (
  λ here. absurd (Memᴰ.not-nil here),
  λ ((below, mk), other). absurd (
      other (
        only-marked n src v
          (subst (λ k. v < k) (length-mark src (all_false n) ∙ length-all_false n) below) mk)),
)

search-Found :
    (m : Adjacency) (n src : ℕ)
    → InRange m n
    → src < n
    → Found m src (search_loop n m (mark src (all_false n)) (src ∷ []) [])
search-Found m n src range h =
    search_loop-Found n m src n (mark src (all_false n)) (src ∷ []) [] range
      (length-mark src (all_false n) ∙ length-all_false n) (start_fuel n src h)
      (start-Searching m n src h) (start-Collected n src)

-- With the number of entities for fuel the search ends, with what `search` returns.
pub search_terminates :
    (m : Adjacency) (n src : ℕ)
    → InRange m n
    → src < n
    → search_loop n m (mark src (all_false n)) (src ∷ []) [] ≡ some (search m n src)
unfolding search
search_terminates m n src range h =
    elim (Option-cases (search_loop n m (mark src (all_false n)) (src ∷ []) [])) [
      | inl out ↦ absurd (subst (Found m src) out (search-Found m n src range h))
      | inr (r, e) ↦ rw (e) (ground arith)
    ]

-- A search returns exactly the other entities that the edges lead to.
pub search_correct :
    (m : Adjacency) (n src : ℕ)
    → InRange m n
    → src < n
    → (v : ℕ) → Memᴰ v (search m n src) ↔ Reaches m src v × (v ≢ src)
search_correct m n src range h =
    subst (Found m src) (search_terminates m n src range h) (search-Found m n src range h)

abbrev pub Answers : Adjacency → ℕ → ℕ → Option Bool → Type 0
Answers m src to none = ⊥
Answers m src to (some b) = (b ≡ true) ↔ Reaches m src to

reach_loop-Answers :
    (fuel : ℕ) (m : Adjacency) (src to n : ℕ) (visited : List Bool) (queue : List ℕ)
    → InRange m n
    → length visited ≡ n
    → unmarked visited + length queue ≤ fuel
    → Searching m src visited queue
    → (Live visited to → Memᴰ to queue)
    → Answers m src to (reach_loop fuel m to visited queue)
unfolding reach_loop
reach_loop-Answers fuel m src to n visited [] range size h s c =
    let done = finished-Searching m src visited (subst (InRange m) (sym size) range) s to in
    (λ e. cc, λ r. absurd (Memᴰ.not-nil (c (done.0 r))))
reach_loop-Answers zero m src to n visited (v ∷ queue) range size h s c = absurd (omega arith)
reach_loop-Answers (suc fuel) m src to n visited (v ∷ queue) range size h s c =
    let os = neighbours m v in
    let pushed = (discover os visited).1 in
    elim (Bool-cases (v == to)) [
      | inl e ↦
          let same : v ≡ to = ground arith in
          rw e (
            λ t. subst (Reaches m src) same (s.reached v (s.waiting v (Memᴰ.head refl))),
            λ r. refl,
          )
      | inr e ↦ rw e (
          reach_loop-Answers fuel m src to n (discover os visited).0 (queue ++ pushed) range
            (length-discover os visited ∙ size) (round_fuel fuel v os visited queue h)
            (round-Searching m src v visited queue s)
            (λ live. elim (Live-cases os visited to live) [
              | inr fresh ↦ Memᴰ.append_right queue fresh
              | inl old ↦ elim (Memᴰ.cases_cons (c old)) [
                | inl same ↦ absurd (ground arith)
                | inr later ↦ Memᴰ.append_left pushed later
              ]
            ]))
    ]

pub reach-Answers :
    (m : Adjacency) (n src to : ℕ)
    → InRange m n
    → src < n
    → Answers m src to (reach_loop n m to (mark src (all_false n)) (src ∷ []))
reach-Answers m n src to range h =
    reach_loop-Answers n m src to n (mark src (all_false n)) (src ∷ []) range
      (length-mark src (all_false n) ∙ length-all_false n) (start_fuel n src h)
      (start-Searching m n src h)
      (λ (below, mk). Memᴰ.head (
        only-marked n src to
          (subst (λ k. to < k) (length-mark src (all_false n) ∙ length-all_false n) below) mk))
