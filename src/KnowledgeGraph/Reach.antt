-- ===== src/KnowledgeGraph/Reach.antt =====
-- The searches of graph.rs return exactly the entities that the edges lead to.
use mathlib.Core.List.Memᴰ
use flare_verifiable_rag.Prelude.{
  ℕ, ◌+◌, ◌<◌, ◌≤◌, ◌≡◌, ◌↔◌, ◌⊎◌, inl, inr, refl, sym, ◌∙◌, subst, Bool, true, List, [], ◌∷◌, ◌++◌,
  length, Bool-cases, arith, Memᴰ,
}
use flare_verifiable_rag.KnowledgeGraph.{Adjacency}
use flare_verifiable_rag.KnowledgeGraph.Search.{all_false, mark, marked, discover, neighbours}
use flare_verifiable_rag.KnowledgeGraph.Marks.{
  unmarked, marked-mark, unmarked-mark, marked-all_false, unmarked-all_false, length-all_false,
  length-mark, length-discover, discover-keeps, discover-row, discover-pushed, discover-subset,
  marked-lt,
}

-- The entities to which edges lead from `src`.
pub data Reaches (m : Adjacency) (src : ℕ) : ℕ → Type 0 where
  start : Reaches m src src
  onward : {u v : ℕ} → Reaches m src u → Memᴰ v (neighbours m u) → Reaches m src v

-- Every edge ends at one of the `n` entities.
abbrev pub InRange : Adjacency → ℕ → Type 0
InRange m n = (u v : ℕ) → Memᴰ v (neighbours m u) → v < n

-- The entity is there and marked.
abbrev pub Live : List Bool → ℕ → Type 0
Live visited v = (v < length visited) × (marked v visited ≡ true)

-- Between two rounds of a search from `src`: what is marked is reached, what waits is marked, and
-- what is marked waits or has all its neighbours marked.
pub record Searching (m : Adjacency) (src : ℕ) (visited : List Bool) (queue : List ℕ) : Type 0 where
  pub reached : (v : ℕ) → Live visited v → Reaches m src v
  pub waiting : (v : ℕ) → Memᴰ v queue → Live visited v
  pub closed :
      (v : ℕ)
      → Live visited v
      → Memᴰ v queue ⊎ ((w : ℕ) → Memᴰ w (neighbours m v) → marked w visited ≡ true)
  pub origin : Live visited src

pub Live-discover :
    (os : List ℕ) (visited : List Bool) (v : ℕ) → Live visited v → Live (discover os visited).0 v
Live-discover os visited v (below, h) =
    (subst (λ k. v < k) (sym (length-discover os visited)) below, discover-keeps os visited v h)

pub Live-pushed :
    (os : List ℕ) (visited : List Bool) (v : ℕ)
    → Memᴰ v (discover os visited).1
    → Live (discover os visited).0 v
Live-pushed os visited v here =
    let (before, after) = (discover-pushed os visited v).0 here in
    (subst (λ k. v < k) (sym (length-discover os visited)) (marked-lt v visited before), after)

pub Live-cases :
    (os : List ℕ) (visited : List Bool) (v : ℕ)
    → Live (discover os visited).0 v
    → Live visited v ⊎ Memᴰ v (discover os visited).1
Live-cases os visited v (below, h) = elim (Bool-cases (marked v visited)) [
  | inl old ↦ inl (subst (λ k. v < k) (length-discover os visited) below, old)
  | inr fresh ↦ inr ((discover-pushed os visited v).1 (fresh, h))
]

pub round-Searching :
    (m : Adjacency) (src v : ℕ) (visited : List Bool) (queue : List ℕ)
    → Searching m src visited (v ∷ queue)
    → Searching m src
        (discover (neighbours m v) visited).0
        (queue ++ (discover (neighbours m v) visited).1)
round-Searching m src v visited queue s =
    let os = neighbours m v in
    let pushed = (discover os visited).1 in
    let taken = s.waiting v (Memᴰ.head refl) in
    record {
      reached = λ w live. elim (Live-cases os visited w live) [
        | inl old ↦ s.reached w old
        | inr fresh ↦ onward (s.reached v taken) (discover-subset os visited w fresh)
      ];
      waiting = λ w here. elim (Memᴰ.append_cases queue here) [
        | inl old ↦ Live-discover os visited w (s.waiting w (Memᴰ.tail old))
        | inr fresh ↦ Live-pushed os visited w fresh
      ];
      closed = λ w live. elim (Live-cases os visited w live) [
        | inr fresh ↦ inl (Memᴰ.append_right queue fresh)
        | inl old ↦ elim (s.closed w old) [
          | inr done ↦ inr (λ u here. discover-keeps os visited u (done u here))
          | inl here ↦ elim (Memᴰ.cases_cons here) [
            | inl same ↦ inr (λ u next.
                discover-row os visited u (subst (λ x. Memᴰ u (neighbours m x)) same next))
            | inr later ↦ inl (Memᴰ.append_left pushed later)
          ]
        ]
      ];
      origin = Live-discover os visited src s.origin;
    }

pub only-marked : (n src v : ℕ) → v < n → marked v (mark src (all_false n)) ≡ true → v ≡ src
only-marked n src v below mk =
    ground (arith, sym (marked-mark src v (all_false n)) ∙ mk, marked-all_false n v below)

pub start_fuel : (n src : ℕ) → src < n → unmarked (mark src (all_false n)) + length (src ∷ []) ≤ n
start_fuel n src h =
    omega (arith, unmarked-mark src (all_false n) (marked-all_false n src h), unmarked-all_false n)

pub start-Searching :
    (m : Adjacency) (n src : ℕ) → src < n → Searching m src (mark src (all_false n)) (src ∷ [])
start-Searching m n src h =
    let live : Live (mark src (all_false n)) src = (
      rw (length-mark src (all_false n), length-all_false n) h,
      rw (marked-mark src src (all_false n)) (ground arith),
    ) in
    let only : (v : ℕ) → Live (mark src (all_false n)) v → v ≡ src = λ v (below, mk).
      only-marked n src v
        (subst (λ k. v < k) (length-mark src (all_false n) ∙ length-all_false n) below) mk in
    record {
      reached = λ v l. subst (Reaches m src) (sym (only v l)) start;
      waiting =
          λ v here. subst (Live (mark src (all_false n))) (sym (Memᴰ.eq_of_singleton here)) live;
      closed = λ v l. inl (Memᴰ.head (only v l));
      origin = live;
    }

reached-Live :
    (m : Adjacency) (src : ℕ) (visited : List Bool)
    → InRange m (length visited)
    → Searching m src visited []
    → (v : ℕ) → Reaches m src v
    → Live visited v
reached-Live m src visited range s v start = s.origin
reached-Live m src visited range s v (onward {u} r next) =
    elim (s.closed u (reached-Live m src visited range s u r)) [
      | inl here ↦ absurd (Memᴰ.not-nil here)
      | inr done ↦ (range u v next, done v next)
    ]

-- Once nothing waits, what is marked is all that is reached.
pub finished-Searching :
    (m : Adjacency) (src : ℕ) (visited : List Bool)
    → InRange m (length visited)
    → Searching m src visited []
    → (v : ℕ) → Reaches m src v ↔ Live visited v
finished-Searching m src visited range s v = (reached-Live m src visited range s v, s.reached v)
