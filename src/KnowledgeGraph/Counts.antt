-- ===== src/KnowledgeGraph/Counts.antt =====
-- The counts of incoming edges in `rebuild_ranks` of graph.rs.
use flare_verifiable_rag.Prelude.{
  ℕ, zero, suc, ◌+◌, ◌<◌, ◌≡◌, refl, ap, ◌∙◌, Bool, false, List, [], ◌∷◌, length, get_elem?, ◌==◌,
  if◌then◌else◌, arith,
}
use flare_verifiable_rag.KnowledgeGraph.{Adjacency, Row}
use flare_verifiable_rag.KnowledgeGraph.Search.{marked}
use flare_verifiable_rag.KnowledgeGraph.Ranks.{
  zeros, set_at, increment, is_nil, count_row, count_rows,
}
use flare_verifiable_rag.KnowledgeGraph.Relations.{rank_of}

-- How often a key occurs in a row.
unfoldable pub occurs : ℕ → Row → ℕ
occurs v [] = 0
occurs v ((o, ps) ∷ objs) = (if v == o then 1 else 0) + occurs v objs

-- How many entities that are not marked have an edge to `v`.
unfoldable pub incoming : List Bool → Adjacency → ℕ → ℕ
unfolding occurs
incoming visited [] v = 0
incoming visited ((u, objs) ∷ m) v =
    (if marked u visited then 0 else occurs v objs) + incoming visited m v

-- No entry of the row is without a predicate.
abbrev pub Filled : Row → Type 0
Filled [] = Unit
Filled ((o, ps) ∷ objs) = (is_nil ps ≡ false) × Filled objs

abbrev pub AllFilled : Adjacency → Type 0
AllFilled [] = Unit
AllFilled ((u, objs) ∷ m) = Filled objs × AllFilled m

abbrev pub at : ℕ → List ℕ → ℕ
at i xs = rank_of (get_elem? xs i)

pub length-increment : (i : ℕ) (xs : List ℕ) → length (increment i xs) ≡ length xs
unfolding increment
length-increment i [] = refl
length-increment zero (x ∷ xs) = refl
length-increment (suc i) (x ∷ xs) = ap suc (length-increment i xs)

at-increment :
    (i j : ℕ) (xs : List ℕ)
    → j < length xs
    → at j (increment i xs) ≡ at j xs + (if j == i then 1 else 0)
unfolding increment
at-increment i j [] h = absurd (omega arith)
at-increment zero zero (x ∷ xs) h = omega arith
at-increment zero (suc j) (x ∷ xs) h = ground arith
at-increment (suc i) zero (x ∷ xs) h = ground arith
at-increment (suc i) (suc j) (x ∷ xs) h = ground (arith, at-increment i j xs (omega arith))

pub length-set_at : (i x : ℕ) (xs : List ℕ) → length (set_at i x xs) ≡ length xs
unfolding set_at
length-set_at i x [] = refl
length-set_at zero x (y ∷ ys) = refl
length-set_at (suc i) x (y ∷ ys) = ap suc (length-set_at i x ys)

pub at-set_at :
    (i x j : ℕ) (xs : List ℕ)
    → i < length xs
    → at j (set_at i x xs) ≡ (if j == i then x else at j xs)
unfolding set_at
at-set_at i x j [] h = absurd (omega arith)
at-set_at zero x zero (y ∷ ys) h = refl
at-set_at zero x (suc j) (y ∷ ys) h = ground arith
at-set_at (suc i) x zero (y ∷ ys) h = ground arith
at-set_at (suc i) x (suc j) (y ∷ ys) h = ground (arith, at-set_at i x j ys (omega arith))

length-count_row : (objs : Row) (xs : List ℕ) → Filled objs → length (count_row objs xs) ≡ length xs
unfolding count_row
length-count_row [] xs f = refl
length-count_row ((o, ps) ∷ objs) xs (here, f) =
    rw here (length-count_row objs (increment o xs) f ∙ length-increment o xs)

at-count_row :
    (objs : Row) (v : ℕ) (xs : List ℕ)
    → Filled objs
    → v < length xs
    → at v (count_row objs xs) ≡ at v xs + occurs v objs
unfolding count_row occurs
at-count_row [] v xs f h = omega arith
at-count_row ((o, ps) ∷ objs) v xs (here, f) h = rw here (
    omega (
      arith,
      at-count_row objs v (increment o xs) f (omega (arith, length-increment o xs)),
      at-increment o v xs h,
    ))

pub length-count_rows :
    (m : Adjacency) (xs : List ℕ) → AllFilled m → length (count_rows m xs) ≡ length xs
unfolding count_rows
length-count_rows [] xs f = refl
length-count_rows ((u, objs) ∷ m) xs (here, f) =
    length-count_rows m (count_row objs xs) f ∙ length-count_row objs xs here

-- All edges are counted.
abbrev pub Unmarked : List Bool → Adjacency → Type 0
Unmarked visited [] = Unit
Unmarked visited ((u, objs) ∷ m) =
    ((v : ℕ) → (if marked u visited then 0 else occurs v objs) ≡ occurs v objs) × Unmarked visited m

at-count_rows :
    (m : Adjacency) (visited : List Bool) (v : ℕ) (xs : List ℕ)
    → AllFilled m
    → Unmarked visited m
    → v < length xs
    → at v (count_rows m xs) ≡ at v xs + incoming visited m v
unfolding count_rows incoming
at-count_rows [] visited v xs f n h = omega arith
at-count_rows ((u, objs) ∷ m) visited v xs (here, f) (free, n) h = rw (free v) (
    omega (
      arith,
      at-count_rows m visited v (count_row objs xs) f n
          (omega (arith, length-count_row objs xs here)),
      at-count_row objs v xs here h,
    ))

pub length-zeros : (n : ℕ) → length (zeros n) ≡ n
unfolding zeros
length-zeros zero = refl
length-zeros (suc n) = ap suc (length-zeros n)

at-zeros : (n v : ℕ) → at v (zeros n) ≡ 0
unfolding zeros
at-zeros zero v = refl
at-zeros (suc n) zero = refl
at-zeros (suc n) (suc v) = at-zeros n v

-- The counts at the start are the edges into each entity.
pub at-in_degrees :
    (m : Adjacency) (visited : List Bool) (n v : ℕ)
    → AllFilled m
    → Unmarked visited m
    → v < n
    → at v (count_rows m (zeros n)) ≡ incoming visited m v
at-in_degrees m visited n v f u h =
    omega
      (arith, at-count_rows m visited v (zeros n) f u (omega (arith, length-zeros n)), at-zeros n v)
