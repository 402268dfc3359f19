-- ===== src/KnowledgeGraph/Release.antt =====
-- Taking the edges of one entity off the counts, in `rebuild_ranks` of graph.rs.
use mathlib.Core.List.Memᴰ
use flare_verifiable_rag.Prelude.{
  ℕ, zero, suc, ◌+◌, ◌-◌, ◌<◌, ◌≤◌, ◌≡◌, ◌↔◌, ◌⊎◌, inl, inr, refl, sym, ap, ◌∙◌, List, [], ◌∷◌,
  length, get_elem?, ◌==◌, if◌then◌else◌, Bool-cases, Option-cases, compare-cases, arith, Memᴰ,
}
use flare_verifiable_rag.KnowledgeGraph.{Row}
use flare_verifiable_rag.KnowledgeGraph.Maps.{OrderedFrom}
use flare_verifiable_rag.KnowledgeGraph.Relations.{rank_of}
use flare_verifiable_rag.KnowledgeGraph.Ranks.{set_at, id_insert, release, release_row}
use flare_verifiable_rag.KnowledgeGraph.Counts.{occurs, Filled, at, at-set_at, length-set_at}

-- The ids grow, the first of them being `b` or more.
abbrev pub SortedFrom : ℕ → List ℕ → Type 0
SortedFrom b [] = Unit
SortedFrom b (v ∷ vs) = (b ≤ v) × SortedFrom (suc v) vs

pub id_insert-SortedFrom :
    (v b : ℕ) (vs : List ℕ) → b ≤ v → SortedFrom b vs → SortedFrom b (id_insert v vs)
unfolding id_insert
id_insert-SortedFrom v b [] h s = (h, tt)
id_insert-SortedFrom v b (w ∷ ws) h (low, s) = elim (compare-cases v w) [
  | inl (q, l) ↦ rw (q, id_insert) (h, (l, s))
  | inr (inl (q, l)) ↦ rw (q, id_insert) (low, s)
  | inr (inr (q, l)) ↦ rw (q, id_insert) (low, id_insert-SortedFrom v (suc w) ws l s)
]

Memᴰ-id_insert : (w v : ℕ) (vs : List ℕ) → Memᴰ w (id_insert v vs) ↔ (w ≡ v) ⊎ Memᴰ w vs
unfolding id_insert
Memᴰ-id_insert w v [] = (
  λ here. inl (Memᴰ.eq_of_singleton here),
  λ c. elim c [ inl e ↦ Memᴰ.head e | inr there ↦ absurd (Memᴰ.not-nil there) ],
)
Memᴰ-id_insert w v (x ∷ xs) = elim (compare-cases v x) [
  | inl (q, l) ↦
      rw (q, id_insert)
        (
          λ here. Memᴰ.cases_cons here,
          λ c. elim c [ inl e ↦ Memᴰ.head e | inr there ↦ Memᴰ.tail there ],
        )
  | inr (inl (q, l)) ↦
      rw (q, id_insert)
        (λ here. inr here, λ c. elim c [ inl e ↦ Memᴰ.head (e ∙ l) | inr there ↦ there ])
  | inr (inr (q, l)) ↦
      rw (q, id_insert)
        (
          λ here. elim (Memᴰ.cases_cons here) [
            | inl e ↦ inr (Memᴰ.head e)
            | inr later ↦ elim ((Memᴰ-id_insert w v xs).0 later) [
              | inl e ↦ inl e
              | inr there ↦ inr (Memᴰ.tail there)
            ]
          ],
          λ c. elim c [
            | inl e ↦ Memᴰ.tail ((Memᴰ-id_insert w v xs).1 (inl e))
            | inr there ↦ elim (Memᴰ.cases_cons there) [
              | inl e ↦ Memᴰ.head e
              | inr later ↦ Memᴰ.tail ((Memᴰ-id_insert w v xs).1 (inr later))
            ]
          ],
        )
]

pub SortedFrom-above : (b : ℕ) (vs : List ℕ) (w : ℕ) → SortedFrom b vs → Memᴰ w vs → b ≤ w
SortedFrom-above b [] w s here = absurd (Memᴰ.not-nil here)
SortedFrom-above b (v ∷ vs) w (low, s) here = elim (Memᴰ.cases_cons here) [
  | inl e ↦ omega arith
  | inr later ↦ omega (arith, SortedFrom-above (suc v) vs w s later)
]

pub at-lt : (i : ℕ) (xs : List ℕ) → 1 ≤ at i xs → i < length xs
at-lt i [] h = absurd (omega arith)
at-lt zero (x ∷ xs) h = omega arith
at-lt (suc i) (x ∷ xs) h = omega (arith, at-lt i xs h)

release-some :
    (o d : ℕ) (indeg ready : List ℕ)
    → at o indeg ≡ suc d
    → release o (indeg, ready) ≡ (set_at o d indeg, if d == 0 then id_insert o ready else ready)
unfolding release
release-some o d indeg ready h = elim (Option-cases (get_elem? indeg o)) [
  | inl e ↦ absurd (ground (arith, h, ap rank_of e))
  | inr (c, e) ↦ let same : c ≡ suc d = sym (ap rank_of e) ∙ h in rw (e, same, release) refl
]

-- What one release changes: the count of the entity falls by one, and the entity is ready if nothing
-- is left of it.
record Freed (o : ℕ) (before after : List ℕ × List ℕ) : Type 0 where
  sized : length after.0 ≡ length before.0
  fallen : (w : ℕ) → at w after.0 + (if w == o then 1 else 0) ≡ at w before.0
  grown : (w : ℕ) → Memᴰ w after.1 ↔ Memᴰ w before.1 ⊎ (w ≡ o) × (at w after.0 ≡ 0)
  sorted : SortedFrom 0 before.1 → SortedFrom 0 after.1

freed-grown :
    (o d : ℕ) (indeg ready : List ℕ)
    → o < length indeg
    → (w : ℕ)
    → Memᴰ w (if d == 0 then id_insert o ready else ready)
      ↔ Memᴰ w ready ⊎ (w ≡ o) × (at w (set_at o d indeg) ≡ 0)
freed-grown o d indeg ready h w = rw (at-set_at o d w indeg h) (elim (Bool-cases (d == 0)) [
  | inl e ↦ rw e (
    λ here. elim ((Memᴰ-id_insert w o ready).0 here) [
      | inl same ↦ inr (same, ground arith)
      | inr there ↦ inl there
    ],
    λ c. (Memᴰ-id_insert w o ready).1 (elim c [ inl there ↦ inr there | inr (same, _) ↦ inl same ]),
  )
  | inr e ↦ rw e (
    λ here. inl here,
    λ c. elim c [ inl there ↦ there | inr (same, none_left) ↦ absurd (ground arith) ],
  )
])

release-Freed :
    (o d : ℕ) (indeg ready : List ℕ)
    → at o indeg ≡ suc d
    → Freed o (indeg, ready) (release o (indeg, ready))
release-Freed o d indeg ready h =
    let bound = at-lt o indeg (omega arith) in
    rw (release-some o d indeg ready h) (record {
      sized = length-set_at o d indeg;
      fallen = λ w. rw (at-set_at o d w indeg bound) (ground arith);
      grown = freed-grown o d indeg ready bound;
      sorted = λ s. elim (Bool-cases (d == 0)) [
        | inl e ↦ rw e (id_insert-SortedFrom o 0 ready (omega arith) s)
        | inr e ↦ rw e s
      ];
    })

-- What the loop over a row changes.
pub record Released (objs : Row) (before after : List ℕ × List ℕ) : Type 0 where
  pub sized : length after.0 ≡ length before.0
  pub fallen : (w : ℕ) → at w after.0 + occurs w objs ≡ at w before.0
  pub grown : (w : ℕ) → Memᴰ w after.1 ↔ Memᴰ w before.1 ⊎ (1 ≤ occurs w objs) × (at w after.0 ≡ 0)
  pub sorted : SortedFrom 0 before.1 → SortedFrom 0 after.1

occurs-below : (w b : ℕ) (objs : Row) → w < b → OrderedFrom b objs → occurs w objs ≡ 0
unfolding occurs
occurs-below w b [] h o = refl
occurs-below w b ((k, ps) ∷ objs) h (low, o) =
    ground (arith, occurs-below w (suc k) objs (omega arith) o)

-- The first edge of the row, and then the others.
Released-cons :
    (k : ℕ) (ps : List (List ℕ)) (objs : Row) (before mid after : List ℕ × List ℕ)
    → occurs k objs ≡ 0
    → Freed k before mid
    → Released objs mid after
    → Released ((k, ps) ∷ objs) before after
unfolding occurs
Released-cons k ps objs before mid after single first rest = record {
  sized = rest.sized ∙ first.sized;
  fallen = λ w. omega (arith, rest.fallen w, first.fallen w);
  grown = λ w.
      let first_fallen = first.fallen w in
      let rest_fallen = rest.fallen w in
      (
        λ here. elim ((rest.grown w).0 here) [
          | inr (some_edge, none_left) ↦ inr (omega arith, none_left)
          | inl there ↦ elim ((first.grown w).0 there) [
            | inl old ↦ inl old
            | inr (same, none_left) ↦ inr (ground arith, omega arith)
          ]
        ],
        λ c. (rest.grown w).1 (elim c [
          | inl old ↦ inl ((first.grown w).1 (inl old))
          | inr (some_edge, none_left) ↦ elim (Bool-cases (w == k)) [
            | inl e ↦
                let same : w ≡ k = ground arith in
                let last : occurs w objs ≡ 0 = ap (λ x. occurs x objs) same ∙ single in
                inl ((first.grown w).1 (inr (same, omega arith)))
            | inr e ↦ inr (ground arith, none_left)
          ]
        ]),
      );
  sorted = λ s. rest.sorted (first.sorted s);
}

pub release_row-Released :
    (objs : Row) (b : ℕ) (indeg ready : List ℕ)
    → Filled objs
    → OrderedFrom b objs
    → ((w : ℕ) → occurs w objs ≤ at w indeg)
    → Released objs (indeg, ready) (release_row objs (indeg, ready))
unfolding release_row occurs
release_row-Released [] b indeg ready f o enough = record {
  sized = refl;
  fallen = λ w. omega arith;
  grown = λ w. (
    λ here. inl here,
    λ c. elim c [ inl here ↦ here | inr (some_edge, _) ↦ absurd (omega arith) ],
  );
  sorted = λ s. s;
}
release_row-Released ((k, ps) ∷ objs) b indeg ready (here, f) (low, o) enough =
    let d = at k indeg - 1 in
    let first_edge = enough k in
    let mid = release k (indeg, ready) in
    let first : Freed k (indeg, ready) mid = release-Freed k d indeg ready (ground arith) in
    let left : (w : ℕ) → occurs w objs ≤ at w mid.0 =
      λ w. omega (arith, enough w, first.fallen w) in
    rw here (
      Released-cons k ps objs (indeg, ready) mid (release_row objs mid)
        (occurs-below k (suc k) objs (omega arith) o) first
        (release_row-Released objs (suc k) mid.0 mid.1 f o left))

pub SortedFrom-weaken : (a b : ℕ) (vs : List ℕ) → a ≤ b → SortedFrom b vs → SortedFrom a vs
SortedFrom-weaken a b [] h s = tt
SortedFrom-weaken a b (v ∷ vs) h (low, s) = (omega arith, s)
