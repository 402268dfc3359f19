-- ===== src/KnowledgeGraph/Traced.antt =====
-- What the loop of `find_path` in graph.rs has found between two rounds.
use mathlib.Core.List.Memᴰ
use mathlib.Core.List.{map-append}
use flare_verifiable_rag.Prelude.{
  ℕ, zero, suc, ◌+◌, ◌≤◌, ◌≡◌, ◌↔◌, ◌⊎◌, inl, inr, refl, sym, ap, ◌∙◌, subst, Bool, List, [], ◌∷◌,
  ◌++◌, map, length, length-map, length-append, arith, Memᴰ, Option, some,
}
use flare_verifiable_rag.KnowledgeGraph.{Adjacency, Relation}
use flare_verifiable_rag.KnowledgeGraph.Search.{discover}
use flare_verifiable_rag.KnowledgeGraph.Marks.{unmarked, unmarked-discover, length-discover}
use flare_verifiable_rag.KnowledgeGraph.Reach.{
  Live, Searching, Reaches, InRange, Live-discover, Live-pushed, Live-cases, round-Searching,
  finished-Searching,
}
use flare_verifiable_rag.KnowledgeGraph.Evidence.{
  labelled, Reached, Evidence, at_depth, evidence, path_loop,
}
use flare_verifiable_rag.KnowledgeGraph.Labelled.{keep, neighbours-keep}

abbrev pub ids : List Reached → List ℕ
ids xs = map (λ x. x.0) xs

abbrev pub facts : List Evidence → List Relation
facts xs = map (λ x. x.0) xs

ids-at_depth : (d : ℕ) (vs : List ℕ) → ids (map (at_depth d) vs) ≡ vs
ids-at_depth d [] = refl
ids-at_depth d (v ∷ vs) = ap (λ x. v ∷ x) (ids-at_depth d vs)

ids-queue :
    (queue : List Reached) (d : ℕ) (pushed : List ℕ)
    → ids (queue ++ map (at_depth d) pushed) ≡ ids queue ++ pushed
ids-queue queue d pushed =
    map-append (λ x. x.0) queue (map (at_depth d) pushed)
    ∙ ap (λ x. ids queue ++ x) (ids-at_depth d pushed)

Memᴰ-evidence :
    (v : ℕ) (p : List ℕ) (d : ℕ) (r : Relation) (os : List ℕ)
    → Memᴰ r (facts (map (evidence v p d) os))
      ↔ (r.subject ≡ v) × (r.predicate ≡ p) × Memᴰ r.object os
Memᴰ-evidence v p d r [] =
    (λ here. absurd (Memᴰ.not-nil here), λ (a, b, here). absurd (Memᴰ.not-nil here))
Memᴰ-evidence v p d r (o ∷ os) =
    let ih = Memᴰ-evidence v p d r os in
    (
      λ here. elim (Memᴰ.cases_cons here) [
        | inl same ↦ (
          ap (λ x. x.subject) same,
          ap (λ x. x.predicate) same,
          Memᴰ.head (ap (λ x. x.object) same),
        )
        | inr later ↦ let (a, b, there) = ih.0 later in (a, b, Memᴰ.tail there)
      ],
      λ (a, b, here). elim (Memᴰ.cases_cons here) [
        | inl same ↦ Memᴰ.head (λ i. record { subject = a i; predicate = b i; object = same i })
        | inr later ↦ Memᴰ.tail (ih.1 (a, b, later))
      ],
    )

-- Between two rounds: the entities that are marked are those found and those that wait, and the
-- relations are those with the predicate that leave an entity found.
pub record Tracing (m : Adjacency) (p : List ℕ) (src : ℕ) (visited : List Bool)
    (queue found : List Reached) (edges : List Evidence) : Type 0 where
  pub searching : Searching (keep p m) src visited (ids queue)
  pub seen : (v : ℕ) → Live visited v ↔ Memᴰ v (ids found) ⊎ Memᴰ v (ids queue)
  pub traced :
      (r : Relation)
      → Memᴰ r (facts edges)
        ↔ (r.predicate ≡ p) × Memᴰ r.object (labelled p m r.subject) × Memᴰ r.subject (ids found)

module _ (m : Adjacency) (p : List ℕ) (src : ℕ) where
  labelled-Searching :
      (v d : ℕ) (visited : List Bool) (queue : List Reached)
      → Searching (keep p m) src visited (v ∷ ids queue)
      → Searching
          (keep p m)
          src
          (discover (labelled p m v) visited).0
          (ids (queue ++ map (at_depth d) (discover (labelled p m v) visited).1))
  labelled-Searching v d visited queue s =
      let next = round-Searching (keep p m) src v visited (ids queue) s in
      let moved =
        subst
          (λ os.
            Searching (keep p m) src (discover os visited).0 (ids queue ++ (discover os visited).1))
          (neighbours-keep p m v) next in
      subst (Searching (keep p m) src (discover (labelled p m v) visited).0)
        (sym (ids-queue queue d (discover (labelled p m v) visited).1)) moved

  round-seen :
      (v d : ℕ) (visited : List Bool) (queue found : List Reached)
      → ((w : ℕ) → Live visited w ↔ Memᴰ w (ids found) ⊎ Memᴰ w (v ∷ ids queue))
      → (os : List ℕ) (w : ℕ)
      → Live (discover os visited).0 w
        ↔ Memᴰ w (ids (found ++ (v, d) ∷ []))
          ⊎ Memᴰ w (ids (queue ++ map (at_depth (d + 1)) (discover os visited).1))
  round-seen v d visited queue found seen os w =
      rw
        (map-append (λ x. x.0) found ((v, d) ∷ []), ids-queue queue (d + 1) (discover os visited).1)
        (
          λ live. elim (Live-cases os visited w live) [
            | inr fresh ↦ inr (Memᴰ.append_right (ids queue) fresh)
            | inl old ↦ elim ((seen w).0 old) [
              | inl there ↦ inl (Memᴰ.append_left (v ∷ []) there)
              | inr there ↦ elim (Memᴰ.cases_cons there) [
                | inl same ↦ inl (Memᴰ.append_right (ids found) (Memᴰ.head same))
                | inr later ↦ inr (Memᴰ.append_left (discover os visited).1 later)
              ]
            ]
          ],
          λ c. elim c [
            | inl here ↦ elim (Memᴰ.append_cases (ids found) here) [
              | inl there ↦ Live-discover os visited w ((seen w).1 (inl there))
              | inr there ↦
                  Live-discover os visited w
                    ((seen w).1 (inr (Memᴰ.head (Memᴰ.eq_of_singleton there))))
            ]
            | inr here ↦ elim (Memᴰ.append_cases (ids queue) here) [
              | inl there ↦ Live-discover os visited w ((seen w).1 (inr (Memᴰ.tail there)))
              | inr there ↦ Live-pushed os visited w there
            ]
          ],
        )

  round-traced :
      (v d : ℕ) (found : List Reached) (edges : List Evidence)
      → ((r : Relation)
          → Memᴰ r (facts edges)
            ↔ (r.predicate ≡ p)
              × Memᴰ r.object (labelled p m r.subject)
              × Memᴰ r.subject (ids found))
      → (r : Relation)
      → Memᴰ r (facts (edges ++ map (evidence v p d) (labelled p m v)))
        ↔ (r.predicate ≡ p)
          × Memᴰ r.object (labelled p m r.subject)
          × Memᴰ r.subject (ids (found ++ (v, d) ∷ []))
  round-traced v d found edges traced r =
      let news = Memᴰ-evidence v p d r (labelled p m v) in
      rw
        (
          map-append (λ x. x.0) edges (map (evidence v p d) (labelled p m v)),
          map-append (λ x. x.0) found ((v, d) ∷ []),
        )
        (
          λ here. elim (Memᴰ.append_cases (facts edges) here) [
            | inl old ↦ let (a, b, c) = (traced r).0 old in (a, b, Memᴰ.append_left (v ∷ []) c)
            | inr fresh ↦
                let (a, b, c) = news.0 fresh in
                (
                  b,
                  subst (λ u. Memᴰ r.object (labelled p m u)) (sym a) c,
                  Memᴰ.append_right (ids found) (Memᴰ.head a),
                )
          ],
          λ (b, c, there). elim (Memᴰ.append_cases (ids found) there) [
            | inl old ↦
                Memᴰ.append_left (facts (map (evidence v p d) (labelled p m v)))
                  ((traced r).1 (b, c, old))
            | inr last ↦
                let a = Memᴰ.eq_of_singleton last in
                Memᴰ.append_right (facts edges)
                  (news.1 (a, b, subst (λ u. Memᴰ r.object (labelled p m u)) a c))
          ],
        )

  -- What the loop returns.
  pub record Traced (result : Option (List Reached × List Evidence)) : Type 0 where
    pub found : List Reached
    pub edges : List Evidence
    pub returned : result ≡ some (found, edges)
    pub entities_found : (v : ℕ) → Memᴰ v (ids found) ↔ Reaches (keep p m) src v
    pub relations_found :
        (r : Relation)
        → Memᴰ r (facts edges)
          ↔ (r.predicate ≡ p)
            × Memᴰ r.object (labelled p m r.subject)
            × Reaches (keep p m) src r.subject

  pub path_loop-Traced :
      (fuel n : ℕ) (visited : List Bool) (queue found : List Reached) (edges : List Evidence)
      → InRange (keep p m) n
      → length visited ≡ n
      → unmarked visited + length queue ≤ fuel
      → Tracing m p src visited queue found edges
      → Traced (path_loop fuel m p visited queue found edges)
  unfolding path_loop
  path_loop-Traced fuel n visited [] found edges range size h s =
      let done =
        finished-Searching (keep p m) src visited (subst (InRange (keep p m)) (sym size) range)
          s.searching in
      let all_found : (v : ℕ) → Memᴰ v (ids found) ↔ Reaches (keep p m) src v = λ v. (
        λ here. (done v).1 ((s.seen v).1 (inl here)),
        λ r. elim ((s.seen v).0 ((done v).0 r)) [
          | inl there ↦ there
          | inr none_there ↦ absurd (Memᴰ.not-nil none_there)
        ],
      ) in
      record {
        found = found;
        edges = edges;
        returned = refl;
        entities_found = all_found;
        relations_found = λ r. (
          λ here. let (a, b, c) = (s.traced r).0 here in (a, b, (all_found r.subject).0 c),
          λ (a, b, c). (s.traced r).1 (a, b, (all_found r.subject).1 c),
        );
      }
  path_loop-Traced zero n visited (x ∷ queue) found edges range size h s = absurd (omega arith)
  path_loop-Traced (suc fuel) n visited ((v, d) ∷ queue) found edges range size h s =
      let os = labelled p m v in
      let pushed = (discover os visited).1 in
      path_loop-Traced fuel n (discover os visited).0 (queue ++ map (at_depth (d + 1)) pushed)
        (found ++ (v, d) ∷ []) (edges ++ map (evidence v p d) os) range
        (length-discover os visited ∙ size)
        (omega (
          arith,
          unmarked-discover os visited,
          length-append queue (map (at_depth (d + 1)) pushed),
          length-map (at_depth (d + 1)) pushed,
        ))
        (record {
          searching = labelled-Searching v (d + 1) visited queue s.searching;
          seen = round-seen v d visited queue found s.seen os;
          traced = round-traced v d found edges s.traced;
        })
