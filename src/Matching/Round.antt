-- ===== src/Matching/Round.antt =====
-- One round of the inner loop of `match_graph` in lib.rs: when an edge is reported.
use mathlib.Core.List.Memᴰ
use flare_verifiable_rag.Prelude.{
  ℕ, ◌≡◌, ◌⊎◌, ◌↔◌, inl, inr, refl, sym, Bool, true, ◌&&◌, Option, none, some, List, [], ◌∷◌, ◌++◌,
  text_eq_iff, Memᴰ, arith, Bool-cases, get_elem?, append-nil,
}
use flare_verifiable_rag.TokenGraph.{Node, Edge, DocumentAst, node}
use flare_verifiable_rag.Matching.{PatternTriple, GraphMatch, accepts, match_of, resolved}

-- The text is the wanted one, or any is wanted.
abbrev pub Accepts : List ℕ → List ℕ → Type 0
Accepts wanted text = (wanted ≡ b'*' ∷ []) ⊎ (text ≡ wanted)

-- The edge joins nodes of the graph, it and they have the texts that the triple asks for, and `m`
-- reports it with its subject's span.
pub record Describes (g : DocumentAst) (t : PatternTriple) (e : Edge) (m : GraphMatch)
    : Type 0 where
  pub subject : Node
  pub object : Node
  pub subject_at : get_elem? g.nodes e.subject ≡ some subject
  pub object_at : get_elem? g.nodes e.object ≡ some object
  pub subject_fits : Accepts t.subject subject.text
  pub predicate_fits : Accepts t.predicate e.predicate
  pub object_fits : Accepts t.object object.text
  pub reported : m ≡ match_of e subject

accepts_iff : (wanted text : List ℕ) → (accepts wanted text ≡ true) ↔ Accepts wanted text
unfolding accepts
accepts_iff wanted text = ground (arith, text_eq_iff wanted (b'*' ∷ []), text_eq_iff text wanted)

-- The test of the inner loop.
abbrev fits : PatternTriple → Edge → Node → Node → Bool
fits t e subj obj =
    accepts t.subject subj.text && accepts t.predicate e.predicate && accepts t.object obj.text

fits_iff :
    (t : PatternTriple) (e : Edge) (subj obj : Node)
    → (fits t e subj obj ≡ true)
      ↔ (Accepts t.subject subj.text × Accepts t.predicate e.predicate × Accepts t.object obj.text)
fits_iff t e subj obj = ground (
  arith,
  accepts_iff t.subject subj.text,
  accepts_iff t.predicate e.predicate,
  accepts_iff t.object obj.text,
)

-- What the edge adds to the matches.
abbrev hits : PatternTriple → Edge → Option Node → Option Node → List GraphMatch
hits t e subj obj = resolved t e subj obj []

resolved-hits :
    (t : PatternTriple) (e : Edge) (subj obj : Option Node) (matches : List GraphMatch)
    → resolved t e subj obj matches ≡ matches ++ hits t e subj obj
unfolding resolved
resolved-hits t e (some subj) (some obj) matches = elim (Bool-cases (fits t e subj obj)) [
  | inl h ↦ rw h
  | inr h ↦ rw h (sym (append-nil matches))
]
resolved-hits t e (some subj) none matches = sym (append-nil matches)
resolved-hits t e none obj matches = sym (append-nil matches)

hit-Describes :
    (g : DocumentAst) (t : PatternTriple) (e : Edge) (subj obj : Node) (m : GraphMatch)
    → get_elem? g.nodes e.subject ≡ some subj
    → get_elem? g.nodes e.object ≡ some obj
    → Memᴰ m (hits t e (some subj) (some obj))
    → Describes g t e m
unfolding resolved
hit-Describes g t e subj obj m hs ho mem = elim (Bool-cases (fits t e subj obj)) [
  | inl h ↦
      let (fs, fp, fo) = (fits_iff t e subj obj).0 h in
      record {
        subject = subj;
        object = obj;
        subject_at = hs;
        object_at = ho;
        subject_fits = fs;
        predicate_fits = fp;
        object_fits = fo;
        reported = Memᴰ.eq_of_singleton (rw h at mem);
      }
  | inr h ↦ absurd (Memᴰ.not-nil (rw h at mem))
]

hits-Describes :
    (g : DocumentAst) (t : PatternTriple) (e : Edge) (subj obj : Option Node) (m : GraphMatch)
    → node g e.subject ≡ subj
    → node g e.object ≡ obj
    → Memᴰ m (hits t e subj obj)
    → Describes g t e m
unfolding resolved node
hits-Describes g t e (some subj) (some obj) m hs ho mem = hit-Describes g t e subj obj m hs ho mem
hits-Describes g t e (some subj) none m hs ho mem = absurd (Memᴰ.not-nil mem)
hits-Describes g t e none obj m hs ho mem = absurd (Memᴰ.not-nil mem)

Describes-hits :
    (g : DocumentAst) (t : PatternTriple) (e : Edge) (m : GraphMatch)
    → Describes g t e m
    → Memᴰ m (hits t e (node g e.subject) (node g e.object))
unfolding resolved node
Describes-hits g t e m d =
    let h = (fits_iff t e d.subject d.object).1 (d.subject_fits, d.predicate_fits, d.object_fits) in
    rw (d.subject_at, d.object_at, resolved, h) (Memᴰ.head d.reported)

-- The matches after a round of the inner loop.
abbrev pub round : DocumentAst → PatternTriple → Edge → List GraphMatch → List GraphMatch
round g t e matches = resolved t e (node g e.subject) (node g e.object) matches

module _ (g : DocumentAst) (t : PatternTriple) (m : GraphMatch) where
  pub round_cases :
      (e : Edge) (matches : List GraphMatch)
      → Memᴰ m (round g t e matches)
      → Memᴰ m matches ⊎ Describes g t e m
  round_cases e matches mem =
      let hit = resolved-hits t e (node g e.subject) (node g e.object) matches in
      elim (Memᴰ.append_cases matches (rw hit at mem)) [
        | inl old ↦ inl old
        | inr new ↦ inr (hits-Describes g t e (node g e.subject) (node g e.object) m refl refl new)
      ]

  pub round_old :
      (e : Edge) (matches : List GraphMatch) → Memᴰ m matches → Memᴰ m (round g t e matches)
  round_old e matches mem =
      rw (resolved-hits t e (node g e.subject) (node g e.object) matches) (Memᴰ.append_left _ mem)

  pub round_new :
      (e : Edge) (matches : List GraphMatch) → Describes g t e m → Memᴰ m (round g t e matches)
  round_new e matches d =
      rw (resolved-hits t e (node g e.subject) (node g e.object) matches)
        (Memᴰ.append_right matches (Describes-hits g t e m d))
