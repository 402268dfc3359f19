-- ===== src/Lexer/Correct.antt =====
-- What `tokenize` in lib.rs promises: it ends, it cuts the document into tokens without losing a
-- byte, and it fails exactly at the first byte of no class.
use flare_verifiable_rag.Prelude.{
  ℕ, ◌≡◌, sym, ap, ◌∙◌, ◌↔◌, inl, inr, true, false, List, [], ◌∷◌, ◌++◌, length, all, all-append,
  concat, map, ok, err, arith, subst, some, Result-cases, Option-cases,
}
use flare_verifiable_rag.Lexer.{Token, IndexerError, tokenize_loop, tokenize}
use flare_verifiable_rag.Lexer.Round.{is_classifiable}
use flare_verifiable_rag.Lexer.Tokenization.{
  IsTokenization, FirstFault, Outcome, tokenize_loop-Outcome, tokenize_loop_complete,
}

-- The loop over the input ends within as many rounds as the input has bytes, and its result is that
-- of `tokenize`.
pub tokenize_terminates :
    (input : List ℕ) → tokenize_loop (length input) 0 input ≡ some (tokenize input)
unfolding tokenize
tokenize_terminates input = elim (Option-cases (tokenize_loop (length input) 0 input)) [
  | inl out ↦
      absurd
        (subst (Outcome 0 input) out (tokenize_loop-Outcome (length input) 0 input (omega arith)))
  | inr (r, e) ↦ rw e
]

tokenize-Outcome : (input : List ℕ) → Outcome 0 input (some (tokenize input))
tokenize-Outcome input =
    subst (Outcome 0 input) (tokenize_terminates input)
      (tokenize_loop-Outcome (length input) 0 input (omega arith))

fault_unique :
    (before : List ℕ) (b : ℕ) (after : List ℕ) (before' : List ℕ) (b' : ℕ) (after' : List ℕ)
    → before ++ b ∷ after ≡ before' ++ b' ∷ after'
    → all is_classifiable before ≡ true
    → is_classifiable b ≡ false
    → all is_classifiable before' ≡ true
    → is_classifiable b' ≡ false
    → (length before ≡ length before') × (b ≡ b')
fault_unique [] b after [] b' after' e c f c' f' = ground arith
fault_unique [] b after (x ∷ before') b' after' e c f c' f' = ground arith
fault_unique (x ∷ before) b after [] b' after' e c f c' f' = ground arith
fault_unique (x ∷ before) b after (x' ∷ before') b' after' e c f c' f' =
    ground (arith, fault_unique before b after before' b' after')

fault-not-all :
    (input : List ℕ) (e : IndexerError) → FirstFault 0 input e → all is_classifiable input ≡ false
fault-not-all input e (before, b, after, cut, c, bad, at) =
    rw (cut, all-append is_classifiable before (b ∷ after), c, bad)

same_fault :
    (input : List ℕ) (e e' : IndexerError) → FirstFault 0 input e → FirstFault 0 input e' → e ≡ e'
same_fault input e e' (before, b, after, cut, c, bad, at)
      (before', b', after', cut', c', bad', at') =
    ground (arith, fault_unique before b after before' b' after' (sym cut ∙ cut') c bad c' bad')

-- `tokenize` returns exactly the tokenization of its input: tokens that lie end to end from the
-- first byte to the last, each spelled as its kind demands and each as long as it can be.
pub tokenize-eq-ok :
    (input : List ℕ) (ts : List Token) → (tokenize input ≡ ok ts) ↔ IsTokenization 0 input ts
tokenize-eq-ok input ts = (
  λ e. (subst (λ r. Outcome 0 input (some r)) e (tokenize-Outcome input)).0,
  λ z. ground (
    arith,
    tokenize_terminates input,
    tokenize_loop_complete (length input) 0 input ts (omega arith) z,
  ),
)

-- `tokenize` fails exactly if the input has a byte of no class, and then with the first such byte
-- and its offset.
pub tokenize-eq-err :
    (input : List ℕ) (e : IndexerError) → (tokenize input ≡ err e) ↔ FirstFault 0 input e
tokenize-eq-err input e = (
  λ h. subst (λ r. Outcome 0 input (some r)) h (tokenize-Outcome input),
  λ fault. elim (Result-cases (tokenize input)) [
    | inl (ts, h) ↦
        let classed = (subst (λ r. Outcome 0 input (some r)) h (tokenize-Outcome input)).1 in
        let broken = fault-not-all input e fault in cc
    | inr (e', h) ↦
        h
        ∙ ap err (
            same_fault input e' e (subst (λ r. Outcome 0 input (some r)) h (tokenize-Outcome input))
              fault)
  ],
)

-- `tokenize` succeeds exactly on the inputs of which every byte is of one of the classes.
pub tokenize_succeeds :
    (input : List ℕ)
    → ((ts : List Token) × (tokenize input ≡ ok ts)) ↔ (all is_classifiable input ≡ true)
tokenize_succeeds input = (
  λ (ts, h). (subst (λ r. Outcome 0 input (some r)) h (tokenize-Outcome input)).1,
  λ classed. elim (Result-cases (tokenize input)) [
    | inl found ↦ found
    | inr (e, h) ↦ let broken = fault-not-all input e ((tokenize-eq-err input e).0 h) in cc
  ],
)

-- The lexemes of the tokens, put together, are the input.
concat-lexemes :
    (i : ℕ) (bytes : List ℕ) (ts : List Token)
    → IsTokenization i bytes ts
    → concat (map (λ t. t.lexeme) ts) ≡ bytes
concat-lexemes i bytes [] z = sym z
concat-lexemes i bytes (t ∷ ts) (rest, n, z) = rw (concat-lexemes t.end rest ts z) (n.cut)

-- If two inputs have the same tokens they are the same input, so a successful `tokenize` loses
-- nothing.
pub tokenize_injective :
    (a b : List ℕ) (ts : List Token) → tokenize a ≡ ok ts → tokenize b ≡ ok ts → a ≡ b
tokenize_injective a b ts p q =
    sym (concat-lexemes 0 a ts ((tokenize-eq-ok a ts).0 p))
    ∙ concat-lexemes 0 b ts ((tokenize-eq-ok b ts).0 q)
