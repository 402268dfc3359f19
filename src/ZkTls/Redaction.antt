-- ===== src/ZkTls/Redaction.antt =====
-- What a generated proof binds, and that no secret of the request stands in it.
use flare_verifiable_rag.Prelude.{
  ℕ, zero, suc, ◌≡◌, ◌≢◌, ◌↔◌, ◌⊎◌, refl, sym, ap, ◌∙◌, true, Bool-cases, inl, inr, Option, none,
  some, List, [], ◌∷◌, ◌++◌, subst, Result-cases, length, take, drop, text_eq, text_eq_iff,
  text_eq_refl, take-length, All, ok, err, Result,
}
use flare_verifiable_rag.ZkTls.{Text, ProofError, ZkTlsProof, to_bytes, build, leaked}
use flare_verifiable_rag.ZkTls.Generation.{
  Backend, CapturedChain, checked, any_window, redact_loop, redacted, sign_proof, generate_proof,
}

-- The text stands somewhere in the bytes.
abbrev pub OccursIn : List ℕ → List ℕ → Type 0
OccursIn secret bytes = (before : List ℕ) × (after : List ℕ) × (bytes ≡ before ++ (secret ++ after))

take-drop : (n : ℕ) (xs : List ℕ) → xs ≡ take n xs ++ drop n xs
take-drop zero xs = refl
take-drop (suc n) [] = refl
take-drop (suc n) (x ∷ xs) = ap (λ r. x ∷ r) (take-drop n xs)

any_window→OccursIn :
    (secret bytes : List ℕ) → any_window secret bytes ≡ true → OccursIn secret bytes
unfolding any_window
any_window→OccursIn secret [] h = cc
any_window→OccursIn secret (b ∷ bytes) h =
    elim (Bool-cases (text_eq (take (length secret) (b ∷ bytes)) secret)) [
      | inl e ↦
          let front = (text_eq_iff (take (length secret) (b ∷ bytes)) secret).0 e in
          (
            [],
            drop (length secret) (b ∷ bytes),
            rw front at (take-drop (length secret) (b ∷ bytes)),
          )
      | inr e ↦
          let (before, after, q) = any_window→OccursIn secret bytes (rw e at h) in
          (b ∷ before, after, ap (λ r. b ∷ r) q)
    ]

any_window_at :
    (c : ℕ) (secret before after : List ℕ)
    → any_window (c ∷ secret) (before ++ ((c ∷ secret) ++ after)) ≡ true
unfolding any_window
any_window_at c secret [] after =
    rw (take-length (c ∷ secret) after, text_eq_refl (c ∷ secret)) refl
any_window_at c secret (b ∷ before) after =
    let later = any_window_at c secret before after in
    let bytes : List ℕ = b ∷ (before ++ ((c ∷ secret) ++ after)) in
    elim (Bool-cases (text_eq (take (length (c ∷ secret)) bytes) (c ∷ secret))) [
      | inl e ↦ rw e refl
      | inr e ↦ rw (e, later) refl
    ]

-- The loop over secrets of at least one byte passes exactly if none of them stands in the bytes,
-- and otherwise reports a leak.
abbrev pub NoneOccurs : List Text → List ℕ → Type 0
NoneOccurs secrets bytes = All (λ s. ¬ OccursIn s bytes) secrets

redact_loop_cases :
    (bytes : List ℕ) (secrets : List Text)
    → All (λ s. s ≢ []) secrets
    → (redact_loop bytes secrets ≡ some (ok tt)) × NoneOccurs secrets bytes
      ⊎ (redact_loop bytes secrets ≡ some (err (build leaked))) × (¬ NoneOccurs secrets bytes)
unfolding redact_loop
redact_loop_cases bytes [] h = inl (refl, tt)
redact_loop_cases bytes ([] ∷ secrets) h = absurd (h.0 refl)
redact_loop_cases bytes ((c ∷ secret) ∷ secrets) h =
    elim (Bool-cases (any_window (c ∷ secret) bytes)) [
      | inl e ↦ inr (rw e refl, λ a. a.0 (any_window→OccursIn (c ∷ secret) bytes e))
      | inr e ↦
          let absent : ¬ OccursIn (c ∷ secret) bytes =
            λ (before, after, q). cc (e, q, any_window_at c secret before after) in
          elim (redact_loop_cases bytes secrets h.1) [
            | inl (r, a) ↦ inl (rw (e, r) refl, (absent, a))
            | inr (r, a) ↦ inr (rw (e, r) refl, λ b. a b.1)
          ]
    ]

abbrev Answer : Type 0
Answer = Option (Result ZkTlsProof ProofError)

same : (x p : ZkTlsProof) → ◌≡◌ {A = Answer} (some (ok x)) (some (ok p)) → x ≡ p
same x p e = cc

module _ (lib : Backend) (url response_body selector : List ℕ) (chain : CapturedChain)
    (signer : lib.Key) (nonce : List ℕ) where
  abbrev generated : List Text → Answer
  generated secrets =
      generate_proof lib url response_body selector chain signer nonce (some secrets)

  abbrev signed : Result ZkTlsProof ProofError
  signed = sign_proof lib url response_body selector chain signer nonce

  generated-checked :
      (secrets : List Text) (proof : ZkTlsProof)
      → signed ≡ ok proof
      → generated secrets ≡ checked proof (redact_loop (to_bytes proof) secrets)
  unfolding generate_proof redacted
  generated-checked secrets proof q = rw (q, generate_proof) refl

  generated_fails :
      (secrets : List Text) (e : ProofError) → signed ≡ err e → generated secrets ≡ some (err e)
  unfolding generate_proof
  generated_fails secrets e q = rw (q, generate_proof) refl

  -- Given secrets of at least one byte, `generate_proof` ends without a panic, and returns a proof
  -- exactly if that is the proof it signs and no secret stands anywhere in its serialized form.
  pub generate_proof-redacts :
      (secrets : List Text)
      → All (λ s. s ≢ []) secrets
      → (generate_proof lib url response_body selector chain signer nonce (some secrets) ≢ none)
        × ((p : ZkTlsProof)
            → (generate_proof lib url response_body selector chain signer nonce (some secrets)
                ≡ some (ok p))
              ↔ ((sign_proof lib url response_body selector chain signer nonce ≡ ok p)
                  × NoneOccurs secrets (to_bytes p)))
  generate_proof-redacts secrets h = elim (Result-cases signed) [
    | inr (e, q) ↦
        let g = generated_fails secrets e q in
        (λ n. cc (g, n), λ p. (λ r. absurd (cc (g, r)), λ (r, _). absurd (cc (q, r))))
    | inl (proof, q) ↦ elim (redact_loop_cases (to_bytes proof) secrets h) [
      | inl (r, a) ↦
          let g : generated secrets ≡ some (ok proof) =
            generated-checked secrets proof q ∙ ap (checked proof) r in
          (
            λ n. cc (g, n),
            λ p. (
              λ e.
                  let eq = same proof p (sym g ∙ e) in
                  (q ∙ ap ok eq, subst (λ z. NoneOccurs secrets (to_bytes z)) eq a),
              λ (e, _). cc (g, q, e),
            ),
          )
      | inr (r, a) ↦
          let g : generated secrets ≡ some (err (build leaked)) =
            generated-checked secrets proof q ∙ ap (checked proof) r in
          (
            λ n. cc (g, n),
            λ p. (
              λ e. absurd (cc (g, e)),
              λ (e, b).
                  let eq : p ≡ proof = cc (q, e) in
                  absurd (a (subst (λ z. NoneOccurs secrets (to_bytes z)) eq b)),
            ),
          )
    ]
  ]
