-- ===== src/ZkTls/Binding.antt =====
-- A generated proof binds the session, and whoever receives its bytes recovers the signer.
use flare_verifiable_rag.Prelude.{
  ℕ, ◌^◌, ◌<◌, ◌≡◌, refl, sym, ap, ◌∙◌, subst, inl, inr, Option, none, some, List, ◌++◌, drop,
  arith, ok, err, Result, Result-cases, Option-cases,
}
use flare_verifiable_rag.ZkTls.{
  Text, ZkTlsProof, IsArray, IsWellFormed, proof_version, canonical_payload, payload_of, to_bytes,
  from_bytes,
}
use flare_verifiable_rag.ZkTls.RoundTrip.{from_bytes-to_bytes}
use flare_verifiable_rag.ZkTls.Generation.{
  Backend, CapturedChain, unwrap_or, jq_select, cert_fingerprint, sign_proof, redacted, redact_loop,
  generate_proof, recover_signer,
}

-- What the code relies on: the sizes of hashes and of the halves of a signature, a clock of 64 bits,
-- and that a signature is in the low form, is read back from its halves, and gives back the key that
-- made it.
pub record IsLawful (lib : Backend) (public_key : lib.Key → List ℕ) : Type 0 where
  pub sha256_array : (bytes : List ℕ) → IsArray 32 (lib.sha256 bytes)
  pub now_u64 : (t : ℕ) → lib.now ≡ ok t → t < 256 ^ 8
  pub halves :
      (s : lib.Signature) → IsArray 32 (lib.split_bytes s).0 × IsArray 32 (lib.split_bytes s).1
  pub recovery_byte :
      (r : lib.Recovery) → (lib.to_byte r < 256) × (lib.recovery_id (lib.to_byte r) ≡ some r)
  pub is_low :
      (k : lib.Key) (m : List ℕ) (s : lib.Signature) (r : lib.Recovery)
      → lib.sign k m ≡ ok (s, r)
      → lib.normalize_s s ≡ none
  pub parses :
      (s : lib.Signature)
      → lib.parse_signature ((lib.split_bytes s).0 ++ (lib.split_bytes s).1) ≡ ok s
  pub recovers :
      (k : lib.Key) (m : List ℕ) (s : lib.Signature) (r : lib.Recovery)
      → lib.sign k m ≡ ok (s, r)
      → lib.recover m s r ≡ ok (public_key k)

redacted-inv :
    (lib : Backend) (redact : Option (List Text)) (proof p : ZkTlsProof)
    → redacted lib redact proof ≡ some (ok p)
    → proof ≡ p
unfolding redacted
redacted-inv lib none proof p h = cc
redacted-inv lib (some secrets) proof p h =
    elim (Option-cases (redact_loop (to_bytes proof) secrets)) [
      | inl e ↦ absurd (cc (rw e at h))
      | inr (ok _, e) ↦ cc (rw e at h)
      | inr (err x, e) ↦ absurd (cc (rw e at h))
    ]

module _ (lib : Backend) (url response_body selector : List ℕ) (chain : CapturedChain)
    (signer : lib.Key) (nonce : List ℕ) where
  -- What a proof says of the session.
  pub record Binds (p : ZkTlsProof) : Type 0 where
    pub selected : List ℕ
    pub selects : jq_select lib response_body selector ≡ ok selected
    pub url_bound : p.url_hash ≡ lib.sha256 url
    pub data_bound : p.data_hash ≡ lib.sha256 selected
    pub response_bound : p.response_hash ≡ lib.sha256 response_body
    pub cert_bound : p.cert_fingerprint ≡ cert_fingerprint lib chain
    pub time_bound : lib.now ≡ ok p.timestamp
    pub nonce_bound : p.nonce ≡ nonce

  record Signs (p : ZkTlsProof) : Type 0 where
    signature : lib.Signature
    recovery : lib.Recovery
    signs : lib.sign signer (payload_of p) ≡ ok (signature, recovery)
    r_half : p.r ≡ (lib.split_bytes (unwrap_or (lib.normalize_s signature) signature)).0
    s_half : p.s ≡ (lib.split_bytes (unwrap_or (lib.normalize_s signature) signature)).1
    v_byte : p.v ≡ lib.to_byte recovery
    version_one : p.version ≡ proof_version

  abbrev signing : List ℕ → ℕ → Result (lib.Signature × lib.Recovery) Text
  signing selected timestamp = lib.sign signer (
      canonical_payload proof_version (lib.sha256 url) (lib.sha256 selected)
        (lib.sha256 response_body) (cert_fingerprint lib chain) timestamp nonce)

  abbrev built : List ℕ → ℕ → lib.Signature → lib.Recovery → ZkTlsProof
  built selected timestamp signature recovery = record {
    version = proof_version;
    url_hash = lib.sha256 url;
    data_hash = lib.sha256 selected;
    response_hash = lib.sha256 response_body;
    cert_fingerprint = cert_fingerprint lib chain;
    timestamp = timestamp;
    nonce = nonce;
    r = (lib.split_bytes (unwrap_or (lib.normalize_s signature) signature)).0;
    s = (lib.split_bytes (unwrap_or (lib.normalize_s signature) signature)).1;
    v = lib.to_byte recovery;
  }

  built_lem :
      (selected : List ℕ) (timestamp : ℕ) (signature : lib.Signature) (recovery : lib.Recovery)
      → jq_select lib response_body selector ≡ ok selected
      → lib.now ≡ ok timestamp
      → signing selected timestamp ≡ ok (signature, recovery)
      → Binds (built selected timestamp signature recovery)
        × Signs (built selected timestamp signature recovery)
  unfolding payload_of
  built_lem selected timestamp signature recovery j t s = (
    record {
      selected = selected;
      selects = j;
      url_bound = refl;
      data_bound = refl;
      response_bound = refl;
      cert_bound = refl;
      time_bound = t;
      nonce_bound = refl;
    },
    record {
      signature = signature;
      recovery = recovery;
      signs = s;
      r_half = refl;
      s_half = refl;
      v_byte = refl;
      version_one = refl;
    },
  )

  sign_proof-inv :
      (p : ZkTlsProof)
      → sign_proof lib url response_body selector chain signer nonce ≡ ok p
      → Binds p × Signs p
  unfolding sign_proof
  sign_proof-inv p h = elim (Result-cases (jq_select lib response_body selector)) [
    | inr (e, j) ↦ absurd (cc (rw j at h))
    | inl (selected, j) ↦ elim (Result-cases lib.now) [
      | inr (e, t) ↦ absurd (cc (rw (j, t) at h))
      | inl (timestamp, t) ↦ elim (Result-cases (signing selected timestamp)) [
        | inr (e, s) ↦ absurd (cc (rw (j, t, s) at h))
        | inl ((signature, recovery), s) ↦
            let same : built selected timestamp signature recovery ≡ p = cc (rw (j, t, s) at h) in
            subst (λ x. Binds x × Signs x) same
              (built_lem selected timestamp signature recovery j t s)
      ]
    ]
  ]

  module _ (public_key : lib.Key → List ℕ) (law : IsLawful lib public_key) where
    bound-IsWellFormed : (p : ZkTlsProof) → IsArray 16 nonce → Binds p → Signs p → IsWellFormed p
    unfolding cert_fingerprint
    bound-IsWellFormed p n b g = record {
      version_byte = omega (arith, g.version_one);
      url_array = subst (IsArray 32) (sym b.url_bound) (law.sha256_array url);
      data_array = subst (IsArray 32) (sym b.data_bound) (law.sha256_array b.selected);
      response_array = subst (IsArray 32) (sym b.response_bound) (law.sha256_array response_body);
      cert_array = subst (IsArray 32) (sym b.cert_bound) (law.sha256_array _);
      timestamp_u64 = law.now_u64 p.timestamp b.time_bound;
      nonce_array = subst (IsArray 16) (sym b.nonce_bound) n;
      r_array = subst (IsArray 32) (sym g.r_half) (law.halves _).0;
      s_array = subst (IsArray 32) (sym g.s_half) (law.halves _).1;
      v_byte = rw g.v_byte (law.recovery_byte g.recovery).0;
    }

    signed-recovers :
        (p : ZkTlsProof)
        → Signs p
        → recover_signer lib p ≡ ok (drop 12 (lib.keccak256 (drop 1 (public_key signer))))
    unfolding recover_signer
    signed-recovers p g =
        let low = law.is_low signer (payload_of p) g.signature g.recovery g.signs in
        let r : p.r ≡ (lib.split_bytes g.signature).0 = g.r_half ∙ rw low refl in
        let s : p.s ≡ (lib.split_bytes g.signature).1 = g.s_half ∙ rw low refl in
        let id : lib.recovery_id p.v ≡ some g.recovery =
          ap lib.recovery_id g.v_byte ∙ (law.recovery_byte g.recovery).1 in
        let parsed : lib.parse_signature (p.r ++ p.s) ≡ ok g.signature =
          rw (r, s) (law.parses g.signature) in
        let key = law.recovers signer (payload_of p) g.signature g.recovery g.signs in
        rw (id, parsed, key, recover_signer) refl

  generate_proof-inv :
      (redact : Option (List Text)) (p : ZkTlsProof)
      → generate_proof lib url response_body selector chain signer nonce redact ≡ some (ok p)
      → sign_proof lib url response_body selector chain signer nonce ≡ ok p
  unfolding generate_proof
  generate_proof-inv redact p h =
      elim (Result-cases (sign_proof lib url response_body selector chain signer nonce)) [
        | inr (e, q) ↦ absurd (cc (rw (q, generate_proof) at h))
        | inl (proof, q) ↦ q ∙ ap ok (redacted-inv lib redact proof p (rw (q, generate_proof) at h))
      ]

  -- Let hashes, signatures and the clock be as documented, and the nonce an array of 16 bytes. If
  -- `generate_proof` returns a proof, then it holds the hashes of the url, of the response, of what the
  -- selector takes from it and of the certificate chain, and the nonce and the time; its bytes read
  -- back as the same proof, whose recovered signer is the address of the key that signed.
  pub generate_proof_correct :
      (public_key : lib.Key → List ℕ) (redact : Option (List Text)) (p : ZkTlsProof)
      → IsLawful lib public_key
      → IsArray 16 nonce
      → generate_proof lib url response_body selector chain signer nonce redact ≡ some (ok p)
      → Binds p
        × (from_bytes (to_bytes p) ≡ ok p)
        × (recover_signer lib p ≡ ok (drop 12 (lib.keccak256 (drop 1 (public_key signer)))))
  generate_proof_correct public_key redact p law n h =
      let (b, g) = sign_proof-inv p (generate_proof-inv redact p h) in
      (
        b,
        from_bytes-to_bytes p (bound-IsWellFormed public_key law p n b g),
        signed-recovers public_key law p g,
      )
