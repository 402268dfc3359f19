-- ===== src/Attestation/Acceptance.antt =====
-- Which tokens `verify_eat` accepts.
use Prim.Native.String.{String}
use flare_verifiable_rag.Prelude.{
  ℕ, ◌≡◌, ◌↔◌, refl, sym, ap, ◌∙◌, subst, true, Bool-cases, inl, inr, Option, none, some, List,
  length, ◌==◌, ==_iff, text_eq, text_eq_iff, Result, ok, err, bind_inv,
}
use flare_verifiable_rag.Attestation.{
  Text, ℤ, Value, integer, bytes, text, array, map, other, pos, negsuc, alg_es256, cose_header_alg,
  claim_swname, claim_nonce, claim_iat, sig_structure,
}
use flare_verifiable_rag.Attestation.Token.{
  Backend, ParsedCoseSign1, parse_cose_sign1, decode_claims,
}
use flare_verifiable_rag.Attestation.Verifier.{
  EatVerifyError, missing_claim, malformed, VerifiedEat, eq_ℤ, claim, as_text, as_bytes, as_u64,
  and_then, container_digest, container_hardware, ok_or, demand, or_malformed, or_bad_signature,
  or_default, alg_of, sixty_four, verify_cose_sign1, check_claims, validate_claims, verify_eat,
}
use flare_verifiable_rag.Attestation.RoundTrip.{Allows, demand_lem}

or_malformed_inv {ℓ κ} :
    {A : Type ℓ} {E : Type κ} (message : String) (r : Result A E) (a : A)
    → or_malformed message r ≡ ok a
    → r ≡ ok a
or_malformed_inv message (ok b) a h = cc
or_malformed_inv message (err e) a h = absurd (cc)

ok_or_inv {ℓ} :
    {A : Type ℓ} (e : EatVerifyError) (o : Option A) (a : A) → ok_or e o ≡ ok a → o ≡ some a
ok_or_inv e none a h = absurd (cc)
ok_or_inv e (some b) a h = cc

or_bad_signature_inv :
    (r : Result {0, 0} Unit Text) {u : Unit {0}} → or_bad_signature r ≡ ok u → r ≡ ok tt
or_bad_signature_inv (ok _) h = refl
or_bad_signature_inv (err e) h = absurd (cc)

demand_inv :
    (message : String) (value : List ℕ) (expected : Option (List ℕ)) {u : Unit {0}}
    → demand message value expected ≡ ok u
    → Allows value expected
demand_inv message value none h = tt
demand_inv message value (some e) h = elim (Bool-cases (text_eq value e)) [
  | inl q ↦ sym ((text_eq_iff value e).0 q)
  | inr q ↦ absurd (cc (rw q at h))
]

eq_ℤ→eq : (a b : ℤ) → eq_ℤ a b ≡ true → a ≡ b
unfolding eq_ℤ
eq_ℤ→eq (pos a) (pos b) h = ap pos ((==_iff a b).0 h)
eq_ℤ→eq (negsuc a) (negsuc b) h = ap negsuc ((==_iff a b).0 h)
eq_ℤ→eq (pos a) (negsuc b) h = absurd (cc)
eq_ℤ→eq (negsuc a) (pos b) h = absurd (cc)

alg_of_inv : (v : Value) {u : Unit {0}} → alg_of v ≡ ok u → v ≡ integer alg_es256
unfolding alg_of
alg_of_inv (integer i) h = elim (Bool-cases (eq_ℤ i alg_es256)) [
  | inl q ↦ ap integer (eq_ℤ→eq i alg_es256 q)
  | inr q ↦ absurd (cc (rw q at h))
]
alg_of_inv (bytes b) h = absurd (cc)
alg_of_inv (text s) h = absurd (cc)
alg_of_inv (array vs) h = absurd (cc)
alg_of_inv (map es) h = absurd (cc)
alg_of_inv (other n) h = absurd (cc)

-- The checks that the decoded claims passed.
pub record Meets (claims : Value) (swname : Text) (digest : Option Text) (session : Option (List ℕ))
    (v : VerifiedEat) : Type 0 where
  pub has_swname : and_then (claim claims claim_swname) as_text ≡ some v.swname
  pub has_digest : container_digest claims ≡ some v.image_digest
  pub has_nonce : and_then (claim claims claim_nonce) as_bytes ≡ some v.nonce
  pub has_iat : and_then (claim claims claim_iat) as_u64 ≡ some v.iat
  pub has_hardware : or_default (container_hardware claims) ≡ v.hardware
  pub right_swname : v.swname ≡ swname
  pub right_digest : Allows v.image_digest digest
  pub right_nonce : Allows v.nonce session

check_claims_inv :
    (claims : Value) (swname : Text) (digest : Option Text) (session : Option (List ℕ))
    (v : VerifiedEat)
    → check_claims claims swname digest session ≡ ok v
    → Meets claims swname digest session v
unfolding check_claims
check_claims_inv claims swname digest session v h =
    let (s, e1, h1) =
      bind_inv (ok_or (missing_claim "swname") (and_then (claim claims claim_swname) as_text)) _ v
        h in
    let (_, e2, h2) =
      bind_inv (demand "swname does not match expected value" s (some swname)) _ v h1 in
    let (d, e3, h3) =
      bind_inv (ok_or (missing_claim "submods.container.image_digest") (container_digest claims)) _
        v h2 in
    let (_, e4, h4) =
      bind_inv (demand "image_digest does not match expected build digest" d digest) _ v h3 in
    let (n, e5, h5) =
      bind_inv (ok_or (missing_claim "nonce") (and_then (claim claims claim_nonce) as_bytes)) _ v
        h4 in
    let (_, e6, h6) = bind_inv (demand "nonce does not match session nonce" n session) _ v h5 in
    let (i, e7, h7) =
      bind_inv (ok_or (missing_claim "iat") (and_then (claim claims claim_iat) as_u64)) _ v h6 in
    let w : VerifiedEat = record {
      nonce = n;
      swname = s;
      image_digest = d;
      hardware = or_default (container_hardware claims);
      iat = i;
    } in
    let same : w ≡ v = cc (h7) in
    let meets : Meets claims swname digest session w = record {
      has_swname = ok_or_inv _ _ s e1;
      has_digest = ok_or_inv _ _ d e3;
      has_nonce = ok_or_inv _ _ n e5;
      has_iat = ok_or_inv _ _ i e7;
      has_hardware = refl;
      right_swname = sym (demand_inv _ s (some swname) e2);
      right_digest = demand_inv _ d digest e4;
      right_nonce = demand_inv _ n session e6;
    } in
    subst (Meets claims swname digest session) same meets

check_claims-Meets :
    (claims : Value) (swname : Text) (digest : Option Text) (session : Option (List ℕ))
    (v : VerifiedEat)
    → Meets claims swname digest session v
    → check_claims claims swname digest session ≡ ok v
unfolding check_claims
check_claims-Meets claims swname digest session v m =
    rw
      (
        m.has_swname,
        demand_lem "swname does not match expected value" v.swname (some swname)
            (sym m.right_swname),
        m.has_digest,
        demand_lem _ v.image_digest digest m.right_digest,
        m.has_nonce,
        demand_lem _ v.nonce session m.right_nonce,
        m.has_iat,
        m.has_hardware,
      )
      refl

module _ (lib : Backend) where
  -- The envelope of a token, with a signature that verifies.
  pub record Signed (token : List ℕ) (key : lib.VerifyingKey) (payload : List ℕ) : Type 0 where
    pub parsed : ParsedCoseSign1
    pub parses : parse_cose_sign1 lib token ≡ ok parsed
    pub declares : claim parsed.protected_map cose_header_alg ≡ some (integer alg_es256)
    pub input : List ℕ
    pub is_input : lib.into_writer (sig_structure parsed.protected parsed.payload) ≡ ok input
    pub signature : lib.Signature
    pub is_signature :
        (length parsed.signature ≡ 64) × (lib.from_slice parsed.signature ≡ ok signature)
    pub is_verified : lib.verify key input signature ≡ ok tt
    pub carries : parsed.payload ≡ payload

  sixty_four_inv : (s t : List ℕ) → sixty_four lib s ≡ ok t → (length s ≡ 64) × (s ≡ t)
  sixty_four_inv s t h = elim (Bool-cases (length s == 64)) [
    | inl q ↦ ((==_iff (length s) 64).0 q, cc (rw q at h))
    | inr q ↦ absurd (cc (rw q at h))
  ]

  verify_cose_sign1_inv :
      (token : List ℕ) (key : lib.VerifyingKey) (payload : List ℕ)
      → verify_cose_sign1 lib token key ≡ ok payload
      → Signed token key payload
  unfolding verify_cose_sign1
  verify_cose_sign1_inv token key payload h =
      let (p, e1, h1) =
        bind_inv (or_malformed "parse failed" (parse_cose_sign1 lib token)) _ payload h in
      let (a, e2, h2) =
        bind_inv
          (ok_or (malformed "protected header missing alg") (claim p.protected_map cose_header_alg))
          _ payload h1 in
      let (_, e3, h3) = bind_inv (alg_of a) _ payload h2 in
      let (i, e4, h4) =
        bind_inv
          (or_malformed "sig structure encode failed"
            (lib.into_writer (sig_structure p.protected p.payload)))
          _ payload h3 in
      let (b, e5, h5) = bind_inv (sixty_four lib p.signature) _ payload h4 in
      let (s, e6, h6) =
        bind_inv (or_malformed "invalid signature encoding" (lib.from_slice b)) _ payload h5 in
      let (_, e7, h7) = bind_inv (or_bad_signature (lib.verify key i s)) _ payload h6 in
      let (len, same) = sixty_four_inv p.signature b e5 in
      record {
        parsed = p;
        parses = or_malformed_inv _ _ p e1;
        declares = ok_or_inv _ _ a e2 ∙ ap some (alg_of_inv a e3);
        input = i;
        is_input = or_malformed_inv _ _ i e4;
        signature = s;
        is_signature = (len, ap lib.from_slice same ∙ or_malformed_inv _ _ s e6);
        is_verified = or_bad_signature_inv _ e7;
        carries = cc (h7);
      }

  -- If `verify_eat` accepts a token, then the token is a COSE envelope that declares ES256, with a
  -- signature of 64 bytes that verifies under the given key over exactly the envelope's header and
  -- payload; the claims in that payload are the reported ones, and they meet every expectation given.
  pub verify_eat_sound :
      (token : List ℕ) (key : lib.VerifyingKey) (swname : Text) (digest : Option Text)
      (session : Option (List ℕ)) (v : VerifiedEat)
      → verify_eat lib token key swname digest session ≡ ok v
      → (payload : List ℕ) × (claims : Value) × Signed token key payload
        × (decode_claims lib payload ≡ ok claims)
        × Meets claims swname digest session v
  unfolding verify_eat validate_claims
  verify_eat_sound token key swname digest session v h =
      let (payload, e1, h1) = bind_inv (verify_cose_sign1 lib token key) _ v h in
      let (claims, e2, h2) =
        bind_inv (or_malformed "claims decode failed" (decode_claims lib payload)) _ v h1 in
      (
        payload,
        claims,
        verify_cose_sign1_inv token key payload e1,
        or_malformed_inv _ _ claims e2,
        check_claims_inv claims swname digest session v h2,
      )

  verify_cose_sign1-Signed :
      (token : List ℕ) (key : lib.VerifyingKey) (payload : List ℕ)
      → Signed token key payload
      → verify_cose_sign1 lib token key ≡ ok payload
  unfolding verify_cose_sign1 alg_of eq_ℤ
  verify_cose_sign1-Signed token key payload g =
      rw (g.parses, g.declares, g.is_input, g.is_signature.0, g.is_signature.1, g.is_verified)
        (ap ok g.carries)

  -- `verify_eat` accepts a token exactly if it is a COSE envelope that declares ES256, with a signature
  -- of 64 bytes that verifies under the given key over exactly the envelope's header and payload, and
  -- the claims in that payload meet every expectation given; what it reports are these claims.
  pub verify_eat_iff :
      (token : List ℕ) (key : lib.VerifyingKey) (swname : Text) (digest : Option Text)
      (session : Option (List ℕ)) (v : VerifiedEat)
      → (verify_eat lib token key swname digest session ≡ ok v) ↔ (
          (payload : List ℕ) × (claims : Value) × Signed token key payload
          × (decode_claims lib payload ≡ ok claims)
          × Meets claims swname digest session v)
  unfolding verify_eat validate_claims
  verify_eat_iff token key swname digest session v = (
    verify_eat_sound token key swname digest session v,
    λ (payload, claims, signed, decoded, meets).
        rw (verify_cose_sign1-Signed token key payload signed, decoded)
          (check_claims-Meets claims swname digest session v meets),
  )
