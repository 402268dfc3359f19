-- ===== src/Attestation/RoundTrip.antt =====
-- A token that `build_eat` returns is accepted by `verify_eat`, with the claims that it was built from.
use Prim.Native.String.{String}
use flare_verifiable_rag.Prelude.{
  ℕ, ◌^◌, ◌<◌, ◌≡◌, ◌≢◌, refl, false, Option, none, some, List, [], length, List-cases, inl, inr,
  text_eq_refl, ok,
}
use flare_verifiable_rag.Attestation.{
  Text, Value, EatClaims, is_blank, encode_claims, sig_structure,
}
use flare_verifiable_rag.Attestation.Token.{
  Backend, protected_header, envelope, build_eat, parse_cose_sign1, parse_parts, four_parts, bstr,
  decode_claims, cbor,
}
use flare_verifiable_rag.Attestation.Verifier.{
  VerifiedEat, verify_cose_sign1, check_claims, validate_claims, verify_eat, demand, as_text,
  as_bytes,
}
use flare_verifiable_rag.Attestation.Lookup.{
  claim-swname, claim-nonce, claim-iat, container_digest_lem, container_hardware_lem, as_u64-int,
  alg_declared,
}

-- What the code relies on: CBOR that is written is read back, and signatures of 64 bytes that verify
-- under the public key of the key that made them.
pub record IsLawful (lib : Backend) (public_key : lib.Key → lib.VerifyingKey) : Type 0 where
  pub writes :
      (v : Value) → (bs : List ℕ) × (lib.into_writer v ≡ ok bs) × (lib.from_reader bs ≡ ok v)
  pub sig_length : (s : lib.Signature) → length (lib.to_bytes s) ≡ 64
  pub sig_parses : (s : lib.Signature) → lib.from_slice (lib.to_bytes s) ≡ ok s
  pub verifies : (k : lib.Key) (m : List ℕ) → lib.verify (public_key k) m (lib.sign k m) ≡ ok tt

abbrev pub Allows : List ℕ → Option (List ℕ) → Type 0
Allows value none = Unit
Allows value (some expected) = expected ≡ value

pub demand_lem :
    (message : String) (value : List ℕ) (expected : Option (List ℕ))
    → Allows value expected
    → demand message value expected ≡ ok tt
demand_lem message value none a = refl
demand_lem message value (some e) a = rw (a, text_eq_refl value) refl

abbrev pub claimed : EatClaims → VerifiedEat
claimed c = record {
  nonce = c.nonce;
  swname = c.swname;
  image_digest = c.image_digest;
  hardware = c.hardware;
  iat = c.iat;
}

check_claims_lem :
    (c : EatClaims) (digest : Option Text) (nonce : Option (List ℕ))
    → c.nonce ≢ []
    → c.iat < 2 ^ 63
    → Allows c.image_digest digest
    → Allows c.nonce nonce
    → check_claims (encode_claims c) c.swname digest nonce ≡ ok (claimed c)
unfolding check_claims as_text as_bytes
check_claims_lem c digest nonce some_nonce small a b = elim (List-cases c.nonce) [
  | inl e ↦ absurd (some_nonce e)
  | inr (n, rest, e) ↦
      rw
        (
          claim-swname c n rest e,
          text_eq_refl c.swname,
          container_digest_lem c n rest e,
          demand_lem _ c.image_digest digest a,
          claim-nonce c n rest e,
          demand_lem _ c.nonce nonce b,
          claim-iat c n rest e,
          as_u64-int c.iat small,
          container_hardware_lem c n rest e,
        )
        refl
]

module _ (lib : Backend) (public_key : lib.Key → lib.VerifyingKey)
    (law : IsLawful lib public_key) where
  cbor_lem : (v : Value) → cbor lib v ≡ ok (law.writes v).0
  cbor_lem v = rw (law.writes v).1 refl

  -- The parts of a token.
  abbrev header_bytes : List ℕ
  header_bytes = (law.writes protected_header).0

  abbrev payload_bytes : EatClaims → List ℕ
  payload_bytes c = (law.writes (encode_claims c)).0

  abbrev sig_input : EatClaims → List ℕ
  sig_input c = (law.writes (sig_structure header_bytes (payload_bytes c))).0

  abbrev token_value : EatClaims → lib.Key → Value
  token_value c k =
      envelope header_bytes (payload_bytes c) (lib.to_bytes (lib.sign k (sig_input c)))

  abbrev token_of : EatClaims → lib.Key → List ℕ
  token_of c k = (law.writes (token_value c k)).0

  build_eat_lem :
      (c : EatClaims) (k : lib.Key)
      → is_blank c.swname ≡ false
      → is_blank c.image_digest ≡ false
      → build_eat lib c k ≡ ok (token_of c k)
  unfolding build_eat
  build_eat_lem c k a b =
      rw
        (
          a,
          b,
          cbor_lem protected_header,
          cbor_lem (encode_claims c),
          cbor_lem (sig_structure header_bytes (payload_bytes c)),
          cbor_lem (token_value c k),
        )
        refl

  parse_token :
      (c : EatClaims) (k : lib.Key)
      → parse_cose_sign1 lib (token_of c k)
        ≡ ok (record {
          protected = header_bytes;
          protected_map = protected_header;
          payload = payload_bytes c;
          signature = lib.to_bytes (lib.sign k (sig_input c));
        })
  unfolding parse_cose_sign1 four_parts parse_parts bstr envelope
  parse_token c k = rw ((law.writes (token_value c k)).2, (law.writes protected_header).2) refl

  verify_token :
      (c : EatClaims) (k : lib.Key)
      → verify_cose_sign1 lib (token_of c k) (public_key k) ≡ ok (payload_bytes c)
  unfolding verify_cose_sign1
  verify_token c k =
      let (a, found, fine) = alg_declared in
      rw
        (
          parse_token c k,
          found,
          fine,
          (law.writes (sig_structure header_bytes (payload_bytes c))).1,
          law.sig_length (lib.sign k (sig_input c)),
          law.sig_parses (lib.sign k (sig_input c)),
          law.verifies k (sig_input c),
        )
        refl

  -- Let CBOR and signatures be as documented. From claims with a software name and a digest that are
  -- not blank, a nonce that is not empty, and a time before 2^63, `build_eat` makes a token which
  -- `verify_eat` accepts under the public key of the key that signed it, for every policy that demands
  -- no more than these claims; what it reads from the token are these claims.
  pub verify_eat-build_eat :
      (c : EatClaims) (k : lib.Key) (digest : Option Text) (nonce : Option (List ℕ))
      → is_blank c.swname ≡ false
      → is_blank c.image_digest ≡ false
      → c.nonce ≢ []
      → c.iat < 2 ^ 63
      → Allows c.image_digest digest
      → Allows c.nonce nonce
      → (token : List ℕ) × (build_eat lib c k ≡ ok token)
        × (verify_eat lib token (public_key k) c.swname digest nonce ≡ ok (claimed c))
  unfolding verify_eat validate_claims decode_claims
  verify_eat-build_eat c k digest nonce a b n small p q = (
    token_of c k,
    build_eat_lem c k a b,
    rw (verify_token c k, (law.writes (encode_claims c)).2)
        (check_claims_lem c digest nonce n small p q),
  )
