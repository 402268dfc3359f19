-- ===== src/Attestation/Examples.antt =====
-- Small runs of the token builder and the verifier, with a toy CBOR and toy signatures.
mod Codec
use flare_verifiable_rag.Prelude.{
  codes, ℕ, ◌+◌, ◌^◌, ◌<◌, ◌≡◌, ◌↔◌, ◌≢◌, refl, sym, ap, ◌∙◌, Bool, true, false, Option, none, some,
  List, [], ◌∷◌, length, ◌==◌, if◌then◌else◌, arith, Result, ok, err,
}
use flare_verifiable_rag.Prelude.Bytes.{to_be_bytes, length-to_be_bytes, byte_at}
use flare_verifiable_rag.Attestation.{
  Text, Value, EatClaims, EatError, incomplete_claims, is_blank, is_whitespace,
}
use flare_verifiable_rag.Attestation.Token.{Backend, build_eat, decode_claims}
use flare_verifiable_rag.Attestation.Verifier.{VerifiedEat, verify_eat}
use flare_verifiable_rag.Attestation.RoundTrip.{IsLawful, claimed, verify_eat-build_eat}
use flare_verifiable_rag.Attestation.Acceptance.{Meets, Signed, verify_eat_iff}
use flare_verifiable_rag.Attestation.Examples.Codec.{write, read, read-write}

abbrev bit : Bool → ℕ
bit true = 1
bit false = 0

-- A key is a bit, and its signature says which one it is.
abbrev toy : Backend
toy = record {
  Key = Bool;
  VerifyingKey = Bool;
  Signature = Bool;
  into_writer = write;
  from_reader = read;
  sign = λ k m. k;
  to_bytes = λ s. to_be_bytes 64 (bit s);
  from_slice = λ b. ok (byte_at b 63 == 1);
  verify = λ k m s. if bit k == bit s then ok tt else err [];
}

toy_parses : (s : Bool) → toy.from_slice (toy.to_bytes s) ≡ ok s
unfolding to_be_bytes
toy_parses true = refl
toy_parses false = refl

toy_verifies : (k : Bool) (m : List ℕ) → toy.verify k m (toy.sign k m) ≡ ok tt
toy_verifies true m = refl
toy_verifies false m = refl

abbrev own : Bool → Bool
own k = k

toy-IsLawful : IsLawful toy own
toy-IsLawful = record {
  writes = read-write;
  sig_length = λ s. length-to_be_bytes 64 (bit s);
  sig_parses = toy_parses;
  verifies = toy_verifies;
}

abbrev claims : EatClaims
claims = record {
  nonce = 7 ∷ 8 ∷ [];
  swname = codes "CONFIDENTIAL_SPACE";
  image_digest = codes "sha256:ab";
  hardware = codes "TDX";
  instance_id = to_be_bytes 16 9;
  iat = 1700000000;
  measurements = to_be_bytes 32 1 ∷ [];
}

not_blank : (is_blank claims.swname ≡ false) × (is_blank claims.image_digest ≡ false)
unfolding is_blank is_whitespace
not_blank = (refl, refl)

verify_eat-build_eat_example :
    (token : List ℕ) × (build_eat toy claims true ≡ ok token)
    × (verify_eat toy token true claims.swname (some (codes "sha256:ab")) (some (7 ∷ 8 ∷ []))
        ≡ ok (claimed claims))
verify_eat-build_eat_example =
    verify_eat-build_eat toy own toy-IsLawful claims true (some (codes "sha256:ab"))
      (some (7 ∷ 8 ∷ [])) not_blank.0 not_blank.1 (λ e. cc) (omega arith) refl refl

built :
    (token : List ℕ) × (build_eat toy claims true ≡ ok token)
    × (verify_eat toy token true claims.swname (some (codes "sha256:ab")) (some (7 ∷ 8 ∷ []))
        ≡ ok (claimed claims))
built =
    verify_eat-build_eat toy own toy-IsLawful claims true (some (codes "sha256:ab"))
      (some (7 ∷ 8 ∷ [])) not_blank.0 not_blank.1 (λ e. cc) (omega arith) refl refl

abbrev token : List ℕ
token = built.0

verify_eat_iff_example :
    (verify_eat toy token true claims.swname (some (codes "sha256:ab")) (some (7 ∷ 8 ∷ []))
      ≡ ok (claimed claims))
    ↔ ((payload : List ℕ) × (decoded : Value) × Signed toy token true payload
        × (decode_claims toy payload ≡ ok decoded)
        × Meets decoded claims.swname
            (some (codes "sha256:ab"))
            (some (7 ∷ 8 ∷ []))
            (claimed claims))
verify_eat_iff_example =
    verify_eat_iff toy token true claims.swname (some (codes "sha256:ab")) (some (7 ∷ 8 ∷ []))
      (claimed claims)
