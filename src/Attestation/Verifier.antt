-- ===== src/Attestation/Verifier.antt =====
-- enclave/enclave_grpc/src/attestation/verifier.rs: the signature of an envelope, the lookup of claims
-- and the policy.
use Prim.Native.String.{String}
use flare_verifiable_rag.Prelude.{
  codes, ℕ, ◌%◌, ◌^◌, Bool, false, Option, none, some, List, [], length, ◌==◌, text_eq,
  if◌then◌else◌, Result, ok, err, ◌>>=◌,
}
use flare_verifiable_rag.Attestation.{
  Text, ℤ, pos, negsuc, Value, integer, bytes, text, array, map, other, Entries, none_left, entry,
  as_i64, claim_iat, claim_nonce, claim_submods, claim_swname, cose_header_alg, alg_es256,
  sig_structure,
}
use flare_verifiable_rag.Attestation.Token.{Backend, parse_cose_sign1, decode_claims}

pub data EatVerifyError : Type 0 where
  malformed policy missing_claim : String → EatVerifyError
  unsupported_alg : ℤ → EatVerifyError
  bad_signature : Text → EatVerifyError

pub record VerifiedEat : Type 0 where
  pub nonce : List ℕ
  pub swname : Text
  pub image_digest : Text
  pub hardware : Text
  pub iat : ℕ

-- `==` on integers.
unfoldable pub eq_ℤ : ℤ → ℤ → Bool
eq_ℤ (pos a) (pos b) = a == b
eq_ℤ (negsuc a) (negsuc b) = a == b
eq_ℤ (pos a) (negsuc b) = false
eq_ℤ (negsuc a) (pos b) = false

unfoldable pub is_integer : ℤ → Value → Bool
unfolding eq_ℤ as_i64
is_integer key (integer i) = eq_ℤ i (as_i64 key)
is_integer key (bytes b) = false
is_integer key (text s) = false
is_integer key (array vs) = false
is_integer key (map es) = false
is_integer key (other n) = false

unfoldable pub is_text : Text → Value → Bool
is_text key (text s) = text_eq s key
is_text key (integer i) = false
is_text key (bytes b) = false
is_text key (array vs) = false
is_text key (map es) = false
is_text key (other n) = false

-- `entries.iter().find`: the value of the first key that passes the test.
unfoldable pub find : (Value → Bool) → Entries → Option Value
find test none_left = none
find test (entry k v rest) = let later = find test rest in if test k then some v else later

-- The entries of a map.
unfoldable pub find_in : (Value → Bool) → Value → Option Value
unfolding find
find_in test (map es) = find test es
find_in test (integer i) = none
find_in test (bytes b) = none
find_in test (text s) = none
find_in test (array vs) = none
find_in test (other n) = none

unfoldable pub claim : Value → ℤ → Option Value
unfolding find_in is_integer
claim claims key = find_in (is_integer key) claims

unfoldable pub as_text : Value → Option Text
as_text (text s) = some s
as_text (integer i) = none
as_text (bytes b) = none
as_text (array vs) = none
as_text (map es) = none
as_text (other n) = none

unfoldable pub as_bytes : Value → Option (List ℕ)
as_bytes (bytes b) = some b
as_bytes (integer i) = none
as_bytes (text s) = none
as_bytes (array vs) = none
as_bytes (map es) = none
as_bytes (other n) = none

abbrev pub and_then {ℓ κ} : {A : Type ℓ} {B : Type κ} → Option A → (A → Option B) → Option B
and_then none k = none
and_then (some a) k = k a

-- `find_map` in the container: the first text of the key; an entry of the key that is no text is
-- passed over.
unfoldable pub find_text : Text → Entries → Option Text
unfolding is_text as_text
find_text key none_left = none
find_text key (entry k v rest) =
    let later = find_text key rest in
    if is_text key k then (elim (as_text v) [ none ↦ later | some s ↦ some s ]) else later

unfoldable pub text_in : Text → Value → Option Text
unfolding find_text
text_in key (map es) = find_text key es
text_in key (integer i) = none
text_in key (bytes b) = none
text_in key (text s) = none
text_in key (array vs) = none
text_in key (other n) = none

-- `container_digest` and `container_hardware` differ in the key.
unfoldable pub container_text : Text → Value → Option Text
unfolding claim find_in is_text text_in
container_text key claims = and_then (claim claims claim_submods) (λ submods.
    and_then (find_in (is_text (codes "container")) submods) (λ container. text_in key container))

unfoldable pub container_digest : Value → Option Text
unfolding container_text
container_digest claims = container_text (codes "image_digest") claims

unfoldable pub container_hardware : Value → Option Text
unfolding container_text
container_hardware claims = container_text (codes "hardware") claims

-- `n as u64` of a number that is not negative.
unfoldable pub as_u64 : Value → Option ℕ
as_u64 (integer (pos n)) = some (n % 2 ^ 64)
as_u64 (integer (negsuc n)) = none
as_u64 (bytes b) = none
as_u64 (text s) = none
as_u64 (array vs) = none
as_u64 (map es) = none
as_u64 (other n) = none

abbrev pub ok_or {ℓ κ} : {A : Type ℓ} {E : Type κ} → E → Option A → Result A E
ok_or e none = err e
ok_or e (some a) = ok a

-- `if let Some(expected) = … { if value != expected { return Err(…) } }`
abbrev pub demand : String → List ℕ → Option (List ℕ) → Result {0, 0} Unit EatVerifyError
demand message value none = ok tt
demand message value (some expected) =
    if text_eq value expected then ok tt else err (policy message)

abbrev pub or_malformed {ℓ κ} :
    {A : Type ℓ} {E : Type κ} → String → Result A E → Result A EatVerifyError
or_malformed message (ok a) = ok a
or_malformed message (err e) = err (malformed message)

abbrev pub or_bad_signature : Result {0, 0} Unit Text → Result {0, 0} Unit EatVerifyError
or_bad_signature (ok u) = ok u
or_bad_signature (err e) = err (bad_signature e)

abbrev pub or_default : Option Text → Text
or_default none = []
or_default (some s) = s

unfoldable pub alg_of : Value → Result {0, 0} Unit EatVerifyError
unfolding eq_ℤ
alg_of (integer i) = if eq_ℤ i alg_es256 then ok tt else err (unsupported_alg i)
alg_of (bytes b) = err (malformed "alg must be an integer")
alg_of (text s) = err (malformed "alg must be an integer")
alg_of (array vs) = err (malformed "alg must be an integer")
alg_of (map es) = err (malformed "alg must be an integer")
alg_of (other n) = err (malformed "alg must be an integer")

-- The checks on the decoded claims.
unfoldable pub check_claims :
    Value → Text → Option Text → Option (List ℕ) → Result VerifiedEat EatVerifyError
unfolding claim as_text as_bytes container_digest container_hardware as_u64
check_claims claims expected_swname expected_digest expected_nonce = do
  swname ← ok_or (missing_claim "swname") (and_then (claim claims claim_swname) as_text)
  _ ← demand "swname does not match expected value" swname (some expected_swname)
  image_digest ← ok_or (missing_claim "submods.container.image_digest") (container_digest claims)
  _ ← demand "image_digest does not match expected build digest" image_digest expected_digest
  nonce ← ok_or (missing_claim "nonce") (and_then (claim claims claim_nonce) as_bytes)
  _ ← demand "nonce does not match session nonce" nonce expected_nonce
  iat ← ok_or (missing_claim "iat") (and_then (claim claims claim_iat) as_u64)
  ok (record {
    nonce = nonce;
    swname = swname;
    image_digest = image_digest;
    hardware = or_default (container_hardware claims);
    iat = iat;
  })

module _ (lib : Backend) where
  abbrev pub sixty_four : List ℕ → Result (List ℕ) EatVerifyError
  sixty_four signature =
      if length signature == 64
      then ok signature
      else err (malformed "signature must be 64 bytes (r||s)")

  unfoldable pub verify_cose_sign1 : List ℕ → lib.VerifyingKey → Result (List ℕ) EatVerifyError
  unfolding claim alg_of
  verify_cose_sign1 token verifying_key = do
    parsed ← or_malformed "parse failed" (parse_cose_sign1 lib token)
    alg ←
        ok_or (malformed "protected header missing alg")
          (claim parsed.protected_map cose_header_alg)
    _ ← alg_of alg
    sig_input_bytes ←
        or_malformed "sig structure encode failed"
          (lib.into_writer (sig_structure parsed.protected parsed.payload))
    sig_bytes ← sixty_four parsed.signature
    signature ← or_malformed "invalid signature encoding" (lib.from_slice sig_bytes)
    _ ← or_bad_signature (lib.verify verifying_key sig_input_bytes signature)
    ok parsed.payload

  unfoldable pub validate_claims :
      List ℕ → Text → Option Text → Option (List ℕ) → Result VerifiedEat EatVerifyError
  unfolding check_claims
  validate_claims payload expected_swname expected_digest expected_nonce = do
    claims ← or_malformed "claims decode failed" (decode_claims lib payload)
    check_claims claims expected_swname expected_digest expected_nonce

  unfoldable pub verify_eat :
      List ℕ
      → lib.VerifyingKey
      → Text
      → Option Text
      → Option (List ℕ)
      → Result VerifiedEat EatVerifyError
  unfolding verify_cose_sign1 validate_claims
  verify_eat token verifying_key expected_swname expected_digest expected_nonce = do
    payload ← verify_cose_sign1 token verifying_key
    validate_claims payload expected_swname expected_digest expected_nonce
