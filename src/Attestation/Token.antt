-- ===== src/Attestation/Token.antt =====
-- enclave/enclave_grpc/src/attestation/eat_builder.rs: the signed envelope around the claims, and its
-- parts when it is read.
use Prim.Native.String.{String}
use flare_verifiable_rag.Prelude.{
  codes, ℕ, Option, none, some, List, [], ◌∷◌, if◌then◌else◌, Result, ok, err, ◌>>=◌,
}
use flare_verifiable_rag.Attestation.{
  EatClaims, EatError, Text, Value, alg_es256, array, bytes, cbor_de_error, cbor_error, cons,
  cose_header_alg, cose_header_kid, encode_claims, entries, incomplete_claims, int, integer,
  is_blank, malformed, map, nil, none_left, other, sig_structure, text,
}

-- The libraries: CBOR, and ES256 on P-256.
pub record Backend : Type 1 where
  pub Key : Type 0
  pub VerifyingKey : Type 0
  pub Signature : Type 0
  pub into_writer : Value → Result (List ℕ) Text
  pub from_reader : List ℕ → Result Value Text
  pub sign : Key → List ℕ → Signature
  pub to_bytes : Signature → List ℕ
  pub from_slice : List ℕ → Result Signature Text
  pub verify : VerifyingKey → List ℕ → Signature → Result {0, 0} Unit Text

abbrev pub or_cbor {ℓ} : {A : Type ℓ} → Result A Text → Result A EatError
or_cbor (ok a) = ok a
or_cbor (err e) = err (cbor_error e)

abbrev pub or_cbor_de {ℓ} : {A : Type ℓ} → Result A Text → Result A EatError
or_cbor_de (ok a) = ok a
or_cbor_de (err e) = err (cbor_de_error e)

unfoldable pub protected_header : Value
unfolding int
protected_header = map (
    entries (
      (int cose_header_alg, int alg_es256)
      ∷ (int cose_header_kid, bytes (codes "enclave-v1"))
      ∷ []))

unfoldable pub envelope : List ℕ → List ℕ → List ℕ → Value
envelope protected payload signature = array (
    cons (bytes protected)
      (cons (map none_left) (cons (bytes payload) (cons (bytes signature) nil))))

pub record ParsedCoseSign1 : Type 0 where
  pub protected : List ℕ
  pub protected_map : Value
  pub payload : List ℕ
  pub signature : List ℕ

-- `match v { Value::Bytes(b) => b.clone(), _ => return Err(…) }`
unfoldable pub bstr : String → Value → Result (List ℕ) EatError
bstr message (bytes b) = ok b
bstr message (integer i) = err (malformed message)
bstr message (text s) = err (malformed message)
bstr message (array vs) = err (malformed message)
bstr message (map es) = err (malformed message)
bstr message (other n) = err (malformed message)

abbrev pub Parts : Type 0
Parts = Value × (Value × (Value × Value))

-- An array of four parts.
unfoldable pub four_parts : Value → Option Parts
four_parts (array (cons a (cons b (cons c (cons d nil))))) = some (a, (b, (c, d)))
four_parts _ = none

module _ (lib : Backend) where
  abbrev pub cbor : Value → Result (List ℕ) EatError
  cbor v = or_cbor (lib.into_writer v)

  unfoldable pub build_eat : EatClaims → lib.Key → Result (List ℕ) EatError
  unfolding is_blank protected_header encode_claims sig_structure envelope
  build_eat claims key =
      if is_blank claims.swname
      then err (incomplete_claims "swname must not be empty")
      else if is_blank claims.image_digest
      then err (incomplete_claims "image_digest must not be empty")
      else (do
        protected_bytes ← cbor protected_header
        payload_bytes ← cbor (encode_claims claims)
        sig_input ← cbor (sig_structure protected_bytes payload_bytes)
        cbor (envelope protected_bytes payload_bytes (lib.to_bytes (lib.sign key sig_input))))

  unfoldable pub parse_parts : Parts → Result ParsedCoseSign1 EatError
  unfolding bstr
  parse_parts (a, (b, (c, d))) = do
    protected ← bstr "protected must be a bstr" a
    protected_map ← or_cbor_de (lib.from_reader protected)
    payload ← bstr "payload must be a bstr" c
    signature ← bstr "signature must be a bstr" d
    ok (record {
      protected = protected;
      protected_map = protected_map;
      payload = payload;
      signature = signature;
    })

  unfoldable pub parse_cose_sign1 : List ℕ → Result ParsedCoseSign1 EatError
  unfolding four_parts parse_parts
  parse_cose_sign1 token = do
    value ← or_cbor_de (lib.from_reader token)
    elim (four_parts value) [
      | none ↦ err (malformed "COSE_Sign1 must be an array of 4 elements")
      | some parts ↦ parse_parts parts
    ]

  unfoldable pub decode_claims : List ℕ → Result Value EatError
  decode_claims payload = or_cbor_de (lib.from_reader payload)
