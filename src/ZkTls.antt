-- ===== src/ZkTls.antt =====
-- enclave/enclave_grpc/src/zktls/proof_generator.rs: the proof of a TLS session, its byte format and
-- the payload that is signed. A fixed array `[u8; n]` is the list of its bytes; that it has `n` of
-- them is part of `IsWellFormed`.
pub mod RoundTrip
pub mod Generation
pub mod Redaction
pub mod Binding
pub mod Sink
mod Examples
use flare_verifiable_rag.Prelude.{
  ℕ, ◌+◌, ◌*◌, ◌^◌, ◌<◌, ◌≡◌, Bool, List, [], ◌∷◌, length, concat, slice, All, ◌==◌, if◌then◌else◌,
  Result, ok, err,
}
use flare_verifiable_rag.Prelude.Bytes.{IsByte, to_be_bytes, from_be_bytes, byte_at}

abbrev pub Text : Type 0
Text = List ℕ

-- What the text of an error says. `foreign` is a text that another library composed.
pub data Detail : Type 0 where
  foreign jq_run_failed : Text → Detail
  expected_bytes : ℕ → ℕ → Detail
  bad_v leaked : Detail

pub data ProofError : Type 0 where
  invalid_json jq_compile empty_selection : Text → ProofError
  build decode : Detail → ProofError

abbrev pub proof_version : ℕ
proof_version = 1

pub record ZkTlsProof : Type 0 where
  pub version : ℕ
  pub url_hash : List ℕ
  pub data_hash : List ℕ
  pub response_hash : List ℕ
  pub cert_fingerprint : List ℕ
  pub timestamp : ℕ
  pub nonce : List ℕ
  pub r : List ℕ
  pub s : List ℕ
  pub v : ℕ

abbrev pub IsArray : ℕ → List ℕ → Type 0
IsArray n bytes = (length bytes ≡ n) × All IsByte bytes

-- The types of the fields.
pub record IsWellFormed (p : ZkTlsProof) : Type 0 where
  pub version_byte : p.version < 256
  pub url_array : IsArray 32 p.url_hash
  pub data_array : IsArray 32 p.data_hash
  pub response_array : IsArray 32 p.response_hash
  pub cert_array : IsArray 32 p.cert_fingerprint
  pub timestamp_u64 : p.timestamp < 256 ^ 8
  pub nonce_array : IsArray 16 p.nonce
  pub r_array : IsArray 32 p.r
  pub s_array : IsArray 32 p.s
  pub v_byte : p.v < 256

-- `push` and `extend_from_slice` on an empty vector, one part after the other.
unfoldable pub canonical_payload : ℕ → List ℕ → List ℕ → List ℕ → List ℕ → ℕ → List ℕ → List ℕ
canonical_payload version url_hash data_hash response_hash cert_fingerprint timestamp nonce =
    concat (
      (version ∷ [])
      ∷ url_hash
      ∷ data_hash
      ∷ response_hash
      ∷ cert_fingerprint
      ∷ to_be_bytes 8 timestamp
      ∷ nonce
      ∷ [])

unfoldable pub to_bytes : ZkTlsProof → List ℕ
to_bytes p = concat (
    (p.version ∷ [])
    ∷ p.url_hash
    ∷ p.data_hash
    ∷ p.response_hash
    ∷ p.cert_fingerprint
    ∷ to_be_bytes 8 p.timestamp
    ∷ p.nonce
    ∷ p.r
    ∷ p.s
    ∷ (p.v ∷ [])
    ∷ [])

-- The header before `r`.
abbrev pub hdr : ℕ
hdr = 1 + 32 * 4 + 8 + 16

unfoldable pub from_bytes : List ℕ → Result ZkTlsProof ProofError
from_bytes bytes =
    if length bytes == hdr + 32 + 32 + 1
    then ok record {
      version = byte_at bytes 0;
      url_hash = slice bytes 1 33;
      data_hash = slice bytes 33 65;
      response_hash = slice bytes 65 97;
      cert_fingerprint = slice bytes 97 129;
      timestamp = from_be_bytes (slice bytes 129 137);
      nonce = slice bytes 137 153;
      r = slice bytes hdr (hdr + 32);
      s = slice bytes (hdr + 32) (hdr + 64);
      v = byte_at bytes (hdr + 64);
    }
    else err (decode (expected_bytes (hdr + 65) (length bytes)))

-- The signed payload of a proof.
unfoldable pub payload_of : ZkTlsProof → List ℕ
unfolding canonical_payload
payload_of p =
    canonical_payload p.version p.url_hash p.data_hash p.response_hash p.cert_fingerprint
      p.timestamp p.nonce

-- `keccak256_of` is that of the library.
unfoldable pub signed_digest : (List ℕ → List ℕ) → ZkTlsProof → List ℕ
unfolding payload_of
signed_digest keccak256_of p = keccak256_of (payload_of p)
