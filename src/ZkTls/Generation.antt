-- ===== src/ZkTls/Generation.antt =====
-- `jq_select`, `cert_fingerprint`, `generate_proof` and `recover_signer` of
-- enclave/enclave_grpc/src/zktls/proof_generator.rs. The libraries that they call are the fields of
-- `Backend`: the jq engine, the hashes, the signatures on secp256k1 and the clock.
use flare_verifiable_rag.Prelude.{
  ℕ, Bool, true, false, Option, none, some, List, [], ◌∷◌, ◌++◌, length, concat, take, drop,
  if◌then◌else◌, text_eq, Result, ok, err, ◌>>=◌,
}
use flare_verifiable_rag.ZkTls.{
  Text, foreign, jq_run_failed, bad_v, leaked, ProofError, jq_compile, empty_selection, build,
  decode, proof_version, ZkTlsProof, canonical_payload, to_bytes, payload_of,
}

-- `compile` returns a filter or the texts of its reports. `run` is what the engine hands to the
-- closure of `jq_select`, in order: a value as it is written, or the text of an error.
pub record Backend : Type 1 where
  pub Filter : Type 0
  pub Key : Type 0
  pub Signature : Type 0
  pub Recovery : Type 0
  pub compile : Text → Result Filter (List Text)
  pub run : Filter → List ℕ → List (Result (List ℕ) Text)
  pub sha256 : List ℕ → List ℕ
  pub keccak256 : List ℕ → List ℕ
  pub now : Result ℕ Text
  pub sign : Key → List ℕ → Result (Signature × Recovery) Text
  pub normalize_s : Signature → Option Signature
  pub split_bytes : Signature → List ℕ × List ℕ
  pub to_byte : Recovery → ℕ
  pub recovery_id : ℕ → Option Recovery
  pub parse_signature : List ℕ → Result Signature Text
  pub recover : List ℕ → Signature → Recovery → Result (List ℕ) Text

-- `msgs.join("; ")`
unfoldable pub join : List Text → Text
join [] = []
join (m ∷ []) = m
join (m ∷ n ∷ ms) = m ++ (b';' ∷ b' ' ∷ join (n ∷ ms))

pub record Output : Type 0 where
  pub out : List ℕ
  pub wrote : Bool

-- The closure on each value: an error ends the run.
unfoldable pub collect : Output → List (Result (List ℕ) Text) → Result Output ProofError
collect o [] = ok o
collect o (ok buf ∷ vs) = collect (record { out = o.out ++ buf; wrote = true }) vs
collect o (err e ∷ vs) = err (build (jq_run_failed e))

pub record CapturedChain : Type 0 where
  pub server : Text
  pub end_entity : List ℕ
  pub intermediates : List (List ℕ)

unfoldable pub all_der : CapturedChain → List (List ℕ)
all_der chain = chain.end_entity ∷ chain.intermediates

-- `serialized.windows(n).any(|w| w == secret)` with the length `n` of the secret: does it stand at
-- some offset?
unfoldable pub any_window : List ℕ → List ℕ → Bool
any_window secret [] = false
any_window secret (b ∷ serialized) =
    let later = any_window secret serialized in
    if text_eq (take (length secret) (b ∷ serialized)) secret then true else later

-- The loop over the secrets; `none` means that the thread panics, which `windows(0)` does.
unfoldable pub redact_loop : List ℕ → List Text → Option (Result {0, 0} Unit ProofError)
redact_loop serialized [] = some (ok tt)
redact_loop serialized ([] ∷ secrets) = none
redact_loop serialized ((c ∷ secret) ∷ secrets) =
    let rest = redact_loop serialized secrets in
    if any_window (c ∷ secret) serialized then some (err (build leaked)) else rest

abbrev pub checked :
    ZkTlsProof → Option (Result {0, 0} Unit ProofError) → Option (Result ZkTlsProof ProofError)
checked proof none = none
checked proof (some (ok _)) = some (ok proof)
checked proof (some (err e)) = some (err e)

-- `.map_err(|e| ProofError::Build(e.to_string()))`
abbrev pub or_build {ℓ} : {A : Type ℓ} → Result A Text → Result A ProofError
or_build (ok a) = ok a
or_build (err e) = err (build (foreign e))

abbrev pub or_decode {ℓ} : {A : Type ℓ} → Result A Text → Result A ProofError
or_decode (ok a) = ok a
or_decode (err e) = err (decode (foreign e))

abbrev pub unwrap_or {ℓ} : {A : Type ℓ} → Option A → A → A
unwrap_or none a = a
unwrap_or (some b) a = b

abbrev written : Text → Output → Result (List ℕ) ProofError
written selector o = if o.wrote then ok o.out else err (empty_selection selector)

module _ (lib : Backend) where
  unfoldable pub jq_select : List ℕ → Text → Result (List ℕ) ProofError
  unfolding collect join
  jq_select json selector = elim (lib.compile selector) [
    | err reports ↦ err (jq_compile (join reports))
    | ok filter ↦ do
      o ← collect (record { out = []; wrote = false }) (lib.run filter json)
      written selector o
  ]

  unfoldable pub cert_fingerprint : CapturedChain → List ℕ
  unfolding all_der
  cert_fingerprint chain = lib.sha256 (concat (all_der chain))

  -- Steps 1 to 4 of `generate_proof`: the proof before the check of the secrets.
  unfoldable pub sign_proof :
      Text → List ℕ → Text → CapturedChain → lib.Key → List ℕ → Result ZkTlsProof ProofError
  unfolding jq_select cert_fingerprint canonical_payload
  sign_proof url response_body selector chain signer nonce = do
    selected ← jq_select response_body selector
    timestamp ← or_build lib.now
    (signature, recovery_id) ← or_build (
        lib.sign signer (
          canonical_payload proof_version (lib.sha256 url) (lib.sha256 selected)
            (lib.sha256 response_body) (cert_fingerprint chain) timestamp nonce))
    ok (record {
      version = proof_version;
      url_hash = lib.sha256 url;
      data_hash = lib.sha256 selected;
      response_hash = lib.sha256 response_body;
      cert_fingerprint = cert_fingerprint chain;
      timestamp = timestamp;
      nonce = nonce;
      r = (lib.split_bytes (unwrap_or (lib.normalize_s signature) signature)).0;
      s = (lib.split_bytes (unwrap_or (lib.normalize_s signature) signature)).1;
      v = lib.to_byte recovery_id;
    })

  -- Step 5.
  unfoldable pub redacted : Option (List Text) → ZkTlsProof → Option (Result ZkTlsProof ProofError)
  unfolding redact_loop to_bytes
  redacted none proof = some (ok proof)
  redacted (some secrets) proof = checked proof (redact_loop (to_bytes proof) secrets)

  unfoldable pub generate_proof :
      Text
      → List ℕ
      → Text
      → CapturedChain
      → lib.Key
      → List ℕ
      → Option (List Text)
      → Option (Result ZkTlsProof ProofError)
  unfolding sign_proof redacted
  generate_proof url response_body selector chain signer nonce redact =
      elim (sign_proof url response_body selector chain signer nonce) [
        | err e ↦ some (err e)
        | ok proof ↦ redacted redact proof
      ]

  -- `&hash[12..]` of the key's 64 bytes after its tag.
  unfoldable pub recover_signer : ZkTlsProof → Result (List ℕ) ProofError
  unfolding payload_of
  recover_signer p = elim (lib.recovery_id p.v) [
    | none ↦ err (decode bad_v)
    | some recid ↦ do
      sig ← or_decode (lib.parse_signature (p.r ++ p.s))
      uncompressed ← or_decode (lib.recover (payload_of p) sig recid)
      ok (drop 12 (lib.keccak256 (drop 1 uncompressed)))
  ]
