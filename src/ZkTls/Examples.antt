-- ===== src/ZkTls/Examples.antt =====
-- Small runs of proof_generator.rs and cert_verifier.rs, with toy hashes and signatures.
use flare_verifiable_rag.Prelude.{
  ℕ, ◌≡◌, ◌≢◌, ◌↔◌, ◌⊎◌, refl, Bool, true, false, none, some, List, [], ◌∷◌, ◌++◌, length, drop,
  ◌==◌, if◌then◌else◌, arith, ok, err, Result, All, text_eq,
}
use flare_verifiable_rag.Prelude.Bytes.{
  IsByte, to_be_bytes, from_be_bytes, byte_at, length-to_be_bytes, to_be_bytes-IsByte,
}
use flare_verifiable_rag.ZkTls.{
  ProofError, ZkTlsProof, IsWellFormed, to_bytes, from_bytes, build, leaked, decode, expected_bytes,
}
use flare_verifiable_rag.ZkTls.RoundTrip.{from_bytes_correct}
use flare_verifiable_rag.ZkTls.Generation.{
  Backend, CapturedChain, jq_select, collect, cert_fingerprint, all_der, sign_proof, redacted,
  redact_loop, any_window, generate_proof, recover_signer,
}
use flare_verifiable_rag.ZkTls.Sink.{
  ChainSink, new, push, rposition, remove, take_for, verify_server_cert,
}
use flare_verifiable_rag.ZkTls.Sink.Capture.{
  LastOf, is_for, take_for_correct, Reached, start, handshake, Holds, Reached-Holds,
}
use flare_verifiable_rag.ZkTls.Redaction.{NoneOccurs, generate_proof-redacts}
use flare_verifiable_rag.ZkTls.Binding.{IsLawful, Binds, generate_proof_correct}

abbrev bit : Bool → ℕ
bit true = 1
bit false = 0

-- A hash is the length, a key is a bit, and a signature is the key.
abbrev toy : Backend
toy = record {
  Filter = Unit;
  Key = Bool;
  Signature = Bool;
  Recovery = Unit;
  compile = λ selector. ok tt;
  run = λ filter json. ok json ∷ [];
  sha256 = λ bytes. to_be_bytes 32 (length bytes);
  keccak256 = λ bytes. to_be_bytes 32 (from_be_bytes bytes);
  now = ok 1700000000;
  sign = λ key message. ok (key, tt);
  normalize_s = λ s. none;
  split_bytes = λ s. (to_be_bytes 32 (bit s), to_be_bytes 32 0);
  to_byte = λ r. 0;
  recovery_id = λ v. if v == 0 then some tt else none;
  parse_signature = λ bytes. ok (byte_at bytes 31 == 1);
  recover = λ message s r. ok (to_be_bytes 65 (bit s));
}

toy_parses :
    (s : Bool) → toy.parse_signature ((toy.split_bytes s).0 ++ (toy.split_bytes s).1) ≡ ok s
unfolding to_be_bytes
toy_parses true = refl
toy_parses false = refl

toy-IsLawful : IsLawful toy (λ k. to_be_bytes 65 (bit k))
unfolding to_be_bytes
toy-IsLawful = record {
  sha256_array =
      λ bytes. (length-to_be_bytes 32 (length bytes), to_be_bytes-IsByte 32 (length bytes));
  now_u64 = λ t e. ground arith;
  halves = λ s. (
    (length-to_be_bytes 32 (bit s), to_be_bytes-IsByte 32 (bit s)),
    (length-to_be_bytes 32 0, to_be_bytes-IsByte 32 0),
  );
  recovery_byte = λ r. (omega arith, refl);
  is_low = λ k m s r e. refl;
  parses = toy_parses;
  recovers = λ k m s r e. cc;
}

abbrev chain : CapturedChain
chain = record { server = b'a' ∷ []; end_entity = 48 ∷ 1 ∷ []; intermediates = (49 ∷ []) ∷ [] }

abbrev nonce : List ℕ
nonce = to_be_bytes 16 7

abbrev body : List ℕ
body = b'4' ∷ b'2' ∷ []

abbrev url : List ℕ
url = b'u' ∷ []

abbrev secrets : List (List ℕ)
secrets = (b'k' ∷ b'e' ∷ b'y' ∷ []) ∷ []

abbrev sample : ZkTlsProof
sample = record {
  version = 1;
  url_hash = to_be_bytes 32 1;
  data_hash = to_be_bytes 32 2;
  response_hash = to_be_bytes 32 2;
  cert_fingerprint = to_be_bytes 32 3;
  timestamp = 1700000000;
  nonce = nonce;
  r = to_be_bytes 32 1;
  s = to_be_bytes 32 0;
  v = 0;
}

sample_signed : sign_proof toy url body [] chain true nonce ≡ ok sample
unfolding sign_proof jq_select collect cert_fingerprint all_der
sample_signed = refl

sample_generated : generate_proof toy url body [] chain true nonce (some secrets) ≡ some (ok sample)
unfolding generate_proof redacted redact_loop any_window text_eq to_bytes to_be_bytes sign_proof
    jq_select collect cert_fingerprint all_der
sample_generated = refl

-- `"".windows(0)`
empty_secret_panics : generate_proof toy url body [] chain true nonce (some ([] ∷ [])) ≡ none
unfolding generate_proof redacted redact_loop sign_proof jq_select collect
empty_secret_panics = refl

secret_leaks :
    generate_proof toy url body [] chain true nonce (some ((7 ∷ []) ∷ []))
    ≡ some (err (build leaked))
unfolding generate_proof redacted redact_loop any_window text_eq to_bytes to_be_bytes sign_proof
    jq_select collect cert_fingerprint all_der
secret_leaks = refl

sample-IsByte : All IsByte (to_bytes sample)
unfolding to_bytes to_be_bytes
sample-IsByte = omega arith

from_bytes_correct_example :
    ((p : ZkTlsProof)
      → (from_bytes (to_bytes sample) ≡ ok p) ↔ (IsWellFormed p × (to_bytes p ≡ to_bytes sample)))
    × ((e : ProofError)
        → (from_bytes (to_bytes sample) ≡ err e) ↔ (
            (length (to_bytes sample) ≢ 218)
            × (e ≡ decode (expected_bytes 218 (length (to_bytes sample))))))
from_bytes_correct_example = from_bytes_correct (to_bytes sample) sample-IsByte

generate_proof-redacts_example :
    (generate_proof toy url body [] chain true nonce (some secrets) ≢ none)
    × ((p : ZkTlsProof)
        → (generate_proof toy url body [] chain true nonce (some secrets) ≡ some (ok p)) ↔ (
            (sign_proof toy url body [] chain true nonce ≡ ok p) × NoneOccurs secrets (to_bytes p)))
generate_proof-redacts_example =
    generate_proof-redacts toy url body [] chain true nonce secrets ((λ e. cc), tt)

generate_proof_correct_example :
    Binds toy url body [] chain true nonce sample
    × (from_bytes (to_bytes sample) ≡ ok sample)
    × (recover_signer toy sample
        ≡ ok (drop 12 (to_be_bytes 32 (from_be_bytes (drop 1 (to_be_bytes 65 1))))))
generate_proof_correct_example =
    generate_proof_correct toy url body [] chain true nonce (λ k. to_be_bytes 65 (bit k))
      (some secrets) sample toy-IsLawful (length-to_be_bytes 16 7, to_be_bytes-IsByte 16 7)
      sample_generated

-- The sink.
abbrev toy_validate : CapturedChain → Result {0, 0} Unit (List ℕ)
toy_validate c = if text_eq c.end_entity [] then err (b'x' ∷ []) else ok tt

abbrev other : CapturedChain
other = record { server = b'b' ∷ []; end_entity = 50 ∷ []; intermediates = [] }

abbrev one : ChainSink
one = record { inner = chain ∷ []; max = 1 }

abbrev two : ChainSink
two = record { inner = other ∷ []; max = 1 }

reached_one : Reached toy_validate 1 one
unfolding verify_server_cert push text_eq
reached_one = handshake (new 1) one chain (start (new 1) refl) refl

reached_two : Reached toy_validate 1 two
unfolding verify_server_cert push text_eq
reached_two = handshake one two other reached_one refl

Reached-Holds_example : Holds toy_validate 1 two
Reached-Holds_example = Reached-Holds toy_validate 1 (omega arith) two reached_two

abbrev twice : ChainSink
twice = record { inner = chain ∷ other ∷ chain ∷ []; max = 64 }

-- The older chain of the server stays.
older_stays :
    take_for (b'a' ∷ []) twice ≡ (some chain, record { inner = chain ∷ other ∷ []; max = 64 })
unfolding take_for rposition remove text_eq
older_stays = refl

take_for_correct_example :
    (take_for (b'a' ∷ []) twice ≡ (none, twice))
      × All (λ c. is_for (b'a' ∷ []) c ≡ false) twice.inner
    ⊎ ((c : CapturedChain) × (rest : List CapturedChain) × (take_for (b'a' ∷ []) twice
          ≡ (some c, record { inner = rest; max = 64 }))
        × LastOf (is_for (b'a' ∷ [])) twice.inner c rest)
take_for_correct_example = take_for_correct (b'a' ∷ []) twice
