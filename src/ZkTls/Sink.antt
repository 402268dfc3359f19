-- ===== src/ZkTls/Sink.antt =====
-- `ChainSink` and `verify_server_cert` of enclave/enclave_grpc/src/zktls/cert_verifier.rs. The queue is
-- the list of its chains from front to back; its lock makes each operation one step.
pub mod Capture
use flare_verifiable_rag.Prelude.{
  ℕ, zero, suc, Bool, true, false, Option, none, some, List, [], ◌∷◌, ◌++◌, length, leb, drop,
  if◌then◌else◌, text_eq, Result, ok, err,
}
use flare_verifiable_rag.ZkTls.{Text}
use flare_verifiable_rag.ZkTls.Generation.{CapturedChain}

pub record ChainSink : Type 0 where
  pub inner : List CapturedChain
  pub max : ℕ

abbrev pub new : ℕ → ChainSink
new max = record { inner = []; max = max }

-- At the bound the front is dropped first.
unfoldable pub push : CapturedChain → ChainSink → ChainSink
push chain sink =
    let q = if leb sink.max (length sink.inner) then drop 1 sink.inner else sink.inner in
    record { inner = q ++ chain ∷ []; max = sink.max }

module _ {ℓ} {A : Type ℓ} where
  -- The last position that passes the test.
  unfoldable pub rposition : (A → Bool) → List A → Option ℕ
  rposition test [] = none
  rposition test (x ∷ xs) = elim (rposition test xs) [
    | some i ↦ some (suc i)
    | none ↦ if test x then some 0 else none
  ]

  abbrev keep : A → Option A × List A → Option A × List A
  keep x (o, rest) = (o, x ∷ rest)

  -- `VecDeque::remove`
  unfoldable pub remove : ℕ → List A → Option A × List A
  remove i [] = (none, [])
  remove zero (x ∷ xs) = (some x, xs)
  remove (suc i) (x ∷ xs) = keep x (remove i xs)

unfoldable pub take_for : Text → ChainSink → Option CapturedChain × ChainSink
unfolding rposition remove
take_for server sink =
    elim (rposition (λ (c : CapturedChain). text_eq c.server server) sink.inner) [
      | none ↦ (none, sink)
      | some i ↦
          let (chain, rest) = remove i sink.inner in
          (chain, record { inner = rest; max = sink.max })
    ]

-- `validate` is the check of rustls and webpki, with the clock and the rest of the handshake fixed:
-- it takes the name of the server and the presented chain. Only a valid chain is recorded.
unfoldable pub verify_server_cert :
    (CapturedChain → Result {0, 0} Unit Text)
    → CapturedChain
    → ChainSink
    → Result {0, 0} Unit Text × ChainSink
unfolding push
verify_server_cert validate presented sink = elim (validate presented) [
  | err e ↦ (err e, sink)
  | ok verified ↦ (ok verified, push presented sink)
]
