-- ===== src/Ftso/Submitter.antt =====
-- enclave/enclave_grpc/src/ftso_provider/submitter.rs: the prices, commit hashes and calldata of a
-- submission. Keccak-256 is a parameter. Arrays are lists of bytes of their length.
pub mod Decoding
pub mod Submission
use Prim.Native.String.{String}
use flare_verifiable_rag.Prelude.{
  codes, ℕ, zero, suc, ◌+◌, ◌-◌, ◌*◌, ◌^◌, Bool, true, false, not, ◌||◌, List, [], ◌∷◌, ◌++◌,
  length, concat, map, take, if◌then◌else◌, Result, ok, err, ◌>>=◌,
}
use flare_verifiable_rag.Prelude.Bytes.{to_be_bytes, zeros}
use flare_verifiable_rag.Ftso.{Floats, le, lt, zero_f}

-- What the text of an error says.
pub data PriceError (F : Type 0) : Type 0 where
  not_positive overflows : F → PriceError F
  no_feeds : PriceError F

unfoldable pub format_price : (f : Floats) → f.F → Result ℕ (PriceError f.F)
format_price f usd =
    let scaled = f.mul usd (f.of_u64 100000) in
    if not (f.is_finite usd) || le f usd (zero_f f)
    then err (not_positive usd)
    else if lt f (f.of_u64 (2 ^ 64 - 1)) scaled
    then err (overflows usd)
    else ok (f.as_u64 (f.round scaled))

unfoldable pub commit_preimage : ℕ → List ℕ → List ℕ → List ℕ
commit_preimage price random voter = concat (to_be_bytes 8 price ∷ random ∷ zeros 12 ∷ voter ∷ [])

unfoldable pub push_u256 : List ℕ → ℕ → List ℕ
push_u256 out value = (out ++ zeros 24) ++ to_be_bytes 8 value

-- `for v in values { push_u256(&mut out, *v); }`
unfoldable pub push_all : List ℕ → List ℕ → List ℕ
unfolding push_u256
push_all out [] = out
push_all out (v ∷ values) = push_all (push_u256 out v) values

module _ (keccak256 : List ℕ → List ℕ) where
  unfoldable pub commit_hash : ℕ → List ℕ → List ℕ → List ℕ
  unfolding commit_preimage
  commit_hash price random voter = keccak256 (commit_preimage price random voter)

  unfoldable pub selector : String → List ℕ
  selector signature = take 4 (keccak256 (codes signature))

  unfoldable pub submit_hash_calldata : ℕ → List ℕ → List ℕ
  unfolding selector push_u256
  submit_hash_calldata epoch_id hash =
      push_u256 (selector "submitHash(uint256,bytes32)") epoch_id ++ hash

  unfoldable pub reveal_prices_calldata : ℕ → List ℕ → List ℕ → List ℕ → List ℕ
  unfolding selector push_u256 push_all
  reveal_prices_calldata epoch_id ftso_indices prices random =
      let indices_offset = 4 * 32 in
      let prices_offset = indices_offset + 32 + length ftso_indices * 32 in
      let calldata = selector "revealPrices(uint256,uint256[],uint256[],uint256)" in
      let calldata = push_u256 calldata epoch_id in
      let calldata = push_u256 calldata indices_offset in
      let calldata = push_u256 calldata prices_offset in
      let calldata = calldata ++ random in
      let calldata = push_u256 calldata (length ftso_indices) in
      let calldata = push_all calldata ftso_indices in
      let calldata = push_u256 calldata (length prices) in push_all calldata prices

pub record PriceSubmission : Type 0 where
  pub epoch_id : ℕ
  pub ftso_indices : List ℕ
  pub prices : List ℕ
  pub random : List ℕ
  pub hashes : List (List ℕ)

-- The three vectors that the loop of `PriceSubmission::new` fills.
pub record Columns : Type 0 where
  pub indices : List ℕ
  pub values : List ℕ
  pub commits : List (List ℕ)

module _ (f : Floats) (keccak256 : List ℕ → List ℕ) where
  unfoldable pub fill : List ℕ → List ℕ → Columns → List (ℕ × f.F) → Result Columns (PriceError f.F)
  unfolding format_price commit_hash
  fill random voter c [] = ok c
  fill random voter c ((index, usd) ∷ feeds) = elim (format_price f usd) [
    | err e ↦ err e
    | ok price ↦
        fill random voter
          (record {
            indices = c.indices ++ index ∷ [];
            values = c.values ++ price ∷ [];
            commits = c.commits ++ commit_hash keccak256 price random voter ∷ [];
          })
          feeds
  ]

  -- `PriceSubmission::new`
  unfoldable pub new_submission :
      ℕ → List (ℕ × f.F) → List ℕ → List ℕ → Result PriceSubmission (PriceError f.F)
  unfolding fill
  new_submission epoch_id [] random voter = err no_feeds
  new_submission epoch_id (feed ∷ feeds) random voter = do
    c ← fill random voter (record { indices = []; values = []; commits = [] }) (feed ∷ feeds)
    ok (record {
      epoch_id = epoch_id;
      ftso_indices = c.indices;
      prices = c.values;
      random = random;
      hashes = c.commits;
    })

module _ (keccak256 : List ℕ → List ℕ) where
  unfoldable pub submit_txs : PriceSubmission → List (List ℕ)
  unfolding submit_hash_calldata
  submit_txs s = map (submit_hash_calldata keccak256 s.epoch_id) s.hashes

  unfoldable pub reveal_tx : PriceSubmission → List ℕ
  unfolding reveal_prices_calldata
  reveal_tx s = reveal_prices_calldata keccak256 s.epoch_id s.ftso_indices s.prices s.random
