-- ===== src/Ftso/Submitter/Submission.antt =====
-- A submission: what is revealed is what was committed to.
use flare_verifiable_rag.Prelude.{
  Memᴰ, ℕ, suc, ◌+◌, ◌-◌, ◌*◌, not, ◌||◌, Bool-cases, ◌^◌, ◌≡◌, ◌≢◌, ◌⊎◌, inl, inr, refl, ap, ◌∙◌,
  subst, List, [], ◌∷◌, ◌++◌, length, length-append, length-map, map, All, append_assoc, append-nil,
  arith, Result-cases, ok, err,
}
use flare_verifiable_rag.Prelude.Bytes.{zeros, length-to_be_bytes}
use flare_verifiable_rag.Ftso.{Floats, le, lt, zero_f}
use flare_verifiable_rag.Ftso.Submitter.{
  PriceError, no_feeds, format_price, commit_preimage, commit_hash, submit_hash_calldata,
  PriceSubmission, Columns, fill, new_submission, submit_txs, reveal_tx,
}
use flare_verifiable_rag.Ftso.Submitter.Decoding.{
  IsU64, u256, length-u256, decode_submit, decode_reveal, IsHash, decode_submit_lem,
  decode_reveal_lem,
}

-- What is hashed for a commit is never the ABI encoding of the price, the random number and the
-- address: that has a word of 32 bytes for the price.
pub commit_preimage-ne-abi :
    (price : ℕ) (random voter : List ℕ)
    → length random ≡ 32
    → length voter ≡ 20
    → commit_preimage price random voter ≢ u256 price ++ (random ++ (zeros 12 ++ voter))
unfolding commit_preimage
commit_preimage-ne-abi price random voter r v e =
    absurd (omega (arith, ap length e, length-append {0}, length-u256, length-to_be_bytes, r, v))

abbrev fst_of : {F : Type 0} → ℕ × F → ℕ
fst_of p = p.0

module _ (f : Floats) (keccak256 : List ℕ → List ℕ) (random voter : List ℕ) where
  -- The prices are those of the feeds, in the protocol's integers.
  abbrev pub Formats : List (ℕ × f.F) → List ℕ → Type 0
  Formats feeds prices =
      map (λ (p : ℕ × f.F). format_price f p.1) feeds ≡ map (λ (n : ℕ). ok n) prices

  abbrev filled : Columns → List (ℕ × f.F) → List ℕ → Columns
  filled c feeds prices = record {
    indices = c.indices ++ map fst_of feeds;
    values = c.values ++ prices;
    commits = c.commits ++ map (λ p. commit_hash keccak256 p random voter) prices;
  }

  abbrev pub Refused : List (ℕ × f.F) → PriceError f.F → Type 0
  Refused feeds e = (p : ℕ × f.F) × Memᴰ p feeds × (format_price f p.1 ≡ err e)

  fill_lem :
      (c : Columns) (feeds : List (ℕ × f.F))
      → ((prices : List ℕ) × Formats feeds prices
          × (fill f keccak256 random voter c feeds ≡ ok (filled c feeds prices)))
        ⊎ ((e : PriceError f.F) × Refused feeds e × (fill f keccak256 random voter c feeds ≡ err e))
  unfolding fill
  fill_lem c [] =
      inl ([], refl, cc (append-nil c.indices, append-nil c.values, append-nil c.commits))
  fill_lem c ((index, usd) ∷ feeds) = elim (Result-cases (format_price f usd)) [
    | inr (e, q) ↦ inr (e, ((index, usd), Memᴰ.head refl, q), rw (q, fill) refl)
    | inl (price, q) ↦
        let hash : List ℕ = commit_hash keccak256 price random voter in
        let c' : Columns = record {
          indices = c.indices ++ index ∷ [];
          values = c.values ++ price ∷ [];
          commits = c.commits ++ hash ∷ [];
        } in
        elim (fill_lem c' feeds) [
          | inr (e, (p, m, x), r) ↦ inr (e, (p, Memᴰ.tail m, x), rw (q, fill) r)
          | inl (prices, h, r) ↦ inl (
            price ∷ prices,
            cc (q, h),
            rw (q, fill)
                (r
                  ∙ cc (
                    append_assoc c.indices (index ∷ []) (map fst_of feeds),
                    append_assoc c.values (price ∷ []) prices,
                    append_assoc c.commits (hash ∷ [])
                        (map (λ p. commit_hash keccak256 p random voter) prices),
                  )),
          )
        ]
  ]

  -- The conversion `as u64` saturates.
  abbrev pub Saturates : Type 0
  Saturates = (x : f.F) → IsU64 (f.as_u64 x)

  format_price-IsU64 : (usd : f.F) (n : ℕ) → Saturates → format_price f usd ≡ ok n → IsU64 n
  unfolding format_price
  format_price-IsU64 usd n sat h =
      let scaled = f.mul usd (f.of_u64 100000) in
      elim (Bool-cases (not (f.is_finite usd) || le f usd (zero_f f))) [
        | inl e ↦ absurd (cc (rw (e, format_price) at h))
        | inr e ↦ elim (Bool-cases (lt f (f.of_u64 (2 ^ 64 - 1)) scaled)) [
          | inl g ↦ absurd (cc (rw (e, g, format_price) at h))
          | inr g ↦
              let same : f.as_u64 (f.round scaled) ≡ n = cc (rw (e, g, format_price) at h) in
              subst IsU64 same (sat (f.round scaled))
        ]
      ]

  Formats-IsU64 :
      (feeds : List (ℕ × f.F)) (prices : List ℕ)
      → Saturates
      → Formats feeds prices
      → All IsU64 prices × (length prices ≡ length feeds)
  Formats-IsU64 [] [] sat h = (tt, refl)
  Formats-IsU64 [] (n ∷ prices) sat h = absurd (cc)
  Formats-IsU64 (p ∷ feeds) [] sat h = absurd (cc)
  Formats-IsU64 ((index, usd) ∷ feeds) (n ∷ prices) sat h =
      let first : format_price f usd ≡ ok n = cc in
      let later : Formats feeds prices = cc in
      let (a, l) = Formats-IsU64 feeds prices sat later in
      ((format_price-IsU64 usd n sat first, a), ap suc l)

  map-decode_submit :
      (epoch_id : ℕ) (prices : List ℕ)
      → IsHash keccak256
      → IsU64 epoch_id
      → map decode_submit (
          map
            (submit_hash_calldata keccak256 epoch_id)
            (map (λ p. commit_hash keccak256 p random voter) prices))
        ≡ map (λ (p : ℕ). (epoch_id, commit_hash keccak256 p random voter)) prices
  unfolding commit_hash
  map-decode_submit epoch_id [] k small = refl
  map-decode_submit epoch_id (p ∷ prices) k small = cc (
    decode_submit_lem keccak256 epoch_id (commit_hash keccak256 p random voter) k small (k _),
    map-decode_submit epoch_id prices k small,
  )

  -- What the contract reads out of the transactions of a submission.
  abbrev pub Discloses : ℕ → List (ℕ × f.F) → List ℕ → PriceSubmission → Type 0
  Discloses epoch_id feeds prices s =
      (decode_reveal (reveal_tx keccak256 s) ≡ (epoch_id, (map fst_of feeds, (prices, random))))
      × (map decode_submit (submit_txs keccak256 s)
          ≡ map (λ (p : ℕ). (epoch_id, commit_hash keccak256 p random voter)) prices)

  -- Let the hash have 32 bytes, and let all numbers fit into 64 bits and the arrays be of their lengths.
  -- A submission is refused exactly if it has no feed or a price that cannot be converted, which is
  -- the reason it gives. Otherwise its reveal transaction, read by the rules of the ABI, discloses
  -- the epoch, the indices of the feeds, their converted prices and the random number; and its commit
  -- transactions hold, for each disclosed price, the commit hash of that price.
  pub new_submission_correct :
      (epoch_id : ℕ) (feeds : List (ℕ × f.F))
      → IsHash keccak256
      → Saturates
      → IsU64 epoch_id
      → IsU64 (160 + length feeds * 32)
      → All IsU64 (map fst_of feeds)
      → length random ≡ 32
      → (feeds ≡ []) × (new_submission f keccak256 epoch_id feeds random voter ≡ err no_feeds)
        ⊎ (((e : PriceError f.F) × Refused feeds e
              × (new_submission f keccak256 epoch_id feeds random voter ≡ err e))
            ⊎ ((s : PriceSubmission) × (prices : List ℕ) × (new_submission f keccak256 epoch_id
                    feeds random voter
                  ≡ ok s)
                × Formats feeds prices
                × Discloses epoch_id feeds prices s))
  unfolding new_submission reveal_tx submit_txs
  new_submission_correct epoch_id [] k sat small n a l = inl (refl, refl)
  new_submission_correct epoch_id (feed ∷ feeds) k sat small n a l =
      elim (fill_lem (record { indices = []; values = []; commits = [] }) (feed ∷ feeds)) [
        | inr (e, q, r) ↦ inr (inl (e, q, rw (r, new_submission) refl))
        | inl (prices, q, r) ↦
            let s : PriceSubmission = record {
              epoch_id = epoch_id;
              ftso_indices = map fst_of (feed ∷ feeds);
              prices = prices;
              random = random;
              hashes = map (λ p. commit_hash keccak256 p random voter) prices;
            } in
            let (b, m) = Formats-IsU64 (feed ∷ feeds) prices sat q in
            let len = length-map fst_of (feed ∷ feeds) in
            inr (
              inr (
                s,
                prices,
                rw (r, new_submission) refl,
                q,
                (
                  decode_reveal_lem keccak256 epoch_id (map fst_of (feed ∷ feeds)) prices random k
                      small (omega (arith, len), omega (arith, m)) (a, b) l,
                  map-decode_submit epoch_id prices k small,
                ),
              ))
      ]
