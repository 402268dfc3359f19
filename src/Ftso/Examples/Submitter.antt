-- ===== src/Ftso/Examples/Submitter.antt =====
-- Small runs of the submission of prices, of one feed and with a hash of the right length.

use flare_verifiable_rag.Prelude.{ℕ, ◌≡◌, ◌≢◌, ◌⊎◌, List, [], ◌∷◌, ◌++◌, length, arith, ok, err}
use flare_verifiable_rag.Prelude.Bytes.{zeros, to_be_bytes, length-to_be_bytes}
use flare_verifiable_rag.Ftso.Submitter.{
  PriceError, no_feeds, commit_preimage, PriceSubmission, new_submission,
}
use flare_verifiable_rag.Ftso.Submitter.Decoding.{u256}
use flare_verifiable_rag.Ftso.Submitter.Submission.{
  commit_preimage-ne-abi, Refused, Formats, Saturates, Discloses, new_submission_correct,
}
use flare_verifiable_rag.Ftso.Examples.{cents}

abbrev toy_hash : List ℕ → List ℕ
toy_hash bytes = to_be_bytes 32 (length bytes)

abbrev random : List ℕ
random = to_be_bytes 32 5

abbrev voter : List ℕ
voter = to_be_bytes 20 6

abbrev one_feed : List (ℕ × ℕ)
one_feed = (7, 1200) ∷ []

cents-Saturates : Saturates cents toy_hash random voter
cents-Saturates x = omega arith

commit_preimage-ne-abi_example :
    commit_preimage 58432 random voter ≢ u256 58432 ++ (random ++ (zeros 12 ++ voter))
commit_preimage-ne-abi_example =
    commit_preimage-ne-abi 58432 random voter (length-to_be_bytes 32 5) (length-to_be_bytes 20 6)

new_submission_correct_example :
    (one_feed ≡ []) × (new_submission cents toy_hash 3 one_feed random voter ≡ err no_feeds)
    ⊎ (((e : PriceError ℕ) × Refused cents toy_hash random voter one_feed e
          × (new_submission cents toy_hash 3 one_feed random voter ≡ err e))
        ⊎ ((s : PriceSubmission) × (prices : List ℕ) × (new_submission cents toy_hash 3 one_feed
                random voter
              ≡ ok s)
            × Formats cents toy_hash random voter one_feed prices
            × Discloses cents toy_hash random voter 3 one_feed prices s))
new_submission_correct_example =
    new_submission_correct cents toy_hash random voter 3 one_feed
      (λ bytes. length-to_be_bytes 32 (length bytes)) cents-Saturates (omega arith) (omega arith)
      (omega arith, tt) (length-to_be_bytes 32 5)
