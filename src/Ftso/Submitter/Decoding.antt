-- ===== src/Ftso/Submitter/Decoding.antt =====
-- The calldata against the ABI's rules for reading it, which the contract follows: the arguments lie
-- behind the four bytes of the selector in words of 32 bytes, and the word of an array holds the offset
-- of its length, which its members follow.
use Prim.Native.String.{String}
use flare_verifiable_rag.Prelude.{
  codes, ℕ, zero, suc, ◌+◌, ◌*◌, ◌^◌, ◌<◌, ◌≡◌, refl, sym, ap, ◌∙◌, subst, some, List, [], ◌∷◌,
  ◌++◌, length, length-append, concat, map, take, drop, slice, take-length, drop-length, get_elem?,
  All, append_assoc, append-nil, arith,
}
use flare_verifiable_rag.Prelude.Bytes.{
  zeros, to_be_bytes, from_be_bytes, from_be_loop, length-to_be_bytes, from_be_bytes-to_be_bytes,
  length-take, slice-concat, drop-concat,
}
use flare_verifiable_rag.Ftso.Submitter.{
  push_u256, push_all, selector, submit_hash_calldata, reveal_prices_calldata,
}

abbrev pub IsU64 : ℕ → Type 0
IsU64 n = n < 256 ^ 8

unfoldable pub u256 : ℕ → List ℕ
u256 n = zeros 24 ++ to_be_bytes 8 n

-- The word at an offset.
unfoldable pub word_at : List ℕ → ℕ → ℕ
word_at payload offset = from_be_bytes (slice payload offset (offset + 32))

-- The first `n` words.
unfoldable pub words : ℕ → List ℕ → List ℕ
words zero bytes = []
words (suc n) bytes = from_be_bytes (take 32 bytes) ∷ words n (drop 32 bytes)

-- The array whose length stands at an offset.
unfoldable pub array_at : List ℕ → ℕ → List ℕ
unfolding word_at words
array_at payload offset = words (word_at payload offset) (drop (offset + 32) payload)

unfoldable pub decode_submit : List ℕ → ℕ × List ℕ
unfolding word_at
decode_submit calldata = let payload = drop 4 calldata in (word_at payload 0, slice payload 32 64)

unfoldable pub decode_reveal : List ℕ → ℕ × (List ℕ × (List ℕ × List ℕ))
unfolding word_at array_at
decode_reveal calldata =
    let payload = drop 4 calldata in
    (
      word_at payload 0,
      (
        array_at payload (word_at payload 32),
        (array_at payload (word_at payload 64), slice payload 96 128),
      ),
    )

pub length-u256 : (n : ℕ) → length (u256 n) ≡ 32
unfolding u256
length-u256 n = omega (arith, length-to_be_bytes 8 n)

from_be_bytes-u256 : (n : ℕ) → IsU64 n → from_be_bytes (u256 n) ≡ n
unfolding u256 from_be_bytes from_be_loop
from_be_bytes-u256 n h = from_be_bytes-to_be_bytes 8 n h

push_u256_lem : (out : List ℕ) (n : ℕ) → push_u256 out n ≡ out ++ u256 n
unfolding push_u256 u256
push_u256_lem out n = append_assoc out (zeros 24) (to_be_bytes 8 n)

push_all_lem : (out values : List ℕ) → push_all out values ≡ out ++ concat (map u256 values)
unfolding push_all
push_all_lem out [] = sym (append-nil out)
push_all_lem out (v ∷ values) =
    push_all_lem (push_u256 out v) values
    ∙ ap (λ r. r ++ concat (map u256 values)) (push_u256_lem out v)
    ∙ append_assoc out (u256 v) (concat (map u256 values))

words_lem :
    (values rest : List ℕ)
    → All IsU64 values
    → words (length values) (concat (map u256 values) ++ rest) ≡ values
unfolding words
words_lem [] rest a = refl
words_lem (v ∷ values) rest a =
    let tail : List ℕ = concat (map u256 values) ++ rest in
    let e : concat (map u256 (v ∷ values)) ++ rest ≡ u256 v ++ tail =
      append_assoc (u256 v) (concat (map u256 values)) rest in
    let first : take 32 (u256 v ++ tail) ≡ u256 v =
      subst (λ n. take n (u256 v ++ tail) ≡ u256 v) (length-u256 v) (take-length (u256 v) tail) in
    let later : drop 32 (u256 v ++ tail) ≡ tail =
      subst (λ n. drop n (u256 v ++ tail) ≡ tail) (length-u256 v) (drop-length (u256 v) tail) in
    ap (words (suc (length values))) e
    ∙ rw (first, later, from_be_bytes-u256 v a.0) (ap (λ r. v ∷ r) (words_lem values rest a.1))

-- `submit_hash_calldata`, and `reveal_prices_calldata`, as one list of parts behind the selector.
abbrev reveal_parts : ℕ → List ℕ → List ℕ → List ℕ → List (List ℕ)
reveal_parts epoch_id indices prices random =
    u256 epoch_id
    ∷ u256 128
    ∷ u256 (160 + length indices * 32)
    ∷ random
    ∷ u256 (length indices)
    ∷ concat (map u256 indices)
    ∷ u256 (length prices)
    ∷ concat (map u256 prices)
    ∷ []

length-words : (values : List ℕ) → length (concat (map u256 values)) ≡ length values * 32
length-words [] = refl
length-words (v ∷ values) =
    omega
      (arith, length-append (u256 v) (concat (map u256 values)), length-u256 v, length-words values)

-- The word that is the part `k`.
word_at-part :
    (parts : List (List ℕ)) (k offset n : ℕ)
    → get_elem? parts k ≡ some (u256 n)
    → length (concat (take k parts)) ≡ offset
    → IsU64 n
    → word_at (concat parts) offset ≡ n
unfolding word_at
word_at-part parts k offset n h s small =
    ap from_be_bytes
      (slice-concat parts k offset (offset + 32) (u256 n) h s (omega (arith, length-u256 n)))
    ∙ from_be_bytes-u256 n small

-- The array whose length is the part `k`, and whose members are the next one.
array_at-part :
    (parts : List (List ℕ)) (k offset : ℕ) (values : List ℕ) (rest : List (List ℕ))
    → get_elem? parts k ≡ some (u256 (length values))
    → length (concat (take k parts)) ≡ offset
    → length (concat (take (suc k) parts)) ≡ offset + 32
    → drop (suc k) parts ≡ concat (map u256 values) ∷ rest
    → IsU64 (length values)
    → All IsU64 values
    → array_at (concat parts) offset ≡ values
unfolding array_at
array_at-part parts k offset values rest h s t d small a =
    rw
      (
        word_at-part parts k offset (length values) h s small,
        drop-concat parts (suc k) (offset + 32) t,
        d,
      )
      (words_lem values (concat rest) a)

module _ (keccak256 : List ℕ → List ℕ) where
  abbrev pub IsHash : Type 0
  IsHash = (bytes : List ℕ) → length (keccak256 bytes) ≡ 32

  submit_parts :
      (epoch_id : ℕ) (hash : List ℕ)
      → submit_hash_calldata keccak256 epoch_id hash
        ≡ selector keccak256 "submitHash(uint256,bytes32)" ++ concat (u256 epoch_id ∷ hash ∷ [])
  unfolding submit_hash_calldata
  submit_parts epoch_id hash =
      let sel = selector keccak256 "submitHash(uint256,bytes32)" in
      ap (λ r. r ++ hash) (push_u256_lem sel epoch_id)
      ∙ append_assoc sel (u256 epoch_id) hash
      ∙ ap (λ r. sel ++ (u256 epoch_id ++ r)) (sym (append-nil hash))

  reveal_prices_parts :
      (epoch_id : ℕ) (indices prices random : List ℕ)
      → reveal_prices_calldata keccak256 epoch_id indices prices random
        ≡ selector keccak256 "revealPrices(uint256,uint256[],uint256[],uint256)"
          ++ concat (reveal_parts epoch_id indices prices random)
  unfolding reveal_prices_calldata
  reveal_prices_parts epoch_id indices prices random =
      simp (push_u256_lem, push_all_lem, append_assoc, append-nil) refl

  drop-selector :
      (signature : String) (bytes : List ℕ)
      → IsHash
      → drop 4 (selector keccak256 signature ++ bytes) ≡ bytes
  unfolding selector
  drop-selector signature bytes h =
      let sel = take 4 (keccak256 (codes signature)) in
      let four : length sel ≡ 4 = length-take 4 _ (omega (arith, h (codes signature))) in
      subst (λ n. drop n (sel ++ bytes) ≡ bytes) four (drop-length sel bytes)

  -- Read by the rules of the ABI, the calldata of `submitHash` gives back the epoch and the hash.
  pub decode_submit_lem :
      (epoch_id : ℕ) (hash : List ℕ)
      → IsHash
      → IsU64 epoch_id
      → length hash ≡ 32
      → decode_submit (submit_hash_calldata keccak256 epoch_id hash) ≡ (epoch_id, hash)
  unfolding decode_submit
  decode_submit_lem epoch_id hash k small n =
      let parts = u256 epoch_id ∷ hash ∷ [] in
      rw
        (
          submit_parts epoch_id hash,
          drop-selector "submitHash(uint256,bytes32)" (concat parts) k,
          word_at-part parts 0 0 epoch_id refl refl small,
          slice-concat parts 1 32 64 hash refl (omega (arith, length-append {0}, length-u256))
              (omega arith),
        )
        refl

  -- The calldata of `revealPrices` gives back the epoch, the two arrays and the random number.
  pub decode_reveal_lem :
      (epoch_id : ℕ) (indices prices random : List ℕ)
      → IsHash
      → IsU64 epoch_id
      → IsU64 (160 + length indices * 32) × IsU64 (length prices)
      → All IsU64 indices × All IsU64 prices
      → length random ≡ 32
      → decode_reveal (reveal_prices_calldata keccak256 epoch_id indices prices random)
        ≡ (epoch_id, (indices, (prices, random)))
  unfolding decode_reveal
  decode_reveal_lem epoch_id indices prices random k small (n, m) (a, b) l =
      let parts = reveal_parts epoch_id indices prices random in
      rw
        (
          reveal_prices_parts epoch_id indices prices random,
          drop-selector "revealPrices(uint256,uint256[],uint256[],uint256)" (concat parts) k,
          word_at-part parts 0 0 epoch_id refl refl small,
          word_at-part parts 1 32 128 refl (omega (arith, length-append {0}, length-u256))
              (omega arith),
          word_at-part parts 2 64 (160 + length indices * 32) refl
              (omega (arith, length-append {0}, length-u256)) n,
          slice-concat parts 3 96 128 random refl (omega (arith, length-append {0}, length-u256))
              (omega arith),
          array_at-part parts 4 128 indices _ refl (omega (arith, length-append {0}, length-u256))
              (omega (arith, length-append {0}, length-u256)) refl (omega arith) a,
          array_at-part parts 6 (160 + length indices * 32) prices _ refl
              (omega (arith, length-append {0}, length-u256, length-words indices))
              (omega (arith, length-append {0}, length-u256, length-words indices)) refl m b,
        )
        refl
