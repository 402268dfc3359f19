-- ===== src/Attestation/Lookup.antt =====
-- The claims that the verifier finds in an encoded claim set.
use flare_verifiable_rag.Prelude.{
  codes, ℕ, ◌%◌, ◌^◌, ◌<◌, ◌≡◌, refl, some, List, [], ◌∷◌, arith, text_eq, lt→ltb, ok,
}
use flare_verifiable_rag.Attestation.{
  pos, Value, integer, bytes, text, map, entries, EatClaims, encode_claims, int, as_i64, from_bits,
  container, claim_iat, claim_nonce, claim_submods, claim_swname, cose_header_alg, alg_es256,
}
use flare_verifiable_rag.Attestation.Token.{protected_header}
use flare_verifiable_rag.Attestation.Verifier.{
  claim, find_in, find, is_integer, is_text, eq_ℤ, as_text, as_u64, container_digest,
  container_hardware, container_text, text_in, find_text, alg_of,
}

module _ (c : EatClaims) (n : ℕ) (rest : List ℕ) (h : c.nonce ≡ n ∷ rest) where
  pub claim-swname : claim (encode_claims c) claim_swname ≡ some (text c.swname)
  unfolding claim find_in find is_integer eq_ℤ encode_claims int as_i64 from_bits
  claim-swname = rw h refl

  pub claim-nonce : claim (encode_claims c) claim_nonce ≡ some (bytes c.nonce)
  unfolding claim find_in find is_integer eq_ℤ encode_claims int as_i64 from_bits
  claim-nonce = rw h refl

  pub claim-iat : claim (encode_claims c) claim_iat ≡ some (int (pos c.iat))
  unfolding claim find_in find is_integer eq_ℤ encode_claims int as_i64 from_bits
  claim-iat = refl

  claim-submods :
      claim (encode_claims c) claim_submods
      ≡ some (map (entries ((text (codes "container"), map (entries (container c))) ∷ [])))
  unfolding claim find_in find is_integer eq_ℤ encode_claims int as_i64 from_bits
  claim-submods = rw h refl

  pub container_digest_lem : container_digest (encode_claims c) ≡ some c.image_digest
  unfolding container_digest container_text find_in find is_text text_eq text_in find_text container
      as_text
  container_digest_lem = rw (claim-submods, container_text) refl

  pub container_hardware_lem : container_hardware (encode_claims c) ≡ some c.hardware
  unfolding container_hardware container_text find_in find is_text text_eq text_in find_text
      container as_text
  container_hardware_lem = rw (claim-submods, container_text) refl

pub as_u64-int : (n : ℕ) → n < 2 ^ 63 → as_u64 (int (pos n)) ≡ some n
unfolding as_u64 int as_i64 from_bits
as_u64-int n h = let e : n % 2 ^ 64 ≡ n = omega arith in rw (e, lt→ltb n (2 ^ 63) h, e) refl

pub alg_declared :
    (a : Value) × (claim protected_header cose_header_alg ≡ some a) × (alg_of a ≡ ok tt)
unfolding claim find_in find is_integer eq_ℤ protected_header int as_i64 from_bits alg_of
alg_declared = (integer alg_es256, refl, refl)
