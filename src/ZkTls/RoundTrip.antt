-- ===== src/ZkTls/RoundTrip.antt =====
-- `from_bytes` is the inverse of `to_bytes`.
use native.Mathlib.Decide.{ℕ_discrete}
use flare_verifiable_rag.Prelude.{
  ℕ, suc, ◌+◌, ◌^◌, ◌≤◌, ◌<◌, ◌≡◌, ◌≢◌, ◌↔◌, refl, sym, ap, ◌∙◌, subst, List, [], ◌∷◌, length,
  length-append, get_elem?, take, concat, slice, All, arith, ok, err, inl, inr, Bool-cases, ◌==◌,
  ==_iff, some,
}
use flare_verifiable_rag.Prelude.Bytes.{
  IsByte, to_be_bytes, from_be_bytes, length-to_be_bytes, from_be_bytes-to_be_bytes,
  to_be_bytes-from_be_bytes, slice-concat, length-slice, slices, concat-slices, slice_all, byte_at,
  slice-byte_at, byte_at-IsByte, All-slice,
}
use flare_verifiable_rag.ZkTls.{
  ProofError, ZkTlsProof, IsWellFormed, IsArray, to_bytes, from_bytes, decode, expected_bytes,
}

abbrev parts : ZkTlsProof → List (List ℕ)
parts p =
    (p.version ∷ [])
    ∷ p.url_hash
    ∷ p.data_hash
    ∷ p.response_hash
    ∷ p.cert_fingerprint
    ∷ to_be_bytes 8 p.timestamp
    ∷ p.nonce
    ∷ p.r
    ∷ p.s
    ∷ (p.v ∷ [])
    ∷ []

pub length-to_bytes : (p : ZkTlsProof) → IsWellFormed p → length (to_bytes p) ≡ 218
unfolding to_bytes
length-to_bytes p w = omega (arith, length-append {0}, length-to_be_bytes)

-- The part `k` of the serialized proof lies at the offset where the parts before it end.
slice-to_bytes :
    (p : ZkTlsProof) (k start end : ℕ) (part : List ℕ)
    → get_elem? (parts p) k ≡ some part
    → length (concat (take k (parts p))) ≡ start
    → start + length part ≡ end
    → slice (to_bytes p) start end ≡ part
unfolding to_bytes
slice-to_bytes p k start end part h s e = slice-concat (parts p) k start end part h s e

byte_at-to_bytes :
    (p : ZkTlsProof) (k i b : ℕ)
    → IsWellFormed p
    → get_elem? (parts p) k ≡ some (b ∷ [])
    → length (concat (take k (parts p))) ≡ i
    → i < 218
    → byte_at (to_bytes p) i ≡ b
byte_at-to_bytes p k i b w h s l = cc (
  slice-to_bytes p k i (suc i) (b ∷ []) h s (omega arith),
  slice-byte_at (to_bytes p) i (suc i) (omega (arith, length-to_bytes p w)) refl,
)

pub from_bytes-to_bytes : (p : ZkTlsProof) → IsWellFormed p → from_bytes (to_bytes p) ≡ ok p
unfolding from_bytes
from_bytes-to_bytes p w =
    rw
      (
        length-to_bytes p w,
        byte_at-to_bytes p 0 0 p.version w refl refl (omega arith),
        slice-to_bytes p 1 1 33 p.url_hash refl (omega arith) (omega arith),
        slice-to_bytes p 2 33 65 p.data_hash refl (omega (arith, length-append {0})) (omega arith),
        slice-to_bytes p 3 65 97 p.response_hash refl
            (omega (arith, length-append {0}, length-to_be_bytes)) (omega arith),
        slice-to_bytes p 4 97 129 p.cert_fingerprint refl
            (omega (arith, length-append {0}, length-to_be_bytes)) (omega arith),
        slice-to_bytes p 5 129 137 (to_be_bytes 8 p.timestamp) refl
            (omega (arith, length-append {0}, length-to_be_bytes))
            (omega (arith, length-to_be_bytes)),
        slice-to_bytes p 6 137 153 p.nonce refl
            (omega (arith, length-append {0}, length-to_be_bytes)) (omega arith),
        slice-to_bytes p 7 153 185 p.r refl (omega (arith, length-append {0}, length-to_be_bytes))
            (omega arith),
        slice-to_bytes p 8 185 217 p.s refl (omega (arith, length-append {0}, length-to_be_bytes))
            (omega arith),
        byte_at-to_bytes p 9 217 p.v w refl (omega (arith, length-append {0}, length-to_be_bytes))
            (omega arith),
        from_be_bytes-to_be_bytes 8 p.timestamp w.timestamp_u64,
      )
      refl

-- What `from_bytes` reads out of 218 bytes.
abbrev read : List ℕ → ZkTlsProof
read bs = record {
  version = byte_at bs 0;
  url_hash = slice bs 1 33;
  data_hash = slice bs 33 65;
  response_hash = slice bs 65 97;
  cert_fingerprint = slice bs 97 129;
  timestamp = from_be_bytes (slice bs 129 137);
  nonce = slice bs 137 153;
  r = slice bs 153 185;
  s = slice bs 185 217;
  v = byte_at bs 217;
}

abbrev cut_points : List ℕ
cut_points = 1 ∷ 33 ∷ 65 ∷ 97 ∷ 129 ∷ 137 ∷ 153 ∷ 185 ∷ 217 ∷ 218 ∷ []

module _ (bs : List ℕ) (n : length bs ≡ 218) (a : All IsByte bs) where
  slice-IsArray :
      (start end width : ℕ) → start + width ≡ end → end ≤ 218 → IsArray width (slice bs start end)
  slice-IsArray start end width e h =
      (omega (arith, length-slice bs start end), All-slice IsByte bs start end a)

  timestamp_bytes :
      (to_be_bytes 8 (from_be_bytes (slice bs 129 137)) ≡ slice bs 129 137)
      × (from_be_bytes (slice bs 129 137) < 256 ^ 8)
  timestamp_bytes =
      let (l, small) = slice-IsArray 129 137 8 refl (omega arith) in
      to_be_bytes-from_be_bytes 8 (slice bs 129 137) l small

  read-IsWellFormed : IsWellFormed (read bs)
  read-IsWellFormed = record {
    version_byte = byte_at-IsByte bs 0 a;
    url_array = slice-IsArray 1 33 32 refl (omega arith);
    data_array = slice-IsArray 33 65 32 refl (omega arith);
    response_array = slice-IsArray 65 97 32 refl (omega arith);
    cert_array = slice-IsArray 97 129 32 refl (omega arith);
    timestamp_u64 = timestamp_bytes.1;
    nonce_array = slice-IsArray 137 153 16 refl (omega arith);
    r_array = slice-IsArray 153 185 32 refl (omega arith);
    s_array = slice-IsArray 185 217 32 refl (omega arith);
    v_byte = byte_at-IsByte bs 217 a;
  }

  parts-read : parts (read bs) ≡ slices bs 0 cut_points
  parts-read =
      let first = slice-byte_at bs 0 1 (omega arith) refl in
      let last = slice-byte_at bs 217 218 (omega arith) refl in
      rw (timestamp_bytes.0, sym first, sym last) refl

  to_bytes-read : to_bytes (read bs) ≡ bs
  unfolding to_bytes
  to_bytes-read =
      ap concat parts-read ∙ concat-slices bs 0 cut_points (omega arith) ∙ slice_all bs 218 n

from_bytes-read : (bs : List ℕ) → length bs ≡ 218 → from_bytes bs ≡ ok (read bs)
unfolding from_bytes
from_bytes-read bs n = rw n refl

from_bytes_refuses :
    (bs : List ℕ) → length bs ≢ 218 → from_bytes bs ≡ err (decode (expected_bytes 218 (length bs)))
unfolding from_bytes
from_bytes_refuses bs h = elim (Bool-cases (length bs == 218)) [
  | inl e ↦ absurd (h ((==_iff (length bs) 218).0 e))
  | inr e ↦ rw e refl
]

-- Bytes are accepted exactly if they are the serialized form of the proof that is returned, which
-- is then well formed; they are refused exactly if there are not 218 of them.
pub from_bytes_correct :
    (bs : List ℕ)
    → All IsByte bs
    → ((p : ZkTlsProof) → (from_bytes bs ≡ ok p) ↔ (IsWellFormed p × (to_bytes p ≡ bs)))
      × ((e : ProofError)
          → (from_bytes bs ≡ err e)
            ↔ ((length bs ≢ 218) × (e ≡ decode (expected_bytes 218 (length bs)))))
from_bytes_correct bs a = (λ p. (forth p, back p), λ e. refused e)
  where
    forth : (p : ZkTlsProof) → from_bytes bs ≡ ok p → IsWellFormed p × (to_bytes p ≡ bs)
    forth p h = elim (ℕ_discrete (length bs) 218) [
      | yes n ↦
          let same : read bs ≡ p = cc (h, from_bytes-read bs n) in
          subst (λ q. IsWellFormed q × (to_bytes q ≡ bs)) same
            (read-IsWellFormed bs n a, to_bytes-read bs n a)
      | no n ↦ cc (h, from_bytes_refuses bs n)
    ]

    back : (p : ZkTlsProof) → IsWellFormed p × (to_bytes p ≡ bs) → from_bytes bs ≡ ok p
    back p (w, e) = subst (λ x. from_bytes x ≡ ok p) e (from_bytes-to_bytes p w)

    refused :
        (e : ProofError)
        → (from_bytes bs ≡ err e)
          ↔ ((length bs ≢ 218) × (e ≡ decode (expected_bytes 218 (length bs))))
    refused e = (
      λ h. elim (ℕ_discrete (length bs) 218) [
        | yes n ↦ absurd (cc (h, from_bytes-read bs n))
        | no n ↦ (n, cc (h, from_bytes_refuses bs n))
      ],
      λ (n, q). from_bytes_refuses bs n ∙ ap err (sym q),
    )
