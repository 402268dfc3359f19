-- ===== src/Attestation.antt =====
-- enclave/enclave_grpc/src/attestation/eat_builder.rs: the claims of an attestation token. A
-- text is the list of its characters.
pub mod Token
pub mod Verifier
pub mod Lookup
pub mod RoundTrip
pub mod Acceptance
mod Examples
use Prim.Native.String.{String}
use flare_verifiable_rag.Prelude.{
  codes, ℕ, zero, suc, ◌+◌, ◌-◌, ◌*◌, ◌/◌, ◌%◌, ◌^◌, Bool, true, false, ◌&&◌, ◌||◌, Option, none,
  some, List, [], ◌∷◌, ◌++◌, length, all, any, ltb, leb, ◌==◌, if◌then◌else◌, Result, ok, err,
  ◌>>=◌,
}
use flare_verifiable_rag.Prelude.Bytes.{zeros}

abbrev pub Text : Type 0
Text = List ℕ

-- `i128` and `i64`; `negsuc n` is -(n + 1).
pub data ℤ : Type 0 where
  pos negsuc : ℕ → ℤ

-- `ciborium::value::Value`: the constructors that the code names; `other` stands for the rest.
mutual
  pub data Value : Type 0 where
    integer : ℤ → Value
    bytes : List ℕ → Value
    text : Text → Value
    array : Values → Value
    map : Entries → Value
    other : ℕ → Value

  pub data Values : Type 0 where
    nil : Values
    cons : Value → Values → Values

  pub data Entries : Type 0 where
    none_left : Entries
    entry : Value → Value → Entries → Entries

abbrev pub entries : List (Value × Value) → Entries
entries [] = none_left
entries ((k, v) ∷ rest) = entry k v (entries rest)

abbrev pub claim_iat : ℤ
claim_iat = pos 6

abbrev pub claim_nonce : ℤ
claim_nonce = pos 10

abbrev pub claim_ueid : ℤ
claim_ueid = pos 256

abbrev pub claim_submods : ℤ
claim_submods = pos 266

abbrev pub claim_swname : ℤ
claim_swname = pos 342

abbrev pub alg_es256 : ℤ
alg_es256 = negsuc 6

abbrev pub cose_header_alg : ℤ
cose_header_alg = pos 1

abbrev pub cose_header_kid : ℤ
cose_header_kid = pos 4

pub record EatClaims : Type 0 where
  pub nonce : List ℕ
  pub swname : Text
  pub image_digest : Text
  pub hardware : Text
  pub instance_id : List ℕ
  pub iat : ℕ
  pub measurements : List (List ℕ)

unfoldable pub default_claims : EatClaims
default_claims = record {
  nonce = [];
  swname = codes "CONFIDENTIAL_SPACE";
  image_digest = [];
  hardware = codes "unknown";
  instance_id = zeros 16;
  iat = 0;
  measurements = [];
}

pub data EatError : Type 0 where
  cbor_error cbor_de_error sign_error tee_error : Text → EatError
  incomplete_claims malformed : String → EatError

-- The 64 bits of a number as an `i64`.
unfoldable pub from_bits : ℕ → ℤ
from_bits m = if ltb m (2 ^ 63) then pos m else negsuc (2 ^ 64 - 1 - m)

-- `i as i64`
unfoldable pub as_i64 : ℤ → ℤ
unfolding from_bits
as_i64 (pos n) = from_bits (n % 2 ^ 64)
as_i64 (negsuc n) = from_bits (2 ^ 64 - 1 - n % 2 ^ 64)

unfoldable pub int : ℤ → Value
unfolding as_i64
int i = integer (as_i64 i)

-- A number in decimal; each round takes a digit, so the number itself is fuel enough.
unfoldable pub decimal : ℕ → ℕ → Text
decimal zero n = (n % 10 + b'0') ∷ []
decimal (suc fuel) n =
    let rest = decimal fuel (n / 10) in
    if ltb n 10 then (n + b'0') ∷ [] else rest ++ (n % 10 + b'0') ∷ []

-- `for (i, m) in claims.measurements.iter().enumerate()`
unfoldable pub registers : ℕ → List (List ℕ) → List (Value × Value)
unfolding decimal
registers i [] = []
registers i (m ∷ measurements) =
    (text (codes "rtmr" ++ decimal i i), bytes m) ∷ registers (suc i) measurements

abbrev pub nonce_claim : List ℕ → List (Value × Value)
nonce_claim [] = []
nonce_claim (n ∷ nonce) = (int claim_nonce, bytes (n ∷ nonce)) ∷ []

unfoldable pub container : EatClaims → List (Value × Value)
unfolding registers
container c =
    (text (codes "image_digest"), text c.image_digest)
    ∷ (text (codes "hardware"), text c.hardware)
    ∷ (text (codes "instance_id"), bytes c.instance_id)
    ∷ registers 0 c.measurements

unfoldable pub encode_claims : EatClaims → Value
unfolding int container
encode_claims c = map (
    entries (
      (int claim_iat, int (pos c.iat))
      ∷ (nonce_claim c.nonce
          ++ (int claim_ueid, bytes (2 ∷ c.instance_id))
            ∷ (int claim_swname, text c.swname)
            ∷ (
              int claim_submods,
              map (entries ((text (codes "container"), map (entries (container c))) ∷ [])),
            )
            ∷ [])))

unfoldable pub sig_structure : List ℕ → List ℕ → Value
sig_structure protected payload = array (
    cons (text (codes "Signature1"))
      (cons (bytes protected) (cons (bytes []) (cons (bytes payload) nil))))

-- White space of Unicode.
unfoldable pub is_whitespace : ℕ → Bool
is_whitespace c =
    leb 9 c && leb c 13
    || any (λ d. c == d)
        (0x20 ∷ 0x85 ∷ 0xa0 ∷ 0x1680 ∷ 0x2028 ∷ 0x2029 ∷ 0x202f ∷ 0x205f ∷ 0x3000 ∷ [])
    || leb 0x2000 c && leb c 0x200a

-- `s.trim().is_empty()`
unfoldable pub is_blank : Text → Bool
unfolding is_whitespace
is_blank s = all is_whitespace s
