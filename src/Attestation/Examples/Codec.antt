-- ===== src/Attestation/Examples/Codec.antt =====
-- A reversible format for values: a tag before each part, and the size in front.
use flare_verifiable_rag.Prelude.{
  ℕ, zero, suc, ◌+◌, ◌≤◌, ◌≡◌, refl, Option, none, some, List, [], ◌∷◌, ◌++◌, length, take, drop,
  take-length, drop-length, arith, Result, ok, err,
}
use flare_verifiable_rag.Attestation.{
  Text, pos, negsuc, Value, integer, bytes, text, array, map, other, Values, nil, cons, Entries,
  none_left, entry,
}

mutual
  size : Value → ℕ
  size (integer i) = 1
  size (bytes b) = 1
  size (text s) = 1
  size (array vs) = suc (size_all vs)
  size (map es) = suc (size_entries es)
  size (other n) = 1

  size_all : Values → ℕ
  size_all nil = 1
  size_all (cons v vs) = suc (size v + size_all vs)

  size_entries : Entries → ℕ
  size_entries none_left = 1
  size_entries (entry k v es) = suc (size k + size v + size_entries es)

size_pos : (v : Value) → 1 ≤ size v
unfolding size
size_pos (integer i) = omega arith
size_pos (bytes b) = omega arith
size_pos (text s) = omega arith
size_pos (array vs) = omega arith
size_pos (map es) = omega arith
size_pos (other n) = omega arith

size_all_pos : (vs : Values) → 1 ≤ size_all vs
unfolding size_all
size_all_pos nil = omega arith
size_all_pos (cons v vs) = omega arith

size_entries_pos : (es : Entries) → 1 ≤ size_entries es
unfolding size_entries
size_entries_pos none_left = omega arith
size_entries_pos (entry k v es) = omega arith

mutual
  put : Value → List ℕ → List ℕ
  put (integer (pos n)) r = 0 ∷ n ∷ r
  put (integer (negsuc n)) r = 1 ∷ n ∷ r
  put (bytes b) r = 2 ∷ length b ∷ (b ++ r)
  put (text s) r = 3 ∷ length s ∷ (s ++ r)
  put (array vs) r = 4 ∷ put_all vs r
  put (map es) r = 5 ∷ put_entries es r
  put (other n) r = 6 ∷ n ∷ r

  put_all : Values → List ℕ → List ℕ
  put_all nil r = 0 ∷ r
  put_all (cons v vs) r = 1 ∷ put v (put_all vs r)

  put_entries : Entries → List ℕ → List ℕ
  put_entries none_left r = 0 ∷ r
  put_entries (entry k v es) r = 1 ∷ put k (put v (put_entries es r))

abbrev after {ℓ κ} :
    {A : Type ℓ} {B : Type κ} → Option (A × List ℕ) → (A → List ℕ → Option B) → Option B
after none k = none
after (some (a, r)) k = k a r

-- The value behind a tag, from what follows it.
untag :
    ℕ
    → List ℕ
    → (List ℕ → Option (Values × List ℕ))
    → (List ℕ → Option (Entries × List ℕ))
    → Option (Value × List ℕ)
untag zero (n ∷ r) all ents = some (integer (pos n), r)
untag (suc zero) (n ∷ r) all ents = some (integer (negsuc n), r)
untag (suc (suc zero)) (n ∷ r) all ents = some (bytes (take n r), drop n r)
untag (suc (suc (suc zero))) (n ∷ r) all ents = some (text (take n r), drop n r)
untag (suc (suc (suc (suc zero)))) r all ents = after (all r) (λ vs s. some (array vs, s))
untag (suc (suc (suc (suc (suc zero))))) r all ents = after (ents r) (λ es s. some (map es, s))
untag _ (n ∷ r) all ents = some (other n, r)
untag _ [] all ents = none

mutual
  unfolding untag

  get : ℕ → List ℕ → Option (Value × List ℕ)
  get zero bs = none
  get (suc f) [] = none
  get (suc f) (t ∷ r) = untag t r (get_all f) (get_entries f)

  get_all : ℕ → List ℕ → Option (Values × List ℕ)
  get_all zero bs = none
  get_all (suc f) [] = none
  get_all (suc f) (zero ∷ r) = some (nil, r)
  get_all (suc f) (suc t ∷ r) =
      after (get f r) (λ v s. after (get_all f s) (λ vs u. some (cons v vs, u)))

  get_entries : ℕ → List ℕ → Option (Entries × List ℕ)
  get_entries zero bs = none
  get_entries (suc f) [] = none
  get_entries (suc f) (zero ∷ r) = some (none_left, r)
  get_entries (suc f) (suc t ∷ r) =
      after (get f r)
        (λ k s. after (get f s) (λ v u. after (get_entries f u) (λ es w. some (entry k v es, w))))

mutual
  unfolding get get_all get_entries untag put put_all put_entries size size_all size_entries

  get-put : (v : Value) (f : ℕ) (r : List ℕ) → size v ≤ f → get f (put v r) ≡ some (v, r)
  get-put v zero r h = absurd (omega (arith, size_pos v))
  get-put (integer (pos n)) (suc f) r h = refl
  get-put (integer (negsuc n)) (suc f) r h = refl
  get-put (bytes b) (suc f) r h = rw (take-length b r, drop-length b r) refl
  get-put (text s) (suc f) r h = rw (take-length s r, drop-length s r) refl
  get-put (array vs) (suc f) r h = rw (get_all-put_all vs f r (omega arith)) refl
  get-put (map es) (suc f) r h = rw (get_entries-put_entries es f r (omega arith)) refl
  get-put (other n) (suc f) r h = refl

  get_all-put_all :
      (vs : Values) (f : ℕ) (r : List ℕ) → size_all vs ≤ f → get_all f (put_all vs r) ≡ some (vs, r)
  get_all-put_all vs zero r h = absurd (omega (arith, size_all_pos vs))
  get_all-put_all nil (suc f) r h = refl
  get_all-put_all (cons v vs) (suc f) r h =
      rw (get-put v f (put_all vs r) (omega arith), get_all-put_all vs f r (omega arith)) refl

  get_entries-put_entries :
      (es : Entries) (f : ℕ) (r : List ℕ)
      → size_entries es ≤ f
      → get_entries f (put_entries es r) ≡ some (es, r)
  get_entries-put_entries es zero r h = absurd (omega (arith, size_entries_pos es))
  get_entries-put_entries none_left (suc f) r h = refl
  get_entries-put_entries (entry k v es) (suc f) r h =
      rw
        (
          get-put k f (put v (put_entries es r)) (omega arith),
          get-put v f (put_entries es r) (omega arith),
          get_entries-put_entries es f r (omega arith),
        )
        refl

pub write : Value → Result (List ℕ) Text
write v = ok (size v ∷ put v [])

abbrev value_of : Option (Value × List ℕ) → Result Value Text
value_of none = err []
value_of (some (v, r)) = ok v

pub read : List ℕ → Result Value Text
read [] = err []
read (n ∷ bs) = value_of (get n bs)

pub read-write : (v : Value) → (bs : List ℕ) × (write v ≡ ok bs) × (read bs ≡ ok v)
unfolding write read
read-write v = (size v ∷ put v [], refl, rw (get-put v (size v) [] (omega arith)) refl)
