-- ===== src/ZkTls/Sink/Capture.antt =====
-- Which chains the sink holds, and which one `take_for` returns.
use flare_verifiable_rag.Prelude.{
  ℕ, suc, ◌≤◌, ◌<◌, ◌≡◌, ◌⊎◌, refl, sym, ap, subst, inl, inr, Bool, true, false, Bool-cases, none,
  some, List, [], ◌∷◌, ◌++◌, length, length-append, leb, leb→le, drop, text_eq, Result,
  Result-cases, ok, All, All-append, arith, max,
}
use flare_verifiable_rag.Prelude.Bytes.{length-drop, All-drop}
use flare_verifiable_rag.ZkTls.{Text}
use flare_verifiable_rag.ZkTls.Generation.{CapturedChain}
use flare_verifiable_rag.ZkTls.Sink.{
  ChainSink, new, push, rposition, remove, take_for, verify_server_cert,
}

module _ {ℓ} {A : Type ℓ} (test : A → Bool) where
  -- The list with its last member that passes the test taken out, and that member.
  abbrev pub LastOf : List A → A → List A → Type ℓ
  LastOf xs x rest =
      (before : List A) × (after : List A) × (xs ≡ before ++ x ∷ after)
      × (test x ≡ true)
      × All (λ y. test y ≡ false) after
      × (rest ≡ before ++ after)

  rposition-remove :
      (xs : List A)
      → (rposition test xs ≡ none) × All (λ y. test y ≡ false) xs
        ⊎ ((i : ℕ) × (x : A) × (rest : List A) × (rposition test xs ≡ some i)
            × (remove i xs ≡ (some x, rest))
            × LastOf xs x rest)
  unfolding rposition remove
  rposition-remove [] = inl (refl, tt)
  rposition-remove (y ∷ xs) = elim (rposition-remove xs) [
    | inr (i, x, rest, p, q, (before, after, e, t, a, r)) ↦ inr (
      suc i,
      x,
      y ∷ rest,
      rw (p, rposition) refl,
      rw (q, remove) refl,
      (y ∷ before, after, ap (λ l. y ∷ l) e, t, a, ap (λ l. y ∷ l) r),
    )
    | inl (p, a) ↦ elim (Bool-cases (test y)) [
      | inl t ↦ inr (0, y, xs, rw (p, t, rposition) refl, refl, ([], xs, refl, t, a, refl))
      | inr t ↦ inl (rw (p, t, rposition) refl, (t, a))
    ]
  ]

-- The server of a chain.
abbrev pub is_for : Text → CapturedChain → Bool
is_for server c = text_eq c.server server

-- `take_for` returns nothing exactly if no chain of the server is held, and then changes nothing;
-- otherwise it returns the chain of that server that was recorded last and takes out that one only.
pub take_for_correct :
    (server : Text) (sink : ChainSink)
    → (take_for server sink ≡ (none, sink)) × All (λ c. is_for server c ≡ false) sink.inner
      ⊎ ((c : CapturedChain) × (rest : List CapturedChain) × (take_for server sink
            ≡ (some c, record { inner = rest; max = sink.max }))
          × LastOf (is_for server) sink.inner c rest)
unfolding take_for
take_for_correct server sink = elim (rposition-remove (is_for server) sink.inner) [
  | inl (p, a) ↦ inl (rw (p, take_for) refl, a)
  | inr (i, c, rest, p, q, l) ↦ inr (c, rest, rw (p, q, take_for) refl, l)
]

-- The sinks that handshakes and `take_for` reach from `ChainSink::new(max)`, in whatever order.
pub data Reached (validate : CapturedChain → Result {0, 0} Unit Text) (max : ℕ)
    : ChainSink → Type 0 where
  start : (s : ChainSink) → s ≡ new max → Reached validate max s
  handshake :
      (s t : ChainSink) (presented : CapturedChain)
      → Reached validate max s
      → t ≡ (verify_server_cert validate presented s).1
      → Reached validate max t
  taken :
      (s t : ChainSink) (server : Text)
      → Reached validate max s
      → t ≡ (take_for server s).1
      → Reached validate max t

All-without {ℓ κ} :
    {A : Type ℓ} (P : A → Type κ) (before : List A) (x : A) (after : List A)
    → All P (before ++ x ∷ after)
    → All P (before ++ after)
All-without P [] x after a = a.1
All-without P (y ∷ before) x after a = (a.0, All-without P before x after a.1)

abbrev pub Bounded : ℕ → ChainSink → Type 0
Bounded max s = (s.max ≡ max) × (length s.inner ≤ max)

abbrev pub IsValidated : (CapturedChain → Result {0, 0} Unit Text) → CapturedChain → Type 0
IsValidated validate c = validate c ≡ ok tt

abbrev pub Holds : (CapturedChain → Result {0, 0} Unit Text) → ℕ → ChainSink → Type 0
Holds validate max s = Bounded max s × All (IsValidated validate) s.inner

module _ (validate : CapturedChain → Result {0, 0} Unit Text) (max : ℕ) (h : 1 ≤ max) where
  push-Holds :
      (c : CapturedChain) (s : ChainSink)
      → IsValidated validate c
      → Holds validate max s
      → Holds validate max (push c s)
  unfolding push
  push-Holds c s v ((m, b), a) = elim (Bool-cases (leb s.max (length s.inner))) [
    | inl e ↦
        rw (e, push)
          (
            (m, omega (arith, leb→le s.max (length s.inner) e, length-append {0}, length-drop {0})),
            All-append (IsValidated validate) (drop 1 s.inner) (c ∷ [])
                (All-drop (IsValidated validate) 1 s.inner a) (v, tt),
          )
    | inr e ↦
        let small : length s.inner < s.max = ground arith in
        rw (e, push)
          (
            (m, omega (arith, length-append {0})),
            All-append (IsValidated validate) s.inner (c ∷ []) a (v, tt),
          )
  ]

  take_for-Holds :
      (server : Text) (s : ChainSink)
      → Holds validate max s
      → Holds validate max (take_for server s).1
  take_for-Holds server s ((m, b), a) = elim (take_for_correct server s) [
    | inl (e, _) ↦ subst (Holds validate max) (sym (ap (λ p. p.1) e)) ((m, b), a)
    | inr (c, rest, e, (before, after, q, t, n, r)) ↦
        subst (Holds validate max) (sym (ap (λ p. p.1) e)) (
          (m, omega (arith, ap length q, ap length r, length-append {0})),
          subst (All (IsValidated validate)) (sym r) (
              All-without (IsValidated validate) before c after
                (subst (All (IsValidated validate)) q a)),
        )
  ]

  -- Whatever handshakes and extractions reach a sink that was made for at least one chain, it holds
  -- at most as many chains as it was made for, and only chains that passed validation.
  pub Reached-Holds : (s : ChainSink) → Reached validate max s → Holds validate max s
  unfolding verify_server_cert
  Reached-Holds s (start _ e) = subst (Holds validate max) (sym e) ((refl, omega arith), tt)
  Reached-Holds s (handshake r _ presented reached e) =
      let before = Reached-Holds r reached in
      elim (Result-cases (validate presented)) [
        | inl (_, v) ↦
            subst (Holds validate max) (sym e)
              (rw (v, verify_server_cert) (push-Holds presented r v before))
        | inr (x, v) ↦ subst (Holds validate max) (sym e) (rw (v, verify_server_cert) before)
      ]
  Reached-Holds s (taken r _ server reached e) =
      subst (Holds validate max) (sym e) (take_for-Holds server r (Reached-Holds r reached))
