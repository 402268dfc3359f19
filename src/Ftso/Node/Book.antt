-- ===== src/Ftso/Node/Book.antt =====
-- The price book holds the latest ticker of each venue.
use Prim.Native.String.{String}
use text.Mathlib.Text.{◌==◌ as ◌≐◌}
use text.Mathlib.TextEquality.{eq_iff}
use flare_verifiable_rag.Prelude.{
  Memᴰ, ℕ, ◌≤◌, ◌≡◌, ◌↔◌, refl, sym, ap, ◌∙◌, ◌⊎◌, inl, inr, true, ◌&&◌, Option, none, some, [],
  ◌∷◌, max, if◌then◌else◌, arith, ◌==◌, ==_iff, All,
}
use flare_verifiable_rag.Ftso.Node.{
  ExchangeId, coinbase, kraken, binance, gate, bitfinex, discriminant, same_exchange, Ticker,
  BookEntry, Venues, PriceBook, venues_of, put_venue, put_entry, upsert, latest,
}

max_cases : (a b : ℕ) → (max a b ≡ a) ⊎ (max a b ≡ b)
max_cases a b = ground arith

exchange_at : ℕ → ExchangeId
exchange_at n =
    if n == 0
    then coinbase
    else if n == 1
    then kraken
    else if n == 2
    then binance
    else if n == 3
    then gate
    else bitfinex

exchange_at-discriminant : (x : ExchangeId) → exchange_at (discriminant x) ≡ x
unfolding discriminant exchange_at
exchange_at-discriminant coinbase = refl
exchange_at-discriminant kraken = refl
exchange_at-discriminant binance = refl
exchange_at-discriminant gate = refl
exchange_at-discriminant bitfinex = refl

pub same_exchange_iff : (x y : ExchangeId) → (same_exchange x y ≡ true) ↔ (x ≡ y)
unfolding same_exchange
same_exchange_iff x y = (
  λ h.
      sym (exchange_at-discriminant x)
      ∙ ap exchange_at ((==_iff (discriminant x) (discriminant y)).0 h)
      ∙ exchange_at-discriminant y,
  λ h. (==_iff (discriminant x) (discriminant y)).1 (ap discriminant h),
)

module _ {F : Type 0} where
  -- The entry of a venue.
  pub entry_in : ExchangeId → Venues F → Option (BookEntry F)
  entry_in ex [] = none
  entry_in ex ((k, e) ∷ m) = if same_exchange k ex then some e else entry_in ex m

  unfoldable pub entry_of : String → ExchangeId → PriceBook F → Option (BookEntry F)
  unfolding venues_of entry_in
  entry_of feed ex book = entry_in ex (venues_of feed book)

  entry_in-put_venue :
      (x ex : ExchangeId) (e : BookEntry F) (m : Venues F)
      → entry_in x (put_venue ex e m) ≡ (if same_exchange ex x then some e else entry_in x m)
  unfolding entry_in put_venue
  entry_in-put_venue x ex e [] = refl
  entry_in-put_venue x ex e ((k, d) ∷ m) = ground (
    arith,
    same_exchange_iff k ex,
    same_exchange_iff k x,
    same_exchange_iff ex x,
    entry_in-put_venue x ex e m,
  )

  venues_of-put_entry :
      (g feed : String) (ex : ExchangeId) (e : BookEntry F) (book : PriceBook F)
      → venues_of g (put_entry feed ex e book)
        ≡ (if feed ≐ g then put_venue ex e (venues_of g book) else venues_of g book)
  unfolding venues_of put_entry
  venues_of-put_entry g feed ex e [] = ground arith
  venues_of-put_entry g feed ex e ((k, m) ∷ book) =
      ground (arith, eq_iff feed g, eq_iff k feed, eq_iff k g, venues_of-put_entry g feed ex e book)

  -- After a ticker the book holds it for its feed and its venue, with the time; all else is as before.
  pub entry_of-upsert :
      (now : ℕ) (t : Ticker F) (book : PriceBook F) (g : String) (x : ExchangeId)
      → entry_of g x (upsert now t book) ≡ (
          if t.feed ≐ g && same_exchange t.exchange x
          then some (record { price = t.price; volume_24h = t.volume_24h; received = now })
          else entry_of g x book)
  unfolding entry_of upsert
  entry_of-upsert now t book g x =
      let e : BookEntry F = record { price = t.price; volume_24h = t.volume_24h; received = now } in
      ap (entry_in x) (venues_of-put_entry g t.feed t.exchange e book)
      ∙ ground (arith, entry_in-put_venue x t.exchange e (venues_of g book))

  pub latest_lem :
      (m : Venues F)
      → (latest m ≡ none) × (m ≡ [])
        ⊎ ((t : ℕ) × (latest m ≡ some t)
            × ((p : ExchangeId × BookEntry F) × Memᴰ p m × (p.1.received ≡ t))
            × All (λ (p : ExchangeId × BookEntry F). p.1.received ≤ t) m)
  unfolding latest
  latest_lem [] = inl (refl, refl)
  latest_lem ((ex, e) ∷ m) = elim (latest_lem m) [
    | inl (n, q) ↦ inr (
      e.received,
      rw (n, latest) refl,
      ((ex, e), Memᴰ.head refl, refl),
      (omega arith, all_nil m q),
    )
    | inr (t, l, (p, there, same), a) ↦ inr (
      max e.received t,
      rw (l, latest) refl,
      elim (max_cases e.received t) [
        | inl q ↦ ((ex, e), Memᴰ.head refl, sym q)
        | inr q ↦ (p, Memᴰ.tail there, same ∙ sym q)
      ],
      (omega arith, below m t a),
    )
  ]
    where
      all_nil :
          (m : Venues F)
          → m ≡ []
          → All (λ (p : ExchangeId × BookEntry F). p.1.received ≤ e.received) m
      all_nil [] q = tt
      all_nil (p ∷ m) q = absurd (cc)

      below :
          (m : Venues F) (t : ℕ)
          → All (λ (p : ExchangeId × BookEntry F). p.1.received ≤ t) m
          → All (λ (p : ExchangeId × BookEntry F). p.1.received ≤ max e.received t) m
      below [] t a = tt
      below (p ∷ m) t a = (omega arith, below m t a.1)
