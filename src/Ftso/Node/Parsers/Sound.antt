-- ===== src/Ftso/Node/Parsers/Sound.antt =====
-- Whatever a venue sends, only plausible tickers of known feeds come out.
use Prim.Native.String.{String}
use flare_verifiable_rag.Prelude.{
  ◌≡◌, refl, ap, ◌∙◌, subst, ◌↔◌, ◌⊎◌, inl, inr, Bool, true, false, Option, none, some, arith,
  if◌then◌else◌,
}
use flare_verifiable_rag.Ftso.{Floats, le, lt, zero_f}
use flare_verifiable_rag.Ftso.Node.{ExchangeId, coinbase, kraken, binance, gate, bitfinex, Ticker}
use flare_verifiable_rag.Ftso.Node.Parsers.{
  Json, Message, ◌>>=◌, refuse, coinbase_feed, kraken_feed, binance_feed, gate_feed, bitfinex_feed,
  parse_coinbase, parse_kraken, parse_binance, parse_gate, parse_bitfinex, text_of, parse_for,
  is_implausible, parse_ticker,
}

bind_inv {ℓ κ} :
    {A : Type ℓ} {B : Type κ} (o : Option A) (k : A → Option B) (b : B)
    → (o >>= k) ≡ some b
    → (a : A) × (o ≡ some a) × (k a ≡ some b)
bind_inv none k b h = absurd (cc)
bind_inv (some a) k b h = (a, refl, h)

accepted : (b : Bool) {u : Unit {0}} → refuse b ≡ some u → b ≡ false
accepted true h = absurd (cc)
accepted false h = refl

abbrev pub IsFeed : String → Type 0
IsFeed feed = (feed ≡ "BTC/USD") ⊎ ((feed ≡ "ETH/USD") ⊎ (feed ≡ "XRP/USD"))

module _ {F : Type 0} where
  -- A ticker of the venue for a known feed, if there is one.
  pub data Ends (x : ExchangeId) : Option (Ticker F) → Type 0 where
    nothing : Ends x none
    ticker : (t : Ticker F) → t.exchange ≡ x → IsFeed t.feed → Ends x (some t)

  bind_any {ℓ} :
      {A : Type ℓ} (x : ExchangeId) (o : Option A) (k : A → Option (Ticker F))
      → ((a : A) → Ends x (k a))
      → Ends x (o >>= k)
  bind_any x none k h = nothing
  bind_any x (some a) k h = h a

  bind_feed :
      (x : ExchangeId) (a b c : Bool) (k : String → Option (Ticker F))
      → ((s : String) → IsFeed s → Ends x (k s))
      → Ends x (
          (if a
            then some "BTC/USD"
            else if b
            then some "ETH/USD"
            else if c
            then some "XRP/USD"
            else none)
          >>= k)
  bind_feed x true b c k h = h "BTC/USD" (inl refl)
  bind_feed x false true c k h = h "ETH/USD" (inr (inl refl))
  bind_feed x false false true k h = h "XRP/USD" (inr (inr refl))
  bind_feed x false false false k h = nothing

ruleset parsing = (bind_feed, bind_any, ticker)

module _ (f : Floats) (json : Json f.F) where
  parse_coinbase-Ends : (v : json.Value) → Ends coinbase (parse_coinbase f json v)
  unfolding parse_coinbase coinbase_feed
  parse_coinbase-Ends v = search parsing depth 12

  parse_kraken-Ends : (v : json.Value) → Ends kraken (parse_kraken f json v)
  unfolding parse_kraken kraken_feed
  parse_kraken-Ends v = search parsing depth 24

  parse_binance-Ends : (v : json.Value) → Ends binance (parse_binance f json v)
  unfolding parse_binance binance_feed
  parse_binance-Ends v = search parsing depth 14

  parse_gate-Ends : (v : json.Value) → Ends gate (parse_gate f json v)
  unfolding parse_gate gate_feed
  parse_gate-Ends v = search parsing depth 16

  parse_bitfinex-Ends : (v : json.Value) → Ends bitfinex (parse_bitfinex f json v)
  unfolding parse_bitfinex bitfinex_feed
  parse_bitfinex-Ends v = search parsing depth 20

  parse_for-Ends : (x : ExchangeId) (v : json.Value) → Ends x (parse_for f json x v)
  unfolding parse_for
  parse_for-Ends coinbase v = parse_coinbase-Ends v
  parse_for-Ends kraken v = parse_kraken-Ends v
  parse_for-Ends binance v = parse_binance-Ends v
  parse_for-Ends gate v = parse_gate-Ends v
  parse_for-Ends bitfinex v = parse_bitfinex-Ends v

  -- A positive finite price, and a finite volume that is not negative.
  abbrev pub IsPlausible : Ticker f.F → Type 0
  IsPlausible t =
      ((f.is_finite t.price ≡ true) × (le f t.price (zero_f f) ≡ false))
      × ((f.is_finite t.volume_24h ≡ true) × (lt f t.volume_24h (zero_f f) ≡ false))

  IsPlausible-iff : (t : Ticker f.F) → (is_implausible f json t ≡ false) ↔ IsPlausible t
  unfolding is_implausible
  IsPlausible-iff t = ground arith

  Ends-get :
      (x : ExchangeId) (o : Option (Ticker f.F)) (t : Ticker f.F)
      → Ends x o
      → o ≡ some t
      → (t.exchange ≡ x) × IsFeed t.feed
  Ends-get x _ t nothing e = absurd (cc)
  Ends-get x _ t (ticker u same known) e =
      let eq : u ≡ t = cc in
      subst (λ (w : Ticker f.F). (w.exchange ≡ x) × IsFeed w.feed) eq (same, known)

  -- Whatever message a venue sends, a ticker that is parsed from it is of that venue and of one of the
  -- three feeds, its price is finite and positive, and its volume is finite and not negative.
  pub parse_ticker_sound :
      (x : ExchangeId) (msg : Message) (t : Ticker f.F)
      → parse_ticker f json x msg ≡ some t
      → (t.exchange ≡ x) × IsFeed t.feed × IsPlausible t
  unfolding parse_ticker
  parse_ticker_sound x msg t h =
      let (content, _, h1) = bind_inv (text_of f json msg) _ t h in
      let (value, _, h2) = bind_inv (json.from_str content) _ t h1 in
      let (u, parsed, h3) = bind_inv (parse_for f json x value) _ t h2 in
      let (_, passed, h4) = bind_inv (refuse (is_implausible f json u)) _ t h3 in
      let same : u ≡ t = cc (h4) in
      let sane : is_implausible f json u ≡ false = accepted (is_implausible f json u) passed in
      let (a, b) =
        Ends-get x (parse_for f json x value) t (parse_for-Ends x value) (parsed ∙ ap some same) in
      (a, b, subst IsPlausible same ((IsPlausible-iff u).0 sane))
