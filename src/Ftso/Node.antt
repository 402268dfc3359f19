-- ===== src/Ftso/Node.antt =====
-- enclave/enclave_grpc/src/ftso_provider/node.rs: the price book of the provider node. A time is a
-- number of milliseconds, and a hash map is an association list, in an order of no account.
pub mod Book
pub mod Parsers
pub mod Connector
pub mod Staleness
use Prim.Native.String.{String}
use text.Mathlib.Text.{◌==◌ as ◌≐◌}
use flare_verifiable_rag.Prelude.{
  ℕ, ◌-◌, ◌<◌, Bool, true, false, ◌||◌, Option, none, some, List, [], ◌∷◌, map, length, ltb, max,
  if◌then◌else◌, any, select, ◌==◌,
}
use flare_verifiable_rag.Ftso.{Floats}
use flare_verifiable_rag.Ftso.Calculator.{Observation, volume_trimmed_median}

abbrev pub all_feeds : List String
all_feeds = "XRP/USD" ∷ "BTC/USD" ∷ "ETH/USD" ∷ []

abbrev pub default_stale_after : ℕ
default_stale_after = 5000

abbrev pub reconnect_base_delay : ℕ
reconnect_base_delay = 500

pub data ExchangeId : Type 0 where
  coinbase kraken binance gate bitfinex : ExchangeId

abbrev pub as_str : ExchangeId → String
as_str coinbase = "coinbase"
as_str kraken = "kraken"
as_str binance = "binance"
as_str gate = "gate"
as_str bitfinex = "bitfinex"

-- The derived `==` compares the positions of the constructors.
unfoldable pub discriminant : ExchangeId → ℕ
discriminant coinbase = 0
discriminant kraken = 1
discriminant binance = 2
discriminant gate = 3
discriminant bitfinex = 4

unfoldable pub same_exchange : ExchangeId → ExchangeId → Bool
unfolding discriminant
same_exchange a b = discriminant a == discriminant b

pub record Ticker (F : Type 0) : Type 0 where
  pub feed : String
  pub exchange : ExchangeId
  pub price : F
  pub volume_24h : F

pub record BookEntry (F : Type 0) : Type 0 where
  pub price : F
  pub volume_24h : F
  pub received : ℕ

-- `PriceBook::entries`: for each feed the venues, for each venue the latest ticker.
abbrev pub Venues : Type 0 → Type 0
Venues F = List (ExchangeId × BookEntry F)

abbrev pub PriceBook : Type 0 → Type 0
PriceBook F = List (String × Venues F)

-- The loop over the feeds: the flag, and the feeds that an alert is sent for.
abbrev pub alerts_from : (String → Bool) → Bool → List String → Bool × List String
alerts_from stale any_stale [] = (any_stale, [])
alerts_from stale any_stale (feed ∷ feeds) =
    let (flag, alerts) = alerts_from stale (any_stale || stale feed) feeds in
    (flag, if stale feed then feed ∷ alerts else alerts)

module _ {F : Type 0} where
  unfoldable pub venues_of : String → PriceBook F → Venues F
  venues_of feed [] = []
  venues_of feed ((k, m) ∷ book) = if k ≐ feed then m else venues_of feed book

  -- `HashMap::insert` into the venues.
  unfoldable pub put_venue : ExchangeId → BookEntry F → Venues F → Venues F
  put_venue ex e [] = (ex, e) ∷ []
  put_venue ex e ((k, d) ∷ m) =
      let rest = put_venue ex e m in if same_exchange k ex then (k, e) ∷ m else (k, d) ∷ rest

  -- `entry(feed).or_default().insert(ex, e)`
  unfoldable pub put_entry : String → ExchangeId → BookEntry F → PriceBook F → PriceBook F
  unfolding put_venue
  put_entry feed ex e [] = (feed, put_venue ex e []) ∷ []
  put_entry feed ex e ((k, m) ∷ book) =
      let rest = put_entry feed ex e book in
      if k ≐ feed then (k, put_venue ex e m) ∷ book else (k, m) ∷ rest

  unfoldable pub upsert : ℕ → Ticker F → PriceBook F → PriceBook F
  unfolding put_entry
  upsert now t book =
      put_entry t.feed t.exchange
        (record { price = t.price; volume_24h = t.volume_24h; received = now }) book

  abbrev pub observed : ExchangeId × BookEntry F → Observation F
  observed (ex, e) = record { exchange = as_str ex; price = e.price; volume_24h = e.volume_24h }

  unfoldable pub observations : String → PriceBook F → List (Observation F)
  unfolding venues_of
  observations feed book = map observed (venues_of feed book)

  -- `max` of the times of receipt.
  unfoldable pub latest : Venues F → Option ℕ
  latest [] = none
  latest ((ex, e) ∷ m) = elim (latest m) [
    | none ↦ some e.received
    | some t ↦ some (max e.received t)
  ]

  unfoldable pub last_update : String → PriceBook F → Option ℕ
  unfolding venues_of latest
  last_update feed book = latest (venues_of feed book)

  -- `now.duration_since(t)` is zero for a later `t`.
  unfoldable pub is_stale_feed : (now stale_after : ℕ) → PriceBook F → String → Bool
  unfolding last_update
  is_stale_feed now stale_after book feed = elim (last_update feed book) [
    | some t ↦ ltb stale_after (now - t)
    | none ↦ true
  ]

  unfoldable pub stale_feeds : (now stale_after : ℕ) → PriceBook F → List String
  unfolding is_stale_feed
  stale_feeds now stale_after book = select (is_stale_feed now stale_after book) all_feeds

  unfoldable pub check_staleness : (now stale_after : ℕ) → PriceBook F → Bool × List String
  unfolding is_stale_feed
  check_staleness now stale_after book =
      alerts_from (is_stale_feed now stale_after book) false all_feeds

  unfoldable pub live_exchanges : String → PriceBook F → ℕ
  unfolding observations
  live_exchanges feed book = length (observations feed book)
