-- ===== src/Ftso/Node/Parsers.antt =====
-- `parse_ticker` of enclave/enclave_grpc/src/ftso_provider/node.rs and the parsers of the venues. The
-- JSON library and the reading of numbers are fields of `Json`.
pub mod Sound
use Prim.Native.String.{String}
use package.text.Mathlib.Text.{◌==◌ as ◌≐◌}
use flare_verifiable_rag.Prelude.{
  ℕ, Bool, true, false, not, ◌||◌, Option, none, some, List, [], ◌∷◌, length, get_elem?, ltb, ◌==◌,
  if◌then◌else◌,
}
use flare_verifiable_rag.Ftso.{Floats, le, lt, zero_f}
use flare_verifiable_rag.Ftso.Node.{ExchangeId, coinbase, kraken, binance, gate, bitfinex, Ticker}

-- `serde_json::Value` and its object, `str::parse::<f64>`, and `String::from_utf8_lossy`.
pub record Json (F : Type 0) : Type 1 where
  pub Value : Type 0
  pub Object : Type 0
  pub from_str : String → Option Value
  pub get : Value → String → Option Value
  pub as_str : Value → Option String
  pub as_f64 : Value → Option F
  pub as_array : Value → Option (List Value)
  pub as_object : Value → Option Object
  pub object_get : Object → String → Option Value
  pub parse_f64 : String → Option F
  pub from_utf8_lossy : List ℕ → String

-- The messages of the WebSocket library; `control` stands for those that are neither.
pub data Message : Type 0 where
  text : String → Message
  binary : List ℕ → Message
  control : Message

infixl 5 ◌>>=◌
abbrev pub ◌>>=◌ {ℓ κ} : {A : Type ℓ} {B : Type κ} → Option A → (A → Option B) → Option B
none >>= k = none
some a >>= k = k a

-- `if test { return None; }`
abbrev pub refuse : Bool → Option (Unit {0})
refuse true = none
refuse false = some tt

unfoldable pub coinbase_feed : String → Option String
coinbase_feed product =
    if product ≐ "BTC-USD"
    then some "BTC/USD"
    else if product ≐ "ETH-USD"
    then some "ETH/USD"
    else if product ≐ "XRP-USD"
    then some "XRP/USD"
    else none

unfoldable pub kraken_feed : String → Option String
kraken_feed pair =
    if pair ≐ "XBT/USD" || pair ≐ "BTC/USD"
    then some "BTC/USD"
    else if pair ≐ "ETH/USD"
    then some "ETH/USD"
    else if pair ≐ "XRP/USD"
    then some "XRP/USD"
    else none

unfoldable pub binance_feed : String → Option String
binance_feed symbol =
    if symbol ≐ "BTCUSDT"
    then some "BTC/USD"
    else if symbol ≐ "ETHUSDT"
    then some "ETH/USD"
    else if symbol ≐ "XRPUSDT"
    then some "XRP/USD"
    else none

unfoldable pub gate_feed : String → Option String
gate_feed pair =
    if pair ≐ "BTC_USDT"
    then some "BTC/USD"
    else if pair ≐ "ETH_USDT"
    then some "ETH/USD"
    else if pair ≐ "XRP_USDT"
    then some "XRP/USD"
    else none

unfoldable pub bitfinex_feed : String → Option String
bitfinex_feed pair =
    if pair ≐ "tBTCUSD"
    then some "BTC/USD"
    else if pair ≐ "tETHUSD"
    then some "ETH/USD"
    else if pair ≐ "tXRPUSD"
    then some "XRP/USD"
    else none

module _ (f : Floats) (json : Json f.F) where
  -- `v.get(key)?.as_str()?`
  abbrev pub str_of : json.Value → String → Option String
  str_of v key = do w ← json.get v key; json.as_str w

  -- `….as_str()?.parse().ok()?`
  abbrev pub number_of : Option json.Value → Option f.F
  number_of o = do w ← o; s ← json.as_str w; json.parse_f64 s

  unfoldable pub parse_coinbase : json.Value → Option (Ticker f.F)
  unfolding coinbase_feed
  parse_coinbase v = do
    kind ← str_of v "type"
    _ ← refuse (not (kind ≐ "ticker"))
    product ← str_of v "product_id"
    feed ← coinbase_feed product
    price ← number_of (json.get v "price")
    volume_24h ← number_of (json.get v "volume_24h")
    some (record { feed = feed; exchange = coinbase; price = price; volume_24h = volume_24h })

  unfoldable pub parse_kraken : json.Value → Option (Ticker f.F)
  unfolding kraken_feed
  parse_kraken v = do
    arr ← json.as_array v
    _ ← refuse (ltb (length arr) 4)
    third ← get_elem? arr 2
    kind ← json.as_str third
    _ ← refuse (not (kind ≐ "ticker"))
    fourth ← get_elem? arr 3
    pair_raw ← json.as_str fourth
    feed ← kraken_feed pair_raw
    second ← get_elem? arr 1
    payload ← json.as_object second
    c ← json.object_get payload "c"
    closes ← json.as_array c
    last ← number_of (get_elem? closes 0)
    v' ← json.object_get payload "v"
    volumes ← json.as_array v'
    vol_24h ← number_of (get_elem? volumes 1)
    some (record { feed = feed; exchange = kraken; price = last; volume_24h = vol_24h })

  unfoldable pub parse_binance : json.Value → Option (Ticker f.F)
  unfolding binance_feed
  parse_binance v = do
    inner ← json.get v "data"
    kind ← str_of inner "e"
    _ ← refuse (not (kind ≐ "24hrTicker"))
    symbol ← str_of inner "s"
    feed ← binance_feed symbol
    price ← number_of (json.get inner "c")
    volume_24h ← number_of (json.get inner "q")
    some (record { feed = feed; exchange = binance; price = price; volume_24h = volume_24h })

  unfoldable pub parse_gate : json.Value → Option (Ticker f.F)
  unfolding gate_feed
  parse_gate v = do
    channel ← str_of v "channel"
    _ ← refuse (not (channel ≐ "spot.tickers"))
    r ← json.get v "result"
    result ← json.as_object r
    p ← json.object_get result "currency_pair"
    pair ← json.as_str p
    feed ← gate_feed pair
    price ← number_of (json.object_get result "last")
    volume_24h ← number_of (json.object_get result "quote_volume")
    some (record { feed = feed; exchange = gate; price = price; volume_24h = volume_24h })

  unfoldable pub parse_bitfinex : json.Value → Option (Ticker f.F)
  unfolding bitfinex_feed
  parse_bitfinex v = do
    arr ← json.as_array v
    _ ← refuse (not (length arr == 3))
    third ← get_elem? arr 2
    pair_raw ← json.as_str third
    feed ← bitfinex_feed pair_raw
    second ← get_elem? arr 1
    payload ← json.as_array second
    _ ← refuse (ltb (length payload) 8)
    p ← get_elem? payload 6
    price ← json.as_f64 p
    w ← get_elem? payload 7
    volume_24h ← json.as_f64 w
    some (record { feed = feed; exchange = bitfinex; price = price; volume_24h = volume_24h })

  abbrev pub text_of : Message → Option String
  text_of (text t) = some t
  text_of (binary b) = some (json.from_utf8_lossy b)
  text_of control = none

  unfoldable pub parse_for : ExchangeId → json.Value → Option (Ticker f.F)
  unfolding parse_coinbase parse_kraken parse_binance parse_gate parse_bitfinex
  parse_for coinbase v = parse_coinbase v
  parse_for kraken v = parse_kraken v
  parse_for binance v = parse_binance v
  parse_for gate v = parse_gate v
  parse_for bitfinex v = parse_bitfinex v

  -- The guard on what was parsed: a ticker passes if its numbers are those of a price and a volume.
  unfoldable pub is_implausible : Ticker f.F → Bool
  is_implausible t =
      not (f.is_finite t.price)
      || le f t.price (zero_f f)
      || not (f.is_finite t.volume_24h)
      || lt f t.volume_24h (zero_f f)

  unfoldable pub parse_ticker : ExchangeId → Message → Option (Ticker f.F)
  unfolding parse_for is_implausible
  parse_ticker exchange msg = do
    content ← text_of msg
    value ← json.from_str content
    t ← parse_for exchange value
    _ ← refuse (is_implausible t)
    some t
