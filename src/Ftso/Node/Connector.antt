-- ===== src/Ftso/Node/Connector.antt =====
-- The connector task of a venue, `stream_once` and `run_exchange_loop` of
-- enclave/enclave_grpc/src/ftso_provider/node.rs, and `snapshot`. What the network does is an input:
-- how the connection and the subscription end, and what `next` yields, one event after the other.
pub mod Backoff
pub mod Readings
use Prim.Native.String.{String}
use flare_verifiable_rag.Prelude.{
  ℕ, ◌+◌, ◌*◌, ◌%◌, ◌^◌, Option, none, some, List, [], ◌∷◌, ◌++◌, length, min, Result, ok, err,
  if◌then◌else◌,
}
use flare_verifiable_rag.Ftso.{Floats}
use flare_verifiable_rag.Ftso.Calculator.{Observation, volume_trimmed_median}
use flare_verifiable_rag.Ftso.Node.{
  all_feeds, reconnect_base_delay, ExchangeId, coinbase, kraken, binance, gate, bitfinex, PriceBook,
  Ticker, upsert, observations,
}
use flare_verifiable_rag.Ftso.Node.Parsers.{Json, Message, parse_ticker}

pub data StreamError : Type 0 where
  connect_failed subscribe_failed stream_error : String → StreamError
  closed_by_peer : StreamError

-- What `ws.next().await` yields, a message with the time at which it is booked.
pub data Event : Type 0 where
  closed : Event
  failed : String → Event
  received : ℕ → Message → Event

-- The subscription that a venue expects; the stream of Binance is chosen by its URL.
unfoldable pub subscribe : ExchangeId → Option String
subscribe coinbase =
    some
      "{\"type\":\"subscribe\",\"product_ids\":[\"XRP-USD\",\"BTC-USD\",\"ETH-USD\"],\"channels\":[\"ticker\"]}"
subscribe kraken =
    some
      "{\"event\":\"subscribe\",\"pair\":[\"XRP/USD\",\"XBT/USD\",\"ETH/USD\"],\"subscription\":{\"name\":\"ticker\"}}"
subscribe binance = none
subscribe gate =
    some
      "{\"time\":0,\"channel\":\"spot.tickers\",\"event\":\"subscribe\",\"payload\":[\"BTC_USDT\",\"ETH_USDT\",\"XRP_USDT\"]}"
subscribe bitfinex =
    some
      "[{\"event\":\"subscribe\",\"channel\":\"ticker\",\"symbol\":\"tBTCUSD\"},{\"event\":\"subscribe\",\"channel\":\"ticker\",\"symbol\":\"tETHUSD\"},{\"event\":\"subscribe\",\"channel\":\"ticker\",\"symbol\":\"tXRPUSD\"}]"

-- One connection: how the connection attempt ends, how the sending of a text ends, and the events.
pub record Round : Type 0 where
  pub connected : Result {0, 0} Unit String
  pub send : String → Result {0, 0} Unit String
  pub events : List Event

abbrev pub Outcome : Type 0 → Type 0
Outcome F = Option (Result {0, 0} Unit StreamError) × PriceBook F

-- The task's counters, and the delays that it slept, the last one first.
pub record Task : Type 0 where
  pub backoff : ℕ
  pub failures : ℕ
  pub reconnects : ℕ
  pub slept : List ℕ

abbrev pub start_task : Task
start_task = record { backoff = reconnect_base_delay; failures = 0; reconnects = 0; slept = [] }

-- The `match` on the outcome of a connection, the sleep, and the doubling.
unfoldable pub after_round : Result {0, 0} Unit StreamError → Task → Task
after_round (ok _) task = record {
  backoff = min (reconnect_base_delay * 2) 30000;
  failures = task.failures;
  reconnects = task.reconnects;
  slept = reconnect_base_delay ∷ task.slept;
}
after_round (err e) task = record {
  backoff = min (task.backoff * 2) 30000;
  failures = (task.failures + 1) % 2 ^ 64;
  reconnects = (task.reconnects + 1) % 2 ^ 64;
  slept = task.backoff ∷ task.slept;
}

module _ (f : Floats) (json : Json f.F) where
  abbrev pub booked : ℕ → Option (Ticker f.F) → PriceBook f.F → PriceBook f.F
  booked now none book = book
  booked now (some t) book = upsert now t book

  -- The loop over the events; `none` means that it waits for the next one.
  unfoldable pub read_loop : ExchangeId → List Event → PriceBook f.F → Outcome f.F
  read_loop exchange [] book = (none, book)
  read_loop exchange (closed ∷ events) book = (some (err closed_by_peer), book)
  read_loop exchange (failed e ∷ events) book = (some (err (stream_error e)), book)
  read_loop exchange (received now msg ∷ events) book =
      read_loop exchange events (booked now (parse_ticker f json exchange msg) book)

  abbrev pub after_send :
      ExchangeId → List Event → PriceBook f.F → Result {0, 0} Unit String → Outcome f.F
  after_send exchange events book (ok _) = read_loop exchange events book
  after_send exchange events book (err e) = (some (err (subscribe_failed e)), book)

  unfoldable pub stream_once : ExchangeId → Round → PriceBook f.F → Outcome f.F
  unfolding read_loop subscribe
  stream_once exchange round book = elim round.connected [
    | err e ↦ (some (err (connect_failed e)), book)
    | ok _ ↦ elim (subscribe exchange) [
      | none ↦ read_loop exchange round.events book
      | some msg ↦ after_send exchange round.events book (round.send msg)
    ]
  ]

  -- The task over the connections that it makes; it never leaves the loop, and stays in a connection
  -- that does not end.
  unfoldable pub run_exchange_loop :
      ExchangeId → List Round → Task → PriceBook f.F → Task × PriceBook f.F
  unfolding stream_once after_round
  run_exchange_loop exchange [] task book = (task, book)
  run_exchange_loop exchange (round ∷ rounds) task book =
      let (outcome, book') = stream_once exchange round book in
      elim outcome [
        | none ↦ (task, book')
        | some r ↦ run_exchange_loop exchange rounds (after_round r task) book'
      ]

  abbrev pub FeedSnapshot : Type 0
  FeedSnapshot = List (String × (f.F × ℕ))

  abbrev pub add_price :
      String → ℕ → Option (Option f.F) → Option FeedSnapshot → Option FeedSnapshot
  add_price feed count none rest = none
  add_price feed count (some none) rest = rest
  add_price feed count (some (some price)) none = none
  add_price feed count (some (some price)) (some rest) = some ((feed, (price, count)) ∷ rest)

  -- The loop over the feeds; a feed with no observation is passed over. `none` is a panic of the sort.
  unfoldable pub snapshot_loop : List String → PriceBook f.F → Option FeedSnapshot
  snapshot_loop [] book = some []
  snapshot_loop (feed ∷ feeds) book =
      let rest = snapshot_loop feeds book in
      elim (observations feed book) [
        | [] ↦ rest
        | o ∷ obs ↦ add_price feed (length (o ∷ obs)) (volume_trimmed_median f (o ∷ obs)) rest
      ]

  unfoldable pub snapshot : PriceBook f.F → Option FeedSnapshot
  unfolding snapshot_loop
  snapshot book = snapshot_loop all_feeds book
