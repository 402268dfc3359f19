-- ===== src/Ftso/Examples/Node.antt =====
-- Small runs of the price node, with a JSON library that knows one message.

use Prim.Native.String.{String}
use package.text.Mathlib.Text.{◌==◌ as ◌≐◌}
use flare_verifiable_rag.Prelude.{
  Memᴰ, ℕ, ◌≡◌, ◌↔◌, refl, false, Option, none, some, List, [], ◌∷◌, All, ok, err, if◌then◌else◌,
}
use flare_verifiable_rag.Ftso.Node.{
  all_feeds, coinbase, Ticker, PriceBook, put_venue, put_entry, upsert, check_staleness,
  stale_feeds,
}
use flare_verifiable_rag.Ftso.Node.Book.{entry_of, entry_of-upsert}
use flare_verifiable_rag.Ftso.Node.Staleness.{IsFresh, check_staleness_correct}
use flare_verifiable_rag.Ftso.Node.Parsers.{
  Json, text, coinbase_feed, parse_coinbase, parse_for, is_implausible, parse_ticker,
}
use flare_verifiable_rag.Ftso.Node.Parsers.Sound.{IsFeed, IsPlausible, parse_ticker_sound}
use flare_verifiable_rag.Ftso.Node.Connector.{
  closed, received, Round, Task, start_task, run_exchange_loop, FeedSnapshot, snapshot,
}
use flare_verifiable_rag.Ftso.Node.Connector.Readings.{
  Reached, empty, message, row, IsReading, snapshot_correct,
}
use flare_verifiable_rag.Ftso.Examples.{cents, cents-IsOrdered}

data ToyValue : Type 0 where
  leaf : String → ToyValue
  fields : List (String × String) → ToyValue

find : String → List (String × String) → Option ToyValue
find k [] = none
find k ((j, v) ∷ r) = if j ≐ k then some (leaf v) else find k r

abbrev toy_get : ToyValue → String → Option ToyValue
toy_get (leaf s) k = none
toy_get (fields r) k = find k r

abbrev toy_str : ToyValue → Option String
toy_str (leaf s) = some s
toy_str (fields r) = none

abbrev toy : Json ℕ
toy = record {
  Value = ToyValue;
  Object = Unit;
  from_str = λ s. some (
      fields (
        ("type", "ticker") ∷ ("product_id", "BTC-USD") ∷ ("price", s) ∷ ("volume_24h", "12") ∷ []));
  get = toy_get;
  as_str = toy_str;
  as_f64 = λ v. none;
  as_array = λ v. none;
  as_object = λ v. none;
  object_get = λ o k. none;
  parse_f64 = λ s. if s ≐ "12" then some 1200 else if s ≐ "0" then some 0 else none;
  from_utf8_lossy = λ b. "";
}

abbrev btc : Ticker ℕ
btc = record { feed = "BTC/USD"; exchange = coinbase; price = 1200; volume_24h = 1200 }

btc_parsed : parse_ticker cents toy coinbase (text "12") ≡ some btc
unfolding parse_ticker parse_for parse_coinbase coinbase_feed is_implausible find
btc_parsed = refl

zero_refused : parse_ticker cents toy coinbase (text "0") ≡ none
unfolding parse_ticker parse_for parse_coinbase coinbase_feed is_implausible find
zero_refused = refl

parse_ticker_sound_example : (coinbase ≡ coinbase) × IsFeed "BTC/USD" × IsPlausible cents toy btc
parse_ticker_sound_example = parse_ticker_sound cents toy coinbase (text "12") btc btc_parsed

abbrev book : PriceBook ℕ
book = ("BTC/USD", (coinbase, record { price = 1200; volume_24h = 1200; received = 70 }) ∷ []) ∷ []

booked_once : upsert 70 btc [] ≡ book
unfolding upsert put_entry put_venue
booked_once = refl

book-Reached : Reached cents toy book
book-Reached =
    message [] book 70 coinbase (text "12") (empty [] refl) (rw (btc_parsed, booked_once) refl)

entry_of-upsert_example :
    entry_of "ETH/USD" coinbase (upsert 70 btc []) ≡ entry_of "ETH/USD" coinbase []
entry_of-upsert_example = entry_of-upsert 70 btc [] "ETH/USD" coinbase

check_staleness_correct_example :
    (((check_staleness 100 50 book).0 ≡ false) ↔ All (IsFresh 100 50 book) all_feeds)
    × ((check_staleness 100 50 book).1 ≡ stale_feeds 100 50 book)
check_staleness_correct_example = check_staleness_correct 100 50 book

snapshot_correct_example :
    (s : FeedSnapshot cents toy) × (snapshot cents toy book ≡ some s)
    × ((feed : String) (price : ℕ) (count : ℕ)
        → Memᴰ (row cents toy feed price count) s
          ↔ (Memᴰ feed all_feeds × IsReading cents toy book feed price count))
snapshot_correct_example = snapshot_correct cents toy (cents-IsOrdered _) book book-Reached

-- A connection that streams, and one that is refused.
abbrev rounds : List Round
rounds =
    record { connected = ok tt; send = λ s. ok tt; events = received 70 (text "12") ∷ closed ∷ [] }
    ∷ record { connected = err "timeout"; send = λ s. ok tt; events = [] }
    ∷ []

abbrev task_after : Task
task_after = (run_exchange_loop cents toy coinbase rounds start_task []).0
