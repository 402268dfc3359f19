-- ===== src/Ftso/Examples.antt =====
-- Small runs of the price calculator, with numbers of two decimals in place of `f64`.
mod Node
mod Submitter
use mathlib.Core.List.Memᴰ
use mathlib.Core.List.{Permᴰ}
use flare_verifiable_rag.Ftso.Calculator.Band.{HasSums}
use Prim.Native.String.{String}
use package.text.Mathlib.Text.{◌==◌ as ◌≐◌}
use flare_verifiable_rag.Prelude.{
  Memᴰ, ℕ, ◌+◌, ◌-◌, ◌*◌, ◌/◌, ◌%◌, ◌^◌, ◌≤◌, ◌≡◌, ◌≢◌, ◌↔◌, ◌⊎◌, refl, compare, true, false,
  Option, none, some, List, [], ◌∷◌, ◌++◌, length, All, arith, min, ok, err, if◌then◌else◌,
}
use flare_verifiable_rag.Prelude.Bytes.{zeros, to_be_bytes, length-to_be_bytes}
use flare_verifiable_rag.Ftso.{Floats, IsOrdered, le}
use flare_verifiable_rag.Ftso.Calculator.{
  Observation, insert, sort_by_price, price_at, plain_median, trim, all_if_empty, cross_half,
  weighted_median, trimmed, median_of_sorted, volume_trimmed_median,
}
use flare_verifiable_rag.Ftso.Calculator.Sorting.{Sorted, Distinct}
use flare_verifiable_rag.Ftso.Calculator.Correct.{
  HasMeans, IsBetween, IsMedian, volume_trimmed_median_correct,
}
use flare_verifiable_rag.Ftso.Calculator.Unordered.{volume_trimmed_median_unordered}
use flare_verifiable_rag.Ftso.Node.{
  all_feeds, coinbase, Ticker, PriceBook, put_venue, put_entry, upsert, check_staleness,
  stale_feeds,
}
use flare_verifiable_rag.Ftso.Node.Book.{entry_of, entry_of-upsert}
use flare_verifiable_rag.Ftso.Node.Staleness.{IsFresh, check_staleness_correct}
use flare_verifiable_rag.Ftso.Node.Parsers.{
  Json, text, coinbase_feed, parse_coinbase, parse_for, is_implausible, parse_ticker,
}
use flare_verifiable_rag.Ftso.Node.Parsers.Sound.{IsFeed, IsPlausible, parse_ticker_sound}
use flare_verifiable_rag.Ftso.Node.Connector.{
  closed, received, Round, Task, start_task, run_exchange_loop, FeedSnapshot, snapshot,
}
use flare_verifiable_rag.Ftso.Node.Connector.Backoff.{delays}
use flare_verifiable_rag.Ftso.Node.Connector.Readings.{
  Reached, empty, message, row, IsReading, snapshot_correct,
}
use flare_verifiable_rag.Ftso.Submitter.{
  PriceError, no_feeds, commit_preimage, PriceSubmission, new_submission,
}
use flare_verifiable_rag.Ftso.Submitter.Decoding.{u256}
use flare_verifiable_rag.Ftso.Submitter.Submission.{
  commit_preimage-ne-abi, Refused, Formats, Saturates, Discloses, new_submission_correct,
}

-- A number is held as its hundredfold.
abbrev pub cents : Floats
cents = record {
  F = ℕ;
  partial_cmp = λ a b. some (compare a b);
  add = λ a b. a + b;
  mul = λ a b. a * b / 100;
  div = λ a b. a * 100 / b;
  is_finite = λ a. true;
  round = λ a. (a + 50) / 100 * 100;
  as_u64 = λ a. min (a / 100) (2 ^ 64 - 1);
  of_u64 = λ n. n * 100;
  of_fraction = λ a b. a * 100 / b;
}

abbrev Any : ℕ → Type 0
Any a = Unit

cents-le : (a b : ℕ) → (le cents a b ≡ true) ↔ (a ≤ b)
cents-le a b = ground arith

pub cents-IsOrdered : (P : ℕ → Type 0) → IsOrdered cents P
cents-IsOrdered P = record {
  total = λ a b p q. ground arith;
  le_trans =
      λ a b c p q r h k. (cents-le a c).1 (omega (arith, (cents-le a b).0 h, (cents-le b c).0 k));
}

cents-HasMeans : (P : ℕ → Type 0) → HasMeans cents P
cents-HasMeans P a b p q h =
    let k = (cents-le a b).0 h in
    (
      (cents-le a ((a + b) * 100 / 200)).1 (omega arith),
      (cents-le ((a + b) * 100 / 200) b).1 (omega arith),
    )

cents-HasSums : HasSums cents Any
cents-HasSums = record {
  zero_sum = tt;
  add_sum = λ a v p q. (tt, (cents-le a (a + v)).1 (omega arith));
  cut_low = λ a p. tt;
  cut_high = λ a p. tt;
}

abbrev quote : String → ℕ → ℕ → Observation ℕ
quote venue price volume = record { exchange = venue; price = price; volume_24h = volume }

abbrev quotes : List (Observation ℕ)
quotes = quote "kraken" 210 400 ∷ quote "gate" 100 10000 ∷ quote "binance" 110 600 ∷ []

abbrev shuffled : List (Observation ℕ)
shuffled = quote "binance" 110 600 ∷ quote "kraken" 210 400 ∷ quote "gate" 100 10000 ∷ []

quotes_median : volume_trimmed_median cents quotes ≡ some (some 100)
unfolding volume_trimmed_median sort_by_price insert median_of_sorted trimmed trim all_if_empty
    weighted_median cross_half
quotes_median = refl

-- With no volumes the plain median is taken.
no_volumes :
    volume_trimmed_median cents (quote "gate" 100 0 ∷ quote "kraken" 200 0 ∷ []) ≡ some (some 150)
unfolding volume_trimmed_median sort_by_price insert median_of_sorted plain_median price_at
no_volumes = refl

volume_trimmed_median_correct_example :
    (quotes ≡ []) × (volume_trimmed_median cents quotes ≡ some none)
    ⊎ ((sorted : List (Observation ℕ)) × (m : ℕ) × (volume_trimmed_median cents quotes
          ≡ some (some m))
        × (Sorted cents sorted × Permᴰ sorted quotes)
        × IsMedian cents sorted m
        × IsBetween cents quotes m)
volume_trimmed_median_correct_example =
    volume_trimmed_median_correct cents Any (cents-IsOrdered Any) (cents-HasMeans Any) Any
      (cents-IsOrdered Any) cents-HasSums quotes (tt, (tt, (tt, tt))) (tt, (tt, (tt, tt)))

same_members : (o : Observation ℕ) → Memᴰ o quotes ↔ Memᴰ o shuffled
same_members o = (
  λ m. elim m [
    | Memᴰ.head e ↦ Memᴰ.tail (Memᴰ.head e)
    | Memᴰ.tail n ↦ elim n [
      | Memᴰ.head e ↦ Memᴰ.tail (Memᴰ.tail (Memᴰ.head e))
      | Memᴰ.tail k ↦ elim k [ Memᴰ.head e ↦ Memᴰ.head e | Memᴰ.tail z ↦ absurd (Memᴰ.not-nil z) ]
    ]
  ],
  λ m. elim m [
    | Memᴰ.head e ↦ Memᴰ.tail (Memᴰ.tail (Memᴰ.head e))
    | Memᴰ.tail n ↦ elim n [
      | Memᴰ.head e ↦ Memᴰ.head e
      | Memᴰ.tail k ↦ elim k [
        | Memᴰ.head e ↦ Memᴰ.tail (Memᴰ.head e)
        | Memᴰ.tail z ↦ absurd (Memᴰ.not-nil z)
      ]
    ]
  ],
)

apart_quotes : Distinct cents quotes
apart_quotes = ((λ a b. cc, (λ a b. cc, tt)), ((λ a b. cc, tt), (tt, tt)))

apart_shuffled : Distinct cents shuffled
apart_shuffled = ((λ a b. cc, (λ a b. cc, tt)), ((λ a b. cc, tt), (tt, tt)))

volume_trimmed_median_unordered_example :
    volume_trimmed_median cents quotes ≡ volume_trimmed_median cents shuffled
volume_trimmed_median_unordered_example =
    volume_trimmed_median_unordered cents Any (cents-IsOrdered Any) quotes shuffled
      (tt, (tt, (tt, tt))) (tt, (tt, (tt, tt))) apart_quotes apart_shuffled same_members
