-- ===== src/Ftso/Node/Connector/Readings.antt =====
-- What the book and the snapshot hold after any run of the connectors.
use mathlib.Core.List.Memᴰ
use Prim.Native.String.{String}
use text.Mathlib.Text.{◌==◌ as ◌≐◌}
use flare_verifiable_rag.Prelude.{
  Memᴰ, ℕ, ◌≡◌, ◌≢◌, ◌↔◌, inl, inr, refl, sym, ap, ◌∙◌, subst, true, false, Bool-cases, some,
  Option-cases, List, [], ◌∷◌, All, map, Result-cases, length, List-cases,
}
use flare_verifiable_rag.Ftso.{Floats, IsOrdered, le, zero_f}
use flare_verifiable_rag.Ftso.Calculator.{volume_trimmed_median}
use flare_verifiable_rag.Ftso.Calculator.Sorting.{Obs, Priced}
use flare_verifiable_rag.Ftso.Calculator.Whole.{volume_trimmed_median_exists}
use flare_verifiable_rag.Ftso.Node.{
  all_feeds, ExchangeId, same_exchange, BookEntry, Venues, PriceBook, put_venue, put_entry, upsert,
  venues_of, observed, observations, live_exchanges,
}
use flare_verifiable_rag.Ftso.Node.Parsers.{Json, Message, parse_ticker}
use flare_verifiable_rag.Ftso.Node.Parsers.Sound.{parse_ticker_sound}
use flare_verifiable_rag.Ftso.Node.Connector.{
  Event, closed, failed, received, Round, subscribe, booked, read_loop, stream_once, FeedSnapshot,
  snapshot_loop, snapshot,
}

module _ (f : Floats) where
  -- A price that the parsers let through.
  abbrev pub IsPrice : f.F → Type 0
  IsPrice p = (f.is_finite p ≡ true) × (le f p (zero_f f) ≡ false)

  abbrev PricedVenues : Venues f.F → Type 0
  PricedVenues m = All (λ (p : ExchangeId × BookEntry f.F). IsPrice p.1.price) m

  abbrev pub PricedBook : PriceBook f.F → Type 0
  PricedBook book = All (λ (r : String × Venues f.F). PricedVenues r.1) book

  put_venue-Priced :
      (x : ExchangeId) (e : BookEntry f.F) (m : Venues f.F)
      → IsPrice e.price
      → PricedVenues m
      → PricedVenues (put_venue x e m)
  unfolding put_venue
  put_venue-Priced x e [] h a = (h, tt)
  put_venue-Priced x e ((k, d) ∷ m) h a = elim (Bool-cases (same_exchange k x)) [
    | inl q ↦ rw (q, put_venue) (h, a.1)
    | inr q ↦ rw (q, put_venue) (a.0, put_venue-Priced x e m h a.1)
  ]

  put_entry-Priced :
      (feed : String) (x : ExchangeId) (e : BookEntry f.F) (book : PriceBook f.F)
      → IsPrice e.price
      → PricedBook book
      → PricedBook (put_entry feed x e book)
  unfolding put_entry
  put_entry-Priced feed x e [] h a = (put_venue-Priced x e [] h tt, tt)
  put_entry-Priced feed x e ((k, m) ∷ book) h a = elim (Bool-cases (k ≐ feed)) [
    | inl q ↦ rw (q, put_entry) (put_venue-Priced x e m h a.0, a.1)
    | inr q ↦ rw (q, put_entry) (a.0, put_entry-Priced feed x e book h a.1)
  ]

  observations-Priced :
      (feed : String) (book : PriceBook f.F)
      → PricedBook book
      → Priced f IsPrice (observations feed book)
  unfolding observations venues_of
  observations-Priced feed [] a = tt
  observations-Priced feed ((k, m) ∷ book) a = elim (Bool-cases (k ≐ feed)) [
    | inl q ↦ rw (q, observations) (observed-Priced m a.0)
    | inr q ↦ rw (q, observations) (observations-Priced feed book a.1)
  ]
    where
      observed-Priced : (m : Venues f.F) → PricedVenues m → Priced f IsPrice (map observed m)
      observed-Priced [] a = tt
      observed-Priced (p ∷ m) a = (a.0, observed-Priced m a.1)

  module _ (json : Json f.F) where
    -- The books that the messages of the venues lead to, in whatever order they come.
    pub data Reached : PriceBook f.F → Type 0 where
      empty : (book : PriceBook f.F) → book ≡ [] → Reached book
      message :
          (book after : PriceBook f.F) (now : ℕ) (exchange : ExchangeId) (msg : Message)
          → Reached book
          → after ≡ booked f json now (parse_ticker f json exchange msg) book
          → Reached after

    read_loop-Reached :
        (exchange : ExchangeId) (events : List Event) (book : PriceBook f.F)
        → Reached book
        → Reached (read_loop f json exchange events book).1
    unfolding read_loop
    read_loop-Reached exchange [] book r = r
    read_loop-Reached exchange (closed ∷ events) book r = r
    read_loop-Reached exchange (failed e ∷ events) book r = r
    read_loop-Reached exchange (received now msg ∷ events) book r =
        read_loop-Reached exchange events _ (message book _ now exchange msg r refl)

    -- A connection is a run of such steps.
    pub stream_once-Reached :
        (exchange : ExchangeId) (round : Round) (book : PriceBook f.F)
        → Reached book
        → Reached (stream_once f json exchange round book).1
    unfolding stream_once
    stream_once-Reached exchange round book r = elim (Result-cases round.connected) [
      | inr (x, c) ↦ rw (c, stream_once) r
      | inl (_, c) ↦ elim (Option-cases (subscribe exchange)) [
        | inl s ↦ rw (c, s, stream_once) (read_loop-Reached exchange round.events book r)
        | inr (msg, s) ↦ elim (Result-cases (round.send msg)) [
          | inl (_, t) ↦ rw (c, s, t, stream_once) (read_loop-Reached exchange round.events book r)
          | inr (x, t) ↦ rw (c, s, t, stream_once) r
        ]
      ]
    ]

    Reached-Priced : (book : PriceBook f.F) → Reached book → PricedBook book
    unfolding upsert
    Reached-Priced book (empty _ e) = subst PricedBook (sym e) tt
    Reached-Priced book (message before _ now exchange msg r e) =
        let a = Reached-Priced before r in
        elim (Option-cases (parse_ticker f json exchange msg)) [
          | inl n ↦ subst PricedBook (sym e) (rw n a)
          | inr (t, p) ↦
              let (_, _, (price, _)) = parse_ticker_sound f json exchange msg t p in
              subst PricedBook (sym e) (rw p (put_entry-Priced t.feed t.exchange _ before price a))
        ]

    -- What a snapshot says of a feed.
    abbrev pub IsReading : PriceBook f.F → String → f.F → ℕ → Type 0
    IsReading book feed price count =
        (observations feed book ≢ [])
        × (count ≡ live_exchanges feed book)
        × (volume_trimmed_median f (observations feed book) ≡ some (some price))

    abbrev pub row : String → f.F → ℕ → String × (f.F × ℕ)
    row feed price count = (feed, (price, count))

    reading_lem :
        (book : PriceBook f.F) (feed : String) (m : f.F) (o : Obs f) (obs : List (Obs f))
        → observations feed book ≡ o ∷ obs
        → volume_trimmed_median f (o ∷ obs) ≡ some (some m)
        → IsReading book feed m (length (o ∷ obs))
    unfolding live_exchanges
    reading_lem book feed m o obs n q =
        (λ c. cc (c, n), ap length (sym n), ap (volume_trimmed_median f) n ∙ q)

    row_inv :
        (g : String) (p : f.F) (c : ℕ) (feed : String) (m : f.F) (k : ℕ)
        → row g p c ≡ row feed m k
        → (g ≡ feed) × (p ≡ m) × (c ≡ k)
    row_inv g p c feed m k e = (ap (λ r. r.0) e, ap (λ r. r.1.0) e, ap (λ r. r.1.1) e)

    same-IsReading :
        (book : PriceBook f.F) (g : String) (p : f.F) (c : ℕ) (feed : String) (m : f.F) (k : ℕ)
        → g ≡ feed
        → p ≡ m
        → c ≡ k
        → IsReading book feed m k
        → IsReading book g p c
    same-IsReading book g p c feed m k x y z (a, b, d) = (
      λ e. a (ap (λ i. observations i book) (sym x) ∙ e),
      z ∙ b ∙ ap (λ i. live_exchanges i book) (sym x),
      ap (λ i. volume_trimmed_median f (observations i book)) x
          ∙ d
          ∙ ap (λ i. some (some i)) (sym y),
    )

    reading_unique :
        (book : PriceBook f.F) (g : String) (p : f.F) (c : ℕ) (feed : String) (m : f.F) (k : ℕ)
        → g ≡ feed
        → IsReading book g p c
        → IsReading book feed m k
        → row g p c ≡ row feed m k
    reading_unique book g p c feed m k x (_, b, d) (_, b', d') =
        let same_count : c ≡ k = b ∙ ap (λ i. live_exchanges i book) x ∙ sym b' in
        let same_median : some (some p) ≡ some (some m) =
          sym d ∙ ap (λ i. volume_trimmed_median f (observations i book)) x ∙ d' in
        let same_price : p ≡ m = cc in cc (x, same_price, same_count)

    snapshot_loop_lem :
        (law : IsOrdered f IsPrice) (book : PriceBook f.F) (feeds : List String)
        → PricedBook book
        → (s : FeedSnapshot f json) × (snapshot_loop f json feeds book ≡ some s)
          × ((feed : String) (price : f.F) (count : ℕ)
              → Memᴰ (row feed price count) s ↔ (Memᴰ feed feeds × IsReading book feed price count))
    unfolding snapshot_loop
    snapshot_loop_lem law book [] a = (
      [],
      refl,
      λ g price count. (λ m. absurd (Memᴰ.not-nil m), λ (m, _). absurd (Memᴰ.not-nil m)),
    )
    snapshot_loop_lem law book (feed ∷ feeds) a =
        let (s, e, h) = snapshot_loop_lem law book feeds a in
        elim (List-cases (observations feed book)) [
          | inl n ↦ (
            s,
            rw (n, snapshot_loop) e,
            λ g price count. (
              λ m. let (there, r) = (h g price count).0 m in (Memᴰ.tail there, r),
              λ (m, r). elim m [
                | Memᴰ.head q ↦ absurd (r.0 (ap (λ k. observations k book) q ∙ n))
                | Memᴰ.tail there ↦ (h g price count).1 (there, r)
              ],
            ),
          )
          | inr (o, obs, n) ↦
              let priced = subst (Priced f IsPrice) n (observations-Priced feed book a) in
              let (m, q) = volume_trimmed_median_exists f IsPrice (o ∷ obs) law priced (λ c. cc) in
              let read = reading_lem book feed m o obs n q in
              (
                row feed m (length (o ∷ obs)) ∷ s,
                rw (n, q, e, snapshot_loop) refl,
                λ g price count. (
                  λ t. elim t [
                    | Memᴰ.head same ↦
                        let (x, y, z) = row_inv g price count feed m (length (o ∷ obs)) same in
                        (
                          Memᴰ.head x,
                          same-IsReading book g price count feed m (length (o ∷ obs)) x y z read,
                        )
                    | Memᴰ.tail there ↦ let (k, r) = (h g price count).0 there in (Memᴰ.tail k, r)
                  ],
                  λ (t, r). elim t [
                    | Memᴰ.head x ↦
                        Memᴰ.head
                          (reading_unique book g price count feed m (length (o ∷ obs)) x r read)
                    | Memᴰ.tail there ↦ Memᴰ.tail ((h g price count).1 (there, r))
                  ],
                ),
              )
        ]

    -- Let finite positive numbers be ordered. Whatever messages the venues send, `snapshot` does not
    -- panic, and it reports exactly the feeds of the node that the book has an observation for: each
    -- with the volume-trimmed median of its observations and with their number.
    pub snapshot_correct :
        (law : IsOrdered f IsPrice) (book : PriceBook f.F)
        → Reached book
        → (s : FeedSnapshot f json) × (snapshot f json book ≡ some s)
          × ((feed : String) (price : f.F) (count : ℕ)
              → Memᴰ (row feed price count) s
                ↔ (Memᴰ feed all_feeds × IsReading book feed price count))
    unfolding snapshot
    snapshot_correct law book r = snapshot_loop_lem law book all_feeds (Reached-Priced book r)
