-- ===== src/Ftso/Node/Connector/Backoff.antt =====
-- The delays of the connector task.
use Prim.Native.String.{String}
use flare_verifiable_rag.Prelude.{
  ℕ, zero, suc, ◌*◌, ◌^◌, ◌≡◌, ◌≢◌, inl, inr, some, Option-cases, List, [], ◌∷◌, min, Result, ok,
  err, Result-cases, ◌%◌,
}
use flare_verifiable_rag.Ftso.{Floats}
use flare_verifiable_rag.Ftso.Node.{ExchangeId, PriceBook}
use flare_verifiable_rag.Ftso.Node.Parsers.{Json, parse_ticker}
use flare_verifiable_rag.Ftso.Node.Connector.{
  Event, closed, failed, received, subscribe, Round, Task, booked, read_loop, after_send,
  stream_once,
}

-- The delay after `n` failures in a row.
abbrev pub delay : ℕ → ℕ
delay n = min (500 * 2 ^ n) 30000

-- The first `n` delays, the last one first.
abbrev pub delays : ℕ → List ℕ
delays zero = []
delays (suc n) = delay n ∷ delays n

module _ (f : Floats) (json : Json f.F) (exchange : ExchangeId) where
  read_loop_fails :
      (events : List Event) (book : PriceBook f.F)
      → (read_loop f json exchange events book).0 ≢ some (ok tt)
  unfolding read_loop
  read_loop_fails [] book e = cc
  read_loop_fails (closed ∷ events) book e = cc
  read_loop_fails (failed x ∷ events) book e = cc
  read_loop_fails (received now msg ∷ events) book e =
      read_loop_fails events (booked f json now (parse_ticker f json exchange msg) book) e

  after_send_fails :
      (events : List Event) (book : PriceBook f.F) (sent : Result {0, 0} Unit String)
      → (after_send f json exchange events book sent).0 ≢ some (ok tt)
  after_send_fails events book (ok _) e = read_loop_fails events book e
  after_send_fails events book (err x) e = cc

  -- No connection ends well: a close by the peer is an error like the others.
  pub stream_once_fails :
      (round : Round) (book : PriceBook f.F)
      → (stream_once f json exchange round book).0 ≢ some (ok tt)
  unfolding stream_once
  stream_once_fails round book e = elim (Result-cases round.connected) [
    | inr (x, c) ↦ cc (rw (c, stream_once) at e)
    | inl (_, c) ↦ elim (Option-cases (subscribe exchange)) [
      | inl s ↦ read_loop_fails round.events book (rw (c, s, stream_once) at e)
      | inr (msg, s) ↦
          after_send_fails round.events book (round.send msg) (rw (c, s, stream_once) at e)
    ]
  ]

  -- A task that has slept the first `n` delays.
  record Slept (n : ℕ) (task : Task) : Type 0 where
    slept_delays : task.slept ≡ delays n
    next_delay : task.backoff ≡ delay n
    counted : (task.failures ≡ n % 2 ^ 64) × (task.reconnects ≡ n % 2 ^ 64)
