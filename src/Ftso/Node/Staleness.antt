-- ===== src/Ftso/Node/Staleness.antt =====
-- The staleness monitor and the read-back `stale_feeds`.
use mathlib.Core.List.Memᴰ
use Prim.Native.String.{String}
use flare_verifiable_rag.Prelude.{
  Memᴰ, ℕ, ◌-◌, ◌≤◌, ◌≡◌, ◌↔◌, refl, sym, ap, ◌∙◌, subst, inl, inr, Bool, false, ◌||◌, List, [],
  ◌∷◌, ltb, select, any, arith, All,
}
use flare_verifiable_rag.Ftso.Node.{
  all_feeds, ExchangeId, BookEntry, Venues, PriceBook, venues_of, last_update, is_stale_feed,
  stale_feeds, alerts_from, check_staleness,
}
use flare_verifiable_rag.Ftso.Node.Book.{latest_lem}

ltb-false : (a b : ℕ) → (ltb a b ≡ false) ↔ (b ≤ a)
ltb-false a b = ground arith

any-All :
    (stale : String → Bool) (Fresh : String → Type 0) (feeds : List String)
    → ((feed : String) → (stale feed ≡ false) ↔ Fresh feed)
    → (any stale feeds ≡ false) ↔ All Fresh feeds
any-All stale Fresh [] h = (λ _. tt, λ _. refl)
any-All stale Fresh (feed ∷ feeds) h =
    let (forth, back) = any-All stale Fresh feeds h in
    (
      λ e. ((h feed).0 (ground arith), forth (ground arith)),
      λ (a, b). ground (arith, (h feed).1 a, back b),
    )

alerts_from_lem :
    (stale : String → Bool) (b : Bool) (feeds : List String)
    → alerts_from stale b feeds ≡ (b || any stale feeds, select stale feeds)
alerts_from_lem stale b [] = ground arith
alerts_from_lem stale b (feed ∷ feeds) =
    ground (arith, alerts_from_lem stale (b || stale feed) feeds)

module _ {F : Type 0} where
  -- Some venue sent a ticker of the feed within the last `stale_after` milliseconds.
  abbrev pub IsFresh : ℕ → ℕ → PriceBook F → String → Type 0
  IsFresh now stale_after book feed =
      (p : ExchangeId × BookEntry F) × Memᴰ p (venues_of feed book)
      × (now - p.1.received ≤ stale_after)

  member_le :
      (t : ℕ) (m : Venues F) (p : ExchangeId × BookEntry F)
      → Memᴰ p m
      → All (λ (q : ExchangeId × BookEntry F). q.1.received ≤ t) m
      → p.1.received ≤ t
  member_le t [] p h a = absurd (Memᴰ.not-nil h)
  member_le t (q ∷ m) p (Memᴰ.head e) a =
      subst (λ (r : ExchangeId × BookEntry F). r.1.received ≤ t) (sym e) a.0
  member_le t (q ∷ m) p (Memᴰ.tail n) a = member_le t m p n a.1

  is_stale_feed-IsFresh :
      (now stale_after : ℕ) (book : PriceBook F) (feed : String)
      → (is_stale_feed now stale_after book feed ≡ false) ↔ IsFresh now stale_after book feed
  unfolding is_stale_feed last_update
  is_stale_feed-IsFresh now stale_after book feed = elim (latest_lem (venues_of feed book)) [
    | inl (n, q) ↦ (
      λ h. absurd (cc (rw (n, is_stale_feed) at h)),
      λ (p, there, _). absurd (Memᴰ.not-nil (subst (Memᴰ p) q there)),
    )
    | inr (t, l, (p, there, same), a) ↦ (
      λ h.
          let e = (ltb-false stale_after (now - t)).0 (rw (l, is_stale_feed) at h) in
          (p, there, omega (arith, e, same)),
      λ (r, at, close).
          let e = member_le t (venues_of feed book) r at a in
          rw (l, is_stale_feed) ((ltb-false stale_after (now - t)).1 (omega (arith, e, close))),
    )
  ]

  -- The monitor clears the flag exactly if each feed got a ticker from some venue within the threshold;
  -- the feeds that it sends alerts for are those that `stale_feeds` names at that time.
  pub check_staleness_correct :
      (now stale_after : ℕ) (book : PriceBook F)
      → (((check_staleness now stale_after book).0 ≡ false)
          ↔ All (IsFresh now stale_after book) all_feeds)
        × ((check_staleness now stale_after book).1 ≡ stale_feeds now stale_after book)
  unfolding check_staleness stale_feeds
  check_staleness_correct now stale_after book =
      let stale = is_stale_feed now stale_after book in
      let run = alerts_from_lem stale false all_feeds in
      let (forth, back) =
        any-All stale (IsFresh now stale_after book) all_feeds
          (is_stale_feed-IsFresh now stale_after book) in
      (
        (λ e. forth (sym (ap (λ p. p.0) run) ∙ e), λ a. ap (λ p. p.0) run ∙ back a),
        ap (λ p. p.1) run,
      )
