-- ===== src/Quality/Fresh.antt =====
-- When a market snapshot passes.
use moex_tinvest_bot.Base.{
  ℕ, Bool, true, ◌&&◌, ◌*◌, ◌+◌, List, [], ◌∷◌, ◌≡◌, ◌≢◌, ◌↔◌, refl, arith, leb, ◌==◌, all,
  append-eq-nil,
}
use moex_tinvest_bot.Domain.{Text, Moment, aware, naive}
use moex_tinvest_bot.Portfolio.{Dict, MarketObservation}
use moex_tinvest_bot.Quality.{
  QualityError, report, time_of, observation_errors, market_errors, validate_market,
}

-- An observation of its own name, not from the future, not too old, and of a complete candle.
abbrev pub is_fresh : ℕ → ℕ → (Text × MarketObservation) → Bool
is_fresh now max_age_seconds (secid, o) =
    secid == o.instrument.secid
    && leb (time_of o.observed_at) now
    && leb now (time_of o.observed_at + max_age_seconds * 1_000_000)
    && o.complete

fresh-none :
    (now max_age : ℕ) (secid : Text) (o : MarketObservation)
    → (observation_errors now max_age secid o ≡ []) ↔ (is_fresh now max_age (secid, o) ≡ true)
fresh-none now max_age secid o = (λ h. ground arith, λ h. ground arith)

market-none :
    (now max_age : ℕ) (market : Dict MarketObservation)
    → (market_errors now max_age market ≡ []) ↔ (all (is_fresh now max_age) market ≡ true)
unfolding market_errors
market-none now max_age [] = (λ h. refl, λ h. refl)
market-none now max_age ((secid, o) ∷ market) =
    let (there, back) = market-none now max_age market in
    let (fresh, none_here) = fresh-none now max_age secid o in
    (
      λ h.
          let (a, b) = append-eq-nil (observation_errors now max_age secid o) _ h in
          ground (arith, fresh a, there b),
      λ h. ground (arith, none_here, back),
    )

report_passed : (es : List QualityError) → ((report es).passed ≡ true) ↔ (es ≡ [])
report_passed [] = (λ h. refl, λ h. refl)
report_passed (e ∷ es) = (λ h. cc, λ h. cc)

-- A snapshot passes exactly when the time of the test has a zone, there is some observation, and
-- each one stands under its own name, is neither from the future nor older than allowed, and is of a
-- complete candle.
pub validate_market_lem :
    (market : Dict MarketObservation) (as_of : Moment) (max_age : ℕ)
    → ((validate_market market as_of max_age).passed ≡ true) ↔ (
        (now : ℕ) × (as_of ≡ aware now)
        × (market ≢ [])
        × (all (is_fresh now max_age) market ≡ true))
unfolding validate_market
validate_market_lem market (naive t) max_age = (λ h. cc, λ (now, e, _, _). cc)
validate_market_lem [] (aware now) max_age =
    (λ h. cc, λ (_, _, some_market, _). absurd (some_market refl))
validate_market_lem (e ∷ market) (aware now) max_age = (
  λ h. (
    now,
    refl,
    (λ none_left. cc),
    (market-none now max_age (e ∷ market)).0
        ((report_passed (market_errors now max_age (e ∷ market))).0 h),
  ),
  λ (then', same, _, fresh).
      (report_passed (market_errors now max_age (e ∷ market))).1
        ((market-none now max_age (e ∷ market)).1 (ground (arith, same, fresh))),
)
