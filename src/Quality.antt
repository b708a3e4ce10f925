-- ===== src/Quality.antt =====
-- src/moex_bot/quality.py: `validate_market`, which decides whether a market snapshot may be traded on.
-- The constructor of `MarketObservation` has refused a naive time.
pub mod Fresh
mod Tests
use moex_tinvest_bot.Base.{
  ℕ, Bool, true, false, not, ◌*◌, ◌+◌, List, [], ◌∷◌, ◌++◌, ltb, leb, ◌==◌, errors_of,
  if◌then◌else◌,
}
use moex_tinvest_bot.Domain.{Text, Moment, aware, naive}
use moex_tinvest_bot.Portfolio.{Dict, MarketObservation}

pub data QualityError : Type 0 where
  naive_as_of empty_market : QualityError
  identity_mismatch future_observation stale_observation incomplete_candle : Text → QualityError
  -- appended by the harness
  missing_long_flow stale_long_flow : Text → QualityError

pub record QualityReport : Type 0 where
  pub passed : Bool
  pub errors : List QualityError

abbrev pub time_of : Moment → ℕ
time_of (aware t) = t
time_of (naive t) = t

-- The body of the loop: times are in microseconds.
abbrev pub observation_errors : ℕ → ℕ → Text → MarketObservation → List QualityError
observation_errors now max_age_seconds secid o = errors_of (
    (not (secid == o.instrument.secid), identity_mismatch secid)
    ∷ (ltb now (time_of o.observed_at), future_observation secid)
    ∷ (ltb (time_of o.observed_at + max_age_seconds * 1_000_000) now, stale_observation secid)
    ∷ (not o.complete, incomplete_candle secid)
    ∷ [])

market_errors : ℕ → ℕ → Dict MarketObservation → List QualityError
market_errors now max_age_seconds [] = []
market_errors now max_age_seconds ((secid, o) ∷ market) =
    observation_errors now max_age_seconds secid o ++ market_errors now max_age_seconds market

abbrev report : List QualityError → QualityReport
report [] = record { passed = true; errors = [] }
report (e ∷ es) = record { passed = false; errors = e ∷ es }

-- `validate_market`
pub validate_market : Dict MarketObservation → Moment → ℕ → QualityReport
validate_market market (naive t) max_age_seconds = report (naive_as_of ∷ [])
validate_market [] (aware now) max_age_seconds = report (empty_market ∷ [])
validate_market (e ∷ market) (aware now) max_age_seconds =
    report (market_errors now max_age_seconds (e ∷ market))
