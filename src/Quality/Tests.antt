-- ===== src/Quality/Tests.antt =====
-- A snapshot that passes, and the theorem at it.
use moex_tinvest_bot.Base.{ℕ, ◌≡◌, ◌≢◌, ◌↔◌, refl, [], ◌∷◌, true, all}
use moex_tinvest_bot.Domain.{aware}
use moex_tinvest_bot.Portfolio.{Dict, MarketObservation}
use moex_tinvest_bot.Quality.{validate_market, market_errors, stale_observation, identity_mismatch}
use moex_tinvest_bot.Quality.Fresh.{is_fresh, validate_market_lem}
use moex_tinvest_bot.Samples.{seen}

abbrev one_seen : Dict MarketObservation
one_seen = (10, seen) ∷ []

stale :
    (validate_market ((9, seen) ∷ []) (aware 8_000_000) 6).errors
    ≡ identity_mismatch 9 ∷ stale_observation 9 ∷ []
unfolding validate_market market_errors
stale = refl

validate_market_lem_example : ((validate_market one_seen (aware 5_000_000) 5).passed ≡ true) ↔ (
    (now : ℕ) × (aware 5_000_000 ≡ aware now)
    × (one_seen ≢ [])
    × (all (is_fresh now 5) one_seen ≡ true))
validate_market_lem_example = validate_market_lem one_seen (aware 5_000_000) 5
