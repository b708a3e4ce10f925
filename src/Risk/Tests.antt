-- ===== src/Risk/Tests.antt =====
-- Runs of the risk gate, and the theorems at them.
use moex_tinvest_bot.Base.{◌≡◌, ◌∷◌, refl, some, [], true, arith}
use moex_tinvest_bot.Base.Int.{◌+ℤ◌, ◌-ℤ◌}
use moex_tinvest_bot.Domain.{OrderIntent, sell, critical}
use moex_tinvest_bot.Portfolio.{GeoRiskSnapshot}
use moex_tinvest_bot.Risk.{
  evaluate_intent, all_reasons, order_reasons, short_reasons, blocked_reasons, equity_reasons,
  exposure_reasons, geo_blocked, reversal, shorts_disabled, not_short_enabled, margin_unconfirmed,
  short_exposure, position_weight,
}
use moex_tinvest_bot.Risk.Limits.{IsPermitted, evaluate_intent-IsPermitted}
use moex_tinvest_bot.Risk.Exit.{exit_allowed}
use moex_tinvest_bot.Samples.{held_two, portfolio, calm, exposure, config, buy_one}

abbrev blocking : GeoRiskSnapshot
blocking = record { level = critical; multiplier = 0; blocked_secids = 10 ∷ []; reasons = [] }

abbrev sell_two : OrderIntent
sell_two = record buy_one { side = sell; lots = 2; notional = 5_000_000_000_000 }

abbrev sell_three : OrderIntent
sell_three = record buy_one { side = sell; lots = 3; notional = 7_500_000_000_000 }

buy_allowed : (evaluate_intent buy_one portfolio config calm exposure).allowed ≡ true
unfolding evaluate_intent all_reasons order_reasons short_reasons blocked_reasons equity_reasons
    exposure_reasons ◌-ℤ◌ ◌+ℤ◌
buy_allowed = refl

buy_blocked :
    (evaluate_intent buy_one portfolio config blocking exposure).reasons ≡ geo_blocked ∷ []
unfolding evaluate_intent ◌+ℤ◌
buy_blocked = refl

-- One lot more than is held: a reversal into a short that nothing allows.
oversold :
    (evaluate_intent sell_three portfolio config calm exposure).reasons
    ≡ reversal ∷ shorts_disabled ∷ not_short_enabled ∷ margin_unconfirmed ∷ position_weight
      ∷ short_exposure ∷ []
unfolding evaluate_intent all_reasons order_reasons short_reasons blocked_reasons equity_reasons
    exposure_reasons ◌-ℤ◌ ◌+ℤ◌
oversold = refl

evaluate_intent-IsPermitted_example : IsPermitted buy_one portfolio config calm exposure
evaluate_intent-IsPermitted_example =
    evaluate_intent-IsPermitted buy_one portfolio config calm exposure (omega arith) buy_allowed

exit_allowed_example :
    evaluate_intent sell_two portfolio config blocking exposure
    ≡ record { allowed = true; reasons = []; intent = some sell_two }
exit_allowed_example =
    exit_allowed sell_two portfolio config blocking exposure held_two 2 refl refl refl (omega arith)
      (omega arith) refl (omega arith) (omega arith) (omega arith) (λ h. refl) (omega arith)
