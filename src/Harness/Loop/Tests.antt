-- ===== src/Harness/Loop/Tests.antt =====
-- The loop over a purchase and over a sale of more than is held, and the theorems there.
use moex_tinvest_bot.Base.{◌≡◌, ◌+◌, refl, arith, [], ◌∷◌, length, all, true}
use moex_tinvest_bot.Base.Result.{Result, ok}
use moex_tinvest_bot.Domain.{OrderIntent, OrderRecord, sell}
use moex_tinvest_bot.Harness.Loop.{HarnessError, HarnessState, run_intents}
use moex_tinvest_bot.Harness.Loop.Valid.{fits, run_intents-completes}
use moex_tinvest_bot.Harness.Loop.Bounds.{Bounded, run_intents-IsBounded}
use moex_tinvest_bot.Samples.{buy_one, planned_one, portfolio, exposure, config, calm}

-- A port that validates every order.
abbrev dry_run : OrderIntent → Result HarnessError OrderRecord
dry_run o = ok (record planned_one { intent = o })

abbrev start : HarnessState
start = record {
  portfolio = portfolio;
  exposure = exposure;
  orders = [];
  rejected = [];
  audit = [];
}

abbrev sell_three : OrderIntent
sell_three = record buy_one { side = sell; lots = 3; notional = 7_500_000_000_000 }

run_intents-completes_example :
    (t : HarnessState) × (run_intents dry_run config calm (sell_three ∷ buy_one ∷ []) start
      ≡ (ok tt, t))
    × (all fits t.portfolio.positions ≡ true)
    × (length t.orders + length t.rejected ≡ 2)
run_intents-completes_example =
    run_intents-completes config calm dry_run (λ o. (record planned_one { intent = o }, refl))
      (sell_three ∷ buy_one ∷ []) start (omega arith, (omega arith, tt)) refl

run_intents-IsBounded_example :
    Bounded config start (run_intents dry_run config calm (sell_three ∷ buy_one ∷ []) start).1
run_intents-IsBounded_example =
    run_intents-IsBounded config calm dry_run (sell_three ∷ buy_one ∷ []) start
      (omega arith, (omega arith, tt))
