-- ===== src/Harness/Tests.antt =====
-- A run over one observed share, and the theorems there.
use moex_tinvest_bot.Base.{arith, ◌+◌, ◌/◌, ◌≡◌, ◌⊎◌, refl, [], ◌∷◌, false, true}
use moex_tinvest_bot.Base.Int.{pos}
use moex_tinvest_bot.Base.Result.{ok}
use moex_tinvest_bot.Domain.{aware}
use moex_tinvest_bot.Harness.Loop.{HarnessState}
use moex_tinvest_bot.Harness.Limited.{HasTraded, run-Ends}
use moex_tinvest_bot.Harness.{Outside, RunInput, run}
use moex_tinvest_bot.Portfolio.{Dict, Target}
use moex_tinvest_bot.Harness.Flow.{
  IntradaySuperCandle, candidates, flow_errors, diagnostics, confirmed,
}
use moex_tinvest_bot.Harness.Flow.Confirmed.{IsKeyed, confirmed_lem}
use moex_tinvest_bot.Harness.Flow.Passing.{IsFilter, IsWanted}
use moex_tinvest_bot.Samples.{seen, portfolio, exposure, config, planned_one}

abbrev outside : Outside
outside = record {
  quotient = λ a b. a / b;
  explain_target = λ is_long o. o.instrument.secid;
  explain_multiplier = λ t m. t;
  request_id = λ secid side lots. secid + lots;
  submit = λ o. ok (record planned_one { intent = o });
}

abbrev input : RunInput
input = record {
  as_of = aware 2000;
  market = (10, seen) ∷ [];
  portfolio = portfolio;
  geo_events = [];
  news_stale = false;
  allow_rebalance = true;
  flow = [];
}

abbrev start : HarnessState
start = record {
  portfolio = portfolio;
  exposure = exposure;
  orders = [];
  rejected = [];
  audit = [];
}

run-Ends_example :
    (((run outside config input start).1.orders ≡ [])
      × ((run outside config input start).1.portfolio ≡ portfolio))
    ⊎ HasTraded outside config input portfolio (run outside config input start).1
run-Ends_example = run-Ends outside config input start

-- A bar with more purchases than sales and a narrow spread.
abbrev bar : IntradaySuperCandle
bar = record {
  secid = 10;
  observed_at = 1500;
  close = 250_000_000_000;
  vwap = 250_000_000_000;
  buy_value = 600;
  sell_value = 400;
  put_buy_value = 50;
  put_sell_value = 40;
  cancel_buy_value = 10;
  cancel_sell_value = 10;
  spread_bbo = 1_000_000_000;
  book_imbalance = pos 0;
}

abbrev bars : Dict IntradaySuperCandle
bars = (10, bar) ∷ []

bars-IsKeyed : IsKeyed bars
bars-IsKeyed k b h = ground (arith, h)

abbrev wanted : Target
wanted = record { secid = 10; weight = pos 100_000_000; rationale = 1 }

no_flow_errors : flow_errors 2000 bars (candidates (wanted ∷ [])) ≡ []
unfolding flow_errors
no_flow_errors = refl

confirmed_lem_example :
    IsFilter
      (IsWanted config.strategy 2000 bars [])
      (wanted ∷ [])
      (confirmed (diagnostics config.strategy bars (candidates (wanted ∷ []))) [] (wanted ∷ []))
confirmed_lem_example =
    confirmed_lem config.strategy bars 2000 [] (wanted ∷ []) bars-IsKeyed no_flow_errors
