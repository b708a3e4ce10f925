-- ===== src/Intents/Tests.antt =====
-- A run of the construction of orders, and the theorems at it.
use moex_tinvest_bot.Base.{ℕ, ◌≡◌, ◌∷◌, ◌+◌, ◌*◌, refl, none, some, [], true, false, any}
use moex_tinvest_bot.Base.Int.{pos, ◌+ℤ◌, ◌-ℤ◌}
use moex_tinvest_bot.Base.Result.{ok}
use moex_tinvest_bot.Domain.{Text, Side, OrderIntent, limit, buy, critical, round_price}
use moex_tinvest_bot.Portfolio.{PortfolioSnapshot, Target, GeoRiskSnapshot, equity}
use moex_tinvest_bot.Risk.{Exposure, evaluate_intent}
use moex_tinvest_bot.Risk.Form.{is_malformed}
use moex_tinvest_bot.Intents.{
  intent_for, target_lots, sized_intent, build_order_intents, intents_of, intent_of_name,
}
use moex_tinvest_bot.Intents.Shape.{IsShaped, intent_for-IsShaped}
use moex_tinvest_bot.Intents.Gate.{built_intent_well}
use moex_tinvest_bot.Samples.{config, seen, share_item}

-- In place of the version 5 UUID.
abbrev request_id : Text → Side → ℕ → Text
request_id secid side lots = secid * 100 + lots

-- A fifth of the equity.
abbrev goal : Target
goal = record { secid = 10; weight = pos 200_000_000; rationale = 20 }

abbrev portfolio : PortfolioSnapshot
portfolio = record {
  cash = 50_000_000_000_000;
  positions = [];
  daily_turnover = 0;
  open_orders = 0;
  blocked_cash = 0;
  reported_equity = none;
  is_broker_snapshot = true;
}

abbrev blocking : GeoRiskSnapshot
blocking = record { level = critical; multiplier = 0; blocked_secids = 10 ∷ []; reasons = [] }

abbrev exposure : Exposure
exposure = record {
  equity = pos 50_000_000_000_000;
  gross = 0;
  by_sector = [];
  by_cluster = [];
  short = 0;
}

-- The target is three lots, which the cap allows.
abbrev built : OrderIntent
built = record {
  order_request_id = 1003;
  instrument = share_item;
  side = buy;
  lots = 3;
  limit_price = 250_000_000_000;
  notional = 7_500_000_000_000;
  rationale = 20;
  confirm_margin_trade = false;
  order_type = limit;
}

builds :
    intent_for request_id
      (pos 50_000_000_000_000)
      (some goal)
      (pos 0)
      seen
      1_000_000_000_000
      (some 25_000_000_000_000)
    ≡ ok (some built)
unfolding intent_for target_lots sized_intent round_price ◌-ℤ◌ ◌+ℤ◌
builds = refl

builds_all :
    build_order_intents request_id
      (goal ∷ [])
      portfolio
      ((10, seen) ∷ [])
      1_000_000_000_000
      (some 25_000_000_000_000)
    ≡ ok (built ∷ [])
unfolding build_order_intents intents_of intent_of_name intent_for target_lots sized_intent
    round_price equity ◌-ℤ◌ ◌+ℤ◌
builds_all = refl

intent_for-IsShaped_example :
    IsShaped
      (pos 50_000_000_000_000)
      (some goal)
      (pos 0)
      seen
      1_000_000_000_000
      (some 25_000_000_000_000)
      built
intent_for-IsShaped_example =
    intent_for-IsShaped request_id (pos 50_000_000_000_000) (some goal) (pos 0) seen
      1_000_000_000_000 (some 25_000_000_000_000) built builds

built_intent_well_example :
    any is_malformed (evaluate_intent built portfolio config blocking exposure).reasons ≡ false
built_intent_well_example =
    built_intent_well request_id (pos 50_000_000_000_000) (some goal) portfolio seen
      1_000_000_000_000 config blocking exposure built builds
