-- ===== src/Harness/Flow.antt =====
-- src/moex_bot/harness.py: the confirmation of long targets by the order flow. A quotient is kept as its
-- two parts, and a test on it is multiplied out. A time is in microseconds.
pub mod Passing
pub mod Confirmed
use moex_tinvest_bot.Base.{
  ℕ, Bool, true, false, not, ◌&&◌, ◌||◌, Option, none, some, is_some, List, [], ◌∷◌, ◌++◌, ◌+◌, ltb,
  ◌==◌, any, keep, map, errors_of, if◌then◌else◌,
}
use moex_tinvest_bot.Base.Int.{ℤ, pos, sub_ℕ, ◌*ℤ◌, ◌-ℤ◌, ltb_ℤ, leb_ℤ}
use moex_tinvest_bot.Domain.{Text, Nanos}
use moex_tinvest_bot.Config.{StrategyConfig}
use moex_tinvest_bot.Portfolio.{one, Dict, lookup, member, Target}
use moex_tinvest_bot.Intents.{sort_texts}
use moex_tinvest_bot.Quality.{QualityError, missing_long_flow, stale_long_flow}

-- `IntradaySuperCandle` of src/moex_bot/integrations/algopack_intraday.py
pub record IntradaySuperCandle : Type 0 where
  pub secid : Text
  pub observed_at : ℕ
  pub close : Nanos
  pub vwap : Nanos
  pub buy_value : Nanos
  pub sell_value : Nanos
  pub put_buy_value : Nanos
  pub put_sell_value : Nanos
  pub cancel_buy_value : Nanos
  pub cancel_sell_value : Nanos
  pub spread_bbo : Nanos
  pub book_imbalance : ℤ

-- A quotient, which is zero where its denominator is.
pub record Ratio : Type 0 where
  pub numerator : ℤ
  pub denominator : Nanos

pub data FlowReason : Type 0 where
  weak_trades weak_orders weak_book wide_spread : FlowReason

pub record FlowDiagnostic : Type 0 where
  pub secid : Text
  pub observed_at : ℕ
  pub trade_imbalance : Ratio
  pub order_flow : Ratio
  pub book_imbalance : ℤ
  pub spread_bbo : Nanos
  pub passed : Bool
  pub reasons : List FlowReason

-- `ratio < limit`, of a limit in nanos
abbrev pub is_below : Ratio → ℤ → Bool
is_below r limit =
    if r.denominator == 0
    then ltb_ℤ (pos 0) limit
    else ltb_ℤ (r.numerator *ℤ pos one) (limit *ℤ pos r.denominator)

abbrev trade_ratio : IntradaySuperCandle → Ratio
trade_ratio bar = record {
  numerator = sub_ℕ bar.buy_value bar.sell_value;
  denominator = bar.buy_value + bar.sell_value;
}

abbrev order_ratio : IntradaySuperCandle → Ratio
order_ratio bar = record {
  numerator =
      sub_ℕ bar.put_buy_value bar.cancel_buy_value
      -ℤ sub_ℕ bar.put_sell_value bar.cancel_sell_value;
  denominator =
      bar.put_buy_value + bar.put_sell_value + bar.cancel_buy_value + bar.cancel_sell_value;
}

abbrev flow_reasons : StrategyConfig → IntradaySuperCandle → List FlowReason
flow_reasons c bar = errors_of (
    (is_below (trade_ratio bar) c.flow_min_trade_imbalance, weak_trades)
    ∷ (is_below (order_ratio bar) c.flow_min_order_flow, weak_orders)
    ∷ (ltb_ℤ bar.book_imbalance c.flow_min_book_imbalance, weak_book)
    ∷ (ltb c.flow_max_spread_bbo bar.spread_bbo, wide_spread)
    ∷ [])

abbrev pub is_none : List FlowReason → Bool
is_none [] = true
is_none _ = false

-- `_flow_diagnostic`
pub flow_diagnostic : StrategyConfig → IntradaySuperCandle → FlowDiagnostic
flow_diagnostic c bar = record {
  secid = bar.secid;
  observed_at = bar.observed_at;
  trade_imbalance = trade_ratio bar;
  order_flow = order_ratio bar;
  book_imbalance = bar.book_imbalance;
  spread_bbo = bar.spread_bbo;
  passed = is_none (flow_reasons c bar);
  reasons = flow_reasons c bar;
}

-- `{target.secid for target in raw_targets if target.weight > 0}`, sorted; a target's name stands once.
abbrev pub candidates : List Target → List Text
candidates ts = sort_texts (map (λ (t : Target). t.secid) (keep (λ t. ltb_ℤ (pos 0) t.weight) ts))

-- `observed_at > as_of or as_of - observed_at > timedelta(minutes=15)`
abbrev pub is_stale : ℕ → IntradaySuperCandle → Bool
is_stale as_of bar = ltb as_of bar.observed_at || ltb (bar.observed_at + 900_000_000) as_of

abbrev pub has_stale : ℕ → Dict IntradaySuperCandle → Text → Bool
has_stale as_of flow secid = elim (lookup secid flow) [
  | none ↦ false
  | some bar ↦ is_stale as_of bar
]

abbrev pub is_absent : Dict IntradaySuperCandle → Text → Bool
is_absent flow secid = not (is_some (lookup secid flow))

-- The errors for names without a bar, and then for names with an old one.
unfoldable pub flow_errors : ℕ → Dict IntradaySuperCandle → List Text → List QualityError
flow_errors as_of flow names =
    map missing_long_flow (keep (is_absent flow) names)
    ++ map stale_long_flow (keep (has_stale as_of flow) names)

abbrev pub diagnostics : StrategyConfig → Dict IntradaySuperCandle → List Text → List FlowDiagnostic
diagnostics c flow [] = []
diagnostics c flow (secid ∷ secids) = elim (lookup secid flow) [
  | none ↦ diagnostics c flow secids
  | some bar ↦ flow_diagnostic c bar ∷ diagnostics c flow secids
]

abbrev pub has_passed : List FlowDiagnostic → Text → Bool
has_passed ds secid = any (λ (d : FlowDiagnostic). d.passed && d.secid == secid) ds

-- The targets that the flow does not take out.
pub confirmed : List FlowDiagnostic → List Text → List Target → List Target
confirmed ds held_long =
    keep (λ t. leb_ℤ t.weight (pos 0) || member t.secid held_long || has_passed ds t.secid)
