-- ===== src/Risk.antt =====
-- src/moex_bot/risk.py: the pre-trade gate `evaluate_intent`. Decimal arithmetic is exact here: a
-- quotient `x / equity` is compared with a limit by multiplying out, so the rounding of Decimal to
-- 28 digits is not modelled.
pub mod Limits
pub mod Exit
pub mod Form
mod Tests
use moex_tinvest_bot.Base.{
  ℕ, Bool, true, false, not, ◌&&◌, ◌||◌, Option, none, some, List, [], ◌∷◌, ◌++◌, ◌+◌, ◌-◌, ◌*◌,
  ltb, leb, ◌==◌, is_some, if◌then◌else◌,
}
use moex_tinvest_bot.Base.Int.{ℤ, pos, negsuc, pos_part, neg_part, abs, ◌+ℤ◌, ◌-ℤ◌, ltb_ℤ, leb_ℤ}
use moex_tinvest_bot.Domain.{
  Text, Nanos, Side, buy, sell, side_eq, OrderIntent, Position, GeoRiskLevel, critical,
}
use moex_tinvest_bot.Config.{BotConfig}
use moex_tinvest_bot.Portfolio.{one, Dict, lookup, member, PortfolioSnapshot, GeoRiskSnapshot}

pub data Reason : Type 0 where
  geo_blocked order_notional daily_turnover open_orders unreconciled_orders reversal : Reason
  shorts_disabled not_short_enabled margin_unconfirmed margin_forbidden : Reason
  exceeds_unblocked_long exceeds_unblocked_short insufficient_cash non_positive_equity : Reason
  critical_exposure position_weight gross_exposure short_exposure sector_exposure : Reason
  cluster_exposure : Reason

pub record RiskDecision : Type 0 where
  pub allowed : Bool
  pub reasons : List Reason
  pub intent : Option OrderIntent

-- `if test: reasons.append(reason)`
abbrev pub note : Bool → Reason → List Reason
note true r = r ∷ []
note false r = []

-- `a * b < 0`
abbrev pub is_opposite : ℤ → ℤ → Bool
is_opposite a b = (ltb_ℤ a (pos 0) && ltb_ℤ (pos 0) b) || (ltb_ℤ (pos 0) a && ltb_ℤ b (pos 0))

abbrev pub lots_of : Option Position → ℤ
lots_of none = pos 0
lots_of (some p) = p.lots

abbrev pub blocked_of : Option Position → ℕ
blocked_of none = 0
blocked_of (some p) = p.blocked_lots

-- The position after the whole order.
abbrev pub after : ℤ → Side → ℕ → ℤ
after current buy lots = current +ℤ pos lots
after current sell lots = current -ℤ pos lots

-- `current != 0 and abs(resulting) < abs(current) and current * resulting >= 0`
abbrev pub is_reducing : ℤ → ℤ → Bool
is_reducing current resulting =
    not (abs current == 0)
    && ltb (abs resulting) (abs current)
    && not (is_opposite current resulting)

abbrev pub min_zero : ℤ → ℤ
min_zero a = if ltb_ℤ a (pos 0) then a else pos 0

-- `resulting < min(current, 0)`
abbrev pub opens_short : ℤ → ℤ → Bool
opens_short current resulting = ltb_ℤ resulting (min_zero current)

-- `max(0, exposure + new - old)`
abbrev pub shifted : ℕ → ℕ → ℕ → ℕ
shifted exposure new old = exposure + new - old

-- `value / equity > limit`, of a positive equity
abbrev pub exceeds : Nanos → ℕ → Nanos → Bool
exceeds value equity limit = ltb (limit * equity) (value * one)

abbrev is_critical : GeoRiskLevel → Bool
is_critical critical = true
is_critical _ = false

-- The notional at the order's price of a number of lots.
abbrev pub value_at : OrderIntent → ℤ → Nanos
value_at o lots = abs lots * o.instrument.lot_size * o.limit_price

abbrev pub short_part : OrderIntent → ℤ → Nanos
short_part o lots = if ltb_ℤ lots (pos 0) then value_at o lots else 0

-- The exposures that the harness tracks over a run.
pub record Exposure : Type 0 where
  pub equity : ℤ
  pub gross : Nanos
  pub by_sector : Dict Nanos
  pub by_cluster : Dict Nanos
  pub short : Nanos

abbrev pub exposure_of : Text → Dict Nanos → Nanos
exposure_of k d = elim (lookup k d) [ none ↦ 0 | some v ↦ v ]

order_reasons : OrderIntent → PortfolioSnapshot → BotConfig → List Reason
order_reasons o p c =
    note (ltb c.max_order_notional o.notional) order_notional
    ++ (note (ltb c.max_daily_turnover (p.daily_turnover + o.notional)) daily_turnover
        ++ (note (leb c.max_open_orders p.open_orders) open_orders
            ++ note (p.is_broker_snapshot && ltb 0 p.open_orders) unreconciled_orders))

short_reasons : OrderIntent → BotConfig → ℤ → ℤ → List Reason
short_reasons o c current resulting =
    if opens_short current resulting
    then note (not c.strategy.shorts_enabled || not c.allow_margin) shorts_disabled
      ++ (note (not o.instrument.short_enabled) not_short_enabled
          ++ note (not o.confirm_margin_trade) margin_unconfirmed)
    else note o.confirm_margin_trade margin_forbidden

-- `blocked` is 0 also where there is no position.
blocked_reasons : OrderIntent → ℤ → ℕ → List Reason
blocked_reasons o current blocked =
    note
      (side_eq o.side sell
        && ltb_ℤ (pos 0) current
        && not (blocked == 0)
        && ltb (pos_part current - blocked) o.lots)
      exceeds_unblocked_long
    ++ note
        (side_eq o.side buy
          && ltb_ℤ current (pos 0)
          && not (blocked == 0)
          && ltb (abs current - blocked) o.lots)
        exceeds_unblocked_short

-- A BUY needs its notional in the cash that the mandatory reserve leaves.
abbrev pub lacks_cash : OrderIntent → PortfolioSnapshot → BotConfig → ℤ → Bool
lacks_cash o p c equity =
    side_eq o.side buy
    && ltb (p.cash * one - pos_part equity * c.min_cash_reserve_weight) (o.notional * one)

exposure_reasons : OrderIntent → BotConfig → GeoRiskSnapshot → Exposure → ℤ → ℤ → List Reason
exposure_reasons o c geo e current resulting =
    let equity = pos_part e.equity in
    let old = value_at o current in
    let new = value_at o resulting in
    let reducing = is_reducing current resulting in
    let limit =
      if ltb_ℤ resulting (pos 0) then c.max_short_position_weight else c.max_position_weight in
    note (is_critical geo.level && ltb old new) critical_exposure
    ++ (note (not reducing && exceeds new equity limit) position_weight
        ++ (note (not reducing && exceeds (shifted e.gross new old) equity c.max_gross_exposure)
              gross_exposure
            ++ (note
                  (not reducing
                    && exceeds (shifted e.short (short_part o resulting) (short_part o current))
                        equity c.max_short_gross_exposure)
                  short_exposure
                ++ (note
                      (not reducing
                        && exceeds (shifted (exposure_of o.instrument.sector e.by_sector) new old)
                            equity c.max_sector_weight)
                      sector_exposure
                    ++ note
                        (not reducing
                          && exceeds
                              (shifted (exposure_of o.instrument.risk_cluster e.by_cluster) new old)
                              equity c.max_risk_cluster_weight)
                        cluster_exposure))))

equity_reasons : OrderIntent → BotConfig → GeoRiskSnapshot → Exposure → ℤ → ℤ → List Reason
equity_reasons o c geo e current resulting =
    if leb_ℤ e.equity (pos 0)
    then non_positive_equity ∷ []
    else exposure_reasons o c geo e current resulting

-- The reasons beside the geopolitical block, in the order in which they are appended.
all_reasons :
    OrderIntent
    → PortfolioSnapshot
    → BotConfig
    → GeoRiskSnapshot
    → Exposure
    → ℤ
    → ℤ
    → ℕ
    → List Reason
all_reasons o p c geo e current resulting blocked =
    order_reasons o p c
    ++ (note (is_opposite current resulting) reversal
        ++ (short_reasons o c current resulting
            ++ (blocked_reasons o current blocked
                ++ (note (lacks_cash o p c e.equity) insufficient_cash
                    ++ equity_reasons o c geo e current resulting))))

abbrev decide_by : OrderIntent → List Reason → RiskDecision
decide_by o [] = record { allowed = true; reasons = []; intent = some o }
decide_by o (r ∷ rs) = record { allowed = false; reasons = r ∷ rs; intent = none }

-- `evaluate_intent`, with `apply_geo_multiplier`
pub evaluate_intent :
    OrderIntent → PortfolioSnapshot → BotConfig → GeoRiskSnapshot → Exposure → RiskDecision
evaluate_intent o p c geo e =
    let held = lookup o.instrument.secid p.positions in
    let current = lots_of held in
    let resulting = after current o.side o.lots in
    if not (is_reducing current resulting) && member o.instrument.secid geo.blocked_secids
    then decide_by o (geo_blocked ∷ [])
    else decide_by o (all_reasons o p c geo e current resulting (blocked_of held))
