-- ===== src/Harness/Loop.antt =====
-- src/moex_bot/harness.py: the loop of `TradingHarness.run` over the orders of a run. What `submit` of
-- the execution port answers is an argument.
pub mod Valid
pub mod Bounds
mod Tests
use moex_tinvest_bot.Base.{
  ℕ, Bool, true, false, not, ◌&&◌, Option, none, some, List, [], ◌∷◌, ◌++◌, ◌+◌, ◌-◌, ltb, ◌==◌,
  if◌then◌else◌,
}
use moex_tinvest_bot.Base.Int.{ℤ, pos, abs}
use moex_tinvest_bot.Base.Result.{⊤, Result, ok, err}
use moex_tinvest_bot.Base.Exec.{Exec, pure, lift, gets, modify, ◌>>=◌, ◌>>◌, raise_if}
use moex_tinvest_bot.Domain.{
  Text, Nanos, Side, buy, sell, Instrument, Position, OrderIntent, OrderRecord, DomainError,
  check_position,
}
use moex_tinvest_bot.Config.{BotConfig}
use moex_tinvest_bot.Portfolio.{
  Dict, lookup, assign, remove, Target, PortfolioSnapshot, GeoRiskSnapshot, EquityError,
}
use moex_tinvest_bot.Strategy.{StrategyError}
use moex_tinvest_bot.Quality.{QualityError}
use moex_tinvest_bot.Intents.{BuildError}
use moex_tinvest_bot.Risk.{
  Reason, RiskDecision, Exposure, lots_of, after, value_at, short_part, shifted, exposure_of,
  evaluate_intent,
}

pub data HarnessError : Type 0 where
  negative_cash submit_failed : HarnessError
  bad_position : DomainError → HarnessError
  no_orders : BuildError → HarnessError
  no_equity : EquityError → HarnessError
  no_price : Text → HarnessError
  no_targets : StrategyError → HarnessError

-- A refused order, as the run reports it.
pub record Rejected : Type 0 where
  pub intent : OrderIntent
  pub reasons : List Reason

pub data AuditEvent : Type 0 where
  run_started : AuditEvent
  quality_block : List QualityError → AuditEvent
  risk_reject : Rejected → AuditEvent
  order_event : OrderRecord → AuditEvent
  run_finished : List Target → ℕ → ℕ → Bool → AuditEvent

-- `projected_portfolio`, the exposures, and what the loop has collected and written.
pub record HarnessState : Type 0 where
  pub portfolio : PortfolioSnapshot
  pub exposure : Exposure
  pub orders : List OrderRecord
  pub rejected : List Rejected
  pub audit : List AuditEvent

abbrev pub Running : Type 0 → Type 0
Running = Exec HarnessState HarnessError

abbrev as_position_error : Result DomainError ⊤ → Result HarnessError ⊤
as_position_error (ok u) = ok u
as_position_error (err e) = err (bad_position e)

abbrev pub write_event : AuditEvent → Running ⊤
write_event e = modify (λ s. record s { audit = s.audit ++ e ∷ [] })

-- `current or Position(instrument, 0)`
abbrev pub position_or_none : Instrument → Option Position → Position
position_or_none i none = record { instrument = i; lots = pos 0; blocked_lots = 0 }
position_or_none i (some p) = p

-- The position that `replace` makes, which its constructor checks.
abbrev pub next_position : OrderIntent → PortfolioSnapshot → Position
next_position o p =
    let held = lookup o.instrument.secid p.positions in
    record (position_or_none o.instrument held) { lots = after (lots_of held) o.side o.lots }

abbrev checked_position : Position → Result HarnessError ⊤
checked_position p = if abs p.lots == 0 then ok tt else as_position_error (check_position p)

abbrev next_positions : OrderIntent → PortfolioSnapshot → Dict Position
next_positions o p =
    let next = next_position o p in
    if abs next.lots == 0
    then remove o.instrument.secid p.positions
    else assign o.instrument.secid next p.positions

-- The constructor of `PortfolioSnapshot` refuses a negative amount of cash.
abbrev overspends : OrderIntent → PortfolioSnapshot → Bool
overspends o p = elim o.side [ buy ↦ ltb p.cash o.notional | sell ↦ false ]

abbrev next_cash : OrderIntent → Nanos → Nanos
next_cash o cash = elim o.side [ buy ↦ cash - o.notional | sell ↦ cash + o.notional ]

-- `replace(projected_portfolio, ...)`; the source is no broker's any more.
abbrev pub next_portfolio : OrderIntent → PortfolioSnapshot → PortfolioSnapshot
next_portfolio o p = record p {
  cash = next_cash o p.cash;
  positions = next_positions o p;
  daily_turnover = p.daily_turnover + o.notional;
  open_orders = p.open_orders + 1;
  is_broker_snapshot = false;
}

abbrev shift_key : Text → Dict Nanos → Nanos → Nanos → Dict Nanos
shift_key k d new old = assign k (shifted (exposure_of k d) new old) d

-- The exposures after the order at its own price.
abbrev pub next_exposure : OrderIntent → PortfolioSnapshot → Exposure → Exposure
next_exposure o p e =
    let current = lots_of (lookup o.instrument.secid p.positions) in
    let resulting = after current o.side o.lots in
    let old = value_at o current in
    let new = value_at o resulting in
    record e {
      gross = shifted e.gross new old;
      short = shifted e.short (short_part o resulting) (short_part o current);
      by_sector = shift_key o.instrument.sector e.by_sector new old;
      by_cluster = shift_key o.instrument.risk_cluster e.by_cluster new old;
    }

-- The body of the loop after `submit`.
pub project : OrderIntent → Running ⊤
project o = do
  p ← gets (λ s. s.portfolio)
  lift (checked_position (next_position o p))
  raise_if (overspends o p) negative_cash
  modify (λ s. record s {
    portfolio = next_portfolio o s.portfolio;
    exposure = next_exposure o s.portfolio s.exposure;
  })

pub reject : OrderIntent → List Reason → Running ⊤
reject o why = do
  modify (λ s. record s { rejected = s.rejected ++ record { intent = o; reasons = why } ∷ [] })
  write_event (risk_reject (record { intent = o; reasons = why }))

module _ (submit : OrderIntent → Result HarnessError OrderRecord) where
  pub submit_and_project : OrderIntent → Running ⊤
  submit_and_project o = do
    answer ← lift (submit o)
    modify (λ s. record s { orders = s.orders ++ answer ∷ [] })
    project o
    write_event (order_event answer)

  -- `not decision.allowed or decision.intent is None`
  pub by_decision : OrderIntent → RiskDecision → Running ⊤
  by_decision o d = elim d.intent [
    | none ↦ reject o d.reasons
    | some i ↦ if d.allowed then submit_and_project i else reject o d.reasons
  ]

  module _ (c : BotConfig) (geo : GeoRiskSnapshot) where
    pub run_intent : OrderIntent → Running ⊤
    run_intent o = do
      d ← gets (λ s. evaluate_intent o s.portfolio c geo s.exposure)
      by_decision o d

    pub run_intents : List OrderIntent → Running ⊤
    run_intents [] = pure tt
    run_intents (o ∷ os) = do run_intent o; run_intents os
