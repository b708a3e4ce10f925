-- ===== src/Harness.antt =====
-- src/moex_bot/harness.py: `TradingHarness.run`, with the default `_select_targets`. The texts of
-- rationales, the UUIDs of requests, Decimal's division and the execution port are arguments.
pub mod Loop
pub mod Flow
pub mod Targets
mod Limited
mod Tests
use moex_tinvest_bot.Base.{
  ℕ, Bool, true, false, not, ◌&&◌, ◌||◌, Option, none, some, List, [], ◌∷◌, ◌++◌, length, map, keep,
  if◌then◌else◌,
}
use moex_tinvest_bot.Base.Int.{ℤ, pos, ltb_ℤ}
use moex_tinvest_bot.Base.Result
use moex_tinvest_bot.Base.Result.{⊤, Result, ok, err}
use moex_tinvest_bot.Base.Exec.{Exec, pure, lift, gets, modify, ◌>>=◌, ◌>>◌}
use moex_tinvest_bot.Domain.{
  Text, Nanos, Moment, aware, naive, Side, OrderIntent, OrderRecord, Position,
}
use moex_tinvest_bot.Config.{BotConfig}
use moex_tinvest_bot.Portfolio.{
  Dict, MarketObservation, PortfolioSnapshot, GeoRiskSnapshot, Target, EquityError, equity,
}
use moex_tinvest_bot.Geo.{GeoEvent, assess_geo_risk}
use moex_tinvest_bot.Quality.{QualityReport, QualityError, validate_market, time_of}
use moex_tinvest_bot.Strategy.{StrategyError, calculate_targets}
use moex_tinvest_bot.Intents.{BuildError, build_order_intents}
use moex_tinvest_bot.Risk.{Exposure}
use moex_tinvest_bot.Harness.Loop.{
  HarnessError, no_targets, no_orders, no_equity, Rejected, AuditEvent, run_started, quality_block,
  run_finished, HarnessState, Running, write_event, run_intents,
}
use moex_tinvest_bot.Harness.Flow.{
  IntradaySuperCandle, FlowDiagnostic, candidates, flow_errors, diagnostics, confirmed,
}
use moex_tinvest_bot.Harness.Targets.{
  limited_targets, SignalDiagnostic, signal_diagnostics, exposure_in, exposure_by,
}

-- What a run is given.
pub record RunInput : Type 0 where
  pub as_of : Moment
  pub market : Dict MarketObservation
  pub portfolio : PortfolioSnapshot
  pub geo_events : List GeoEvent
  pub news_stale : Bool
  pub allow_rebalance : Bool
  pub flow : Dict IntradaySuperCandle

pub record HarnessResult : Type 0 where
  pub quality : QualityReport
  pub geo : GeoRiskSnapshot
  pub targets : List Target
  pub orders : List OrderRecord
  pub rejected : List Rejected
  pub portfolio : PortfolioSnapshot
  pub rebalance_allowed : Bool
  pub rebalance_hours_moscow : List ℕ
  pub signal_diagnostics : List SignalDiagnostic
  pub flow_diagnostics : List FlowDiagnostic

-- The parts of the program outside the model.
pub record Outside : Type 0 where
  pub quotient : Nanos → Nanos → Nanos
  pub explain_target : Bool → MarketObservation → Text
  pub explain_multiplier : Text → Nanos → Text
  pub request_id : Text → Side → ℕ → Text
  pub submit : OrderIntent → Result HarnessError OrderRecord

abbrev as_target_error : Result StrategyError (List Target) → Result HarnessError (List Target)
as_target_error (ok ts) = ok ts
as_target_error (err e) = err (no_targets e)

abbrev as_order_error :
    Result BuildError (List OrderIntent) → Result HarnessError (List OrderIntent)
as_order_error (ok os) = ok os
as_order_error (err e) = err (no_orders e)

abbrev as_equity_error : Result EquityError ℤ → Result HarnessError ℤ
as_equity_error (ok total) = ok total
as_equity_error (err e) = err (no_equity e)

abbrev pub held_where : (ℤ → Bool) → PortfolioSnapshot → List Text
held_where p portfolio =
    map (λ (e : Text × Position). e.0)
      (keep (λ (e : Text × Position). p e.1.lots) portfolio.positions)

abbrev observations : Dict MarketObservation → List MarketObservation
observations market = map (λ (e : Text × MarketObservation). e.1) market

module _ (outside : Outside) (c : BotConfig) (input : RunInput) where
  -- A report without targets and orders.
  abbrev pub blocked_run : QualityReport → GeoRiskSnapshot → HarnessResult
  blocked_run quality geo = record {
    quality = quality;
    geo = geo;
    targets = [];
    orders = [];
    rejected = [];
    portfolio = input.portfolio;
    rebalance_allowed = input.allow_rebalance;
    rebalance_hours_moscow = c.strategy.rebalance_hours_moscow;
    signal_diagnostics = [];
    flow_diagnostics = [];
  }

  abbrev pub select_targets : Result HarnessError (List Target)
  select_targets = as_target_error (
      calculate_targets outside.quotient outside.explain_target c.strategy
        (held_where (λ lots. ltb_ℤ (pos 0) lots) input.portfolio)
        (held_where (λ lots. ltb_ℤ lots (pos 0)) input.portfolio) (observations input.market))

  abbrev built_intents : List Target → Result HarnessError (List OrderIntent)
  built_intents targets =
      if input.allow_rebalance
      then as_order_error (
          build_order_intents outside.request_id targets input.portfolio input.market
            c.min_trade_notional (some c.max_order_notional))
      else ok []

  -- The exposures before the first order.
  pub start_exposure : Result HarnessError Exposure
  start_exposure = Result.◌>>=◌ (as_equity_error (equity input.portfolio input.market)) λ total.
      Result.◌>>=◌ (exposure_in input.market false input.portfolio.positions) λ gross.
        Result.◌>>=◌ (exposure_in input.market true input.portfolio.positions) λ short.
          Result.◌>>=◌
            (exposure_by input.market (λ p. p.instrument.sector) [] input.portfolio.positions)
            λ by_sector.
              Result.◌>>=◌
                (exposure_by input.market (λ p. p.instrument.risk_cluster) []
                  input.portfolio.positions)
                λ by_cluster. ok (record {
                  equity = total;
                  gross = gross;
                  by_sector = by_sector;
                  by_cluster = by_cluster;
                  short = short;
                })

  -- From the targets that the flow has left on.
  pub run_targets :
      QualityReport → GeoRiskSnapshot → List FlowDiagnostic → List Target → Running HarnessResult
  run_targets quality geo flows raw = do
    let targets = limited_targets outside.explain_multiplier c geo raw
    intents ← lift (built_intents targets)
    exposure ← lift start_exposure
    modify (λ s. record s { exposure = exposure })
    run_intents outside.submit c geo intents
    s ← gets (λ s. s)
    write_event (run_finished targets (length s.orders) (length s.rejected) input.allow_rebalance)
    pure (record {
      quality = quality;
      geo = geo;
      targets = targets;
      orders = s.orders;
      rejected = s.rejected;
      portfolio = input.portfolio;
      rebalance_allowed = input.allow_rebalance;
      rebalance_hours_moscow = c.strategy.rebalance_hours_moscow;
      signal_diagnostics = signal_diagnostics c geo (observations input.market);
      flow_diagnostics = flows;
    })

  -- By the errors of the flow: `if missing or stale`.
  pub by_flow :
      QualityReport → GeoRiskSnapshot → List Target → List QualityError → Running HarnessResult
  by_flow quality geo raw [] =
      let flows = diagnostics c.strategy input.flow (candidates raw) in
      run_targets quality geo flows
        (confirmed flows (held_where (λ lots. ltb_ℤ (pos 0) lots) input.portfolio) raw)
  by_flow quality geo raw (e ∷ es) = do
    write_event (quality_block (quality.errors ++ e ∷ es))
    pure (blocked_run (record { passed = false; errors = quality.errors ++ e ∷ es }) geo)

  -- By the report on the market.
  pub by_quality : QualityReport → GeoRiskSnapshot → Running HarnessResult
  by_quality quality geo =
      if not quality.passed
      then write_event (quality_block quality.errors) >> pure (blocked_run quality geo)
      else lift select_targets >>= λ raw.
          if c.strategy.flow_confirmation_enabled && input.allow_rebalance
          then by_flow quality geo raw
              (flow_errors (time_of input.as_of) input.flow (candidates raw))
          else run_targets quality geo [] raw

  -- `TradingHarness.run`; the state that it starts from holds the source's `projected_portfolio =
  -- portfolio` and empty lists.
  pub run : Running HarnessResult
  run = do
    write_event run_started
    by_quality (validate_market input.market input.as_of c.max_data_age_seconds)
        (assess_geo_risk input.geo_events input.news_stale)
