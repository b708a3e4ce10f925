-- ===== src/Config.antt =====
-- src/moex_bot/config.py: `StrategyConfig`, `BotConfig` and `BotConfig.validate`. A weight is a number
-- of nanos, 10^9 being one. The tests on finiteness hold of every amount of this model.
mod Windows
pub mod Valid
mod Tests
use moex_tinvest_bot.Base.{
  ℕ, Bool, true, false, not, ◌&&◌, ◌||◌, List, [], ◌∷◌, ◌++◌, ltb, leb, ◌==◌, any, length,
  if◌then◌else◌, errors_of,
}
use moex_tinvest_bot.Base.Int.{ℤ, pos, negsuc, leb_ℤ, ltb_ℤ}
use moex_tinvest_bot.Domain.{Text, Nanos}

-- `ExecutionMode` of src/moex_bot/domain.py
pub data ExecutionMode : Type 0 where
  replay_mode backtest_mode sandbox_mode shadow_mode live_mode : ExecutionMode

pub record StrategyConfig : Type 0 where
  pub top_n : ℕ
  pub min_momentum : ℤ
  pub require_above_trend : Bool
  pub candle_period : Text
  pub momentum_windows : List ℕ
  pub trend_window : ℕ
  pub volatility_window : ℕ
  pub volatility_floor : Nanos
  pub inverse_volatility_weights : Bool
  pub exit_rank_buffer : ℕ
  pub rebalance_hours_moscow : List ℕ
  pub shorts_enabled : Bool
  pub short_top_n : ℕ
  pub max_short_momentum : ℤ
  pub require_below_trend_for_short : Bool
  pub long_target_gross : Nanos
  pub short_target_gross : Nanos
  pub flow_confirmation_enabled : Bool
  pub flow_min_trade_imbalance : ℤ
  pub flow_min_order_flow : ℤ
  pub flow_min_book_imbalance : ℤ
  pub flow_max_spread_bbo : Nanos

pub record BotConfig : Type 0 where
  pub mode : ExecutionMode
  pub base_currency : Text
  pub max_data_age_seconds : ℕ
  pub max_position_weight : Nanos
  pub max_order_notional : Nanos
  pub max_gross_exposure : Nanos
  pub max_daily_turnover : Nanos
  pub min_trade_notional : Nanos
  pub max_open_orders : ℕ
  pub allow_margin : Bool
  pub live_interlock : Bool
  pub strategy : StrategyConfig
  pub min_cash_reserve_weight : Nanos
  pub max_sector_weight : Nanos
  pub max_risk_cluster_weight : Nanos
  pub max_short_position_weight : Nanos
  pub max_short_gross_exposure : Nanos

pub data ConfigError : Type 0 where
  bad_currency bad_data_age bad_position_weight bad_gross_exposure bad_cash_reserve : ConfigError
  bad_sector_weight bad_cluster_weight bad_order_notional bad_turnover bad_trade_notional :
      ConfigError
  trade_above_order order_above_turnover bad_open_orders shorts_need_margin : ConfigError
  margin_without_shorts live_not_authorized interlock_set bad_top_n bad_min_momentum : ConfigError
  bad_candle_period bad_momentum_windows unsorted_windows bad_windows bad_volatility_floor :
      ConfigError
  bad_rebalance_hours duplicate_hours bad_short_top_n bad_short_momentum : ConfigError
  bad_short_weight bad_short_exposure shorts_disabled bad_long_gross bad_short_gross : ConfigError
  no_short_gross bad_trade_imbalance bad_order_flow bad_book_imbalance bad_spread : ConfigError

-- The codes of the texts "1h" and "1D"; "RUB" is 1.
abbrev pub one_hour : Text
one_hour = 4

abbrev pub one_day : Text
one_day = 5

abbrev is_live : ExecutionMode → Bool
is_live live_mode = true
is_live _ = false

-- Outside (0, 1]
abbrev pub not_share : Nanos → Bool
not_share w = w == 0 || ltb 1_000_000_000 w

-- Outside [-1, 1]
abbrev pub not_signed_share : ℤ → Bool
not_signed_share w = ltb_ℤ w (negsuc 999_999_999) || ltb_ℤ (pos 1_000_000_000) w

-- `tuple(sorted(set(xs))) == xs`: each element exceeds the one before it.
abbrev pub is_increasing : List ℕ → Bool
is_increasing [] = true
is_increasing (x ∷ []) = true
is_increasing (x ∷ y ∷ xs) = ltb x y && is_increasing (y ∷ xs)

-- `len(set(xs)) != len(xs)`
abbrev pub has_duplicate : List ℕ → Bool
has_duplicate [] = false
has_duplicate (x ∷ xs) = any (λ y. y == x) xs || has_duplicate xs

abbrev is_none : List ℕ → Bool
is_none [] = true
is_none (x ∷ xs) = false

abbrev limit_tests : BotConfig → List (Bool × ConfigError)
limit_tests c =
    (not (c.base_currency == 1), bad_currency)
    ∷ (c.max_data_age_seconds == 0, bad_data_age)
    ∷ (not_share c.max_position_weight, bad_position_weight)
    ∷ (not_share c.max_gross_exposure, bad_gross_exposure)
    ∷ (ltb 1_000_000_000 c.min_cash_reserve_weight, bad_cash_reserve)
    ∷ (not_share c.max_sector_weight, bad_sector_weight)
    ∷ (not_share c.max_risk_cluster_weight, bad_cluster_weight)
    ∷ (c.max_order_notional == 0, bad_order_notional)
    ∷ (c.max_daily_turnover == 0, bad_turnover)
    ∷ (c.min_trade_notional == 0, bad_trade_notional)
    ∷ (ltb c.max_order_notional c.min_trade_notional, trade_above_order)
    ∷ (ltb c.max_daily_turnover c.max_order_notional, order_above_turnover)
    ∷ (c.max_open_orders == 0, bad_open_orders)
    ∷ (c.strategy.shorts_enabled && not c.allow_margin, shorts_need_margin)
    ∷ (c.allow_margin && not c.strategy.shorts_enabled, margin_without_shorts)
    ∷ (is_live c.mode, live_not_authorized)
    ∷ (c.live_interlock, interlock_set)
    ∷ []

limit_errors : BotConfig → List ConfigError
limit_errors c = errors_of (limit_tests c)

signal_errors : StrategyConfig → List ConfigError
signal_errors s = errors_of (
    (s.top_n == 0, bad_top_n)
    ∷ (leb_ℤ s.min_momentum (negsuc 999_999_999), bad_min_momentum)
    ∷ (not (s.candle_period == one_hour || s.candle_period == one_day), bad_candle_period)
    ∷ (is_none s.momentum_windows || any (λ w. w == 0) s.momentum_windows, bad_momentum_windows)
    ∷ (not (is_increasing s.momentum_windows), unsorted_windows)
    ∷ (ltb s.trend_window 2 || ltb s.volatility_window 2, bad_windows)
    ∷ (s.volatility_floor == 0, bad_volatility_floor)
    ∷ (
      is_none s.rebalance_hours_moscow || any (λ h. ltb 23 h) s.rebalance_hours_moscow,
      bad_rebalance_hours,
    )
    ∷ (has_duplicate s.rebalance_hours_moscow, duplicate_hours)
    ∷ [])

short_errors : BotConfig → List ConfigError
short_errors c =
    if c.strategy.shorts_enabled
    then errors_of (
        (c.strategy.short_top_n == 0, bad_short_top_n)
        ∷ (leb_ℤ (pos 0) c.strategy.max_short_momentum, bad_short_momentum)
        ∷ (not_share c.max_short_position_weight, bad_short_weight)
        ∷ (not_share c.max_short_gross_exposure, bad_short_exposure)
        ∷ [])
    else errors_of (
        (
          not (c.strategy.short_top_n == 0) || not (c.strategy.short_target_gross == 0),
          shorts_disabled,
        )
        ∷ [])

abbrev target_tests : StrategyConfig → List (Bool × ConfigError)
target_tests s =
    (ltb 1_000_000_000 s.long_target_gross, bad_long_gross)
    ∷ (ltb 1_000_000_000 s.short_target_gross, bad_short_gross)
    ∷ (s.shorts_enabled && s.short_target_gross == 0, no_short_gross)
    ∷ (not_signed_share s.flow_min_trade_imbalance, bad_trade_imbalance)
    ∷ (not_signed_share s.flow_min_order_flow, bad_order_flow)
    ∷ (not_signed_share s.flow_min_book_imbalance, bad_book_imbalance)
    ∷ (s.flow_max_spread_bbo == 0 || ltb 100_000_000_000 s.flow_max_spread_bbo, bad_spread)
    ∷ []

target_errors : StrategyConfig → List ConfigError
target_errors s = errors_of (target_tests s)

-- `BotConfig.validate`; an `exit_rank_buffer` below zero does not occur here.
pub validate : BotConfig → List ConfigError
validate c =
    limit_errors c ++ (signal_errors c.strategy ++ (short_errors c ++ target_errors c.strategy))
