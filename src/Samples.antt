-- ===== src/Samples.antt =====
-- Data for the tests of several modules: one share, one order for it, and its record.
use moex_tinvest_bot.Base.Int.{pos, negsuc}
use moex_tinvest_bot.Live.{ProdLongPolicy, LiveState, open_status, full_access}
use moex_tinvest_bot.Portfolio.{MarketObservation, PortfolioSnapshot, GeoRiskSnapshot}
use moex_tinvest_bot.Risk.{Exposure}
use moex_tinvest_bot.Config.{StrategyConfig, BotConfig, shadow_mode}
use moex_tinvest_bot.Base.{true, [], ◌∷◌, ℕ, false, none, some}
use moex_tinvest_bot.Domain.{
  aware, normal, Position, Instrument, OrderIntent, OrderRecord, buy, limit, planned, filled,
}

-- 100,000 nanos are 0.0001 RUB.
abbrev pub share_item : Instrument
share_item = record {
  secid = 10;
  uid = 11;
  board = 12;
  lot_size = 10;
  tick_size = 10_000_000;
  currency = 1;
  issuer_id = 13;
  sector = 14;
  risk_cluster = 15;
  asset_class = 2;
  short_enabled = false;
}

-- One lot of ten shares at 250 RUB.
abbrev pub buy_one : OrderIntent
buy_one = record {
  order_request_id = 70;
  instrument = share_item;
  side = buy;
  lots = 1;
  limit_price = 250_000_000_000;
  notional = 2_500_000_000_000;
  rationale = 20;
  confirm_margin_trade = false;
  order_type = limit;
}

abbrev pub planned_one : OrderRecord
planned_one = record {
  intent = buy_one;
  status = planned;
  filled_lots = 0;
  broker_order_id = none;
  status_detail = none;
}

-- The broker's answer to the order under the id that was reserved for it.
abbrev pub filled_as : ℕ → OrderRecord
filled_as id = record {
  intent = record buy_one { order_request_id = id };
  status = filled;
  filled_lots = 1;
  broker_order_id = some 90;
  status_detail = none;
}

-- Long positions only. Weights are in nanos: 250,000,000 is 0.25.
abbrev pub strategy : StrategyConfig
strategy = record {
  top_n = 3;
  min_momentum = pos 10_000_000;
  require_above_trend = true;
  candle_period = 4;
  momentum_windows = 5 ∷ 20 ∷ [];
  trend_window = 20;
  volatility_window = 20;
  volatility_floor = 5_000_000;
  inverse_volatility_weights = false;
  exit_rank_buffer = 1;
  rebalance_hours_moscow = 10 ∷ 14 ∷ [];
  shorts_enabled = false;
  short_top_n = 0;
  max_short_momentum = negsuc 9_999_999;
  require_below_trend_for_short = true;
  long_target_gross = 1_000_000_000;
  short_target_gross = 0;
  flow_confirmation_enabled = false;
  flow_min_trade_imbalance = negsuc 249_999_999;
  flow_min_order_flow = negsuc 99_999_999;
  flow_min_book_imbalance = negsuc 199_999_999;
  flow_max_spread_bbo = 3_000_000_000;
}

abbrev pub config : BotConfig
config = record {
  mode = shadow_mode;
  base_currency = 1;
  max_data_age_seconds = 3600;
  max_position_weight = 250_000_000;
  max_order_notional = 25_000_000_000_000;
  max_gross_exposure = 1_000_000_000;
  max_daily_turnover = 500_000_000_000_000;
  min_trade_notional = 1_000_000_000_000;
  max_open_orders = 1;
  allow_margin = false;
  live_interlock = false;
  strategy = strategy;
  min_cash_reserve_weight = 100_000_000;
  max_sector_weight = 600_000_000;
  max_risk_cluster_weight = 600_000_000;
  max_short_position_weight = 0;
  max_short_gross_exposure = 0;
}

-- The share at 250.004 RUB, which rounds to 250.
abbrev pub seen : MarketObservation
seen = record {
  instrument = share_item;
  price = 250_004_000_000;
  trend = 250_000_000_000;
  momentum = pos 50_000_000;
  volatility = 20_000_000;
  observed_at = aware 1000;
  complete = true;
  tradable = true;
}

-- 50,000 RUB in cash, and two lots of the share.
abbrev pub held_two : Position
held_two = record { instrument = share_item; lots = pos 2; blocked_lots = 0 }

abbrev pub portfolio : PortfolioSnapshot
portfolio = record {
  cash = 50_000_000_000_000;
  positions = (10, held_two) ∷ [];
  daily_turnover = 0;
  open_orders = 0;
  blocked_cash = 0;
  reported_equity = none;
  is_broker_snapshot = true;
}

-- No geopolitical event.
abbrev pub calm : GeoRiskSnapshot
calm = record { level = normal; multiplier = 1_000_000_000; blocked_secids = []; reasons = [] }

abbrev pub exposure : Exposure
exposure = record {
  equity = pos 55_000_000_000_000;
  gross = 5_000_000_000_000;
  by_sector = (14, 5_000_000_000_000) ∷ [];
  by_cluster = (15, 5_000_000_000_000) ∷ [];
  short = 0;
}

-- A fresh account with 30,000 RUB in cash, which holds nothing.
abbrev pub live_state : LiveState
live_state = record {
  account_id = 5;
  account_type = 19;
  account_status = open_status;
  access_level = full_access;
  started_at = aware 1_000_000;
  finished_at = aware 2_000_000;
  instrument = share_item;
  trading_allowed = true;
  book_at = aware 1_500_000;
  bid = 249_900_000_000;
  ask = 250_100_000_000;
  cash_available = 30_000_000_000_000;
  equity = pos 50_000_000_000_000;
  daily_pnl = negsuc 0;
  daily_turnover = 0;
  estimated_total = 2_507_500_000_000;
  positions = [];
  active_orders = 0;
  stop_uids = [];
}

-- 40,000 RUB of capital, and 10,000 RUB for an order.
abbrev pub policy : ProdLongPolicy
policy = record {
  version = 1;
  execution_stage = 18;
  account_id_env = 20;
  account_type = 19;
  manual_position_policy = 21;
  managed_secids = 10 ∷ [];
  protected_secids = 30 ∷ [];
  allowed_secids =
      10 ∷ 41 ∷ 42 ∷ 43 ∷ 44 ∷ 45 ∷ 46 ∷ 47 ∷ 48 ∷ 49 ∷ 50 ∷ 51 ∷ 52 ∷ 53 ∷ 54 ∷ 55 ∷ 56 ∷ 57 ∷ 58
      ∷ 59 ∷ [];
  canary = record {
    capital_limit_rub = 40_000_000_000_000;
    max_order_notional_rub = 10_000_000_000_000;
    max_daily_turnover_rub = 20_000_000_000_000;
    max_orders_per_day = 2;
    max_account_daily_loss_weight = 20_000_000;
    allow_margin = false;
    allowed_asset_classes = 2 ∷ [];
  };
}
