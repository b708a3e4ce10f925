-- ===== src/Domain/Types.antt =====
-- src/moex_bot/domain.py: the enumerations and records, without the checks of their constructors.
use moex_tinvest_bot.Base.{ℕ, Bool, Option}
use moex_tinvest_bot.Base.Int.{ℤ}

abbrev pub Text : Type 0
Text = ℕ

-- An amount in nanos, 10^-9.
abbrev pub Nanos : Type 0
Nanos = ℕ

-- A `datetime`, in microseconds: with a time zone, or naive.
pub data Moment : Type 0 where
  aware naive : ℕ → Moment

pub data Side : Type 0 where
  buy sell : Side

pub data OrderType : Type 0 where
  limit market : OrderType

pub data GeoRiskLevel : Type 0 where
  normal elevated high critical recovery : GeoRiskLevel

pub data OrderStatus : Type 0 where
  planned validated submitted accepted partially_filled filled : OrderStatus
  cancelled rejected unknown : OrderStatus

pub record Instrument : Type 0 where
  pub secid : Text
  pub uid : Text
  pub board : Text
  pub lot_size : ℕ
  pub tick_size : Nanos
  pub currency : Text
  pub issuer_id : Text
  pub sector : Text
  pub risk_cluster : Text
  pub asset_class : Text
  pub short_enabled : Bool

pub record OrderIntent : Type 0 where
  pub order_request_id : Text
  pub instrument : Instrument
  pub side : Side
  pub lots : ℕ
  pub limit_price : Nanos
  pub notional : Nanos
  pub rationale : Text
  pub confirm_margin_trade : Bool
  pub order_type : OrderType

pub record OrderRecord : Type 0 where
  pub intent : OrderIntent
  pub status : OrderStatus
  pub filled_lots : ℕ
  pub broker_order_id : Option Text
  pub status_detail : Option Text

pub record Position : Type 0 where
  pub instrument : Instrument
  pub lots : ℤ
  pub blocked_lots : ℕ
