-- ===== src/Protection/Plan.antt =====
-- src/moex_bot/live_protection.py: `ProtectionPlan` and `_verified_stop`. The price checks on
-- finiteness and on exact representation in nanos hold of every amount of this model. A broker's
-- stop order is the record that its JSON is read as, a text that the code does not know being
-- `other`; names that the code compares without regard to case are read so.
use moex_tinvest_bot.Base.{
  ℕ, Bool, true, false, not, ◌&&◌, ◌||◌, Option, none, some, ◌%◌, ltb, leb, ◌==◌, is_some,
}
use moex_tinvest_bot.Base.Result.{⊤, Result, ok, ◌>>◌, raise_if}
use moex_tinvest_bot.Domain.{Text, Nanos, Instrument}

pub data StopKind : Type 0 where
  stop_loss_market stop_limit_kind : StopKind

pub record ProtectionPlan : Type 0 where
  pub account_id : Text
  pub entry_logical_id : Text
  pub entry_request_id : Text
  pub instrument : Instrument
  pub lots : ℕ
  pub entry_price : Nanos
  pub stop_trigger : Nanos
  pub stop_limit : Option Nanos
  pub kind : StopKind
  pub take_profit : Option Nanos

pub data PlanError : Type 0 where
  not_uuid one_lot_required bad_plan_lot_size rub_shares_only bad_take_profit unaligned_price :
      PlanError
  trigger_not_below_entry kind_mismatch limit_above_trigger : PlanError

-- The codes of the texts "RUB" and "share".
abbrev pub rub : Text
rub = 1

abbrev pub share : Text
share = 2

abbrev pub is_limit_kind : StopKind → Bool
is_limit_kind stop_loss_market = false
is_limit_kind stop_limit_kind = true

-- `p <= 0 or p % tick`, of an optional price
abbrev pub is_unaligned : Nanos → Option Nanos → Bool
is_unaligned tick none = false
is_unaligned tick (some p) = p == 0 || not (p % tick == 0)

abbrev not_above : Nanos → Option Nanos → Bool
not_above entry none = false
not_above entry (some p) = leb p entry

abbrev exceeds : Option Nanos → Nanos → Bool
exceeds none trigger = false
exceeds (some p) trigger = ltb trigger p

-- `ProtectionPlan.validate`; `is_uuid` says whether `UUID(text)` parses.
unfoldable pub validate : (Text → Bool) → ProtectionPlan → Result PlanError ⊤
validate is_uuid p = do
  raise_if (not (is_uuid p.entry_logical_id && is_uuid p.entry_request_id)) not_uuid
  raise_if (p.account_id == 0 || not (p.lots == 1)) one_lot_required
  raise_if (p.instrument.lot_size == 0) bad_plan_lot_size
  raise_if (not (p.instrument.currency == rub && p.instrument.asset_class == share)) rub_shares_only
  raise_if (not_above p.entry_price p.take_profit) bad_take_profit
  raise_if
      (is_unaligned p.instrument.tick_size (some p.entry_price)
        || is_unaligned p.instrument.tick_size (some p.stop_trigger)
        || is_unaligned p.instrument.tick_size p.stop_limit
        || is_unaligned p.instrument.tick_size p.take_profit)
      unaligned_price
  raise_if (leb p.entry_price p.stop_trigger) trigger_not_below_entry
  raise_if
      (not (
        (is_limit_kind p.kind && is_some p.stop_limit)
        || (not (is_limit_kind p.kind) && not (is_some p.stop_limit))))
      kind_mismatch
  raise_if (exceeds p.stop_limit p.stop_trigger) limit_above_trigger
  ok tt

pub data StopDirection : Type 0 where
  sell_stop other_direction : StopDirection

pub data StopType : Type 0 where
  loss_stop limit_stop other_type : StopType

pub data StopStatus : Type 0 where
  active_stop canceled_stop other_status : StopStatus

-- `exchangeOrderType`: absent or unspecified, market, limit, or anything else
pub data ChildType : Type 0 where
  unspecified_child market_child limit_child other_child : ChildType

-- A `MoneyValue`
pub record Money : Type 0 where
  pub money_currency : Text
  pub amount : Nanos

-- A stop order as the broker reports it.
pub record Stop : Type 0 where
  pub instrument_uid : Option Text
  pub stop_order_id : Option Text
  pub has_activated_child : Bool
  pub has_expiration : Bool
  pub is_good_till_cancel : Bool
  pub direction : StopDirection
  pub stop_currency : Text
  pub stop_type : StopType
  pub stop_status : StopStatus
  pub child : ChildType
  pub lots_requested : ℕ
  pub stop_price : Option Money
  pub price : Option Money

abbrev is_sell : StopDirection → Bool
is_sell sell_stop = true
is_sell other_direction = false

abbrev is_active_status : StopStatus → Bool
is_active_status active_stop = true
is_active_status _ = false

abbrev pub type_matches : StopKind → StopType → Bool
type_matches stop_loss_market loss_stop = true
type_matches stop_limit_kind limit_stop = true
type_matches _ _ = false

abbrev pub child_matches : StopKind → ChildType → Bool
child_matches kind unspecified_child = true
child_matches stop_loss_market market_child = true
child_matches stop_limit_kind limit_child = true
child_matches _ _ = false

abbrev pub money_is : Nanos → Option Money → Bool
money_is p none = false
money_is p (some m) = m.money_currency == rub && m.amount == p

-- `stop.get(key) == text`
abbrev pub text_is : Text → Option Text → Bool
text_is t none = false
text_is t (some u) = u == t

-- A price that the plan leaves open is not compared.
abbrev pub price_matches : Option Nanos → Option Money → Bool
price_matches none m = true
price_matches (some p) m = money_is p m

-- `_verified_stop`
unfoldable pub is_verified : ProtectionPlan → Stop → Bool
is_verified p s =
    not s.has_activated_child
    && not s.has_expiration
    && s.is_good_till_cancel
    && (is_sell s.direction
        && s.stop_currency == rub
        && type_matches p.kind s.stop_type
        && is_active_status s.stop_status
        && text_is p.instrument.uid s.instrument_uid)
    && child_matches p.kind s.child
    && s.lots_requested == p.lots
    && price_matches (some p.stop_trigger) s.stop_price
    && price_matches p.stop_limit s.price
