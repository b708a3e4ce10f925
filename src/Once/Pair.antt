-- ===== src/Once/Pair.antt =====
-- src/moex_bot/prod_long_once.py: `paired`, which turns a candidate into its order and its protection,
-- and `check_entry_state`, the gate on the account just before the purchase;
-- src/moex_bot/long_auto_signal.py: `Candidate`. The floor of a quotient is that of the natural numbers.
mod Tests
use native.Mathlib.Nat.{div-mul-le_self}
use moex_tinvest_bot.Base.{
  ℕ, Bool, true, false, not, ◌&&◌, ◌||◌, Option, none, some, List, [], ◌∷◌, ◌+◌, ◌*◌, ◌/◌, ◌%◌, ◌≡◌,
  ◌≤◌, ◌<◌, refl, arith, ltb, leb, ◌==◌, any, if◌then◌else◌,
}
use moex_tinvest_bot.Base.Int.{ℤ, pos, leb_ℤ}
use moex_tinvest_bot.Base.Result.{⊤, Result, ok, err, ◌>>=◌, ◌>>◌, raise_if}
use moex_tinvest_bot.Domain.{
  Text, Nanos, Moment, Instrument, instrument_eq, OrderIntent, buy, limit,
}
use moex_tinvest_bot.Live.{LiveState, LiveHolding}
use moex_tinvest_bot.Protection.{ProtectionPlan, PlanError, stop_loss_market, rub, share, validate}

pub record Candidate : Type 0 where
  pub account_id : Text
  pub decision_sha256 : Text
  pub instrument : Instrument
  pub limit_price : Nanos
  pub stop_trigger : Nanos
  pub order_request_id : Text
  pub stop_request_id : Text
  pub valid_until : Moment
  pub lots : ℕ

-- The functions outside the source that a pair rests on: whether a text is a UUID or 64 hexadecimal
-- digits, the version 5 UUID of an account and an order, and the text of a decision.
pub record PairNames : Type 0 where
  pub is_uuid : Text → Bool
  pub is_hex64 : Text → Bool
  pub entry_id : Text → Text → Text
  pub rationale_of : Text → Text

pub data PairError : Type 0 where
  not_uuid invalid_candidate wrong_stop entry_gate_failed : PairError
  bad_plan : PlanError → PairError

-- 10,000 RUB
abbrev pub cap : Nanos
cap = 10_000_000_000_000

-- The code of "TQBR", and of the account type of the entry gate.
abbrev pub tqbr : Text
tqbr = 12

abbrev pub iis_account : Text
iis_account = 19

abbrev as_pair_error : Result PlanError ⊤ → Result PairError ⊤
as_pair_error (ok u) = ok u
as_pair_error (err e) = err (bad_plan e)

-- Two percent below the price, rounded down to the tick.
abbrev pub strategy_stop : Instrument → Nanos → Nanos
strategy_stop i price = price * 98 / (i.tick_size * 100) * i.tick_size

abbrev pub paired_intent : PairNames → Candidate → OrderIntent
paired_intent names c = record {
  order_request_id = c.order_request_id;
  instrument = c.instrument;
  side = buy;
  lots = 1;
  limit_price = c.limit_price;
  notional = c.limit_price * c.instrument.lot_size;
  rationale = names.rationale_of c.decision_sha256;
  confirm_margin_trade = false;
  order_type = limit;
}

abbrev pub paired_plan : PairNames → Candidate → ProtectionPlan
paired_plan names c = record {
  account_id = c.account_id;
  entry_logical_id = c.order_request_id;
  entry_request_id = names.entry_id c.account_id c.order_request_id;
  instrument = c.instrument;
  lots = 1;
  entry_price = c.limit_price;
  stop_trigger = strategy_stop c.instrument c.limit_price;
  stop_limit = none;
  kind = stop_loss_market;
  take_profit = none;
}

-- `paired`
pub paired : PairNames → Candidate → Result PairError (OrderIntent × ProtectionPlan)
paired names c = do
  raise_if (not (names.is_uuid c.order_request_id)) not_uuid
  raise_if
      (not (c.lots == 1)
        || not (
            c.instrument.board == tqbr
            && c.instrument.currency == rub
            && c.instrument.asset_class == share)
        || c.instrument.lot_size == 0
        || c.limit_price == 0
        || c.instrument.tick_size == 0
        || not (c.limit_price % c.instrument.tick_size == 0)
        || ltb cap (c.limit_price * c.instrument.lot_size)
        || not (names.is_hex64 c.decision_sha256))
      invalid_candidate
  raise_if (not (c.stop_trigger == strategy_stop c.instrument c.limit_price)) wrong_stop
  as_pair_error (validate names.is_uuid (paired_plan names c))
  ok (paired_intent names c, paired_plan names c)

-- A holding of the instrument that is not zero
abbrev pub is_held : Text → (Text × LiveHolding) → Bool
is_held uid (key, h) =
    h.instrument.uid == uid && not (leb_ℤ h.units (pos 0) && leb_ℤ (pos 0) h.units)

-- `check_entry_state`
pub check_entry_state : OrderIntent → LiveState → ProtectionPlan → Result PairError ⊤
check_entry_state o s p =
    raise_if
      (not (s.account_id == p.account_id)
        || not (s.account_type == iis_account)
        || not (instrument_eq s.instrument o.instrument)
        || not (leb o.notional s.estimated_total && leb s.estimated_total cap)
        || ltb s.cash_available s.estimated_total
        || any (is_held o.instrument.uid) s.positions
        || leb s.bid p.stop_trigger)
      entry_gate_failed

paired_by :
    (names : PairNames) (c : Candidate) (o : OrderIntent) (p : ProtectionPlan)
    → paired names c ≡ ok (o, p)
    → (o ≡ paired_intent names c)
      × (p ≡ paired_plan names c)
      × (c.limit_price * c.instrument.lot_size ≤ cap)
      × (c.stop_trigger ≡ strategy_stop c.instrument c.limit_price)
      × (validate names.is_uuid (paired_plan names c) ≡ ok tt)
unfolding paired
paired_by names c o p h = ground arith

validated_below :
    (is_uuid : Text → Bool) (p : ProtectionPlan)
    → validate is_uuid p ≡ ok tt
    → p.stop_trigger < p.entry_price
unfolding validate
validated_below is_uuid p h = ground arith

entry_passes :
    (o : OrderIntent) (s : LiveState) (p : ProtectionPlan)
    → check_entry_state o s p ≡ ok tt
    → (o.notional ≤ s.estimated_total)
      × (s.estimated_total ≤ cap)
      × (s.estimated_total ≤ s.cash_available)
      × (any (is_held o.instrument.uid) s.positions ≡ false)
      × (p.stop_trigger < s.bid)
unfolding check_entry_state
entry_passes o s p h = ground arith

two_percent : (i : Instrument) (price : Nanos) → strategy_stop i price * 100 ≤ price * 98
two_percent i price = omega (
  arith,
  scaled (price * 98 / (i.tick_size * 100)) i.tick_size,
  div-mul-le_self (price * 98) (i.tick_size * 100),
)
  where
    scaled : (q t : ℕ) → q * t * 100 ≡ q * (t * 100)
    scaled q t = grind arith

-- The order and the protection of a candidate that passes the gate on the account: a purchase of one
-- lot that, with its fee, costs at most 10,000 RUB and is paid from the cash, on an instrument that
-- the account does not hold; and a valid stop for just that order, at least two percent below its
-- price and below the bid.
pub paired_lem :
    (names : PairNames) (c : Candidate) (o : OrderIntent) (p : ProtectionPlan) (s : LiveState)
    → paired names c ≡ ok (o, p)
    → check_entry_state o s p ≡ ok tt
    → (o.side ≡ buy)
      × (o.lots ≡ 1)
      × (o.notional ≤ s.estimated_total)
      × (s.estimated_total ≤ cap)
      × (s.estimated_total ≤ s.cash_available)
      × (any (is_held o.instrument.uid) s.positions ≡ false)
      × (validate names.is_uuid p ≡ ok tt)
      × (p.entry_logical_id ≡ o.order_request_id)
      × (p.instrument ≡ o.instrument)
      × (p.entry_price ≡ o.limit_price)
      × (p.stop_trigger * 100 ≤ o.limit_price * 98)
      × (p.stop_trigger < o.limit_price)
      × (p.stop_trigger < s.bid)
paired_lem names c o p s h k =
    let (same_order, same_plan, small, stop, valid) = paired_by names c o p h in
    let (covered, capped, paid, free, above) = entry_passes o s p k in
    (
      rw same_order refl,
      rw same_order refl,
      covered,
      capped,
      paid,
      free,
      rw same_plan valid,
      rw (same_plan, same_order) refl,
      rw (same_plan, same_order) refl,
      rw (same_plan, same_order) refl,
      rw (same_plan, same_order) (two_percent c.instrument c.limit_price),
      rw (same_plan, same_order) (validated_below names.is_uuid (paired_plan names c) valid),
      above,
    )
