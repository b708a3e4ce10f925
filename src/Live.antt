-- ===== src/Live.antt =====
-- src/moex_bot/live_execution.py: the production gate `_authorize`, `LivePermission.validate` and the
-- records that they read; src/moex_bot/prod_long.py: `ProdLongPolicy`.
-- A test on a quotient is multiplied out. Bids, asks, fees and cash are amounts, so the tests on their
-- finiteness and sign hold of every one.
pub mod Authorized
pub mod Policy
pub mod Ledger
pub mod Attempt
pub mod Execute
pub mod Enroll
mod Tests
use moex_tinvest_bot.Base.{
  ℕ, Bool, true, false, not, ◌&&◌, ◌||◌, Option, none, some, List, [], ◌∷◌, ◌+◌, ◌-◌, ◌*◌, ◌%◌, ltb,
  leb, ◌==◌, min, max, any, if◌then◌else◌,
}
use moex_tinvest_bot.Base.Int.{ℤ, pos, pos_part, ◌+ℤ◌, ◌-ℤ◌, ◌*ℤ◌, leb_ℤ, ltb_ℤ}
use moex_tinvest_bot.Base.Result.{⊤, Result, ok, err, ◌>>=◌, ◌>>◌, raise_if}
use moex_tinvest_bot.Domain.{
  Text, Nanos, Moment, aware, naive, Instrument, instrument_eq, OrderIntent, OrderType, limit,
  market, Side, buy, sell,
}
use moex_tinvest_bot.Portfolio.{Dict, lookup, member, one}

pub record ProdLongCanary : Type 0 where
  pub capital_limit_rub : Nanos
  pub max_order_notional_rub : Nanos
  pub max_daily_turnover_rub : Nanos
  pub max_orders_per_day : ℕ
  pub max_account_daily_loss_weight : Nanos
  pub allow_margin : Bool
  pub allowed_asset_classes : List Text

pub record ProdLongPolicy : Type 0 where
  pub version : ℕ
  pub execution_stage : Text
  pub account_id_env : Text
  pub account_type : Text
  pub manual_position_policy : Text
  pub protected_secids : List Text
  pub managed_secids : List Text
  pub allowed_secids : List Text
  pub canary : ProdLongCanary

pub record LiveHolding : Type 0 where
  pub instrument : Instrument
  pub units : ℤ
  pub free_units : ℤ
  pub price : Nanos

pub record LiveState : Type 0 where
  pub account_id : Text
  pub account_type : Text
  pub account_status : Text
  pub access_level : Text
  pub started_at : Moment
  pub finished_at : Moment
  pub instrument : Instrument
  pub trading_allowed : Bool
  pub book_at : Moment
  pub bid : Nanos
  pub ask : Nanos
  pub cash_available : Nanos
  pub equity : ℤ
  pub daily_pnl : ℤ
  pub daily_turnover : Nanos
  pub estimated_total : Nanos
  pub positions : Dict LiveHolding
  pub active_orders : ℕ
  pub stop_uids : List Text

pub data LiveError : Type 0 where
  not_admitted wrong_confirmation changed_policy bad_confirmation : LiveError
  bad_account stale_state future_snapshot changed_instrument not_permitted bad_name bad_price :
      LiveError
  bad_notional bad_book far_price open_orders too_many_orders bad_money turnover_reached : LiveError
  holdings_disagree short_account manual_position would_short daily_loss bad_fee : LiveError
  no_cash capital_exceeded unknown_sector concentration : LiveError

-- The codes of the texts that the gate compares with.
abbrev pub open_status : Text
open_status = 7

abbrev pub full_access : Text
full_access = 8

abbrev pub unknown_name : Text
unknown_name = 9

abbrev pub is_limit : OrderType → Bool
is_limit limit = true
is_limit market = false

-- `timedelta(0) <= b - a <= timedelta(seconds=s)` of times with a zone, and false of others
abbrev pub is_within : Moment → Moment → ℕ → Bool
is_within (aware a) (aware b) s = leb a b && leb b (a + s * 1_000_000)
is_within _ _ _ = false

-- `a > b` of times with a zone
abbrev is_later : Moment → Moment → Bool
is_later (aware a) (aware b) = ltb b a
is_later _ _ = false

check_account : ProdLongPolicy → LiveState → Moment → Result LiveError ⊤
check_account policy s now = do
  raise_if
      (not (
        s.account_type == policy.account_type
        && s.account_status == open_status
        && s.access_level == full_access))
      bad_account
  raise_if
      (not (
        is_within s.started_at s.finished_at 20
        && is_within s.started_at now 20
        && is_within s.book_at now 10))
      stale_state
  raise_if (is_later s.finished_at now) future_snapshot

-- The value of an order at its price.
abbrev pub order_value : OrderIntent → Nanos
order_value o = o.limit_price * o.lots * o.instrument.lot_size

check_order : OrderIntent → ProdLongPolicy → LiveState → Result LiveError ⊤
check_order o policy s = do
  raise_if (not (instrument_eq s.instrument o.instrument)) changed_instrument
  raise_if
      (not (o.instrument.asset_class == 2 && o.instrument.currency == 1 && is_limit o.order_type)
        || o.confirm_margin_trade
        || policy.canary.allow_margin)
      not_permitted
  raise_if
      (not (member o.instrument.secid policy.allowed_secids)
        || member o.instrument.secid policy.protected_secids)
      bad_name
  raise_if (not (o.limit_price % o.instrument.tick_size == 0)) bad_price
  raise_if
      (not (o.notional == order_value o)
        || ltb policy.canary.max_order_notional_rub (order_value o))
      bad_notional

-- The distance of two amounts.
abbrev pub gap : ℕ → ℕ → ℕ
gap a b = a - b + (b - a)

check_book : OrderIntent → LiveState → Result LiveError ⊤
check_book o s = do
  raise_if
      (not s.trading_allowed
        || s.bid == 0
        || s.ask == 0
        || ltb s.ask s.bid
        || ltb (s.bid * 1005) (s.ask * 1000))
      bad_book
  raise_if (ltb (s.ask + s.bid) (gap (2 * o.limit_price) (s.ask + s.bid) * 100)) far_price
  raise_if (not (s.active_orders == 0) || member o.instrument.uid s.stop_uids) open_orders

check_day : OrderIntent → ProdLongPolicy → LiveState → ℕ → Nanos → Result LiveError ⊤
check_day o policy s count reserved_turnover = do
  raise_if (leb policy.canary.max_orders_per_day count) too_many_orders
  raise_if (leb_ℤ s.equity (pos 0)) bad_money
  raise_if
      (ltb policy.canary.max_daily_turnover_rub
        (max s.daily_turnover reserved_turnover + order_value o))
      turnover_reached

abbrev int_zero : ℤ → Bool
int_zero a = leb_ℤ a (pos 0) && leb_ℤ (pos 0) a

abbrev holds : ℤ → Option LiveHolding → Bool
holds units none = false
holds units (some h) = leb_ℤ units h.units && leb_ℤ units h.free_units && not (h.price == 0)

abbrev price_of : Option LiveHolding → Nanos
price_of none = 0
price_of (some h) = h.price

-- The loop over `owned`, with the gross value so far.
pub add_owned : Dict LiveHolding → ℤ → Dict ℤ → Result LiveError ℤ
add_owned positions gross [] = ok gross
add_owned positions gross ((uid, units) ∷ owned) =
    let held = lookup uid positions in
    let rest = add_owned positions (gross +ℤ units *ℤ pos (price_of held)) owned in
    let skipped = add_owned positions gross owned in
    if int_zero units then skipped else if holds units held then rest else err holdings_disagree

abbrev pub units_of : Text → Dict ℤ → ℤ
units_of uid owned = elim (lookup uid owned) [ none ↦ pos 0 | some u ↦ u ]

-- The loop over the broker's positions.
check_positions : ProdLongPolicy → Dict ℤ → Dict LiveHolding → Result LiveError ⊤
check_positions policy owned [] = ok tt
check_positions policy owned ((uid, h) ∷ positions) = do
  raise_if (ltb_ℤ h.units (pos 0)) short_account
  raise_if
      (not (int_zero h.units)
        && not (member h.instrument.secid policy.protected_secids)
        && int_zero (units_of uid owned))
      manual_position
  check_positions policy owned positions

abbrev pub order_units : OrderIntent → ℕ
order_units o = o.lots * o.instrument.lot_size

abbrev pub is_free : ℕ → Option LiveHolding → Bool
is_free units none = false
is_free units (some h) = leb_ℤ (pos units) h.free_units

check_sell : OrderIntent → LiveState → Dict ℤ → Result LiveError ⊤
check_sell o s owned = do
  raise_if
      (ltb_ℤ (units_of o.instrument.uid owned) (pos (order_units o))
        || not (is_free (order_units o) (lookup o.instrument.uid s.positions)))
      would_short

-- The value of the bot's holdings that share a name with the order's instrument.
abbrev pub exposure_in : (Instrument → Text) → Instrument → Dict ℤ → Dict LiveHolding → ℤ
exposure_in field i owned [] = pos 0
exposure_in field i owned ((uid, h) ∷ positions) =
    (if field h.instrument == field i then units_of uid owned *ℤ pos h.price else pos 0)
    +ℤ exposure_in field i owned positions

-- `exposure + notional > limit * percent / 100`
abbrev pub is_concentrated : ℤ → Nanos → Nanos → ℕ → Bool
is_concentrated exposure notional cap percent =
    ltb_ℤ (pos (cap * percent)) ((exposure +ℤ pos notional) *ℤ pos 100)

check_buy : OrderIntent → ProdLongPolicy → LiveState → Dict ℤ → ℤ → Result LiveError ⊤
check_buy o policy s owned gross = do
  let cap = policy.canary.capital_limit_rub
  let notional = order_value o
  let budget = min (pos_part s.equity) cap * policy.canary.max_account_daily_loss_weight
  raise_if (leb_ℤ (s.daily_pnl *ℤ pos one) (pos 0 -ℤ pos budget)) daily_loss
  raise_if (ltb s.estimated_total notional || ltb (notional * 1005) (s.estimated_total * 1000))
      bad_fee
  raise_if (ltb s.cash_available s.estimated_total) no_cash
  raise_if (ltb_ℤ (pos cap) (gross +ℤ pos s.estimated_total)) capital_exceeded
  raise_if (o.instrument.sector == unknown_name || o.instrument.risk_cluster == unknown_name)
      unknown_sector
  raise_if
      (is_concentrated (exposure_in (λ i. i.issuer_id) o.instrument owned s.positions) notional cap
          25
        || is_concentrated (exposure_in (λ i. i.sector) o.instrument owned s.positions) notional cap
            50
        || is_concentrated (exposure_in (λ i. i.risk_cluster) o.instrument owned s.positions)
            notional cap 50)
      concentration

check_side : OrderIntent → ProdLongPolicy → LiveState → Dict ℤ → ℤ → Side → Result LiveError ⊤
check_side o policy s owned gross sell = check_sell o s owned
check_side o policy s owned gross buy = check_buy o policy s owned gross

-- `_authorize`
pub authorize_live :
    OrderIntent → ProdLongPolicy → LiveState → Dict ℤ → ℕ → Nanos → Moment → Result LiveError ⊤
authorize_live o policy s owned count reserved_turnover now = do
  check_account policy s now
  check_order o policy s
  check_book o s
  check_day o policy s count reserved_turnover
  gross ← add_owned s.positions (pos 0) owned
  check_positions policy owned s.positions
  check_side o policy s owned gross o.side

-- What the permission is compared by: SHA-256 digests, and whether a text is 64 hexadecimal digits.
pub record Digests : Type 0 where
  pub intent_digest : OrderIntent → Text
  pub policy_digest : ProdLongPolicy → Text
  pub is_hex64 : Text → Bool

pub record LivePermission : Type 0 where
  pub account_id : Text
  pub intent_sha256 : Text
  pub policy_sha256 : Text
  pub release_sha256 : Text
  pub confirmed_at : Moment
  pub expires_at : Moment
  pub execution_admission_passed : Bool
  pub journal_uuid : Text

-- `confirmed_at <= now < expires_at` and `expires_at - confirmed_at <= timedelta(minutes=5)`
abbrev pub is_valid_at : Moment → Moment → Moment → Bool
is_valid_at (aware a) (aware b) (aware now) = leb a now && ltb now b && leb b (a + 300_000_000)
is_valid_at _ _ _ = false

-- `LivePermission.validate`
pub validate_permission :
    Digests
    → LivePermission
    → Text
    → OrderIntent
    → ProdLongPolicy
    → Text
    → Moment
    → Result LiveError ⊤
validate_permission d p account o policy release now = do
  raise_if (not p.execution_admission_passed) not_admitted
  raise_if (not (p.account_id == account && p.intent_sha256 == d.intent_digest o))
      wrong_confirmation
  raise_if (not (p.policy_sha256 == d.policy_digest policy && p.release_sha256 == release))
      changed_policy
  raise_if (not (d.is_hex64 release && is_valid_at p.confirmed_at p.expires_at now))
      bad_confirmation
