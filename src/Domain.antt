-- ===== src/Domain.antt =====
-- src/moex_bot/domain.py: the records that every component exchanges, and the checks that their
-- constructors make. A text is a number: the modelled code only compares texts, orders them and
-- tests them for emptiness, and 0 is the empty text. A Decimal is a number of nanos (10^-9), the
-- finest amount that the broker quotes; NaN and infinities are not modelled. Prices, quantities and
-- notionals are natural numbers, so a test such as `x <= 0` reads `x == 0` here.
mod Types
mod Equality
pub use Types.*
pub use Equality.{side_eq, order_type_eq, status_eq, instrument_eq_sound, status_eq_sound}
unfoldable pub use Equality.{instrument_eq}
use moex_tinvest_bot.Base.{ℕ, Bool, true, false, ◌||◌, ◌+◌, ◌*◌, ◌/◌, ltb, ◌==◌}
use moex_tinvest_bot.Base.Int.{abs}
use moex_tinvest_bot.Base.Result.{⊤, Result, ok, err, ◌>>◌, raise_if}

-- The `ValueError`s of the constructors.
pub data DomainError : Type 0 where
  incomplete_identity bad_lot_size bad_tick_size incomplete_diversification : DomainError
  blocked_exceeds_position : DomainError
  bad_lots bad_price : DomainError
  prices_not_positive naive_observation bad_severity bad_confidence naive_event : DomainError

-- `Instrument.__post_init__`
unfoldable pub check_instrument : Instrument → Result DomainError ⊤
check_instrument i = do
  raise_if (i.secid == 0 || i.uid == 0 || i.board == 0) incomplete_identity
  raise_if (i.lot_size == 0) bad_lot_size
  raise_if (i.tick_size == 0) bad_tick_size
  raise_if (i.issuer_id == 0 || i.sector == 0 || i.risk_cluster == 0) incomplete_diversification
  ok tt

-- `Position.__post_init__`
unfoldable pub check_position : Position → Result DomainError ⊤
check_position p = do raise_if (ltb (abs p.lots) p.blocked_lots) blocked_exceeds_position; ok tt

-- `OrderIntent.__post_init__`
unfoldable pub check_intent : OrderIntent → Result DomainError ⊤
check_intent o = do
  raise_if (o.lots == 0) bad_lots
  raise_if (o.limit_price == 0 || o.notional == 0) bad_price
  ok tt

-- `Instrument.round_price`: the nearest multiple of the tick, half a tick rounding up.
unfoldable pub round_price : Instrument → Nanos → Nanos
round_price i price = (price * 2 + i.tick_size) / (i.tick_size * 2) * i.tick_size

-- `Instrument.floor_lots`, of a number of units in nanos
unfoldable pub floor_lots : Instrument → Nanos → ℕ
floor_lots i units = units / (i.lot_size * 1_000_000_000)

-- `{"filled", "cancelled", "rejected"}`, the terminal statuses
abbrev pub is_terminal : OrderStatus → Bool
is_terminal filled = true
is_terminal cancelled = true
is_terminal rejected = true
is_terminal _ = false

-- `if moment.tzinfo is None: raise`
abbrev pub need_aware : {E : Type 0} → Moment → E → Result E ℕ
need_aware (aware t) e = ok t
need_aware (naive t) e = err e
