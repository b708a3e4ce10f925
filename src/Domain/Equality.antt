-- ===== src/Domain/Equality.antt =====
-- The equality that Python gives the enumerations and dataclasses of src/moex_bot/domain.py.
use moex_tinvest_bot.Base.{ℕ, Bool, true, false, not, ◌&&◌, ◌||◌, ◌≡◌, arith, ◌==◌}
use moex_tinvest_bot.Domain.Types.{
  Side, buy, sell, OrderStatus, planned, validated, submitted, accepted, partially_filled, filled,
  cancelled, rejected, unknown, Instrument, OrderType, limit, market,
}

abbrev pub side_eq : Side → Side → Bool
side_eq buy buy = true
side_eq sell sell = true
side_eq _ _ = false

abbrev pub order_type_eq : OrderType → OrderType → Bool
order_type_eq limit limit = true
order_type_eq market market = true
order_type_eq _ _ = false

abbrev pub status_code : OrderStatus → ℕ
status_code planned = 0
status_code validated = 1
status_code submitted = 2
status_code accepted = 3
status_code partially_filled = 4
status_code filled = 5
status_code cancelled = 6
status_code rejected = 7
status_code unknown = 8

abbrev pub status_eq : OrderStatus → OrderStatus → Bool
status_eq s t = status_code s == status_code t

unfoldable pub instrument_eq : Instrument → Instrument → Bool
instrument_eq a b =
    a.secid == b.secid
    && a.uid == b.uid
    && a.board == b.board
    && a.lot_size == b.lot_size
    && a.tick_size == b.tick_size
    && a.currency == b.currency
    && a.issuer_id == b.issuer_id
    && a.sector == b.sector
    && a.risk_cluster == b.risk_cluster
    && a.asset_class == b.asset_class
    && (not a.short_enabled || b.short_enabled)
    && (not b.short_enabled || a.short_enabled)

-- Instruments that compare equal are the same instrument.
pub instrument_eq_sound : (a b : Instrument) → instrument_eq a b ≡ true → a ≡ b
unfolding instrument_eq
instrument_eq_sound a b h = ground arith

pub status_eq_sound : (s t : OrderStatus) → status_eq s t ≡ true → s ≡ t
status_eq_sound s t h = ground arith
