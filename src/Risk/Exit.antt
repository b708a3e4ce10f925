-- ===== src/Risk/Exit.antt =====
-- The risk gate does not trap a position.
use moex_tinvest_bot.Base.{ℕ, true, false, some, [], ◌+◌, ◌-◌, ◌*◌, ◌≤◌, ◌<◌, ◌≡◌, arith, ltb}
use moex_tinvest_bot.Base.Int.{ℤ, pos, pos_part, ◌-ℤ◌}
use moex_tinvest_bot.Domain.{OrderIntent, sell, Position}
use moex_tinvest_bot.Config.{BotConfig}
use moex_tinvest_bot.Portfolio.{lookup, PortfolioSnapshot, GeoRiskSnapshot}
use moex_tinvest_bot.Risk.{
  Exposure, evaluate_intent, after, is_reducing, value_at, order_reasons, short_reasons,
  blocked_reasons, equity_reasons, exposure_reasons, all_reasons, lacks_cash,
}

-- Selling part or all of a long position leaves less of it, and no short.
sells_down :
    (held lots : ℕ) → 0 < lots → lots ≤ held → after (pos held) sell lots ≡ pos (held - lots)
unfolding ◌-ℤ◌
sells_down held lots some_lots within = ground arith

scaled : (a b k : ℕ) → a ≤ b → a * k ≤ b * k
scaled a b k h = grind arith

not_above : (a b : ℕ) → b ≤ a → ltb a b ≡ false
not_above a b h = ground arith

not_larger_value :
    (old new size price : ℕ) → new ≤ old → ltb (old * size * price) (new * size * price) ≡ false
not_larger_value old new size price h =
    not_above (old * size * price) (new * size * price)
      (scaled (new * size) (old * size) price (scaled new old size h))

module _ (o : OrderIntent) (p : PortfolioSnapshot) (c : BotConfig) (geo : GeoRiskSnapshot)
    (e : Exposure) where
  order_clear :
      o.notional ≤ c.max_order_notional
      → p.daily_turnover + o.notional ≤ c.max_daily_turnover
      → p.open_orders < c.max_open_orders
      → (p.is_broker_snapshot ≡ true → p.open_orders ≡ 0)
      → order_reasons o p c ≡ []
  unfolding order_reasons
  order_clear small turnover slot reconciled = ground arith

  -- A reduction that does not raise the position's value meets no exposure limit.
  reducing_clear :
      (current resulting : ℤ)
      → is_reducing current resulting ≡ true
      → ltb (value_at o current) (value_at o resulting) ≡ false
      → exposure_reasons o c geo e current resulting ≡ []
  unfolding exposure_reasons
  reducing_clear current resulting reduces small = rw (reduces, small) (ground arith)

  module _ (held blocked : ℕ) (sells : o.side ≡ sell) (lots : 0 < o.lots)
      (free : o.lots + blocked ≤ held) (unmargined : o.confirm_margin_trade ≡ false) where
    shorts_clear : short_reasons o c (pos held) (pos (held - o.lots)) ≡ []
    unfolding short_reasons
    shorts_clear = ground arith

    blocked_clear : blocked_reasons o (pos held) blocked ≡ []
    unfolding blocked_reasons
    blocked_clear = ground arith

    cash_clear : lacks_cash o p c e.equity ≡ false
    cash_clear = ground arith

    reduces : is_reducing (pos held) (pos (held - o.lots)) ≡ true
    reduces = ground arith

    not_larger : ltb (value_at o (pos held)) (value_at o (pos (held - o.lots))) ≡ false
    not_larger =
        not_larger_value (held + 0) (held - o.lots + 0) o.instrument.lot_size o.limit_price
          (omega arith)

    equity_clear :
        0 < pos_part e.equity → equity_reasons o c geo e (pos held) (pos (held - o.lots)) ≡ []
    unfolding equity_reasons
    equity_clear solvent =
        ground (arith, solvent, reducing_clear (pos held) (pos (held - o.lots)) reduces not_larger)

  -- A SELL of part or all of the unblocked lots of a long position is allowed as it is, whatever the
  -- geopolitical block, the cash and the exposure limits, where it is within the limits on notional,
  -- turnover and open orders, asks for no margin, and the equity is positive.
  pub exit_allowed :
      (position : Position) (held : ℕ)
      → lookup o.instrument.secid p.positions ≡ some position
      → position.lots ≡ pos held
      → o.side ≡ sell
      → 0 < o.lots
      → o.lots + position.blocked_lots ≤ held
      → o.confirm_margin_trade ≡ false
      → o.notional ≤ c.max_order_notional
      → p.daily_turnover + o.notional ≤ c.max_daily_turnover
      → p.open_orders < c.max_open_orders
      → (p.is_broker_snapshot ≡ true → p.open_orders ≡ 0)
      → 0 < pos_part e.equity
      → evaluate_intent o p c geo e ≡ record { allowed = true; reasons = []; intent = some o }
  unfolding evaluate_intent all_reasons
  exit_allowed position held found long sells lots free unmargined small turnover slot reconciled
        solvent =
      ground (
        arith,
        sells_down held o.lots lots (omega arith),
        order_clear small turnover slot reconciled,
        shorts_clear held position.blocked_lots sells lots free unmargined,
        blocked_clear held position.blocked_lots sells lots free unmargined,
        cash_clear held position.blocked_lots sells lots free unmargined,
        equity_clear held position.blocked_lots sells lots free unmargined solvent,
      )
