-- ===== src/Fills/Fair.antt =====
-- What a fill may be.
use native.Mathlib.Nat.{mul-le-mul_right, div-add-mod, zero-div}
use moex_tinvest_bot.Base.{
  ℕ, zero, suc, Bool, true, false, ◌+◌, ◌-◌, ◌*◌, ◌/◌, ◌≤◌, ◌<◌, ◌≡◌, ◌⊎◌, inl, inr, refl, arith,
  ltb, min, max,
}
use moex_tinvest_bot.Base.Int.{ℤ, pos, negsuc, pos_part, neg_part, ◌-ℤ◌}
use moex_tinvest_bot.Domain.{Nanos, Side, buy, sell, OrderIntent}
use moex_tinvest_bot.Fills.{
  Terms, Window, fill, FillReason, verdict, side_verdict, some_lots, bought_lots, budget, lot_cost,
  tick_price, is_executable, cash_or_reserve, no_unreserved_position,
}

-- The floor of a quotient, times its divisor.
quotient-le : (a d : ℕ) → a / d * d ≤ a
quotient-le a d = omega (arith, div-add-mod a d)

-- A fill of an order: some lots, no more than are left, at a price inside the candle that is no worse than
-- the limit, in a window that begins after the latency, within the share of its volume and the cash.
pub record IsFair (t : Terms) (o : OrderIntent) (done : ℕ) (w : Window) (cash current : ℤ)
    (consumed : ℕ) (lots : ℕ) (price : Nanos) : Type 0 where
  pub some : 0 < lots
  pub left : done + lots ≤ max done o.lots
  pub active : t.latency ≤ w.start
  pub above_low : w.candle.low ≤ price
  pub below_high : price ≤ w.candle.high
  pub buys_low : o.side ≡ buy → price ≤ o.limit_price
  pub sells_high : o.side ≡ sell → o.limit_price ≤ price
  pub in_budget : consumed + lots * o.instrument.lot_size ≤ max consumed (budget t w.candle)
  pub paid : o.side ≡ buy → lots * lot_cost t o price ≤ pos_part cash
  pub reserve_kept :
      o.side ≡ buy → neg_part current ≡ 0 → lots * lot_cost t o price + t.reserve ≤ pos_part cash
  pub not_short : o.side ≡ sell → o.confirm_margin_trade ≡ false → lots ≤ pos_part current

positive_quotient : (a d : ℕ) → 0 < a / d → 0 < a
positive_quotient zero d h = omega (arith, quotient-le 0 d, h, zero-div d)
positive_quotient (suc a) d h = omega arith

le_max-cases : (n a b : ℕ) → n ≤ max a b → (n ≤ a) ⊎ (n ≤ b)
le_max-cases n a b h = ground arith

free-le : (cash : ℤ) (reserve : ℕ) → pos_part (cash -ℤ pos reserve) ≤ pos_part cash - reserve
unfolding ◌-ℤ◌
free-le (pos n) reserve = ground arith
free-le (negsuc n) reserve = ground arith

some_lots-fill :
    (n : ℕ) (p : Nanos) (why : FillReason) (lots : ℕ) (price : Nanos)
    → some_lots n p why ≡ fill lots price
    → (lots ≡ n) × (price ≡ p) × (0 < n)
some_lots-fill zero p why lots price h = absurd (ground arith)
some_lots-fill (suc n) p why lots price h = (ground arith, ground arith, omega arith)

-- The lots of a fill, by the side of the order.
side_verdict-fill :
    (t : Terms) (o : OrderIntent) (p : Nanos) (cash current : ℤ) (n lots : ℕ) (price : Nanos)
    → 0 < n
    → side_verdict t o p cash current n ≡ fill lots price
    → (price ≡ p)
      × (0 < lots)
      × (lots ≤ n)
      × (o.side ≡ buy → lots ≤ bought_lots t o p cash current n)
      × (o.side ≡ sell → o.confirm_margin_trade ≡ false → lots ≤ pos_part current)
unfolding side_verdict
side_verdict-fill t o p cash current n lots price some h =
    by_side o.side refl o.confirm_margin_trade refl
  where
    by_side :
        (side : Side)
        → o.side ≡ side
        → (b : Bool) → o.confirm_margin_trade ≡ b
        → (price ≡ p)
          × (0 < lots)
          × (lots ≤ n)
          × (o.side ≡ buy → lots ≤ bought_lots t o p cash current n)
          × (o.side ≡ sell → o.confirm_margin_trade ≡ false → lots ≤ pos_part current)
    by_side buy e b f =
        ground
          (arith, some_lots-fill (bought_lots t o p cash current n) p cash_or_reserve lots price)
    by_side sell e true f = ground arith
    by_side sell e false f =
        ground
          (arith, some_lots-fill (min n (pos_part current)) p no_unreserved_position lots price)

module _ (t : Terms) (o : OrderIntent) (done : ℕ) (w : Window) (cash current : ℤ)
    (consumed : ℕ) where
  abbrev open_lots : ℕ
  open_lots = min (o.lots - done) ((budget t w.candle - consumed) / o.instrument.lot_size)

  verdict-fill :
      (lots : ℕ) (price : Nanos)
      → verdict t o done w cash current consumed ≡ fill lots price
      → (ltb w.start t.latency ≡ false)
        × (is_executable o w.candle (tick_price t o w.candle) ≡ true)
        × (0 < open_lots)
        × (side_verdict t o (tick_price t o w.candle) cash current open_lots ≡ fill lots price)
  unfolding verdict
  verdict-fill lots price h = ground arith

  within_budget :
      (lots : ℕ)
      → lots ≤ open_lots
      → consumed + lots * o.instrument.lot_size ≤ max consumed (budget t w.candle)
  within_budget lots le =
      let left = (budget t w.candle - consumed) / o.instrument.lot_size in
      let few : lots ≤ left = omega (arith, le) in
      omega (
        arith,
        mul-le-mul_right o.instrument.lot_size few,
        quotient-le (budget t w.candle - consumed) o.instrument.lot_size,
      )

  -- A purchase is paid from the cash, and beyond the reserve unless it covers a short position.
  bought_paid :
      (p : Nanos) (lots : ℕ)
      → lots ≤ bought_lots t o p cash current open_lots
      → (lots * lot_cost t o p ≤ pos_part cash)
        × (0 < lots → neg_part current ≡ 0 → lots * lot_cost t o p + t.reserve ≤ pos_part cash)
  bought_paid p lots h =
      let cost = lot_cost t o p in
      let free = pos_part (cash -ℤ pos t.reserve) in
      let free_le : free ≤ pos_part cash - t.reserve = free-le cash t.reserve in
      elim (le_max-cases lots (free / cost) (min (neg_part current) (pos_part cash / cost))
        (omega (arith, h))) [
          | inl afforded ↦ (
            omega (arith, mul-le-mul_right cost afforded, quotient-le free cost, free_le),
            λ some long. omega (
              arith,
              mul-le-mul_right cost afforded,
              quotient-le free cost,
              free_le,
              positive_quotient free cost (omega (arith, some, afforded)),
            ),
          )
          | inr covered ↦
              let few : lots ≤ pos_part cash / cost = omega (arith, covered) in
              (
                omega (arith, mul-le-mul_right cost few, quotient-le (pos_part cash) cost),
                λ some long. absurd (omega (arith, some, covered, long)),
              )
        ]

  -- A fill is of at least one lot and of no more than are left, in a window that begins after the
  -- latency, at a price inside the candle and no worse than the limit; with what the window has filled
  -- already it stays within its share of the volume; a purchase is paid from the cash, and leaves the
  -- reserve unless there is a short position to cover; and a sale without a margin confirmation sells
  -- no more than is held.
  pub verdict-IsFair :
      (lots : ℕ) (price : Nanos)
      → verdict t o done w cash current consumed ≡ fill lots price
      → IsFair t o done w cash current consumed lots price
  verdict-IsFair lots price h =
      let (active, executable, some, side) = verdict-fill lots price h in
      let (at, more, le, bought, sold) =
        side_verdict-fill t o (tick_price t o w.candle) cash current open_lots lots price some
          side in
      record {
        some = more;
        left = omega (arith, le);
        active = ground (arith, active);
        above_low = ground (arith, executable, at);
        below_high = ground (arith, executable, at);
        buys_low = λ e. ground (arith, executable, at, e);
        sells_high = λ e. ground (arith, executable, at, e);
        in_budget = within_budget lots le;
        paid = λ e. rw at (bought_paid (tick_price t o w.candle) lots (bought e)).0;
        reserve_kept =
            λ e long. rw at ((bought_paid (tick_price t o w.candle) lots (bought e)).1 more long);
        not_short = sold;
      }
