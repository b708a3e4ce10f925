-- ===== src/Live/Authorized.antt =====
-- What an order that the production gate lets through satisfies.
use moex_tinvest_bot.Base.{ℕ, true, false, ◌+◌, ◌*◌, ◌%◌, ◌≡◌, ◌≤◌, ◌<◌, arith, max}
use moex_tinvest_bot.Base.Int.{ℤ, pos, ◌+ℤ◌, ◌≤ℤ◌}
use moex_tinvest_bot.Base.Result.{ok_then, ok_bind, ok}
use moex_tinvest_bot.Domain.{
  Nanos, Moment, instrument_eq, instrument_eq_sound, OrderIntent, Side, buy, sell,
}
use moex_tinvest_bot.Portfolio.{Dict, lookup, member}
use moex_tinvest_bot.Live.{
  ProdLongPolicy, LiveState, check_account, check_order, check_book, check_day, check_sell,
  check_buy, check_side, check_positions, add_owned, authorize_live, order_value, order_units,
  units_of, is_free, is_within, exposure_in, is_concentrated, gap,
}

-- An order that any side may send.
pub record IsAdmitted (o : OrderIntent) (policy : ProdLongPolicy) (s : LiveState) (count : ℕ)
    (reserved : Nanos) (now : Moment) : Type 0 where
  pub fresh : (is_within s.started_at now 20 ≡ true) × (is_within s.book_at now 10 ≡ true)
  pub same_instrument : s.instrument ≡ o.instrument
  pub unmargined : o.confirm_margin_trade ≡ false
  pub listed :
      (member o.instrument.secid policy.allowed_secids ≡ true)
      × (member o.instrument.secid policy.protected_secids ≡ false)
  pub on_tick : o.limit_price % o.instrument.tick_size ≡ 0
  pub priced : o.notional ≡ order_value o
  pub small : o.notional ≤ policy.canary.max_order_notional_rub
  pub near : gap (2 * o.limit_price) (s.ask + s.bid) * 100 ≤ s.ask + s.bid
  pub alone : (s.active_orders ≡ 0) × (member o.instrument.uid s.stop_uids ≡ false)
  pub slot_free : count < policy.canary.max_orders_per_day
  pub turnover : max s.daily_turnover reserved + o.notional ≤ policy.canary.max_daily_turnover_rub

pub record IsFunded (o : OrderIntent) (policy : ProdLongPolicy) (s : LiveState) (owned : Dict ℤ)
    (gross : ℤ) : Type 0 where
  pub fee : (o.notional ≤ s.estimated_total) × (s.estimated_total * 1000 ≤ o.notional * 1005)
  pub paid : s.estimated_total ≤ s.cash_available
  pub capital : gross +ℤ pos s.estimated_total ≤ℤ pos policy.canary.capital_limit_rub
  pub issuer :
      is_concentrated
        (exposure_in (λ i. i.issuer_id) o.instrument owned s.positions)
        o.notional
        policy.canary.capital_limit_rub
        25
      ≡ false
  pub sector :
      is_concentrated
        (exposure_in (λ i. i.sector) o.instrument owned s.positions)
        o.notional
        policy.canary.capital_limit_rub
        50
      ≡ false
  pub cluster :
      is_concentrated
        (exposure_in (λ i. i.risk_cluster) o.instrument owned s.positions)
        o.notional
        policy.canary.capital_limit_rub
        50
      ≡ false

module _ (o : OrderIntent) (policy : ProdLongPolicy) (s : LiveState) where
  account_fresh :
      (now : Moment)
      → check_account policy s now ≡ ok tt
      → (is_within s.started_at now 20 ≡ true) × (is_within s.book_at now 10 ≡ true)
  unfolding check_account
  account_fresh now h = ground arith

  order_admitted :
      check_order o policy s ≡ ok tt
      → (instrument_eq s.instrument o.instrument ≡ true)
        × (o.confirm_margin_trade ≡ false)
        × (member o.instrument.secid policy.allowed_secids ≡ true)
        × (member o.instrument.secid policy.protected_secids ≡ false)
        × (o.limit_price % o.instrument.tick_size ≡ 0)
        × (o.notional ≡ order_value o)
        × (order_value o ≤ policy.canary.max_order_notional_rub)
  unfolding check_order
  order_admitted h = ground arith

  book_admitted :
      check_book o s ≡ ok tt
      → (gap (2 * o.limit_price) (s.ask + s.bid) * 100 ≤ s.ask + s.bid)
        × (s.active_orders ≡ 0)
        × (member o.instrument.uid s.stop_uids ≡ false)
  unfolding check_book
  book_admitted h = ground arith

  day_admitted :
      (count : ℕ) (turnover : Nanos)
      → check_day o policy s count turnover ≡ ok tt
      → (count < policy.canary.max_orders_per_day)
        × (max s.daily_turnover turnover + order_value o ≤ policy.canary.max_daily_turnover_rub)
  unfolding check_day
  day_admitted count turnover h = ground arith

  sell_covered :
      (owned : Dict ℤ)
      → check_sell o s owned ≡ ok tt
      → (pos (order_units o) ≤ℤ units_of o.instrument.uid owned)
        × (is_free (order_units o) (lookup o.instrument.uid s.positions) ≡ true)
  unfolding check_sell
  sell_covered owned h = ground arith

  check_buy-IsFunded :
      (owned : Dict ℤ) (gross : ℤ)
      → o.notional ≡ order_value o
      → check_buy o policy s owned gross ≡ ok tt
      → IsFunded o policy s owned gross
  unfolding check_buy
  check_buy-IsFunded owned gross priced h = record {
    fee = ground arith;
    paid = ground arith;
    capital = ground arith;
    issuer = ground arith;
    sector = ground arith;
    cluster = ground arith;
  }

  sells_by :
      (owned : Dict ℤ) (gross : ℤ) (side : Side)
      → side ≡ sell
      → check_side o policy s owned gross side ≡ ok tt
      → check_sell o s owned ≡ ok tt
  unfolding check_side
  sells_by owned gross sell e h = h
  sells_by owned gross buy e h = cc

  buys_by :
      (owned : Dict ℤ) (gross : ℤ) (side : Side)
      → side ≡ buy
      → check_side o policy s owned gross side ≡ ok tt
      → check_buy o policy s owned gross ≡ ok tt
  unfolding check_side
  buys_by owned gross buy e h = h
  buys_by owned gross sell e h = cc

  -- An order that the gate lets through is fresh, for the very instrument that the broker shows,
  -- without margin, on an allowed and unprotected name, on the tick, of exactly its own value, which
  -- is within the order's limit, close to the book, without another order or stop on the account or
  -- name, and within the day's attempts and turnover. A SELL is of no more units than the bot owns
  -- and the broker holds free; a BUY is paid, with its fee, from the cash, and with what the bot
  -- already owns is within the capital limit and the limits on one issuer, sector and cluster.
  pub authorize_live-IsAdmitted :
      (owned : Dict ℤ) (count : ℕ) (turnover : Nanos) (now : Moment)
      → authorize_live o policy s owned count turnover now ≡ ok tt
      → IsAdmitted o policy s count turnover now
        × (o.side ≡ sell
            → (pos (order_units o) ≤ℤ units_of o.instrument.uid owned)
              × (is_free (order_units o) (lookup o.instrument.uid s.positions) ≡ true))
        × (o.side ≡ buy
            → (gross : ℤ) × (add_owned s.positions (pos 0) owned ≡ ok gross)
              × IsFunded o policy s owned gross)
  unfolding authorize_live
  authorize_live-IsAdmitted owned count turnover now h =
      let (h1, k1) = ok_then (check_account policy s now) _ tt h in
      let (h2, k2) = ok_then (check_order o policy s) _ tt k1 in
      let (h3, k3) = ok_then (check_book o s) _ tt k2 in
      let (h4, k4) = ok_then (check_day o policy s count turnover) _ tt k3 in
      let (gross, h5, k5) = ok_bind (add_owned s.positions (pos 0) owned) _ tt k4 in
      let (_, k6) = ok_then (check_positions policy owned s.positions) _ tt k5 in
      let (same, unmargined, allowed, unprotected, tick, priced, small) = order_admitted h2 in
      let (near, quiet, unstopped) = book_admitted h3 in
      let (slot, turn) = day_admitted count turnover h4 in
      (
        record {
          fresh = account_fresh now h1;
          same_instrument = instrument_eq_sound s.instrument o.instrument same;
          unmargined = unmargined;
          listed = (allowed, unprotected);
          on_tick = tick;
          priced = priced;
          small = rw priced small;
          near = near;
          alone = (quiet, unstopped);
          slot_free = slot;
          turnover = rw priced turn;
        },
        λ sells. sell_covered owned (sells_by owned gross o.side sells k6),
        λ buys.
            (gross, h5, check_buy-IsFunded owned gross priced (buys_by owned gross o.side buys k6)),
      )
