-- ===== src/Live/Tests.antt =====
-- A purchase and a sale at the production gate, and the theorem at the purchase.
use moex_tinvest_bot.Base.{◌≡◌, refl, [], true}
use moex_tinvest_bot.Base.Int.{ℤ, pos, ◌≤ℤ◌, ◌+ℤ◌, ◌-ℤ◌, ◌*ℤ◌}
use moex_tinvest_bot.Base.Result.{ok, err}
use moex_tinvest_bot.Domain.{aware, sell, buy, instrument_eq}
use moex_tinvest_bot.Portfolio.{Dict, lookup}
use moex_tinvest_bot.Live.{
  authorize_live, check_account, check_order, check_book, check_day, add_owned, check_positions,
  check_side, check_buy, check_sell, would_short, order_units, units_of, is_free,
}
use moex_tinvest_bot.Live.Authorized.{IsAdmitted, IsFunded, authorize_live-IsAdmitted}
use moex_tinvest_bot.Samples.{policy, live_state, buy_one}

abbrev pub nothing_owned : Dict ℤ
nothing_owned = []

pub buy_passes :
    authorize_live buy_one policy live_state nothing_owned 0 0 (aware 3_000_000) ≡ ok tt
unfolding authorize_live check_account check_order check_book check_day add_owned check_positions
    check_side check_buy instrument_eq ◌+ℤ◌ ◌-ℤ◌ ◌*ℤ◌
buy_passes = refl

-- What the bot does not own it does not sell.
sell_refused :
    authorize_live
      (record buy_one { side = sell })
      policy
      live_state
      nothing_owned
      0
      0
      (aware 3_000_000)
    ≡ err would_short
unfolding authorize_live check_account check_order check_book check_day add_owned check_positions
    check_side check_sell instrument_eq
sell_refused = refl

authorize_live-IsAdmitted_example :
    IsAdmitted buy_one policy live_state 0 0 (aware 3_000_000)
    × (buy ≡ sell
        → (pos (order_units buy_one) ≤ℤ units_of 11 nothing_owned)
          × (is_free (order_units buy_one) (lookup 11 live_state.positions) ≡ true))
    × (buy ≡ buy
        → (gross : ℤ) × (add_owned live_state.positions (pos 0) nothing_owned ≡ ok gross)
          × IsFunded buy_one policy live_state nothing_owned gross)
authorize_live-IsAdmitted_example =
    authorize_live-IsAdmitted buy_one policy live_state nothing_owned 0 0 (aware 3_000_000)
      buy_passes
