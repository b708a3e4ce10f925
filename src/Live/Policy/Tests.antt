-- ===== src/Live/Policy/Tests.antt =====
-- A valid policy, and the theorem at it and a purchase.
use moex_tinvest_bot.Base.{◌≡◌, ◌≤◌, ◌<◌, ◌+◌, refl, max}
use moex_tinvest_bot.Base.Int.{ℤ, pos, ◌+ℤ◌, ◌≤ℤ◌}
use moex_tinvest_bot.Base.Result.{ok}
use moex_tinvest_bot.Domain.{aware, buy}
use moex_tinvest_bot.Live.{add_owned}
use moex_tinvest_bot.Live.Policy.{validate_policy, authorize_live-hard_limits}
use moex_tinvest_bot.Live.Tests.{buy_passes, nothing_owned}
use moex_tinvest_bot.Samples.{policy, live_state, buy_one}

valid : validate_policy policy ≡ ok tt
unfolding validate_policy
valid = refl

authorize_live-hard_limits_example :
    (buy_one.notional ≤ 10_000_000_000_000)
    × (0 < 2)
    × (max live_state.daily_turnover 0 + buy_one.notional ≤ 20_000_000_000_000)
    × (buy_one.side ≡ buy
        → (gross : ℤ) × (add_owned live_state.positions (pos 0) nothing_owned ≡ ok gross)
          × (gross +ℤ pos live_state.estimated_total ≤ℤ pos 40_000_000_000_000))
authorize_live-hard_limits_example =
    authorize_live-hard_limits buy_one policy live_state nothing_owned 0 0 (aware 3_000_000) valid
      refl buy_passes
