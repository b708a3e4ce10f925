-- ===== src/Config/Tests.antt =====
-- A configuration without errors, one with some, and the theorem at the first.
use moex_tinvest_bot.Base.{◌≡◌, ◌↔◌, refl, [], ◌∷◌, true}
use moex_tinvest_bot.Config.{
  validate, limit_errors, signal_errors, short_errors, target_errors, margin_without_shorts,
  order_above_turnover, bad_turnover,
}
use moex_tinvest_bot.Config.Valid.{IsUsable, IsUsableStrategy, IsUsableShort, validate-IsUsable}
use moex_tinvest_bot.Samples.{config, strategy}

no_errors : validate config ≡ []
unfolding validate limit_errors signal_errors short_errors target_errors
no_errors = refl

several_errors :
    validate (record config { allow_margin = true; max_daily_turnover = 0 })
    ≡ bad_turnover ∷ order_above_turnover ∷ margin_without_shorts ∷ []
unfolding validate limit_errors signal_errors short_errors target_errors
several_errors = refl

validate-IsUsable_example :
    (validate config ≡ []) ↔ (IsUsable config × IsUsableStrategy strategy × IsUsableShort config)
validate-IsUsable_example = validate-IsUsable config
