-- ===== src/Live/Policy.antt =====
-- src/moex_bot/prod_long.py: `validate_prod_long_policy`, and what it makes of the production gate. A
-- set of names is a list without repetitions.
mod Tests
use moex_tinvest_bot.Base.{
  ℕ, Bool, true, false, not, ◌&&◌, ◌||◌, List, [], ◌∷◌, ◌+◌, ◌*◌, ◌≡◌, ◌≢◌, ◌≤◌, ◌<◌, refl, arith,
  ltb, leb, ◌==◌, any, all, length, max, if◌then◌else◌,
}
use moex_tinvest_bot.Base.Int.{ℤ, pos, ◌+ℤ◌, ◌≤ℤ◌}
use moex_tinvest_bot.Base.Result.{⊤, Result, ok, err, ◌>>=◌, ◌>>◌, raise_if}
use moex_tinvest_bot.Domain.{Text, Nanos, Moment, OrderIntent, buy}
use moex_tinvest_bot.Portfolio.{Dict, member}
use moex_tinvest_bot.Live.{ProdLongPolicy, LiveState, authorize_live, add_owned}
use moex_tinvest_bot.Live.Authorized.{IsAdmitted, IsFunded, authorize_live-IsAdmitted}

pub data PolicyError : Type 0 where
  bad_version bad_stage bad_variable bad_account_type bad_manual_policy managed_protected :
      PolicyError
  allowed_protected managed_not_allowed not_twenty above_hard_limits not_positive : PolicyError
  order_above_capital order_above_turnover bad_attempts bad_loss_weight margin_set not_shares :
      PolicyError

-- The codes of "canary", "observer", "T_INVEST_PROD_ACCOUNT_ID", "ACCOUNT_TYPE_TINKOFF_IIS", "protect"
-- and "share".
abbrev pub canary_stage : Text
canary_stage = 18

abbrev pub observer_stage : Text
observer_stage = 22

abbrev account_variable : Text
account_variable = 20

abbrev iis_account : Text
iis_account = 19

abbrev protect : Text
protect = 21

abbrev is_shares : List Text → Bool
is_shares [] = false
is_shares (c ∷ []) = c == 2
is_shares (c ∷ d ∷ cs) = false

-- Some name stands in both sets.
abbrev meet : List Text → List Text → Bool
meet a b = any (λ s. member s b) a

-- The initial limits in nanos of a rouble, where the stage is "canary".
abbrev exceeds_hard_limits : ProdLongPolicy → Bool
exceeds_hard_limits p =
    p.execution_stage == canary_stage
    && (ltb 40_000_000_000_000 p.canary.capital_limit_rub
        || ltb 10_000_000_000_000 p.canary.max_order_notional_rub
        || ltb 20_000_000_000_000 p.canary.max_daily_turnover_rub
        || ltb 2 p.canary.max_orders_per_day)

-- `validate_prod_long_policy`; the one variable that is accepted has a valid name.
pub validate_policy : ProdLongPolicy → Result PolicyError ⊤
validate_policy p = do
  raise_if (not (p.version == 1)) bad_version
  raise_if (not (p.execution_stage == observer_stage || p.execution_stage == canary_stage))
      bad_stage
  raise_if (not (p.account_id_env == account_variable)) bad_variable
  raise_if (not (p.account_type == iis_account)) bad_account_type
  raise_if (not (p.manual_position_policy == protect)) bad_manual_policy
  raise_if (meet p.protected_secids p.managed_secids) managed_protected
  raise_if (meet p.protected_secids p.allowed_secids) allowed_protected
  raise_if (not (all (λ s. member s p.allowed_secids) p.managed_secids)) managed_not_allowed
  raise_if (not (length p.allowed_secids == 20)) not_twenty
  raise_if (exceeds_hard_limits p) above_hard_limits
  raise_if
      (p.canary.capital_limit_rub == 0
        || p.canary.max_order_notional_rub == 0
        || p.canary.max_daily_turnover_rub == 0)
      not_positive
  raise_if (ltb p.canary.capital_limit_rub p.canary.max_order_notional_rub) order_above_capital
  raise_if (ltb p.canary.max_daily_turnover_rub p.canary.max_order_notional_rub)
      order_above_turnover
  raise_if (p.canary.max_orders_per_day == 0 || ltb 4 p.canary.max_orders_per_day) bad_attempts
  raise_if
      (p.canary.max_account_daily_loss_weight == 0
        || ltb 20_000_000 p.canary.max_account_daily_loss_weight)
      bad_loss_weight
  raise_if p.canary.allow_margin margin_set
  raise_if (not (is_shares p.canary.allowed_asset_classes)) not_shares

hard_limits :
    (p : ProdLongPolicy)
    → validate_policy p ≡ ok tt
    → p.execution_stage ≡ canary_stage
    → (p.canary.capital_limit_rub ≤ 40_000_000_000_000)
      × (p.canary.max_order_notional_rub ≤ 10_000_000_000_000)
      × (p.canary.max_daily_turnover_rub ≤ 20_000_000_000_000)
      × (p.canary.max_orders_per_day ≤ 2)
unfolding validate_policy
hard_limits p h stage = ground arith

-- Under a valid policy of the canary stage, an order that the production gate lets through is of at
-- most 10,000 RUB, the third or a later attempt of a day is refused, the day's turnover stays within
-- 20,000 RUB with the order, and a BUY leaves the bot with at most 40,000 RUB in its own holdings,
-- fee included.
pub authorize_live-hard_limits :
    (o : OrderIntent) (p : ProdLongPolicy) (s : LiveState) (owned : Dict ℤ) (count : ℕ)
    (turnover : Nanos) (now : Moment)
    → validate_policy p ≡ ok tt
    → p.execution_stage ≡ canary_stage
    → authorize_live o p s owned count turnover now ≡ ok tt
    → (o.notional ≤ 10_000_000_000_000)
      × (count < 2)
      × (max s.daily_turnover turnover + o.notional ≤ 20_000_000_000_000)
      × (o.side ≡ buy
          → (gross : ℤ) × (add_owned s.positions (pos 0) owned ≡ ok gross)
            × (gross +ℤ pos s.estimated_total ≤ℤ pos 40_000_000_000_000))
authorize_live-hard_limits o p s owned count turnover now valid stage h =
    let (capital, notional, day, attempts) = hard_limits p valid stage in
    let (admitted, _, funded) = authorize_live-IsAdmitted o p s owned count turnover now h in
    (
      omega (arith, admitted.small),
      omega (arith, admitted.slot_free),
      omega (arith, admitted.turnover),
      λ buys. let (gross, summed, f) = funded buys in (gross, summed, omega (arith, f.capital)),
    )
