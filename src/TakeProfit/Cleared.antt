-- ===== src/TakeProfit/Cleared.antt =====
-- The sale of a take-profit comes after the verified end of the stop order.
use moex_tinvest_bot.Base.{true, some, List, [], ◌∷◌, ◌≡◌, ◌≤◌, ◌⊎◌, keep}
use moex_tinvest_bot.Base.Result
use moex_tinvest_bot.Base.Result.{Result, ok}
use moex_tinvest_bot.Domain.{Text, Nanos}
use moex_tinvest_bot.Journal.{Journal}
use moex_tinvest_bot.Protection.{Names, ProtectionPlan, Protected, Store, Stop, text_is, plan_row}
use moex_tinvest_bot.Live.{ProdLongPolicy, LivePermission, LiveState}
use moex_tinvest_bot.Live.Attempt.{LiveNames}
use moex_tinvest_bot.Supervised.{Desk}
use moex_tinvest_bot.TakeProfit.{ExitAnswers, known_stop, is_canceled}

module _ (names : LiveNames) (plan_names : Names) (exit_id : Text → Text) (plan : ProtectionPlan)
    (policy : ProdLongPolicy) (permission : LivePermission) (release : Text) (a : ExitAnswers) where
  -- The stop order of the plan was known as active, was cancelled after the gate had opened again, and the
  -- broker's history then shows it cancelled, without a child, as the only order of its id; the bid of
  -- the production account had reached the target.
  pub record IsCleared (plans : Store) : Type 0 where
    pub target : Nanos
    pub wanted : plan.take_profit ≡ some target
    pub row : Protected
    pub found : (plan_row plan_names plan plans).0 ≡ ok row
    pub id : Text
    pub known : known_stop names plan_names exit_id plan policy permission release a row ≡ ok id
    pub gate_open : a.second_gate ≡ ok tt
    pub cancelled : a.cancelled ≡ ok tt
    pub listed : List Stop
    pub read_back : a.history_after ≡ ok listed
    pub ended : Stop
    pub only : keep (λ s. text_is id s.stop_order_id) listed ≡ ended ∷ []
    pub verified :
        is_canceled names plan_names exit_id plan policy permission release a ended ≡ true
    pub seen : LiveState
    pub captured : a.captured ≡ ok seen
    pub reached : target ≤ seen.bid

  -- A run hands no order to the broker, or the plan's stop order has ended before.
  abbrev pub Sells : Desk → Desk → Type 0
  Sells d t = (t.live.submits ≡ d.live.submits) ⊎ IsCleared d.plans
