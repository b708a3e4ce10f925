-- ===== src/TakeProfit.antt =====
-- src/moex_bot/take_profit.py: `active_stop`, `exit_intent`, `precheck` and `run_exit`, on the two stores of
-- Supervised. The gates, the clock and the broker's answers are arguments.
mod Cleared
mod Tests
use moex_tinvest_bot.Base.{
  ℕ, Bool, true, false, not, ◌&&◌, ◌||◌, Option, none, some, List, [], ◌∷◌, ◌+◌, ◌*◌, ltb, leb,
  ◌==◌, keep, if◌then◌else◌,
}
use moex_tinvest_bot.Base.Result
use moex_tinvest_bot.Base.Result.{⊤, Result, ok, err, or_raise}
use moex_tinvest_bot.Base.Exec.{Exec, pure, raise, lift, gets, ◌>>=◌, ◌>>◌, raise_if}
use moex_tinvest_bot.Domain.{
  DomainError, check_intent, Text, Nanos, Moment, OrderIntent, OrderRecord, sell, limit, filled,
  status_eq,
}
use moex_tinvest_bot.Journal.{Journal}
use moex_tinvest_bot.Protection.{
  Names, ProtectionPlan, ProtectionError, Protected, Store, State, active, exit_cancel_pending,
  exit_stop_cancelled, closed_take_profit, Stop, text_is, is_verified, registered_live_journal,
  plan_row, set_plan_state, update_one, StopStatus, active_stop, canceled_stop, already_reserved,
}
use moex_tinvest_bot.Live.{
  ProdLongPolicy, LivePermission, LiveState, LiveError, validate_permission, authorize_live,
}
use moex_tinvest_bot.Live.Ledger.{LedgerError, ledger_summary}
use moex_tinvest_bot.Live.Attempt.{LiveNames, LiveBroker, Clock, LiveStore, ExecuteError, moment_of}
use moex_tinvest_bot.Live.Execute.{Executed, execute_live_intent}
use moex_tinvest_bot.Supervised.{Desk, expires_by}

pub data ExitError : Type 0 where
  no_target wrong_ledger late_approval gate_failed no_active_stop conflicting_stops
        mismatched_stop :
      ExitError
  wrong_broker not_reached no_history raced ambiguous_exit broker_raised : ExitError
  bad_intent : DomainError → ExitError
  bad_permission : LiveError → ExitError
  plan_refused : ProtectionError → ExitError
  ledger_refused : LedgerError → ExitError
  not_authorized : LiveError → ExitError
  execution_failed : ExecuteError → ExitError

abbrev pub Leaving : Type 0 → Type 0
Leaving = Exec Desk ExitError

abbrev as_exit : {E A : Type 0} → (E → ExitError) → Result E A → Result ExitError A
as_exit f (ok a) = ok a
as_exit f (err e) = err (f e)

abbrev on_live : {A : Type 0} → Executed A → Leaving A
on_live m d = (as_exit execution_failed (m d.live).0, record d { live = (m d.live).1 })

abbrev on_plans : {A : Type 0} → Exec Store ProtectionError A → Leaving A
on_plans m d = (as_exit plan_refused (m d.plans).0, record d { plans = (m d.plans).1 })

-- The answers during one exit.
pub record ExitAnswers : Type 0 where
  pub broker : LiveBroker
  pub stop_account : Text
  pub stop_is_prod : Bool
  pub clock : Clock
  pub at_check : Moment
  pub at_expiry : Moment
  pub at_precheck : Moment
  pub first_gate : Result ExitError ⊤
  pub second_gate : Result ExitError ⊤
  pub before_submit : Result ExecuteError ⊤
  pub captured : Result ExitError LiveState
  pub history : Result ExitError (List Stop)
  pub cancelled : Result ExitError ⊤
  pub history_after : Result ExitError (List Stop)

-- The code of "supervised synthetic take-profit".
abbrev exit_rationale : Text
exit_rationale = 24

module _ (names : LiveNames) (plan_names : Names) (exit_id : Text → Text) (plan : ProtectionPlan)
    (policy : ProdLongPolicy) (permission : LivePermission) (release : Text) (a : ExitAnswers) where
  -- `exit_intent`, of a target price; `exit_id` is the version 5 UUID
  abbrev pub exit_intent : Nanos → OrderIntent
  exit_intent target = record {
    order_request_id = exit_id (plan_names.request_id plan);
    instrument = plan.instrument;
    side = sell;
    lots = 1;
    limit_price = target;
    notional = target * plan.instrument.lot_size;
    rationale = exit_rationale;
    confirm_margin_trade = false;
    order_type = limit;
  }

  abbrev is_active_row : Protected → Bool
  is_active_row r = elim r.state [ active ↦ true | _ ↦ false ]

  -- The stop order, if it is the only one of the instrument and verified.
  abbrev sole_stop : Text → List Stop → Result ExitError Text
  sole_stop id [] = err conflicting_stops
  sole_stop id (s ∷ []) =
      Result.◌>>◌ (Result.raise_if (not (text_is id s.stop_order_id)) conflicting_stops)
        (Result.◌>>◌ (Result.raise_if (not (is_verified plan s)) mismatched_stop) (ok id))
  sole_stop id (s ∷ u ∷ ss) = err conflicting_stops

  -- `active_stop`, of the row of the plan
  pub known_stop : Protected → Result ExitError Text
  known_stop row = Result.◌>>=◌ (or_raise row.stop_id no_active_stop) λ id.
      Result.◌>>◌
        (Result.raise_if
          (not (
            is_active_row row
            && not (id == 0)
            && a.stop_account == plan.account_id
            && a.stop_is_prod))
          no_active_stop)
        (Result.◌>>=◌ a.history
          λ listed. sole_stop id (keep (λ s. text_is plan.instrument.uid s.instrument_uid) listed))

  -- `precheck`, on the journal
  pub precheck : OrderIntent → Journal → Result ExitError ⊤
  precheck o j =
      Result.◌>>◌
        (Result.raise_if (not (a.broker.is_prod && a.broker.account_id == plan.account_id))
          wrong_broker)
        (Result.◌>>=◌ a.captured λ state.
          Result.◌>>◌
            (Result.raise_if
              (not (state.account_id == plan.account_id) || ltb state.bid o.limit_price)
              not_reached)
            (Result.◌>>=◌
              (as_exit ledger_refused (
                ledger_summary names.moscow_day j.rows (names.scope plan.account_id)
                  (moment_of a.at_precheck)))
              λ m. as_exit not_authorized (
                authorize_live o policy
                  (record state {
                    stop_uids = keep (λ u. not (u == plan.instrument.uid)) state.stop_uids;
                  })
                  m.owned m.attempts m.turnover a.at_precheck)))

  -- `WHERE request_id=? AND state='ACTIVE' AND stop_id=?`
  abbrev is_exit_row : Text → Protected → Bool
  is_exit_row id r =
      r.request_id == plan_names.request_id plan && is_active_row r && text_is id r.stop_id

  abbrev is_canceled : Stop → Bool
  is_canceled s =
      (elim s.stop_status [ canceled_stop ↦ true | _ ↦ false ])
      && not s.has_activated_child
      && is_verified plan (record s { stop_status = active_stop })

  -- The readback after the cancellation.
  pub check_canceled : Text → List Stop → Result ExitError ⊤
  check_canceled id [] = err no_history
  check_canceled id (s ∷ []) = Result.raise_if (not (is_canceled s)) raced
  check_canceled id (s ∷ u ∷ ss) = err no_history

  -- The stop order is cancelled at the broker, and that is verified.
  pub cancel_stop : Text → Result ExitError ⊤
  cancel_stop id = Result.◌>>◌ a.second_gate (
      Result.◌>>◌ a.cancelled (
        Result.◌>>=◌ a.history_after
          λ listed. check_canceled id (keep (λ s. text_is id s.stop_order_id) listed)))

  abbrev is_sold : Option OrderRecord → Bool
  is_sold none = false
  is_sold (some r) = status_eq r.status filled && r.filled_lots == 1

  -- The sale, once no stop order is left.
  pub sell_out : OrderIntent → Text → Leaving ⊤
  sell_out o id = do
    on_plans (
        set_plan_state (plan_names.request_id plan) (plan_names.digest plan) exit_stop_cancelled
          (some id))
    result ←
        on_live
          (execute_live_intent names a.broker o policy permission release a.before_submit a.clock)
    raise_if (not (is_sold result)) ambiguous_exit
    on_plans (
        set_plan_state (plan_names.request_id plan) (plan_names.digest plan) closed_take_profit
          (some id))

  -- `run_exit`, of a target price
  exit_at : Nanos → Leaving ⊤
  exit_at target = do
    lift (as_exit bad_intent (check_intent (exit_intent target)))
    lift (
        as_exit bad_permission (
          validate_permission names.digests permission plan.account_id (exit_intent target) policy
            release a.at_check))
    book ← gets (λ d. d.live.book)
    identity ← lift (as_exit plan_refused (registered_live_journal book plan.account_id))
    raise_if (not (permission.journal_uuid == identity)) wrong_ledger
    raise_if (expires_by permission a.at_expiry 120_000_000) late_approval
    lift a.first_gate
    row ← on_plans (plan_row plan_names plan)
    id ← lift (known_stop row)
    lift (precheck (exit_intent target) book.journal)
    on_plans (update_one (is_exit_row id) exit_cancel_pending already_reserved)
    lift (cancel_stop id)
    sell_out (exit_intent target) id

  pub exit_with : Option Nanos → Leaving ⊤
  exit_with none = raise no_target
  exit_with (some target) = exit_at target

  pub run_exit : Leaving ⊤
  run_exit = exit_with plan.take_profit
