-- ===== src/Supervised.antt =====
-- src/moex_bot/supervised_execution.py: `read_parent` and `run_supervised_entry`, on the entry journal's
-- store and the store of protection plans. The readings of the clocks, the gates of the caller and the
-- broker's answers are arguments.
pub mod Poll
mod Entered
pub mod Outcome
mod Tests
use moex_tinvest_bot.Base.{
  ℕ, zero, suc, Bool, true, false, not, ◌&&◌, ◌||◌, Option, none, some, List, [], ◌∷◌, ◌+◌, ◌*◌,
  ltb, leb, ◌==◌, find, if◌then◌else◌,
}
use moex_tinvest_bot.Base.Result
use moex_tinvest_bot.Base.Result.{⊤, Result, ok, err, or_raise}
use moex_tinvest_bot.Base.Exec.{Exec, pure, raise, lift, gets, ◌>>=◌, ◌>>◌, raise_if}
use moex_tinvest_bot.Domain.{
  Text, Moment, aware, OrderIntent, OrderRecord, OrderStatus, filled, cancelled, rejected, buy,
  side_eq, status_eq, is_terminal, instrument_eq, check_instrument, check_intent, DomainError,
}
use moex_tinvest_bot.Journal.{Row, JournalError, is_request, record_result}
use moex_tinvest_bot.Protection.{
  Names, ProtectionPlan, ProtectionError, PlanError, Protected, Store, State, active, EntryBook,
  Broker, registered_live_journal, share, prepare, plan_row, activate, as_plan_error, validate,
  is_planned,
}
use moex_tinvest_bot.Live.{ProdLongPolicy, LivePermission, LiveError, validate_permission}
use moex_tinvest_bot.Live.Attempt.{
  LiveNames, LiveBroker, Clock, LiveStore, ExecuteError, raised_by_caller, as_error,
}
use moex_tinvest_bot.Live.Execute.{Executed, execute_live_intent, keep_record}

pub data SupervisedError : Type 0 where
  wrong_pair late_approval gate_failed not_planned missing_parent ambiguous_entry unprotected
        broker_raised :
      SupervisedError
  bad_permission : LiveError → SupervisedError
  plan_refused : ProtectionError → SupervisedError
  execution_failed : ExecuteError → SupervisedError
  bad_stored : DomainError → SupervisedError
  no_share : SupervisedError

-- The two stores of a run.
pub record Desk : Type 0 where
  pub live : LiveStore
  pub plans : Store

abbrev pub Running : Type 0 → Type 0
Running = Exec Desk SupervisedError

abbrev as_supervised :
    {E A : Type 0} → (E → SupervisedError) → Result E A → Result SupervisedError A
as_supervised f (ok a) = ok a
as_supervised f (err e) = err (f e)

-- A call on one of the stores.
abbrev pub on_live : {A : Type 0} → Executed A → Running A
on_live m d = (as_supervised execution_failed (m d.live).0, record d { live = (m d.live).1 })

abbrev pub on_plans : {A : Type 0} → Exec Store ProtectionError A → Running A
on_plans m d = (as_supervised plan_refused (m d.plans).0, record d { plans = (m d.plans).1 })

pub data EntryOutcome : Type 0 where
  entry_not_filled filled_protected : EntryOutcome

-- What a run is given beside the stores: the order, its plan and permission, the waiting time in seconds.
pub record Entry : Type 0 where
  pub intent : OrderIntent
  pub policy : ProdLongPolicy
  pub permission : LivePermission
  pub release : Text
  pub plan : ProtectionPlan
  pub confirmed_digest : Text
  pub wait_seconds : ℕ
  pub separate_journals : Bool

-- The answers during one run. `monotonic`, in microseconds, is first read for the deadline, and then by the
-- round of the loop that waits, from 1 on.
pub record Answers : Type 0 where
  pub broker : LiveBroker
  pub stop_broker : Broker
  pub clock : Clock
  pub at_check : Moment
  pub at_check_expiry : Moment
  pub at_gate : Moment
  pub at_gate_expiry : Moment
  -- an error of the gate is an `OSError` or a `ValueError`
  pub gate_is_caught : Bool
  pub approval : Result SupervisedError ⊤
  pub entry_approval : Result SupervisedError ⊤
  pub approval_before_submit : Result SupervisedError ⊤
  pub cancel_gate : Result SupervisedError ⊤
  pub monotonic : ℕ → ℕ
  pub polled : ℕ → OrderRecord → Result SupervisedError OrderRecord
  pub recorded_at : ℕ → Moment
  pub cancelled_entry : Result SupervisedError ⊤
  pub after_cancel : OrderRecord → Result SupervisedError OrderRecord
  pub after_cancel_at : Moment

-- `permission.expires_at - clock() < timedelta(...)`, of a number of microseconds
abbrev pub expires_by : LivePermission → Moment → ℕ → Bool
expires_by p now left = elim p.expires_at [
  | aware b ↦ elim now [ aware a ↦ ltb b (a + left) | _ ↦ true ]
  | _ ↦ true
]

-- Within 180 seconds.
abbrev pub expires_soon : LivePermission → Moment → Bool
expires_soon p now = expires_by p now 180_000_000

abbrev is_done : OrderRecord → Bool
is_done r = is_terminal r.status

abbrev is_unfilled : OrderRecord → Bool
is_unfilled r = (status_eq r.status cancelled || status_eq r.status rejected) && r.filled_lots == 0

abbrev is_filled : OrderRecord → Bool
is_filled r = status_eq r.status filled && r.filled_lots == 1

module _ (names : LiveNames) (plan_names : Names) (entry : Entry) (a : Answers) where
  -- The conditions on the pair of an order and its plan.
  abbrev pub is_pair : Bool
  is_pair =
      side_eq entry.intent.side buy
      && entry.intent.lots == 1
      && entry.plan.account_id == a.broker.account_id
      && entry.plan.entry_logical_id == entry.intent.order_request_id
      && entry.plan.entry_request_id
        == names.entry_id (names.scope a.broker.account_id) entry.intent.order_request_id
      && a.stop_broker.account_id == a.broker.account_id
      && a.stop_broker.is_prod
      && instrument_eq entry.plan.instrument entry.intent.instrument
      && entry.plan.entry_price == entry.intent.limit_price
      && plan_names.digest entry.plan == entry.confirmed_digest
      && leb 1 entry.wait_seconds
      && leb entry.wait_seconds 30

  abbrev permitted_at : Moment → Result SupervisedError ⊤
  permitted_at now = as_supervised bad_permission (
      validate_permission names.digests entry.permission a.broker.account_id entry.intent
        entry.policy entry.release now)

  -- The closure `gate`, on the plans as they are.
  pub gate : Store → Result SupervisedError ⊤
  gate plans = Result.◌>>◌ (permitted_at a.at_gate) (
      Result.◌>>◌ (Result.raise_if (expires_soon entry.permission a.at_gate_expiry) late_approval) (
        Result.◌>>◌ a.entry_approval (
          Result.◌>>=◌ (as_supervised plan_refused (plan_row plan_names entry.plan plans).0) λ row.
            Result.◌>>◌ (Result.raise_if (not (is_planned row.state)) not_planned)
              a.approval_before_submit)))

  -- As `execute_live_intent` meets it.
  abbrev gate_result : Result SupervisedError ⊤ → Result ExecuteError ⊤
  gate_result (ok u) = ok u
  gate_result (err e) = err (raised_by_caller a.gate_is_caught)

  -- `read_parent`, with the checks of the decoder
  abbrev check_stored : OrderRecord → Result SupervisedError ⊤
  check_stored r = Result.◌>>◌ (as_supervised bad_stored (check_instrument r.intent.instrument)) (
      Result.◌>>◌ (Result.raise_if (not (r.intent.instrument.asset_class == share)) no_share)
        (as_supervised bad_stored (check_intent r.intent)))

  pub read_parent : Running OrderRecord
  read_parent = do
    book ← gets (λ d. d.live.book)
    identity ←
        lift (as_supervised plan_refused (registered_live_journal book entry.plan.account_id))
    row ← lift (
        or_raise
          (find (is_request (names.scope entry.plan.account_id) entry.plan.entry_request_id)
            book.journal.rows)
          missing_parent)
    lift (check_stored row.saved)
    pure row.saved

  -- The loop that waits, on fuel, from a round on; no record where the fuel has run out.
  pub poll : ℕ → ℕ → ℕ → OrderRecord → Running (Option OrderRecord)
  poll zero round deadline parent = pure none
  poll (suc fuel) round deadline parent =
      if is_done parent || not (ltb (a.monotonic round) deadline)
      then pure (some parent)
      else lift (a.polled round parent) >>= λ seen.
          on_live (keep_record names a.broker seen (a.recorded_at round))
          >> poll fuel (round + 1) deadline seen

  -- The cancellation of an entry that is still open.
  pub cancel_open : OrderRecord → Running OrderRecord
  cancel_open parent = if is_done parent then pure parent else do
    lift a.cancel_gate
    lift a.cancelled_entry
    seen ← lift (a.after_cancel parent)
    on_live (keep_record names a.broker seen a.after_cancel_at)
    pure seen

  -- The protection of a filled entry.
  pub protect : Running EntryOutcome
  protect = do
    book ← gets (λ d. d.live.book)
    state ← on_plans (activate plan_names entry.plan book a.stop_broker)
    raise_if (elim state [ active ↦ false | _ ↦ true ]) unprotected
    pure filled_protected

  -- By the entry as it ended.
  pub finish : OrderRecord → Running EntryOutcome
  finish parent =
      if is_unfilled parent
      then pure entry_not_filled
      else if not (is_filled parent)
      then raise ambiguous_entry
      else protect

  -- By what the loop returned.
  pub after_poll : Option OrderRecord → Running EntryOutcome
  after_poll none = raise broker_raised
  after_poll (some parent) = cancel_open parent >>= finish

  -- From the submission of the entry on.
  pub enter : ℕ → Running EntryOutcome
  enter fuel = do
    gated ← gets (λ d. gate_result (gate d.plans))
    executed ← on_live (
        execute_live_intent names a.broker entry.intent entry.policy entry.permission entry.release
          gated a.clock)
    parent ← read_parent
    seen ← poll fuel 1 (a.monotonic 0 + entry.wait_seconds * 1_000_000) parent
    after_poll seen

  -- `run_supervised_entry`
  pub run_supervised_entry : ℕ → Running EntryOutcome
  run_supervised_entry fuel = do
    lift (as_supervised plan_refused (as_plan_error (validate plan_names.is_uuid entry.plan)))
    raise_if (not is_pair) wrong_pair
    lift (permitted_at a.at_check)
    raise_if (expires_soon entry.permission a.at_check_expiry) late_approval
    lift a.approval
    book ← gets (λ d. d.live.book)
    request ← on_plans (prepare plan_names entry.plan book entry.separate_journals)
    enter fuel
