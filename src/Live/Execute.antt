-- ===== src/Live/Execute.antt =====
-- src/moex_bot/live_execution.py: `execute_live_intent` and `reconcile_live_journal`, on the entry
-- journal's file and the list of the request ids that were handed to the broker;
-- `decode_validated_intent` of src/moex_bot/sandbox_execution.py, applied to a stored order.
pub mod Begins
pub mod Submits
pub mod Approved
mod Tests
use moex_tinvest_bot.Base.{
  ℕ, Bool, true, false, not, ◌&&◌, ◌||◌, Option, none, some, List, [], ◌∷◌, ◌++◌, ◌==◌, length,
  if◌then◌else◌,
}
use moex_tinvest_bot.Base.Result
use moex_tinvest_bot.Base.Result.{⊤, Result, ok, err}
use moex_tinvest_bot.Base.Exec.{Exec, pure, raise, lift, gets, ◌>>=◌, ◌>>◌, raise_if, modify}
use moex_tinvest_bot.Domain.{
  Text, Moment, OrderIntent, OrderRecord, rejected, check_instrument, check_intent, DomainError,
}
use moex_tinvest_bot.Order.{text_or}
use moex_tinvest_bot.Journal.{Journal, JournalError, reserve, record_result, unresolved}
use moex_tinvest_bot.Protection.{EntryBook, registered_live_journal, share}
use moex_tinvest_bot.Live.{ProdLongPolicy, LivePermission}
use moex_tinvest_bot.Live.Policy.{validate_policy, canary_stage}
use moex_tinvest_bot.Live.Attempt.{
  ExecuteError, not_canary, other_ledger, not_share, bad_policy, not_enrolled, journal_raised,
  bad_record, raised_by_caller, LiveNames, LiveBroker, Clock, LiveStore, as_error, permitted,
  authorizer, last_checks,
}

abbrev pub Executed : Type 0 → Type 0
Executed = Exec LiveStore ExecuteError

abbrev pub set_journal : Journal → LiveStore → LiveStore
set_journal j s = record s { book = record (s.book) { journal = j } }

-- A call of a method of `ExecutionJournal`.
abbrev pub on_journal : {A : Type 0} → Exec Journal JournalError A → Executed A
on_journal m s = (as_error journal_raised (m s.book.journal).0, set_journal (m s.book.journal).1 s)

-- `except (OSError, ValueError)`
abbrev is_caught : ExecuteError → Bool
is_caught (raised_by_caller value_error) = value_error
is_caught _ = true

-- The code of the detail that begins with "not_submitted:".
abbrev not_submitted : Text
not_submitted = 23

-- The record of an order that was certainly not sent.
abbrev pub refused_record : OrderIntent → OrderRecord
refused_record sent = record {
  intent = sent;
  status = rejected;
  filled_lots = 0;
  broker_order_id = none;
  status_detail = some not_submitted;
}

module _ (names : LiveNames) (broker : LiveBroker) where
  abbrev pub scope_of : Text
  scope_of = names.scope broker.account_id

  -- `journal.record(scope, ...)`
  abbrev pub keep_record : OrderRecord → Moment → Executed ⊤
  keep_record r now = on_journal (record_result names.payload_digest scope_of r now)

  -- From `broker.submit` on.
  submit_order : OrderIntent → Moment → Executed (Option OrderRecord)
  submit_order sent now = do
    modify (λ s. record s { submits = s.submits ++ sent.order_request_id ∷ [] })
    answer ← lift (broker.submit sent)
    keep_record answer now
    pure (some answer)

  -- By the outcome of the last checks: the handler records that nothing was sent.
  submit_by : OrderIntent → Moment → Result ExecuteError ⊤ → Executed (Option OrderRecord)
  submit_by sent now (ok _) = submit_order sent now
  submit_by sent now (err e) =
      if is_caught e then keep_record (refused_record sent) now >> raise e else raise e

  module _ (o : OrderIntent) (policy : ProdLongPolicy) (permission : LivePermission)
      (release : Text) where
    -- By the id that `reserve` returned.
    pub submit_reserved :
        Result ExecuteError ⊤ → Clock → Option Text → Executed (Option OrderRecord)
    submit_reserved before_submit clock none = pure none
    submit_reserved before_submit clock (some id) =
        submit_by (record o { order_request_id = id }) clock.at_record
          (last_checks names o policy broker permission release before_submit clock.at_submit)

    abbrev pub reserve_live : Clock → Executed (Option Text)
    reserve_live clock = on_journal (
        reserve names.payload_digest scope_of o o.order_request_id clock.at_reserve false
          (some (authorizer names o policy broker permission release clock.at_authorize))
          (names.entry_id scope_of o.order_request_id))

    -- `execute_live_intent`
    pub execute_live_intent : Result ExecuteError ⊤ → Clock → Executed (Option OrderRecord)
    execute_live_intent before_submit clock = do
      raise_if (not (broker.is_prod && policy.execution_stage == canary_stage)) not_canary
      lift (as_error bad_policy (validate_policy policy))
      lift (permitted names o policy broker permission release clock.at_start)
      book ← gets (λ s. s.book)
      identity ← lift (as_error not_enrolled (registered_live_journal book broker.account_id))
      raise_if (not (permission.journal_uuid == identity)) other_ledger
      id ← reserve_live clock
      submit_reserved before_submit clock id

  -- `decode_validated_intent` of a stored order; the constructors check what they build.
  decode_stored : OrderRecord → Result ExecuteError OrderRecord
  decode_stored r = Result.◌>>◌ (as_error bad_record (check_instrument r.intent.instrument)) (
      Result.◌>>◌ (Result.raise_if (not (r.intent.instrument.asset_class == share)) not_share) (
        Result.◌>>◌ (as_error bad_record (check_intent r.intent)) (
          ok
            (record r { broker_order_id = text_or r.broker_order_id none; status_detail = none }))))

  -- The loop of `reconcile_live_journal` over the unresolved orders, with a reading of the clock for
  -- each call of `record`.
  reconcile_orders : (OrderRecord → Moment) → List OrderRecord → Executed ⊤
  reconcile_orders clock [] = pure tt
  reconcile_orders clock (r ∷ rs) = do
    stored ← lift (decode_stored r)
    answer ← lift (broker.lookup_order stored)
    keep_record answer (clock r)
    reconcile_orders clock rs

  -- `reconcile_live_journal`
  pub reconcile_live_journal : (OrderRecord → Moment) → Executed ℕ
  reconcile_live_journal clock = do
    raise_if (not broker.is_prod) not_canary
    book ← gets (λ s. s.book)
    identity ← lift (as_error not_enrolled (registered_live_journal book broker.account_id))
    open_orders ← gets (λ s. unresolved scope_of s.book.journal)
    reconcile_orders clock open_orders
    gets (λ s. length (unresolved scope_of s.book.journal))
