-- ===== src/Live/Attempt.antt =====
-- src/moex_bot/live_execution.py: what `execute_live_intent` reads and checks. A call's clock readings
-- and the broker's answers are arguments.
pub mod Checked
use moex_tinvest_bot.Base.{
  ℕ, Bool, true, false, not, ◌&&◌, ◌||◌, Option, none, some, List, [], ◌∷◌, ◌++◌, ◌==◌,
  if◌then◌else◌,
}
use moex_tinvest_bot.Base.Result.{⊤, Result, ok, err, ◌>>=◌, ◌>>◌, raise_if}
use moex_tinvest_bot.Domain.{Text, Moment, aware, naive, OrderIntent, OrderRecord, DomainError}
use moex_tinvest_bot.Journal.{Journal, JournalError, not_authorized}
use moex_tinvest_bot.Protection.{EntryBook, ProtectionError}
use moex_tinvest_bot.Live.{
  ProdLongPolicy, LiveState, LiveError, bad_account, LivePermission, Digests, authorize_live,
  validate_permission, is_within,
}
use moex_tinvest_bot.Live.Policy.{PolicyError}
use moex_tinvest_bot.Live.Ledger.{ledger_summary, LedgerError}

pub data ExecuteError : Type 0 where
  not_canary other_ledger foreign_state snapshot_expired not_share : ExecuteError
  bad_policy : PolicyError → ExecuteError
  refused : LiveError → ExecuteError
  not_enrolled : ProtectionError → ExecuteError
  journal_raised : JournalError → ExecuteError
  ledger_raised : LedgerError → ExecuteError
  bad_record : DomainError → ExecuteError
  -- raised by the broker or by the caller's gate; the flag says that it is an `OSError` or a
  -- `ValueError`
  raised_by_caller : Bool → ExecuteError

-- What the code takes from outside: digests, UUIDs, the scope `"prod:" + account`, dates in Moscow.
pub record LiveNames : Type 0 where
  pub digests : Digests
  pub payload_digest : OrderIntent → Text
  pub scope : Text → Text
  pub entry_id : Text → Text → Text
  pub moscow_day : ℕ → ℕ

-- The answers of the broker during one call.
pub record LiveBroker : Type 0 where
  pub account_id : Text
  pub is_prod : Bool
  pub capture : Result ExecuteError LiveState
  pub submit : OrderIntent → Result ExecuteError OrderRecord
  pub lookup_order : OrderRecord → Result ExecuteError OrderRecord

-- The readings of the clock, in their order.
pub record Clock : Type 0 where
  pub at_start : Moment
  pub at_reserve : Moment
  pub at_authorize : Moment
  pub at_submit : Moment
  pub at_record : Moment

pub record LiveStore : Type 0 where
  pub book : EntryBook
  pub submits : List Text

abbrev pub as_error : {E A : Type 0} → (E → ExecuteError) → Result E A → Result ExecuteError A
as_error f (ok a) = ok a
as_error f (err e) = err (f e)

abbrev pub moment_of : Moment → ℕ
moment_of (aware t) = t
moment_of (naive t) = t

abbrev pub as_journal_error : Result ExecuteError Moment → Result JournalError Moment
as_journal_error (ok m) = ok m
as_journal_error (err e) = err not_authorized

module _ (names : LiveNames) (o : OrderIntent) (policy : ProdLongPolicy) (broker : LiveBroker)
    (permission : LivePermission) (release : Text) where
  -- `permission.validate(...)`
  abbrev pub permitted : Moment → Result ExecuteError ⊤
  permitted now =
      as_error refused
        (validate_permission names.digests permission broker.account_id o policy release now)

  -- The closure `authorize`.
  pub authorize_now : Moment → Journal → Result ExecuteError Moment
  authorize_now now j = do
    state ← broker.capture
    permitted now
    raise_if (not (state.account_id == broker.account_id)) foreign_state
    m ←
        as_error ledger_raised
          (ledger_summary names.moscow_day j.rows (names.scope broker.account_id) (moment_of now))
    as_error refused (authorize_live o policy state m.owned m.attempts m.turnover now)
    ok state.started_at

  -- As `reserve` raises it.
  abbrev pub authorizer : Moment → Journal → Result JournalError Moment
  authorizer now j = as_journal_error (authorize_now now j)

  -- The checks between the reservation and the submission; `captured[0]` is the broker's answer.
  pub last_checks : Result ExecuteError ⊤ → Moment → Result ExecuteError ⊤
  last_checks before_submit now = do
    before_submit
    permitted now
    state ← broker.capture
    raise_if (not (is_within state.started_at now 20 && is_within state.book_at now 10))
        snapshot_expired
