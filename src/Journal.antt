-- ===== src/Journal.antt =====
-- src/moex_bot/execution_journal.py: the durable journal of order attempts. A method is one SQLite
-- transaction, so a raise leaves the database as it was. The SHA-256 of an intent is the parameter
-- `digest`, a new UUID is an argument, and so is the clock.
mod Rows
pub mod Reserve
pub mod Record
pub mod Invariant
pub mod Safety
pub mod Legacy
mod Tests
pub use Rows.*
use moex_tinvest_bot.Base.{
  ℕ, Bool, true, false, not, ◌&&◌, ◌||◌, Option, none, some, List, [], ◌∷◌, ◌++◌, ◌+◌, ltb, leb,
  ◌==◌, any, find, keep, map, length, is_some, if◌then◌else◌,
}
use moex_tinvest_bot.Base.Result
use moex_tinvest_bot.Base.Result.{⊤, Result, ok, err, or_raise}
use moex_tinvest_bot.Base.Exec.{
  Exec, pure, raise, lift, gets, atomic, ◌>>=◌, ◌>>◌, raise_if, modify,
}
use moex_tinvest_bot.Domain.{
  Text, Moment, need_aware, OrderStatus, filled, rejected, unknown, OrderIntent, OrderRecord,
  status_eq, is_terminal,
}

pub data JournalError : Type 0 where
  naive_snapshot migration_review changed_payload pending_order naive_authorization : JournalError
  stale_plan stale_residual integrity : JournalError
  -- raised by the caller's `authorize`
  not_authorized : JournalError
  bad_quantity incomplete_fill naive_clock no_reservation clock_behind changed_result : JournalError
  quantity_decreased terminal_changed : JournalError
  not_quarantined manifest_changed unexpected_orders naive_legacy bad_legacy : JournalError

abbrev pub Journaled : Type 0 → Type 0
Journaled = Exec Journal JournalError

-- `INSERT INTO actions`
insert_row : Row → Journaled ⊤
insert_row new j =
    if any (is_clash new) j.rows
    then (err integrity, j)
    else (ok tt, record j { rows = j.rows ++ new ∷ [] })

-- `last and last[1] != digest and (last[2] == plan_id or not residual_exit)`
abbrev payload_changed : Option Row → Text → Text → Bool → Bool
payload_changed none hash plan residual = false
payload_changed (some l) hash plan residual =
    not (l.payload_hash == hash) && (l.plan_id == plan || not residual)

-- `last and (last[2] == plan_id or not residual_exit)`
abbrev already_done : Option Row → Text → Bool → Bool
already_done none plan residual = false
already_done (some l) plan residual = l.plan_id == plan || not residual

-- `latest and latest[0] != plan_id and snapshot_at <= latest[1]`
abbrev plan_is_stale : Option (Text × ℕ) → Text → ℕ → Bool
plan_is_stale none plan at = false
plan_is_stale (some (other, done)) plan at = not (other == plan) && leb at done

-- `last and (not last[4] or snapshot_at <= last[4])`
abbrev residual_is_stale : Option Row → ℕ → Bool
residual_is_stale none at = false
residual_is_stale (some l) at = elim l.completed_at [ none ↦ true | some done ↦ leb at done ]

abbrev next_generation : Option Row → ℕ
next_generation none = 1
next_generation (some l) = l.generation + 1

-- The snapshot's time, or that of the caller's `authorize`.
abbrev authorized : Option (Journal → Result JournalError Moment) → ℕ → Journaled ℕ
authorized none at j = (ok at, j)
authorized (some authorize) at j =
    (Result.◌>>=◌ (authorize j) (λ m. need_aware m naive_authorization), j)

abbrev pub completion : OrderStatus → ℕ → Option ℕ
completion s now = if is_terminal s then some now else none

-- `previous[2] in TERMINAL`, and the two things that may not change then
abbrev closed_conflict : Row → OrderRecord → Bool
closed_conflict r result = elim r.state [
  | request_pending ↦ false
  | status s ↦ not (status_eq result.status s) || not (result.filled_lots == r.saved.filled_lots)
]

-- The values that `reserve` inserts.
abbrev pub reserved_row : Text → OrderIntent → Text → Text → Option Row → ℕ → Text → Row
reserved_row account intent plan_id hash last snapshot_at fresh = record {
  account = account;
  logical_id = intent.order_request_id;
  generation = next_generation last;
  request_id = fresh;
  payload_hash = hash;
  plan_id = plan_id;
  state = request_pending;
  snapshot_at = snapshot_at;
  completed_at = none;
  saved = record {
    intent = record intent { order_request_id = fresh };
    status = unknown;
    filled_lots = 0;
    broker_order_id = none;
    status_detail = none;
  };
}

abbrev store : (Row → Row) → Journal → Journal
store f j = record j { rows = map f j.rows }

module _ (digest : OrderIntent → Text) where
  -- `ExecutionJournal.reserve`; `fresh` is the id that is used: the broker's, or a new UUID.
  reserve_in :
      Text
      → OrderIntent
      → Text
      → ℕ
      → Bool
      → Option (Journal → Result JournalError Moment)
      → Text
      → Journaled (Option Text)
  unfolding insert_row
  reserve_in account intent plan_id at residual_exit authorize fresh = do
    migration ← gets (λ j. j.migration)
    raise_if (elim migration [ review_required ↦ true | ready ↦ false ]) migration_review
    last ← gets (λ j. last_row account intent.order_request_id j.rows)
    raise_if (payload_changed last (digest intent) plan_id residual_exit) changed_payload
    pending ← gets (λ j. any (is_pending account) j.rows)
    raise_if pending pending_order
    if already_done last plan_id residual_exit then pure none else do
      snapshot_at ← authorized authorize at
      latest ← gets (λ j. latest_completed account j.rows)
      raise_if (plan_is_stale latest plan_id snapshot_at) stale_plan
      raise_if (residual_is_stale last snapshot_at) stale_residual
      insert_row (reserved_row account intent plan_id (digest intent) last snapshot_at fresh)
      pure (some fresh)

  pub reserve :
      Text
      → OrderIntent
      → Text
      → Moment
      → Bool
      → Option (Journal → Result JournalError Moment)
      → Text
      → Journaled (Option Text)
  unfolding reserve_in
  reserve account intent plan_id snapshot residual_exit authorize fresh = do
    at ← lift (need_aware snapshot naive_snapshot)
    atomic (reserve_in account intent plan_id at residual_exit authorize fresh)

  -- The part of `record` that has found the reservation.
  settle_row : Text → OrderRecord → ℕ → Row → Journaled ⊤
  settle_row account result now previous = do
    raise_if (ltb now previous.snapshot_at) clock_behind
    let original = record result.intent { order_request_id = previous.logical_id }
    raise_if (not (digest original == previous.payload_hash)) changed_result
    raise_if (ltb result.filled_lots previous.saved.filled_lots) quantity_decreased
    if is_closed previous.state
        then raise_if (closed_conflict previous result) terminal_changed
        else modify (
            store (
              write_row account result.intent.order_request_id (status result.status)
                (completion result.status now) result))

  -- The transaction of `record`.
  settle : Text → OrderRecord → ℕ → Journaled ⊤
  settle account result now = do
    found ← gets (λ j. find (is_request account result.intent.order_request_id) j.rows)
    previous ← lift (or_raise found no_reservation)
    settle_row account result now previous

  -- `ExecutionJournal.record`
  pub record_result : Text → OrderRecord → Moment → Journaled ⊤
  record_result account result clock = do
    raise_if (ltb result.intent.lots result.filled_lots) bad_quantity
    raise_if (status_eq result.status filled && not (result.filled_lots == result.intent.lots))
        incomplete_fill
    now ← lift (need_aware clock naive_clock)
    atomic (settle account result now)

-- `ExecutionJournal.unresolved`
pub unresolved : Text → Journal → List OrderRecord
unresolved account j = map (λ r. r.saved) (keep (is_pending account) j.rows)

-- `ExecutionJournal.unresolved_count`
pub unresolved_count : Journal → ℕ
unresolved_count j = length (keep (λ r. not (is_closed r.state)) j.rows)
