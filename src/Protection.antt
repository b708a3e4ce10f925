-- ===== src/Protection.antt =====
-- src/moex_bot/live_protection.py: the journal that attaches one native stop order to one filled
-- entry, and the guard around the broker of src/moex_bot/supervised_execution.py. The state is the
-- table `protection` and the list of the stop orders that were handed to the transport. A broker is
-- the answers that it will give, any of which may be an error. SHA-256, UUIDs and the scope
-- `"prod:" + account` are parameters.
mod Plan
mod Table
mod Parent
mod Verified
pub mod Readback
pub mod Counts
pub mod Once
mod Tests
unfoldable pub use Plan.*
unfoldable pub use Table.*
pub use Parent.{Names}
unfoldable pub use Parent.{check_parent}
use moex_tinvest_bot.Base.{
  ℕ, Bool, true, false, not, ◌&&◌, ◌||◌, Option, none, some, List, [], ◌∷◌, ◌++◌, ◌*◌, ◌==◌, any,
  count, find, keep, map, length, is_some, if◌then◌else◌,
}
use moex_tinvest_bot.Base.Int.{ℤ, pos, ◌+ℤ◌, ◌-ℤ◌, leb_ℤ}
use moex_tinvest_bot.Base.Result
use moex_tinvest_bot.Base.Result.{⊤, Result, ok, err, or_raise}
use moex_tinvest_bot.Base.Exec.{
  Exec, pure, raise, lift, gets, atomic, ◌>>=◌, ◌>>◌, raise_if, modify,
}
use moex_tinvest_bot.Domain.{
  Text, Instrument, instrument_eq, OrderRecord, OrderStatus, buy, filled, side_eq, status_eq,
}
use moex_tinvest_bot.Journal.{Row, RowState, status, is_request}

abbrev pub Guarded : Type 0 → Type 0
Guarded = Exec Store ProtectionError

abbrev pub as_plan_error : Result PlanError ⊤ → Result ProtectionError ⊤
as_plan_error (ok u) = ok u
as_plan_error (err e) = err (bad_plan e)

abbrev pub change_rows : (Protected → Protected) → Store → Store
change_rows f s = record s { rows = map f s.rows }

-- A stop order without an instrument, or another one on the plan's.
abbrev is_conflict : Text → Text → Stop → Bool
is_conflict uid id s = elim s.instrument_uid [
  | none ↦ true
  | some u ↦ u == 0 || (u == uid && not (text_is id s.stop_order_id))
]

-- The one element of a list, if it has exactly one.
abbrev only : {A : Type 0} → List A → Option A
only [] = none
only (x ∷ []) = some x
only (x ∷ y ∷ xs) = none

abbrev is_verified_only : ProtectionPlan → Option Stop → Bool
is_verified_only plan none = false
is_verified_only plan (some s) = is_verified plan s

-- `returned` is a nonempty text, and the response names the plan's request.
abbrev identified : Text → Option Text → Option Text → Option Text
identified request returned echoed = elim returned [
  | none ↦ none
  | some id ↦ if not (id == 0) && text_is request echoed then some id else none
]

-- The values that `prepare` inserts.
abbrev planned_row : ProtectionPlan → Text → Text → Text → Protected
planned_row plan id hash identity = record {
  account = plan.account_id;
  request_id = id;
  plan_hash = hash;
  plan = plan;
  live_uuid = identity;
  state = planned;
  stop_id = none;
}

-- `INSERT INTO protection VALUES(?,?,?,?,?,'PLANNED',NULL)`; the request id is the primary key, and
-- `prepare` has seen that no row has it.
abbrev insert_plan : Protected → Guarded ⊤
insert_plan new s = (ok tt, record s { rows = s.rows ++ new ∷ [] })

-- `ProtectionJournal._state`
pub set_plan_state : Text → Text → State → Option Text → Guarded ⊤
set_plan_state id hash state stop = modify (change_rows (set_stop id hash state stop))

-- `UPDATE ... SET state=...` with the test that it changed exactly one row
pub update_one : (Protected → Bool) → State → ProtectionError → Guarded ⊤
update_one p state e = atomic do
  changed ← gets (λ s. count p s.rows)
  modify (change_rows (set_state p state))
  raise_if (not (changed == 1)) e

-- The stop order enters the transport.
dispatch : Text → Guarded ⊤
dispatch id = modify (λ s. record s { posts = s.posts ++ id ∷ [] })

-- `broker.post_stop(...)` through `GuardedProtectionBroker`, with the handlers of `activate`: a
-- failure before dispatch gives the reservation back, any other one leaves the state UNKNOWN; where the
-- response is no mapping, `response.get` raises outside the handlers.
post_stop : Text → Text → PostAnswer → Guarded ⊤
post_stop id hash guard_failed = do
  update_one (is_reserved id hash) planned reservation_changed
  raise stop_not_dispatched
post_stop id hash transport_failed = do
  dispatch id
  set_plan_state id hash unknown none
  raise post_failed
post_stop id hash malformed = do dispatch id; raise bad_response
post_stop id hash (responded returned echoed) = do
  dispatch id
  set_plan_state id hash unknown (identified id returned echoed)
  raise_if (not (is_some (identified id returned echoed))) incomplete_response

module _ (names : Names) where
  -- The transaction of `prepare`, by the row that the request already has.
  enroll : ProtectionPlan → Text → Option Protected → Guarded Text
  enroll plan identity (some r) = do
    raise_if (not (r.plan_hash == names.digest plan)) plan_changed
    raise_if (not (r.live_uuid == identity)) other_enrollment
    pure (names.request_id plan)
  enroll plan identity none = do
    taken ← gets (λ s. any (λ r. r.account == plan.account_id) s.rows)
    raise_if taken outstanding_plan
    insert_plan (planned_row plan (names.request_id plan) (names.digest plan) identity)
    pure (names.request_id plan)

  -- `ProtectionJournal.prepare`; `separate` says that the two journals are different files.
  pub prepare : ProtectionPlan → EntryBook → Bool → Guarded Text
  prepare plan book separate = do
    lift (as_plan_error (validate names.is_uuid plan))
    identity ← lift (registered_live_journal book plan.account_id)
    raise_if (not separate) same_journals
    existing ← gets (λ s. find (for_request (names.request_id plan)) s.rows)
    enroll plan identity existing

  -- `ProtectionJournal._row`
  pub plan_row : ProtectionPlan → Guarded Protected
  plan_row plan = do
    found ← gets (λ s.
        find
          (λ r.
            r.account == plan.account_id && for_plan (names.request_id plan) (names.digest plan) r)
          s.rows)
    lift (or_raise found plan_missing)

  -- The readback of `reconcile`, once a stop order is known.
  read_back : ProtectionPlan → Broker → Text → Guarded State
  read_back plan broker id = do
    set_plan_state (names.request_id plan) (names.digest plan) unknown (some id)
    observed ← lift broker.stops_after
    raise_if (any (is_conflict plan.instrument.uid id) observed) conflicting_readback
    let matches = keep (λ s. text_is id s.stop_order_id) observed
    raise_if (not (is_verified_only plan (only matches))) unverified_stop
    set_plan_state (names.request_id plan) (names.digest plan) active (some id)
    pure active

  -- UNKNOWN or pending without a stop id neither adopts a matching stop order nor posts again.
  reconcile_stop : ProtectionPlan → Broker → State → Option Text → Guarded State
  reconcile_stop plan broker state none = pure state
  reconcile_stop plan broker state (some id) = read_back plan broker id

  -- `ProtectionJournal.reconcile`
  pub reconcile : ProtectionPlan → Broker → Guarded State
  reconcile plan broker = do
    row ← plan_row plan
    raise_if (not (broker.account_id == plan.account_id && broker.is_prod)) wrong_broker
    reconcile_stop plan broker row.state row.stop_id

  -- The part of `activate` that submits: reserve by compare-and-swap, post, read back.
  submit_stop : ProtectionPlan → EntryBook → Broker → Guarded State
  submit_stop plan book broker = do
    lift (check_parent names plan book broker)
    update_one (is_open_plan (names.request_id plan)) post_pending already_reserved
    post_stop (names.request_id plan) (names.digest plan) broker.post
    reconcile plan broker

  -- `if status != "PLANNED": return self.reconcile(...)`
  continue_from : ProtectionPlan → EntryBook → Broker → Bool → Guarded State
  continue_from plan book broker true = submit_stop plan book broker
  continue_from plan book broker false = reconcile plan broker

  -- `ProtectionJournal.activate`
  pub activate : ProtectionPlan → EntryBook → Broker → Guarded State
  activate plan book broker = do
    lift (as_plan_error (validate names.is_uuid plan))
    row ← plan_row plan
    raise_if (not (broker.account_id == plan.account_id && broker.is_prod)) wrong_broker
    identity ← lift (registered_live_journal book plan.account_id)
    raise_if (not (identity == row.live_uuid)) enrollment_changed
    continue_from plan book broker (is_planned row.state)
