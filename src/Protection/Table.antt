-- ===== src/Protection/Table.antt =====
-- The table `protection` of src/moex_bot/live_protection.py with its updates, the enrollment that
-- `registered_live_journal` of src/moex_bot/live_execution.py reads, and what a broker answers.
use moex_tinvest_bot.Base.{
  ℕ, Bool, true, false, not, ◌&&◌, Option, List, ◌==◌, is_some, if◌then◌else◌,
}
use moex_tinvest_bot.Base.Result.{Result, ◌>>◌, raise_if, or_raise}
use moex_tinvest_bot.Domain.{Text}
use moex_tinvest_bot.Journal.{Journal}
use moex_tinvest_bot.Protection.Plan.{ProtectionPlan, PlanError, Stop, text_is}

-- The column `state`.
pub data State : Type 0 where
  planned post_pending unknown active : State
  exit_cancel_pending exit_stop_cancelled closed_take_profit : State

pub record Protected : Type 0 where
  pub account : Text
  pub request_id : Text
  pub plan_hash : Text
  pub plan : ProtectionPlan
  pub live_uuid : Text
  pub state : State
  pub stop_id : Option Text

-- The table, and the request ids of the stop orders that entered the transport, oldest first.
pub record Store : Type 0 where
  pub rows : List Protected
  pub posts : List Text

pub data ProtectionError : Type 0 where
  bad_plan : PlanError → ProtectionError
  journal_missing not_enrolled no_identity : ProtectionError
  same_journals plan_changed other_enrollment outstanding_plan : ProtectionError
  plan_missing wrong_broker enrollment_changed parent_missing parent_not_filled : ProtectionError
  exceeds_owned foreign_stop already_reserved reservation_changed : ProtectionError
  stop_not_dispatched post_failed bad_response incomplete_response : ProtectionError
  conflicting_readback unverified_stop broker_failed : ProtectionError

-- The entry journal's file: the journal, and the enrollment in its table `metadata`.
pub record EntryBook : Type 0 where
  pub is_initialized : Bool
  pub live_account : Option Text
  pub live_uuid : Option Text
  pub journal : Journal

-- `registered_live_journal`
unfoldable pub registered_live_journal : EntryBook → Text → Result ProtectionError Text
registered_live_journal book account = do
  raise_if (not book.is_initialized) journal_missing
  raise_if (not (text_is account book.live_account)) not_enrolled
  or_raise book.live_uuid no_identity

-- What happens when a stop order is handed to the guarded broker: the local guard fails before
-- dispatch; or the order enters the transport, and an error, something else, or a response comes back, which names
-- the stop order and the request that it answers.
pub data PostAnswer : Type 0 where
  guard_failed : PostAnswer
  transport_failed : PostAnswer
  -- a response that is not a mapping
  malformed : PostAnswer
  responded : Option Text → Option Text → PostAnswer

-- The answers of a broker during one call.
pub record Broker : Type 0 where
  pub account_id : Text
  pub is_prod : Bool
  pub available_units : Result ProtectionError ℕ
  pub stops_before : Result ProtectionError (List Stop)
  pub post : PostAnswer
  pub stops_after : Result ProtectionError (List Stop)

abbrev pub is_planned : State → Bool
is_planned planned = true
is_planned _ = false

abbrev pub is_post_pending : State → Bool
is_post_pending post_pending = true
is_post_pending _ = false

abbrev pub for_request : Text → Protected → Bool
for_request id r = r.request_id == id

-- `request_id=? AND plan_hash=?`
abbrev pub for_plan : Text → Text → Protected → Bool
for_plan id hash r = r.request_id == id && r.plan_hash == hash

-- `request_id=? AND state='PLANNED'`
abbrev pub is_open_plan : Text → Protected → Bool
is_open_plan id r = r.request_id == id && is_planned r.state

-- `request_id=? AND plan_hash=? AND state='POST_PENDING' AND stop_id IS NULL`
abbrev pub is_reserved : Text → Text → Protected → Bool
is_reserved id hash r = for_plan id hash r && (is_post_pending r.state && not (is_some r.stop_id))

-- `UPDATE protection SET state=? WHERE ...`
abbrev pub set_state : (Protected → Bool) → State → Protected → Protected
set_state p s r = if p r then record r { state = s } else r

-- `UPDATE protection SET state=?,stop_id=? WHERE request_id=? AND plan_hash=?`
abbrev pub set_stop : Text → Text → State → Option Text → Protected → Protected
set_stop id hash s stop r = if for_plan id hash r then record r { state = s; stop_id = stop } else r
