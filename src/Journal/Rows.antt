-- ===== src/Journal/Rows.antt =====
-- The tables of src/moex_bot/execution_journal.py, and the queries and updates made on them.
use moex_tinvest_bot.Base.{
  ℕ, Bool, false, not, ◌&&◌, ◌||◌, Option, none, some, List, [], ◌∷◌, ltb, ◌==◌, if◌then◌else◌,
}
use moex_tinvest_bot.Domain.{Text, OrderStatus, OrderRecord, is_terminal}

-- The column `state`: the reservation's own state, or the value of an `OrderStatus`.
pub data RowState : Type 0 where
  request_pending : RowState
  status : OrderStatus → RowState

pub data Migration : Type 0 where
  review_required ready : Migration

-- A row of the table `actions`.
pub record Row : Type 0 where
  pub account : Text
  pub logical_id : Text
  pub generation : ℕ
  pub request_id : Text
  pub payload_hash : Text
  pub plan_id : Text
  pub state : RowState
  pub snapshot_at : ℕ
  pub completed_at : Option ℕ
  pub saved : OrderRecord

-- The database: `metadata` (its two keys that the code reads) and `actions`.
pub record Journal : Type 0 where
  pub migration : Migration
  pub manifest : Option Text
  pub rows : List Row

-- `state IN ('filled','cancelled','rejected')`
abbrev pub is_closed : RowState → Bool
is_closed request_pending = false
is_closed (status s) = is_terminal s

abbrev pub is_pending : Text → Row → Bool
is_pending account r = r.account == account && not (is_closed r.state)

abbrev pub is_logical : Text → Text → Row → Bool
is_logical account logical_id r = r.account == account && r.logical_id == logical_id

abbrev pub is_request : Text → Text → Row → Bool
is_request account request_id r = r.account == account && r.request_id == request_id

abbrev later : Row → Option Row → Option Row
later r none = some r
later r (some s) = if ltb s.generation r.generation then some r else some s

-- `... WHERE account=? AND logical_id=? ORDER BY generation DESC LIMIT 1`
abbrev pub last_row : Text → Text → List Row → Option Row
last_row account logical_id [] = none
last_row account logical_id (r ∷ rows) =
    let rest = last_row account logical_id rows in
    if is_logical account logical_id r then later r rest else rest

abbrev newer : Text → ℕ → Option (Text × ℕ) → Option (Text × ℕ)
newer plan at none = some (plan, at)
newer plan at (some (other, t)) = if ltb t at then some (plan, at) else some (other, t)

abbrev completed : Row → Option (Text × ℕ) → Option (Text × ℕ)
completed r rest = elim r.completed_at [ none ↦ rest | some at ↦ newer r.plan_id at rest ]

-- `... WHERE account=? AND completed_at IS NOT NULL ORDER BY completed_at DESC LIMIT 1`. Which of
-- two rows with the same time comes first is SQLite's choice; here it is the later row.
abbrev pub latest_completed : Text → List Row → Option (Text × ℕ)
latest_completed account [] = none
latest_completed account (r ∷ rows) =
    let rest = latest_completed account rows in
    if r.account == account then completed r rest else rest

-- What the primary key and the `UNIQUE` clause forbid beside a stored row.
abbrev pub is_clash : Row → Row → Bool
is_clash new r =
    r.request_id == new.request_id
    || (is_logical new.account new.logical_id r && r.generation == new.generation)

-- `UPDATE actions SET state=?,completed_at=?,record=? WHERE account=? AND request_id=?`
abbrev pub write_row : Text → Text → RowState → Option ℕ → OrderRecord → Row → Row
write_row account request_id state at saved r =
    if is_request account request_id r
    then record r { state = state; completed_at = at; saved = saved }
    else r
