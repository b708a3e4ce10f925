-- ===== src/Protection/Parent.antt =====
-- src/moex_bot/live_protection.py: the test of `activate` that the entry is the exact filled one-lot
-- BUY of the durable journal, that the bot owns just its units, that they are free at the broker, and
-- that no other stop order is on the instrument.
use moex_tinvest_bot.Base.{
  Bool, true, false, not, ◌&&◌, ◌||◌, none, some, List, [], ◌∷◌, ◌*◌, ◌==◌, any, find,
  if◌then◌else◌,
}
use moex_tinvest_bot.Base.Int.{ℤ, pos, ◌+ℤ◌, ◌-ℤ◌, leb_ℤ}
use moex_tinvest_bot.Base.Result.{⊤, Result, or_raise, raise_if, ◌>>=◌, ◌>>◌}
use moex_tinvest_bot.Domain.{Text, instrument_eq, buy, filled, side_eq, status_eq}
use moex_tinvest_bot.Journal.{Row, RowState, status, is_request}
use moex_tinvest_bot.Protection.Plan.{ProtectionPlan, Stop}
use moex_tinvest_bot.Protection.Table.{
  ProtectionError, parent_missing, parent_not_filled, exceeds_owned, foreign_stop, EntryBook,
  Broker,
}

-- The functions outside the source that plans rest on.
pub record Names : Type 0 where
  -- `UUID(text)` parses
  pub is_uuid : Text → Bool
  -- `ProtectionPlan.digest`, a SHA-256
  pub digest : ProtectionPlan → Text
  -- `ProtectionPlan.request_id`, a version 5 UUID
  pub request_id : ProtectionPlan → Text
  -- `"prod:" + account`
  pub scope : Text → Text

-- `parent[1] != "filled"`
abbrev is_filled_row : RowState → Bool
is_filled_row (status s) = status_eq s filled
is_filled_row _ = false

-- The parent's row and record are those of the exact one-lot BUY, and it is filled.
abbrev is_exact_parent : ProtectionPlan → Row → Bool
is_exact_parent plan r =
    r.logical_id == plan.entry_logical_id
    && is_filled_row r.state
    && status_eq r.saved.status filled
    && r.saved.filled_lots == 1
    && r.saved.intent.lots == 1
    && side_eq r.saved.intent.side buy
    && instrument_eq r.saved.intent.instrument plan.instrument
    && r.saved.intent.limit_price == plan.entry_price

-- The signed units that one journal row adds to the bot's holding of an instrument.
abbrev row_units : Text → Row → ℤ
row_units uid r =
    let units = r.saved.filled_lots * r.saved.intent.instrument.lot_size in
    if r.saved.intent.instrument.uid == uid
    then (if side_eq r.saved.intent.side buy then pos units else pos 0 -ℤ pos units)
    else pos 0

abbrev owned_units : Text → Text → List Row → ℤ
owned_units scope uid [] = pos 0
owned_units scope uid (r ∷ rows) =
    (if r.account == scope then row_units uid r else pos 0) +ℤ owned_units scope uid rows

abbrev int_eq : ℤ → ℤ → Bool
int_eq a b = leb_ℤ a b && leb_ℤ b a

-- A stop order without an instrument, or on the plan's.
abbrev is_foreign : Text → Stop → Bool
is_foreign uid s = elim s.instrument_uid [ none ↦ true | some u ↦ u == 0 || u == uid ]

-- The parent's row and the holdings that `activate` checks before it reserves the submission.
unfoldable pub check_parent : Names → ProtectionPlan → EntryBook → Broker → Result ProtectionError ⊤
check_parent names plan book broker = do
  let scope = names.scope plan.account_id
  parent ← or_raise (find (is_request scope plan.entry_request_id) book.journal.rows) parent_missing
  raise_if (not (is_exact_parent plan parent)) parent_not_filled
  let units = plan.lots * plan.instrument.lot_size
  let owned = owned_units scope plan.instrument.uid book.journal.rows
  raise_if (not (int_eq owned (pos units))) exceeds_owned
  free ← broker.available_units
  raise_if (not (free == units)) exceeds_owned
  stops ← broker.stops_before
  raise_if (any (is_foreign plan.instrument.uid) stops) foreign_stop
