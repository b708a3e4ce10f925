-- ===== src/Sandbox.antt =====
-- src/moex_bot/sandbox_execution.py: the loop of `execute_shadow_plan` over the orders of a plan. The decoded
-- orders, the broker's answers, the ids and the clock are arguments.

mod Batch
mod Tests
use moex_tinvest_bot.Base.{
  ℕ, Bool, not, ◌&&◌, Option, none, some, List, [], ◌∷◌, ◌+◌, ltb, ◌==◌, if◌then◌else◌, take,
}
use moex_tinvest_bot.Base.Int.{ℤ, pos, abs, ltb_ℤ, leb_ℤ, ◌+ℤ◌, ◌-ℤ◌, ◌*ℤ◌}
use moex_tinvest_bot.Base.Result.{⊤, Result, ok, err}
use moex_tinvest_bot.Base.Exec.{Exec, pure, lift, modify, ◌>>=◌, ◌>>◌, raise_if}
use moex_tinvest_bot.Domain.{
  Text, Moment, buy, OrderIntent, OrderRecord, OrderStatus, filled, side_eq, status_eq,
}
use moex_tinvest_bot.Portfolio.{Dict, lookup, assign}
use moex_tinvest_bot.Journal.{Journal, JournalError, reserve, record_result}

pub data SandboxError : Type 0 where
  not_validated margin_mismatch no_shorts not_reducing many_settled broker_raised : SandboxError
  journal_refused : JournalError → SandboxError

-- The journal, and the orders that were handed to the broker.
pub record SandboxStore : Type 0 where
  pub journal : Journal
  pub sent : List OrderIntent

abbrev pub Trading : Type 0 → Type 0
Trading = Exec SandboxStore SandboxError

abbrev as_sandbox : {A : Type 0} → Result JournalError A → Result SandboxError A
as_sandbox (ok a) = ok a
as_sandbox (err e) = err (journal_refused e)

abbrev on_journal : {A : Type 0} → Exec Journal JournalError A → Trading A
on_journal m s = (as_sandbox (m s.journal).0, record s { journal = (m s.journal).1 })

-- The adapter, of the position of an order in the plan; not every adapter can settle.
pub record SandboxPort : Type 0 where
  pub account_id : Text
  pub submit : ℕ → OrderIntent → Result SandboxError OrderRecord
  pub settle : Option (ℕ → OrderRecord → Result SandboxError (List OrderRecord))
  pub fresh : ℕ → Text
  pub recorded_at : ℕ → Moment
  pub settled_at : ℕ → Moment

-- The code of "intraday mandatory flat".
abbrev pub flat_rationale : Text
flat_rationale = 25

abbrev is_zero : ℤ → Bool
is_zero a = leb_ℤ a (pos 0) && leb_ℤ (pos 0) a

abbrev pub resulting : OrderIntent → ℤ → ℕ → ℤ
resulting o current lots = if side_eq o.side buy then current +ℤ pos lots else current -ℤ pos lots

-- `resulting_lots < min(current_lots, 0)`
abbrev opens_short : ℤ → ℤ → Bool
opens_short current new = ltb_ℤ new current && ltb_ℤ new (pos 0)

abbrev is_reducing : ℤ → ℤ → Bool
is_reducing current new =
    not (is_zero current) && ltb (abs new) (abs current) && leb_ℤ (pos 0) (current *ℤ new)

abbrev differs : Bool → Bool → Bool
differs a b = if a then not b else b

abbrev is_flat : OrderIntent → Bool
is_flat o = o.rationale == flat_rationale

pub check_item : OrderIntent → ℤ → Trading ⊤
check_item o current = do
  let new = resulting o current o.lots
  raise_if (differs (opens_short current new) o.confirm_margin_trade) margin_mismatch
  raise_if (opens_short current new && not o.instrument.short_enabled) no_shorts
  raise_if (is_flat o && not (is_reducing current new)) not_reducing

-- `projected_lots.get(secid, 0)`
abbrev projected : Text → Dict ℤ → ℤ
projected secid lots = elim (lookup secid lots) [ none ↦ pos 0 | some n ↦ n ]

abbrev sole : List OrderRecord → Result SandboxError OrderRecord
sole (r ∷ []) = ok r
sole _ = err many_settled

-- The end of the loop's body, of the loop over the other orders: it goes on, or it breaks.
pub continue_batch :
    (Dict ℤ → Trading (List OrderRecord × Option OrderStatus))
    → OrderIntent
    → ℤ
    → Dict ℤ
    → Option OrderRecord
    → Trading (List OrderRecord × Option OrderStatus)
continue_batch rest o current lots none = rest lots
continue_batch rest o current lots (some r) =
    if status_eq r.status filled
    then (rest (assign o.instrument.secid (resulting o current r.filled_lots) lots) >>= λ done.
        pure (r ∷ done.0, done.1))
    else pure (r ∷ [], some r.status)

module _ (digest : OrderIntent → Text) (port : SandboxPort) (plan_id : Text)
    (snapshot : Moment) where
  settle_one :
      ℕ
      → OrderRecord
      → Option (ℕ → OrderRecord → Result SandboxError (List OrderRecord))
      → Trading OrderRecord
  settle_one k seen none = pure seen
  settle_one k seen (some settle) = do
    settled ← lift (settle k seen)
    last ← lift (sole settled)
    on_journal (record_result digest port.account_id last (port.settled_at k))
    pure last

  -- The order after its reservation; none is an order that an earlier run has done.
  submit_reserved : ℕ → OrderIntent → Option Text → Trading (Option OrderRecord)
  submit_reserved k o none = pure none
  submit_reserved k o (some request) = do
    let named = record o { order_request_id = request }
    modify (λ s. record s { sent = named ∷ s.sent })
    seen ← lift (port.submit k named)
    on_journal (record_result digest port.account_id seen (port.recorded_at k))
    last ← settle_one k seen port.settle
    pure (some last)

  -- The body of the loop up to the broker's last answer.
  pub run_item : ℕ → OrderIntent → ℤ → Trading (Option OrderRecord)
  run_item k o current = do
    check_item o current
    request ←
        on_journal
          (reserve digest port.account_id o plan_id snapshot (is_flat o) none (port.fresh k))
    submit_reserved k o request

  -- The loop: the records that it appends, and the status that stopped it.
  pub run_items :
      ℕ
      → Dict ℤ
      → List (Result SandboxError OrderIntent)
      → Trading (List OrderRecord × Option OrderStatus)
  run_items k lots [] = pure ([], none)
  run_items k lots (item ∷ items) = do
    o ← lift item
    let current = projected o.instrument.secid lots
    seen ← run_item k o current
    continue_batch (λ l. run_items (k + 1) l items) o current lots seen

  -- `execute_shadow_plan`, from the checked artifacts on
  pub execute_plan :
      ℕ
      → Dict ℤ
      → List (Result SandboxError OrderIntent)
      → Trading (List OrderRecord × Option OrderStatus)
  execute_plan max_orders lots items = run_items 0 lots (take max_orders items)
