-- ===== src/Order.antt =====
-- src/moex_bot/execution.py: the order state machine, `_ALLOWED_TRANSITIONS` and `transition_order`.
pub mod Lifecycle
mod Tests
use moex_tinvest_bot.Base.{ℕ, Bool, true, false, not, ◌&&◌, ◌||◌, Option, none, some, ltb, ◌==◌}
use moex_tinvest_bot.Base.{if◌then◌else◌}
use moex_tinvest_bot.Base.Result.{Result, ok, ◌>>=◌, ◌>>◌, raise_if}
use moex_tinvest_bot.Domain.{
  Text, OrderStatus, planned, validated, submitted, accepted, partially_filled, filled, cancelled,
  rejected, unknown, OrderRecord, status_eq,
}

pub data TransitionError : Type 0 where
  invalid_transition not_monotonic filled_requires_all : TransitionError

-- `new_status in _ALLOWED_TRANSITIONS[status]`
abbrev pub is_allowed : OrderStatus → OrderStatus → Bool
is_allowed planned validated = true
is_allowed planned rejected = true
is_allowed validated submitted = true
is_allowed validated rejected = true
is_allowed submitted accepted = true
is_allowed submitted rejected = true
is_allowed submitted unknown = true
is_allowed accepted partially_filled = true
is_allowed accepted filled = true
is_allowed accepted cancelled = true
is_allowed accepted unknown = true
is_allowed partially_filled partially_filled = true
is_allowed partially_filled filled = true
is_allowed partially_filled cancelled = true
is_allowed partially_filled unknown = true
is_allowed unknown accepted = true
is_allowed unknown partially_filled = true
is_allowed unknown filled = true
is_allowed unknown cancelled = true
is_allowed unknown rejected = true
is_allowed _ _ = false

-- `new or old` on optional texts: `None` and the empty text are both falsy.
abbrev pub text_or : Option Text → Option Text → Option Text
text_or none old = old
text_or (some new) old = if new == 0 then old else some new

abbrev pub next_filled : Option ℕ → ℕ → ℕ
next_filled none old = old
next_filled (some n) old = n

pub transition_order :
    OrderRecord → OrderStatus → Option ℕ → Option Text → Result TransitionError OrderRecord
transition_order r new_status filled_lots broker_order_id = do
  raise_if (not (is_allowed r.status new_status)) invalid_transition
  let next = next_filled filled_lots r.filled_lots
  raise_if (ltb next r.filled_lots || ltb r.intent.lots next) not_monotonic
  raise_if (status_eq new_status filled && not (next == r.intent.lots)) filled_requires_all
  ok (record r {
    status = new_status;
    filled_lots = next;
    broker_order_id = text_or broker_order_id r.broker_order_id;
  })
