-- ===== src/Once/Fences.antt =====
-- Each fence is passed at most once.
use moex_tinvest_bot.Base.{
  ℕ, Bool, true, false, not, ◌||◌, [], ◌∷◌, ◌≡◌, ◌≤◌, arith, ◌==◌, count, count-append,
  if◌then◌else◌,
}
use moex_tinvest_bot.Base.Result.{⊤, Result, ok, err}
use moex_tinvest_bot.Base.Exec.{lift, raise_if, ◌>>◌}
use moex_tinvest_bot.Domain.{Text, OrderRecord}
use moex_tinvest_bot.Once.{
  FenceName, buy_dispatch, stop_dispatch, cancel_dispatch, fence_code, Directory, OnceError,
  Capability, exists_file, create, check, dispatch, send, submit_buy, cancel_pending,
  post_stop_once,
}

abbrev pub is_fence : FenceName → FenceName → Bool
is_fence n m = fence_code m == fence_code n

-- How often the order of a fence was handed to the broker.
abbrev pub sends : FenceName → Directory → ℕ
sends n d = count (is_fence n) d.sent

abbrev fence_count : FenceName → Directory → ℕ
fence_count n d = if exists_file n d then 1 else 0

abbrev pub IsFenced : Directory → Type 0
IsFenced d = (n : FenceName) → sends n d ≤ fence_count n d

-- The two steps that every capability takes past its gate.
module _ (binding : Text) (name : FenceName) {A : Type 0} (answer : Result OnceError A) where
  passes-IsFenced :
      (d : Directory)
      → IsFenced d
      → (n : FenceName)
      → sends n ((dispatch binding name >> (send name >> lift answer)) d).1
        ≤ fence_count n ((dispatch binding name >> (send name >> lift answer)) d).1
  unfolding dispatch check create send
  passes-IsFenced d h n = ground (arith, h n, count-append {0} (is_fence n) d.sent (name ∷ []))

refused-IsFenced :
    {A : Type 0} (b : Bool) (e : OnceError) (gate : Result OnceError ⊤)
    (k : Directory → Result OnceError A × Directory) (d : Directory)
    → IsFenced d
    → ((n : FenceName) → sends n (k d).1 ≤ fence_count n (k d).1)
    → (n : FenceName)
    → sends n ((raise_if b e >> (lift gate >> k)) d).1
      ≤ fence_count n ((raise_if b e >> (lift gate >> k)) d).1
refused-IsFenced true e gate k d h rest n = h n
refused-IsFenced false e (err x) k d h rest n = h n
refused-IsFenced false e (ok tt) k d h rest n = rest n

submit_buy-IsFenced :
    (c : Capability) (canonical : Text) (gate : Result OnceError ⊤)
    (answer : Result OnceError OrderRecord)
    (lookup_order : OrderRecord → Result OnceError OrderRecord) (d : Directory)
    → IsFenced d
    → IsFenced (submit_buy c canonical gate answer lookup_order d).1
unfolding submit_buy dispatch check create send
submit_buy-IsFenced c canonical gate answer lookup_order d h n =
    ground (arith, h n, count-append {0} (is_fence n) d.sent (buy_dispatch ∷ []))

cancel_pending-IsFenced :
    (c : Capability) (request_id : Text) (gate answer : Result OnceError ⊤) (d : Directory)
    → IsFenced d
    → IsFenced (cancel_pending c request_id gate answer d).1
unfolding cancel_pending
cancel_pending-IsFenced c request_id gate answer d h =
    refused-IsFenced (not (request_id == c.entry_request_id)) OnceError.foreign_cancel gate
      (dispatch c.binding cancel_dispatch >> (send cancel_dispatch >> lift answer)) d h
      (passes-IsFenced c.binding cancel_dispatch answer d h)

post_stop_once-IsFenced :
    {A : Type 0} (c : Capability) (canonical request_id : Text) (gate : Result OnceError ⊤)
    (answer : Result OnceError A) (d : Directory)
    → IsFenced d
    → IsFenced (post_stop_once c canonical request_id gate answer d).1
unfolding post_stop_once
post_stop_once-IsFenced c canonical request_id gate answer d h =
    refused-IsFenced (not (canonical == c.expected_stop) || not (request_id == c.stop_request_id))
      OnceError.changed_stop gate
      (dispatch c.binding stop_dispatch >> (send stop_dispatch >> lift answer)) d h
      (passes-IsFenced c.binding stop_dispatch answer d h)

create-IsFenced :
    (name : FenceName) (value : Text) (d : Directory)
    → IsFenced d
    → IsFenced (create name value d).1
unfolding create
create-IsFenced name value d h n = ground (arith, h n)

-- A call of a capability, whatever it was built with and however the gate and the broker answer, or
-- the creation of a file of the claim.
pub data Step (d : Directory) : Directory → Type 0 where
  created : (name : FenceName) (value : Text) → Step d (create name value d).1
  bought :
      (c : Capability) (canonical : Text) (gate : Result OnceError ⊤)
      (answer : Result OnceError OrderRecord)
      (lookup_order : OrderRecord → Result OnceError OrderRecord)
      → Step d (submit_buy c canonical gate answer lookup_order d).1
  cancelled_entry :
      (c : Capability) (request_id : Text) (gate answer : Result OnceError ⊤)
      → Step d (cancel_pending c request_id gate answer d).1
  stopped :
      (c : Capability) (canonical request_id : Text) (gate answer : Result OnceError ⊤)
      → Step d (post_stop_once c canonical request_id gate answer d).1

pub data Reach (d : Directory) : Directory → Type 0 where
  here : Reach d d
  next : {e f : Directory} → Reach d e → Step e f → Reach d f

Step-IsFenced : {d e : Directory} → Step d e → IsFenced d → IsFenced e
Step-IsFenced {d} (created name value) h = create-IsFenced name value d h
Step-IsFenced {d} (bought c canonical gate answer lookup_order) h =
    submit_buy-IsFenced c canonical gate answer lookup_order d h
Step-IsFenced {d} (cancelled_entry c request_id gate answer) h =
    cancel_pending-IsFenced c request_id gate answer d h
Step-IsFenced {d} (stopped c canonical request_id gate answer) h =
    post_stop_once-IsFenced c canonical request_id gate answer d h

Reach-IsFenced : {d e : Directory} → IsFenced d → Reach d e → IsFenced e
Reach-IsFenced h here = h
Reach-IsFenced h (next run st) = Step-IsFenced st (Reach-IsFenced h run)

-- From a directory with no more orders sent than fences created, such as the empty one, over any
-- calls of the capabilities, with any bindings, orders, gates and answers, each of the purchase, the
-- stop and the cancellation is handed to the broker at most once, and never before its fence exists.
pub Reach-sends_once :
    {d e : Directory}
    → IsFenced d
    → Reach d e
    → (n : FenceName) → (sends n e ≤ 1) × (exists_file n e ≡ false → sends n e ≡ 0)
Reach-sends_once h run n =
    let fenced = Reach-IsFenced h run n in
    (ground (arith, fenced), λ missing. ground (arith, fenced))
