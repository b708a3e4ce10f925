-- ===== src/Once.antt =====
-- src/moex_bot/prod_long_once.py: the fences of a single-use production purchase, `Claim`, and the
-- capabilities `OnceBroker` and `OnceProtection` that dispatch through them. The state is the claim's
-- directory, and what was handed to the broker. Files are created exclusively and never removed. The
-- canonical JSON of a value is a text, the gates are answers, and so are the broker's.
pub mod Fences
pub mod Pair
mod Tests
use moex_tinvest_bot.Base.{
  ℕ, Bool, true, false, not, ◌&&◌, ◌||◌, Option, none, some, List, [], ◌∷◌, ◌++◌, ◌==◌, is_some,
  if◌then◌else◌,
}
use moex_tinvest_bot.Base.Result.{⊤, Result, ok, err}
use moex_tinvest_bot.Base.Exec.{Exec, pure, lift, gets, ◌>>=◌, ◌>>◌, raise_if, modify}
use moex_tinvest_bot.Domain.{Text, OrderIntent, OrderRecord}
use moex_tinvest_bot.Portfolio.{Dict, lookup}
use moex_tinvest_bot.Protection.{ProtectionPlan}

-- The names of the files of a claim.
pub data FenceName : Type 0 where
  claim_file buy_dispatch stop_dispatch cancel_dispatch result_file : FenceName

abbrev pub fence_code : FenceName → ℕ
fence_code claim_file = 1
fence_code buy_dispatch = 2
fence_code stop_dispatch = 3
fence_code cancel_dispatch = 4
fence_code result_file = 5

-- The directory's files with their contents, and the fences whose orders were handed to the broker.
pub record Directory : Type 0 where
  pub files : Dict Text
  pub sent : List FenceName

pub data OnceError : Type 0 where
  claim_missing claim_changed file_exists changed_buy foreign_lookup foreign_cancel changed_stop :
      OnceError
  gate_closed broker_raised : OnceError

abbrev pub Fenced : Type 0 → Type 0
Fenced = Exec Directory OnceError

-- `Claim.exists`
abbrev pub exists_file : FenceName → Directory → Bool
exists_file name d = is_some (lookup (fence_code name) d.files)

abbrev has_content : Text → Option Text → Bool
has_content t none = false
has_content t (some u) = u == t

-- `Claim.create`: O_CREAT | O_EXCL
pub create : FenceName → Text → Fenced ⊤
create name value = do
  taken ← gets (exists_file name)
  raise_if taken file_exists
  modify (λ d. record d { files = (fence_code name, value) ∷ d.files })

-- `Claim.check`
check : Text → Fenced ⊤
check binding = do
  content ← gets (λ d. lookup (fence_code claim_file) d.files)
  raise_if (not (is_some content)) claim_missing
  raise_if (not (has_content binding content)) claim_changed

-- `Claim.dispatch`
dispatch : Text → FenceName → Fenced ⊤
dispatch binding name = do check binding; create name binding

-- The order of a fence enters the transport.
send : FenceName → Fenced ⊤
send name = modify (λ d. record d { sent = d.sent ++ name ∷ [] })

-- What a capability was built with: the claim's binding, the canonical text of the order that may be
-- bought, and the request id of the entry.
pub record Capability : Type 0 where
  pub binding : Text
  pub expected_buy : Text
  pub entry_request_id : Text
  pub expected_stop : Text
  pub stop_request_id : Text

-- `OnceBroker.submit` of an order with this canonical text; the answers are the gate's, the
-- broker's, and that of the readback.
pub submit_buy :
    Capability
    → Text
    → Result OnceError ⊤
    → Result OnceError OrderRecord
    → (OrderRecord → Result OnceError OrderRecord)
    → Fenced OrderRecord
submit_buy c canonical gate answer lookup_order = do
  raise_if (not (canonical == c.expected_buy)) changed_buy
  lift gate
  dispatch c.binding buy_dispatch
  send buy_dispatch
  submitted ← lift answer
  lift (lookup_order submitted)

-- `OnceBroker.cancel_pending` of the order with this request id
pub cancel_pending : Capability → Text → Result OnceError ⊤ → Result OnceError ⊤ → Fenced ⊤
cancel_pending c request_id gate answer = do
  raise_if (not (request_id == c.entry_request_id)) foreign_cancel
  lift gate
  dispatch c.binding cancel_dispatch
  send cancel_dispatch
  lift answer

-- `OnceProtection.post_stop` of a plan with this canonical text
pub post_stop_once :
    {A : Type 0} → Capability → Text → Text → Result OnceError ⊤ → Result OnceError A → Fenced A
post_stop_once c canonical request_id gate answer = do
  raise_if (not (canonical == c.expected_stop) || not (request_id == c.stop_request_id))
      changed_stop
  lift gate
  dispatch c.binding stop_dispatch
  send stop_dispatch
  lift answer
