-- ===== src/Sandbox/Tests.antt =====
-- A plan of two purchases: the first is filled, the second is cancelled.
use moex_tinvest_bot.Base.{[], ◌∷◌, ◌+◌, ◌==◌, none, some, List, if◌then◌else◌}
use moex_tinvest_bot.Base.Result.{Result, ok}
use moex_tinvest_bot.Domain.{OrderIntent, aware, accepted, filled, cancelled}
use moex_tinvest_bot.Journal.{ready}
use moex_tinvest_bot.Sandbox.{SandboxError, SandboxStore, SandboxPort, execute_plan}
use moex_tinvest_bot.Sandbox.Batch.{Report, Reports, execute_plan-IsBatch}
use moex_tinvest_bot.Samples.{buy_one, filled_as}

-- Every order is accepted; the first one is then filled, and the others are cancelled.
abbrev port : SandboxPort
port = record {
  account_id = 5;
  submit = λ k o. ok (record (filled_as o.order_request_id) { status = accepted; filled_lots = 0 });
  settle = some λ k r. ok (
      (if k == 0
        then record r { status = filled; filled_lots = 1 }
        else record r { status = cancelled })
      ∷ []);
  fresh = λ k. k + 1000;
  recorded_at = λ k. aware (3_000_000 + k);
  settled_at = λ k. aware (4_000_000 + k);
}

abbrev buy_two : OrderIntent
buy_two = record buy_one { order_request_id = 71 }

abbrev buy_three : OrderIntent
buy_three = record buy_one { order_request_id = 72 }

abbrev start : SandboxStore
start = record { journal = record { migration = ready; manifest = none; rows = [] }; sent = [] }

abbrev items : List (Result SandboxError OrderIntent)
items = ok buy_one ∷ ok buy_two ∷ ok buy_three ∷ []

abbrev whole_plan : Result SandboxError Report × SandboxStore
whole_plan = execute_plan (λ o. o.lots) port 9 (aware 2_000_000) 5 [] items start

execute_plan-IsBatch_example : Reports 5 3 whole_plan.0
execute_plan-IsBatch_example =
    execute_plan-IsBatch (λ o. o.lots) port 9 (aware 2_000_000) 5 [] items start
