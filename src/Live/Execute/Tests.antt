-- ===== src/Live/Execute/Tests.antt =====
-- A purchase that is submitted and filled, one that the caller's gate stops, and the theorems there.
use moex_tinvest_bot.Base.{◌≡◌, ◌≤◌, arith, [], ◌+◌, count, true, none, some, Option}
use moex_tinvest_bot.Base.Result.{Result, ok}
use moex_tinvest_bot.Domain.{aware, OrderRecord}
use moex_tinvest_bot.Journal.{Journal, ready}
use moex_tinvest_bot.Journal.Invariant.{has_id}
use moex_tinvest_bot.Live.{LivePermission}
use moex_tinvest_bot.Live.Attempt.{ExecuteError, LiveNames, LiveBroker, Clock, LiveStore}
use moex_tinvest_bot.Live.Execute.{execute_live_intent}
use moex_tinvest_bot.Live.Execute.Submits.{Reach, Step, IsSpent, submitted, Reach-submits_once}
use moex_tinvest_bot.Live.Execute.Approved.{Sends, execute-IsBacked}
use moex_tinvest_bot.Samples.{buy_one, live_state, policy, filled_as}

abbrev names : LiveNames
names = record {
  digests = record { intent_digest = λ o. 61; policy_digest = λ p. 62; is_hex64 = λ t. true };
  payload_digest = λ o. o.lots;
  scope = λ account. account + 100;
  entry_id = λ scope id. id + 1000;
  moscow_day = λ t. 0;
}

abbrev broker : LiveBroker
broker = record {
  account_id = 5;
  is_prod = true;
  capture = ok live_state;
  submit = λ o. ok (filled_as o.order_request_id);
  lookup_order = λ r. ok r;
}

abbrev permission : LivePermission
permission = record {
  account_id = 5;
  intent_sha256 = 61;
  policy_sha256 = 62;
  release_sha256 = 63;
  confirmed_at = aware 2_000_000;
  expires_at = aware 60_000_000;
  execution_admission_passed = true;
  journal_uuid = 64;
}

abbrev clock : Clock
clock = record {
  at_start = aware 2_500_000;
  at_reserve = aware 2_600_000;
  at_authorize = aware 3_000_000;
  at_submit = aware 3_500_000;
  at_record = aware 3_600_000;
}

abbrev empty_journal : Journal
empty_journal = record { manifest = none; migration = ready; rows = [] }

abbrev start : LiveStore
start = record {
  book = record {
    is_initialized = true;
    live_account = some 5;
    live_uuid = some 64;
    journal = empty_journal;
  };
  submits = [];
}

abbrev after_purchase : Result ExecuteError (Option OrderRecord) × LiveStore
after_purchase = execute_live_intent names broker buy_one policy permission 63 (ok tt) clock start

start-IsSpent : IsSpent start
start-IsSpent = record { unique = λ id. omega arith; spent = λ id. omega arith }

-- The same purchase is tried again after the first attempt.
abbrev after_both : LiveStore
after_both =
    (execute_live_intent names broker buy_one policy permission 63 (ok tt) clock after_purchase.1).1

Reach-submits_once_example :
    (submitted 1070 after_both ≤ 1)
    × (count (has_id 1070) after_both.book.journal.rows ≡ 0 → submitted 1070 after_both ≡ 0)
Reach-submits_once_example =
    Reach-submits_once start-IsSpent
      (Reach.next
        (Reach.next Reach.here (Step.executed broker buy_one policy permission 63 (ok tt) clock))
        (Step.executed broker buy_one policy permission 63 (ok tt) clock))
      1070

execute-IsBacked_example :
    Sends names broker buy_one policy permission 63 (ok tt) clock start after_purchase.1
execute-IsBacked_example =
    execute-IsBacked names broker buy_one policy permission 63 (ok tt) clock start
