-- ===== src/Supervised/Tests.antt =====
-- An entry that is filled and protected, and the theorems there.
use moex_tinvest_bot.Base.{◌+◌, ◌*◌, ◌≢◌, arith, [], ◌∷◌, none, some, true, false}
use moex_tinvest_bot.Base.Result.{Result, ok}
use moex_tinvest_bot.Domain.{aware, cancelled}
use moex_tinvest_bot.Journal.{ready}
use moex_tinvest_bot.Protection.{
  Stop, sell_stop, loss_stop, active_stop, market_child, stop_loss_market, Names, ProtectionPlan,
  responded,
}
use moex_tinvest_bot.Live.{LivePermission}
use moex_tinvest_bot.Live.Attempt.{LiveNames, Clock}
use moex_tinvest_bot.Supervised.{
  SupervisedError, EntryOutcome, Entry, Answers, Desk, poll, run_supervised_entry,
}
use moex_tinvest_bot.Supervised.Poll.{IsTicking, poll-terminates}
use moex_tinvest_bot.Supervised.Entered.{Ends}
use moex_tinvest_bot.Supervised.Outcome.{run_supervised_entry-Ends}
use moex_tinvest_bot.Samples.{buy_one, live_state, policy, filled_as, planned_one, share_item}

abbrev names : LiveNames
names = record {
  digests = record { intent_digest = λ o. 61; policy_digest = λ p. 62; is_hex64 = λ t. true };
  payload_digest = λ o. o.lots;
  scope = λ account. account + 100;
  entry_id = λ scope id. id + 1000;
  moscow_day = λ t. 0;
}

abbrev plan_names : Names
plan_names = record {
  is_uuid = λ t. true;
  digest = λ p. 65;
  request_id = λ p. 66;
  scope = λ account. account + 100;
}

abbrev plan : ProtectionPlan
plan = record {
  account_id = 5;
  entry_logical_id = 70;
  entry_request_id = 1070;
  instrument = share_item;
  lots = 1;
  entry_price = 250_000_000_000;
  stop_trigger = 240_000_000_000;
  stop_limit = none;
  kind = stop_loss_market;
  take_profit = none;
}

-- The stop order, as the broker lists it.
abbrev seen_stop : Stop
seen_stop = record {
  instrument_uid = some 11;
  stop_order_id = some 67;
  has_activated_child = false;
  has_expiration = false;
  is_good_till_cancel = true;
  direction = sell_stop;
  stop_currency = 1;
  stop_type = loss_stop;
  stop_status = active_stop;
  child = market_child;
  lots_requested = 1;
  stop_price = some (record { money_currency = 1; amount = 240_000_000_000 });
  price = none;
}

abbrev permission : LivePermission
permission = record {
  account_id = 5;
  intent_sha256 = 61;
  policy_sha256 = 62;
  release_sha256 = 63;
  confirmed_at = aware 2_000_000;
  expires_at = aware 290_000_000;
  execution_admission_passed = true;
  journal_uuid = 64;
}

abbrev entry : Entry
entry = record {
  intent = buy_one;
  policy = policy;
  permission = permission;
  release = 63;
  plan = plan;
  confirmed_digest = 65;
  wait_seconds = 2;
  separate_journals = true;
}

abbrev clock : Clock
clock = record {
  at_start = aware 2_500_000;
  at_reserve = aware 2_600_000;
  at_authorize = aware 3_000_000;
  at_submit = aware 3_500_000;
  at_record = aware 3_600_000;
}

abbrev answers : Answers
answers = record {
  broker = record {
    account_id = 5;
    is_prod = true;
    capture = ok live_state;
    submit = λ o. ok (filled_as o.order_request_id);
    lookup_order = λ r. ok r;
  };
  stop_broker = record {
    account_id = 5;
    is_prod = true;
    available_units = ok 10;
    stops_before = ok [];
    post = responded (some 67) (some 66);
    stops_after = ok (seen_stop ∷ []);
  };
  clock = clock;
  at_check = aware 2_400_000;
  at_check_expiry = aware 2_400_001;
  at_gate = aware 3_200_000;
  at_gate_expiry = aware 3_200_001;
  gate_is_caught = true;
  approval = ok tt;
  entry_approval = ok tt;
  approval_before_submit = ok tt;
  cancel_gate = ok tt;
  monotonic = λ k. 5 + k * 1_000_000;
  polled = λ k r. ok (record r { status = cancelled });
  recorded_at = λ k. aware (3_700_000 + k);
  cancelled_entry = ok tt;
  after_cancel = λ r. ok r;
  after_cancel_at = aware 9_000_000;
}

abbrev desk : Desk
desk = record {
  live = record {
    book = record {
      is_initialized = true;
      live_account = some 5;
      live_uuid = some 64;
      journal = record { migration = ready; manifest = none; rows = [] };
    };
    submits = [];
  };
  plans = record { rows = []; posts = [] };
}

answers-IsTicking : IsTicking answers.monotonic
answers-IsTicking = record { first = omega arith; ticks = λ k h. omega arith }

poll-terminates_example :
    (poll names plan_names entry answers 3 1 (5 + 2 * 1_000_000) planned_one desk).0 ≢ ok none
poll-terminates_example =
    poll-terminates names plan_names entry answers answers-IsTicking planned_one desk

abbrev whole_run : Result SupervisedError EntryOutcome × Desk
whole_run = run_supervised_entry names plan_names entry answers 3 desk

run_supervised_entry-Ends_example : Ends names plan_names entry answers desk whole_run
run_supervised_entry-Ends_example = run_supervised_entry-Ends names plan_names entry answers desk 3
