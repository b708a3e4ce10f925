-- ===== src/Protection/Tests.antt =====
-- A run of the protection journal, and the theorems at it.
use moex_tinvest_bot.Base.{
  ◌≡◌, ◌↔◌, ◌≤◌, ◌∷◌, ◌+◌, refl, arith, none, some, [], true, false, not, count, ◌==◌,
}
use moex_tinvest_bot.Base.Result.{ok, err}
use moex_tinvest_bot.Domain.{filled, instrument_eq}
use moex_tinvest_bot.Base.Int.{◌+ℤ◌}
use moex_tinvest_bot.Journal.{Row, ready, status}
use moex_tinvest_bot.Protection
use moex_tinvest_bot.Protection.{
  ProtectionPlan, stop_loss_market, Stop, Protected, Store, EntryBook, Broker, Names, responded,
  transport_failed, post_failed, sell_stop, loss_stop, active_stop, market_child, planned, active,
  unknown, is_open_plan, prepare, activate, reconcile, plan_row, validate, registered_live_journal,
  enroll, continue_from, submit_stop, reconcile_stop, read_back, set_plan_state, update_one,
  dispatch, post_stop, check_parent, is_verified,
}
use moex_tinvest_bot.Protection.Counts.{posted}
use moex_tinvest_bot.Protection.Once
use moex_tinvest_bot.Protection.Once.{IsSafe, Reach-posts_once}
use moex_tinvest_bot.Protection.Readback.{IsReconciled, reconcile_active}
use moex_tinvest_bot.Samples.{share_item, filled_as}

-- In place of the hashes and identifiers: enough to tell the samples apart.
abbrev names : Names
names = record {
  is_uuid = λ t. not (t == 0);
  digest = λ p. p.stop_trigger + p.lots;
  request_id = λ p. p.entry_request_id + 500;
  scope = λ a. a + 100;
}

-- A stop at 240 RUB under an entry of one lot at 250 RUB.
abbrev plan : ProtectionPlan
plan = record {
  account_id = 5;
  entry_logical_id = 70;
  entry_request_id = 71;
  instrument = share_item;
  lots = 1;
  entry_price = 250_000_000_000;
  stop_trigger = 240_000_000_000;
  stop_limit = none;
  kind = stop_loss_market;
  take_profit = none;
}

abbrev entry_row : Row
entry_row = record {
  account = 105;
  logical_id = 70;
  generation = 1;
  request_id = 71;
  payload_hash = 7001;
  plan_id = 8;
  state = status filled;
  snapshot_at = 1000;
  completed_at = some 2000;
  saved = filled_as 71;
}

abbrev book : EntryBook
book = record {
  is_initialized = true;
  live_account = some 5;
  live_uuid = some 60;
  journal = record { migration = ready; manifest = none; rows = entry_row ∷ [] };
}

abbrev seen_stop : Stop
seen_stop = record {
  instrument_uid = some 11;
  stop_order_id = some 300;
  has_activated_child = false;
  has_expiration = false;
  is_good_till_cancel = true;
  direction = sell_stop;
  stop_currency = 1;
  stop_type = loss_stop;
  stop_status = active_stop;
  child = market_child;
  lots_requested = 1;
  stop_price = some (record { money_currency = 1; amount = 240_000_000_000 });
  price = none;
}

abbrev broker : Broker
broker = record {
  account_id = 5;
  is_prod = true;
  available_units = ok 10;
  stops_before = ok [];
  post = responded (some 300) (some 571);
  stops_after = ok (seen_stop ∷ []);
}

abbrev empty : Store
empty = record { rows = []; posts = [] }

abbrev plan_row_in : Protection.State → Protected
plan_row_in state = record {
  account = 5;
  request_id = 571;
  plan_hash = 240_000_000_001;
  plan = plan;
  live_uuid = 60;
  state = state;
  stop_id = none;
}

abbrev protected_row : Protected
protected_row = record (plan_row_in active) { stop_id = some 300 }

abbrev protected_store : Store
protected_store = record { rows = protected_row ∷ []; posts = 571 ∷ [] }

prepares :
    prepare names plan book true empty
    ≡ (ok 571, record { rows = plan_row_in planned ∷ []; posts = [] })
unfolding prepare validate registered_live_journal enroll
prepares = refl

activates :
    activate names plan book broker (record { rows = plan_row_in planned ∷ []; posts = [] })
    ≡ (ok active, protected_store)
unfolding activate reconcile plan_row validate registered_live_journal continue_from submit_stop
    reconcile_stop read_back set_plan_state update_one dispatch post_stop check_parent is_verified
    instrument_eq ◌+ℤ◌
activates = refl

-- A lost answer is UNKNOWN, and the next call posts nothing.
lost :
    activate names plan book
      (record broker { post = transport_failed })
      (record { rows = plan_row_in planned ∷ []; posts = [] })
    ≡ (err post_failed, record { rows = plan_row_in unknown ∷ []; posts = 571 ∷ [] })
unfolding activate reconcile plan_row validate registered_live_journal continue_from submit_stop
    reconcile_stop read_back set_plan_state update_one dispatch post_stop check_parent is_verified
    instrument_eq ◌+ℤ◌
lost = refl

not_again :
    activate names plan book broker (record { rows = plan_row_in unknown ∷ []; posts = 571 ∷ [] })
    ≡ (ok unknown, record { rows = plan_row_in unknown ∷ []; posts = 571 ∷ [] })
unfolding activate reconcile plan_row validate registered_live_journal continue_from reconcile_stop
not_again = refl

empty-IsSafe : IsSafe empty
empty-IsSafe = record { unique = λ r. omega arith; spent = λ r. omega arith }

abbrev after_run : Store
after_run = (activate names plan book broker (prepare names plan book true empty).1).1

run : Once.Reach names empty after_run
run =
    Once.Reach.next (Once.Reach.next Once.Reach.here (Once.Step.prepared plan book true))
      (Once.Step.activated plan book broker)

Reach-posts_once_example :
    (posted 571 after_run ≤ 1)
    × (count (is_open_plan 571) after_run.rows ≡ 1 → posted 571 after_run ≡ 0)
Reach-posts_once_example = Reach-posts_once names empty-IsSafe run 571

reconcile_active_example :
    ((reconcile names plan broker protected_store).0 ≡ ok active)
    ↔ IsReconciled names plan broker protected_store
reconcile_active_example = reconcile_active names plan broker protected_store
