-- ===== src/TakeProfit/Tests.antt =====
-- An exit at the target: the stop order is cancelled, and the lot is sold.
use moex_tinvest_bot.Base.{[], ◌∷◌, ◌+◌, none, some, true, false}
use moex_tinvest_bot.Base.Int.{pos}
use moex_tinvest_bot.Base.Result.{Result, ok, ⊤}
use moex_tinvest_bot.Domain.{aware, filled}
use moex_tinvest_bot.Journal.{Row, ready, status}
use moex_tinvest_bot.Protection.{
  Stop, sell_stop, loss_stop, active_stop, canceled_stop, market_child, stop_loss_market, Names,
  ProtectionPlan, Protected, active,
}
use moex_tinvest_bot.Live.{LivePermission, LiveState}
use moex_tinvest_bot.Live.Attempt.{LiveNames, Clock}
use moex_tinvest_bot.Supervised.{Desk}
use moex_tinvest_bot.TakeProfit.{ExitError, ExitAnswers, run_exit}
use moex_tinvest_bot.Samples.{live_state, policy, filled_as, share_item}

-- The account's one lot is counted from a purchase of the row below.
abbrev names : LiveNames
names = record {
  digests = record { intent_digest = λ o. 61; policy_digest = λ p. 62; is_hex64 = λ t. true };
  payload_digest = λ o. o.lots;
  scope = λ account. account + 100;
  entry_id = λ scope id. id + 1000;
  moscow_day = λ t. 0;
}

abbrev plan_names : Names
plan_names = record {
  is_uuid = λ t. true;
  digest = λ p. 65;
  request_id = λ p. 66;
  scope = λ account. account + 100;
}

abbrev plan : ProtectionPlan
plan = record {
  account_id = 5;
  entry_logical_id = 70;
  entry_request_id = 1070;
  instrument = share_item;
  lots = 1;
  entry_price = 250_000_000_000;
  stop_trigger = 240_000_000_000;
  stop_limit = none;
  kind = stop_loss_market;
  take_profit = some 260_000_000_000;
}

-- The stop order, as the broker lists it.
abbrev seen_stop : Stop
seen_stop = record {
  instrument_uid = some 11;
  stop_order_id = some 67;
  has_activated_child = false;
  has_expiration = false;
  is_good_till_cancel = true;
  direction = sell_stop;
  stop_currency = 1;
  stop_type = loss_stop;
  stop_status = active_stop;
  child = market_child;
  lots_requested = 1;
  stop_price = some (record { money_currency = 1; amount = 240_000_000_000 });
  price = none;
}

abbrev permission : LivePermission
permission = record {
  account_id = 5;
  intent_sha256 = 61;
  policy_sha256 = 62;
  release_sha256 = 63;
  confirmed_at = aware 2_000_000;
  expires_at = aware 290_000_000;
  execution_admission_passed = true;
  journal_uuid = 64;
}

-- The lot of the account, at a bid of 260 RUB.
abbrev risen : LiveState
risen = record live_state {
  bid = 260_000_000_000;
  ask = 260_100_000_000;
  positions =
      (
        11,
        record {
          instrument = share_item;
          units = pos 10;
          free_units = pos 10;
          price = 260_000_000_000;
        },
      )
      ∷ [];
}

abbrev clock : Clock
clock = record {
  at_start = aware 2_500_000;
  at_reserve = aware 2_600_000;
  at_authorize = aware 3_000_000;
  at_submit = aware 3_500_000;
  at_record = aware 3_600_000;
}

abbrev answers : ExitAnswers
answers = record {
  broker = record {
    account_id = 5;
    is_prod = true;
    capture = ok risen;
    submit = λ o. ok (record {
      intent = o;
      status = filled;
      filled_lots = 1;
      broker_order_id = some 91;
      status_detail = none;
    });
    lookup_order = λ r. ok r;
  };
  stop_account = 5;
  stop_is_prod = true;
  clock = clock;
  at_check = aware 2_400_000;
  at_expiry = aware 2_400_001;
  at_precheck = aware 2_400_002;
  first_gate = ok tt;
  second_gate = ok tt;
  before_submit = ok tt;
  captured = ok (record risen { stop_uids = 11 ∷ [] });
  history = ok (seen_stop ∷ []);
  cancelled = ok tt;
  history_after = ok (record seen_stop { stop_status = canceled_stop } ∷ []);
}

-- The purchase of the day before.
abbrev entry_row : Row
entry_row = record {
  account = 105;
  logical_id = 70;
  generation = 1;
  request_id = 1070;
  payload_hash = 1;
  plan_id = 8;
  state = status filled;
  snapshot_at = 1000;
  completed_at = some 2000;
  saved = filled_as 1070;
}

abbrev protected_row : Protected
protected_row = record {
  account = 5;
  request_id = 66;
  plan_hash = 65;
  plan = plan;
  live_uuid = 64;
  state = active;
  stop_id = some 67;
}

abbrev desk : Desk
desk = record {
  live = record {
    book = record {
      is_initialized = true;
      live_account = some 5;
      live_uuid = some 64;
      journal = record { migration = ready; manifest = none; rows = entry_row ∷ [] };
    };
    submits = [];
  };
  plans = record { rows = protected_row ∷ []; posts = [] };
}

abbrev whole_exit : Result ExitError ⊤ × Desk
whole_exit = run_exit names plan_names (λ t. t + 5) plan policy permission 63 answers desk
