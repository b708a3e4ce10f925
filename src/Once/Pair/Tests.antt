-- ===== src/Once/Pair/Tests.antt =====
-- The pair of one candidate, and the theorem at it.
use moex_tinvest_bot.Base.{ℕ, ◌≡◌, ◌≤◌, ◌<◌, ◌*◌, ◌+◌, refl, false, not, ◌==◌, any}
use moex_tinvest_bot.Base.Result.{ok}
use moex_tinvest_bot.Domain.{aware, buy, instrument_eq, OrderIntent}
use moex_tinvest_bot.Protection.{ProtectionPlan, validate}
use moex_tinvest_bot.Once.Pair.{
  Candidate, PairNames, paired, paired_intent, paired_plan, check_entry_state, is_held, cap,
  paired_lem,
}
use moex_tinvest_bot.Samples.{share_item, live_state}

abbrev names : PairNames
names = record {
  is_uuid = λ t. not (t == 0);
  is_hex64 = λ t. not (t == 0);
  entry_id = λ account order. account + order * 1000;
  rationale_of = λ decision. decision + 1000;
}

abbrev candidate : Candidate
candidate = record {
  account_id = 5;
  decision_sha256 = 99;
  instrument = share_item;
  limit_price = 250_000_000_000;
  stop_trigger = 245_000_000_000;
  order_request_id = 70;
  stop_request_id = 72;
  valid_until = aware 9_000_000;
  lots = 1;
}

abbrev order : OrderIntent
order = paired_intent names candidate

abbrev plan : ProtectionPlan
plan = paired_plan names candidate

pairs : paired names candidate ≡ ok (order, plan)
unfolding paired validate
pairs = refl

enters : check_entry_state order live_state plan ≡ ok tt
unfolding check_entry_state instrument_eq
enters = refl

paired_lem_example :
    (order.side ≡ buy)
    × (◌≡◌ {A = ℕ} order.lots 1)
    × (order.notional ≤ live_state.estimated_total)
    × (live_state.estimated_total ≤ cap)
    × (live_state.estimated_total ≤ live_state.cash_available)
    × (any (is_held order.instrument.uid) live_state.positions ≡ false)
    × (validate names.is_uuid plan ≡ ok tt)
    × (plan.entry_logical_id ≡ order.order_request_id)
    × (plan.instrument ≡ order.instrument)
    × (plan.entry_price ≡ order.limit_price)
    × (plan.stop_trigger * 100 ≤ order.limit_price * 98)
    × (plan.stop_trigger < order.limit_price)
    × (plan.stop_trigger < live_state.bid)
paired_lem_example = paired_lem names candidate order plan live_state pairs enters
