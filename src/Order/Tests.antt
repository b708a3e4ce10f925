-- ===== src/Order/Tests.antt =====
-- Runs of the order state machine, and the theorems at them.
use moex_tinvest_bot.Base.{◌≡◌, ◌≤◌, refl, none, some, arith}
use moex_tinvest_bot.Base.Result.{ok, err}
use moex_tinvest_bot.Domain.{OrderRecord, validated, submitted, accepted, filled}
use moex_tinvest_bot.Order.{transition_order, filled_requires_all}
use moex_tinvest_bot.Order.Lifecycle.{
  update, Reach, IsConsistent, Reach-grows, Reach-terminal, Reach-submitted,
}
use moex_tinvest_bot.Samples.{planned_one}

abbrev validated_one : OrderRecord
validated_one = record planned_one { status = validated }

abbrev submitted_one : OrderRecord
submitted_one = record planned_one { status = submitted }

abbrev accepted_one : OrderRecord
accepted_one = record planned_one { status = accepted; broker_order_id = some 90 }

abbrev filled_one : OrderRecord
filled_one = record planned_one { status = filled; filled_lots = 1; broker_order_id = some 90 }

fill_needs_all : transition_order accepted_one filled none none ≡ err filled_requires_all
unfolding transition_order
fill_needs_all = refl

fills : transition_order accepted_one filled (some 1) (some 0) ≡ ok filled_one
unfolding transition_order
fills = refl

run : Reach planned_one filled_one
unfolding transition_order
run =
    Reach.next
      (Reach.next
        (Reach.next (Reach.next Reach.here (update validated none none refl))
          (update submitted none none refl))
        (update accepted none (some 90) refl))
      (update filled (some 1) none refl)

planned_one-IsConsistent : IsConsistent planned_one
planned_one-IsConsistent = ground arith

Reach-grows_example : (filled_one.intent ≡ planned_one.intent) × (0 ≤ 1) × IsConsistent filled_one
Reach-grows_example = Reach-grows planned_one-IsConsistent run

stays : Reach filled_one filled_one
stays = Reach.here

Reach-terminal_example : filled_one ≡ filled_one
Reach-terminal_example = Reach-terminal refl stays

Reach-submitted_example :
    (s : OrderRecord) × Reach planned_one s × (s.status ≡ submitted) × Reach s filled_one
Reach-submitted_example = Reach-submitted refl run refl
