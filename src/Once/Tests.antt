-- ===== src/Once/Tests.antt =====
-- A single-use purchase, its repetition, and the theorem at them.
use moex_tinvest_bot.Base.{◌≡◌, ◌≤◌, refl, arith, [], ◌∷◌, false}
use moex_tinvest_bot.Base.Result.{ok, err}
use moex_tinvest_bot.Once.{
  Directory, Capability, create, check, dispatch, send, submit_buy, claim_file, buy_dispatch,
  file_exists, broker_raised, exists_file,
}
use moex_tinvest_bot.Once.Fences
use moex_tinvest_bot.Once.Fences.{IsFenced, sends, Reach-sends_once}
use moex_tinvest_bot.Samples.{filled_as}

abbrev capability : Capability
capability = record {
  binding = 900;
  expected_buy = 70;
  entry_request_id = 71;
  expected_stop = 80;
  stop_request_id = 571;
}

abbrev empty : Directory
empty = record { files = []; sent = [] }

abbrev claimed : Directory
claimed = record { files = (1, 900) ∷ []; sent = [] }

abbrev bought : Directory
bought = record { files = (2, 900) ∷ (1, 900) ∷ []; sent = buy_dispatch ∷ [] }

-- The response is lost: the order may stand at the broker.
lost :
    submit_buy capability 70 (ok tt) (err broker_raised) (λ r. ok r) claimed
    ≡ (err broker_raised, bought)
unfolding submit_buy dispatch check create send
lost = refl

-- And is not sent again.
not_again :
    submit_buy capability 70 (ok tt) (ok (filled_as 71)) (λ r. ok r) bought
    ≡ (err file_exists, bought)
unfolding submit_buy dispatch check create send
not_again = refl

empty-IsFenced : IsFenced empty
empty-IsFenced n = ground arith

abbrev after_run : Directory
after_run =
    (submit_buy capability 70 (ok tt) (ok (filled_as 71)) (λ r. ok r)
      (submit_buy capability 70 (ok tt) (err broker_raised) (λ r. ok r)
        (create claim_file 900 empty).1).1).1

run : Fences.Reach empty after_run
run =
    Fences.Reach.next
      (Fences.Reach.next (Fences.Reach.next Fences.Reach.here (Fences.Step.created claim_file 900))
        (Fences.Step.bought capability 70 (ok tt) (err broker_raised) (λ r. ok r)))
      (Fences.Step.bought capability 70 (ok tt) (ok (filled_as 71)) (λ r. ok r))

Reach-sends_once_example :
    (sends buy_dispatch after_run ≤ 1)
    × (exists_file buy_dispatch after_run ≡ false → sends buy_dispatch after_run ≡ 0)
Reach-sends_once_example = Reach-sends_once empty-IsFenced run buy_dispatch
