-- ===== src/Journal/Tests.antt =====
-- A run of the journal, and the theorems at it.
use mathlib.Core.Path.{subst}
use moex_tinvest_bot.Base.{
  ◌+◌, ◌*◌, ◌≡◌, ◌≢◌, ◌≤◌, count, refl, none, some, Option, true, false, [], ◌∷◌, arith, any, find,
  ◌==◌,
}
use moex_tinvest_bot.Base.Result.{Result, ok, err}
use moex_tinvest_bot.Domain.{Text, aware, OrderIntent}
use moex_tinvest_bot.Journal.{
  Journal, Row, ready, reserve, reserve_in, insert_row, record_result, settle, settle_row,
  unresolved, is_logical, is_request, pending_order, JournalError,
}
use moex_tinvest_bot.Journal.Reserve.{new_row}
use moex_tinvest_bot.Journal.Invariant
use moex_tinvest_bot.Journal.Invariant.{IsSound, Reach-IsSound}
use moex_tinvest_bot.Journal.Safety.{
  reserve_blocked, reserve_granted, OnceReach, OnceStep, AtMostOnce, OnceReach-AtMostOnce, Advances,
  record-Advances,
}
use moex_tinvest_bot.Samples.{buy_one, filled_as}

-- In place of a hash: enough to tell the samples' orders apart.
abbrev digest : OrderIntent → Text
digest o = o.order_request_id * 100 + o.lots

abbrev empty : Journal
empty = record { migration = ready; manifest = none; rows = [] }

abbrev reserved : Journal
reserved = record empty { rows = new_row digest 5 buy_one 8 (aware 1000) false none 71 empty ∷ [] }

grants : reserve digest 5 buy_one 8 (aware 1000) false none 71 empty ≡ (ok (some 71), reserved)
unfolding reserve reserve_in insert_row
grants = refl

refuses_second :
    (reserve digest 5 buy_one 9 (aware 2000) true none 72 reserved).0 ≡ err pending_order
unfolding reserve reserve_in insert_row
refuses_second = refl

-- The broker's answer closes the order; the same plan then gets no second id.
closes :
    (reserve digest 5 buy_one 8
      (aware 3000)
      false
      none
      73
      (record_result digest 5 (filled_as 71) (aware 2000) reserved).1).0
    ≡ ok none
unfolding reserve reserve_in insert_row record_result settle settle_row
closes = refl

empty-IsSound : IsSound empty
empty-IsSound = record { one_pending = λ a. omega arith; unique = λ k. omega arith; settled = tt }

run :
    Invariant.Reach digest empty
      (record_result digest 5
        (filled_as 71)
        (aware 2000)
        (reserve digest 5 buy_one 8 (aware 1000) false none 71 empty).1).1
run =
    Invariant.Reach.next
      (Invariant.Reach.next Invariant.Reach.here
        (Invariant.Step.reserved 5 buy_one 8 (aware 1000) false none 71))
      (Invariant.Step.recorded 5 (filled_as 71) (aware 2000))

Reach-IsSound_example :
    IsSound
      (record_result digest 5
        (filled_as 71)
        (aware 2000)
        (reserve digest 5 buy_one 8 (aware 1000) false none 71 empty).1).1
Reach-IsSound_example = Reach-IsSound digest empty-IsSound run

once_run :
    OnceReach digest empty
      (reserve digest 5 buy_one 8
        (aware 3000)
        false
        none
        73
        (record_result digest 5 (filled_as 71) (aware 2000) reserved).1).1
once_run =
    OnceReach.next (OnceReach.next first (OnceStep.recorded 5 (filled_as 71) (aware 2000)))
      (OnceStep.reserved 5 buy_one 8 (aware 3000) none 73)
  where
    first : OnceReach digest empty reserved
    first =
        subst (λ (o : Result JournalError (Option Text) × Journal). OnceReach digest empty o.1)
          grants
          (OnceReach.next OnceReach.here (OnceStep.reserved 5 buy_one 8 (aware 1000) none 71))

empty-AtMostOnce : AtMostOnce digest empty
empty-AtMostOnce a l = omega arith

OnceReach-AtMostOnce_example :
    count
      (is_logical 5 70)
      (reserve digest 5 buy_one 8
        (aware 3000)
        false
        none
        73
        (record_result digest 5 (filled_as 71) (aware 2000) reserved).1).1.rows
    ≤ 1
OnceReach-AtMostOnce_example = OnceReach-AtMostOnce digest empty-AtMostOnce once_run 5 70

reserve_blocked_example :
    let (r, k) = reserve digest 5 buy_one 9 (aware 2000) true none 72 reserved in
    ((id : Text) → r ≢ ok (some id)) × (k ≡ reserved)
reserve_blocked_example = reserve_blocked digest 5 buy_one 9 (aware 2000) true none 72 reserved refl

granted : (reserve digest 5 buy_one 8 (aware 1000) false none 71 empty).0 ≡ ok (some 71)
unfolding reserve reserve_in insert_row
granted = refl

reserve_granted_example :
    let k = (reserve digest 5 buy_one 8 (aware 1000) false none 71 empty).1 in
    (◌≡◌ {A = Text} 71 71)
    × (empty.migration ≡ ready)
    × (unresolved 5 empty ≡ [])
    × (unresolved 5 k ≡ (new_row digest 5 buy_one 8 (aware 1000) false none 71 empty).saved ∷ [])
    × (any (λ (r : Row). r.request_id == 71) empty.rows ≡ false)
reserve_granted_example =
    reserve_granted digest 5 buy_one 8 (aware 1000) false none 71 empty granted

abbrev first_row : Row
first_row = new_row digest 5 buy_one 8 (aware 1000) false none 71 empty

record-Advances_example :
    (p' : Row) × (find
        (is_request 5 71)
        (record_result digest 5 (filled_as 71) (aware 2000) reserved).1.rows
      ≡ some p')
    × Advances first_row p'
record-Advances_example =
    record-Advances digest 5 (filled_as 71) (aware 2000) reserved 5 71 first_row refl
