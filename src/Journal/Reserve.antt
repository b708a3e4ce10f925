-- ===== src/Journal/Reserve.antt =====
-- What `reserve` does to the journal, on each of its ways out.
use moex_tinvest_bot.Base.{
  refl, ◌⊎◌, inl, inr, ℕ, Bool, false, Option, none, some, [], ◌∷◌, ◌++◌, ◌≡◌, ◌≢◌, any, arith,
}
use moex_tinvest_bot.Base.Result.{Result, ok, err}
use moex_tinvest_bot.Domain.{Text, Moment, aware, naive, OrderIntent}
use moex_tinvest_bot.Journal.{
  Journal, Row, JournalError, ready, is_pending, is_clash, last_row, reserved_row, reserve,
}

abbrev moment_time : Moment → ℕ
moment_time (aware t) = t
moment_time (naive t) = t

abbrev result_time : Result JournalError Moment → ℕ
result_time (ok m) = moment_time m
result_time (err _) = 0

-- The time of the snapshot that the reservation rests on: the caller's, or its `authorize`'s.
abbrev pub snapshot_time : Moment → Option (Journal → Result JournalError Moment) → Journal → ℕ
snapshot_time snapshot none j = moment_time snapshot
snapshot_time snapshot (some authorize) j = result_time (authorize j)

granted-or_not :
    (r : Result JournalError (Option Text))
    → ((id : Text) × (r ≡ ok (some id))) ⊎ ((id : Text) → r ≢ ok (some id))
granted-or_not (ok (some id)) = inl (id, refl)
granted-or_not (ok none) = inr (λ id e. cc)
granted-or_not (err x) = inr (λ id e. cc)

module _ (digest : OrderIntent → Text) (account : Text) (intent : OrderIntent) (plan_id : Text)
    (snapshot : Moment) (residual_exit : Bool)
    (authorize : Option (Journal → Result JournalError Moment)) (fresh : Text) (j : Journal) where
  abbrev outcome : Result JournalError (Option Text) × Journal
  outcome = reserve digest account intent plan_id snapshot residual_exit authorize fresh j

  -- A reservation that does not return an id leaves the journal as it was.
  pub reserve_failed : ((id : Text) → outcome.0 ≢ ok (some id)) → outcome.1 ≡ j
  unfolding reserve
  reserve_failed h = ground (arith, h fresh)

  pub reserve_ok :
      {id : Text}
      → outcome.0 ≡ ok (some id)
      → (id ≡ fresh)
        × (j.migration ≡ ready)
        × (any (is_pending account) j.rows ≡ false)
        × (residual_exit ≡ false → last_row account intent.order_request_id j.rows ≡ none)
  unfolding reserve
  reserve_ok h = ground arith

  abbrev pub new_row : Row
  new_row =
      reserved_row account intent plan_id (digest intent)
        (last_row account intent.order_request_id j.rows) (snapshot_time snapshot authorize j) fresh

  pub reserve_row :
      {id : Text}
      → outcome.0 ≡ ok (some id)
      → (any (is_clash new_row) j.rows ≡ false)
        × (outcome.1 ≡ record j { rows = j.rows ++ new_row ∷ [] })
  unfolding reserve
  reserve_row h = ground arith

  -- A call of `reserve` leaves the journal alone, or it appends one row, which clashes with none and
  -- whose account had no open order.
  pub reserve_cases :
      (outcome.1 ≡ j)
      ⊎ ((any (is_pending account) j.rows ≡ false)
          × (any (is_clash new_row) j.rows ≡ false)
          × (outcome.1 ≡ record j { rows = j.rows ++ new_row ∷ [] })
          × (residual_exit ≡ false → last_row account intent.order_request_id j.rows ≡ none))
  reserve_cases = elim (granted-or_not outcome.0) [
    | inl (id, e) ↦ inr ((reserve_ok e).2, (reserve_row e).0, (reserve_row e).1, (reserve_ok e).3)
    | inr no_id ↦ inl (reserve_failed no_id)
  ]

-- A grant has called the caller's `authorize`, and it answered with a time that has a zone.
pub reserve_authorized :
    (digest : OrderIntent → Text) (account : Text) (intent : OrderIntent) (plan_id : Text)
    (snapshot : Moment) (residual_exit : Bool) (authorize : Journal → Result JournalError Moment)
    (fresh : Text) (j : Journal) {id : Text}
    → (reserve digest account intent plan_id snapshot residual_exit (some authorize) fresh j).0
      ≡ ok (some id)
    → (t : ℕ) × (authorize j ≡ ok (aware t))
unfolding reserve
reserve_authorized digest account intent plan_id snapshot residual_exit authorize fresh j {id} h =
    by_answer (authorize j) refl
  where
    by_answer :
        (r : Result JournalError Moment) → authorize j ≡ r → (t : ℕ) × (authorize j ≡ ok (aware t))
    by_answer (ok (aware t)) eq = (t, eq)
    by_answer (ok (naive t)) eq = absurd (ground arith)
    by_answer (err x) eq = absurd (ground arith)
