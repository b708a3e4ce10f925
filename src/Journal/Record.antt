-- ===== src/Journal/Record.antt =====
-- What `record` does to the journal.
use moex_tinvest_bot.Base.{
  ℕ, false, none, some, ◌≡◌, refl, ◌⊎◌, inl, inr, ◌≤◌, find, map, arith, Option-cases, Bool-cases,
}
use moex_tinvest_bot.Base.Result.{ok, err}
use moex_tinvest_bot.Base.Exec.{atomic, atomic-cases}
use moex_tinvest_bot.Domain.{Text, Moment, aware, naive, OrderIntent, OrderRecord, filled}
use moex_tinvest_bot.Journal.{
  Journal, Row, status, is_closed, is_request, write_row, record_result, no_reservation, settle,
  settle_row, completion,
}

abbrev pub clock_time : Moment → ℕ
clock_time (aware t) = t
clock_time (naive t) = t

module _ (digest : OrderIntent → Text) (account : Text) (result : OrderRecord) where
  abbrev pub id : Text
  id = result.intent.order_request_id

  -- The journal that an accepted result leaves behind for a row that is still open.
  abbrev pub rewritten : ℕ → Journal → Journal
  rewritten now j = record j {
    rows =
        map (write_row account id (status result.status) (completion result.status now) result)
          j.rows;
  }

  -- The checks against the row that was found.
  pub record MatchesRow (now : ℕ) (previous : Row) : Type 0 where
    pub was_open : is_closed previous.state ≡ false
    pub grown : previous.saved.filled_lots ≤ result.filled_lots
    pub same_order :
        digest (record result.intent { order_request_id = previous.logical_id })
        ≡ previous.payload_hash
    pub in_time : previous.snapshot_at ≤ now

  settle_row_ok :
      (now : ℕ) (previous : Row) (j : Journal)
      → (settle_row digest account result now previous j).0 ≡ ok tt
      → ((settle_row digest account result now previous j).1 ≡ j)
        ⊎ (MatchesRow now previous
            × ((settle_row digest account result now previous j).1 ≡ rewritten now j))
  unfolding settle_row
  settle_row_ok now previous j h = elim (Bool-cases (is_closed previous.state)) [
    | inl closed ↦ inl (ground arith)
    | inr still_open ↦ inr (ground arith, ground arith)
  ]

  -- What a result changes: nothing, or the row that it was checked against.
  abbrev pub Effect : ℕ → Journal → Journal → Type 0
  Effect now j j' =
      (j' ≡ j)
      ⊎ ((p : Row) × (find (is_request account id) j.rows ≡ some p)
          × MatchesRow now p
          × (j' ≡ rewritten now j))

  settle-found :
      (now : ℕ) (j : Journal) (p : Row)
      → find (is_request account id) j.rows ≡ some p
      → settle digest account result now j ≡ settle_row digest account result now p j
  unfolding settle
  settle-found now j p f = ground arith

  settle-missing :
      (now : ℕ) (j : Journal)
      → find (is_request account id) j.rows ≡ none
      → settle digest account result now j ≡ (err no_reservation, j)
  unfolding settle
  settle-missing now j f = ground arith

  settle_ok :
      (now : ℕ) (j : Journal)
      → (settle digest account result now j).0 ≡ ok tt
      → Effect now j (settle digest account result now j).1
  settle_ok now j h = elim (Option-cases (find (is_request account id) j.rows)) [
    | inl missing ↦ inl (rw (settle-missing now j missing) refl)
    | inr (p, f) ↦ elim (settle_row_ok now p j (rw (settle-found now j p f) at h)) [
      | inl same ↦ inl (rw (settle-found now j p f) same)
      | inr (m, written) ↦ inr (p, f, m, rw (settle-found now j p f) written)
    ]
  ]

  transaction_cases :
      (now : ℕ) (j : Journal) → Effect now j (atomic (settle digest account result now) j).1
  transaction_cases now j = elim (atomic-cases (settle digest account result now) j) [
    | inl same ↦ inl same
    | inr (_, done, whole) ↦ rw whole (settle_ok now j done)
  ]

  -- A call of `record` leaves the journal alone, or it has found an open row, checked the result
  -- against it and written it there; the result's own quantities have passed their tests.
  pub record_cases :
      (clock : Moment) (j : Journal)
      → ((record_result digest account result clock j).1 ≡ j)
        ⊎ ((result.filled_lots ≤ result.intent.lots)
            × (result.status ≡ filled → result.filled_lots ≡ result.intent.lots)
            × Effect (clock_time clock) j (record_result digest account result clock j).1)
  unfolding record_result
  record_cases (naive t) j = inl (ground arith)
  record_cases (aware t) j = ground (arith, transaction_cases t j)
