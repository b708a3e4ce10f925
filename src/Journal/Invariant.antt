-- ===== src/Journal/Invariant.antt =====
-- The invariant of the journal: every call of `reserve` and `record` keeps it.
use moex_tinvest_bot.Base.{
  ℕ, Bool, false, Option, some, List, [], ◌∷◌, ◌++◌, ◌≡◌, inl, inr, ◌≤◌, refl, sym, any, count,
  find, map, arith, ◌==◌, is_some, count-append, count-eq-zero, keep, length, length-keep,
  length-map,
}
use moex_tinvest_bot.Base.Result.{⊤, Result}
use moex_tinvest_bot.Domain.{Text, Moment, OrderIntent, OrderRecord, filled}
use moex_tinvest_bot.Journal.{
  Journal, Row, RowState, JournalError, status, is_closed, is_pending, is_request, is_logical,
  is_clash, write_row, reserve, record_result, completion, unresolved,
}
use moex_tinvest_bot.Journal.Record.{clock_time, record_cases}
use moex_tinvest_bot.Journal.Reserve.{reserve_cases, new_row}

abbrev pub has_id : Text → Row → Bool
has_id id r = r.request_id == id

-- The facts about one row: it has a completion time exactly when its state is final, its executed
-- quantity is within the order and all of it when filled, and it stores its own request's record.
pub record IsSettled (r : Row) : Type 0 where
  pub timed : is_some r.completed_at ≡ is_closed r.state
  pub within : r.saved.filled_lots ≤ r.saved.intent.lots
  pub complete : r.state ≡ status filled → r.saved.filled_lots ≡ r.saved.intent.lots
  pub own : r.saved.intent.order_request_id ≡ r.request_id

abbrev pub AllSettled : List Row → Type 0
AllSettled [] = ⊤
AllSettled (r ∷ rows) = IsSettled r × AllSettled rows

pub record IsSound (j : Journal) : Type 0 where
  pub one_pending : (a : Text) → count (is_pending a) j.rows ≤ 1
  pub unique : (id : Text) → count (has_id id) j.rows ≤ 1
  pub settled : AllSettled j.rows

AllSettled-append :
    (rows : List Row) (r : Row) → AllSettled rows → IsSettled r → AllSettled (rows ++ r ∷ [])
AllSettled-append [] r h k = (k, tt)
AllSettled-append (x ∷ rows) r h k = (h.0, AllSettled-append rows r h.1 k)

pub no_clash-has_id :
    (new : Row) (rows : List Row)
    → any (is_clash new) rows ≡ false
    → count (has_id new.request_id) rows ≡ 0
no_clash-has_id new [] h = refl
no_clash-has_id new (x ∷ rows) h = ground (arith, no_clash-has_id new rows)

module _ (account id : Text) (state : RowState) (at : Option ℕ) (result : OrderRecord) where
  abbrev write : Row → Row
  write = write_row account id state at result

  write-none : (rows : List Row) → count (has_id id) rows ≡ 0 → map write rows ≡ rows
  write-none [] h = refl
  write-none (x ∷ rows) h = ground (arith, write-none rows)

  pub count-write_id :
      (k : Text) (rows : List Row) → count (has_id k) (map write rows) ≡ count (has_id k) rows
  count-write_id k [] = refl
  count-write_id k (x ∷ rows) = ground (arith, count-write_id k rows)

  pub count-write_logical :
      (a l : Text) (rows : List Row)
      → count (is_logical a l) (map write rows) ≡ count (is_logical a l) rows
  count-write_logical a l [] = refl
  count-write_logical a l (x ∷ rows) = ground (arith, count-write_logical a l rows)

  count-write_pending :
      (b : Text) (prev : Row) (rows : List Row)
      → find (is_request account id) rows ≡ some prev
      → is_closed prev.state ≡ false
      → count (has_id id) rows ≤ 1
      → count (is_pending b) (map write rows) ≤ count (is_pending b) rows
  count-write_pending b prev [] f c u = omega arith
  count-write_pending b prev (x ∷ rows) f c u =
      ground (arith, count-write_pending b prev rows, write-none rows)

  AllSettled-write :
      (rows : List Row)
      → AllSettled rows
      → ((r : Row)
          → r.request_id ≡ id
          → IsSettled (record r { state = state; completed_at = at; saved = result }))
      → AllSettled (map write rows)
  AllSettled-write [] h k = tt
  AllSettled-write (x ∷ rows) h k = ground (arith, AllSettled-write rows h.1 k, k x)

pending-append :
    (new : Row) (a : Text) (rows : List Row)
    → count (is_pending a) rows ≤ 1
    → any (is_pending new.account) rows ≡ false
    → count (is_pending a) (rows ++ new ∷ []) ≤ 1
pending-append new a rows h free = ground (
  arith,
  count-append {0} (is_pending a) rows (new ∷ []),
  count-eq-zero {0} (is_pending new.account) rows free,
  h,
)

unique-append :
    (new : Row) (k : Text) (rows : List Row)
    → count (has_id k) rows ≤ 1
    → any (is_clash new) rows ≡ false
    → count (has_id k) (rows ++ new ∷ []) ≤ 1
unique-append new k rows h fresh =
    ground (arith, count-append {0} (has_id k) rows (new ∷ []), no_clash-has_id new rows fresh, h)

result-IsSettled :
    (result : OrderRecord) (now : ℕ) (r : Row)
    → result.filled_lots ≤ result.intent.lots
    → (result.status ≡ filled → result.filled_lots ≡ result.intent.lots)
    → r.request_id ≡ result.intent.order_request_id
    → IsSettled (record r {
      state = status result.status;
      completed_at = completion result.status now;
      saved = result;
    })
result-IsSettled result now r within complete own = record {
  timed = ground arith;
  within = within;
  complete = λ e. ground arith;
  own = sym own;
}

-- A row appended without a clash, for an account with nothing pending, keeps the invariant.
append-IsSound :
    (new : Row) (j : Journal)
    → IsSound j
    → any (is_pending new.account) j.rows ≡ false
    → any (is_clash new) j.rows ≡ false
    → IsSettled new
    → IsSound (record j { rows = j.rows ++ new ∷ [] })
append-IsSound new j h free fresh s = record {
  one_pending = λ a. pending-append new a j.rows (h.one_pending a) free;
  unique = λ k. unique-append new k j.rows (h.unique k) fresh;
  settled = AllSettled-append j.rows new h.settled s;
}

module _ (digest : OrderIntent → Text) where
  -- A call of `record`, whatever it is given and however it ends, keeps the invariant.
  pub record-IsSound :
      (account : Text) (result : OrderRecord) (clock : Moment) (j : Journal)
      → IsSound j
      → IsSound (record_result digest account result clock j).1
  record-IsSound account result clock j h = elim (record_cases digest account result clock j) [
    | inl same ↦ rw same h
    | inr (within, complete, effect) ↦ elim effect [
      | inl same ↦ rw same h
      | inr (p, f, m, written) ↦ rw written (record {
        one_pending = λ a. omega (
          arith,
          count-write_pending account result.intent.order_request_id (status result.status)
              (completion result.status (clock_time clock)) result a p j.rows f m.was_open
              (h.unique result.intent.order_request_id),
          h.one_pending a,
        );
        unique = λ k.
            rw
              (count-write_id account result.intent.order_request_id (status result.status)
                (completion result.status (clock_time clock)) result k j.rows)
              (h.unique k);
        settled =
            AllSettled-write account result.intent.order_request_id (status result.status)
              (completion result.status (clock_time clock)) result j.rows h.settled
              (λ r own. result-IsSettled result (clock_time clock) r within complete own);
      })
    ]
  ]

  pub reserve-IsSound :
      (account : Text) (intent : OrderIntent) (plan_id : Text) (snapshot : Moment)
      (residual_exit : Bool) (authorize : Option (Journal → Result JournalError Moment))
      (fresh : Text) (j : Journal)
      → IsSound j
      → IsSound (reserve digest account intent plan_id snapshot residual_exit authorize fresh j).1
  reserve-IsSound account intent plan_id snapshot residual_exit authorize fresh j h =
      elim (reserve_cases digest account intent plan_id snapshot residual_exit authorize fresh j) [
        | inl same ↦ rw same h
        | inr (free, unclashed, added, _) ↦ rw added (
            append-IsSound
              (new_row digest account intent plan_id snapshot residual_exit authorize fresh j) j h
              free unclashed
              (record { timed = refl; within = omega arith; complete = λ e. cc; own = refl }))
      ]

  -- Some call of `reserve` or of `record`, refused or not.
  pub data Step (j : Journal) : Journal → Type 0 where
    reserved :
        (account : Text) (intent : OrderIntent) (plan_id : Text) (snapshot : Moment)
        (residual_exit : Bool) (authorize : Option (Journal → Result JournalError Moment))
        (fresh : Text)
        → Step j (reserve digest account intent plan_id snapshot residual_exit authorize fresh j).1
    recorded :
        (account : Text) (result : OrderRecord) (clock : Moment)
        → Step j (record_result digest account result clock j).1

  pub data Reach (j : Journal) : Journal → Type 0 where
    here : Reach j j
    next : {k l : Journal} → Reach j k → Step k l → Reach j l

  Step-IsSound : {j k : Journal} → Step j k → IsSound j → IsSound k
  Step-IsSound {j} (reserved account intent plan_id snapshot residual authorize fresh) h =
      reserve-IsSound account intent plan_id snapshot residual authorize fresh j h
  Step-IsSound {j} (recorded account result clock) h = record-IsSound account result clock j h

  -- From a sound journal, after any calls of `reserve` and `record`, with any arguments, refused or
  -- not: each account has at most one open order, no request id stands in two rows, a row has a
  -- completion time exactly when its state is final, and its executed quantity is within the order.
  pub Reach-IsSound : {j k : Journal} → IsSound j → Reach j k → IsSound k
  Reach-IsSound h here = h
  Reach-IsSound h (next run st) = Step-IsSound st (Reach-IsSound h run)

-- In a sound journal the broker has at most one order of an account to be asked about.
length-unresolved : (account : Text) (j : Journal) → IsSound j → length (unresolved account j) ≤ 1
unfolding unresolved
length-unresolved account j h = omega (
  arith,
  length-map {0, 0} (λ (r : Row). r.saved) (keep (is_pending account) j.rows),
  length-keep {0} (is_pending account) j.rows,
  h.one_pending account,
)
