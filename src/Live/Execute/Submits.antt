-- ===== src/Live/Execute/Submits.antt =====
-- An order is submitted at most once, and only when it is authorised.
use mathlib.Core.Path.{subst}
use moex_tinvest_bot.Base.{
  ℕ, false, Option, none, some, List, [], ◌∷◌, ◌++◌, ◌+◌, ◌≡◌, ◌≤◌, inl, inr, refl, ap, arith, ◌==◌,
  any, count, count-append, if◌then◌else◌,
}
use moex_tinvest_bot.Base.Result.{⊤, Result, ok, err}
use moex_tinvest_bot.Base.Exec.{bind_keeps, bind_ends, lift}
use moex_tinvest_bot.Domain.{Text, Moment, OrderIntent, OrderRecord}
use moex_tinvest_bot.Journal.{
  Journal, Row, JournalError, status, is_clash, reserve, record_result, unresolved, completion,
}
use moex_tinvest_bot.Journal.Invariant.{has_id, no_clash-has_id, count-write_id}
use moex_tinvest_bot.Journal.Reserve.{reserve_cases, reserve_ok, reserve_row, new_row}
use moex_tinvest_bot.Journal.Record.{record_cases, clock_time}
use moex_tinvest_bot.Live.{ProdLongPolicy, LivePermission}
use moex_tinvest_bot.Live.Execute.Begins.{execute_cases}
use moex_tinvest_bot.Live.Attempt.{
  as_error, journal_raised, ExecuteError, LiveNames, LiveBroker, Clock, LiveStore, authorizer,
  last_checks,
}
use moex_tinvest_bot.Live.Execute.{
  set_journal, keep_record, scope_of, refused_record, submit_order, submit_by, submit_reserved,
  reserve_live, execute_live_intent, reconcile_orders, reconcile_live_journal, decode_stored,
}

-- How often a request id was handed to the broker.
abbrev pub submitted : Text → LiveStore → ℕ
submitted id s = count (λ (t : Text). t == id) s.submits

abbrev rows_of : Text → LiveStore → ℕ
rows_of id s = count (has_id id) s.book.journal.rows

-- A request id has one row at most, and was submitted no more often than it has a row.
pub record IsSpent (s : LiveStore) : Type 0 where
  pub unique : (id : Text) → rows_of id s ≤ 1
  pub spent : (id : Text) → submitted id s ≤ rows_of id s

-- The same where one submission of `id` is still due.
record IsDue (id : Text) (s : LiveStore) : Type 0 where
  unique : (k : Text) → rows_of k s ≤ 1
  spent : (k : Text) → submitted k s + (if k == id then 1 else 0) ≤ rows_of k s

IsDue-IsSpent : {s : LiveStore} (id : Text) → IsDue id s → IsSpent s
IsDue-IsSpent id h = record { unique = h.unique; spent = λ k. ground (arith, h.spent k) }

record-has_id :
    (digest : OrderIntent → Text) (account : Text) (r : OrderRecord) (clock : Moment) (j : Journal)
    (k : Text)
    → count (has_id k) (record_result digest account r clock j).1.rows ≡ count (has_id k) j.rows
record-has_id digest account r clock j k = elim (record_cases digest account r clock j) [
  | inl same ↦ rw same refl
  | inr (_, _, inl same) ↦ rw same refl
  | inr (_, _, inr (p, f, m, written)) ↦ rw written (
      count-write_id account r.intent.order_request_id (status r.status)
        (completion r.status (clock_time clock)) r k j.rows)
]

pub granted_id :
    {id : Text} (r : Result JournalError (Option Text))
    → as_error journal_raised r ≡ ok (some id)
    → r ≡ ok (some id)
granted_id (ok (some k)) h = ground arith
granted_id (ok none) h = absurd (ground arith)
granted_id (err e) h = cc

appended-has_id :
    (new : Row) (rows : List Row) (k : Text)
    → any (is_clash new) rows ≡ false
    → (count (has_id k) (rows ++ new ∷ [])
        ≡ count (has_id k) rows + (if k == new.request_id then 1 else 0))
      × (count (has_id new.request_id) rows ≡ 0)
appended-has_id new rows k h =
    (ground (arith, count-append {0} (has_id k) rows (new ∷ [])), no_clash-has_id new rows h)

-- A new row makes room for one submission of its id.
appended-IsDue :
    (new : Row) (s : LiveStore)
    → any (is_clash new) s.book.journal.rows ≡ false
    → IsSpent s
    → IsDue new.request_id
        (set_journal (record (s.book.journal) { rows = s.book.journal.rows ++ new ∷ [] }) s)
appended-IsDue new s free h = record {
  unique = λ k. ground (arith, appended-has_id new s.book.journal.rows k free, h.unique k);
  spent = λ k. ground (arith, appended-has_id new s.book.journal.rows k free, h.spent k);
}

module _ (names : LiveNames) (broker : LiveBroker) where
  keep_record-IsSpent :
      (r : OrderRecord) (now : Moment) (s : LiveStore)
      → IsSpent s
      → IsSpent (keep_record names broker r now s).1
  keep_record-IsSpent r now s h =
      let same = record-has_id names.payload_digest (scope_of names broker) r now s.book.journal in
      record { unique = λ k. rw (same k) (h.unique k); spent = λ k. rw (same k) (h.spent k) }

  submit_order-IsSpent :
      (sent : OrderIntent) (now : Moment) (s : LiveStore)
      → IsDue sent.order_request_id s
      → IsSpent (submit_order names broker sent now s).1
  unfolding submit_order
  submit_order-IsSpent sent now s h =
      let entered : LiveStore = record s { submits = s.submits ++ sent.order_request_id ∷ [] } in
      let safe : IsSpent entered = record {
        unique = h.unique;
        spent = λ k. ground (
          arith,
          h.spent k,
          count-append {0} (λ (t : Text). t == k) s.submits (sent.order_request_id ∷ []),
        );
      } in
      bind_keeps IsSpent _ (lift (broker.submit sent)) entered safe λ answer t safe'.
        bind_keeps IsSpent _ (keep_record names broker answer now) t
          (keep_record-IsSpent answer now t safe') (λ _ u done. done)

  submit_by-IsSpent :
      (sent : OrderIntent) (now : Moment) (r : Result ExecuteError ⊤) (s : LiveStore)
      → IsDue sent.order_request_id s
      → IsSpent (submit_by names broker sent now r s).1
  unfolding submit_by
  submit_by-IsSpent sent now (ok _) s h = submit_order-IsSpent sent now s h
  submit_by-IsSpent sent now (err e) s h =
      let safe = IsDue-IsSpent sent.order_request_id h in
      ground (arith, safe, keep_record-IsSpent (refused_record sent) now s safe)

  module _ (o : OrderIntent) (policy : ProdLongPolicy) (permission : LivePermission)
      (release : Text) where
    abbrev auth : Clock → Journal → Result JournalError Moment
    auth clock = authorizer names o policy broker permission release clock.at_authorize

    abbrev fresh : Text
    fresh = names.entry_id (scope_of names broker) o.order_request_id

    abbrev new : Clock → Journal → Row
    new clock j =
        new_row names.payload_digest (scope_of names broker) o o.order_request_id clock.at_reserve
          false (some (auth clock)) fresh j

    reserve_live-IsSpent :
        (clock : Clock) (s : LiveStore)
        → IsSpent s
        → IsSpent (reserve_live names broker o policy permission release clock s).1
    reserve_live-IsSpent clock s h =
        elim (reserve_cases names.payload_digest (scope_of names broker) o o.order_request_id
          clock.at_reserve false (some (auth clock)) fresh s.book.journal) [
            | inl same ↦ rw same h
            | inr (_, free, added, _) ↦
                rw added (IsDue-IsSpent fresh (appended-IsDue (new clock s.book.journal) s free h))
          ]

    reserve_live-IsDue :
        (clock : Clock) (s : LiveStore) {id : Text}
        → IsSpent s
        → (reserve_live names broker o policy permission release clock s).0 ≡ ok (some id)
        → IsDue id (reserve_live names broker o policy permission release clock s).1
    reserve_live-IsDue clock s {id} h e =
        let granted =
          granted_id
            (reserve names.payload_digest (scope_of names broker) o o.order_request_id
              clock.at_reserve false (some (auth clock)) fresh s.book.journal).0
            e in
        let (same, _, _, _) =
          reserve_ok names.payload_digest (scope_of names broker) o o.order_request_id
            clock.at_reserve false (some (auth clock)) fresh s.book.journal granted in
        let (free, added) =
          reserve_row names.payload_digest (scope_of names broker) o o.order_request_id
            clock.at_reserve false (some (auth clock)) fresh s.book.journal granted in
        rw (added, same) (appended-IsDue (new clock s.book.journal) s free h)

    submit_reserved-none :
        (before_submit : Result ExecuteError ⊤) (clock : Clock) (t : LiveStore)
        → (submit_reserved names broker o policy permission release before_submit clock none t).1
          ≡ t
    unfolding submit_reserved
    submit_reserved-none before_submit clock t = refl

    submit_reserved-IsSpent :
        (before_submit : Result ExecuteError ⊤) (clock : Clock) (id : Text) (s : LiveStore)
        → IsDue id s
        → IsSpent
            (submit_reserved names broker o policy permission release before_submit clock
              (some id)
              s).1
    unfolding submit_reserved
    submit_reserved-IsSpent before_submit clock id s h =
        submit_by-IsSpent (record o { order_request_id = id }) clock.at_record
          (last_checks names o policy broker permission release before_submit clock.at_submit) s h

    execute-IsSpent :
        (before_submit : Result ExecuteError ⊤) (clock : Clock) (s : LiveStore)
        → IsSpent s
        → IsSpent
            (execute_live_intent names broker o policy permission release before_submit clock s).1
    execute-IsSpent before_submit clock s h =
        elim (execute_cases names broker o policy permission release before_submit clock s) [
          | inl same ↦ rw same h
          | inr (_, goes) ↦ rw goes (
              bind_ends IsSpent
                (submit_reserved names broker o policy permission release before_submit clock)
                (reserve_live names broker o policy permission release clock) s
                (λ id t e. after_reserve id t e)
                (λ x t e. subst IsSpent (ap (λ o. o.1) e) (reserve_live-IsSpent clock s h)))
        ]
      where
        after_reserve :
            (id : Option Text) (t : LiveStore)
            → reserve_live names broker o policy permission release clock s ≡ (ok id, t)
            → IsSpent
                (submit_reserved names broker o policy permission release before_submit clock id
                  t).1
        after_reserve none t e =
            rw (submit_reserved-none before_submit clock t)
              (subst IsSpent (ap (λ o. o.1) e) (reserve_live-IsSpent clock s h))
        after_reserve (some id) t e =
            submit_reserved-IsSpent before_submit clock id t
              (subst (IsDue id) (ap (λ o. o.1) e) (reserve_live-IsDue clock s h (ap (λ o. o.0) e)))

  reconcile_orders-IsSpent :
      (clock : OrderRecord → Moment) (rs : List OrderRecord) (s : LiveStore)
      → IsSpent s
      → IsSpent (reconcile_orders names broker clock rs s).1
  unfolding reconcile_orders
  reconcile_orders-IsSpent clock [] s h = h
  reconcile_orders-IsSpent clock (r ∷ rs) s h =
      bind_keeps IsSpent _ (lift (decode_stored names broker r)) s h λ stored t h1.
        bind_keeps IsSpent _ (lift (broker.lookup_order stored)) t h1 λ answer u h2.
          bind_keeps IsSpent _ (keep_record names broker answer (clock r)) u
            (keep_record-IsSpent answer (clock r) u h2)
            (λ _ v h3. reconcile_orders-IsSpent clock rs v h3)

  reconcile-IsSpent :
      (clock : OrderRecord → Moment) (s : LiveStore)
      → IsSpent s
      → IsSpent (reconcile_live_journal names broker clock s).1
  unfolding reconcile_live_journal
  reconcile-IsSpent clock s h = ground (
    arith,
    h,
    reconcile_orders-IsSpent clock (unresolved (scope_of names broker) s.book.journal) s h,
  )

-- A call of one of the two functions, for any broker, order and permission, whatever is answered.
pub data Step (names : LiveNames) (s : LiveStore) : LiveStore → Type 0 where
  executed :
      (broker : LiveBroker) (o : OrderIntent) (policy : ProdLongPolicy)
      (permission : LivePermission) (release : Text) (before_submit : Result ExecuteError ⊤)
      (clock : Clock)
      → Step names s
          (execute_live_intent names broker o policy permission release before_submit clock s).1
  reconciled :
      (broker : LiveBroker) (clock : OrderRecord → Moment)
      → Step names s (reconcile_live_journal names broker clock s).1

pub data Reach (names : LiveNames) (s : LiveStore) : LiveStore → Type 0 where
  here : Reach names s s
  next : {t u : LiveStore} → Reach names s t → Step names t u → Reach names s u

Step-IsSpent : {names : LiveNames} {s t : LiveStore} → Step names s t → IsSpent s → IsSpent t
Step-IsSpent {names} {s} (executed broker o policy permission release before_submit clock) h =
    execute-IsSpent names broker o policy permission release before_submit clock s h
Step-IsSpent {names} {s} (reconciled broker clock) h = reconcile-IsSpent names broker clock s h

Reach-IsSpent : {names : LiveNames} {s t : LiveStore} → IsSpent s → Reach names s t → IsSpent t
Reach-IsSpent h here = h
Reach-IsSpent h (next run st) = Step-IsSpent st (Reach-IsSpent h run)

-- From a store where every submitted request has its own row, such as an empty one, over any attempts
-- and reconciliations, whatever the brokers answer or fail to answer and for any permissions, a
-- request id is handed to a broker at most once, and only one that has a row in the journal.
pub Reach-submits_once :
    {names : LiveNames} {s t : LiveStore}
    → IsSpent s
    → Reach names s t
    → (id : Text)
    → (submitted id t ≤ 1) × (count (has_id id) t.book.journal.rows ≡ 0 → submitted id t ≡ 0)
Reach-submits_once h run id =
    let safe = Reach-IsSpent h run in
    (omega (arith, safe.unique id, safe.spent id), λ missing. omega (arith, safe.spent id))
