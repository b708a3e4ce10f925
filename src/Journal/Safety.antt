-- ===== src/Journal/Safety.antt =====
-- What the journal guarantees to those who submit orders through it.
use mathlib.Core.Path.{subst₂}
use mathlib.Core.Option.{some-injective}
use moex_tinvest_bot.Base.{
  ℕ, Bool, true, false, ◌&&◌, Option, none, some, List, [], ◌∷◌, ◌++◌, ◌≡◌, ◌≢◌, inl, inr, ◌≤◌,
  refl, sym, ◌∙◌, any, count, find, map, arith, ◌==◌, Bool-cases, ap, count-append, keep,
}
use moex_tinvest_bot.Base.Result.{Result, ok}
use moex_tinvest_bot.Domain.{Text, Moment, OrderIntent, OrderRecord}
use moex_tinvest_bot.Journal.{
  Journal, Row, RowState, ready, JournalError, status, is_closed, is_pending, is_clash, is_request,
  is_logical, write_row, reserve, record_result, completion, last_row, unresolved,
}
use moex_tinvest_bot.Journal.Reserve.{reserve_cases, reserve_ok, reserve_row, new_row}
use moex_tinvest_bot.Journal.Record.{clock_time, record_cases}
use moex_tinvest_bot.Journal.Invariant.{count-write_logical}

last_row-none :
    (a l : Text) (rows : List Row) → last_row a l rows ≡ none → count (is_logical a l) rows ≡ 0
last_row-none a l [] h = refl
last_row-none a l (r ∷ rows) h = ground (arith, last_row-none a l rows)

keep-none :
    (a : Text) (rows : List Row) → any (is_pending a) rows ≡ false → keep (is_pending a) rows ≡ []
keep-none a [] h = refl
keep-none a (r ∷ rows) h = ground (arith, keep-none a rows)

keep-append :
    (a : Text) (rows : List Row) (r : Row)
    → any (is_pending a) rows ≡ false
    → is_pending a r ≡ true
    → keep (is_pending a) (rows ++ r ∷ []) ≡ r ∷ []
keep-append a [] r h p = rw p
keep-append a (x ∷ rows) r h p = ground (arith, keep-append a rows r)

==_pending : (a : Text) → (a == a && true) ≡ true
==_pending a = ground arith

unclashed_id :
    (new : Row) (rows : List Row)
    → any (is_clash new) rows ≡ false
    → any (λ r. r.request_id == new.request_id) rows ≡ false
unclashed_id new [] h = refl
unclashed_id new (x ∷ rows) h = ground (arith, unclashed_id new rows)

module _ (digest : OrderIntent → Text) (account : Text) (intent : OrderIntent) (plan_id : Text)
    (snapshot : Moment) (residual_exit : Bool)
    (authorize : Option (Journal → Result JournalError Moment)) (fresh : Text) (j : Journal) where
  -- Where the account has an open order, no call of `reserve` grants an id, whatever its arguments,
  -- and the journal stays as it is.
  pub reserve_blocked :
      any (is_pending account) j.rows ≡ true
      → let (r, k) =
          reserve digest account intent plan_id snapshot residual_exit authorize fresh j in
        ((id : Text) → r ≢ ok (some id)) × (k ≡ j)
  reserve_blocked busy = (
    λ id e.
        cc (reserve_ok digest account intent plan_id snapshot residual_exit authorize fresh j e).2,
    elim (reserve_cases digest account intent plan_id snapshot residual_exit authorize fresh j) [
      | inl same ↦ same
      | inr (free, _, _, _) ↦ absurd (cc (sym busy ∙ free))
    ],
  )

  -- When `reserve` grants an id, the journal is ready for trading, the account had no open order,
  -- and the granted id is now its only open order, not executed at all; the id stood in no row before.
  pub reserve_granted :
      {id : Text}
      → (reserve digest account intent plan_id snapshot residual_exit authorize fresh j).0
        ≡ ok (some id)
      → let k =
          (reserve digest account intent plan_id snapshot residual_exit authorize fresh j).1 in
        (id ≡ fresh)
        × (j.migration ≡ ready)
        × (unresolved account j ≡ [])
        × (unresolved account k
            ≡ (new_row digest account intent plan_id snapshot residual_exit authorize fresh j).saved
              ∷ [])
        × (any (λ r. r.request_id == fresh) j.rows ≡ false)
  unfolding unresolved
  reserve_granted e =
      let (same, open_journal, free, _) =
        reserve_ok digest account intent plan_id snapshot residual_exit authorize fresh j e in
      let (unclashed, added) =
        reserve_row digest account intent plan_id snapshot residual_exit authorize fresh j e in
      let new = new_row digest account intent plan_id snapshot residual_exit authorize fresh j in
      (
        same,
        open_journal,
        rw (keep-none account j.rows free) refl,
        rw added (rw (keep-append account j.rows new free (==_pending account)) refl),
        unclashed_id new j.rows unclashed,
      )

first_logical :
    (new : Row) (a l : Text) (rows : List Row)
    → count (is_logical a l) rows ≤ 1
    → count (is_logical new.account new.logical_id) rows ≡ 0
    → count (is_logical a l) (rows ++ new ∷ []) ≤ 1
first_logical new a l rows h first =
    ground (arith, count-append {0} (is_logical a l) rows (new ∷ []), h, first)

-- What `record` may do to a row: no more than raise its executed quantity, and nothing once final.
pub record Advances (p p' : Row) : Type 0 where
  pub same_hash : p'.payload_hash ≡ p.payload_hash
  pub same_order : p'.logical_id ≡ p.logical_id
  pub same_plan : p'.plan_id ≡ p.plan_id
  pub grown : p.saved.filled_lots ≤ p'.saved.filled_lots
  pub final : is_closed p.state ≡ true → p' ≡ p

Advances-refl : (p : Row) → Advances p p
Advances-refl p = record {
  same_hash = refl;
  same_order = refl;
  same_plan = refl;
  grown = omega arith;
  final = λ _. refl;
}

own_key :
    (account request a id : Text) (p : Row)
    → is_request account request p ≡ true
    → is_request a id p ≡ true
    → (a ≡ account) × (id ≡ request)
own_key account request a id p h k = ground arith

find-holds :
    (a id : Text) (rows : List Row) (p : Row)
    → find (is_request a id) rows ≡ some p
    → is_request a id p ≡ true
find-holds a id [] p f = cc
find-holds a id (x ∷ rows) p f = ground (arith, find-holds a id rows p)

same_row :
    (a id account request : Text) (rows : List Row) (p q : Row)
    → find (is_request a id) rows ≡ some p
    → find (is_request account request) rows ≡ some q
    → a ≡ account
    → id ≡ request
    → p ≡ q
same_row a id account request rows p q f g e e' =
    some-injective p q (sym (subst₂ (λ x y. find (is_request x y) rows ≡ some p) e e' f) ∙ g)

find-write :
    (account request : Text) (state : RowState) (at : Option ℕ) (result : OrderRecord) (a id : Text)
    (rows : List Row) (p : Row)
    → find (is_request a id) rows ≡ some p
    → find (is_request a id) (map (write_row account request state at result) rows)
      ≡ some (write_row account request state at result p)
find-write account request state at result a id [] p f = cc
find-write account request state at result a id (x ∷ rows) p f =
    ground (arith, find-write account request state at result a id rows p)

write-Advances :
    (account : Text) (now : ℕ) (result : OrderRecord) (a id : Text) (rows : List Row) (p q : Row)
    → find (is_request a id) rows ≡ some p
    → find (is_request account result.intent.order_request_id) rows ≡ some q
    → is_closed q.state ≡ false
    → q.saved.filled_lots ≤ result.filled_lots
    → Advances p (
        write_row account result.intent.order_request_id
          (status result.status)
          (completion result.status now)
          result
          p)
write-Advances account now result a id rows p q f g open_row grown =
    elim (Bool-cases (is_request account result.intent.order_request_id p)) [
      | inr other ↦ rw other (Advances-refl p)
      | inl own ↦
          let (at, asked) =
            own_key account result.intent.order_request_id a id p own (find-holds a id rows p f) in
          let same : p ≡ q =
            same_row a id account result.intent.order_request_id rows p q f g at asked in
          rw own (record {
            same_hash = refl;
            same_order = refl;
            same_plan = refl;
            grown = rw same grown;
            final = λ closed.
                absurd (cc (sym closed ∙ ap (λ (r : Row). is_closed r.state) same ∙ open_row));
          })
    ]

module _ (digest : OrderIntent → Text) where
  -- Some call of `reserve` that is not a residual exit, or of `record`, refused or not.
  pub data OnceStep (j : Journal) : Journal → Type 0 where
    reserved :
        (account : Text) (intent : OrderIntent) (plan_id : Text) (snapshot : Moment)
        (authorize : Option (Journal → Result JournalError Moment)) (fresh : Text)
        → OnceStep j (reserve digest account intent plan_id snapshot false authorize fresh j).1
    recorded :
        (account : Text) (result : OrderRecord) (clock : Moment)
        → OnceStep j (record_result digest account result clock j).1

  pub data OnceReach (j : Journal) : Journal → Type 0 where
    here : OnceReach j j
    next : {k l : Journal} → OnceReach j k → OnceStep k l → OnceReach j l

  abbrev pub AtMostOnce : Journal → Type 0
  AtMostOnce j = (a l : Text) → count (is_logical a l) j.rows ≤ 1

  reserve-AtMostOnce :
      (account : Text) (intent : OrderIntent) (plan_id : Text) (snapshot : Moment)
      (authorize : Option (Journal → Result JournalError Moment)) (fresh : Text) (j : Journal)
      → AtMostOnce j
      → AtMostOnce (reserve digest account intent plan_id snapshot false authorize fresh j).1
  reserve-AtMostOnce account intent plan_id snapshot authorize fresh j h a l =
      elim (reserve_cases digest account intent plan_id snapshot false authorize fresh j) [
        | inl same ↦ rw same (h a l)
        | inr (_, _, added, first) ↦
            let new = new_row digest account intent plan_id snapshot false authorize fresh j in
            rw added (
              first_logical new a l j.rows (h a l)
                (last_row-none account intent.order_request_id j.rows (first refl)))
      ]

  record-AtMostOnce :
      (account : Text) (result : OrderRecord) (clock : Moment) (j : Journal)
      → AtMostOnce j
      → AtMostOnce (record_result digest account result clock j).1
  record-AtMostOnce account result clock j h a l =
      elim (record_cases digest account result clock j) [
        | inl same ↦ rw same (h a l)
        | inr (_, _, inl same) ↦ rw same (h a l)
        | inr (_, _, inr (p, f, m, written)) ↦
            rw
              (
                written,
                count-write_logical account result.intent.order_request_id (status result.status)
                    (completion result.status (clock_time clock)) result a l j.rows,
              )
              (h a l)
      ]

  OnceStep-AtMostOnce : {j k : Journal} → OnceStep j k → AtMostOnce j → AtMostOnce k
  OnceStep-AtMostOnce {j} (reserved account intent plan_id snapshot authorize fresh) h =
      reserve-AtMostOnce account intent plan_id snapshot authorize fresh j h
  OnceStep-AtMostOnce {j} (recorded account result clock) h =
      record-AtMostOnce account result clock j h

  OnceReach-keeps : {j k : Journal} → AtMostOnce j → OnceReach j k → AtMostOnce k
  OnceReach-keeps h here = h
  OnceReach-keeps h (next run st) = OnceStep-AtMostOnce st (OnceReach-keeps h run)

  -- From a journal with at most one row for a logical order of an account, such as the empty one, over
  -- any calls of `reserve` without `residual_exit` and of `record`, with any results, plans and times,
  -- there is never a second row for it: a logical order gets one request id.
  pub OnceReach-AtMostOnce :
      {j k : Journal}
      → AtMostOnce j
      → OnceReach j k
      → (a l : Text) → count (is_logical a l) k.rows ≤ 1
  OnceReach-AtMostOnce h run a l = OnceReach-keeps h run a l

  -- Whatever `record` is given, the row of any request of any account is still there afterwards, for
  -- the same order, payload and plan; its executed quantity has not fallen, and a row whose state is
  -- final is exactly what it was.
  pub record-Advances :
      (account : Text) (result : OrderRecord) (clock : Moment) (j : Journal)
      → (a id : Text) (p : Row) → find (is_request a id) j.rows ≡ some p
      → (p' : Row) × (find (is_request a id) (record_result digest account result clock j).1.rows
          ≡ some p')
        × Advances p p'
  record-Advances account result clock j a id p f =
      elim (record_cases digest account result clock j) [
        | inl same ↦ (p, rw same f, Advances-refl p)
        | inr (_, _, inl same) ↦ (p, rw same f, Advances-refl p)
        | inr (_, _, inr (q, g, m, written)) ↦ (
          write_row account result.intent.order_request_id (status result.status)
              (completion result.status (clock_time clock)) result p,
          rw written (
              find-write account result.intent.order_request_id (status result.status)
                (completion result.status (clock_time clock)) result a id j.rows p f),
          write-Advances account (clock_time clock) result a id j.rows p q f g m.was_open m.grown,
        )
      ]
