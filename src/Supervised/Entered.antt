-- ===== src/Supervised/Entered.antt =====
-- A supervised entry up to its submission, by src/moex_bot/supervised_execution.py, and what a whole run may end in.
use moex_tinvest_bot.Base.{
  Bool, true, false, not, Option, [], ◌∷◌, ◌++◌, ◌≡◌, ◌≢◌, ◌⊎◌, ℕ, inl, inr, refl, ap, arith,
}
use moex_tinvest_bot.Base.Result
use moex_tinvest_bot.Base.Result.{⊤, Result, ok, err, ok_inj, ok_then, ok_bind}
use moex_tinvest_bot.Base.Exec.{raise_if, ◌>>=◌}
use moex_tinvest_bot.Domain.{Text, OrderRecord, filled}
use moex_tinvest_bot.Protection.{
  Names, ProtectionError, Protected, Store, State, planned, prepare, plan_row, is_planned,
}
use moex_tinvest_bot.Live.Attempt.{LiveNames, ExecuteError}
use moex_tinvest_bot.Live.Execute.{execute_live_intent}
use moex_tinvest_bot.Live.Execute.Approved.{execute-IsBacked}
use moex_tinvest_bot.Supervised.{
  Running, Entry, Answers, Desk, SupervisedError, gate, gate_result, on_live, expires_soon,
  permitted_at, as_supervised, plan_refused, late_approval, not_planned, EntryOutcome,
  filled_protected, protect, read_parent,
}

-- A property of the outcome of a bind, by the outcome of its first part.
pub by_result :
    {A B : Type 0} (Q : Result SupervisedError B × Desk → Type 0)
    (o : Result SupervisedError A × Desk) (f : A → Running B) (d : Desk)
    → ((e : SupervisedError) → o.0 ≡ err e → Q (err e, o.1))
    → ((x : A) → o.0 ≡ ok x → Q (f x o.1))
    → Q (((λ (_ : Desk). o) >>= f) d)
by_result Q (ok x, t) f d raises returns = returns x refl
by_result Q (err e, t) f d raises returns = raises e refl

pub raise_then :
    {B : Type 0} (Q : Result SupervisedError B × Desk → Type 0) (b : Bool) (e : SupervisedError)
    (f : ⊤ → Running B) (d : Desk)
    → Q (err e, d)
    → Q (f tt d)
    → Q ((raise_if b e >>= f) d)
raise_then Q true e f d raises rest = raises
raise_then Q false e f d raises rest = rest

is_planned_sound : (s : State) → is_planned s ≡ true → s ≡ planned
is_planned_sound s h = ground (arith, h)

pub as_supervised-ok :
    {E A : Type 0} (f : E → SupervisedError) (r : Result E A) (x : A)
    → as_supervised f r ≡ ok x
    → r ≡ ok x
as_supervised-ok f (ok y) x h = ap ok (ok_inj (ok y) refl h)
as_supervised-ok f (err e) x h = cc

-- What a run may know of its entry: the record in the journal, and then each answer of the broker on the
-- last one, while it waits or after the cancellation.
pub data IsKnown (a : Answers) (stored : OrderRecord) : OrderRecord → Type 0 where
  from_journal : IsKnown a stored stored
  from_poll :
      {r s : OrderRecord} (round : ℕ)
      → IsKnown a stored r
      → a.polled round r ≡ ok s
      → IsKnown a stored s
  from_cancel :
      {r s : OrderRecord} → IsKnown a stored r → a.after_cancel r ≡ ok s → IsKnown a stored s

module _ (names : LiveNames) (plan_names : Names) (entry : Entry) (a : Answers) where
  gate-open :
      (r : Result SupervisedError ⊤) → gate_result names plan_names entry a r ≡ ok tt → r ≡ ok tt
  gate-open (ok u) h = refl
  gate-open (err e) h = absurd (ground (arith, h))

  gate-planned :
      (plans : Store)
      → gate names plan_names entry a plans ≡ ok tt
      → (row : Protected) × ((plan_row plan_names entry.plan plans).0 ≡ ok row)
        × (row.state ≡ planned)
  unfolding gate
  gate-planned plans h =
      let (_, h1) = ok_then (permitted_at names plan_names entry a a.at_gate) _ tt h in
      let (_, h2) =
        ok_then (Result.raise_if (expires_soon entry.permission a.at_gate_expiry) late_approval) _
          tt h1 in
      let (_, h3) = ok_then a.entry_approval _ tt h2 in
      let (row, found, h4) =
        ok_bind (as_supervised plan_refused (plan_row plan_names entry.plan plans).0) _ tt h3 in
      let (waits, _) = ok_then (Result.raise_if (not (is_planned row.state)) not_planned) _ tt h4 in
      (
        row,
        as_supervised-ok plan_refused (plan_row plan_names entry.plan plans).0 row found,
        is_planned_sound row.state (ground (arith, waits)),
      )

  module _ (d : Desk) where
    -- What `prepare` returns in the run, and the plans that it leaves.
    abbrev pub prepared : Result ProtectionError Text × Store
    prepared = prepare plan_names entry.plan d.live.book entry.separate_journals d.plans

    abbrev pub at_gate : Desk
    at_gate = record d { plans = prepared.1 }

    abbrev pub gated : Result ExecuteError ⊤
    gated = gate_result names plan_names entry a (gate names plan_names entry a prepared.1)

    -- The submission, with the desk after it.
    abbrev pub executed : Result SupervisedError (Option OrderRecord) × Desk
    executed =
        on_live
          (execute_live_intent names a.broker entry.intent entry.policy entry.permission
            entry.release gated a.clock)
          at_gate

    -- The plan was prepared and stands as PLANNED in the plans before the submission.
    pub record IsDurable : Type 0 where
      pub plan_id : Text
      pub done : prepared.0 ≡ ok plan_id
      pub row : Protected
      pub found : (plan_row plan_names entry.plan prepared.1).0 ≡ ok row
      pub waiting : row.state ≡ planned

    -- No order was handed to the broker, or exactly the entry's, with its plan durable.
    abbrev pub SendsPlanned : Desk → Type 0
    SendsPlanned t =
        (t.live.submits ≡ d.live.submits)
        ⊎ (IsDurable
            × (t.live.submits
                ≡ d.live.submits
                  ++ names.entry_id (names.scope a.broker.account_id) entry.intent.order_request_id
                    ∷ []))

    pub executed-SendsPlanned : (plan_id : Text) → prepared.0 ≡ ok plan_id → SendsPlanned executed.1
    executed-SendsPlanned plan_id done =
        elim (execute-IsBacked names a.broker entry.intent entry.policy entry.permission
          entry.release gated a.clock d.live) [
            | inl same ↦ inl same
            | inr (backed, more) ↦
                let (row, found, waits) =
                  gate-planned prepared.1
                    (gate-open (gate names plan_names entry a prepared.1) backed.gate_open) in
                inr (
                  record {
                    plan_id = plan_id;
                    done = done;
                    row = row;
                    found = found;
                    waiting = waits;
                  },
                  more,
                )
          ]

    abbrev pub start : Desk
    start = (executed).1

    -- The stop order is posted for a record that the run knows of its entry, FILLED with one lot, and on
    -- the plans as `prepare` has left them before the submission.
    pub record IsProtected (o : Result SupervisedError EntryOutcome × Desk) : Type 0 where
      pub plan_id : Text
      pub durable : (prepared).0 ≡ ok plan_id
      pub stored : OrderRecord
      pub read : (read_parent names plan_names entry a start).0 ≡ ok stored
      pub parent : OrderRecord
      pub known : IsKnown a stored parent
      pub is_filled : parent.status ≡ filled
      pub one_lot : parent.filled_lots ≡ 1
      pub at_protect : Desk
      pub same_plans : at_protect.plans ≡ (prepared).1
      pub outcome : o ≡ protect names plan_names entry a at_protect

    -- No stop order is posted and no protection reported, or the entry is protected as above.
    abbrev pub Protects : Result SupervisedError EntryOutcome × Desk → Type 0
    Protects o = ((o.1.plans.posts ≡ d.plans.posts) × (o.0 ≢ ok filled_protected)) ⊎ IsProtected o

    abbrev pub Ends : Result SupervisedError EntryOutcome × Desk → Type 0
    Ends o = SendsPlanned o.1 × Protects o
