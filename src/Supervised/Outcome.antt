-- ===== src/Supervised/Outcome.antt =====
-- When a supervised entry hands its order to the broker, and when it posts the stop order.
use mathlib.Core.Path.{subst}
use moex_tinvest_bot.Base.{
  ℕ, zero, suc, ◌+◌, ◌*◌, ◌||◌, ltb, not, Option, none, some, ◌≡◌, ◌≢◌, inl, inr, refl, ap, ◌∙◌,
  arith, Bool-cases,
}
use moex_tinvest_bot.Base.Result.{Result, ok, err, ok_inj}
use moex_tinvest_bot.Base.Exec.{bind_keeps, lift, ◌>>=◌}
use moex_tinvest_bot.Domain.{Text, OrderRecord, filled, status_eq_sound}
use moex_tinvest_bot.Protection.{Names, Store, prepare, activate, as_plan_error, validate}
use moex_tinvest_bot.Protection.Once.{prepare-posts}
use moex_tinvest_bot.Live.Attempt.{LiveNames}
use moex_tinvest_bot.Live.Execute.{keep_record}
use moex_tinvest_bot.Supervised.Entered.{
  by_result, IsKnown, start, Ends, prepared, at_gate, executed, SendsPlanned, executed-SendsPlanned,
  raise_then, as_supervised-ok,
}
use moex_tinvest_bot.Supervised.{
  permitted_at, expires_soon, late_approval, as_supervised, plan_refused, is_pair, wrong_pair,
  Entry, Answers, Desk, SupervisedError, EntryOutcome, filled_protected, poll, read_parent,
  cancel_open, protect, finish, after_poll, enter, run_supervised_entry, is_unfilled, is_filled,
  on_live, on_plans, is_done,
}

some_inj : {A : Type 0} {x y : A} → some x ≡ some y → x ≡ y
some_inj h = cc

module _ (names : LiveNames) (plan_names : Names) (entry : Entry) (a : Answers) (d : Desk) where
  abbrev After : Result SupervisedError EntryOutcome × Desk → Type 0
  After = Ends names plan_names entry a d

  abbrev begun : Desk
  begun = start names plan_names entry a d

  stops_early :
      (e : SupervisedError) (t : Desk)
      → t.live.submits ≡ d.live.submits
      → t.plans.posts ≡ d.plans.posts
      → After (err e, t)
  stops_early e t same quiet = (inl same, inl (quiet, λ h. cc))

  -- A desk after the submission: nothing more is handed over, and the plans are as prepared.
  abbrev Rests : Desk → Type 0
  Rests t =
      (t.live.submits ≡ begun.live.submits) × (t.plans ≡ (prepared names plan_names entry a d).1)

  module _ (plan_id : Text) (done : (prepared names plan_names entry a d).0 ≡ ok plan_id) where
    sends :
        (t : Desk) → t.live.submits ≡ begun.live.submits → SendsPlanned names plan_names entry a d t
    sends t same = elim (executed-SendsPlanned names plan_names entry a d plan_id done) [
      | inl before ↦ inl (same ∙ before)
      | inr (backed, more) ↦ inr (backed, same ∙ more)
    ]

    quiet-posts : (t : Desk) → Rests t → t.plans.posts ≡ d.plans.posts
    quiet-posts t (_, same) =
        ap (λ (s : Store). s.posts) same
        ∙ prepare-posts plan_names entry.plan d.live.book entry.separate_journals d.plans

    stops :
        (r : Result SupervisedError EntryOutcome) (t : Desk)
        → r ≢ ok filled_protected
        → Rests t
        → After (r, t)
    stops r t other rests = (sends t rests.0, inl (quiet-posts t rests, other))

    protect-submits :
        (t : Desk) → (protect names plan_names entry a t).1.live.submits ≡ t.live.submits
    unfolding protect
    protect-submits t =
        bind_keeps (λ (u : Desk). u.live.submits ≡ t.live.submits) _
          (on_plans (activate plan_names entry.plan t.live.book a.stop_broker)) t refl
          λ state u same. ground (arith, same)

    module _ (stored : OrderRecord)
        (read : (read_parent names plan_names entry a begun).0 ≡ ok stored) where
      finish-Ends :
          (parent : OrderRecord) (t : Desk)
          → IsKnown a stored parent
          → Rests t
          → After (finish names plan_names entry a parent t)
      unfolding finish
      finish-Ends parent t known rests = elim (Bool-cases (is_unfilled parent)) [
        | inl none_filled ↦
            rw none_filled (stops (ok EntryOutcome.entry_not_filled) t (λ h. cc) rests)
        | inr other ↦ elim (Bool-cases (is_filled parent)) [
          | inr open_end ↦
              rw (other, open_end) (stops (err SupervisedError.ambiguous_entry) t (λ h. cc) rests)
          | inl full ↦
              rw (other, full)
                (
                  sends (protect names plan_names entry a t).1 (protect-submits t ∙ rests.0),
                  inr (record {
                    plan_id = plan_id;
                    durable = done;
                    stored = stored;
                    read = read;
                    parent = parent;
                    known = known;
                    is_filled = status_eq_sound parent.status filled (ground (arith, full));
                    one_lot = ground (arith, full);
                    at_protect = t;
                    same_plans = rests.1;
                    outcome = refl;
                  }),
                )
        ]
      ]

      -- What a call on the entry returns is known of it, and it leaves the rest alone.
      abbrev Knows : Result SupervisedError OrderRecord × Desk → Type 0
      Knows o = Rests o.1 × ((x : OrderRecord) → o.0 ≡ ok x → IsKnown a stored x)

      cancel_open-Knows :
          (parent : OrderRecord) (t : Desk)
          → IsKnown a stored parent
          → Rests t
          → Knows (cancel_open names plan_names entry a parent t)
      unfolding cancel_open
      cancel_open-Knows parent t known rests = elim (Bool-cases (is_done parent)) [
        | inl closed ↦
            rw closed (rests, λ x e. subst (IsKnown a stored) (ok_inj (ok parent) refl e) known)
        | inr still_open ↦ rw still_open (
            by_result Knows (lift a.cancel_gate t) _ t (λ e _. (rests, λ x k. cc))
              λ _ _.
                by_result Knows (lift a.cancelled_entry t) _ t (λ e _. (rests, λ x k. cc))
                  λ _ _.
                    by_result Knows (lift (a.after_cancel parent) t) _ t (λ e _. (rests, λ x k. cc))
                      λ seen answered.
                        by_result Knows
                          (on_live (keep_record names a.broker seen a.after_cancel_at) t) _ t
                          (λ e _. (rests, λ x k. cc))
                          λ _ _. (
                            rests,
                            λ x e.
                                subst (IsKnown a stored) (ok_inj (ok seen) refl e)
                                  (IsKnown.from_cancel known answered),
                          ))
      ]

      abbrev KnowsLast : Result SupervisedError (Option OrderRecord) × Desk → Type 0
      KnowsLast o = Rests o.1 × ((x : OrderRecord) → o.0 ≡ ok (some x) → IsKnown a stored x)

      poll-Knows :
          (fuel round deadline : ℕ) (parent : OrderRecord) (t : Desk)
          → IsKnown a stored parent
          → Rests t
          → KnowsLast (poll names plan_names entry a fuel round deadline parent t)
      unfolding poll
      poll-Knows zero round deadline parent t known rests = (rests, λ x e. cc)
      poll-Knows (suc fuel) round deadline parent t known rests =
          elim (Bool-cases (is_done parent || not (ltb (a.monotonic round) deadline))) [
            | inl over ↦ rw over (
              rests,
              λ x e. subst (IsKnown a stored) (some_inj (ok_inj (ok (some parent)) refl e)) known,
            )
            | inr goes ↦ rw goes (
                by_result KnowsLast (lift (a.polled round parent) t) _ t (λ e _. (rests, λ x k. cc))
                  λ seen answered.
                    by_result KnowsLast
                      (on_live (keep_record names a.broker seen (a.recorded_at round)) t) _ t
                      (λ e _. (rests, λ x k. cc))
                      λ _ _.
                        poll-Knows fuel (round + 1) deadline seen
                          (on_live (keep_record names a.broker seen (a.recorded_at round)) t).1
                          (IsKnown.from_poll round known answered) rests)
          ]

      after_poll-Ends :
          (seen : Option OrderRecord) (t : Desk)
          → ((x : OrderRecord) → seen ≡ some x → IsKnown a stored x)
          → Rests t
          → After (after_poll names plan_names entry a seen t)
      unfolding after_poll
      after_poll-Ends none t known rests =
          stops (err SupervisedError.broker_raised) t (λ h. cc) rests
      after_poll-Ends (some parent) t known rests =
          let (kept, knows) = cancel_open-Knows parent t (known parent refl) rests in
          by_result After (cancel_open names plan_names entry a parent t)
            (finish names plan_names entry a) t
            (λ e _. stops (err e) (cancel_open names plan_names entry a parent t).1 (λ h. cc) kept)
            λ x got.
              finish-Ends x (cancel_open names plan_names entry a parent t).1 (knows x got) kept

      polled-Ends :
          (fuel : ℕ) (t : Desk)
          → Rests t
          → After (
              (poll names plan_names entry a fuel 1
                    (a.monotonic 0 + entry.wait_seconds * 1_000_000)
                    stored
                  >>= after_poll names plan_names entry a)
                t)
      polled-Ends fuel t rests =
          let deadline = a.monotonic 0 + entry.wait_seconds * 1_000_000 in
          let (kept, knows) = poll-Knows fuel 1 deadline stored t IsKnown.from_journal rests in
          by_result After (poll names plan_names entry a fuel 1 deadline stored t)
            (after_poll names plan_names entry a) t
            (λ e _.
              stops (err e) (poll names plan_names entry a fuel 1 deadline stored t).1 (λ h. cc)
                kept)
            λ seen got.
              after_poll-Ends seen (poll names plan_names entry a fuel 1 deadline stored t).1
                (λ x is. knows x (got ∙ ap ok is)) kept

    read_parent-Rests : (t : Desk) → Rests t → Rests (read_parent names plan_names entry a t).1
    unfolding read_parent
    read_parent-Rests t rests = ground (arith, rests)

    enter-Ends :
        (fuel : ℕ)
        → After (enter names plan_names entry a fuel (at_gate names plan_names entry a d))
    unfolding enter
    enter-Ends fuel =
        by_result After (executed names plan_names entry a d) _ d
          (λ e _. stops (err e) begun (λ h. cc) (refl, refl))
          λ _ _.
            let rests = read_parent-Rests begun (refl, refl) in
            by_result After (read_parent names plan_names entry a begun) _ begun
              (λ e _. stops (err e) (read_parent names plan_names entry a begun).1 (λ h. cc) rests)
              λ parent read.
                let u = (read_parent names plan_names entry a begun).1 in
                polled-Ends parent read fuel u rests

  -- Whatever the broker, the gates and the clocks answer and wherever a run raises, it hands no order to the
  -- broker, or exactly the one of the entry, and then its plan was prepared before and stood in the journal as
  -- PLANNED. And a run posts no stop order and does not report a protected entry, or all of these hold: the plans
  -- are those that `prepare` has left before the submission; a record of the entry was FILLED with exactly one
  -- lot, and that record is the journal's after the submission or what the broker answered on such a
  -- record, while the run waited or after it cancelled; and the result is that of `protect`.
  pub run_supervised_entry-Ends :
      (fuel : ℕ)
      → Ends names plan_names entry a d (run_supervised_entry names plan_names entry a fuel d)
  unfolding run_supervised_entry
  run_supervised_entry-Ends fuel =
      by_result After
        (lift (as_supervised plan_refused (as_plan_error (validate plan_names.is_uuid entry.plan)))
          d)
        _ d (λ e _. stops_early e d refl refl)
        λ _ _.
          raise_then After (not (is_pair names plan_names entry a)) wrong_pair _ d
            (stops_early wrong_pair d refl refl)
            (by_result After (lift (permitted_at names plan_names entry a a.at_check) d) _ d
              (λ e _. stops_early e d refl refl)
              λ _ _.
                raise_then After (expires_soon entry.permission a.at_check_expiry) late_approval _ d
                  (stops_early late_approval d refl refl)
                  (by_result After (lift a.approval d) _ d (λ e _. stops_early e d refl refl)
                    λ _ _.
                      by_result After
                        (on_plans
                          (prepare plan_names entry.plan d.live.book entry.separate_journals) d)
                        _ d
                        (λ e _. stops_early e (at_gate names plan_names entry a d) refl (
                          prepare-posts plan_names entry.plan d.live.book entry.separate_journals
                            d.plans))
                        λ plan_id kept.
                          enter-Ends plan_id
                            (as_supervised-ok plan_refused (prepared names plan_names entry a d).0
                              plan_id kept)
                            fuel))
