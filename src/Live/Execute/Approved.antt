-- ===== src/Live/Execute/Approved.antt =====
-- What has been checked of an order that `execute_live_intent` hands to the broker.
use moex_tinvest_bot.Base.{
  false, Option, none, some, [], ◌∷◌, ◌++◌, ◌≡◌, ◌⊎◌, inl, inr, refl, sym, ap, ◌∙◌, arith,
}
use moex_tinvest_bot.Base.Result.{⊤, Result, ok, err}
use moex_tinvest_bot.Base.Exec.{bind_ends}
use moex_tinvest_bot.Live.Execute.Submits.{granted_id}
use moex_tinvest_bot.Domain.{Text, Moment, aware, OrderIntent}
use moex_tinvest_bot.Journal.{JournalError, reserve, unresolved}
use moex_tinvest_bot.Journal.Reserve.{reserve_authorized}
use moex_tinvest_bot.Journal.Safety.{reserve_granted}
use moex_tinvest_bot.Live.{ProdLongPolicy, LivePermission, validate_permission}
use moex_tinvest_bot.Live.Attempt.Checked.{
  as_journal_error-ok, IsApproved, authorize_now-IsApproved, last_checks-ok,
}
use moex_tinvest_bot.Live.Attempt.{
  ExecuteError, LiveNames, LiveBroker, Clock, LiveStore, authorizer, authorize_now, last_checks,
}
use moex_tinvest_bot.Live.Execute.{
  scope_of, submit_reserved, submit_by, submit_order, reserve_live, execute_live_intent,
}
use moex_tinvest_bot.Live.Execute.Begins.{Begins, attempt, execute_cases}

module _ (names : LiveNames) (broker : LiveBroker) (o : OrderIntent) (policy : ProdLongPolicy)
    (permission : LivePermission) (release : Text) where
  -- Everything that stands behind one submission of `o`, for a store as the call met it.
  pub record IsBacked (before_submit : Result ExecuteError ⊤) (clock : Clock) (s : LiveStore)
      : Type 0 where
    pub begun : Begins names broker o policy permission release clock s
    pub alone : unresolved (scope_of names broker) s.book.journal ≡ []
    pub approved :
        IsApproved names broker o policy permission release clock.at_authorize s.book.journal
    pub gate_open : before_submit ≡ ok tt
    pub still_valid :
        validate_permission names.digests permission broker.account_id o policy release
          clock.at_submit
        ≡ ok tt

  abbrev request : Text
  request = names.entry_id (scope_of names broker) o.order_request_id

  -- The submissions after a call, of those before.
  abbrev pub Sends : Result ExecuteError ⊤ → Clock → LiveStore → LiveStore → Type 0
  Sends before_submit clock s t =
      (t.submits ≡ s.submits)
      ⊎ (IsBacked before_submit clock s × (t.submits ≡ s.submits ++ request ∷ []))

  submit_order-submits :
      (sent : OrderIntent) (now : Moment) (s : LiveStore)
      → (submit_order names broker sent now s).1.submits ≡ s.submits ++ sent.order_request_id ∷ []
  unfolding submit_order
  submit_order-submits sent now s = ground arith

  submit_by-submits :
      (sent : OrderIntent) (now : Moment) (r : Result ExecuteError ⊤) (s : LiveStore)
      → ((submit_by names broker sent now r s).1.submits ≡ s.submits)
        ⊎ ((r ≡ ok tt)
            × ((submit_by names broker sent now r s).1.submits
                ≡ s.submits ++ sent.order_request_id ∷ []))
  unfolding submit_by
  submit_by-submits sent now (ok _) s = inr (refl, submit_order-submits sent now s)
  submit_by-submits sent now (err e) s = inl (ground arith)

  submit_reserved-submits :
      (before_submit : Result ExecuteError ⊤) (clock : Clock) (id : Option Text) (s : LiveStore)
      → ((submit_reserved names broker o policy permission release before_submit clock id
            s).1.submits
          ≡ s.submits)
        ⊎ ((k : Text) × (id ≡ some k)
            × (last_checks names o policy broker permission release before_submit clock.at_submit
                ≡ ok tt)
            × ((submit_reserved names broker o policy permission release before_submit clock id
                  s).1.submits
                ≡ s.submits ++ k ∷ []))
  unfolding submit_reserved
  submit_reserved-submits before_submit clock none s = inl refl
  submit_reserved-submits before_submit clock (some k) s =
      elim (submit_by-submits (record o { order_request_id = k }) clock.at_record
        (last_checks names o policy broker permission release before_submit clock.at_submit) s) [
          | inl same ↦ inl same
          | inr (passed, more) ↦ inr (k, refl, passed, more)
        ]

  abbrev reservation : Clock → LiveStore → Result JournalError (Option Text)
  reservation clock s =
      (reserve names.payload_digest (scope_of names broker) o o.order_request_id clock.at_reserve
        false (some (authorizer names o policy broker permission release clock.at_authorize))
        request s.book.journal).0

  -- `reserve` hands nothing to the broker.
  kept_submits :
      (clock : Clock) (s : LiveStore) (r : Result ExecuteError (Option Text)) (t : LiveStore)
      → reserve_live names broker o policy permission release clock s ≡ (r, t)
      → t.submits ≡ s.submits
  kept_submits clock s r t e =
      sym (ap (λ (x : Result ExecuteError (Option Text) × LiveStore). x.1.submits) e)

  granted_outcome :
      (clock : Clock) (s : LiveStore) (id : Option Text) (t : LiveStore) (k : Text)
      → reserve_live names broker o policy permission release clock s ≡ (ok id, t)
      → id ≡ some k
      → reservation clock s ≡ ok (some k)
  granted_outcome clock s id t k e taken =
      granted_id (reservation clock s)
        (ap (λ (x : Result ExecuteError (Option Text) × LiveStore). x.0) e ∙ ap ok taken)

  reserved :
      (clock : Clock) (s : LiveStore) {k : Text}
      → reservation clock s ≡ ok (some k)
      → (k ≡ request) × (unresolved (scope_of names broker) s.book.journal ≡ [])
  reserved clock s granted =
      let (same, _, alone, _, _) =
        reserve_granted names.payload_digest (scope_of names broker) o o.order_request_id
          clock.at_reserve false
          (some (authorizer names o policy broker permission release clock.at_authorize)) request
          s.book.journal granted in
      (same, alone)

  reservation-IsBacked :
      (before_submit : Result ExecuteError ⊤) (clock : Clock) (s : LiveStore)
      → Begins names broker o policy permission release clock s
      → {k : Text} → reservation clock s ≡ ok (some k)
      → last_checks names o policy broker permission release before_submit clock.at_submit ≡ ok tt
      → IsBacked before_submit clock s
  reservation-IsBacked before_submit clock s begun granted passed =
      let (t, answered) =
        reserve_authorized names.payload_digest (scope_of names broker) o o.order_request_id
          clock.at_reserve false
          (authorizer names o policy broker permission release clock.at_authorize) request
          s.book.journal granted in
      let (gate, valid) =
        last_checks-ok names broker o policy permission release before_submit clock.at_submit
          passed in
      record {
        begun = begun;
        alone = (reserved clock s granted).1;
        approved =
            authorize_now-IsApproved names broker o policy permission release clock.at_authorize
              s.book.journal (aware t)
              (as_journal_error-ok
                (authorize_now names o policy broker permission release clock.at_authorize
                  s.book.journal)
                (aware t) answered);
        gate_open = gate;
        still_valid = valid;
      }

  attempt-Sends :
      (before_submit : Result ExecuteError ⊤) (clock : Clock) (s : LiveStore)
      → Begins names broker o policy permission release clock s
      → Sends before_submit clock s
          (attempt names broker o policy permission release before_submit clock s).1
  attempt-Sends before_submit clock s begun =
      bind_ends (Sends before_submit clock s)
        (submit_reserved names broker o policy permission release before_submit clock)
        (reserve_live names broker o policy permission release clock) s
        (λ id t e. elim (submit_reserved-submits before_submit clock id t) [
          | inl same ↦ inl (same ∙ kept_submits clock s (ok id) t e)
          | inr (k, taken, passed, more) ↦
              let granted = granted_outcome clock s id t k e taken in
              inr (
                reservation-IsBacked before_submit clock s begun granted passed,
                more
                    ∙ ground
                        (arith, kept_submits clock s (ok id) t e, (reserved clock s granted).0),
              )
        ])
        (λ x t e. inl (kept_submits clock s (err x) t e))

  -- A call hands nothing to the broker, or it hands over exactly the request id of its own order, once,
  -- and then: the policy is valid and of the canary stage, the permission was for this ledger and
  -- valid at the start and again just before the submission, the account had no open order in the
  -- journal, the caller's gate was open, and the production gate passed for the broker's own state
  -- and for the holdings, attempts and turnover of the journal.
  pub execute-IsBacked :
      (before_submit : Result ExecuteError ⊤) (clock : Clock) (s : LiveStore)
      → Sends before_submit clock s
          (execute_live_intent names broker o policy permission release before_submit clock s).1
  execute-IsBacked before_submit clock s =
      elim (execute_cases names broker o policy permission release before_submit clock s) [
        | inl same ↦ inl (rw same refl)
        | inr (begun, goes) ↦ rw goes (attempt-Sends before_submit clock s begun)
      ]
