-- ===== src/Live/Attempt/Checked.antt =====
-- What the checks of an attempt have seen where they pass.
use moex_tinvest_bot.Base.{◌≡◌, refl, arith, ◌==◌, not, true, false, Bool}
use moex_tinvest_bot.Base.Result.{⊤, Result, ok, err, ok_then, ok_bind, raise_if}
use moex_tinvest_bot.Domain.{Text, Moment, OrderIntent}
use moex_tinvest_bot.Journal.{Journal}
use moex_tinvest_bot.Live.{
  ProdLongPolicy, LiveState, LivePermission, authorize_live, validate_permission,
}
use moex_tinvest_bot.Live.Ledger.{Summary, ledger_summary}
use moex_tinvest_bot.Live.Attempt.{
  as_journal_error, as_error, refused, ledger_raised, foreign_state, ExecuteError, LiveNames,
  LiveBroker, permitted, authorize_now, last_checks, moment_of,
}

as_error-ok :
    {E A : Type 0} (f : E → ExecuteError) (r : Result E A) (a : A) → as_error f r ≡ ok a → r ≡ ok a
as_error-ok f (ok b) a h = ground arith
as_error-ok f (err e) a h = cc

pub as_journal_error-ok :
    (r : Result ExecuteError Moment) (m : Moment) → as_journal_error r ≡ ok m → r ≡ ok m
as_journal_error-ok (ok k) m h = ground arith
as_journal_error-ok (err e) m h = cc

raise_if-ok : {E : Type 0} (b : Bool) (e : E) → raise_if b e ≡ ok tt → b ≡ false
raise_if-ok true e h = cc
raise_if-ok false e h = refl

module _ (names : LiveNames) (broker : LiveBroker) (o : OrderIntent) (policy : ProdLongPolicy)
    (permission : LivePermission) (release : Text) where
  -- What the journal's closure has checked, of the journal as it was.
  pub record IsApproved (now : Moment) (j : Journal) : Type 0 where
    pub seen : LiveState
    pub captured : broker.capture ≡ ok seen
    pub own_account : seen.account_id ≡ broker.account_id
    pub summary : Summary
    pub ledger :
        ledger_summary names.moscow_day j.rows (names.scope broker.account_id) (moment_of now)
        ≡ ok summary
    pub gate :
        authorize_live o policy seen summary.owned summary.attempts summary.turnover now ≡ ok tt

  pub authorize_now-IsApproved :
      (now : Moment) (j : Journal) (t : Moment)
      → authorize_now names o policy broker permission release now j ≡ ok t
      → IsApproved now j
  unfolding authorize_now
  authorize_now-IsApproved now j t h =
      let (state, seen, k1) = ok_bind broker.capture _ t h in
      let (_, k2) = ok_then (permitted names o policy broker permission release now) _ t k1 in
      let (own, k3) =
        ok_then (raise_if (not (state.account_id == broker.account_id)) foreign_state) _ t k2 in
      let (m, summed, k4) =
        ok_bind
          (as_error ledger_raised (
            ledger_summary names.moscow_day j.rows (names.scope broker.account_id) (moment_of now)))
          _ t k3 in
      let (passed, _) =
        ok_then (as_error refused (authorize_live o policy state m.owned m.attempts m.turnover now))
          _ t k4 in
      record {
        seen = state;
        captured = seen;
        own_account =
            ground
              (arith, raise_if-ok (not (state.account_id == broker.account_id)) foreign_state own);
        summary = m;
        ledger = as_error-ok ledger_raised _ m summed;
        gate = as_error-ok refused _ tt passed;
      }

  pub last_checks-ok :
      (before_submit : Result ExecuteError ⊤) (now : Moment)
      → last_checks names o policy broker permission release before_submit now ≡ ok tt
      → (before_submit ≡ ok tt)
        × (validate_permission names.digests permission broker.account_id o policy release now
            ≡ ok tt)
  unfolding last_checks
  last_checks-ok before_submit now h =
      let (gate, k1) = ok_then before_submit _ tt h in
      let (valid, _) = ok_then (permitted names o policy broker permission release now) _ tt k1 in
      (gate, as_error-ok refused _ tt valid)
