-- ===== src/Live/Execute/Begins.antt =====
-- The refusals of `execute_live_intent` that come before its reservation.
use moex_tinvest_bot.Base.{refl, Bool-cases, ◌&&◌, Option, ◌≡◌, ◌⊎◌, inl, inr, arith, ◌==◌, true}
use moex_tinvest_bot.Base.Result.{⊤, Result, ok, err}
use moex_tinvest_bot.Base.Exec.{◌>>=◌}
use moex_tinvest_bot.Domain.{Text, OrderIntent, OrderRecord}
use moex_tinvest_bot.Live.{ProdLongPolicy, LivePermission}
use moex_tinvest_bot.Live.Policy.{PolicyError, validate_policy, canary_stage}
use moex_tinvest_bot.Protection.{ProtectionError, registered_live_journal}
use moex_tinvest_bot.Live.Attempt.{permitted, ExecuteError, LiveNames, LiveBroker, Clock, LiveStore}
use moex_tinvest_bot.Live.Execute.{Executed, submit_reserved, reserve_live, execute_live_intent}

module _ (names : LiveNames) (broker : LiveBroker) (o : OrderIntent) (policy : ProdLongPolicy)
    (permission : LivePermission) (release : Text) where
  -- The attempt from the reservation on.
  abbrev pub attempt : Result ExecuteError ⊤ → Clock → Executed (Option OrderRecord)
  attempt before_submit clock =
      reserve_live names broker o policy permission release clock
      >>= submit_reserved names broker o policy permission release before_submit clock

  -- A call is refused before the reservation, and nothing has changed, or it makes the attempt, with
  -- a valid policy of the canary stage and a permission for this ledger that was valid at its start.
  pub record Begins (clock : Clock) (s : LiveStore) : Type 0 where
    pub valid : validate_policy policy ≡ ok tt
    pub stage : policy.execution_stage ≡ canary_stage
    pub prod : broker.is_prod ≡ true
    pub at_first : permitted names o policy broker permission release clock.at_start ≡ ok tt
    pub ledger : registered_live_journal s.book broker.account_id ≡ ok permission.journal_uuid

  pub execute_cases :
      (before_submit : Result ExecuteError ⊤) (clock : Clock) (s : LiveStore)
      → ((execute_live_intent names broker o policy permission release before_submit clock s).1 ≡ s)
        ⊎ (Begins clock s
            × (execute_live_intent names broker o policy permission release before_submit clock s
                ≡ attempt before_submit clock s))
  unfolding execute_live_intent
  execute_cases before_submit clock s =
      by_checks (validate_policy policy) refl
        (permitted names o policy broker permission release clock.at_start) refl
        (registered_live_journal s.book broker.account_id) refl
    where
      by_checks :
          (v : Result PolicyError ⊤)
          → validate_policy policy ≡ v
          → (p : Result ExecuteError ⊤)
          → permitted names o policy broker permission release clock.at_start ≡ p
          → (r : Result ProtectionError Text) → registered_live_journal s.book broker.account_id ≡ r
          → ((execute_live_intent names broker o policy permission release before_submit clock s).1
              ≡ s)
            ⊎ (Begins clock s
                × (execute_live_intent names broker o policy permission release before_submit clock
                      s
                    ≡ attempt before_submit clock s))
      by_checks (err e) v p b r c = inl (ground (arith, v))
      by_checks (ok u) v (err e) b r c = inl (ground (arith, v, b))
      by_checks (ok u) v (ok w) b (err e) c = inl (ground (arith, v, b, c))
      by_checks (ok u) v (ok w) b (ok identity) c =
          elim (Bool-cases (broker.is_prod && policy.execution_stage == canary_stage)) [
            | inr other ↦ inl (ground arith)
            | inl own ↦ elim (Bool-cases (permission.journal_uuid == identity)) [
              | inr foreign ↦ inl (ground (arith, v, b, c))
              | inl ours ↦ inr (
                record {
                  valid = v;
                  stage = ground (arith, own);
                  prod = ground (arith, own);
                  at_first = b;
                  ledger = ground (arith, c, ours);
                },
                ground (arith, own, v, b, c, ours),
              )
            ]
          ]
