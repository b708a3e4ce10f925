-- ===== src/Supervised/Poll.antt =====
-- The waiting ends: the monotonic clock passes the deadline.
use moex_tinvest_bot.Base.{
  ℕ, zero, suc, Bool, true, false, not, ◌||◌, Option, none, some, ◌+◌, ◌*◌, ◌≤◌, ◌≡◌, ◌≢◌, refl,
  arith, ltb, if◌then◌else◌,
}
use moex_tinvest_bot.Base.Result.{Result, ok, err}
use moex_tinvest_bot.Base.Exec.{pure, ◌>>=◌}
use moex_tinvest_bot.Domain.{OrderRecord}
use moex_tinvest_bot.Protection.{Names}
use moex_tinvest_bot.Live.Attempt.{LiveNames}
use moex_tinvest_bot.Live.Execute.{keep_record}
use moex_tinvest_bot.Supervised.{
  Running, Entry, Answers, Desk, SupervisedError, is_done, poll, on_live,
}

-- A monotonic clock, with `sleep(1)` between two readings of the loop.
pub record IsTicking (monotonic : ℕ → ℕ) : Type 0 where
  pub first : monotonic 0 ≤ monotonic 1
  pub ticks : (k : ℕ) → 1 ≤ k → monotonic k + 1_000_000 ≤ monotonic (k + 1)

-- A call that goes on with something else than `none`.
bind-some :
    {A : Type 0} (o : Result SupervisedError A × Desk)
    (f : A → Desk → Result SupervisedError (Option OrderRecord) × Desk) (d : Desk)
    → ((x : A) (t : Desk) → (f x t).0 ≢ ok none)
    → (((λ (_ : Desk). o) >>= f) d).0 ≢ ok none
bind-some (ok x, t) f d rest = rest x t
bind-some (err e, t) f d rest = λ h. cc

-- The loop stops with the record that it has, or it goes on.
stop-or_go :
    (b : Bool) (r : OrderRecord) (m : Running (Option OrderRecord)) (d : Desk)
    → (b ≡ false → (m d).0 ≢ ok none)
    → ((if b then pure (some r) else m) d).0 ≢ ok none
stop-or_go true r m d go = λ h. cc
stop-or_go false r m d go = go refl

module _ (names : LiveNames) (plan_names : Names) (entry : Entry) (a : Answers) where
  poll-enough :
      IsTicking a.monotonic
      → (fuel round deadline : ℕ) (parent : OrderRecord) (d : Desk) → 1 ≤ round
      → deadline ≤ a.monotonic round + fuel * 1_000_000
      → (poll names plan_names entry a (suc fuel) round deadline parent d).0 ≢ ok none
  unfolding poll
  poll-enough ticks zero round deadline parent d later h =
      stop-or_go (is_done parent || not (ltb (a.monotonic round) deadline)) parent _ d
        (λ open_still. absurd (ground (arith, h, open_still)))
  poll-enough ticks (suc fuel) round deadline parent d later h =
      stop-or_go (is_done parent || not (ltb (a.monotonic round) deadline)) parent _ d
        (λ open_still.
          bind-some (a.polled round parent, d) _ d
            λ seen t.
              bind-some (on_live (keep_record names a.broker seen (a.recorded_at round)) t) _ t
                λ u v.
                  poll-enough ticks fuel (round + 1) deadline seen v (omega (arith, later))
                    (omega (arith, h, ticks.ticks round later)))

  -- Where the readings of the monotonic clock are a second apart, since the loop sleeps for one between
  -- them, and the first is not before the one that the deadline is made of, the loop that waits for the
  -- entry ends after `wait_seconds + 1` rounds at most, whatever the broker answers.
  pub poll-terminates :
      IsTicking a.monotonic
      → (parent : OrderRecord) (d : Desk)
      → (poll names plan_names entry a
          (suc entry.wait_seconds)
          1
          (a.monotonic 0 + entry.wait_seconds * 1_000_000)
          parent
          d).0
        ≢ ok none
  poll-terminates ticks parent d =
      poll-enough ticks entry.wait_seconds 1 (a.monotonic 0 + entry.wait_seconds * 1_000_000) parent
        d (omega arith) (omega (arith, ticks.first))
