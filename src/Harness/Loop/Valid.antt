-- ===== src/Harness/Loop/Valid.antt =====
-- The loop of a run never raises by itself: it keeps positions and cash valid.
use moex_tinvest_bot.Base.{
  Bool, true, false, Option, none, some, List, [], ◌∷◌, ◌++◌, ◌+◌, ◌≤◌, ◌<◌, ◌≡◌, ◌⊎◌, inl, inr,
  refl, arith, all, leb, length, length-append,
}
use moex_tinvest_bot.Base.Int.{abs}
use moex_tinvest_bot.Base.Result.{Result, ok}
use moex_tinvest_bot.Domain.{Text, Position, OrderIntent, OrderRecord, check_position}
use moex_tinvest_bot.Config.{BotConfig}
use moex_tinvest_bot.Portfolio.{Dict, lookup, assign, remove, PortfolioSnapshot, GeoRiskSnapshot}
use moex_tinvest_bot.Risk.{evaluate_intent, lots_of, after, blocked_of}
use moex_tinvest_bot.Risk.Form.{evaluate_intent-cases}
use moex_tinvest_bot.Risk.Limits.{IsPermitted, evaluate_intent-IsPermitted}
use moex_tinvest_bot.Intents.Positive.{AllPositive}
use moex_tinvest_bot.Harness.Loop.{
  HarnessError, HarnessState, Rejected, order_event, next_position, next_positions, next_portfolio,
  next_exposure, position_or_none, project, reject, submit_and_project, by_decision, run_intent,
  run_intents, checked_position, overspends,
}

-- The check of the constructor of `Position`.
abbrev pub fits : Text × Position → Bool
fits e = leb e.1.blocked_lots (abs e.1.lots)

lookup-fits :
    (k : Text) (d : Dict Position)
    → all fits d ≡ true
    → blocked_of (lookup k d) ≤ abs (lots_of (lookup k d))
lookup-fits k [] h = omega arith
lookup-fits k ((j, p) ∷ d) h = ground (arith, lookup-fits k d)

assign-fits :
    (k : Text) (p : Position) (d : Dict Position)
    → fits (k, p) ≡ true
    → all fits d ≡ true
    → all fits (assign k p d) ≡ true
assign-fits k p [] f h = ground arith
assign-fits k p ((j, q) ∷ d) f h = ground (arith, assign-fits k p d f)

remove-fits : (k : Text) (d : Dict Position) → all fits d ≡ true → all fits (remove k d) ≡ true
remove-fits k [] h = refl
remove-fits k ((j, q) ∷ d) h = ground (arith, remove-fits k d)

-- The order that the gate allows gives a valid position.
next_position-fits :
    (o : OrderIntent) (p : PortfolioSnapshot)
    → (blocked_of (lookup o.instrument.secid p.positions)
          ≤ abs (lots_of (lookup o.instrument.secid p.positions))
        → blocked_of (lookup o.instrument.secid p.positions)
          ≤ abs (after (lots_of (lookup o.instrument.secid p.positions)) o.side o.lots))
    → all fits p.positions ≡ true
    → (next_position o p).blocked_lots ≤ abs (next_position o p).lots
next_position-fits o p stays h =
    by_held (lookup o.instrument.secid p.positions)
      (stays (lookup-fits o.instrument.secid p.positions h))
  where
    by_held :
        (held : Option Position)
        → blocked_of held ≤ abs (after (lots_of held) o.side o.lots)
        → (position_or_none o.instrument held).blocked_lots
          ≤ abs (after (lots_of held) o.side o.lots)
    by_held none k = omega arith
    by_held (some q) k = k

checked : (p : Position) → p.blocked_lots ≤ abs p.lots → checked_position p ≡ ok tt
unfolding check_position
checked p h = ground arith

next_positions-fits :
    (o : OrderIntent) (p : PortfolioSnapshot)
    → (next_position o p).blocked_lots ≤ abs (next_position o p).lots
    → all fits p.positions ≡ true
    → all fits (next_positions o p) ≡ true
next_positions-fits o p f h = ground (
  arith,
  assign-fits o.instrument.secid (next_position o p) p.positions,
  remove-fits o.instrument.secid p.positions h,
)

module _ (c : BotConfig) (geo : GeoRiskSnapshot) where
  affordable :
      (o : OrderIntent) (s : HarnessState)
      → IsPermitted o s.portfolio c geo s.exposure
      → overspends o s.portfolio ≡ false
  affordable o s h = ground (arith, h.paid)

  -- An order that the gate allows is projected without an error.
  pub project-ok :
      (o : OrderIntent) (s : HarnessState)
      → IsPermitted o s.portfolio c geo s.exposure
      → all fits s.portfolio.positions ≡ true
      → (project o s ≡ (
        ok tt,
        record s {
          portfolio = next_portfolio o s.portfolio;
          exposure = next_exposure o s.portfolio s.exposure;
        },
      ))
        × (all fits (next_portfolio o s.portfolio).positions ≡ true)
  unfolding project
  project-ok o s h f =
      let good = next_position-fits o s.portfolio h.unblocked f in
      (
        ground (arith, checked (next_position o s.portfolio) good, affordable o s h),
        next_positions-fits o s.portfolio good f,
      )

  module _ (submit : OrderIntent → Result HarnessError OrderRecord) where
    pub run_intent-cases :
        (o : OrderIntent) (s : HarnessState)
        → (((evaluate_intent o s.portfolio c geo s.exposure).allowed ≡ true)
            × (run_intent submit c geo o s ≡ submit_and_project submit o s))
          ⊎ (run_intent submit c geo o s
              ≡ reject o (evaluate_intent o s.portfolio c geo s.exposure).reasons s)
    unfolding run_intent by_decision
    run_intent-cases o s = elim (evaluate_intent-cases o s.portfolio c geo s.exposure) [
      | inl (allowed, same) ↦ inl (allowed, ground (arith, allowed, same))
      | inr refused ↦ inr (ground (arith, refused))
    ]

    sent_and_projected :
        (o : OrderIntent) (s : HarnessState) (r : OrderRecord)
        → submit o ≡ ok r
        → IsPermitted o s.portfolio c geo s.exposure
        → all fits s.portfolio.positions ≡ true
        → submit_and_project submit o s ≡ (
          ok tt,
          record {
            portfolio = next_portfolio o s.portfolio;
            exposure = next_exposure o s.portfolio s.exposure;
            orders = s.orders ++ r ∷ [];
            rejected = s.rejected;
            audit = s.audit ++ order_event r ∷ [];
          },
        )
    unfolding submit_and_project
    sent_and_projected o s r answered h f =
        rw answered (rw (project-ok o (record s { orders = s.orders ++ r ∷ [] }) h f).0 refl)

    -- One turn of the loop, where the port answers.
    run_intent-ok :
        (o : OrderIntent) (s : HarnessState) (r : OrderRecord)
        → submit o ≡ ok r
        → 0 < o.notional
        → all fits s.portfolio.positions ≡ true
        → (t : HarnessState) × (run_intent submit c geo o s ≡ (ok tt, t))
          × (all fits t.portfolio.positions ≡ true)
          × (length t.orders + length t.rejected ≡ length s.orders + length s.rejected + 1)
    unfolding reject
    run_intent-ok o s r answered priced f = elim (run_intent-cases o s) [
      | inl (allowed, runs) ↦
          let permitted =
            evaluate_intent-IsPermitted o s.portfolio c geo s.exposure priced allowed in
          let sent = sent_and_projected o s r answered permitted f in
          (
            (submit_and_project submit o s).1,
            rw (runs, sent) refl,
            rw sent (project-ok o s permitted f).1,
            rw sent (omega (arith, length-append {0} s.orders (r ∷ []))),
          )
      | inr runs ↦
          let refused : Rejected = record {
            intent = o;
            reasons = (evaluate_intent o s.portfolio c geo s.exposure).reasons;
          } in
          (
            (reject o (evaluate_intent o s.portfolio c geo s.exposure).reasons s).1,
            runs,
            f,
            omega (arith, length-append {0} s.rejected (refused ∷ [])),
          )
    ]

    -- Where the execution port answers every order, the loop over orders with positive notionals, from a
    -- portfolio whose positions are valid, returns: no constructor that it calls raises, whatever the
    -- limits are. Its positions are valid again, and every order has been submitted or rejected.
    pub run_intents-completes :
        ((o : OrderIntent) → (r : OrderRecord) × (submit o ≡ ok r))
        → (os : List OrderIntent) (s : HarnessState) → AllPositive os
        → all fits s.portfolio.positions ≡ true
        → (t : HarnessState) × (run_intents submit c geo os s ≡ (ok tt, t))
          × (all fits t.portfolio.positions ≡ true)
          × (length t.orders + length t.rejected ≡ length s.orders + length s.rejected + length os)
    unfolding run_intents
    run_intents-completes answers [] s priced f = (s, refl, f, omega arith)
    run_intents-completes answers (o ∷ os) s (priced, rest) f =
        let (r, answered) = answers o in
        let (t, runs, g, counted) = run_intent-ok o s r answered priced f in
        let (u, ends, k, total) = run_intents-completes answers os t rest g in
        (u, rw runs ends, k, omega (arith, counted, total))
