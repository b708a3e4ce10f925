-- ===== src/Harness/Loop/Bounds.antt =====
-- What the loop of a run projects stays within the limits of the gate.
use native.Mathlib.Nat.{mul-le-mul_right}
use moex_tinvest_bot.Base.{
  ℕ, Bool, true, false, List, [], ◌∷◌, ◌++◌, ◌*◌, ◌≤◌, ◌<◌, ◌≡◌, ◌⊎◌, inl, inr, refl, ap, ◌∙◌,
  arith, max, ◌==◌, if◌then◌else◌,
}
use moex_tinvest_bot.Base.Int.{ℤ, abs, pos_part}
use moex_tinvest_bot.Base.Result.{Result, ok, err}
use moex_tinvest_bot.Base.Exec.{bind_keeps}
use moex_tinvest_bot.Domain.{Text, Nanos, OrderIntent, OrderRecord}
use moex_tinvest_bot.Config.{BotConfig}
use moex_tinvest_bot.Portfolio.{one, Dict, lookup, assign, PortfolioSnapshot, GeoRiskSnapshot}
use moex_tinvest_bot.Risk.{
  Exposure, lots_of, after, value_at, short_part, shifted, exposure_of, is_reducing,
}
use moex_tinvest_bot.Risk.Limits.{IsPermitted, evaluate_intent-IsPermitted}
use moex_tinvest_bot.Harness.Loop.{
  HarnessError, HarnessState, order_event, write_event, next_portfolio, next_exposure, project,
  reject, submit_and_project, run_intent, run_intents, shift_key,
}
use moex_tinvest_bot.Intents.Positive.{AllPositive}
use moex_tinvest_bot.Harness.Loop.Valid.{run_intent-cases}

module _ (c : BotConfig) where
  -- No amount of `q` and `f` is above the gate's limit unless it was no smaller in `p` and `e`; exposures are fractions
  -- of the equity of the run, in nanos of nanos.
  pub record IsBounded (p : PortfolioSnapshot) (e : Exposure) (q : PortfolioSnapshot) (f : Exposure)
      : Type 0 where
    pub same_equity : f.equity ≡ e.equity
    pub slots : q.open_orders ≤ max p.open_orders c.max_open_orders
    pub turnover : q.daily_turnover ≤ max p.daily_turnover c.max_daily_turnover
    pub gross : f.gross * one ≤ max (e.gross * one) (c.max_gross_exposure * pos_part e.equity)
    pub short : f.short * one ≤ max (e.short * one) (c.max_short_gross_exposure * pos_part e.equity)
    pub sector :
        (k : Text)
        → exposure_of k f.by_sector * one
          ≤ max (exposure_of k e.by_sector * one) (c.max_sector_weight * pos_part e.equity)
    pub cluster :
        (k : Text)
        → exposure_of k f.by_cluster * one
          ≤ max (exposure_of k e.by_cluster * one) (c.max_risk_cluster_weight * pos_part e.equity)

  abbrev pub Bounded : HarnessState → HarnessState → Type 0
  Bounded s t = IsBounded s.portfolio s.exposure t.portfolio t.exposure

  IsBounded-refl : (p : PortfolioSnapshot) (e : Exposure) → IsBounded p e p e
  IsBounded-refl p e = record {
    same_equity = refl;
    slots = omega arith;
    turnover = omega arith;
    gross = omega arith;
    short = omega arith;
    sector = λ k. omega arith;
    cluster = λ k. omega arith;
  }

  IsBounded-trans :
      {p q r : PortfolioSnapshot} {e f g : Exposure}
      → IsBounded p e q f
      → IsBounded q f r g
      → IsBounded p e r g
  IsBounded-trans {p} {q} {r} {e} {f} {g} h k =
      let same : (w : ℕ) → w * pos_part f.equity ≡ w * pos_part e.equity =
        λ w. ap (λ (z : ℤ). w * pos_part z) h.same_equity in
      record {
        same_equity = k.same_equity ∙ h.same_equity;
        slots = omega (arith, h.slots, k.slots);
        turnover = omega (arith, h.turnover, k.turnover);
        gross = omega (arith, h.gross, k.gross, same c.max_gross_exposure);
        short = omega (arith, h.short, k.short, same c.max_short_gross_exposure);
        sector = λ x. omega (arith, h.sector x, k.sector x, same c.max_sector_weight);
        cluster = λ x. omega (arith, h.cluster x, k.cluster x, same c.max_risk_cluster_weight);
      }

-- A smaller position at the same price is worth no more.
reducing-le :
    (o : OrderIntent) (current resulting : ℤ)
    → is_reducing current resulting ≡ true
    → (value_at o resulting ≤ value_at o current) × (short_part o resulting ≤ short_part o current)
reducing-le o current resulting h =
    let less : abs resulting ≤ abs current = ground arith in
    let le = mul-le-mul_right o.limit_price (mul-le-mul_right o.instrument.lot_size less) in
    (le, ground (arith, le))

shifted-le : (e new old : ℕ) → new ≤ old → shifted e new old ≤ e
shifted-le e new old h = omega (arith, h)

exposure_of-assign :
    (k j : Text) (v : Nanos) (d : Dict Nanos)
    → exposure_of j (assign k v d) ≡ (if j == k then v else exposure_of j d)
exposure_of-assign k j v [] = ground arith
exposure_of-assign k j v ((i, u) ∷ d) = ground (arith, exposure_of-assign k j v d)

module _ (c : BotConfig) (geo : GeoRiskSnapshot) where
  abbrev projected : OrderIntent → HarnessState → HarnessState
  projected o s = record s {
    portfolio = next_portfolio o s.portfolio;
    exposure = next_exposure o s.portfolio s.exposure;
  }

  -- An exposure that an order moves ends within its limit, or the order reduces it.
  moved_within :
      (e old new limit equity : ℕ) (reducing : Bool)
      → (reducing ≡ true → new ≤ old)
      → (reducing ≡ false → shifted e new old * one ≤ limit * equity)
      → shifted e new old * one ≤ max (e * one) (limit * equity)
  moved_within e old new limit equity true less within =
      omega (arith, shifted-le e new old (less refl))
  moved_within e old new limit equity false less within = omega (arith, within refl)

  keyed_within :
      (k j : Text) (d : Dict Nanos) (old new limit equity : ℕ) (reducing : Bool)
      → (reducing ≡ true → new ≤ old)
      → (reducing ≡ false → shifted (exposure_of k d) new old * one ≤ limit * equity)
      → exposure_of j (shift_key k d new old) * one ≤ max (exposure_of j d * one) (limit * equity)
  keyed_within k j d old new limit equity reducing less within = ground (
    arith,
    exposure_of-assign k j (shifted (exposure_of k d) new old) d,
    moved_within (exposure_of k d) old new limit equity reducing less within,
  )

  projected-IsBounded :
      (o : OrderIntent) (s : HarnessState)
      → IsPermitted o s.portfolio c geo s.exposure
      → Bounded c s (projected o s)
  projected-IsBounded o s h =
      let current = lots_of (lookup o.instrument.secid s.portfolio.positions) in
      let resulting = after current o.side o.lots in
      let old = value_at o current in
      let new = value_at o resulting in
      let reducing = is_reducing current resulting in
      let equity = pos_part s.exposure.equity in
      let less : reducing ≡ true → (new ≤ old) × (short_part o resulting ≤ short_part o current) =
        λ k. reducing-le o current resulting k in
      record {
        same_equity = refl;
        slots = omega (arith, h.slot_free);
        turnover = omega (arith, h.turnover);
        gross =
            moved_within s.exposure.gross old new c.max_gross_exposure equity reducing
              (λ k. (less k).0) (λ k. (h.exposures k).gross);
        short =
            moved_within s.exposure.short (short_part o current) (short_part o resulting)
              c.max_short_gross_exposure equity reducing (λ k. (less k).1)
              (λ k. (h.exposures k).short);
        sector = λ j.
            keyed_within o.instrument.sector j s.exposure.by_sector old new c.max_sector_weight
              equity reducing (λ k. (less k).0) (λ k. (h.exposures k).sector);
        cluster = λ j.
            keyed_within o.instrument.risk_cluster j s.exposure.by_cluster old new
              c.max_risk_cluster_weight equity reducing (λ k. (less k).0)
              (λ k. (h.exposures k).cluster);
      }

  project-cases :
      (o : OrderIntent) (s : HarnessState)
      → ((project o s).1 ≡ s) ⊎ ((project o s).1 ≡ projected o s)
  unfolding project
  project-cases o s = ground arith

  -- Lists of orders, of rejections and of events are of no account for the bounds.
  module _ (submit : OrderIntent → Result HarnessError OrderRecord) where
    submit_and_project-IsBounded :
        (o : OrderIntent) (s : HarnessState)
        → IsPermitted o s.portfolio c geo s.exposure
        → Bounded c s (submit_and_project submit o s).1
    unfolding submit_and_project
    submit_and_project-IsBounded o s h = by_answer (submit o) refl
      where
        by_answer :
            (r : Result HarnessError OrderRecord)
            → submit o ≡ r
            → Bounded c s (submit_and_project submit o s).1
        by_answer (err e) answered = rw answered (IsBounded-refl c s.portfolio s.exposure)
        by_answer (ok r) answered =
            let sent : HarnessState = record s { orders = s.orders ++ r ∷ [] } in
            rw answered (
              bind_keeps (Bounded c s) (λ u. write_event (order_event r)) (project o) sent
                (elim (project-cases o sent) [
                  | inl same ↦ rw same (IsBounded-refl c s.portfolio s.exposure)
                  | inr moved ↦ rw moved (projected-IsBounded o s h)
                ])
                (λ _ t k. k))

    run_intent-IsBounded :
        (o : OrderIntent) (s : HarnessState)
        → 0 < o.notional
        → Bounded c s (run_intent submit c geo o s).1
    unfolding reject
    run_intent-IsBounded o s priced = elim (run_intent-cases c geo submit o s) [
      | inl (allowed, runs) ↦ rw runs (
          submit_and_project-IsBounded o s
            (evaluate_intent-IsPermitted o s.portfolio c geo s.exposure priced allowed))
      | inr runs ↦ rw runs (IsBounded-refl c s.portfolio s.exposure)
    ]

    -- Over any orders with positive notionals, and also where the execution port or a constructor raises,
    -- the open orders, the day's turnover and the gross, short, sector and cluster exposures that the
    -- loop projects stay within the limits of the configuration, or no larger than they were before it.
    pub run_intents-IsBounded :
        (os : List OrderIntent) (s : HarnessState)
        → AllPositive os
        → Bounded c s (run_intents submit c geo os s).1
    unfolding run_intents
    run_intents-IsBounded [] s priced = IsBounded-refl c s.portfolio s.exposure
    run_intents-IsBounded (o ∷ os) s (priced, rest) =
        bind_keeps (Bounded c s) (λ u. run_intents submit c geo os) (run_intent submit c geo o) s
          (run_intent-IsBounded o s priced)
          (λ u t h. IsBounded-trans c h (run_intents-IsBounded os t rest))
