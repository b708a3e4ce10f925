-- ===== src/Harness/Limited.antt =====
-- What a whole run of the harness may do.
use mathlib.Core.Path.{subst}
use moex_tinvest_bot.Base.{
  Bool, true, false, ◌&&◌, some, List, [], ◌∷◌, ◌++◌, ◌≡◌, ◌⊎◌, inl, inr, refl, ap, ◌∙◌, arith,
  if◌then◌else◌,
}
use moex_tinvest_bot.Base.Result.{Result, ok, err, ok_inj}
use moex_tinvest_bot.Base.Exec.{bind_keeps}
use moex_tinvest_bot.Domain.{OrderIntent}
use moex_tinvest_bot.Config.{BotConfig}
use moex_tinvest_bot.Portfolio.{PortfolioSnapshot, GeoRiskSnapshot, Target}
use moex_tinvest_bot.Geo.{assess_geo_risk}
use moex_tinvest_bot.Quality.{QualityReport, QualityError, validate_market}
use moex_tinvest_bot.Intents.{BuildError, build_order_intents}
use moex_tinvest_bot.Intents.Positive.{AllPositive, build_order_intents-AllPositive}
use moex_tinvest_bot.Risk.{Exposure}
use moex_tinvest_bot.Harness.Loop.{HarnessError, HarnessState, run_started, run_intents}
use moex_tinvest_bot.Harness.Loop.Bounds.{IsBounded, run_intents-IsBounded}
use moex_tinvest_bot.Harness.Flow.{FlowDiagnostic}
use moex_tinvest_bot.Harness.Targets.{limited_targets}
use moex_tinvest_bot.Harness.{
  Outside, RunInput, select_targets, built_intents, start_exposure, run_targets, by_flow,
  by_quality, run, as_order_error,
}

module _ (outside : Outside) (c : BotConfig) (input : RunInput) where
  built_intents-AllPositive :
      (targets : List Target) (os : List OrderIntent)
      → built_intents outside c input targets ≡ ok os
      → AllPositive os
  built_intents-AllPositive targets os h =
      by_answer input.allow_rebalance refl
        (build_order_intents outside.request_id targets input.portfolio input.market
          c.min_trade_notional (some c.max_order_notional))
        refl h
    where
      by_answer :
          (b : Bool)
          → input.allow_rebalance ≡ b
          → (r : Result BuildError (List OrderIntent))
          → build_order_intents outside.request_id targets input.portfolio input.market
              c.min_trade_notional
              (some c.max_order_notional)
            ≡ r
          → (if b then as_order_error r else ok []) ≡ ok os
          → AllPositive os
      by_answer true e (ok built) f k =
          build_order_intents-AllPositive outside.request_id targets input.portfolio input.market
            c.min_trade_notional (some c.max_order_notional) os (f ∙ ap ok (ok_inj _ refl k))
      by_answer true e (err x) f k = absurd (ground (arith, k))
      by_answer false e r f k = subst AllPositive (ok_inj _ refl k) tt

  -- What a run may have done to the portfolio that it began with.
  pub record HasTraded (p : PortfolioSnapshot) (t : HarnessState) : Type 0 where
    pub passed : (validate_market input.market input.as_of c.max_data_age_seconds).passed ≡ true
    pub exposure : Exposure
    pub measured : start_exposure outside c input ≡ ok exposure
    pub limited : IsBounded c p exposure t.portfolio t.exposure

  abbrev Ends : HarnessState → HarnessState → Type 0
  Ends s t = ((t.orders ≡ s.orders) × (t.portfolio ≡ s.portfolio)) ⊎ HasTraded s.portfolio t

  run_targets-Ends :
      (quality : QualityReport) (geo : GeoRiskSnapshot) (flows : List FlowDiagnostic)
      (raw : List Target) (s : HarnessState)
      → (validate_market input.market input.as_of c.max_data_age_seconds).passed ≡ true
      → Ends s (run_targets outside c input quality geo flows raw s).1
  unfolding run_targets
  run_targets-Ends quality geo flows raw s passed =
      by_answers
        (built_intents outside c input (limited_targets outside.explain_multiplier c geo raw)) refl
        (start_exposure outside c input) refl
    where
      by_answers :
          (r : Result HarnessError (List OrderIntent))
          → built_intents outside c input (limited_targets outside.explain_multiplier c geo raw) ≡ r
          → (x : Result HarnessError Exposure) → start_exposure outside c input ≡ x
          → Ends s (run_targets outside c input quality geo flows raw s).1
      by_answers (err e) f x g = rw f (inl (refl, refl))
      by_answers (ok os) f (err e) g = rw (f, g) (inl (refl, refl))
      by_answers (ok os) f (ok e) g =
          let begun : HarnessState = record s { exposure = e } in
          let priced =
            built_intents-AllPositive (limited_targets outside.explain_multiplier c geo raw) os f in
          inr (record {
            passed = passed;
            exposure = e;
            measured = g;
            limited =
                rw (f, g)
                  (bind_keeps (λ t. IsBounded c s.portfolio e t.portfolio t.exposure) _
                    (run_intents outside.submit c geo os) begun
                    (run_intents-IsBounded c geo outside.submit os begun priced) (λ u t h. h));
          })

  by_flow-Ends :
      (quality : QualityReport) (geo : GeoRiskSnapshot) (raw : List Target) (es : List QualityError)
      (s : HarnessState)
      → (validate_market input.market input.as_of c.max_data_age_seconds).passed ≡ true
      → Ends s (by_flow outside c input quality geo raw es s).1
  unfolding by_flow
  by_flow-Ends quality geo raw [] s passed = run_targets-Ends quality geo _ _ s passed
  by_flow-Ends quality geo raw (e ∷ es) s passed = inl (refl, refl)

  selected-Ends :
      (quality : QualityReport) (geo : GeoRiskSnapshot) (s : HarnessState)
      → quality.passed ≡ true
      → (validate_market input.market input.as_of c.max_data_age_seconds).passed ≡ true
      → Ends s (by_quality outside c input quality geo s).1
  unfolding by_quality
  selected-Ends quality geo s open_market passed =
      by_targets (select_targets outside c input) refl
        (c.strategy.flow_confirmation_enabled && input.allow_rebalance) refl
    where
      by_targets :
          (r : Result HarnessError (List Target))
          → select_targets outside c input ≡ r
          → (b : Bool) → (c.strategy.flow_confirmation_enabled && input.allow_rebalance) ≡ b
          → Ends s (by_quality outside c input quality geo s).1
      by_targets (err e) f b g = simp (open_market, f) (inl (refl, refl))
      by_targets (ok raw) f true g =
          simp (open_market, f, g) (by_flow-Ends quality geo raw _ s passed)
      by_targets (ok raw) f false g =
          simp (open_market, f, g) (run_targets-Ends quality geo [] raw s passed)

  -- A run leaves the orders and the portfolio as they were, which it always does where the market
  -- snapshot fails the quality check; or the snapshot has passed, and the open orders, the turnover and the
  -- exposures that it projects stay within the configuration's limits, or are no larger than those of the
  -- portfolio at its start.
  pub run-Ends :
      (s : HarnessState)
      → (((run outside c input s).1.orders ≡ s.orders)
          × ((run outside c input s).1.portfolio ≡ s.portfolio))
        ⊎ HasTraded s.portfolio (run outside c input s).1
  unfolding run by_quality
  run-Ends s =
      by_passed (validate_market input.market input.as_of c.max_data_age_seconds).passed refl
    where
      by_passed :
          (b : Bool)
          → (validate_market input.market input.as_of c.max_data_age_seconds).passed ≡ b
          → Ends s (run outside c input s).1
      by_passed true e =
          selected-Ends (validate_market input.market input.as_of c.max_data_age_seconds)
            (assess_geo_risk input.geo_events input.news_stale)
            (record s { audit = s.audit ++ run_started ∷ [] }) e e
      by_passed false e = simp e (inl (refl, refl))
