-- ===== src/Intents/Gate.antt =====
-- Orders that are built from a portfolio meet the risk gate for the same portfolio.
use moex_tinvest_bot.Base.{ℕ, Option, false, some, ◌≡◌, refl, any}
use moex_tinvest_bot.Base.Int.{ℤ}
use moex_tinvest_bot.Base.Result.{ok}
use moex_tinvest_bot.Domain.{Text, Nanos, Side, OrderIntent}
use moex_tinvest_bot.Config.{BotConfig}
use moex_tinvest_bot.Portfolio.{
  lookup, MarketObservation, Target, PortfolioSnapshot, GeoRiskSnapshot,
}
use moex_tinvest_bot.Risk.{Exposure, evaluate_intent, lots_of}
use moex_tinvest_bot.Risk.Form.{is_malformed, evaluate_intent-well}
use moex_tinvest_bot.Intents.{intent_for}
use moex_tinvest_bot.Intents.Shape.{intent_for-IsShaped}

-- An order built for an instrument's position in a portfolio, with the configured cap on notionals, is
-- never refused by the risk gate, for that portfolio, for a reversal, for its margin flag or for its
-- notional, whatever the geopolitical snapshot, the equity and the exposures are.
pub built_intent_well :
    (request_id : Text → Side → ℕ → Text) (equity : ℤ) (target : Option Target)
    (p : PortfolioSnapshot) (seen : MarketObservation) (minimum : Nanos) (c : BotConfig)
    (geo : GeoRiskSnapshot) (e : Exposure) (o : OrderIntent)
    → intent_for request_id equity target
        (lots_of (lookup seen.instrument.secid p.positions))
        seen
        minimum
        (some c.max_order_notional)
      ≡ ok (some o)
    → any is_malformed (evaluate_intent o p c geo e).reasons ≡ false
built_intent_well request_id equity target p seen minimum c geo e o h =
    let current = lots_of (lookup seen.instrument.secid p.positions) in
    let shape =
      intent_for-IsShaped request_id equity target current seen minimum (some c.max_order_notional)
        o h in
    evaluate_intent-well o p c geo e (shape.capped c.max_order_notional refl)
      (rw shape.own shape.no_reversal) (rw shape.own shape.margin_exact)
