-- ===== src/Intents/Positive.antt =====
-- Every order that is built has a positive notional.
use mathlib.Core.Path.{subst}
use moex_tinvest_bot.Base.{ℕ, Option, none, some, List, [], ◌∷◌, ◌<◌, ◌≡◌, refl, ap, ◌∙◌, arith}
use moex_tinvest_bot.Base.Int.{ℤ}
use moex_tinvest_bot.Base.Result.{⊤, Result, ok, ok_bind, ok_inj}
use moex_tinvest_bot.Domain.{Text, Nanos, Side, OrderIntent}
use moex_tinvest_bot.Portfolio.{Dict, lookup, MarketObservation, PortfolioSnapshot, Target, equity}
use moex_tinvest_bot.Intents.{
  BuildError, as_build_error, intents_of, intent_of_name, target_of, add_intent,
  build_order_intents,
}
use moex_tinvest_bot.Intents.Shape.{intent_for-IsShaped}
use moex_tinvest_bot.Risk.{lots_of}

abbrev pub AllPositive : List OrderIntent → Type 0
AllPositive [] = ⊤
AllPositive (o ∷ os) = (0 < o.notional) × AllPositive os

module _ (request_id : Text → Side → ℕ → Text) (total : ℤ) (targets : List Target)
    (portfolio : PortfolioSnapshot) (market : Dict MarketObservation) (minimum : Nanos)
    (cap : Option Nanos) where
  abbrev turn : Text → Result BuildError (Option OrderIntent)
  turn = intent_of_name request_id total targets portfolio market minimum cap

  turn-positive : (secid : Text) (o : OrderIntent) → turn secid ≡ ok (some o) → 0 < o.notional
  unfolding intent_of_name
  turn-positive secid o h = by_seen (lookup secid market) refl
    where
      by_seen : (seen : Option MarketObservation) → lookup secid market ≡ seen → 0 < o.notional
      by_seen none e = absurd (ground (arith, h, e))
      by_seen (some seen) e =
          (intent_for-IsShaped request_id total (target_of secid targets)
            (lots_of (lookup secid portfolio.positions)) seen minimum cap o
            (ground (arith, h, e))).positive

  add_intent-AllPositive :
      (here : Option OrderIntent) (rest : List OrderIntent)
      → ((o : OrderIntent) → here ≡ some o → 0 < o.notional)
      → AllPositive rest
      → AllPositive (add_intent request_id here rest)
  add_intent-AllPositive none rest h k = k
  add_intent-AllPositive (some o) rest h k = (h o refl, k)

  intents_of-AllPositive :
      (secids : List Text) (os : List OrderIntent)
      → intents_of request_id turn secids ≡ ok os
      → AllPositive os
  unfolding intents_of
  intents_of-AllPositive [] [] h = tt
  intents_of-AllPositive [] (o ∷ os) h = absurd (ground (arith, h))
  intents_of-AllPositive (secid ∷ secids) os h =
      let (here, e1, k1) = ok_bind (turn secid) _ os h in
      let (rest, e2, k2) = ok_bind (intents_of request_id turn secids) _ os k1 in
      subst AllPositive (ok_inj _ refl k2) (
        add_intent-AllPositive here rest (λ o e. turn-positive secid o (e1 ∙ ap ok e))
          (intents_of-AllPositive secids rest e2))

pub build_order_intents-AllPositive :
    (request_id : Text → Side → ℕ → Text) (targets : List Target) (portfolio : PortfolioSnapshot)
    (market : Dict MarketObservation) (minimum : Nanos) (cap : Option Nanos) (os : List OrderIntent)
    → build_order_intents request_id targets portfolio market minimum cap ≡ ok os
    → AllPositive os
unfolding build_order_intents
build_order_intents-AllPositive request_id targets portfolio market minimum cap os h =
    let (total, _, k) = ok_bind (as_build_error (equity portfolio market)) _ os h in
    intents_of-AllPositive request_id total targets portfolio market minimum cap _ os k
