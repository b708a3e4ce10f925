-- ===== src/Harness/Targets.antt =====
-- src/moex_bot/harness.py: the targets after the limits on weights and the geopolitical assessment, the
-- diagnostics of the signals, and the exposures at which the loop starts. A product of weights is
-- rounded down to a nano.
use moex_tinvest_bot.Base.{
  Bool, not, ◌&&◌, ◌||◌, List, [], ◌∷◌, ◌+◌, ◌*◌, ◌/◌, ltb, leb, min, map, keep, errors_of,
  if◌then◌else◌,
}
use moex_tinvest_bot.Base.Int.{ℤ, pos, pos_part, abs, ◌-ℤ◌, ltb_ℤ, leb_ℤ}
use moex_tinvest_bot.Base.Result.{Result, ok, or_raise, ◌>>=◌}
use moex_tinvest_bot.Domain.{Text, Nanos, Position}
use moex_tinvest_bot.Config.{BotConfig}
use moex_tinvest_bot.Portfolio.{
  one, Dict, lookup, assign, member, MarketObservation, GeoRiskSnapshot, Target,
}
use moex_tinvest_bot.Risk.{exposure_of}
use moex_tinvest_bot.Strategy.{ranked, before_long, secid_of}
use moex_tinvest_bot.Harness.Loop.{HarnessError, no_price}

-- The weight of a target, capped and multiplied.
abbrev pub limited_weight : BotConfig → GeoRiskSnapshot → ℤ → ℤ
limited_weight c geo w =
    if leb_ℤ (pos 0) w
    then pos (min (pos_part w) c.max_position_weight * geo.multiplier / one)
    else pos 0 -ℤ pos (min (abs w) c.max_short_position_weight * geo.multiplier / one)

module _ (explain : Text → Nanos → Text) where
  abbrev limited_target : BotConfig → GeoRiskSnapshot → Target → Target
  limited_target c geo t = record {
    secid = t.secid;
    weight = limited_weight c geo t.weight;
    rationale = explain t.rationale geo.multiplier;
  }

  -- The targets that the orders are built from.
  pub limited_targets : BotConfig → GeoRiskSnapshot → List Target → List Target
  limited_targets c geo ts =
      map (limited_target c geo) (keep (λ t. not (member t.secid geo.blocked_secids)) ts)

pub data SignalReason : Type 0 where
  incomplete not_tradable weak_momentum below_trend blocked_by_geo : SignalReason

pub record SignalDiagnostic : Type 0 where
  pub secid : Text
  pub momentum : ℤ
  pub momentum_threshold : ℤ
  pub price : Nanos
  pub trend : Nanos
  pub eligible : Bool
  pub reasons : List SignalReason

-- `SignalDiagnostic` of an observation.
pub signal_diagnostic : BotConfig → GeoRiskSnapshot → MarketObservation → SignalDiagnostic
signal_diagnostic c geo o = record {
  secid = secid_of o;
  momentum = o.momentum;
  momentum_threshold = c.strategy.min_momentum;
  price = o.price;
  trend = o.trend;
  eligible =
      o.complete
      && o.tradable
      && ltb_ℤ c.strategy.min_momentum o.momentum
      && (not c.strategy.require_above_trend || ltb o.trend o.price)
      && not (member (secid_of o) geo.blocked_secids);
  reasons = errors_of (
      (not o.complete, incomplete)
      ∷ (not o.tradable, not_tradable)
      ∷ (leb_ℤ o.momentum c.strategy.min_momentum, weak_momentum)
      ∷ (c.strategy.require_above_trend && leb o.price o.trend, below_trend)
      ∷ (member (secid_of o) geo.blocked_secids, blocked_by_geo)
      ∷ []);
}

abbrev pub signal_diagnostics :
    BotConfig → GeoRiskSnapshot → List MarketObservation → List SignalDiagnostic
signal_diagnostics c geo os = map (signal_diagnostic c geo) (ranked before_long os)

-- `abs(position.units * market[secid].price)`
abbrev value_of : Position → MarketObservation → Nanos
value_of p o = abs p.lots * p.instrument.lot_size * o.price

module _ (market : Dict MarketObservation) where
  -- `gross_exposure`, and `short_exposure` where only short positions count
  pub exposure_in : Bool → Dict Position → Result HarnessError Nanos
  exposure_in short_only [] = ok 0
  exposure_in short_only ((secid, p) ∷ ps) = do
    o ← or_raise (lookup secid market) (no_price secid)
    rest ← exposure_in short_only ps
    ok (if short_only && not (ltb_ℤ p.lots (pos 0)) then rest else value_of p o + rest)

  -- `sector_exposure` and `cluster_exposure`, by the key of a position
  pub exposure_by :
      (Position → Text) → Dict Nanos → Dict Position → Result HarnessError (Dict Nanos)
  exposure_by key d [] = ok d
  exposure_by key d ((secid, p) ∷ ps) = do
    o ← or_raise (lookup secid market) (no_price secid)
    exposure_by key (assign (key p) (exposure_of (key p) d + value_of p o) d) ps
