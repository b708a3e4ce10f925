-- ===== src/Geo.antt =====
-- src/moex_bot/geo.py: `assess_geo_risk`, which folds the day's geopolitical events into the snapshot
-- that the risk gate reads. A set of names is a list, read by membership.
pub mod Worst
mod Tests
use moex_tinvest_bot.Base.{
  ltb, ℕ, Bool, true, false, not, ◌&&◌, Option, List, [], ◌∷◌, ◌++◌, leb, min, if◌then◌else◌,
}
use moex_tinvest_bot.Base.Result.{⊤, Result, ok, raise_if, ◌>>◌, ◌>>=◌}
use moex_tinvest_bot.Domain.{
  need_aware, naive_event, bad_confidence, bad_severity, DomainError, Text, Nanos, Moment,
  GeoRiskLevel, normal, elevated, high, critical, recovery,
}
use moex_tinvest_bot.Portfolio.{
  one, GeoRiskSnapshot, GeoReason, stale_feed, unconfirmed_event, critical_event, high_event,
  elevated_event,
}

pub record GeoEvent : Type 0 where
  pub event_id : Text
  pub severity : ℕ
  pub confidence : Nanos
  pub confirmed : Bool
  pub affected_secids : List Text
  pub observed_at : Moment

-- `GeoEvent.__post_init__`
unfoldable pub check_event : GeoEvent → Result DomainError ⊤
check_event e = do
  raise_if (ltb 5 e.severity) bad_severity
  raise_if (ltb one e.confidence) bad_confidence
  t ← need_aware e.observed_at naive_event
  ok tt

-- `event.severity >= 5 and event.confidence >= Decimal("0.80")`, and so on
abbrev pub is_critical_event : GeoEvent → Bool
is_critical_event e = leb 5 e.severity && leb 800_000_000 e.confidence

abbrev pub is_high_event : GeoEvent → Bool
is_high_event e = leb 4 e.severity && leb 700_000_000 e.confidence

-- `if level is NORMAL: level = ELEVATED; multiplier = min(multiplier, 0.70)`
abbrev elevate : GeoReason → GeoRiskSnapshot → GeoRiskSnapshot
elevate why g = elim g.level [
  | normal ↦ record g {
    level = elevated;
    multiplier = min g.multiplier 700_000_000;
    reasons = g.reasons ++ why ∷ [];
  }
  | _ ↦ record g { reasons = g.reasons ++ why ∷ [] }
]

abbrev raise_high : GeoEvent → GeoRiskSnapshot → GeoRiskSnapshot
raise_high e g = elim g.level [
  | critical ↦ record g {
    blocked_secids = g.blocked_secids ++ e.affected_secids;
    reasons = g.reasons ++ high_event e.event_id ∷ [];
  }
  | _ ↦ record g {
    level = high;
    multiplier = min g.multiplier 300_000_000;
    blocked_secids = g.blocked_secids ++ e.affected_secids;
    reasons = g.reasons ++ high_event e.event_id ∷ [];
  }
]

-- One turn of the loop.
take_event : GeoEvent → GeoRiskSnapshot → GeoRiskSnapshot
take_event e g =
    if not e.confirmed
    then elevate (unconfirmed_event e.event_id) g
    else if is_critical_event e
    then record g {
      level = critical;
      multiplier = 0;
      blocked_secids = g.blocked_secids ++ e.affected_secids;
      reasons = g.reasons ++ critical_event e.event_id ∷ [];
    }
    else if is_high_event e
    then raise_high e g
    else if leb 2 e.severity
    then elevate (elevated_event e.event_id) g
    else g

take_events : List GeoEvent → GeoRiskSnapshot → GeoRiskSnapshot
take_events [] g = g
take_events (e ∷ es) g = take_events es (take_event e g)

-- Where the loop starts.
abbrev pub before_events : Bool → GeoRiskSnapshot
before_events true = record {
  level = elevated;
  multiplier = 700_000_000;
  blocked_secids = [];
  reasons = stale_feed ∷ [];
}
before_events false = record { level = normal; multiplier = one; blocked_secids = []; reasons = [] }

-- `assess_geo_risk`
pub assess_geo_risk : List GeoEvent → Bool → GeoRiskSnapshot
assess_geo_risk events news_stale = take_events events (before_events news_stale)
