-- ===== src/Geo/Tests.antt =====
-- Runs of the assessment, and the theorem at them.
use moex_tinvest_bot.Base.{◌≡◌, refl, [], ◌∷◌, true, false, any, if◌then◌else◌}
use moex_tinvest_bot.Domain.{aware, normal, elevated, high}
use moex_tinvest_bot.Portfolio.{member, high_event, unconfirmed_event}
use moex_tinvest_bot.Geo.{GeoEvent, assess_geo_risk, take_events, take_event}
use moex_tinvest_bot.Geo.Worst.{worse, worst_level, factor, blocks, assess_geo_risk_lem}

abbrev strong : GeoEvent
strong = record {
  event_id = 1;
  severity = 4;
  confidence = 750_000_000;
  confirmed = true;
  affected_secids = 10 ∷ [];
  observed_at = aware 1000;
}

-- As severe as can be, but not confirmed.
abbrev rumour : GeoEvent
rumour = record strong {
  event_id = 2;
  severity = 5;
  confidence = 900_000_000;
  confirmed = false;
  affected_secids = 30 ∷ [];
}

strong_then_rumour : assess_geo_risk (strong ∷ rumour ∷ []) false ≡ record {
  level = high;
  multiplier = 300_000_000;
  blocked_secids = 10 ∷ [];
  reasons = high_event 1 ∷ unconfirmed_event 2 ∷ [];
}
unfolding assess_geo_risk take_events take_event
strong_then_rumour = refl

assess_geo_risk_lem_example :
    let g = assess_geo_risk (strong ∷ rumour ∷ []) false in
    (g.level ≡ worse (if false then elevated else normal) (worst_level (strong ∷ rumour ∷ [])))
    × (g.multiplier ≡ factor g.level)
    × (member 30 g.blocked_secids ≡ any (blocks 30) (strong ∷ rumour ∷ []))
assess_geo_risk_lem_example = assess_geo_risk_lem (strong ∷ rumour ∷ []) false 30
