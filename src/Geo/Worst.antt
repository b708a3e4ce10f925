-- ===== src/Geo/Worst.antt =====
-- The assessment is that of the worst event, whatever the order of the events.
use moex_tinvest_bot.Base.{
  ℕ, Bool, true, false, not, ◌&&◌, ◌||◌, List, [], ◌∷◌, ◌≡◌, refl, ◌∙◌, ap, arith, leb, ◌==◌, any,
  any-append, if◌then◌else◌,
}
use moex_tinvest_bot.Domain.{Text, Nanos, GeoRiskLevel, normal, elevated, high, critical, recovery}
use moex_tinvest_bot.Portfolio.{one, member, GeoRiskSnapshot}
use moex_tinvest_bot.Geo.{GeoEvent, take_event, take_events, before_events, assess_geo_risk}

abbrev rank : GeoRiskLevel → ℕ
rank normal = 0
rank elevated = 1
rank recovery = 1
rank high = 2
rank critical = 3

-- The worse of two levels.
abbrev pub worse : GeoRiskLevel → GeoRiskLevel → GeoRiskLevel
worse a b = if leb (rank b) (rank a) then a else b

worse_assoc : (a b c : GeoRiskLevel) → worse (worse a b) c ≡ worse a (worse b c)
worse_assoc a b c = ground arith

-- The level that an event alone asks for: CRITICAL from severity 5 at a confidence of 0.80, HIGH from
-- severity 4 at 0.70, ELEVATED from severity 2 or where it is not confirmed.
abbrev pub event_level : GeoEvent → GeoRiskLevel
event_level e =
    if not e.confirmed
    then elevated
    else if leb 5 e.severity && leb 800_000_000 e.confidence
    then critical
    else if leb 4 e.severity && leb 700_000_000 e.confidence
    then high
    else if leb 2 e.severity
    then elevated
    else normal

abbrev pub worst_level : List GeoEvent → GeoRiskLevel
worst_level [] = normal
worst_level (e ∷ es) = worse (event_level e) (worst_level es)

-- The share of the usual exposure at a level; an assessment never says RECOVERY.
abbrev pub factor : GeoRiskLevel → Nanos
factor normal = one
factor elevated = 700_000_000
factor recovery = 700_000_000
factor high = 300_000_000
factor critical = 0

-- Whether an event blocks a name: confirmed, of severity 4 or 5, at a confidence of 0.70 or more.
abbrev pub blocks : Text → GeoEvent → Bool
blocks s e =
    e.confirmed && leb 4 e.severity && leb 700_000_000 e.confidence && member s e.affected_secids

take_event-level :
    (e : GeoEvent) (g : GeoRiskSnapshot) → (take_event e g).level ≡ worse g.level (event_level e)
unfolding take_event
take_event-level e g = ground arith

take_event-factor :
    (e : GeoEvent) (g : GeoRiskSnapshot)
    → g.multiplier ≡ factor g.level
    → (take_event e g).multiplier ≡ factor (take_event e g).level
unfolding take_event
take_event-factor e g h = ground arith

take_event-blocked :
    (s : Text) (e : GeoEvent) (g : GeoRiskSnapshot)
    → member s (take_event e g).blocked_secids ≡ (member s g.blocked_secids || blocks s e)
unfolding take_event
take_event-blocked s e g =
    ground (arith, any-append {0} (λ j. j == s) g.blocked_secids e.affected_secids)

take_events-level :
    (es : List GeoEvent) (g : GeoRiskSnapshot)
    → (take_events es g).level ≡ worse g.level (worst_level es)
unfolding take_events
take_events-level [] g = ground arith
take_events-level (e ∷ es) g =
    take_events-level es (take_event e g)
    ∙ ap (λ l. worse l (worst_level es)) (take_event-level e g)
    ∙ worse_assoc g.level (event_level e) (worst_level es)

take_events-factor :
    (es : List GeoEvent) (g : GeoRiskSnapshot)
    → g.multiplier ≡ factor g.level
    → (take_events es g).multiplier ≡ factor (take_events es g).level
unfolding take_events
take_events-factor [] g h = h
take_events-factor (e ∷ es) g h = take_events-factor es (take_event e g) (take_event-factor e g h)

take_events-blocked :
    (s : Text) (es : List GeoEvent) (g : GeoRiskSnapshot)
    → member s (take_events es g).blocked_secids ≡ (member s g.blocked_secids || any (blocks s) es)
unfolding take_events
take_events-blocked s [] g = ground arith
take_events-blocked s (e ∷ es) g =
    ground (arith, take_events-blocked s es (take_event e g), take_event-blocked s e g)

-- Whatever the order of the events, the assessed level is the worst that any of them asks for, at
-- least ELEVATED where the news are stale, and the multiplier is that level's. An event asks for
-- CRITICAL if it is confirmed, of severity 5 and of a confidence of 0.80 or more; otherwise for HIGH if it
-- is confirmed, of severity 4 or more and of a confidence of 0.70 or more; otherwise for ELEVATED if it is
-- of severity 2 or more or not confirmed. A name is blocked exactly when a confirmed event of
-- severity 4 or more and of a confidence of 0.70 or more affects it.
pub assess_geo_risk_lem :
    (events : List GeoEvent) (news_stale : Bool) (s : Text)
    → let g = assess_geo_risk events news_stale in
      (g.level ≡ worse (if news_stale then elevated else normal) (worst_level events))
      × (g.multiplier ≡ factor g.level)
      × (member s g.blocked_secids ≡ any (blocks s) events)
unfolding assess_geo_risk
assess_geo_risk_lem events true s = (
  take_events-level events (before_events true),
  take_events-factor events (before_events true) refl,
  take_events-blocked s events (before_events true),
)
assess_geo_risk_lem events false s = (
  take_events-level events (before_events false),
  take_events-factor events (before_events false) refl,
  take_events-blocked s events (before_events false),
)
