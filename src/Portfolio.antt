-- ===== src/Portfolio.antt =====
-- src/moex_bot/domain.py: `MarketObservation`, `PortfolioSnapshot` and its `equity`, `Target` and
-- `GeoRiskSnapshot`. Mappings are association lists; a weight is a fraction in nanos.
use moex_tinvest_bot.Base.{
  ◌||◌, ℕ, Bool, Option, none, some, List, [], ◌∷◌, ◌+◌, ◌==◌, any, if◌then◌else◌,
}
use moex_tinvest_bot.Base.Int.{ℤ, pos, ◌+ℤ◌, ◌*ℤ◌, ltb_ℤ}
use moex_tinvest_bot.Base.Result.{◌>>◌, raise_if, ⊤, Result, ok, err, ◌>>=◌}
use moex_tinvest_bot.Domain.{
  need_aware, naive_observation, prices_not_positive, DomainError, Text, Nanos, Moment, Instrument,
  Position, GeoRiskLevel,
}

-- `Decimal("1")`
abbrev pub one : Nanos
one = 1_000_000_000

abbrev pub Dict : Type 0 → Type 0
Dict V = List (Text × V)

module _ {V : Type 0} where
  -- `d.get(key)`
  abbrev pub lookup : Text → Dict V → Option V
  lookup k [] = none
  lookup k ((j, v) ∷ d) = if j == k then some v else lookup k d

  -- `d[key] = value`, which keeps the place of the key
  abbrev pub assign : Text → V → Dict V → Dict V
  assign k v [] = (k, v) ∷ []
  assign k v ((j, u) ∷ d) = if j == k then (j, v) ∷ d else (j, u) ∷ assign k v d

  -- `d.pop(key, None)`, of a dictionary, where a key stands once
  abbrev pub remove : Text → Dict V → Dict V
  remove k [] = []
  remove k ((j, v) ∷ d) = if j == k then remove k d else (j, v) ∷ remove k d

-- `key in set`
abbrev pub member : Text → List Text → Bool
member k xs = any (λ j. j == k) xs

pub record MarketObservation : Type 0 where
  pub instrument : Instrument
  pub price : Nanos
  pub trend : Nanos
  pub momentum : ℤ
  pub volatility : Nanos
  pub observed_at : Moment
  pub complete : Bool
  pub tradable : Bool

-- `MarketObservation.__post_init__`
unfoldable pub check_observation : MarketObservation → Result DomainError ⊤
check_observation o = do
  raise_if (o.price == 0 || o.trend == 0) prices_not_positive
  t ← need_aware o.observed_at naive_observation
  ok tt

pub record PortfolioSnapshot : Type 0 where
  pub cash : Nanos
  pub positions : Dict Position
  pub daily_turnover : Nanos
  pub open_orders : ℕ
  pub blocked_cash : Nanos
  pub reported_equity : Option ℤ
  -- `source.startswith("t_invest")`
  pub is_broker_snapshot : Bool

-- The reasons of a geopolitical assessment; an event is named by its id.
pub data GeoReason : Type 0 where
  stale_feed : GeoReason
  unconfirmed_event critical_event high_event elevated_event : Text → GeoReason

pub record GeoRiskSnapshot : Type 0 where
  pub level : GeoRiskLevel
  pub multiplier : Nanos
  pub blocked_secids : List Text
  pub reasons : List GeoReason

pub record Target : Type 0 where
  pub secid : Text
  pub weight : ℤ
  pub rationale : Text

pub data EquityError : Type 0 where
  missing_price : Text → EquityError

-- `Position.units`
abbrev pub units : Position → ℤ
units p = p.lots *ℤ pos p.instrument.lot_size

-- The loop of `PortfolioSnapshot.equity`.
abbrev add_positions : Dict MarketObservation → ℤ → Dict Position → Result EquityError ℤ
add_positions market total [] = ok total
add_positions market total ((secid, p) ∷ ps) = elim (lookup secid market) [
  | none ↦ err (missing_price secid)
  | some o ↦ add_positions market (total +ℤ units p *ℤ pos o.price) ps
]

abbrev min_ℤ : ℤ → ℤ → ℤ
min_ℤ a b = if ltb_ℤ b a then b else a

abbrev capped : Option ℤ → ℤ → ℤ
capped none total = total
capped (some reported) total = if ltb_ℤ (pos 0) reported then min_ℤ total reported else total

-- `PortfolioSnapshot.equity`
unfoldable pub equity : PortfolioSnapshot → Dict MarketObservation → Result EquityError ℤ
equity p market = do
  total ← add_positions market (pos (p.cash + p.blocked_cash)) p.positions
  ok (capped p.reported_equity total)
