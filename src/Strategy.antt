-- ===== src/Strategy.antt =====
-- src/moex_bot/strategy.py: `calculate_targets`, which ranks the observed instruments by momentum and
-- weights those that it selects. Decimal's division is the parameter `quotient` and the text of a
-- rationale the parameter `explain`.
pub mod Selected
mod Tests
use moex_tinvest_bot.Base.{
  ℕ, Bool, true, false, not, ◌&&◌, ◌||◌, List, [], ◌∷◌, ◌++◌, ◌+◌, ◌*◌, ltb, leb, ◌==◌, max, map,
  keep, take, if◌then◌else◌,
}
use moex_tinvest_bot.Base.Int.{ℤ, pos, ltb_ℤ, ◌-ℤ◌}
use moex_tinvest_bot.Base.Result.{Result, ok, err, ◌>>=◌, ◌>>◌, raise_if}
use moex_tinvest_bot.Domain.{Text, Nanos}
use moex_tinvest_bot.Config.{StrategyConfig}
use moex_tinvest_bot.Portfolio.{one, member, MarketObservation, Target}

pub data StrategyError : Type 0 where
  zero_division : StrategyError

abbrev pub secid_of : MarketObservation → Text
secid_of o = o.instrument.secid

abbrev pub is_long_eligible : StrategyConfig → MarketObservation → Bool
is_long_eligible c o =
    o.tradable
    && o.complete
    && ltb_ℤ c.min_momentum o.momentum
    && (not c.require_above_trend || ltb o.trend o.price)

abbrev pub is_short_eligible : StrategyConfig → MarketObservation → Bool
is_short_eligible c o =
    c.shorts_enabled
    && (o.tradable
        && o.complete
        && o.instrument.short_enabled
        && ltb_ℤ o.momentum c.max_short_momentum
        && (not c.require_below_trend_for_short || ltb o.price o.trend))

-- The keys `(-item.momentum, secid)` and `(item.momentum, secid)`, compared by `<`.
abbrev pub before_long : MarketObservation → MarketObservation → Bool
before_long a b =
    ltb_ℤ b.momentum a.momentum
    || (not (ltb_ℤ a.momentum b.momentum) && ltb (secid_of a) (secid_of b))

abbrev pub before_short : MarketObservation → MarketObservation → Bool
before_short a b =
    ltb_ℤ a.momentum b.momentum
    || (not (ltb_ℤ b.momentum a.momentum) && ltb (secid_of a) (secid_of b))

module _ (before : MarketObservation → MarketObservation → Bool) where
  -- `sorted`, which is stable
  abbrev insert_ranked : MarketObservation → List MarketObservation → List MarketObservation
  insert_ranked x [] = x ∷ []
  insert_ranked x (y ∷ ys) = if before y x then y ∷ insert_ranked x ys else x ∷ y ∷ ys

  abbrev pub ranked : List MarketObservation → List MarketObservation
  ranked [] = []
  ranked (x ∷ xs) = insert_ranked x (ranked xs)

-- The held items up to a rank; the first item has the given rank.
abbrev pub retained : List Text → ℕ → ℕ → List MarketObservation → List MarketObservation
retained held limit rank [] = []
retained held limit rank (x ∷ xs) =
    if member (secid_of x) held && leb rank limit
    then x ∷ retained held limit (rank + 1) xs
    else retained held limit (rank + 1) xs

-- `{item.instrument.secid: item for item in items}.values()`: a later item of a name takes the place of
-- an earlier one.
abbrev put_item : MarketObservation → List MarketObservation → List MarketObservation
put_item x [] = x ∷ []
put_item x (y ∷ ys) = if secid_of y == secid_of x then x ∷ ys else y ∷ put_item x ys

abbrev pub by_secid : List MarketObservation → List MarketObservation → List MarketObservation
by_secid d [] = d
by_secid d (x ∷ xs) = by_secid (put_item x d) xs

-- The entrants and the retained of the eligible items, ranked again.
pub select :
    (MarketObservation → MarketObservation → Bool)
    → List Text
    → ℕ
    → ℕ
    → List MarketObservation
    → List MarketObservation
select before held top_n buffer eligible =
    let order = ranked before eligible in
    ranked before (by_secid [] (take top_n order ++ retained held (top_n + buffer) 1 order))

pub selected_long : StrategyConfig → List Text → List MarketObservation → List MarketObservation
selected_long c held os =
    select before_long held c.top_n c.exit_rank_buffer (keep (is_long_eligible c) os)

pub selected_short : StrategyConfig → List Text → List MarketObservation → List MarketObservation
selected_short c held os =
    select before_short held c.short_top_n c.exit_rank_buffer (keep (is_short_eligible c) os)

abbrev sum_of : List Nanos → Nanos
sum_of [] = 0
sum_of (x ∷ xs) = x + sum_of xs

module _ (quotient : Nanos → Nanos → Nanos) (explain : Bool → MarketObservation → Text) where
  -- `allocation_units` of one item; the selected items have different names.
  pub allocation_unit : StrategyConfig → MarketObservation → Result StrategyError Nanos
  allocation_unit c o =
      if not c.inverse_volatility_weights
      then ok one
      else if max o.volatility c.volatility_floor == 0
      then err zero_division
      else ok (quotient (one * one) (max o.volatility c.volatility_floor))

  abbrev allocation_units :
      StrategyConfig → List MarketObservation → Result StrategyError (List Nanos)
  allocation_units c [] = ok []
  allocation_units c (o ∷ os) = do
    here ← allocation_unit c o
    rest ← allocation_units c os
    ok (here ∷ rest)

  abbrev signed_by : Bool → Nanos → ℤ
  signed_by true w = pos w
  signed_by false w = pos 0 -ℤ pos w

  abbrev target_for : Bool → Nanos → Nanos → MarketObservation → Nanos → Target
  target_for is_long gross total o unit = record {
    secid = secid_of o;
    weight = signed_by is_long (quotient (gross * unit) total);
    rationale = explain is_long o;
  }

  abbrev targets_for : Bool → Nanos → Nanos → List MarketObservation → List Nanos → List Target
  targets_for is_long gross total (o ∷ os) (u ∷ us) =
      target_for is_long gross total o u ∷ targets_for is_long gross total os us
  targets_for is_long gross total _ _ = []

  -- `_weighted_targets`
  pub weighted_targets :
      Bool → StrategyConfig → Nanos → List MarketObservation → Result StrategyError (List Target)
  weighted_targets is_long c gross [] = ok []
  weighted_targets is_long c gross (o ∷ os) = if gross == 0 then ok [] else do
    units ← allocation_units c (o ∷ os)
    raise_if (sum_of units == 0) zero_division
    ok (targets_for is_long gross (sum_of units) (o ∷ os) units)

  -- `calculate_targets`
  pub calculate_targets :
      StrategyConfig
      → List Text
      → List Text
      → List MarketObservation
      → Result StrategyError (List Target)
  calculate_targets c held_secids held_short_secids os = do
    longs ← weighted_targets true c c.long_target_gross (selected_long c held_secids os)
    shorts ← weighted_targets false c c.short_target_gross (selected_short c held_short_secids os)
    ok (longs ++ shorts)
