-- ===== src/Strategy/Tests.antt =====
-- Two observed shares, and the theorems at them.
use moex_tinvest_bot.Base.{◌≡◌, refl, [], ◌∷◌, map}
use moex_tinvest_bot.Base.Int.{pos}
use moex_tinvest_bot.Portfolio.{MarketObservation}
use moex_tinvest_bot.Strategy.{
  is_long_eligible, is_short_eligible, before_long, before_short, secid_of, select, selected_long,
  selected_short,
}
use moex_tinvest_bot.Strategy.Selected.{IsSelection, selected-IsSelection}
use moex_tinvest_bot.Samples.{seen, share_item, strategy}

abbrev faster : MarketObservation
faster = record seen { instrument = record share_item { secid = 30 }; momentum = pos 60_000_000 }

abbrev slower : MarketObservation
slower = record seen { instrument = record share_item { secid = 31 }; momentum = pos 5_000_000 }

-- The slowest is not above the threshold of the momentum.
faster_first : map secid_of (selected_long strategy [] (seen ∷ slower ∷ faster ∷ [])) ≡ 30 ∷ 10 ∷ []
unfolding selected_long select
faster_first = refl

selected-IsSelection_example :
    IsSelection before_long
      (is_long_eligible strategy)
      (10 ∷ [])
      3
      1
      (seen ∷ slower ∷ faster ∷ [])
      (selected_long strategy (10 ∷ []) (seen ∷ slower ∷ faster ∷ []))
    × IsSelection before_short
        (is_short_eligible strategy)
        []
        0
        1
        (seen ∷ slower ∷ faster ∷ [])
        (selected_short strategy [] (seen ∷ slower ∷ faster ∷ []))
selected-IsSelection_example =
    selected-IsSelection strategy (10 ∷ []) [] (seen ∷ slower ∷ faster ∷ [])
