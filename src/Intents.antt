-- ===== src/Intents.antt =====
-- src/moex_bot/execution.py: `build_order_intents`, which turns target weights into limit orders. A
-- UUID of the run, the instrument, the side and the lots is the parameter `request_id`. Weights and
-- prices are in nanos, so `equity * weight` is in nanos of nanos; quotients are exact.
pub mod Shape
pub mod Gate
pub mod Positive
mod Tests
use moex_tinvest_bot.Base.{
  ℕ, Bool, true, false, not, ◌&&◌, ◌||◌, Option, none, some, List, [], ◌∷◌, ◌++◌, ◌*◌, ◌/◌, ltb,
  leb, ◌==◌, min, map, keep, any, is_some, if◌then◌else◌,
}
use moex_tinvest_bot.Base.Int.{ℤ, pos, negsuc, pos_part, neg_part, abs, ◌+ℤ◌, ◌-ℤ◌, ltb_ℤ, leb_ℤ}
use moex_tinvest_bot.Base.Result.{Result, ok, err, ◌>>=◌}
use moex_tinvest_bot.Domain.{
  Text, Nanos, Side, buy, sell, Instrument, Position, OrderIntent, limit, round_price,
}
use moex_tinvest_bot.Portfolio.{
  one, Dict, lookup, member, MarketObservation, PortfolioSnapshot, Target, EquityError, equity,
}
use moex_tinvest_bot.Risk.{is_opposite, lots_of, after, opens_short}

pub data BuildError : Type 0 where
  no_equity : EquityError → BuildError
  bad_price division_by_zero : BuildError

abbrev as_build_error : Result EquityError ℤ → Result BuildError ℤ
as_build_error (ok total) = ok total
as_build_error (err e) = err (no_equity e)

-- `sorted` of texts
abbrev pub insert_sorted : Text → List Text → List Text
insert_sorted x [] = x ∷ []
insert_sorted x (y ∷ ys) = if leb x y then x ∷ y ∷ ys else y ∷ insert_sorted x ys

abbrev pub sort_texts : List Text → List Text
sort_texts [] = []
sort_texts (x ∷ xs) = insert_sorted x (sort_texts xs)

-- `{target.secid: target for target in targets}.get(secid)`: the last target of a name counts.
abbrev target_of : Text → List Target → Option Target
target_of secid [] = none
target_of secid (t ∷ ts) = elim (target_of secid ts) [
  | some u ↦ some u
  | none ↦ if t.secid == secid then some t else none
]

abbrev weight_of : Option Target → ℤ
weight_of none = pos 0
weight_of (some t) = t.weight

-- `"exit target"`, where there is no target
abbrev exit_target : Text
exit_target = 3

abbrev rationale_of : Option Target → Text
rationale_of none = exit_target
rationale_of (some t) = t.rationale

-- `a` with the sign of `value`
abbrev signed : Bool → ℕ → ℤ
signed true a = pos 0 -ℤ pos a
signed false a = pos a

-- The lots that the target weight buys, and none where that would cross zero.
pub target_lots : ℤ → ℤ → Nanos → ℤ → ℤ
target_lots equity weight lot_value current =
    let lots = signed (is_opposite equity weight) (abs equity * abs weight / (one * lot_value)) in
    if is_opposite current lots then pos 0 else lots

abbrev cap_lots : Option Nanos → Nanos → ℕ → ℕ
cap_lots none lot_notional lots = lots
cap_lots (some cap) lot_notional lots = min lots (cap / lot_notional)

-- `delta > 0`
abbrev side_of : ℤ → Side
side_of delta = if ltb_ℤ (pos 0) delta then buy else sell

module _ (request_id : Text → Side → ℕ → Text) where
  -- The order of a size that has been capped, unless the size is zero or too small; the constructor
  -- of `OrderIntent` refuses a price or a notional of zero.
  sized_intent :
      Instrument → Nanos → Text → ℤ → Side → ℕ → Nanos → Result BuildError (Option OrderIntent)
  sized_intent i price rationale current side lots min_notional =
      let notional = lots * i.lot_size * price in
      if lots == 0 || ltb notional min_notional
      then ok none
      else if price == 0 || notional == 0
      then err bad_price
      else ok (
          some (record {
            order_request_id = request_id i.secid side lots;
            instrument = i;
            side = side;
            lots = lots;
            limit_price = price;
            notional = notional;
            rationale = rationale;
            confirm_margin_trade = opens_short current (after current side lots);
            order_type = limit;
          }))

  -- One turn of the loop, for an instrument whose observation is at hand. A rounded price of zero
  -- makes the division of the cap raise.
  pub intent_for :
      ℤ
      → Option Target
      → ℤ
      → MarketObservation
      → Nanos
      → Option Nanos
      → Result BuildError (Option OrderIntent)
  intent_for equity target current o min_notional cap =
      let i = o.instrument in
      let delta = target_lots equity (weight_of target) (i.lot_size * o.price) current -ℤ current in
      let price = round_price i o.price in
      if abs delta == 0
      then ok none
      else if is_some cap && i.lot_size * price == 0
      then err division_by_zero
      else sized_intent i price (rationale_of target) current (side_of delta)
          (cap_lots cap (i.lot_size * price) (abs delta)) min_notional

  -- The same for a name of the loop, which `continue`s where there is no observation.
  intent_of_name :
      ℤ
      → List Target
      → PortfolioSnapshot
      → Dict MarketObservation
      → Nanos
      → Option Nanos
      → Text
      → Result BuildError (Option OrderIntent)
  intent_of_name equity targets portfolio market min_notional cap secid =
      elim (lookup secid market) [
        | none ↦ ok none
        | some o ↦
            intent_for equity (target_of secid targets) (lots_of (lookup secid portfolio.positions))
              o min_notional cap
      ]

  abbrev add_intent : Option OrderIntent → List OrderIntent → List OrderIntent
  add_intent none os = os
  add_intent (some o) os = o ∷ os

  pub intents_of :
      (Text → Result BuildError (Option OrderIntent))
      → List Text
      → Result BuildError (List OrderIntent)
  intents_of turn [] = ok []
  intents_of turn (secid ∷ secids) = do
    here ← turn secid
    rest ← intents_of turn secids
    ok (add_intent here rest)

  -- `build_order_intents`
  pub build_order_intents :
      List Target
      → PortfolioSnapshot
      → Dict MarketObservation
      → Nanos
      → Option Nanos
      → Result BuildError (List OrderIntent)
  build_order_intents targets portfolio market min_notional cap = do
    total ← as_build_error (equity portfolio market)
    let ranked = map (λ (t : Target). t.secid) targets
    let held = map (λ (e : Text × Position). e.0) portfolio.positions
    let exits = sort_texts (keep (λ s. not (member s ranked)) held)
    intents_of (intent_of_name total targets portfolio market min_notional cap) (exits ++ ranked)
