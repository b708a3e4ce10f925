-- ===== src/Intents/Shape.antt =====
-- What every order of `build_order_intents` looks like.
use native.Mathlib.Nat.{le_trans, mul_assoc, div-mul-le_self}
use moex_tinvest_bot.Base.{
  ℕ, true, false, Option, none, some, ◌+◌, ◌*◌, ◌/◌, ◌≤◌, ◌<◌, ◌≡◌, ◌⊎◌, refl, arith, min,
  if◌then◌else◌, Bool-cases, inl, inr,
}
use moex_tinvest_bot.Base.Int.{
  ℤ, pos, negsuc, pos_part, neg_part, abs, ◌+ℤ◌, ◌-ℤ◌, ◌≤ℤ◌, ltb_ℤ, int_laws,
}
use moex_tinvest_bot.Base.Result.{ok}
use moex_tinvest_bot.Domain.{Text, Nanos, Side, Instrument, OrderIntent, round_price}
use moex_tinvest_bot.Portfolio.{MarketObservation, Target}
use moex_tinvest_bot.Risk.{is_opposite, after, opens_short}
use moex_tinvest_bot.Intents.{
  target_lots, weight_of, rationale_of, signed, cap_lots, side_of, sized_intent, intent_for,
}

-- The position lies between two others, or is one of them.
abbrev pub IsBetween : ℤ → ℤ → ℤ → Type 0
IsBetween a x b = ((a ≤ℤ x) × (x ≤ℤ b)) ⊎ ((b ≤ℤ x) × (x ≤ℤ a))

target_lots-not_opposite :
    (equity weight : ℤ) (lot_value : Nanos) (current : ℤ)
    → is_opposite current (target_lots equity weight lot_value current) ≡ false
unfolding target_lots
target_lots-not_opposite equity weight lot_value current =
    zeroed current
      (signed (is_opposite equity weight) (abs equity * abs weight / (1_000_000_000 * lot_value)))
  where
    zeroed : (c t : ℤ) → is_opposite c (if is_opposite c t then pos 0 else t) ≡ false
    zeroed c t = ground arith

one_part : (a : ℤ) → (pos_part a ≡ 0) ⊎ (neg_part a ≡ 0)
one_part (pos n) = inr refl
one_part (negsuc n) = inl refl

step_up :
    (current target : ℤ) (n : ℕ)
    → pos_part target + neg_part current
      ≡ pos_part current + neg_part target + abs (target -ℤ current)
    → n ≤ abs (target -ℤ current)
    → (current ≤ℤ current +ℤ pos n) × (current +ℤ pos n ≤ℤ target)
step_up current target n up h = omega int_laws

step_down :
    (current target : ℤ) (n : ℕ)
    → pos_part current + neg_part target
      ≡ pos_part target + neg_part current + abs (target -ℤ current)
    → n ≤ abs (target -ℤ current)
    → (target ≤ℤ current -ℤ pos n) × (current -ℤ pos n ≤ℤ current)
step_down current target n down h = omega int_laws

rising :
    (current target : ℤ)
    → ltb_ℤ (pos 0) (target -ℤ current) ≡ true
    → pos_part target + neg_part current
      ≡ pos_part current + neg_part target + abs (target -ℤ current)
unfolding ◌-ℤ◌
rising current target h = ground arith

falling :
    (current target : ℤ)
    → ltb_ℤ (pos 0) (target -ℤ current) ≡ false
    → pos_part current + neg_part target
      ≡ pos_part target + neg_part current + abs (target -ℤ current)
unfolding ◌-ℤ◌
falling current target h = ground arith

-- A step of at most the whole difference stays on the way to the target.
step-IsBetween :
    (current target : ℤ) (n : ℕ)
    → n ≤ abs (target -ℤ current)
    → IsBetween current (after current (side_of (target -ℤ current)) n) target
step-IsBetween current target n h = elim (Bool-cases (ltb_ℤ (pos 0) (target -ℤ current))) [
  | inl up ↦ rw up (inl (step_up current target n (rising current target up) h))
  | inr down ↦ rw down (inr (step_down current target n (falling current target down) h))
]

between-not_opposite :
    (current x target : ℤ)
    → IsBetween current x target
    → is_opposite current target ≡ false
    → is_opposite current x ≡ false
between-not_opposite current x target b h =
    ground (arith, one_part current, one_part x, one_part target)

scaled : (a b k : ℕ) → a ≤ b → a * k ≤ b * k
scaled a b k h = grind arith

cap_fits : (cap lots size price : ℕ) → min lots (cap / (size * price)) * size * price ≤ cap
cap_fits cap lots size price =
    le_trans
      (rw (mul_assoc (min lots (cap / (size * price))) size price) (
        scaled (min lots (cap / (size * price))) (cap / (size * price)) (size * price)
          (omega arith)))
      (div-mul-le_self cap (size * price))

-- What a size decides of the order that is sent.
sized_intent-inv :
    (request_id : Text → Side → ℕ → Text) (i : Instrument) (price : Nanos) (rationale : Text)
    (current : ℤ) (side : Side) (lots : ℕ) (minimum : Nanos) {o : OrderIntent}
    → sized_intent request_id i price rationale current side lots minimum ≡ ok (some o)
    → (o.lots ≡ lots)
      × (o.side ≡ side)
      × (o.instrument ≡ i)
      × (0 < lots)
      × (0 < price)
      × (minimum ≤ o.notional)
      × (0 < o.notional)
      × (o.notional ≡ lots * i.lot_size * price)
      × (o.limit_price ≡ price)
      × (o.confirm_margin_trade ≡ opens_short current (after current side lots))
unfolding sized_intent
sized_intent-inv request_id i price rationale current side lots minimum h = ground arith

-- An order made for an instrument that is held in `current` lots.
pub record IsShaped (equity : ℤ) (target : Option Target) (current : ℤ) (seen : MarketObservation)
    (minimum : Nanos) (cap : Option Nanos) (o : OrderIntent) : Type 0 where
  pub own : o.instrument ≡ seen.instrument
  pub some_lots : 0 < o.lots
  pub on_tick : o.limit_price ≡ round_price seen.instrument seen.price
  pub priced : o.notional ≡ o.lots * seen.instrument.lot_size * o.limit_price
  pub positive : 0 < o.notional
  pub large_enough : minimum ≤ o.notional
  pub capped : (c : Nanos) → cap ≡ some c → o.notional ≤ c
  pub towards :
      IsBetween current
        (after current o.side o.lots)
        (target_lots equity (weight_of target) (seen.instrument.lot_size * seen.price) current)
  pub no_reversal : is_opposite current (after current o.side o.lots) ≡ false
  pub margin_exact : o.confirm_margin_trade ≡ opens_short current (after current o.side o.lots)

cap_lots-le : (cap : Option Nanos) (d lots : ℕ) → cap_lots cap d lots ≤ lots
cap_lots-le none d lots = omega arith
cap_lots-le (some c) d lots = omega arith

module _ (request_id : Text → Side → ℕ → Text) (equity : ℤ) (target : Option Target) (current : ℤ)
    (seen : MarketObservation) (minimum : Nanos) (cap : Option Nanos) where
  abbrev goal_lots : ℤ
  goal_lots = target_lots equity (weight_of target) (seen.instrument.lot_size * seen.price) current

  abbrev price : Nanos
  price = round_price seen.instrument seen.price

  abbrev lots : ℕ
  lots = cap_lots cap (seen.instrument.lot_size * price) (abs (goal_lots -ℤ current))

  intent_for-sized :
      {o : OrderIntent}
      → intent_for request_id equity target current seen minimum cap ≡ ok (some o)
      → sized_intent request_id seen.instrument price
          (rationale_of target)
          current
          (side_of (goal_lots -ℤ current))
          lots
          minimum
        ≡ ok (some o)
  unfolding intent_for
  intent_for-sized h = ground arith

  moved :
      (o : OrderIntent)
      → o.lots ≡ lots
      → o.side ≡ side_of (goal_lots -ℤ current)
      → IsBetween current (after current o.side o.lots) goal_lots
  moved o l s =
      rw (l, s)
        (step-IsBetween current goal_lots lots
          (cap_lots-le cap (seen.instrument.lot_size * price) (abs (goal_lots -ℤ current))))

  fits_cap : (c : Nanos) → cap ≡ some c → lots * seen.instrument.lot_size * price ≤ c
  fits_cap c e = rw e (cap_fits c (abs (goal_lots -ℤ current)) seen.instrument.lot_size price)

  -- Every order that is built is for the observed instrument, of at least one lot, at the observed
  -- price rounded to the tick, with the notional of its lots, which is positive, at least the minimum
  -- and at most the cap, if there is one; it moves the position towards the target without passing
  -- it or crossing zero, and asks for margin exactly when it opens or grows a short position.
  pub intent_for-IsShaped :
      (o : OrderIntent)
      → intent_for request_id equity target current seen minimum cap ≡ ok (some o)
      → IsShaped equity target current seen minimum cap o
  intent_for-IsShaped o h =
      let (l, sd, own, some_lots, priced, large, positive, notional, at, margin) =
        sized_intent-inv request_id seen.instrument price (rationale_of target) current
          (side_of (goal_lots -ℤ current)) lots minimum (intent_for-sized h) in
      let between = moved o l sd in
      record {
        own = own;
        some_lots = rw l some_lots;
        on_tick = at;
        priced = rw (l, at) notional;
        positive = positive;
        large_enough = large;
        capped = λ c e. rw notional (fits_cap c e);
        towards = between;
        no_reversal = between-not_opposite current (after current o.side o.lots) goal_lots between (
            target_lots-not_opposite equity (weight_of target)
              (seen.instrument.lot_size * seen.price) current);
        margin_exact = rw (l, sd) margin;
      }
