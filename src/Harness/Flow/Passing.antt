-- ===== src/Harness/Flow/Passing.antt =====
-- What a bar must show for its instrument's target to be confirmed.
use moex_tinvest_bot.Base.{
  ℕ, Bool, true, false, not, ◌&&◌, some, List, [], ◌∷◌, errors_of, ltb, ◌≡◌, ◌≤◌, ◌<◌, ◌+◌, ◌*◌,
  ◌↔◌, ◌⊎◌, refl, arith, keep,
}
use moex_tinvest_bot.Base.Int.{ℤ, pos, sub_ℕ, ltb_ℤ, ◌≤ℤ◌, ◌*ℤ◌, ◌-ℤ◌}
use moex_tinvest_bot.Domain.{Text, Nanos}
use moex_tinvest_bot.Config.{StrategyConfig}
use moex_tinvest_bot.Portfolio.{Dict, lookup, member, Target}
use moex_tinvest_bot.Harness.Flow.{
  IntradaySuperCandle, Ratio, trade_ratio, order_ratio, weak_trades, weak_orders, weak_book,
  wide_spread, is_below, flow_reasons, is_none, is_stale,
}

-- A quotient of amounts is at least a limit in nanos; it counts as zero where nothing was traded.
abbrev pub IsAtLeast : ℤ → ℤ → Nanos → Type 0
IsAtLeast limit amount total =
    ((total ≡ 0) × (limit ≤ℤ pos 0))
    ⊎ ((0 < total) × (limit *ℤ pos total ≤ℤ amount *ℤ pos 1_000_000_000))

pub record IsPassing (c : StrategyConfig) (as_of : ℕ) (bar : IntradaySuperCandle) : Type 0 where
  pub not_future : bar.observed_at ≤ as_of
  -- a quarter of an hour, in microseconds
  pub recent : as_of ≤ bar.observed_at + 15 * 60 * 1_000_000
  pub trades :
      IsAtLeast c.flow_min_trade_imbalance
        (sub_ℕ bar.buy_value bar.sell_value)
        (bar.buy_value + bar.sell_value)
  pub orders :
      IsAtLeast c.flow_min_order_flow
        (sub_ℕ bar.put_buy_value bar.cancel_buy_value
          -ℤ sub_ℕ bar.put_sell_value bar.cancel_sell_value)
        (bar.put_buy_value + bar.put_sell_value + bar.cancel_buy_value + bar.cancel_sell_value)
  pub book : c.flow_min_book_imbalance ≤ℤ bar.book_imbalance
  pub spread : bar.spread_bbo ≤ c.flow_max_spread_bbo

not_below-IsAtLeast :
    (r : Ratio) (limit : ℤ) → (is_below r limit ≡ false) ↔ IsAtLeast limit r.numerator r.denominator
not_below-IsAtLeast r limit = (λ h. ground (arith, h), λ h. ground (arith, h))

no_reason :
    (a b c d : Bool)
    → (is_none
          (errors_of ((a, weak_trades) ∷ (b, weak_orders) ∷ (c, weak_book) ∷ (d, wide_spread) ∷ []))
        ≡ true)
      ↔ ((a ≡ false) × (b ≡ false) × (c ≡ false) × (d ≡ false))
no_reason true b c d = (λ h. absurd (ground (arith, h)), λ h. absurd (ground (arith, h)))
no_reason false true c d = (λ h. absurd (ground (arith, h)), λ h. absurd (ground (arith, h)))
no_reason false false true d = (λ h. absurd (ground (arith, h)), λ h. absurd (ground (arith, h)))
no_reason false false false true =
    (λ h. absurd (ground (arith, h)), λ h. absurd (ground (arith, h)))
no_reason false false false false = (λ h. (refl, refl, refl, refl), λ h. refl)

fresh_bar :
    (as_of : ℕ) (bar : IntradaySuperCandle)
    → (not (is_stale as_of bar) ≡ true)
      ↔ ((bar.observed_at ≤ as_of) × (as_of ≤ bar.observed_at + 15 * 60 * 1_000_000))
fresh_bar as_of bar = (λ h. (ground (arith, h), ground (arith, h)), λ h. ground (arith, h))

&&-cases : (a b : Bool) → (a && b) ≡ true → (a ≡ true) × (b ≡ true)
&&-cases true b h = (refl, h)
&&-cases false b h = absurd (ground (arith, h))

&&-join : (a b : Bool) → a ≡ true → b ≡ true → (a && b) ≡ true
&&-join a b h k = ground (arith, h, k)

-- The tests of the code on one bar.
pub passes-IsPassing :
    (c : StrategyConfig) (as_of : ℕ) (bar : IntradaySuperCandle)
    → ((not (is_stale as_of bar) && is_none (flow_reasons c bar)) ≡ true) ↔ IsPassing c as_of bar
passes-IsPassing c as_of bar =
    let (calm_there, calm_back) =
      no_reason (is_below (trade_ratio bar) c.flow_min_trade_imbalance)
        (is_below (order_ratio bar) c.flow_min_order_flow)
        (ltb_ℤ bar.book_imbalance c.flow_min_book_imbalance)
        (ltb c.flow_max_spread_bbo bar.spread_bbo) in
    let (fresh_there, fresh_back) = fresh_bar as_of bar in
    (
      λ h.
          let (fresh, calm) =
            &&-cases (not (is_stale as_of bar)) (is_none (flow_reasons c bar)) h in
          let (trades, orders, book, spread) = calm_there calm in
          let (past, recent) = fresh_there fresh in
          record {
            not_future = past;
            recent = recent;
            trades = (not_below-IsAtLeast (trade_ratio bar) c.flow_min_trade_imbalance).0 trades;
            orders = (not_below-IsAtLeast (order_ratio bar) c.flow_min_order_flow).0 orders;
            book = ground (arith, book);
            spread = ground (arith, spread);
          },
      λ f.
          &&-join (not (is_stale as_of bar)) (is_none (flow_reasons c bar))
            (fresh_back (f.not_future, f.recent))
            (calm_back (
              (not_below-IsAtLeast (trade_ratio bar) c.flow_min_trade_imbalance).1 f.trades,
              (not_below-IsAtLeast (order_ratio bar) c.flow_min_order_flow).1 f.orders,
              ground (arith, f.book),
              ground (arith, f.spread),
            )),
    )

-- The instrument's weight is not positive, or it is held, or its bar passes.
abbrev pub IsWanted : StrategyConfig → ℕ → Dict IntradaySuperCandle → List Text → Target → Type 0
IsWanted c as_of flow held t =
    (t.weight ≤ℤ pos 0)
    ⊎ ((member t.secid held ≡ true)
        ⊎ ((bar : IntradaySuperCandle) × (lookup t.secid flow ≡ some bar) × IsPassing c as_of bar))

-- The elements of a list that satisfy a predicate, in its order.
abbrev pub IsFilter : (Target → Type 0) → List Target → List Target → Type 0
IsFilter P ts us = (p : Target → Bool) × (us ≡ keep p ts) × ((t : Target) → (p t ≡ true) ↔ P t)
