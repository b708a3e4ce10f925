-- ===== src/Risk/Form.antt =====
-- When the risk gate can find an order itself to be wrong.
use moex_tinvest_bot.Base.{
  ℕ, Bool, true, false, none, some, ◌⊎◌, List, [], ◌∷◌, ◌≤◌, ◌≡◌, refl, arith, any,
  any-append_false,
}
use moex_tinvest_bot.Base.Int.{ℤ}
use moex_tinvest_bot.Domain.{OrderIntent}
use moex_tinvest_bot.Config.{BotConfig}
use moex_tinvest_bot.Portfolio.{lookup, PortfolioSnapshot, GeoRiskSnapshot}
use moex_tinvest_bot.Risk.{
  Reason, reversal, margin_unconfirmed, margin_forbidden, order_notional, note, Exposure,
  evaluate_intent, lots_of, after, is_opposite, opens_short, order_reasons, short_reasons,
  blocked_reasons, equity_reasons, exposure_reasons, all_reasons, lacks_cash, decide_by, blocked_of,
}

-- The reasons that would mean that the order itself was built wrongly.
abbrev pub is_malformed : Reason → Bool
is_malformed reversal = true
is_malformed margin_unconfirmed = true
is_malformed margin_forbidden = true
is_malformed order_notional = true
is_malformed _ = false

note-well : (b : Bool) (r : Reason) → is_malformed r ≡ false → any is_malformed (note b r) ≡ false
note-well true r h = rw h
note-well false r h = refl

module _ (o : OrderIntent) (p : PortfolioSnapshot) (c : BotConfig) (geo : GeoRiskSnapshot)
    (e : Exposure) (current resulting : ℤ) where
  order_well : o.notional ≤ c.max_order_notional → any is_malformed (order_reasons o p c) ≡ false
  unfolding order_reasons
  order_well h = ground arith

  short_well :
      o.confirm_margin_trade ≡ opens_short current resulting
      → any is_malformed (short_reasons o c current resulting) ≡ false
  unfolding short_reasons
  short_well h = ground (arith)

  blocked_well : (b : ℕ) → any is_malformed (blocked_reasons o current b) ≡ false
  unfolding blocked_reasons
  blocked_well b = search (any-append_false, note-well)

  exposure_well : any is_malformed (exposure_reasons o c geo e current resulting) ≡ false
  unfolding exposure_reasons
  exposure_well = search (any-append_false, note-well) depth 9

  equity_well : any is_malformed (equity_reasons o c geo e current resulting) ≡ false
  unfolding equity_reasons
  equity_well = ground (arith, exposure_well)

  all_well :
      (blocked : ℕ)
      → o.notional ≤ c.max_order_notional
      → is_opposite current resulting ≡ false
      → o.confirm_margin_trade ≡ opens_short current resulting
      → any is_malformed (all_reasons o p c geo e current resulting blocked) ≡ false
  unfolding all_reasons
  all_well blocked small straight exact =
      any-append_false is_malformed (order_reasons o p c) _ (order_well small) (
        any-append_false is_malformed (note (is_opposite current resulting) reversal) _
          (rw straight refl)
          (any-append_false is_malformed (short_reasons o c current resulting) _ (short_well exact)
            (any-append_false is_malformed (blocked_reasons o current blocked) _
              (blocked_well blocked)
              (any-append_false is_malformed
                (note (lacks_cash o p c e.equity) Reason.insufficient_cash) _
                (note-well (lacks_cash o p c e.equity) Reason.insufficient_cash refl)
                equity_well))))

decide_by-reasons : (o : OrderIntent) (rs : List Reason) → (decide_by o rs).reasons ≡ rs
decide_by-reasons o [] = refl
decide_by-reasons o (r ∷ rs) = refl

-- An order within the notional limit that does not cross zero and asks for margin exactly when it
-- opens or grows a short is never refused for a reversal, its margin flag or its notional.
pub evaluate_intent-well :
    (o : OrderIntent) (p : PortfolioSnapshot) (c : BotConfig) (geo : GeoRiskSnapshot) (e : Exposure)
    → let current = lots_of (lookup o.instrument.secid p.positions) in
      let resulting = after current o.side o.lots in
      o.notional ≤ c.max_order_notional
      → is_opposite current resulting ≡ false
      → o.confirm_margin_trade ≡ opens_short current resulting
      → any is_malformed (evaluate_intent o p c geo e).reasons ≡ false
unfolding evaluate_intent
evaluate_intent-well o p c geo e small straight exact =
    let current = lots_of (lookup o.instrument.secid p.positions) in
    let resulting = after current o.side o.lots in
    ground (
      arith,
      all_well o p c geo e current resulting (blocked_of (lookup o.instrument.secid p.positions))
          small straight exact,
      decide_by-reasons o (
          all_reasons o p c geo e current resulting
            (blocked_of (lookup o.instrument.secid p.positions))),
    )

-- The gate allows an order as it is, or it returns no order.
pub evaluate_intent-cases :
    (o : OrderIntent) (p : PortfolioSnapshot) (c : BotConfig) (geo : GeoRiskSnapshot) (e : Exposure)
    → (((evaluate_intent o p c geo e).allowed ≡ true)
        × ((evaluate_intent o p c geo e).intent ≡ some o))
      ⊎ ((evaluate_intent o p c geo e).intent ≡ none)
unfolding evaluate_intent
evaluate_intent-cases o p c geo e = ground arith
