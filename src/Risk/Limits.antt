-- ===== src/Risk/Limits.antt =====
-- What an order that the risk gate allows satisfies.
use moex_tinvest_bot.Base.{
  ℕ, Bool, true, false, not, ◌&&◌, some, List, [], ◌∷◌, ◌++◌, ◌+◌, ◌*◌, ◌≤◌, ◌<◌, ◌≡◌, refl, arith,
  ltb, leb, ◌-◌, ◌==◌, if◌then◌else◌, Bool-cases, inl, inr,
}
use moex_tinvest_bot.Base.Int.{ℤ, pos, negsuc, pos_part, abs, ltb_ℤ, leb_ℤ, ◌+ℤ◌, ◌-ℤ◌}
use moex_tinvest_bot.Domain.{OrderIntent, Side, buy, sell, side_eq}
use moex_tinvest_bot.Config.{BotConfig}
use moex_tinvest_bot.Portfolio.{one, lookup, member, PortfolioSnapshot, GeoRiskSnapshot}
use moex_tinvest_bot.Risk.{
  Reason, note, Exposure, evaluate_intent, lots_of, after, is_opposite, is_reducing, opens_short,
  value_at, short_part, shifted, exposure_of, lacks_cash, order_reasons, short_reasons,
  blocked_reasons, equity_reasons, exposure_reasons, all_reasons, blocked_of, is_critical, exceeds,
  critical_exposure, position_weight, gross_exposure, short_exposure, sector_exposure,
  cluster_exposure, reversal, insufficient_cash, exceeds_unblocked_long, exceeds_unblocked_short,
}

append-eq-nil {ℓ} : {A : Type ℓ} (xs ys : List A) → xs ++ ys ≡ [] → (xs ≡ []) × (ys ≡ [])
append-eq-nil [] ys h = (refl, h)
append-eq-nil (x ∷ xs) ys h = cc

note-nil : (b : Bool) (r : Reason) → note b r ≡ [] → b ≡ false
note-nil true r h = cc
note-nil false r h = refl

note_then :
    (b : Bool) (r : Reason) (rs : List Reason) → note b r ++ rs ≡ [] → (b ≡ false) × (rs ≡ [])
note_then true r rs h = cc
note_then false r rs h = (refl, h)

exceeds-le :
    (value equity limit : ℕ) → exceeds value equity limit ≡ false → value * one ≤ limit * equity
exceeds-le value equity limit h = ground arith

unguarded : (r : Bool) → r ≡ false → (b : Bool) → (not r && b) ≡ false → b ≡ false
unguarded r e b h = ground arith

blocked_stays :
    (side : Side) (current : ℤ) (lots blocked : ℕ)
    → (side_eq side sell
        && ltb_ℤ (pos 0) current
        && not (blocked == 0)
        && ltb (pos_part current - blocked) lots)
      ≡ false
    → (side_eq side buy
        && ltb_ℤ current (pos 0)
        && not (blocked == 0)
        && ltb (abs current - blocked) lots)
      ≡ false
    → blocked ≤ abs current
    → blocked ≤ abs (after current side lots)
unfolding ◌+ℤ◌ ◌-ℤ◌
blocked_stays buy (pos n) lots blocked a b fits = ground arith
blocked_stays buy (negsuc n) lots blocked a b fits = ground arith
blocked_stays sell (pos n) lots blocked a b fits = ground arith
blocked_stays sell (negsuc n) lots blocked a b fits = ground arith

-- The limits on the exposures after the whole order, at a positive equity; every product is in
-- nanos of nanos.
pub record WithinExposures (o : OrderIntent) (c : BotConfig) (e : Exposure) (current resulting : ℤ)
    : Type 0 where
  pub position :
      value_at o resulting * one
      ≤ (if ltb_ℤ resulting (pos 0) then c.max_short_position_weight else c.max_position_weight)
        * pos_part e.equity
  pub gross :
      shifted e.gross (value_at o resulting) (value_at o current) * one
      ≤ c.max_gross_exposure * pos_part e.equity
  pub short :
      shifted e.short (short_part o resulting) (short_part o current) * one
      ≤ c.max_short_gross_exposure * pos_part e.equity
  pub sector :
      shifted
          (exposure_of o.instrument.sector e.by_sector)
          (value_at o resulting)
          (value_at o current)
        * one
      ≤ c.max_sector_weight * pos_part e.equity
  pub cluster :
      shifted
          (exposure_of o.instrument.risk_cluster e.by_cluster)
          (value_at o resulting)
          (value_at o current)
        * one
      ≤ c.max_risk_cluster_weight * pos_part e.equity

module _ (o : OrderIntent) (p : PortfolioSnapshot) (c : BotConfig) (geo : GeoRiskSnapshot)
    (e : Exposure) where
  abbrev pub current : ℤ
  current = lots_of (lookup o.instrument.secid p.positions)

  abbrev pub resulting : ℤ
  resulting = after current o.side o.lots

  -- What the gate promises of an allowed order.
  pub record IsPermitted : Type 0 where
    pub not_blocked :
        is_reducing current resulting ≡ false → member o.instrument.secid geo.blocked_secids ≡ false
    pub small : o.notional ≤ c.max_order_notional
    pub turnover : p.daily_turnover + o.notional ≤ c.max_daily_turnover
    pub slot_free : p.open_orders < c.max_open_orders
    pub reconciled : p.is_broker_snapshot ≡ true → p.open_orders ≡ 0
    pub no_reversal : is_opposite current resulting ≡ false
    pub short_allowed :
        opens_short current resulting ≡ true
        → (c.strategy.shorts_enabled ≡ true)
          × (c.allow_margin ≡ true)
          × (o.instrument.short_enabled ≡ true)
    pub margin_exact : o.confirm_margin_trade ≡ opens_short current resulting
    pub paid :
        side_eq o.side buy ≡ true
        → o.notional * one + pos_part e.equity * c.min_cash_reserve_weight ≤ p.cash * one
    -- A closing order leaves the blocked lots where there are any.
    pub unblocked :
        blocked_of (lookup o.instrument.secid p.positions) ≤ abs current
        → blocked_of (lookup o.instrument.secid p.positions) ≤ abs resulting
    pub solvent : 0 < pos_part e.equity
    pub exposures : is_reducing current resulting ≡ false → WithinExposures o c e current resulting

  allowed-no_reasons :
      (evaluate_intent o p c geo e).allowed ≡ true
      → (is_reducing current resulting ≡ false
          → member o.instrument.secid geo.blocked_secids ≡ false)
        × ((evaluate_intent o p c geo e).intent ≡ some o)
  unfolding evaluate_intent
  allowed-no_reasons h = ground arith

  open_reasons :
      (evaluate_intent o p c geo e).allowed ≡ true
      → all_reasons o p c geo e current resulting
          (blocked_of (lookup o.instrument.secid p.positions))
        ≡ []
  unfolding evaluate_intent
  open_reasons h = ground arith

  order_passes :
      order_reasons o p c ≡ []
      → (o.notional ≤ c.max_order_notional)
        × (p.daily_turnover + o.notional ≤ c.max_daily_turnover)
        × (p.open_orders < c.max_open_orders)
        × (p.is_broker_snapshot ≡ true → p.open_orders ≡ 0)
  unfolding order_reasons
  order_passes h =
      let (a, h1) = note_then (ltb c.max_order_notional o.notional) Reason.order_notional _ h in
      let (b, h2) =
        note_then (ltb c.max_daily_turnover (p.daily_turnover + o.notional)) Reason.daily_turnover _
          h1 in
      let (d, h3) = note_then (leb c.max_open_orders p.open_orders) Reason.open_orders _ h2 in
      let f =
        note-nil (p.is_broker_snapshot && ltb 0 p.open_orders) Reason.unreconciled_orders h3 in
      (ground (arith, a), ground (arith, b), ground (arith, d), ground (arith, f))

  short_passes :
      (current resulting : ℤ)
      → short_reasons o c current resulting ≡ []
      → (opens_short current resulting ≡ true
          → (c.strategy.shorts_enabled ≡ true)
            × (c.allow_margin ≡ true)
            × (o.instrument.short_enabled ≡ true))
        × (o.confirm_margin_trade ≡ opens_short current resulting)
  unfolding short_reasons
  short_passes current resulting h = ground arith

  exposures_pass :
      (current resulting : ℤ)
      → exposure_reasons o c geo e current resulting ≡ []
      → is_reducing current resulting ≡ false
      → WithinExposures o c e current resulting
  unfolding exposure_reasons
  exposures_pass current resulting h growing =
      let eq = pos_part e.equity in
      let old = value_at o current in
      let new = value_at o resulting in
      let keep = unguarded (is_reducing current resulting) growing in
      let (_, h1) = note_then (is_critical geo.level && ltb old new) critical_exposure _ h in
      let (a, h2) =
        note_then
          (not (is_reducing current resulting)
            && exceeds new eq (
                if ltb_ℤ resulting (pos 0)
                then c.max_short_position_weight
                else c.max_position_weight))
          position_weight _ h1 in
      let (b, h3) =
        note_then
          (not (is_reducing current resulting)
            && exceeds (shifted e.gross new old) eq c.max_gross_exposure)
          gross_exposure _ h2 in
      let (d, h4) =
        note_then
          (not (is_reducing current resulting)
            && exceeds (shifted e.short (short_part o resulting) (short_part o current)) eq
                c.max_short_gross_exposure)
          short_exposure _ h3 in
      let (f, h5) =
        note_then
          (not (is_reducing current resulting)
            && exceeds (shifted (exposure_of o.instrument.sector e.by_sector) new old) eq
                c.max_sector_weight)
          sector_exposure _ h4 in
      let g =
        note-nil
          (not (is_reducing current resulting)
            && exceeds (shifted (exposure_of o.instrument.risk_cluster e.by_cluster) new old) eq
                c.max_risk_cluster_weight)
          cluster_exposure h5 in
      record {
        position = exceeds-le _ _ _ (keep _ a);
        gross = exceeds-le _ _ _ (keep _ b);
        short = exceeds-le _ _ _ (keep _ d);
        sector = exceeds-le _ _ _ (keep _ f);
        cluster = exceeds-le _ _ _ (keep _ g);
      }

  equity_passes :
      (current resulting : ℤ)
      → equity_reasons o c geo e current resulting ≡ []
      → (0 < pos_part e.equity)
        × (is_reducing current resulting ≡ false → WithinExposures o c e current resulting)
  unfolding equity_reasons
  equity_passes current resulting h = elim (Bool-cases (leb_ℤ e.equity (pos 0))) [
    | inl poor ↦ absurd (ground arith)
    | inr rich ↦ (ground arith, exposures_pass current resulting (ground arith))
  ]

  cash_passes :
      0 < o.notional
      → lacks_cash o p c e.equity ≡ false
      → side_eq o.side buy ≡ true
      → o.notional * one + pos_part e.equity * c.min_cash_reserve_weight ≤ p.cash * one
  cash_passes pos_notional h is_buy = ground arith

  blocked_passes :
      (blocked : ℕ)
      → blocked_reasons o current blocked ≡ []
      → blocked ≤ abs current
      → blocked ≤ abs resulting
  unfolding blocked_reasons
  blocked_passes blocked h fits =
      let (a, h1) =
        note_then
          (side_eq o.side sell
            && ltb_ℤ (pos 0) current
            && not (blocked == 0)
            && ltb (pos_part current - blocked) o.lots)
          exceeds_unblocked_long _ h in
      let b =
        note-nil
          (side_eq o.side buy
            && ltb_ℤ current (pos 0)
            && not (blocked == 0)
            && ltb (abs current - blocked) o.lots)
          exceeds_unblocked_short h1 in
      blocked_stays o.side current o.lots blocked a b fits

  -- Of an order with a positive notional, the gate allows only one that is within the limits on an
  -- order's notional, the day's turnover and the open orders, that does not cross zero, that opens or
  -- grows a short only where margin, shorts and the instrument permit and it says so itself, that is
  -- paid in full from the cash beyond the reserve if it buys, and that keeps every exposure limit and
  -- the geopolitical block unless it reduces the position; and blocked lots are left where they are.
  pub evaluate_intent-IsPermitted :
      0 < o.notional → (evaluate_intent o p c geo e).allowed ≡ true → IsPermitted
  unfolding all_reasons
  evaluate_intent-IsPermitted notional h =
      let (n1, r1) = append-eq-nil (order_reasons o p c) _ (open_reasons h) in
      let (n2, r2) = note_then (is_opposite current resulting) reversal _ r1 in
      let (n3, r3) = append-eq-nil (short_reasons o c current resulting) _ r2 in
      let (n4, r4) =
        append-eq-nil
          (blocked_reasons o current (blocked_of (lookup o.instrument.secid p.positions))) _ r3 in
      let (n5, r5) = note_then (lacks_cash o p c e.equity) insufficient_cash _ r4 in
      let (small, turnover, slot, reconciled) = order_passes n1 in
      let (allowed_short, margin) = short_passes current resulting n3 in
      let (solvent, exposures) = equity_passes current resulting r5 in
      record {
        not_blocked = (allowed-no_reasons h).0;
        small = small;
        turnover = turnover;
        slot_free = slot;
        reconciled = reconciled;
        no_reversal = n2;
        short_allowed = allowed_short;
        margin_exact = margin;
        paid = cash_passes notional n5;
        unblocked = blocked_passes (blocked_of (lookup o.instrument.secid p.positions)) n4;
        solvent = solvent;
        exposures = exposures;
      }
