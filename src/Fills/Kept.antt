-- ===== src/Fills/Kept.antt =====
-- What a whole session of the matcher keeps.
use native.Mathlib.Nat.{mul-le-mul_left}
use mathlib.Core.Path.{subst}
use moex_tinvest_bot.Base.{
  ℕ, zero, suc, false, Option, none, some, List, [], ◌∷◌, ◌++◌, ◌+◌, ◌*◌, ◌≤◌, ◌≡◌, ◌⊎◌, inl, inr,
  refl, sym, ap, ◌∙◌, arith, ==_sound, ==_refl, ◌==◌, map, if◌then◌else◌, Bool-cases,
}
use moex_tinvest_bot.Base.Int.{ℤ, pos, negsuc, pos_part, neg_part, ◌+ℤ◌, ◌-ℤ◌}
use moex_tinvest_bot.Base.Result.{ok, ok_bind, ok_then, ok_inj}
use moex_tinvest_bot.Domain.{Nanos, Side, buy, sell, OrderIntent, OrderRecord}
use moex_tinvest_bot.Portfolio.{one, Dict}
use moex_tinvest_bot.Fills.{
  Terms, Window, Verdict, fill, skip, refuse, verdict, MatchState, Progress, BacktestTrade, set_at,
  at, cash_after, trade_of, apply_verdict, take_progress, take_event, take_events, start_state,
  match_session, all_events, symbols, sort_events, held_of, consumed_at, lot_cost, begin,
}
use moex_tinvest_bot.Fills.Fair.{IsFair, verdict-IsFair}

-- The lots of the fills of one order.
abbrev pub filled_of : ℕ → List BacktestTrade → ℕ
filled_of i [] = 0
filled_of i (b ∷ bs) = (if b.index == i then b.lots else 0) + filled_of i bs

filled_of-append :
    (i : ℕ) (bs cs : List BacktestTrade) → filled_of i (bs ++ cs) ≡ filled_of i bs + filled_of i cs
filled_of-append i [] cs = omega arith
filled_of-append i (b ∷ bs) cs = omega (arith, filled_of-append i bs cs)

at-set_at :
    (i j : ℕ) (p q : Progress) (qs : List Progress)
    → at i qs ≡ some q
    → at j (set_at i p qs) ≡ (if i == j then some p else at j qs)
at-set_at i j p q [] h = cc
at-set_at zero zero p q (x ∷ qs) h = ground arith
at-set_at zero (suc j) p q (x ∷ qs) h = ground arith
at-set_at (suc i) zero p q (x ∷ qs) h = ground arith
at-set_at (suc i) (suc j) p q (x ∷ qs) h = ground (arith, at-set_at i j p q qs h)

abbrev pub intent_of : Progress → OrderIntent
intent_of p = p.intent

intents-set_at :
    (i : ℕ) (p q : Progress) (qs : List Progress)
    → at i qs ≡ some q
    → p.intent ≡ q.intent
    → map intent_of (set_at i p qs) ≡ map intent_of qs
intents-set_at i p q [] h same = refl
intents-set_at zero p q (x ∷ qs) h same = ground (arith, h, same)
intents-set_at (suc i) p q (x ∷ qs) h same =
    ap (λ (os : List OrderIntent). x.intent ∷ os) (intents-set_at i p q qs h same)

-- Every order is filled no further than its lots, by exactly the fills that the session reports for it,
-- the orders are those of the plan, and the cash is not negative.
pub record IsKept (orders : List OrderIntent) (s : MatchState) : Type 0 where
  pub counted :
      (i : ℕ) (p : Progress)
      → at i s.progress ≡ some p
      → (p.done ≤ p.intent.lots) × (filled_of i s.fills ≡ p.done)
  pub same_orders : map intent_of s.progress ≡ orders
  pub solvent : neg_part s.cash ≡ 0

sub-solvent : (a : ℤ) (x : ℕ) → neg_part a ≡ 0 → x ≤ pos_part a → neg_part (a -ℤ pos x) ≡ 0
unfolding ◌-ℤ◌
sub-solvent a x h k = ground (arith, h, k)

add-solvent : (a : ℤ) (x y : ℕ) → neg_part a ≡ 0 → y ≤ x → neg_part (a +ℤ pos x -ℤ pos y) ≡ 0
unfolding ◌-ℤ◌ ◌+ℤ◌
add-solvent (pos n) x y h k = ground (arith, k)
add-solvent (negsuc n) x y h k = absurd (omega (arith, h))

cash_after-solvent :
    (t : Terms) (o : OrderIntent) (lots : ℕ) (price : Nanos) (cash : ℤ)
    → t.commission ≤ one
    → (o.side ≡ buy → lots * lot_cost t o price ≤ pos_part cash)
    → neg_part cash ≡ 0
    → neg_part (cash_after t o lots price cash) ≡ 0
cash_after-solvent t o lots price cash fee paid h = by_side o.side refl
  where
    by_side : (side : Side) → o.side ≡ side → neg_part (cash_after t o lots price cash) ≡ 0
    by_side buy e =
        let price_of : lots * o.instrument.lot_size * price * (one + t.commission)
            ≡ lots * lot_cost t o price =
          omega arith in
        let within : lots * o.instrument.lot_size * price * (one + t.commission) ≤ pos_part cash =
          omega (arith, price_of, paid e) in
        rw e
          (sub-solvent cash (lots * o.instrument.lot_size * price * (one + t.commission)) h within)
    by_side sell e =
        let gross = lots * o.instrument.lot_size * price in
        rw e (add-solvent cash (gross * one) (gross * t.commission) h (mul-le-mul_left gross fee))

-- The entry of an index after a write is the written one at its own index.
at_written :
    (i j : ℕ) (p r q : Progress) (qs : List Progress)
    → at i qs ≡ some r
    → at j (set_at i p qs) ≡ some q
    → ((i ≡ j) × (q ≡ p)) ⊎ ((i == j ≡ false) × (at j qs ≡ some q))
at_written i j p r q qs e k = elim (Bool-cases (i == j)) [
  | inl here ↦ inl (==_sound i j here, ground (arith, at-set_at i j p r qs e, here, k))
  | inr other ↦ inr (other, ground (arith, at-set_at i j p r qs e, other, k))
]

module _ (t : Terms) (fee : t.commission ≤ one) (orders : List OrderIntent) where
  counted_fill :
      (i : ℕ) (p : Progress) (w : Window) (s : MatchState) (lots : ℕ) (price : Nanos)
      → at i s.progress ≡ some p
      → IsKept orders s
      → IsFair t p.intent p.done w s.cash
          (held_of p.intent.instrument.secid s.held)
          (consumed_at p.intent.instrument.secid w.start s.consumed)
          lots
          price
      → (j : ℕ) (q : Progress) → at j (apply_verdict t i p w s (fill lots price)).progress ≡ some q
      → (q.done ≤ q.intent.lots)
        × (filled_of j (apply_verdict t i p w s (fill lots price)).fills ≡ q.done)
  unfolding apply_verdict
  counted_fill i p w s lots price e h fair j q k =
      let (below, sum) = h.counted i p e in
      elim (at_written i j _ p q s.progress e k) [
        | inl (here, same) ↦
            let more : filled_of j (s.fills ++ trade_of t i p.intent w lots price ∷ [])
                ≡ p.done + lots =
              subst
                (λ (x : ℕ).
                  filled_of x (s.fills ++ trade_of t i p.intent w lots price ∷ []) ≡ p.done + lots)
                here
                (ground (
                  arith,
                  filled_of-append i s.fills (trade_of t i p.intent w lots price ∷ []),
                  sum,
                  ==_refl i,
                )) in
            (
              subst (λ (r : Progress). r.done ≤ r.intent.lots) (sym same)
                  (omega (arith, below, fair.left)),
              more ∙ ap (λ (r : Progress). r.done) (sym same),
            )
        | inr (other, kept) ↦
            let (under, total) = h.counted j q kept in
            (
              under,
              ground (
                arith,
                filled_of-append j s.fills (trade_of t i p.intent w lots price ∷ []),
                total,
                other,
              ),
            )
      ]

  -- A fair verdict on the order at an index.
  apply_verdict-IsKept :
      (i : ℕ) (p : Progress) (w : Window) (s : MatchState) (v : Verdict)
      → at i s.progress ≡ some p
      → ((lots : ℕ) (price : Nanos)
          → v ≡ fill lots price
          → IsFair t p.intent p.done w s.cash
              (held_of p.intent.instrument.secid s.held)
              (consumed_at p.intent.instrument.secid w.start s.consumed)
              lots
              price)
      → IsKept orders s
      → IsKept orders (apply_verdict t i p w s v)
  unfolding apply_verdict
  apply_verdict-IsKept i p w s skip e fair h = h
  apply_verdict-IsKept i p w s (refuse why) e fair h = record {
    counted = λ j q k. elim (at_written i j (record p { reason = why }) p q s.progress e k) [
      | inl (here, same) ↦ ground (arith, here, same, h.counted i p e)
      | inr (other, kept) ↦ h.counted j q kept
    ];
    same_orders = intents-set_at i _ p s.progress e refl ∙ h.same_orders;
    solvent = h.solvent;
  }
  apply_verdict-IsKept i p w s (fill lots price) e fair h = record {
    counted = λ j q k. counted_fill i p w s lots price e h (fair lots price refl) j q k;
    same_orders = intents-set_at i _ p s.progress e refl ∙ h.same_orders;
    solvent =
        cash_after-solvent t p.intent lots price s.cash fee (fair lots price refl).paid h.solvent;
  }

  take_event-IsKept :
      (e : ℕ × Window) (s : MatchState) → IsKept orders s → IsKept orders (take_event t e s)
  unfolding take_event
  take_event-IsKept (i, w) s h = by_order (at i s.progress) refl
    where
      by_order :
          (o : Option Progress) → at i s.progress ≡ o → IsKept orders (take_progress t i o w s)
      by_order none e = h
      by_order (some p) e =
          let secid = p.intent.instrument.secid in
          let current = held_of secid s.held in
          let consumed = consumed_at secid w.start s.consumed in
          apply_verdict-IsKept i p w s (verdict t p.intent p.done w s.cash current consumed) e
            (verdict-IsFair t p.intent p.done w s.cash current consumed) h

  take_events-IsKept :
      (es : List (ℕ × Window)) (s : MatchState)
      → IsKept orders s
      → IsKept orders (take_events t es s)
  unfolding take_events
  take_events-IsKept [] s h = h
  take_events-IsKept (e ∷ es) s h =
      take_events-IsKept es (take_event t e s) (take_event-IsKept e s h)

start-progress :
    (orders : List OrderRecord) (i : ℕ) (p : Progress)
    → at i (map begin orders) ≡ some p
    → p.done ≡ 0
start-progress [] i p h = cc
start-progress (r ∷ rs) zero p h = ground (arith, h)
start-progress (r ∷ rs) (suc i) p h = start-progress rs i p h

start-intents :
    (orders : List OrderRecord)
    → map intent_of (map begin orders) ≡ map (λ (r : OrderRecord). r.intent) orders
start-intents [] = refl
start-intents (r ∷ rs) = ap (λ (os : List OrderIntent). r.intent ∷ os) (start-intents rs)

start-IsKept :
    (orders : List OrderRecord) (cash : ℤ) (positions : Dict ℤ)
    → neg_part cash ≡ 0
    → IsKept (map (λ (r : OrderRecord). r.intent) orders) (start_state orders cash positions)
start-IsKept orders cash positions h = record {
  counted =
      λ i p e. (omega (arith, start-progress orders i p e), sym (start-progress orders i p e));
  same_orders = start-intents orders;
  solvent = h;
}

-- With a commission of at most one and cash that is not negative, a session that returns has filled every
-- order of the plan no further than its lots and by exactly the fills that it reports for it, whatever
-- the windows are, and its cash is not negative.
pub match_session-IsKept :
    (t : Terms) (day : ℕ) (orders : List OrderRecord) (windows : Dict (List Window)) (cash : ℤ)
    (positions : Dict ℤ) (s : MatchState)
    → t.commission ≤ one
    → neg_part cash ≡ 0
    → match_session t day orders windows cash positions ≡ ok s
    → IsKept (map (λ (r : OrderRecord). r.intent) orders) s
unfolding match_session
match_session-IsKept t day orders windows cash positions s fee rich h =
    let (_, k1) = ok_then _ _ s h in
    let (events, _, k2) = ok_bind (all_events day orders windows (symbols [] orders)) _ s k1 in
    subst (IsKept (map (λ (r : OrderRecord). r.intent) orders)) (ok_inj _ refl k2) (
      take_events-IsKept t fee (map (λ (r : OrderRecord). r.intent) orders) (sort_events events)
        (start_state orders cash positions) (start-IsKept orders cash positions rich))
