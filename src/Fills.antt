-- ===== src/Fills.antt =====
-- src/moex_bot/backtest_fills.py: `match_session`, which fills the orders of a day from completed windows.
-- Prices, volumes and rates are in nanos; cash, the reserve, costs and fees are exact in units of 10^-18.
-- Candles have positive prices and instruments positive sizes, as their constructors see to, and the
-- impact is below one.
pub mod Fair
pub mod Kept
mod Tests
use moex_tinvest_bot.Base.{
  ℕ, zero, suc, Bool, true, false, not, ◌&&◌, ◌||◌, Option, none, some, List, [], ◌∷◌, ◌++◌, ◌+◌,
  ◌-◌, ◌*◌, ◌/◌, ltb, leb, ◌==◌, min, max, map, any, keep, if◌then◌else◌,
}
use moex_tinvest_bot.Base.Int.{ℤ, pos, pos_part, neg_part, ◌+ℤ◌, ◌-ℤ◌, ltb_ℤ}
use moex_tinvest_bot.Base.Result.{⊤, Result, ok, err, ◌>>=◌, ◌>>◌, raise_if}
use moex_tinvest_bot.Domain.{
  Text, Nanos, Side, buy, sell, side_eq, OrderType, limit, market, Instrument, OrderIntent,
  OrderRecord, OrderStatus, validated, status_eq,
}
use moex_tinvest_bot.Portfolio.{one, Dict, lookup, assign, remove, member}

-- `HistoricalCandle` of src/moex_bot/integrations/moexalgo_data.py
pub record HistoricalCandle : Type 0 where
  pub trading_date : ℕ
  pub open_price : Nanos
  pub high : Nanos
  pub low : Nanos
  pub close : Nanos
  pub volume : Nanos

-- Half-open, in seconds from the start of the session.
pub record Window : Type 0 where
  pub start : ℕ
  pub finish : ℕ
  pub candle : HistoricalCandle

pub data MatchError : Type 0 where
  bad_offsets not_validated_limit bad_windows : MatchError

-- `Window.__post_init__`
pub check_window : Window → Result MatchError ⊤
check_window w = raise_if (not (ltb w.start w.finish && leb w.finish 86400)) bad_offsets

pub data FillReason : Type 0 where
  missing_window not_active no_trade_through no_executable_tick volume_cap cash_or_reserve :
      FillReason
  no_unreserved_position filled_whole partial_fill : FillReason

-- The arguments of a session beside its orders and windows.
pub record Terms : Type 0 where
  pub reserve : ℕ
  pub impact : Nanos
  pub commission : Nanos
  pub participation : Nanos
  pub latency : ℕ

abbrev is_buy : OrderIntent → Bool
is_buy o = side_eq o.side buy

-- `1 + impact if buy else 1 - impact`
abbrev pub factor : Terms → OrderIntent → Nanos
factor t o = if is_buy o then one + t.impact else one - t.impact

-- The window trades strictly through the limit.
abbrev trades_through : Terms → OrderIntent → HistoricalCandle → Bool
trades_through t o c =
    if is_buy o
    then ltb (c.low * factor t o) (o.limit_price * one)
    else ltb (o.limit_price * one) (c.high * factor t o)

-- The price before it is rounded, in units of 10^-18.
abbrev raw_price : Terms → OrderIntent → HistoricalCandle → ℕ
raw_price t o c =
    if is_buy o
    then min (min (c.high * one) (o.limit_price * one)) (c.open_price * factor t o)
    else max (max (c.low * one) (o.limit_price * one)) (c.open_price * factor t o)

-- `(price / tick).to_integral_value(...) * tick`, up for a purchase and down for a sale
abbrev pub tick_price : Terms → OrderIntent → HistoricalCandle → Nanos
tick_price t o c =
    let d = o.instrument.tick_size * one in
    let a = raw_price t o c in
    (if is_buy o then (a + d - 1) / d else a / d) * o.instrument.tick_size

abbrev is_executable : OrderIntent → HistoricalCandle → Nanos → Bool
is_executable o c price =
    leb c.low price
    && leb price c.high
    && (if is_buy o then leb price o.limit_price else leb o.limit_price price)

-- `int(c.volume * participation)`
abbrev pub budget : Terms → HistoricalCandle → ℕ
budget t c = c.volume * t.participation / (one * one)

-- `price * inst.lot_size * (1 + commission)`
abbrev pub lot_cost : Terms → OrderIntent → Nanos → ℕ
lot_cost t o price = price * o.instrument.lot_size * (one + t.commission)

-- What the cash buys of `lots`: beyond the reserve, or to cover a short position.
abbrev bought_lots : Terms → OrderIntent → Nanos → ℤ → ℤ → ℕ → ℕ
bought_lots t o price cash current lots =
    let cost = lot_cost t o price in
    let affordable = pos_part (cash -ℤ pos t.reserve) / cost in
    let cover = min (neg_part current) (pos_part cash / cost) in min lots (max affordable cover)

pub data Verdict : Type 0 where
  skip : Verdict
  refuse : FillReason → Verdict
  fill : ℕ → Nanos → Verdict

abbrev some_lots : ℕ → Nanos → FillReason → Verdict
some_lots zero price why = refuse why
some_lots (suc n) price why = fill (suc n) price

-- The lots by side, of those that the order and the budget leave.
side_verdict : Terms → OrderIntent → Nanos → ℤ → ℤ → ℕ → Verdict
side_verdict t o price cash current lots =
    if is_buy o
    then some_lots (bought_lots t o price cash current lots) price cash_or_reserve
    else if not o.confirm_margin_trade
    then some_lots (min lots (pos_part current)) price no_unreserved_position
    else fill lots price

-- The body of the loop up to the fill.
pub verdict : Terms → OrderIntent → ℕ → Window → ℤ → ℤ → ℕ → Verdict
verdict t o done w cash current consumed =
    let price = tick_price t o w.candle in
    let lots = min (o.lots - done) ((budget t w.candle - consumed) / o.instrument.lot_size) in
    if done == o.lots
    then skip
    else if ltb w.start t.latency
    then refuse not_active
    else if not (trades_through t o w.candle)
    then refuse no_trade_through
    else if not (is_executable o w.candle price)
    then refuse no_executable_tick
    else if lots == 0
    then refuse volume_cap
    else side_verdict t o price cash current lots

-- `BacktestTrade`, of the order at an index
pub record BacktestTrade : Type 0 where
  pub index : ℕ
  pub secid : Text
  pub lots : ℕ
  pub units : ℕ
  pub fill_price : Nanos
  pub gross : ℕ
  pub fee : ℕ
  pub window_start : ℕ

-- An order with its entries in `done` and `reasons`.
pub record Progress : Type 0 where
  pub intent : OrderIntent
  pub done : ℕ
  pub reason : FillReason

pub record MatchState : Type 0 where
  pub cash : ℤ
  pub held : Dict ℤ
  pub consumed : List ((Text × ℕ) × ℕ)
  pub progress : List Progress
  pub fills : List BacktestTrade

abbrev pub consumed_at : Text → ℕ → List ((Text × ℕ) × ℕ) → ℕ
consumed_at secid start [] = 0
consumed_at secid start (((k, s), n) ∷ d) =
    if k == secid && s == start then n else consumed_at secid start d

abbrev pub add_consumed : Text → ℕ → ℕ → List ((Text × ℕ) × ℕ) → List ((Text × ℕ) × ℕ)
add_consumed secid start units [] = ((secid, start), units) ∷ []
add_consumed secid start units (((k, s), n) ∷ d) =
    if k == secid && s == start
    then ((k, s), n + units) ∷ d
    else ((k, s), n) ∷ add_consumed secid start units d

abbrev pub held_of : Text → Dict ℤ → ℤ
held_of secid d = elim (lookup secid d) [ none ↦ pos 0 | some n ↦ n ]

-- `held[secid] = n`, which is deleted at zero
abbrev set_held : Text → ℤ → Dict ℤ → Dict ℤ
set_held secid (pos zero) d = remove secid d
set_held secid n d = assign secid n d

abbrev set_at : ℕ → Progress → List Progress → List Progress
set_at i p [] = []
set_at zero p (q ∷ qs) = p ∷ qs
set_at (suc i) p (q ∷ qs) = q ∷ set_at i p qs

abbrev pub at : ℕ → List Progress → Option Progress
at i [] = none
at zero (q ∷ qs) = some q
at (suc i) (q ∷ qs) = at i qs

-- The cash after a fill: `(-gross if buy else gross) - fee`.
abbrev pub cash_after : Terms → OrderIntent → ℕ → Nanos → ℤ → ℤ
cash_after t o lots price cash =
    let gross = lots * o.instrument.lot_size * price in
    if is_buy o
    then cash -ℤ pos (gross * (one + t.commission))
    else cash +ℤ pos (gross * one) -ℤ pos (gross * t.commission)

abbrev held_after : OrderIntent → ℕ → ℤ → ℤ
held_after o lots current = if is_buy o then current +ℤ pos lots else current -ℤ pos lots

abbrev pub trade_of : Terms → ℕ → OrderIntent → Window → ℕ → Nanos → BacktestTrade
trade_of t i o w lots price =
    let units = lots * o.instrument.lot_size in
    record {
      index = i;
      secid = o.instrument.secid;
      lots = lots;
      units = units;
      fill_price = price;
      gross = units * price;
      fee = units * price * t.commission;
      window_start = w.start;
    }

-- By the verdict on the order at an index.
pub apply_verdict : Terms → ℕ → Progress → Window → MatchState → Verdict → MatchState
apply_verdict t i p w s skip = s
apply_verdict t i p w s (refuse why) = record s {
  progress = set_at i (record p { reason = why }) s.progress;
}
apply_verdict t i p w s (fill lots price) =
    let o = p.intent in
    let secid = o.instrument.secid in
    let units = lots * o.instrument.lot_size in
    let done = p.done + lots in
    record {
      cash = cash_after t o lots price s.cash;
      held = set_held secid (held_after o lots (held_of secid s.held)) s.held;
      consumed = add_consumed secid w.start units s.consumed;
      progress =
          set_at i
            (record p {
              done = done;
              reason = if done == o.lots then filled_whole else partial_fill;
            })
            s.progress;
      fills = s.fills ++ trade_of t i p.intent w lots price ∷ [];
    }

abbrev take_progress : Terms → ℕ → Option Progress → Window → MatchState → MatchState
take_progress t i none w s = s
take_progress t i (some p) w s =
    let secid = p.intent.instrument.secid in
    apply_verdict t i p w s (
      verdict t p.intent p.done w s.cash (held_of secid s.held)
        (consumed_at secid w.start s.consumed))

-- One turn of the loop.
pub take_event : Terms → ℕ × Window → MatchState → MatchState
take_event t (i, w) s = take_progress t i (at i s.progress) w s

pub take_events : Terms → List (ℕ × Window) → MatchState → MatchState
take_events t [] s = s
take_events t (e ∷ es) s = take_events t es (take_event t e s)

-- The orders' indices of a symbol, the first order having the given index.
abbrev indices_of : Text → ℕ → List OrderRecord → List ℕ
indices_of secid i [] = []
indices_of secid i (r ∷ rs) =
    if r.intent.instrument.secid == secid
    then i ∷ indices_of secid (i + 1) rs
    else indices_of secid (i + 1) rs

-- The keys of `by_symbol`, in the order of their first orders.
abbrev symbols : List Text → List OrderRecord → List Text
symbols seen [] = []
symbols seen (r ∷ rs) =
    let secid = r.intent.instrument.secid in
    if member secid seen then symbols seen rs else secid ∷ symbols (secid ∷ seen) rs

abbrev is_limit_order : OrderType → Bool
is_limit_order limit = true
is_limit_order market = false

abbrev is_matchable : OrderRecord → Bool
is_matchable r = status_eq r.status validated && is_limit_order r.intent.order_type

-- The windows of a symbol, each checked against the day and the end of the one before.
symbol_events : ℕ → List ℕ → ℕ → List Window → Result MatchError (List (ℕ × Window))
symbol_events day is previous_end [] = ok []
symbol_events day is previous_end (w ∷ ws) = do
  raise_if (not (w.candle.trading_date == day) || ltb w.start previous_end) bad_windows
  rest ← symbol_events day is w.finish ws
  ok (map (λ i. (i, w)) is ++ rest)

all_events :
    ℕ → List OrderRecord → Dict (List Window) → List Text → Result MatchError (List (ℕ × Window))
all_events day orders windows [] = ok []
all_events day orders windows (secid ∷ secids) = do
  here ←
      symbol_events day (indices_of secid 0 orders) 0
        (elim (lookup secid windows) [ none ↦ [] | some ws ↦ ws ])
  rest ← all_events day orders windows secids
  ok (here ++ rest)

-- `sorted(events, key=lambda e: (e[0], e[1]))`, by the end of the window and then the index
abbrev comes_before : ℕ × Window → ℕ × Window → Bool
comes_before (i, v) (j, w) = ltb v.finish w.finish || (v.finish == w.finish && ltb i j)

abbrev insert_event : ℕ × Window → List (ℕ × Window) → List (ℕ × Window)
insert_event e [] = e ∷ []
insert_event e (f ∷ fs) = if comes_before f e then f ∷ insert_event e fs else e ∷ f ∷ fs

abbrev pub sort_events : List (ℕ × Window) → List (ℕ × Window)
sort_events [] = []
sort_events (e ∷ es) = insert_event e (sort_events es)

abbrev pub begin : OrderRecord → Progress
begin r = record { intent = r.intent; done = 0; reason = missing_window }

abbrev pub start_state : List OrderRecord → ℤ → Dict ℤ → MatchState
start_state orders cash positions = record {
  cash = cash;
  held = positions;
  consumed = [];
  progress = map begin orders;
  fills = [];
}

-- `match_session`; the outcomes are read off the progress of the orders.
pub match_session :
    Terms → ℕ → List OrderRecord → Dict (List Window) → ℤ → Dict ℤ → Result MatchError MatchState
match_session t day orders windows cash positions = do
  raise_if (any (λ r. not (is_matchable r)) orders) not_validated_limit
  events ← all_events day orders windows (symbols [] orders)
  ok (take_events t (sort_events events) (start_state orders cash positions))

pub data OutcomeStatus : Type 0 where
  filled_order partial_expired expired : OutcomeStatus

-- `OrderOutcome`
pub record OrderOutcome : Type 0 where
  pub requested_lots : ℕ
  pub filled_lots : ℕ
  pub expired_lots : ℕ
  pub status : OutcomeStatus
  pub last_reason : FillReason

unfoldable pub outcome : Progress → OrderOutcome
outcome p = record {
  requested_lots = p.intent.lots;
  filled_lots = p.done;
  expired_lots = p.intent.lots - p.done;
  status =
      if p.done == p.intent.lots
      then filled_order
      else if p.done == 0
      then expired
      else partial_expired;
  last_reason = p.reason;
}
