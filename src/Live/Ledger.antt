-- ===== src/Live/Ledger.antt =====
-- src/moex_bot/live_execution.py: `_ledger_summary`, which reads the bot's own holdings, attempts and
-- turnover from the execution journal. The date of a time in Moscow is a parameter.
mod Tests
use moex_tinvest_bot.Base.{
  ℕ, Bool, true, false, not, ◌&&◌, Option, none, some, List, [], ◌∷◌, ◌+◌, ◌*◌, ◌≡◌, ◌≤◌, refl,
  arith, ltb, leb, ◌==◌, any, count, keep, if◌then◌else◌,
}
use moex_tinvest_bot.Base.Int.{ℤ, pos, ◌+ℤ◌, ◌-ℤ◌, ltb_ℤ}
use moex_tinvest_bot.Base.Result.{Result, ok, err}
use moex_tinvest_bot.Domain.{Text, Nanos, OrderRecord, buy, side_eq}
use moex_tinvest_bot.Journal.{Row}
use moex_tinvest_bot.Portfolio.{Dict, lookup}
use moex_tinvest_bot.Live.{units_of}

pub data LedgerError : Type 0 where
  short_exposure : LedgerError

pub record Summary : Type 0 where
  pub owned : Dict ℤ
  pub attempts : ℕ
  pub turnover : Nanos

-- `owned[uid] = owned.get(uid, 0) + units`, an assignment that keeps the key's place
put : Text → ℤ → Dict ℤ → Dict ℤ
put uid units [] = (uid, units) ∷ []
put uid units ((k, u) ∷ owned) =
    let rest = put uid units owned in if k == uid then (k, u +ℤ units) ∷ owned else (k, u) ∷ rest

-- The signed units that an order has moved.
abbrev moved : OrderRecord → ℤ
moved r =
    let units = r.filled_lots * r.intent.instrument.lot_size in
    if side_eq r.intent.side buy then pos units else pos 0 -ℤ pos units

abbrev pub is_short : Text × ℤ → Bool
is_short e = ltb_ℤ e.1 (pos 0)

module _ (moscow_day : ℕ → ℕ) where
  -- The body of the loop.
  add_row : ℕ → Summary → Row → Summary
  add_row today m r =
      let is_today = moscow_day r.snapshot_at == today in
      record {
        owned = put r.saved.intent.instrument.uid (moved r.saved) m.owned;
        attempts = m.attempts + (if is_today then 1 else 0);
        turnover = m.turnover + (if is_today then r.saved.intent.notional else 0);
      }

  add_rows : ℕ → Summary → List Row → Summary
  add_rows today m [] = m
  add_rows today m (r ∷ rows) = add_rows today (add_row today m r) rows

  -- `_ledger_summary`
  pub ledger_summary : List Row → Text → ℕ → Result LedgerError Summary
  ledger_summary rows account now =
      let m =
        add_rows (moscow_day now) (record { owned = []; attempts = 0; turnover = 0 })
          (keep (λ r. r.account == account) rows) in
      if any is_short m.owned then err short_exposure else ok m

  -- The rows that count for the day of a time.
  abbrev pub counts : Text → ℕ → Row → Bool
  counts account now r = r.account == account && moscow_day r.snapshot_at == moscow_day now

  -- The notionals of the rows that count.
  abbrev pub day_turnover : Text → ℕ → List Row → Nanos
  day_turnover account now [] = 0
  day_turnover account now (r ∷ rows) =
      (if counts account now r then r.saved.intent.notional else 0) + day_turnover account now rows

  add_rows-day :
      (account : Text) (now : ℕ) (rows : List Row) (m : Summary)
      → let done = add_rows (moscow_day now) m (keep (λ r. r.account == account) rows) in
        (done.attempts ≡ m.attempts + count (counts account now) rows)
        × (done.turnover ≡ m.turnover + day_turnover account now rows)
  unfolding add_rows add_row
  add_rows-day account now [] m = (omega arith, omega arith)
  add_rows-day account now (r ∷ rows) m = ground (
    arith,
    add_rows-day account now rows m,
    add_rows-day account now rows (add_row (moscow_day now) m r),
  )

  -- A summary that is read counts every row of the account of the same Moscow day, whatever became of
  -- it, with its whole notional, and shows no instrument with a short holding.
  pub ledger_summary_lem :
      (rows : List Row) (account : Text) (now : ℕ) (m : Summary)
      → ledger_summary rows account now ≡ ok m
      → (m.attempts ≡ count (counts account now) rows)
        × (m.turnover ≡ day_turnover account now rows)
        × (any is_short m.owned ≡ false)
  unfolding ledger_summary
  ledger_summary_lem rows account now m h =
      let day = add_rows-day account now rows (record { owned = []; attempts = 0; turnover = 0 }) in
      ground (arith, day)
