-- ===== src/Live/Ledger/Tests.antt =====
-- The summary of one purchase, and the theorem at it.
use moex_tinvest_bot.Base.{◌≡◌, ◌/◌, refl, some, [], ◌∷◌, false, any, count}
use moex_tinvest_bot.Base.Int.{pos}
use moex_tinvest_bot.Base.Result.{ok}
use moex_tinvest_bot.Domain.{filled}
use moex_tinvest_bot.Journal.{Row, status}
use moex_tinvest_bot.Live.Ledger.{
  Summary, put, add_row, add_rows, ledger_summary, counts, day_turnover, is_short,
  ledger_summary_lem,
}
use moex_tinvest_bot.Samples.{filled_as}

abbrev bought : Row
bought = record {
  account = 105;
  logical_id = 70;
  generation = 1;
  request_id = 71;
  payload_hash = 7001;
  plan_id = 8;
  state = status filled;
  snapshot_at = 1000;
  completed_at = some 2000;
  saved = filled_as 71;
}

abbrev read : Summary
read = record { owned = (11, pos 10) ∷ []; attempts = 1; turnover = 2_500_000_000_000 }

-- Days of a million microseconds.
reads : ledger_summary (λ t. t / 1_000_000) (bought ∷ []) 105 3000 ≡ ok read
unfolding ledger_summary add_rows add_row put
reads = refl

ledger_summary_lem_example :
    (read.attempts ≡ count (counts (λ t. t / 1_000_000) 105 3000) (bought ∷ []))
    × (read.turnover ≡ day_turnover (λ t. t / 1_000_000) 105 3000 (bought ∷ []))
    × (any is_short read.owned ≡ false)
ledger_summary_lem_example =
    ledger_summary_lem (λ t. t / 1_000_000) (bought ∷ []) 105 3000 read reads
