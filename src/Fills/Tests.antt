-- ===== src/Fills/Tests.antt =====
-- A purchase that one window fills, and the theorems there.
use moex_tinvest_bot.Base.{◌≡◌, refl, arith, map, [], ◌∷◌}
use moex_tinvest_bot.Base.Int.{ℤ, pos, ◌+ℤ◌, ◌-ℤ◌}
use moex_tinvest_bot.Base.Result.{Result, ok, err}
use moex_tinvest_bot.Domain.{OrderRecord, validated}
use moex_tinvest_bot.Fills.{
  Terms, Window, MatchError, MatchState, fill, verdict, side_verdict, match_session, all_events,
  symbol_events, take_events, take_event, apply_verdict, outcome, filled_order, filled_whole,
}
use moex_tinvest_bot.Fills.Fair.{IsFair, verdict-IsFair}
use moex_tinvest_bot.Fills.Kept.{IsKept, match_session-IsKept}
use moex_tinvest_bot.Samples.{buy_one, planned_one}

-- A fee of 0.1%, a tenth of the volume, and windows that begin after a minute.
abbrev terms : Terms
terms = record {
  reserve = 0;
  impact = 0;
  commission = 1_000_000;
  participation = 100_000_000;
  latency = 60;
}

-- 1,000 shares, between 249 and 252 RUB.
abbrev window : Window
window = record {
  start = 60;
  finish = 120;
  candle = record {
    trading_date = 7;
    open_price = 249_500_000_000;
    high = 252_000_000_000;
    low = 249_000_000_000;
    close = 251_000_000_000;
    volume = 1_000_000_000_000;
  };
}

abbrev validated_one : OrderRecord
validated_one = record planned_one { status = validated }

-- 10,000 RUB.
abbrev cash : ℤ
cash = pos 10_000_000_000_000_000_000_000

abbrev session : Result MatchError MatchState
session = match_session terms 7 (validated_one ∷ []) ((10, window ∷ []) ∷ []) cash []

abbrev or_start : Result MatchError MatchState → MatchState
or_start (ok s) = s
or_start (err e) = record { cash = pos 0; held = []; consumed = []; progress = []; fills = [] }

-- The open is better than the limit.
buys_at_open : verdict terms buy_one 0 window cash (pos 0) 0 ≡ fill 1 249_500_000_000
unfolding verdict side_verdict ◌-ℤ◌
buys_at_open = refl

session_returns : session ≡ ok (or_start session)
unfolding match_session all_events symbol_events take_events take_event apply_verdict verdict
    side_verdict ◌-ℤ◌ ◌+ℤ◌
session_returns = refl

whole_outcome :
    map outcome (or_start session).progress
    ≡ record {
      requested_lots = 1;
      filled_lots = 1;
      expired_lots = 0;
      status = filled_order;
      last_reason = filled_whole;
    }
      ∷ []
unfolding match_session all_events symbol_events take_events take_event apply_verdict verdict
    side_verdict outcome ◌-ℤ◌ ◌+ℤ◌
whole_outcome = refl

verdict-IsFair_example : IsFair terms buy_one 0 window cash (pos 0) 0 1 249_500_000_000
verdict-IsFair_example =
    verdict-IsFair terms buy_one 0 window cash (pos 0) 0 1 249_500_000_000 buys_at_open

match_session-IsKept_example :
    IsKept (map (λ (r : OrderRecord). r.intent) (validated_one ∷ [])) (or_start session)
match_session-IsKept_example =
    match_session-IsKept terms 7 (validated_one ∷ []) ((10, window ∷ []) ∷ []) cash []
      (or_start session) (omega arith) refl session_returns
