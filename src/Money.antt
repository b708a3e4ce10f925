-- ===== src/Money.antt =====
-- src/moex_bot/integrations/tinvest_sandbox.py: the amounts of the broker's interface, a whole part and
-- nanos of one sign. A Decimal is an integer in units of 10^-18 here.
mod Round
mod Tests
use moex_tinvest_bot.Base.{ℕ, Bool, List, [], ◌∷◌, ◌/◌, if◌then◌else◌}
use moex_tinvest_bot.Base.Int.{ℤ, pos, abs, ◌+ℤ◌, ◌-ℤ◌, ◌*ℤ◌, ltb_ℤ}
use moex_tinvest_bot.Domain.{Text}

pub record Quotation : Type 0 where
  pub units : ℤ
  pub nano : ℤ

-- A quotient that is rounded towards zero.
unfoldable pub truncated : ℤ → ℕ → ℤ
truncated v d = if ltb_ℤ v (pos 0) then pos 0 -ℤ pos (abs v / d) else pos (abs v / d)

-- `decimal_to_quotation`
pub decimal_to_quotation : ℤ → Quotation
decimal_to_quotation v =
    let units = truncated v 1_000_000_000_000_000_000 in
    record {
      units = units;
      nano = truncated (v -ℤ units *ℤ pos 1_000_000_000_000_000_000) 1_000_000_000;
    }

-- `money_value_to_decimal`, which `quotation_to_decimal` calls
pub money_value_to_decimal : Quotation → ℤ
money_value_to_decimal q = q.units *ℤ pos 1_000_000_000_000_000_000 +ℤ q.nano *ℤ pos 1_000_000_000

-- `_rub_total`, by a test of the currency's name
pub rub_total : (Text → Bool) → List (Text × Quotation) → ℤ
rub_total is_rub [] = pos 0
rub_total is_rub ((currency, q) ∷ items) =
    let rest = rub_total is_rub items in
    if is_rub currency then money_value_to_decimal q +ℤ rest else rest
