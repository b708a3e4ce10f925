-- ===== src/Money/Tests.antt =====
-- Two amounts, and the theorem at them.
use moex_tinvest_bot.Base.{◌≡◌, refl, arith}
use moex_tinvest_bot.Base.Int.{pos, negsuc, ◌-ℤ◌, ◌*ℤ◌}
use moex_tinvest_bot.Money.{truncated, decimal_to_quotation, money_value_to_decimal}
use moex_tinvest_bot.Money.Round.{positive, quotation_round_trip}

-- -114.25
below_zero :
    decimal_to_quotation (negsuc 114_249_999_999_999_999_999)
    ≡ record { units = negsuc 113; nano = negsuc 249_999_999 }
unfolding decimal_to_quotation truncated ◌-ℤ◌ ◌*ℤ◌
below_zero = refl

quotation_round_trip_example :
    (money_value_to_decimal (decimal_to_quotation (negsuc 114_249_999_999_999_999_999))
      ≡ truncated (negsuc 114_249_999_999_999_999_999) 1_000_000_000 *ℤ pos 1_000_000_000)
    × (decimal_to_quotation
          (money_value_to_decimal (record { units = pos 250; nano = pos 10_000_000 }))
        ≡ record { units = pos 250; nano = pos 10_000_000 })
quotation_round_trip_example =
    quotation_round_trip (negsuc 114_249_999_999_999_999_999)
      (record { units = pos 250; nano = pos 10_000_000 }) (positive 250 10_000_000 (omega arith))
