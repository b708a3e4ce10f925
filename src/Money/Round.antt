-- ===== src/Money/Round.antt =====
-- The round trips between Decimals and the broker's amounts.
use mathlib.Core.Path.{subst}
use native.Mathlib.Nat.{zero-div}
use moex_tinvest_bot.Base.{
  ℕ, zero, suc, ◌+◌, ◌-◌, ◌*◌, ◌/◌, ◌%◌, ◌≤◌, ◌<◌, ◌≡◌, ◌⊎◌, inl, inr, refl, sym, ap, ◌∙◌, arith,
}
use moex_tinvest_bot.Base.Int.{ℤ, pos, negsuc, pos_part, neg_part, ◌+ℤ◌, ◌-ℤ◌, ◌*ℤ◌, eq_of_parts}
use moex_tinvest_bot.Money.{Quotation, truncated, decimal_to_quotation, money_value_to_decimal}

-- The whole part and the nanos have no opposite signs, and the nanos are less than one unit.
pub data IsQuotation : Quotation → Type 0 where
  positive : (u n : ℕ) → n < 1_000_000_000 → IsQuotation (record { units = pos u; nano = pos n })
  negative :
      (u n : ℕ)
      → n < 1_000_000_000
      → IsQuotation (record { units = pos 0 -ℤ pos u; nano = pos 0 -ℤ pos n })

truncated-pos : (m d : ℕ) → truncated (pos m) d ≡ pos (m / d)
unfolding truncated
truncated-pos m d = ground arith

-- A number below zero, of any size.
abbrev minus : ℕ → ℤ
minus m = pos 0 -ℤ pos m

minus_parts : (m : ℕ) → (pos_part (minus m) ≡ 0) × (neg_part (minus m) ≡ m)
unfolding ◌-ℤ◌
minus_parts m = ground arith

minus-eq : (a : ℤ) (m : ℕ) → pos_part a + m ≡ neg_part a → a ≡ minus m
minus-eq a m h = eq_of_parts a (minus m) (omega (arith, h, (minus_parts m).0, (minus_parts m).1))

truncated-minus : (m d : ℕ) → truncated (minus m) d ≡ minus (m / d)
unfolding truncated
truncated-minus zero d = ground (arith, zero-div d, minus_parts 0)
truncated-minus (suc m) d = ground (arith, minus_parts (suc m))

shifted_pos :
    (m u : ℕ)
    → u * 1_000_000_000_000_000_000 ≤ m
    → pos m -ℤ pos u *ℤ pos 1_000_000_000_000_000_000 ≡ pos (m - u * 1_000_000_000_000_000_000)
unfolding ◌-ℤ◌ ◌*ℤ◌
shifted_pos m u h = ground (arith, h)

minus-mul : (u w : ℕ) → minus u *ℤ pos w ≡ minus (u * w)
unfolding ◌*ℤ◌
minus-mul u w =
    ground
      (arith, minus_parts u, minus_parts (u * w), eq_of_parts (minus u *ℤ pos w) (minus (u * w)))

minus-sub : (m x : ℕ) → x ≤ m → minus m -ℤ minus x ≡ minus (m - x)
unfolding ◌-ℤ◌
minus-sub m x h = ground (arith, h)

minus-add : (a b : ℕ) → minus a +ℤ minus b ≡ minus (a + b)
unfolding ◌+ℤ◌
minus-add a b = ground (
  arith,
  minus_parts a,
  minus_parts b,
  eq_of_parts (minus a +ℤ minus b) (minus (a + b)),
  minus_parts (a + b),
)

decimal_pos :
    (u n : ℕ)
    → money_value_to_decimal (record { units = pos u; nano = pos n })
      ≡ pos (u * 1_000_000_000_000_000_000 + n * 1_000_000_000)
unfolding money_value_to_decimal ◌+ℤ◌ ◌*ℤ◌
decimal_pos u n = ground arith

decimal_minus :
    (u n : ℕ)
    → money_value_to_decimal (record { units = minus u; nano = minus n })
      ≡ minus (u * 1_000_000_000_000_000_000 + n * 1_000_000_000)
unfolding money_value_to_decimal
decimal_minus u n =
    rw (minus-mul u 1_000_000_000_000_000_000, minus-mul n 1_000_000_000)
      (minus-add (u * 1_000_000_000_000_000_000) (n * 1_000_000_000))

abbrev amount : ℤ → ℤ → Quotation
amount u n = record { units = u; nano = n }

-- The broker's amount of a Decimal that is not negative, and of one that is not positive.
quotation_pos :
    (m : ℕ)
    → decimal_to_quotation (pos m)
      ≡ amount
          (pos (m / 1_000_000_000_000_000_000))
          (pos (m % 1_000_000_000_000_000_000 / 1_000_000_000))
unfolding decimal_to_quotation
quotation_pos m =
    rw
      (
        truncated-pos m 1_000_000_000_000_000_000,
        shifted_pos m (m / 1_000_000_000_000_000_000) (omega arith),
        truncated-pos (m - (m / 1_000_000_000_000_000_000) * 1_000_000_000_000_000_000)
            1_000_000_000,
      )
      (ap (λ (n : ℕ). amount (pos (m / 1_000_000_000_000_000_000)) (pos n)) (omega arith))

quotation_minus :
    (m : ℕ)
    → decimal_to_quotation (minus m)
      ≡ amount
          (minus (m / 1_000_000_000_000_000_000))
          (minus (m % 1_000_000_000_000_000_000 / 1_000_000_000))
unfolding decimal_to_quotation
quotation_minus m =
    rw
      (
        truncated-minus m 1_000_000_000_000_000_000,
        minus-mul (m / 1_000_000_000_000_000_000) 1_000_000_000_000_000_000,
        minus-sub m ((m / 1_000_000_000_000_000_000) * 1_000_000_000_000_000_000) (omega arith),
        truncated-minus (m - (m / 1_000_000_000_000_000_000) * 1_000_000_000_000_000_000)
            1_000_000_000,
      )
      (ap (λ (n : ℕ). amount (minus (m / 1_000_000_000_000_000_000)) (minus n)) (omega arith))

sign-cases : (v : ℤ) → (v ≡ pos (pos_part v)) ⊎ (v ≡ minus (neg_part v))
sign-cases (pos m) = inl refl
sign-cases (negsuc m) = inr (minus-eq (negsuc m) (suc m) (omega arith))

pos-mul : (a b : ℕ) → pos a *ℤ pos b ≡ pos (a * b)
unfolding ◌*ℤ◌
pos-mul a b = ground arith

returns_pos :
    (m : ℕ)
    → money_value_to_decimal (decimal_to_quotation (pos m))
      ≡ truncated (pos m) 1_000_000_000 *ℤ pos 1_000_000_000
returns_pos m =
    ap money_value_to_decimal (quotation_pos m)
    ∙ decimal_pos (m / 1_000_000_000_000_000_000) (m % 1_000_000_000_000_000_000 / 1_000_000_000)
    ∙ ap pos (omega arith)
    ∙ sym (pos-mul (m / 1_000_000_000) 1_000_000_000)
    ∙ ap (λ (z : ℤ). z *ℤ pos 1_000_000_000) (sym (truncated-pos m 1_000_000_000))

returns_minus :
    (m : ℕ)
    → money_value_to_decimal (decimal_to_quotation (minus m))
      ≡ truncated (minus m) 1_000_000_000 *ℤ pos 1_000_000_000
returns_minus m =
    ap money_value_to_decimal (quotation_minus m)
    ∙ decimal_minus (m / 1_000_000_000_000_000_000) (m % 1_000_000_000_000_000_000 / 1_000_000_000)
    ∙ ap minus (omega arith)
    ∙ sym (minus-mul (m / 1_000_000_000) 1_000_000_000)
    ∙ ap (λ (z : ℤ). z *ℤ pos 1_000_000_000) (sym (truncated-minus m 1_000_000_000))

abbrev IsBack : ℤ → Type 0
IsBack z =
    money_value_to_decimal (decimal_to_quotation z) ≡ truncated z 1_000_000_000 *ℤ pos 1_000_000_000

there_and_back :
    (v : ℤ)
    → money_value_to_decimal (decimal_to_quotation v)
      ≡ truncated v 1_000_000_000 *ℤ pos 1_000_000_000
there_and_back v = elim (sign-cases v) [
  | inl e ↦ subst IsBack (sym e) (returns_pos (pos_part v))
  | inr e ↦ subst IsBack (sym e) (returns_minus (neg_part v))
]

back_and_there :
    (q : Quotation) → IsQuotation q → decimal_to_quotation (money_value_to_decimal q) ≡ q
back_and_there _ (positive u n small) =
    let m : ℕ = u * 1_000_000_000_000_000_000 + n * 1_000_000_000 in
    ap decimal_to_quotation (decimal_pos u n)
    ∙ quotation_pos m
    ∙ ap (λ (k : ℕ). amount (pos k) (pos (m % 1_000_000_000_000_000_000 / 1_000_000_000)))
        (omega (arith, small))
    ∙ ap (λ (k : ℕ). amount (pos u) (pos k)) (omega (arith, small))
back_and_there _ (negative u n small) =
    let m : ℕ = u * 1_000_000_000_000_000_000 + n * 1_000_000_000 in
    ap decimal_to_quotation (decimal_minus u n)
    ∙ quotation_minus m
    ∙ ap (λ (k : ℕ). amount (minus k) (minus (m % 1_000_000_000_000_000_000 / 1_000_000_000)))
        (omega (arith, small))
    ∙ ap (λ (k : ℕ). amount (minus u) (minus k)) (omega (arith, small))

-- A Decimal that goes to the broker and comes back is rounded towards zero to a whole number of nanos.
-- An amount of the broker's form, whose two parts have no opposite signs and whose nanos are less than
-- one unit, comes back from its Decimal as it was.
pub quotation_round_trip :
    (v : ℤ) (q : Quotation)
    → IsQuotation q
    → (money_value_to_decimal (decimal_to_quotation v)
        ≡ truncated v 1_000_000_000 *ℤ pos 1_000_000_000)
      × (decimal_to_quotation (money_value_to_decimal q) ≡ q)
quotation_round_trip v q h = (there_and_back v, back_and_there q h)
