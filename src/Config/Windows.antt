-- ===== src/Config/Windows.antt =====
-- Lists of windows and of hours: the tests of the validation, and what they say.
use moex_tinvest_bot.Base.{
  ℕ, Bool, true, false, not, ◌||◌, List, [], ◌∷◌, ◌≡◌, ◌≢◌, ◌≤◌, ◌<◌, ◌↔◌, refl, arith, ltb, leb,
  ◌==◌, any, all, count, count-eq-zero, Bool-cases, inl, inr, ==_sound, ==_refl,
}
use moex_tinvest_bot.Base.Result.{⊤}
use moex_tinvest_bot.Config.{is_increasing, has_duplicate, is_none}

-- Each element exceeds the one before it, and the first one exceeds `n`.
abbrev pub IsAbove : ℕ → List ℕ → Type 0
IsAbove n [] = ⊤
IsAbove n (x ∷ xs) = (n < x) × IsAbove x xs

-- No element stands twice.
abbrev pub IsUnique : List ℕ → Type 0
IsUnique xs = (x : ℕ) → count (λ y. y == x) xs ≤ 1

increasing-IsAbove : (x : ℕ) (xs : List ℕ) → (is_increasing (x ∷ xs) ≡ true) ↔ IsAbove x xs
increasing-IsAbove x [] = (λ h. tt, λ h. refl)
increasing-IsAbove x (y ∷ xs) =
    let (there, back) = increasing-IsAbove y xs in
    (
      λ h. (ground (arith, h), there (ground (arith, h))),
      λ (more, above). ground (arith, more, back above),
    )

IsAbove-positive : (n : ℕ) (xs : List ℕ) → IsAbove n xs → any (λ w. w == 0) xs ≡ false
IsAbove-positive n [] h = refl
IsAbove-positive n (x ∷ xs) (more, above) = ground (arith, more, IsAbove-positive x xs above)

-- Some windows, none of them zero, in increasing order.
pub windows_lem :
    (xs : List ℕ)
    → (((is_none xs || any (λ w. w == 0) xs) ≡ false) × (not (is_increasing xs) ≡ false))
      ↔ ((xs ≢ []) × IsAbove 0 xs)
windows_lem [] =
    (λ (h, k). absurd (ground (arith, h)), λ (some_window, _). absurd (some_window refl))
windows_lem (x ∷ xs) =
    let (there, back) = increasing-IsAbove x xs in
    (
      λ (h, k). ((λ none_left. cc), (ground (arith, h), there (ground (arith, k)))),
      λ (_, (more, above)).
          (ground (arith, more, IsAbove-positive x xs above), ground (arith, back above)),
    )

none_counted : (p : ℕ → Bool) (xs : List ℕ) → count p xs ≤ 0 → any p xs ≡ false
none_counted p [] h = refl
none_counted p (x ∷ xs) h = ground (arith, h, none_counted p xs)

tail-IsUnique : (x : ℕ) (xs : List ℕ) → IsUnique (x ∷ xs) → IsUnique xs
tail-IsUnique x xs h y = omega (arith, h y)

pub unique_lem : (xs : List ℕ) → (has_duplicate xs ≡ false) ↔ IsUnique xs
unique_lem [] = (λ h x. omega arith, λ h. refl)
unique_lem (x ∷ xs) =
    let (there, back) = unique_lem xs in
    (
      λ h y. elim (Bool-cases (x == y)) [
        | inl same ↦
            let none_left : count (λ z. z == x) xs ≡ 0 =
              count-eq-zero (λ (z : ℕ). z == x) xs (ground (arith, h)) in
            ground (arith, same, none_left, ==_sound x y same)
        | inr apart ↦ ground (arith, apart, there (ground (arith, h)) y)
      ],
      λ unique. ground (
        arith,
        none_counted (λ (z : ℕ). z == x) xs (ground (arith, unique x, ==_refl x)),
        back (tail-IsUnique x xs unique),
      ),
    )

real_hours : (xs : List ℕ) → any (λ h. ltb 23 h) xs ≡ not (all (λ h. leb h 23) xs)
real_hours [] = refl
real_hours (x ∷ xs) = ground (arith, real_hours xs)

-- Some hours, each of them of a day.
pub hours_lem :
    (xs : List ℕ)
    → ((is_none xs || any (λ h. ltb 23 h) xs) ≡ false)
      ↔ ((xs ≢ []) × (all (λ h. leb h 23) xs ≡ true))
hours_lem [] = (λ h. absurd (ground (arith, h)), λ (some_hour, _). absurd (some_hour refl))
hours_lem (x ∷ xs) = (
  λ h. ((λ none_left. cc), ground (arith, real_hours (x ∷ xs), h)),
  λ (_, h). ground (arith, real_hours (x ∷ xs), h),
)
