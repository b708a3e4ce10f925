-- ===== src/Harness/Flow/Confirmed.antt =====
-- Which targets the order flow confirms.
use mathlib.Core.Path.{subst}
use moex_tinvest_bot.Base.{
  ==_refl, ==_sound, ℕ, Bool, true, false, not, ◌&&◌, ◌||◌, Option, none, some, List, [], ◌∷◌, ◌≡◌,
  refl, sym, ap, ◌∙◌, arith, ◌==◌, any, all, keep, map, ◌⊎◌, ◌↔◌, append-eq-nil, Bool-cases, inl,
  inr,
}
use moex_tinvest_bot.Base.Int.{pos, ltb_ℤ, leb_ℤ}
use moex_tinvest_bot.Domain.{Text}
use moex_tinvest_bot.Config.{StrategyConfig}
use moex_tinvest_bot.Portfolio.{Dict, lookup, member, Target}
use moex_tinvest_bot.Intents.{sort_texts, insert_sorted}
use moex_tinvest_bot.Quality.{missing_long_flow, stale_long_flow}
use moex_tinvest_bot.Harness.Flow.Passing.{IsPassing, IsWanted, IsFilter, passes-IsPassing}
use moex_tinvest_bot.Harness.Flow.{
  is_absent, IntradaySuperCandle, flow_diagnostic, flow_reasons, is_none, candidates, is_stale,
  has_stale, flow_errors, diagnostics, has_passed, confirmed,
}

-- A bar that is fresh and gives no reason against it.
abbrev confirmed_by : StrategyConfig → ℕ → Option IntradaySuperCandle → Bool
confirmed_by c as_of none = false
confirmed_by c as_of (some bar) = not (is_stale as_of bar) && is_none (flow_reasons c bar)

abbrev is_confirmed : StrategyConfig → ℕ → Dict IntradaySuperCandle → Text → Bool
is_confirmed c as_of flow k = confirmed_by c as_of (lookup k flow)

abbrev is_wanted : StrategyConfig → ℕ → Dict IntradaySuperCandle → List Text → Target → Bool
is_wanted c as_of flow held t =
    leb_ℤ t.weight (pos 0) || member t.secid held || is_confirmed c as_of flow t.secid

||-cases : (a b c : Bool) → (a || b || c) ≡ true → (a ≡ true) ⊎ ((b ≡ true) ⊎ (c ≡ true))
||-cases a b c h = ground (arith, h)

abbrev passes : StrategyConfig → Option IntradaySuperCandle → Bool
passes c none = false
passes c (some bar) = is_none (flow_reasons c bar)

abbrev pub IsKeyed : Dict IntradaySuperCandle → Type 0
IsKeyed flow = (k : Text) (bar : IntradaySuperCandle) → lookup k flow ≡ some bar → bar.secid ≡ k

module _ (c : StrategyConfig) (flow : Dict IntradaySuperCandle) (keyed : IsKeyed flow) where
  has_passed-diagnostics :
      (names : List Text) (k : Text)
      → has_passed (diagnostics c flow names) k ≡ (member k names && passes c (lookup k flow))
  unfolding flow_diagnostic
  has_passed-diagnostics [] k = refl
  has_passed-diagnostics (j ∷ names) k = elim (Bool-cases (j == k)) [
    | inl here ↦ by_bar (has_passed-diagnostics names k) here (lookup j flow) refl
    | inr elsewhere ↦ by_other (has_passed-diagnostics names k) elsewhere (lookup j flow) refl
  ]
    where
      by_bar :
          has_passed (diagnostics c flow names) k ≡ (member k names && passes c (lookup k flow))
          → j == k ≡ true
          → (o : Option IntradaySuperCandle) → lookup j flow ≡ o
          → has_passed (diagnostics c flow (j ∷ names)) k
            ≡ (member k (j ∷ names) && passes c (lookup k flow))
      by_bar before here none e =
          let same : lookup k flow ≡ none =
            ap (λ (t : Text). lookup t flow) (sym (==_sound j k here)) ∙ e in
          ground (arith, e, before, same)
      by_bar before here (some bar) e =
          let same : lookup k flow ≡ some bar =
            ap (λ (t : Text). lookup t flow) (sym (==_sound j k here)) ∙ e in
          ground (arith, e, before, same, keyed j bar e, here)

      by_other :
          has_passed (diagnostics c flow names) k ≡ (member k names && passes c (lookup k flow))
          → j == k ≡ false
          → (o : Option IntradaySuperCandle) → lookup j flow ≡ o
          → has_passed (diagnostics c flow (j ∷ names)) k
            ≡ (member k (j ∷ names) && passes c (lookup k flow))
      by_other before elsewhere none e = ground (arith, e, elsewhere, before)
      by_other before elsewhere (some bar) e = ground (arith, e, before, keyed j bar e, elsewhere)

kept-none :
    (p : Text → Bool) (xs : List Text) → map stale_long_flow (keep p xs) ≡ [] → any p xs ≡ false
kept-none p [] h = refl
kept-none p (x ∷ xs) h = elim (Bool-cases (p x)) [
  | inl bad ↦ absurd (ground (arith, h, bad))
  | inr fine ↦ ground (arith, fine, kept-none p xs (ground (arith, h, fine)))
]

-- No error means no old bar of a name.
no_errors-fresh :
    (as_of : ℕ) (flow : Dict IntradaySuperCandle) (names : List Text)
    → flow_errors as_of flow names ≡ []
    → any (has_stale as_of flow) names ≡ false
unfolding flow_errors
no_errors-fresh as_of flow names h =
    kept-none (has_stale as_of flow) names
      (append-eq-nil (map missing_long_flow (keep (is_absent flow) names)) _ h).1

member-insert_sorted :
    (k x : Text) (ys : List Text) → member k (insert_sorted x ys) ≡ (x == k || member k ys)
member-insert_sorted k x [] = refl
member-insert_sorted k x (y ∷ ys) = ground (arith, member-insert_sorted k x ys)

member-sort_texts : (k : Text) (xs : List Text) → member k (sort_texts xs) ≡ member k xs
member-sort_texts k [] = refl
member-sort_texts k (x ∷ xs) =
    member-insert_sorted k x (sort_texts xs)
    ∙ ap (λ (b : Bool). x == k || b) (member-sort_texts k xs)

member-fresh :
    (p : Text → Bool) (k : Text) (xs : List Text)
    → any p xs ≡ false
    → member k xs ≡ true
    → p k ≡ false
member-fresh p k [] h m = absurd (ground (arith, m))
member-fresh p k (x ∷ xs) h m = elim (Bool-cases (x == k)) [
  | inl here ↦ subst (λ (t : Text). p t ≡ false) (==_sound x k here) (ground (arith, h))
  | inr later ↦ member-fresh p k xs (ground (arith, h)) (ground (arith, m, later))
]

-- Every target with a positive weight is a candidate.
abbrev is_known : List Text → Target → Bool
is_known names t = leb_ℤ t.weight (pos 0) || member t.secid names

abbrev long_names : List Target → List Text
long_names ts = map (λ (t : Target). t.secid) (keep (λ t. ltb_ℤ (pos 0) t.weight) ts)

all-weaken :
    (p q : Target → Bool) (ts : List Target)
    → ((t : Target) → p t ≡ true → q t ≡ true)
    → all p ts ≡ true
    → all q ts ≡ true
all-weaken p q [] h k = refl
all-weaken p q (t ∷ ts) h k =
    ground (arith, h t (ground (arith, k)), all-weaken p q ts h (ground (arith, k)))

all-long_names : (ts : List Target) → all (is_known (long_names ts)) ts ≡ true
all-long_names [] = refl
all-long_names (t ∷ ts) = ground (
  arith,
  all-weaken (is_known (long_names ts)) (is_known (long_names (t ∷ ts))) ts
      (λ u h. ground (arith, h)) (all-long_names ts),
  ==_refl t.secid,
)

all-candidates : (ts : List Target) → all (is_known (candidates ts)) ts ≡ true
all-candidates ts =
    all-weaken (is_known (long_names ts)) (is_known (candidates ts)) ts
      (λ u h. ground (arith, h, member-sort_texts u.secid (long_names ts))) (all-long_names ts)

keep-same :
    (known p q : Target → Bool) (ts : List Target)
    → ((t : Target) → known t ≡ true → p t ≡ q t)
    → all known ts ≡ true
    → keep p ts ≡ keep q ts
keep-same known p q [] h k = refl
keep-same known p q (t ∷ ts) h k =
    ground (arith, h t (ground (arith, k)), keep-same known p q ts h (ground (arith, k)))

confirmed-keep :
    (c : StrategyConfig) (flow : Dict IntradaySuperCandle) (as_of : ℕ) (held : List Text)
    (raw : List Target)
    → IsKeyed flow
    → flow_errors as_of flow (candidates raw) ≡ []
    → confirmed (diagnostics c flow (candidates raw)) held raw
      ≡ keep (is_wanted c as_of flow held) raw
unfolding confirmed
confirmed-keep c flow as_of held raw keyed h =
    keep-same (is_known (candidates raw))
      (λ t.
        leb_ℤ t.weight (pos 0)
        || member t.secid held
        || has_passed (diagnostics c flow (candidates raw)) t.secid)
      (is_wanted c as_of flow held) raw
      (λ t known. elim (Bool-cases (leb_ℤ t.weight (pos 0))) [
        | inl low ↦ rw low refl
        | inr high ↦
            let among : member t.secid (candidates raw) ≡ true = ground (arith, known, high) in
            let fresh =
              member-fresh (has_stale as_of flow) t.secid (candidates raw)
                (no_errors-fresh as_of flow (candidates raw) h) among in
            ground
              (arith, has_passed-diagnostics c flow keyed (candidates raw) t.secid, among, fresh)
      ])
      (all-candidates raw)

confirmed_bar :
    (c : StrategyConfig) (as_of : ℕ) (o : Option IntradaySuperCandle)
    → (confirmed_by c as_of o ≡ true)
      ↔ ((bar : IntradaySuperCandle) × (o ≡ some bar) × IsPassing c as_of bar)
confirmed_bar c as_of none =
    (λ h. absurd (ground (arith, h)), λ (bar, found, _). absurd (ground (arith, found)))
confirmed_bar c as_of (some bar) = (
  λ h. (bar, refl, (passes-IsPassing c as_of bar).0 h),
  λ (other, found, f).
      subst (λ (o : Option IntradaySuperCandle). confirmed_by c as_of o ≡ true) (sym found)
        ((passes-IsPassing c as_of other).1 f),
)

is_wanted-IsWanted :
    (c : StrategyConfig) (as_of : ℕ) (flow : Dict IntradaySuperCandle) (held : List Text)
    (t : Target)
    → (is_wanted c as_of flow held t ≡ true) ↔ IsWanted c as_of flow held t
is_wanted-IsWanted c as_of flow held t =
    let (there, back) = confirmed_bar c as_of (lookup t.secid flow) in
    (
      λ h.
          elim (||-cases (leb_ℤ t.weight (pos 0)) (member t.secid held)
            (is_confirmed c as_of flow t.secid) h) [
              | inl low ↦ inl (ground (arith, low))
              | inr (inl mine) ↦ inr (inl mine)
              | inr (inr fine) ↦ inr (inr (there fine))
            ],
      λ w. elim w [
        | inl low ↦ ground (arith, low)
        | inr (inl mine) ↦ ground (arith, mine)
        | inr (inr fine) ↦ ground (arith, back fine)
      ],
    )

-- Where the bars stand under their own names and the run is not blocked for missing or old bars, the
-- targets that remain, in their order, are exactly those of weight zero or below, those held already, and
-- those whose bar is not from the future, is at most 15 minutes old, and has a trade imbalance, an order
-- flow and a book imbalance of at least their limits and a spread of at most its limit.
pub confirmed_lem :
    (c : StrategyConfig) (flow : Dict IntradaySuperCandle) (as_of : ℕ) (held : List Text)
    (raw : List Target)
    → IsKeyed flow
    → flow_errors as_of flow (candidates raw) ≡ []
    → IsFilter
        (IsWanted c as_of flow held)
        raw
        (confirmed (diagnostics c flow (candidates raw)) held raw)
confirmed_lem c flow as_of held raw keyed h = (
  is_wanted c as_of flow held,
  confirmed-keep c flow as_of held raw keyed h,
  is_wanted-IsWanted c as_of flow held,
)
