-- ===== src/Protection/Verified.antt =====
-- A stop order that fits its plan, field by field, and a list in which it stands alone.
use moex_tinvest_bot.Base.{
  ℕ, Bool, true, false, ◌&&◌, Option, none, some, List, [], ◌∷◌, ◌≡◌, ◌≢◌, ◌↔◌, ◌⊎◌, inl, inr, refl,
  arith, any, keep, ◌==◌, ap, Bool-cases, ==_sound, ==_refl,
}
use moex_tinvest_bot.Domain.{Text}
use moex_tinvest_bot.Protection.Plan.{
  ProtectionPlan, Stop, Money, StopKind, stop_loss_market, stop_limit_kind, sell_stop, loss_stop,
  limit_stop, active_stop, StopType, ChildType, type_matches, child_matches, money_is,
  price_matches, unspecified_child, market_child, limit_child, is_verified, text_is,
}
use moex_tinvest_bot.Protection.{is_conflict, is_verified_only, only}

-- A stop loss of a market child, or a stop limit of a limit child; the child may be left open.
abbrev pub IsOfKind : StopKind → StopType → ChildType → Type 0
IsOfKind stop_loss_market t child =
    (t ≡ loss_stop) × ((child ≡ unspecified_child) ⊎ (child ≡ market_child))
IsOfKind stop_limit_kind t child =
    (t ≡ limit_stop) × ((child ≡ unspecified_child) ⊎ (child ≡ limit_child))

-- An amount in rubles, where one is wanted.
abbrev pub IsPrice : Option ℕ → Option Money → Type 0
IsPrice wanted seen =
    (wanted ≡ none)
    ⊎ ((p : ℕ) × (wanted ≡ some p) × (seen ≡ some (record { money_currency = 1; amount = p })))

pub record Fits (plan : ProtectionPlan) (s : Stop) : Type 0 where
  pub childless : s.has_activated_child ≡ false
  pub unexpiring : s.has_expiration ≡ false
  pub until_cancelled : s.is_good_till_cancel ≡ true
  pub sells : s.direction ≡ sell_stop
  pub in_rubles : s.stop_currency ≡ 1
  pub active : s.stop_status ≡ active_stop
  pub instrument : s.instrument_uid ≡ some plan.instrument.uid
  pub kind : IsOfKind plan.kind s.stop_type s.child
  pub lots : s.lots_requested ≡ plan.lots
  pub trigger : s.stop_price ≡ some (record { money_currency = 1; amount = plan.stop_trigger })
  pub limit : IsPrice plan.stop_limit s.price

kind_matches :
    (k : StopKind) (t : StopType) (child : ChildType)
    → ((type_matches k t && child_matches k child) ≡ true) ↔ IsOfKind k t child
kind_matches stop_loss_market t child = (λ h. ground (arith, h), λ h. ground (arith, h))
kind_matches stop_limit_kind t child = (λ h. ground (arith, h), λ h. ground (arith, h))

money_is_sound :
    (p : ℕ) (m : Option Money)
    → (money_is p m ≡ true) ↔ (m ≡ some (record { money_currency = 1; amount = p }))
money_is_sound p none = (λ h. ground (arith, h), λ h. ground (arith, h))
money_is_sound p (some m) = (λ h. ground (arith, h), λ h. ground (arith, h))

price_matches-IsPrice :
    (wanted : Option ℕ) (m : Option Money) → (price_matches wanted m ≡ true) ↔ IsPrice wanted m
price_matches-IsPrice none m = (λ h. inl refl, λ h. refl)
price_matches-IsPrice (some p) m = (
  λ h. inr (p, refl, (money_is_sound p m).0 h),
  λ h. elim h [
    | inl open_price ↦ absurd (ground (arith, open_price))
    | inr (q, same, seen) ↦ (money_is_sound p m).1 (ground (arith, same, seen))
  ],
)

is_verified-Fits : (plan : ProtectionPlan) (s : Stop) → is_verified plan s ≡ true → Fits plan s
unfolding is_verified
is_verified-Fits plan s h = record {
  childless = ground (arith, h);
  unexpiring = ground (arith, h);
  until_cancelled = ground (arith, h);
  sells = ground (arith, h);
  in_rubles = ground (arith, h);
  active = ground (arith, h);
  instrument = ground (arith, h);
  kind = (kind_matches plan.kind s.stop_type s.child).0 (ground (arith, h));
  lots = ground (arith, h);
  trigger = (money_is_sound plan.stop_trigger s.stop_price).0 (ground (arith, h));
  limit = (price_matches-IsPrice plan.stop_limit s.price).0 (ground (arith, h));
}

Fits-is_verified : (plan : ProtectionPlan) (s : Stop) → Fits plan s → is_verified plan s ≡ true
unfolding is_verified
Fits-is_verified plan s f = ground (
  arith,
  f.childless,
  f.unexpiring,
  f.until_cancelled,
  f.sells,
  f.in_rubles,
  f.active,
  f.instrument,
  f.lots,
  (kind_matches plan.kind s.stop_type s.child).1 f.kind,
  (money_is_sound plan.stop_trigger s.stop_price).1 f.trigger,
  (price_matches-IsPrice plan.stop_limit s.price).1 f.limit,
)

-- Another stop order, of an instrument that is named and is another.
abbrev pub IsForeign : Text → Text → Stop → Type 0
IsForeign uid id s =
    (s.stop_order_id ≢ some id) × ((u : Text) × (s.instrument_uid ≡ some u) × (u ≢ 0) × (u ≢ uid))

pub data AllForeign (uid id : Text) : List Stop → Type 0 where
  no_others : AllForeign uid id []
  other :
      {s : Stop} {rest : List Stop}
      → IsForeign uid id s
      → AllForeign uid id rest
      → AllForeign uid id (s ∷ rest)

-- One stop order of the list has the id and fits the plan, and every other one is foreign.
pub data Shows (plan : ProtectionPlan) (id : Text) : List Stop → Type 0 where
  this :
      {s : Stop} {rest : List Stop}
      → s.stop_order_id ≡ some id
      → Fits plan s
      → plan.instrument.uid ≢ 0
      → AllForeign plan.instrument.uid id rest
      → Shows plan id (s ∷ rest)
  later :
      {s : Stop} {rest : List Stop}
      → IsForeign plan.instrument.uid id s
      → Shows plan id rest
      → Shows plan id (s ∷ rest)

unlike-IsForeign :
    (uid id : Text) (s : Stop)
    → is_conflict uid id s ≡ false
    → text_is id s.stop_order_id ≡ false
    → IsForeign uid id s
unlike-IsForeign uid id s h k = by_uid s.instrument_uid refl
  where
    by_uid : (o : Option Text) → s.instrument_uid ≡ o → IsForeign uid id s
    by_uid none e = absurd (ground (arith, h, e))
    by_uid (some u) e = (
      (λ same. ground (arith, k, same)),
      (u, e, ground (arith, h, e, k), ground (arith, h, e, k)),
    )

text_is-unlike : (id : Text) (o : Option Text) → o ≢ some id → text_is id o ≡ false
text_is-unlike id none h = refl
text_is-unlike id (some u) h = elim (Bool-cases (u == id)) [
  | inl same ↦ absurd (h (ap some (==_sound u id same)))
  | inr apart ↦ apart
]

text_is_sound : (id : Text) (o : Option Text) → text_is id o ≡ true → o ≡ some id
text_is_sound id none h = absurd (ground (arith, h))
text_is_sound id (some u) h = ap some (==_sound u id h)

foreign_join :
    (uid id : Text) (s : Stop)
    → IsForeign uid id s
    → (is_conflict uid id s ≡ false) × (text_is id s.stop_order_id ≡ false)
foreign_join uid id s (unlike, (u, e, named, apart)) =
    (ground (arith, e, named, apart), text_is-unlike id s.stop_order_id unlike)

module _ (plan : ProtectionPlan) (id : Text) where
  abbrev of_id : List Stop → List Stop
  of_id xs = keep (λ (s : Stop). text_is id s.stop_order_id) xs

  abbrev clash : List Stop → Bool
  clash xs = any (is_conflict plan.instrument.uid id) xs

  none_of_id :
      (xs : List Stop) → clash xs ≡ false → of_id xs ≡ [] → AllForeign plan.instrument.uid id xs
  none_of_id [] h k = AllForeign.no_others
  none_of_id (s ∷ xs) h k = elim (Bool-cases (text_is id s.stop_order_id)) [
    | inl same ↦ absurd (ground (arith, k, same))
    | inr unlike ↦
        AllForeign.other (unlike-IsForeign plan.instrument.uid id s (ground (arith, h)) unlike)
          (none_of_id xs (ground (arith, h)) (ground (arith, k, unlike)))
  ]

  foreign-of_id :
      {xs : List Stop} → AllForeign plan.instrument.uid id xs → (clash xs ≡ false) × (of_id xs ≡ [])
  foreign-of_id AllForeign.no_others = (refl, refl)
  foreign-of_id (AllForeign.other {s} f rest) =
      let (apart, unlike) = foreign_join plan.instrument.uid id s f in
      let (others, none_left) = foreign-of_id rest in
      (ground (arith, apart, others), ground (arith, unlike, none_left))

  verified_head :
      (s : Stop) (ys : List Stop)
      → is_verified_only plan (only (s ∷ ys)) ≡ true
      → (ys ≡ []) × (is_verified plan s ≡ true)
  verified_head s [] h = (refl, h)
  verified_head s (t ∷ ys) h = absurd (ground (arith, h))

  -- The tests of the readback, and what they show.
  pub seen-Shows :
      (xs : List Stop)
      → clash xs ≡ false
      → is_verified_only plan (only (of_id xs)) ≡ true
      → Shows plan id xs
  seen-Shows [] h k = absurd (ground (arith, k))
  seen-Shows (s ∷ xs) h k = elim (Bool-cases (text_is id s.stop_order_id)) [
    | inl same ↦
        let (none_left, fine) = verified_head s (of_id xs) (ground (arith, k, same)) in
        let fits = is_verified-Fits plan s fine in
        Shows.this (text_is_sound id s.stop_order_id same) fits
          (λ zero_uid. ground (arith, h, fits.instrument, zero_uid))
          (none_of_id xs (ground (arith, h)) none_left)
    | inr unlike ↦
        Shows.later (unlike-IsForeign plan.instrument.uid id s (ground (arith, h)) unlike)
          (seen-Shows xs (ground (arith, h)) (ground (arith, k, unlike)))
  ]

  pub Shows-seen :
      {xs : List Stop}
      → Shows plan id xs
      → (clash xs ≡ false) × (is_verified_only plan (only (of_id xs)) ≡ true)
  Shows-seen (Shows.this {s} own fits named rest) =
      let (others, none_left) = foreign-of_id rest in
      (
        ground (arith, own, fits.instrument, named, others, ==_refl id),
        ground (arith, own, none_left, Fits-is_verified plan s fits, ==_refl id),
      )
  Shows-seen (Shows.later {s} f rest) =
      let (apart, unlike) = foreign_join plan.instrument.uid id s f in
      let (others, fits) = Shows-seen rest in
      (ground (arith, apart, others), ground (arith, unlike, fits))
