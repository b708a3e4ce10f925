-- ===== src/Protection/Readback.antt =====
-- ACTIVE means verified: what the readback of `reconcile` has seen when it answers so.
use moex_tinvest_bot.Base.{
  true, ◌&&◌, none, some, Option, inl, inr, ◌⊎◌, List, ◌≡◌, ◌↔◌, refl, arith, ◌==◌,
}
use moex_tinvest_bot.Base.Result.{Result, ok, err}
use moex_tinvest_bot.Domain.{Text}
use moex_tinvest_bot.Protection.Verified.{Shows, seen-Shows, Shows-seen}
use moex_tinvest_bot.Protection.{
  active, Protected, Store, ProtectionError, ProtectionPlan, Broker, Stop, Names, plan_row,
  reconcile, reconcile_stop, read_back, set_plan_state,
}

module _ (names : Names) (plan : ProtectionPlan) (broker : Broker) where
  read_back_verified :
      (id : Text) (s : Store)
      → (read_back names plan broker id s).0 ≡ ok active
      → (observed : List Stop) × (broker.stops_after ≡ ok observed) × Shows plan id observed
  unfolding read_back
  read_back_verified id s h = by_answer broker.stops_after refl
    where
      by_answer :
          (r : Result ProtectionError (List Stop))
          → broker.stops_after ≡ r
          → (observed : List Stop) × (broker.stops_after ≡ ok observed) × Shows plan id observed
      by_answer (err e) eq = absurd (ground arith)
      by_answer (ok observed) eq =
          (observed, eq, seen-Shows plan id observed (ground arith) (ground arith))

  read_back_shown :
      (id : Text) (s : Store) (observed : List Stop)
      → broker.stops_after ≡ ok observed
      → Shows plan id observed
      → (read_back names plan broker id s).0 ≡ ok active
  unfolding read_back set_plan_state
  read_back_shown id s observed eq h =
      let (apart, fits) = Shows-seen plan id h in ground (arith, eq, apart, fits)

  reconcile-found :
      (id : Text) (row : Protected) (s : Store)
      → (plan_row names plan s).0 ≡ ok row
      → row.stop_id ≡ some id
      → (broker.account_id == plan.account_id && broker.is_prod) ≡ true
      → reconcile names plan broker s ≡ read_back names plan broker id s
  unfolding reconcile reconcile_stop plan_row
  reconcile-found id row s found known own = ground arith

  reconcile-own :
      (s : Store)
      → (reconcile names plan broker s).0 ≡ ok active
      → (broker.account_id == plan.account_id && broker.is_prod) ≡ true
  unfolding reconcile
  reconcile-own s h = ground arith

  -- What `reconcile` has found where the row has a stop order, or has none.
  abbrev pub IsReadBack : Protected → Type 0
  IsReadBack row =
      ((row.stop_id ≡ none) × (row.state ≡ active))
      ⊎ ((id : Text) × (row.stop_id ≡ some id)
          × (observed : List Stop) × (broker.stops_after ≡ ok observed)
          × Shows plan id observed)

  abbrev pub IsReconciled : Store → Type 0
  IsReconciled s =
      (broker.account_id ≡ plan.account_id)
      × (broker.is_prod ≡ true)
      × ((row : Protected) × ((plan_row names plan s).0 ≡ ok row) × IsReadBack row)

  reconcile-row :
      (s : Store)
      → (reconcile names plan broker s).0 ≡ ok active
      → (row : Protected) × ((plan_row names plan s).0 ≡ ok row)
  unfolding reconcile
  reconcile-row s h = by_row (plan_row names plan s).0 refl
    where
      by_row :
          (r : Result ProtectionError Protected)
          → (plan_row names plan s).0 ≡ r
          → (row : Protected) × ((plan_row names plan s).0 ≡ ok row)
      by_row (err e) eq = absurd (ground (arith, h, eq))
      by_row (ok row) eq = (row, eq)

  reconcile_unknown :
      (row : Protected) (s : Store)
      → (plan_row names plan s).0 ≡ ok row
      → row.stop_id ≡ none
      → (broker.account_id == plan.account_id && broker.is_prod) ≡ true
      → (reconcile names plan broker s).0 ≡ ok row.state
  unfolding reconcile reconcile_stop plan_row
  reconcile_unknown row s found known own = ground (arith, found, known, own)

  read_row :
      (row : Protected) (s : Store)
      → (plan_row names plan s).0 ≡ ok row
      → (reconcile names plan broker s).0 ≡ ok active
      → (o : Option Text) → row.stop_id ≡ o
      → IsReadBack row
  read_row row s found h none e =
      inl (e, ground (arith, h, reconcile_unknown row s found e (reconcile-own s h)))
  read_row row s found h (some id) e =
      let (observed, eq, shown) =
        read_back_verified id s (rw (reconcile-found id row s found e (reconcile-own s h)) at h) in
      inr (id, e, observed, eq, shown)

  row-active :
      (row : Protected) (s : Store)
      → (plan_row names plan s).0 ≡ ok row
      → (broker.account_id == plan.account_id && broker.is_prod) ≡ true
      → IsReadBack row
      → (reconcile names plan broker s).0 ≡ ok active
  row-active row s found own (inl (unknown_stop, state)) =
      ground (arith, reconcile_unknown row s found unknown_stop own, state)
  row-active row s found own (inr (id, known, observed, eq, shown)) =
      rw (reconcile-found id row s found known own) (read_back_shown id s observed eq shown)

  -- `reconcile` answers ACTIVE exactly when it is asked with the plan's own production broker, the
  -- plan has a row, and one of two things holds. The row knows a stop order, and of the orders that
  -- the broker lists exactly one has that id: it sells, is active, has no child and no expiry, is of the
  -- plan's kind and instrument, and has the plan's lots and prices in rubles; and each other order is
  -- of a named instrument that is not the plan's. Or the row knows none, and is ACTIVE itself.
  pub reconcile_active :
      (s : Store) → ((reconcile names plan broker s).0 ≡ ok active) ↔ IsReconciled s
  reconcile_active s = (
    λ h.
        let own = reconcile-own s h in
        let (row, found) = reconcile-row s h in
        (
          ground (arith, own),
          ground (arith, own),
          (row, found, read_row row s found h row.stop_id refl),
        ),
    λ (own, prod, (row, found, shown)). row-active row s found (ground (arith, own, prod)) shown,
  )
