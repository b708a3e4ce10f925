-- ===== src/Sandbox/Batch.antt =====
-- A batch of sandbox orders goes on only after an order that is filled.
use mathlib.Core.Logic.{◌⊎◌, inl, inr}
use moex_tinvest_bot.Base.{
  ℕ, zero, suc, Bool, true, false, not, ◌&&◌, Option, none, some, List, [], ◌∷◌, ◌+◌, ◌≡◌, ◌≤◌,
  refl, length, arith, take, if◌then◌else◌,
}
use mathlib.Core.Path.{subst}
use moex_tinvest_bot.Base.Int.{ℤ}
use moex_tinvest_bot.Base.Result.{Result, ok, err, ok_inj}
use moex_tinvest_bot.Base.Exec.{pure, ◌>>=◌}
use moex_tinvest_bot.Domain.{Text, Moment, OrderIntent, OrderRecord, OrderStatus, filled, status_eq}
use moex_tinvest_bot.Portfolio.{Dict, assign}
use moex_tinvest_bot.Sandbox.{
  SandboxError, SandboxStore, SandboxPort, Trading, projected, resulting, continue_batch, run_item,
  run_items, execute_plan,
}

-- All records are filled, but for a last one with the status that stopped the batch, if one did.
abbrev pub is_batch : List OrderRecord → Option OrderStatus → Bool
is_batch [] none = true
is_batch [] (some stop) = false
is_batch (r ∷ []) none = status_eq r.status filled
is_batch (r ∷ []) (some stop) = status_eq r.status stop && not (status_eq stop filled)
is_batch (r ∷ q ∷ rest) stop = status_eq r.status filled && is_batch (q ∷ rest) stop

abbrev pub Report : Type 0
Report = List OrderRecord × Option OrderStatus

-- What a run of at most `n` orders returns.
abbrev pub IsBatch : ℕ → Result SandboxError Report → Type 0
IsBatch n o =
    (report : Report) → o ≡ ok report → (is_batch report.0 report.1 ≡ true) × (length report.0 ≤ n)

bind-IsBatch :
    {A : Type 0} (n : ℕ) (o : Result SandboxError A × SandboxStore) (f : A → Trading Report)
    → ((a : A) (t : SandboxStore) → IsBatch n (f a t).0)
    → IsBatch n (((λ (s : SandboxStore). o) >>= f) o.1).0
bind-IsBatch n (ok a, t) f h = h a t
bind-IsBatch n (err e, t) f h = λ report e. absurd (ground (arith, e))

cons-is_batch :
    (r : OrderRecord) (rest : List OrderRecord) (stop : Option OrderStatus)
    → status_eq r.status filled ≡ true
    → is_batch rest stop ≡ true
    → is_batch (r ∷ rest) stop ≡ true
cons-is_batch r [] none e h = e
cons-is_batch r [] (some stop) e h = absurd (ground (arith, h))
cons-is_batch r (q ∷ rest) stop e h = ground (arith, e, h)

cons-IsBatch :
    (n : ℕ) (r : OrderRecord) (o : Result SandboxError Report × SandboxStore)
    → status_eq r.status filled ≡ true
    → IsBatch n o.0
    → IsBatch
        (suc n)
        (((λ (s : SandboxStore). o) >>= λ (rest : Report). pure (r ∷ rest.0, rest.1)) o.1).0
cons-IsBatch n r (ok (rest, stop), t) e h = λ report same.
    let (batch, few) = h (rest, stop) refl in
    subst (λ (x : Report). (is_batch x.0 x.1 ≡ true) × (length x.0 ≤ suc n))
      (ok_inj (ok (r ∷ rest, stop)) refl same)
      (cons-is_batch r rest stop e batch, omega (arith, few))
cons-IsBatch n r (err x, t) e h = λ report same. absurd (ground (arith, same))

status_eq_refl : (s : OrderStatus) → status_eq s s ≡ true
status_eq_refl s = ground arith

more-IsBatch : (n : ℕ) (o : Result SandboxError Report) → IsBatch n o → IsBatch (suc n) o
more-IsBatch n o h report same = let (batch, few) = h report same in (batch, omega (arith, few))

branch-IsBatch :
    (n : ℕ) (r : OrderRecord) (m : Trading Report) (s : SandboxStore) (go_on : Bool)
    → status_eq r.status filled ≡ go_on
    → IsBatch n (m s).0
    → IsBatch
        (suc n)
        ((if go_on
            then (m >>= λ (rest : Report). pure (r ∷ rest.0, rest.1))
            else pure (r ∷ [], some r.status))
          s).0
branch-IsBatch n r m s true e h = cons-IsBatch n r (m s) e h
branch-IsBatch n r m s false e h = λ report same.
    subst (λ (x : Report). (is_batch x.0 x.1 ≡ true) × (length x.0 ≤ suc n))
      (ok_inj (ok (r ∷ [], some r.status)) refl same)
      (ground (arith, e, status_eq_refl r.status), omega arith)

continue-IsBatch :
    (n : ℕ) (rest : Dict ℤ → Trading Report) (o : OrderIntent) (current : ℤ) (lots : Dict ℤ)
    (seen : Option OrderRecord) (s : SandboxStore)
    → ((l : Dict ℤ) → IsBatch n (rest l s).0)
    → IsBatch (suc n) (continue_batch rest o current lots seen s).0
unfolding continue_batch
continue-IsBatch n rest o current lots none s h = more-IsBatch n (rest lots s).0 (h lots)
continue-IsBatch n rest o current lots (some r) s h =
    branch-IsBatch n r (rest (assign o.instrument.secid (resulting o current r.filled_lots) lots)) s
      (status_eq r.status filled) refl
      (h (assign o.instrument.secid (resulting o current r.filled_lots) lots))

length-take :
    {A : Type 0} (n : ℕ) (xs : List A) → (length (take n xs) ≤ n) × (length (take n xs) ≤ length xs)
length-take zero xs = (omega arith, omega arith)
length-take (suc n) [] = (omega arith, omega arith)
length-take (suc n) (x ∷ xs) = let (a, b) = length-take n xs in (omega (arith, a), omega (arith, b))

-- A run that raises, or a report on a batch of at most `n` and at most `m` orders.
abbrev pub Reports : ℕ → ℕ → Result SandboxError Report → Type 0
Reports n m o =
    ((e : SandboxError) × (o ≡ err e))
    ⊎ ((report : Report) × (o ≡ ok report)
        × (is_batch report.0 report.1 ≡ true)
        × (length report.0 ≤ n)
        × (length report.0 ≤ m))

outcome_cases :
    (n m : ℕ) (o : Result SandboxError Report)
    → ((report : Report)
        → o ≡ ok report
        → (is_batch report.0 report.1 ≡ true) × (length report.0 ≤ n) × (length report.0 ≤ m))
    → Reports n m o
outcome_cases n m (ok report) h =
    let (batch, few, fewer) = h report refl in inr (report, refl, batch, few, fewer)
outcome_cases n m (err e) h = inl (e, refl)

module _ (digest : OrderIntent → Text) (port : SandboxPort) (plan_id : Text)
    (snapshot : Moment) where
  run_items-IsBatch :
      (k : ℕ) (lots : Dict ℤ) (items : List (Result SandboxError OrderIntent)) (s : SandboxStore)
      → IsBatch (length items) (run_items digest port plan_id snapshot k lots items s).0
  unfolding run_items
  run_items-IsBatch k lots [] s = λ report same.
      subst (λ (x : Report). (is_batch x.0 x.1 ≡ true) × (length x.0 ≤ 0))
        (ok_inj (ok ([], none)) refl same) (refl, omega arith)
  run_items-IsBatch k lots (item ∷ items) s =
      bind-IsBatch (suc (length items)) (item, s) _
        λ o t.
          bind-IsBatch (suc (length items))
            (run_item digest port plan_id snapshot k o (projected o.instrument.secid lots) t) _
            λ seen u.
              continue-IsBatch (length items)
                (λ l. run_items digest port plan_id snapshot (k + 1) l items) o
                (projected o.instrument.secid lots) lots seen u
                λ l. run_items-IsBatch (k + 1) l items u

  -- A run of a plan raises, or it returns records that are all filled, but for a last one that is not
  -- and whose status is the reason that the batch stopped: no order follows one that is not filled.
  -- There are at most as many as the limit on the orders of a cycle and as the plan has.
  pub execute_plan-IsBatch :
      (max_orders : ℕ) (lots : Dict ℤ) (items : List (Result SandboxError OrderIntent))
      (s : SandboxStore)
      → Reports max_orders
          (length items)
          (execute_plan digest port plan_id snapshot max_orders lots items s).0
  unfolding execute_plan
  execute_plan-IsBatch max_orders lots items s =
      let (short, shorter) = length-take max_orders items in
      outcome_cases max_orders (length items)
        (run_items digest port plan_id snapshot 0 lots (take max_orders items) s).0
        λ report h.
          let (batch, few) = run_items-IsBatch 0 lots (take max_orders items) s report h in
          (batch, omega (arith, few, short), omega (arith, few, shorter))
