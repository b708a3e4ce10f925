-- ===== src/Base/Exec.antt =====
-- Stateful code that may raise. What was written before a raise stays written, so the state comes
-- back beside the error too; `atomic` is a database transaction, which a raise rolls back.
use mathlib.Core.Path.{◌≡◌, refl, ap, subst}
use mathlib.Core.Logic.{◌⊎◌, inl, inr}
use mathlib.Core.Bool.{Bool, true, false}
use moex_tinvest_bot.Base.Result.{⊤, Result, ok, err}

abbrev pub Exec : Type 0 → Type 0 → Type 0 → Type 0
Exec S E A = S → Result E A × S

module _ {S E A : Type 0} where
  abbrev pub pure : A → Exec S E A
  pure a s = (ok a, s)

  abbrev pub raise : E → Exec S E A
  raise e s = (err e, s)

  abbrev pub lift : Result E A → Exec S E A
  lift r s = (r, s)

  abbrev pub gets : (S → A) → Exec S E A
  gets f s = (ok (f s), s)

  abbrev rolled_back : S → Result E A × S → Result E A × S
  rolled_back s (ok a, s') = (ok a, s')
  rolled_back s (err e, s') = (err e, s)

  abbrev pub atomic : Exec S E A → Exec S E A
  atomic m s = rolled_back s (m s)

module _ {S E A : Type 0} where
  rolled_back-cases :
      (s : S) (o : Result E A × S)
      → ((rolled_back s o).1 ≡ s) ⊎ ((a : A) × (o.0 ≡ ok a) × (rolled_back s o ≡ o))
  rolled_back-cases s (ok a, t) = inr (a, refl, refl)
  rolled_back-cases s (err e, t) = inl refl

  -- A transaction leaves the state as it was, or it has returned and is what it would be alone.
  pub atomic-cases :
      (m : Exec S E A) (s : S)
      → ((atomic m s).1 ≡ s) ⊎ ((a : A) × ((m s).0 ≡ ok a) × (atomic m s ≡ m s))
  atomic-cases m s = rolled_back-cases s (m s)

abbrev continue : {S E A B : Type 0} → (A → Exec S E B) → Result E A × S → Result E B × S
continue f (ok a, s) = f a s
continue f (err e, s) = (err e, s)

infixl 5 ◌>>=◌ ◌>>◌
abbrev pub ◌>>=◌ : {S E A B : Type 0} → Exec S E A → (A → Exec S E B) → Exec S E B
◌>>=◌ m f s = continue f (m s)

abbrev pub ◌>>◌ : {S E B : Type 0} → Exec S E ⊤ → Exec S E B → Exec S E B
m >> k = m >>= λ _. k

module _ {S E : Type 0} where
  abbrev pub raise_if : Bool → E → Exec S E ⊤
  raise_if true e s = (err e, s)
  raise_if false e s = (ok tt, s)

  abbrev pub modify : (S → S) → Exec S E ⊤
  modify f s = (ok tt, f s)

module _ {S E A B : Type 0} (P : S → Type 0) (f : A → Exec S E B) where
  continue_ends :
      (o : Result E A × S)
      → ((a : A) (t : S) → o ≡ (ok a, t) → P (f a t).1)
      → ((e : E) (t : S) → o ≡ (err e, t) → P t)
      → P (continue f o).1
  continue_ends (ok a, t) returns raises = returns a t refl
  continue_ends (err e, t) returns raises = raises e t refl

  -- What a bind leaves behind: what its second part leaves, or what the first part left as it raised.
  pub bind_ends :
      (m : Exec S E A) (s : S)
      → ((a : A) (t : S) → m s ≡ (ok a, t) → P (f a t).1)
      → ((e : E) (t : S) → m s ≡ (err e, t) → P t)
      → P ((m >>= f) s).1
  bind_ends m s = continue_ends (m s)

  -- A predicate that both parts of a bind keep is kept by the whole.
  pub bind_keeps :
      (m : Exec S E A) (s : S)
      → P (m s).1
      → ((a : A) (t : S) → P t → P (f a t).1)
      → P ((m >>= f) s).1
  bind_keeps m s kept rest =
      continue_ends (m s) (λ a t e. rest a t (subst P (ap (λ (o : Result E A × S). o.1) e) kept))
        (λ x t e. subst P (ap (λ (o : Result E A × S). o.1) e) kept)

pub raise_if-keeps :
    {S E : Type 0} (P : S → Type 0) (b : Bool) (e : E) (s : S) → P s → P (raise_if b e s).1
raise_if-keeps P true e s h = h
raise_if-keeps P false e s h = h
