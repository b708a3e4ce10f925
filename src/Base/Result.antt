-- ===== src/Base/Result.antt =====
-- A function that may raise: its value, or the error by which it raised.
use mathlib.Core.Path.{◌≡◌, refl, ap, sym, ◌∙◌}
use mathlib.Core.Bool.{Bool, true, false}
use mathlib.Core.Option.{Option, none, some}

abbrev pub ⊤ : Type 0
⊤ = Unit

pub data Result (E A : Type 0) : Type 0 where
  ok : A → Result E A
  err : E → Result E A

infixl 5 ◌>>=◌ ◌>>◌
abbrev pub ◌>>=◌ : {E A B : Type 0} → Result E A → (A → Result E B) → Result E B
ok a >>= f = f a
err e >>= f = err e

abbrev pub ◌>>◌ : {E B : Type 0} → Result E ⊤ → Result E B → Result E B
m >> k = m >>= λ _. k

-- `if b: raise e`
abbrev pub raise_if : {E : Type 0} → Bool → E → Result E ⊤
raise_if true e = err e
raise_if false e = ok tt

-- The value of an optional, or an error where it is missing.
abbrev pub or_raise : {E A : Type 0} → Option A → E → Result E A
or_raise none e = err e
or_raise (some a) e = ok a

-- What returns has returned all along.
pub ok_then :
    {E A : Type 0} (m : Result E ⊤) (k : Result E A) (a : A)
    → m >> k ≡ ok a
    → (m ≡ ok tt) × (k ≡ ok a)
ok_then (ok tt) k a h = (refl, h)
ok_then (err e) k a h = cc

pub ok_bind :
    {E A B : Type 0} (m : Result E A) (k : A → Result E B) (b : B)
    → m >>= k ≡ ok b
    → (a : A) × (m ≡ ok a) × (k a ≡ ok b)
ok_bind (ok a) k b h = (a, refl, h)
ok_bind (err e) k b h = cc

abbrev value_or : {E A : Type 0} → A → Result E A → A
value_or d (ok a) = a
value_or d (err e) = d

pub ok_inj : {E A : Type 0} {a b : A} (r : Result E A) → r ≡ ok a → r ≡ ok b → a ≡ b
ok_inj {E} {A} {a} r h k = ap (λ (x : Result E A). value_or a x) (sym h ∙ k)
