-- ===== src/Prelude/Results.antt =====
-- Rust's `Result`: a value or an error, with `?` as the sequencing of two steps.
use mathlib.Core.Path.{◌≡◌, refl}
use mathlib.Core.Option.{Option, none, some}

pub data Result (E A : Type 0) : Type 0 where
  ok : A → Result E A
  error : E → Result E A

infixl 5 ◌>>=◌
abbrev pub ◌>>=◌ : {E A B : Type 0} → Result E A → (A → Result E B) → Result E B
r >>= f = elim r [ ok a ↦ f a | error e ↦ error e ]

-- `ok_or`
abbrev pub ok_or : {E A : Type 0} → E → Option A → Result E A
ok_or e none = error e
ok_or e (some a) = ok a

-- The value has the one property, or the error has the other.
abbrev pub Yields : {E A : Type 0} → (A → Type 0) → (E → Type 0) → Result E A → Type 0
Yields P Q (ok a) = P a
Yields P Q (error e) = Q e

pub Yields-bind :
    {E A B : Type 0} (P : A → Type 0) (R : B → Type 0) (Q : E → Type 0) (r : Result E A)
    (f : A → Result E B)
    → Yields P Q r
    → ((a : A) → r ≡ ok a → P a → Yields R Q (f a))
    → Yields R Q (r >>= f)
Yields-bind P R Q (ok a) f h g = g a refl h
Yields-bind P R Q (error e) f h g = h

pub Yields-weaken :
    {E A : Type 0} (P R : A → Type 0) (Q : E → Type 0) (r : Result E A)
    → ((a : A) → P a → R a)
    → Yields P Q r
    → Yields R Q r
Yields-weaken P R Q (ok a) f h = f a h
Yields-weaken P R Q (error e) f h = h
