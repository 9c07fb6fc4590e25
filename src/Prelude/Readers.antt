-- ===== src/Prelude/Readers.antt =====
-- Readers of bytes that may fail: what is read, with the bytes after it.
use Prim.Native.Nat.{ℕ}
use mathlib.Core.Path.{◌≡◌, ap}
use mathlib.Core.List.{List}
use mathlib.Core.Option.{Option, none, some}

-- `none` is the source's `None`.
abbrev pub M : Type 0 → Type 0
M A = List ℕ → Option (A × List ℕ)

infixl 5 ◌>>=◌
abbrev pub ◌>>=◌ : {A B : Type 0} → M A → (A → M B) → M B
◌>>=◌ m f s = elim (m s) [ none ↦ none | some (a, s') ↦ f a s' ]

abbrev pub return : {A : Type 0} → A → M A
return a s = some (a, s)

abbrev pub fail : {A : Type 0} → M A
fail s = none

-- A first step that is known leaves the second.
pub bind_eq :
    {A B : Type 0} (m : M A) (f : A → M B) (s s' : List ℕ) (a : A)
    → m s ≡ some (a, s')
    → (m >>= f) s ≡ f a s'
bind_eq m f s s' a e = ap (λ r. elim r [ none ↦ none | some (b, t) ↦ f b t ]) e
