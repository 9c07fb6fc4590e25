-- ===== src/Prelude/Options.antt =====
-- Rust's `Option` with `?` as the sequencing of two steps, and the checked operations of `usize`.
use Prim.Native.Nat.{ℕ, ◌+◌, ◌-◌, ◌^◌}
use mathlib.Core.Path.{◌≡◌, refl}
use mathlib.Core.Option.{Option, none, some}
use mathlib.Core.Bool.{Bool, true, false}
use blackshard.Prelude.Tests.{leb, if◌then◌else◌}

infixl 5 ◌>>=◌
abbrev pub ◌>>=◌ : {A B : Type 0} → Option A → (A → Option B) → Option B
o >>= f = elim o [ none ↦ none | some a ↦ f a ]

-- Inversion of a bind that gives a value.
pub >>=-eq-some :
    {A B : Type 0} (o : Option A) (f : A → Option B) {b : B}
    → (o >>= f) ≡ some b
    → (a : A) × (o ≡ some a) × (f a ≡ some b)
>>=-eq-some none f h = cc
>>=-eq-some (some a) f h = (a, refl, h)

-- `Some` under the condition, `None` otherwise.
abbrev pub guard : {A : Type 0} → Bool → A → Option A
guard true a = some a
guard false a = none

-- `usize::MAX` on a 64-bit machine.
unfoldable pub usize_max : ℕ
usize_max = 2 ^ 64 - 1

-- `usize::checked_sub`
abbrev pub checked_sub : ℕ → ℕ → Option ℕ
checked_sub a b = if leb b a then some (a - b) else none

-- `usize::checked_add`
abbrev pub checked_add : ℕ → ℕ → Option ℕ
checked_add a b = if leb (a + b) usize_max then some (a + b) else none
