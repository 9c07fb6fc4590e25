-- ===== src/Prelude/Bytes.antt =====
-- Text as bytes, with the operations of `str` that the program uses on ASCII.
use Prim.Native.Nat.{ℕ, ◌+◌}
use Prim.Native.Char.{code}
use Prim.Native.String.{String}
use mathlib.Core.Bool.{Bool, true, false, ◌&&◌, ◌||◌}
use mathlib.Core.List.{List, [], ◌∷◌}
use mathlib.Core.Option.{Option, none, some}
use blackshard.Prelude.Tests.{leb, ◌==◌, if◌then◌else◌}

abbrev pub Bytes : Type 0
Bytes = List ℕ

-- The bytes of an ASCII literal.
abbrev pub codes : String → Bytes
codes String.[] = []
codes (String.◌∷◌ c s) = code c ∷ codes s

-- `u8::to_ascii_lowercase`
abbrev pub lower : ℕ → ℕ
lower c = if leb b'A' c && leb c b'Z' then c + 32 else c

-- `str::to_ascii_lowercase`
unfoldable pub to_ascii_lowercase : Bytes → Bytes
to_ascii_lowercase [] = []
to_ascii_lowercase (c ∷ s) = lower c ∷ to_ascii_lowercase s

-- `str::replace` of one byte by another.
unfoldable pub replace : ℕ → ℕ → Bytes → Bytes
replace a b [] = []
replace a b (c ∷ s) = (if c == a then b else c) ∷ replace a b s

unfoldable pub bytes_eq : Bytes → Bytes → Bool
bytes_eq [] [] = true
bytes_eq [] (_ ∷ _) = false
bytes_eq (_ ∷ _) [] = false
bytes_eq (c ∷ s) (d ∷ t) = c == d && bytes_eq s t

-- `str::starts_with`
unfoldable pub starts_with : Bytes → Bytes → Bool
starts_with s [] = true
starts_with [] (d ∷ t) = false
starts_with (c ∷ s) (d ∷ t) = c == d && starts_with s t

-- `str::contains`
unfoldable pub contains : Bytes → Bytes → Bool
contains [] t = starts_with [] t
contains (c ∷ s) t = starts_with (c ∷ s) t || contains s t

-- What follows the last occurrence of the byte, as in `rsplit_once`.
unfoldable pub after_last : ℕ → Bytes → Option Bytes
after_last b [] = none
after_last b (c ∷ s) = elim (after_last b s) [
  | some t ↦ some t
  | none ↦ if c == b then some s else none
]

-- Whether the text is one of the listed ones.
unfoldable pub is_one_of : Bytes → List String → Bool
is_one_of s [] = false
is_one_of s (t ∷ ts) = bytes_eq s (codes t) || is_one_of s ts

-- Whether the text contains one of the listed ones.
unfoldable pub contains_one_of : Bytes → List String → Bool
contains_one_of s [] = false
contains_one_of s (t ∷ ts) = contains s (codes t) || contains_one_of s ts
