-- ===== src/Prelude/Text.antt =====
-- More of what `str` gives on ASCII text: splitting, trimming and numbers.
use Prim.Native.Nat.{ℕ, ◌+◌, ◌-◌, ◌*◌, ◌^◌}
use mathlib.Core.Bool.{Bool, ◌&&◌, ◌||◌}
use mathlib.Core.List.{List, [], ◌∷◌, reverse}
use mathlib.Core.Option.{Option, none, some}
use blackshard.Prelude.Tests.{leb, ◌==◌, if◌then◌else◌}
use blackshard.Prelude.Options.{◌>>=◌, guard}
use blackshard.Prelude.Int.{ℤ, pos, negsuc}
use blackshard.Prelude.Bytes.{Bytes}

-- `str::split_once` at a byte.
unfoldable pub split_once : ℕ → Bytes → Option (Bytes × Bytes)
split_once b [] = none
split_once b (c ∷ s) =
    if c == b
    then some ([], s)
    else elim (split_once b s) [ none ↦ none | some (s, t) ↦ some (c ∷ s, t) ]

-- Puts a byte in front of the first field.
abbrev pub to_first : ℕ → List Bytes → List Bytes
to_first c [] = (c ∷ []) ∷ []
to_first c (field ∷ fields) = (c ∷ field) ∷ fields

-- `str::split` at a byte, collected: always one field at least.
unfoldable pub split : ℕ → Bytes → List Bytes
split b [] = [] ∷ []
split b (c ∷ s) = let fields = split b s in if c == b then [] ∷ fields else to_first c fields

-- `str::strip_prefix`
unfoldable pub strip_prefix : Bytes → Bytes → Option Bytes
strip_prefix [] s = some s
strip_prefix (d ∷ t) [] = none
strip_prefix (d ∷ t) (c ∷ s) = if c == d then strip_prefix t s else none

abbrev pub is_whitespace : ℕ → Bool
is_whitespace c = (leb 9 c && leb c 13) || c == 32

unfoldable pub trim_start : Bytes → Bytes
trim_start [] = []
trim_start (c ∷ s) = if is_whitespace c then trim_start s else c ∷ s

-- `str::trim`
unfoldable pub trim : Bytes → Bytes
unfolding trim_start
trim s = reverse (trim_start (reverse (trim_start s)))

abbrev pub digit_of : ℕ → Option ℕ
digit_of c = guard (leb b'0' c && leb c b'9') (c - b'0')

unfoldable pub digits_from : ℕ → Bytes → Option ℕ
digits_from n [] = some n
digits_from n (c ∷ s) = do digit ← digit_of c; digits_from (n * 10 + digit) s

-- A number of one digit at least, which is not above the greatest.
abbrev pub digits : ℕ → Bytes → Option ℕ
digits greatest [] = none
digits greatest (c ∷ s) = do n ← digits_from 0 (c ∷ s); guard (leb n greatest) n

-- `parse` of an unsigned type with the given greatest value: a plus sign is allowed.
unfoldable pub parse_unsigned : ℕ → Bytes → Option ℕ
unfolding digits_from
parse_unsigned greatest [] = none
parse_unsigned greatest (c ∷ s) = digits greatest (if c == b'+' then s else c ∷ s)

abbrev pub negated : ℕ → ℤ
negated n = if n == 0 then pos 0 else negsuc (n - 1)

-- `parse::<isize>`
unfoldable pub parse_isize : Bytes → Option ℤ
unfolding parse_unsigned
parse_isize [] = none
parse_isize (c ∷ s) =
    if c == b'-'
    then (do n ← digits (2 ^ 63) s; some (negated n))
    else (do n ← parse_unsigned (2 ^ 63 - 1) (c ∷ s); some (pos n))
