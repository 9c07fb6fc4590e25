-- ===== src/Pattern/Offsets.antt =====
-- src/clamdb/pattern.rs: `parse_offset`, the texts `*`, `n`, `EOF-n`, `EP+n`, `EP-n`, `SL+n` and
-- `Sx+n`, each with an optional shift.
use blackshard.Prelude.{
  ℕ, ◌+◌, ◌-◌, ◌^◌, Bool, true, false, not, ◌&&◌, ◌||◌, Option, none, some, ltb, ◌==◌,
  if◌then◌else◌,
}
use Prim.Native.String.{String}
use blackshard.Prelude.Int.{ℤ, pos, negsuc}
use blackshard.Prelude.Bytes.{Bytes, codes, bytes_eq}
use blackshard.Prelude.Options.{◌>>=◌, guard, usize_max}
use blackshard.Prelude.Text.{split_once, strip_prefix, parse_unsigned, parse_isize}
use blackshard.Pattern.{Base, anywhere, absolute, from_end, entry_point, section, Offset}

abbrev pub parse_usize : Bytes → Option ℕ
parse_usize = parse_unsigned usize_max

-- `-delta`; the least `isize` is its own negation in a release build.
abbrev pub negate : ℤ → ℤ
negate (pos n) = if n == 0 then pos 0 else negsuc (n - 1)
negate (negsuc n) = if n + 1 == 2 ^ 63 then negsuc n else pos (n + 1)

abbrev pub section_at : Option ℕ → Bytes → Option Base
section_at index text = do delta ← parse_usize text; some (section index delta)

-- What follows the `S` of `Sx+n`.
abbrev pub numbered_section : Bytes → Option Base
numbered_section text = do
  (index, delta) ← split_once b'+' text
  index ← parse_usize index
  section_at (some index) delta

-- The chain of `if let Some(…) = position.strip_prefix(…)`: the first prefix that fits is taken.
abbrev pub when_prefix : String → Bytes → (Bytes → Option Base) → Option Base → Option Base
when_prefix prefix text found otherwise = elim (strip_prefix (codes prefix) text) [
  | some rest ↦ found rest
  | none ↦ otherwise
]

unfoldable pub parse_base : Bytes → Option Base
unfolding strip_prefix bytes_eq parse_unsigned parse_isize
parse_base position =
    if bytes_eq position (codes "*")
    then some anywhere
    else when_prefix "EOF-" position (λ n. do distance ← parse_usize n; some (from_end distance))
        (when_prefix "EP+" position (λ n. do delta ← parse_isize n; some (entry_point delta))
          (when_prefix "EP-" position
            (λ n. do delta ← parse_isize n; some (entry_point (negate delta)))
            (when_prefix "SL+" position (section_at none) (
              when_prefix "S" position numbered_section
                (do at ← parse_usize position; some (absolute at))))))

abbrev pub is_anywhere : Base → Bool
is_anywhere anywhere = true
is_anywhere _ = false

abbrev pub position_and_shift : Bytes → Option (Bytes × ℕ)
position_and_shift text = elim (split_once b',' text) [
  | some (position, shift) ↦ do n ← parse_usize shift; some (position, n)
  | none ↦ some (text, 0)
]

unfoldable pub parse_offset : Bytes → Option Offset
unfolding parse_base split_once
parse_offset text = do
  (position, shift) ← position_and_shift text
  base ← parse_base position
  guard (not ((is_anywhere base && not (shift == 0)) || ltb (2 ^ 16) shift))
      (record { base = base; shift = shift })
