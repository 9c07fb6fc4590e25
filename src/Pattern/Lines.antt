-- ===== src/Pattern/Lines.antt =====
-- src/clamdb/pattern.rs: `parse_line` and `build_signature`, from a line of a `.ndb` file to a
-- signature or the reason why it is not kept.
use Prim.Native.String.{String}
use blackshard.Prelude.{
  ℕ, suc, ◌+◌, Bool, true, false, not, ◌&&◌, ◌||◌, List, [], ◌∷◌, Option, none, some, ltb, ◌==◌,
  if◌then◌else◌, length,
}
use blackshard.Prelude.Bytes.{Bytes, codes, bytes_eq, contains}
use blackshard.Prelude.Text.{split, trim}
use blackshard.Pattern.{
  Target, any, pe, ole2, elf, pdf, Base, entry_point, section, Offset, Wanted, Part, bytes, gap,
  Signature,
}
use blackshard.Pattern.Offsets.{parse_offset}
use blackshard.Pattern.Hex.{parse_hex}
use blackshard.Pattern.Anchor.{Best, best_anchor, min_fixed_bytes}

pub data Parsed : Type 0 where
  kept : Signature → Parsed
  unsupported : String → Parsed
  too_weak : Parsed

-- `bytes.iter().flatten().count()`
unfoldable pub count_fixed : List Wanted → ℕ
count_fixed [] = 0
count_fixed (none ∷ run) = count_fixed run
count_fixed (some _ ∷ run) = suc (count_fixed run)

abbrev pub fixed_in_part : Part → ℕ
fixed_in_part (bytes run) = count_fixed run
fixed_in_part (gap _ _) = 0

unfoldable pub fixed_bytes_of : List Part → ℕ
unfolding count_fixed
fixed_bytes_of [] = 0
fixed_bytes_of (part ∷ parts) = fixed_in_part part + fixed_bytes_of parts

-- `text.replace("??", "")`
unfoldable pub without_wildcards : Bytes → Bytes
without_wildcards [] = []
without_wildcards (c ∷ []) = c ∷ []
without_wildcards (c ∷ d ∷ text) =
    let shorter = without_wildcards text in
    let next = without_wildcards (d ∷ text) in if c == b'?' && d == b'?' then shorter else c ∷ next

unfoldable pub hex_reason : Bytes → String
unfolding contains without_wildcards
hex_reason text =
    if contains text (codes "!")
    then "hex: negated alternatives"
    else if contains text (codes "(")
    then "hex: alternatives (a|b)"
    else if contains text (codes "[")
    then "hex: byte-count ranges [n-m]"
    else if contains text (codes "?") && not (contains (without_wildcards text) (codes "?"))
    then "hex: other wildcard"
    else if contains text (codes "?")
    then "hex: nibble wildcards (a?, ?a)"
    else if contains text (codes "{") || contains text (codes "*")
    then "hex: gap form"
    else "hex: other"

abbrev pub new_signature : Bytes → Target → Offset → List Part → Best → Bool → Bool → Signature
new_signature name target offset parts best fold fullword = record {
  name = name;
  target = target;
  offset = offset;
  parts = parts;
  anchor_part = best.part;
  anchor_start = best.start;
  anchor_len = best.width;
  piece = false;
  fold = fold;
  fullword = fullword;
}

-- The part of `build_signature` that follows the parsing of the hex text.
abbrev pub build_from_parts : Bytes → Target → Offset → List Part → ℕ → Parsed
build_from_parts name target offset parts min_fixed =
    if ltb (fixed_bytes_of parts) min_fixed then too_weak else elim (best_anchor parts) [
      | none ↦ too_weak
      | some best ↦ kept (new_signature name target offset parts best false false)
    ]

unfoldable pub build_signature : Bytes → Target → Offset → Bytes → ℕ → Parsed
unfolding fixed_bytes_of hex_reason
build_signature name target offset hex min_fixed = elim (parse_hex hex) [
  | none ↦ unsupported (hex_reason hex)
  | some parts ↦ build_from_parts name target offset parts min_fixed
]

-- The target types that are understood.
unfoldable pub target_of : Bytes → Option Target
unfolding bytes_eq
target_of text =
    if bytes_eq text (codes "0")
    then some any
    else if bytes_eq text (codes "1")
    then some pe
    else if bytes_eq text (codes "2")
    then some ole2
    else if bytes_eq text (codes "6")
    then some elf
    else if bytes_eq text (codes "10")
    then some pdf
    else none

abbrev pub needs_pe : Base → Bool
needs_pe (entry_point _) = true
needs_pe (section _ _) = true
needs_pe _ = false

abbrev pub is_pe : Target → Bool
is_pe pe = true
is_pe _ = false

abbrev pub with_offset : Bytes → Target → Option Offset → Bytes → Parsed
with_offset name target none hex = unsupported "ndb: offset form"
with_offset name target (some offset) hex =
    if needs_pe offset.base && not (is_pe target)
    then unsupported "ndb: PE offset on a non-PE target"
    else build_signature name target offset (trim hex) min_fixed_bytes

abbrev pub with_target : Bytes → Option Target → Bytes → Bytes → Parsed
with_target name none offset hex = unsupported "ndb: target type (text, mail, graphics, ...)"
with_target name (some target) offset hex = with_offset name target (parse_offset (trim offset)) hex

-- The four fields that are used; a line may have more.
abbrev pub parse_fields : List Bytes → Parsed
parse_fields (name ∷ target ∷ offset ∷ hex ∷ _) =
    if length (trim name) == 0
    then unsupported "ndb: malformed line"
    else with_target (trim name) (target_of (trim target)) offset hex
parse_fields _ = unsupported "ndb: malformed line"

unfoldable pub parse_line : Bytes → Parsed
unfolding split trim target_of parse_offset build_signature
parse_line line = parse_fields (split b':' (trim line))
