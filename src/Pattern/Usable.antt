-- ===== src/Pattern/Usable.antt =====
-- What every signature that is kept has: an anchor to find it by, and an offset that means
-- something for its kind of file.
pub mod Piece
use blackshard.Prelude.{
  ℕ, ◌+◌, ◌≤◌, ◌<◌, ◌≡◌, refl, sym, ap, subst, ◌∙◌, ◌≢◌, inl, inr, Bool, true, false, not, ◌&&◌,
  List, [], ◌∷◌, Option, none, some, ltb, leb, ◌==◌, if◌then◌else◌, map, length, get_elem?, take,
  drop, arith, Bool-cases, Option-cases, All,
}
use blackshard.Prelude.Bytes.{Bytes, to_ascii_lowercase}
use blackshard.Prelude.Results.{Result, ok, error, Yields, Yields-bind}
use blackshard.Pattern.{Target, pe, Base, Offset, Wanted, Part, bytes, gap, Signature}
use blackshard.Prelude.Text.{split, trim}
use blackshard.Pattern.Offsets.{parse_offset}
use blackshard.Pattern.Hex.{parse_hex}
use blackshard.Pattern.Anchor.{Best, best_anchor, min_anchor, min_fixed_bytes}
use blackshard.Pattern.Anchor.Window.{IsAnchor, best_anchor-IsAnchor}
use blackshard.Pattern.Lines.{
  Parsed, kept, unsupported, too_weak, fixed_bytes_of, new_signature, build_signature,
  build_from_parts, needs_pe, is_pe, with_offset, with_target, parse_fields, parse_line, target_of,
}

pub record IsUsable (s : Signature) : Type 0 where
  pub anchored : IsAnchor s.parts s.anchor_part s.anchor_start s.anchor_len
  pub fits_target : needs_pe s.offset.base ≡ true → s.target ≡ pe

-- What holds of a signature if it is kept.
abbrev pub Kept : (Signature → Type 0) → Parsed → Type 0
Kept P (kept s) = P s
Kept P (unsupported reason) = Unit {0}
Kept P too_weak = Unit {0}

-- A kept signature is usable, has as many fixed bytes as was asked for, and has the given kind.
abbrev pub IsBuilt : Bytes → Target → Offset → ℕ → Signature → Type 0
IsBuilt name target offset least s =
    IsAnchor s.parts s.anchor_part s.anchor_start s.anchor_len
    × (least ≤ fixed_bytes_of s.parts)
    × (s.name ≡ name)
    × (s.target ≡ target)
    × (s.offset ≡ offset)
    × (s.piece ≡ false)

build_from_parts-IsBuilt :
    (name : Bytes) (target : Target) (offset : Offset) (parts : List Part) (least : ℕ)
    → Kept (IsBuilt name target offset least) (build_from_parts name target offset parts least)
build_from_parts-IsBuilt name target offset parts least =
    elim (Bool-cases (ltb (fixed_bytes_of parts) least)) [
      | inl weak ↦ rw weak tt
      | inr strong ↦ elim (Option-cases (best_anchor parts)) [
        | inl e ↦ rw (strong, e) tt
        | inr (best, e) ↦
            rw (strong, e) (best_anchor-IsAnchor parts best e, ground arith, refl, refl, refl, refl)
      ]
    ]

pub build_signature-IsBuilt :
    (name : Bytes) (target : Target) (offset : Offset) (hex : Bytes) (least : ℕ)
    → Kept (IsBuilt name target offset least) (build_signature name target offset hex least)
unfolding build_signature
build_signature-IsBuilt name target offset hex least = elim (Option-cases (parse_hex hex)) [
  | inl e ↦ rw (e, build_signature) tt
  | inr (parts, e) ↦
      rw (e, build_signature) (build_from_parts-IsBuilt name target offset parts least)
]

pub Kept-weaken :
    (P Q : Signature → Type 0) (p : Parsed) → ((s : Signature) → P s → Q s) → Kept P p → Kept Q p
Kept-weaken P Q (kept s) f h = f s h
Kept-weaken P Q (unsupported reason) f h = tt
Kept-weaken P Q too_weak f h = tt

is_pe-eq : (target : Target) → is_pe target ≡ true → target ≡ pe
is_pe-eq Target.any h = cc
is_pe-eq Target.pe h = refl
is_pe-eq Target.ole2 h = cc
is_pe-eq Target.elf h = cc
is_pe-eq Target.pdf h = cc

-- The guard on offsets of a PE.
pub fits :
    (base : Base) (target : Target)
    → (needs_pe base && not (is_pe target)) ≡ false
    → needs_pe base ≡ true
    → target ≡ pe
fits base target h k = is_pe-eq target (ground arith)

pub IsBuilt-IsUsable :
    (name : Bytes) (target : Target) (offset : Offset) (least : ℕ) (s : Signature)
    → (needs_pe offset.base && not (is_pe target)) ≡ false
    → IsBuilt name target offset least s
    → IsUsable s
IsBuilt-IsUsable name target offset least s h (anchored, fixed, n, t, o, p) = record {
  anchored = anchored;
  fits_target =
      λ k. t ∙ fits offset.base target h (ap (λ (at : Offset). needs_pe at.base) (sym o) ∙ k);
}

-- A body signature that is kept.
abbrev pub IsBody : Signature → Type 0
IsBody s =
    IsUsable s × (min_fixed_bytes ≤ fixed_bytes_of s.parts) × (s.name ≢ []) × (s.piece ≡ false)

with_offset-IsBody :
    (name : Bytes) (target : Target) (offset : Option Offset) (hex : Bytes)
    → name ≢ []
    → Kept IsBody (with_offset name target offset hex)
with_offset-IsBody name target none hex n = tt
with_offset-IsBody name target (some offset) hex n =
    elim (Bool-cases (needs_pe offset.base && not (is_pe target))) [
      | inl wrong ↦ rw wrong tt
      | inr right ↦ rw right (
          Kept-weaken (IsBuilt name target offset min_fixed_bytes) IsBody
            (build_signature name target offset (trim hex) min_fixed_bytes)
            (λ s b. (
              IsBuilt-IsUsable name target offset min_fixed_bytes s right b,
              b.1,
              λ e. n (sym b.2 ∙ e),
              b.5,
            ))
            (build_signature-IsBuilt name target offset (trim hex) min_fixed_bytes))
    ]

with_target-IsBody :
    (name : Bytes) (target : Option Target) (offset hex : Bytes)
    → name ≢ []
    → Kept IsBody (with_target name target offset hex)
with_target-IsBody name none offset hex n = tt
with_target-IsBody name (some target) offset hex n =
    with_offset-IsBody name target (parse_offset (trim offset)) hex n

parse_fields-IsBody : (fields : List Bytes) → Kept IsBody (parse_fields fields)
parse_fields-IsBody [] = tt
parse_fields-IsBody (name ∷ []) = tt
parse_fields-IsBody (name ∷ target ∷ []) = tt
parse_fields-IsBody (name ∷ target ∷ offset ∷ []) = tt
parse_fields-IsBody (name ∷ target ∷ offset ∷ hex ∷ more) =
    elim (Bool-cases (length (trim name) == 0)) [
      | inl empty ↦ rw empty tt
      | inr named ↦ rw named (
          with_target-IsBody (trim name) (target_of (trim target)) offset hex
            (λ e. ground (arith, ap (length {A = ℕ}) e)))
    ]

-- A line that is kept gives a signature with a name and eight fixed bytes or more, to be found by
-- a window of fixed bytes, and with an offset of a PE only if it is for a PE.
pub parse_line-IsBody : (line : Bytes) → Kept IsBody (parse_line line)
unfolding parse_line
parse_line-IsBody line = parse_fields-IsBody (split b':' (trim line))
