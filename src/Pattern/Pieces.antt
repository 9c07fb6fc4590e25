-- ===== src/Pattern/Pieces.antt =====
-- src/clamdb/pattern.rs: the target block and the pieces of a `.ldb` line. What the source returns
-- as an error is the `Parsed` that says why the piece is not kept.
use blackshard.Prelude.{
  ℕ, ◌*◌, ◌/◌, ◌%◌, ◌^◌, ◌-◌, Bool, true, false, not, ◌&&◌, ◌||◌, List, [], ◌∷◌, ◌++◌, Option, none,
  some, ltb, leb, ◌==◌, if◌then◌else◌, length, map,
}
use blackshard.Prelude.Bytes.{Bytes, codes, bytes_eq, contains, starts_with}
use blackshard.Prelude.Options.{guard}
use blackshard.Prelude.Options.{◌>>=◌ as and_then}
use blackshard.Prelude.Results.{Result, ok, error, ◌>>=◌}
use blackshard.Prelude.Text.{split, split_once, trim, parse_unsigned}
use blackshard.Pattern.{Target, anywhere, Offset, Wanted, Part, bytes, Signature}
use blackshard.Pattern.Offsets.{parse_offset}
use blackshard.Pattern.Hex.{hex_byte, max_signature_bytes}
use blackshard.Pattern.Anchor.{best_anchor, min_anchor}
use blackshard.Pattern.Lines.{
  Parsed, kept, unsupported, too_weak, fixed_bytes_of, new_signature, build_signature, target_of,
  needs_pe, is_pe,
}

-- Every second byte of the run is a zero, the first of them at the index 1.
unfoldable pub zeros_at_odd : List Wanted → Bool
zeros_at_odd [] = true
zeros_at_odd (_ ∷ []) = true
zeros_at_odd (_ ∷ none ∷ run) = false
zeros_at_odd (_ ∷ some b ∷ run) = b == 0 && zeros_at_odd run

unfoldable pub fixed_bytes_narrow : List Part → ℕ
unfolding zeros_at_odd fixed_bytes_of
fixed_bytes_narrow (bytes run ∷ parts) =
    let fixed = fixed_bytes_of (bytes run ∷ parts) in
    if leb 2 (length run) && zeros_at_odd run then fixed / 2 else fixed
fixed_bytes_narrow parts = fixed_bytes_of parts

abbrev pub SizeRange : Type 0
SizeRange = Option (ℕ × ℕ)

abbrev pub max_u64 : ℕ
max_u64 = 2 ^ 64 - 1

abbrev pub size_range : Bytes → Option (ℕ × ℕ)
size_range value = and_then (split_once b'-' value) (λ ends.
    and_then (parse_unsigned max_u64 ends.0)
      (λ least. and_then (parse_unsigned max_u64 ends.1) (λ most. some (least, most))))

abbrev pub Block : Type 0
Block = Option Target × SizeRange

-- One entry `key:value` of the block, after those before it.
abbrev pub block_entry : Bytes → Bytes → Block → Option Block
block_entry key value (target, size) =
    if bytes_eq key (codes "Target")
    then and_then (target_of value) (λ t. some (some t, size))
    else if bytes_eq key (codes "FileSize")
    then and_then (size_range value) (λ r. some (target, some r))
    else guard (bytes_eq key (codes "Engine")) (target, size)

unfoldable pub block_entries : List Bytes → Block → Option Block
unfolding split_once trim bytes_eq target_of parse_unsigned
block_entries [] block = some block
block_entries (entry ∷ entries) block = and_then (split_once b':' entry) (λ (kv : Bytes × Bytes).
    and_then (block_entry (trim kv.0) (trim kv.1) block) (λ next. block_entries entries next))

unfoldable pub parse_target_block : Bytes → Option (Target × SizeRange)
unfolding block_entries split
parse_target_block text =
    and_then (block_entries (split b',' text) (none, none))
      (λ (block : Block). and_then block.0 (λ target. some (target, block.1)))

unfoldable pub hex_pairs : Bytes → Option Bytes
unfolding hex_byte
hex_pairs [] = some []
hex_pairs (c ∷ []) = none
hex_pairs (c ∷ d ∷ text) =
    and_then (hex_byte c d) (λ value. and_then (hex_pairs text) (λ rest. some (value ∷ rest)))

unfoldable pub parse_literal : Bytes → Option Bytes
unfolding hex_pairs
parse_literal hex =
    if length hex == 0 || not (length hex % 2 == 0) || ltb (max_signature_bytes * 2) (length hex)
    then none
    else hex_pairs hex

pub record Modifiers : Type 0 where
  pub fold : Bool
  pub wide : Bool
  pub ascii : Bool
  pub fullword : Bool

abbrev pub add_modifier : ℕ → Modifiers → Result Parsed Modifiers
add_modifier c m =
    if c == b'i'
    then ok (record m { fold = true })
    else if c == b'w'
    then ok (record m { wide = true })
    else if c == b'a'
    then ok (record m { ascii = true })
    else if c == b'f'
    then ok (record m { fullword = true })
    else error (unsupported "ldb piece: modifier other than i, w, a, f")

unfoldable pub read_modifiers : Bytes → Modifiers → Result Parsed Modifiers
read_modifiers [] m = ok m
read_modifiers (c ∷ text) m = do next ← add_modifier c m; read_modifiers text next

-- A signature that is kept, or why it is not.
abbrev pub one_signature : Parsed → (Signature → Signature) → Result Parsed (List Signature)
one_signature (kept s) change = ok (change s ∷ [])
one_signature (unsupported reason) change = error (unsupported reason)
one_signature too_weak change = error too_weak

-- `literal.iter().flat_map(|byte| [*byte, 0])`
unfoldable pub widen : Bytes → Bytes
widen [] = []
widen (c ∷ s) = c ∷ 0 ∷ widen s

-- The forms of a literal: `w` alone is wide only, `wa` is both, no `w` is as written.
abbrev pub forms_of : Modifiers → Bytes → List Bytes
forms_of m literal =
    (if not m.wide || m.ascii then literal ∷ [] else [])
    ++ (if m.wide then widen literal ∷ [] else [])

unfoldable pub build_forms :
    Bytes → Target → Offset → Modifiers → List Bytes → Result Parsed (List Signature)
build_forms name target offset m [] = ok []
build_forms name target offset m (form ∷ forms) = elim (best_anchor (bytes (map some form) ∷ [])) [
  | none ↦ error too_weak
  | some best ↦ do
    rest ← build_forms name target offset m forms
    ok (new_signature name target offset (bytes (map some form) ∷ []) best m.fold m.fullword ∷ rest)
]

abbrev pub with_literal :
    Bytes → Target → Offset → Bytes → Modifiers → Option Bytes → Result Parsed (List Signature)
with_literal name target offset hex m none =
    if m.wide
    then error (unsupported "ldb piece: wide modifier on a pattern with wildcards")
    else one_signature (build_signature name target offset hex min_anchor)
        (λ s. record s { fold = m.fold; fullword = m.fullword })
with_literal name target offset hex m (some literal) =
    if ltb (length literal) min_anchor
    then error too_weak
    else build_forms name target offset m (forms_of m literal)

abbrev pub with_modifiers :
    Bytes → Target → Offset → Bytes → Option Bytes → Result Parsed (List Signature)
with_modifiers name target offset hex none =
    one_signature (build_signature name target offset hex min_anchor) (λ s. s)
with_modifiers name target offset hex (some modifiers) = do
  m ←
      read_modifiers modifiers
        (record { fold = false; wide = false; ascii = false; fullword = false })
  if m.wide && m.fullword
      then error (unsupported "ldb piece: fullword on wide text")
      else with_literal name target offset hex m (parse_literal hex)

-- The body and the modifiers of a piece, at the first `::`.
unfoldable pub split_modifiers : Bytes → Bytes × Option Bytes
split_modifiers [] = ([], none)
split_modifiers (c ∷ []) = (c ∷ [], none)
split_modifiers (c ∷ d ∷ text) =
    let (body, modifiers) = split_modifiers (d ∷ text) in
    if c == b':' && d == b':' then ([], some text) else (c ∷ body, modifiers)

-- The offset and the hex text of a piece's body.
abbrev pub piece_offset : Bytes → Result Parsed (Offset × Bytes)
piece_offset body = elim (split_once b':' body) [
  | none ↦ ok (record { base = anywhere; shift = 0 }, body)
  | some (offset, hex) ↦ elim (parse_offset offset) [
    | none ↦ error (unsupported "ldb piece: offset form")
    | some at ↦ ok (at, hex)
  ]
]

abbrev pub parse_body : Bytes → Target → Bytes × Option Bytes → Result Parsed (List Signature)
parse_body name target (body, modifiers) = do
  (offset, hex) ← piece_offset body
  if needs_pe offset.base && not (is_pe target)
      then error (unsupported "ldb piece: PE offset on a non-PE target")
      else with_modifiers name target offset hex modifiers

unfoldable pub parse_piece : Bytes → Target → Bytes → Result Parsed (List Signature)
unfolding starts_with contains split_once parse_offset split_modifiers build_signature
    read_modifiers parse_literal build_forms
parse_piece name target text =
    if length text == 0
    then error (unsupported "ldb: empty piece")
    else if starts_with text (codes "/")
    then error (unsupported "ldb piece: regular expression")
    else if contains text (codes "$")
    then error (unsupported "ldb piece: macro")
    else parse_body name target (split_modifiers text)
