-- ===== src/Pattern.antt =====
-- src/clamdb/pattern.rs: body signatures, where in a file they may start, and the layout of a PE
-- that their offsets refer to. Matching is in Pattern/Verify, the texts of signatures in
-- Pattern/Hex and Pattern/Offsets, and the choice of an anchor in Pattern/Anchor.
pub mod Verify
pub mod Matches
pub mod Right
pub mod Left
pub mod Found
pub mod Budget
pub mod Hex
pub mod Offsets
pub mod Anchor
pub mod Lines
pub mod Pieces
pub mod Usable
pub mod Set
pub mod Shared
pub mod Described
pub mod Sets
pub mod Layout
pub mod Users
pub mod Scan
pub mod Judge
mod Examples
use blackshard.Prelude.{
  ℕ, ◌+◌, ◌-◌, ◌*◌, min, Bool, true, false, ◌||◌, List, [], ◌∷◌, Option, none, some, leb, ltb,
  if◌then◌else◌, get_elem?, length, take,
}
use blackshard.Prelude.Int.{ℤ, pos, negsuc}
use blackshard.Prelude.Bytes.{Bytes, codes, starts_with, contains}
use blackshard.Prelude.Options.{◌>>=◌, checked_sub, checked_add}

pub data Target : Type 0 where
  any pe ole2 elf pdf : Target

-- For windows of four bytes, `any` over them is a search for the four bytes.
unfoldable pub applies_to : Target → Bytes → Bool
unfolding starts_with contains
applies_to any text = true
applies_to pe text = starts_with text (codes "MZ")
applies_to ole2 text = starts_with text (0xD0 ∷ 0xCF ∷ 0x11 ∷ 0xE0 ∷ 0xA1 ∷ 0xB1 ∷ 0x1A ∷ 0xE1 ∷ [])
applies_to elf text = starts_with text (0x7f ∷ codes "ELF")
applies_to pdf text = contains (take (min (length text) 1024) text) (codes "%PDF")

pub data Base : Type 0 where
  anywhere : Base
  absolute : ℕ → Base
  from_end : ℕ → Base
  entry_point : ℤ → Base
  section : Option ℕ → ℕ → Base

pub record Offset : Type 0 where
  pub base : Base
  pub shift : ℕ

pub record PeLayout : Type 0 where
  pub entry_point : Option ℕ
  pub sections : List ℕ

-- `usize::checked_add_signed`
abbrev pub checked_add_signed : ℕ → ℤ → Option ℕ
checked_add_signed a (pos n) = checked_add a n
checked_add_signed a (negsuc n) = checked_sub a (n + 1)

-- `slice::last`
unfoldable pub last : List ℕ → Option ℕ
last [] = none
last (x ∷ []) = some x
last (x ∷ y ∷ xs) = last (y ∷ xs)

abbrev pub section_start : PeLayout → Option ℕ → Option ℕ
section_start layout (some index) = get_elem? layout.sections index
section_start layout none = last layout.sections

unfoldable pub resolve : PeLayout → Base → ℕ → Option ℕ
unfolding last
resolve layout anywhere file_len = some 0
resolve layout (absolute position) file_len = some position
resolve layout (from_end distance) file_len = checked_sub file_len distance
resolve layout (Base.entry_point delta) file_len = do
  start ← layout.entry_point
  checked_add_signed start delta
resolve layout (section index delta) file_len = do
  start ← section_start layout index
  checked_add start delta

-- A byte to match, or `none` for any byte.
abbrev pub Wanted : Type 0
Wanted = Option ℕ

pub data Part : Type 0 where
  bytes : List Wanted → Part
  gap : ℕ → Option ℕ → Part

pub record Signature : Type 0 where
  pub name : Bytes
  pub target : Target
  pub offset : Offset
  pub parts : List Part
  pub anchor_part : ℕ
  pub anchor_start : ℕ
  pub anchor_len : ℕ
  pub piece : Bool
  pub fold : Bool
  pub fullword : Bool

pub record Context : Type 0 where
  pub text : Bytes
  pub file_size : ℕ
  pub truncated : Bool
  pub layout : PeLayout
