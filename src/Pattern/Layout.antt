-- ===== src/Pattern/Layout.antt =====
-- src/clamdb/pattern.rs: `PeLayout::read`, where the parts of a PE sit in the file. Sums of 32-bit
-- fields fit a 64-bit `usize`.
use blackshard.Prelude.{
  ℕ, zero, suc, ◌+◌, ◌*◌, min, max, Bool, true, false, ◌&&◌, [], ◌∷◌, ◌++◌, Option, none, some, ltb,
  leb, if◌then◌else◌, ◌-◌, length, take, drop,
}
use blackshard.Prelude.Bytes.{Bytes, bytes_eq}
use blackshard.Prelude.Options.{◌>>=◌, guard, usize_max}
use blackshard.Pattern.{PeLayout}

unfoldable pub little_endian : Bytes → ℕ
little_endian [] = 0
little_endian (b ∷ s) = b + 256 * little_endian s

-- `text.get(at..at + len)`
unfoldable pub bytes_at : Bytes → ℕ → ℕ → Option Bytes
bytes_at text at len = guard (leb (at + len) (length text)) (take len (drop at text))

abbrev pub u16_at : Bytes → ℕ → Option ℕ
u16_at text at = do raw ← bytes_at text at 2; some (little_endian raw)

abbrev pub u32_at : Bytes → ℕ → Option ℕ
u32_at text at = do raw ← bytes_at text at 4; some (little_endian raw)

abbrev pub is_none : Option ℕ → Bool
is_none none = true
is_none (some _) = false

-- What one row of the section table does to the layout read so far.
abbrev pub add_section : ℕ → ℕ → ℕ → ℕ → ℕ → PeLayout → PeLayout
add_section entry_rva virtual_size virtual_address raw_size raw_pointer layout = record {
  sections = layout.sections ++ (raw_pointer ∷ []);
  entry_point =
      if is_none layout.entry_point
        && leb virtual_address entry_rva
        && ltb entry_rva (min (virtual_address + max virtual_size raw_size) usize_max)
      then some (raw_pointer + (entry_rva - virtual_address))
      else layout.entry_point;
}

-- The loop over the rows of the table, with the number of rows left and the place of the next.
unfoldable pub read_sections : Bytes → ℕ → ℕ → ℕ → PeLayout → Option PeLayout
unfolding little_endian bytes_at
read_sections text entry_rva zero at layout = some layout
read_sections text entry_rva (suc rows) at layout = do
  virtual_size ← u32_at text (at + 8)
  virtual_address ← u32_at text (at + 12)
  raw_size ← u32_at text (at + 16)
  raw_pointer ← u32_at text (at + 20)
  read_sections text entry_rva rows (at + 40)
      (add_section entry_rva virtual_size virtual_address raw_size raw_pointer layout)

abbrev pub no_layout : PeLayout
no_layout = record { entry_point = none; sections = [] }

abbrev pub read_pe_header : Bytes → Option PeLayout
read_pe_header text = do
  header ← u32_at text 0x3c
  magic ← bytes_at text header 4
  here ← guard (bytes_eq magic (b'P' ∷ b'E' ∷ 0 ∷ 0 ∷ [])) header
  section_count ← u16_at text (here + 6)
  optional_size ← u16_at text (here + 20)
  entry_rva ← u32_at text (here + 24 + 16)
  read_sections text entry_rva (min section_count 96) (here + 24 + optional_size) no_layout

abbrev pub or_no_layout : Option PeLayout → PeLayout
or_no_layout none = no_layout
or_no_layout (some layout) = layout

unfoldable pub read_layout : Bytes → PeLayout
unfolding read_sections little_endian bytes_at bytes_eq
read_layout text = or_no_layout (read_pe_header text)
