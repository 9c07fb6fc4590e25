-- ===== src/Cvd/Tar.antt =====
-- src/clamdb/cvd.rs: the `ustar` reader. A reader is any type with `read_full`; the directory that
-- is written to is the list of the files in it, the latest first, and whether `File::create`
-- succeeds is asked of the name.
pub mod Paths
pub mod Plain
pub mod Reader
pub mod Streams
pub mod Enough
use blackshard.Prelude.{
  ℕ, zero, suc, ◌+◌, ◌-◌, ◌*◌, ◌/◌, ◌%◌, ◌^◌, min, Bool, true, false, not, ◌&&◌, ◌||◌, List, [],
  ◌∷◌, ◌++◌, Option, none, some, ltb, leb, ◌==◌, if◌then◌else◌, length, take, drop,
}
use blackshard.Prelude.Bytes.{Bytes, bytes_eq}
use blackshard.Prelude.Results.{Result, ok, error, ◌>>=◌, ok_or}
use blackshard.Prelude.Text.{trim}
use blackshard.Cvd.{CvdError, io, malformed, out_of_fuel, is_utf8, utf8_from}
use blackshard.Cvd.Tar.Paths.{safe_entry_name}

-- `TAR_BLOCK`, `MAX_ENTRY_BYTES` and `MAX_ENTRIES`
abbrev pub tar_block : ℕ
tar_block = 512

unfoldable pub max_entry_bytes : ℕ
max_entry_bytes = 2 * 1024 * 1024 * 1024

unfoldable pub max_entries : ℕ
max_entries = 4096

-- `io::Error` becomes a `CvdError` by `?`.
abbrev pub Read : Type 0 → Type 0
Read R = ℕ → R → Result CvdError (Bytes × R)

unfoldable pub before_zero : Bytes → Bytes
before_zero [] = []
before_zero (c ∷ s) = if c == 0 then [] else c ∷ before_zero s

unfoldable pub tar_string : Bytes → Result CvdError Bytes
unfolding before_zero utf8_from trim
tar_string field =
    if is_utf8 (before_zero field) then ok (trim (before_zero field)) else error malformed

unfoldable pub octal_from : ℕ → Bytes → Option ℕ
octal_from n [] = some n
octal_from n (c ∷ s) =
    let rest = octal_from (n * 8 + (c - b'0')) s in if leb b'0' c && leb c b'7' then rest else none

abbrev pub octal_in_range : Option ℕ → Option ℕ
octal_in_range none = none
octal_in_range (some n) = if ltb n (2 ^ 64) then some n else none

-- `u64::from_str_radix` in base 8, where a plus sign may come first.
abbrev pub octal : Bytes → Option ℕ
octal [] = none
octal (c ∷ []) = octal_in_range (octal_from 0 (c ∷ []))
octal (c ∷ d ∷ s) = octal_in_range (octal_from 0 (if c == b'+' then d ∷ s else c ∷ d ∷ s))

abbrev pub octal_or_zero : Bytes → Result CvdError ℕ
octal_or_zero [] = ok 0
octal_or_zero (c ∷ text) = ok_or malformed (octal (c ∷ text))

unfoldable pub tar_octal : Bytes → Result CvdError ℕ
unfolding tar_string octal_from
tar_octal field = do text ← tar_string field; octal_or_zero (trim text)

unfoldable pub is_zero_block : Bytes → Bool
is_zero_block [] = true
is_zero_block (c ∷ s) = c == 0 && is_zero_block s

-- The size rounded up to whole blocks.
abbrev pub padded : ℕ → ℕ
padded size = (size + (tar_block - 1)) / tar_block * tar_block

pub record File : Type 0 where
  pub name : Bytes
  pub content : Bytes

abbrev pub Disk : Type 0
Disk = List File

-- The name, the size and the type flag of a header block.
pub record TarEntry : Type 0 where
  pub name : Bytes
  pub size : ℕ
  pub flag : Bytes

-- How the loop over the entries goes on, with the reader after the header.
pub data Round (R : Type 0) : Type 0 where
  stop : Round R
  entry : TarEntry → R → Round R

abbrev pub is_regular : Bytes → Bool
is_regular flag = bytes_eq flag (b'0' ∷ []) || bytes_eq flag (0 ∷ [])

-- The base name of an entry that is to be written.
abbrev pub wanted : TarEntry → Option Bytes
wanted e = elim (safe_entry_name e.name) [
  | none ↦ none
  | some base ↦ if is_regular e.flag then some base else none
]

-- The files that are there at the end, and the names that are returned or the error.
abbrev pub Unpacked : Type 0
Unpacked = Disk × Result CvdError (List Bytes)

-- What was copied to a file, and the reader after it.
abbrev pub Copied : Type 0 → Type 0
Copied R = Bytes × Result CvdError R

abbrev pub after_read :
    {R : Type 0} → ℕ → Result CvdError (Bytes × R) → (Bytes → R → Copied R) → Copied R
after_read want (error e) next = ([], error e)
after_read want (ok (got, r)) next =
    if length got == want then next got r else ([], error malformed)

abbrev pub written_before : {R : Type 0} → Bytes → Copied R → Copied R
written_before got (content, r) = (got ++ content, r)

abbrev pub read_entry : {R : Type 0} → Bytes → R → Result CvdError (Round R)
read_entry block r = do
  name ← tar_string (take 100 block)
  size ← tar_octal (take 12 (drop 124 block))
  if ltb max_entry_bytes size
      then error malformed
      else ok (entry (record { name = name; size = size; flag = take 1 (drop 156 block) }) r)

abbrev pub after_block : {R : Type 0} → Bytes → R → Result CvdError (Round R)
after_block block r =
    if length block == 0
    then ok stop
    else if not (length block == tar_block)
    then error malformed
    else if is_zero_block block
    then ok stop
    else read_entry block r

-- The rest of the loop, unless a step before it has failed.
abbrev pub unless_failed : {R : Type 0} → Disk → Result CvdError R → (R → Unpacked) → Unpacked
unless_failed disk (error why) next = (disk, error why)
unless_failed disk (ok r) next = next r

module _ {R : Type 0} (read : Read R) where
  -- `skip`. Each round reads one byte at least, so that the count is enough fuel.
  unfoldable pub skip : ℕ → ℕ → R → Result CvdError R
  skip zero count r = if count == 0 then ok r else error out_of_fuel
  skip (suc fuel) count r =
      let rest = (do
        (got, r) ← read (min count (8 * 1024)) r
        if length got == 0 then error malformed else skip fuel (count - length got) r) in
      if count == 0 then ok r else rest

  -- The loop that copies the body of an entry.
  unfoldable pub copy_body : ℕ → ℕ → R → Copied R
  copy_body zero remaining r = ([], if remaining == 0 then ok r else error out_of_fuel)
  copy_body (suc fuel) remaining r =
      let want = min remaining (64 * 1024) in
      let rest =
        after_read want (read want r)
          (λ got r. written_before got (copy_body fuel (remaining - length got) r)) in
      if remaining == 0 then ([], ok r) else rest

  -- The part of a round that ends with the header of an entry.
  unfoldable pub next_entry : ℕ → R → Result CvdError (Round R)
  unfolding tar_string tar_octal is_zero_block
  next_entry written r =
      if ltb max_entries written
      then error malformed
      else (do (block, r) ← read tar_block r; after_block block r)

  abbrev pub write_entry :
      (Bytes → Bool) → TarEntry → Bytes → R → Disk → (Disk → R → Unpacked) → Unpacked
  write_entry creates e base r disk next =
      if creates base
      then (let copied = copy_body e.size e.size r in
          let now = record { name = base; content = copied.0 } ∷ disk in
          unless_failed now copied.1 (λ r.
            unless_failed now (skip (padded e.size - e.size) (padded e.size - e.size) r)
              (next now)))
      else (disk, error io)

  -- The rest of the round, for an entry, and the rounds after it.
  abbrev pub do_entry :
      (Bytes → Bool)
      → List Bytes
      → TarEntry
      → R
      → Disk
      → Option Bytes
      → (List Bytes → Disk → R → Unpacked)
      → Unpacked
  do_entry creates written e r disk none next =
      unless_failed disk (skip (padded e.size) (padded e.size) r) (next written disk)
  do_entry creates written e r disk (some base) next =
      write_entry creates e base r disk (next (written ++ (base ∷ [])))

  abbrev pub go_on :
      (Bytes → Bool) → List Bytes → Disk → Round R → (List Bytes → Disk → R → Unpacked) → Unpacked
  go_on creates written disk stop next = (disk, ok written)
  go_on creates written disk (entry e r) next = do_entry creates written e r disk (wanted e) next

  -- Each round takes a block at least, so that the length of what is read is enough fuel.
  unfoldable pub unpack_tar : (Bytes → Bool) → ℕ → List Bytes → Disk → R → Unpacked
  unfolding next_entry skip copy_body safe_entry_name bytes_eq
  unpack_tar creates zero written disk r = (disk, error out_of_fuel)
  unpack_tar creates (suc fuel) written disk r =
      unless_failed disk (next_entry (length written) r) (λ round.
        go_on creates written disk round (λ names now r. unpack_tar creates fuel names now r))
