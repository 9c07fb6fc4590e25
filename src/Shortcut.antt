-- ===== src/Shortcut.antt =====
-- src/lnk.rs: Windows shortcuts. A cursor is the bytes from its position on. A text is the list of
-- its characters' numbers. The string of the icon's location, which comes last and is not used, is
-- not read.
pub mod RoundTrip
mod Examples
use blackshard.Prelude.{
  ℕ, zero, suc, ◌+◌, ◌-◌, ◌*◌, ◌/◌, ◌%◌, ◌^◌, Bool, true, false, not, ◌&&◌, ◌||◌, List, [], ◌∷◌,
  ◌++◌, Option, none, some, ltb, leb, ◌==◌, if◌then◌else◌, length, take, drop,
}
use blackshard.Prelude.Bytes.{Bytes, bytes_eq, starts_with}
use blackshard.Prelude.Readers.{M, ◌>>=◌, return}

abbrev pub header_size : ℕ
header_size = 76

abbrev pub shell_link_clsid : Bytes
shell_link_clsid = 1 ∷ 20 ∷ 2 ∷ 0 ∷ 0 ∷ 0 ∷ 0 ∷ 0 ∷ 192 ∷ 0 ∷ 0 ∷ 0 ∷ 0 ∷ 0 ∷ 0 ∷ 70 ∷ []

abbrev pub Text : Type 0
Text = List ℕ

pub record Shortcut : Type 0 where
  pub target : Text
  pub arguments : Text
  pub minimized : Bool

unfoldable pub from_le_bytes : Bytes → ℕ
from_le_bytes [] = 0
from_le_bytes (b ∷ bytes) = b + 256 * from_le_bytes bytes

-- As many bytes of a number as the first argument says, the least first.
unfoldable pub to_le_bytes : ℕ → ℕ → Bytes
to_le_bytes zero n = []
to_le_bytes (suc k) n = n % 256 ∷ to_le_bytes k (n / 256)

-- `bytes[from..to]`, or `get(from..to)`, where `from` is not above `to`.
unfoldable pub get_range : ℕ → ℕ → Bytes → Option Bytes
get_range from to bytes =
    if ltb (length bytes) to then none else some (take (to - from) (drop from bytes))

unfoldable pub is_shortcut : Bytes → Bool
is_shortcut bytes =
    leb header_size (length bytes)
    && starts_with bytes (to_le_bytes 4 header_size)
    && bytes_eq (take 16 (drop 4 bytes)) shell_link_clsid

-- `Cursor::take`
unfoldable pub read : ℕ → M Bytes
read n s = if ltb (length s) n then none else some (take n s, drop n s)

unfoldable pub u16 : M ℕ
u16 = do raw ← read 2; return (from_le_bytes raw)

unfoldable pub u32 : M ℕ
u32 = do raw ← read 4; return (from_le_bytes raw)

-- `as_chunks::<2>`, each as a number; a last odd byte is left out.
unfoldable pub units : Bytes → List ℕ
units [] = []
units (low ∷ []) = []
units (low ∷ high ∷ s) = (low + 256 * high) ∷ units s

abbrev pub is_high : ℕ → Bool
is_high u = leb 0xd800 u && ltb u 0xdc00

abbrev pub is_low : ℕ → Bool
is_low u = leb 0xdc00 u && ltb u 0xe000

-- `from_utf16_lossy`: a surrogate without its other half gives the replacement character.
unfoldable pub from_utf16_lossy : List ℕ → Text
from_utf16_lossy [] = []
from_utf16_lossy (u ∷ []) = (if is_high u || is_low u then 0xfffd else u) ∷ []
from_utf16_lossy (u ∷ v ∷ l) =
    let rest = from_utf16_lossy (v ∷ l) in
    let after = from_utf16_lossy l in
    if is_high u && is_low v
    then (0x10000 + (u - 0xd800) * 0x400 + (v - 0xdc00)) ∷ after
    else (if is_high u || is_low u then 0xfffd else u) ∷ rest

-- `Cursor::string`
unfoldable pub string : Bool → M Text
string unicode = do
  characters ← u16
  raw ← read (if unicode then characters * 2 else characters)
  return (if unicode then from_utf16_lossy (units raw) else raw)

-- The bytes before the first zero.
unfoldable pub until_zero : Bytes → Text
until_zero [] = []
until_zero (b ∷ s) = if b == 0 then [] else b ∷ until_zero s

unfoldable pub local_base_path : Bytes → Option Text
local_base_path info = elim (get_range 8 12 info) [
  | none ↦ none
  | some flags ↦ if from_le_bytes flags % 2 == 0 then none else elim (get_range 16 20 info) [
    | none ↦ none
    | some offset ↦
        if ltb (length info) (from_le_bytes offset)
        then none
        else some (until_zero (drop (from_le_bytes offset) info))
  ]
]

abbrev pub or_empty : Option Text → Text
or_empty none = []
or_empty (some text) = text

-- The link-info block starts where its size stands.
unfoldable pub link_info : M Text
link_info s = elim (u32 s) [
  | none ↦ none
  | some (size, _) ↦ elim (read size s) [
    | none ↦ none
    | some (info, rest) ↦ some (or_empty (local_base_path info), rest)
  ]
]

-- Whether bit `k` of the flags is set.
abbrev pub has : ℕ → ℕ → Bool
has flags k = flags / 2 ^ k % 2 == 1

abbrev pub optional : Bool → M Text → M Text
optional true m = m
optional false m = return []

abbrev pub target_id_list : M Text
target_id_list = do size ← u16; read size

unfoldable pub body : ℕ → M (Text × Text)
body flags = do
  _ ← optional (has flags 0) target_id_list
  target ← optional (has flags 1) link_info
  _ ← optional (has flags 2) (string (has flags 7))
  relative ← optional (has flags 3) (string (has flags 7))
  _ ← optional (has flags 4) (string (has flags 7))
  arguments ← optional (has flags 5) (string (has flags 7))
  return (elim target [ [] ↦ relative | c ∷ l ↦ c ∷ l ], arguments)

abbrev pub is_minimized : ℕ → Bool
is_minimized show = show == 2 || show == 7

unfoldable pub parse : Bytes → Option Shortcut
parse bytes =
    if not (is_shortcut bytes)
    then none
    else let flags = from_le_bytes (take 4 (drop 20 bytes)) in
      let show = from_le_bytes (take 4 (drop 60 bytes)) in
      elim (body flags (drop header_size bytes)) [
        | none ↦ none
        | some ((target, arguments), _) ↦
            some (record { target = target; arguments = arguments; minimized = is_minimized show })
      ]

-- `n` zeros.
abbrev pub zeros : ℕ → Bytes
zeros zero = []
zeros (suc n) = 0 ∷ zeros n

unfoldable pub encode : List ℕ → Bytes
encode [] = []
encode (u ∷ l) = u % 256 ∷ (u / 256) ∷ encode l

abbrev pub build_text : List ℕ → Bytes
build_text text = to_le_bytes 2 (length text) ++ encode text

-- `build`, of texts that are given in UTF-16.
unfoldable pub build : List ℕ → List ℕ → ℕ → Bytes
build target arguments show =
    to_le_bytes 4 header_size
    ++ shell_link_clsid
    ++ to_le_bytes 4 (2 ^ 3 + 2 ^ 5 + 2 ^ 7)
    ++ zeros 36
    ++ to_le_bytes 4 show
    ++ zeros 12
    ++ build_text target
    ++ build_text arguments
