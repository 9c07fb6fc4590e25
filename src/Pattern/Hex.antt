-- ===== src/Pattern/Hex.antt =====
-- src/clamdb/pattern.rs: `parse_hex`, from hex digits, `??`, `*` and `{…}` to the parts of a
-- signature. The text is its bytes from the current index on.
use blackshard.Prelude.{
  ℕ, zero, suc, ◌+◌, ◌-◌, ◌*◌, ◌%◌, ◌^◌, Bool, true, false, not, ◌&&◌, ◌||◌, List, [], ◌∷◌, ◌++◌,
  Option, none, some, ltb, leb, ◌==◌, if◌then◌else◌, length,
}
use blackshard.Prelude.Bytes.{Bytes}
use blackshard.Prelude.Options.{◌>>=◌, guard}
use blackshard.Prelude.Text.{split_once, parse_unsigned}
use blackshard.Pattern.{Wanted, Part, bytes, gap}
use blackshard.Pattern.Verify.{max_unbounded_gap}
use blackshard.Pattern.Offsets.{parse_usize}

-- `MAX_SIGNATURE_BYTES`
abbrev pub max_signature_bytes : ℕ
max_signature_bytes = 4096

abbrev pub hex_digit : ℕ → Option ℕ
hex_digit c =
    if leb b'0' c && leb c b'9'
    then some (c - b'0')
    else if leb b'a' c && leb c b'f'
    then some (c - b'a' + 10)
    else if leb b'A' c && leb c b'F'
    then some (c - b'A' + 10)
    else none

-- `u8::from_str_radix` of two characters in base 16: a plus sign may stand before one digit.
unfoldable pub hex_byte : ℕ → ℕ → Option ℕ
hex_byte high low =
    if high == b'+'
    then hex_digit low
    else (do h ← hex_digit high; l ← hex_digit low; some (h * 16 + l))

abbrev pub Range : Type 0
Range = ℕ × Option ℕ

abbrev pub too_small : ℕ → Option ℕ → Bool
too_small least none = false
too_small least (some most) = ltb most least

abbrev pub ends_of_range : Bytes → Bytes → Option Range
ends_of_range [] most = do m ← parse_usize most; some (0, some m)
ends_of_range (c ∷ least) [] = do n ← parse_usize (c ∷ least); some (n, none)
ends_of_range (c ∷ least) (d ∷ most) = do
  n ← parse_usize (c ∷ least)
  m ← parse_usize (d ∷ most)
  some (n, some m)

abbrev pub unchecked_range : Bytes → Option Range
unchecked_range text = elim (split_once b'-' text) [
  | none ↦ do exact ← parse_usize text; some (exact, some exact)
  | some (least, most) ↦ ends_of_range least most
]

unfoldable pub parse_range : Bytes → Option Range
unfolding split_once parse_unsigned
parse_range text = do
  (least, most) ← unchecked_range text
  guard (not (too_small least most || ltb max_unbounded_gap least)) (least, most)

-- The `flush` of the source: the run so far, if there is one, behind the parts.
abbrev pub flush : List Wanted → List Part → List Part
flush [] parts = parts
flush (w ∷ run) parts = parts ++ (bytes (w ∷ run) ∷ [])

-- A run of bytes with the byte or the wildcard that comes next.
abbrev pub grow : List Wanted → Wanted → List Wanted
grow run w = run ++ (w ∷ [])

-- The loop over the index. Each round takes one byte at least, so that the length is enough fuel.
unfoldable pub parse_parts : ℕ → Bytes → List Wanted → List Part → Option (List Part)
unfolding hex_byte parse_range split_once
parse_parts fuel [] run parts = some (flush run parts)
parse_parts zero (c ∷ text) run parts = none
parse_parts (suc fuel) (c ∷ []) run parts =
    let rest = parse_parts fuel [] [] (flush run parts ++ (gap 0 none ∷ [])) in
    if c == b'*' then rest else none
parse_parts (suc fuel) (c ∷ d ∷ text) run parts =
    let star = parse_parts fuel (d ∷ text) [] (flush run parts ++ (gap 0 none ∷ [])) in
    let braces = (do
      (inside, after) ← split_once b'}' (d ∷ text)
      (least, most) ← parse_range inside
      parse_parts fuel after [] (flush run parts ++ (gap least most ∷ []))) in
    let wildcard = parse_parts fuel text (grow run none) parts in
    let byte = (do value ← hex_byte c d; parse_parts fuel text (grow run (some value)) parts) in
    if c == b'*'
    then star
    else if c == b'{'
    then braces
    else if c == b'?' && d == b'?'
    then wildcard
    else byte

-- `max.zip(more_max).map(|(left, right)| left + right)`, which wraps in a release build.
abbrev pub add_most : Option ℕ → Option ℕ → Option ℕ
add_most none more = none
add_most (some m) none = none
add_most (some m) (some n) = some ((m + n) % 2 ^ 64)

-- One round of the merging: a gap that follows a gap is added to it.
unfoldable pub push_part : List Part → Part → List Part
push_part [] part = part ∷ []
push_part (gap least most ∷ []) (gap more more_most) =
    gap (least + more) (add_most most more_most) ∷ []
push_part (gap least most ∷ []) (bytes run) = gap least most ∷ bytes run ∷ []
push_part (bytes run ∷ []) part = bytes run ∷ part ∷ []
push_part (p ∷ q ∷ merged) part = p ∷ push_part (q ∷ merged) part

unfoldable pub merge_from : List Part → List Part → List Part
unfolding push_part
merge_from merged [] = merged
merge_from merged (part ∷ parts) = merge_from (push_part merged part) parts

unfoldable pub drop_first_star : List Part → List Part
drop_first_star [] = []
drop_first_star (gap least none ∷ parts) = if least == 0 then parts else gap least none ∷ parts
drop_first_star (part ∷ parts) = part ∷ parts

unfoldable pub drop_last_star : List Part → List Part
drop_last_star [] = []
drop_last_star (gap least none ∷ []) = if least == 0 then [] else gap least none ∷ []
drop_last_star (part ∷ []) = part ∷ []
drop_last_star (p ∷ q ∷ parts) = p ∷ drop_last_star (q ∷ parts)

abbrev pub first_is_bytes : List Part → Bool
first_is_bytes (bytes _ ∷ _) = true
first_is_bytes _ = false

unfoldable pub last_is_bytes : List Part → Bool
last_is_bytes [] = false
last_is_bytes (bytes _ ∷ []) = true
last_is_bytes (gap _ _ ∷ []) = false
last_is_bytes (_ ∷ q ∷ parts) = last_is_bytes (q ∷ parts)

-- What is done with the parts once the whole text is read.
unfoldable pub tidy_parts : List Part → Option (List Part)
unfolding merge_from drop_first_star drop_last_star last_is_bytes
tidy_parts parts =
    let merged = drop_last_star (drop_first_star (merge_from [] parts)) in
    guard (first_is_bytes merged && last_is_bytes merged) merged

unfoldable pub parse_hex : Bytes → Option (List Part)
unfolding parse_parts tidy_parts
parse_hex text =
    if length text == 0 || ltb (max_signature_bytes * 2 + 64) (length text)
    then none
    else (do parts ← parse_parts (length text) text [] []; tidy_parts parts)
