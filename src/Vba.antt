-- ===== src/Vba.antt =====
-- src/vba.rs: `decompress`, for the compressed containers of VBA macros. `usize` has 64 bits. Masks
-- and shifts of the 16-bit numbers are written with division by powers of two. The index
-- `input[input_offset]`, which panics out of range, has an error of its own, and so has the end
-- of the fuel of the two `while` loops, which is one more than the bytes of the input (see Limits).
pub mod Steps
pub mod Limits
pub mod Copies
pub mod Stored
mod Examples
use blackshard.Prelude.{
  ℕ, zero, suc, ◌+◌, ◌-◌, ◌*◌, ◌/◌, ◌%◌, ◌^◌, min, max, Bool, true, false, not, ◌||◌, List, [], ◌∷◌,
  ◌++◌, Option, none, some, ltb, leb, ◌==◌, if◌then◌else◌, length, get_elem?, take, drop,
}
use blackshard.Prelude.Bytes.{Bytes}
use blackshard.Prelude.Results.{Result, ok, error, ◌>>=◌, ok_or}

-- The messages of the source, and `panic` and `out_of_fuel`.
pub data VbaError : Type 0 where
  invalid_container_signature truncated_chunk_header invalid_chunk_signature : VbaError
  chunk_offset_overflow invalid_raw_chunk output_limit_exceeded : VbaError
  missing_token_flags truncated_copy_token invalid_output_position : VbaError
  copy_token_precedes_literal_output invalid_copy_token copy_offset_underflow : VbaError
  copy_offset_outside_output panic out_of_fuel : VbaError

abbrev pub usize_max : ℕ
usize_max = 2 ^ 64 - 1

abbrev pub saturating_add : ℕ → ℕ → ℕ
saturating_add a b = min (a + b) usize_max

abbrev pub checked_add : ℕ → ℕ → Option ℕ
checked_add a b = if ltb usize_max (a + b) then none else some (a + b)

abbrev pub checked_sub : ℕ → ℕ → Option ℕ
checked_sub a b = if ltb a b then none else some (a - b)

-- `from_le_bytes` of `get(at..at + 2)`
unfoldable pub get_u16 : ℕ → Bytes → Option ℕ
get_u16 at input = elim (get_elem? input at) [
  | none ↦ none
  | some low ↦ elim (get_elem? input (at + 1)) [ none ↦ none | some high ↦ some (low + 256 * high) ]
]

-- `get(from..to)`
unfoldable pub get_range : ℕ → ℕ → Bytes → Option Bytes
get_range from to input =
    if ltb to from || ltb (length input) to then none else some (take (to - from) (drop from input))

-- `BITS - leading_zeros`, of a number of as many bits as the first argument.
unfoldable pub bit_length : ℕ → ℕ → ℕ
bit_length zero n = 0
bit_length (suc bits) n = let shorter = bit_length bits (n / 2) in if n == 0 then 0 else suc shorter

abbrev pub clamp : ℕ → ℕ → ℕ → ℕ
clamp n low high = max low (min n high)

-- The position in the input, and the output so far.
pub record State : Type 0 where
  pub input_offset : ℕ
  pub output : Bytes

-- The innermost loop: `length` bytes, each from `distance` bytes before the end.
unfoldable pub copy : ℕ → ℕ → Bytes → Result VbaError Bytes
copy distance zero output = ok output
copy distance (suc n) output =
    ok_or copy_offset_underflow (checked_sub (length output) distance)
    >>= (λ source. ok_or copy_offset_outside_output (get_elem? output source))
    >>= (λ value. copy distance n (output ++ value ∷ []))

module _ (input : Bytes) (maximum_output : ℕ) where
  unfoldable pub literal : State → Result VbaError State
  literal s =
      if leb maximum_output (length s.output)
      then error output_limit_exceeded
      else ok_or panic (get_elem? input s.input_offset) >>= (λ value.
        ok (record { input_offset = s.input_offset + 1; output = s.output ++ value ∷ [] }))

  -- A copy token, read at `input_offset`, that comes `produced` bytes after the chunk's start.
  unfoldable pub copy_from : ℕ → ℕ → ℕ → State → Result VbaError State
  copy_from chunk_output_start token produced s =
      let offset_bits = clamp (bit_length 64 (produced - 1)) 4 12 in
      let length_bits = 16 - offset_bits in
      let count = token % 2 ^ length_bits + 3 in
      let distance = token / 2 ^ length_bits + 1 in
      if produced == 0
      then error copy_token_precedes_literal_output
      else if ltb produced distance
          || ltb maximum_output (saturating_add (length s.output) count)
          || ltb (saturating_add chunk_output_start 4096) (saturating_add (length s.output) count)
      then error invalid_copy_token
      else copy distance count s.output
        >>= (λ output. ok (record { input_offset = s.input_offset + 2; output = output }))

  unfoldable pub copy_token : ℕ → State → Result VbaError State
  copy_token chunk_output_start s =
      ok_or truncated_copy_token (get_u16 s.input_offset input) >>= (λ token.
        ok_or invalid_output_position (checked_sub (length s.output) chunk_output_start)
        >>= (λ produced. copy_from chunk_output_start token produced s))

  -- `for bit in 0..8`, from `bit` on, for as many bits as the first argument.
  unfoldable pub tokens : ℕ → ℕ → ℕ → ℕ → ℕ → State → Result VbaError State
  tokens zero bit chunk_end chunk_output_start flags s = ok s
  tokens (suc n) bit chunk_end chunk_output_start flags s =
      if leb chunk_end s.input_offset
      then ok s
      else (if flags / 2 ^ bit % 2 == 0 then literal s else copy_token chunk_output_start s)
        >>= (λ s'. tokens n (suc bit) chunk_end chunk_output_start flags s')

  -- The inner `while`.
  unfoldable pub groups : ℕ → ℕ → ℕ → State → Result VbaError State
  groups zero chunk_end chunk_output_start s = error out_of_fuel
  groups (suc fuel) chunk_end chunk_output_start s =
      if leb chunk_end s.input_offset
      then ok s
      else ok_or missing_token_flags (get_elem? input s.input_offset)
        >>= (λ flags.
            tokens 8 0 chunk_end chunk_output_start flags
              (record { input_offset = s.input_offset + 1; output = s.output }))
        >>= (λ s'. groups fuel chunk_end chunk_output_start s')

  -- The bytes of a chunk, which start at `input_offset`.
  unfoldable pub chunk_body : Bool → ℕ → State → Result VbaError State
  chunk_body false chunk_end s =
      ok_or invalid_raw_chunk (get_range s.input_offset chunk_end input) >>= (λ raw.
        if ltb maximum_output (saturating_add (length s.output) (length raw))
        then error output_limit_exceeded
        else ok (record { input_offset = chunk_end; output = s.output ++ raw }))
  chunk_body true chunk_end s =
      groups (suc (length input)) chunk_end (length s.output) s
      >>= (λ s'. ok (record { input_offset = chunk_end; output = s'.output }))

  -- A chunk with the given header, which stands at `input_offset`.
  unfoldable pub chunk_with : ℕ → State → Result VbaError State
  chunk_with header s =
      if not (header / 4096 % 8 == 3)
      then error invalid_chunk_signature
      else ok_or chunk_offset_overflow
          (checked_add s.input_offset (saturating_add (header % 4096) 3))
        >>= (λ chunk_end.
            chunk_body (header / 32768 % 2 == 1) (min chunk_end (length input))
              (record { input_offset = s.input_offset + 2; output = s.output }))

  unfoldable pub chunk : State → Result VbaError State
  chunk s =
      ok_or truncated_chunk_header (get_u16 s.input_offset input)
      >>= (λ header. chunk_with header s)

  -- The outer `while`.
  unfoldable pub chunks : ℕ → State → Result VbaError State
  chunks zero s = error out_of_fuel
  chunks (suc fuel) s =
      if leb (length input) s.input_offset then ok s else chunk s >>= (λ s'. chunks fuel s')

unfoldable pub decompress : Bytes → ℕ → Result VbaError Bytes
decompress [] maximum_output = error invalid_container_signature
decompress (first ∷ input) maximum_output =
    if not (first == 1)
    then error invalid_container_signature
    else chunks (first ∷ input) maximum_output (suc (length (first ∷ input)))
        (record { input_offset = 1; output = [] })
      >>= (λ s. ok s.output)
