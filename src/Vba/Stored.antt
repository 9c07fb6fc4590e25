-- ===== src/Vba/Stored.antt =====
-- Containers of uncompressed chunks: what a writer that does not compress puts before src/vba.rs.
use blackshard.Prelude.{
  ℕ, zero, suc, ◌+◌, ◌-◌, ◌*◌, ◌/◌, ◌%◌, ◌≤◌, ◌<◌, ◌≡◌, refl, sym, ap, ap₂, ◌∙◌, List, [], ◌∷◌,
  ◌++◌, some, min, length, get_elem?, take, drop, All, length-append, get_elem?-drop, drop-drop,
  take-append, drop-append, append_assoc, append_nil, arith, ltb, leb, ◌==◌, true, false,
}
use blackshard.Prelude.Bytes.{Bytes}
use blackshard.Prelude.Results.{ok}
use blackshard.Vba.{
  State, usize_max, saturating_add, chunk_body, chunk_with, chunk, chunks, decompress, get_u16,
  get_range,
}
use blackshard.Vba.Steps.{get_range-inside, no_overflow}

-- A chunk of up to 4,096 bytes: the size less one and the signature, then the bytes.
abbrev pub store_chunk : Bytes → Bytes
store_chunk block = (length block - 1) % 256 ∷ (48 + (length block - 1) / 256) ∷ block

abbrev pub store_chunks : List Bytes → Bytes
store_chunks [] = []
store_chunks (block ∷ blocks) = store_chunk block ++ store_chunks blocks

abbrev pub store : List Bytes → Bytes
store blocks = 1 ∷ store_chunks blocks

abbrev pub concat : List Bytes → Bytes
concat [] = []
concat (block ∷ blocks) = block ++ concat blocks

abbrev pub IsBlock : Bytes → Type 0
IsBlock block = (1 ≤ length block) × (length block ≤ 4096)

abbrev state : ℕ → Bytes → State
state at output = record { input_offset = at; output = output }

header : (n : ℕ) → n < 4096 → n % 256 + 256 * (48 + n / 256) ≡ 12288 + n
header n h = omega arith

header-size : (n : ℕ) → n < 4096 → saturating_add ((12288 + n) % 4096) 3 ≡ n + 3
header-size n h = omega arith

header-signature : (n : ℕ) → n < 4096 → ((12288 + n) / 4096 % 8 == 3) ≡ true
header-signature n h = let e : (12288 + n) / 4096 % 8 ≡ 3 = omega arith in rw e refl

header-raw : (n : ℕ) → n < 4096 → ((12288 + n) / 32768 % 2 == 1) ≡ false
header-raw n h = let e : (12288 + n) / 32768 % 2 ≡ 0 = omega arith in rw e refl

module _ (input : Bytes) (maximum_output : ℕ) where
  -- The rest of the input, from a position on.
  abbrev Rest : ℕ → Bytes → Type 0
  Rest at rest = (drop at input ≡ rest) × (at + length rest ≡ length input)

  Rest-get : (at i : ℕ) (rest : Bytes) → Rest at rest → get_elem? input (at + i) ≡ get_elem? rest i
  Rest-get at i rest r = sym (get_elem?-drop at input i) ∙ ap (λ l. get_elem? l i) r.0

  Rest-header :
      (at low high : ℕ) (rest : Bytes)
      → Rest at (low ∷ high ∷ rest)
      → get_u16 at input ≡ some (low + 256 * high)
  unfolding get_u16
  Rest-header at low high rest r =
      let e : at ≡ at + 0 = omega arith in
      rw (ap (get_elem? input) e ∙ Rest-get at 0 _ r, Rest-get at 1 _ r, get_u16) refl

  Rest-block :
      (at low high : ℕ) (block rest : Bytes)
      → Rest at (low ∷ high ∷ (block ++ rest))
      → get_range (at + 2) (at + 2 + length block) input ≡ some block
  Rest-block at low high block rest r =
      let n : at + 2 + length block - (at + 2) ≡ length block = omega arith in
      get_range-inside (at + 2) (at + 2 + length block) input (omega arith)
        (omega (arith, r, length-append block rest))
      ∙ ap (λ k. some (take k (drop (at + 2) input))) n
      ∙ ap (λ l. some (take (length block) l)) (sym (drop-drop at 2 input) ∙ ap (drop 2) r.0)
      ∙ ap some (take-append block rest)

  Rest-next :
      (at low high : ℕ) (block rest : Bytes)
      → Rest at (low ∷ high ∷ (block ++ rest))
      → Rest (at + 2 + length block) rest
  Rest-next at low high block rest r = (
    sym (drop-drop (at + 2) (length block) input)
        ∙ ap (drop (length block)) (sym (drop-drop at 2 input) ∙ ap (drop 2) r.0)
        ∙ drop-append block rest,
    omega (arith, r, length-append block rest),
  )

  chunk-stored :
      (s : State) (block rest : Bytes)
      → IsBlock block
      → Rest s.input_offset (store_chunk block ++ rest)
      → length s.output + length block ≤ maximum_output
      → maximum_output < usize_max
      → length input + 4098 < usize_max
      → chunk input maximum_output s
        ≡ ok (record {
          input_offset = s.input_offset + 2 + length block;
          output = s.output ++ block;
        })
  unfolding chunk chunk_with chunk_body
  chunk-stored s block rest b r l m w =
      let low = (length block - 1) % 256 in
      let high = 48 + (length block - 1) / 256 in
      let n = length block - 1 in
      let small : n < 4096 = omega arith in
      let size : n + 3 ≡ length block + 2 = omega arith in
      let end : min (s.input_offset + (length block + 2)) (length input)
          ≡ s.input_offset + 2 + length block =
        omega (arith, r, length-append block rest) in
      let fits : ltb maximum_output (saturating_add (length s.output) (length block)) ≡ false =
        ground (arith, l, m) in
      rw
        (
          Rest-header s.input_offset low high (block ++ rest) r,
          header n small,
          header-signature n small,
          header-size n small,
          size,
          no_overflow s.input_offset (length block + 2)
              (omega (arith, r, length-append block rest)),
          header-raw n small,
          end,
          Rest-block s.input_offset low high block rest r,
          fits,
        )
        refl

  chunks-stored :
      (fuel : ℕ) (s : State) (blocks : List Bytes)
      → All IsBlock blocks
      → Rest s.input_offset (store_chunks blocks)
      → length s.output + length (concat blocks) ≤ maximum_output
      → maximum_output < usize_max
      → length input + 4098 < usize_max
      → length (store_chunks blocks) < fuel
      → chunks input maximum_output fuel s
        ≡ ok (record { input_offset = length input; output = s.output ++ concat blocks })
  unfolding chunks
  chunks-stored zero s blocks b r l m w f = absurd (omega arith)
  chunks-stored (suc fuel) s [] b r l m w f =
      let e : leb (length input) s.input_offset ≡ true = ground (arith, r) in
      let i : s.input_offset ≡ length input = omega (arith, r) in
      rw e (ap₂ (λ at output. ok (state at output)) i (sym (append_nil s.output)))
  chunks-stored (suc fuel) s (block ∷ blocks) b r l m w f =
      let s' = state (s.input_offset + 2 + length block) (s.output ++ block) in
      let e : leb (length input) s.input_offset ≡ false =
        ground (arith, r, length-append (store_chunk block) (store_chunks blocks)) in
      rw
        (
          e,
          chunk-stored s block (store_chunks blocks) b.0 r
              (omega (arith, l, length-append block (concat blocks))) m w,
        )
        (chunks-stored fuel s' blocks b.1
            (Rest-next s.input_offset _ _ block (store_chunks blocks) r)
            (omega (arith, l, length-append block (concat blocks), length-append s.output block)) m
            w (omega (arith, f, length-append block (store_chunks blocks)))
          ∙ ap (λ o. ok (state (length input) o)) (append_assoc s.output block (concat blocks)))

-- What is stored in chunks of 1 to 4,096 bytes is given back, if it is within the limit.
pub decompress-store :
    (blocks : List Bytes) (maximum_output : ℕ)
    → All IsBlock blocks
    → length (concat blocks) ≤ maximum_output
    → maximum_output < usize_max
    → length (store blocks) + 4098 < usize_max
    → decompress (store blocks) maximum_output ≡ ok (concat blocks)
unfolding decompress
decompress-store blocks maximum_output b l m w =
    rw
      (chunks-stored (store blocks) maximum_output (suc (length (store blocks)))
        (record { input_offset = 1; output = [] }) blocks b (refl, omega arith) (omega (arith, l)) m
        w (omega arith))
      refl
