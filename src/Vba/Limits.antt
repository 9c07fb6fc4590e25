-- ===== src/Vba/Limits.antt =====
-- What `decompress` of src/vba.rs never does: exceed its limit, index out of range, loop for ever,
-- or meet one of its internal errors.
use blackshard.Prelude.{
  ℕ, zero, suc, ◌+◌, ◌-◌, ◌/◌, ◌%◌, ◌≤◌, ◌<◌, ◌≡◌, refl, min, inl, inr, Bool, true, false, [], ◌∷◌,
  ◌++◌, ltb, leb, ◌==◌, if◌then◌else◌, length, get_elem?, take, drop, length-append, arith,
  Bool-cases, Option-cases,
}
use blackshard.Prelude.Bytes.{Bytes}
use blackshard.Prelude.Results.{ok, error, Yields, Yields-bind, Yields-weaken}
use blackshard.Vba.{
  VbaError, usize_max, saturating_add, get_u16, State, tokens, groups, chunk_body, chunk_with,
  chunk, chunks, decompress,
}
use blackshard.Vba.Steps.{
  IsRefusal, get_elem?-none, not_large, get_range-inside, get_u16-inside, no_overflow, Reaches,
  tokens-Reaches,
}

module _ (input : Bytes) (maximum_output : ℕ) where
  groups-Reaches :
      (fuel chunk_end chunk_output_start : ℕ) (s : State)
      → maximum_output < usize_max
      → chunk_end ≤ length input
      → chunk_output_start ≤ length s.output
      → length s.output ≤ maximum_output
      → 0 < fuel
      → chunk_end < s.input_offset + fuel
      → Yields
          (Reaches input maximum_output s)
          IsRefusal
          (groups input maximum_output fuel chunk_end chunk_output_start s)
  unfolding groups
  groups-Reaches zero end start s m c l o p f = absurd (omega arith)
  groups-Reaches (suc fuel) end start s m c l o p f = elim (Bool-cases (leb end s.input_offset)) [
    | inl e ↦ rw e (omega arith, omega arith, o)
    | inr e ↦ elim (Option-cases (get_elem? input s.input_offset)) [
      | inl n ↦ absurd (ground (arith, get_elem?-none input s.input_offset n))
      | inr (flags, n) ↦
          let s' : State = record { input_offset = s.input_offset + 1; output = s.output } in
          rw (e, n)
            (Yields-bind (Reaches input maximum_output s') (Reaches input maximum_output s)
              IsRefusal (tokens input maximum_output 8 0 end start flags s') _
              (tokens-Reaches input maximum_output 8 0 end start flags s' m c l o)
              (λ t q h.
                Yields-weaken (Reaches input maximum_output t) (Reaches input maximum_output s)
                  IsRefusal (groups input maximum_output fuel end start t)
                  (λ u k. (omega (arith, h, k), omega (arith, h, k), k.2))
                  (groups-Reaches fuel end start t m c (omega (arith, h)) h.2 (ground (arith, h))
                    (omega (arith, h)))))
    ]
  ]

  abbrev Ends : ℕ → State → Type 0
  Ends chunk_end t = (t.input_offset ≡ chunk_end) × (length t.output ≤ maximum_output)

  -- A chunk of a sound state leads to a later one, in the input.
  abbrev Passes : State → State → Type 0
  Passes s t =
      (s.input_offset < t.input_offset)
      × (t.input_offset ≤ length input)
      × (length t.output ≤ maximum_output)

  raw_chunk-AtMost :
      (chunk_end : ℕ) (raw : Bytes) (s : State)
      → maximum_output < usize_max
      → Yields (Ends chunk_end) IsRefusal (
          if ltb maximum_output (saturating_add (length s.output) (length raw))
          then error VbaError.output_limit_exceeded
          else ok (record { input_offset = chunk_end; output = s.output ++ raw }))
  raw_chunk-AtMost end raw s m =
      elim (Bool-cases (ltb maximum_output (saturating_add (length s.output) (length raw)))) [
        | inl e ↦ rw e tt
        | inr e ↦
            rw (e, length-append s.output raw)
              (refl, not_large (length s.output) (length raw) maximum_output m e)
      ]

  chunk_body-Passes :
      (is_compressed : Bool) (chunk_end : ℕ) (s : State)
      → maximum_output < usize_max
      → s.input_offset ≤ chunk_end
      → chunk_end ≤ length input
      → length s.output ≤ maximum_output
      → Yields
          (Ends chunk_end)
          IsRefusal
          (chunk_body input maximum_output is_compressed chunk_end s)
  unfolding chunk_body
  chunk_body-Passes false end s m b c o =
      rw (get_range-inside s.input_offset end input b c)
        (raw_chunk-AtMost end (take (end - s.input_offset) (drop s.input_offset input)) s m)
  chunk_body-Passes true end s m b c o =
      Yields-bind (Reaches input maximum_output s) (Ends end) IsRefusal
        (groups input maximum_output (suc (length input)) end (length s.output) s) _
        (groups-Reaches (suc (length input)) end (length s.output) s m c (omega arith) o
          (omega arith) (omega arith))
        (λ t q h. (refl, h.2))

  chunk_with-Passes :
      (header : ℕ) (s : State)
      → maximum_output < usize_max
      → length input + 4098 < usize_max
      → s.input_offset + 2 ≤ length input
      → length s.output ≤ maximum_output
      → Yields (Passes s) IsRefusal (chunk_with input maximum_output header s)
  unfolding chunk_with
  chunk_with-Passes header s m w l o = elim (Bool-cases (header / 4096 % 8 == 3)) [
    | inl e ↦
        let size = saturating_add (header % 4096) 3 in
        let end = min (s.input_offset + size) (length input) in
        let s' : State = record { input_offset = s.input_offset + 2; output = s.output } in
        rw (e, no_overflow s.input_offset size (omega arith))
          (Yields-weaken (Ends end) (Passes s) IsRefusal
            (chunk_body input maximum_output (header / 32768 % 2 == 1) end s')
            (λ t h. (omega (arith, h), omega (arith, h), h.1))
            (chunk_body-Passes (header / 32768 % 2 == 1) end s' m (omega arith) (omega arith) o))
    | inr e ↦ rw e tt
  ]

  chunk-Passes :
      (s : State)
      → maximum_output < usize_max
      → length input + 4098 < usize_max
      → length s.output ≤ maximum_output
      → Yields (Passes s) IsRefusal (chunk input maximum_output s)
  unfolding chunk
  chunk-Passes s m w o = elim (Option-cases (get_u16 s.input_offset input)) [
    | inl e ↦ rw e tt
    | inr (header, e) ↦
        rw e (chunk_with-Passes header s m w (get_u16-inside s.input_offset input header e) o)
  ]

  chunks-Yields :
      (fuel : ℕ) (s : State)
      → maximum_output < usize_max
      → length input + 4098 < usize_max
      → length s.output ≤ maximum_output
      → 0 < fuel
      → length input < s.input_offset + fuel
      → Yields
          (λ t. length t.output ≤ maximum_output)
          IsRefusal
          (chunks input maximum_output fuel s)
  unfolding chunks
  chunks-Yields zero s m w o p f = absurd (omega arith)
  chunks-Yields (suc fuel) s m w o p f = elim (Bool-cases (leb (length input) s.input_offset)) [
    | inl e ↦ rw e o
    | inr e ↦ rw e (
        Yields-bind (Passes s) (λ t. length t.output ≤ maximum_output) IsRefusal
          (chunk input maximum_output s) _ (chunk-Passes s m w o)
          (λ t q h. chunks-Yields fuel t m w h.2 (ground (arith, h)) (omega (arith, h))))
  ]

-- Decompression of whatever bytes ends, and either gives at most `maximum_output` bytes or refuses
-- the input: no index is out of range, no offset overflows, and no copy leaves the output, if the
-- limit is below the largest `usize`, and the input 4,098 bytes shorter than that.
pub decompress-Yields :
    (input : Bytes) (maximum_output : ℕ)
    → maximum_output < usize_max
    → length input + 4098 < usize_max
    → Yields (λ output. length output ≤ maximum_output) IsRefusal (decompress input maximum_output)
unfolding decompress
decompress-Yields [] maximum_output m w = tt
decompress-Yields (first ∷ input) maximum_output m w = elim (Bool-cases (first == 1)) [
  | inl e ↦ rw e (
      Yields-bind (λ s. length s.output ≤ maximum_output) (λ o. length o ≤ maximum_output) IsRefusal
        (chunks (first ∷ input) maximum_output (suc (length (first ∷ input)))
          (record { input_offset = 1; output = [] }))
        _
        (chunks-Yields (first ∷ input) maximum_output (suc (length (first ∷ input)))
          (record { input_offset = 1; output = [] }) m w (omega arith) (omega arith) (omega arith))
        (λ s q h. h))
  | inr e ↦ rw e tt
]
