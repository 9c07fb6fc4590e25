-- ===== src/Vba/Steps.antt =====
-- What the tokens of a compressed chunk of src/vba.rs do to the state.
use blackshard.Prelude.{
  ℕ, zero, suc, ◌+◌, ◌-◌, ◌/◌, ◌%◌, ◌^◌, ◌≤◌, ◌<◌, ◌≡◌, inl, inr, Bool, false, ◌||◌, List, [], ◌∷◌,
  ◌++◌, none, some, ltb, leb, ◌==◌, if◌then◌else◌, length, get_elem?, take, drop, length-append,
  arith, Bool-cases, Option-cases, if_split,
}
use blackshard.Prelude.Bytes.{Bytes}
use blackshard.Prelude.Results.{ok, ◌>>=◌, ok_or, Yields, Yields-bind, Yields-weaken}
use blackshard.Vba.{
  VbaError, usize_max, saturating_add, checked_add, checked_sub, get_u16, get_range, bit_length,
  clamp, State, copy, literal, copy_from, copy_token, tokens,
}

-- The errors that say something of the input. The others are internal.
abbrev pub IsRefusal : VbaError → Type 0
IsRefusal VbaError.chunk_offset_overflow = ⊥
IsRefusal VbaError.invalid_raw_chunk = ⊥
IsRefusal VbaError.missing_token_flags = ⊥
IsRefusal VbaError.invalid_output_position = ⊥
IsRefusal VbaError.copy_offset_underflow = ⊥
IsRefusal VbaError.copy_offset_outside_output = ⊥
IsRefusal VbaError.panic = ⊥
IsRefusal VbaError.out_of_fuel = ⊥
IsRefusal _ = Unit

pub get_elem?-none : {A : Type 0} (xs : List A) (i : ℕ) → get_elem? xs i ≡ none → length xs ≤ i
get_elem?-none [] i h = omega arith
get_elem?-none (x ∷ xs) zero h = absurd (ground arith)
get_elem?-none (x ∷ xs) (suc i) h = omega (arith, get_elem?-none xs i h)

pub get_elem?-some :
    {A : Type 0} (xs : List A) (i : ℕ) (x : A) → get_elem? xs i ≡ some x → i < length xs
get_elem?-some [] i x h = absurd (ground arith)
get_elem?-some (y ∷ xs) zero x h = omega arith
get_elem?-some (y ∷ xs) (suc i) x h = omega (arith, get_elem?-some xs i x h)

-- An element that is there is found.
found :
    {A : Type 0} (P : A → Type 0) (e : VbaError) (xs : List A) (i : ℕ)
    → i < length xs
    → ((a : A) → P a)
    → Yields P IsRefusal (ok_or e (get_elem? xs i))
found P e xs i l h = elim (Option-cases (get_elem? xs i)) [
  | inl n ↦ absurd (omega (arith, get_elem?-none xs i n))
  | inr (a, s) ↦ rw s (h a)
]

abbrev pub HasGrown : Bytes → ℕ → Bytes → Type 0
HasGrown output n o = length o ≡ length output + n

pub inside :
    (output : Bytes) (distance : ℕ)
    → distance ≤ length output
    → checked_sub (length output) distance ≡ some (length output - distance)
inside output distance h = ground arith

-- A copy from inside the output succeeds, and adds as many bytes as it is told.
pub copy-Yields :
    (distance n : ℕ) (output : Bytes)
    → 0 < distance
    → distance ≤ length output
    → Yields (HasGrown output n) IsRefusal (copy distance n output)
unfolding copy
copy-Yields distance zero output p d = omega arith
copy-Yields distance (suc n) output p d =
    elim (Option-cases (get_elem? output (length output - distance))) [
      | inl e ↦ absurd (omega (arith, get_elem?-none output (length output - distance) e))
      | inr (v, e) ↦
          rw (inside output distance d, e)
            (Yields-weaken (HasGrown (output ++ v ∷ []) n) (HasGrown output (suc n)) IsRefusal
              (copy distance n (output ++ v ∷ []))
              (λ o h. omega (arith, h, length-append output (v ∷ [])))
              (copy-Yields distance n (output ++ v ∷ []) p
                (omega (arith, length-append output (v ∷ [])))))
    ]

not_far : (produced distance : ℕ) → ltb produced distance ≡ false → distance ≤ produced
not_far produced distance h = ground arith

pub not_large :
    (n count maximum_output : ℕ)
    → maximum_output < usize_max
    → ltb maximum_output (saturating_add n count) ≡ false
    → n + count ≤ maximum_output
not_large n count maximum_output m h = ground arith

or_false : (a b c : Bool) → (a || b || c) ≡ false → (a ≡ false) × (b ≡ false)
or_false a b c h = ground arith

pub get_range-inside :
    (from to : ℕ) (input : Bytes)
    → from ≤ to
    → to ≤ length input
    → get_range from to input ≡ some (take (to - from) (drop from input))
unfolding get_range
get_range-inside from to input h l = ground arith

pub get_u16-inside :
    (at : ℕ) (input : Bytes) (header : ℕ) → get_u16 at input ≡ some header → at + 2 ≤ length input
unfolding get_u16
get_u16-inside at input header h = elim (Option-cases (get_elem? input (at + 1))) [
  | inl e ↦ absurd (ground (arith, h, e))
  | inr (high, e) ↦ omega (arith, get_elem?-some input (at + 1) high e)
]

pub no_overflow : (a b : ℕ) → a + b ≤ usize_max → checked_add a b ≡ some (a + b)
no_overflow a b h = ground arith

module _ (input : Bytes) (maximum_output : ℕ) where
  -- A step reads on, and keeps the output under the limit.
  abbrev pub Advances : State → State → Type 0
  Advances s t =
      (s.input_offset < t.input_offset)
      × (length s.output ≤ length t.output)
      × (length t.output ≤ maximum_output)

  literal-Advances :
      (s : State)
      → s.input_offset < length input
      → Yields (Advances s) IsRefusal (literal input maximum_output s)
  unfolding literal
  literal-Advances s l = elim (Bool-cases (leb maximum_output (length s.output))) [
    | inl e ↦ rw e tt
    | inr e ↦ elim (Option-cases (get_elem? input s.input_offset)) [
      | inl n ↦ absurd (omega (arith, get_elem?-none input s.input_offset n))
      | inr (v, f) ↦
          rw (e, f)
            (
              omega arith,
              omega (arith, length-append s.output (v ∷ [])),
              ground (arith, length-append s.output (v ∷ [])),
            )
    ]
  ]

  copied-Advances :
      (s : State) (distance count produced : ℕ)
      → produced ≤ length s.output
      → 0 < distance
      → distance ≤ produced
      → length s.output + count ≤ maximum_output
      → Yields (Advances s) IsRefusal (
          copy distance count s.output
          >>= (λ output. ok (record { input_offset = s.input_offset + 2; output = output })))
  copied-Advances s distance count produced p d e l =
      Yields-bind (HasGrown s.output count) (Advances s) IsRefusal (copy distance count s.output) _
        (copy-Yields distance count s.output d (omega arith))
        (λ o q h. (omega arith, omega (arith, h), omega (arith, h)))

  copy_from-Advances :
      (s : State) (chunk_output_start token produced : ℕ)
      → maximum_output < usize_max
      → produced ≤ length s.output
      → Yields
          (Advances s)
          IsRefusal
          (copy_from input maximum_output chunk_output_start token produced s)
  unfolding copy_from
  copy_from-Advances s start token produced m p = elim (Bool-cases (produced == 0)) [
    | inl e ↦ rw e tt
    | inr e ↦
        let length_bits = 16 - clamp (bit_length 64 (produced - 1)) 4 12 in
        let count = token % 2 ^ length_bits + 3 in
        let distance = token / 2 ^ length_bits + 1 in
        let far = ltb produced distance in
        let large = ltb maximum_output (saturating_add (length s.output) count) in
        let long = ltb (saturating_add start 4096) (saturating_add (length s.output) count) in
        elim (Bool-cases (far || large || long)) [
          | inl f ↦ rw (e, f) tt
          | inr f ↦
              rw (e, f)
                (copied-Advances s distance count produced p (omega arith)
                  (not_far produced distance (or_false far large long f).0)
                  (not_large (length s.output) count maximum_output m
                    (or_false far large long f).1))
        ]
  ]

  copy_token-Advances :
      (s : State) (chunk_output_start : ℕ)
      → maximum_output < usize_max
      → chunk_output_start ≤ length s.output
      → Yields (Advances s) IsRefusal (copy_token input maximum_output chunk_output_start s)
  unfolding copy_token
  copy_token-Advances s start m l = elim (Option-cases (get_u16 s.input_offset input)) [
    | inl e ↦ rw e tt
    | inr (token, e) ↦
        rw (e, inside s.output start l)
          (copy_from-Advances s start token (length s.output - start) m (omega arith))
  ]

  abbrev pub Reaches : State → State → Type 0
  Reaches s t =
      (s.input_offset ≤ t.input_offset)
      × (length s.output ≤ length t.output)
      × (length t.output ≤ maximum_output)

  pub tokens-Reaches :
      (n bit chunk_end chunk_output_start flags : ℕ) (s : State)
      → maximum_output < usize_max
      → chunk_end ≤ length input
      → chunk_output_start ≤ length s.output
      → length s.output ≤ maximum_output
      → Yields
          (Reaches s)
          IsRefusal
          (tokens input maximum_output n bit chunk_end chunk_output_start flags s)
  unfolding tokens
  tokens-Reaches zero bit end start flags s m c l o = (omega arith, omega arith, o)
  tokens-Reaches (suc n) bit end start flags s m c l o =
      elim (Bool-cases (leb end s.input_offset)) [
        | inl e ↦ rw e (omega arith, omega arith, o)
        | inr e ↦ rw e (
            Yields-bind (Advances s) (Reaches s) IsRefusal
              (if flags / 2 ^ bit % 2 == 0
                then literal input maximum_output s
                else copy_token input maximum_output start s)
              _
              (if_split (Yields (Advances s) IsRefusal) (flags / 2 ^ bit % 2 == 0)
                (literal-Advances s (ground arith)) (copy_token-Advances s start m l))
              (λ t q h.
                Yields-weaken (Reaches t) (Reaches s) IsRefusal
                  (tokens input maximum_output n (suc bit) end start flags t)
                  (λ u k. (omega (arith, h, k), omega (arith, h, k), k.2))
                  (tokens-Reaches n (suc bit) end start flags t m c (omega (arith, h)) h.2)))
      ]
