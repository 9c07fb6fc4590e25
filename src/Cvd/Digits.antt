-- ===== src/Cvd/Digits.antt =====
-- The numbers that the signature and the digest of a container spell, for src/clamdb/cvd.rs.
use native.Mathlib.Nat.{pow-suc, mul-le-mul_right}
use blackshard.Prelude.{
  ℕ, zero, suc, ◌+◌, ◌-◌, ◌*◌, ◌/◌, ◌%◌, ◌^◌, ◌≤◌, ◌<◌, ◌≡◌, refl, sym, ap, ap₂, ◌∙◌, subst, inl,
  inr, ◌&&◌, [], ◌∷◌, Option, none, some, leb, if◌then◌else◌, length, arith, Option-cases,
}
use blackshard.Prelude.Bytes.{Bytes, lower, to_ascii_lowercase}
use blackshard.Prelude.Results.{ok}
use blackshard.Cvd.{digit_value, signature_value, hex_symbol, hex_encode}

-- The symbols are the digits to base 64, the least one first.
abbrev pub Spells : Bytes → ℕ → Type 0
Spells [] n = n ≡ 0
Spells (c ∷ s) n = (d : ℕ) × (r : ℕ) × (digit_value c ≡ some d) × Spells s r × (n ≡ d + 64 * r)

pub signature_value-Spells :
    (weight value : ℕ) (s : Bytes) (n : ℕ)
    → signature_value weight value s ≡ ok n
    → (r : ℕ) × Spells s r × (n ≡ value + r * weight)
unfolding signature_value
signature_value-Spells weight value [] n h = let e : value ≡ n = cc h in (0, refl, omega (arith, e))
signature_value-Spells weight value (c ∷ s) n h = elim (Option-cases (digit_value c)) [
  | inl none_ ↦ cc (rw (none_, signature_value) at h)
  | inr (d, e) ↦
      let (r, spelled, k) =
        signature_value-Spells (weight * 64) (value + d * weight) s n
          (rw (e, signature_value) at h) in
      (d + 64 * r, (d, r, e, spelled, refl), k ∙ grind arith)
]

pub Spells-signature_value :
    (weight value : ℕ) (s : Bytes) (r : ℕ)
    → Spells s r
    → signature_value weight value s ≡ ok (value + r * weight)
unfolding signature_value
Spells-signature_value weight value [] r h =
    let e : value ≡ value + 0 * weight = omega arith in
    ap ok (e ∙ ap (λ x. value + x * weight) (sym h))
Spells-signature_value weight value (c ∷ s) n (d, r, e, spelled, k) =
    let equal : value + d * weight + r * (weight * 64) ≡ value + n * weight =
      grind arith ∙ ap (λ x. value + x * weight) (sym k) in
    rw (e, signature_value)
      (Spells-signature_value (weight * 64) (value + d * weight) s r spelled ∙ ap ok equal)

-- A hexadecimal digit in either case.
unfoldable pub hex_digit : ℕ → Option ℕ
hex_digit c =
    if leb b'0' c && leb c b'9'
    then some (c - b'0')
    else if leb b'a' c && leb c b'f'
    then some (c - b'a' + 10)
    else if leb b'A' c && leb c b'F'
    then some (c - b'A' + 10)
    else none

-- The number that hexadecimal digits spell, the greatest first, after the digits of `n`.
unfoldable pub hex_number : ℕ → Bytes → Option ℕ
hex_number n [] = some n
hex_number n (c ∷ s) = elim (hex_digit c) [ none ↦ none | some d ↦ hex_number (n * 16 + d) s ]

hex_digit-lower : (c : ℕ) → hex_digit (lower c) ≡ hex_digit c
unfolding hex_digit
hex_digit-lower c = ground arith

pub hex_number-lowercase :
    (n : ℕ) (s : Bytes) → hex_number n (to_ascii_lowercase s) ≡ hex_number n s
unfolding hex_number to_ascii_lowercase
hex_number-lowercase n [] = refl
hex_number-lowercase n (c ∷ s) = elim (Option-cases (hex_digit c)) [
  | inl e ↦ rw (hex_digit-lower c, e, hex_number) refl
  | inr (d, e) ↦ rw (hex_digit-lower c, e, hex_number) (hex_number-lowercase (n * 16 + d) s)
]

hex_digit-symbol : (d : ℕ) → d < 16 → hex_digit (hex_symbol d) ≡ some d
unfolding hex_digit
hex_digit-symbol d h = ground arith

hex_number-digit :
    (n c d : ℕ) (s : Bytes)
    → hex_digit c ≡ some d
    → hex_number n (c ∷ s) ≡ hex_number (n * 16 + d) s
unfolding hex_number
hex_number-digit n c d s e = rw (e, hex_number) refl

pub hex_number-encode :
    (count n : ℕ) (rest : Bytes)
    → n < 256 ^ count
    → hex_number 0 (hex_encode count n rest) ≡ hex_number n rest
unfolding hex_number hex_encode
hex_number-encode zero n rest h = let e : 0 ≡ n = omega arith in ap (λ k. hex_number k rest) e
hex_number-encode (suc count) n rest h =
    let e : (n / 256 * 16 + n % 256 / 16) * 16 + n % 16 ≡ n = omega arith in
    hex_number-encode count (n / 256) (hex_symbol (n % 256 / 16) ∷ hex_symbol (n % 16) ∷ rest)
      (omega arith)
    ∙ hex_number-digit (n / 256) (hex_symbol (n % 256 / 16)) (n % 256 / 16)
        (hex_symbol (n % 16) ∷ rest) (hex_digit-symbol (n % 256 / 16) (omega arith))
    ∙ hex_number-digit (n / 256 * 16 + n % 256 / 16) (hex_symbol (n % 16)) (n % 16) rest
        (hex_digit-symbol (n % 16) (omega arith))
    ∙ ap (λ k. hex_number k rest) e

pub length-hex_encode :
    (count n : ℕ) (rest : Bytes) → length (hex_encode count n rest) ≡ 2 * count + length rest
unfolding hex_encode
length-hex_encode zero n rest = omega arith
length-hex_encode (suc count) n rest = omega (
  arith,
  length-hex_encode count (n / 256) (hex_symbol (n % 256 / 16) ∷ hex_symbol (n % 16) ∷ rest),
)

pub length-lowercase : (s : Bytes) → length (to_ascii_lowercase s) ≡ length s
unfolding to_ascii_lowercase
length-lowercase [] = refl
length-lowercase (c ∷ s) = ap suc (length-lowercase s)

hex_digit-small : (c d : ℕ) → hex_digit c ≡ some d → d < 16
unfolding hex_digit
hex_digit-small c d h = ground arith

hex_digit-lower_unique :
    (c b d : ℕ) → hex_digit c ≡ some d → hex_digit b ≡ some d → lower c ≡ lower b
unfolding hex_digit
hex_digit-lower_unique c b d h k = ground arith

hex_number-step :
    (n c : ℕ) (s : Bytes) (m : ℕ)
    → hex_number n (c ∷ s) ≡ some m
    → (d : ℕ) × (hex_digit c ≡ some d) × (hex_number (n * 16 + d) s ≡ some m)
unfolding hex_number
hex_number-step n c s m h = elim (Option-cases (hex_digit c)) [
  | inl e ↦ cc (rw (e, hex_number) at h)
  | inr (d, e) ↦ (d, e, rw (e, hex_number) at h)
]

-- Digits of one number and as many are the same but for their case.
pub hex_number_unique :
    (n k : ℕ) (s t : Bytes) (m : ℕ)
    → length s ≡ length t
    → hex_number n s ≡ some m
    → hex_number k t ≡ some m
    → (n ≡ k) × (to_ascii_lowercase s ≡ to_ascii_lowercase t)
unfolding hex_number to_ascii_lowercase
hex_number_unique n k [] [] m l h g = (cc (h, g), refl)
hex_number_unique n k [] (b ∷ t) m l h g = absurd (omega (arith, l))
hex_number_unique n k (c ∷ s) [] m l h g = absurd (omega (arith, l))
hex_number_unique n k (c ∷ s) (b ∷ t) m l h g =
    let (d, e, i) = hex_number-step n c s m h in
    let (f, x, j) = hex_number-step k b t m g in
    let (same, rest) = hex_number_unique (n * 16 + d) (k * 16 + f) s t m (omega (arith, l)) i j in
    let small = hex_digit-small c d e in
    let small' = hex_digit-small b f x in
    let digits : d ≡ f = omega (arith, same, small, small') in
    (
      omega (arith, same, small, small'),
      ap₂ (◌∷◌) (hex_digit-lower_unique c b f (e ∙ ap some digits) x) rest,
    )

pub hex_number-bound :
    (n : ℕ) (s : Bytes) (m : ℕ) → hex_number n s ≡ some m → m < (n + 1) * 16 ^ length s
unfolding hex_number
hex_number-bound n [] m h = let e : n ≡ m = cc h in omega (arith, e)
hex_number-bound n (c ∷ s) m h =
    let (d, e, i) = hex_number-step n c s m h in
    let small = hex_digit-small c d e in
    let bound = hex_number-bound (n * 16 + d) s m i in
    let at_most : n * 16 + d + 1 ≤ (n + 1) * 16 = omega (arith, small) in
    let wide : (n * 16 + d + 1) * 16 ^ length s ≤ (n + 1) * 16 ^ suc (length s) =
      subst (λ x. (n * 16 + d + 1) * 16 ^ length s ≤ x)
        (grind arith ∙ ap (λ x. (n + 1) * x) (sym (pow-suc 16 (length s))))
        (mul-le-mul_right (16 ^ length s) at_most) in
    omega (arith, bound, wide)
