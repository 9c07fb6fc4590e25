-- ===== src/Logical/Parser/Numbers.antt =====
-- What the parser of src/clamdb/logical.rs reads as numbers and comparisons.
use blackshard.Prelude.{
  ℕ, ◌+◌, ◌-◌, ◌*◌, ◌^◌, ◌≤◌, ◌<◌, ◌≡◌, inl, inr, true, ◌||◌, if_split, [], ◌∷◌, Option, none, some,
  arith, ltb, ◌==◌, All, length, Bool-cases, Option-cases,
}
use native.Mathlib.Nat.{pow-succ', pow-le-pow_right}
use blackshard.Logical.{Compare}
use blackshard.Logical.Parser.{
  Bytes, M, is_digit, span_digits, value_from, number, Comparison, compare_of, distinct_part,
  compared, comparison,
}
use blackshard.Logical.Parser.Parsed.{limit_bound, AtMost}

-- What a method returns, if it returns anything.
abbrev pub Post : {A : Type 0} → (A → Type 0) → Option (A × Bytes) → Type 0
Post P none = Unit
Post P (some (a, s)) = P a

pub Post-bind :
    {A B : Type 0} (P : A → Type 0) (Q : B → Type 0) (m : M A) (f : A → M B) (s : Bytes)
    → Post P (m s)
    → ((a : A) (s' : Bytes) → P a → Post Q (f a s'))
    → Post Q (elim (m s) [ none ↦ none | some (a, s') ↦ f a s' ])
Post-bind {A} {B} P Q m f s h g = go (m s) h
  where
    go :
        (r : Option (A × Bytes))
        → Post P r
        → Post Q (elim r [ none ↦ none | some (a, s') ↦ f a s' ])
    go none h' = tt
    go (some (a, s')) h' = g a s' h'

digit_step : (n k c : ℕ) → is_digit c ≡ true → n < k → n * 10 + (c - b'0') < k * 10
digit_step n k c d h = ground arith

value_from-lt :
    (ds : Bytes) (n k : ℕ)
    → All (λ c. is_digit c ≡ true) ds
    → n < k
    → value_from n ds < k * 10 ^ length ds
unfolding value_from
value_from-lt [] n k a h = omega arith
value_from-lt (c ∷ ds) n k a h =
    let step = value_from-lt ds (n * 10 + (c - b'0')) (k * 10) a.1 (digit_step n k c a.0 h) in
    rw (pow-succ' 10 (length ds)) (omega (arith, step))

span_digits-All : (s : Bytes) → All (λ c. is_digit c ≡ true) (span_digits s).0
unfolding span_digits
span_digits-All [] = tt
span_digits-All (c ∷ s) = elim (Bool-cases (is_digit c)) [
  | inl e ↦ rw e (e, span_digits-All s)
  | inr e ↦ rw e tt
]

nine_digits : (n : ℕ) → n ≤ 9 → 10 ^ n ≤ limit_bound
nine_digits n h = pow-le-pow_right {n = 10} (omega arith) h

pub number-lt : (s : Bytes) → Post (λ n. n < limit_bound) (number s)
unfolding number
number-lt s = elim (Bool-cases (length ds == 0 || ltb 9 (length ds))) [
  | inl e ↦ rw e tt
  | inr e ↦ rw e (
      omega (
        arith,
        value_from-lt ds 0 1 (span_digits-All s) (omega arith),
        nine_digits (length ds) (ground arith),
      ))
]
  where
    ds : Bytes
    ds = (span_digits s).0

-- The limits of a comparison, where there is one.
abbrev pub IsComparison : Comparison → Type 0
IsComparison none = Unit
IsComparison (some (compare, (limit, distinct))) = (limit < limit_bound) × AtMost distinct

distinct_part-AtMost : (s : Bytes) → Post AtMost (distinct_part s)
unfolding distinct_part
distinct_part-AtMost [] = tt
distinct_part-AtMost (c ∷ s) =
    if_split (Post AtMost) (c == b',')
      (Post-bind (λ n. n < limit_bound) AtMost number _ s (number-lt s) (λ m s' h. h)) tt

compared-IsComparison : (compare : Compare) (s : Bytes) → Post IsComparison (compared compare s)
unfolding compared
compared-IsComparison compare s =
    Post-bind (λ n. n < limit_bound) IsComparison number _ s (number-lt s)
      (λ limit s' h.
        Post-bind AtMost IsComparison distinct_part _ s' (distinct_part-AtMost s')
          (λ d t k. (h, k)))

pub comparison-IsComparison : (s : Bytes) → Post IsComparison (comparison s)
unfolding comparison
comparison-IsComparison [] = tt
comparison-IsComparison (c ∷ s) = elim (Option-cases (compare_of c)) [
  | inl e ↦ rw (e, comparison) tt
  | inr (compare, e) ↦ rw (e, comparison) (compared-IsComparison compare s)
]
