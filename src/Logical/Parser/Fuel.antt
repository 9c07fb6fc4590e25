-- ===== src/Logical/Parser/Fuel.antt =====
-- The loop of the parser of src/clamdb/logical.rs ends: every round reads a byte, so its fuel,
-- one more than the bytes that are left, is never used up.
use blackshard.Prelude.{
  ℕ, zero, suc, ◌≤◌, ◌<◌, ◌≡◌, refl, inl, inr, ◌||◌, [], ◌∷◌, Option, none, some, arith, leb, ltb,
  ◌==◌, if_split, length, Bool-cases, Option-cases,
}
use blackshard.Logical.{Expr, Exprs, nil, cons}
use blackshard.Logical.Parser.{
  Bytes, M, max_subsignatures, span_digits, number, compare_of, distinct_part, compared, comparison,
  single, expect, numbered, grouped, atom, Joined, joined, snoc, finish, sequence, expression,
  is_joiner, other_joiner, lift,
}

-- What is left after a method has read, if it succeeds, is at most `n` bytes.
abbrev pub Fits : {A : Type 0} → ℕ → Option (A × Bytes) → Type 0
Fits n none = Unit
Fits n (some (a, s)) = length s ≤ n

abbrev pub Shrinks : {A : Type 0} → M A → Type 0
Shrinks m = (s : Bytes) (n : ℕ) → length s ≤ n → Fits n (m s)

pub Fits-bind :
    {A B : Type 0} (m : M A) (f : A → M B)
    → Shrinks m
    → ((a : A) → Shrinks (f a))
    → Shrinks (λ s. elim (m s) [ none ↦ none | some (a, s') ↦ f a s' ])
Fits-bind {A} {B} m f h g s n l = go (m s) (h s n l)
  where
    go :
        (r : Option (A × Bytes))
        → Fits n r
        → Fits n (elim r [ none ↦ none | some (a, s') ↦ f a s' ])
    go none k = tt
    go (some (a, s')) k = g a s' n k

span_digits-length : (s : Bytes) → length (span_digits s).1 ≤ length s
unfolding span_digits
span_digits-length [] = omega arith
span_digits-length (c ∷ s) = ground (arith, span_digits-length s)

number-Shrinks : Shrinks number
unfolding number
number-Shrinks s n l =
    if_split (Fits n) (length (span_digits s).0 == 0 || ltb 9 (length (span_digits s).0)) tt
      (omega (arith, span_digits-length s))

distinct_part-Shrinks : Shrinks distinct_part
unfolding distinct_part
distinct_part-Shrinks [] n l = l
distinct_part-Shrinks (c ∷ s) n l =
    if_split (Fits n) (c == b',')
      (Fits-bind number _ number-Shrinks (λ m t k h. h) s n (omega arith)) l

comparison-Shrinks : Shrinks comparison
unfolding comparison compared
comparison-Shrinks [] n l = l
comparison-Shrinks (c ∷ s) n l = elim (Option-cases (compare_of c)) [
  | inl e ↦ rw (e, comparison) l
  | inr (compare, e) ↦
      rw (e, comparison, compared)
        (Fits-bind number _ number-Shrinks
          (λ limit. Fits-bind distinct_part _ distinct_part-Shrinks (λ d t k h. h)) s n
          (omega arith))
]

lift-Shrinks : {A : Type 0} (o : Option A) → Shrinks (lift o)
lift-Shrinks none s n l = tt
lift-Shrinks (some a) s n l = l

numbered-Shrinks : Shrinks numbered
unfolding numbered
numbered-Shrinks = Fits-bind number _ number-Shrinks (λ sub s n l.
    elim (Bool-cases (leb max_subsignatures sub)) [
      | inl e ↦ rw e tt
      | inr e ↦
          rw e (Fits-bind comparison _ comparison-Shrinks (λ c. lift-Shrinks (single sub c)) s n l)
    ])

expect-Shrinks : (b : ℕ) → Shrinks (expect b)
unfolding expect
expect-Shrinks b [] n l = tt
expect-Shrinks b (c ∷ s) n l = if_split (Fits n) (c == b) (omega arith) tt

pub atom-Shrinks : (inner : M Expr) → Shrinks inner → Shrinks (atom inner)
unfolding atom grouped
atom-Shrinks inner h [] n l = numbered-Shrinks [] n l
atom-Shrinks inner h (c ∷ s) n l =
    if_split (Fits n) (c == b'(')
      (Fits-bind inner _ h
        (λ e.
          Fits-bind (expect b')') _ (expect-Shrinks b')')
            (λ _. Fits-bind comparison _ comparison-Shrinks (λ k t m q. q)))
        s n (omega arith))
      (numbered-Shrinks (c ∷ s) n l)

joined-Shrinks :
    (next : M Expr) → Shrinks next → (fuel : ℕ) (r : Joined) → Shrinks (joined next fuel r)
unfolding joined
joined-Shrinks next h zero (j, items) s n l = tt
joined-Shrinks next h (suc fuel) (j, items) [] n l = l
joined-Shrinks next h (suc fuel) (j, items) (c ∷ s) n l = elim (Bool-cases (is_joiner c)) [
  | inr e ↦ rw (e, joined) l
  | inl e ↦ elim (Bool-cases (other_joiner j c)) [
    | inl o ↦ rw (e, o, joined) tt
    | inr o ↦
        rw (e, o, joined)
          (Fits-bind next _ h (λ x. joined-Shrinks next h fuel (some c, snoc items x)) s n
            (omega arith))
  ]
]

pub expression-Shrinks : (levels : ℕ) → Shrinks (expression levels)
unfolding expression sequence
expression-Shrinks zero s n l = tt
expression-Shrinks (suc levels) s n l =
    let next = atom-Shrinks (expression levels) (expression-Shrinks levels) in
    Fits-bind (atom (expression levels)) _ next
      (λ e.
        Fits-bind (joined (atom (expression levels)) (suc (length s)) (none, cons e nil)) _
          (joined-Shrinks (atom (expression levels)) next (suc (length s)) (none, cons e nil))
          (λ r. lift-Shrinks (finish r)))
      s n l

same_rest :
    (next : M Expr) (f g : ℕ) (c : ℕ) (items : Exprs) (n : ℕ) (r : Option (Expr × Bytes))
    → Fits n r
    → ((x : Expr) (s : Bytes)
        → length s ≤ n
        → joined next f (some c, snoc items x) s ≡ joined next g (some c, snoc items x) s)
    → ◌≡◌ {A = Option (Joined × Bytes)}
        (elim r [ none ↦ none | some (x, s) ↦ joined next f (some c, snoc items x) s ])
        (elim r [ none ↦ none | some (x, s) ↦ joined next g (some c, snoc items x) s ])
same_rest next f g c items n none k h = refl
same_rest next f g c items n (some (x, s)) k h = h x s k

pub joined-fuel :
    (next : M Expr)
    → Shrinks next
    → (f g : ℕ) (r : Joined) (s : Bytes) → length s < f
    → length s < g
    → joined next f r s ≡ joined next g r s
unfolding joined
joined-fuel next h zero g r s p q = absurd (omega arith)
joined-fuel next h (suc f) zero r s p q = absurd (omega arith)
joined-fuel next h (suc f) (suc g) (j, items) [] p q = refl
joined-fuel next h (suc f) (suc g) (j, items) (c ∷ s) p q = elim (Bool-cases (is_joiner c)) [
  | inr e ↦ rw (e, joined)
  | inl e ↦ elim (Bool-cases (other_joiner j c)) [
    | inl o ↦ rw (e, o, joined)
    | inr o ↦
        rw (e, o, joined)
          (same_rest next f g c items (length s) (next s) (h s (length s) (omega arith))
            (λ x t k. joined-fuel next h f g (some c, snoc items x) t (omega arith) (omega arith)))
  ]
]

-- At every depth, any fuel above the number of bytes left gives the loop the same result as one
-- more than that number: the parser never refuses a text for want of fuel.
pub joined-enough_fuel :
    (levels fuel : ℕ) (r : Joined) (s : Bytes)
    → length s < fuel
    → joined (atom (expression levels)) fuel r s
      ≡ joined (atom (expression levels)) (suc (length s)) r s
joined-enough_fuel levels fuel r s h =
    joined-fuel (atom (expression levels))
      (atom-Shrinks (expression levels) (expression-Shrinks levels)) fuel (suc (length s)) r s h
      (omega arith)
