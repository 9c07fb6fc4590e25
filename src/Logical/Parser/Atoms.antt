-- ===== src/Logical/Parser/Atoms.antt =====
-- The parser of src/clamdb/logical.rs reads back the text of numbers, comparisons and the atoms
-- without parentheses.
use blackshard.Prelude.{
  ℕ, ◌<◌, ◌≡◌, refl, ap, ◌∙◌, false, [], ◌∷◌, Option, none, some, arith, leb, ◌==◌,
}
use blackshard.Logical.{Compare, greater, less, equal, Expr, seen, count}
use blackshard.Logical.Parser.{
  Bytes, M, max_subsignatures, is_digit, number, compare_of, distinct_part, compared, comparison,
  single, numbered, atom, is_joiner, lift, ◌>>=◌,
}
use blackshard.Logical.Parser.Parsed.{limit_bound, AtMost}
use blackshard.Logical.Parser.Print.{
  decimal, sign, print_distinct, NoDigit, number-decimal, StartsDigit, decimal-starts,
}

-- A step that succeeds hands its result on.
pub >>=-eq :
    {A B : Type 0} (m : M A) (f : A → M B) (s : Bytes) (a : A) (t : Bytes)
    → m s ≡ some (a, t)
    → (m >>= f) s ≡ f a t
>>=-eq {A} {B} m f s a t e =
    ap
      (λ (r : Option (A × Bytes)).
        let o : Option (B × Bytes) = elim r [ none ↦ none | some (x, u) ↦ f x u ] in o)
      e

-- Nothing in front that would still belong to a number or a comparison.
abbrev pub Follows : Bytes → Type 0
Follows [] = Unit
Follows (c ∷ s) = (is_digit c ≡ false) × (compare_of c ≡ none) × ((c == b',') ≡ false)

-- Nothing in front that would go on with the expression.
abbrev pub Ends : Bytes → Type 0
Ends [] = Unit
Ends (c ∷ s) = (is_joiner c ≡ false) × Follows (c ∷ s)

pub Ends-Follows : (s : Bytes) → Ends s → Follows s
Ends-Follows [] h = tt
Ends-Follows (c ∷ s) h = h.1

Follows-NoDigit : (s : Bytes) → Follows s → NoDigit s
Follows-NoDigit [] h = tt
Follows-NoDigit (c ∷ s) h = h.0

pub comparison-absent : (s : Bytes) → Follows s → comparison s ≡ some (none, s)
unfolding comparison
comparison-absent [] h = refl
comparison-absent (c ∷ s) h = rw (h.1, comparison)

distinct_part-print :
    (d : Option ℕ) (rest : Bytes)
    → AtMost d
    → Follows rest
    → distinct_part (print_distinct d rest) ≡ some (d, rest)
unfolding distinct_part
distinct_part-print none [] a h = refl
distinct_part-print none (c ∷ s) a h = rw (h.2)
distinct_part-print (some d) rest a h =
    >>=-eq number _ (decimal d rest) d rest (number-decimal d rest a (Follows-NoDigit rest h))

print_distinct-NoDigit :
    (d : Option ℕ) (rest : Bytes) → Follows rest → NoDigit (print_distinct d rest)
print_distinct-NoDigit none rest h = Follows-NoDigit rest h
print_distinct-NoDigit (some d) rest h = refl

compared-print :
    (compare : Compare) (limit : ℕ) (d : Option ℕ) (rest : Bytes)
    → limit < limit_bound
    → AtMost d
    → Follows rest
    → compared compare (decimal limit (print_distinct d rest))
      ≡ some (some (compare, (limit, d)), rest)
unfolding compared
compared-print compare limit d rest b a h =
    >>=-eq number _ (decimal limit (print_distinct d rest)) limit (print_distinct d rest)
      (number-decimal limit (print_distinct d rest) b (print_distinct-NoDigit d rest h))
    ∙ >>=-eq distinct_part _ (print_distinct d rest) d rest (distinct_part-print d rest a h)

-- A comparison is read back from its text.
pub comparison-print :
    (compare : Compare) (limit : ℕ) (d : Option ℕ) (rest : Bytes)
    → limit < limit_bound
    → AtMost d
    → Follows rest
    → comparison (sign compare ∷ decimal limit (print_distinct d rest))
      ≡ some (some (compare, (limit, d)), rest)
unfolding comparison
comparison-print greater limit d rest b a h = compared-print greater limit d rest b a h
comparison-print less limit d rest b a h = compared-print less limit d rest b a h
comparison-print equal limit d rest b a h = compared-print equal limit d rest b a h

small :
    (sub : ℕ) → sub < max_subsignatures → (sub < limit_bound) × (leb max_subsignatures sub ≡ false)
small sub h = (omega arith, ground arith)

numbered-seen :
    (sub : ℕ) (rest : Bytes)
    → sub < max_subsignatures
    → Follows rest
    → numbered (decimal sub rest) ≡ some (seen sub, rest)
unfolding numbered single
numbered-seen sub rest b h =
    >>=-eq number _ (decimal sub rest) sub rest
      (number-decimal sub rest (small sub b).0 (Follows-NoDigit rest h))
    ∙ rw ((small sub b).1)
        (>>=-eq comparison (λ c. lift (single sub c)) rest none rest (comparison-absent rest h))

sign-NoDigit : (compare : Compare) (s : Bytes) → NoDigit (sign compare ∷ s)
sign-NoDigit greater s = refl
sign-NoDigit less s = refl
sign-NoDigit equal s = refl

numbered-count :
    (sub : ℕ) (compare : Compare) (limit : ℕ) (rest : Bytes)
    → sub < max_subsignatures
    → limit < limit_bound
    → Follows rest
    → numbered (decimal sub (sign compare ∷ decimal limit rest))
      ≡ some (count sub compare limit, rest)
unfolding numbered single
numbered-count sub compare limit rest b l h =
    let tail = sign compare ∷ decimal limit rest in
    >>=-eq number _ (decimal sub tail) sub tail
      (number-decimal sub tail (small sub b).0 (sign-NoDigit compare (decimal limit rest)))
    ∙ rw ((small sub b).1) (
        >>=-eq comparison (λ c. lift (single sub c)) tail (some (compare, (limit, none))) rest
          (comparison-print compare limit none rest l tt h))

-- A text that begins with a digit is no group.
atom-numbered : (inner : M Expr) (s : Bytes) → StartsDigit s → atom inner s ≡ numbered s
unfolding atom
atom-numbered inner [] h = absurd h
atom-numbered inner (c ∷ s) h = let other : (c == b'(') ≡ false = ground arith in rw other

-- At any depth an atom reads back a sub-signature.
pub atom-seen :
    (inner : M Expr) (sub : ℕ) (rest : Bytes)
    → sub < max_subsignatures
    → Follows rest
    → atom inner (decimal sub rest) ≡ some (seen sub, rest)
atom-seen inner sub rest b h =
    atom-numbered inner (decimal sub rest) (decimal-starts sub rest) ∙ numbered-seen sub rest b h

-- At any depth an atom reads back a sub-signature with a comparison.
pub atom-count :
    (inner : M Expr) (sub : ℕ) (compare : Compare) (limit : ℕ) (rest : Bytes)
    → sub < max_subsignatures
    → limit < limit_bound
    → Follows rest
    → atom inner (decimal sub (sign compare ∷ decimal limit rest))
      ≡ some (count sub compare limit, rest)
atom-count inner sub compare limit rest b l h =
    atom-numbered inner _ (decimal-starts sub (sign compare ∷ decimal limit rest))
    ∙ numbered-count sub compare limit rest b l h
