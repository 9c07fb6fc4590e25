-- ===== src/Logical/Parser/Print.antt =====
-- The text of an expression, in the notation that src/clamdb/logical.rs reads: what the parser is
-- measured against. Each function puts its text in front of the bytes that follow.
use native.Mathlib.Nat.{pow-succ'}
use mathlib.Core.List.{append_assoc, append-nil}
use blackshard.Prelude.{
  ℕ, zero, suc, ◌+◌, ◌-◌, ◌*◌, ◌/◌, ◌%◌, ◌^◌, ◌≤◌, ◌<◌, true, false, ◌||◌, List, [], ◌∷◌, ◌++◌,
  Option, none, some, arith, ltb, ◌==◌, length, length-append, Bool-cases, ◌≡◌, refl, sym, ap, ◌∙◌,
  inl, inr, ltb→lt, lt→ltb,
}
use blackshard.Logical.{
  Compare, greater, less, equal, Expr, Exprs, seen, count, all, any, total, nil, cons,
}
use blackshard.Logical.Parser.{Bytes, is_digit, span_digits, value_from, number}
use blackshard.Logical.Parser.Parsed.{limit_bound}

-- The decimal digits of a number of at most `fuel` digits.
unfoldable pub decimal_from : ℕ → ℕ → Bytes → Bytes
decimal_from zero n rest = rest
decimal_from (suc fuel) n rest = elim (ltb n 10) [
  | true ↦ (n + b'0') ∷ rest
  | false ↦ decimal_from fuel (n / 10) ((n % 10 + b'0') ∷ rest)
]

unfoldable pub decimal : ℕ → Bytes → Bytes
decimal n rest = decimal_from 9 n rest

abbrev pub sign : Compare → ℕ
sign greater = b'>'
sign less = b'<'
sign equal = b'='

abbrev pub print_distinct : Option ℕ → Bytes → Bytes
print_distinct none rest = rest
print_distinct (some d) rest = b',' ∷ decimal d rest

unfoldable pub print_seen : List ℕ → Bytes → Bytes
print_seen [] rest = rest
print_seen (sub ∷ []) rest = decimal sub rest
print_seen (sub ∷ sub' ∷ subs) rest = decimal sub (b'|' ∷ print_seen (sub' ∷ subs) rest)

-- `print_atom` puts a conjunction or a disjunction in parentheses; `print_items` is what stands
-- between them.
unfoldable mutual
  pub print_atom : Expr → Bytes → Bytes
  print_atom (seen sub) rest = decimal sub rest
  print_atom (count sub compare limit) rest = decimal sub (sign compare ∷ decimal limit rest)
  print_atom (all items) rest = b'(' ∷ print_items b'&' items (b')' ∷ rest)
  print_atom (any items) rest = b'(' ∷ print_items b'|' items (b')' ∷ rest)
  print_atom (total subs compare limit distinct) rest =
      b'(' ∷ print_seen subs (b')' ∷ sign compare ∷ decimal limit (print_distinct distinct rest))

  pub print_items : ℕ → Exprs → Bytes → Bytes
  print_items joiner nil rest = rest
  print_items joiner (cons e nil) rest = print_atom e rest
  print_items joiner (cons e (cons e' items)) rest =
      print_atom e (joiner ∷ print_items joiner (cons e' items) rest)

unfoldable pub print : Expr → Bytes
print (all items) = print_items b'&' items []
print (any items) = print_items b'|' items []
print e = print_atom e []

-- The bytes at the front are no digits.
abbrev pub NoDigit : Bytes → Type 0
NoDigit [] = Unit
NoDigit (c ∷ s) = is_digit c ≡ false

span_digits-NoDigit : (rest : Bytes) → NoDigit rest → span_digits rest ≡ ([], rest)
unfolding span_digits
span_digits-NoDigit [] h = refl
span_digits-NoDigit (c ∷ s) h = rw h

value_from-append :
    (n : ℕ) (xs ys : Bytes) → value_from n (xs ++ ys) ≡ value_from (value_from n xs) ys
unfolding value_from
value_from-append n [] ys = refl
value_from-append n (x ∷ xs) ys = value_from-append (n * 10 + (x - b'0')) xs ys

span_digits-cons :
    (d : ℕ) (s ds tail : Bytes)
    → is_digit d ≡ true
    → span_digits s ≡ (ds, tail)
    → span_digits (d ∷ s) ≡ (d ∷ ds, tail)
unfolding span_digits
span_digits-cons d s ds tail h e = rw (h, e)

-- The digits of `n` in front of the digits `ds`.
abbrev Reads : ℕ → ℕ → Bytes → Bytes → Bytes → Type 0
Reads fuel n s ds tail =
    (es : Bytes) × (span_digits s ≡ (es ++ ds, tail))
    × (value_from 0 es ≡ n)
    × (0 < length es)
    × (length es ≤ fuel)

tenth : (n k : ℕ) → n < 10 ^ suc k → n / 10 < 10 ^ k
tenth n k h = let h' : n < 10 * 10 ^ k = rw (pow-succ' 10 k) at h in omega arith

one_digit :
    (fuel n : ℕ) (rest ds tail : Bytes)
    → span_digits rest ≡ (ds, tail)
    → n < 10
    → Reads (suc fuel) n ((n + b'0') ∷ rest) ds tail
unfolding value_from
one_digit fuel n rest ds tail e h = (
  (n + b'0') ∷ [],
  span_digits-cons (n + b'0') rest ds tail (ground arith) e,
  omega arith,
  omega arith,
  omega arith,
)

abbrev last_digit : ℕ → ℕ
last_digit n = n % 10 + b'0'

more_digits :
    (fuel n : ℕ) (s ds tail : Bytes)
    → Reads fuel (n / 10) s (last_digit n ∷ ds) tail
    → Reads (suc fuel) n s ds tail
unfolding value_from
more_digits fuel n s ds tail (es, e, v, p, q) = (
  es ++ last_digit n ∷ [],
  e ∙ ap (λ (t : Bytes). (t, tail)) (sym (append_assoc es (last_digit n ∷ []) ds)),
  value_from-append 0 es (last_digit n ∷ []) ∙ omega arith,
  omega (arith, length-append es (last_digit n ∷ [])),
  omega (arith, length-append es (last_digit n ∷ [])),
)

decimal_from-Reads :
    (fuel n : ℕ) (rest ds tail : Bytes)
    → span_digits rest ≡ (ds, tail)
    → n < 10 ^ suc fuel
    → Reads (suc fuel) n (decimal_from (suc fuel) n rest) ds tail
unfolding decimal_from
decimal_from-Reads zero n rest ds tail e h =
    let small : ltb n 10 ≡ true = lt→ltb n 10 h in
    rw (small, decimal_from) (one_digit 0 n rest ds tail e h)
decimal_from-Reads (suc fuel) n rest ds tail e h = elim (Bool-cases (ltb n 10)) [
  | inl small ↦ rw (small, decimal_from) (one_digit (suc fuel) n rest ds tail e (ltb→lt n 10 small))
  | inr large ↦
      rw (large, decimal_from)
        (more_digits (suc fuel) n (decimal_from (suc fuel) (n / 10) (last_digit n ∷ rest)) ds tail (
          decimal_from-Reads fuel (n / 10) (last_digit n ∷ rest) (last_digit n ∷ ds) tail
            (span_digits-cons (last_digit n) rest ds tail (ground arith) e) (tenth n (suc fuel) h)))
]

-- A number of at most nine digits is read back from its text, in front of what is no digit.
pub number-decimal :
    (n : ℕ) (rest : Bytes)
    → n < limit_bound
    → NoDigit rest
    → number (decimal n rest) ≡ some (n, rest)
unfolding number decimal
number-decimal n rest h d =
    let (es, e, v, p, q) = decimal_from-Reads 8 n rest [] rest (span_digits-NoDigit rest d) h in
    let e' = e ∙ ap (λ (t : Bytes). (t, rest)) (append-nil es) in
    let fits : (length es == 0 || ltb 9 (length es)) ≡ false = ground arith in
    rw (e', number) (rw (fits, v))

abbrev pub StartsDigit : Bytes → Type 0
StartsDigit [] = ⊥
StartsDigit (c ∷ s) = is_digit c ≡ true

decimal_from-starts :
    (fuel n : ℕ) (rest : Bytes) → StartsDigit rest → StartsDigit (decimal_from fuel n rest)
unfolding decimal_from
decimal_from-starts zero n rest h = h
decimal_from-starts (suc fuel) n rest h = elim (Bool-cases (ltb n 10)) [
  | inl e ↦ rw (e, decimal_from) (ground arith)
  | inr e ↦
      rw (e, decimal_from) (decimal_from-starts fuel (n / 10) (last_digit n ∷ rest) (ground arith))
]

-- The text of a number begins with a digit.
pub decimal-starts : (n : ℕ) (rest : Bytes) → StartsDigit (decimal n rest)
unfolding decimal decimal_from
decimal-starts n rest = elim (Bool-cases (ltb n 10)) [
  | inl e ↦ rw (e, decimal_from) (ground arith)
  | inr e ↦
      rw (e, decimal_from) (decimal_from-starts 8 (n / 10) (last_digit n ∷ rest) (ground arith))
]
