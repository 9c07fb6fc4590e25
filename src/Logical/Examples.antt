-- ===== src/Logical/Examples.antt =====
-- The expressions of src/clamdb/logical.rs: the tests of the source, and the theorems at concrete
-- inputs.
use Prim.Native.Char.{code}
use Prim.Native.String.{String}
use blackshard.Prelude.{ℕ, suc, ◌*◌, ◌≤◌, ◌≡◌, refl, true, false, List, [], ◌∷◌, none, some, arith}
use blackshard.Logical.{
  greater, Expr, seen, all, any, total, nil, cons, subsignatures, holds, required_bytes,
  saturating_add, sum_from, matched_from, least_fixed,
}
use blackshard.Logical.Parser.{
  Bytes, parse, max_depth, span_digits, value_from, number, distinct_part, compared, comparison,
  insert_sorted, sort, dedup_after, dedup, group, single, expect, numbered, grouped, atom, joined,
  finish, sequence, expression, whole,
}
use blackshard.Logical.Parser.Parsed.{IsParsed}
use blackshard.Logical.Parser.Print.{print, decimal, decimal_from, print_items}
use blackshard.Logical.Strength.{matched_bytes}
use blackshard.Logical.Strength
use blackshard.Logical.Parser.Accepts
use blackshard.Logical.Parser.Fuel
use blackshard.Logical.Parser.RoundTrip

abbrev codes : String → Bytes
codes String.[] = []
codes (String.◌∷◌ c s) = code c ∷ codes s

computes : Unit {0}
unfolding parse span_digits value_from number distinct_part compared comparison insert_sorted sort
    dedup_after dedup group single expect numbered grouped atom joined finish sequence expression
    whole subsignatures holds sum_from saturating_add matched_from required_bytes least_fixed
computes = tt

and_or_test :
    parse (codes "0&1&(2|3)")
    ≡ some
        (all (cons (seen 0) (cons (seen 1) (cons (any (cons (seen 2) (cons (seen 3) nil))) nil))))
unfolding computes
and_or_test = refl

total_test : parse (codes "(1|0|1)>2,2") ≡ some (total (0 ∷ 1 ∷ []) greater 2 (some 2))
unfolding computes
total_test = refl

mixed_test : parse (codes "0&1|2") ≡ none
unfolding computes
mixed_test = refl

refused_test :
    (parse (codes "0&") ≡ none)
    × (parse (codes "(0&1") ≡ none)
    × (parse (codes "0&1)") ≡ none)
    × (parse (codes "0>1,2") ≡ none)
    × (parse (codes "99") ≡ none)
    × (parse (codes "0>99999999999") ≡ none)
unfolding computes
refused_test = (refl, refl, refl, refl, refl, refl)

group_total_test :
    (holds (2 ∷ 1 ∷ []) (total (0 ∷ 1 ∷ []) greater 2 (some 2)) ≡ true)
    × (holds (3 ∷ 0 ∷ []) (total (0 ∷ 1 ∷ []) greater 2 (some 2)) ≡ false)
unfolding computes
group_total_test = (refl, refl)

abbrev both : Expr
both = all (cons (seen 0) (cons (any (cons (seen 1) (cons (seen 2) nil))) nil))

abbrev fixed : List ℕ
fixed = 10 ∷ 6 ∷ 4 ∷ []

strength_test : required_bytes fixed both ≡ 14
unfolding computes
strength_test = refl

required_bytes-le-matched_example :
    required_bytes fixed both ≤ matched_bytes (1 ∷ 0 ∷ 2 ∷ []) fixed (subsignatures both)
unfolding computes
required_bytes-le-matched_example =
    Strength.required_bytes-le-matched (1 ∷ 0 ∷ 2 ∷ []) fixed both refl

-- A part that is named twice is required twice, though it need occur only once.
named_twice :
    (holds (1 ∷ []) (all (cons (seen 0) (cons (seen 0) nil))) ≡ holds (1 ∷ []) (seen 0))
    × (required_bytes fixed (all (cons (seen 0) (cons (seen 0) nil)))
        ≡ 2 * required_bytes fixed (seen 0))
unfolding computes
named_twice = (refl, refl)

parse-IsParsed_example : IsParsed (suc max_depth) (total (0 ∷ 1 ∷ []) greater 2 (some 2))
parse-IsParsed_example = Accepts.parse-IsParsed (codes "(1|0|1)>2,2") _ total_test

joined-enough_fuel_example :
    joined (atom (expression 3)) 100 (none, cons (seen 0) nil) (codes "&1&2")
    ≡ joined (atom (expression 3)) 5 (none, cons (seen 0) nil) (codes "&1&2")
joined-enough_fuel_example =
    Fuel.joined-enough_fuel 3 100 (none, cons (seen 0) nil) (codes "&1&2") (omega arith)

both-IsParsed : IsParsed (suc max_depth) both
unfolding IsParsed
both-IsParsed = (tt, (omega arith, ((tt, (omega arith, (omega arith, tt))), tt)))

parse-print_example : parse (print both) ≡ some both
unfolding print decimal decimal_from print_items
parse-print_example = RoundTrip.parse-print both both-IsParsed (omega arith)
