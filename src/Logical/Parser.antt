-- ===== src/Logical/Parser.antt =====
-- The parser of src/clamdb/logical.rs. `bytes` and `at` are the bytes still to be read; a method
-- returns what it read with the bytes after it. The recursion on the depth counts down the levels
-- of parentheses that are left, from `max_depth + 1` at depth 0.
pub mod Parsed
pub mod Numbers
pub mod Accepts
pub mod Ascending
pub mod Fuel
pub mod Print
pub mod Atoms
pub mod Sequences
pub mod RoundTrip
use blackshard.Prelude.{
  ℕ, zero, suc, ◌+◌, ◌-◌, ◌*◌, Bool, true, false, not, ◌&&◌, ◌||◌, List, [], ◌∷◌, ◌++◌, Option,
  none, some, ltb, leb, ◌==◌, if◌then◌else◌, length,
}
pub use blackshard.Prelude.Readers.{M, ◌>>=◌, return, fail}
use blackshard.Logical.{
  Compare, greater, less, equal, Expr, Exprs, seen, count, all, any, total, nil, cons,
  subsignatures,
}

abbrev pub Bytes : Type 0
Bytes = List ℕ

abbrev pub max_expression_bytes : ℕ
max_expression_bytes = 512

abbrev pub max_subsignatures : ℕ
max_subsignatures = 64

abbrev pub max_depth : ℕ
max_depth = 16

abbrev pub peek : Bytes → Option ℕ
peek [] = none
peek (c ∷ s) = some c

abbrev pub is_digit : ℕ → Bool
is_digit c = leb b'0' c && leb c b'9'

-- The digits at the front, and the rest.
unfoldable pub span_digits : Bytes → Bytes × Bytes
span_digits [] = ([], [])
span_digits (c ∷ s) =
    let (ds, rest) = span_digits s in if is_digit c then (c ∷ ds, rest) else ([], c ∷ s)

-- `str::parse` on digits; nine of them fit a u32.
unfoldable pub value_from : ℕ → Bytes → ℕ
value_from n [] = n
value_from n (c ∷ s) = value_from (n * 10 + (c - b'0')) s

unfoldable pub number : M ℕ
number s =
    let (ds, rest) = span_digits s in
    if length ds == 0 || ltb 9 (length ds) then none else some (value_from 0 ds, rest)

abbrev pub Comparison : Type 0
Comparison = Option (Compare × (ℕ × Option ℕ))

abbrev pub compare_of : ℕ → Option Compare
compare_of c =
    if c == b'>'
    then some greater
    else if c == b'<'
    then some less
    else if c == b'='
    then some equal
    else none

-- The `,m` behind a limit, if there is one.
unfoldable pub distinct_part : M (Option ℕ)
distinct_part [] = some (none, [])
distinct_part (c ∷ s) = if c == b',' then (do m ← number; return (some m)) s else some (none, c ∷ s)

-- What follows the sign of a comparison.
unfoldable pub compared : Compare → M Comparison
compared compare = do
  limit ← number
  distinct ← distinct_part
  return (some (compare, (limit, distinct)))

unfoldable pub comparison : M Comparison
comparison [] = some (none, [])
comparison (c ∷ s) = elim (compare_of c) [
  | none ↦ some (none, c ∷ s)
  | some compare ↦ compared compare s
]

-- `sort_unstable`, as an insertion sort, and `dedup`.
unfoldable pub insert_sorted : ℕ → List ℕ → List ℕ
insert_sorted n [] = n ∷ []
insert_sorted n (m ∷ l) = if leb n m then n ∷ m ∷ l else m ∷ insert_sorted n l

unfoldable pub sort : List ℕ → List ℕ
sort [] = []
sort (n ∷ l) = insert_sorted n (sort l)

unfoldable pub dedup_after : ℕ → List ℕ → List ℕ
dedup_after n [] = []
dedup_after n (m ∷ l) = let rest = dedup_after m l in if n == m then rest else m ∷ rest

unfoldable pub dedup : List ℕ → List ℕ
dedup [] = []
dedup (n ∷ l) = n ∷ dedup_after n l

unfoldable pub group : Expr → Comparison → Expr
group inner none = inner
group inner (some (compare, (limit, distinct))) =
    total (dedup (sort (subsignatures inner))) compare limit distinct

unfoldable pub single : ℕ → Comparison → Option Expr
single sub none = some (seen sub)
single sub (some (compare, (limit, some _))) = none
single sub (some (compare, (limit, none))) = some (count sub compare limit)

abbrev pub lift : {A : Type 0} → Option A → M A
lift none s = none
lift (some a) s = some (a, s)

-- Consumes the one byte, or fails.
unfoldable pub expect : ℕ → M (Unit {0})
expect b [] = none
expect b (c ∷ s) = if c == b then some (tt, s) else none

-- A sub-signature's number, with its comparison.
unfoldable pub numbered : M Expr
numbered = do
  sub ← number
  (if leb max_subsignatures sub then fail else (do c ← comparison; lift (single sub c)))

-- A group: what stands between the parentheses, with its comparison.
unfoldable pub grouped : M Expr → M Expr
grouped inner = do e ← inner; _ ← expect b')'; c ← comparison; return (group e c)

-- `atom`, where `inner` is `expression` one level down.
unfoldable pub atom : M Expr → M Expr
atom inner [] = numbered []
atom inner (c ∷ s) = if c == b'(' then grouped inner s else numbered (c ∷ s)

abbrev pub is_joiner : ℕ → Bool
is_joiner c = c == b'&' || c == b'|'

abbrev pub other_joiner : Option ℕ → ℕ → Bool
other_joiner none c = false
other_joiner (some j) c = not (j == c)

abbrev pub snoc : Exprs → Expr → Exprs
snoc nil e = cons e nil
snoc (cons x items) e = cons x (snoc items e)

abbrev pub Joined : Type 0
Joined = Option ℕ × Exprs

-- The `while let` of `expression`; `none` also if the fuel runs out.
unfoldable pub joined : M Expr → ℕ → Joined → M Joined
joined next zero (j, items) s = none
joined next (suc fuel) (j, items) [] = some ((j, items), [])
joined next (suc fuel) (j, items) (c ∷ s) = elim (is_joiner c) [
  | false ↦ some ((j, items), c ∷ s)
  | true ↦ elim (other_joiner j c) [
    | true ↦ none
    | false ↦ elim (next s) [
      | none ↦ none
      | some (e, s') ↦ joined next fuel (some c, snoc items e) s'
    ]
  ]
]

-- `items.pop()?`
abbrev pub last_item : Exprs → Option Expr
last_item nil = none
last_item (cons e nil) = some e
last_item (cons e (cons e' items)) = last_item (cons e' items)

unfoldable pub finish : Joined → Option Expr
finish (none, items) = last_item items
finish (some j, items) = some (if j == b'&' then all items else any items)

-- One expression whose atoms are read by `next`.
unfoldable pub sequence : M Expr → M Expr
sequence next s =
    (do first ← next; r ← joined next (suc (length s)) (none, cons first nil); lift (finish r)) s

unfoldable pub expression : ℕ → M Expr
expression zero s = none
expression (suc levels) s = sequence (atom (expression levels)) s

-- The whole text must be read.
unfoldable pub whole : Option (Expr × Bytes) → Option Expr
whole none = none
whole (some (e, [])) = some e
whole (some (e, _ ∷ _)) = none

unfoldable pub parse : Bytes → Option Expr
parse text =
    if length text == 0 || ltb max_expression_bytes (length text)
    then none
    else whole (expression (suc max_depth) text)
