-- ===== src/Logical/Parser/Accepts.antt =====
-- What the parser of src/clamdb/logical.rs accepts: the expressions that it returns.
use blackshard.Prelude.{
  ℕ, zero, suc, ◌<◌, ◌≡◌, refl, inl, inr, ◌||◌, if_split, subst, [], ◌∷◌, Option, none, some, arith,
  leb, ltb, ◌==◌, length, Bool-cases,
}
use mathlib.Core.Option.{some-injective}
use blackshard.Logical.{Expr, Exprs, nil, cons, subsignatures}
use blackshard.Logical.Parser.{
  Bytes, M, max_subsignatures, number, Comparison, comparison, group, single, expect, numbered,
  grouped, atom, Joined, joined, snoc, finish, sequence, expression, whole, parse, is_joiner,
  other_joiner, max_depth, max_expression_bytes, lift,
}
use blackshard.Logical.Parser.Ascending.{dedup-sort-IsAscending, Among-dedup-sort}
use blackshard.Logical.Parser.Parsed.{
  limit_bound, HasTwo, IsParsed, AreParsed, IsParsed-suc, below, refers, HasMember-dedup-sort,
}
use blackshard.Logical.Parser.Numbers.{
  Post, Post-bind, number-lt, IsComparison, comparison-IsComparison,
}

Post-map :
    {A : Type 0} (P Q : A → Type 0) (r : Option (A × Bytes))
    → ((a : A) → P a → Q a)
    → Post P r
    → Post Q r
Post-map P Q none f h = tt
Post-map P Q (some (a, s)) f h = f a h

single-IsParsed :
    (levels sub : ℕ) (c : Comparison) (s : Bytes)
    → sub < max_subsignatures
    → IsComparison c
    → Post (IsParsed levels) (lift (single sub c) s)
unfolding single IsParsed
single-IsParsed levels sub none s h k = h
single-IsParsed levels sub (some (compare, (limit, none))) s h k = (h, k.0)
single-IsParsed levels sub (some (compare, (limit, some d))) s h k = tt

group-IsParsed :
    (levels : ℕ) (e : Expr) (c : Comparison)
    → IsParsed (suc levels) e
    → IsComparison c
    → IsParsed (suc levels) (group e c)
unfolding group IsParsed
group-IsParsed levels e none h k = h
group-IsParsed levels e (some (compare, (limit, d))) h k = (
  HasMember-dedup-sort (subsignatures e) (refers (suc levels) e h),
  dedup-sort-IsAscending (subsignatures e),
  λ j m. below (suc levels) e h j ((Among-dedup-sort j (subsignatures e)).0 m),
  k.0,
  k.1,
)

numbered-IsParsed : (levels : ℕ) (s : Bytes) → Post (IsParsed levels) (numbered s)
unfolding numbered
numbered-IsParsed levels s =
    Post-bind (λ n. n < limit_bound) (IsParsed levels) number _ s (number-lt s)
      (λ sub s' h. elim (Bool-cases (leb max_subsignatures sub)) [
        | inl e ↦ rw e tt
        | inr e ↦ rw e (
            Post-bind IsComparison (IsParsed levels) comparison _ s' (comparison-IsComparison s')
              (λ c s'' k. single-IsParsed levels sub c s'' (ground arith) k))
      ])

anything : (r : Option (Unit {0} × Bytes)) → Post (λ _. Unit {0}) r
anything none = tt
anything (some _) = tt

grouped-IsParsed :
    (levels : ℕ) (inner : M Expr)
    → ((s : Bytes) → Post (IsParsed (suc levels)) (inner s))
    → (s : Bytes) → Post (IsParsed (suc levels)) (grouped inner s)
unfolding grouped
grouped-IsParsed levels inner f s =
    Post-bind (IsParsed (suc levels)) (IsParsed (suc levels)) inner _ s (f s) (λ e s' h.
      Post-bind (λ _. Unit {0}) (IsParsed (suc levels)) (expect b')') _ s'
        (anything (expect b')' s'))
        (λ _ t _.
          Post-bind IsComparison (IsParsed (suc levels)) comparison _ t (comparison-IsComparison t)
            (λ c u k. group-IsParsed levels e c h k)))

-- `inner` fails where no level of parentheses is left.
atom-IsParsed :
    (levels : ℕ)
    → ((s : Bytes) → Post (IsParsed levels) (expression levels s))
    → (s : Bytes) → Post (IsParsed levels) (atom (expression levels) s)
unfolding atom
atom-IsParsed levels f [] = numbered-IsParsed levels []
atom-IsParsed zero f (c ∷ s) =
    if_split (Post (IsParsed zero)) (c == b'(') (unfold expression grouped in tt)
      (numbered-IsParsed zero (c ∷ s))
atom-IsParsed (suc levels) f (c ∷ s) =
    if_split (Post (IsParsed (suc levels))) (c == b'(')
      (grouped-IsParsed levels (expression (suc levels)) f s)
      (numbered-IsParsed (suc levels) (c ∷ s))

-- A single item as long as no joiner was read, and two or more afterwards.
abbrev IsJoined : ℕ → Joined → Type 0
IsJoined levels (none, items) = (e : Expr) × (items ≡ cons e nil) × IsParsed levels e
IsJoined levels (some j, items) = HasTwo items × AreParsed levels items

AreParsed-snoc :
    (levels : ℕ) (items : Exprs) (e : Expr)
    → AreParsed levels items
    → IsParsed levels e
    → AreParsed levels (snoc items e)
unfolding IsParsed
AreParsed-snoc levels nil e h k = (k, tt)
AreParsed-snoc levels (cons x items) e h k = (h.0, AreParsed-snoc levels items e h.1 k)

HasTwo-snoc : (x : Expr) (items : Exprs) (e : Expr) → HasTwo (snoc (cons x items) e)
HasTwo-snoc x nil e = tt
HasTwo-snoc x (cons y items) e = tt

-- Whatever was read so far, one more item makes at least two.
IsJoined-snoc :
    (levels : ℕ) (j : Option ℕ) (items : Exprs) (c : ℕ) (e : Expr)
    → IsJoined levels (j, items)
    → IsParsed levels e
    → IsJoined levels (some c, snoc items e)
unfolding IsParsed
IsJoined-snoc levels none items c e h k = rw (h.1) (tt, (h.2, (k, tt)))
IsJoined-snoc levels (some j) (cons x items) c e h k =
    (HasTwo-snoc x items e, AreParsed-snoc levels (cons x items) e h.1 k)
IsJoined-snoc levels (some j) nil c e h k = absurd h.0

joined-IsJoined :
    (levels : ℕ) (next : M Expr)
    → ((s : Bytes) → Post (IsParsed levels) (next s))
    → (fuel : ℕ) (j : Option ℕ) (items : Exprs) (s : Bytes) → IsJoined levels (j, items)
    → Post (IsJoined levels) (joined next fuel (j, items) s)
unfolding joined
joined-IsJoined levels next f zero j items s h = tt
joined-IsJoined levels next f (suc fuel) j items [] h = h
joined-IsJoined levels next f (suc fuel) j items (c ∷ s) h = elim (Bool-cases (is_joiner c)) [
  | inr e ↦ rw (e, joined) h
  | inl e ↦ elim (Bool-cases (other_joiner j c)) [
    | inl o ↦ rw (e, o, joined) tt
    | inr o ↦
        rw (e, o, joined)
          (Post-bind (IsParsed levels) (IsJoined levels) next _ s (f s) (λ x t k.
            joined-IsJoined levels next f fuel (some c) (snoc items x) t
              (IsJoined-snoc levels j items c x h k)))
  ]
]

finish-IsParsed :
    (levels : ℕ) (j : Option ℕ) (items : Exprs) (s : Bytes)
    → IsJoined levels (j, items)
    → Post (IsParsed (suc levels)) (lift (finish (j, items)) s)
unfolding finish
finish-IsParsed levels none items s h = rw (h.1) (IsParsed-suc levels h.0 h.2)
finish-IsParsed levels (some j) items s h =
    unfold IsParsed in elim (Bool-cases (j == b'&')) [ inl e ↦ rw e h | inr e ↦ rw e h ]

sequence-IsParsed :
    (levels : ℕ) (next : M Expr)
    → ((s : Bytes) → Post (IsParsed levels) (next s))
    → (s : Bytes) → Post (IsParsed (suc levels)) (sequence next s)
unfolding sequence
sequence-IsParsed levels next f s =
    Post-bind (IsParsed levels) (IsParsed (suc levels)) next _ s (f s) (λ e t h.
      Post-bind (IsJoined levels) (IsParsed (suc levels))
        (joined next (suc (length s)) (none, cons e nil)) _ t
        (joined-IsJoined levels next f (suc (length s)) none (cons e nil) t (e, refl, h))
        (λ r u k. finish-IsParsed levels r.0 r.1 u k))

expression-IsParsed : (levels : ℕ) (s : Bytes) → Post (IsParsed levels) (expression levels s)
unfolding expression
expression-IsParsed zero s = tt
expression-IsParsed (suc levels) s =
    sequence-IsParsed levels (atom (expression levels))
      (atom-IsParsed levels (expression-IsParsed levels)) s

whole-IsParsed :
    (levels : ℕ) (r : Option (Expr × Bytes)) (e : Expr)
    → Post (IsParsed levels) r
    → whole r ≡ some e
    → IsParsed levels e
unfolding whole
whole-IsParsed levels none e h p = absurd (ground arith)
whole-IsParsed levels (some (x, [])) e h p = subst (IsParsed levels) (some-injective _ _ p) h
whole-IsParsed levels (some (x, _ ∷ _)) e h p = absurd (ground arith)

-- An expression that the parser returns nests at most 16 levels of parentheses, refers to
-- sub-signatures below 64 only, has limits of at most nine digits, joins two or more parts in
-- every conjunction and disjunction, and has a total count some sub-signatures, listed in strictly
-- ascending order.
pub parse-IsParsed : (text : Bytes) (e : Expr) → parse text ≡ some e → IsParsed (suc max_depth) e
unfolding parse
parse-IsParsed text e h =
    elim (Bool-cases (length text == 0 || ltb max_expression_bytes (length text))) [
      | inl c ↦ absurd (ground arith)
      | inr c ↦
          whole-IsParsed (suc max_depth) (expression (suc max_depth) text) e
            (expression-IsParsed (suc max_depth) text) (ground arith)
    ]
