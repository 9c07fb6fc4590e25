-- ===== src/Logical/Parser/RoundTrip.antt =====
-- The parser of src/clamdb/logical.rs reads back the text of every expression that it may return.
use blackshard.Prelude.{
  ℕ, zero, suc, ◌≤◌, ◌≡◌, refl, ap, ◌∙◌, if◌then◌else◌, inl, inr, false, ◌||◌, List, [], ◌∷◌,
  Option, none, some, arith, ltb, ◌==◌, length,
}
use blackshard.Logical.{
  Compare, Expr, Exprs, seen, count, all, any, total, nil, cons, subsignatures,
}
use blackshard.Logical.Parser.{
  Bytes, M, max_depth, max_expression_bytes, Comparison, comparison, group, expect, grouped, atom,
  sequence, expression, whole, parse, numbered, number, span_digits, sort, dedup,
}
use blackshard.Logical.Parser.Parsed.{AllBelow, HasTwo, IsParsed, AreParsed}
use blackshard.Logical.Parser.Print.{
  decimal, sign, print_distinct, print_seen, print_atom, print_items, print,
}
use blackshard.Logical.Parser.Atoms.{
  >>=-eq, Follows, Ends, comparison-print, comparison-absent, atom-seen, atom-count,
}
use blackshard.Logical.Parser.Sequences.{
  Reads, AllRead, IsJoiner, expression-atom, expression-items,
}
use blackshard.Logical.Parser.Ascending.{dedup-sort_ascending}

grouped-print :
    (inner : M Expr) (s : Bytes) (e : Expr) (t : Bytes) (k : Comparison) (u : Bytes)
    → inner s ≡ some (e, b')' ∷ t)
    → comparison t ≡ some (k, u)
    → grouped inner s ≡ some (group e k, u)
unfolding grouped expect
grouped-print inner s e t k u p q = >>=-eq inner _ s e (b')' ∷ t) p ∙ >>=-eq comparison _ t k u q

abbrev seens : List ℕ → Exprs
seens [] = nil
seens (sub ∷ subs) = cons (seen sub) (seens subs)

-- The group of sub-signatures that a total is written with.
abbrev counted : ℕ → List ℕ → Expr
counted sub [] = seen sub
counted sub (sub' ∷ subs) = any (seens (sub ∷ sub' ∷ subs))

print_seen-items :
    (sub : ℕ) (subs : List ℕ) (rest : Bytes)
    → print_seen (sub ∷ subs) rest ≡ print_items b'|' (seens (sub ∷ subs)) rest
unfolding print_seen print_items
print_seen-items sub [] rest = refl
print_seen-items sub (sub' ∷ subs) rest =
    ap (λ t. decimal sub (b'|' ∷ t)) (print_seen-items sub' subs rest)

subsignatures-seens : (subs : List ℕ) → subsignatures (any (seens subs)) ≡ subs
unfolding subsignatures
subsignatures-seens [] = refl
subsignatures-seens (sub ∷ subs) = ap (◌∷◌ sub) (subsignatures-seens subs)

subsignatures-counted : (sub : ℕ) (subs : List ℕ) → subsignatures (counted sub subs) ≡ sub ∷ subs
unfolding subsignatures
subsignatures-counted sub [] = refl
subsignatures-counted sub (sub' ∷ subs) = subsignatures-seens (sub ∷ sub' ∷ subs)

seens-AllRead : (levels : ℕ) (subs : List ℕ) → AllBelow subs → AllRead levels (seens subs)
seens-AllRead levels [] h = tt
seens-AllRead levels (sub ∷ subs) h = (
  λ rest k. unfold print_atom in atom-seen (expression levels) sub rest (h sub (inl refl)) k,
  seens-AllRead levels subs (λ j m. h j (inr m)),
)

group_end : (t : Bytes) → Ends (b')' ∷ t)
group_end t = (refl, (refl, refl, refl))

expression-counted :
    (levels sub : ℕ) (subs : List ℕ) (t : Bytes)
    → AllBelow (sub ∷ subs)
    → expression (suc levels) (print_seen (sub ∷ subs) (b')' ∷ t))
      ≡ some (counted sub subs, b')' ∷ t)
unfolding print_seen print_atom
expression-counted levels sub [] t h =
    expression-atom levels (seen sub) (b')' ∷ t) (seens-AllRead levels (sub ∷ []) h).0 (group_end t)
expression-counted levels sub (sub' ∷ subs) t h =
    ap (expression (suc levels)) (print_seen-items sub (sub' ∷ subs) (b')' ∷ t))
    ∙ expression-items levels b'|' (seens (sub ∷ sub' ∷ subs)) (b')' ∷ t) refl tt
        (seens-AllRead levels (sub ∷ sub' ∷ subs) h) (group_end t)

total-Reads :
    (levels : ℕ) (subs : List ℕ) (compare : Compare) (limit : ℕ) (d : Option ℕ)
    → IsParsed (suc levels) (total subs compare limit d)
    → Reads (suc levels) (total subs compare limit d)
unfolding IsParsed print_atom atom group
total-Reads levels [] compare limit d h rest k = absurd h.0
total-Reads levels (sub ∷ subs) compare limit d h rest k =
    let tail = sign compare ∷ decimal limit (print_distinct d rest) in
    grouped-print (expression (suc levels)) (print_seen (sub ∷ subs) (b')' ∷ tail))
      (counted sub subs) tail (some (compare, (limit, d))) rest
      (expression-counted levels sub subs tail h.2)
      (comparison-print compare limit d rest h.3 h.4 k)
    ∙ ap (λ (l : List ℕ). let o : Option (Expr × Bytes) = some (total l compare limit d, rest) in o)
        (ap (λ l. dedup (sort l)) (subsignatures-counted sub subs)
          ∙ dedup-sort_ascending (sub ∷ subs) h.1)

group-Reads :
    (levels c : ℕ) (items : Exprs) (rest : Bytes)
    → IsJoiner c
    → HasTwo items
    → AllRead levels items
    → Follows rest
    → atom (expression (suc levels)) (b'(' ∷ print_items c items (b')' ∷ rest))
      ≡ some (if c == b'&' then all items else any items, rest)
unfolding atom group
group-Reads levels c items rest j two h k =
    grouped-print (expression (suc levels)) (print_items c items (b')' ∷ rest)) _ rest none rest
      (expression-items levels c items (b')' ∷ rest) j two h (group_end rest))
      (comparison-absent rest k)

mutual
  unfolding IsParsed print_atom

  reads : (levels : ℕ) (e : Expr) → IsParsed levels e → Reads levels e
  reads levels (seen sub) h rest k = atom-seen (expression levels) sub rest h k
  reads levels (count sub compare limit) h rest k =
      atom-count (expression levels) sub compare limit rest h.0 h.1 k
  reads zero (all items) h rest k = absurd h
  reads (suc levels) (all items) h rest k =
      group-Reads levels b'&' items rest refl h.0 (all_read levels items h.1) k
  reads zero (any items) h rest k = absurd h
  reads (suc levels) (any items) h rest k =
      group-Reads levels b'|' items rest refl h.0 (all_read levels items h.1) k
  reads zero (total subs compare limit d) h rest k = absurd h
  reads (suc levels) (total subs compare limit d) h rest k =
      total-Reads levels subs compare limit d h rest k

  all_read : (levels : ℕ) (items : Exprs) → AreParsed levels items → AllRead levels items
  all_read levels nil h = tt
  all_read levels (cons e items) h = (reads levels e h.0, all_read levels items h.1)

expression-print :
    (levels : ℕ) (e : Expr)
    → IsParsed (suc (suc levels)) e
    → expression (suc (suc levels)) (print e) ≡ some (e, [])
unfolding IsParsed print
expression-print levels (seen sub) h =
    expression-atom (suc levels) (seen sub) [] (reads (suc levels) (seen sub) h) tt
expression-print levels (count sub compare limit) h =
    expression-atom (suc levels) (count sub compare limit) []
      (reads (suc levels) (count sub compare limit) h) tt
expression-print levels (all items) h =
    expression-items (suc levels) b'&' items [] refl h.0 (all_read (suc levels) items h.1) tt
expression-print levels (any items) h =
    expression-items (suc levels) b'|' items [] refl h.0 (all_read (suc levels) items h.1) tt
expression-print levels (total subs compare limit d) h =
    expression-atom (suc levels) (total subs compare limit d) []
      (reads (suc levels) (total subs compare limit d) h) tt

no_text : (levels : ℕ) {e : Expr} {t : Bytes} → expression levels [] ≡ some (e, t) → ⊥
unfolding expression sequence atom numbered number span_digits
no_text zero h = cc
no_text (suc levels) h = cc

-- Every expression of the form that the parser returns, if its text is no longer than 512 bytes,
-- is what the parser reads from that text.
pub parse-print :
    (e : Expr)
    → IsParsed (suc max_depth) e
    → length (print e) ≤ max_expression_bytes
    → parse (print e) ≡ some e
unfolding parse whole
parse-print e h l = go (print e) l (expression-print 15 e h)
  where
    go :
        (text : Bytes)
        → length text ≤ max_expression_bytes
        → expression (suc max_depth) text ≡ some (e, [])
        → parse text ≡ some e
    go [] m p = absurd (no_text (suc max_depth) p)
    go (c ∷ s) m p =
        let fits : (length (c ∷ s) == 0 || ltb max_expression_bytes (length (c ∷ s))) ≡ false =
          ground arith in
        rw (fits, parse) (ap whole p)
