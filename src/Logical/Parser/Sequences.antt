-- ===== src/Logical/Parser/Sequences.antt =====
-- The parser of src/clamdb/logical.rs reads back a sequence of atoms behind one joiner,
-- if it reads back each atom.
use blackshard.Prelude.{
  ℕ, zero, suc, ◌≤◌, ◌<◌, ◌≡◌, refl, sym, ap, ap₂, ◌∙◌, subst, if◌then◌else◌, true, false, [], ◌∷◌,
  Option, none, some, arith, ◌==◌, length,
}
use blackshard.Logical.{Expr, Exprs, all, any, nil, cons}
use blackshard.Logical.Parser.{
  Bytes, M, atom, Joined, joined, snoc, finish, sequence, expression, is_joiner, other_joiner, lift,
}
use blackshard.Logical.Parser.Parsed.{HasTwo}
use blackshard.Logical.Parser.Fuel.{Fits, Shrinks, atom-Shrinks, expression-Shrinks}
use blackshard.Logical.Parser.Print.{print_atom, print_items}
use blackshard.Logical.Parser.Atoms.{>>=-eq, Follows, Ends, Ends-Follows}

-- An atom at this depth reads the expression back.
abbrev pub Reads : ℕ → Expr → Type 0
Reads levels e =
    (rest : Bytes) → Follows rest → atom (expression levels) (print_atom e rest) ≡ some (e, rest)

abbrev pub AllRead : ℕ → Exprs → Type 0
AllRead levels nil = Unit
AllRead levels (cons e items) = Reads levels e × AllRead levels items

abbrev append_items : Exprs → Exprs → Exprs
append_items nil ys = ys
append_items (cons x xs) ys = cons x (append_items xs ys)

snoc-append :
    (xs : Exprs) (e : Expr) (ys : Exprs) → append_items (snoc xs e) ys ≡ append_items xs (cons e ys)
snoc-append nil e ys = refl
snoc-append (cons x xs) e ys = ap (cons x) (snoc-append xs e ys)

append_items-nil : (xs : Exprs) → append_items xs nil ≡ xs
append_items-nil nil = refl
append_items-nil (cons x xs) = ap (cons x) (append_items-nil xs)

abbrev pub IsJoiner : ℕ → Type 0
IsJoiner c = is_joiner c ≡ true

joiner-Follows : (c : ℕ) (s : Bytes) → IsJoiner c → Follows (c ∷ s)
joiner-Follows c s h = (ground arith, ground arith, ground arith)

-- What stands behind a first item: nothing, or a joiner and the other items.
abbrev print_more : ℕ → Exprs → Bytes → Bytes
print_more c nil rest = rest
print_more c (cons e items) rest = c ∷ print_items c (cons e items) rest

abbrev joiner_after : Option ℕ → ℕ → Exprs → Option ℕ
joiner_after j c nil = j
joiner_after j c (cons _ _) = some c

joiner_after-same : (c : ℕ) (items : Exprs) → joiner_after (some c) c items ≡ some c
joiner_after-same c nil = refl
joiner_after-same c (cons _ _) = refl

print_items-cons :
    (c : ℕ) (e : Expr) (items : Exprs) (rest : Bytes)
    → print_items c (cons e items) rest ≡ print_atom e (print_more c items rest)
unfolding print_items
print_items-cons c e nil rest = refl
print_items-cons c e (cons x items) rest = refl

print_more-Follows :
    (c : ℕ) (items : Exprs) (rest : Bytes)
    → IsJoiner c
    → Ends rest
    → Follows (print_more c items rest)
print_more-Follows c nil rest h k = Ends-Follows rest k
print_more-Follows c (cons e items) rest h k =
    joiner-Follows c (print_items c (cons e items) rest) h

joined-end :
    (next : M Expr) (fuel : ℕ) (r : Joined) (rest : Bytes)
    → Ends rest
    → joined next (suc fuel) r rest ≡ some (r, rest)
unfolding joined
joined-end next fuel (j, items) [] h = refl
joined-end next fuel (j, items) (c ∷ s) h = rw (h.0, joined)

joined-step :
    (next : M Expr) (fuel c : ℕ) (j : Option ℕ) (items : Exprs) (s : Bytes) (e : Expr) (t : Bytes)
    → IsJoiner c
    → other_joiner j c ≡ false
    → next s ≡ some (e, t)
    → joined next (suc fuel) (j, items) (c ∷ s) ≡ joined next fuel (some c, snoc items e) t
unfolding joined
joined-step next fuel c j items s e t h o n = rw (h, o, joined) (>>=-eq next _ s e t n)

shrunk :
    {A : Type 0} (m : M A) (s : Bytes) (a : A) (t : Bytes)
    → Shrinks m
    → m s ≡ some (a, t)
    → length t ≤ length s
shrunk m s a t h e = subst (Fits (length s)) e (h s (length s) (omega arith))

module _ (levels c : ℕ) (joins : IsJoiner c) where
  abbrev next : M Expr
  next = atom (expression levels)

  next-Shrinks : Shrinks next
  next-Shrinks = atom-Shrinks (expression levels) (expression-Shrinks levels)

  joined-print :
      (items : Exprs) (fuel : ℕ) (j : Option ℕ) (before : Exprs) (rest : Bytes)
      → AllRead levels items
      → other_joiner j c ≡ false
      → Ends rest
      → length (print_more c items rest) < fuel
      → joined next fuel (j, before) (print_more c items rest)
        ≡ some ((joiner_after j c items, append_items before items), rest)
  joined-print items zero j before rest h o k f = absurd (omega arith)
  joined-print nil (suc fuel) j before rest h o k f =
      joined-end next fuel (j, before) rest k
      ∙ ap (λ (x : Exprs). let o : Option (Joined × Bytes) = some ((j, x), rest) in o)
          (sym (append_items-nil before))
  joined-print (cons e items) (suc fuel) j before rest h o k f =
      let read = h.0 (print_more c items rest) (print_more-Follows c items rest joins k) in
      let here = ap next (print_items-cons c e items rest) ∙ read in
      let shorter = shrunk next _ e (print_more c items rest) next-Shrinks here in
      joined-step next fuel c j before (print_items c (cons e items) rest) e
        (print_more c items rest) joins o here
      ∙ joined-print items fuel (some c) (snoc before e) rest h.1 (ground arith) k (omega arith)
      ∙ ap₂
          (λ (i : Option ℕ) (x : Exprs). let o : Option (Joined × Bytes) = some ((i, x), rest) in o)
          (joiner_after-same c items) (snoc-append before e items)

  sequence-print :
      (e : Expr) (items : Exprs) (rest : Bytes)
      → AllRead levels (cons e items)
      → Ends rest
      → sequence next (print_items c (cons e items) rest)
        ≡ lift (finish (joiner_after none c items, cons e items)) rest
  unfolding sequence
  sequence-print e items rest h k =
      let text = print_items c (cons e items) rest in
      let more = print_more c items rest in
      let here =
        ap next (print_items-cons c e items rest)
        ∙ h.0 more (print_more-Follows c items rest joins k) in
      let shorter = shrunk next text e more next-Shrinks here in
      >>=-eq next _ text e more here
      ∙ >>=-eq (joined next (suc (length text)) (none, cons e nil)) (λ r. lift (finish r)) more
          (joiner_after none c items, cons e items) rest
          (joined-print items (suc (length text)) none (cons e nil) rest h.1 refl k (omega arith))

-- An expression of one atom is read back.
pub expression-atom :
    (levels : ℕ) (e : Expr) (rest : Bytes)
    → Reads levels e
    → Ends rest
    → expression (suc levels) (print_atom e rest) ≡ some (e, rest)
unfolding expression finish print_items
expression-atom levels e rest h k = sequence-print levels b'&' refl e nil rest (h, tt) k

-- So are two or more atoms behind one joiner.
pub expression-items :
    (levels c : ℕ) (items : Exprs) (rest : Bytes)
    → IsJoiner c
    → HasTwo items
    → AllRead levels items
    → Ends rest
    → expression (suc levels) (print_items c items rest)
      ≡ some (if c == b'&' then all items else any items, rest)
unfolding expression finish
expression-items levels c nil rest j two h k = absurd two
expression-items levels c (cons e nil) rest j two h k = absurd two
expression-items levels c (cons e (cons x items)) rest j two h k =
    sequence-print levels c j e (cons x items) rest h k
