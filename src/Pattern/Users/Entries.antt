-- ===== src/Pattern/Users/Entries.antt =====
-- The uses of pieces as one list of entries, and how many entries there are below a piece.
use blackshard.Prelude.{
  ℕ, zero, suc, ◌+◌, ◌≤◌, ◌<◌, ◌≡◌, refl, sym, ap, ◌∙◌, subst, inl, inr, List, [], ◌∷◌, ◌++◌, ◌==◌,
  ==_iff, if◌then◌else◌, length, length-append, get_or, set, arith, Bool-cases, All,
}
use blackshard.Pattern.Set.{Logical}
use blackshard.Pattern.Users.{
  Placing, place, place_pieces, place_logicals, count_pieces, count_logicals, increment,
}

-- A piece and the index of a logical signature that uses it.
abbrev pub Entry : Type 0
Entry = ℕ × ℕ

abbrev pub entries_of : ℕ → List ℕ → List Entry
entries_of index [] = []
entries_of index (piece ∷ pieces) = (piece, index) ∷ entries_of index pieces

abbrev pub entries : ℕ → List Logical → List Entry
entries index [] = []
entries index (l ∷ logicals) = entries_of index l.pieces ++ entries (index + 1) logicals

-- The logical signatures that use the piece, in order, as often as they use it.
unfoldable pub users_of : ℕ → List Entry → List ℕ
users_of p [] = []
users_of p ((piece, index) ∷ es) = if piece == p then index ∷ users_of p es else users_of p es

abbrev pub uses : ℕ → List Entry → ℕ
uses p es = length (users_of p es)

-- The entries of the pieces below the given one.
abbrev pub below : ℕ → List Entry → ℕ
below zero es = 0
below (suc p) es = below p es + uses p es

unfoldable pub place_all : List Entry → Placing → Placing
place_all [] p = p
place_all ((piece, index) ∷ es) p = place_all es (place index piece p)

unfoldable pub count_all : List Entry → List ℕ → List ℕ
count_all [] ns = ns
count_all ((piece, index) ∷ es) ns = count_all es (increment ns (piece + 1))

place_all-append :
    (es fs : List Entry) (p : Placing) → place_all (es ++ fs) p ≡ place_all fs (place_all es p)
unfolding place_all
place_all-append [] fs p = refl
place_all-append ((piece, index) ∷ es) fs p = place_all-append es fs (place index piece p)

count_all-append :
    (es fs : List Entry) (ns : List ℕ) → count_all (es ++ fs) ns ≡ count_all fs (count_all es ns)
unfolding count_all
count_all-append [] fs ns = refl
count_all-append ((piece, index) ∷ es) fs ns = count_all-append es fs (increment ns (piece + 1))

place_pieces-entries :
    (index : ℕ) (pieces : List ℕ) (p : Placing)
    → place_pieces index pieces p ≡ place_all (entries_of index pieces) p
unfolding place_pieces place_all
place_pieces-entries index [] p = refl
place_pieces-entries index (piece ∷ pieces) p =
    place_pieces-entries index pieces (place index piece p)

pub place_logicals-entries :
    (index : ℕ) (logicals : List Logical) (p : Placing)
    → place_logicals index logicals p ≡ place_all (entries index logicals) p
unfolding place_logicals place_all
place_logicals-entries index [] p = refl
place_logicals-entries index (l ∷ logicals) p =
    place_logicals-entries (index + 1) logicals (place_pieces index l.pieces p)
    ∙ ap (place_all (entries (index + 1) logicals)) (place_pieces-entries index l.pieces p)
    ∙ sym (place_all-append (entries_of index l.pieces) (entries (index + 1) logicals) p)

count_pieces-entries :
    (index : ℕ) (pieces ns : List ℕ)
    → count_pieces pieces ns ≡ count_all (entries_of index pieces) ns
unfolding count_pieces count_all
count_pieces-entries index [] ns = refl
count_pieces-entries index (piece ∷ pieces) ns =
    count_pieces-entries index pieces (increment ns (piece + 1))

pub count_logicals-entries :
    (index : ℕ) (logicals : List Logical) (ns : List ℕ)
    → count_logicals logicals ns ≡ count_all (entries index logicals) ns
unfolding count_logicals count_all
count_logicals-entries index [] ns = refl
count_logicals-entries index (l ∷ logicals) ns =
    count_logicals-entries (index + 1) logicals (count_pieces l.pieces ns)
    ∙ ap (count_all (entries (index + 1) logicals)) (count_pieces-entries index l.pieces ns)
    ∙ sym (count_all-append (entries_of index l.pieces) (entries (index + 1) logicals) ns)

pub users_of-append :
    (p : ℕ) (es fs : List Entry) → users_of p (es ++ fs) ≡ users_of p es ++ users_of p fs
unfolding users_of
users_of-append p [] fs = refl
users_of-append p ((piece, index) ∷ es) fs = elim (Bool-cases (piece == p)) [
  | inl e ↦ rw e (ap (◌∷◌ index) (users_of-append p es fs))
  | inr e ↦ rw e (users_of-append p es fs)
]

pub uses-append : (p : ℕ) (es fs : List Entry) → uses p (es ++ fs) ≡ uses p es + uses p fs
uses-append p es fs =
    ap (length {A = ℕ}) (users_of-append p es fs) ∙ length-append (users_of p es) (users_of p fs)

-- The ranges of different pieces do not overlap.
pub below_mono : (p q : ℕ) (es : List Entry) → p < q → below p es + uses p es ≤ below q es
below_mono p zero es h = absurd (omega arith)
below_mono p (suc q) es h = elim (Bool-cases (p == q)) [
  | inl e ↦
      let same = (==_iff p q).0 e in
      subst (λ k. below p es + uses p es ≤ below k es + uses k es) same (omega arith)
  | inr e ↦ omega (arith, below_mono p q es (ground arith))
]

-- The entries counted into an array: each piece's count stands one further on.
abbrev pub counted : List Entry → ℕ → ℕ
counted es zero = 0
counted es (suc k) = uses k es

pub length-set : (xs : List ℕ) (i v : ℕ) → length (set xs i v) ≡ length xs
length-set [] i v = refl
length-set (x ∷ xs) zero v = refl
length-set (x ∷ xs) (suc i) v = ap suc (length-set xs i v)

pub get_or-set :
    (xs : List ℕ) (i j v d : ℕ)
    → i < length xs
    → get_or (set xs i v) j d ≡ (if j == i then v else get_or xs j d)
get_or-set [] i j v d h = absurd (omega arith)
get_or-set (x ∷ xs) zero zero v d h = refl
get_or-set (x ∷ xs) zero (suc j) v d h = ground arith
get_or-set (x ∷ xs) (suc i) zero v d h = ground arith
get_or-set (x ∷ xs) (suc i) (suc j) v d h = ground (arith, get_or-set xs i j v d)

-- Every piece of the entries is one of the `n`.
abbrev pub InRange : ℕ → List Entry → Type 0
InRange n es = All (λ (entry : Entry). entry.0 < n) es

pub count_all-counted :
    (n : ℕ) (es : List Entry) (ns : List ℕ) (k : ℕ)
    → InRange n es
    → length ns ≡ n + 1
    → get_or (count_all es ns) k 0 ≡ get_or ns k 0 + counted es k
unfolding count_all users_of
count_all-counted n [] ns zero r l = omega arith
count_all-counted n [] ns (suc k) r l = omega arith
count_all-counted n ((piece, index) ∷ es) ns zero r l = ground (
  arith,
  count_all-counted n es (increment ns (piece + 1)) 0 r.1,
  length-set ns (piece + 1) (get_or ns (piece + 1) 0 + 1),
  get_or-set ns (piece + 1) 0 (get_or ns (piece + 1) 0 + 1) 0,
)
count_all-counted n ((piece, index) ∷ es) ns (suc k) r l = ground (
  arith,
  count_all-counted n es (increment ns (piece + 1)) (suc k) r.1,
  length-set ns (piece + 1) (get_or ns (piece + 1) 0 + 1),
  get_or-set ns (piece + 1) (suc k) (get_or ns (piece + 1) 0 + 1) 0,
)
