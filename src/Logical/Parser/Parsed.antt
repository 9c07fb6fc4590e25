-- ===== src/Logical/Parser/Parsed.antt =====
-- The expressions that the parser of src/clamdb/logical.rs may return.
use blackshard.Prelude.{
  ℕ, zero, suc, ◌<◌, refl, ◌⊎◌, inl, inr, List, [], ◌∷◌, ◌++◌, Option, none, some, arith,
}
use blackshard.Logical.{
  Expr, Exprs, seen, count, all, any, total, nil, cons, subsignatures, subsignatures_items,
}
use blackshard.Logical.Parser.{max_subsignatures, sort, dedup}
use blackshard.Logical.Parser.Ascending.{IsAscending, Among, Among-dedup-sort}

-- Nine decimal digits.
abbrev pub limit_bound : ℕ
limit_bound = 1_000_000_000

abbrev pub AtMost : Option ℕ → Type 0
AtMost none = Unit
AtMost (some n) = n < limit_bound

abbrev pub AllBelow : List ℕ → Type 0
AllBelow l = (k : ℕ) → Among k l → k < max_subsignatures

abbrev pub HasMember : List ℕ → Type 0
HasMember [] = ⊥
HasMember (_ ∷ _) = Unit

abbrev pub HasTwo : Exprs → Type 0
HasTwo nil = ⊥
HasTwo (cons _ nil) = ⊥
HasTwo (cons _ (cons _ _)) = Unit

-- The expressions that the parser may return, with the levels of parentheses below them.
unfoldable mutual
  pub IsParsed : ℕ → Expr → Type 0
  IsParsed levels (seen sub) = sub < max_subsignatures
  IsParsed levels (count sub compare limit) = (sub < max_subsignatures) × (limit < limit_bound)
  IsParsed zero (all items) = ⊥
  IsParsed (suc levels) (all items) = HasTwo items × AreParsed levels items
  IsParsed zero (any items) = ⊥
  IsParsed (suc levels) (any items) = HasTwo items × AreParsed levels items
  IsParsed zero (total subs compare limit distinct) = ⊥
  IsParsed (suc levels) (total subs compare limit distinct) =
      HasMember subs × IsAscending subs × AllBelow subs × (limit < limit_bound) × AtMost distinct

  pub AreParsed : ℕ → Exprs → Type 0
  AreParsed levels nil = Unit
  AreParsed levels (cons e items) = IsParsed levels e × AreParsed levels items

mutual
  unfolding IsParsed

  pub IsParsed-suc : (levels : ℕ) (e : Expr) → IsParsed levels e → IsParsed (suc levels) e
  IsParsed-suc levels (seen sub) h = h
  IsParsed-suc levels (count sub compare limit) h = h
  IsParsed-suc zero (all items) h = absurd h
  IsParsed-suc (suc levels) (all items) h = (h.0, AreParsed-suc levels items h.1)
  IsParsed-suc zero (any items) h = absurd h
  IsParsed-suc (suc levels) (any items) h = (h.0, AreParsed-suc levels items h.1)
  IsParsed-suc zero (total subs compare limit distinct) h = absurd h
  IsParsed-suc (suc levels) (total subs compare limit distinct) h = h

  AreParsed-suc :
      (levels : ℕ) (items : Exprs) → AreParsed levels items → AreParsed (suc levels) items
  AreParsed-suc levels nil h = tt
  AreParsed-suc levels (cons e items) h =
      (IsParsed-suc levels e h.0, AreParsed-suc levels items h.1)

Among-append : (k : ℕ) (xs ys : List ℕ) → Among k (xs ++ ys) → Among k xs ⊎ Among k ys
Among-append k [] ys h = inr h
Among-append k (x ∷ xs) ys h = ground (arith, Among-append k xs ys)

mutual
  unfolding IsParsed subsignatures

  -- A parsed expression refers to sub-signatures that there can be.
  pub below : (levels : ℕ) (e : Expr) → IsParsed levels e → AllBelow (subsignatures e)
  below levels (seen sub) h k m = ground arith
  below levels (count sub compare limit) h k m = ground arith
  below zero (all items) h k m = absurd h
  below (suc levels) (all items) h k m = below_items levels items h.1 k m
  below zero (any items) h k m = absurd h
  below (suc levels) (any items) h k m = below_items levels items h.1 k m
  below zero (total subs compare limit distinct) h k m = absurd h
  below (suc levels) (total subs compare limit distinct) h k m = h.2 k m

  below_items :
      (levels : ℕ) (items : Exprs) → AreParsed levels items → AllBelow (subsignatures_items items)
  below_items levels nil h k m = absurd m
  below_items levels (cons e items) h k m =
      elim (Among-append k (subsignatures e) (subsignatures_items items) m) [
        | inl p ↦ below levels e h.0 k p
        | inr p ↦ below_items levels items h.1 k p
      ]

HasMember-append : (xs ys : List ℕ) → HasMember xs → HasMember (xs ++ ys)
HasMember-append [] ys h = absurd h
HasMember-append (x ∷ xs) ys h = tt

mutual
  unfolding IsParsed subsignatures

  -- A parsed expression refers to some sub-signature.
  pub refers : (levels : ℕ) (e : Expr) → IsParsed levels e → HasMember (subsignatures e)
  refers levels (seen sub) h = tt
  refers levels (count sub compare limit) h = tt
  refers zero (all items) h = absurd h
  refers (suc levels) (all items) h = refers_items levels items h.0 h.1
  refers zero (any items) h = absurd h
  refers (suc levels) (any items) h = refers_items levels items h.0 h.1
  refers zero (total subs compare limit distinct) h = absurd h
  refers (suc levels) (total subs compare limit distinct) h = h.0

  refers_items :
      (levels : ℕ) (items : Exprs)
      → HasTwo items
      → AreParsed levels items
      → HasMember (subsignatures_items items)
  refers_items levels nil two h = absurd two
  refers_items levels (cons e items) two h =
      HasMember-append (subsignatures e) (subsignatures_items items) (refers levels e h.0)

-- So does the list of a total that is made of it.
pub HasMember-dedup-sort : (l : List ℕ) → HasMember l → HasMember (dedup (sort l))
HasMember-dedup-sort [] h = absurd h
HasMember-dedup-sort (k ∷ l) h =
    go (dedup (sort (k ∷ l))) ((Among-dedup-sort k (k ∷ l)).1 (inl refl))
  where
    go : (m : List ℕ) → Among k m → HasMember m
    go [] a = absurd a
    go (_ ∷ _) a = tt
