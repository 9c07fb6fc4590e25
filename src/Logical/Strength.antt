-- ===== src/Logical/Strength.antt =====
-- `required_bytes` of src/clamdb/logical.rs is owed by every file that satisfies the expression.
use blackshard.Prelude.{
  ℕ, ◌+◌, ◌≤◌, ◌<◌, ◌≡◌, ◌⊎◌, inl, true, List, [], ◌∷◌, ◌++◌, ltb, if◌then◌else◌, get_or, arith,
  &&-eq-true, ltb→lt,
}
use blackshard.Logical.{
  Compare, greater, less, equal, Expr, Exprs, seen, count, all, any, total, nil, cons,
  subsignatures, compare_holds, required_count, required_total, saturating_add, count_of, sum_from,
  holds, holds_all, holds_any, subsignatures_items, required_sum, required_least, least_fixed,
  required_bytes,
}

-- The fixed bytes of the listed sub-signatures that matched at least once.
unfoldable pub matched_bytes : List ℕ → List ℕ → List ℕ → ℕ
matched_bytes counts fixed [] = 0
matched_bytes counts fixed (sub ∷ subs) =
    (if ltb 0 (count_of counts sub) then get_or fixed sub 0 else 0)
    + matched_bytes counts fixed subs

matched_bytes-append :
    (counts fixed xs ys : List ℕ)
    → matched_bytes counts fixed (xs ++ ys)
      ≡ matched_bytes counts fixed xs + matched_bytes counts fixed ys
unfolding matched_bytes
matched_bytes-append counts fixed [] ys = omega arith
matched_bytes-append counts fixed (x ∷ xs) ys =
    omega (arith, matched_bytes-append counts fixed xs ys)

-- A sum that grew has a matched sub-signature, whose fixed bytes are no fewer than the least.
sum_from-matched :
    (counts fixed : List ℕ) (sum : ℕ) (subs : List ℕ)
    → (sum_from counts sum subs ≤ sum) ⊎ (least_fixed fixed subs ≤ matched_bytes counts fixed subs)
unfolding sum_from saturating_add least_fixed matched_bytes
sum_from-matched counts fixed sum [] = inl (omega arith)
sum_from-matched counts fixed sum (sub ∷ []) = ground arith
sum_from-matched counts fixed sum (sub ∷ sub' ∷ subs) =
    ground (
      arith,
      sum_from-matched counts fixed (saturating_add sum (count_of counts sub)) (sub' ∷ subs),
    )

required_one :
    (counts fixed : List ℕ) (sub : ℕ)
    → 0 < count_of counts sub
    → get_or fixed sub 0 ≤ matched_bytes counts fixed (sub ∷ [])
unfolding matched_bytes
required_one counts fixed sub h = ground arith

required_compared :
    (counts fixed : List ℕ) (sub : ℕ) (compare : Compare) (limit : ℕ)
    → compare_holds compare (count_of counts sub) limit ≡ true
    → required_count compare limit (get_or fixed sub 0) ≤ matched_bytes counts fixed (sub ∷ [])
unfolding matched_bytes
required_compared counts fixed sub greater limit h = ground arith
required_compared counts fixed sub less limit h = omega arith
required_compared counts fixed sub equal limit h = ground arith

required_compared_total :
    (counts fixed subs : List ℕ) (compare : Compare) (limit : ℕ)
    → compare_holds compare (sum_from counts 0 subs) limit ≡ true
    → required_total compare (least_fixed fixed subs) ≤ matched_bytes counts fixed subs
required_compared_total counts fixed subs greater limit h =
    ground (arith, sum_from-matched counts fixed 0 subs)
required_compared_total counts fixed subs less limit h = omega arith
required_compared_total counts fixed subs equal limit h = omega arith

mutual
  unfolding required_bytes holds subsignatures

  required :
      (counts fixed : List ℕ) (e : Expr)
      → holds counts e ≡ true
      → required_bytes fixed e ≤ matched_bytes counts fixed (subsignatures e)
  required counts fixed (seen sub) h = required_one counts fixed sub (ltb→lt _ _ h)
  required counts fixed (count sub compare limit) h =
      required_compared counts fixed sub compare limit h
  required counts fixed (all items) h = required_all counts fixed items h
  required counts fixed (any items) h = required_any counts fixed items h
  required counts fixed (total subs compare limit distinct) h =
      required_compared_total counts fixed subs compare limit (&&-eq-true _ _ h).0

  required_all :
      (counts fixed : List ℕ) (items : Exprs)
      → holds_all counts items ≡ true
      → required_sum fixed items ≤ matched_bytes counts fixed (subsignatures_items items)
  required_all counts fixed nil h = omega arith
  required_all counts fixed (cons e items) h = ground (
    arith,
    required counts fixed e,
    required_all counts fixed items,
    matched_bytes-append counts fixed (subsignatures e) (subsignatures_items items),
  )

  required_any :
      (counts fixed : List ℕ) (items : Exprs)
      → holds_any counts items ≡ true
      → required_least fixed items ≤ matched_bytes counts fixed (subsignatures_items items)
  required_any counts fixed nil h = omega arith
  required_any counts fixed (cons e nil) h =
      ground
        (arith, required counts fixed e, matched_bytes-append counts fixed (subsignatures e) [])
  required_any counts fixed (cons e (cons e' items)) h = ground (
    arith,
    required counts fixed e,
    required_any counts fixed (cons e' items),
    matched_bytes-append counts fixed (subsignatures e) (subsignatures_items (cons e' items)),
  )

-- Whenever an expression holds of some counts of matches, the fixed bytes of the sub-signatures
-- that it refers to and that matched, each counted as often as it is referred to, add up to at
-- least what the expression requires.
pub required_bytes-le-matched :
    (counts fixed : List ℕ) (e : Expr)
    → holds counts e ≡ true
    → required_bytes fixed e ≤ matched_bytes counts fixed (subsignatures e)
required_bytes-le-matched counts fixed e h = required counts fixed e h
