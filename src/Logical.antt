-- ===== src/Logical.antt =====
-- src/clamdb/logical.rs: the expression of a logical signature, what it means for the counts of
-- matches, and how many fixed bytes it asks for. The parser is in Logical/Parser.
pub mod Strength
pub mod Parser
mod Examples
use blackshard.Prelude.{
  ℕ, ◌+◌, ◌-◌, ◌^◌, min, Bool, true, false, ◌&&◌, ◌||◌, List, [], ◌∷◌, ◌++◌, Option, none, some,
  ltb, leb, ◌==◌, if◌then◌else◌, get_or,
}

pub data Compare : Type 0 where
  greater less equal : Compare

abbrev pub compare_holds : Compare → ℕ → ℕ → Bool
compare_holds greater value limit = ltb limit value
compare_holds less value limit = ltb value limit
compare_holds equal value limit = value == limit

-- `Exprs` is the `Vec<Expr>` inside an expression.
mutual
  pub data Expr : Type 0 where
    seen : ℕ → Expr
    count : ℕ → Compare → ℕ → Expr
    all any : Exprs → Expr
    total : List ℕ → Compare → ℕ → Option ℕ → Expr

  pub data Exprs : Type 0 where
    nil : Exprs
    cons : Expr → Exprs → Exprs

-- Every sub-signature that the expression refers to, in order.
unfoldable mutual
  pub subsignatures : Expr → List ℕ
  subsignatures (seen sub) = sub ∷ []
  subsignatures (count sub _ _) = sub ∷ []
  subsignatures (all items) = subsignatures_items items
  subsignatures (any items) = subsignatures_items items
  subsignatures (total subs _ _ _) = subs

  pub subsignatures_items : Exprs → List ℕ
  subsignatures_items nil = []
  subsignatures_items (cons e items) = subsignatures e ++ subsignatures_items items

abbrev pub max_u32 : ℕ
max_u32 = 2 ^ 32 - 1

-- `u32::saturating_add`
unfoldable pub saturating_add : ℕ → ℕ → ℕ
saturating_add a b = min (a + b) max_u32

-- `counts.get(sub).copied().unwrap_or(0)`
abbrev pub count_of : List ℕ → ℕ → ℕ
count_of counts sub = get_or counts sub 0

-- The `fold` over the sub-signatures of a total.
unfoldable pub sum_from : List ℕ → ℕ → List ℕ → ℕ
sum_from counts sum [] = sum
sum_from counts sum (sub ∷ subs) = sum_from counts (saturating_add sum (count_of counts sub)) subs

unfoldable pub matched_from : List ℕ → List ℕ → ℕ
matched_from counts [] = 0
matched_from counts (sub ∷ subs) =
    (if ltb 0 (count_of counts sub) then 1 else 0) + matched_from counts subs

abbrev is_none_or_at_most : Option ℕ → ℕ → Bool
is_none_or_at_most none matched = true
is_none_or_at_most (some least) matched = leb least matched

-- Whether the counts of matches satisfy the expression.
unfoldable mutual
  pub holds : List ℕ → Expr → Bool
  holds counts (seen sub) = ltb 0 (count_of counts sub)
  holds counts (count sub compare limit) = compare_holds compare (count_of counts sub) limit
  holds counts (all items) = holds_all counts items
  holds counts (any items) = holds_any counts items
  holds counts (total subs compare limit distinct) =
      compare_holds compare (sum_from counts 0 subs) limit
      && is_none_or_at_most distinct (matched_from counts subs)

  pub holds_all : List ℕ → Exprs → Bool
  holds_all counts nil = true
  holds_all counts (cons e items) = holds counts e && holds_all counts items

  pub holds_any : List ℕ → Exprs → Bool
  holds_any counts nil = false
  holds_any counts (cons e items) = holds counts e || holds_any counts items

-- The least of the fixed lengths, 0 if there is none.
unfoldable pub least_fixed : List ℕ → List ℕ → ℕ
least_fixed fixed [] = 0
least_fixed fixed (sub ∷ []) = get_or fixed sub 0
least_fixed fixed (sub ∷ sub' ∷ subs) = min (get_or fixed sub 0) (least_fixed fixed (sub' ∷ subs))

abbrev pub required_count : Compare → ℕ → ℕ → ℕ
required_count greater limit own = own
required_count equal limit own = if ltb 0 limit then own else 0
required_count less limit own = 0

abbrev pub required_total : Compare → ℕ → ℕ
required_total greater least = least
required_total _ least = 0

-- How many fixed bytes the weakest way to satisfy the expression asks for.
unfoldable mutual
  pub required_bytes : List ℕ → Expr → ℕ
  required_bytes fixed (seen sub) = get_or fixed sub 0
  required_bytes fixed (count sub compare limit) = required_count compare limit (get_or fixed sub 0)
  required_bytes fixed (all items) = required_sum fixed items
  required_bytes fixed (any items) = required_least fixed items
  required_bytes fixed (total subs compare limit distinct) =
      required_total compare (least_fixed fixed subs)

  pub required_sum : List ℕ → Exprs → ℕ
  required_sum fixed nil = 0
  required_sum fixed (cons e items) = required_bytes fixed e + required_sum fixed items

  pub required_least : List ℕ → Exprs → ℕ
  required_least fixed nil = 0
  required_least fixed (cons e nil) = required_bytes fixed e
  required_least fixed (cons e (cons e' items)) =
      min (required_bytes fixed e) (required_least fixed (cons e' items))
