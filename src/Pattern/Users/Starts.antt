-- ===== src/Pattern/Users/Starts.antt =====
-- Where the users of each piece start in the flat array.
use blackshard.Prelude.{
  ℕ, zero, suc, ◌+◌, ◌≤◌, ◌<◌, ◌≡◌, refl, ap, ◌∙◌, List, [], ◌∷◌, some, length, get_elem?, get_or,
  replicate, arith,
}
use blackshard.Pattern.Users.{increment, sums_from}
use blackshard.Pattern.Users.Entries.{
  Entry, below, count_all, length-set, InRange, count_all-counted,
}

sum_to : (ℕ → ℕ) → ℕ → ℕ
sum_to g zero = g 0
sum_to g (suc k) = sum_to g k + g (suc k)

sum_to-shift : (g : ℕ → ℕ) (k : ℕ) → sum_to g (suc k) ≡ g 0 + sum_to (λ i. g (suc i)) k
unfolding sum_to
sum_to-shift g zero = refl
sum_to-shift g (suc k) = omega (arith, sum_to-shift g k)

sums_from-sum_to :
    (sum : ℕ) (ns : List ℕ) (k : ℕ)
    → k < length ns
    → get_elem? (sums_from sum ns) k ≡ some (sum + sum_to (λ i. get_or ns i 0) k)
unfolding sums_from sum_to
sums_from-sum_to sum [] k h = absurd (omega arith)
sums_from-sum_to sum (n ∷ ns) zero h = refl
sums_from-sum_to sum (n ∷ ns) (suc k) h =
    sums_from-sum_to (sum + n) ns k (omega arith)
    ∙ ap some (omega (arith, sum_to-shift (λ i. get_or (n ∷ ns) i 0) k))

replicate-get_or : (n v k : ℕ) → get_or (replicate n v) k v ≡ v
replicate-get_or zero v k = refl
replicate-get_or (suc n) v zero = refl
replicate-get_or (suc n) v (suc k) = replicate-get_or n v k

pub length-replicate : (n v : ℕ) → length (replicate n v) ≡ n
length-replicate zero v = refl
length-replicate (suc n) v = ap suc (length-replicate n v)

pub length-count_all : (es : List Entry) (ns : List ℕ) → length (count_all es ns) ≡ length ns
unfolding count_all
length-count_all [] ns = refl
length-count_all ((piece, index) ∷ es) ns =
    length-count_all es (increment ns (piece + 1))
    ∙ length-set ns (piece + 1) (get_or ns (piece + 1) 0 + 1)

module _ (n : ℕ) (es : List Entry) (r : InRange n es) where
  abbrev pub starts : List ℕ
  starts = sums_from 0 (count_all es (replicate (n + 1) 0))

  sum_to-below :
      (k : ℕ) → sum_to (λ i. get_or (count_all es (replicate (n + 1) 0)) i 0) k ≡ below k es
  unfolding sum_to
  sum_to-below zero = omega (
    arith,
    count_all-counted n es (replicate (n + 1) 0) 0 r (length-replicate (n + 1) 0),
    replicate-get_or (n + 1) 0 0,
  )
  sum_to-below (suc k) = omega (
    arith,
    sum_to-below k,
    count_all-counted n es (replicate (n + 1) 0) (suc k) r (length-replicate (n + 1) 0),
    replicate-get_or (n + 1) 0 (suc k),
  )

  pub starts-below : (k : ℕ) → k ≤ n → get_elem? starts k ≡ some (below k es)
  starts-below k h =
      let long : length (count_all es (replicate (n + 1) 0)) ≡ n + 1 =
        length-count_all es (replicate (n + 1) 0) ∙ length-replicate (n + 1) 0 in
      sums_from-sum_to 0 (count_all es (replicate (n + 1) 0)) k (omega arith)
      ∙ ap some (omega (arith, sum_to-below k))
