-- ===== src/VerdictCache/Links.antt =====
-- The cache of src/verdict_cache.rs keeps its tables linked to the list of uses.
use native.Mathlib.Decide.{ℕ_discrete}
use mathlib.Core.Logic.{if_pos, if_neg}
use blackshard.Prelude.{ℕ, ◌≡◌, ◌≢◌, refl, sym, ◌∙◌, List, [], ◌∷◌, ◌++◌, none, some, All, arith}
use blackshard.Prelude.Maps.{lookup, remove, IsDistinct}
use blackshard.VerdictCache.{VerdictCacheKey, key_discrete, CachedVerdict, Entries}
use blackshard.VerdictCache.Lru.{Uses, IsLinked}

abbrev pub Recency : Type 0
Recency = List (ℕ × VerdictCacheKey)

-- An entry's tick stands in `recency` with the entry's key.
pub IsLinked-tick :
    (e : Entries) (r : Recency) (l : Uses) (k : VerdictCacheKey) (v w : CachedVerdict) (t : ℕ)
    → IsLinked e r l
    → IsDistinct ℕ_discrete r
    → lookup key_discrete k l ≡ some v
    → lookup key_discrete k e ≡ some (w, t)
    → lookup ℕ_discrete t r ≡ some k
unfolding lookup
IsLinked-tick e [] [] k v w t n d h q = ground arith
IsLinked-tick e [] (_ ∷ _) k v w t n d h q = absurd n
IsLinked-tick e (_ ∷ _) [] k v w t n d h q = absurd n
IsLinked-tick e ((s, i) ∷ r) ((j, u) ∷ l) k v w t n d h q =
    ground (arith, IsLinked-tick e r l k v w t n.2 d.1)

-- Only the key's own place in `recency` has its tick.
pub tick-All :
    (r : Recency) (t : ℕ) (k : VerdictCacheKey)
    → IsDistinct ℕ_discrete r
    → lookup ℕ_discrete t r ≡ some k
    → All (λ p. p.0 ≡ t → p.1 ≡ k) r
unfolding lookup
tick-All [] t k d h = tt
tick-All ((s, j) ∷ r) t k d h = elim (ℕ_discrete s t) [
  | yes p ↦ (λ q. ground arith, absent r (ground arith))
  | no n ↦ ((λ q. absurd (n q)), tick-All r t k d.1 (ground arith))
]
  where
    absent : (m : Recency) → lookup ℕ_discrete t m ≡ none → All (λ p. p.0 ≡ t → p.1 ≡ k) m
    absent [] z = tt
    absent ((u, i) ∷ m) z = ((λ q. ground arith), absent m (ground arith))

-- To take a key out of all three keeps the others linked, whatever becomes of the key's entry.
pub IsLinked-remove :
    (e e' : Entries) (r : Recency) (l : Uses) (k : VerdictCacheKey) (v : CachedVerdict) (t : ℕ)
    → ((j : VerdictCacheKey) → k ≢ j → lookup key_discrete j e' ≡ lookup key_discrete j e)
    → lookup key_discrete k e ≡ some (v, t)
    → All (λ p. p.0 ≡ t → p.1 ≡ k) r
    → IsLinked e r l
    → IsLinked e' (remove ℕ_discrete t r) (remove key_discrete k l)
unfolding remove
IsLinked-remove e e' [] [] k v t same q a n = tt
IsLinked-remove e e' [] (_ ∷ _) k v t same q a n = absurd n
IsLinked-remove e e' (_ ∷ _) [] k v t same q a n = absurd n
IsLinked-remove e e' ((s, i) ∷ r) ((j, u) ∷ l) k v t same q a n =
    let rest = IsLinked-remove e e' r l k v t same q a.1 n.2 in
    elim (ℕ_discrete s t) [
      | yes p ↦
          let hit : j ≡ k = sym n.0 ∙ a.0 p in
          rw (if_pos (ℕ_discrete s t) p, if_pos (key_discrete j k) hit) rest
      | no m ↦
          let miss : j ≢ k = λ h. m (ground arith) in
          rw (if_neg (ℕ_discrete s t) m, if_neg (key_discrete j k) miss)
            (n.0, same i (λ h. miss (sym n.0 ∙ sym h)) ∙ n.1, rest)
    ]

pub IsLinked-append :
    (e : Entries) (r : Recency) (l : Uses) (k : VerdictCacheKey) (v : CachedVerdict) (t : ℕ)
    → lookup key_discrete k e ≡ some (v, t)
    → IsLinked e r l
    → IsLinked e (r ++ (t, k) ∷ []) (l ++ (k, v) ∷ [])
IsLinked-append e [] [] k v t q n = (refl, q, tt)
IsLinked-append e [] (_ ∷ _) k v t q n = absurd n
IsLinked-append e (_ ∷ _) [] k v t q n = absurd n
IsLinked-append e ((s, i) ∷ r) ((j, u) ∷ l) k v t q n =
    (n.0, n.1, IsLinked-append e r l k v t q n.2)

-- Entries that differ only at a key that the list lacks are linked to it as well.
pub IsLinked-change :
    (e e' : Entries) (r : Recency) (l : Uses) (k : VerdictCacheKey)
    → ((j : VerdictCacheKey) → k ≢ j → lookup key_discrete j e' ≡ lookup key_discrete j e)
    → lookup key_discrete k l ≡ none
    → IsLinked e r l
    → IsLinked e' r l
unfolding lookup
IsLinked-change e e' [] [] k same h n = tt
IsLinked-change e e' [] (_ ∷ _) k same h n = absurd n
IsLinked-change e e' (_ ∷ _) [] k same h n = absurd n
IsLinked-change e e' ((s, i) ∷ r) ((j, u) ∷ l) k same h n = elim (key_discrete j k) [
  | yes p ↦ absurd (ground arith)
  | no m ↦ (
    n.0,
    same i (λ z. m (sym n.0 ∙ sym z)) ∙ n.1,
    IsLinked-change e e' r l k same (ground arith) n.2,
  )
]
