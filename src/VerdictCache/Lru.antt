-- ===== src/VerdictCache/Lru.antt =====
-- What the cache of src/verdict_cache.rs promises: one list of the cached verdicts, the least
-- recently used first, and the relation that ties the real tables to it.
use native.Mathlib.Decide.{ℕ_discrete}
use mathlib.Core.Option
use mathlib.Core.List.{tail}
use blackshard.Prelude.{
  ℕ, ◌≤◌, ◌≡◌, Bool, true, false, List, [], ◌∷◌, ◌++◌, Option, none, some, leb, if◌then◌else◌,
  length, All, max,
}
use blackshard.Prelude.Maps.{lookup, remove, IsDistinct}
use blackshard.VerdictCache.{
  VerdictCacheKey, key_discrete, CachedVerdict, is_cacheable, is_fresh, Entries, VerdictCache,
}

abbrev pub Uses : Type 0
Uses = List (VerdictCacheKey × CachedVerdict)

-- A lookup makes a fresh verdict the last used, and drops a stale one.
unfoldable pub lru_get : ℕ → VerdictCacheKey → ℕ → Uses → Uses × Option CachedVerdict
lru_get now key generation l = elim (lookup key_discrete key l) [
  | none ↦ (l, none)
  | some v ↦
      if is_fresh now generation v
      then (remove key_discrete key l ++ (key, v) ∷ [], some v)
      else (remove key_discrete key l, none)
]

unfoldable pub lru_room : ℕ → VerdictCacheKey → Uses → Uses
lru_room capacity key l = elim (lookup key_discrete key l) [
  | some _ ↦ remove key_discrete key l
  | none ↦ if leb capacity (length l) then tail l else l
]

-- A cacheable verdict becomes the last used; it takes the place of the key's old verdict, or, in
-- a full cache, of the least recently used one.
unfoldable pub lru_insert : ℕ → VerdictCacheKey → CachedVerdict → Uses → Uses × Bool
lru_insert capacity key v l =
    if is_cacheable v then (lru_room capacity key l ++ (key, v) ∷ [], true) else (l, false)

-- The ticks of `recency` and the list name the same keys in the same order, and each key's entry
-- holds its verdict with its tick.
abbrev pub IsLinked : Entries → List (ℕ × VerdictCacheKey) → Uses → Type 0
IsLinked e [] [] = Unit
IsLinked e [] (_ ∷ _) = ⊥
IsLinked e (_ ∷ _) [] = ⊥
IsLinked e ((t, k) ∷ r) ((j, v) ∷ l) =
    (k ≡ j) × (lookup key_discrete k e ≡ some (v, t)) × IsLinked e r l

pub record Models (c : VerdictCache) (l : Uses) : Type 0 where
  pub linked : IsLinked c.entries c.recency l
  pub agree :
      (k : VerdictCacheKey)
      → lookup key_discrete k l ≡ Option.map (λ p. p.0) (lookup key_discrete k c.entries)
  pub sized : length c.entries ≡ length l
  pub bounded : length l ≤ max c.capacity 1
  pub keys_distinct : IsDistinct key_discrete l
  pub entries_distinct : IsDistinct key_discrete c.entries
  pub ticks_distinct : IsDistinct ℕ_discrete c.recency
  pub ticks_past : All (λ p. p.0 ≤ c.tick) c.recency
