-- ===== src/VerdictCache/Hits.antt =====
-- What a hit in the cache of src/verdict_cache.rs is worth.
use mathlib.Core.List.{tail}
use blackshard.Prelude.{
  ℕ, ◌-◌, ◌*◌, ◌<◌, ◌≡◌, ◌≢◌, ◌↔◌, refl, sym, ◌∙◌, inl, inr, true, false, List, [], ◌∷◌, some, none,
  All, All-append, arith, Option-cases, Bool-cases, if_split,
}
use blackshard.Prelude.Maps.{lookup, remove, remove-All, lookup-All}
use blackshard.VerdictCache.{
  VerdictCacheKey, key_discrete, CachedVerdict, clean, scan_error, complete, is_cacheable, is_fresh,
  VerdictCache, new, hour,
}
use blackshard.VerdictCache
use blackshard.VerdictCache.Lru.{Uses, lru_get, lru_insert, lru_room}
use blackshard.VerdictCache.Refine.{get-lru_get}
use blackshard.VerdictCache.Runs.{Call, get, insert, run, lru_run, lru_step, run-lru_run, Inserted}

-- A verdict that may be reused: no scan error, and clean only for a whole file with its hash.
pub record IsReusable (v : CachedVerdict) : Type 0 where
  pub no_error : v.verdict ≢ scan_error
  pub clean_whole :
      v.verdict ≡ clean
      → (v.analysis_completeness ≡ complete) × (v.truncated ≡ false) × (v.sha256 ≢ none)

-- A verdict is cacheable exactly when it is no scan error, and, if it is clean, the analysis was
-- complete, the file was not truncated and its hash is known.
pub is_cacheable_iff : (v : CachedVerdict) → (is_cacheable v ≡ true) ↔ IsReusable v
unfolding is_cacheable
is_cacheable_iff v = (λ h. ground arith, λ h. ground arith)

module _ (P : VerdictCacheKey × CachedVerdict → Type 0) where
  tail-All : (l : Uses) → All P l → All P (tail l)
  tail-All [] a = a
  tail-All (p ∷ l) a = a.1

  lru_room-All :
      (capacity : ℕ) (k : VerdictCacheKey) (l : Uses) → All P l → All P (lru_room capacity k l)
  unfolding lru_room
  lru_room-All capacity k l a = elim (Option-cases (lookup key_discrete k l)) [
    | inl e ↦ rw (e, lru_room) (if_split (All P) _ (tail-All l a) a)
    | inr (v, e) ↦ rw (e, lru_room) (remove-All key_discrete P k l a)
  ]

  lru_get-All :
      (now : ℕ) (k : VerdictCacheKey) (generation : ℕ) (l : Uses)
      → All P l
      → All P (lru_get now k generation l).0
  unfolding lru_get
  lru_get-All now k generation l a = elim (Option-cases (lookup key_discrete k l)) [
    | inl e ↦ rw (e, lru_get) a
    | inr (v, e) ↦
        let rest = remove-All key_discrete P k l a in
        elim (Bool-cases (is_fresh now generation v)) [
          | inl fresh ↦
              rw (e, lru_get)
                (rw fresh (
                  All-append P (remove key_discrete k l) ((k, v) ∷ []) rest
                    (lookup-All key_discrete P k v l a e, tt)))
          | inr stale ↦ rw (e, lru_get) (rw stale rest)
        ]
  ]

  lru_insert-All :
      (capacity : ℕ) (k : VerdictCacheKey) (v : CachedVerdict) (l : Uses)
      → (is_cacheable v ≡ true → P (k, v))
      → All P l
      → All P (lru_insert capacity k v l).0
  unfolding lru_insert
  lru_insert-All capacity k v l new_one a = elim (Bool-cases (is_cacheable v)) [
    | inl yes_ ↦ rw yes_ (
        All-append P (lru_room capacity k l) ((k, v) ∷ []) (lru_room-All capacity k l a)
          (new_one yes_, tt))
    | inr no_ ↦ rw no_ a
  ]

  lru_run-All :
      (capacity : ℕ) (calls : List Call) (l : Uses)
      → ((k : VerdictCacheKey) (v : CachedVerdict)
          → Inserted k v calls
          → is_cacheable v ≡ true
          → P (k, v))
      → All P l
      → All P (lru_run capacity calls l).0
  unfolding lru_run lru_step
  lru_run-All capacity [] l f a = a
  lru_run-All capacity (get now k generation ∷ calls) l f a =
      lru_run-All capacity calls (lru_get now k generation l).0 f (lru_get-All now k generation l a)
  lru_run-All capacity (insert k v ∷ calls) l f a =
      lru_run-All capacity calls (lru_insert capacity k v l).0 (λ j w i c. f j w (inr i) c)
        (lru_insert-All capacity k v l (f k v (inl (refl, refl))) a)

lru_get-found :
    (now : ℕ) (k : VerdictCacheKey) (generation : ℕ) (l : Uses) (v : CachedVerdict)
    → (lru_get now k generation l).1 ≡ some v
    → (lookup key_discrete k l ≡ some v) × (is_fresh now generation v ≡ true)
unfolding lru_get
lru_get-found now k generation l v h = ground arith

is_fresh-young :
    (now generation : ℕ) (v : CachedVerdict)
    → is_fresh now generation v ≡ true
    → (v.definition_generation ≡ generation) × (now - v.scanned_at < 24 * hour)
unfolding is_fresh
is_fresh-young now generation v h = ground arith

-- A hit after any sequence of calls on a new cache returns a verdict that one of the calls
-- inserted under exactly this key, that may be reused, that was made with the definitions of the
-- lookup's generation, and that is less than 24 hours old by the lookup's clock.
pub get_sound :
    (capacity : ℕ) (calls : List Call) (now : ℕ) (k : VerdictCacheKey) (generation : ℕ)
    (v : CachedVerdict)
    → (VerdictCache.get now k generation (run calls (new capacity)).0).1 ≡ some v
    → Inserted k v calls
      × IsReusable v
      × (v.definition_generation ≡ generation)
      × (now - v.scanned_at < 24 * hour)
unfolding lru_get
get_sound capacity calls now k generation v h =
    let (_, models, _) = run-lru_run capacity calls in
    let l = (lru_run capacity calls []).0 in
    let (same, _) = get-lru_get now k generation (run calls (new capacity)).0 l models in
    let (found, fresh) = lru_get-found now k generation l v (sym same ∙ h) in
    let known =
      lookup-All key_discrete (λ p. Inserted p.0 p.1 calls × (is_cacheable p.1 ≡ true)) k v l
        (lru_run-All (λ p. Inserted p.0 p.1 calls × (is_cacheable p.1 ≡ true)) capacity calls []
          (λ j w i c. (i, c)) tt)
        found in
    let recent = is_fresh-young now generation v fresh in
    (known.0, (is_cacheable_iff v).0 known.1, recent.0, recent.1)
