-- ===== src/VerdictCache/Runs.antt =====
-- Every sequence of calls on a new cache of src/verdict_cache.rs.
use blackshard.Prelude.{
  ℕ, ◌≤◌, ◌≡◌, refl, ap, subst, ◌∙◌, ◌⊎◌, Bool, List, [], ◌∷◌, Option, length, max, arith,
}
use blackshard.Prelude.Maps.{lookup}
use blackshard.VerdictCache.{
  VerdictCacheKey, key_discrete, CachedVerdict, is_cacheable, is_fresh, VerdictCache, new, hour,
  make_room, evict_first,
}
use blackshard.VerdictCache
use blackshard.VerdictCache.Lru.{Uses, lru_get, lru_insert, Models}
use blackshard.VerdictCache.Refine.{get-lru_get, insert-lru_insert}

pub data Call : Type 0 where
  get : ℕ → VerdictCacheKey → ℕ → Call
  insert : VerdictCacheKey → CachedVerdict → Call

pub data Outcome : Type 0 where
  found : Option CachedVerdict → Outcome
  accepted : Bool → Outcome

unfoldable pub step : Call → VerdictCache → VerdictCache × Outcome
step (get now k generation) c = let (c', v) = VerdictCache.get now k generation c in (c', found v)
step (insert k v) c = let (c', b) = VerdictCache.insert k v c in (c', accepted b)

unfoldable pub lru_step : ℕ → Call → Uses → Uses × Outcome
lru_step capacity (get now k generation) l =
    let (l', v) = lru_get now k generation l in (l', found v)
lru_step capacity (insert k v) l = let (l', b) = lru_insert capacity k v l in (l', accepted b)

unfoldable pub run : List Call → VerdictCache → VerdictCache × List Outcome
run [] c = (c, [])
run (call ∷ calls) c = let (c', o) = step call c in let (c'', os) = run calls c' in (c'', o ∷ os)

unfoldable pub lru_run : ℕ → List Call → Uses → Uses × List Outcome
lru_run capacity [] l = (l, [])
lru_run capacity (call ∷ calls) l =
    let (l', o) = lru_step capacity call l in
    let (l'', os) = lru_run capacity calls l' in (l'', o ∷ os)

evict_first-capacity :
    (r : List (ℕ × VerdictCacheKey)) (c : VerdictCache) → (evict_first r c).capacity ≡ c.capacity
unfolding evict_first
evict_first-capacity [] c = refl
evict_first-capacity (_ ∷ _) c = refl

step-capacity : (call : Call) (c : VerdictCache) → (step call c).0.capacity ≡ c.capacity
unfolding step VerdictCache.get VerdictCache.insert make_room
step-capacity (get now k generation) c = ground arith
step-capacity (insert k v) c = ground (arith, evict_first-capacity c.recency c)

step-lru_step :
    (call : Call) (c : VerdictCache) (l : Uses)
    → Models c l
    → ((step call c).1 ≡ (lru_step c.capacity call l).1)
      × Models (step call c).0 (lru_step c.capacity call l).0
unfolding step lru_step
step-lru_step (get now k generation) c l m =
    let (same, next) = get-lru_get now k generation c l m in (ap found same, next)
step-lru_step (insert k v) c l m =
    let (same, next) = insert-lru_insert k v c l m in (ap accepted same, next)

run-lru_run_from :
    (capacity : ℕ) (calls : List Call) (c : VerdictCache) (l : Uses)
    → Models c l
    → c.capacity ≡ capacity
    → ((run calls c).1 ≡ (lru_run capacity calls l).1)
      × Models (run calls c).0 (lru_run capacity calls l).0
      × ((run calls c).0.capacity ≡ capacity)
unfolding run lru_run
run-lru_run_from capacity [] c l m e = (refl, m, e)
run-lru_run_from capacity (call ∷ calls) c l m e =
    let (same, next) =
      subst
        (λ n.
          ((step call c).1 ≡ (lru_step n call l).1) × Models (step call c).0 (lru_step n call l).0)
        e (step-lru_step call c l m) in
    let (rest, end, kept) =
      run-lru_run_from capacity calls (step call c).0 (lru_step capacity call l).0 next
        (step-capacity call c ∙ e) in
    (λ i. same i ∷ rest i, end, kept)

new-Models : (capacity : ℕ) → Models (new capacity) []
unfolding new lookup
new-Models capacity = record {
  linked = tt;
  agree = λ k. refl;
  sized = refl;
  bounded = omega arith;
  keys_distinct = tt;
  entries_distinct = tt;
  ticks_distinct = tt;
  ticks_past = tt;
}

-- Every sequence of lookups and insertions on a new cache answers each call as the list of uses
-- does, and leaves tables that model that list: as many entries as recorded uses, at most the
-- capacity (one if that is 0).
pub run-lru_run :
    (capacity : ℕ) (calls : List Call)
    → ((run calls (new capacity)).1 ≡ (lru_run capacity calls []).1)
      × Models (run calls (new capacity)).0 (lru_run capacity calls []).0
      × (length (run calls (new capacity)).0.entries ≤ max capacity 1)
unfolding new
run-lru_run capacity calls =
    let (same, end, kept) =
      run-lru_run_from capacity calls (new capacity) [] (new-Models capacity) refl in
    (same, end, omega (arith, end.sized, end.bounded, kept))

-- The calls inserted this verdict under this key.
abbrev pub Inserted : VerdictCacheKey → CachedVerdict → List Call → Type 0
Inserted k v [] = ⊥
Inserted k v (get _ _ _ ∷ calls) = Inserted k v calls
Inserted k v (insert j w ∷ calls) = ((k ≡ j) × (v ≡ w)) ⊎ Inserted k v calls
