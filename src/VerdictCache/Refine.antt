-- ===== src/VerdictCache/Refine.antt =====
-- The cache of src/verdict_cache.rs does what the list of uses says.
use native.Mathlib.Decide.{ℕ_discrete}
use mathlib.Core.Option
use mathlib.Core.List.{tail}
use blackshard.Prelude.{
  ℕ, ◌+◌, ◌≤◌, ◌<◌, ◌≡◌, ◌≢◌, refl, sym, ap, subst, subst₂, ◌∙◌, [], ◌∷◌, ◌++◌, none, some, leb,
  length, All, All-map, All-append, length-append, max, arith, Option-cases, Bool-cases, inl, inr,
}
use blackshard.Prelude.Maps.{
  lookup, remove, ordered_insert, insert as map_insert, lookup-remove_self, lookup-remove_ne,
  remove-IsDistinct, length-remove, append-IsDistinct, remove-All, ordered_insert_last,
  lookup-insert_self, lookup-insert_ne, insert-IsDistinct, length-insert_absent, insert-remove,
  lookup-append_self, lookup-append_ne, remove_head,
}
use blackshard.VerdictCache.{
  VerdictCacheKey, key_discrete, CachedVerdict, is_cacheable, is_fresh, Entries, VerdictCache, get,
  insert, make_room, evict_first,
}
use blackshard.VerdictCache.Lru.{Uses, lru_get, lru_insert, lru_room, Models}
use blackshard.VerdictCache.Links.{
  Recency, IsLinked-tick, tick-All, IsLinked-remove, IsLinked-append, IsLinked-change,
}

abbrev dropped : VerdictCacheKey → ℕ → VerdictCache → VerdictCache
dropped k t c = record c {
  entries = remove key_discrete k c.entries;
  recency = remove ℕ_discrete t c.recency;
}

abbrev used : VerdictCacheKey → CachedVerdict → VerdictCache → VerdictCache
used k v c = record c {
  tick = c.tick + 1;
  recency = ordered_insert (c.tick + 1) k c.recency;
  entries = map_insert key_discrete k (v, c.tick + 1) c.entries;
}

listed :
    (c : VerdictCache) (l : Uses) (k : VerdictCacheKey) (v : CachedVerdict) (t : ℕ)
    → Models c l
    → lookup key_discrete k c.entries ≡ some (v, t)
    → lookup key_discrete k l ≡ some v
listed c l k v t m q = m.agree k ∙ ap (Option.map (λ p. p.0)) q

-- To drop a key's entry and its tick is to drop the key from the list.
Models-dropped :
    (c : VerdictCache) (l : Uses) (k : VerdictCacheKey) (v : CachedVerdict) (t : ℕ)
    → Models c l
    → lookup key_discrete k c.entries ≡ some (v, t)
    → Models (dropped k t c) (remove key_discrete k l)
Models-dropped c l k v t m q =
    let here = listed c l k v t m q in
    let size_l = length-remove key_discrete k l v m.keys_distinct here in
    let size_e = length-remove key_discrete k c.entries (v, t) m.entries_distinct q in
    record {
      linked =
          IsLinked-remove c.entries (remove key_discrete k c.entries) c.recency l k v t
            (λ j n. lookup-remove_ne key_discrete k j c.entries n) q
            (tick-All c.recency t k m.ticks_distinct
              (IsLinked-tick c.entries c.recency l k v v t m.linked m.ticks_distinct here q))
            m.linked;
      agree = λ j. agree_removed j (key_discrete k j);
      sized = omega arith;
      bounded = omega arith;
      keys_distinct = remove-IsDistinct key_discrete k l m.keys_distinct;
      entries_distinct = remove-IsDistinct key_discrete k c.entries m.entries_distinct;
      ticks_distinct = remove-IsDistinct ℕ_discrete t c.recency m.ticks_distinct;
      ticks_past = remove-All ℕ_discrete (λ p. p.0 ≤ c.tick) t c.recency m.ticks_past;
    }
  where
    agree_removed :
        (j : VerdictCacheKey)
        → Dec (k ≡ j)
        → lookup key_discrete j (remove key_discrete k l)
          ≡ Option.map (λ p. p.0) (lookup key_discrete j (remove key_discrete k c.entries))
    agree_removed j (yes p) =
        ground
          (arith, lookup-remove_self key_discrete k l, lookup-remove_self key_discrete k c.entries)
    agree_removed j (no n) =
        lookup-remove_ne key_discrete k j l n
        ∙ m.agree j
        ∙ ap (Option.map (λ p. p.0)) (sym (lookup-remove_ne key_discrete k j c.entries n))

unlisted :
    (c : VerdictCache) (l : Uses) (k : VerdictCacheKey)
    → Models c l
    → lookup key_discrete k l ≡ none
    → lookup key_discrete k c.entries ≡ none
unlisted c l k m h = elim (Option-cases (lookup key_discrete k c.entries)) [
  | inl e ↦ e
  | inr (p, e) ↦ absurd (ground (arith, m.agree k))
]

past-lookup : (t : ℕ) (r : Recency) → All (λ p. p.0 < t) r → lookup ℕ_discrete t r ≡ none
unfolding lookup
past-lookup t [] h = refl
past-lookup t ((s, k) ∷ r) h = ground (arith, past-lookup t r h.1)

-- To enter a new key with the next tick is to put it at the end of the list.
Models-used :
    (c : VerdictCache) (l : Uses) (k : VerdictCacheKey) (v : CachedVerdict)
    → Models c l
    → lookup key_discrete k l ≡ none
    → length l < max c.capacity 1
    → Models (used k v c) (l ++ (k, v) ∷ [])
Models-used c l k v m new_key room =
    let absent = unlisted c l k m new_key in
    let later =
      ordered_insert_last (c.tick + 1) k c.recency
        (All-map _ _ (λ p h. omega arith) c.recency m.ticks_past) in
    record {
      linked = rw later (
          IsLinked-append (map_insert key_discrete k (v, c.tick + 1) c.entries) c.recency l k v
            (c.tick + 1) (lookup-insert_self key_discrete k (v, c.tick + 1) c.entries)
            (IsLinked-change c.entries _ c.recency l k next new_key m.linked));
      agree = λ j. agree_used j (key_discrete k j);
      sized =
          length-insert_absent key_discrete k (v, c.tick + 1) c.entries absent
          ∙ omega (arith, length-append l ((k, v) ∷ []), m.sized);
      bounded = omega (arith, length-append l ((k, v) ∷ []));
      keys_distinct = append-IsDistinct key_discrete k v l m.keys_distinct new_key;
      entries_distinct = insert-IsDistinct key_discrete k _ c.entries m.entries_distinct;
      ticks_distinct = rw later (
          append-IsDistinct ℕ_discrete (c.tick + 1) k c.recency m.ticks_distinct (
            past-lookup (c.tick + 1) c.recency
              (All-map _ _ (λ p h. omega arith) c.recency m.ticks_past)));
      ticks_past = rw later (
          All-append _ c.recency ((c.tick + 1, k) ∷ [])
            (All-map _ _ (λ p h. omega arith) c.recency m.ticks_past) (omega arith, tt));
    }
  where
    next :
        (j : VerdictCacheKey)
        → k ≢ j
        → lookup key_discrete j (map_insert key_discrete k (v, c.tick + 1) c.entries)
          ≡ lookup key_discrete j c.entries
    next j n = lookup-insert_ne key_discrete k j (v, c.tick + 1) c.entries n

    agree_used :
        (j : VerdictCacheKey)
        → Dec (k ≡ j)
        → lookup key_discrete j (l ++ (k, v) ∷ [])
          ≡ Option.map
              (λ p. p.0)
              (lookup key_discrete j (map_insert key_discrete k (v, c.tick + 1) c.entries))
    agree_used j (yes p) =
        subst
          (λ i.
            lookup key_discrete i (l ++ (k, v) ∷ [])
            ≡ Option.map (λ q. q.0)
                (lookup key_discrete i (map_insert key_discrete k (v, c.tick + 1) c.entries)))
          p
          (lookup-append_self key_discrete k v l new_key
            ∙ ap (Option.map (λ q. q.0))
                (sym (lookup-insert_self key_discrete k (v, c.tick + 1) c.entries)))
    agree_used j (no n) =
        lookup-append_ne key_discrete k j v l n
        ∙ m.agree j
        ∙ ap (Option.map (λ q. q.0)) (sym (next j n))

abbrev tables : ℕ → Entries → Recency → ℕ → VerdictCache
tables capacity e r tick = record { capacity = capacity; entries = e; recency = r; tick = tick }

-- To take the first tick's entry away is to drop the head of the list.
Models-evict_first :
    (capacity : ℕ) (e : Entries) (r : Recency) (tick : ℕ) (l : Uses)
    → Models (tables capacity e r tick) l
    → Models (evict_first r (tables capacity e r tick)) (tail l)
unfolding evict_first
Models-evict_first capacity e [] tick [] m = m
Models-evict_first capacity e [] tick (_ ∷ _) m = absurd m.linked
Models-evict_first capacity e (_ ∷ _) tick [] m = absurd m.linked
Models-evict_first capacity e ((t, k) ∷ r) tick ((j, v) ∷ l) m =
    subst₂ (λ x y. Models (tables capacity (remove key_discrete k e) x tick) y)
      (remove_head ℕ_discrete t k r m.ticks_distinct.0)
      (subst (λ i. remove key_discrete i ((j, v) ∷ l) ≡ l) (sym m.linked.0)
        (remove_head key_discrete j v l m.keys_distinct.0))
      (Models-dropped (tables capacity e ((t, k) ∷ r) tick) ((j, v) ∷ l) k v t m m.linked.1)

evict_first-capacity : (r : Recency) (c : VerdictCache) → (evict_first r c).capacity ≡ c.capacity
unfolding evict_first
evict_first-capacity [] c = refl
evict_first-capacity (_ ∷ _) c = refl

lookup-tail :
    (k : VerdictCacheKey) (l : Uses)
    → lookup key_discrete k l ≡ none
    → lookup key_discrete k (tail l) ≡ none
unfolding lookup
lookup-tail k [] h = refl
lookup-tail k ((j, v) ∷ l) h = ground arith

length-tail : (l : Uses) (n : ℕ) → length l ≤ max n 1 → length (tail l) < max n 1
length-tail [] n h = omega arith
length-tail (x ∷ l) n h = omega arith

Models-make_room :
    (c : VerdictCache) (l : Uses) (k : VerdictCacheKey)
    → Models c l
    → Models (make_room k c) (lru_room c.capacity k l)
      × (lookup key_discrete k (lru_room c.capacity k l) ≡ none)
      × (length (lru_room c.capacity k l) < max c.capacity 1)
      × ((make_room k c).capacity ≡ c.capacity)
unfolding make_room lru_room
Models-make_room c l k m = elim (Option-cases (lookup key_discrete k c.entries)) [
  | inl e ↦
      let unseen : lookup key_discrete k l ≡ none = m.agree k ∙ ap (Option.map (λ p. p.0)) e in
      rw (e, unseen, m.sized, make_room, lru_room)
        (elim (Bool-cases (leb c.capacity (length l))) [
          | inl full ↦ rw full (
            Models-evict_first c.capacity c.entries c.recency c.tick l m,
            lookup-tail k l unseen,
            length-tail l c.capacity m.bounded,
            evict_first-capacity c.recency c,
          )
          | inr free ↦ rw free (m, unseen, ground arith, refl)
        ])
  | inr ((v, t), e) ↦
      let seen = listed c l k v t m e in
      rw (e, seen, make_room, lru_room)
        (
          Models-dropped c l k v t m e,
          lookup-remove_self key_discrete k l,
          omega (arith, length-remove key_discrete k l v m.keys_distinct seen, m.bounded),
          refl,
        )
]

-- A used key's entry is written over in place.
Models-touched :
    (c : VerdictCache) (l : Uses) (k : VerdictCacheKey) (v : CachedVerdict) (t : ℕ)
    → Models c l
    → lookup key_discrete k c.entries ≡ some (v, t)
    → Models
        (record c {
          tick = c.tick + 1;
          recency = ordered_insert (c.tick + 1) k (remove ℕ_discrete t c.recency);
          entries = map_insert key_discrete k (v, c.tick + 1) c.entries;
        })
        (remove key_discrete k l ++ (k, v) ∷ [])
Models-touched c l k v t m e =
    let free : length (remove key_discrete k l) < max c.capacity 1 =
      omega (
        arith,
        length-remove key_discrete k l v m.keys_distinct (listed c l k v t m e),
        m.bounded,
      ) in
    subst
      (λ x.
        Models
          (tables c.capacity x (ordered_insert (c.tick + 1) k (remove ℕ_discrete t c.recency))
            (c.tick + 1))
          (remove key_discrete k l ++ (k, v) ∷ []))
      (insert-remove key_discrete k (v, c.tick + 1) c.entries)
      (Models-used (dropped k t c) (remove key_discrete k l) k v (Models-dropped c l k v t m e)
        (lookup-remove_self key_discrete k l) free)

-- A lookup in a cache that models a list of uses returns what the list says, and leaves a cache
-- that models the list afterwards: a fresh verdict moves to the end, a stale one is dropped.
pub get-lru_get :
    (now : ℕ) (k : VerdictCacheKey) (generation : ℕ) (c : VerdictCache) (l : Uses)
    → Models c l
    → ((get now k generation c).1 ≡ (lru_get now k generation l).1)
      × Models (get now k generation c).0 (lru_get now k generation l).0
unfolding get lru_get
get-lru_get now k generation c l m = elim (Option-cases (lookup key_discrete k c.entries)) [
  | inl e ↦
      let unseen : lookup key_discrete k l ≡ none = m.agree k ∙ ap (Option.map (λ p. p.0)) e in
      rw (e, unseen, get, lru_get) (refl, m)
  | inr ((v, t), e) ↦
      let seen = listed c l k v t m e in
      rw (e, seen, get, lru_get)
        (elim (Bool-cases (is_fresh now generation v)) [
          | inl fresh ↦ rw fresh (refl, Models-touched c l k v t m e)
          | inr stale ↦ rw stale (refl, Models-dropped c l k v t m e)
        ])
]

-- An insertion into a cache that models a list of uses accepts the verdicts that the list
-- accepts, and leaves a cache that models the list afterwards.
pub insert-lru_insert :
    (k : VerdictCacheKey) (v : CachedVerdict) (c : VerdictCache) (l : Uses)
    → Models c l
    → ((insert k v c).1 ≡ (lru_insert c.capacity k v l).1)
      × Models (insert k v c).0 (lru_insert c.capacity k v l).0
unfolding insert lru_insert
insert-lru_insert k v c l m = elim (Bool-cases (is_cacheable v)) [
  | inl accepted ↦
      let (models, unseen, free, same) = Models-make_room c l k m in
      rw accepted (
        refl,
        Models-used (make_room k c) (lru_room c.capacity k l) k v models unseen
            (subst (λ n. length (lru_room c.capacity k l) < max n 1) (sym same) free),
      )
  | inr refused ↦ rw refused (refl, m)
]
