-- ===== src/VerdictCache/Examples.antt =====
-- The cache of src/verdict_cache.rs on concrete files: the tests of the source, and the theorems
-- at concrete inputs.
use native.Mathlib.Decide.{ℕ_discrete}
use blackshard.Prelude.{
  ℕ, ◌-◌, ◌*◌, ◌≤◌, ◌<◌, ◌≡◌, refl, true, false, List, [], ◌∷◌, none, some, length, max,
}
use blackshard.Prelude.Int.{ℤ}
use blackshard.Prelude.Maps.{lookup, remove, insert as map_insert, ordered_insert}
use blackshard.VerdictCache.{
  VerdictCacheKey, key_discrete, CachedVerdict, CacheVerdict, AnalysisCompleteness, VerdictCache,
  new, hour, is_cacheable, is_fresh, make_room, evict_first,
}
use blackshard.VerdictCache
use blackshard.VerdictCache.Lru.{lru_get, lru_insert, lru_room, Models}
use blackshard.VerdictCache.Runs
use blackshard.VerdictCache.Runs.{
  Call, get, insert, Outcome, found, accepted, step, lru_step, run, lru_run, Inserted,
}
use blackshard.VerdictCache.Hits
use blackshard.VerdictCache.Hits.{IsReusable}

computes : Unit {0}
unfolding key_discrete ℕ_discrete lookup remove map_insert ordered_insert VerdictCache.get
    VerdictCache.insert make_room evict_first is_cacheable is_fresh new step run lru_get lru_insert
    lru_room lru_step lru_run
computes = tt

abbrev file : ℕ → ℕ → VerdictCacheKey
file volume id = record {
  volume_serial = volume;
  file_id = id;
  file_size = 3;
  content_generation = 4;
  change_time = ℤ.pos 5;
}

abbrev clean_at : ℕ → CachedVerdict
clean_at time = record {
  verdict = CacheVerdict.clean;
  risk_score = 0;
  confidence = 90;
  threat_name = none;
  sha256 = some "00";
  file_size = 1;
  bytes_scanned = 1;
  truncated = false;
  definition_generation = 1;
  scanned_at = time;
  analysis_completeness = AnalysisCompleteness.complete;
  automatic_quarantine_eligible = false;
  execution_block_eligible = false;
}

-- Reading the first entry makes the second the oldest, so it is the one evicted.
abbrev reuse : List Call
reuse =
    insert (file 1 1) (clean_at 100)
    ∷ insert (file 1 2) (clean_at 100)
    ∷ get 200 (file 1 1) 1
    ∷ insert (file 1 3) (clean_at 100)
    ∷ get 200 (file 1 1) 1
    ∷ get 200 (file 1 2) 1
    ∷ get 200 (file 1 3) 1
    ∷ []

eviction_test :
    (run reuse (new 2)).1
    ≡ accepted true
      ∷ accepted true
      ∷ found (some (clean_at 100))
      ∷ accepted true
      ∷ found (some (clean_at 100))
      ∷ found none
      ∷ found (some (clean_at 100))
      ∷ []
unfolding computes
eviction_test = refl

-- A file with the same number on another volume is no hit, and a new generation drops the entry.
generation_test :
    (run
      (insert (file 10 200) (clean_at 0) ∷ get 1 (file 11 200) 1 ∷ get 1 (file 10 200) 2 ∷ [])
      (new 4))
    ≡ (
      record { capacity = 4; entries = []; recency = []; tick = 1 },
      accepted true ∷ found none ∷ found none ∷ [],
    )
unfolding computes
generation_test = refl

get_sound_example :
    Inserted (file 1 1) (clean_at 100) reuse
    × IsReusable (clean_at 100)
    × ((clean_at 100).definition_generation ≡ 1)
    × (200 - (clean_at 100).scanned_at < 24 * hour)
unfolding computes
get_sound_example = Hits.get_sound 2 reuse 200 (file 1 1) 1 (clean_at 100) refl

run-lru_run_example :
    ((run reuse (new 2)).1 ≡ (lru_run 2 reuse []).1)
    × Models (run reuse (new 2)).0 (lru_run 2 reuse []).0
    × (length (run reuse (new 2)).0.entries ≤ max 2 1)
run-lru_run_example = Runs.run-lru_run 2 reuse
