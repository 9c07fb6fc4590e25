-- ===== src/VerdictCache.antt =====
-- src/verdict_cache.rs: the cache of scan verdicts with its order of use. The clock (`Utc::now`)
-- is the argument `now`, in nanoseconds after the epoch, as are the times of the scans. `entries`,
-- a `HashMap`, is an association list; `recency`, a `BTreeMap`, a list in the order of its keys.
pub mod Lru
pub mod Links
pub mod Refine
pub mod Runs
pub mod Hits
mod Examples
use Prim.Native.String.{String}
use native.Mathlib.Decide.{ℕ_discrete}
use blackshard.Prelude.{
  ℕ, ◌+◌, ◌-◌, ◌*◌, ◌/◌, ◌^◌, Bool, true, false, not, ◌&&◌, List, [], ◌∷◌, Option, none, some, ltb,
  leb, ◌==◌, if◌then◌else◌, length,
}
use blackshard.Prelude.Maps.{lookup, remove, insert as map_insert, ordered_insert}
use blackshard.Prelude.Int.{ℤ, ℤ-discrete}

pub data CacheVerdict : Type 0 where
  clean malicious suspicious scan_error : CacheVerdict

-- From src/engine.rs.
pub data AnalysisCompleteness : Type 0 where
  complete prefix_only prefix_and_targeted_regions resource_limit_reached : AnalysisCompleteness
  changed_during_scan timed_out unsupported_format : AnalysisCompleteness

pub record VerdictCacheKey : Type 0 where
  pub volume_serial : ℕ
  pub file_id : ℕ
  pub file_size : ℕ
  pub content_generation : ℕ
  pub change_time : ℤ

-- `PartialEq` of the keys: all five parts.
unfoldable pub key_discrete : Discrete VerdictCacheKey
unfolding ℤ-discrete
key_discrete = hlevel (ℕ_discrete, ℤ-discrete)

pub record CachedVerdict : Type 0 where
  pub verdict : CacheVerdict
  pub risk_score : ℕ
  pub confidence : ℕ
  pub threat_name : Option String
  pub sha256 : Option String
  pub file_size : ℕ
  pub bytes_scanned : ℕ
  pub truncated : Bool
  pub definition_generation : ℕ
  pub scanned_at : ℕ
  pub analysis_completeness : AnalysisCompleteness
  pub automatic_quarantine_eligible : Bool
  pub execution_block_eligible : Bool

abbrev is_complete : AnalysisCompleteness → Bool
is_complete complete = true
is_complete _ = false

abbrev is_some {ℓ} : {A : Type ℓ} → Option A → Bool
is_some none = false
is_some (some _) = true

-- `is_cacheable` by the verdict: first a scan error, then a clean verdict, then the others.
cacheable_as : CacheVerdict → CachedVerdict → Bool
cacheable_as scan_error v = false
cacheable_as clean v = is_complete v.analysis_completeness && not v.truncated && is_some v.sha256
cacheable_as _ v = true

unfoldable pub is_cacheable : CachedVerdict → Bool
unfolding cacheable_as
is_cacheable v = cacheable_as v.verdict v

abbrev pub Entries : Type 0
Entries = List (VerdictCacheKey × (CachedVerdict × ℕ))

pub record VerdictCache : Type 0 where
  pub capacity : ℕ
  pub entries : Entries
  pub recency : List (ℕ × VerdictCacheKey)
  pub tick : ℕ

unfoldable pub new : ℕ → VerdictCache
new capacity = record { capacity = capacity; entries = []; recency = []; tick = 0 }

-- Nanoseconds of an hour.
abbrev pub hour : ℕ
hour = 3600 * 10 ^ 9

-- A scan time ahead of the clock gives a negative age, which counts as no hours too.
unfoldable pub is_fresh : ℕ → ℕ → CachedVerdict → Bool
is_fresh now current_definition_generation cached =
    ltb ((now - cached.scanned_at) / hour) 24
    && cached.definition_generation == current_definition_generation

unfoldable pub get : ℕ → VerdictCacheKey → ℕ → VerdictCache → VerdictCache × Option CachedVerdict
get now key generation c = elim (lookup key_discrete key c.entries) [
  | none ↦ (c, none)
  | some (cached, last_used) ↦
      let recency = remove ℕ_discrete last_used c.recency in
      if not (is_fresh now generation cached)
      then (record c { recency = recency; entries = remove key_discrete key c.entries }, none)
      else (
        record c {
          tick = c.tick + 1;
          recency = ordered_insert (c.tick + 1) key recency;
          entries = map_insert key_discrete key (cached, c.tick + 1) c.entries;
        },
        some cached,
      )
]

-- `recency.pop_first()`, and the removal of the entry that it names.
unfoldable pub evict_first : List (ℕ × VerdictCacheKey) → VerdictCache → VerdictCache
evict_first [] c = c
evict_first ((_, oldest) ∷ rest) c = record c {
  recency = rest;
  entries = remove key_discrete oldest c.entries;
}

-- The `if`/`else if` of `insert`: the key's old entry goes, or, in a full cache, the oldest.
unfoldable pub make_room : VerdictCacheKey → VerdictCache → VerdictCache
make_room key c = elim (lookup key_discrete key c.entries) [
  | some (_, last_used) ↦ record c {
    entries = remove key_discrete key c.entries;
    recency = remove ℕ_discrete last_used c.recency;
  }
  | none ↦ if leb c.capacity (length c.entries) then evict_first c.recency c else c
]

unfoldable pub insert : VerdictCacheKey → CachedVerdict → VerdictCache → VerdictCache × Bool
insert key verdict c =
    if not (is_cacheable verdict)
    then (c, false)
    else let room = make_room key c in
      (
        record room {
          tick = room.tick + 1;
          recency = ordered_insert (room.tick + 1) key room.recency;
          entries = map_insert key_discrete key (verdict, room.tick + 1) room.entries;
        },
        true,
      )
