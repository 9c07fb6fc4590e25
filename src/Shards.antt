-- ===== src/Shards.antt =====
-- src/shards.rs: the digests learned on this machine. `store` is the process-wide store, an
-- association list for its hash map; whether a write of the file succeeds is an argument, and so
-- are the time and the contents of the file that `load` reads.
pub mod Bounds
pub mod Lookup
mod Examples
use native.Mathlib.Decide.{ℕ_discrete}
use blackshard.Prelude.{
  ℕ, ◌*◌, Bool, true, false, not, ◌&&◌, ◌||◌, List, [], ◌∷◌, Option, none, some, leb, ◌==◌,
  if◌then◌else◌, length, take,
}
use blackshard.Prelude.Maps.{remove, insert as map_insert, lookup as map_lookup}
use blackshard.Prelude.Bytes.{Bytes, to_ascii_lowercase}
use blackshard.Prelude.Results.{Result, ok, error}

abbrev pub max_shards : ℕ
max_shards = 10_000

abbrev pub max_file_bytes : ℕ
max_file_bytes = 4 * 1024 * 1024

pub record Shard : Type 0 where
  pub sha256 : Bytes
  pub threat_name : Bytes
  pub learned_at : ℕ

unfoldable pub bytes_discrete : Discrete Bytes
bytes_discrete = hlevel ℕ_discrete

abbrev pub Store : Type 0
Store = List (Bytes × Shard)

pub data ShardError : Type 0 where
  invalid_data invalid_input full not_saved : ShardError

abbrev pub is_ascii_hexdigit : ℕ → Bool
is_ascii_hexdigit c =
    (leb b'0' c && leb c b'9') || (leb b'a' c && leb c b'f') || (leb b'A' c && leb c b'F')

abbrev pub all_hex : Bytes → Bool
all_hex [] = true
all_hex (c ∷ s) = is_ascii_hexdigit c && all_hex s

unfoldable pub is_sha256_hex : Bytes → Bool
is_sha256_hex s = length s == 64 && all_hex s

abbrev pub threat_name_of : Option Shard → Option Bytes
threat_name_of none = none
threat_name_of (some shard) = some shard.threat_name

unfoldable pub lookup : Bytes → Store → Option Bytes
lookup sha256 [] = none
lookup sha256 (entry ∷ m) =
    threat_name_of (map_lookup bytes_discrete (to_ascii_lowercase sha256) (entry ∷ m))

unfoldable pub learn : ℕ → Bytes → Bytes → Store → Store × Result ShardError Bool
learn now sha256 threat_name m =
    let key = to_ascii_lowercase sha256 in
    if not (is_sha256_hex sha256)
    then (m, error invalid_input)
    else elim (map_lookup bytes_discrete key m) [
      | some _ ↦ (m, ok false)
      | none ↦ if leb max_shards (length m) then (m, error full) else (
        map_insert bytes_discrete key
            (record { sha256 = key; threat_name = threat_name; learned_at = now }) m,
        ok true,
      )
    ]

unfoldable pub forget : Bool → Bytes → Store → Store × Result ShardError Bool
forget is_saved sha256 m =
    let key = to_ascii_lowercase sha256 in
    elim (map_lookup bytes_discrete key m) [
      | none ↦ (m, ok false)
      | some _ ↦ (remove bytes_discrete key m, if is_saved then ok true else error not_saved)
    ]

unfoldable pub valid_shards : List Shard → List Shard
valid_shards [] = []
valid_shards (s ∷ shards) =
    if is_sha256_hex s.sha256 then s ∷ valid_shards shards else valid_shards shards

-- `collect`: a later shard replaces an earlier one of the same key.
unfoldable pub collect : List Shard → Store → Store
collect [] m = m
collect (s ∷ shards) m =
    collect shards (map_insert bytes_discrete (to_ascii_lowercase s.sha256) s m)

-- The shards that the file of the given size holds, or `none` if it does not parse.
unfoldable pub load : ℕ → Option (List Shard) → Store → Store × Result ShardError ℕ
load size parsed m =
    if not (leb size max_file_bytes) then (m, error invalid_data) else elim parsed [
      | none ↦ (m, error invalid_data)
      | some shards ↦
          let loaded = collect (take max_shards (valid_shards shards)) [] in
          (loaded, ok (length loaded))
    ]
