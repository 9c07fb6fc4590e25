-- ===== src/Shards/Examples.antt =====
-- The store of src/shards.rs on the digest of the source's test, and the theorems at it.
use native.Mathlib.Decide.{ℕ_discrete}
use mathlib.Core.Logic.{ite}
use blackshard.Prelude.{ℕ, zero, suc, ◌≡◌, refl, true, false, none, [], ◌∷◌, ◌++◌, some}
use blackshard.Prelude.Maps.{lookup as map_lookup, remove, insert as map_insert}
use blackshard.Prelude.Bytes.{Bytes, codes, to_ascii_lowercase}
use blackshard.Prelude.Results.{ok, error}
use blackshard.Shards.{
  ShardError, Store, bytes_discrete, is_sha256_hex, lookup, learn, forget, load, collect,
  valid_shards,
}
use blackshard.Shards.Bounds
use blackshard.Shards.Bounds.{Call, learned, forgotten, loaded, run, IsStore}
use blackshard.Shards.Lookup

abbrev times : ℕ → Bytes → Bytes
times zero s = []
times (suc n) s = s ++ times n s

abbrev digest : Bytes
digest = times 32 (codes "5a")

abbrev upper_digest : Bytes
upper_digest = times 32 (codes "5A")

computes : Unit {0}
unfolding ℕ_discrete bytes_discrete map_lookup remove map_insert is_sha256_hex lookup learn forget
    load collect valid_shards run to_ascii_lowercase
computes = tt

abbrev learned_store : Store
learned_store = (learn 7 upper_digest (codes "Shard.Test") []).0

learn_test : (learn 7 upper_digest (codes "Shard.Test") []).1 ≡ ok true
unfolding computes
learn_test = refl

invalid_test :
    (learn 7 (codes "not a digest") (codes "Shard.Test") []).1 ≡ error ShardError.invalid_input
unfolding computes
invalid_test = refl

run-IsStore_example : IsStore (
    run
      (learned 7 upper_digest (codes "Shard.Test")
        ∷ learned 8 digest (codes "Shard.Test")
        ∷ forgotten true digest
        ∷ loaded 2 (some [])
        ∷ [])
      [])
run-IsStore_example = Bounds.run-IsStore (
    learned 7 upper_digest (codes "Shard.Test")
    ∷ learned 8 digest (codes "Shard.Test")
    ∷ forgotten true digest
    ∷ loaded 2 (some [])
    ∷ [])

lookup-learn_example :
    lookup digest (learn 7 upper_digest (codes "Shard.Test") []).0
    ≡ ite
        (bytes_discrete (to_ascii_lowercase upper_digest) (to_ascii_lowercase digest))
        (some (codes "Shard.Test"))
        (lookup digest [])
lookup-learn_example = Lookup.lookup-learn 7 upper_digest (codes "Shard.Test") digest [] learn_test

lookup-forget_example :
    lookup digest (forget false upper_digest learned_store).0
    ≡ ite
        (bytes_discrete (to_ascii_lowercase upper_digest) (to_ascii_lowercase digest))
        none
        (lookup digest learned_store)
lookup-forget_example = Lookup.lookup-forget false upper_digest digest learned_store
