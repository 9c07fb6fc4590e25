-- ===== src/Shards/Lookup.antt =====
-- What `lookup` of src/shards.rs finds after `learn` and `forget`, whatever the digests' case.
use mathlib.Core.Logic.{ite, if_pos, if_neg}
use blackshard.Prelude.{
  ℕ, ◌≡◌, refl, sym, ap, ◌∙◌, inl, inr, Bool, true, [], ◌∷◌, none, some, arith, Option-cases,
}
use blackshard.Prelude.Maps.{
  lookup as map_lookup, remove, insert as map_insert, lookup-insert_self, lookup-insert_ne,
  lookup-remove_self, lookup-remove_ne, remove_absent,
}
use blackshard.Prelude.Bytes.{Bytes, to_ascii_lowercase}
use blackshard.Prelude.Results.{ok}
use blackshard.Shards.{Shard, Store, bytes_discrete, threat_name_of, lookup, learn, forget}

-- The test for an empty store does not matter.
lookup_lem :
    (sha256 : Bytes) (m : Store)
    → lookup sha256 m ≡ threat_name_of (map_lookup bytes_discrete (to_ascii_lowercase sha256) m)
unfolding lookup map_lookup
lookup_lem sha256 [] = refl
lookup_lem sha256 (entry ∷ m) = refl

learn-true :
    (now : ℕ) (sha256 threat_name : Bytes) (m : Store)
    → (learn now sha256 threat_name m).1 ≡ ok true
    → (learn now sha256 threat_name m).0
      ≡ map_insert bytes_discrete
          (to_ascii_lowercase sha256)
          (record {
            sha256 = to_ascii_lowercase sha256;
            threat_name = threat_name;
            learned_at = now;
          })
          m
unfolding learn
learn-true now sha256 threat_name m h = ground (arith, h)

-- After a digest was learned as new, it is found under its threat name, in upper and lower case
-- alike, and every other digest gives what it gave before.
pub lookup-learn :
    (now : ℕ) (sha256 threat_name other : Bytes) (m : Store)
    → (learn now sha256 threat_name m).1 ≡ ok true
    → lookup other (learn now sha256 threat_name m).0
      ≡ ite
          (bytes_discrete (to_ascii_lowercase sha256) (to_ascii_lowercase other))
          (some threat_name)
          (lookup other m)
lookup-learn now sha256 threat_name other m h =
    let key = to_ascii_lowercase sha256 in
    let shard : Shard = record { sha256 = key; threat_name = threat_name; learned_at = now } in
    let m' = map_insert bytes_discrete key shard m in
    ap (lookup other) (learn-true now sha256 threat_name m h)
    ∙ lookup_lem other m'
    ∙ elim (bytes_discrete key (to_ascii_lowercase other)) [
      | yes p ↦ rw (if_pos (bytes_discrete key (to_ascii_lowercase other)) p) (
          ap (λ k. threat_name_of (map_lookup bytes_discrete k m')) (sym p)
          ∙ ap threat_name_of (lookup-insert_self bytes_discrete key shard m))
      | no n ↦ rw (if_neg (bytes_discrete key (to_ascii_lowercase other)) n) (
          ap threat_name_of
            (lookup-insert_ne bytes_discrete key (to_ascii_lowercase other) shard m n)
          ∙ sym (lookup_lem other m))
    ]

forget-removes :
    (is_saved : Bool) (sha256 : Bytes) (m : Store)
    → (forget is_saved sha256 m).0 ≡ remove bytes_discrete (to_ascii_lowercase sha256) m
unfolding forget
forget-removes is_saved sha256 m =
    elim (Option-cases (map_lookup bytes_discrete (to_ascii_lowercase sha256) m)) [
      | inl e ↦ rw (e, forget) (sym (remove_absent bytes_discrete (to_ascii_lowercase sha256) m e))
      | inr (s, e) ↦ rw (e, forget) refl
    ]

-- After a digest was forgotten it is not found, in upper or lower case, even if the file could not
-- be saved, and every other digest gives what it gave before.
pub lookup-forget :
    (is_saved : Bool) (sha256 other : Bytes) (m : Store)
    → lookup other (forget is_saved sha256 m).0
      ≡ ite
          (bytes_discrete (to_ascii_lowercase sha256) (to_ascii_lowercase other))
          none
          (lookup other m)
lookup-forget is_saved sha256 other m =
    let key = to_ascii_lowercase sha256 in
    let m' = remove bytes_discrete key m in
    ap (lookup other) (forget-removes is_saved sha256 m)
    ∙ lookup_lem other m'
    ∙ elim (bytes_discrete key (to_ascii_lowercase other)) [
      | yes p ↦ rw (if_pos (bytes_discrete key (to_ascii_lowercase other)) p) (
          ap (λ k. threat_name_of (map_lookup bytes_discrete k m')) (sym p)
          ∙ ap threat_name_of (lookup-remove_self bytes_discrete key m))
      | no n ↦ rw (if_neg (bytes_discrete key (to_ascii_lowercase other)) n) (
          ap threat_name_of (lookup-remove_ne bytes_discrete key (to_ascii_lowercase other) m n)
          ∙ sym (lookup_lem other m))
    ]
