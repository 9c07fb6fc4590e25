-- ===== src/Shards/Bounds.antt =====
-- The store of src/shards.rs holds at most 10,000 digests, each once, in lower case.
use blackshard.Prelude.{
  ℕ, zero, suc, ◌+◌, ◌≤◌, ◌≡◌, refl, ap, ap₂, inl, inr, Bool, true, List, [], ◌∷◌, Option, none,
  some, arith, leb, length, take, length-take, All, Bool-cases, Option-cases, if_split,
}
use blackshard.Prelude.Maps.{
  lookup as map_lookup, remove, insert as map_insert, IsDistinct, remove-IsDistinct,
  insert-IsDistinct, remove-All,
}
use blackshard.Prelude.Bytes.{Bytes, to_ascii_lowercase, lower}
use blackshard.Prelude.Results.{Result, error}
use blackshard.Shards.{
  Shard, Store, ShardError, bytes_discrete, max_shards, is_sha256_hex, is_ascii_hexdigit, all_hex,
  learn, forget, load, collect, valid_shards,
}

-- A digest in lower case.
abbrev pub IsKey : Bytes → Type 0
IsKey k = (is_sha256_hex k ≡ true) × (to_ascii_lowercase k ≡ k)

pub record IsStore (m : Store) : Type 0 where
  pub bounded : length m ≤ max_shards
  pub distinct : IsDistinct bytes_discrete m
  pub keys : All (λ p. IsKey p.0) m

lower-hex : (c : ℕ) → is_ascii_hexdigit c ≡ true → is_ascii_hexdigit (lower c) ≡ true
lower-hex c h = ground (arith, h)

lower-lower : (c : ℕ) → lower (lower c) ≡ lower c
lower-lower c = ground arith

lowercase-hex : (s : Bytes) → all_hex s ≡ true → all_hex (to_ascii_lowercase s) ≡ true
unfolding to_ascii_lowercase
lowercase-hex [] h = refl
lowercase-hex (c ∷ s) h = ground (arith, lower-hex c, lowercase-hex s)

lowercase-lowercase : (s : Bytes) → to_ascii_lowercase (to_ascii_lowercase s) ≡ to_ascii_lowercase s
unfolding to_ascii_lowercase
lowercase-lowercase [] = refl
lowercase-lowercase (c ∷ s) = ap₂ (◌∷◌) (lower-lower c) (lowercase-lowercase s)

length-lowercase : (s : Bytes) → length (to_ascii_lowercase s) ≡ length s
unfolding to_ascii_lowercase
length-lowercase [] = refl
length-lowercase (c ∷ s) = ap suc (length-lowercase s)

pub lowercase-IsKey : (s : Bytes) → is_sha256_hex s ≡ true → IsKey (to_ascii_lowercase s)
unfolding is_sha256_hex
lowercase-IsKey s h =
    (ground (arith, h, length-lowercase s, lowercase-hex s), lowercase-lowercase s)

length-remove_le : (k : Bytes) (m : Store) → length (remove bytes_discrete k m) ≤ length m
unfolding remove
length-remove_le k [] = omega arith
length-remove_le k ((j, s) ∷ m) = ground (arith, length-remove_le k m)

remove-IsStore : (k : Bytes) (m : Store) → IsStore m → IsStore (remove bytes_discrete k m)
remove-IsStore k m h = record {
  bounded = omega (arith, length-remove_le k m, h.bounded);
  distinct = remove-IsDistinct bytes_discrete k m h.distinct;
  keys = remove-All bytes_discrete (λ p. IsKey p.0) k m h.keys;
}

insert-IsStore :
    (k : Bytes) (s : Shard) (m : Store)
    → IsKey k
    → suc (length m) ≤ max_shards
    → IsStore m
    → IsStore (map_insert bytes_discrete k s m)
unfolding map_insert
insert-IsStore k s m i l h = record {
  bounded = omega (arith, length-remove_le k m, l);
  distinct = insert-IsDistinct bytes_discrete k s m h.distinct;
  keys = (i, remove-All bytes_discrete (λ p. IsKey p.0) k m h.keys);
}

learn-IsStore :
    (now : ℕ) (sha256 threat_name : Bytes) (m : Store)
    → IsStore m
    → IsStore (learn now sha256 threat_name m).0
unfolding learn
learn-IsStore now sha256 threat_name m h = elim (Bool-cases (is_sha256_hex sha256)) [
  | inr e ↦ rw e h
  | inl e ↦ elim (Option-cases (map_lookup bytes_discrete (to_ascii_lowercase sha256) m)) [
    | inr (s, f) ↦ rw (e, f) h
    | inl f ↦ elim (Bool-cases (leb max_shards (length m))) [
      | inl g ↦ rw (e, f, g) h
      | inr g ↦ rw (e, f, g) (insert-IsStore _ _ m (lowercase-IsKey sha256 e) (ground (arith, g)) h)
    ]
  ]
]

forget-IsStore :
    (is_saved : Bool) (sha256 : Bytes) (m : Store)
    → IsStore m
    → IsStore (forget is_saved sha256 m).0
unfolding forget
forget-IsStore is_saved sha256 m h =
    elim (Option-cases (map_lookup bytes_discrete (to_ascii_lowercase sha256) m)) [
      | inl f ↦ rw (f, forget) h
      | inr (s, f) ↦ rw (f, forget) (remove-IsStore _ m h)
    ]

collect-IsStore :
    (shards : List Shard) (m : Store)
    → All (λ s. is_sha256_hex s.sha256 ≡ true) shards
    → length shards + length m ≤ max_shards
    → IsStore m
    → IsStore (collect shards m)
unfolding collect map_insert
collect-IsStore [] m a l h = h
collect-IsStore (s ∷ shards) m a l h =
    let k = to_ascii_lowercase s.sha256 in
    collect-IsStore shards (map_insert bytes_discrete k s m) a.1
      (omega (arith, l, length-remove_le k m))
      (insert-IsStore k s m (lowercase-IsKey s.sha256 a.0) (omega (arith, l)) h)

valid_shards-valid :
    (shards : List Shard) → All (λ s. is_sha256_hex s.sha256 ≡ true) (valid_shards shards)
unfolding valid_shards
valid_shards-valid [] = tt
valid_shards-valid (s ∷ shards) = elim (Bool-cases (is_sha256_hex s.sha256)) [
  | inl e ↦ rw e (e, valid_shards-valid shards)
  | inr e ↦ rw e (valid_shards-valid shards)
]

take-All : {A : Type 0} (P : A → Type 0) (n : ℕ) (l : List A) → All P l → All P (take n l)
take-All P zero l h = tt
take-All P (suc n) [] h = tt
take-All P (suc n) (x ∷ l) h = (h.0, take-All P n l h.1)

empty-IsStore : IsStore []
empty-IsStore = record { bounded = omega arith; distinct = tt; keys = tt }

load-IsStore :
    (size : ℕ) (parsed : Option (List Shard)) (m : Store)
    → IsStore m
    → IsStore (load size parsed m).0
unfolding load
load-IsStore size none m h = if_split {A = Store × Result ShardError ℕ} (λ r. IsStore r.0) _ h h
load-IsStore size (some shards) m h =
    let kept = take max_shards (valid_shards shards) in
    if_split {A = Store × Result ShardError ℕ} (λ r. IsStore r.0) _
      {x = (m, error ShardError.invalid_data)} h
      (collect-IsStore kept [] (take-All _ max_shards _ (valid_shards-valid shards))
        (omega (arith, length-take max_shards (valid_shards shards))) empty-IsStore)

-- The calls that change the store.
pub data Call : Type 0 where
  learned : ℕ → Bytes → Bytes → Call
  forgotten : Bool → Bytes → Call
  loaded : ℕ → Option (List Shard) → Call

unfoldable pub run : List Call → Store → Store
run [] m = m
run (learned now sha256 threat_name ∷ calls) m = run calls (learn now sha256 threat_name m).0
run (forgotten is_saved sha256 ∷ calls) m = run calls (forget is_saved sha256 m).0
run (loaded size parsed ∷ calls) m = run calls (load size parsed m).0

run-IsStore_from : (calls : List Call) (m : Store) → IsStore m → IsStore (run calls m)
unfolding run
run-IsStore_from [] m h = h
run-IsStore_from (learned now sha256 threat_name ∷ calls) m h =
    run-IsStore_from calls _ (learn-IsStore now sha256 threat_name m h)
run-IsStore_from (forgotten is_saved sha256 ∷ calls) m h =
    run-IsStore_from calls _ (forget-IsStore is_saved sha256 m h)
run-IsStore_from (loaded size parsed ∷ calls) m h =
    run-IsStore_from calls _ (load-IsStore size parsed m h)

-- After any sequence of calls the store holds at most 10,000 shards, each once, and each under a
-- digest of 64 hexadecimal digits in lower case.
pub run-IsStore : (calls : List Call) → IsStore (run calls [])
run-IsStore calls = run-IsStore_from calls [] empty-IsStore
