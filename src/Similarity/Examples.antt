-- ===== src/Similarity/Examples.antt =====
-- The similarity engine of src/similarity.rs on concrete sketches and files, and the theorems at
-- concrete inputs.
use blackshard.Prelude.{
  ℕ, zero, suc, ◌+◌, ◌*◌, ◌/◌, ◌%◌, ◌≤◌, ◌<◌, ◌≡◌, refl, true, false, List, [], ◌∷◌, ◌++◌, none,
  some, arith, length, All,
}
use blackshard.Prelude.Bytes.{Bytes, codes}
use blackshard.Similarity.{
  compute_sketch, shingles, keep_least, set_insert, pop_last, shingle_hash, from_le_bytes, mix64,
  SimilarityProfile, new, is_invalid, has_descent, scan, sketch_similarity_basis_points,
  shared_from,
}
use blackshard.Similarity.Scores
use blackshard.Similarity.Scores.{IsAscending, is_in, common}
use blackshard.Similarity.Sketches
use blackshard.Similarity.Sets.{hashes}
use blackshard.Similarity.Matches
use blackshard.Similarity.Matches.{IsDescending, IsFound}

abbrev sample : ℕ → ℕ → Bytes
sample zero state = []
sample (suc n) state = state / 65536 % 256 ∷ sample n ((state * 1103515245 + 12345) % 2147483648)

abbrev sketch_of : Bytes → List ℕ
sketch_of bytes = elim (compute_sketch bytes) [ none ↦ [] | some s ↦ s ]

sample_sketch : compute_sketch (sample 4096 7) ≡ some (sketch_of (sample 4096 7))
unfolding compute_sketch shingles keep_least set_insert pop_last shingle_hash from_le_bytes mix64
sample_sketch = refl

compute_sketch-least_example :
    let s = sketch_of (sample 4096 7) in
    IsAscending s
    × (length s ≡ 64)
    × ((k : ℕ) → is_in k s ≡ true → is_in k (hashes 4096 (sample 4096 7)) ≡ true)
    × ((k : ℕ)
        → is_in k (hashes 4096 (sample 4096 7)) ≡ true
        → is_in k s ≡ false
        → All (λ m. m < k) s)
compute_sketch-least_example =
    Sketches.compute_sketch-least (sample 4096 7) (sketch_of (sample 4096 7)) sample_sketch

abbrev upto : ℕ → ℕ → List ℕ
upto zero from = []
upto (suc n) from = from ∷ upto n (suc from)

upto-above : (n b from : ℕ) → b < from → All (λ m. b < m) (upto n from)
upto-above zero b from h = tt
upto-above (suc n) b from h = (h, upto-above n b (suc from) (omega arith))

upto-IsAscending : (n from : ℕ) → IsAscending (upto n from)
upto-IsAscending zero from = tt
upto-IsAscending (suc n) from =
    (upto-above n from (suc from) (omega arith), upto-IsAscending n (suc from))

half_shared_test : sketch_similarity_basis_points (upto 64 0) (upto 64 32) ≡ 5_000
unfolding sketch_similarity_basis_points shared_from
half_shared_test = refl

sketch_similarity_basis_points-common_example :
    (sketch_similarity_basis_points (upto 64 0) (upto 64 32)
      ≡ common (upto 64 0) (upto 64 32) * 10_000 / 64)
    × (sketch_similarity_basis_points (upto 64 0) (upto 64 32) ≤ 10_000)
sketch_similarity_basis_points-common_example =
    Scores.sketch_similarity_basis_points-common (upto 64 0) (upto 64 32) (upto-IsAscending 64 0)
      (upto-IsAscending 64 32) refl refl

abbrev profile : SimilarityProfile
profile = record {
  identifier = codes "family-a";
  threat_name = codes "Test.Similar.FamilyA";
  family = some (codes "FamilyA");
  minimum_file_size = 4096;
  maximum_file_size = 65536;
  minimum_similarity_basis_points = 9_000;
  sketch = upto 64 0;
}

profile_accepted : new (profile ∷ []) ≡ some (profile ∷ [])
unfolding new is_invalid has_descent
profile_accepted = refl

scan-AreFound_example :
    let l = scan (profile ∷ []) (codes "MZ" ++ sample 4096 7) 5000 in
    (length l ≤ 8) × IsDescending l × All (IsFound (profile ∷ []) 5000) l
scan-AreFound_example =
    Matches.scan-AreFound (profile ∷ []) (profile ∷ []) (codes "MZ" ++ sample 4096 7) 5000
      profile_accepted
