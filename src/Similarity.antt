-- ===== src/Similarity.antt =====
-- src/similarity.rs: sketches of programs and the matches of the similarity engine. A sketch is a
-- list of 64-bit numbers; an ordered set is a list in ascending order.
pub mod Scores
pub mod Sets
pub mod Sketches
pub mod Matches
mod Examples
use blackshard.Prelude.{
  ℕ, zero, suc, ◌+◌, ◌-◌, ◌*◌, ◌/◌, ◌%◌, ◌^◌, bit_xor, Bool, true, false, not, ◌&&◌, ◌||◌, List, [],
  ◌∷◌, ◌++◌, Option, none, some, ltb, leb, ◌==◌, if◌then◌else◌, length, take, drop,
}
use blackshard.Prelude.Bytes.{Bytes, codes, starts_with}

abbrev pub sketch_size : ℕ
sketch_size = 64

abbrev pub min_sketch_bytes : ℕ
min_sketch_bytes = 4 * 1024

abbrev pub shingle_bytes : ℕ
shingle_bytes = 16

abbrev pub shingle_stride : ℕ
shingle_stride = 4

abbrev pub max_visible_matches : ℕ
max_visible_matches = 8

pub record SimilarityProfile : Type 0 where
  pub identifier : Bytes
  pub threat_name : Bytes
  pub family : Option Bytes
  pub minimum_file_size : ℕ
  pub maximum_file_size : ℕ
  pub minimum_similarity_basis_points : ℕ
  pub sketch : List ℕ

pub record SimilarityMatch : Type 0 where
  pub identifier : Bytes
  pub threat_name : Bytes
  pub family : Option Bytes
  pub similarity_basis_points : ℕ

-- `windows(2).any(|pair| pair[0] >= pair[1])`
unfoldable pub has_descent : List ℕ → Bool
has_descent [] = false
has_descent (a ∷ []) = false
has_descent (a ∷ b ∷ l) = leb b a || has_descent (b ∷ l)

unfoldable pub is_invalid : SimilarityProfile → Bool
is_invalid p =
    ltb p.minimum_file_size min_sketch_bytes
    || ltb p.maximum_file_size p.minimum_file_size
    || not (
        leb 8_500 p.minimum_similarity_basis_points && leb p.minimum_similarity_basis_points 10_000)
    || has_descent p.sketch

-- `SimilarityEngine::new`: the engine is its profiles, and `none` is the error.
unfoldable pub new : List SimilarityProfile → Option (List SimilarityProfile)
new [] = some []
new (p ∷ profiles) =
    if is_invalid p then none else elim (new profiles) [ none ↦ none | some rest ↦ some (p ∷ rest) ]

abbrev pub u64 : ℕ
u64 = 2 ^ 64

unfoldable pub mix64 : ℕ → ℕ
mix64 v0 =
    let v1 = bit_xor v0 (v0 / 2 ^ 30) in
    let v2 = v1 * 0xbf58_476d_1ce4_e5b9 % u64 in
    let v3 = bit_xor v2 (v2 / 2 ^ 27) in
    let v4 = v3 * 0x94d0_49bb_1331_11eb % u64 in bit_xor v4 (v4 / 2 ^ 31)

-- `from_le_bytes`
unfoldable pub from_le_bytes : Bytes → ℕ
from_le_bytes [] = 0
from_le_bytes (b ∷ bytes) = b + 256 * from_le_bytes bytes

-- The hash of the 16 bytes at the front.
unfoldable pub shingle_hash : Bytes → ℕ
shingle_hash bytes =
    mix64 (bit_xor (from_le_bytes (take 8 bytes)) (mix64 (from_le_bytes (take 8 (drop 8 bytes)))))

-- `BTreeSet::insert`
unfoldable pub set_insert : ℕ → List ℕ → List ℕ
set_insert n [] = n ∷ []
set_insert n (m ∷ l) = if ltb n m then n ∷ m ∷ l else if n == m then m ∷ l else m ∷ set_insert n l

unfoldable pub pop_last : List ℕ → List ℕ
pop_last [] = []
pop_last (n ∷ []) = []
pop_last (n ∷ m ∷ l) = n ∷ pop_last (m ∷ l)

-- One hash more, of which the 64 least stay.
unfoldable pub keep_least : ℕ → List ℕ → List ℕ
keep_least hash minima =
    let minima' = set_insert hash minima in
    if ltb sketch_size (length minima') then pop_last minima' else minima'

-- `for offset in (0..=len - 16).step_by(4)`, as the bytes from the offset on; the fuel bounds the
-- number of offsets.
unfoldable pub shingles : ℕ → Bytes → List ℕ → List ℕ
shingles zero bytes minima = minima
shingles (suc fuel) bytes minima =
    if ltb (length bytes) shingle_bytes
    then minima
    else shingles fuel (drop shingle_stride bytes) (keep_least (shingle_hash bytes) minima)

unfoldable pub compute_sketch : Bytes → Option (List ℕ)
compute_sketch bytes =
    if ltb (length bytes) min_sketch_bytes || ltb (length bytes) shingle_bytes
    then none
    else let minima = shingles (length bytes) bytes [] in
      if not (length minima == sketch_size) then none else some minima

-- The two indices of the source are the rests of the two sketches; the fuel bounds their sum.
unfoldable pub shared_from : ℕ → List ℕ → List ℕ → ℕ
shared_from zero left right = 0
shared_from (suc fuel) [] right = 0
shared_from (suc fuel) (a ∷ left) [] = 0
shared_from (suc fuel) (a ∷ left) (b ∷ right) =
    if ltb a b
    then shared_from fuel left (b ∷ right)
    else if ltb b a
    then shared_from fuel (a ∷ left) right
    else suc (shared_from fuel left right)

unfoldable pub sketch_similarity_basis_points : List ℕ → List ℕ → ℕ
sketch_similarity_basis_points left right =
    shared_from (length left + length right) left right * 10_000 / sketch_size % 2 ^ 16

unfoldable pub score_profile : List ℕ → SimilarityProfile → Option SimilarityMatch
score_profile sketch p =
    let score = sketch_similarity_basis_points sketch p.sketch in
    if leb p.minimum_similarity_basis_points score
    then some (record {
      identifier = p.identifier;
      threat_name = p.threat_name;
      family = p.family;
      similarity_basis_points = score;
    })
    else none

-- `filter_map`
unfoldable pub scored : List ℕ → List SimilarityProfile → List SimilarityMatch
scored sketch [] = []
scored sketch (p ∷ profiles) = elim (score_profile sketch p) [
  | none ↦ scored sketch profiles
  | some m ↦ m ∷ scored sketch profiles
]

unfoldable pub candidates : ℕ → List SimilarityProfile → List SimilarityProfile
candidates size [] = []
candidates size (p ∷ profiles) =
    if leb p.minimum_file_size size && leb size p.maximum_file_size
    then p ∷ candidates size profiles
    else candidates size profiles

-- `sort_by_key(Reverse(similarity_basis_points))`, stable.
unfoldable pub insert_match : SimilarityMatch → List SimilarityMatch → List SimilarityMatch
insert_match m [] = m ∷ []
insert_match m (n ∷ l) =
    if leb n.similarity_basis_points m.similarity_basis_points
    then m ∷ n ∷ l
    else n ∷ insert_match m l

unfoldable pub sort_matches : List SimilarityMatch → List SimilarityMatch
sort_matches [] = []
sort_matches (m ∷ l) = insert_match m (sort_matches l)

abbrev pub is_empty {ℓ} : {A : Type ℓ} → List A → Bool
is_empty [] = true
is_empty (x ∷ xs) = false

unfoldable pub scan : List SimilarityProfile → Bytes → ℕ → List SimilarityMatch
scan profiles bytes declared_size =
    if is_empty profiles
      || ltb (length bytes) min_sketch_bytes
      || not (starts_with bytes (codes "MZ"))
    then []
    else let eligible = candidates declared_size profiles in
      if is_empty eligible then [] else elim (compute_sketch bytes) [
        | none ↦ []
        | some sketch ↦ take max_visible_matches (sort_matches (scored sketch eligible))
      ]
