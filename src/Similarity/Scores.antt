-- ===== src/Similarity/Scores.antt =====
-- The score of two sketches of src/similarity.rs: the share of numbers that they have in common.
use blackshard.Prelude.{
  ℕ, zero, suc, ◌+◌, ◌*◌, ◌/◌, ◌%◌, ◌^◌, ◌≤◌, ◌<◌, ◌≡◌, refl, sym, ap, ◌∙◌, inl, inr, Bool, false,
  ◌||◌, List, [], ◌∷◌, ltb, ◌==◌, if◌then◌else◌, length, All, All-map, arith, Bool-cases,
}
use blackshard.Similarity.{sketch_size, shared_from, sketch_similarity_basis_points}

abbrev pub is_in : ℕ → List ℕ → Bool
is_in n [] = false
is_in n (m ∷ l) = n == m || is_in n l

-- How many numbers of the one list are in the other.
abbrev pub common : List ℕ → List ℕ → ℕ
common [] right = 0
common (n ∷ left) right = (if is_in n right then 1 else 0) + common left right

abbrev pub IsAscending : List ℕ → Type 0
IsAscending [] = Unit
IsAscending (n ∷ l) = All (λ m. n < m) l × IsAscending l

pub below : (a b : ℕ) (l : List ℕ) → a ≤ b → All (λ m. b < m) l → All (λ m. a < m) l
below a b l h k = All-map _ _ (λ m q. omega (arith, q)) l k

absent : (a : ℕ) (l : List ℕ) → All (λ m. a < m) l → is_in a l ≡ false
absent a [] h = refl
absent a (b ∷ l) h = ground (arith, absent a l h.1)

-- A number below all those of one list does not count in the other.
common-skip :
    (b : ℕ) (left right : List ℕ)
    → All (λ m. b < m) left
    → common left (b ∷ right) ≡ common left right
common-skip b [] right h = refl
common-skip b (a ∷ left) right h = ground (arith, common-skip b left right h.1)

common_nil : (l : List ℕ) → common l [] ≡ 0
common_nil [] = refl
common_nil (c ∷ l) = omega (arith, common_nil l)

shared_from-common :
    (fuel : ℕ) (left right : List ℕ)
    → IsAscending left
    → IsAscending right
    → length left + length right ≤ fuel
    → shared_from fuel left right ≡ common left right
unfolding shared_from
shared_from-common zero [] right x y f = refl
shared_from-common zero (a ∷ left) right x y f = absurd (omega arith)
shared_from-common (suc fuel) [] right x y f = refl
shared_from-common (suc fuel) (a ∷ left) [] x y f = sym (common_nil (a ∷ left))
shared_from-common (suc fuel) (a ∷ left) (b ∷ right) x y f = elim (Bool-cases (ltb a b)) [
  | inl e ↦
      let l : a < b = ground (arith, e) in
      let n = absent a (b ∷ right) (l, below a b right (omega arith) y.0) in
      rw (e, n) (omega (arith, shared_from-common fuel left (b ∷ right) x.1 y (omega arith)))
  | inr e ↦ elim (Bool-cases (ltb b a)) [
    | inl g ↦
        let l : b < a = ground (arith, g) in
        rw (e, g)
          (shared_from-common fuel (a ∷ left) right x y.1 (omega arith)
            ∙ sym (common-skip b (a ∷ left) right (l, below b a left (omega arith) x.0)))
    | inr g ↦
        let l : b ≡ a = ground (arith, e, g) in
        rw (e, g)
          (ground (
            arith,
            l,
            shared_from-common fuel left right x.1 y.1 (omega arith),
            common-skip b left right (below b a left (omega arith) x.0),
          ))
  ]
]

common-le : (left right : List ℕ) → common left right ≤ length left
common-le [] right = omega arith
common-le (a ∷ left) right = ground (arith, common-le left right)

-- The score of two ascending sketches is the share, in basis points, of the numbers of the one that
-- are in the other, and at most 10,000.
pub sketch_similarity_basis_points-common :
    (left right : List ℕ)
    → IsAscending left
    → IsAscending right
    → length left ≡ sketch_size
    → length right ≡ sketch_size
    → (sketch_similarity_basis_points left right ≡ common left right * 10_000 / sketch_size)
      × (sketch_similarity_basis_points left right ≤ 10_000)
unfolding sketch_similarity_basis_points
sketch_similarity_basis_points-common left right x y l r =
    let e = shared_from-common (length left + length right) left right x y (omega arith) in
    let b : common left right ≤ 64 = omega (arith, common-le left right, l) in
    rw e (omega (arith, b), omega (arith, b))

shared_from-sym :
    (fuel : ℕ) (left right : List ℕ) → shared_from fuel left right ≡ shared_from fuel right left
unfolding shared_from
shared_from-sym zero left right = refl
shared_from-sym (suc fuel) [] [] = refl
shared_from-sym (suc fuel) [] (b ∷ right) = refl
shared_from-sym (suc fuel) (a ∷ left) [] = refl
shared_from-sym (suc fuel) (a ∷ left) (b ∷ right) = ground (
  arith,
  shared_from-sym fuel left (b ∷ right),
  shared_from-sym fuel (a ∷ left) right,
  shared_from-sym fuel left right,
)

shared_from_self : (fuel : ℕ) (l : List ℕ) → length l ≤ fuel → shared_from fuel l l ≡ length l
unfolding shared_from
shared_from_self zero [] h = refl
shared_from_self zero (a ∷ l) h = absurd (omega arith)
shared_from_self (suc fuel) [] h = refl
shared_from_self (suc fuel) (a ∷ l) h = ground (arith, shared_from_self fuel l (omega arith))

-- The score of a full sketch does not depend on which of the two comes first, and is 10,000 with
-- the sketch itself.
pub sketch_similarity_basis_points-sym :
    (left right : List ℕ)
    → length left ≡ sketch_size
    → (sketch_similarity_basis_points left right ≡ sketch_similarity_basis_points right left)
      × (sketch_similarity_basis_points left left ≡ 10_000)
unfolding sketch_similarity_basis_points
sketch_similarity_basis_points-sym left right l =
    let swap : length left + length right ≡ length right + length left = omega arith in
    (
      ap (λ n. n * 10_000 / sketch_size % 2 ^ 16)
          (ap (λ f. shared_from f left right) swap ∙ shared_from-sym _ left right),
      rw (shared_from_self (length left + length left) left (omega arith), l) refl,
    )
