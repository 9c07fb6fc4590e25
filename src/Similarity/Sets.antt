-- ===== src/Similarity/Sets.antt =====
-- The ordered set of hashes of src/similarity.rs.
use native.Mathlib.Decide.{ℕ_discrete}
use blackshard.Prelude.{
  ℕ, zero, suc, ◌-◌, ◌≤◌, ◌<◌, ◌≡◌, ◌⊎◌, refl, sym, subst, inl, inr, true, false, ◌||◌, List, [],
  ◌∷◌, ltb, ltb→lt, ◌==◌, if◌then◌else◌, length, drop, All, arith, Bool-cases,
}
use blackshard.Prelude.Bytes.{Bytes}
use blackshard.Similarity.{
  sketch_size, shingle_bytes, shingle_stride, shingle_hash, set_insert, pop_last,
}
use blackshard.Similarity.Scores.{IsAscending, is_in, below}

-- All the hashes of a file's shingles.
unfoldable pub hashes : ℕ → Bytes → List ℕ
hashes zero bytes = []
hashes (suc fuel) bytes =
    if ltb (length bytes) shingle_bytes
    then []
    else shingle_hash bytes ∷ hashes fuel (drop shingle_stride bytes)

-- The number is kept, or 64 lower ones are.
abbrev pub IsCovered : List ℕ → ℕ → Type 0
IsCovered s h = (is_in h s ≡ true) ⊎ ((length s ≡ sketch_size) × All (λ m. m < h) s)

set_insert-above :
    (b n : ℕ) (l : List ℕ) → b < n → All (λ m. b < m) l → All (λ m. b < m) (set_insert n l)
unfolding set_insert
set_insert-above b n [] h k = (h, tt)
set_insert-above b n (m ∷ l) h k = ground (arith, set_insert-above b n l h k.1)

pub set_insert-IsAscending : (n : ℕ) (l : List ℕ) → IsAscending l → IsAscending (set_insert n l)
unfolding set_insert
set_insert-IsAscending n [] h = (tt, tt)
set_insert-IsAscending n (m ∷ l) h = elim (Bool-cases (ltb n m)) [
  | inl e ↦ rw e ((ltb→lt n m e, below n m l (ground (arith, e)) h.0), h)
  | inr e ↦ elim (Bool-cases (n == m)) [
    | inl g ↦ rw (e, g) h
    | inr g ↦
        rw (e, g)
          (set_insert-above m n l (ground (arith, e, g)) h.0, set_insert-IsAscending n l h.1)
  ]
]

pub set_insert-in : (n k : ℕ) (l : List ℕ) → is_in k (set_insert n l) ≡ (k == n || is_in k l)
unfolding set_insert
set_insert-in n k [] = refl
set_insert-in n k (m ∷ l) = ground (arith, set_insert-in n k l)

length-set_insert : (n : ℕ) (l : List ℕ) → length (set_insert n l) ≤ suc (length l)
unfolding set_insert
length-set_insert n [] = omega arith
length-set_insert n (m ∷ l) = ground (arith, length-set_insert n l)

pop_last-above : (b : ℕ) (l : List ℕ) → All (λ m. b < m) l → All (λ m. b < m) (pop_last l)
unfolding pop_last
pop_last-above b [] h = tt
pop_last-above b (n ∷ []) h = tt
pop_last-above b (n ∷ m ∷ l) h = (h.0, pop_last-above b (m ∷ l) h.1)

pub pop_last-IsAscending : (l : List ℕ) → IsAscending l → IsAscending (pop_last l)
unfolding pop_last
pop_last-IsAscending [] h = tt
pop_last-IsAscending (n ∷ []) h = tt
pop_last-IsAscending (n ∷ m ∷ l) h =
    (pop_last-above n (m ∷ l) h.0, pop_last-IsAscending (m ∷ l) h.1)

pub length-pop_last : (l : List ℕ) → length (pop_last l) ≡ length l - 1
unfolding pop_last
length-pop_last [] = refl
length-pop_last (n ∷ []) = refl
length-pop_last (n ∷ m ∷ l) = omega (arith, length-pop_last (m ∷ l))

pub pop_last-in : (k : ℕ) (l : List ℕ) → is_in k (pop_last l) ≡ true → is_in k l ≡ true
unfolding pop_last
pop_last-in k [] h = h
pop_last-in k (n ∷ []) h = absurd (ground arith)
pop_last-in k (n ∷ m ∷ l) h = ground (arith, pop_last-in k (m ∷ l))

pub All-in : (P : ℕ → Type 0) (l : List ℕ) → All P l → (k : ℕ) → is_in k l ≡ true → P k
All-in P [] a k h = absurd (ground arith)
All-in P (n ∷ l) a k h = elim (ℕ_discrete k n) [
  | yes e ↦ subst P (sym e) a.0
  | no e ↦ All-in P l a.1 k (ground (arith, h))
]

pub in-All : (P : ℕ → Type 0) (l : List ℕ) → ((k : ℕ) → is_in k l ≡ true → P k) → All P l
in-All P [] f = tt
in-All P (n ∷ l) f = (f n (ground arith), in-All P l (λ k h. f k (ground (arith, h))))

in-above : (b k : ℕ) (l : List ℕ) → All (λ m. b < m) l → is_in k l ≡ true → b < k
in-above b k [] a h = absurd (ground arith)
in-above b k (m ∷ l) a h = ground (arith, in-above b k l a.1)

-- What the removal of the greatest number loses is greater than all that stay.
pub pop_last-covers :
    (k : ℕ) (l : List ℕ)
    → IsAscending l
    → is_in k l ≡ true
    → (is_in k (pop_last l) ≡ true) ⊎ All (λ m. m < k) (pop_last l)
unfolding pop_last
pop_last-covers k [] a h = absurd (ground arith)
pop_last-covers k (n ∷ []) a h = inr tt
pop_last-covers k (n ∷ m ∷ l) a h = elim (Bool-cases (k == n)) [
  | inl e ↦ rw e (inl refl)
  | inr e ↦
      let later : is_in k (m ∷ l) ≡ true = ground (arith, e, h) in
      elim (pop_last-covers k (m ∷ l) a.1 later) [
        | inl i ↦ rw e (inl i)
        | inr g ↦ rw e (inr (in-above n k (m ∷ l) a.0 later, g))
      ]
]

pub pop_last-greatest :
    (l : List ℕ)
    → IsAscending l
    → 0 < length l
    → (d : ℕ) × (is_in d l ≡ true) × All (λ m. m < d) (pop_last l)
unfolding pop_last
pop_last-greatest [] a p = absurd (omega arith)
pop_last-greatest (n ∷ []) a p = (n, ground arith, tt)
pop_last-greatest (n ∷ m ∷ l) a p =
    let (d, i, g) = pop_last-greatest (m ∷ l) a.1 (omega arith) in
    (d, ground (arith, i), (in-above n d (m ∷ l) a.0 i, g))

pub set_insert-old : (n : ℕ) (l : List ℕ) → IsAscending l → is_in n l ≡ true → set_insert n l ≡ l
unfolding set_insert
set_insert-old n [] a h = absurd (ground arith)
set_insert-old n (m ∷ l) a h = ground (arith, set_insert-old n l a.1, in-above m n l a.0)

pub length-set_insert_new :
    (n : ℕ) (l : List ℕ) → is_in n l ≡ false → length (set_insert n l) ≡ suc (length l)
unfolding set_insert
length-set_insert_new n [] h = refl
length-set_insert_new n (m ∷ l) h = ground (arith, length-set_insert_new n l)
