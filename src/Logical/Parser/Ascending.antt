-- ===== src/Logical/Parser/Ascending.antt =====
-- `sort_unstable` and `dedup`, as the parser of src/clamdb/logical.rs uses them on the
-- sub-signatures of a group: the result is strictly ascending and has the same members.
use blackshard.Prelude.{
  ℕ, ◌≤◌, ◌<◌, ◌≡◌, refl, ap, ◌∙◌, ◌⊎◌, inl, inr, ◌↔◌, List, [], ◌∷◌, arith, ◌==◌, Bool-cases,
}
use blackshard.Logical.Parser.{insert_sorted, sort, dedup_after, dedup}

abbrev pub IsSorted : List ℕ → Type 0
IsSorted [] = Unit
IsSorted (n ∷ []) = Unit
IsSorted (n ∷ m ∷ l) = (n ≤ m) × IsSorted (m ∷ l)

abbrev pub IsAscending : List ℕ → Type 0
IsAscending [] = Unit
IsAscending (n ∷ []) = Unit
IsAscending (n ∷ m ∷ l) = (n < m) × IsAscending (m ∷ l)

abbrev pub Among : ℕ → List ℕ → Type 0
Among n [] = ⊥
Among n (m ∷ l) = (n ≡ m) ⊎ Among n l

insert_sorted-IsSorted : (n : ℕ) (l : List ℕ) → IsSorted l → IsSorted (insert_sorted n l)
unfolding insert_sorted
insert_sorted-IsSorted n [] h = tt
insert_sorted-IsSorted n (m ∷ []) h = ground arith
insert_sorted-IsSorted n (m ∷ k ∷ l) h = ground (arith, insert_sorted-IsSorted n (k ∷ l) h.1)

sort-IsSorted : (l : List ℕ) → IsSorted (sort l)
unfolding sort
sort-IsSorted [] = tt
sort-IsSorted (n ∷ l) = insert_sorted-IsSorted n (sort l) (sort-IsSorted l)

abbrev Above : ℕ → List ℕ → Type 0
Above n [] = Unit
Above n (m ∷ l) = n < m

head-IsSorted : (n m : ℕ) (l : List ℕ) → IsSorted (n ∷ m ∷ l) → n ≤ m
head-IsSorted n m l h = h.0

tail-IsSorted : (n m : ℕ) (l : List ℕ) → IsSorted (n ∷ m ∷ l) → IsSorted (m ∷ l)
tail-IsSorted n m l h = h.1

cons-IsAscending : (n : ℕ) (l : List ℕ) → IsAscending l → Above n l → IsAscending (n ∷ l)
cons-IsAscending n [] h a = tt
cons-IsAscending n (m ∷ l) h a = (a, h)

Above-le : (n m : ℕ) (l : List ℕ) → n ≤ m → Above m l → Above n l
Above-le n m [] h a = tt
Above-le n m (k ∷ l) h a = omega arith

-- Behind `n`, the rest of a sorted list comes out ascending and above `n`.
dedup_after-IsAscending :
    (n : ℕ) (l : List ℕ)
    → IsSorted (n ∷ l)
    → IsAscending (dedup_after n l) × Above n (dedup_after n l)
unfolding dedup_after
dedup_after-IsAscending n [] h = (tt, tt)
dedup_after-IsAscending n (m ∷ l) h = elim (Bool-cases (n == m)) [
  | inl e ↦
      let (a, b) = dedup_after-IsAscending m l (tail-IsSorted n m l h) in
      rw e (a, Above-le n m (dedup_after m l) (head-IsSorted n m l h) b)
  | inr e ↦
      let (a, b) = dedup_after-IsAscending m l (tail-IsSorted n m l h) in
      rw e (cons-IsAscending m (dedup_after m l) a b, ground (arith, head-IsSorted n m l h))
]

-- The sub-signatures of a group come out strictly ascending.
pub dedup-sort-IsAscending : (l : List ℕ) → IsAscending (dedup (sort l))
unfolding dedup
dedup-sort-IsAscending l = go (sort l) (sort-IsSorted l)
  where
    go : (m : List ℕ) → IsSorted m → IsAscending (dedup m)
    go [] h = tt
    go (n ∷ m) h =
        let (a, b) = dedup_after-IsAscending n m h in cons-IsAscending n (dedup_after n m) a b

Among-insert_sorted : (k n : ℕ) (l : List ℕ) → Among k (insert_sorted n l) ↔ ((k ≡ n) ⊎ Among k l)
unfolding insert_sorted
Among-insert_sorted k n [] = (λ h. h, λ h. h)
Among-insert_sorted k n (m ∷ l) =
    let ih = Among-insert_sorted k n l in (λ h. ground (arith, ih.0), λ h. ground (arith, ih.1))

Among-sort : (k : ℕ) (l : List ℕ) → Among k (sort l) ↔ Among k l
unfolding sort
Among-sort k [] = (λ h. h, λ h. h)
Among-sort k (n ∷ l) =
    let ih = Among-sort k l in
    let step = Among-insert_sorted k n (sort l) in
    (λ h. ground (arith, ih.0, step.0 h), λ h. step.1 (ground (arith, ih.1)))

Among-dedup_after : (k n : ℕ) (l : List ℕ) → Among k (n ∷ dedup_after n l) ↔ Among k (n ∷ l)
unfolding dedup_after
Among-dedup_after k n [] = (λ h. h, λ h. h)
Among-dedup_after k n (m ∷ l) =
    let ih = Among-dedup_after k m l in (λ h. ground (arith, ih.0), λ h. ground (arith, ih.1))

-- A sub-signature is in the list that comes out exactly when it was in the one that went in.
pub Among-dedup-sort : (k : ℕ) (l : List ℕ) → Among k (dedup (sort l)) ↔ Among k l
unfolding dedup
Among-dedup-sort k l =
    let s = Among-sort k l in let d = go (sort l) in (λ h. s.0 (d.0 h), λ h. d.1 (s.1 h))
  where
    go : (m : List ℕ) → Among k (dedup m) ↔ Among k m
    go [] = (λ h. h, λ h. h)
    go (n ∷ m) = Among-dedup_after k n m

IsAscending-head : (n m : ℕ) (l : List ℕ) → IsAscending (n ∷ m ∷ l) → n < m
IsAscending-head n m l h = h.0

IsAscending-tail : (n m : ℕ) (l : List ℕ) → IsAscending (n ∷ m ∷ l) → IsAscending (m ∷ l)
IsAscending-tail n m l h = h.1

insert_sorted-first : (n : ℕ) (l : List ℕ) → IsAscending (n ∷ l) → insert_sorted n l ≡ n ∷ l
unfolding insert_sorted
insert_sorted-first n [] h = refl
insert_sorted-first n (m ∷ l) h = ground (arith, IsAscending-head n m l h)

sort_ascending : (l : List ℕ) → IsAscending l → sort l ≡ l
unfolding sort insert_sorted
sort_ascending [] h = refl
sort_ascending (n ∷ []) h = refl
sort_ascending (n ∷ m ∷ l) h =
    ap (insert_sorted n) (sort_ascending (m ∷ l) h.1) ∙ insert_sorted-first n (m ∷ l) h

dedup_after_ascending : (n : ℕ) (l : List ℕ) → IsAscending (n ∷ l) → dedup_after n l ≡ l
unfolding dedup_after
dedup_after_ascending n [] h = refl
dedup_after_ascending n (m ∷ l) h =
    ground (arith, IsAscending-head n m l h, dedup_after_ascending m l (IsAscending-tail n m l h))

-- A strictly ascending list is left as it is.
pub dedup-sort_ascending : (l : List ℕ) → IsAscending l → dedup (sort l) ≡ l
unfolding dedup
dedup-sort_ascending [] h = unfold sort in refl
dedup-sort_ascending (n ∷ l) h =
    ap dedup (sort_ascending (n ∷ l) h) ∙ ap (◌∷◌ n) (dedup_after_ascending n l h)
