-- ===== src/Similarity/Matches.antt =====
-- What the matches of a scan of src/similarity.rs say.
use blackshard.Prelude.{
  ℕ, zero, suc, ◌≤◌, ◌≡◌, ◌⊎◌, subst, inl, inr, false, ◌&&◌, List, [], ◌∷◌, some, leb, length, take,
  length-take, All, All-map, arith, Bool-cases, Option-cases, if_split,
}
use mathlib.Core.Option.{some-injective}
use blackshard.Prelude.Bytes.{Bytes}
use blackshard.Similarity.{
  max_visible_matches, SimilarityProfile, SimilarityMatch, is_invalid, new, score_profile, scored,
  candidates, insert_match, sort_matches, scan, is_empty, compute_sketch,
}

abbrev pub Exists {ℓ} : {A : Type ℓ} → (A → Type 0) → List A → Type 0
Exists P [] = ⊥
Exists P (x ∷ xs) = P x ⊎ Exists P xs

Exists-map :
    {A : Type 0} (P Q : A → Type 0)
    → ((x : A) → P x → Q x)
    → (xs : List A) → Exists P xs
    → Exists Q xs
Exists-map P Q f [] h = h
Exists-map P Q f (x ∷ xs) (inl h) = inl (f x h)
Exists-map P Q f (x ∷ xs) (inr h) = inr (Exists-map P Q f xs h)

-- The match names the profile and reaches its threshold.
abbrev pub Names : SimilarityMatch → SimilarityProfile → Type 0
Names m p =
    (m.identifier ≡ p.identifier)
    × (m.threat_name ≡ p.threat_name)
    × (p.minimum_similarity_basis_points ≤ m.similarity_basis_points)

abbrev pub IsInRange : ℕ → SimilarityProfile → Type 0
IsInRange size p = (p.minimum_file_size ≤ size) × (size ≤ p.maximum_file_size)

score_profile-Names :
    (sketch : List ℕ) (p : SimilarityProfile) (m : SimilarityMatch)
    → score_profile sketch p ≡ some m
    → Names m p
unfolding score_profile
score_profile-Names sketch p m h = ground (arith, h)

scored-Names :
    (sketch : List ℕ) (profiles : List SimilarityProfile)
    → All (λ m. Exists (Names m) profiles) (scored sketch profiles)
unfolding scored
scored-Names sketch [] = tt
scored-Names sketch (p ∷ profiles) =
    let rest =
      All-map _ (λ m. Exists (Names m) (p ∷ profiles)) (λ m h. inr h) _
        (scored-Names sketch profiles) in
    elim (Option-cases (score_profile sketch p)) [
      | inl e ↦ rw (e, scored) rest
      | inr (m, e) ↦ rw (e, scored) (inl (score_profile-Names sketch p m e), rest)
    ]

candidates-IsInRange :
    (size : ℕ) (P : SimilarityProfile → Type 0) (profiles : List SimilarityProfile)
    → Exists P (candidates size profiles)
    → Exists (λ p. P p × IsInRange size p) profiles
unfolding candidates
candidates-IsInRange size P [] = λ h. h
candidates-IsInRange size P (p ∷ profiles) =
    elim (Bool-cases (leb p.minimum_file_size size && leb size p.maximum_file_size)) [
      | inl e ↦
          rw (e, Exists)
            (λ h. elim h [
              | inl q ↦ inl (q, ground (arith, e))
              | inr q ↦ inr (candidates-IsInRange size P profiles q)
            ])
      | inr e ↦ rw (e, Exists) (λ h. inr (candidates-IsInRange size P profiles h))
    ]

abbrev pub IsDescending : List SimilarityMatch → Type 0
IsDescending [] = Unit
IsDescending (m ∷ l) =
    All (λ n. n.similarity_basis_points ≤ m.similarity_basis_points) l × IsDescending l

insert_match-All :
    (P : SimilarityMatch → Type 0) (m : SimilarityMatch) (l : List SimilarityMatch)
    → P m
    → All P l
    → All P (insert_match m l)
unfolding insert_match
insert_match-All P m [] p h = (p, tt)
insert_match-All P m (n ∷ l) p h =
    if_split (All P) (leb n.similarity_basis_points m.similarity_basis_points) {x = m ∷ n ∷ l}
      {y = n ∷ insert_match m l} (p, h) (h.0, insert_match-All P m l p h.1)

sort_matches-All :
    (P : SimilarityMatch → Type 0) (l : List SimilarityMatch) → All P l → All P (sort_matches l)
unfolding sort_matches
sort_matches-All P [] h = tt
sort_matches-All P (m ∷ l) h = insert_match-All P m _ h.0 (sort_matches-All P l h.1)

insert_match-IsDescending :
    (m : SimilarityMatch) (l : List SimilarityMatch)
    → IsDescending l
    → IsDescending (insert_match m l)
unfolding insert_match
insert_match-IsDescending m [] h = (tt, tt)
insert_match-IsDescending m (n ∷ l) h =
    elim (Bool-cases (leb n.similarity_basis_points m.similarity_basis_points)) [
      | inl e ↦
          let le : n.similarity_basis_points ≤ m.similarity_basis_points = ground (arith, e) in
          rw e ((le, All-map _ _ (λ o q. omega (arith, q, le)) l h.0), h)
      | inr e ↦ rw e (
        insert_match-All (λ o. o.similarity_basis_points ≤ n.similarity_basis_points) m l
            (ground (arith, e)) h.0,
        insert_match-IsDescending m l h.1,
      )
    ]

sort_matches-IsDescending : (l : List SimilarityMatch) → IsDescending (sort_matches l)
unfolding sort_matches
sort_matches-IsDescending [] = tt
sort_matches-IsDescending (m ∷ l) =
    insert_match-IsDescending m (sort_matches l) (sort_matches-IsDescending l)

take-All : {A : Type 0} (P : A → Type 0) (n : ℕ) (l : List A) → All P l → All P (take n l)
take-All P zero l h = tt
take-All P (suc n) [] h = tt
take-All P (suc n) (x ∷ l) h = (h.0, take-All P n l h.1)

take-IsDescending : (n : ℕ) (l : List SimilarityMatch) → IsDescending l → IsDescending (take n l)
take-IsDescending zero l h = tt
take-IsDescending (suc n) [] h = tt
take-IsDescending (suc n) (m ∷ l) h = (take-All _ n l h.0, take-IsDescending n l h.1)

new-AreValid :
    (profiles engine : List SimilarityProfile)
    → new profiles ≡ some engine
    → All (λ p. is_invalid p ≡ false) engine
unfolding new
new-AreValid [] engine h = subst (All _) (some-injective _ _ h) tt
new-AreValid (p ∷ profiles) engine h = elim (Bool-cases (is_invalid p)) [
  | inl e ↦ absurd (ground (arith, e, h))
  | inr e ↦ elim (Option-cases (new profiles)) [
    | inl f ↦ absurd (ground (arith, e, f, h))
    | inr (rest, f) ↦
        let g : p ∷ rest ≡ engine = ground (arith, e, f, h) in
        subst (All _) g (e, new-AreValid profiles rest f)
  ]
]

valid-strict :
    (p : SimilarityProfile) → is_invalid p ≡ false → 8_500 ≤ p.minimum_similarity_basis_points
unfolding is_invalid
valid-strict p h = ground (arith, h)

Exists-All :
    {A : Type 0} (P Q : A → Type 0) (R : Type 0) (xs : List A)
    → ((x : A) → P x → Q x → R)
    → All P xs
    → Exists Q xs
    → R
Exists-All P Q R [] f a h = absurd h
Exists-All P Q R (x ∷ xs) f a (inl h) = f x a.0 h
Exists-All P Q R (x ∷ xs) f a (inr h) = Exists-All P Q R xs f a.1 h

-- What a match of a scan may be.
abbrev pub IsFound : List SimilarityProfile → ℕ → SimilarityMatch → Type 0
IsFound engine size m =
    Exists (λ p. Names m p × IsInRange size p) engine × (8_500 ≤ m.similarity_basis_points)

abbrev AreFound : List SimilarityProfile → ℕ → List SimilarityMatch → Type 0
AreFound engine size l =
    (length l ≤ max_visible_matches) × IsDescending l × All (IsFound engine size) l

ranked-AreFound :
    (engine : List SimilarityProfile) (size : ℕ) (sketch : List ℕ)
    → All (λ p. is_invalid p ≡ false) engine
    → AreFound engine size
        (take max_visible_matches (sort_matches (scored sketch (candidates size engine))))
ranked-AreFound engine size sketch v =
    let found = scored sketch (candidates size engine) in
    (
      omega (arith, length-take max_visible_matches (sort_matches found)),
      take-IsDescending max_visible_matches _ (sort_matches-IsDescending found),
      take-All (IsFound engine size) max_visible_matches _ (
          sort_matches-All (IsFound engine size) found (
            All-map _ (IsFound engine size)
              (λ m h.
                let named = candidates-IsInRange size (Names m) engine h in
                (
                  named,
                  Exists-All (λ p. is_invalid p ≡ false) (λ p. Names m p × IsInRange size p)
                      (8_500 ≤ m.similarity_basis_points) engine
                      (λ p i n. omega (arith, valid-strict p i, n.0)) v named,
                ))
              found (scored-Names sketch (candidates size engine)))),
    )

-- The matches of a scan, for an engine whose profiles `new` accepted, are at most eight, the best
-- first; each names a profile of the engine, has its file's size within the bounds of the profile
-- and its score at or above the profile's threshold and 8,500.
pub scan-AreFound :
    (profiles engine : List SimilarityProfile) (bytes : Bytes) (size : ℕ)
    → new profiles ≡ some engine
    → (length (scan engine bytes size) ≤ max_visible_matches)
      × IsDescending (scan engine bytes size)
      × All (IsFound engine size) (scan engine bytes size)
unfolding scan
scan-AreFound profiles engine bytes size h =
    if_split (AreFound engine size) _ {x = []} (omega arith, tt, tt)
      (if_split (AreFound engine size) (is_empty (candidates size engine)) {x = []}
        (omega arith, tt, tt)
        (elim (Option-cases (compute_sketch bytes)) [
          | inl e ↦ rw e (omega arith, tt, tt)
          | inr (sketch, e) ↦
              rw e (ranked-AreFound engine size sketch (new-AreValid profiles engine h))
        ]))
