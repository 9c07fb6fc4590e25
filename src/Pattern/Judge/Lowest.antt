-- ===== src/Pattern/Judge/Lowest.antt =====
-- The candidate that is reported does not depend on the order of the candidates.
use blackshard.Prelude.{
  ℕ, ◌≤◌, ◌≡◌, refl, sym, ap, ◌∙◌, subst, ◌⊎◌, inl, inr, Bool, true, false, ◌||◌, List, [], ◌∷◌,
  ◌++◌, Option, none, some, ltb, if◌then◌else◌, append_assoc, append_nil, arith, Bool-cases,
}
use blackshard.Pattern.Anchor.{elem}
use blackshard.Pattern.Judge.{lowest, is_below}

pub elem-append : (c : ℕ) (xs ys : List ℕ) → elem c (xs ++ ys) ≡ (elem c xs || elem c ys)
unfolding elem
elem-append c [] ys = refl
elem-append c (x ∷ xs) ys = ground (arith, elem-append c xs ys)

pub elem-snoc :
    (xs : List ℕ) (c d : ℕ) → elem d (xs ++ (c ∷ [])) ≡ true → (elem d xs ≡ true) ⊎ (d ≡ c)
unfolding elem
elem-snoc xs c d h = elim (Bool-cases (elem d xs)) [
  | inl e ↦ inl e
  | inr e ↦ inr (ground (arith, elem-append d xs (c ∷ [])))
]

pub elem-snoc_self : (xs : List ℕ) (c : ℕ) → elem c (xs ++ (c ∷ [])) ≡ true
unfolding elem
elem-snoc_self xs c = ground (arith, elem-append c xs (c ∷ []))

pub elem-snoc_old : (xs : List ℕ) (c d : ℕ) → elem d xs ≡ true → elem d (xs ++ (c ∷ [])) ≡ true
unfolding elem
elem-snoc_old xs c d h = ground (arith, elem-append d xs (c ∷ []))

module _ (holds : ℕ → Bool) where
  -- Among the candidates that hold, the lowest one; none if none holds.
  abbrev pub IsLowest : List ℕ → Option ℕ → Type 0
  IsLowest candidates none = (c : ℕ) → elem c candidates ≡ true → holds c ≡ false
  IsLowest candidates (some k) =
      (elem k candidates ≡ true)
      × (holds k ≡ true)
      × ((c : ℕ) → elem c candidates ≡ true → holds c ≡ true → k ≤ c)

  abbrev step : ℕ → Option ℕ → Option ℕ
  step candidate found =
      if is_below found candidate then found else if holds candidate then some candidate else found

  step-IsLowest :
      (seen : List ℕ) (c : ℕ) (found : Option ℕ)
      → IsLowest seen found
      → IsLowest (seen ++ (c ∷ [])) (step c found)
  step-IsLowest seen c none h = elim (Bool-cases (holds c)) [
    | inl yes_c ↦ rw yes_c (
      elem-snoc_self seen c,
      yes_c,
      λ d m k. elim (elem-snoc seen c d m) [
        | inl old ↦ let e = h d old in cc
        | inr e ↦ omega arith
      ],
    )
    | inr no_c ↦
        rw no_c
          (λ d m. elim (elem-snoc seen c d m) [ inl old ↦ h d old | inr e ↦ ap holds e ∙ no_c ])
  ]
  step-IsLowest seen c (some k) h = elim (Bool-cases (ltb k c)) [
    | inl lower ↦ rw lower (
      elem-snoc_old seen c k h.0,
      h.1,
      λ d m n. elim (elem-snoc seen c d m) [ inl old ↦ h.2 d old n | inr e ↦ ground arith ],
    )
    | inr not_lower ↦ elim (Bool-cases (holds c)) [
      | inl yes_c ↦
          rw (not_lower, yes_c)
            (
              elem-snoc_self seen c,
              yes_c,
              λ d m n. elim (elem-snoc seen c d m) [
                | inl old ↦ ground (arith, h.2 d old n)
                | inr e ↦ omega arith
              ],
            )
      | inr no_c ↦
          rw (not_lower, no_c)
            (
              elem-snoc_old seen c k h.0,
              h.1,
              λ d m n. elim (elem-snoc seen c d m) [
                | inl old ↦ h.2 d old n
                | inr e ↦ let f = ap holds e in cc
              ],
            )
    ]
  ]

  lowest_from :
      (seen candidates : List ℕ) (found : Option ℕ)
      → IsLowest seen found
      → IsLowest (seen ++ candidates) (lowest holds candidates found)
  unfolding lowest
  lowest_from seen [] found h = subst (λ cs. IsLowest cs found) (sym (append_nil seen)) h
  lowest_from seen (c ∷ candidates) found h =
      subst (λ cs. IsLowest cs (lowest holds candidates (step c found)))
        (append_assoc seen (c ∷ []) candidates)
        (lowest_from (seen ++ (c ∷ [])) candidates (step c found) (step-IsLowest seen c found h))

  pub lowest-IsLowest : (candidates : List ℕ) → IsLowest candidates (lowest holds candidates none)
  unfolding elem
  lowest-IsLowest candidates = lowest_from [] candidates none (λ c m. cc)

  unique :
      (cs ds : List ℕ) (a b : Option ℕ)
      → ((c : ℕ) → elem c cs ≡ elem c ds)
      → IsLowest cs a
      → IsLowest ds b
      → a ≡ b
  unique cs ds none none same p q = refl
  unique cs ds none (some k) same p q = let e = p k (same k ∙ q.0) in let f = q.1 in cc
  unique cs ds (some j) none same p q = let e = q j (sym (same j) ∙ p.0) in let f = p.1 in cc
  unique cs ds (some j) (some k) same p q =
      let e : j ≤ k = p.2 k (same k ∙ q.0) q.1 in
      let f : k ≤ j = q.2 j (sym (same j) ∙ p.0) p.1 in let g : j ≡ k = omega arith in ap some g

  -- Candidates in another order, or some of them twice, give the same result.
  pub lowest_order :
      (cs ds : List ℕ)
      → ((c : ℕ) → elem c cs ≡ elem c ds)
      → lowest holds cs none ≡ lowest holds ds none
  lowest_order cs ds same = unique cs ds _ _ same (lowest-IsLowest cs) (lowest-IsLowest ds)
