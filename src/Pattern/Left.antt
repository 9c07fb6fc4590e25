-- ===== src/Pattern/Left.antt =====
-- Matching to the left, where the parts come last first: the mirror image of Pattern/Right.
use mathlib.Core.List.{reverse, reverse-cons}
use blackshard.Prelude.{
  ℕ, zero, suc, ◌+◌, ◌-◌, ◌≤◌, ◌<◌, max, ◌≡◌, sym, ap, subst, ◌∙◌, inl, inr, Bool, not, ◌||◌, List,
  [], ◌∷◌, none, some, ltb, ◌==◌, ==_iff, length, arith, Bool-cases,
}
use blackshard.Prelude.Bytes.{Bytes}
use blackshard.Pattern.{Part, bytes, gap}
use blackshard.Pattern.Verify.{
  Outcome, skip_left, match_left, bytes_match, slice, gap_limit, max_verify_steps,
  max_unbounded_gap,
}
use blackshard.Pattern.Matches.{
  Matches, RunAt, bytes_match-RunAt, RunAt-bytes_match, Matches-append, Matches-split,
}
use blackshard.Pattern.Right.{Outcome-cases, max-eq, weight, gap_limit-AtMost, AtMost-gap_limit}

module _ (next : ℕ → ℕ → Outcome) (grows : (p s : ℕ) → s ≤ (next p s).1) (end : ℕ) where
  skip_left-grows : (rounds skip steps : ℕ) → steps ≤ (skip_left next end rounds skip steps).1
  unfolding skip_left
  skip_left-grows zero skip steps = omega arith
  skip_left-grows (suc rounds) skip steps = ground (
    arith,
    grows (end - skip) (steps + 1),
    skip_left-grows rounds (skip + 1) (next (end - skip) (steps + 1)).1,
  )

  -- What the loop finds, the continuation found from a position before `end`.
  skip_left-found :
      (rounds skip steps v s : ℕ)
      → skip_left next end rounds skip steps ≡ (some v, s)
      → (n : ℕ) × (t : ℕ) × (skip ≤ n)
        × (n < skip + rounds)
        × (n ≤ end)
        × (next (end - n) t ≡ (some v, s))
  unfolding skip_left
  skip_left-found zero skip steps v s h = cc
  skip_left-found (suc rounds) skip steps v s h =
      let guard = ltb max_verify_steps (steps + 1) || ltb end skip in
      elim (Bool-cases guard) [
        | inl e ↦ cc (rw e at h)
        | inr e ↦ elim (Outcome-cases (next (end - skip) (steps + 1))) [
          | inl (t, k) ↦
              let rest : skip_left next end rounds (skip + 1) t ≡ (some v, s) = rw (e, k) at h in
              let (n, u, a, b, c, d) = skip_left-found rounds (skip + 1) t v s rest in
              (n, u, omega arith, omega arith, c, d)
          | inr (w, t, k) ↦
              (skip, steps + 1, omega arith, omega arith, ground arith, k ∙ rw (e, k) at h)
        ]
      ]

  -- What the loop misses within the budget, the continuation does not find.
  module _ (Good : ℕ → Type 0)
      (misses : (p s : ℕ) → (next p s).0 ≡ none → (next p s).1 ≤ max_verify_steps → ¬ Good p) where
    skip_left-missed :
        (rounds skip steps n : ℕ)
        → (skip_left next end rounds skip steps).0 ≡ none
        → (skip_left next end rounds skip steps).1 ≤ max_verify_steps
        → skip ≤ n
        → n < skip + rounds
        → n ≤ end
        → ¬ Good (end - n)
    unfolding skip_left
    skip_left-missed zero skip steps n h l a b c g = omega arith
    skip_left-missed (suc rounds) skip steps n h l a b c g =
        let guard = ltb max_verify_steps (steps + 1) || ltb end skip in
        elim (Bool-cases guard) [
          | inl e ↦ let spent : steps + 1 ≤ max_verify_steps = rw e at l in ground arith
          | inr e ↦ elim (Outcome-cases (next (end - skip) (steps + 1))) [
            | inl (t, k) ↦
                let more = skip_left next end rounds (skip + 1) t in
                let h' : more.0 ≡ none = rw (e, k) at h in
                let l' : more.1 ≤ max_verify_steps = rw (e, k) at l in
                elim (Bool-cases (n == skip)) [
                  | inl q ↦
                      misses (end - skip) (steps + 1) (ap (λ (r : Outcome). r.0) k)
                        (rw k (omega (arith, skip_left-grows rounds (skip + 1) t)))
                        (subst (λ m. Good (end - m)) ((==_iff n skip).0 q) g)
                  | inr q ↦
                      skip_left-missed rounds (skip + 1) t n h' l' (ground arith) (omega arith) c g
                ]
            | inr (v, t, k) ↦ cc (rw (e, k) at h)
          ]
        ]

  module _ (w : ℕ)
      (bounded : (p s : ℕ) → s ≤ max_verify_steps → (next p s).1 ≤ max_verify_steps + w) where
    skip_left-le :
        (rounds skip steps : ℕ)
        → (skip_left next end rounds skip steps).1 ≤ max (steps + 1) (max_verify_steps + suc w)
    unfolding skip_left
    skip_left-le zero skip steps = omega arith
    skip_left-le (suc rounds) skip steps = ground (
      arith,
      bounded (end - skip) (steps + 1),
      skip_left-le rounds (skip + 1) (next (end - skip) (steps + 1)).1,
    )

module _ (text : Bytes) (fold : Bool) where
  pub match_left-grows : (parts : List Part) (p s : ℕ) → s ≤ (match_left text fold parts p s).1
  unfolding match_left
  match_left-grows [] p s = omega arith
  match_left-grows (bytes run ∷ rest) p s =
      ground (arith, match_left-grows rest (p - length run) (s + length run))
  match_left-grows (gap least most ∷ rest) p s =
      skip_left-grows (match_left text fold rest) (match_left-grows rest) p
        (gap_limit most + 1 - least) least s

  -- The steps stay within the budget, but for the weight of the parts.
  pub match_left-le :
      (parts : List Part) (p s : ℕ)
      → (match_left text fold parts p s).1 ≤ max s max_verify_steps + weight parts
  unfolding match_left
  match_left-le [] p s = omega arith
  match_left-le (bytes run ∷ rest) p s =
      ground (arith, match_left-le rest (p - length run) (s + length run))
  match_left-le (gap least most ∷ rest) p s = omega (
    arith,
    skip_left-le (match_left text fold rest) (match_left-grows rest) p (weight rest)
        (λ r u h.
          subst (λ m. (match_left text fold rest r u).1 ≤ m + weight rest) (max-eq u h)
            (match_left-le rest r u))
        (gap_limit most + 1 - least) least s,
  )

  -- One more part at the end of what was matched.
  extend :
      (part : Part) (rest : List Part) (p m q : ℕ)
      → Matches text fold (reverse rest) p m
      → Matches text fold (part ∷ []) m q
      → Matches text fold (reverse (part ∷ rest)) p q
  extend part rest p m q h k =
      subst (λ parts. Matches text fold parts p q) (sym (reverse-cons part rest))
        (Matches-append text fold (reverse rest) (part ∷ []) p m q h k)

  split :
      (part : Part) (rest : List Part) (p q : ℕ)
      → Matches text fold (reverse (part ∷ rest)) p q
      → (m : ℕ) × Matches text fold (reverse rest) p m × Matches text fold (part ∷ []) m q
  split part rest p q h =
      Matches-split text fold (reverse rest) (part ∷ []) p q
        (subst (λ parts. Matches text fold parts p q) (reverse-cons part rest) h)

  pub match_left-Matches :
      (parts : List Part) (end s start t : ℕ)
      → end ≤ length text
      → match_left text fold parts end s ≡ (some start, t)
      → Matches text fold (reverse parts) start end
  unfolding match_left
  match_left-Matches [] end s start t z h = cc
  match_left-Matches (bytes run ∷ rest) end s start t z h =
      let guard =
        ltb end (length run)
        || ltb max_verify_steps (s + length run)
        || not (bytes_match run (slice text (end - length run) (length run)) fold) in
      elim (Bool-cases guard) [
        | inl e ↦ cc (rw e at h)
        | inr e ↦
            extend (bytes run) rest start (end - length run) end
              (match_left-Matches rest (end - length run) (s + length run) start t (omega arith)
                (rw e at h))
              (bytes_match-RunAt text fold run (end - length run) (ground arith), ground arith)
      ]
  match_left-Matches (gap least most ∷ rest) end s start t z h =
      let (n, u, a, b, c, d) =
        skip_left-found (match_left text fold rest) (match_left-grows rest) end
          (gap_limit most + 1 - least) least s start t h in
      extend (gap least most) rest start (end - n) end
        (match_left-Matches rest (end - n) u start t (omega arith) d)
        (n, a, gap_limit-AtMost n most text fold (omega arith), omega arith, omega arith)

  module _ (short : length text ≤ max_unbounded_gap) where
    pub match_left-missed :
        (parts : List Part) (end s start : ℕ)
        → end ≤ length text
        → (match_left text fold parts end s).0 ≡ none
        → (match_left text fold parts end s).1 ≤ max_verify_steps
        → ¬ (Matches text fold (reverse parts) start end)
    unfolding match_left
    match_left-missed [] end s start z h l m = cc
    match_left-missed (bytes run ∷ rest) end s start z h l m =
        let guard =
          ltb end (length run)
          || ltb max_verify_steps (s + length run)
          || not (bytes_match run (slice text (end - length run) (length run)) fold) in
        let (mid, before, (at, e)) = split (bytes run) rest start end m in
        let mid_eq : mid ≡ end - length run = omega arith in
        let at' = subst (RunAt text fold run) mid_eq at in
        elim (Bool-cases guard) [
          | inl e ↦
              let spent : s + length run ≤ max_verify_steps = rw e at l in
              ground (arith, RunAt-bytes_match text fold run (end - length run) at')
          | inr e ↦
              match_left-missed rest (end - length run) (s + length run) start (omega arith)
                (rw e at h) (rw e at l)
                (subst (Matches text fold (reverse rest) start) mid_eq before)
        ]
    match_left-missed (gap least most ∷ rest) end s start z h l m =
        let (mid, before, (n, a, b, c, e)) = split (gap least most) rest start end m in
        let mid_eq : mid ≡ end - n = omega arith in
        skip_left-missed (match_left text fold rest) (match_left-grows rest) end
          (λ r. (r ≤ length text) × Matches text fold (reverse rest) start r)
          (λ r u f g both. match_left-missed rest r u start both.0 f g both.1)
          (gap_limit most + 1 - least) least s n h l a
          (let k = AtMost-gap_limit n most text fold b (omega arith) in omega arith) (omega arith)
          (omega arith, subst (Matches text fold (reverse rest) start) mid_eq before)
