-- ===== src/Pattern/Right.antt =====
-- Matching to the right: what `match_right` finds lies in the text, what it misses within its
-- budget is not there, and the steps it takes are bounded.
use blackshard.Prelude.{
  ℕ, zero, suc, ◌+◌, ◌-◌, ◌≤◌, ◌<◌, max, ◌≡◌, refl, ap, subst, ◌⊎◌, inl, inr, Bool, not, ◌||◌, List,
  [], ◌∷◌, Option, none, some, ltb, length, arith, Bool-cases, ◌∙◌, ◌==◌, ==_iff,
}
use blackshard.Prelude.Bytes.{Bytes}
use blackshard.Pattern.{Part, bytes, gap}
use blackshard.Pattern.Verify.{
  Outcome, skip_right, match_right, bytes_match, slice, gap_limit, max_verify_steps,
  max_unbounded_gap,
}
use blackshard.Pattern.Matches.{Matches, AtMost, bytes_match-RunAt, RunAt-bytes_match, RunAt-le}

pub Outcome-cases :
    (r : Outcome) → ((s : ℕ) × (r ≡ (none, s))) ⊎ ((v : ℕ) × (s : ℕ) × (r ≡ (some v, s)))
Outcome-cases (none, s) = inl (s, refl)
Outcome-cases (some v, s) = inr (v, s, refl)

pub max-eq : (u : ℕ) → u ≤ max_verify_steps → max u max_verify_steps ≡ max_verify_steps
max-eq u h = omega arith

-- The most that one part adds to the steps at once.
abbrev pub part_weight : Part → ℕ
part_weight (bytes run) = length run
part_weight (gap _ _) = 1

abbrev pub weight : List Part → ℕ
weight [] = 0
weight (part ∷ parts) = part_weight part + weight parts

pub gap_limit-AtMost :
    (n : ℕ) (most : Option ℕ) (text : Bytes) (fold : Bool)
    → n ≤ gap_limit most
    → AtMost text fold n most
gap_limit-AtMost n none text fold h = tt
gap_limit-AtMost n (some most) text fold h = omega arith

pub AtMost-gap_limit :
    (n : ℕ) (most : Option ℕ) (text : Bytes) (fold : Bool)
    → AtMost text fold n most
    → n ≤ max_unbounded_gap
    → n ≤ gap_limit most
AtMost-gap_limit n none text fold h k = k
AtMost-gap_limit n (some most) text fold h k = omega arith

-- The loop over the lengths of a gap, for any continuation that never takes steps back.
module _ (next : ℕ → ℕ → Outcome) (grows : (p s : ℕ) → s ≤ (next p s).1) (len position : ℕ) where
  skip_right-grows :
      (rounds skip steps : ℕ) → steps ≤ (skip_right next len position rounds skip steps).1
  unfolding skip_right
  skip_right-grows zero skip steps = omega arith
  skip_right-grows (suc rounds) skip steps = ground (
    arith,
    grows (position + skip) (steps + 1),
    skip_right-grows rounds (skip + 1) (next (position + skip) (steps + 1)).1,
  )

  -- What the loop finds, the continuation found from a position that the text reaches.
  skip_right-found :
      (rounds skip steps v s : ℕ)
      → skip_right next len position rounds skip steps ≡ (some v, s)
      → (n : ℕ) × (t : ℕ) × (skip ≤ n)
        × (n < skip + rounds)
        × (position + n ≤ len)
        × (next (position + n) t ≡ (some v, s))
  unfolding skip_right
  skip_right-found zero skip steps v s h = cc
  skip_right-found (suc rounds) skip steps v s h =
      let guard = ltb max_verify_steps (steps + 1) || ltb len (position + skip) in
      elim (Bool-cases guard) [
        | inl e ↦ cc (rw e at h)
        | inr e ↦ elim (Outcome-cases (next (position + skip) (steps + 1))) [
          | inl (t, k) ↦
              let rest : skip_right next len position rounds (skip + 1) t ≡ (some v, s) =
                rw (e, k) at h in
              let (n, u, a, b, c, d) = skip_right-found rounds (skip + 1) t v s rest in
              (n, u, omega arith, omega arith, c, d)
          | inr (w, t, k) ↦
              (skip, steps + 1, omega arith, omega arith, ground arith, k ∙ rw (e, k) at h)
        ]
      ]

  -- What the loop misses within the budget, the continuation does not find from any position of
  -- the text that the loop reaches, when the continuation itself misses nothing.
  module _ (Good : ℕ → Type 0)
      (misses : (p s : ℕ) → (next p s).0 ≡ none → (next p s).1 ≤ max_verify_steps → ¬ Good p) where
    skip_right-missed :
        (rounds skip steps n : ℕ)
        → (skip_right next len position rounds skip steps).0 ≡ none
        → (skip_right next len position rounds skip steps).1 ≤ max_verify_steps
        → skip ≤ n
        → n < skip + rounds
        → position + n ≤ len
        → ¬ Good (position + n)
    unfolding skip_right
    skip_right-missed zero skip steps n h l a b c g = omega arith
    skip_right-missed (suc rounds) skip steps n h l a b c g =
        let guard = ltb max_verify_steps (steps + 1) || ltb len (position + skip) in
        elim (Bool-cases guard) [
          | inl e ↦ let spent : steps + 1 ≤ max_verify_steps = rw e at l in ground arith
          | inr e ↦ elim (Outcome-cases (next (position + skip) (steps + 1))) [
            | inl (t, k) ↦
                let more = skip_right next len position rounds (skip + 1) t in
                let h' : more.0 ≡ none = rw (e, k) at h in
                let l' : more.1 ≤ max_verify_steps = rw (e, k) at l in
                elim (Bool-cases (n == skip)) [
                  | inl q ↦
                      misses (position + skip) (steps + 1) (ap (λ (r : Outcome). r.0) k)
                        (rw k (omega (arith, skip_right-grows rounds (skip + 1) t)))
                        (subst (λ m. Good (position + m)) ((==_iff n skip).0 q) g)
                  | inr q ↦
                      skip_right-missed rounds (skip + 1) t n h' l' (ground arith) (omega arith) c g
                ]
            | inr (v, t, k) ↦ cc (rw (e, k) at h)
          ]
        ]

  -- The budget is exceeded by no more than the continuation exceeds it, or by one step.
  module _ (w : ℕ)
      (bounded : (p s : ℕ) → s ≤ max_verify_steps → (next p s).1 ≤ max_verify_steps + w) where
    skip_right-le :
        (rounds skip steps : ℕ)
        → (skip_right next len position rounds skip steps).1
          ≤ max (steps + 1) (max_verify_steps + suc w)
    unfolding skip_right
    skip_right-le zero skip steps = omega arith
    skip_right-le (suc rounds) skip steps = ground (
      arith,
      bounded (position + skip) (steps + 1),
      skip_right-le rounds (skip + 1) (next (position + skip) (steps + 1)).1,
    )

module _ (text : Bytes) (fold : Bool) where
  pub match_right-grows : (parts : List Part) (p s : ℕ) → s ≤ (match_right text fold parts p s).1
  unfolding match_right
  match_right-grows [] p s = omega arith
  match_right-grows (bytes run ∷ rest) p s =
      ground (arith, match_right-grows rest (p + length run) (s + length run))
  match_right-grows (gap least most ∷ rest) p s =
      skip_right-grows (match_right text fold rest) (match_right-grows rest) (length text) p
        (gap_limit most + 1 - least) least s

  -- The steps stay within the budget, but for the weight of the parts.
  pub match_right-le :
      (parts : List Part) (p s : ℕ)
      → (match_right text fold parts p s).1 ≤ max s max_verify_steps + weight parts
  unfolding match_right
  match_right-le [] p s = omega arith
  match_right-le (bytes run ∷ rest) p s =
      ground (arith, match_right-le rest (p + length run) (s + length run))
  match_right-le (gap least most ∷ rest) p s = omega (
    arith,
    skip_right-le (match_right text fold rest) (match_right-grows rest) (length text) p
        (weight rest)
        (λ r u h.
          subst (λ m. (match_right text fold rest r u).1 ≤ m + weight rest) (max-eq u h)
            (match_right-le rest r u))
        (gap_limit most + 1 - least) least s,
  )

  pub match_right-Matches :
      (parts : List Part) (p s q t : ℕ)
      → match_right text fold parts p s ≡ (some q, t)
      → Matches text fold parts p q
  unfolding match_right
  match_right-Matches [] p s q t h = cc
  match_right-Matches (bytes run ∷ rest) p s q t h =
      let guard =
        ltb max_verify_steps (s + length run)
        || ltb (length text) (p + length run)
        || not (bytes_match run (slice text p (length run)) fold) in
      elim (Bool-cases guard) [
        | inl e ↦ cc (rw e at h)
        | inr e ↦ (
          bytes_match-RunAt text fold run p (ground arith),
          match_right-Matches rest (p + length run) (s + length run) q t (rw e at h),
        )
      ]
  match_right-Matches (gap least most ∷ rest) p s q t h =
      let (n, u, a, b, c, d) =
        skip_right-found (match_right text fold rest) (match_right-grows rest) (length text) p
          (gap_limit most + 1 - least) least s q t h in
      (
        n,
        a,
        gap_limit-AtMost n most text fold (omega arith),
        c,
        match_right-Matches rest (p + n) u q t d,
      )

  -- A text longer than the longest gap that is followed is not judged.
  module _ (short : length text ≤ max_unbounded_gap) where
    pub match_right-missed :
        (parts : List Part) (p s q : ℕ)
        → p ≤ length text
        → (match_right text fold parts p s).0 ≡ none
        → (match_right text fold parts p s).1 ≤ max_verify_steps
        → ¬ Matches text fold parts p q
    unfolding match_right
    match_right-missed [] p s q z h l m = cc
    match_right-missed (bytes run ∷ rest) p s q z h l (a, m) =
        let guard =
          ltb max_verify_steps (s + length run)
          || ltb (length text) (p + length run)
          || not (bytes_match run (slice text p (length run)) fold) in
        elim (Bool-cases guard) [
          | inl e ↦
              let spent : s + length run ≤ max_verify_steps = rw e at l in
              ground (arith, RunAt-le text fold run p z a, RunAt-bytes_match text fold run p a)
          | inr e ↦
              match_right-missed rest (p + length run) (s + length run) q
                (RunAt-le text fold run p z a) (rw e at h) (rw e at l) m
        ]
    match_right-missed (gap least most ∷ rest) p s q z h l (n, a, b, c, m) =
        skip_right-missed (match_right text fold rest) (match_right-grows rest) (length text) p
          (λ r. (r ≤ length text) × Matches text fold rest r q)
          (λ r u f g both. match_right-missed rest r u q both.0 f g both.1)
          (gap_limit most + 1 - least) least s n h l a
          (let k = AtMost-gap_limit n most text fold b (omega arith) in omega arith) c (c, m)
