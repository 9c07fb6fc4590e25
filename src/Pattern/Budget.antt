-- ===== src/Pattern/Budget.antt =====
-- The counter of steps that the candidates of one scan share: how far `verify` takes it, and what
-- is left of the matching once it is spent.
use mathlib.Core.List.{reverse, reverse-cons, reverse-reverse}
use blackshard.Prelude.{
  ℕ, zero, suc, ◌+◌, ◌-◌, ◌≤◌, ◌<◌, max, ◌≡◌, refl, ap, ◌∙◌, ◌⊎◌, inl, inr, Bool, false, List, [],
  ◌∷◌, ◌++◌, none, some, get_elem?, length, take, drop, arith, Option-cases,
}
use blackshard.Prelude.Bytes.{Bytes}
use blackshard.Pattern.{Part, bytes, gap, Wanted, Signature, Context}
use blackshard.Pattern.Verify.{
  Outcome, match_left, match_right, skip_left, skip_right, judge_match, from_left, verify_around,
  verify, max_verify_steps, gap_limit,
}
use blackshard.Pattern.Right.{Outcome-cases, weight, match_right-le}
use blackshard.Pattern.Left.{match_left-le}

weight-append : (xs ys : List Part) → weight (xs ++ ys) ≡ weight xs + weight ys
weight-append [] ys = omega arith
weight-append (x ∷ xs) ys = omega (arith, weight-append xs ys)

weight-reverse : (xs : List Part) → weight (reverse xs) ≡ weight xs
weight-reverse [] = refl
weight-reverse (x ∷ xs) =
    ap weight (reverse-cons x xs)
    ∙ omega (arith, weight-append (reverse xs) (x ∷ []), weight-reverse xs)

weight-around : (n : ℕ) (xs : List Part) → weight (take n xs) + weight (drop (suc n) xs) ≤ weight xs
weight-around zero [] = omega arith
weight-around (suc n) [] = omega arith
weight-around zero (x ∷ xs) = omega arith
weight-around (suc n) (x ∷ xs) = omega (arith, weight-around n xs)

module _ (s : Signature) (c : Context) where
  judge_steps : (start : ℕ) (r : Outcome) → (judge_match s c start r).1 ≡ r.1
  judge_steps start (none, t) = refl
  judge_steps start (some end, t) = refl

  from_left-le :
      (after : List Part) (part_end : ℕ) (r : Outcome)
      → (from_left s c after part_end r).1 ≤ max r.1 max_verify_steps + weight after
  from_left-le after part_end (none, t) = omega arith
  from_left-le after part_end (some start, t) = omega (
    arith,
    judge_steps start (match_right c.text s.fold after part_end t),
    match_right-le c.text s.fold after part_end t,
  )

  around-le :
      (run : List Wanted) (anchor_at steps : ℕ)
      → (verify_around s c run anchor_at steps).1 ≤ max steps max_verify_steps + weight s.parts
  unfolding verify_around
  around-le run anchor_at steps =
      let part_start = anchor_at - s.anchor_start in
      let before = reverse (take s.anchor_part s.parts) in
      ground (
        arith,
        weight-around s.anchor_part s.parts,
        weight-reverse (take s.anchor_part s.parts),
        match_left-le c.text s.fold before part_start steps,
        from_left-le (drop (s.anchor_part + 1) s.parts) (part_start + length run)
            (match_left c.text s.fold before part_start steps),
      )

  -- One candidate takes the counter past the budget by no more than the bytes and the gaps of its
  -- signature.
  pub verify-le :
      (anchor_at steps : ℕ)
      → (verify s c anchor_at steps).1 ≤ max steps max_verify_steps + weight s.parts
  unfolding verify
  verify-le anchor_at steps = elim (Option-cases (get_elem? s.parts s.anchor_part)) [
    | inl e ↦ rw (e, verify) (omega arith)
    | inr (gap least most, e) ↦ rw (e, verify) (omega arith)
    | inr (bytes run, e) ↦ rw (e, verify) (around-le run anchor_at steps)
  ]

-- With no parts before the anchor's and more than one in all, there is one after it.
after_first :
    (n : ℕ) (xs : List Part)
    → reverse (take n xs) ≡ []
    → 1 < length xs
    → (y : Part) × (ys : List Part) × (drop (n + 1) xs ≡ y ∷ ys)
after_first n [] e h = absurd (omega arith)
after_first n (x ∷ []) e h = absurd (omega arith)
after_first zero (x ∷ y ∷ ys) e h = (y, ys, refl)
after_first (suc n) (x ∷ y ∷ ys) e h = cc (reverse-reverse (x ∷ take n (y ∷ ys)))

module _ (steps : ℕ) (spent : max_verify_steps < steps) where
  skip_right-spent :
      (next : ℕ → ℕ → Outcome) (len position rounds skip : ℕ)
      → (skip_right next len position rounds skip steps).0 ≡ none
  unfolding skip_right
  skip_right-spent next len position zero skip = refl
  skip_right-spent next len position (suc rounds) skip = ground arith

  skip_left-spent :
      (next : ℕ → ℕ → Outcome) (end rounds skip : ℕ)
      → (skip_left next end rounds skip steps).0 ≡ none
  unfolding skip_left
  skip_left-spent next end zero skip = refl
  skip_left-spent next end (suc rounds) skip = ground arith

  match_right-spent :
      (text : Bytes) (fold : Bool) (part : Part) (parts : List Part) (position : ℕ)
      → (match_right text fold (part ∷ parts) position steps).0 ≡ none
  unfolding match_right
  match_right-spent text fold (bytes run) parts position = ground arith
  match_right-spent text fold (gap least most) parts position =
      skip_right-spent (match_right text fold parts) (length text) position
        (gap_limit most + 1 - least) least

  match_left-spent :
      (text : Bytes) (fold : Bool) (parts : List Part) (end : ℕ)
      → (parts ≡ []) ⊎ ((match_left text fold parts end steps).0 ≡ none)
  unfolding match_left
  match_left-spent text fold [] end = inl refl
  match_left-spent text fold (bytes run ∷ parts) end = inr (ground arith)
  match_left-spent text fold (gap least most ∷ parts) end =
      inr (skip_left-spent (match_left text fold parts) end (gap_limit most + 1 - least) least)

  from_left-spent :
      (s : Signature) (c : Context) (part : Part) (parts : List Part) (part_end start : ℕ)
      → (from_left s c (part ∷ parts) part_end (some start, steps)).0 ≡ false
  from_left-spent s c part parts part_end start =
      elim (Outcome-cases (match_right c.text s.fold (part ∷ parts) part_end steps)) [
        | inl (t, k) ↦ rw k refl
        | inr (q, t, k) ↦
            let e = match_right-spent c.text s.fold part parts part_end in cc (rw k at e)
      ]

  from_left-none :
      (s : Signature) (c : Context) (after : List Part) (part_end : ℕ) (r : Outcome)
      → r.0 ≡ none
      → (from_left s c after part_end r).0 ≡ false
  from_left-none s c after part_end (none, t) h = refl
  from_left-none s c after part_end (some start, t) h = cc

  around-spent :
      (s : Signature) (c : Context) (run : List Wanted) (anchor_at : ℕ)
      → 1 < length s.parts
      → (verify_around s c run anchor_at steps).0 ≡ false
  unfolding verify_around match_left
  around-spent s c run anchor_at h =
      let part_start = anchor_at - s.anchor_start in
      let part_end = part_start + length run in
      let before = reverse (take s.anchor_part s.parts) in
      let after = drop (s.anchor_part + 1) s.parts in
      let left = match_left c.text s.fold before part_start steps in
      let nothing : (from_left s c after part_end left).0 ≡ false =
        elim (match_left-spent c.text s.fold before part_start) [
          | inl e ↦
              let (part, parts, k) = after_first s.anchor_part s.parts e h in
              rw (e, match_left, k) (from_left-spent s c part parts part_end part_start)
          | inr e ↦ from_left-none s c after part_end left e
        ] in
      ground (arith, nothing)

  -- Once the budget is spent, no signature of more than one part is found any more, whatever the
  -- text is.
  pub verify-spent :
      (s : Signature) (c : Context) (anchor_at : ℕ)
      → 1 < length s.parts
      → (verify s c anchor_at steps).0 ≡ false
  unfolding verify
  verify-spent s c anchor_at h = elim (Option-cases (get_elem? s.parts s.anchor_part)) [
    | inl e ↦ rw (e, verify) refl
    | inr (gap least most, e) ↦ rw (e, verify) refl
    | inr (bytes run, e) ↦ rw (e, verify) (around-spent s c run anchor_at h)
  ]
