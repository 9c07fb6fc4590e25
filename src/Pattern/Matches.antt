-- ===== src/Pattern/Matches.antt =====
-- What it means that the parts of a signature lie in a text from one position to another: each run
-- byte by byte, each gap by its length. Nothing here is computed by a search.
use blackshard.Prelude.{
  ℕ, suc, ◌+◌, ◌≤◌, ◌≡◌, refl, sym, subst, inl, inr, Bool, true, List, [], ◌∷◌, ◌++◌, Option, none,
  some, get_elem?, length, arith, Option-cases, &&-eq-true, drop-past_end, drop-at, get_elem?-lt,
}
use blackshard.Prelude.Bytes.{Bytes}
use blackshard.Pattern.{Part, bytes, gap, Wanted}
use blackshard.Pattern.Verify.{byte_matches, bytes_match, slice}

module _ (text : Bytes) (fold : Bool) where
  -- The run is in the text at the position.
  abbrev pub RunAt : List Wanted → ℕ → Type 0
  RunAt [] p = Unit {0}
  RunAt (w ∷ run) p =
      (c : ℕ) × (get_elem? text p ≡ some c) × (byte_matches fold w c ≡ true) × RunAt run (suc p)

  abbrev pub AtMost : ℕ → Option ℕ → Type 0
  AtMost n none = Unit {0}
  AtMost n (some most) = n ≤ most

  -- The parts lie in the text from the one position to the other.
  abbrev pub Matches : List Part → ℕ → ℕ → Type 0
  Matches [] p q = p ≡ q
  Matches (bytes run ∷ rest) p q = RunAt run p × Matches rest (p + length run) q
  Matches (gap least most ∷ rest) p q =
      (n : ℕ) × (least ≤ n) × AtMost n most × (p + n ≤ length text) × Matches rest (p + n) q

  pub bytes_match-RunAt :
      (run : List Wanted) (p : ℕ)
      → bytes_match run (slice text p (length run)) fold ≡ true
      → RunAt run p
  unfolding bytes_match
  bytes_match-RunAt [] p h = tt
  bytes_match-RunAt (w ∷ run) p h = elim (Option-cases (get_elem? text p)) [
    | inl e ↦ cc (rw (drop-past_end p text e) at h)
    | inr (c, e) ↦
        let both = &&-eq-true _ _ (rw (drop-at p text c e) at h) in
        (c, e, both.0, bytes_match-RunAt run (suc p) both.1)
  ]

  pub RunAt-bytes_match :
      (run : List Wanted) (p : ℕ)
      → RunAt run p
      → bytes_match run (slice text p (length run)) fold ≡ true
  unfolding bytes_match
  RunAt-bytes_match [] p h = refl
  RunAt-bytes_match (w ∷ run) p (c, e, b, h) =
      rw (drop-at p text c e, b) (RunAt-bytes_match run (suc p) h)

  pub RunAt-le :
      (run : List Wanted) (p : ℕ) → p ≤ length text → RunAt run p → p + length run ≤ length text
  RunAt-le [] p l h = omega arith
  RunAt-le (w ∷ run) p l (c, e, b, h) =
      omega (arith, RunAt-le run (suc p) (get_elem?-lt text p c e) h)

  pub Matches-append :
      (xs ys : List Part) (p q r : ℕ) → Matches xs p q → Matches ys q r → Matches (xs ++ ys) p r
  Matches-append [] ys p q r h k = subst (λ s. Matches ys s r) (sym h) k
  Matches-append (bytes run ∷ xs) ys p q r (a, h) k =
      (a, Matches-append xs ys (p + length run) q r h k)
  Matches-append (gap least most ∷ xs) ys p q r (n, a, b, c, h) k =
      (n, a, b, c, Matches-append xs ys (p + n) q r h k)

  pub Matches-split :
      (xs ys : List Part) (p r : ℕ)
      → Matches (xs ++ ys) p r
      → (q : ℕ) × Matches xs p q × Matches ys q r
  Matches-split [] ys p r h = (p, refl, h)
  Matches-split (bytes run ∷ xs) ys p r (a, h) =
      let (q, k, l) = Matches-split xs ys (p + length run) r h in (q, (a, k), l)
  Matches-split (gap least most ∷ xs) ys p r (n, a, b, c, h) =
      let (q, k, l) = Matches-split xs ys (p + n) r h in (q, (n, a, b, c, k), l)

  pub Matches-le :
      (xs : List Part) (p q : ℕ) → p ≤ length text → Matches xs p q → (p ≤ q) × (q ≤ length text)
  Matches-le [] p q l h = omega arith
  Matches-le (bytes run ∷ xs) p q l (a, h) =
      omega (arith, RunAt-le run p l a, Matches-le xs (p + length run) q (RunAt-le run p l a) h)
  Matches-le (gap least most ∷ xs) p q l (n, a, b, c, h) =
      omega (arith, Matches-le xs (p + n) q c h)
