-- ===== src/Pattern/Judge/Tidy.antt =====
-- What it means that the scratch counters are clean, and that preparing them gives a new scratch.
use blackshard.Prelude.{
  ℕ, zero, suc, ◌≡◌, ◌≢◌, refl, ap, subst, inl, inr, Bool, true, false, List, [], ◌∷◌, some, ◌==◌,
  if◌then◌else◌, length, get_elem?, set, replicate, get_elem?-set_cases, get_elem?-set_self, arith,
  Bool-cases, ==_iff,
}
use blackshard.Pattern.Anchor.{elem}
use blackshard.Pattern.Scan.{Scratch, zero_at, unmark, clear, prepare}

-- What is not zero is on the list of what is zeroed, and what is marked on that of the candidates.
pub record IsTidy (s : Scratch) : Type 0 where
  pub counted : (i v : ℕ) → get_elem? s.counts i ≡ some (suc v) → elem i s.touched ≡ true
  pub marks : (i : ℕ) → get_elem? s.marked i ≡ some true → elem i s.candidates ≡ true

all_zero :
    (xs : List ℕ) → ((i v : ℕ) → get_elem? xs i ≢ some (suc v)) → xs ≡ replicate (length xs) 0
all_zero [] h = refl
all_zero (zero ∷ xs) h = ap (◌∷◌ 0) (all_zero xs (λ i v. h (suc i) v))
all_zero (suc x ∷ xs) h = absurd (h 0 x refl)

all_false :
    (xs : List Bool) → ((i : ℕ) → get_elem? xs i ≢ some true) → xs ≡ replicate (length xs) false
all_false [] h = refl
all_false (false ∷ xs) h = ap (◌∷◌ false) (all_false xs (λ i. h (suc i)))
all_false (true ∷ xs) h = absurd (h 0 refl)

pub zero_at-cases :
    (pieces counts : List ℕ) (i v : ℕ)
    → get_elem? (zero_at pieces counts) i ≡ some (suc v)
    → (get_elem? counts i ≡ some (suc v)) × (elem i pieces ≡ false)
unfolding zero_at elem
zero_at-cases [] counts i v h = (h, refl)
zero_at-cases (p ∷ pieces) counts i v h =
    let (k, out) = zero_at-cases pieces (set counts p 0) i v h in
    elim (get_elem?-set_cases counts p i 0 (suc v) k) [
      | inl (e, f) ↦ absurd (omega arith)
      | inr old ↦ (
        old,
        elim (Bool-cases (i == p)) [
          | inl e ↦
              let same = (==_iff i p).0 e in
              let at : get_elem? (set counts p 0) p ≡ some (suc v) =
                subst (λ j. get_elem? (set counts p 0) j ≡ some (suc v)) same k in
              let f = get_elem?-set_self counts p 0 (suc v) at in absurd (omega arith)
          | inr e ↦ ground arith
        ],
      )
    ]

pub unmark-cases :
    (candidates : List ℕ) (marked : List Bool) (i : ℕ)
    → get_elem? (unmark candidates marked) i ≡ some true
    → (get_elem? marked i ≡ some true) × (elem i candidates ≡ false)
unfolding unmark elem
unmark-cases [] marked i h = (h, refl)
unmark-cases (c ∷ candidates) marked i h =
    let (k, out) = unmark-cases candidates (set marked c false) i h in
    elim (get_elem?-set_cases marked c i false true k) [
      | inl (e, f) ↦ cc
      | inr old ↦ (
        old,
        elim (Bool-cases (i == c)) [
          | inl e ↦
              let same = (==_iff i c).0 e in
              let at : get_elem? (set marked c false) c ≡ some true =
                subst (λ j. get_elem? (set marked c false) j ≡ some true) same k in
              let f = get_elem?-set_self marked c false true at in cc
          | inr e ↦ ground arith
        ],
      )
    ]

abbrev pub fresh : ℕ → ℕ → Scratch
fresh pieces logicals = record {
  counts = replicate pieces 0;
  touched = [];
  marked = replicate logicals false;
  candidates = [];
}

-- Preparing a tidy scratch gives the same as a new one.
pub prepare-fresh : (n m : ℕ) (s : Scratch) → IsTidy s → prepare n m s ≡ fresh n m
unfolding prepare clear
prepare-fresh n m s t =
    let counts = zero_at s.touched s.counts in
    let marked = unmark s.candidates s.marked in
    let zeros : counts ≡ replicate (length counts) 0 = all_zero counts (λ i v h.
      let (k, out) = zero_at-cases s.touched s.counts i v h in let e = t.counted i v k in cc) in
    let falses : marked ≡ replicate (length marked) false =
      all_false marked (λ i h.
        let (k, out) = unmark-cases s.candidates s.marked i h in let e = t.marks i k in cc) in
    let same_counts : (if length counts == n then counts else replicate n 0) ≡ replicate n 0 =
      elim (Bool-cases (length counts == n)) [
        | inl e ↦ rw e (subst (λ k. counts ≡ replicate k 0) ((==_iff (length counts) n).0 e) zeros)
        | inr e ↦ rw e refl
      ] in
    let same_marked : (if length marked == m then marked else replicate m false)
        ≡ replicate m false =
      elim (Bool-cases (length marked == m)) [
        | inl e ↦
            rw e (subst (λ k. marked ≡ replicate k false) ((==_iff (length marked) m).0 e) falses)
        | inr e ↦ rw e refl
      ] in
    cc
