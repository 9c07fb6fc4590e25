-- ===== src/Similarity/Sketches.antt =====
-- What `compute_sketch` of src/similarity.rs keeps: the 64 least hashes of the file's shingles.
use native.Mathlib.Decide.{ℕ_discrete}
use blackshard.Prelude.{
  ℕ, zero, suc, ◌≤◌, ◌<◌, ◌≡◌, ◌⊎◌, sym, subst, inl, inr, true, false, List, [], ◌∷◌, some, ltb,
  length, drop, All, arith, Bool-cases,
}
use blackshard.Prelude.Bytes.{Bytes}
use blackshard.Similarity.{
  sketch_size, shingle_bytes, shingle_stride, shingle_hash, set_insert, pop_last, keep_least,
  shingles, compute_sketch,
}
use blackshard.Similarity.Scores.{IsAscending, is_in}
use blackshard.Similarity.Sets.{
  hashes, IsCovered, set_insert-IsAscending, set_insert-in, pop_last-IsAscending, length-pop_last,
  pop_last-in, All-in, in-All, pop_last-covers, pop_last-greatest, set_insert-old,
  length-set_insert_new,
}

-- One hash more is covered, and the old ones stay covered.
record Keeps (h : ℕ) (s t : List ℕ) : Type 0 where
  ascending : IsAscending t
  capped : length t ≤ sketch_size
  old : (k : ℕ) → IsCovered s k → IsCovered t k
  new : IsCovered t h
  taken : (k : ℕ) → is_in k t ≡ true → (k ≡ h) ⊎ (is_in k s ≡ true)

Keeps-insert :
    (h : ℕ) (s : List ℕ)
    → IsAscending s
    → is_in h s ≡ false
    → length s < sketch_size
    → Keeps h s (set_insert h s)
Keeps-insert h s a n l = record {
  ascending = set_insert-IsAscending h s a;
  capped = omega (arith, length-set_insert_new h s n);
  old = λ k c. elim c [
    | inl i ↦ inl (ground (arith, set_insert-in h k s, i))
    | inr f ↦ absurd (omega (arith, f.0))
  ];
  new = inl (ground (arith, set_insert-in h h s));
  taken = λ k i. ground (arith, set_insert-in h k s, i);
}

length-set_insert_pos : (n : ℕ) (l : List ℕ) → 0 < length (set_insert n l)
unfolding set_insert
length-set_insert_pos n [] = omega arith
length-set_insert_pos n (m ∷ l) = ground arith

-- What all numbers of a full sketch are below stays above the next sketch.
pop_last-below :
    (h k : ℕ) (s : List ℕ)
    → IsAscending s
    → All (λ m. m < k) s
    → All (λ m. m < k) (pop_last (set_insert h s))
pop_last-below h k s a f =
    let (d, i, g) =
      pop_last-greatest (set_insert h s) (set_insert-IsAscending h s a)
        (length-set_insert_pos h s) in
    in-All (λ m. m < k) (pop_last (set_insert h s))
      (λ m j.
        let m-d : m < d = All-in (λ x. x < d) _ g m j in
        let inside = pop_last-in m (set_insert h s) j in
        elim (Bool-cases (is_in m s)) [
          | inl e ↦ All-in (λ x. x < k) s f m e
          | inr e ↦
              let same : m ≡ h = ground (arith, set_insert-in h m s, inside, e) in
              let kept : is_in d s ≡ true = ground (arith, set_insert-in h d s, i, m-d, same) in
              let d-k : d < k = All-in (λ x. x < k) s f d kept in omega (arith, m-d, d-k)
        ])

Keeps-pop :
    (h : ℕ) (s : List ℕ)
    → IsAscending s
    → is_in h s ≡ false
    → length s ≡ sketch_size
    → Keeps h s (pop_last (set_insert h s))
Keeps-pop h s a n l =
    let t = set_insert h s in
    let up = set_insert-IsAscending h s a in
    let size : length (pop_last t) ≡ sketch_size =
      omega (arith, length-pop_last t, length-set_insert_new h s n, l) in
    let covers : (k : ℕ) → is_in k t ≡ true → IsCovered (pop_last t) k =
      λ k i. elim (pop_last-covers k t up i) [ inl j ↦ inl j | inr g ↦ inr (size, g) ] in
    record {
      ascending = pop_last-IsAscending t up;
      capped = omega (arith, size);
      old = λ k c. elim c [
        | inl i ↦ covers k (ground (arith, set_insert-in h k s, i))
        | inr f ↦ inr (size, pop_last-below h k s a f.1)
      ];
      new = covers h (ground (arith, set_insert-in h h s));
      taken = λ k i. ground (arith, set_insert-in h k s, pop_last-in k t i);
    }

keep_least-Keeps :
    (h : ℕ) (s : List ℕ) → IsAscending s → length s ≤ sketch_size → Keeps h s (keep_least h s)
unfolding keep_least
keep_least-Keeps h s a l = elim (Bool-cases (is_in h s)) [
  | inl e ↦
      let big : ltb sketch_size (length s) ≡ false = ground (arith, l) in
      rw (set_insert-old h s a e, big)
        (record { ascending = a; capped = l; old = λ k c. c; new = inl e; taken = λ k i. inr i })
  | inr e ↦ elim (Bool-cases (ltb sketch_size (length (set_insert h s)))) [
    | inl f ↦ rw f (Keeps-pop h s a e (ground (arith, f, l, length-set_insert_new h s e)))
    | inr f ↦ rw f (Keeps-insert h s a e (ground (arith, f, length-set_insert_new h s e)))
  ]
]

-- `t` holds numbers of `s` and of `hs` only, and covers them all.
record Gathers (hs s t : List ℕ) : Type 0 where
  ascending : IsAscending t
  capped : length t ≤ sketch_size
  old : (k : ℕ) → IsCovered s k → IsCovered t k
  new : (k : ℕ) → is_in k hs ≡ true → IsCovered t k
  taken : (k : ℕ) → is_in k t ≡ true → (is_in k hs ≡ true) ⊎ (is_in k s ≡ true)

Gathers-nil : (s : List ℕ) → IsAscending s → length s ≤ sketch_size → Gathers [] s s
Gathers-nil s a l = record {
  ascending = a;
  capped = l;
  old = λ k c. c;
  new = λ k i. absurd (ground arith);
  taken = λ k i. inr i;
}

Gathers-cons : (h : ℕ) (hs s t u : List ℕ) → Keeps h s t → Gathers hs t u → Gathers (h ∷ hs) s u
Gathers-cons h hs s t u k g = record {
  ascending = g.ascending;
  capped = g.capped;
  old = λ n c. g.old n (k.old n c);
  new = λ n i. elim (ℕ_discrete n h) [
    | yes e ↦ subst (IsCovered u) (sym e) (g.old h k.new)
    | no e ↦ g.new n (ground (arith, i))
  ];
  taken = λ n i. elim (g.taken n i) [
    | inl j ↦ inl (ground (arith, j))
    | inr j ↦ ground (arith, k.taken n j)
  ];
}

shingles-Gathers :
    (fuel : ℕ) (bytes : Bytes) (s : List ℕ)
    → IsAscending s
    → length s ≤ sketch_size
    → Gathers (hashes fuel bytes) s (shingles fuel bytes s)
unfolding hashes shingles
shingles-Gathers zero bytes s a l = Gathers-nil s a l
shingles-Gathers (suc fuel) bytes s a l = elim (Bool-cases (ltb (length bytes) shingle_bytes)) [
  | inl e ↦ rw e (Gathers-nil s a l)
  | inr e ↦
      let k = keep_least-Keeps (shingle_hash bytes) s a l in
      rw e (
        Gathers-cons (shingle_hash bytes) _ s (keep_least (shingle_hash bytes) s) _ k
          (shingles-Gathers fuel (drop shingle_stride bytes) _ k.ascending k.capped))
]

compute_sketch-some :
    (bytes : Bytes) (sketch : List ℕ)
    → compute_sketch bytes ≡ some sketch
    → (shingles (length bytes) bytes [] ≡ sketch) × (length sketch ≡ sketch_size)
unfolding compute_sketch
compute_sketch-some bytes sketch h = ground (arith, h)

-- A sketch has 64 ascending numbers, each the hash of a shingle of the file, and no hash that it
-- leaves out is below one of them.
pub compute_sketch-least :
    (bytes : Bytes) (sketch : List ℕ)
    → compute_sketch bytes ≡ some sketch
    → IsAscending sketch
      × (length sketch ≡ sketch_size)
      × ((k : ℕ) → is_in k sketch ≡ true → is_in k (hashes (length bytes) bytes) ≡ true)
      × ((k : ℕ)
          → is_in k (hashes (length bytes) bytes) ≡ true
          → is_in k sketch ≡ false
          → All (λ m. m < k) sketch)
unfolding compute_sketch
compute_sketch-least bytes sketch h =
    let e = compute_sketch-some bytes sketch h in
    let g =
      subst (Gathers (hashes (length bytes) bytes) []) e.0
        (shingles-Gathers (length bytes) bytes [] tt (omega arith)) in
    (
      g.ascending,
      e.1,
      λ k i. elim (g.taken k i) [ inl j ↦ j | inr j ↦ absurd (ground arith) ],
      λ k i o. elim (g.new k i) [ inl j ↦ absurd (ground (arith, j, o)) | inr f ↦ f.1 ],
    )
