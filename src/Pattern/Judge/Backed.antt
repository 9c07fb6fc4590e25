-- ===== src/Pattern/Judge/Backed.antt =====
-- What is known of a scan while it goes through the hits: the verdict and the counts are backed by
-- the file.
use blackshard.Prelude.{
  ℕ, suc, ◌+◌, ◌*◌, ◌≡◌, refl, sym, subst, inl, inr, Bool, true, false, not, ◌&&◌, ◌||◌, List, [],
  ◌∷◌, Option, none, some, ltb, get_elem?, get_elem?-set_cases, arith, Bool-cases, Option-cases,
  if_split,
}
use blackshard.Prelude.Bytes.{Bytes}
use blackshard.Pattern.{Signature, Context, applies_to}
use blackshard.Pattern.Verify.{verify, max_verify_steps}
use blackshard.Pattern.Found.{Occurs, verify-Occurs}
use blackshard.Pattern.Set.{Logical, PatternSet}
use blackshard.Pattern.Scan.{
  Groups, group_at, Scratch, Scanning, count_match, give_up, after_verify, try_signature, try_index,
  try_group, try_hits,
}
use blackshard.Pattern.Judge.{logical_holds}

module _ (set : PatternSet) (c : Context) where
  -- The signature is for this kind of file, and occurs in it.
  abbrev pub IsThere : Signature → Type 0
  IsThere s =
      (applies_to s.target c.text ≡ true)
      × ((at : ℕ) × (start : ℕ) × (end : ℕ) × Occurs s c at start end)

  abbrev pub BodyFound : Bytes → Type 0
  BodyFound name =
      (i : ℕ) × (s : Signature) × (get_elem? set.signatures i ≡ some s)
      × (s.piece ≡ false)
      × (s.name ≡ name)
      × IsThere s

  abbrev pub PieceFound : ℕ → Type 0
  PieceFound i =
      (s : Signature) × (get_elem? set.signatures i ≡ some s) × (s.piece ≡ true) × IsThere s

  -- Every count that is not zero is that of a piece in the file.
  abbrev pub Accounted : List ℕ → Type 0
  Accounted counts = (i v : ℕ) → get_elem? counts i ≡ some (suc v) → PieceFound i

  abbrev pub LogicalFound : Bytes → Type 0
  LogicalFound name =
      (k : ℕ) × (l : Logical) × (counts : List ℕ) × (get_elem? set.logicals k ≡ some l)
      × (l.name ≡ name)
      × (logical_holds c.file_size counts l ≡ true)
      × Accounted counts
      × (c.truncated ≡ false)

  abbrev pub Backed : Option (Option Bytes) → Type 0
  Backed none = Unit {0}
  Backed (some none) = Unit {0}
  Backed (some (some name)) = BodyFound name

  pub record IsBacked (verdict : Option (Option Bytes)) (scratch : Scratch) : Type 0 where
    pub backed : Backed verdict
    pub counts : Accounted scratch.counts
    pub untouched : c.truncated ≡ true → scratch.touched ≡ []
    pub no_candidates : scratch.candidates ≡ []

  abbrev pub Keeps : Scanning → Type 0
  Keeps st = IsBacked st.verdict st.scratch

  give_up-Keeps : (st : Scanning) → Keeps st → Keeps (give_up st)
  give_up-Keeps st b =
      if_split Keeps (ltb (max_verify_steps * 16) st.steps)
        (record {
          backed = tt;
          counts = b.counts;
          untouched = b.untouched;
          no_candidates = b.no_candidates;
        })
        b

  count_match-IsBacked :
      (index : ℕ) (verdict : Option (Option Bytes)) (s : Scratch)
      → PieceFound index
      → c.truncated ≡ false
      → IsBacked verdict s
      → IsBacked verdict (count_match index s)
  count_match-IsBacked index verdict s found whole b = record {
    backed = b.backed;
    counts = λ i v h. elim (get_elem?-set_cases s.counts index i _ (suc v) h) [
      | inl (e, f) ↦ subst PieceFound (sym e) found
      | inr old ↦ b.counts i v old
    ];
    untouched = λ cut. cc;
    no_candidates = b.no_candidates;
  }

  after_verify-Keeps :
      (index : ℕ) (s : Signature) (v : Bool × ℕ) (st : Scanning)
      → get_elem? set.signatures index ≡ some s
      → (v.0 ≡ true → IsThere s)
      → (s.piece && c.truncated) ≡ false
      → Keeps st
      → Keeps (after_verify index s v st)
  after_verify-Keeps index s (false, steps) st at there whole b =
      give_up-Keeps (record st { steps = steps }) b
  after_verify-Keeps index s (true, steps) st at there whole b = elim (Bool-cases s.piece) [
    | inl piece ↦ rw piece (
        give_up-Keeps (record st { steps = steps; scratch = count_match index st.scratch })
          (count_match-IsBacked index st.verdict st.scratch (s, at, piece, there refl)
            (ground arith) b))
    | inr body ↦ rw body (record {
      backed = (index, s, at, body, refl, there refl);
      counts = b.counts;
      untouched = b.untouched;
      no_candidates = b.no_candidates;
    })
  ]

  try_signature-Keeps :
      (start index : ℕ) (s : Signature) (st : Scanning)
      → get_elem? set.signatures index ≡ some s
      → Keeps st
      → Keeps (try_signature c start index s st)
  unfolding try_signature
  try_signature-Keeps start index s st at b =
      elim (Bool-cases (not (applies_to s.target c.text) || (s.piece && c.truncated))) [
        | inl skip ↦ rw skip b
        | inr tried ↦ rw tried (
            after_verify-Keeps index s (verify s c start st.steps)
              (record st { hits = st.hits + 1; verified = st.verified + 1 }) at
              (λ e.
                let (from, to, occurs) = verify-Occurs s c start st.steps e in
                (ground arith, (start, from, to, occurs)))
              (ground arith) b)
      ]

  try_index-Keeps :
      (start index : ℕ) (st : Scanning)
      → Keeps st
      → Keeps (try_index set.signatures c start index st)
  unfolding try_index
  try_index-Keeps start index st b = elim (Option-cases st.verdict) [
    | inr (v, e) ↦ rw (e, try_index) b
    | inl e ↦ elim (Option-cases (get_elem? set.signatures index)) [
      | inl f ↦ rw (e, f, try_index) b
      | inr (s, f) ↦ rw (e, f, try_index) (try_signature-Keeps start index s st f b)
    ]
  ]

  try_group-Keeps :
      (start : ℕ) (indexes : List ℕ) (st : Scanning)
      → Keeps st
      → Keeps (try_group set.signatures c start indexes st)
  unfolding try_group
  try_group-Keeps start [] st b = b
  try_group-Keeps start (index ∷ indexes) st b =
      try_group-Keeps start indexes (try_index set.signatures c start index st)
        (try_index-Keeps start index st b)

  pub try_hits-Keeps :
      (groups : Groups) (hits : List (ℕ × ℕ)) (st : Scanning)
      → Keeps st
      → Keeps (try_hits set.signatures c groups hits st)
  unfolding try_hits
  try_hits-Keeps groups [] st b = b
  try_hits-Keeps groups ((group, start) ∷ hits) st b =
      try_hits-Keeps groups hits (try_group set.signatures c start (group_at groups group) st)
        (try_group-Keeps start (group_at groups group) st b)
