-- ===== src/Pattern/Judge/Clean.antt =====
-- A thread's scratch counters are clean between scans, so no scan sees what another has left.
use blackshard.Prelude.{
  ℕ, zero, suc, ◌+◌, ◌*◌, get_or-none, ◌≡◌, refl, sym, ap₂, subst, inl, inr, Bool, true, false, not,
  ◌&&◌, ◌||◌, List, [], ◌∷◌, ◌++◌, Option, some, ltb, ◌==◌, if◌then◌else◌, length, get_elem?,
  get_or, set, replicate, map, get_elem?-set_cases, get_or-get_elem?, arith, Bool-cases,
  Option-cases, if_split,
}
use blackshard.Prelude.Bytes.{Bytes, to_ascii_lowercase}
use blackshard.Pattern.{Signature, Context, applies_to}
use blackshard.Pattern.Verify.{verify, max_verify_steps}
use blackshard.Pattern.Anchor.{elem}
use blackshard.Pattern.Set.{PatternSet}
use blackshard.Pattern.Users.{PieceUsers, of, build_users}
use blackshard.Pattern.Scan.{
  Groups, patterns_of, group_at, Scratch, clear, Scanning, count_match, give_up, after_verify,
  try_signature, try_index, try_group, try_hits,
}
use blackshard.Pattern.Judge.{
  mark, mark_users, mark_touched, conclude, start_scan, Scanned, Automaton, context, groups_of,
  scan_counting,
}
use blackshard.Pattern.Judge.Lowest.{elem-snoc_self, elem-snoc_old}
use blackshard.Pattern.Judge.Tidy.{IsTidy, zero_at-cases, unmark-cases, fresh, prepare-fresh}

pub replicate-get {ℓ} :
    {A : Type ℓ} (n i : ℕ) (v w : A) → get_elem? (replicate n v) i ≡ some w → w ≡ v
replicate-get zero i v w h = cc
replicate-get (suc n) zero v w h = cc
replicate-get (suc n) (suc i) v w h = replicate-get n i v w h

pub fresh-IsTidy : (n m : ℕ) → IsTidy (fresh n m)
fresh-IsTidy n m = record {
  counted = λ i v h. let e = replicate-get n i 0 (suc v) h in absurd (omega arith);
  marks = λ i h. let e = replicate-get m i false true h in cc;
}

clear-IsTidy : (s : Scratch) → IsTidy s → IsTidy (clear s)
unfolding clear
clear-IsTidy s t = record {
  counted = λ i v h.
      let (k, out) = zero_at-cases s.touched s.counts i v h in let e = t.counted i v k in cc;
  marks = λ i h. let (k, out) = unmark-cases s.candidates s.marked i h in let e = t.marks i k in cc;
}

-- A piece that was matched is on the list, or just put there.
touched_after :
    (index : ℕ) (s : Scratch)
    → IsTidy s
    → elem index (if get_or s.counts index 0 == 0 then s.touched ++ (index ∷ []) else s.touched)
      ≡ true
touched_after index s t = elim (Option-cases (get_elem? s.counts index)) [
  | inl e ↦ rw (get_or-none s.counts index 0 e) (elem-snoc_self s.touched index)
  | inr (zero, e) ↦ rw (get_or-get_elem? s.counts index 0 0 e) (elem-snoc_self s.touched index)
  | inr (suc v, e) ↦
      let old = t.counted index v e in
      let seen = get_or-get_elem? s.counts index (suc v) 0 e in ground arith
]

count_match-IsTidy : (index : ℕ) (s : Scratch) → IsTidy s → IsTidy (count_match index s)
count_match-IsTidy index s t = record {
  counted = λ i v h. elim (get_elem?-set_cases s.counts index i _ (suc v) h) [
    | inl (e, f) ↦
        subst (λ j. elem j (count_match index s).touched ≡ true) (sym e) (touched_after index s t)
    | inr old ↦
        if_split (λ l. elem i l ≡ true) (get_or s.counts index 0 == 0)
          (elem-snoc_old s.touched index i (t.counted i v old)) (t.counted i v old)
  ];
  marks = t.marks;
}

mark-IsTidy : (user : ℕ) (s : Scratch) → IsTidy s → IsTidy (mark user s)
mark-IsTidy user s t = if_split IsTidy (get_or s.marked user false) t (record {
  counted = t.counted;
  marks = λ i h. elim (get_elem?-set_cases s.marked user i true true h) [
    | inl (e, f) ↦
        subst (λ j. elem j (s.candidates ++ (user ∷ [])) ≡ true) (sym e)
          (elem-snoc_self s.candidates user)
    | inr old ↦ elem-snoc_old s.candidates user i (t.marks i old)
  ];
})

mark_users-IsTidy : (users : List ℕ) (s : Scratch) → IsTidy s → IsTidy (mark_users users s)
unfolding mark_users
mark_users-IsTidy [] s t = t
mark_users-IsTidy (user ∷ users) s t = mark_users-IsTidy users (mark user s) (mark-IsTidy user s t)

mark_touched-IsTidy :
    (users : PieceUsers) (pieces : List ℕ) (s : Scratch)
    → IsTidy s
    → IsTidy (mark_touched users pieces s)
unfolding mark_touched
mark_touched-IsTidy users [] s t = t
mark_touched-IsTidy users (piece ∷ pieces) s t =
    mark_touched-IsTidy users pieces (mark_users (of users piece) s)
      (mark_users-IsTidy (of users piece) s t)

give_up-IsTidy : (st : Scanning) → IsTidy st.scratch → IsTidy (give_up st).scratch
give_up-IsTidy st t =
    if_split (λ (r : Scanning). IsTidy r.scratch) (ltb (max_verify_steps * 16) st.steps) t t

after_verify-IsTidy :
    (index : ℕ) (s : Signature) (v : Bool × ℕ) (st : Scanning)
    → IsTidy st.scratch
    → IsTidy (after_verify index s v st).scratch
after_verify-IsTidy index s (true, steps) st t =
    if_split (λ (r : Scanning). IsTidy r.scratch) s.piece
      (give_up-IsTidy (record st { steps = steps; scratch = count_match index st.scratch })
        (count_match-IsTidy index st.scratch t))
      t
after_verify-IsTidy index s (false, steps) st t = give_up-IsTidy (record st { steps = steps }) t

try_signature-IsTidy :
    (c : Context) (start index : ℕ) (s : Signature) (st : Scanning)
    → IsTidy st.scratch
    → IsTidy (try_signature c start index s st).scratch
unfolding try_signature
try_signature-IsTidy c start index s st t =
    if_split (λ (r : Scanning). IsTidy r.scratch)
      (not (applies_to s.target c.text) || (s.piece && c.truncated)) t
      (after_verify-IsTidy index s (verify s c start st.steps)
        (record st { hits = st.hits + 1; verified = st.verified + 1 }) t)

module _ (sigs : List Signature) (c : Context) where
  try_index-IsTidy :
      (start index : ℕ) (st : Scanning)
      → IsTidy st.scratch
      → IsTidy (try_index sigs c start index st).scratch
  unfolding try_index
  try_index-IsTidy start index st t = elim (Option-cases st.verdict) [
    | inr (v, e) ↦ rw (e, try_index) t
    | inl e ↦ elim (Option-cases (get_elem? sigs index)) [
      | inl f ↦ rw (e, f, try_index) t
      | inr (s, f) ↦ rw (e, f, try_index) (try_signature-IsTidy c start index s st t)
    ]
  ]

  try_group-IsTidy :
      (start : ℕ) (indexes : List ℕ) (st : Scanning)
      → IsTidy st.scratch
      → IsTidy (try_group sigs c start indexes st).scratch
  unfolding try_group
  try_group-IsTidy start [] st t = t
  try_group-IsTidy start (index ∷ indexes) st t =
      try_group-IsTidy start indexes (try_index sigs c start index st)
        (try_index-IsTidy start index st t)

  try_hits-IsTidy :
      (groups : Groups) (hits : List (ℕ × ℕ)) (st : Scanning)
      → IsTidy st.scratch
      → IsTidy (try_hits sigs c groups hits st).scratch
  unfolding try_hits
  try_hits-IsTidy groups [] st t = t
  try_hits-IsTidy groups ((group, start) ∷ hits) st t =
      try_hits-IsTidy groups hits (try_group sigs c start (group_at groups group) st)
        (try_group-IsTidy start (group_at groups group) st t)

conclude-IsTidy :
    (set : PatternSet) (users : PieceUsers) (c : Context) (st : Scanning)
    → IsTidy st.scratch
    → IsTidy (conclude set users c st).scratch
unfolding conclude
conclude-IsTidy set users c st t = elim (Option-cases st.verdict) [
  | inr (v, e) ↦ rw (e, conclude) (clear-IsTidy st.scratch t)
  | inl e ↦
      rw (e, conclude)
        (clear-IsTidy (mark_touched users st.scratch.touched st.scratch)
          (mark_touched-IsTidy users st.scratch.touched st.scratch t))
]

-- One scan of a thread.
pub record Job : Type 0 where
  pub set : PatternSet
  pub text : Bytes
  pub file_size : ℕ
  pub truncated : Bool

abbrev pub run_job : Automaton → Job → Scratch → Scanned
run_job a job s = scan_counting a job.set job.text job.file_size job.truncated s

abbrev pub new_scratch : Scratch
new_scratch = fresh 0 0

-- What the scans of one thread find, which hand the scratch on from one to the next.
unfoldable pub run_jobs : Automaton → List Job → Scratch → List (Option Bytes)
run_jobs a [] s = []
run_jobs a (job ∷ jobs) s = (run_job a job s).found ∷ run_jobs a jobs (run_job a job s).scratch

module _ (a : Automaton) (set : PatternSet) (text : Bytes) (file_size : ℕ) (truncated : Bool)
    (s : Scratch) (t : IsTidy s) where
  start-IsTidy : IsTidy (start_scan set s).scratch
  start-IsTidy =
      subst IsTidy (sym (prepare-fresh (length set.signatures) (length set.logicals) s t))
        (fresh-IsTidy (length set.signatures) (length set.logicals))

  scan-IsTidy : IsTidy (scan_counting a set text file_size truncated s).scratch
  unfolding scan_counting
  scan-IsTidy =
      let groups = groups_of set in
      let c = context text file_size truncated in
      if_split (λ (r : Scanned). IsTidy r.scratch)
        (length groups == 0 || not (a.builds (patterns_of groups))) t
        (conclude-IsTidy set (build_users (length set.signatures) set.logicals) c
          (try_hits set.signatures c groups (a.find (patterns_of groups) (to_ascii_lowercase text))
            (start_scan set s))
          (try_hits-IsTidy set.signatures c groups
            (a.find (patterns_of groups) (to_ascii_lowercase text)) (start_scan set s)
            start-IsTidy))

  scan-found :
      (scan_counting a set text file_size truncated s).found
      ≡ (scan_counting a set text file_size truncated new_scratch).found
  unfolding scan_counting
  scan-found =
      elim (Bool-cases
        (length (groups_of set) == 0 || not (a.builds (patterns_of (groups_of set))))) [
          | inl e ↦ rw e refl
          | inr e ↦
              let n = length set.signatures in
              let m = length set.logicals in
              rw (e, prepare-fresh n m s t, prepare-fresh n m new_scratch (fresh-IsTidy 0 0)) refl
        ]

run_jobs_from :
    (a : Automaton) (jobs : List Job) (s : Scratch)
    → IsTidy s
    → run_jobs a jobs s ≡ map (λ job. (run_job a job new_scratch).found) jobs
unfolding run_jobs
run_jobs_from a [] s t = refl
run_jobs_from a (job ∷ jobs) s t =
    ap₂ ◌∷◌ (scan-found a job.set job.text job.file_size job.truncated s t) (
      run_jobs_from a jobs (run_job a job s).scratch
        (scan-IsTidy a job.set job.text job.file_size job.truncated s t))

-- Whatever sets and files a thread has scanned before, each of its scans finds what it would find
-- with a scratch of its own.
pub run_jobs-fresh :
    (a : Automaton) (jobs : List Job)
    → run_jobs a jobs new_scratch ≡ map (λ job. (run_job a job new_scratch).found) jobs
run_jobs-fresh a jobs = run_jobs_from a jobs new_scratch (fresh-IsTidy 0 0)
