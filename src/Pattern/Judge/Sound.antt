-- ===== src/Pattern/Judge/Sound.antt =====
-- What a scan reports is in the file: a body signature occurs there, and a logical signature holds
-- for counts that matches of its pieces account for.
use blackshard.Prelude.{
  ℕ, suc, ◌≡◌, refl, sym, ap, ◌∙◌, subst, ◌⊎◌, inl, inr, Bool, true, false, not, ◌||◌, List, [],
  ◌∷◌, Option, none, some, ◌==◌, length, get_elem?, get_or, set, arith, Bool-cases, Option-cases,
  if_split,
}
use blackshard.Prelude.Bytes.{Bytes, to_ascii_lowercase}
use blackshard.Pattern.{Context}
use blackshard.Pattern.Anchor.{elem}
use blackshard.Pattern.Set.{PatternSet}
use blackshard.Pattern.Users.{PieceUsers, of, build_users}
use blackshard.Pattern.Scan.{
  patterns_of, Scratch, Scanning, try_hits, prepare, clear, zero_at, unmark,
}
use blackshard.Pattern.Judge.{
  mark, mark_users, mark_touched, lowest, holds_at, name_at, conclude, start_scan, Automaton,
  context, groups_of, scan_counting,
}
use blackshard.Pattern.Judge.Lowest.{IsLowest, lowest-IsLowest}
use blackshard.Pattern.Judge.Tidy.{prepare-fresh}
use blackshard.Pattern.Judge.Clean.{new_scratch, fresh-IsTidy, replicate-get}
use blackshard.Pattern.Judge.Backed.{
  BodyFound, LogicalFound, Accounted, Backed, Keeps, try_hits-Keeps,
}

none_of : (k : ℕ) → elem k [] ≡ true → ⊥
unfolding elem
none_of k h = cc

nothing_marked :
    (users : PieceUsers) (s : Scratch) → (mark_touched users [] s).candidates ≡ s.candidates
unfolding mark_touched
nothing_marked users s = refl

module _ (set : PatternSet) (c : Context) where
  -- The result of a scan, if there is one.
  abbrev Result : Option Bytes → Type 0
  Result none = Unit {0}
  Result (some name) = BodyFound set c name ⊎ LogicalFound set c name

  backed-Result : (verdict : Option Bytes) → Backed set c (some verdict) → Result verdict
  backed-Result none h = tt
  backed-Result (some name) h = inl h

  mark_counts : (user : ℕ) (s : Scratch) → (mark user s).counts ≡ s.counts
  mark_counts user s =
      if_split (λ (r : Scratch). r.counts ≡ s.counts) (get_or s.marked user false) refl refl

  mark_users_counts : (users : List ℕ) (s : Scratch) → (mark_users users s).counts ≡ s.counts
  unfolding mark_users
  mark_users_counts [] s = refl
  mark_users_counts (user ∷ users) s = mark_users_counts users (mark user s) ∙ mark_counts user s

  mark_touched_counts :
      (users : PieceUsers) (pieces : List ℕ) (s : Scratch)
      → (mark_touched users pieces s).counts ≡ s.counts
  unfolding mark_touched
  mark_touched_counts users [] s = refl
  mark_touched_counts users (piece ∷ pieces) s =
      mark_touched_counts users pieces (mark_users (of users piece) s)
      ∙ mark_users_counts (of users piece) s

  -- A candidate that holds is a logical signature that does.
  holds_at-Result :
      (counts : List ℕ) (k : ℕ)
      → holds_at set.logicals c.file_size counts k ≡ true
      → Accounted set c counts
      → c.truncated ≡ false
      → Result (name_at set.logicals (some k))
  holds_at-Result counts k h acc whole = elim (Option-cases (get_elem? set.logicals k)) [
    | inl e ↦ cc (rw (e, holds_at) at h)
    | inr (l, e) ↦
        let name : name_at set.logicals (some k) ≡ some l.name = rw (e, name_at) refl in
        subst Result (sym name) (inr (k, l, counts, e, refl, rw (e, holds_at) at h, acc, whole))
  ]

  lowest-Result :
      (counts candidates : List ℕ)
      → Accounted set c counts
      → (c.truncated ≡ true → candidates ≡ [])
      → Result
          (name_at set.logicals (lowest (holds_at set.logicals c.file_size counts) candidates none))
  lowest-Result counts candidates acc cut =
      let holds = holds_at set.logicals c.file_size counts in
      let best = lowest-IsLowest holds candidates in
      elim (Option-cases (lowest holds candidates none)) [
        | inl e ↦ rw e tt
        | inr (k, e) ↦
            let found = subst (IsLowest holds candidates) e best in
            rw e (
              holds_at-Result counts k found.1 acc (elim (Bool-cases c.truncated) [
                | inl t ↦
                    let nothing = subst (λ cs. elem k cs ≡ true) (cut t) found.0 in
                    absurd (none_of k nothing)
                | inr f ↦ f
              ]))
      ]

  conclude-Result :
      (users : PieceUsers) (st : Scanning) → Keeps set c st → Result (conclude set users c st).found
  unfolding conclude
  conclude-Result users st b = elim (Option-cases st.verdict) [
    | inr (v, e) ↦ rw (e, conclude) (backed-Result v (subst (Backed set c) e b.backed))
    | inl e ↦
        let marked = mark_touched users st.scratch.touched st.scratch in
        rw (e, conclude)
          (lowest-Result marked.counts marked.candidates
            (subst (Accounted set c) (sym (mark_touched_counts users st.scratch.touched st.scratch))
              b.counts)
            (λ t.
              ap (λ pieces. (mark_touched users pieces st.scratch).candidates) (b.untouched t)
              ∙ nothing_marked users st.scratch
              ∙ b.no_candidates))
  ]

-- What is reported is a body signature for this kind of file that occurs in it, or a logical
-- signature that holds for the size of the file and for counts of which each that is not zero is
-- that of a piece that occurs in it; and no logical signature is reported of a file that was read
-- only in part.
pub scan_counting-found :
    (a : Automaton) (set : PatternSet) (text : Bytes) (file_size : ℕ) (truncated : Bool)
    (name : Bytes)
    → (scan_counting a set text file_size truncated new_scratch).found ≡ some name
    → BodyFound set (context text file_size truncated) name
      ⊎ LogicalFound set (context text file_size truncated) name
unfolding scan_counting prepare clear zero_at unmark
scan_counting-found a set text file_size truncated name h =
    let groups = groups_of set in
    let c = context text file_size truncated in
    let hits = a.find (patterns_of groups) (to_ascii_lowercase text) in
    let st = try_hits set.signatures c groups hits (start_scan set new_scratch) in
    let zeros : Accounted set c (start_scan set new_scratch).scratch.counts = λ i v e.
      let e' =
        subst (λ (r : Scratch). get_elem? r.counts i ≡ some (suc v))
          (prepare-fresh (length set.signatures) (length set.logicals) new_scratch
            (fresh-IsTidy 0 0))
          e in
      let z = replicate-get (length set.signatures) i 0 (suc v) e' in absurd (omega arith) in
    let kept =
      try_hits-Keeps set c groups hits (start_scan set new_scratch)
        (record { backed = tt; counts = zeros; untouched = λ cut. refl; no_candidates = refl }) in
    let result = conclude-Result set c (build_users (length set.signatures) set.logicals) st kept in
    elim (Bool-cases (length groups == 0 || not (a.builds (patterns_of groups)))) [
      | inl e ↦ cc (rw e at h)
      | inr e ↦ subst (Result set c) (rw e at h) result
    ]
