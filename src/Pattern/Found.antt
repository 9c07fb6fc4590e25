-- ===== src/Pattern/Found.antt =====
-- What `verify` answers, against where the parts of the signature lie in the text.
use mathlib.Core.List.{reverse, reverse-reverse}
use blackshard.Prelude.{
  ℕ, ◌+◌, ◌-◌, ◌≤◌, ◌≡◌, refl, sym, ap, subst, inl, inr, Bool, true, false, not, ◌&&◌, ◌||◌, List,
  none, some, ltb, leb, ◌==◌, get_elem?, length, take, drop, drop-at_suc, arith, Bool-cases,
  Option-cases,
}
use blackshard.Pattern.{
  Part, bytes, gap, Wanted, Base, anywhere, absolute, from_end, entry_point, section, Signature,
  Context, resolve,
}
use blackshard.Pattern.Verify.{
  Outcome, match_left, match_right, bytes_match, slice, on_word_boundaries, is_from_end, within,
  unless_anywhere, offset_allows, judge_match, from_left, verify_around, verify, max_verify_steps,
  max_unbounded_gap,
}
use blackshard.Pattern.Matches.{Matches, bytes_match-RunAt, RunAt-bytes_match, RunAt-le, Matches-le}
use blackshard.Pattern.Right.{Outcome-cases, match_right-Matches, match_right-missed}
use blackshard.Pattern.Left.{match_left-Matches, match_left-missed}

module _ (s : Signature) (c : Context) where
  -- The parts lie from `start` to `end`, and the part with the anchor is where `anchor_at` says.
  abbrev pub AnchoredAt : ℕ → ℕ → ℕ → Type 0
  AnchoredAt anchor_at start end =
      (s.anchor_start ≤ anchor_at)
      × Matches c.text s.fold (take s.anchor_part s.parts) start (anchor_at - s.anchor_start)
      × Matches c.text s.fold (drop s.anchor_part s.parts) (anchor_at - s.anchor_start) end

  -- The start is at most `shift` bytes after the position that the offset names in this file, and
  -- the end of the file is known if the offset counts from there.
  abbrev pub Near : Base → ℕ → Type 0
  Near base start =
      (first : ℕ) × (resolve c.layout base (length c.text) ≡ some first)
      × (first ≤ start)
      × (start ≤ first + s.offset.shift)
      × (is_from_end base ≡ true → (c.truncated ≡ false) × (c.file_size ≡ length c.text))

  abbrev pub Placed : Base → ℕ → Type 0
  Placed anywhere start = Unit {0}
  Placed base start = Near base start

  abbrev pub OnWordBoundaries : ℕ → ℕ → Type 0
  OnWordBoundaries start end = s.fullword ≡ true → on_word_boundaries c.text start end ≡ true

  abbrev pub Occurs : ℕ → ℕ → ℕ → Type 0
  Occurs anchor_at start end =
      AnchoredAt anchor_at start end × OnWordBoundaries start end × Placed s.offset.base start

  within-Near :
      (base : Base) (start : ℕ)
      → within (resolve c.layout base (length c.text)) s.offset.shift start ≡ true
      → not (is_from_end base && (c.truncated || not (c.file_size == length c.text))) ≡ true
      → Near base start
  within-Near base start h k = elim (Option-cases (resolve c.layout base (length c.text))) [
    | inl e ↦ cc (rw e at h)
    | inr (first, e) ↦
        let h' : within (some first) s.offset.shift start ≡ true = rw e at h in
        (first, e, ground arith, ground arith, λ f. (ground arith, ground arith))
  ]

  abbrev pub tests : Base → ℕ → ℕ → Bool
  tests base start end =
      not (is_from_end base && (c.truncated || not (c.file_size == length c.text)))
      && leb end (length c.text)
      && within (resolve c.layout base (length c.text)) s.offset.shift start

  tests-Near : (base : Base) (start end : ℕ) → tests base start end ≡ true → Near base start
  tests-Near base start end h = within-Near base start (ground arith) (ground arith)

  allows-Placed :
      (base : Base) (start end : ℕ)
      → unless_anywhere base (tests base start end) ≡ true
      → Placed base start
  allows-Placed anywhere start end h = tt
  allows-Placed (absolute position) start end h = tests-Near (absolute position) start end h
  allows-Placed (from_end distance) start end h = tests-Near (from_end distance) start end h
  allows-Placed (entry_point delta) start end h = tests-Near (entry_point delta) start end h
  allows-Placed (section index delta) start end h = tests-Near (section index delta) start end h

  judge-true :
      (start : ℕ) (r : Outcome)
      → (judge_match s c start r).0 ≡ true
      → (end : ℕ) × (t : ℕ) × (r ≡ (some end, t))
        × OnWordBoundaries start end
        × Placed s.offset.base start
  unfolding offset_allows
  judge-true start (none, t) h = cc
  judge-true start (some end, t) h =
      (end, t, refl, λ f. ground arith, allows-Placed s.offset.base start end (ground arith))

  from_left-true :
      (after : List Part) (part_end : ℕ) (r : Outcome)
      → (from_left s c after part_end r).0 ≡ true
      → (start : ℕ) × (t : ℕ) × (r ≡ (some start, t))
        × ((judge_match s c start (match_right c.text s.fold after part_end t)).0 ≡ true)
  from_left-true after part_end (none, t) h = cc
  from_left-true after part_end (some start, t) h = (start, t, refl, h)

  around-Occurs :
      (run : List Wanted) (anchor_at steps : ℕ)
      → get_elem? s.parts s.anchor_part ≡ some (bytes run)
      → (verify_around s c run anchor_at steps).0 ≡ true
      → (start : ℕ) × (end : ℕ) × Occurs anchor_at start end
  unfolding verify_around
  around-Occurs run anchor_at steps e h =
      let part_start = anchor_at - s.anchor_start in
      let part_end = part_start + length run in
      let before = reverse (take s.anchor_part s.parts) in
      let after = drop (s.anchor_part + 1) s.parts in
      let guard =
        ltb anchor_at s.anchor_start
        || ltb (length c.text) part_end
        || not (bytes_match run (slice c.text part_start (length run)) s.fold) in
      elim (Bool-cases guard) [
        | inl g ↦ cc (rw g at h)
        | inr g ↦
            let (start, t, left, j) =
              from_left-true after part_end (match_left c.text s.fold before part_start steps)
                (rw g at h) in
            let (end, u, right, word, placed) =
              judge-true start (match_right c.text s.fold after part_end t) j in
            let lies_before =
              subst (λ parts. Matches c.text s.fold parts start part_start)
                (reverse-reverse (take s.anchor_part s.parts))
                (match_left-Matches c.text s.fold before part_start steps start t (ground arith)
                  left) in
            let lies_after = match_right-Matches c.text s.fold after part_end t end u right in
            (
              start,
              end,
              (
                (
                  ground arith,
                  lies_before,
                  subst (λ parts. Matches c.text s.fold parts part_start end)
                      (sym (drop-at_suc s.anchor_part s.parts (bytes run) e))
                      (bytes_match-RunAt c.text s.fold run part_start (ground arith), lies_after),
                ),
                word,
                placed,
              ),
            )
      ]

  -- A signature that is verified occurs in the text around the place of its anchor, on word
  -- boundaries where it asks for them, and where its offset allows.
  pub verify-Occurs :
      (anchor_at steps : ℕ)
      → (verify s c anchor_at steps).0 ≡ true
      → (start : ℕ) × (end : ℕ) × Occurs anchor_at start end
  unfolding verify
  verify-Occurs anchor_at steps h = elim (Option-cases (get_elem? s.parts s.anchor_part)) [
    | inl e ↦ cc (rw (e, verify) at h)
    | inr (gap least most, e) ↦ cc (rw (e, verify) at h)
    | inr (bytes run, e) ↦ around-Occurs run anchor_at steps e (rw (e, verify) at h)
  ]

  -- For a signature that may match anywhere, and need not end at word boundaries, nothing is
  -- missed in a text no longer than the gaps that are followed, unless the budget is used up.
  pub verify-missed :
      (run : List Wanted) (anchor_at steps start end : ℕ)
      → get_elem? s.parts s.anchor_part ≡ some (bytes run)
      → s.offset.base ≡ anywhere
      → s.fullword ≡ false
      → start ≤ length c.text
      → length c.text ≤ max_unbounded_gap
      → (verify s c anchor_at steps).1 ≤ max_verify_steps
      → (verify s c anchor_at steps).0 ≡ false
      → ¬ AnchoredAt anchor_at start end
  unfolding verify verify_around offset_allows
  verify-missed run anchor_at steps start end e any word inside short spent h
        (a, lies_before, lies_after) =
      let part_start = anchor_at - s.anchor_start in
      let part_end = part_start + length run in
      let before = reverse (take s.anchor_part s.parts) in
      let after = drop (s.anchor_part + 1) s.parts in
      let (run_at, rest_at) =
        subst (λ parts. Matches c.text s.fold parts part_start end)
          (drop-at_suc s.anchor_part s.parts (bytes run) e) lies_after in
      let before_le =
        (Matches-le c.text s.fold (take s.anchor_part s.parts) start part_start inside
          lies_before).1 in
      let run_le = RunAt-le c.text s.fold run part_start before_le run_at in
      let guard =
        ltb anchor_at s.anchor_start
        || ltb (length c.text) part_end
        || not (bytes_match run (slice c.text part_start (length run)) s.fold) in
      let open_guard : guard ≡ false =
        ground (arith, RunAt-bytes_match c.text s.fold run part_start run_at) in
      let left = match_left c.text s.fold before part_start steps in
      let h' : (from_left s c after part_end left).0 ≡ false = rw (e, verify, open_guard) at h in
      let spent' : (from_left s c after part_end left).1 ≤ max_verify_steps =
        rw (e, verify, open_guard) at spent in
      elim (Outcome-cases left) [
        | inl (t, k) ↦
            match_left-missed c.text s.fold short before part_start steps start before_le
              (ap (λ (r : Outcome). r.0) k) (rw k (rw k at spent'))
              (subst (λ parts. Matches c.text s.fold parts start part_start)
                (sym (reverse-reverse (take s.anchor_part s.parts))) lies_before)
        | inr (v, t, k) ↦
            let right = match_right c.text s.fold after part_end t in
            let h'' : (judge_match s c v right).0 ≡ false = rw k at h' in
            let spent'' : (judge_match s c v right).1 ≤ max_verify_steps = rw k at spent' in
            elim (Outcome-cases right) [
              | inl (u, l) ↦
                  match_right-missed c.text s.fold short after part_end t end run_le
                    (ap (λ (r : Outcome). r.0) l) (rw l (rw l at spent'')) rest_at
              | inr (q, u, l) ↦ cc (rw (l, any, word) at h'')
            ]
      ]
