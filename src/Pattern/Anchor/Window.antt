-- ===== src/Pattern/Anchor/Window.antt =====
-- The anchor that `best_anchor` chooses: a window of fixed bytes inside one part, of a length and
-- a variety that are worth searching for.
use blackshard.Prelude.{
  ℕ, zero, suc, ◌+◌, ◌-◌, ◌≤◌, min, ◌≡◌, refl, sym, ap, ◌∙◌, subst, inl, inr, List, [], ◌∷◌, Option,
  none, some, ltb, leb, if_split, map, get_elem?, length, length-take, length-drop, take, drop,
  drop-drop, get_elem?-of_drop, arith, Bool-cases,
}
use blackshard.Prelude.Bytes.{Bytes}
use blackshard.Pattern.{Wanted, Part, bytes, gap}
use blackshard.Pattern.Anchor.{
  Best, count_distinct, window_score, fixed_run, is_better, windows, best_in_run, best_in_part,
  best_from, best_anchor, min_anchor, max_anchor, min_distinct_bytes,
}

-- The fixed bytes `window` are what the run wants from `start` on.
abbrev pub FixedAt : List Wanted → ℕ → Bytes → Type 0
FixedAt wanted start window = take (length window) (drop start wanted) ≡ map some window

-- A window of the run that a signature may be found by.
abbrev pub IsWindow : List Wanted → ℕ → ℕ → Type 0
IsWindow wanted start width =
    (window : Bytes) × FixedAt wanted start window
    × (length window ≡ width)
    × (min_anchor ≤ width)
    × (width ≤ max_anchor)
    × (min_distinct_bytes ≤ count_distinct window)

abbrev pub IsAnchor : List Part → ℕ → ℕ → ℕ → Type 0
IsAnchor parts part start width =
    (wanted : List Wanted) × (get_elem? parts part ≡ some (bytes wanted))
    × IsWindow wanted start width

abbrev pub AllAnchors : List Part → Option Best → Type 0
AllAnchors parts none = Unit {0}
AllAnchors parts (some best) = IsAnchor parts best.part best.start best.width

-- The fixed bytes at the head of a list are in front of what follows them.
fixed_run-FixedAt :
    (wanted : List Wanted) (offset width : ℕ)
    → offset + width ≤ length (fixed_run wanted)
    → take width (drop offset wanted) ≡ map some (take width (drop offset (fixed_run wanted)))
unfolding fixed_run
fixed_run-FixedAt wanted zero zero h = refl
fixed_run-FixedAt [] zero (suc width) h = absurd (omega arith)
fixed_run-FixedAt [] (suc offset) width h = absurd (omega arith)
fixed_run-FixedAt (none ∷ wanted) zero (suc width) h = absurd (omega arith)
fixed_run-FixedAt (none ∷ wanted) (suc offset) width h = absurd (omega arith)
fixed_run-FixedAt (some byte ∷ wanted) zero (suc width) h =
    ap (◌∷◌ (some byte)) (fixed_run-FixedAt wanted zero width (omega arith))
fixed_run-FixedAt (some byte ∷ wanted) (suc offset) width h =
    fixed_run-FixedAt wanted offset width (omega arith)

-- The same for a list that starts with a fixed byte, which the run of fixed bytes includes.
fixed_of :
    (byte : ℕ) (rest : List Wanted) (offset width : ℕ)
    → offset + width ≤ length (byte ∷ fixed_run rest)
    → take width (drop offset (some byte ∷ rest))
      ≡ map some (take width (drop offset (byte ∷ fixed_run rest)))
unfolding fixed_run
fixed_of byte rest offset width h = fixed_run-FixedAt (some byte ∷ rest) offset width h

module _ (parts : List Part) (part : ℕ) (wanted : List Wanted)
    (at : get_elem? parts part ≡ some (bytes wanted)) where
  -- A window of a run of fixed bytes that stands in the part from `start` on.
  window_in_run :
      (start : ℕ) (run : Bytes) (offset width : ℕ)
      → ((o w : ℕ)
          → o + w ≤ length run
          → take w (drop o (drop start wanted)) ≡ map some (take w (drop o run)))
      → offset + width ≤ length run
      → min_anchor ≤ width
      → width ≤ max_anchor
      → min_distinct_bytes ≤ count_distinct (take width (drop offset run))
      → IsAnchor parts part (start + offset) width
  window_in_run start run offset width fixed h least most varied =
      let window = take width (drop offset run) in
      let long : length window ≡ width =
        omega (arith, length-take width (drop offset run), length-drop offset run) in
      let same : take width (drop (start + offset) wanted) ≡ map some window =
        ap (take width) (sym (drop-drop start offset wanted)) ∙ fixed offset width h in
      (
        wanted,
        at,
        (
          window,
          subst (λ n. take n (drop (start + offset) wanted) ≡ map some window) (sym long) same,
          long,
          least,
          most,
          varied,
        ),
      )

  windows-AllAnchors :
      (start : ℕ) (run : Bytes) (width rounds offset : ℕ) (best : Option Best)
      → ((o w : ℕ)
          → o + w ≤ length run
          → take w (drop o (drop start wanted)) ≡ map some (take w (drop o run)))
      → min_anchor ≤ width
      → width ≤ max_anchor
      → offset + rounds ≤ length run - width + 1
      → width ≤ length run
      → AllAnchors parts best
      → AllAnchors parts (windows part start run width rounds offset best)
  unfolding windows
  windows-AllAnchors start run width zero offset best fixed least most h fits a = a
  windows-AllAnchors start run width (suc rounds) offset best fixed least most h fits a =
      let window = take width (drop offset run) in
      windows-AllAnchors start run width rounds (offset + 1) _ fixed least most (omega arith) fits
        (elim (Bool-cases (ltb (count_distinct window) min_distinct_bytes)) [
          | inl few ↦ rw few a
          | inr varied ↦ rw varied (
              if_split (AllAnchors parts) (is_better (window_score window) best)
                (window_in_run start run offset width fixed (omega arith) least most (ground arith))
                a)
        ])

  best_in_run-AllAnchors :
      (start : ℕ) (run : Bytes) (best : Option Best)
      → ((o w : ℕ)
          → o + w ≤ length run
          → take w (drop o (drop start wanted)) ≡ map some (take w (drop o run)))
      → AllAnchors parts best
      → AllAnchors parts (best_in_run part start run best)
  unfolding best_in_run
  best_in_run-AllAnchors start run best fixed a =
      let width = min (length run) max_anchor in
      elim (Bool-cases (leb min_anchor (length run))) [
        | inl long ↦ rw long (
            windows-AllAnchors start run width (length run - width + 1) 0 best fixed (ground arith)
              (omega arith) (omega arith) (omega arith) a)
        | inr short ↦ rw short a
      ]

  best_in_part-AllAnchors :
      (fuel start : ℕ) (rest : List Wanted) (best : Option Best)
      → rest ≡ drop start wanted
      → AllAnchors parts best
      → AllAnchors parts (best_in_part fuel part start rest best)
  unfolding best_in_part
  best_in_part-AllAnchors zero start rest best e a = a
  best_in_part-AllAnchors (suc fuel) start [] best e a = a
  best_in_part-AllAnchors (suc fuel) start (none ∷ rest) best e a =
      best_in_part-AllAnchors fuel (start + 1) rest best (ap (drop 1) e ∙ drop-drop start 1 wanted)
        a
  best_in_part-AllAnchors (suc fuel) start (some byte ∷ rest) best e a =
      let run = byte ∷ fixed_run rest in
      best_in_part-AllAnchors fuel (start + length run) (drop (length run) (some byte ∷ rest)) _
        (ap (drop (length run)) e ∙ drop-drop start (length run) wanted)
        (best_in_run-AllAnchors start run best
          (λ o w h. ap (λ l. take w (drop o l)) (sym e) ∙ fixed_of byte rest o w h) a)

best_from-AllAnchors :
    (all parts : List Part) (index : ℕ) (best : Option Best)
    → parts ≡ drop index all
    → AllAnchors all best
    → AllAnchors all (best_from index parts best)
unfolding best_from
best_from-AllAnchors all [] index best e a = a
best_from-AllAnchors all (gap least most ∷ parts) index best e a =
    best_from-AllAnchors all parts (index + 1) best (ap (drop 1) e ∙ drop-drop index 1 all) a
best_from-AllAnchors all (bytes wanted ∷ parts) index best e a =
    best_from-AllAnchors all parts (index + 1) _ (ap (drop 1) e ∙ drop-drop index 1 all) (
      best_in_part-AllAnchors all index wanted
        (get_elem?-of_drop index all (bytes wanted) parts (sym e)) (length wanted) 0 wanted best
        refl a)

-- Whatever is chosen as the anchor lies inside a part that is a run of bytes, all of its bytes are
-- fixed, there are at least four and at most twelve of them, and three or more differ.
pub best_anchor-IsAnchor :
    (parts : List Part) (best : Best)
    → best_anchor parts ≡ some best
    → IsAnchor parts best.part best.start best.width
unfolding best_anchor
best_anchor-IsAnchor parts best h =
    subst (AllAnchors parts) h (best_from-AllAnchors parts parts 0 none refl tt)
