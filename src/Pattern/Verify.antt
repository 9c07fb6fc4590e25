-- ===== src/Pattern/Verify.antt =====
-- src/clamdb/pattern.rs: `verify` and the matching of parts to the right and to the left of an
-- anchor. The `&mut steps` of the source is an argument and a second result. Positions are
-- indexes into a file in memory, so the sums that the source checks do not overflow.
use blackshard.Prelude.{
  ℕ, suc, zero, ◌+◌, ◌-◌, ◌*◌, ◌^◌, min, Bool, true, false, not, ◌&&◌, ◌||◌, List, [], ◌∷◌, Option,
  none, some, leb, ltb, ◌==◌, if◌then◌else◌, get_elem?, length, take, drop,
}
use mathlib.Core.List.{reverse}
use blackshard.Prelude.Bytes.{Bytes, lower}
use blackshard.Prelude.Options.{usize_max}
use blackshard.Pattern.{
  Part, bytes, gap, Wanted, Offset, Base, anywhere, from_end, Signature, Context, resolve,
}

-- `MAX_UNBOUNDED_GAP`
unfoldable pub max_unbounded_gap : ℕ
max_unbounded_gap = 2 ^ 20

-- `MAX_VERIFY_STEPS`
unfoldable pub max_verify_steps : ℕ
max_verify_steps = 4 * 2 ^ 20

abbrev pub byte_matches : Bool → Wanted → ℕ → Bool
byte_matches fold none actual = true
byte_matches fold (some wanted) actual = wanted == actual || (fold && lower wanted == lower actual)

-- Lists of different lengths do not match.
unfoldable pub bytes_match : List Wanted → Bytes → Bool → Bool
bytes_match [] [] fold = true
bytes_match [] (_ ∷ _) fold = false
bytes_match (_ ∷ _) [] fold = false
bytes_match (w ∷ pattern) (c ∷ text) fold = byte_matches fold w c && bytes_match pattern text fold

abbrev pub is_ascii_alphanumeric : ℕ → Bool
is_ascii_alphanumeric c =
    (leb b'0' c && leb c b'9') || (leb b'a' c && leb c b'z') || (leb b'A' c && leb c b'Z')

abbrev pub alphanumeric_at : Option ℕ → Bool
alphanumeric_at none = false
alphanumeric_at (some c) = is_ascii_alphanumeric c

abbrev pub byte_before : Bytes → ℕ → Option ℕ
byte_before text zero = none
byte_before text (suc index) = get_elem? text index

unfoldable pub on_word_boundaries : Bytes → ℕ → ℕ → Bool
on_word_boundaries text start end =
    not (alphanumeric_at (byte_before text start)) && not (alphanumeric_at (get_elem? text end))

-- `&text[start..start + len]`
abbrev pub slice : Bytes → ℕ → ℕ → Bytes
slice text start len = take len (drop start text)

-- The result of a match, and the steps spent so far.
abbrev pub Outcome : Type 0
Outcome = Option ℕ × ℕ

abbrev pub gap_limit : Option ℕ → ℕ
gap_limit none = max_unbounded_gap
gap_limit (some most) = min most max_unbounded_gap

-- `if let Some(end) = … { return Some(end); }`, else the rest of the loop.
abbrev pub or_else : Outcome → (ℕ → Outcome) → Outcome
or_else (some found, steps) rest = (some found, steps)
or_else (none, steps) rest = rest steps

-- The loop over `skip`, with the number of rounds that are left.
unfoldable pub skip_right : (ℕ → ℕ → Outcome) → ℕ → ℕ → ℕ → ℕ → ℕ → Outcome
skip_right next len position zero skip steps = (none, steps)
skip_right next len position (suc rounds) skip steps =
    if ltb max_verify_steps (steps + 1) || ltb len (position + skip)
    then (none, steps + 1)
    else or_else (next (position + skip) (steps + 1))
        (λ spent. skip_right next len position rounds (skip + 1) spent)

unfoldable pub match_right : Bytes → Bool → List Part → ℕ → ℕ → Outcome
unfolding skip_right bytes_match
match_right text fold [] position steps = (some position, steps)
match_right text fold (bytes run ∷ rest) position steps =
    let after = match_right text fold rest (position + length run) (steps + length run) in
    if ltb max_verify_steps (steps + length run)
      || ltb (length text) (position + length run)
      || not (bytes_match run (slice text position (length run)) fold)
    then (none, steps + length run)
    else after
match_right text fold (gap least most ∷ rest) position steps =
    skip_right (match_right text fold rest) (length text) position (gap_limit most + 1 - least)
      least steps

unfoldable pub skip_left : (ℕ → ℕ → Outcome) → ℕ → ℕ → ℕ → ℕ → Outcome
skip_left next end zero skip steps = (none, steps)
skip_left next end (suc rounds) skip steps =
    if ltb max_verify_steps (steps + 1) || ltb end skip
    then (none, steps + 1)
    else or_else (next (end - skip) (steps + 1))
        (λ spent. skip_left next end rounds (skip + 1) spent)

-- The parts come last first: the source splits off the last one each time.
unfoldable pub match_left : Bytes → Bool → List Part → ℕ → ℕ → Outcome
unfolding skip_left bytes_match
match_left text fold [] end steps = (some end, steps)
match_left text fold (bytes run ∷ rest) end steps =
    let before = match_left text fold rest (end - length run) (steps + length run) in
    if ltb end (length run)
      || ltb max_verify_steps (steps + length run)
      || not (bytes_match run (slice text (end - length run) (length run)) fold)
    then (none, steps + length run)
    else before
match_left text fold (gap least most ∷ rest) end steps =
    skip_left (match_left text fold rest) end (gap_limit most + 1 - least) least steps

abbrev pub is_from_end : Base → Bool
is_from_end (from_end _) = true
is_from_end _ = false

abbrev pub within : Option ℕ → ℕ → ℕ → Bool
within none shift start = false
within (some first) shift start = leb first start && leb start (min (first + shift) usize_max)

-- `if offset.base == Base::Anywhere { return true; }`, else the rest.
abbrev pub unless_anywhere : Base → Bool → Bool
unless_anywhere anywhere rest = true
unless_anywhere base rest = rest

-- The last part of `verify`: whether the offset of the signature allows a match at `start`.
unfoldable pub offset_allows : Offset → Context → ℕ → ℕ → Bool
unfolding resolve
offset_allows offset c start end = unless_anywhere offset.base (
    not (is_from_end offset.base && (c.truncated || not (c.file_size == length c.text)))
    && leb end (length c.text)
    && within (resolve c.layout offset.base (length c.text)) offset.shift start)

abbrev pub Verdict : Type 0
Verdict = Bool × ℕ

abbrev pub judge_match : Signature → Context → ℕ → Outcome → Verdict
judge_match s c start (none, steps) = (false, steps)
judge_match s c start (some end, steps) = (
  not (s.fullword && not (on_word_boundaries c.text start end))
      && offset_allows s.offset c start end,
  steps,
)

abbrev pub from_left : Signature → Context → List Part → ℕ → Outcome → Verdict
from_left s c after part_end (none, steps) = (false, steps)
from_left s c after part_end (some start, steps) =
    judge_match s c start (match_right c.text s.fold after part_end steps)

-- The checks of `verify` once the anchor's part is known to be a run of bytes.
unfoldable pub verify_around : Signature → Context → List Wanted → ℕ → ℕ → Verdict
unfolding match_left match_right on_word_boundaries offset_allows
verify_around s c run anchor_at steps =
    let part_start = anchor_at - s.anchor_start in
    let part_end = part_start + length run in
    let before = reverse (take s.anchor_part s.parts) in
    let after = drop (s.anchor_part + 1) s.parts in
    if ltb anchor_at s.anchor_start
      || ltb (length c.text) part_end
      || not (bytes_match run (slice c.text part_start (length run)) s.fold)
    then (false, steps)
    else from_left s c after part_end (match_left c.text s.fold before part_start steps)

-- An index past the parts, at which the source would stop, is that of no signature that is kept.
unfoldable pub verify : Signature → Context → ℕ → ℕ → Verdict
unfolding verify_around
verify s c anchor_at steps = elim (get_elem? s.parts s.anchor_part) [
  | some (bytes run) ↦ verify_around s c run anchor_at steps
  | _ ↦ (false, steps)
]
