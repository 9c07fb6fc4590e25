-- ===== src/Pattern/Anchor.antt =====
-- src/clamdb/pattern.rs: `best_anchor`, the window of fixed bytes that a signature is found by.
-- Scores are counted in halves: the source adds 0.5 and 1.5 in floating point, which is exact for
-- the at most twelve bytes of a window.
pub mod Window
use blackshard.Prelude.{
  ℕ, zero, suc, ◌+◌, ◌-◌, min, Bool, true, false, ◌&&◌, ◌||◌, List, [], ◌∷◌, Option, none, some,
  ltb, leb, ◌==◌, if◌then◌else◌, get_elem?, length, take, drop,
}
use blackshard.Prelude.Bytes.{Bytes}
use blackshard.Pattern.{Wanted, Part, bytes, gap, Signature}

-- `MIN_ANCHOR`, `MIN_FIXED_BYTES`, `MAX_ANCHOR` and `MIN_DISTINCT_BYTES`
abbrev pub min_anchor : ℕ
min_anchor = 4

abbrev pub min_fixed_bytes : ℕ
min_fixed_bytes = 8

abbrev pub max_anchor : ℕ
max_anchor = 12

abbrev pub min_distinct_bytes : ℕ
min_distinct_bytes = 3

unfoldable pub elem : ℕ → List ℕ → Bool
elem b [] = false
elem b (c ∷ s) = b == c || elem b s

abbrev pub common_bytes : List ℕ
common_bytes =
    0x00 ∷ 0xff ∷ 0x90 ∷ 0xcc ∷ 0x20 ∷ 0x0a ∷ 0x0d ∷ 0x08 ∷ 0x10 ∷ 0x24 ∷ 0x83 ∷ 0x89 ∷ 0x8b ∷ 0xe8
    ∷ 0x0f ∷ 0xc2 ∷ 0xc3 ∷ []

unfoldable pub byte_weight : ℕ → ℕ
unfolding elem
byte_weight byte =
    if elem byte common_bytes
      || (leb 0x01 byte && leb byte 0x04)
      || (leb 0x40 byte && leb byte 0x5f)
    then 1
    else 3

unfoldable pub score_from : List ℕ → Bytes → ℕ
score_from seen [] = 0
score_from seen (byte ∷ window) =
    byte_weight byte + (if elem byte seen then 0 else 1) + score_from (byte ∷ seen) window

unfoldable pub window_score : Bytes → ℕ
unfolding score_from byte_weight
window_score window = score_from [] window

-- How many flags of the `[bool; 256]` a window sets.
unfoldable pub count_distinct : Bytes → ℕ
unfolding elem
count_distinct [] = 0
count_distinct (byte ∷ window) = (if elem byte window then 0 else 1) + count_distinct window

-- `map_while(|byte| *byte)`
unfoldable pub fixed_run : List Wanted → Bytes
fixed_run [] = []
fixed_run (none ∷ rest) = []
fixed_run (some byte ∷ rest) = byte ∷ fixed_run rest

pub record Best : Type 0 where
  pub score : ℕ
  pub part : ℕ
  pub start : ℕ
  pub width : ℕ

abbrev pub is_better : ℕ → Option Best → Bool
is_better score none = true
is_better score (some best) = ltb best.score score

-- The loop over `offset` inside one run, with the number of rounds that are left.
unfoldable pub windows : ℕ → ℕ → Bytes → ℕ → ℕ → ℕ → Option Best → Option Best
unfolding window_score count_distinct
windows part start run width zero offset best = best
windows part start run width (suc rounds) offset best =
    let window = take width (drop offset run) in
    windows part start run width rounds (offset + 1) (
      if ltb (count_distinct window) min_distinct_bytes
      then best
      else if is_better (window_score window) best
      then some (record {
        score = window_score window;
        part = part;
        start = start + offset;
        width = width;
      })
      else best)

unfoldable pub best_in_run : ℕ → ℕ → Bytes → Option Best → Option Best
unfolding windows
best_in_run part start run best =
    let width = min (length run) max_anchor in
    if leb min_anchor (length run)
    then windows part start run width (length run - width + 1) 0 best
    else best

-- The loop over `start` inside one part, on the bytes from there on. Each round takes one at least,
-- so that their number is enough fuel.
unfoldable pub best_in_part : ℕ → ℕ → ℕ → List Wanted → Option Best → Option Best
unfolding best_in_run fixed_run
best_in_part zero part start wanted best = best
best_in_part (suc fuel) part start [] best = best
best_in_part (suc fuel) part start (none ∷ wanted) best =
    best_in_part fuel part (start + 1) wanted best
best_in_part (suc fuel) part start (some byte ∷ wanted) best =
    let run = byte ∷ fixed_run wanted in
    best_in_part fuel part (start + length run) (drop (length run) (some byte ∷ wanted))
      (best_in_run part start run best)

-- The loop over the parts, with the index of the next one.
unfoldable pub best_from : ℕ → List Part → Option Best → Option Best
unfolding best_in_part
best_from index [] best = best
best_from index (gap _ _ ∷ parts) best = best_from (index + 1) parts best
best_from index (bytes wanted ∷ parts) best =
    best_from (index + 1) parts (best_in_part (length wanted) index 0 wanted best)

unfoldable pub best_anchor : List Part → Option Best
unfolding best_from
best_anchor parts = best_from 0 parts none

-- `Signature::anchor`; it is called of signatures whose anchor's part is a run of bytes.
unfoldable pub anchor : Signature → Bytes
unfolding fixed_run
anchor s = elim (get_elem? s.parts s.anchor_part) [
  | some (bytes wanted) ↦ fixed_run (take s.anchor_len (drop s.anchor_start wanted))
  | _ ↦ []
]
