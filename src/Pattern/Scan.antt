-- ===== src/Pattern/Scan.antt =====
-- src/clamdb/pattern.rs: `Anchors::build`, the scratch counters and `scan_counting`. The automaton
-- is a parameter: `find` gives the occurrences of the patterns in a text, as the index of a
-- pattern and where it starts, in the order in which they are reported.
use blackshard.Prelude.{
  ℕ, ◌+◌, ◌*◌, Bool, true, false, not, ◌&&◌, ◌||◌, List, [], ◌∷◌, ◌++◌, Option, none, some, ltb,
  ◌==◌, if◌then◌else◌, length, get_elem?, get_or, map, set, replicate,
}
use blackshard.Prelude.Bytes.{Bytes, to_ascii_lowercase, bytes_eq}
use blackshard.Logical.{saturating_add}
use blackshard.Pattern.{Signature, Context, applies_to}
use blackshard.Pattern.Verify.{verify, max_verify_steps}
use blackshard.Pattern.Anchor.{anchor}

-- Each pattern with the signatures that it is the anchor of, in the order of first appearance.
abbrev pub Groups : Type 0
Groups = List (Bytes × List ℕ)

unfoldable pub add_anchor : Bytes → ℕ → Groups → Groups
unfolding bytes_eq
add_anchor pattern index [] = (pattern, index ∷ []) ∷ []
add_anchor pattern index ((other, indexes) ∷ groups) =
    if bytes_eq other pattern
    then (other, indexes ++ (index ∷ [])) ∷ groups
    else (other, indexes) ∷ add_anchor pattern index groups

-- The anchors of the signatures from the index on.
unfoldable pub group_anchors : ℕ → List Signature → Groups → Groups
unfolding add_anchor anchor to_ascii_lowercase
group_anchors index [] groups = groups
group_anchors index (s ∷ signatures) groups =
    group_anchors (index + 1) signatures (add_anchor (to_ascii_lowercase (anchor s)) index groups)

abbrev pub patterns_of : Groups → List Bytes
patterns_of groups = map (λ (group : Bytes × List ℕ). group.0) groups

pub record Scratch : Type 0 where
  pub counts : List ℕ
  pub touched : List ℕ
  pub marked : List Bool
  pub candidates : List ℕ

-- `*count = 0` for each of the pieces.
unfoldable pub zero_at : List ℕ → List ℕ → List ℕ
zero_at [] counts = counts
zero_at (piece ∷ pieces) counts = zero_at pieces (set counts piece 0)

unfoldable pub unmark : List ℕ → List Bool → List Bool
unmark [] marked = marked
unmark (candidate ∷ candidates) marked = unmark candidates (set marked candidate false)

unfoldable pub clear : Scratch → Scratch
unfolding zero_at unmark
clear s = record {
  counts = zero_at s.touched s.counts;
  touched = [];
  marked = unmark s.candidates s.marked;
  candidates = [];
}

unfoldable pub prepare : ℕ → ℕ → Scratch → Scratch
unfolding clear
prepare pieces logicals s =
    let cleared = clear s in
    record cleared {
      counts = if length cleared.counts == pieces then cleared.counts else replicate pieces 0;
      marked =
          if length cleared.marked == logicals then cleared.marked else replicate logicals false;
    }

-- What a scan keeps while it goes through the hits. `verdict` is set when a body signature matches
-- or the scan gives up.
pub record Scanning : Type 0 where
  pub scratch : Scratch
  pub steps : ℕ
  pub hits : ℕ
  pub verified : ℕ
  pub verdict : Option (Option Bytes)

-- One more match of a piece.
abbrev pub count_match : ℕ → Scratch → Scratch
count_match index s =
    let seen = get_or s.counts index 0 in
    record s {
      touched = if seen == 0 then s.touched ++ (index ∷ []) else s.touched;
      counts = set s.counts index (saturating_add seen 1);
    }

-- The check of the steps that ends the round of the loop.
abbrev pub give_up : Scanning → Scanning
give_up st = if ltb (max_verify_steps * 16) st.steps then record st { verdict = some none } else st

abbrev pub after_verify : ℕ → Signature → Bool × ℕ → Scanning → Scanning
after_verify index s (true, steps) st =
    if s.piece
    then give_up (record st { steps = steps; scratch = count_match index st.scratch })
    else record st { steps = steps; verdict = some (some s.name) }
after_verify index s (false, steps) st = give_up (record st { steps = steps })

-- The body of the loop for the signature at the index, which exists.
unfoldable pub try_signature : Context → ℕ → ℕ → Signature → Scanning → Scanning
try_signature c start index s st =
    let hit = record st { hits = st.hits + 1 } in
    if not (applies_to s.target c.text) || (s.piece && c.truncated)
    then hit
    else after_verify index s (verify s c start st.steps)
        (record hit { verified = st.verified + 1 })

-- Once there is a verdict nothing more is tried.
unfoldable pub try_index : List Signature → Context → ℕ → ℕ → Scanning → Scanning
try_index sigs c start index st = elim st.verdict [
  | some verdict ↦ st
  | none ↦ elim (get_elem? sigs index) [ none ↦ st | some s ↦ try_signature c start index s st ]
]

unfoldable pub try_group : List Signature → Context → ℕ → List ℕ → Scanning → Scanning
unfolding try_index
try_group sigs c start [] st = st
try_group sigs c start (index ∷ indexes) st =
    try_group sigs c start indexes (try_index sigs c start index st)

abbrev pub group_at : Groups → ℕ → List ℕ
group_at groups i = elim (get_elem? groups i) [ none ↦ [] | some group ↦ group.1 ]

unfoldable pub try_hits : List Signature → Context → Groups → List (ℕ × ℕ) → Scanning → Scanning
unfolding try_group
try_hits sigs c groups [] st = st
try_hits sigs c groups ((group, start) ∷ hits) st =
    try_hits sigs c groups hits (try_group sigs c start (group_at groups group) st)
