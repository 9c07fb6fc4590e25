-- ===== src/Pattern/Judge.antt =====
-- src/clamdb/pattern.rs: the end of `scan_counting`, which judges the logical signatures that have
-- a piece in the file, and the scan as a whole.
pub mod Lowest
pub mod Tidy
pub mod Clean
pub mod Backed
pub mod Sound
use blackshard.Prelude.{
  ℕ, zero, suc, ◌+◌, Bool, true, false, not, ◌&&◌, ◌||◌, List, [], ◌∷◌, ◌++◌, Option, none, some,
  ltb, leb, ◌==◌, if◌then◌else◌, length, get_elem?, get_or, map, set, replicate,
}
use blackshard.Prelude.Bytes.{Bytes, to_ascii_lowercase}
use blackshard.Logical.{Expr, holds, saturating_add}
use blackshard.Pattern.{Signature, Context}
use blackshard.Pattern.Layout.{read_layout}
use blackshard.Pattern.Pieces.{SizeRange}
use blackshard.Pattern.Set.{Logical, PatternSet}
use blackshard.Pattern.Users.{PieceUsers, of, build_users}
use blackshard.Pattern.Scan.{
  Groups, group_anchors, patterns_of, Scratch, clear, prepare, Scanning, try_hits,
}

-- A logical signature becomes a candidate once.
abbrev pub mark : ℕ → Scratch → Scratch
mark user s =
    if get_or s.marked user false
    then s
    else record s { marked = set s.marked user true; candidates = s.candidates ++ (user ∷ []) }

unfoldable pub mark_users : List ℕ → Scratch → Scratch
mark_users [] s = s
mark_users (user ∷ users) s = mark_users users (mark user s)

-- The loop over the pieces that were touched.
unfoldable pub mark_touched : PieceUsers → List ℕ → Scratch → Scratch
unfolding mark_users
mark_touched users [] s = s
mark_touched users (piece ∷ pieces) s = mark_touched users pieces (mark_users (of users piece) s)

-- One logical signature's counts by sub-signature.
unfoldable pub gather : List ℕ → List ℕ → List ℕ → List ℕ → List ℕ
gather counts [] slots gathered = gathered
gather counts (piece ∷ pieces) [] gathered = gathered
gather counts (piece ∷ pieces) (slot ∷ slots) gathered =
    gather counts pieces slots
      (set gathered slot (saturating_add (get_or gathered slot 0) (get_or counts piece 0)))

abbrev pub size_fits : SizeRange → ℕ → Bool
size_fits none file_size = true
size_fits (some (least, most)) file_size = leb least file_size && leb file_size most

-- Whether a logical signature holds for the counts of a scan of a file of the given size.
unfoldable pub logical_holds : ℕ → List ℕ → Logical → Bool
unfolding gather
logical_holds file_size counts l =
    size_fits l.file_size file_size
    && holds (gather counts l.pieces l.slot_of (replicate l.slots 0)) l.expression

abbrev pub holds_at : List Logical → ℕ → List ℕ → ℕ → Bool
holds_at logicals file_size counts candidate = elim (get_elem? logicals candidate) [
  | none ↦ false
  | some l ↦ logical_holds file_size counts l
]

abbrev pub is_below : Option ℕ → ℕ → Bool
is_below none candidate = false
is_below (some best) candidate = ltb best candidate

-- The loop over the candidates: the lowest index that holds is kept.
unfoldable pub lowest : (ℕ → Bool) → List ℕ → Option ℕ → Option ℕ
lowest holds [] found = found
lowest holds (candidate ∷ candidates) found =
    lowest holds candidates (
      if is_below found candidate then found else if holds candidate then some candidate else found)

abbrev pub name_at : List Logical → Option ℕ → Option Bytes
name_at logicals none = none
name_at logicals (some k) = elim (get_elem? logicals k) [ none ↦ none | some l ↦ some l.name ]

-- The result of a scan, the scratch it leaves, and what it adds to the counts of hits and checks.
pub record Scanned : Type 0 where
  pub found : Option Bytes
  pub scratch : Scratch
  pub hits : ℕ
  pub verified : ℕ

abbrev pub scanned : Scanning → Option Bytes → Scratch → Scanned
scanned st found scratch = record {
  found = found;
  scratch = clear scratch;
  hits = st.hits;
  verified = st.verified;
}

-- What follows the loop over the hits.
unfoldable pub conclude : PatternSet → PieceUsers → Context → Scanning → Scanned
unfolding mark_touched lowest clear
conclude set users c st = elim st.verdict [
  | some verdict ↦ scanned st verdict st.scratch
  | none ↦
      let marked = mark_touched users st.scratch.touched st.scratch in
      let found = lowest (holds_at set.logicals c.file_size marked.counts) marked.candidates none in
      scanned st (name_at set.logicals found) marked
]

abbrev pub start_scan : PatternSet → Scratch → Scanning
start_scan set s = record {
  scratch = prepare (length set.signatures) (length set.logicals) s;
  steps = 0;
  hits = 0;
  verified = 0;
  verdict = none;
}

-- The automaton over the anchors: whether it can be built, and what it finds in a text.
pub record Automaton : Type 0 where
  pub builds : List Bytes → Bool
  pub find : List Bytes → Bytes → List (ℕ × ℕ)

abbrev pub context : Bytes → ℕ → Bool → Context
context text file_size truncated = record {
  text = text;
  file_size = file_size;
  truncated = truncated;
  layout = read_layout text;
}

-- The set as `build` leaves it: the anchors in groups and the users of the pieces.
abbrev pub groups_of : PatternSet → Groups
groups_of set = group_anchors 0 set.signatures []

-- With no anchors, or no automaton, nothing is found and the scratch is not used.
unfoldable pub scan_counting : Automaton → PatternSet → Bytes → ℕ → Bool → Scratch → Scanned
unfolding conclude try_hits prepare group_anchors build_users
scan_counting a set text file_size truncated s =
    let groups = groups_of set in
    if length groups == 0 || not (a.builds (patterns_of groups))
    then record { found = none; scratch = s; hits = 0; verified = 0 }
    else conclude set (build_users (length set.signatures) set.logicals)
        (context text file_size truncated)
        (try_hits set.signatures (context text file_size truncated) groups
          (a.find (patterns_of groups) (to_ascii_lowercase text)) (start_scan set s))

-- `PatternSet::len`
unfoldable pub bodies : List Signature → ℕ
bodies [] = 0
bodies (s ∷ signatures) = (if s.piece then 0 else 1) + bodies signatures

unfoldable pub len : PatternSet → ℕ
unfolding bodies
len set = bodies set.signatures + length set.logicals
