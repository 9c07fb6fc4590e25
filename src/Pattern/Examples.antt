-- ===== src/Pattern/Examples.antt =====
-- The signatures of src/clamdb/pattern.rs on concrete lines and files, and the theorems at concrete
-- inputs. The automaton is a search at every position.
use blackshard.Prelude.{
  ℕ, ◌+◌, ◌≡◌, refl, ◌⊎◌, Bool, true, false, List, [], ◌∷◌, ◌++◌, Option, none, some, map,
  replicate, ◌%◌, arith, ◌==◌, if◌then◌else◌,
}
use blackshard.Prelude.Bytes.{Bytes, codes, to_ascii_lowercase, bytes_eq, starts_with}
use blackshard.Prelude.Options.{usize_max}
use blackshard.Prelude.Text.{split, split_once, trim, trim_start, digits_from, parse_unsigned}
use blackshard.Pattern.{Target, anywhere, bytes, gap, Signature, applies_to}
use blackshard.Pattern.Verify
use blackshard.Pattern.Verify.{verify}
use blackshard.Pattern.Hex
use blackshard.Pattern.Offsets
use blackshard.Pattern.Anchor
use blackshard.Pattern.Lines
use blackshard.Pattern.Lines.{kept, parse_line}
use blackshard.Pattern.Layout
use blackshard.Logical.{Expr}
use blackshard.Logical.Parser
use blackshard.Pattern.Set.{PatternSet, PatternStats, Logical, empty_set, ingest, ingest_logical}
use blackshard.Pattern.Sets
use blackshard.Pattern.Sets.{IsPatternSet}
use blackshard.Pattern.Found
use blackshard.Pattern.Found.{AnchoredAt}
use blackshard.Pattern.Budget
use blackshard.Pattern.Scan
use blackshard.Pattern.Users
use blackshard.Pattern.Users.{of, build_users}
use blackshard.Pattern.Users.Entries.{users_of, entries}
use blackshard.Pattern.Users.Sorted
use blackshard.Pattern.Judge
use blackshard.Pattern.Judge.{Automaton, scan_counting, context}
use blackshard.Pattern.Judge.Lowest
use blackshard.Pattern.Judge.Clean
use blackshard.Pattern.Judge.Clean.{new_scratch, Job, run_job, run_jobs}
use blackshard.Pattern.Judge.Sound
use blackshard.Pattern.Judge.Backed.{BodyFound, LogicalFound}

abbrev family_line : Bytes
family_line = codes "Win.Test.Family-1:0:*:deadbeef00112233"

abbrev fixed : List ℕ → List (Option ℕ)
fixed run = map some run

abbrev family_bytes : List ℕ
family_bytes = 0xde ∷ 0xad ∷ 0xbe ∷ 0xef ∷ 0x00 ∷ 0x11 ∷ 0x22 ∷ 0x33 ∷ []

abbrev family : Signature
family = record {
  name = codes "Win.Test.Family-1";
  target = Target.any;
  offset = record { base = anywhere; shift = 0 };
  parts = bytes (fixed family_bytes) ∷ [];
  anchor_part = 0;
  anchor_start = 0;
  anchor_len = 8;
  piece = false;
  fold = false;
  fullword = false;
}

parse_family : parse_line family_line ≡ kept family
unfolding parse_line Hex.parse_hex Hex.parse_parts Hex.hex_byte Hex.tidy_parts Hex.merge_from
    Hex.push_part Hex.drop_first_star Hex.drop_last_star Hex.last_is_bytes Lines.build_signature
    Lines.fixed_bytes_of Lines.count_fixed Lines.target_of Offsets.parse_offset Offsets.parse_base
    Anchor.best_anchor Anchor.best_from Anchor.best_in_part Anchor.best_in_run Anchor.windows
    Anchor.window_score Anchor.score_from Anchor.byte_weight Anchor.elem Anchor.count_distinct
    Anchor.fixed_run split split_once trim trim_start bytes_eq
parse_family = refl

-- The patterns that the text starts with, at the position.
abbrev found_here : ℕ → List Bytes → ℕ → Bytes → List (ℕ × ℕ)
found_here index [] at text = []
found_here index (p ∷ patterns) at text =
    (if starts_with text p then (index, at) ∷ [] else []) ++ found_here (index + 1) patterns at text

abbrev find_from : ℕ → List Bytes → Bytes → List (ℕ × ℕ)
find_from at patterns [] = []
find_from at patterns (c ∷ text) =
    found_here 0 patterns at (c ∷ text) ++ find_from (at + 1) patterns text

abbrev naive : Automaton
naive = record { builds = λ patterns. true; find = λ patterns text. find_from 0 patterns text }

abbrev family_set : PatternSet
family_set = record { signatures = family ∷ []; logicals = []; piece_index = [] }

abbrev infected : Bytes
infected = codes "AAAA" ++ (family_bytes ++ codes "B")

scan_infected :
    (scan_counting naive family_set infected 13 false new_scratch).found ≡ some family.name
unfolding scan_counting Judge.conclude Judge.mark_touched Judge.lowest Scan.try_hits Scan.try_group
    Scan.try_index Scan.try_signature Scan.prepare Scan.clear Scan.zero_at Scan.unmark
    Scan.group_anchors Scan.add_anchor Anchor.anchor Anchor.fixed_run Users.build_users verify
    Verify.verify_around Verify.match_left Verify.match_right Verify.bytes_match
    Verify.offset_allows Verify.on_word_boundaries Verify.max_verify_steps to_ascii_lowercase
    starts_with bytes_eq applies_to Layout.read_layout
scan_infected = refl

scan_counting-found_example :
    BodyFound family_set (context infected 13 false) family.name
    ⊎ LogicalFound family_set (context infected 13 false) family.name
scan_counting-found_example =
    Sound.scan_counting-found naive family_set infected 13 false family.name scan_infected

abbrev two_jobs : List Job
two_jobs =
    record { set = family_set; text = infected; file_size = 13; truncated = false }
    ∷ record { set = empty_set; text = infected; file_size = 13; truncated = true }
    ∷ []

run_jobs-fresh_example :
    run_jobs naive two_jobs new_scratch
    ≡ map (λ job. (run_job naive job new_scratch).found) two_jobs
run_jobs-fresh_example = Clean.run_jobs-fresh naive two_jobs

-- The same family with a gap: `deadbeef{2-4}00112233`.
abbrev gapped : Signature
gapped = record family {
  parts =
      bytes (fixed (0xde ∷ 0xad ∷ 0xbe ∷ 0xef ∷ []))
      ∷ gap 2 (some 4)
      ∷ bytes (fixed (0x00 ∷ 0x11 ∷ 0x22 ∷ 0x33 ∷ []))
      ∷ [];
  anchor_len = 4;
}

parse_gapped : Hex.parse_hex (codes "deadbeef{2-4}00112233") ≡ some gapped.parts
unfolding Hex.parse_hex Hex.parse_parts Hex.hex_byte Hex.tidy_parts Hex.merge_from Hex.push_part
    Hex.parse_range Hex.drop_first_star Hex.drop_last_star Hex.last_is_bytes
    Verify.max_unbounded_gap usize_max split_once parse_unsigned digits_from
parse_gapped = refl

abbrev with_gap : ℕ → Bytes
with_gap n =
    codes "A"
    ++ (0xde ∷ 0xad ∷ 0xbe ∷ 0xef ∷ [])
    ++ (replicate n 0x41 ++ (0x00 ∷ 0x11 ∷ 0x22 ∷ 0x33 ∷ []))

verify_gaps :
    (verify gapped (context (with_gap 1) 10 false) 1 0 ≡ (false, 15))
    × (verify gapped (context (with_gap 3) 12 false) 1 0 ≡ (true, 10))
    × (verify gapped (context (with_gap 5) 14 false) 1 0 ≡ (false, 15))
unfolding verify Verify.verify_around Verify.match_left Verify.match_right Verify.bytes_match
    Verify.offset_allows Verify.on_word_boundaries Verify.max_verify_steps Verify.max_unbounded_gap
    Layout.read_layout
verify_gaps = (refl, refl, refl)

verify-missed_example : ¬ AnchoredAt gapped (context (with_gap 5) 14 false) 1 1 14
unfolding Verify.max_verify_steps Verify.max_unbounded_gap
verify-missed_example =
    Found.verify-missed gapped (context (with_gap 5) 14 false)
      (fixed (0xde ∷ 0xad ∷ 0xbe ∷ 0xef ∷ [])) 1 0 1 14 refl refl refl (omega arith) (omega arith)
      (rw verify_gaps.2 (omega arith)) (rw verify_gaps.2 refl)

verify-spent_example : (verify gapped (context (with_gap 3) 12 false) 1 4_194_305).0 ≡ false
unfolding Verify.max_verify_steps
verify-spent_example =
    Budget.verify-spent 4_194_305 (omega arith) gapped (context (with_gap 3) 12 false) 1
      (omega arith)

empty-IsPatternSet : IsPatternSet [] empty_set
empty-IsPatternSet = record { usable = tt; indexed = tt; logicals = tt }

abbrev no_stats : PatternStats
no_stats = record { loaded = 0; unsupported = 0; too_weak = 0; reasons = [] }

abbrev both_line : Bytes
both_line = codes "Win.Test.Both;Target:0;0&1;6576696c70617978::wa;8877665544332211"

both_is_taken : (ingest_logical both_line empty_set no_stats).2 ≡ true
unfolding Parser.span_digits Parser.value_from Parser.number Parser.comparison Parser.insert_sorted
    Parser.sort Parser.dedup_after Parser.dedup Parser.single Parser.numbered Parser.atom
    Parser.joined Parser.finish Parser.sequence Parser.expression Parser.whole Parser.parse
    blackshard.Pattern.Pieces.widen blackshard.Pattern.Hex.parse_hex
    blackshard.Pattern.Anchor.best_anchor blackshard.Pattern.Set.ingest_logical
    blackshard.Logical.subsignatures blackshard.Logical.required_bytes
both_is_taken = refl

ingest-IsPatternSet_example :
    IsPatternSet [] (ingest both_line empty_set no_stats).0
    × IsPatternSet
        (if (ingest_logical both_line empty_set no_stats).2 then [] ++ (both_line ∷ []) else [])
        (ingest_logical both_line empty_set no_stats).0
ingest-IsPatternSet_example =
    Sets.ingest-IsPatternSet both_line [] empty_set no_stats empty-IsPatternSet

abbrev is_odd : ℕ → Bool
is_odd n = n % 2 == 1

lowest_order_example :
    Judge.lowest is_odd (4 ∷ 7 ∷ 5 ∷ []) none ≡ Judge.lowest is_odd (5 ∷ 4 ∷ 7 ∷ 5 ∷ []) none
unfolding Anchor.elem
lowest_order_example =
    Lowest.lowest_order is_odd (4 ∷ 7 ∷ 5 ∷ []) (5 ∷ 4 ∷ 7 ∷ 5 ∷ []) (λ c. ground arith)

abbrev logical_with : List ℕ → Logical
logical_with pieces = record {
  name = codes "L";
  file_size = none;
  expression = Expr.seen 0;
  slots = 1;
  pieces = pieces;
  slot_of = [];
}

abbrev three_logicals : List Logical
three_logicals =
    logical_with (2 ∷ 0 ∷ []) ∷ logical_with (1 ∷ []) ∷ logical_with (2 ∷ 1 ∷ 2 ∷ []) ∷ []

users_built :
    build_users 3 three_logicals
    ≡ record { starts = 0 ∷ 1 ∷ 3 ∷ 6 ∷ []; users = 0 ∷ 1 ∷ 2 ∷ 0 ∷ 2 ∷ 2 ∷ [] }
unfolding build_users
users_built = refl

of-build_users_example : of (build_users 3 three_logicals) 2 ≡ users_of 2 (entries 0 three_logicals)
of-build_users_example = Sorted.of-build_users 3 three_logicals 2 (omega arith) (omega arith)
