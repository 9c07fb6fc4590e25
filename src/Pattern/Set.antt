-- ===== src/Pattern/Set.antt =====
-- src/clamdb/pattern.rs: `PatternSet` and how lines are added to it. A piece that is there already
-- is shared.
use Prim.Native.String.{String}
use text.Mathlib.Text.{◌==◌ as str_eq}
use native.Mathlib.Decide.{ℕ_discrete}
use blackshard.Prelude.{
  ℕ, zero, suc, ◌+◌, Bool, true, false, not, ◌&&◌, ◌||◌, List, [], ◌∷◌, ◌++◌, Option, none, some,
  ltb, ◌==◌, if◌then◌else◌, length, map,
}
use blackshard.Prelude.Int.{ℤ-discrete}
use blackshard.Prelude.Bytes.{Bytes}
use blackshard.Prelude.Maps.{lookup}
use blackshard.Prelude.Results.{Result, ok, error, ◌>>=◌}
use blackshard.Prelude.Text.{split, trim}
use blackshard.Logical.{Expr, seen, subsignatures, required_bytes}
use blackshard.Logical.Parser.{parse as parse_expression, sort, dedup}
use blackshard.Pattern.{Target, Offset, Part, Signature}
use blackshard.Pattern.Anchor.{min_fixed_bytes}
use blackshard.Pattern.Lines.{Parsed, kept, unsupported, too_weak, parse_line}
use blackshard.Pattern.Pieces.{SizeRange, fixed_bytes_narrow, parse_target_block, parse_piece}

pub record Logical : Type 0 where
  pub name : Bytes
  pub file_size : SizeRange
  pub expression : Expr
  pub slots : ℕ
  pub pieces : List ℕ
  pub slot_of : List ℕ

pub record PieceKey : Type 0 where
  pub target : Target
  pub offset : Offset
  pub parts : List Part
  pub fold : Bool
  pub fullword : Bool

unfoldable pub piece_key_discrete : Discrete PieceKey
piece_key_discrete = hlevel (ℕ_discrete, ℤ-discrete)

-- What lines add to. The automaton and the users of the pieces are built from it (Pattern/Users).
pub record PatternSet : Type 0 where
  pub signatures : List Signature
  pub logicals : List Logical
  pub piece_index : List (PieceKey × ℕ)

abbrev pub empty_set : PatternSet
empty_set = record { signatures = []; logicals = []; piece_index = [] }

pub record PatternStats : Type 0 where
  pub loaded : ℕ
  pub unsupported : ℕ
  pub too_weak : ℕ
  pub reasons : List (String × ℕ)

-- `*reasons.entry(reason).or_default() += 1`
unfoldable pub count_reason : String → List (String × ℕ) → List (String × ℕ)
count_reason reason [] = (reason, 1) ∷ []
count_reason reason ((other, n) ∷ reasons) =
    if str_eq other reason
    then (other, n + 1) ∷ reasons
    else (other, n) ∷ count_reason reason reasons

abbrev pub add_loaded : PatternStats → PatternStats
add_loaded stats = record stats { loaded = stats.loaded + 1 }

abbrev pub add_unsupported : String → PatternStats → PatternStats
add_unsupported reason stats = record stats {
  unsupported = stats.unsupported + 1;
  reasons = count_reason reason stats.reasons;
}

abbrev pub add_too_weak : PatternStats → PatternStats
add_too_weak stats = record stats { too_weak = stats.too_weak + 1 }

abbrev pub Ingested : Type 0
Ingested = PatternSet × PatternStats × Bool

abbrev pub ingest_parsed : Parsed → PatternSet → PatternStats → Ingested
ingest_parsed (kept s) set stats =
    (record set { signatures = set.signatures ++ (s ∷ []) }, add_loaded stats, true)
ingest_parsed (unsupported reason) set stats = (set, add_unsupported reason stats, false)
ingest_parsed too_weak set stats = (set, add_too_weak stats, false)

unfoldable pub ingest : Bytes → PatternSet → PatternStats → Ingested
unfolding count_reason parse_line
ingest line set stats = ingest_parsed (parse_line line) set stats

-- `MAX_LOGICAL_SUBSIGNATURES` and `MIN_LOGICAL_FIXED_BYTES`
abbrev pub max_logical_subsignatures : ℕ
max_logical_subsignatures = 64

abbrev pub min_logical_fixed_bytes : ℕ
min_logical_fixed_bytes = 16

unfoldable pub numbers_from : ℕ → ℕ → List ℕ
numbers_from zero first = []
numbers_from (suc n) first = first ∷ numbers_from n (first + 1)

unfoldable pub numbers_eq : List ℕ → List ℕ → Bool
numbers_eq [] [] = true
numbers_eq [] (_ ∷ _) = false
numbers_eq (_ ∷ _) [] = false
numbers_eq (n ∷ ns) (m ∷ ms) = n == m && numbers_eq ns ms

-- `used != (0..subsignatures)`, turned round: every sub-signature is used, and no other.
unfoldable pub uses_all : Expr → ℕ → Bool
unfolding numbers_from numbers_eq
uses_all expression subsignatures_count =
    numbers_eq (dedup (sort (subsignatures expression))) (numbers_from subsignatures_count 0)

unfoldable pub parse_pieces : Bytes → Target → List Bytes → Result Parsed (List (List Signature))
unfolding trim parse_piece
parse_pieces name target [] = ok []
parse_pieces name target (field ∷ fields) = do
  variants ← parse_piece name target (trim field)
  rest ← parse_pieces name target fields
  ok (variants ∷ rest)

abbrev pub first_fixed : List Signature → ℕ
first_fixed [] = 0
first_fixed (s ∷ _) = fixed_bytes_narrow s.parts

abbrev pub floor_of : Expr → ℕ
floor_of (seen _) = min_fixed_bytes
floor_of _ = min_logical_fixed_bytes

-- The signatures, their index, and what the logical signature refers to so far.
pub record Stored : Type 0 where
  pub signatures : List Signature
  pub piece_index : List (PieceKey × ℕ)
  pub pieces : List ℕ
  pub slot_of : List ℕ

abbrev pub key_of : Signature → PieceKey
key_of s = record {
  target = s.target;
  offset = s.offset;
  parts = s.parts;
  fold = s.fold;
  fullword = s.fullword;
}

-- One variant of the piece that stands for the sub-signature `slot`.
unfoldable pub store_piece : ℕ → Signature → Stored → Stored
unfolding piece_key_discrete lookup
store_piece slot s st =
    let next = length st.signatures in
    let shared = record st { slot_of = st.slot_of ++ (slot ∷ []) } in
    elim (lookup piece_key_discrete (key_of s) st.piece_index) [
      | some id ↦ record shared {
        signatures =
            if id == next
            then st.signatures ++ (record s { piece = true; name = [] } ∷ [])
            else st.signatures;
        pieces = st.pieces ++ (id ∷ []);
      }
      | none ↦ record shared {
        signatures = st.signatures ++ (record s { piece = true; name = [] } ∷ []);
        piece_index = (key_of s, next) ∷ st.piece_index;
        pieces = st.pieces ++ (next ∷ []);
      }
    ]

unfoldable pub store_variants : ℕ → List Signature → Stored → Stored
unfolding store_piece
store_variants slot [] st = st
store_variants slot (s ∷ variants) st = store_variants slot variants (store_piece slot s st)

unfoldable pub store_all : ℕ → List (List Signature) → Stored → Stored
unfolding store_variants
store_all slot [] st = st
store_all slot (variants ∷ built) st = store_all (slot + 1) built (store_variants slot variants st)

abbrev pub add_logical :
    Bytes → SizeRange → Expr → ℕ → List (List Signature) → PatternSet → PatternSet
add_logical name file_size expression slots built set =
    let st = store_all 0 built (record {
      signatures = set.signatures;
      piece_index = set.piece_index;
      pieces = [];
      slot_of = [];
    }) in
    record {
      signatures = st.signatures;
      piece_index = st.piece_index;
      logicals =
          set.logicals
          ++ (record {
            name = name;
            file_size = file_size;
            expression = expression;
            slots = slots;
            pieces = st.pieces;
            slot_of = st.slot_of;
          }
              ∷ []);
    }

abbrev pub or_unsupported : {A : Type 0} → String → Option A → Result Parsed A
or_unsupported reason none = error (unsupported reason)
or_unsupported reason (some a) = ok a

-- The last steps of `parse_logical`, from the pieces on.
abbrev pub store_if_strong :
    Bytes → SizeRange → Expr → ℕ → PatternSet → List (List Signature) → Result Parsed PatternSet
store_if_strong name file_size expression slots set built =
    if ltb (required_bytes (map first_fixed built) expression) (floor_of expression)
    then error too_weak
    else ok (add_logical name file_size expression slots built set)

abbrev pub with_expression :
    Bytes → List Bytes → PatternSet → Target × SizeRange → Expr → Result Parsed PatternSet
with_expression name fields set (target, file_size) expression =
    if not (uses_all expression (length fields))
    then error (unsupported "ldb: pieces and expression disagree")
    else (do
      built ← parse_pieces name target fields
      store_if_strong name file_size expression (length fields) set built)

abbrev pub with_block :
    Bytes → Bytes → List Bytes → PatternSet → Target × SizeRange → Result Parsed PatternSet
with_block name text fields set block = do
  expression ← or_unsupported "ldb: expression form" (parse_expression (trim text))
  with_expression name fields set block expression

-- The fields are name, target block, expression and the sub-signatures, of which there is one at
-- least.
abbrev pub logical_fields : List Bytes → PatternSet → Result Parsed PatternSet
logical_fields (name ∷ block ∷ text ∷ sub ∷ subs) set =
    if ltb max_logical_subsignatures (length (sub ∷ subs)) || length (trim name) == 0
    then error (unsupported "ldb: malformed or too many pieces")
    else (do
      at ← or_unsupported "ldb: target block condition" (parse_target_block (trim block))
      with_block (trim name) text (sub ∷ subs) set at)
logical_fields _ set = error (unsupported "ldb: malformed or too many pieces")

unfoldable pub parse_logical : Bytes → PatternSet → Result Parsed PatternSet
unfolding split trim parse_target_block uses_all parse_pieces store_all fixed_bytes_narrow
parse_logical line set = logical_fields (split b';' (trim line)) set

abbrev pub ingest_result : Result Parsed PatternSet → PatternSet → PatternStats → Ingested
ingest_result (ok next) set stats = (next, add_loaded stats, true)
ingest_result (error too_weak) set stats = (set, add_too_weak stats, false)
ingest_result (error (unsupported reason)) set stats = (set, add_unsupported reason stats, false)
ingest_result (error (kept _)) set stats = (set, stats, false)

unfoldable pub ingest_logical : Bytes → PatternSet → PatternStats → Ingested
unfolding count_reason parse_logical
ingest_logical line set stats = ingest_result (parse_logical line set) set stats
