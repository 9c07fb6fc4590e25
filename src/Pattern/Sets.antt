-- ===== src/Pattern/Sets.antt =====
-- The invariant of a pattern set, which every line that is added keeps.
use Prim.Native.String.{String}
use blackshard.Prelude.{
  ℕ, Option, some, none, if◌then◌else◌, ◌≡◌, refl, List, [], ◌∷◌, ◌++◌, length, All, All-append,
  All-map, if_split, map, ltb, ◌==◌, ◌||◌, not,
}
use blackshard.Prelude.Bytes.{Bytes}
use blackshard.Prelude.Results.{Result, ok, error, Yields, Yields-bind, ◌>>=◌}
use blackshard.Prelude.Text.{split, trim}
use blackshard.Pattern.{Target, Signature}
use blackshard.Pattern.Lines.{Parsed, kept, unsupported, too_weak, parse_line}
use blackshard.Logical.{Expr, required_bytes}
use blackshard.Logical.Parser.{parse as parse_expression}
use blackshard.Pattern.Pieces.{SizeRange, parse_piece, parse_target_block}
use blackshard.Pattern.Usable.{IsUsable, IsBody, Kept, parse_line-IsBody}
use blackshard.Pattern.Usable.Piece.{parse_piece-AllUsable}
use blackshard.Pattern.Set.{
  PieceKey, PatternSet, PatternStats, Stored, parse_pieces, add_logical, logical_fields,
  parse_logical, ingest_parsed, ingest, ingest_result, ingest_logical, store_all, or_unsupported,
  with_block, max_logical_subsignatures, uses_all, first_fixed, floor_of,
}
use blackshard.Pattern.Shared.{
  Holds, Stand, all_numbered, Holds-append, Stand-append_sigs, store_all-IsStored, Stand-store_all,
}
use blackshard.Pattern.Described.{
  AreVariants, Describes, Described, Described-map, Described-snoc, Describes-map,
}

-- A set to which the lines of logical signatures were added.
pub record IsPatternSet (lines : List Bytes) (set : PatternSet) : Type 0 where
  pub usable : All IsUsable set.signatures
  pub indexed : All (λ (entry : PieceKey × ℕ). Holds set.signatures entry.0 entry.1) set.piece_index
  pub logicals : Described set.signatures lines set.logicals

abbrev Good : List Bytes → Result Parsed PatternSet → Type 0
Good lines r = Yields (IsPatternSet lines) (λ _. Unit {0}) r

abbrev Built : Bytes → Target → List Bytes → List (List Signature) → Type 0
Built name target fields built = AreVariants name target fields built × All (All IsUsable) built

parse_pieces-Built :
    (name : Bytes) (target : Target) (fields : List Bytes)
    → Yields (Built name target fields) (λ _. Unit {0}) (parse_pieces name target fields)
unfolding parse_pieces
parse_pieces-Built name target [] = (tt, tt)
parse_pieces-Built name target (field ∷ fields) =
    Yields-bind (All IsUsable) _ (λ _. Unit {0}) (parse_piece name target (trim field)) _
      (parse_piece-AllUsable name target (trim field))
      (λ variants e u.
        Yields-bind (Built name target fields) _ (λ _. Unit {0}) (parse_pieces name target fields) _
          (parse_pieces-Built name target fields) (λ built _ h. ((e, h.0), (u, h.1))))

-- What a line gives, once its pieces are stored: for the closing step of each function.
abbrev Describing : Bytes → Bytes → SizeRange → Expr → ℕ → List (List Signature) → Type 0
Describing line name file_size expression slots built =
    (sigs : List Signature) (pieces slot_of : List ℕ)
    → Stand sigs pieces slot_of (all_numbered 0 built)
    → Describes sigs line (record {
      name = name;
      file_size = file_size;
      expression = expression;
      slots = slots;
      pieces = pieces;
      slot_of = slot_of;
    })

or_unsupported-some :
    {A : Type 0} (reason : String) (o : Option A) (a : A)
    → or_unsupported reason o ≡ ok a
    → o ≡ some a
or_unsupported-some reason none a h = cc h
or_unsupported-some reason (some b) a h = cc h

module _ (line : Bytes) (lines : List Bytes) where
  add_logical-IsPatternSet :
      (name : Bytes) (file_size : SizeRange) (expression : Expr) (slots : ℕ)
      (built : List (List Signature)) (set : PatternSet)
      → Describing line name file_size expression slots built
      → All (All IsUsable) built
      → IsPatternSet lines set
      → IsPatternSet (lines ++ (line ∷ [])) (add_logical name file_size expression slots built set)
  add_logical-IsPatternSet name file_size expression slots built set describing u h =
      let first : Stored = record {
        signatures = set.signatures;
        piece_index = set.piece_index;
        pieces = [];
        slot_of = [];
      } in
      let stored =
        store_all-IsStored 0 built [] first u
          (record { usable = h.usable; indexed = h.indexed; stand = tt }) in
      let end = store_all 0 built first in
      record {
        usable = stored.usable;
        indexed = stored.indexed;
        logicals =
            Described-snoc end.signatures lines set.logicals line _
              (Described-map set.signatures end.signatures lines set.logicals
                (λ other l.
                  Describes-map set.signatures end.signatures other l
                    (λ variants. Stand-store_all l.pieces l.slot_of variants 0 built first))
                h.logicals)
              (describing end.signatures end.pieces end.slot_of stored.stand);
      }

  -- A step of which only the value is known.
  after_step :
      {A : Type 0} (r : Result Parsed A) (f : A → Result Parsed PatternSet)
      → ((a : A) → r ≡ ok a → Good (lines ++ (line ∷ [])) (f a))
      → Good (lines ++ (line ∷ [])) (r >>= f)
  after_step (ok a) f g = g a refl
  after_step (error e) f g = tt

  with_block-Good :
      (name block text : Bytes) (subs : List Bytes) (set : PatternSet) (at : Target × SizeRange)
      → split b';' (trim line) ≡ name ∷ block ∷ text ∷ subs
      → parse_target_block (trim block) ≡ some at
      → IsPatternSet lines set
      → Good (lines ++ (line ∷ [])) (with_block (trim name) text subs set at)
  with_block-Good name block text subs set (target, file_size) e limited h =
      after_step (or_unsupported "ldb: expression form" (parse_expression (trim text))) _
        (λ expression x.
          if_split (Good (lines ++ (line ∷ []))) (not (uses_all expression (length subs))) tt (
            Yields-bind (Built (trim name) target subs) (IsPatternSet (lines ++ (line ∷ [])))
              (λ _. Unit {0}) (parse_pieces (trim name) target subs) _
              (parse_pieces-Built (trim name) target subs)
              (λ built _ b.
                if_split (Good (lines ++ (line ∷ [])))
                  (ltb (required_bytes (map first_fixed built) expression) (floor_of expression)) tt
                  (add_logical-IsPatternSet (trim name) file_size expression (length subs) built set
                    (λ sigs pieces slot_of stand. record {
                      name = name;
                      block = block;
                      text = text;
                      subs = subs;
                      fields = e;
                      target = target;
                      named = refl;
                      limited = limited;
                      expressed = or_unsupported-some _ (parse_expression (trim text)) expression x;
                      counted = refl;
                      built = built;
                      variants = b.0;
                      stand = stand;
                    })
                    b.1 h))))

  logical_fields-Good :
      (fields : List Bytes) (set : PatternSet)
      → split b';' (trim line) ≡ fields
      → IsPatternSet lines set
      → Good (lines ++ (line ∷ [])) (logical_fields fields set)
  logical_fields-Good [] set e h = tt
  logical_fields-Good (name ∷ []) set e h = tt
  logical_fields-Good (name ∷ block ∷ []) set e h = tt
  logical_fields-Good (name ∷ block ∷ text ∷ []) set e h = tt
  logical_fields-Good (name ∷ block ∷ text ∷ sub ∷ subs) set e h =
      if_split (Good (lines ++ (line ∷ [])))
        (ltb max_logical_subsignatures (length (sub ∷ subs)) || length (trim name) == 0) tt
        (after_step (or_unsupported "ldb: target block condition" (parse_target_block (trim block)))
          _
          (λ at x.
            with_block-Good name block text (sub ∷ subs) set at e
              (or_unsupported-some _ (parse_target_block (trim block)) at x) h))

  ingest_result-IsPatternSet :
      (r : Result Parsed PatternSet) (set : PatternSet) (stats : PatternStats)
      → IsPatternSet lines set
      → Good (lines ++ (line ∷ [])) r
      → IsPatternSet
          (if (ingest_result r set stats).2 then lines ++ (line ∷ []) else lines)
          (ingest_result r set stats).0
  ingest_result-IsPatternSet (ok next) set stats h g = g
  ingest_result-IsPatternSet (error too_weak) set stats h g = h
  ingest_result-IsPatternSet (error (unsupported reason)) set stats h g = h
  ingest_result-IsPatternSet (error (kept s)) set stats h g = h

ingest_parsed-IsPatternSet :
    (lines : List Bytes) (p : Parsed) (set : PatternSet) (stats : PatternStats)
    → IsPatternSet lines set
    → Kept IsBody p
    → IsPatternSet lines (ingest_parsed p set stats).0
ingest_parsed-IsPatternSet lines (kept s) set stats h k = record {
  usable = All-append IsUsable set.signatures (s ∷ []) h.usable (k.0, tt);
  indexed =
      All-map (λ (entry : PieceKey × ℕ). Holds set.signatures entry.0 entry.1) _
        (λ entry. Holds-append set.signatures (s ∷ []) entry.0 entry.1) set.piece_index h.indexed;
  logicals =
      Described-map set.signatures (set.signatures ++ (s ∷ [])) lines set.logicals
        (λ line l.
          Describes-map set.signatures (set.signatures ++ (s ∷ [])) line l
            (λ variants. Stand-append_sigs set.signatures (s ∷ []) l.pieces l.slot_of variants))
        h.logicals;
}
ingest_parsed-IsPatternSet lines (unsupported reason) set stats h k = h
ingest_parsed-IsPatternSet lines too_weak set stats h k = h

-- Whatever line is added, of either kind, every signature has an anchor to find it by and an offset
-- that fits its target, and the index leads to pieces with the indexed key; the logical signatures
-- are those of the lines that were taken, in order: each has the name, the limits, the expression
-- and the number of sub-signatures of its line, and its pieces have the target, the offset, the
-- parts and the modifiers of the variants of the line's sub-signatures, one piece for each variant
-- in the slot of its sub-signature.
pub ingest-IsPatternSet :
    (line : Bytes) (lines : List Bytes) (set : PatternSet) (stats : PatternStats)
    → IsPatternSet lines set
    → IsPatternSet lines (ingest line set stats).0
      × IsPatternSet
          (if (ingest_logical line set stats).2 then lines ++ (line ∷ []) else lines)
          (ingest_logical line set stats).0
unfolding ingest ingest_logical parse_logical
ingest-IsPatternSet line lines set stats h = (
  ingest_parsed-IsPatternSet lines (parse_line line) set stats h (parse_line-IsBody line),
  ingest_result-IsPatternSet line lines (parse_logical line set) set stats h
      (logical_fields-Good line lines (split b';' (trim line)) set refl h),
)
