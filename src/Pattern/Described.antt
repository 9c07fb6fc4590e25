-- ===== src/Pattern/Described.antt =====
-- The logical signatures of a set and the lines that they were read from, for
-- src/clamdb/pattern.rs.
use blackshard.Prelude.{ℕ, some, ◌≡◌, List, [], ◌∷◌, ◌++◌, length}
use blackshard.Prelude.Bytes.{Bytes}
use blackshard.Prelude.Results.{ok}
use blackshard.Prelude.Text.{split, trim}
use blackshard.Pattern.{Target, Signature}
use blackshard.Logical.Parser.{parse as parse_expression}
use blackshard.Pattern.Pieces.{parse_piece, parse_target_block}
use blackshard.Pattern.Set.{Logical}
use blackshard.Pattern.Shared.{Stand, all_numbered}

-- The variants of each sub-signature, in order.
abbrev pub AreVariants : Bytes → Target → List Bytes → List (List Signature) → Type 0
AreVariants name target [] [] = Unit {0}
AreVariants name target (field ∷ fields) (variants ∷ built) =
    (parse_piece name target (trim field) ≡ ok variants) × AreVariants name target fields built
AreVariants name target _ _ = ⊥

-- The logical signature is the one of the line: its fields are read from those of the line, and its
-- pieces stand for all variants of the line's sub-signatures, each with the slot of its own.
pub record Describes (sigs : List Signature) (line : Bytes) (l : Logical) : Type 0 where
  pub name : Bytes
  pub block : Bytes
  pub text : Bytes
  pub subs : List Bytes
  pub fields : split b';' (trim line) ≡ name ∷ block ∷ text ∷ subs
  pub target : Target
  pub named : l.name ≡ trim name
  pub limited : parse_target_block (trim block) ≡ some (target, l.file_size)
  pub expressed : parse_expression (trim text) ≡ some l.expression
  pub counted : l.slots ≡ length subs
  pub built : List (List Signature)
  pub variants : AreVariants (trim name) target subs built
  pub stand : Stand sigs l.pieces l.slot_of (all_numbered 0 built)

-- The logical signatures are those of the lines, in order.
abbrev pub Described : List Signature → List Bytes → List Logical → Type 0
Described sigs [] [] = Unit {0}
Described sigs (line ∷ lines) (l ∷ logicals) = Describes sigs line l × Described sigs lines logicals
Described sigs _ _ = ⊥

pub Described-map :
    (sigs more : List Signature) (lines : List Bytes) (logicals : List Logical)
    → ((line : Bytes) (l : Logical) → Describes sigs line l → Describes more line l)
    → Described sigs lines logicals
    → Described more lines logicals
Described-map sigs more [] [] f h = tt
Described-map sigs more [] (l ∷ logicals) f h = absurd h
Described-map sigs more (line ∷ lines) [] f h = absurd h
Described-map sigs more (line ∷ lines) (l ∷ logicals) f h =
    (f line l h.0, Described-map sigs more lines logicals f h.1)

pub Described-snoc :
    (sigs : List Signature) (lines : List Bytes) (logicals : List Logical) (line : Bytes)
    (l : Logical)
    → Described sigs lines logicals
    → Describes sigs line l
    → Described sigs (lines ++ (line ∷ [])) (logicals ++ (l ∷ []))
Described-snoc sigs [] [] line l h d = (d, tt)
Described-snoc sigs [] (m ∷ logicals) line l h d = absurd h
Described-snoc sigs (m ∷ lines) [] line l h d = absurd h
Described-snoc sigs (m ∷ lines) (n ∷ logicals) line l h d =
    (h.0, Described-snoc sigs lines logicals line l h.1 d)

-- Other signatures, in which the pieces still stand for the variants.
pub Describes-map :
    (sigs more : List Signature) (line : Bytes) (l : Logical)
    → ((variants : List (ℕ × Signature))
        → Stand sigs l.pieces l.slot_of variants
        → Stand more l.pieces l.slot_of variants)
    → Describes sigs line l
    → Describes more line l
Describes-map sigs more line l f d = record {
  name = d.name;
  block = d.block;
  text = d.text;
  subs = d.subs;
  fields = d.fields;
  target = d.target;
  named = d.named;
  limited = d.limited;
  expressed = d.expressed;
  counted = d.counted;
  built = d.built;
  variants = d.variants;
  stand = f (all_numbered 0 d.built) d.stand;
}
