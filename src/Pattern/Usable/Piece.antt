-- ===== src/Pattern/Usable/Piece.antt =====
-- The signatures that a piece of a logical signature stands for are usable too.
use blackshard.Prelude.{
  ◌≡◌, inl, inr, false, not, ◌&&◌, List, [], ◌∷◌, Option, none, some, ltb, ◌==◌, map, length,
  Bool-cases, Option-cases, All, if_split,
}
use blackshard.Prelude.Bytes.{Bytes, codes, contains, starts_with}
use blackshard.Prelude.Results.{Result, ok, error, Yields, Yields-bind}
use blackshard.Pattern.{Target, Offset, bytes, Signature}
use blackshard.Pattern.Anchor.{best_anchor, min_anchor}
use blackshard.Pattern.Anchor.Window.{best_anchor-IsAnchor}
use blackshard.Pattern.Lines.{Parsed, kept, unsupported, too_weak, build_signature, needs_pe, is_pe}
use blackshard.Pattern.Pieces.{
  Modifiers, read_modifiers, one_signature, build_forms, forms_of, with_literal, with_modifiers,
  piece_offset, parse_body, parse_literal, split_modifiers, parse_piece,
}
use blackshard.Pattern.Usable.{
  IsUsable, IsBuilt, IsBuilt-IsUsable, Kept, Kept-weaken, build_signature-IsBuilt, fits,
}

-- All signatures of the result, if it has any.
abbrev pub AllUsable : Result Parsed (List Signature) → Type 0
AllUsable r = Yields (All IsUsable) (λ _. Unit {0}) r

Yields_any : {A : Type 0} (r : Result Parsed A) → Yields (λ _. Unit {0}) (λ _. Unit {0}) r
Yields_any (ok a) = tt
Yields_any (error e) = tt

one_signature-AllUsable :
    (p : Parsed) (change : Signature → Signature)
    → Kept (λ s. IsUsable (change s)) p
    → AllUsable (one_signature p change)
one_signature-AllUsable (kept s) change h = (h, tt)
one_signature-AllUsable (unsupported reason) change h = tt
one_signature-AllUsable too_weak change h = tt

module _ (name : Bytes) (target : Target) (offset : Offset)
    (right : (needs_pe offset.base && not (is_pe target)) ≡ false) where
  build_forms-AllUsable :
      (m : Modifiers) (forms : List Bytes) → AllUsable (build_forms name target offset m forms)
  unfolding build_forms
  build_forms-AllUsable m [] = tt
  build_forms-AllUsable m (form ∷ forms) =
      elim (Option-cases (best_anchor (bytes (map some form) ∷ []))) [
        | inl e ↦ rw (e, build_forms) tt
        | inr (best, e) ↦
            rw (e, build_forms)
              (Yields-bind (All IsUsable) (All IsUsable) (λ _. Unit {0})
                (build_forms name target offset m forms) _ (build_forms-AllUsable m forms)
                (λ rest _ h. (
                  record {
                    anchored = best_anchor-IsAnchor (bytes (map some form) ∷ []) best e;
                    fits_target = fits offset.base target right;
                  },
                  h,
                )))
      ]

  built-AllUsable :
      (hex : Bytes) (change : Signature → Signature)
      → ((s : Signature) → IsUsable s → IsUsable (change s))
      → AllUsable (one_signature (build_signature name target offset hex min_anchor) change)
  built-AllUsable hex change same =
      one_signature-AllUsable (build_signature name target offset hex min_anchor) change (
        Kept-weaken (IsBuilt name target offset min_anchor) (λ s. IsUsable (change s))
          (build_signature name target offset hex min_anchor)
          (λ s b. same s (IsBuilt-IsUsable name target offset min_anchor s right b))
          (build_signature-IsBuilt name target offset hex min_anchor))

  with_literal-AllUsable :
      (hex : Bytes) (m : Modifiers) (literal : Option Bytes)
      → AllUsable (with_literal name target offset hex m literal)
  with_literal-AllUsable hex m none = elim (Bool-cases m.wide) [
    | inl wide ↦ rw wide tt
    | inr narrow ↦ rw narrow (
        built-AllUsable hex (λ s. record s { fold = m.fold; fullword = m.fullword })
          (λ s u. record { anchored = u.anchored; fits_target = u.fits_target }))
  ]
  with_literal-AllUsable hex m (some literal) =
      elim (Bool-cases (ltb (length literal) min_anchor)) [
        | inl short ↦ rw short tt
        | inr long ↦ rw long (build_forms-AllUsable m (forms_of m literal))
      ]

  with_modifiers-AllUsable :
      (hex : Bytes) (modifiers : Option Bytes)
      → AllUsable (with_modifiers name target offset hex modifiers)
  with_modifiers-AllUsable hex none = built-AllUsable hex (λ s. s) (λ s u. u)
  with_modifiers-AllUsable hex (some modifiers) =
      Yields-bind (λ _. Unit {0}) (All IsUsable) (λ _. Unit {0}) (read_modifiers modifiers _) _
        (Yields_any (read_modifiers modifiers _))
        (λ m _ _. elim (Bool-cases (m.wide && m.fullword)) [
          | inl both ↦ rw both tt
          | inr one ↦ rw one (with_literal-AllUsable hex m (parse_literal hex))
        ])

parse_body-AllUsable :
    (name : Bytes) (target : Target) (parts : Bytes × Option Bytes)
    → AllUsable (parse_body name target parts)
parse_body-AllUsable name target (body, modifiers) =
    Yields-bind (λ _. Unit {0}) (All IsUsable) (λ _. Unit {0}) (piece_offset body) _
      (Yields_any (piece_offset body))
      (λ at _ _. elim (Bool-cases (needs_pe at.0.base && not (is_pe target))) [
        | inl wrong ↦ rw wrong tt
        | inr right ↦ rw right (with_modifiers-AllUsable name target at.0 right at.1 modifiers)
      ])

-- Whatever a piece is read as, each of its signatures has an anchor and an offset that fits.
pub parse_piece-AllUsable :
    (name : Bytes) (target : Target) (text : Bytes) → AllUsable (parse_piece name target text)
unfolding parse_piece
parse_piece-AllUsable name target text = if_split AllUsable (length text == 0) tt (
    if_split AllUsable (starts_with text (codes "/")) tt (
      if_split AllUsable (contains text (codes "$")) tt
        (parse_body-AllUsable name target (split_modifiers text))))
