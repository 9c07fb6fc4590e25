-- ===== src/Pattern/Shared.antt =====
-- The pieces that a logical signature refers to stand for its sub-signatures, whether they were
-- stored with it or shared with an earlier one.
use blackshard.Prelude.{
  ℕ, ◌+◌, ◌≡◌, refl, sym, ap, subst, ◌∙◌, inl, inr, true, false, List, [], ◌∷◌, ◌++◌, some, ◌==◌,
  append_nil, append_assoc, if_split, length, get_elem?, get_elem?-append_left,
  get_elem?-append_right, get_elem?-lt, arith, Option-cases, All, All-append, All-map,
}
use blackshard.Prelude.Maps.{lookup, lookup-All}
use blackshard.Pattern.{Signature}
use blackshard.Pattern.Usable.{IsUsable}
use blackshard.Pattern.Set.{
  PieceKey, piece_key_discrete, key_of, Stored, store_piece, store_variants, store_all,
}

-- The signature at the index is a piece with the given target, offset, parts and modifiers.
abbrev pub Holds : List Signature → PieceKey → ℕ → Type 0
Holds sigs key id =
    (s : Signature) × (get_elem? sigs id ≡ some s) × (key_of s ≡ key) × (s.piece ≡ true)

-- The second signature is a piece that occurs exactly where the first one does.
pub record IsPieceOf (s piece : Signature) : Type 0 where
  pub target : piece.target ≡ s.target
  pub offset : piece.offset ≡ s.offset
  pub parts : piece.parts ≡ s.parts
  pub fold : piece.fold ≡ s.fold
  pub fullword : piece.fullword ≡ s.fullword
  pub is_piece : piece.piece ≡ true

-- The signature at the index is a piece that stands for `s`.
abbrev pub StandsFor : List Signature → Signature → ℕ → Type 0
StandsFor sigs s id = (t : Signature) × (get_elem? sigs id ≡ some t) × IsPieceOf s t

Holds-StandsFor :
    (sigs : List Signature) (s : Signature) (id : ℕ)
    → Holds sigs (key_of s) id
    → StandsFor sigs s id
Holds-StandsFor sigs s id (t, e, k, p) = (
  t,
  e,
  record {
    target = ap (λ (key : PieceKey). key.target) k;
    offset = ap (λ (key : PieceKey). key.offset) k;
    parts = ap (λ (key : PieceKey). key.parts) k;
    fold = ap (λ (key : PieceKey). key.fold) k;
    fullword = ap (λ (key : PieceKey). key.fullword) k;
    is_piece = p;
  },
)

-- The pieces stand for the variants, and the slots are those of the variants.
abbrev pub Stand : List Signature → List ℕ → List ℕ → List (ℕ × Signature) → Type 0
Stand sigs [] [] [] = Unit {0}
Stand sigs (p ∷ pieces) (t ∷ slots) ((slot, s) ∷ variants) =
    StandsFor sigs s p × (t ≡ slot) × Stand sigs pieces slots variants
Stand sigs _ _ _ = ⊥

-- Every variant of a sub-signature, with the number of the sub-signature.
abbrev pub numbered : ℕ → List Signature → List (ℕ × Signature)
numbered slot [] = []
numbered slot (s ∷ variants) = (slot, s) ∷ numbered slot variants

abbrev pub all_numbered : ℕ → List (List Signature) → List (ℕ × Signature)
all_numbered slot [] = []
all_numbered slot (variants ∷ built) = numbered slot variants ++ all_numbered (slot + 1) built

pub Holds-append :
    (sigs more : List Signature) (key : PieceKey) (id : ℕ)
    → Holds sigs key id
    → Holds (sigs ++ more) key id
Holds-append sigs more key id (s, e, k, p) =
    (s, get_elem?-append_left sigs more id (get_elem?-lt sigs id s e) ∙ e, k, p)

StandsFor-append :
    (sigs more : List Signature) (s : Signature) (id : ℕ)
    → StandsFor sigs s id
    → StandsFor (sigs ++ more) s id
StandsFor-append sigs more s id (t, e, k) =
    (t, get_elem?-append_left sigs more id (get_elem?-lt sigs id t e) ∙ e, k)

pub Stand-append_sigs :
    (sigs more : List Signature) (pieces slots : List ℕ) (variants : List (ℕ × Signature))
    → Stand sigs pieces slots variants
    → Stand (sigs ++ more) pieces slots variants
Stand-append_sigs sigs more [] [] [] h = tt
Stand-append_sigs sigs more [] [] (v ∷ variants) h = h
Stand-append_sigs sigs more [] (t ∷ slots) variants h = h
Stand-append_sigs sigs more (p ∷ pieces) [] variants h = h
Stand-append_sigs sigs more (p ∷ pieces) (t ∷ slots) [] h = h
Stand-append_sigs sigs more (p ∷ pieces) (t ∷ slots) ((slot, s) ∷ variants) (a, b, c) =
    (StandsFor-append sigs more s p a, b, Stand-append_sigs sigs more pieces slots variants c)

-- One more piece at the end.
Stand-snoc :
    (sigs : List Signature) (pieces slots : List ℕ) (variants : List (ℕ × Signature)) (p slot : ℕ)
    (s : Signature)
    → Stand sigs pieces slots variants
    → StandsFor sigs s p
    → Stand sigs (pieces ++ (p ∷ [])) (slots ++ (slot ∷ [])) (variants ++ ((slot, s) ∷ []))
Stand-snoc sigs [] [] [] p slot s h k = (k, refl, tt)
Stand-snoc sigs [] [] (v ∷ variants) p slot s h k = absurd h
Stand-snoc sigs [] (t ∷ slots) variants p slot s h k = absurd h
Stand-snoc sigs (q ∷ pieces) [] variants p slot s h k = absurd h
Stand-snoc sigs (q ∷ pieces) (t ∷ slots) [] p slot s h k = absurd h
Stand-snoc sigs (q ∷ pieces) (t ∷ slots) ((v, w) ∷ variants) p slot s (a, b, c) k =
    (a, b, Stand-snoc sigs pieces slots variants p slot s c k)

pub record IsStored (variants : List (ℕ × Signature)) (st : Stored) : Type 0 where
  pub usable : All IsUsable st.signatures
  pub indexed : All (λ (entry : PieceKey × ℕ). Holds st.signatures entry.0 entry.1) st.piece_index
  pub stand : Stand st.signatures st.pieces st.slot_of variants

-- The new piece at the end of the signatures.
Holds-new :
    (sigs : List Signature) (s : Signature)
    → Holds (sigs ++ (record s { piece = true; name = [] } ∷ [])) (key_of s) (length sigs)
Holds-new sigs s =
    let piece = record s { piece = true; name = [] } in
    let e : length sigs ≡ length sigs + 0 = omega arith in
    (
      piece,
      ap (get_elem? (sigs ++ (piece ∷ []))) e ∙ get_elem?-append_right sigs (piece ∷ []) 0,
      refl,
      refl,
    )

piece-IsUsable : (s : Signature) → IsUsable s → IsUsable (record s { piece = true; name = [] })
piece-IsUsable s u = record { anchored = u.anchored; fits_target = u.fits_target }

store_piece-IsStored :
    (variants : List (ℕ × Signature)) (slot : ℕ) (s : Signature) (st : Stored)
    → IsUsable s
    → IsStored variants st
    → IsStored (variants ++ ((slot, s) ∷ [])) (store_piece slot s st)
unfolding store_piece
store_piece-IsStored variants slot s st u h =
    let new = record s { piece = true; name = [] } ∷ [] in
    let indexed' =
      All-map (λ (entry : PieceKey × ℕ). Holds st.signatures entry.0 entry.1)
        (λ (entry : PieceKey × ℕ). Holds (st.signatures ++ new) entry.0 entry.1)
        (λ entry k. Holds-append st.signatures new entry.0 entry.1 k) st.piece_index h.indexed in
    elim (Option-cases (lookup piece_key_discrete (key_of s) st.piece_index)) [
      | inl e ↦
          rw (e, store_piece)
            (record {
              usable = All-append IsUsable st.signatures new h.usable (piece-IsUsable s u, tt);
              indexed = (Holds-new st.signatures s, indexed');
              stand =
                  Stand-snoc (st.signatures ++ new) st.pieces st.slot_of variants
                    (length st.signatures) slot s
                    (Stand-append_sigs st.signatures new st.pieces st.slot_of variants h.stand)
                    (Holds-StandsFor (st.signatures ++ new) s (length st.signatures)
                      (Holds-new st.signatures s));
            })
      | inr (id, e) ↦
          let found =
            lookup-All piece_key_discrete
              (λ (entry : PieceKey × ℕ). Holds st.signatures entry.0 entry.1) (key_of s) id
              st.piece_index h.indexed e in
          let old : (id == length st.signatures) ≡ false =
            ground (arith, get_elem?-lt st.signatures id found.0 found.1) in
          rw (e, store_piece, old)
            (record {
              usable = h.usable;
              indexed = h.indexed;
              stand =
                  Stand-snoc st.signatures st.pieces st.slot_of variants id slot s h.stand
                    (Holds-StandsFor st.signatures s id found);
            })
    ]

pub store_variants-IsStored :
    (slot : ℕ) (new : List Signature) (variants : List (ℕ × Signature)) (st : Stored)
    → All IsUsable new
    → IsStored variants st
    → IsStored (variants ++ numbered slot new) (store_variants slot new st)
unfolding store_variants
store_variants-IsStored slot [] variants st u h =
    subst (λ vs. IsStored vs st) (sym (append_nil variants)) h
store_variants-IsStored slot (s ∷ new) variants st u h =
    subst (λ vs. IsStored vs (store_variants slot new (store_piece slot s st)))
      (append_assoc variants ((slot, s) ∷ []) (numbered slot new))
      (store_variants-IsStored slot new (variants ++ ((slot, s) ∷ [])) (store_piece slot s st) u.1
        (store_piece-IsStored variants slot s st u.0 h))

pub store_all-IsStored :
    (slot : ℕ) (built : List (List Signature)) (variants : List (ℕ × Signature)) (st : Stored)
    → All (All IsUsable) built
    → IsStored variants st
    → IsStored (variants ++ all_numbered slot built) (store_all slot built st)
unfolding store_all
store_all-IsStored slot [] variants st u h =
    subst (λ vs. IsStored vs st) (sym (append_nil variants)) h
store_all-IsStored slot (new ∷ built) variants st u h =
    let next = store_variants slot new st in
    subst (λ vs. IsStored vs (store_all (slot + 1) built next))
      (append_assoc variants (numbered slot new) (all_numbered (slot + 1) built))
      (store_all-IsStored (slot + 1) built (variants ++ numbered slot new) next u.1
        (store_variants-IsStored slot new variants st u.0 h))

-- Storing changes no signature that is there, so what stood for a piece still does.
module _ (pieces slots : List ℕ) (variants : List (ℕ × Signature)) where
  Stand-store_piece :
      (slot : ℕ) (s : Signature) (st : Stored)
      → Stand st.signatures pieces slots variants
      → Stand (store_piece slot s st).signatures pieces slots variants
  unfolding store_piece
  Stand-store_piece slot s st h =
      let more =
        Stand-append_sigs st.signatures (record s { piece = true; name = [] } ∷ []) pieces slots
          variants h in
      elim (Option-cases (lookup piece_key_discrete (key_of s) st.piece_index)) [
        | inl e ↦ rw (e, store_piece) more
        | inr (id, e) ↦
            rw (e, store_piece)
              (if_split (λ sigs. Stand sigs pieces slots variants) (id == length st.signatures) more
                h)
      ]

  Stand-store_variants :
      (slot : ℕ) (new : List Signature) (st : Stored)
      → Stand st.signatures pieces slots variants
      → Stand (store_variants slot new st).signatures pieces slots variants
  unfolding store_variants
  Stand-store_variants slot [] st h = h
  Stand-store_variants slot (s ∷ new) st h =
      Stand-store_variants slot new (store_piece slot s st) (Stand-store_piece slot s st h)

  pub Stand-store_all :
      (slot : ℕ) (built : List (List Signature)) (st : Stored)
      → Stand st.signatures pieces slots variants
      → Stand (store_all slot built st).signatures pieces slots variants
  unfolding store_all
  Stand-store_all slot [] st h = h
  Stand-store_all slot (new ∷ built) st h =
      Stand-store_all (slot + 1) built (store_variants slot new st)
        (Stand-store_variants slot new st h)
