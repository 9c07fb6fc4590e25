-- ===== src/Vba/Copies.antt =====
-- What a copy token of src/vba.rs adds to the output: the bytes that came `distance` before, the
-- copied ones included.
use native.Mathlib.Decide.{ℕ_discrete}
use blackshard.Prelude.{
  ℕ, zero, suc, ◌+◌, ◌-◌, ◌≤◌, ◌<◌, ◌≡◌, refl, sym, ap, ◌∙◌, inl, inr, [], ◌∷◌, ◌++◌, some, length,
  get_elem?, length-append, get_elem?-append_left, get_elem?-append_right, append_assoc, append_nil,
  subst, arith, Option-cases,
}
use blackshard.Prelude.Bytes.{Bytes}
use blackshard.Prelude.Results.{ok}
use blackshard.Vba.{copy}
use blackshard.Vba.Steps.{get_elem?-none, inside}

-- `o` continues the output by `n` bytes, each that of `distance` places before.
pub record Repeats (distance : ℕ) (output : Bytes) (n : ℕ) (o : Bytes) : Type 0 where
  pub added : Bytes
  pub extends : o ≡ output ++ added
  pub counted : length added ≡ n
  pub equal_back :
      (i : ℕ) → length output ≤ i → i < length o → get_elem? o i ≡ get_elem? o (i - distance)

-- What the output held stays at its place.
Repeats-old :
    (distance n : ℕ) (output o : Bytes) (i : ℕ)
    → Repeats distance output n o
    → i < length output
    → get_elem? o i ≡ get_elem? output i
Repeats-old distance n output o i r h =
    ap (λ l. get_elem? l i) r.extends ∙ get_elem?-append_left output r.added i h

-- The first byte added is the one `distance` places before it.
Repeats-first :
    (distance n v : ℕ) (output o : Bytes)
    → 0 < distance
    → distance ≤ length output
    → get_elem? output (length output - distance) ≡ some v
    → Repeats distance (output ++ v ∷ []) n o
    → get_elem? o (length output) ≡ get_elem? o (length output - distance)
Repeats-first distance n v output o p d e r =
    let i : length output ≡ length output + 0 = omega arith in
    Repeats-old distance n (output ++ v ∷ []) o (length output) r
      (omega (arith, length-append output (v ∷ [])))
    ∙ ap (get_elem? (output ++ v ∷ [])) i
    ∙ get_elem?-append_right output (v ∷ []) 0
    ∙ sym e
    ∙ sym (get_elem?-append_left output (v ∷ []) (length output - distance) (omega arith))
    ∙ sym (
        Repeats-old distance n (output ++ v ∷ []) o (length output - distance) r
          (omega (arith, length-append output (v ∷ []))))

Repeats-next :
    (distance n v : ℕ) (output o : Bytes)
    → 0 < distance
    → distance ≤ length output
    → get_elem? output (length output - distance) ≡ some v
    → Repeats distance (output ++ v ∷ []) n o
    → Repeats distance output (suc n) o
Repeats-next distance n v output o p d e r = record {
  added = v ∷ r.added;
  extends = r.extends ∙ append_assoc output (v ∷ []) r.added;
  counted = ap suc r.counted;
  equal_back = λ i l h. elim (ℕ_discrete i (length output)) [
    | yes q ↦
        subst (λ k. get_elem? o k ≡ get_elem? o (k - distance)) (sym q)
          (Repeats-first distance n v output o p d e r)
    | no q ↦ r.equal_back i (ground (arith, length-append output (v ∷ []))) h
  ];
}

-- A copy from inside the output succeeds, and adds the given number of bytes, each equal to the one
-- `distance` places before it, also where it is itself a copy.
pub copy-Repeats :
    (distance n : ℕ) (output : Bytes)
    → 0 < distance
    → distance ≤ length output
    → (o : Bytes) × (copy distance n output ≡ ok o) × Repeats distance output n o
unfolding copy
copy-Repeats distance zero output p d = (
  output,
  refl,
  record {
    added = [];
    extends = sym (append_nil output);
    counted = refl;
    equal_back = λ i l h. absurd (omega arith);
  },
)
copy-Repeats distance (suc n) output p d =
    elim (Option-cases (get_elem? output (length output - distance))) [
      | inl e ↦ absurd (omega (arith, get_elem?-none output (length output - distance) e))
      | inr (v, e) ↦
          let (o, q, r) =
            copy-Repeats distance n (output ++ v ∷ []) p
              (omega (arith, length-append output (v ∷ []))) in
          (o, rw (inside output distance d, e) q, Repeats-next distance n v output o p d e r)
    ]
