-- ===== src/Prelude/Maps.antt =====
-- Finite maps: an association list under a decidable equality of keys (a hash map, whose order no
-- caller may rely on), and one kept in the order of its number keys (an ordered map).
use Prim.Native.Nat.{ℕ, suc, ◌<◌}
use mathlib.Core.Path.{◌≡◌, refl, ap, sym, ◌∙◌, subst₂}
use mathlib.Core.Logic.{◌≢◌, ite, if_pos, if_neg}
use mathlib.Core.List.{List, [], ◌∷◌, ◌++◌}
use mathlib.Core.Option.{Option, none, some, some-injective}
use native.Mathlib.Omega.{arith}
use blackshard.Prelude.Lists.{length, All}
use blackshard.Prelude.Tests.{ltb, ◌==◌, if◌then◌else◌}

module _ {ℓ} {K V : Type ℓ} (dec : Discrete K) where
  unfoldable pub lookup : K → List (K × V) → Option V
  lookup k [] = none
  lookup k ((j, v) ∷ m) = ite (dec j k) (some v) (lookup k m)

  unfoldable pub remove : K → List (K × V) → List (K × V)
  remove k [] = []
  remove k ((j, v) ∷ m) = ite (dec j k) (remove k m) ((j, v) ∷ remove k m)

  unfoldable pub insert : K → V → List (K × V) → List (K × V)
  insert k v m = (k, v) ∷ remove k m

  -- No key stands twice.
  abbrev pub IsDistinct : List (K × V) → Type ℓ
  IsDistinct [] = Unit
  IsDistinct ((k, v) ∷ m) = (lookup k m ≡ none) × IsDistinct m

  pub lookup-remove_self : (k : K) (m : List (K × V)) → lookup k (remove k m) ≡ none
  unfolding lookup remove
  lookup-remove_self k [] = refl
  lookup-remove_self k ((j, v) ∷ m) = ground (arith, lookup-remove_self k m)

  pub lookup-remove_ne : (k q : K) (m : List (K × V)) → k ≢ q → lookup q (remove k m) ≡ lookup q m
  unfolding lookup remove
  lookup-remove_ne k q [] n = refl
  lookup-remove_ne k q ((j, v) ∷ m) n = ground (arith, lookup-remove_ne k q m)

  pub remove_absent : (k : K) (m : List (K × V)) → lookup k m ≡ none → remove k m ≡ m
  unfolding lookup remove
  remove_absent k [] h = refl
  remove_absent k ((j, v) ∷ m) h = ground (arith, remove_absent k m)

  pub remove-IsDistinct : (k : K) (m : List (K × V)) → IsDistinct m → IsDistinct (remove k m)
  unfolding lookup remove
  remove-IsDistinct k [] h = h
  remove-IsDistinct k ((j, v) ∷ m) h = elim (dec j k) [
    | yes p ↦ rw (if_pos _ p) (remove-IsDistinct k m h.1)
    | no n ↦
        rw (if_neg _ n) (lookup-remove_ne k j m (λ e. n (sym e)) ∙ h.0, remove-IsDistinct k m h.1)
  ]

  pub length-remove :
      (k : K) (m : List (K × V)) (v : V)
      → IsDistinct m
      → lookup k m ≡ some v
      → suc (length (remove k m)) ≡ length m
  unfolding lookup remove
  length-remove k [] v d h = ground arith
  length-remove k ((j, w) ∷ m) v d h = ground (arith, length-remove k m v d.1, remove_absent k m)

  pub lookup-append :
      (k : K) (m n : List (K × V))
      → lookup k (m ++ n) ≡ elim (lookup k m) [ none ↦ lookup k n | some v ↦ some v ]
  unfolding lookup
  lookup-append k [] n = refl
  lookup-append k ((j, v) ∷ m) n = ground (arith, lookup-append k m n)

  pub append-IsDistinct :
      (k : K) (v : V) (m : List (K × V))
      → IsDistinct m
      → lookup k m ≡ none
      → IsDistinct (m ++ (k, v) ∷ [])
  unfolding lookup
  append-IsDistinct k v [] d h = (refl, tt)
  append-IsDistinct k v ((j, w) ∷ m) d h =
      (ground (arith, lookup-append j m ((k, v) ∷ [])), append-IsDistinct k v m d.1 (ground arith))

  pub remove-All : (P : K × V → Type ℓ) (k : K) (m : List (K × V)) → All P m → All P (remove k m)
  unfolding remove
  remove-All P k [] h = h
  remove-All P k ((j, v) ∷ m) h = elim (dec j k) [
    | yes p ↦ rw (if_pos _ p) (remove-All P k m h.1)
    | no n ↦ rw (if_neg _ n) (h.0, remove-All P k m h.1)
  ]

module _ {ℓ} {K V : Type ℓ} (dec : Discrete K) where
  pub lookup-insert_self :
      (k : K) (v : V) (m : List (K × V)) → lookup dec k (insert dec k v m) ≡ some v
  unfolding lookup insert
  lookup-insert_self k v m = if_pos (dec k k) refl _ _

  pub lookup-insert_ne :
      (k q : K) (v : V) (m : List (K × V))
      → k ≢ q
      → lookup dec q (insert dec k v m) ≡ lookup dec q m
  unfolding lookup insert
  lookup-insert_ne k q v m n = rw (if_neg (dec k q) n) (lookup-remove_ne dec k q m n)

  pub insert-IsDistinct :
      (k : K) (v : V) (m : List (K × V)) → IsDistinct dec m → IsDistinct dec (insert dec k v m)
  unfolding insert
  insert-IsDistinct k v m d = (lookup-remove_self dec k m, remove-IsDistinct dec k m d)

  pub length-insert_absent :
      (k : K) (v : V) (m : List (K × V))
      → lookup dec k m ≡ none
      → length (insert dec k v m) ≡ suc (length m)
  unfolding insert
  length-insert_absent k v m h = ap (λ l. suc (length l)) (remove_absent dec k m h)

  pub lookup-append_self :
      (k : K) (v : V) (m : List (K × V))
      → lookup dec k m ≡ none
      → lookup dec k (m ++ (k, v) ∷ []) ≡ some v
  unfolding lookup
  lookup-append_self k v m h =
      rw (lookup-append dec k m ((k, v) ∷ []), h) (if_pos (dec k k) refl _ _)

  pub lookup-append_ne :
      (k q : K) (v : V) (m : List (K × V))
      → k ≢ q
      → lookup dec q (m ++ (k, v) ∷ []) ≡ lookup dec q m
  unfolding lookup
  lookup-append_ne k q v m n = ground (arith, lookup-append dec q m ((k, v) ∷ []))

  pub remove_head :
      (k : K) (v : V) (m : List (K × V)) → lookup dec k m ≡ none → remove dec k ((k, v) ∷ m) ≡ m
  unfolding remove
  remove_head k v m h = if_pos (dec k k) refl _ _ ∙ remove_absent dec k m h

  -- An old value of the key leaves no trace.
  pub insert-remove :
      (k : K) (v : V) (m : List (K × V)) → insert dec k v (remove dec k m) ≡ insert dec k v m
  unfolding insert
  insert-remove k v m =
      ap (◌∷◌ (k, v)) (remove_absent dec k (remove dec k m) (lookup-remove_self dec k m))

-- An ordered map: the pairs in the order of their keys.
module _ {ℓ} {V : Type ℓ} where
  unfoldable pub ordered_insert : ℕ → V → List (ℕ × V) → List (ℕ × V)
  ordered_insert t v [] = (t, v) ∷ []
  ordered_insert t v ((s, w) ∷ m) =
      if ltb t s
      then (t, v) ∷ (s, w) ∷ m
      else if t == s
      then (t, v) ∷ m
      else (s, w) ∷ ordered_insert t v m

  -- A key above all others goes to the end.
  pub ordered_insert_last :
      (t : ℕ) (v : V) (m : List (ℕ × V))
      → All (λ p. p.0 < t) m
      → ordered_insert t v m ≡ m ++ (t, v) ∷ []
  unfolding ordered_insert
  ordered_insert_last t v [] h = refl
  ordered_insert_last t v ((s, w) ∷ m) h = ground (arith, ordered_insert_last t v m h.1)

module _ {ℓ} {K V : Type ℓ} (dec : Discrete K) where
  -- What is found has the property that all pairs have.
  pub lookup-All :
      (P : K × V → Type ℓ) (k : K) (v : V) (m : List (K × V))
      → All P m
      → lookup dec k m ≡ some v
      → P (k, v)
  unfolding lookup
  lookup-All P k v [] a h = absurd (ground arith)
  lookup-All P k v ((j, w) ∷ m) a h = elim (dec j k) [
    | yes p ↦
        let q : w ≡ v = some-injective _ _ (sym (if_pos (dec j k) p _ _) ∙ h) in
        subst₂ (λ x y. P (x, y)) p q a.0
    | no n ↦ lookup-All P k v m a.1 (sym (if_neg (dec j k) n _ _) ∙ h)
  ]
