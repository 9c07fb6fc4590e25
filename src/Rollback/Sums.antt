-- ===== src/Rollback/Sums.antt =====
-- The bytes of the files in the index of src/rollback.rs, before and after a change of it.
use blackshard.Prelude.{
  ℕ, ◌+◌, ◌≡◌, ◌≢◌, refl, sym, ◌∙◌, subst, inl, inr, List, [], ◌∷◌, ◌++◌, none, arith, Bool-cases,
}
use mathlib.Core.Logic.{if_pos, if_neg}
use blackshard.Prelude.Maps.{lookup, insert, remove, IsDistinct}
use blackshard.Rollback.{
  ProcessKey, process_discrete, SavedFile, size_of, or_default, is_old, keep_new, freed_by,
  keep_if_any, keep_new_all, freed,
}

-- A copy that was claimed and has not ended.

unfoldable pub saved_bytes : List (ProcessKey × List SavedFile) → ℕ
saved_bytes [] = 0
saved_bytes ((_, files) ∷ m) = size_of files + saved_bytes m

pub size_of-append :
    (files : List SavedFile) (f : SavedFile) → size_of (files ++ (f ∷ [])) ≡ size_of files + f.size
unfolding size_of
size_of-append [] f = omega arith
size_of-append (g ∷ files) f = omega (arith, size_of-append files f)

abbrev pub found : ProcessKey → List (ProcessKey × List SavedFile) → List SavedFile
found k m = or_default [] (lookup process_discrete k m)

pub insert-bytes :
    (k : ProcessKey) (files : List SavedFile) (m : List (ProcessKey × List SavedFile))
    → saved_bytes (insert process_discrete k files m)
      ≡ size_of files + saved_bytes (remove process_discrete k m)
unfolding insert saved_bytes
insert-bytes k files m = refl

saved_bytes-absent :
    (k : ProcessKey) (m : List (ProcessKey × List SavedFile))
    → lookup process_discrete k m ≡ none
    → saved_bytes (remove process_discrete k m) ≡ saved_bytes m
unfolding lookup remove saved_bytes
saved_bytes-absent k [] h = refl
saved_bytes-absent k ((j, files) ∷ m) h = ground (arith, saved_bytes-absent k m)

pub saved_bytes-remove :
    (k : ProcessKey) (m : List (ProcessKey × List SavedFile))
    → IsDistinct process_discrete m
    → saved_bytes m ≡ size_of (found k m) + saved_bytes (remove process_discrete k m)
unfolding lookup remove saved_bytes size_of
saved_bytes-remove k [] d = omega arith
saved_bytes-remove k ((j, files) ∷ m) d = elim (process_discrete j k) [
  | yes p ↦
      let gone : lookup process_discrete k m ≡ none =
        subst (λ x. lookup process_discrete x m ≡ none) p d.0 in
      rw (if_pos (process_discrete j k) p, if_pos (process_discrete j k) p)
        (omega (arith, saved_bytes-absent k m gone))
  | no n ↦
      rw (if_neg (process_discrete j k) n, if_neg (process_discrete j k) n)
        (omega (arith, saved_bytes-remove k m d.1))
]

keep_new-freed :
    (now : ℕ) (files : List SavedFile)
    → size_of (keep_new now files) + freed_by now files ≡ size_of files
unfolding size_of keep_new freed_by
keep_new-freed now [] = omega arith
keep_new-freed now (f ∷ files) = elim (Bool-cases (is_old now f)) [
  | inl e ↦ rw e (omega (arith, keep_new-freed now files))
  | inr e ↦ rw e (omega (arith, keep_new-freed now files))
]

keep_if_any-bytes :
    (k : ProcessKey) (files : List SavedFile) (rest : List (ProcessKey × List SavedFile))
    → saved_bytes (keep_if_any k files rest) ≡ size_of files + saved_bytes rest
unfolding saved_bytes size_of
keep_if_any-bytes k [] rest = omega arith
keep_if_any-bytes k (f ∷ files) rest = refl

pub keep_new_all-freed :
    (now : ℕ) (m : List (ProcessKey × List SavedFile))
    → saved_bytes (keep_new_all now m) + freed now m ≡ saved_bytes m
unfolding saved_bytes keep_new_all freed
keep_new_all-freed now [] = omega arith
keep_new_all-freed now ((k, files) ∷ m) = omega (
  arith,
  keep_if_any-bytes k (keep_new now files) (keep_new_all now m),
  keep_new-freed now files,
  keep_new_all-freed now m,
)

keep_if_any-absent :
    (q k : ProcessKey) (files : List SavedFile) (rest : List (ProcessKey × List SavedFile))
    → k ≢ q
    → lookup process_discrete q rest ≡ none
    → lookup process_discrete q (keep_if_any k files rest) ≡ none
unfolding lookup
keep_if_any-absent q k [] rest n h = h
keep_if_any-absent q k (f ∷ files) rest n h = if_neg (process_discrete k q) n _ _ ∙ h

keep_new_all-absent :
    (now : ℕ) (q : ProcessKey) (m : List (ProcessKey × List SavedFile))
    → lookup process_discrete q m ≡ none
    → lookup process_discrete q (keep_new_all now m) ≡ none
unfolding lookup keep_new_all
keep_new_all-absent now q [] h = refl
keep_new_all-absent now q ((k, files) ∷ m) h = elim (process_discrete k q) [
  | yes p ↦ absurd (ground arith)
  | no n ↦
      keep_if_any-absent q k (keep_new now files) (keep_new_all now m) n
        (keep_new_all-absent now q m (sym (if_neg (process_discrete k q) n _ _) ∙ h))
]

keep_if_any-IsDistinct :
    (k : ProcessKey) (files : List SavedFile) (rest : List (ProcessKey × List SavedFile))
    → lookup process_discrete k rest ≡ none
    → IsDistinct process_discrete rest
    → IsDistinct process_discrete (keep_if_any k files rest)
keep_if_any-IsDistinct k [] rest h d = d
keep_if_any-IsDistinct k (f ∷ files) rest h d = (h, d)

pub keep_new_all-IsDistinct :
    (now : ℕ) (m : List (ProcessKey × List SavedFile))
    → IsDistinct process_discrete m
    → IsDistinct process_discrete (keep_new_all now m)
unfolding keep_new_all
keep_new_all-IsDistinct now [] d = d
keep_new_all-IsDistinct now ((k, files) ∷ m) d =
    keep_if_any-IsDistinct k (keep_new now files) (keep_new_all now m)
      (keep_new_all-absent now k m d.0) (keep_new_all-IsDistinct now m d.1)
