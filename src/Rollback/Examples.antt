-- ===== src/Rollback/Examples.antt =====
-- A vault of src/rollback.rs at work, and a copy that ends after its program was restored.
use native.Mathlib.Decide.{ℕ_discrete}
use blackshard.Prelude.{◌+◌, ◌≡◌, ◌⊎◌, refl, Bool, true, false, if◌then◌else◌, [], ◌∷◌, some}
use blackshard.Prelude.Maps.{remove}
use blackshard.Prelude.Bytes.{Bytes, codes}
use blackshard.Rollback.{
  ProcessKey, process_discrete, SavedFile, Index, empty_index, claim, settle, take_saved, restore,
  purge_expired,
}
use blackshard.Rollback.System.{Flight, Vault, restored, claimed, settled, Reachable, start, step}
use blackshard.Rollback.Balance.{IsBalanced, Reachable-IsBalanced}

abbrev writer : ProcessKey
writer = (4242, 0xabcdef)

abbrev letter : Bytes
letter = codes "letter.docx"

abbrev photo : Bytes
photo = codes "photo.jpg"

abbrev saved_letter : SavedFile
saved_letter = record { id = 1; original = letter; sha256 = 77; size = 100; saved_at = 5 }

abbrev letter_claimed : Index
letter_claimed = (claim writer letter 100 empty_index).1

abbrev letter_saved : Index
letter_saved = record letter_claimed { by_process = (writer, saved_letter ∷ []) ∷ [] }

letter_is_settled :
    (checks : Bool) → settle checks writer 100 saved_letter letter_claimed ≡ (letter_saved, true)
unfolding claim settle process_discrete ℕ_discrete remove
letter_is_settled checks = refl

abbrev letter_flight : Flight
letter_flight = record { process = writer; path = letter; size = 100 }

letter_is_claimed : (claim writer letter 100 empty_index).0 ≡ true
unfolding claim process_discrete ℕ_discrete
letter_is_claimed = refl

-- The letter is put back.
letter_is_restored :
    (restore (λ f. some true) writer letter_saved).0
    ≡ record { restored = 1; unchanged = 0; failed = 0 }
unfolding restore process_discrete ℕ_discrete claim
letter_is_restored = refl

-- The program is restored while the letter is copied, and then claims another file: the count of
-- its bytes is below the size of the letter when that copy ends.
abbrev photo_claimed : Index
photo_claimed = (claim writer photo 1 (take_saved writer letter_claimed).1).1

-- With overflow checks, the thread panics after it has changed the total.
late_copy :
    settle true writer 100 saved_letter photo_claimed
    ≡ (record photo_claimed { total_bytes = 101 }, false)
unfolding claim settle take_saved process_discrete ℕ_discrete
late_copy = refl

-- Without them the count wraps round twice, and is too small.
late_copy_entered :
    (settle false writer 100 saved_letter photo_claimed).0.process_bytes ≡ (writer, 1) ∷ []
unfolding claim settle take_saved process_discrete ℕ_discrete remove
late_copy_entered = refl

abbrev late : Vault
late = record {
  index = (settle true writer 100 saved_letter photo_claimed).0;
  flights = record { process = writer; path = photo; size = 1 } ∷ [];
  lost = if (settle true writer 100 saved_letter photo_claimed).1 then 0 else 100 + 0;
}

photo_is_claimed : (claim writer photo 1 (take_saved writer letter_claimed).1).0 ≡ true
unfolding claim take_saved process_discrete ℕ_discrete
photo_is_claimed = refl

late-Reachable : Reachable true late
unfolding restore
late-Reachable =
    step _ _
      (step _ _
        (step _ _
          (step _ _ start (claimed writer letter 100 empty_index [] 0 refl letter_is_claimed))
          (restored (λ f. some true) writer letter_claimed (letter_flight ∷ []) 0))
        (claimed writer photo 1 (take_saved writer letter_claimed).1 (letter_flight ∷ []) 0 refl
          photo_is_claimed))
      (settled letter_flight saved_letter photo_claimed
        (record { process = writer; path = photo; size = 1 } ∷ []) [] 0)

Reachable-IsBalanced_example : IsBalanced late × ((late.lost ≡ 0) ⊎ (true ≡ true))
Reachable-IsBalanced_example = Reachable-IsBalanced true late late-Reachable

after_a_day : (purge_expired 86_400_000_000_000 letter_saved).by_process ≡ []
unfolding purge_expired claim process_discrete ℕ_discrete
after_a_day = refl
