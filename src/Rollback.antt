-- ===== src/Rollback.antt =====
-- src/rollback.rs: what the vault keeps of the copies that it made. The clock, the answers of the
-- file system, the new identifiers and what `restore_one` does are arguments. Times are in
-- nanoseconds; an identifier and a digest are numbers.
pub mod System
pub mod Sums
pub mod Balance
mod Examples
use blackshard.Prelude.{
  ℕ, zero, suc, ◌+◌, ◌-◌, ◌*◌, ◌%◌, ◌^◌, Bool, true, false, not, ◌&&◌, ◌||◌, List, [], ◌∷◌, ◌++◌,
  Option, none, some, ltb, leb, if◌then◌else◌, length,
}
use native.Mathlib.Decide.{ℕ_discrete}
use blackshard.Prelude.Maps.{lookup, insert, remove}
use blackshard.Prelude.Bytes.{Bytes, bytes_eq}

abbrev pub max_file_bytes : ℕ
max_file_bytes = 16 * 1024 * 1024

abbrev pub max_files_per_process : ℕ
max_files_per_process = 256

abbrev pub max_bytes_per_process : ℕ
max_bytes_per_process = 512 * 1024 * 1024

abbrev pub max_total_bytes : ℕ
max_total_bytes = 2 * 1024 * 1024 * 1024

abbrev pub max_age : ℕ
max_age = 6 * 60 * 60 * 10 ^ 9

abbrev pub ProcessKey : Type 0
ProcessKey = ℕ × ℕ

unfoldable pub process_discrete : Discrete ProcessKey
process_discrete = hlevel ℕ_discrete

-- `Entry`
pub record SavedFile : Type 0 where
  pub id : ℕ
  pub original : Bytes
  pub sha256 : ℕ
  pub size : ℕ
  pub saved_at : ℕ

pub record Index : Type 0 where
  pub by_process : List (ProcessKey × List SavedFile)
  pub claimed : List (ProcessKey × List Bytes)
  pub process_bytes : List (ProcessKey × ℕ)
  pub total_bytes : ℕ

abbrev pub empty_index : Index
empty_index = record { by_process = []; claimed = []; process_bytes = []; total_bytes = 0 }

abbrev pub or_default : {A : Type 0} → A → Option A → A
or_default a none = a
or_default a (some b) = b

unfoldable pub has_path : Bytes → List Bytes → Bool
unfolding bytes_eq
has_path path [] = false
has_path path (p ∷ paths) = bytes_eq path p || has_path path paths

unfoldable pub drop_path : Bytes → List Bytes → List Bytes
unfolding bytes_eq
drop_path path [] = []
drop_path path (p ∷ paths) =
    if bytes_eq path p then drop_path path paths else p ∷ drop_path path paths

-- The first part of `preserve`, under its lock: whether the copy may be made. `entry` leaves an empty
-- set of claims where there was none.
unfoldable pub claim : ProcessKey → Bytes → ℕ → Index → Bool × Index
unfolding lookup insert has_path
claim process path size index =
    let claims = or_default [] (lookup process_discrete process index.claimed) in
    let bytes = or_default 0 (lookup process_discrete process index.process_bytes) in
    let touched = record index { claimed = insert process_discrete process claims index.claimed } in
    if has_path path claims
      || leb max_files_per_process (length claims)
      || ltb max_bytes_per_process (bytes + size)
      || ltb max_total_bytes (index.total_bytes + size)
    then (false, touched)
    else (
      true,
      record index {
        claimed = insert process_discrete process (path ∷ claims) index.claimed;
        process_bytes = insert process_discrete process (bytes + size) index.process_bytes;
        total_bytes = index.total_bytes + size;
      },
    )

-- `a - size + copied` on `u64`: with overflow checks, as in a debug build, a step out of range is a
-- panic (none), and without them it wraps round.
abbrev pub adjusted : Bool → ℕ → ℕ → ℕ → Option ℕ
adjusted checks a size copied =
    if leb size a && ltb (a - size + copied) (2 ^ 64)
    then some (a - size + copied)
    else if checks
    then none
    else some ((a + 2 ^ 64 - size + copied) % 2 ^ 64)

-- The same for the total, which no disk brings near 2^64.
abbrev pub adjusted_total : Bool → ℕ → ℕ → ℕ → Option ℕ
adjusted_total checks a size copied =
    if leb size a
    then some (a - size + copied)
    else if checks
    then none
    else some ((a + 2 ^ 64 - size + copied) % 2 ^ 64)

-- The bytes of a program after a copy, if the program still has a count.
abbrev pub settle_bytes :
    Bool → ProcessKey → ℕ → ℕ → List (ProcessKey × ℕ) → Option ℕ → Option (List (ProcessKey × ℕ))
settle_bytes checks process size copied counts none = some counts
settle_bytes checks process size copied counts (some bytes) =
    elim (adjusted checks bytes size copied) [
      | none ↦ none
      | some after ↦ some (insert process_discrete process after counts)
    ]

-- The second part of `preserve`, after a copy was made, and whether it came to its end. A panic leaves
-- what was changed before it: the lock is taken again though it is poisoned.
unfoldable pub settle : Bool → ProcessKey → ℕ → SavedFile → Index → Index × Bool
unfolding lookup insert
settle checks process size file index =
    elim (adjusted_total checks index.total_bytes size file.size) [
      | none ↦ (index, false)
      | some total ↦
          let changed = record index { total_bytes = total } in
          elim (settle_bytes checks process size file.size index.process_bytes
            (lookup process_discrete process index.process_bytes)) [
              | none ↦ (changed, false)
              | some counts ↦ (
                record changed {
                  process_bytes = counts;
                  by_process =
                      insert process_discrete process
                        (or_default [] (lookup process_discrete process index.by_process)
                          ++ (file ∷ []))
                        index.by_process;
                },
                true,
              )
            ]
    ]

-- `get_mut`, for a value that is there.
abbrev pub update_found :
    {A : Type 0} → (A → A) → ProcessKey → List (ProcessKey × A) → Option A → List (ProcessKey × A)
update_found f process m none = m
update_found f process m (some a) = insert process_discrete process (f a) m

-- The same after a copy that failed.
unfoldable pub abandon : ProcessKey → Bytes → ℕ → Index → Index
unfolding lookup insert drop_path
abandon process path size index = record index {
  claimed =
      update_found (drop_path path) process index.claimed
        (lookup process_discrete process index.claimed);
  process_bytes =
      update_found (λ bytes. bytes - size) process index.process_bytes
        (lookup process_discrete process index.process_bytes);
  total_bytes = index.total_bytes - size;
}

-- Whether the file, if there is one of this size, is small enough: the check before the lock.
abbrev pub may_save : Option ℕ → Bool
may_save none = false
may_save (some size) = not (ltb max_file_bytes size)

unfoldable pub size_of : List SavedFile → ℕ
size_of [] = 0
size_of (f ∷ files) = f.size + size_of files

-- What `restore` takes out of the index before it puts the files back.
unfoldable pub take_saved : ProcessKey → Index → List SavedFile × Index
unfolding lookup remove size_of
take_saved process index =
    let files = or_default [] (lookup process_discrete process index.by_process) in
    (
      files,
      record {
        by_process = remove process_discrete process index.by_process;
        claimed = remove process_discrete process index.claimed;
        process_bytes = remove process_discrete process index.process_bytes;
        total_bytes = index.total_bytes - size_of files;
      },
    )

pub record RestoreSummary : Type 0 where
  pub restored : ℕ
  pub unchanged : ℕ
  pub failed : ℕ

-- `restore_one` gives whether the file was put back, or an error.
abbrev pub count_restore : Option Bool → RestoreSummary → RestoreSummary
count_restore (some true) s = record s { restored = s.restored + 1 }
count_restore (some false) s = record s { unchanged = s.unchanged + 1 }
count_restore none s = record s { failed = s.failed + 1 }

unfoldable pub restore_all :
    (SavedFile → Option Bool) → List SavedFile → RestoreSummary → RestoreSummary
restore_all restore_one [] s = s
restore_all restore_one (f ∷ files) s =
    restore_all restore_one files (count_restore (restore_one f) s)

unfoldable pub restore : (SavedFile → Option Bool) → ProcessKey → Index → RestoreSummary × Index
unfolding take_saved restore_all
restore restore_one process index =
    let taken = take_saved process index in
    (restore_all restore_one taken.0 (record { restored = 0; unchanged = 0; failed = 0 }), taken.1)

abbrev pub is_old : ℕ → SavedFile → Bool
is_old now f = ltb max_age (now - f.saved_at)

unfoldable pub keep_new : ℕ → List SavedFile → List SavedFile
keep_new now [] = []
keep_new now (f ∷ files) = if is_old now f then keep_new now files else f ∷ keep_new now files

unfoldable pub freed_by : ℕ → List SavedFile → ℕ
freed_by now [] = 0
freed_by now (f ∷ files) = if is_old now f then f.size + freed_by now files else freed_by now files

abbrev pub keep_if_any :
    ProcessKey
    → List SavedFile
    → List (ProcessKey × List SavedFile)
    → List (ProcessKey × List SavedFile)
keep_if_any process [] rest = rest
keep_if_any process (f ∷ files) rest = (process, f ∷ files) ∷ rest

unfoldable pub keep_new_all :
    ℕ → List (ProcessKey × List SavedFile) → List (ProcessKey × List SavedFile)
unfolding keep_new
keep_new_all now [] = []
keep_new_all now ((process, files) ∷ rest) =
    keep_if_any process (keep_new now files) (keep_new_all now rest)

unfoldable pub freed : ℕ → List (ProcessKey × List SavedFile) → ℕ
unfolding freed_by
freed now [] = 0
freed now ((process, files) ∷ rest) = freed_by now files + freed now rest

abbrev pub is_there : {A : Type 0} → Option A → Bool
is_there none = false
is_there (some a) = true

-- The pairs of programs that still have files.
unfoldable pub keep_live :
    {A : Type 0}
    → List (ProcessKey × List SavedFile)
    → List (ProcessKey × A)
    → List (ProcessKey × A)
unfolding lookup
keep_live live [] = []
keep_live live ((process, a) ∷ rest) =
    if is_there (lookup process_discrete process live)
    then (process, a) ∷ keep_live live rest
    else keep_live live rest

-- `purge_expired`
unfoldable pub purge_expired : ℕ → Index → Index
unfolding keep_new_all freed keep_live
purge_expired now index =
    let kept = keep_new_all now index.by_process in
    record {
      by_process = kept;
      claimed = keep_live kept index.claimed;
      process_bytes = keep_live kept index.process_bytes;
      total_bytes = index.total_bytes - freed now index.by_process;
    }
