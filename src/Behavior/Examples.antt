-- ===== src/Behavior/Examples.antt =====
-- The monitor of src/behavior.rs on concrete processes: tests of the source, and the theorems at
-- concrete inputs. The fingerprint of a path depends on its length.
use native.Mathlib.Decide.{ℕ_discrete}
use blackshard.Prelude.{
  ℕ, zero, suc, ◌-◌, ◌≤◌, ◌≡◌, ◌⊎◌, refl, ap, true, false, List, [], ◌∷◌, ◌++◌, Option, none, some,
  arith, length,
}
use blackshard.Prelude.Maps.{lookup, remove, insert as map_insert}
use blackshard.Prelude.Bytes.{
  Bytes, codes, to_ascii_lowercase, replace, contains, contains_one_of, is_one_of, after_last,
  starts_with, bytes_eq,
}
use blackshard.Behavior.{
  ProcessTrust, trusted, untrusted, FileAction, write, rename, high, BehaviorObservation, Processes,
  ProcessActivity, max_events_per_process, is_protected_document, key_discrete,
}
use blackshard.Behavior.Monitor.{
  evict_stale, oldest_from, remove_oldest, make_room, default_activity, entry, expire, flag_of,
  add_flag, has_file, trim, note_file, distinct_files_of, encrypted_files_of, judge,
  update_activity, observe_at,
}
use blackshard.Behavior.Table
use blackshard.Behavior.Table.{IsMonitor, new-IsMonitor}
use blackshard.Behavior.Decisions
use blackshard.Behavior.Decisions.{IsSuspicious, IsCool, least_files}
use blackshard.Behavior.Isolation

abbrev fingerprint : Bytes → ℕ
fingerprint path = length path - 30

abbrev repeated : ℕ → Bytes
repeated zero = []
repeated (suc n) = b'a' ∷ repeated n

abbrev document : ℕ → Bytes
document n = codes "C:\\Users\\Alice\\Documents\\" ++ repeated n ++ codes ".docx"

abbrev touch : ℕ → ℕ → ProcessTrust → Option FileAction → BehaviorObservation
touch process n trust action = record {
  process_id = process;
  process_start_key = 7;
  path = document n;
  trust = trust;
  block_mode = true;
  now_millis = 5;
  action = action;
}

abbrev run : List BehaviorObservation → Processes → Processes
run [] m = m
run (o ∷ os) m = run os (observe_at fingerprint o m).0

-- Process 1 encrypts two documents and writes a third.
abbrev encrypted : Processes
encrypted =
    run
      (touch 1 1 untrusted (some (write high))
        ∷ touch 1 1 untrusted (some rename)
        ∷ touch 1 2 untrusted (some (write high))
        ∷ touch 1 2 untrusted (some rename)
        ∷ touch 1 3 untrusted (some (write high))
        ∷ [])
      []

run-IsMonitor : (os : List BehaviorObservation) (m : Processes) → IsMonitor m → IsMonitor (run os m)
run-IsMonitor [] m h = h
run-IsMonitor (o ∷ os) m h =
    run-IsMonitor os (observe_at fingerprint o m).0 (Table.observe_at-IsMonitor fingerprint o m h)

encrypted-IsMonitor : IsMonitor encrypted
encrypted-IsMonitor =
    run-IsMonitor
      (touch 1 1 untrusted (some (write high))
        ∷ touch 1 1 untrusted (some rename)
        ∷ touch 1 2 untrusted (some (write high))
        ∷ touch 1 2 untrusted (some rename)
        ∷ touch 1 3 untrusted (some (write high))
        ∷ [])
      [] new-IsMonitor

abbrev third : ProcessActivity
third = record {
  events = (1, 10) ∷ (2, 11) ∷ (3, 12) ∷ [];
  actions = (12, 1) ∷ (11, 3) ∷ (10, 3) ∷ [];
  last_seen_millis = 3;
  last_alert_millis = none;
}

-- The rename of a third overwritten document is blocked and raises the alert, not so for a trusted
-- process.
rename_blocks :
    ((judge 4 untrusted true (update_activity 4 12 (some rename) third)).1.block ≡ true)
    × ((judge 4 untrusted true (update_activity 4 12 (some rename) third)).1.alert ≡ true)
    × ((judge 4 trusted true (update_activity 4 12 (some rename) third)).1.block ≡ false)
unfolding ℕ_discrete lookup remove map_insert expire flag_of add_flag has_file trim note_file
    distinct_files_of encrypted_files_of judge update_activity
rename_blocks = (refl, refl, refl)

document_is_protected : is_protected_document (document 1) ≡ true
unfolding is_protected_document to_ascii_lowercase replace contains contains_one_of is_one_of
    after_last starts_with bytes_eq
document_is_protected = refl

observe_at-IsMonitor_example :
    IsMonitor (observe_at fingerprint (touch 2 1 untrusted none) encrypted).0
observe_at-IsMonitor_example =
    Table.observe_at-IsMonitor fingerprint (touch 2 1 untrusted none) encrypted encrypted-IsMonitor

abbrev table : Processes
table = ((1, 7), third) ∷ []

table-IsMonitor : IsMonitor table
unfolding lookup has_file ℕ_discrete
table-IsMonitor = record {
  tracked = omega arith;
  keys = (refl, tt);
  tidy = (
    record {
      files = record {
        files_distinct = (refl, (refl, (refl, tt)));
        flags_distinct = (refl, (refl, (refl, tt)));
        flags_known = (refl, (refl, (refl, tt)));
      };
      capped = omega arith;
    },
    tt,
  );
}

table_blocks : (observe_at fingerprint (touch 1 12 untrusted (some rename)) table).1.block ≡ true
unfolding key_discrete ℕ_discrete lookup remove map_insert evict_stale oldest_from remove_oldest
    make_room default_activity entry expire flag_of add_flag has_file trim note_file
    distinct_files_of encrypted_files_of judge update_activity observe_at is_protected_document
    to_ascii_lowercase replace contains contains_one_of is_one_of after_last starts_with bytes_eq
table_blocks = refl

observe_at-least_files_example :
    (3 ≤ (observe_at fingerprint (touch 1 12 untrusted (some rename)) table).1.distinct_files)
    × ((observe_at fingerprint (touch 1 12 untrusted (some rename)) table).1.distinct_files
        ≤ max_events_per_process)
observe_at-least_files_example =
    Decisions.observe_at-least_files fingerprint (touch 1 12 untrusted (some rename)) table
      table-IsMonitor table_blocks

observe_at-isolated_example :
    (lookup key_discrete (1, 7) (observe_at fingerprint (touch 2 1 untrusted none) encrypted).0
      ≡ lookup key_discrete (1, 7) encrypted)
    ⊎ (lookup key_discrete (1, 7) (observe_at fingerprint (touch 2 1 untrusted none) encrypted).0
        ≡ none)
observe_at-isolated_example =
    Isolation.observe_at-isolated fingerprint (touch 2 1 untrusted none) encrypted (1, 7)
      encrypted-IsMonitor (λ e. ground (arith, ap (λ p. p.0) e))

abbrev busy : ProcessActivity
busy = record {
  events = (1, 10) ∷ (2, 11) ∷ (3, 12) ∷ [];
  actions = (10, 3) ∷ (11, 3) ∷ (12, 3) ∷ [];
  last_seen_millis = 3;
  last_alert_millis = none;
}
