-- ===== src/Behavior/Monitor.antt =====
-- The table of processes and the decision of src/behavior.rs, up to `RansomwareMonitor::observe_at`.
use native.Mathlib.Decide.{ℕ_discrete}
use blackshard.Prelude.{
  ℕ, ◌+◌, ◌-◌, ◌*◌, ◌^◌, bit_or, Bool, true, false, not, ◌&&◌, ◌||◌, List, [], ◌∷◌, ◌++◌, Option,
  none, some, ltb, leb, ◌==◌, if◌then◌else◌, length,
}
use blackshard.Prelude.Maps.{lookup, remove, insert as map_insert}
use blackshard.Prelude.Bytes.{Bytes}
use blackshard.Behavior.{
  window_millis, alert_cooldown_millis, max_tracked_processes, max_events_per_process,
  high_entropy_write, renamed_or_deleted, ProcessTrust, trusted, unknown, untrusted, high,
  FileAction, write, rename, BehaviorDecision, ProcessActivity, ProcessKey, key_discrete, Processes,
  BehaviorObservation, default_decision, is_protected_document,
}

-- `retain`, for the processes seen in the last minute.
unfoldable pub evict_stale : ℕ → Processes → Processes
evict_stale now [] = []
evict_stale now ((k, a) ∷ m) =
    if leb (now - a.last_seen_millis) (window_millis * 6)
    then (k, a) ∷ evict_stale now m
    else evict_stale now m

-- `min_by_key` on `last_seen_millis`: the key and the time of the first least one, against the
-- least so far.
unfoldable pub oldest_from : ProcessKey → ℕ → Processes → ProcessKey
oldest_from k t [] = k
oldest_from k t ((j, a) ∷ m) =
    oldest_from (if ltb a.last_seen_millis t then j else k)
      (if ltb a.last_seen_millis t then a.last_seen_millis else t) m

unfoldable pub remove_oldest : Processes → Processes
remove_oldest [] = []
remove_oldest ((k, a) ∷ m) = remove key_discrete (oldest_from k a.last_seen_millis m) ((k, a) ∷ m)

abbrev pub is_some {ℓ} : {A : Type ℓ} → Option A → Bool
is_some none = false
is_some (some _) = true

-- Room for a new process in a full table.
unfoldable pub make_room : ProcessKey → Processes → Processes
make_room key m =
    if leb max_tracked_processes (length m) && not (is_some (lookup key_discrete key m))
    then remove_oldest m
    else m

unfoldable pub default_activity : ProcessActivity
default_activity = record {
  events = [];
  actions = [];
  last_seen_millis = 0;
  last_alert_millis = none;
}

-- `entry(key).or_default()`
unfoldable pub entry : ProcessKey → Processes → ProcessActivity
entry key m = elim (lookup key_discrete key m) [ none ↦ default_activity | some a ↦ a ]

abbrev pub Files : Type 0
Files = List (ℕ × ℕ) × List (ℕ × ℕ)

-- The first `while`: events that have left the window go, with the flags of their files.
unfoldable pub expire : ℕ → List (ℕ × ℕ) → List (ℕ × ℕ) → Files
expire now [] actions = ([], actions)
expire now ((t, f) ∷ events) actions =
    if ltb window_millis (now - t)
    then expire now events (remove ℕ_discrete f actions)
    else ((t, f) ∷ events, actions)

unfoldable pub flag_of : Option FileAction → ℕ
flag_of (some (write high)) = high_entropy_write
flag_of (some rename) = renamed_or_deleted
flag_of _ = 0

abbrev or_zero : Option ℕ → ℕ
or_zero none = 0
or_zero (some n) = n

-- `*actions.entry(f).or_default() |= flag`
unfoldable pub add_flag : ℕ → ℕ → List (ℕ × ℕ) → List (ℕ × ℕ)
add_flag f flag actions =
    map_insert ℕ_discrete f (bit_or (or_zero (lookup ℕ_discrete f actions)) flag) actions

unfoldable pub has_file : ℕ → List (ℕ × ℕ) → Bool
has_file f [] = false
has_file f ((t, g) ∷ events) = g == f || has_file f events

-- The second `while`: at most 128 events stay.
unfoldable pub trim : List (ℕ × ℕ) → List (ℕ × ℕ) → Files
trim [] actions = ([], actions)
trim ((t, f) ∷ events) actions =
    if ltb max_events_per_process (length ((t, f) ∷ events))
    then trim events (remove ℕ_discrete f actions)
    else ((t, f) ∷ events, actions)

unfoldable pub note_file : ℕ → ℕ → ℕ → Files → Files
note_file now f flag (events, actions) =
    let actions' = add_flag f flag actions in
    if has_file f events then (events, actions') else trim (events ++ (now, f) ∷ []) actions'

-- The number of different files among the events.
unfoldable pub distinct_files_of : List (ℕ × ℕ) → ℕ
distinct_files_of [] = 0
distinct_files_of ((t, f) ∷ events) =
    (if has_file f events then 0 else 1) + distinct_files_of events

-- The files that were both overwritten with high-entropy data and renamed or deleted.
unfoldable pub encrypted_files_of : List (ℕ × ℕ) → ℕ
encrypted_files_of [] = 0
encrypted_files_of ((f, flags) ∷ actions) =
    (if flags == bit_or high_entropy_write renamed_or_deleted then 1 else 0)
    + encrypted_files_of actions

abbrev pub usize_max : ℕ
usize_max = 2 ^ 64 - 1

abbrev pub threshold : ProcessTrust → ℕ
threshold trusted = 80
threshold unknown = 32
threshold untrusted = 24

abbrev pub encrypted_threshold : ProcessTrust → ℕ
encrypted_threshold trusted = usize_max
encrypted_threshold unknown = 5
encrypted_threshold untrusted = 3

abbrev pub may_alert : ℕ → Option ℕ → Bool
may_alert now none = true
may_alert now (some last) = leb alert_cooldown_millis (now - last)

-- The verdict on a process's files.
unfoldable pub judge :
    ℕ → ProcessTrust → Bool → ProcessActivity → ProcessActivity × BehaviorDecision
judge now trust block_mode a =
    let distinct_files = distinct_files_of a.events in
    let threshold_reached =
      leb (threshold trust) distinct_files
      || leb (encrypted_threshold trust) (encrypted_files_of a.actions) in
    let alert = threshold_reached && may_alert now a.last_alert_millis in
    (
      record a { last_alert_millis = if alert then some now else a.last_alert_millis },
      record {
        protected_path = true;
        distinct_files = distinct_files;
        alert = alert;
        block = threshold_reached && block_mode;
      },
    )

-- What an observation of a file with fingerprint `f` makes of its process's activity.
unfoldable pub update_activity : ℕ → ℕ → Option FileAction → ProcessActivity → ProcessActivity
update_activity now f action a =
    let (events, actions) = note_file now f (flag_of action) (expire now a.events a.actions) in
    record a { events = events; actions = actions; last_seen_millis = now }

module _ (path_fingerprint : Bytes → ℕ) where
  unfoldable pub observe_at : BehaviorObservation → Processes → Processes × BehaviorDecision
  observe_at o m =
      if not (is_protected_document o.path) || o.process_id == 0 || o.process_start_key == 0
      then (m, default_decision)
      else let key : ProcessKey = (o.process_id, o.process_start_key) in
        let room = make_room key (evict_stale o.now_millis m) in
        let seen =
          update_activity o.now_millis (path_fingerprint o.path) o.action (entry key room) in
        let (a, decision) = judge o.now_millis o.trust o.block_mode seen in
        (map_insert key_discrete key a room, decision)
