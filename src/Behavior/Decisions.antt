-- ===== src/Behavior/Decisions.antt =====
-- What the decision of src/behavior.rs means.
use blackshard.Prelude.{ℕ, ◌-◌, ◌≤◌, ◌≡◌, ◌⊎◌, Bool, true, Option, none, some, arith, if_split}
use blackshard.Prelude.Bytes.{Bytes}
use blackshard.Behavior.{
  alert_cooldown_millis, ProcessActivity, ProcessKey, Processes, max_events_per_process,
  BehaviorObservation, BehaviorDecision, ProcessTrust, trusted, unknown, untrusted,
  default_decision,
}
use blackshard.Behavior.Monitor.{
  evict_stale, judge, observe_at, threshold, encrypted_threshold, distinct_files_of,
  encrypted_files_of,
}
use blackshard.Behavior.Files.{IsTidy, IsTidy-counts, update_activity-IsTidy}
use blackshard.Behavior.Table.{IsMonitor, evict_stale-IsMonitor, make_room-IsMonitor, entry-IsTidy}

-- The activity is what its threshold asks for.
abbrev pub IsSuspicious : ProcessTrust → ProcessActivity → Type 0
IsSuspicious trust a =
    (threshold trust ≤ distinct_files_of a.events)
    ⊎ (encrypted_threshold trust ≤ encrypted_files_of a.actions)

abbrev pub IsCool : ℕ → Option ℕ → Type 0
IsCool now none = Unit
IsCool now (some last) = alert_cooldown_millis ≤ now - last

judge-IsSuspicious :
    (now : ℕ) (trust : ProcessTrust) (block_mode : Bool) (a : ProcessActivity)
    → (judge now trust block_mode a).1.block ≡ true
    → IsSuspicious trust a
unfolding judge
judge-IsSuspicious now trust block_mode a h = ground arith

-- The least number of different documents before a process can be blocked.
abbrev pub least_files : ProcessTrust → ℕ
least_files trusted = 80
least_files unknown = 5
least_files untrusted = 3

suspicious-least :
    (trust : ProcessTrust) (a : ProcessActivity)
    → IsTidy a
    → IsSuspicious trust a
    → least_files trust ≤ distinct_files_of a.events
suspicious-least trusted a h s = omega (arith, IsTidy-counts a h, s)
suspicious-least unknown a h s = omega (arith, IsTidy-counts a h, s)
suspicious-least untrusted a h s = omega (arith, IsTidy-counts a h, s)

judged :
    (now : ℕ) (trust : ProcessTrust) (block_mode : Bool) (a : ProcessActivity)
    → IsTidy a
    → ((judge now trust block_mode a).1.block ≡ true
        → least_files trust ≤ (judge now trust block_mode a).1.distinct_files)
      × ((judge now trust block_mode a).1.distinct_files ≤ max_events_per_process)
unfolding judge
judged now trust block_mode a h = (
  λ b. suspicious-least trust a h (judge-IsSuspicious now trust block_mode a b),
  (IsTidy-counts a h).1,
)

observe_at-judged :
    (path_fingerprint : Bytes → ℕ) (o : BehaviorObservation) (m : Processes)
    → IsMonitor m
    → ((observe_at path_fingerprint o m).1.block ≡ true
        → least_files o.trust ≤ (observe_at path_fingerprint o m).1.distinct_files)
      × ((observe_at path_fingerprint o m).1.distinct_files ≤ max_events_per_process)
unfolding observe_at default_decision
observe_at-judged path_fingerprint o m h =
    let key : ProcessKey = (o.process_id, o.process_start_key) in
    let room =
      make_room-IsMonitor key (evict_stale o.now_millis m)
        (evict_stale-IsMonitor o.now_millis m h) in
    if_split {A = Processes × BehaviorDecision}
      (λ r.
        (r.1.block ≡ true → least_files o.trust ≤ r.1.distinct_files)
        × (r.1.distinct_files ≤ max_events_per_process))
      _ {x = (m, default_decision)} (ground arith, omega arith)
      (judged o.now_millis o.trust o.block_mode _ (
        update_activity-IsTidy o.now_millis (path_fingerprint o.path) o.action _
          (entry-IsTidy key _ room.tidy)))

-- A sound monitor blocks a process only after it has touched 80 different protected documents if
-- it is trusted, 5 if its trust is unknown and 3 if it is untrusted, and counts at most 128 of them.
pub observe_at-least_files :
    (path_fingerprint : Bytes → ℕ) (o : BehaviorObservation) (m : Processes)
    → IsMonitor m
    → (observe_at path_fingerprint o m).1.block ≡ true
    → (least_files o.trust ≤ (observe_at path_fingerprint o m).1.distinct_files)
      × ((observe_at path_fingerprint o m).1.distinct_files ≤ max_events_per_process)
observe_at-least_files path_fingerprint o m h b =
    let d = observe_at-judged path_fingerprint o m h in (d.0 b, d.1)
