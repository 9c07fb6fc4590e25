-- ===== src/Behavior/Table.antt =====
-- The table of processes that src/behavior.rs keeps: at most 256, each once, each tidy.
use mathlib.Core.Logic.{if_pos}
use blackshard.Prelude.{
  ℕ, suc, ◌-◌, ◌*◌, ◌≤◌, ◌≡◌, ◌≢◌, refl, inl, inr, ◌⊎◌, Bool, [], ◌∷◌, none, some, arith, ltb, leb,
  length, All, Bool-cases, Option-cases, if_split,
}
use blackshard.Prelude.Maps.{
  lookup, remove, insert as map_insert, IsDistinct, remove-IsDistinct, insert-IsDistinct,
  length-remove, remove-All, length-insert_absent, lookup-All,
}
use blackshard.Prelude.Bytes.{Bytes}
use blackshard.Behavior.{
  window_millis, max_tracked_processes, ProcessActivity, ProcessKey, key_discrete, Processes,
  BehaviorObservation, BehaviorDecision, ProcessTrust,
}
use blackshard.Behavior.Monitor.{
  evict_stale, oldest_from, remove_oldest, make_room, entry, judge, observe_at,
}
use blackshard.Behavior.Files.{IsTidy, update_activity-IsTidy, default_activity-IsTidy}

-- The invariant of the monitor.
pub record IsMonitor (m : Processes) : Type 0 where
  pub tracked : length m ≤ max_tracked_processes
  pub keys : IsDistinct key_discrete m
  pub tidy : All (λ p. IsTidy p.1) m

pub lookup-evict_stale :
    (now : ℕ) (k : ProcessKey) (m : Processes)
    → lookup key_discrete k m ≡ none
    → lookup key_discrete k (evict_stale now m) ≡ none
unfolding lookup evict_stale
lookup-evict_stale now k [] h = refl
lookup-evict_stale now k ((j, a) ∷ m) h = ground (arith, lookup-evict_stale now k m)

length-evict_stale : (now : ℕ) (m : Processes) → length (evict_stale now m) ≤ length m
unfolding evict_stale
length-evict_stale now [] = omega arith
length-evict_stale now ((j, a) ∷ m) = ground (arith, length-evict_stale now m)

pub evict_stale-IsMonitor : (now : ℕ) (m : Processes) → IsMonitor m → IsMonitor (evict_stale now m)
unfolding evict_stale
evict_stale-IsMonitor now [] h = h
evict_stale-IsMonitor now ((j, a) ∷ m) h =
    let rest =
      evict_stale-IsMonitor now m
        (record { tracked = omega arith; keys = h.keys.1; tidy = h.tidy.1 }) in
    if_split IsMonitor (leb (now - a.last_seen_millis) (window_millis * 6))
      (record {
        tracked = omega (arith, length-evict_stale now m);
        keys = (lookup-evict_stale now j m h.keys.0, rest.keys);
        tidy = (h.tidy.0, rest.tidy);
      })
      rest

lookup-found :
    (k : ProcessKey) (a : ProcessActivity) (m : Processes)
    → lookup key_discrete k ((k, a) ∷ m) ≢ none
unfolding lookup
lookup-found k a m = rw (if_pos (key_discrete k k) refl) (λ p. ground arith)

lookup-later :
    (q k : ProcessKey) (a : ProcessActivity) (m : Processes)
    → lookup key_discrete q m ≢ none
    → lookup key_discrete q ((k, a) ∷ m) ≢ none
unfolding lookup
lookup-later q k a m h = ground (arith, h)

lookup-second :
    (q k j : ProcessKey) (a b : ProcessActivity) (m : Processes)
    → lookup key_discrete q ((k, a) ∷ m) ≢ none
    → lookup key_discrete q ((k, a) ∷ (j, b) ∷ m) ≢ none
unfolding lookup
lookup-second q k j a b m h = ground (arith, h)

oldest_from-found :
    (k : ProcessKey) (a : ProcessActivity) (t : ℕ) (m : Processes)
    → lookup key_discrete (oldest_from k t m) ((k, a) ∷ m) ≢ none
unfolding oldest_from
oldest_from-found k a t [] = lookup-found k a []
oldest_from-found k a t ((j, b) ∷ m) = elim (Bool-cases (ltb b.last_seen_millis t)) [
  | inl e ↦ rw e (
      lookup-later (oldest_from j b.last_seen_millis m) k a ((j, b) ∷ m)
        (oldest_from-found j b b.last_seen_millis m))
  | inr e ↦ rw e (lookup-second (oldest_from k t m) k j a b m (oldest_from-found k a t m))
]

length-remove_any : (k : ProcessKey) (m : Processes) → length (remove key_discrete k m) ≤ length m
unfolding remove
length-remove_any k [] = omega arith
length-remove_any k ((j, a) ∷ m) = ground (arith, length-remove_any k m)

remove-IsMonitor :
    (k : ProcessKey) (m : Processes) → IsMonitor m → IsMonitor (remove key_discrete k m)
remove-IsMonitor k m h = record {
  tracked = omega (arith, length-remove_any k m, h.tracked);
  keys = remove-IsDistinct key_discrete k m h.keys;
  tidy = remove-All key_discrete _ k m h.tidy;
}

-- The oldest process is one of the table, so there is one fewer without it.
remove_oldest-shrinks :
    (k : ProcessKey) (a : ProcessActivity) (m : Processes)
    → IsDistinct key_discrete ((k, a) ∷ m)
    → length (remove_oldest ((k, a) ∷ m)) ≡ length m
unfolding remove_oldest
remove_oldest-shrinks k a m d =
    elim (Option-cases (lookup key_discrete (oldest_from k a.last_seen_millis m) ((k, a) ∷ m))) [
      | inl e ↦ absurd (oldest_from-found k a a.last_seen_millis m e)
      | inr (v, e) ↦ omega (arith, length-remove key_discrete _ ((k, a) ∷ m) v d e)
    ]

pub lookup-remove_any :
    (q k : ProcessKey) (m : Processes)
    → lookup key_discrete q m ≡ none
    → lookup key_discrete q (remove key_discrete k m) ≡ none
unfolding lookup remove
lookup-remove_any q k [] h = refl
lookup-remove_any q k ((j, a) ∷ m) h = ground (arith, lookup-remove_any q k m)

remove_oldest-IsMonitor : (m : Processes) → IsMonitor m → IsMonitor (remove_oldest m)
unfolding remove_oldest
remove_oldest-IsMonitor [] h = h
remove_oldest-IsMonitor ((k, a) ∷ m) h = remove-IsMonitor _ ((k, a) ∷ m) h

-- Either the process has a place in the table, or the table is not full.
abbrev HasRoom : ProcessKey → Processes → Type 0
HasRoom k m =
    ((v : ProcessActivity) × (lookup key_discrete k m ≡ some v))
    ⊎ ((lookup key_discrete k m ≡ none) × (suc (length m) ≤ max_tracked_processes))

lookup-remove_oldest :
    (q : ProcessKey) (m : Processes)
    → lookup key_discrete q m ≡ none
    → lookup key_discrete q (remove_oldest m) ≡ none
unfolding remove_oldest
lookup-remove_oldest q [] h = h
lookup-remove_oldest q ((k, a) ∷ m) h = lookup-remove_any q _ ((k, a) ∷ m) h

remove_oldest-leaves :
    (m : Processes)
    → length m ≤ max_tracked_processes
    → IsDistinct key_discrete m
    → suc (length (remove_oldest m)) ≤ max_tracked_processes
unfolding remove_oldest
remove_oldest-leaves [] h d = omega arith
remove_oldest-leaves ((k, a) ∷ m) h d = omega (arith, remove_oldest-shrinks k a m d, h)

make_room-HasRoom : (k : ProcessKey) (m : Processes) → IsMonitor m → HasRoom k (make_room k m)
unfolding make_room
make_room-HasRoom k m h = elim (Option-cases (lookup key_discrete k m)) [
  | inl e ↦ elim (Bool-cases (leb max_tracked_processes (length m))) [
    | inl full ↦
        rw (full, e) (inr (lookup-remove_oldest k m e, remove_oldest-leaves m h.tracked h.keys))
    | inr free ↦ rw free (inr (e, ground arith))
  ]
  | inr (v, e) ↦ elim (Bool-cases (leb max_tracked_processes (length m))) [
    | inl full ↦ rw (full, e) (inl (v, e))
    | inr free ↦ rw free (inl (v, e))
  ]
]

pub make_room-IsMonitor : (k : ProcessKey) (m : Processes) → IsMonitor m → IsMonitor (make_room k m)
unfolding make_room
make_room-IsMonitor k m h = if_split IsMonitor _ (remove_oldest-IsMonitor m h) h

pub entry-IsTidy : (k : ProcessKey) (m : Processes) → All (λ p. IsTidy p.1) m → IsTidy (entry k m)
unfolding entry
entry-IsTidy k m h = elim (Option-cases (lookup key_discrete k m)) [
  | inl e ↦ rw (e, entry) default_activity-IsTidy
  | inr (v, e) ↦ rw (e, entry) (lookup-All key_discrete (λ p. IsTidy p.1) k v m h e)
]

judge-IsTidy :
    (now : ℕ) (trust : ProcessTrust) (block_mode : Bool) (a : ProcessActivity)
    → IsTidy a
    → IsTidy (judge now trust block_mode a).0
unfolding judge
judge-IsTidy now trust block_mode a h = record { files = h.files; capped = h.capped }

length-insert :
    (k : ProcessKey) (a : ProcessActivity) (m : Processes)
    → IsMonitor m
    → HasRoom k m
    → length (map_insert key_discrete k a m) ≤ max_tracked_processes
unfolding map_insert
length-insert k a m h (inl (v, e)) =
    omega (arith, length-remove key_discrete k m v h.keys e, h.tracked)
length-insert k a m h (inr (e, l)) = omega (arith, length-insert_absent key_discrete k a m e)

insert-IsMonitor :
    (k : ProcessKey) (a : ProcessActivity) (m : Processes)
    → IsMonitor m
    → HasRoom k m
    → IsTidy a
    → IsMonitor (map_insert key_discrete k a m)
unfolding map_insert
insert-IsMonitor k a m h r t = record {
  tracked = length-insert k a m h r;
  keys = insert-IsDistinct key_discrete k a m h.keys;
  tidy = (t, remove-All key_discrete _ k m h.tidy);
}

pub new-IsMonitor : IsMonitor []
new-IsMonitor = record { tracked = omega arith; keys = tt; tidy = tt }

-- Whatever is observed, the monitor keeps at most 256 processes, each once, and of each at most
-- 128 files, each once, with flags for those files only.
pub observe_at-IsMonitor :
    (path_fingerprint : Bytes → ℕ) (o : BehaviorObservation) (m : Processes)
    → IsMonitor m
    → IsMonitor (observe_at path_fingerprint o m).0
unfolding observe_at
observe_at-IsMonitor path_fingerprint o m h =
    let key : ProcessKey = (o.process_id, o.process_start_key) in
    let stale = evict_stale-IsMonitor o.now_millis m h in
    let room = make_room-IsMonitor key (evict_stale o.now_millis m) stale in
    if_split {A = Processes × BehaviorDecision} (λ r. IsMonitor r.0) _ h
      (insert-IsMonitor key _ (make_room key (evict_stale o.now_millis m)) room
        (make_room-HasRoom key (evict_stale o.now_millis m) stale)
        (judge-IsTidy o.now_millis o.trust o.block_mode _ (
          update_activity-IsTidy o.now_millis (path_fingerprint o.path) o.action _
            (entry-IsTidy key _ room.tidy))))
