-- ===== src/Behavior/Files.antt =====
-- The events and flags that src/behavior.rs keeps of one process: bounded, free of repetition,
-- and with flags for present files only.
use native.Mathlib.Decide.{ℕ_discrete}
use mathlib.Core.Logic.{if_pos, if_neg}
use blackshard.Prelude.{
  ℕ, suc, ◌-◌, ◌≤◌, ◌≡◌, refl, inl, inr, true, false, ◌||◌, List, [], ◌∷◌, ◌++◌, Option, arith, ltb,
  ◌==◌, length, All, All-map, Bool-cases, Option-cases,
}
use blackshard.Prelude.Maps.{
  lookup, remove, insert as map_insert, IsDistinct, remove-IsDistinct, insert-IsDistinct,
  length-remove, remove_absent, remove-All,
}
use blackshard.Behavior.{window_millis, max_events_per_process, ProcessActivity, FileAction}
use blackshard.Behavior.Monitor.{
  Files, expire, flag_of, add_flag, has_file, trim, note_file, distinct_files_of,
  encrypted_files_of, update_activity, default_activity,
}

abbrev pub Events : Type 0
Events = List (ℕ × ℕ)

-- No file has two events.
abbrev pub FilesDistinct : Events → Type 0
FilesDistinct [] = Unit
FilesDistinct ((t, f) ∷ events) = (has_file f events ≡ false) × FilesDistinct events

-- Every flag belongs to a file that has an event.
abbrev pub FlagsKnown : Events → List (ℕ × ℕ) → Type 0
FlagsKnown events actions = All (λ p. has_file p.0 events ≡ true) actions

pub record AreTidy (events : Events) (actions : List (ℕ × ℕ)) : Type 0 where
  pub files_distinct : FilesDistinct events
  pub flags_distinct : IsDistinct ℕ_discrete actions
  pub flags_known : FlagsKnown events actions

-- Once a file's first event is gone, its flags are gone too, and the other flags are still known.
FlagsKnown-remove :
    (t f : ℕ) (events : Events) (actions : List (ℕ × ℕ))
    → FlagsKnown ((t, f) ∷ events) actions
    → FlagsKnown events (remove ℕ_discrete f actions)
unfolding remove has_file
FlagsKnown-remove t f events [] h = tt
FlagsKnown-remove t f events ((g, n) ∷ actions) h = elim (ℕ_discrete g f) [
  | yes p ↦ rw (if_pos _ p) (FlagsKnown-remove t f events actions h.1)
  | no q ↦ rw (if_neg _ q) (ground arith, FlagsKnown-remove t f events actions h.1)
]

AreTidy-tail :
    (t f : ℕ) (events : Events) (actions : List (ℕ × ℕ))
    → AreTidy ((t, f) ∷ events) actions
    → AreTidy events (remove ℕ_discrete f actions)
AreTidy-tail t f events actions h = record {
  files_distinct = h.files_distinct.1;
  flags_distinct = remove-IsDistinct ℕ_discrete f actions h.flags_distinct;
  flags_known = FlagsKnown-remove t f events actions h.flags_known;
}

abbrev Kept : ℕ → Files → Type 0
Kept n (events, actions) = AreTidy events actions × (length events ≤ n)

expire-Kept :
    (now : ℕ) (events : Events) (actions : List (ℕ × ℕ)) (n : ℕ)
    → AreTidy events actions
    → length events ≤ n
    → Kept n (expire now events actions)
unfolding expire
expire-Kept now [] actions n h l = (h, l)
expire-Kept now ((t, f) ∷ events) actions n h l = elim (Bool-cases (ltb window_millis (now - t))) [
  | inl e ↦ rw e (
      expire-Kept now events (remove ℕ_discrete f actions) n (AreTidy-tail t f events actions h)
        (omega arith))
  | inr e ↦ rw e (h, l)
]

trim-Kept :
    (events : Events) (actions : List (ℕ × ℕ))
    → AreTidy events actions
    → Kept max_events_per_process (trim events actions)
unfolding trim
trim-Kept [] actions h = (h, omega arith)
trim-Kept ((t, f) ∷ events) actions h =
    elim (Bool-cases (ltb max_events_per_process (length ((t, f) ∷ events)))) [
      | inl e ↦
          rw e (trim-Kept events (remove ℕ_discrete f actions) (AreTidy-tail t f events actions h))
      | inr e ↦ rw e (h, ground arith)
    ]

has_file-append :
    (g t f : ℕ) (events : Events)
    → has_file g (events ++ (t, f) ∷ []) ≡ (has_file g events || f == g)
unfolding has_file
has_file-append g t f [] = ground arith
has_file-append g t f ((s, j) ∷ events) = ground (arith, has_file-append g t f events)

FilesDistinct-append :
    (t f : ℕ) (events : Events)
    → FilesDistinct events
    → has_file f events ≡ false
    → FilesDistinct (events ++ (t, f) ∷ [])
unfolding has_file
FilesDistinct-append t f [] h a = (refl, tt)
FilesDistinct-append t f ((s, j) ∷ events) h a = (
  ground (arith, has_file-append j t f events),
  FilesDistinct-append t f events h.1 (ground arith),
)

add_flag-known :
    (f flag : ℕ) (events : Events) (actions : List (ℕ × ℕ))
    → has_file f events ≡ true
    → FlagsKnown events actions
    → FlagsKnown events (add_flag f flag actions)
unfolding add_flag map_insert
add_flag-known f flag events actions h k = (h, remove-All ℕ_discrete _ f actions k)

add_flag-IsDistinct :
    (f flag : ℕ) (actions : List (ℕ × ℕ))
    → IsDistinct ℕ_discrete actions
    → IsDistinct ℕ_discrete (add_flag f flag actions)
unfolding add_flag
add_flag-IsDistinct f flag actions h = insert-IsDistinct ℕ_discrete f _ actions h

note_file-Kept :
    (now f flag : ℕ) (events : Events) (actions : List (ℕ × ℕ))
    → AreTidy events actions
    → length events ≤ max_events_per_process
    → Kept max_events_per_process (note_file now f flag (events, actions))
unfolding note_file
note_file-Kept now f flag events actions h l = elim (Bool-cases (has_file f events)) [
  | inl e ↦ rw e (
    record {
      files_distinct = h.files_distinct;
      flags_distinct = add_flag-IsDistinct f flag actions h.flags_distinct;
      flags_known = add_flag-known f flag events actions e h.flags_known;
    },
    l,
  )
  | inr e ↦ rw e (
      trim-Kept (events ++ (now, f) ∷ []) (add_flag f flag actions) (record {
        files_distinct = FilesDistinct-append now f events h.files_distinct e;
        flags_distinct = add_flag-IsDistinct f flag actions h.flags_distinct;
        flags_known =
            add_flag-known f flag (events ++ (now, f) ∷ []) actions
              (ground (arith, has_file-append f now f events))
              (All-map _ _ (λ p k. ground (arith, has_file-append p.0 now f events)) actions
                h.flags_known);
      }))
]

-- What the monitor keeps of one process.
pub record IsTidy (a : ProcessActivity) : Type 0 where
  pub files : AreTidy a.events a.actions
  pub capped : length a.events ≤ max_events_per_process

pub update_activity-IsTidy :
    (now f : ℕ) (action : Option FileAction) (a : ProcessActivity)
    → IsTidy a
    → IsTidy (update_activity now f action a)
unfolding update_activity
update_activity-IsTidy now f action a h =
    let e = expire now a.events a.actions in
    let expired = expire-Kept now a.events a.actions max_events_per_process h.files h.capped in
    let noted = note_file-Kept now f (flag_of action) e.0 e.1 expired.0 expired.1 in
    record { files = noted.0; capped = noted.1 }

pub default_activity-IsTidy : IsTidy default_activity
unfolding default_activity
default_activity-IsTidy = record {
  files = record { files_distinct = tt; flags_distinct = tt; flags_known = tt };
  capped = omega arith;
}

-- The monitor counts each event's file once.
distinct_files_of-length :
    (events : Events) → FilesDistinct events → distinct_files_of events ≡ length events
unfolding distinct_files_of
distinct_files_of-length [] h = refl
distinct_files_of-length ((t, f) ∷ events) h = ground (arith, distinct_files_of-length events h.1)

encrypted_files_of-le : (actions : List (ℕ × ℕ)) → encrypted_files_of actions ≤ length actions
unfolding encrypted_files_of
encrypted_files_of-le [] = omega arith
encrypted_files_of-le ((f, n) ∷ actions) = ground (arith, encrypted_files_of-le actions)

length-remove_le :
    (f : ℕ) (actions : List (ℕ × ℕ))
    → IsDistinct ℕ_discrete actions
    → length actions ≤ suc (length (remove ℕ_discrete f actions))
length-remove_le f actions d = elim (Option-cases (lookup ℕ_discrete f actions)) [
  | inl e ↦ rw (remove_absent ℕ_discrete f actions e) (omega arith)
  | inr (v, e) ↦ omega (arith, length-remove ℕ_discrete f actions v d e)
]

-- Flags stand for present files, each once, so there are no more of them than events.
flags-le-events :
    (events : Events) (actions : List (ℕ × ℕ))
    → IsDistinct ℕ_discrete actions
    → FlagsKnown events actions
    → length actions ≤ length events
unfolding has_file
flags-le-events [] [] d k = omega arith
flags-le-events [] (p ∷ actions) d k = absurd (ground (arith, k.0))
flags-le-events ((t, f) ∷ events) actions d k = omega (
  arith,
  length-remove_le f actions d,
  flags-le-events events (remove ℕ_discrete f actions) (remove-IsDistinct ℕ_discrete f actions d)
      (FlagsKnown-remove t f events actions k),
)

-- A process has at most 128 different files in the window, and no more encrypted ones than that.
pub IsTidy-counts :
    (a : ProcessActivity)
    → IsTidy a
    → (distinct_files_of a.events ≡ length a.events)
      × (distinct_files_of a.events ≤ max_events_per_process)
      × (encrypted_files_of a.actions ≤ distinct_files_of a.events)
IsTidy-counts a h =
    let same = distinct_files_of-length a.events h.files.files_distinct in
    let flags = flags-le-events a.events a.actions h.files.flags_distinct h.files.flags_known in
    (
      same,
      omega (arith, same, h.capped),
      omega (arith, same, flags, encrypted_files_of-le a.actions),
    )
