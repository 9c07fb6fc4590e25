-- ===== src/History.antt =====
-- src/history.rs: the log of security events, as the bytes of its file and of the one before it. How
-- an event is written and read is an argument; the calls of the file system are those that succeed.
pub mod Newest
mod Examples
use blackshard.Prelude.{
  ℕ, zero, suc, ◌+◌, ◌*◌, min, max, Bool, true, false, not, ◌||◌, List, [], ◌∷◌, ◌++◌, Option, none,
  some, ltb, leb, ◌==◌, if◌then◌else◌, length, drop,
}
use mathlib.Core.List.{reverse}
use blackshard.Prelude.Bytes.{Bytes}
use blackshard.Prelude.Results.{Result, ok, error}
use blackshard.Prelude.Text.{split}

pub data HistoryError : Type 0 where
  other invalid_input invalid_data : HistoryError

unfoldable pub max_log_bytes : ℕ
max_log_bytes = 8 * 1024 * 1024

pub record EventLog : Type 0 where
  pub file : Option Bytes
  pub rotated : Option Bytes

abbrev pub bytes_of : Option Bytes → Bytes
bytes_of none = []
bytes_of (some s) = s

unfoldable pub rotate_if_needed : EventLog → EventLog
unfolding max_log_bytes
rotate_if_needed log =
    if ltb (length (bytes_of log.file)) max_log_bytes
    then log
    else record { file = none; rotated = log.file }

unfoldable pub max_event_bytes : ℕ
max_event_bytes = 64 * 1024

abbrev pub keep_of : ℕ → ℕ
keep_of limit = max 1 (min limit 2_000)

module _ {Event : Type 0} (encode : Event → Option Bytes) (decode : Bytes → Option Event) where
  unfoldable pub append : Event → EventLog → Result HistoryError (Unit {0}) × EventLog
  unfolding rotate_if_needed max_event_bytes
  append event log =
      let now = rotate_if_needed log in
      elim (encode event) [
        | none ↦ (error other, now)
        | some bytes ↦
            if ltb max_event_bytes (length bytes)
            then (error invalid_input, now)
            else (ok tt, record now { file = some (bytes_of now.file ++ (bytes ++ (b'\n' ∷ []))) })
      ]

  abbrev pub push_back : ℕ → List Event → Event → List Event
  push_back keep events event =
      let more = events ++ (event ∷ []) in if ltb keep (length more) then drop 1 more else more

  abbrev pub push_decoded : ℕ → List Event → Option Event → List Event
  push_decoded keep events none = events
  push_decoded keep events (some event) = push_back keep events event

  -- The loop over the lines.
  unfoldable pub collect_events : ℕ → List Event → List Bytes → List Event
  unfolding max_event_bytes
  collect_events keep events [] = events
  collect_events keep events (line ∷ lines) =
      collect_events keep
        (if length line == 0 || ltb max_event_bytes (length line)
          then events
          else push_decoded keep events (decode line))
        lines

  unfoldable pub recent : ℕ → EventLog → Result HistoryError (List Event)
  unfolding max_log_bytes max_event_bytes split collect_events
  recent limit log = elim log.file [
    | none ↦ ok []
    | some bytes ↦
        if ltb (max_log_bytes + max_event_bytes + 1) (length bytes)
        then error invalid_data
        else ok (reverse (collect_events (keep_of limit) [] (split b'\n' bytes)))
  ]

-- `clear`
abbrev pub clear_log : EventLog → EventLog
clear_log log = record log { file = none }
