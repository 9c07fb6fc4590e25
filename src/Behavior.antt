-- ===== src/Behavior.antt =====
-- src/behavior.rs: the ransomware monitor. The time since its start (`now_millis`) is part of an
-- observation. The two hash maps are association lists; where the source takes the least recently
-- seen process, the first in the list's order is taken among equals. The fingerprint of a path,
-- the standard library's unspecified hash of its lower-case text, is a parameter.
pub mod Monitor
pub mod Files
pub mod Table
pub mod Decisions
pub mod Isolation
mod Examples
use native.Mathlib.Decide.{ℕ_discrete}
use blackshard.Prelude.{
  ℕ, ◌+◌, ◌-◌, ◌*◌, ◌^◌, bit_or, Bool, true, false, not, ◌&&◌, ◌||◌, List, [], ◌∷◌, ◌++◌, Option,
  none, some, ltb, leb, ◌==◌, if◌then◌else◌, length,
}
use blackshard.Prelude.Maps.{lookup, remove, insert as map_insert}
use blackshard.Prelude.Bytes.{
  Bytes, codes, to_ascii_lowercase, replace, contains, contains_one_of, is_one_of, after_last,
}

abbrev pub window_millis : ℕ
window_millis = 10_000

abbrev pub alert_cooldown_millis : ℕ
alert_cooldown_millis = 10_000

abbrev pub max_tracked_processes : ℕ
max_tracked_processes = 256

abbrev pub max_events_per_process : ℕ
max_events_per_process = 128

abbrev pub high_entropy_write : ℕ
high_entropy_write = 1

abbrev pub renamed_or_deleted : ℕ
renamed_or_deleted = 2

pub data ProcessTrust : Type 0 where
  trusted unknown untrusted : ProcessTrust

pub data EntropyObservation : Type 0 where
  not_measured low normal high : EntropyObservation

pub data FileAction : Type 0 where
  read : FileAction
  write : EntropyObservation → FileAction
  rename delete other : FileAction

pub record BehaviorDecision : Type 0 where
  pub protected_path : Bool
  pub distinct_files : ℕ
  pub alert : Bool
  pub block : Bool

-- `events` is oldest first: the time and the fingerprint. `actions` has the flags of a fingerprint.
pub record ProcessActivity : Type 0 where
  pub events : List (ℕ × ℕ)
  pub actions : List (ℕ × ℕ)
  pub last_seen_millis : ℕ
  pub last_alert_millis : Option ℕ

-- The process id and its start key.
abbrev pub ProcessKey : Type 0
ProcessKey = ℕ × ℕ

unfoldable pub key_discrete : Discrete ProcessKey
key_discrete = hlevel ℕ_discrete

abbrev pub Processes : Type 0
Processes = List (ProcessKey × ProcessActivity)

pub record BehaviorObservation : Type 0 where
  pub process_id : ℕ
  pub process_start_key : ℕ
  pub path : Bytes
  pub trust : ProcessTrust
  pub block_mode : Bool
  pub now_millis : ℕ
  pub action : Option FileAction

unfoldable pub default_decision : BehaviorDecision
default_decision = record {
  protected_path = false;
  distinct_files = 0;
  alert = false;
  block = false;
}

-- `path` is the path's text (`to_string_lossy`).
unfoldable pub is_protected_document : Bytes → Bool
is_protected_document path =
    let normalized = to_ascii_lowercase (replace b'/' b'\x5c' path) in
    let protected_folder = contains_one_of normalized (
      "\\desktop\\" ∷ "\\documents\\" ∷ "\\pictures\\" ∷ "\\music\\" ∷ "\\videos\\"
      ∷ "\\favorites\\" ∷ "\\onedrive\\" ∷ "\\onedrive - " ∷ []) in
    if not (contains normalized (codes "\\users\\")) || not protected_folder
    then false
    else elim (after_last b'.' normalized) [
      | none ↦ false
      | some extension ↦ is_one_of extension (
          "doc" ∷ "docx" ∷ "docm" ∷ "xls" ∷ "xlsx" ∷ "xlsm" ∷ "ppt" ∷ "pptx" ∷ "pptm" ∷ "pdf"
          ∷ "txt" ∷ "rtf" ∷ "csv" ∷ "jpg" ∷ "jpeg" ∷ "png" ∷ "gif" ∷ "bmp" ∷ "svg" ∷ "mp3" ∷ "wav"
          ∷ "mp4" ∷ "mov" ∷ "avi" ∷ "zip" ∷ "7z" ∷ "rar" ∷ "sql" ∷ "db" ∷ "sqlite" ∷ "psd" ∷ "ai"
          ∷ [])
    ]
