-- ===== src/ScanManager.antt =====
-- src/scan_manager.rs: the progress of a scan and the operations on it. Paths and texts are bytes,
-- times are numbers. The quarantine store and the engine are known by what they return. System has
-- the threads.
pub mod System
pub mod Balance
pub mod Counts
pub mod Threads
pub mod Finish
mod Examples
use blackshard.Prelude.{
  ℕ, zero, suc, ◌+◌, ◌-◌, ◌*◌, ◌^◌, min, max, Bool, true, false, not, ◌&&◌, ◌||◌, List, [], ◌∷◌,
  ◌++◌, Option, none, some, ltb, leb, ◌==◌, if◌then◌else◌, length, drop,
}
use blackshard.Prelude.Bytes.{Bytes, codes, to_ascii_lowercase, is_one_of}
use blackshard.Prelude.Results.{Result, ok, error}

abbrev pub max_visible_findings : ℕ
max_visible_findings = 250

pub data ScanKind : Type 0 where
  quick full : ScanKind
  custom : List Bytes → ScanKind

pub data ScanPhase : Type 0 where
  enumerating scanning cancelling completed cancelled failed : ScanPhase

pub data DetectionVerdict : Type 0 where
  clean suspicious malicious failure : DetectionVerdict

pub data IsolationState : Type 0 where
  isolated source_still_present : IsolationState

-- The fields of a report that a scan reads.
pub record DetectionReport : Type 0 where
  pub verdict : DetectionVerdict
  pub risk_score : ℕ
  pub threat_name : Option Bytes
  pub sha256 : Option Bytes
  pub file_size : ℕ
  pub automatic_quarantine_eligible : Bool

-- The fields of a record that a scan reads.
pub record QuarantineRecord : Type 0 where
  pub state : IsolationState
  pub removed_autostarts : List Bytes

pub record ScanFinding : Type 0 where
  pub path : Bytes
  pub report : DetectionReport
  pub quarantine : Option QuarantineRecord
  pub action_error : Option Bytes

pub record ScanProgress : Type 0 where
  pub kind : ScanKind
  pub phase : ScanPhase
  pub finished_at : Option ℕ
  pub current_path : Option Bytes
  pub discovered_files : ℕ
  pub scanned_files : ℕ
  pub scanned_bytes : ℕ
  pub clean_files : ℕ
  pub suspicious_files : ℕ
  pub malicious_files : ℕ
  pub quarantined_files : ℕ
  pub errors : ℕ
  pub findings : List ScanFinding
  pub elapsed : ℕ
  pub failure : Option Bytes

-- The settings that a scan reads.
pub record Settings : Type 0 where
  pub automatic_quarantine : Bool
  pub low_resource_mode : Bool
  pub worker_count : ℕ
  pub scan_archives : Bool
  pub max_file_size_mb : ℕ

unfoldable pub new : ScanKind → ScanProgress
new kind = record {
  kind = kind;
  phase = enumerating;
  finished_at = none;
  current_path = none;
  discovered_files = 0;
  scanned_files = 0;
  scanned_bytes = 0;
  clean_files = 0;
  suspicious_files = 0;
  malicious_files = 0;
  quarantined_files = 0;
  errors = 0;
  findings = [];
  elapsed = 0;
  failure = none;
}

abbrev pub phase_is_finished : ScanPhase → Bool
phase_is_finished completed = true
phase_is_finished cancelled = true
phase_is_finished failed = true
phase_is_finished _ = false

abbrev pub is_finished : ScanProgress → Bool
is_finished p = phase_is_finished p.phase

-- What `ScanJob::cancel` does to the progress.
unfoldable pub cancel : ScanProgress → ScanProgress
cancel p = if is_finished p then p else record p { phase = cancelling }

unfoldable pub finish_failed : ℕ → ℕ → Bytes → ScanProgress → ScanProgress
finish_failed now elapsed message p = record p {
  phase = failed;
  failure = some message;
  elapsed = elapsed;
  finished_at = some now;
}

-- The end of `run_scan`.
unfoldable pub finish : ℕ → ℕ → Bool → Bool → ScanProgress → ScanProgress
finish now elapsed panicked was_cancelled p =
    let ended = record p { current_path = none; elapsed = elapsed; finished_at = some now } in
    if panicked
    then record ended { phase = failed; failure = some (codes "file enumeration worker panicked") }
    else if was_cancelled
    then record ended { phase = cancelled }
    else record ended { phase = completed }

unfoldable pub worker_count : Settings → ℕ
worker_count s = max (if s.low_resource_mode then min s.worker_count 2 else s.worker_count) 1

-- `path.extension()`, in lower case, is one of the containers'; the extension is a parameter.
unfoldable pub is_archive_container : Option Bytes → Bool
is_archive_container none = false
is_archive_container (some extension) =
    is_one_of (to_ascii_lowercase extension)
      ("7z" ∷ "cab" ∷ "gz" ∷ "iso" ∷ "rar" ∷ "tar" ∷ "tgz" ∷ "xz" ∷ "zip" ∷ [])

abbrev pub saturating_mul : ℕ → ℕ → ℕ
saturating_mul a b = min (a * b) (2 ^ 64 - 1)

-- Whether `enqueue_file` sends a file of the given size, with the answers of `is_excluded` and of
-- `starts_with(quarantine_root)`.
unfoldable pub is_wanted : Settings → Bool → Bool → Option Bytes → ℕ → Bool
is_wanted s excluded quarantined extension size =
    not (excluded || quarantined || (not s.scan_archives && is_archive_container extension))
    && leb size (saturating_mul s.max_file_size_mb (1024 * 1024))

unfoldable pub discover : ScanProgress → ScanProgress
discover p = record p { discovered_files = p.discovered_files + 1 }

unfoldable pub count_error : ScanProgress → ScanProgress
count_error p = record p { errors = p.errors + 1 }

-- What a worker does with the progress before it scans.
unfoldable pub begin : Bytes → ScanProgress → ScanProgress
begin path p = record p { phase = scanning; current_path = some path }

unfoldable pub is_malicious : DetectionVerdict → Bool
is_malicious malicious = true
is_malicious _ = false

unfoldable pub should_quarantine : DetectionReport → Bool
should_quarantine r = is_malicious r.verdict && r.automatic_quarantine_eligible

pub record Action : Type 0 where
  pub quarantine : Option QuarantineRecord
  pub action_error : Option Bytes

abbrev pub no_action : Action
no_action = record { quarantine = none; action_error = none }

abbrev pub is_isolated : QuarantineRecord → Bool
is_isolated q = elim q.state [ isolated ↦ true | source_still_present ↦ false ]

-- `quarantine_result`: the store's answer counts only for a file that was hashed.
unfoldable pub quarantine_result :
    DetectionReport → Result Bytes QuarantineRecord → Result Bytes QuarantineRecord
quarantine_result r answer = elim r.sha256 [
  | some hash ↦ answer
  | none ↦ error (codes "the complete file was not hashed; automatic quarantine was withheld")
]

unfoldable pub act_on : Result Bytes QuarantineRecord → ScanProgress → ScanProgress × Action
act_on (ok q) p =
    if is_isolated q
    then (
      record p { quarantined_files = p.quarantined_files + 1 },
      record { quarantine = some q; action_error = none },
    )
    else (
      p,
      record {
        quarantine = some q;
        action_error = some (codes "a neutralized copy was created, but the original remains");
      },
    )
act_on (error message) p = (p, record { quarantine = none; action_error = some message })

-- What a worker does with a report before it records it.
unfoldable pub act :
    Settings
    → DetectionReport
    → Result Bytes QuarantineRecord
    → ScanProgress
    → ScanProgress × Action
act s r answer p =
    if should_quarantine r && s.automatic_quarantine
    then act_on (quarantine_result r answer) p
    else (p, no_action)

unfoldable pub count_verdict : DetectionVerdict → ScanProgress → ScanProgress
count_verdict clean p = record p { clean_files = p.clean_files + 1 }
count_verdict suspicious p = record p { suspicious_files = p.suspicious_files + 1 }
count_verdict malicious p = record p { malicious_files = p.malicious_files + 1 }
count_verdict failure p = record p { errors = p.errors + 1 }

abbrev pub is_clean : DetectionVerdict → Bool
is_clean clean = true
is_clean _ = false

unfoldable pub push_finding : ScanFinding → List ScanFinding → List ScanFinding
push_finding f l = (if length l == max_visible_findings then drop 1 l else l) ++ f ∷ []

-- The last block of the loop of `scan_worker`.
unfoldable pub record_report : Bytes → DetectionReport → Action → ScanProgress → ScanProgress
record_report path r a p =
    let counted = count_verdict r.verdict (record p {
      scanned_files = p.scanned_files + 1;
      scanned_bytes = min (p.scanned_bytes + r.file_size) (2 ^ 64 - 1);
    }) in
    if is_clean r.verdict then counted else record counted {
      findings =
          push_finding
            (record {
              path = path;
              report = r;
              quarantine = a.quarantine;
              action_error = a.action_error;
            })
            counted.findings;
    }
