-- ===== src/ScanManager/System.antt =====
-- The threads of src/scan_manager.rs: `run_scan`, `enumerate_files`, the loops of `scan_worker` and
-- the caller of `ScanJob::cancel`, as steps on what they share. A check of the flag `cancelled` and
-- what follows it are two steps, so that the caller may come between them. `uncounted` is 1 between
-- the sending of a file and its count. A worker may panic between any two of its steps (but not while
-- it holds the lock of the queue or of the progress); `run_scan` ignores how a worker ended.
use blackshard.Prelude.{
  ℕ, zero, suc, ◌*◌, ◌<◌, ◌≡◌, Bool, true, false, List, [], ◌∷◌, ◌++◌, Option, length, All,
}
use blackshard.Prelude.Bytes.{Bytes}
use blackshard.Prelude.Results.{Result}
use blackshard.ScanManager.{
  ScanKind, ScanProgress, Settings, DetectionReport, QuarantineRecord, Action, new, cancel,
  finish_failed, finish, worker_count, is_wanted, discover, count_error, begin, act, record_report,
}

-- Where a worker is in its loop.
pub data Worker : Type 0 where
  idle exited : Worker
  received scanned : Bytes → Worker
  reported : Bytes → DetectionReport → Action → Worker
  panicked : Worker → Worker

pub data Stage : Type 0 where
  starting running finished : Stage
  joined : Bool → Stage

-- The thread of the worker has not ended.
abbrev pub is_live : Worker → Bool
is_live Worker.exited = false
is_live (Worker.panicked w) = false
is_live _ = true

pub record System : Type 0 where
  pub stage : Stage
  pub progress : ScanProgress
  pub cancelled : Bool
  pub queue : List Bytes
  pub uncounted : ℕ
  pub is_enumerating : Bool
  pub workers : List Worker

unfoldable pub start : ScanKind → System
start kind = record {
  stage = Stage.starting;
  progress = new kind;
  cancelled = false;
  queue = [];
  uncounted = 0;
  is_enumerating = false;
  workers = [];
}

abbrev pub repeat : ℕ → List Worker
repeat zero = []
repeat (suc n) = Worker.idle ∷ repeat n

-- A worker's step, with the queue and the progress before and after it.
pub data Works (settings : Settings) (cancelled is_enumerating : Bool)
    : Worker → List Bytes → ScanProgress → Worker → List Bytes → ScanProgress → Type 0 where
  stop :
      (queue : List Bytes) (p : ScanProgress)
      → cancelled ≡ true
      → Works settings cancelled is_enumerating Worker.idle queue p Worker.exited queue p
  disconnect :
      (p : ScanProgress)
      → is_enumerating ≡ false
      → Works settings cancelled is_enumerating Worker.idle [] p Worker.exited [] p
  receive :
      (path : Bytes) (queue : List Bytes) (p : ScanProgress)
      → Works settings cancelled is_enumerating Worker.idle
          (path ∷ queue)
          p
          (Worker.received path)
          queue
          p
  show :
      (path : Bytes) (queue : List Bytes) (p : ScanProgress)
      → Works settings cancelled is_enumerating
          (Worker.received path)
          queue
          p
          (Worker.scanned path)
          queue
          (begin path p)
  report :
      (path : Bytes) (r : DetectionReport) (answer : Result Bytes QuarantineRecord)
      (queue : List Bytes) (p : ScanProgress)
      → Works settings cancelled is_enumerating
          (Worker.scanned path)
          queue
          p
          (Worker.reported path r (act settings r answer p).1)
          queue
          (act settings r answer p).0
  store :
      (path : Bytes) (r : DetectionReport) (a : Action) (queue : List Bytes) (p : ScanProgress)
      → Works settings cancelled is_enumerating
          (Worker.reported path r a)
          queue
          p
          Worker.idle
          queue
          (record_report path r a p)
  panic :
      (w : Worker) (queue : List Bytes) (p : ScanProgress)
      → is_live w ≡ true
      → Works settings cancelled is_enumerating w queue p (Worker.panicked w) queue p

pub data Step (settings : Settings) : System → System → Type 0 where
  raise_flag : (s : System) → Step settings s (record s { cancelled = true })
  show_cancelling :
      (s : System)
      → s.cancelled ≡ true
      → Step settings s (record s { progress = cancel s.progress })
  fail :
      (s : System) (now elapsed : ℕ) (message : Bytes)
      → s.stage ≡ Stage.starting
      → Step settings s (record s {
        stage = Stage.finished;
        progress = finish_failed now elapsed message s.progress;
      })
  spawn :
      (s : System)
      → s.stage ≡ Stage.starting
      → Step settings s (record s {
        stage = Stage.running;
        is_enumerating = true;
        workers = repeat (worker_count settings);
      })
  send :
      (s : System) (path : Bytes) (excluded quarantined : Bool) (extension : Option Bytes)
      (size : ℕ)
      → s.stage ≡ Stage.running
      → s.is_enumerating ≡ true
      → s.uncounted ≡ 0
      → is_wanted settings excluded quarantined extension size ≡ true
      → length s.queue < worker_count settings * 8
      → Step settings s (record s { queue = s.queue ++ path ∷ []; uncounted = 1 })
  count :
      (s : System)
      → s.stage ≡ Stage.running
      → s.uncounted ≡ 1
      → Step settings s (record s { uncounted = 0; progress = discover s.progress })
  miss :
      (s : System)
      → s.stage ≡ Stage.running
      → s.is_enumerating ≡ true
      → Step settings s (record s { progress = count_error s.progress })
  close :
      (s : System)
      → s.stage ≡ Stage.running
      → s.uncounted ≡ 0
      → Step settings s (record s { is_enumerating = false })
  work :
      (s : System) (before after : List Worker) (w w' : Worker) (queue : List Bytes)
      (p : ScanProgress)
      → s.stage ≡ Stage.running
      → s.workers ≡ before ++ w ∷ after
      → Works settings s.cancelled s.is_enumerating w s.queue s.progress w' queue p
      → Step settings s (record s { workers = before ++ w' ∷ after; queue = queue; progress = p })
  join :
      (s : System)
      → s.stage ≡ Stage.running
      → s.is_enumerating ≡ false
      → All (λ w. is_live w ≡ false) s.workers
      → Step settings s (record s { stage = Stage.joined s.cancelled })
  conclude :
      (s : System) (now elapsed : ℕ) (enumerator_panicked was_cancelled : Bool)
      → s.stage ≡ Stage.joined was_cancelled
      → Step settings s (record s {
        stage = Stage.finished;
        progress = finish now elapsed enumerator_panicked was_cancelled s.progress;
      })

-- What a scan can come to.
pub data Reachable (settings : Settings) (kind : ScanKind) : System → Type 0 where
  initial : Reachable settings kind (start kind)
  next : (s t : System) → Reachable settings kind s → Step settings s t → Reachable settings kind t
