-- ===== src/ScanManager/Examples.antt =====
-- A scan of src/scan_manager.rs of one malicious file by one worker, a cancelled one, and the
-- theorems at them.
use blackshard.Prelude.{◌+◌, ◌≡◌, refl, arith, true, false, List, [], ◌∷◌, none, some}
use blackshard.Prelude.Bytes.{Bytes, codes, to_ascii_lowercase, is_one_of, bytes_eq}
use blackshard.Prelude.Results.{Result, ok}
use blackshard.ScanManager.{
  quick, scanning, completed, Settings, malicious, DetectionReport, QuarantineRecord, isolated,
  ScanProgress, new, cancel, finish, worker_count, is_wanted, is_archive_container, discover, begin,
  act, act_on, should_quarantine, quarantine_result, is_malicious, record_report, count_verdict,
  push_finding, is_finished,
}
use blackshard.ScanManager.System.{
  Worker, idle, exited, received, scanned, reported, panicked, Stage, System, start, repeat, Step,
  Reachable,
}
use blackshard.ScanManager.System
use blackshard.ScanManager.Balance.{sum}
use blackshard.ScanManager.Finish.{held_by_panicked}
use blackshard.ScanManager.Counts
use blackshard.ScanManager.Counts.{Adds}
use blackshard.ScanManager.Finish

computes : Unit {0}
unfolding start new cancel finish worker_count is_wanted is_archive_container discover begin act
    act_on should_quarantine quarantine_result is_malicious record_report count_verdict push_finding
    to_ascii_lowercase is_one_of bytes_eq
computes = tt

abbrev settings : Settings
settings = record {
  automatic_quarantine = true;
  low_resource_mode = false;
  worker_count = 1;
  scan_archives = true;
  max_file_size_mb = 10;
}

abbrev path : Bytes
path = codes "a.exe"

abbrev bad : DetectionReport
bad = record {
  verdict = malicious;
  risk_score = 100;
  threat_name = none;
  sha256 = some (codes "00");
  file_size = 5;
  automatic_quarantine_eligible = true;
}

abbrev answer : Result Bytes QuarantineRecord
answer = ok (record { state = isolated; removed_autostarts = [] })

abbrev spawned : System
spawned = record (start quick) {
  stage = Stage.running;
  is_enumerating = true;
  workers = repeat (worker_count settings);
}

abbrev sent : System
sent = record spawned { queue = path ∷ []; uncounted = 1 }

abbrev closed : System
closed = record sent { uncounted = 0; progress = discover sent.progress; is_enumerating = false }

abbrev with : Worker → List Bytes → ScanProgress → System
with w queue p = record closed { workers = w ∷ []; queue = queue; progress = p }

abbrev acted : ScanProgress
acted = (act settings bad answer (begin path closed.progress)).0

abbrev recorded : System
recorded =
    with idle []
      (record_report path bad (act settings bad answer (begin path closed.progress)).1 acted)

abbrev done : System
done = record recorded {
  workers = exited ∷ [];
  stage = Stage.finished;
  progress = finish 9 8 false false recorded.progress;
}

closed-Reachable : Reachable settings quick closed
unfolding computes
closed-Reachable =
    System.next _ _
      (System.next sent _
        (System.next _ _ (System.next _ _ System.initial (System.spawn (start quick) refl)) (
          System.send spawned path false false (some (codes "exe")) 5 refl refl refl refl
            (omega arith)))
        (System.count sent refl refl))
      (System.close (record sent { uncounted = 0; progress = discover sent.progress }) refl refl)

recorded-Reachable : Reachable settings quick recorded
unfolding computes
recorded-Reachable =
    System.next _ _
      (System.next _ _
        (System.next _ _
          (System.next closed _ closed-Reachable (
            System.work closed [] [] idle (received path) [] closed.progress refl refl
              (System.receive path [] closed.progress)))
          (System.work (with (received path) [] closed.progress) [] [] (received path)
            (scanned path) [] (begin path closed.progress) refl refl
            (System.show path [] closed.progress)))
        (System.work (with (scanned path) [] (begin path closed.progress)) [] [] (scanned path)
          (reported path bad (act settings bad answer (begin path closed.progress)).1) [] acted refl
          refl (System.report path bad answer [] (begin path closed.progress))))
      (System.work
        (with (reported path bad (act settings bad answer (begin path closed.progress)).1) [] acted)
        [] [] (reported path bad (act settings bad answer (begin path closed.progress)).1) idle []
        recorded.progress refl refl
        (System.store path bad (act settings bad answer (begin path closed.progress)).1 [] acted))

done-Reachable : Reachable settings quick done
unfolding computes
done-Reachable =
    System.next _ _
      (System.next _ _
        (System.next recorded _ recorded-Reachable (
          System.work recorded [] [] idle exited [] recorded.progress refl refl
            (System.disconnect recorded.progress refl)))
        (System.join (record recorded { workers = exited ∷ [] }) refl refl (refl, tt)))
      (System.conclude (record recorded { workers = exited ∷ []; stage = Stage.joined false }) 9 8
        false false refl)

done_is_completed : done.progress.phase ≡ completed
unfolding computes
done_is_completed = refl

Reachable-Adds_example : Adds recorded
Reachable-Adds_example = Counts.Reachable-Adds recorded-Reachable

Reachable-complete_example :
    done.progress.scanned_files + sum held_by_panicked done.workers ≡ done.progress.discovered_files
Reachable-complete_example = Finish.Reachable-complete done-Reachable done_is_completed refl

-- The only worker panics with the file in its hands, and the scan ends as completed all the same.
abbrev lost : System
lost = record closed {
  queue = [];
  workers = panicked (received path) ∷ [];
  stage = Stage.finished;
  progress = finish 9 8 false false closed.progress;
}

lost-Reachable : Reachable settings quick lost
unfolding computes
lost-Reachable =
    System.next _ _
      (System.next _ _
        (System.next _ _
          (System.next closed _ closed-Reachable (
            System.work closed [] [] idle (received path) [] closed.progress refl refl
              (System.receive path [] closed.progress)))
          (System.work (with (received path) [] closed.progress) [] [] (received path)
            (panicked (received path)) [] closed.progress refl refl
            (System.panic (received path) [] closed.progress refl)))
        (System.join (with (panicked (received path)) [] closed.progress) refl refl (refl, tt)))
      (System.conclude
        (record (with (panicked (received path)) [] closed.progress) { stage = Stage.joined false })
        9 8 false false refl)

lost_is_completed :
    (lost.progress.phase ≡ completed)
    × (lost.progress.discovered_files ≡ 1)
    × (lost.progress.scanned_files ≡ 0)
unfolding computes
lost_is_completed = (refl, refl, refl)

abbrev flagged : System
flagged = record done { cancelled = true }

flagged-Reachable : Reachable settings quick flagged
flagged-Reachable = System.next _ _ done-Reachable (System.raise_flag done)

flagged_is_finished : is_finished flagged.progress ≡ true
unfolding computes
flagged_is_finished = refl

Step-finished_example : cancel flagged.progress ≡ flagged.progress
Step-finished_example =
    Finish.Step-finished flagged-Reachable flagged_is_finished (System.show_cancelling flagged refl)

-- A worker that has received its file sets the phase back from Cancelling to Scanning.
abbrev overwritten : System
overwritten = record closed {
  cancelled = true;
  queue = [];
  workers = scanned path ∷ [];
  progress = begin path (cancel closed.progress);
}

overwritten-Reachable : Reachable settings quick overwritten
unfolding computes
overwritten-Reachable =
    System.next _ _
      (System.next _ _
        (System.next _ _
          (System.next closed _ closed-Reachable (
            System.work closed [] [] idle (received path) [] closed.progress refl refl
              (System.receive path [] closed.progress)))
          (System.raise_flag (with (received path) [] closed.progress)))
        (System.show_cancelling
          (record (with (received path) [] closed.progress) { cancelled = true }) refl))
      (System.work (record (with (received path) [] (cancel closed.progress)) { cancelled = true })
        [] [] (received path) (scanned path) [] (begin path (cancel closed.progress)) refl refl
        (System.show path [] (cancel closed.progress)))

overwritten_shows_scanning :
    (overwritten.cancelled ≡ true) × (overwritten.progress.phase ≡ scanning)
unfolding computes
overwritten_shows_scanning = (refl, refl)
