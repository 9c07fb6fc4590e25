-- ===== src/ScanManager/Counts.antt =====
-- The counts of a scan of src/scan_manager.rs add up, whatever the order of the threads' steps.
use blackshard.Prelude.{
  ℕ, zero, suc, ◌+◌, ◌≤◌, ◌≡◌, refl, sym, ap, ◌∙◌, subst, Bool, true, List, [], ◌∷◌, ◌++◌, arith,
  length, length-append, if_split,
}
use blackshard.Prelude.Bytes.{Bytes}
use blackshard.ScanManager.{
  ScanKind, ScanProgress, Settings, max_visible_findings, new, cancel, finish_failed, finish,
  worker_count, discover, count_error,
}
use blackshard.ScanManager.System.{
  Worker, idle, exited, received, scanned, reported, Stage, System, start, repeat, Works, Step,
  Reachable,
}
use blackshard.ScanManager.System
use blackshard.ScanManager.Balance.{
  holds_file, holds_isolated, sum, sum-append, verdicts, Balanced, Works-Balanced,
}

-- The counts of a scan at any moment.
pub record Adds (s : System) : Type 0 where
  pub conserved :
      s.progress.scanned_files + sum holds_file s.workers + length s.queue
      ≡ s.progress.discovered_files + s.uncounted
  pub judged : verdicts s.progress ≤ s.progress.scanned_files
  pub failed : s.progress.scanned_files ≤ verdicts s.progress + s.progress.errors
  pub isolated :
      s.progress.quarantined_files ≤ s.progress.malicious_files + sum holds_isolated s.workers
  pub capped : length s.progress.findings ≤ max_visible_findings
  pub quiet : s.stage ≡ Stage.starting → s.workers ≡ []

work-Adds :
    (s : System) (before after : List Worker) (w w' : Worker) (q : List Bytes) (p : ScanProgress)
    → s.workers ≡ before ++ w ∷ after
    → Balanced w s.queue s.progress w' q p
    → s.stage ≡ Stage.running
    → Adds s
    → Adds (record s { workers = before ++ w' ∷ after; queue = q; progress = p })
work-Adds s before after w w' q p e b r h =
    let held : (f : Worker → ℕ) → sum f s.workers ≡ sum f before + (f w + sum f after) =
      λ f. ap (sum f) e ∙ sum-append f before (w ∷ after) in
    let holds : (f : Worker → ℕ)
        → sum f (before ++ w' ∷ after) ≡ sum f before + (f w' + sum f after) =
      λ f. sum-append f before (w' ∷ after) in
    record {
      conserved =
          omega (arith, h.conserved, held holds_file, holds holds_file, b.moved, b.discovered);
      judged = omega (arith, h.judged, b.judged);
      failed = omega (arith, h.failed, b.failed);
      isolated = omega (arith, h.isolated, held holds_isolated, holds holds_isolated, b.isolated);
      capped = b.capped h.capped;
      quiet = λ t. absurd (ground (arith, r, t));
    }

-- A progress with the same counts.
abbrev Same : ScanProgress → ScanProgress → Type 0
Same p p' =
    (p'.scanned_files ≡ p.scanned_files)
    × (p'.discovered_files ≡ p.discovered_files)
    × (p'.clean_files ≡ p.clean_files)
    × (p'.suspicious_files ≡ p.suspicious_files)
    × (p'.malicious_files ≡ p.malicious_files)
    × (p'.quarantined_files ≡ p.quarantined_files)
    × (p'.errors ≡ p.errors)
    × (p'.findings ≡ p.findings)

Same-refl : (p : ScanProgress) → Same p p
Same-refl p = (refl, refl, refl, refl, refl, refl, refl, refl)

cancel-Same : (p : ScanProgress) → Same p (cancel p)
unfolding cancel
cancel-Same p = if_split (Same p) _ {x = p} (Same-refl p) (Same-refl p)

finish-Same :
    (now elapsed : ℕ) (enumerator_panicked was_cancelled : Bool) (p : ScanProgress)
    → Same p (finish now elapsed enumerator_panicked was_cancelled p)
unfolding finish
finish-Same now elapsed enumerator_panicked was_cancelled p =
    if_split (Same p) enumerator_panicked (Same-refl p)
      (if_split (Same p) was_cancelled (Same-refl p) (Same-refl p))

Same-Adds :
    (s : System) (stage : Stage) (cancelled : Bool) (p : ScanProgress)
    → Same s.progress p
    → (stage ≡ Stage.starting → s.workers ≡ [])
    → Adds s
    → Adds (record s { stage = stage; cancelled = cancelled; progress = p })
Same-Adds s stage cancelled p e q h = record {
  conserved = ground (arith, e, h.conserved);
  judged = omega (arith, e, h.judged);
  failed = omega (arith, e, h.failed);
  isolated = omega (arith, e, h.isolated);
  capped = subst (λ l. length l ≤ max_visible_findings) (sym e.7) h.capped;
  quiet = q;
}

sum-repeat : (f : Worker → ℕ) (n : ℕ) → f idle ≡ 0 → sum f (repeat n) ≡ 0
sum-repeat f zero h = refl
sum-repeat f (suc n) h = omega (arith, h, sum-repeat f n h)

Step-Adds : (settings : Settings) {s t : System} → Step settings s t → Adds s → Adds t
unfolding discover count_error finish_failed
Step-Adds settings (System.raise_flag s) h =
    Same-Adds s s.stage true s.progress (Same-refl s.progress) h.quiet h
Step-Adds settings (System.show_cancelling s e) h =
    Same-Adds s s.stage s.cancelled (cancel s.progress) (cancel-Same s.progress) h.quiet h
Step-Adds settings (System.fail s now elapsed message e) h =
    Same-Adds s Stage.finished s.cancelled _ (Same-refl s.progress) (λ t. h.quiet e) h
Step-Adds settings (System.spawn s e) h = record {
  conserved = omega (
    arith,
    h.conserved,
    ap (sum holds_file) (h.quiet e),
    sum-repeat holds_file (worker_count settings) refl,
  );
  judged = h.judged;
  failed = h.failed;
  isolated = omega (
    arith,
    h.isolated,
    ap (sum holds_isolated) (h.quiet e),
    sum-repeat holds_isolated (worker_count settings) refl,
  );
  capped = h.capped;
  quiet = λ t. absurd (ground (arith, t));
}
Step-Adds settings (System.send s path excluded quarantined extension size e f u w l) h = record {
  conserved = omega (arith, h.conserved, u, length-append s.queue (path ∷ []));
  judged = h.judged;
  failed = h.failed;
  isolated = h.isolated;
  capped = h.capped;
  quiet = h.quiet;
}
Step-Adds settings (System.count s e u) h = record {
  conserved = omega (arith, h.conserved, u);
  judged = h.judged;
  failed = h.failed;
  isolated = h.isolated;
  capped = h.capped;
  quiet = h.quiet;
}
Step-Adds settings (System.miss s e f) h = record {
  conserved = h.conserved;
  judged = h.judged;
  failed = omega (arith, h.failed);
  isolated = h.isolated;
  capped = h.capped;
  quiet = h.quiet;
}
Step-Adds settings (System.close s e u) h = record {
  conserved = h.conserved;
  judged = h.judged;
  failed = h.failed;
  isolated = h.isolated;
  capped = h.capped;
  quiet = h.quiet;
}
Step-Adds settings (System.work s before after w w' queue p e f x) h =
    work-Adds s before after w w' queue p f (Works-Balanced x) e h
Step-Adds settings (System.join s e f x) h =
    Same-Adds s (Stage.joined s.cancelled) s.cancelled s.progress (Same-refl s.progress)
      (λ t. absurd (ground (arith, t))) h
Step-Adds settings (System.conclude s now elapsed enumerator_panicked was_cancelled e) h =
    Same-Adds s Stage.finished s.cancelled _
      (finish-Same now elapsed enumerator_panicked was_cancelled s.progress)
      (λ t. absurd (ground (arith, t))) h

start-Adds : (kind : ScanKind) → Adds (start kind)
unfolding start new
start-Adds kind = record {
  conserved = refl;
  judged = omega arith;
  failed = omega arith;
  isolated = omega arith;
  capped = omega arith;
  quiet = λ t. refl;
}

-- At any moment of a scan, whatever its threads have done: the files discovered are those scanned,
-- those a worker holds (or held when it panicked) and those in the queue (with one that is sent and
-- not yet counted); each scanned file has one verdict or is an error; no more files are quarantined
-- than are malicious, but for those a worker is about to count (or was when it panicked); and at
-- most 250 findings are kept.
pub Reachable-Adds :
    {settings : Settings} {kind : ScanKind} {s : System} → Reachable settings kind s → Adds s
Reachable-Adds {settings} {kind} System.initial = start-Adds kind
Reachable-Adds {settings} (System.next s t r x) = Step-Adds settings x (Reachable-Adds r)
