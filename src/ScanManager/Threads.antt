-- ===== src/ScanManager/Threads.antt =====
-- The queue, the workers and the phase while a scan of src/scan_manager.rs runs.
use blackshard.Prelude.{
  ◌<◌, ◌≡◌, refl, ap, ◌∙◌, Bool, true, false, ◌&&◌, ◌||◌, List, [], ◌∷◌, ◌++◌, inl, inr, arith,
  length, length-append, All, Bool-cases, if_split,
}
use blackshard.Prelude.Bytes.{Bytes}
use blackshard.Prelude.Results.{Result, ok, error}
use blackshard.ScanManager.{
  QuarantineRecord, is_isolated, should_quarantine, no_action, quarantine_result, ScanProgress,
  completed, Settings, DetectionReport, Action, begin, act, act_on, record_report, count_verdict,
  phase_is_finished, is_finished,
}
use blackshard.ScanManager.System.{
  Worker, idle, exited, received, scanned, reported, Stage, System, is_live, start, repeat, Works,
  Step, Reachable,
}
use blackshard.ScanManager.System

abbrev is_exited : Worker → Bool
is_exited exited = true
is_exited _ = false

abbrev pub some_exited : List Worker → Bool
some_exited [] = false
some_exited (w ∷ l) = is_exited w || some_exited l

some_exited-append : (l m : List Worker) → some_exited (l ++ m) ≡ (some_exited l || some_exited m)
some_exited-append [] m = refl
some_exited-append (w ∷ l) m = ground (arith, some_exited-append l m)

-- No file is on its way to a worker, and no worker runs.
abbrev pub Empty : System → Type 0
Empty s = (s.queue ≡ []) × (s.uncounted ≡ 0) × All (λ w. is_live w ≡ false) s.workers

-- What holds of the threads at any moment.
pub record Winds (s : System) : Type 0 where
  pub closed : s.stage ≡ Stage.running → s.is_enumerating ≡ false → s.uncounted ≡ 0
  pub staffed : s.stage ≡ Stage.running → 0 < length s.workers
  pub drained :
      s.stage ≡ Stage.running
      → s.cancelled ≡ false
      → some_exited s.workers ≡ true
      → (s.queue ≡ []) × (s.is_enumerating ≡ false)
  pub ended : is_finished s.progress ≡ true → s.stage ≡ Stage.finished
  pub settled : s.stage ≡ Stage.joined false → some_exited s.workers ≡ true → Empty s
  pub complete : s.progress.phase ≡ completed → some_exited s.workers ≡ true → Empty s

pub not_finished : (s : System) → s.stage ≡ Stage.running → Winds s → is_finished s.progress ≡ false
not_finished s r h = elim (Bool-cases (is_finished s.progress)) [
  | inl e ↦ absurd (ground (arith, r, h.ended e))
  | inr e ↦ e
]

pub unfinished-completed : (p : ScanProgress) → is_finished p ≡ false → p.phase ≡ completed → ⊥
unfinished-completed p h e = ground (arith, h, e)

-- What a worker's step does to the phase and the queue.
pub record Continues (cancelled is_enumerating : Bool) (w : Worker) (q : List Bytes)
    (p : ScanProgress) (w' : Worker) (q' : List Bytes) (p' : ScanProgress) : Type 0 where
  unfinished : is_finished p ≡ false → is_finished p' ≡ false
  drained : cancelled ≡ false → is_exited w' ≡ true → (q' ≡ []) × (is_enumerating ≡ false)
  kept : q ≡ [] → q' ≡ []

phase-act_on :
    (result : Result Bytes QuarantineRecord) (p : ScanProgress)
    → (act_on result p).0.phase ≡ p.phase
unfolding act_on
phase-act_on (ok q) p =
    if_split {A = ScanProgress × Action} (λ a. a.0.phase ≡ p.phase) (is_isolated q) refl refl
phase-act_on (error message) p = refl

phase-act :
    (settings : Settings) (r : DetectionReport) (answer : Result Bytes QuarantineRecord)
    (p : ScanProgress)
    → (act settings r answer p).0.phase ≡ p.phase
unfolding act
phase-act settings r answer p =
    if_split {A = ScanProgress × Action} (λ a. a.0.phase ≡ p.phase)
      (should_quarantine r && settings.automatic_quarantine) {y = (p, no_action)}
      (phase-act_on (quarantine_result r answer) p) refl

pub Works-Continues :
    {settings : Settings} {cancelled is_enumerating : Bool} {w : Worker} {q : List Bytes}
    {p : ScanProgress} {w' : Worker} {q' : List Bytes} {p' : ScanProgress}
    → Works settings cancelled is_enumerating w q p w' q' p'
    → Continues cancelled is_enumerating w q p w' q' p'
unfolding begin record_report count_verdict
Works-Continues (System.stop queue p c) = record {
  unfinished = λ h. h;
  drained = λ f e. absurd (ground (arith, c, f));
  kept = λ h. h;
}
Works-Continues (System.disconnect p c) = record {
  unfinished = λ h. h;
  drained = λ f e. (refl, c);
  kept = λ h. h;
}
Works-Continues (System.receive path queue p) = record {
  unfinished = λ h. h;
  drained = λ f e. absurd (ground (arith, e));
  kept = λ h. absurd (ground (arith, h));
}
Works-Continues (System.show path queue p) = record {
  unfinished = λ h. refl;
  drained = λ f e. absurd (ground (arith, e));
  kept = λ h. h;
}
Works-Continues {settings} (System.report path r answer queue p) = record {
  unfinished = λ h. ap phase_is_finished (phase-act settings r answer p) ∙ h;
  drained = λ f e. absurd (ground (arith, e));
  kept = λ h. h;
}
Works-Continues (System.store path r a queue p) = record {
  unfinished = λ h. ground (arith, h);
  drained = λ f e. absurd (ground (arith, e));
  kept = λ h. h;
}
Works-Continues (System.panic w queue p e) = record {
  unfinished = λ h. h;
  drained = λ f x. absurd (ground (arith, x));
  kept = λ h. h;
}

pub work-Winds :
    (s : System) (before after : List Worker) (w w' : Worker) (q : List Bytes) (p : ScanProgress)
    → s.stage ≡ Stage.running
    → s.workers ≡ before ++ w ∷ after
    → Continues s.cancelled s.is_enumerating w s.queue s.progress w' q p
    → Winds s
    → Winds (record s { workers = before ++ w' ∷ after; queue = q; progress = p })
work-Winds s before after w w' q p r e c h =
    let going : is_finished s.progress ≡ false = not_finished s r h in
    let still = c.unfinished going in
    record {
      closed = h.closed;
      staffed = λ t. omega (arith, length-append before (w' ∷ after));
      drained = λ t f x. elim (Bool-cases (is_exited w')) [
        | inl i ↦ c.drained f i
        | inr i ↦
            let old : some_exited s.workers ≡ true =
              ap some_exited e
              ∙ ground (
                arith,
                x,
                i,
                some_exited-append before (w ∷ after),
                some_exited-append before (w' ∷ after),
              ) in
            let d = h.drained t f old in (c.kept d.0, d.1)
      ];
      ended = λ t. absurd (ground (arith, t, still));
      settled = λ t. absurd (ground (arith, r, t));
      complete = λ t. absurd (unfinished-completed p still t);
    }
