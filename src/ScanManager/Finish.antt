-- ===== src/ScanManager/Finish.antt =====
-- How a scan of src/scan_manager.rs ends.
use blackshard.Prelude.{
  ℕ, zero, suc, ◌+◌, ◌<◌, ◌≡◌, refl, sym, ap, ◌∙◌, Bool, true, false, List, [], ◌∷◌, arith, length,
  All,
}
use blackshard.ScanManager.{
  ScanKind, ScanProgress, completed, Settings, new, cancel, finish_failed, finish, worker_count,
  discover, count_error, is_finished,
}
use blackshard.ScanManager.System.{
  Worker, idle, exited, received, scanned, reported, panicked, is_live, Stage, System, start,
  repeat, Works, Step, Reachable,
}
use blackshard.ScanManager.System
use blackshard.ScanManager.Balance.{sum, holds_file}
use blackshard.ScanManager.Counts.{Reachable-Adds}
use blackshard.ScanManager.Threads.{
  some_exited, Winds, not_finished, unfinished-completed, Works-Continues, work-Winds,
}

-- The files that panicked workers held.
abbrev pub held_by_panicked : Worker → ℕ
held_by_panicked (panicked w) = holds_file w
held_by_panicked _ = 0

ended-held : (w : Worker) → is_live w ≡ false → holds_file w ≡ held_by_panicked w
ended-held exited h = refl
ended-held (panicked w) h = refl
ended-held idle h = absurd (ground (arith, h))
ended-held (received path) h = absurd (ground (arith, h))
ended-held (scanned path) h = absurd (ground (arith, h))
ended-held (reported path r a) h = absurd (ground (arith, h))

sum-ended :
    (l : List Worker) → All (λ w. is_live w ≡ false) l → sum holds_file l ≡ sum held_by_panicked l
sum-ended [] h = refl
sum-ended (w ∷ l) h = omega (arith, ended-held w h.0, sum-ended l h.1)

repeat-idle : (n : ℕ) → some_exited (repeat n) ≡ false
repeat-idle zero = refl
repeat-idle (suc n) = repeat-idle n

length-repeat : (n : ℕ) → length (repeat n) ≡ n
length-repeat zero = refl
length-repeat (suc n) = ap suc (length-repeat n)

worker_count-positive : (settings : Settings) → 0 < worker_count settings
unfolding worker_count
worker_count-positive settings = omega arith

finish-completed :
    (now elapsed : ℕ) (enumerator_panicked was_cancelled : Bool) (p : ScanProgress)
    → (finish now elapsed enumerator_panicked was_cancelled p).phase ≡ completed
    → was_cancelled ≡ false
unfolding finish
finish-completed now elapsed enumerator_panicked was_cancelled p h = ground (arith, h)

cancel-finished : (p : ScanProgress) → is_finished (cancel p) ≡ is_finished p
unfolding cancel
cancel-finished p = ground arith

cancel-phase : (p : ScanProgress) → (cancel p).phase ≡ completed → p.phase ≡ completed
unfolding cancel
cancel-phase p e = ground (arith, e)

Step-Winds : (settings : Settings) {s t : System} → Step settings s t → Winds s → Winds t
unfolding discover count_error finish_failed
Step-Winds settings (System.raise_flag s) h = record {
  closed = h.closed;
  staffed = h.staffed;
  drained = λ r f. absurd (ground (arith, f));
  ended = h.ended;
  settled = h.settled;
  complete = h.complete;
}
Step-Winds settings (System.show_cancelling s c) h = record {
  closed = h.closed;
  staffed = h.staffed;
  drained = h.drained;
  ended = λ e. h.ended (sym (cancel-finished s.progress) ∙ e);
  settled = h.settled;
  complete = λ e. h.complete (cancel-phase s.progress e);
}
Step-Winds settings (System.fail s now elapsed message e) h = record {
  closed = λ r. absurd (ground (arith, r));
  staffed = λ r. absurd (ground (arith, r));
  drained = λ r. absurd (ground (arith, r));
  ended = λ f. refl;
  settled = λ g. absurd (ground (arith, g));
  complete = λ f. absurd (ground (arith, f));
}
Step-Winds settings (System.spawn s e) h = record {
  closed = λ r f. absurd (ground (arith, f));
  staffed =
      λ r. omega (arith, length-repeat (worker_count settings), worker_count-positive settings);
  drained = λ r f x. absurd (ground (arith, x, repeat-idle (worker_count settings)));
  ended = λ f. absurd (ground (arith, e, h.ended f));
  settled = λ g. absurd (ground (arith, g));
  complete = λ g y. absurd (ground (arith, y, repeat-idle (worker_count settings)));
}
Step-Winds settings (System.send s path excluded quarantined extension size e f u w l) h = record {
  closed = λ r g. absurd (ground (arith, f, g));
  staffed = h.staffed;
  drained = λ r g x. absurd (ground (arith, f, (h.drained r g x).1));
  ended = h.ended;
  settled = λ g. absurd (ground (arith, e, g));
  complete = λ g. absurd (unfinished-completed s.progress (not_finished s e h) g);
}
Step-Winds settings (System.count s e u) h = record {
  closed = λ r g. refl;
  staffed = h.staffed;
  drained = h.drained;
  ended = h.ended;
  settled = λ g. absurd (ground (arith, e, g));
  complete = λ f. absurd (unfinished-completed s.progress (not_finished s e h) f);
}
Step-Winds settings (System.miss s e f) h = record {
  closed = h.closed;
  staffed = h.staffed;
  drained = h.drained;
  ended = h.ended;
  settled = λ g. absurd (ground (arith, e, g));
  complete = h.complete;
}
Step-Winds settings (System.close s e u) h = record {
  closed = λ r g. u;
  staffed = h.staffed;
  drained = λ r f x. ((h.drained r f x).0, refl);
  ended = h.ended;
  settled = λ g. absurd (ground (arith, e, g));
  complete = h.complete;
}
Step-Winds settings (System.work s before after w w' queue p e f x) h =
    work-Winds s before after w w' queue p e f (Works-Continues x) h
Step-Winds settings (System.join s e f x) h = record {
  closed = λ r. absurd (ground (arith, r));
  staffed = λ r. absurd (ground (arith, r));
  drained = λ r. absurd (ground (arith, r));
  ended = λ g. absurd (ground (arith, e, h.ended g));
  settled = λ g y. let c : s.cancelled ≡ false = cc g in ((h.drained e c y).0, h.closed e f, x);
  complete = h.complete;
}
Step-Winds settings (System.conclude s now elapsed enumerator_panicked was_cancelled e) h = record {
  closed = λ r. absurd (ground (arith, r));
  staffed = λ r. absurd (ground (arith, r));
  drained = λ r. absurd (ground (arith, r));
  ended = λ g. refl;
  settled = λ g. absurd (ground (arith, g));
  complete = λ g.
      let c = finish-completed now elapsed enumerator_panicked was_cancelled s.progress g in
      h.settled (e ∙ ap Stage.joined c);
}

start-Winds : (kind : ScanKind) → Winds (start kind)
unfolding start new
start-Winds kind = record {
  closed = λ r. absurd (ground (arith, r));
  staffed = λ r. absurd (ground (arith, r));
  drained = λ r. absurd (ground (arith, r));
  ended = λ r. absurd (ground (arith, r));
  settled = λ r. absurd (ground (arith, r));
  complete = λ r. absurd (ground (arith, r));
}

Reachable-Winds :
    {settings : Settings} {kind : ScanKind} {s : System} → Reachable settings kind s → Winds s
Reachable-Winds {settings} {kind} System.initial = start-Winds kind
Reachable-Winds {settings} (System.next s t r x) = Step-Winds settings x (Reachable-Winds r)

finished-Step :
    {settings : Settings} {s t : System}
    → Step settings s t
    → is_finished s.progress ≡ true
    → s.stage ≡ Stage.finished
    → t.progress ≡ s.progress
unfolding cancel
finished-Step (System.raise_flag s) f e = refl
finished-Step (System.show_cancelling s c) f e = rw f refl
finished-Step (System.fail s now elapsed message g) f e = absurd (ground (arith, e, g))
finished-Step (System.spawn s g) f e = refl
finished-Step (System.send s path excluded quarantined extension size g i u w l) f e = refl
finished-Step (System.count s g u) f e = absurd (ground (arith, e, g))
finished-Step (System.miss s g i) f e = absurd (ground (arith, e, g))
finished-Step (System.close s g u) f e = refl
finished-Step (System.work s before after w w' queue p g i x) f e = absurd (ground (arith, e, g))
finished-Step (System.join s g i x) f e = refl
finished-Step (System.conclude s now elapsed enumerator_panicked was_cancelled g) f e =
    absurd (ground (arith, e, g))

-- A scan that ends as completed has scanned every file that it discovered, but for the files that
-- panicked workers held, when one worker at least has not panicked.
pub Reachable-complete :
    {settings : Settings} {kind : ScanKind} {s : System}
    → Reachable settings kind s
    → s.progress.phase ≡ completed
    → some_exited s.workers ≡ true
    → s.progress.scanned_files + sum held_by_panicked s.workers ≡ s.progress.discovered_files
Reachable-complete {settings} {kind} {s} r e x =
    let empty = (Reachable-Winds r).complete e x in
    let none : length _ ≡ 0 = ap length empty.0 in
    omega (arith, (Reachable-Adds r).conserved, none, empty.1, sum-ended s.workers empty.2)

-- Once a scan has finished, no step of any thread changes its progress, a cancellation included.
pub Step-finished :
    {settings : Settings} {kind : ScanKind} {s t : System}
    → Reachable settings kind s
    → is_finished s.progress ≡ true
    → Step settings s t
    → t.progress ≡ s.progress
Step-finished r f x = finished-Step x f ((Reachable-Winds r).ended f)
