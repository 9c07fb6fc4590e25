-- ===== src/ScanManager/Balance.antt =====
-- What a worker's step does to the counts of src/scan_manager.rs.
use blackshard.Prelude.{
  ℕ, ◌+◌, ◌-◌, ◌^◌, min, ◌≤◌, ◌≡◌, refl, sym, subst, Bool, true, false, ◌&&◌, List, [], ◌∷◌, ◌++◌,
  Option, none, some, inl, inr, arith, length, length-append, length-drop, drop, ◌==◌,
  if◌then◌else◌, Bool-cases, if_split,
}
use blackshard.Prelude.Bytes.{Bytes}
use blackshard.Prelude.Results.{Result, ok, error}
use blackshard.ScanManager.{
  ScanProgress, ScanFinding, Settings, DetectionVerdict, clean, suspicious, malicious, failure,
  DetectionReport, QuarantineRecord, Action, max_visible_findings, begin, act, act_on,
  record_report, count_verdict, push_finding, should_quarantine, is_malicious, quarantine_result,
  is_isolated, is_clean,
}
use blackshard.ScanManager.System.{
  Worker, idle, exited, received, scanned, reported, panicked, Stage, System, start, repeat, Works,
  Step, Reachable,
}
use blackshard.ScanManager.System

-- A worker holds a file, or held it when it panicked.
abbrev pub holds_file : Worker → ℕ
holds_file idle = 0
holds_file exited = 0
holds_file (received path) = 1
holds_file (scanned path) = 1
holds_file (reported path r a) = 1
holds_file (panicked w) = holds_file w

abbrev is_isolating : Option QuarantineRecord → Bool
is_isolating none = false
is_isolating (some q) = is_isolated q

-- A worker has isolated a malicious file that it has not counted.
abbrev pub holds_isolated : Worker → ℕ
holds_isolated (reported path r a) =
    if is_malicious r.verdict && is_isolating a.quarantine then 1 else 0
holds_isolated (panicked w) = holds_isolated w
holds_isolated _ = 0

abbrev pub sum : (Worker → ℕ) → List Worker → ℕ
sum f [] = 0
sum f (w ∷ l) = f w + sum f l

pub sum-append : (f : Worker → ℕ) (l m : List Worker) → sum f (l ++ m) ≡ sum f l + sum f m
sum-append f [] m = omega arith
sum-append f (w ∷ l) m = omega (arith, sum-append f l m)

abbrev pub verdicts : ScanProgress → ℕ
verdicts p = p.clean_files + p.suspicious_files + p.malicious_files

push_finding-capped :
    (f : ScanFinding) (l : List ScanFinding)
    → length l ≤ max_visible_findings
    → length (push_finding f l) ≤ max_visible_findings
unfolding push_finding
push_finding-capped f l h = elim (Bool-cases (length l == max_visible_findings)) [
  | inl e ↦ rw e (ground (arith, length-append (drop 1 l) (f ∷ []), length-drop 1 l, e))
  | inr e ↦ rw e (ground (arith, length-append l (f ∷ []), e))
]

-- What a worker's step does to the counts.
pub record Balanced (w : Worker) (q : List Bytes) (p : ScanProgress) (w' : Worker) (q' : List Bytes)
    (p' : ScanProgress) : Type 0 where
  pub moved :
      p'.scanned_files + holds_file w' + length q' ≡ p.scanned_files + holds_file w + length q
  pub discovered : p'.discovered_files ≡ p.discovered_files
  pub judged : verdicts p' + p.scanned_files ≤ verdicts p + p'.scanned_files
  pub failed :
      p'.scanned_files + (verdicts p + p.errors) ≤ p.scanned_files + (verdicts p' + p'.errors)
  pub isolated :
      p'.quarantined_files + p.malicious_files + holds_isolated w
      ≤ p.quarantined_files + p'.malicious_files + holds_isolated w'
  pub capped : length p.findings ≤ max_visible_findings → length p'.findings ≤ max_visible_findings

act_on-Balanced :
    (path : Bytes) (r : DetectionReport) (result : Result Bytes QuarantineRecord) (q : List Bytes)
    (p : ScanProgress)
    → is_malicious r.verdict ≡ true
    → Balanced (scanned path) q p (reported path r (act_on result p).1) q (act_on result p).0
unfolding act_on
act_on-Balanced path r (ok record_) q p m = elim (Bool-cases (is_isolated record_)) [
  | inl e ↦ rw e (record {
    moved = refl;
    discovered = refl;
    judged = omega arith;
    failed = omega arith;
    isolated = ground (arith, m, e);
    capped = λ h. h;
  })
  | inr e ↦ rw e (record {
    moved = refl;
    discovered = refl;
    judged = omega arith;
    failed = omega arith;
    isolated = ground (arith, m, e);
    capped = λ h. h;
  })
]
act_on-Balanced path r (error message) q p m = record {
  moved = refl;
  discovered = refl;
  judged = omega arith;
  failed = omega arith;
  isolated = ground (arith, m);
  capped = λ h. h;
}

report-Balanced :
    (settings : Settings) (path : Bytes) (r : DetectionReport)
    (answer : Result Bytes QuarantineRecord) (q : List Bytes) (p : ScanProgress)
    → Balanced
        (scanned path)
        q
        p
        (reported path r (act settings r answer p).1)
        q
        (act settings r answer p).0
unfolding act act_on should_quarantine
report-Balanced settings path r answer q p =
    elim (Bool-cases (should_quarantine r && settings.automatic_quarantine)) [
      | inl e ↦ rw e (act_on-Balanced path r (quarantine_result r answer) q p (ground (arith, e)))
      | inr e ↦ rw e (record {
        moved = refl;
        discovered = refl;
        judged = omega arith;
        failed = omega arith;
        isolated = ground arith;
        capped = λ h. h;
      })
    ]

count_verdict-findings :
    (v : DetectionVerdict) (p : ScanProgress) → (count_verdict v p).findings ≡ p.findings
unfolding count_verdict
count_verdict-findings clean p = refl
count_verdict-findings suspicious p = refl
count_verdict-findings malicious p = refl
count_verdict-findings failure p = refl

record_report-capped :
    (path : Bytes) (r : DetectionReport) (a : Action) (p : ScanProgress)
    → length p.findings ≤ max_visible_findings
    → length (record_report path r a p).findings ≤ max_visible_findings
unfolding record_report
record_report-capped path r a p h =
    let counted = count_verdict r.verdict (record p {
      scanned_files = p.scanned_files + 1;
      scanned_bytes = min (p.scanned_bytes + r.file_size) (2 ^ 64 - 1);
    }) in
    let kept : length counted.findings ≤ max_visible_findings =
      subst (λ l. length l ≤ max_visible_findings) (sym (count_verdict-findings r.verdict _)) h in
    if_split {A = ScanProgress} (λ c. length c.findings ≤ max_visible_findings) (is_clean r.verdict)
      kept (push_finding-capped _ counted.findings kept)

store-Balanced :
    (path : Bytes) (r : DetectionReport) (a : Action) (q : List Bytes) (p : ScanProgress)
    → Balanced (reported path r a) q p idle q (record_report path r a p)
unfolding record_report count_verdict is_malicious
store-Balanced path r a q p = record {
  moved = ground arith;
  discovered = ground arith;
  judged = ground arith;
  failed = ground arith;
  isolated = ground arith;
  capped = λ h. record_report-capped path r a p h;
}

pub Works-Balanced :
    {settings : Settings} {cancelled is_enumerating : Bool} {w : Worker} {q : List Bytes}
    {p : ScanProgress} {w' : Worker} {q' : List Bytes} {p' : ScanProgress}
    → Works settings cancelled is_enumerating w q p w' q' p'
    → Balanced w q p w' q' p'
unfolding begin
Works-Balanced (System.stop queue p c) = record {
  moved = refl;
  discovered = refl;
  judged = omega arith;
  failed = omega arith;
  isolated = omega arith;
  capped = λ h. h;
}
Works-Balanced (System.disconnect p c) = record {
  moved = refl;
  discovered = refl;
  judged = omega arith;
  failed = omega arith;
  isolated = omega arith;
  capped = λ h. h;
}
Works-Balanced (System.receive path queue p) = record {
  moved = omega arith;
  discovered = refl;
  judged = omega arith;
  failed = omega arith;
  isolated = omega arith;
  capped = λ h. h;
}
Works-Balanced (System.show path queue p) = record {
  moved = refl;
  discovered = refl;
  judged = omega arith;
  failed = omega arith;
  isolated = omega arith;
  capped = λ h. h;
}
Works-Balanced {settings} (System.report path r answer queue p) =
    report-Balanced settings path r answer queue p
Works-Balanced (System.store path r a queue p) = store-Balanced path r a queue p
Works-Balanced (System.panic w queue p e) = record {
  moved = refl;
  discovered = refl;
  judged = omega arith;
  failed = omega arith;
  isolated = omega arith;
  capped = λ h. h;
}
