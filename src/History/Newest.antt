-- ===== src/History/Newest.antt =====
-- What is read of a log that was written by `append`.
use blackshard.Prelude.{
  ℕ, ◌+◌, ◌-◌, ◌≤◌, ◌<◌, ◌≡◌, refl, sym, ap, ◌∙◌, subst, inl, inr, true, false, List, [], ◌∷◌, ◌++◌,
  Option, none, some, ltb, ◌==◌, ◌||◌, if◌then◌else◌, length, length-append, length-drop, drop,
  drop-drop, drop_nil, drop-append_le, append_assoc, append_nil, All, arith, Bool-cases,
  Option-cases,
}
use mathlib.Core.List.{reverse}
use blackshard.Prelude.Bytes.{Bytes}
use blackshard.Prelude.Results.{ok}
use blackshard.Prelude.Text.{split, to_first}
use blackshard.History.{
  EventLog, bytes_of, max_log_bytes, max_event_bytes, rotate_if_needed, append, push_back,
  push_decoded, collect_events, keep_of, recent,
}

abbrev NoNewline : Bytes → Type 0
NoNewline s = All (λ c. (c == b'\n') ≡ false) s

split-line : (s t : Bytes) → NoNewline s → split b'\n' (s ++ (b'\n' ∷ t)) ≡ s ∷ split b'\n' t
unfolding split
split-line [] t h = refl
split-line (c ∷ s) t h = rw (h.0) (ap (to_first c) (split-line s t h.1))

no_rotation :
    (log : EventLog) → length (bytes_of log.file) < max_log_bytes → rotate_if_needed log ≡ log
unfolding rotate_if_needed
no_rotation log h =
    let room : ltb (length (bytes_of log.file)) max_log_bytes ≡ true = ground arith in rw room refl

module _ {Event : Type 0} (encode : Event → Option Bytes) (decode : Bytes → Option Event) where
  -- An event that is written as one line that is not too long, and read from it.
  pub record IsWritable (event : Event) : Type 0 where
    pub line : Bytes
    pub encoded : encode event ≡ some line
    pub decoded : decode line ≡ some event
    pub nonempty : 0 < length line
    pub small : length line ≤ max_event_bytes
    pub no_newline : NoNewline line

  pub data AreWritable : List Event → Type 0 where
    nil : AreWritable []
    cons :
        (event : Event) (events : List Event)
        → IsWritable event
        → AreWritable events
        → AreWritable (event ∷ events)

  -- The bytes of their lines.
  abbrev pub lines : {events : List Event} → AreWritable events → Bytes
  lines nil = []
  lines (cons event events w ws) = w.line ++ (b'\n' ∷ lines ws)

  -- The last ones.
  abbrev newest : ℕ → List Event → List Event
  newest keep events = drop (length events - keep) events

  push_back-newest :
      (keep : ℕ) (events : List Event) (event : Event)
      → 0 < keep
      → push_back encode decode keep (newest keep events) event
        ≡ newest keep (events ++ (event ∷ []))
  push_back-newest keep events event p =
      let a = length events - keep in
      let all : List Event = events ++ (event ∷ []) in
      let size : length all ≡ length events + 1 = length-append events (event ∷ []) in
      let kept : drop a events ++ (event ∷ []) ≡ drop a all =
        sym (drop-append_le a events (event ∷ []) (omega arith)) in
      subst
        (λ (more : List Event).
          (if ltb keep (length more) then drop 1 more else more) ≡ newest keep all)
        (sym kept)
        (elim (Bool-cases (ltb keep (length (drop a all)))) [
          | inl long ↦
              let e : a + 1 ≡ length all - keep = ground (arith, length-drop a all) in
              rw long (drop-drop a 1 all ∙ ap (λ k. drop k all) e)
          | inr short ↦
              let e : a ≡ length all - keep = ground (arith, length-drop a all) in
              rw short (ap (λ k. drop k all) e)
        ])

  collect_events-line :
      (keep : ℕ) (queue : List Event) (event : Event) (more : List Bytes) (w : IsWritable event)
      → collect_events encode decode keep queue (w.line ∷ more)
        ≡ collect_events encode decode keep (push_back encode decode keep queue event) more
  unfolding collect_events
  collect_events-line keep queue event more w =
      let usable : (length w.line == 0 || ltb max_event_bytes (length w.line)) ≡ false =
        ground (arith, w.nonempty, w.small) in
      let pushed : (if length w.line == 0 || ltb max_event_bytes (length w.line)
            then queue
            else push_decoded encode decode keep queue (decode w.line))
          ≡ push_back encode decode keep queue event =
        rw (usable, w.decoded) refl in
      ap (λ q. collect_events encode decode keep q more) pushed

  -- The loop over the lines of a log, after some events.
  collect_events-lines :
      (keep : ℕ) (before : List Event) (events : List Event) (w : AreWritable events)
      → 0 < keep
      → collect_events encode decode keep (newest keep before) (split b'\n' (lines w))
        ≡ newest keep (before ++ events)
  unfolding collect_events split
  collect_events-lines keep before events nil p = ap (newest keep) (sym (append_nil before))
  collect_events-lines keep before events (cons event rest w ws) p =
      rw (split-line w.line (lines ws) w.no_newline) (
        collect_events-line keep (newest keep before) event (split b'\n' (lines ws)) w
        ∙ ap (λ q. collect_events encode decode keep q (split b'\n' (lines ws)))
            (push_back-newest keep before event p)
        ∙ collect_events-lines keep (before ++ (event ∷ [])) rest ws p
        ∙ ap (newest keep) (append_assoc before (event ∷ []) rest))

  unfoldable pub append_all : List Event → EventLog → EventLog
  append_all [] log = log
  append_all (event ∷ events) log = append_all events (append encode decode event log).1

  append-file :
      (event : Event) (log : EventLog) (w : IsWritable event)
      → length (bytes_of log.file) < max_log_bytes
      → (append encode decode event log).1
        ≡ record log { file = some (bytes_of log.file ++ (w.line ++ (b'\n' ∷ []))) }
  unfolding append
  append-file event log w h =
      let room : rotate_if_needed log ≡ log = no_rotation log h in
      let small : ltb max_event_bytes (length w.line) ≡ false = ground (arith, w.small) in
      rw (append, w.encoded, small, room) refl

  append_all-bytes_of :
      (events : List Event) (log : EventLog) (w : AreWritable events)
      → length (bytes_of log.file) + length (lines w) < max_log_bytes
      → bytes_of (append_all events log).file ≡ bytes_of log.file ++ lines w
  unfolding append_all
  append_all-bytes_of events log nil h = sym (append_nil (bytes_of log.file))
  append_all-bytes_of events log (cons event rest w ws) h =
      let c = bytes_of log.file in
      let line = w.line ++ (b'\n' ∷ []) in
      let next : EventLog = record log { file = some (c ++ line) } in
      let sizes : length (c ++ line) + length (lines ws)
          ≡ length c + length (w.line ++ (b'\n' ∷ lines ws)) =
        omega (
          arith,
          length-append c line,
          length-append w.line (b'\n' ∷ []),
          length-append w.line (b'\n' ∷ lines ws),
        ) in
      ap (λ (l : EventLog). bytes_of (append_all rest l).file)
        (append-file event log w (omega arith))
      ∙ append_all-bytes_of rest next ws (omega arith)
      ∙ append_assoc c line (lines ws)
      ∙ ap (λ s. c ++ s) (append_assoc w.line (b'\n' ∷ []) (lines ws))

  recent-bytes_of :
      (limit : ℕ) (log : EventLog)
      → length (bytes_of log.file) < max_log_bytes
      → recent encode decode limit log
        ≡ ok (
            reverse
              (collect_events encode decode (keep_of limit) [] (split b'\n' (bytes_of log.file))))
  unfolding recent split collect_events
  recent-bytes_of limit log h = elim (Option-cases log.file) [
    | inl e ↦ rw e refl
    | inr (bytes, e) ↦
        let short : length bytes < max_log_bytes =
          subst (λ f. length (bytes_of f) < max_log_bytes) e h in
        let fits : ltb (max_log_bytes + max_event_bytes + 1) (length bytes) ≡ false =
          ground arith in
        rw (e, fits) refl
  ]

  -- Events that are appended to an empty log, each one line of at most 64 KiB and all of them shorter
  -- than the limit of the file, are read back: the last ones, as many as asked for but one at
  -- least and 2,000 at most, the newest first.
  pub recent-append_all :
      (limit : ℕ) (rotated : Option Bytes) (events : List Event) (w : AreWritable events)
      → length (lines w) < max_log_bytes
      → recent encode decode limit (append_all events (record { file = none; rotated = rotated }))
        ≡ ok (reverse (drop (length events - keep_of limit) events))
  recent-append_all limit rotated events w h =
      let log = append_all events (record { file = none; rotated = rotated }) in
      let same : bytes_of log.file ≡ lines w =
        append_all-bytes_of events (record { file = none; rotated = rotated }) w (omega arith) in
      recent-bytes_of limit log (subst (λ (s : Bytes). length s < max_log_bytes) (sym same) h)
      ∙ ap (λ s. ok (reverse (collect_events encode decode (keep_of limit) [] (split b'\n' s))))
          same
      ∙ ap
          (λ q.
            ok (reverse (collect_events encode decode (keep_of limit) q (split b'\n' (lines w)))))
          (sym (drop_nil (0 - keep_of limit)))
      ∙ ap (λ es. ok (reverse es)) (collect_events-lines (keep_of limit) [] events w (omega arith))
