-- ===== src/History/Examples.antt =====
-- The log of src/history.rs with events that are their own lines.
use blackshard.Prelude.{◌<◌, ◌-◌, ◌≡◌, refl, [], ◌∷◌, none, some, arith, length, drop}
use mathlib.Core.List.{reverse}
use blackshard.Prelude.Bytes.{Bytes, codes}
use blackshard.Prelude.Results.{ok}
use blackshard.History
use blackshard.History.{EventLog, HistoryError, append, recent, keep_of}
use blackshard.History.Newest.{
  IsWritable, AreWritable, nil, cons, lines, append_all, recent-append_all,
}

abbrev started : Bytes
started = codes "started"

abbrev found : Bytes
found = codes "found"

unfoldable started_is_writable : IsWritable (λ s. some s) (λ s. some s) started
unfolding History.max_event_bytes
started_is_writable = record {
  line = started;
  encoded = refl;
  decoded = refl;
  nonempty = omega arith;
  small = omega arith;
  no_newline = (refl, (refl, (refl, (refl, (refl, (refl, (refl, tt)))))));
}

unfoldable found_is_writable : IsWritable (λ s. some s) (λ s. some s) found
unfolding History.max_event_bytes
found_is_writable = record {
  line = found;
  encoded = refl;
  decoded = refl;
  nonempty = omega arith;
  small = omega arith;
  no_newline = (refl, (refl, (refl, (refl, (refl, tt)))));
}

unfoldable both_are_writable : AreWritable (λ s. some s) (λ s. some s) (started ∷ found ∷ [])
both_are_writable =
    cons started (found ∷ []) started_is_writable (cons found [] found_is_writable nil)

both_fit : length (lines (λ s. some s) (λ s. some s) both_are_writable) < History.max_log_bytes
unfolding History.max_log_bytes both_are_writable started_is_writable found_is_writable
both_fit = omega arith

recent-append_all_example :
    recent
      (λ s. some s)
      (λ s. some s)
      1
      (append_all
        (λ s. some s)
        (λ s. some s)
        (started ∷ found ∷ [])
        (record { file = none; rotated = none }))
    ≡ ok (reverse (drop (2 - keep_of 1) (started ∷ found ∷ [])))
recent-append_all_example =
    recent-append_all (λ s. some s) (λ s. some s) 1 none (started ∷ found ∷ []) both_are_writable
      both_fit

newest_is_found :
    recent
      (λ s. some s)
      (λ s. some s)
      1
      (append_all
        (λ s. some s)
        (λ s. some s)
        (started ∷ found ∷ [])
        (record { file = none; rotated = none }))
    ≡ ok (found ∷ [])
unfolding append_all append recent History.max_log_bytes History.max_event_bytes
newest_is_found = refl
