-- ===== src/Readiness/Examples.antt =====
-- The readiness monitor of src/readiness.rs: the tests of the source, and the theorems at concrete
-- inputs.
use blackshard.Prelude.{
  ◌≤◌, ◌≡◌, ◌↔◌, ◌⊎◌, ◌<◌, refl, true, false, List, [], ◌∷◌, none, some, arith,
}
use blackshard.Readiness.{
  ReadinessState, ProtectionComponents, ReadinessMonitorInner, kernel, userland, stopped, starting,
  ready, degraded, mandatory_failures, derive_readiness, new, is_degraded, is_settled, update_state,
  report_components, transition, state_eq,
}
use blackshard.Readiness.Derive
use blackshard.Readiness.Derive.{IsSound, NeedsNoDriver, DriverArmed}
use blackshard.Readiness.Monitor
use blackshard.Readiness.Monitor.{Call, update, report, run, DriverHealthy, SomeReportReady}
use blackshard.Readiness.Timeline
use blackshard.Readiness.Timeline.{IsTimeline, timeline}

computes : Unit {0}
unfolding mandatory_failures derive_readiness new update_state report_components transition state_eq
    run
computes = tt

abbrev healthy : ProtectionComponents
healthy = record {
  tier = kernel;
  service_operational = true;
  settings_loaded = true;
  native_definitions_loaded = true;
  freshclam_loaded = true;
  freshclam_generation = 7;
  rule_generation = 4;
  driver_connected = true;
  driver_protocol_validated = true;
  driver_ready_generation = some 9;
  quarantine_available = true;
  history_available = true;
  ipc_available = true;
  self_test_passed = true;
  consecutive_health_successes = 3;
  consecutive_health_failures = 0;
}

-- The tier without a driver, with one health check failed.
abbrev one_failure : ProtectionComponents
one_failure = record healthy {
  tier = userland;
  driver_connected = false;
  driver_protocol_validated = false;
  driver_ready_generation = none;
  self_test_passed = false;
  consecutive_health_failures = 1;
}

abbrev unconnected : ProtectionComponents
unconnected = record healthy { driver_connected = false }

readiness_test :
    (derive_readiness healthy ≡ ready)
    × (derive_readiness (record one_failure { self_test_passed = true }) ≡ ready)
    × (derive_readiness unconnected ≡ degraded "Unavailable: minifilter connection")
unfolding computes
readiness_test = (refl, refl, refl)

derive_readiness-eq-ready_iff_example : (derive_readiness healthy ≡ ready) ↔ (
    IsSound healthy
    × NeedsNoDriver healthy
    × DriverArmed healthy
    × (3 ≤ healthy.consecutive_health_successes))
derive_readiness-eq-ready_iff_example = Derive.derive_readiness-eq-ready_iff healthy

abbrev monitor : ReadinessState → ReadinessMonitorInner
monitor s = record {
  current_state = s;
  state_entered_at = 5;
  history = (stopped, 1) ∷ [];
  consecutive_successes = 3;
  consecutive_failures = 0;
}

report_components-ready_iff_example :
    ((report_components 9 healthy (monitor starting)).current_state ≡ ready) ↔ (
      ((derive_readiness healthy ≡ ready) × (is_settled starting ≡ false))
      ⊎ ((starting ≡ ready)
          × (is_degraded (derive_readiness healthy) ≡ true)
          × DriverHealthy healthy
          × (healthy.consecutive_health_failures < 2)))
report_components-ready_iff_example =
    Monitor.report_components-ready_iff 9 healthy (monitor starting)

-- In the tier without a driver, one failed health check is followed at once.
failure_is_followed :
    (report_components 9 one_failure (monitor ready)).current_state ≡ derive_readiness one_failure
unfolding computes
failure_is_followed = refl

abbrev start_up : List Call
start_up = update 2 starting ∷ report 3 unconnected ∷ report 4 healthy ∷ []

abbrev started : ReadinessMonitorInner
started = record {
  current_state = ready;
  state_entered_at = 4;
  history = (stopped, 1) ∷ (starting, 2) ∷ (degraded "Unavailable: minifilter connection", 3) ∷ [];
  consecutive_successes = 3;
  consecutive_failures = 0;
}

start_up_test : run start_up (new 1) ≡ some started
unfolding computes
start_up_test = refl

run-new-ready_example : SomeReportReady start_up
run-new-ready_example = Monitor.run-new-ready 1 start_up started start_up_test refl

run-new-IsTimeline_example : IsTimeline (timeline started)
run-new-IsTimeline_example =
    Timeline.run-new-IsTimeline 1 start_up started (omega arith) start_up_test
