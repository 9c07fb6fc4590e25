-- ===== src/Readiness/Monitor.antt =====
-- The monitor of src/readiness.rs over every sequence of its method calls.
use text.Mathlib.TextEquality.{eq_iff}
use blackshard.Prelude.{
  ℕ, ◌<◌, ◌≡◌, refl, ◌≢◌, ◌↔◌, ◌⊎◌, inl, inr, true, false, List, [], ◌∷◌, Option, none, some, arith,
  Option-cases,
}
use blackshard.Readiness.{
  ReadinessState, ProtectionComponents, ReadinessMonitorInner, ready, degraded, recovering, failed,
  derive_readiness, state_eq, transition, new, is_degraded, is_settled, update_state,
  report_components,
}

pub state_eq_refl : (s : ReadinessState) → state_eq s s ≡ true
unfolding state_eq
state_eq_refl (degraded r) = ground (arith, eq_iff r r)
state_eq_refl (recovering r) = ground (arith, eq_iff r r)
state_eq_refl (failed r) = ground (arith, eq_iff r r)
state_eq_refl _ = refl

-- A state that equals `ready` is `ready`.
pub state_eq-ready : (s : ReadinessState) → state_eq s ready ≡ true → s ≡ ready
unfolding state_eq
state_eq-ready ready h = refl
state_eq-ready _ h = ground arith

pub ready-state_eq : (s : ReadinessState) → state_eq ready s ≡ true → s ≡ ready
unfolding state_eq
ready-state_eq ready h = refl
ready-state_eq _ h = ground arith

abbrev pub DriverHealthy : ProtectionComponents → Type 0
DriverHealthy c = (c.driver_connected ≡ true) × (c.driver_protocol_validated ≡ true)

pub transition-current :
    (now : ℕ) (s : ReadinessState) (m : ReadinessMonitorInner)
    → ((transition now s m).current_state ≡ ready) ↔ (s ≡ ready)
unfolding transition
transition-current now s m = (
  λ h. ground (arith, ready-state_eq s, state_eq-ready m.current_state),
  λ h. ground (arith, state_eq-ready m.current_state),
)

abbrev counted : ProtectionComponents → ReadinessMonitorInner → ReadinessMonitorInner
counted c m = record m {
  consecutive_successes = c.consecutive_health_successes;
  consecutive_failures = c.consecutive_health_failures;
}

-- The monitor is ready after a report exactly when the report derives `Ready` in a monitor that
-- is not stopping, stopped or failed, or when a ready monitor sees a first failed health check
-- that degrades it while the driver is connected and validated.
pub report_components-ready_iff :
    (now : ℕ) (c : ProtectionComponents) (m : ReadinessMonitorInner)
    → ((report_components now c m).current_state ≡ ready) ↔ (
        ((derive_readiness c ≡ ready) × (is_settled m.current_state ≡ false))
        ⊎ ((m.current_state ≡ ready)
            × (is_degraded (derive_readiness c) ≡ true)
            × DriverHealthy c
            × (c.consecutive_health_failures < 2)))
unfolding report_components
report_components-ready_iff now c m = (
  λ h. ground (arith, transition-current now (derive_readiness c) (counted c m)),
  λ h. ground (arith, transition-current now (derive_readiness c) (counted c m)),
)

pub data Call : Type 0 where
  update : ℕ → ReadinessState → Call
  report : ℕ → ProtectionComponents → Call

-- The calls in order; `none` as soon as one panics.
unfoldable pub run : List Call → ReadinessMonitorInner → Option ReadinessMonitorInner
run [] m = some m
run (update now s ∷ calls) m = elim (update_state now s m) [ none ↦ none | some m' ↦ run calls m' ]
run (report now c ∷ calls) m = run calls (report_components now c m)

abbrev pub OnlyReports : List Call → Type 0
OnlyReports [] = Unit
OnlyReports (update _ _ ∷ calls) = ⊥
OnlyReports (report _ _ ∷ calls) = OnlyReports calls

abbrev pub SomeReportReady : List Call → Type 0
SomeReportReady [] = ⊥
SomeReportReady (update _ _ ∷ calls) = SomeReportReady calls
SomeReportReady (report _ c ∷ calls) = (derive_readiness c ≡ ready) ⊎ SomeReportReady calls

update_state-not_ready :
    (now : ℕ) (s : ReadinessState) (m m' : ReadinessMonitorInner)
    → update_state now s m ≡ some m'
    → m'.current_state ≢ ready
unfolding update_state
update_state-not_ready now s m m' h r = ground (arith, transition-current now s m)

run-ready :
    (calls : List Call) (m m' : ReadinessMonitorInner)
    → run calls m ≡ some m'
    → m'.current_state ≡ ready
    → (m.current_state ≡ ready) ⊎ SomeReportReady calls
unfolding run
run-ready [] m m' h r = ground arith
run-ready (update now s ∷ calls) m m' h r = elim (Option-cases (update_state now s m)) [
  | inl e ↦ absurd (ground arith)
  | inr (u, e) ↦ elim (run-ready calls u m' (ground arith) r) [
    | inl q ↦ absurd (update_state-not_ready now s m u e q)
    | inr q ↦ inr q
  ]
]
run-ready (report now c ∷ calls) m m' h r =
    elim (run-ready calls (report_components now c m) m' h r) [
      | inl q ↦ elim ((report_components-ready_iff now c m).0 q) [
        | inl p ↦ inr (inl p.0)
        | inr p ↦ inl p.0
      ]
      | inr q ↦ inr (inr q)
    ]

-- A monitor that started afresh is ready after some calls only if one of them was a report from
-- which `Ready` is derived; `update_state` never makes it ready.
pub run-new-ready :
    (now : ℕ) (calls : List Call) (m : ReadinessMonitorInner)
    → run calls (new now) ≡ some m
    → m.current_state ≡ ready
    → SomeReportReady calls
unfolding new
run-new-ready now calls m h r = elim (run-ready calls (new now) m h r) [
  | inl q ↦ absurd (ground arith)
  | inr q ↦ q
]
