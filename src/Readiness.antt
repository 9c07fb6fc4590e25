-- ===== src/Readiness.antt =====
-- src/readiness.rs: the readiness states, what each protection component reports, how a state is
-- derived from the components, and the monitor that keeps the state with its history. The clock
-- (`Utc::now`) is the argument `now`; the mutex is left out, since each method holds it throughout.
pub mod Derive
pub mod Monitor
pub mod Timeline
mod Examples
use Prim.Native.String.{String}
use Prim.Native.String
use text.Mathlib.Text.{◌==◌ as str_eq}
use blackshard.Prelude.{
  ℕ, Bool, true, false, not, ◌&&◌, ◌||◌, List, [], ◌∷◌, ◌++◌, Option, none, some, ltb, ◌==◌,
  if◌then◌else◌,
}

pub data ReadinessState : Type 0 where
  stopped starting loading_settings loading_definitions loading_fresh_clam : ReadinessState
  starting_detection_workers connecting_driver validating_protocol ready : ReadinessState
  degraded recovering failed : String → ReadinessState
  stopping : ReadinessState

pub data ProtectionTier : Type 0 where
  kernel userland : ProtectionTier

abbrev pub requires_driver : ProtectionTier → Bool
requires_driver kernel = true
requires_driver userland = false

pub record ProtectionComponents : Type 0 where
  pub tier : ProtectionTier
  pub service_operational : Bool
  pub settings_loaded : Bool
  pub native_definitions_loaded : Bool
  pub freshclam_loaded : Bool
  pub freshclam_generation : ℕ
  pub rule_generation : ℕ
  pub driver_connected : Bool
  pub driver_protocol_validated : Bool
  pub driver_ready_generation : Option ℕ
  pub quarantine_available : Bool
  pub history_available : Bool
  pub ipc_available : Bool
  pub self_test_passed : Bool
  pub consecutive_health_successes : ℕ
  pub consecutive_health_failures : ℕ

-- The loop of `mandatory_failures`: the names of the parts that are not healthy, in order.
collect_failures : List (Bool × String) → List String
collect_failures [] = []
collect_failures ((healthy, name) ∷ rest) =
    if healthy then collect_failures rest else name ∷ collect_failures rest

mandatory_parts : ProtectionComponents → List (Bool × String)
mandatory_parts c =
    (c.service_operational, "service message loop")
    ∷ (c.settings_loaded, "settings")
    ∷ (c.native_definitions_loaded, "native definitions")
    ∷ (c.freshclam_loaded && not (c.freshclam_generation == 0), "active FreshClam database")
    ∷ (not (c.rule_generation == 0), "rule generation")
    ∷ (c.quarantine_available, "quarantine store")
    ∷ (c.history_available, "event history")
    ∷ (c.ipc_available, "local control server")
    ∷ (c.self_test_passed, "end-to-end self-test")
    ∷ []

driver_failures : ProtectionComponents → List String
driver_failures c =
    if requires_driver c.tier
    then (if c.driver_connected then [] else "minifilter connection" ∷ [])
      ++ (if c.driver_protocol_validated then [] else "driver protocol" ∷ [])
    else []

pub mandatory_failures : ProtectionComponents → List String
unfolding collect_failures mandatory_parts driver_failures
mandatory_failures c = collect_failures (mandatory_parts c) ++ driver_failures c

-- `failures.join(", ")`
join : List String → String
join [] = ""
join (s ∷ []) = s
join (s ∷ t ∷ rest) = String.◌++◌ s (String.◌++◌ ", " (join (t ∷ rest)))

-- The decimal form of a count; a text is made only of counts below 3.
digit : ℕ → String
digit n = if n == 0 then "0" else if n == 1 then "1" else "2"

abbrev is_none {ℓ} : {A : Type ℓ} → Option A → Bool
is_none none = true
is_none (some _) = false

abbrev is_empty {ℓ} : {A : Type ℓ} → List A → Bool
is_empty [] = true
is_empty (_ ∷ _) = false

pub derive_readiness : ProtectionComponents → ReadinessState
unfolding join digit
derive_readiness c =
    let failures = mandatory_failures c in
    if not (is_empty failures)
    then degraded (String.◌++◌ "Unavailable: " (join failures))
    else if requires_driver c.tier && is_none c.driver_ready_generation
    then recovering "Arming the validated driver generation"
    else if ltb c.consecutive_health_successes 3
    then recovering (
        String.◌++◌ "Validating stable protection ("
          (String.◌++◌ (digit c.consecutive_health_successes) "/3)"))
    else ready

-- `PartialEq` of the states.
pub state_eq : ReadinessState → ReadinessState → Bool
state_eq stopped stopped = true
state_eq starting starting = true
state_eq loading_settings loading_settings = true
state_eq loading_definitions loading_definitions = true
state_eq loading_fresh_clam loading_fresh_clam = true
state_eq starting_detection_workers starting_detection_workers = true
state_eq connecting_driver connecting_driver = true
state_eq validating_protocol validating_protocol = true
state_eq ready ready = true
state_eq (degraded r) (degraded s) = str_eq r s
state_eq (recovering r) (recovering s) = str_eq r s
state_eq (failed r) (failed s) = str_eq r s
state_eq stopping stopping = true
state_eq _ _ = false

pub record ReadinessMonitorInner : Type 0 where
  pub current_state : ReadinessState
  pub state_entered_at : ℕ
  pub history : List (ReadinessState × ℕ)
  pub consecutive_successes : ℕ
  pub consecutive_failures : ℕ

pub transition : ℕ → ReadinessState → ReadinessMonitorInner → ReadinessMonitorInner
transition now next_state m =
    if not (state_eq m.current_state next_state)
    then record m {
      current_state = next_state;
      state_entered_at = now;
      history = m.history ++ (m.current_state, m.state_entered_at) ∷ [];
    }
    else m

pub new : ℕ → ReadinessMonitorInner
new now = record {
  current_state = stopped;
  state_entered_at = now;
  history = [];
  consecutive_successes = 0;
  consecutive_failures = 0;
}

abbrev pub is_ready : ReadinessState → Bool
is_ready ready = true
is_ready _ = false

abbrev pub is_degraded : ReadinessState → Bool
is_degraded (degraded _) = true
is_degraded _ = false

abbrev pub is_settled : ReadinessState → Bool
is_settled stopping = true
is_settled stopped = true
is_settled (failed _) = true
is_settled _ = false

-- `none` is the panic of the `assert!`.
pub update_state : ℕ → ReadinessState → ReadinessMonitorInner → Option ReadinessMonitorInner
update_state now new_state m =
    if is_ready new_state then none else some (transition now new_state m)

pub report_components : ℕ → ProtectionComponents → ReadinessMonitorInner → ReadinessMonitorInner
report_components now c m =
    let m' = record m {
      consecutive_successes = c.consecutive_health_successes;
      consecutive_failures = c.consecutive_health_failures;
    } in
    let derived = derive_readiness c in
    let explicit_driver_failure = not c.driver_connected || not c.driver_protocol_validated in
    if is_ready m'.current_state
      && is_degraded derived
      && not explicit_driver_failure
      && ltb c.consecutive_health_failures 2
    then m'
    else if is_settled m'.current_state
    then m'
    else transition now derived m'
