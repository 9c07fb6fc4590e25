-- ===== src/Readiness/Derive.antt =====
-- `mandatory_failures` and `derive_readiness` of src/readiness.rs against a plain description of
-- a protected machine.
use blackshard.Prelude.{◌≤◌, ◌≡◌, refl, ◌≢◌, ◌↔◌, ◌⊎◌, inl, inr, true, List, [], ◌∷◌, none, arith}
use blackshard.Readiness.{
  userland, ProtectionComponents, ready, mandatory_failures, derive_readiness,
}

-- What every machine needs.
pub record IsSound (c : ProtectionComponents) : Type 0 where
  pub service : c.service_operational ≡ true
  pub settings : c.settings_loaded ≡ true
  pub native : c.native_definitions_loaded ≡ true
  pub freshclam : c.freshclam_loaded ≡ true
  pub freshclam_active : c.freshclam_generation ≢ 0
  pub rules : c.rule_generation ≢ 0
  pub quarantine : c.quarantine_available ≡ true
  pub events : c.history_available ≡ true
  pub ipc : c.ipc_available ≡ true
  pub tested : c.self_test_passed ≡ true

-- What a machine with the minifilter needs besides.
pub record HasDriver (c : ProtectionComponents) : Type 0 where
  pub connected : c.driver_connected ≡ true
  pub validated : c.driver_protocol_validated ≡ true

abbrev pub NeedsNoDriver : ProtectionComponents → Type 0
NeedsNoDriver c = (c.tier ≡ userland) ⊎ HasDriver c

abbrev pub DriverArmed : ProtectionComponents → Type 0
DriverArmed c = (c.tier ≡ userland) ⊎ (c.driver_ready_generation ≢ none)

-- No mandatory part is reported as failed exactly when every part is sound and the driver is
-- either not installed or connected with a validated protocol.
pub mandatory_failures-eq-nil_iff :
    (c : ProtectionComponents) → (mandatory_failures c ≡ []) ↔ (IsSound c × NeedsNoDriver c)
unfolding mandatory_failures
mandatory_failures-eq-nil_iff c = (λ h. (ground arith, ground arith), λ h. ground arith)

list_cases {ℓ} : {A : Type ℓ} (l : List A) → (l ≡ []) ⊎ ((x : A) × (rest : List A) × (l ≡ x ∷ rest))
list_cases [] = inl refl
list_cases (x ∷ rest) = inr (x, rest, refl)

-- `Ready` is derived exactly when every part is sound, the driver is either not installed or
-- connected, validated and armed with a generation, and three health checks in a row succeeded.
pub derive_readiness-eq-ready_iff :
    (c : ProtectionComponents)
    → (derive_readiness c ≡ ready)
      ↔ (IsSound c × NeedsNoDriver c × DriverArmed c × (3 ≤ c.consecutive_health_successes))
unfolding derive_readiness
derive_readiness-eq-ready_iff c = elim (list_cases (mandatory_failures c)) [
  | inl e ↦ (λ h. ground (arith, (mandatory_failures-eq-nil_iff c).0 e), λ h. ground arith)
  | inr (s, rest, e) ↦ (
    λ h. ground arith,
    λ h. absurd (ground (arith, (mandatory_failures-eq-nil_iff c).1 (h.0, h.1))),
  )
]
