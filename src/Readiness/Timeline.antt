-- ===== src/Readiness/Timeline.antt =====
-- The history that the monitor of src/readiness.rs keeps, over every sequence of its calls.
use blackshard.Prelude.{
  ℕ, ◌≤◌, ◌≡◌, inl, inr, true, false, List, [], ◌∷◌, ◌++◌, none, some, arith, Bool-cases, subst,
  if_split,
}
use mathlib.Core.Option.{some-injective}
use blackshard.Readiness.{
  ReadinessState, ProtectionComponents, ReadinessMonitorInner, derive_readiness, state_eq,
  transition, new, is_ready, update_state, report_components,
}
use blackshard.Readiness.Monitor.{Call, update, report, run}

-- The states that the monitor has been in, with the times at which it entered them.
abbrev pub timeline : ReadinessMonitorInner → List (ReadinessState × ℕ)
timeline m = m.history ++ (m.current_state, m.state_entered_at) ∷ []

-- Neighbouring states differ, and time does not run backwards.
abbrev pub IsTimeline : List (ReadinessState × ℕ) → Type 0
IsTimeline [] = Unit
IsTimeline (a ∷ []) = Unit
IsTimeline (a ∷ b ∷ l) = (state_eq a.0 b.0 ≡ false) × (a.1 ≤ b.1) × IsTimeline (b ∷ l)

-- Each call's clock reads at least the time `t`, and no less than the call before it.
abbrev pub IsClocked : ℕ → List Call → Type 0
IsClocked t [] = Unit
IsClocked t (update now _ ∷ calls) = (t ≤ now) × IsClocked now calls
IsClocked t (report now _ ∷ calls) = (t ≤ now) × IsClocked now calls

IsTimeline-snoc :
    (l : List (ReadinessState × ℕ)) (a b : ReadinessState × ℕ)
    → IsTimeline (l ++ a ∷ [])
    → state_eq a.0 b.0 ≡ false
    → a.1 ≤ b.1
    → IsTimeline ((l ++ a ∷ []) ++ b ∷ [])
IsTimeline-snoc [] a b h d t = (d, t, tt)
IsTimeline-snoc (x ∷ []) a b h d t = (h.0, h.1, (d, t, tt))
IsTimeline-snoc (x ∷ y ∷ l) a b h d t = (h.0, h.1, IsTimeline-snoc (y ∷ l) a b h.2 d t)

-- What a step of the clock may find: a proper timeline that ends by `t`.
pub record IsKept (t : ℕ) (m : ReadinessMonitorInner) : Type 0 where
  pub ordered : IsTimeline (timeline m)
  pub entered : m.state_entered_at ≤ t

transition-IsKept :
    (t now : ℕ) (s : ReadinessState) (m : ReadinessMonitorInner)
    → t ≤ now
    → IsKept t m
    → IsKept now (transition now s m)
unfolding transition
transition-IsKept t now s m le h = elim (Bool-cases (state_eq m.current_state s)) [
  | inl same ↦ rw same (record { ordered = h.ordered; entered = omega arith })
  | inr other ↦ rw other (record {
    ordered =
        IsTimeline-snoc m.history (m.current_state, m.state_entered_at) (s, now) h.ordered other
          (omega arith);
    entered = omega arith;
  })
]

report_components-IsKept :
    (t now : ℕ) (c : ProtectionComponents) (m : ReadinessMonitorInner)
    → t ≤ now
    → IsKept t m
    → IsKept now (report_components now c m)
unfolding report_components
report_components-IsKept t now c m le h =
    let m' = record m {
      consecutive_successes = c.consecutive_health_successes;
      consecutive_failures = c.consecutive_health_failures;
    } in
    let same : IsKept now m' = record { ordered = h.ordered; entered = omega arith } in
    let old : IsKept t m' = record { ordered = h.ordered; entered = h.entered } in
    if_split (IsKept now) _ same
      (if_split (IsKept now) _ same (transition-IsKept t now (derive_readiness c) m' le old))

update_state-accepts :
    (now : ℕ) (s : ReadinessState) (m : ReadinessMonitorInner)
    → is_ready s ≡ false
    → update_state now s m ≡ some (transition now s m)
unfolding update_state
update_state-accepts now s m e = rw e

update_state-refuses :
    (now : ℕ) (s : ReadinessState) (m : ReadinessMonitorInner)
    → is_ready s ≡ true
    → update_state now s m ≡ none
unfolding update_state
update_state-refuses now s m e = rw e

run-IsKept :
    (t : ℕ) (calls : List Call) (m m' : ReadinessMonitorInner)
    → IsKept t m
    → IsClocked t calls
    → run calls m ≡ some m'
    → IsTimeline (timeline m')
unfolding run
run-IsKept t [] m m' k c h = subst (λ s. IsTimeline (timeline s)) (some-injective _ _ h) k.ordered
run-IsKept t (update now s ∷ calls) m m' k c h = elim (Bool-cases (is_ready s)) [
  | inl e ↦ absurd (ground (arith, update_state-refuses now s m e))
  | inr e ↦
      run-IsKept now calls (transition now s m) m' (transition-IsKept t now s m c.0 k) c.1
        (rw (update_state-accepts now s m e, run) at h)
]
run-IsKept t (report now r ∷ calls) m m' k c h =
    run-IsKept now calls (report_components now r m) m' (report_components-IsKept t now r m c.0 k)
      c.1 h

-- Under a clock that does not run backwards, every sequence of calls on a new monitor leaves a
-- history in which neighbouring states differ, the present one included, and in which the times
-- of entry never decrease.
pub run-new-IsTimeline :
    (t : ℕ) (calls : List Call) (m : ReadinessMonitorInner)
    → IsClocked t calls
    → run calls (new t) ≡ some m
    → IsTimeline (timeline m)
unfolding new
run-new-IsTimeline t calls m c h =
    run-IsKept t calls (new t) m (record { ordered = tt; entered = omega arith }) c h
