-- ===== src/Behavior/Isolation.antt =====
-- What an observation of one process leaves of the others in src/behavior.rs.
use blackshard.Prelude.{
  ℕ, ◌≡◌, ◌≢◌, ◌⊎◌, refl, sym, ◌∙◌, subst, inl, inr, [], ◌∷◌, none, arith, if_split,
}
use blackshard.Prelude.Maps.{
  lookup, remove, IsDistinct, lookup-remove_self, lookup-remove_ne, lookup-insert_ne,
}
use blackshard.Prelude.Bytes.{Bytes}
use blackshard.Behavior.{ProcessKey, key_discrete, Processes, BehaviorObservation, BehaviorDecision}
use blackshard.Behavior.Monitor.{evict_stale, make_room, remove_oldest, observe_at}
use blackshard.Behavior.Table.{IsMonitor, lookup-evict_stale}

-- The process is as it was, or it is gone.
abbrev KeptOrGone : ProcessKey → Processes → Processes → Type 0
KeptOrGone q m n =
    (lookup key_discrete q n ≡ lookup key_discrete q m) ⊎ (lookup key_discrete q n ≡ none)

KeptOrGone-trans :
    (q : ProcessKey) (l m n : Processes) → KeptOrGone q l m → KeptOrGone q m n → KeptOrGone q l n
KeptOrGone-trans q l m n (inl e) (inl f) = inl (f ∙ e)
KeptOrGone-trans q l m n (inr e) (inl f) = inr (f ∙ e)
KeptOrGone-trans q l m n _ (inr f) = inr f

evict_stale-KeptOrGone :
    (now : ℕ) (q : ProcessKey) (m : Processes)
    → IsDistinct key_discrete m
    → KeptOrGone q m (evict_stale now m)
unfolding lookup evict_stale
evict_stale-KeptOrGone now q [] d = inl refl
evict_stale-KeptOrGone now q ((k, a) ∷ m) d =
    ground (arith, evict_stale-KeptOrGone now q m d.1, lookup-evict_stale now k m d.0)

remove-KeptOrGone : (k q : ProcessKey) (m : Processes) → KeptOrGone q m (remove key_discrete k m)
remove-KeptOrGone k q m = elim (key_discrete k q) [
  | yes p ↦ inr (
      subst (λ x. lookup key_discrete x (remove key_discrete k m) ≡ none) p
        (lookup-remove_self key_discrete k m))
  | no n ↦ inl (lookup-remove_ne key_discrete k q m n)
]

remove_oldest-KeptOrGone : (q : ProcessKey) (m : Processes) → KeptOrGone q m (remove_oldest m)
unfolding remove_oldest
remove_oldest-KeptOrGone q [] = inl refl
remove_oldest-KeptOrGone q ((k, a) ∷ m) = remove-KeptOrGone _ q ((k, a) ∷ m)

make_room-KeptOrGone : (k q : ProcessKey) (m : Processes) → KeptOrGone q m (make_room k m)
unfolding make_room
make_room-KeptOrGone k q m = if_split (KeptOrGone q m) _ (remove_oldest-KeptOrGone q m) (inl refl)

-- An observation changes nothing of another process's activity, though it may be evicted.
pub observe_at-isolated :
    (path_fingerprint : Bytes → ℕ) (o : BehaviorObservation) (m : Processes) (q : ProcessKey)
    → IsMonitor m
    → q ≢ (o.process_id, o.process_start_key)
    → (lookup key_discrete q (observe_at path_fingerprint o m).0 ≡ lookup key_discrete q m)
      ⊎ (lookup key_discrete q (observe_at path_fingerprint o m).0 ≡ none)
unfolding observe_at
observe_at-isolated path_fingerprint o m q h n =
    let key : ProcessKey = (o.process_id, o.process_start_key) in
    let fresh = evict_stale o.now_millis m in
    if_split {A = Processes × BehaviorDecision} (λ r. KeptOrGone q m r.0) _ (inl refl)
      (KeptOrGone-trans q m (make_room key fresh) _
        (KeptOrGone-trans q m fresh (make_room key fresh)
          (evict_stale-KeptOrGone o.now_millis q m h.keys) (make_room-KeptOrGone key q fresh))
        (inl (lookup-insert_ne key_discrete key q _ (make_room key fresh) (λ e. n (sym e)))))
