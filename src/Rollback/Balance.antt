-- ===== src/Rollback/Balance.antt =====
-- What the total of the vault of src/rollback.rs is, after every step of its threads.
use blackshard.Prelude.{
  ℕ, ◌+◌, ◌-◌, ◌%◌, ◌^◌, ◌≤◌, ◌≡◌, refl, ◌∙◌, subst, inl, inr, Bool, true, false, none, leb, ltb,
  ◌&&◌, ◌⊎◌, Option, Bool-cases, List, [], ◌∷◌, ◌++◌, some, if◌then◌else◌, if_split, arith,
  Option-cases,
}
use blackshard.Prelude.Maps.{lookup, insert, IsDistinct, remove-IsDistinct, insert-IsDistinct}
use blackshard.Prelude.Bytes.{Bytes}
use blackshard.Rollback.{
  ProcessKey, process_discrete, SavedFile, Index, claim, adjusted, adjusted_total, settle_bytes,
  settle, abandon, take_saved, restore, purge_expired,
}
use blackshard.Rollback.System.{
  Flight, Vault, VaultStep, claimed, refused, settled, given_up, restored, purged, Reachable, start,
  step,
}
use blackshard.Rollback.Sums.{
  saved_bytes, found, size_of-append, insert-bytes, saved_bytes-remove, keep_new_all-freed,
  keep_new_all-IsDistinct,
}

unfoldable pub flight_bytes : List Flight → ℕ
flight_bytes [] = 0
flight_bytes (f ∷ flights) = f.size + flight_bytes flights

flight_bytes-between :
    (before : List Flight) (f : Flight) (after : List Flight)
    → flight_bytes (before ++ f ∷ after) ≡ f.size + flight_bytes (before ++ after)
unfolding flight_bytes
flight_bytes-between [] f after = refl
flight_bytes-between (g ∷ before) f after = omega (arith, flight_bytes-between before f after)

-- The state after each operation, from the balance before.
abbrev pub Balanced : Index → ℕ → Type 0
Balanced index flying =
    IsDistinct process_discrete index.by_process
    × (index.total_bytes ≡ saved_bytes index.by_process + flying)

claim-Balanced :
    (process : ProcessKey) (path : Bytes) (size : ℕ) (index : Index) (flying : ℕ)
    → Balanced index flying
    → Balanced
        (claim process path size index).1
        (if (claim process path size index).0 then size + flying else flying)
unfolding claim
claim-Balanced process path size index flying (d, t) =
    if_split (λ (r : Bool × Index). Balanced r.1 (if r.0 then size + flying else flying)) _ (d, t)
      (d, omega arith)

adjusted_total-le :
    (checks : Bool) (a size copied : ℕ)
    → size ≤ a
    → adjusted_total checks a size copied ≡ some (a - size + copied)
adjusted_total-le checks a size copied h = ground arith

settle-Balanced :
    (checks : Bool) (process : ProcessKey) (size : ℕ) (file : SavedFile) (index : Index) (more : ℕ)
    → Balanced index (size + more)
    → Balanced
        (settle checks process size file index).0
        (if (settle checks process size file index).1 then more else file.size + more)
unfolding settle
settle-Balanced checks process size file index more (d, t) =
    let m = index.by_process in
    let files : List SavedFile = found process m ++ (file ∷ []) in
    let total = adjusted_total-le checks index.total_bytes size file.size (omega arith) in
    elim (Option-cases (
      settle_bytes checks process size file.size index.process_bytes
        (lookup process_discrete process index.process_bytes))) [
          | inl l ↦ rw (settle, total, l) (d, omega arith)
          | inr (c, l) ↦
              rw (settle, total, l)
                (
                  insert-IsDistinct process_discrete process files m d,
                  omega (
                    arith,
                    insert-bytes process files m,
                    size_of-append (found process m) file,
                    saved_bytes-remove process m d,
                  ),
                )
        ]

adjusted-wraps : (a size copied : ℕ) → (b : ℕ) × (adjusted false a size copied ≡ some b)
adjusted-wraps a size copied = elim (Bool-cases (leb size a && ltb (a - size + copied) (2 ^ 64))) [
  | inl e ↦ (a - size + copied, rw e refl)
  | inr e ↦ ((a + 2 ^ 64 - size + copied) % 2 ^ 64, rw e refl)
]

adjusted_total-wraps : (a size copied : ℕ) → (b : ℕ) × (adjusted_total false a size copied ≡ some b)
adjusted_total-wraps a size copied = elim (Bool-cases (leb size a)) [
  | inl e ↦ (a - size + copied, rw e refl)
  | inr e ↦ ((a + 2 ^ 64 - size + copied) % 2 ^ 64, rw e refl)
]

settle_bytes-wraps :
    (process : ProcessKey) (size copied : ℕ) (counts : List (ProcessKey × ℕ)) (bytes : Option ℕ)
    → (after : List (ProcessKey × ℕ)) × (settle_bytes false process size copied counts bytes
        ≡ some after)
settle_bytes-wraps process size copied counts none = (counts, refl)
settle_bytes-wraps process size copied counts (some bytes) =
    let (b, e) = adjusted-wraps bytes size copied in
    (insert process_discrete process b counts, rw (settle_bytes, e) refl)

-- Without overflow checks, every copy that was made is entered.
settle-entered :
    (process : ProcessKey) (size : ℕ) (file : SavedFile) (index : Index)
    → (settle false process size file index).1 ≡ true
unfolding settle
settle-entered process size file index =
    let (b, e) = adjusted_total-wraps index.total_bytes size file.size in
    let (c, l) =
      settle_bytes-wraps process size file.size index.process_bytes
        (lookup process_discrete process index.process_bytes) in
    rw (settle, e, l) refl

take_saved-Balanced :
    (process : ProcessKey) (index : Index) (flying : ℕ)
    → Balanced index flying
    → Balanced (take_saved process index).1 flying
unfolding take_saved
take_saved-Balanced process index flying (d, t) = (
  remove-IsDistinct process_discrete process index.by_process d,
  omega (arith, saved_bytes-remove process index.by_process d),
)

purge_expired-Balanced :
    (now : ℕ) (index : Index) (flying : ℕ)
    → Balanced index flying
    → Balanced (purge_expired now index) flying
unfolding purge_expired
purge_expired-Balanced now index flying (d, t) = (
  keep_new_all-IsDistinct now index.by_process d,
  omega (arith, keep_new_all-freed now index.by_process),
)

abandon-Balanced :
    (process : ProcessKey) (path : Bytes) (size : ℕ) (index : Index) (flying : ℕ)
    → Balanced index (size + flying)
    → Balanced (abandon process path size index) flying
unfolding abandon
abandon-Balanced process path size index flying (d, t) = (d, omega arith)

-- The total counts what the index has, what is being copied and what was lost; each program stands
-- in the index once.
abbrev pub IsBalanced : Vault → Type 0
IsBalanced v = Balanced v.index (flight_bytes v.flights + v.lost)

between_flights :
    (index : Index) (before : List Flight) (f : Flight) (after : List Flight) (lost : ℕ)
    → Balanced index (flight_bytes (before ++ f ∷ after) + lost)
    → Balanced index (f.size + (flight_bytes (before ++ after) + lost))
between_flights index before f after lost (d, t) =
    (d, omega (arith, flight_bytes-between before f after))

VaultStep-IsBalanced :
    {checks : Bool} {v w : Vault} → VaultStep checks v w → IsBalanced v → IsBalanced w
unfolding flight_bytes restore
VaultStep-IsBalanced (claimed process path size index flights lost small is_claimed) b =
    let more = flight_bytes flights + lost in
    let c =
      subst (λ r. Balanced (claim process path size index).1 (if r then size + more else more))
        is_claimed (claim-Balanced process path size index more b) in
    (c.0, omega (arith, c.1))
VaultStep-IsBalanced (refused process path size index flights lost is_refused) b =
    let more = flight_bytes flights + lost in
    subst (λ r. Balanced (claim process path size index).1 (if r then size + more else more))
      is_refused (claim-Balanced process path size index more b)
VaultStep-IsBalanced {checks} (settled f file index before after lost) b =
    let more = flight_bytes (before ++ after) + lost in
    let c =
      settle-Balanced checks f.process f.size file index more
        (between_flights index before f after lost b) in
    elim (Bool-cases (settle checks f.process f.size file index).1) [
      | inl e ↦ (c.0, ground (arith, e, c.1))
      | inr e ↦ (c.0, ground (arith, e, c.1))
    ]
VaultStep-IsBalanced (given_up f index before after lost) b =
    abandon-Balanced f.process f.path f.size index (flight_bytes (before ++ after) + lost)
      (between_flights index before f after lost b)
VaultStep-IsBalanced (restored restore_one process index flights lost) b =
    take_saved-Balanced process index (flight_bytes flights + lost) b
VaultStep-IsBalanced (purged now index flights lost) b =
    purge_expired-Balanced now index (flight_bytes flights + lost) b

VaultStep-lost : {v w : Vault} → VaultStep false v w → w.lost ≡ v.lost
VaultStep-lost (claimed process path size index flights lost small is_claimed) = refl
VaultStep-lost (refused process path size index flights lost is_refused) = refl
VaultStep-lost (settled f file index before after lost) =
    rw (settle-entered f.process f.size file index) refl
VaultStep-lost (given_up f index before after lost) = refl
VaultStep-lost (restored restore_one process index flights lost) = refl
VaultStep-lost (purged now index flights lost) = refl

Reachable-lost : {v : Vault} → Reachable false v → v.lost ≡ 0
Reachable-lost start = refl
Reachable-lost (step u w r s) = VaultStep-lost s ∙ Reachable-lost r

Reachable-Balanced : {checks : Bool} {v : Vault} → Reachable checks v → IsBalanced v
unfolding saved_bytes flight_bytes
Reachable-Balanced start = (tt, omega arith)
Reachable-Balanced (step u w r s) = VaultStep-IsBalanced s (Reachable-Balanced r)

-- However the threads take turns, the total is the bytes of the files in the index, of the copies that
-- are being made and of those whose thread panicked before it entered them, and each program
-- stands in the index once. In a build without overflow checks no copy is lost in that way.
pub Reachable-IsBalanced :
    (checks : Bool) (v : Vault)
    → Reachable checks v
    → IsBalanced v × ((v.lost ≡ 0) ⊎ (checks ≡ true))
Reachable-IsBalanced checks v r = (
  Reachable-Balanced r,
  elim (Bool-cases checks) [
    | inl e ↦ inr e
    | inr e ↦ inl (Reachable-lost (subst (λ c. Reachable c v) e r))
  ],
)
