-- ===== src/Rollback/System.antt =====
-- The vault of src/rollback.rs as a system: threads of the service claim, copy, settle, restore and
-- purge in any order, each part of an operation that holds the lock being a step. `checks` is whether
-- the build has overflow checks; `lost` are the bytes of copies that are in the folder of the vault and
-- not in its index, since the thread that made them panicked.
use blackshard.Prelude.{
  ℕ, ◌≡◌, Bool, true, false, ◌+◌, if◌then◌else◌, List, [], ◌∷◌, ◌++◌, Option, some,
}
use blackshard.Prelude.Bytes.{Bytes}
use blackshard.Rollback.{
  ProcessKey, SavedFile, Index, empty_index, claim, settle, abandon, restore, may_save,
  purge_expired,
}

-- A copy that was claimed and has not ended.
pub record Flight : Type 0 where
  pub process : ProcessKey
  pub path : Bytes
  pub size : ℕ

pub record Vault : Type 0 where
  pub index : Index
  pub flights : List Flight
  pub lost : ℕ

pub data VaultStep (checks : Bool) : Vault → Vault → Type 0 where
  claimed :
      (process : ProcessKey) (path : Bytes) (size : ℕ) (index : Index) (flights : List Flight)
      (lost : ℕ)
      → may_save (some size) ≡ true
      → (claim process path size index).0 ≡ true
      → VaultStep checks
          (record { index = index; flights = flights; lost = lost })
          (record {
            index = (claim process path size index).1;
            flights = record { process = process; path = path; size = size } ∷ flights;
            lost = lost;
          })
  refused :
      (process : ProcessKey) (path : Bytes) (size : ℕ) (index : Index) (flights : List Flight)
      (lost : ℕ)
      → (claim process path size index).0 ≡ false
      → VaultStep checks
          (record { index = index; flights = flights; lost = lost })
          (record { index = (claim process path size index).1; flights = flights; lost = lost })
  settled :
      (f : Flight) (file : SavedFile) (index : Index) (before after : List Flight) (lost : ℕ)
      → VaultStep checks
          (record { index = index; flights = before ++ f ∷ after; lost = lost })
          (record {
            index = (settle checks f.process f.size file index).0;
            flights = before ++ after;
            lost = if (settle checks f.process f.size file index).1 then lost else file.size + lost;
          })
  given_up :
      (f : Flight) (index : Index) (before after : List Flight) (lost : ℕ)
      → VaultStep checks
          (record { index = index; flights = before ++ f ∷ after; lost = lost })
          (record {
            index = abandon f.process f.path f.size index;
            flights = before ++ after;
            lost = lost;
          })
  restored :
      (restore_one : SavedFile → Option Bool) (process : ProcessKey) (index : Index)
      (flights : List Flight) (lost : ℕ)
      → VaultStep checks
          (record { index = index; flights = flights; lost = lost })
          (record { index = (restore restore_one process index).1; flights = flights; lost = lost })
  purged :
      (now : ℕ) (index : Index) (flights : List Flight) (lost : ℕ)
      → VaultStep checks
          (record { index = index; flights = flights; lost = lost })
          (record { index = purge_expired now index; flights = flights; lost = lost })

pub data Reachable (checks : Bool) : Vault → Type 0 where
  start : Reachable checks (record { index = empty_index; flights = []; lost = 0 })
  step : (v w : Vault) → Reachable checks v → VaultStep checks v w → Reachable checks w
