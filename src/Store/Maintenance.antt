-- ===== src/Store/Maintenance.antt =====
-- llmsvc/store.py: `release_maintenance_lease`, which releases the lease of a model that a maintenance
-- removed. The checkpoints of the catalog and of the maintenance are what the store read; it compares
-- them again under the lock that it holds, so they are the same.
use llm_service_manager.Prelude.{
  String, not, ◌&&◌, Bool, false, Option, some, List, [], ◌∷◌, str_eq,
}
use llm_service_manager.Prelude.Tests.{◌==◌, is_none}
use llm_service_manager.Prelude.Lists.{select}
use llm_service_manager.Prelude.Text.{contains}
use llm_service_manager.Prelude.Float.{Float}
use llm_service_manager.Prelude.Result.{Result, ok, err, guard, ◌>>◌}
use llm_service_manager.Store.Rows.{IntentStore, LeaseRow, fault, recovery, lease_row, set_status}

-- The checkpoint of the catalog, of which `old_manifest["active"]` and `new_manifest["active"]` are read
pub record Catalog : Type 0 where
  pub transaction_id : String
  pub old_active : List String
  pub new_active : List String

-- The checkpoint of a maintenance: the models whose effect `stop_model` was submitted, and the accounts
-- that it captured
pub record Maintenance (N : Type 0) : Type 0 where
  pub submitted_stops : List String
  pub accounts : List (LeaseRow N)

module _ {N : Type 0} ⦃F : Float N⦄ where
  -- The account is for the same model, card, share and budget.
  abbrev is_same_account : LeaseRow N → LeaseRow N → Bool
  is_same_account captured row =
      str_eq captured.lease.model row.lease.model
      && captured.lease.gpu == row.lease.gpu
      && F.eq captured.lease.util row.lease.util
      && F.eq captured.lease.budget_gb row.lease.budget_gb

  abbrev pub is_captured : (lease_id unit : String) → LeaseRow N → Bool
  is_captured lease_id unit captured =
      str_eq captured.lease.lease_id lease_id && str_eq captured.unit unit

  -- Exactly one account was captured for the lease, and it is the one of the row.
  abbrev pub is_the_account : List (LeaseRow N) → LeaseRow N → Bool
  is_the_account (captured ∷ []) row = is_same_account captured row
  is_the_account _ row = false

  abbrev pub binds_cleanup :
      IntentStore N → Catalog → Maintenance N → (transaction_id unit : String) → LeaseRow N → Bool
  binds_cleanup s catalog state transaction_id unit row =
      str_eq catalog.transaction_id transaction_id
      && str_eq row.unit unit
      && str_eq row.lease.status "confirmed"
      && contains row.lease.model catalog.old_active
      && not (contains row.lease.model catalog.new_active)
      && contains row.lease.model state.submitted_stops
      && is_none (fault s row.lease.model)
      && is_none (recovery s row.lease.model)

  unfoldable pub cleanup_checks :
      IntentStore N
      → (catalog : Option Catalog) (state : Option (Maintenance N))
      → (transaction_id lease_id unit : String) → Option (LeaseRow N)
      → Result (Unit {0})
  cleanup_checks s (some catalog) (some state) transaction_id lease_id unit (some row) = do
    guard (binds_cleanup s catalog state transaction_id unit row)
        "maintenance cleanup account is unbound"
    guard (is_the_account (select (is_captured lease_id unit) state.accounts) row)
        "maintenance cleanup lease is not the captured account"
  cleanup_checks s _ _ transaction_id lease_id unit _ = err "maintenance cleanup account is unbound"

  -- `release_maintenance_lease`
  unfoldable pub release_maintenance_lease :
      IntentStore N
      → (catalog : Option Catalog) (state : Option (Maintenance N))
      → (transaction_id lease_id unit : String) → Result (IntentStore N)
  release_maintenance_lease s catalog state transaction_id lease_id unit = do
    guard (not s.read_only) "intent store is read-only"
    cleanup_checks s catalog state transaction_id lease_id unit (lease_row s lease_id)
    ok (record s { leases = set_status lease_id "released" s.leases })
