-- ===== src/Store/Life.antt =====
-- llmsvc/store.py: the life of the store, as the steps that its methods take. Every
-- method that writes the table of the leases or of the claims is a step of its own. What else changes
-- the file is the step `outside`: the checkpoints of the catalog, of the bootstrap and of maintenance
-- and the intents of users, which are in other tables.
use llm_service_manager.Prelude.{String, ◌≡◌, Bool, true, Option, some, List}
use llm_service_manager.Prelude.Float.{Float}
use llm_service_manager.Prelude.Lists.{All}
use llm_service_manager.Prelude.Result.{ok}
use llm_service_manager.State.{Lease, Pin, Reserve}
use llm_service_manager.Store.Rows.{
  IntentStore, LeaseRow, FaultClaim, FaultStage, RecoveryClaim, RecoveryStage, Bootstrap,
  fault_is_active, fault_is_claimed, has_id,
}
use llm_service_manager.Prelude.Lists.{find?}
use llm_service_manager.Store.Leases.{create_lease, transition_lease}
use llm_service_manager.Store.Maintenance.{Catalog, Maintenance, release_maintenance_lease}
use llm_service_manager.Store.Faults.{claim_fault, advance_fault, expected_status}
use llm_service_manager.Store.Recoveries.{Progress, claim_recovery, advance_recovery}
use llm_service_manager.Store.Table.{IsSingle}

module _ {N : Type 0} ⦃F : Float N⦄ where
  pub data Step (s : IntentStore N) : IntentStore N → Type 0 where
    create :
        (lease : Lease N) (unit : String) (dry_run : Bool) (given : Option (RecoveryClaim N))
        (s' : IntentStore N)
        → create_lease s lease unit dry_run given ≡ ok s'
        → Step s s'
    transition :
        (lease_id status : String) (dry_run : Bool) (s' : IntentStore N)
        → transition_lease s lease_id status dry_run ≡ ok s'
        → Step s s'
    cleanup :
        (catalog : Option Catalog) (state : Option (Maintenance N))
        (transaction_id lease_id unit : String) (s' : IntentStore N)
        → release_maintenance_lease s catalog state transaction_id lease_id unit ≡ ok s'
        → Step s s'
    fault :
        (c : FaultClaim N) (dry_run : Bool) (s' : IntentStore N)
        → claim_fault s c dry_run ≡ ok s'
        → Step s s'
    next_fault :
        (c : FaultClaim N) (stage : FaultStage) (error : Option String) (dry_run : Bool)
        (submitted acknowledged : Option Bool) (s' : IntentStore N)
        → advance_fault s c stage error dry_run submitted acknowledged ≡ ok s'
        → Step s s'
    recover :
        (c : RecoveryClaim N) (dry_run : Bool) (s' : IntentStore N)
        → claim_recovery s c dry_run ≡ ok s'
        → Step s s'
    next_recovery :
        (c : RecoveryClaim N) (stage : Option RecoveryStage) (error : Option String)
        (dry_run : Bool) (invocation : Option String) (progress : Progress) (s' : IntentStore N)
        → advance_recovery s c stage error dry_run invocation progress ≡ ok s'
        → Step s s'
    outside :
        (pins : List (Pin N)) (reserves : List (Reserve N)) (bootstrap : Option (Bootstrap N))
        (owned catalog_pending read_only : Bool)
        → Step s (record s {
          pins = pins;
          reserves = reserves;
          bootstrap = bootstrap;
          owned = owned;
          catalog_pending = catalog_pending;
          read_only = read_only;
        })

  -- Some steps later
  pub data Later (s : IntentStore N) : IntentStore N → Type 0 where
    now : Later s s
    after : (t u : IntentStore N) → Later s t → Step t u → Later s u

-- A pending fault holds its account: the row of the lease is there, for the model of the claim, and it
-- is confirmed until the claim is released.
abbrev pub Holds : {N : Type 0} → List (LeaseRow N) → FaultClaim N → Type 0
Holds {N} rows c =
    fault_is_active c.stage ≡ true
    → (r : LeaseRow N) × (find? (has_id c.lease_id) rows ≡ some r)
      × (r.lease.model ≡ c.model)
      × (r.lease.status ≡ expected_status (fault_is_claimed c.stage))

-- A recovery sets its flags in order: the stop, the cleanup of the proxy, the wake.
pub record IsOrdered {N : Type 0} (c : RecoveryClaim N) : Type 0 where
  pub stopped : c.stop_acknowledged ≡ true → c.stop_submitted ≡ true
  pub stopped_first : c.proxy_submitted ≡ true → c.stop_acknowledged ≡ true
  pub cleaned : c.proxy_acknowledged ≡ true → c.proxy_submitted ≡ true
  pub cleaned_first : c.wake_submitted ≡ true → c.proxy_acknowledged ≡ true
  pub woken : c.wake_acknowledged ≡ true → c.wake_submitted ≡ true

pub record IsStore {N : Type 0} (s : IntentStore N) : Type 0 where
  pub single : IsSingle s.leases
  pub held : All (Holds s.leases) s.faults
  pub ordered : All IsOrdered s.recoveries
