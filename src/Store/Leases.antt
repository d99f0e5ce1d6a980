-- ===== src/Store/Leases.antt =====
-- llmsvc/store.py: the lease table. A lease is created pending, and ends released; the row stays.
use llm_service_manager.Prelude.{
  String, Bool, false, not, ◌&&◌, ◌||◌, Option, none, some, List, [], ◌∷◌, ◌++◌, str_eq,
}
use llm_service_manager.Prelude.Tests.{◌==◌, is_none, if◌then◌else◌}
use llm_service_manager.Prelude.Lists.{any}
use llm_service_manager.Prelude.Text.{contains, opt_str_eq}
use llm_service_manager.Prelude.Float.{Float}
use llm_service_manager.Prelude.Result.{Result, ok, err, guard, ◌>>=◌, ◌>>◌}
use llm_service_manager.State.{Lease}
use llm_service_manager.Store.Rows.{
  IntentStore, LeaseRow, RecoveryClaim, RecoveryStage, Bootstrap, stage_eq, recovery_eq,
  is_outstanding, has_id, fault, recovery, lease_row, bootstrap_pending, bootstrap_guard,
  catalog_allows_accounting, writable, unless_dry_run, nonempty, finite_positive, set_status,
}

module _ {N : Type 0} where
  -- The keys of the table: the id, and the model of a row that is not released
  unfoldable pub insert_row : List (LeaseRow N) → LeaseRow N → Result (List (LeaseRow N))
  insert_row rows row = do
    guard (not (any (has_id row.lease.lease_id) rows))
        "UNIQUE constraint failed: llmsvc_leases.lease_id"
    guard
        (not (is_outstanding row)
          || not (any (λ r. is_outstanding r && str_eq r.lease.model row.lease.model) rows))
        "UNIQUE constraint failed: llmsvc_leases.model"
    ok (rows ++ row ∷ [])

  abbrev pub lease_is_released : Option (LeaseRow N) → Bool
  lease_is_released none = false
  lease_is_released (some r) = str_eq r.lease.status "released"

  -- `UPDATE llmsvc_recoveries SET stage=?, record=? WHERE id=?`
  unfoldable pub put_recovery : RecoveryClaim N → List (RecoveryClaim N) → List (RecoveryClaim N)
  put_recovery c [] = []
  put_recovery c (x ∷ xs) =
      let rest = put_recovery c xs in if str_eq x.id c.id then c ∷ rest else x ∷ rest

  abbrev pub bound_claim : RecoveryClaim N → String → RecoveryClaim N
  bound_claim active lease_id = record active {
    stage = RecoveryStage.destination;
    destination_lease_id = some lease_id;
  }

  abbrev bound_bootstrap : Bootstrap N → String → Bootstrap N
  bound_bootstrap b lease_id = record b { stage = "placed"; lease_id = some lease_id }

  -- The bootstrap is bound to another lease.
  abbrev bound_elsewhere : IntentStore N → String → Option (Bootstrap N) → Bool
  bound_elsewhere s lease_id none = false
  bound_elsewhere s lease_id (some b) =
      bootstrap_pending s && not (opt_str_eq b.lease_id (some lease_id))

  abbrev pub recovers_elsewhere : (lease_id : String) → Option (RecoveryClaim N) → Bool
  recovers_elsewhere lease_id none = false
  recovers_elsewhere lease_id (some c) = not (opt_str_eq (some lease_id) c.destination_lease_id)

  unfoldable pub transition_row :
      IntentStore N → (lease_id status : String) → Option (LeaseRow N) → Result (Unit {0})
  transition_row s lease_id status none = err "lease is absent or revoked"
  transition_row s lease_id status (some row) = do
    guard (not (str_eq row.lease.status "released")) "lease is absent or revoked"
    guard (is_none (fault s row.lease.model)) "fault recovery pending"
    guard (not (recovers_elsewhere lease_id (recovery s row.lease.model)))
        "sleeping recovery pending"

  unfoldable pub transition_checks : IntentStore N → (lease_id status : String) → Result (Unit {0})
  transition_checks s lease_id status = do
    guard (contains status ("confirmed" ∷ "stale" ∷ "released" ∷ [])) "invalid lease transition"
    catalog_allows_accounting s
    guard (not (bound_elsewhere s lease_id s.bootstrap)) "bootstrap lease transition is unbound"

  unfoldable pub write_status : IntentStore N → (lease_id status : String) → Result (IntentStore N)
  write_status s lease_id status = do
    writable s
    bootstrap_guard s
    ok (record s { leases = set_status lease_id status s.leases })

  -- `transition_lease`
  unfoldable pub transition_lease :
      IntentStore N → (lease_id status : String) → (dry_run : Bool) → Result (IntentStore N)
  transition_lease s lease_id status dry_run = do
    transition_checks s lease_id status
    transition_row s lease_id status (lease_row s lease_id)
    unless_dry_run dry_run s (write_status s lease_id status)

module _ {N : Type 0} ⦃F : Float N⦄ where
  -- `bootstrap_state.insert_lease`
  unfoldable pub bootstrap_binds : IntentStore N → Lease N → String → Option (Bootstrap N) → Bool
  bootstrap_binds s lease unit none = false
  bootstrap_binds s lease unit (some b) =
      s.owned
      && str_eq b.stage "placing"
      && is_none b.lease_id
      && str_eq lease.model b.model
      && str_eq unit b.unit
      && F.eq lease.util b.util

  unfoldable pub attach : Option (Bootstrap N) → String → Option (Bootstrap N)
  attach none lease_id = none
  attach (some b) lease_id = some (bound_bootstrap b lease_id)

  unfoldable pub insert_bootstrap_lease :
      IntentStore N → Lease N → (unit : String) → Result (IntentStore N)
  unfolding bootstrap_binds attach
  insert_bootstrap_lease s lease unit = do
    guard (bootstrap_binds s lease unit s.bootstrap)
        "bootstrap placement is not bound to its target"
    writable s
    rows ← insert_row s.leases (record { lease = lease; unit = unit })
    ok (record s { leases = rows; bootstrap = attach s.bootstrap lease.lease_id })

  -- The recovery that the caller names is the active one, and it waits for this destination.
  unfoldable pub authorizes :
      IntentStore N
      → Lease N
      → (unit : String) → (given : Option (RecoveryClaim N)) → RecoveryClaim N
      → Bool
  authorizes s lease unit none active = false
  authorizes s lease unit (some given) active =
      recovery_eq active given
      && stage_eq active.stage RecoveryStage.waking
      && active.relocate
      && active.wake_submitted
      && is_none active.destination_lease_id
      && not (lease.gpu == active.source_gpu)
      && not (F.lt lease.budget_gb active.budget_floor_gb)
      && str_eq unit active.unit
      && lease_is_released (lease_row s active.source_lease_id)

  unfoldable pub create_destination :
      IntentStore N
      → Lease N
      → (unit : String) → (dry_run : Bool) → RecoveryClaim N
      → Result (IntentStore N)
  create_destination s lease unit dry_run active = unless_dry_run dry_run s (do
    writable s
    rows ← insert_row s.leases (record { lease = lease; unit = unit })
    ok (record s {
      leases = rows;
      recoveries = put_recovery (bound_claim active lease.lease_id) s.recoveries;
    }))

  unfoldable pub create_plain :
      IntentStore N → Lease N → (unit : String) → (dry_run : Bool) → Result (IntentStore N)
  create_plain s lease unit dry_run = unless_dry_run dry_run s (
      if bootstrap_pending s then insert_bootstrap_lease s lease unit else (do
        writable s
        bootstrap_guard s
        rows ← insert_row s.leases (record { lease = lease; unit = unit })
        ok (record s { leases = rows })))

  unfoldable pub create_bound :
      IntentStore N
      → Lease N
      → (unit : String) → (dry_run : Bool) → (given active : Option (RecoveryClaim N))
      → Result (IntentStore N)
  create_bound s lease unit dry_run none none = create_plain s lease unit dry_run
  create_bound s lease unit dry_run (some given) none =
      err "sleeping recovery placement is not authorized"
  create_bound s lease unit dry_run given (some active) = do
    guard (authorizes s lease unit given active) "sleeping recovery placement is not authorized"
    create_destination s lease unit dry_run active

  unfoldable pub create_checks : IntentStore N → Lease N → (unit : String) → Result (Unit {0})
  create_checks s lease unit = do
    nonempty lease.lease_id "lease_id"
    nonempty lease.model "model"
    nonempty unit "unit"
    finite_positive lease.expires_at "expires_at"
    finite_positive lease.budget_gb "budget_gb"
    finite_positive lease.util "util"
    guard (F.le lease.util (F.of_nat 1) && str_eq lease.status "pending") "invalid lease"
    catalog_allows_accounting s
    guard (is_none (fault s lease.model)) "fault recovery pending"

  -- `create_lease`
  unfoldable pub create_lease :
      IntentStore N
      → Lease N
      → (unit : String) → (dry_run : Bool) → (recovery_claim : Option (RecoveryClaim N))
      → Result (IntentStore N)
  create_lease s lease unit dry_run recovery_claim = do
    create_checks s lease unit
    create_bound s lease unit dry_run recovery_claim (recovery s lease.model)
