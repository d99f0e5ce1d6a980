-- ===== src/Store/Faults.antt =====
-- llmsvc/store.py: the claims of proven faults, which fence a model until its cleanup is complete.
use llm_service_manager.Prelude.{
  ℕ, String, Bool, true, false, not, ◌&&◌, ◌||◌, Option, none, some, List, [], ◌∷◌, ◌++◌, str_eq,
}
use llm_service_manager.Prelude.Tests.{◌==◌, is_none, is_true, or_default, if◌then◌else◌}
use llm_service_manager.Prelude.Lists.{any}
use llm_service_manager.Prelude.Float.{Float}
use llm_service_manager.Prelude.Result.{Result, ok, guard, ◌>>=◌, ◌>>◌}
use llm_service_manager.Store.Rows.{
  IntentStore, LeaseRow, FaultClaim, FaultStage, fault_is_claimed, fault_stage_eq, fault_eq,
  active_fault_of, fault, recovery, lease_row, catalog_allows_accounting, writable, unless_dry_run,
  nonempty, finite_positive, set_status,
}

-- `stage in (claim.stage, "released" if claim.stage == "claimed" else "complete")`
abbrev pub may_advance : FaultStage → FaultStage → Bool
may_advance FaultStage.claimed FaultStage.claimed = true
may_advance FaultStage.claimed FaultStage.released = true
may_advance FaultStage.claimed FaultStage.complete = false
may_advance FaultStage.released FaultStage.claimed = false
may_advance FaultStage.released FaultStage.released = true
may_advance FaultStage.released FaultStage.complete = true
may_advance FaultStage.complete stage = fault_stage_eq stage FaultStage.complete

-- A flag that was set is never taken back.
abbrev pub takes_back : (flag : Bool) → (value : Option Bool) → Bool
takes_back flag none = false
takes_back flag (some value) = flag && not value

abbrev pub expected_status : (is_claimed : Bool) → String
expected_status is_claimed = if is_claimed then "confirmed" else "released"

module _ {N : Type 0} where
  -- `(row.model, row.gpu, row.unit) == (model, gpu, unit)`
  abbrev pub is_account : (model : String) → (gpu : ℕ) → (unit : String) → LeaseRow N → Bool
  is_account model gpu unit row =
      str_eq row.lease.model model && row.lease.gpu == gpu && str_eq row.unit unit

  abbrev pub account_is :
      (model : String) → (gpu : ℕ) → (unit : String) → Option (LeaseRow N) → Bool
  account_is model gpu unit none = false
  account_is model gpu unit (some row) = is_account model gpu unit row

  abbrev pub status_is : (status : String) → Option (LeaseRow N) → Bool
  status_is status none = false
  status_is status (some row) = str_eq row.lease.status status

  -- The keys of the table: the lease, and the model of a claim that is not complete
  unfoldable pub insert_fault : List (FaultClaim N) → FaultClaim N → Result (List (FaultClaim N))
  insert_fault rows c = do
    guard (not (any (λ (x : FaultClaim N). str_eq x.lease_id c.lease_id) rows))
        "UNIQUE constraint failed: llmsvc_faults.lease_id"
    guard (not (any (active_fault_of c.model) rows)) "UNIQUE constraint failed: llmsvc_faults.model"
    ok (rows ++ c ∷ [])

  -- `UPDATE llmsvc_faults SET stage=?, record=? WHERE lease_id=?`
  unfoldable pub put_fault : FaultClaim N → List (FaultClaim N) → List (FaultClaim N)
  put_fault c [] = []
  put_fault c (x ∷ xs) =
      let rest = put_fault c xs in if str_eq x.lease_id c.lease_id then c ∷ rest else x ∷ rest

  abbrev pub is_initial_fault : FaultClaim N → Bool
  is_initial_fault c = fault_is_claimed c.stage && not c.proxy_submitted && not c.proxy_acknowledged

  abbrev pub releases : FaultClaim N → FaultStage → Bool
  releases c stage = fault_is_claimed c.stage && fault_stage_eq stage FaultStage.released

  abbrev pub unconfirmed : FaultClaim N → Bool
  unconfirmed c =
      c.proxy_acknowledged && not c.proxy_submitted
      || fault_stage_eq c.stage FaultStage.claimed && c.proxy_submitted
      || fault_stage_eq c.stage FaultStage.complete && not c.proxy_acknowledged

  abbrev pub advanced_fault :
      FaultClaim N
      → FaultStage
      → (error : Option String) → (proxy_submitted proxy_acknowledged : Option Bool) → FaultClaim N
  advanced_fault c stage error proxy_submitted proxy_acknowledged = record c {
    stage = stage;
    error = error;
    proxy_submitted = or_default c.proxy_submitted proxy_submitted;
    proxy_acknowledged = or_default c.proxy_acknowledged proxy_acknowledged;
  }

  -- The commit of `advance_fault`
  unfoldable pub write_fault : IntentStore N → (old new : FaultClaim N) → Result (IntentStore N)
  write_fault s old new = do
    writable s
    ok (record s {
      leases =
          if releases old new.stage then set_status old.lease_id "released" s.leases else s.leases;
      faults = put_fault new s.faults;
    })

module _ {N : Type 0} ⦃F : Float N⦄ where
  unfoldable pub field_checks : FaultClaim N → Result (Unit {0})
  field_checks c = do
    nonempty c.lease_id "lease_id"
    nonempty c.model "model"
    nonempty c.unit "unit"
    nonempty c.invocation_id "invocation_id"
    nonempty c.reason "reason"
    nonempty c.proxy_origin_hash "proxy_origin_hash"
    finite_positive c.proved_at "proved_at"

  unfoldable pub claim_checks : IntentStore N → FaultClaim N → Result (Unit {0})
  claim_checks s c = do
    field_checks c
    guard (is_initial_fault c) "invalid initial fault claim"
    guard (is_none (recovery s c.model)) "sleeping recovery pending"
    catalog_allows_accounting s

  -- The account of a claim: its row, with this status
  unfoldable pub is_account_with : IntentStore N → FaultClaim N → (status : String) → Bool
  is_account_with s c status =
      account_is c.model c.gpu c.unit (lease_row s c.lease_id)
      && status_is status (lease_row s c.lease_id)

  -- `claim_fault`
  unfoldable pub claim_fault :
      IntentStore N → FaultClaim N → (dry_run : Bool) → Result (IntentStore N)
  claim_fault s c dry_run = do
    claim_checks s c
    guard (is_account_with s c "confirmed") "fault account changed"
    unless_dry_run dry_run s
        (do writable s; rows ← insert_fault s.faults c; ok (record s { faults = rows }))

  abbrev pub is_current_fault : FaultClaim N → Option (FaultClaim N) → Bool
  is_current_fault c none = false
  is_current_fault c (some active) = fault_eq active c

  unfoldable pub advance_checks :
      IntentStore N
      → (c updated : FaultClaim N) → (proxy_submitted proxy_acknowledged : Option Bool)
      → Result (Unit {0})
  advance_checks s c updated proxy_submitted proxy_acknowledged = do
    guard (may_advance c.stage updated.stage) "invalid fault transition"
    guard (not (takes_back c.proxy_submitted proxy_submitted)) "invalid proxy progress transition"
    guard (not (takes_back c.proxy_acknowledged proxy_acknowledged))
        "invalid proxy progress transition"
    guard (not (is_true proxy_acknowledged) || c.proxy_submitted)
        "proxy acknowledgment requires a prior durable submission"
    guard (not (unconfirmed updated)) "fault proxy progress is unconfirmed"
    guard (is_current_fault c (fault s c.model)) "fault claim changed"
    catalog_allows_accounting s
    guard (account_is c.model c.gpu c.unit (lease_row s c.lease_id)) "fault account changed"

  -- `advance_fault`
  unfoldable pub advance_fault :
      IntentStore N
      → FaultClaim N
      → FaultStage
      → (error : Option String) → (dry_run : Bool)
      → (proxy_submitted proxy_acknowledged : Option Bool) → Result (IntentStore N)
  advance_fault s c stage error dry_run proxy_submitted proxy_acknowledged =
      let updated = advanced_fault c stage error proxy_submitted proxy_acknowledged in
      (do
        advance_checks s c updated proxy_submitted proxy_acknowledged
        guard (is_account_with s c (expected_status (fault_is_claimed c.stage)))
            "fault account status changed"
        unless_dry_run dry_run s (write_fault s c updated))
