-- ===== src/Store/Rows.antt =====
-- llmsvc/store.py and llmsvc/state.py: the tables of the intent store, its reads and its guards. Every
-- method holds the action lock from its first read to its commit, so it is one step, in which a row
-- that is read twice is the same. A table that is not there yet is an empty one. `bootstrap` is the
-- checkpoint of llmsvc/bootstrap_state.py, and `owned` says whether the thread holds its scope.
use llm_service_manager.Prelude.{
  ℕ, zero, suc, String, Bool, true, false, not, ◌&&◌, ◌||◌, Option, none, some, List, [], ◌∷◌, map,
  str_eq,
}
use llm_service_manager.Prelude.Tests.{◌==◌, leb, is_none, if◌then◌else◌}
use llm_service_manager.Prelude.Lists.{find?, select}
use llm_service_manager.Prelude.Sort.{sorted}
use llm_service_manager.Prelude.Text.{contains, is_blank, opt_str_eq, str_lt}
use llm_service_manager.Prelude.Float.{Float}
use llm_service_manager.Prelude.Result.{Result, ok, guard, ◌>>◌}
use llm_service_manager.State.{Lease, Pin, Reserve}
use Prim.Native.Char.{code}
use Prim.Native.String

pub data FaultStage : Type 0 where
  claimed released complete : FaultStage

pub record FaultClaim (N : Type 0) : Type 0 where
  pub lease_id : String
  pub model : String
  pub unit : String
  pub invocation_id : String
  pub gpu : ℕ
  pub reason : String
  pub proved_at : N
  pub stage : FaultStage
  pub error : Option String
  pub proxy_origin_hash : String
  pub proxy_submitted : Bool
  pub proxy_acknowledged : Bool

pub data RecoveryStage : Type 0 where
  claimed released settled waking destination complete : RecoveryStage

pub record RecoveryClaim (N : Type 0) : Type 0 where
  pub id : String
  pub model : String
  pub source_lease_id : String
  pub unit : String
  pub invocation_id : String
  pub source_gpu : ℕ
  pub reason : String
  pub created_at : N
  pub util_floor : N
  pub budget_floor_gb : N
  pub profile_hash : String
  pub relocate : Bool
  pub stage : RecoveryStage
  pub stop_submitted : Bool
  pub stop_acknowledged : Bool
  pub proxy_submitted : Bool
  pub proxy_acknowledged : Bool
  pub wake_submitted : Bool
  pub wake_acknowledged : Bool
  pub destination_lease_id : Option String
  pub destination_invocation_id : String
  pub error : Option String

-- A row of the lease table
pub record LeaseRow (N : Type 0) : Type 0 where
  pub lease : Lease N
  pub unit : String

pub record Bootstrap (N : Type 0) : Type 0 where
  pub stage : String
  pub lease_id : Option String
  pub model : String
  pub unit : String
  pub util : N

pub record IntentStore (N : Type 0) : Type 0 where
  pub leases : List (LeaseRow N)
  pub faults : List (FaultClaim N)
  pub recoveries : List (RecoveryClaim N)
  pub pins : List (Pin N)
  pub reserves : List (Reserve N)
  pub bootstrap : Option (Bootstrap N)
  pub owned : Bool
  pub catalog_pending : Bool
  pub read_only : Bool

abbrev pub fault_is_active : FaultStage → Bool
fault_is_active FaultStage.complete = false
fault_is_active _ = true

abbrev pub fault_is_claimed : FaultStage → Bool
fault_is_claimed FaultStage.claimed = true
fault_is_claimed _ = false

abbrev pub fault_stage_eq : FaultStage → FaultStage → Bool
fault_stage_eq FaultStage.claimed FaultStage.claimed = true
fault_stage_eq FaultStage.released FaultStage.released = true
fault_stage_eq FaultStage.complete FaultStage.complete = true
fault_stage_eq _ _ = false

abbrev pub recovery_is_active : RecoveryStage → Bool
recovery_is_active RecoveryStage.complete = false
recovery_is_active _ = true

-- The place of a stage in the order of the protocol
abbrev pub order_of : RecoveryStage → ℕ
order_of RecoveryStage.claimed = 0
order_of RecoveryStage.released = 1
order_of RecoveryStage.settled = 2
order_of RecoveryStage.waking = 3
order_of RecoveryStage.destination = 4
order_of RecoveryStage.complete = 5

abbrev pub stage_eq : RecoveryStage → RecoveryStage → Bool
stage_eq a b = order_of a == order_of b

abbrev pub bool_eq : Bool → Bool → Bool
bool_eq true b = b
bool_eq false b = not b

-- `status != 'released'`
abbrev pub is_outstanding : {N : Type 0} → LeaseRow N → Bool
is_outstanding r = not (str_eq r.lease.status "released")

abbrev pub is_hex_digit : ℕ → Bool
is_hex_digit c = leb 48 c && leb c 57 || leb 97 c && leb c 102

-- `re.fullmatch("[0-9a-f]{n}", s)`
unfoldable pub is_hex : ℕ → String → Bool
is_hex zero String.[] = true
is_hex zero (String.◌∷◌ c s) = false
is_hex (suc n) String.[] = false
is_hex (suc n) (String.◌∷◌ c s) = is_hex_digit (code c) && is_hex n s

-- `nonempty`
abbrev pub nonempty : String → (name : String) → Result (Unit {0})
nonempty value name = guard (not (is_blank value)) (String.◌++◌ name " must be a nonempty string")

module _ {N : Type 0} ⦃F : Float N⦄ where
  abbrev pub is_positive : N → Bool
  is_positive value = F.is_finite value && not (F.le value (F.of_nat 0))

  -- `finite_positive`
  abbrev pub finite_positive : N → (name : String) → Result (Unit {0})
  finite_positive value name =
      guard (is_positive value) (String.◌++◌ name " must be a finite positive number")

  -- `claim == other`, of the fields of the dataclass
  unfoldable pub fault_eq : FaultClaim N → FaultClaim N → Bool
  fault_eq a b =
      str_eq a.lease_id b.lease_id
      && str_eq a.model b.model
      && str_eq a.unit b.unit
      && str_eq a.invocation_id b.invocation_id
      && a.gpu == b.gpu
      && str_eq a.reason b.reason
      && F.eq a.proved_at b.proved_at
      && fault_stage_eq a.stage b.stage
      && opt_str_eq a.error b.error
      && str_eq a.proxy_origin_hash b.proxy_origin_hash
      && bool_eq a.proxy_submitted b.proxy_submitted
      && bool_eq a.proxy_acknowledged b.proxy_acknowledged

  unfoldable pub recovery_eq : RecoveryClaim N → RecoveryClaim N → Bool
  recovery_eq a b =
      str_eq a.id b.id
      && str_eq a.model b.model
      && str_eq a.source_lease_id b.source_lease_id
      && str_eq a.unit b.unit
      && str_eq a.invocation_id b.invocation_id
      && a.source_gpu == b.source_gpu
      && str_eq a.reason b.reason
      && F.eq a.created_at b.created_at
      && F.eq a.util_floor b.util_floor
      && F.eq a.budget_floor_gb b.budget_floor_gb
      && str_eq a.profile_hash b.profile_hash
      && bool_eq a.relocate b.relocate
      && stage_eq a.stage b.stage
      && bool_eq a.stop_submitted b.stop_submitted
      && bool_eq a.stop_acknowledged b.stop_acknowledged
      && bool_eq a.proxy_submitted b.proxy_submitted
      && bool_eq a.proxy_acknowledged b.proxy_acknowledged
      && bool_eq a.wake_submitted b.wake_submitted
      && bool_eq a.wake_acknowledged b.wake_acknowledged
      && opt_str_eq a.destination_lease_id b.destination_lease_id
      && str_eq a.destination_invocation_id b.destination_invocation_id
      && opt_str_eq a.error b.error

module _ {N : Type 0} where
  abbrev pub active_fault_of : String → FaultClaim N → Bool
  active_fault_of model c = fault_is_active c.stage && str_eq c.model model

  abbrev pub active_recovery_of : String → RecoveryClaim N → Bool
  active_recovery_of model c = recovery_is_active c.stage && str_eq c.model model

  abbrev pub has_id : String → LeaseRow N → Bool
  has_id lease_id r = str_eq r.lease.lease_id lease_id

  -- `fault`: an index allows one active claim for a model.
  abbrev pub fault : IntentStore N → (model : String) → Option (FaultClaim N)
  fault s model = find? (active_fault_of model) s.faults

  -- `recovery`
  abbrev pub recovery : IntentStore N → (model : String) → Option (RecoveryClaim N)
  recovery s model = find? (active_recovery_of model) s.recoveries

  -- `lease`, by the primary key
  abbrev pub lease_row : IntentStore N → (lease_id : String) → Option (LeaseRow N)
  lease_row s lease_id = find? (has_id lease_id) s.leases

  abbrev pub row_lt : LeaseRow N → LeaseRow N → Bool
  row_lt a b =
      if str_eq a.lease.model b.lease.model
      then str_lt a.lease.lease_id b.lease.lease_id
      else str_lt a.lease.model b.lease.model

  -- `leases`, of the rows that are not released
  unfoldable pub outstanding_leases : IntentStore N → List (LeaseRow N)
  outstanding_leases s = sorted row_lt (select is_outstanding s.leases)

  abbrev pub is_pending : Option (Bootstrap N) → Bool
  is_pending none = false
  is_pending (some b) = not (contains b.stage ("complete" ∷ "aborted" ∷ []))

  abbrev pub bootstrap_pending : IntentStore N → Bool
  bootstrap_pending s = is_pending s.bootstrap

  abbrev pub bootstrap_authorized : IntentStore N → Bool
  bootstrap_authorized s = not (is_none s.bootstrap) && s.owned

  -- `_bootstrap_guard`
  abbrev pub bootstrap_guard : IntentStore N → Result (Unit {0})
  bootstrap_guard s =
      guard (not (bootstrap_pending s) || bootstrap_authorized s) "bootstrap reconciliation pending"

  -- `_catalog_allows_accounting`
  abbrev pub catalog_allows_accounting : IntentStore N → Result (Unit {0})
  catalog_allows_accounting s = do
    bootstrap_guard s
    guard (not s.catalog_pending) "catalog reconciliation pending"

  abbrev pub writable : IntentStore N → Result (Unit {0})
  writable s = guard (not s.read_only) "intent store is read-only"

  -- The effect of a write, unless the call is a dry run
  abbrev pub unless_dry_run :
      (dry_run : Bool) → IntentStore N → Result (IntentStore N) → Result (IntentStore N)
  unless_dry_run true s write = ok s
  unless_dry_run false s write = write

  abbrev pub with_status : (lease_id status : String) → LeaseRow N → LeaseRow N
  with_status lease_id status r =
      if has_id lease_id r then record r { lease = record r.lease { status = status } } else r

  -- `UPDATE llmsvc_leases SET status=? WHERE lease_id=?`
  unfoldable pub set_status : (lease_id status : String) → List (LeaseRow N) → List (LeaseRow N)
  set_status lease_id status rows = map (with_status lease_id status) rows
