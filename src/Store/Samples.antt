-- ===== src/Store/Samples.antt =====
-- A store over whole numbers, in which a lease is created and confirmed, and a fault claimed.
use llm_service_manager.Prelude.{ℕ, String, false, none, List, []}
use llm_service_manager.Prelude.Text.{is_blank}
use llm_service_manager.Prelude.Sort.{insert_sorted, sorted}
use llm_service_manager.State.{Lease, Pin}
use llm_service_manager.Store.Rows.{
  IntentStore, LeaseRow, FaultClaim, FaultStage, is_hex, fault_eq, recovery_eq, outstanding_leases,
  set_status,
}
use llm_service_manager.Store.Leases.{
  insert_row, put_recovery, transition_row, transition_checks, write_status, transition_lease,
  bootstrap_binds, attach, insert_bootstrap_lease, authorizes, create_destination, create_plain,
  create_bound, create_checks, create_lease,
}
use llm_service_manager.Store.Faults.{
  insert_fault, put_fault, write_fault, field_checks, claim_checks, is_account_with, claim_fault,
  advance_checks, advance_fault,
}
use llm_service_manager.Store.Intents.{
  upsert, delete, each, write, validate_pin, validate_reserve, put_pin, active,
}

-- The definitions that a run of the store computes
unfoldable pub program : Unit {0}
unfolding is_blank insert_sorted sorted is_hex fault_eq recovery_eq outstanding_leases set_status
    insert_row put_recovery transition_row transition_checks write_status transition_lease
    bootstrap_binds attach insert_bootstrap_lease authorizes create_destination create_plain
    create_bound create_checks create_lease insert_fault put_fault write_fault field_checks
    claim_checks is_account_with claim_fault advance_checks advance_fault upsert delete each write
    validate_pin validate_reserve put_pin active
program = tt

abbrev pub lease : String → Lease ℕ
lease status = record {
  lease_id = "l1";
  model = "a";
  gpu = 0;
  util = 1;
  expires_at = 100;
  budget_gb = 40;
  status = status;
}

abbrev pub row : String → LeaseRow ℕ
row status = record { lease = lease status; unit = "vllm-a.service" }

abbrev pub store : List (LeaseRow ℕ) → List (FaultClaim ℕ) → IntentStore ℕ
store leases faults = record {
  leases = leases;
  faults = faults;
  recoveries = [];
  pins = [];
  reserves = [];
  bootstrap = none;
  owned = false;
  catalog_pending = false;
  read_only = false;
}

abbrev pub claim : FaultStage → FaultClaim ℕ
claim stage = record {
  lease_id = "l1";
  model = "a";
  unit = "vllm-a.service";
  invocation_id = "i1";
  gpu = 0;
  reason = "cuda_fault";
  proved_at = 50;
  stage = stage;
  error = none;
  proxy_origin_hash = "h1";
  proxy_submitted = false;
  proxy_acknowledged = false;
}

abbrev pub pin : Pin ℕ
pin = record { model = "a"; until = 200; by = "user" }
