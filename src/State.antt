-- ===== src/State.antt =====
-- llmsvc/state.py: the observations that the policies read and the decisions that they write.
-- Each field has the type of its annotation; `N` is the type of Python's floats, and GPU numbers
-- are naturals.
mod Transition
pub use Transition.*
use llm_service_manager.Prelude.{ℕ, String, Bool, true, false, Option, none, some, List, []}
use llm_service_manager.Prelude.Int.{ℤ}

pub data ModelStatus : Type 0 where
  awake sleeping stopped unknown : ModelStatus

abbrev pub is_awake : ModelStatus → Bool
is_awake awake = true
is_awake _ = false

abbrev pub is_asleep : ModelStatus → Bool
is_asleep sleeping = true
is_asleep _ = false

abbrev pub is_stopped : ModelStatus → Bool
is_stopped stopped = true
is_stopped _ = false

abbrev pub is_unknown : ModelStatus → Bool
is_unknown unknown = true
is_unknown _ = false

-- `state in ("awake", "sleeping")`
abbrev pub is_resident : ModelStatus → Bool
is_resident awake = true
is_resident sleeping = true
is_resident _ = false

pub record GpuProcess (N : Type 0) : Type 0 where
  pub pid : ℕ
  pub used_gb : Option N
  pub name : Option String
  pub model : Option String
  pub user : Option String

pub record GpuState (N : Type 0) : Type 0 where
  pub index : ℕ
  pub uuid : Option String
  pub total_gb : Option N
  pub used_gb : Option N
  pub free_gb : Option N
  pub managed_gb : Option N
  pub external_gb : Option N
  pub utilization_percent : Option N
  pub external_processes : List (GpuProcess N)

pub record ModelState (N : Type 0) : Type 0 where
  pub name : String
  pub state : ModelStatus
  pub gpu : Option ℕ
  pub util : Option N
  pub budget_gb : Option N
  pub weights_gb : Option N
  pub resident_gb : Option N
  pub unit : Option String
  pub unit_active : Option Bool
  pub health_ok : Option Bool
  pub is_sleeping : Option Bool
  pub swap_state : Option String
  pub port : Option ℕ
  pub is_default : Bool
  pub cold_start_seconds : Option N
  pub transition : Option String

pub record Activity (N : Type 0) : Type 0 where
  pub model : String
  pub last_request_at : Option N
  pub requests_last_hour : Option ℤ
  pub requests_last_10m : Option ℤ
  pub in_flight : Option ℤ
  pub by : List String

pub record Pin (N : Type 0) : Type 0 where
  pub model : String
  pub until : N
  pub by : String

pub record Reserve (N : Type 0) : Type 0 where
  pub id : String
  pub gpu : ℕ
  pub size_gb : N
  pub until : N
  pub by : String

-- `status` is a text: the accounting also handles one that it does not know.
pub record Lease (N : Type 0) : Type 0 where
  pub lease_id : String
  pub model : String
  pub gpu : ℕ
  pub util : N
  pub expires_at : N
  pub budget_gb : N
  pub status : String

pub record MemoryState (N : Type 0) : Type 0 where
  pub host_available_gb : Option N
  pub sleeping_weights_gb : Option N
  pub budget_gb : N
  pub host_min_available_gb : N

pub record Blocker (N : Type 0) : Type 0 where
  pub model : Option String
  pub reason : String
  pub gpu : Option ℕ
  pub user : Option String
  pub in_flight : Option ℤ
  pub external_gb : Option N

pub data Kind : Type 0 where
  sleep stop wake place : Kind

pub record Action : Type 0 where
  pub kind : Kind
  pub model : String
  pub reason : String
  pub gpu : Option ℕ

pub record StateSnapshot (N : Type 0) : Type 0 where
  pub sampled_at : Option N
  pub gpus : List (GpuState N)
  pub models : List (ModelState N)
  pub activity : List (Activity N)
  pub pins : List (Pin N)
  pub reserves : List (Reserve N)
  pub leases : List (Lease N)
  pub memory : MemoryState N
  pub blocked_by : List (Blocker N)
  pub errors : List String
  pub read_only : Bool
  pub schema_version : ℕ

-- `Blocker(model, reason, gpu)`, the other fields at their default
abbrev pub blocker : {N : Type 0} → Option String → String → Option ℕ → Blocker N
blocker model reason gpu = record {
  model = model;
  reason = reason;
  gpu = gpu;
  user = none;
  in_flight = none;
  external_gb = none;
}

-- `Activity(model)`: nothing is known of it
abbrev pub no_activity : {N : Type 0} → String → Activity N
no_activity name = record {
  model = name;
  last_request_at = none;
  requests_last_hour = none;
  requests_last_10m = none;
  in_flight = none;
  by = [];
}

abbrev pub action : Kind → String → String → Option ℕ → Action
action kind model reason gpu = record { kind = kind; model = model; reason = reason; gpu = gpu }
