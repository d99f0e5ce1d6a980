-- ===== src/Reload/World.antt =====
-- llmsvc/reload.py: what the calls of one run of the queue answer.
use llm_service_manager.Prelude.{ℕ, String, Bool, Option, List}
use llm_service_manager.Prelude.Result.{Result}

-- A file that was read: its device and inode, and all of its metadata
pub record Source : Type 0 where
  pub content : String
  pub file_id : ℕ
  pub identity : ℕ

-- The job, and what the clock, the file system and the callbacks answer in the order of the calls; a job
-- with maintenance has the digest of the configuration that it starts from.
pub record World (N : Type 0) : Type 0 where
  pub submitted_at : N
  pub timeout : N
  pub budget : N
  pub maintenance : Option String
  pub has_binding : Bool
  pub first_clock : N
  pub first_blockers : Result (List String)
  pub read : Result Source
  pub sha256 : String → String
  pub transform : String → Result String
  pub binding : (candidate : String) → Result (Unit {0})
  pub stage : (candidate : String) → Result (Unit {0})
  pub second_blockers : Result (List String)
  pub second_clock : N
  pub reread : Result Source
  pub marker_bytes : (candidate : String) → Result String
  pub marker_size : String → ℕ
  pub marker_opened : Result (Unit {0})
  pub marker_written : Result (Unit {0})
  pub marker_synced : Result (Unit {0})
  pub third_blockers : Result (List String)
  pub third_clock : N
  pub marker_withdrawn : Result (Unit {0})
  pub withdrawal_synced : Result (Unit {0})
  pub started : N
  pub adapter_available : Bool
  pub prepare_clock : N
  pub before_replace : Result (Unit {0})
  pub prepared_clock : N
  pub still_bound : Bool
  pub latest : Result Source
  pub marker_intact : Result (Unit {0})
  pub replaced : Result (Unit {0})
  pub directory_synced : Result (Unit {0})
  pub replaced_clock : N
  pub notified : Result (Unit {0})
  pub adopted_clock : N
  pub after_apply : Result (Unit {0})
  pub applied_clock : N
  pub marker_matches : Result (Unit {0})
  pub marker_removed : Result (Unit {0})
  pub removal_synced : Result (Unit {0})
  pub marker_restored : Bool
  pub cleaned_up : Result (Unit {0})
