-- ===== src/Reload/Queue.antt =====
-- llmsvc/reload.py: `enqueue`, and `process_once` on the whole queue. The log and the table of finished jobs
-- are left out; a job that stays in the queue has committed nothing.
use llm_service_manager.Prelude.{
  String, Bool, false, not, ◌&&◌, ◌||◌, Option, none, some, List, [], ◌∷◌, ◌++◌, str_eq,
}
use llm_service_manager.Prelude.Tests.{is_some, if◌then◌else◌}
use llm_service_manager.Prelude.Float.{Float}
use llm_service_manager.Prelude.Result.{Result, ok, err, guard, ◌>>=◌, ◌>>◌}
use llm_service_manager.Reload.World.{Source, World}
use llm_service_manager.Reload.Transaction.{JobStatus, Tx, process_once}

-- A job, with the base digest of its maintenance; `binding` is the check of its witness binding.
pub record Job (N : Type 0) : Type 0 where
  pub submitted_at : N
  pub maintenance : Option String
  pub has_binding : Bool
  pub transform : String → Result String
  pub binding : (candidate : String) → Result (Unit {0})
  pub status : JobStatus
  pub blocked_by : List String
  pub error : Option String

pub record Queue (N : Type 0) : Type 0 where
  pub config : String
  pub marker : Option String
  pub completion_marker : Option String
  pub pending : List (Job N)

-- What the calls of `enqueue` answer
pub record Desk (N : Type 0) : Type 0 where
  pub dry_run : Bool
  pub clock : N
  pub descriptor : Result (Unit {0})
  pub adapter_available : Bool
  pub read : Result Source
  pub sha256 : String → String
  pub stage : (candidate : String) → Result (Unit {0})

pub data Enqueued : Type 0 where
  would queued : Enqueued

module _ {N : Type 0} where
  -- The transformations of some jobs, one after the other
  unfoldable pub apply_all : List (Job N) → (data_ : String) → Result String
  apply_all [] data_ = ok data_
  apply_all (job ∷ jobs) data_ = job.transform data_ >>= apply_all jobs

  abbrev pub is_shut : Queue N → Bool
  is_shut q = is_some q.completion_marker || is_some q.marker

  abbrev pub admit_maintenance : Desk N → Job N → (maintenance : Option String) → Result (Unit {0})
  admit_maintenance desk job none = ok tt
  admit_maintenance desk job (some base) =
      desk.descriptor
      >> guard (job.has_binding && desk.adapter_available)
          "maintenance adapter and binding are required"

  abbrev pub on_base : Desk N → (data_ : String) → (maintenance : Option String) → Result (Unit {0})
  on_base desk data_ none = ok tt
  on_base desk data_ (some base) =
      guard (str_eq (desk.sha256 data_) base) "maintenance base configuration changed"

  -- The candidate behind all jobs that wait
  unfoldable pub candidate_of : Desk N → Job N → Queue N → Result String
  candidate_of desk job q = do
    guard (not (is_shut q)) "previous transaction requires reconciliation"
    admit_maintenance desk job job.maintenance
    source ← desk.read
    data_ ← apply_all q.pending source.content
    on_base desk data_ job.maintenance
    candidate ← job.transform data_
    job.binding candidate
    ok candidate

  abbrev pub accepted : Desk N → Job N → Job N
  accepted desk job = record job {
    submitted_at = desk.clock;
    status = JobStatus.queued;
    blocked_by = [];
    error = none;
  }

  abbrev pub staged_job : Desk N → Job N → Queue N → Result (Unit {0}) → Result Enqueued × Queue N
  staged_job desk job q (err reason) = (err reason, q)
  staged_job desk job q (ok _) =
      (ok Enqueued.queued, record q { pending = q.pending ++ accepted desk job ∷ [] })

  abbrev pub with_candidate : Desk N → Job N → Queue N → Result String → Result Enqueued × Queue N
  with_candidate desk job q (err reason) = (err reason, q)
  with_candidate desk job q (ok candidate) =
      if desk.dry_run then (ok Enqueued.would, q) else staged_job desk job q (desk.stage candidate)

  -- `enqueue`
  unfoldable pub enqueue : Desk N → Job N → Queue N → Result Enqueued × Queue N
  enqueue desk job q = with_candidate desk job q (candidate_of desk job q)

  abbrev pub entry_of : Queue N → Job N → Tx
  entry_of q job = record {
    config = q.config;
    marker = q.marker;
    completion_marker = q.completion_marker;
    staged = false;
    marker_created = false;
    config_committed = false;
    external_effects_started = false;
    adopted = false;
    popped = false;
    status = job.status;
    blocked_by = job.blocked_by;
    error = job.error;
  }

  abbrev pub world_of : World N → Job N → World N
  world_of w job = record w {
    submitted_at = job.submitted_at;
    maintenance = job.maintenance;
    has_binding = job.has_binding;
    transform = job.transform;
    binding = job.binding;
  }

  abbrev pub waiting : Job N → Tx → Job N
  waiting job t = record job { status = t.status; blocked_by = t.blocked_by; error = t.error }

  abbrev pub finished : Job N → List (Job N) → Tx → Queue N
  finished job jobs t = record {
    config = t.config;
    marker = t.marker;
    completion_marker = t.completion_marker;
    pending = if t.popped then jobs else waiting job t ∷ jobs;
  }

module _ {N : Type 0} ⦃F : Float N⦄ (w : World N) (q : Queue N) where
  abbrev pub run_of : Job N → Tx
  run_of job = process_once (world_of w job) (entry_of q job)

  abbrev pub run_head : (pending : List (Job N)) → Queue N
  run_head [] = q
  run_head (job ∷ jobs) = finished job jobs (run_of job)

  -- `process_once`
  unfoldable pub run_queue : Queue N
  run_queue = run_head q.pending
