-- ===== src/Reload/QueueWitnesses.antt =====
-- Two jobs in one queue, over whole numbers.
use llm_service_manager.Prelude.{ℕ, String, ◌≡◌, refl, false, none, some, [], ◌∷◌}
use llm_service_manager.Prelude.Float.{whole}
use llm_service_manager.Prelude.Result.{ok, err}
use llm_service_manager.Reload.World.{Source, World}
use llm_service_manager.Reload.Transaction.{JobStatus, transaction, process_once}
use llm_service_manager.Reload.Installed.{IsInstalled, process_once-IsInstalled}
use llm_service_manager.Reload.Queue.{
  Job, Queue, Desk, Enqueued, apply_all, candidate_of, enqueue, run_queue, entry_of, world_of,
}
use llm_service_manager.Reload.Promise.{Runs, enqueue-outcome}
use llm_service_manager.Reload.Witnesses.{smooth}
use Prim.Native.String

-- A job that writes a line behind the configuration
abbrev adds : (line : String) (submitted_at : ℕ) → Job ℕ
adds line submitted_at = record {
  submitted_at = submitted_at;
  maintenance = none;
  has_binding = false;
  transform = λ config. ok (String.◌++◌ config line);
  binding = λ _. ok tt;
  status = JobStatus.queued;
  blocked_by = [];
  error = none;
}

abbrev holds : (content : String) → Source
holds content = record { content = content; file_id = 1; identity = 1 }

abbrev world : (content : String) → World ℕ
world content = record smooth { read = ok (holds content); reread = ok (holds content) }

abbrev desk : Desk ℕ
desk = record {
  dry_run = false;
  clock = 150;
  descriptor = ok tt;
  adapter_available = false;
  read = ok (holds "old");
  sha256 = λ s. s;
  stage = λ _. ok tt;
}

abbrev one_waits : Queue ℕ
one_waits = record {
  config = "old";
  marker = none;
  completion_marker = none;
  pending = adds "+a" 100 ∷ [];
}

abbrev two_wait : Queue ℕ
two_wait = record one_waits { pending = adds "+a" 100 ∷ adds "+b" 150 ∷ [] }

abbrev b_waits : Queue ℕ
b_waits = record one_waits { config = "old+a"; pending = adds "+b" 150 ∷ [] }

abbrev drained : Queue ℕ
drained = record one_waits { config = "old+a+b"; pending = [] }

accepted_b : enqueue desk (adds "+b" 0) one_waits ≡ (ok Enqueued.queued, two_wait)
unfolding enqueue candidate_of apply_all
accepted_b = refl

-- Behind a marker nothing is queued, and nothing is run.
refused_b :
    (enqueue desk (adds "+b" 0) (record one_waits { marker = some "m" })).0
    ≡ err "previous transaction requires reconciliation"
unfolding enqueue candidate_of apply_all
refused_b = refl

both_applied : Runs ⦃F = whole⦄ two_wait drained
unfolding run_queue process_once transaction
both_applied =
    Runs.run (world "old") two_wait drained (λ s e. cc) refl
      (Runs.run (world "old+a") b_waits drained (λ s e. cc) refl (Runs.done drained))

enqueue-outcome_example :
    (apply_all (adds "+a" 100 ∷ adds "+b" 0 ∷ []) "old" ≡ ok "old+a+b")
    × (desk.stage "old+a+b" ≡ ok tt)
    × ((adds "+b" 0).binding "old+a+b" ≡ ok tt)
unfolding enqueue candidate_of apply_all
enqueue-outcome_example =
    enqueue-outcome ⦃F = whole⦄ desk (adds "+b" 0) one_waits drained (λ s e. cc) refl both_applied
      refl

process_once-IsInstalled_example :
    IsInstalled ⦃F = whole⦄ (world_of (world "old") (adds "+a" 100)) "old" (
      process_once ⦃F = whole⦄
        (world_of (world "old") (adds "+a" 100))
        (entry_of one_waits (adds "+a" 100)))
process_once-IsInstalled_example =
    process_once-IsInstalled ⦃F = whole⦄ (world_of (world "old") (adds "+a" 100))
      (entry_of one_waits (adds "+a" 100)) refl
