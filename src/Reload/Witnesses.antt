-- ===== src/Reload/Witnesses.antt =====
-- A quiet stream, an observation that admits a reload, and runs of the queue, over whole numbers.
use llm_service_manager.Prelude.{ℕ, ◌≡◌, ◌↔◌, refl, true, false, some, List, [], ◌∷◌, none, ◌⊎◌}
use llm_service_manager.Prelude.Float.{whole}
use llm_service_manager.Reload.Quiet.{
  Event, fresh, observe, beat, within, quiet_blockers, after_events,
}
use llm_service_manager.Reload.Calm.{Calm, quiet_blockers-Calm}
use llm_service_manager.Prelude.Text.{by_key, lookup, insert}
use llm_service_manager.State.{StateSnapshot, ModelStatus}
use llm_service_manager.Reload.Blockers.{
  reload_blockers, models_blockers, model_blockers, add_weights, memory_blockers, IsAdmitted,
}
use llm_service_manager.Reload.Admitted.{reload_blockers-IsAdmitted}
use llm_service_manager.Prelude.Result.{ok}
use llm_service_manager.Reload.World.{Source, World}
use llm_service_manager.Reload.Transaction.{JobStatus, Tx, transaction, process_once}
use llm_service_manager.Reload.Steps.{IsSettled}
use llm_service_manager.Reload.Fenced.{process_once-IsSettled}
use llm_service_manager.Prelude.Result.{err}
use llm_service_manager.Reload.Receipt.{
  Receipt, RecoveryProof, Proof, check_recovery_source, confirm_recovery,
}
use llm_service_manager.Reload.Settle.{
  Answers, Absence, Marker, Fence, no_fence, Settled, settle_checks, absence_checks,
  reconcile_receipt, confirm_retired_receipt,
}
use llm_service_manager.Reload.Lifted.{IsProved, IsLifted, reconcile_receipt-IsLifted}
use llm_service_manager.Reload.Absent.{IsPresent, IsAbsent, confirm_retired_receipt-IsLifted}
use llm_service_manager.Policy.Samples as Host

abbrev stream : List (ℕ × Event)
stream =
    (106, Event.observed (some 0) true)
    ∷ (104, Event.heartbeat)
    ∷ (102, Event.heartbeat)
    ∷ (100, Event.observed (some 0) true)
    ∷ (99, Event.observed (some 1) true)
    ∷ []

quiet_blockers-Calm_example :
    (since : ℕ) × (last : ℕ) × Calm ⦃F = whole⦄ 2 since last stream
    × (within ⦃F = whole⦄ 2 last 107 ≡ true)
    × (whole.lt (whole.minus 107 since) 5 ≡ false)
unfolding quiet_blockers after_events observe beat
quiet_blockers-Calm_example = quiet_blockers-Calm ⦃F = whole⦄ 5 2 stream 107 refl

-- A gap in the stream starts the period again.
restarted :
    quiet_blockers ⦃F = whole⦄
      (after_events ⦃F = whole⦄ (fresh 5 2) ((109, Event.observed (some 0) true) ∷ stream))
      110
    ≡ "quiet_period" ∷ []
unfolding quiet_blockers after_events observe beat
restarted = refl

abbrev observation : StateSnapshot ℕ
observation = Host.host (Host.model "a" ModelStatus.awake (some 0) (some 30) ∷ []) []

admitted : reload_blockers ⦃F = whole⦄ observation 5010 30 ≡ []
unfolding reload_blockers models_blockers model_blockers add_weights memory_blockers by_key lookup
    insert
admitted = refl

reload_blockers-IsAdmitted_example :
    (reload_blockers ⦃F = whole⦄ observation 5010 30 ≡ [])
    ↔ IsAdmitted ⦃F = whole⦄ observation 5010 30
reload_blockers-IsAdmitted_example = reload_blockers-IsAdmitted ⦃F = whole⦄ observation 5010 30

abbrev source : Source
source = record { content = "old"; file_id = 1; identity = 1 }

-- Every call succeeds, and the notification is confirmed in time.
abbrev pub smooth : World ℕ
smooth = record {
  submitted_at = 100;
  timeout = 600;
  budget = 10;
  maintenance = none;
  has_binding = false;
  first_clock = 200;
  first_blockers = ok [];
  read = ok source;
  sha256 = λ s. s;
  transform = λ _. ok "new";
  binding = λ _. ok tt;
  stage = λ _. ok tt;
  second_blockers = ok [];
  second_clock = 201;
  reread = ok source;
  marker_bytes = λ candidate. ok candidate;
  marker_size = λ _. 3;
  marker_opened = ok tt;
  marker_written = ok tt;
  marker_synced = ok tt;
  third_blockers = ok [];
  third_clock = 202;
  marker_withdrawn = ok tt;
  withdrawal_synced = ok tt;
  started = 202;
  adapter_available = false;
  prepare_clock = 202;
  before_replace = ok tt;
  prepared_clock = 202;
  still_bound = true;
  latest = ok source;
  marker_intact = ok tt;
  replaced = ok tt;
  directory_synced = ok tt;
  replaced_clock = 203;
  notified = ok tt;
  adopted_clock = 204;
  after_apply = ok tt;
  applied_clock = 205;
  marker_matches = ok tt;
  marker_removed = ok tt;
  removal_synced = ok tt;
  marker_restored = false;
  cleaned_up = ok tt;
}

abbrev entry : Tx
entry = record {
  config = "old";
  marker = none;
  completion_marker = none;
  staged = false;
  marker_created = false;
  config_committed = false;
  external_effects_started = false;
  adopted = false;
  popped = false;
  status = JobStatus.queued;
  blocked_by = [];
  error = none;
}

applied_job : process_once ⦃F = whole⦄ smooth entry ≡ record entry {
  config = "new";
  config_committed = true;
  adopted = true;
  popped = true;
  status = JobStatus.applied;
}
unfolding process_once transaction
applied_job = refl

-- The notification arrives, but the deadline of ten seconds has passed: the marker stays.
unresolved_job :
    process_once ⦃F = whole⦄ (record smooth { adopted_clock = 212 }) entry ≡ record entry {
      config = "new";
      marker = some "new";
      marker_created = true;
      config_committed = true;
      adopted = true;
      popped = true;
      status = JobStatus.reconciliation_required;
      error = some "configuration operation deadline exceeded";
    }
unfolding process_once transaction
unresolved_job = refl

process_once-IsSettled_example : IsSettled "old" (process_once ⦃F = whole⦄ smooth entry)
process_once-IsSettled_example = process_once-IsSettled ⦃F = whole⦄ smooth entry (refl, refl)

abbrev receipt : Receipt
receipt = record { sha256 = "new"; maintenance = none; witness_binding = none }

abbrev marker : Marker
marker = record { receipt = receipt; raw = "raw"; identity = 7 }

abbrev proved : RecoveryProof
proved = record {
  marker_sha256 = "raw";
  generation_confirmed = true;
  instance_confirmed = true;
  settlement_confirmed = true;
  cleanup_confirmed = true;
  instance_identity = none;
}

abbrev adopted_source : Source
adopted_source = record { content = "new"; file_id = 1; identity = 2 }

abbrev answers : Answers
answers = record {
  sha256 = λ s. s;
  marker = ok marker;
  source = ok adopted_source;
  proof = λ _. ok (Proof.recovery proved);
  marker_again = ok marker;
  source_again = ok adopted_source;
  marker_matches = ok tt;
  marker_removed = ok tt;
  removal_synced = ok tt;
  marker_restored = false;
}

abbrev fence : Fence
fence = record { marker = some "raw"; completion_marker = none }

lifted :
    reconcile_receipt answers false fence
    ≡ record { fence = no_fence; outcome = ok Settled.reconciled }
unfolding reconcile_receipt settle_checks check_recovery_source confirm_recovery
lifted = refl

-- The verifier has not seen the cleanup.
unproved :
    reconcile_receipt
      (record answers {
        proof = λ _. ok (Proof.recovery (record proved { cleanup_confirmed = false }));
      })
      false
      fence
    ≡ record { fence = fence; outcome = err "adoption and cleanup not confirmed" }
unfolding reconcile_receipt settle_checks check_recovery_source confirm_recovery
unproved = refl

reconcile_receipt-IsLifted_example :
    IsLifted (IsProved answers fence) (reconcile_receipt answers false fence)
reconcile_receipt-IsLifted_example = reconcile_receipt-IsLifted answers false fence refl

abbrev absence : Absence
absence = record {
  sha256 = λ s. s;
  parsed = ok receipt;
  present = ok none;
  source = ok adopted_source;
  proof = λ _. ok (Proof.recovery proved);
  source_again = ok adopted_source;
  still_latched = true;
  absent = ok tt;
  directory_synced = ok tt;
  absent_again = ok tt;
  source_at_last = ok adopted_source;
  absent_at_last = ok tt;
}

abbrev latched : Fence
latched = record { marker = none; completion_marker = some "raw" }

retired :
    confirm_retired_receipt answers absence "raw" false latched
    ≡ record { fence = no_fence; outcome = ok Settled.reconciled }
unfolding confirm_retired_receipt absence_checks check_recovery_source confirm_recovery
retired = refl

confirm_retired_receipt-IsLifted_example :
    IsLifted
      (IsPresent answers absence "raw" ⊎ IsAbsent absence "raw")
      (confirm_retired_receipt answers absence "raw" false latched)
confirm_retired_receipt-IsLifted_example =
    confirm_retired_receipt-IsLifted answers absence "raw" false latched refl
