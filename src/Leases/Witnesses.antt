-- ===== src/Leases/Witnesses.antt =====
-- Runs of the lease controller over whole numbers, on the host of Policy/Samples.
use llm_service_manager.Prelude.{
  ℕ, String, ◌≡◌, refl, inr, true, false, Option, none, some, List, [], ◌∷◌,
}
use llm_service_manager.Prelude.Tests.{ltb}
use llm_service_manager.Prelude.Int.{pos}
use llm_service_manager.Prelude.Float.{whole}
use llm_service_manager.Prelude.Result.{Result, ok, err}
use llm_service_manager.Prelude.Text.{Dict, lookup, insert}
use llm_service_manager.State.{Blocker, ModelState, ModelStatus}
use llm_service_manager.Policy.Samples as Host
use llm_service_manager.Policy.Placement.Plan.{PlacementDecision}
use llm_service_manager.Store.Samples.{lease, row, store}
use llm_service_manager.Store.Samples as Rows
use llm_service_manager.Leases.Probe.{
  UnitObservation, CommandResult, IsGone, partition, after_prefix, parse_lines, lease_tokens,
  observe_loaded, observe, probe, probe-IsGone,
}
use llm_service_manager.Leases.Observed.{Context, is_fresh, healthy, exited}
use llm_service_manager.Leases.Finish.{
  Operation, disabled, transition, conclude, finish_row, finish, IsWarranted, finish-IsWarranted,
}
use llm_service_manager.Leases.Reconcile.{
  Controller, Turn, rotate, rows_of, follow, status_by, settle, visit, visit_each, reconcile,
}
use llm_service_manager.Leases.Safety.{Follows, reconcile-Follows}
use llm_service_manager.Leases.Admission.{Admission, Verdict, decision}

abbrev words : String → Option (List String)
words text = some (text ∷ [])

abbrev gone_unit : CommandResult
gone_unit = record {
  returncode = pos 0;
  size = 90;
  lines =
      "LoadState=loaded" ∷ "ActiveState=inactive" ∷ "MainPID=0" ∷ "ControlGroup="
      ∷ "Environment=LLMSVC_LEASE_ID=l1" ∷ [];
}

probe-IsGone_example :
    (r : CommandResult) × (values : Dict String) × (true ≡ true)
    × (some gone_unit ≡ some r)
    × (r.returncode ≡ pos 0)
    × (ltb 65536 r.size ≡ false)
    × (parse_lines r.lines [] ≡ some values)
    × IsGone values
unfolding partition after_prefix parse_lines lease_tokens observe_loaded observe probe lookup insert
probe-IsGone_example = probe-IsGone words true (some gone_unit) refl

abbrev pub gone : UnitObservation
gone = record {
  exists = some true;
  exited = true;
  active = false;
  lease_id = "l1";
  invocation_id = "";
  inactive = true;
}

abbrev pub stopped_a : ModelState ℕ
stopped_a = record (Host.model "a" ModelStatus.stopped none none) {
  unit = some "vllm-a.service";
  unit_active = some false;
}

abbrev pub context : List (ModelState ℕ) → Context ℕ
context models = record {
  catalog_reason = none;
  stopping = false;
  read_only = false;
  placement_enabled = true;
  snapshot = Host.host models [];
  clock = 5010;
  max_snapshot_age_seconds = 30;
  units = λ name. some "vllm-a.service";
}

finish-IsWarranted_example :
    IsWarranted ⦃F = whole⦄
      (context (stopped_a ∷ []))
      (store (row "confirmed" ∷ []) [])
      Operation.release
      "l1"
      gone
      (store (row "released" ∷ []) [])
      "released"
unfolding disabled transition conclude finish_row finish is_fresh healthy exited Rows.program
finish-IsWarranted_example =
    finish-IsWarranted ⦃F = whole⦄ (context (stopped_a ∷ [])) (store (row "confirmed" ∷ []) [])
      Operation.release "l1" gone true (store (row "released" ∷ []) []) "released" refl

abbrev controller : String → Controller ℕ
controller status = record {
  store = store (row status ∷ []) [];
  recovered = [];
  cursor = 0;
  alerts = [];
}

abbrev turns : List (Turn ℕ)
turns =
    record {
      context = context (stopped_a ∷ []);
      in_time = true;
      held = false;
      unchanged = true;
      observation = gone;
      still_in_time = true;
      is_current = true;
    }
    ∷ []

abbrev after : Controller ℕ
after = record (controller "released") { cursor = 1 }

reconcile-Follows_example :
    Follows ⦃F = whole⦄ turns
      (rows_of ⦃F = whole⦄ (controller "confirmed"))
      (store (row "confirmed" ∷ []) [])
      (store (row "released" ∷ []) [])
unfolding rotate follow status_by settle visit visit_each reconcile is_fresh healthy exited
    Rows.program
reconcile-Follows_example =
    reconcile-Follows ⦃F = whole⦄ (context (stopped_a ∷ [])) (controller "confirmed") after turns
      refl

abbrev pub admission : Admission ℕ
admission = record {
  context = context (stopped_a ∷ []);
  models = [];
  actions = record {
    enabled = false;
    units = λ name. none;
    fault_pending = λ name. false;
    pending = [];
    free_active = false;
  };
  settings = Host.settings;
  placement_claim = λ claim. inr claim;
  recovery_settings = Host.settings;
}

-- The model has room on a free card.
abbrev admitted : Result (Verdict ℕ)
admitted =
    decision ⦃F = whole⦄ admission (store [] []) (Host.host (stopped_a ∷ []) []) stopped_a false

abbrev nothing : PlacementDecision ℕ
nothing = record {
  decision = record { actions = []; blocked_by = []; estimated_freed_gb = 0; gpu = none };
  budget_gb = none;
  eviction_cost = 0;
  unplaceable = false;
}

abbrev planned : Result (Verdict ℕ) → PlacementDecision ℕ
planned (ok (some d, blockers)) = d
planned _ = nothing

abbrev blockers_of : Result (Verdict ℕ) → List (Blocker ℕ)
blockers_of (ok (d, blockers)) = blockers
blockers_of (err message) = []
