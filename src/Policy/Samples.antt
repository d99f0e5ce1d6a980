-- ===== src/Policy/Samples.antt =====
-- A host with two cards and five models, over whole numbers, on which the policies are run.
use llm_service_manager.Prelude.{ℕ, String, true, false, Option, none, some, List, [], ◌∷◌}
use llm_service_manager.Prelude.Int.{pos}
use llm_service_manager.Prelude.Text.{by_key, insert, is_blank, join, lookup, no_repeats}
use llm_service_manager.Prelude.Float.{sum}
use llm_service_manager.Prelude.Sort.{insert_sorted, sorted}
use llm_service_manager.State.{StateSnapshot, ModelState, ModelStatus, GpuState, Activity, Pin}
use llm_service_manager.Policy.Ranking.{keep_value}
use llm_service_manager.Policy.Settings.{PolicySettings, distinct, post_init}
use llm_service_manager.Policy.Projection.{
  snapshot_blockers, fresh, init, block, block_unknown, protection, score, key_lt, rank, candidates,
  memory_known, fits_sleep, stop_model, make_room, admit, settle, sleep_model, blocker_eq,
}
use llm_service_manager.Policy.Intents.{
  sleep_each, plan_idle_sleep, under_pressure, relieve, report_pressure, plan_memory_pressure,
  block_protected, admit_batch, reload_admission,
}
use llm_service_manager.Policy.Intents.Free.{gain, free_one, free_each, report_free, plan_free}
use llm_service_manager.Policy.Placement.Accounting.{
  accounting, add, add_lease, add_leases, add_model, add_models, budget_of, card_budget, gpu_at,
  merge,
}
use llm_service_manager.Policy.Placement.Cards.{
  allocated, capacity_verdict, survey, survey_from, verdict,
}
use llm_service_manager.Policy.Placement.Evictions.{
  block_each, combinations, eligible, eviction_lt, ineligible, min_by, names_lt, price, price_card,
  price_cards, price_each, price_sizes,
}
use llm_service_manager.Policy.Placement.Plan.{
  choose, early, evict, evict_before, evict_one, fit_lt, place_by_eviction, place_evicting,
  place_on, plan_once, plan_placement, query, second_try,
}
use llm_service_manager.Policy.Feasibility.{card_hopeless, gpu_reason, placement_unplaceable}
use llm_service_manager.Policy.Pressure.{
  has_pressure, plan_pressure_sleep, sleep_first, trigger_of, watch,
}
use llm_service_manager.Policy.Reserve.{clear, plan_reserve, relocatable, stop_each, without_model}
use llm_service_manager.Policy.WakeFailure.{
  advance, guard_reason, judge, plan_wake_failure, reported, wedged,
}
use llm_service_manager.Policy.Recovery.{
  hypothetical, is_replacement, plan_relocation, plan_sleeping_recovery, plan_source, recover_first,
  relocate, replacement, retire_or_move, source_blockers, trigger,
}

-- The definitions that a run of a policy computes
unfoldable pub program : Unit {0}
unfolding by_key insert is_blank join lookup no_repeats sum insert_sorted sorted keep_value distinct
    post_init snapshot_blockers fresh init block block_unknown protection score key_lt rank
    candidates memory_known fits_sleep stop_model make_room admit settle sleep_model blocker_eq
    sleep_each plan_idle_sleep under_pressure relieve report_pressure plan_memory_pressure
    block_protected admit_batch reload_admission gain free_one free_each report_free plan_free
    accounting add add_lease add_leases add_model add_models budget_of card_budget gpu_at merge
    allocated capacity_verdict survey survey_from verdict block_each combinations eligible
    eviction_lt ineligible min_by names_lt price price_card price_cards price_each price_sizes
    choose early evict evict_before evict_one fit_lt place_by_eviction place_evicting place_on
    plan_once plan_placement query second_try card_hopeless gpu_reason placement_unplaceable
    has_pressure plan_pressure_sleep sleep_first trigger_of watch clear plan_reserve relocatable
    stop_each without_model advance guard_reason judge plan_wake_failure reported wedged
    hypothetical is_replacement plan_relocation plan_sleeping_recovery plan_source recover_first
    relocate replacement retire_or_move source_blockers trigger
program = tt

abbrev pub settings : PolicySettings ℕ
settings = record {
  exclusive_gpu = some 1;
  fixed_ttl_seconds = 600;
  exclusive_ttl_seconds = 600;
  shared_ttl_seconds = 600;
  shared_external_threshold_gb = 8;
  shared_free_threshold_gb = 4;
  sleeping_residual_gb = 2;
  placement_gpus = none;
  placement_fit = "best_fit";
  default_cold_start_seconds = 60;
  never_used_idle_seconds = 3600;
  wake_migration_enabled = true;
}

abbrev pub card : ℕ → ℕ → GpuState ℕ
card index free = record {
  index = index;
  uuid = none;
  total_gb = some 80;
  used_gb = none;
  free_gb = some free;
  managed_gb = none;
  external_gb = some 0;
  utilization_percent = none;
  external_processes = [];
}

abbrev pub model : String → ModelStatus → Option ℕ → Option ℕ → ModelState ℕ
model name state gpu resident = record {
  name = name;
  state = state;
  gpu = gpu;
  util = none;
  budget_gb = some 40;
  weights_gb = some 20;
  resident_gb = resident;
  unit = none;
  unit_active = some true;
  health_ok = some true;
  is_sleeping = none;
  swap_state = none;
  port = none;
  is_default = false;
  cold_start_seconds = some 60;
  transition = none;
}

abbrev pub idle : String → ℕ → Activity ℕ
idle name last = record {
  model = name;
  last_request_at = some last;
  requests_last_hour = some (pos 1);
  requests_last_10m = some (pos 0);
  in_flight = some (pos 0);
  by = [];
}

-- `host models pins`: every model was last used at 1000, and it is 5000 now.
abbrev pub host : List (ModelState ℕ) → List (Pin ℕ) → StateSnapshot ℕ
host models pins = record {
  sampled_at = some 5000;
  gpus = card 0 10 ∷ card 1 60 ∷ [];
  models = models;
  activity = idle "a" 1000 ∷ idle "b" 2000 ∷ idle "c" 3000 ∷ idle "d" 1000 ∷ [];
  pins = pins;
  reserves = [];
  leases = [];
  memory = record {
    host_available_gb = some 100;
    sleeping_weights_gb = some 40;
    budget_gb = 60;
    host_min_available_gb = 30;
  };
  blocked_by = [];
  errors = [];
  read_only = false;
  schema_version = 1;
}

abbrev pub default_of : ModelState ℕ → ModelState ℕ
default_of m = record m { is_default = true }
