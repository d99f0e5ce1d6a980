-- ===== src/Policy/Witnesses.antt =====
-- Runs of the policies on the sample hosts, and the theorems applied to them.
use llm_service_manager.Prelude.{ℕ, String, ◌≡◌, refl, ◌⊎◌, true, false, none, some, List, [], ◌∷◌}
use llm_service_manager.Prelude.Int.{pos}
use llm_service_manager.Prelude.Text.{Dict}
use llm_service_manager.Prelude.Lists.{All}
use llm_service_manager.Prelude.Float.{whole}
use llm_service_manager.State.{
  StateSnapshot, ModelState, Action, Kind, action, Blocker, blocker, awake, sleeping, stopped,
}
use llm_service_manager.Policy.Projection.{Decision, fresh, sleep_model}
use llm_service_manager.Policy.Safety.{IsSafe}
use llm_service_manager.Policy.Safety.Budget.{IsSettled, sleep_model-IsSettled}
use llm_service_manager.Policy.Placement.Plan.{PlacementDecision, place_action}
use llm_service_manager.Policy.Placement.Safety.{
  IsPlaced, IsGentle, plan_placement-no_gpu, plan_placement-IsPlaced, plan_placement-IsGentle,
}
use llm_service_manager.Policy.Intents.Release.{plan_free-IsSafe}
use llm_service_manager.Policy.Intents.Reload.{IsAdmissible, reload_admission-IsAdmissible}
use llm_service_manager.Policy.Reserve.Safety.{MayMove, plan_reserve-IsSafe}
use llm_service_manager.Policy.Samples.{program, settings, host, model, default_of, card}

abbrev a_awake : ModelState ℕ
a_awake = model "a" awake (some 0) (some 40)

abbrev b_asleep : ModelState ℕ
b_asleep = model "b" sleeping (some 0) (some 2)

abbrev d_asleep : ModelState ℕ
d_asleep = default_of (model "d" sleeping (some 1) (some 2))

-- One awake model, one sleeper and the default model, asleep on the other card
abbrev busy : StateSnapshot ℕ
busy = host (a_awake ∷ b_asleep ∷ d_asleep ∷ []) []

-- Without the default model, and with less memory for the sleepers
abbrev tight : StateSnapshot ℕ
tight = record (host (a_awake ∷ b_asleep ∷ []) []) {
  memory = record busy.memory { budget_gb = 25 };
}

abbrev decided : List Action → ℕ → Decision ℕ
decided actions freed = record {
  actions = actions;
  blocked_by = [];
  estimated_freed_gb = freed;
  gpu = none;
}

abbrev sleep_a : String → Action
sleep_a reason = action Kind.sleep "a" reason (some 0)

plan_free-IsSafe_example : All (IsSafe ⦃F = whole⦄ busy [] false) (sleep_a "free" ∷ [])
unfolding program
plan_free-IsSafe_example =
    plan_free-IsSafe ⦃F = whole⦄ busy (some 0) false (some 30) settings []
      (decided (sleep_a "free" ∷ []) 38) refl

-- The default model alone, with room on the other card
abbrev roomy : StateSnapshot ℕ
roomy = record (host (d_asleep ∷ []) []) { gpus = card 0 70 ∷ card 1 70 ∷ [] }

plan_reserve-IsSafe_example :
    All (IsSafe ⦃F = whole⦄ roomy [] false) (action Kind.stop "d" "reserve" (some 1) ∷ [])
    ⊎ (All (IsSafe ⦃F = whole⦄ roomy [] true) (action Kind.stop "d" "reserve" (some 1) ∷ [])
        × MayMove ⦃F = whole⦄ roomy 1 settings []
            (decided (action Kind.stop "d" "reserve" (some 1) ∷ []) 0))
unfolding program
plan_reserve-IsSafe_example =
    plan_reserve-IsSafe ⦃F = whole⦄ roomy 1 settings []
      (decided (action Kind.stop "d" "reserve" (some 1) ∷ []) 0) refl

sleep_model-IsSettled_example :
    IsSettled ⦃F = whole⦄ busy a_awake "free"
      (sleep_model ⦃F = whole⦄ (fresh ⦃F = whole⦄ busy settings []) a_awake "free" true).0
unfolding program
sleep_model-IsSettled_example =
    sleep_model-IsSettled ⦃F = whole⦄ (fresh ⦃F = whole⦄ busy settings []) a_awake "free" true refl

reload_admission-IsAdmissible_example :
    (◌≡◌ {A = List Action} [] []) × IsAdmissible ⦃F = whole⦄ busy settings
unfolding program
reload_admission-IsAdmissible_example =
    reload_admission-IsAdmissible ⦃F = whole⦄ busy settings (decided [] 0) refl refl

-- The sleeper has to go for a new model to fit on its card; the other card has no room.
abbrev crowded : StateSnapshot ℕ
crowded = host (a_awake ∷ b_asleep ∷ model "c" awake (some 1) (some 40) ∷ d_asleep ∷ []) []

abbrev e_stopped : ModelState ℕ
e_stopped = model "e" stopped none none

abbrev evicts : List Action
evicts =
    action Kind.stop "a" "placement_eviction" (some 0) ∷ place_action ⦃F = whole⦄ e_stopped 0 ∷ []

abbrev evicted : PlacementDecision ℕ
evicted = record {
  decision = record { actions = evicts; blocked_by = []; estimated_freed_gb = 0; gpu = some 0 };
  budget_gb = some 40;
  eviction_cost = 1;
  unplaceable = false;
}

plan_placement-IsPlaced_example : IsPlaced ⦃F = whole⦄ crowded e_stopped settings [] [] evicted 0
unfolding program
plan_placement-IsPlaced_example =
    plan_placement-IsPlaced ⦃F = whole⦄ crowded e_stopped settings [] [] false evicted refl 0 refl

plan_placement-IsGentle_example : All (IsGentle ⦃F = whole⦄ crowded e_stopped settings [] []) evicts
unfolding program
plan_placement-IsGentle_example =
    plan_placement-IsGentle ⦃F = whole⦄ crowded e_stopped settings [] [] false evicted refl

abbrev kept : Dict String
kept = ("a", "busy") ∷ ("b", "busy") ∷ ("c", "busy") ∷ []

abbrev said : String → String → ℕ → Blocker ℕ
said name reason gpu = record (blocker (some name) reason (some gpu)) { in_flight = some (pos 0) }

abbrev refused : PlacementDecision ℕ
refused = record {
  decision = record {
    actions = [];
    blocked_by =
        said "a" "busy" 0
        ∷ said "b" "busy" 0
        ∷ said "a" "occupied_budget" 0
        ∷ said "b" "occupied_budget" 0
        ∷ said "c" "busy" 1
        ∷ said "d" "default_model" 1
        ∷ said "c" "occupied_budget" 1
        ∷ said "d" "occupied_budget" 1
        ∷ blocker (some "e") "no_feasible_gpu" none
        ∷ [];
    estimated_freed_gb = 0;
    gpu = none;
  };
  budget_gb = none;
  eviction_cost = 0;
  unplaceable = false;
}

plan_placement-no_gpu_example : refused.decision.actions ≡ []
unfolding program
plan_placement-no_gpu_example =
    plan_placement-no_gpu ⦃F = whole⦄ crowded e_stopped settings kept [] false refused refl refl
