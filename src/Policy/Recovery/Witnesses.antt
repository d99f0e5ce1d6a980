-- ===== src/Policy/Recovery/Witnesses.antt =====
-- The relocations of a sleeper whose card is reserved.
use llm_service_manager.Prelude.{ℕ, ◌≡◌, refl, ◌⊎◌, false, none, some, List, [], ◌∷◌}
use llm_service_manager.Prelude.Int.{pos}
use llm_service_manager.Prelude.Lists.{All, select}
use llm_service_manager.Prelude.Float.{whole}
use llm_service_manager.State.{
  StateSnapshot, ModelState, Lease, Action, Kind, Blocker, blocker, action, sleeping, is_resident,
}
use llm_service_manager.Policy.Placement.Accounting.{accounting}
use llm_service_manager.Policy.Placement.Accounted.{
  IsAccounted, is_outstanding, accounting-IsAccounted,
}
use llm_service_manager.Policy.Placement.Plan.{PlacementDecision, place_action}
use llm_service_manager.Policy.Recovery.Moves.{IsRelocated, plan_relocation-IsRelocated}
use llm_service_manager.Policy.Recovery.Safety.{IsGentleHere, plan_relocation-IsGentle}
use llm_service_manager.Policy.Recovery.Sleeping.{plan_sleeping_recovery-IsGentle}
use llm_service_manager.Policy.Samples.{program, settings, host, model, default_of}

abbrev b_asleep : ModelState ℕ
b_asleep = model "b" sleeping (some 0) (some 2)

-- A lease of a model that is about to start
abbrev pending : Lease ℕ
pending = record {
  lease_id = "l";
  model = "n";
  gpu = 1;
  util = 1;
  expires_at = 6000;
  budget_gb = 30;
  status = "pending";
}

abbrev reserved : StateSnapshot ℕ
reserved = record (host (b_asleep ∷ default_of (model "d" sleeping (some 1) (some 2)) ∷ []) []) {
  reserves = record { id = "r"; gpu = 0; size_gb = 10; until = 9000; by = "u" } ∷ [];
}

abbrev moves : List Action
moves = action Kind.stop "b" "reserve" (some 0) ∷ place_action ⦃F = whole⦄ b_asleep 1 ∷ []

abbrev moved : List (Blocker ℕ) → PlacementDecision ℕ
moved blockers = record {
  decision = record {
    actions = moves;
    blocked_by = blockers;
    estimated_freed_gb = 0;
    gpu = some 1;
  };
  budget_gb = some 40;
  eviction_cost = 0;
  unplaceable = false;
}

plan_relocation-IsRelocated_example :
    (moves ≡ []) ⊎ IsRelocated ⦃F = whole⦄ reserved "b" "reserve" settings [] none (moved [])
unfolding program
plan_relocation-IsRelocated_example =
    plan_relocation-IsRelocated ⦃F = whole⦄ reserved "b" "reserve" settings [] none refl (moved [])
      refl

plan_relocation-IsGentle_example : All (IsGentleHere ⦃F = whole⦄ reserved []) moves
unfolding program
plan_relocation-IsGentle_example =
    plan_relocation-IsGentle ⦃F = whole⦄ reserved "b" "reserve" settings [] none (moved []) refl

abbrev default_kept : Blocker ℕ
default_kept = record (blocker (some "d") "default_model" (some 1)) { in_flight = some (pos 0) }

plan_sleeping_recovery-IsGentle_example : All (IsGentleHere ⦃F = whole⦄ reserved []) moves
unfolding program
plan_sleeping_recovery-IsGentle_example =
    plan_sleeping_recovery-IsGentle ⦃F = whole⦄ reserved settings [] none
      (moved (default_kept ∷ [])) refl

-- The same host with an outstanding lease
abbrev leasing : StateSnapshot ℕ
leasing = record reserved { leases = pending ∷ [] }

accounting-IsAccounted_example :
    All
      (λ (m : ModelState ℕ). IsAccounted (accounting ⦃F = whole⦄ leasing) m.name)
      (select (λ (m : ModelState ℕ). is_resident m.state) leasing.models)
    × All
        (λ (l : Lease ℕ). IsAccounted (accounting ⦃F = whole⦄ leasing) l.model)
        (select is_outstanding leasing.leases)
accounting-IsAccounted_example = accounting-IsAccounted ⦃F = whole⦄ leasing
