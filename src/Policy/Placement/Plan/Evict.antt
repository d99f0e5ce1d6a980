-- ===== src/Policy/Placement/Plan/Evict.antt =====
-- llmsvc/policy/placement.py: the decisions of a placement, and the eviction that a chosen set of
-- models goes through.
use llm_service_manager.Prelude.{
  ℕ, String, Bool, true, false, not, ◌||◌, Option, none, some, List, [], ◌∷◌, ◌++◌, str_eq,
}
use llm_service_manager.Prelude.Tests.{is_true, or_default, if◌then◌else◌}
use llm_service_manager.Prelude.Lists.{find?}
use llm_service_manager.Prelude.Sort.{sorted}
use llm_service_manager.Prelude.Text.{lookup, str_lt}
use llm_service_manager.Prelude.Float.{Float}
use llm_service_manager.State.{
  StateSnapshot, ModelState, Blocker, Action, Kind, is_awake, is_asleep, is_stopped, action,
}
use llm_service_manager.Policy.Projection.{Projection, Decision, fresh, stop_model, sleep_model}
use llm_service_manager.Policy.Placement.Cards.{Query}
use llm_service_manager.Policy.Placement.Evictions.{Eviction, score_of}

pub record PlacementDecision (N : Type 0) : Type 0 where
  pub decision : Decision N
  pub open decision use *
  pub budget_gb : Option N
  pub eviction_cost : N
  pub unplaceable : Bool

abbrev first_asleep : Bool → Bool → Bool → Bool
first_asleep true false rest = true
first_asleep false true rest = false
first_asleep _ _ rest = rest

module _ {N : Type 0} ⦃F : Float N⦄ where
  -- `PlacementDecision(actions, blocked_by, gpu=gpu, budget_gb=budget, eviction_cost=cost)`
  abbrev pub placement :
      List Action → List (Blocker N) → Option ℕ → Option N → N → PlacementDecision N
  placement actions blocked_by gpu budget cost = record {
    decision = record {
      actions = actions;
      blocked_by = blocked_by;
      estimated_freed_gb = F.of_nat 0;
      gpu = gpu;
    };
    budget_gb = budget;
    eviction_cost = cost;
    unplaceable = false;
  }

  -- `PlacementDecision(blocked_by=blockers)`
  abbrev pub blocked_placement : List (Blocker N) → PlacementDecision N
  blocked_placement blockers = placement [] blockers none none (F.of_nat 0)

  abbrev pub place_action : ModelState N → ℕ → Action
  place_action request gpu = action Kind.place request.name "placement" (some gpu)

  -- `next((m for m in snapshot.models if m.name == name), None)`
  abbrev pub current_model : StateSnapshot N → String → Option (ModelState N)
  current_model s name = find? (λ (m : ModelState N). str_eq m.name name) s.models

  abbrev pub is_default_model : Option (ModelState N) → Bool
  is_default_model none = false
  is_default_model (some m) = m.is_default

  abbrev pub running : Option (ModelState N) → Bool
  running none = false
  running (some m) = not (is_stopped m.state) || is_true m.unit_active

  abbrev pub gpu_of : Option (ModelState N) → Option ℕ
  gpu_of none = none
  gpu_of (some m) = m.gpu

  -- The order of the keys `(m.state != "sleeping", score, name)`
  unfoldable pub evict_before : Projection N → ModelState N → ModelState N → Bool
  evict_before p a b = first_asleep (is_asleep a.state) (is_asleep b.state) (
      if F.eq (score_of p a) (score_of p b)
      then str_lt a.name b.name
      else F.lt (score_of p a) (score_of p b))

  -- The model after a sleep, `plan.models[model.name]`
  abbrev pub refreshed : Projection N → ModelState N → ModelState N
  refreshed plan m = or_default m (lookup m.name plan.models)

  abbrev pub stop_running : Projection N → ModelState N → Projection N
  stop_running plan m =
      if not (is_stopped m.state) then stop_model plan m "placement_eviction" else plan

  abbrev pub after_sleep : Projection N × Bool → ModelState N → Projection N × Bool
  after_sleep (plan, false) m = (plan, false)
  after_sleep (plan, true) m = (stop_running plan (refreshed plan m), true)

  -- One round of the eviction; the Boolean says whether the placement goes on.
  unfoldable pub evict_one : Projection N → ModelState N → Projection N × Bool
  evict_one plan m =
      if is_awake m.state
      then after_sleep (sleep_model plan m "placement_eviction" false) m
      else (stop_running plan m, true)

  unfoldable pub evict : Projection N → List (ModelState N) → Projection N × Bool
  evict plan [] = (plan, true)
  evict plan (m ∷ ms) =
      let (plan', going) = evict_one plan m in
      let rest = evict plan' ms in if going then rest else (plan', false)

  abbrev pub evicted : Query N → Eviction N → Projection N × Bool → PlacementDecision N
  evicted q best (plan, false) = blocked_placement plan.blockers
  evicted q best (plan, true) =
      placement (plan.actions ++ place_action q.request best.gpu ∷ []) [] (some best.gpu)
        (some best.budget) best.cost

  -- The evictions of the cheapest set and the final place
  unfoldable pub place_evicting : Query N → Projection N → Eviction N → PlacementDecision N
  place_evicting q p best =
      evicted q best
        (evict (fresh q.snapshot q.settings p.exclusions) (sorted (evict_before p) best.selected))
