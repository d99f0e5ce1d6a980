-- ===== src/Policy/Reserve.antt =====
-- llmsvc/policy/intents.py: `plan_reserve`, which clears the sleepers from a reserved GPU and lets the
-- default model go only where another card can take it.
pub mod Safety
use llm_service_manager.Prelude.{
  ℕ, String, ◌≡◌, Bool, true, false, not, ◌&&◌, ◌||◌, Option, none, some, List, [], ◌∷◌, map,
  str_eq,
}
use llm_service_manager.Prelude.Tests.{is_some, opt_nat_eq, if◌then◌else◌}
use llm_service_manager.Prelude.Lists.{all, select, find?, is_empty}
use llm_service_manager.Prelude.Text.{Dict}
use llm_service_manager.Prelude.Float.{Float, max_of, amount}
use llm_service_manager.State.{
  StateSnapshot, ModelState, MemoryState, Action, Kind, stopped, is_asleep, is_unknown,
}
use llm_service_manager.Prelude.Result.{Result, ok, ◌>>=◌}
use llm_service_manager.Policy.Settings.{PolicySettings}
use llm_service_manager.Policy.Projection.{
  Projection, Decision, init, block_unknown, known_number, candidates, stop_model, result,
}
use llm_service_manager.Policy.Placement.Plan.{PlacementDecision, plan_placement}

abbrev pub is_place : Kind → Bool
is_place Kind.place = true
is_place _ = false

module _ {N : Type 0} ⦃F : Float N⦄ where
  -- The model as it would be after a stop
  abbrev pub stopped_copy : ModelState N → ModelState N
  stopped_copy m = record m { state = stopped; gpu = none; unit_active = some false }

  abbrev pub replaced : ModelState N → List (ModelState N) → List (ModelState N)
  replaced m models =
      map (λ (item : ModelState N). if str_eq item.name m.name then stopped_copy m else item) models

  abbrev lighter : Option N → Option N → Option N
  lighter total weight =
      if known_number total && known_number weight
      then some (max_of (F.of_nat 0) (F.minus (amount total) (amount weight)))
      else total

  unfoldable pub without_model : StateSnapshot N → ModelState N → StateSnapshot N
  without_model s m = record s {
    models = replaced m s.models;
    memory = record s.memory {
      sleeping_weights_gb = lighter s.memory.sleeping_weights_gb m.weights_gb;
    };
  }

  abbrev pub is_free_fit : PlacementDecision N → Bool
  is_free_fit d = is_some d.gpu && all (λ (a : Action). is_place a.kind) d.actions

  -- `_relocatable`: the model, stopped, would fit on another card with no eviction.
  unfoldable pub relocatable :
      StateSnapshot N → ModelState N → ℕ → PolicySettings N → Dict String → Result Bool
  relocatable s m gpu settings exclusions = do
    d ←
        plan_placement (without_model s m) (stopped_copy m) false settings exclusions
          ((gpu, "reserved") ∷ [])
    ok (is_free_fit d)

  abbrev pub relocating_of :
      StateSnapshot N → Option (ModelState N) → ℕ → PolicySettings N → Dict String → Result Bool
  relocating_of s none gpu settings exclusions = ok false
  relocating_of s (some m) gpu settings exclusions = relocatable s m gpu settings exclusions

  -- `p.stop(model, "reserve")` for each candidate
  unfoldable pub stop_each : Projection N → List (ModelState N) → Projection N
  stop_each p [] = p
  stop_each p (m ∷ ms) = stop_each (stop_model p m "reserve") ms

  abbrev pub sleepers_on : StateSnapshot N → ℕ → List (ModelState N)
  sleepers_on s gpu =
      select (λ (m : ModelState N). opt_nat_eq m.gpu (some gpu) && is_asleep m.state) s.models

  abbrev pub on_card : StateSnapshot N → ℕ → List (ModelState N)
  on_card s gpu = select (λ (m : ModelState N). opt_nat_eq m.gpu (some gpu)) s.models

  -- The stops, once it is known whether the default model may go
  unfoldable pub clear : StateSnapshot N → ℕ → Projection N → Bool → Decision N
  clear s gpu p relocating =
      let (p', ranked) = candidates p (sleepers_on s gpu) true none relocating in
      result (block_unknown (stop_each p' ranked) (on_card s gpu)) (F.of_nat 0) none

  abbrev pub default_sleeper : StateSnapshot N → ℕ → Option (ModelState N)
  default_sleeper s gpu = find? (λ (m : ModelState N). m.is_default) (sleepers_on s gpu)

  unfoldable pub plan_reserve :
      StateSnapshot N → (gpu : ℕ) → PolicySettings N → Dict String → Result (Decision N)
  plan_reserve s gpu settings exclusions = do
    p ← init s settings exclusions
    if not (is_empty p.blockers) then ok (result p (F.of_nat 0) none) else do
      relocating ← relocating_of s (default_sleeper s gpu) gpu settings exclusions
      ok (clear s gpu p relocating)
