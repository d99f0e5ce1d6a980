-- ===== src/Policy/Projection/Memory.antt =====
-- llmsvc/policy/common.py: the memory tests, `stop`, `sleep` and `result`.
use llm_service_manager.Prelude.{
  ℕ, String, Bool, true, false, not, ◌&&◌, ◌||◌, Option, none, some, List, [], ◌∷◌, ◌++◌, str_eq,
}
use llm_service_manager.Prelude.Tests.{if◌then◌else◌}
use llm_service_manager.Prelude.Lists.{all, select}
use llm_service_manager.Prelude.Text.{insert, values}
use llm_service_manager.Prelude.Float.{Float, max_of, amount}
use llm_service_manager.State.{
  ModelState, Action, Kind, stopped, sleeping, is_asleep, is_unknown, action,
}
use llm_service_manager.Policy.Projection.Defs.{Projection, Decision}
use llm_service_manager.Policy.Projection.Checks.{known_number, block, protection}
use llm_service_manager.Policy.Projection.Ranked.{candidates}

abbrev pub is_sleep : Kind → Bool
is_sleep Kind.sleep = true
is_sleep _ = false

-- The sleeps that a later stop of the model makes unnecessary are dropped.
abbrev pub without_sleep : String → List Action → List Action
without_sleep name actions =
    select (λ (a : Action). not (is_sleep a.kind && str_eq a.model name)) actions

module _ {N : Type 0} ⦃F : Float N⦄ where
  unfoldable pub memory_known : Projection N → Bool
  memory_known p =
      known_number p.available
      && known_number p.sleeping
      && known_number (some p.snapshot.memory.budget_gb)
      && known_number (some p.snapshot.memory.host_min_available_gb)
      && all (λ (m : ModelState N). not (is_unknown m.state)) (values p.models)

  unfoldable pub fits_sleep : Projection N → Option N → Bool
  fits_sleep p weight =
      memory_known p
      && known_number weight
      && F.le p.snapshot.memory.host_min_available_gb (F.minus (amount p.available) (amount weight))
      && F.le (F.plus (amount p.sleeping) (amount weight)) p.snapshot.memory.budget_gb

  -- An estimate changed by the model's weights, None where either is not known.
  abbrev released : (N → N → N) → Option N → Option N → Option N
  released change total weight =
      if known_number total && known_number weight
      then some (change (amount total) (amount weight))
      else none

  unfoldable pub stop_model : Projection N → ModelState N → String → Projection N
  stop_model p model reason =
      let asleep = is_asleep model.state in
      record p {
        actions =
            without_sleep model.name p.actions ++ action Kind.stop model.name reason model.gpu ∷ [];
        available = if asleep then released F.plus p.available model.weights_gb else p.available;
        sleeping =
            if asleep
            then released (λ total w. max_of (F.of_nat 0) (F.minus total w)) p.sleeping
                model.weights_gb
            else p.sleeping;
        models = insert model.name (record model { state = stopped }) p.models;
      }

  -- The loop of `sleep` that stops sleepers until the model fits.
  unfoldable pub make_room : Projection N → Option N → List (ModelState N) → Projection N
  make_room p weight [] = p
  make_room p weight (m ∷ ms) =
      let p' = stop_model p m "sleep_memory_admission" in
      let rest = make_room p' weight ms in if fits_sleep p' weight then p' else rest

  -- Stops the sleepers that may be stopped, where the model does not fit and may take their room.
  unfoldable pub admit : Projection N → ModelState N → Bool → Projection N
  admit p model reclaim =
      if not (fits_sleep p model.weights_gb) && reclaim
      then (let sleepers = select (λ (m : ModelState N). is_asleep m.state) (values p.models) in
          let (p', ranked) = candidates p sleepers true none false in
          make_room p' model.weights_gb ranked)
      else p

  -- `sleep` past the admission: the model sleeps if it fits, and is stopped if not.
  unfoldable pub settle : Projection N → ModelState N → String → Projection N × Bool
  settle p model reason =
      if not (fits_sleep p model.weights_gb)
      then (if model.is_default
          then (block p model "memory_budget", false)
          else (stop_model p model "sleep_memory_admission", true))
      else (
        record p {
          actions = p.actions ++ action Kind.sleep model.name reason model.gpu ∷ [];
          sleeping = some (F.plus (amount p.sleeping) (amount model.weights_gb));
          available = some (F.minus (amount p.available) (amount model.weights_gb));
          models =
              insert model.name
                (record model {
                  state = sleeping;
                  resident_gb = some p.settings.sleeping_residual_gb;
                })
                p.models;
        },
        true,
      )

  unfoldable pub sleep_model : Projection N → ModelState N → String → Bool → Projection N × Bool
  sleep_model p model reason reclaim = elim (protection p model false none false) [
    | some protected ↦ (block p model protected, false)
    | none ↦
        if not (memory_known p) || not (known_number model.weights_gb)
        then (block p model "unknown_memory", false)
        else settle (admit p model reclaim) model reason
  ]

  abbrev pub result : Projection N → N → Option ℕ → Decision N
  result p freed gpu = record {
    actions = p.actions;
    blocked_by = p.blockers;
    estimated_freed_gb = freed;
    gpu = gpu;
  }
