-- ===== src/Policy/Intents.antt =====
-- llmsvc/policy/intents.py: the policies for a fixed idle time, for memory pressure and for a
-- reload. `Free` holds `plan_free`.
pub mod Free
pub mod Safety
pub mod Release
pub mod Relief
pub mod Reload
use llm_service_manager.Prelude.{
  String, Bool, true, false, not, ◌&&◌, ◌||◌, Option, none, some, List, [], ◌∷◌, ◌++◌, map,
}
use llm_service_manager.Prelude.Tests.{if◌then◌else◌}
use llm_service_manager.Prelude.Lists.{all, any, select, is_empty}
use llm_service_manager.Prelude.Text.{Dict}
use llm_service_manager.Prelude.Float.{Float, sum, amount}
use llm_service_manager.State.{StateSnapshot, ModelState, is_awake, is_asleep, is_unknown, blocker}
use llm_service_manager.Prelude.Result.{Result, ok, ◌>>=◌}
use llm_service_manager.Policy.Settings.{PolicySettings}
use llm_service_manager.Policy.Projection.{
  Projection, Decision, init, block_unknown, known_number, block, protection, candidates,
  memory_known, fits_sleep, stop_model, sleep_model, result,
}

module _ {N : Type 0} ⦃F : Float N⦄ where
  abbrev pub no_release : N
  no_release = F.of_nat 0

  -- One more blocker that names no model.
  abbrev pub refuse : Projection N → String → Projection N
  refuse p reason = record p { blockers = p.blockers ++ blocker none reason none ∷ [] }

  -- `p.sleep(model, reason)` for each candidate
  unfoldable pub sleep_each : Projection N → String → List (ModelState N) → Projection N
  sleep_each p reason [] = p
  sleep_each p reason (m ∷ ms) = sleep_each (sleep_model p m reason true).0 reason ms

  unfoldable pub plan_idle_sleep :
      StateSnapshot N → PolicySettings N → Dict String → Result (Decision N)
  plan_idle_sleep snapshot settings exclusions = do
    p ← init snapshot settings exclusions
    if not (is_empty p.blockers)
        then ok (result p no_release none)
        else (let models = select (λ (m : ModelState N). is_awake m.state) snapshot.models in
            let (p', ranked) = candidates p models false (some settings.fixed_ttl_seconds) false in
            ok (result (sleep_each p' "idle_ttl" ranked) no_release none))

  unfoldable pub under_pressure : Projection N → Bool
  under_pressure p =
      F.lt p.snapshot.memory.budget_gb (amount p.sleeping)
      || F.lt (amount p.available) p.snapshot.memory.host_min_available_gb

  -- The loop of `plan_memory_pressure`, which ends when the pressure is gone.
  unfoldable pub relieve : Projection N → List (ModelState N) → Projection N
  relieve p [] = p
  relieve p (m ∷ ms) =
      let p' = stop_model p m "memory_pressure" in
      let rest = relieve p' ms in if not (under_pressure p') then p' else rest

  -- The last test of `plan_memory_pressure`
  unfoldable pub report_pressure : Projection N → Projection N
  report_pressure p = if under_pressure p then refuse p "memory_budget" else p

  unfoldable pub plan_memory_pressure :
      StateSnapshot N → PolicySettings N → Dict String → Result (Decision N)
  plan_memory_pressure snapshot settings exclusions = do
    p ← init snapshot settings exclusions
    if not (is_empty p.blockers)
        then ok (result p no_release none)
        else if not (memory_known p)
        then ok (record {
          actions = [];
          blocked_by = blocker none "unknown_memory" none ∷ [];
          estimated_freed_gb = no_release;
          gpu = none;
        })
        else if not (under_pressure p)
        then ok (result p no_release none)
        else (let sleepers = select (λ (m : ModelState N). is_asleep m.state) snapshot.models in
            let (p', ranked) = candidates p sleepers true none false in
            ok (result (report_pressure (relieve p' ranked)) no_release none))

  -- A blocker for each protected model
  unfoldable pub block_protected : Projection N → List (ModelState N) → Projection N
  block_protected p [] = p
  block_protected p (m ∷ ms) =
      let p' : Projection N = elim (protection p m false none false) [
        | some reason ↦ block p m reason
        | none ↦ p
      ] in
      block_protected p' ms

  -- The memory tests of `reload_admission` for the whole batch
  unfoldable pub admit_batch : Projection N → List (ModelState N) → Projection N
  admit_batch p models =
      if any (λ (m : ModelState N). not (known_number m.weights_gb)) models || not (memory_known p)
      then refuse p "unknown_memory"
      else if not
          (fits_sleep p (some (sum (map (λ (m : ModelState N). amount m.weights_gb) models))))
      then refuse p "memory_budget"
      else p

  unfoldable pub reload_admission : StateSnapshot N → PolicySettings N → Result (Decision N)
  reload_admission snapshot settings = do
    p ← init snapshot settings []
    if not (is_empty p.blockers)
        then ok (result p no_release none)
        else (let awake_models = select (λ (m : ModelState N). is_awake m.state) snapshot.models in
            let checked = block_protected (block_unknown p snapshot.models) awake_models in
            ok (result (admit_batch checked awake_models) no_release none))
