-- ===== src/Policy/Pressure.antt =====
-- llmsvc/policy/pressure.py: one sleep for a GPU under pressure or past its idle time.
pub mod Safety
pub mod Single
use llm_service_manager.Prelude.{
  ℕ, String, ◌≡◌, subst, Bool, true, false, not, ◌&&◌, ◌||◌, Option, none, some, List, [], ◌∷◌,
}
use llm_service_manager.Prelude.Tests.{Option-cases, or_default, if_ind, if◌then◌else◌}
use llm_service_manager.Prelude.Lists.{All, All-map, select, is_empty}
use llm_service_manager.Prelude.Text.{Dict, lookup, insert}
use llm_service_manager.Prelude.Float.{Float, known, amount}
use llm_service_manager.State.{StateSnapshot, ModelState, GpuState, Activity, GpuProcess, is_awake}
use llm_service_manager.Prelude.Result.{Result, ok, OnOk, OnOk-eq, ◌>>=◌}
use llm_service_manager.Policy.Settings.{PolicySettings, is_gpu}
use llm_service_manager.Policy.Projection.{
  Projection, Decision, sampled, init, known_number, block, candidates, sleep_model, result,
}
use llm_service_manager.Policy.Placement.Accounting.{gpu_at}

-- What the loop over the awake models does with one of them
pub data Trigger : Type 0 where
  blocked triggered : String → Trigger
  calm : Trigger

module _ {N : Type 0} ⦃F : Float N⦄ where
  abbrev gpu_known : GpuState N → Bool
  gpu_known g = known_number g.total_gb && known_number g.free_gb && known_number g.external_gb

  -- A card that llmsvc shares is under pressure from processes, external memory or a lack of room.
  unfoldable pub has_pressure : PolicySettings N → GpuState N → Bool
  has_pressure settings g =
      not (is_gpu settings.exclusive_gpu g.index)
      && (not (is_empty g.external_processes)
          || F.le settings.shared_external_threshold_gb (amount g.external_gb)
          || F.lt (amount g.free_gb) settings.shared_free_threshold_gb)

  abbrev ttl : PolicySettings N → GpuState N → N
  ttl settings g =
      if is_gpu settings.exclusive_gpu g.index
      then settings.exclusive_ttl_seconds
      else settings.shared_ttl_seconds

  abbrev past : N → Option N → Bool
  past now last = known_number last && not (F.lt now (amount last))

  abbrev trigger_on : N → PolicySettings N → GpuState N → Option (Activity N) → Trigger
  trigger_on now settings g none = blocked "unknown_activity"
  trigger_on now settings g (some row) =
      if not (past now row.last_request_at)
      then blocked "unknown_activity"
      else if has_pressure settings g
      then triggered "shared_gpu_pressure"
      else if F.le (ttl settings g) (F.minus now (amount row.last_request_at))
      then triggered "gpu_idle_ttl"
      else calm

  unfoldable pub trigger_of : Projection N → ModelState N → Trigger
  trigger_of p m = elim (gpu_at m.gpu p.snapshot.gpus) [
    | none ↦ blocked "unknown_gpu_pressure"
    | some g ↦
        if not (gpu_known g)
        then blocked "unknown_gpu_pressure"
        else trigger_on (sampled p.snapshot) p.settings g (lookup m.name p.activity)
  ]

  -- The loop over the models: the projection, the triggered ones, and their reasons by name.
  unfoldable pub watch :
      Projection N
      → List (ModelState N)
      → Dict String
      → Projection N × List (ModelState N) × Dict String
  watch p [] reasons = (p, [], reasons)
  watch p (m ∷ ms) reasons = elim (if is_awake m.state then trigger_of p m else calm) [
    | blocked reason ↦ watch (block p m reason) ms reasons
    | calm ↦ watch p ms reasons
    | triggered reason ↦
        let (p', rest, given) = watch p ms (insert m.name reason reasons) in (p', m ∷ rest, given)
  ]

  -- The first sleep that goes through, or leaves an action, ends the loop.
  unfoldable pub sleep_first : Projection N → Dict String → List (ModelState N) → Projection N
  sleep_first p reasons [] = p
  sleep_first p reasons (m ∷ ms) =
      let (p', done) = sleep_model p m (or_default "" (lookup m.name reasons)) true in
      let rest = sleep_first p' reasons ms in if done || not (is_empty p'.actions) then p' else rest

  unfoldable pub plan_pressure_sleep :
      StateSnapshot N → PolicySettings N → Dict String → Result (Decision N)
  plan_pressure_sleep snapshot settings exclusions = do
    p ← init snapshot settings exclusions
    if not (is_empty p.blockers)
        then ok (result p (F.of_nat 0) none)
        else (let (p₁, chosen, reasons) = watch p snapshot.models [] in
            let (p₂, ranked) = candidates p₁ chosen false none false in
            ok (result (sleep_first p₂ reasons ranked) (F.of_nat 0) none))
