-- ===== src/Policy/Pressure/Safety.antt =====
-- llmsvc/policy/pressure.py: what the pressure policy puts to sleep or stops is idle, free of pins
-- and exclusions, and no stop takes the default model.
use llm_service_manager.Prelude.{
  String, ◌≡◌, refl, ◌⊎◌, inl, inr, true, false, not, ◌||◌, none, List, [], ◌∷◌,
}
use llm_service_manager.Prelude.Tests.{if_ind, or_default, if◌then◌else◌}
use llm_service_manager.Prelude.Lists.{All, All-map, is_empty}
use llm_service_manager.Prelude.Text.{Dict, insert, lookup}
use llm_service_manager.Prelude.Float.{Float}
use llm_service_manager.State.{StateSnapshot, ModelState, is_awake}
use llm_service_manager.Prelude.Result.{ok, OnOk, OnOk-eq}
use llm_service_manager.Policy.Settings.{PolicySettings}
use llm_service_manager.Policy.Projection.{Projection, Decision, block, sleep_model}
use llm_service_manager.Policy.Safety.{Origin, IsSafe, IsSound}
use llm_service_manager.Policy.Safety.Steps.{block-IsSound, candidates-IsSound}
use llm_service_manager.Policy.Safety.Releases.{sleep_model-IsSound}
use llm_service_manager.Policy.Intents.Safety.{models-Origin, init-OnOk}
use llm_service_manager.Policy.Pressure.{
  Trigger, blocked, triggered, calm, trigger_of, watch, sleep_first, plan_pressure_sleep,
}

pub Trigger-cases :
    (t : Trigger)
    → ((r : String) × (t ≡ blocked r)) ⊎ ((r : String) × (t ≡ triggered r)) ⊎ (t ≡ calm)
Trigger-cases (blocked r) = inl (r, refl)
Trigger-cases (triggered r) = inr (inl (r, refl))
Trigger-cases calm = inr (inr refl)

module _ {N : Type 0} ⦃F : Float N⦄ (s : StateSnapshot N) (exclusions : Dict String) where
  abbrev Quiet : Projection N → Type 0
  Quiet p = IsSound s exclusions false p

  watch-IsSound :
      (ms : List (ModelState N)) (p : Projection N) (reasons : Dict String)
      → Quiet p
      → All (Origin s) ms
      → Quiet (watch p ms reasons).0 × All (Origin s) (watch p ms reasons).1
  unfolding watch
  watch-IsSound [] p reasons v o = (v, tt)
  watch-IsSound (m ∷ ms) p reasons v o =
      elim (Trigger-cases (if is_awake m.state then trigger_of p m else calm)) [
        | inl (r, e) ↦
            rw (e, watch)
              (watch-IsSound ms (block p m r) reasons (block-IsSound s exclusions false p m r v)
                o.1)
        | inr (inl (r, e)) ↦
            let (v', o') = watch-IsSound ms p (insert m.name r reasons) v o.1 in
            rw (e, watch) (v', (o.0, o'))
        | inr (inr e) ↦ rw (e, watch) (watch-IsSound ms p reasons v o.1)
      ]

  sleep_first-IsSound :
      (reasons : Dict String) (ms : List (ModelState N)) (p : Projection N)
      → Quiet p
      → All (Origin s) ms
      → Quiet (sleep_first p reasons ms)
  unfolding sleep_first
  sleep_first-IsSound reasons [] p v o = v
  sleep_first-IsSound reasons (m ∷ ms) p v o =
      let r = sleep_model p m (or_default "" (lookup m.name reasons)) true in
      let v' : Quiet r.0 =
        sleep_model-IsSound s exclusions false p m (or_default "" (lookup m.name reasons)) true v
          o.0 in
      if_ind Quiet (r.1 || not (is_empty r.0.actions)) (λ _. v')
        (λ _. sleep_first-IsSound reasons ms r.0 v' o.1)

module _ {N : Type 0} ⦃F : Float N⦄ (s : StateSnapshot N) (settings : PolicySettings N)
    (exclusions : Dict String) (d : Decision N) where
  abbrev Safe : Decision N → Type 0
  Safe d = All (IsSafe s exclusions false) d.actions

  -- Every action of `plan_pressure_sleep`, the stops that make room for its one sleep included, is a
  -- sleep or a stop of a model of the snapshot that no pin, exclusion or request in flight holds, and
  -- no stop takes a default model.
  pub plan_pressure_sleep-IsSafe :
      plan_pressure_sleep s settings exclusions ≡ ok d → All (IsSafe s exclusions false) d.actions
  unfolding plan_pressure_sleep
  plan_pressure_sleep-IsSafe = OnOk-eq Safe _ d (
      init-OnOk s settings exclusions false _ (λ p v.
        let (v₁, o₁) = watch-IsSound s exclusions s.models p [] v (models-Origin s) in
        let (v₂, c) = candidates-IsSound s exclusions false false none false _ _ v₁ o₁ in
        if_ind (OnOk Safe) (not (is_empty p.blockers)) (λ _. v.safe)
          (λ _.
            (sleep_first-IsSound s exclusions _ _ _ v₂ (All-map _ _ _ (λ m k. k.origin) c)).safe)))
