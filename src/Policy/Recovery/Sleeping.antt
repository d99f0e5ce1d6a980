-- ===== src/Policy/Recovery/Sleeping.antt =====
-- llmsvc/policy/recovery.py: `plan_sleeping_recovery` carries out one relocation.
use llm_service_manager.Prelude.{
  String, ◌≡◌, subst, sym, inl, inr, false, not, Option, List, [], ◌∷◌,
}
use llm_service_manager.Prelude.Tests.{Bool-cases, if_ind}
use llm_service_manager.Prelude.Lists.{All, is_empty}
use llm_service_manager.Prelude.Text.{Dict}
use llm_service_manager.Prelude.Float.{Float}
use llm_service_manager.State.{StateSnapshot, ModelState, Blocker}
use llm_service_manager.Prelude.Result.{ok, OnOk, OnOk-eq, OnOk-bind}
use llm_service_manager.Policy.Settings.{PolicySettings}
use llm_service_manager.Policy.Projection.{init}
use llm_service_manager.Policy.Intents.Safety.{init-IsSound}
use llm_service_manager.Policy.Placement.Plan.{PlacementDecision}
use llm_service_manager.Policy.Recovery.{
  reason_for, plan_relocation, recover_first, plan_sleeping_recovery,
}
use llm_service_manager.Policy.Recovery.Safety.{IsGentleHere, plan_relocation-IsGentle}

module _ {N : Type 0} ⦃F : Float N⦄ (s : StateSnapshot N) (settings : PolicySettings N)
    (exclusions : Dict String) (profiles : Option (Dict (ModelState N))) where
  abbrev Gentle : PlacementDecision N → Type 0
  Gentle d = All (IsGentleHere s exclusions) d.actions

  recover_first-OnOk :
      (ms : List (ModelState N)) (blockers : List (Blocker N))
      → OnOk Gentle (recover_first s settings exclusions profiles blockers ms)
  unfolding recover_first
  recover_first-OnOk [] blockers = tt
  recover_first-OnOk (m ∷ ms) blockers =
      OnOk-bind Gentle (plan_relocation s m.name (reason_for s m) settings exclusions profiles) _
        (λ d e. elim (Bool-cases (is_empty d.actions)) [
          | inl empty ↦ rw (empty, recover_first) (recover_first-OnOk ms _)
          | inr some_there ↦
              rw (some_there, recover_first)
                (plan_relocation-IsGentle s m.name (reason_for s m) settings exclusions profiles d
                  e)
        ])

  recover_same :
      (x : Dict String)
      → x ≡ exclusions
      → (blockers : List (Blocker N)) (ms : List (ModelState N))
      → OnOk Gentle (recover_first s settings x profiles blockers ms)
  recover_same x e blockers ms =
      subst (λ x. OnOk Gentle (recover_first s settings x profiles blockers ms)) (sym e)
        (recover_first-OnOk ms blockers)

  -- Every action of the recovery of the sleepers, too, places a model, or puts to sleep or stops a model
  -- of the snapshot that no pin, exclusion or request in flight holds; no stop takes a default model.
  pub plan_sleeping_recovery-IsGentle :
      (d : PlacementDecision N)
      → plan_sleeping_recovery s settings exclusions profiles ≡ ok d
      → All (IsGentleHere s exclusions) d.actions
  unfolding plan_sleeping_recovery
  plan_sleeping_recovery-IsGentle d = OnOk-eq Gentle _ d (
      OnOk-bind Gentle (init s settings exclusions) _ (λ p e.
        if_ind (OnOk Gentle) (not (is_empty p.blockers)) (λ _. tt)
          (λ _.
            recover_same p.exclusions (init-IsSound s settings exclusions false p e).same_exclusions
              _ _)))
