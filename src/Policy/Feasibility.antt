-- ===== src/Policy/Feasibility.antt =====
-- llmsvc/policy/feasibility.py: whether every card is blocked by what no placement can remove.
use llm_service_manager.Prelude.{
  ℕ, String, Bool, false, not, ◌&&◌, ◌||◌, Option, none, some, List, [], ◌∷◌, ◌++◌, map, str_eq,
}
use llm_service_manager.Prelude.Tests.{◌==◌, is_some, is_none, if◌then◌else◌}
use llm_service_manager.Prelude.Lists.{any, all, select, is_empty}
use llm_service_manager.Prelude.Text.{contains}
use llm_service_manager.Prelude.Float.{Float}
use llm_service_manager.State.{StateSnapshot, GpuState, Blocker}
use llm_service_manager.Policy.Settings.{PolicySettings, in_pool, is_gpu}
use llm_service_manager.Policy.Projection.{Decision, snapshot_blockers}

abbrev pub hopeless_reasons : List String
hopeless_reasons =
    "external_pressure" ∷ "outside_placement_pool" ∷ "gpu_exclusions"
    ∷ "default_requires_exclusive_gpu" ∷ "unknown_request_budget" ∷ "request_exceeds_gpu_capacity"
    ∷ []

-- `gpu_exclusions.get(index)`
unfoldable pub gpu_reason : ℕ → List (ℕ × String) → Option String
gpu_reason index [] = none
gpu_reason index ((g, reason) ∷ rest) =
    let later = gpu_reason index rest in if g == index then some reason else later

abbrev same_reason : String → Option String → Bool
same_reason reason none = false
same_reason reason (some r) = str_eq reason r

module _ {N : Type 0} ⦃F : Float N⦄ where
  unfoldable pub card_hopeless : List (Blocker N) → List (ℕ × String) → ℕ → Bool
  card_hopeless blockers exclusions index =
      let on_card = select (λ (b : Blocker N). is_gpu b.gpu index) blockers in
      not (is_empty on_card)
      && all
          (λ (b : Blocker N).
            contains b.reason hopeless_reasons
            || same_reason b.reason (gpu_reason index exclusions))
          on_card

  abbrev pub pool_of : StateSnapshot N → PolicySettings N → List ℕ
  pool_of s settings = elim settings.placement_gpus [
    | none ↦ map (λ (g : GpuState N). g.index) s.gpus
    | some pool ↦ pool
  ]

  -- A blocker of no card, other than the summary
  abbrev pub is_global : Blocker N → Bool
  is_global b = is_none b.gpu && not (str_eq b.reason "no_feasible_gpu")

  unfoldable pub placement_unplaceable :
      StateSnapshot N → Decision N → PolicySettings N → List (ℕ × String) → Bool
  placement_unplaceable s decision settings exclusions =
      let observed = map (λ (g : GpuState N). g.index) s.gpus in
      let pool = pool_of s settings in
      let blockers = s.blocked_by ++ decision.blocked_by in
      if not (is_empty decision.actions)
        || is_some decision.gpu
        || not (is_empty (snapshot_blockers s))
      then false
      else if is_empty pool || not (all (λ g. in_pool g observed) pool)
      then false
      else if any is_global blockers
      then false
      else all (card_hopeless blockers exclusions) pool
