-- ===== src/Policy/Placement/Cards.antt =====
-- llmsvc/policy/placement.py: the loop of `_plan_placement` over the cards, which says of each why
-- it is no destination, or how much it has to give.
use llm_service_manager.Prelude.{
  ℕ, String, Bool, false, not, ◌&&◌, ◌||◌, Option, none, some, List, [], ◌∷◌, map,
}
use llm_service_manager.Prelude.Tests.{ltb, is_some, if◌then◌else◌}
use llm_service_manager.Prelude.Lists.{any, select, is_empty}
use llm_service_manager.Prelude.Sort.{sorted}
use llm_service_manager.Prelude.Text.{join, values}
use llm_service_manager.Prelude.Float.{Float, sum, known, amount}
use llm_service_manager.State.{StateSnapshot, GpuState, ModelState, Reserve, Blocker, blocker}
use llm_service_manager.Policy.Settings.{PolicySettings, in_pool, is_gpu}
use llm_service_manager.Policy.Feasibility.{gpu_reason}
use llm_service_manager.Policy.Projection.{sampled, known_number}
use llm_service_manager.Policy.Placement.Accounting.{Accounting, budget_of}

-- The arguments of `_plan_placement` with what it has computed before the loop. `fallback` is
-- `default_fallback`, and `is_default` says whether the model is a default one.
pub record Query (N : Type 0) : Type 0 where
  pub snapshot : StateSnapshot N
  pub request : ModelState N
  pub settings : PolicySettings N
  pub gpu_exclusions : List (ℕ × String)
  pub accounts : Accounting N
  pub is_default : Bool
  pub fallback : Bool

pub record Card (N : Type 0) : Type 0 where
  pub index : ℕ
  pub budget : N
  pub available : N

pub data Verdict (N : Type 0) : Type 0 where
  refuse : Blocker N → Verdict N
  skip : Verdict N
  admit : Card N → Verdict N

module _ {N : Type 0} ⦃F : Float N⦄ where
  abbrev pub needs_exclusive : Query N → ℕ → Bool
  needs_exclusive q index =
      q.is_default
      && not q.fallback
      && is_some q.settings.exclusive_gpu
      && not (is_gpu q.settings.exclusive_gpu index)

  abbrev pub outside_pool : PolicySettings N → ℕ → Bool
  outside_pool settings index = elim settings.placement_gpus [
    | none ↦ false
    | some pool ↦ not (in_pool index pool)
  ]

  abbrev pub no_capacity : GpuState N → Bool
  no_capacity g =
      not (known_number g.total_gb)
      || F.le (amount g.total_gb) (F.of_nat 0)
      || not (known_number g.external_gb)

  -- A reserve whose end is unknown counts as one that has not ended.
  abbrev pub active_reserves : StateSnapshot N → Option ℕ → List (Reserve N)
  active_reserves s gpu =
      select
        (λ (r : Reserve N). is_gpu gpu r.gpu && (not (known r.until) || F.lt (sampled s) r.until))
        s.reserves

  abbrev pub external_pressure : PolicySettings N → GpuState N → Bool
  external_pressure settings g =
      not (is_gpu settings.exclusive_gpu g.index)
      && F.le settings.shared_external_threshold_gb (amount g.external_gb)

  -- The sum of the budgets that are accounted for on a card
  unfoldable pub allocated : Accounting N → ℕ → N
  allocated acc index = sum (
      map (λ (a : ℕ × N). a.1)
        (select (λ (a : ℕ × N). is_gpu (some index) a.0) (values acc.allocations)))

  abbrev pub room : Query N → GpuState N → N
  room q g =
      F.minus (F.minus (amount g.total_gb) (amount g.external_gb)) (allocated q.accounts g.index)

  abbrev by_budget : Query N → GpuState N → Option N → Verdict N
  by_budget q g none =
      refuse (blocker (some q.request.name) "unknown_request_budget" (some g.index))
  by_budget q g (some budget) =
      if F.lt (amount g.total_gb) budget
      then refuse (blocker (some q.request.name) "request_exceeds_gpu_capacity" (some g.index))
      else admit (record { index = g.index; budget = budget; available = room q g })

  -- The tests on capacity, reserves, external use and the budget of the request
  unfoldable pub capacity_verdict : Query N → GpuState N → Verdict N
  capacity_verdict q g =
      let reserves = active_reserves q.snapshot (some g.index) in
      if no_capacity g
      then refuse (blocker none "unknown_gpu_capacity" (some g.index))
      else if not (is_empty reserves)
      then refuse (record (blocker none "reserved" (some g.index)) {
        user = some (join ", " (map (λ (r : Reserve N). r.by) reserves));
      })
      else if external_pressure q.settings g
      then refuse
          (record (blocker none "external_pressure" (some g.index)) { external_gb = g.external_gb })
      else by_budget q g (budget_of q.request.budget_gb q.request.util (amount g.total_gb))

  -- One round of the loop over the cards
  unfoldable pub verdict : Query N → GpuState N → Verdict N
  verdict q g =
      if needs_exclusive q g.index
      then refuse (blocker (some q.request.name) "default_requires_exclusive_gpu" (some g.index))
      else if any (λ (b : Blocker N). is_gpu b.gpu g.index) q.accounts.blockers
      then skip
      else elim (gpu_reason g.index q.gpu_exclusions) [
        | some reason ↦ refuse (blocker none reason (some g.index))
        | none ↦
            if outside_pool q.settings g.index
            then refuse (blocker none "outside_placement_pool" (some g.index))
            else capacity_verdict q g
      ]

  abbrev pub collect :
      Verdict N → List (Blocker N) × List (Card N) → List (Blocker N) × List (Card N)
  collect (refuse b) (blockers, cards) = (b ∷ blockers, cards)
  collect skip found = found
  collect (admit c) (blockers, cards) = (blockers, c ∷ cards)

  unfoldable pub survey_from : Query N → List (GpuState N) → List (Blocker N) × List (Card N)
  survey_from q [] = ([], [])
  survey_from q (g ∷ gs) = collect (verdict q g) (survey_from q gs)

  -- The blockers and the candidate cards, by rising index
  unfoldable pub survey : Query N → List (Blocker N) × List (Card N)
  survey q = survey_from q (sorted (λ (a b : GpuState N). ltb a.index b.index) q.snapshot.gpus)

  -- The cards with room for the request as they are
  abbrev pub free_fits : List (Card N) → List (Card N)
  free_fits cards = select (λ (c : Card N). F.le c.budget c.available) cards
