-- ===== src/Policy/Placement/Plan.antt =====
-- llmsvc/policy/placement.py: `_plan_placement` and `plan_placement`. `Evict` holds the eviction.
mod Evict
unfoldable pub use Evict.*
use llm_service_manager.Prelude.{
  ℕ, String, Bool, true, false, not, ◌&&◌, ◌||◌, Option, none, some, List, [], ◌∷◌, ◌++◌, str_eq,
}
use llm_service_manager.Prelude.Tests.{ltb, is_none, is_some, is_true, or_default, if◌then◌else◌}
use llm_service_manager.Prelude.Lists.{any, all, find?, is_empty}
use llm_service_manager.Prelude.Sort.{sorted}
use llm_service_manager.Prelude.Text.{Dict, lookup, contains, is_blank, str_lt}
use llm_service_manager.Prelude.Float.{Float}
use llm_service_manager.State.{
  StateSnapshot, ModelState, Blocker, Action, Kind, is_awake, is_asleep, is_stopped, blocker,
  action,
}
use llm_service_manager.Prelude.Result.{Result, ok, guard, ◌>>=◌, ◌>>◌}
use llm_service_manager.Policy.Settings.{PolicySettings}
use llm_service_manager.Policy.Feasibility.{placement_unplaceable}
use llm_service_manager.Policy.Projection.{
  Projection, Decision, init, fresh, snapshot_blockers, stop_model, sleep_model,
}
use llm_service_manager.Policy.Placement.Accounting.{Accounting, accounting}
use llm_service_manager.Policy.Placement.Cards.{Query, Card, survey, free_fits}
use llm_service_manager.Policy.Placement.Evictions.{
  Eviction, min_by, eviction_lt, score_of, price_cards,
}

abbrev pub reasons_given : List (ℕ × String) → Bool
reasons_given l = all (λ (g : ℕ × String). not (is_blank g.1)) l

module _ {N : Type 0} ⦃F : Float N⦄ where
  -- The cheapest option, or the blockers where there is none
  unfoldable pub place_by_eviction :
      Query N → Projection N → List (Blocker N) → List (Eviction N) → PlacementDecision N
  place_by_eviction q p blockers [] =
      blocked_placement
        (blockers ++ p.blockers ++ blocker (some q.request.name) "no_feasible_gpu" none ∷ [])
  place_by_eviction q p blockers (e ∷ es) = place_evicting q p (min_by eviction_lt e es)

  -- The order of two free fits: by the room that would be left, or by the index
  unfoldable pub fit_lt : PolicySettings N → Card N → Card N → Bool
  fit_lt settings a b =
      let left_a = F.minus a.available a.budget in
      let left_b = F.minus b.available b.budget in
      if str_eq settings.placement_fit "best_fit"
      then (if F.eq left_a left_b then ltb a.index b.index else F.lt left_a left_b)
      else ltb a.index b.index

  abbrev pub place_free : Query N → Card N → PlacementDecision N
  place_free q c =
      placement (place_action q.request c.index ∷ []) [] (some c.index) (some c.budget) (F.of_nat 0)

  -- The choice among the cards: a free fit wins over any eviction.
  unfoldable pub choose :
      Query N
      → Projection N
      → (min_idle : Option N) → (List (Blocker N))
      → (List (Card N))
      → PlacementDecision N
  choose q p min_idle blockers cards = elim (free_fits cards) [
    | c ∷ cs ↦ place_free q (min_by (fit_lt q.settings) c cs)
    | [] ↦
        let (p', options) = price_cards q.accounts min_idle p cards in
        place_by_eviction q p' blockers options
  ]

  -- `_plan_placement` past its early returns
  unfoldable pub place_on : Query N → Projection N → Bool → PlacementDecision N
  place_on q p waiting =
      let (refused, cards) = survey q in
      choose q p (if waiting then some (F.of_nat 30) else none) (q.accounts.blockers ++ refused)
        cards

  -- The early returns for the request and its accounting
  unfoldable pub early : StateSnapshot N → ModelState N → Accounting N → Option (List (Blocker N))
  early s request acc =
      let current = current_model s request.name in
      if not (is_empty (snapshot_blockers s))
      then some (snapshot_blockers s)
      else if str_eq request.name "" || not (is_stopped request.state)
      then some (blocker (some request.name) "request_not_stopped" none ∷ [])
      else if running current
      then some (blocker (some request.name) "model_already_accounted" (gpu_of current) ∷ [])
      else if contains request.name acc.leased
      then some (blocker (some request.name) "outstanding_lease" none ∷ [])
      else if any (λ (b : Blocker N). is_none b.gpu) acc.blockers
      then some acc.blockers
      else none

  unfoldable pub query :
      StateSnapshot N → ModelState N → PolicySettings N → List (ℕ × String) → Bool → Query N
  query s request settings gpu_exclusions fallback = record {
    snapshot = s;
    request = request;
    settings = settings;
    gpu_exclusions = gpu_exclusions;
    accounts = accounting s;
    is_default = request.is_default || is_default_model (current_model s request.name);
    fallback = fallback;
  }

  unfoldable pub plan_once :
      StateSnapshot N
      → ModelState N
      → (waiting : Bool) → PolicySettings N
      → Dict String
      → (gpu_exclusions : List (ℕ × String)) → (default_fallback : Bool)
      → Result (PlacementDecision N)
  plan_once s request waiting settings exclusions gpu_exclusions default_fallback =
      elim (early s request (accounting s)) [
        | some blockers ↦ ok (blocked_placement blockers)
        | none ↦ do
          p ← init s settings exclusions
          guard (reasons_given gpu_exclusions)
              "gpu_exclusions require nonnegative integer IDs and nonempty reasons"
          ok (place_on (query s request settings gpu_exclusions default_fallback) p waiting)
      ]

  abbrev pub with_unplaceable :
      StateSnapshot N
      → PolicySettings N
      → List (ℕ × String)
      → PlacementDecision N
      → PlacementDecision N
  with_unplaceable s settings gpu_exclusions d = record d {
    unplaceable = placement_unplaceable s d.decision settings gpu_exclusions;
  }

  -- The default model found no place on its card.
  abbrev pub may_leave_card :
      StateSnapshot N → ModelState N → PolicySettings N → PlacementDecision N → Bool
  may_leave_card s request settings first =
      is_none first.gpu
      && is_some settings.exclusive_gpu
      && (request.is_default || is_default_model (current_model s request.name))

  -- The first decision stands, unless the default model may leave its card.
  unfoldable pub second_try :
      StateSnapshot N
      → ModelState N
      → PolicySettings N
      → Result (PlacementDecision N)
      → PlacementDecision N
      → Result (PlacementDecision N)
  second_try s request settings again first =
      if may_leave_card s request settings first then again else ok first

  unfoldable pub plan_placement :
      StateSnapshot N
      → ModelState N
      → (waiting : Bool) → PolicySettings N
      → Dict String
      → (gpu_exclusions : List (ℕ × String)) → Result (PlacementDecision N)
  plan_placement s request waiting settings exclusions gpu_exclusions = do
    first ← plan_once s request waiting settings exclusions gpu_exclusions false
    last ←
        second_try s request settings
          (plan_once s request waiting settings exclusions gpu_exclusions true) first
    ok (with_unplaceable s settings gpu_exclusions last)
