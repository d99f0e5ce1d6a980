-- ===== src/Policy/Placement/Outcome.antt =====
-- llmsvc/policy/placement.py: what every decision of `plan_placement` satisfies. A property is proved
-- of the early returns, of a free fit and of an eviction.
use llm_service_manager.Prelude.{
  ℕ, String, ◌≡◌, refl, inl, inr, Bool, true, false, Option, List, [], ◌∷◌,
}
use llm_service_manager.Prelude.Tests.{Option-cases, if_ind}
use llm_service_manager.Prelude.Lists.{All, All-kept}
use llm_service_manager.Prelude.Text.{Dict}
use llm_service_manager.Prelude.Float.{Float}
use llm_service_manager.State.{StateSnapshot, ModelState, Blocker}
use llm_service_manager.Prelude.Result.{Result, ok, guard, OnOk, OnOk-bind, OnOk-eq}
use llm_service_manager.Policy.Settings.{PolicySettings}
use llm_service_manager.Policy.Projection.{Projection, init}
use llm_service_manager.Policy.Placement.Accounting.{accounting}
use llm_service_manager.Policy.Placement.Cards.{Query, Card, free_fits}
use llm_service_manager.Policy.Safety.{IsSound}
use llm_service_manager.Policy.Intents.Safety.{init-IsSound}
use llm_service_manager.Policy.Placement.Destination.{IsDestination, survey-IsDestination}
use llm_service_manager.Policy.Placement.Pricing.{IsPriced, price_cards-IsPriced}
use llm_service_manager.Policy.Placement.Evictions.{Eviction, min_by, eviction_lt}
use llm_service_manager.Policy.Placement.Plan.{
  PlacementDecision, blocked_placement, early, query, choose, reasons_given, place_on, plan_once,
  second_try, with_unplaceable, may_leave_card, plan_placement, place_free, place_evicting,
  place_by_eviction, fit_lt,
}

-- The least item is one of the list.
pub All-min_by :
    {A : Type 0} (P : A → Type 0) (less : A → A → Bool) (best : A) (xs : List A)
    → P best
    → All P xs
    → P (min_by less best xs)
unfolding min_by
All-min_by P less best [] p h = p
All-min_by P less best (x ∷ xs) p h =
    All-min_by P less _ xs (if_ind P (less x best) (λ _. h.0) (λ _. p)) h.1

-- A card with room for its budget
abbrev pub HasRoom : {N : Type 0} ⦃F : Float N⦄ → Card N → Type 0
HasRoom ⦃F⦄ c = F.le c.budget c.available ≡ true

module _ {N : Type 0} ⦃F : Float N⦄ (s : StateSnapshot N) (request : ModelState N)
    (settings : PolicySettings N) (exclusions : Dict String) (gpu_exclusions : List (ℕ × String))
    (waiting : Bool) where
  abbrev pub the_query : Bool → Query N
  the_query fallback = query s request settings gpu_exclusions fallback

  abbrev pub IsTarget : Bool → Card N → Type 0
  IsTarget fallback c = IsDestination (the_query fallback) c

  -- What to show of a property of decisions: it holds of a refusal, of a free fit and of an eviction,
  -- and does not speak of `unplaceable`.
  pub record Rule (P : PlacementDecision N → Type 0) : Type 0 where
    pub refused : (blockers : List (Blocker N)) → P (blocked_placement blockers)
    pub free :
        (fallback : Bool) (c : Card N)
        → IsTarget fallback c
        → HasRoom c
        → P (place_free (the_query fallback) c)
    pub evicting :
        (fallback : Bool) (p : Projection N) (e : Eviction N)
        → IsSound s exclusions false p
        → IsPriced s exclusions (accounting s) (IsTarget fallback) e
        → P (place_evicting (the_query fallback) p e)
    pub unmarked : (d : PlacementDecision N) (b : Bool) → P d → P (record d { unplaceable = b })

  module _ {P : PlacementDecision N → Type 0} (rule : Rule P) where
    open rule use {refused, free, evicting, unmarked}

    by_eviction-ind :
        (fallback : Bool) (p : Projection N) (blockers : List (Blocker N)) (es : List (Eviction N))
        → IsSound s exclusions false p
        → All (IsPriced s exclusions (accounting s) (IsTarget fallback)) es
        → P (place_by_eviction (the_query fallback) p blockers es)
    unfolding place_by_eviction
    by_eviction-ind fallback p blockers [] v h = refused _
    by_eviction-ind fallback p blockers (e ∷ es) v h =
        evicting fallback p _ v (All-min_by _ eviction_lt e es h.0 h.1)

    abbrev Fits : Bool → Card N → Type 0
    Fits fallback c = IsTarget fallback c × HasRoom c

    choose-ind :
        (fallback : Bool) (p : Projection N) (min_idle : Option N) (blockers : List (Blocker N))
        (cards fits : List (Card N))
        → free_fits cards ≡ fits
        → IsSound s exclusions false p
        → All (IsTarget fallback) cards
        → All (Fits fallback) fits
        → P (choose (the_query fallback) p min_idle blockers cards)
    unfolding choose query
    choose-ind fallback p min_idle blockers cards (c ∷ cs) e v t f =
        let (target, has_room) = All-min_by (Fits fallback) (fit_lt settings) c cs f.0 f.1 in
        rw (e, choose) (free fallback _ target has_room)
    choose-ind fallback p min_idle blockers cards [] e v t f =
        let (v', h) =
          price_cards-IsPriced s exclusions (accounting s) (IsTarget fallback) min_idle cards p v
            t in
        rw (e, choose) (by_eviction-ind fallback _ blockers _ v' h)

    place_on-ind :
        (fallback : Bool) (p : Projection N)
        → IsSound s exclusions false p
        → P (place_on (the_query fallback) p waiting)
    unfolding place_on
    place_on-ind fallback p v =
        let targets = survey-IsDestination (the_query fallback) in
        choose-ind fallback p _ _ _ _ refl v targets
          (All-kept (IsTarget fallback) (λ c. F.le c.budget c.available) _ targets)

    plan_once-ind :
        (fallback : Bool)
        → OnOk P (plan_once s request waiting settings exclusions gpu_exclusions fallback)
    unfolding plan_once
    plan_once-ind fallback = elim (Option-cases (early s request (accounting s))) [
      | inr (blockers, e) ↦ rw (e, plan_once) (refused blockers)
      | inl e ↦
          rw (e, plan_once)
            (OnOk-bind P (init s settings exclusions) _ (λ p h.
              OnOk-bind P (guard (reasons_given gpu_exclusions) _) _
                (λ _ _. place_on-ind fallback p (init-IsSound s settings exclusions false p h))))
    ]

    second_try-ind :
        (again : Result (PlacementDecision N)) (first : PlacementDecision N)
        → OnOk P again
        → P first
        → OnOk P (second_try s request settings again first)
    unfolding second_try
    second_try-ind again first h k =
        if_ind (OnOk P) (may_leave_card s request settings first) (λ _. h) (λ _. k)

    -- The rule gives the property for every decision.
    pub plan_placement-ind :
        (d : PlacementDecision N)
        → plan_placement s request waiting settings exclusions gpu_exclusions ≡ ok d
        → P d
    unfolding plan_placement
    plan_placement-ind d = OnOk-eq P _ d (
        OnOk-bind P (plan_once s request waiting settings exclusions gpu_exclusions false) _
          (λ first e.
            OnOk-bind P
              (second_try s request settings
                (plan_once s request waiting settings exclusions gpu_exclusions true) first)
              (λ last. ok (with_unplaceable s settings gpu_exclusions last))
              (λ last f. unmarked last _ (
                OnOk-eq P _ last
                  (second_try-ind _ first (plan_once-ind true)
                    (OnOk-eq P _ first (plan_once-ind false) e))
                  f))))
