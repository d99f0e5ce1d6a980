-- ===== src/Policy/Placement/Safety.antt =====
-- llmsvc/policy/placement.py: the promises of a placement. Without a destination nothing is touched;
-- a destination is one that nothing speaks against; a free fit evicts nobody; an eviction spares the
-- models in use.
use llm_service_manager.Prelude.{
  ℕ, String, ◌≡◌, refl, ap, sym, subst, ◌∙◌, ◌⊎◌, inl, inr, Bool, true, false, none, some, List, [],
  ◌∷◌, ◌++◌, map, Memᴰ,
}
use llm_service_manager.Prelude.Lists.{All, All-map}
use llm_service_manager.Prelude.Text.{Dict}
use llm_service_manager.Prelude.Float.{Float, sum}
use llm_service_manager.State.{StateSnapshot, ModelState, Action, is_resident}
use llm_service_manager.Policy.Projection.{Projection}
use llm_service_manager.Policy.Safety.{IsSafe}
use llm_service_manager.Policy.Safety.Steps.{IsCandidate}
use llm_service_manager.Policy.Placement.Evictions.{Eviction, held}
use llm_service_manager.Prelude.Result.{ok}
use llm_service_manager.Policy.Settings.{PolicySettings}
use llm_service_manager.Policy.Placement.Cards.{Query, Card}
use llm_service_manager.Policy.Placement.Plan.{
  PlacementDecision, query, plan_placement, place_action, place_free, place_evicting,
}
use llm_service_manager.Policy.Placement.Accounting.{accounting}
use llm_service_manager.Policy.Placement.Evicting.{
  place_evicting-no_gpu, place_evicting-PlacesOn, place_evicting-IsStep,
}
use mathlib.Core.Option.{some-injective}
use llm_service_manager.Policy.Placement.Pricing.{IsPriced}
use llm_service_manager.Policy.Placement.Residents.{IsResident}
use llm_service_manager.Policy.Placement.Stops.{stops}
use llm_service_manager.Policy.Placement.Destination.{IsDestination}
use llm_service_manager.Policy.Placement.Outcome.{plan_placement-ind}

module _ {N : Type 0} ⦃F : Float N⦄ (s : StateSnapshot N) (request : ModelState N)
    (settings : PolicySettings N) (exclusions : Dict String)
    (gpu_exclusions : List (ℕ × String)) where
  -- A set of residents of the card that may be stopped, and with whose budgets it has the room. The
  -- actions before the place stop each of them, and act on no other model.
  pub record IsEviction (d : PlacementDecision N) (c : Card N) : Type 0 where
    pub victims : List (ModelState N)
    pub may_stop : All (IsCandidate s exclusions true false) victims
    pub residents : All (IsResident s c.index) victims
    pub enough :
        F.lt (F.plus c.available (sum (map (held (accounting s)) victims))) c.budget ≡ false
    pub rest : List Action
    pub ends : d.actions ≡ rest ++ place_action request c.index ∷ []
    pub only : All (λ (a : Action). (m : ModelState N) × Memᴰ m victims × (m.name ≡ a.model)) rest
    pub each : All (λ (m : ModelState N). stops m.name rest ≡ true) victims

  -- How the chosen card has room: as it is, and then nothing is evicted, or with an eviction.
  abbrev pub MakesRoom : PlacementDecision N → Card N → Type 0
  MakesRoom d c =
      (F.le c.budget c.available ≡ true) × (d.actions ≡ place_action request c.index ∷ [])
      ⊎ IsEviction d c

  -- The model goes to a destination that has the room, and its place is the last action.
  pub record IsPlaced (d : PlacementDecision N) (gpu : ℕ) : Type 0 where
    pub fallback : Bool
    pub card : Card N
    pub target : IsDestination (query s request settings gpu_exclusions fallback) card
    pub same_gpu : card.index ≡ gpu
    pub same_budget : d.budget_gb ≡ some card.budget
    pub makes_room : MakesRoom d card
    pub ends : (rest : List Action) × (d.actions ≡ rest ++ place_action request gpu ∷ [])

  -- The place, or an action that spares the models in use and the default model
  abbrev pub IsGentle : Action → Type 0
  IsGentle a = ((gpu : ℕ) × (a ≡ place_action request gpu)) ⊎ IsSafe s exclusions false a

  free-IsPlaced :
      (fallback : Bool) (c : Card N)
      → IsDestination (query s request settings gpu_exclusions fallback) c
      → F.le c.budget c.available ≡ true
      → (gpu : ℕ) → (place_free (query s request settings gpu_exclusions fallback) c).gpu ≡ some gpu
      → IsPlaced (place_free (query s request settings gpu_exclusions fallback) c) gpu
  unfolding query
  free-IsPlaced fallback c t r gpu e =
      let same = some-injective _ _ e in
      record {
        fallback = fallback;
        card = c;
        target = t;
        same_gpu = same;
        same_budget = refl;
        makes_room = inl (r, refl);
        ends = ([], ap (λ g. place_action request g ∷ []) same);
      }

  evicting-IsPlaced :
      (fallback : Bool) (p : Projection N) (e : Eviction N)
      → IsPriced s exclusions
          (accounting s)
          (λ c. IsDestination (query s request settings gpu_exclusions fallback) c)
          e
      → (gpu : ℕ)
      → (place_evicting (query s request settings gpu_exclusions fallback) p e).gpu ≡ some gpu
      → IsPlaced (place_evicting (query s request settings gpu_exclusions fallback) p e) gpu
  unfolding query
  evicting-IsPlaced fallback p e x gpu h =
      let q : Query N = query s request settings gpu_exclusions fallback in
      let d = place_evicting q p e in
      let (on, budget, (rest, ends, evicts)) =
        place_evicting-PlacesOn q p e gpu
          (All-map (IsResident s x.card.index) (λ (m : ModelState N). is_resident m.state ≡ true)
            e.selected (λ m there. there.resident) x.residents)
          h in
      let same : e.gpu ≡ gpu = some-injective _ _ (sym on ∙ h) in
      record {
        fallback = fallback;
        card = x.card;
        target = x.admitted;
        same_gpu = x.same_gpu ∙ same;
        same_budget = budget ∙ ap some (sym x.same_budget);
        makes_room = inr (record {
          victims = e.selected;
          may_stop = x.victims;
          residents = x.residents;
          enough = rw x.same_budget x.sufficient;
          rest = rest;
          ends = subst (λ g. d.actions ≡ rest ++ place_action request g ∷ []) (sym x.same_gpu) ends;
          only = evicts.only;
          each = evicts.each;
        });
        ends = (rest, subst (λ g. d.actions ≡ rest ++ place_action request g ∷ []) same ends);
      }

module _ {N : Type 0} ⦃F : Float N⦄ (s : StateSnapshot N) (request : ModelState N)
    (settings : PolicySettings N) (exclusions : Dict String) (gpu_exclusions : List (ℕ × String))
    (waiting : Bool) (d : PlacementDecision N)
    (planned : plan_placement s request waiting settings exclusions gpu_exclusions ≡ ok d) where
  -- A decision without a GPU holds no action: nothing is evicted on speculation.
  pub plan_placement-no_gpu : d.gpu ≡ none → d.actions ≡ []
  plan_placement-no_gpu =
      plan_placement-ind s request settings exclusions gpu_exclusions waiting
        {P = λ d. d.gpu ≡ none → d.actions ≡ []}
        (record {
          refused = λ bs e. refl;
          free = λ f c t r e. cc;
          evicting = λ f p e v x. place_evicting-no_gpu _ p e;
          unmarked = λ d b h. h;
        })
        d planned

  -- A decision with a GPU places the model there as its last action. The card is in the snapshot, not
  -- excluded, in the pool, without doubt in its accounting, free of reserves and external pressure, and
  -- has the room for the budget: as it is, and then nothing is evicted, or with what a set of its
  -- residents holds that may be stopped, and then the actions stop each of these and act on no other
  -- model before the place.
  pub plan_placement-IsPlaced :
      (gpu : ℕ) → d.gpu ≡ some gpu → IsPlaced s request settings exclusions gpu_exclusions d gpu
  plan_placement-IsPlaced =
      plan_placement-ind s request settings exclusions gpu_exclusions waiting
        {P = λ d.
          (gpu : ℕ)
          → d.gpu ≡ some gpu
          → IsPlaced s request settings exclusions gpu_exclusions d gpu}
        (record {
          refused = λ bs gpu e. cc;
          free = free-IsPlaced s request settings exclusions gpu_exclusions;
          evicting =
              λ f p e v x. evicting-IsPlaced s request settings exclusions gpu_exclusions f p e x;
          unmarked = λ d b h gpu e.
              let k = h gpu e in
              record {
                fallback = k.fallback;
                card = k.card;
                target = k.target;
                same_gpu = k.same_gpu;
                same_budget = k.same_budget;
                makes_room = elim k.makes_room [
                  | inl free ↦ inl free
                  | inr v ↦ inr (record {
                    victims = v.victims;
                    may_stop = v.may_stop;
                    residents = v.residents;
                    enough = v.enough;
                    rest = v.rest;
                    ends = v.ends;
                    only = v.only;
                    each = v.each;
                  })
                ];
                ends = k.ends;
              };
        })
        d planned

  -- Every action of a placement is the place of the model, or puts to sleep or stops a model of the
  -- snapshot that no pin, exclusion or request in flight holds; no stop takes a default model.
  pub plan_placement-IsGentle :
      All (IsGentle s request settings exclusions gpu_exclusions) d.actions
  unfolding query
  plan_placement-IsGentle =
      plan_placement-ind s request settings exclusions gpu_exclusions waiting
        {P = λ d. All (IsGentle s request settings exclusions gpu_exclusions) d.actions}
        (record {
          refused = λ bs. tt;
          free = λ f c t r. (inl (c.index, refl), tt);
          evicting = λ f p e v x.
              All-map _ _ _ (λ a. elim [ inl same ↦ inl (e.gpu, same) | inr safe ↦ inr safe ])
                (place_evicting-IsStep (query s request settings gpu_exclusions f) p e exclusions v
                  x.victims);
          unmarked = λ d b h. h;
        })
        d planned
