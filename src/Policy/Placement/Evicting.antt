-- ===== src/Policy/Placement/Evicting.antt =====
-- llmsvc/policy/placement.py: what the eviction of the chosen set does.
use llm_service_manager.Prelude.{
  ℕ, String, ◌≡◌, refl, sym, subst, not, ◌∙◌, ◌⊎◌, inl, inr, Bool, true, false, none, some, List,
  [], ◌∷◌, ◌++◌, Memᴰ,
}
use llm_service_manager.Prelude.Lists.{All, All-append, All-map, All-of_mem, All-mem}
use llm_service_manager.Prelude.Text.{Dict}
use llm_service_manager.Prelude.Float.{Float}
use llm_service_manager.State.{StateSnapshot, ModelState, Action, is_awake, is_stopped, is_resident}
use llm_service_manager.Policy.Projection.{Projection, fresh, sleep_model}
use llm_service_manager.Policy.Safety.{IsIdle, IsSafe, IsSound}
use llm_service_manager.Policy.Safety.Steps.{IsCandidate}
use llm_service_manager.Policy.Safety.Releases.{
  Refreshed, stop_model-IsSound, sleep_model-IsSound, sleep_model-Refreshed,
}
use llm_service_manager.Prelude.Tests.{if_ind}
use llm_service_manager.Policy.Placement.Evictions.{Eviction}
use llm_service_manager.Policy.Intents.Safety.{fresh-IsSound}
use llm_service_manager.Prelude.Sort.{sorted, All-sorted, sorted-Memᴰ}
use llm_service_manager.Policy.Placement.Cards.{Query}
use llm_service_manager.Policy.Placement.Stops.{stops, evict-stops}
use llm_service_manager.Policy.Placement.Acts.{evict-Acts}
use llm_service_manager.Policy.Placement.Plan.{
  PlacementDecision, place_action, place_evicting, evicted, evict, evict_one, after_sleep,
  stop_running, evict_before,
}

module _ {N : Type 0} ⦃F : Float N⦄ (s : StateSnapshot N) (exclusions : Dict String) where
  abbrev Sound : Projection N → Type 0
  Sound p = IsSound s exclusions false p

  abbrev Victim : ModelState N → Type 0
  Victim m = IsCandidate s exclusions true false m

  stop_running-IsSound :
      (plan : Projection N) (m now : ModelState N)
      → Sound plan
      → Victim m
      → now.name ≡ m.name
      → now.is_default ≡ m.is_default
      → Sound (stop_running plan now)
  stop_running-IsSound plan m now v c named same =
      let (o, there, o_named, o_same) = c.origin in
      if_ind Sound (not (is_stopped now.state))
        (λ _.
          stop_model-IsSound s exclusions false plan now "placement_eviction" v
            (subst (IsIdle s exclusions) (sym named) c.idle)
            (o, there, o_named ∙ sym named, o_same ∙ sym same) (λ _. same ∙ c.spared refl refl))
        (λ _. v)

  after_sleep-IsSound :
      (r : Projection N × Bool) (m : ModelState N)
      → Sound r.0
      → Victim m
      → Refreshed m r
      → Sound (after_sleep r m).0
  after_sleep-IsSound (plan, false) m v c f = v
  after_sleep-IsSound (plan, true) m v c f =
      let (now, found, named, same) = f refl in
      rw found (stop_running-IsSound plan m now v c named same)

  evict_one-IsSound :
      (plan : Projection N) (m : ModelState N) → Sound plan → Victim m → Sound (evict_one plan m).0
  unfolding evict_one
  evict_one-IsSound plan m v c =
      if_ind (λ (r : Projection N × Bool). Sound r.0) (is_awake m.state)
        (λ _.
          after_sleep-IsSound (sleep_model plan m "placement_eviction" false) m
            (sleep_model-IsSound s exclusions false plan m "placement_eviction" false v c.origin) c
            (sleep_model-Refreshed m plan "placement_eviction" false))
        (λ _. stop_running-IsSound plan m m v c refl refl)

  evict-IsSound :
      (ms : List (ModelState N)) (plan : Projection N)
      → Sound plan
      → All Victim ms
      → Sound (evict plan ms).0
  unfolding evict
  evict-IsSound [] plan v c = v
  evict-IsSound (m ∷ ms) plan v c =
      let v' = evict_one-IsSound plan m v c.0 in
      if_ind (λ (r : Projection N × Bool). Sound r.0) (evict_one plan m).1
        (λ _. evict-IsSound ms (evict_one plan m).0 v' c.1) (λ _. v')

module _ {N : Type 0} ⦃F : Float N⦄ (q : Query N) (p : Projection N) (best : Eviction N) where
  abbrev executed : Projection N × Bool
  executed =
      evict (fresh q.snapshot q.settings p.exclusions) (sorted (evict_before p) best.selected)

  evicted-no_gpu :
      (r : Projection N × Bool) → (evicted q best r).gpu ≡ none → (evicted q best r).actions ≡ []
  evicted-no_gpu (plan, false) e = refl
  evicted-no_gpu (plan, true) e = cc

  pub place_evicting-no_gpu :
      (place_evicting q p best).gpu ≡ none → (place_evicting q p best).actions ≡ []
  unfolding place_evicting
  place_evicting-no_gpu = evicted-no_gpu executed

  -- The actions before the place are on the evicted models, and stop each of them.
  pub record Evicts (rest : List Action) : Type 0 where
    pub only :
        All (λ (a : Action). (m : ModelState N) × Memᴰ m best.selected × (m.name ≡ a.model)) rest
    pub each : All (λ (m : ModelState N). stops m.name rest ≡ true) best.selected

  executed-Evicts :
      All (λ (m : ModelState N). is_resident m.state ≡ true) best.selected
      → executed.1 ≡ true
      → Evicts executed.0.actions
  unfolding fresh
  executed-Evicts residents on =
      let order = evict_before p in
      let plan = fresh q.snapshot q.settings p.exclusions in
      let V : String → Type 0 =
        λ name. (m : ModelState N) × Memᴰ m best.selected × (m.name ≡ name) in
      let (_, stopped) = evict-stops (sorted order best.selected) plan (
        All-sorted (λ (m : ModelState N). is_resident m.state ≡ true) order best.selected
          residents) in
      record {
        only = evict-Acts V (sorted order best.selected) plan tt (
            All-sorted (λ (m : ModelState N). V m.name) order best.selected
              (All-of_mem (λ (m : ModelState N). V m.name) best.selected
                (λ m there. (m, there, refl))));
        each =
            All-of_mem (λ (m : ModelState N). stops m.name executed.0.actions ≡ true) best.selected
              (λ m there.
                All-mem (λ (m : ModelState N). stops m.name executed.0.actions ≡ true)
                  (sorted order best.selected) (stopped on) m
                  (sorted-Memᴰ order m best.selected there));
      }

  -- The decision on a card: its number, the budget of the request, and the place as the last action.
  abbrev pub PlacesOn : PlacementDecision N → ℕ → N → Type 0
  PlacesOn d gpu budget =
      (d.gpu ≡ some gpu)
      × (d.budget_gb ≡ some budget)
      × ((rest : List Action) × (d.actions ≡ rest ++ place_action q.request gpu ∷ []) × Evicts rest)

  evicted-PlacesOn :
      (r : Projection N × Bool) (g : ℕ)
      → (r.1 ≡ true → Evicts r.0.actions)
      → (evicted q best r).gpu ≡ some g
      → PlacesOn (evicted q best r) best.gpu best.budget
  evicted-PlacesOn (plan, false) g h e = cc
  evicted-PlacesOn (plan, true) g h e = (refl, refl, (plan.actions, refl, h refl))

  pub place_evicting-PlacesOn :
      (g : ℕ)
      → All (λ (m : ModelState N). is_resident m.state ≡ true) best.selected
      → (place_evicting q p best).gpu ≡ some g
      → PlacesOn (place_evicting q p best) best.gpu best.budget
  unfolding place_evicting
  place_evicting-PlacesOn g residents = evicted-PlacesOn executed g (executed-Evicts residents)

  abbrev pub IsStep : Dict String → Action → Type 0
  IsStep exclusions a = (a ≡ place_action q.request best.gpu) ⊎ IsSafe q.snapshot exclusions false a

  evicted-IsStep :
      (exclusions : Dict String) (r : Projection N × Bool)
      → IsSound q.snapshot exclusions false r.0
      → All (IsStep exclusions) (evicted q best r).actions
  evicted-IsStep exclusions (plan, false) v = tt
  evicted-IsStep exclusions (plan, true) v =
      All-append (IsStep exclusions) plan.actions _
        (All-map _ _ plan.actions (λ a safe. inr safe) v.safe) (inl refl, tt)

  pub place_evicting-IsStep :
      (exclusions : Dict String)
      → IsSound q.snapshot exclusions false p
      → All (IsCandidate q.snapshot exclusions true false) best.selected
      → All (IsStep exclusions) (place_evicting q p best).actions
  unfolding place_evicting
  place_evicting-IsStep exclusions v victims = evicted-IsStep exclusions executed (
      evict-IsSound q.snapshot exclusions _ _
        (subst (λ e. IsSound q.snapshot exclusions false (fresh q.snapshot q.settings e))
          (sym v.same_exclusions) (fresh-IsSound q.snapshot q.settings exclusions false))
        (All-sorted (IsCandidate q.snapshot exclusions true false) (evict_before p) best.selected
          victims))
