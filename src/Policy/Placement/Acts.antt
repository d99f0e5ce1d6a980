-- ===== src/Policy/Placement/Acts.antt =====
-- llmsvc/policy/placement.py: the eviction of a set of models acts on these only.
use llm_service_manager.Prelude.{String, refl, sym, subst, not, Bool, true, false, List, [], ◌∷◌}
use llm_service_manager.Prelude.Tests.{if_ind}
use llm_service_manager.Prelude.Lists.{All, All-append, All-select}
use llm_service_manager.Prelude.Float.{Float}
use llm_service_manager.State.{ModelState, Action, is_awake, is_stopped}
use llm_service_manager.Policy.Projection.{
  Projection, fits_sleep, block, stop_model, settle, sleep_model,
}
use llm_service_manager.Policy.Placement.Plan.{evict, evict_one, after_sleep, stop_running}
use llm_service_manager.Policy.Placement.Stops.{Sleeps, settle-Sleeps, sleep_model-ind}

module _ {N : Type 0} ⦃F : Float N⦄ (V : String → Type 0) where
  -- Every action is on a model of the set.
  abbrev Acts : Projection N → Type 0
  Acts p = All (λ (a : Action). V a.model) p.actions

  block-Acts :
      (p : Projection N) (m : ModelState N) (reason : String) → Acts p → Acts (block p m reason)
  unfolding block
  block-Acts p m reason h = h

  stop_model-Acts :
      (p : Projection N) (m : ModelState N) (reason : String)
      → Acts p
      → V m.name
      → Acts (stop_model p m reason)
  unfolding stop_model
  stop_model-Acts p m reason h v =
      All-append (λ (a : Action). V a.model) _ _
        (All-select (λ (a : Action). V a.model) _ p.actions h) (v, tt)

  settle-Acts :
      (p : Projection N) (m : ModelState N) (reason : String)
      → Acts p
      → V m.name
      → Acts (settle p m reason).0
  unfolding settle
  settle-Acts p m reason h v =
      if_ind (λ (r : Projection N × Bool). Acts r.0) (not (fits_sleep p m.weights_gb))
        (λ _.
          if_ind (λ (r : Projection N × Bool). Acts r.0) m.is_default
            (λ _. block-Acts p m "memory_budget" h)
            (λ _. stop_model-Acts p m "sleep_memory_admission" h v))
        (λ _. All-append (λ (a : Action). V a.model) p.actions _ h (v, tt))

  stop_running-Acts :
      (p : Projection N) (m : ModelState N) → Acts p → V m.name → Acts (stop_running p m)
  stop_running-Acts p m h v =
      if_ind Acts (not (is_stopped m.state)) (λ _. stop_model-Acts p m "placement_eviction" h v)
        (λ _. h)

  after_sleep-Acts :
      (r : Projection N × Bool) (m : ModelState N)
      → Acts r.0
      → V m.name
      → Sleeps m r
      → Acts (after_sleep r m).0
  after_sleep-Acts (p, false) m h v sleeps = h
  after_sleep-Acts (p, true) m h v sleeps =
      let (now, found, same, _) = sleeps refl in
      rw found (stop_running-Acts p now h (subst V (sym same) v))

  evict_one-Acts :
      (p : Projection N) (m : ModelState N) → Acts p → V m.name → Acts (evict_one p m).0
  unfolding evict_one
  evict_one-Acts p m h v =
      if_ind (λ (r : Projection N × Bool). Acts r.0) (is_awake m.state)
        (λ _.
          after_sleep-Acts (sleep_model p m "placement_eviction" false) m
            (sleep_model-ind (λ (r : Projection N × Bool). Acts r.0) p m "placement_eviction"
              (λ why. block-Acts p m why h) (settle-Acts p m "placement_eviction" h v))
            v
            (sleep_model-ind (Sleeps m) p m "placement_eviction" (λ why e. cc)
              (settle-Sleeps p m "placement_eviction")))
        (λ _. stop_running-Acts p m h v)

  pub evict-Acts :
      (ms : List (ModelState N)) (p : Projection N)
      → Acts p
      → All (λ (m : ModelState N). V m.name) ms
      → Acts (evict p ms).0
  unfolding evict
  evict-Acts [] p h v = h
  evict-Acts (m ∷ ms) p h v =
      let h' = evict_one-Acts p m h v.0 in
      if_ind (λ (r : Projection N × Bool). Acts r.0) (evict_one p m).1
        (λ _. evict-Acts ms (evict_one p m).0 h' v.1) (λ _. h')
