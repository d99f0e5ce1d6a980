-- ===== src/Policy/Intents/Safety.antt =====
-- llmsvc/policy/intents.py: whatever these policies put to sleep or stop is idle, free of pins and
-- exclusions, and no stop takes the default model.
use llm_service_manager.Prelude.{
  String, ◌≡◌, refl, subst, Bool, true, false, not, none, some, List, [], ◌∷◌, Memᴰ,
}
use llm_service_manager.Prelude.Tests.{if_ind}
use llm_service_manager.Prelude.Lists.{All, All-map, All-select, All-of_mem, is_empty}
use llm_service_manager.Prelude.Text.{Dict, by_key-values, by_key-lookup}
use llm_service_manager.Prelude.Float.{Float}
use llm_service_manager.State.{StateSnapshot, ModelState, is_awake, is_asleep}
use llm_service_manager.Prelude.Result.{Result, ok, OnOk, OnOk-bind, OnOk-eq, ◌>>=◌}
use llm_service_manager.Policy.Settings.{PolicySettings}
use llm_service_manager.Policy.Projection.{
  Projection, Decision, init, init-eq, fresh, memory_known, stop_model,
}
use llm_service_manager.Policy.Safety.{Origin, IsSafe, IsSound}
use llm_service_manager.Policy.Safety.Steps.{IsCandidate, candidates-IsSound}
use llm_service_manager.Policy.Safety.Releases.{stop_candidate-IsSound, sleep_model-IsSound}
use llm_service_manager.Policy.Intents.{
  sleep_each, plan_idle_sleep, relieve, report_pressure, under_pressure, plan_memory_pressure,
}

module _ {N : Type 0} ⦃F : Float N⦄ (s : StateSnapshot N) where
  pub models-Origin : All (Origin s) s.models
  models-Origin = All-of_mem (Origin s) s.models (λ m there. (m, there, refl, refl))

module _ {N : Type 0} ⦃F : Float N⦄ (s : StateSnapshot N) (settings : PolicySettings N)
    (exclusions : Dict String) (moving : Bool) where
  abbrev pub Sound : Projection N → Type 0
  Sound p = IsSound s exclusions moving p

  pub fresh-IsSound : Sound (fresh s settings exclusions)
  unfolding fresh
  fresh-IsSound = record {
    same_snapshot = refl;
    same_exclusions = refl;
    rows = λ name row e.
        by_key-lookup (λ r. Memᴰ r s.activity) (λ a. a.model) s.activity name row
          (All-of_mem _ s.activity (λ _ there. there)) e;
    origins = by_key-values (Origin s) (λ m. m.name) s.models (models-Origin s);
    safe = tt;
  }

  pub init-IsSound : (p : Projection N) → init s settings exclusions ≡ ok p → Sound p
  init-IsSound p h = subst Sound (init-eq s settings exclusions p h) fresh-IsSound

  -- A property of the decision, from the projection that the constructor returns.
  pub init-OnOk :
      (f : Projection N → Result (Decision N))
      → ((p : Projection N)
          → Sound p
          → OnOk (λ (d : Decision N). All (IsSafe s exclusions moving) d.actions) (f p))
      → OnOk
          (λ (d : Decision N). All (IsSafe s exclusions moving) d.actions)
          (init s settings exclusions >>= f)
  init-OnOk f h = OnOk-bind _ (init s settings exclusions) f (λ p e. h p (init-IsSound p e))

module _ {N : Type 0} ⦃F : Float N⦄ (s : StateSnapshot N) (exclusions : Dict String) where
  abbrev Quiet : Projection N → Type 0
  Quiet p = IsSound s exclusions false p

  sleep_each-IsSound :
      (reason : String) (ms : List (ModelState N)) (p : Projection N)
      → Quiet p
      → All (Origin s) ms
      → Quiet (sleep_each p reason ms)
  unfolding sleep_each
  sleep_each-IsSound reason [] p v o = v
  sleep_each-IsSound reason (m ∷ ms) p v o =
      sleep_each-IsSound reason ms _ (sleep_model-IsSound s exclusions false p m reason true v o.0)
        o.1

  relieve-IsSound :
      (ms : List (ModelState N)) (p : Projection N)
      → Quiet p
      → All (IsCandidate s exclusions true false) ms
      → Quiet (relieve p ms)
  unfolding relieve
  relieve-IsSound [] p v c = v
  relieve-IsSound (m ∷ ms) p v c =
      let p' = stop_model p m "memory_pressure" in
      let v' : Quiet p' =
        stop_candidate-IsSound s exclusions false p m "memory_pressure" false v (λ _. refl) c.0 in
      if_ind Quiet (not (under_pressure p')) (λ _. v') (λ _. relieve-IsSound ms p' v' c.1)

  report_pressure-IsSafe :
      (p : Projection N) → Quiet p → All (IsSafe s exclusions false) (report_pressure p).actions
  unfolding report_pressure
  report_pressure-IsSafe p v =
      if_ind (λ (q : Projection N). All (IsSafe s exclusions false) q.actions) (under_pressure p)
        (λ _. v.safe) (λ _. v.safe)

module _ {N : Type 0} ⦃F : Float N⦄ (s : StateSnapshot N) (settings : PolicySettings N)
    (exclusions : Dict String) (d : Decision N) where
  abbrev Safe : Decision N → Type 0
  Safe d = All (IsSafe s exclusions false) d.actions

  -- Every action of `plan_idle_sleep` is a sleep or a stop of a model of the snapshot that no pin,
  -- exclusion or request in flight holds, and no stop takes a default model.
  pub plan_idle_sleep-IsSafe :
      plan_idle_sleep s settings exclusions ≡ ok d → All (IsSafe s exclusions false) d.actions
  unfolding plan_idle_sleep
  plan_idle_sleep-IsSafe = OnOk-eq Safe _ d (
      init-OnOk s settings exclusions false _ (λ p v.
        let awake_models =
          All-select (Origin s) (λ (m : ModelState N). is_awake m.state) s.models
            (models-Origin s) in
        let (v', c) =
          candidates-IsSound s exclusions false false (some settings.fixed_ttl_seconds) false p _ v
            awake_models in
        if_ind (OnOk Safe) (not (is_empty p.blockers)) (λ _. v.safe)
          (λ _.
            (sleep_each-IsSound s exclusions "idle_ttl" _ _ v'
              (All-map _ _ _ (λ m k. k.origin) c)).safe)))

  -- Every action of `plan_memory_pressure` is such an action too.
  pub plan_memory_pressure-IsSafe :
      plan_memory_pressure s settings exclusions ≡ ok d → All (IsSafe s exclusions false) d.actions
  unfolding plan_memory_pressure
  plan_memory_pressure-IsSafe = OnOk-eq Safe _ d (
      init-OnOk s settings exclusions false _ (λ p v.
        let sleepers =
          All-select (Origin s) (λ (m : ModelState N). is_asleep m.state) s.models
            (models-Origin s) in
        let (v', c) = candidates-IsSound s exclusions false true none false p _ v sleepers in
        if_ind (OnOk Safe) (not (is_empty p.blockers)) (λ _. v.safe)
          (λ _.
            if_ind (OnOk Safe) (not (memory_known p)) (λ _. tt)
              (λ _.
                if_ind (OnOk Safe) (not (under_pressure p)) (λ _. v.safe)
                  (λ _.
                    report_pressure-IsSafe s exclusions _
                      (relieve-IsSound s exclusions _ _ v' c))))))
