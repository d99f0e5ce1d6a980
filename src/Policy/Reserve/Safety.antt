-- ===== src/Policy/Reserve/Safety.antt =====
-- llmsvc/policy/intents.py: what `plan_reserve` stops is idle, free of pins and exclusions, and a
-- default model only where it fits on another card.
use llm_service_manager.Prelude.{
  ◌⊎◌, inl, inr, ℕ, String, ◌≡◌, refl, Bool, true, false, not, ◌&&◌, Option, none, some, List, [],
  ◌∷◌,
}
use llm_service_manager.Prelude.Tests.{if_ind, opt_nat_eq}
use llm_service_manager.Prelude.Lists.{All, All-select, is_empty}
use llm_service_manager.Prelude.Text.{Dict}
use llm_service_manager.Prelude.Float.{Float}
use llm_service_manager.State.{StateSnapshot, ModelState, is_asleep}
use llm_service_manager.Prelude.Result.{ok, OnOk, OnOk-eq, OnOk-bind}
use llm_service_manager.Policy.Settings.{PolicySettings}
use llm_service_manager.Policy.Projection.{Projection, Decision, init, stop_model}
use llm_service_manager.Policy.Safety.{Origin, IsSafe, IsSound}
use llm_service_manager.Policy.Safety.Steps.{IsCandidate, candidates-IsSound}
use llm_service_manager.Policy.Safety.Releases.{stop_candidate-IsSound}
use llm_service_manager.Policy.Intents.Safety.{models-Origin, init-IsSound}
use llm_service_manager.Policy.Intents.Release.{block_unknown-IsSound}
use llm_service_manager.Policy.Reserve.{
  stop_each, clear, relocating_of, default_sleeper, relocatable, plan_reserve,
}

module _ {N : Type 0} ⦃F : Float N⦄ (s : StateSnapshot N) (exclusions : Dict String)
    (moving : Bool) where
  stop_each-IsSound :
      (ms : List (ModelState N)) (p : Projection N)
      → IsSound s exclusions moving p
      → All (IsCandidate s exclusions true moving) ms
      → IsSound s exclusions moving (stop_each p ms)
  unfolding stop_each
  stop_each-IsSound [] p v c = v
  stop_each-IsSound (m ∷ ms) p v c =
      stop_each-IsSound ms (stop_model p m "reserve")
        (stop_candidate-IsSound s exclusions moving p m "reserve" moving v (λ e. e) c.0) c.1

  clear-IsSafe :
      (gpu : ℕ) (p : Projection N)
      → IsSound s exclusions moving p
      → All (IsSafe s exclusions moving) (clear s gpu p moving).actions
  unfolding clear
  clear-IsSafe gpu p v =
      let there =
        All-select (Origin s)
          (λ (m : ModelState N). opt_nat_eq m.gpu (some gpu) && is_asleep m.state) s.models
          (models-Origin s) in
      let (v', c) = candidates-IsSound s exclusions moving true none moving p _ v there in
      (block_unknown-IsSound s exclusions moving _ _ (stop_each-IsSound _ _ v' c)).safe

module _ {N : Type 0} ⦃F : Float N⦄ (s : StateSnapshot N) (gpu : ℕ) (settings : PolicySettings N)
    (exclusions : Dict String) (d : Decision N) where
  -- The default model that sleeps on the card fits, stopped, on another card without an eviction.
  abbrev pub MayMove : Type 0
  MayMove =
      (m : ModelState N) × (default_sleeper s gpu ≡ some m)
      × (relocatable s m gpu settings exclusions ≡ ok true)

  abbrev Clears : Decision N → Type 0
  Clears d =
      All (IsSafe s exclusions false) d.actions
      ⊎ (All (IsSafe s exclusions true) d.actions × MayMove)

  movable :
      (o : Option (ModelState N))
      → relocating_of s o gpu settings exclusions ≡ ok true
      → (m : ModelState N) × (o ≡ some m) × (relocatable s m gpu settings exclusions ≡ ok true)
  movable none e = cc
  movable (some m) e = (m, refl, e)

  clear-Clears :
      (p : Projection N) (moving : Bool)
      → init s settings exclusions ≡ ok p
      → relocating_of s (default_sleeper s gpu) gpu settings exclusions ≡ ok moving
      → Clears (clear s gpu p moving)
  clear-Clears p false e f =
      inl (clear-IsSafe s exclusions false gpu p (init-IsSound s settings exclusions false p e))
  clear-Clears p true e f = inr (
    clear-IsSafe s exclusions true gpu p (init-IsSound s settings exclusions true p e),
    movable (default_sleeper s gpu) f,
  )

  -- Every action of `plan_reserve` is a sleep or a stop of a model of the snapshot that no pin,
  -- exclusion or request in flight holds, and no stop takes a default model unless the default model
  -- that sleeps on the card fits, stopped, on another card without an eviction.
  pub plan_reserve-IsSafe :
      plan_reserve s gpu settings exclusions ≡ ok d
      → All (IsSafe s exclusions false) d.actions
        ⊎ (All (IsSafe s exclusions true) d.actions × MayMove)
  unfolding plan_reserve
  plan_reserve-IsSafe = OnOk-eq Clears _ d (
      OnOk-bind Clears (init s settings exclusions) _ (λ p e.
        if_ind (OnOk Clears) (not (is_empty p.blockers))
          (λ _. inl (init-IsSound s settings exclusions false p e).safe)
          (λ _.
            OnOk-bind Clears (relocating_of s (default_sleeper s gpu) gpu settings exclusions) _
              (λ moving f. clear-Clears p moving e f))))
