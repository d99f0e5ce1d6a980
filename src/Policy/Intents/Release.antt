-- ===== src/Policy/Intents/Release.antt =====
-- llmsvc/policy/intents.py: what `plan_free` puts to sleep or stops is idle, free of pins and
-- exclusions, and no stop takes the default model.
use llm_service_manager.Prelude.{
  ℕ, String, ◌≡◌, ◌≢◌, refl, ◌⊎◌, inl, inr, Bool, true, false, not, ◌&&◌, ◌||◌, Option, some, List,
  [], ◌∷◌,
}
use llm_service_manager.Prelude.Tests.{Bool-cases, if_ind, is_none, opt_nat_eq, if◌then◌else◌}
use llm_service_manager.Prelude.Lists.{All, All-select, is_empty, select, append-nonempty, occupied}
use llm_service_manager.Prelude.Text.{Dict}
use llm_service_manager.Prelude.Float.{Float}
use llm_service_manager.State.{
  StateSnapshot, ModelState, is_awake, is_asleep, is_stopped, is_unknown,
}
use llm_service_manager.Prelude.Result.{ok, OnOk, OnOk-eq, OnOk-bind, guard}
use llm_service_manager.Policy.Settings.{PolicySettings}
use llm_service_manager.Policy.Projection.{
  Projection, Decision, init, block_unknown, known_number, sleep_model,
}
use llm_service_manager.Policy.Safety.{Origin, IsSafe, IsSound}
use llm_service_manager.Policy.Safety.Steps.{IsCandidate, block-IsSound, candidates-IsSound}
use llm_service_manager.Policy.Safety.Releases.{stop_candidate-IsSound, sleep_model-IsSound}
use llm_service_manager.Policy.Intents.Safety.{models-Origin, init-OnOk}
use llm_service_manager.Policy.Intents.Free.{
  after_sleep, free_one, free_each, report_free, enough, lacking, no_need, plan_free,
}

needless :
    {A : Type 0} {xs : List A} (a b : Bool)
    → (a || b) ≡ true
    → (a ≡ true → xs ≢ [])
    → xs ≡ []
    → b ≡ true
needless true b h k e = absurd (k refl e)
needless false b h k e = h

module _ {N : Type 0} ⦃F : Float N⦄ (s : StateSnapshot N) (exclusions : Dict String)
    (moving : Bool) where
  pub block_unknown-IsSound :
      (ms : List (ModelState N)) (p : Projection N)
      → IsSound s exclusions moving p
      → IsSound s exclusions moving (block_unknown p ms)
  unfolding block_unknown
  block_unknown-IsSound [] p v = v
  block_unknown-IsSound (m ∷ ms) p v = block_unknown-IsSound ms _ (
      if_ind (IsSound s exclusions moving) (is_unknown m.state)
        (λ _. block-IsSound s exclusions moving p m "unknown_model_state" v) (λ _. v))

module _ {N : Type 0} ⦃F : Float N⦄ (s : StateSnapshot N) (exclusions : Dict String) where
  abbrev Quiet : Projection N → Type 0
  Quiet p = IsSound s exclusions false p

  abbrev QuietStep : (Projection N × N) × Bool → Type 0
  QuietStep r = Quiet r.0.0

  after_sleep-Quiet :
      (r : Projection N × Bool) (m : ModelState N) (freed : N)
      → Quiet r.0
      → Quiet (after_sleep r m freed).0
  after_sleep-Quiet (p, true) m freed v = v
  after_sleep-Quiet (p, false) m freed v = v

  free_one-Quiet :
      (ram : Bool) (p : Projection N) (freed : N) (m : ModelState N)
      → Quiet p
      → IsCandidate s exclusions ram false m
      → QuietStep (free_one ram p freed m)
  unfolding free_one
  free_one-Quiet true p freed m v c =
      if_ind QuietStep (not (known_number m.weights_gb))
        (λ _. block-IsSound s exclusions false p m "unknown_memory" v)
        (λ _. stop_candidate-IsSound s exclusions false p m "free_ram" false v (λ _. refl) c)
  free_one-Quiet false p freed m v c =
      after_sleep-Quiet (sleep_model p m "free" true) m freed
        (sleep_model-IsSound s exclusions false p m "free" true v c.origin)

  free_each-Quiet :
      (ram : Bool) (need : Option N) (ms : List (ModelState N)) (p : Projection N) (freed : N)
      → Quiet p
      → All (IsCandidate s exclusions ram false) ms
      → Quiet (free_each ram need p freed ms).0
  unfolding free_each
  free_each-Quiet ram need [] p freed v c = v
  free_each-Quiet ram need (m ∷ ms) p freed v c =
      let r = free_one ram p freed m in
      let v' : Quiet r.0.0 = free_one-Quiet ram p freed m v c.0 in
      if_ind (λ (q : Projection N × N). Quiet q.0) (r.1 && enough need r.0.1) (λ _. v')
        (λ _. free_each-Quiet ram need ms r.0.0 r.0.1 v' c.1)

  report_free-IsSafe :
      (gpu : Option ℕ) (need : Option N) (r : Projection N × N)
      → Quiet r.0
      → All (IsSafe s exclusions false) (report_free gpu need r).actions
  unfolding report_free
  report_free-IsSafe gpu need (p, freed) v =
      if_ind (λ (q : Projection N). All (IsSafe s exclusions false) q.actions) (lacking need freed)
        (λ _. v.safe) (λ _. v.safe)

module _ {N : Type 0} ⦃F : Float N⦄ (s : StateSnapshot N) (gpu : Option ℕ) (ram : Bool)
    (need_gb : Option N) (settings : PolicySettings N) (exclusions : Dict String)
    (d : Decision N) where
  abbrev Safe : Decision N → Type 0
  Safe d = All (IsSafe s exclusions false) d.actions

  -- Every action of `plan_free`, for a card, for host memory or for both, is a sleep or a stop of a
  -- model of the snapshot that no pin, exclusion or request in flight holds, and no stop takes a
  -- default model.
  pub plan_free-IsSafe :
      plan_free s gpu ram need_gb settings exclusions ≡ ok d
      → All (IsSafe s exclusions false) d.actions
  unfolding plan_free
  plan_free-IsSafe = OnOk-eq Safe _ d (
      OnOk-bind Safe (guard (is_none need_gb || known_number need_gb) _) _ (λ _ _.
        init-OnOk s settings exclusions false _ (λ p v.
          let on_card : ModelState N → Bool = λ m. is_none gpu || opt_nat_eq m.gpu gpu in
          let wanted : ModelState N → Bool =
            λ m. if ram then is_asleep m.state else is_awake m.state in
          let selected =
            select (λ (m : ModelState N). on_card m && not (is_stopped m.state)) s.models in
          let there =
            All-select (Origin s) (λ m. on_card m && not (is_stopped m.state)) s.models
              (models-Origin s) in
          let (v', c) =
            candidates-IsSound s exclusions false ram (some (F.of_nat 30)) false _ _
              (block_unknown-IsSound s exclusions false selected p v)
              (All-select (Origin s) wanted selected there) in
          if_ind (OnOk Safe) (not (is_empty p.blockers) || no_need need_gb) (λ _. v.safe)
            (λ _.
              report_free-IsSafe s exclusions gpu need_gb _
                (free_each-Quiet s exclusions ram need_gb _ _ (F.of_nat 0) v' c)))))

module _ {N : Type 0} ⦃F : Float N⦄ (s : StateSnapshot N) (gpu : Option ℕ) (ram : Bool)
    (need_gb : Option N) (settings : PolicySettings N) (exclusions : Dict String)
    (d : Decision N) where
  abbrev Enough : Decision N → Type 0
  Enough d =
      d.blocked_by ≡ [] → (no_need need_gb ≡ true) ⊎ (lacking need_gb d.estimated_freed_gb ≡ false)

  report_free-Enough : (r : Projection N × N) → Enough (report_free gpu need_gb r)
  unfolding report_free
  report_free-Enough (p, freed) = elim (Bool-cases (lacking need_gb freed)) [
    | inl e ↦ rw (e, report_free) (λ h. absurd (append-nonempty p.blockers _ h))
    | inr e ↦ λ h. inr e
  ]

  -- A release that reports no blocker is no shortfall: nothing was asked for, or the sum that the
  -- decision estimates is not less than the need.
  pub plan_free-Enough :
      plan_free s gpu ram need_gb settings exclusions ≡ ok d
      → d.blocked_by ≡ []
      → (no_need need_gb ≡ true) ⊎ (lacking need_gb d.estimated_freed_gb ≡ false)
  unfolding plan_free
  plan_free-Enough = OnOk-eq Enough _ d (
      OnOk-bind Enough (guard (is_none need_gb || known_number need_gb) _) _ (λ _ _.
        OnOk-bind Enough (init s settings exclusions) _ (λ p e.
          if_ind (OnOk Enough) (not (is_empty p.blockers) || no_need need_gb)
            (λ b h.
              inl
                (needless (not (is_empty p.blockers)) (no_need need_gb) b (occupied p.blockers) h))
            (λ _. report_free-Enough _))))
