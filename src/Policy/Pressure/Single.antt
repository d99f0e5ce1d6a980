-- ===== src/Policy/Pressure/Single.antt =====
-- llmsvc/policy/pressure.py: one decision puts one model to sleep at most.
use llm_service_manager.Prelude.{
  ℕ, suc, ◌+◌, ◌≤◌, String, ◌≡◌, refl, ap, sym, subst, ◌∙◌, inl, inr, Bool, true, false, not, ◌&&◌,
  ◌||◌, Option, none, List, [], ◌∷◌, ◌++◌, arith,
}
use llm_service_manager.Prelude.Tests.{Option-cases, if_ind, or_default, if◌then◌else◌}
use llm_service_manager.Prelude.Lists.{select, is_empty}
use llm_service_manager.Prelude.Text.{Dict, lookup, insert, values}
use llm_service_manager.Prelude.Float.{Float}
use llm_service_manager.Prelude.Result.{ok, Result-cases, OnOk, OnOk-eq, OnOk-bind}
use llm_service_manager.State.{StateSnapshot, ModelState, Action, Kind, action, is_asleep, is_awake}
use llm_service_manager.Policy.Settings.{PolicySettings}
use llm_service_manager.Policy.Projection.{
  Projection, Decision, is_sleep, without_sleep, init, init-eq, fresh, block, protection, score,
  rank, candidates, known_number, memory_known, fits_sleep, stop_model, make_room, admit, settle,
  sleep_model,
}
use llm_service_manager.Policy.Pressure.Safety.{Trigger-cases}
use llm_service_manager.Policy.Pressure.{calm, trigger_of, watch, sleep_first, plan_pressure_sleep}

abbrev pub sleeps : List Action → ℕ
sleeps [] = 0
sleeps (a ∷ xs) = if is_sleep a.kind then suc (sleeps xs) else sleeps xs

sleeps-append : (xs ys : List Action) → sleeps (xs ++ ys) ≡ sleeps xs + sleeps ys
sleeps-append [] ys = omega arith
sleeps-append (a ∷ xs) ys = ground (arith, sleeps-append xs ys)

sleeps-select : (p : Action → Bool) (xs : List Action) → sleeps (select p xs) ≤ sleeps xs
sleeps-select p [] = omega arith
sleeps-select p (a ∷ xs) = ground (arith, sleeps-select p xs)

none_yet : (b : Bool) (xs : List Action) → (b || not (is_empty xs)) ≡ false → xs ≡ []
none_yet true xs h = cc
none_yet false [] h = refl
none_yet false (x ∷ xs) h = cc

module _ {N : Type 0} ⦃F : Float N⦄ where
  abbrev AtMost : ℕ → Projection N → Type 0
  AtMost n p = sleeps p.actions ≤ n

  stop_model-AtMost :
      (n : ℕ) (p : Projection N) (m : ModelState N) (reason : String)
      → AtMost n p
      → AtMost n (stop_model p m reason)
  unfolding stop_model
  stop_model-AtMost n p m reason h =
      let rest = without_sleep m.name p.actions in
      omega (
        arith,
        h,
        sleeps-append rest (action Kind.stop m.name reason m.gpu ∷ []),
        sleeps-select _ p.actions,
      )

  make_room-AtMost :
      (n : ℕ) (weight : Option N) (ms : List (ModelState N)) (p : Projection N)
      → AtMost n p
      → AtMost n (make_room p weight ms)
  unfolding make_room
  make_room-AtMost n weight [] p h = h
  make_room-AtMost n weight (m ∷ ms) p h =
      let p' = stop_model p m "sleep_memory_admission" in
      let h' = stop_model-AtMost n p m "sleep_memory_admission" h in
      if_ind (AtMost n) (fits_sleep p' weight) (λ _. h') (λ _. make_room-AtMost n weight ms p' h')

  block-actions :
      (p : Projection N) (m : ModelState N) (reason : String)
      → (block p m reason).actions ≡ p.actions
  unfolding block
  block-actions p m reason = refl

  rank-actions :
      (ms : List (ModelState N)) (p : Projection N) (stop : Bool) (min_idle : Option N)
      (relocating : Bool)
      → (rank p ms stop min_idle relocating).0.actions ≡ p.actions
  unfolding rank
  rank-actions [] p stop min_idle relocating = refl
  rank-actions (m ∷ ms) p stop min_idle relocating =
      elim (Option-cases (protection p m stop min_idle relocating)) [
        | inr (reason, e) ↦
            rw (e, rank)
              (rank-actions ms (block p m reason) stop min_idle relocating
                ∙ block-actions p m reason)
        | inl e ↦ elim (Result-cases (score p m)) [
          | inl (value, f) ↦ rw (e, rank, f) (rank-actions ms p stop min_idle relocating)
          | inr (reason, f) ↦
              rw (e, rank, f)
                (rank-actions ms (block p m reason) stop min_idle relocating
                  ∙ block-actions p m reason)
        ]
      ]

  candidates-actions :
      (ms : List (ModelState N)) (p : Projection N) (stop : Bool) (min_idle : Option N)
      (relocating : Bool)
      → (candidates p ms stop min_idle relocating).0.actions ≡ p.actions
  unfolding candidates
  candidates-actions ms p stop min_idle relocating = rank-actions ms p stop min_idle relocating

  admit-AtMost :
      (n : ℕ) (p : Projection N) (m : ModelState N) (reclaim : Bool)
      → AtMost n p
      → AtMost n (admit p m reclaim)
  unfolding admit
  admit-AtMost n p m reclaim h =
      let sleepers = select (λ (m : ModelState N). is_asleep m.state) (values p.models) in
      if_ind (AtMost n) (not (fits_sleep p m.weights_gb) && reclaim)
        (λ _.
          make_room-AtMost n m.weights_gb _ _
            (subst (λ l. sleeps l ≤ n) (sym (candidates-actions sleepers p true none false)) h))
        (λ _. h)

  abbrev StepAtMost : ℕ → Projection N × Bool → Type 0
  StepAtMost n r = AtMost n r.0

  settle-AtMost :
      (n : ℕ) (p : Projection N) (m : ModelState N) (reason : String)
      → AtMost n p
      → StepAtMost (suc n) (settle p m reason)
  unfolding settle
  settle-AtMost n p m reason h =
      if_ind (StepAtMost (suc n)) (not (fits_sleep p m.weights_gb))
        (λ _.
          if_ind (StepAtMost (suc n)) m.is_default
            (λ _.
              subst (λ l. sleeps l ≤ suc n) (sym (block-actions p m "memory_budget"))
                (omega (arith, h)))
            (λ _. stop_model-AtMost (suc n) p m "sleep_memory_admission" (omega (arith, h))))
        (λ _.
          omega (arith, h, sleeps-append p.actions (action Kind.sleep m.name reason m.gpu ∷ [])))

  sleep_model-AtMost :
      (n : ℕ) (p : Projection N) (m : ModelState N) (reason : String) (reclaim : Bool)
      → AtMost n p
      → StepAtMost (suc n) (sleep_model p m reason reclaim)
  unfolding sleep_model
  sleep_model-AtMost n p m reason reclaim h =
      elim (Option-cases (protection p m false none false)) [
        | inr (protected, e) ↦
            rw (e, sleep_model)
              (subst (λ l. sleeps l ≤ suc n) (sym (block-actions p m protected)) (omega (arith, h)))
        | inl e ↦
            rw (e, sleep_model)
              (if_ind (StepAtMost (suc n)) (not (memory_known p) || not (known_number m.weights_gb))
                (λ _.
                  subst (λ l. sleeps l ≤ suc n) (sym (block-actions p m "unknown_memory"))
                    (omega (arith, h)))
                (λ _. settle-AtMost n (admit p m reclaim) m reason (admit-AtMost n p m reclaim h)))
      ]

  sleep_first-AtMost :
      (reasons : Dict String) (ms : List (ModelState N)) (p : Projection N)
      → p.actions ≡ []
      → AtMost 1 (sleep_first p reasons ms)
  unfolding sleep_first
  sleep_first-AtMost reasons [] p h = subst (λ l. sleeps l ≤ 1) (sym h) (omega arith)
  sleep_first-AtMost reasons (m ∷ ms) p h =
      let r = sleep_model p m (or_default "" (lookup m.name reasons)) true in
      if_ind (AtMost 1) (r.1 || not (is_empty r.0.actions))
        (λ _.
          sleep_model-AtMost 0 p m (or_default "" (lookup m.name reasons)) true
            (subst (λ l. sleeps l ≤ 0) (sym h) (omega arith)))
        (λ e. sleep_first-AtMost reasons ms r.0 (none_yet r.1 r.0.actions e))

  watch-actions :
      (ms : List (ModelState N)) (p : Projection N) (reasons : Dict String)
      → (watch p ms reasons).0.actions ≡ p.actions
  unfolding watch
  watch-actions [] p reasons = refl
  watch-actions (m ∷ ms) p reasons =
      elim (Trigger-cases (if is_awake m.state then trigger_of p m else calm)) [
        | inl (r, e) ↦ rw (e, watch) (watch-actions ms (block p m r) reasons ∙ block-actions p m r)
        | inr (inl (r, e)) ↦ rw (e, watch) (watch-actions ms p (insert m.name r reasons))
        | inr (inr e) ↦ rw (e, watch) (watch-actions ms p reasons)
      ]

  abbrev OneSleep : Decision N → Type 0
  OneSleep d = sleeps d.actions ≤ 1

  fresh-actions :
      (s : StateSnapshot N) (settings : PolicySettings N) (exclusions : Dict String)
      → (fresh s settings exclusions).actions ≡ []
  unfolding fresh
  fresh-actions s settings exclusions = refl

  -- A decision of the pressure policy puts one model to sleep at most.
  pub plan_pressure_sleep-one :
      (s : StateSnapshot N) (settings : PolicySettings N) (exclusions : Dict String)
      (d : Decision N)
      → plan_pressure_sleep s settings exclusions ≡ ok d
      → sleeps d.actions ≤ 1
  unfolding plan_pressure_sleep
  plan_pressure_sleep-one s settings exclusions d = OnOk-eq OneSleep _ d (
      OnOk-bind OneSleep (init s settings exclusions) _ (λ p e.
        let nothing : p.actions ≡ [] =
          ap (λ (q : Projection N). q.actions) (sym (init-eq s settings exclusions p e))
          ∙ fresh-actions s settings exclusions in
        if_ind (OnOk OneSleep) (not (is_empty p.blockers))
          (λ _. subst (λ l. sleeps l ≤ 1) (sym nothing) (omega arith))
          (λ _.
            sleep_first-AtMost _ _ _
              (candidates-actions _ _ false none false ∙ watch-actions s.models p [] ∙ nothing))))
