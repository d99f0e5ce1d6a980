-- ===== src/Policy/WakeFailure/Reports.antt =====
-- llmsvc/policy/wake_failure.py: a wedged model that is past its evidence is never passed over.
use llm_service_manager.Prelude.{
  ℕ, String, ◌≡◌, refl, ◌⊎◌, inl, inr, Bool, true, false, not, ◌&&◌, some, List, [], ◌∷◌, Memᴰ,
  arith,
}
use llm_service_manager.Prelude.Tests.{Option-cases, if_ind, ltb}
use llm_service_manager.Prelude.Lists.{All, All-map, All-mem}
use llm_service_manager.Prelude.Sort.{sorted-Memᴰ}
use llm_service_manager.Prelude.Text.{Dict, lookup, str_lt}
use llm_service_manager.Prelude.Float.{Float, known}
use llm_service_manager.State.{StateSnapshot, ModelState, Blocker, Action, Kind}
use llm_service_manager.Prelude.Result.{ok, guard, OnOk-eq, OnOk-bind}
use llm_service_manager.Policy.Projection.{sampled, snapshot_blockers}
use llm_service_manager.Policy.WakeFailure.{
  Window, WakeFailureDecision, wedged, advance, is_early, guard_reason, reported, judge,
  plan_wake_failure,
}

module _ {N : Type 0} where
  -- The decision stops the model, or says why it does not.
  abbrev pub IsReported : WakeFailureDecision N → String → Type 0
  IsReported d name =
      ((a : Action) × Memᴰ a d.actions × (a.model ≡ name) × (a.kind ≡ Kind.stop))
      ⊎ ((b : Blocker N) × Memᴰ b d.blocked_by × (b.model ≡ some name))

module _ {N : Type 0} ⦃F : Float N⦄ (s : StateSnapshot N) (windows : Dict (Window N)) (grace : N)
    (guards : Dict String) (min_samples : ℕ) where
  abbrev Keeps : WakeFailureDecision N → WakeFailureDecision N → Type 0
  Keeps d more = (name : String) → IsReported d name → IsReported more name

  reported-IsReported :
      (m : ModelState N) (d : WakeFailureDecision N) → IsReported (reported s guards m d) m.name
  unfolding reported
  reported-IsReported m d = elim (Option-cases (guard_reason s guards m)) [
    | inl g ↦ rw (g, reported) (inl (_, Memᴰ.head refl, refl, refl))
    | inr (reason, g) ↦ rw (g, reported) (inr (_, Memᴰ.head refl, refl))
  ]

  reported-Keeps : (m : ModelState N) (d : WakeFailureDecision N) → Keeps d (reported s guards m d)
  unfolding reported
  reported-Keeps m d name (inl (a, there, named, stops)) =
      elim (Option-cases (guard_reason s guards m)) [
        | inl g ↦ rw (g, reported) (inl (a, Memᴰ.tail there, named, stops))
        | inr (reason, g) ↦ rw (g, reported) (inl (a, there, named, stops))
      ]
  reported-Keeps m d name (inr (b, there, named)) = elim (Option-cases (guard_reason s guards m)) [
    | inl g ↦ rw (g, reported) (inr (b, there, named))
    | inr (reason, g) ↦ rw (g, reported) (inr (b, Memᴰ.tail there, named))
  ]

  abbrev early : ModelState N → Bool
  early m = is_early (sampled s) grace min_samples (advance (sampled s) (lookup m.name windows))

  abbrev Reports : WakeFailureDecision N → ModelState N → Type 0
  Reports d m = wedged m ≡ true → early m ≡ false → IsReported d m.name

  judge-step :
      (m : ModelState N) (ms : List (ModelState N))
      → Reports (judge s windows grace guards min_samples (m ∷ ms)) m
        × Keeps
            (judge s windows grace guards min_samples ms)
            (judge s windows grace guards min_samples (m ∷ ms))
  unfolding judge
  judge-step m ms =
      let rest = judge s windows grace guards min_samples ms in
      let Goal : WakeFailureDecision N → Type 0 = λ d. Reports d m × Keeps rest d in
      if_ind Goal (not (wedged m)) (λ calm. ((λ w. absurd (ground arith)), λ n k. k))
        (λ _.
          if_ind Goal (early m) (λ soon. ((λ w e. absurd (ground arith)), λ n k. k))
            (λ _. ((λ w e. reported-IsReported m _), reported-Keeps m _)))

  judge-Reports :
      (ms : List (ModelState N)) → All (Reports (judge s windows grace guards min_samples ms)) ms
  judge-Reports [] = tt
  judge-Reports (m ∷ ms) =
      let (first, keeps) = judge-step m ms in
      (first, All-map _ _ ms (λ o r w e. keeps o.name (r w e)) (judge-Reports ms))

  -- Over a consistent snapshot, each wedged model that has been so long and often enough is stopped or
  -- reported in a blocker of its name.
  pub plan_wake_failure-IsReported :
      (d : WakeFailureDecision N) (m : ModelState N)
      → plan_wake_failure s windows grace guards min_samples ≡ ok d
      → snapshot_blockers s ≡ []
      → Memᴰ m s.models
      → wedged m ≡ true
      → is_early (sampled s) grace min_samples (advance (sampled s) (lookup m.name windows)) ≡ false
      → IsReported d m.name
  unfolding plan_wake_failure
  plan_wake_failure-IsReported d m planned clean there w e =
      OnOk-eq (λ (d : WakeFailureDecision N). IsReported d m.name) _ d
        (OnOk-bind (λ (d : WakeFailureDecision N). IsReported d m.name)
          (guard (known grace && F.lt (F.of_nat 0) grace) _) _
          (λ _ _.
            OnOk-bind (λ (d : WakeFailureDecision N). IsReported d m.name)
              (guard (not (ltb min_samples 2)) _) _
              (λ _ _. rw clean (
                All-mem (Reports (judge s windows grace guards min_samples _)) _ (judge-Reports _) m
                  (sorted-Memᴰ (λ (a b : ModelState N). str_lt a.name b.name) m s.models there) w
                  e))))
        planned
