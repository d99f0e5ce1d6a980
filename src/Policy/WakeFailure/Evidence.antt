-- ===== src/Policy/WakeFailure/Evidence.antt =====
-- llmsvc/policy/wake_failure.py: what a stop rests on. The model is wedged, neither pinned, default
-- nor guarded, and the rounds before this one have shown it so.
use llm_service_manager.Prelude.{
  ℕ, ◌+◌, ◌≤◌, String, ◌≡◌, refl, sym, subst, inl, inr, true, false, not, ◌&&◌, Option, none, some,
  List, [], ◌∷◌, Memᴰ, arith,
}
use llm_service_manager.Prelude.Tests.{ltb, not-false, if_ind, Option-cases}
use llm_service_manager.Prelude.Lists.{All, All-map, All-of_mem, is_empty}
use llm_service_manager.Prelude.Sort.{All-sorted}
use llm_service_manager.Prelude.Text.{Dict, lookup}
use llm_service_manager.Prelude.Float.{Float, known}
use llm_service_manager.State.{StateSnapshot, ModelState, Action, Kind, action}
use llm_service_manager.Prelude.Result.{ok, OnOk-eq, OnOk-bind, guard}
use llm_service_manager.Policy.Projection.{sampled, is_pinned, snapshot_blockers}
use llm_service_manager.Policy.WakeFailure.{
  Window, WakeFailureDecision, wedged, advance, is_early, guard_reason, reported, judge, given,
  plan_wake_failure,
}

module _ {N : Type 0} ⦃F : Float N⦄ (s : StateSnapshot N) (windows : Dict (Window N)) (grace : N)
    (guards : Dict String) (min_samples : ℕ) where
  -- The window of the model after this round
  abbrev pub window_of : String → Window N
  window_of name = advance (sampled s) (lookup name windows)

  -- A stop of a model of the snapshot that this round and the rounds before have shown to be wedged.
  pub record IsJustified (a : Action) : Type 0 where
    pub model : ModelState N
    pub there : Memᴰ model s.models
    pub stops : a ≡ action Kind.stop model.name "wake_failed" model.gpu
    pub shown : wedged model ≡ true
    pub long : F.lt (F.minus (sampled s) (window_of model.name).first) grace ≡ false
    pub often : min_samples ≤ (window_of model.name).rounds
    pub unpinned : is_pinned s model.name ≡ false
    pub not_default : model.is_default ≡ false
    pub unguarded : given (lookup model.name guards) ≡ none

  justified :
      (m : ModelState N)
      → Memᴰ m s.models
      → wedged m ≡ true
      → is_early (sampled s) grace min_samples (window_of m.name) ≡ false
      → guard_reason s guards m ≡ none
      → IsJustified (action Kind.stop m.name "wake_failed" m.gpu)
  unfolding guard_reason
  justified m there w e g = record {
    model = m;
    there = there;
    stops = refl;
    shown = w;
    long = ground arith;
    often = ground arith;
    unpinned = ground arith;
    not_default = ground arith;
    unguarded = ground arith;
  }

  abbrev Judged : WakeFailureDecision N → Type 0
  Judged d = All IsJustified d.actions

  reported-IsJustified :
      (m : ModelState N) (d : WakeFailureDecision N)
      → Judged d
      → (guard_reason s guards m ≡ none → IsJustified (action Kind.stop m.name "wake_failed" m.gpu))
      → Judged (reported s guards m d)
  unfolding reported
  reported-IsJustified m d rest stop_of = elim (Option-cases (guard_reason s guards m)) [
    | inl g ↦ rw (g, reported) (stop_of g, rest)
    | inr (reason, g) ↦ rw (g, reported) rest
  ]

  judge-IsJustified :
      (ms : List (ModelState N))
      → All (λ m. Memᴰ m s.models) ms
      → Judged (judge s windows grace guards min_samples ms)
  unfolding judge
  judge-IsJustified [] there = tt
  judge-IsJustified (m ∷ ms) there =
      let rest = judge-IsJustified ms there.1 in
      if_ind Judged (not (wedged m)) (λ _. rest)
        (λ w.
          if_ind Judged (is_early (sampled s) grace min_samples (window_of m.name)) (λ _. rest)
            (λ e. reported-IsJustified m _ rest (justified m there.0 (not-false _ w) e)))

  -- Every action of `plan_wake_failure` is a stop of a model of the snapshot that is wedged and has
  -- been so for the grace period and over the number of rounds asked for, that no pin or controller
  -- guard holds, and that is not a default model.
  pub plan_wake_failure-IsJustified :
      (d : WakeFailureDecision N)
      → plan_wake_failure s windows grace guards min_samples ≡ ok d
      → All IsJustified d.actions
  unfolding plan_wake_failure
  plan_wake_failure-IsJustified d = OnOk-eq Judged _ d (
      OnOk-bind Judged (guard (known grace && F.lt (F.of_nat 0) grace) _) _ (λ _ _.
        OnOk-bind Judged (guard (not (ltb min_samples 2)) _) _ (λ _ _.
          if_ind Judged (not (is_empty (snapshot_blockers s))) (λ _. tt)
            (λ _.
              judge-IsJustified _
                (All-sorted _ _ s.models (All-of_mem _ s.models (λ m there. there)))))))

  enough_asked :
      (d : WakeFailureDecision N)
      → plan_wake_failure s windows grace guards min_samples ≡ ok d
      → 2 ≤ min_samples
  unfolding plan_wake_failure
  enough_asked d h = ground arith

  earlier :
      (now : N) (found : Option (Window N))
      → 2 ≤ min_samples
      → min_samples ≤ (advance now found).rounds
      → (w : Window N) × (found ≡ some w) × (min_samples ≤ w.rounds + 1)
  unfolding advance
  earlier now none asked h = absurd (omega arith)
  earlier now (some w) asked h = (w, refl, ground arith)

  -- A stop always rests on a window that an earlier round has left, and this round adds one at most:
  -- a single round never suffices.
  pub plan_wake_failure-rounds :
      (d : WakeFailureDecision N)
      → plan_wake_failure s windows grace guards min_samples ≡ ok d
      → All
          (λ a. (w : Window N) × (lookup a.model windows ≡ some w) × (min_samples ≤ w.rounds + 1))
          d.actions
  plan_wake_failure-rounds d h =
      All-map IsJustified _ d.actions
        (λ a j.
          subst
            (λ (a : Action).
              (w : Window N) × (lookup a.model windows ≡ some w) × (min_samples ≤ w.rounds + 1))
            (sym j.stops)
            (earlier (sampled s) (lookup j.model.name windows) (enough_asked d h) j.often))
        (plan_wake_failure-IsJustified d h)
