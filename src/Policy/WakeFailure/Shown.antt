-- ===== src/Policy/WakeFailure/Shown.antt =====
-- llmsvc/policy/wake_failure.py and llmsvc/wake_failure.py: the rounds behind a stop. The executor passes
-- the windows of a decision to the next one, has none where it cannot plan, and drops the window of a model
-- that it acts on.
use llm_service_manager.Prelude.{
  ℕ, ◌≤◌, String, ◌≡◌, refl, sym, subst, ap, ◌∙◌, ◌⊎◌, inl, inr, false, not, ◌&&◌, Option, none,
  some, List, [], ◌∷◌, Memᴰ, arith, str_eq, eq_iff,
}
use llm_service_manager.Prelude.Tests.{Bool-cases, if_ind, ltb, if◌then◌else◌}
use llm_service_manager.Prelude.Lists.{All, All-map, All-of_mem, is_empty}
use llm_service_manager.Prelude.Sort.{All-sorted}
use llm_service_manager.Prelude.Text.{Dict, lookup}
use llm_service_manager.Prelude.Float.{Float, known}
use llm_service_manager.State.{StateSnapshot, ModelState, Action, Blocker}
use llm_service_manager.Prelude.Result.{ok, OnOk-eq, OnOk-bind, guard}
use llm_service_manager.Policy.Projection.{sampled, snapshot_blockers}
use llm_service_manager.Policy.WakeFailure.{
  Window, WakeFailureDecision, wedged, advance, well_formed, judge, plan_wake_failure,
}
use llm_service_manager.Policy.WakeFailure.Evidence.{IsJustified, plan_wake_failure-IsJustified}
use llm_service_manager.Policy.WakeFailure.Repeat.{windows_after, judge-step}
use llm_service_manager.Policy.WakeFailure.Runs.{
  IsWedged, IsShown, without_window, lookup-without_window,
}

module _ {N : Type 0} ⦃F : Float N⦄ (grace : N) (min_samples : ℕ) where
  -- The windows that the executor has after some rounds
  pub data Reaches : List (StateSnapshot N) → Dict (Window N) → Type 0 where
    start : Reaches [] []
    round :
        {past : List (StateSnapshot N)} {windows : Dict (Window N)} (s : StateSnapshot N)
        (guards : Dict String) (d : WakeFailureDecision N)
        → Reaches past windows
        → plan_wake_failure s windows grace guards min_samples ≡ ok d
        → Reaches (s ∷ past) d.windows
    unavailable :
        {past : List (StateSnapshot N)} {windows : Dict (Window N)}
        → Reaches past windows
        → Reaches past []
    acts :
        {past : List (StateSnapshot N)} {windows : Dict (Window N)} (name : String)
        → Reaches past windows
        → Reaches past (without_window name windows)

  -- Each window of the decision is the one that this round advances, of a model that is wedged.
  judge-window :
      (s : StateSnapshot N) (guards : Dict String) (windows : Dict (Window N))
      → snapshot_blockers s ≡ []
      → (ms : List (ModelState N)) → All (λ m. Memᴰ m s.models) ms
      → (name : String) (w : Window N)
      → lookup name (windows_after s grace guards min_samples windows ms) ≡ some w
      → IsWedged s name × (w ≡ advance (sampled s) (lookup name windows))
  unfolding lookup judge
  judge-window s guards windows clean [] there name w e = absurd (ground (arith, e))
  judge-window s guards windows clean (m ∷ ms) there name w e =
      let after = windows_after s grace guards min_samples windows ms in
      let moved : lookup name (
            if wedged m
            then (m.name, advance (sampled s) (lookup m.name windows)) ∷ after
            else after)
          ≡ some w =
        subst (λ d. lookup name d ≡ some w) (judge-step s grace guards min_samples windows m ms)
          e in
      elim (Bool-cases (wedged m)) [
        | inr calm ↦
            judge-window s guards windows clean ms there.1 name w (ground (arith, calm, moved))
        | inl shown ↦ elim (Bool-cases (str_eq m.name name)) [
          | inr other ↦
              judge-window s guards windows clean ms there.1 name w
                (ground (arith, shown, other, moved))
          | inl same ↦
              let named = (eq_iff m.name name).0 same in
              let here : advance (sampled s) (lookup m.name windows) ≡ w =
                ground (arith, shown, same, moved) in
              (
                record {
                  consistent = clean;
                  model = m;
                  there = there.0;
                  named = named;
                  shown = shown;
                },
                sym here ∙ ap (λ (i : String). advance (sampled s) (lookup i windows)) named,
              )
        ]
      ]

  abbrev Explains : List (StateSnapshot N) → String → Window N → Type 0
  Explains past name w = IsShown name past w.first w.last w.rounds

  -- A window that is advanced tells of one round more.
  advance-Explains :
      (s : StateSnapshot N) (past : List (StateSnapshot N)) (name : String)
      (found : Option (Window N))
      → IsWedged s name
      → ((w : Window N) → found ≡ some w → Explains past name w)
      → Explains (s ∷ past) name (advance (sampled s) found)
  unfolding advance
  advance-Explains s past name none shown h = IsShown.begins shown
  advance-Explains s past name (some w) shown h =
      if_ind (Explains (s ∷ past) name) (not (well_formed (sampled s) w))
        (λ _. IsShown.begins shown)
        (λ _.
          if_ind (Explains (s ∷ past) name) (F.lt w.last (sampled s))
            (λ later. IsShown.newer shown later (h w refl))
            (λ same. IsShown.again shown same (h w refl)))

  empty_of : (bs : List (Blocker N)) → not (is_empty bs) ≡ false → bs ≡ []
  empty_of [] e = refl
  empty_of (b ∷ bs) e = absurd (ground (arith, e))

  -- Over a snapshot that is not consistent nothing is done.
  consistent_of :
      (s : StateSnapshot N) (guards : Dict String) (windows : Dict (Window N))
      (d : WakeFailureDecision N)
      → plan_wake_failure s windows grace guards min_samples ≡ ok d
      → (d.actions ≡ []) ⊎ (snapshot_blockers s ≡ [])
  unfolding plan_wake_failure
  consistent_of s guards windows d planned =
      let Good : WakeFailureDecision N → Type 0 =
        λ d. (d.actions ≡ []) ⊎ (snapshot_blockers s ≡ []) in
      OnOk-eq Good _ d
        (OnOk-bind Good (guard (known grace && F.lt (F.of_nat 0) grace) _) _ (λ _ _.
          OnOk-bind Good (guard (not (ltb min_samples 2)) _) _ (λ _ _.
            if_ind Good (not (is_empty (snapshot_blockers s))) (λ _. inl refl)
              (λ clean. inr (empty_of (snapshot_blockers s) clean)))))
        planned

  -- The windows of a decision explain the rounds with this one, if the windows before explain the others.
  decision-Explains :
      (s : StateSnapshot N) (past : List (StateSnapshot N)) (guards : Dict String)
      (windows : Dict (Window N))
      → ((name : String) (w : Window N) → lookup name windows ≡ some w → Explains past name w)
      → (d : WakeFailureDecision N) → plan_wake_failure s windows grace guards min_samples ≡ ok d
      → (name : String) (w : Window N) → lookup name d.windows ≡ some w
      → Explains (s ∷ past) name w
  unfolding plan_wake_failure lookup
  decision-Explains s past guards windows h d planned =
      let Good : WakeFailureDecision N → Type 0 = λ d.
        (name : String) (w : Window N)
        → lookup name d.windows ≡ some w
        → Explains (s ∷ past) name w in
      OnOk-eq Good _ d
        (OnOk-bind Good (guard (known grace && F.lt (F.of_nat 0) grace) _) _ (λ _ _.
          OnOk-bind Good (guard (not (ltb min_samples 2)) _) _ (λ _ _.
            if_ind Good (not (is_empty (snapshot_blockers s)))
              (λ _ name w e. absurd (ground (arith, e)))
              (λ clean name w e.
                let (shown, same) =
                  judge-window s guards windows (empty_of (snapshot_blockers s) clean) _
                    (All-sorted _ _ s.models (All-of_mem _ s.models (λ m there. there))) name w e in
                subst (Explains (s ∷ past) name) (sym same)
                  (advance-Explains s past name (lookup name windows) shown (h name))))))
        planned

  Reaches-Explains :
      (past : List (StateSnapshot N)) (windows : Dict (Window N))
      → Reaches past windows
      → (name : String) (w : Window N) → lookup name windows ≡ some w
      → Explains past name w
  unfolding lookup
  Reaches-Explains _ _ Reaches.start name w e = absurd (ground (arith, e))
  Reaches-Explains _ _ (Reaches.round s guards d before planned) name w e =
      decision-Explains s _ guards _ (Reaches-Explains _ _ before) d planned name w e
  Reaches-Explains _ _ (Reaches.unavailable before) name w e = absurd (ground (arith, e))
  Reaches-Explains _ _ (Reaches.acts other before) name w e =
      Reaches-Explains _ _ before name w (lookup-without_window other name _ w e)

  -- What a stop rests on: the model, and the rounds that have shown it wedged.
  pub record IsProven (s : StateSnapshot N) (past : List (StateSnapshot N))
      (windows : Dict (Window N)) (guards : Dict String) (a : Action) : Type 0 where
    pub justified : IsJustified s windows grace guards min_samples a
    pub first : N
    pub last : N
    pub rounds : ℕ
    pub run : IsShown a.model (s ∷ past) first last rounds
    pub long : F.lt (F.minus (sampled s) first) grace ≡ false
    pub often : min_samples ≤ rounds

  -- When the windows are those that the decisions before have left, every action of `plan_wake_failure`
  -- is a stop of a model of the snapshot that no pin or controller guard holds and that is not a default
  -- model. The model is wedged in this round and was so in every round back to one that was sampled no
  -- less than the grace period before, and these rounds were sampled at no fewer times than are asked for.
  pub plan_wake_failure-IsProven :
      (s : StateSnapshot N) (past : List (StateSnapshot N)) (windows : Dict (Window N))
      (guards : Dict String) (d : WakeFailureDecision N)
      → Reaches past windows
      → plan_wake_failure s windows grace guards min_samples ≡ ok d
      → All (IsProven s past windows guards) d.actions
  plan_wake_failure-IsProven s past windows guards d before planned =
      elim (consistent_of s guards windows d planned) [
        | inl nothing ↦ subst (All (IsProven s past windows guards)) (sym nothing) tt
        | inr clean ↦
            All-map (IsJustified s windows grace guards min_samples)
              (IsProven s past windows guards) d.actions
              (λ a j.
                let w = advance (sampled s) (lookup j.model.name windows) in
                record {
                  justified = j;
                  first = w.first;
                  last = w.last;
                  rounds = w.rounds;
                  run =
                      subst (λ (b : Action). IsShown b.model (s ∷ past) w.first w.last w.rounds)
                        (sym j.stops)
                        (advance-Explains s past j.model.name (lookup j.model.name windows)
                          (record {
                            consistent = clean;
                            model = j.model;
                            there = j.there;
                            named = refl;
                            shown = j.shown;
                          })
                          (Reaches-Explains past windows before j.model.name));
                  long = j.long;
                  often = j.often;
                })
              (plan_wake_failure-IsJustified s windows grace guards min_samples d planned)
      ]
