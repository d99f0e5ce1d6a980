-- ===== src/Policy/WakeFailure/Repeat.antt =====
-- llmsvc/policy/wake_failure.py: "Re-evaluating the same snapshot is idempotent", and a model that is
-- past its evidence is always reported.
use llm_service_manager.Prelude.{
  ℕ, String, ◌≡◌, refl, ap, sym, subst, ◌∙◌, ◌⊎◌, inl, inr, Bool, true, false, not, ◌&&◌, Option,
  none, some, List, [], ◌∷◌, arith, str_eq, eq_iff,
}
use llm_service_manager.Prelude.Tests.{
  Bool-cases, Option-cases, not-false, if_ind, ltb, if◌then◌else◌,
}
use llm_service_manager.Prelude.Lists.{All, All-map, is_empty}
use llm_service_manager.Prelude.Text.{Dict, lookup}
use text.Mathlib.TextPositions.{eq_refl}
use llm_service_manager.Prelude.Float.{Float, OrderLaws, known, amount}
use llm_service_manager.State.{StateSnapshot, ModelState}
use llm_service_manager.Prelude.Result.{ok, OnOk-eq, OnOk-bind, guard}
use llm_service_manager.Policy.Projection.{sampled, known_number, snapshot_blockers}
use llm_service_manager.Policy.WakeFailure.{
  Window, WakeFailureDecision, wedged, advance, judge, reported, is_early, guard_reason,
  plan_wake_failure,
}

module _ {N : Type 0} ⦃F : Float N⦄ (L : OrderLaws F) where
  -- A second look at the same time changes no window.
  advance_twice :
      (now : N) (found : Option (Window N))
      → known now ≡ true
      → advance now (some (advance now found)) ≡ advance now found
  unfolding advance
  advance_twice now none k = ground (arith, L.le_refl now, L.lt_irrefl now)
  advance_twice now (some w) k =
      ground (arith, L.le_refl now, L.lt_irrefl now, L.le_trans w.first w.last now)

module _ {N : Type 0} ⦃F : Float N⦄ (s : StateSnapshot N) (grace : N) (guards : Dict String)
    (min_samples : ℕ) where
  reported-windows :
      (m : ModelState N) (d : WakeFailureDecision N) → (reported s guards m d).windows ≡ d.windows
  unfolding reported
  reported-windows m d = elim (Option-cases (guard_reason s guards m)) [
    | inl g ↦ rw (g, reported) refl
    | inr (reason, g) ↦ rw (g, reported) refl
  ]

  abbrev now : N
  now = sampled s

  abbrev pub windows_after : Dict (Window N) → List (ModelState N) → Dict (Window N)
  windows_after windows ms = (judge s windows grace guards min_samples ms).windows

  -- The model of a step leaves its window in front, if it is wedged.
  abbrev Steps :
      Dict (Window N) → ModelState N → List (ModelState N) → WakeFailureDecision N → Type 0
  Steps windows m ms d = d.windows ≡ (
      if wedged m
      then (m.name, advance now (lookup m.name windows)) ∷ windows_after windows ms
      else windows_after windows ms)

  pub judge-step :
      (windows : Dict (Window N)) (m : ModelState N) (ms : List (ModelState N))
      → Steps windows m ms (judge s windows grace guards min_samples (m ∷ ms))
  unfolding judge
  judge-step windows m ms =
      if_ind (Steps windows m ms) (not (wedged m)) (λ e. ground arith)
        (λ e.
          if_ind (Steps windows m ms)
            (is_early now grace min_samples (advance now (lookup m.name windows)))
            (λ _. ground arith) (λ _. reported-windows m _ ∙ ground arith))

  abbrev Covers : Dict (Window N) → Dict (Window N) → String → Type 0
  Covers windows after name = lookup name after ≡ some (advance now (lookup name windows))

  Covers-cons :
      (windows after : Dict (Window N)) (k name : String)
      → (str_eq k name ≡ true) ⊎ Covers windows after name
      → Covers windows ((k, advance now (lookup k windows)) ∷ after) name
  unfolding lookup
  Covers-cons windows after k name c = elim (Bool-cases (str_eq k name)) [
    | inl e ↦ let same = (eq_iff k name).0 e in rw (same, eq_refl) refl
    | inr e ↦ elim c [ inl same ↦ absurd (ground (arith, e, same)) | inr k ↦ rw e k ]
  ]

  judge-windows :
      (windows : Dict (Window N)) (ms : List (ModelState N))
      → All (λ m. wedged m ≡ true → Covers windows (windows_after windows ms) m.name) ms
  judge-windows windows [] = tt
  judge-windows windows (m ∷ ms) =
      let after = windows_after windows ms in
      let ih = judge-windows windows ms in
      subst (λ l. All (λ o. wedged o ≡ true → Covers windows l o.name) (m ∷ ms))
        (sym (judge-step windows m ms))
        (
          λ e. rw e (Covers-cons windows after m.name m.name (inl (eq_refl m.name))),
          if_ind (λ l. All (λ m. wedged m ≡ true → Covers windows l m.name) ms) (wedged m)
              (λ _.
                All-map _ _ ms (λ o k e. Covers-cons windows after m.name o.name (inr (k e))) ih)
              (λ _. ih),
        )

  -- One round of the loop, with the window it uses
  abbrev round_of : Bool → Window N → ModelState N → WakeFailureDecision N → WakeFailureDecision N
  round_of shown w m rest =
      let kept = record rest { windows = (m.name, w) ∷ rest.windows } in
      if not shown
      then rest
      else if is_early now grace min_samples w
      then kept
      else reported s guards m kept

  round-same :
      (shown : Bool) (v w : Window N) (m : ModelState N) (d e : WakeFailureDecision N)
      → (shown ≡ true → v ≡ w)
      → d ≡ e
      → round_of shown v m d ≡ round_of shown w m e
  round-same true v w m d e h k = let same = h refl in rw (same, k) refl
  round-same false v w m d e h k = k

  judge-same :
      (before windows : Dict (Window N)) (ms : List (ModelState N))
      → All
          (λ m.
            wedged m ≡ true
            → advance now (lookup m.name before) ≡ advance now (lookup m.name windows))
          ms
      → judge s before grace guards min_samples ms ≡ judge s windows grace guards min_samples ms
  unfolding judge
  judge-same before windows [] h = refl
  judge-same before windows (m ∷ ms) h =
      round-same (wedged m) (advance now (lookup m.name before))
        (advance now (lookup m.name windows)) m _ _ h.0 (judge-same before windows ms h.1)

  judge-twice :
      OrderLaws F
      → (windows : Dict (Window N)) (ms : List (ModelState N)) → known now ≡ true
      → judge s (windows_after windows ms) grace guards min_samples ms
        ≡ judge s windows grace guards min_samples ms
  judge-twice L windows ms k = judge-same (windows_after windows ms) windows ms (
      All-map _ _ ms (λ m covered e. rw (covered e) (advance_twice L now (lookup m.name windows) k))
        (judge-windows windows ms))

  known-amount : (o : Option N) → known_number o ≡ true → known (amount o) ≡ true
  known-amount none h = cc
  known-amount (some x) h = h

  known_time : is_empty (snapshot_blockers s) ≡ true → known now ≡ true
  unfolding snapshot_blockers
  known_time h = known-amount s.sampled_at (ground arith)

  abbrev Repeats : WakeFailureDecision N → Type 0
  Repeats d = plan_wake_failure s d.windows grace guards min_samples ≡ ok d

  -- Evaluating the same snapshot again, with the windows that the first evaluation returned, gives the
  -- same actions, blockers and windows. The order of the floats has to be transitive, reflexive on the
  -- finite ones, and irreflexive where it is strict.
  pub plan_wake_failure-twice :
      OrderLaws F
      → (windows : Dict (Window N)) (d : WakeFailureDecision N)
      → plan_wake_failure s windows grace guards min_samples ≡ ok d
      → plan_wake_failure s d.windows grace guards min_samples ≡ ok d
  unfolding plan_wake_failure
  plan_wake_failure-twice L windows d h =
      OnOk-eq Repeats _ d
        (OnOk-bind Repeats (guard (known grace && F.lt (F.of_nat 0) grace) _) _ (λ _ e.
          OnOk-bind Repeats (guard (not (ltb min_samples 2)) _) _ (λ _ f.
            if_ind Repeats (not (is_empty (snapshot_blockers s))) (λ b. rw (e, f, b) refl)
              (λ b. rw (e, f, b) (ap ok (judge-twice L windows _ (known_time (not-false _ b))))))))
        h
