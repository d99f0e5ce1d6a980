-- ===== src/Policy/WakeFailure/Runs.antt =====
-- llmsvc/policy/wake_failure.py and llmsvc/wake_failure.py: the rounds in which a model is wedged, and the
-- window that the executor drops.
use llm_service_manager.Prelude.{
  ℕ, ◌+◌, String, ◌≡◌, refl, sym, ap, ◌∙◌, inl, inr, true, false, none, some, List, [], ◌∷◌, Memᴰ,
  arith, str_eq, eq_iff,
}
use llm_service_manager.Prelude.Tests.{Bool-cases, if◌then◌else◌}
use llm_service_manager.Prelude.Text.{Dict, lookup}
use llm_service_manager.Prelude.Float.{Float}
use llm_service_manager.State.{StateSnapshot, ModelState}
use llm_service_manager.Policy.Projection.{sampled, snapshot_blockers}
use llm_service_manager.Policy.WakeFailure.{Window, wedged}

module _ {N : Type 0} ⦃F : Float N⦄ where
  -- The snapshot of a round is consistent and has the model wedged.
  pub record IsWedged (s : StateSnapshot N) (name : String) : Type 0 where
    pub consistent : snapshot_blockers s ≡ []
    pub model : ModelState N
    pub there : Memᴰ model s.models
    pub named : model.name ≡ name
    pub shown : wedged model ≡ true

  -- In all the last rounds, the newest at the head, the model was wedged: the first of them was sampled at
  -- `first`, the last at `last`, and they have so many times of sampling, each later than the one before.
  pub data IsShown (name : String)
      : List (StateSnapshot N) → (first last : N) (rounds : ℕ) → Type 0 where
    begins :
        {s : StateSnapshot N} {past : List (StateSnapshot N)}
        → IsWedged s name
        → IsShown name (s ∷ past) (sampled s) (sampled s) 1
    again :
        {s : StateSnapshot N} {past : List (StateSnapshot N)} {first last : N} {rounds : ℕ}
        → IsWedged s name
        → F.lt last (sampled s) ≡ false
        → IsShown name past first last rounds
        → IsShown name (s ∷ past) first last rounds
    newer :
        {s : StateSnapshot N} {past : List (StateSnapshot N)} {first last : N} {rounds : ℕ}
        → IsWedged s name
        → F.lt last (sampled s) ≡ true
        → IsShown name past first last rounds
        → IsShown name (s ∷ past) first (sampled s) (rounds + 1)

  -- `self.windows.pop(name, None)`
  abbrev pub without_window : (name : String) → Dict (Window N) → Dict (Window N)
  without_window name [] = []
  without_window name ((k, w) ∷ d) =
      let rest = without_window name d in if str_eq k name then rest else (k, w) ∷ rest

  without_window-none :
      (name : String) (d : Dict (Window N)) → lookup name (without_window name d) ≡ none
  unfolding lookup
  without_window-none name [] = refl
  without_window-none name ((k, v) ∷ d) = elim (Bool-cases (str_eq k name)) [
    | inl f ↦ ground (arith, f, without_window-none name d)
    | inr f ↦ ground (arith, f, without_window-none name d)
  ]

  pub lookup-without_window :
      (name j : String) (d : Dict (Window N)) (w : Window N)
      → lookup j (without_window name d) ≡ some w
      → lookup j d ≡ some w
  unfolding lookup
  lookup-without_window name j [] w e = e
  lookup-without_window name j ((k, v) ∷ d) w e = elim (Bool-cases (str_eq k name)) [
    | inr f ↦ elim (Bool-cases (str_eq k j)) [
      | inl g ↦ ground (arith, f, g, e)
      | inr g ↦ ground (arith, f, g, e, lookup-without_window name j d w)
    ]
    | inl f ↦
        let kept : lookup j (without_window name d) ≡ some w = ground (arith, f, e) in
        elim (Bool-cases (str_eq k j)) [
          | inl g ↦
              let same : name ≡ j = sym ((eq_iff k name).0 f) ∙ (eq_iff k j).0 g in
              let gone : lookup j (without_window name d) ≡ none =
                ap (λ (i : String). lookup i (without_window name d)) (sym same)
                ∙ without_window-none name d in
              absurd (ground (arith, gone, kept))
          | inr g ↦ ground (arith, g, lookup-without_window name j d w kept)
        ]
  ]
