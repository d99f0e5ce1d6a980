-- ===== src/Leases/Kept.antt =====
-- llmsvc/leases.py: past its decision, a pass of `place` keeps the window and does not decline the model.
use llm_service_manager.Prelude.{
  String, ◌≡◌, refl, false, not, ◌&&◌, ◌||◌, Option, none, some, List, [], ◌∷◌, ◌⊎◌, inl, inr,
  str_eq,
}
use llm_service_manager.Prelude.Tests.{is_false, is_some, Option-cases, if_ind}
use llm_service_manager.Prelude.Float.{Float}
use llm_service_manager.Prelude.Result.{Result, ok, err}
use llm_service_manager.State.{ModelState, Lease, Blocker, Action, blocker}
use llm_service_manager.Store.Rows.{IntentStore, RecoveryClaim}
use llm_service_manager.Store.Leases.{create_lease}
use llm_service_manager.Policy.Placement.Plan.{PlacementDecision}
use llm_service_manager.Leases.Probe.{UnitObservation}
use llm_service_manager.Leases.Finish.{disabled}
use llm_service_manager.Leases.Admission.{Admission, Verdict, is_place, recovery_context}
use llm_service_manager.Leases.Victim.{observe_victim}
use llm_service_manager.Leases.Window.{Window}
use llm_service_manager.Leases.Place.{
  Refusal, Dispatched, Pass, Loop, Next, Turned, quietly, refusal, raises, first_action, action_of,
  account_of, is_identified, is_stop, kind_name, action_eq, when_enabled, lease_of, written,
  granted, again_placed, decision_again, with_place, after_victim, submitted, again_stopped,
  with_victim, acted,
}

module _ {N : Type 0} ⦃F : Float N⦄ (request : ModelState N) (v : Pass N) where
  -- Past the decision, a pass keeps the window and does not decline.
  abbrev pub Keeps : Window N → Next N → Type 0
  Keeps w (Next.goes_on l) = l.window ≡ w
  Keeps w (Next.declines r) = ⊥
  Keeps w _ = Unit

  abbrev KeepsTurned : Window N → Turned N → Type 0
  KeepsTurned w t = Keeps w t.next

  raises-Keeps :
      (w : Window N) (bs : List (Blocker N)) (r : Refusal N) → KeepsTurned w (raises bs r)
  raises-Keeps w bs r =
      if_ind (λ n. KeepsTurned w (quietly n)) (str_eq r.error "placement_timeout") (λ _. tt)
        (λ _. tt)

  when_enabled-Keeps :
      (w : Window N) (a : Admission N) (s : IntentStore N) (bs : List (Blocker N)) (next : Turned N)
      → KeepsTurned w next
      → KeepsTurned w (when_enabled request v a s bs next)
  when_enabled-Keeps w a s bs next h = elim (Option-cases (disabled a.context s)) [
    | inl e ↦ rw (e, when_enabled) h
    | inr ((status, error), e) ↦ rw (e, when_enabled) (raises-Keeps w bs (refusal status error []))
  ]

  module _ (util : N) (s : IntentStore N) (l : Loop N) (a : Action) (bs : List (Blocker N)) where
    abbrev Same : Turned N → Type 0
    Same = KeepsTurned l.window

    written-Keeps :
        (lease : Lease N) (claim : Option (RecoveryClaim N)) (answer : Result (IntentStore N))
        → Same (written request v lease bs claim answer)
    written-Keeps lease claim (ok after) = tt
    written-Keeps lease none (err message) = tt
    written-Keeps lease (some c) (err message) =
        raises-Keeps l.window bs (refusal 503 "sleeping_recovery_changed" [])

    granted-Keeps :
        (d : PlacementDecision N) (context : String ⊎ Option (RecoveryClaim N))
        → Same (granted request v util s d bs context)
    granted-Keeps d (inl reason) = raises-Keeps l.window bs (refusal 503 reason [])
    granted-Keeps d (inr claim) =
        written-Keeps (lease_of request v util d) claim
          (create_lease s (lease_of request v util d) v.unit false claim)

    again_placed-Keeps :
        (o : UnitObservation) (answer : Result (Verdict N))
        → Same (again_placed request v util s l a bs o answer)
    again_placed-Keeps o (err message) = tt
    again_placed-Keeps o (ok (none, again)) = refl
    again_placed-Keeps o (ok (some d, again)) =
        if_ind Same (action_eq a (first_action d))
          (λ _.
            if_ind Same (is_false o.exists && v.in_time)
              (λ _. granted-Keeps d (recovery_context v.admission_again s request.name))
              (λ _. refl))
          (λ _. refl)

    with_place-Keeps :
        (seen : Refusal N ⊎ UnitObservation) → Same (with_place request v util s l a bs seen)
    with_place-Keeps (inl r) = raises-Keeps l.window bs r
    with_place-Keeps (inr o) =
        when_enabled-Keeps l.window v.admission_again s bs _
          (again_placed-Keeps o (decision_again request v s l))

    after_victim-Keeps :
        (failure : Option String) → Keeps l.window (after_victim request v l a bs failure)
    after_victim-Keeps failure =
        if_ind (Keeps l.window) (is_some failure || not (observe_victim a none v.looks))
          (λ _. if_ind (Keeps l.window) v.ended_late (λ _. tt) (λ _. tt)) (λ _. refl)

    submitted-Keeps : (d : Dispatched) → Same (submitted request v l a bs d)
    submitted-Keeps Dispatched.done = after_victim-Keeps none
    submitted-Keeps (Dispatched.declined reason) = after_victim-Keeps (some reason)
    submitted-Keeps (Dispatched.broken message) = tt

    again_stopped-Keeps :
        (answer : Result (Verdict N)) → Same (again_stopped request v l a bs answer)
    again_stopped-Keeps (err message) = tt
    again_stopped-Keeps (ok (d, again)) =
        if_ind Same (action_eq a (action_of d)) (λ _. submitted-Keeps v.dispatched) (λ _. refl)

    with_victim-Keeps :
        (seen : Refusal N ⊎ UnitObservation) → Same (with_victim request v s l a bs seen)
    with_victim-Keeps (inl r) = raises-Keeps l.window bs r
    with_victim-Keeps (inr o) =
        if_ind Same (is_identified (account_of v.snapshot a.model) o)
          (λ _.
            when_enabled-Keeps l.window v.admission_again s bs _
              (again_stopped-Keeps (decision_again request v s l)))
          (λ _. raises-Keeps l.window bs (
            refusal 503 "placement_action_blocked"
              (blocker (some a.model) "unit_identity_unconfirmed" a.gpu ∷ [])))

  pub acted-Keeps :
      (util : N) (s : IntentStore N) (l : Loop N) (bs : List (Blocker N)) (a : Option Action)
      → KeepsTurned l.window (acted request v util s l bs a)
  acted-Keeps util s l bs none = refl
  acted-Keeps util s l bs (some a) =
      if_ind (KeepsTurned l.window) (is_place a)
        (λ _. with_place-Keeps util s l a bs (v.inspect request.name))
        (λ _.
          if_ind (KeepsTurned l.window) (is_stop a)
            (λ _. with_victim-Keeps util s l a bs (v.inspect a.model))
            (λ _. raises-Keeps l.window bs (
              refusal 503 "placement_action_not_supported"
                (blocker (some a.model) (kind_name a.kind) none ∷ []))))
