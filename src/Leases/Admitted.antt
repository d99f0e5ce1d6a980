-- ===== src/Leases/Admitted.antt =====
-- llmsvc/leases.py: what an admitted placement may touch.
use llm_service_manager.Prelude.{
  ℕ, String, ◌≡◌, refl, ap, ◌∙◌, subst, ◌⊎◌, inl, inr, Bool, true, false, not, ◌&&◌, Option, none,
  some, List, [], ◌∷◌, eq_iff, arith,
}
use mathlib.Core.Option.{some-injective}
use llm_service_manager.Prelude.Tests.{is_some, Option-cases, if_ind, if◌then◌else◌}
use llm_service_manager.Prelude.Lists.{All}
use llm_service_manager.Prelude.Text.{Dict, lookup, lookup-insert, contains, opt_str_eq}
use llm_service_manager.Prelude.Float.{Float, amount}
use llm_service_manager.Prelude.Result.{ok, OnOk, OnOk-bind, OnOk-eq, OnOk-map}
use llm_service_manager.State.{StateSnapshot, ModelState, Action, Blocker, Kind, blocker}
use llm_service_manager.Store.Rows.{IntentStore, RecoveryClaim, fault, recovery}
use llm_service_manager.Policy.Projection.{known_number}
use llm_service_manager.Policy.Placement.Plan.{PlacementDecision, plan_placement}
use llm_service_manager.Policy.Placement.Safety.{IsGentle, plan_placement-IsGentle}
use llm_service_manager.Leases.Observed.{is_fresh}
use llm_service_manager.Leases.Admission.{
  Admission, Verdict, is_place, evicts, recovery_context, has_confirmed, is_managed, guard_reason,
  concerned, add_guard, guard_each, protected, pending_weights, raised, gpu_exclusions,
  settings_for, headroom, turned_down, admit_with, decision,
}

-- An eviction needs the controller of actions.
enabled_for :
    (enabled : Bool) (acts : List Action)
    → (evicts acts && not enabled) ≡ false
    → All (λ act. not (is_place act) ≡ true → enabled ≡ true) acts
enabled_for enabled [] h = tt
enabled_for enabled (act ∷ acts) h = ((λ e. ground arith), enabled_for enabled acts (ground arith))

releases_not_place :
    (act : Action) → ((act.kind ≡ Kind.sleep) ⊎ (act.kind ≡ Kind.stop)) → not (is_place act) ≡ true
releases_not_place act (inl e) = rw e refl
releases_not_place act (inr e) = rw e refl

module _ {N : Type 0} (a : Admission N) (s : IntentStore N) (snapshot : StateSnapshot N) where
  -- No other part of the service is at work on the model, and the controller of actions has it under
  -- the unit of its confirmed lease.
  pub record IsMovable (m : ModelState N) : Type 0 where
    pub managed : is_managed a m ≡ true
    pub leased : a.actions.enabled ≡ true → has_confirmed snapshot m.name ≡ true
    pub sound : a.actions.enabled ≡ true → a.actions.fault_pending m.name ≡ false
    pub settled : is_some (recovery s m.name) ≡ false
    pub matched :
        a.actions.enabled ≡ true
        → opt_str_eq (a.actions.units m.name) (a.context.units m.name) ≡ true
    pub not_freeing : a.actions.enabled ≡ true → a.actions.free_active ≡ false
    pub free : a.actions.enabled ≡ true → contains m.name a.actions.pending ≡ false

  IsMovable-of : (m : ModelState N) → guard_reason a s snapshot m ≡ none → IsMovable m
  unfolding guard_reason
  IsMovable-of m h = record {
    managed = ground arith;
    leased = λ e. ground arith;
    sound = λ e. ground arith;
    settled = ground arith;
    matched = λ e. ground arith;
    not_freeing = λ e. ground arith;
    free = λ e. ground arith;
  }

  add_guard-lookup :
      (name k : String) (reason : Option String) (guarded : Dict String)
      → lookup name (add_guard k reason guarded) ≡ none
      → (lookup name guarded ≡ none) × (k ≡ name → reason ≡ none)
  add_guard-lookup name k none guarded h = (h, λ _. refl)
  add_guard-lookup name k (some reason) guarded h =
      let read = lookup-insert k name reason guarded in
      (ground (arith, eq_iff k name), λ e. absurd (ground (arith, eq_iff k name)))

  abbrev with_guard : (request : String) → ModelState N → Dict String → Dict String
  with_guard request m guarded =
      if concerned request m
      then add_guard m.name (guard_reason a s snapshot m) guarded
      else guarded

  with_guard-lookup :
      (request name : String) (m : ModelState N) (guarded : Dict String)
      → lookup name (with_guard request m guarded) ≡ none
      → (lookup name guarded ≡ none)
        × (m.name ≡ name → concerned request m ≡ true → guard_reason a s snapshot m ≡ none)
  with_guard-lookup request name m guarded =
      if_ind
        (λ (d : Dict String).
          lookup name d ≡ none
          → (lookup name guarded ≡ none)
            × (m.name ≡ name → concerned request m ≡ true → guard_reason a s snapshot m ≡ none))
        (concerned request m)
        (λ _ h.
          let (rest, none_of) =
            add_guard-lookup name m.name (guard_reason a s snapshot m) guarded h in
          (rest, λ e _. none_of e))
        (λ n h. (h, λ _ c. absurd (ground arith)))

  -- The guard of a name stays.
  guard_each-keeps :
      (request name : String) (ms : List (ModelState N)) (guarded : Dict String)
      → lookup name (guard_each a s snapshot request ms guarded) ≡ none
      → lookup name guarded ≡ none
  unfolding guard_each
  guard_each-keeps request name [] guarded h = h
  guard_each-keeps request name (m ∷ ms) guarded h =
      (with_guard-lookup request name m guarded
        (guard_each-keeps request name ms (with_guard request m guarded) h)).0

  -- What no guard names may be moved.
  guard_each-IsMovable :
      (request name : String) (ms : List (ModelState N)) (guarded : Dict String)
      → lookup name (guard_each a s snapshot request ms guarded) ≡ none
      → All (λ m. m.name ≡ name → concerned request m ≡ true → IsMovable m) ms
  unfolding guard_each
  guard_each-IsMovable request name [] guarded h = tt
  guard_each-IsMovable request name (m ∷ ms) guarded h =
      let kept = guard_each-keeps request name ms (with_guard request m guarded) h in
      (
        (λ e c. IsMovable-of m ((with_guard-lookup request name m guarded kept).1 e c)),
        guard_each-IsMovable request name ms (with_guard request m guarded) h,
      )

-- The placement itself, or an eviction by the controller of actions that spares the models in use, the
-- default models and every model that another part of the service is at work on
abbrev pub IsAdmittedAction :
    {N : Type 0} ⦃F : Float N⦄
    → Admission N
    → IntentStore N
    → StateSnapshot N
    → (request : String) → Action
    → Type 0
IsAdmittedAction {N} a s snapshot request act =
    ((gpu : ℕ) × (act.kind ≡ Kind.place) × (act.model ≡ request) × (act.gpu ≡ some gpu))
    ⊎ ((a.actions.enabled ≡ true)
        × ((act.kind ≡ Kind.sleep) ⊎ (act.kind ≡ Kind.stop))
        × All
            (λ (m : ModelState N).
              m.name ≡ act.model → concerned request m ≡ true → IsMovable a s snapshot m)
            snapshot.models)

module _ {N : Type 0} ⦃F : Float N⦄ (a : Admission N) (snapshot : StateSnapshot N)
    (request : ModelState N) where
  -- Host memory keeps its floor when the model and the starts before it have their weights.
  abbrev pub HasHeadroom : Type 0
  HasHeadroom =
      (pending : N) × (pending_weights a snapshot.leases (F.of_nat 0) ≡ inr pending)
      × (F.lt
            (F.minus
              (F.minus (amount snapshot.memory.host_available_gb) (amount request.weights_gb))
              pending)
            snapshot.memory.host_min_available_gb
          ≡ false)

  headroom-lem : headroom a snapshot request ≡ none → HasHeadroom
  unfolding headroom
  headroom-lem =
      if_ind (λ (o : Option (Blocker N)). o ≡ none → HasHeadroom)
        (not (known_number snapshot.memory.host_available_gb && known_number request.weights_gb))
        (λ _ h. absurd cc) (λ _. go (pending_weights a snapshot.leases (F.of_nat 0)) refl)
    where
      go :
          (found : String ⊎ N)
          → pending_weights a snapshot.leases (F.of_nat 0) ≡ found
          → (elim found [
            | inl model ↦ some (blocker {N = N} (some model) "unknown_memory" none)
            | inr pending ↦
                if F.lt
                  (F.minus
                    (F.minus (amount snapshot.memory.host_available_gb) (amount request.weights_gb))
                    pending)
                  snapshot.memory.host_min_available_gb
                then some (blocker {N = N} (some request.name) "host_memory_floor" none)
                else none
          ])
            ≡ none
          → HasHeadroom
      go (inl model) e = λ h. absurd cc
      go (inr pending) e =
          if_ind (λ (o : Option (Blocker N)). o ≡ none → HasHeadroom) _ (λ _ h. absurd cc)
            (λ n _. (pending, e, n))

module _ {N : Type 0} ⦃F : Float N⦄ (a : Admission N) (s : IntentStore N)
    (snapshot : StateSnapshot N) (request : ModelState N) where
  pub record IsAdmitted (d : PlacementDecision N) : Type 0 where
    pub unclaimed : fault s request.name ≡ none
    pub fresh : is_fresh a.context snapshot ≡ true
    pub headroom : HasHeadroom a snapshot request
    pub actions : All (IsAdmittedAction a s snapshot request.name) d.actions

module _ {N : Type 0} ⦃F : Float N⦄ where
  raised-name :
      (request : ModelState N) (claim : Option (RecoveryClaim N))
      → (raised request claim).name ≡ request.name
  raised-name request none = refl
  raised-name request (some claim) = refl

  raised-weights_gb :
      (request : ModelState N) (claim : Option (RecoveryClaim N))
      → (raised request claim).weights_gb ≡ request.weights_gb
  raised-weights_gb request none = refl
  raised-weights_gb request (some claim) = refl

  module _ (a : Admission N) (s : IntentStore N) (snapshot : StateSnapshot N)
      (request : ModelState N) (waiting : Bool) (claim : Option (RecoveryClaim N)) where
    abbrev guarded : Dict String
    guarded = guard_each a s snapshot request.name snapshot.models []

    abbrev Gentle : Action → Type 0
    Gentle act =
        IsGentle (protected a snapshot) (raised request claim) (settings_for a claim) guarded
          (gpu_exclusions claim) act

    admitted_action :
        (act : Action)
        → Gentle act
        → (not (is_place act) ≡ true → a.actions.enabled ≡ true)
        → IsAdmittedAction a s snapshot request.name act
    admitted_action act (inl (gpu, same)) enabled = inl (
      gpu,
      ap (λ (x : Action). x.kind) same,
      ap (λ (x : Action). x.model) same ∙ raised-name request claim,
      ap (λ (x : Action). x.gpu) same,
    )
    admitted_action act (inr safe) enabled = inr (
      enabled (releases_not_place act safe.releases),
      safe.releases,
      guard_each-IsMovable a s snapshot request.name act.model snapshot.models []
          safe.idle.eligible,
    )

    admitted_each :
        (acts : List Action)
        → All Gentle acts
        → All (λ act. not (is_place act) ≡ true → a.actions.enabled ≡ true) acts
        → All (IsAdmittedAction a s snapshot request.name) acts
    admitted_each [] g e = tt
    admitted_each (act ∷ acts) g e = (admitted_action act g.0 e.0, admitted_each acts g.1 e.1)

    abbrev IsGood : Verdict N → Type 0
    IsGood v =
        (d : PlacementDecision N)
        → v.0 ≡ some d
        → HasHeadroom a snapshot request
          × All (IsAdmittedAction a s snapshot request.name) d.actions

    admit_with-IsGood : OnOk IsGood (admit_with a s snapshot request waiting claim)
    unfolding admit_with
    admit_with-IsGood = elim (Option-cases (headroom a snapshot (raised request claim))) [
      | inr (b, e) ↦ rw (e, admit_with) (λ d h. absurd cc)
      | inl e ↦
          rw (e, admit_with)
            (OnOk-bind IsGood
              (plan_placement (protected a snapshot) (raised request claim) waiting
                (settings_for a claim) guarded (gpu_exclusions claim))
              _
              (λ d planned.
                if_ind IsGood (evicts d.actions && not a.actions.enabled) (λ _ d' h. absurd cc)
                  (λ n d' h. (
                    subst
                        (λ (w : Option N).
                          (pending : N) × (pending_weights a snapshot.leases (F.of_nat 0)
                            ≡ inr pending)
                          × (F.lt
                                (F.minus
                                  (F.minus (amount snapshot.memory.host_available_gb) (amount w))
                                  pending)
                                snapshot.memory.host_min_available_gb
                              ≡ false))
                        (raised-weights_gb request claim)
                        (headroom-lem a snapshot (raised request claim) e),
                    subst
                        (λ (x : PlacementDecision N).
                          All (IsAdmittedAction a s snapshot request.name) x.actions)
                        (some-injective _ _ h)
                        (admitted_each d.actions
                          (plan_placement-IsGentle (protected a snapshot) (raised request claim)
                            (settings_for a claim) guarded (gpu_exclusions claim) waiting d planned)
                          (enabled_for a.actions.enabled d.actions n)),
                  ))))
    ]

  module _ (a : Admission N) (s : IntentStore N) (snapshot : StateSnapshot N)
      (request : ModelState N) (waiting : Bool) where
    abbrev Admitted : Verdict N → Type 0
    Admitted v = (d : PlacementDecision N) → v.0 ≡ some d → IsAdmitted a s snapshot request d

    -- What the recovery worker answers
    on_claim-Admitted :
        (answer : String ⊎ Option (RecoveryClaim N))
        → fault s request.name ≡ none
        → is_fresh a.context snapshot ≡ true
        → OnOk Admitted (elim answer [
          | inl reason ↦ turned_down request reason
          | inr claim ↦ admit_with a s snapshot request waiting claim
        ])
    on_claim-Admitted (inl reason) free fresh = λ d h. absurd cc
    on_claim-Admitted (inr claim) free fresh =
        OnOk-map (IsGood a s snapshot request waiting claim) Admitted
          (λ v good d h.
            let (room, acts) = good d h in
            record { unclaimed = free; fresh = fresh; headroom = room; actions = acts })
          _ (admit_with-IsGood a s snapshot request waiting claim)

    on_catalog-Admitted :
        (found : Option String)
        → OnOk Admitted (elim found [
          | some reason ↦ turned_down request reason
          | none ↦
              if is_some (fault s request.name)
              then turned_down request "fault_recovery_pending"
              else if not (is_fresh a.context snapshot)
              then turned_down request "unknown_or_stale_snapshot"
              else elim (recovery_context a s request.name) [
                | inl reason ↦ turned_down request reason
                | inr claim ↦ admit_with a s snapshot request waiting claim
              ]
        ])
    on_catalog-Admitted (some reason) = λ d h. absurd cc
    on_catalog-Admitted none =
        if_ind (OnOk Admitted) (is_some (fault s request.name)) (λ _ d h. absurd cc)
          (λ free.
            if_ind (OnOk Admitted) (not (is_fresh a.context snapshot)) (λ _ d h. absurd cc)
              (λ fresh.
                on_claim-Admitted (recovery_context a s request.name) (no_fault free)
                  (ground arith)))
      where
        no_fault : is_some (fault s request.name) ≡ false → fault s request.name ≡ none
        no_fault e = elim (Option-cases (fault s request.name)) [
          | inl f ↦ f
          | inr (x, f) ↦ absurd (ground arith)
        ]

    decision-Admitted : OnOk Admitted (decision a s snapshot request waiting)
    unfolding decision
    decision-Admitted = on_catalog-Admitted a.context.catalog_reason

    pub decision-IsAdmitted :
        (d : PlacementDecision N) (v : Verdict N)
        → decision a s snapshot request waiting ≡ ok v
        → v.0 ≡ some d
        → IsAdmitted a s snapshot request d
    decision-IsAdmitted d v e h = OnOk-eq Admitted _ v decision-Admitted e d h
