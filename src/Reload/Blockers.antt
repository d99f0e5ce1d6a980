-- ===== src/Reload/Blockers.antt =====
-- llmsvc/reload.py: `reload_blockers`, which admits a reload with every awake model.
use llm_service_manager.Prelude.{
  zero, suc, String, ◌≡◌, ◌⊎◌, Bool, true, false, not, ◌&&◌, ◌||◌, Option, none, some, List, [],
  ◌∷◌, ◌++◌, map,
}
use llm_service_manager.Prelude.Tests.{is_some, is_false, if◌then◌else◌}
use llm_service_manager.Prelude.Lists.{select, is_empty, All}
use llm_service_manager.Prelude.Text.{Dict, lookup, by_key, contains}
use llm_service_manager.Prelude.Int.{ℤ, pos, negsuc}
use llm_service_manager.Prelude.Float.{Float, max_of, known, amount}
use llm_service_manager.State.{
  StateSnapshot, ModelState, ModelStatus, Activity, Pin, Lease, MemoryState, is_awake, is_asleep,
  is_stopped, is_unknown, is_resident,
}

pub record ReloadBlocker (N : Type 0) : Type 0 where
  pub model : Option String
  pub reason : String
  pub until : Option N
  pub awake_weights_gb : Option N

module _ {N : Type 0} where
  abbrev pub because : Option String → (reason : String) → ReloadBlocker N
  because model reason = record {
    model = model;
    reason = reason;
    until = none;
    awake_weights_gb = none;
  }

module _ {N : Type 0} where
  abbrev pub in_flight_of : Option (Activity N) → Option ℤ
  in_flight_of none = none
  in_flight_of (some item) = item.in_flight

  abbrev pub flight_blockers : (name : String) → Option ℤ → List (ReloadBlocker N)
  flight_blockers name none = because (some name) "activity_unknown" ∷ []
  flight_blockers name (some (negsuc n)) = because (some name) "activity_unknown" ∷ []
  flight_blockers name (some (pos zero)) = []
  flight_blockers name (some (pos (suc n))) = because (some name) "in_flight" ∷ []

  abbrev pub pin_blockers : ModelState N → Option (Pin N) → List (ReloadBlocker N)
  pin_blockers m none = []
  pin_blockers m (some pin) =
      if is_awake m.state
      then record (because (some m.name) "pinned_until") { until = some pin.until } ∷ []
      else []

  abbrev pub is_unsettled : Lease N → Bool
  is_unsettled lease = contains lease.status ("pending" ∷ "stale" ∷ [])

  abbrev pub lease_blockers : List (Lease N) → List (ReloadBlocker N)
  lease_blockers leases =
      map (λ (l : Lease N). because (some l.model) "active_lease") (select is_unsettled leases)

module _ {N : Type 0} ⦃F : Float N⦄ where
  abbrev pub known_amount : Option N → Bool
  known_amount none = false
  known_amount (some x) = known x

  abbrev pub active_pins : StateSnapshot N → (now : N) → Dict (Pin N)
  active_pins s now =
      by_key (λ (p : Pin N). p.model) (select (λ (p : Pin N). F.lt now p.until) s.pins)

  abbrev pub activity_by_model : StateSnapshot N → Dict (Activity N)
  activity_by_model s = by_key (λ (a : Activity N). a.model) s.activity

  -- What the loop appends for one model
  unfoldable pub model_blockers :
      (pins : Dict (Pin N)) (activity : Dict (Activity N)) → ModelState N → List (ReloadBlocker N)
  model_blockers pins activity m =
      (if is_stopped m.state && is_false m.unit_active
        then []
        else flight_blockers m.name (in_flight_of (lookup m.name activity)))
      ++ (if is_unknown m.state then because (some m.name) "state_unknown" ∷ [] else [])
      ++ pin_blockers m (lookup m.name pins)
      ++ (if is_resident m.state && not (known_amount m.weights_gb)
          then because (some m.name) "weights_unknown" ∷ []
          else [])

  unfoldable pub models_blockers :
      (pins : Dict (Pin N)) (activity : Dict (Activity N))
      → List (ModelState N)
      → List (ReloadBlocker N)
  models_blockers pins activity [] = []
  models_blockers pins activity (m ∷ ms) =
      model_blockers pins activity m ++ models_blockers pins activity ms

  -- The weights that the loop adds for the models of a status
  unfoldable pub add_weights : (ModelStatus → Bool) → (total : N) → List (ModelState N) → N
  add_weights test total [] = total
  add_weights test total (m ∷ ms) =
      add_weights test
        (if test m.state && known_amount m.weights_gb
          then F.plus total (amount m.weights_gb)
          else total)
        ms

  abbrev pub weights : (ModelStatus → Bool) → StateSnapshot N → N
  weights test s = add_weights test (F.of_nat 0) s.models

  abbrev pub memory_known : MemoryState N → Bool
  memory_known memory =
      known_amount memory.host_available_gb
      && known_amount memory.sleeping_weights_gb
      && known memory.budget_gb
      && known memory.host_min_available_gb

  abbrev pub over_budget : MemoryState N → (awake sleeping : N) → Bool
  over_budget memory awake sleeping =
      F.lt memory.budget_gb (F.plus (max_of (amount memory.sleeping_weights_gb) sleeping) awake)
      || F.lt (F.minus (amount memory.host_available_gb) awake) memory.host_min_available_gb

  unfoldable pub memory_blockers : MemoryState N → (awake sleeping : N) → List (ReloadBlocker N)
  memory_blockers memory awake sleeping =
      if not (memory_known memory)
      then because none "memory_unknown" ∷ []
      else if over_budget memory awake sleeping
      then record (because none "memory_budget") { awake_weights_gb = some awake } ∷ []
      else []

  abbrev pub is_recent : Option N → (now max_age : N) → Bool
  is_recent none now max_age = false
  is_recent (some at) now max_age =
      F.is_finite at && F.le (F.of_nat 0) (F.minus now at) && F.le (F.minus now at) max_age

  abbrev pub is_unreliable : StateSnapshot N → (now max_age : N) → Bool
  is_unreliable s now max_age = not (is_recent s.sampled_at now max_age) || not (is_empty s.errors)

  -- What the code collects of an observation that it relies on
  abbrev pub observed_blockers : StateSnapshot N → (now : N) → List (ReloadBlocker N)
  observed_blockers s now =
      (if s.read_only then because none "read_only" ∷ [] else [])
      ++ models_blockers (active_pins s now) (activity_by_model s) s.models
      ++ lease_blockers s.leases
      ++ memory_blockers s.memory (weights is_awake s) (weights is_asleep s)

  -- `reload_blockers`
  unfoldable pub reload_blockers : StateSnapshot N → (now max_age : N) → List (ReloadBlocker N)
  reload_blockers s now max_age =
      if is_unreliable s now max_age
      then because none "state_unknown_or_stale" ∷ []
      else observed_blockers s now

  -- A model that a reload may restart: it is stopped and its unit inactive, or nothing is in flight; its
  -- status is known; while awake it has no pin; and if it holds memory, its weight is known.
  pub record IsReady (pins : Dict (Pin N)) (activity : Dict (Activity N)) (m : ModelState N)
      : Type 0 where
    pub idle :
        ((is_stopped m.state && is_false m.unit_active) ≡ true)
        ⊎ (in_flight_of (lookup m.name activity) ≡ some (pos 0))
    pub is_known : is_unknown m.state ≡ false
    pub unpinned : (is_awake m.state && is_some (lookup m.name pins)) ≡ false
    pub weighed : (is_resident m.state && not (known_amount m.weights_gb)) ≡ false

  pub record IsAdmitted (s : StateSnapshot N) (now max_age : N) : Type 0 where
    pub recent : is_recent s.sampled_at now max_age ≡ true
    pub no_error : is_empty s.errors ≡ true
    pub writable : s.read_only ≡ false
    pub ready : All (IsReady (active_pins s now) (activity_by_model s)) s.models
    pub settled : All (λ l. is_unsettled l ≡ false) s.leases
    pub memory_is_known : memory_known s.memory ≡ true
    pub within_budget : over_budget s.memory (weights is_awake s) (weights is_asleep s) ≡ false
