-- ===== src/Leases/Finish.antt =====
-- llmsvc/leases.py: `finish`, the confirm and release of one lease, and `_transition`. The sample that
-- `finish` asks for is the one of the context. `in_time` says that the deadline is not over.
use llm_service_manager.Prelude.{
  ℕ, String, ◌≡◌, refl, subst, inl, inr, Bool, true, false, not, ◌&&◌, Option, none, some, str_eq,
  eq_iff, arith,
}
use llm_service_manager.Prelude.Tests.{is_some, Option-cases, if_ind, if◌then◌else◌}
use llm_service_manager.Prelude.Text.{opt_str_eq}
use llm_service_manager.Prelude.Float.{Float}
use llm_service_manager.Prelude.Result.{Result, ok, err}
use llm_service_manager.Store.Rows.{
  IntentStore, LeaseRow, fault, recovery, lease_row, bootstrap_pending,
}
use llm_service_manager.Store.Leases.{transition_lease, recovers_elsewhere}
use llm_service_manager.Leases.Probe.{UnitObservation}
use llm_service_manager.Leases.Observed.{Context, healthy, exited}

pub data Operation : Type 0 where
  confirm release : Operation

abbrev pub is_confirm : Operation → Bool
is_confirm confirm = true
is_confirm release = false

confirm_of : (operation : Operation) → is_confirm operation ≡ true → operation ≡ confirm
confirm_of confirm h = refl
confirm_of release h = absurd cc

release_of : (operation : Operation) → is_confirm operation ≡ false → operation ≡ release
release_of confirm h = absurd cc
release_of release h = refl

-- A `LeaseError` with its HTTP status, another exception, or the status of the lease
pub data Outcome (N : Type 0) : Type 0 where
  refused : (status : ℕ) (error : String) → Outcome N
  failed : (message : String) → Outcome N
  answered : (s : IntentStore N) (status : String) → Outcome N

module _ {N : Type 0} where
  -- `_enabled`: why the controller does nothing
  unfoldable pub disabled : Context N → IntentStore N → Option (ℕ × String)
  disabled c s = elim c.catalog_reason [
    | some reason ↦ some (503, reason)
    | none ↦
        if c.stopping
        then some (503, "scheduler_stopping")
        else if c.read_only
        then some (405, "read_only")
        else if not c.placement_enabled
        then some (405, "operation_not_enabled")
        else if s.read_only
        then some (503, "intent_store_unavailable")
        else if bootstrap_pending s
        then some (503, "bootstrap_reconciliation_required")
        else none
  ]

  -- `_transition`, of which the answer names the status
  unfoldable pub transition : IntentStore N → (lease_id status : String) → Outcome N
  transition s lease_id status = elim (transition_lease s lease_id status false) [
    | err message ↦ failed message
    | ok s' ↦ answered s' status
  ]

module _ {N : Type 0} ⦃F : Float N⦄ (c : Context N) (s : IntentStore N) (operation : Operation)
    (lease_id : String) (o : UnitObservation) where
  -- The evidence that an operation needs
  unfoldable pub conclude : LeaseRow N → Outcome N
  conclude row =
      if is_confirm operation
      then (if healthy c row o
          then transition s lease_id "confirmed"
          else refused 503 "lease_not_ready")
      else (if exited c row o
          then transition s lease_id "released"
          else refused 503 "lease_exit_unconfirmed")

  unfoldable pub finish_row : (in_time : Bool) → LeaseRow N → Outcome N
  finish_row in_time row =
      if is_some (fault s row.lease.model)
      then refused 503 "fault_recovery_pending"
      else if str_eq row.lease.status "released"
      then (if is_confirm operation then refused 409 "lease_revoked" else answered s "released")
      else if recovers_elsewhere row.lease.lease_id (recovery s row.lease.model)
      then refused 503 "sleeping_recovery_pending"
      else if is_confirm operation && str_eq row.lease.status "confirmed"
      then answered s "confirmed"
      else if not (opt_str_eq (some row.unit) (c.units row.lease.model))
      then refused 503 "configured_unit_mismatch"
      else if not in_time
      then refused 503 "lease_observation_timeout"
      else conclude row

  -- `finish`
  unfoldable pub finish : (in_time : Bool) → Outcome N
  finish in_time = elim (disabled c s) [
    | some (status, error) ↦ refused status error
    | none ↦ elim (lease_row s lease_id) [
      | none ↦ refused 404 "unknown_lease"
      | some row ↦ finish_row in_time row
    ]
  ]

module _ {N : Type 0} ⦃F : Float N⦄ (c : Context N) (s : IntentStore N) (operation : Operation)
    (lease_id : String) (o : UnitObservation) where
  -- What an answer stands for: nothing was to do, or the store made the transition on evidence.
  pub data IsWarranted : IntentStore N → String → Type 0 where
    unchanged :
        (row : LeaseRow N) (status : String)
        → lease_row s lease_id ≡ some row
        → row.lease.status ≡ status
        → IsWarranted s status
    confirmed :
        (row : LeaseRow N) (s' : IntentStore N)
        → operation ≡ confirm
        → lease_row s lease_id ≡ some row
        → healthy c row o ≡ true
        → transition_lease s lease_id "confirmed" false ≡ ok s'
        → IsWarranted s' "confirmed"
    released :
        (row : LeaseRow N) (s' : IntentStore N)
        → operation ≡ release
        → lease_row s lease_id ≡ some row
        → exited c row o ≡ true
        → transition_lease s lease_id "released" false ≡ ok s'
        → IsWarranted s' "released"

  abbrev OnAnswer : Outcome N → Type 0
  OnAnswer (refused status error) = Unit
  OnAnswer (failed message) = Unit
  OnAnswer (answered s' status) = IsWarranted s' status

  transition-OnAnswer :
      (status : String)
      → ((s' : IntentStore N)
          → transition_lease s lease_id status false ≡ ok s'
          → IsWarranted s' status)
      → OnAnswer (transition s lease_id status)
  unfolding transition
  transition-OnAnswer status h = go (transition_lease s lease_id status false) refl
    where
      go :
          (r : Result (IntentStore N))
          → transition_lease s lease_id status false ≡ r
          → OnAnswer (elim r [ err message ↦ failed message | ok s' ↦ answered s' status ])
      go (err message) e = tt
      go (ok s') e = h s' e

  conclude-OnAnswer :
      (row : LeaseRow N)
      → lease_row s lease_id ≡ some row
      → OnAnswer (conclude c s operation lease_id o row)
  unfolding conclude
  conclude-OnAnswer row e =
      if_ind OnAnswer (is_confirm operation)
        (λ a.
          if_ind OnAnswer (healthy c row o)
            (λ h.
              transition-OnAnswer "confirmed"
                (λ s' t. IsWarranted.confirmed row s' (confirm_of operation a) e h t))
            (λ _. tt))
        (λ a.
          if_ind OnAnswer (exited c row o)
            (λ h.
              transition-OnAnswer "released"
                (λ s' t. IsWarranted.released row s' (release_of operation a) e h t))
            (λ _. tt))

  finish_row-OnAnswer :
      (in_time : Bool) (row : LeaseRow N)
      → lease_row s lease_id ≡ some row
      → OnAnswer (finish_row c s operation lease_id o in_time row)
  unfolding finish_row
  finish_row-OnAnswer in_time row e =
      if_ind OnAnswer (is_some (fault s row.lease.model)) (λ _. tt)
        (λ _.
          if_ind OnAnswer (str_eq row.lease.status "released")
            (λ done.
              if_ind OnAnswer (is_confirm operation) (λ _. tt)
                (λ _.
                  IsWarranted.unchanged row "released" e
                    ((eq_iff row.lease.status "released").0 done)))
            (λ _.
              if_ind OnAnswer (recovers_elsewhere row.lease.lease_id (recovery s row.lease.model))
                (λ _. tt)
                (λ _.
                  if_ind OnAnswer (is_confirm operation && str_eq row.lease.status "confirmed")
                    (λ done.
                      IsWarranted.unchanged row "confirmed" e
                        ((eq_iff row.lease.status "confirmed").0 (ground arith)))
                    (λ _.
                      if_ind OnAnswer (not (opt_str_eq (some row.unit) (c.units row.lease.model)))
                        (λ _. tt)
                        (λ _.
                          if_ind OnAnswer (not in_time) (λ _. tt)
                            (λ _. conclude-OnAnswer row e))))))

  -- When `finish` answers with a status, the lease had that status before and the store is the same,
  -- or the store made the transition: to confirmed on a fresh sample and a probe that show the unit of
  -- the lease healthy, to released on ones that show it gone.
  pub finish-IsWarranted :
      (in_time : Bool) (s' : IntentStore N) (status : String)
      → finish c s operation lease_id o in_time ≡ answered s' status
      → IsWarranted s' status
  unfolding finish
  finish-IsWarranted in_time s' status = elim (Option-cases (disabled c s)) [
    | inr (reason, e) ↦ rw (e, finish) (λ h. absurd cc)
    | inl e ↦ elim (Option-cases (lease_row s lease_id)) [
      | inl f ↦ rw (e, f, finish) (λ h. absurd cc)
      | inr (row, f) ↦ rw (e, f, finish) (λ h. subst OnAnswer h (finish_row-OnAnswer in_time row f))
    ]
  ]
