-- ===== src/Store/Safety.antt =====
-- llmsvc/store.py: what every method of the store keeps.
use llm_service_manager.Prelude.{
  String, ◌≡◌, refl, sym, subst, Bool, true, false, not, Option, none, some, [], ◌∷◌, arith,
}
use llm_service_manager.Prelude.Tests.{if_ind, is_none}
use llm_service_manager.Prelude.Lists.{All}
use llm_service_manager.Prelude.Float.{Float}
use llm_service_manager.Prelude.Result.{
  Result, ok, guard, OnOk, OnOk-bind, OnOk-all, OnOk-eq, skip, under,
}
use llm_service_manager.State.{Lease}
use llm_service_manager.Store.Rows.{
  IntentStore, LeaseRow, RecoveryClaim, fault, recovery, lease_row, is_outstanding, set_status,
  unless_dry_run, writable, bootstrap_guard, bootstrap_pending,
}
use llm_service_manager.Store.Leases.{
  insert_row, transition_row, transition_checks, transition_lease, write_status, create_checks,
  bootstrap_binds, recovers_elsewhere, insert_bootstrap_lease, create_plain, create_destination,
  create_bound, create_lease, bound_claim, authorizes,
}
use llm_service_manager.Store.Table.{find?-All, put_recovery-All}
use llm_service_manager.Store.Single.{insert_row-IsSingle, move-IsSingle}
use llm_service_manager.Store.Life.{Holds, IsOrdered, IsStore}
use llm_service_manager.Store.Keeps.{
  IsFinal, append-IsFinal, append-Holds, write-IsFinal, write_each-Holds,
}

module _ {N : Type 0} where
  -- What a step of the store guarantees
  pub record IsSafe (s s' : IntentStore N) : Type 0 where
    pub store : IsStore s'
    pub final : IsFinal s.leases s'.leases

  pub same-IsSafe : (s : IntentStore N) → IsStore s → IsSafe s s
  same-IsSafe s h = record { store = h; final = λ id r e _. e }

  pub dry_run-IsSafe :
      (s : IntentStore N) (dry_run : Bool) (write : Result (IntentStore N))
      → IsStore s
      → OnOk (IsSafe s) write
      → OnOk (IsSafe s) (unless_dry_run dry_run s write)
  dry_run-IsSafe s true write h k = same-IsSafe s h
  dry_run-IsSafe s false write h k = k

  -- A new row, with claims that are still in order
  pub insert-IsSafe :
      (s s' : IntentStore N) (row : LeaseRow N)
      → IsStore s
      → insert_row s.leases row ≡ ok s'.leases
      → s'.faults ≡ s.faults
      → All IsOrdered s'.recoveries
      → IsSafe s s'
  insert-IsSafe s s' row h e same ordered =
      let (grown, single) = insert_row-IsSingle s.leases row s'.leases e h.single in
      record {
        store = record {
          single = single;
          held = subst (All (Holds s'.leases)) (sym same) (
              subst (λ rows. All (Holds rows) s.faults) (sym grown)
                (append-Holds s.leases (row ∷ []) s.faults h.held));
          ordered = ordered;
        };
        final = subst (IsFinal s.leases) (sym grown) (append-IsFinal s.leases (row ∷ []));
      }

  -- The row that `transition_lease` writes
  abbrev pub IsFree : IntentStore N → String → Type 0
  IsFree s lease_id =
      (row : LeaseRow N) × (lease_row s lease_id ≡ some row)
      × (is_outstanding row ≡ true)
      × (fault s row.lease.model ≡ none)

  transition_row-IsFree :
      (s : IntentStore N) (lease_id status : String) (found : Option (LeaseRow N))
      → lease_row s lease_id ≡ found
      → OnOk (λ _. IsFree s lease_id) (transition_row s lease_id status found)
  unfolding transition_row
  transition_row-IsFree s lease_id status none e = tt
  transition_row-IsFree s lease_id status (some row) e =
      under (λ _. IsFree s lease_id) (is_outstanding row) _ _
        (λ outstanding.
          under (λ _. IsFree s lease_id) (is_none (fault s row.lease.model)) _ _
            (λ free.
              OnOk-all (λ _. IsFree s lease_id)
                (guard (not (recovers_elsewhere lease_id (recovery s row.lease.model))) _)
                (λ _. (row, e, outstanding, ground arith))))

  -- A status is written to a row that is outstanding and that no fault holds.
  pub move-IsSafe :
      (s : IntentStore N) (lease_id status : String)
      → IsStore s
      → IsFree s lease_id
      → IsSafe s (record s { leases = set_status lease_id status s.leases })
  move-IsSafe s lease_id status h (row, e, outstanding, free) = record {
    store = record {
      single = move-IsSingle lease_id status row s.leases e outstanding h.single;
      held = write_each-Holds lease_id status row s.leases e s.faults free h.held;
      ordered = h.ordered;
    };
    final = write-IsFinal lease_id status row s.leases e outstanding;
  }

  pub transition_lease-IsSafe :
      (s : IntentStore N) (lease_id status : String) (dry_run : Bool)
      → IsStore s
      → OnOk (IsSafe s) (transition_lease s lease_id status dry_run)
  unfolding transition_lease write_status
  transition_lease-IsSafe s lease_id status dry_run h =
      skip (IsSafe s) (transition_checks s lease_id status) _ (
        OnOk-bind (IsSafe s) (transition_row s lease_id status (lease_row s lease_id)) _ (λ _ e.
          dry_run-IsSafe s dry_run _ h (
            skip (IsSafe s) (writable s) _ (
              skip (IsSafe s) (bootstrap_guard s) _ (
                move-IsSafe s lease_id status h (
                  OnOk-eq (λ _. IsFree s lease_id) _ tt
                    (transition_row-IsFree s lease_id status _ refl) e))))))

module _ {N : Type 0} ⦃F : Float N⦄ (s : IntentStore N) (h : IsStore s) (lease : Lease N)
    (unit : String) where
  abbrev row : LeaseRow N
  row = record { lease = lease; unit = unit }

  create_plain-IsSafe : (dry_run : Bool) → OnOk (IsSafe s) (create_plain s lease unit dry_run)
  unfolding create_plain insert_bootstrap_lease
  create_plain-IsSafe dry_run = dry_run-IsSafe s dry_run _ h (
      if_ind (OnOk (IsSafe s)) (bootstrap_pending s)
        (λ _. skip (IsSafe s) (guard (bootstrap_binds s lease unit s.bootstrap) _) _ (
          skip (IsSafe s) (writable s) _ (
            OnOk-bind (IsSafe s) (insert_row s.leases row) _
              (λ rows e. insert-IsSafe s _ row h e refl h.ordered))))
        (λ _. skip (IsSafe s) (writable s) _ (
          skip (IsSafe s) (bootstrap_guard s) _ (
            OnOk-bind (IsSafe s) (insert_row s.leases row) _
              (λ rows e. insert-IsSafe s _ row h e refl h.ordered)))))

  bind-IsOrdered : (c : RecoveryClaim N) → IsOrdered c → IsOrdered (bound_claim c lease.lease_id)
  bind-IsOrdered c o = record {
    stopped = o.stopped;
    stopped_first = o.stopped_first;
    cleaned = o.cleaned;
    cleaned_first = o.cleaned_first;
    woken = o.woken;
  }

  create_bound-IsSafe :
      (dry_run : Bool) (given active : Option (RecoveryClaim N))
      → recovery s lease.model ≡ active
      → OnOk (IsSafe s) (create_bound s lease unit dry_run given active)
  unfolding create_bound create_destination
  create_bound-IsSafe dry_run none none e = create_plain-IsSafe dry_run
  create_bound-IsSafe dry_run (some given) none e = tt
  create_bound-IsSafe dry_run given (some active) e =
      skip (IsSafe s) (guard (authorizes s lease unit given active) _) _ (
        dry_run-IsSafe s dry_run _ h (
          skip (IsSafe s) (writable s) _ (
            OnOk-bind (IsSafe s) (insert_row s.leases row) _ (λ rows inserted.
              insert-IsSafe s _ row h inserted refl (
                put_recovery-All IsOrdered (bound_claim active lease.lease_id) s.recoveries
                  h.ordered
                  (bind-IsOrdered active
                    (find?-All _ IsOrdered s.recoveries active h.ordered e)))))))

  pub create_lease-IsSafe :
      (dry_run : Bool) (given : Option (RecoveryClaim N))
      → OnOk (IsSafe s) (create_lease s lease unit dry_run given)
  unfolding create_lease
  create_lease-IsSafe dry_run given =
      skip (IsSafe s) (create_checks s lease unit) _ (create_bound-IsSafe dry_run given _ refl)
