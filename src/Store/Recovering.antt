-- ===== src/Store/Recovering.antt =====
-- llmsvc/store.py: what the claims of recoveries keep.
use llm_service_manager.Prelude.{
  String, ◌≡◌, sym, subst, inl, inr, Bool, true, not, ◌&&◌, ◌||◌, Option, none, List, [], ◌∷◌, ◌++◌,
  str_eq, arith,
}
use llm_service_manager.Prelude.Tests.{Option-cases, if_ind, or_default}
use llm_service_manager.Prelude.Lists.{any, All-append}
use llm_service_manager.Prelude.Float.{Float}
use llm_service_manager.Prelude.Result.{
  ok, guard, OnOk, OnOk-bind, OnOk-all, OnOk-eq, skip, under, last_guard,
}
use llm_service_manager.Store.Rows.{
  IntentStore, LeaseRow, RecoveryClaim, RecoveryStage, fault, active_recovery_of, writable,
  stage_eq, catalog_allows_accounting,
}
use llm_service_manager.Store.Leases.{put_recovery}
use llm_service_manager.Store.Faults.{expected_status}
use llm_service_manager.Store.Recoveries.{
  Progress, check_acknowledgments, check_stop, cleans_in_order, wakes_in_order, check_wake,
  check_identity, check_flags, check_destination, validate_recovery, insert_recovery,
  recovery_checks, claim_recovery, advanced_recovery, progress_checks, is_undisturbed, is_source,
  is_claimed, releases_source, may_complete, write_recovery, advance_recovery,
}
use llm_service_manager.Store.Table.{put_recovery-All}
use llm_service_manager.Store.Single.{release-IsSingle}
use llm_service_manager.Store.Life.{IsOrdered, IsStore}
use llm_service_manager.Store.Keeps.{write_each-Holds}
use llm_service_manager.Store.Safety.{IsSafe, dry_run-IsSafe}
use llm_service_manager.Store.Claims.{Account, Account-found, release-IsFinal}

module _ {N : Type 0} where
  -- What was acknowledged was submitted.
  pub record IsAcknowledged (c : RecoveryClaim N) : Type 0 where
    pub stopped : c.stop_acknowledged ≡ true → c.stop_submitted ≡ true
    pub cleaned : c.proxy_acknowledged ≡ true → c.proxy_submitted ≡ true
    pub woken : c.wake_acknowledged ≡ true → c.wake_submitted ≡ true

  check_acknowledgments-lem :
      (c : RecoveryClaim N) → OnOk (λ _. IsAcknowledged c) (check_acknowledgments c)
  unfolding check_acknowledgments
  check_acknowledgments-lem c =
      under (λ _. IsAcknowledged c) (not (c.stop_acknowledged && not c.stop_submitted)) _ _
        (λ a.
          under (λ _. IsAcknowledged c) (not (c.proxy_acknowledged && not c.proxy_submitted)) _ _
            (λ b.
              last_guard (λ _. IsAcknowledged c) (not (c.wake_acknowledged && not c.wake_submitted))
                _
                (λ d. record {
                  stopped = λ h. ground arith;
                  cleaned = λ h. ground arith;
                  woken = λ h. ground arith;
                })))

  check_flags-IsOrdered : (c : RecoveryClaim N) → OnOk (λ _. IsOrdered c) (check_flags c)
  unfolding check_flags
  check_flags-IsOrdered c =
      OnOk-bind (λ _. IsOrdered c) (check_acknowledgments c) _
        (λ _ e.
          skip (λ _. IsOrdered c) (check_stop c) _
            (under (λ _. IsOrdered c) (cleans_in_order c) _ _
              (λ cleans.
                under (λ _. IsOrdered c) (wakes_in_order c) _ _
                  (λ wakes.
                    OnOk-all (λ _. IsOrdered c) (check_wake c)
                      (λ _.
                        let done =
                          OnOk-eq (λ _. IsAcknowledged c) _ tt (check_acknowledgments-lem c) e in
                        record {
                          stopped = done.stopped;
                          stopped_first = λ h. ground arith;
                          cleaned = done.cleaned;
                          cleaned_first = λ h. ground arith;
                          woken = done.woken;
                        })))))

  insert_recovery-IsSafe :
      (s : IntentStore N) (c : RecoveryClaim N)
      → IsStore s
      → IsOrdered c
      → OnOk (λ rows. IsSafe s (record s { recoveries = rows })) (insert_recovery s.recoveries c)
  unfolding insert_recovery
  insert_recovery-IsSafe s c h ordered =
      skip (λ rows. IsSafe s (record s { recoveries = rows }))
        (guard (not (any (λ (x : RecoveryClaim N). str_eq x.id c.id) s.recoveries)) _) _
        (skip (λ rows. IsSafe s (record s { recoveries = rows }))
          (guard (not (any (active_recovery_of c.model) s.recoveries)) _)
          (ok (s.recoveries ++ c ∷ []))
          (record {
            store = record {
              single = h.single;
              held = h.held;
              ordered = All-append IsOrdered s.recoveries (c ∷ []) h.ordered (ordered, tt);
            };
            final = λ id q found _. found;
          }))

  -- The commit of an undisturbed recovery
  write_recovery-IsSafe :
      (s : IntentStore N) (old new : RecoveryClaim N)
      → IsStore s
      → IsOrdered new
      → fault s old.model ≡ none
      → Account s.leases old.source_lease_id old.model (expected_status (is_claimed old))
      → OnOk (IsSafe s) (write_recovery s old new)
  unfolding write_recovery
  write_recovery-IsSafe s old new h ordered free (r, found, model, status) =
      let recovered = put_recovery-All IsOrdered new s.recoveries h.ordered ordered in
      skip (IsSafe s) (writable s) _ (
        if_ind
          (λ (rows : List (LeaseRow N)).
            IsSafe s (record s { leases = rows; recoveries = put_recovery new s.recoveries }))
          (releases_source old new.stage)
          (λ e.
            let claimed : is_claimed old ≡ true = ground arith in
            record {
              store = record {
                single = release-IsSingle old.source_lease_id s.leases h.single;
                held =
                    write_each-Holds old.source_lease_id "released" r s.leases found s.faults
                      (subst (λ (m : String). fault s m ≡ none) (sym model) free) h.held;
                ordered = recovered;
              };
              final =
                  release-IsFinal old.source_lease_id r s.leases found
                    (subst (λ (b : Bool). r.lease.status ≡ expected_status b) claimed status);
            })
          (λ _. record {
            store = record { single = h.single; held = h.held; ordered = recovered };
            final = λ id q there _. there;
          }))

module _ {N : Type 0} ⦃F : Float N⦄ where
  validate_recovery-IsOrdered :
      (c : RecoveryClaim N) → OnOk (λ _. IsOrdered c) (validate_recovery c)
  unfolding validate_recovery
  validate_recovery-IsOrdered c =
      skip (λ _. IsOrdered c) (check_identity c) _
        (OnOk-bind (λ _. IsOrdered c) (check_flags c) _
          (λ _ e.
            OnOk-all (λ _. IsOrdered c) (check_destination c)
              (λ _. OnOk-eq (λ _. IsOrdered c) _ tt (check_flags-IsOrdered c) e)))

  module _ (s : IntentStore N) (h : IsStore s) (c : RecoveryClaim N) where
    pub claim_recovery-IsSafe : (dry_run : Bool) → OnOk (IsSafe s) (claim_recovery s c dry_run)
    unfolding claim_recovery
    claim_recovery-IsSafe dry_run = OnOk-bind (IsSafe s) (validate_recovery c) _ (λ _ valid.
        skip (IsSafe s) (recovery_checks s c) _ (
          dry_run-IsSafe s dry_run _ h (
            skip (IsSafe s) (writable s) _ (
              OnOk-bind (IsSafe s) (insert_recovery s.recoveries c) _ (λ rows e.
                OnOk-eq (λ rows. IsSafe s (record s { recoveries = rows })) _ rows
                  (insert_recovery-IsSafe s c h
                    (OnOk-eq (λ _. IsOrdered c) _ tt (validate_recovery-IsOrdered c) valid))
                  e)))))

    pub source-Account :
        is_source s c ≡ true
        → Account s.leases c.source_lease_id c.model (expected_status (is_claimed c))
    unfolding is_source
    source-Account e = Account-found s.leases c.source_lease_id c.model c.source_gpu c.unit _ e

    pub advance_recovery-IsSafe :
        (stage : Option RecoveryStage) (error : Option String) (dry_run : Bool)
        (invocation : Option String) (progress : Progress)
        → OnOk (IsSafe s) (advance_recovery s c stage error dry_run invocation progress)
    unfolding advance_recovery
    advance_recovery-IsSafe stage error dry_run invocation progress =
        let stage' = or_default c.stage stage in
        let updated = advanced_recovery c stage' error invocation progress in
        skip (IsSafe s) (progress_checks c stage' invocation progress) _ (
          OnOk-bind (IsSafe s) (validate_recovery updated) _ (λ _ valid.
            skip (IsSafe s) (catalog_allows_accounting s) _ (
              under (IsSafe s) (is_undisturbed s c) _ _ (λ undisturbed.
                under (IsSafe s) (is_source s c) _ _ (λ source.
                  skip (IsSafe s)
                    (guard (not (stage_eq stage' RecoveryStage.complete) || may_complete s c error)
                      _)
                    _
                    (dry_run-IsSafe s dry_run _ h (
                      write_recovery-IsSafe s c updated h
                        (OnOk-eq (λ _. IsOrdered updated) _ tt (validate_recovery-IsOrdered updated)
                          valid)
                        (no_fault undisturbed) (source-Account source))))))))
      where
        no_fault : is_undisturbed s c ≡ true → fault s c.model ≡ none
        no_fault e = elim (Option-cases (fault s c.model)) [
          | inl f ↦ f
          | inr (x, f) ↦ absurd (ground arith)
        ]
