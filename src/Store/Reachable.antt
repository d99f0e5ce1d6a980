-- ===== src/Store/Reachable.antt =====
-- llmsvc/store.py: what holds in every state that the store can reach, and of every later state.
use llm_service_manager.Prelude.{String, ◌≡◌, sym, subst, some, []}
use llm_service_manager.Prelude.Lists.{All}
use llm_service_manager.Prelude.Float.{Float}
use llm_service_manager.Prelude.Result.{OnOk-eq}
use llm_service_manager.Store.Rows.{IntentStore, LeaseRow, lease_row}
use llm_service_manager.Store.Life.{Step, Later, Holds, IsOrdered, IsStore}
use llm_service_manager.Store.Table.{IsSingle}
use llm_service_manager.Store.Safety.{
  IsSafe, same-IsSafe, transition_lease-IsSafe, create_lease-IsSafe,
}
use llm_service_manager.Store.Cleanup.{release_maintenance_lease-IsSafe}
use llm_service_manager.Store.Claims.{claim_fault-IsSafe, advance_fault-IsSafe}
use llm_service_manager.Store.Recovering.{claim_recovery-IsSafe, advance_recovery-IsSafe}

-- No lease and no claim yet
pub record IsEmpty {N : Type 0} (s : IntentStore N) : Type 0 where
  pub leases : s.leases ≡ []
  pub faults : s.faults ≡ []
  pub recoveries : s.recoveries ≡ []

module _ {N : Type 0} ⦃F : Float N⦄ where
  step-IsSafe : (s s' : IntentStore N) → IsStore s → Step s s' → IsSafe s s'
  step-IsSafe s s' h (Step.create lease unit dry_run given _ e) =
      OnOk-eq (IsSafe s) _ s' (create_lease-IsSafe s h lease unit dry_run given) e
  step-IsSafe s s' h (Step.transition lease_id status dry_run _ e) =
      OnOk-eq (IsSafe s) _ s' (transition_lease-IsSafe s lease_id status dry_run h) e
  step-IsSafe s s' h (Step.cleanup catalog state transaction_id lease_id unit _ e) =
      OnOk-eq (IsSafe s) _ s'
        (release_maintenance_lease-IsSafe s catalog state transaction_id lease_id unit h) e
  step-IsSafe s s' h (Step.fault c dry_run _ e) =
      OnOk-eq (IsSafe s) _ s' (claim_fault-IsSafe s h c dry_run) e
  step-IsSafe s s' h (Step.next_fault c stage error dry_run submitted acknowledged _ e) =
      OnOk-eq (IsSafe s) _ s'
        (advance_fault-IsSafe s h c stage error dry_run submitted acknowledged) e
  step-IsSafe s s' h (Step.recover c dry_run _ e) =
      OnOk-eq (IsSafe s) _ s' (claim_recovery-IsSafe s h c dry_run) e
  step-IsSafe s s' h (Step.next_recovery c stage error dry_run invocation progress _ e) =
      OnOk-eq (IsSafe s) _ s'
        (advance_recovery-IsSafe s h c stage error dry_run invocation progress) e
  step-IsSafe s s' h (Step.outside pins reserves bootstrap owned catalog_pending read_only) =
      record {
        store = record { single = h.single; held = h.held; ordered = h.ordered };
        final = λ id r e _. e;
      }

  later-IsSafe : (s s' : IntentStore N) → IsStore s → Later s s' → IsSafe s s'
  later-IsSafe s s' h Later.now = same-IsSafe s h
  later-IsSafe s s' h (Later.after t _ before step) =
      let first = later-IsSafe s t h before in
      let second = step-IsSafe t s' first.store step in
      record {
        store = second.store;
        final = λ id r e done. second.final id r (first.final id r e done) done;
      }

  empty-IsStore : (s : IntentStore N) → IsEmpty s → IsStore s
  empty-IsStore s e = record {
    single = subst IsSingle (sym e.leases) tt;
    held = subst (All (Holds s.leases)) (sym e.faults) tt;
    ordered = subst (All IsOrdered) (sym e.recoveries) tt;
  }

  -- In every store that the methods reach from an empty one, no two outstanding leases are for one
  -- model, every pending fault finds its account confirmed until the claim is released and released
  -- from then on, and every recovery has submitted the cleanup of the proxy only after the
  -- acknowledged stop and the wake only after the acknowledged cleanup.
  pub Later-IsStore : (s s' : IntentStore N) → IsEmpty s → Later s s' → IsStore s'
  Later-IsStore s s' e later = (later-IsSafe s s' (empty-IsStore s e) later).store

  -- A released lease of a store that was reached from an empty one stays as it is in all later states:
  -- no method revives, changes or removes its row.
  pub Later-final :
      (s t u : IntentStore N) (lease_id : String) (r : LeaseRow N)
      → IsEmpty s
      → Later s t
      → Later t u
      → lease_row t lease_id ≡ some r
      → r.lease.status ≡ "released"
      → lease_row u lease_id ≡ some r
  Later-final s t u lease_id r e before later found done =
      (later-IsSafe t u (Later-IsStore s t e before) later).final lease_id r found done
