-- ===== src/Store/Cleanup.antt =====
-- llmsvc/store.py: what `release_maintenance_lease` keeps.
use llm_service_manager.Prelude.{
  String, ◌≡◌, refl, ap, eq_iff, true, str_eq, not, Option, none, some, arith,
}
use llm_service_manager.Prelude.Float.{Float}
use llm_service_manager.Prelude.Result.{guard, OnOk, OnOk-bind, OnOk-all, OnOk-eq, skip, under}
use llm_service_manager.Prelude.Lists.{select}
use llm_service_manager.Store.Rows.{IntentStore, LeaseRow, lease_row}
use llm_service_manager.Store.Maintenance.{
  Catalog, Maintenance, binds_cleanup, is_captured, is_the_account, cleanup_checks,
  release_maintenance_lease,
}
use llm_service_manager.Store.Life.{IsStore}
use llm_service_manager.Store.Safety.{IsFree, IsSafe, move-IsSafe}

module _ {N : Type 0} ⦃F : Float N⦄ (s : IntentStore N) (catalog : Option Catalog)
    (state : Option (Maintenance N)) (transaction_id lease_id unit : String) where
  cleanup_checks-IsFree :
      (catalog : Option Catalog) (state : Option (Maintenance N)) (found : Option (LeaseRow N))
      → lease_row s lease_id ≡ found
      → OnOk
          (λ _. IsFree s lease_id)
          (cleanup_checks s catalog state transaction_id lease_id unit found)
  unfolding cleanup_checks
  cleanup_checks-IsFree (some catalog) (some state) (some row) e =
      under (λ _. IsFree s lease_id) (binds_cleanup s catalog state transaction_id unit row) _ _
        (λ bound.
          OnOk-all (λ _. IsFree s lease_id)
            (guard (is_the_account (select (is_captured lease_id unit) state.accounts) row) _)
            (λ _.
              let confirmed : row.lease.status ≡ "confirmed" =
                ground (arith, bound, eq_iff row.lease.status "confirmed") in
              let outstanding : not (str_eq row.lease.status "released") ≡ true =
                ap (λ status. not (str_eq status "released")) confirmed in
              (row, e, outstanding, ground (arith, bound))))
  cleanup_checks-IsFree none state found e = tt
  cleanup_checks-IsFree (some catalog) none found e = tt
  cleanup_checks-IsFree (some catalog) (some state) none e = tt

  pub release_maintenance_lease-IsSafe :
      IsStore s
      → OnOk (IsSafe s) (release_maintenance_lease s catalog state transaction_id lease_id unit)
  unfolding release_maintenance_lease
  release_maintenance_lease-IsSafe h = skip (IsSafe s) (guard (not s.read_only) _) _ (
      OnOk-bind (IsSafe s)
        (cleanup_checks s catalog state transaction_id lease_id unit (lease_row s lease_id)) _
        (λ _ e.
          move-IsSafe s lease_id "released" h
            (OnOk-eq (λ _. IsFree s lease_id) _ tt (cleanup_checks-IsFree catalog state _ refl) e)))
