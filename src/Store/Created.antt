-- ===== src/Store/Created.antt =====
-- llmsvc/store.py: the lease that `create_lease` wrote is the one that is read.
use llm_service_manager.Prelude.{
  String, ◌≡◌, refl, Bool, true, false, not, ◌&&◌, ◌||◌, Option, none, some, List, [], ◌∷◌, ◌++◌,
  str_eq, eq_iff, arith,
}
use llm_service_manager.Prelude.Tests.{if_ind}
use llm_service_manager.Prelude.Lists.{any, find?}
use llm_service_manager.Prelude.Float.{Float}
use llm_service_manager.Prelude.Result.{ok, guard, OnOk, OnOk-bind, OnOk-eq, skip, under, ◌>>=◌}
use llm_service_manager.State.{Lease}
use llm_service_manager.Store.Rows.{
  IntentStore, LeaseRow, RecoveryClaim, recovery, lease_row, is_outstanding, has_id, writable,
  bootstrap_guard, bootstrap_pending,
}
use llm_service_manager.Store.Leases.{
  insert_row, insert_bootstrap_lease, bootstrap_binds, create_plain, create_destination,
  create_bound, create_checks, create_lease, authorizes,
}

find?-last {ℓ} :
    {A : Type ℓ} (p : A → Bool) (xs : List A) (x : A)
    → any p xs ≡ false
    → p x ≡ true
    → find? p (xs ++ x ∷ []) ≡ some x
find?-last p [] x h e = ground arith
find?-last p (y ∷ xs) x h e = ground (arith, find?-last p xs x)

module _ {N : Type 0} (row : LeaseRow N) where
  abbrev Found : List (LeaseRow N) → Type 0
  Found rows = find? (has_id row.lease.lease_id) rows ≡ some row

  insert_row-Found : (rows : List (LeaseRow N)) → OnOk Found (insert_row rows row)
  unfolding insert_row
  insert_row-Found rows = under Found (not (any (has_id row.lease.lease_id) rows)) _ _ (λ fresh.
      skip Found
        (guard
          (not (is_outstanding row)
            || not (any (λ r. is_outstanding r && str_eq r.lease.model row.lease.model) rows))
          _)
        (ok (rows ++ row ∷ []))
        (find?-last (has_id row.lease.lease_id) rows row (ground arith)
          ((eq_iff row.lease.lease_id row.lease.lease_id).1 refl)))

module _ {N : Type 0} ⦃F : Float N⦄ (s : IntentStore N) (lease : Lease N) (unit : String) where
  abbrev row : LeaseRow N
  row = record { lease = lease; unit = unit }

  abbrev Read : IntentStore N → Type 0
  Read s' = lease_row s' lease.lease_id ≡ some row

  inserted-Read :
      (write : List (LeaseRow N) → IntentStore N)
      → ((rows : List (LeaseRow N)) → (write rows).leases ≡ rows)
      → OnOk Read (insert_row s.leases row >>= λ rows. ok (write rows))
  inserted-Read write same = OnOk-bind Read (insert_row s.leases row) _ (λ rows e.
      let found = OnOk-eq (Found row) _ rows (insert_row-Found row s.leases) e in
      rw (same rows) found)

  create_plain-Read : OnOk Read (create_plain s lease unit false)
  unfolding create_plain insert_bootstrap_lease
  create_plain-Read =
      if_ind (OnOk Read) (bootstrap_pending s)
        (λ _.
          skip Read (guard (bootstrap_binds s lease unit s.bootstrap) _) _
            (skip Read (writable s) _ (inserted-Read _ (λ rows. refl))))
        (λ _.
          skip Read (writable s) _
            (skip Read (bootstrap_guard s) _ (inserted-Read _ (λ rows. refl))))

  create_bound-Read :
      (given active : Option (RecoveryClaim N))
      → OnOk Read (create_bound s lease unit false given active)
  unfolding create_bound create_destination
  create_bound-Read none none = create_plain-Read
  create_bound-Read (some given) none = tt
  create_bound-Read given (some active) =
      skip Read (guard (authorizes s lease unit given active) _) _
        (skip Read (writable s) _ (inserted-Read _ (λ rows. refl)))

  -- The lease that was created, for a recovery or not, is read back by its id as it was written.
  pub create_lease-lease_row :
      (given : Option (RecoveryClaim N)) (s' : IntentStore N)
      → create_lease s lease unit false given ≡ ok s'
      → lease_row s' lease.lease_id ≡ some row
  unfolding create_lease
  create_lease-lease_row given s' e =
      OnOk-eq Read _ s'
        (skip Read (create_checks s lease unit) _
          (create_bound-Read given (recovery s lease.model)))
        e
