-- ===== src/Store/Table.antt =====
-- llmsvc/store.py: what reads of the tables find after their writes.
use llm_service_manager.Prelude.{
  String, ◌≡◌, ◌≢◌, refl, Bool, true, false, none, some, List, [], ◌∷◌, ◌++◌, str_eq, eq_iff, arith,
}
use llm_service_manager.Prelude.Tests.{if_ind}
use llm_service_manager.Prelude.Lists.{find?, All}
use llm_service_manager.Store.Rows.{
  LeaseRow, FaultClaim, RecoveryClaim, is_outstanding, has_id, set_status,
}
use llm_service_manager.Store.Leases.{put_recovery}
use llm_service_manager.Store.Faults.{put_fault}

module _ {ℓ} {A : Type ℓ} (p : A → Bool) where
  pub find?-append : (xs ys : List A) (x : A) → find? p xs ≡ some x → find? p (xs ++ ys) ≡ some x
  find?-append [] ys x e = absurd cc
  find?-append (y ∷ xs) ys x e = ground (arith, find?-append xs ys x)

  pub find?-holds : (xs : List A) (x : A) → find? p xs ≡ some x → p x ≡ true
  find?-holds [] x e = absurd cc
  find?-holds (y ∷ xs) x e = ground (arith, find?-holds xs x)

  pub find?-none : (xs : List A) → find? p xs ≡ none → All (λ x. p x ≡ false) xs
  find?-none [] e = tt
  find?-none (y ∷ xs) e = ground (arith, find?-none xs)

  pub find?-All {κ} : (P : A → Type κ) (xs : List A) (x : A) → All P xs → find? p xs ≡ some x → P x
  find?-All P [] x h e = absurd cc
  find?-All P (y ∷ xs) x h e = ground (arith, find?-All P xs x)

module _ {N : Type 0} where
  pub put_fault-All {κ} :
      (P : FaultClaim N → Type κ) (c : FaultClaim N) (xs : List (FaultClaim N))
      → All (λ x. x.lease_id ≢ c.lease_id → P x) xs
      → P c
      → All P (put_fault c xs)
  unfolding put_fault
  put_fault-All P c [] h k = tt
  put_fault-All P c (x ∷ xs) h k =
      let rest = put_fault-All P c xs h.1 k in
      if_ind (All P) (str_eq x.lease_id c.lease_id) (λ e. (k, rest))
        (λ e. (h.0 (λ same. ground (arith, eq_iff x.lease_id c.lease_id)), rest))

  pub put_recovery-All {κ} :
      (P : RecoveryClaim N → Type κ) (c : RecoveryClaim N) (xs : List (RecoveryClaim N))
      → All P xs
      → P c
      → All P (put_recovery c xs)
  unfolding put_recovery
  put_recovery-All P c [] h k = tt
  put_recovery-All P c (x ∷ xs) h k = ground (arith, put_recovery-All P c xs)

  -- A write of another row does not show.
  pub set_status-other :
      (j id status : String) (rows : List (LeaseRow N))
      → j ≢ id
      → find? (has_id j) (set_status id status rows) ≡ find? (has_id j) rows
  unfolding set_status
  set_status-other j id status [] d = refl
  set_status-other j id status (r ∷ rows) d = ground (
    arith,
    set_status-other j id status rows,
    eq_iff r.lease.lease_id id,
    eq_iff r.lease.lease_id j,
  )

  pub set_status-same :
      (id status : String) (rows : List (LeaseRow N)) (r : LeaseRow N)
      → find? (has_id id) rows ≡ some r
      → find? (has_id id) (set_status id status rows)
        ≡ some (record r { lease = record r.lease { status = status } })
  unfolding set_status
  set_status-same id status [] r e = absurd cc
  set_status-same id status (q ∷ rows) r e = ground (arith, set_status-same id status rows r)

  -- Two rows differ in their ids, and in their models if both are outstanding.
  pub record Apart (a b : LeaseRow N) : Type 0 where
    pub ids : a.lease.lease_id ≢ b.lease.lease_id
    pub models : is_outstanding a ≡ true → is_outstanding b ≡ true → a.lease.model ≢ b.lease.model

  abbrev pub IsSingle : List (LeaseRow N) → Type 0
  IsSingle [] = Unit
  IsSingle (r ∷ rows) = All (Apart r) rows × IsSingle rows
