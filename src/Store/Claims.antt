-- ===== src/Store/Claims.antt =====
-- llmsvc/store.py: what the claims of faults and recoveries keep.
use llm_service_manager.Prelude.{
  ℕ, String, ◌≡◌, ◌≢◌, refl, sym, ap, ◌∙◌, subst, Bool, true, false, not, ◌&&◌, Option, none, some,
  List, [], ◌∷◌, ◌++◌, str_eq, eq_iff, arith,
}
use llm_service_manager.Prelude.Tests.{if_ind}
use llm_service_manager.Prelude.Lists.{any, find?, All, All-append, All-map}
use llm_service_manager.Prelude.Float.{Float}
use llm_service_manager.Prelude.Result.{ok, guard, OnOk, OnOk-bind, OnOk-all, OnOk-eq, skip, under}
use llm_service_manager.Store.Rows.{
  IntentStore, LeaseRow, FaultClaim, FaultStage, has_id, active_fault_of, set_status, writable,
  fault_is_active, fault_is_claimed, fault_stage_eq,
}
use llm_service_manager.Store.Faults.{
  account_is, status_is, expected_status, is_account_with, insert_fault, put_fault, may_advance,
  field_checks, is_initial_fault, claim_checks, claim_fault, advance_checks, advanced_fault,
  write_fault, advance_fault, releases,
}
use llm_service_manager.Store.Table.{put_fault-All, set_status-other, set_status-same}
use llm_service_manager.Store.Single.{release-IsSingle}
use llm_service_manager.Store.Life.{Holds, IsStore}
use llm_service_manager.Store.Keeps.{IsFinal, write-IsFinal}
use llm_service_manager.Store.Safety.{IsSafe, dry_run-IsSafe}

-- The stages that a claim may be advanced to keep what it says of its account.
stays :
    (old new : FaultStage)
    → may_advance old new ≡ true
    → (fault_is_claimed old && fault_stage_eq new FaultStage.released) ≡ false
    → fault_is_active new ≡ true
    → fault_is_claimed new ≡ fault_is_claimed old
stays FaultStage.claimed FaultStage.claimed m r a = refl
stays FaultStage.claimed FaultStage.released m r a = absurd cc
stays FaultStage.claimed FaultStage.complete m r a = absurd cc
stays FaultStage.released FaultStage.claimed m r a = absurd cc
stays FaultStage.released FaultStage.released m r a = refl
stays FaultStage.released FaultStage.complete m r a = absurd cc
stays FaultStage.complete FaultStage.claimed m r a = absurd cc
stays FaultStage.complete FaultStage.released m r a = absurd cc
stays FaultStage.complete FaultStage.complete m r a = refl

module _ {N : Type 0} where
  -- The row of an account, once a check has found it
  abbrev pub Account : List (LeaseRow N) → (lease_id model status : String) → Type 0
  Account rows lease_id model status =
      (r : LeaseRow N) × (find? (has_id lease_id) rows ≡ some r)
      × (r.lease.model ≡ model)
      × (r.lease.status ≡ status)

  pub Account-found :
      (rows : List (LeaseRow N)) (lease_id model : String) (gpu : ℕ) (unit status : String)
      → (account_is model gpu unit (find? (has_id lease_id) rows)
          && status_is status (find? (has_id lease_id) rows))
        ≡ true
      → Account rows lease_id model status
  Account-found rows lease_id model gpu unit status h = go (find? (has_id lease_id) rows) refl h
    where
      go :
          (found : Option (LeaseRow N))
          → find? (has_id lease_id) rows ≡ found
          → (account_is model gpu unit found && status_is status found) ≡ true
          → Account rows lease_id model status
      go none e h = absurd cc
      go (some r) e h = (
        r,
        e,
        ground (arith, eq_iff r.lease.model model),
        ground (arith, eq_iff r.lease.status status),
      )

  -- A row that is not the account of a pending fault becomes released.
  pub release-IsFinal :
      (id : String) (r : LeaseRow N) (rows : List (LeaseRow N))
      → find? (has_id id) rows ≡ some r
      → r.lease.status ≡ "confirmed"
      → IsFinal rows (set_status id "released" rows)
  release-IsFinal id r rows e confirmed =
      write-IsFinal id "released" r rows e
        (subst (λ (t : String). not (str_eq t "released") ≡ true) (sym confirmed) refl)

  insert_fault-IsSafe :
      (s : IntentStore N) (c : FaultClaim N) (rows : List (FaultClaim N))
      → IsStore s
      → Account s.leases c.lease_id c.model "confirmed"
      → fault_is_claimed c.stage ≡ true
      → insert_fault s.faults c ≡ ok rows
      → IsSafe s (record s { faults = rows })
  unfolding insert_fault
  insert_fault-IsSafe s c rows h (r, e, model, status) claimed =
      OnOk-eq (λ (rows : List (FaultClaim N)). IsSafe s (record s { faults = rows })) _ rows
        (skip (λ (rows : List (FaultClaim N)). IsSafe s (record s { faults = rows }))
          (guard (not (any (λ (x : FaultClaim N). str_eq x.lease_id c.lease_id) s.faults)) _) _
          (skip (λ (rows : List (FaultClaim N)). IsSafe s (record s { faults = rows }))
            (guard (not (any (active_fault_of c.model) s.faults)) _) (ok (s.faults ++ c ∷ []))
            (record {
              store = record {
                single = h.single;
                held =
                    All-append (Holds s.leases) s.faults (c ∷ []) h.held
                      ((λ _. (r, e, model, ground arith)), tt);
                ordered = h.ordered;
              };
              final = λ id q found _. found;
            })))

  put_fault-Holds :
      (s : IntentStore N) (new : FaultClaim N) (rows : List (LeaseRow N))
      → IsStore s
      → ((x : FaultClaim N)
          → x.lease_id ≢ new.lease_id
          → find? (has_id x.lease_id) rows ≡ find? (has_id x.lease_id) s.leases)
      → Holds rows new
      → All (Holds rows) (put_fault new s.faults)
  put_fault-Holds s new rows h same held =
      put_fault-All (Holds rows) new s.faults
        (All-map (Holds s.leases) (λ (x : FaultClaim N). x.lease_id ≢ new.lease_id → Holds rows x)
          s.faults
          (λ x old d active.
            let (r, e, model, status) = old active in (r, same x d ∙ e, model, status))
          h.held)
        held

  module _ (s : IntentStore N) (old new : FaultClaim N) (h : IsStore s)
      (id : new.lease_id ≡ old.lease_id) (of : new.model ≡ old.model)
      (account : Account s.leases old.lease_id old.model
        (expected_status (fault_is_claimed old.stage))) where
    abbrev Written : List (LeaseRow N) → Type 0
    Written rows = IsSafe s (record s { leases = rows; faults = put_fault new s.faults })

    releasing-Written :
        releases old new.stage ≡ true → Written (set_status old.lease_id "released" s.leases)
    releasing-Written e =
        let (r, found, model, status) = account in
        let freed : LeaseRow N = record r { lease = record r.lease { status = "released" } } in
        let claimed : fault_is_claimed old.stage ≡ true = ground arith in
        let confirmed : r.lease.status ≡ "confirmed" = status ∙ ap expected_status claimed in
        record {
          store = record {
            single = release-IsSingle old.lease_id s.leases h.single;
            held =
                put_fault-Holds s new (set_status old.lease_id "released" s.leases) h
                  (λ x d.
                    set_status-other x.lease_id old.lease_id "released" s.leases
                      (λ a. d (a ∙ sym id)))
                  (λ _. (
                    freed,
                    subst
                        (λ j.
                          find? (has_id j) (set_status old.lease_id "released" s.leases)
                          ≡ some freed)
                        (sym id) (set_status-same old.lease_id "released" s.leases r found),
                    model ∙ sym of,
                    ap expected_status (sym (released_stage new.stage (ground arith))),
                  ));
            ordered = h.ordered;
          };
          final = release-IsFinal old.lease_id r s.leases found confirmed;
        }
      where
        released_stage :
            (stage : FaultStage)
            → fault_stage_eq stage FaultStage.released ≡ true
            → fault_is_claimed stage ≡ false
        released_stage FaultStage.claimed e = cc
        released_stage FaultStage.released e = refl
        released_stage FaultStage.complete e = refl

    keeping-Written :
        may_advance old.stage new.stage ≡ true → releases old new.stage ≡ false → Written s.leases
    keeping-Written may e =
        let (r, found, model, status) = account in
        record {
          store = record {
            single = h.single;
            held =
                put_fault-Holds s new s.leases h (λ x d. refl)
                  (λ active. (
                    r,
                    subst (λ j. find? (has_id j) s.leases ≡ some r) (sym id) found,
                    model ∙ sym of,
                    status ∙ ap expected_status (sym (stays old.stage new.stage may e active)),
                  ));
            ordered = h.ordered;
          };
          final = λ j q there _. there;
        }

    write_fault-IsSafe :
        may_advance old.stage new.stage ≡ true → OnOk (IsSafe s) (write_fault s old new)
    unfolding write_fault
    write_fault-IsSafe may =
        skip (IsSafe s) (writable s) _
          (if_ind Written (releases old new.stage) releasing-Written (keeping-Written may))

module _ {N : Type 0} ⦃F : Float N⦄ (s : IntentStore N) (h : IsStore s) (c : FaultClaim N) where
  pub claimed-Account :
      (status : String)
      → is_account_with s c status ≡ true
      → Account s.leases c.lease_id c.model status
  unfolding is_account_with
  claimed-Account status e = Account-found s.leases c.lease_id c.model c.gpu c.unit status e

  claim_checks-Claimed : OnOk (λ _. fault_is_claimed c.stage ≡ true) (claim_checks s c)
  unfolding claim_checks
  claim_checks-Claimed =
      skip (λ _. fault_is_claimed c.stage ≡ true) (field_checks c) _
        (under (λ _. fault_is_claimed c.stage ≡ true) (is_initial_fault c) _ _
          (λ e. OnOk-all (λ _. fault_is_claimed c.stage ≡ true) _ (λ _. ground arith)))

  pub claim_fault-IsSafe : (dry_run : Bool) → OnOk (IsSafe s) (claim_fault s c dry_run)
  unfolding claim_fault
  claim_fault-IsSafe dry_run = OnOk-bind (IsSafe s) (claim_checks s c) _ (λ _ checked.
      under (IsSafe s) (is_account_with s c "confirmed") _ _ (λ account.
        dry_run-IsSafe s dry_run _ h (
          skip (IsSafe s) (writable s) _ (
            OnOk-bind (IsSafe s) (insert_fault s.faults c) _ (λ rows e.
              insert_fault-IsSafe s c rows h (claimed-Account "confirmed" account)
                (OnOk-eq (λ _. fault_is_claimed c.stage ≡ true) _ tt claim_checks-Claimed checked)
                e)))))

  advance_checks-May :
      (updated : FaultClaim N) (submitted acknowledged : Option Bool)
      → OnOk
          (λ _. may_advance c.stage updated.stage ≡ true)
          (advance_checks s c updated submitted acknowledged)
  unfolding advance_checks
  advance_checks-May updated submitted acknowledged =
      under (λ _. may_advance c.stage updated.stage ≡ true) (may_advance c.stage updated.stage) _ _
        (λ e. OnOk-all (λ _. may_advance c.stage updated.stage ≡ true) _ (λ _. e))

  pub advance_fault-IsSafe :
      (stage : FaultStage) (error : Option String) (dry_run : Bool)
      (submitted acknowledged : Option Bool)
      → OnOk (IsSafe s) (advance_fault s c stage error dry_run submitted acknowledged)
  unfolding advance_fault
  advance_fault-IsSafe stage error dry_run submitted acknowledged =
      let updated = advanced_fault c stage error submitted acknowledged in
      OnOk-bind (IsSafe s) (advance_checks s c updated submitted acknowledged) _ (λ _ checked.
        under (IsSafe s) (is_account_with s c (expected_status (fault_is_claimed c.stage))) _ _
          (λ account. dry_run-IsSafe s dry_run _ h (
            write_fault-IsSafe s c updated h refl refl (claimed-Account _ account) (
              OnOk-eq (λ _. may_advance c.stage stage ≡ true) _ tt
                (advance_checks-May updated submitted acknowledged) checked))))
