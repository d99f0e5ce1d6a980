-- ===== src/Leases/Evidence.antt =====
-- llmsvc/leases.py: the evidence on which `reconcile` gives a lease another status.
use llm_service_manager.Prelude.{
  String, ◌≡◌, refl, Bool, true, not, ◌&&◌, ◌||◌, Option, none, some, [], ◌∷◌, str_eq, eq_iff,
  arith,
}
use llm_service_manager.Prelude.Tests.{if_ind}
use llm_service_manager.Prelude.Text.{contains}
use llm_service_manager.Prelude.Float.{Float}
use llm_service_manager.Store.Rows.{LeaseRow}
use llm_service_manager.Leases.Probe.{UnitObservation}
use llm_service_manager.Leases.Observed.{Context, healthy, exited}
use llm_service_manager.Leases.Reconcile.{has_expired, status_by}

module _ {N : Type 0} ⦃F : Float N⦄ (c : Context N) where
  -- The evidence for a new status: the unit is gone, or it is healthy, or the lease was pending.
  pub record IsEvident (row : LeaseRow N) (o : UnitObservation) (status : String) : Type 0 where
    pub known : contains status ("released" ∷ "confirmed" ∷ "stale" ∷ []) ≡ true
    pub gone : status ≡ "released" → exited c row o ≡ true
    pub runs : status ≡ "confirmed" → healthy c row o ≡ true
    pub waits : status ≡ "stale" → row.lease.status ≡ "pending"

  abbrev pub EvidentSome : LeaseRow N → UnitObservation → Option String → Type 0
  EvidentSome row o none = Unit
  EvidentSome row o (some status) = IsEvident row o status

  pub status_by-IsEvident :
      (recovered : Bool) (o : UnitObservation) (row : LeaseRow N)
      → EvidentSome row o (status_by c recovered o row)
  unfolding status_by
  status_by-IsEvident recovered o row =
      if_ind (EvidentSome row o)
        (((has_expired c row || recovered)
            || contains row.lease.status ("confirmed" ∷ "stale" ∷ []))
          && exited c row o)
        (λ h. record {
          known = refl;
          gone = λ _. ground arith;
          runs = λ e. absurd cc;
          waits = λ e. absurd cc;
        })
        (λ _.
          if_ind (EvidentSome row o) (not (str_eq row.lease.status "confirmed") && healthy c row o)
            (λ h. record {
              known = refl;
              gone = λ e. absurd cc;
              runs = λ _. ground arith;
              waits = λ e. absurd cc;
            })
            (λ _.
              if_ind (EvidentSome row o)
                (str_eq row.lease.status "pending" && (has_expired c row || recovered))
                (λ h. record {
                  known = refl;
                  gone = λ e. absurd cc;
                  runs = λ e. absurd cc;
                  waits = λ _. ground (arith, eq_iff row.lease.status "pending");
                })
                (λ _. tt)))
