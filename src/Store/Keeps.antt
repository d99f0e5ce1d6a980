-- ===== src/Store/Keeps.antt =====
-- llmsvc/store.py: what a change of the lease table keeps.
use llm_service_manager.Prelude.{
  String, ◌≡◌, sym, ◌∙◌, subst, inl, inr, true, false, none, some, List, [], ◌∷◌, ◌++◌, str_eq,
  eq_iff, arith,
}
use llm_service_manager.Prelude.Tests.{Bool-cases}
use llm_service_manager.Prelude.Lists.{find?, All, All-map}
use llm_service_manager.Store.Rows.{
  LeaseRow, FaultClaim, active_fault_of, is_outstanding, has_id, set_status,
}
use llm_service_manager.Store.Table.{find?-append, find?-none, set_status-other}
use llm_service_manager.Store.Life.{Holds}

module _ {N : Type 0} where
  -- A row that is released never changes again.
  abbrev pub IsFinal : (rows rows' : List (LeaseRow N)) → Type 0
  IsFinal rows rows' =
      (id : String) (r : LeaseRow N)
      → find? (has_id id) rows ≡ some r
      → r.lease.status ≡ "released"
      → find? (has_id id) rows' ≡ some r

  pub append-IsFinal : (rows more : List (LeaseRow N)) → IsFinal rows (rows ++ more)
  append-IsFinal rows more id r e _ = find?-append (has_id id) rows more r e

  pub append-Holds :
      (rows more : List (LeaseRow N)) (cs : List (FaultClaim N))
      → All (Holds rows) cs
      → All (Holds (rows ++ more)) cs
  append-Holds rows more cs h =
      All-map (Holds rows) (Holds (rows ++ more)) cs
        (λ c held active.
          let (r, found, model, status) = held active in
          (r, find?-append (has_id c.lease_id) rows more r found, model, status))
        h

  -- A write of a row that is outstanding
  module _ (id status : String) (row : LeaseRow N) (rows : List (LeaseRow N))
      (found : find? (has_id id) rows ≡ some row) where
    pub write-IsFinal : is_outstanding row ≡ true → IsFinal rows (set_status id status rows)
    write-IsFinal o j r e done = elim (Bool-cases (str_eq j id)) [
      | inr d ↦ set_status-other j id status rows (λ same. ground (arith, eq_iff j id)) ∙ e
      | inl d ↦
          let same : j ≡ id = (eq_iff j id).0 d in
          let twice : some row ≡ some r =
            sym found ∙ subst (λ i. find? (has_id i) rows ≡ some r) same e in
          absurd (ground (arith, eq_iff r.lease.status "released"))
    ]

    -- No pending fault is for the model of the row.
    pub write-Holds :
        (c : FaultClaim N)
        → active_fault_of row.lease.model c ≡ false
        → Holds rows c
        → Holds (set_status id status rows) c
    write-Holds c free held active = elim (Bool-cases (str_eq c.lease_id id)) [
      | inr d ↦
          let (r, e, model, done) = held active in
          (
            r,
            set_status-other c.lease_id id status rows
                  (λ same. ground (arith, eq_iff c.lease_id id))
                ∙ e,
            model,
            done,
          )
      | inl d ↦
          let same : c.lease_id ≡ id = (eq_iff c.lease_id id).0 d in
          let (r, e, model, _) = held active in
          let twice : some row ≡ some r =
            sym found ∙ subst (λ i. find? (has_id i) rows ≡ some r) same e in
          absurd (ground (arith, eq_iff c.model row.lease.model))
    ]

    pub write_each-Holds :
        (cs : List (FaultClaim N))
        → find? (active_fault_of row.lease.model) cs ≡ none
        → All (Holds rows) cs
        → All (Holds (set_status id status rows)) cs
    write_each-Holds [] free h = tt
    write_each-Holds (c ∷ cs) free h =
        let (this, others) = find?-none (active_fault_of row.lease.model) (c ∷ cs) free in
        (write-Holds c this h.0, write_each-Holds cs (ground arith) h.1)
