-- ===== src/Leases/Safety.antt =====
-- llmsvc/leases.py: `reconcile` moves leases on evidence only, and through the store.
use llm_service_manager.Prelude.{
  String, ◌≡◌, refl, subst, ◌⊎◌, inl, inr, Bool, true, false, not, ◌||◌, Option, none, some, List,
  [], ◌∷◌, arith,
}
use llm_service_manager.Prelude.Tests.{if_ind}
use llm_service_manager.Prelude.Text.{opt_str_eq, contains}
use llm_service_manager.Prelude.Float.{Float}
use llm_service_manager.Prelude.Result.{Result, ok, err, OnOk, OnOk-eq, OnOk-map}
use llm_service_manager.Store.Rows.{IntentStore, LeaseRow}
use llm_service_manager.Store.Leases.{transition_lease}
use llm_service_manager.Leases.Probe.{UnitObservation}
use llm_service_manager.Leases.Observed.{Context}
use llm_service_manager.Leases.Reconcile.{
  Alert, Controller, Turn, follow, is_fenced, status_by, settle, visit, visit_each, reconcile,
  rows_of, forget, next_row, alert_of, quiet, raise_alert,
}
use llm_service_manager.Leases.Evidence.{IsEvident, EvidentSome, status_by-IsEvident}

module _ {N : Type 0} ⦃F : Float N⦄ where
  -- The turn reached the decision on its row: no fault or recovery has the row, its unit is the
  -- configured one, and neither the sample nor the row changed since the probe.
  pub record IsCurrent (t : Turn N) (row : LeaseRow N) (s : IntentStore N) : Type 0 where
    pub in_time : t.in_time ≡ true
    pub not_fenced : is_fenced s t.held row ≡ false
    pub unchanged : t.unchanged ≡ true
    pub same_unit : opt_str_eq (some row.unit) (t.context.units row.lease.model) ≡ true
    pub still_in_time : t.still_in_time ≡ true
    pub is_current : t.is_current ≡ true

  -- The turns meet the rows in order, and each leaves the store or moves the lease of its row by one
  -- transition, for which its own sample and its own probe are the evidence.
  pub data Follows : List (Turn N) → List (LeaseRow N) → (s u : IntentStore N) → Type 0 where
    ends :
        {turns : List (Turn N)} {rows : List (LeaseRow N)} {s : IntentStore N}
        → Follows turns rows s s
    leaves :
        {t : Turn N} {turns : List (Turn N)} {row : LeaseRow N} {rows : List (LeaseRow N)}
        {s v : IntentStore N}
        → Follows turns rows s v
        → Follows (t ∷ turns) (row ∷ rows) s v
    moves :
        {t : Turn N} {turns : List (Turn N)} {row : LeaseRow N} {rows : List (LeaseRow N)}
        {s v : IntentStore N} (u : IntentStore N) (status : String)
        → IsCurrent t row s
        → IsEvident t.context row t.observation status
        → transition_lease s row.lease.lease_id status false ≡ ok u
        → Follows turns rows u v
        → Follows (t ∷ turns) (row ∷ rows) s v

  follow-transition :
      (c : Context N) (k : Controller N) (lease_id status : String)
      → OnOk
          (λ (k' : Controller N). transition_lease k.store lease_id status false ≡ ok k'.store)
          (follow c k lease_id status)
  unfolding follow
  follow-transition c k lease_id status = on_catalog c.catalog_reason
    where
      go :
          (r : Result (IntentStore N))
          → transition_lease k.store lease_id status false ≡ r
          → OnOk
              (λ (k' : Controller N). transition_lease k.store lease_id status false ≡ ok k'.store)
              (elim r [ err message ↦ err message | ok u ↦ ok (forget k lease_id u) ])
      go (err message) e = tt
      go (ok u) e = e

      on_catalog :
          (found : Option String)
          → OnOk
              (λ (k' : Controller N). transition_lease k.store lease_id status false ≡ ok k'.store)
              (elim found [
                | some reason ↦ err reason
                | none ↦ elim (transition_lease k.store lease_id status false) [
                  | err message ↦ err message
                  | ok u ↦ ok (forget k lease_id u)
                ]
              ])
      on_catalog (some reason) = tt
      on_catalog none = go (transition_lease k.store lease_id status false) refl

  -- What a turn that reaches its decision does to the store
  abbrev Decides : Context N → UnitObservation → LeaseRow N → (s u : IntentStore N) → Type 0
  Decides c o row s u =
      (u ≡ s)
      ⊎ ((status : String) × IsEvident c row o status
          × (transition_lease s row.lease.lease_id status false ≡ ok u))

  settle-Decides :
      (c : Context N) (k : Controller N) (o : UnitObservation) (row : LeaseRow N)
      → OnOk (λ (k' : Controller N). Decides c o row k.store k'.store) (settle c k o row)
  unfolding settle
  settle-Decides c k o row =
      go (status_by c (contains row.lease.lease_id k.recovered) o row)
        (status_by-IsEvident c (contains row.lease.lease_id k.recovered) o row)
    where
      go :
          (found : Option String)
          → EvidentSome c row o found
          → OnOk
              (λ (k' : Controller N). Decides c o row k.store k'.store)
              (elim found [ none ↦ ok k | some status ↦ follow c k row.lease.lease_id status ])
      go none e = inl refl
      go (some status) e =
          OnOk-map
            (λ (k' : Controller N).
              transition_lease k.store row.lease.lease_id status false ≡ ok k'.store)
            (λ (k' : Controller N). Decides c o row k.store k'.store)
            (λ k' moved. inr (status, e, moved)) (follow c k row.lease.lease_id status)
            (follow-transition c k row.lease.lease_id status)

  -- What any turn does to the store
  abbrev Turns : Turn N → LeaseRow N → (s u : IntentStore N) → Type 0
  Turns t row s u =
      (u ≡ s)
      ⊎ ((status : String) × IsCurrent t row s
          × IsEvident t.context row t.observation status
          × (transition_lease s row.lease.lease_id status false ≡ ok u))

  abbrev NextTurns : Controller N → Turn N → LeaseRow N → Controller N × Bool → Type 0
  NextTurns k t row r = Turns t row k.store r.0.store

  raise_alert-store : (k : Controller N) (a : Alert) → (raise_alert k a).store ≡ k.store
  raise_alert-store k a =
      if_ind (λ (k' : Controller N). k'.store ≡ k.store) _ (λ _. refl) (λ _. refl)

  visit-Turns :
      (k : Controller N) (t : Turn N) (row : LeaseRow N) → OnOk (NextTurns k t row) (visit k t row)
  unfolding visit
  visit-Turns k t row =
      let P = OnOk (NextTurns k t row) in
      if_ind P (not t.in_time) (λ _. inl refl)
        (λ in_time.
          if_ind P (is_fenced k.store t.held row) (λ _. inl refl)
            (λ not_fenced.
              if_ind P (not t.unchanged) (λ _. inl refl)
                (λ unchanged.
                  if_ind P (not (opt_str_eq (some row.unit) (t.context.units row.lease.model)))
                    (λ _. inl (raise_alert-store (next_row k) (alert_of t.context row)))
                    (λ same_unit.
                      if_ind P (not t.still_in_time) (λ _. inl refl)
                        (λ still_in_time.
                          if_ind P (not t.is_current) (λ _. inl refl)
                            (λ is_current.
                              go
                                (record {
                                  in_time = ground (arith, in_time);
                                  not_fenced = not_fenced;
                                  unchanged = ground (arith, unchanged);
                                  same_unit = ground (arith, same_unit);
                                  still_in_time = ground (arith, still_in_time);
                                  is_current = ground (arith, is_current);
                                })
                                (settle t.context (quiet t.context (next_row k) row) t.observation
                                  row)
                                (settle-Decides t.context (quiet t.context (next_row k) row)
                                  t.observation row)))))))
    where
      go :
          IsCurrent t row k.store
          → (r : Result (Controller N))
          → OnOk (λ (k' : Controller N). Decides t.context t.observation row k.store k'.store) r
          → OnOk (NextTurns k t row) (elim r [ err message ↦ err message | ok k' ↦ ok (k', true) ])
      go current (err message) e = tt
      go current (ok k') (inl same) = inl same
      go current (ok k') (inr (status, evident, moved)) = inr (status, current, evident, moved)

  -- A turn before the turns of the other rows
  prepend :
      (t : Turn N) (turns : List (Turn N)) (row : LeaseRow N) (rows : List (LeaseRow N))
      (s u v : IntentStore N)
      → Turns t row s u
      → Follows turns rows u v
      → Follows (t ∷ turns) (row ∷ rows) s v
  prepend t turns row rows s u v (inl same) h =
      Follows.leaves (subst (λ w. Follows turns rows w v) same h)
  prepend t turns row rows s u v (inr (status, current, evident, moved)) h =
      Follows.moves u status current evident moved h

  visit_each-Follows :
      (turns : List (Turn N)) (rows : List (LeaseRow N)) (k : Controller N)
      → OnOk (λ (k' : Controller N). Follows turns rows k.store k'.store) (visit_each k turns rows)
  unfolding visit_each
  visit_each-Follows turns [] k = Follows.ends
  visit_each-Follows [] (row ∷ rows) k = Follows.ends
  visit_each-Follows (t ∷ turns) (row ∷ rows) k =
      go (visit k t row) (visit-Turns k t row) (λ k'. visit_each-Follows turns rows k')
    where
      go :
          (r : Result (Controller N × Bool))
          → OnOk (NextTurns k t row) r
          → ((k' : Controller N)
              → OnOk
                  (λ (k'' : Controller N). Follows turns rows k'.store k''.store)
                  (visit_each k' turns rows))
          → OnOk
              (λ (k' : Controller N). Follows (t ∷ turns) (row ∷ rows) k.store k'.store)
              (elim r [
                | err message ↦ err message
                | ok (k', true) ↦ visit_each k' turns rows
                | ok (k', false) ↦ ok k'
              ])
      go (err message) e rest = tt
      go (ok (k', true)) e rest =
          OnOk-map (λ (k'' : Controller N). Follows turns rows k'.store k''.store)
            (λ (k'' : Controller N). Follows (t ∷ turns) (row ∷ rows) k.store k''.store)
            (λ k''. prepend t turns row rows k.store k'.store k''.store e)
            (visit_each k' turns rows) (rest k')
      go (ok (k', false)) e rest = prepend t turns row rows k.store k'.store k'.store e Follows.ends

  -- A reconciliation that returns changes the store only by transitions of its rows, in their order and
  -- at most one for a row: to released when the sample and the probe of that row's turn show its unit
  -- gone, to confirmed when they show it healthy, and to stale from pending. The turn is in time, its
  -- sample and its row did not change since before the probe, the unit is the configured one, and no
  -- fault or recovery has the row.
  pub reconcile-Follows :
      (c : Context N) (k k' : Controller N) (turns : List (Turn N))
      → reconcile c k turns ≡ ok k'
      → Follows turns (rows_of k) k.store k'.store
  unfolding reconcile
  reconcile-Follows c k k' turns e =
      OnOk-eq (λ (k' : Controller N). Follows turns (rows_of k) k.store k'.store) _ k'
        (if_ind (OnOk (λ (k' : Controller N). Follows turns (rows_of k) k.store k'.store))
          (c.read_only || not c.placement_enabled) (λ _. Follows.ends)
          (λ _. visit_each-Follows turns (rows_of k) k))
        e
