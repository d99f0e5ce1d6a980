-- ===== src/Reconcile/Endings.antt =====
-- llmsvc/reconcile.py: induction over the ways in which a run ends.
use llm_service_manager.Prelude.{String, Bool, true, false, ◌||◌, Option, none, some, List, [], ◌∷◌}
use llm_service_manager.Prelude.Tests.{is_none, if_ind}
use llm_service_manager.Prelude.Lists.{All, All-of_mem}
use llm_service_manager.Prelude.Text.{Dict, contains}
use llm_service_manager.Prelude.Float.{Float}
use llm_service_manager.Prelude.Result.{Result, ok, err}
use llm_service_manager.State.{ModelStatus}
use llm_service_manager.Reconcile.Backoff.{Reconciler, Entry, purge, in_backoff}
use llm_service_manager.Reconcile.Run.{
  World, Row, Registered, Outcome, idle, orphan_reason, add_row, remove_model, stop_model,
  converge_concurrency, stop_resident, orphan, orphan_each, with_records, reconcile_orphans,
  reconcile_rows, configured_names, scan,
}

module _ {N : Type 0} ⦃F : Float N⦄ (w : World N) where
  -- A property of outcomes that every way to end the reconciliation of orphans has, when the reconciler
  -- satisfies `K` and the names `Q`
  pub record Ends (K : Reconciler N → Type 0) (Q : String → Type 0) (P : Outcome N → Type 0)
      : Type 0 where
    pub rests : (k : Reconciler N) (model reason : Option String) → K k → P (idle k model reason)
    pub removes : (k : Reconciler N) (name : String) → K k → Q name → P (remove_model w k name)
    pub stops : (k : Reconciler N) (name : String) → K k → Q name → P (stop_model w k name)
    pub converges :
        (k : Reconciler N) (model reason : Option String)
        → K k
        → P (converge_concurrency w (idle k model reason))

module _ {N : Type 0} ⦃F : Float N⦄ (w : World N) {K : Reconciler N → Type 0} {Q : String → Type 0}
    {P : Outcome N → Type 0} (ends : Ends w K Q P) where
  stop_resident-ind :
      (k : Reconciler N) (name : String) (actions : Option Bool)
      → K k
      → Q name
      → P (stop_resident w k name actions)
  unfolding stop_resident
  stop_resident-ind k name none h q = ends.converges k _ _ h
  stop_resident-ind k name (some true) h q = ends.converges k _ _ h
  stop_resident-ind k name (some false) h q = ends.stops k name h q

  orphan-ind : (k : Reconciler N) (name : String) → K k → Q name → P (orphan w k name)
  unfolding orphan
  orphan-ind k name h q =
      if_ind P w.snapshot_blocked (λ _. ends.converges k _ _ h) (λ _. go (w.models name))
    where
      go :
          (found : Option ModelStatus)
          → P (elim found [
            | none ↦ converge_concurrency w (idle k (some name) (some "unknown_model_state"))
            | some ModelStatus.unknown ↦
                converge_concurrency w (idle k (some name) (some "unknown_model_state"))
            | some ModelStatus.stopped ↦ remove_model w k name
            | some _ ↦ stop_resident w k name w.actions_pending
          ])
      go none = ends.converges k _ _ h
      go (some ModelStatus.unknown) = ends.converges k _ _ h
      go (some ModelStatus.stopped) = ends.removes k name h q
      go (some ModelStatus.awake) = stop_resident-ind k name w.actions_pending h q
      go (some ModelStatus.sleeping) = stop_resident-ind k name w.actions_pending h q

  pub orphan_each-ind :
      (k : Reconciler N) (rows : List Row) (records : Dict Registered)
      → K k
      → All (λ (r : String × Registered). Q r.0) records
      → P (orphan_each w k rows records)
  unfolding orphan_each
  orphan_each-ind k rows [] h q = ends.converges k none none h
  orphan_each-ind k rows ((name, r) ∷ records) h q =
      let rest = orphan_each-ind k rows records h q.1 in
      if_ind P (in_backoff k w.now name || is_none (orphan_reason w r rows)) (λ _. rest)
        (λ _. orphan-ind k name h q.0)

  module _ (named : (name : String) → Q name)
      (keeps : (k : Reconciler N) (d : Dict (Entry N)) → K k → K (record k { backoff = d }))
      (adds : (k : Reconciler N) (name : String) → K k → P (add_row w k name)) where
    reconcile_orphans-ind :
        (k : Reconciler N) (rows : List Row) → K k → P (reconcile_orphans w k rows)
    unfolding reconcile_orphans
    reconcile_orphans-ind k rows h = go w.records
      where
        go : (found : Result (Dict Registered)) → P (with_records w k rows found)
        go (err reason) = ends.rests k none (some reason) h
        go (ok records) =
            orphan_each-ind _ rows records (keeps k _ h)
              (All-of_mem (λ (r : String × Registered). Q r.0) records (λ r _. named r.0))

    pub scan-ind : (k : Reconciler N) → K k → P (scan w k)
    unfolding scan reconcile_rows
    scan-ind k h = go w.discovered
      where
        on_row :
            (k : Reconciler N) (rows : List Row) (found : Option Row)
            → K k
            → P (elim found [ some r ↦ add_row w k r.name | none ↦ reconcile_orphans w k rows ])
        on_row k rows none g = reconcile_orphans-ind k rows g
        on_row k rows (some r) g = adds k r.name g

        go :
            (found : Result (List Row))
            → P (elim found [
              | err reason ↦ idle k none (some reason)
              | ok rows ↦
                  reconcile_rows w
                    (record k {
                      backoff = purge (λ key. contains key (configured_names w rows)) k.backoff;
                    })
                    rows
            ])
        go (err reason) = ends.rests k none (some reason) h
        go (ok rows) = on_row _ rows _ (keeps k _ h)
