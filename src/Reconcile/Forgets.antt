-- ===== src/Reconcile/Forgets.antt =====
-- llmsvc/reconcile.py: which back-off a run without a pending directory keeps.
use llm_service_manager.Prelude.{
  String, ◌≡◌, ◌≢◌, refl, sym, ◌∙◌, subst, Bool, true, false, Option, none, some, List, [], ◌∷◌,
  str_eq, eq_iff, arith,
}
use llm_service_manager.Prelude.Tests.{if_ind}
use llm_service_manager.Prelude.Lists.{select, All}
use llm_service_manager.Prelude.Text.{Dict, lookup, lookup-insert}
use llm_service_manager.Prelude.Float.{Float}
use llm_service_manager.Prelude.Result.{Result, ok, err}
use llm_service_manager.Reconcile.Backoff.{
  Reconciler, concurrency_backoff_key, in_backoff, set_backoff,
}
use llm_service_manager.Reconcile.Run.{
  World, Row, Registered, Outcome, Concurrency, idle, remove_model, stop_model,
  converge_concurrency, ended_remove, ended_stop, ended_converge, converged, with_records,
  reconcile_orphans,
}
use llm_service_manager.Reconcile.Endings.{Ends, orphan_each-ind}

module _ {V : Type 0} where
  -- A key that a test drops is not found.
  select-lookup :
      (keep : String × V → Bool) (name : String) (d : Dict V)
      → ((v : V) → keep (name, v) ≡ false)
      → lookup name (select keep d) ≡ none
  unfolding lookup
  select-lookup keep name [] h = refl
  select-lookup keep name ((j, v) ∷ d) h =
      ground (arith, eq_iff j name, select-lookup keep name d h, h v)

  -- A key that is not found is not found in what a test keeps.
  lookup-select :
      (keep : String × V → Bool) (name : String) (d : Dict V)
      → lookup name d ≡ none
      → lookup name (select keep d) ≡ none
  unfolding lookup
  lookup-select keep name [] h = refl
  lookup-select keep name ((j, v) ∷ d) h = ground (arith, lookup-select keep name d)

  -- The names of a dictionary differ from a key that it does not have.
  lookup-Apart :
      (name : String) (d : Dict V)
      → lookup name d ≡ none
      → All (λ (e : String × V). str_eq e.0 name ≡ false) d
  unfolding lookup
  lookup-Apart name [] h = tt
  lookup-Apart name ((j, v) ∷ d) h = ground (arith, lookup-Apart name d)

module _ {N : Type 0} ⦃F : Float N⦄ (w : World N) (name : String)
    (apart : str_eq concurrency_backoff_key name ≡ false) where
  abbrev Forgot : Reconciler N → Type 0
  Forgot k = lookup name k.backoff ≡ none

  set_backoff-Forgot :
      (k : Reconciler N) (other : String) (reason : Option String)
      → Forgot k
      → str_eq other name ≡ false
      → Forgot (set_backoff k w.now other reason)
  unfolding set_backoff
  set_backoff-Forgot k other reason h e = lookup-insert other name _ k.backoff ∙ ground arith

  ended_remove-Forgot :
      (k : Reconciler N) (other : String) (found : Result (Unit {0}))
      → Forgot k
      → str_eq other name ≡ false
      → Forgot (ended_remove w k other found).next
  ended_remove-Forgot k other (ok _) h e = set_backoff-Forgot _ other none h e
  ended_remove-Forgot k other (err _) h e = h

  ended_stop-Forgot :
      (k : Reconciler N) (other : String) (found : Result (Option String))
      → Forgot k
      → str_eq other name ≡ false
      → Forgot (ended_stop w k other found).next
  ended_stop-Forgot k other (ok reason) h e = set_backoff-Forgot _ other reason h e
  ended_stop-Forgot k other (err _) h e = h

  converged-Forgot :
      (k : Reconciler N) (submitted : Bool) → Forgot k → Forgot (converged w k submitted)
  converged-Forgot k false h = h
  converged-Forgot k true h = lookup-select _ name k.backoff h

  ended_converge-Forgot :
      (o : Outcome N) (found : Result Concurrency)
      → Forgot o.next
      → Forgot (ended_converge w o found).next
  ended_converge-Forgot o (ok c) h = converged-Forgot o.next c.submitted h
  ended_converge-Forgot o (err reason) h = set_backoff-Forgot o.next _ (some reason) h apart

  forgetting_endings :
      Ends w Forgot (λ other. str_eq other name ≡ false) (λ (o : Outcome N). Forgot o.next)
  unfolding remove_model stop_model converge_concurrency
  forgetting_endings = record {
    rests = λ k model reason h. h;
    removes = λ k other h e. ended_remove-Forgot k other (w.remove other) h e;
    stops = λ k other h e. ended_stop-Forgot k other (w.stop other) h e;
    converges = λ k model reason h.
        if_ind (λ (o : Outcome N). Forgot o.next) (in_backoff k w.now concurrency_backoff_key)
          (λ _. h)
          (λ _.
            if_ind (λ (o : Outcome N). Forgot o.next) w.job_pending_later (λ _. h)
              (λ _. ended_converge-Forgot (idle k model reason) w.converge h));
  }

module _ {N : Type 0} ⦃F : Float N⦄ where
  -- When the registry has no record of a name that is not the slot of the convergence, a run that reaches
  -- the orphans leaves no back-off for that name, whatever back-off it had.
  pub reconcile_orphans-forgets :
      (w : World N) (k : Reconciler N) (rows : List Row) (records : Dict Registered) (name : String)
      → w.records ≡ ok records
      → lookup name records ≡ none
      → concurrency_backoff_key ≢ name
      → lookup name (reconcile_orphans w k rows).next.backoff ≡ none
  unfolding reconcile_orphans
  reconcile_orphans-forgets w k rows records name e absent apart =
      let differs : str_eq concurrency_backoff_key name ≡ false =
        ground (arith, eq_iff concurrency_backoff_key name) in
      let differs_back : str_eq name concurrency_backoff_key ≡ false =
        ground (arith, eq_iff name concurrency_backoff_key) in
      subst (λ found. lookup name (with_records w k rows found).next.backoff ≡ none) (sym e)
        (orphan_each-ind w (forgetting_endings w name differs) _ rows records
          (select-lookup _ name k.backoff (λ v. ground arith)) (lookup-Apart name records absent))
