-- ===== src/Reconcile/Polite.antt =====
-- llmsvc/reconcile.py: what one run submits, and when.
use llm_service_manager.Prelude.{
  ◌≤◌, String, ◌≡◌, refl, sym, ap, ◌∙◌, subst, Bool, true, false, Option, none, some, [], arith,
  ◌⊎◌, inl, inr,
}
use llm_service_manager.Prelude.Tests.{if_ind}
use llm_service_manager.Prelude.Lists.{length}
use llm_service_manager.Prelude.Float.{Float}
use llm_service_manager.Prelude.Result.{Result, ok, err}
use llm_service_manager.Reconcile.Backoff.{
  Reconciler, concurrency_backoff_key, in_backoff, set_backoff,
}
use llm_service_manager.Reconcile.Run.{
  World, Outcome, Concurrency, idle, precondition, too_soon, add_row, remove_model, stop_model,
  converge_concurrency, ended_add, ended_remove, ended_stop, ended_converge, converged, scan,
  run_once,
}
use llm_service_manager.Reconcile.Endings.{Ends, scan-ind}

module _ {N : Type 0} ⦃F : Float N⦄ (w : World N) where
  -- The reconciler scanned at the time of the run, and keeps its interval.
  abbrev pub Scanned : N → Reconciler N → Type 0
  Scanned interval k = (k.last_scan ≡ some w.now) × (k.interval_seconds ≡ interval)

  abbrev Once : N → Outcome N → Type 0
  Once interval o = (length o.calls ≤ 1) × Scanned interval o.next

  one : 1 ≤ 1
  one = omega arith

  zero_one : 0 ≤ 1
  zero_one = omega arith

  ended_add-Once :
      (i : N) (k : Reconciler N) (name : String) (found : Result (Unit {0}))
      → Scanned i k
      → Once i (ended_add w k name found)
  unfolding set_backoff
  ended_add-Once i k name (ok _) h = (one, h)
  ended_add-Once i k name (err _) h = (one, h)

  ended_remove-Once :
      (i : N) (k : Reconciler N) (name : String) (found : Result (Unit {0}))
      → Scanned i k
      → Once i (ended_remove w k name found)
  unfolding set_backoff
  ended_remove-Once i k name (ok _) h = (one, h)
  ended_remove-Once i k name (err _) h = (one, h)

  ended_stop-Once :
      (i : N) (k : Reconciler N) (name : String) (found : Result (Option String))
      → Scanned i k
      → Once i (ended_stop w k name found)
  unfolding set_backoff
  ended_stop-Once i k name (ok _) h = (one, h)
  ended_stop-Once i k name (err _) h = (one, h)

  converged-Scanned :
      (i : N) (k : Reconciler N) (submitted : Bool)
      → Scanned i k
      → Scanned i (converged w k submitted)
  converged-Scanned i k true h = h
  converged-Scanned i k false h = h

  ended_converge-Once :
      (i : N) (k : Reconciler N) (model reason : Option String) (found : Result Concurrency)
      → Scanned i k
      → Once i (ended_converge w (idle k model reason) found)
  unfolding set_backoff
  ended_converge-Once i k model reason (ok c) h = (one, converged-Scanned i k c.submitted h)
  ended_converge-Once i k model reason (err _) h = (one, h)

  single_endings : (i : N) → Ends w (Scanned i) (λ _. Unit {0}) (Once i)
  unfolding remove_model stop_model converge_concurrency
  single_endings i = record {
    rests = λ k model reason h. (zero_one, h);
    removes = λ k name h _. ended_remove-Once i k name (w.remove name) h;
    stops = λ k name h _. ended_stop-Once i k name (w.stop name) h;
    converges = λ k model reason h.
        if_ind (Once i) (in_backoff k w.now concurrency_backoff_key) (λ _. (zero_one, h))
          (λ _.
            if_ind (Once i) w.job_pending_later (λ _. (zero_one, h))
              (λ _. ended_converge-Once i k model reason w.converge h));
  }

  scan-Once : (i : N) (k : Reconciler N) → Scanned i k → Once i (scan w k)
  unfolding add_row
  scan-Once i k h =
      scan-ind w (single_endings i) (λ _. tt) (λ _ _ g. g)
        (λ k name g. ended_add-Once i k name (w.add name) g) k h

  -- What holds when a run may submit
  pub record Allowed (k : Reconciler N) : Type 0 where
    pub submits : w.catalog_can_submit ≡ true
    pub connected : w.is_connected ≡ true
    pub catalog_open : w.catalog_fenced ≡ false
    pub catalog_settled : w.catalog_pending ≡ false
    pub registry_open : w.registry_fenced ≡ false
    pub no_job : w.job_pending ≡ false
    pub not_busy : w.catalog_busy ≡ false
    pub discovers : w.discovery_configured ≡ true
    pub since_submission : too_soon w k.interval_seconds k.last_submission ≡ false
    pub since_scan : too_soon w k.interval_seconds k.last_scan ≡ false

  precondition-Allowed : (k : Reconciler N) → precondition w k ≡ none → Allowed k
  unfolding precondition
  precondition-Allowed k h = record {
    submits = ground arith;
    connected = ground arith;
    catalog_open = ground arith;
    catalog_settled = ground arith;
    registry_open = ground arith;
    no_job = ground arith;
    not_busy = ground arith;
    discovers = ground arith;
    since_submission = ground arith;
    since_scan = ground arith;
  }

  abbrev ended : Reconciler N → Option String → Outcome N
  ended k blocked = elim blocked [
    | some reason ↦ idle k none (some reason)
    | none ↦ scan w (record k { last_scan = some w.now })
  ]

  -- A run makes one call of the registry at most: an addition, a removal, a stop or a convergence. It makes
  -- one only when the catalog can submit, is connected, unfenced, settled and not busy, the registry is not
  -- fenced and has no pending job, discovery is configured, and the interval since the last submission and
  -- the interval since the last scan are over.
  pub run_once-Allowed :
      (k : Reconciler N)
      → (length (run_once w k).calls ≤ 1) × (((run_once w k).calls ≡ []) ⊎ Allowed k)
  unfolding run_once
  run_once-Allowed k = go (precondition w k) (λ e. precondition-Allowed k e)
    where
      go :
          (blocked : Option String)
          → (blocked ≡ none → Allowed k)
          → (length (ended k blocked).calls ≤ 1) × (((ended k blocked).calls ≡ []) ⊎ Allowed k)
      go (some reason) f = (zero_one, inl refl)
      go none f = (
        (scan-Once k.interval_seconds (record k { last_scan = some w.now }) (refl, refl)).0,
        inr (f refl),
      )

  passed-Scanned :
      (k : Reconciler N) → precondition w k ≡ none → Scanned k.interval_seconds (run_once w k).next
  unfolding run_once
  passed-Scanned k e =
      subst (λ b. Scanned k.interval_seconds (ended k b).next) (sym e)
        (scan-Once k.interval_seconds (record k { last_scan = some w.now }) (refl, refl)).1

module _ {N : Type 0} ⦃F : Float N⦄ where
  blocked_when_scanned :
      (w : World N) (k : Reconciler N)
      → too_soon w k.interval_seconds k.last_scan ≡ true
      → (run_once w k).calls ≡ []
  blocked_when_scanned w k e = elim (run_once-Allowed w k).1 [
    | inl none_made ↦ none_made
    | inr allowed ↦ absurd cc (allowed.since_scan, e)
  ]

  -- When a run that passed the precondition is followed by one within the interval, in whatever state of the
  -- catalog and the registry, the second makes no call.
  pub run_once-rate :
      (w later : World N) (k : Reconciler N)
      → precondition w k ≡ none
      → F.lt (F.minus later.now w.now) k.interval_seconds ≡ true
      → (run_once later (run_once w k).next).calls ≡ []
  run_once-rate w later k e soon =
      let (scanned, interval) = passed-Scanned w k e in
      let next = (run_once w k).next in
      blocked_when_scanned later next (
        ap (λ i. too_soon later i next.last_scan) interval
        ∙ ap (λ s. too_soon later k.interval_seconds s) scanned
        ∙ soon)
