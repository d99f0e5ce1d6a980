-- ===== src/Reconcile/Witnesses.antt =====
-- Runs of the reconciler over whole numbers: a pending directory whose addition fails, inside its wait.
use llm_service_manager.Prelude.{ℕ, ◌≡◌, ◌≤◌, refl, ◌⊎◌, true, false, none, some, [], ◌∷◌}
use llm_service_manager.Prelude.Lists.{length}
use llm_service_manager.Prelude.Float.{whole}
use llm_service_manager.Prelude.Result.{ok, err}
use llm_service_manager.Prelude.Text.{Dict, lookup, insert}
use llm_service_manager.State.{ModelStatus}
use llm_service_manager.Reconcile.Backoff.{Reconciler, delay, in_backoff, set_backoff}
use llm_service_manager.Reconcile.Run.{
  World, Row, RowStatus, Registered, Descriptor, orphan_reason, precondition, add_row, stop_model,
  stop_resident, orphan, orphan_each, reconcile_orphans, reconcile_rows, scan, run_once,
}
use llm_service_manager.Reconcile.Polite.{Allowed, run_once-Allowed, run_once-rate}
use llm_service_manager.Reconcile.Forgets.{reconcile_orphans-forgets}

abbrev pending_row : Row
pending_row = record { name = "new"; path = "/models/new"; status = RowStatus.pending }

abbrev registered : Dict Registered
registered = ("old", record { name = "old"; path = "/models/old" }) ∷ []

-- The directory of `old` is gone, and the model runs.
abbrev world : (now : ℕ) → World ℕ
world now = record {
  now = now;
  catalog_can_submit = true;
  is_connected = true;
  catalog_fenced = false;
  catalog_pending = false;
  registry_fenced = false;
  job_pending = false;
  job_pending_later = false;
  catalog_busy = false;
  discovery_configured = true;
  discovered = ok (pending_row ∷ []);
  records = ok registered;
  normpath = λ path. path;
  descriptor = λ _. Descriptor.missing;
  snapshot_blocked = false;
  models = λ _. some ModelStatus.awake;
  actions_pending = some false;
  add = λ _. err "RegistryError: no capacity";
  remove = λ _. ok tt;
  stop = λ _. ok none;
  converge = ok (record { submitted = false; reason = none });
}

abbrev reconciler : Reconciler ℕ
reconciler = record {
  interval_seconds = 30;
  last_submission = none;
  last_scan = none;
  backoff = [];
}

abbrev waiting : Reconciler ℕ
waiting = record reconciler {
  last_submission = some 100;
  last_scan = some 100;
  backoff =
      ("new", record { until = 160; reason = some "RegistryError: no capacity"; attempts = 1 })
      ∷ [];
}

first_failure : (run_once ⦃F = whole⦄ (world 100) reconciler).next ≡ waiting
unfolding run_once precondition scan reconcile_rows in_backoff add_row set_backoff delay lookup
    insert
first_failure = refl

-- The next run stops the orphan and forgets the failure of `new`.
forgotten : lookup "new" (run_once ⦃F = whole⦄ (world 130) waiting).next.backoff ≡ none
unfolding run_once precondition scan reconcile_rows reconcile_orphans orphan_each orphan
    orphan_reason stop_resident stop_model in_backoff set_backoff delay lookup insert
forgotten = refl

run_once-Allowed_example :
    (length (run_once ⦃F = whole⦄ (world 100) reconciler).calls ≤ 1)
    × (((run_once ⦃F = whole⦄ (world 100) reconciler).calls ≡ [])
        ⊎ Allowed ⦃F = whole⦄ (world 100) reconciler)
run_once-Allowed_example = run_once-Allowed ⦃F = whole⦄ (world 100) reconciler

run_once-rate_example :
    (run_once ⦃F = whole⦄ (world 110) (run_once ⦃F = whole⦄ (world 100) reconciler).next).calls ≡ []
unfolding precondition
run_once-rate_example = run_once-rate ⦃F = whole⦄ (world 100) (world 110) reconciler refl refl

reconcile_orphans-forgets_example :
    lookup "new" (reconcile_orphans ⦃F = whole⦄ (world 130) waiting (pending_row ∷ [])).next.backoff
    ≡ none
unfolding lookup
reconcile_orphans-forgets_example =
    reconcile_orphans-forgets ⦃F = whole⦄ (world 130) waiting (pending_row ∷ []) registered "new"
      refl refl (λ e. cc)
