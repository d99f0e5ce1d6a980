-- ===== src/Reconcile/Run.antt =====
-- llmsvc/reconcile.py: one run of the reconciler. What the catalog, the registry, the scheduler and the
-- file system answer are fields of `World`, where an error is the text of the exception; the calls that
-- a run makes of the registry are listed. A run reads the clock once; a pending job is read by the
-- precondition, and again before the convergence (`job_pending_later`).
use llm_service_manager.Prelude.{
  String, Bool, true, false, not, ◌&&◌, ◌||◌, Option, none, some, List, [], ◌∷◌, ◌++◌, str_eq, map,
}
use llm_service_manager.Prelude.Tests.{is_none, if◌then◌else◌}
use llm_service_manager.Prelude.Lists.{any, find?, select}
use llm_service_manager.Prelude.Text.{Dict, lookup, contains}
use llm_service_manager.Prelude.Float.{Float}
use llm_service_manager.Prelude.Result.{Result, ok, err}
use llm_service_manager.State.{ModelStatus}
use llm_service_manager.Reconcile.Backoff.{
  Reconciler, concurrency_backoff_key, purge, in_backoff, set_backoff,
}

pub data RowStatus : Type 0 where
  configured pending invalid : RowStatus

pub record Row : Type 0 where
  pub name : String
  pub path : String
  pub status : RowStatus

-- A record that the registry made
pub record Registered : Type 0 where
  pub name : String
  pub path : String

-- What `lstat` finds at `llmsvc.json` of a directory
pub data Descriptor : Type 0 where
  missing irregular regular : Descriptor

pub data Kind : Type 0 where
  add stop remove converge : Kind

pub record Call : Type 0 where
  pub kind : Kind
  pub name : String

pub record Concurrency : Type 0 where
  pub submitted : Bool
  pub reason : Option String

pub record Report : Type 0 where
  pub action : Option Kind
  pub model : Option String
  pub reason : Option String
  pub concurrency : Option Concurrency

pub record World (N : Type 0) : Type 0 where
  pub now : N
  pub catalog_can_submit : Bool
  pub is_connected : Bool
  pub catalog_fenced : Bool
  pub catalog_pending : Bool
  pub registry_fenced : Bool
  pub job_pending : Bool
  pub job_pending_later : Bool
  pub catalog_busy : Bool
  pub discovery_configured : Bool
  pub discovered : Result (List Row)
  pub records : Result (Dict Registered)
  pub normpath : String → String
  pub descriptor : String → Descriptor
  pub snapshot_blocked : Bool
  pub models : String → Option ModelStatus
  pub actions_pending : Option Bool
  pub add : String → Result (Unit {0})
  pub remove : String → Result (Unit {0})
  pub stop : String → Result (Option String)
  pub converge : Result Concurrency

-- The reconciler after a run, what it reports, and the calls that it made
pub record Outcome (N : Type 0) : Type 0 where
  pub next : Reconciler N
  pub report : Report
  pub calls : List Call

abbrev pub is_pending : Row → Bool
is_pending r = elim r.status [ RowStatus.pending ↦ true | _ ↦ false ]

abbrev pub is_configured : Row → Bool
is_configured r = elim r.status [ RowStatus.configured ↦ true | _ ↦ false ]

abbrev pub is_invalid : Row → Bool
is_invalid r = elim r.status [ RowStatus.invalid ↦ true | _ ↦ false ]

abbrev pub report : Option Kind → (model reason : Option String) → Report
report action model reason = record {
  action = action;
  model = model;
  reason = reason;
  concurrency = none;
}

orphan_by : List Row → Registered → Option String
orphan_by same_directory r =
    if any is_invalid same_directory
    then none
    else if any (λ (x : Row). is_configured x && str_eq x.name r.name) same_directory
    then none
    else if any (λ (x : Row). is_pending x || is_configured x) same_directory
    then some "the descriptor now declares a different model name"
    else none

module _ {N : Type 0} where
  -- `_orphan_reason`
  unfoldable pub orphan_reason : World N → Registered → List Row → Option String
  unfolding orphan_by
  orphan_reason w r rows =
      let directory = w.normpath r.path in
      let same = select (λ (x : Row). str_eq (w.normpath x.path) directory) rows in
      elim (w.descriptor directory) [
        | Descriptor.missing ↦ some "the descriptor llmsvc.json is missing"
        | Descriptor.irregular ↦ some "the descriptor llmsvc.json is not a regular file"
        | Descriptor.regular ↦ orphan_by same r
      ]

  abbrev pub idle : Reconciler N → (model reason : Option String) → Outcome N
  idle k model reason = record { next = k; report = report none model reason; calls = [] }

module _ {N : Type 0} ⦃F : Float N⦄ (w : World N) where
  abbrev pub too_soon : N → Option N → Bool
  too_soon interval none = false
  too_soon interval (some t) = F.lt (F.minus w.now t) interval

  -- `_precondition`
  unfoldable pub precondition : Reconciler N → Option String
  precondition k =
      if not w.catalog_can_submit
      then some "catalog_unavailable"
      else if not w.is_connected
      then some "catalog_not_connected"
      else if w.catalog_fenced
      then some "catalog_reconciliation_required"
      else if w.catalog_pending
      then some "catalog_pending"
      else if w.registry_fenced
      then some "registry_reconciliation_required"
      else if w.job_pending
      then some "pending_change"
      else if w.catalog_busy
      then some "catalog_busy"
      else if not w.discovery_configured
      then some "discovery_unconfigured"
      else if too_soon k.interval_seconds k.last_submission
      then some "interval"
      else if too_soon k.interval_seconds k.last_scan
      then some "interval"
      else none

  abbrev pub submitted : Reconciler N → (name : String) → (reason : Option String) → Reconciler N
  submitted k name reason =
      set_backoff (record k { last_submission = some w.now }) w.now name reason

  -- The submission of a pending directory; a failure is backed off too.
  abbrev pub ended_add : Reconciler N → (name : String) → Result (Unit {0}) → Outcome N
  ended_add k name (ok _) = record {
    next = submitted k name none;
    report = report (some Kind.add) (some name) none;
    calls = record { kind = Kind.add; name = name } ∷ [];
  }
  ended_add k name (err reason) = record {
    next = submitted k name (some reason);
    report = report none (some name) (some reason);
    calls = record { kind = Kind.add; name = name } ∷ [];
  }

  unfoldable pub add_row : Reconciler N → (name : String) → Outcome N
  add_row k name = ended_add k name (w.add name)

  -- An exception of a removal or a stop leaves `run_once` without the name.
  abbrev pub ended_remove : Reconciler N → (name : String) → Result (Unit {0}) → Outcome N
  ended_remove k name (ok _) = record {
    next = submitted k name none;
    report = report (some Kind.remove) (some name) none;
    calls = record { kind = Kind.remove; name = name } ∷ [];
  }
  ended_remove k name (err reason) = record {
    next = k;
    report = report none none (some reason);
    calls = record { kind = Kind.remove; name = name } ∷ [];
  }

  unfoldable pub remove_model : Reconciler N → (name : String) → Outcome N
  remove_model k name = ended_remove k name (w.remove name)

  abbrev pub ended_stop : Reconciler N → (name : String) → Result (Option String) → Outcome N
  ended_stop k name (ok reason) = record {
    next = submitted k name reason;
    report = report (some Kind.stop) (some name) reason;
    calls = record { kind = Kind.stop; name = name } ∷ [];
  }
  ended_stop k name (err reason) = record {
    next = k;
    report = report none none (some reason);
    calls = record { kind = Kind.stop; name = name } ∷ [];
  }

  unfoldable pub stop_model : Reconciler N → (name : String) → Outcome N
  stop_model k name = ended_stop k name (w.stop name)

  abbrev pub converged : Reconciler N → (submitted : Bool) → Reconciler N
  converged k false = k
  converged k true = record k {
    last_submission = some w.now;
    backoff = purge (λ key. str_eq key concurrency_backoff_key) k.backoff;
  }

  abbrev pub ended_converge : Outcome N → Result Concurrency → Outcome N
  ended_converge o (err reason) = record o {
    next = set_backoff o.next w.now concurrency_backoff_key (some reason);
    report = record o.report {
      concurrency = some (record { submitted = false; reason = some reason });
    };
    calls = o.calls ++ record { kind = Kind.converge; name = concurrency_backoff_key } ∷ [];
  }
  ended_converge o (ok c) = record o {
    next = converged o.next c.submitted;
    report = record o.report { concurrency = some c };
    calls = o.calls ++ record { kind = Kind.converge; name = concurrency_backoff_key } ∷ [];
  }

  -- `_converge_concurrency`
  unfoldable pub converge_concurrency : Outcome N → Outcome N
  converge_concurrency o =
      if in_backoff o.next w.now concurrency_backoff_key
      then record o {
        report = record o.report {
          concurrency = some (record {
            submitted = false;
            reason = elim (lookup concurrency_backoff_key o.next.backoff) [
              | none ↦ none
              | some e ↦ e.reason
            ];
          });
        };
      }
      else if w.job_pending_later
      then o
      else ended_converge o w.converge

  unfoldable pub stop_resident : Reconciler N → (name : String) → Option Bool → Outcome N
  stop_resident k name none =
      converge_concurrency (idle k (some name) (some "model_actions_disabled"))
  stop_resident k name (some true) =
      converge_concurrency (idle k (some name) (some "operation_in_progress"))
  stop_resident k name (some false) = stop_model k name

  -- An orphan is stopped, and removed when it has stopped.
  unfoldable pub orphan : Reconciler N → (name : String) → Outcome N
  orphan k name =
      if w.snapshot_blocked
      then converge_concurrency (idle k (some name) (some "snapshot_blocked"))
      else elim (w.models name) [
        | none ↦ converge_concurrency (idle k (some name) (some "unknown_model_state"))
        | some ModelStatus.unknown ↦
            converge_concurrency (idle k (some name) (some "unknown_model_state"))
        | some ModelStatus.stopped ↦ remove_model k name
        | some _ ↦ stop_resident k name w.actions_pending
      ]

  -- The loop over the records
  unfoldable pub orphan_each : Reconciler N → List Row → Dict Registered → Outcome N
  orphan_each k rows [] = converge_concurrency (idle k none none)
  orphan_each k rows ((name, r) ∷ records) =
      let rest = orphan_each k rows records in
      if in_backoff k w.now name || is_none (orphan_reason w r rows) then rest else orphan k name

  abbrev pub unrecorded : Dict Registered → String → Bool
  unrecorded records key = not (str_eq key concurrency_backoff_key) && is_none (lookup key records)

  abbrev pub with_records : Reconciler N → List Row → Result (Dict Registered) → Outcome N
  with_records k rows (err reason) = idle k none (some reason)
  with_records k rows (ok records) =
      orphan_each (record k { backoff = purge (unrecorded records) k.backoff }) rows records

  -- `_reconcile_orphans`, and what `run_once` does after it
  unfoldable pub reconcile_orphans : Reconciler N → List Row → Outcome N
  reconcile_orphans k rows = with_records k rows w.records

  unfoldable pub reconcile_rows : Reconciler N → List Row → Outcome N
  reconcile_rows k rows =
      elim (find? (λ (r : Row). is_pending r && not (in_backoff k w.now r.name)) rows) [
        | some r ↦ add_row k r.name
        | none ↦ reconcile_orphans k rows
      ]

  abbrev pub configured_names : List Row → List String
  configured_names rows = map (λ (r : Row). r.name) (select is_configured rows)

  unfoldable pub scan : Reconciler N → Outcome N
  scan k = elim w.discovered [
    | err reason ↦ idle k none (some reason)
    | ok rows ↦
        reconcile_rows
          (record k { backoff = purge (λ key. contains key (configured_names rows)) k.backoff })
          rows
  ]

  -- `run_once`
  unfoldable pub run_once : Reconciler N → Outcome N
  run_once k = elim (precondition k) [
    | some reason ↦ idle k none (some reason)
    | none ↦ scan (record k { last_scan = some w.now })
  ]
