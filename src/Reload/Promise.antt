-- ===== src/Reload/Promise.antt =====
-- llmsvc/reload.py: the configuration that `enqueue` validates is the one that the queue leaves on disk.
use llm_service_manager.Prelude.{
  String, ◌≡◌, refl, sym, ap, ◌∙◌, subst, inl, inr, Bool, false, not, ◌&&◌, List, [], ◌∷◌, ◌++◌,
  arith,
}
use llm_service_manager.Prelude.Tests.{Bool-cases, if◌then◌else◌}
use llm_service_manager.Prelude.Float.{Float}
use llm_service_manager.Prelude.Result.{
  Result, ok, err, guard, Result-cases, ◌>>=◌, OnOk, OnOk-bind, skip,
}
use llm_service_manager.Reload.World.{Source, World}
use llm_service_manager.Reload.Transaction.{Tx}
use llm_service_manager.Reload.Installed.{IsInstalled, process_once-IsInstalled}
use llm_service_manager.Reload.Queue.{
  Job, Queue, Desk, Enqueued, apply_all, is_shut, admit_maintenance, on_base, candidate_of,
  accepted, staged_job, with_candidate, enqueue, entry_of, world_of, waiting, finished, run_of,
  run_head, run_queue,
}

-- A read answers with the configuration on disk.
abbrev pub Reads : Result Source → (config : String) → Type 0
Reads answer config = (s : Source) → answer ≡ ok s → s.content ≡ config

with_last : (r : Result String) → (r >>= ok) ≡ r
with_last (err message) = refl
with_last (ok value) = refl

module _ {N : Type 0} where
  -- What is on disk once every job that waits has been applied
  abbrev pub outcome : Queue N → Result String
  outcome q = apply_all q.pending q.config

  apply_all-append :
      (jobs : List (Job N)) (job : Job N) (config : String)
      → apply_all (jobs ++ job ∷ []) config ≡ (apply_all jobs config >>= job.transform)
  unfolding apply_all
  apply_all-append [] job config = with_last (job.transform config)
  apply_all-append (first ∷ jobs) job config = elim (Result-cases (first.transform config)) [
    | inl (made, e) ↦ rw e (apply_all-append jobs job made)
    | inr (message, e) ↦ rw e refl
  ]

module _ {N : Type 0} (desk : Desk N) (job : Job N) (q : Queue N) where
  -- The candidate is what all jobs make of the configuration that was read, and its binding is accepted.
  record IsPlanned (candidate : String) : Type 0 where
    source : Source
    was_read : desk.read ≡ ok source
    made : (apply_all q.pending source.content >>= job.transform) ≡ ok candidate
    is_bound : job.binding candidate ≡ ok tt

  candidate_of-IsPlanned : OnOk IsPlanned (candidate_of desk job q)
  unfolding candidate_of
  candidate_of-IsPlanned = skip IsPlanned (guard (not (is_shut q)) _) _ (
      skip IsPlanned (admit_maintenance desk job job.maintenance) _ (
        OnOk-bind IsPlanned desk.read _ (λ source was_read.
          OnOk-bind IsPlanned (apply_all q.pending source.content) _ (λ data_ applied.
            skip IsPlanned (on_base desk data_ job.maintenance) _ (
              OnOk-bind IsPlanned (job.transform data_) _ (λ candidate made.
                OnOk-bind IsPlanned (job.binding candidate) _ (λ _ bound. record {
                  source = source;
                  was_read = was_read;
                  made = rw applied made;
                  is_bound = bound;
                })))))))

  -- What an accepted job leaves in the queue
  record IsQueued (after : Queue N) : Type 0 where
    candidate : String
    planned : IsPlanned candidate
    staged : desk.stage candidate ≡ ok tt
    appended : after ≡ record q { pending = q.pending ++ accepted desk job ∷ [] }

  staged-IsQueued :
      (candidate : String) (staged : Result (Unit {0}))
      → IsPlanned candidate
      → desk.stage candidate ≡ staged
      → (staged_job desk job q staged).0 ≡ ok Enqueued.queued
      → IsQueued (staged_job desk job q staged).1
  staged-IsQueued candidate (ok _) h e queued = record {
    candidate = candidate;
    planned = h;
    staged = e;
    appended = refl;
  }
  staged-IsQueued candidate (err reason) h e queued = absurd (ground (arith, queued))

  enqueued-IsQueued :
      (r : Result String)
      → OnOk IsPlanned r
      → (with_candidate desk job q r).0 ≡ ok Enqueued.queued
      → IsQueued (with_candidate desk job q r).1
  enqueued-IsQueued (err reason) h queued = absurd (ground (arith, queued))
  enqueued-IsQueued (ok candidate) h queued = elim (Bool-cases desk.dry_run) [
    | inl e ↦ absurd (ground (arith, queued, e))
    | inr e ↦
        subst IsQueued (ground (arith, e))
          (staged-IsQueued candidate (desk.stage candidate) h refl (ground (arith, queued, e)))
  ]

  enqueue-IsQueued : (enqueue desk job q).0 ≡ ok Enqueued.queued → IsQueued (enqueue desk job q).1
  unfolding enqueue
  enqueue-IsQueued queued =
      enqueued-IsQueued (candidate_of desk job q) candidate_of-IsPlanned queued

module _ {N : Type 0} ⦃F : Float N⦄ where
  -- The head leaves the queue and has committed nothing.
  abbrev pub is_dropped : World N → Queue N → List (Job N) → Bool
  is_dropped w q [] = false
  is_dropped w q (job ∷ jobs) = (run_of w q job).popped && not (run_of w q job).config_committed

  -- Runs of the queue, each of which reads what is on disk and drops no job
  pub data Runs : Queue N → Queue N → Type 0 where
    done : (q : Queue N) → Runs q q
    run :
        (w : World N) (q r : Queue N)
        → Reads w.read q.config
        → is_dropped w q q.pending ≡ false
        → Runs (run_queue w q) r
        → Runs q r

  head-outcome :
      (w : World N) (q : Queue N) (job : Job N) (jobs : List (Job N)) (t : Tx)
      → Reads w.read q.config
      → IsInstalled (world_of w job) q.config t
      → (t.popped && not t.config_committed) ≡ false
      → outcome (finished job jobs t) ≡ apply_all (job ∷ jobs) q.config
  unfolding apply_all
  head-outcome w q job jobs t reads (inl (kept, uncommitted)) stays =
      let waits : t.popped ≡ false = ground (arith, stays, uncommitted) in
      ap (λ b. apply_all (if b then jobs else waiting job t ∷ jobs) t.config) waits
      ∙ ap (apply_all (job ∷ jobs)) kept
  head-outcome w q job jobs t reads (inr (c, committed, popped)) stays =
      let same = reads c.original c.was_read in
      ap (λ b. apply_all (if b then jobs else waiting job t ∷ jobs) t.config) popped
      ∙ ap (λ r. r >>= apply_all jobs) (sym c.transformed ∙ ap job.transform same)

  run_head-outcome :
      (w : World N) (q : Queue N) (pending : List (Job N))
      → q.pending ≡ pending
      → Reads w.read q.config
      → is_dropped w q pending ≡ false
      → outcome (run_head w q pending) ≡ apply_all pending q.config
  run_head-outcome w q [] e reads stays = ap (λ jobs. apply_all jobs q.config) e
  run_head-outcome w q (job ∷ jobs) e reads stays =
      head-outcome w q job jobs (run_of w q job) reads
        (process_once-IsInstalled (world_of w job) (entry_of q job) refl) stays

  -- The outcome of the queue is the same before and after runs that drop no job.
  pub Runs-outcome : (q r : Queue N) → Runs q r → outcome r ≡ outcome q
  unfolding run_queue
  Runs-outcome q _ (Runs.done _) = refl
  Runs-outcome q r (Runs.run w _ _ reads stays rest) =
      Runs-outcome (run_queue w q) r rest ∙ run_head-outcome w q q.pending refl reads stays

  drained-outcome : (r : Queue N) → r.pending ≡ [] → outcome r ≡ ok r.config
  unfolding apply_all
  drained-outcome r e = ap (λ jobs. apply_all jobs r.config) e

  -- When `enqueue` accepts a job over the configuration on disk, and the queue is then run until it is empty,
  -- each run reading what is on disk and dropping no job, the configuration on disk is what all the jobs make of
  -- the first one, and it is the candidate that `enqueue` staged for validation and whose binding it accepted.
  pub enqueue-outcome :
      (desk : Desk N) (job : Job N) (q r : Queue N)
      → Reads desk.read q.config
      → (enqueue desk job q).0 ≡ ok Enqueued.queued
      → Runs (enqueue desk job q).1 r
      → r.pending ≡ []
      → (apply_all (q.pending ++ job ∷ []) q.config ≡ ok r.config)
        × (desk.stage r.config ≡ ok tt)
        × (job.binding r.config ≡ ok tt)
  enqueue-outcome desk job q r reads queued runs drained =
      let h = enqueue-IsQueued desk job q queued in
      let c = h.candidate in
      let made : (apply_all q.pending q.config >>= job.transform) ≡ ok c =
        ap (λ config. apply_all q.pending config >>= job.transform)
          (sym (reads h.planned.source h.planned.was_read))
        ∙ h.planned.made in
      let promised : ok r.config ≡ ok c =
        sym (drained-outcome r drained)
        ∙ Runs-outcome _ r runs
        ∙ ap outcome h.appended
        ∙ apply_all-append q.pending (accepted desk job) q.config
        ∙ made in
      let same : r.config ≡ c = cc in
      (
        apply_all-append q.pending job q.config ∙ made ∙ sym promised,
        ap desk.stage same ∙ h.staged,
        ap job.binding same ∙ h.planned.is_bound,
      )
