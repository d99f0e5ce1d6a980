-- ===== src/Reload/Installed.antt =====
-- llmsvc/reload.py: which configuration a run of the queue leaves on disk.
use llm_service_manager.Prelude.{
  String, ◌≡◌, refl, ◌⊎◌, inl, inr, Bool, true, false, not, ◌||◌, Option, none, some, List, [], ◌∷◌,
  str_eq, arith,
}
use llm_service_manager.Prelude.Tests.{ltb, if_ind}
use llm_service_manager.Prelude.Lists.{is_empty}
use llm_service_manager.Prelude.Float.{Float}
use llm_service_manager.Prelude.Result.{Result, ok, err}
use llm_service_manager.Reload.World.{Source, World}
use llm_service_manager.Reload.Transaction.{
  JobStatus, Tx, Run, then_run, attempt, require, has_effects, fenced, blocked, cleaned, is_late,
  before_deadline, same_record, same_file, check_base, write_marker, withdraw, last_check, prepare,
  replace_config, confirm, unlinked, retire, commit, transaction, fail, settle, admitted,
  process_once,
}

module _ {N : Type 0} ⦃F : Float N⦄ (w : World N) (before : String) where
  -- What was read, transformed, accepted by the binding, and validated
  pub record IsCandidate (config : String) : Type 0 where
    pub original : Source
    pub was_read : w.read ≡ ok original
    pub transformed : w.transform original.content ≡ ok config
    pub is_bound : w.binding config ≡ ok tt
    pub is_valid : w.stage config ≡ ok tt

  abbrev Kept : Tx → Type 0
  Kept t = (t.config ≡ before) × (t.config_committed ≡ false)

  abbrev Held : Tx → Type 0
  Held t = Kept t ⊎ (IsCandidate t.config × (t.config_committed ≡ true))

  -- A return leaves the configuration as it was.
  abbrev On : {A : Type 0} → (Tx → Type 0) → Run A → Type 0
  On Q (Run.next t a) = Q t
  On Q (Run.returns t) = Kept t
  On Q (Run.raises t reason) = Held t

  On-bind :
      {A B : Type 0} (Q R : Tx → Type 0) (m : Run A) (k : A → Tx → Run B)
      → On Q m
      → ((a : A) (t : Tx) → Q t → On R (k a t))
      → On R (then_run m k)
  On-bind Q R (Run.next t a) k h f = f a t h
  On-bind Q R (Run.returns t) k h f = h
  On-bind Q R (Run.raises t reason) k h f = h

  -- A call that answers, and what comes after it
  called :
      {A B : Type 0} (Q R : Tx → Type 0) (r : Result A) (k : A → Tx → Run B) (t : Tx)
      → (Q t → Held t)
      → Q t
      → ((a : A) → r ≡ ok a → (t : Tx) → Q t → On R (k a t))
      → On R (then_run (attempt r t) k)
  called Q R (ok a) k t safe h f = f a refl t h
  called Q R (err reason) k t safe h f = safe h

  checked :
      {B : Type 0} (Q R : Tx → Type 0) (b : Bool) (reason : String) (k : Unit {0} → Tx → Run B)
      (t : Tx)
      → (Q t → Held t)
      → Q t
      → ((a : Unit {0}) (t : Tx) → Q t → On R (k a t))
      → On R (then_run (require b reason t) k)
  checked Q R true reason k t safe h f = f tt t h
  checked Q R false reason k t safe h f = safe h

  attempt-On :
      {A : Type 0} (Q : Tx → Type 0) (r : Result A) (t : Tx) → Held t → Q t → On Q (attempt r t)
  attempt-On Q (ok a) t h q = q
  attempt-On Q (err reason) t h q = h

  require-On :
      (Q : Tx → Type 0) (b : Bool) (reason : String) (t : Tx)
      → Held t
      → Q t
      → On Q (require b reason t)
  require-On Q true reason t h q = q
  require-On Q false reason t h q = h

  check_base-Kept :
      (s : Source) (maintenance : Option String) (t : Tx)
      → Kept t
      → On Kept (check_base w s maintenance t)
  check_base-Kept s none t h = h
  check_base-Kept s (some base) t h =
      checked Kept Kept w.has_binding _ _ t inl h
        (λ _ t h. require-On Kept (str_eq (w.sha256 s.content) base) _ t (inl h) h)

  blocked-Kept : (blockers : List String) (t : Tx) → Kept t → On Kept (blocked blockers t)
  blocked-Kept [] t h = h
  blocked-Kept (b ∷ bs) t h = h

  write_marker-Kept : (bytes : String) (t : Tx) → Kept t → On Kept (write_marker w bytes t)
  write_marker-Kept bytes t h = called Kept Kept w.marker_opened _ t inl h (λ _ _ t h.
      called Kept Kept w.marker_written _ _ inl h
        (λ _ _ t h. attempt-On Kept w.marker_synced t (inl h) h))

  withdraw-Kept : (expired : Bool) (t : Tx) → Kept t → On Kept (withdraw w expired t)
  withdraw-Kept expired t h = called Kept Kept w.marker_withdrawn _ t inl h (λ _ _ t h.
      called Kept Kept w.withdrawal_synced _ _ inl h
        (λ _ _ t h. if_ind Kept expired (λ _. h) (λ _. h)))

  last_check-Kept : (blockers : List String) (t : Tx) → Kept t → On Kept (last_check w blockers t)
  last_check-Kept blockers t h =
      if_ind (λ (f : Tx → Run (Unit {0})). On Kept (f (record t { blocked_by = blockers })))
        (not (is_empty blockers) || is_late w w.third_clock)
        (λ _. withdraw-Kept (is_late w w.third_clock) _ h) (λ _. h)

  prepare-Kept :
      (s : Source) (bytes : String) (maintenance : Option String) (t : Tx)
      → Kept t
      → On Kept (prepare w s bytes maintenance t)
  prepare-Kept s bytes none t h = h
  prepare-Kept s bytes (some base) t h =
      checked Kept Kept (before_deadline w w.prepare_clock) _ _ t inl h (λ _ t h.
        checked Kept Kept w.adapter_available _ _ t inl h (λ _ t h.
          called Kept Kept w.before_replace _ _ inl h (λ _ _ t h.
            checked Kept Kept (before_deadline w w.prepared_clock) _ _ t inl h (λ _ t h.
              checked Kept Kept w.still_bound _ _ t inl h (λ _ t h.
                called Kept Kept w.latest _ t inl h (λ latest _ t h.
                  checked Kept Kept (same_record latest s) _ _ t inl h
                    (λ _ t h. attempt-On Kept w.marker_intact t (inl h) h)))))))

  -- The candidate is on disk.
  abbrev Installed : Tx → Type 0
  Installed t = IsCandidate t.config × (t.config_committed ≡ true)

  confirm-Installed : (t : Tx) → Installed t → On Installed (confirm w t)
  confirm-Installed t h =
      let I = Installed in
      called I I w.directory_synced _ t inr h (λ _ _ t h.
        checked I I (before_deadline w w.replaced_clock) _ _ t inr h (λ _ t h.
          called I I w.notified _ t inr h (λ _ _ t h.
            checked I I (before_deadline w w.adopted_clock) _ _ _ inr h (λ _ t h.
              called I I w.after_apply _ t inr h
                (λ _ _ t h. require-On I (before_deadline w w.applied_clock) _ t (inr h) h)))))

  unlinked-Installed :
      (bytes : String) (synced : Result (Unit {0})) (t : Tx)
      → Installed t
      → On Installed (unlinked w bytes synced t)
  unlinked-Installed bytes (ok _) t h = h
  unlinked-Installed bytes (err reason) t h =
      if_ind Held w.marker_restored (λ _. inr h) (λ _. inr h)

  retire-Installed : (bytes : String) (t : Tx) → Installed t → On Installed (retire w bytes t)
  retire-Installed bytes t h =
      let I = Installed in
      called I I w.marker_matches _ _ inr h (λ _ _ t h.
        called I I w.marker_removed _ t inr h
          (λ _ _ t h. unlinked-Installed bytes w.removal_synced t h))

  replace_config-Installed :
      (candidate : String) (t : Tx)
      → IsCandidate candidate
      → Kept t
      → On Installed (replace_config w candidate t)
  replace_config-Installed candidate t c h =
      called Kept Installed w.replaced _ t inl h (λ _ _ _ _. (c, refl))

  held : {A : Type 0} (r : Run A) → On Installed r → On Held r
  held (Run.next t a) h = inr h
  held (Run.returns t) h = h
  held (Run.raises t reason) h = h

  commit-Held :
      (s : Source) (candidate : String) (t : Tx)
      → IsCandidate candidate
      → Kept t
      → On Held (commit w s candidate t)
  commit-Held s candidate t c h =
      let K = Kept in
      let I = Installed in
      called K Held w.reread _ t inl h (λ current _ t h.
        checked K Held (same_file current s) _ _ t inl h (λ _ t h.
          called K Held (w.marker_bytes candidate) _ t inl h (λ bytes _ t h.
            checked K Held (not (ltb 65536 (w.marker_size bytes))) _ _ t inl h (λ _ t h.
              On-bind K Held (write_marker w bytes t) _ (write_marker-Kept bytes t h) (λ _ t h.
                called K Held w.third_blockers _ t inl h (λ blockers _ t h.
                  On-bind K Held (last_check w blockers t) _ (last_check-Kept blockers t h)
                    (λ _ t h.
                      On-bind K Held (prepare w s bytes w.maintenance t) _
                        (prepare-Kept s bytes w.maintenance t h)
                        (λ _ t h.
                          On-bind I Held (replace_config w candidate t) _
                            (replace_config-Installed candidate t c h)
                            (λ _ t h.
                              On-bind I Held (confirm w t) _ (confirm-Installed t h) (λ _ t h.
                                held (retire w bytes t) (retire-Installed bytes t h)))))))))))

  transaction-Held : (t : Tx) → Kept t → On Held (transaction w t)
  unfolding transaction
  transaction-Held t h =
      let K = Kept in
      called K Held w.read _ t inl h (λ s read_it t h.
        On-bind K Held (check_base w s w.maintenance t) _ (check_base-Kept s w.maintenance t h)
          (λ _ t h. called K Held (w.transform s.content) _ t inl h (λ candidate made t h.
            called K Held (w.binding candidate) _ t inl h (λ _ bound t h.
              called K Held (w.stage candidate) _ t inl h (λ _ valid t h.
                called K Held w.second_blockers _ _ inl h (λ blockers _ t h.
                  On-bind K Held (blocked blockers t) _ (blocked-Kept blockers t h) (λ _ t h.
                    if_ind (λ (f : Tx → Run (Unit {0})). On Held (f t)) (is_late w w.second_clock)
                      (λ _. inl h)
                      (λ _.
                        commit-Held s candidate t
                          (record {
                            original = s;
                            was_read = read_it;
                            transformed = made;
                            is_bound = bound;
                            is_valid = valid;
                          })
                          h))))))))

  -- A run keeps the configuration, or installs the candidate and takes the job off the queue.
  abbrev pub IsInstalled : Tx → Type 0
  IsInstalled t = Kept t ⊎ (IsCandidate t.config × (t.config_committed ≡ true) × (t.popped ≡ true))

  cleaned-Kept : (r : Result (Unit {0})) (t : Tx) → Kept t → IsInstalled (cleaned r t)
  cleaned-Kept (ok _) t h = inl h
  cleaned-Kept (err reason) t h = inl h

  fail-IsInstalled : (reason : String) (t : Tx) → Held t → IsInstalled (fail w reason t)
  fail-IsInstalled reason t (inl h) =
      if_ind IsInstalled (has_effects t) (λ _. inl h)
        (λ _.
          if_ind IsInstalled t.marker_created
            (λ _.
              cleaned-Kept w.cleaned_up
                (record t { status = JobStatus.failed; error = some reason }) h)
            (λ _. inl h))
  fail-IsInstalled reason t (inr (c, committed)) =
      if_ind IsInstalled (has_effects t) (λ _. inr (c, committed, refl))
        (λ e. absurd (ground (arith, e, committed)))

  settle-IsInstalled : (r : Run (Unit {0})) → On Held r → IsInstalled (settle w r)
  settle-IsInstalled (Run.next t _) (inl h) = inl h
  settle-IsInstalled (Run.next t _) (inr (c, committed)) = inr (c, committed, refl)
  settle-IsInstalled (Run.returns t) h = inl h
  settle-IsInstalled (Run.raises t reason) h = fail-IsInstalled reason t h

  admitted-IsInstalled :
      (blockers : Result (List String)) (t : Tx) → Kept t → IsInstalled (admitted w blockers t)
  admitted-IsInstalled (err reason) t h = inl h
  admitted-IsInstalled (ok []) t h =
      settle-IsInstalled (transaction w (record t { blocked_by = [] }))
        (transaction-Held (record t { blocked_by = [] }) h)
  admitted-IsInstalled (ok (b ∷ bs)) t h = inl h

-- Whatever the calls answer, a run of a job that has committed nothing keeps the configuration, or installs what
-- the job's transformation makes of the configuration that was read, once its binding was accepted and the
-- candidate was validated; then the job has left the queue.
pub process_once-IsInstalled :
    {N : Type 0} ⦃F : Float N⦄ (w : World N) (t : Tx)
    → t.config_committed ≡ false
    → IsInstalled w t.config (process_once w t)
unfolding process_once
process_once-IsInstalled w t uncommitted =
    if_ind (IsInstalled w t.config) (fenced t) (λ _. inl (refl, uncommitted))
      (λ _.
        if_ind (IsInstalled w t.config) (is_late w w.first_clock) (λ _. inl (refl, uncommitted))
          (λ _. admitted-IsInstalled w t.config w.first_blockers t (refl, uncommitted)))
