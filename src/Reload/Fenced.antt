-- ===== src/Reload/Fenced.antt =====
-- llmsvc/reload.py: a configuration that was replaced is adopted, or stays fenced.
use llm_service_manager.Prelude.{
  String, ◌≡◌, refl, ◌⊎◌, inl, inr, false, not, Option, none, some, List, [], ◌∷◌, str_eq, arith,
}
use llm_service_manager.Prelude.Tests.{ltb, if_ind}
use llm_service_manager.Prelude.Float.{Float}
use llm_service_manager.Prelude.Result.{Result, ok, err}
use llm_service_manager.Reload.World.{Source, World}
use llm_service_manager.Reload.Transaction.{
  JobStatus, Tx, Run, same_file, is_late, blocked, check_base, write_marker, last_check, prepare,
  replace_config, confirm, commit, transaction, has_effects, cleaned, fail, settle, fenced,
  admitted, process_once,
}
use llm_service_manager.Reload.Steps.{
  is_applied, Untouched, Marked, Committed, Adopted, Applied, Failed, OnRun, OnRun-bind,
  require-OnRun, Untouched-Safe, Marked-Safe, tried, required, timed_out, IsSettled,
}
use llm_service_manager.Reload.Commit.{
  write_marker-On, last_check-On, prepare-On, replace_config-On, confirm-On, retire-On,
}

module _ {N : Type 0} ⦃F : Float N⦄ (w : World N) (before : String) where
  commit-On :
      (original : Source) (candidate : String) (t : Tx)
      → Untouched before t
      → OnRun before (Applied before) (commit w original candidate t)
  commit-On original candidate t h =
      let U = Untouched before in
      let A = Applied before in
      let M = Marked before in
      let safe = Untouched-Safe before in
      tried before U A w.reread _ t safe h (λ current t h.
        required before U A (same_file current original) _ _ t safe h (λ _ t h.
          tried before U A (w.marker_bytes candidate) _ t safe h (λ bytes t h.
            required before U A (not (ltb 65536 (w.marker_size bytes))) _ _ t safe h (λ _ t h.
              OnRun-bind before M A (write_marker w bytes t) _ (write_marker-On w before bytes t h)
                (λ _ t h.
                  tried before M A w.third_blockers _ t (Marked-Safe before) h (λ blockers t h.
                    OnRun-bind before M A (last_check w blockers t) _
                      (last_check-On w before blockers t h)
                      (λ _ t h.
                        OnRun-bind before M A (prepare w original bytes w.maintenance t) _
                          (prepare-On w before original bytes w.maintenance t h)
                          (λ _ t h.
                            OnRun-bind before (Committed before) A (replace_config w candidate t) _
                              (replace_config-On w before candidate t h)
                              (λ _ t h.
                                OnRun-bind before (Adopted before) A (confirm w t) _
                                  (confirm-On w before t h)
                                  (λ _ t h. retire-On w before bytes t h))))))))))

  -- A transaction that ends without an exception
  abbrev Done : Tx → Type 0
  Done t = Untouched before t ⊎ Applied before t

  Done-OnRun :
      {A : Type 0} (Q : Tx → Type 0) (r : Run A)
      → ((t : Tx) → Q t → Done t)
      → OnRun before Q r
      → OnRun before Done r
  Done-OnRun Q (Run.next t a) f h = f t h
  Done-OnRun Q (Run.returns t) f h = h
  Done-OnRun Q (Run.raises t reason) f h = h

  check_base-On :
      (original : Source) (maintenance : Option String) (t : Tx)
      → Untouched before t
      → OnRun before (Untouched before) (check_base w original maintenance t)
  check_base-On original none t h = h
  check_base-On original (some base) t h =
      let U = Untouched before in
      let safe = Untouched-Safe before in
      required before U U w.has_binding _ _ t safe h
        (λ _ t h. require-OnRun before U (str_eq (w.sha256 original.content) base) _ t safe h)

  blocked-On :
      (blockers : List String) (t : Tx)
      → Untouched before t
      → OnRun before (Untouched before) (blocked blockers t)
  blocked-On [] t h = h
  blocked-On (b ∷ bs) t h = h

  transaction-On : (t : Tx) → Untouched before t → OnRun before Done (transaction w t)
  unfolding transaction
  transaction-On t h =
      let U = Untouched before in
      let safe = Untouched-Safe before in
      tried before U Done w.read _ t safe h (λ original t h.
        OnRun-bind before U Done (check_base w original w.maintenance t) _
          (check_base-On original w.maintenance t h)
          (λ _ t h. tried before U Done (w.transform original.content) _ t safe h (λ candidate t h.
            tried before U Done (w.binding candidate) _ t safe h (λ _ t h.
              tried before U Done (w.stage candidate) _ t safe h (λ _ t h.
                tried before U Done w.second_blockers _ _ safe h (λ blockers t h.
                  OnRun-bind before U Done (blocked blockers t) _ (blocked-On blockers t h)
                    (λ _ t h.
                      if_ind (λ (f : Tx → Run (Unit {0})). OnRun before Done (f t))
                        (is_late w w.second_clock) (λ _. inl (timed_out before t h))
                        (λ _.
                          Done-OnRun (Applied before) (commit w original candidate t) (λ _ a. inr a)
                            (commit-On original candidate t h)))))))))

  cleaned-IsSettled :
      (r : Result (Unit {0})) (t : Tx) → Untouched before t → IsSettled before (cleaned r t)
  cleaned-IsSettled (ok _) t h = inl h
  cleaned-IsSettled (err reason) t h = inl h

  fail-IsSettled : (reason : String) (t : Tx) → Failed before t → IsSettled before (fail w reason t)
  fail-IsSettled reason t (inl (kept, uncommitted, status)) =
      if_ind (IsSettled before) (has_effects t) (λ _. inl (kept, uncommitted, refl))
        (λ _.
          if_ind (IsSettled before) t.marker_created
            (λ _.
              cleaned-IsSettled w.cleaned_up
                (record t { status = JobStatus.failed; error = some reason })
                (kept, uncommitted, refl))
            (λ _. inl (kept, uncommitted, refl)))
  fail-IsSettled reason t (inr (committed, still)) =
      if_ind (IsSettled before) (has_effects t) (λ _. inr (committed, inr (refl, still)))
        (λ e. absurd (ground (arith, e, committed)))

  settle-IsSettled : (r : Run (Unit {0})) → OnRun before Done r → IsSettled before (settle w r)
  settle-IsSettled (Run.next t _) (inl h) = inl h
  settle-IsSettled (Run.next t _) (inr (committed, adopted, applied, lifted)) =
      inr (committed, inl (applied, adopted, lifted))
  settle-IsSettled (Run.returns t) h = inl h
  settle-IsSettled (Run.raises t reason) h = fail-IsSettled reason t h

  admitted-IsSettled :
      (blockers : Result (List String)) (t : Tx)
      → Untouched before t
      → IsSettled before (admitted w blockers t)
  admitted-IsSettled (err reason) t h = inl h
  admitted-IsSettled (ok []) t h =
      settle-IsSettled (transaction w (record t { blocked_by = [] }))
        (transaction-On (record t { blocked_by = [] }) h)
  admitted-IsSettled (ok (b ∷ bs)) t h = inl h

-- A job that no run has changed yet
abbrev pub IsEntry : Tx → Type 0
IsEntry t = (t.config_committed ≡ false) × (is_applied t.status ≡ false)

-- For a job that no run has changed yet, one run leaves the configuration as it was, the job not applied; or
-- it replaces it, and then the job is applied, with its adoption confirmed and no fence left, or it requires
-- reconciliation and the fence stays. This holds whatever the clock, the files, the blockers and the
-- callbacks answer, exceptions included.
pub process_once-IsSettled :
    {N : Type 0} ⦃F : Float N⦄ (w : World N) (t : Tx)
    → IsEntry t
    → IsSettled t.config (process_once w t)
unfolding process_once
process_once-IsSettled w t (uncommitted, status) =
    if_ind (IsSettled t.config) (fenced t) (λ _. inl (refl, uncommitted, status))
      (λ _.
        if_ind (IsSettled t.config) (is_late w w.first_clock) (λ _. inl (refl, uncommitted, refl))
          (λ _. admitted-IsSettled w t.config w.first_blockers t (refl, uncommitted, status)))
