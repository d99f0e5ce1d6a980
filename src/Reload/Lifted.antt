-- ===== src/Reload/Lifted.antt =====
-- llmsvc/reload.py: a fence is lifted only by a proof of the receipt that is still there.
use llm_service_manager.Prelude.{
  String, ◌≡◌, refl, ◌⊎◌, inl, inr, Bool, true, false, not, ◌&&◌, Option, none, some, str_eq, arith,
}
use llm_service_manager.Prelude.Tests.{◌==◌, is_none, if_ind}
use llm_service_manager.Prelude.Result.{
  Result, ok, err, guard, OnOk, OnOk-bind, OnOk-eq, skip, under,
}
use llm_service_manager.Reload.World.{Source}
use llm_service_manager.Reload.Receipt.{
  Receipt, Proof, RecoveryProof, InstanceTransitionProof, MaintenanceDescriptor, CandidateBinding,
  all_confirmed, bound_instance, is_transition, are_instances, expected_digest, is_digest,
  confirm_recovery, confirm_binding, confirm_transition, confirm_by, confirm_proof,
  check_recovery_source,
}
use llm_service_manager.Reload.Settle.{
  Fence, is_fenced, Marker, Settled, Settlement, Answers, latch, read_marker, reworded, unavailable,
  changed, fits_latch, settle_checks, after_removal, stays, retire_marker, settled_by,
  reconcile_receipt,
}

module _ (sha256 : String → String) where
  -- A proof that settles a receipt, and the digest that the configuration must have: the adoption on the
  -- bound instance; or the change to another instance, which has adopted the candidate, or has restored the
  -- base after the attempt was settled
  pub data IsConfirmed (r : Receipt) (raw : String) : Proof → (expected : String) → Type 0 where
    by_recovery :
        (p : RecoveryProof)
        → r.maintenance ≡ none
        → str_eq p.marker_sha256 (sha256 raw) ≡ true
        → all_confirmed p ≡ true
        → bound_instance r.witness_binding p.instance_identity ≡ true
        → IsConfirmed r raw (Proof.recovery p) r.sha256
    by_adoption :
        (d : MaintenanceDescriptor) (b : CandidateBinding) (p : InstanceTransitionProof)
        → r.maintenance ≡ some d
        → r.witness_binding ≡ some b
        → is_transition sha256 raw d b p ≡ true
        → are_instances p ≡ true
        → p.restored_base ≡ false
        → (is_none p.attempt_instance && not p.attempt_settled) ≡ true
        → IsConfirmed r raw (Proof.transition p) r.sha256
    by_rollback :
        (d : MaintenanceDescriptor) (b : CandidateBinding) (p : InstanceTransitionProof)
        → r.maintenance ≡ some d
        → r.witness_binding ≡ some b
        → is_transition sha256 raw d b p ≡ true
        → are_instances p ≡ true
        → p.restored_base ≡ true
        → p.attempt_settled ≡ true
        → IsConfirmed r raw (Proof.transition p) d.base_sha256

  module _ (r : Receipt) (raw : String) where
    abbrev Confirms : Proof → String → Type 0
    Confirms p expected = IsConfirmed r raw p expected

    confirm_recovery-Confirms :
        (p : RecoveryProof)
        → r.maintenance ≡ none
        → OnOk (Confirms (Proof.recovery p)) (confirm_recovery sha256 r raw p)
    unfolding confirm_recovery
    confirm_recovery-Confirms p e =
        let P = Confirms (Proof.recovery p) in
        under P (str_eq p.marker_sha256 (sha256 raw) && all_confirmed p) _ _ (λ h.
          under P (bound_instance r.witness_binding p.instance_identity) _ _
            (λ k. IsConfirmed.by_recovery p e (ground (arith, h)) (ground (arith, h)) k))

    expected_digest-Confirms :
        (d : MaintenanceDescriptor) (b : CandidateBinding) (p : InstanceTransitionProof)
        → r.maintenance ≡ some d
        → r.witness_binding ≡ some b
        → is_transition sha256 raw d b p ≡ true
        → are_instances p ≡ true
        → OnOk (Confirms (Proof.transition p)) (expected_digest sha256 r d p)
    expected_digest-Confirms d b p ed eb t i =
        let P = Confirms (Proof.transition p) in
        if_ind (OnOk P) p.restored_base
          (λ e. under P p.attempt_settled _ _ (λ s. IsConfirmed.by_rollback d b p ed eb t i e s))
          (λ e.
            under P (is_none p.attempt_instance && not p.attempt_settled) _ _
              (λ s. IsConfirmed.by_adoption d b p ed eb t i e s))

    confirm_binding-Confirms :
        (d : MaintenanceDescriptor) (b : CandidateBinding) (p : InstanceTransitionProof)
        → r.maintenance ≡ some d
        → r.witness_binding ≡ some b
        → OnOk (Confirms (Proof.transition p)) (confirm_binding sha256 r raw d b p)
    unfolding confirm_binding
    confirm_binding-Confirms d b p ed eb =
        let P = Confirms (Proof.transition p) in
        under P (is_transition sha256 raw d b p) _ _ (λ t. under P (are_instances p) _ _ (λ i.
          skip P
            (guard (is_digest p.new_scope_sha256 && is_digest p.current_sha256)
              "invalid transition scope or digest")
            _
            (OnOk-bind P (expected_digest sha256 r d p) _ (λ expected e.
              skip P
                (guard (str_eq p.current_sha256 expected) "transition source digest not confirmed")
                (ok expected)
                (OnOk-eq P _ expected (expected_digest-Confirms d b p ed eb t i) e)))))

    confirm_transition-Confirms :
        (d : MaintenanceDescriptor) (p : Proof)
        → r.maintenance ≡ some d
        → OnOk (Confirms p) (confirm_transition sha256 r raw d p)
    unfolding confirm_transition
    confirm_transition-Confirms d (Proof.recovery p) ed = tt
    confirm_transition-Confirms d Proof.other ed = tt
    confirm_transition-Confirms d (Proof.transition p) ed = go r.witness_binding refl
      where
        go :
            (found : Option CandidateBinding)
            → r.witness_binding ≡ found
            → OnOk
                (Confirms (Proof.transition p))
                (elim found [ none ↦ err "KeyError" | some b ↦ confirm_binding sha256 r raw d b p ])
        go none eb = tt
        go (some b) eb = confirm_binding-Confirms d b p ed eb

    confirm_by-Confirms :
        (found : Option MaintenanceDescriptor) (p : Proof)
        → r.maintenance ≡ found
        → OnOk (Confirms p) (confirm_by sha256 r raw found p)
    confirm_by-Confirms (some d) p e = confirm_transition-Confirms d p e
    confirm_by-Confirms none (Proof.recovery p) e = confirm_recovery-Confirms p e
    confirm_by-Confirms none (Proof.transition p) e = tt
    confirm_by-Confirms none Proof.other e = tt

    pub confirm_proof-Confirms :
        (p : Proof) (expected : String)
        → confirm_proof sha256 r raw p ≡ ok expected
        → Confirms p expected
    confirm_proof-Confirms p expected e =
        OnOk-eq (Confirms p) _ expected (confirm_by-Confirms r.maintenance p refl) e

-- A valid marker, which is the latched one if there is one, and the configuration were read, the verifier proved the receipt, and a second read found
-- the same marker and a configuration with the digest that the proof asks for.
pub record IsProved (a : Answers) (f : Fence) : Type 0 where
  pub first : Marker
  pub source : Source
  pub proof : Proof
  pub expected : String
  pub second : Marker
  pub source_again : Source
  pub marker_read : a.marker ≡ ok first
  pub fits : fits_latch f.completion_marker first.raw ≡ true
  pub source_read : a.source ≡ ok source
  pub proof_given : a.proof first.receipt ≡ ok proof
  pub confirmed : IsConfirmed a.sha256 first.receipt first.raw proof expected
  pub has_expected : str_eq (a.sha256 source.content) expected ≡ true
  pub marker_reread : a.marker_again ≡ ok second
  pub source_reread : a.source_again ≡ ok source_again
  pub same_raw : str_eq second.raw first.raw ≡ true
  pub same_identity : (second.identity == first.identity) ≡ true
  pub still_expected : str_eq (a.sha256 source_again.content) expected ≡ true

read_marker-eq :
    (f : Fence) (answer : Result Marker) (m : Marker) → read_marker f answer ≡ ok m → answer ≡ ok m
read_marker-eq f (err reason) m e = absurd cc e
read_marker-eq f (ok found) m e =
    OnOk-eq (λ (x : Marker). ok found ≡ ok x) (read_marker f (ok found)) m
      (under (λ (x : Marker). ok found ≡ ok x) (fits_latch f.completion_marker found.raw) _ _
        (λ _. refl))
      e

read_marker-fits :
    (f : Fence) (answer : Result Marker) (m : Marker)
    → read_marker f answer ≡ ok m
    → fits_latch f.completion_marker m.raw ≡ true
read_marker-fits f (err reason) m e = absurd cc e
read_marker-fits f (ok found) m e =
    OnOk-eq (λ (x : Marker). fits_latch f.completion_marker x.raw ≡ true) (read_marker f (ok found))
      m
      (under (λ (x : Marker). fits_latch f.completion_marker x.raw ≡ true)
        (fits_latch f.completion_marker found.raw) _ _ (λ h. h))
      e

reworded-eq :
    {V : Type 0} (message : String) (r : Result V) (value : V)
    → reworded message r ≡ ok value
    → r ≡ ok value
reworded-eq message (err reason) value e = absurd cc e
reworded-eq message (ok found) value e = e

settle_checks-IsProved :
    (a : Answers) (f : Fence) → OnOk (λ (raw : String). IsProved a f) (settle_checks a f)
unfolding settle_checks
settle_checks-IsProved a f =
    let P : String → Type 0 = λ raw. IsProved a f in
    OnOk-bind P (reworded unavailable (read_marker f a.marker)) _ (λ m em.
      OnOk-bind P (reworded unavailable a.source) _ (λ s es.
        skip P (check_recovery_source a.sha256 m.receipt s.content) _ (
          OnOk-bind P (a.proof m.receipt) _ (λ p ep.
            OnOk-bind P (confirm_proof a.sha256 m.receipt m.raw p) _ (λ expected ec.
              under P (str_eq (a.sha256 s.content) expected) _ _ (λ h.
                OnOk-bind P (reworded changed (read_marker f a.marker_again)) _ (λ m2 em2.
                  OnOk-bind P (reworded changed a.source_again) _ (λ s2 es2.
                    under P
                      (str_eq m2.raw m.raw
                        && m2.identity == m.identity
                        && str_eq (a.sha256 s2.content) expected)
                      _ _
                      (λ k. record {
                        first = m;
                        source = s;
                        proof = p;
                        expected = expected;
                        second = m2;
                        source_again = s2;
                        marker_read = read_marker-eq f a.marker m (reworded-eq unavailable _ m em);
                        fits = read_marker-fits f a.marker m (reworded-eq unavailable _ m em);
                        source_read = reworded-eq unavailable a.source s es;
                        proof_given = ep;
                        confirmed = confirm_proof-Confirms a.sha256 m.receipt m.raw p expected ec;
                        has_expected = h;
                        marker_reread =
                            read_marker-eq f a.marker_again m2 (reworded-eq changed _ m2 em2);
                        source_reread = reworded-eq changed a.source_again s2 es2;
                        same_raw = ground (arith, k);
                        same_identity = ground (arith, k);
                        still_expected = ground (arith, k);
                      })))))))))

-- The fence is there, or a proof lifted it.
abbrev pub IsLifted : (proved : Type 0) → Settlement → Type 0
IsLifted proved s =
    (is_fenced s.fence ≡ true)
    ⊎ (proved × (is_fenced s.fence ≡ false) × (s.outcome ≡ ok Settled.reconciled))

latched_stays :
    (proved : Type 0) (f : Fence) (raw reason : String)
    → IsLifted proved (stays (latch f raw) reason)
latched_stays proved f raw reason = inl refl

after_removal-IsLifted :
    (proved : Type 0) (restored : Bool) (raw : String) (synced : Result (Unit {0}))
    → proved
    → IsLifted proved (after_removal restored raw synced)
after_removal-IsLifted proved restored raw (ok _) h = inr (h, refl, refl)
after_removal-IsLifted proved restored raw (err reason) h = inl refl

retire_marker-IsLifted :
    (a : Answers) (f : Fence) (raw : String)
    → IsProved a f
    → IsLifted (IsProved a f) (retire_marker a f raw)
retire_marker-IsLifted a f raw h = matched a.marker_matches
  where
    removed :
        (r : Result (Unit {0}))
        → IsLifted (IsProved a f) (elim r [
          | err reason ↦ stays (latch f raw) reason
          | ok _ ↦ after_removal a.marker_restored raw a.removal_synced
        ])
    removed (err reason) = latched_stays (IsProved a f) f raw reason
    removed (ok _) = after_removal-IsLifted (IsProved a f) a.marker_restored raw a.removal_synced h

    matched :
        (r : Result (Unit {0}))
        → IsLifted (IsProved a f) (elim r [
          | err reason ↦ stays (latch f raw) reason
          | ok _ ↦ elim a.marker_removed [
            | err reason ↦ stays (latch f raw) reason
            | ok _ ↦ after_removal a.marker_restored raw a.removal_synced
          ]
        ])
    matched (err reason) = latched_stays (IsProved a f) f raw reason
    matched (ok _) = removed a.marker_removed

settled_by-IsLifted :
    (a : Answers) (f : Fence) (checked : Result String)
    → is_fenced f ≡ true
    → OnOk (λ (raw : String). IsProved a f) checked
    → IsLifted (IsProved a f) (settled_by a f checked)
settled_by-IsLifted a f (err reason) h p = inl h
settled_by-IsLifted a f (ok raw) h p = retire_marker-IsLifted a f raw p

-- A fence stays after `reconcile`, also after a dry run and after every error, unless the verifier proved the
-- receipt of the marker, the configuration has the digest that the proof asks for, and a second read found
-- the marker and that digest again; then the answer is that it is reconciled.
pub reconcile_receipt-IsLifted :
    (a : Answers) (dry_run : Bool) (f : Fence)
    → is_fenced f ≡ true
    → IsLifted (IsProved a f) (reconcile_receipt a dry_run f)
unfolding reconcile_receipt
reconcile_receipt-IsLifted a true f h = inl h
reconcile_receipt-IsLifted a false f h =
    settled_by-IsLifted a f (settle_checks a f) h (settle_checks-IsProved a f)
