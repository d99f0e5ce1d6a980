-- ===== src/Reload/Absent.antt =====
-- llmsvc/reload.py: the latch of a receipt whose marker is gone is lifted only by a proof of that receipt.
use llm_service_manager.Prelude.{
  String, ◌≡◌, refl, ◌⊎◌, inl, inr, Bool, true, false, ◌&&◌, Option, none, some, str_eq, arith,
}
use llm_service_manager.Prelude.Tests.{if_ind}
use llm_service_manager.Prelude.Result.{Result, ok, err, OnOk, OnOk-bind, skip, under}
use llm_service_manager.Reload.World.{Source}
use llm_service_manager.Reload.Transaction.{same_record}
use llm_service_manager.Reload.Receipt.{Receipt, Proof, confirm_proof, check_recovery_source}
use llm_service_manager.Reload.Settle.{
  Fence, is_fenced, Settled, Settlement, Answers, Absence, latch, fits_latch, reconcile_receipt,
  absence_checks, absence_settled, relatch, retired_receipt, latched_receipt,
  confirm_retired_receipt,
}
use llm_service_manager.Reload.Lifted.{
  IsConfirmed, confirm_proof-Confirms, IsProved, IsLifted, reconcile_receipt-IsLifted,
}

-- The receipt was parsed, the verifier proved it, and the marker was absent three times, around a
-- synchronization of the directory, while the configuration, with the digest that the proof asks for, did
-- not change.
pub record IsAbsent (b : Absence) (raw : String) : Type 0 where
  pub receipt : Receipt
  pub source : Source
  pub proof : Proof
  pub expected : String
  pub receipt_parsed : b.parsed ≡ ok receipt
  pub source_read : b.source ≡ ok source
  pub proof_given : b.proof receipt ≡ ok proof
  pub confirmed : IsConfirmed b.sha256 receipt raw proof expected
  pub has_expected : str_eq (b.sha256 source.content) expected ≡ true
  pub was_missing : b.present ≡ ok none
  pub source_again : Source
  pub source_reread : b.source_again ≡ ok source_again
  pub unchanged : same_record source_again source ≡ true
  pub latched : b.still_latched ≡ true
  pub directory_synced : b.directory_synced ≡ ok tt
  pub last_source : Source
  pub source_at_last : b.source_at_last ≡ ok last_source
  pub unchanged_at_last : same_record last_source source ≡ true
  pub was_absent : b.absent ≡ ok tt
  pub absent_after_sync : b.absent_again ≡ ok tt
  pub absent_in_the_end : b.absent_at_last ≡ ok tt

absence_checks-IsAbsent :
    (b : Absence) (r : Receipt) (raw : String)
    → b.parsed ≡ ok r
    → b.present ≡ ok none
    → OnOk (λ (_ : Unit {0}). IsAbsent b raw) (absence_checks b r raw)
unfolding absence_checks
absence_checks-IsAbsent b r raw er missing =
    let P : Unit {0} → Type 0 = λ _. IsAbsent b raw in
    OnOk-bind P b.source _ (λ s es. skip P (check_recovery_source b.sha256 r s.content) _ (
      OnOk-bind P (b.proof r) _ (λ p ep.
        OnOk-bind P (confirm_proof b.sha256 r raw p) _ (λ expected ec.
          under P (str_eq (b.sha256 s.content) expected) _ _ (λ h.
            OnOk-bind P b.source_again _ (λ s2 es2.
              under P (same_record s2 s && b.still_latched) _ _ (λ same.
                OnOk-bind P b.absent _ (λ u1 a1. OnOk-bind P b.directory_synced _ (λ u0 synced.
                  OnOk-bind P b.absent_again _ (λ u2 a2. OnOk-bind P b.source_at_last _ (λ s3 es3.
                    under P (same_record s3 s) _ _ (λ same3.
                      ends b.absent_at_last refl s p expected es ep ec h s2 es2
                        (ground (arith, same)) (ground (arith, same)) u0 synced s3 es3 same3 u1 a1
                        u2 a2))))))))))))
  where
    ends :
        (last : Result (Unit {0}))
        → b.absent_at_last ≡ last
        → (s : Source) (p : Proof) (expected : String) → b.source ≡ ok s
        → b.proof r ≡ ok p
        → confirm_proof b.sha256 r raw p ≡ ok expected
        → str_eq (b.sha256 s.content) expected ≡ true
        → (s2 : Source) → b.source_again ≡ ok s2
        → same_record s2 s ≡ true
        → b.still_latched ≡ true
        → (u0 : Unit {0}) → b.directory_synced ≡ ok u0
        → (s3 : Source) → b.source_at_last ≡ ok s3
        → same_record s3 s ≡ true
        → (u1 : Unit {0}) → b.absent ≡ ok u1
        → (u2 : Unit {0}) → b.absent_again ≡ ok u2
        → OnOk (λ (_ : Unit {0}). IsAbsent b raw) last
    ends (err reason) e s p expected es ep ec h s2 es2 same latched u0 synced s3 es3 same3 u1 a1 u2
          a2 =
        tt
    ends (ok _) e s p expected es ep ec h s2 es2 same latched u0 synced s3 es3 same3 u1 a1 u2 a2 =
        record {
          receipt = r;
          source = s;
          proof = p;
          expected = expected;
          receipt_parsed = er;
          source_read = es;
          proof_given = ep;
          confirmed = confirm_proof-Confirms b.sha256 r raw p expected ec;
          has_expected = h;
          was_missing = missing;
          source_again = s2;
          source_reread = es2;
          unchanged = same;
          latched = latched;
          directory_synced = synced;
          last_source = s3;
          source_at_last = es3;
          unchanged_at_last = same3;
          was_absent = a1;
          absent_after_sync = a2;
          absent_in_the_end = e;
        }

-- The receipt's own marker is there, and `reconcile` has its proof.
pub record IsPresent (a : Answers) (b : Absence) (raw : String) : Type 0 where
  pub fence : Fence
  pub current : String
  pub was_there : b.present ≡ ok (some current)
  pub same_marker : str_eq current raw ≡ true
  pub proved : IsProved a fence
  pub of_receipt : str_eq proved.first.raw raw ≡ true

module _ (a : Answers) (b : Absence) (raw : String) where
  abbrev Proved : Type 0
  Proved = IsPresent a b raw ⊎ IsAbsent b raw

  relatch-IsLifted :
      (f : Fence) (current : String) (s : Settlement) (outcome : Result Settled)
      → b.present ≡ ok (some current)
      → str_eq current raw ≡ true
      → IsLifted (IsProved a (latch f raw)) s
      → IsLifted Proved (relatch raw s outcome)
  relatch-IsLifted f current s (err reason) there same h = inl refl
  relatch-IsLifted f current s (ok _) there same (inl h) = inl h
  relatch-IsLifted f current s (ok _) there same (inr (proved, lifted, answered)) =
      (inr (
        inl (record {
          fence = latch f raw;
          current = current;
          was_there = there;
          same_marker = same;
          proved = proved;
          of_receipt = proved.fits;
        }),
        lifted,
        answered,
      ))

  absence_settled-IsLifted :
      (f : Fence) (checked : Result (Unit {0}))
      → is_fenced f ≡ true
      → OnOk (λ (_ : Unit {0}). IsAbsent b raw) checked
      → IsLifted Proved (absence_settled f checked)
  absence_settled-IsLifted f (err reason) h p = inl h
  absence_settled-IsLifted f (ok _) h p = inr (inr p, refl, refl)

  retired_receipt-IsLifted :
      (r : Receipt) (f : Fence) (present : Result (Option String))
      → b.parsed ≡ ok r
      → b.present ≡ present
      → IsLifted Proved (retired_receipt a b r raw (latch f raw) present)
  retired_receipt-IsLifted r f (err reason) er there = inl refl
  retired_receipt-IsLifted r f (ok (some current)) er there =
      if_ind (IsLifted Proved) (str_eq current raw)
        (λ same.
          relatch-IsLifted f current _ _ there same
            (reconcile_receipt-IsLifted a false (latch f raw) refl))
        (λ _. inl refl)
  retired_receipt-IsLifted r f (ok none) er there =
      absence_settled-IsLifted (latch f raw) (absence_checks b r raw) refl
        (absence_checks-IsAbsent b r raw er there)

  latched_receipt-IsLifted :
      (f : Fence) (parsed : Result Receipt)
      → b.parsed ≡ parsed
      → is_fenced f ≡ true
      → IsLifted Proved (latched_receipt a b raw f parsed)
  latched_receipt-IsLifted f (err reason) er h = inl h
  latched_receipt-IsLifted f (ok r) er h =
      if_ind (IsLifted Proved) (fits_latch f.completion_marker raw)
        (λ _. retired_receipt-IsLifted r f b.present er refl) (λ _. inl h)

  -- A fence stays after `confirm_retired_receipt`, also after a dry run and after every error, unless the
  -- marker of the receipt is there and `reconcile` has the proof of that marker, or it is absent, checked around
  -- a synchronization of the directory, the configuration does not change meanwhile, and the verifier proved the receipt for a configuration with the
  -- digest that the proof asks for.
  pub confirm_retired_receipt-IsLifted :
      (dry_run : Bool) (f : Fence)
      → is_fenced f ≡ true
      → IsLifted (IsPresent a b raw ⊎ IsAbsent b raw) (confirm_retired_receipt a b raw dry_run f)
  unfolding confirm_retired_receipt reconcile_receipt
  confirm_retired_receipt-IsLifted true f h = inl h
  confirm_retired_receipt-IsLifted false f h = latched_receipt-IsLifted f b.parsed refl h
