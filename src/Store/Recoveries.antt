-- ===== src/Store/Recoveries.antt =====
-- llmsvc/store.py: the claims of sleeping recoveries. A claim is validated whenever it is written; its
-- flags are set one after the other as the protocol goes on, and never taken back.
use llm_service_manager.Prelude.{
  suc, String, Bool, false, not, ◌&&◌, ◌||◌, Option, none, some, List, [], ◌∷◌, ◌++◌, str_eq,
}
use llm_service_manager.Prelude.Tests.{
  ◌==◌, ltb, is_none, is_some, is_true, or_default, if◌then◌else◌,
}
use llm_service_manager.Prelude.Lists.{any}
use llm_service_manager.Prelude.Text.{contains}
use llm_service_manager.Prelude.Float.{Float}
use llm_service_manager.Prelude.Result.{Result, ok, guard, ◌>>=◌, ◌>>◌}
use llm_service_manager.Store.Rows.{
  IntentStore, LeaseRow, RecoveryClaim, RecoveryStage, stage_eq, order_of, recovery_eq,
  active_recovery_of, fault, recovery, lease_row, is_hex, catalog_allows_accounting, writable,
  unless_dry_run, nonempty, finite_positive, set_status,
}
use llm_service_manager.Store.Leases.{put_recovery}
use llm_service_manager.Store.Faults.{account_is, status_is, expected_status, takes_back}

-- The keyword arguments of `advance_recovery` that name a flag
pub record Progress : Type 0 where
  pub stop_submitted : Option Bool
  pub stop_acknowledged : Option Bool
  pub proxy_submitted : Option Bool
  pub proxy_acknowledged : Option Bool
  pub wake_submitted : Option Bool
  pub wake_acknowledged : Option Bool

abbrev pub is : RecoveryStage → List RecoveryStage → Bool
is stage stages = any (stage_eq stage) stages

-- A truthy text
abbrev pub given : Option String → Bool
given none = false
given (some value) = not (str_eq value "")

named_destination : Option String → Result (Unit {0})
named_destination none = ok tt
named_destination (some lease_id) = nonempty lease_id "destination_lease_id"

-- `stage == claim.stage`, the next stage by the table, or `complete`
unfoldable pub may_reach : (old new : RecoveryStage) → Bool
may_reach old new =
    stage_eq new old
    || ltb (order_of old) 3 && order_of new == suc (order_of old)
    || stage_eq new RecoveryStage.complete

module _ {N : Type 0} where
  unfoldable pub check_acknowledgments : RecoveryClaim N → Result (Unit {0})
  check_acknowledgments c = do
    guard (not (c.stop_acknowledged && not c.stop_submitted)) "unsubmitted recovery acknowledgment"
    guard (not (c.proxy_acknowledged && not c.proxy_submitted))
        "unsubmitted recovery acknowledgment"
    guard (not (c.wake_acknowledged && not c.wake_submitted)) "unsubmitted recovery acknowledgment"

  unfoldable pub check_stop : RecoveryClaim N → Result (Unit {0})
  check_stop c = do
    guard
        (not (
          is c.stage (RecoveryStage.claimed ∷ [])
          && (c.proxy_submitted || c.wake_submitted || given c.destination_lease_id)))
        "invalid claimed recovery"
    guard (is c.stage (RecoveryStage.claimed ∷ RecoveryStage.complete ∷ []) || c.stop_submitted)
        "source stop unsubmitted"

  -- The proxy is cleaned after the stop.
  abbrev pub cleans_in_order : RecoveryClaim N → Bool
  cleans_in_order c = not (c.proxy_submitted && not c.stop_acknowledged)

  -- The wake comes after the cleanup, and in the last stages.
  abbrev pub wakes_in_order : RecoveryClaim N → Bool
  wakes_in_order c = not (
      c.wake_submitted
      && (not c.proxy_acknowledged
          || not (
              is c.stage
                (RecoveryStage.waking ∷ RecoveryStage.destination ∷ RecoveryStage.complete ∷ []))))

  unfoldable pub check_wake : RecoveryClaim N → Result (Unit {0})
  check_wake c = do
    guard
        (not (
          is c.stage (RecoveryStage.settled ∷ RecoveryStage.waking ∷ RecoveryStage.destination ∷ [])
          && not c.proxy_acknowledged))
        "proxy cleanup unacknowledged"
    guard
        (not (
          is c.stage (RecoveryStage.waking ∷ RecoveryStage.destination ∷ [])
          && (not c.relocate || not c.wake_submitted)))
        "cold wake unsubmitted"

  -- The order of the flags and of the stages
  unfoldable pub check_flags : RecoveryClaim N → Result (Unit {0})
  check_flags c = do
    check_acknowledgments c
    check_stop c
    guard (cleans_in_order c) "source stop unacknowledged"
    guard (wakes_in_order c) "proxy cleanup unsettled"
    check_wake c

  -- `(claim.stage == "destination") == bool(claim.destination_lease_id)`
  abbrev pub binds_destination : RecoveryClaim N → Bool
  binds_destination c =
      if is c.stage (RecoveryStage.destination ∷ [])
      then given c.destination_lease_id
      else not (given c.destination_lease_id)

  -- The binding of the destination
  unfoldable pub check_destination : RecoveryClaim N → Result (Unit {0})
  unfolding named_destination
  check_destination c = do
    guard (binds_destination c || is c.stage (RecoveryStage.complete ∷ []))
        "invalid recovery destination binding"
    named_destination c.destination_lease_id
    guard
        (str_eq c.destination_invocation_id ""
          || given c.destination_lease_id
            && is_hex 32 c.destination_invocation_id
            && not (str_eq c.destination_invocation_id c.invocation_id))
        "invalid destination incarnation"
    guard (not (c.wake_acknowledged && str_eq c.destination_invocation_id ""))
        "destination incarnation unconfirmed"

  abbrev pub is_identified : RecoveryClaim N → Bool
  is_identified c =
      is_hex 32 c.id
      && is_hex 32 c.invocation_id
      && is_hex 64 c.profile_hash
      && contains c.reason ("reserve" ∷ "cannot_wake" ∷ [])

  -- The keys of the table: the id, and the model of a claim that is not complete
  unfoldable pub insert_recovery :
      List (RecoveryClaim N) → RecoveryClaim N → Result (List (RecoveryClaim N))
  insert_recovery rows c = do
    guard (not (any (λ (x : RecoveryClaim N). str_eq x.id c.id) rows))
        "UNIQUE constraint failed: llmsvc_recoveries.id"
    guard (not (any (active_recovery_of c.model) rows))
        "UNIQUE constraint failed: llmsvc_recoveries.model"
    ok (rows ++ c ∷ [])

  -- `any(getattr(claim, key) and not value)`
  abbrev pub takes_back_any : RecoveryClaim N → Progress → Bool
  takes_back_any c p =
      takes_back c.stop_submitted p.stop_submitted
      || takes_back c.stop_acknowledged p.stop_acknowledged
      || takes_back c.proxy_submitted p.proxy_submitted
      || takes_back c.proxy_acknowledged p.proxy_acknowledged
      || takes_back c.wake_submitted p.wake_submitted
      || takes_back c.wake_acknowledged p.wake_acknowledged

  abbrev pub acknowledges_early : RecoveryClaim N → Progress → Bool
  acknowledges_early c p =
      is_true p.stop_acknowledged && not c.stop_submitted
      || is_true p.proxy_acknowledged && not c.proxy_submitted
      || is_true p.wake_acknowledged && not c.wake_submitted

  abbrev pub changes_invocation : RecoveryClaim N → Option String → Bool
  changes_invocation c none = false
  changes_invocation c (some id) =
      not (str_eq c.destination_invocation_id "") && not (str_eq id c.destination_invocation_id)

  abbrev pub advanced_recovery :
      RecoveryClaim N
      → RecoveryStage
      → (error invocation : Option String) → Progress
      → RecoveryClaim N
  advanced_recovery c stage error invocation p = record c {
    stage = stage;
    error = error;
    stop_submitted = or_default c.stop_submitted p.stop_submitted;
    stop_acknowledged = or_default c.stop_acknowledged p.stop_acknowledged;
    proxy_submitted = or_default c.proxy_submitted p.proxy_submitted;
    proxy_acknowledged = or_default c.proxy_acknowledged p.proxy_acknowledged;
    wake_submitted = or_default c.wake_submitted p.wake_submitted;
    wake_acknowledged = or_default c.wake_acknowledged p.wake_acknowledged;
    destination_invocation_id = or_default c.destination_invocation_id invocation;
  }

  abbrev pub is_claimed : RecoveryClaim N → Bool
  is_claimed c = stage_eq c.stage RecoveryStage.claimed

  abbrev pub arrived : RecoveryClaim N → Option (LeaseRow N) → Bool
  arrived c none = false
  arrived c (some row) =
      str_eq row.lease.model c.model
      && str_eq row.lease.status "confirmed"
      && str_eq row.unit c.unit
      && not (row.lease.gpu == c.source_gpu)

  destination_row : IntentStore N → Option String → Option (LeaseRow N)
  destination_row s none = none
  destination_row s (some lease_id) = if str_eq lease_id "" then none else lease_row s lease_id

  -- What allows a claim to be completed: nothing was submitted, the source is retired, or the
  -- destination is confirmed on another card.
  unfoldable pub may_complete : IntentStore N → RecoveryClaim N → (error : Option String) → Bool
  unfolding destination_row
  may_complete s c error =
      is_claimed c && not c.stop_submitted
      || stage_eq c.stage RecoveryStage.settled
        && c.proxy_acknowledged
        && not c.wake_submitted
        && (not c.relocate || is_some error)
      || stage_eq c.stage RecoveryStage.destination
        && c.wake_acknowledged
        && arrived c (destination_row s c.destination_lease_id)

  abbrev pub releases_source : RecoveryClaim N → RecoveryStage → Bool
  releases_source c stage = is_claimed c && stage_eq stage RecoveryStage.released

  -- The commit of `advance_recovery`
  unfoldable pub write_recovery :
      IntentStore N → (old new : RecoveryClaim N) → Result (IntentStore N)
  write_recovery s old new = do
    writable s
    ok (record s {
      leases =
          if releases_source old new.stage
          then set_status old.source_lease_id "released" s.leases
          else s.leases;
      recoveries = put_recovery new s.recoveries;
    })

module _ {N : Type 0} ⦃F : Float N⦄ where
  unfoldable pub check_identity : RecoveryClaim N → Result (Unit {0})
  check_identity c = do
    nonempty c.id "id"
    nonempty c.model "model"
    nonempty c.source_lease_id "source_lease_id"
    nonempty c.unit "unit"
    nonempty c.invocation_id "invocation_id"
    nonempty c.profile_hash "profile_hash"
    guard (is_identified c) "invalid recovery identity"
    finite_positive c.created_at "created_at"
    finite_positive c.util_floor "util_floor"
    guard (F.le c.util_floor (F.of_nat 1)) "invalid recovery util floor"
    finite_positive c.budget_floor_gb "budget_floor_gb"

  -- `_validate_recovery`, of what the types leave to check
  unfoldable pub validate_recovery : RecoveryClaim N → Result (Unit {0})
  validate_recovery c = do check_identity c; check_flags c; check_destination c

  -- `source[0].util <= claim.util_floor and source[0].budget_gb <= claim.budget_floor_gb`
  abbrev pub floors_hold : RecoveryClaim N → Option (LeaseRow N) → Bool
  floors_hold c none = false
  floors_hold c (some row) =
      not (F.lt c.util_floor row.lease.util) && not (F.lt c.budget_floor_gb row.lease.budget_gb)

  abbrev pub is_initial_recovery : RecoveryClaim N → Bool
  is_initial_recovery c =
      is_claimed c
      && not c.stop_submitted
      && not c.stop_acknowledged
      && not c.proxy_submitted
      && not c.wake_submitted
      && not (given c.destination_lease_id)

  unfoldable pub recovery_checks : IntentStore N → RecoveryClaim N → Result (Unit {0})
  recovery_checks s c = do
    guard (is_initial_recovery c) "invalid initial recovery"
    catalog_allows_accounting s
    guard
        (account_is c.model c.source_gpu c.unit (lease_row s c.source_lease_id)
          && status_is "confirmed" (lease_row s c.source_lease_id)
          && floors_hold c (lease_row s c.source_lease_id)
          && is_none (fault s c.model)
          && is_none (recovery s c.model))
        "recovery source account unavailable"

  -- `claim_recovery`
  unfoldable pub claim_recovery :
      IntentStore N → RecoveryClaim N → (dry_run : Bool) → Result (IntentStore N)
  claim_recovery s c dry_run = do
    validate_recovery c
    recovery_checks s c
    unless_dry_run dry_run s
        (do writable s; rows ← insert_recovery s.recoveries c; ok (record s { recoveries = rows }))

  abbrev pub is_current_recovery : RecoveryClaim N → Option (RecoveryClaim N) → Bool
  is_current_recovery c none = false
  is_current_recovery c (some active) = recovery_eq active c

  unfoldable pub progress_checks :
      RecoveryClaim N
      → RecoveryStage
      → (destination_invocation_id : Option String) → Progress
      → Result (Unit {0})
  progress_checks c stage destination_invocation_id progress = do
    guard (not (takes_back_any c progress)) "invalid recovery progress update"
    guard (not (acknowledges_early c progress)) "acknowledgment needs prior durable submission"
    guard (may_reach c.stage stage) "invalid recovery stage transition"
    guard (not (changes_invocation c destination_invocation_id)) "destination incarnation changed"

  -- The claim is the active one of its model, and no fault holds the model.
  abbrev pub is_undisturbed : IntentStore N → RecoveryClaim N → Bool
  is_undisturbed s c = is_current_recovery c (recovery s c.model) && is_none (fault s c.model)

  unfoldable pub is_source : IntentStore N → RecoveryClaim N → Bool
  is_source s c =
      account_is c.model c.source_gpu c.unit (lease_row s c.source_lease_id)
      && status_is (expected_status (is_claimed c)) (lease_row s c.source_lease_id)

  -- `advance_recovery`
  unfoldable pub advance_recovery :
      IntentStore N
      → RecoveryClaim N
      → (stage : Option RecoveryStage) → (error : Option String) → (dry_run : Bool)
      → (destination_invocation_id : Option String) → Progress
      → Result (IntentStore N)
  advance_recovery s c stage error dry_run destination_invocation_id progress =
      let stage' = or_default c.stage stage in
      let updated = advanced_recovery c stage' error destination_invocation_id progress in
      (do
        progress_checks c stage' destination_invocation_id progress
        validate_recovery updated
        catalog_allows_accounting s
        guard (is_undisturbed s c) "recovery claim changed"
        guard (is_source s c) "recovery source account changed"
        guard (not (stage_eq stage' RecoveryStage.complete) || may_complete s c error)
            "recovery completion unconfirmed"
        unless_dry_run dry_run s (write_recovery s c updated))
