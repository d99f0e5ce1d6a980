-- ===== src/Reload/Transaction.antt =====
-- llmsvc/reload.py: `process_once` of `ReloadQueue` for the job at the head of the queue.
use llm_service_manager.Prelude.{
  String, Bool, true, false, not, ◌&&◌, ◌||◌, Option, none, some, List, [], ◌∷◌, str_eq,
}
use llm_service_manager.Prelude.Tests.{ltb, ◌==◌, is_some, if◌then◌else◌}
use llm_service_manager.Prelude.Lists.{is_empty}
use llm_service_manager.Prelude.Float.{Float}
use llm_service_manager.Prelude.Result.{Result, ok, err}
use llm_service_manager.Reload.World.{Source, World}

pub data JobStatus : Type 0 where
  queued timed_out failed reconciliation_required applied : JobStatus

-- What the transaction changes: the files, the latch of the marker, the job, and whether it left the queue
pub record Tx : Type 0 where
  pub config : String
  pub marker : Option String
  pub completion_marker : Option String
  pub staged : Bool
  pub marker_created : Bool
  pub config_committed : Bool
  pub external_effects_started : Bool
  pub adopted : Bool
  pub popped : Bool
  pub status : JobStatus
  pub blocked_by : List String
  pub error : Option String

-- A step goes on with a value, returns from `process_once`, or raises.
pub data Run (A : Type 0) : Type 0 where
  next : Tx → A → Run A
  returns : Tx → Run A
  raises : Tx → (reason : String) → Run A

abbrev pub then_run : {A B : Type 0} → Run A → (A → Tx → Run B) → Run B
then_run (Run.next t a) k = k a t
then_run (Run.returns t) k = Run.returns t
then_run (Run.raises t reason) k = Run.raises t reason

infixl 5 ◌>>=◌
abbrev pub ◌>>=◌ : {A B : Type 0} → (Tx → Run A) → (A → Tx → Run B) → Tx → Run B
(m >>= k) t = then_run (m t) k

infixl 5 ◌>>◌
abbrev pub ◌>>◌ : {B : Type 0} → (Tx → Run (Unit {0})) → (Tx → Run B) → Tx → Run B
(m >> k) t = then_run (m t) (λ _. k)

abbrev pub attempt : {A : Type 0} → Result A → Tx → Run A
attempt (ok a) t = Run.next t a
attempt (err reason) t = Run.raises t reason

abbrev pub require : (condition : Bool) (reason : String) → Tx → Run (Unit {0})
require true reason t = Run.next t tt
require false reason t = Run.raises t reason

abbrev pub change : (Tx → Tx) → Tx → Run (Unit {0})
change f t = Run.next (f t) tt

abbrev pub same_record : Source → Source → Bool
same_record a b = str_eq a.content b.content && a.identity == b.identity

abbrev pub same_file : Source → Source → Bool
same_file a b = a.file_id == b.file_id && str_eq a.content b.content

abbrev pub blocked : List String → Tx → Run (Unit {0})
blocked [] t = Run.next (record t { blocked_by = [] }) tt
blocked (b ∷ bs) t = Run.returns (record t { blocked_by = b ∷ bs })

abbrev pub time_out : Tx → Tx
time_out t = record t { status = JobStatus.timed_out; error = some "no safe reload within timeout" }

abbrev pub has_effects : Tx → Bool
has_effects t = t.config_committed || t.external_effects_started

abbrev pub left : Tx → Tx
left t = record t { staged = false; popped = true }

abbrev pub fenced : Tx → Bool
fenced t = is_some t.completion_marker || is_some t.marker

-- The cleanup of a failed job; its own failure escapes, and the job stays in the queue.
abbrev pub cleaned : Result (Unit {0}) → Tx → Tx
cleaned (ok _) t = left (record t { marker = none })
cleaned (err reason) t = record t { staged = false }

module _ {N : Type 0} ⦃F : Float N⦄ (w : World N) where
  abbrev pub is_late : (now : N) → Bool
  is_late now = F.le w.timeout (F.minus now w.submitted_at)

  abbrev pub earlier : N → N → N
  earlier a b = if F.lt b a then b else a

  abbrev pub before_deadline : (now : N) → Bool
  before_deadline now =
      not (F.le (earlier (F.plus w.submitted_at w.timeout) (F.plus w.started w.budget)) now)

  -- `_check_deadline`
  abbrev pub check_deadline : (now : N) → Tx → Run (Unit {0})
  check_deadline now = require (before_deadline now) "configuration operation deadline exceeded"

  abbrev pub check_base : Source → (maintenance : Option String) → Tx → Run (Unit {0})
  check_base original none = change (λ t. t)
  check_base original (some base) =
      require w.has_binding "maintenance binding is required"
      >> require (str_eq (w.sha256 original.content) base) "maintenance base configuration changed"

  -- The marker, created exclusively
  abbrev pub write_marker : (bytes : String) → Tx → Run (Unit {0})
  write_marker bytes = do
    attempt w.marker_opened
    change (λ t. record t { marker = some bytes; marker_created = true })
    attempt w.marker_written
    attempt w.marker_synced

  -- A blocker or the timeout withdraws the marker.
  abbrev pub withdraw : (expired : Bool) → Tx → Run (Unit {0})
  withdraw expired = do
    attempt w.marker_withdrawn
    change (λ t. record t { marker = none })
    attempt w.withdrawal_synced
    λ t. Run.returns (
        if expired
        then record (time_out t) { marker_created = false; popped = true }
        else record t { marker_created = false })

  abbrev pub last_check : List String → Tx → Run (Unit {0})
  last_check blockers =
      change (λ t. record t { blocked_by = blockers })
      >> (if not (is_empty blockers) || is_late w.third_clock
          then withdraw (is_late w.third_clock)
          else change (λ t. t))

  -- What the maintenance adapter does before the configuration is replaced
  abbrev pub prepare :
      Source → (bytes : String) → (maintenance : Option String) → Tx → Run (Unit {0})
  prepare original bytes none = change (λ t. t)
  prepare original bytes (some base) = do
    check_deadline w.prepare_clock
    require w.adapter_available "maintenance adapter unavailable"
    change (λ t. record t { external_effects_started = true; completion_marker = some bytes })
    attempt w.before_replace
    check_deadline w.prepared_clock
    require w.still_bound "maintenance adapter or binding changed"
    latest ← attempt w.latest
    require (same_record latest original) "configuration changed during maintenance preparation"
    attempt w.marker_intact

  abbrev pub replace_config : (candidate : String) → Tx → Run (Unit {0})
  replace_config candidate =
      attempt w.replaced
      >> change (λ t. record t { config = candidate; staged = false; config_committed = true })

  -- `notify_reload`, or `after_replace` of the maintenance adapter, confirms the adoption.
  abbrev pub confirm : Tx → Run (Unit {0})
  confirm = do
    attempt w.directory_synced
    check_deadline w.replaced_clock
    attempt w.notified
    change (λ t. record t { adopted = true })
    check_deadline w.adopted_clock
    attempt w.after_apply
    check_deadline w.applied_clock

  -- The repair of a marker whose retirement failed after it was unlinked
  abbrev pub restore : (bytes : String) → Tx → Tx
  restore bytes t = if w.marker_restored then record t { marker = some bytes } else t

  abbrev pub unlinked : (bytes : String) → Result (Unit {0}) → Tx → Run (Unit {0})
  unlinked bytes (err reason) t = Run.raises (restore bytes (record t { marker = none })) reason
  unlinked bytes (ok _) t =
      Run.next
        (record t {
          marker = none;
          completion_marker = none;
          marker_created = false;
          status = JobStatus.applied;
        })
        tt

  -- `_retire_marker`; the job is applied once the marker is gone.
  abbrev pub retire : (bytes : String) → Tx → Run (Unit {0})
  retire bytes = do
    change (λ t. record t { completion_marker = some bytes })
    attempt w.marker_matches
    attempt w.marker_removed
    unlinked bytes w.removal_synced

  abbrev pub commit : Source → (candidate : String) → Tx → Run (Unit {0})
  commit original candidate = do
    current ← attempt w.reread
    require (same_file current original) "config changed during validation"
    bytes ← attempt (w.marker_bytes candidate)
    require (not (ltb 65536 (w.marker_size bytes))) "recovery marker would exceed read limit"
    write_marker bytes
    blockers ← attempt w.third_blockers
    last_check blockers
    prepare original bytes w.maintenance
    replace_config candidate
    confirm
    retire bytes

  -- The body of the `try`
  unfoldable pub transaction : Tx → Run (Unit {0})
  transaction = do
    original ← attempt w.read
    check_base original w.maintenance
    candidate ← attempt (w.transform original.content)
    attempt (w.binding candidate)
    attempt (w.stage candidate)
    change (λ t. record t { staged = true })
    blockers ← attempt w.second_blockers
    blocked blockers
    if is_late w.second_clock then change time_out else commit original candidate

  abbrev pub fail : (reason : String) → Tx → Tx
  fail reason t =
      if has_effects t
      then left (record t { status = JobStatus.reconciliation_required; error = some reason })
      else if t.marker_created
      then cleaned w.cleaned_up (record t { status = JobStatus.failed; error = some reason })
      else left (record t { status = JobStatus.failed; error = some reason })

  -- The `except`, the `finally` and what follows them
  abbrev pub settle : Run (Unit {0}) → Tx
  settle (Run.next t _) = left t
  settle (Run.returns t) = record t { staged = false }
  settle (Run.raises t reason) = fail reason t

  -- Before the `try`: an exception of the first blockers escapes.
  abbrev pub admitted : Result (List String) → Tx → Tx
  admitted (err reason) t = t
  admitted (ok []) t = settle (transaction (record t { blocked_by = [] }))
  admitted (ok (b ∷ bs)) t = record t { blocked_by = b ∷ bs }

  -- `process_once`
  unfoldable pub process_once : Tx → Tx
  process_once t =
      if fenced t
      then t
      else if is_late w.first_clock
      then record (time_out t) { popped = true }
      else admitted w.first_blockers t
