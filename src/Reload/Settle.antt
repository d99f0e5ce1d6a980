-- ===== src/Reload/Settle.antt =====
-- llmsvc/reload.py: `reconcile` and `confirm_retired_receipt`, which lift the fence of an interrupted
-- transaction. What the files and the verifier answer, in the order of the calls, are fields.
use llm_service_manager.Prelude.{
  ℕ, String, Bool, true, false, ◌&&◌, ◌||◌, Option, none, some, str_eq,
}
use llm_service_manager.Prelude.Tests.{◌==◌, is_some, if◌then◌else◌}
use llm_service_manager.Prelude.Result.{Result, ok, err, guard, ◌>>=◌, ◌>>◌}
use llm_service_manager.Reload.World.{Source}
use llm_service_manager.Reload.Transaction.{same_record}
use llm_service_manager.Reload.Receipt.{Receipt, Proof, check_recovery_source, confirm_proof}

-- The marker on disk, and the latch of a completion whose marker could not be retired
pub record Fence : Type 0 where
  pub marker : Option String
  pub completion_marker : Option String

abbrev pub is_fenced : Fence → Bool
is_fenced f = is_some f.completion_marker || is_some f.marker

abbrev pub no_fence : Fence
no_fence = record { marker = none; completion_marker = none }

-- A marker that was read and parsed
pub record Marker : Type 0 where
  pub receipt : Receipt
  pub raw : String
  pub identity : ℕ

pub data Settled : Type 0 where
  would reconciled : Settled

pub record Settlement : Type 0 where
  pub fence : Fence
  pub outcome : Result Settled

pub record Answers : Type 0 where
  pub sha256 : String → String
  pub marker : Result Marker
  pub source : Result Source
  pub proof : Receipt → Result Proof
  pub marker_again : Result Marker
  pub source_again : Result Source
  pub marker_matches : Result (Unit {0})
  pub marker_removed : Result (Unit {0})
  pub removal_synced : Result (Unit {0})
  pub marker_restored : Bool

abbrev pub latch : Fence → (raw : String) → Fence
latch f raw = record f { completion_marker = some raw }

abbrev pub fits_latch : Option String → (raw : String) → Bool
fits_latch none raw = true
fits_latch (some latched) raw = str_eq raw latched

-- `_read_marker`: a latched receipt must be the one that is read.
abbrev pub read_marker : Fence → Result Marker → Result Marker
read_marker f answer = do
  m ← answer
  guard (fits_latch f.completion_marker m.raw) "recovery marker does not match failed completion"
  ok m

-- `raise ReloadError(message) from exc`
abbrev pub reworded : {V : Type 0} → (message : String) → Result V → Result V
reworded message (err reason) = err message
reworded message (ok value) = ok value

abbrev pub unavailable : String
unavailable = "invalid or unavailable recovery state"

abbrev pub changed : String
changed = "recovery state changed during confirmation"

-- What `reconcile` asks before it retires the marker
unfoldable pub settle_checks : Answers → Fence → Result String
settle_checks a f = do
  m ← reworded unavailable (read_marker f a.marker)
  s ← reworded unavailable a.source
  check_recovery_source a.sha256 m.receipt s.content
  p ← a.proof m.receipt
  expected ← confirm_proof a.sha256 m.receipt m.raw p
  guard (str_eq (a.sha256 s.content) expected) "confirmed recovery source does not match"
  m2 ← reworded changed (read_marker f a.marker_again)
  s2 ← reworded changed a.source_again
  guard (str_eq m2.raw m.raw && m2.identity == m.identity && str_eq (a.sha256 s2.content) expected)
      changed
  ok m.raw

abbrev pub restored_marker : (restored : Bool) (raw : String) → Option String
restored_marker true raw = some raw
restored_marker false raw = none

abbrev pub after_removal : (restored : Bool) (raw : String) → Result (Unit {0}) → Settlement
after_removal restored raw (ok _) = record { fence = no_fence; outcome = ok Settled.reconciled }
after_removal restored raw (err reason) = record {
  fence = record { marker = restored_marker restored raw; completion_marker = some raw };
  outcome = err reason;
}

abbrev pub stays : Fence → (reason : String) → Settlement
stays f reason = record { fence = f; outcome = err reason }

-- `_retire_marker`
abbrev pub retire_marker : Answers → Fence → (raw : String) → Settlement
retire_marker a f raw = elim a.marker_matches [
  | err reason ↦ stays (latch f raw) reason
  | ok _ ↦ elim a.marker_removed [
    | err reason ↦ stays (latch f raw) reason
    | ok _ ↦ after_removal a.marker_restored raw a.removal_synced
  ]
]

abbrev pub settled_by : Answers → Fence → Result String → Settlement
settled_by a f (err reason) = stays f reason
settled_by a f (ok raw) = retire_marker a f raw

-- `reconcile`
unfoldable pub reconcile_receipt : Answers → (dry_run : Bool) → Fence → Settlement
reconcile_receipt a true f = record { fence = f; outcome = ok Settled.would }
reconcile_receipt a false f = settled_by a f (settle_checks a f)

-- What `confirm_retired_receipt` reads when no marker is there
pub record Absence : Type 0 where
  pub sha256 : String → String
  pub parsed : Result Receipt
  pub present : Result (Option String)
  pub source : Result Source
  pub proof : Receipt → Result Proof
  pub source_again : Result Source
  pub still_latched : Bool
  pub absent : Result (Unit {0})
  pub directory_synced : Result (Unit {0})
  pub absent_again : Result (Unit {0})
  pub source_at_last : Result Source
  pub absent_at_last : Result (Unit {0})

unfoldable pub absence_checks : Absence → Receipt → (raw : String) → Result (Unit {0})
absence_checks b r raw = do
  s ← b.source
  check_recovery_source b.sha256 r s.content
  p ← b.proof r
  expected ← confirm_proof b.sha256 r raw p
  guard (str_eq (b.sha256 s.content) expected) "confirmed recovery source does not match"
  s2 ← b.source_again
  guard (same_record s2 s && b.still_latched) "recovery state changed during confirmation"
  b.absent
  b.directory_synced
  b.absent_again
  s3 ← b.source_at_last
  guard (same_record s3 s) "candidate changed during receipt retirement"
  b.absent_at_last

abbrev pub absence_settled : Fence → Result (Unit {0}) → Settlement
absence_settled f (err reason) = stays f reason
absence_settled f (ok _) = record { fence = no_fence; outcome = ok Settled.reconciled }

-- An exception latches the receipt again.
abbrev pub relatch : (raw : String) → Settlement → Result Settled → Settlement
relatch raw s (err reason) = stays (latch s.fence raw) reason
relatch raw s (ok _) = s

abbrev pub retired_receipt :
    Answers → Absence → Receipt → (raw : String) → Fence → Result (Option String) → Settlement
retired_receipt a b r raw f (err reason) = stays f reason
retired_receipt a b r raw f (ok (some current)) =
    if str_eq current raw
    then (let s = reconcile_receipt a false f in relatch raw s s.outcome)
    else stays f "recovery marker changed"
retired_receipt a b r raw f (ok none) = absence_settled f (absence_checks b r raw)

abbrev pub latched_receipt :
    Answers → Absence → (raw : String) → Fence → Result Receipt → Settlement
latched_receipt a b raw f (err reason) = stays f reason
latched_receipt a b raw f (ok r) =
    if fits_latch f.completion_marker raw
    then retired_receipt a b r raw (latch f raw) b.present
    else stays f "receipt does not match failed completion"

-- `confirm_retired_receipt`
unfoldable pub confirm_retired_receipt :
    Answers → Absence → (raw : String) → (dry_run : Bool) → Fence → Settlement
confirm_retired_receipt a b raw true f = reconcile_receipt a true f
confirm_retired_receipt a b raw false f = latched_receipt a b raw f b.parsed
