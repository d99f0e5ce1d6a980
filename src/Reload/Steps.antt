-- ===== src/Reload/Steps.antt =====
-- llmsvc/reload.py: conditions that the steps of a transaction keep.
use llm_service_manager.Prelude.{String, ◌≡◌, refl, ◌⊎◌, inl, inr, Bool, true, false, arith}
use llm_service_manager.Prelude.Tests.{is_some}
use llm_service_manager.Prelude.Result.{Result, ok, err}
use llm_service_manager.Reload.Transaction.{JobStatus, Tx, Run, then_run, attempt, require, fenced}

abbrev pub is_applied : JobStatus → Bool
is_applied JobStatus.applied = true
is_applied _ = false

abbrev pub is_unresolved : JobStatus → Bool
is_unresolved JobStatus.reconciliation_required = true
is_unresolved _ = false

module _ (before : String) where
  -- The configuration is the one from before, and the job is not applied.
  abbrev pub Untouched : Tx → Type 0
  Untouched t = (t.config ≡ before) × (t.config_committed ≡ false) × (is_applied t.status ≡ false)

  -- The marker is there.
  abbrev pub Marked : Tx → Type 0
  Marked t = Untouched t × (is_some t.marker ≡ true)

  -- The configuration was replaced, and the marker is there.
  abbrev pub Committed : Tx → Type 0
  Committed t = (t.config_committed ≡ true) × (is_some t.marker ≡ true)

  abbrev pub Adopted : Tx → Type 0
  Adopted t = Committed t × (t.adopted ≡ true)

  abbrev pub Applied : Tx → Type 0
  Applied t =
      (t.config_committed ≡ true)
      × (t.adopted ≡ true)
      × (is_applied t.status ≡ true)
      × (fenced t ≡ false)

  abbrev pub Failed : Tx → Type 0
  Failed t = Untouched t ⊎ ((t.config_committed ≡ true) × (fenced t ≡ true))

  -- The condition of the value that a step goes on with; a return leaves the configuration untouched, and
  -- an exception leaves it untouched or fenced.
  abbrev pub OnRun : {A : Type 0} → (Tx → Type 0) → Run A → Type 0
  OnRun Q (Run.next t a) = Q t
  OnRun Q (Run.returns t) = Untouched t
  OnRun Q (Run.raises t reason) = Failed t

  pub OnRun-bind :
      {A B : Type 0} (Q R : Tx → Type 0) (m : Run A) (k : A → Tx → Run B)
      → OnRun Q m
      → ((a : A) (t : Tx) → Q t → OnRun R (k a t))
      → OnRun R (then_run m k)
  OnRun-bind Q R (Run.next t a) k h f = f a t h
  OnRun-bind Q R (Run.returns t) k h f = h
  OnRun-bind Q R (Run.raises t reason) k h f = h

  -- A condition under which an exception is allowed
  abbrev pub Safe : (Tx → Type 0) → Type 0
  Safe Q = (t : Tx) → Q t → Failed t

  pub attempt-OnRun :
      {A : Type 0} (Q : Tx → Type 0) (r : Result A) (t : Tx) → Safe Q → Q t → OnRun Q (attempt r t)
  attempt-OnRun Q (ok a) t s h = h
  attempt-OnRun Q (err reason) t s h = s t h

  pub require-OnRun :
      (Q : Tx → Type 0) (b : Bool) (reason : String) (t : Tx)
      → Safe Q
      → Q t
      → OnRun Q (require b reason t)
  require-OnRun Q true reason t s h = h
  require-OnRun Q false reason t s h = s t h

  pub Untouched-Safe : Safe Untouched
  Untouched-Safe t h = inl h

  pub Marked-Safe : Safe Marked
  Marked-Safe t h = inl h.0

  fenced_by_marker : (t : Tx) → is_some t.marker ≡ true → fenced t ≡ true
  fenced_by_marker t h = ground (arith, h)

  pub Committed-Safe : Safe Committed
  Committed-Safe t h = inr (h.0, fenced_by_marker t h.1)

  pub Adopted-Safe : Safe Adopted
  Adopted-Safe t h = Committed-Safe t h.0

  -- A step that keeps a condition, and what comes after it
  pub tried :
      {A B : Type 0} (Q R : Tx → Type 0) (r : Result A) (k : A → Tx → Run B) (t : Tx)
      → Safe Q
      → Q t
      → ((a : A) (t : Tx) → Q t → OnRun R (k a t))
      → OnRun R (then_run (attempt r t) k)
  tried Q R r k t s h f = OnRun-bind Q R (attempt r t) k (attempt-OnRun Q r t s h) f

  pub required :
      {B : Type 0} (Q R : Tx → Type 0) (b : Bool) (reason : String) (k : Unit {0} → Tx → Run B)
      (t : Tx)
      → Safe Q
      → Q t
      → ((a : Unit {0}) (t : Tx) → Q t → OnRun R (k a t))
      → OnRun R (then_run (require b reason t) k)
  required Q R b reason k t s h f =
      OnRun-bind Q R (require b reason t) k (require-OnRun Q b reason t s h) f

  pub timed_out :
      (t : Tx) → Untouched t → (t.config ≡ before) × (t.config_committed ≡ false) × (false ≡ false)
  timed_out t (kept, uncommitted, status) = (kept, uncommitted, refl)

  -- The job left the configuration as it was and is not applied; or it replaced it, and either is applied,
  -- its adoption confirmed and the fence lifted, or requires reconciliation behind the fence.
  abbrev pub IsSettled : Tx → Type 0
  IsSettled t =
      Untouched t
      ⊎ ((t.config_committed ≡ true)
          × (((is_applied t.status ≡ true) × (t.adopted ≡ true) × (fenced t ≡ false))
              ⊎ ((is_unresolved t.status ≡ true) × (fenced t ≡ true))))
