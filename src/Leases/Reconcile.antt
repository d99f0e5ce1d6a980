-- ===== src/Leases/Reconcile.antt =====
-- llmsvc/leases.py: `reconcile`, which follows the leases of the store with one probe each. A probe is
-- made outside the lock, and dropped when a sample was published or the row was changed in between. The
-- controller reads its sample and its clock again for each row, so each turn has a context of its own;
-- no other thread changes the store between the rows of a run.
use llm_service_manager.Prelude.{
  ℕ, suc, String, Bool, true, false, not, ◌&&◌, ◌||◌, Option, none, some, List, [], ◌∷◌, ◌++◌,
  str_eq,
}
use Prim.Native.Nat.{◌%◌}
use llm_service_manager.Prelude.Tests.{is_some, if◌then◌else◌}
use llm_service_manager.Prelude.Lists.{length, take, drop, any, select}
use llm_service_manager.Prelude.Text.{opt_str_eq, contains}
use llm_service_manager.Prelude.Float.{Float}
use llm_service_manager.Prelude.Result.{Result, ok, err}
use llm_service_manager.Store.Rows.{IntentStore, LeaseRow, fault, recovery, outstanding_leases}
use llm_service_manager.Store.Leases.{transition_lease, recovers_elsewhere}
use llm_service_manager.Leases.Probe.{UnitObservation}
use llm_service_manager.Leases.Observed.{Context, healthy, exited}

-- An alert is for a lease, the unit of its row and the unit that is configured.
pub record Alert : Type 0 where
  pub lease_id : String
  pub unit : String
  pub configured : Option String

-- The controller, whose leases of before its start are `recovered`
pub record Controller (N : Type 0) : Type 0 where
  pub store : IntentStore N
  pub recovered : List String
  pub cursor : ℕ
  pub alerts : List Alert

-- What one turn of the loop meets: the sample, the clock and the configuration, whether the faults hold the account, whether there is time before
-- and after the probe, whether the row is still as it was read before it, what the probe observes, and
-- whether no sample was published and the row did not change since.
pub record Turn (N : Type 0) : Type 0 where
  pub context : Context N
  pub in_time : Bool
  pub held : Bool
  pub unchanged : Bool
  pub observation : UnitObservation
  pub still_in_time : Bool
  pub is_current : Bool

abbrev pub alert_eq : Alert → Alert → Bool
alert_eq a b =
    str_eq a.lease_id b.lease_id && str_eq a.unit b.unit && opt_str_eq a.configured b.configured

-- `rows[offset:] + rows[:offset]`
unfoldable pub rotate {ℓ} : {A : Type ℓ} → ℕ → List A → List A
rotate cursor [] = []
rotate cursor (x ∷ xs) =
    let offset = cursor % length (x ∷ xs) in drop offset (x ∷ xs) ++ take offset (x ∷ xs)

abbrev pub without_alert : String → List Alert → List Alert
without_alert lease_id alerts = select (λ (a : Alert). not (str_eq a.lease_id lease_id)) alerts

module _ {N : Type 0} where
  abbrev pub forget : Controller N → (lease_id : String) → IntentStore N → Controller N
  forget k lease_id s = record k {
    store = s;
    recovered = select (λ (id : String). not (str_eq id lease_id)) k.recovered;
    alerts = without_alert lease_id k.alerts;
  }

  -- `_transition`
  unfoldable pub follow :
      Context N → Controller N → (lease_id status : String) → Result (Controller N)
  follow c k lease_id status = elim c.catalog_reason [
    | some reason ↦ err reason
    | none ↦ elim (transition_lease k.store lease_id status false) [
      | err message ↦ err message
      | ok s ↦ ok (forget k lease_id s)
    ]
  ]

  -- The row is left alone, for a fault or a recovery that owns it.
  abbrev pub is_fenced : IntentStore N → (held : Bool) → LeaseRow N → Bool
  is_fenced s held row =
      is_some (fault s row.lease.model)
      || held
      || recovers_elsewhere row.lease.lease_id (recovery s row.lease.model)

  abbrev pub raise_alert : Controller N → Alert → Controller N
  raise_alert k a = if any (alert_eq a) k.alerts then k else record k { alerts = a ∷ k.alerts }

  abbrev pub next_row : Controller N → Controller N
  next_row k = record k { cursor = suc k.cursor }

module _ {N : Type 0} ⦃F : Float N⦄ (c : Context N) where
  abbrev pub has_expired : LeaseRow N → Bool
  has_expired row = F.le row.lease.expires_at c.clock

  -- The status that the evidence gives the lease, none where it stays
  unfoldable pub status_by : (recovered : Bool) → UnitObservation → LeaseRow N → Option String
  status_by recovered o row =
      let due = has_expired row || recovered in
      if (due || contains row.lease.status ("confirmed" ∷ "stale" ∷ [])) && exited c row o
      then some "released"
      else if not (str_eq row.lease.status "confirmed") && healthy c row o
      then some "confirmed"
      else if str_eq row.lease.status "pending" && due
      then some "stale"
      else none

  unfoldable pub settle : Controller N → UnitObservation → LeaseRow N → Result (Controller N)
  settle k o row = elim (status_by (contains row.lease.lease_id k.recovered) o row) [
    | none ↦ ok k
    | some status ↦ follow c k row.lease.lease_id status
  ]

  abbrev pub alert_of : LeaseRow N → Alert
  alert_of row = record {
    lease_id = row.lease.lease_id;
    unit = row.unit;
    configured = c.units row.lease.model;
  }

  abbrev pub quiet : Controller N → LeaseRow N → Controller N
  quiet k row = record k { alerts = without_alert row.lease.lease_id k.alerts }

module _ {N : Type 0} ⦃F : Float N⦄ where
  -- The turn of one row, and whether the loop goes on
  unfoldable pub visit : Controller N → Turn N → LeaseRow N → Result (Controller N × Bool)
  visit k t row =
      if not t.in_time
      then ok (k, false)
      else if is_fenced k.store t.held row
      then ok (k, true)
      else if not t.unchanged
      then ok (next_row k, true)
      else if not (opt_str_eq (some row.unit) (t.context.units row.lease.model))
      then ok (raise_alert (next_row k) (alert_of t.context row), true)
      else if not t.still_in_time
      then ok (quiet t.context (next_row k) row, false)
      else if not t.is_current
      then ok (quiet t.context (next_row k) row, true)
      else elim (settle t.context (quiet t.context (next_row k) row) t.observation row) [
        | err message ↦ err message
        | ok k' ↦ ok (k', true)
      ]

  -- The loop over the rows, which ends with the turns at the latest
  unfoldable pub visit_each :
      Controller N → List (Turn N) → List (LeaseRow N) → Result (Controller N)
  visit_each k turns [] = ok k
  visit_each k [] (row ∷ rows) = ok k
  visit_each k (t ∷ turns) (row ∷ rows) = elim (visit k t row) [
    | err message ↦ err message
    | ok (k', true) ↦ visit_each k' turns rows
    | ok (k', false) ↦ ok k'
  ]

  -- The rows of a run in their order
  abbrev pub rows_of : Controller N → List (LeaseRow N)
  rows_of k = rotate k.cursor (outstanding_leases k.store)

  -- `reconcile`
  unfoldable pub reconcile : Context N → Controller N → List (Turn N) → Result (Controller N)
  reconcile c k turns =
      if c.read_only || not c.placement_enabled then ok k else visit_each k turns (rows_of k)
