-- ===== src/Leases/Observed.antt =====
-- llmsvc/leases.py: what the controller accepts as evidence of a lease: a fresh sample of the whole host
-- together with a probe of the unit.
use llm_service_manager.Prelude.{
  String, Bool, false, ◌&&◌, Option, none, some, List, [], ◌∷◌, str_eq,
}
use llm_service_manager.Prelude.Tests.{is_true, is_false, opt_nat_eq}
use llm_service_manager.Prelude.Lists.{is_empty, select}
use llm_service_manager.Prelude.Text.{opt_str_eq}
use llm_service_manager.Prelude.Float.{Float}
use llm_service_manager.State.{StateSnapshot, ModelState, is_resident, is_stopped}
use llm_service_manager.Store.Rows.{LeaseRow}
use llm_service_manager.Leases.Probe.{UnitObservation}

-- What the controller reads beside the store: the reason why the catalog refuses, the configuration,
-- the latest sample and the clock.
pub record Context (N : Type 0) : Type 0 where
  pub catalog_reason : Option String
  pub stopping : Bool
  pub read_only : Bool
  pub placement_enabled : Bool
  pub snapshot : StateSnapshot N
  pub clock : N
  pub max_snapshot_age_seconds : N
  pub units : String → Option String

-- The only one of the list passes the test.
abbrev pub only : {A : Type 0} → (A → Bool) → List A → Bool
only p (x ∷ []) = p x
only p _ = false

module _ {N : Type 0} ⦃F : Float N⦄ where
  abbrev age_is_good : Context N → Option N → Bool
  age_is_good c none = false
  age_is_good c (some t) =
      F.is_finite t
      && F.le (F.of_nat 0) (F.minus c.clock t)
      && F.le (F.minus c.clock t) c.max_snapshot_age_seconds

  -- `_fresh`
  unfoldable pub is_fresh : Context N → StateSnapshot N → Bool
  is_fresh c s = age_is_good c s.sampled_at && is_empty s.errors

module _ {N : Type 0} where
  abbrev pub named : StateSnapshot N → String → List (ModelState N)
  named s name = select (λ (m : ModelState N). str_eq m.name name) s.models

  abbrev pub runs_as : LeaseRow N → ModelState N → Bool
  runs_as r m =
      opt_str_eq m.unit (some r.unit)
      && opt_nat_eq m.gpu (some r.lease.gpu)
      && is_true m.unit_active
      && is_true m.health_ok
      && is_resident m.state

  abbrev pub is_off : LeaseRow N → ModelState N → Bool
  is_off r m = opt_str_eq m.unit (some r.unit) && is_false m.unit_active && is_stopped m.state

module _ {N : Type 0} ⦃F : Float N⦄ where
  -- `_healthy`
  unfoldable pub healthy : Context N → LeaseRow N → UnitObservation → Bool
  healthy c r o =
      is_fresh c c.snapshot
      && o.active
      && str_eq o.lease_id r.lease.lease_id
      && only (runs_as r) (named c.snapshot r.lease.model)

  -- `_exited`
  unfoldable pub exited : Context N → LeaseRow N → UnitObservation → Bool
  exited c r o =
      o.exited && is_fresh c c.snapshot && only (is_off r) (named c.snapshot r.lease.model)
