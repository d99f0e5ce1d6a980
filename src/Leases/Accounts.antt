-- ===== src/Leases/Accounts.antt =====
-- llmsvc/leases.py: `accounting_snapshot`, which merges the rows of the store into the observed models.
use llm_service_manager.Prelude.{
  String, ◌≡◌, Bool, true, false, not, ◌&&◌, Option, none, some, List, [], ◌∷◌, ◌++◌, map, str_eq,
}
use Prim.Native.String
use llm_service_manager.Prelude.Tests.{opt_nat_eq, if◌then◌else◌}
use llm_service_manager.Prelude.Lists.{select}
use llm_service_manager.Prelude.Text.{opt_str_eq}
use llm_service_manager.Prelude.Float.{Float, max_of}
use llm_service_manager.State.{StateSnapshot, ModelState, is_resident}
use llm_service_manager.Store.Rows.{LeaseRow}

pub record Merge (N : Type 0) : Type 0 where
  pub models : List (ModelState N)
  pub errors : List String

module _ {N : Type 0} ⦃F : Float N⦄ where
  -- The budget of the model, or that of the lease where it is not a finite number
  abbrev pub budget_or : N → Option N → N
  budget_or lease none = lease
  budget_or lease (some x) = if F.is_finite x then x else lease

  abbrev pub charged : LeaseRow N → ModelState N → ModelState N
  charged r m = record m {
    budget_gb = some (max_of (budget_or r.lease.budget_gb m.budget_gb) r.lease.budget_gb);
  }

  abbrev pub at_home : LeaseRow N → ModelState N → Bool
  at_home r m = opt_nat_eq m.gpu (some r.lease.gpu) && opt_str_eq m.unit (some r.unit)

  abbrev replace_named : String → ModelState N → List (ModelState N) → List (ModelState N)
  replace_named name new ms = map (λ (m : ModelState N). if str_eq m.name name then new else m) ms

  -- One row, with the models of its name
  unfoldable pub merge_row : LeaseRow N → List (ModelState N) → Merge N → Merge N
  merge_row r (m ∷ []) g =
      if is_resident m.state
      then (if not (at_home r m)
          then record g {
            errors = g.errors ++ String.◌++◌ "lease_accounting_conflict:" r.lease.model ∷ [];
          }
          else record g { models = replace_named r.lease.model (charged r m) g.models })
      else if str_eq r.lease.status "confirmed"
      then record g {
        errors = g.errors ++ String.◌++◌ "daemon_exit_unconfirmed:" r.lease.model ∷ [];
      }
      else g
  merge_row r _ g = record g {
    errors = g.errors ++ String.◌++◌ "lease_model_unobserved:" r.lease.model ∷ [];
  }

  unfoldable pub merge_each : List (LeaseRow N) → Merge N → Merge N
  merge_each [] g = g
  merge_each (r ∷ rs) g =
      merge_each rs
        (merge_row r (select (λ (m : ModelState N). str_eq m.name r.lease.model) g.models) g)

  -- `accounting_snapshot`
  unfoldable pub accounting_snapshot : StateSnapshot N → List (LeaseRow N) → StateSnapshot N
  accounting_snapshot s rows =
      let g = merge_each rows (record { models = s.models; errors = s.errors }) in
      record s {
        models = g.models;
        errors = g.errors;
        leases = map (λ (r : LeaseRow N). r.lease) rows;
      }

  -- The row is charged to the only model of its name, or the merge says why it is not.
  pub record IsCharged (r : LeaseRow N) (m : ModelState N) : Type 0 where
    pub name : m.name ≡ r.lease.model
    pub at : at_home r m ≡ true
    pub budget : (b : N) × (m.budget_gb ≡ some b) × (F.lt b r.lease.budget_gb ≡ false)
