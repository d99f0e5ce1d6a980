-- ===== src/Policy/Recovery/Trigger.antt =====
-- llmsvc/policy/recovery.py: `_trigger`, the proof that a sleeper's card is reserved or has no room for
-- its wake.
use llm_service_manager.Prelude.{ℕ, String, Bool, not, ◌||◌, Option, none, some, str_eq}
use llm_service_manager.Prelude.Tests.{opt_nat_eq, is_none, when, if◌then◌else◌}
use llm_service_manager.Prelude.Lists.{any, select, find?}
use llm_service_manager.Prelude.Float.{Float, known, amount}
use llm_service_manager.State.{StateSnapshot, ModelState, GpuState, Reserve, Blocker, blocker}
use llm_service_manager.Policy.Settings.{is_gpu}
use llm_service_manager.Policy.Projection.{sampled, known_number}
use llm_service_manager.Policy.Placement.Accounting.{Accounting, accounting}
use llm_service_manager.Policy.Placement.Cards.{allocated}

module _ {N : Type 0} ⦃F : Float N⦄ where
  -- A blocker of the model on its card
  abbrev pub on_model : ModelState N → String → Blocker N
  on_model m reason = blocker (some m.name) reason m.gpu

  -- `b.gpu in (None, model.gpu)`
  abbrev pub concerns : Option ℕ → Blocker N → Bool
  concerns gpu b = is_none b.gpu || opt_nat_eq b.gpu gpu

  reserve_trigger : StateSnapshot N → ModelState N → Option (Blocker N)
  reserve_trigger s m =
      let there = select (λ (r : Reserve N). is_gpu m.gpu r.gpu) s.reserves in
      if any (λ (r : Reserve N). not (known r.until)) there
      then some (on_model m "unknown_reserve_expiry")
      else if not (any (λ (r : Reserve N). F.lt (sampled s) r.until) there)
      then some (on_model m "reserve_not_active")
      else none

  abbrev sum_on : Accounting N → Option ℕ → N
  sum_on acc none = F.of_nat 0
  sum_on acc (some index) = allocated acc index

  wake_trigger : StateSnapshot N → ModelState N → GpuState N → Option (Blocker N)
  wake_trigger s m g =
      if not (known_number g.total_gb)
        || not (known_number g.external_gb)
        || F.le (amount g.total_gb) (F.of_nat 0)
      then some (on_model m "unknown_gpu_capacity")
      else elim (find? (concerns m.gpu) (accounting s).blockers) [
        | some unknown ↦ some unknown
        | none ↦
            when
              (F.le (sum_on (accounting s) m.gpu)
                (F.minus (amount g.total_gb) (amount g.external_gb)))
              (on_model m "wake_budget_available")
      ]

  -- `_trigger`: a blocker, or none if current data prove the reason.
  unfoldable pub trigger : StateSnapshot N → ModelState N → String → Option (Blocker N)
  unfolding reserve_trigger wake_trigger
  trigger s m reason = elim (find? (λ (g : GpuState N). is_gpu m.gpu g.index) s.gpus) [
    | none ↦ some (on_model m "unknown_accounting_gpu")
    | some g ↦ if str_eq reason "reserve" then reserve_trigger s m else wake_trigger s m g
  ]
