-- ===== src/Policy/Intents/Free.antt =====
-- llmsvc/policy/intents.py: `plan_free`, the releases for an explicit request.
use llm_service_manager.Prelude.{
  ℕ, String, Bool, true, false, not, ◌&&◌, ◌||◌, Option, none, some, List, [], ◌∷◌, ◌++◌,
}
use llm_service_manager.Prelude.Tests.{opt_nat_eq, is_none, if◌then◌else◌}
use llm_service_manager.Prelude.Lists.{select, is_empty}
use llm_service_manager.Prelude.Text.{Dict, lookup}
use llm_service_manager.Prelude.Float.{Float, max_of, amount}
use llm_service_manager.State.{StateSnapshot, ModelState, is_awake, is_asleep, is_stopped, blocker}
use llm_service_manager.Prelude.Result.{Result, ok, guard, ◌>>=◌, ◌>>◌}
use llm_service_manager.Policy.Settings.{PolicySettings}
use llm_service_manager.Policy.Projection.{
  Projection, Decision, init, block_unknown, known_number, block, candidates, stop_model,
  sleep_model, result,
}

module _ {N : Type 0} ⦃F : Float N⦄ where
  stopped_in : Projection N → String → Bool
  unfolding lookup
  stopped_in p name = elim (lookup name p.models) [ none ↦ false | some m ↦ is_stopped m.state ]

  -- The VRAM that putting the model to sleep gives back, or stopping it in its place.
  unfoldable pub gain : Projection N → ModelState N → N → N
  unfolding stopped_in
  gain p model freed =
      if known_number model.resident_gb
      then F.plus freed (
          max_of (F.of_nat 0) (
            F.minus (amount model.resident_gb)
              (if stopped_in p model.name then F.of_nat 0 else p.settings.sleeping_residual_gb)))
      else freed

  -- `need_gb is not None and freed >= need_gb`
  abbrev pub enough : Option N → N → Bool
  enough none freed = false
  enough (some need) freed = F.le need freed

  abbrev pub after_sleep : Projection N × Bool → ModelState N → N → Projection N × N
  after_sleep (p, true) model freed = (p, gain p model freed)
  after_sleep (p, false) model freed = (p, freed)

  -- One round of the loop: the new state, the sum, and whether the sum is compared (a `continue`
  -- passes that over).
  unfoldable pub free_one : Bool → Projection N → N → ModelState N → (Projection N × N) × Bool
  free_one true p freed m =
      if not (known_number m.weights_gb)
      then ((block p m "unknown_memory", freed), false)
      else ((stop_model p m "free_ram", F.plus freed (amount m.weights_gb)), true)
  free_one false p freed m = (after_sleep (sleep_model p m "free" true) m freed, true)

  unfoldable pub free_each :
      Bool → Option N → Projection N → N → List (ModelState N) → Projection N × N
  free_each ram need p freed [] = (p, freed)
  free_each ram need p freed (m ∷ ms) =
      let ((p', freed'), compared) = free_one ram p freed m in
      let rest = free_each ram need p' freed' ms in
      if compared && enough need freed' then (p', freed') else rest

  -- `need_gb is not None and freed < need_gb`
  abbrev pub lacking : Option N → N → Bool
  lacking none freed = false
  lacking (some need) freed = F.lt freed need

  -- The end of `plan_free`
  unfoldable pub report_free : Option ℕ → Option N → Projection N × N → Decision N
  report_free gpu need (p, freed) =
      result
        (if lacking need freed
          then record p {
            blockers = p.blockers ++ blocker none "insufficient_reclaimable_memory" gpu ∷ [];
          }
          else p)
        freed none

  abbrev pub no_need : Option N → Bool
  no_need none = false
  no_need (some need) = F.eq need (F.of_nat 0)

  unfoldable pub plan_free :
      StateSnapshot N
      → (gpu : Option ℕ) → (ram : Bool) → (need_gb : Option N) → PolicySettings N
      → Dict String
      → Result (Decision N)
  plan_free snapshot gpu ram need_gb settings exclusions = do
    guard (is_none need_gb || known_number need_gb) "need_gb must be finite and non-negative"
    p ← init snapshot settings exclusions
    if not (is_empty p.blockers) || no_need need_gb
        then ok (result p (F.of_nat 0) none)
        else (let on_card = λ (m : ModelState N). is_none gpu || opt_nat_eq m.gpu gpu in
            let selected =
              select (λ (m : ModelState N). on_card m && not (is_stopped m.state))
                snapshot.models in
            let wanted =
              λ (m : ModelState N). if ram then is_asleep m.state else is_awake m.state in
            let (p', ranked) =
              candidates (block_unknown p selected) (select wanted selected) ram
                (some (F.of_nat 30)) false in
            ok (report_free gpu need_gb (free_each ram need_gb p' (F.of_nat 0) ranked)))
