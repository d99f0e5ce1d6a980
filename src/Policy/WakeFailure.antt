-- ===== src/Policy/WakeFailure.antt =====
-- llmsvc/policy/wake_failure.py: a model that the data plane calls ready while its backend sleeps is
-- stopped, once enough rounds over a long enough time have shown it so.
pub mod Evidence
pub mod Repeat
pub mod Runs
pub mod Shown
pub mod Reports
pub mod Witnesses
use llm_service_manager.Prelude.{
  ℕ, ◌+◌, String, Bool, true, false, not, ◌&&◌, ◌||◌, Option, none, some, List, [], ◌∷◌, str_eq,
}
use llm_service_manager.Prelude.Int.{ℤ}
use llm_service_manager.Prelude.Tests.{ltb, is_true, or_else, if◌then◌else◌}
use llm_service_manager.Prelude.Lists.{is_empty}
use llm_service_manager.Prelude.Sort.{sorted}
use llm_service_manager.Prelude.Text.{Dict, by_key, lookup, join, or_none, str_lt, opt_str_eq}
use llm_service_manager.Prelude.Float.{Float, known}
use llm_service_manager.State.{
  StateSnapshot, ModelState, Activity, Blocker, Action, Kind, is_asleep, action,
}
use llm_service_manager.Prelude.Result.{Result, ok, guard, ◌>>=◌, ◌>>◌}
use llm_service_manager.Policy.Projection.{sampled, snapshot_blockers, is_pinned}

-- The first and the last matching round, and the number of distinct rounds
pub record Window (N : Type 0) : Type 0 where
  pub first : N
  pub last : N
  pub rounds : ℕ

pub record WakeFailureDecision (N : Type 0) : Type 0 where
  pub actions : List Action
  pub blocked_by : List (Blocker N)
  pub windows : Dict (Window N)

abbrev pub min_samples_default : ℕ
min_samples_default = 3

-- A guard counts if its reason is not the empty text.
abbrev given : Option String → Option String
given none = none
given (some reason) = or_none reason

module _ {N : Type 0} where
  -- Backend alive and healthy but asleep, while the data plane says ready
  unfoldable pub wedged : ModelState N → Bool
  wedged m =
      is_asleep m.state
      && is_true m.unit_active
      && is_true m.health_ok
      && is_true m.is_sleeping
      && opt_str_eq m.swap_state (some "ready")

module _ {N : Type 0} ⦃F : Float N⦄ where
  abbrev pub opened : N → Window N
  opened now = record { first = now; last = now; rounds = 1 }

  abbrev pub well_formed : N → Window N → Bool
  well_formed now w = known w.first && known w.last && F.le w.first w.last && F.le w.last now

  -- The window of a wedged model after this round
  unfoldable pub advance : N → Option (Window N) → Window N
  advance now none = opened now
  advance now (some w) =
      if not (well_formed now w)
      then opened now
      else if F.lt w.last now
      then record w { last = now; rounds = w.rounds + 1 }
      else w

  -- Not yet: too little time or too few rounds
  abbrev pub is_early : N → N → ℕ → Window N → Bool
  is_early now grace min_samples w = F.lt (F.minus now w.first) grace || ltb w.rounds min_samples

  abbrev in_flight_of : Option (Activity N) → Option ℤ
  in_flight_of none = none
  in_flight_of (some row) = row.in_flight

  abbrev user_of : Option (Activity N) → Option String
  user_of none = none
  user_of (some row) = or_none (join ", " row.by)

  -- Why a wedged model is not stopped
  unfoldable pub guard_reason : StateSnapshot N → Dict String → ModelState N → Option String
  guard_reason s guards m =
      if is_pinned s m.name
      then some "pinned_until"
      else if m.is_default
      then some "default_model"
      else given (lookup m.name guards)

  -- A stop of a model past its evidence, or a blocker that says why not
  unfoldable pub reported :
      StateSnapshot N → Dict String → ModelState N → WakeFailureDecision N → WakeFailureDecision N
  reported s guards m d =
      let row = lookup m.name (by_key (λ (a : Activity N). a.model) s.activity) in
      elim (guard_reason s guards m) [
        | none ↦ record d { actions = action Kind.stop m.name "wake_failed" m.gpu ∷ d.actions }
        | some reason ↦ record d {
          blocked_by =
              record {
                model = some m.name;
                reason = reason;
                gpu = m.gpu;
                user = user_of row;
                in_flight = in_flight_of row;
                external_gb = none;
              }
              ∷ d.blocked_by;
        }
      ]

  abbrev no_failure : WakeFailureDecision N
  no_failure = record { actions = []; blocked_by = []; windows = [] }

  -- The loop over the models in the order of their names
  unfoldable pub judge :
      StateSnapshot N
      → Dict (Window N)
      → (grace : N) → Dict String
      → (min_samples : ℕ) → List (ModelState N)
      → WakeFailureDecision N
  judge s previous grace guards min_samples [] = no_failure
  judge s previous grace guards min_samples (m ∷ ms) =
      let rest = judge s previous grace guards min_samples ms in
      let w = advance (sampled s) (lookup m.name previous) in
      let kept = record rest { windows = (m.name, w) ∷ rest.windows } in
      if not (wedged m)
      then rest
      else if is_early (sampled s) grace min_samples w
      then kept
      else reported s guards m kept

  abbrev by_name : StateSnapshot N → List (ModelState N)
  by_name s = sorted (λ (a b : ModelState N). str_lt a.name b.name) s.models

  unfoldable pub plan_wake_failure :
      StateSnapshot N
      → Dict (Window N)
      → (grace_seconds : N) → Dict String
      → (min_samples : ℕ) → Result (WakeFailureDecision N)
  plan_wake_failure s windows grace_seconds exclusions min_samples = do
    guard (known grace_seconds && F.lt (F.of_nat 0) grace_seconds)
        "grace_seconds must be a finite positive number"
    guard (not (ltb min_samples 2)) "min_samples must be an integer >= 2"
    ok (
        if not (is_empty (snapshot_blockers s))
        then record { actions = []; blocked_by = snapshot_blockers s; windows = [] }
        else judge s windows grace_seconds exclusions min_samples (by_name s))
