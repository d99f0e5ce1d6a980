-- ===== src/Leases/Admission.antt =====
-- llmsvc/leases.py: `_decision`, which admits a placement. It asks the placement policy only when the
-- sample is fresh and host memory has the headroom, and tells it which models no placement may touch.
-- What the action controller knows of faults, and what the recovery worker says of its claim, are
-- fields of the context.
use llm_service_manager.Prelude.{
  ℕ, String, Bool, true, false, not, ◌&&◌, ◌||◌, Option, none, some, List, [], ◌∷◌, ◌++◌, map, ◌⊎◌,
  inl, inr, str_eq,
}
use llm_service_manager.Prelude.Tests.{is_some, if◌then◌else◌}
use llm_service_manager.Prelude.Lists.{any}
use llm_service_manager.Prelude.Text.{Dict, lookup, insert, contains, opt_str_eq}
use llm_service_manager.Prelude.Float.{Float, amount, max_of}
use llm_service_manager.Prelude.Result.{Result, ok, ◌>>=◌}
use llm_service_manager.State.{
  StateSnapshot, ModelState, Lease, Blocker, Action, Kind, is_resident, blocker,
}
use llm_service_manager.Store.Rows.{IntentStore, RecoveryClaim, fault, recovery}
use llm_service_manager.Policy.Settings.{PolicySettings}
use llm_service_manager.Policy.Projection.{known_number}
use llm_service_manager.Policy.Placement.Plan.{PlacementDecision, plan_placement}
use llm_service_manager.Leases.Observed.{Context, is_fresh}

-- What the transport knows of a configured model
pub record Metadata (N : Type 0) : Type 0 where
  pub weights_gb : Option N
  pub is_default : Bool

-- The controller of actions, where actions are enabled
pub record Actions : Type 0 where
  pub enabled : Bool
  pub units : String → Option String
  pub fault_pending : String → Bool
  pub pending : List String
  pub free_active : Bool

pub record Admission (N : Type 0) : Type 0 where
  pub context : Context N
  pub models : Dict (Metadata N)
  pub actions : Actions
  pub settings : PolicySettings N
  -- what `_recovery_context` answers while a recovery of the model is active
  pub placement_claim : RecoveryClaim N → String ⊎ (RecoveryClaim N)
  pub recovery_settings : PolicySettings N

abbrev pub is_place : Action → Bool
is_place a = elim a.kind [ Kind.place ↦ true | _ ↦ false ]

-- `any(action.kind != "place" for action in decision.actions)`
abbrev pub evicts : List Action → Bool
evicts actions = any (λ a. not (is_place a)) actions

abbrev pub add_guard : (name : String) → Option String → Dict String → Dict String
add_guard name none guarded = guarded
add_guard name (some reason) guarded = insert name reason guarded

-- A decision, and what blocks it
abbrev pub Verdict : Type 0 → Type 0
Verdict N = Option (PlacementDecision N) × List (Blocker N)

module _ {N : Type 0} where
  -- `_recovery_context`
  unfoldable pub recovery_context :
      Admission N → IntentStore N → (model : String) → String ⊎ Option (RecoveryClaim N)
  recovery_context a s model = elim (recovery s model) [
    | none ↦ inr none
    | some claim ↦ elim (a.placement_claim claim) [
      | inl reason ↦ inl reason
      | inr given ↦ inr (some given)
    ]
  ]

  abbrev pub has_confirmed : StateSnapshot N → String → Bool
  has_confirmed s name =
      any (λ (l : Lease N). str_eq l.status "confirmed" && str_eq l.model name) s.leases

  abbrev pub is_managed : Admission N → ModelState N → Bool
  is_managed a m = is_some (a.context.units m.name) && opt_str_eq m.unit (a.context.units m.name)

  -- Why no placement may touch the model
  unfoldable pub guard_reason :
      Admission N → IntentStore N → StateSnapshot N → ModelState N → Option String
  guard_reason a s snapshot m =
      if not (is_managed a m)
      then some "unmanaged_or_changed_unit"
      else if a.actions.enabled && not (has_confirmed snapshot m.name)
      then some "unleased_model"
      else if a.actions.enabled
          && not (opt_str_eq (a.actions.units m.name) (a.context.units m.name))
      then some "action_unit_mismatch"
      else if a.actions.enabled && a.actions.fault_pending m.name
      then some "fault_recovery_pending"
      else if is_some (recovery s m.name)
      then some "sleeping_recovery_pending"
      else if a.actions.enabled && (contains m.name a.actions.pending || a.actions.free_active)
      then some "operation_in_progress"
      else none

  abbrev pub concerned : (request : String) → ModelState N → Bool
  concerned request m = not (str_eq m.name request) && is_resident m.state

  unfoldable pub guard_each :
      Admission N
      → IntentStore N
      → StateSnapshot N
      → (request : String) → List (ModelState N)
      → Dict String
      → Dict String
  guard_each a s snapshot request [] guarded = guarded
  guard_each a s snapshot request (m ∷ ms) guarded = guard_each a s snapshot request ms (
      if concerned request m
      then add_guard m.name (guard_reason a s snapshot m) guarded
      else guarded)

  abbrev is_default_of : Option (Metadata N) → Bool
  is_default_of none = false
  is_default_of (some d) = d.is_default

  -- A model that is configured as the default is protected as one.
  abbrev pub as_default : Admission N → ModelState N → ModelState N
  as_default a m =
      if is_default_of (lookup m.name a.models) then record m { is_default = true } else m

  abbrev pub protected : Admission N → StateSnapshot N → StateSnapshot N
  protected a s = record s { models = map (as_default a) s.models }

  abbrev weights_of : Option (Metadata N) → Option N
  weights_of none = none
  weights_of (some d) = d.weights_gb

  abbrev pub starts : Lease N → Bool
  starts l = contains l.status ("pending" ∷ "stale" ∷ [])

module _ {N : Type 0} ⦃F : Float N⦄ where
  -- The weights of the starts that are not observed yet, or the model whose weights are unknown
  unfoldable pub pending_weights : Admission N → List (Lease N) → N → String ⊎ N
  pending_weights a [] total = inr total
  pending_weights a (l ∷ ls) total =
      let weight = weights_of (lookup l.model a.models) in
      let rest = pending_weights a ls (F.plus total (amount weight)) in
      let skipped = pending_weights a ls total in
      if starts l then (if known_number weight then rest else inl l.model) else skipped

  -- A recovery raises the request to its floors.
  abbrev pub raised : ModelState N → Option (RecoveryClaim N) → ModelState N
  raised request none = request
  raised request (some claim) = record request {
    util = some (max_of (amount request.util) claim.util_floor);
    budget_gb = some (max_of (amount request.budget_gb) claim.budget_floor_gb);
  }

  abbrev pub gpu_exclusions : Option (RecoveryClaim N) → List (ℕ × String)
  gpu_exclusions none = []
  gpu_exclusions (some claim) = (claim.source_gpu, "relocation_source") ∷ []

  abbrev pub settings_for : Admission N → Option (RecoveryClaim N) → PolicySettings N
  settings_for a none = a.settings
  settings_for a (some claim) = a.recovery_settings

  -- Without room for it, the reason
  unfoldable pub headroom : Admission N → StateSnapshot N → ModelState N → Option (Blocker N)
  headroom a s request =
      let available = s.memory.host_available_gb in
      if not (known_number available && known_number request.weights_gb)
      then some (blocker (some request.name) "unknown_memory" none)
      else elim (pending_weights a s.leases (F.of_nat 0)) [
        | inl model ↦ some (blocker (some model) "unknown_memory" none)
        | inr pending ↦
            if F.lt (F.minus (F.minus (amount available) (amount request.weights_gb)) pending)
              s.memory.host_min_available_gb
            then some (blocker (some request.name) "host_memory_floor" none)
            else none
      ]

  abbrev pub turned_down : ModelState N → (reason : String) → Result (Verdict N)
  turned_down request reason = ok (none, blocker (some request.name) reason none ∷ [])

  -- The eviction that a decision holds needs the controller of actions.
  abbrev pub checked : Admission N → ModelState N → PlacementDecision N → Verdict N
  checked a request d =
      if evicts d.actions && not a.actions.enabled
      then (none, d.blocked_by ++ blocker (some request.name) "eviction_required" d.gpu ∷ [])
      else (some d, d.blocked_by)

  unfoldable pub admit_with :
      Admission N
      → IntentStore N
      → StateSnapshot N
      → ModelState N
      → (waiting : Bool) → (claim : Option (RecoveryClaim N)) → Result (Verdict N)
  admit_with a s snapshot request waiting claim =
      elim (headroom a snapshot (raised request claim)) [
        | some b ↦ ok (none, b ∷ [])
        | none ↦ do
          d ←
              plan_placement (protected a snapshot) (raised request claim) waiting
                (settings_for a claim) (guard_each a s snapshot request.name snapshot.models [])
                (gpu_exclusions claim)
          ok (checked a (raised request claim) d)
      ]

  -- `_decision`
  unfoldable pub decision :
      Admission N
      → IntentStore N
      → StateSnapshot N
      → ModelState N
      → (waiting : Bool) → Result (Verdict N)
  decision a s snapshot request waiting = elim a.context.catalog_reason [
    | some reason ↦ turned_down request reason
    | none ↦
        if is_some (fault s request.name)
        then turned_down request "fault_recovery_pending"
        else if not (is_fresh a.context snapshot)
        then turned_down request "unknown_or_stale_snapshot"
        else elim (recovery_context a s request.name) [
          | inl reason ↦ turned_down request reason
          | inr claim ↦ admit_with a s snapshot request waiting claim
        ]
  ]
