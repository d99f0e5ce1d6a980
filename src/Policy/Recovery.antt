-- ===== src/Policy/Recovery.antt =====
-- llmsvc/policy/recovery.py: the answer for one sleeper whose GPU is reserved or has no room for its
-- wake: a stop if nobody uses it, or a move to another card that has been planned in advance.
mod Trigger
mod Request
pub mod Outcome
pub mod Moves
pub mod Safety
pub mod Sleeping
pub mod Witnesses
unfoldable pub use Trigger.*
unfoldable pub use Request.*
use llm_service_manager.Prelude.{
  ℕ, zero, String, Bool, true, false, not, ◌&&◌, ◌||◌, ◌⊎◌, inl, inr, Option, none, some, List, [],
  ◌∷◌, ◌++◌, map, str_eq,
}
use llm_service_manager.Prelude.Int.{ℤ, pos}
use llm_service_manager.Prelude.Tests.{opt_nat_eq, is_none, is_some, is_true, when, if◌then◌else◌}
use llm_service_manager.Prelude.Lists.{any, select, find?, is_empty}
use llm_service_manager.Prelude.Text.{Dict, lookup, contains}
use llm_service_manager.Prelude.Float.{Float, known, amount}
use llm_service_manager.State.{
  StateSnapshot, ModelState, GpuState, Reserve, Lease, Blocker, Kind, is_asleep, is_stopped,
  blocker, action,
}
use llm_service_manager.Prelude.Result.{Result, ok, err, guard, ◌>>=◌, ◌>>◌}
use llm_service_manager.Policy.Settings.{PolicySettings, is_gpu}
use llm_service_manager.Policy.Projection.{
  Projection, sampled, init, known_number, snapshot_blockers, block, protection, score, candidates,
  memory_known, stop_model,
}
use llm_service_manager.Policy.Placement.Accounting.{Accounting, accounting, budget_of}
use llm_service_manager.Policy.Placement.Cards.{allocated, active_reserves}
use llm_service_manager.Policy.Placement.Plan.{
  PlacementDecision, placement, blocked_placement, plan_placement,
}
use llm_service_manager.Policy.Reserve.{stopped_copy}

abbrev bad_count : Option ℤ → Bool
bad_count (some (pos n)) = false
bad_count _ = true

abbrev pub is_unused : Option ℤ → Bool
is_unused (some (pos zero)) = true
is_unused _ = false

module _ {N : Type 0} ⦃F : Float N⦄ where
  -- The synthetic reserve on the source's card; a sleeper past `trigger` has one.
  abbrev pub source_reserve : StateSnapshot N → Option ℕ → List (Reserve N)
  source_reserve s none = []
  source_reserve s (some gpu) =
      record {
        id = "policy-relocation-source";
        gpu = gpu;
        size_gb = F.of_nat 0;
        until = F.plus (sampled s) (F.of_nat 1);
        by = "policy-preflight";
      }
      ∷ []

  -- The detached state in which the destination is planned: the source stopped and its card reserved
  unfoldable pub hypothetical : Projection N → ModelState N → Option ℕ → StateSnapshot N
  hypothetical p source gpu =
      let s = p.snapshot in
      record s {
        models =
            map (λ (m : ModelState N). if str_eq m.name source.name then stopped_copy source else m)
              s.models;
        memory = record s.memory {
          host_available_gb = p.available;
          sleeping_weights_gb = p.sleeping;
        };
        reserves = s.reserves ++ source_reserve s gpu;
      }

  abbrev pub joined : Projection N → ModelState N → PlacementDecision N → PlacementDecision N
  joined p source d = elim d.gpu [
    | none ↦ record d {
      decision = record d.decision {
        blocked_by = d.blocked_by ++ on_model source "relocation_unavailable" ∷ [];
      };
    }
    | some g ↦ record d { decision = record d.decision { actions = p.actions ++ d.actions } }
  ]

  -- The move: the source's stop and the plan for its destination
  unfoldable pub relocate :
      Projection N
      → ModelState N
      → String
      → ModelState N
      → PolicySettings N
      → Result (PlacementDecision N)
  relocate p source reason request settings =
      let stopped_p = stop_model p source reason in
      do
        d ←
            plan_placement (hypothetical stopped_p source source.gpu) request false settings
              p.exclusions []
        ok (joined stopped_p source d)

  abbrev pub count_of : Projection N → ModelState N → Option ℤ
  count_of p source = elim (lookup source.name p.activity) [
    | none ↦ none
    | some row ↦ row.requests_last_hour
  ]

  abbrev score_error : Result N → Option String
  score_error (ok v) = none
  score_error (err e) = some e

  -- The blockers of the source that end the plan before its count is read
  unfoldable pub source_blockers : Projection N → ModelState N → String → Option (List (Blocker N))
  source_blockers p source reason =
      let acc = accounting p.snapshot in
      let unknown = select (concerns source.gpu) acc.blockers in
      elim (protection p source true none false) [
        | some protected ↦ some (block p source protected).blockers
        | none ↦
            if contains source.name acc.leased
            then some (on_model source "outstanding_lease" ∷ [])
            else if not (is_empty unknown)
            then some unknown
            else elim (trigger p.snapshot source reason) [
              | some b ↦ some (b ∷ [])
              | none ↦
                  if bad_count (count_of p source)
                  then some (block p source "unknown_activity").blockers
                  else elim (score_error (score p source)) [
                    | some e ↦ some (block p source e).blockers
                    | none ↦ none
                  ]
            ]
      ]

  -- The plan for a source that nothing blocks
  unfoldable pub retire_or_move :
      Projection N
      → ModelState N
      → String
      → PolicySettings N
      → Option (Dict (ModelState N))
      → Result (PlacementDecision N)
  retire_or_move p source reason settings profiles =
      if is_unused (count_of p source)
      then ok (
          placement (action Kind.stop source.name reason source.gpu ∷ []) [] none none (F.of_nat 0))
      else if not (memory_known p) || not (known_number source.weights_gb)
      then ok (blocked_placement (on_model source "unknown_memory" ∷ []))
      else elim (replacement p source profiles) [
        | inl b ↦ ok (blocked_placement (b ∷ []))
        | inr request ↦ relocate p source reason request settings
      ]

  unfoldable pub plan_source :
      Projection N
      → Option (ModelState N)
      → String
      → String
      → PolicySettings N
      → Option (Dict (ModelState N))
      → Result (PlacementDecision N)
  plan_source p none name reason settings profiles =
      ok (blocked_placement (blocker (some name) "model_not_sleeping" none ∷ []))
  plan_source p (some source) name reason settings profiles =
      if not (is_asleep source.state)
      then ok (blocked_placement (blocker (some name) "model_not_sleeping" none ∷ []))
      else elim (source_blockers p source reason) [
        | some blockers ↦ ok (blocked_placement blockers)
        | none ↦ retire_or_move p source reason settings profiles
      ]

  unfoldable pub plan_relocation :
      StateSnapshot N
      → (model reason : String) → PolicySettings N
      → Dict String
      → Option (Dict (ModelState N))
      → Result (PlacementDecision N)
  plan_relocation s model reason settings exclusions profiles = do
    guard (contains reason ("reserve" ∷ "cannot_wake" ∷ [])) "reason must be reserve or cannot_wake"
    if not (is_empty (snapshot_blockers s))
        then ok (blocked_placement (snapshot_blockers s))
        else do
          p ← init s settings exclusions
          plan_source p (lookup model p.models) model reason settings profiles

  abbrev reason_for : StateSnapshot N → ModelState N → String
  reason_for s m = if is_empty (active_reserves s m.gpu) then "cannot_wake" else "reserve"

  abbrev noted : List (Blocker N) → List (Blocker N)
  noted l = select (λ (b : Blocker N). not (str_eq b.reason "wake_budget_available")) l

  -- The loop of `plan_sleeping_recovery`: the first sleeper with a plan
  unfoldable pub recover_first :
      StateSnapshot N
      → PolicySettings N
      → Dict String
      → Option (Dict (ModelState N))
      → List (Blocker N)
      → List (ModelState N)
      → Result (PlacementDecision N)
  recover_first s settings exclusions profiles blockers [] = ok (blocked_placement blockers)
  recover_first s settings exclusions profiles blockers (m ∷ ms) =
      plan_relocation s m.name (reason_for s m) settings exclusions profiles >>= λ d.
      elim (is_empty d.actions) [
        | false ↦
            ok (record d { decision = record d.decision { blocked_by = blockers ++ d.blocked_by } })
        | true ↦ recover_first s settings exclusions profiles (blockers ++ noted d.blocked_by) ms
      ]

  unfoldable pub plan_sleeping_recovery :
      StateSnapshot N
      → PolicySettings N
      → Dict String
      → Option (Dict (ModelState N))
      → Result (PlacementDecision N)
  plan_sleeping_recovery s settings exclusions profiles = do
    p ← init s settings exclusions
    if not (is_empty p.blockers)
        then ok (blocked_placement p.blockers)
        else (let sleepers = select (λ (m : ModelState N). is_asleep m.state) s.models in
            let (p', ranked) = candidates p sleepers true none false in
            recover_first s settings p.exclusions profiles p'.blockers ranked)
