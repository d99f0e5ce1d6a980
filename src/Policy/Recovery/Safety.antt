-- ===== src/Policy/Recovery/Safety.antt =====
-- llmsvc/policy/recovery.py: what a relocation frees, of its source and on its destination, is idle in
-- the snapshot that the plan was asked about.
use llm_service_manager.Prelude.{
  ℕ, String, ◌≡◌, refl, subst, ◌∙◌, ◌⊎◌, inl, inr, false, Option, [], ◌∷◌, Memᴰ, str_eq,
}
use llm_service_manager.Prelude.Tests.{Option-cases, if_ind, if◌then◌else◌}
use llm_service_manager.Prelude.Lists.{All, All-map, All-append, All-mem, All-of_map, All-of_mem}
use llm_service_manager.Prelude.Text.{Dict}
use llm_service_manager.Prelude.Float.{Float}
use llm_service_manager.State.{StateSnapshot, ModelState, Action, Kind, action}
use llm_service_manager.Prelude.Result.{ok}
use llm_service_manager.Policy.Settings.{PolicySettings}
use llm_service_manager.Policy.Projection.{Projection, fresh, stop_model}
use llm_service_manager.Policy.Safety.{Origin, IsSafe}
use llm_service_manager.Policy.Safety.Releases.{stop_candidate-IsSound}
use llm_service_manager.Policy.Intents.Safety.{fresh-IsSound}
use llm_service_manager.Policy.Reserve.{stopped_copy}
use llm_service_manager.Policy.Placement.Plan.{PlacementDecision, plan_placement, place_action}
use llm_service_manager.Policy.Placement.Safety.{IsGentle, plan_placement-IsGentle}
use llm_service_manager.Policy.Recovery.{hypothetical, joined, plan_relocation}
use llm_service_manager.Policy.Recovery.Outcome.{IsSource, plan_relocation-ind}

module _ {N : Type 0} ⦃F : Float N⦄ (s : StateSnapshot N) (exclusions : Dict String) where
  -- The place of a model, or a release that spares the models in use and the default model
  abbrev pub IsGentleHere : Action → Type 0
  IsGentleHere a =
      ((request : ModelState N) × (gpu : ℕ) × (a ≡ place_action request gpu))
      ⊎ IsSafe s exclusions false a

module _ {N : Type 0} ⦃F : Float N⦄ (s : StateSnapshot N) (model reason : String)
    (settings : PolicySettings N) (exclusions : Dict String)
    (profiles : Option (Dict (ModelState N))) where
  abbrev Gentle : PlacementDecision N → Type 0
  Gentle d = All (IsGentleHere s exclusions) d.actions

  twin-Origin :
      (source m : ModelState N)
      → Memᴰ source s.models
      → Memᴰ m s.models
      → Origin s (if str_eq m.name source.name then stopped_copy source else m)
  twin-Origin source m of_source there =
      if_ind (Origin s) (str_eq m.name source.name) (λ _. (source, of_source, refl, refl))
        (λ _. (m, there, refl, refl))

  abbrev first_state : Projection N
  first_state = fresh s settings exclusions

  abbrev without : ModelState N → StateSnapshot N
  without source = hypothetical (stop_model first_state source reason) source source.gpu

  without-Origin :
      (source : ModelState N) → Memᴰ source s.models → All (Origin s) (without source).models
  unfolding hypothetical stop_model fresh
  without-Origin source there =
      All-of_map (Origin s) _ s.models (All-of_mem _ s.models (λ m t. twin-Origin source m there t))

  -- What is safe in the snapshot without the source is safe in the one with it.
  IsSafe-without :
      (source : ModelState N)
      → Memᴰ source s.models
      → (a : Action) → IsSafe (without source) exclusions false a
      → IsSafe s exclusions false a
  unfolding hypothetical stop_model fresh
  IsSafe-without source there a x =
      let (o, o_there, o_named, spared) = x.origin in
      let (m, m_there, m_named, same) =
        All-mem (Origin s) _ (without-Origin source there) o o_there in
      record {
        releases = x.releases;
        idle = record {
          unpinned = x.idle.unpinned;
          eligible = x.idle.eligible;
          quiet = x.idle.quiet;
        };
        origin = (m, m_there, m_named ∙ o_named, λ e f. same ∙ spared e f);
      }

  placed-Gentle :
      (source request : ModelState N) (d : PlacementDecision N)
      → Memᴰ source s.models
      → plan_placement (without source) request false settings exclusions [] ≡ ok d
      → Gentle d
  placed-Gentle source request d there planned =
      All-map (IsGentle (without source) request settings exclusions []) (IsGentleHere s exclusions)
        d.actions
        (λ a. elim [
          | inl (gpu, same) ↦ inl (request, gpu, same)
          | inr safe ↦ inr (IsSafe-without source there a safe)
        ])
        (plan_placement-IsGentle (without source) request settings exclusions [] false d planned)

  stop-Gentle :
      (source : ModelState N)
      → IsSource s model reason settings exclusions profiles first_state source
      → All (IsGentleHere s exclusions) (stop_model first_state source reason).actions
  stop-Gentle source o =
      All-map (IsSafe s exclusions false) (IsGentleHere s exclusions) _ (λ a safe. inr safe)
        (stop_candidate-IsSound s exclusions false first_state source reason false
          (fresh-IsSound s settings exclusions false) (λ e. e) o.candidate).safe

  moved-Gentle :
      (source request : ModelState N) (d : PlacementDecision N)
      → IsSource s model reason settings exclusions profiles first_state source
      → plan_placement (without source) request false settings exclusions [] ≡ ok d
      → Gentle (joined (stop_model first_state source reason) source d)
  moved-Gentle source request d o planned =
      let gentle = placed-Gentle source request d o.there planned in
      elim (Option-cases d.gpu) [
        | inl e ↦ rw e gentle
        | inr (gpu, e) ↦
            rw e (All-append (IsGentleHere s exclusions) _ d.actions (stop-Gentle source o) gentle)
      ]

  abbrev Moved : Projection N → Type 0
  Moved p =
      (source request : ModelState N) (d : PlacementDecision N)
      → IsSource s model reason settings exclusions profiles p source
      → plan_placement (hypothetical (stop_model p source reason) source source.gpu) request false
          settings p.exclusions []
        ≡ ok d
      → Gentle (joined (stop_model p source reason) source d)

  Moved-first : Moved first_state
  unfolding fresh
  Moved-first = moved-Gentle

  abbrev Retired : Projection N → Type 0
  Retired p =
      (source : ModelState N)
      → IsSource s model reason settings exclusions profiles p source
      → All (IsGentleHere s exclusions) (action Kind.stop source.name reason source.gpu ∷ [])

  Retired-first : Retired first_state
  unfolding fresh stop_model
  Retired-first source o = stop-Gentle source o

  -- Every action of a relocation places a model, or puts to sleep or stops a model of the snapshot that
  -- no pin, exclusion or request in flight holds; no stop takes a default model. That counts the stop of
  -- the source and the evictions on its destination.
  pub plan_relocation-IsGentle :
      (d : PlacementDecision N)
      → plan_relocation s model reason settings exclusions profiles ≡ ok d
      → All (IsGentleHere s exclusions) d.actions
  plan_relocation-IsGentle =
      plan_relocation-ind s model reason settings exclusions profiles {P = Gentle} (record {
        refused = λ bs. tt;
        retired = λ p source o unused. subst Retired o.start Retired-first source o;
        moved = λ p source request d o planned.
            subst Moved o.start Moved-first source request d o planned;
      })
