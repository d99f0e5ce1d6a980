-- ===== src/Policy/Recovery/Moves.antt =====
-- llmsvc/policy/recovery.py: a relocation without a destination acts on nothing, and one with a
-- destination goes to another card.
use llm_service_manager.Prelude.{
  ℕ, String, ◌≡◌, ◌≢◌, refl, ap, sym, subst, ◌∙◌, ◌⊎◌, inl, inr, true, false, Option, none, some,
  List, [], ◌∷◌, ◌++◌,
}
use mathlib.Core.Option.{some-injective}
use llm_service_manager.Prelude.Tests.{Option-cases}
use llm_service_manager.Prelude.Lists.{All, All-behind}
use llm_service_manager.Prelude.Text.{Dict}
use llm_service_manager.Prelude.Float.{Float, known}
use llm_service_manager.State.{StateSnapshot, ModelState, Reserve, Action, Kind, action}
use llm_service_manager.Prelude.Result.{ok}
use llm_service_manager.Policy.Settings.{PolicySettings}
use llm_service_manager.Policy.Projection.{Projection, fresh, sampled, stop_model}
use llm_service_manager.Policy.Placement.Plan.{
  PlacementDecision, plan_placement, place_action, query,
}
use llm_service_manager.Policy.Placement.Safety.{
  IsPlaced, plan_placement-no_gpu, plan_placement-IsPlaced,
}
use llm_service_manager.Policy.Recovery.{
  is_unused, count_of, source_reserve, hypothetical, joined, plan_relocation,
}
use llm_service_manager.Policy.Recovery.Outcome.{IsSource, plan_relocation-ind}

module _ {N : Type 0} ⦃F : Float N⦄ (s : StateSnapshot N) (model reason : String)
    (settings : PolicySettings N) (exclusions : Dict String)
    (profiles : Option (Dict (ModelState N))) where
  abbrev pub source_stop : ModelState N → Action
  source_stop source = action Kind.stop source.name reason source.gpu

  -- The plan acts on nothing, or it starts with the stop of its source: alone, if the source had no
  -- request in the last hour, or before a placement that ends on another card.
  pub record IsRelocated (d : PlacementDecision N) : Type 0 where
    pub projection : Projection N
    pub source : ModelState N
    pub of_source : IsSource s model reason settings exclusions profiles projection source
    pub way :
        ((d.gpu ≡ none)
          × (d.actions ≡ source_stop source ∷ [])
          × (is_unused (count_of projection source) ≡ true))
        ⊎ ((gpu : ℕ) × (d.gpu ≡ some gpu)
            × (source.gpu ≢ some gpu)
            × (request : ModelState N) × (rest : List Action) × (d.actions
                ≡ source_stop source ∷ (rest ++ place_action request gpu ∷ [])))

  abbrev Ends : PlacementDecision N → Type 0
  Ends d = (d.actions ≡ []) ⊎ IsRelocated d

  stop_actions :
      (p : Projection N) (source : ModelState N)
      → fresh s settings exclusions ≡ p
      → (stop_model p source reason).actions ≡ source_stop source ∷ []
  unfolding fresh stop_model
  stop_actions p source start =
      subst (λ (q : Projection N). (stop_model q source reason).actions ≡ source_stop source ∷ [])
        start refl

  snapshot_kept : (p : Projection N) → fresh s settings exclusions ≡ p → s ≡ p.snapshot
  unfolding fresh
  snapshot_kept p start = ap (λ (q : Projection N). q.snapshot) start

  -- The card of the source is reserved in the snapshot of the placement.
  closed :
      (t : StateSnapshot N)
      → F.lt (sampled t) (F.plus (sampled t) (F.of_nat 1)) ≡ true
      → (of_source : Option ℕ) (index gpu : ℕ)
      → All
          (λ (r : Reserve N).
            r.gpu ≡ index → (known r.until ≡ true) × (F.lt (sampled t) r.until ≡ false))
          (t.reserves ++ source_reserve t of_source)
      → index ≡ gpu
      → of_source ≢ some gpu
  closed t later none index gpu all_open same e = cc
  closed t later (some g) index gpu all_open same e =
      let (_, ended) = (All-behind _ t.reserves _ all_open).0 (some-injective _ _ e ∙ sym same) in
      cc

  module _ (later : F.lt (sampled s) (F.plus (sampled s) (F.of_nat 1)) ≡ true) where
    placed-Ends :
        (p : Projection N) (source request : ModelState N) (d : PlacementDecision N) (gpu : ℕ)
        → IsSource s model reason settings exclusions profiles p source
        → IsPlaced
            (hypothetical (stop_model p source reason) source source.gpu)
            request
            settings
            p.exclusions
            []
            d
            gpu
        → source.gpu ≢ some gpu
    unfolding hypothetical query stop_model
    placed-Ends p source request d gpu o k =
        closed p.snapshot
          (subst
            (λ (t : StateSnapshot N). F.lt (sampled t) (F.plus (sampled t) (F.of_nat 1)) ≡ true)
            (snapshot_kept p o.start) later)
          source.gpu k.target.card.index gpu k.target.unreserved (k.target.same_index ∙ k.same_gpu)

    moved-Ends :
        (p : Projection N) (source request : ModelState N) (d : PlacementDecision N)
        → IsSource s model reason settings exclusions profiles p source
        → plan_placement
            (hypothetical (stop_model p source reason) source source.gpu)
            request
            false
            settings
            p.exclusions
            []
          ≡ ok d
        → Ends (joined (stop_model p source reason) source d)
    moved-Ends p source request d o planned = elim (Option-cases d.gpu) [
      | inl e ↦
          rw e (inl (plan_placement-no_gpu _ request settings p.exclusions [] false d planned e))
      | inr (gpu, e) ↦
          let k =
            plan_placement-IsPlaced _ request settings p.exclusions [] false d planned gpu e in
          rw e (
            inr (record {
              projection = p;
              source = source;
              of_source = o;
              way = inr (
                gpu,
                refl,
                placed-Ends p source request d gpu o k,
                request,
                k.ends.0,
                ap (λ l. l ++ d.actions) (stop_actions p source o.start)
                    ∙ ap (λ l. source_stop source ∷ l) k.ends.1,
              );
            }))
    ]

    -- A relocation that returns acts on nothing, or stops a sleeper of that name that may be stopped, and
    -- then nothing else if the sleeper had no request in the last hour, or else carries out a placement on
    -- a card that is not the sleeper's. The next second has to be later than the time of the snapshot.
    pub plan_relocation-IsRelocated :
        (d : PlacementDecision N)
        → plan_relocation s model reason settings exclusions profiles ≡ ok d
        → (d.actions ≡ []) ⊎ IsRelocated d
    plan_relocation-IsRelocated =
        plan_relocation-ind s model reason settings exclusions profiles {P = Ends} (record {
          refused = λ bs. inl refl;
          retired = λ p source o unused. inr (record {
            projection = p;
            source = source;
            of_source = o;
            way = inl (refl, refl, unused);
          });
          moved = λ p source request d o planned. moved-Ends p source request d o planned;
        })
