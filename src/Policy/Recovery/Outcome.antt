-- ===== src/Policy/Recovery/Outcome.antt =====
-- llmsvc/policy/recovery.py: what `plan_relocation` comes to. It refuses, or stops a sleeper that
-- nobody uses, or stops it and follows a placement that was planned with its card closed.
use llm_service_manager.Prelude.{
  String, ◌≡◌, refl, sym, subst, inl, inr, true, false, not, ◌||◌, Option, none, some, List, [],
  ◌∷◌, Memᴰ,
}
use llm_service_manager.Prelude.Tests.{Option-cases, Sum-cases, if_ind, not-false}
use llm_service_manager.Prelude.Lists.{All-of_mem, is_empty}
use llm_service_manager.Prelude.Text.{Dict, lookup, by_key-lookup, contains}
use llm_service_manager.Prelude.Float.{Float}
use llm_service_manager.State.{StateSnapshot, ModelState, Blocker, Kind, is_asleep, action}
use llm_service_manager.Prelude.Result.{ok, guard, OnOk, OnOk-eq, OnOk-bind}
use llm_service_manager.Policy.Settings.{PolicySettings}
use llm_service_manager.Policy.Projection.{
  Projection, init, init-eq, fresh, protection, snapshot_blockers, known_number, memory_known,
  stop_model,
}
use llm_service_manager.Policy.Safety.{IsSound}
use llm_service_manager.Policy.Safety.Steps.{IsCandidate, IsCandidate-of}
use llm_service_manager.Policy.Intents.Safety.{init-IsSound}
use llm_service_manager.Policy.Placement.Plan.{
  PlacementDecision, placement, blocked_placement, plan_placement,
}
use llm_service_manager.Policy.Recovery.{
  is_unused, count_of, source_blockers, hypothetical, joined, relocate, replacement, retire_or_move,
  plan_source, plan_relocation,
}

module _ {N : Type 0} ⦃F : Float N⦄ (s : StateSnapshot N) (model reason : String)
    (settings : PolicySettings N) (exclusions : Dict String)
    (profiles : Option (Dict (ModelState N))) where
  -- The source of a relocation: a sleeper of the snapshot that may be stopped
  pub record IsSource (p : Projection N) (source : ModelState N) : Type 0 where
    pub there : Memᴰ source s.models
    pub named : source.name ≡ model
    pub asleep : is_asleep source.state ≡ true
    pub candidate : IsCandidate s exclusions true false source
    pub start : fresh s settings exclusions ≡ p

  -- What holds of each way in which the plan ends.
  pub record Rule (P : PlacementDecision N → Type 0) : Type 0 where
    pub refused : (bs : List (Blocker N)) → P (blocked_placement bs)
    pub retired :
        (p : Projection N) (source : ModelState N)
        → IsSource p source
        → is_unused (count_of p source) ≡ true
        → P (
            placement
              (action Kind.stop source.name reason source.gpu ∷ [])
              []
              none
              none
              (F.of_nat 0))
    pub moved :
        (p : Projection N) (source request : ModelState N) (d : PlacementDecision N)
        → IsSource p source
        → plan_placement
            (hypothetical (stop_model p source reason) source source.gpu)
            request
            false
            settings
            p.exclusions
            []
          ≡ ok d
        → P (joined (stop_model p source reason) source d)

  unblocked :
      (p : Projection N) (source : ModelState N)
      → source_blockers p source reason ≡ none
      → protection p source true none false ≡ none
  unfolding source_blockers
  unblocked p source = elim (Option-cases (protection p source true none false)) [
    | inl e ↦ λ _. e
    | inr (r, e) ↦ rw (e, source_blockers) (λ h. cc)
  ]

  module _ {P : PlacementDecision N → Type 0} (rule : Rule P) where
    relocate-OnOk :
        (p : Projection N) (source request : ModelState N)
        → IsSource p source
        → OnOk P (relocate p source reason request settings)
    unfolding relocate
    relocate-OnOk p source request o =
        OnOk-bind P
          (plan_placement (hypothetical (stop_model p source reason) source source.gpu) request
            false settings p.exclusions [])
          _ (λ d e. rule.moved p source request d o e)

    retire_or_move-OnOk :
        (p : Projection N) (source : ModelState N)
        → IsSource p source
        → OnOk P (retire_or_move p source reason settings profiles)
    unfolding retire_or_move
    retire_or_move-OnOk p source o =
        if_ind (OnOk P) (is_unused (count_of p source)) (λ u. rule.retired p source o u)
          (λ _.
            if_ind (OnOk P) (not (memory_known p) || not (known_number source.weights_gb))
              (λ _. rule.refused _)
              (λ _. elim (Sum-cases (replacement p source profiles)) [
                | inl (b, e) ↦ rw (e, retire_or_move) (rule.refused (b ∷ []))
                | inr (request, e) ↦ rw (e, retire_or_move) (relocate-OnOk p source request o)
              ]))

    source-OnOk :
        (p : Projection N) (source : ModelState N)
        → IsSound s exclusions false p
        → fresh s settings exclusions ≡ p
        → Memᴰ source s.models
        → source.name ≡ model
        → OnOk P (plan_source p (some source) model reason settings profiles)
    unfolding plan_source
    source-OnOk p source v start there named =
        if_ind (OnOk P) (not (is_asleep source.state)) (λ _. rule.refused _)
          (λ asleep. elim (Option-cases (source_blockers p source reason)) [
            | inr (bs, e) ↦ rw (e, plan_source) (rule.refused bs)
            | inl e ↦
                rw (e, plan_source)
                  (retire_or_move-OnOk p source (record {
                    there = there;
                    named = named;
                    asleep = not-false _ asleep;
                    candidate =
                        IsCandidate-of s exclusions false p source true none false v
                          (source, there, refl, refl) (unblocked p source e);
                    start = start;
                  }))
          ])

    found-OnOk :
        (p : Projection N)
        → IsSound s exclusions false p
        → fresh s settings exclusions ≡ p
        → (found : Option (ModelState N))
        → ((source : ModelState N)
            → found ≡ some source
            → Memᴰ source s.models × (source.name ≡ model))
        → OnOk P (plan_source p found model reason settings profiles)
    unfolding plan_source
    found-OnOk p v start none known = rule.refused _
    found-OnOk p v start (some source) known =
        let (there, named) = known source refl in source-OnOk p source v start there named

    found_there :
        (p : Projection N)
        → fresh s settings exclusions ≡ p
        → (source : ModelState N) → lookup model p.models ≡ some source
        → Memᴰ source s.models × (source.name ≡ model)
    unfolding fresh
    found_there p start source e =
        by_key-lookup (λ (m : ModelState N). Memᴰ m s.models) (λ m. m.name) s.models model source
          (All-of_mem _ s.models (λ _ there. there))
          (subst (λ (q : Projection N). lookup model q.models ≡ some source) (sym start) e)

    -- Each way in which a plan that returns a decision can end.
    pub plan_relocation-ind :
        (d : PlacementDecision N)
        → plan_relocation s model reason settings exclusions profiles ≡ ok d
        → P d
    unfolding plan_relocation
    plan_relocation-ind d = OnOk-eq P _ d (
        OnOk-bind P (guard (contains reason ("reserve" ∷ "cannot_wake" ∷ [])) _) _ (λ _ _.
          if_ind (OnOk P) (not (is_empty (snapshot_blockers s))) (λ _. rule.refused _)
            (λ _. OnOk-bind P (init s settings exclusions) _ (λ p e.
              let start = init-eq s settings exclusions p e in
              found-OnOk p (init-IsSound s settings exclusions false p e) start
                (lookup model p.models) (found_there p start)))))
