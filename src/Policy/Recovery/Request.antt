-- ===== src/Policy/Recovery/Request.antt =====
-- llmsvc/policy/recovery.py: the request that takes the place of the source, and the room that host
-- memory has for it.
use llm_service_manager.Prelude.{
  Bool, true, false, not, ◌&&◌, ◌||◌, ◌⊎◌, inl, inr, Option, none, some, List, [], ◌∷◌, str_eq,
}
use llm_service_manager.Prelude.Tests.{is_some, is_true, when, if◌then◌else◌}
use llm_service_manager.Prelude.Text.{Dict, lookup, contains}
use llm_service_manager.Prelude.Float.{Float, known, amount}
use llm_service_manager.State.{ModelState, Lease, Blocker, is_stopped, blocker}
use llm_service_manager.Policy.Projection.{Projection, known_number}
use llm_service_manager.Policy.Placement.Accounting.{budget_of}
use llm_service_manager.Policy.Reserve.{stopped_copy}
use llm_service_manager.Policy.Recovery.Trigger.{on_model}

abbrev same_default : Bool → Bool → Bool
same_default true b = b
same_default false b = not b

module _ {N : Type 0} ⦃F : Float N⦄ where
  -- The request that replaces the source has to be its stopped twin.
  unfoldable pub is_replacement : ModelState N → ModelState N → Bool
  is_replacement source request =
      str_eq request.name source.name
      && is_stopped request.state
      && not (is_true request.unit_active)
      && same_default request.is_default source.is_default
      && known_number request.weights_gb
      && is_some (budget_of request.budget_gb request.util (F.of_nat 1))

  abbrev pending_of : Dict (ModelState N) → Lease N → Option N
  pending_of profiles l = elim (lookup l.model profiles) [
    | none ↦ none
    | some m ↦ if str_eq m.name l.model && known_number m.weights_gb then m.weights_gb else none
  ]

  -- The weights of the pending leases, or the blocker of one that has none on record
  pending_weight : Dict (ModelState N) → N → List (Lease N) → Blocker N ⊎ N
  pending_weight profiles total [] = inr total
  pending_weight profiles total (l ∷ ls) = elim (contains l.status ("pending" ∷ "stale" ∷ [])) [
    | false ↦ pending_weight profiles total ls
    | true ↦ elim (pending_of profiles l) [
      | none ↦ inl (blocker (some l.model) "unknown_memory" (some l.gpu))
      | some weight ↦ pending_weight profiles (F.plus total weight) ls
    ]
  ]

  abbrev admit_pending :
      Projection N → ModelState N → ModelState N → Blocker N ⊎ N → Option (Blocker N)
  admit_pending p source request (inl b) = some b
  admit_pending p source request (inr pending) =
      let after_stop = F.plus (amount p.available) (amount source.weights_gb) in
      if not (known after_stop) || not (known pending)
      then some (on_model source "unknown_memory")
      else when
          (F.lt (F.minus (F.minus after_stop (amount request.weights_gb)) pending)
            p.snapshot.memory.host_min_available_gb)
          (on_model source "host_memory_floor")

  -- The request that is placed, or the blocker of the profiles given with the call
  unfoldable pub replacement :
      Projection N → ModelState N → Option (Dict (ModelState N)) → Blocker N ⊎ ModelState N
  unfolding pending_weight
  replacement p source none = inr (stopped_copy source)
  replacement p source (some profiles) = elim (lookup source.name profiles) [
    | none ↦ inl (on_model source "missing_replacement_request")
    | some request ↦
        if not (is_replacement source request)
        then inl (on_model source "invalid_replacement_request")
        else elim (admit_pending p source request
            (pending_weight profiles (F.of_nat 0) p.snapshot.leases)) [
              | some b ↦ inl b
              | none ↦ inr request
            ]
  ]
