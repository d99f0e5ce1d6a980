-- ===== src/Policy/Placement/Residents.antt =====
-- llmsvc/policy/placement.py: what is priced for a card are residents of the card.
use llm_service_manager.Prelude.{◌≡◌, inl, inr, true, Option, some, List, [], ◌∷◌, Bool, ℕ, Memᴰ}
use llm_service_manager.Prelude.Tests.{Option-cases, opt_nat_eq}
use llm_service_manager.Prelude.Lists.{All, All-of_map}
use llm_service_manager.Prelude.Sort.{All-sorted}
use llm_service_manager.Prelude.Float.{Float}
use llm_service_manager.Prelude.Result.{Result-cases}
use llm_service_manager.State.{StateSnapshot, ModelState, is_resident}
use llm_service_manager.Policy.Projection.{
  Projection, Candidate, block, protection, score, rank, candidates, key_lt,
}
use llm_service_manager.Policy.Placement.Accounting.{Accounting}
use llm_service_manager.Policy.Placement.Evictions.{ineligible, eligible}

-- A model that the snapshot has on the card
pub record IsResident {N : Type 0} (s : StateSnapshot N) (index : ℕ) (m : ModelState N)
    : Type 0 where
  pub is_sampled : Memᴰ m s.models
  pub on_card : opt_nat_eq m.gpu (some index) ≡ true
  pub resident : is_resident m.state ≡ true

module _ {N : Type 0} ⦃F : Float N⦄ (P : ModelState N → Type 0) where
  rank-All :
      (ms : List (ModelState N)) (p : Projection N) (stop : Bool) (min_idle : Option N)
      (relocating : Bool)
      → All P ms
      → All (λ (c : Candidate N). P c.model) (rank p ms stop min_idle relocating).1
  unfolding rank
  rank-All [] p stop min_idle relocating h = tt
  rank-All (m ∷ ms) p stop min_idle relocating h =
      elim (Option-cases (protection p m stop min_idle relocating)) [
        | inr (reason, e) ↦
            rw (e, rank) (rank-All ms (block p m reason) stop min_idle relocating h.1)
        | inl e ↦ elim (Result-cases (score p m)) [
          | inl (value, f) ↦ rw (e, rank, f) (h.0, rank-All ms p stop min_idle relocating h.1)
          | inr (reason, f) ↦
              rw (e, rank, f) (rank-All ms (block p m reason) stop min_idle relocating h.1)
        ]
      ]

  -- Candidates come from the list that is given.
  pub candidates-All :
      (ms : List (ModelState N)) (p : Projection N) (stop : Bool) (min_idle : Option N)
      (relocating : Bool)
      → All P ms
      → All P (candidates p ms stop min_idle relocating).1
  unfolding candidates
  candidates-All ms p stop min_idle relocating h =
      All-of_map _ _ _
        (All-sorted (λ c. P c.model) key_lt _ (rank-All ms p stop min_idle relocating h))

  pub eligible-All :
      (acc : Accounting N) (ms : List (ModelState N)) (p : Projection N)
      → All P ms
      → All P (eligible acc p ms).1
  unfolding eligible
  eligible-All acc [] p h = tt
  eligible-All acc (m ∷ ms) p h = elim (Option-cases (ineligible acc p m)) [
    | inr (reason, e) ↦ rw (e, eligible) (eligible-All acc ms (block p m reason) h.1)
    | inl e ↦ rw (e, eligible) (h.0, eligible-All acc ms p h.1)
  ]
