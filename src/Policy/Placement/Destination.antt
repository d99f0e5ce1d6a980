-- ===== src/Policy/Placement/Destination.antt =====
-- llmsvc/policy/placement.py: a card that the loop of `_plan_placement` admits is a destination that
-- nothing known speaks against.
use llm_service_manager.Prelude.{
  ℕ, ◌≡◌, refl, true, false, not, ◌&&◌, ◌||◌, none, some, List, [], ◌∷◌, Memᴰ, arith,
}
use llm_service_manager.Prelude.Lists.{any, select, All, All-of_mem, any-false}
use llm_service_manager.Prelude.Sort.{All-sorted}
use llm_service_manager.Prelude.Float.{Float, known, amount}
use llm_service_manager.State.{GpuState, Reserve, Blocker}
use llm_service_manager.Policy.Settings.{in_pool, is_gpu}
use llm_service_manager.Policy.Feasibility.{gpu_reason}
use llm_service_manager.Policy.Projection.{sampled, known_number}
use llm_service_manager.Policy.Placement.Accounting.{budget_of}
use llm_service_manager.Policy.Placement.Cards.{
  Query, Card, Verdict, refuse, skip, admit, verdict, capacity_verdict, collect, survey_from,
  survey, room, active_reserves,
}

module _ {N : Type 0} ⦃F : Float N⦄ (q : Query N) where
  pub record IsDestination (c : Card N) : Type 0 where
    pub card : GpuState N
    pub there : Memᴰ card q.snapshot.gpus
    pub same_index : card.index ≡ c.index
    pub not_excluded : gpu_reason card.index q.gpu_exclusions ≡ none
    pub in_the_pool :
        (pool : List ℕ) → q.settings.placement_gpus ≡ some pool → in_pool card.index pool ≡ true
    pub accounted : All (λ (b : Blocker N). is_gpu b.gpu card.index ≡ false) q.accounts.blockers
    pub unreserved :
        All
          (λ (r : Reserve N).
            r.gpu ≡ card.index
            → (known r.until ≡ true) × (F.lt (sampled q.snapshot) r.until ≡ false))
          q.snapshot.reserves
    pub external_low :
        is_gpu q.settings.exclusive_gpu card.index ≡ false
        → F.le q.settings.shared_external_threshold_gb (amount card.external_gb) ≡ false
    pub total_known : known_number card.total_gb ≡ true
    pub external_known : known_number card.external_gb ≡ true
    pub budget_asked :
        budget_of q.request.budget_gb q.request.util (amount card.total_gb) ≡ some c.budget
    pub budget_fits : F.lt (amount card.total_gb) c.budget ≡ false
    pub room_left : c.available ≡ room q card

  -- What the last tests say of the card that they admit
  record Checked (g : GpuState N) (c : Card N) : Type 0 where
    same_index : g.index ≡ c.index
    unreserved : active_reserves q.snapshot (some g.index) ≡ []
    external_low :
        is_gpu q.settings.exclusive_gpu g.index ≡ false
        → F.le q.settings.shared_external_threshold_gb (amount g.external_gb) ≡ false
    total_known : known_number g.total_gb ≡ true
    external_known : known_number g.external_gb ≡ true
    budget_asked : budget_of q.request.budget_gb q.request.util (amount g.total_gb) ≡ some c.budget
    budget_fits : F.lt (amount g.total_gb) c.budget ≡ false
    room_left : c.available ≡ room q g

  checked : (g : GpuState N) (c : Card N) → capacity_verdict q g ≡ admit c → Checked g c
  unfolding capacity_verdict
  checked g c h = ground arith

  record Passed (g : GpuState N) (c : Card N) : Type 0 where
    not_excluded : gpu_reason g.index q.gpu_exclusions ≡ none
    in_the_pool :
        (pool : List ℕ) → q.settings.placement_gpus ≡ some pool → in_pool g.index pool ≡ true
    accounted : any (λ (b : Blocker N). is_gpu b.gpu g.index) q.accounts.blockers ≡ false
    capacity : capacity_verdict q g ≡ admit c

  passed : (g : GpuState N) (c : Card N) → verdict q g ≡ admit c → Passed g c
  unfolding verdict
  passed g c h = record {
    not_excluded = ground arith;
    in_the_pool = λ pool e. ground arith;
    accounted = ground arith;
    capacity = ground arith;
  }

  no_reserve :
      (index : ℕ) (rs : List (Reserve N))
      → select
          (λ (r : Reserve N).
            is_gpu (some index) r.gpu && (not (known r.until) || F.lt (sampled q.snapshot) r.until))
          rs
        ≡ []
      → All
          (λ (r : Reserve N).
            r.gpu ≡ index → (known r.until ≡ true) × (F.lt (sampled q.snapshot) r.until ≡ false))
          rs
  no_reserve index [] h = tt
  no_reserve index (r ∷ rs) h = (λ e. ground arith, no_reserve index rs (ground arith))

  admitted :
      (g : GpuState N) (c : Card N)
      → Memᴰ g q.snapshot.gpus
      → verdict q g ≡ admit c
      → IsDestination c
  admitted g c there h =
      let p = passed g c h in
      let k = checked g c p.capacity in
      record {
        card = g;
        there = there;
        same_index = k.same_index;
        not_excluded = p.not_excluded;
        in_the_pool = p.in_the_pool;
        accounted = any-false _ q.accounts.blockers p.accounted;
        unreserved = no_reserve g.index q.snapshot.reserves k.unreserved;
        external_low = k.external_low;
        total_known = k.total_known;
        external_known = k.external_known;
        budget_asked = k.budget_asked;
        budget_fits = k.budget_fits;
        room_left = k.room_left;
      }

  collect-IsDestination :
      (g : GpuState N) (v : Verdict N) (found : List (Blocker N) × List (Card N))
      → Memᴰ g q.snapshot.gpus
      → verdict q g ≡ v
      → All IsDestination found.1
      → All IsDestination (collect v found).1
  collect-IsDestination g (refuse b) found there e rest = rest
  collect-IsDestination g skip found there e rest = rest
  collect-IsDestination g (admit c) found there e rest = (admitted g c there e, rest)

  survey_from-IsDestination :
      (gs : List (GpuState N))
      → All (λ (g : GpuState N). Memᴰ g q.snapshot.gpus) gs
      → All IsDestination (survey_from q gs).1
  unfolding survey_from
  survey_from-IsDestination [] there = tt
  survey_from-IsDestination (g ∷ gs) there =
      collect-IsDestination g (verdict q g) (survey_from q gs) there.0 refl
        (survey_from-IsDestination gs there.1)

  -- Each card that the survey admits is a destination.
  pub survey-IsDestination : All IsDestination (survey q).1
  unfolding survey
  survey-IsDestination = survey_from-IsDestination _ (
      All-sorted (λ (g : GpuState N). Memᴰ g q.snapshot.gpus) _ q.snapshot.gpus
        (All-of_mem _ q.snapshot.gpus (λ g there. there)))
