-- ===== src/Policy/Safety/Steps.antt =====
-- llmsvc/policy/common.py: every method of `Projection` keeps it sound.
use llm_service_manager.Prelude.{
  String, ◌≡◌, Bool, true, false, inl, inr, Option, none, List, [], ◌∷◌, arith,
}
use llm_service_manager.Prelude.Tests.{Option-cases}
use llm_service_manager.Prelude.Lists.{All, All-of_map}
use llm_service_manager.Prelude.Sort.{All-sorted}
use llm_service_manager.Prelude.Text.{Dict}
use llm_service_manager.Prelude.Float.{Float}
use llm_service_manager.State.{StateSnapshot, ModelState}
use llm_service_manager.Prelude.Result.{Result-cases}
use llm_service_manager.Policy.Projection.{
  Projection, Candidate, block, protection, score, rank, candidates, key_lt,
}
use llm_service_manager.Policy.Safety.{IsIdle, Origin, IsSound, passed, idle_of}

module _ {N : Type 0} ⦃F : Float N⦄ (s : StateSnapshot N) (exclusions : Dict String) where
  -- What `candidates` says of a model that it lets through.
  pub record IsCandidate (stop relocating : Bool) (m : ModelState N) : Type 0 where
    pub idle : IsIdle s exclusions m.name
    pub origin : Origin s m
    pub spared : stop ≡ true → relocating ≡ false → m.is_default ≡ false

module _ {N : Type 0} ⦃F : Float N⦄ (s : StateSnapshot N) (exclusions : Dict String)
    (moving : Bool) where
  abbrev Sound : Projection N → Type 0
  Sound p = IsSound s exclusions moving p

  pub block-IsSound :
      (p : Projection N) (m : ModelState N) (reason : String) → Sound p → Sound (block p m reason)
  unfolding block
  block-IsSound p m reason v = record {
    same_snapshot = v.same_snapshot;
    same_exclusions = v.same_exclusions;
    rows = v.rows;
    origins = v.origins;
    safe = v.safe;
  }

  pub IsCandidate-of :
      (p : Projection N) (m : ModelState N) (stop : Bool) (min_idle : Option N) (relocating : Bool)
      → Sound p
      → Origin s m
      → protection p m stop min_idle relocating ≡ none
      → IsCandidate s exclusions stop relocating m
  IsCandidate-of p m stop min_idle relocating v o h =
      let free = passed p m stop min_idle relocating h in
      let spared = free.spared in
      record {
        idle = idle_of s exclusions moving p m v stop relocating free;
        origin = o;
        spared = λ e f. ground arith;
      }

  module _ (stop : Bool) (min_idle : Option N) (relocating : Bool) where
    abbrev Outcome : Projection N × List (Candidate N) → Type 0
    Outcome r =
        Sound r.0 × All (λ (c : Candidate N). IsCandidate s exclusions stop relocating c.model) r.1

    scored :
        (p : Projection N) (m : ModelState N) (ms : List (ModelState N))
        → Sound p
        → IsCandidate s exclusions stop relocating m
        → ((q : Projection N) → Sound q → Outcome (rank q ms stop min_idle relocating))
        → protection p m stop min_idle relocating ≡ none
        → Outcome (rank p (m ∷ ms) stop min_idle relocating)
    unfolding rank
    scored p m ms v c ih e = elim (Result-cases (score p m)) [
      | inl (value, f) ↦ rw (e, rank, f) ((ih p v).0, (c, (ih p v).1))
      | inr (reason, f) ↦ rw (e, rank, f) (ih (block p m reason) (block-IsSound p m reason v))
    ]

    rank-Sound :
        (ms : List (ModelState N))
        → All (Origin s) ms
        → (p : Projection N) → Sound p
        → Outcome (rank p ms stop min_idle relocating)
    unfolding rank
    rank-Sound [] o p v = (v, tt)
    rank-Sound (m ∷ ms) o p v = elim (Option-cases (protection p m stop min_idle relocating)) [
      | inr (reason, e) ↦
          rw (e, rank) (rank-Sound ms o.1 (block p m reason) (block-IsSound p m reason v))
      | inl e ↦
          scored p m ms v (IsCandidate-of p m stop min_idle relocating v o.0 e) (rank-Sound ms o.1)
            e
    ]

    -- Whoever `candidates` lets through may be acted on, and the projection stays sound.
    pub candidates-IsSound :
        (p : Projection N) (ms : List (ModelState N))
        → Sound p
        → All (Origin s) ms
        → Sound (candidates p ms stop min_idle relocating).0
          × All
              (IsCandidate s exclusions stop relocating)
              (candidates p ms stop min_idle relocating).1
    unfolding candidates
    candidates-IsSound p ms v o =
        let (v', ok_all) = rank-Sound ms o p v in
        (
          v',
          All-of_map _ _ _
              (All-sorted (λ c. IsCandidate s exclusions stop relocating c.model) key_lt _ ok_all),
        )
