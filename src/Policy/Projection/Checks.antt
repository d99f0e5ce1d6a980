-- ===== src/Policy/Projection/Checks.antt =====
-- llmsvc/policy/common.py: `snapshot_blockers`, the constructor of `Projection`, `block` and
-- `protection`.
use Prim.Native.String
use llm_service_manager.Prelude.{
  arith, ◌≡◌, ◌≢◌, inl, inr, zero, suc, String, Bool, false, not, ◌&&◌, ◌||◌, Option, none, some,
  List, [], ◌∷◌, ◌++◌, map, str_eq,
}
use llm_service_manager.Prelude.Int.{ℤ, pos, negsuc}
use llm_service_manager.Prelude.Tests.{
  or_default, or_else, when, Option-cases, if_ind, if◌then◌else◌,
}
use llm_service_manager.Prelude.Lists.{any, all, select, is_empty}
use llm_service_manager.Prelude.Text.{Dict, lookup, no_repeats, is_blank, by_key, join, or_none}
use llm_service_manager.Prelude.Float.{Float, max_of, sum, known, amount}
use llm_service_manager.State.{
  StateSnapshot, ModelState, GpuState, is_unknown, Activity, Blocker, Pin, is_asleep, is_resident,
  blocker, no_activity,
}
use llm_service_manager.Prelude.Result.{Result, ok, guard, ◌>>◌}
use llm_service_manager.Policy.Settings.{PolicySettings, distinct}
use llm_service_manager.Policy.Projection.Defs.{Projection, sampled, blocker_eq}

-- The exclusions need names and reasons that are not blank.
abbrev well_named : Dict String → Bool
well_named d = all (λ (name, reason). not (is_blank name) && not (is_blank reason)) d

abbrev pub in_flight_reason : Option ℤ → Option String
in_flight_reason none = some "unknown_in_flight"
in_flight_reason (some (negsuc n)) = some "unknown_in_flight"
in_flight_reason (some (pos zero)) = none
in_flight_reason (some (pos (suc n))) = some "in_flight"

module _ {N : Type 0} ⦃F : Float N⦄ where
  -- `known_number` of a field that may be None
  abbrev pub known_number : Option N → Bool
  known_number none = false
  known_number (some x) = known x

  unfoldable pub snapshot_blockers : StateSnapshot N → List (Blocker N)
  unfolding join no_repeats distinct
  snapshot_blockers s =
      if not (known_number s.sampled_at)
      then blocker none "unknown_sample_time" none ∷ []
      else if not (is_empty s.errors)
      then blocker none (String.◌++◌ "unknown_snapshot: " (join "; " s.errors)) none ∷ []
      else if not (no_repeats (map (λ (m : ModelState N). m.name) s.models))
      then blocker none "duplicate_model_accounting" none ∷ []
      else if not (no_repeats (map (λ (a : Activity N). a.model) s.activity))
      then blocker none "duplicate_activity" none ∷ []
      else if not (distinct (map (λ (g : GpuState N). g.index) s.gpus))
      then blocker none "duplicate_gpu" none ∷ []
      else []

  -- What the constructor makes of the sleeping weights: None where a sleeper's is not known.
  sleeping_total : Option N → List (ModelState N) → Option N
  unfolding sum
  sleeping_total reported sleepers =
      let weights = map (λ (m : ModelState N). amount m.weights_gb) sleepers in
      if known_number reported && all (λ (m : ModelState N). known_number m.weights_gb) sleepers
      then some (max_of (amount reported) (sum weights))
      else elim sleepers [ [] ↦ reported | _ ∷ _ ↦ none ]

  -- The fields that the constructor sets
  unfoldable pub fresh : StateSnapshot N → PolicySettings N → Dict String → Projection N
  unfolding sleeping_total
  fresh snapshot settings exclusions = record {
    exclusions = exclusions;
    snapshot = snapshot;
    settings = settings;
    models = by_key (λ (m : ModelState N). m.name) snapshot.models;
    activity = by_key (λ (a : Activity N). a.model) snapshot.activity;
    actions = [];
    blockers = snapshot_blockers snapshot;
    available = snapshot.memory.host_available_gb;
    sleeping =
        sleeping_total snapshot.memory.sleeping_weights_gb
          (select (λ (m : ModelState N). is_asleep m.state) snapshot.models);
  }

  -- `Projection(snapshot, settings, exclusions=exclusions)`
  unfoldable pub init : StateSnapshot N → PolicySettings N → Dict String → Result (Projection N)
  init snapshot settings exclusions = do
    guard (well_named exclusions) "exclusions require nonempty model names and reasons"
    ok (fresh snapshot settings exclusions)

  pub init-eq :
      (s : StateSnapshot N) (settings : PolicySettings N) (exclusions : Dict String)
      (p : Projection N)
      → init s settings exclusions ≡ ok p
      → fresh s settings exclusions ≡ p
  unfolding init
  init-eq s settings exclusions p h = ground arith

  add_blocker : Blocker N → List (Blocker N) → List (Blocker N)
  unfolding blocker_eq
  add_blocker b l = if any (blocker_eq b) l then l else l ++ b ∷ []

  abbrev row_of : Projection N → ModelState N → Activity N
  row_of p model = or_default (no_activity model.name) (lookup model.name p.activity)

  -- The blocker that `block` makes.
  blocked : Projection N → ModelState N → String → Blocker N
  unfolding lookup join
  blocked p model reason =
      let row = row_of p model in
      record {
        model = some model.name;
        reason = reason;
        gpu = model.gpu;
        user = or_none (join ", " row.by);
        in_flight = row.in_flight;
        external_gb = none;
      }

  -- `block`: a pin is a user's wish, and a controller's exclusion is reported beside it.
  unfoldable pub block : Projection N → ModelState N → String → Projection N
  unfolding lookup blocked add_blocker
  block p model reason =
      let found = blocked p model reason in
      let first = add_blocker found p.blockers in
      record p {
        blockers = elim (lookup model.name p.exclusions) [
          | none ↦ first
          | some exclusion ↦
              if str_eq reason "pinned_until"
              then add_blocker (record found { reason = exclusion }) first
              else first
        ];
      }

  add_blocker-reports : (b : Blocker N) (l : List (Blocker N)) → add_blocker b l ≢ []
  unfolding add_blocker
  add_blocker-reports b [] = λ e. cc
  add_blocker-reports b (x ∷ l) =
      if_ind (λ k. k ≢ []) (any (blocker_eq b) (x ∷ l)) (λ _ e. cc) (λ _ e. cc)

  pub block-reports :
      (p : Projection N) (m : ModelState N) (reason : String) → (block p m reason).blockers ≢ []
  unfolding block
  block-reports p m reason =
      let found = blocked p m reason in
      let first = add_blocker found p.blockers in
      elim (Option-cases (lookup m.name p.exclusions)) [
        | inl e ↦ rw (e, block) (add_blocker-reports found p.blockers)
        | inr (exclusion, e) ↦
            rw (e, block)
              (if_ind (λ l. l ≢ []) (str_eq reason "pinned_until")
                (λ _. add_blocker-reports (record found { reason = exclusion }) first)
                (λ _. add_blocker-reports found p.blockers))
      ]

  -- A blocker for each model whose state is unknown
  unfoldable pub block_unknown : Projection N → List (ModelState N) → Projection N
  block_unknown p [] = p
  block_unknown p (m ∷ ms) =
      block_unknown (if is_unknown m.state then block p m "unknown_model_state" else p) ms

  -- A pin whose end is unknown counts as one that has not ended.
  abbrev pub is_pinned : StateSnapshot N → String → Bool
  is_pinned s name =
      any (λ (p : Pin N). str_eq p.model name && (not (known p.until) || F.lt (sampled s) p.until))
        s.pins

  abbrev pub flight_reason : Option (Activity N) → Option String
  flight_reason none = some "unknown_in_flight"
  flight_reason (some row) = in_flight_reason row.in_flight

  -- The last request has to lie more than `limit` seconds back.
  abbrev pub idle_reason : N → N → Option N → Option String
  idle_reason now limit last =
      if not (known_number last) || F.lt now (amount last)
      then some "unknown_activity"
      else when (F.le (F.minus now (amount last)) limit) "recently_active"

  abbrev pub min_idle_reason : N → Option N → Option (Activity N) → Option String
  min_idle_reason now (some limit) (some row) = idle_reason now limit row.last_request_at
  min_idle_reason now _ _ = none

  -- `protection`: the first reason that keeps the model from being put to sleep or stopped.
  unfoldable pub protection :
      Projection N
      → ModelState N
      → (stop : Bool) → (min_idle : Option N) → (relocating : Bool) → Option String
  protection p model stop min_idle relocating =
      let row = lookup model.name p.activity in
      or_else (when (not (is_resident model.state)) "unknown_model_state") (
        or_else (when (is_pinned p.snapshot model.name) "pinned_until") (
          or_else (lookup model.name p.exclusions) (
            or_else (flight_reason row) (
              or_else (when (stop && model.is_default && not relocating) "default_model")
                (min_idle_reason (sampled p.snapshot) min_idle row)))))
