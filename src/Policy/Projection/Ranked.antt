-- ===== src/Policy/Projection/Ranked.antt =====
-- llmsvc/policy/common.py: `score` and `candidates`.
use llm_service_manager.Prelude.{
  zero, String, Bool, true, false, not, ◌&&◌, ◌||◌, Option, none, some, List, [], ◌∷◌, map,
}
use llm_service_manager.Prelude.Int.{ℤ, pos}
use llm_service_manager.Prelude.Tests.{if◌then◌else◌}
use llm_service_manager.Prelude.Text.{lookup, str_lt}
use llm_service_manager.Prelude.Sort.{sorted}
use llm_service_manager.Prelude.Float.{Float, known, amount}
use llm_service_manager.State.{ModelState, Activity}
use llm_service_manager.Policy.Ranking.{keep_value}
use llm_service_manager.Prelude.Result.{Result, ok, err, ◌>>=◌}
use llm_service_manager.Policy.Settings.{PolicySettings}
use llm_service_manager.Policy.Projection.Defs.{Projection, sampled}
use llm_service_manager.Policy.Projection.Checks.{known_number, block, protection}

-- `type(count) is int and count == 0`
abbrev is_zero : Option ℤ → Bool
is_zero (some (pos zero)) = true
is_zero _ = false

-- A `ValueError` of the score, under the name that the caller reports.
abbrev relabel {ℓ} : {A : Type ℓ} → String → Result A → Result A
relabel e (ok a) = ok a
relabel e (err _) = err e

-- A candidate with its score
pub record Candidate (N : Type 0) : Type 0 where
  pub model : ModelState N
  pub value : N

abbrev key_lt_at : Bool → Bool → Bool → Bool
key_lt_at false true rest = true
key_lt_at true false rest = false
key_lt_at _ _ rest = rest

module _ {N : Type 0} ⦃F : Float N⦄ where
  abbrev counted : Option ℤ → N → Result (ℤ × N)
  counted (some (pos n)) idle = ok (pos n, idle)
  counted _ idle = err "unknown_activity"

  -- The requests of the last hour and the idle time. A model with no request on record is idle for
  -- the configured time, if both counts are known to be zero.
  history : N → PolicySettings N → Activity N → Result (ℤ × N)
  history now settings row = elim row.last_request_at [
    | none ↦
        if is_zero row.requests_last_hour && is_zero row.requests_last_10m
        then ok (pos 0, settings.never_used_idle_seconds)
        else err "unknown_activity"
    | some last ↦
        if not (known last) || F.lt now last
        then err "unknown_activity"
        else counted row.requests_last_hour (F.minus now last)
  ]

  abbrev cold_start : PolicySettings N → ModelState N → N
  cold_start settings model =
      if known_number model.cold_start_seconds
      then amount model.cold_start_seconds
      else settings.default_cold_start_seconds

  unfoldable pub score : Projection N → ModelState N → Result N
  unfolding lookup history keep_value
  score p model = elim (lookup model.name p.activity) [
    | none ↦ err "unknown_activity"
    | some row ↦ do
      (count, idle) ← history (sampled p.snapshot) p.settings row
      relabel "unknown_keep_value" (keep_value count (cold_start p.settings model) idle)
  ]

  -- The order of the keys `(is_default, score, name)`: the first fields that differ decide.
  abbrev value_lt : N → N → String → String → Bool
  value_lt s t n m = if F.eq s t then str_lt n m else F.lt s t

  unfoldable pub key_lt : Candidate N → Candidate N → Bool
  key_lt a b =
      key_lt_at a.model.is_default b.model.is_default
        (value_lt a.value b.value a.model.name b.model.name)

  -- The loop of `candidates`: a model that is protected or has no score is reported and left out.
  unfoldable pub rank :
      Projection N
      → List (ModelState N)
      → (stop : Bool) → (min_idle : Option N) → (relocating : Bool)
      → Projection N × List (Candidate N)
  rank p [] stop min_idle relocating = (p, [])
  rank p (m ∷ ms) stop min_idle relocating = elim (protection p m stop min_idle relocating) [
    | some reason ↦ rank (block p m reason) ms stop min_idle relocating
    | none ↦ elim (score p m) [
      | err reason ↦ rank (block p m reason) ms stop min_idle relocating
      | ok value ↦
          let (p', ranked) = rank p ms stop min_idle relocating in
          (p', record { model = m; value = value } ∷ ranked)
    ]
  ]

  -- `candidates`: the lowest key first.
  unfoldable pub candidates :
      Projection N
      → List (ModelState N)
      → (stop : Bool) → (min_idle : Option N) → (relocating : Bool)
      → Projection N × List (ModelState N)
  candidates p models stop min_idle relocating =
      let (p', ranked) = rank p models stop min_idle relocating in
      (p', map (λ r. r.model) (sorted key_lt ranked))
