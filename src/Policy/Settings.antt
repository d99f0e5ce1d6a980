-- ===== src/Policy/Settings.antt =====
-- llmsvc/policy/common.py: the settings of a policy and the check that their constructor makes.
use llm_service_manager.Prelude.{
  ℕ, String, Bool, true, false, not, ◌&&◌, Option, none, some, List, [], ◌∷◌,
}
use llm_service_manager.Prelude.Tests.{◌==◌}
use llm_service_manager.Prelude.Lists.{any}
use llm_service_manager.Prelude.Text.{contains}
use llm_service_manager.Prelude.Float.{Float, known}
use llm_service_manager.Prelude.Result.{Result, ok, err, guard, ◌>>◌}

pub record PolicySettings (N : Type 0) : Type 0 where
  pub exclusive_gpu : Option ℕ
  pub fixed_ttl_seconds : N
  pub exclusive_ttl_seconds : N
  pub shared_ttl_seconds : N
  pub shared_external_threshold_gb : N
  pub shared_free_threshold_gb : N
  pub sleeping_residual_gb : N
  pub placement_gpus : Option (List ℕ)
  pub placement_fit : String
  pub default_cold_start_seconds : N
  pub never_used_idle_seconds : N
  pub wake_migration_enabled : Bool

abbrev pub placement_fits : List String
placement_fits = "first_fit" ∷ "best_fit" ∷ []

-- `len(set(pool)) == len(pool)`
unfoldable pub distinct : List ℕ → Bool
distinct [] = true
distinct (x ∷ xs) = not (any (λ y. x == y) xs) && distinct xs

-- `index in pool`
abbrev pub in_pool : ℕ → List ℕ → Bool
in_pool index pool = any (λ g. index == g) pool

-- `index == exclusive_gpu`
abbrev pub is_gpu : Option ℕ → ℕ → Bool
is_gpu none index = false
is_gpu (some g) index = index == g

pool_check : Option (List ℕ) → Option ℕ → Result (Unit {0})
unfolding distinct
pool_check none exclusive = ok tt
pool_check (some []) exclusive =
    err "placement_gpus must be a nonempty tuple of unique non-negative integers"
pool_check (some (g ∷ gs)) none =
    guard (distinct (g ∷ gs))
      "placement_gpus must be a nonempty tuple of unique non-negative integers"
pool_check (some (g ∷ gs)) (some e) = do
  guard (distinct (g ∷ gs))
      "placement_gpus must be a nonempty tuple of unique non-negative integers"
  guard (in_pool e (g ∷ gs)) "placement_gpus must include exclusive_gpu"

module _ {N : Type 0} ⦃F : Float N⦄ where
  -- `__post_init__`: what the record's types leave to check. The order is that of the source.
  unfoldable pub post_init : PolicySettings N → Result (PolicySettings N)
  unfolding pool_check
  post_init s = do
    guard (known s.fixed_ttl_seconds) "fixed_ttl_seconds must be finite and non-negative"
    guard (known s.exclusive_ttl_seconds) "exclusive_ttl_seconds must be finite and non-negative"
    guard (known s.shared_ttl_seconds) "shared_ttl_seconds must be finite and non-negative"
    guard (known s.shared_external_threshold_gb)
        "shared_external_threshold_gb must be finite and non-negative"
    guard (known s.shared_free_threshold_gb)
        "shared_free_threshold_gb must be finite and non-negative"
    guard (known s.sleeping_residual_gb) "sleeping_residual_gb must be finite and non-negative"
    guard
        (known s.default_cold_start_seconds
          && F.lt (F.of_nat 0) s.default_cold_start_seconds
          && F.le s.default_cold_start_seconds (F.of_nat 3600))
        "default_cold_start_seconds must be a finite number in (0, 3600]"
    guard (known s.never_used_idle_seconds)
        "never_used_idle_seconds must be finite and non-negative"
    pool_check s.placement_gpus s.exclusive_gpu
    guard (contains s.placement_fit placement_fits) "placement_fit must be first_fit or best_fit"
    ok s
