-- ===== src/Policy/Ranking.antt =====
-- llmsvc/policy/ranking.py: the one retention score.
use llm_service_manager.Prelude.{ℕ, ◌+◌, Bool, true, false}
use llm_service_manager.Prelude.Int.{ℤ, pos, negsuc}
use llm_service_manager.Prelude.Float.{Float, known}
use llm_service_manager.Prelude.Result.{Result, ok, guard, ◌>>◌}

-- An integer of Python that is not negative.
abbrev pub non_negative : ℤ → Bool
non_negative (pos n) = true
non_negative (negsuc n) = false

abbrev pub to_ℕ : ℤ → ℕ
to_ℕ (pos n) = n
to_ℕ (negsuc n) = 0

module _ {N : Type 0} ⦃F : Float N⦄ where
  -- The count has the type of an integer, so the last test on types has no branch here.
  unfoldable pub keep_value : ℤ → N → N → Result N
  keep_value requests_last_hour cold_start_seconds idle_seconds = do
    guard (non_negative requests_last_hour)
        "requests_last_hour must be a finite non-negative number"
    guard (known cold_start_seconds) "cold_start_seconds must be a finite non-negative number"
    guard (known idle_seconds) "idle_seconds must be a finite non-negative number"
    let score =
        F.over (F.times (F.of_nat (1 + to_ℕ requests_last_hour)) cold_start_seconds)
          (F.plus (F.of_nat 1) (F.over idle_seconds (F.of_nat 60)))
    guard (F.is_finite score) "keep_value must be finite"
    ok score
