-- ===== src/Policy/WakeFailure/Witnesses.antt =====
-- A model that the data plane calls ready while its backend sleeps, seen so for the third time.
use llm_service_manager.Prelude.{ℕ, refl, true, List, some, [], ◌∷◌, Memᴰ}
use llm_service_manager.Prelude.Text.{Dict}
use llm_service_manager.Prelude.Lists.{All}
use llm_service_manager.Prelude.Float.{whole}
use llm_service_manager.State.{StateSnapshot, ModelState, Kind, action, awake, sleeping}
use llm_service_manager.Policy.WakeFailure.{Window, WakeFailureDecision}
use llm_service_manager.Policy.WakeFailure.Shown.{Reaches, IsProven, plan_wake_failure-IsProven}
use llm_service_manager.Policy.WakeFailure.Reports.{IsReported, plan_wake_failure-IsReported}
use llm_service_manager.Policy.Samples.{program, host, model}

abbrev wedged_b : ModelState ℕ
wedged_b = record (model "b" sleeping (some 0) (some 2)) {
  is_sleeping = some true;
  swap_state = some "ready";
}

abbrev stuck : StateSnapshot ℕ
stuck = host (model "a" awake (some 0) (some 40) ∷ wedged_b ∷ []) []

abbrev seen : Dict (Window ℕ)
seen = ("b", record { first = 4000; last = 4900; rounds = 2 }) ∷ []

abbrev stops_b : WakeFailureDecision ℕ
stops_b = record {
  actions = action Kind.stop "b" "wake_failed" (some 0) ∷ [];
  blocked_by = [];
  windows = ("b", record { first = 4000; last = 5000; rounds = 3 }) ∷ [];
}

-- The same models at an earlier time
abbrev stuck_at : ℕ → StateSnapshot ℕ
stuck_at time = record stuck { sampled_at = some time }

abbrev past : List (StateSnapshot ℕ)
past = stuck_at 4900 ∷ stuck_at 4000 ∷ []

seen_reached : Reaches ⦃F = whole⦄ 600 3 past seen
unfolding program
seen_reached =
    Reaches.round (stuck_at 4900) [] (record stops_b { actions = []; windows = seen })
      (Reaches.round (stuck_at 4000) []
        (record stops_b {
          actions = [];
          windows = ("b", record { first = 4000; last = 4000; rounds = 1 }) ∷ [];
        })
        Reaches.start refl)
      refl

plan_wake_failure-IsProven_example :
    All (IsProven ⦃F = whole⦄ 600 3 stuck past seen []) stops_b.actions
unfolding program
plan_wake_failure-IsProven_example =
    plan_wake_failure-IsProven ⦃F = whole⦄ 600 3 stuck past seen [] stops_b seen_reached refl

plan_wake_failure-IsReported_example : IsReported stops_b "b"
unfolding program
plan_wake_failure-IsReported_example =
    plan_wake_failure-IsReported ⦃F = whole⦄ stuck seen 600 [] 3 stops_b wedged_b refl refl
      (Memᴰ.tail (Memᴰ.head refl)) refl refl
