-- ===== src/Leases/PlaceWitnesses.antt =====
-- Runs of `place` over whole numbers, on the host of Policy/Samples.
use llm_service_manager.Prelude.{
  ℕ, ◌+◌, ◌-◌, ◌≡◌, refl, inr, true, false, none, some, List, [], ◌∷◌,
}
use mathlib.Core.List.{Memᴰ}
use llm_service_manager.Prelude.Float.{whole}
use llm_service_manager.Prelude.Lists.{All}
use llm_service_manager.Policy.Samples as Host
use llm_service_manager.State.{Kind, Action, ModelState, ModelStatus, Lease, StateSnapshot}
use llm_service_manager.Store.Rows.{IntentStore}
use llm_service_manager.Store.Samples.{lease, row, store}
use llm_service_manager.Store.Samples as Rows
use llm_service_manager.Leases.Probe.{UnitObservation, unobserved}
use llm_service_manager.Leases.Observed.{is_fresh}
use llm_service_manager.Leases.Finish.{disabled}
use llm_service_manager.Leases.Admission.{
  Admission, recovery_context, guard_reason, guard_each, pending_weights, headroom, admit_with,
  decision,
}
use llm_service_manager.Leases.Victim.{Look, observe_victim}
use llm_service_manager.Leases.Window.{advance, gives_up, turn}
use llm_service_manager.Leases.Place.{
  Dispatched, Refusal, Pass, Next, Placed, pass_once, place_each, place,
}
use llm_service_manager.Leases.Granted.{
  Stopped, Cleared, IsWarranted, place-IsWarranted, place-IsStopped,
}
use llm_service_manager.Leases.Declines.{IsDeclined, place-IsDeclined}
use llm_service_manager.Leases.Witnesses.{admission, stopped_a}

abbrev absent : UnitObservation
absent = record unobserved { exists = some false }

-- A look at a later sample, in which the account of the model is gone
abbrev gone : (sampled_at : ℕ) → Look ℕ
gone sampled_at = record {
  in_time = true;
  locked = true;
  context = admission.context;
  snapshot = record (Host.host [] []) { sampled_at = some sampled_at };
  has_effect = true;
}

abbrev pass : Pass ℕ
pass = record {
  before_deadline = true;
  reconciled = inr (store [] []);
  locked = true;
  admission = admission;
  snapshot = Host.host (stopped_a ∷ []) [];
  now = 100;
  is_over = false;
  sample = none;
  gave_up_late = false;
  inspect = λ model. inr absent;
  admission_again = admission;
  snapshot_again = Host.host (stopped_a ∷ []) [];
  in_time = true;
  lease_id = "l1";
  expires_at = 6000;
  unit = "vllm-a.service";
  dispatched = Dispatched.done;
  looks = gone 5001 ∷ gone 5002 ∷ [];
  ended_late = false;
}

abbrev granted_one : Placed ℕ
granted_one = place ⦃F = whole⦄ stopped_a 1 60 admission (store [] []) (pass ∷ [])

unfoldable program : Unit {0}
unfolding observe_victim place place_each pass_once recovery_context guard_reason guard_each
    pending_weights headroom admit_with decision is_fresh disabled turn advance gives_up
    Host.program Rows.program
program = tt

-- One card, on which a model runs under its lease, and another one that asks for the card
abbrev a_awake : ModelState ℕ
a_awake = record (Host.model "a" ModelStatus.awake (some 0) (some 40)) {
  unit = some "vllm-a.service";
}

abbrev full : StateSnapshot ℕ
full = record (Host.host (a_awake ∷ []) []) {
  gpus = Host.card 0 10 ∷ [];
  leases = lease "confirmed" ∷ [];
}

abbrev evicting : Admission ℕ
evicting = record admission {
  actions = record {
    enabled = true;
    units = λ name. some "vllm-a.service";
    fault_pending = λ name. false;
    pending = [];
    free_active = false;
  };
}

abbrev running : UnitObservation
running = record unobserved { exists = some true; active = true; lease_id = "l1" }

abbrev stop_pass : Pass ℕ
stop_pass = record pass {
  admission = evicting;
  admission_again = evicting;
  snapshot = full;
  snapshot_again = full;
  inspect = λ model. inr running;
}

abbrev requested : ModelState ℕ
requested = record (Host.model "e" ModelStatus.stopped none none) { budget_gb = some 60 }

abbrev stopped_one : Placed ℕ
stopped_one = place ⦃F = whole⦄ requested 1 60 evicting (store [] []) (stop_pass ∷ [])

abbrev eviction : Action
eviction = record { kind = Kind.stop; model = "a"; reason = "placement_eviction"; gpu = some 0 }

-- The victim is stopped once, and the deadline is over before the next pass.
one_stop : stopped_one ≡ record {
  stops = eviction ∷ [];
  ending = Next.refuses (record { status = 409; error = "placement_timeout"; blockers = [] });
}
unfolding program
one_stop = refl

place-IsStopped_example : All (Stopped ⦃F = whole⦄ requested (stop_pass ∷ [])) (eviction ∷ [])
unfolding program
place-IsStopped_example =
    place-IsStopped ⦃F = whole⦄ requested 1 60 evicting (store [] []) (stop_pass ∷ [])

-- In the next pass the card is free.
abbrev free_pass : Pass ℕ
free_pass = record pass {
  admission = evicting;
  admission_again = evicting;
  snapshot = record (Host.host [] []) { gpus = Host.card 0 80 ∷ [] };
  snapshot_again = record (Host.host [] []) { gpus = Host.card 0 80 ∷ [] };
}

abbrev two_passes : List (Pass ℕ)
two_passes = stop_pass ∷ free_pass ∷ []

abbrev granted_lease : Lease ℕ
granted_lease = record (lease "pending") { model = "e"; expires_at = 6000; budget_gb = 60 }

abbrev after : IntentStore ℕ
after = store (record { lease = granted_lease; unit = "vllm-a.service" } ∷ []) []

-- The lease is granted after one stop whose effect was seen.
place-IsWarranted_example :
    ((v : Pass ℕ) × Memᴰ v two_passes × IsWarranted ⦃F = whole⦄ requested 1 v granted_lease after)
    × All (Cleared ⦃F = whole⦄ two_passes) (eviction ∷ [])
unfolding program
place-IsWarranted_example =
    place-IsWarranted ⦃F = whole⦄ requested 1 60 evicting (store [] []) two_passes granted_lease
      after refl

-- A model that is larger than the card, in two samples of which the second is newer by the time of grace
abbrev too_large : ModelState ℕ
too_large = record requested { budget_gb = some 1000 }

abbrev hopeless_pass : (time generation : ℕ) → Pass ℕ
hopeless_pass time generation = record free_pass {
  now = time;
  sample = some (record {
    generation = generation;
    sampled_at = 4000 + time;
    started = time - 3;
    finished = time - 1;
  });
}

abbrev hopeless_passes : List (Pass ℕ)
hopeless_passes = hopeless_pass 110 1 ∷ hopeless_pass 180 2 ∷ []

abbrev declined_of : Next ℕ → Refusal ℕ
declined_of (Next.declines r) = r
declined_of _ = record { status = 0; error = ""; blockers = [] }

place-IsDeclined_example : IsDeclined ⦃F = whole⦄ too_large 60 [] hopeless_passes
unfolding program
place-IsDeclined_example =
    place-IsDeclined ⦃F = whole⦄ too_large 1 60 evicting (store [] []) hopeless_passes
      (declined_of (place ⦃F = whole⦄ too_large 1 60 evicting (store [] []) hopeless_passes).ending)
      refl
