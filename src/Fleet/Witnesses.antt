-- ===== src/Fleet/Witnesses.antt =====
-- A log of two events, into which three are emitted.
use llm_service_manager.Prelude.{ℕ, ◌≡◌, refl, arith, false, Option, none, some, List, [], ◌∷◌}
use llm_service_manager.Prelude.Tests.{ltb}
use llm_service_manager.Prelude.Lists.{select}
use llm_service_manager.Fleet.Events.{
  Event, FleetEvents, keep_last, create, next_event, push, emit, reset_reason, events_since,
}
use llm_service_manager.Fleet.Events.Replay.{IsNumbered}
use llm_service_manager.Fleet.Events.History.{Run, events_since-IsNumbered}

abbrev small : Event ℕ ℕ → Option ℕ
small e = some 200

abbrev event : ℕ → Event ℕ ℕ
event n = record {
  id = n;
  timestamp = 50;
  kind = "fleet_status_changed";
  model = none;
  detail = 0;
  observer_incarnation = "f0";
}

abbrev log : List (Event ℕ ℕ) → ℕ → FleetEvents ℕ ℕ
log events next = record {
  incarnation = "f0";
  capacity = 2;
  events = events;
  next_id = next;
  closed = false;
}

abbrev log_3 : FleetEvents ℕ ℕ
log_3 = log (event 2 ∷ event 3 ∷ []) 4

abbrev all_events : List (Event ℕ ℕ)
all_events = event 1 ∷ event 2 ∷ event 3 ∷ []

run : Run small log_3 all_events
unfolding create emit next_event push keep_last
run =
    Run.emitted (log (event 1 ∷ event 2 ∷ []) 3) (event 1 ∷ event 2 ∷ []) 50 "fleet_status_changed"
      none 0 _ _
      (Run.emitted (log (event 1 ∷ []) 2) (event 1 ∷ []) 50 "fleet_status_changed" none 0 _ _
        (Run.emitted (log [] 1) [] 50 "fleet_status_changed" none 0 _ _ (Run.created "f0" 2 _ refl)
          refl)
        refl)
      refl

expired : reset_reason (log (event 5 ∷ event 6 ∷ []) 7) 3 (some "f0") ≡ some "cursor_expired"
unfolding reset_reason
expired = refl

events_since-IsNumbered_example :
    (events_since log_3 1 ≡ select (λ (e : Event ℕ ℕ). ltb 1 e.id) all_events)
    × IsNumbered 2 (events_since log_3 1)
unfolding reset_reason
events_since-IsNumbered_example =
    events_since-IsNumbered small log_3 all_events 1 run (omega arith) refl
