-- ===== src/Fleet/Events.antt =====
-- llmsvc/fleet/events.py: the bounded log of notifications, which a client resumes at a cursor. Each
-- method holds the lock from its first read to its last write, so it is one step. The clock's value is
-- an argument; the size of the JSON text of an event is a parameter, none where it has no such text.
pub mod Replay
pub mod History
use llm_service_manager.Prelude.{
  ℕ, zero, suc, ◌+◌, ◌-◌, ◌^◌, String, Bool, true, false, not, ◌&&◌, ◌||◌, Option, none, some, List,
  [], ◌∷◌, ◌++◌,
}
use llm_service_manager.Prelude.Tests.{ltb, leb, ◌==◌, or_default, is_none, is_some, if◌then◌else◌}
use llm_service_manager.Prelude.Lists.{length, select, is_empty, drop}
use llm_service_manager.Prelude.Text.{contains, opt_str_eq}
use llm_service_manager.Prelude.Result.{Result, ok, err, guard, ◌>>=◌, ◌>>◌}

abbrev pub max_event_id : ℕ
max_event_id = 9223372036854775807

abbrev pub max_event_bytes : ℕ
max_event_bytes = 16384

-- `T` is the type of the clock's values and `D` that of the details, which are JSON objects.
pub record Event (T D : Type 0) : Type 0 where
  pub id : ℕ
  pub timestamp : T
  pub kind : String
  pub model : Option String
  pub detail : D
  pub observer_incarnation : String

pub record ResetDetail : Type 0 where
  pub reason : String
  pub latest_id : ℕ
  pub oldest_id : Option ℕ

pub record FleetEvents (T D : Type 0) : Type 0 where
  pub incarnation : String
  pub capacity : ℕ
  pub events : List (Event T D)
  pub next_id : ℕ
  pub closed : Bool

-- What a full `deque(maxlen=capacity)` keeps: the last items.
unfoldable pub keep_last {ℓ} : {A : Type ℓ} → ℕ → List A → List A
keep_last capacity xs = drop (length xs - capacity) xs

abbrev pub too_large : Option ℕ → Result (Unit {0})
too_large none = err "Out of range float values are not JSON compliant"
too_large (some bytes) = guard (not (ltb max_event_bytes bytes)) "observer_event_too_large"

abbrev pub is_expired : ℕ → Option ℕ → Bool
is_expired cursor none = false
is_expired cursor (some oldest) = ltb cursor (oldest - 1)

module _ {T D : Type 0} where
  -- The constructor, with the random incarnation as an argument
  unfoldable pub create : (incarnation : String) → (capacity : ℕ) → Result (FleetEvents T D)
  create incarnation capacity = do
    guard (leb 1 capacity && leb capacity 10000) "invalid_observer_event_capacity"
    ok (record {
      incarnation = incarnation;
      capacity = capacity;
      events = [];
      next_id = 1;
      closed = false;
    })

  unfoldable pub next_event :
      FleetEvents T D → T → (kind : String) → (model : Option String) → D → Event T D
  next_event h now kind model detail = record {
    id = h.next_id;
    timestamp = now;
    kind = kind;
    model = model;
    detail = detail;
    observer_incarnation = h.incarnation;
  }

  unfoldable pub push : FleetEvents T D → Event T D → FleetEvents T D
  push h e = record h {
    next_id = suc h.next_id;
    events = keep_last h.capacity (h.events ++ e ∷ []);
  }

  -- `emit`: the event, or None if the log is closed. An error changes nothing. `detail` is what
  -- `detail or {}` makes of the argument.
  unfoldable pub emit :
      (size : Event T D → Option ℕ)
      → FleetEvents T D
      → (now : T) → (kind : String) → (model : Option String) → (detail : D)
      → Result (FleetEvents T D × Option (Event T D))
  emit size h now kind model detail = do
    guard (contains kind ("fleet_status_changed" ∷ "fleet_snapshot_changed" ∷ []))
        "invalid_observer_event_kind"
    if h.closed then ok (h, none) else do
      guard (not (ltb max_event_id h.next_id)) "observer_event_id_exhausted"
      too_large (size (next_event h now kind model detail))
      ok (push h (next_event h now kind model detail), some (next_event h now kind model detail))

  abbrev pub oldest_id : List (Event T D) → Option ℕ
  oldest_id [] = none
  oldest_id (e ∷ _) = some e.id

  -- `reset_reason`: why a client cannot resume at the cursor. Cursor 0 asks for what there is.
  unfoldable pub reset_reason : FleetEvents T D → (cursor : ℕ) → Option String → Option String
  reset_reason h cursor incarnation =
      if is_some incarnation && not (opt_str_eq incarnation (some h.incarnation))
      then some "incarnation_changed"
      else if not (cursor == 0) && is_none incarnation
      then some "incarnation_required"
      else if leb h.next_id cursor
      then some "cursor_ahead"
      else if not (cursor == 0) && is_expired cursor (oldest_id h.events)
      then some "cursor_expired"
      else none

  -- The event that tells a client to start anew. The latest number is 0 before the first event.
  unfoldable pub reset_event : FleetEvents T D → (now : T) → (reason : String) → Event T ResetDetail
  reset_event h now reason = record {
    id = 0;
    timestamp = now;
    kind = "cursor_reset";
    model = none;
    detail = record { reason = reason; latest_id = h.next_id - 1; oldest_id = oldest_id h.events };
    observer_incarnation = h.incarnation;
  }

  -- `events_since`, as it returns when its wait has ended
  unfoldable pub events_since : FleetEvents T D → (cursor : ℕ) → List (Event T D)
  events_since h cursor = select (λ (e : Event T D). ltb cursor e.id) h.events

  unfoldable pub close : FleetEvents T D → FleetEvents T D
  close h = record h { closed = true }
