-- ===== src/Reload/Quiet.antt =====
-- llmsvc/reload.py: `QuietPeriod`, which follows the stream of in-flight counts.
use llm_service_manager.Prelude.{
  ℕ, zero, suc, String, Bool, true, false, not, ◌&&◌, Option, none, some, List, [], ◌∷◌,
}
use llm_service_manager.Prelude.Tests.{if◌then◌else◌}
use llm_service_manager.Prelude.Float.{Float}

pub record QuietPeriod (N : Type 0) : Type 0 where
  pub quiet_seconds : N
  pub max_event_age : N
  pub last : Option N
  pub zero_since : Option N
  pub inflight : Option ℕ

-- A call of `observe`, where a count that is no natural number is none, or of `heartbeat`
pub data Event : Type 0 where
  observed : (inflight : Option ℕ) (connected : Bool) → Event
  heartbeat : Event

abbrev pub is_busy : Option ℕ → Bool
is_busy none = false
is_busy (some zero) = false
is_busy (some (suc n)) = true

module _ {N : Type 0} where
  abbrev pub reset : QuietPeriod N → QuietPeriod N
  reset q = record q { last = none; zero_since = none; inflight = none }

  abbrev pub fresh : (quiet_seconds max_event_age : N) → QuietPeriod N
  fresh quiet_seconds max_event_age = record {
    quiet_seconds = quiet_seconds;
    max_event_age = max_event_age;
    last = none;
    zero_since = none;
    inflight = none;
  }

module _ {N : Type 0} ⦃F : Float N⦄ where
  -- `0 <= now - last <= max_event_age`
  abbrev pub within : (max_event_age last now : N) → Bool
  within max_event_age last now =
      F.le (F.of_nat 0) (F.minus now last) && F.le (F.minus now last) max_event_age

  abbrev pub in_time : QuietPeriod N → (now : N) → Option N → Bool
  in_time q now none = false
  in_time q now (some last) = within q.max_event_age last now

  abbrev pub zero_from : (now : N) (gap : Bool) → Option N → Option N
  zero_from now true since = some now
  zero_from now false none = some now
  zero_from now false (some since) = some since

  -- `observe`
  unfoldable pub observe : QuietPeriod N → (now : N) → Option ℕ → (connected : Bool) → QuietPeriod N
  observe q now inflight false = reset q
  observe q now none true = reset q
  observe q now (some zero) true = record q {
    last = some now;
    zero_since = zero_from now (not (in_time q now q.last)) q.zero_since;
    inflight = some zero;
  }
  observe q now (some (suc n)) true = record q {
    last = some now;
    zero_since = none;
    inflight = some (suc n);
  }

  -- `heartbeat`
  unfoldable pub beat : QuietPeriod N → (now : N) → QuietPeriod N
  beat q now = if in_time q now q.last then record q { last = some now } else reset q

  abbrev pub too_short : QuietPeriod N → (now : N) → Option N → Bool
  too_short q now none = true
  too_short q now (some since) = F.lt (F.minus now since) q.quiet_seconds

  -- `blockers`
  unfoldable pub quiet_blockers : QuietPeriod N → (now : N) → List String
  quiet_blockers q now =
      if not (in_time q now q.last)
      then "inflight_stream_unknown" ∷ []
      else if is_busy q.inflight
      then "in_flight" ∷ []
      else if too_short q now q.zero_since
      then "quiet_period" ∷ []
      else []

  abbrev pub take_event : QuietPeriod N → (now : N) → Event → QuietPeriod N
  take_event q now (observed inflight connected) = observe q now inflight connected
  take_event q now heartbeat = beat q now

  -- After the events of a history, of which the newest comes first
  unfoldable pub after_events : QuietPeriod N → List (N × Event) → QuietPeriod N
  after_events q [] = q
  after_events q ((now, event) ∷ history) = take_event (after_events q history) now event
