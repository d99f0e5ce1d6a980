-- ===== src/Reload/Calm.antt =====
-- llmsvc/reload.py: what a quiet period without a blocker says of the stream.
use llm_service_manager.Prelude.{
  ℕ, zero, suc, ◌≡◌, refl, sym, ap, subst, ◌∙◌, Bool, true, false, not, Option, none, some, List,
  [], ◌∷◌, arith,
}
use llm_service_manager.Prelude.Tests.{if_ind}
use llm_service_manager.Prelude.Float.{Float}
use llm_service_manager.Reload.Quiet.{
  QuietPeriod, Event, fresh, within, in_time, zero_from, observe, beat, too_short, quiet_blockers,
  after_events, observed, heartbeat,
}

module _ {N : Type 0} ⦃F : Float N⦄ (max_event_age : N) where
  -- The stream has been intact and without a request since `since`: a connected observation of 0 at that
  -- time, and behind it only such observations and heartbeats, none of them later than allowed.
  pub data Calm (since : N) : (last : N) → List (N × Event) → Type 0 where
    began :
        (history : List (N × Event)) → Calm since since ((since, observed (some 0) true) ∷ history)
    stayed :
        {last now : N} {history : List (N × Event)}
        → Calm since last history
        → within max_event_age last now ≡ true
        → Calm since now ((now, observed (some 0) true) ∷ history)
    beaten :
        {last now : N} {history : List (N × Event)}
        → Calm since last history
        → within max_event_age last now ≡ true
        → Calm since now ((now, heartbeat) ∷ history)

module _ {N : Type 0} ⦃F : Float N⦄ (age : N) where
  -- What stands behind the instant from which a state counts
  abbrev Since : (last : Option N) → List (N × Event) → N → Type 0
  Since found history since = (last : N) × (found ≡ some last) × Calm age since last history

  -- The instant from which the state counts is one since which the history is calm.
  record IsCounted (q : QuietPeriod N) (history : List (N × Event)) : Type 0 where
    keeps_age : q.max_event_age ≡ age
    counts : (since : N) → q.zero_since ≡ some since → Since q.last history since

  began_at :
      (now since : N) (history : List (N × Event))
      → some now ≡ some since
      → Since (some now) ((now, observed (some 0) true) ∷ history) since
  began_at now since history e =
      let same : now ≡ since = cc in
      subst (λ s. Since (some now) ((now, observed (some 0) true) ∷ history) s) same
        (now, refl, Calm.began history)

  reached :
      (q : QuietPeriod N) (now last : N)
      → q.max_event_age ≡ age
      → q.last ≡ some last
      → in_time q now q.last ≡ true
      → within age last now ≡ true
  reached q now last a e h =
      ap (λ m. within m last now) (sym a) ∙ ap (λ l. in_time q now l) (sym e) ∙ h

  zero_from-Since :
      (q : QuietPeriod N) (now since : N) (history : List (N × Event))
      → IsCounted q history
      → (timely : Bool) → in_time q now q.last ≡ timely
      → (found : Option N) → q.zero_since ≡ found
      → zero_from now (not timely) found ≡ some since
      → Since (some now) ((now, observed (some 0) true) ∷ history) since
  zero_from-Since q now since history h false t found z e = began_at now since history e
  zero_from-Since q now since history h true t none z e = began_at now since history e
  zero_from-Since q now since history h true t (some start) z e =
      let (last, l, calm) = h.counts since (z ∙ e) in
      (now, refl, Calm.stayed calm (reached q now last h.keeps_age l t))

  observe-IsCounted :
      (q : QuietPeriod N) (now : N) (inflight : Option ℕ) (connected : Bool)
      (history : List (N × Event))
      → IsCounted q history
      → IsCounted (observe q now inflight connected) ((now, observed inflight connected) ∷ history)
  unfolding observe
  observe-IsCounted q now inflight false history h = record {
    keeps_age = h.keeps_age;
    counts = λ since e. absurd cc e;
  }
  observe-IsCounted q now none true history h = record {
    keeps_age = h.keeps_age;
    counts = λ since e. absurd cc e;
  }
  observe-IsCounted q now (some zero) true history h = record {
    keeps_age = h.keeps_age;
    counts = λ since e.
        zero_from-Since q now since history h (in_time q now q.last) refl q.zero_since refl e;
  }
  observe-IsCounted q now (some (suc n)) true history h = record {
    keeps_age = h.keeps_age;
    counts = λ since e. absurd cc e;
  }

  beat-IsCounted :
      (q : QuietPeriod N) (now : N) (history : List (N × Event))
      → IsCounted q history
      → IsCounted (beat q now) ((now, heartbeat) ∷ history)
  unfolding beat
  beat-IsCounted q now history h =
      if_ind (λ (p : QuietPeriod N). IsCounted p ((now, heartbeat) ∷ history))
        (in_time q now q.last)
        (λ timely. record {
          keeps_age = h.keeps_age;
          counts = λ since e.
              let (last, l, calm) = h.counts since e in
              (now, refl, Calm.beaten calm (reached q now last h.keeps_age l timely));
        })
        (λ _. record { keeps_age = h.keeps_age; counts = λ since e. absurd cc e })

  after_events-IsCounted :
      (quiet_seconds : N) (history : List (N × Event))
      → IsCounted (after_events (fresh quiet_seconds age) history) history
  unfolding after_events
  after_events-IsCounted quiet_seconds [] = record {
    keeps_age = refl;
    counts = λ since e. absurd cc e;
  }
  after_events-IsCounted quiet_seconds ((now, observed inflight connected) ∷ history) =
      observe-IsCounted _ now inflight connected history
        (after_events-IsCounted quiet_seconds history)
  after_events-IsCounted quiet_seconds ((now, heartbeat) ∷ history) =
      beat-IsCounted _ now history (after_events-IsCounted quiet_seconds history)

  seconds_kept :
      (quiet_seconds : N) (history : List (N × Event))
      → (after_events (fresh quiet_seconds age) history).quiet_seconds ≡ quiet_seconds
  unfolding after_events observe beat
  seconds_kept quiet_seconds [] = refl
  seconds_kept quiet_seconds ((now, observed inflight false) ∷ history) =
      seconds_kept quiet_seconds history
  seconds_kept quiet_seconds ((now, observed none true) ∷ history) =
      seconds_kept quiet_seconds history
  seconds_kept quiet_seconds ((now, observed (some zero) true) ∷ history) =
      seconds_kept quiet_seconds history
  seconds_kept quiet_seconds ((now, observed (some (suc n)) true) ∷ history) =
      seconds_kept quiet_seconds history
  seconds_kept quiet_seconds ((now, heartbeat) ∷ history) =
      let rest = seconds_kept quiet_seconds history in
      if_ind (λ (p : QuietPeriod N). p.quiet_seconds ≡ quiet_seconds) _ (λ _. rest) (λ _. rest)

module _ {N : Type 0} ⦃F : Float N⦄ where
  passed :
      (q : QuietPeriod N) (now : N)
      → quiet_blockers q now ≡ []
      → (in_time q now q.last ≡ true) × (too_short q now q.zero_since ≡ false)
  unfolding quiet_blockers
  passed q now h = (ground arith, ground arith)

  started :
      (q : QuietPeriod N) (now : N) (found : Option N)
      → too_short q now found ≡ false
      → (since : N) × (found ≡ some since) × (F.lt (F.minus now since) q.quiet_seconds ≡ false)
  started q now none h = absurd cc h
  started q now (some since) h = (since, refl, h)

  -- When a quiet period has no blocker, there is an instant, at least the quiet seconds ago, since which every
  -- event of the history was a connected observation of 0 or a heartbeat, beginning with an observation of
  -- 0, with no gap above the allowed age between them or between the last one and now.
  pub quiet_blockers-Calm :
      (quiet_seconds age : N) (history : List (N × Event)) (now : N)
      → quiet_blockers (after_events (fresh quiet_seconds age) history) now ≡ []
      → (since : N) × (last : N) × Calm age since last history
        × (within age last now ≡ true)
        × (F.lt (F.minus now since) quiet_seconds ≡ false)
  quiet_blockers-Calm quiet_seconds age history now h =
      let q = after_events (fresh quiet_seconds age) history in
      let counted = after_events-IsCounted age quiet_seconds history in
      let (timely, long) = passed q now h in
      let (since, z, over) = started q now q.zero_since long in
      let (last, l, calm) = counted.counts since z in
      (
        since,
        last,
        calm,
        reached age q now last counted.keeps_age l timely,
        ap (λ s. F.lt (F.minus now since) s) (sym (seconds_kept age quiet_seconds history)) ∙ over,
      )
