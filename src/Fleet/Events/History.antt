-- ===== src/Fleet/Events/History.antt =====
-- llmsvc/fleet/events.py: the log as a state machine. A history is the list of all events that were
-- emitted since the log was created.
use llm_service_manager.Prelude.{
  ℕ, zero, suc, ◌+◌, ◌-◌, ◌≤◌, ◌<◌, String, ◌≡◌, refl, ap, sym, subst, ◌∙◌, inl, inr, false, not,
  ◌&&◌, Option, none, some, List, [], ◌∷◌, ◌++◌, arith,
}
use llm_service_manager.Prelude.Tests.{Bool-cases, ltb, leb, if_ind}
use llm_service_manager.Prelude.Lists.{length, length-append, select, drop}
use llm_service_manager.Prelude.Result.{ok, guard, OnOk, OnOk-bind, OnOk-eq}
use llm_service_manager.Prelude.Text.{contains}
use llm_service_manager.Fleet.Events.{
  Event, FleetEvents, max_event_id, too_large, keep_last, create, next_event, push, emit, oldest_id,
  is_expired, reset_reason, events_since, close,
}
use llm_service_manager.Fleet.Events.Replay.{
  IsNumbered, append-IsNumbered, select-drop, select-IsNumbered, keep_last-append, length-drop,
}

module _ {T D : Type 0} (size : Event T D → Option ℕ) where
  -- What the threads of the observer do with the log, one step at a time.
  pub data Run : FleetEvents T D → List (Event T D) → Type 0 where
    created :
        (incarnation : String) (capacity : ℕ) (h : FleetEvents T D)
        → create incarnation capacity ≡ ok h
        → Run h []
    emitted :
        (h : FleetEvents T D) (past : List (Event T D)) (now : T) (kind : String)
        (model : Option String) (detail : D) (h' : FleetEvents T D) (e : Event T D)
        → Run h past
        → emit size h now kind model detail ≡ ok (h', some e)
        → Run h' (past ++ e ∷ [])
    unheard :
        (h : FleetEvents T D) (past : List (Event T D)) (now : T) (kind : String)
        (model : Option String) (detail : D) (h' : FleetEvents T D)
        → Run h past
        → emit size h now kind model detail ≡ ok (h', none)
        → Run h' past
    closed : (h : FleetEvents T D) (past : List (Event T D)) → Run h past → Run (close h) past

-- The log keeps the last events of the history, which are numbered from 1 on.
pub record IsLog {T D : Type 0} (h : FleetEvents T D) (past : List (Event T D)) : Type 0 where
  pub kept : h.events ≡ keep_last h.capacity past
  pub numbered : IsNumbered 1 past
  pub next : h.next_id ≡ suc (length past)
  pub positive : 1 ≤ h.capacity
  pub small : h.capacity ≤ 10000

drop_nil {ℓ} : {A : Type ℓ} (n : ℕ) → drop {A = A} n [] ≡ []
drop_nil zero = refl
drop_nil (suc n) = refl

module _ {T D : Type 0} where
  create-IsLog :
      (incarnation : String) (capacity : ℕ) (h : FleetEvents T D)
      → create incarnation capacity ≡ ok h
      → IsLog h []
  unfolding create keep_last
  create-IsLog incarnation capacity h =
      OnOk-eq (λ (h : FleetEvents T D). IsLog h []) _ h
        (OnOk-bind (λ (h : FleetEvents T D). IsLog h [])
          (guard (leb 1 capacity && leb capacity 10000) _) _
          (λ _ g. record {
            kept = sym (drop_nil (0 - capacity));
            numbered = tt;
            next = refl;
            positive = ground arith;
            small = ground arith;
          }))

  push-IsLog :
      (h : FleetEvents T D) (past : List (Event T D)) (e : Event T D)
      → IsLog h past
      → e.id ≡ h.next_id
      → IsLog (push h e) (past ++ e ∷ [])
  unfolding push
  push-IsLog h past e v named = record {
    kept = ap (λ l. keep_last h.capacity (l ++ e ∷ [])) v.kept ∙ keep_last-append h.capacity past e;
    numbered = append-IsNumbered 1 past e v.numbered (let n = v.next in omega (arith, named, n));
    next = let n = v.next in omega (arith, n, length-append past (e ∷ []));
    positive = v.positive;
    small = v.small;
  }

module _ {T D : Type 0} (size : Event T D → Option ℕ) where
  -- An emitted event is pushed with the next number; where none is emitted, nothing changes.
  abbrev Emits : FleetEvents T D → FleetEvents T D × Option (Event T D) → Type 0
  Emits h (h', none) = h ≡ h'
  Emits h (h', some e) = (push h e ≡ h') × (e.id ≡ h.next_id)

  emit-Emits :
      (h : FleetEvents T D) (now : T) (kind : String) (model : Option String) (detail : D)
      (r : FleetEvents T D × Option (Event T D))
      → emit size h now kind model detail ≡ ok r
      → Emits h r
  unfolding emit next_event
  emit-Emits h now kind model detail r = OnOk-eq (Emits h) _ r (
      OnOk-bind (Emits h)
        (guard (contains kind ("fleet_status_changed" ∷ "fleet_snapshot_changed" ∷ [])) _) _
        (λ _ _.
          if_ind (OnOk (Emits h)) h.closed (λ _. refl)
            (λ _. OnOk-bind (Emits h) (guard (not (ltb max_event_id h.next_id)) _) _ (λ _ _.
              OnOk-bind (Emits h) (too_large (size (next_event h now kind model detail))) _
                (λ _ _. (refl, refl))))))

  pub Run-IsLog : (h : FleetEvents T D) (past : List (Event T D)) → Run size h past → IsLog h past
  unfolding close
  Run-IsLog h past (Run.created incarnation capacity _ e) = create-IsLog incarnation capacity h e
  Run-IsLog h past (Run.emitted h₀ past₀ now kind model detail _ e run step) =
      let (same, named) = emit-Emits h₀ now kind model detail (h, some e) step in
      subst (λ k. IsLog k past) same (push-IsLog h₀ past₀ e (Run-IsLog h₀ past₀ run) named)
  Run-IsLog h past (Run.unheard h₀ _ now kind model detail _ run step) =
      subst (λ k. IsLog k past) (emit-Emits h₀ now kind model detail (h, none) step)
        (Run-IsLog h₀ past run)
  Run-IsLog h past (Run.closed h₀ _ run) =
      let v = Run-IsLog h₀ past run in
      record {
        kept = v.kept;
        numbered = v.numbered;
        next = v.next;
        positive = v.positive;
        small = v.small;
      }

module _ {T D : Type 0} where
  oldest_id-drop :
      (n k : ℕ) (es : List (Event T D))
      → IsNumbered n es
      → k < length es
      → oldest_id (drop k es) ≡ some (n + k)
  oldest_id-drop n k [] v b = absurd (omega arith)
  oldest_id-drop n zero (e ∷ es) v b = ap some (let same = v.0 in omega (arith, same))
  oldest_id-drop n (suc k) (e ∷ es) v b =
      oldest_id-drop (suc n) k es v.1 (omega arith) ∙ ap some (omega arith)

  resumable :
      (h : FleetEvents T D) (cursor : ℕ)
      → 0 < cursor
      → reset_reason h cursor (some h.incarnation) ≡ none
      → (cursor < h.next_id) × (is_expired cursor (oldest_id h.events) ≡ false)
  unfolding reset_reason
  resumable h cursor positive e = ground arith

  -- The events that are gone do not come after a cursor that has not expired.
  gone_before :
      (cursor capacity : ℕ) (past : List (Event T D))
      → 1 ≤ capacity
      → IsNumbered 1 past
      → is_expired cursor (oldest_id (drop (length past - capacity) past)) ≡ false
      → length past - capacity ≤ cursor
  gone_before cursor capacity past c v e =
      elim (Bool-cases (ltb (length past - capacity) (length past))) [
        | inl some_left ↦
            let oldest = oldest_id-drop 1 (length past - capacity) past v (ground arith) in
            not_expired cursor (length past - capacity)
              (subst (λ o. is_expired cursor o ≡ false) oldest e)
        | inr none_left ↦ ground arith
      ]
    where
      not_expired : (cursor k : ℕ) → is_expired cursor (some (1 + k)) ≡ false → k ≤ cursor
      not_expired cursor k e = ground arith

module _ {T D : Type 0} (size : Event T D → Option ℕ) where
  -- The log never holds more events than its capacity, which is at most 10000.
  pub Run-IsBounded :
      (h : FleetEvents T D) (past : List (Event T D))
      → Run size h past
      → (length h.events ≤ h.capacity) × (h.capacity ≤ 10000)
  unfolding keep_last
  Run-IsBounded h past run =
      let v = Run-IsLog size h past run in
      (
        subst (λ es. length es ≤ h.capacity) (sym v.kept)
            (omega (arith, length-drop (length past - h.capacity) past)),
        v.small,
      )

  -- A client that has seen an event and may resume after it, at its number as the cursor, gets every
  -- event that was emitted since: what the log returns is the part of the whole history that comes after
  -- the cursor, and the numbers of it follow the cursor one by one.
  pub events_since-IsNumbered :
      (h : FleetEvents T D) (past : List (Event T D)) (cursor : ℕ)
      → Run size h past
      → 0 < cursor
      → reset_reason h cursor (some h.incarnation) ≡ none
      → (events_since h cursor ≡ select (λ e. ltb cursor e.id) past)
        × IsNumbered (suc cursor) (events_since h cursor)
  unfolding events_since keep_last
  events_since-IsNumbered h past cursor run positive accepted =
      let v = Run-IsLog size h past run in
      let (behind, fresh_enough) = resumable h cursor positive accepted in
      let gone =
        gone_before cursor h.capacity past v.positive v.numbered
          (subst (λ es. is_expired cursor (oldest_id es) ≡ false) v.kept fresh_enough) in
      let whole =
        ap (λ es. select (λ (e : Event T D). ltb cursor e.id) es) v.kept
        ∙ select-drop cursor 1 (length past - h.capacity) past v.numbered (omega (arith, gone)) in
      (
        whole,
        subst (IsNumbered (suc cursor)) (sym whole) (
            let n = v.next in
            select-IsNumbered cursor 1 past v.numbered (omega arith) (omega (arith, n, behind))),
      )
