-- ===== src/Reload/Admitted.antt =====
-- llmsvc/reload.py: what it means that a reload has no blocker.
use llm_service_manager.Prelude.{
  zero, suc, String, ◌≡◌, ◌↔◌, refl, ◌⊎◌, inl, inr, Bool, true, false, not, ◌&&◌, Option, none,
  some, List, [], ◌∷◌, ◌++◌, arith,
}
use llm_service_manager.Prelude.Tests.{is_some, is_false, if◌then◌else◌}
use llm_service_manager.Prelude.Lists.{All}
use llm_service_manager.Prelude.Text.{Dict, lookup}
use llm_service_manager.Prelude.Int.{ℤ, pos, negsuc}
use llm_service_manager.Prelude.Float.{Float}
use llm_service_manager.State.{
  StateSnapshot, ModelState, Activity, Pin, Lease, MemoryState, is_awake, is_stopped, is_unknown,
  is_resident,
}
use llm_service_manager.Reload.Blockers.{
  because, flight_blockers, pin_blockers, known_amount, model_blockers, models_blockers,
  is_unsettled, lease_blockers, memory_known, over_budget, memory_blockers, is_unreliable,
  reload_blockers, IsReady, IsAdmitted,
}

module _ {A : Type 0} where
  append-empty : (xs ys : List A) → xs ++ ys ≡ [] → (xs ≡ []) × (ys ≡ [])
  append-empty [] ys h = (refl, h)
  append-empty (x ∷ xs) ys h = absurd cc h

  empty-append : (xs ys : List A) → xs ≡ [] → ys ≡ [] → xs ++ ys ≡ []
  empty-append xs ys hx hy = rw hx hy

  -- A list that a test makes empty, or not
  if-empty : (b : Bool) (x : A) (xs : List A) → (if b then x ∷ xs else []) ≡ [] → b ≡ false
  if-empty true x xs h = absurd cc h
  if-empty false x xs h = refl

  first-empty :
      (b : Bool) (x : A) (xs ys : List A)
      → (if b then x ∷ xs else ys) ≡ []
      → (b ≡ false) × (ys ≡ [])
  first-empty true x xs ys h = absurd cc h
  first-empty false x xs ys h = (refl, h)

  empty-first : (b : Bool) (xs ys : List A) → b ≡ false → ys ≡ [] → (if b then xs else ys) ≡ []
  empty-first true xs ys h k = absurd cc h
  empty-first false xs ys h k = k

  empty-if : (b : Bool) (xs : List A) → b ≡ false → (if b then xs else []) ≡ []
  empty-if true xs h = absurd cc h
  empty-if false xs h = refl

module _ {N : Type 0} where
  flight_blockers-empty :
      (name : String) (found : Option ℤ)
      → flight_blockers {N = N} name found ≡ []
      → found ≡ some (pos 0)
  flight_blockers-empty name none h = absurd cc h
  flight_blockers-empty name (some (negsuc n)) h = absurd cc h
  flight_blockers-empty name (some (pos zero)) h = refl
  flight_blockers-empty name (some (pos (suc n))) h = absurd cc h

  pin_blockers-empty :
      (m : ModelState N) (found : Option (Pin N))
      → pin_blockers m found ≡ []
      → (is_awake m.state && is_some found) ≡ false
  pin_blockers-empty m none h = ground arith
  pin_blockers-empty m (some pin) h = ground (arith, if-empty (is_awake m.state) _ [] h)

  empty-pin_blockers :
      (m : ModelState N) (found : Option (Pin N))
      → (is_awake m.state && is_some found) ≡ false
      → pin_blockers m found ≡ []
  empty-pin_blockers m none h = refl
  empty-pin_blockers m (some pin) h = empty-if (is_awake m.state) _ (ground arith)

  idle-empty :
      (b : Bool) (name : String) (found : Option ℤ)
      → (if b then [] else flight_blockers {N = N} name found) ≡ []
      → (b ≡ true) ⊎ (found ≡ some (pos 0))
  idle-empty true name found h = inl refl
  idle-empty false name found h = inr (flight_blockers-empty name found h)

  empty-idle :
      (b : Bool) (name : String) (found : Option ℤ)
      → (b ≡ true) ⊎ (found ≡ some (pos 0))
      → (if b then [] else flight_blockers {N = N} name found) ≡ []
  empty-idle true name found h = refl
  empty-idle false name found (inl h) = absurd cc h
  empty-idle false name found (inr h) = rw h refl

  lease_blockers-empty :
      (leases : List (Lease N))
      → lease_blockers leases ≡ []
      → All (λ l. is_unsettled l ≡ false) leases
  lease_blockers-empty [] h = tt
  lease_blockers-empty (l ∷ ls) h = ground (arith, lease_blockers-empty ls)

  empty-lease_blockers :
      (leases : List (Lease N))
      → All (λ l. is_unsettled l ≡ false) leases
      → lease_blockers leases ≡ []
  empty-lease_blockers [] h = refl
  empty-lease_blockers (l ∷ ls) h = ground (arith, empty-lease_blockers ls, h)

module _ {N : Type 0} ⦃F : Float N⦄ where
  module _ (pins : Dict (Pin N)) (activity : Dict (Activity N)) where
    model_blockers-IsReady :
        (m : ModelState N) → model_blockers pins activity m ≡ [] → IsReady pins activity m
    unfolding model_blockers
    model_blockers-IsReady m h =
        let (front, weight) = append-empty _ _ h in
        let (head, pin) = append-empty _ _ front in
        let (flight, state) = append-empty _ _ head in
        record {
          idle = idle-empty (is_stopped m.state && is_false m.unit_active) m.name _ flight;
          is_known = if-empty (is_unknown m.state) _ [] state;
          unpinned = pin_blockers-empty m (lookup m.name pins) pin;
          weighed = if-empty (is_resident m.state && not (known_amount m.weights_gb)) _ [] weight;
        }

    IsReady-model_blockers :
        (m : ModelState N) → IsReady pins activity m → model_blockers pins activity m ≡ []
    unfolding model_blockers
    IsReady-model_blockers m h =
        empty-append _ _
          (empty-append _ _
            (empty-append _ _
              (empty-idle (is_stopped m.state && is_false m.unit_active) m.name _ h.idle)
              (empty-if (is_unknown m.state) _ h.is_known))
            (empty-pin_blockers m (lookup m.name pins) h.unpinned))
          (empty-if (is_resident m.state && not (known_amount m.weights_gb)) _ h.weighed)

    models_blockers-IsReady :
        (ms : List (ModelState N))
        → models_blockers pins activity ms ≡ []
        → All (IsReady pins activity) ms
    unfolding models_blockers
    models_blockers-IsReady [] h = tt
    models_blockers-IsReady (m ∷ ms) h =
        let (first, rest) = append-empty _ _ h in
        (model_blockers-IsReady m first, models_blockers-IsReady ms rest)

    IsReady-models_blockers :
        (ms : List (ModelState N))
        → All (IsReady pins activity) ms
        → models_blockers pins activity ms ≡ []
    unfolding models_blockers
    IsReady-models_blockers [] h = refl
    IsReady-models_blockers (m ∷ ms) h =
        empty-append _ _ (IsReady-model_blockers m h.0) (IsReady-models_blockers ms h.1)

  memory_blockers-empty :
      (memory : MemoryState N) (awake sleeping : N)
      → memory_blockers memory awake sleeping ≡ []
      → (memory_known memory ≡ true) × (over_budget memory awake sleeping ≡ false)
  unfolding memory_blockers
  memory_blockers-empty memory awake sleeping h =
      go (memory_known memory) (over_budget memory awake sleeping) h
    where
      go :
          (is_known over : Bool)
          → (if not is_known
              then because none "memory_unknown" ∷ []
              else if over
              then record (because none "memory_budget") { awake_weights_gb = some awake } ∷ []
              else [])
            ≡ []
          → (is_known ≡ true) × (over ≡ false)
      go true true h = absurd cc h
      go true false h = (refl, refl)
      go false over h = absurd cc h

  empty-memory_blockers :
      (memory : MemoryState N) (awake sleeping : N)
      → memory_known memory ≡ true
      → over_budget memory awake sleeping ≡ false
      → memory_blockers memory awake sleeping ≡ []
  unfolding memory_blockers
  empty-memory_blockers memory awake sleeping h k = ground (arith, h, k)

  IsAdmitted-of :
      (s : StateSnapshot N) (now max_age : N)
      → reload_blockers s now max_age ≡ []
      → IsAdmitted s now max_age
  unfolding reload_blockers
  IsAdmitted-of s now max_age h =
      let (reliable, rest) = first-empty (is_unreliable s now max_age) _ [] _ h in
      let (front, memory) = append-empty _ _ rest in
      let (head, leases) = append-empty _ _ front in
      let (mode, models) = append-empty _ _ head in
      let (is_known, within) = memory_blockers-empty s.memory _ _ memory in
      record {
        recent = ground (arith, reliable);
        no_error = ground (arith, reliable);
        writable = if-empty s.read_only _ [] mode;
        ready = models_blockers-IsReady _ _ s.models models;
        settled = lease_blockers-empty s.leases leases;
        memory_is_known = is_known;
        within_budget = within;
      }

  IsAdmitted-reload_blockers :
      (s : StateSnapshot N) (now max_age : N)
      → IsAdmitted s now max_age
      → reload_blockers s now max_age ≡ []
  unfolding reload_blockers
  IsAdmitted-reload_blockers s now max_age h =
      empty-first (is_unreliable s now max_age) _ _ (ground (arith, h.recent, h.no_error)) (
        empty-append _ _
          (empty-append _ _
            (empty-append _ _ (empty-if s.read_only _ h.writable)
              (IsReady-models_blockers _ _ s.models h.ready))
            (empty-lease_blockers s.leases h.settled))
          (empty-memory_blockers s.memory _ _ h.memory_is_known h.within_budget))

  -- A reload has no blocker exactly when the observation is recent, without an error and not read-only, every
  -- model is ready, no lease is pending or stale, the memory is known, and the weights of the awake models,
  -- with those that sleep, are within the budget and leave the host its minimum.
  pub reload_blockers-IsAdmitted :
      (s : StateSnapshot N) (now max_age : N)
      → (reload_blockers s now max_age ≡ []) ↔ IsAdmitted s now max_age
  reload_blockers-IsAdmitted s now max_age =
      (IsAdmitted-of s now max_age, IsAdmitted-reload_blockers s now max_age)
