-- ===== src/Policy/Placement/Stops.antt =====
-- llmsvc/policy/placement.py: the eviction of a set of models stops each of them, and acts on no other.
use llm_service_manager.Prelude.{
  String, ◌≡◌, refl, sym, subst, not, ◌&&◌, ◌||◌, inl, inr, Bool, true, false, none, some, List, [],
  ◌∷◌, ◌++◌, str_eq, eq_iff, arith,
}
use llm_service_manager.Prelude.Tests.{Option-cases, Bool-cases, if_ind}
use llm_service_manager.Prelude.Text.{lookup, insert, lookup-insert}
use text.Mathlib.TextPositions.{eq_refl}
use llm_service_manager.Prelude.Lists.{All, any}
use llm_service_manager.Prelude.Float.{Float}
use llm_service_manager.State.{
  ModelState, ModelStatus, Action, Kind, action, is_awake, is_stopped, is_resident,
}
use llm_service_manager.Policy.Projection.{
  Projection, known_number, protection, memory_known, fits_sleep, stop_model, block, admit, settle,
  sleep_model, without_sleep, is_sleep,
}
use llm_service_manager.Policy.Placement.Plan.{evict, evict_one, after_sleep, stop_running}

abbrev is_stop : Kind → Bool
is_stop Kind.stop = true
is_stop _ = false

-- The actions stop the model.
abbrev pub stops : String → List Action → Bool
stops name actions = any (λ (a : Action). is_stop a.kind && str_eq a.model name) actions

stops-append :
    (name : String) (xs ys : List Action) → stops name (xs ++ ys) ≡ (stops name xs || stops name ys)
stops-append name [] ys = refl
stops-append name (x ∷ xs) ys = ground (arith, stops-append name xs ys)

stop-kind : (k : Kind) → is_sleep k ≡ true → is_stop k ≡ false
stop-kind Kind.sleep e = refl
stop-kind Kind.stop e = absurd (ground (arith, e))
stop-kind Kind.wake e = refl
stop-kind Kind.place e = refl

stops-without_sleep :
    (name other : String) (xs : List Action) → stops name (without_sleep other xs) ≡ stops name xs
stops-without_sleep name other [] = refl
stops-without_sleep name other (x ∷ xs) = elim (Bool-cases (is_sleep x.kind)) [
  | inl e ↦ ground (arith, e, stop-kind x.kind e, stops-without_sleep name other xs)
  | inr e ↦ ground (arith, e, stops-without_sleep name other xs)
]

module _ {N : Type 0} ⦃F : Float N⦄ where
  -- What stops a model goes on to stop it.
  abbrev Keeps : (p q : Projection N) → Type 0
  Keeps p q = (name : String) → stops name p.actions ≡ true → stops name q.actions ≡ true

  stop_model-Keeps :
      (p : Projection N) (m : ModelState N) (reason : String) → Keeps p (stop_model p m reason)
  unfolding stop_model
  stop_model-Keeps p m reason name h = ground (
    arith,
    h,
    stops-append name (without_sleep m.name p.actions) (action Kind.stop m.name reason m.gpu ∷ []),
    stops-without_sleep name m.name p.actions,
  )

  stop_model-stops :
      (p : Projection N) (m : ModelState N) (reason : String)
      → stops m.name (stop_model p m reason).actions ≡ true
  unfolding stop_model
  stop_model-stops p m reason = ground (
    arith,
    stops-append m.name (without_sleep m.name p.actions)
        (action Kind.stop m.name reason m.gpu ∷ []),
    eq_iff m.name m.name,
  )

  admit_none : (p : Projection N) (m : ModelState N) → admit p m false ≡ p
  unfolding admit
  admit_none p m = ground arith

  block-Keeps : (p : Projection N) (m : ModelState N) (reason : String) → Keeps p (block p m reason)
  unfolding block
  block-Keeps p m reason name h = h

  -- A sleep that goes through stops the model, or leaves it to be stopped.
  abbrev pub Sleeps : ModelState N → Projection N × Bool → Type 0
  Sleeps m r =
      r.1 ≡ true
      → (now : ModelState N) × (lookup m.name r.0.models ≡ some now)
        × (now.name ≡ m.name)
        × (is_stopped now.state ≡ true → stops m.name r.0.actions ≡ true)

  lookup_self :
      (m v : ModelState N) (p : Projection N) → lookup m.name (insert m.name v p.models) ≡ some v
  lookup_self m v p = simp (lookup-insert, eq_refl)

  pub settle-Sleeps :
      (p : Projection N) (m : ModelState N) (reason : String) → Sleeps m (settle p m reason)
  unfolding settle stop_model
  settle-Sleeps p m reason =
      if_ind (Sleeps m) (not (fits_sleep p m.weights_gb))
        (λ _.
          if_ind (Sleeps m) m.is_default (λ _ e. cc)
            (λ _ e.
              (_, lookup_self m _ p, refl, λ _. stop_model-stops p m "sleep_memory_admission")))
        (λ _ e. (_, lookup_self m _ p, refl, λ f. cc))

  settle-Keeps :
      (p : Projection N) (m : ModelState N) (reason : String) → Keeps p (settle p m reason).0
  unfolding settle
  settle-Keeps p m reason =
      if_ind (λ (r : Projection N × Bool). Keeps p r.0) (not (fits_sleep p m.weights_gb))
        (λ _.
          if_ind (λ (r : Projection N × Bool). Keeps p r.0) m.is_default
            (λ _. block-Keeps p m "memory_budget")
            (λ _. stop_model-Keeps p m "sleep_memory_admission"))
        (λ _ name h.
          ground
            (arith, h, stops-append name p.actions (action Kind.sleep m.name reason m.gpu ∷ [])))

  -- What holds of a sleep that makes no room: it is refused, or settled.
  pub sleep_model-ind :
      (P : Projection N × Bool → Type 0) (p : Projection N) (m : ModelState N) (reason : String)
      → ((why : String) → P (block p m why, false))
      → P (settle p m reason)
      → P (sleep_model p m reason false)
  unfolding sleep_model
  sleep_model-ind P p m reason refused settled =
      elim (Option-cases (protection p m false none false)) [
        | inr (protected, e) ↦ rw (e, sleep_model) (refused protected)
        | inl e ↦
            rw (e, sleep_model)
              (if_ind P (not (memory_known p) || not (known_number m.weights_gb))
                (λ _. refused "unknown_memory")
                (λ _. subst (λ q. P (settle q m reason)) (sym (admit_none p m)) settled))
      ]

  -- A round of the eviction of a resident keeps what is stopped, and stops the model if it goes on.
  abbrev Evicts : Projection N → ModelState N → Projection N × Bool → Type 0
  Evicts p m r = Keeps p r.0 × (r.1 ≡ true → stops m.name r.0.actions ≡ true)

  stop_running-Keeps : (p : Projection N) (m : ModelState N) → Keeps p (stop_running p m)
  stop_running-Keeps p m =
      if_ind (Keeps p) (not (is_stopped m.state)) (λ _. stop_model-Keeps p m "placement_eviction")
        (λ _ name h. h)

  stop_running-stops :
      (p : Projection N) (name : String) (m : ModelState N)
      → m.name ≡ name
      → (is_stopped m.state ≡ true → stops name p.actions ≡ true)
      → stops name (stop_running p m).actions ≡ true
  stop_running-stops p name m same h =
      if_ind (λ (q : Projection N). stops name q.actions ≡ true) (not (is_stopped m.state))
        (λ _.
          subst (λ n. stops n (stop_model p m "placement_eviction").actions ≡ true) same
            (stop_model-stops p m "placement_eviction"))
        (λ e. h (ground (arith, e)))

  after_sleep-Evicts :
      (p : Projection N) (m : ModelState N) (r : Projection N × Bool)
      → Keeps p r.0
      → Sleeps m r
      → Evicts p m (after_sleep r m)
  after_sleep-Evicts p m (q, false) keeps sleeps = (keeps, λ e. cc)
  after_sleep-Evicts p m (q, true) keeps sleeps =
      let (now, found, same, h) = sleeps refl in
      rw found (
        (λ name e. stop_running-Keeps q now name (keeps name e)),
        (λ _. stop_running-stops q m.name now same h),
      )

  evict_one-Evicts :
      (p : Projection N) (m : ModelState N)
      → is_resident m.state ≡ true
      → Evicts p m (evict_one p m)
  unfolding evict_one
  evict_one-Evicts p m h =
      if_ind (Evicts p m) (is_awake m.state)
        (λ _.
          after_sleep-Evicts p m (sleep_model p m "placement_eviction" false)
            (sleep_model-ind (λ (r : Projection N × Bool). Keeps p r.0) p m "placement_eviction"
              (block-Keeps p m) (settle-Keeps p m "placement_eviction"))
            (sleep_model-ind (Sleeps m) p m "placement_eviction" (λ why e. cc)
              (settle-Sleeps p m "placement_eviction")))
        (λ _. (
          stop_running-Keeps p m,
          (λ _. stop_running-stops p m.name m refl (λ f. absurd (resident_runs m.state h f))),
        ))
    where
      resident_runs : (st : ModelStatus) → is_resident st ≡ true → is_stopped st ≡ true → ⊥
      resident_runs ModelStatus.awake e f = absurd (ground (arith, f))
      resident_runs ModelStatus.sleeping e f = absurd (ground (arith, f))
      resident_runs ModelStatus.stopped e f = absurd (ground (arith, e))
      resident_runs ModelStatus.unknown e f = absurd (ground (arith, e))

  pub evict-stops :
      (ms : List (ModelState N)) (p : Projection N)
      → All (λ (m : ModelState N). is_resident m.state ≡ true) ms
      → Keeps p (evict p ms).0
        × ((evict p ms).1 ≡ true
            → All (λ (m : ModelState N). stops m.name (evict p ms).0.actions ≡ true) ms)
  unfolding evict
  evict-stops [] p h = ((λ name e. e), λ _. tt)
  evict-stops (m ∷ ms) p h =
      let (keeps, stopped) = evict_one-Evicts p m h.0 in
      let (keeps', stopped') = evict-stops ms (evict_one p m).0 h.1 in
      if_ind
        (λ (r : Projection N × Bool).
          Keeps p r.0
          × (r.1 ≡ true → All (λ (m : ModelState N). stops m.name r.0.actions ≡ true) (m ∷ ms)))
        (evict_one p m).1
        (λ on.
          ((λ name e. keeps' name (keeps name e)), λ e. (keeps' m.name (stopped on), stopped' e)))
        (λ _. (keeps, λ e. cc))
