-- ===== src/Leases/Passes.antt =====
-- llmsvc/leases.py: what one pass of `place` has seen when it grants a lease or stops a model.
use llm_service_manager.Prelude.{
  String, ◌≡◌, refl, subst, Bool, true, false, not, ◌&&◌, ◌||◌, Option, none, some, List, [], ◌∷◌,
  ◌⊎◌, inl, inr, str_eq, arith,
}
use llm_service_manager.Prelude.Tests.{is_false, is_some, Option-cases, if_ind}
use llm_service_manager.Prelude.Lists.{All}
use llm_service_manager.Prelude.Float.{Float}
use llm_service_manager.Prelude.Result.{Result, ok, err}
use llm_service_manager.State.{ModelState, Lease, Blocker, Action, blocker}
use llm_service_manager.Store.Rows.{IntentStore, RecoveryClaim}
use llm_service_manager.Store.Leases.{create_lease}
use llm_service_manager.Policy.Placement.Plan.{PlacementDecision}
use llm_service_manager.Leases.Probe.{UnitObservation}
use llm_service_manager.Leases.Finish.{disabled}
use llm_service_manager.Leases.Admission.{Admission, Verdict, is_place, recovery_context, decision}
use llm_service_manager.Leases.Victim.{observe_victim, IsSeen, observe_victim-IsSeen}
use llm_service_manager.Leases.Window.{turn, gives_up}
use llm_service_manager.Leases.Place.{
  Refusal, Dispatched, Pass, Loop, Next, Turned, quietly, refusal, timed_out, raises, first_action,
  action_of, is_hopeless, has_outstanding, account_of, is_identified, is_stop, kind_name, action_eq,
  when_enabled, lease_of, written, granted, placed, again_placed, decision_again, with_place,
  after_victim, submitted, again_stopped, with_victim, no_plan, acted, decided, reconciled,
  pass_once,
}

module _ {N : Type 0} ⦃F : Float N⦄ (request : ModelState N) (v : Pass N) where
  -- The pass holds the lock over a store, the controller is enabled, and no lease of the model is open.
  pub record IsOpen (s : IntentStore N) : Type 0 where
    pub on_time : v.before_deadline ≡ true
    pub over_store : v.reconciled ≡ inr s
    pub is_enabled : disabled v.admission.context s ≡ none
    pub is_single : has_outstanding v.snapshot request.name ≡ false

  -- The first action of a decision
  pub record IsChosen (s : IntentStore N) (waiting : Bool) (a : Action) : Type 0 where
    pub first : PlacementDecision N
    pub first_blockers : List (Blocker N)
    pub was_decided :
        decision v.admission s v.snapshot request waiting ≡ ok (some first, first_blockers)
    pub is_first : first_action first ≡ some a

  -- The decision was made again, and its first action is the same.
  pub record IsRepeated (s : IntentStore N) (a : Action) (d : PlacementDecision N) : Type 0 where
    pub waiting : Bool
    pub blockers : List (Blocker N)
    pub chosen : IsChosen s waiting a
    pub is_enabled_again : disabled v.admission_again.context s ≡ none
    pub again :
        decision v.admission_again s v.snapshot_again request waiting ≡ ok (some d, blockers)
    pub same_action : action_eq a (first_action d) ≡ true

  pub record IsGrant (util : N) (lease : Lease N) (after : IntentStore N) : Type 0 where
    pub store : IntentStore N
    pub action : Action
    pub decision_ : PlacementDecision N
    pub observation : UnitObservation
    pub claim : Option (RecoveryClaim N)
    pub is_open : IsOpen store
    pub places : is_place action ≡ true
    pub is_repeated : IsRepeated store action decision_
    pub inspected : v.inspect request.name ≡ inr observation
    pub is_absent : is_false observation.exists ≡ true
    pub still_in_time : v.in_time ≡ true
    pub lease_is : lease ≡ lease_of request v util decision_
    pub was_written : create_lease store lease v.unit false claim ≡ ok after

  pub record IsStopped (a : Action) : Type 0 where
    pub store : IntentStore N
    pub decision_ : PlacementDecision N
    pub account : Lease N
    pub observation : UnitObservation
    pub is_open : IsOpen store
    pub stops : is_stop a ≡ true
    pub is_repeated : IsRepeated store a decision_
    pub confirmed : account_of v.snapshot a.model ≡ some account
    pub inspected : v.inspect a.model ≡ inr observation
    pub runs : is_identified (some account) observation ≡ true

  -- What holds where the loop goes on, and where it grants a lease
  abbrev pub IsReady : N → (submitted : List Action) → Next N → Type 0
  IsReady util submitted (Next.goes_on l) = All (λ a. IsSeen a v.looks) submitted
  IsReady util submitted (Next.grants lease s) = IsGrant util lease s × (submitted ≡ [])
  IsReady util submitted _ = Unit

  abbrev pub IsGood : N → Turned N → Type 0
  IsGood util t = All IsStopped t.submitted × IsReady util t.submitted t.next

  raises-IsGood :
      (util : N) (blockers : List (Blocker N)) (r : Refusal N) → IsGood util (raises blockers r)
  raises-IsGood util blockers r =
      if_ind (λ n. IsGood util (quietly n)) (str_eq r.error "placement_timeout") (λ _. (tt, tt))
        (λ _. (tt, tt))

  no_plan-IsGood :
      (util grace : N) (l : Loop N) (bs : List (Blocker N)) (hopeless : Bool) (ends : Turned N)
      → no_plan request v grace l bs hopeless ≡ some ends
      → IsGood util ends
  no_plan-IsGood util grace l bs false ends e = cc
  no_plan-IsGood util grace l bs true ends e =
      AllSome-eq
        (if_ind AllSome v.is_over (λ _. raises-IsGood util bs (timed_out bs))
          (λ _.
            if_ind AllSome (gives_up grace l.window v.now v.sample)
              (λ _.
                if_ind (IsGood util) v.gave_up_late (λ _. raises-IsGood util bs (timed_out bs))
                  (λ _. (tt, tt)))
              (λ _. tt)))
        e
    where
      AllSome : Option (Turned N) → Type 0
      AllSome none = Unit
      AllSome (some t) = IsGood util t

      AllSome-eq : {o : Option (Turned N)} → AllSome o → o ≡ some ends → IsGood util ends
      AllSome-eq h e = subst AllSome e h

  when_enabled-IsGood :
      (util : N) (a : Admission N) (s : IntentStore N) (blockers : List (Blocker N))
      (next : Turned N)
      → (disabled a.context s ≡ none → IsGood util next)
      → IsGood util (when_enabled request v a s blockers next)
  when_enabled-IsGood util a s blockers next h = elim (Option-cases (disabled a.context s)) [
    | inl e ↦ rw (e, when_enabled) (h e)
    | inr ((status, error), e) ↦
        rw (e, when_enabled) (raises-IsGood util blockers (refusal status error []))
  ]

  module _ (util : N) (s : IntentStore N) (opened : IsOpen s) (l : Loop N) (a : Action)
      (chosen : IsChosen s l.waiting a) (bs : List (Blocker N)) where
    written-IsGood :
        (d : PlacementDecision N) (o : UnitObservation) (claim : Option (RecoveryClaim N))
        → is_place a ≡ true
        → IsRepeated s a d
        → v.inspect request.name ≡ inr o
        → is_false o.exists ≡ true
        → v.in_time ≡ true
        → (answer : Result (IntentStore N))
        → create_lease s (lease_of request v util d) v.unit false claim ≡ answer
        → IsGood util (written request v (lease_of request v util d) bs claim answer)
    written-IsGood d o claim places rep seen absent in_time (ok after) e = (
      tt,
      (
        record {
          store = s;
          action = a;
          decision_ = d;
          observation = o;
          claim = claim;
          is_open = opened;
          places = places;
          is_repeated = rep;
          inspected = seen;
          is_absent = absent;
          still_in_time = in_time;
          lease_is = refl;
          was_written = e;
        },
        refl,
      ),
    )
    written-IsGood d o none places rep seen absent in_time (err message) e = (tt, tt)
    written-IsGood d o (some c) places rep seen absent in_time (err message) e =
        raises-IsGood util bs (refusal 503 "sleeping_recovery_changed" [])

    granted-IsGood :
        (d : PlacementDecision N) (o : UnitObservation)
        → is_place a ≡ true
        → IsRepeated s a d
        → v.inspect request.name ≡ inr o
        → is_false o.exists ≡ true
        → v.in_time ≡ true
        → (context : String ⊎ Option (RecoveryClaim N))
        → IsGood util (granted request v util s d bs context)
    granted-IsGood d o places rep seen absent in_time (inl reason) =
        raises-IsGood util bs (refusal 503 reason [])
    granted-IsGood d o places rep seen absent in_time (inr claim) =
        written-IsGood d o claim places rep seen absent in_time _ refl

    placed-IsGood :
        (d : PlacementDecision N) (o : UnitObservation)
        → is_place a ≡ true
        → IsRepeated s a d
        → v.inspect request.name ≡ inr o
        → IsGood util (placed request v util s l bs o d)
    placed-IsGood d o places rep seen =
        if_ind (IsGood util) (is_false o.exists && v.in_time)
          (λ e.
            granted-IsGood d o places rep seen (ground (arith, e)) (ground (arith, e))
              (recovery_context v.admission_again s request.name))
          (λ _. (tt, tt))

    again_placed-IsGood :
        (o : UnitObservation)
        → is_place a ≡ true
        → v.inspect request.name ≡ inr o
        → disabled v.admission_again.context s ≡ none
        → (answer : Result (Verdict N)) → decision_again request v s l ≡ answer
        → IsGood util (again_placed request v util s l a bs o answer)
    again_placed-IsGood o places seen enabled (err message) e = (tt, tt)
    again_placed-IsGood o places seen enabled (ok (none, again)) e = (tt, tt)
    again_placed-IsGood o places seen enabled (ok (some d, again)) e =
        if_ind (IsGood util) (action_eq a (first_action d))
          (λ same.
            placed-IsGood d o places
              (record {
                waiting = l.waiting;
                blockers = again;
                chosen = chosen;
                is_enabled_again = enabled;
                again = e;
                same_action = same;
              })
              seen)
          (λ _. (tt, tt))

    with_place-IsGood :
        is_place a ≡ true
        → (seen : Refusal N ⊎ UnitObservation) → v.inspect request.name ≡ seen
        → IsGood util (with_place request v util s l a bs seen)
    with_place-IsGood places (inl r) e = raises-IsGood util bs r
    with_place-IsGood places (inr o) e =
        when_enabled-IsGood util v.admission_again s bs _
          (λ enabled. again_placed-IsGood o places e enabled (decision_again request v s l) refl)

    after_victim-IsReady :
        (failure : Option String) → IsReady util (a ∷ []) (after_victim request v l a bs failure)
    after_victim-IsReady failure =
        if_ind (IsReady util (a ∷ [])) (is_some failure || not (observe_victim a none v.looks))
          (λ _. if_ind (IsReady util (a ∷ [])) v.ended_late (λ _. tt) (λ _. tt))
          (λ e. (observe_victim-IsSeen a v.looks (ground (arith, e)), tt))

    submitted-IsGood : IsStopped a → (d : Dispatched) → IsGood util (submitted request v l a bs d)
    submitted-IsGood h Dispatched.done = ((h, tt), after_victim-IsReady none)
    submitted-IsGood h (Dispatched.declined reason) = ((h, tt), after_victim-IsReady (some reason))
    submitted-IsGood h (Dispatched.broken message) = ((h, tt), tt)

    again_stopped-IsGood :
        (account : Lease N) (o : UnitObservation)
        → is_stop a ≡ true
        → account_of v.snapshot a.model ≡ some account
        → v.inspect a.model ≡ inr o
        → is_identified (some account) o ≡ true
        → disabled v.admission_again.context s ≡ none
        → (answer : Result (Verdict N)) → decision_again request v s l ≡ answer
        → IsGood util (again_stopped request v l a bs answer)
    again_stopped-IsGood account o stops known seen runs enabled (err message) e = (tt, tt)
    again_stopped-IsGood account o stops known seen runs enabled (ok (none, again)) e = (tt, tt)
    again_stopped-IsGood account o stops known seen runs enabled (ok (some d, again)) e =
        if_ind (IsGood util) (action_eq a (first_action d))
          (λ same.
            submitted-IsGood
              (record {
                store = s;
                decision_ = d;
                account = account;
                observation = o;
                is_open = opened;
                stops = stops;
                is_repeated = record {
                  waiting = l.waiting;
                  blockers = again;
                  chosen = chosen;
                  is_enabled_again = enabled;
                  again = e;
                  same_action = same;
                };
                confirmed = known;
                inspected = seen;
                runs = runs;
              })
              v.dispatched)
          (λ _. (tt, tt))

    identified-IsGood :
        (o : UnitObservation)
        → is_stop a ≡ true
        → v.inspect a.model ≡ inr o
        → (account : Option (Lease N)) → account_of v.snapshot a.model ≡ account
        → is_identified account o ≡ true
        → IsGood util (
            when_enabled request v v.admission_again s bs
              (again_stopped request v l a bs (decision_again request v s l)))
    identified-IsGood o stops seen none known runs = absurd (ground (arith, runs))
    identified-IsGood o stops seen (some account) known runs =
        when_enabled-IsGood util v.admission_again s bs _ (λ enabled.
          again_stopped-IsGood account o stops known seen runs enabled
            (decision_again request v s l) refl)

    with_victim-IsGood :
        is_stop a ≡ true
        → (seen : Refusal N ⊎ UnitObservation) → v.inspect a.model ≡ seen
        → IsGood util (with_victim request v s l a bs seen)
    with_victim-IsGood stops (inl r) e = raises-IsGood util bs r
    with_victim-IsGood stops (inr o) e =
        if_ind (IsGood util) (is_identified (account_of v.snapshot a.model) o)
          (identified-IsGood o stops e (account_of v.snapshot a.model) refl)
          (λ _. raises-IsGood util bs (
            refusal 503 "placement_action_blocked"
              (blocker (some a.model) "unit_identity_unconfirmed" a.gpu ∷ [])))

  module _ (util grace : N) (s : IntentStore N) (opened : IsOpen s) where
    acted-IsGood :
        (l : Loop N) (bs : List (Blocker N)) (a : Option Action)
        → ((x : Action) → a ≡ some x → IsChosen s l.waiting x)
        → IsGood util (acted request v util s l bs a)
    acted-IsGood l bs none h = (tt, tt)
    acted-IsGood l bs (some a) h =
        let chosen = h a refl in
        if_ind (IsGood util) (is_place a)
          (λ places.
            with_place-IsGood util s opened l a chosen bs places (v.inspect request.name) refl)
          (λ _.
            if_ind (IsGood util) (is_stop a)
              (λ stops.
                with_victim-IsGood util s opened l a chosen bs stops (v.inspect a.model) refl)
              (λ _. raises-IsGood util bs (
                refusal 503 "placement_action_not_supported"
                  (blocker (some a.model) (kind_name a.kind) none ∷ []))))

    choose :
        (waiting : Bool) (d : Option (PlacementDecision N)) (bs : List (Blocker N))
        → decision v.admission s v.snapshot request waiting ≡ ok (d, bs)
        → (x : Action) → action_of d ≡ some x
        → IsChosen s waiting x
    choose waiting none bs e x is = absurd (ground (arith, is))
    choose waiting (some d) bs e x is = record {
      first = d;
      first_blockers = bs;
      was_decided = e;
      is_first = is;
    }

    decided-IsGood :
        (l : Loop N) (answer : Result (Verdict N))
        → decision v.admission s v.snapshot request l.waiting ≡ answer
        → IsGood util (decided request v util grace s l answer)
    decided-IsGood l (err message) made = (tt, tt)
    decided-IsGood l (ok (d, bs)) made =
        elim (Option-cases (no_plan request v grace l bs (is_hopeless d))) [
          | inr (ends, e) ↦ rw (e, decided) (no_plan-IsGood util grace l bs (is_hopeless d) ends e)
          | inl e ↦
              rw (e, decided)
                (acted-IsGood
                  (record l {
                    window = turn l.window (is_hopeless d) v.now v.sample;
                    blockers = bs;
                  })
                  bs (action_of d) (choose l.waiting d bs made))
        ]

  reconciled-IsGood :
      (util grace : N) (l : Loop N)
      → v.before_deadline ≡ true
      → (r : Refusal N ⊎ IntentStore N) → v.reconciled ≡ r
      → IsGood util (reconciled request v util grace l r)
  reconciled-IsGood util grace l on_time (inl r) e = raises-IsGood util l.blockers r
  reconciled-IsGood util grace l on_time (inr s) e =
      if_ind (IsGood util) (not v.locked) (λ _. raises-IsGood util l.blockers (timed_out []))
        (λ _. when_enabled-IsGood util v.admission s l.blockers _ (λ enabled.
          if_ind (IsGood util) (has_outstanding v.snapshot request.name)
            (λ _. raises-IsGood util l.blockers (
              refusal 409 "outstanding_lease"
                (blocker (some request.name) "outstanding_lease" none ∷ [])))
            (λ single.
              decided-IsGood util grace s
                (record {
                  on_time = on_time;
                  over_store = e;
                  is_enabled = enabled;
                  is_single = single;
                })
                l (decision v.admission s v.snapshot request l.waiting) refl)))

  pub pass_once-IsGood :
      (util grace : N) (l : Loop N) → IsGood util (pass_once request v util grace l)
  unfolding pass_once
  pass_once-IsGood util grace l =
      if_ind (IsGood util) v.before_deadline
        (λ on_time. reconciled-IsGood util grace l on_time v.reconciled refl) (λ _. (tt, tt))
