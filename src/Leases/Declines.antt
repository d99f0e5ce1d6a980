-- ===== src/Leases/Declines.antt =====
-- llmsvc/leases.py: what `place` has seen when it declines a model that fits on no card.
use llm_service_manager.Prelude.{
  String, ◌≡◌, refl, ap, ◌∙◌, subst, Bool, true, false, not, Option, none, some, List, [], ◌∷◌,
  ◌++◌, ◌⊎◌, inl, inr, str_eq,
}
use llm_service_manager.Prelude.Tests.{Option-cases, if_ind}
use llm_service_manager.Prelude.Float.{Float}
use llm_service_manager.Prelude.Result.{Result, ok, err}
use llm_service_manager.State.{ModelState, Blocker, Action, blocker}
use llm_service_manager.Store.Rows.{IntentStore, RecoveryClaim}
use llm_service_manager.Policy.Placement.Plan.{PlacementDecision}
use llm_service_manager.Leases.Finish.{disabled}
use llm_service_manager.Leases.Admission.{Admission, Verdict, recovery_context, decision}
use llm_service_manager.Leases.Window.{
  Window, Round, closed, turn, window, gives_up, IsEvidence, gives_up-IsEvidence,
}
use llm_service_manager.Leases.Place.{
  Refusal, Pass, Loop, Next, Turned, Placed, quietly, refusal, timed_out, raises, action_of,
  is_hopeless, has_outstanding, when_enabled, no_plan, acted, decided, reconciled, pass_once,
  place_each, place,
}
use llm_service_manager.Leases.Kept.{Keeps, acted-Keeps}

module _ {N : Type 0} ⦃F : Float N⦄ (request : ModelState N) (v : Pass N) where
  -- The round of a pass: its decision, over the store that it reconciled, is hopeless or not.
  pub record IsRound (r : Round N) : Type 0 where
    pub store : IntentStore N
    pub waiting : Bool
    pub decided_ : Option (PlacementDecision N)
    pub blockers : List (Blocker N)
    pub over_store : v.reconciled ≡ inr store
    pub was_decided :
        decision v.admission store v.snapshot request waiting ≡ ok (decided_, blockers)
    pub same_hopeless : r.hopeless ≡ is_hopeless decided_
    pub same_time : r.now ≡ v.now
    pub same_sample : r.sample ≡ v.sample

  -- What a pass tells of the window of the loop
  abbrev Tells : (grace : N) → Window N → Next N → Type 0
  Tells grace w (Next.goes_on l) =
      (r : Round N) × IsRound r × (l.window ≡ turn w r.hopeless r.now r.sample)
  Tells grace w (Next.declines _) =
      (r : Round N) × IsRound r × (r.hopeless ≡ true) × (gives_up grace w r.now r.sample ≡ true)
  Tells grace w _ = Unit

  abbrev TellsTurned : (grace : N) → Window N → Turned N → Type 0
  TellsTurned grace w t = Tells grace w t.next

  raises-Tells :
      (grace : N) (w : Window N) (bs : List (Blocker N)) (r : Refusal N)
      → TellsTurned grace w (raises bs r)
  raises-Tells grace w bs r =
      if_ind (λ n. TellsTurned grace w (quietly n)) (str_eq r.error "placement_timeout") (λ _. tt)
        (λ _. tt)

  kept-Tells :
      (grace : N) (w : Window N) (r : Round N) (n : Next N)
      → IsRound r
      → Keeps request v (turn w r.hopeless r.now r.sample) n
      → Tells grace w n
  kept-Tells grace w r (Next.goes_on l) met same = (r, met, same)
  kept-Tells grace w r (Next.declines _) met same = absurd same
  kept-Tells grace w r (Next.refuses _) met same = tt
  kept-Tells grace w r (Next.fails message) met same = tt
  kept-Tells grace w r (Next.grants lease s) met same = tt

  no_plan-Tells :
      (grace : N) (l : Loop N) (bs : List (Blocker N)) (r : Round N)
      → IsRound r
      → r.now ≡ v.now
      → r.sample ≡ v.sample
      → (hopeless : Bool) → r.hopeless ≡ hopeless
      → (ends : Turned N) → no_plan request v grace l bs hopeless ≡ some ends
      → TellsTurned grace l.window ends
  no_plan-Tells grace l bs r met time sample false h ends e = cc
  no_plan-Tells grace l bs r met time sample true h ends e = subst AllSome e (
      if_ind AllSome v.is_over (λ _. raises-Tells grace l.window bs (timed_out bs))
        (λ _.
          if_ind AllSome (gives_up grace l.window v.now v.sample)
            (λ given.
              if_ind (TellsTurned grace l.window) v.gave_up_late
                (λ _. raises-Tells grace l.window bs (timed_out bs))
                (λ _. (r, met, h, rw (time, sample) given)))
            (λ _. tt)))
    where
      AllSome : Option (Turned N) → Type 0
      AllSome none = Unit
      AllSome (some t) = TellsTurned grace l.window t

  decided-Tells :
      (util grace : N) (s : IntentStore N) (l : Loop N) (answer : Result (Verdict N))
      → v.reconciled ≡ inr s
      → decision v.admission s v.snapshot request l.waiting ≡ answer
      → TellsTurned grace l.window (decided request v util grace s l answer)
  decided-Tells util grace s l (err message) over made = tt
  decided-Tells util grace s l (ok (d, bs)) over made =
      let r : Round N = record { hopeless = is_hopeless d; now = v.now; sample = v.sample } in
      let met : IsRound r = record {
        store = s;
        waiting = l.waiting;
        decided_ = d;
        blockers = bs;
        over_store = over;
        was_decided = made;
        same_hopeless = refl;
        same_time = refl;
        same_sample = refl;
      } in
      elim (Option-cases (no_plan request v grace l bs (is_hopeless d))) [
        | inr (ends, e) ↦
            rw (e, decided) (no_plan-Tells grace l bs r met refl refl (is_hopeless d) refl ends e)
        | inl e ↦
            let l' : Loop N = record l {
              window = turn l.window (is_hopeless d) v.now v.sample;
              blockers = bs;
            } in
            rw (e, decided)
              (kept-Tells grace l.window r (acted request v util s l' bs (action_of d)).next met
                (acted-Keeps request v util s l' bs (action_of d)))
      ]

  when_enabled-Tells :
      (grace : N) (w : Window N) (a : Admission N) (s : IntentStore N) (bs : List (Blocker N))
      (next : Turned N)
      → TellsTurned grace w next
      → TellsTurned grace w (when_enabled request v a s bs next)
  when_enabled-Tells grace w a s bs next h = elim (Option-cases (disabled a.context s)) [
    | inl e ↦ rw (e, when_enabled) h
    | inr ((status, error), e) ↦
        rw (e, when_enabled) (raises-Tells grace w bs (refusal status error []))
  ]

  reconciled-Tells :
      (util grace : N) (l : Loop N) (r : Refusal N ⊎ IntentStore N)
      → v.reconciled ≡ r
      → TellsTurned grace l.window (reconciled request v util grace l r)
  reconciled-Tells util grace l (inl r) e = raises-Tells grace l.window l.blockers r
  reconciled-Tells util grace l (inr s) e =
      if_ind (TellsTurned grace l.window) (not v.locked)
        (λ _. raises-Tells grace l.window l.blockers (timed_out []))
        (λ _. when_enabled-Tells grace l.window v.admission s l.blockers _ (
          if_ind (TellsTurned grace l.window) (has_outstanding v.snapshot request.name)
            (λ _. raises-Tells grace l.window l.blockers (
              refusal 409 "outstanding_lease"
                (blocker (some request.name) "outstanding_lease" none ∷ [])))
            (λ _.
              decided-Tells util grace s l (decision v.admission s v.snapshot request l.waiting) e
                refl)))

  pass_once-Tells :
      (util grace : N) (l : Loop N) → TellsTurned grace l.window (pass_once request v util grace l)
  unfolding pass_once
  pass_once-Tells util grace l =
      if_ind (TellsTurned grace l.window) v.before_deadline
        (λ _. reconciled-Tells util grace l v.reconciled refl) (λ _. tt)

module _ {N : Type 0} ⦃F : Float N⦄ (request : ModelState N) (grace : N) where
  -- The rounds of the passes, up to one in which they are evidence enough
  pub data IsDeclined : (past : List (Round N)) → List (Pass N) → Type 0 where
    now_ :
        {past : List (Round N)} {v : Pass N} {vs : List (Pass N)} (r : Round N)
        → IsRound request v r
        → IsEvidence grace v.now (r ∷ past)
        → IsDeclined past (v ∷ vs)
    later :
        {past : List (Round N)} {v : Pass N} {vs : List (Pass N)} (r : Round N)
        → IsRound request v r
        → IsDeclined (r ∷ past) vs
        → IsDeclined past (v ∷ vs)

module _ {N : Type 0} ⦃F : Float N⦄ (request : ModelState N) (util grace : N) where
  abbrev Explained : List (Round N) → List (Pass N) → Next N → Type 0
  Explained past passes (Next.declines r) = IsDeclined request grace past passes
  Explained past passes _ = Unit

  behind-Explained :
      (past : List (Round N)) (v : Pass N) (vs : List (Pass N)) (r : Round N) (n : Next N)
      → IsRound request v r
      → Explained (r ∷ past) vs n
      → Explained past (v ∷ vs) n
  behind-Explained past v vs r (Next.declines _) met h = IsDeclined.later r met h
  behind-Explained past v vs r (Next.goes_on l) met h = tt
  behind-Explained past v vs r (Next.refuses _) met h = tt
  behind-Explained past v vs r (Next.fails message) met h = tt
  behind-Explained past v vs r (Next.grants lease s) met h = tt

  -- What a turn makes of the rest of the loop
  abbrev turned : Turned N → (Loop N → Placed N) → Placed N
  turned t k = elim t.next [
    | Next.goes_on l' ↦ let rest = k l' in record rest { stops = t.submitted ++ rest.stops }
    | Next.refuses r ↦ record { stops = t.submitted; ending = Next.refuses r }
    | Next.declines r ↦ record { stops = t.submitted; ending = Next.declines r }
    | Next.fails message ↦ record { stops = t.submitted; ending = Next.fails message }
    | Next.grants lease s ↦ record { stops = t.submitted; ending = Next.grants lease s }
  ]

  turned-Explained :
      (past : List (Round N)) (v : Pass N) (vs : List (Pass N)) (w : Window N) (stops : List Action)
      (n : Next N) (k : Loop N → Placed N)
      → w ≡ window past
      → Tells request v grace w n
      → ((r : Round N) (l : Loop N)
          → l.window ≡ turn w r.hopeless r.now r.sample
          → Explained (r ∷ past) vs (k l).ending)
      → Explained past (v ∷ vs) (turned (record { submitted = stops; next = n }) k).ending
  turned-Explained past v vs w stops (Next.goes_on l) k same (r, met, moved) rest =
      behind-Explained past v vs r (k l).ending met (rest r l moved)
  turned-Explained past v vs w stops (Next.declines x) k same (r, met, hopeless, given) rest =
      IsDeclined.now_ r met (
        subst (λ t. IsEvidence grace t (r ∷ past)) met.same_time
          (gives_up-IsEvidence grace r past hopeless
            (subst (λ w. gives_up grace w r.now r.sample ≡ true) same given)))
  turned-Explained past v vs w stops (Next.refuses x) k same tells rest = tt
  turned-Explained past v vs w stops (Next.fails message) k same tells rest = tt
  turned-Explained past v vs w stops (Next.grants lease s) k same tells rest = tt

  place_each-Explained :
      (passes : List (Pass N)) (past : List (Round N)) (l : Loop N)
      → l.window ≡ window past
      → Explained past passes (place_each request util grace l passes).ending
  unfolding place_each window
  place_each-Explained [] past l same = tt
  place_each-Explained (v ∷ vs) past l same =
      let t = pass_once request v util grace l in
      turned-Explained past v vs l.window t.submitted t.next
        (λ l'. place_each request util grace l' vs) same (pass_once-Tells request v util grace l)
        (λ r l' moved.
          place_each-Explained vs (r ∷ past) l'
            (moved ∙ ap (λ w. turn w r.hopeless r.now r.sample) same))

  place-Explained :
      (a : Admission N) (s : IntentStore N) (passes : List (Pass N))
      → Explained [] passes (place request util grace a s passes).ending
  unfolding place window
  place-Explained a s passes = elim (Option-cases (disabled a.context s)) [
    | inr ((status, error), e) ↦ rw (e, place) tt
    | inl e ↦ rw (e, place) (begun (recovery_context a s request.name))
  ]
    where
      begun :
          (context : String ⊎ Option (RecoveryClaim N))
          → Explained [] passes (
              Placed.ending (elim context [
                | inl reason ↦ record { stops = []; ending = Next.refuses (refusal 503 reason []) }
                | inr claim ↦
                    place_each request util grace
                      (record { window = closed; waiting = false; blockers = [] })
                      passes
              ]))
      begun (inl reason) = tt
      begun (inr claim) = place_each-Explained passes [] _ refl

  -- When `place` declines a model, then some pass has the evidence: its decision and those of all passes back
  -- to some time were hopeless, at least two samples were seen in them, each newer in every part than the one
  -- before, the time of grace has passed, and the last collector round ended after it.
  pub place-IsDeclined :
      (a : Admission N) (s : IntentStore N) (passes : List (Pass N)) (r : Refusal N)
      → (place request util grace a s passes).ending ≡ Next.declines r
      → IsDeclined request grace [] passes
  place-IsDeclined a s passes r e = subst (Explained [] passes) e (place-Explained a s passes)
